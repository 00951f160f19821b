-- ===== src/Batch/Invariant.antt =====
-- The open batch of src/batch.c: which packets the buffer holds, and that an entry that is appended
-- stays inside it.
use nrf54l15_sniffer.Base.{
  ℕ, ◌+◌, ◌-◌, ◌%◌, ◌^◌, ◌≤◌, ◌<◌, ◌≡◌, ◌≢◌, refl, sym, ap, ◌∙◌, Bytes, length, take, drop, List,
  [], ◌∷◌, ◌++◌, arith, append_assoc, append-nil, length-append, append_regroup, write_at-length,
  length-write_at, u16, sub64, ltb, if◌then◌else◌, length-replicate,
}
use nrf54l15_sniffer.Batch.{
  Batch, Packet, initial, append_entry, entry_bytes, max_psdu, max_dt_us, max_batch_bytes,
  header_len, entry_len, max_entries,
}
use nrf54l15_sniffer.Batch.Format.{
  encode_entries, entry_of, Fits, last_time, encode_entries-append, Fits-append,
}

-- The first packet of a run has the batch's base time.
abbrev pub StartsAt : ℕ → List Packet → Type 0
StartsAt base [] = Unit {0}
StartsAt base (p ∷ ps) = p.timestamp_us ≡ base

-- The batch holds the packets `ps`, oldest first.
pub record Holds (s : Batch) (ps : List Packet) : Type 0 where
  pub header : Bytes
  pub unused : Bytes
  pub image : s.buf ≡ header ++ (encode_entries s.base_us ps ++ unused)
  pub header_is : length header ≡ header_len
  pub whole : length s.buf ≡ max_batch_bytes
  pub used_is : s.used ≡ header_len + length (encode_entries s.base_us ps)
  pub count_is : s.count ≡ length ps
  pub count_lt : s.count ≤ max_entries
  pub fits : Fits s.channel s.base_us ps
  pub starts : StartsAt s.base_us ps
  pub last_is : ps ≢ [] → s.last_us ≡ last_time s.base_us ps
  pub base_fits : s.base_us < 2 ^ 64

StartsAt-append :
    {base : ℕ} (p : Packet) (ps : List Packet)
    → (ps ≡ [] → p.timestamp_us ≡ base)
    → StartsAt base ps
    → StartsAt base (ps ++ p ∷ [])
StartsAt-append p [] e h = e refl
StartsAt-append p (q ∷ ps) e h = h

last_time-append :
    (prev : ℕ) (ps : List Packet) (p : Packet) → last_time prev (ps ++ p ∷ []) ≡ p.timestamp_us
last_time-append prev [] p = refl
last_time-append prev (q ∷ ps) p = last_time-append q.timestamp_us ps p

-- What `sn_batch_add` keeps of a packet.
abbrev pub clamp : Packet → Packet
clamp p = record p {
  psdu = take (if ltb max_psdu (length p.psdu) then max_psdu else length p.psdu) p.psdu;
}

pub initial-Holds : Holds initial []
unfolding initial
initial-Holds = record {
  header = take 10 initial.buf;
  unused = drop 10 initial.buf;
  image = refl;
  header_is = refl;
  whole = length-replicate {A = ℕ} 2048 0;
  used_is = refl;
  count_is = refl;
  count_lt = omega arith;
  fits = tt;
  starts = tt;
  last_is = λ h. absurd (h refl);
  base_fits = omega arith;
}

-- The entries stay inside the buffer.
pub used-le : {s : Batch} {ps : List Packet} → Holds s ps → s.used ≤ max_batch_bytes
used-le {s} {ps} h = omega (
  arith,
  h.header_is,
  ap length h.image,
  length-append h.header (encode_entries s.base_us ps ++ h.unused),
  length-append (encode_entries s.base_us ps) h.unused,
)

-- The packet may join the batch, with `len` bytes.
pub record Joins (s : Batch) (ps : List Packet) (p : Packet) (len : ℕ) : Type 0 where
  pub last_is : s.last_us ≡ last_time s.base_us ps
  pub same_channel : p.channel ≡ s.channel
  pub not_before : s.last_us ≤ p.timestamp_us
  pub near : p.timestamp_us ≤ s.last_us + max_dt_us
  pub time_fits : p.timestamp_us < 2 ^ 64
  pub room : s.used + entry_len + len ≤ max_batch_bytes
  pub slot : s.count < max_entries
  pub first : ps ≡ [] → p.timestamp_us ≡ s.base_us
  pub len_le : len ≤ max_psdu
  pub len_is : length (take len p.psdu) ≡ len

module _ {s : Batch} {ps : List Packet} {p : Packet} {len : ℕ} (h : Holds s ps)
    (j : Joins s ps p len) where
  abbrev kept : Packet
  kept = record p { psdu = take len p.psdu }

  abbrev entries : Bytes
  entries = encode_entries s.base_us ps

  entry_bytes-entry_of :
      entry_bytes (u16 (sub64 p.timestamp_us s.last_us)) p len
      ≡ entry_of (last_time s.base_us ps) kept
  entry_bytes-entry_of = rw (dt, width, j.len_is, j.last_is)
    where
      dt : u16 (sub64 p.timestamp_us s.last_us) ≡ p.timestamp_us - s.last_us
      dt = omega (arith, j.not_before, j.near, j.time_fits)

      width : len % 2 ^ 8 ≡ len
      width = omega (arith, j.len_le)

  length-entry_of : length (entry_of (last_time s.base_us ps) kept) ≡ entry_len + len
  length-entry_of = omega (arith, j.len_is)

  image_after :
      (append_entry s p len).buf
      ≡ h.header
        ++ ((entries ++ entry_of (last_time s.base_us ps) kept)
            ++ drop (length (entry_of (last_time s.base_us ps) kept)) h.unused)
  unfolding append_entry
  image_after =
      rw (entry_bytes-entry_of, h.image, ← append_assoc h.header entries h.unused, at_end)
        (write_at-length (h.header ++ entries) h.unused _ fits
          ∙ append_regroup h.header entries (entry_of (last_time s.base_us ps) kept) _)
    where
      at_end : s.used ≡ length (h.header ++ entries)
      at_end = omega (arith, h.used_is, h.header_is, length-append h.header entries)

      fits : length (entry_of (last_time s.base_us ps) kept) ≤ length h.unused
      fits = omega (
        arith,
        length-entry_of,
        j.room,
        h.whole,
        ap length h.image,
        h.used_is,
        h.header_is,
        length-append h.header (entries ++ h.unused),
        length-append entries h.unused,
      )

  pub append_entry-Holds : Holds (append_entry s p len) (ps ++ kept ∷ [])
  unfolding append_entry
  append_entry-Holds = record {
    header = h.header;
    unused = drop (length (entry_of (last_time s.base_us ps) kept)) h.unused;
    image = image_after ∙ rw encoded;
    header_is = h.header_is;
    whole = length-write_at s.buf s.used _ ∙ h.whole;
    used_is = omega (
      arith,
      j.room,
      h.used_is,
      length-entry_of,
      ap length encoded,
      length-append entries (entry_of (last_time s.base_us ps) kept),
    );
    count_is = omega (arith, j.slot, h.count_is, length-append ps (kept ∷ []));
    count_lt = omega (arith, j.slot);
    fits = Fits-append s.channel s.base_us ps (kept ∷ []) h.fits (
      j.same_channel,
      omega (arith, j.last_is, j.not_before),
      omega (arith, j.last_is, j.near),
      omega (arith, j.len_is, j.len_le),
      tt,
    );
    starts = StartsAt-append kept ps j.first h.starts;
    last_is = λ _. sym (last_time-append s.base_us ps kept);
    base_fits = h.base_fits;
  }
    where
      encoded :
          encode_entries s.base_us (ps ++ kept ∷ [])
          ≡ entries ++ entry_of (last_time s.base_us ps) kept
      encoded =
          encode_entries-append s.base_us ps (kept ∷ [])
          ∙ ap (λ bs. entries ++ bs) (append-nil (entry_of (last_time s.base_us ps) kept))
