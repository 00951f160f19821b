-- ===== src/Ble/Batch/Invariant.antt =====
-- The open batch of src/radio_ble.c: which packets the buffer holds, and that an entry that is
-- appended stays inside it.
use nrf54l15_sniffer.Base.{
  ℕ, ◌+◌, ◌-◌, ◌^◌, ◌≤◌, ◌<◌, ◌≡◌, ◌≢◌, refl, sym, ap, ◌∙◌, Bytes, length, take, drop, List, [],
  ◌∷◌, ◌++◌, arith, append_assoc, append-nil, length-append, append_regroup, write_at-length,
  length-write_at, u16, sub64, length-replicate, length-ne-zero, ◌⊎◌, inl, inr, false,
}
use nrf54l15_sniffer.Ble.{BleBatch, initial, batch_buf_len, batch_hdr_len}
use nrf54l15_sniffer.Ble.Batch.{
  append_entry, open_at, must_close, entry_bytes, max_packet, entry_len, max_entries,
}
use nrf54l15_sniffer.Ble.Batch.Format.{
  BlePacket, encode_entries, entry_of, Fits, last_time, encode_entries-append, Fits-append,
}

-- The first packet of a run has the batch's base time.
abbrev pub StartsAt : ℕ → List BlePacket → Type 0
StartsAt base [] = Unit {0}
StartsAt base (p ∷ ps) = p.timestamp_us ≡ base

-- The batch holds the packets `ps`, oldest first.
pub record Holds (s : BleBatch) (ps : List BlePacket) : Type 0 where
  pub header : Bytes
  pub unused : Bytes
  pub image : s.buf ≡ header ++ (encode_entries s.base_us ps ++ unused)
  pub header_is : length header ≡ batch_hdr_len
  pub whole : length s.buf ≡ batch_buf_len
  pub used_is : s.used ≡ batch_hdr_len + length (encode_entries s.base_us ps)
  pub count_is : s.count ≡ length ps
  pub count_le : s.count ≤ max_entries
  pub fits : Fits s.base_us ps
  pub starts : StartsAt s.base_us ps
  pub last_is : ps ≢ [] → s.last_us ≡ last_time s.base_us ps
  pub base_fits : s.base_us < 2 ^ 64

StartsAt-append :
    {base : ℕ} (p : BlePacket) (ps : List BlePacket)
    → (ps ≡ [] → p.timestamp_us ≡ base)
    → StartsAt base ps
    → StartsAt base (ps ++ p ∷ [])
StartsAt-append p [] e h = e refl
StartsAt-append p (q ∷ ps) e h = h

last_time-append :
    (prev : ℕ) (ps : List BlePacket) (p : BlePacket)
    → last_time prev (ps ++ p ∷ []) ≡ p.timestamp_us
last_time-append prev [] p = refl
last_time-append prev (q ∷ ps) p = last_time-append q.timestamp_us ps p

pub initial-Holds : Holds initial.batch []
unfolding initial
initial-Holds = record {
  header = take 9 initial.batch.buf;
  unused = drop 9 initial.batch.buf;
  image = refl;
  header_is = refl;
  whole = length-replicate {A = ℕ} 2048 0;
  used_is = refl;
  count_is = refl;
  count_le = omega arith;
  fits = tt;
  starts = tt;
  last_is = λ h. absurd (h refl);
  base_fits = omega arith;
}

-- The entries stay inside the buffer.
pub used-le : {s : BleBatch} {ps : List BlePacket} → Holds s ps → s.used ≤ batch_buf_len
used-le {s} {ps} h = omega (
  arith,
  h.header_is,
  ap length h.image,
  length-append h.header (encode_entries s.base_us ps ++ h.unused),
  length-append (encode_entries s.base_us ps) h.unused,
)

-- A packet as `forward` hands it to the batch.
pub record IsPacket (p : BlePacket) : Type 0 where
  pub time_fits : p.timestamp_us < 2 ^ 64
  pub orig_fits : p.orig_len < 2 ^ 16
  pub kept_le : length p.kept ≤ max_packet

-- The packet may join the batch.
pub record Joins (s : BleBatch) (ps : List BlePacket) (p : BlePacket) : Type 0 where
  pub last_is : s.last_us ≡ last_time s.base_us ps
  pub not_before : s.last_us ≤ p.timestamp_us
  pub near : p.timestamp_us ≤ s.last_us + 0xffff
  pub room : s.used + entry_len + length p.kept ≤ batch_buf_len
  pub slot : s.count < max_entries
  pub first : ps ≡ [] → p.timestamp_us ≡ s.base_us

-- `append_entry` on the parts of a packet.
abbrev pub appended : BleBatch → BlePacket → BleBatch
appended s p = append_entry s p.timestamp_us p.orig_len p.flags p.kept

module _ {s : BleBatch} {ps : List BlePacket} {p : BlePacket} (k : IsPacket p) (h : Holds s ps)
    (j : Joins s ps p) where
  abbrev entries : Bytes
  entries = encode_entries s.base_us ps

  abbrev entry : Bytes
  entry = entry_of (last_time s.base_us ps) p

  entry_bytes-entry_of :
      entry_bytes (u16 (sub64 p.timestamp_us s.last_us)) p.orig_len p.flags p.kept ≡ entry
  entry_bytes-entry_of = rw (dt, j.last_is)
    where
      dt : u16 (sub64 p.timestamp_us s.last_us) ≡ p.timestamp_us - s.last_us
      dt = omega (arith, j.not_before, j.near, k.time_fits)

  image_after :
      (appended s p).buf ≡ h.header ++ ((entries ++ entry) ++ drop (length entry) h.unused)
  unfolding append_entry
  image_after =
      rw (entry_bytes-entry_of, h.image, ← append_assoc h.header entries h.unused, at_end)
        (write_at-length (h.header ++ entries) h.unused _ fits
          ∙ append_regroup h.header entries entry _)
    where
      at_end : s.used ≡ length (h.header ++ entries)
      at_end = omega (arith, h.used_is, h.header_is, length-append h.header entries)

      fits : length entry ≤ length h.unused
      fits = omega (
        arith,
        j.room,
        h.whole,
        ap length h.image,
        h.used_is,
        h.header_is,
        length-append h.header (entries ++ h.unused),
        length-append entries h.unused,
      )

  pub append_entry-Holds : Holds (appended s p) (ps ++ p ∷ [])
  unfolding append_entry
  append_entry-Holds = record {
    header = h.header;
    unused = drop (length entry) h.unused;
    image = image_after ∙ rw encoded;
    header_is = h.header_is;
    whole = length-write_at s.buf s.used _ ∙ h.whole;
    used_is = omega (arith, j.room, h.used_is, ap length encoded, length-append entries entry);
    count_is = omega (arith, j.slot, h.count_is, length-append ps (p ∷ []));
    count_le = omega (arith, j.slot);
    fits = Fits-append s.base_us ps (p ∷ []) h.fits (
      omega (arith, j.last_is, j.not_before),
      omega (arith, j.last_is, j.near),
      k.orig_fits,
      k.kept_le,
      tt,
    );
    starts = StartsAt-append p ps j.first h.starts;
    last_is = λ _. sym (last_time-append s.base_us ps p);
    base_fits = h.base_fits;
  }
    where
      encoded : encode_entries s.base_us (ps ++ p ∷ []) ≡ entries ++ entry
      encoded =
          encode_entries-append s.base_us ps (p ∷ []) ∙ ap (λ bs. entries ++ bs) (append-nil entry)

abbrev opened : BleBatch → BlePacket → BleBatch
opened s p = record s { base_us = p.timestamp_us; last_us = p.timestamp_us }

open_at-empty : (s : BleBatch) (p : BlePacket) → s.count ≡ 0 → open_at s p.timestamp_us ≡ opened s p
unfolding open_at
open_at-empty s p e = ground arith

open_at-open : (s : BleBatch) (t : ℕ) → s.count ≢ 0 → open_at s t ≡ s
unfolding open_at
open_at-open s t e = ground arith

module _ {s : BleBatch} (p : BlePacket) (k : IsPacket p) where
  opened-Holds : Holds s [] → Holds (opened s p) []
  opened-Holds h = record {
    header = h.header;
    unused = h.unused;
    image = h.image;
    header_is = h.header_is;
    whole = h.whole;
    used_is = h.used_is;
    count_is = h.count_is;
    count_le = h.count_le;
    fits = tt;
    starts = tt;
    last_is = λ e. absurd (e refl);
    base_fits = k.time_fits;
  }

  opened-Joins : Holds s [] → Joins (opened s p) [] p
  opened-Joins h = record {
    last_is = refl;
    not_before = omega arith;
    near = omega arith;
    room = omega (arith, h.used_is, k.kept_le);
    slot = omega (arith, h.count_is);
    first = λ _. refl;
  }

  -- A packet that does not close the batch joins it.
  not_must_close-Joins :
      {ps : List BlePacket}
      → Holds s ps
      → ps ≢ []
      → s.count < max_entries
      → must_close s p.timestamp_us (length p.kept) ≡ false
      → Joins s ps p
  not_must_close-Joins {ps} h ne slot c = record {
    last_is = h.last_is ne;
    not_before = ground arith;
    near = ground (arith, k.time_fits);
    room = ground (arith, used-le h, k.kept_le);
    slot = slot;
    first = λ e. absurd (ne e);
  }

  -- The packet goes behind what the batch holds, whether it opens the batch or joins it.
  pub appended-open_at-Holds :
      {ps : List BlePacket}
      → Holds s ps
      → (ps ≡ [])
        ⊎ ((ps ≢ [])
            × (s.count < max_entries)
            × (must_close s p.timestamp_us (length p.kept) ≡ false))
      → Holds (appended (open_at s p.timestamp_us) p) (ps ++ p ∷ [])
  appended-open_at-Holds {ps} h (inl e) =
      rw (e, open_at-empty s p (h.count_is ∙ ap length e))
        (append_entry-Holds k (opened-Holds (rw e at h)) (opened-Joins (rw e at h)))
  appended-open_at-Holds {ps} h (inr (ne, slot, c)) =
      rw (open_at-open s p.timestamp_us (λ e. length-ne-zero ps ne (sym h.count_is ∙ e)))
        (append_entry-Holds k h (not_must_close-Joins h ne slot c))
