-- ===== src/Batch/Books.antt =====
-- src/batch.c: the account of the packets sent, held and dropped, kept by a flush.
use mathlib.Core.Option
use nrf54l15_sniffer.Base.{
  ℕ, suc, ◌≡◌, ◌≢◌, refl, sym, ap, ◌∙◌, length, drop, List, [], ◌∷◌, ◌++◌, arith, append-nil, Bool,
  Code, write_at-zero, ◌==◌, if◌then◌else◌, false, is_ok, u32, Bool-cases, inl, inr, le_bytes,
  length-write_at, drop-prefix,
}
use nrf54l15_sniffer.Wire.{packet}
use nrf54l15_sniffer.LinkApi.{LinkApi, Sent, recording}
use nrf54l15_sniffer.LinkApi.Carried.{
  carried, refused, Short, carried-append, refused-append, Short-append,
}
use nrf54l15_sniffer.Batch.{
  Batch, Packet, one_payload, write_header, flush_locked, header_len, max_batch_bytes, close,
}
use nrf54l15_sniffer.Batch.Format.{encode_entries, decode}
use nrf54l15_sniffer.Batch.Invariant.{Holds}
use nrf54l15_sniffer.Batch.Deliver.{
  sent_kind, sent_payload, decode-sent_payload, length-sent_payload,
}

-- The packets that the host reads from a frame.
abbrev pub packets_of : Sent → List Packet
packets_of f = Option.get_or (decode f.kind f.payload) []

-- The state `s` holds `held`; before that, `log` was sent of the packets `given`.
pub record Books (s : Batch) (log : List Sent) (given held : List Packet) : Type 0 where
  pub holds : Holds s held
  pub conserved : carried packets_of log ++ held ≡ given
  pub dropped_is : s.dropped ≡ u32 (refused packets_of log)
  pub short : Short max_batch_bytes log

close-Holds :
    {s : Batch} {ps : List Packet} (ok : Bool) (n : ℕ) → Holds s ps → Holds (close s ok n) []
close-Holds {s} {ps} ok n h = record {
  header = h.header;
  unused = encode_entries s.base_us ps ++ h.unused;
  image = h.image;
  header_is = h.header_is;
  whole = h.whole;
  used_is = omega arith;
  count_is = refl;
  count_lt = omega arith;
  fits = tt;
  starts = tt;
  last_is = λ e. absurd (e refl);
  base_fits = h.base_fits;
}

pub set_linger-Holds :
    {s : Batch} {ps : List Packet} (b : Bool) → Holds s ps → Holds (record s { linger = b }) ps
set_linger-Holds {s} {ps} b h = record {
  header = h.header;
  unused = h.unused;
  image = h.image;
  header_is = h.header_is;
  whole = h.whole;
  used_is = h.used_is;
  count_is = h.count_is;
  count_lt = h.count_lt;
  fits = h.fits;
  starts = h.starts;
  last_is = h.last_is;
  base_fits = h.base_fits;
}

write_header-Holds : {s : Batch} {ps : List Packet} → Holds s ps → Holds (write_header s) ps
write_header-Holds {s} {ps} h = record {
  header = le_bytes 8 s.base_us ++ s.channel ∷ s.count ∷ [];
  unused = h.unused;
  image =
      write_at-zero s.buf _ (omega (arith, h.whole))
      ∙ ap (λ bs. (le_bytes 8 s.base_us ++ s.channel ∷ s.count ∷ []) ++ bs)
          (ap (λ bs. drop header_len bs) h.image ∙ drop-prefix header_len h.header _ h.header_is);
  header_is = refl;
  whole = length-write_at s.buf 0 _ ∙ h.whole;
  used_is = h.used_is;
  count_is = h.count_is;
  count_lt = h.count_lt;
  fits = h.fits;
  starts = h.starts;
  last_is = h.last_is;
  base_fits = h.base_fits;
}

module _ (link : LinkApi) where
  abbrev written : Batch → Batch
  written s = if s.count == 1 then s else write_header s

  flush_locked-empty : (s : Batch) (l : link.State) → s.count ≡ 0 → flush_locked link s l ≡ (s, l)
  unfolding flush_locked
  flush_locked-empty s l e = ground arith

  flush_locked-sends :
      (s : Batch) (l : link.State)
      → s.count ≢ 0
      → flush_locked link s l ≡ (
          let (code, l') = link.send (sent_kind s) (sent_payload s) l in
          (close (written s) (is_ok code) s.count, l'))
  unfolding flush_locked
  flush_locked-sends s l ne = elim (Bool-cases (s.count == 1)) [
    | inl one ↦
        let single : s.count ≡ 1 = ground arith in
        rw (some_held, one)
          (ap (λ n. let (code, l') = sent in (close s (is_ok code) n, l')) (sym single))
    | inr many ↦ rw (some_held, many)
  ]
    where
      some_held : (s.count == 0) ≡ false
      some_held = ground arith

      sent : Code × link.State
      sent = link.send packet (one_payload s) l

  written-Holds : {s : Batch} {ps : List Packet} → Holds s ps → Holds (written s) ps
  written-Holds {s} h = elim (Bool-cases (s.count == 1)) [
    | inl one ↦ rw one h
    | inr many ↦ rw many (write_header-Holds h)
  ]

-- The call of the link that a flush makes, as it is written down.
abbrev sent_frame : (link : LinkApi) → Batch → link.State → Sent
sent_frame link s l = record {
  kind = sent_kind s;
  payload = sent_payload s;
  accepted = is_ok (link.send (sent_kind s) (sent_payload s) l).0;
}

packets_of-sent_frame :
    (link : LinkApi) {s : Batch} (l : link.State) {ps : List Packet}
    → Holds s ps
    → ps ≢ []
    → packets_of (sent_frame link s l) ≡ ps
packets_of-sent_frame link l {ps} h ne = rw (decode-sent_payload ps h ne)

pub some_held : {s : Batch} {p : Packet} {ps : List Packet} → Holds s (p ∷ ps) → s.count ≢ 0
some_held {s} {p} {ps} h e = let n : s.count ≡ suc (length ps) = h.count_is in omega arith

module _ (link : LinkApi) where
  pub flush-Books :
      {s : Batch} (l : link.State) {log : List Sent} {given : List Packet} (held : List Packet)
      → Books s log given held
      → let (s', (l', log')) = flush_locked (recording link) s (l, log) in Books s' log' given []
  flush-Books {s} l {log} {given} [] b =
      rw (flush_locked-empty (recording link) s (l, log) b.holds.count_is) b
  flush-Books {s} l {log} {given} (p ∷ ps) b =
      rw (flush_locked-sends (recording link) s (l, log) (some_held b.holds)) (record {
        holds = close-Holds _ _ (written-Holds (recording link) b.holds);
        conserved =
            append-nil _
            ∙ carried-append packets_of log (frame ∷ [])
            ∙ ap (λ qs. carried packets_of log ++ qs) (append-nil (packets_of frame) ∙ read)
            ∙ b.conserved;
        dropped_is = ground (
          arith,
          b.dropped_is,
          refused-append packets_of log (frame ∷ []),
          ap length read,
          b.holds.count_is,
        );
        short =
            Short-append max_batch_bytes log (frame ∷ []) b.short
              (length-sent_payload (p ∷ ps) b.holds cc, tt);
      })
    where
      frame : Sent
      frame = sent_frame link s l

      read : packets_of frame ≡ p ∷ ps
      read = packets_of-sent_frame link l b.holds cc
