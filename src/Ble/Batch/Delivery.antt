-- ===== src/Ble/Batch/Delivery.antt =====
-- The batches of src/radio_ble.c: which packets were sent and which are held, kept by every flush and
-- every packet that is added.
use mathlib.Core.Option
use nrf54l15_sniffer.Base.{
  suc, ◌≡◌, ◌≢◌, refl, sym, ap, ◌∙◌, length, drop, List, [], ◌∷◌, ◌++◌, arith, append-nil,
  write_at-zero, ◌==◌, if◌then◌else◌, false, is_ok, Bool, Bool-cases, inl, inr, le_bytes,
  length-write_at, drop-prefix,
}
use nrf54l15_sniffer.Wire.{packet}
use nrf54l15_sniffer.LinkApi.{LinkApi, Sent, recording}
use nrf54l15_sniffer.LinkApi.Carried.{carried, Short, carried-append, Short-append}
use nrf54l15_sniffer.Ble.{BleBatch, Counters, batch_buf_len, batch_hdr_len}
use nrf54l15_sniffer.Ble.Batch.{alone_payload, write_header, flush_locked, emptied, count_sent}
use nrf54l15_sniffer.Ble.Batch.Format.{BlePacket, encode_entries, decode}
use nrf54l15_sniffer.Ble.Batch.Invariant.{Holds}
use nrf54l15_sniffer.Ble.Batch.Deliver.{
  sent_kind, sent_payload, decode-sent_payload, length-sent_payload,
}

-- The packets that the host reads from a frame.
abbrev pub packets_of : Sent → List BlePacket
packets_of f = Option.get_or (decode f.kind f.payload) []

-- The batch holds `held`; before that, `log` was sent of the packets `given`.
pub record Books (s : BleBatch) (log : List Sent) (given held : List BlePacket) : Type 0 where
  pub holds : Holds s held
  pub conserved : carried packets_of log ++ held ≡ given
  pub short : Short batch_buf_len log

emptied-Holds : {s : BleBatch} {ps : List BlePacket} → Holds s ps → Holds (emptied s) []
emptied-Holds {s} {ps} h = record {
  header = h.header;
  unused = encode_entries s.base_us ps ++ h.unused;
  image = h.image;
  header_is = h.header_is;
  whole = h.whole;
  used_is = omega arith;
  count_is = refl;
  count_le = omega arith;
  fits = tt;
  starts = tt;
  last_is = λ e. absurd (e refl);
  base_fits = h.base_fits;
}

set_linger-Holds :
    {s : BleBatch} {ps : List BlePacket} (b : Bool)
    → Holds s ps
    → Holds (record s { linger = b }) ps
set_linger-Holds {s} {ps} b h = record {
  header = h.header;
  unused = h.unused;
  image = h.image;
  header_is = h.header_is;
  whole = h.whole;
  used_is = h.used_is;
  count_is = h.count_is;
  count_le = h.count_le;
  fits = h.fits;
  starts = h.starts;
  last_is = h.last_is;
  base_fits = h.base_fits;
}

pub set_linger-Books :
    {s : BleBatch} {log : List Sent} {given held : List BlePacket} (b : Bool)
    → Books s log given held
    → Books (record s { linger = b }) log given held
set_linger-Books b k = record {
  holds = set_linger-Holds b k.holds;
  conserved = k.conserved;
  short = k.short;
}

write_header-Holds : {s : BleBatch} {ps : List BlePacket} → Holds s ps → Holds (write_header s) ps
write_header-Holds {s} {ps} h = record {
  header = le_bytes 8 s.base_us ++ s.count ∷ [];
  unused = h.unused;
  image =
      write_at-zero s.buf _ (omega (arith, h.whole))
      ∙ ap (λ bs. (le_bytes 8 s.base_us ++ s.count ∷ []) ++ bs)
          (ap (λ bs. drop batch_hdr_len bs) h.image
            ∙ drop-prefix batch_hdr_len h.header _ h.header_is);
  header_is = refl;
  whole = length-write_at s.buf 0 _ ∙ h.whole;
  used_is = h.used_is;
  count_is = h.count_is;
  count_le = h.count_le;
  fits = h.fits;
  starts = h.starts;
  last_is = h.last_is;
  base_fits = h.base_fits;
}

abbrev written : BleBatch → BleBatch
written s = if s.count == 1 then s else write_header s

written-Holds : {s : BleBatch} {ps : List BlePacket} → Holds s ps → Holds (written s) ps
written-Holds {s} h = elim (Bool-cases (s.count == 1)) [
  | inl one ↦ rw one h
  | inr many ↦ rw many (write_header-Holds h)
]

module _ (link : LinkApi) where
  -- The call of the link that a flush makes, as it is written down.
  abbrev pub sent_frame : BleBatch → link.State → Sent
  sent_frame s l = record {
    kind = sent_kind s;
    payload = sent_payload s;
    accepted = is_ok (link.send (sent_kind s) (sent_payload s) l).0;
  }

  pub flush_locked-empty :
      (s : BleBatch) (k : Counters) (l : link.State)
      → s.count ≡ 0
      → flush_locked link s k l ≡ (s, k, l)
  unfolding flush_locked
  flush_locked-empty s k l e = ground arith

  pub flush_locked-sends :
      (s : BleBatch) (k : Counters) (l : link.State)
      → s.count ≢ 0
      → flush_locked link s k l ≡ (
          let (code, l') = link.send (sent_kind s) (sent_payload s) l in
          (emptied (written s), count_sent (is_ok code) s.count k, l'))
  unfolding flush_locked
  flush_locked-sends s k l ne = elim (Bool-cases (s.count == 1)) [
    | inl one ↦
        let single : s.count ≡ 1 = ground arith in
        let (code, l') = link.send packet (alone_payload s) l in
        rw (some_held, one) (ap (λ n. (emptied s, count_sent (is_ok code) n k, l')) (sym single))
    | inr many ↦ rw (some_held, many)
  ]
    where
      some_held : (s.count == 0) ≡ false
      some_held = ground arith

pub some_held :
    {s : BleBatch} {p : BlePacket} {ps : List BlePacket} → Holds s (p ∷ ps) → s.count ≢ 0
some_held {s} {p} {ps} h e = let n : s.count ≡ suc (length ps) = h.count_is in omega arith

module _ (link : LinkApi) where
  -- The host reads from the frame what the batch held.
  pub packets_of-sent_frame :
      {s : BleBatch} (p : BlePacket) (ps : List BlePacket) (l : link.State)
      → Holds s (p ∷ ps)
      → packets_of (sent_frame link s l) ≡ p ∷ ps
  packets_of-sent_frame p ps l h = rw (decode-sent_payload (p ∷ ps) h cc)

  pub flush-Books :
      {s : BleBatch} (k : Counters) (l : link.State) {log : List Sent} {given : List BlePacket}
      (held : List BlePacket)
      → Books s log given held
      → let (s', k', (l', log')) = flush_locked (recording link) s k (l, log) in
        Books s' log' given []
  flush-Books {s} k l {log} {given} [] b =
      rw (flush_locked-empty (recording link) s k (l, log) b.holds.count_is) b
  flush-Books {s} k l {log} {given} (p ∷ ps) b =
      rw (flush_locked-sends (recording link) s k (l, log) (some_held b.holds)) (record {
        holds = emptied-Holds (written-Holds b.holds);
        conserved =
            append-nil _
            ∙ carried-append packets_of log (frame ∷ [])
            ∙ ap (λ qs. carried packets_of log ++ qs) (append-nil (packets_of frame) ∙ read)
            ∙ b.conserved;
        short =
            Short-append batch_buf_len log (frame ∷ []) b.short
              (length-sent_payload (p ∷ ps) b.holds cc, tt);
      })
    where
      frame : Sent
      frame = sent_frame link s l

      read : packets_of frame ≡ p ∷ ps
      read = packets_of-sent_frame p ps l b.holds
