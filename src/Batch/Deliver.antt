-- ===== src/Batch/Deliver.antt =====
-- What `flush_locked` sends: the host reads exactly the packets that the batch held.
use nrf54l15_sniffer.Base.{
  ◌≤◌, ◌≡◌, ◌≢◌, refl, sym, ap, ◌∙◌, Bytes, length, take, drop, List, [], ◌∷◌, ◌++◌, some, le_bytes,
  arith, append_assoc, append-nil, length-append, take-length, drop-prefix, take-prefix,
  write_at-zero, ◌==◌, if◌then◌else◌, true, false,
}
use nrf54l15_sniffer.Wire.{FrameType, packet, packet_batch}
use nrf54l15_sniffer.Batch.{
  Batch, Packet, one_payload, write_header, meta_bytes, header_len, max_batch_bytes,
}
use nrf54l15_sniffer.Batch.Format.{
  encode_entries, entry_of, decode, decode_packet_lem, decode_batch_lem, decode_entries,
  decode_entries-encode_entries,
}
use nrf54l15_sniffer.Batch.Invariant.{Holds, used-le}

-- What `flush_locked` hands to the link for a batch that is not empty.
abbrev pub sent_kind : Batch → FrameType
sent_kind s = if s.count == 1 then packet else packet_batch

abbrev pub sent_payload : Batch → Bytes
sent_payload s = if s.count == 1 then one_payload s else take s.used (write_header s).buf

one_payload_lem :
    {s : Batch} {p : Packet}
    → Holds s (p ∷ [])
    → one_payload s ≡ meta_bytes s.channel p.lqi p.rssi s.base_us ++ p.psdu
unfolding one_payload
one_payload_lem {s} {p} h =
    rw behind
      (ap (λ bs. meta_bytes s.channel p.lqi p.rssi s.base_us ++ bs) (take-length p.psdu h.unused))
  where
    behind : drop header_len s.buf ≡ entry_of s.base_us p ++ h.unused
    behind =
        ap (λ bs. drop header_len bs) h.image
        ∙ drop-prefix header_len h.header _ h.header_is
        ∙ ap (λ bs. bs ++ h.unused) (append-nil (entry_of s.base_us p))

batch_payload_lem :
    {s : Batch} {ps : List Packet}
    → Holds s ps
    → take s.used (write_header s).buf
      ≡ (le_bytes 8 s.base_us ++ s.channel ∷ s.count ∷ []) ++ encode_entries s.base_us ps
batch_payload_lem {s} {ps} h =
    ap (λ bs. take s.used bs) (written ∙ sym (append_assoc header _ h.unused))
    ∙ take-prefix s.used (header ++ encode_entries s.base_us ps) h.unused (sym used)
  where
    header : Bytes
    header = le_bytes 8 s.base_us ++ s.channel ∷ s.count ∷ []

    behind : drop header_len s.buf ≡ encode_entries s.base_us ps ++ h.unused
    behind = ap (λ bs. drop header_len bs) h.image ∙ drop-prefix header_len h.header _ h.header_is

    written : (write_header s).buf ≡ header ++ (encode_entries s.base_us ps ++ h.unused)
    written = write_at-zero s.buf header (omega (arith, h.whole)) ∙ ap (λ bs. header ++ bs) behind

    used : s.used ≡ length (header ++ encode_entries s.base_us ps)
    used = omega (arith, h.used_is, length-append header (encode_entries s.base_us ps))

-- Whatever the batch holds, the host reads those packets from the frame that closes it.
pub decode-sent_payload :
    {s : Batch} (ps : List Packet)
    → Holds s ps
    → ps ≢ []
    → decode (sent_kind s) (sent_payload s) ≡ some ps
unfolding decode
decode-sent_payload [] h ne = absurd (ne refl)
decode-sent_payload {s} (p ∷ []) h ne =
    rw (single, one_payload_lem h)
      (decode_packet_lem s.channel p.lqi p.rssi s.base_us p.psdu h.base_fits
        ∙ rw (h.fits.0, h.starts))
  where
    single : (s.count == 1) ≡ true
    single = ground (arith, h.count_is)
decode-sent_payload {s} (p ∷ q ∷ ps) h ne =
    rw (several, batch_payload_lem h)
      (decode_batch_lem s.channel s.base_us s.count _ h.base_fits
        ∙ ap (λ n. decode_entries n s.channel s.base_us (encode_entries s.base_us (p ∷ q ∷ ps)))
            h.count_is
        ∙ decode_entries-encode_entries s.channel s.base_us (p ∷ q ∷ ps) h.fits)
  where
    several : (s.count == 1) ≡ false
    several = ground (arith, h.count_is)

-- No frame is longer than the batch buffer, which a frame has room for.
pub length-sent_payload :
    {s : Batch} (ps : List Packet)
    → Holds s ps
    → ps ≢ []
    → length (sent_payload s) ≤ max_batch_bytes
length-sent_payload [] h ne = absurd (ne refl)
length-sent_payload {s} (p ∷ []) h ne = rw (single, one_payload_lem h) (omega (arith, h.fits.3))
  where
    single : (s.count == 1) ≡ true
    single = ground (arith, h.count_is)
length-sent_payload {s} (p ∷ q ∷ ps) h ne =
    rw (several, batch_payload_lem h) (omega (arith, used-le h, h.used_is))
  where
    several : (s.count == 1) ≡ false
    several = ground (arith, h.count_is)
