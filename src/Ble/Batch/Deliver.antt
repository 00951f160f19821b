-- ===== src/Ble/Batch/Deliver.antt =====
-- What `ble_flush_locked` sends: the host reads exactly the packets that the batch held.
use nrf54l15_sniffer.Base.{
  ℕ, ◌+◌, ◌*◌, ◌/◌, ◌%◌, ◌^◌, ◌≤◌, ◌<◌, ◌≡◌, ◌≢◌, refl, sym, ap, ◌∙◌, Bytes, length, take, drop,
  List, [], ◌∷◌, ◌++◌, some, le_bytes, arith, append_assoc, append-nil, length-append, take-length,
  drop-prefix, take-prefix, write_at-zero, ◌==◌, if◌then◌else◌, true, false,
}
use nrf54l15_sniffer.Wire.{FrameType, packet, ble_batch}
use nrf54l15_sniffer.Ble.{BleBatch, batch_hdr_len, batch_buf_len}
use nrf54l15_sniffer.Ble.Batch.{alone_payload, write_header, meta_bytes}
use nrf54l15_sniffer.Ble.Batch.Format.{
  BlePacket, encode_entries, entry_of, decode, decode_packet_lem, decode_batch_lem, decode_entries,
  decode_entries-encode_entries,
}
use nrf54l15_sniffer.Ble.Batch.Invariant.{Holds, used-le}

-- What `ble_flush_locked` hands to the link for a batch that is not empty.
abbrev pub sent_kind : BleBatch → FrameType
sent_kind s = if s.count == 1 then packet else ble_batch

abbrev pub sent_payload : BleBatch → Bytes
sent_payload s = if s.count == 1 then alone_payload s else take s.used (write_header s).buf

-- The two bytes of a 16-bit field read back.
word : (v : ℕ) → v < 2 ^ 16 → v % 256 + 256 * (v / 256 % 256) ≡ v
word v h = omega arith

alone_payload_lem :
    {s : BleBatch} {p : BlePacket}
    → Holds s (p ∷ [])
    → alone_payload s ≡ meta_bytes s.base_us p.orig_len p.flags ++ p.kept
unfolding alone_payload
alone_payload_lem {s} {p} h =
    rw (behind, word p.orig_len h.fits.2, word (length p.kept) (omega (arith, h.fits.3)))
      (ap (λ bs. meta_bytes s.base_us p.orig_len p.flags ++ bs) (take-length p.kept h.unused))
  where
    behind : drop batch_hdr_len s.buf ≡ entry_of s.base_us p ++ h.unused
    behind =
        ap (λ bs. drop batch_hdr_len bs) h.image
        ∙ drop-prefix batch_hdr_len h.header _ h.header_is
        ∙ ap (λ bs. bs ++ h.unused) (append-nil (entry_of s.base_us p))

batch_payload_lem :
    {s : BleBatch} {ps : List BlePacket}
    → Holds s ps
    → take s.used (write_header s).buf
      ≡ (le_bytes 8 s.base_us ++ s.count ∷ []) ++ encode_entries s.base_us ps
batch_payload_lem {s} {ps} h =
    ap (λ bs. take s.used bs) (written ∙ sym (append_assoc header _ h.unused))
    ∙ take-prefix s.used (header ++ encode_entries s.base_us ps) h.unused (sym used)
  where
    header : Bytes
    header = le_bytes 8 s.base_us ++ s.count ∷ []

    behind : drop batch_hdr_len s.buf ≡ encode_entries s.base_us ps ++ h.unused
    behind =
        ap (λ bs. drop batch_hdr_len bs) h.image ∙ drop-prefix batch_hdr_len h.header _ h.header_is

    written : (write_header s).buf ≡ header ++ (encode_entries s.base_us ps ++ h.unused)
    written = write_at-zero s.buf header (omega (arith, h.whole)) ∙ ap (λ bs. header ++ bs) behind

    used : s.used ≡ length (header ++ encode_entries s.base_us ps)
    used = omega (arith, h.used_is, length-append header (encode_entries s.base_us ps))

-- Whatever the batch holds, the host reads those packets from the frame that closes it.
pub decode-sent_payload :
    {s : BleBatch} (ps : List BlePacket)
    → Holds s ps
    → ps ≢ []
    → decode (sent_kind s) (sent_payload s) ≡ some ps
unfolding decode
decode-sent_payload [] h ne = absurd (ne refl)
decode-sent_payload {s} (p ∷ []) h ne =
    rw (single, alone_payload_lem h)
      (decode_packet_lem s.base_us p.orig_len p.flags p.kept h.base_fits h.fits.2 ∙ rw h.starts)
  where
    single : (s.count == 1) ≡ true
    single = ground (arith, h.count_is)
decode-sent_payload {s} (p ∷ q ∷ ps) h ne =
    rw (several, batch_payload_lem h)
      (decode_batch_lem s.base_us s.count _ h.base_fits
        ∙ ap (λ n. decode_entries n s.base_us (encode_entries s.base_us (p ∷ q ∷ ps))) h.count_is
        ∙ decode_entries-encode_entries s.base_us (p ∷ q ∷ ps) h.fits)
  where
    several : (s.count == 1) ≡ false
    several = ground (arith, h.count_is)

-- No frame is longer than the batch buffer, which a frame has room for.
pub length-sent_payload :
    {s : BleBatch} (ps : List BlePacket)
    → Holds s ps
    → ps ≢ []
    → length (sent_payload s) ≤ batch_buf_len
length-sent_payload [] h ne = absurd (ne refl)
length-sent_payload {s} (p ∷ []) h ne = rw (single, alone_payload_lem h) (omega (arith, h.fits.3))
  where
    single : (s.count == 1) ≡ true
    single = ground (arith, h.count_is)
length-sent_payload {s} (p ∷ q ∷ ps) h ne =
    rw (several, batch_payload_lem h) (omega (arith, used-le h, h.used_is))
  where
    several : (s.count == 1) ≡ false
    several = ground (arith, h.count_is)
