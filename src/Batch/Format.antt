-- ===== src/Batch/Format.antt =====
-- The payloads of src/batch.c as the host reads them, from the layout that the file states: an
-- independent decoder, and the entries as an encoder would write them.
use nrf54l15_sniffer.Base.{
  ℕ, zero, suc, ◌+◌, ◌-◌, ◌^◌, ◌≤◌, ◌<◌, ◌≡◌, refl, sym, ap, ◌∙◌, Bytes, length, take, drop, List,
  [], ◌∷◌, ◌++◌, Option, none, some, ltb, false, if◌then◌else◌, le_bytes, le16, of_le, arith,
  append_assoc, length-append, take-length, drop-length, of_le-le_bytes,
}
use mathlib.Core.Option
use nrf54l15_sniffer.Wire.{FrameType, packet, packet_batch}
use nrf54l15_sniffer.Batch.{Packet, meta_bytes, max_psdu, max_dt_us}

-- The `count` entries of a batch, each time counted from the one before; nothing may follow them.
abbrev pub decode_entries : ℕ → ℕ → ℕ → Bytes → Option (List Packet)
decode_entries zero channel prev [] = some []
decode_entries zero channel prev (_ ∷ _) = none
decode_entries (suc n) channel prev (d0 ∷ d1 ∷ lqi ∷ rssi ∷ len ∷ rest) =
    let time = prev + of_le (d0 ∷ d1 ∷ []) in
    let p : Packet = record {
      channel = channel;
      timestamp_us = time;
      lqi = lqi;
      rssi = rssi;
      psdu = take len rest;
    } in
    if ltb (length rest) len
    then none
    else Option.map (λ ps. p ∷ ps) (decode_entries n channel time (drop len rest))
decode_entries _ _ _ _ = none

abbrev pub decode_batch : Bytes → Option (List Packet)
decode_batch (b0 ∷ b1 ∷ b2 ∷ b3 ∷ b4 ∷ b5 ∷ b6 ∷ b7 ∷ channel ∷ count ∷ rest) =
    decode_entries count channel (of_le (b0 ∷ b1 ∷ b2 ∷ b3 ∷ b4 ∷ b5 ∷ b6 ∷ b7 ∷ [])) rest
decode_batch _ = none

abbrev pub decode_packet : Bytes → Option (List Packet)
decode_packet (channel ∷ lqi ∷ rssi ∷ _ ∷ b0 ∷ b1 ∷ b2 ∷ b3 ∷ b4 ∷ b5 ∷ b6 ∷ b7 ∷ psdu) = some (
    record {
      channel = channel;
      timestamp_us = of_le (b0 ∷ b1 ∷ b2 ∷ b3 ∷ b4 ∷ b5 ∷ b6 ∷ b7 ∷ []);
      lqi = lqi;
      rssi = rssi;
      psdu = psdu;
    }
    ∷ [])
decode_packet _ = none

unfoldable pub decode : FrameType → Bytes → Option (List Packet)
decode packet bytes = decode_packet bytes
decode packet_batch bytes = decode_batch bytes
decode _ _ = none

abbrev pub entry_of : ℕ → Packet → Bytes
entry_of prev p = le16 (p.timestamp_us - prev) ++ p.lqi ∷ p.rssi ∷ length p.psdu ∷ p.psdu

-- The entries of a run of packets, the first counted from `prev`.
abbrev pub encode_entries : ℕ → List Packet → Bytes
encode_entries prev [] = []
encode_entries prev (p ∷ ps) = entry_of prev p ++ encode_entries p.timestamp_us ps

-- Packets that one batch can carry.
abbrev pub Fits : ℕ → ℕ → List Packet → Type 0
Fits channel prev [] = Unit {0}
Fits channel prev (p ∷ ps) =
    (p.channel ≡ channel)
    × (prev ≤ p.timestamp_us)
    × (p.timestamp_us ≤ prev + max_dt_us)
    × (length p.psdu ≤ max_psdu)
    × Fits channel p.timestamp_us ps

-- The time of the last of a run of packets.
abbrev pub last_time : ℕ → List Packet → ℕ
last_time prev [] = prev
last_time prev (p ∷ ps) = last_time p.timestamp_us ps

decode_entries-cons :
    (n channel prev d lqi rssi : ℕ) (psdu rest : Bytes)
    → d < 2 ^ 16
    → decode_entries (suc n) channel prev ((le16 d ++ lqi ∷ rssi ∷ length psdu ∷ psdu) ++ rest)
      ≡ Option.map
          (λ ps.
            record {
              channel = channel;
              timestamp_us = prev + d;
              lqi = lqi;
              rssi = rssi;
              psdu = psdu;
            }
            ∷ ps)
          (decode_entries n channel (prev + d) rest)
decode_entries-cons n channel prev d lqi rssi psdu rest h =
    let value : of_le (le16 d) ≡ d = of_le-le_bytes 2 d h in
    let room : ltb (length (psdu ++ rest)) (length psdu) ≡ false =
      ground (arith, length-append psdu rest) in
    rw (room, take-length psdu rest, drop-length psdu rest, value)

-- The host's decoder reads back the entries, with every time exact.
pub decode_entries-encode_entries :
    (channel prev : ℕ) (ps : List Packet)
    → Fits channel prev ps
    → decode_entries (length ps) channel prev (encode_entries prev ps) ≡ some ps
decode_entries-encode_entries channel prev [] f = refl
decode_entries-encode_entries channel prev (p ∷ ps) f =
    decode_entries-cons (length ps) channel prev (p.timestamp_us - prev) p.lqi p.rssi p.psdu
      (encode_entries p.timestamp_us ps) (omega arith)
    ∙ rw time (rw (decode_entries-encode_entries channel p.timestamp_us ps f.4) (ground arith))
  where
    time : prev + (p.timestamp_us - prev) ≡ p.timestamp_us
    time = omega arith

pub encode_entries-append :
    (prev : ℕ) (ps qs : List Packet)
    → encode_entries prev (ps ++ qs)
      ≡ encode_entries prev ps ++ encode_entries (last_time prev ps) qs
encode_entries-append prev [] qs = refl
encode_entries-append prev (p ∷ ps) qs =
    ap (λ bs. entry_of prev p ++ bs) (encode_entries-append p.timestamp_us ps qs)
    ∙ sym (
        append_assoc (entry_of prev p) (encode_entries p.timestamp_us ps)
          (encode_entries (last_time p.timestamp_us ps) qs))

pub Fits-append :
    (channel prev : ℕ) (ps qs : List Packet)
    → Fits channel prev ps
    → Fits channel (last_time prev ps) qs
    → Fits channel prev (ps ++ qs)
Fits-append channel prev [] qs f g = g
Fits-append channel prev (p ∷ ps) qs f g =
    (f.0, f.1, f.2, f.3, Fits-append channel p.timestamp_us ps qs f.4 g)

-- A batch header and its entries, as the host reads them.
pub decode_batch_lem :
    (channel base n : ℕ) (entries : Bytes)
    → base < 2 ^ 64
    → decode_batch ((le_bytes 8 base ++ channel ∷ n ∷ []) ++ entries)
      ≡ decode_entries n channel base entries
decode_batch_lem channel base n entries h =
    ap (λ b. decode_entries n channel b entries) (of_le-le_bytes 8 base h)

-- A PACKET's metadata and its bytes, as the host reads them.
pub decode_packet_lem :
    (channel lqi rssi time : ℕ) (psdu : Bytes)
    → time < 2 ^ 64
    → decode_packet (meta_bytes channel lqi rssi time ++ psdu)
      ≡ some (
          record { channel = channel; timestamp_us = time; lqi = lqi; rssi = rssi; psdu = psdu }
          ∷ [])
decode_packet_lem channel lqi rssi time psdu h =
    ap
      (λ b.
        some (
          record { channel = channel; timestamp_us = b; lqi = lqi; rssi = rssi; psdu = psdu } ∷ []))
      (of_le-le_bytes 8 time h)
