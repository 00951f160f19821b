-- ===== src/Ble/Batch/Format.antt =====
-- The payloads of the batches of src/radio_ble.c as the host reads them, from the layout that the
-- file states: an independent decoder, and the entries as an encoder would write them.
use nrf54l15_sniffer.Base.{
  ℕ, zero, suc, ◌+◌, ◌-◌, ◌^◌, ◌≤◌, ◌<◌, ◌≡◌, refl, sym, ap, ◌∙◌, Bytes, length, take, drop, List,
  [], ◌∷◌, ◌++◌, Option, none, some, ltb, false, if◌then◌else◌, le_bytes, le16, of_le, arith,
  append_assoc, length-append, take-length, drop-length, of_le-le_bytes,
}
use mathlib.Core.Option
use nrf54l15_sniffer.Wire.{FrameType, packet, ble_batch}
use nrf54l15_sniffer.Ble.Batch.{meta_bytes, max_packet}

-- A packet of the capture: when it came, how long it was, its flags, and the bytes kept of it.
pub record BlePacket : Type 0 where
  pub timestamp_us : ℕ
  pub orig_len : ℕ
  pub flags : ℕ
  pub kept : Bytes

-- The `count` entries of a batch, each time counted from the one before; nothing may follow them.
abbrev pub decode_entries : ℕ → ℕ → Bytes → Option (List BlePacket)
decode_entries zero prev [] = some []
decode_entries zero prev (_ ∷ _) = none
decode_entries (suc n) prev (d0 ∷ d1 ∷ o0 ∷ o1 ∷ flags ∷ l0 ∷ l1 ∷ rest) =
    let time = prev + of_le (d0 ∷ d1 ∷ []) in
    let len = of_le (l0 ∷ l1 ∷ []) in
    let p : BlePacket = record {
      timestamp_us = time;
      orig_len = of_le (o0 ∷ o1 ∷ []);
      flags = flags;
      kept = take len rest;
    } in
    if ltb (length rest) len
    then none
    else Option.map (λ ps. p ∷ ps) (decode_entries n time (drop len rest))
decode_entries _ _ _ = none

abbrev pub decode_batch : Bytes → Option (List BlePacket)
decode_batch (b0 ∷ b1 ∷ b2 ∷ b3 ∷ b4 ∷ b5 ∷ b6 ∷ b7 ∷ count ∷ rest) =
    decode_entries count (of_le (b0 ∷ b1 ∷ b2 ∷ b3 ∷ b4 ∷ b5 ∷ b6 ∷ b7 ∷ [])) rest
decode_batch _ = none

abbrev pub decode_packet : Bytes → Option (List BlePacket)
decode_packet (b0 ∷ b1 ∷ b2 ∷ b3 ∷ b4 ∷ b5 ∷ b6 ∷ b7 ∷ o0 ∷ o1 ∷ flags ∷ _ ∷ kept) = some (
    record {
      timestamp_us = of_le (b0 ∷ b1 ∷ b2 ∷ b3 ∷ b4 ∷ b5 ∷ b6 ∷ b7 ∷ []);
      orig_len = of_le (o0 ∷ o1 ∷ []);
      flags = flags;
      kept = kept;
    }
    ∷ [])
decode_packet _ = none

unfoldable pub decode : FrameType → Bytes → Option (List BlePacket)
decode packet bytes = decode_packet bytes
decode ble_batch bytes = decode_batch bytes
decode _ _ = none

abbrev pub entry_of : ℕ → BlePacket → Bytes
entry_of prev p =
    le16 (p.timestamp_us - prev) ++ le16 p.orig_len ++ p.flags ∷ (le16 (length p.kept) ++ p.kept)

-- The entries of a run of packets, the first counted from `prev`.
abbrev pub encode_entries : ℕ → List BlePacket → Bytes
encode_entries prev [] = []
encode_entries prev (p ∷ ps) = entry_of prev p ++ encode_entries p.timestamp_us ps

-- Packets that one batch can carry.
abbrev pub Fits : ℕ → List BlePacket → Type 0
Fits prev [] = Unit {0}
Fits prev (p ∷ ps) =
    (prev ≤ p.timestamp_us)
    × (p.timestamp_us ≤ prev + 0xffff)
    × (p.orig_len < 2 ^ 16)
    × (length p.kept ≤ max_packet)
    × Fits p.timestamp_us ps

-- The time of the last of a run of packets.
abbrev pub last_time : ℕ → List BlePacket → ℕ
last_time prev [] = prev
last_time prev (p ∷ ps) = last_time p.timestamp_us ps

decode_entries-cons :
    (n prev d orig flags : ℕ) (kept rest : Bytes)
    → d < 2 ^ 16
    → orig < 2 ^ 16
    → length kept < 2 ^ 16
    → decode_entries
        (suc n)
        prev
        ((le16 d ++ le16 orig ++ flags ∷ (le16 (length kept) ++ kept)) ++ rest)
      ≡ Option.map
          (λ ps.
            record { timestamp_us = prev + d; orig_len = orig; flags = flags; kept = kept } ∷ ps)
          (decode_entries n (prev + d) rest)
decode_entries-cons n prev d orig flags kept rest h k m =
    let value : of_le (le16 d) ≡ d = of_le-le_bytes 2 d h in
    let whole : of_le (le16 orig) ≡ orig = of_le-le_bytes 2 orig k in
    let len : of_le (le16 (length kept)) ≡ length kept = of_le-le_bytes 2 (length kept) m in
    let room : ltb (length (kept ++ rest)) (length kept) ≡ false =
      ground (arith, length-append kept rest) in
    rw (len, whole, room, take-length kept rest, drop-length kept rest, value)

-- The host's decoder reads back the entries, with every time exact.
pub decode_entries-encode_entries :
    (prev : ℕ) (ps : List BlePacket)
    → Fits prev ps
    → decode_entries (length ps) prev (encode_entries prev ps) ≡ some ps
decode_entries-encode_entries prev [] f = refl
decode_entries-encode_entries prev (p ∷ ps) f =
    decode_entries-cons (length ps) prev (p.timestamp_us - prev) p.orig_len p.flags p.kept
      (encode_entries p.timestamp_us ps) (omega arith) f.2 (omega arith)
    ∙ rw time (rw (decode_entries-encode_entries p.timestamp_us ps f.4) (ground arith))
  where
    time : prev + (p.timestamp_us - prev) ≡ p.timestamp_us
    time = omega arith

pub encode_entries-append :
    (prev : ℕ) (ps qs : List BlePacket)
    → encode_entries prev (ps ++ qs)
      ≡ encode_entries prev ps ++ encode_entries (last_time prev ps) qs
encode_entries-append prev [] qs = refl
encode_entries-append prev (p ∷ ps) qs =
    ap (λ bs. entry_of prev p ++ bs) (encode_entries-append p.timestamp_us ps qs)
    ∙ sym (
        append_assoc (entry_of prev p) (encode_entries p.timestamp_us ps)
          (encode_entries (last_time p.timestamp_us ps) qs))

pub Fits-append :
    (prev : ℕ) (ps qs : List BlePacket)
    → Fits prev ps
    → Fits (last_time prev ps) qs
    → Fits prev (ps ++ qs)
Fits-append prev [] qs f g = g
Fits-append prev (p ∷ ps) qs f g = (f.0, f.1, f.2, f.3, Fits-append p.timestamp_us ps qs f.4 g)

-- A batch header and its entries, as the host reads them.
pub decode_batch_lem :
    (base n : ℕ) (entries : Bytes)
    → base < 2 ^ 64
    → decode_batch ((le_bytes 8 base ++ n ∷ []) ++ entries) ≡ decode_entries n base entries
decode_batch_lem base n entries h = ap (λ b. decode_entries n b entries) (of_le-le_bytes 8 base h)

-- A PACKET's metadata and its bytes, as the host reads them.
pub decode_packet_lem :
    (time orig flags : ℕ) (kept : Bytes)
    → time < 2 ^ 64
    → orig < 2 ^ 16
    → decode_packet (meta_bytes time orig flags ++ kept)
      ≡ some (record { timestamp_us = time; orig_len = orig; flags = flags; kept = kept } ∷ [])
decode_packet_lem time orig flags kept h k = rw (of_le-le_bytes 2 orig k) (
    ap (λ b. some (record { timestamp_us = b; orig_len = orig; flags = flags; kept = kept } ∷ []))
      (of_le-le_bytes 8 time h))
