-- ===== src/Tests/Wires.antt =====
-- A concrete encoder, ring and link.
use nrf54l15_sniffer.Base.{
  ℕ, zero, suc, ◌-◌, ◌%◌, ◌^◌, ◌≤◌, ◌<◌, ◌≡◌, refl, false, Bytes, [], ◌∷◌, ◌++◌, length, take, drop,
  le16, ltb, if◌then◌else◌, arith, length-append, length-take, length-drop, ap, length-ne-zero,
}
use nrf54l15_sniffer.Wire.{
  Wire, IsWire, FrameType, heartbeat, packet, log, packet_batch, ble_batch, link_status, stats,
  control_cmd, control_reply, ble_filter, ble_keys,
}
use nrf54l15_sniffer.RingBuf.{RingBuf, IsRingBuf}
use nrf54l15_sniffer.Link.{Outbound}

abbrev pub demo_code : FrameType → ℕ
demo_code heartbeat = 1
demo_code packet = 2
demo_code log = 3
demo_code packet_batch = 4
demo_code ble_batch = 5
demo_code link_status = 6
demo_code stats = 7
demo_code control_cmd = 16
demo_code control_reply = 17
demo_code ble_filter = 18
demo_code ble_keys = 19

abbrev pub demo_crc : Bytes → ℕ
demo_crc bs = length bs % 2 ^ 16

abbrev pub demo_encode : FrameType → ℕ → Bytes → Bytes
demo_encode t seq p =
    if ltb 2048 (length p)
    then []
    else (le16 0x5a4e ++ demo_code t ∷ 1 ∷ (le16 seq ++ le16 (length p) ++ le16 8 ++ p))

abbrev pub demo_wire : Wire
demo_wire = record {
  header_len = 10;
  max_payload = 2048;
  magic = 0x5a4e;
  crc16 = demo_crc;
  type_code = demo_code;
  encode = demo_encode;
}

pub demo_IsWire : IsWire demo_wire
demo_IsWire = record {
  header_is = refl;
  code_byte = codes;
  magic_word = omega arith;
  crc_word = λ bs. omega arith;
  length_word = omega arith;
  encodes = λ t seq p h. ground arith;
  refuses = λ t seq p h. ground arith;
}
  where
    codes : (t : FrameType) → demo_code t < 2 ^ 8
    codes heartbeat = omega arith
    codes packet = omega arith
    codes log = omega arith
    codes packet_batch = omega arith
    codes ble_batch = omega arith
    codes link_status = omega arith
    codes stats = omega arith
    codes control_cmd = omega arith
    codes control_reply = omega arith
    codes ble_filter = omega arith
    codes ble_keys = omega arith

abbrev pub demo_capacity : ℕ
demo_capacity = 1024

-- A ring that never wraps: its bytes, and that they fit.
pub record DemoRing : Type 0 where
  pub bytes : Bytes
  pub fits : length bytes ≤ demo_capacity

abbrev pub demo_buf : RingBuf
demo_buf = record {
  Ring = DemoRing;
  empty = record { bytes = []; fits = omega arith };
  capacity = demo_capacity;
  put = λ bs r. record {
    bytes = r.bytes ++ take (demo_capacity - length r.bytes) bs;
    fits = omega (
      arith,
      r.fits,
      length-append r.bytes (take (demo_capacity - length r.bytes) bs),
      length-take (demo_capacity - length r.bytes) bs,
    );
  };
  get = λ n r. (
    take n r.bytes,
    record { bytes = drop n r.bytes; fits = omega (arith, r.fits, length-drop n r.bytes) },
  );
  claim = λ n r. (take n r.bytes, r);
  finish =
      λ n r. record { bytes = drop n r.bytes; fits = omega (arith, r.fits, length-drop n r.bytes) };
  size = λ r. length r.bytes;
  space = λ r. demo_capacity - length r.bytes;
}

pub take-length-take : (n : ℕ) (bs : Bytes) → take n bs ≡ take (length (take n bs)) bs
take-length-take zero bs = refl
take-length-take (suc n) [] = refl
take-length-take (suc n) (b ∷ bs) = ap (◌∷◌ b) (take-length-take n bs)

abbrev pub demo_IsRingBuf : IsRingBuf demo_buf
demo_IsRingBuf = record {
  contents = λ r. r.bytes;
  empty_is = refl;
  space_is = λ r. omega (arith, r.fits);
  put_is = λ bs r. refl;
  got = λ n r. refl;
  get_leaves = λ n r. refl;
  claimed = λ n r. take-length-take n r.bytes;
  claim_le = λ n r. omega (arith, length-take n r.bytes);
  claim_some = λ n r h ne. omega (arith, length-take n r.bytes, length-ne-zero r.bytes ne);
  claim_keeps = λ n r. refl;
  finish_drops = λ n r h. refl;
}

abbrev pub demo_outbound : Outbound DemoRing
demo_outbound = record {
  seq = 65535;
  frames_sent = 0;
  bytes_sent = 0;
  frames_dropped = 0;
  high_water = 0;
  tx = demo_buf.empty;
  tx_ready = false;
}
