-- ===== src/Wire.antt =====
-- What the firmware takes from the submodule `shared/` (frame.h, frame.c, commands.h): the frame
-- types it names, and the numbers and functions behind them as parameters.
use nrf54l15_sniffer.Base.{ℕ, ◌+◌, ◌≤◌, ◌<◌, ◌≡◌, Bytes, length, ◌^◌}

-- `sn_frame_type_t`, as far as the firmware uses it.
pub data FrameType : Type 0 where
  heartbeat packet log packet_batch ble_batch link_status stats : FrameType
  control_cmd control_reply ble_filter ble_keys : FrameType

-- Numbers and functions of frame.h and frame.c. `encode type seq payload` is what
-- `sn_frame_encode` writes to its buffer; the empty string stands for its result 0.
pub record Wire : Type 0 where
  pub header_len : ℕ
  pub max_payload : ℕ
  pub magic : ℕ
  pub crc16 : Bytes → ℕ
  pub type_code : FrameType → ℕ
  pub encode : FrameType → ℕ → Bytes → Bytes

-- What link.c relies on: a header of 10 bytes with 16-bit fields, and an encoder that writes a
-- header and the payload, or refuses one that is too long.
pub record IsWire (w : Wire) : Type 0 where
  pub header_is : w.header_len ≡ 10
  pub code_byte : (t : FrameType) → w.type_code t < 2 ^ 8
  pub magic_word : w.magic < 2 ^ 16
  pub crc_word : (bs : Bytes) → w.crc16 bs < 2 ^ 16
  pub length_word : w.max_payload < 2 ^ 16
  pub encodes :
      (t : FrameType) (seq : ℕ) (p : Bytes)
      → length p ≤ w.max_payload
      → length (w.encode t seq p) ≡ w.header_len + length p
  pub refuses :
      (t : FrameType) (seq : ℕ) (p : Bytes)
      → w.max_payload < length p
      → length (w.encode t seq p) ≡ 0
