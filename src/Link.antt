-- ===== src/Link.antt =====
-- src/link.c: frames to and from the host. `Send` and `Stream` are about the way out, `Frames`,
-- `Scan` and `Reader` about the way in. A mutex or a thread of its own makes each function below
-- one step.
pub mod Send
pub mod Reserve
pub mod Frames
pub mod Reader
pub mod Chunks
pub mod Progress
pub mod Uart
pub mod Transmit
use nrf54l15_sniffer.Base.{
  ℕ, zero, suc, ◌+◌, ◌-◌, ◌*◌, Bool, true, false, not, Bytes, length, take, drop, get_or, [], ◌∷◌,
  ◌++◌, u16, u32, ltb, ◌==◌, if◌then◌else◌, min, Option, some, none, Code, success, failure, enomem,
  einval, enodev, enotsup, is_ok,
}
use nrf54l15_sniffer.Wire.{
  Wire, FrameType, control_reply, stats, link_status, heartbeat, packet, log, packet_batch,
  ble_batch, control_cmd, ble_filter, ble_keys,
}
use nrf54l15_sniffer.LinkApi.{LinkApi}
use nrf54l15_sniffer.RingBuf.{RingBuf}

abbrev pub tx_ring_size : ℕ
tx_ring_size = 8192

abbrev pub tx_control_reserve : ℕ
tx_control_reserve = 512

abbrev pub tx_dma_chunk : ℕ
tx_dma_chunk = 64

-- `sizeof(rx_buf)`, and that of each receive buffer of the driver
abbrev pub rx_buf_size : ℕ
rx_buf_size = 512

-- `sizeof(chunk)` in `reader`
abbrev pub chunk_size : ℕ
chunk_size = 64

-- `carries_control`
unfoldable pub carries_control : FrameType → Bool
carries_control control_reply = true
carries_control stats = true
carries_control link_status = true
carries_control heartbeat = true
carries_control packet = false
carries_control log = false
carries_control packet_batch = false
carries_control ble_batch = false
carries_control control_cmd = false
carries_control ble_filter = false
carries_control ble_keys = false

-- The static variables of the way out; `tx_ready` is the semaphore that wakes `tx_thread`.
pub record Outbound (Ring : Type 0) : Type 0 where
  pub seq : ℕ
  pub frames_sent : ℕ
  pub bytes_sent : ℕ
  pub frames_dropped : ℕ
  pub high_water : ℕ
  pub tx : Ring
  pub tx_ready : Bool

module _ (wire : Wire) (buf : RingBuf) where
  abbrev pub reserve : FrameType → ℕ
  reserve t = if carries_control t then 0 else tx_control_reserve

  -- What `sn_link_send` does once the frame is known to fit.
  pub enqueue : Bytes → Outbound buf.Ring → Outbound buf.Ring
  enqueue frame s =
      let tx = buf.put frame s.tx in
      let queued = buf.size tx in
      record {
        seq = u16 (s.seq + 1);
        frames_sent = u32 (s.frames_sent + 1);
        bytes_sent = u32 (s.bytes_sent + length frame);
        frames_dropped = s.frames_dropped;
        high_water = if ltb s.high_water queued then queued else s.high_water;
        tx = tx;
        tx_ready = true;
      }

  -- `sn_link_send`
  pub send : FrameType → Bytes → Outbound buf.Ring → Code × Outbound buf.Ring
  send t payload s =
      let frame = wire.encode t s.seq payload in
      if length frame == 0
      then (failure einval, s)
      else if ltb (buf.space s.tx) (length frame + reserve t)
      then (failure enomem, record s { frames_dropped = u32 (s.frames_dropped + 1) })
      else (success, enqueue frame s)

  -- `sn_link_reset_counters`
  pub reset_counters : Outbound buf.Ring → Outbound buf.Ring
  reset_counters s = record s {
    frames_sent = 0;
    bytes_sent = 0;
    frames_dropped = 0;
    high_water = 0;
  }

  -- `sn_link_queued`
  pub queued : Outbound buf.Ring → ℕ
  queued s = buf.size s.tx

  -- `sn_link_capacity`
  pub capacity : ℕ
  capacity = tx_ring_size - tx_control_reserve

  -- The link as its clients see it.
  abbrev pub link_api : LinkApi
  link_api = record {
    State = Outbound buf.Ring;
    send = send;
    reset_counters = reset_counters;
    frames_sent = λ s. s.frames_sent;
    bytes_sent = λ s. s.bytes_sent;
    frames_dropped = λ s. s.frames_dropped;
    queued = queued;
    high_water = λ s. s.high_water;
    capacity = capacity;
  }

-- What the bytes at the front of `rx_buf` are to `drain`.
pub data Next : Type 0 where
  wait : Next
  skip : Next
  take_frame : ℕ → Next

-- `(uint16_t)p[i] | ((uint16_t)p[i + 1] << 8)`, of two bytes
abbrev pub get_le16 : Bytes → ℕ → ℕ
get_le16 p i = get_or p i 0 + 256 * get_or p (i + 1) 0

module _ (wire : Wire) where
  -- The body of the loop of `drain`, up to its `continue`, its `break` or the frame.
  unfoldable pub next : Bytes → Next
  next p =
      if ltb (length p) wire.header_len
      then wait
      else if not (get_le16 p 0 == wire.magic)
      then skip
      else if not (wire.crc16 (take 8 p) == get_le16 p 8)
      then skip
      else if ltb wire.max_payload (get_le16 p 6)
      then skip
      else if ltb (length p) (wire.header_len + get_le16 p 6)
      then wait
      else take_frame (get_le16 p 6)

  module _ {ℓ} {S : Type ℓ} (handler : Option (ℕ → Bytes → S → S)) where
    -- `frame_handler(p[2], p + SN_HEADER_LEN, len)`, if there is a handler
    abbrev pub dispatch : Bytes → ℕ → S → S
    dispatch p len s = elim handler [
      | none ↦ s
      | some handle ↦ handle (get_or p 2 0) (take len (drop wire.header_len p)) s
    ]

    -- The loop of `drain`, on the bytes from `rx_buf + at` on.
    pub drain_loop : ℕ → Bytes → S → Bytes × S
    drain_loop zero p s = (p, s)
    drain_loop (suc fuel) p s = elim (next p) [
      | wait ↦ (p, s)
      | skip ↦ drain_loop fuel (drop 1 p) s
      | take_frame len ↦ drain_loop fuel (drop (wire.header_len + len) p) (dispatch p len s)
    ]

    -- `drain`: what stays in `rx_buf`. A full buffer with no frame in it keeps its last bytes.
    pub drain : Bytes → S → Bytes × S
    drain p s =
        let (rest, s') = drain_loop (length p) p s in
        (if length rest == rx_buf_size then drop (rx_buf_size - wire.header_len) rest else rest, s')

    -- One turn of `reader`'s loop, with the bytes that `ring_buf_get` gave it.
    pub reader_turn : Bytes → Bytes → S → Bytes × S
    reader_turn chunk p s = if length chunk == 0 then (p, s) else drain (p ++ take room chunk) s
      where
        room : ℕ
        room = rx_buf_size - length p
