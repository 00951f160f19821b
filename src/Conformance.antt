-- ===== src/Conformance.antt =====
-- `conformance_burst` of src/main.c: the frames that the test build sends over and over.
use nrf54l15_sniffer.Base.{ℕ, zero, suc, ◌+◌, Bytes, List, [], ◌∷◌, u8}
use nrf54l15_sniffer.Wire.{FrameType, heartbeat, packet, log, packet_batch, link_status}
use nrf54l15_sniffer.LinkApi.{LinkApi}

-- `for (int i = 0; i < 256; i++) all_bytes[i] = (uint8_t)i`, from `i` on for so many rounds
abbrev pub fill_bytes : ℕ → ℕ → Bytes
fill_bytes zero i = []
fill_bytes (suc rounds) i = u8 i ∷ fill_bytes rounds (i + 1)

abbrev pub all_bytes : Bytes
all_bytes = fill_bytes 256 0

abbrev pub newline_bytes : Bytes
newline_bytes = 0x0a ∷ 0x0d ∷ 0x0a ∷ 0x00 ∷ 0xff ∷ []

-- "hello", "wrap" and "I (123) tag: msg"
abbrev pub hello : Bytes
hello = b'h' ∷ b'e' ∷ b'l' ∷ b'l' ∷ b'o' ∷ []

abbrev pub wrap : Bytes
wrap = b'w' ∷ b'r' ∷ b'a' ∷ b'p' ∷ []

abbrev pub logmsg : Bytes
logmsg =
    b'I' ∷ b' ' ∷ b'(' ∷ b'1' ∷ b'2' ∷ b'3' ∷ b')' ∷ b' ' ∷ b't' ∷ b'a' ∷ b'g' ∷ b':' ∷ b' ' ∷ b'm'
    ∷ b's' ∷ b'g' ∷ []

abbrev pub batch_three : Bytes
batch_three =
    0x40 ∷ 0x42 ∷ 0x0f ∷ 0x00 ∷ 0x00 ∷ 0x00 ∷ 0x00 ∷ 0x00 ∷ 0x19 ∷ 0x03 ∷ 0x00 ∷ 0x00 ∷ 0xc8 ∷ 0xc4
    ∷ 0x05 ∷ 0x68 ∷ 0x65 ∷ 0x6c ∷ 0x6c ∷ 0x6f ∷ 0xc2 ∷ 0x01 ∷ 0xc7 ∷ 0xc3 ∷ 0x05 ∷ 0x0a ∷ 0x0d
    ∷ 0x0a ∷ 0x00 ∷ 0xff ∷ 0xf6 ∷ 0x09 ∷ 0x00 ∷ 0x9e ∷ 0x05 ∷ 0x02 ∷ 0x00 ∷ 0x1e ∷ 0x00 ∷ 0xf2 ∷ []

abbrev pub link_status_bytes : Bytes
link_status_bytes =
    0x80 ∷ 0xbb ∷ 0x00 ∷ 0x00 ∷ 0x00 ∷ 0x00 ∷ 0x02 ∷ 0x00 ∷ 0x00 ∷ 0x00 ∷ 0x03 ∷ 0x00 ∷ []

-- One round of the loop, in order.
abbrev pub burst_frames : List (FrameType × Bytes)
burst_frames =
    (heartbeat, [])
    ∷ (packet, hello)
    ∷ (packet, newline_bytes)
    ∷ (packet, all_bytes)
    ∷ (packet, wrap)
    ∷ (log, logmsg)
    ∷ (packet_batch, batch_three)
    ∷ (link_status, link_status_bytes)
    ∷ []

module _ (link : LinkApi) where
  pub send_all : List (FrameType × Bytes) → link.State → link.State
  send_all [] l = l
  send_all ((t, p) ∷ fs) l = send_all fs (link.send t p l).1

  -- A round of `conformance_burst`, up to its `k_sleep`
  unfoldable pub conformance_round : link.State → link.State
  conformance_round l = send_all burst_frames l
