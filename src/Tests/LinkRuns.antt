-- ===== src/Tests/LinkRuns.antt =====
-- Frames out through the ring and in through `rx_buf`.
use nrf54l15_sniffer.Base.{
  ℕ, ◌+◌, ◌<◌, ◌≡◌, refl, true, Bytes, List, [], ◌∷◌, ◌++◌, length, take, drop, arith, Option, some,
  success, ◌⊎◌,
}
use nrf54l15_sniffer.Wire.{packet, packet_batch, control_reply}
use nrf54l15_sniffer.Link.{send, rx_buf_size, next, drain, drain_loop, wait, take_frame}
use nrf54l15_sniffer.Link.Send.{Refused, Dropped, Queued, send_outcomes}
use nrf54l15_sniffer.Link.Transmit.{Move, submit, thread, transfer_ends, run, at_rest}
use nrf54l15_sniffer.Link.Reserve.{control_accepted}
use nrf54l15_sniffer.Link.Frames.{Frame, frame_bytes}
use nrf54l15_sniffer.Link.Reader.{handle_all}
use nrf54l15_sniffer.Link.Chunks.{feed, feed_frames}
use nrf54l15_sniffer.Link.Progress.{InFlight, drain_progress}
use nrf54l15_sniffer.Tests.Instances.{
  demo_wire, demo_IsWire, demo_buf, demo_IsRingBuf, demo_outbound,
}

abbrev capture : List Move
capture =
    submit packet (1 ∷ 2 ∷ 3 ∷ [])
    ∷ thread true
    ∷ thread true
    ∷ thread true
    ∷ transfer_ends
    ∷ thread true
    ∷ submit packet_batch (4 ∷ [])
    ∷ []

send_outcomes_example :
    Refused demo_IsWire demo_IsRingBuf packet (1 ∷ []) demo_outbound
    ⊎ (Dropped demo_IsWire demo_IsRingBuf packet (1 ∷ []) demo_outbound
        ⊎ Queued demo_IsWire demo_IsRingBuf packet (1 ∷ []) demo_outbound)
send_outcomes_example = send_outcomes demo_IsWire demo_IsRingBuf packet (1 ∷ []) demo_outbound

control_accepted_example :
    (send demo_wire demo_buf control_reply
      (1 ∷ 0 ∷ 0 ∷ 0 ∷ 0 ∷ 0 ∷ [])
      (run demo_wire demo_buf capture (at_rest demo_outbound)).state.out).0
    ≡ success
unfolding nrf54l15_sniffer.Link.carries_control
control_accepted_example =
    control_accepted demo_IsWire demo_IsRingBuf capture demo_outbound control_reply
      (1 ∷ 0 ∷ 0 ∷ 0 ∷ 0 ∷ 0 ∷ []) (refl, (refl, _)) (omega arith) refl (omega arith) (omega arith)

abbrev first : Frame
first = record { kind = 16; spare = 1; seq_low = 0; seq_high = 0; payload = 4 ∷ 0 ∷ 0 ∷ 0 ∷ 0 ∷ [] }

abbrev second : Frame
second = record { kind = 18; spare = 1; seq_low = 1; seq_high = 0; payload = [] }

-- A handler that counts the frames of each kind.
abbrev count_kinds : Option (ℕ → Bytes → ℕ → ℕ)
count_kinds = some (λ kind payload n. n + kind + length payload)

abbrev wire_bytes : Bytes
wire_bytes = frame_bytes demo_wire first ++ frame_bytes demo_wire second

abbrev cuts : List Bytes
cuts = take 3 wire_bytes ∷ [] ∷ take 15 (drop 3 wire_bytes) ∷ drop 18 wire_bytes ∷ []

feed_frames_example :
    feed demo_wire count_kinds cuts [] 0 ≡ ([], handle_all count_kinds (first ∷ second ∷ []) 0)
feed_frames_example =
    feed_frames count_kinds demo_IsWire cuts (first ∷ second ∷ []) 0
      (omega arith, (omega arith, (omega arith, (omega arith, _)))) refl
      (omega arith, (omega arith, _)) (omega arith, (omega arith, _))

-- Two bytes of noise, then the front of a frame.
abbrev noisy : Bytes
noisy = 1 ∷ 2 ∷ take 12 (frame_bytes demo_wire first)

drain_progress_example :
    InFlight demo_wire (drain_loop demo_wire count_kinds (length noisy) noisy 0).0
    × (length (drain demo_wire count_kinds noisy 0).0 < rx_buf_size)
drain_progress_example = drain_progress demo_IsWire count_kinds noisy 0 (omega arith)
