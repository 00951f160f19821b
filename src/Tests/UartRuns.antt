-- ===== src/Tests/UartRuns.antt =====
-- The UART, its callbacks and the transmit thread of src/link.c.
use nrf54l15_sniffer.Base.{
  ℕ, ◌+◌, ◌≡◌, refl, true, false, Bytes, List, [], ◌∷◌, ◌++◌, length, drop, arith, Option, some,
  none, success,
}
use nrf54l15_sniffer.Wire.{heartbeat, packet}
use nrf54l15_sniffer.Link.Uart.{
  Callbacks, Uart, IsUart, UartEvent, uart_cb_rx, uart_cb, rx_switch, init, initial,
}
use nrf54l15_sniffer.Link.Uart.Double.{Reach, Alternates, Served, callback_serves}
use nrf54l15_sniffer.Link.Uart.Receive.{Input, arrive, read, receive, receive_frames}
use nrf54l15_sniffer.Link.Frames.{Frame, frame_bytes}
use nrf54l15_sniffer.Link.Reader.{handle_all}
use nrf54l15_sniffer.Link.Transmit.{Move, submit, thread, transfer_ends}
use nrf54l15_sniffer.Tests.Instances.{DemoRing, demo_wire, demo_IsWire, demo_buf, demo_IsRingBuf}

-- A driver that takes every buffer.
pub record Held : Type 0 where
  pub filling : Option ℕ
  pub spare : Option ℕ

abbrev pub empty_handed : Held
empty_handed = record { filling = none; spare = none }

-- The events that it may report, and what it holds after.
abbrev pub DemoRaises : Held → UartEvent → Held → Type 0
DemoRaises s UartEvent.rx_buf_request t =
    (i : ℕ) × (s.filling ≡ some i) × (t.filling ≡ some i) × (s.spare ≡ none) × (t.spare ≡ none)
DemoRaises s UartEvent.rx_buf_released t = (t.filling ≡ s.spare) × (t.spare ≡ none)
DemoRaises s UartEvent.rx_disabled t = (t.filling ≡ none) × (t.spare ≡ none)
DemoRaises s UartEvent.tx_done t = (t.filling ≡ s.filling) × (t.spare ≡ s.spare)
DemoRaises s UartEvent.tx_aborted t = (t.filling ≡ s.filling) × (t.spare ≡ s.spare)
DemoRaises s UartEvent.rx_stopped t = (t.filling ≡ s.filling) × (t.spare ≡ s.spare)
DemoRaises s (UartEvent.rx_rdy bs offset len) t = (t.filling ≡ s.filling) × (t.spare ≡ s.spare)

abbrev pub demo_uart : Uart
demo_uart = record {
  State = Held;
  ready = true;
  callback_set = success;
  rx_enable = λ i s. (success, record { filling = some i; spare = none });
  rx_buf_rsp = λ i s. (success, record s { spare = some i });
  Raises = DemoRaises;
}

true_is_not_false : {A : Type 0} → true ≡ false → A
true_is_not_false e = absurd (cc)

abbrev demo_IsUart : IsUart demo_uart
demo_IsUart = record {
  current = λ s. s.filling;
  second = λ s. s.spare;
  enables = λ i s e. (refl, refl);
  enable_fails = λ i s e. true_is_not_false e;
  responds = λ i j s e f. (e, refl);
  requests = λ s t r. r;
  releases = λ s t r. r;
  disables = λ s t r. r;
  stops = λ s t r. r;
  sends = λ s t r. r;
  aborts = λ s t r. r;
  receives = λ bs offset len s t r. r;
}

-- Reception has been started, and the driver fills the first buffer.
abbrev after_init : Callbacks DemoRing
after_init = (init demo_buf demo_uart (initial demo_buf) empty_handed).1

abbrev first_buffer : Held
first_buffer = record { filling = some 0; spare = none }

-- It has asked for a second one.
abbrev after_request : Callbacks DemoRing
after_request = (uart_cb_rx demo_buf demo_uart UartEvent.rx_buf_request after_init first_buffer).0

abbrev both_buffers : Held
both_buffers = (uart_cb_rx demo_buf demo_uart UartEvent.rx_buf_request after_init first_buffer).1

asked_once : Reach demo_buf demo_IsUart after_request both_buffers
unfolding init
asked_once =
    Reach.event UartEvent.rx_buf_request first_buffer (Reach.start empty_handed refl refl refl)
      (0, refl, refl, refl, refl)

-- The second buffer is filled next.
abbrev second_buffer : Held
second_buffer = record { filling = some 1; spare = none }

goes_on : DemoRaises both_buffers UartEvent.rx_buf_released second_buffer
unfolding init uart_cb_rx initial rx_switch uart_cb
goes_on = (refl, refl)

callback_serves_example :
    let (s', d') =
      uart_cb_rx demo_buf demo_uart UartEvent.rx_buf_released after_request second_buffer in
    Alternates demo_buf demo_IsUart s'.rx_dma_next d'
    × Served demo_buf demo_IsUart UartEvent.rx_buf_released second_buffer d'
callback_serves_example =
    callback_serves demo_buf demo_IsUart UartEvent.rx_buf_released second_buffer asked_once goes_on

abbrev pub command : Frame
command = record {
  kind = 16;
  spare = 1;
  seq_low = 0;
  seq_high = 0;
  payload = 4 ∷ 0 ∷ 0 ∷ 0 ∷ 0 ∷ [];
}

-- The command arrives in two pieces at different places of the buffers, with reads in between.
abbrev pub inputs : List Input
inputs =
    arrive (9 ∷ 9 ∷ frame_bytes demo_wire command) 2 6
    ∷ read
    ∷ arrive (drop 6 (frame_bytes demo_wire command) ++ 7 ∷ []) 0 9
    ∷ read
    ∷ read
    ∷ []

abbrev count_kinds : Option (ℕ → Bytes → ℕ → ℕ)
count_kinds = some (λ kind payload n. n + kind + length payload)

receive_frames_example :
    let (c, p, s') = receive demo_buf demo_wire count_kinds inputs (initial demo_buf) [] 0 in
    (p ≡ []) × (s' ≡ handle_all count_kinds (command ∷ []) 0)
unfolding receive initial uart_cb
receive_frames_example =
    receive_frames demo_IsRingBuf demo_IsWire count_kinds inputs (command ∷ []) 0
      (omega arith, (omega arith, _)) refl (omega arith, _) (omega arith, _) refl

-- Two frames, the second while the DMA reads the first; the driver refuses once.
abbrev moves : List Move
moves =
    submit packet (1 ∷ 2 ∷ 3 ∷ [])
    ∷ thread true
    ∷ thread true
    ∷ thread false
    ∷ thread true
    ∷ thread true
    ∷ thread true
    ∷ submit heartbeat []
    ∷ thread true
    ∷ transfer_ends
    ∷ thread true
    ∷ []
