-- ===== src/Link/Uart.antt =====
-- src/link.c: the UART callbacks and `sn_link_init`. Zephyr's asynchronous UART driver is a parameter:
-- its calls, the events that it may report, and which receive buffers it holds.
pub mod Double
pub mod Receive
use nrf54l15_sniffer.Base.{
  ℕ, zero, suc, ◌+◌, ◌-◌, ◌%◌, ◌≡◌, Bool, true, false, not, Bytes, length, take, drop, ◌==◌,
  if◌then◌else◌, Option, some, none, Code, success, failure, enodev, enotsup, is_ok,
}
use nrf54l15_sniffer.RingBuf.{RingBuf}

-- `struct uart_event`. UART_RX_RDY has the memory of the buffer, the offset and the number of bytes.
pub data UartEvent : Type 0 where
  tx_done tx_aborted rx_buf_request rx_buf_released rx_disabled rx_stopped : UartEvent
  rx_rdy : Bytes → ℕ → ℕ → UartEvent

-- `Raises s evt s'`: in the state `s` the driver may call back with `evt`, and is then in `s'`.
-- A receive buffer is named by its index in `rx_dma`.
pub record Uart : Type 1 where
  pub State : Type 0
  pub ready : Bool
  pub callback_set : Code
  pub rx_enable : ℕ → State → Code × State
  pub rx_buf_rsp : ℕ → State → Code × State
  pub Raises : State → UartEvent → State → Type 0

-- The documented behaviour of reception: the driver fills one buffer and may hold a second; it asks
-- for the second while it has none, goes on with it when it releases the first, and has released both
-- when it says that it is disabled.
pub record IsUart (u : Uart) : Type 0 where
  pub current : u.State → Option ℕ
  pub second : u.State → Option ℕ
  pub enables :
      (i : ℕ) (s : u.State)
      → (u.rx_enable i s).0 ≡ success
      → (current (u.rx_enable i s).1 ≡ some i) × (second (u.rx_enable i s).1 ≡ none)
  pub enable_fails :
      (i : ℕ) (s : u.State)
      → is_ok (u.rx_enable i s).0 ≡ false
      → (current (u.rx_enable i s).1 ≡ current s) × (second (u.rx_enable i s).1 ≡ second s)
  pub responds :
      (i j : ℕ) (s : u.State)
      → current s ≡ some i
      → second s ≡ none
      → (current (u.rx_buf_rsp j s).1 ≡ some i) × (second (u.rx_buf_rsp j s).1 ≡ some j)
  pub requests :
      (s t : u.State)
      → u.Raises s UartEvent.rx_buf_request t
      → (i : ℕ) × (current s ≡ some i)
        × (current t ≡ some i)
        × (second s ≡ none)
        × (second t ≡ none)
  pub releases :
      (s t : u.State)
      → u.Raises s UartEvent.rx_buf_released t
      → (current t ≡ second s) × (second t ≡ none)
  pub disables :
      (s t : u.State) → u.Raises s UartEvent.rx_disabled t → (current t ≡ none) × (second t ≡ none)
  pub stops :
      (s t : u.State)
      → u.Raises s UartEvent.rx_stopped t
      → (current t ≡ current s) × (second t ≡ second s)
  pub sends :
      (s t : u.State)
      → u.Raises s UartEvent.tx_done t
      → (current t ≡ current s) × (second t ≡ second s)
  pub aborts :
      (s t : u.State)
      → u.Raises s UartEvent.tx_aborted t
      → (current t ≡ current s) × (second t ≡ second s)
  pub receives :
      (bs : Bytes) (offset len : ℕ) (s t : u.State)
      → u.Raises s (UartEvent.rx_rdy bs offset len) t
      → (current t ≡ current s) × (second t ≡ second s)

-- The static variables of the callbacks; `tx_done` is the semaphore that the transmit thread takes.
pub record Callbacks (Ring : Type 0) : Type 0 where
  pub rx : Ring
  pub rx_dma_next : ℕ
  pub tx_done : Bool

-- `x ^ 1`
abbrev pub other_buffer : ℕ → ℕ
other_buffer x = if x % 2 == 0 then x + 1 else x - 1

module _ (buf : RingBuf) where
  unfoldable pub initial : Callbacks buf.Ring
  initial = record { rx = buf.empty; rx_dma_next = 0; tx_done = true }

  -- `uart_cb`
  unfoldable pub uart_cb : UartEvent → Callbacks buf.Ring → Callbacks buf.Ring
  uart_cb UartEvent.tx_done s = record s { tx_done = true }
  uart_cb UartEvent.tx_aborted s = record s { tx_done = true }
  uart_cb (UartEvent.rx_rdy bs offset len) s = record s {
    rx = buf.put (take len (drop offset bs)) s.rx;
  }
  uart_cb UartEvent.rx_buf_request s = s
  uart_cb UartEvent.rx_buf_released s = s
  uart_cb UartEvent.rx_disabled s = s
  uart_cb UartEvent.rx_stopped s = s

  module _ (u : Uart) where
    -- The switch of `uart_cb_rx`.
    unfoldable pub rx_switch :
        UartEvent → Callbacks buf.Ring → u.State → Callbacks buf.Ring × u.State
    rx_switch UartEvent.rx_buf_request s d =
        (record s { rx_dma_next = other_buffer s.rx_dma_next }, (u.rx_buf_rsp s.rx_dma_next d).1)
    rx_switch UartEvent.rx_disabled s d = (record s { rx_dma_next = 1 }, (u.rx_enable 0 d).1)
    rx_switch UartEvent.tx_done s d = (s, d)
    rx_switch UartEvent.tx_aborted s d = (s, d)
    rx_switch UartEvent.rx_buf_released s d = (s, d)
    rx_switch UartEvent.rx_stopped s d = (s, d)
    rx_switch (UartEvent.rx_rdy bs offset len) s d = (s, d)

    -- `uart_cb_rx`
    unfoldable pub uart_cb_rx :
        UartEvent → Callbacks buf.Ring → u.State → Callbacks buf.Ring × u.State
    uart_cb_rx evt s d = rx_switch evt (uart_cb evt s) d

    -- `sn_link_init`
    unfoldable pub init : Callbacks buf.Ring → u.State → Code × Callbacks buf.Ring × u.State
    init s d =
        if not u.ready
        then (failure enodev, s, d)
        else if not (is_ok u.callback_set)
        then (failure enotsup, s, d)
        else (success, record s { rx_dma_next = 1 }, (u.rx_enable 0 d).1)
