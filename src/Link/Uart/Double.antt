-- ===== src/Link/Uart/Double.antt =====
-- The two receive buffers of src/link.c: the driver is never given one that it is filling, and is given
-- one whenever it asks.
use nrf54l15_sniffer.Base.{
  ℕ, ◌-◌, ◌<◌, ◌≡◌, ◌≢◌, ◌⊎◌, inl, inr, sym, ◌∙◌, false, some, none, is_ok, success_of_is_ok,
  Bool-cases, arith, success,
}
use nrf54l15_sniffer.RingBuf.{RingBuf}
use nrf54l15_sniffer.Link.Uart.{
  Uart, IsUart, UartEvent, Callbacks, uart_cb, rx_switch, uart_cb_rx, init, initial, other_buffer,
}

module _ (buf : RingBuf) {u : Uart} (w : IsUart u) where
  -- After `sn_link_init` with reception off, the driver reports one event after another, each when the
  -- callback for the one before has returned.
  pub data Reach : Callbacks buf.Ring → u.State → Type 0 where
    start :
        (d : u.State)
        → w.current d ≡ none
        → w.second d ≡ none
        → (init buf u (initial buf) d).0 ≡ success
        → Reach (init buf u (initial buf) d).1 (init buf u (initial buf) d).2
    event :
        {s : Callbacks buf.Ring} {d : u.State} (evt : UartEvent) (e : u.State)
        → Reach s d
        → u.Raises d evt e
        → Reach (uart_cb_rx buf u evt s e).0 (uart_cb_rx buf u evt s e).1

  -- The driver holds neither buffer, or one while the other is next, or both while the one that it
  -- fills is next.
  pub data Alternates (next : ℕ) (d : u.State) : Type 0 where
    off : w.current d ≡ none → w.second d ≡ none → Alternates next d
    one :
        (i : ℕ)
        → i < 2
        → w.current d ≡ some i
        → w.second d ≡ none
        → next ≡ 1 - i
        → Alternates next d
    two :
        (i : ℕ)
        → i < 2
        → w.current d ≡ some i
        → w.second d ≡ some (1 - i)
        → next ≡ i
        → Alternates next d

  same :
      {next : ℕ} {d e : u.State}
      → (w.current e ≡ w.current d) × (w.second e ≡ w.second d)
      → Alternates next d
      → Alternates next e
  same k (off p q) = off (k.0 ∙ p) (k.1 ∙ q)
  same k (one i h p q n) = one i h (k.0 ∙ p) (k.1 ∙ q) n
  same k (two i h p q n) = two i h (k.0 ∙ p) (k.1 ∙ q) n

  enabled :
      (d : u.State)
      → w.current d ≡ none
      → w.second d ≡ none
      → Alternates 1 (u.rx_enable 0 d).1
        × ((is_ok (u.rx_enable 0 d).0 ≡ false) ⊎ (w.current (u.rx_enable 0 d).1 ≡ some 0))
  enabled d p q = elim (Bool-cases (is_ok (u.rx_enable 0 d).0)) [
    | inl ok ↦
        let (held, free) = w.enables 0 d (success_of_is_ok ok) in
        (one 0 (omega arith) held free (omega arith), inr held)
    | inr failed ↦
        let (kept, free) = w.enable_fails 0 d failed in (off (kept ∙ p) (free ∙ q), inl failed)
  ]

  no_some : {i : ℕ} → none ≢ some i
  no_some e = cc

  -- A request comes while one buffer is held, and gets the other.
  answered :
      {next : ℕ} {d : u.State} (e : u.State)
      → Alternates next d
      → u.Raises d UartEvent.rx_buf_request e
      → (i : ℕ) × (i < 2)
        × (w.current (u.rx_buf_rsp next e).1 ≡ some i)
        × (w.second (u.rx_buf_rsp next e).1 ≡ some (1 - i))
        × (other_buffer next ≡ i)
  answered {next} {d} e a r = go a (w.requests d e r)
    where
      go :
          Alternates next d
          → (i : ℕ) × (w.current d ≡ some i)
            × (w.current e ≡ some i)
            × (w.second d ≡ none)
            × (w.second e ≡ none)
          → (i : ℕ) × (i < 2)
            × (w.current (u.rx_buf_rsp next e).1 ≡ some i)
            × (w.second (u.rx_buf_rsp next e).1 ≡ some (1 - i))
            × (other_buffer next ≡ i)
      go (off p q) (i, c, c', n, n') = absurd (no_some (sym p ∙ c))
      go (one i h p q n) (j, c, c', m, m') =
          let is : i ≡ j = cc in
          let (held, given) = w.responds j next e c' m' in
          (j, omega arith, held, given ∙ rw (n, is), ground arith)
      go (two i h p q n) (j, c, c', m, m') = absurd (no_some (sym m ∙ q))

  -- What an event is answered with: a request with a second buffer, the end of reception with a
  -- buffer to go on with, if the driver takes it.
  abbrev pub Served : UartEvent → u.State → u.State → Type 0
  Served UartEvent.rx_buf_request e d = w.second d ≢ none
  Served UartEvent.rx_disabled e d = (is_ok (u.rx_enable 0 e).0 ≡ false) ⊎ (w.current d ≡ some 0)
  Served _ e d = Unit {0}

  released :
      {next : ℕ} {d : u.State} (e : u.State)
      → Alternates next d
      → u.Raises d UartEvent.rx_buf_released e
      → Alternates next e
  released {next} {d} e a r = go a (w.releases d e r)
    where
      go : Alternates next d → (w.current e ≡ w.second d) × (w.second e ≡ none) → Alternates next e
      go (off p q) (c, n) = off (c ∙ q) n
      go (one i h p q k) (c, n) = off (c ∙ q) n
      go (two i h p q k) (c, n) = one (1 - i) (omega arith) (c ∙ q) n (omega arith)

  step :
      (evt : UartEvent) (s : Callbacks buf.Ring) {d : u.State} (e : u.State)
      → Alternates s.rx_dma_next d
      → u.Raises d evt e
      → let (s', d') = uart_cb_rx buf u evt s e in Alternates s'.rx_dma_next d' × Served evt e d'
  unfolding uart_cb_rx uart_cb rx_switch
  step UartEvent.rx_buf_request s e a r =
      let (i, h, held, given, next) = answered e a r in
      (two i h held given next, λ none_given. no_some (sym none_given ∙ given))
  step UartEvent.rx_disabled s {d} e a r = let (p, q) = w.disables d e r in enabled e p q
  step UartEvent.rx_buf_released s e a r = (released e a r, tt)
  step UartEvent.tx_done s {d} e a r = (same (w.sends d e r) a, tt)
  step UartEvent.tx_aborted s {d} e a r = (same (w.aborts d e r) a, tt)
  step UartEvent.rx_stopped s {d} e a r = (same (w.stops d e r) a, tt)
  step (UartEvent.rx_rdy bs offset len) s {d} e a r = (same (w.receives bs offset len d e r) a, tt)

  init-Alternates :
      (d : u.State)
      → w.current d ≡ none
      → w.second d ≡ none
      → (init buf u (initial buf) d).0 ≡ success
      → Alternates (init buf u (initial buf) d).1.rx_dma_next (init buf u (initial buf) d).2
  unfolding init
  init-Alternates d p q h = elim (Bool-cases u.ready) [
    | inr absent ↦ absurd (cc)
    | inl ready ↦ elim (Bool-cases (is_ok u.callback_set)) [
      | inl set ↦ rw (ready, set) ((enabled d p q).0)
      | inr unset ↦ absurd (cc)
    ]
  ]

  reach : {s : Callbacks buf.Ring} {d : u.State} → Reach s d → Alternates s.rx_dma_next d
  reach (start d p q h) = init-Alternates d p q h
  reach (event {s} evt e r k) = (step evt s e (reach r) k).0

  -- From `sn_link_init` on, whatever events the driver reports: after each, the driver fills a buffer
  -- that is not the one it was given to go on with, both inside `rx_dma`; a request for a buffer has
  -- been met, and after the end of reception the driver fills the first buffer again, unless it
  -- refused to start.
  pub callback_serves :
      {s : Callbacks buf.Ring} {d : u.State} (evt : UartEvent) (e : u.State)
      → Reach s d
      → u.Raises d evt e
      → let (s', d') = uart_cb_rx buf u evt s e in Alternates s'.rx_dma_next d' × Served evt e d'
  callback_serves {s} evt e r k = step evt s e (reach r) k
