-- ===== src/Startup.antt =====
-- `main` of src/main.c in its capture build: the order in which the modules are brought up, and what a
-- failure leaves. `sn_radio_ble_init` of src/radio_ble.c is here too. Log output is left out.
pub mod Passive
use nrf54l15_sniffer.Base.{
  ℕ, ◌≡◌, refl, Bool, true, false, not, ◌||◌, if◌then◌else◌, Code, success, failure, is_ok,
  Bool-cases, inl, inr, ◌⊎◌, arith,
}
use nrf54l15_sniffer.RingBuf.{RingBuf}
use nrf54l15_sniffer.Board.{Env, Board}
use nrf54l15_sniffer.Radio154.Init.{RadioSetup}
use nrf54l15_sniffer.Radio154.Init
use nrf54l15_sniffer.Ble.{Ble}
use nrf54l15_sniffer.Link.Uart.{Uart, Callbacks}
use nrf54l15_sniffer.Link.Uart

-- What start-up stands on besides the board's environment: the receive ring, the UART driver, the
-- calls that set up the 802.15.4 driver, and `bt_enable_raw`.
pub record Bring (e : Env) : Type 1 where
  pub ring : RingBuf
  pub uart : Uart
  pub setup : RadioSetup e.driver
  pub enable_raw : e.controller.State → Code × e.controller.State

-- The board with what `main` sets up around it: the callbacks of the link, whether `fwd_loop` runs,
-- whether `frame_handler` is `sn_control_handle`, and whether `stats_work` is scheduled.
pub record System (e : Env) (s : Bring e) : Type 0 where
  pub board : Board e
  pub callbacks : Callbacks s.ring.Ring
  pub uart : s.uart.State
  pub forwarding : Bool
  pub handling : Bool
  pub reporting : Bool

-- How `main` ends: it returns -1, or sleeps for ever while the rest works.
pub data Outcome : Type 0 where
  exits sleeps : Outcome

module _ (e : Env) (s : Bring e) where
  -- `sn_radio_ble_init`
  unfoldable pub ble_init : System e s → Code × System e s
  ble_init x =
      let (err, controller) = s.enable_raw x.board.controller in
      let tried = record x { board = record x.board { controller = controller } } in
      if not (is_ok err) then (err, tried) else (
        success,
        record tried {
          board = record tried.board { ble = record x.board.ble { ready = true } };
          forwarding = true;
        },
      )

  -- `sn_link_set_frame_handler(sn_control_handle)`
  abbrev pub set_frame_handler : System e s → System e s
  set_frame_handler x = record x { handling = true }

  -- `main`, once the link is up
  unfoldable pub bring_up : System e s → Outcome × System e s
  bring_up x =
      let (err, driver) = Init.init s.setup x.board.driver in
      let tried = record x { board = record x.board { driver = driver } } in
      let (code, with_ble) = ble_init tried in
      if not (is_ok err)
      then (exits, tried)
      else (sleeps, record (set_frame_handler with_ble) { reporting = true })

  -- `main`
  unfoldable pub main : System e s → Outcome × System e s
  main x =
      let (err, callbacks, uart) = Uart.init s.ring s.uart x.callbacks x.uart in
      let linked = record x { callbacks = callbacks; uart = uart } in
      if not (is_ok err) then (exits, linked) else bring_up linked

module _ {e : Env} {s : Bring e} where
  -- What start-up has left of the board.
  pub record Untouched (x y : System e s) : Type 0 where
    pub radio : y.board.radio ≡ x.board.radio
    pub batch : y.board.batch ≡ x.board.batch
    pub link : y.board.link ≡ x.board.link
    pub scan : y.board.ble ≡ record x.board.ble { ready = y.board.ble.ready }
    pub selected : y.board.selected_radio ≡ x.board.selected_radio
    pub interval_ms : y.board.ble_interval_ms ≡ x.board.ble_interval_ms
    pub window_ms : y.board.ble_window_ms ≡ x.board.ble_window_ms
    pub phys : y.board.ble_phys ≡ x.board.ble_phys
    pub antenna : y.board.antenna ≡ x.board.antenna

  -- A failure that is fatal: nothing handles the host's frames, and nothing is reported.
  pub record Dead (x y : System e s) : Type 0 where
    pub outcome : (main e s x).0 ≡ exits
    pub handling : y.handling ≡ x.handling
    pub reporting : y.reporting ≡ x.reporting
    pub forwarding : y.forwarding ≡ x.forwarding
    pub ready : y.board.ble.ready ≡ x.board.ble.ready

  -- The board works; without its Bluetooth controller it does 802.15.4 alone.
  pub record Alive (x y : System e s) : Type 0 where
    pub outcome : (main e s x).0 ≡ sleeps
    pub handling : y.handling ≡ true
    pub reporting : y.reporting ≡ true
    pub ready : y.board.ble.ready ≡ (is_ok (s.enable_raw x.board.controller).0 || x.board.ble.ready)
    pub forwarding : y.forwarding ≡ (is_ok (s.enable_raw x.board.controller).0 || x.forwarding)

  abbrev pub brought : System e s → Code
  brought x = (Init.init s.setup x.board.driver).0

  abbrev pub linked : System e s → Code
  linked x = (Uart.init s.ring s.uart x.callbacks x.uart).0

  -- Start-up changes of the board only the Bluetooth controller, the 802.15.4 driver and `ready`: no
  -- radio is started, no setting changes and nothing is sent. If the link and the 802.15.4 radio come up, `main` goes on to handle the host's
  -- frames and to report, Bluetooth or not, and Bluetooth is ready exactly if its controller is; if
  -- either fails, `main` returns before anything is installed.
  pub main_lem :
      (x : System e s)
      → let y = (main e s x).1 in
        Untouched x y
        × ((((is_ok (linked x)) ≡ true) × (is_ok (brought x) ≡ true) × Alive x y)
            ⊎ (((is_ok (linked x) ≡ false) ⊎ (is_ok (brought x) ≡ false)) × Dead x y))
  unfolding main bring_up ble_init
  main_lem x = elim (Bool-cases (is_ok (linked x))) [
    | inr unlinked ↦ rw unlinked (
      record {
        radio = refl;
        batch = refl;
        link = refl;
        scan = refl;
        selected = refl;
        interval_ms = refl;
        window_ms = refl;
        phys = refl;
        antenna = refl;
      },
      inr (
        inl refl,
        record {
          outcome = rw unlinked refl;
          handling = refl;
          reporting = refl;
          forwarding = refl;
          ready = refl;
        },
      ),
    )
    | inl up ↦ elim (Bool-cases (is_ok (brought x))) [
      | inr unset ↦
          rw (up, unset)
            (
              record {
                radio = refl;
                batch = refl;
                link = refl;
                scan = refl;
                selected = refl;
                interval_ms = refl;
                window_ms = refl;
                phys = refl;
                antenna = refl;
              },
              inr (
                inr refl,
                record {
                  outcome = rw (up, unset) refl;
                  handling = refl;
                  reporting = refl;
                  forwarding = refl;
                  ready = refl;
                },
              ),
            )
      | inl set ↦ elim (Bool-cases (is_ok (s.enable_raw x.board.controller).0)) [
        | inl enabled ↦
            rw (up, set, enabled)
              (
                record {
                  radio = refl;
                  batch = refl;
                  link = refl;
                  scan = refl;
                  selected = refl;
                  interval_ms = refl;
                  window_ms = refl;
                  phys = refl;
                  antenna = refl;
                },
                inl (
                  refl,
                  refl,
                  record {
                    outcome = rw (up, set) refl;
                    handling = refl;
                    reporting = refl;
                    ready = rw enabled refl;
                    forwarding = rw enabled refl;
                  },
                ),
              )
        | inr without ↦
            rw (up, set, without)
              (
                record {
                  radio = refl;
                  batch = refl;
                  link = refl;
                  scan = refl;
                  selected = refl;
                  interval_ms = refl;
                  window_ms = refl;
                  phys = refl;
                  antenna = refl;
                },
                inl (
                  refl,
                  refl,
                  record {
                    outcome = rw (up, set) refl;
                    handling = refl;
                    reporting = refl;
                    ready = rw without refl;
                    forwarding = rw without refl;
                  },
                ),
              )
      ]
    ]
  ]
