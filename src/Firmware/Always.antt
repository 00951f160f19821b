-- ===== src/Firmware/Always.antt =====
-- What holds of the firmware at all times, whatever happens in whatever order.
use nrf54l15_sniffer.Base.{
  ℕ, ◌≤◌, arith, ◌≡◌, sym, ap, ◌∙◌, Bool, false, Bytes, List, [], ◌∷◌, success, inl,
}
use nrf54l15_sniffer.Radio154
use nrf54l15_sniffer.Radio154.{NetPkt, out_of_range, to_packet}
use nrf54l15_sniffer.Radio154.Driver.{IsRadioDriver}
use nrf54l15_sniffer.Radio154.Tuned.{Obeys}
use nrf54l15_sniffer.Radio154.Init.{IsRadioSetup, passive}
use nrf54l15_sniffer.Ble
use nrf54l15_sniffer.Board.{Env, Board}
use nrf54l15_sniffer.Control.{handle, at_power_on}
use nrf54l15_sniffer.Control.OneRuns.{Exclusive}
use nrf54l15_sniffer.Control.Exclusive.{handle-Exclusive}
use nrf54l15_sniffer.Control.Passive.{handle-mode}
use nrf54l15_sniffer.Control.Tuned.{InTune, handle-InTune}
use nrf54l15_sniffer.Startup.{Bring, System, main, sleeps, main_lem}
use nrf54l15_sniffer.Startup.Passive.{main-mode}
use nrf54l15_sniffer.Firmware.{Happening, host_frame, happen, run}
use nrf54l15_sniffer.Firmware.Standing.{Stands, happen-Stands}

module _ (e : Env) where
  -- What every frame of the host keeps, and what follows from what only they change, is kept.
  run_keeps :
      (P : Board e → Type 0)
      → ((kind : ℕ) (payload : Bytes) (b : Board e) → P b → P (handle e kind payload b))
      → ((b b' : Board e) → Stands e b b' → P b → P b')
      → (xs : List Happening) (b : Board e) → P b
      → P (run e xs b)
  unfolding run happen
  run_keeps P asked unasked [] b p = p
  run_keeps P asked unasked (host_frame kind payload ∷ xs) b p =
      run_keeps P asked unasked xs _ (asked kind payload b p)
  run_keeps P asked unasked (x ∷ xs) b p =
      run_keeps P asked unasked xs _ (unasked b _ (happen-Stands e x b tt) p)

  Stands-Exclusive : (b b' : Board e) → Stands e b b' → Exclusive e b → Exclusive e b'
  Stands-Exclusive b b' k h =
      rw
        (
          k.selected,
          k.running,
          ap (λ (x : Bool × Bool). x.0) k.scan,
          ap (λ (x : Bool × Bool). x.1) k.scan,
        )
        h

  pub run-Exclusive :
      ((d : e.driver.State) → (e.driver.stop d).0 ≡ success)
      → (xs : List Happening) (b : Board e) → Exclusive e b
      → Exclusive e (run e xs b)
  run-Exclusive stops xs b h =
      run_keeps (λ x. Exclusive e x) (λ kind payload x k. handle-Exclusive e stops kind payload x k)
        Stands-Exclusive xs b h

  run-InTune :
      (laws : IsRadioDriver e.driver) (obeys : Obeys e.driver) (xs : List Happening) (b : Board e)
      → InTune e laws obeys b
      → InTune e laws obeys (run e xs b)
  run-InTune laws obeys xs b t =
      run_keeps (λ x. InTune e laws obeys x)
        (λ kind payload x q. handle-InTune e laws obeys kind payload x q) stands xs b t
    where
      stands : (x x' : Board e) → Stands e x x' → InTune e laws obeys x → InTune e laws obeys x'
      stands x x' s k = record {
        agrees = record {
          channel = ap laws.tuned s.driver ∙ k.agrees.channel ∙ sym s.channel;
          receives = ap laws.receiving s.driver ∙ k.agrees.receives ∙ sym s.running;
        };
        in_range = rw s.channel k.in_range;
      }

module _ {e : Env} {s : Bring e} (laws : IsRadioSetup s.setup) where
  -- Once `main` has brought the board up, nothing that happens, no frame of the host above all, makes
  -- the 802.15.4 radio acknowledge what it hears, filter it, or keep failed receptions to itself.
  pub stays_passive :
      (x : System e s) (xs : List Happening)
      → (main e s x).0 ≡ sleeps
      → laws.mode (run e xs (main e s x).1.board).driver ≡ passive
  stays_passive x xs h =
      run_keeps e (λ b. laws.mode b.driver ≡ passive)
        (λ kind payload b k. handle-mode laws kind payload b ∙ k)
        (λ b b' k m. ap laws.mode k.driver ∙ m) xs _ (main-mode laws x h)

module _ {e : Env} {s : Bring e} where
  boot-Exclusive :
      (x : System e s)
      → x.board ≡ at_power_on e x.board.link x.board.driver x.board.controller x.board.antenna
      → Exclusive e (main e s x).1.board
  unfolding at_power_on Radio154.initial Ble.initial
  boot-Exclusive x h =
      let u = (main_lem x).0 in
      record {
        known = inl (u.selected ∙ ap (λ (b : Board e). b.selected_radio) h);
        ble_off = λ i. ap (λ b. b.running) u.scan ∙ idle;
        radio_off = λ i. ap (λ r. r.running) (u.radio ∙ ap (λ (b : Board e). b.radio) h);
        unready = λ i. ap (λ b. b.running) u.scan ∙ idle;
      }
    where
      idle : x.board.ble.running ≡ false
      idle = ap (λ (b : Board e). b.ble.running) h

  -- From power on, through `main` and then whatever the host sends, the radios hear, the driver reports
  -- and the timers and work items do, in any order: if stopping the 802.15.4 radio succeeds whenever it
  -- is asked for, a radio that exists is selected at all times, and the other one is not capturing.
  pub one_radio_runs :
      ((d : e.driver.State) → (e.driver.stop d).0 ≡ success)
      → (x : System e s) (xs : List Happening)
      → x.board ≡ at_power_on e x.board.link x.board.driver x.board.controller x.board.antenna
      → Exclusive e (run e xs (main e s x).1.board)
  one_radio_runs stops x xs h = run-Exclusive e stops xs _ (boot-Exclusive x h)

  boot-InTune :
      (laws : IsRadioDriver e.driver) (obeys : Obeys e.driver) (x : System e s)
      → x.board ≡ at_power_on e x.board.link x.board.driver x.board.controller x.board.antenna
      → let b = (main e s x).1.board in
        (laws.tuned b.driver ≡ 11) → (laws.receiving b.driver ≡ false) → InTune e laws obeys b
  unfolding at_power_on Radio154.initial
  boot-InTune laws obeys x h tuned quiet =
      let same = (main_lem x).0.radio ∙ ap (λ (b : Board e). b.radio) h in
      record {
        agrees = record {
          channel = tuned ∙ sym (ap (λ r. r.current_channel) same);
          receives = quiet ∙ sym (ap (λ r. r.running) same);
        };
        in_range = ap (λ r. out_of_range r.current_channel) same;
      }

  -- From power on, through `main` and then whatever happens in whatever order, a measurement of energy
  -- being one of the things that happen: between any two of them the radio receives exactly if a
  -- capture is meant to run, and a packet that comes then is tagged with the channel that the radio is
  -- tuned to, one of 802.15.4's sixteen. The driver is taken to do what it is asked, and to have come
  -- out of `main` on channel 11, its default, and not receiving.
  pub run_on_channel :
      (laws : IsRadioDriver e.driver) (obeys : Obeys e.driver) (x : System e s)
      (xs : List Happening)
      → x.board ≡ at_power_on e x.board.link x.board.driver x.board.controller x.board.antenna
      → laws.tuned (main e s x).1.board.driver ≡ 11
      → laws.receiving (main e s x).1.board.driver ≡ false
      → let b = run e xs (main e s x).1.board in
        (laws.receiving b.driver ≡ b.radio.running)
        × (11 ≤ laws.tuned b.driver)
        × (laws.tuned b.driver ≤ 26)
        × ((pkt : NetPkt) → (to_packet b.radio pkt).channel ≡ laws.tuned b.driver)
  run_on_channel laws obeys x xs h tuned quiet = (
    k.agrees.receives,
    ground (arith, k.in_range, k.agrees.channel),
    ground (arith, k.in_range, k.agrees.channel),
    λ pkt. sym k.agrees.channel,
  )
    where
      k : InTune e laws obeys (run e xs (main e s x).1.board)
      k = run-InTune e laws obeys xs _ (boot-InTune laws obeys x h tuned quiet)
