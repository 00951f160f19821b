-- ===== src/Control/OneRuns.antt =====
-- One radio at a time: what the steps that the commands of src/control.c are made of keep true.
use nrf54l15_sniffer.Base.{
  ℕ, ◌≡◌, refl, sym, ap, subst, ◌∙◌, Bool, true, false, ◌&&◌, not, ◌==◌, if◌then◌else◌, success,
  Bool-cases, inl, inr, ◌⊎◌, arith,
}
use nrf54l15_sniffer.Commands.{Cmd}
use nrf54l15_sniffer.Radio154.{Radio154}
use nrf54l15_sniffer.Radio154
use nrf54l15_sniffer.Ble.{Ble}
use nrf54l15_sniffer.Ble.Setup.Stop.{stop_lem, start_lem, start-unready}
use nrf54l15_sniffer.Board.{Env, Board, flush_batch, radio_start, radio_stop, ble_start, ble_stop}
use nrf54l15_sniffer.Control.{radio_154, radio_ble, stop_radio, set_antenna, execute}

-- Of the selected radio, and whether 802.15.4 runs, Bluetooth runs, and its controller came up.
pub record OneRuns (selected : ℕ) (radio ble ready : Bool) : Type 0 where
  pub known : (selected ≡ radio_154) ⊎ (selected ≡ radio_ble)
  pub ble_off : selected ≡ radio_154 → ble ≡ false
  pub radio_off : selected ≡ radio_ble → radio ≡ false
  pub unready : ready ≡ false → ble ≡ false

abbrev pub Exclusive : (e : Env) → Board e → Type 0
Exclusive e b = OneRuns b.selected_radio b.radio.running b.ble.running b.ble.ready

module _ (e : Env) (stops : (d : e.driver.State) → (e.driver.stop d).0 ≡ success) where
  radio_stopped :
      (r : Radio154) (d : e.driver.State) → (Radio154.stop e.driver r d).1.running ≡ false
  unfolding Radio154.stop
  radio_stopped r d = ground (arith, stops d)

  -- Stopping one radio leaves the other, and the selection, alone.
  pub stop_radio-154 :
      (b : Board e)
      → let b' = (stop_radio e radio_154 b).1 in
        (b'.radio.running ≡ false) × (b'.ble ≡ b.ble) × (b'.selected_radio ≡ b.selected_radio)
  unfolding stop_radio radio_stop flush_batch
  stop_radio-154 b = (radio_stopped b.radio b.driver, refl, refl)

  pub stop_radio-ble :
      (b : Board e)
      → (b.ble.ready ≡ false → b.ble.running ≡ false)
      → let b' = (stop_radio e radio_ble b).1 in
        (b'.ble.running ≡ false)
        × (b'.ble.ready ≡ b.ble.ready)
        × (b'.radio ≡ b.radio)
        × (b'.selected_radio ≡ b.selected_radio)
  unfolding stop_radio ble_stop
  stop_radio-ble b unready =
      let s = stop_lem e.hci e.controller e.link b.ble b.controller b.link in
      (ground (arith, s.running), ground (arith, s.ready), ground arith, ground arith)

  -- The 802.15.4 radio may do anything while Bluetooth is not selected.
  pub radio_free :
      {s : ℕ} {r bl rd : Bool} (r' : Bool)
      → OneRuns s r bl rd
      → (s == radio_ble) ≡ false
      → OneRuns s r' bl rd
  radio_free r' h other = record {
    known = h.known;
    ble_off = h.ble_off;
    radio_off = λ i. absurd (ground arith);
    unready = h.unready;
  }

  set_antenna_keeps :
      (value : ℕ) (b : Board e)
      → let b' = (set_antenna e value b).1 in
        (b'.selected_radio ≡ b.selected_radio) × (b'.radio ≡ b.radio) × (b'.ble ≡ b.ble)
  unfolding set_antenna
  set_antenna_keeps value b = (ground arith, ground arith, ground arith)

  pub set_antenna-OneRuns :
      (value : ℕ) (b : Board e) → Exclusive e b → Exclusive e (set_antenna e value b).1
  set_antenna-OneRuns value b h = let (s, r, l) = set_antenna_keeps value b in rw (s, r, l) h

  both_off :
      {s : ℕ} {r bl rd : Bool}
      → (s ≡ radio_154) ⊎ (s ≡ radio_ble)
      → r ≡ false
      → bl ≡ false
      → OneRuns s r bl rd
  both_off known r bl = record {
    known = known;
    ble_off = λ _. bl;
    radio_off = λ _. r;
    unready = λ _. bl;
  }

  -- Bluetooth may start once its controller is up and 802.15.4 is not selected.
  ble_free :
      {s : ℕ} {r bl rd : Bool} (bl' : Bool)
      → OneRuns s r bl rd
      → (s == radio_ble) ≡ true
      → (rd ≡ false → bl' ≡ bl)
      → OneRuns s r bl' rd
  ble_free bl' h sel same = record {
    known = h.known;
    ble_off = λ i. absurd (ground arith);
    radio_off = h.radio_off;
    unready = λ d. same d ∙ h.unready d;
  }

  pub start-OneRuns :
      (b : Board e)
      → Exclusive e b
      → Exclusive e (if b.selected_radio == radio_ble then ble_start e b else radio_start e b).1
  unfolding radio_start ble_start
  start-OneRuns b h = elim (Bool-cases (b.selected_radio == radio_ble)) [
    | inr other ↦ rw other (radio_free _ h other)
    | inl sel ↦
        rw
          (
            sel,
            (start_lem e.hci e.controller b.ble_interval_ms b.ble_window_ms b.ble_phys b.ble
                b.controller).1,
          )
          (ble_free _ h sel (λ down.
            ap (λ r. r.1.running)
              (start-unready e.hci e.controller b.ble_interval_ms b.ble_window_ms b.ble_phys b.ble
                b.controller down)))
  ]

  -- Stopping the selected radio leaves none running.
  all_stopped :
      (r : ℕ) (b : Board e)
      → OneRuns r b.radio.running b.ble.running b.ble.ready
      → let b' = (stop_radio e r b).1 in
        (b'.radio.running ≡ false)
        × (b'.ble.running ≡ false)
        × (b'.selected_radio ≡ b.selected_radio)
  all_stopped r b h = elim h.known [
    | inl sel ↦
        let (off, l, s) = stop_radio-154 b in
        rw sel (off, ap (λ (x : Ble). x.running) l ∙ h.ble_off sel, s)
    | inr sel ↦
        let (off, rd, same, s) = stop_radio-ble b h.unready in
        rw sel (ap (λ (x : Radio154). x.running) same ∙ h.radio_off sel, off, s)
  ]

  pub stop-OneRuns : (b : Board e) → Exclusive e b → Exclusive e (stop_radio e b.selected_radio b).1
  stop-OneRuns b h =
      let (radio, ble, s) = all_stopped b.selected_radio b h in
      both_off (subst (λ n. (n ≡ radio_154) ⊎ (n ≡ radio_ble)) (sym s) h.known) radio ble

  pub set_radio-OneRuns :
      (value : ℕ) (b : Board e) → Exclusive e b → Exclusive e (execute e Cmd.set_radio value b).2
  unfolding execute
  set_radio-OneRuns value b h =
      elim (Bool-cases (not (value == radio_154) && not (value == radio_ble))) [
        | inl wrong ↦ rw wrong h
        | inr right ↦ rw right (elim (Bool-cases (value == b.selected_radio)) [
          | inl same ↦
              rw same
                (subst (λ n. OneRuns n b.radio.running b.ble.running b.ble.ready) (ground arith) h)
          | inr other ↦
              let (radio, ble, s) = all_stopped b.selected_radio b h in
              rw other (both_off (ground arith) radio ble)
        ])
      ]
