-- ===== src/Radio154/Init.antt =====
-- `sn_radio154_init` of src/radio154.c, and that nothing after it makes the radio answer what it hears.
use nrf54l15_sniffer.Base.{
  ℕ, ◌+◌, ◌%◌, ◌^◌, ◌≡◌, refl, ◌∙◌, Bool, true, false, not, if◌then◌else◌, ◌||◌, ◌==◌, Code,
  success, failure, enodev, is_ok, success_of_is_ok, Bool-cases, inl, inr, arith,
}
use nrf54l15_sniffer.Radio154.Driver.{RadioDriver}
use nrf54l15_sniffer.Radio154.{
  Radio154, set_channel, start, stop, measure, restore, energy_detect, out_of_range, window_ms,
}

-- How the radio receives: whether it acknowledges frames, takes frames meant for others, and reports
-- the receptions that fail.
pub record Mode : Type 0 where
  pub acknowledges : Bool
  pub promiscuous : Bool
  pub reports : Bool

-- A sniffer's mode.
abbrev pub passive : Mode
passive = record { acknowledges = false; promiscuous = true; reports = true }

-- The calls of Zephyr's driver that `sn_radio154_init` makes: `device_is_ready`, whether the device
-- has an API, `nrf_802154_auto_ack_set`, and `configure` for either option.
pub record RadioSetup (driver : RadioDriver) : Type 0 where
  pub ready : Bool
  pub has_api : Bool
  pub auto_ack_set : Bool → driver.State → driver.State
  pub configure_promiscuous : Bool → driver.State → Code × driver.State
  pub configure_events : driver.State → Code × driver.State

-- Their documented behaviour; the calls made later leave the mode alone.
pub record IsRadioSetup {driver : RadioDriver} (setup : RadioSetup driver) : Type 0 where
  pub mode : driver.State → Mode
  pub ack_sets :
      (on : Bool) (d : driver.State)
      → mode (setup.auto_ack_set on d) ≡ record (mode d) { acknowledges = on }
  pub promiscuous_sets :
      (on : Bool) (d : driver.State)
      → (setup.configure_promiscuous on d).0 ≡ success
      → mode (setup.configure_promiscuous on d).1 ≡ record (mode d) { promiscuous = on }
  pub events_set :
      (d : driver.State)
      → (setup.configure_events d).0 ≡ success
      → mode (setup.configure_events d).1 ≡ record (mode d) { reports = true }
  pub tune_keeps : (c : ℕ) (d : driver.State) → mode (driver.set_channel c d).1 ≡ mode d
  pub start_keeps : (d : driver.State) → mode (driver.start d).1 ≡ mode d
  pub stop_keeps : (d : driver.State) → mode (driver.stop d).1 ≡ mode d
  pub scan_keeps : (ms : ℕ) (d : driver.State) → mode (driver.ed_scan ms d).1 ≡ mode d
  pub wait_keeps : (ms : ℕ) (d : driver.State) → mode (driver.ed_wait ms d).1 ≡ mode d

-- `sn_radio154_init`
unfoldable pub init :
    {driver : RadioDriver} → RadioSetup driver → driver.State → Code × driver.State
init setup d =
    let quiet = setup.auto_ack_set false d in
    let (err, d') = setup.configure_promiscuous true quiet in
    if not setup.ready
    then (failure enodev, d)
    else if not setup.has_api
    then (failure enodev, d)
    else if not (is_ok err)
    then (err, d')
    else setup.configure_events d'

module _ {driver : RadioDriver} {setup : RadioSetup driver} (laws : IsRadioSetup setup) where
  -- An initialisation that succeeds leaves the radio passive.
  pub init_lem :
      (d : driver.State) → (init setup d).0 ≡ success → laws.mode (init setup d).1 ≡ passive
  unfolding init
  init_lem d h = elim (Bool-cases setup.ready) [
    | inr absent ↦ absurd (cc)
    | inl ready ↦ elim (Bool-cases setup.has_api) [
      | inr bare ↦ absurd (cc)
      | inl api ↦
          let quiet = setup.auto_ack_set false d in
          elim (Bool-cases (is_ok (setup.configure_promiscuous true quiet).0)) [
            | inr failed ↦ absurd (ground arith)
            | inl ok ↦
                let set = laws.promiscuous_sets true quiet (success_of_is_ok ok) in
                let events =
                  laws.events_set (setup.configure_promiscuous true quiet).1 (ground arith) in
                rw (ready, api, ok) (cc (events, set, laws.ack_sets false d))
          ]
    ]
  ]

  pub set_channel-mode :
      (c : ℕ) (r : Radio154) (d : driver.State)
      → laws.mode (set_channel driver c r d).2 ≡ laws.mode d
  unfolding set_channel
  set_channel-mode c r d = elim (Bool-cases (out_of_range c)) [
    | inl bad ↦ rw bad refl
    | inr good ↦ rw good (laws.tune_keeps c d)
  ]

  pub start-mode : (r : Radio154) (d : driver.State) → laws.mode (start driver r d).2 ≡ laws.mode d
  unfolding start
  start-mode r d = laws.start_keeps d

  pub stop-mode : (r : Radio154) (d : driver.State) → laws.mode (stop driver r d).2 ≡ laws.mode d
  unfolding stop
  stop-mode r d = elim (Bool-cases r.running) [
    | inl running ↦ rw running (laws.stop_keeps d)
    | inr stopped ↦ rw stopped refl
  ]

  measure-mode :
      (c ms out : ℕ) (d : driver.State) → laws.mode (measure driver c ms out d).2 ≡ laws.mode d
  unfolding measure
  measure-mode c ms out d = ground (
    arith,
    laws.tune_keeps c d,
    laws.start_keeps d1,
    laws.scan_keeps ms d2,
    laws.wait_keeps ((ms + 100) % 2 ^ 32) d3,
  )
    where
      d1 : driver.State
      d1 = (driver.set_channel c d).1

      d2 : driver.State
      d2 = (driver.start d1).1

      d3 : driver.State
      d3 = (driver.ed_scan ms d2).1

  restore-mode :
      (previous : ℕ) (was_running : Bool) (d : driver.State)
      → laws.mode (restore driver previous was_running d) ≡ laws.mode d
  unfolding restore
  restore-mode previous true d = laws.start_keeps _ ∙ laws.tune_keeps previous d
  restore-mode previous false d = laws.stop_keeps _ ∙ laws.tune_keeps previous d

  pub energy_detect-mode :
      (c duration out : ℕ) (r : Radio154) (d : driver.State)
      → laws.mode (energy_detect driver c duration out r d).3 ≡ laws.mode d
  unfolding energy_detect
  energy_detect-mode c duration out r d = elim (Bool-cases (out_of_range c || duration == 0)) [
    | inl bad ↦ rw bad refl
    | inr good ↦ rw good (
        restore-mode r.current_channel r.running _
        ∙ measure-mode c (window_ms driver duration) out d)
  ]
