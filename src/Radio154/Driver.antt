-- ===== src/Radio154/Driver.antt =====
-- Zephyr's 802.15.4 radio driver as radio154.c calls it, and its documented behaviour: a call that
-- succeeds does what it says, and one that fails leaves the radio as it was.
use nrf54l15_sniffer.Base.{ℕ, ◌≡◌, Bool, true, false, Option, Code, success, failure, Errno, ℤ}

pub record RadioDriver : Type 1 where
  pub State : Type 0
  pub set_channel : ℕ → State → Code × State
  pub start : State → Code × State
  pub stop : State → Code × State
  pub ed_scan : ℕ → State → Code × State
  -- What the callback of a measurement reports within so many milliseconds, if it does.
  pub ed_wait : ℕ → State → Option ℤ × State

pub record IsRadioDriver (d : RadioDriver) : Type 0 where
  pub tuned : d.State → ℕ
  pub receiving : d.State → Bool
  pub tunes :
      (c : ℕ) (s : d.State) → (d.set_channel c s).0 ≡ success → tuned (d.set_channel c s).1 ≡ c
  pub tune_fails :
      (c : ℕ) (s : d.State) (e : Errno)
      → (d.set_channel c s).0 ≡ failure e
      → tuned (d.set_channel c s).1 ≡ tuned s
  pub tune_receiving : (c : ℕ) (s : d.State) → receiving (d.set_channel c s).1 ≡ receiving s
  pub starts : (s : d.State) → (d.start s).0 ≡ success → receiving (d.start s).1 ≡ true
  pub start_fails :
      (s : d.State) (e : Errno) → (d.start s).0 ≡ failure e → receiving (d.start s).1 ≡ receiving s
  pub start_tuned : (s : d.State) → tuned (d.start s).1 ≡ tuned s
  pub stops : (s : d.State) → (d.stop s).0 ≡ success → receiving (d.stop s).1 ≡ false
  pub stop_fails :
      (s : d.State) (e : Errno) → (d.stop s).0 ≡ failure e → receiving (d.stop s).1 ≡ receiving s
  pub stop_tuned : (s : d.State) → tuned (d.stop s).1 ≡ tuned s
