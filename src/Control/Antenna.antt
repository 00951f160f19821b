-- ===== src/Control/Antenna.antt =====
-- The antenna switch, which src/control.c works through Zephyr's regulator driver.
use nrf54l15_sniffer.Base.{
  ℕ, ◌+◌, ◌≡◌, ◌≢◌, ◌≤◌, ◌<◌, refl, Bool, ◌&&◌, ◌||◌, not, success_of_is_ok, false, ltb, ◌==◌,
  if◌then◌else◌, Code, success, failure, is_ok, is_einval, Bool-cases, inl, inr, arith,
}
use nrf54l15_sniffer.Commands.{Cmd, ok, bad_value, failed}
use nrf54l15_sniffer.Board.{Env, Board, Regulator}
use nrf54l15_sniffer.Control.{set_antenna, execute}

-- The documented behaviour of the driver: it counts who uses the supply, which is on while the count is
-- not zero, and a call that fails leaves the count.
pub record IsRegulator (r : Regulator) : Type 0 where
  pub count : r.State → ℕ
  pub enabled_is : (s : r.State) → r.is_enabled s ≡ ltb 0 (count s)
  pub enables : (s : r.State) → (r.enable s).0 ≡ success → count (r.enable s).1 ≡ count s + 1
  pub enable_fails : (s : r.State) → is_ok (r.enable s).0 ≡ false → count (r.enable s).1 ≡ count s
  pub disables :
      (s : r.State) → 0 < count s → (r.disable s).0 ≡ success → count (r.disable s).1 + 1 ≡ count s
  pub disable_fails :
      (s : r.State) → is_ok (r.disable s).0 ≡ false → count (r.disable s).1 ≡ count s

-- Only success is answered with OK.
only_ok :
    (c : Code)
    → (if is_ok c then ok else if is_einval c then bad_value else failed) ≡ ok
    → c ≡ success
only_ok success h = refl
only_ok (failure n) h = elim (Bool-cases (is_einval (failure n))) [
  | inl yes_einval ↦ absurd (bad (rw yes_einval at h))
  | inr other ↦ absurd (fails (rw other at h))
]
  where
    bad : bad_value ≢ ok
    bad i = cc

    fails : failed ≢ ok
    fails i = cc

module _ (e : Env) (laws : IsRegulator e.regulator) where
  abbrev uses : Board e → ℕ
  uses b = laws.count b.antenna

  -- What a call leaves, told by its result.
  abbrev Switched : ℕ → Board e → Code × Board e → Type 0
  Switched value b r =
      (uses r.1 ≤ 1) × (r.0 ≡ success → (value ≤ 1) × (uses r.1 ≡ (if value == 0 then 1 else 0)))

  moved :
      (value : ℕ) (b : Board e)
      → uses b ≤ 1
      → value ≤ 1
      → ((value == 0) && e.regulator.is_enabled b.antenna
          || not (value == 0) && not (e.regulator.is_enabled b.antenna))
        ≡ false
      → let (code, antenna) =
          if value == 0 then e.regulator.enable b.antenna else e.regulator.disable b.antenna in
        Switched value b (code, record b { antenna = antenna })
  moved value b one le other = elim (Bool-cases (value == 0)) [
    | inl onboard ↦ rw onboard (elim (Bool-cases (is_ok (e.regulator.enable b.antenna).0)) [
      | inl went ↦
          let up = laws.enables b.antenna (success_of_is_ok went) in
          (
            ground (arith, up, laws.enabled_is b.antenna),
            λ h. (le, ground (arith, up, laws.enabled_is b.antenna)),
          )
      | inr bad ↦ (omega (arith, laws.enable_fails b.antenna bad), λ h. absurd (ground (arith, h)))
    ])
    | inr outside ↦ rw outside (elim (Bool-cases (is_ok (e.regulator.disable b.antenna).0)) [
      | inl went ↦
          let used : 0 < uses b = ground (arith, laws.enabled_is b.antenna) in
          let down = laws.disables b.antenna used (success_of_is_ok went) in
          (omega (arith, down), λ h. (le, omega (arith, down)))
      | inr bad ↦ (omega (arith, laws.disable_fails b.antenna bad), λ h. absurd (ground (arith, h)))
    ])
  ]

  set_antenna-Switched :
      (value : ℕ) (b : Board e) → uses b ≤ 1 → Switched value b (set_antenna e value b)
  unfolding set_antenna
  set_antenna-Switched value b one = elim (Bool-cases (ltb 1 value)) [
    | inl big ↦ rw big (one, λ h. absurd (cc))
    | inr valid ↦ rw valid (elim (Bool-cases (not e.regulator.ready)) [
      | inl absent ↦ rw absent (one, λ h. absurd (cc))
      | inr there ↦ rw there (elim (Bool-cases already) [
        | inl same ↦
            rw same (one, λ h. (ground arith, ground (arith, same, laws.enabled_is b.antenna)))
        | inr other ↦ rw other (moved value b one (ground arith) other)
      ])
    ])
  ]
    where
      already : Bool
      already =
          (value == 0 && e.regulator.is_enabled b.antenna)
          || (not (value == 0) && not (e.regulator.is_enabled b.antenna))

  -- While the switch is used at most once, as it is at boot, a SET_ANTENNA command leaves it used at
  -- most once, whatever comes of it; and one that is answered with OK leaves the switch on the antenna
  -- that was asked for: used once, and so on, for the onboard one, and not at all for the connector.
  pub set_antenna_lem :
      (value : ℕ) (b : Board e)
      → laws.count b.antenna ≤ 1
      → let (status, answer, b') = execute e Cmd.set_antenna value b in
        (laws.count b'.antenna ≤ 1)
        × (status ≡ ok → (value ≤ 1) × (laws.count b'.antenna ≡ (if value == 0 then 1 else 0)))
  unfolding execute
  set_antenna_lem value b one =
      let (most, done) = set_antenna-Switched value b one in
      (most, λ answered. done (only_ok (set_antenna e value b).0 answered))
