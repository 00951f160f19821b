-- ===== src/Startup/Passive.antt =====
-- From start-up on the 802.15.4 radio only listens.
use nrf54l15_sniffer.Base.{◌≡◌, ◌≢◌, is_ok, success_of_is_ok, Bool-cases, inl, inr}
use nrf54l15_sniffer.Board.{Env}
use nrf54l15_sniffer.Radio154.Init.{IsRadioSetup, passive, init_lem}
use nrf54l15_sniffer.Startup.{
  Bring, System, main, bring_up, ble_init, linked, brought, exits, sleeps,
}

exits-ne-sleeps : exits ≢ sleeps
exits-ne-sleeps h = cc

module _ {e : Env} {s : Bring e} (laws : IsRadioSetup s.setup) where
  pub main-mode :
      (x : System e s) → (main e s x).0 ≡ sleeps → laws.mode (main e s x).1.board.driver ≡ passive
  unfolding main bring_up ble_init
  main-mode x h = elim (Bool-cases (is_ok (linked x))) [
    | inr unlinked ↦ absurd (exits-ne-sleeps (rw unlinked at h))
    | inl up ↦ elim (Bool-cases (is_ok (brought x))) [
      | inr unset ↦ absurd (exits-ne-sleeps (rw (up, unset) at h))
      | inl set ↦
          let quiet = init_lem laws x.board.driver (success_of_is_ok set) in
          elim (Bool-cases (is_ok (s.enable_raw x.board.controller).0)) [
            | inl enabled ↦ rw (up, set, enabled) quiet
            | inr without ↦ rw (up, set, without) quiet
          ]
    ]
  ]
