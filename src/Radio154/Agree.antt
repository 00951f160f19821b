-- ===== src/Radio154/Agree.antt =====
-- radio154.c's own idea of the radio, `running` and `current_channel`, agrees with the driver after
-- every call, and a measurement puts the radio back.
use nrf54l15_sniffer.Base.{
  ℕ, List, [], ◌∷◌, ◌≡◌, refl, ◌∙◌, Bool, false, ◌==◌, if◌then◌else◌, ◌||◌, inl, inr, arith,
  success, Code-cases, Bool-cases,
}
use nrf54l15_sniffer.Radio154.Driver.{RadioDriver, IsRadioDriver}
use nrf54l15_sniffer.Radio154.{
  Radio154, set_channel, start, stop, measure, restore, energy_detect, out_of_range, window_ms,
}

-- The calls that the control channel makes of the radio, a measurement apart.
pub data Call : Type 0 where
  tune : ℕ → Call
  listen halt : Call

unfoldable pub make_calls :
    (driver : RadioDriver) → List Call → Radio154 → driver.State → Radio154 × driver.State
make_calls driver [] r d = (r, d)
make_calls driver (tune c ∷ cs) r d =
    let (code, r', d') = set_channel driver c r d in make_calls driver cs r' d'
make_calls driver (listen ∷ cs) r d =
    let (code, r', d') = start driver r d in make_calls driver cs r' d'
make_calls driver (halt ∷ cs) r d =
    let (code, r', d') = stop driver r d in make_calls driver cs r' d'

module _ {driver : RadioDriver} (laws : IsRadioDriver driver) where
  pub record Agrees (r : Radio154) (d : driver.State) : Type 0 where
    pub channel : laws.tuned d ≡ r.current_channel
    pub receives : laws.receiving d ≡ r.running

  pub set_channel-Agrees :
      (c : ℕ) (r : Radio154) (d : driver.State)
      → Agrees r d
      → let (code, r', d') = set_channel driver c r d in Agrees r' d'
  unfolding set_channel
  set_channel-Agrees c r d a = elim (Bool-cases (out_of_range c)) [
    | inl bad ↦ rw bad a
    | inr good ↦ elim (Code-cases (driver.set_channel c d).0) [
      | inl done ↦
          rw (good, done)
            (record {
              channel = laws.tunes c d done;
              receives = laws.tune_receiving c d ∙ a.receives;
            })
      | inr (e, failed) ↦
          rw (good, failed)
            (record {
              channel = laws.tune_fails c d e failed ∙ a.channel;
              receives = laws.tune_receiving c d ∙ a.receives;
            })
    ]
  ]

  pub start-Agrees :
      (r : Radio154) (d : driver.State)
      → Agrees r d
      → let (code, r', d') = start driver r d in Agrees r' d'
  unfolding start
  start-Agrees r d a = elim (Code-cases (driver.start d).0) [
    | inl done ↦
        rw done (record { channel = laws.start_tuned d ∙ a.channel; receives = laws.starts d done })
    | inr (e, failed) ↦ rw failed (record {
      channel = laws.start_tuned d ∙ a.channel;
      receives = laws.start_fails d e failed ∙ a.receives;
    })
  ]

  pub stop-Agrees :
      (r : Radio154) (d : driver.State)
      → Agrees r d
      → let (code, r', d') = stop driver r d in Agrees r' d'
  unfolding stop
  stop-Agrees r d a = elim (Code-cases (driver.stop d).0) [
    | inl done ↦ record {
      channel = ground (arith, laws.stop_tuned d, a.channel);
      receives = ground (arith, laws.stops d done, a.receives);
    }
    | inr (e, failed) ↦ record {
      channel = ground (arith, laws.stop_tuned d, a.channel);
      receives = ground (arith, laws.stop_fails d e failed, a.receives);
    }
  ]

  -- Through any calls of `sn_radio154_set_channel`, `sn_radio154_start` and `sn_radio154_stop`,
  -- `running` and `current_channel` stay true of the radio: whatever channels are asked for, in
  -- whatever order the calls come and whichever of them the driver refuses.
  pub calls_agree :
      (cs : List Call) (r : Radio154) (d : driver.State)
      → Agrees r d
      → let (r', d') = make_calls driver cs r d in Agrees r' d'
  unfolding make_calls
  calls_agree [] r d a = a
  calls_agree (tune c ∷ cs) r d a = calls_agree cs _ _ (set_channel-Agrees c r d a)
  calls_agree (listen ∷ cs) r d a = calls_agree cs _ _ (start-Agrees r d a)
  calls_agree (halt ∷ cs) r d a = calls_agree cs _ _ (stop-Agrees r d a)

  -- The calls that put the radio back succeed.
  abbrev pub Restores : ℕ → Bool → driver.State → Type 0
  Restores previous was_running d =
      ((driver.set_channel previous d).0 ≡ success)
      × ((if was_running
            then (driver.start (driver.set_channel previous d).1).0
            else (driver.stop (driver.set_channel previous d).1).0)
          ≡ success)

  restore-Agrees :
      (r : Radio154) (d : driver.State)
      → Restores r.current_channel r.running d
      → Agrees (record r { measuring = false }) (restore driver r.current_channel r.running d)
  unfolding restore
  restore-Agrees r d (tuned, switched) = record {
    channel = ground (
      arith,
      laws.tunes r.current_channel d tuned,
      laws.start_tuned tuned_back,
      laws.stop_tuned tuned_back,
    );
    receives = ground (arith, laws.starts tuned_back, laws.stops tuned_back, switched);
  }
    where
      tuned_back : driver.State
      tuned_back = (driver.set_channel r.current_channel d).1

  pub energy_detect-Agrees :
      (c duration out : ℕ) (r : Radio154) (d : driver.State)
      → Agrees r d
      → Restores r.current_channel r.running (measure driver c (window_ms driver duration) out d).2
      → let (code, dbm, r', d') = energy_detect driver c duration out r d in
        Agrees r' d'
        × (r'.running ≡ r.running)
        × (r'.current_channel ≡ r.current_channel)
        × (r'.captured ≡ r.captured)
        × (r'.fcs_failed ≡ r.fcs_failed)
  unfolding energy_detect
  energy_detect-Agrees c duration out r d a back =
      elim (Bool-cases (out_of_range c || duration == 0)) [
        | inl bad ↦ rw bad (a, refl, refl, refl, refl)
        | inr good ↦ rw good (restore-Agrees r _ back, refl, refl, refl, refl)
      ]
