-- ===== src/Radio154/Tuned.antt =====
-- What radio154.c believes of its radio stays true, and its channel is one of 802.15.4's.
use nrf54l15_sniffer.Base.{
  ℕ, ◌≡◌, success, is_ok, Bool, true, false, Bool-cases, inl, inr, if_holds, arith,
}
use nrf54l15_sniffer.Radio154.Driver.{RadioDriver, IsRadioDriver}
use nrf54l15_sniffer.Radio154.{
  Radio154, out_of_range, window_ms, measure, set_channel, start, stop, energy_detect,
}
use nrf54l15_sniffer.Radio154.Agree.{
  Agrees, set_channel-Agrees, start-Agrees, stop-Agrees, energy_detect-Agrees, Restores,
}

-- A driver that does what it is asked to do on the channels of 802.15.4.
pub record Obeys (d : RadioDriver) : Type 0 where
  pub tunes : (c : ℕ) (s : d.State) → out_of_range c ≡ false → (d.set_channel c s).0 ≡ success
  pub starts : (s : d.State) → (d.start s).0 ≡ success
  pub stops : (s : d.State) → (d.stop s).0 ≡ success

module _ {d : RadioDriver} (laws : IsRadioDriver d) where
  -- The variables are true of the radio, and the channel is one of 802.15.4.
  pub record Tuned (r : Radio154) (s : d.State) : Type 0 where
    pub agrees : Agrees laws r s
    pub in_range : out_of_range r.current_channel ≡ false

  pub set_channel-Tuned :
      (c : ℕ) (r : Radio154) (s : d.State)
      → Tuned r s
      → let (code, r', s') = set_channel d c r s in Tuned r' s'
  unfolding set_channel
  set_channel-Tuned c r s t = elim (Bool-cases (out_of_range c)) [
    | inl bad ↦ record {
      agrees = set_channel-Agrees laws c r s t.agrees;
      in_range = rw bad t.in_range;
    }
    | inr good ↦ record {
      agrees = set_channel-Agrees laws c r s t.agrees;
      in_range = rw good (
          if_holds (λ (x : Radio154). out_of_range x.current_channel ≡ false)
            (is_ok (d.set_channel c s).0) good t.in_range);
    }
  ]

  pub start-Tuned :
      (r : Radio154) (s : d.State) → Tuned r s → let (code, r', s') = start d r s in Tuned r' s'
  unfolding start
  start-Tuned r s t = record {
    agrees = start-Agrees laws r s t.agrees;
    in_range = ground (arith, t.in_range);
  }

  pub stop-Tuned :
      (r : Radio154) (s : d.State) → Tuned r s → let (code, r', s') = stop d r s in Tuned r' s'
  unfolding stop
  stop-Tuned r s t = record {
    agrees = stop-Agrees laws r s t.agrees;
    in_range = ground (arith, t.in_range);
  }

  pub energy_detect-Tuned :
      Obeys d
      → (c symbols out : ℕ) (r : Radio154) (s : d.State) → Tuned r s
      → let (code, dbm, r', s') = energy_detect d c symbols out r s in Tuned r' s'
  energy_detect-Tuned obeys c symbols out r s t =
      let (agrees, running, channel, k, f) =
        energy_detect-Agrees laws c symbols out r s t.agrees (restores r.running) in
      record { agrees = agrees; in_range = rw channel t.in_range }
    where
      measured : d.State
      measured = (measure d c (window_ms d symbols) out s).2

      restores : (on : Bool) → Restores laws r.current_channel on measured
      restores true = (obeys.tunes r.current_channel measured t.in_range, obeys.starts _)
      restores false = (obeys.tunes r.current_channel measured t.in_range, obeys.stops _)
