-- ===== src/Control/Passive.antt =====
-- No command of src/control.c changes how the 802.15.4 radio receives.
use nrf54l15_sniffer.Base.{
  ℕ, ◌/◌, ◌^◌, ◌≡◌, refl, ◌∙◌, not, Bytes, u8, length, Option-cases, ltb, ◌==◌, Code, Bool-cases,
  inl, inr, if_holds, arith,
}
use nrf54l15_sniffer.Wire.{ble_filter, ble_keys, control_cmd}
use nrf54l15_sniffer.Commands.{Cmd}
use nrf54l15_sniffer.Radio154.Init.{
  Mode, RadioSetup, IsRadioSetup, set_channel-mode, start-mode, stop-mode, energy_detect-mode,
}
use nrf54l15_sniffer.Board.{
  Env, Board, send, flush_batch, radio_set_channel, radio_start, radio_stop, radio_energy_detect,
  ble_start, ble_stop,
}
use nrf54l15_sniffer.Control.{
  decode, cmd_payload_len, radio_154, radio_ble, stop_radio, fresh_session, execute, run_command,
  handle, reply, set_antenna,
}

module _ {e : Env} {setup : RadioSetup e.driver} (laws : IsRadioSetup setup) where
  abbrev mode : Board e → Mode
  mode b = laws.mode b.driver

  stop_radio-mode : (radio : ℕ) (b : Board e) → mode (stop_radio e radio b).1 ≡ mode b
  unfolding stop_radio ble_stop radio_stop flush_batch
  stop_radio-mode radio b = elim (Bool-cases (radio == radio_ble)) [
    | inl ble ↦ rw ble (if_holds (λ (r : Code × Board e). mode r.1 ≡ mode b) b.ble.ready refl refl)
    | inr other ↦ rw other (stop-mode laws b.radio b.driver)
  ]

  set_antenna-mode : (value : ℕ) (b : Board e) → mode (set_antenna e value b).1 ≡ mode b
  unfolding set_antenna
  set_antenna-mode value b = ground arith

  started-mode : (b : Board e) → mode (radio_start e b).1 ≡ mode b
  unfolding radio_start
  started-mode b = start-mode laws b.radio b.driver

  tuned-mode : (c : ℕ) (b : Board e) → mode (radio_set_channel e c b).1 ≡ mode b
  unfolding radio_set_channel
  tuned-mode c b = set_channel-mode laws c b.radio b.driver

  measured-mode :
      (c symbols : ℕ) (b : Board e) → mode (radio_energy_detect e c symbols b).2 ≡ mode b
  unfolding radio_energy_detect
  measured-mode c symbols b = energy_detect-mode laws c symbols 0 b.radio b.driver

  execute-mode : (cmd : Cmd) (value : ℕ) (b : Board e) → mode (execute e cmd value b).2 ≡ mode b
  unfolding execute fresh_session flush_batch ble_start
  execute-mode Cmd.set_radio value b = ground (arith, stop_radio-mode b.selected_radio b)
  execute-mode Cmd.set_ble_phys value b = ground arith
  execute-mode Cmd.set_ble_periodic value b = refl
  execute-mode Cmd.set_ble_scan value b = refl
  execute-mode Cmd.set_channel value b =
      let flushed = flush_batch e b in
      let tuned = (radio_set_channel e (u8 value) flushed).1 in
      ground (arith, tuned-mode (u8 value) flushed, started-mode tuned)
  execute-mode Cmd.start value b = elim (Bool-cases (b.selected_radio == radio_ble)) [
    | inl ble ↦ rw ble refl
    | inr other ↦ rw other (started-mode b)
  ]
  execute-mode Cmd.stop value b = stop_radio-mode b.selected_radio b
  execute-mode Cmd.get_info value b =
      set_antenna-mode 0 _ ∙ stop_radio-mode radio_ble _ ∙ stop_radio-mode radio_154 b
  execute-mode Cmd.set_antenna value b = set_antenna-mode value b
  execute-mode Cmd.energy_detect value b =
      ground (arith, measured-mode (u8 value) (value / 2 ^ 8) b)

  run_command-mode :
      (command value : ℕ) (b : Board e) → mode (run_command e command value b) ≡ mode b
  unfolding run_command reply send
  run_command-mode command value b = elim (Option-cases (decode e.commands command)) [
    | inl unknown ↦ rw (unknown, run_command) refl
    | inr (cmd, known) ↦ rw (known, run_command) (execute-mode cmd value b)
  ]

  pub handle-mode :
      (kind : ℕ) (payload : Bytes) (b : Board e) → mode (handle e kind payload b) ≡ mode b
  unfolding handle
  handle-mode kind payload b = if_holds same (kind == e.type_code ble_filter) refl (
      if_holds same (kind == e.type_code ble_keys) refl (
        if_holds same (not (kind == e.type_code control_cmd)) refl
          (if_holds same (ltb (length payload) cmd_payload_len) refl (run_command-mode _ _ b))))
    where
      same : Board e → Type 0
      same b' = mode b' ≡ mode b
