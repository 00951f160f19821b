-- ===== src/Control/Tuned.antt =====
-- Through every command of src/control.c, what radio154.c believes of its radio is true.
use nrf54l15_sniffer.Base.{
  ℕ, ◌/◌, ◌^◌, ◌&&◌, not, Bytes, u8, length, Option-cases, ltb, ◌==◌, ◌||◌, Code, is_ok, is_einval,
  Bool, inl, inr, if_holds,
}
use nrf54l15_sniffer.Wire.{ble_filter, ble_keys, control_cmd}
use nrf54l15_sniffer.Commands.{Cmd, Status}
use nrf54l15_sniffer.Radio154.Driver.{IsRadioDriver}
use nrf54l15_sniffer.Radio154
use nrf54l15_sniffer.Radio154.Tuned.{
  Obeys, Tuned, set_channel-Tuned, start-Tuned, stop-Tuned, energy_detect-Tuned,
}
use nrf54l15_sniffer.Board.{
  Env, Board, send, flush_batch, radio_set_channel, radio_start, radio_stop, radio_energy_detect,
  ble_start, ble_stop,
}
use nrf54l15_sniffer.Control.{
  decode, cmd_payload_len, radio_154, radio_ble, stop_radio, fresh_session, execute, run_command,
  handle, reply, set_antenna,
}

module _ (e : Env) (laws : IsRadioDriver e.driver) (obeys : Obeys e.driver) where
  abbrev pub InTune : Board e → Type 0
  InTune b = Tuned laws b.radio b.driver

  stop_radio-InTune : (radio : ℕ) (b : Board e) → InTune b → InTune (stop_radio e radio b).1
  unfolding stop_radio ble_stop radio_stop flush_batch
  stop_radio-InTune radio b t =
      if_holds (λ (r : Code × Board e). InTune r.1) (radio == radio_ble)
        (if_holds (λ (r : Code × Board e). InTune r.1) b.ble.ready t t)
        (stop-Tuned laws b.radio b.driver t)

  set_antenna-InTune : (value : ℕ) (b : Board e) → InTune b → InTune (set_antenna e value b).1
  unfolding set_antenna
  set_antenna-InTune value b t =
      if_holds (λ (r : Code × Board e). InTune r.1) (ltb 1 value) t
        (if_holds (λ (r : Code × Board e). InTune r.1) (not e.regulator.ready) t
          (if_holds (λ (r : Code × Board e). InTune r.1)
            ((value == 0 && enabled) || (not (value == 0) && not enabled)) t t))
    where
      enabled : Bool
      enabled = e.regulator.is_enabled b.antenna

  started : (b : Board e) → InTune b → InTune (radio_start e b).1
  unfolding radio_start
  started b t = start-Tuned laws b.radio b.driver t

  tuned : (c : ℕ) (b : Board e) → InTune b → InTune (radio_set_channel e c b).1
  unfolding radio_set_channel
  tuned c b t = set_channel-Tuned laws c b.radio b.driver t

  measured : (c symbols : ℕ) (b : Board e) → InTune b → InTune (radio_energy_detect e c symbols b).2
  unfolding radio_energy_detect
  measured c symbols b t = energy_detect-Tuned laws obeys c symbols 0 b.radio b.driver t

  -- What a command leaves, whichever of its ends it takes.
  abbrev Left : Status × ℕ × Board e → Type 0
  Left r = InTune r.2

  execute-InTune :
      (cmd : Cmd) (value : ℕ) (b : Board e) → InTune b → InTune (execute e cmd value b).2
  unfolding execute fresh_session flush_batch ble_start Radio154.reset_counters
  execute-InTune Cmd.set_radio value b t =
      if_holds Left (not (value == radio_154) && not (value == radio_ble)) t
        (if_holds InTune (value == b.selected_radio) t (stop_radio-InTune b.selected_radio b t))
  execute-InTune Cmd.set_ble_phys value b t = if_holds Left (ltb 0xff value) t t
  execute-InTune Cmd.set_ble_periodic value b t = t
  execute-InTune Cmd.set_ble_scan value b t = t
  execute-InTune Cmd.set_channel value b t =
      let on_channel = tuned (u8 value) (flush_batch e b) t in
      if_holds Left (b.selected_radio == radio_ble) t (
        if_holds Left (not (is_ok (radio_set_channel e (u8 value) (flush_batch e b)).0)) on_channel
          (started _ on_channel))
  execute-InTune Cmd.start value b t =
      if_holds (λ (r : Code × Board e). InTune r.1) (b.selected_radio == radio_ble) t (started b t)
  execute-InTune Cmd.stop value b t = stop_radio-InTune b.selected_radio b t
  execute-InTune Cmd.get_info value b t =
      let stopped = stop_radio-InTune radio_ble _ (stop_radio-InTune radio_154 b t) in
      set_antenna-InTune 0 _ (record {
        agrees = record { channel = stopped.agrees.channel; receives = stopped.agrees.receives };
        in_range = stopped.in_range;
      })
  execute-InTune Cmd.set_antenna value b t = set_antenna-InTune value b t
  execute-InTune Cmd.energy_detect value b t =
      let after = measured (u8 value) (value / 2 ^ 8) b t in
      let code = (radio_energy_detect e (u8 value) (value / 2 ^ 8) b).0 in
      if_holds Left (b.selected_radio == radio_ble) t
        (if_holds Left (is_einval code) after (if_holds Left (not (is_ok code)) after after))

  run_command-InTune :
      (command value : ℕ) (b : Board e) → InTune b → InTune (run_command e command value b)
  unfolding run_command reply send
  run_command-InTune command value b t = elim (Option-cases (decode e.commands command)) [
    | inl unknown ↦ rw (unknown, run_command) t
    | inr (cmd, known) ↦ rw (known, run_command) (execute-InTune cmd value b t)
  ]

  pub handle-InTune :
      (kind : ℕ) (payload : Bytes) (b : Board e) → InTune b → InTune (handle e kind payload b)
  unfolding handle
  handle-InTune kind payload b t = if_holds InTune (kind == e.type_code ble_filter) t (
      if_holds InTune (kind == e.type_code ble_keys) t (
        if_holds InTune (not (kind == e.type_code control_cmd)) t
          (if_holds InTune (ltb (length payload) cmd_payload_len) t (run_command-InTune _ _ b t))))
