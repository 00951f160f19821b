-- ===== src/Control/Exclusive.antt =====
-- One radio at a time: what src/control.c keeps true of the two radios.
use nrf54l15_sniffer.Base.{
  ℕ, ◌/◌, ◌^◌, ◌≡◌, refl, not, Bytes, u8, length, Option-cases, ltb, ◌==◌, Code, success, is_ok,
  is_einval, Bool-cases, inl, inr, arith,
}
use nrf54l15_sniffer.Wire.{ble_filter, ble_keys, control_cmd}
use nrf54l15_sniffer.Commands.{Cmd}
use nrf54l15_sniffer.Ble.Setup
use nrf54l15_sniffer.Radio154.{Radio154}
use nrf54l15_sniffer.Radio154
use nrf54l15_sniffer.Ble
use nrf54l15_sniffer.Ble.{Ble}
use nrf54l15_sniffer.Board.{
  Env, Board, send, flush_batch, radio_set_channel, radio_start, radio_energy_detect,
}
use nrf54l15_sniffer.Control.{
  decode, cmd_payload_len, radio_154, radio_ble, stop_radio, fresh_session, execute, run_command,
  handle, reply,
}
use nrf54l15_sniffer.Control.OneRuns.{
  Exclusive, stop_radio-154, stop_radio-ble, radio_free, set_antenna-OneRuns, start-OneRuns,
  stop-OneRuns, set_radio-OneRuns,
}

module _ (e : Env) (stops : (d : e.driver.State) → (e.driver.stop d).0 ≡ success) where
  get_info-OneRuns :
      (b : Board e)
      → Exclusive e b
      → Exclusive e (fresh_session e (stop_radio e radio_ble (stop_radio e radio_154 b).1).1)
  unfolding fresh_session Ble.reset_counters Ble.set_periodic Radio154.reset_counters
  get_info-OneRuns b h =
      let stopped = (stop_radio e radio_154 b).1 in
      let (off, l, s) = stop_radio-154 e stops b in
      let (ble_off, rd, r, s') = stop_radio-ble e stops stopped (ground (arith, h.unready, l)) in
      record {
        known = inl refl;
        ble_off = λ _. ble_off;
        radio_off = λ i. absurd (ground arith);
        unready = λ _. ble_off;
      }

  abbrev measured : ℕ → Board e → Code
  measured value b =
      (Radio154.energy_detect e.driver (u8 value) (value / 2 ^ 8) 0 b.radio b.driver).0

  execute-OneRuns :
      (cmd : Cmd) (value : ℕ) (b : Board e) → Exclusive e b → Exclusive e (execute e cmd value b).2
  unfolding execute Ble.set_periodic flush_batch radio_set_channel radio_start radio_energy_detect
  execute-OneRuns Cmd.set_radio value b h = set_radio-OneRuns e stops value b h
  execute-OneRuns Cmd.set_ble_phys value b h = elim (Bool-cases (ltb 0xff value)) [
    | inl big ↦ rw big h
    | inr fits ↦ rw fits h
  ]
  execute-OneRuns Cmd.set_ble_periodic value b h = h
  execute-OneRuns Cmd.set_ble_scan value b h = h
  execute-OneRuns Cmd.set_channel value b h = elim (Bool-cases (b.selected_radio == radio_ble)) [
    | inl sel ↦ rw sel h
    | inr other ↦
        rw other
          (elim (Bool-cases (not (is_ok (radio_set_channel e (u8 value) (flush_batch e b)).0))) [
            | inl bad ↦ rw bad (radio_free e stops _ h other)
            | inr good ↦ rw good (radio_free e stops _ h other)
          ])
  ]
  execute-OneRuns Cmd.start value b h = start-OneRuns e stops b h
  execute-OneRuns Cmd.stop value b h = stop-OneRuns e stops b h
  execute-OneRuns Cmd.get_info value b h = set_antenna-OneRuns e stops 0 _ (get_info-OneRuns b h)
  execute-OneRuns Cmd.set_antenna value b h = set_antenna-OneRuns e stops value b h
  execute-OneRuns Cmd.energy_detect value b h = elim (Bool-cases (b.selected_radio == radio_ble)) [
    | inl sel ↦ rw sel h
    | inr other ↦ rw other (elim (Bool-cases (is_einval (measured value b))) [
      | inl bad ↦ rw bad (radio_free e stops _ h other)
      | inr valid ↦ rw valid (elim (Bool-cases (not (is_ok (measured value b)))) [
        | inl failed ↦ rw failed (radio_free e stops _ h other)
        | inr done ↦ rw done (radio_free e stops _ h other)
      ])
    ])
  ]

  run_command-OneRuns :
      (command value : ℕ) (b : Board e)
      → Exclusive e b
      → Exclusive e (run_command e command value b)
  unfolding run_command reply send
  run_command-OneRuns command value b h = elim (Option-cases (decode e.commands command)) [
    | inl unknown ↦ rw (unknown, run_command) h
    | inr (cmd, known) ↦ rw (known, run_command) (execute-OneRuns cmd value b h)
  ]

  set_keys_keeps :
      (payload : Bytes) (b : Ble)
      → let b' = (Setup.set_keys payload b).1 in (b'.running ≡ b.running) × (b'.ready ≡ b.ready)
  unfolding Setup.set_keys
  set_keys_keeps payload b = (ground arith, ground arith)

  pub handle-Exclusive :
      (type : ℕ) (payload : Bytes) (b : Board e)
      → Exclusive e b
      → Exclusive e (handle e type payload b)
  unfolding handle Setup.set_filter
  handle-Exclusive type payload b h = elim (Bool-cases (type == e.type_code ble_filter)) [
    | inl filter ↦ rw filter h
    | inr e1 ↦ rw e1 (elim (Bool-cases (type == e.type_code ble_keys)) [
      | inl keys ↦ rw (keys, (set_keys_keeps payload b.ble).0, (set_keys_keeps payload b.ble).1) h
      | inr e2 ↦ rw e2 (elim (Bool-cases (not (type == e.type_code control_cmd))) [
        | inl alien ↦ rw alien h
        | inr cmd ↦ rw cmd (elim (Bool-cases (ltb (length payload) cmd_payload_len)) [
          | inl short ↦ rw short h
          | inr long ↦ rw long (run_command-OneRuns _ _ b h)
        ])
      ])
    ])
  ]
