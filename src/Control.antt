-- ===== src/Control.antt =====
-- src/control.c: the commands of the host. Log output is left out.
pub mod Exclusive
pub mod OneRuns
pub mod Session
pub mod Replies
pub mod Flushes
pub mod Antenna
pub mod Passive
pub mod Tuned
use nrf54l15_sniffer.Base.{
  ℕ, ◌+◌, ◌*◌, ◌/◌, ◌%◌, ◌^◌, Bool, true, false, not, ◌&&◌, ◌||◌, Bytes, length, get_or, drop, take,
  [], ◌∷◌, ◌++◌, u8, u16, le_bytes, of_le, ltb, ◌==◌, if◌then◌else◌, Option, none, some, Code,
  success, failure, einval, enodev, is_ok, is_einval,
}
use nrf54l15_sniffer.Wire.{FrameType, control_reply, control_cmd, ble_filter, ble_keys}
use nrf54l15_sniffer.Commands.{Cmd, Status, ok, bad_value, failed, unknown_command, Commands}
use nrf54l15_sniffer.Batch
use nrf54l15_sniffer.Radio154
use nrf54l15_sniffer.Ble
use nrf54l15_sniffer.Ble.Setup
use nrf54l15_sniffer.Board.{
  Env, Board, send, flush_batch, radio_set_channel, radio_start, radio_stop, radio_energy_detect,
  ble_start, ble_stop,
}

abbrev pub cmd_payload_len : ℕ
cmd_payload_len = 5

abbrev pub radio_154 : ℕ
radio_154 = 0

abbrev pub radio_ble : ℕ
radio_ble = 2

-- `sn_firmware_version` of main.c
abbrev pub firmware_version : ℕ
firmware_version = 7

-- The `switch` on the command's number.
unfoldable pub decode : Commands → ℕ → Option Cmd
decode c n =
    if n == c.cmd_code Cmd.set_radio
    then some Cmd.set_radio
    else if n == c.cmd_code Cmd.set_ble_phys
    then some Cmd.set_ble_phys
    else if n == c.cmd_code Cmd.set_ble_periodic
    then some Cmd.set_ble_periodic
    else if n == c.cmd_code Cmd.set_ble_scan
    then some Cmd.set_ble_scan
    else if n == c.cmd_code Cmd.set_channel
    then some Cmd.set_channel
    else if n == c.cmd_code Cmd.start
    then some Cmd.start
    else if n == c.cmd_code Cmd.stop
    then some Cmd.stop
    else if n == c.cmd_code Cmd.get_info
    then some Cmd.get_info
    else if n == c.cmd_code Cmd.set_antenna
    then some Cmd.set_antenna
    else if n == c.cmd_code Cmd.energy_detect
    then some Cmd.energy_detect
    else none

module _ (e : Env) where
  -- The static variables as they are before `main`, over whatever the rest of the system is in.
  unfoldable pub at_power_on :
      e.link.State → e.driver.State → e.controller.State → e.regulator.State → Board e
  at_power_on link driver controller antenna = record {
    selected_radio = radio_154;
    ble_interval_ms = 0;
    ble_window_ms = 0;
    ble_phys = 1;
    radio = Radio154.initial;
    batch = Batch.initial;
    ble = Ble.initial;
    link = link;
    driver = driver;
    controller = controller;
    antenna = antenna;
  }

  -- The payload of a reply.
  abbrev pub reply_bytes : ℕ → Status → ℕ → Bytes
  reply_bytes command status value = command ∷ e.commands.status_code status ∷ le_bytes 4 value

  -- `reply`
  unfoldable pub reply : ℕ → Status → ℕ → Board e → Board e
  reply command status value = send e control_reply (reply_bytes command status value)

  -- `set_antenna`
  unfoldable pub set_antenna : ℕ → Board e → Code × Board e
  set_antenna value b =
      let onboard = value == 0 in
      let enabled = e.regulator.is_enabled b.antenna in
      let (code, antenna) =
        if onboard then e.regulator.enable b.antenna else e.regulator.disable b.antenna in
      if ltb 1 value
      then (failure einval, b)
      else if not e.regulator.ready
      then (failure enodev, b)
      else if (onboard && enabled) || (not onboard && not enabled)
      then (success, b)
      else (code, record b { antenna = antenna })

  -- `stop_radio`
  unfoldable pub stop_radio : ℕ → Board e → Code × Board e
  stop_radio radio b =
      if radio == radio_ble
      then (if b.ble.ready then ble_stop e b else (success, b))
      else (let (code, b') = radio_stop e b in (code, flush_batch e b'))

  -- What GET_INFO resets, once both radios are stopped.
  unfoldable pub fresh_session : Board e → Board e
  fresh_session b = record b {
    selected_radio = radio_154;
    link = e.link.reset_counters b.link;
    batch = Batch.reset_counters b.batch;
    radio = Radio154.reset_counters b.radio;
    ble = Ble.set_periodic false (Ble.reset_counters b.ble);
    ble_phys = 1;
    ble_interval_ms = 0;
    ble_window_ms = 0;
  }

  abbrev pub ok_or : Status → Code → Status
  ok_or other code = if is_ok code then ok else other

  -- The cases of the `switch`: the status and value of the reply, and the board before it is sent.
  unfoldable pub execute : Cmd → ℕ → Board e → Status × ℕ × Board e
  execute Cmd.set_radio value b =
      let left = if value == b.selected_radio then b else (stop_radio b.selected_radio b).1 in
      if not (value == radio_154) && not (value == radio_ble)
      then (bad_value, value, b)
      else (ok, value, record left { selected_radio = u8 value })
  execute Cmd.set_ble_phys value b =
      if ltb 0xff value
      then (bad_value, value, b)
      else (ok, value, record b { ble_phys = u8 value })
  execute Cmd.set_ble_periodic value b =
      (ok, value, record b { ble = Ble.set_periodic (not (value == 0)) b.ble })
  execute Cmd.set_ble_scan value b =
      (ok, value, record b { ble_interval_ms = u16 value; ble_window_ms = u16 (value / 2 ^ 16) })
  execute Cmd.set_channel value b =
      let flushed = flush_batch e b in
      let (tuned, b1) = radio_set_channel e (u8 value) flushed in
      let (started, b2) = radio_start e b1 in
      if b.selected_radio == radio_ble
      then (bad_value, value, b)
      else if not (is_ok tuned)
      then (bad_value, value, b1)
      else (ok_or failed started, value, b2)
  execute Cmd.start value b =
      let (started, b') =
        if b.selected_radio == radio_ble then ble_start e b else radio_start e b in
      (ok_or failed started, 0, b')
  execute Cmd.stop value b =
      let (stopped, b') = stop_radio b.selected_radio b in (ok_or failed stopped, 0, b')
  execute Cmd.get_info value b =
      let stopped = (stop_radio radio_ble (stop_radio radio_154 b).1).1 in
      (ok, firmware_version, (set_antenna 0 (fresh_session stopped)).1)
  execute Cmd.set_antenna value b =
      let (code, b') = set_antenna value b in
      ((if is_ok code then ok else if is_einval code then bad_value else failed), value, b')
  execute Cmd.energy_detect value b =
      let (code, dbm, b') = radio_energy_detect e (u8 value) (value / 2 ^ 8) b in
      if b.selected_radio == radio_ble
      then (bad_value, value, b)
      else if is_einval code
      then (bad_value, value, b')
      else if not (is_ok code)
      then (failed, value, b')
      else (ok, dbm, b')

  -- The command and its reply.
  unfoldable pub run_command : ℕ → ℕ → Board e → Board e
  run_command command value b = elim (decode e.commands command) [
    | none ↦ reply command unknown_command 0 b
    | some cmd ↦ let (status, answer, b') = execute cmd value b in reply command status answer b'
  ]

  -- `sn_control_handle`
  unfoldable pub handle : ℕ → Bytes → Board e → Board e
  handle type payload b =
      if type == e.type_code ble_filter
      then record b { ble = Setup.set_filter payload b.ble }
      else if type == e.type_code ble_keys
      then record b { ble = (Setup.set_keys payload b.ble).1 }
      else if not (type == e.type_code control_cmd)
      then b
      else if ltb (length payload) cmd_payload_len
      then b
      else run_command (get_or payload 0 0) (of_le (take 4 (drop 1 payload))) b
