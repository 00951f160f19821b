-- ===== src/Tests/FirmwareRuns.antt =====
-- The whole firmware, from power on and in the middle of a session.
use nrf54l15_sniffer.Base.{◌≡◌, ◌≤◌, refl, false, List, [], ◌∷◌, arith, some}
use nrf54l15_sniffer.Radio154.{NetPkt, to_packet, rx_failed, invalid_fcs}
use nrf54l15_sniffer.Radio154.Init
use nrf54l15_sniffer.Radio154.Init.{passive}
use nrf54l15_sniffer.Radio154.Tuned.{Obeys}
use nrf54l15_sniffer.Link.Uart
use nrf54l15_sniffer.Control.OneRuns.{Exclusive}
use nrf54l15_sniffer.Radio154.Driver.{IsRadioDriver}
use nrf54l15_sniffer.Startup.{System, main, bring_up, ble_init}
use nrf54l15_sniffer.Firmware.{
  Happening, host_frame, heard, radio_event, batch_timer, hci_packet, ble_timer, sync_work, second,
  run,
}
use nrf54l15_sniffer.Firmware.Always.{one_radio_runs, run_on_channel, stays_passive}
use nrf54l15_sniffer.LinkApi.Carried.{carried}
use nrf54l15_sniffer.Link.Uart.{initial, uart_cb}
use nrf54l15_sniffer.Link.Uart.Receive.{receive}
use nrf54l15_sniffer.Control
use nrf54l15_sniffer.Control.{handle}
use nrf54l15_sniffer.Board.{recorded}
use nrf54l15_sniffer.Firmware.Answers.{answers, run-answers}
use nrf54l15_sniffer.Firmware.Hosted.{receive-answers}
use nrf54l15_sniffer.Tests.Instances.{
  demo_env, no_failure, demo_buf, demo_IsRingBuf, demo_wire, demo_IsWire,
}
use nrf54l15_sniffer.Tests.UartRuns.{command, inputs}
use nrf54l15_sniffer.Tests.ControlRuns.{recorded_board}
use nrf54l15_sniffer.Tests.StartupRuns.{
  moded_env, moded_driver, moded_IsRadioSetup, demo_bring, at_power_on,
}

abbrev heard_packet : NetPkt
heard_packet = record {
  is_empty = false;
  memory = 1 ∷ 2 ∷ 3 ∷ [];
  frags_len = 3;
  second = 1;
  nanosecond = 500_000;
  lqi = 200;
  rssi_dbm = 190;
}

-- The radio is chosen, a channel set and packets heard; its energy is measured, and then the other
-- radio takes over.
abbrev session : List Happening
session =
    host_frame 16 (5 ∷ 0 ∷ 0 ∷ 0 ∷ 0 ∷ [])
    ∷ host_frame 16 (1 ∷ 25 ∷ 0 ∷ 0 ∷ 0 ∷ [])
    ∷ heard (some heard_packet)
    ∷ radio_event (rx_failed (some invalid_fcs))
    ∷ batch_timer
    ∷ second
    ∷ host_frame 16 (8 ∷ 20 ∷ 1 ∷ 0 ∷ 0 ∷ [])
    ∷ host_frame 16 (5 ∷ 2 ∷ 0 ∷ 0 ∷ 0 ∷ [])
    ∷ hci_packet 1000 1 4 (0x3e ∷ 3 ∷ 0x02 ∷ 8 ∷ 9 ∷ [])
    ∷ sync_work
    ∷ ble_timer
    ∷ []

one_radio_runs_example :
    Exclusive moded_env (run moded_env session (main moded_env demo_bring at_power_on).1.board)
unfolding Control.at_power_on
one_radio_runs_example = one_radio_runs (λ d. refl) at_power_on session refl

abbrev moded_IsRadioDriver : IsRadioDriver moded_driver
moded_IsRadioDriver = record {
  tuned = λ d. d.channel;
  receiving = λ d. d.on;
  tunes = λ c d e. refl;
  tune_fails = λ c d n e. absurd (no_failure e);
  tune_receiving = λ c d. refl;
  starts = λ d e. refl;
  start_fails = λ d n e. absurd (no_failure e);
  start_tuned = λ d. refl;
  stops = λ d e. refl;
  stop_fails = λ d n e. absurd (no_failure e);
  stop_tuned = λ d. refl;
}

abbrev moded_Obeys : Obeys moded_driver
moded_Obeys = record { tunes = λ c s e. refl; starts = λ s. refl; stops = λ s. refl }

-- The radio comes up on its default channel.
abbrev tuned_at_power_on : System moded_env demo_bring
tuned_at_power_on = record at_power_on {
  board = record at_power_on.board { driver = record at_power_on.board.driver { channel = 11 } };
}

run_on_channel_example :
    let b = run moded_env session (main moded_env demo_bring tuned_at_power_on).1.board in
    (b.driver.on ≡ b.radio.running)
    × (11 ≤ b.driver.channel)
    × (b.driver.channel ≤ 26)
    × ((pkt : NetPkt) → (to_packet b.radio pkt).channel ≡ b.driver.channel)
unfolding main bring_up ble_init Uart.init Init.init Control.at_power_on
run_on_channel_example =
    run_on_channel moded_IsRadioDriver moded_Obeys tuned_at_power_on session refl refl refl

stays_passive_example :
    (run moded_env session (main moded_env demo_bring at_power_on).1.board).driver.mode ≡ passive
unfolding main bring_up Uart.init Init.init
stays_passive_example = stays_passive moded_IsRadioSetup at_power_on session refl

run-answers_example :
    carried answers (run (recorded demo_env) session recorded_board).link.1 ≡ 5 ∷ 1 ∷ 8 ∷ 5 ∷ []
run-answers_example =
    run-answers demo_env (λ e. omega arith) (λ e. omega arith) session recorded_board

receive-answers_example :
    let handler = some (handle (recorded demo_env)) in
    let b' = (receive demo_buf demo_wire handler inputs (initial demo_buf) [] recorded_board).2 in
    carried answers b'.link.1 ≡ 4 ∷ []
unfolding receive initial uart_cb
receive-answers_example =
    receive-answers demo_env (λ e. omega arith) (λ e. omega arith) demo_IsRingBuf demo_IsWire inputs
      (command ∷ []) recorded_board (omega arith, (omega arith, _)) refl (omega arith, _)
      (omega arith, _) refl
