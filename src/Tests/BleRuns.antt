-- ===== src/Tests/BleRuns.antt =====
-- Bluetooth scans of src/radio_ble.c.
use nrf54l15_sniffer.Base.{
  ℕ, ◌⊎◌, ◌+◌, ◌*◌, ◌/◌, ◌^◌, ◌≤◌, ◌≡◌, ◌||◌, ◌&&◌, refl, true, false, [], ◌∷◌, ◌++◌, List, Bytes,
  arith, replicate, length, leb, ◌==◌, u32, success, failure, einval, is_ok, is_etimedout,
  if◌then◌else◌, le16,
}
use nrf54l15_sniffer.Hci.{reset}
use nrf54l15_sniffer.Ble.{max_syncs, sync_q_len, Ble, initial, max_keys}
use nrf54l15_sniffer.Ble.Command.{hci_command, hci_command_lem, result_of, first_answer}
use nrf54l15_sniffer.Ble.Setup.{
  load_keys, configure, start, stop, scan_started, set_filter, set_keys, units_per_ms,
  used_interval, used_window,
}
use nrf54l15_sniffer.Ble.Setup.Start.{send_all, scan_commands, configure-send_all}
use nrf54l15_sniffer.Ble.Setup.Stop.{SameScan, start_lem}
use nrf54l15_sniffer.Ble.Late.{for_train, answered, Left, stop_then_answer}
use nrf54l15_sniffer.Ble.Setup.Host.{
  concat, set_filter_lem, set_keys_lem, types_ok, with_keys, commands_of, load_keys_lem,
}
use nrf54l15_sniffer.Ble.Setup.Timing.{used_window_fits, units_per_ms_wraps}
use nrf54l15_sniffer.Ble.Life.{
  Step, came_up, periodic, start_scan, packet, sync_work, timer, stop_scan, run, run_from_boot,
}
use nrf54l15_sniffer.Ble.Forward.{receive}
use nrf54l15_sniffer.Ble.Capture.{heard, receive_lem}
use nrf54l15_sniffer.Link.{link_api}
use nrf54l15_sniffer.Tests.Instances.{demo_wire, demo_buf, demo_outbound, demo_hci, demo_controller}

-- Up, with two filter entries and a key that the host sent.
abbrev idle : Ble
idle = record initial {
  ready = true;
  filter = (0 ∷ 1 ∷ 2 ∷ 3 ∷ 4 ∷ 5 ∷ 6 ∷ []) ∷ (1 ∷ 6 ∷ 5 ∷ 4 ∷ 3 ∷ 2 ∷ 1 ∷ []) ∷ [];
  keys = 1 ∷ replicate 183 9;
  key_count = 1;
}

abbrev scanning : Ble
scanning = record idle { running = true; sync_count = 1; big_synced = true }

abbrev reset_events : List Bytes
reset_events = (0x3e ∷ 1 ∷ 2 ∷ []) ∷ (0x0e ∷ 4 ∷ 1 ∷ (le16 0x0c03 ++ 0 ∷ [])) ∷ []

hci_command_lem_example :
    let (code, b', s') = hci_command demo_hci demo_controller reset [] scanning 0 in
    (code ≡ result_of demo_hci (first_answer demo_hci 0x0c03 reset_events))
    × (b'.pending.opcode ≡ 0)
    × (b'.pending.done ≡ false)
    × (b'.counters.command_timeouts ≡ (
        if is_etimedout code
        then u32 (scanning.counters.command_timeouts + 1)
        else scanning.counters.command_timeouts))
hci_command_lem_example =
    hci_command_lem demo_hci demo_controller reset [] scanning 0 reset_events (λ e. omega arith)
      refl

configure-send_all_example :
    configure demo_hci demo_controller 96 96 5 idle
    ≡ send_all demo_hci demo_controller (scan_commands 96 96 5 idle)
configure-send_all_example = configure-send_all demo_hci demo_controller 96 96 5 idle

start_lem_example :
    let (code, b', s') = start demo_hci demo_controller 60 30 1 idle 0 in
    (b'.running ≡ (is_ok code || idle.running))
    × (b'.ready ≡ idle.ready)
    × SameScan (if is_ok code then scan_started idle else idle) b'
start_lem_example = start_lem demo_hci demo_controller 60 30 1 idle 0

stop_then_answer_example :
    let (code, b', s', l') =
      stop demo_hci demo_controller (link_api demo_wire demo_buf) scanning 0 demo_outbound in
    Left (for_train true) scanning (answered (for_train true) b')
stop_then_answer_example =
    stop_then_answer demo_hci demo_controller (link_api demo_wire demo_buf) (for_train true)
      scanning 0 demo_outbound

abbrev entries : List Bytes
entries = (0 ∷ 1 ∷ 2 ∷ 3 ∷ 4 ∷ 5 ∷ 6 ∷ []) ∷ (1 ∷ 9 ∷ 9 ∷ 9 ∷ 9 ∷ 9 ∷ 0xc9 ∷ []) ∷ []

set_filter_lem_example :
    set_filter (concat entries ++ 1 ∷ 2 ∷ []) initial ≡ record initial { filter = entries }
set_filter_lem_example = set_filter_lem entries (1 ∷ 2 ∷ []) initial (refl, (refl, _)) (omega arith)

abbrev keys : List Bytes
keys = (0 ∷ replicate 22 5) ∷ (1 ∷ replicate 22 6) ∷ []

set_keys_lem_example : set_keys (concat keys ++ []) initial ≡ (
    if length {A = ℕ} [] == 0 && (leb (length keys) max_keys && types_ok keys)
    then (success, with_keys keys initial)
    else (failure einval, initial))
set_keys_lem_example = set_keys_lem keys [] initial (refl, (refl, _)) (omega arith)

load_keys_lem_example :
    load_keys demo_hci demo_controller 2 (concat keys ++ replicate 138 0)
    ≡ send_all demo_hci demo_controller (commands_of keys)
load_keys_lem_example =
    load_keys_lem demo_hci demo_controller keys (replicate 138 0) (refl, (refl, _))

used_window_fits_example :
    let i = units_per_ms (used_interval 1001) in
    let w = units_per_ms (used_window 1001 5000) in
    (i ≡ 1001 * 8 / 5) × (w ≡ 1001 * 8 / 5) × (1 ≤ w) × (w ≤ i)
used_window_fits_example = used_window_fits 1001 5000 (omega arith)

units_per_ms_wraps_example : units_per_ms (used_interval 41000) + 2 ^ 16 ≡ 41000 * 8 / 5
units_per_ms_wraps_example = units_per_ms_wraps 41000 (omega arith) (omega arith)

-- A scan starts, a periodic train is announced and asked for, and the scan stops.
abbrev life : List Step
life =
    came_up
    ∷ periodic true
    ∷ start_scan 60 30 1
    ∷ packet 1000 1 4 (0x3e ∷ 26 ∷ 0x0d ∷ 1 ∷ 0 ∷ 0 ∷ (replicate 14 7 ++ replicate 8 3))
    ∷ sync_work
    ∷ timer
    ∷ stop_scan
    ∷ []

run_from_boot_example :
    let b =
      (run demo_hci demo_controller (link_api demo_wire demo_buf) life initial 0 demo_outbound).0 in
    (b.sync_count ≤ max_syncs)
    × (length b.sync_q ≤ sync_q_len)
    × (length b.bis_handles ≤ demo_hci.max_bis)
    × (length b.big_params ≤ 25 + demo_hci.max_bis)
run_from_boot_example =
    run_from_boot demo_hci demo_controller (link_api demo_wire demo_buf) life 0 demo_outbound

receive_lem_example :
    let (b', l') =
      receive demo_hci
        (link_api demo_wire demo_buf)
        1000
        1
        4
        (0x3e ∷ 2 ∷ 0x02 ∷ 0 ∷ [])
        scanning
        demo_outbound in
    ((scanning.running && heard demo_hci 4 (0x3e ∷ 2 ∷ 0x02 ∷ 0 ∷ [])) ≡ true
      × (b'.counters.captured ≡ u32 (scanning.counters.captured + 1)))
    ⊎ ((scanning.running && heard demo_hci 4 (0x3e ∷ 2 ∷ 0x02 ∷ 0 ∷ [])) ≡ false
        × (b' ≡ record scanning { pending = b'.pending })
        × (l' ≡ demo_outbound))
receive_lem_example =
    receive_lem demo_hci (link_api demo_wire demo_buf) 1000 1 4 (0x3e ∷ 2 ∷ 0x02 ∷ 0 ∷ []) scanning
      demo_outbound
