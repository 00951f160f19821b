-- ===== src/Tests/Instances.antt =====
-- A concrete radio, Bluetooth controller and antenna switch, and the board with the encoder, ring and
-- link of `Wires`, whose names are passed on.
pub use nrf54l15_sniffer.Tests.Wires.{
  demo_code, demo_crc, demo_encode, demo_wire, demo_IsWire, demo_capacity, DemoRing, demo_buf,
  take-length-take, demo_IsRingBuf, demo_outbound,
}
use nrf54l15_sniffer.Base.{
  ltb, ◌+◌, ◌-◌, ◌≢◌, false, arith, ℕ, ◌+◌, ◌≢◌, refl, Bool, true, false, [], ◌∷◌, ◌++◌, le16,
  success, some, negsuc, Errno, failure,
}
use nrf54l15_sniffer.Link.{link_api}
use nrf54l15_sniffer.Radio154.Driver.{RadioDriver, IsRadioDriver}
use nrf54l15_sniffer.Hci.{Hci, Opcode, Controller, events}
use nrf54l15_sniffer.Commands.{Cmd, Status}
use nrf54l15_sniffer.Board.{Env, Regulator}
use nrf54l15_sniffer.Control.Antenna.{IsRegulator}

-- A radio that does what it is told, and measures -87 dBm.
pub record DemoRadio : Type 0 where
  pub channel : ℕ
  pub on : Bool

abbrev pub demo_driver : RadioDriver
demo_driver = record {
  State = DemoRadio;
  set_channel = λ c d. (success, record d { channel = c });
  start = λ d. (success, record d { on = true });
  stop = λ d. (success, record d { on = false });
  ed_scan = λ ms d. (success, d);
  ed_wait = λ ms d. (some (negsuc 86), d);
}

pub no_failure : {n : Errno} → success ≢ failure n
no_failure e = cc

abbrev pub demo_IsRadioDriver : IsRadioDriver demo_driver
demo_IsRadioDriver = record {
  tuned = λ d. d.channel;
  receiving = λ d. d.on;
  tunes = λ c d e. refl;
  tune_fails = λ c d n e. absurd (no_failure e);
  tune_receiving = λ c d. refl;
  starts = λ d e. refl;
  start_fails = λ d n e. absurd (no_failure e);
  start_tuned = λ d. refl;
  stops = λ d e. refl;
  stop_fails = λ d n e. absurd (no_failure e);
  stop_tuned = λ d. refl;
}

abbrev pub demo_opcode : Opcode → ℕ
demo_opcode Opcode.reset = 0x0c03
demo_opcode Opcode.set_event_mask = 0x0c01
demo_opcode Opcode.le_set_event_mask = 0x2001
demo_opcode Opcode.le_set_random_address = 0x2005
demo_opcode Opcode.le_set_addr_res_enable = 0x202d
demo_opcode Opcode.le_clear_rl = 0x2029
demo_opcode Opcode.le_add_dev_to_rl = 0x2027
demo_opcode Opcode.le_set_privacy_mode = 0x204e
demo_opcode Opcode.le_clear_fal = 0x2010
demo_opcode Opcode.le_add_dev_to_fal = 0x2011
demo_opcode Opcode.le_set_scan_param = 0x200b
demo_opcode Opcode.le_set_scan_enable = 0x200c
demo_opcode Opcode.le_set_ext_scan_param = 0x2041
demo_opcode Opcode.le_set_ext_scan_enable = 0x2042
demo_opcode Opcode.le_per_adv_create_sync = 0x2044
demo_opcode Opcode.le_big_create_sync = 0x206b
demo_opcode Opcode.le_setup_iso_path = 0x206e

abbrev pub demo_hci : Hci
demo_hci = record {
  opcode = demo_opcode;
  h4_evt = 4;
  h4_iso = 5;
  cmd_complete = 0x0e;
  cmd_status = 0x0f;
  le_meta = 0x3e;
  advertising_report = 0x02;
  ext_advertising_report = 0x0d;
  per_advertising_report = 0x0f;
  per_advertising_report_v2 = 0x25;
  per_adv_sync_established = 0x0e;
  per_adv_sync_established_v2 = 0x24;
  per_adv_sync_lost = 0x10;
  biginfo_adv_report = 0x22;
  big_sync_established = 0x1d;
  big_sync_lost = 0x1e;
  err_success = 0;
  datapath_dir_ctlr_to_host = 1;
  coding_format_transparent = 3;
  max_bis = 1;
}

-- A controller that completes each command, after an event that is about something else.
abbrev pub demo_controller : Controller
demo_controller = record {
  State = ℕ;
  command = λ opcode params n.
      (events ((0x3e ∷ 1 ∷ 2 ∷ []) ∷ (0x0e ∷ 4 ∷ 1 ∷ (le16 opcode ++ 0 ∷ [])) ∷ []), n + 1);
}

abbrev pub demo_regulator : Regulator
demo_regulator = record {
  State = ℕ;
  ready = true;
  is_enabled = λ n. ltb 0 n;
  enable = λ n. (success, n + 1);
  disable = λ n. (success, n - 1);
}

pub never_fails : true ≢ false
never_fails e = cc

abbrev pub demo_IsRegulator : IsRegulator demo_regulator
demo_IsRegulator = record {
  count = λ n. n;
  enabled_is = λ n. refl;
  enables = λ n e. refl;
  enable_fails = λ n e. absurd (never_fails e);
  disables = λ n h e. omega arith;
  disable_fails = λ n e. absurd (never_fails e);
}

abbrev pub demo_cmd : Cmd → ℕ
demo_cmd Cmd.set_channel = 1
demo_cmd Cmd.start = 2
demo_cmd Cmd.stop = 3
demo_cmd Cmd.get_info = 4
demo_cmd Cmd.set_radio = 5
demo_cmd Cmd.set_ble_phys = 6
demo_cmd Cmd.set_antenna = 7
demo_cmd Cmd.energy_detect = 8
demo_cmd Cmd.set_ble_periodic = 9
demo_cmd Cmd.set_ble_scan = 10

abbrev pub demo_status : Status → ℕ
demo_status Status.ok = 0
demo_status Status.bad_value = 1
demo_status Status.failed = 2
demo_status Status.unknown_command = 3

abbrev pub demo_env : Env
demo_env = record {
  link = link_api demo_wire demo_buf;
  driver = demo_driver;
  hci = demo_hci;
  controller = demo_controller;
  regulator = demo_regulator;
  commands = record { cmd_code = demo_cmd; status_code = demo_status };
  type_code = demo_code;
}
