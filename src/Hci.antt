-- ===== src/Hci.antt =====
-- What radio_ble.c takes from Zephyr's Bluetooth headers and from the controller behind them: the
-- numbers of commands and events, and `bt_send` with what comes back.
use nrf54l15_sniffer.Base.{ℕ, ◌≡◌, Bytes, List, Errno, refl, ◌⊎◌, inl, inr}

-- `BT_HCI_OP_…`, the commands that the firmware sends.
pub data Opcode : Type 0 where
  reset set_event_mask le_set_event_mask le_set_random_address : Opcode
  le_set_addr_res_enable le_clear_rl le_add_dev_to_rl le_set_privacy_mode : Opcode
  le_clear_fal le_add_dev_to_fal : Opcode
  le_set_scan_param le_set_scan_enable le_set_ext_scan_param le_set_ext_scan_enable : Opcode
  le_per_adv_create_sync le_big_create_sync le_setup_iso_path : Opcode

-- The numbers of hci_types.h, and `CONFIG_BT_CTLR_SYNC_ISO_STREAM_COUNT`.
pub record Hci : Type 0 where
  pub opcode : Opcode → ℕ
  pub h4_evt : ℕ
  pub h4_iso : ℕ
  pub cmd_complete : ℕ
  pub cmd_status : ℕ
  pub le_meta : ℕ
  pub advertising_report : ℕ
  pub ext_advertising_report : ℕ
  pub per_advertising_report : ℕ
  pub per_advertising_report_v2 : ℕ
  pub per_adv_sync_established : ℕ
  pub per_adv_sync_established_v2 : ℕ
  pub per_adv_sync_lost : ℕ
  pub biginfo_adv_report : ℕ
  pub big_sync_established : ℕ
  pub big_sync_lost : ℕ
  pub err_success : ℕ
  pub datapath_dir_ctlr_to_host : ℕ
  pub coding_format_transparent : ℕ
  pub max_bis : ℕ

-- What becomes of a command: no buffer for it, an error of `bt_send`, or the events that arrive in
-- the next two seconds.
pub data Reply : Type 0 where
  no_buffer : Reply
  send_failed : Errno → Reply
  events : List Bytes → Reply

pub Reply-cases :
    (r : Reply)
    → (r ≡ no_buffer)
      ⊎ (((e : Errno) × (r ≡ send_failed e)) ⊎ ((es : List Bytes) × (r ≡ events es)))
Reply-cases no_buffer = inl refl
Reply-cases (send_failed e) = inr (inl (e, refl))
Reply-cases (events es) = inr (inr (es, refl))

pub record Controller : Type 1 where
  pub State : Type 0
  pub command : ℕ → Bytes → State → Reply × State
