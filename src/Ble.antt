-- ===== src/Ble.antt =====
-- src/radio_ble.c: Bluetooth LE capture over raw HCI. This file has the static variables; each child
-- has a part of the functions.
pub mod Command
pub mod Batch
pub mod Setup
pub mod Events
pub mod Work
pub mod Forward
pub mod Slots
pub mod WorkSlots
pub mod Life
pub mod Books
pub mod Accounts
pub mod Packets
pub mod Capture
pub mod Unbatched
pub mod Delivery
pub mod Delivered
pub mod Counted
pub mod Late
use nrf54l15_sniffer.Base.{ℕ, Bool, false, Bytes, List, [], replicate, ◌*◌}

abbrev pub max_filter : ℕ
max_filter = 8

abbrev pub filter_entry : ℕ
filter_entry = 7

abbrev pub key_entry : ℕ
key_entry = 23

-- `CONFIG_BT_CTLR_RL_SIZE` of prj.conf
abbrev pub max_keys : ℕ
max_keys = 8

abbrev pub max_syncs : ℕ
max_syncs = 1

abbrev pub big_retry_ms : ℕ
big_retry_ms = 5000

abbrev pub sync_q_len : ℕ
sync_q_len = 4

abbrev pub batch_buf_len : ℕ
batch_buf_len = 2048

abbrev pub batch_hdr_len : ℕ
batch_hdr_len = 9

-- `struct sync_req`
pub record SyncReq : Type 0 where
  pub sid : ℕ
  pub addr_type : ℕ
  pub addr : Bytes

-- The counters of the STATS frame.
pub record Counters : Type 0 where
  pub captured : ℕ
  pub adv_reports : ℕ
  pub forwarded : ℕ
  pub oversized : ℕ
  pub dropped : ℕ
  pub command_timeouts : ℕ
  pub periodic_seen : ℕ
  pub periodic_synced : ℕ
  pub periodic_reports : ℕ
  pub periodic_refused : ℕ

-- The open batch.
pub record BleBatch : Type 0 where
  pub buf : Bytes
  pub used : ℕ
  pub count : ℕ
  pub base_us : ℕ
  pub last_us : ℕ
  pub linger : Bool

-- The command in flight: `cmd_done` is the semaphore.
pub record Pending : Type 0 where
  pub opcode : ℕ
  pub status : ℕ
  pub done : Bool

-- All of it. `filter` and `bis_handles` are the entries below their counts, `keys` the whole array;
-- the last three say which work items are queued.
pub record Ble : Type 0 where
  pub running : Bool
  pub ready : Bool
  pub pending : Pending
  pub filter : List Bytes
  pub keys : Bytes
  pub key_count : ℕ
  pub periodic_enabled : Bool
  pub sync_count : ℕ
  pub sync_q : List SyncReq
  pub big_synced : Bool
  pub big_retry_at : ℕ
  pub big_pending : Bool
  pub big_params : Bytes
  pub bis_handles : List ℕ
  pub counters : Counters
  pub batch : BleBatch
  pub sync_work : Bool
  pub big_work : Bool
  pub iso_path_work : Bool

abbrev pub no_keys : Bytes
no_keys = replicate (max_keys * key_entry) 0

abbrev pub zero_counters : Counters
zero_counters = record {
  captured = 0;
  adv_reports = 0;
  forwarded = 0;
  oversized = 0;
  dropped = 0;
  command_timeouts = 0;
  periodic_seen = 0;
  periodic_synced = 0;
  periodic_reports = 0;
  periodic_refused = 0;
}

unfoldable pub initial : Ble
initial = record {
  running = false;
  ready = false;
  pending = record { opcode = 0; status = 0; done = false };
  filter = [];
  keys = no_keys;
  key_count = 0;
  periodic_enabled = false;
  sync_count = 0;
  sync_q = [];
  big_synced = false;
  big_retry_at = 0;
  big_pending = false;
  big_params = [];
  bis_handles = [];
  counters = zero_counters;
  batch = record {
    buf = replicate batch_buf_len 0;
    used = batch_hdr_len;
    count = 0;
    base_us = 0;
    last_us = 0;
    linger = false;
  };
  sync_work = false;
  big_work = false;
  iso_path_work = false;
}

-- `sn_radio_ble_reset_counters`
unfoldable pub reset_counters : Ble → Ble
reset_counters b = record b { counters = zero_counters }

-- `sn_radio_ble_set_periodic`
unfoldable pub set_periodic : Bool → Ble → Ble
set_periodic enable b = record b { periodic_enabled = enable }
