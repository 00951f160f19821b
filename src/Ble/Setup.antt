-- ===== src/Ble/Setup.antt =====
-- Scan setup of src/radio_ble.c: the filter and keys that the host sends, and the commands that
-- start and stop a scan.
pub mod Start
pub mod Stop
pub mod Host
pub mod Timing
use nrf54l15_sniffer.Base.{
  ℕ, zero, suc, ◌+◌, ◌-◌, ◌*◌, ◌/◌, ◌%◌, ◌^◌, Bool, true, false, ◌&&◌, ◌||◌, not, Bytes, length,
  take, drop, get_or, List, [], ◌∷◌, ◌++◌, u16, u32, le16, ltb, leb, ◌==◌, if◌then◌else◌, Code,
  success, failure, einval, enodev, is_ok, replicate, write_at,
}
use nrf54l15_sniffer.LinkApi.{LinkApi}
use nrf54l15_sniffer.Hci.{
  Opcode, reset, set_event_mask, le_set_event_mask, le_set_random_address, le_set_addr_res_enable,
  le_clear_rl, le_add_dev_to_rl, le_set_privacy_mode, le_clear_fal, le_add_dev_to_fal,
  le_set_scan_param, le_set_scan_enable, le_set_ext_scan_param, le_set_ext_scan_enable, Hci,
  Controller,
}
use nrf54l15_sniffer.Ble.{Ble, max_filter, filter_entry, key_entry, max_keys, no_keys}
use nrf54l15_sniffer.Ble.Command.{send_command}
use nrf54l15_sniffer.Ble.Batch

-- `UNITS_PER_MS`
abbrev pub units_per_ms : ℕ → ℕ
units_per_ms ms = u16 (u32 (ms * 1000) / 625)

abbrev pub default_interval_ms : ℕ
default_interval_ms = 60

-- The interval and window that are used for those asked for.
abbrev pub used_interval : ℕ → ℕ
used_interval interval_ms = if interval_ms == 0 then default_interval_ms else interval_ms

abbrev pub used_window : ℕ → ℕ → ℕ
used_window interval_ms window_ms =
    if window_ms == 0 || ltb (used_interval interval_ms) window_ms
    then used_interval interval_ms
    else window_ms

-- The loop of `sn_radio_ble_set_filter`, `n` rounds from the end.
pub filter_from : ℕ → Bytes → List Bytes
filter_from zero p = []
filter_from (suc n) p =
    if leb filter_entry (length p)
    then take filter_entry p ∷ filter_from n (drop filter_entry p)
    else []

-- `sn_radio_ble_set_filter`
unfoldable pub set_filter : Bytes → Ble → Ble
set_filter payload b = record b { filter = filter_from max_filter payload }

-- The loop of `sn_radio_ble_set_keys` over the address types: whether one is refused.
pub bad_type : ℕ → Bytes → Bool
bad_type zero p = false
bad_type (suc n) p = ltb 1 (get_or p 0 0) || bad_type n (drop key_entry p)

-- `sn_radio_ble_set_keys`
unfoldable pub set_keys : Bytes → Ble → Code × Ble
set_keys payload b =
    if not (length payload % key_entry == 0) || ltb max_keys (length payload / key_entry)
    then (failure einval, b)
    else if bad_type (length payload / key_entry) payload
    then (failure einval, b)
    else (
      success,
      record b { keys = write_at no_keys 0 payload; key_count = length payload / key_entry },
    )

-- The scan parameters of the extended scan: five bytes for each PHY of the bitmask.
pub phy_params : ℕ → ℕ → ℕ → ℕ → ℕ → Bytes
phy_params zero bit phys interval window = []
phy_params (suc n) bit phys interval window =
    (if phys / 2 ^ bit % 2 == 0 then [] else 0 ∷ (le16 interval ++ le16 window))
    ++ phy_params n (bit + 1) phys interval window

abbrev pub policy : Ble → ℕ
policy b = if ltb 0 (length b.filter) then 1 else 0

-- `scan_started`
unfoldable pub scan_started : Ble → Ble
scan_started b = record b {
  sync_count = 0;
  big_synced = false;
  big_retry_at = 0;
  bis_handles = [];
  sync_q = [];
  running = true;
}

abbrev pub all_events : Bytes
all_events = 0xff ∷ 0xff ∷ 0xff ∷ 0xff ∷ 0xff ∷ 0xff ∷ 0xff ∷ 0x3f ∷ []

abbrev pub all_le_events : Bytes
all_le_events = 0xff ∷ 0xff ∷ 0xff ∷ 0xff ∷ 0xff ∷ 0xff ∷ 0xff ∷ 0xff ∷ []

abbrev pub static_random_addr : Bytes
static_random_addr = 0x01 ∷ 0x02 ∷ 0x03 ∷ 0x04 ∷ 0x05 ∷ 0xc0 ∷ []

module _ (h : Hci) (c : Controller) where
  -- A function that sends commands: its result, and the state.
  abbrev pub M : Type 0
  M = Ble → c.State → Code × Ble × c.State

  -- `err = m; if (err != 0) return err;` and on with `k`
  infixr 5 ◌>>◌
  abbrev pub ◌>>◌ : M → M → M
  ◌>>◌ m k b s = let (code, b', s') = m b s in if is_ok code then k b' s' else (code, b', s')

  abbrev pub done : M
  done b s = (success, b, s)

  abbrev pub command : Opcode → Bytes → M
  command op params = send_command h c op params

  -- The loop of `apply_keys`, on the keys not loaded yet.
  pub load_keys : ℕ → Bytes → M
  load_keys zero keys = done
  load_keys (suc n) keys = do
    command le_add_dev_to_rl (take key_entry keys ++ replicate 16 0)
    command le_set_privacy_mode (take 7 keys ++ 1 ∷ [])
    load_keys n (drop key_entry keys)

  -- `apply_keys`
  pub apply_keys : ℕ → Bytes → M
  apply_keys key_count keys = do
    command le_set_addr_res_enable (0 ∷ [])
    command le_clear_rl []
    load_keys key_count keys
    if ltb 0 key_count then command le_set_addr_res_enable (1 ∷ []) else done

  -- The loop of `apply_filter`.
  pub load_filter : List Bytes → M
  load_filter [] = done
  load_filter (entry ∷ entries) = do command le_add_dev_to_fal entry; load_filter entries

  -- `apply_filter`
  pub apply_filter : Ble → M
  apply_filter b = do apply_keys b.key_count b.keys; command le_clear_fal []; load_filter b.filter

  -- `start_legacy_scan`
  pub start_legacy_scan : ℕ → ℕ → ℕ → M
  start_legacy_scan filter_policy interval window = do
    command le_set_scan_param (0 ∷ (le16 interval ++ le16 window ++ 1 ∷ filter_policy ∷ []))
    command le_set_scan_enable (1 ∷ 0 ∷ [])

  -- The extended scan, the end of `sn_radio_ble_start`.
  pub start_extended_scan : ℕ → ℕ → ℕ → ℕ → M
  start_extended_scan filter_policy phys interval window = do
    command le_set_ext_scan_param (1 ∷ filter_policy ∷ phys ∷ phy_params 8 0 phys interval window)
    command le_set_ext_scan_enable (1 ∷ 0 ∷ 0 ∷ 0 ∷ 0 ∷ 0 ∷ [])

  -- `sn_radio_ble_start` from the reset on, the interval and window in 0.625 ms units.
  pub configure : ℕ → ℕ → ℕ → Ble → M
  configure interval window phys b = do
    command reset []
    command set_event_mask all_events
    command le_set_event_mask all_le_events
    command le_set_random_address static_random_addr
    apply_filter b
    if phys == 0
        then start_legacy_scan (policy b) interval window
        else start_extended_scan (policy b) phys interval window

  -- `sn_radio_ble_start`
  unfoldable pub start : ℕ → ℕ → ℕ → M
  start interval_ms window_ms phys b s =
      if not b.ready
      then (failure enodev, b, s)
      else (let interval = units_per_ms (used_interval interval_ms) in
          let window = units_per_ms (used_window interval_ms window_ms) in
          let (code, b', s') = configure interval window phys b b s in
          (code, (if is_ok code then scan_started b' else b'), s'))

  -- `sn_radio_ble_stop`
  unfoldable pub stop :
      (link : LinkApi) → Ble → c.State → link.State → Code × Ble × c.State × link.State
  stop link b s l =
      let cleared = record b { running = false; keys = no_keys; key_count = 0 } in
      let (b', l') = Batch.flush link cleared l in
      let idle = record b' { sync_count = 0; big_synced = false } in
      let (code, b'', s') = send_command h c reset [] idle s in (code, b'', s', l')
