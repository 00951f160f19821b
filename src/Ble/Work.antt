-- ===== src/Ble/Work.antt =====
-- The work items of src/radio_ble.c, which send the commands that the forwarding thread asks for.
use nrf54l15_sniffer.Base.{
  ℕ, ◌+◌, true, false, not, ◌||◌, Bytes, replicate, List, [], ◌∷◌, ◌++◌, le16, u8, leb,
  if◌then◌else◌, is_ok,
}
use nrf54l15_sniffer.Hci.{
  Hci, Controller, le_per_adv_create_sync, le_big_create_sync, le_setup_iso_path,
}
use nrf54l15_sniffer.Ble.{Ble, SyncReq, max_syncs, big_retry_ms}
use nrf54l15_sniffer.Ble.Command.{hci_command, send_command}

-- The parameters of a periodic sync: options 0, skip 0, a time-out of 10 s, no constraint.
abbrev pub sync_params : SyncReq → Bytes
sync_params req = 0 ∷ req.sid ∷ req.addr_type ∷ (req.addr ++ 0 ∷ 0 ∷ 0xe8 ∷ 0x03 ∷ 0 ∷ [])

-- What a work item does once it has its answer.
abbrev pub train_followed : Ble → Ble
train_followed b = record b { sync_count = u8 (b.sync_count + 1) }

abbrev pub group_followed : Ble → Ble
group_followed b = record b { big_synced = true; big_pending = false }

abbrev pub group_refused : ℕ → Ble → Ble
group_refused now b = record b { big_retry_at = now + big_retry_ms; big_pending = false }

-- Each work item below is one step, its waits for the controller included; Ble.Late has an answer that
-- comes after a STOP.
module _ (h : Hci) (c : Controller) where
  -- The loop of `sync_work_fn`, on the queued requests.
  unfoldable pub sync_loop : List SyncReq → Ble → c.State → Ble × c.State
  sync_loop [] b s = (b, s)
  sync_loop (req ∷ reqs) b s =
      let skipped = sync_loop reqs b s in
      let (code, b', s') = hci_command h c le_per_adv_create_sync (sync_params req) b s in
      let asked = sync_loop reqs (if is_ok code then train_followed b' else b') s' in
      if not b.running || not b.periodic_enabled || leb max_syncs b.sync_count
      then skipped
      else asked

  -- `sync_work_fn`
  unfoldable pub sync_work_fn : Ble → c.State → Ble × c.State
  sync_work_fn b s = sync_loop b.sync_q (record b { sync_q = []; sync_work = false }) s

  -- `big_work_fn`, which ends at `now` milliseconds of uptime
  unfoldable pub big_work_fn : ℕ → Ble → c.State → Ble × c.State
  big_work_fn now b s =
      let (code, b', s') =
        hci_command h c le_big_create_sync b.big_params (record b { big_work = false }) s in
      let refused = record b {
        big_retry_at = now + big_retry_ms;
        big_pending = false;
        big_work = false;
      } in
      if not b.running
      then (refused, s)
      else if is_ok code
      then (group_followed b', s')
      else (group_refused now b', s')

  abbrev pub path_params : ℕ → Bytes
  path_params handle =
      le16 handle ++ h.datapath_dir_ctlr_to_host ∷ 0 ∷ h.coding_format_transparent ∷ replicate 8 0

  -- The loop of `iso_path_work_fn`.
  unfoldable pub path_loop : List ℕ → Ble → c.State → Ble × c.State
  path_loop [] b s = (b, s)
  path_loop (handle ∷ hs) b s =
      let (code, b', s') = send_command h c le_setup_iso_path (path_params handle) b s in
      let rest = path_loop hs b' s' in if b.running then rest else (b, s)

  -- `iso_path_work_fn`
  unfoldable pub iso_path_work_fn : Ble → c.State → Ble × c.State
  iso_path_work_fn b s = path_loop b.bis_handles (record b { iso_path_work = false }) s
