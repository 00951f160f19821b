-- ===== src/Ble/Events.antt =====
-- What the forwarding thread of src/radio_ble.c notices in the controller's events: the counts, and
-- the periodic trains and broadcasts to follow.
use nrf54l15_sniffer.Base.{
  ℕ, zero, suc, ◌+◌, ◌-◌, ◌%◌, Bool, true, false, not, ◌&&◌, ◌||◌, Bytes, length, get_or, take,
  drop, replicate, List, [], ◌∷◌, ◌++◌, le16, u8, u32, ltb, leb, ◌==◌, min, if◌then◌else◌,
}
use nrf54l15_sniffer.Hci.{Hci}
use nrf54l15_sniffer.Link.{get_le16}
use nrf54l15_sniffer.Ble.{Ble, SyncReq, big_retry_ms, sync_q_len}

-- The loop of `note_big_established`, `n` rounds from the end.
unfoldable pub handles : ℕ → Bytes → List ℕ
handles zero at = []
handles (suc n) at =
    let rest = handles n (drop 2 at) in if leb 2 (length at) then get_le16 at 0 ∷ rest else []

-- The 1-based stream indices of a BIG Create Sync.
abbrev pub indices : ℕ → ℕ → Bytes
indices zero i = []
indices (suc n) i = u8 i ∷ indices n (i + 1)

-- A slot is free again.
abbrev pub free_slot : Ble → Ble
free_slot b = record b {
  sync_count = if ltb 0 b.sync_count then b.sync_count - 1 else b.sync_count;
}

module _ (h : Hci) where
  -- `note_big_established`
  unfoldable pub note_big_established : Bytes → Ble → Ble
  note_big_established at b = record b {
    bis_handles = handles (min (get_or at 0 0) h.max_bis) (drop 1 at);
    iso_path_work = true;
  }

  -- The event is a success: long enough, and its status is that of success.
  abbrev pub succeeded : ℕ → Bytes → Bool
  succeeded len evt = leb len (length evt) && get_or evt 3 0 == h.err_success

  -- The cases of the `switch` of `note_counts` on the subevent, at `now` milliseconds of uptime.
  unfoldable pub note_subevent : ℕ → ℕ → Bytes → Ble → Ble
  note_subevent sub now evt b =
      let k = b.counters in
      if sub == h.advertising_report || sub == h.ext_advertising_report
      then record b { counters = record k { adv_reports = u32 (k.adv_reports + 1) } }
      else if sub == h.per_advertising_report || sub == h.per_advertising_report_v2
      then record b { counters = record k { periodic_reports = u32 (k.periodic_reports + 1) } }
      else if sub == h.per_adv_sync_established || sub == h.per_adv_sync_established_v2
      then (if succeeded 4 evt
          then record b { counters = record k { periodic_synced = u32 (k.periodic_synced + 1) } }
          else free_slot (record b {
            counters = record k { periodic_refused = u32 (k.periodic_refused + 1) };
          }))
      else if sub == h.per_adv_sync_lost
      then free_slot b
      else if sub == h.big_sync_established
      then (if succeeded 17 evt
          then note_big_established (drop 16 evt) (record b { big_synced = true })
          else record b { big_synced = false; big_retry_at = now + big_retry_ms })
      else if sub == h.big_sync_lost
      then record b { big_synced = false }
      else b

  -- `note_counts`
  unfoldable pub note_counts : ℕ → Bytes → Ble → Ble
  note_counts now evt b =
      if ltb (length evt) 3 || not (get_or evt 0 0 == h.le_meta)
      then b
      else note_subevent (get_or evt 2 0) now evt b

  -- The parameters of a BIG Create Sync for a BIGInfo report.
  abbrev pub create_sync_params : Bytes → Bytes
  create_sync_params hci =
      let num_bis = min (get_or hci 6 0) h.max_bis in
      0
      ∷ (le16 (get_le16 hci 4)
          ++ 0 ∷ (replicate 16 0 ++ 0 ∷ 0xc8 ∷ 0 ∷ num_bis ∷ indices num_bis 1))

  -- `note_biginfo`, of the event with its H4 byte in front
  unfoldable pub note_biginfo : ℕ → Bytes → Ble → Ble
  note_biginfo now hci b =
      if ltb (length hci) 23
        || not (get_or hci 1 0 == 0x3e)
        || not (get_or hci 3 0 == h.biginfo_adv_report)
      then b
      else if b.big_synced || ltb now b.big_retry_at
      then b
      else if get_or hci 6 0 == 0 || not (get_or hci 22 0 == 0)
      then b
      else if b.big_pending
      then b
      else record b { big_pending = true; big_params = create_sync_params hci; big_work = true }

-- The request for a train that a report announces.
abbrev pub sync_req : Bytes → SyncReq
sync_req hci = record {
  sid = get_or hci 16 0;
  addr_type = get_or hci 7 0 % 2;
  addr = take 6 (drop 8 hci);
}

-- `note_periodic`, of the event with its H4 byte in front
unfoldable pub note_periodic : Bytes → Ble → Ble
note_periodic hci b =
    let k = b.counters in
    let seen = record b { counters = record k { periodic_seen = u32 (k.periodic_seen + 1) } } in
    if ltb (length hci) 21 || not (get_or hci 1 0 == 0x3e) || not (get_or hci 3 0 == 0x0d)
    then b
    else if get_le16 hci 19 == 0
    then b
    else if get_or hci 7 0 == 0xff
    then b
    else if ltb (length b.sync_q) sync_q_len
    then record seen { sync_q = b.sync_q ++ sync_req hci ∷ []; sync_work = true }
    else seen
