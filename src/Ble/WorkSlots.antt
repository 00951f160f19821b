-- ===== src/Ble/WorkSlots.antt =====
-- The work items of src/radio_ble.c keep to the fixed stores.
use nrf54l15_sniffer.Base.{
  ℕ, ◌+◌, ◌≡◌, refl, ap, Bool, false, not, ◌||◌, Bytes, List, [], ◌∷◌, leb, u8, arith, if_holds,
  Bool-cases, inl, inr, Code, is_ok,
}
use nrf54l15_sniffer.Hci.{
  Hci, Opcode, Controller, le_per_adv_create_sync, le_big_create_sync, le_setup_iso_path,
}
use nrf54l15_sniffer.Ble.{Ble, SyncReq, max_syncs}
use nrf54l15_sniffer.Ble.Command.{hci_command, send_command}
use nrf54l15_sniffer.Ble.Work.{
  sync_loop, sync_work_fn, big_work_fn, path_loop, path_params, sync_params, iso_path_work_fn,
}
use nrf54l15_sniffer.Ble.Setup.Stop.{SameScan, send_command-SameScan}
use nrf54l15_sniffer.Ble.Slots.{Slots, other_fields}

module _ (h : Hci) where
  module _ (c : Controller) where
    pub SameScan-Slots : {b b' : Ble} → SameScan b b' → Slots h b → Slots h b'
    SameScan-Slots same k =
        other_fields h (ap (λ (x : Ble). x.sync_count) same) (ap (λ (x : Ble). x.sync_q) same)
          (ap (λ (x : Ble). x.bis_handles) same) (ap (λ (x : Ble). x.big_params) same) k

    send_command-Slots :
        (op : Opcode) (params : Bytes) (b : Ble) (s : c.State)
        → Slots h b
        → Slots h (send_command h c op params b s).1
    send_command-Slots op params b s k = SameScan-Slots (send_command-SameScan h c op params b s) k

    sync_loop-Slots :
        (reqs : List SyncReq) (b : Ble) (s : c.State)
        → Slots h b
        → Slots h (sync_loop h c reqs b s).0
    unfolding sync_loop send_command
    sync_loop-Slots [] b s k = k
    sync_loop-Slots (req ∷ reqs) b s k = elim (Bool-cases skips) [
      | inl skip ↦ rw skip (sync_loop-Slots reqs b s k)
      | inr ask ↦ rw ask (
          sync_loop-Slots reqs _ _
            (if_holds (λ x. Slots h x) (is_ok r.0) (counted ask) (SameScan-Slots same k)))
    ]
      where
        skips : Bool
        skips = not b.running || not b.periodic_enabled || leb max_syncs b.sync_count

        r : Code × Ble × c.State
        r = hci_command h c le_per_adv_create_sync (sync_params req) b s

        same : SameScan b r.1
        same = send_command-SameScan h c le_per_adv_create_sync (sync_params req) b s

        counted : skips ≡ false → Slots h (record r.1 { sync_count = u8 (r.1.sync_count + 1) })
        counted ask =
            let kept = SameScan-Slots same k in
            record {
              syncs = ground (arith, ap (λ (x : Ble). x.sync_count) same);
              queue = kept.queue;
              streams = kept.streams;
              request = kept.request;
            }

    pub sync_work_fn-Slots : (b : Ble) (s : c.State) → Slots h b → Slots h (sync_work_fn h c b s).0
    unfolding sync_work_fn
    sync_work_fn-Slots b s k =
        sync_loop-Slots b.sync_q _ s (record {
          syncs = k.syncs;
          queue = omega arith;
          streams = k.streams;
          request = k.request;
        })

    pub big_work_fn-Slots :
        (now : ℕ) (b : Ble) (s : c.State) → Slots h b → Slots h (big_work_fn h c now b s).0
    unfolding big_work_fn send_command
    big_work_fn-Slots now b s k = elim (Bool-cases (not b.running)) [
      | inl stopped ↦ rw stopped (other_fields h refl refl refl refl k)
      | inr running ↦ rw running (elim (Bool-cases (is_ok r.0)) [
        | inl ok ↦ rw ok (other_fields h refl refl refl refl asked)
        | inr refused ↦ rw refused (other_fields h refl refl refl refl asked)
      ])
    ]
      where
        r : Code × Ble × c.State
        r = hci_command h c le_big_create_sync b.big_params (record b { big_work = false }) s

        asked : Slots h r.1
        asked =
            send_command-Slots le_big_create_sync b.big_params (record b { big_work = false }) s
              (other_fields h refl refl refl refl k)

    path_loop-Slots :
        (hs : List ℕ) (b : Ble) (s : c.State) → Slots h b → Slots h (path_loop h c hs b s).0
    unfolding path_loop
    path_loop-Slots [] b s k = k
    path_loop-Slots (handle ∷ hs) b s k =
        if_holds (λ (r : Ble × c.State). Slots h r.0) b.running
          (path_loop-Slots hs _ _
            (send_command-Slots le_setup_iso_path (path_params h c handle) b s k))
          k

    pub iso_path_work_fn-Slots :
        (b : Ble) (s : c.State) → Slots h b → Slots h (iso_path_work_fn h c b s).0
    unfolding iso_path_work_fn
    iso_path_work_fn-Slots b s k =
        path_loop-Slots b.bis_handles _ s (other_fields h refl refl refl refl k)
