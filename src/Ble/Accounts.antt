-- ===== src/Ble/Accounts.antt =====
-- The packets of src/radio_ble.c in any run of its steps.
use nrf54l15_sniffer.Base.{
  ℕ, ◌+◌, ◌<◌, ◌≡◌, ◌≢◌, refl, sym, subst, Bool, true, false, not, ◌||◌, Bytes, List, [], ◌∷◌, leb,
  u32, arith, if_holds, Bool-cases, inl, inr, Code, is_ok, ◌⊎◌,
}
use nrf54l15_sniffer.LinkApi.{LinkApi}
use nrf54l15_sniffer.Hci.{
  Hci, Controller, Opcode, reset, le_per_adv_create_sync, le_big_create_sync, le_setup_iso_path,
}
use nrf54l15_sniffer.Ble.{Ble, SyncReq, no_keys, initial, set_periodic, max_syncs}
use nrf54l15_sniffer.Ble.Batch.{flush, max_entries}
use nrf54l15_sniffer.Ble.Command.{send_command, hci_command}
use nrf54l15_sniffer.Ble.Setup.{start, stop, scan_started, set_filter, set_keys}
use nrf54l15_sniffer.Ble.Setup.Stop.{SameScan, send_command-SameScan, start_lem}
use nrf54l15_sniffer.Ble.Work.{
  sync_loop, sync_work_fn, big_work_fn, path_loop, path_params, sync_params, iso_path_work_fn,
}
use nrf54l15_sniffer.Ble.Books.{flush_locked-Balanced}
use nrf54l15_sniffer.Ble.Life.{
  Step, packet, timer, sync_work, big_work, iso_path_work, came_up, start_scan, stop_scan,
  filter_frame, keys_frame, periodic, clear, step, run,
}
use nrf54l15_sniffer.Ble.Packets.{
  BalancedIn, BalancedIn-same, Keeps, Keeps-Balanced, receive-Balanced,
}

abbrev pub clears : Step → Bool
clears clear = true
clears _ = false

pub true_is_not_false : true ≢ false
true_is_not_false e = cc

at_boot : BalancedIn initial
unfolding initial
at_boot = BalancedIn-same (record { held = omega arith; timed = inl refl; balance = refl })

set_keys-Keeps : (payload : Bytes) (b : Ble) → Keeps b (set_keys payload b).1
unfolding set_keys
set_keys-Keeps payload b = record {
  captured = ground arith;
  forwarded = ground arith;
  dropped = ground arith;
  count = ground arith;
  linger = ground arith;
}

module _ (h : Hci) (c : Controller) where
  SameScan-Balanced : (b b' : Ble) → SameScan b b' → BalancedIn b → BalancedIn b'
  SameScan-Balanced b b' same k =
      subst (λ x. BalancedIn x) (sym same)
        (BalancedIn-same
          (record { held = k.books.held; timed = k.books.timed; balance = k.books.balance }))

  send_command-Balanced :
      (op : Opcode) (params : Bytes) (b : Ble) (s : c.State)
      → BalancedIn b
      → BalancedIn (send_command h c op params b s).1
  send_command-Balanced op params b s k =
      SameScan-Balanced b _ (send_command-SameScan h c op params b s) k

  sync_loop-Balanced :
      (reqs : List SyncReq) (b : Ble) (s : c.State)
      → BalancedIn b
      → BalancedIn (sync_loop h c reqs b s).0
  unfolding sync_loop send_command
  sync_loop-Balanced [] b s k = k
  sync_loop-Balanced (req ∷ reqs) b s k =
      if_holds (λ (r : Ble × c.State). BalancedIn r.0)
        (not b.running || not b.periodic_enabled || leb max_syncs b.sync_count)
        (sync_loop-Balanced reqs b s k)
        (sync_loop-Balanced reqs _ _
          (if_holds (λ x. BalancedIn x) (is_ok r.0) (BalancedIn-same asked.books) asked))
    where
      r : Code × Ble × c.State
      r = hci_command h c le_per_adv_create_sync (sync_params req) b s

      asked : BalancedIn r.1
      asked = send_command-Balanced le_per_adv_create_sync (sync_params req) b s k

  big_work_fn-Balanced :
      (now : ℕ) (b : Ble) (s : c.State) → BalancedIn b → BalancedIn (big_work_fn h c now b s).0
  unfolding big_work_fn send_command
  big_work_fn-Balanced now b s k = elim (Bool-cases (not b.running)) [
    | inl stopped ↦ rw stopped (BalancedIn-same k.books)
    | inr running ↦ rw running (elim (Bool-cases (is_ok r.0)) [
      | inl ok ↦ rw ok (BalancedIn-same asked.books)
      | inr refused ↦ rw refused (BalancedIn-same asked.books)
    ])
  ]
    where
      r : Code × Ble × c.State
      r = hci_command h c le_big_create_sync b.big_params (record b { big_work = false }) s

      asked : BalancedIn r.1
      asked =
          send_command-Balanced le_big_create_sync b.big_params (record b { big_work = false }) s
            (BalancedIn-same k.books)

  path_loop-Balanced :
      (hs : List ℕ) (b : Ble) (s : c.State) → BalancedIn b → BalancedIn (path_loop h c hs b s).0
  unfolding path_loop
  path_loop-Balanced [] b s k = k
  path_loop-Balanced (handle ∷ hs) b s k =
      if_holds (λ (r : Ble × c.State). BalancedIn r.0) b.running
        (path_loop-Balanced hs _ _
          (send_command-Balanced le_setup_iso_path (path_params h c handle) b s k))
        k

  module _ (link : LinkApi) where
    flush-Balanced : (b : Ble) (l : link.State) → BalancedIn b → BalancedIn (flush link b l).0
    unfolding flush
    flush-Balanced b l k = BalancedIn-same (
        flush_locked-Balanced link (record b.batch { linger = false }) b.counters l k.books.balance)

    stop-Balanced :
        (b : Ble) (s : c.State) (l : link.State) → BalancedIn b → BalancedIn (stop h c link b s l).1
    unfolding stop
    stop-Balanced b s l k =
        send_command-Balanced reset [] _ s
          (BalancedIn-same (flush-Balanced (cleared b) l (BalancedIn-same k.books)).books)
      where
        cleared : Ble → Ble
        cleared b = record b { running = false; keys = no_keys; key_count = 0 }

    -- No step clears the counters.
    abbrev pub Counting : List Step → Type 0
    Counting [] = Unit {0}
    Counting (x ∷ xs) = (clears x ≡ false) × Counting xs

    step-Balanced :
        (x : Step) (b : Ble) (s : c.State) (l : link.State)
        → clears x ≡ false
        → BalancedIn b
        → BalancedIn (step h c link x b s l).0
    unfolding step set_filter set_keys set_periodic sync_work_fn iso_path_work_fn scan_started
    step-Balanced (packet ts now h4 buf) b s l n k = receive-Balanced h link ts now h4 buf b l k
    step-Balanced timer b s l n k = flush-Balanced b l k
    step-Balanced sync_work b s l n k = sync_loop-Balanced b.sync_q _ s (BalancedIn-same k.books)
    step-Balanced (big_work now) b s l n k = big_work_fn-Balanced now b s k
    step-Balanced iso_path_work b s l n k =
        path_loop-Balanced b.bis_handles _ s (BalancedIn-same k.books)
    step-Balanced came_up b s l n k = BalancedIn-same k.books
    step-Balanced (start_scan interval window phys) b s l n k =
        SameScan-Balanced _ _ (start_lem h c interval window phys b s).2 (
          if_holds (λ x. BalancedIn x) (is_ok (start h c interval window phys b s).0)
            (BalancedIn-same k.books) k)
    step-Balanced stop_scan b s l n k = stop-Balanced b s l k
    step-Balanced (filter_frame payload) b s l n k = BalancedIn-same k.books
    step-Balanced (keys_frame payload) b s l n k = Keeps-Balanced (set_keys-Keeps payload b) k
    step-Balanced (periodic on) b s l n k = BalancedIn-same k.books
    step-Balanced clear b s l n k = absurd (true_is_not_false n)

    run-Balanced :
        (xs : List Step) (b : Ble) (s : c.State) (l : link.State)
        → Counting xs
        → BalancedIn b
        → BalancedIn (run h c link xs b s l).0
    unfolding run
    run-Balanced [] b s l n k = k
    run-Balanced (x ∷ xs) b s l n k = run-Balanced xs _ _ _ n.1 (step-Balanced x b s l n.0 k)

    pub run_balances :
        (xs : List Step) (s : c.State) (l : link.State)
        → Counting xs
        → let b = (run h c link xs initial s l).0 in
          (u32 (b.counters.forwarded + b.counters.dropped + b.batch.count)
            ≡ u32 b.counters.captured)
          × (b.batch.count < max_entries)
          × ((b.batch.count ≡ 0) ⊎ (b.batch.linger ≡ true))
    run_balances xs s l n =
        let k = (run-Balanced xs initial s l n at_boot).books in (k.balance, k.held, k.timed)
