-- ===== src/Ble/Life.antt =====
-- src/radio_ble.c at work: the packets of the controller, the work items and the calls of the control
-- channel, in any order.
use nrf54l15_sniffer.Base.{
  ℕ, ◌+◌, if_holds, ◌≤◌, refl, Bool, true, Bytes, length, List, [], ◌∷◌, is_ok, arith,
}
use nrf54l15_sniffer.LinkApi.{LinkApi}
use nrf54l15_sniffer.Hci.{Hci, Controller}
use nrf54l15_sniffer.Ble.{Ble, initial, reset_counters, set_periodic, max_syncs, sync_q_len}
use nrf54l15_sniffer.Ble.Batch.{flush}
use nrf54l15_sniffer.Ble.Setup.{start, stop, set_filter, set_keys, scan_started}
use nrf54l15_sniffer.Ble.Setup.Stop.{start_lem, stop_lem}
use nrf54l15_sniffer.Ble.Forward.{receive}
use nrf54l15_sniffer.Ble.Work.{sync_work_fn, big_work_fn, iso_path_work_fn}
use nrf54l15_sniffer.Ble.Slots.{Slots, other_fields, receive-Slots}
use nrf54l15_sniffer.Ble.WorkSlots.{
  SameScan-Slots, sync_work_fn-Slots, big_work_fn-Slots, iso_path_work_fn-Slots,
}

-- Times are in microseconds and milliseconds of uptime.
pub data Step : Type 0 where
  packet : ℕ → ℕ → ℕ → Bytes → Step
  timer : Step
  sync_work : Step
  big_work : ℕ → Step
  iso_path_work : Step
  came_up : Step
  start_scan : ℕ → ℕ → ℕ → Step
  stop_scan : Step
  filter_frame : Bytes → Step
  keys_frame : Bytes → Step
  periodic : Bool → Step
  clear : Step

module _ (h : Hci) (c : Controller) (link : LinkApi) where
  unfoldable pub step : Step → Ble → c.State → link.State → Ble × c.State × link.State
  step (packet ts now h4 buf) b s l = let (b', l') = receive h link ts now h4 buf b l in (b', s, l')
  step timer b s l = let (b', l') = flush link b l in (b', s, l')
  step sync_work b s l = let (b', s') = sync_work_fn h c b s in (b', s', l)
  step (big_work now) b s l = let (b', s') = big_work_fn h c now b s in (b', s', l)
  step iso_path_work b s l = let (b', s') = iso_path_work_fn h c b s in (b', s', l)
  step came_up b s l = (record b { ready = true }, s, l)
  step (start_scan interval window phys) b s l =
      let (code, b', s') = start h c interval window phys b s in (b', s', l)
  step stop_scan b s l = let (code, b', s', l') = stop h c link b s l in (b', s', l')
  step (filter_frame payload) b s l = (set_filter payload b, s, l)
  step (keys_frame payload) b s l = ((set_keys payload b).1, s, l)
  step (periodic on) b s l = (set_periodic on b, s, l)
  step clear b s l = (reset_counters b, s, l)

  unfoldable pub run : List Step → Ble → c.State → link.State → Ble × c.State × link.State
  run [] b s l = (b, s, l)
  run (x ∷ xs) b s l = let (b', s', l') = step x b s l in run xs b' s' l'

  scan_started-Slots : (b : Ble) → Slots h b → Slots h (scan_started b)
  unfolding scan_started
  scan_started-Slots b k = record {
    syncs = omega arith;
    queue = omega arith;
    streams = omega arith;
    request = k.request;
  }

  step-Slots :
      (x : Step) (b : Ble) (s : c.State) (l : link.State) → Slots h b → Slots h (step x b s l).0
  unfolding step flush set_filter set_keys set_periodic reset_counters
  step-Slots (packet ts now h4 buf) b s l k = receive-Slots h link ts now h4 buf b l k
  step-Slots timer b s l k = other_fields h refl refl refl refl k
  step-Slots sync_work b s l k = sync_work_fn-Slots h c b s k
  step-Slots (big_work now) b s l k = big_work_fn-Slots h c now b s k
  step-Slots iso_path_work b s l k = iso_path_work_fn-Slots h c b s k
  step-Slots came_up b s l k = other_fields h refl refl refl refl k
  step-Slots (start_scan interval window phys) b s l k =
      SameScan-Slots h c (start_lem h c interval window phys b s).2 (
        if_holds (λ x. Slots h x) (is_ok (start h c interval window phys b s).0)
          (scan_started-Slots b k) k)
  step-Slots stop_scan b s l k =
      let e = stop_lem h c link b s l in
      record {
        syncs = omega (arith, e.sync_count);
        queue = rw e.sync_q k.queue;
        streams = rw e.bis_handles k.streams;
        request = rw e.big_params k.request;
      }
  step-Slots (filter_frame payload) b s l k = other_fields h refl refl refl refl k
  step-Slots (keys_frame payload) b s l k =
      other_fields h (ground arith) (ground arith) (ground arith) (ground arith) k
  step-Slots (periodic on) b s l k = other_fields h refl refl refl refl k
  step-Slots clear b s l k = other_fields h refl refl refl refl k

  run-Slots :
      (xs : List Step) (b : Ble) (s : c.State) (l : link.State)
      → Slots h b
      → Slots h (run xs b s l).0
  unfolding run
  run-Slots [] b s l k = k
  run-Slots (x ∷ xs) b s l k = run-Slots xs _ _ _ (step-Slots x b s l k)

  initial-Slots : Slots h initial
  unfolding initial
  initial-Slots = record {
    syncs = omega arith;
    queue = omega arith;
    streams = omega arith;
    request = omega arith;
  }

  -- From boot on, whatever the controller sends and answers, whatever commands come and whenever the
  -- work items run: no more periodic syncs are counted than the controller can hold, at most four
  -- requests for one wait, the stream handles kept fit the controller's streams, and the request to
  -- join a broadcast fits the array that is built for it.
  pub run_from_boot :
      (xs : List Step) (s : c.State) (l : link.State)
      → let b = (run xs initial s l).0 in
        (b.sync_count ≤ max_syncs)
        × (length b.sync_q ≤ sync_q_len)
        × (length b.bis_handles ≤ h.max_bis)
        × (length b.big_params ≤ 25 + h.max_bis)
  run_from_boot xs s l =
      let k = run-Slots xs initial s l initial-Slots in (k.syncs, k.queue, k.streams, k.request)
