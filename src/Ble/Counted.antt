-- ===== src/Ble/Counted.antt =====
-- The counts of src/radio_ble.c, held against the frames that it hands to the link.
use nrf54l15_sniffer.Base.{
  ℕ, ◌+◌, ◌^◌, ◌<◌, ◌≡◌, refl, sym, subst, Bool, true, false, not, ◌&&◌, ◌⊎◌, Bytes, length, get_or,
  List, [], ◌∷◌, ltb, leb, u16, u32, ◌==◌, if◌then◌else◌, arith, if_holds,
}
use nrf54l15_sniffer.LinkApi.{LinkApi, Sent, recording}
use nrf54l15_sniffer.LinkApi.Carried.{taken, refused}
use nrf54l15_sniffer.Hci.{Hci, Controller, reset}
use nrf54l15_sniffer.Ble.{Ble, initial, set_periodic, no_keys}
use nrf54l15_sniffer.Ble.Batch.{flush, max_packet}
use nrf54l15_sniffer.Ble.Batch.Format.{BlePacket}
use nrf54l15_sniffer.Ble.Batch.Delivery.{packets_of, set_linger-Books}
use nrf54l15_sniffer.Ble.Batch.Adding.{Account}
use nrf54l15_sniffer.Ble.Batch.Tally.{Tally, flush-Tally, add-Tally}
use nrf54l15_sniffer.Ble.Command.{note_command_result}
use nrf54l15_sniffer.Ble.Forward.{forward, receive, notice, count_oversized, h4_event, h4_iso}
use nrf54l15_sniffer.Ble.Delivery.{packed, packed-IsPacket}
use nrf54l15_sniffer.Ble.Delivered.{InRange, TimeFits, InRange-cons, at_boot, step-Account}
use nrf54l15_sniffer.Ble.Setup.{stop, set_filter}
use nrf54l15_sniffer.Ble.Unbatched.{
  core, sums, sums_of_core, sums-start, core-noticed, batch_of_core, core-set_keys,
  core-send_command, core-sync_work_fn, core-big_work_fn, core-iso_path_work_fn,
}
use nrf54l15_sniffer.Ble.Life.{
  Step, packet, timer, sync_work, big_work, iso_path_work, came_up, start_scan, stop_scan,
  filter_frame, keys_frame, periodic, clear, step, run,
}
use nrf54l15_sniffer.Ble.Accounts.{clears, true_is_not_false, Counting, run_balances}

-- Counts that do not change keep their tally.
same-Tally : (j j' : ℕ × ℕ) {log : List Sent} → j' ≡ j → Tally j log → Tally j' log
same-Tally j j' {log} e t = subst (λ x. Tally x log) (sym e) t

module _ (h : Hci) (link : LinkApi) where
  forward-Tally :
      (ts now : ℕ) (buf : Bytes) (type : ℕ) (b : Ble) (l : link.State) {log : List Sent}
      {given : List BlePacket}
      → ts < 2 ^ 64
      → length buf + 1 < 2 ^ 16
      → Account b.batch log given
      → Tally (sums b) log
      → let (b', (l', log')) = forward h (recording link) ts now buf type b (l, log) in
        Tally (sums b') log'
  unfolding forward
  forward-Tally ts now buf type b l {log} {given} t n a k =
      add-Tally link noticed.counters l (packed ts type buf) (packed-IsPacket ts type buf t n)
        (subst (λ s. Account s log given) (sym (batch_of_core _ _ same)) a)
        (same-Tally _ _ (sums_of_core _ _ same) k)
    where
      noticed : Ble
      noticed =
          let sized =
            if ltb max_packet (u16 (length buf + 1))
            then count_oversized h (recording link) b
            else b in
          if type == h4_event then notice h (recording link) now buf sized else sized

      same : core noticed ≡ core b
      same = core-noticed h (recording link) now buf type b

  receive-Tally :
      (ts now h4 : ℕ) (buf : Bytes) (b : Ble) (l : link.State) {log : List Sent}
      {given : List BlePacket}
      → ts < 2 ^ 64
      → length buf + 1 < 2 ^ 16
      → Account b.batch log given
      → Tally (sums b) log
      → let (b', (l', log')) = receive h (recording link) ts now h4 buf b (l, log) in
        Tally (sums b') log'
  unfolding receive
  receive-Tally ts now h4 buf b l {log} {given} t n a k =
      if_holds counted (answered.running && h4 == h.h4_iso)
        (forward-Tally ts now buf h4_iso answered l t n account tally)
        (if_holds counted is_event (forward-Tally ts now buf h4_event answered l t n account tally)
          tally)
    where
      counted : Ble × (link.State × List Sent) → Type 0
      counted r = Tally (sums r.0) r.1.1

      answers : Bool
      answers = h4 == h.h4_evt && leb 2 (length buf)

      answered : Ble
      answered =
          if h4 == h.h4_evt && leb 2 (length buf)
          then record b { pending = note_command_result h buf b.pending }
          else b

      account : Account answered.batch log given
      account = if_holds (λ (x : Ble). Account x.batch log given) answers a a

      tally : Tally (sums answered) log
      tally = if_holds (λ (x : Ble). Tally (sums x) log) answers k k

      is_event : Bool
      is_event =
          answered.running
          && h4 == h.h4_evt
          && ltb 0 (length buf)
          && not (get_or buf 0 0 == h.cmd_complete)
          && not (get_or buf 0 0 == h.cmd_status)

module _ (h : Hci) (c : Controller) (link : LinkApi) where
  flushed-Tally :
      (b : Ble) (l : link.State) {log : List Sent} {given : List BlePacket}
      → Account b.batch log given
      → Tally (sums b) log
      → let (b', (l', log')) = flush (recording link) b (l, log) in Tally (sums b') log'
  unfolding flush
  flushed-Tally b l a k = flush-Tally link b.counters l a.held (set_linger-Books false a.books) k

  stop-Tally :
      (b : Ble) (s : c.State) (l : link.State) {log : List Sent} {given : List BlePacket}
      → Account b.batch log given
      → Tally (sums b) log
      → let (code, b', s', (l', log')) = stop h c (recording link) b s (l, log) in
        Tally (sums b') log'
  unfolding stop
  stop-Tally b s l a k =
      same-Tally _ _ (sums_of_core _ _ (core-send_command h c reset [] _ s))
        (flushed-Tally (record b { running = false; keys = no_keys; key_count = 0 }) l a k)

  step-Tally :
      (x : Step) (b : Ble) (s : c.State) (l : link.State) {log : List Sent} {given : List BlePacket}
      → TimeFits x
      → clears x ≡ false
      → Account b.batch log given
      → Tally (sums b) log
      → let (b', s', (l', log')) = step h c (recording link) x b s (l, log) in Tally (sums b') log'
  unfolding step set_filter set_periodic
  step-Tally (packet ts now h4 buf) b s l t n a k =
      receive-Tally h link ts now h4 buf b l t.0 t.1 a k
  step-Tally timer b s l t n a k = flushed-Tally b l a k
  step-Tally sync_work b s l t n a k =
      same-Tally _ _ (sums_of_core _ _ (core-sync_work_fn h c b s)) k
  step-Tally (big_work now) b s l t n a k =
      same-Tally _ _ (sums_of_core _ _ (core-big_work_fn h c now b s)) k
  step-Tally iso_path_work b s l t n a k =
      same-Tally _ _ (sums_of_core _ _ (core-iso_path_work_fn h c b s)) k
  step-Tally came_up b s l t n a k = k
  step-Tally (start_scan interval window phys) b s l t n a k =
      same-Tally _ _ (sums-start h c interval window phys b s) k
  step-Tally stop_scan b s l t n a k = stop-Tally b s l a k
  step-Tally (filter_frame payload) b s l t n a k = k
  step-Tally (keys_frame payload) b s l t n a k =
      same-Tally _ _ (sums_of_core _ _ (core-set_keys payload b)) k
  step-Tally (periodic on) b s l t n a k = k
  step-Tally clear b s l t n a k = absurd (true_is_not_false n)

  run-Tally :
      (xs : List Step) (b : Ble) (s : c.State) (l : link.State) {log : List Sent}
      {given : List BlePacket}
      → InRange xs
      → Counting h c (recording link) xs
      → Account b.batch log given
      → Tally (sums b) log
      → let (b', s', (l', log')) = run h c (recording link) xs b s (l, log) in Tally (sums b') log'
  unfolding run
  run-Tally [] b s l t n a k = k
  run-Tally (x ∷ xs) b s l t n a k =
      let (now, later) = InRange-cons x xs t in
      run-Tally xs _ _ _ later n.1 (step-Account h c link x b s l now a)
        (step-Tally x b s l now n.0 a k)

  -- From boot on, whatever the controller and the host do and whatever the link refuses, as long as the
  -- counters are not cleared: modulo 2 ^ 32, the packets counted as forwarded are those in the frames
  -- that the link took, those counted as dropped are those in the frames that it refused, and with
  -- those in the open batch they are the packets captured; a batch that holds some has its linger
  -- timer pending, so that no packet waits for company for ever.
  pub run_counts :
      (xs : List Step) (s : c.State) (l : link.State)
      → InRange xs
      → Counting h c (recording link) xs
      → let (b, s', (l', log)) = run h c (recording link) xs initial s (l, []) in
        (b.counters.forwarded ≡ u32 (taken packets_of log))
        × (b.counters.dropped ≡ u32 (refused packets_of log))
        × (u32 (taken packets_of log + refused packets_of log + b.batch.count)
            ≡ u32 b.counters.captured)
        × ((b.batch.count ≡ 0) ⊎ (b.batch.linger ≡ true))
  run_counts xs s l t n =
      let (balance, held, timed) = run_balances h c (recording link) xs s (l, []) n in
      (k.forwarded_is, k.dropped_is, omega (arith, balance, k.forwarded_is, k.dropped_is), timed)
    where
      k :
          let (b, s', (l', log)) = run h c (recording link) xs initial s (l, []) in
          Tally (sums b) log
      k =
          run-Tally xs initial s l t n at_boot
            (record { forwarded_is = unfold initial in refl; dropped_is = unfold initial in refl })
