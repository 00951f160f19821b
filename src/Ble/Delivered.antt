-- ===== src/Ble/Delivered.antt =====
-- What of the air reaches the host through src/radio_ble.c, in any run of its steps.
use nrf54l15_sniffer.Base.{
  ℕ, ◌+◌, ◌^◌, ◌<◌, ◌≡◌, refl, sym, subst, Bool, true, false, not, ◌&&◌, Bytes, length, get_or,
  List, [], ◌∷◌, ◌++◌, ltb, leb, ◌==◌, if◌then◌else◌, arith, if_holds, Bool-cases, inl, inr,
  append_assoc, append-nil,
}
use nrf54l15_sniffer.LinkApi.{LinkApi, Sent, recording}
use nrf54l15_sniffer.Hci.{Hci, Controller, reset}
use nrf54l15_sniffer.Ble.{Ble, BleBatch, initial, set_periodic, reset_counters, no_keys}
use nrf54l15_sniffer.Ble.Batch.{flush}
use nrf54l15_sniffer.Ble.Batch.Format.{BlePacket}
use nrf54l15_sniffer.Ble.Batch.Invariant.{initial-Holds}
use nrf54l15_sniffer.Ble.Batch.Adding.{Account, flush-Account}
use nrf54l15_sniffer.Ble.Command.{note_command_result}
use nrf54l15_sniffer.Ble.Forward.{receive, h4_event, h4_iso}
use nrf54l15_sniffer.Ble.Capture.{heard, sorted}
use nrf54l15_sniffer.Ble.Delivery.{capture_of, forward-Account}
use nrf54l15_sniffer.Ble.Setup.{stop, set_filter}
use nrf54l15_sniffer.Ble.Unbatched.{
  core-set_keys, core-send_command, core-sync_work_fn, core-big_work_fn, core-iso_path_work_fn,
  batch_of_core, batch-start,
}
use nrf54l15_sniffer.Ble.Life.{
  Step, packet, timer, sync_work, big_work, iso_path_work, came_up, start_scan, stop_scan,
  filter_frame, keys_frame, periodic, clear, step, run,
}

-- Times are a `uint64_t`, and the length of a packet with its H4 byte a `uint16_t`.
abbrev pub InRange : List Step → Type 0
InRange [] = Unit {0}
InRange (packet ts now h4 buf ∷ xs) = (ts < 2 ^ 64) × (length buf + 1 < 2 ^ 16) × InRange xs
InRange (_ ∷ xs) = InRange xs

abbrev pub TimeFits : Step → Type 0
TimeFits (packet ts now h4 buf) = (ts < 2 ^ 64) × (length buf + 1 < 2 ^ 16)
TimeFits _ = Unit {0}

pub InRange-cons : (x : Step) (xs : List Step) → InRange (x ∷ xs) → TimeFits x × InRange xs
InRange-cons (packet ts now h4 buf) xs h = ((h.0, h.1), h.2)
InRange-cons _ xs h = (tt, h)

pub at_boot : Account initial.batch [] []
at_boot = record {
  held = [];
  books = record { holds = initial-Holds; conserved = refl; short = tt };
  resting = unfold initial in omega arith;
}

-- A batch that does not change keeps its account.
same-Account :
    (s s' : BleBatch) {log : List Sent} {given : List BlePacket}
    → s' ≡ s
    → Account s log given
    → Account s' log given
same-Account s s' {log} {given} e a = subst (λ x. Account x log given) (sym e) a

module _ (h : Hci) where
  -- What a step adds to the capture: a packet that the radio heard while a scan runs.
  abbrev pub heard_of : Step → Ble → List BlePacket
  heard_of (packet ts now h4 buf) b =
      if b.running && heard h h4 buf
      then capture_of ts (if h4 == h.h4_iso then h4_iso else h4_event) buf ∷ []
      else []
  heard_of _ b = []

  module _ (link : LinkApi) where
    sorted-Account :
        (ts now h4 : ℕ) (buf : Bytes) (b : Ble) (l : link.State) {log : List Sent}
        {given : List BlePacket}
        → ts < 2 ^ 64
        → length buf + 1 < 2 ^ 16
        → Account b.batch log given
        → let (b', (l', log')) = sorted h (recording link) ts now h4 buf b (l, log) in
          Account b'.batch log' (given ++ heard_of (packet ts now h4 buf) b)
    sorted-Account ts now h4 buf b l t n a = elim (Bool-cases (b.running && h4 == h.h4_iso)) [
      | inl iso ↦
          let on : (b.running && heard h h4 buf) ≡ true = ground arith in
          let is_iso : (h4 == h.h4_iso) ≡ true = ground arith in
          rw (iso, on, is_iso) (forward-Account h link ts now buf h4_iso b l t n a)
      | inr e1 ↦ rw e1 (elim (Bool-cases is_event) [
        | inl event ↦
            let on : (b.running && heard h h4 buf) ≡ true = ground arith in
            let not_iso : (h4 == h.h4_iso) ≡ false = ground arith in
            rw (event, on, not_iso) (forward-Account h link ts now buf h4_event b l t n a)
        | inr e2 ↦
            let off : (b.running && heard h h4 buf) ≡ false = ground arith in
            rw (e2, off, append-nil) a
      ])
    ]
      where
        is_event : Bool
        is_event =
            b.running
            && h4 == h.h4_evt
            && ltb 0 (length buf)
            && not (get_or buf 0 0 == h.cmd_complete)
            && not (get_or buf 0 0 == h.cmd_status)

    receive-Account :
        (ts now h4 : ℕ) (buf : Bytes) (b : Ble) (l : link.State) {log : List Sent}
        {given : List BlePacket}
        → ts < 2 ^ 64
        → length buf + 1 < 2 ^ 16
        → Account b.batch log given
        → let (b', (l', log')) = receive h (recording link) ts now h4 buf b (l, log) in
          Account b'.batch log' (given ++ heard_of (packet ts now h4 buf) b)
    unfolding receive
    receive-Account ts now h4 buf b l {log} {given} t n a =
        if_holds
          (λ (x : Ble).
            let (b', (l', log')) = sorted h (recording link) ts now h4 buf x (l, log) in
            Account b'.batch log' (given ++ heard_of (packet ts now h4 buf) b))
          (h4 == h.h4_evt && leb 2 (length buf))
          (sorted-Account ts now h4 buf (record b { pending = note_command_result h buf b.pending })
            l t n a)
          (sorted-Account ts now h4 buf b l t n a)

module _ (h : Hci) (c : Controller) (link : LinkApi) where
  flushed-Account :
      (b : Ble) (l : link.State) {log : List Sent} {given : List BlePacket}
      → Account b.batch log given
      → let (b', (l', log')) = flush (recording link) b (l, log) in Account b'.batch log' given
  unfolding flush
  flushed-Account b l a = flush-Account link b.counters l a

  stop-Account :
      (b : Ble) (s : c.State) (l : link.State) {log : List Sent} {given : List BlePacket}
      → Account b.batch log given
      → let (code, b', s', (l', log')) = stop h c (recording link) b s (l, log) in
        Account b'.batch log' given
  unfolding stop
  stop-Account b s l a =
      same-Account _ _ (batch_of_core _ _ (core-send_command h c reset [] _ s))
        (flushed-Account (record b { running = false; keys = no_keys; key_count = 0 }) l a)

  pub step-Account :
      (x : Step) (b : Ble) (s : c.State) (l : link.State) {log : List Sent} {given : List BlePacket}
      → TimeFits x
      → Account b.batch log given
      → let (b', s', (l', log')) = step h c (recording link) x b s (l, log) in
        Account b'.batch log' (given ++ heard_of h x b)
  unfolding step set_filter set_periodic reset_counters
  step-Account (packet ts now h4 buf) b s l t a = receive-Account h link ts now h4 buf b l t.0 t.1 a
  step-Account timer b s l t a = rw append-nil (flushed-Account b l a)
  step-Account sync_work b s l t a =
      rw append-nil (same-Account _ _ (batch_of_core _ _ (core-sync_work_fn h c b s)) a)
  step-Account (big_work now) b s l t a =
      rw append-nil (same-Account _ _ (batch_of_core _ _ (core-big_work_fn h c now b s)) a)
  step-Account iso_path_work b s l t a =
      rw append-nil (same-Account _ _ (batch_of_core _ _ (core-iso_path_work_fn h c b s)) a)
  step-Account came_up b s l t a = rw append-nil a
  step-Account (start_scan interval window phys) b s l t a =
      rw append-nil (same-Account _ _ (batch-start h c interval window phys b s) a)
  step-Account stop_scan b s l t a = rw append-nil (stop-Account b s l a)
  step-Account (filter_frame payload) b s l t a = rw append-nil a
  step-Account (keys_frame payload) b s l t a =
      rw append-nil (same-Account _ _ (batch_of_core _ _ (core-set_keys payload b)) a)
  step-Account (periodic on) b s l t a = rw append-nil a
  step-Account clear b s l t a = rw append-nil a

module _ (h : Hci) (c : Controller) (link : LinkApi) where
  -- The packets that the radio heard in a run while a scan was on, in order.
  unfoldable pub heard_by : List Step → Ble → c.State → link.State → List BlePacket
  heard_by [] b s l = []
  heard_by (x ∷ xs) b s l =
      let (b', s', l') = step h c link x b s l in heard_of h x b ++ heard_by xs b' s' l'

module _ (h : Hci) (c : Controller) (link : LinkApi) where
  run-Account :
      (xs : List Step) (b : Ble) (s : c.State) (l : link.State) {log : List Sent}
      (given : List BlePacket)
      → InRange xs
      → Account b.batch log given
      → let (b', s', (l', log')) = run h c (recording link) xs b s (l, log) in
        Account b'.batch log' (given ++ heard_by h c (recording link) xs b s (l, log))
  unfolding run heard_by
  run-Account [] b s l given t a = rw append-nil a
  run-Account (x ∷ xs) b s l {log} given t a =
      let (now, later) = InRange-cons x xs t in
      rw (← append_assoc given (heard_of h x b) _)
        (run-Account xs _ _ _ _ later (step-Account h c link x b s l now a))

  -- From boot on, whatever the controller and the host do and whatever the link refuses: the packets
  -- that the host reads from the frames handed to the link, followed by those in the open batch, are
  -- the packets that the radio heard while a scan ran, in order, each once, with its time to the
  -- microsecond, its length, its first 300 bytes and a flag if it had more; no frame is longer than
  -- 2048 bytes, and fewer than 32 packets are held.
  pub run_delivers :
      (xs : List Step) (s : c.State) (l : link.State)
      → InRange xs
      → let (b, s', (l', log)) = run h c (recording link) xs initial s (l, []) in
        Account b.batch log (heard_by h c (recording link) xs initial s (l, []))
  run_delivers xs s l t = run-Account xs initial s l [] t at_boot
