-- ===== src/Ble/Unbatched.antt =====
-- What src/radio_ble.c does without touching the open batch, starting a scan or ending one: noticing
-- events, the work items, and every command.
use nrf54l15_sniffer.Base.{
  ℕ, ◌+◌, ◌≡◌, Bool, false, refl, ap, ◌∙◌, not, ◌||◌, Bytes, length, List, [], ◌∷◌, ltb, leb, u16,
  ◌==◌, if◌then◌else◌, arith, if_holds, Bool-cases, inl, inr, Code, is_ok,
}
use nrf54l15_sniffer.LinkApi.{LinkApi}
use nrf54l15_sniffer.Hci.{
  Hci, Controller, Opcode, le_per_adv_create_sync, le_big_create_sync, le_setup_iso_path,
}
use nrf54l15_sniffer.Ble.{Ble, BleBatch, SyncReq, max_syncs}
use nrf54l15_sniffer.Ble.Batch.{max_packet}
use nrf54l15_sniffer.Ble.Command.{send_command, hci_command}
use nrf54l15_sniffer.Ble.Events.{
  note_counts, note_subevent, note_big_established, note_biginfo, note_periodic,
}
use nrf54l15_sniffer.Ble.Forward.{notice, count_oversized, h4_event}
use nrf54l15_sniffer.Ble.Setup.{start, set_keys, scan_started}
use nrf54l15_sniffer.Ble.Setup.Stop.{SameScan, send_command-SameScan, start_lem}
use nrf54l15_sniffer.Ble.Work.{
  sync_loop, sync_work_fn, big_work_fn, path_loop, path_params, sync_params, iso_path_work_fn,
}

abbrev pub Core : Type 0
Core = BleBatch × Bool × Bool × ℕ × ℕ

-- The open batch, whether a scan runs, whether the controller came up, and the packets forwarded and
-- dropped.
abbrev pub core : Ble → Core
core b = (b.batch, b.running, b.ready, b.counters.forwarded, b.counters.dropped)

abbrev pub sums : Ble → ℕ × ℕ
sums b = (b.counters.forwarded, b.counters.dropped)

abbrev Cored : Core → Ble → Type 0
Cored k b = core b ≡ k

pub core-set_keys : (payload : Bytes) (b : Ble) → core (set_keys payload b).1 ≡ core b
unfolding set_keys
core-set_keys payload b = ground arith

-- What is the same of two states is the same of their batches.
pub batch_of_core : (j k : Core) → j ≡ k → j.0 ≡ k.0
batch_of_core j k e = ap (λ (k : Core). k.0) e

abbrev pub sums_in : Core → ℕ × ℕ
sums_in k = (k.3, k.4)

pub sums_of_core : (j k : Core) → j ≡ k → sums_in j ≡ sums_in k
sums_of_core j k e = ap sums_in e

module _ (h : Hci) where
  core-note_counts : (now : ℕ) (evt : Bytes) (b : Ble) → core (note_counts h now evt b) ≡ core b
  unfolding note_counts note_subevent note_big_established
  core-note_counts now evt b = ground arith

  core-note_periodic : (hci : Bytes) (b : Ble) → core (note_periodic hci b) ≡ core b
  unfolding note_periodic
  core-note_periodic hci b = ground arith

  core-note_biginfo : (now : ℕ) (hci : Bytes) (b : Ble) → core (note_biginfo h now hci b) ≡ core b
  unfolding note_biginfo
  core-note_biginfo now hci b = ground arith

  core-notice :
      (link : LinkApi) (now : ℕ) (evt : Bytes) (b : Ble) → core (notice h link now evt b) ≡ core b
  core-notice link now evt b =
      let counted = core-note_counts now evt b in
      if_holds (λ x. Cored (core b) x) (note_counts h now evt b).periodic_enabled
        (core-note_biginfo now _ _ ∙ core-note_periodic _ _ ∙ counted) counted

  -- Whatever `forward` counts and notices of a packet first.
  pub core-noticed :
      (link : LinkApi) (now : ℕ) (buf : Bytes) (type : ℕ) (b : Ble)
      → let sized = if ltb max_packet (u16 (length buf + 1)) then count_oversized h link b else b in
        core (if type == h4_event then notice h link now buf sized else sized) ≡ core b
  core-noticed link now buf type b =
      if_holds (λ x. Cored (core b) x) (type == h4_event) (core-notice link now buf sized ∙ same)
        same
    where
      sized : Ble
      sized = if ltb max_packet (u16 (length buf + 1)) then count_oversized h link b else b

      same : core sized ≡ core b
      same = if_holds (λ x. Cored (core b) x) (ltb max_packet (u16 (length buf + 1))) refl refl

core-SameScan : (b b' : Ble) → SameScan b b' → core b' ≡ core b
core-SameScan b b' same = ap (λ x. core x) same

module _ (h : Hci) (c : Controller) where
  pub core-send_command :
      (op : Opcode) (params : Bytes) (b : Ble) (s : c.State)
      → core (send_command h c op params b s).1 ≡ core b
  core-send_command op params b s = core-SameScan b _ (send_command-SameScan h c op params b s)

  core-sync_loop :
      (reqs : List SyncReq) (b : Ble) (s : c.State) → core (sync_loop h c reqs b s).0 ≡ core b
  unfolding sync_loop send_command
  core-sync_loop [] b s = refl
  core-sync_loop (req ∷ reqs) b s =
      if_holds (λ (r : Ble × c.State). core r.0 ≡ core b)
        (not b.running || not b.periodic_enabled || leb max_syncs b.sync_count)
        (core-sync_loop reqs b s)
        (core-sync_loop reqs _ _ ∙ if_holds (λ x. Cored (core b) x) (is_ok r.0) asked asked)
    where
      r : Code × Ble × c.State
      r = hci_command h c le_per_adv_create_sync (sync_params req) b s

      asked : core r.1 ≡ core b
      asked = core-send_command le_per_adv_create_sync (sync_params req) b s

  pub core-sync_work_fn : (b : Ble) (s : c.State) → core (sync_work_fn h c b s).0 ≡ core b
  unfolding sync_work_fn
  core-sync_work_fn b s = core-sync_loop b.sync_q _ s

  pub core-big_work_fn :
      (now : ℕ) (b : Ble) (s : c.State) → core (big_work_fn h c now b s).0 ≡ core b
  unfolding big_work_fn send_command
  core-big_work_fn now b s = elim (Bool-cases (not b.running)) [
    | inl stopped ↦ rw stopped refl
    | inr running ↦
        rw running
          (elim (Bool-cases (is_ok r.0)) [ inl ok ↦ rw ok asked | inr refused ↦ rw refused asked ])
  ]
    where
      r : Code × Ble × c.State
      r = hci_command h c le_big_create_sync b.big_params (record b { big_work = false }) s

      asked : core r.1 ≡ core b
      asked = core-send_command le_big_create_sync b.big_params (record b { big_work = false }) s

  core-path_loop : (hs : List ℕ) (b : Ble) (s : c.State) → core (path_loop h c hs b s).0 ≡ core b
  unfolding path_loop
  core-path_loop [] b s = refl
  core-path_loop (handle ∷ hs) b s =
      if_holds (λ (r : Ble × c.State). core r.0 ≡ core b) b.running
        (core-path_loop hs _ _ ∙ core-send_command le_setup_iso_path (path_params h c handle) b s)
        refl

  pub core-iso_path_work_fn : (b : Ble) (s : c.State) → core (iso_path_work_fn h c b s).0 ≡ core b
  unfolding iso_path_work_fn
  core-iso_path_work_fn b s = core-path_loop b.bis_handles _ s

  pub batch-start :
      (interval window phys : ℕ) (b : Ble) (s : c.State)
      → (start h c interval window phys b s).1.batch ≡ b.batch
  unfolding scan_started
  batch-start interval window phys b s =
      ap (λ (x : Ble). x.batch) (start_lem h c interval window phys b s).2
      ∙ if_holds (λ (x : Ble). x.batch ≡ b.batch) (is_ok (start h c interval window phys b s).0)
          refl refl

  pub sums-start :
      (interval window phys : ℕ) (b : Ble) (s : c.State)
      → sums (start h c interval window phys b s).1 ≡ sums b
  unfolding scan_started
  sums-start interval window phys b s =
      ap sums (start_lem h c interval window phys b s).2
      ∙ if_holds (λ (x : Ble). sums x ≡ sums b) (is_ok (start h c interval window phys b s).0) refl
          refl
