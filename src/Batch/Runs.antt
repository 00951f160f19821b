-- ===== src/Batch/Runs.antt =====
-- Any run of src/batch.c: the calls of the rest of the firmware in any order.
use nrf54l15_sniffer.Base.{
  ◌⊎◌, ◌^◌, ◌<◌, ◌≡◌, ◌≢◌, refl, List, [], ◌∷◌, ◌++◌, arith, append_assoc, append-nil, ◌==◌, true,
  Bool-cases, inl, inr,
}
use native.Mathlib.Decide.{dec_lt}
use nrf54l15_sniffer.LinkApi.{LinkApi, Sent, recording}
use nrf54l15_sniffer.Batch.{
  Batch, Packet, initial, flush_locked, linger_expired, flush, settle, add, max_entries,
  reset_counters,
}
use nrf54l15_sniffer.Batch.Invariant.{clamp}
use nrf54l15_sniffer.Batch.Account.{
  Account, flush-Account, linger_expired-Account, add-Account, initial-Account,
}

-- What the rest of the firmware does to the batcher: the radio's packets, the flushes that the
-- control channel asks for, the linger timer, and the clearing of the drop count by GET_INFO.
pub data Op : Type 0 where
  give : Packet → Op
  flush_now : Op
  timer : Op
  clear : Op

abbrev pub given_by : List Op → List Packet
given_by [] = []
given_by (give p ∷ ops) = clamp p ∷ given_by ops
given_by (flush_now ∷ ops) = given_by ops
given_by (timer ∷ ops) = given_by ops
given_by (clear ∷ ops) = given_by ops

-- Every time stamp is a `uint64_t`.
abbrev pub InRange : List Op → Type 0
InRange [] = Unit {0}
InRange (give p ∷ ops) = (p.timestamp_us < 2 ^ 64) × InRange ops
InRange (flush_now ∷ ops) = InRange ops
InRange (timer ∷ ops) = InRange ops
InRange (clear ∷ ops) = InRange ops

-- The drop count is not cleared.
abbrev pub Counting : List Op → Type 0
Counting [] = Unit {0}
Counting (clear ∷ ops) = ⊥
Counting (_ ∷ ops) = Counting ops

unfoldable pub run : (link : LinkApi) → List Op → Batch → link.State → Batch × link.State
run link [] s l = (s, l)
run link (give p ∷ ops) s l = let (s', l') = add link p s l in run link ops s' l'
run link (flush_now ∷ ops) s l = let (s', l') = flush link s l in run link ops s' l'
run link (timer ∷ ops) s l = let (s', l') = linger_expired link s l in run link ops s' l'
run link (clear ∷ ops) s l = run link ops (reset_counters s) l

module _ (link : LinkApi) where
  run-Account :
      (ops : List Op) (given : List Packet) {s : Batch} (l : link.State) {log : List Sent}
      → InRange ops
      → Counting ops
      → Account s log given
      → let (s', (l', log')) = run (recording link) ops s (l, log) in
        Account s' log' (given ++ given_by ops)
  unfolding run
  run-Account [] given l t c a = rw append-nil a
  run-Account (give p ∷ ops) given l t c a =
      rw (← append_assoc given (clamp p ∷ []) (given_by ops))
        (run-Account ops _ _ t.1 c (add-Account link l p t.0 a))
  run-Account (flush_now ∷ ops) given l t c a = run-Account ops given _ t c (flush-Account link l a)
  run-Account (timer ∷ ops) given l t c a =
      run-Account ops given _ t c (linger_expired-Account link l a)
  run-Account (clear ∷ ops) given l t c a = absurd c

  -- From boot, whatever packets are added, however often the batch is flushed, by a call or by its
  -- timer, and whatever the link refuses, as long as the drop count is not cleared: the packets that
  -- the host reads from the frames handed to the link, followed by those still held, are the packets
  -- given, in order, each with its time, signal and first 127 bytes; the drop count is the number of
  -- packets in refused frames, modulo 2 ^ 32; no frame is longer than 2048 bytes, and fewer than 32
  -- packets are held.
  pub run_accounts :
      (l : link.State) (ops : List Op)
      → InRange ops
      → Counting ops
      → let (s, (l', log)) = run (recording link) ops initial (l, []) in
        Account s log (given_by ops)
  run_accounts l ops t c = run-Account ops [] l t c initial-Account

  count-flush_locked : (s : Batch) (l : link.State) → (flush_locked link s l).0.count ≡ 0
  unfolding flush_locked
  count-flush_locked s l = ground arith

  -- A batch that holds packets has its timer running.
  abbrev Timed : Batch → Type 0
  Timed s = s.count ≢ 0 → s.linger ≡ true

  settle-Timed : (s : Batch) (l : link.State) → Timed (settle link s l).0
  unfolding settle
  settle-Timed s l = elim (Bool-cases (s.count == max_entries)) [
    | inl full ↦ rw full (λ ne. absurd (ne (count-flush_locked s l)))
    | inr partial ↦ rw partial (λ ne. refl)
  ]

  run-Timed : (ops : List Op) (s : Batch) (l : link.State) → Timed s → Timed (run link ops s l).0
  unfolding run
  run-Timed [] s l h = h
  run-Timed (give p ∷ ops) s l h = run-Timed ops _ _ (unfold add in settle-Timed _ _)
  run-Timed (flush_now ∷ ops) s l h =
      run-Timed ops _ _ (unfold flush in λ ne. absurd (ne (count-flush_locked _ l)))
  run-Timed (timer ∷ ops) s l h =
      run-Timed ops _ _ (unfold linger_expired in λ ne. absurd (ne (count-flush_locked _ l)))
  run-Timed (clear ∷ ops) s l h = run-Timed ops _ _ (unfold reset_counters in h)

  -- From boot, whatever the calls: between any two of them the batch is empty or its linger timer is
  -- pending, so that no packet waits for company for ever.
  pub run_keeps_timer :
      (l : link.State) (ops : List Op)
      → let s = (run link ops initial l).0 in (s.count ≡ 0) ⊎ (s.linger ≡ true)
  run_keeps_timer l ops = elim (dec_lt 0 s.count) [
    | no empty ↦ inl (omega arith)
    | yes some_held ↦
        inr (run-Timed ops initial l (unfold initial in λ ne. absurd (ne refl)) (λ i. omega arith))
  ]
    where
      s : Batch
      s = (run link ops initial l).0
