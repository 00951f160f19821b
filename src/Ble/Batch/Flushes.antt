-- ===== src/Ble/Batch/Flushes.antt =====
-- The batches of src/radio_ble.c send captured packets, and nothing else.
use nrf54l15_sniffer.Base.{ℕ, Bytes, length, if_holds, ◌==◌, Bool-cases, inl, inr}
use nrf54l15_sniffer.LinkApi.{LinkApi, recording}
use nrf54l15_sniffer.LinkApi.Flushes.{
  Flushes, nothing_sent, one_sent, Flushes-trans, one, batch_ble,
}
use nrf54l15_sniffer.Ble.{BleBatch, Counters}
use nrf54l15_sniffer.Ble.Batch.{flush_locked, settle, add, must_close, max_entries}

module _ (link : LinkApi) where
  pub flush_locked-Flushes :
      (s : BleBatch) (k : Counters) (l : (recording link).State)
      → Flushes l.1 (flush_locked (recording link) s k l).2.1
  unfolding flush_locked
  flush_locked-Flushes s k l = elim (Bool-cases (s.count == 0)) [
    | inl empty ↦ rw empty (nothing_sent l.1)
    | inr some_left ↦ rw some_left (elim (Bool-cases (s.count == 1)) [
      | inl single ↦ rw single (one_sent l.1 _ one)
      | inr many ↦ rw many (one_sent l.1 _ batch_ble)
    ])
  ]

  settle-Flushes :
      (s : BleBatch) (k : Counters) (l : (recording link).State)
      → Flushes l.1 (settle (recording link) s k l).2.1
  unfolding settle
  settle-Flushes s k l =
      if_holds (λ (r : BleBatch × Counters × (recording link).State). Flushes l.1 r.2.1)
        (s.count == max_entries) (flush_locked-Flushes s k l) (nothing_sent l.1)

  pub add-Flushes :
      (ts orig_len flags : ℕ) (kept : Bytes) (s : BleBatch) (k : Counters)
      (l : (recording link).State)
      → Flushes l.1 (add (recording link) ts orig_len flags kept s k l).2.1
  unfolding add
  add-Flushes ts orig_len flags kept s k l =
      Flushes-trans
        (if_holds (λ (r : BleBatch × Counters × (recording link).State). Flushes l.1 r.2.1)
          (must_close s ts (length kept)) (flush_locked-Flushes s k l) (nothing_sent l.1))
        (settle-Flushes _ _ _)
