-- ===== src/Batch/Flushes.antt =====
-- src/batch.c sends captured packets, and nothing else.
use nrf54l15_sniffer.Base.{length, if_holds, if◌then◌else◌, ltb, ◌==◌, Bool-cases, inl, inr}
use nrf54l15_sniffer.LinkApi.{LinkApi, recording}
use nrf54l15_sniffer.LinkApi.Flushes.{
  Flushes, nothing_sent, one_sent, Flushes-trans, one, batch_154,
}
use nrf54l15_sniffer.Batch.{
  Batch, Packet, flush_locked, settle, add, must_close, max_entries, max_psdu,
}

module _ (link : LinkApi) where
  pub flush_locked-Flushes :
      (s : Batch) (l : (recording link).State) → Flushes l.1 (flush_locked (recording link) s l).1.1
  unfolding flush_locked
  flush_locked-Flushes s l = elim (Bool-cases (s.count == 0)) [
    | inl empty ↦ rw empty (nothing_sent l.1)
    | inr some_left ↦ rw some_left (elim (Bool-cases (s.count == 1)) [
      | inl single ↦ rw single (one_sent l.1 _ one)
      | inr many ↦ rw many (one_sent l.1 _ batch_154)
    ])
  ]

  settle-Flushes :
      (s : Batch) (l : (recording link).State) → Flushes l.1 (settle (recording link) s l).1.1
  unfolding settle
  settle-Flushes s l =
      if_holds (λ (r : Batch × (recording link).State). Flushes l.1 r.1.1) (s.count == max_entries)
        (flush_locked-Flushes s l) (nothing_sent l.1)

  pub add-Flushes :
      (p : Packet) (s : Batch) (l : (recording link).State)
      → Flushes l.1 (add (recording link) p s l).1.1
  unfolding add
  add-Flushes p s l =
      let len = if ltb max_psdu (length p.psdu) then max_psdu else length p.psdu in
      Flushes-trans
        (if_holds (λ (r : Batch × (recording link).State). Flushes l.1 r.1.1) (must_close s p len)
          (flush_locked-Flushes s l) (nothing_sent l.1))
        (settle-Flushes _ _)
