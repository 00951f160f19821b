-- ===== src/Ble/Batch/Tally.antt =====
-- What the batches of src/radio_ble.c count as forwarded and as dropped.
use nrf54l15_sniffer.Base.{
  ℕ, ◌≡◌, refl, sym, ap, ◌∙◌, length, List, [], ◌∷◌, ◌++◌, u32, ◌==◌, arith, Bool-cases, inl, inr,
}
use nrf54l15_sniffer.LinkApi.{LinkApi, Sent, recording}
use nrf54l15_sniffer.LinkApi.Carried.{taken, refused, taken-append, refused-append}
use nrf54l15_sniffer.Ble.{BleBatch, Counters}
use nrf54l15_sniffer.Ble.Batch.{flush_locked, settle, add, count_sent, must_close, max_entries}
use nrf54l15_sniffer.Ble.Batch.Format.{BlePacket}
use nrf54l15_sniffer.Ble.Batch.Invariant.{IsPacket}
use nrf54l15_sniffer.Ble.Batch.Delivery.{
  Books, packets_of, flush_locked-empty, flush_locked-sends, sent_frame, some_held,
  packets_of-sent_frame, flush-Books,
}
use nrf54l15_sniffer.Ble.Batch.Adding.{Account, appended-Books, joined}

-- The packets forwarded are those in the frames that the link took, and the packets dropped those in
-- the frames that it refused, modulo 2 ^ 32.
pub record Tally (sums : ℕ × ℕ) (log : List Sent) : Type 0 where
  pub forwarded_is : sums.0 ≡ u32 (taken packets_of log)
  pub dropped_is : sums.1 ≡ u32 (refused packets_of log)

sent-Tally :
    (k : Counters) (log : List Sent) (f : Sent) (n : ℕ)
    → length (packets_of f) ≡ n
    → Tally (k.forwarded, k.dropped) log
    → let k' = count_sent f.accepted n k in Tally (k'.forwarded, k'.dropped) (log ++ f ∷ [])
sent-Tally k log f n e t = record {
  forwarded_is = ground (arith, taken-append packets_of log (f ∷ []), t.forwarded_is, e);
  dropped_is = ground (arith, refused-append packets_of log (f ∷ []), t.dropped_is, e);
}

module _ (link : LinkApi) where
  pub flush-Tally :
      {s : BleBatch} (k : Counters) (l : link.State) {log : List Sent} {given : List BlePacket}
      (held : List BlePacket)
      → Books s log given held
      → Tally (k.forwarded, k.dropped) log
      → let (s', k', (l', log')) = flush_locked (recording link) s k (l, log) in
        Tally (k'.forwarded, k'.dropped) log'
  flush-Tally {s} k l {log} [] b t =
      rw (flush_locked-empty (recording link) s k (l, log) b.holds.count_is) t
  flush-Tally {s} k l {log} (p ∷ ps) b t =
      rw (flush_locked-sends (recording link) s k (l, log) (some_held b.holds)) (
        sent-Tally k log (sent_frame link s l) s.count
          (ap length (packets_of-sent_frame link p ps l b.holds) ∙ sym b.holds.count_is) t)

  settle-Tally :
      {s : BleBatch} (k : Counters) (l : link.State) {log : List Sent} {given : List BlePacket}
      (held : List BlePacket)
      → Books s log given held
      → Tally (k.forwarded, k.dropped) log
      → let (s', k', (l', log')) = settle (recording link) s k (l, log) in
        Tally (k'.forwarded, k'.dropped) log'
  unfolding settle
  settle-Tally {s} k l held b t = elim (Bool-cases (s.count == max_entries)) [
    | inl full ↦ rw full (flush-Tally k l held b t)
    | inr partial ↦ rw partial t
  ]

  pub add-Tally :
      {s : BleBatch} (k : Counters) (l : link.State) {log : List Sent} {given : List BlePacket}
      (p : BlePacket)
      → IsPacket p
      → Account s log given
      → Tally (k.forwarded, k.dropped) log
      → let (s', k', (l', log')) =
          add (recording link) p.timestamp_us p.orig_len p.flags p.kept s k (l, log) in
        Tally (k'.forwarded, k'.dropped) log'
  unfolding add
  add-Tally {s} k l p i a t = elim (Bool-cases (must_close s p.timestamp_us (length p.kept))) [
    | inl closes ↦
        let b = flush-Books link k l a.held a.books in
        rw closes
          (settle-Tally _ _ _ (appended-Books p i b (inl refl)) (flush-Tally k l a.held a.books t))
    | inr joins ↦ rw joins (settle-Tally _ _ _ (appended-Books p i a.books (joined p a joins)) t)
  ]
