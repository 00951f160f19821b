-- ===== src/Ble/Books.antt =====
-- The packets of src/radio_ble.c: each one captured is forwarded, dropped or held, and none is held
-- for ever.
use nrf54l15_sniffer.Base.{
  ℕ, ◌+◌, ◌≤◌, ◌<◌, ◌≡◌, refl, true, Bytes, length, u8, u32, ◌==◌, arith, Bool-cases, inl, inr, ◌⊎◌,
}
use nrf54l15_sniffer.LinkApi.{LinkApi}
use nrf54l15_sniffer.Ble.{BleBatch, Counters}
use nrf54l15_sniffer.Ble.Batch.{
  add, append_entry, open_at, flush_locked, settle, must_close, max_entries,
}

-- Fewer packets than a batch takes are held, a batch that holds some has its timer pending, and the
-- counts agree, modulo 2 ^ 32.
pub record Balanced (s : BleBatch) (k : Counters) : Type 0 where
  pub held : s.count < max_entries
  pub timed : (s.count ≡ 0) ⊎ (s.linger ≡ true)
  pub balance : u32 (k.forwarded + k.dropped + s.count) ≡ u32 k.captured

module _ (link : LinkApi) where
  flush_locked-balance :
      (s : BleBatch) (k : Counters) (l : link.State)
      → let (s', k', l') = flush_locked link s k l in
        (s'.count ≡ 0)
        × (u32 (k'.forwarded + k'.dropped) ≡ u32 (k.forwarded + k.dropped + s.count))
        × (k'.captured ≡ k.captured)
  unfolding flush_locked
  flush_locked-balance s k l = (ground arith, ground arith, ground arith)

  pub flush_locked-Balanced :
      (s : BleBatch) (k : Counters) (l : link.State)
      → u32 (k.forwarded + k.dropped + s.count) ≡ u32 k.captured
      → let (s', k', l') = flush_locked link s k l in Balanced s' k'
  flush_locked-Balanced s k l e =
      let (empty, sum, same) = flush_locked-balance s k l in
      record {
        held = omega (arith, empty);
        timed = inl empty;
        balance = omega (arith, empty, sum, same);
      }

  settle-Balanced :
      (s : BleBatch) (k : Counters) (l : link.State)
      → s.count ≤ max_entries
      → u32 (k.forwarded + k.dropped + s.count) ≡ u32 k.captured
      → let (s', k', l') = settle link s k l in Balanced s' k'
  unfolding settle
  settle-Balanced s k l le e = elim (Bool-cases (s.count == max_entries)) [
    | inl full ↦
        let (empty, sum, same) = flush_locked-balance s k l in
        rw full (record {
          held = omega (arith, empty);
          timed = inl empty;
          balance = omega (arith, empty, sum, same);
        })
    | inr room ↦ rw room (record { held = ground arith; timed = inr refl; balance = e })
  ]

  count-append_entry :
      (s : BleBatch) (ts orig_len flags : ℕ) (kept : Bytes)
      → (append_entry (open_at s ts) ts orig_len flags kept).count ≡ u8 (s.count + 1)
  unfolding append_entry open_at
  count-append_entry s ts orig_len flags kept = ground arith

  appended-Balanced :
      (ts orig_len flags : ℕ) (kept : Bytes) (s : BleBatch) (k : Counters) (l : link.State)
      → Balanced s k
      → let (s', k', l') =
          settle link
            (append_entry (open_at s ts) ts orig_len flags kept)
            (record k { captured = u32 (k.captured + 1) })
            l in
        Balanced s' k'
  appended-Balanced ts orig_len flags kept s k l h =
      let one_more = count-append_entry s ts orig_len flags kept in
      settle-Balanced _ _ l (omega (arith, one_more, h.held))
        (omega (arith, one_more, h.held, h.balance))

  pub add-Balanced :
      (ts orig_len flags : ℕ) (kept : Bytes) (s : BleBatch) (k : Counters) (l : link.State)
      → Balanced s k
      → let (s', k', l') = add link ts orig_len flags kept s k l in Balanced s' k'
  unfolding add
  add-Balanced ts orig_len flags kept s k l h = elim (Bool-cases (must_close s ts (length kept))) [
    | inl closes ↦
        rw closes
          (appended-Balanced ts orig_len flags kept _ _ _ (flush_locked-Balanced s k l h.balance))
    | inr joins ↦ rw joins (appended-Balanced ts orig_len flags kept s k l h)
  ]
