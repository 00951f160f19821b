-- ===== src/Ble/Batch/Adding.antt =====
-- The account of the packets of src/radio_ble.c through `forward`'s end and its flushes.
use nrf54l15_sniffer.Base.{
  ◌<◌, ◌≡◌, ◌≢◌, refl, sym, ap, ◌∙◌, length, List, [], ◌∷◌, ◌++◌, arith, append_assoc, ◌==◌, false,
  true, Bool-cases, List-cases, inl, inr, ◌⊎◌,
}
use nrf54l15_sniffer.LinkApi.{LinkApi, Sent, recording}
use nrf54l15_sniffer.LinkApi.Carried.{carried}
use nrf54l15_sniffer.Ble.{BleBatch, Counters}
use nrf54l15_sniffer.Ble.Batch.{flush_locked, settle, add, open_at, must_close, max_entries}
use nrf54l15_sniffer.Ble.Batch.Format.{BlePacket}
use nrf54l15_sniffer.Ble.Batch.Invariant.{IsPacket, appended, appended-open_at-Holds}
use nrf54l15_sniffer.Ble.Batch.Delivery.{Books, packets_of, set_linger-Books, flush-Books}

-- What is left between two calls: some packets are held, fewer than a batch can carry.
pub record Account (s : BleBatch) (log : List Sent) (given : List BlePacket) : Type 0 where
  pub held : List BlePacket
  pub books : Books s log given held
  pub resting : s.count < max_entries

module _ (link : LinkApi) where
  pub flush-Account :
      {s : BleBatch} (k : Counters) (l : link.State) {log : List Sent} {given : List BlePacket}
      → Account s log given
      → let (s', k', (l', log')) =
          flush_locked (recording link) (record s { linger = false }) k (l, log) in
        Account s' log' given
  flush-Account k l a =
      let b = flush-Books link k l a.held (set_linger-Books false a.books) in
      record { held = []; books = b; resting = omega (arith, b.holds.count_is) }

  settle-Account :
      {s : BleBatch} (k : Counters) (l : link.State) {log : List Sent} {given : List BlePacket}
      (held : List BlePacket)
      → Books s log given held
      → let (s', k', (l', log')) = settle (recording link) s k (l, log) in Account s' log' given
  unfolding settle
  settle-Account {s} k l held b = elim (Bool-cases (s.count == max_entries)) [
    | inl full ↦
        let b' = flush-Books link k l held b in
        rw full (record {
          held = [];
          books = set_linger-Books false b';
          resting = omega (arith, b'.holds.count_is);
        })
    | inr partial ↦ rw partial (record {
      held = held;
      books = set_linger-Books true b;
      resting = ground (arith, b.holds.count_le);
    })
  ]

pub appended-Books :
    {s : BleBatch} {log : List Sent} {given held : List BlePacket} (p : BlePacket)
    → IsPacket p
    → Books s log given held
    → (held ≡ [])
      ⊎ ((held ≢ [])
          × (s.count < max_entries)
          × (must_close s p.timestamp_us (length p.kept) ≡ false))
    → Books (appended (open_at s p.timestamp_us) p) log (given ++ p ∷ []) (held ++ p ∷ [])
appended-Books {s} {log} {given} {held} p k b c = record {
  holds = appended-open_at-Holds p k b.holds c;
  conserved =
      sym (append_assoc (carried packets_of log) held (p ∷ []))
      ∙ ap (λ ps. ps ++ p ∷ []) b.conserved;
  short = b.short;
}

-- A packet joins an empty batch, or one that need not close for it.
pub joined :
    {s : BleBatch} {log : List Sent} {given : List BlePacket} (p : BlePacket)
    (a : Account s log given)
    → must_close s p.timestamp_us (length p.kept) ≡ false
    → (a.held ≡ [])
      ⊎ ((a.held ≢ [])
          × (s.count < max_entries)
          × (must_close s p.timestamp_us (length p.kept) ≡ false))
joined p a e = elim (List-cases a.held) [
  | inl none_held ↦ inl none_held
  | inr some_held ↦ inr (some_held, a.resting, e)
]

module _ (link : LinkApi) where
  -- A packet that is added goes behind those given before.
  pub add-Account :
      {s : BleBatch} (k : Counters) (l : link.State) {log : List Sent} {given : List BlePacket}
      (p : BlePacket)
      → IsPacket p
      → Account s log given
      → let (s', k', (l', log')) =
          add (recording link) p.timestamp_us p.orig_len p.flags p.kept s k (l, log) in
        Account s' log' (given ++ p ∷ [])
  unfolding add
  add-Account {s} k l {log} {given} p i a =
      elim (Bool-cases (must_close s p.timestamp_us (length p.kept))) [
        | inl closes ↦
            let b = flush-Books link k l a.held a.books in
            rw closes (settle-Account link _ _ _ (appended-Books p i b (inl refl)))
        | inr joins ↦
            rw joins (settle-Account link _ _ _ (appended-Books p i a.books (joined p a joins)))
      ]
