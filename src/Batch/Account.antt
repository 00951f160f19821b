-- ===== src/Batch/Account.antt =====
-- src/batch.c: the account of the packets sent, held and dropped, kept by every call.

use nrf54l15_sniffer.Base.{
  ℕ, ◌^◌, ◌<◌, ◌≡◌, ◌≢◌, refl, sym, ap, ◌∙◌, length, List, [], ◌∷◌, ◌++◌, arith, append_assoc, Bool,
  ◌==◌, if◌then◌else◌, true, false, Bool-cases, List-cases, inl, inr, ◌⊎◌, ltb,
}
use nrf54l15_sniffer.LinkApi.{LinkApi, Sent, recording}
use nrf54l15_sniffer.LinkApi.Carried.{carried}
use nrf54l15_sniffer.Batch.{
  Batch, Packet, initial, linger_expired, flush, settle, add, must_close, open_at, append_entry,
  max_entries, max_psdu,
}
use nrf54l15_sniffer.Batch.Invariant.{clamp, initial-Holds}
use nrf54l15_sniffer.Batch.Join.{length-clamp, append_entry-open_at-Holds}
use nrf54l15_sniffer.Batch.Books.{packets_of, Books, set_linger-Holds, some_held, flush-Books}

-- What is left between two calls: some packets are held, fewer than a batch can carry.
pub record Account (s : Batch) (log : List Sent) (given : List Packet) : Type 0 where
  pub held : List Packet
  pub books : Books s log given held
  pub resting : s.count < max_entries

set_linger-Books :
    {s : Batch} {log : List Sent} {given held : List Packet} (b : Bool)
    → Books s log given held
    → Books (record s { linger = b }) log given held
set_linger-Books b k = record {
  holds = set_linger-Holds b k.holds;
  conserved = k.conserved;
  dropped_is = k.dropped_is;
  short = k.short;
}

module _ (link : LinkApi) where
  pub flush-Account :
      {s : Batch} (l : link.State) {log : List Sent} {given : List Packet}
      → Account s log given
      → let (s', (l', log')) = flush (recording link) s (l, log) in Account s' log' given
  unfolding flush
  flush-Account l a =
      let b = flush-Books link l a.held (set_linger-Books false a.books) in
      record { held = []; books = b; resting = omega (arith, b.holds.count_is) }

  pub linger_expired-Account :
      {s : Batch} (l : link.State) {log : List Sent} {given : List Packet}
      → Account s log given
      → let (s', (l', log')) = linger_expired (recording link) s (l, log) in Account s' log' given
  unfolding linger_expired
  linger_expired-Account l a =
      let b = flush-Books link l a.held (set_linger-Books false a.books) in
      record { held = []; books = b; resting = omega (arith, b.holds.count_is) }

  settle-Account :
      {s : Batch} (l : link.State) {log : List Sent} {given : List Packet} (held : List Packet)
      → Books s log given held
      → let (s', (l', log')) = settle (recording link) s (l, log) in Account s' log' given
  unfolding settle
  settle-Account {s} l held b = elim (Bool-cases (s.count == max_entries)) [
    | inl full ↦
        let b' = flush-Books link l held b in
        rw full (record {
          held = [];
          books = set_linger-Books false b';
          resting = omega (arith, b'.holds.count_is);
        })
    | inr partial ↦ rw partial (record {
      held = held;
      books = set_linger-Books true b;
      resting = ground (arith, b.holds.count_lt);
    })
  ]

dropped-append_entry :
    (s : Batch) (p : Packet) (len : ℕ) → (append_entry (open_at s p) p len).dropped ≡ s.dropped
unfolding append_entry open_at
dropped-append_entry s p len = ground arith

append_entry-Books :
    {s : Batch} {log : List Sent} {given held : List Packet} (p : Packet)
    → p.timestamp_us < 2 ^ 64
    → let len = if ltb max_psdu (length p.psdu) then max_psdu else length p.psdu in
      Books s log given held
      → (held ≡ []) ⊎ ((held ≢ []) × (s.count < max_entries) × (must_close s p len ≡ false))
      → Books (append_entry (open_at s p) p len) log (given ++ clamp p ∷ []) (held ++ clamp p ∷ [])
append_entry-Books {s} {log} {given} {held} p t b c =
    let (le, whole) = length-clamp p.psdu in
    record {
      holds = append_entry-open_at-Holds p t le whole b.holds c;
      conserved =
          sym (append_assoc (carried packets_of log) held (clamp p ∷ []))
          ∙ ap (λ ps. ps ++ clamp p ∷ []) b.conserved;
      dropped_is = dropped-append_entry s p _ ∙ b.dropped_is;
      short = b.short;
    }

module _ (link : LinkApi) where
  pub add-Account :
      {s : Batch} (l : link.State) {log : List Sent} {given : List Packet} (p : Packet)
      → p.timestamp_us < 2 ^ 64
      → Account s log given
      → let (s', (l', log')) = add (recording link) p s (l, log) in
        Account s' log' (given ++ clamp p ∷ [])
  unfolding add
  add-Account {s} l {log} {given} p t a = elim (Bool-cases (must_close s p len)) [
    | inl closes ↦
        let b = flush-Books link l a.held a.books in
        rw closes (settle-Account link _ _ (append_entry-Books p t b (inl refl)))
    | inr joins ↦ rw joins (settle-Account link _ _ (append_entry-Books p t a.books (joined joins)))
  ]
    where
      len : ℕ
      len = if ltb max_psdu (length p.psdu) then max_psdu else length p.psdu

      joined :
          must_close s p len ≡ false
          → (a.held ≡ []) ⊎ ((a.held ≢ []) × (s.count < max_entries) × (must_close s p len ≡ false))
      joined e = elim (List-cases a.held) [
        | inl none_held ↦ inl none_held
        | inr some_held ↦ inr (some_held, a.resting, e)
      ]

pub initial-Account : Account initial [] []
unfolding initial
initial-Account = record {
  held = [];
  books = record { holds = initial-Holds; conserved = refl; dropped_is = refl; short = tt };
  resting = omega arith;
}
