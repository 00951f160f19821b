-- ===== src/Batch/Join.antt =====
-- A packet that `sn_batch_add` of src/batch.c is given: it opens the batch or joins it.
use nrf54l15_sniffer.Base.{
  ℕ, ◌^◌, ◌≤◌, ◌<◌, ◌≡◌, ◌≢◌, refl, sym, ap, ◌∙◌, Bytes, length, take, List, [], ◌∷◌, ◌++◌, arith,
  length-ne-zero, ◌⊎◌, length-take, ltb, if◌then◌else◌, inl, inr, false,
}
use nrf54l15_sniffer.Batch.{Batch, Packet, must_close, open_at, append_entry, max_psdu, max_entries}
use nrf54l15_sniffer.Batch.Invariant.{Holds, used-le, Joins, append_entry-Holds}

-- The length that `sn_batch_add` clamps to is the length of what it copies.
pub length-clamp :
    (psdu : Bytes)
    → let len = if ltb max_psdu (length psdu) then max_psdu else length psdu in
      (len ≤ max_psdu) × (length (take len psdu) ≡ len)
length-clamp psdu = (ground arith, ground (arith, length-take len psdu))
  where
    len : ℕ
    len = if ltb max_psdu (length psdu) then max_psdu else length psdu

abbrev opened : Batch → Packet → Batch
opened s p = record s { base_us = p.timestamp_us; channel = p.channel; last_us = p.timestamp_us }

open_at-empty : (s : Batch) (p : Packet) → s.count ≡ 0 → open_at s p ≡ opened s p
unfolding open_at
open_at-empty s p e = ground arith

open_at-open : (s : Batch) (p : Packet) → s.count ≢ 0 → open_at s p ≡ s
unfolding open_at
open_at-open s p e = ground arith

opened-Holds :
    {s : Batch} (p : Packet) → Holds s [] → p.timestamp_us < 2 ^ 64 → Holds (opened s p) []
opened-Holds {s} p h t = record {
  header = h.header;
  unused = h.unused;
  image = h.image;
  header_is = h.header_is;
  whole = h.whole;
  used_is = h.used_is;
  count_is = h.count_is;
  count_lt = h.count_lt;
  fits = tt;
  starts = tt;
  last_is = λ e. absurd (e refl);
  base_fits = t;
}

module _ (p : Packet) {len : ℕ} (t : p.timestamp_us < 2 ^ 64) (le : len ≤ max_psdu)
    (whole : length (take len p.psdu) ≡ len) where
  opened-Joins : {s : Batch} → Holds s [] → Joins (opened s p) [] p len
  opened-Joins {s} h = record {
    last_is = refl;
    same_channel = refl;
    not_before = omega arith;
    near = omega arith;
    time_fits = t;
    room = omega (arith, h.used_is);
    slot = omega (arith, h.count_is);
    first = λ _. refl;
    len_le = le;
    len_is = whole;
  }

  -- A packet that does not close the batch joins it.
  not_must_close-Joins :
      {s : Batch} {ps : List Packet}
      → Holds s ps
      → ps ≢ []
      → s.count < max_entries
      → must_close s p len ≡ false
      → Joins s ps p len
  not_must_close-Joins {s} {ps} h ne slot c = record {
    last_is = h.last_is ne;
    same_channel = ground arith;
    not_before = ground arith;
    near = ground arith;
    time_fits = t;
    room = ground (arith, used-le h);
    slot = slot;
    first = λ e. absurd (ne e);
    len_le = le;
    len_is = whole;
  }

  -- The packet goes behind what the batch holds, whether it opens the batch or joins it.
  pub append_entry-open_at-Holds :
      {s : Batch} {ps : List Packet}
      → Holds s ps
      → (ps ≡ []) ⊎ ((ps ≢ []) × (s.count < max_entries) × (must_close s p len ≡ false))
      → Holds (append_entry (open_at s p) p len) (ps ++ record p { psdu = take len p.psdu } ∷ [])
  append_entry-open_at-Holds {s} {ps} h (inl e) =
      rw (e, open_at-empty s p (h.count_is ∙ ap length e))
        (append_entry-Holds (opened-Holds p (rw e at h) t) (opened-Joins (rw e at h)))
  append_entry-open_at-Holds {s} {ps} h (inr (ne, slot, c)) =
      rw (open_at-open s p (λ e. length-ne-zero ps ne (sym h.count_is ∙ e)))
        (append_entry-Holds h (not_must_close-Joins h ne slot c))
