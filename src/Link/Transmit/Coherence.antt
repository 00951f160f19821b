-- ===== src/Link/Transmit/Coherence.antt =====
-- `tx_thread` of src/link.c: what holds wherever the thread is.
use nrf54l15_sniffer.Base.{
  ◌≤◌, ◌≡◌, refl, sym, ap, ◌∙◌, ◌⊎◌, Bool, true, false, Bytes, length, take, drop, ◌++◌, arith,
  Option, some, none, take-append, drop-append, length-take, length-append,
}
use nrf54l15_sniffer.RingBuf.{RingBuf, IsRingBuf}
use nrf54l15_sniffer.Link.{tx_dma_chunk}
use nrf54l15_sniffer.Link.Transmit.{Phase, looking, waiting, claimed, granted, sending, Tx}

-- The span is what stands at the front of the ring.
abbrev pub Front : Bytes → Bytes → Type 0
Front span contents = (length span ≤ length contents) × (span ≡ take (length span) contents)

-- The semaphore is free but between the two places that take it, a transfer is under way at the
-- second at most, and the span claimed is still in the ring.
abbrev pub Coherent : Phase → Bool → Option Bytes → Bytes → Type 0
Coherent looking done flight contents = (done ≡ true) × (flight ≡ none)
Coherent waiting done flight contents = (done ≡ true) × (flight ≡ none)
Coherent (claimed span) done flight contents = (done ≡ true) × (flight ≡ none) × Front span contents
Coherent (granted span) done flight contents =
    (done ≡ false) × (flight ≡ none) × Front span contents
Coherent (sending span) done flight contents =
    Front span contents
    × (((done ≡ false) × (flight ≡ some span)) ⊎ ((done ≡ true) × (flight ≡ none)))

-- The bytes of the ring that the DMA has not been given.
abbrev pub unsent : Phase → Bytes → Bytes
unsent (sending span) contents = drop (length span) contents
unsent _ contents = contents

Front-append : (span xs ys : Bytes) → Front span xs → Front span (xs ++ ys)
Front-append span xs ys (le, e) =
    (omega (arith, length-append xs ys), e ∙ sym (take-append (length span) xs ys le))

-- Bytes that are put behind leave all that as it was.
pub Coherent-append :
    (phase : Phase) (done : Bool) (flight : Option Bytes) (xs ys : Bytes)
    → Coherent phase done flight xs
    → Coherent phase done flight (xs ++ ys) × (unsent phase (xs ++ ys) ≡ unsent phase xs ++ ys)
Coherent-append looking done flight xs ys c = (c, refl)
Coherent-append waiting done flight xs ys c = (c, refl)
Coherent-append (claimed span) done flight xs ys (d, f, front) =
    ((d, f, Front-append span xs ys front), refl)
Coherent-append (granted span) done flight xs ys (d, f, front) =
    ((d, f, Front-append span xs ys front), refl)
Coherent-append (sending span) done flight xs ys (front, c) =
    ((Front-append span xs ys front, c), drop-append (length span) xs ys front.0)

module _ {buf : RingBuf} (b : IsRingBuf buf) where
  abbrev pub IsCoherent : Tx buf.Ring → Type 0
  IsCoherent s = Coherent s.phase s.tx_done s.in_flight (b.contents s.out.tx)

  abbrev pub left : Tx buf.Ring → Bytes
  left s = unsent s.phase (b.contents s.out.tx)

  -- A step of the thread, or the end of a transfer, keeps it, and takes from the ring what it hands
  -- to the DMA.
  abbrev pub Moves : Tx buf.Ring → Bytes × Tx buf.Ring → Type 0
  Moves s (bytes, s') = IsCoherent s' × (bytes ++ left s' ≡ left s) × (s'.out.seq ≡ s.out.seq)

  pub claim-Front :
      (r : buf.Ring) → let (span, ring) = buf.claim tx_dma_chunk r in Front span (b.contents ring)
  claim-Front r =
      let span = (buf.claim tx_dma_chunk r).0 in
      let front = b.claimed tx_dma_chunk r in
      let kept = b.claim_keeps tx_dma_chunk r in
      (
        omega (arith, ap length front, ap length kept, length-take (length span) (b.contents r)),
        front ∙ ap (λ bs. take (length span) bs) (sym kept),
      )

  pub unclaimed : (r : buf.Ring) → b.contents (buf.finish 0 r) ≡ b.contents r
  unclaimed r = b.finish_drops 0 r (omega arith)
