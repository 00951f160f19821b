-- ===== src/Link/Transmit/Spans.antt =====
-- `tx_thread` of src/link.c: the DMA and the ring never disagree on a span, whatever is sent meanwhile.
use nrf54l15_sniffer.Base.{
  ◌≡◌, refl, ap, ◌∙◌, ◌⊎◌, inl, inr, Bool, true, false, Bytes, length, drop, List, ◌++◌, ◌==◌,
  Bool-cases, Option, some, none, take-append-drop,
}
use nrf54l15_sniffer.Wire.{Wire, IsWire}
use nrf54l15_sniffer.RingBuf.{RingBuf, IsRingBuf}
use nrf54l15_sniffer.Link.{tx_dma_chunk}
use nrf54l15_sniffer.Link.Transmit.{
  Phase, looking, waiting, claimed, granted, sending, Tx, thread_step, end_transfer, Move, thread,
  transfer_ends, move, run, frames_from,
}
use nrf54l15_sniffer.Link.Transmit.Coherence.{
  Front, Coherent, IsCoherent, left, Moves, claim-Front, unclaimed,
}

module _ (wire : Wire) {buf : RingBuf} (b : IsRingBuf buf) where
  thread_step-Moves :
      (phase : Phase) (takes : Bool) (s : Tx buf.Ring)
      → s.phase ≡ phase
      → Coherent phase s.tx_done s.in_flight (b.contents s.out.tx)
      → Moves b s (thread_step wire buf phase takes s)
  unfolding thread_step
  thread_step-Moves looking takes s e c =
      elim (Bool-cases (length (buf.claim tx_dma_chunk s.out.tx).0 == 0)) [
        | inl nothing ↦
            let same = unclaimed b (buf.claim tx_dma_chunk s.out.tx).1 ∙ b.claim_keeps _ s.out.tx in
            rw (nothing, e) (c, same, refl)
        | inr span ↦
            rw (span, e)
              ((c.0, c.1, claim-Front b s.out.tx), b.claim_keeps tx_dma_chunk s.out.tx, refl)
      ]
  thread_step-Moves waiting takes s e c = elim (Bool-cases s.out.tx_ready) [
    | inl woken ↦ rw (woken, e) (c, refl, refl)
    | inr not_yet ↦ rw (not_yet, e) (c, refl, refl)
  ]
  thread_step-Moves (claimed span) takes s e c = rw (c.0, e) ((refl, c.1, c.2), refl, refl)
  thread_step-Moves (granted span) true s e c =
      let (le, front) = c.2 in
      rw e (
        (c.2, inl (c.0, refl)),
        ap (λ bs. bs ++ drop (length span) (b.contents s.out.tx)) front
            ∙ take-append-drop (length span) (b.contents s.out.tx),
        refl,
      )
  thread_step-Moves (granted span) false s e c = rw e ((refl, c.1), unclaimed b s.out.tx, refl)
  thread_step-Moves (sending span) takes s e ((le, front), inl (busy, flight)) =
      rw (busy, e) (((le, front), inl (refl, flight)), refl, refl)
  thread_step-Moves (sending span) takes s e ((le, front), inr (free, flight)) =
      rw (free, e) ((refl, flight), b.finish_drops (length span) s.out.tx le, refl)

  end_transfer-Moves :
      (flight : Option Bytes) (s : Tx buf.Ring)
      → s.in_flight ≡ flight
      → IsCoherent b s
      → IsCoherent b (end_transfer wire buf flight s)
        × (left b (end_transfer wire buf flight s) ≡ left b s)
  end_transfer-Moves none s e c = (c, refl)
  end_transfer-Moves (some bytes) s e c = (ended s.phase c, refl)
    where
      ended :
          (phase : Phase)
          → Coherent phase s.tx_done s.in_flight (b.contents s.out.tx)
          → Coherent phase true none (b.contents s.out.tx)
      ended looking c = (refl, refl)
      ended waiting c = (refl, refl)
      ended (claimed span) c = (refl, refl, c.2)
      ended (granted span) c = absurd (cc)
      ended (sending span) (front, c) = (front, inr (refl, refl))

module _ {wire : Wire} {buf : RingBuf} (w : IsWire wire) (b : IsRingBuf buf) where
  -- What a run owes: the bytes handed to the DMA and those still to be handed over are those of before
  -- and the frames accepted, and the thread, the DMA and the ring agree.
  abbrev pub Agrees : Tx buf.Ring → List Move → Type 0
  Agrees s ms =
      let r = run wire buf ms s in
      (r.on_wire ++ left b r.state ≡ left b s ++ frames_from wire s.out.seq r.accepted)
      × IsCoherent b r.state

  pub thread-Moves :
      (takes : Bool) (s : Tx buf.Ring) → IsCoherent b s → Moves b s (move wire buf (thread takes) s)
  unfolding move
  thread-Moves takes s c = thread_step-Moves wire b s.phase takes s refl c

  pub transfer_ends-Moves :
      (s : Tx buf.Ring) → IsCoherent b s → Moves b s (move wire buf transfer_ends s)
  unfolding move
  transfer_ends-Moves s c =
      let (coherent, same) = end_transfer-Moves wire b s.in_flight s refl c in
      (coherent, same, seq s.in_flight)
    where
      seq : (flight : Option Bytes) → (end_transfer wire buf flight s).out.seq ≡ s.out.seq
      seq none = refl
      seq (some bytes) = refl

  -- The DMA is idle, or it reads the front of the ring while the thread waits for it to end.
  abbrev pub Reads : Tx buf.Ring → Type 0
  Reads s =
      (s.in_flight ≡ none)
      ⊎ ((span : Bytes) × (s.in_flight ≡ some span)
          × (s.phase ≡ sending span)
          × Front span (b.contents s.out.tx))
