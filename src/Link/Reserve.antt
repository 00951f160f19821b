-- ===== src/Link/Reserve.antt =====
-- The room that the link keeps for control frames, whatever else is sent.
use nrf54l15_sniffer.Base.{
  ◌+◌, ◌≤◌, ◌≡◌, refl, ap, Bool, true, false, Bytes, length, List, [], ◌∷◌, ◌==◌, inl, inr, arith,
  success, Option, some, none, Bool-cases, length-drop,
}
use nrf54l15_sniffer.Wire.{Wire, IsWire, FrameType}
use nrf54l15_sniffer.RingBuf.{RingBuf, IsRingBuf}
use nrf54l15_sniffer.Link.{
  Outbound, carries_control, enqueue, send, tx_control_reserve, tx_dma_chunk,
}
use nrf54l15_sniffer.Link.Send.{send_outcomes}
use nrf54l15_sniffer.Link.Transmit.{
  Phase, looking, waiting, claimed, granted, sending, Tx, thread_step, end_transfer, Move, submit,
  thread, transfer_ends, move, run, at_rest,
}
use nrf54l15_sniffer.Link.Transmit.Coherence.{Coherent, Coherent-append, IsCoherent, unclaimed}
use nrf54l15_sniffer.Link.Transmit.Spans.{thread-Moves, transfer_ends-Moves}

-- Captured packets and logs only: no frame that carries control.
abbrev pub DataOnly : List Move → Type 0
DataOnly [] = Unit {0}
DataOnly (submit t p ∷ ms) = (carries_control t ≡ false) × DataOnly ms
DataOnly (_ ∷ ms) = DataOnly ms

module _ (wire : Wire) {buf : RingBuf} (b : IsRingBuf buf) where
  -- `tx_thread` puts nothing into the ring.
  thread_step-shrinks :
      (phase : Phase) (takes : Bool) (s : Tx buf.Ring)
      → Coherent phase s.tx_done s.in_flight (b.contents s.out.tx)
      → length (b.contents (thread_step wire buf phase takes s).1.out.tx)
        ≤ length (b.contents s.out.tx)
  unfolding thread_step
  thread_step-shrinks looking takes s c =
      let kept = b.claim_keeps tx_dma_chunk s.out.tx in
      elim (Bool-cases (length (buf.claim tx_dma_chunk s.out.tx).0 == 0)) [
        | inl nothing ↦ rw nothing (
            omega
              (arith, ap length (unclaimed b (buf.claim tx_dma_chunk s.out.tx).1), ap length kept))
        | inr span ↦ rw span (omega (arith, ap length kept))
      ]
  thread_step-shrinks waiting takes s c = elim (Bool-cases s.out.tx_ready) [
    | inl woken ↦ rw woken (omega arith)
    | inr not_yet ↦ rw not_yet (omega arith)
  ]
  thread_step-shrinks (claimed span) takes s c = rw c.0 (omega arith)
  thread_step-shrinks (granted span) true s c = omega arith
  thread_step-shrinks (granted span) false s c = omega (arith, ap length (unclaimed b s.out.tx))
  thread_step-shrinks (sending span) takes s ((le, front), inl (busy, flight)) =
      rw busy (omega arith)
  thread_step-shrinks (sending span) takes s ((le, front), inr (free, flight)) = rw free (
      omega (
        arith,
        ap length (b.finish_drops (length span) s.out.tx le),
        length-drop (length span) (b.contents s.out.tx),
      ))

  tx-end_transfer :
      (flight : Option Bytes) (s : Tx buf.Ring) → (end_transfer wire buf flight s).out ≡ s.out
  tx-end_transfer none s = refl
  tx-end_transfer (some bytes) s = refl

module _ {wire : Wire} {buf : RingBuf} (w : IsWire wire) (b : IsRingBuf buf) where
  run-reserve :
      (ms : List Move) (s : Tx buf.Ring)
      → IsCoherent b s
      → DataOnly ms
      → tx_control_reserve ≤ buf.space s.out.tx
      → tx_control_reserve ≤ buf.space (run wire buf ms s).state.out.tx
  unfolding run move
  run-reserve [] s c d h = h
  run-reserve (submit t p ∷ ms) s c d h = elim (send_outcomes w b t p s.out) [
    | inl long ↦ rw long.result (run-reserve ms s c d.1 h)
    | inr (inl full) ↦ rw full.result (run-reserve ms _ c d.1 h)
    | inr (inr q) ↦
        let frame = wire.encode t s.out.seq p in
        let (kept, behind) =
          Coherent-append s.phase s.tx_done s.in_flight (b.contents s.out.tx) frame c in
        let room : tx_control_reserve ≤ buf.space (enqueue wire buf frame s.out).tx =
          omega (arith, q.space_left, rw d.0 at q.room) in
        rw q.result (
          run-reserve ms (record s { out = enqueue wire buf frame s.out }) (rw q.appended kept) d.1
            room)
  ]
  run-reserve (thread takes ∷ ms) s c d h =
      let s' = (thread_step wire buf s.phase takes s).1 in
      run-reserve ms s' (thread-Moves w b takes s c).0 d (
        omega (
          arith,
          thread_step-shrinks wire b s.phase takes s c,
          b.space_is s.out.tx,
          b.space_is s'.out.tx,
        ))
  run-reserve (transfer_ends ∷ ms) s c d h =
      run-reserve ms _ (transfer_ends-Moves w b s c).0 d
        (rw (tx-end_transfer wire b s.in_flight s) h)

  -- However much capture data and log output is queued or refused, and wherever `tx_thread` and its
  -- transfers are meanwhile, a control frame of at most 512 bytes with its header is accepted next, if
  -- the reserve was free when the data began and the thread was at the top of its loop.
  pub control_accepted :
      (ms : List Move) (out : Outbound buf.Ring) (t : FrameType) (p : Bytes)
      → DataOnly ms
      → tx_control_reserve ≤ buf.space out.tx
      → carries_control t ≡ true
      → length p ≤ wire.max_payload
      → wire.header_len + length p ≤ tx_control_reserve
      → (send wire buf t p (run wire buf ms (at_rest out)).state.out).0 ≡ success
  control_accepted ms out t p d h c fits small =
      let s' = (run wire buf ms (at_rest out)).state.out in
      let kept = run-reserve ms (at_rest out) (refl, refl) d h in
      elim (send_outcomes w b t p s') [
        | inl long ↦ absurd (omega (arith, long.too_long))
        | inr (inl full) ↦ absurd (omega (arith, rw c at full.no_room, kept))
        | inr (inr q) ↦ rw q.result
      ]
