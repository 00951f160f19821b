-- ===== src/Link/Transmit.antt =====
-- src/link.c: `tx_thread` step by step, with `sn_link_send` and the DMA's interrupt in between.
pub mod Coherence
pub mod Spans
use nrf54l15_sniffer.Base.{
  Bool, true, false, Bytes, length, [], ◌∷◌, ◌++◌, List, ◌==◌, if◌then◌else◌, Option, some, none,
  is_ok, ℕ, ◌+◌, u16,
}
use nrf54l15_sniffer.Wire.{Wire, FrameType}
use nrf54l15_sniffer.RingBuf.{RingBuf}
use nrf54l15_sniffer.Link.{Outbound, send, tx_dma_chunk}

-- Where `tx_thread` is, each place with the span that it has claimed: at the top of its loop, at
-- `k_sem_take(&tx_ready)`, at the first `k_sem_take(&tx_done)`, at `uart_tx`, and at the second
-- `k_sem_take(&tx_done)`.
pub data Phase : Type 0 where
  looking waiting : Phase
  claimed granted sending : Bytes → Phase

-- `tx_done` is the semaphore, and `in_flight` what the DMA is reading.
pub record Tx (Ring : Type 0) : Type 0 where
  pub phase : Phase
  pub tx_done : Bool
  pub in_flight : Option Bytes
  pub out : Outbound Ring

-- The thread as it starts: the semaphore is free and no transfer is under way.
abbrev pub at_rest : {Ring : Type 0} → Outbound Ring → Tx Ring
at_rest out = record { phase = looking; tx_done = true; in_flight = none; out = out }

-- A call of `sn_link_send`, a step of the thread with the driver's answer to `uart_tx` if it gets
-- there, or the interrupt that ends a transfer.
pub data Move : Type 0 where
  submit : FrameType → Bytes → Move
  thread : Bool → Move
  transfer_ends : Move

module _ (wire : Wire) (buf : RingBuf) where
  -- A step of `tx_thread`: what it hands to the DMA, and the state after.
  unfoldable pub thread_step : Phase → Bool → Tx buf.Ring → Bytes × Tx buf.Ring
  thread_step looking takes s =
      let (span, ring) = buf.claim tx_dma_chunk s.out.tx in
      if length span == 0
      then ([], record s { phase = waiting; out = record s.out { tx = buf.finish 0 ring } })
      else ([], record s { phase = claimed span; out = record s.out { tx = ring } })
  thread_step waiting takes s =
      if s.out.tx_ready
      then ([], record s { phase = looking; out = record s.out { tx_ready = false } })
      else ([], s)
  thread_step (claimed span) takes s =
      if s.tx_done then ([], record s { phase = granted span; tx_done = false }) else ([], s)
  thread_step (granted span) takes s =
      if takes then (span, record s { phase = sending span; in_flight = some span }) else (
        [],
        record s {
          phase = looking;
          tx_done = true;
          out = record s.out { tx = buf.finish 0 s.out.tx };
        },
      )
  thread_step (sending span) takes s =
      if s.tx_done
      then (
        [],
        record s { phase = looking; out = record s.out { tx = buf.finish (length span) s.out.tx } },
      )
      else ([], s)

  -- UART_TX_DONE or UART_TX_ABORTED, where a transfer is under way.
  abbrev pub end_transfer : Option Bytes → Tx buf.Ring → Tx buf.Ring
  end_transfer none s = s
  end_transfer (some bytes) s = record s { in_flight = none; tx_done = true }

  unfoldable pub move : Move → Tx buf.Ring → Bytes × Tx buf.Ring
  move (submit t p) s = ([], record s { out = (send wire buf t p s.out).1 })
  move (thread takes) s = thread_step s.phase takes s
  move transfer_ends s = ([], end_transfer s.in_flight s)

  -- The frames that a move has put into the ring.
  abbrev pub accepts : Move → Tx buf.Ring → List (FrameType × Bytes)
  accepts (submit t p) s = if is_ok (send wire buf t p s.out).0 then (t, p) ∷ [] else []
  accepts _ s = []

-- The frames of a list, encoded one behind the other from a sequence number on.
abbrev pub frames_from : Wire → ℕ → List (FrameType × Bytes) → Bytes
frames_from wire seq [] = []
frames_from wire seq ((t, p) ∷ fs) = wire.encode t seq p ++ frames_from wire (u16 (seq + 1)) fs

-- What a run leaves: the bytes handed to the DMA, the frames that were accepted, and the state.
pub record Transcript (Ring : Type 0) : Type 0 where
  pub on_wire : Bytes
  pub accepted : List (FrameType × Bytes)
  pub state : Tx Ring

module _ (wire : Wire) (buf : RingBuf) where
  unfoldable pub run : List Move → Tx buf.Ring → Transcript buf.Ring
  run [] s = record { on_wire = []; accepted = []; state = s }
  run (m ∷ ms) s =
      let (bytes, s') = move wire buf m s in
      let rest = run ms s' in
      record rest {
        on_wire = bytes ++ rest.on_wire;
        accepted = accepts wire buf m s ++ rest.accepted;
      }
