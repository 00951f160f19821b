-- ===== src/Ble/Capture.antt =====
-- Which packets of the controller src/radio_ble.c puts into the capture.
use nrf54l15_sniffer.Base.{
  ℕ, ◌+◌, ◌≡◌, refl, ap, ◌∙◌, Bool, true, false, not, ◌&&◌, ◌||◌, Bytes, length, get_or, ltb, leb,
  u16, ◌==◌, u32, if◌then◌else◌, ◌⊎◌, inl, inr, Bool-cases, arith, if_holds,
}
use nrf54l15_sniffer.LinkApi.{LinkApi}
use nrf54l15_sniffer.Hci.{Hci}
use nrf54l15_sniffer.Ble.{Ble, BleBatch, Counters, Pending}
use nrf54l15_sniffer.Ble.Batch.{add, flush_locked, settle, must_close, max_entries, max_packet}
use nrf54l15_sniffer.Ble.Events.{
  note_counts, note_subevent, note_big_established, note_biginfo, note_periodic,
}
use nrf54l15_sniffer.Ble.Command.{note_command_result}
use nrf54l15_sniffer.Ble.Forward.{forward, receive, notice, count_oversized, h4_event, h4_iso}

module _ (h : Hci) where
  -- The packet is one that the radio heard: isochronous data, or an event that is not the answer to a
  -- command.
  abbrev pub heard : ℕ → Bytes → Bool
  heard h4 buf =
      h4 == h.h4_iso
      || (h4 == h.h4_evt
          && ltb 0 (length buf)
          && not (get_or buf 0 0 == h.cmd_complete)
          && not (get_or buf 0 0 == h.cmd_status))

  captured-note_counts :
      (now : ℕ) (evt : Bytes) (b : Ble)
      → (note_counts h now evt b).counters.captured ≡ b.counters.captured
  unfolding note_counts note_subevent note_big_established
  captured-note_counts now evt b = ground arith

  captured-note_periodic :
      (hci : Bytes) (b : Ble) → (note_periodic hci b).counters.captured ≡ b.counters.captured
  unfolding note_periodic
  captured-note_periodic hci b = ground arith

  captured-note_biginfo :
      (now : ℕ) (hci : Bytes) (b : Ble)
      → (note_biginfo h now hci b).counters.captured ≡ b.counters.captured
  unfolding note_biginfo
  captured-note_biginfo now hci b = ground arith

  captured-notice :
      (link : LinkApi) (now : ℕ) (evt : Bytes) (b : Ble)
      → (notice h link now evt b).counters.captured ≡ b.counters.captured
  captured-notice link now evt b =
      let counted = captured-note_counts now evt b in
      if_holds (λ (x : Ble). x.counters.captured ≡ b.counters.captured)
        (note_counts h now evt b).periodic_enabled
        (captured-note_biginfo now _ _ ∙ captured-note_periodic _ _ ∙ counted) counted

  module _ (link : LinkApi) where
    captured-flush_locked :
        (s : BleBatch) (k : Counters) (l : link.State)
        → (flush_locked link s k l).1.captured ≡ k.captured
    unfolding flush_locked
    captured-flush_locked s k l = ground arith

    captured-settle :
        (s : BleBatch) (k : Counters) (l : link.State) → (settle link s k l).1.captured ≡ k.captured
    unfolding settle
    captured-settle s k l = elim (Bool-cases (s.count == max_entries)) [
      | inl full ↦ rw full (captured-flush_locked s k l)
      | inr room ↦ rw room refl
    ]

    captured-add :
        (ts orig_len flags : ℕ) (kept : Bytes) (s : BleBatch) (k : Counters) (l : link.State)
        → (add link ts orig_len flags kept s k l).1.captured ≡ u32 (k.captured + 1)
    unfolding add
    captured-add ts orig_len flags kept s k l =
        captured-settle _ _ _
        ∙ ap (λ n. u32 (n + 1))
            (if_holds (λ (r : BleBatch × Counters × link.State). r.1.captured ≡ k.captured)
              (must_close s ts (length kept)) (captured-flush_locked s k l) refl)

    captured-forward :
        (ts now : ℕ) (buf : Bytes) (type : ℕ) (b : Ble) (l : link.State)
        → (forward h link ts now buf type b l).0.counters.captured ≡ u32 (b.counters.captured + 1)
    unfolding forward
    captured-forward ts now buf type b l =
        captured-add ts _ _ _ _ _ l ∙ ap (λ n. u32 (n + 1)) noticed
      where
        kept : Ble → Type 0
        kept x = x.counters.captured ≡ b.counters.captured

        sized : Ble
        sized = if ltb max_packet (u16 (length buf + 1)) then count_oversized h link b else b

        sized_kept : kept sized
        sized_kept = if_holds (λ x. kept x) (ltb max_packet (u16 (length buf + 1))) refl refl

        noticed : kept (if type == h4_event then notice h link now buf sized else sized)
        noticed =
            if_holds (λ x. kept x) (type == h4_event)
              (captured-notice link now buf sized ∙ sized_kept) sized_kept

    -- The end of `receive`, from a state that differs in the command in flight alone.
    abbrev pub sorted : ℕ → ℕ → ℕ → Bytes → Ble → link.State → Ble × link.State
    sorted ts now h4 buf a l =
        if a.running && h4 == h.h4_iso
        then forward h link ts now buf h4_iso a l
        else if a.running
            && h4 == h.h4_evt
            && ltb 0 (length buf)
            && not (get_or buf 0 0 == h.cmd_complete)
            && not (get_or buf 0 0 == h.cmd_status)
        then forward h link ts now buf h4_event a l
        else (a, l)

    abbrev Captures : ℕ → Bytes → Ble → link.State → Ble × link.State → Type 0
    Captures h4 buf b l (b', l') =
        ((b.running && heard h4 buf) ≡ true
          × (b'.counters.captured ≡ u32 (b.counters.captured + 1)))
        ⊎ ((b.running && heard h4 buf) ≡ false
            × (b' ≡ record b { pending = b'.pending })
            × (l' ≡ l))

    sorted_lem :
        (ts now h4 : ℕ) (buf : Bytes) (b : Ble) (p : Pending) (l : link.State)
        → Captures h4 buf b l (sorted ts now h4 buf (record b { pending = p }) l)
    sorted_lem ts now h4 buf b p l = elim (Bool-cases (b.running && h4 == h.h4_iso)) [
      | inl iso ↦
          rw iso
            (inl (ground arith, captured-forward ts now buf h4_iso (record b { pending = p }) l))
      | inr e1 ↦ rw e1 (elim (Bool-cases is_event) [
        | inl event ↦
            rw event (
              inl (ground arith, captured-forward ts now buf h4_event (record b { pending = p }) l))
        | inr e2 ↦ rw e2 (inr (ground arith, refl, refl))
      ])
    ]
      where
        is_event : Bool
        is_event =
            b.running
            && h4 == h.h4_evt
            && ltb 0 (length buf)
            && not (get_or buf 0 0 == h.cmd_complete)
            && not (get_or buf 0 0 == h.cmd_status)

    -- Each packet that the radio heard while a scan runs is counted as captured, once; whatever else
    -- the controller sends, answers to commands above all, leaves the capture as it was: nothing is
    -- counted, batched or sent, only the command in flight may be answered.
    pub receive_lem :
        (ts now h4 : ℕ) (buf : Bytes) (b : Ble) (l : link.State)
        → let (b', l') = receive h link ts now h4 buf b l in
          ((b.running && heard h4 buf) ≡ true
            × (b'.counters.captured ≡ u32 (b.counters.captured + 1)))
          ⊎ ((b.running && heard h4 buf) ≡ false
              × (b' ≡ record b { pending = b'.pending })
              × (l' ≡ l))
    unfolding receive
    receive_lem ts now h4 buf b l =
        if_holds (λ x. Captures h4 buf b l (sorted ts now h4 buf x l))
          (h4 == h.h4_evt && leb 2 (length buf))
          (sorted_lem ts now h4 buf b (note_command_result h buf b.pending) l)
          (sorted_lem ts now h4 buf b b.pending l)
