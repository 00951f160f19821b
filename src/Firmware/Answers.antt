-- ===== src/Firmware/Answers.antt =====
-- What the host hears back: the replies among all frames, whatever else happens on the board.
use nrf54l15_sniffer.Base.{
  ℕ, ◌≡◌, ◌≢◌, refl, sym, ap, ◌∙◌, Bool, true, false, not, ◌&&◌, Bytes, length, get_or, List, [],
  ◌∷◌, ◌++◌, append_assoc, append-nil, ltb, leb, ◌==◌, if◌then◌else◌, if_holds, Option, Code, none,
  some, Bool-cases, inl, inr, arith,
}
use native.Mathlib.Decide.{dec_lt}
use nrf54l15_sniffer.Wire.{FrameType, control_cmd, ble_filter, ble_keys}
use nrf54l15_sniffer.LinkApi.{LinkApi, Sent, recording}
use nrf54l15_sniffer.LinkApi.Carried.{carried, carried-append}
use nrf54l15_sniffer.LinkApi.Flushes.{
  IsData, one, batch_154, batch_ble, OnlyData, none_left, also, Flushes, nothing_sent,
}
use nrf54l15_sniffer.Hci.{Hci}
use nrf54l15_sniffer.Radio154
use nrf54l15_sniffer.Radio154.{Radio154, NetPkt}
use nrf54l15_sniffer.Batch
use nrf54l15_sniffer.Batch.{Batch}
use nrf54l15_sniffer.Batch.Flushes as BatchFlushes
use nrf54l15_sniffer.Ble.{Ble}
use nrf54l15_sniffer.Ble.Batch as BleBatches
use nrf54l15_sniffer.Ble.Batch.Flushes as BleFlushes
use nrf54l15_sniffer.Ble.Command.{note_command_result}
use nrf54l15_sniffer.Ble.Forward.{forward, receive}
use nrf54l15_sniffer.Board.{Env, Board, recorded, send}
use nrf54l15_sniffer.Control.{cmd_payload_len, handle}
use nrf54l15_sniffer.Control.Replies.{Answered, handle_answers, handle_silent}
use nrf54l15_sniffer.Firmware.Standing.{Unasked}
use nrf54l15_sniffer.Stats.{stats_tick}
use nrf54l15_sniffer.Firmware.{
  Happening, host_frame, heard, radio_event, batch_timer, hci_packet, ble_timer, sync_work,
  big_work, iso_path_work, second, happen, run,
}

abbrev is_reply : FrameType → Bool
is_reply FrameType.control_reply = true
is_reply _ = false

-- The number of the command that a frame replies to, if it is a reply.
abbrev pub answers : Sent → List ℕ
answers x = if is_reply x.kind then get_or x.payload 0 0 ∷ [] else []

-- The number of the command that a frame of the host gives.
abbrev pub asks : Env → ℕ → Bytes → List ℕ
asks e kind payload =
    if kind == e.type_code control_cmd && leb cmd_payload_len (length payload)
    then get_or payload 0 0 ∷ []
    else []

abbrev asked : Env → Happening → List ℕ
asked e (host_frame kind payload) = asks e kind payload
asked e _ = []

asked-Unasked : (e : Env) (x : Happening) → Unasked x → asked e x ≡ []
asked-Unasked e (host_frame kind payload) u = absurd u
asked-Unasked e _ u = refl

-- The commands among all that happens, in the order in which they come.
abbrev pub commands : Env → List Happening → List ℕ
commands e [] = []
commands e (x ∷ xs) = asked e x ++ commands e xs

-- No reply was sent between two moments.
abbrev Quiet : List Sent → List Sent → Type 0
Quiet before after = carried answers after ≡ carried answers before

IsData-silent : (t : FrameType) → IsData t → is_reply t ≡ false
IsData-silent _ one = refl
IsData-silent _ batch_154 = refl
IsData-silent _ batch_ble = refl

OnlyData-silent : (xs : List Sent) → OnlyData xs → carried answers xs ≡ []
OnlyData-silent _ none_left = refl
OnlyData-silent _ (also {x} {xs} d p) = rw (IsData-silent x.kind d) (OnlyData-silent xs p)

append-silent : (xs ys : List Sent) → carried answers ys ≡ [] → Quiet xs (xs ++ ys)
append-silent xs ys e =
    carried-append answers xs ys
    ∙ ap (λ zs. carried answers xs ++ zs) e
    ∙ append-nil (carried answers xs)

Flushes-Quiet : {before after : List Sent} → Flushes before after → Quiet before after
Flushes-Quiet {before} f =
    ap (carried answers) f.log_is
    ∙ append-silent before f.frames (OnlyData-silent f.frames f.data_only)

Answered-answers :
    (e : Env) (command : ℕ) {before after : List Sent}
    → Answered e command before after
    → carried answers after ≡ carried answers before ++ command ∷ []
Answered-answers e command {before} a =
    ap (carried answers) a.log_is
    ∙ carried-append answers before (a.flushed ++ _ ∷ [])
    ∙ ap (λ xs. carried answers before ++ xs)
        (carried-append answers a.flushed (_ ∷ [])
          ∙ ap (λ xs. xs ++ command ∷ []) (OnlyData-silent a.flushed a.data_only))

module _ (link : LinkApi) where
  net_recv_data-Flushes :
      (pkt : Option NetPkt) (r : Radio154) (s : Batch) (l : (recording link).State)
      → Flushes l.1 (Radio154.net_recv_data (recording link) pkt r s l).4.1
  unfolding Radio154.net_recv_data
  net_recv_data-Flushes none r s l = nothing_sent l.1
  net_recv_data-Flushes (some pkt) r s l = if_holds sends_data pkt.is_empty (nothing_sent l.1) (
      if_holds sends_data r.measuring (nothing_sent l.1) (
        if_holds sends_data (not r.running) (nothing_sent l.1)
          (BatchFlushes.add-Flushes link (Radio154.to_packet r pkt) s l)))
    where
      sends_data : Code × ℕ × Radio154 × Batch × (recording link).State → Type 0
      sends_data x = Flushes l.1 x.4.1

  receive-Flushes :
      (h : Hci) (ts now h4 : ℕ) (buf : Bytes) (b : Ble) (l : (recording link).State)
      → Flushes l.1 (receive h (recording link) ts now h4 buf b l).1.1
  unfolding receive forward
  receive-Flushes h ts now h4 buf b l =
      if_holds sends_data (answered.running && h4 == h.h4_iso)
        (BleFlushes.add-Flushes link _ _ _ _ _ _ l)
        (if_holds sends_data is_event (BleFlushes.add-Flushes link _ _ _ _ _ _ l)
          (nothing_sent l.1))
    where
      sends_data : Ble × (recording link).State → Type 0
      sends_data x = Flushes l.1 x.1.1

      answered : Ble
      answered =
          if h4 == h.h4_evt && leb 2 (length buf)
          then record b { pending = note_command_result h buf b.pending }
          else b

      is_event : Bool
      is_event =
          answered.running
          && h4 == h.h4_evt
          && ltb 0 (length buf)
          && not (get_or buf 0 0 == h.cmd_complete)
          && not (get_or buf 0 0 == h.cmd_status)

module _ (e : Env) where
  Unasked-Quiet :
      (x : Happening) (b : Board (recorded e))
      → Unasked x
      → Quiet b.link.1 (happen (recorded e) x b).link.1
  unfolding happen stats_tick send BleBatches.flush Batch.linger_expired
  Unasked-Quiet (host_frame kind payload) b u = absurd u
  Unasked-Quiet (heard pkt) b u =
      Flushes-Quiet (net_recv_data-Flushes e.link pkt b.radio b.batch b.link)
  Unasked-Quiet (radio_event evt) b u = refl
  Unasked-Quiet batch_timer b u =
      Flushes-Quiet
        (BatchFlushes.flush_locked-Flushes e.link (record b.batch { linger = false }) b.link)
  Unasked-Quiet (hci_packet ts now h4 buf) b u =
      Flushes-Quiet (receive-Flushes e.link e.hci ts now h4 buf b.ble b.link)
  Unasked-Quiet ble_timer b u = Flushes-Quiet (
      BleFlushes.flush_locked-Flushes e.link (record b.ble.batch { linger = false }) b.ble.counters
        b.link)
  Unasked-Quiet sync_work b u = refl
  Unasked-Quiet (big_work now) b u = refl
  Unasked-Quiet iso_path_work b u = refl
  Unasked-Quiet second b u =
      append-silent (b.link.1 ++ _ ∷ []) (_ ∷ []) refl ∙ append-silent b.link.1 (_ ∷ []) refl

module _ (e : Env) (not_filter : e.type_code control_cmd ≢ e.type_code ble_filter)
    (not_keys : e.type_code control_cmd ≢ e.type_code ble_keys) where
  handle-answers :
      (kind : ℕ) (payload : Bytes) (b : Board (recorded e))
      → carried answers (handle (recorded e) kind payload b).link.1
        ≡ carried answers b.link.1 ++ asks e kind payload
  handle-answers kind payload b = elim (Bool-cases (kind == e.type_code control_cmd)) [
    | inr other ↦
        ap (λ (l : (recording e.link).State). carried answers l.1)
          (handle_silent e kind payload b
            (inl (λ (same : kind ≡ e.type_code control_cmd). ground arith)))
        ∙ sym (append-nil _)
        ∙ ap (λ xs. carried answers b.link.1 ++ xs) (ground arith)
    | inl same ↦ elim (dec_lt (length payload) cmd_payload_len) [
      | yes short ↦
          ap (λ (l : (recording e.link).State). carried answers l.1)
            (handle_silent e kind payload b (inr short))
          ∙ sym (append-nil _)
          ∙ ap (λ xs. carried answers b.link.1 ++ xs) (ground arith)
      | no long ↦
          ap (λ k. carried answers (handle (recorded e) k payload b).link.1) (ground arith)
          ∙ Answered-answers e _ (handle_answers e payload b not_filter not_keys (omega arith))
          ∙ ap (λ xs. carried answers b.link.1 ++ xs) (ground arith)
    ]
  ]

  happen-answers :
      (x : Happening) (b : Board (recorded e))
      → carried answers (happen (recorded e) x b).link.1 ≡ carried answers b.link.1 ++ asked e x
  unfolding happen
  happen-answers (host_frame kind payload) b = handle-answers kind payload b
  happen-answers x b = Unasked-Quiet e x b tt ∙ sym (append-nil (carried answers b.link.1))

  -- Whatever happens on the board besides, and in whatever order: the replies among the frames given to
  -- the link are those that were there before, followed by one for each command frame of five bytes or
  -- more, naming its command, in the order in which they came. Nothing else sends a reply. The three
  -- frame types are taken to differ.
  pub run-answers :
      (xs : List Happening) (b : Board (recorded e))
      → carried answers (run (recorded e) xs b).link.1 ≡ carried answers b.link.1 ++ commands e xs
  unfolding run
  run-answers [] b = sym (append-nil (carried answers b.link.1))
  run-answers (x ∷ xs) b =
      run-answers xs (happen (recorded e) x b)
      ∙ ap (λ ns. ns ++ commands e xs) (happen-answers x b)
      ∙ append_assoc (carried answers b.link.1) (asked e x) (commands e xs)
