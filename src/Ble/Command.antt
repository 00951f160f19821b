-- ===== src/Ble/Command.antt =====
-- One HCI command at a time, and its answer picked out of the events (src/radio_ble.c).
use nrf54l15_sniffer.Base.{
  ℕ, ◌+◌, ◌≡◌, ◌≢◌, refl, ap, ◌∙◌, Bool, true, false, ◌&&◌, ◌||◌, not, Bytes, length, get_or, List,
  [], ◌∷◌, u32, leb, ◌==◌, if◌then◌else◌, Code, success, failure, enobufs, etimedout, eio, arith,
  Option, none, some, is_etimedout,
}
use nrf54l15_sniffer.Hci.{Opcode, Hci, Controller, no_buffer, send_failed, events}
use nrf54l15_sniffer.Link.{get_le16}
use nrf54l15_sniffer.Ble.{Ble, Pending}

-- What an event says of a command, if it is an answer: the opcode and the status.
abbrev pub answer_of : Hci → Bytes → Bool × ℕ × ℕ
answer_of h evt =
    if get_or evt 0 0 == h.cmd_complete && leb 6 (length evt)
    then (true, get_le16 evt 3, get_or evt 5 0)
    else if get_or evt 0 0 == h.cmd_status && leb 6 (length evt)
    then (true, get_le16 evt 4, get_or evt 2 0)
    else (false, 0, 0)

module _ (h : Hci) where
  -- `note_command_result`
  unfoldable pub note_command_result : Bytes → Pending → Pending
  note_command_result evt p =
      let (is_answer, opcode, status) = answer_of h evt in
      if not is_answer || opcode == 0 || not (opcode == p.opcode)
      then p
      else record { opcode = 0; status = status; done = true }

  -- The events that the forwarding thread reads while a command waits.
  unfoldable pub note_all : List Bytes → Pending → Pending
  note_all [] p = p
  note_all (e ∷ es) p = note_all es (note_command_result e p)

  module _ (c : Controller) where
    -- What the wait of `hci_command` comes to.
    abbrev pub conclude : Pending → Ble → Code × Ble
    conclude p b =
        if not p.done
        then (
          failure etimedout,
          record b {
            counters = record b.counters {
              command_timeouts = u32 (b.counters.command_timeouts + 1);
            };
          },
        )
        else ((if p.status == 0 then success else failure eio), b)

    -- `hci_command`: the result and the state. The status that it also reports goes to the log only. The
    -- command and its answer are one step: of the events of these two seconds, only what
    -- `note_command_result` makes of them is here.
    unfoldable pub hci_command : Opcode → Bytes → Ble → c.State → Code × Ble × c.State
    hci_command op params b s =
        let opcode = h.opcode op in
        let (reply, s') = c.command opcode params s in
        let sent : Pending = record { opcode = opcode; status = 0xff; done = false } in
        elim reply [
          | no_buffer ↦ (failure enobufs, b, s')
          | send_failed e ↦ (failure e, record b { pending = record sent { opcode = 0 } }, s')
          | events es ↦
              let p = note_all es sent in
              let (code, b') = conclude p b in
              (code, record b' { pending = record p { opcode = 0; done = false } }, s')
        ]

    -- `send_command`, whose log output is left out
    unfoldable pub send_command : Opcode → Bytes → Ble → c.State → Code × Ble × c.State
    send_command op params b s = hci_command op params b s

  -- The status in the first event that answers the command with this opcode.
  abbrev pub first_answer : ℕ → List Bytes → Option ℕ
  first_answer opcode [] = none
  first_answer opcode (e ∷ es) =
      let (is_answer, of, status) = answer_of h e in
      if is_answer && of == opcode then some status else first_answer opcode es

  note_all-answered : (es : List Bytes) (p : Pending) → p.opcode ≡ 0 → note_all es p ≡ p
  unfolding note_all note_command_result
  note_all-answered [] p e = refl
  note_all-answered (x ∷ es) p e = ap (note_all es) ignored ∙ note_all-answered es p e
    where
      ignored : note_command_result x p ≡ p
      ignored = ground arith

  -- What the pending command becomes, from the first answer to it.
  abbrev pub noted : Pending → Option ℕ → Pending
  noted p none = p
  noted p (some status) = record { opcode = 0; status = status; done = true }

  note_all-noted :
      (es : List Bytes) (p : Pending)
      → p.opcode ≢ 0
      → note_all es p ≡ noted p (first_answer p.opcode es)
  unfolding note_all note_command_result
  note_all-noted [] p ne = refl
  note_all-noted (x ∷ es) p ne = ground (
    arith,
    note_all-noted es p ne,
    note_all-answered es (record { opcode = 0; status = (answer_of h x).2; done = true }),
  )

  -- The result of a command that was sent, by the first event that answers it, however many other
  -- events and answers to other commands come before or after.
  abbrev pub result_of : Option ℕ → Code
  result_of none = failure etimedout
  result_of (some status) = if status == 0 then success else failure eio

  module _ (c : Controller) where
    -- A command that `bt_send` took succeeds exactly if the first event that answers it within the two
    -- seconds carries status 0, fails with -EIO if that carries another status, and with -ETIMEDOUT if
    -- none answers it; nothing that comes before or after that answer matters. A time-out, and nothing
    -- else, is counted, and no command is left in flight.
    pub hci_command_lem :
        (op : Opcode) (params : Bytes) (b : Ble) (s : c.State) (es : List Bytes)
        → h.opcode op ≢ 0
        → (c.command (h.opcode op) params s).0 ≡ events es
        → let (code, b', s') = hci_command c op params b s in
          (code ≡ result_of (first_answer (h.opcode op) es))
          × (b'.pending.opcode ≡ 0)
          × (b'.pending.done ≡ false)
          × (b'.counters.command_timeouts ≡ (
              if is_etimedout code
              then u32 (b.counters.command_timeouts + 1)
              else b.counters.command_timeouts))
    unfolding hci_command
    hci_command_lem op params b s es ne e =
        rw (e, hci_command) (ground (arith, noted_es), refl, refl, ground (arith, noted_es))
      where
        sent : Pending
        sent = record { opcode = h.opcode op; status = 0xff; done = false }

        noted_es : note_all es sent ≡ noted sent (first_answer (h.opcode op) es)
        noted_es = note_all-noted es sent ne
