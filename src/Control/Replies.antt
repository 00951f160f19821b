-- ===== src/Control/Replies.antt =====
-- The replies of src/control.c, read off the list of frames that are given to the link.
use nrf54l15_sniffer.Base.{
  ℕ, ◌≡◌, ◌≢◌, ◌≤◌, ◌<◌, ap, ◌∙◌, Bool, true, false, Bytes, length, get_or, List, [], ◌∷◌, ◌++◌,
  append_assoc, ltb, ◌==◌, Code, is_ok, Option-cases, inl, inr, ◌⊎◌, arith,
}
use nrf54l15_sniffer.Wire.{control_reply, control_cmd, ble_filter, ble_keys}
use nrf54l15_sniffer.LinkApi.{Sent}
use nrf54l15_sniffer.Commands.{Status, unknown_command}
use nrf54l15_sniffer.Board.{recorded, Env, Board, send}
use nrf54l15_sniffer.Control.{decode, cmd_payload_len, run_command, handle, reply, reply_bytes}
use nrf54l15_sniffer.LinkApi.Flushes.{OnlyData, Flushes, nothing_sent}
use nrf54l15_sniffer.Control.Flushes.{execute-Flushes}

module _ (e : Env) where
  -- The last frame sent is the reply to the command, and before it only captured packets went.
  pub record Answered (command : ℕ) (before after : List Sent) : Type 0 where
    pub status : Status
    pub value : ℕ
    pub accepted : Bool
    pub flushed : List Sent
    pub data_only : OnlyData flushed
    pub log_is :
        after
        ≡ before
          ++ (flushed
              ++ record {
                kind = control_reply;
                payload = reply_bytes (recorded e) command status value;
                accepted = accepted;
              }
                ∷ [])

  answered :
      (command value : ℕ) (status : Status) (b0 : List Sent) (b : Board (recorded e))
      → Flushes b0 b.link.1
      → Answered command b0 (reply (recorded e) command status value b).link.1
  unfolding reply send
  answered command value status b0 b f = record {
    status = status;
    value = value;
    accepted = is_ok taken;
    flushed = f.frames;
    data_only = f.data_only;
    log_is = ap (λ xs. xs ++ last ∷ []) f.log_is ∙ append_assoc b0 f.frames (last ∷ []);
  }
    where
      taken : Code
      taken = (e.link.send control_reply (reply_bytes (recorded e) command status value) b.link.0).0

      last : Sent
      last = record {
        kind = control_reply;
        payload = reply_bytes (recorded e) command status value;
        accepted = is_ok taken;
      }

  run_command-Answered :
      (command value : ℕ) (b : Board (recorded e))
      → Answered command b.link.1 (run_command (recorded e) command value b).link.1
  unfolding run_command
  run_command-Answered command value b = elim (Option-cases (decode e.commands command)) [
    | inl unknown ↦
        rw (unknown, run_command)
          (answered command 0 unknown_command b.link.1 b (nothing_sent b.link.1))
    | inr (cmd, known) ↦
        rw (known, run_command) (answered command _ _ b.link.1 _ (execute-Flushes e cmd value b))
  ]

  -- A command frame of five bytes or more, whatever the command, its value and the state of the
  -- board: one reply is sent, it names the command, and it is the last frame that the command
  -- causes; all that goes before it is captured packets. The three frame types are taken to differ.
  pub handle_answers :
      (payload : Bytes) (b : Board (recorded e))
      → e.type_code control_cmd ≢ e.type_code ble_filter
      → e.type_code control_cmd ≢ e.type_code ble_keys
      → cmd_payload_len ≤ length payload
      → Answered
          (get_or payload 0 0)
          b.link.1
          (handle (recorded e) (e.type_code control_cmd) payload b).link.1
  unfolding handle
  handle_answers payload b not_filter not_keys long =
      rw (filter, keys, cmd, enough) (run_command-Answered _ _ b)
    where
      filter : (e.type_code control_cmd == e.type_code ble_filter) ≡ false
      filter = ground arith

      keys : (e.type_code control_cmd == e.type_code ble_keys) ≡ false
      keys = ground arith

      cmd : (e.type_code control_cmd == e.type_code control_cmd) ≡ true
      cmd = ground arith

      enough : ltb (length payload) cmd_payload_len ≡ false
      enough = ground arith

  pub handle_silent :
      (type : ℕ) (payload : Bytes) (b : Board (recorded e))
      → (type ≢ e.type_code control_cmd) ⊎ (length payload < cmd_payload_len)
      → (handle (recorded e) type payload b).link ≡ b.link
  unfolding handle
  handle_silent type payload b (inl alien) = ground arith
  handle_silent type payload b (inr short) = ground arith
