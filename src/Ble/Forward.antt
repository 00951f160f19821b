-- ===== src/Ble/Forward.antt =====
-- The forwarding thread of src/radio_ble.c: what becomes of each packet of the controller.
use nrf54l15_sniffer.Base.{
  ℕ, ◌+◌, not, ◌&&◌, Bytes, length, get_or, take, ◌∷◌, u16, u32, ltb, leb, ◌==◌, if◌then◌else◌,
}
use nrf54l15_sniffer.LinkApi.{LinkApi}
use nrf54l15_sniffer.Hci.{Hci}
use nrf54l15_sniffer.Ble.{Ble}
use nrf54l15_sniffer.Ble.Command.{note_command_result}
use nrf54l15_sniffer.Ble.Events.{note_counts, note_biginfo, note_periodic}
use nrf54l15_sniffer.Ble.Batch.{add, max_packet}

abbrev pub h4_event : ℕ
h4_event = 4

abbrev pub h4_iso : ℕ
h4_iso = 5

-- `SN_BLE_FLAG_TRUNCATED`
abbrev pub flag_truncated : ℕ
flag_truncated = 1

-- `peek`: the front of the event behind its H4 byte.
abbrev pub peek : Bytes → Bytes
peek evt = h4_event ∷ take 31 evt

module _ (h : Hci) (link : LinkApi) where
  -- What `forward` notices in an event.
  abbrev pub notice : ℕ → Bytes → Ble → Ble
  notice now evt b =
      let counted = note_counts h now evt b in
      if counted.periodic_enabled
      then note_biginfo h now (peek evt) (note_periodic (peek evt) counted)
      else counted

  abbrev pub count_oversized : Ble → Ble
  count_oversized b = record b {
    counters = record b.counters { oversized = u32 (b.counters.oversized + 1) };
  }

  -- `forward`, at `ts` microseconds and `now` milliseconds of uptime
  unfoldable pub forward : ℕ → ℕ → Bytes → ℕ → Ble → link.State → Ble × link.State
  forward ts now buf h4_type b l =
      let full = u16 (length buf + 1) in
      let truncated = ltb max_packet full in
      let take_len = if truncated then max_packet else full in
      let flags = if truncated then flag_truncated else 0 in
      let sized = if truncated then count_oversized b else b in
      let noticed = if h4_type == h4_event then notice now buf sized else sized in
      let (batch, counters, l') =
        add link ts full flags (take take_len (h4_type ∷ buf)) noticed.batch noticed.counters l in
      (record noticed { batch = batch; counters = counters }, l')

  -- One turn of `fwd_loop`, with the packet's H4 byte `h4` and the rest.
  unfoldable pub receive : ℕ → ℕ → ℕ → Bytes → Ble → link.State → Ble × link.State
  receive ts now h4 buf b l =
      let answered =
        if h4 == h.h4_evt && leb 2 (length buf)
        then record b { pending = note_command_result h buf b.pending }
        else b in
      if answered.running && h4 == h.h4_iso
      then forward ts now buf h4_iso answered l
      else if answered.running
          && h4 == h.h4_evt
          && ltb 0 (length buf)
          && not (get_or buf 0 0 == h.cmd_complete)
          && not (get_or buf 0 0 == h.cmd_status)
      then forward ts now buf h4_event answered l
      else (answered, l)
