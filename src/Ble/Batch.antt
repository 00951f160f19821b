-- ===== src/Ble/Batch.antt =====
-- The batches of src/radio_ble.c: HCI packets accumulated into BLE_BATCH frames.
pub mod Format
pub mod Invariant
pub mod Deliver
pub mod Delivery
pub mod Adding
pub mod Flushes
pub mod Tally
use nrf54l15_sniffer.Base.{
  ℕ, ◌+◌, Bool, true, false, ◌&&◌, ◌||◌, Bytes, length, take, drop, get_or, [], ◌∷◌, ◌++◌, u8, u16,
  u32, sub64, le_bytes, le16, write_at, ltb, ◌==◌, if◌then◌else◌, is_ok,
}
use nrf54l15_sniffer.Wire.{packet, ble_batch}
use nrf54l15_sniffer.LinkApi.{LinkApi}
use nrf54l15_sniffer.Link.{get_le16}
use nrf54l15_sniffer.Ble.{Ble, BleBatch, Counters, batch_buf_len, batch_hdr_len}

abbrev pub max_entries : ℕ
max_entries = 32

abbrev pub entry_len : ℕ
entry_len = 7

-- `SN_BLE_MAX_PACKET`
abbrev pub max_packet : ℕ
max_packet = 300

-- `struct sn_ble_meta` as it lies in memory.
abbrev pub meta_bytes : ℕ → ℕ → ℕ → Bytes
meta_bytes timestamp_us orig_len flags = le_bytes 8 timestamp_us ++ le16 orig_len ++ flags ∷ 0 ∷ []

-- The packet that `send_alone` sends for a batch of one: the first entry.
pub alone_payload : BleBatch → Bytes
alone_payload s =
    let entry = drop batch_hdr_len s.buf in
    meta_bytes s.base_us (get_le16 entry 2) (get_or entry 4 0)
    ++ take (get_le16 entry 5) (drop entry_len entry)

abbrev pub write_header : BleBatch → BleBatch
write_header s = record s { buf = write_at s.buf 0 (le_bytes 8 s.base_us ++ s.count ∷ []) }

abbrev pub emptied : BleBatch → BleBatch
emptied s = record s { count = 0; used = batch_hdr_len }

-- The packets of a frame are counted as forwarded or as dropped.
abbrev pub count_sent : Bool → ℕ → Counters → Counters
count_sent sent packets k =
    if sent
    then record k { forwarded = u32 (k.forwarded + packets) }
    else record k { dropped = u32 (k.dropped + packets) }

abbrev pub must_close : BleBatch → ℕ → ℕ → Bool
must_close s ts take_len =
    ltb 0 s.count
    && (ltb ts s.last_us
        || ltb 0xffff (sub64 ts s.last_us)
        || ltb batch_buf_len (u32 (s.used + entry_len + take_len)))

unfoldable pub open_at : BleBatch → ℕ → BleBatch
open_at s ts = if s.count == 0 then record s { base_us = ts; last_us = ts } else s

abbrev pub entry_bytes : ℕ → ℕ → ℕ → Bytes → Bytes
entry_bytes dt orig_len flags kept =
    le16 dt ++ le16 orig_len ++ flags ∷ (le16 (length kept) ++ kept)

-- `kept` is what is copied of the packet, with its H4 type byte.
unfoldable pub append_entry : BleBatch → ℕ → ℕ → ℕ → Bytes → BleBatch
append_entry s ts orig_len flags kept = record s {
  buf = write_at s.buf s.used (entry_bytes (u16 (sub64 ts s.last_us)) orig_len flags kept);
  used = u32 (s.used + (entry_len + length kept));
  last_us = ts;
  count = u8 (s.count + 1);
}

module _ (link : LinkApi) where
  -- `ble_flush_locked`, with the `send_alone` that it calls for a batch of one
  unfoldable pub flush_locked : BleBatch → Counters → link.State → BleBatch × Counters × link.State
  flush_locked s k l =
      if s.count == 0
      then (s, k, l)
      else if s.count == 1
      then (let (code, l') = link.send packet (alone_payload s) l in
          (emptied s, count_sent (is_ok code) 1 k, l'))
      else (let closed = write_header s in
          let (code, l') = link.send ble_batch (take s.used closed.buf) l in
          (emptied closed, count_sent (is_ok code) s.count k, l'))

  -- `k_work_cancel_delayable` and a flush, as `sn_radio_ble_stop` has them; also
  -- `ble_linger_expired`, when the timer has run out.
  unfoldable pub flush : Ble → link.State → Ble × link.State
  flush b l =
      let (s', k', l') = flush_locked (record b.batch { linger = false }) b.counters l in
      (record b { batch = s'; counters = k' }, l')

  -- The end of `forward`: a full batch is sent, another waits for company.
  unfoldable pub settle : BleBatch → Counters → link.State → BleBatch × Counters × link.State
  settle s k l =
      if s.count == max_entries
      then (let (s', k', l') = flush_locked s k l in (record s' { linger = false }, k', l'))
      else (record s { linger = true }, k, l)

  -- What `forward` does with a packet under the lock.
  unfoldable pub add :
      ℕ → ℕ → ℕ → Bytes → BleBatch → Counters → link.State → BleBatch × Counters × link.State
  add ts orig_len flags kept s k l =
      let (s', k', l') = if must_close s ts (length kept) then flush_locked s k l else (s, k, l) in
      let s'' = append_entry (open_at s' ts) ts orig_len flags kept in
      settle s'' (record k' { captured = u32 (k'.captured + 1) }) l'
