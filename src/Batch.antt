-- ===== src/Batch.antt =====
-- src/batch.c: 802.15.4 packets accumulated into PACKET_BATCH frames.
-- The mutex makes each function below one step, and the static buffers are fields of the state.
pub mod Format
pub mod Invariant
pub mod Join
pub mod Deliver
pub mod Books
pub mod Account
pub mod Runs
pub mod Flushes
use nrf54l15_sniffer.Base.{
  ℕ, ◌+◌, ◌-◌, ◌^◌, Bool, true, false, ◌&&◌, ◌||◌, not, Bytes, length, take, drop, get_or, ◌∷◌, [],
  ◌++◌, u8, u16, u32, sub64, le_bytes, le16, write_at, ltb, ◌==◌, if◌then◌else◌, is_ok, replicate,
}
use nrf54l15_sniffer.Wire.{packet, packet_batch}
use nrf54l15_sniffer.LinkApi.{LinkApi}

abbrev pub max_entries : ℕ
max_entries = 32

abbrev pub max_psdu : ℕ
max_psdu = 127

abbrev pub max_dt_us : ℕ
max_dt_us = 0xffff

abbrev pub header_len : ℕ
header_len = 10

abbrev pub entry_len : ℕ
entry_len = 5

abbrev pub max_batch_bytes : ℕ
max_batch_bytes = 2048

-- The static variables of batch.c; `linger` says whether the linger timer is pending.
pub record Batch : Type 0 where
  pub buf : Bytes
  pub used : ℕ
  pub count : ℕ
  pub base_us : ℕ
  pub last_us : ℕ
  pub channel : ℕ
  pub dropped : ℕ
  pub linger : Bool

-- The arguments of `sn_batch_add`; `len` is the length of `psdu`, and `rssi` the byte of the
-- signed value.
pub record Packet : Type 0 where
  pub channel : ℕ
  pub timestamp_us : ℕ
  pub lqi : ℕ
  pub rssi : ℕ
  pub psdu : Bytes

unfoldable pub initial : Batch
initial = record {
  buf = replicate max_batch_bytes 0;
  used = header_len;
  count = 0;
  base_us = 0;
  last_us = 0;
  channel = 0;
  dropped = 0;
  linger = false;
}

-- `struct sn_154_meta` as it lies in memory.
abbrev pub meta_bytes : ℕ → ℕ → ℕ → ℕ → Bytes
meta_bytes channel lqi rssi timestamp_us = channel ∷ lqi ∷ rssi ∷ 0 ∷ le_bytes 8 timestamp_us

-- The payload of a batch of one: the metadata, then the packet of the first entry.
pub one_payload : Batch → Bytes
one_payload s =
    let entry = drop header_len s.buf in
    let len = get_or entry 4 0 in
    meta_bytes s.channel (get_or entry 2 0) (get_or entry 3 0) s.base_us
    ++ take len (drop entry_len entry)

-- The header, written when the batch closes.
abbrev pub write_header : Batch → Batch
write_header s = record s {
  buf = write_at s.buf 0 (le_bytes 8 s.base_us ++ s.channel ∷ s.count ∷ []);
}

-- What both ways of sending end with: the drop count, and an empty batch.
abbrev pub close : Batch → Bool → ℕ → Batch
close s sent packets = record s {
  dropped = if sent then s.dropped else u32 (s.dropped + packets);
  count = 0;
  used = header_len;
}

abbrev pub must_close : Batch → Packet → ℕ → Bool
must_close s p len =
    ltb 0 s.count
    && (not (p.channel == s.channel)
        || ltb p.timestamp_us s.last_us
        || ltb max_dt_us (sub64 p.timestamp_us s.last_us)
        || ltb max_batch_bytes (u32 (s.used + entry_len + len)))

pub open_at : Batch → Packet → Batch
open_at s p =
    if s.count == 0
    then record s { base_us = p.timestamp_us; channel = p.channel; last_us = p.timestamp_us }
    else s

abbrev pub entry_bytes : ℕ → Packet → ℕ → Bytes
entry_bytes dt p len = le16 dt ++ p.lqi ∷ p.rssi ∷ u8 len ∷ take len p.psdu

pub append_entry : Batch → Packet → ℕ → Batch
append_entry s p len = record s {
  buf = write_at s.buf s.used (entry_bytes (u16 (sub64 p.timestamp_us s.last_us)) p len);
  used = u32 (s.used + entry_len + len);
  last_us = p.timestamp_us;
  count = u8 (s.count + 1);
}

module _ (link : LinkApi) where
  -- `flush_locked`
  unfoldable pub flush_locked : Batch → link.State → Batch × link.State
  flush_locked s l =
      if s.count == 0
      then (s, l)
      else if s.count == 1
      then (let (code, l') = link.send packet (one_payload s) l in (close s (is_ok code) 1, l'))
      else (let closed = write_header s in
          let (code, l') = link.send packet_batch (take s.used closed.buf) l in
          (close closed (is_ok code) s.count, l'))

  -- `linger_expired`: the timer has run out, and is no longer pending.
  unfoldable pub linger_expired : Batch → link.State → Batch × link.State
  linger_expired s l = flush_locked (record s { linger = false }) l

  -- `sn_batch_flush`
  unfoldable pub flush : Batch → link.State → Batch × link.State
  flush s l = flush_locked (record s { linger = false }) l

  -- The end of `sn_batch_add`: a full batch is sent, another waits for company.
  pub settle : Batch → link.State → Batch × link.State
  settle s l =
      if s.count == max_entries
      then (let (s', l') = flush_locked s l in (record s' { linger = false }, l'))
      else (record s { linger = true }, l)

  -- `sn_batch_add`
  pub add : Packet → Batch → link.State → Batch × link.State
  add p s l =
      let len = if ltb max_psdu (length p.psdu) then max_psdu else length p.psdu in
      let (s', l') = if must_close s p len then flush_locked s l else (s, l) in
      settle (append_entry (open_at s' p) p len) l'

-- `sn_batch_reset_counters`
unfoldable pub reset_counters : Batch → Batch
reset_counters s = record s { dropped = 0 }
