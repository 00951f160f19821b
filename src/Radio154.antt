-- ===== src/Radio154.antt =====
-- src/radio154.c: 802.15.4 capture. Zephyr's radio driver is a parameter; `Measure` and `Agree` are
-- about its use, `Receive` about the packets it delivers.
pub mod Driver
pub mod Agree
pub mod Measure
pub mod Receive
pub mod Init
pub mod Tuned
use nrf54l15_sniffer.Base.{
  ℕ, ◌+◌, ◌*◌, ◌/◌, ◌^◌, Bool, true, false, not, ◌&&◌, ◌||◌, Bytes, take, u8, u32, u64, ltb, ◌==◌,
  if◌then◌else◌, Option, some, none, Code, success, failure, einval, enodata, etimedout, eio, is_ok,
  ℤ, pos, negsuc, clamp_int8,
}
use nrf54l15_sniffer.LinkApi.{LinkApi}
use nrf54l15_sniffer.Batch
use nrf54l15_sniffer.Batch.{Batch, Packet}
use Driver.{RadioDriver}

-- The static variables of radio154.c.
pub record Radio154 : Type 0 where
  pub current_channel : ℕ
  pub captured : ℕ
  pub fcs_failed : ℕ
  pub running : Bool
  pub measuring : Bool

unfoldable pub initial : Radio154
initial = record {
  current_channel = 11;
  captured = 0;
  fcs_failed = 0;
  running = false;
  measuring = false;
}

abbrev pub max_psdu : ℕ
max_psdu = 127

-- `SHRT_MAX`, which the driver reports in place of a reading
abbrev pub short_max : ℕ
short_max = 32767

abbrev pub out_of_range : ℕ → Bool
out_of_range channel = ltb channel 11 || ltb 26 channel

-- `sn_radio154_reset_counters`
unfoldable pub reset_counters : Radio154 → Radio154
reset_counters r = record r { captured = 0; fcs_failed = 0 }

-- Why a reception failed, and what else the driver reports.
pub data RxFail : Type 0 where
  invalid_fcs other_reason : RxFail

pub data RadioEvent : Type 0 where
  rx_failed : Option RxFail → RadioEvent
  other_event : RadioEvent

-- `radio_event`
unfoldable pub radio_event : RadioEvent → Radio154 → Radio154
radio_event (rx_failed (some invalid_fcs)) r =
    if not r.running || r.measuring then r else record r { fcs_failed = u32 (r.fcs_failed + 1) }
radio_event (rx_failed (some other_reason)) r = r
radio_event (rx_failed none) r = r
radio_event other_event r = r

module _ (driver : RadioDriver) where
  -- `sn_radio154_set_channel`
  pub set_channel : ℕ → Radio154 → driver.State → Code × Radio154 × driver.State
  set_channel channel r d =
      if out_of_range channel
      then (failure einval, r, d)
      else (let (err, d') = driver.set_channel channel d in
          (err, (if is_ok err then record r { current_channel = channel } else r), d'))

  -- `sn_radio154_start`
  pub start : Radio154 → driver.State → Code × Radio154 × driver.State
  start r d =
      let (err, d') = driver.start d in
      (err, (if is_ok err then record r { running = true } else r), d')

  -- `sn_radio154_stop`
  unfoldable pub stop : Radio154 → driver.State → Code × Radio154 × driver.State
  stop r d =
      if not r.running
      then (success, r, d)
      else (let (err, d') = driver.stop d in
          (err, (if is_ok err then record r { running = false } else r), d'))

  -- The window in milliseconds that a number of 16 us symbols asks for.
  abbrev pub window_ms : ℕ → ℕ
  window_ms duration_symbols =
      let ms = u32 (u32 (duration_symbols * 16) + 999) / 1000 in if ltb 65535 ms then 65535 else ms

  -- What the driver reported, as a result and `*out_dbm`.
  abbrev pub reading : Option ℤ → ℕ → Code × ℕ
  reading none out = (failure etimedout, out)
  reading (some (pos n)) out =
      if n == short_max then (failure eio, out) else (success, clamp_int8 (pos n))
  reading (some (negsuc n)) out = (success, clamp_int8 (negsuc n))

  -- The three calls that make a measurement, each if the one before succeeded, and the wait.
  pub measure : ℕ → ℕ → ℕ → driver.State → Code × ℕ × driver.State
  measure channel ms out d =
      let (tuned, d1) = driver.set_channel channel d in
      if not (is_ok tuned)
      then (tuned, out, d1)
      else (let (started, d2) = driver.start d1 in
          if not (is_ok started)
          then (started, out, d2)
          else (let (scanning, d3) = driver.ed_scan ms d2 in
              if not (is_ok scanning)
              then (scanning, out, d3)
              else (let (reported, d4) = driver.ed_wait (u32 (ms + 100)) d3 in
                  let (err, dbm) = reading reported out in (err, dbm, d4))))

  -- The calls that put the radio back.
  pub restore : ℕ → Bool → driver.State → driver.State
  restore previous was_running d =
      let d' = (driver.set_channel previous d).1 in
      if was_running then (driver.start d').1 else (driver.stop d').1

  -- `sn_radio154_energy_detect`, with `*out_dbm` before and after. While it runs, `measuring` is
  -- set; see `Receive`.
  pub energy_detect : ℕ → ℕ → ℕ → Radio154 → driver.State → Code × ℕ × Radio154 × driver.State
  energy_detect channel duration_symbols out r d =
      if out_of_range channel || duration_symbols == 0
      then (failure einval, out, r, d)
      else (let (err, dbm, d') = measure channel (window_ms duration_symbols) out d in
          (err, dbm, record r { measuring = false }, restore r.current_channel r.running d'))

-- A packet as `net_recv_data` gets it: whether it is empty, the memory at the data of its last
-- fragment, the length of all fragments, and what the driver noted.
pub record NetPkt : Type 0 where
  pub is_empty : Bool
  pub memory : Bytes
  pub frags_len : ℕ
  pub second : ℕ
  pub nanosecond : ℕ
  pub lqi : ℕ
  pub rssi_dbm : ℕ

abbrev pub timestamp_us : NetPkt → ℕ
timestamp_us pkt = u64 (u64 (pkt.second * 1_000_000) + pkt.nanosecond / 1000)

-- What `net_recv_data` makes of a packet that it keeps.
abbrev pub to_packet : Radio154 → NetPkt → Packet
to_packet r pkt = record {
  channel = r.current_channel;
  timestamp_us = timestamp_us pkt;
  lqi = pkt.lqi;
  rssi = u8 pkt.rssi_dbm;
  psdu = take (if ltb max_psdu pkt.frags_len then max_psdu else pkt.frags_len) pkt.memory;
}

module _ (link : LinkApi) where
  -- `net_recv_data`: the result, how often the packet is released, and the state.
  unfoldable pub net_recv_data :
      Option NetPkt → Radio154 → Batch → link.State → Code × ℕ × Radio154 × Batch × link.State
  net_recv_data none r b l = (failure einval, 0, r, b, l)
  net_recv_data (some pkt) r b l =
      if pkt.is_empty
      then (failure enodata, 1, r, b, l)
      else if r.measuring
      then (success, 1, r, b, l)
      else if not r.running
      then (success, 1, r, b, l)
      else (let (b', l') = Batch.add link (to_packet r pkt) b l in
          (success, 1, record r { captured = u32 (r.captured + 1) }, b', l'))
