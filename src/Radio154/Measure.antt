-- ===== src/Radio154/Measure.antt =====
-- The energy measurement of radio154.c: its window.
use nrf54l15_sniffer.Base.{ℕ, ◌+◌, ◌*◌, ◌^◌, min, ◌≤◌, ◌<◌, arith}
use nrf54l15_sniffer.Radio154.Driver.{RadioDriver}
use nrf54l15_sniffer.Radio154.{window_ms}

-- For every window that a host can ask for, 24 bits of symbols of 16 us, the milliseconds that the
-- driver is given fit its `uint16_t` and cover the window, unless that is capped at 65535, and are
-- less than a millisecond longer.
pub window_ms_bounds :
    (driver : RadioDriver) (symbols : ℕ)
    → symbols < 2 ^ 24
    → let ms = window_ms driver symbols in
      (ms ≤ 65535)
      × (min (symbols * 16) (65535 * 1000) ≤ ms * 1000)
      × (ms * 1000 < symbols * 16 + 1000)
window_ms_bounds driver symbols h = (ground arith, ground arith, ground arith)
