-- ===== src/Ble/Setup/Timing.antt =====
-- The scan interval and window of src/radio_ble.c, in units of 0.625 ms.
use nrf54l15_sniffer.Base.{
  ℕ, ◌+◌, ◌*◌, ◌/◌, ◌^◌, ◌≤◌, ◌<◌, ◌≡◌, ◌∙◌, ap, min, ◌==◌, if◌then◌else◌, arith,
}
use nrf54l15_sniffer.Ble.Setup.{units_per_ms, used_interval, used_window}

used_window-bounds :
    (interval_ms window_ms : ℕ)
    → interval_ms ≤ 40959
    → (1 ≤ used_window interval_ms window_ms)
      × (used_window interval_ms window_ms ≤ used_interval interval_ms)
      × (used_interval interval_ms ≤ 40959)
used_window-bounds interval_ms window_ms k = (ground arith, ground arith, ground arith)

units_per_ms_exact : (ms : ℕ) → ms ≤ 40959 → units_per_ms ms ≡ ms * 8 / 5
units_per_ms_exact ms k = omega arith

-- For an interval of at most 40959 ms and any window, both as the host gives them: the controller is
-- given the interval in units of 0.625 ms, rounded down, with 60 ms for 0, and the window likewise, with
-- the whole interval for a window that is 0 or longer than it. So the window is never empty, and never
-- longer than the interval.
pub used_window_fits :
    (interval_ms window_ms : ℕ)
    → interval_ms ≤ 40959
    → let i = units_per_ms (used_interval interval_ms) in
      let w = units_per_ms (used_window interval_ms window_ms) in
      let asked = if interval_ms == 0 then 60 else interval_ms in
      (i ≡ asked * 8 / 5)
      × (w ≡ (if window_ms == 0 then asked else min window_ms asked) * 8 / 5)
      × (1 ≤ w)
      × (w ≤ i)
used_window_fits interval_ms window_ms k =
    let (some, within, bound) = used_window-bounds interval_ms window_ms k in
    let i = units_per_ms_exact (used_interval interval_ms) bound in
    let w = units_per_ms_exact (used_window interval_ms window_ms) (omega arith) in
    (i, w ∙ ap (λ n. n * 8 / 5) (ground arith), omega (arith, w), omega (arith, w, i))

-- An interval of 40960 ms or more, up to the largest that the host can send, wraps: the controller
-- is given 65536 units, or 40.96 s, less than was asked for.
pub units_per_ms_wraps :
    (interval_ms : ℕ)
    → 40960 ≤ interval_ms
    → interval_ms < 2 ^ 16
    → units_per_ms (used_interval interval_ms) + 2 ^ 16 ≡ interval_ms * 8 / 5
units_per_ms_wraps interval_ms lo hi = ground arith
