-- ===== src/Link/Progress.antt =====
-- `drain` on any bytes at all: its loop ends, and the reader never gets stuck with a full buffer.
use nrf54l15_sniffer.Base.{
  ℕ, zero, suc, ◌+◌, ◌-◌, ◌≤◌, ◌<◌, ◌≡◌, refl, Bytes, length, drop, [], ◌∷◌, lt→ltb, arith,
  length-drop, Option, get_or, take, ◌*◌, inl, inr, ◌⊎◌,
}
use native.Mathlib.Decide.{dec_lt}
use nrf54l15_sniffer.Wire.{Wire, IsWire}
use nrf54l15_sniffer.Link.{
  Next, wait, skip, take_frame, next, dispatch, drain_loop, drain, rx_buf_size,
}

-- A header that has not come whole, or a good one whose payload has not.
abbrev pub InFlight : Wire → Bytes → Type 0
InFlight wire p =
    (length p < 10)
    ⊎ ((get_or p 0 0 + 256 * get_or p 1 0 ≡ wire.magic)
        × (get_or p 8 0 + 256 * get_or p 9 0 ≡ wire.crc16 (take 8 p))
        × (get_or p 6 0 + 256 * get_or p 7 0 ≤ wire.max_payload)
        × (length p < 10 + (get_or p 6 0 + 256 * get_or p 7 0)))

module _ {wire : Wire} (w : IsWire wire) where
  next-wait : (p : Bytes) → next wire p ≡ wait → InFlight wire p
  unfolding next
  next-wait p e = elim (dec_lt (length p) 10) [
    | yes few ↦ inl few
    | no header ↦ inr (
      ground (arith, w.header_is),
      ground (arith, w.header_is),
      ground (arith, w.header_is),
      ground (arith, w.header_is),
    )
  ]

  next-skip : (p : Bytes) → next wire p ≡ skip → 0 < length p
  unfolding next
  next-skip p e = ground (arith, w.header_is)

  next-take_frame :
      (p : Bytes) (len : ℕ) → next wire p ≡ take_frame len → wire.header_len + len ≤ length p
  unfolding next
  next-take_frame p len e = ground (arith, w.header_is)

  next-nil : next wire [] ≡ wait
  unfolding next
  next-nil = rw (lt→ltb 0 wire.header_len (omega (arith, w.header_is)))

  Next-cases : (n : Next) → (n ≡ wait) ⊎ ((n ≡ skip) ⊎ ((len : ℕ) × (n ≡ take_frame len)))
  Next-cases wait = inl refl
  Next-cases skip = inr (inl refl)
  Next-cases (take_frame len) = inr (inr (len, refl))

  module _ {ℓ} {S : Type ℓ} (handler : Option (ℕ → Bytes → S → S)) where
    drain_loop-waits :
        (fuel : ℕ) (p : Bytes) (s : S)
        → length p ≤ fuel
        → let rest = (drain_loop wire handler fuel p s).0 in
          (next wire rest ≡ wait) × (length rest ≤ length p)
    unfolding drain_loop
    drain_loop-waits zero [] s h = (next-nil, omega arith)
    drain_loop-waits zero (b ∷ p) s h = absurd (omega arith)
    drain_loop-waits (suc fuel) p s h = elim (Next-cases (next wire p)) [
      | inl e ↦ rw (e, drain_loop) (e, omega arith)
      | inr (inl e) ↦
          let some_bytes = next-skip p e in
          let (ends, less) = drain_loop-waits fuel (drop 1 p) s (omega (arith, length-drop 1 p)) in
          rw (e, drain_loop) (ends, omega (arith, length-drop 1 p))
      | inr (inr (len, e)) ↦
          let n = wire.header_len + len in
          let whole = next-take_frame p len e in
          let (ends, less) =
            drain_loop-waits fuel (drop n p) (dispatch wire handler p len s)
              (omega (arith, length-drop n p, w.header_is)) in
          rw (e, drain_loop) (ends, omega (arith, length-drop n p))
    ]

    -- `drain` gets through any bytes in `rx_buf`: it stops only where fewer than the 10 bytes of a header
    -- are left, or where a header with the right magic and checksum stands at the front, whose payload
    -- is not too long and has not come whole. It always leaves room for at least one more byte, so the
    -- reader cannot be stuck with a full buffer.
    pub drain_progress :
        (p : Bytes) (s : S)
        → length p ≤ rx_buf_size
        → InFlight wire (drain_loop wire handler (length p) p s).0
          × (length (drain wire handler p s).0 < rx_buf_size)
    unfolding drain
    drain_progress p s h =
        let rest = (drain_loop wire handler (length p) p s).0 in
        let (ends, less) = drain_loop-waits (length p) p s (omega arith) in
        (
          next-wait rest ends,
          ground (arith, length-drop (rx_buf_size - wire.header_len) rest, w.header_is),
        )
