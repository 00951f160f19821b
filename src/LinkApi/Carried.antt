-- ===== src/LinkApi/Carried.antt =====
-- The packets in the frames that a batcher gave to the link, by the decoder that the host has for
-- them.
use nrf54l15_sniffer.Base.{
  ℕ, ◌+◌, ◌≤◌, ◌≡◌, refl, sym, length, List, [], ◌∷◌, ◌++◌, if◌then◌else◌, arith, append_assoc,
}
use nrf54l15_sniffer.LinkApi.{Sent}

module _ {A : Type 0} (read : Sent → List A) where
  -- All packets, in the order of the frames.
  abbrev pub carried : List Sent → List A
  carried [] = []
  carried (f ∷ fs) = read f ++ carried fs

  -- How many packets were in the frames that the link took, and in those that it refused.
  abbrev pub taken : List Sent → ℕ
  taken [] = 0
  taken (f ∷ fs) = (if f.accepted then length (read f) else 0) + taken fs

  abbrev pub refused : List Sent → ℕ
  refused [] = 0
  refused (f ∷ fs) = (if f.accepted then 0 else length (read f)) + refused fs

  pub carried-append : (fs gs : List Sent) → carried (fs ++ gs) ≡ carried fs ++ carried gs
  carried-append [] gs = refl
  carried-append (f ∷ fs) gs =
      rw (carried-append fs gs) (sym (append_assoc (read f) (carried fs) (carried gs)))

  pub taken-append : (fs gs : List Sent) → taken (fs ++ gs) ≡ taken fs + taken gs
  taken-append [] gs = omega arith
  taken-append (f ∷ fs) gs = omega (arith, taken-append fs gs)

  pub refused-append : (fs gs : List Sent) → refused (fs ++ gs) ≡ refused fs + refused gs
  refused-append [] gs = omega arith
  refused-append (f ∷ fs) gs = omega (arith, refused-append fs gs)

-- No payload is longer than `n` bytes.
abbrev pub Short : ℕ → List Sent → Type 0
Short n [] = Unit {0}
Short n (f ∷ fs) = (length f.payload ≤ n) × Short n fs

pub Short-append : (n : ℕ) (fs gs : List Sent) → Short n fs → Short n gs → Short n (fs ++ gs)
Short-append n [] gs h k = k
Short-append n (f ∷ fs) gs h k = (h.0, Short-append n fs gs h.1 k)
