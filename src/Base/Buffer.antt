-- ===== src/Base/Buffer.antt =====
-- Static C byte buffers as lists: a copy to an offset, and what the bytes before it become.
use Prim.Native.Nat.{ℕ, zero, suc, ◌≤◌, ◌<◌}
use mathlib.Core.Logic.{◌≢◌}
use mathlib.Core.Path.{◌≡◌, refl, sym, ap, ap₂, ◌∙◌}
use mathlib.Core.List.{List, [], ◌∷◌, ◌++◌, append_assoc}
use native.Mathlib.Omega.{arith}
use nrf54l15_sniffer.Base.Lists.{length, take, drop, get_or}

module _ {ℓ} {A : Type ℓ} where
  -- `memcpy(buf + at, bytes, n)`. What would land past the end of the buffer is dropped; the
  -- invariants of the users rule that out.
  abbrev pub write_at : List A → ℕ → List A → List A
  write_at [] k bytes = []
  write_at (x ∷ xs) (suc k) bytes = x ∷ write_at xs k bytes
  write_at (x ∷ xs) zero [] = x ∷ xs
  write_at (x ∷ xs) zero (b ∷ bytes) = b ∷ write_at xs zero bytes

  pub length-write_at : (xs : List A) (k : ℕ) (bs : List A) → length (write_at xs k bs) ≡ length xs
  length-write_at [] k bs = refl
  length-write_at (x ∷ xs) (suc k) bs = ap suc (length-write_at xs k bs)
  length-write_at (x ∷ xs) zero [] = refl
  length-write_at (x ∷ xs) zero (b ∷ bs) = ap suc (length-write_at xs zero bs)

  -- A copy over the front of a buffer.
  pub write_at-zero :
      (ys bs : List A) → length bs ≤ length ys → write_at ys 0 bs ≡ bs ++ drop (length bs) ys
  write_at-zero [] [] h = refl
  write_at-zero [] (b ∷ bs) h = absurd (omega arith)
  write_at-zero (y ∷ ys) [] h = refl
  write_at-zero (y ∷ ys) (b ∷ bs) h = ap (◌∷◌ b) (write_at-zero ys bs (omega arith))

  -- A copy behind a prefix that it leaves alone.
  pub write_at-length :
      (xs ys bs : List A)
      → length bs ≤ length ys
      → write_at (xs ++ ys) (length xs) bs ≡ xs ++ (bs ++ drop (length bs) ys)
  write_at-length [] ys bs h = write_at-zero ys bs h
  write_at-length (x ∷ xs) ys bs h = ap (◌∷◌ x) (write_at-length xs ys bs h)

  pub take-length : (xs ys : List A) → take (length xs) (xs ++ ys) ≡ xs
  take-length [] ys = refl
  take-length (x ∷ xs) ys = ap (◌∷◌ x) (take-length xs ys)

  pub drop-length : (xs ys : List A) → drop (length xs) (xs ++ ys) ≡ ys
  drop-length [] ys = refl
  drop-length (x ∷ xs) ys = drop-length xs ys

  pub append_regroup : (a b c d : List A) → (a ++ b) ++ (c ++ d) ≡ a ++ ((b ++ c) ++ d)
  append_regroup a b c d = simp append_assoc

  pub length-ne-zero : (xs : List A) → xs ≢ [] → length xs ≢ 0
  length-ne-zero [] h e = h refl
  length-ne-zero (x ∷ xs) h e = absurd (omega arith)

  pub drop-prefix : (n : ℕ) (xs ys : List A) → length xs ≡ n → drop n (xs ++ ys) ≡ ys
  drop-prefix n xs ys e = ap (λ k. drop k (xs ++ ys)) (sym e) ∙ drop-length xs ys

  pub take-prefix : (n : ℕ) (xs ys : List A) → length xs ≡ n → take n (xs ++ ys) ≡ xs
  take-prefix n xs ys e = ap (λ k. take k (xs ++ ys)) (sym e) ∙ take-length xs ys

  pub take-all : (n : ℕ) (xs : List A) → length xs ≤ n → take n xs ≡ xs
  take-all zero [] h = refl
  take-all zero (x ∷ xs) h = absurd (omega arith)
  take-all (suc n) [] h = refl
  take-all (suc n) (x ∷ xs) h = ap (◌∷◌ x) (take-all n xs (omega arith))

  pub get_or-append :
      (xs ys : List A) (i : ℕ) (d : A) → i < length xs → get_or (xs ++ ys) i d ≡ get_or xs i d
  get_or-append [] ys i d h = absurd (omega arith)
  get_or-append (x ∷ xs) ys zero d h = refl
  get_or-append (x ∷ xs) ys (suc i) d h = get_or-append xs ys i d (omega arith)

  pub take-append : (n : ℕ) (xs ys : List A) → n ≤ length xs → take n (xs ++ ys) ≡ take n xs
  take-append zero xs ys h = refl
  take-append (suc n) [] ys h = absurd (omega arith)
  take-append (suc n) (x ∷ xs) ys h = ap (◌∷◌ x) (take-append n xs ys (omega arith))

  pub drop-append : (n : ℕ) (xs ys : List A) → n ≤ length xs → drop n (xs ++ ys) ≡ drop n xs ++ ys
  drop-append zero xs ys h = refl
  drop-append (suc n) [] ys h = absurd (omega arith)
  drop-append (suc n) (x ∷ xs) ys h = drop-append n xs ys (omega arith)

  -- Two ways to cut one list: the longer front holds the shorter.
  pub front-of-front :
      (p r xs ys : List A)
      → p ++ r ≡ xs ++ ys
      → length xs ≤ length p
      → (p ≡ xs ++ drop (length xs) p) × (drop (length xs) p ++ r ≡ ys)
  front-of-front p r [] ys e h = (refl, e)
  front-of-front [] r (x ∷ xs) ys e h = absurd (omega arith)
  front-of-front (q ∷ p) r (x ∷ xs) ys e h =
      let tails : p ++ r ≡ xs ++ ys = cc in
      let heads : q ≡ x = cc in
      let (same, behind) = front-of-front p r xs ys tails (omega arith) in
      (ap₂ ◌∷◌ heads same, behind)
