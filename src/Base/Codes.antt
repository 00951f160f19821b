-- ===== src/Base/Codes.antt =====
-- The `int` that the C functions return: 0, or a negative errno.
use Prim.Native.Nat.{ℕ}
use mathlib.Core.Logic.{◌⊎◌, inl, inr}
use mathlib.Core.Path.{◌≡◌, refl}
use mathlib.Core.Bool.{Bool, true, false}

-- The errno values that this code returns or tests; `other` is any that comes from a driver.
pub data Errno : Type 0 where
  einval enodev eio etimedout enobufs enomem enotsup enodata : Errno
  other : ℕ → Errno

pub data Code : Type 0 where
  success : Code
  failure : Errno → Code

-- `err == 0`
abbrev pub is_ok : Code → Bool
is_ok success = true
is_ok (failure e) = false

-- `err == -EINVAL`
abbrev pub is_einval : Code → Bool
is_einval (failure einval) = true
is_einval _ = false

-- `err == -EIO`
abbrev pub is_eio : Code → Bool
is_eio (failure eio) = true
is_eio _ = false

-- `err == -ETIMEDOUT`
abbrev pub is_etimedout : Code → Bool
is_etimedout (failure etimedout) = true
is_etimedout _ = false

pub success_of_is_ok : {c : Code} → is_ok c ≡ true → c ≡ success
success_of_is_ok {c} = go c
  where
    go : (c : Code) → is_ok c ≡ true → c ≡ success
    go success h = refl
    go (failure e) h = cc

pub Code-cases : (c : Code) → (c ≡ success) ⊎ ((e : Errno) × (c ≡ failure e))
Code-cases success = inl refl
Code-cases (failure e) = inr (e, refl)
