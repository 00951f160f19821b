-- ===== src/Base/Words.antt =====
-- Machine integers as natural numbers with their wrap-around written out, and their
-- little-endian bytes.
use Prim.Native.Nat.{ℕ, zero, suc, ◌+◌, ◌-◌, ◌*◌, ◌/◌, ◌%◌, ◌^◌, ◌<◌}
use mathlib.Core.Path.{◌≡◌, refl, ap}
use mathlib.Core.List.{List, [], ◌∷◌}
use native.Mathlib.Omega.{arith}
use native.Mathlib.Nat.{pow-suc}
use nrf54l15_sniffer.Base.Lists.{length}

abbrev pub u8 : ℕ → ℕ
u8 x = x % 2 ^ 8

abbrev pub u16 : ℕ → ℕ
u16 x = x % 2 ^ 16

-- Also `size_t`, which has 32 bits on this part.
abbrev pub u32 : ℕ → ℕ
u32 x = x % 2 ^ 32

abbrev pub u64 : ℕ → ℕ
u64 x = x % 2 ^ 64

-- `uint64_t` subtraction, which wraps.
abbrev pub sub64 : ℕ → ℕ → ℕ
sub64 a b = (a + 2 ^ 64 - b) % 2 ^ 64

-- A byte string, least significant byte first.
abbrev pub Bytes : Type 0
Bytes = List ℕ

-- The `n` low bytes of a value: byte `i` is `(uint8_t)(v >> (8 * i))`.
abbrev pub le_bytes : ℕ → ℕ → Bytes
le_bytes zero v = []
le_bytes (suc n) v = (v % 256) ∷ le_bytes n (v / 256)

abbrev pub le16 : ℕ → Bytes
le16 v = le_bytes 2 v

-- `sys_get_le16` and the like: the value of a little-endian byte string.
abbrev pub of_le : Bytes → ℕ
of_le [] = 0
of_le (b ∷ bs) = b + 256 * of_le bs

pub length-le_bytes : (n v : ℕ) → length (le_bytes n v) ≡ n
length-le_bytes zero v = refl
length-le_bytes (suc n) v = ap suc (length-le_bytes n (v / 256))

-- Reading back what was written, for a value that fits.
pub of_le-le_bytes : (n v : ℕ) → v < 256 ^ n → of_le (le_bytes n v) ≡ v
of_le-le_bytes zero v h = omega arith
of_le-le_bytes (suc n) v h =
    let k : v < 256 * 256 ^ n = omega (arith, pow-suc 256 n) in
    omega (arith, of_le-le_bytes n (v / 256) (omega arith))
