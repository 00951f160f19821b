-- ===== src/Base/Int.antt =====
-- Signed values as the drivers report them, and the byte that an `int8_t` is.
use Prim.Native.Nat.{ℕ, ◌-◌}
use nrf54l15_sniffer.Base.Tests.{ltb, if◌then◌else◌}

-- `negsuc n` is -(n + 1).
pub data ℤ : Type 0 where
  pos : ℕ → ℤ
  negsuc : ℕ → ℤ

-- `(uint8_t)(int8_t)CLAMP(v, INT8_MIN, INT8_MAX)`
unfoldable pub clamp_int8 : ℤ → ℕ
clamp_int8 (pos n) = if ltb 127 n then 127 else n
clamp_int8 (negsuc n) = if ltb 127 n then 128 else 255 - n
