-- ===== src/Common/Words.antt =====
-- Fixed-width arithmetic of the C code: `uint8_t`, `uint16_t` and `uint32_t` values are numbers,
-- and each operation that can wrap says so.
use Prim.Native.Nat.{ℕ, ◌+◌, ◌-◌, ◌%◌, ◌<◌}
use mathlib.Core.Path.{◌≡◌}
use native.Mathlib.Omega.{arith}

abbrev pub u8 : ℕ → ℕ
u8 n = n % 256

abbrev pub u16 : ℕ → ℕ
u16 n = n % 65536

abbrev pub u32 : ℕ → ℕ
u32 n = n % 4294967296

-- `a - b` on `uint16_t`: `-` on ℕ stops at 0, so the modulus is added first.
abbrev pub sub16 : ℕ → ℕ → ℕ
sub16 a b = (a + 65536 - b) % 65536

-- `a - b` on `uint32_t`.
abbrev pub sub32 : ℕ → ℕ → ℕ
sub32 a b = (a + 4294967296 - b) % 4294967296

-- The elapsed time of a wrapping millisecond clock is the true one.
pub sub32-u32_add : (t d : ℕ) → t < 4294967296 → d < 4294967296 → sub32 (u32 (t + d)) t ≡ d
sub32-u32_add t d h k = omega arith
