-- ===== src/Base/Word.antt =====
-- Unsigned 32-bit words as numbers below 2 ^ 32. A negative `int` is its bit pattern.
use Prim.Native.Nat.{ℕ, ◌+◌, ◌-◌, ◌*◌, ◌%◌, ◌^◌}

abbrev pub u32_mod : ℕ
u32_mod = 2 ^ 32

abbrev pub add32 : ℕ → ℕ → ℕ
add32 a b = (a + b) % u32_mod

abbrev pub sub32 : ℕ → ℕ → ℕ
sub32 a b = (a + (u32_mod - b)) % u32_mod

abbrev pub mul32 : ℕ → ℕ → ℕ
mul32 a b = a * b % u32_mod

-- The `int` -k.
abbrev pub minus : ℕ → ℕ
minus k = u32_mod - k
