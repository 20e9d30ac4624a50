-- ===== src/Math.antt =====
-- src/math.h.
use Prim.Native.Nat.{bit_or}
use everdb_native.Base.{ℕ, ◌/◌, ◌^◌}
use everdb_native.Base.Word.{add32}

-- `x |= x >> k`
unfoldable pub smear : ℕ → ℕ → ℕ
smear k x = bit_or x (x / 2 ^ k)

unfoldable pub next_power_of_two : ℕ → ℕ
next_power_of_two x = add32 (smear 16 (smear 8 (smear 4 (smear 2 (smear 1 x))))) 1
