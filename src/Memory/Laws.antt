-- ===== src/Memory/Laws.antt =====
-- Reads after writes.
use everdb_native.Base.{ℕ, ◌+◌, ◌%◌, ◌^◌, ◌≤◌, ◌<◌, ◌≡◌, ◌⊎◌, arith}
use everdb_native.Memory.{Mem, load8, store8, load32, store32}

pub load32-lt : (m : Mem) (a : ℕ) → load32 m a < 2 ^ 32
unfolding load32
load32-lt m a = omega arith

pub load8-store8_same : (m : Mem) (a v : ℕ) → load8 (store8 m a v) a ≡ v % 256
unfolding load8 store8
load8-store8_same m a v = ground arith

pub load32-store32_same : (m : Mem) (a v : ℕ) → load32 (store32 m a v) a ≡ v % 2 ^ 32
unfolding load32 store32
load32-store32_same m a v = ground arith

-- A store leaves every word alone that it does not overlap.
pub load32-store32_other :
    (m : Mem) (a b v : ℕ) → (a + 4 ≤ b) ⊎ (b + 4 ≤ a) → load32 (store32 m a v) b ≡ load32 m b
unfolding load32 store32
load32-store32_other m a b v h = ground arith

pub load8-store32_other :
    (m : Mem) (a b v : ℕ) → (a + 4 ≤ b) ⊎ (b + 1 ≤ a) → load8 (store32 m a v) b ≡ load8 m b
unfolding load8 store32
load8-store32_other m a b v h = ground arith

pub store32_outside : (m : Mem) (a v p : ℕ) → (p < a) ⊎ (a + 4 ≤ p) → store32 m a v p ≡ m p
unfolding store32
store32_outside m a v p h = ground arith
