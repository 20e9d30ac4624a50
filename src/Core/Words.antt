-- ===== src/Core/Words.antt =====
-- Blocks that do not overlap, and writes that stay within one block.
use everdb_native.Base.{
  ℕ, ◌+◌, ◌*◌, ◌^◌, ◌≤◌, ◌<◌, ◌≡◌, ◌≢◌, ◌∙◌, ◌⊎◌, inl, inr, Bool-cases, ltb, arith,
}
use everdb_native.Memory.{Mem, load32, store32}
use everdb_native.Memory.Laws.{store32_outside}
use everdb_native.Core.{block_addr}

-- Below 2 ^ 20 blocks the 32-bit product does not wrap.
pub block_addr_small : (b : ℕ) → b < 2 ^ 20 → block_addr b ≡ b * 4096
unfolding block_addr
block_addr_small b h = omega arith

abbrev pub Apart : (a b : ℕ) → Type 0
Apart a b = (block_addr a + 4096 ≤ block_addr b) ⊎ (block_addr b + 4096 ≤ block_addr a)

abbrev pub Inside : (b p : ℕ) → Type 0
Inside b p = (block_addr b ≤ p) × (p < block_addr b + 4096)

pub ne-Apart : (a b : ℕ) → a < 2 ^ 20 → b < 2 ^ 20 → a ≢ b → Apart a b
ne-Apart a b ha hb ne = elim (Bool-cases (ltb a b)) [
  | inl lt ↦ inl (ground (arith, block_addr_small a ha, block_addr_small b hb))
  | inr ge ↦ inr (ground (arith, block_addr_small a ha, block_addr_small b hb))
]

-- `m'` differs from `m` in the block `b` at most.
abbrev pub OnlyBlock : (b : ℕ) → (m m' : Mem) → Type 0
OnlyBlock b m m' = (p : ℕ) → ¬ Inside b p → m' p ≡ m p

pub OnlyBlock-trans :
    (b : ℕ) (m₁ m₂ m₃ : Mem) → OnlyBlock b m₁ m₂ → OnlyBlock b m₂ m₃ → OnlyBlock b m₁ m₃
OnlyBlock-trans b m₁ m₂ m₃ h₁ h₂ p out = h₂ p out ∙ h₁ p out

pub store32-OnlyBlock :
    (m : Mem) (b a v : ℕ)
    → block_addr b ≤ a
    → a + 4 ≤ block_addr b + 4096
    → OnlyBlock b m (store32 m a v)
store32-OnlyBlock m b a v low high p out = elim (Bool-cases (ltb p a)) [
  | inl below ↦ store32_outside m a v p (ground arith)
  | inr above ↦ store32_outside m a v p (ground arith)
]

-- A word is as it was if its bytes are.
pub load32_same :
    (m m' : Mem) (a : ℕ) → ((p : ℕ) → a ≤ p → p < a + 4 → m' p ≡ m p) → load32 m' a ≡ load32 m a
unfolding load32
load32_same m m' a h = ground (arith, h a, h (a + 1), h (a + 2), h (a + 3))
