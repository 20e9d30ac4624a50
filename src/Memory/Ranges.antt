-- ===== src/Memory/Ranges.antt =====
-- Copies of ranges of bytes.
use everdb_native.Base.{
  ℕ, zero, suc, ◌+◌, ◌%◌, ◌^◌, ◌≤◌, ◌<◌, ◌≡◌, ◌⊎◌, refl, List, [], ◌∷◌, arith, length, ap, ◌∙◌, ap,
}
use everdb_native.Memory.{
  Mem, load8, store8, load32, read_bytes, write_bytes, u32_bytes, bytes_u32, memset,
}

abbrev pub AreBytes : List ℕ → Type 0
AreBytes [] = Unit
AreBytes (x ∷ xs) = (x < 256) × AreBytes xs

-- Bytes outside the range are left alone.
pub write_bytes_outside :
    (m : Mem) (a : ℕ) (xs : List ℕ) (p : ℕ)
    → (p < a) ⊎ (a + length xs ≤ p)
    → write_bytes m a xs p ≡ m p
unfolding write_bytes store8
write_bytes_outside m a [] p h = refl
write_bytes_outside m a (x ∷ xs) p h =
    write_bytes_outside (store8 m a x) (a + 1) xs p (ground arith) ∙ ground arith

pub load32-write_bytes :
    (m : Mem) (a : ℕ) (xs : List ℕ) (b : ℕ)
    → (b + 4 ≤ a) ⊎ (a + length xs ≤ b)
    → load32 (write_bytes m a xs) b ≡ load32 m b
unfolding load32
load32-write_bytes m a xs b h = ground (
  arith,
  write_bytes_outside m a xs b,
  write_bytes_outside m a xs (b + 1),
  write_bytes_outside m a xs (b + 2),
  write_bytes_outside m a xs (b + 3),
)

pub load8-write_bytes :
    (m : Mem) (a : ℕ) (xs : List ℕ) (b : ℕ)
    → (b < a) ⊎ (a + length xs ≤ b)
    → load8 (write_bytes m a xs) b ≡ load8 m b
unfolding load8
load8-write_bytes m a xs b h = ap (λ (x : ℕ). x % 256) (write_bytes_outside m a xs b h)

-- A read sees only its range.
pub read_bytes_same :
    (m m' : Mem) (a n : ℕ)
    → ((p : ℕ) → a ≤ p → p < a + n → m p ≡ m' p)
    → read_bytes m a n ≡ read_bytes m' a n
unfolding read_bytes load8
read_bytes_same m m' a zero h = refl
read_bytes_same m m' a (suc n) h =
    ground (arith, h a, read_bytes_same m m' (a + 1) n (λ p le lt. h p (omega arith) (omega arith)))

-- Bytes written are read back.
pub read_bytes-write_bytes :
    (m : Mem) (a : ℕ) (xs : List ℕ)
    → AreBytes xs
    → read_bytes (write_bytes m a xs) a (length xs) ≡ xs
unfolding read_bytes write_bytes load8 store8
read_bytes-write_bytes m a [] h = refl
read_bytes-write_bytes m a (x ∷ xs) h = ground (
  arith,
  write_bytes_outside (store8 m a x) (a + 1) xs a,
  read_bytes-write_bytes (store8 m a x) (a + 1) xs h.1,
)

pub AreBytes-u32_bytes : (v : ℕ) → AreBytes (u32_bytes v)
unfolding u32_bytes
AreBytes-u32_bytes v = omega arith

pub bytes_u32-u32_bytes : (v : ℕ) → v < 2 ^ 32 → bytes_u32 (u32_bytes v) ≡ v
unfolding u32_bytes bytes_u32
bytes_u32-u32_bytes v h = omega arith

pub load32-memset_zero :
    (m : Mem) (a n b : ℕ) → a ≤ b → b + 4 ≤ a + n → load32 (memset m a 0 n) b ≡ 0
unfolding load32 memset
load32-memset_zero m a n b le fits = ground arith
