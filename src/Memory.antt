-- ===== src/Memory.antt =====
-- The bytes behind `db->data`, and the reads and writes that the C code makes through typed
-- pointers into it: `u32` fields are little-endian, `memcpy` and `memset` act on whole ranges.
-- A buffer of the caller is a list of bytes.
pub mod Laws
pub mod Ranges
use everdb_native.Base.{
  ℕ, zero, suc, ◌+◌, ◌-◌, ◌*◌, ◌/◌, ◌%◌, ◌≡◌, List, [], ◌∷◌, ◌&&◌, ◌==◌, leb, ltb, if◌then◌else◌,
}

abbrev pub Mem : Type 0
Mem = ℕ → ℕ

unfoldable pub load8 : Mem → ℕ → ℕ
load8 m a = m a % 256

unfoldable pub store8 : Mem → ℕ → ℕ → Mem
store8 m a v p = if p == a then v % 256 else m p

unfoldable pub load32 : Mem → ℕ → ℕ
load32 m a =
    m a % 256 + 256 * (m (a + 1) % 256) + 65536 * (m (a + 2) % 256) + 16777216 * (m (a + 3) % 256)

unfoldable pub store32 : Mem → ℕ → ℕ → Mem
store32 m a v p =
    if p == a
    then v % 256
    else if p == a + 1
    then v / 256 % 256
    else if p == a + 2
    then v / 65536 % 256
    else if p == a + 3
    then v / 16777216 % 256
    else m p

unfoldable pub memset : Mem → (to value n : ℕ) → Mem
memset m a v n p = if leb a p && ltb p (a + n) then v else m p

-- The two ranges do not overlap in any call of the source.
unfoldable pub memcpy : Mem → (to from n : ℕ) → Mem
memcpy m to from n p = if leb to p && ltb p (to + n) then m (from + (p - to)) else m p

-- `memcpy` out of the mapping into a buffer, and from a buffer into the mapping.
unfoldable pub read_bytes : Mem → ℕ → ℕ → List ℕ
read_bytes m a zero = []
read_bytes m a (suc n) = load8 m a ∷ read_bytes m (a + 1) n

unfoldable pub write_bytes : Mem → ℕ → List ℕ → Mem
write_bytes m a [] = m
write_bytes m a (x ∷ xs) = write_bytes (store8 m a x) (a + 1) xs

-- The buffer that `&i` points to for a `u32 i`, and the number in such a buffer.
unfoldable pub u32_bytes : ℕ → List ℕ
u32_bytes v = v % 256 ∷ v / 256 % 256 ∷ v / 65536 % 256 ∷ v / 16777216 % 256 ∷ []

unfoldable pub bytes_u32 : List ℕ → ℕ
bytes_u32 [] = 0
bytes_u32 (x ∷ xs) = x + 256 * bytes_u32 xs
