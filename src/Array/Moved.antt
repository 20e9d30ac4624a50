-- ===== src/Array/Moved.antt =====
-- A small array depends on the bytes of its root block only, wherever they stand.
use everdb_native.Base.{ℕ, zero, suc, ◌+◌, ◌*◌, ◌≤◌, ◌<◌, ◌≡◌, ◌∙◌, refl, arith}
use everdb_native.Memory.{Mem, load8, load32, read_bytes}
use everdb_native.Core.{block_addr}
use everdb_native.Array.{array_length}
use everdb_native.Array.Small.{IsSmall, item_at, item_inside}

read_bytes_moved :
    (m m' : Mem) (a a' n : ℕ)
    → ((i : ℕ) → i < n → m' (a' + i) ≡ m (a + i))
    → read_bytes m' a' n ≡ read_bytes m a n
unfolding read_bytes load8
read_bytes_moved m m' a a' zero h = refl
read_bytes_moved m m' a a' (suc n) h =
    let rest : read_bytes m' (a' + 1) n ≡ read_bytes m (a + 1) n =
      read_bytes_moved m m' (a + 1) (a' + 1) n λ i lt. ground (arith, h (i + 1)) in
    ground (arith, h 0, rest)

-- The block `r'` of `m'` has the bytes of the block `r` of `m`.
abbrev pub SameBytes : (m m' : Mem) → (r r' : ℕ) → Type 0
SameBytes m m' r r' = (i : ℕ) → i < 4096 → m' (block_addr r' + i) ≡ m (block_addr r + i)

module _ (m m' : Mem) (r r' size n : ℕ) (same : SameBytes m m' r r') (is : IsSmall m r size n) where
  load32_moved :
      (o : ℕ) → o + 4 ≤ 4096 → load32 m' (block_addr r' + o) ≡ load32 m (block_addr r + o)
  unfolding load32
  load32_moved o h = ground (arith, same o, same (o + 1), same (o + 2), same (o + 3))

  load8_moved : (o : ℕ) → o < 4096 → load8 m' (block_addr r' + o) ≡ load8 m (block_addr r + o)
  unfolding load8
  load8_moved o h = ground (arith, same o)

  pub IsSmall-moved : IsSmall m' r' size n
  IsSmall-moved = record {
    no_table = load32_moved 4092 (omega arith) ∙ is.no_table;
    item = load8_moved 4084 (omega arith) ∙ is.item;
    positive = is.positive;
    byte = is.byte;
    length = unfold array_length in (load32_moved 4088 (omega arith) ∙ is.length);
    fits = is.fits;
  }

  pub item_moved : (j : ℕ) → j < n → item_at m' r' size j ≡ item_at m r size j
  item_moved j lt =
      read_bytes_moved m m' (block_addr r + j * size) (block_addr r' + j * size) size λ i il.
        let low = item_inside j n size lt in
        let fits = is.fits in ground (arith, same (j * size + i))
