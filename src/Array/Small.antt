-- ===== src/Array/Small.antt =====
-- Small arrays: the items lie in the root block, and no block function is called.
use everdb_native.Base.{
  ℕ, ◌+◌, ◌*◌, ◌/◌, ◌%◌, ◌^◌, ◌≤◌, ◌<◌, ◌≡◌, ◌≢◌, ◌⊎◌, inl, inr, List, none, some, true, false,
  ◌==◌, leb, ltb, if◌then◌else◌, arith, length, ◌∙◌, take_all, sym, Bool-cases,
}
use everdb_native.Memory.{Mem, store32, read_bytes, write_bytes}
use everdb_native.Memory.Laws.{load32-store32_same, load32-store32_other, load8-store32_other}
use everdb_native.Memory.Ranges.{
  AreBytes, write_bytes_outside, load32-write_bytes, load8-write_bytes, read_bytes_same,
  read_bytes-write_bytes,
}
use everdb_native.Core.{Db, Blocks, block_addr}
use everdb_native.Page.{table_nblocks}
use everdb_native.Array.{
  item_size, array_length, length_at, per, array_capacity, array_data, array_get, array_set,
  err_index_out_of_bounds, small_bytes,
}
use everdb_native.Run.{ok, fail}

-- A small array of items of `size` bytes with `n` items, all in the root block.
pub record IsSmall (m : Mem) (root size n : ℕ) : Type 0 where
  pub no_table : table_nblocks m root ≡ 0
  pub item : item_size m root ≡ size
  pub positive : 0 < size
  pub byte : size < 256
  pub length : array_length m root ≡ n
  pub fits : n * size ≤ small_bytes

-- The bytes of item `i`.
abbrev pub item_at : Mem → (root size i : ℕ) → List ℕ
item_at m root size i = read_bytes m (block_addr root + i * size) size

pub item_inside : (i n size : ℕ) → i < n → i * size + size ≤ n * size
item_inside i n size lt = grind arith

items_apart : (i j size : ℕ) → i ≢ j → (i * size + size ≤ j * size) ⊎ (j * size + size ≤ i * size)
items_apart i j size ne = elim (Bool-cases (ltb i j)) [
  | inl lt ↦ inl (item_inside i j size (ground arith))
  | inr ge ↦ inr (item_inside j i size (ground arith))
]

-- A write to one item leaves the header and the other items alone.
module _ (m : Mem) (root size n i : ℕ) (is : IsSmall m root size n) (lt : i < n) (bytes : List ℕ)
    (whole : length bytes ≡ size) where
  pub write_item-IsSmall : IsSmall (write_bytes m (block_addr root + i * size) bytes) root size n
  write_item-IsSmall =
      let inside = item_inside i n size lt in
      let a = block_addr root + i * size in
      let fits = is.fits in
      let below : a + length bytes ≤ block_addr root + 4084 = omega arith in
      record {
        no_table =
            load32-write_bytes m a bytes (block_addr root + 4092) (inr (omega arith)) ∙ is.no_table;
        item = load8-write_bytes m a bytes (block_addr root + 4084) (inr (omega arith)) ∙ is.item;
        positive = is.positive;
        byte = is.byte;
        length =
            unfold array_length in
            (load32-write_bytes m a bytes (block_addr root + 4088) (inr (omega arith)) ∙ is.length);
        fits = is.fits;
      }

  pub write_item_self :
      AreBytes bytes
      → item_at (write_bytes m (block_addr root + i * size) bytes) root size i ≡ bytes
  write_item_self ok_bytes =
      rw (← whole) (read_bytes-write_bytes m (block_addr root + i * length bytes) bytes ok_bytes)

  pub write_item_other :
      (j : ℕ)
      → j ≢ i
      → item_at (write_bytes m (block_addr root + i * size) bytes) root size j
        ≡ item_at m root size j
  write_item_other j ne =
      let apart = items_apart i j size (λ e. ne (sym e)) in
      read_bytes_same _ _ _ size
        λ p le below. write_bytes_outside m (block_addr root + i * size) bytes p (omega arith)

module _ (B : Blocks) (db : Db) (root size n : ℕ) (is : IsSmall db.mem root size n) where
  pub array_data-small :
      (i : ℕ) → i < n → array_data B root i db ≡ ok (some (block_addr root + i * size)) db
  unfolding array_data
  array_data-small i lt =
      let inside = item_inside i n size lt in
      let fits = is.fits in
      let within : leb n i ≡ false = ground arith in
      let whole : i * size % 2 ^ 32 ≡ i * size = omega arith in
      rw (is.length, within, is.no_table, is.item, whole)

  array_data_null : (i : ℕ) → n ≤ i → array_data B root i db ≡ ok none db
  unfolding array_data
  array_data_null i le = let out : leb n i ≡ true = ground arith in rw (is.length, out)

  -- `array_get` gives the bytes of an item that the array has, and the error for any other index;
  -- it changes nothing.
  pub array_get-small :
      (i : ℕ)
      → array_get B root i db
        ≡ (if ltb i n then ok (item_at db.mem root size i) db else fail err_index_out_of_bounds db)
  unfolding array_get
  array_get-small i = elim (Bool-cases (ltb i n)) [
    | inl lt ↦ rw (array_data-small i (ground arith), lt, is.item)
    | inr ge ↦ rw (array_data_null i (ground arith), ge)
  ]

  pub array_set-small :
      (i : ℕ) (bytes : List ℕ)
      → i < n
      → length bytes ≡ size
      → array_set B root i bytes db
        ≡ ok tt (record db { mem = write_bytes db.mem (block_addr root + i * size) bytes })
  unfolding array_set
  array_set-small i bytes lt whole = rw (array_data-small i lt, is.item, ← whole, take_all bytes)

  pub array_capacity-small : array_capacity root db ≡ ok (small_bytes / size) db
  unfolding array_capacity per
  array_capacity-small =
      let positive : (size == 0) ≡ false = let h = is.positive in ground arith in
      rw (is.no_table, is.item, positive)

-- `m'` has the array of `m` with `bytes` as item `i`.
pub record ItemSet (m m' : Mem) (root size n i : ℕ) (bytes : List ℕ) : Type 0 where
  pub small : IsSmall m' root size n
  pub here : item_at m' root size i ≡ bytes
  pub others : (j : ℕ) → j ≢ i → item_at m' root size j ≡ item_at m root size j

-- A new length in the header.
module _ (m : Mem) (root size n n' : ℕ) (is : IsSmall m root size n)
    (small : n' * size ≤ small_bytes) where
  pub set_length-IsSmall : IsSmall (store32 m (length_at root) n') root size n'
  set_length-IsSmall =
      let positive = is.positive in
      let bound : n' ≤ n' * size = grind arith in
      record {
        no_table =
            load32-store32_other m (length_at root) (block_addr root + 4092) n' (omega arith)
            ∙ is.no_table;
        item =
            load8-store32_other m (length_at root) (block_addr root + 4084) n' (omega arith)
            ∙ is.item;
        positive = is.positive;
        byte = is.byte;
        length = unfold array_length in (load32-store32_same m (length_at root) n' ∙ omega arith);
        fits = small;
      }

  pub set_length-item :
      (i : ℕ)
      → i * size + size ≤ small_bytes
      → item_at (store32 m (length_at root) n') root size i ≡ item_at m root size i
  unfolding store32
  set_length-item i fits = read_bytes_same _ _ _ size λ p le lt. ground arith
