-- ===== src/Array/Stack.antt =====
-- `array_push` and `array_pop` on a small array with room.
use native.Mathlib.Nat.{le-div_iff_mul-le}
use everdb_native.Base.{
  ℕ, suc, ◌+◌, ◌-◌, ◌*◌, ◌/◌, ◌%◌, ◌^◌, ◌≤◌, ◌<◌, ◌≡◌, ◌⊎◌, refl, List, true, false, ltb, arith,
  length, ◌∙◌,
}
use everdb_native.Base.Word.{minus}
use everdb_native.Memory.{Mem, load32, store32}
use everdb_native.Memory.Laws.{store32_outside}
use everdb_native.Memory.Ranges.{AreBytes, write_bytes_outside}
use everdb_native.Core.{Db, OnlyMem, Blocks, block_addr, read32, write32}
use everdb_native.Array.{
  array_length, length_at, array_push, array_pop, err_index_out_of_bounds, small_bytes,
}
use everdb_native.Array.Small.{
  IsSmall, item_at, item_inside, array_get-small, array_set-small, array_capacity-small,
  set_length-IsSmall, set_length-item, write_item-IsSmall, write_item_self, write_item_other,
}
use everdb_native.Run.{fail}
use everdb_native.Run.Returns.{Returns, returns}

-- `m'` has the array of `m` with `bytes` behind its `n` items.
pub record Pushed (m m' : Mem) (root size n : ℕ) (bytes : List ℕ) : Type 0 where
  pub small : IsSmall m' root size (n + 1)
  pub last : item_at m' root size n ≡ bytes
  pub before : (j : ℕ) → j < n → item_at m' root size j ≡ item_at m root size j
  pub outside : (p : ℕ) → (p < block_addr root) ⊎ (block_addr root + 4096 ≤ p) → m' p ≡ m p

-- `m'` has the array of `m` without its last item.
pub record Shortened (m m' : Mem) (root size n : ℕ) : Type 0 where
  pub small : IsSmall m' root size n
  pub before : (j : ℕ) → j < n → item_at m' root size j ≡ item_at m root size j
  pub outside : (p : ℕ) → (p < block_addr root) ⊎ (block_addr root + 4096 ≤ p) → m' p ≡ m p

module _ (B : Blocks) (db : Db) (root size n : ℕ) (is : IsSmall db.mem root size n) where
  length_bound : n ≤ small_bytes
  length_bound = let h = is.fits in let p = is.positive in grind arith

  -- On a small array `array_push` of an item of the array's size succeeds while the new length fits
  -- the root block: the item is the last one, all others are as they were, and nothing changes outside
  -- of the root block.
  pub array_push-Pushed :
      (bytes : List ℕ)
      → (n + 1) * size ≤ small_bytes
      → length bytes ≡ size
      → AreBytes bytes
      → Returns
          (λ _ db'. OnlyMem db db' × Pushed db.mem db'.mem root size n bytes)
          (array_push B root bytes db)
  unfolding array_push read32 write32
  array_push-Pushed bytes room whole are =
      let m₁ = store32 db.mem (length_at root) (n + 1) in
      let db₁ : Db = record db { mem = m₁ } in
      let is₁ = set_length-IsSmall db.mem root size n (n + 1) is room in
      let bound = length_bound in
      let longer : (n + 1) % 2 ^ 32 ≡ n + 1 = omega arith in
      let index : (n + 1 + (2 ^ 32 - 1)) % 2 ^ 32 ≡ n = omega arith in
      let roomy : ltb (small_bytes / size) (n + 1) ≡ false =
        let h = (le-div_iff_mul-le is.positive).1 room in ground arith in
      let long : load32 db.mem (length_at root) ≡ n = unfold array_length in is.length in
      rw
        (
          array_capacity-small B db root size n is,
          long,
          longer,
          roomy,
          long,
          longer,
          index,
          array_set-small B db₁ root size (n + 1) is₁ n bytes (omega arith) whole,
        )
        (returns (
          refl,
          record {
            small = write_item-IsSmall m₁ root size (n + 1) n is₁ (omega arith) bytes whole;
            last = write_item_self m₁ root size (n + 1) n is₁ (omega arith) bytes whole are;
            before = λ j lt.
                write_item_other m₁ root size (n + 1) n is₁ (omega arith) bytes whole j
                  (omega arith)
                ∙ set_length-item db.mem root size n (n + 1) is room j
                    (omega (arith, item_inside j n size lt, is.fits));
            outside = λ p out.
                write_bytes_outside m₁ (block_addr root + n * size) bytes p
                  (omega (arith, out, whole, room))
                ∙ store32_outside db.mem (length_at root) (n + 1) p (omega (arith, out));
          },
        ))

  -- `array_pop` on a small array that is not empty gives the last item and takes it off; all others
  -- are as they were, and nothing changes outside of the root block.
  pub array_pop-Shortened :
      (k : ℕ)
      → n ≡ suc k
      → Returns
          (λ bytes db'.
            OnlyMem db db'
            × (bytes ≡ item_at db.mem root size k)
            × Shortened db.mem db'.mem root size k)
          (array_pop B root db)
  unfolding array_pop read32 write32
  array_pop-Shortened k filled =
      let bound = length_bound in
      let index : (n + (2 ^ 32 - 1)) % 2 ^ 32 ≡ k = omega arith in
      let inside = item_inside k n size (omega arith) in
      let room : k * size ≤ small_bytes = omega (arith, is.fits) in
      let within : ltb k n ≡ true = ground arith in
      let long : load32 db.mem (length_at root) ≡ n = unfold array_length in is.length in
      rw (long, index, array_get-small B db root size n is k, within, long, index)
        (returns (
          refl,
          refl,
          record {
            small = set_length-IsSmall db.mem root size n k is room;
            before = λ j lt.
                set_length-item db.mem root size n k is room j
                  (omega (arith, item_inside j n size (omega arith), is.fits));
            outside = λ p out. store32_outside db.mem (length_at root) k p (omega (arith, out));
          },
        ))

  pub array_pop_empty : n ≡ 0 → array_pop B root db ≡ fail err_index_out_of_bounds db
  unfolding array_pop read32
  array_pop_empty empty =
      let index : (n + (2 ^ 32 - 1)) % 2 ^ 32 ≡ minus 1 = omega arith in
      let out : ltb (minus 1) n ≡ false = ground arith in
      let long : load32 db.mem (length_at root) ≡ n = unfold array_length in is.length in
      rw (long, index, array_get-small B db root size n is (minus 1), out)
