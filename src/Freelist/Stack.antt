-- ===== src/Freelist/Stack.antt =====
-- The free list is a stack while its root block is in the transaction and it fits that block: the
-- block freed last is allocated next.
use mathlib.Core.Path.{subst}
use everdb_native.Base.{
  ℕ, suc, ◌+◌, ◌*◌, ◌^◌, ◌≤◌, ◌<◌, ◌≡◌, refl, true, leb, ltb, arith, ap, ◌∙◌, sym,
}
use everdb_native.Memory.{Mem, u32_bytes, bytes_u32}
use everdb_native.Memory.Ranges.{AreBytes-u32_bytes, bytes_u32-u32_bytes}
use everdb_native.Core.{Db, OnlyMem, Blocks, IsWritable, user_data}
use everdb_native.Io.{Os}
use everdb_native.Array.{small_bytes}
use everdb_native.Array.Small.{IsSmall, item_at}
use everdb_native.Array.Stack.{Pushed, Shortened, array_push-Pushed, array_pop-Shortened}
use everdb_native.Freelist.{set_freelist, freelist_allocate_block, freelist_free_block}
use everdb_native.Run.{◌>>◌}
use everdb_native.Run.Returns
use everdb_native.Run.Returns.{Returns, returns}

module _ (os : Os) (B : Blocks) (db : Db) (n : ℕ) (is : IsSmall db.mem db.freelist 4 n)
    (own : IsWritable B db db.freelist) where
  -- While the free list fits its root block and that block is writable, `freelist_free_block` of a user
  -- block succeeds and pushes its number; nothing but the file's contents changes.
  pub freelist_free_block-Pushed :
      (b : ℕ)
      → (n + 1) * 4 ≤ small_bytes
      → user_data ≤ b
      → Returns
          (λ _ db'. OnlyMem db db' × Pushed db.mem db'.mem db.freelist 4 n (u32_bytes b))
          (freelist_free_block os B b db)
  unfolding freelist_free_block set_freelist u32_bytes
  freelist_free_block-Pushed b room user =
      let fine : leb user_data b ≡ true = ground arith in
      rw (fine, own db refl)
        (array_push-Pushed B db db.freelist 4 n is (u32_bytes b) room refl (AreBytes-u32_bytes b))

  -- While the free list fits its root block, is not empty and that block is writable,
  -- `freelist_allocate_block` pops the last number and gives it; nothing but the file's contents
  -- changes.
  pub freelist_allocate_block-Shortened :
      (k : ℕ)
      → n ≡ suc k
      → Returns
          (λ b db'.
            OnlyMem db db'
            × (b ≡ bytes_u32 (item_at db.mem db.freelist 4 k))
            × Shortened db.mem db'.mem db.freelist 4 k)
          (freelist_allocate_block os B db)
  unfolding freelist_allocate_block set_freelist
  freelist_allocate_block-Shortened k filled =
      let some_free : ltb 0 n ≡ true = ground arith in
      rw (own db refl, is.length, some_free)
        (Returns.bind (array_pop-Shortened B db db.freelist 4 n is k filled)
          λ bytes db' (only, last, rest). returns (only, ap bytes_u32 last, rest))

-- The block is `b`, and the free list has the `n` items that it has in `db`.
abbrev pub Recovered : Db → (n b : ℕ) → ℕ → Db → Type 0
Recovered db n b b' db' =
    (b' ≡ b)
    × OnlyMem db db'
    × IsSmall db'.mem db.freelist 4 n
    × ((j : ℕ) → j < n → item_at db'.mem db.freelist 4 j ≡ item_at db.mem db.freelist 4 j)

module _ (os : Os) (B : Blocks) (db : Db) (n : ℕ) (own : IsWritable B db db.freelist) (b : ℕ)
    (word : b < 2 ^ 32) where
  allocate-Pushed :
      (m : Mem)
      → Pushed db.mem m db.freelist 4 n (u32_bytes b)
      → Returns (Recovered db n b) (freelist_allocate_block os B (record db { mem = m }))
  allocate-Pushed m pushed =
      let db₁ : Db = record db { mem = m } in
      Returns.mono
        (freelist_allocate_block-Shortened os B db₁ (n + 1) pushed.small (λ d only. own d only) n
          (omega arith))
        λ b' db' (only, last, rest). (
          last ∙ rw pushed.last (bytes_u32-u32_bytes b word),
          only,
          rest.small,
          λ j lt. rest.before j lt ∙ pushed.before j lt,
        )

module _ (os : Os) (B : Blocks) (db : Db) (n : ℕ) (is : IsSmall db.mem db.freelist 4 n)
    (own : IsWritable B db db.freelist) where
  -- While the free list fits its root block and that block is writable, a user block that has been
  -- freed is the next one allocated, and the free list is as it was before.
  pub allocate-free :
      (b : ℕ)
      → (n + 1) * 4 ≤ small_bytes
      → user_data ≤ b
      → b < 2 ^ 32
      → Returns (Recovered db n b) ((freelist_free_block os B b >> freelist_allocate_block os B) db)
  allocate-free b room user word =
      Returns.bind (freelist_free_block-Pushed os B db n is own b room user)
        λ _ db₁ (only₁, pushed).
          subst (λ d. Returns (Recovered db n b) (freelist_allocate_block os B d)) (sym only₁)
            (allocate-Pushed os B db n own b word db₁.mem pushed)
