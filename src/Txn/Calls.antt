-- ===== src/Txn/Calls.antt =====
-- The block functions on blocks of the current transaction: what they write.
use everdb_native.Base.{
  ℕ, suc, ◌+◌, ◌*◌, ◌≤◌, ◌≡◌, ◌≢◌, ◌∙◌, ◌==◌, refl, false, List, ◌∷◌, some, arith,
}
use everdb_native.Memory.{Mem, bytes_u32, u32_bytes}
use everdb_native.MemHash.{MemHash, mem_hash_set}
use everdb_native.Core.{Db, OnlyMem, TxnState, Blocks, IsWritable, user_data}
use everdb_native.Io.{Os}
use everdb_native.Array.{small_bytes}
use everdb_native.Array.Small.{IsSmall, item_at}
use everdb_native.Array.Stack.{Pushed, Shortened}
use everdb_native.Freelist.Stack.{freelist_free_block-Pushed, freelist_allocate_block-Shortened}
use everdb_native.Txn.{
  allocated, freed, check_txn, txn_allocate_block, txn_free_block, set_block_state, set_head,
}
use everdb_native.Txn.States.{InState, block_state-known, check_txn-open}
use everdb_native.Run.{ok, pure, ◌>>◌}
use everdb_native.Run.Returns
use everdb_native.Run.Returns.{Returns, returns}

module _ (os : Os) (B : Blocks) (db : Db) (t : TxnState) (ts : List TxnState) (b : ℕ)
    (table : MemHash) where
  -- Freeing a block that the transaction has not touched only marks it.
  pub txn_free_block-marks :
      InState db t ts b 0
      → mem_hash_set t.blocks b freed ≡ some table
      → txn_free_block os B b db ≡ ok tt (record db { txn = record t { blocks = table } ∷ ts })
  unfolding txn_free_block set_block_state set_head
  txn_free_block-marks at set =
      rw (check_txn-open os B db at, block_state-known os B db at, at.current, set)

  -- Freeing a block that the transaction has allocated forgets its state and puts it on the free list.
  pub txn_free_block-Returns :
      (n : ℕ)
      → InState db t ts b allocated
      → mem_hash_set t.blocks b 0 ≡ some table
      → IsSmall db.mem db.freelist 4 n
      → IsWritable B (record db { txn = record t { blocks = table } ∷ ts }) db.freelist
      → (n + 1) * 4 ≤ small_bytes
      → user_data ≤ b
      → Returns
          (λ _ e.
            OnlyMem (record db { txn = record t { blocks = table } ∷ ts }) e
            × Pushed db.mem e.mem db.freelist 4 n (u32_bytes b))
          (txn_free_block os B b db)
  unfolding txn_free_block set_block_state set_head
  txn_free_block-Returns n at set is own room user =
      let db₁ : Db = record db { txn = record t { blocks = table } ∷ ts } in
      rw (check_txn-open os B db at, block_state-known os B db at, at.current, set)
        (Returns.handled _ (freelist_free_block-Pushed os B db₁ n is own b room user)
          λ _ e p. returns p)

  -- Freeing the copy `b` of a block forgets the copy, marks the original and puts the copy on the free list.
  pub txn_free_block-drops :
      (n original : ℕ) (forgotten : MemHash)
      → InState db t ts b original
      → original ≢ 0
      → original ≢ allocated
      → original ≢ freed
      → mem_hash_set t.blocks b 0 ≡ some forgotten
      → mem_hash_set forgotten original freed ≡ some table
      → IsSmall db.mem db.freelist 4 n
      → IsWritable B (record db { txn = record t { blocks = table } ∷ ts }) db.freelist
      → (n + 1) * 4 ≤ small_bytes
      → user_data ≤ b
      → Returns
          (λ _ e.
            OnlyMem (record db { txn = record t { blocks = table } ∷ ts }) e
            × Pushed db.mem e.mem db.freelist 4 n (u32_bytes b))
          (txn_free_block os B b db)
  unfolding txn_free_block set_block_state set_head
  txn_free_block-drops n original forgotten at o0 oa of set mark is own room user =
      let db₁ : Db = record db { txn = record t { blocks = table } ∷ ts } in
      let not_new : (original == allocated) ≡ false = ground arith in
      let not_freed : (original == freed) ≡ false = ground arith in
      let some_state : (original == 0) ≡ false = ground arith in
      rw
        (
          check_txn-open os B db at,
          block_state-known os B db at,
          not_new,
          not_freed,
          some_state,
          at.current,
          set,
          mark,
        )
        (Returns.handled _ (freelist_free_block-Pushed os B db₁ n is own b room user)
          λ _ e p. returns p)

  -- Allocating takes the last block of the free list and marks it.
  pub txn_allocate_block-takes :
      (k : ℕ)
      → db.txn ≡ t ∷ ts
      → IsSmall db.mem db.freelist 4 (suc k)
      → IsWritable B db db.freelist
      → bytes_u32 (item_at db.mem db.freelist 4 k) ≡ b
      → mem_hash_set t.blocks b allocated ≡ some table
      → Returns
          (λ b' e.
            (b' ≡ b)
            × (e ≡ record db { mem = e.mem; txn = record t { blocks = table } ∷ ts })
            × Shortened db.mem e.mem db.freelist 4 k)
          (txn_allocate_block os B db)
  unfolding txn_allocate_block check_txn set_block_state set_head
  txn_allocate_block-takes k current is own last set = rw (check_open current) (
      Returns.bind (freelist_allocate_block-Shortened os B db (suc k) is own k refl)
        λ b' d (only, popped, rest).
          let same : b' ≡ b = popped ∙ last in rw (same, only) (mark d.mem rest))
    where
      check_open : db.txn ≡ t ∷ ts → check_txn db ≡ ok tt db
      check_open e = rw e

      mark :
          (m : Mem)
          → Shortened db.mem m db.freelist 4 k
          → Returns
              (λ b' e.
                (b' ≡ b)
                × (e ≡ record db { mem = e.mem; txn = record t { blocks = table } ∷ ts })
                × Shortened db.mem e.mem db.freelist 4 k)
              ((set_block_state b allocated >> pure b) (record db { mem = m }))
      mark m rest = rw (current, set) (returns (refl, refl, rest))
