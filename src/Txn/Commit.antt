-- ===== src/Txn/Commit.antt =====
-- src/txn.c: `txn_commit` and `txn_commit_master`. The loops run over the entries of the table as it
-- is in each round: freeing a block may change the table.
use everdb_native.Base.{ℕ, zero, suc, ◌+◌, true, false, ◌==◌, ltb, if◌then◌else◌, [], ◌∷◌}
use everdb_native.Base.Word.{minus}
use everdb_native.MemHash.{MemHash, Item, entry_at, mem_hash_get, mem_hash_set}
use everdb_native.Core.{Db, Blocks, freelist_primary, freelist_secondary, objlist_block}
use everdb_native.Io.{Os}
use everdb_native.Freelist.{freelist_free_block, set_freelist, u32_rounds}
use everdb_native.Txn.{allocated, freed, check_txn, block_state, copy_block}
use everdb_native.Txn.Begin.{next_txn_id}
use everdb_native.Run.{
  M, ok, hung, ◌>>=◌, ◌>>◌, done, crashes, gets, modify, check_code, unless_hung, ignore_error,
}

-- `ts->blocks`, where `ts` is `db->txn`.
unfoldable pub current : (MemHash → M Db (Unit {0})) → M Db (Unit {0})
current k db = elim db.txn [ [] ↦ crashes db | t ∷ ts ↦ k t.blocks db ]

-- `for (i = ..; i < ts->blocks->capacity; i++)` over the entries with a key.
unfoldable pub each_entry : (Item → M Db (Unit {0})) → ℕ → ℕ → M Db (Unit {0})
each_entry act zero i db = hung
each_entry act (suc fuel) i db =
    current
      (λ t.
        let e = entry_at t i in
        let more = (if e.k == 0 then done else act e) >> each_entry act fuel (i + 1) in
        if ltb i t.capacity then more else done)
      db

module _ (os : Os) (B : Blocks) where
  -- One entry of the loop of `txn_commit_master`.
  unfoldable pub commit_entry : Item → M Db (Unit {0})
  commit_entry e db =
      if e.k == freelist_secondary
      then ok tt db
      else if e.k == db.objlist
      then (do
        copy_block objlist_block db.objlist
        freelist_free_block os B e.k
        modify λ db. record db { objlist = objlist_block })
          db
      else if e.v == allocated
      then ok tt db
      else if e.v == freed
      then freelist_free_block os B e.k db
      else freelist_free_block os B e.v db

  -- "clear transaction state" and "handle freelist"
  unfoldable pub txn_commit_master : M Db (Unit {0})
  txn_commit_master = do
    check_txn
    single ←
        gets (λ db. elim db.txn [ [] ↦ true | t ∷ ts ↦ elim ts [ [] ↦ true | u ∷ us ↦ false ] ])
    check_code single (minus 3)
    copied ← block_state freelist_secondary
    check_code (copied == freelist_primary) (minus 4)
    each_entry commit_entry u32_rounds 0
    freelist ← gets (λ db. db.freelist)
    copy_block freelist_primary freelist
    set_freelist freelist_primary
    modify λ db. record db { txn = [] }
    next_txn_id

  -- `mem_hash_get` and `mem_hash_set` on `parent->blocks`.
  unfoldable pub parent_state : ℕ → M Db ℕ
  parent_state block db = elim db.txn [
    | [] ↦ crashes db
    | t ∷ ts ↦ elim ts [ [] ↦ crashes db | p ∷ ps ↦ unless_hung (mem_hash_get p.blocks block) db ]
  ]

  unfoldable pub set_parent_state : (block state : ℕ) → M Db (Unit {0})
  set_parent_state block state db = elim db.txn [
    | [] ↦ crashes db
    | t ∷ ts ↦ elim ts [
      | [] ↦ crashes db
      | p ∷ ps ↦
          (do
            blocks ← unless_hung (mem_hash_set p.blocks block state)
            modify λ db. record db { txn = t ∷ record p { blocks = blocks } ∷ ps })
            db
    ]
  ]

  -- One entry of the loop of `txn_commit`: the entry is merged into the parent transaction.
  unfoldable pub merge_freed : ℕ → M Db (Unit {0})
  merge_freed k = do
    old ← parent_state k
    if old == allocated
        then (set_parent_state k 0 >> ignore_error (freelist_free_block os B k))
        else if old == freed
        then check_code false (minus 902)
        else if old == 0
        then set_parent_state k freed
        else (set_parent_state k 0 >> set_parent_state old freed)

  unfoldable pub merge_copied : (k v : ℕ) → M Db (Unit {0})
  merge_copied k v = do
    old ← parent_state v
    if old == allocated
        then ignore_error (freelist_free_block os B v)
        else if old == freed
        then check_code false (minus 903)
        else if old == 0
        then set_parent_state k v
        else (ignore_error (freelist_free_block os B v) >> set_parent_state k old)

  unfoldable pub merge_entry : Item → M Db (Unit {0})
  merge_entry e =
      if e.v == allocated
      then set_parent_state e.k allocated
      else if e.v == freed
      then merge_freed e.k
      else merge_copied e.k e.v

  unfoldable pub txn_commit : M Db (Unit {0})
  txn_commit db = elim db.txn [
    | [] ↦ check_txn db
    | t ∷ ts ↦ elim ts [
      | [] ↦ txn_commit_master db
      | p ∷ ps ↦
          (do
            each_entry merge_entry u32_rounds 0
            modify λ db. record db { txn = elim db.txn [ [] ↦ [] | u ∷ us ↦ us ] }
            next_txn_id)
            db
    ]
  ]
