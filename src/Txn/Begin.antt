-- ===== src/Txn/Begin.antt =====
-- src/txn.c: `txn_begin` and `txn_begin_master`.
use everdb_native.Base.{ℕ, false, ◌==◌, [], ◌∷◌}
use everdb_native.Base.Word.{add32}
use everdb_native.MemHash
use everdb_native.Core.{Db, TxnState, Blocks, freelist_primary, freelist_secondary, objlist_block}
use everdb_native.Io.{Os}
use everdb_native.Txn.{err_not_implemented, set_block_state, copy_block, txn_modify_block}
use everdb_native.Freelist.{set_freelist}
use everdb_native.Run.{M, ◌>>=◌, ◌>>◌, done, gets, modify, check_code, attempt}

unfoldable pub next_txn_id : M Db (Unit {0})
next_txn_id = modify λ db. record db { txn_id = add32 db.txn_id 1 }

unfoldable pub txn_state_new : ℕ → TxnState
txn_state_new nblocks = record { nblocks = nblocks; blocks = MemHash.new }

module _ (os : Os) (B : Blocks) where
  unfoldable pub txn_begin_master : M Db (Unit {0})
  txn_begin_master = do
    primary ← gets (λ db. db.freelist == freelist_primary)
    check_code primary 3111
    objects ← gets (λ db. db.objlist == objlist_block)
    check_code objects 3112
    copy_block freelist_secondary freelist_primary
    set_block_state freelist_secondary freelist_primary
    set_freelist freelist_secondary

  -- Inside a transaction a second one is refused, after the free list's block has been copied.
  unfoldable pub txn_begin : M Db (Unit {0})
  txn_begin db = elim db.txn [
    | [] ↦
        (do
          modify (λ db. record db { txn = txn_state_new db.nblocks ∷ [] })
          txn_begin_master
          next_txn_id)
          db
    | t ∷ ts ↦
        (do
          attempt (txn_modify_block os B db.freelist) (set_freelist) (λ _. done)
          check_code false err_not_implemented)
          db
  ]
