-- ===== src/Txn/Abort.antt =====
-- src/txn.c: `txn_abort` and `txn_abort_master`.
use everdb_native.Base.{◌||◌, ◌==◌, if◌then◌else◌, List, [], ◌∷◌}
use everdb_native.MemHash.{Item}
use everdb_native.Core.{Db, TxnState, Blocks, freelist_primary, objlist_block}
use everdb_native.Io.{Os, io_resize}
use everdb_native.Freelist.{freelist_free_block}
use everdb_native.Txn.{freed, check_txn}
use everdb_native.Txn.Begin.{next_txn_id}
use everdb_native.Run.{M, ◌>>◌, done, modify}

module _ (os : Os) (B : Blocks) where
  unfoldable pub txn_abort_master : TxnState → M Db (Unit {0})
  txn_abort_master ts = do
    modify λ db. record db { freelist = freelist_primary; objlist = objlist_block }
    io_resize os ts.nblocks
    modify λ db. record db { txn = [] }
    next_txn_id

  -- "undo everything we did"
  unfoldable pub undo_entries : List Item → M Db (Unit {0})
  undo_entries [] = done
  undo_entries (e ∷ es) =
      (if (e.k == 0) || (e.v == freed) then done else freelist_free_block os B e.k)
      >> undo_entries es

  unfoldable pub txn_abort : M Db (Unit {0})
  txn_abort db = elim db.txn [
    | [] ↦ check_txn db
    | ts ∷ next ↦ elim next [
      | [] ↦ txn_abort_master ts db
      | p ∷ ps ↦
          (do
            modify λ db. record db { txn = p ∷ ps }
            io_resize os ts.nblocks
            undo_entries ts.blocks.entries
            next_txn_id)
            db
    ]
  ]
