-- ===== src/Tests/Txns.antt =====
-- The block functions of a transaction at concrete inputs: it has freed block 5.
use everdb_native.Base.{ℕ, ◌≡◌, refl, arith, [], ◌∷◌}
use everdb_native.Base.Word.{minus}
use everdb_native.MemHash.Map.{mem_hash_get-absent, mem_hash_get-Holds}
use everdb_native.Core.{Db, TxnState}
use everdb_native.Txn.{err_invalid_block, txn_free_block, txn_modify_block}
use everdb_native.Txn.States.{InState, txn_free_block_once}
use everdb_native.Txn.{err_not_implemented}
use everdb_native.Txn.Begin.{txn_begin}
use everdb_native.Txn.Commit.{txn_commit}
use everdb_native.Txn.Abort.{txn_abort}
use everdb_native.Txn.Cycle.{Undone, txn_abort-txn_begin, txn_commit-txn_begin}
use everdb_native.Txn.Copy.{Copied, txn_modify_block-Copied}
use everdb_native.Memory.{load8, load32, store8, store32, read_bytes, bytes_u32}
use everdb_native.Core.{block_addr}
use everdb_native.Tests.Arrays.{list_mem, list-IsSmall}
use everdb_native.Edb.{error_open_txn, edb_close, edb_txn_begin}
use everdb_native.Edb.Guards.{open_txn_refused}
use everdb_native.Tests.Files.{obliging-IsReliable}
use everdb_native.Run.{◌>>◌, fail}
use everdb_native.Run.Returns.{Returns}
use everdb_native.Tests.Data.{blank, in_place, obliging}
use everdb_native.Tests.Tables.{
  table, run_table, table-IsPlaced, table-IsValid, table-HasRoomFor, absent,
}

-- The current transaction has the state `v` for block 5.
abbrev txn_with : ℕ → TxnState
txn_with v = record { nblocks = 4; blocks = table v }

abbrev during : ℕ → Db
during v = record blank { txn = txn_with v ∷ [] }

at_five : (v : ℕ) → InState (during v) (txn_with v) [] 5 v
unfolding run_table
at_five v = record {
  current = refl;
  known =
      mem_hash_get-Holds (table v) 5 v (table-IsPlaced v) (omega arith)
        (2, omega arith, refl, refl);
}

at_seven : InState (during 2) (txn_with 2) [] 7 0
unfolding run_table
at_seven = record {
  current = refl;
  known =
      mem_hash_get-absent (table 2) 7 (table-IsValid 2) (omega arith) (omega arith) (omega arith)
        (absent 2);
}

txn_free_block_once_example :
    Returns
      (λ _ db'.
        (db' ≡ record (during 2) { txn = db'.txn })
        × (txn_free_block (obliging 4) in_place 7 db' ≡ fail err_invalid_block db')
        × (txn_modify_block (obliging 4) in_place 7 db' ≡ fail (minus 1) db'))
      (txn_free_block (obliging 4) in_place 7 (during 2))
unfolding run_table
txn_free_block_once_example =
    txn_free_block_once (obliging 4) in_place (during 2) (txn_with 2) [] 7 at_seven (omega arith)
      (table-IsValid 2) (table-HasRoomFor 2 7 (omega arith))

-- No transaction is open, and the file has six blocks.
abbrev idle : Db
idle = record blank { freelist = 1; objlist = 3; nblocks = 6 }

txn_abort_example :
    Returns
      (λ _ db'. Undone idle db')
      ((txn_begin (obliging 6) in_place >> txn_abort (obliging 6) in_place) idle)
txn_abort_example =
    txn_abort-txn_begin (obliging 6) in_place idle
      (record { none_open = refl; primary = refl; objects = refl }) (obliging-IsReliable 6)
      (omega arith) (omega arith)

txn_commit_example :
    Returns
      (λ _ db'. Undone idle db')
      ((txn_begin (obliging 6) in_place >> txn_commit (obliging 6) in_place) idle)
txn_commit_example =
    txn_commit-txn_begin (obliging 6) in_place idle
      (record { none_open = refl; primary = refl; objects = refl })

-- The transaction has copied its free list to block 5.
abbrev copied : Db
copied = record (during 2) { freelist = 5 }

copied_at_five : InState copied (txn_with 2) [] 5 2
copied_at_five = record { current = refl; known = (at_five 2).known }

open_txn_refused_example :
    (edb_txn_begin (obliging 6) 5 copied ≡ fail err_not_implemented copied)
    × (edb_close copied ≡ fail error_open_txn copied)
open_txn_refused_example =
    open_txn_refused (obliging 6) 5 copied refl copied_at_five (omega arith) (omega arith)

-- The transaction has not touched block 7, and its free list has the block 9.
abbrev copying : Db
copying = record (during 2) { mem = list_mem; freelist = 1 }

txn_modify_block_example :
    Returns
      (λ c' db'.
        (c' ≡ 9)
        × (db' ≡ record copying { mem = db'.mem; txn = db'.txn })
        × Copied list_mem 1 (txn_with 2) [] 7 9 0 db')
      (txn_modify_block (obliging 6) in_place 7 copying)
unfolding run_table load8 load32 store8 store32 read_bytes bytes_u32 block_addr
txn_modify_block_example =
    txn_modify_block-Copied (obliging 6) in_place copying (txn_with 2) [] 7 9 0
      (record { current = refl; known = at_seven.known }) (table-IsValid 2) list-IsSmall
      (λ d only. refl) refl (omega arith) (omega arith) (omega arith) (omega arith)
      (table-HasRoomFor 2 9 (omega arith))
