-- ===== src/Txn.antt =====
-- src/txn.h, src/txn.c: transactions. A transaction maps blocks to states: 0 for a block that it has
-- not touched, ALLOCATED, FREED, or the block of which this one is the copy. Here are the block
-- functions and the knot between them and the free list; the children begin and end transactions.
pub mod Begin
pub mod Commit
pub mod Abort
pub mod States
pub mod Copy
pub mod Cycle
pub mod Calls
pub mod Exclusive
pub mod Isolation
pub mod Step
pub mod Steps
pub mod Growth
pub mod Invariant
pub mod Restore
pub mod Release
pub mod Extend
pub mod Publish
pub mod Partition
pub mod Own
pub mod Room
pub mod Store
pub mod Atomic
pub mod Durable
pub mod History
use everdb_native.Base.{ℕ, zero, suc, ◌+◌, Bool, true, false, ◌==◌, if◌then◌else◌, List, [], ◌∷◌}
use everdb_native.Base.Word.{add32, minus}
use everdb_native.Memory.{Mem, memcpy}
use everdb_native.MemHash.{MemHash, mem_hash_set, mem_hash_get}
use everdb_native.Core.{Db, TxnState, Blocks, block_addr, block_size, update_mem}
use everdb_native.Io.{Os}
use everdb_native.Freelist.{freelist_allocate_block, freelist_free_block}
use everdb_native.Run.{
  M, Outcome, ok, fail, hung, ◌>>=◌, ◌>>◌, pure, done, hangs, gets, modify, unless_hung, check_code,
  ignore_error, crashes,
}

abbrev pub allocated : ℕ
allocated = 0xffffff01

abbrev pub freed : ℕ
freed = 0xffffff02

abbrev pub err_no_transaction : ℕ
err_no_transaction = 2001

abbrev pub err_invalid_block : ℕ
err_invalid_block = 2003

abbrev pub err_not_implemented : ℕ
err_not_implemented = 2099

-- CHECK_CODE(db->txn != NULL, EDB_ERR_TXN_NO_TRANSACTION)
unfoldable pub check_txn : M Db (Unit {0})
check_txn db = elim db.txn [ [] ↦ fail err_no_transaction db | t ∷ ts ↦ ok tt db ]

-- `mem_hash_get(db->txn->blocks, block)`; without a transaction a null pointer is read.
unfoldable pub block_state : ℕ → M Db ℕ
block_state block db = elim db.txn [
  | [] ↦ crashes db
  | t ∷ ts ↦ unless_hung (mem_hash_get t.blocks block) db
]

unfoldable pub set_head : TxnState → List TxnState → MemHash → M Db (Unit {0})
set_head t ts blocks = modify λ db. record db { txn = record t { blocks = blocks } ∷ ts }

-- `mem_hash_set(db->txn->blocks, block, state)`
unfoldable pub set_block_state : (block state : ℕ) → M Db (Unit {0})
set_block_state block state db = elim db.txn [
  | [] ↦ crashes db
  | t ∷ ts ↦ (unless_hung (mem_hash_set t.blocks block state) >>= set_head t ts) db
]

-- memcpy(BLOCK(db, to), BLOCK(db, from), BLOCK_SIZE)
unfoldable pub copy_block : (to from : ℕ) → M Db (Unit {0})
copy_block to from = update_mem λ m. memcpy m (block_addr to) (block_addr from) block_size

module _ (os : Os) (B : Blocks) where
  unfoldable pub txn_allocate_block : M Db ℕ
  txn_allocate_block = do
    check_txn
    new_block ← freelist_allocate_block os B
    set_block_state new_block allocated
    pure new_block

  unfoldable pub txn_free_block : ℕ → M Db (Unit {0})
  txn_free_block block = do
    check_txn
    state ← block_state block
    if state == allocated
        then (set_block_state block 0 >> ignore_error (freelist_free_block os B block))
        else if state == freed
        then check_code false err_invalid_block
        else if state == 0
        then set_block_state block freed
        else (do
          set_block_state block 0
          set_block_state state freed
          ignore_error (freelist_free_block os B block))

  unfoldable pub txn_modify_block : ℕ → M Db ℕ
  txn_modify_block block = do
    check_txn
    state ← block_state block
    if state == allocated
        then pure block
        else if state == freed
        then (check_code false (minus 1) >> pure block)
        else if state == 0
        then (do
          new_block ← freelist_allocate_block os B
          copy_block new_block block
          set_block_state new_block block
          pure new_block)
        else pure block

-- The block functions call the free list, which calls them again: `depth` bounds the nesting.
unfoldable pub blocks : Os → ℕ → Blocks
blocks os zero = record { allocate = hangs; change = λ _. hangs; free = λ _. hangs }
blocks os (suc depth) =
    let below = blocks os depth in
    record {
      allocate = txn_allocate_block os below;
      change = txn_modify_block os below;
      free = txn_free_block os below;
    }
