-- ===== src/Edb.antt =====
-- src/edb.h, src/edb.c: opening and closing a database, transactions and blocks as the public
-- interface has them. Arrays behind handles are in `Objects`. `depth` bounds the nesting of block
-- functions and free list.
pub mod Objects
pub mod Open
pub mod Guards
pub mod Items
pub mod Create
pub mod Life
use everdb_native.Base.{ℕ, ◌+◌, Bool, true, false, ◌==◌, if◌then◌else◌, List, [], ◌∷◌}
use everdb_native.Core.{Db, Blocks, freelist_primary, objlist_block, user_data}
use everdb_native.Io.{Os, io_open, io_close, io_resize}
use everdb_native.Array.{array_init}
use everdb_native.Txn.{blocks}
use everdb_native.Txn.Begin.{txn_begin}
use everdb_native.Txn.Commit.{txn_commit}
use everdb_native.Txn.Abort.{txn_abort}
use everdb_native.Run.{M, Outcome, ok, fail, ◌>>=◌, ◌>>◌, done, gets, modify, check_code, attempt}

abbrev pub error_open_txn : ℕ
error_open_txn = 1003

abbrev pub error_read_only : ℕ
error_read_only = 1004

unfoldable pub edb_check : M Db (Unit {0})
edb_check = done

-- CHECK_CODE(db->readonly == 0, EDB_ERROR_READ_ONLY)
unfoldable pub check_writable : M Db (Unit {0})
check_writable db = check_code (db.readonly == 0) error_read_only db

unfoldable pub edb_close : M Db (Unit {0})
edb_close db = elim db.txn [ [] ↦ io_close db | t ∷ ts ↦ fail error_open_txn db ]

module _ (os : Os) where
  unfoldable pub edb_init : M Db (Unit {0})
  edb_init = do
    io_resize os user_data
    freelist ← gets (λ db. db.freelist)
    array_init freelist 4
    objlist ← gets (λ db. db.objlist)
    array_init objlist 4

  -- `readonly = 0 && ..` in the test assigns: without `overwrite` the flag is lost.
  unfoldable pub open_database : List ℕ → (readonly overwrite : ℕ) → M Db (Unit {0})
  open_database fname readonly overwrite = do
    io_open os fname readonly overwrite
    modify λ db. record db {
      readonly = if overwrite == 0 then 0 else readonly;
      freelist = freelist_primary;
      objlist = objlist_block;
    }
    if overwrite == 0 then edb_check else edb_init

  unfoldable pub edb_open : List ℕ → (readonly overwrite : ℕ) → M Db (Unit {0})
  edb_open fname readonly overwrite =
      attempt (open_database fname readonly overwrite) (λ _. done)
        λ e. do io_close; check_code false e

  module _ (depth : ℕ) where
    unfoldable pub edb_txn_begin : M Db (Unit {0})
    edb_txn_begin = do check_writable; txn_begin os (blocks os depth)

    unfoldable pub edb_txn_commit : M Db (Unit {0})
    edb_txn_commit = do check_writable; txn_commit os (blocks os depth)

    unfoldable pub edb_txn_abort : M Db (Unit {0})
    edb_txn_abort = do check_writable; txn_abort os (blocks os depth)

    unfoldable pub edb_allocate_block : M Db ℕ
    edb_allocate_block = (blocks os depth).allocate

    unfoldable pub edb_modify_block : ℕ → M Db ℕ
    edb_modify_block = (blocks os depth).change

    unfoldable pub edb_free_block : ℕ → M Db (Unit {0})
    edb_free_block = (blocks os depth).free
