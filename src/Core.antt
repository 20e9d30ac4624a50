-- ===== src/Core.antt =====
-- src/core.h, src/types.h, src/util.h: the database handle `edb_t`, blocks of 4096 bytes in the
-- mapping, and the block functions that the data structures call. `db->txn` is the list of open
-- transactions, innermost first: the `next` pointer of a transaction is the tail.
pub mod Words
pub mod Allocator
use everdb_native.Base.{ℕ, ◌*◌, ◌+◌, ◌%◌, ◌^◌, ◌≡◌, Bool, List}
use everdb_native.Memory.{Mem, load8, store8, load32, store32}
use everdb_native.MemHash.{MemHash}
use everdb_native.Run.{M, gets, modify, ok}

abbrev pub block_bits : ℕ
block_bits = 12

abbrev pub block_size : ℕ
block_size = 4096

abbrev pub freelist_primary : ℕ
freelist_primary = 1

abbrev pub freelist_secondary : ℕ
freelist_secondary = 2

abbrev pub objlist_block : ℕ
objlist_block = 3

abbrev pub user_data : ℕ
user_data = 4

abbrev pub error_data_corrupt : ℕ
error_data_corrupt = 1901

-- src/txn.c: `txn_state_t`.
pub record TxnState : Type 0 where
  pub nblocks : ℕ
  pub blocks : MemHash

-- `mapped` says that `data` is not NULL, and `writable` that the last mapping was made with PROT_WRITE. `mem` is the file's contents, which the mapping shows:
-- 0 behind the end of the file. `h_file` is a C int, by its bit pattern.
pub record Db : Type 0 where
  pub readonly : ℕ
  pub h_file : ℕ
  pub mapped : Bool
  pub writable : Bool
  pub mem : Mem
  pub filesize : ℕ
  pub nblocks : ℕ
  pub freelist : ℕ
  pub objlist : ℕ
  pub txn_id : ℕ
  pub txn : List TxnState

-- The two handles differ at most in the contents of the file.
abbrev pub OnlyMem : Db → Db → Type 0
OnlyMem db db' = db' ≡ record db { mem = db'.mem }

-- `BLOCK(db, index)`, `PAGE_TABLE`, `BTREE` and the like: the product is one of 32-bit words.
unfoldable pub block_addr : ℕ → ℕ
block_addr b = b * block_size % 2 ^ 32

unfoldable pub read8 : ℕ → M Db ℕ
read8 a db = ok (load8 db.mem a) db

unfoldable pub read32 : ℕ → M Db ℕ
read32 a db = ok (load32 db.mem a) db

unfoldable pub write8 : ℕ → ℕ → M Db (Unit {0})
write8 a v db = ok tt (record db { mem = store8 db.mem a v })

unfoldable pub write32 : ℕ → ℕ → M Db (Unit {0})
write32 a v db = ok tt (record db { mem = store32 db.mem a v })

abbrev pub update_mem : (Mem → Mem) → M Db (Unit {0})
update_mem f = modify (λ db. record db { mem = f db.mem })

-- `edb_allocate_block`, `edb_modify_block` and `edb_free_block`, as the data structures see them.
pub record Blocks : Type 0 where
  pub allocate : M Db ℕ
  pub change : ℕ → M Db ℕ
  pub free : ℕ → M Db (Unit {0})

-- The block is one that the transaction may write: changing it gives the block itself, whatever the
-- file contains.
abbrev pub IsWritable : Blocks → Db → ℕ → Type 0
IsWritable B db b = (d : Db) → OnlyMem db d → B.change b d ≡ ok b d
