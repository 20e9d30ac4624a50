-- ===== src/Txn/Step.antt =====
-- The steps of an open transaction: calls of the block functions of src/txn.c, and writes.
use everdb_native.Base.{ℕ, suc, ◌+◌, ◌*◌, ◌^◌, ◌≤◌, ◌<◌, ◌≡◌, ◌≢◌, ◌-◌, some}
use everdb_native.Memory.{store8, bytes_u32}
use everdb_native.MemHash.{MemHash, mem_hash_get, mem_hash_set}
use everdb_native.MemHash.Map.{Holds}
use everdb_native.MemHash.Grow.{HasRoomFor}
use everdb_native.Core.{Db, user_data, objlist_block}
use everdb_native.Core.Words.{Inside}
use everdb_native.Txn.Exclusive.{IsUncopied}
use everdb_native.Io.{Os}
use everdb_native.Io.Resize.{IsReliable}
use everdb_native.Freelist.{grown}
use everdb_native.Array.{small_bytes}
use everdb_native.Array.Small.{IsSmall, item_at}
use everdb_native.Txn.{
  freed, allocated, blocks, txn_modify_block, txn_free_block, txn_allocate_block,
}
use everdb_native.Run.{ok}
use everdb_native.Txn.Isolation.{table_of}

-- A step of a transaction, each a call that succeeds on a table of at most 315 keys with low hashes and a free list in one
-- block: the copy of a committed user block or of the object list's root that has no copy yet; any write of the field `objlist`;
-- the change of a block of its own; a write into such a block other than the free list's root; the release of a committed user
-- block without a copy; the allocation of a block; and
-- the release of a block of its own, allocated or the copy of a user block. A copy or an allocation takes its block from the
-- free list or, where that is empty, from the file, which then grows: on a reliable system, where the committed blocks and those
-- of the table are in the file, and where the file ends up larger than it was and below 2 ^ 20 blocks.
pub data Step (os : Os) (d : ℕ) (Live : ℕ → Type 0) (db db' : Db) : Type 0 where
  copies :
      (b c k : ℕ)
      → objlist_block ≤ b
      → Live b
      → mem_hash_get (table_of db.txn) b ≡ some 0
      → IsUncopied (table_of db.txn) b
      → IsSmall db.mem db.freelist 4 (suc k)
      → HasRoomFor (table_of db.txn) (bytes_u32 (item_at db.mem db.freelist 4 k))
      → txn_modify_block os (blocks os (suc d)) b db ≡ ok c db'
      → Step os d Live db db'
  points : (o : ℕ) → db' ≡ record db { objlist = o } → Step os d Live db db'
  reuses :
      (b c s : ℕ)
      → mem_hash_get (table_of db.txn) b ≡ some s
      → s ≢ 0
      → s ≢ freed
      → txn_modify_block os (blocks os (suc d)) b db ≡ ok c db'
      → Step os d Live db db'
  writes :
      (b s p v : ℕ)
      → b ≢ 0
      → b ≢ 2
      → Holds (table_of db.txn) b s
      → s ≢ 0
      → s ≢ freed
      → Inside b p
      → db' ≡ record db { mem = store8 db.mem p v }
      → Step os d Live db db'
  frees :
      (b : ℕ)
      → user_data ≤ b
      → Live b
      → mem_hash_get (table_of db.txn) b ≡ some 0
      → IsUncopied (table_of db.txn) b
      → HasRoomFor (table_of db.txn) b
      → txn_free_block os (blocks os (suc d)) b db ≡ ok tt db'
      → Step os d Live db db'
  allocates :
      (c k : ℕ)
      → IsSmall db.mem db.freelist 4 (suc k)
      → HasRoomFor (table_of db.txn) (bytes_u32 (item_at db.mem db.freelist 4 k))
      → txn_allocate_block os (blocks os (suc d)) db ≡ ok c db'
      → Step os d Live db db'
  releases :
      (b n : ℕ)
      → user_data ≤ b
      → Holds (table_of db.txn) b allocated
      → IsSmall db.mem db.freelist 4 n
      → (n + 1) * 4 ≤ small_bytes
      → HasRoomFor (table_of db.txn) b
      → txn_free_block os (blocks os (suc d)) b db ≡ ok tt db'
      → Step os d Live db db'
  drops :
      (b c n : ℕ)
      → user_data ≤ b
      → user_data ≤ c
      → Holds (table_of db.txn) c b
      → b ≢ allocated
      → b ≢ freed
      → IsSmall db.mem db.freelist 4 n
      → (n + 1) * 4 ≤ small_bytes
      → HasRoomFor (table_of db.txn) c
      → ((t : MemHash) → mem_hash_set (table_of db.txn) c 0 ≡ some t → HasRoomFor t b)
      → txn_free_block os (blocks os (suc d)) c db ≡ ok tt db'
      → Step os d Live db db'
  grows :
      (c : ℕ)
      → IsReliable os
      → IsSmall db.mem db.freelist 4 0
      → user_data ≤ db.nblocks
      → db.nblocks < grown db.nblocks
      → grown db.nblocks < 2 ^ 20
      → (grown db.nblocks - db.nblocks) * 4 ≤ small_bytes
      → ((b : ℕ) → Live b → b < db.nblocks)
      → ((b v : ℕ) → db.nblocks ≤ b → Holds (table_of db.txn) b v → v ≡ 0)
      → HasRoomFor (table_of db.txn) db.nblocks
      → txn_allocate_block os (blocks os (suc d)) db ≡ ok c db'
      → Step os d Live db db'
  extends :
      (b c : ℕ)
      → objlist_block ≤ b
      → Live b
      → mem_hash_get (table_of db.txn) b ≡ some 0
      → IsUncopied (table_of db.txn) b
      → IsReliable os
      → IsSmall db.mem db.freelist 4 0
      → user_data ≤ db.nblocks
      → db.nblocks < grown db.nblocks
      → grown db.nblocks < 2 ^ 20
      → (grown db.nblocks - db.nblocks) * 4 ≤ small_bytes
      → ((b : ℕ) → Live b → b < db.nblocks)
      → ((b v : ℕ) → db.nblocks ≤ b → Holds (table_of db.txn) b v → v ≡ 0)
      → HasRoomFor (table_of db.txn) db.nblocks
      → txn_modify_block os (blocks os (suc d)) b db ≡ ok c db'
      → Step os d Live db db'

pub data Reach (os : Os) (d : ℕ) (Live : ℕ → Type 0) (db : Db) : Db → Type 0 where
  here : Reach os d Live db db
  next : {e e' : Db} → Reach os d Live db e → Step os d Live e e' → Reach os d Live db e'
