-- ===== src/Txn/History.antt =====
-- Transactions one after the other, each committed or aborted.
use everdb_native.Base.{ℕ, suc, ◌+◌, ◌*◌, ◌^◌, ◌≤◌, ◌<◌, ◌≡◌, length}
use everdb_native.Core.{Db, objlist_block}
use everdb_native.Io.{Os}
use everdb_native.Io.Resize.{IsReliable}
use everdb_native.Array.{small_bytes}
use everdb_native.Array.Small.{IsSmall}
use everdb_native.Txn.{blocks}
use everdb_native.Txn.Begin.{txn_begin}
use everdb_native.Txn.Commit.{txn_commit}
use everdb_native.Txn.Abort.{txn_abort}
use everdb_native.Txn.Isolation.{table_of, Returns-of, ok_of}
use everdb_native.Txn.Step.{Reach}
use everdb_native.Txn.Publish.{released_blocks}
use everdb_native.Txn.Partition.{After, KeepsObjects}
use everdb_native.Txn.Store.{IsStored}
use everdb_native.Txn.Atomic.{txn_abort-Reach}
use everdb_native.Txn.Durable.{txn_of, txn_commit-Reach}
use everdb_native.Run.{ok}

-- The database `db` with the live blocks `Live`, after transactions that began with those of the parameters.
-- Each takes steps and is committed, where the object list's root has not been copied and the free list fits one block
-- afterwards, or aborted.
pub data History (os : Os) (d : ℕ) (Live₀ : ℕ → Type 0) (db₀ : Db)
    : (ℕ → Type 0) → Db → Type 1 where
  start : History os d Live₀ db₀ Live₀ db₀
  commits :
      {Live : ℕ → Type 0} {db : Db} (db₁ db₂ db₃ : Db) (k : ℕ)
      → History os d Live₀ db₀ Live db
      → txn_begin os (blocks os (suc d)) db ≡ ok tt db₁
      → Reach os d Live db₁ db₂
      → db₂.objlist ≡ objlist_block
      → KeepsObjects (table_of db₂.txn)
      → IsSmall db₂.mem 2 4 k
      → (k + length (released_blocks (txn_of db.nblocks db₂))) * 4 ≤ small_bytes
      → txn_commit os (blocks os (suc d)) db₂ ≡ ok tt db₃
      → History os d Live₀ db₀ (After Live (table_of db₂.txn)) db₃
  aborts :
      {Live : ℕ → Type 0} {db : Db} (db₁ db₂ db₃ : Db)
      → History os d Live₀ db₀ Live db
      → 0 < db.nblocks
      → db.nblocks < 2 ^ 20
      → ((b : ℕ) → Live b → b < db.nblocks)
      → txn_begin os (blocks os (suc d)) db ≡ ok tt db₁
      → Reach os d Live db₁ db₂
      → txn_abort os (blocks os (suc d)) db₂ ≡ ok tt db₃
      → History os d Live₀ db₀ Live db₃

-- On a reliable system, a database that is stored (no transaction is open, the free list fits its root block
-- and has user blocks, none live and none twice) is stored after any number of transactions. Each takes steps of
-- Txn.Step (calls that succeed on a table of at most 315 keys with low hashes and a free list in one block, the
-- file growing where the list is empty, and writes), and is committed where the object list's root has not been copied and the free list
-- then fits one block, or aborted where the file had at least one and fewer than 2 ^ 20 blocks, all live ones among them.
pub History-IsStored :
    (os : Os) (d n : ℕ) (Live₀ : ℕ → Type 0) (db₀ : Db)
    → IsReliable os
    → IsStored Live₀ db₀ n
    → (Live : ℕ → Type 0) (db : Db) → History os d Live₀ db₀ Live db
    → (n' : ℕ) × IsStored Live db n'
History-IsStored os d n Live₀ db₀ reliable is Live db start = (n, is)
History-IsStored os d n Live₀ db₀ reliable is _ db
      (commits {Live} {db = e} db₁ db₂ db₃ k before begins steps at_home objects list room ends) =
    let (n', now) = History-IsStored os d n Live₀ db₀ reliable is Live e before in
    let (_, stored) = ok_of (
      Returns-of
        (txn_commit-Reach Live os (blocks os (suc d)) d n' k e db₁ db₂ now begins steps at_home
          objects list room)
        ends) in
    (_, stored)
History-IsStored os d n Live₀ db₀ reliable is Live db
      (aborts {db = e} db₁ db₂ db₃ before some_blocks small below begins steps ends) =
    let (n', now) = History-IsStored os d n Live₀ db₀ reliable is Live e before in
    let (_, stored) = ok_of (
      Returns-of
        (txn_abort-Reach Live os (blocks os (suc d)) d n' e db₁ db₂ now reliable some_blocks small
          below begins steps)
        ends) in
    (n', stored)
