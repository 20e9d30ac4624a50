-- ===== src/Tests/Created.antt =====
-- A new database, whose first transaction allocates a block and is committed.
use everdb_native.Base.{ℕ, zero, suc, ◌≡◌, refl, arith, []}
use everdb_native.Core.{Db}
use everdb_native.Array.Small.{IsSmall}
use everdb_native.Txn.{txn_allocate_block, blocks}
use everdb_native.Txn.Cycle.{begun}
use everdb_native.Txn.Isolation.{table_of}
use everdb_native.Txn.Step.{Reach, here, next, grows}
use everdb_native.Txn.Commit.{txn_commit}
use everdb_native.Txn.Store.{IsStored, bootstrap_only, bootstrap-HasRoomFor}
use everdb_native.Txn.Partition.{After, KeepsObjects}
use everdb_native.Edb.{edb_open}
use everdb_native.Edb.Life.{IsRoot, edb_open-IsStored}
use everdb_native.Txn.History.{start, commits}
use everdb_native.Run.{ok}
use everdb_native.Tests.{program}
use everdb_native.Tests.Data.{blank, obliging}
use everdb_native.Tests.Files.{obliging-IsReliable}
use everdb_native.Tests.Atomic.{state_after}

abbrev new_db : Db
new_db = state_after (edb_open (obliging 0) [] 0 1 blank)

new_db_runs : edb_open (obliging 0) [] 0 1 blank ≡ ok tt new_db
unfolding program
new_db_runs = refl

new_list : IsSmall (begun new_db).mem 2 4 0
unfolding program
new_list = record {
  no_table = refl;
  item = refl;
  positive = omega arith;
  byte = omega arith;
  length = refl;
  fits = omega arith;
}

-- The first allocation grows the file from four blocks to five.
abbrev first_db : Db
first_db = state_after (txn_allocate_block (obliging 0) (blocks (obliging 0) 1) (begun new_db))

first_runs : txn_allocate_block (obliging 0) (blocks (obliging 0) 1) (begun new_db) ≡ ok 4 first_db
unfolding program
first_runs = refl

first_steps : Reach (obliging 0) 0 IsRoot (begun new_db) first_db
unfolding program
first_steps = next here (
    grows 4 (obliging-IsReliable 0) new_list (omega arith) (omega arith) (omega arith) (omega arith)
      (λ b live. omega arith)
      (λ b v le h. absurd (omega (arith, bootstrap_only b v (λ e. omega arith) h)))
      (bootstrap-HasRoomFor 4 (omega arith)) first_runs)

first_list : IsSmall first_db.mem 2 4 0
unfolding program
first_list = record {
  no_table = refl;
  item = refl;
  positive = omega arith;
  byte = omega arith;
  length = refl;
  fits = omega arith;
}

first_keeps : KeepsObjects (table_of first_db.txn)
unfolding program
first_keeps b s b0 b2 (zero, lt, kb, vs) = omega (arith, kb, vs)
first_keeps b s b0 b2 (suc zero, lt, kb, vs) = omega (arith, kb, vs)
first_keeps b s b0 b2 (suc (suc zero), lt, kb, vs) = omega (arith, kb, vs)
first_keeps b s b0 b2 (suc (suc (suc x)), lt, kb, vs) = absurd (omega arith)

abbrev first_commit : Db
first_commit = state_after (txn_commit (obliging 0) (blocks (obliging 0) 1) first_db)

first_commit_runs : txn_commit (obliging 0) (blocks (obliging 0) 1) first_db ≡ ok tt first_commit
unfolding program
first_commit_runs = refl

edb_open-IsStored_example : (n : ℕ) × IsStored (After IsRoot (table_of first_db.txn)) first_commit n
unfolding program
edb_open-IsStored_example =
    edb_open-IsStored (obliging 0) 0 [] blank new_db first_commit 3 (λ p. p)
      (After IsRoot (table_of first_db.txn)) (obliging-IsReliable 0) refl new_db_runs
      (commits (begun new_db) first_db first_commit 0 start refl first_steps refl first_keeps
        first_list (omega arith) first_commit_runs)
