-- ===== src/Tests/Atomic.antt =====
-- A transaction at a concrete input: it copies the committed block 5 to the free block 9, and then is
-- aborted or committed.
use everdb_native.Base.{
  ℕ, zero, suc, ◌<◌, ◌≡◌, ◌≢◌, ◌⊎◌, inl, inr, refl, sym, arith, [], ◌∷◌, ◌==◌, Bool-cases,
}
use mathlib.Core.Path.{subst}
use everdb_native.Core.{Db, TxnState}
use everdb_native.Array.Small.{IsSmall}
use everdb_native.Txn.{txn_modify_block, txn_allocate_block, blocks}
use everdb_native.Txn.Abort.{txn_abort}
use everdb_native.Txn.Cycle.{begun}
use everdb_native.Txn.Isolation.{table_of, Isolated}
use everdb_native.Txn.Step.{Reach, here, next, copies, grows, points}
use everdb_native.Txn.Invariant.{Reach-Isolated}
use everdb_native.Txn.Restore.{Restored}
use everdb_native.Txn.States.{InState, own-IsWritable}
use everdb_native.Txn.Commit.{txn_commit}
use everdb_native.Txn.Durable.{Durable, txn_commit-Reach}
use everdb_native.Txn.Publish.{Published, txn_commit-Published}
use everdb_native.MemHash.{entry_at, hash}
use everdb_native.MemHash.Spread.{IsLow}
use everdb_native.MemHash.Map.{Holds}
use everdb_native.MemHash.Grow.{HasRoomFor}
use everdb_native.Txn.Store.{IsStored, begun-Isolated, bootstrap_only, bootstrap-HasRoomFor}
use everdb_native.Txn.Partition.{After, KeepsObjects}
use everdb_native.Txn.History.{start, commits, History-IsStored}
use everdb_native.Txn.Exclusive.{IsUser}
use everdb_native.Txn.Atomic.{txn_abort-Reach}
use mathlib.Core.List.{Memᴰ}
use mathlib.Core.List.Memᴰ.{head, tail}
use everdb_native.Run.{Outcome, ok, fail, hung, crashed}
use everdb_native.Run.Returns.{Returns}
use everdb_native.Tests.{program}
use everdb_native.Tests.Arrays.{list_mem, list-IsSmall}
use everdb_native.Tests.Data.{blank, in_place, obliging}
use everdb_native.Tests.Files.{obliging-IsReliable}

-- Block 5 is the only live block besides the roots.
abbrev OnlyFive : ℕ → Type 0
OnlyFive b = (b ≡ 1) ⊎ ((b ≡ 3) ⊎ (b ≡ 5))

abbrev committed_db : Db
committed_db = record blank { mem = list_mem; freelist = 1; objlist = 3; nblocks = 10 }

abbrev pub state_after : {A : Type 0} → Outcome Db A → Db
state_after (ok a s) = s
state_after (fail e s) = s
state_after hung = blank
state_after crashed = blank

abbrev copied_db : Db
copied_db =
    state_after (txn_modify_block (obliging 10) (blocks (obliging 10) 1) 5 (begun committed_db))

copy_runs :
    txn_modify_block (obliging 10) (blocks (obliging 10) 1) 5 (begun committed_db) ≡ ok 9 copied_db
unfolding program
copy_runs = refl

begun_list : IsSmall (begun committed_db).mem 2 4 1
unfolding program
begun_list = record {
  no_table = refl;
  item = refl;
  positive = omega arith;
  byte = omega arith;
  length = refl;
  fits = omega arith;
}

copied_steps : Reach (obliging 10) 0 OnlyFive (begun committed_db) copied_db
unfolding program
copied_steps = next here (
    copies 5 9 0 (omega arith) (inr (inr refl)) refl (λ c c0 c2 h. c2 (bootstrap_only c 5 c0 h))
      begun_list (bootstrap-HasRoomFor 9 (omega arith)) copy_runs)

stored : IsStored OnlyFive committed_db 1
unfolding program
stored = record {
  idle = record { none_open = refl; primary = refl; objects = refl };
  committed = λ b live. omega arith;
  roots = (inl refl, inr (inl refl));
  list = list-IsSmall;
  user = user;
  unique = ((λ m. elim m [ ]), tt);
}
  where
    user : (b : ℕ) → Memᴰ b (9 ∷ []) → IsUser b × (¬ OnlyFive b)
    user b (head e) = ((omega arith, omega arith), λ live. omega arith)
    user b (tail m) = elim m [ ]

Reach-Isolated_example : Isolated OnlyFive list_mem 10 copied_db
unfolding program
Reach-Isolated_example =
    Reach-Isolated (obliging 10) 0 OnlyFive list_mem 10 (λ b live. omega arith) (begun committed_db)
      copied_db (begun-Isolated OnlyFive committed_db 1 stored) copied_steps

copied_list : IsSmall copied_db.mem 2 4 0
unfolding program
copied_list = record {
  no_table = refl;
  item = refl;
  positive = omega arith;
  byte = omega arith;
  length = refl;
  fits = omega arith;
}

-- The free list is empty: the next block is the first of the two by which the file grows.
abbrev grown_db : Db
grown_db = state_after (txn_allocate_block (obliging 10) (blocks (obliging 10) 1) copied_db)

grown_runs : txn_allocate_block (obliging 10) (blocks (obliging 10) 1) copied_db ≡ ok 10 grown_db
unfolding program
grown_runs = refl

abbrev copied_txn : TxnState
copied_txn = record { nblocks = 10; blocks = table_of copied_db.txn }

copied_state : InState copied_db copied_txn [] 2 1
unfolding program
copied_state = record { current = refl; known = refl }

copied_only : (b s : ℕ) → b ≢ 0 → b ≢ 2 → Holds (table_of copied_db.txn) b s → (b ≡ 9) × (s ≡ 5)
unfolding program
copied_only b s b0 b2 (zero, lt, kb, vs) = omega (arith, kb, vs)
copied_only b s b0 b2 (suc zero, lt, kb, vs) = omega (arith, kb, vs)
copied_only b s b0 b2 (suc (suc zero), lt, kb, vs) = omega (arith, kb, vs)
copied_only b s b0 b2 (suc (suc (suc x)), lt, kb, vs) = absurd (omega arith)

copied-HasRoomFor : HasRoomFor (table_of copied_db.txn) 10
unfolding program
copied-HasRoomFor = record {
  room = omega arith;
  keys = λ q w q0 h. elim (Bool-cases (q == 2)) [
    | inl spare ↦
        let two : q ≡ 2 = ground arith in subst (λ x. IsLow (hash x) 631) (sym two) (omega arith)
    | inr other ↦
        let nine : q ≡ 9 = (copied_only q w q0 (ground arith) h).0 in
        subst (λ x. IsLow (hash x) 631) (sym nine) (omega arith)
  ];
  low = omega arith;
}

grown_steps : Reach (obliging 10) 0 OnlyFive (begun committed_db) grown_db
unfolding program
grown_steps = next copied_steps (
    grows 10 (obliging-IsReliable 10) copied_list (omega arith) (omega arith) (omega arith)
      (omega arith) (λ b live. omega arith)
      (λ b v le h. absurd (omega (arith, copied_only b v (λ e. omega arith) (λ e. omega arith) h)))
      copied-HasRoomFor grown_runs)

-- The new block becomes the object list's root.
abbrev moved_db : Db
moved_db = record grown_db { objlist = 10 }

moved_steps : Reach (obliging 10) 0 OnlyFive (begun committed_db) moved_db
moved_steps = next grown_steps (points 10 refl)

txn_abort-Reach_example :
    Returns
      (λ _ e. Restored OnlyFive list_mem 10 e × IsStored OnlyFive e 1)
      (txn_abort (obliging 10) in_place moved_db)
unfolding program
txn_abort-Reach_example =
    txn_abort-Reach OnlyFive (obliging 10) in_place 0 1 committed_db (begun committed_db) moved_db
      stored (obliging-IsReliable 10) (omega arith) (omega arith) (λ b live. omega arith) refl
      moved_steps

copied_objects : (s : ℕ) → s < 3 → (entry_at copied_txn.blocks s).k ≢ 3
unfolding program
copied_objects zero lt = omega arith
copied_objects (suc zero) lt = omega arith
copied_objects (suc (suc zero)) lt = omega arith
copied_objects (suc (suc (suc s))) lt = absurd (omega arith)

-- The commit puts the old block 5 on the free list.
txn_commit-Published_example :
    Returns
      (λ _ e. Published copied_db e 0 (5 ∷ []))
      (txn_commit (obliging 10) (blocks (obliging 10) 1) copied_db)
unfolding program
txn_commit-Published_example =
    txn_commit-Published (obliging 10) (blocks (obliging 10) 1) copied_db copied_txn 0 refl refl
      refl refl copied_objects (omega arith) copied_list
      (own-IsWritable (obliging 10) 0 copied_db copied_state (omega arith) (omega arith))
      (omega arith, omega arith, tt) (omega arith)

copied_keeps : KeepsObjects (table_of copied_db.txn)
copied_keeps b s b0 b2 h = omega (arith, copied_only b s b0 b2 h)

txn_commit-Reach_example :
    Returns
      (λ _ e.
        Durable OnlyFive list_mem copied_db e 0 (5 ∷ [])
        × IsStored (After OnlyFive (table_of copied_db.txn)) e 1)
      (txn_commit (obliging 10) (blocks (obliging 10) 1) copied_db)
unfolding program
txn_commit-Reach_example =
    txn_commit-Reach OnlyFive (obliging 10) in_place 0 1 0 committed_db (begun committed_db)
      copied_db stored refl copied_steps refl copied_keeps copied_list (omega arith)

abbrev committed_again : Db
committed_again = state_after (txn_commit (obliging 10) (blocks (obliging 10) 1) copied_db)

commit_runs : txn_commit (obliging 10) (blocks (obliging 10) 1) copied_db ≡ ok tt committed_again
unfolding program
commit_runs = refl

History-IsStored_example :
    (n : ℕ) × IsStored (After OnlyFive (table_of copied_db.txn)) committed_again n
unfolding program
History-IsStored_example =
    History-IsStored (obliging 10) 0 1 OnlyFive committed_db (obliging-IsReliable 10) stored
      (After OnlyFive (table_of copied_db.txn)) committed_again
      (commits (begun committed_db) copied_db committed_again 0 start refl copied_steps refl
        copied_keeps copied_list (omega arith) commit_runs)
