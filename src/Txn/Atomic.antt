-- ===== src/Txn/Atomic.antt =====
-- A transaction from its begin over any number of steps to its abort.
use mathlib.Core.Path.{subst}
use mathlib.Core.List.{Memᴰ}
use everdb_native.Freelist.View.{stack_same, IsUnique}
use everdb_native.Core.Words.{block_addr_small}
use everdb_native.Txn.Store.{IsStored, begun-Isolated}
use everdb_native.Base.{ℕ, ◌+◌, ◌^◌, ◌<◌, ◌≡◌, ◌∙◌, arith, sym}
use everdb_native.Core.{Db, Blocks, block_addr}
use everdb_native.Io.{Os}
use everdb_native.Io.Resize.{IsReliable}
use everdb_native.Array.Moved.{SameBytes, IsSmall-moved, item_moved}
use everdb_native.Txn.Begin.{txn_begin}
use everdb_native.Txn.Abort.{txn_abort}
use everdb_native.Txn.Cycle.{begun, txn_begin-idle}
use everdb_native.Txn.Step.{Reach}
use everdb_native.Txn.Invariant.{state_of}
use everdb_native.Txn.Restore.{Restored, txn_abort-Restored}
use everdb_native.Run.{ok}
use everdb_native.Run.Returns
use everdb_native.Run.Returns.{Returns}

-- With the contents of its live blocks, the root of the free list among them, the database is stored.
Restored-IsStored :
    (Live : ℕ → Type 0) (db e : Db) (n : ℕ)
    → IsStored Live db n
    → Restored Live db.mem db.nblocks e
    → IsStored Live e n
Restored-IsStored Live db e n is r =
    let root = block_addr_small 1 (omega arith) in
    let moved : SameBytes db.mem e.mem 1 1 =
      λ o lt. r.contents 1 (block_addr 1 + o) is.roots.0 (omega arith, omega arith) in
    let same = stack_same db.mem e.mem 1 1 n (item_moved db.mem e.mem 1 1 4 n moved is.list) in
    record {
      idle = r.idle;
      committed = is.committed;
      roots = is.roots;
      list = IsSmall-moved db.mem e.mem 1 1 4 n moved is.list;
      user = λ b m. is.user b (subst (Memᴰ b) same m);
      unique = subst IsUnique (sym same) is.unique;
    }

-- A transaction is atomic up to its abort. On a reliable system and a file of at least one and fewer than
-- 2 ^ 20 blocks, let the database be stored (no transaction is open, the free list fits its root block and
-- has user blocks, none live and none twice) and its live blocks be below the file's size. After
-- `txn_begin` and any number of steps of Txn.Step (copies of user blocks and of the object list's root, changes, writes,
-- releases of blocks and of copies, and allocations that succeed on a table of at most 315 keys with low hashes and a
-- free list in one block, the file growing to fewer than 2 ^ 20 blocks where the list is empty, and writes of the field `objlist`), `txn_abort`
-- succeeds: no transaction is open, the roots are those of the committed data, the file has its size, every live block has the contents that it had
-- before, and the database is stored with the same live blocks.
pub txn_abort-Reach :
    (Live : ℕ → Type 0) (os : Os) (B : Blocks) (d n : ℕ) (db db₁ db₂ : Db)
    → IsStored Live db n
    → IsReliable os
    → 0 < db.nblocks
    → db.nblocks < 2 ^ 20
    → ((b : ℕ) → Live b → b < db.nblocks)
    → txn_begin os B db ≡ ok tt db₁
    → Reach os d Live db₁ db₂
    → Returns (λ _ e. Restored Live db.mem db.nblocks e × IsStored Live e n) (txn_abort os B db₂)
txn_abort-Reach Live os B d n db db₁ db₂ is reliable some_blocks small below start steps =
    let at : begun db ≡ db₁ = state_of (sym (txn_begin-idle os B db is.idle) ∙ start) in
    Returns.mono
      (txn_abort-Restored os d Live db.mem db.nblocks is.committed B (begun db) db₂ reliable
        some_blocks small below (begun-Isolated Live db n is)
        (subst (λ x. Reach os d Live x db₂) (sym at) steps))
      λ _ e r. (r, Restored-IsStored Live db e n is r)
