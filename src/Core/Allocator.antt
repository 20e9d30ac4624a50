-- ===== src/Core/Allocator.antt =====
-- What a data structure needs of `edb_allocate_block` and `edb_modify_block`: an interface that the
-- transactions fill. `Own db b` says that the block `b` is the transaction's own, `Ready n db` that `n`
-- more blocks can be allocated.
use everdb_native.Base.{ℕ, suc, ◌^◌, ◌<◌, ◌≡◌}
use everdb_native.Memory.{Mem}
use everdb_native.Core.{Db, Blocks, IsWritable}
use everdb_native.Core.Words.{Inside}
use everdb_native.Run.Returns.{Returns}

-- Only blocks of the transaction's own are written to.
abbrev pub OnlyOwn : (Own : Db → ℕ → Type 0) → Db → Mem → Type 0
OnlyOwn Own db m = (p : ℕ) → ((b : ℕ) → Own db b → ¬ Inside b p) → m p ≡ db.mem p

module _ (Own : Db → ℕ → Type 0) (Ready : ℕ → Db → Type 0) where
  -- The block `c` is a new one, and the blocks that were the transaction's own are so, with their bytes.
  pub record Allocated (n : ℕ) (db : Db) (c : ℕ) (db' : Db) : Type 0 where
    pub ready : Ready n db'
    pub small : c < 2 ^ 20
    pub fresh : ¬ Own db c
    pub new : Own db' c
    pub kept : (b : ℕ) → Own db b → Own db' b
    pub same : (b p : ℕ) → Own db b → Inside b p → db'.mem p ≡ db.mem p

  pub record IsAllocator (B : Blocks) : Type 0 where
    pub writable : (n : ℕ) (db : Db) (b : ℕ) → Ready n db → Own db b → IsWritable B db b
    pub allocate : (n : ℕ) (db : Db) → Ready (suc n) db → Returns (Allocated n db) (B.allocate db)
    pub write_ready :
        (n : ℕ) (db : Db) (m : Mem)
        → Ready n db
        → OnlyOwn Own db m
        → Ready n (record db { mem = m })
    pub write_own :
        (db : Db) (m : Mem) (b : ℕ) → OnlyOwn Own db m → Own db b → Own (record db { mem = m }) b
