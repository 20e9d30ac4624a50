-- ===== src/Edb/Life.antt =====
-- A database from its creation over any number of transactions.
use everdb_native.Base.{ℕ, ◌≡◌, ◌⊎◌, inl, inr, refl, some, List, arith}
use everdb_native.Memory.{Mem}
use everdb_native.Core.{Db}
use everdb_native.Io.{Os}
use everdb_native.Io.Resize.{IsReliable}
use everdb_native.Edb.{edb_open}
use everdb_native.Edb.Create.{Created, edb_open-Created}
use everdb_native.Txn.Isolation.{Returns-of, ok_of}
use everdb_native.Txn.Store.{IsStored}
use everdb_native.Txn.History.{History, History-IsStored}
use everdb_native.Run.{ok}

-- The blocks of a new database that are in use besides the master block and the spare block.
abbrev pub IsRoot : ℕ → Type 0
IsRoot b = (b ≡ 1) ⊎ (b ≡ 3)

Created-IsStored : (db : Db) → Created db → IsStored IsRoot db 0
Created-IsStored db c = record {
  idle = record { none_open = c.no_txn; primary = c.roots.0; objects = c.roots.1 };
  committed = λ b root. omega arith;
  roots = (inl refl, inr refl);
  list = c.free_blocks;
  user = λ b m. elim m [ ];
  unique = tt;
}

-- On a reliable system, a database that `edb_open` with `overwrite` has created, for which `open` has emptied
-- the file, is stored after any number of transactions. Each takes steps of Txn.Step (calls that succeed on a
-- table of at most 315 keys with low hashes and a free list in one block, the file growing where the list is
-- empty, as it is at first, and writes), and is committed where the object list's root has not been copied and the
-- free list then fits one block, or aborted where the file had fewer than 2 ^ 20 blocks, all live ones among
-- them. Stored means that no transaction is open, and the free list has user blocks only, none of them live and
-- none twice.
pub edb_open-IsStored :
    (os : Os) (d : ℕ) (fname : List ℕ) (db₀ db₁ db : Db) (fd : ℕ) (contents : Mem)
    (Live : ℕ → Type 0)
    → IsReliable os
    → os.open_file fname 0 1 ≡ some (record { fd = fd; size = some 0; contents = contents })
    → edb_open os fname 0 1 db₀ ≡ ok tt db₁
    → History os d IsRoot db₁ Live db
    → (n : ℕ) × IsStored Live db n
edb_open-IsStored os d fname db₀ db₁ db fd contents Live reliable file opens history =
    let created =
      ok_of (Returns-of (edb_open-Created os reliable fname db₀ fd contents file) opens) in
    History-IsStored os d 0 IsRoot db₁ reliable (Created-IsStored db₁ created) Live db history
