-- ===== src/Txn/Durable.antt =====
-- A transaction from its begin over any number of steps to its commit.
use mathlib.Core.Path.{subst}
use everdb_native.Base.{
  ap, ℕ, zero, suc, ◌+◌, ◌*◌, ◌^◌, ◌≤◌, ◌<◌, ◌≡◌, ◌≢◌, ◌∙◌, inl, inr, refl, some, List, arith,
  length, sym, Option-cases,
}
use everdb_native.Memory.{Mem}
use everdb_native.MemHash.{Item, MemHash, entry_at}
use everdb_native.MemHash.Spread.{IsSmallSize-bounds}
use everdb_native.MemHash.Map.{mem_hash_get-Holds}
use everdb_native.Core.{Db, TxnState, Blocks, IsWritable, user_data, objlist_block}
use everdb_native.Core.Words.{Inside, block_addr_small}
use everdb_native.Io.{Os}
use everdb_native.Array.{small_bytes}
use everdb_native.Array.Small.{IsSmall}
use everdb_native.Txn.{blocks}
use everdb_native.Txn.Begin.{txn_begin}
use everdb_native.Txn.Commit.{txn_commit}
use everdb_native.Txn.Cycle.{begun, txn_begin-idle}
use everdb_native.Txn.Isolation.{
  table_of, IsCommitted, IsState, IsSound, Isolated, spare-IsWritable,
}
use everdb_native.Txn.Step.{Reach}
use everdb_native.Txn.Invariant.{state_of, Reach-Isolated}
use mathlib.Core.List.{Memᴰ}
use everdb_native.Freelist.View.{stack, push_all, IsUnique}
use everdb_native.Txn.Store.{IsStored, begun-Isolated}
use everdb_native.Txn.Partition.{After, KeepsObjects, Released-live, pushed-IsUser, pushed-IsUnique}
use everdb_native.Txn.Release.{released_by, released, AreUser}
use everdb_native.Txn.Publish.{released_blocks, Published, txn_commit-Published}
use everdb_native.Run.{ok}
use everdb_native.Run.Returns
use everdb_native.Run.Returns.{Returns}

released_by_user :
    (e : Item) (b : ℕ)
    → (e.k ≢ 0 → e.k ≢ 2 → (user_data ≤ e.k) × (e.k < 2 ^ 20) × IsState e.v)
    → (e.k ≢ 0 → e.k ≢ 2 → e.v ≢ objlist_block)
    → released_by e ≡ some b
    → (user_data ≤ b) × (b < 2 ^ 32)
released_by_user e b sound objects is = ground arith

-- A sound table releases user blocks only.
IsSound-AreUser :
    (t : MemHash) (r i : ℕ)
    → IsSound t
    → KeepsObjects t
    → i + r ≡ t.capacity
    → AreUser (released t r i)
IsSound-AreUser t zero i sound objects at = tt
IsSound-AreUser t (suc r) i sound objects at =
    let e = entry_at t i in
    let rest = IsSound-AreUser t r (i + 1) sound objects (omega arith) in
    elim (Option-cases (released_by e)) [
      | inl nothing ↦ rw nothing rest
      | inr (b, one) ↦
          let (user, word) =
            released_by_user e b (λ k0 k2. sound e.k e.v k0 k2 (i, omega arith, refl, refl))
              (λ k0 k2. objects e.k e.v k0 k2 (i, omega arith, refl, refl)) one in
          rw one (user, word, rest)
    ]

-- The commit has succeeded, and the committed blocks other than the root of the free list still have their
-- contents.
pub record Durable (Live : ℕ → Type 0) (m₀ : Mem) (db db' : Db) (k : ℕ) (bs : List ℕ) : Type 0 where
  pub published : Published db db' k bs
  pub old : (b p : ℕ) → Live b → b ≢ 1 → Inside b p → db'.mem p ≡ m₀ p

-- The current transaction.
abbrev pub txn_of : ℕ → Db → TxnState
txn_of n₀ db = record { nblocks = n₀; blocks = table_of db.txn }

module _ (os : Os) (d : ℕ) (Live : ℕ → Type 0) (m₀ : Mem) (n₀ : ℕ) (committed : IsCommitted Live)
    (db : Db) (i : Isolated Live m₀ n₀ db) (at_home : db.objlist ≡ objlist_block)
    (objects : KeepsObjects (table_of db.txn)) where
  txn_commit-Durable :
      (i.n + length (released_blocks (txn_of n₀ db))) * 4 ≤ small_bytes
      → Returns
          (λ _ db'. Durable Live m₀ db db' i.n (released_blocks (txn_of n₀ db)))
          (txn_commit os (blocks os (suc d)) db)
  txn_commit-Durable room =
      let t = txn_of n₀ db in
      let bounds = IsSmallSize-bounds i.valid.size in
      Returns.mono
        (txn_commit-Published os (blocks os (suc d)) db t i.n i.current i.root at_home
          (mem_hash_get-Holds t.blocks 2 1 i.valid.placed (omega arith) i.spare)
          (λ s lt three. absurd (
            omega (
              arith,
              i.sound (entry_at t.blocks s).k (entry_at t.blocks s).v (omega arith) (omega arith)
                  (s, lt, refl, refl),
            )))
          (omega (arith, bounds)) (rw i.root at i.list)
          (subst (λ x. IsWritable (blocks os (suc d)) db x) i.root
            (spare-IsWritable Live m₀ n₀ committed db i os d))
          (IsSound-AreUser t.blocks t.blocks.capacity 0 i.sound objects (omega arith)) room)
        λ _ db' p. record {
          published = p;
          old = λ b q live other inside.
              let a = block_addr_small b (committed b live).0 in
              p.kept q (omega (arith, (committed b live).1)) ∙ i.kept b q live inside;
        }

  -- What the commit leaves is stored, with the live blocks that the transaction has made.
  Published-IsStored :
      (e : Db)
      → Live 1 × Live 3
      → Published db e i.n (released_blocks (txn_of n₀ db))
      → IsStored (After Live (table_of db.txn)) e (i.n + length (released_blocks (txn_of n₀ db)))
  Published-IsStored e roots p =
      let t = table_of db.txn in
      let s = stack db.mem db.freelist i.n in
      let items : stack e.mem 1 (i.n + length (released_blocks (txn_of n₀ db)))
          ≡ push_all (released_blocks (txn_of n₀ db)) s =
        p.items
        ∙ ap (λ (x : ℕ). push_all (released_blocks (txn_of n₀ db)) (stack db.mem x i.n))
            (sym i.root) in
      let root : (b : ℕ) → Live b → b < user_data → After Live t b = λ b live low. inl (
        live,
        λ gone.
            absurd (
              omega (arith, (Released-live Live s t i.valid i.sound i.exclusive objects b gone).1)),
      ) in
      record {
        idle = p.idle;
        committed = λ b a. elim a [
          | inl (live, _) ↦ committed b live
          | inr (v, b0, b2, v0, vf, h) ↦ ((i.owned b v b0 v0 vf h).0, b2)
        ];
        roots = (root 1 roots.0 (omega arith), root 3 roots.1 (omega arith));
        list = p.list;
        user = λ b m.
            pushed-IsUser Live s t i.valid i.sound i.exclusive objects
              (λ c (v, c0, c2, v0, vf, h) live. (i.owned c v c0 v0 vf h).1 live) b
              (subst (Memᴰ b) items m);
        unique =
            subst IsUnique (sym items)
              (pushed-IsUnique Live s t i.valid i.sound i.exclusive objects);
      }

-- A transaction is atomic up to its commit. Let the database be stored (no transaction is open, the free list
-- fits its root block and has user blocks, none live and none twice). After `txn_begin` and any number of
-- steps of Txn.Step (copies, changes, writes, releases and allocations that succeed on a table of at most 315 keys
-- with low hashes and a free list in one block, the file growing to fewer than 2 ^ 20 blocks where the list is empty, and writes
-- of the field `objlist`), if the object list's root has not
-- been copied and `objlist` names it, and if the free list and the blocks that the table releases fit one block, then `txn_commit`
-- succeeds. No transaction is open then; the free list has the released blocks pushed on it; the blocks but
-- 1 and 2 have the contents that the steps gave them; the blocks but 1 that were live have the contents that
-- they had before; and the database is stored, where the live blocks are now those that were live and
-- are not released, and the transaction's own.
pub txn_commit-Reach :
    (Live : ℕ → Type 0) (os : Os) (B : Blocks) (d n k : ℕ) (db db₁ db₂ : Db)
    → IsStored Live db n
    → txn_begin os B db ≡ ok tt db₁
    → Reach os d Live db₁ db₂
    → db₂.objlist ≡ objlist_block
    → KeepsObjects (table_of db₂.txn)
    → IsSmall db₂.mem 2 4 k
    → (k + length (released_blocks (txn_of db.nblocks db₂))) * 4 ≤ small_bytes
    → Returns
        (λ _ e.
          Durable Live db.mem db₂ e k (released_blocks (txn_of db.nblocks db₂))
          × IsStored
              (After Live (table_of db₂.txn))
              e
              (k + length (released_blocks (txn_of db.nblocks db₂))))
        (txn_commit os (blocks os (suc d)) db₂)
txn_commit-Reach Live os B d n k db db₁ db₂ is start steps at_home objects end_list room =
    let at : begun db ≡ db₁ = state_of (sym (txn_begin-idle os B db is.idle) ∙ start) in
    let i =
      Reach-Isolated os d Live db.mem db.nblocks is.committed (begun db) db₂
        (begun-Isolated Live db n is) (subst (λ x. Reach os d Live x db₂) (sym at) steps) in
    let size : i.n ≡ k =
      sym (subst (λ x. IsSmall db₂.mem x 4 i.n) i.root i.list).length ∙ end_list.length in
    let bs = released_blocks (txn_of db.nblocks db₂) in
    subst
      (λ x.
        Returns
          (λ _ e.
            Durable Live db.mem db₂ e x bs
            × IsStored (After Live (table_of db₂.txn)) e (x + length bs))
          (txn_commit os (blocks os (suc d)) db₂))
      size
      (Returns.mono
        (txn_commit-Durable os d Live db.mem db.nblocks is.committed db₂ i at_home objects
          (omega (arith, size, room)))
        λ _ e durable. (
          durable,
          Published-IsStored os d Live db.mem db.nblocks is.committed db₂ i at_home objects e
              is.roots durable.published,
        ))
