-- ===== src/Txn/Own.antt =====
-- A transaction's own blocks: writes to them, and one more of them, keep the committed data.
use mathlib.Core.Path.{subst}
use everdb_native.Base.{ℕ, suc, ◌+◌, ◌≡◌, ◌∙◌, refl, [], ◌∷◌, inl, inr, arith, sym}
use everdb_native.Memory.{Mem, bytes_u32}
use everdb_native.MemHash.{MemHash}
use everdb_native.MemHash.Grow.{Written}
use everdb_native.Freelist.View.{stack_same, stack_popped}
use everdb_native.Core.{Db, block_addr}
use everdb_native.Core.Words.{Apart, ne-Apart}
use everdb_native.Core.Allocator.{OnlyOwn}
use everdb_native.Array.Small.{IsSmall, item_at}
use everdb_native.Array.Stack.{Shortened}
use everdb_native.Array.Moved.{SameBytes, IsSmall-moved, item_moved}
use everdb_native.Txn.{allocated}
use everdb_native.Txn.Exclusive.{IsExclusive, takes}
use everdb_native.Txn.Isolation.{table_of, IsCommitted, Isolated, extend, live-Apart, live_root}
use everdb_native.Txn.Partition.{Owns}

-- The transaction of `db` owns the block.
abbrev pub OwnBlock : Db → ℕ → Type 0
OwnBlock db b = Owns (table_of db.txn) b

module _ (Live : ℕ → Type 0) (m₀ : Mem) (n₀ : ℕ) (committed : IsCommitted Live) (db : Db)
    (i : Isolated Live m₀ n₀ db) where
  pub own_root : (b : ℕ) → OwnBlock db b → Apart b db.freelist
  own_root b (v, b0, b2, v0, vf, h) =
      subst (λ x. Apart b x) (sym i.root) (ne-Apart b 2 (i.owned b v b0 v0 vf h).0 (omega arith) b2)

  pub own_live : (b q : ℕ) → OwnBlock db b → Live q → Apart q b
  own_live b q (v, b0, b2, v0, vf, h) live =
      let (small, dead) = i.owned b v b0 v0 vf h in
      live-Apart Live m₀ n₀ committed db i q b live small dead

  -- Writes to the transaction's own blocks.
  module _ (m : Mem) (only : OnlyOwn OwnBlock db m) where
    pub root_same : SameBytes db.mem m db.freelist db.freelist
    root_same o lt =
        only (block_addr db.freelist + o)
          λ b own inside. let a = own_root b own in omega (arith, a, inside)

    pub written-Isolated : Isolated Live m₀ n₀ (record db { mem = m })
    written-Isolated = record {
      current = i.current;
      root = i.root;
      sound = i.sound;
      valid = i.valid;
      spare = i.spare;
      n = i.n;
      list = IsSmall-moved db.mem m db.freelist db.freelist 4 i.n root_same i.list;
      exclusive =
          subst (λ x. IsExclusive Live x (table_of db.txn))
            (sym (
              stack_same db.mem m db.freelist db.freelist i.n
                (item_moved db.mem m db.freelist db.freelist 4 i.n root_same i.list)))
            i.exclusive;
      free = λ j lt.
          rw (item_moved db.mem m db.freelist db.freelist 4 i.n root_same i.list j lt)
            (i.free j lt);
      owned = i.owned;
      kept = λ q x live in_q.
          only x (λ b own inside. let a = own_live b q own live in omega (arith, a, in_q, inside))
          ∙ i.kept q x live in_q;
    }

  -- The last block of the free list becomes the transaction's own.
  pub taken-Isolated :
      (k : ℕ) (m : Mem) (table : MemHash)
      → IsSmall db.mem db.freelist 4 (suc k)
      → Written (table_of db.txn) table (bytes_u32 (item_at db.mem db.freelist 4 k)) allocated
      → Shortened db.mem m db.freelist 4 k
      → Isolated Live m₀ n₀
          (record db { mem = m; txn = record { nblocks = n₀; blocks = table } ∷ [] })
  taken-Isolated k m table list u rest =
      let size : i.n ≡ suc k = sym i.list.length ∙ list.length in
      let (user, small, dead) = i.free k (omega (arith, size)) in
      extend Live m₀ n₀ committed db i m table _ allocated k u user small (inr (inl refl))
        (λ s0 sf. (small, dead)) rest.small
        (takes (stack_popped db.mem m db.freelist i.n k size rest.before) (inl refl))
        (λ j lt. rw (rest.before j lt) (i.free j (omega (arith, size))))
        λ q p live inside.
          let a = live_root Live m₀ n₀ committed db i q live in
          rest.outside p (ground (arith, a, inside))
