-- ===== src/BTree/Refill.antt =====
-- A full leaf: `btree_grow`, and then the `btree_set` that was refused.
use everdb_native.Base.{ℕ, suc, ◌^◌, ◌≤◌, ◌<◌, ◌≡◌, ◌≢◌, ◌∙◌, inl, inr, true, arith, sym}
use mathlib.Core.Path.{subst}
use everdb_native.Memory.{Mem}
use everdb_native.Core.{Db, Blocks}
use everdb_native.Core.Allocator.{IsAllocator}
use everdb_native.BTree.{magic, magic_leaf, self_size, has_magic}
use everdb_native.BTree.Tree.{IsTree}
use everdb_native.BTree.Frame.{InTree}
use everdb_native.BTree.Child.{HasRoom}
use everdb_native.BTree.Grown.{Grown}
use everdb_native.BTree.Growth.{btree_grow-Grows}
use everdb_native.BTree.Answer.{btree_get_same}
use everdb_native.BTree.Insert.{btree_get-btree_set}
use everdb_native.BTree.Read.{hit, btree_get}
use everdb_native.BTree.Write.{btree_grow, btree_set}
use everdb_native.Run.{◌>>=◌, pure}
use everdb_native.Run.Returns
use everdb_native.Run.Returns.{Returns, returns}

-- The halves of a leaf have room.
Grown-HasRoom :
    (m m' : Mem) (root lo hi a c : ℕ)
    → self_size m root ≤ 510
    → Grown 1 m m' root lo hi a c
    → HasRoom 2 m' a
Grown-HasRoom m m' root lo hi a c fits g x (inl r) leaf =
    absurd (omega (arith, g.inner, subst (λ y. magic m' y ≡ magic_leaf) r leaf))
Grown-HasRoom m m' root lo hi a c fits g x (inr (_, (i, lt, inl r))) leaf =
    rw r (omega (arith, g.smaller i (omega (arith, g.size))))
Grown-HasRoom m m' root lo hi a c fits g x (inr (_, (i, lt, inr (_, (j, jl, e))))) leaf = absurd e

-- Over an allocator, for a well-formed leaf with two entries or more, a full one included, that is the
-- transaction's own block, where two blocks can be allocated and the block that `*new_root` names before the call
-- has the magic word of a leaf or of a node, and for a u32 key within the leaf's bounds and a
-- u32 value: `btree_grow`, followed by `btree_set` at the new root, succeeds. Then `btree_get` at the new root
-- gives the new value for its key, and for every other key what it gave at the leaf.
pub btree_get-btree_set-btree_grow :
    (Own : Db → ℕ → Type 0) (Ready : ℕ → Db → Type 0) (B : Blocks)
    (allocator : IsAllocator Own Ready B) (n : ℕ) (db : Db) (root new_root lo hi k v : ℕ)
    → has_magic db.mem new_root ≡ true
    → IsTree 1 db.mem root lo hi
    → root < 2 ^ 20
    → magic db.mem root ≡ magic_leaf
    → 2 ≤ self_size db.mem root
    → Own db root
    → Ready (suc (suc n)) db
    → lo ≤ k
    → k ≤ hi
    → k < 2 ^ 32
    → v < 2 ^ 32
    → Returns
        (λ a db'.
          (btree_get 2 db'.mem a k ≡ hit k v)
          × ((q : ℕ) → q ≢ k → btree_get 2 db'.mem a q ≡ btree_get 1 db.mem root q))
        ((btree_grow B root new_root >>= λ a. btree_set B 2 a k v >>= λ _. pure a) db)
btree_get-btree_set-btree_grow Own Ready B allocator n db root new_root lo hi k v valid t small leaf
      two own ready kl kh hk hv =
    let owns : (y : ℕ) → InTree 1 db.mem root y → Own db y = λ y e. elim e [
      | inl r ↦ subst (Own db) (sym r) own
      | inr (inner, q) ↦ absurd (omega arith)
    ] in
    Returns.bind
      (btree_grow-Grows Own Ready B allocator n 0 db root lo hi t (small, inl leaf) two owns
        new_root valid ready)
      λ a d ((c, g), room, mine).
        Returns.bind
          (btree_get-btree_set B 2 d a lo hi k v g.tree g.separate
            (Grown-HasRoom db.mem d.mem root lo hi a c t.0.fits g)
            (λ x e. allocator.writable n d x room (mine x e)) kl kh hk hv)
          λ _ db' (new, others). returns (
            new,
            λ q ne.
                others q ne
                ∙ btree_get_same 1 2 db.mem d.mem root a lo hi lo hi t g.tree g.member g.member_back
                    q,
          )
