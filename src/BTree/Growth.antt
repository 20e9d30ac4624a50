-- ===== src/BTree/Growth.antt =====
-- `btree_grow` over an allocator: a tree of one more level with the same entries.
use everdb_native.Base.{ℕ, suc, ◌≤◌, ◌≡◌, ◌≢◌, ◌∙◌, inl, inr, refl, arith, sym, true}
use mathlib.Core.Path.{subst}
use everdb_native.Memory.{Mem}
use everdb_native.Core.{Db, Blocks}
use everdb_native.Core.Allocator.{Allocated, OnlyOwn, IsAllocator}
use everdb_native.BTree.{self_size, has_magic, btree_init}
use everdb_native.BTree.Nodes.{bytes-SameNode}
use everdb_native.BTree.Tree.{IsTree}
use everdb_native.BTree.Frame.{InTree, IsSeparate, SameTree, Framed, frame}
use everdb_native.BTree.Grown.{Grown}
use everdb_native.BTree.Halves.{halved, halved_outside, halved-Grown}
use everdb_native.BTree.Answer.{btree_get_same}
use everdb_native.BTree.Read.{btree_get}
use everdb_native.BTree.Write.{btree_grow}
use everdb_native.Run.Returns
use everdb_native.Run.Returns.{Returns, returns}

Grown-framed :
    (h : ℕ) (m₀ m m' : Mem) (root lo hi a c : ℕ)
    → Framed h m₀ m root lo hi
    → self_size m root ≡ self_size m₀ root
    → Grown h m m' root lo hi a c
    → Grown h m₀ m' root lo hi a c
Grown-framed h m₀ m m' root lo hi a c f same g = record {
  tree = g.tree;
  separate = g.separate;
  inner = g.inner;
  size = g.size;
  smaller = λ i lt. rw⁻¹ same (g.smaller i lt);
  blocks = λ y e. elim (g.blocks y e) [
    | inl r ↦ inl r
    | inr s ↦ elim s [ inl r ↦ inr (inl r) | inr r ↦ inr (inr (f.blocks y r)) ]
  ];
  member = λ k v e. g.member k v (f.member k v e);
  member_back = λ k v e. f.member_back k v (g.member_back k v e);
}

module _ (Own : Db → ℕ → Type 0) (Ready : ℕ → Db → Type 0) (B : Blocks)
    (allocator : IsAllocator Own Ready B) (n h : ℕ) (db : Db) (root lo hi : ℕ)
    (t : IsTree (suc h) db.mem root lo hi) (s : IsSeparate (suc h) db.mem root)
    (two : 2 ≤ self_size db.mem root)
    (own : (y : ℕ) → InTree (suc h) db.mem root y → Own db y) where
  -- What `btree_grow` promises: the new root is `a`.
  abbrev pub Grows : ℕ → Db → Type 0
  Grows a db' =
      ((c : ℕ) × Grown (suc h) db.mem db'.mem root lo hi a c)
      × Ready n db'
      × ((y : ℕ) → InTree (suc (suc h)) db'.mem a y → Own db' y)

  -- The root itself has a magic word, so that the call `btree_grow(db, root, &root)` passes the first check.
  pub root_magic : has_magic db.mem root ≡ true
  root_magic = elim t.2 [ inl leaf ↦ ground arith | inr (inner, _) ↦ ground arith ]

  -- Both blocks have been allocated.
  module _ (a c : ℕ) (d₁ d₂ : Db) (x : Allocated Own Ready (suc n) db a d₁)
      (y : Allocated Own Ready n d₁ c d₂) where
    same_tree : SameTree (suc h) db.mem d₂.mem root
    same_tree z e =
        bytes-SameNode db.mem d₂.mem z
          λ p inside. y.same z p (x.kept z (own z e)) inside ∙ x.same z p (own z e) inside

    framed : Framed (suc h) db.mem d₂.mem root lo hi
    framed = frame (suc h) db.mem d₂.mem root lo hi t same_tree

    own₂ : (z : ℕ) → InTree (suc h) d₂.mem root z → Own db z
    own₂ z e = own z (framed.blocks z e)

    ac : a ≢ c
    ac e = y.fresh (subst (Own d₁) e x.new)

    new_root : ¬ InTree (suc h) d₂.mem root a
    new_root e = x.fresh (own₂ a e)

    new_child : ¬ InTree (suc h) d₂.mem root c
    new_child e = y.fresh (x.kept c (own₂ c e))

    two₂ : 2 ≤ self_size d₂.mem root
    two₂ = omega (arith, two, (same_tree root (inl refl)).size_same)

    abbrev grown_mem : Mem
    grown_mem =
        halved B h d₂.mem root lo hi a c framed.tree (framed.separate s) two₂ x.small y.small ac
          new_root new_child

    only : OnlyOwn Own d₂ grown_mem
    only p out =
        halved_outside B h d₂.mem root lo hi a c framed.tree (framed.separate s) two₂ x.small
          y.small ac new_root new_child p
          (out root (y.kept root (x.kept root (own root (inl refl))))) (out c y.new)
          (out a (y.kept a x.new))

    grown-Grows : Grows a (record d₂ { mem = grown_mem })
    grown-Grows =
        let g =
          halved-Grown B h d₂.mem root lo hi a c framed.tree (framed.separate s) two₂ x.small
            y.small ac new_root new_child in
        (
          (
            c,
            Grown-framed (suc h) db.mem d₂.mem grown_mem root lo hi a c framed
                (same_tree root (inl refl)).size_same g,
          ),
          allocator.write_ready n d₂ grown_mem y.ready only,
          λ z e. allocator.write_own d₂ grown_mem z only (elim (g.blocks z e) [
            | inl r ↦ subst (Own d₂) (sym r) (y.kept a x.new)
            | inr q ↦ elim q [
              | inl r ↦ subst (Own d₂) (sym r) y.new
              | inr r ↦ y.kept z (x.kept z (own₂ z r))
            ]
          ]),
        )

  -- Over an allocator, and in a well-formed tree of at most `suc h` levels, none of whose blocks occurs twice,
  -- whose root has two entries or more and whose blocks are the transaction's own, `btree_grow` of the root succeeds
  -- where two blocks can be allocated and the block that `*new_root` names before the call has the magic word of a
  -- leaf or of a node. Its new root is that of a well-formed tree with one more
  -- level and two children, none of whose blocks occurs twice, whose blocks are the transaction's own, and
  -- whose entries are those of the old tree.
  pub btree_grow-Grows :
      (new_root : ℕ)
      → has_magic db.mem new_root ≡ true
      → Ready (suc (suc n)) db
      → Returns Grows (btree_grow B root new_root db)
  unfolding btree_grow btree_init
  btree_grow-Grows new_root valid ready =
      rw (valid, allocator.writable (suc (suc n)) db root ready (own root (inl refl)) db refl)
        (Returns.bind (allocator.allocate (suc n) db ready) λ a d₁ x.
          Returns.bind (allocator.allocate n d₁ x.ready)
            λ c d₂ y. returns (grown-Grows a c d₁ d₂ x y))

  -- Under the conditions of `btree_grow-Grows` (over an allocator, a well-formed tree of at most `suc h` levels,
  -- no block twice, a root with two entries or more, blocks that are the transaction's own, two
  -- blocks that can be allocated, and the magic word of a leaf or of a node in the block that `*new_root` names
  -- before the call), `btree_grow` of the root succeeds, and `btree_get` at the new root
  -- gives for every key what it gave at the old one.
  pub btree_get-btree_grow :
      (new_root : ℕ)
      → has_magic db.mem new_root ≡ true
      → Ready (suc (suc n)) db
      → Returns
          (λ a db'. (k : ℕ) → btree_get (suc (suc h)) db'.mem a k ≡ btree_get (suc h) db.mem root k)
          (btree_grow B root new_root db)
  btree_get-btree_grow new_root valid ready =
      Returns.mono (btree_grow-Grows new_root valid ready) λ a db' ((c, g), _, _).
        btree_get_same (suc h) (suc (suc h)) db.mem db'.mem root a lo hi lo hi t g.tree g.member
          g.member_back
