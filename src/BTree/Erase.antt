-- ===== src/BTree/Erase.antt =====
-- `btree_pop` on a leaf, as the erasure of a key from a finite map.
use everdb_native.Base.{
  none, ℕ, suc, ◌+◌, ◌-◌, ◌^◌, ◌<◌, ◌≡◌, ◌≢◌, ◌∙◌, inl, inr, true, false, arith, ltb, ◌==◌,
  if◌then◌else◌, refl,
}
use everdb_native.Memory.{Mem}
use everdb_native.Core.Words.{OnlyBlock}
use everdb_native.BTree.Nodes.{remove_entry-OnlyBlock}
use everdb_native.Core.{Db, OnlyMem, Blocks}
use everdb_native.BTree.{
  key, datum, magic, magic_leaf, self_size, list_find, list_remove, remove_entry, err_empty,
  btree_split,
}
use everdb_native.BTree.Find.{list_find-IsLowerBound}
use everdb_native.BTree.Lists.{Removed, remove_entry-Removed, Removed-IsSorted}
use everdb_native.BTree.Pop.{popped, leaf_pop, btree_pop}
use everdb_native.Run.Returns.{Returns, returns}
use everdb_native.BTree.Leaf.{IsLeaf, Entry}
use everdb_native.BTree.Graft.{Put}
use everdb_native.BTree.Tree.{IsTree}

-- `m'` has the leaf of `m` without the key `k`.
pub record Erased (m m' : Mem) (root k : ℕ) : Type 0 where
  pub is_leaf : IsLeaf m' root
  pub size : self_size m' root + 1 ≡ self_size m root
  pub gone : (w : ℕ) → ¬ Entry m' root k w
  pub kept : (q w : ℕ) → q ≢ k → Entry m root q w → Entry m' root q w
  pub only : (q w : ℕ) → Entry m' root q w → Entry m root q w
  pub others : OnlyBlock root m m'

remove-Erased :
    (m m' : Mem) (root b k : ℕ)
    → IsLeaf m root
    → b < self_size m root
    → key m root b ≡ k
    → Removed m m' root b
    → OnlyBlock root m m'
    → Erased m m' root k
remove-Erased m m' root b k is lt at t only = record {
  is_leaf = record {
    node = record {
      fits = omega (arith, t.size, is.node.fits);
      sorted = Removed-IsSorted t is.node.sorted;
    };
    leaf = t.magic_kept ∙ is.leaf;
  };
  size = t.size;
  gone = λ w (i, il, ki, di).
      ground (arith, t.size, t.before i, t.after i, is.node.sorted i b, is.node.sorted b (i + 1));
  kept = λ q w ne (i, il, ki, di). (
    if ltb i b then i else i - 1,
    ground (arith, t.size),
    ground (arith, t.before i, t.after (i - 1)),
    ground (arith, t.before i, t.after (i - 1)),
  );
  only = λ q w (i, il, ki, di). (
    if ltb i b then i else i + 1,
    ground (arith, t.size),
    ground (arith, t.size, t.before i, t.after i),
    ground (arith, t.size, t.before i, t.after i),
  );
  others = only;
}

module _ (B : Blocks) (d : ℕ) (db : Db) (root k : ℕ) (is : IsLeaf db.mem root) where
  btree_pop-leaf : btree_pop B (suc d) root k db ≡ leaf_pop root (list_find db.mem root k) k db
  unfolding btree_pop
  btree_pop-leaf = rw is.leaf

  -- `btree_pop` of a key that a well-formed leaf has gives its value, with EDB_ERROR_BTREE_EMPTY exactly if
  -- fewer than EDB_BTREE_SPLIT entries are left, and takes the key and no other out of the leaf;
  -- nothing changes outside of the block.
  pub btree_pop-Erased :
      (v : ℕ)
      → Entry db.mem root k v
      → Returns
          (λ r db'.
            OnlyMem db db'
            × (r ≡ popped (if ltb (self_size db'.mem root) btree_split then err_empty else 0) v)
            × Erased db.mem db'.mem root k)
          (btree_pop B (suc d) root k db)
  unfolding leaf_pop list_remove
  btree_pop-Erased v (i, il, ki, di) =
      let m = db.mem in
      let b = list_find m root k in
      let lb = list_find-IsLowerBound m root k is.node.sorted in
      let same : b ≡ i =
        ground (arith, lb.below i, lb.above b, lb.within, is.node.sorted b i, is.node.sorted i b) in
      let lt : b < self_size m root = omega arith in
      let at : key m root b ≡ k = rw same ki in
      let found : (key m root b == k) ≡ true = ground arith in
      let filled : (self_size m root == 0) ≡ false = ground arith in
      rw (btree_pop-leaf, found, filled)
        (returns (
          refl,
          rw same (rw di),
          remove-Erased m (remove_entry m root b) root b k is lt at
              (remove_entry-Removed m root b lt is.node.fits)
              (remove_entry-OnlyBlock root m b lt is.node.fits),
        ))

-- Seen as a tree of one level.
pub Erased-Put :
    (h : ℕ) (m m' : Mem) (root lo hi k : ℕ)
    → IsTree (suc h) m root lo hi
    → root < 2 ^ 20
    → magic m root ≡ magic_leaf
    → 127 < self_size m root
    → Erased m m' root k
    → Put (suc h) m m' root lo hi k none
Erased-Put h m m' root lo hi k (node, range, rest) small leaf spare u = record {
  tree = (
    u.is_leaf.node,
    λ i lt.
        (let (j, jl, kj, dj) = u.only (key m' root i) (datum m' root i) (i, lt, refl, refl) in
          omega (arith, range j jl)),
    inl u.is_leaf.leaf,
  );
  separate = (small, inl u.is_leaf.leaf);
  blocks = λ x.
      (λ e. elim e [ inl r ↦ inl r | inr (inner, q) ↦ absurd (omega (arith, u.is_leaf.leaf)) ]);
  filled = omega (arith, u.size);
  new = λ w e. absurd (ground arith);
  gone = λ e w. (λ q. elim q [
    | inl (_, entry) ↦ u.gone w entry
    | inr (inner, r) ↦ absurd (omega (arith, u.is_leaf.leaf))
  ]);
  kept = λ q w ne. (λ e. elim e [
    | inl (_, entry) ↦ inl (u.is_leaf.leaf, u.kept q w ne entry)
    | inr (inner, r) ↦ absurd (omega arith)
  ]);
  only = λ q w ne. (λ e. elim e [
    | inl (_, entry) ↦ inl (leaf, u.only q w entry)
    | inr (inner, r) ↦ absurd (omega (arith, u.is_leaf.leaf))
  ]);
}
