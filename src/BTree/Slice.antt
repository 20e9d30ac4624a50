-- ===== src/BTree/Slice.antt =====
-- A node that has some of the entries of a tree's root, over the root's subtrees: it is a tree too.
use everdb_native.Base.{ℕ, suc, ◌+◌, ◌-◌, ◌^◌, ◌≤◌, ◌<◌, ◌≡◌, ◌∙◌, inl, inr, arith, sym}
use mathlib.Core.Path.{subst}
use everdb_native.Memory.{Mem}
use everdb_native.BTree.{key, datum, magic, magic_leaf, magic_node, self_size}
use everdb_native.BTree.Tree.{IsNode, IsTree, Member, least}
use everdb_native.BTree.Frame.{InTree, IsSeparate, SameTree, Framed, frame}
use everdb_native.BTree.Split.{Slice}

-- `first` and `len` are such that the slice has entries of the root only, and at least one.
module _ (h : ℕ) (m m' : Mem) (root lo hi x first len : ℕ) (node : IsNode m root)
    (range : (i : ℕ) → i < self_size m root → (lo ≤ key m root i) × (key m root i ≤ hi))
    (slice : Slice m m' root x first len) (fits : first + len ≤ self_size m root)
    (filled : 0 < len) where
  -- The entry of the root that entry `i` of the slice is.
  place : (i : ℕ) → i < self_size m' x → first + i < self_size m root
  place i lt = omega (arith, slice.size)

  slice-IsNode : IsNode m' x
  slice-IsNode = record {
    fits = omega (arith, slice.size, node.fits);
    sorted = λ i j ij jn.
        ground (arith, slice.size, slice.keys i, slice.keys j, node.sorted (first + i) (first + j));
  }

  slice-range :
      (i : ℕ)
      → i < self_size m' x
      → (least m root lo first ≤ key m' x i) × (key m' x i ≤ key m root (first + len - 1))
  slice-range i lt = ground (
    arith,
    slice.size,
    slice.keys i,
    range (first + i),
    node.sorted (first - 1) (first + i),
    node.sorted (first + i) (first + len - 1),
  )

  slice-least :
      (i : ℕ)
      → i < self_size m' x
      → least m' x (least m root lo first) i ≡ least m root lo (first + i)
  slice-least i lt = ground (arith, slice.size, slice.keys (i - 1))

  -- The slice of a leaf.
  module _ (leaf : magic m root ≡ magic_leaf) where
    pub leaf' : magic m' x ≡ magic_leaf
    leaf' = slice.magic_same ∙ leaf

    pub leaf_slice-IsTree :
        IsTree (suc h) m' x (least m root lo first) (key m root (first + len - 1))
    leaf_slice-IsTree = (slice-IsNode, slice-range, inl leaf')

  -- The slice of an internal node, whose subtrees are as they were.
  module _ (inner : magic m root ≡ magic_node)
      (children : (i : ℕ)
        → i < self_size m root
        → IsTree h m (datum m root i) (least m root lo i) (key m root i))
      (same : (i : ℕ) → i < self_size m root → SameTree h m m' (datum m root i)) where
    pub inner' : magic m' x ≡ magic_node
    inner' = slice.magic_same ∙ inner

    child :
        (i : ℕ)
        → i < self_size m root
        → Framed h m m' (datum m root i) (least m root lo i) (key m root i)
    child i lt =
        frame h m m' (datum m root i) (least m root lo i) (key m root i) (children i lt) (same i lt)

    datum_at : (i : ℕ) → i < self_size m' x → datum m' x i ≡ datum m root (first + i)
    datum_at i lt = slice.values i (omega (arith, slice.size))

    slice-child :
        (i : ℕ)
        → i < self_size m' x
        → IsTree h m' (datum m' x i) (least m' x (least m root lo first) i) (key m' x i)
    slice-child i lt =
        rw (datum_at i lt, slice-least i lt, slice.keys i (omega (arith, slice.size)))
          (child (first + i) (place i lt)).tree

    pub node_slice-IsTree :
        IsTree (suc h) m' x (least m root lo first) (key m root (first + len - 1))
    node_slice-IsTree = (slice-IsNode, slice-range, inr (inner', slice-child))

    pub slice-InTree :
        (i y : ℕ)
        → i < self_size m' x
        → InTree h m' (datum m' x i) y
        → InTree h m (datum m root (first + i)) y
    slice-InTree i y lt e =
        (child (first + i) (place i lt)).blocks y (subst (λ d. InTree h m' d y) (datum_at i lt) e)

    pub node_slice-IsSeparate :
        x < 2 ^ 20
        → ((i : ℕ)
            → i < self_size m root
            → IsSeparate h m (datum m root i) × (¬ InTree h m (datum m root i) x))
        → ((i j y : ℕ)
            → i < j
            → j < self_size m root
            → InTree h m (datum m root i) y
            → ¬ InTree h m (datum m root j) y)
        → IsSeparate (suc h) m' x
    node_slice-IsSeparate small apart distinct = (
      small,
      inr (
        omega (arith, slice.size),
        (λ i lt. (
          subst (λ d. IsSeparate h m' d) (sym (datum_at i lt))
              ((child (first + i) (place i lt)).separate (apart (first + i) (place i lt)).0),
          λ e. (apart (first + i) (place i lt)).1 (slice-InTree i x lt e),
        )),
        λ i j y ij jn ei ej.
            distinct (first + i) (first + j) y (omega arith) (place j jn)
              (slice-InTree i y (omega arith) ei) (slice-InTree j y jn ej),
      ),
    )

    pub node_slice-Member :
        (i k v : ℕ)
        → i < self_size m' x
        → Member h m (datum m root (first + i)) k v
        → Member h m' (datum m' x i) k v
    node_slice-Member i k v lt e =
        subst (λ d. Member h m' d k v) (sym (datum_at i lt))
          ((child (first + i) (place i lt)).member k v e)

    pub node_slice-Member_back :
        (i k v : ℕ)
        → i < self_size m' x
        → Member h m' (datum m' x i) k v
        → Member h m (datum m root (first + i)) k v
    node_slice-Member_back i k v lt e =
        (child (first + i) (place i lt)).member_back k v
          (subst (λ d. Member h m' d k v) (datum_at i lt) e)
