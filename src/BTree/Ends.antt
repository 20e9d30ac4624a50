-- ===== src/BTree/Ends.antt =====
-- `btree_first` and `btree_last` on a search tree.
use everdb_native.Base.{
  ℕ, zero, suc, ◌-◌, ◌≤◌, ◌<◌, ◌≡◌, ◌∙◌, inl, inr, refl, false, arith, ◌==◌, Bool-cases,
}
use mathlib.Core.Path.{subst}
use everdb_native.Base.Word.{sub32}
use everdb_native.Memory.{Mem}
use everdb_native.BTree.{key, datum, magic, magic_leaf, magic_node, self_size}
use everdb_native.BTree.Tree.{IsTree, Member, Member-bounds, least}
use everdb_native.BTree.Read.{hit, btree_first, btree_last}

-- No node of the tree is empty.
abbrev pub IsFilled : ℕ → Mem → (root : ℕ) → Type 0
IsFilled zero m root = ⊥
IsFilled (suc h) m root =
    (0 < self_size m root)
    × (magic m root ≡ magic_node → (i : ℕ) → i < self_size m root → IsFilled h m (datum m root i))

-- An entry of the tree whose key is the least one.
abbrev pub IsFirst : ℕ → Mem → (root k v : ℕ) → Type 0
IsFirst h m root k v = Member h m root k v × ((q w : ℕ) → Member h m root q w → k ≤ q)

-- An entry of the tree whose key is the greatest one.
abbrev pub IsLast : ℕ → Mem → (root k v : ℕ) → Type 0
IsLast h m root k v = Member h m root k v × ((q w : ℕ) → Member h m root q w → q ≤ k)

module _ (h : ℕ) (m : Mem) (root lo hi : ℕ) (t : IsTree (suc h) m root lo hi)
    (some_key : 0 < self_size m root) where
  leaf-IsFirst : magic m root ≡ magic_leaf → IsFirst (suc h) m root (key m root 0) (datum m root 0)
  leaf-IsFirst leaf = (inl (leaf, (0, some_key, refl, refl)), below)
    where
      below : (q w : ℕ) → Member (suc h) m root q w → key m root 0 ≤ q
      below q w (inl (_, (i, lt, ks, vs))) = ground (arith, t.0.sorted 0 i)
      below q w (inr (inner, rest)) = absurd (omega arith)

  leaf-IsLast :
      magic m root ≡ magic_leaf
      → IsLast
          (suc h)
          m
          root
          (key m root (self_size m root - 1))
          (datum m root (self_size m root - 1))
  leaf-IsLast leaf = (inl (leaf, (self_size m root - 1, omega arith, refl, refl)), above)
    where
      above : (q w : ℕ) → Member (suc h) m root q w → q ≤ key m root (self_size m root - 1)
      above q w (inl (_, (i, lt, ks, vs))) = ground (arith, t.0.sorted i (self_size m root - 1))
      above q w (inr (inner, rest)) = absurd (omega arith)

  module _ (inner : magic m root ≡ magic_node)
      (children : (i : ℕ)
        → i < self_size m root
        → IsTree h m (datum m root i) (least m root lo i) (key m root i))
      (k v : ℕ) where
    child-IsFirst : IsFirst h m (datum m root 0) k v → IsFirst (suc h) m root k v
    child-IsFirst (there, first) = (inr (inner, (0, some_key, there)), below)
      where
        below : (q w : ℕ) → Member (suc h) m root q w → k ≤ q
        below q w (inl (leaf, rest)) = absurd (omega arith)
        below q w (inr (_, (i, lt, e))) = elim (Bool-cases (i == 0)) [
          | inl at ↦
              let zero_i : i ≡ 0 = ground arith in
              first q w (subst (λ j. Member h m (datum m root j) q w) zero_i e)
          | inr later ↦
              let a = Member-bounds h m _ _ _ k v (children 0 some_key) there in
              let b = Member-bounds h m _ _ _ q w (children i lt) e in
              ground (arith, a, b, t.0.sorted 0 (i - 1))
        ]

    child-IsLast : IsLast h m (datum m root (self_size m root - 1)) k v → IsLast (suc h) m root k v
    child-IsLast (there, last) = (inr (inner, (self_size m root - 1, omega arith, there)), above)
      where
        above : (q w : ℕ) → Member (suc h) m root q w → q ≤ k
        above q w (inl (leaf, rest)) = absurd (omega arith)
        above q w (inr (_, (i, lt, e))) = elim (Bool-cases (i == self_size m root - 1)) [
          | inl at ↦
              let same : i ≡ self_size m root - 1 = ground arith in
              last q w (subst (λ j. Member h m (datum m root j) q w) same e)
          | inr earlier ↦
              let a =
                Member-bounds h m _ _ _ k v (children (self_size m root - 1) (omega arith)) there in
              let b = Member-bounds h m _ _ _ q w (children i lt) e in
              ground (arith, a, b, t.0.sorted i (self_size m root - 1 - 1))
        ]

btree_first-IsFirst :
    (h : ℕ) (m : Mem) (root lo hi : ℕ)
    → IsTree h m root lo hi
    → IsFilled h m root
    → (k v : ℕ) × (btree_first h m root ≡ hit k v) × IsFirst h m root k v
unfolding btree_first
btree_first-IsFirst zero m root lo hi t filled = absurd t
btree_first-IsFirst (suc h) m root lo hi t (some_key, below) =
    let not_empty : (self_size m root == 0) ≡ false = ground arith in
    elim t.2 [
      | inl leaf ↦ (_, _, rw (leaf, not_empty) refl, leaf-IsFirst h m root lo hi t some_key leaf)
      | inr (inner, children) ↦
          let (k, v, runs, first) =
            btree_first-IsFirst h m (datum m root 0) (least m root lo 0) (key m root 0)
              (children 0 some_key) (below inner 0 some_key) in
          (
            k,
            v,
            rw (inner, not_empty) runs,
            child-IsFirst h m root lo hi t some_key inner children k v first,
          )
    ]

-- `btree_last` at a node whose last index is `n`.
module _ (d : ℕ) (m : Mem) (root n : ℕ) (not_empty : (self_size m root == 0) ≡ false)
    (index : sub32 (self_size m root) 1 ≡ n) where
  btree_last-leaf :
      magic m root ≡ magic_leaf → btree_last (suc d) m root ≡ hit (key m root n) (datum m root n)
  unfolding btree_last
  btree_last-leaf leaf = rw (leaf, not_empty, index) refl

  btree_last-node :
      magic m root ≡ magic_node → btree_last (suc d) m root ≡ btree_last d m (datum m root n)
  unfolding btree_last
  btree_last-node inner = rw (inner, not_empty, index) refl

btree_last-IsLast :
    (h : ℕ) (m : Mem) (root lo hi : ℕ)
    → IsTree h m root lo hi
    → IsFilled h m root
    → (k v : ℕ) × (btree_last h m root ≡ hit k v) × IsLast h m root k v
btree_last-IsLast zero m root lo hi t filled = absurd t
btree_last-IsLast (suc h) m root lo hi t (some_key, below) =
    let not_empty : (self_size m root == 0) ≡ false = ground arith in
    let n = self_size m root - 1 in
    let index : sub32 (self_size m root) 1 ≡ n = omega (arith, t.0.fits) in
    elim t.2 [
      | inl leaf ↦ (
        _,
        _,
        btree_last-leaf h m root n not_empty index leaf,
        leaf-IsLast h m root lo hi t some_key leaf,
      )
      | inr (inner, children) ↦
          let (k, v, runs, last) =
            btree_last-IsLast h m (datum m root n) (least m root lo n) (key m root n)
              (children n (omega arith)) (below inner n (omega arith)) in
          (
            k,
            v,
            btree_last-node h m root n not_empty index inner ∙ runs,
            child-IsLast h m root lo hi t some_key inner children k v last,
          )
    ]

-- In a tree of at most `h` levels that has no empty node, `btree_first` and `btree_last` end within `h`
-- levels. Each gives an entry of the tree, and every key of the tree is between their keys.
pub btree_first-btree_last :
    (h : ℕ) (m : Mem) (root lo hi : ℕ)
    → IsTree h m root lo hi
    → IsFilled h m root
    → ((k v : ℕ) × (btree_first h m root ≡ hit k v) × IsFirst h m root k v)
      × ((k v : ℕ) × (btree_last h m root ≡ hit k v) × IsLast h m root k v)
btree_first-btree_last h m root lo hi t filled =
    (btree_first-IsFirst h m root lo hi t filled, btree_last-IsLast h m root lo hi t filled)
