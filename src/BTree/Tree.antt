-- ===== src/BTree/Tree.antt =====
-- Search trees in memory, what they hold, and `btree_get`.
use everdb_native.Base.{
  ℕ, zero, suc, ◌+◌, ◌-◌, ◌≤◌, ◌<◌, ◌≡◌, ◌⊎◌, inl, inr, false, arith, ltb, ◌==◌, if◌then◌else◌,
  Bool-cases, ltb→lt, refl,
}
use mathlib.Core.Path.{subst}
use everdb_native.Memory.{Mem}
use everdb_native.BTree.{
  key, datum, magic, magic_leaf, magic_node, self_size, err_invalid_key, list_find,
}
use everdb_native.BTree.Find.{IsSorted, IsLowerBound, list_find-IsLowerBound}
use everdb_native.BTree.Read.{Answer, hit, miss, endless, btree_get}

-- The least key that child `i` may have: the keys of child `i - 1` go up to `key m root (i - 1)`.
abbrev pub least : Mem → (root lo i : ℕ) → ℕ
least m root lo i = if i == 0 then lo else key m root (i - 1) + 1

pub record IsNode (m : Mem) (root : ℕ) : Type 0 where
  pub fits : self_size m root ≤ 510
  pub sorted : IsSorted m root (self_size m root)

-- A tree of at most `h` levels, all of whose keys lie between `lo` and `hi`.
abbrev pub IsTree : ℕ → Mem → (root lo hi : ℕ) → Type 0
IsTree zero m root lo hi = ⊥
IsTree (suc h) m root lo hi =
    IsNode m root
    × ((i : ℕ) → i < self_size m root → (lo ≤ key m root i) × (key m root i ≤ hi))
    × ((magic m root ≡ magic_leaf)
        ⊎ ((magic m root ≡ magic_node)
            × ((i : ℕ)
                → i < self_size m root
                → IsTree h m (datum m root i) (least m root lo i) (key m root i))))

-- Some leaf has the entry (k, v).
abbrev pub Member : ℕ → Mem → (root k v : ℕ) → Type 0
Member zero m root k v = ⊥
Member (suc h) m root k v =
    ((magic m root ≡ magic_leaf)
      × ((i : ℕ) × (i < self_size m root) × (key m root i ≡ k) × (datum m root i ≡ v)))
    ⊎ ((magic m root ≡ magic_node)
        × ((i : ℕ) × (i < self_size m root) × Member h m (datum m root i) k v))

pub Member-bounds :
    (h : ℕ) (m : Mem) (root lo hi k v : ℕ)
    → IsTree h m root lo hi
    → Member h m root k v
    → (lo ≤ k) × (k ≤ hi)
Member-bounds zero m root lo hi k v t e = absurd t
Member-bounds (suc h) m root lo hi k v t (inl (leaf, (i, lt, same, there))) =
    ground (arith, t.1 i lt)
Member-bounds (suc h) m root lo hi k v (node, range, inl leaf) (inr (inner, (i, lt, below))) =
    absurd (omega arith)
Member-bounds (suc h) m root lo hi k v (node, range, inr (_, children))
      (inr (inner, (i, lt, below))) =
    let b =
      Member-bounds h m (datum m root i) (least m root lo i) (key m root i) k v (children i lt)
        below in
    ground (arith, b, range i lt, range (i - 1))

-- What a right answer to the search for `k` is.
abbrev pub Answers : ℕ → Mem → (root k : ℕ) → Answer → Type 0
Answers h m root k (hit k' v) = (k' ≡ k) × Member h m root k v
Answers h m root k (miss e) = (e ≡ err_invalid_key) × ((v : ℕ) → ¬ Member h m root k v)
Answers h m root k endless = ⊥

-- A key above all keys of the root, or none at the lower bound of a leaf, is not there.
absent_above :
    (h : ℕ) (m : Mem) (root lo hi k b : ℕ)
    → IsTree (suc h) m root lo hi
    → IsLowerBound m root (self_size m root) k b
    → self_size m root ≤ b
    → (v : ℕ) → ¬ Member (suc h) m root k v
absent_above h m root lo hi k b t lb out v (inl (leaf, (i, lt, same, there))) =
    ground (arith, lb.below i)
absent_above h m root lo hi k b (node, range, inl leaf) lb out v (inr (inner, rest)) =
    absurd (omega arith)
absent_above h m root lo hi k b (node, range, inr (_, children)) lb out v
      (inr (inner, (i, lt, e))) =
    ground (
      arith,
      Member-bounds h m (datum m root i) (least m root lo i) (key m root i) k v (children i lt) e,
      lb.below i,
    )

module _ (d : ℕ) (m : Mem) (root k : ℕ) where
  btree_get-leaf :
      magic m root ≡ magic_leaf
      → btree_get (suc d) m root k ≡ (
          if ltb (list_find m root k) (self_size m root)
          then (if key m root (list_find m root k) == k
              then hit k (datum m root (list_find m root k))
              else miss err_invalid_key)
          else miss err_invalid_key)
  unfolding btree_get
  btree_get-leaf e = rw e

  btree_get-node :
      magic m root ≡ magic_node
      → btree_get (suc d) m root k ≡ (
          if ltb (list_find m root k) (self_size m root)
          then btree_get d m (datum m root (list_find m root k)) k
          else miss err_invalid_key)
  unfolding btree_get
  btree_get-node e = rw e

absent_leaf :
    (h : ℕ) (m : Mem) (root k b : ℕ)
    → IsNode m root
    → magic m root ≡ magic_leaf
    → IsLowerBound m root (self_size m root) k b
    → (key m root b == k) ≡ false
    → (v : ℕ) → ¬ Member (suc h) m root k v
absent_leaf h m root k b node leaf lb other v (inl (_, (i, lt, same, there))) =
    ground (arith, lb.below i, lb.above b, node.sorted b i)
absent_leaf h m root k b node leaf lb other v (inr (inner, rest)) = absurd (omega arith)

-- An answer of the child that the search goes to is one of the node.
child-Answers :
    (h : ℕ) (m : Mem) (root lo hi k b : ℕ)
    → IsTree (suc h) m root lo hi
    → magic m root ≡ magic_node
    → IsLowerBound m root (self_size m root) k b
    → b < self_size m root
    → (r : Answer) → Answers h m (datum m root b) k r
    → Answers (suc h) m root k r
child-Answers h m root lo hi k b t inner lb lt (hit k' v) (same, e) =
    (same, inr (inner, (b, lt, e)))
child-Answers h m root lo hi k b (node, range, inl leaf) inner lb lt (miss e) a =
    absurd (omega arith)
child-Answers h m root lo hi k b (node, range, inr (_, children)) inner lb lt (miss e)
      (code, none_below) =
    (code, absent)
  where
    absent : (v : ℕ) → ¬ Member (suc h) m root k v
    absent v (inl (leaf, rest)) = absurd (omega arith)
    absent v (inr (_, (i, il, e))) =
        let bounds =
          Member-bounds h m (datum m root i) (least m root lo i) (key m root i) k v (children i il)
            e in
        let same : i ≡ b =
          ground (arith, bounds, lb.below i, lb.above b, node.sorted b (i - 1), lb.above (i - 1)) in
        none_below v (subst (λ j. Member h m (datum m root j) k v) same e)
child-Answers h m root lo hi k b t inner lb lt endless a = absurd a

-- In a tree of at most `h` levels `btree_get` ends within `h` levels. It gives the value that the tree
-- holds for the key, or the error for an unknown key, and this only if the tree holds none.
pub btree_get-Answers :
    (h : ℕ) (m : Mem) (root lo hi k : ℕ)
    → IsTree h m root lo hi
    → Answers h m root k (btree_get h m root k)
btree_get-Answers zero m root lo hi k t = absurd t
btree_get-Answers (suc h) m root lo hi k t =
    let b = list_find m root k in
    let lb = list_find-IsLowerBound m root k t.0.sorted in
    elim (Bool-cases (ltb b (self_size m root))) [
      | inr out ↦
          let a = absent_above h m root lo hi k b t lb (ground arith) in
          elim t.2 [
            | inl leaf ↦ rw (btree_get-leaf h m root k leaf, out) (refl, a)
            | inr (inner, _) ↦ rw (btree_get-node h m root k inner, out) (refl, a)
          ]
      | inl within ↦
          let lt : b < self_size m root = ltb→lt b (self_size m root) within in
          elim t.2 [
            | inr (inner, children) ↦
                rw (btree_get-node h m root k inner, within)
                  (child-Answers h m root lo hi k b t inner lb lt _ (
                    btree_get-Answers h m (datum m root b) (least m root lo b) (key m root b) k
                      (children b lt)))
            | inl leaf ↦ elim (Bool-cases (key m root b == k)) [
              | inl same ↦
                  rw (btree_get-leaf h m root k leaf, within, same)
                    (refl, inl (leaf, (b, lt, ground arith, refl)))
              | inr other ↦
                  rw (btree_get-leaf h m root k leaf, within, other)
                    (refl, absent_leaf h m root k b t.0 leaf lb other)
            ]
          ]
    ]
