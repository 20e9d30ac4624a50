-- ===== src/BTree/Sliced.antt =====
-- A slice of a tree's root as a tree, whether the root is a leaf or an internal node.
use everdb_native.Base.{ℕ, suc, ◌+◌, ◌-◌, ◌^◌, ◌≤◌, ◌<◌, ◌≡◌, ◌⊎◌, inl, inr, arith, sym}
use mathlib.Core.Path.{subst}
use everdb_native.Memory.{Mem}
use everdb_native.BTree.{key, datum, magic, magic_leaf, magic_node, self_size}
use everdb_native.BTree.Tree.{IsTree, Member, least}
use everdb_native.BTree.Frame.{InTree, IsSeparate, SameTree}
use everdb_native.BTree.Split.{Slice}
use everdb_native.BTree.Slice.{
  leaf', leaf_slice-IsTree, inner', node_slice-IsTree, node_slice-IsSeparate, node_slice-Member,
  node_slice-Member_back, slice-InTree,
}

-- The entry (k, v) is entry `i` of the root, or in the tree under it.
abbrev pub MemberAt : ℕ → Mem → (root i k v : ℕ) → Type 0
MemberAt h m root i k v =
    ((magic m root ≡ magic_leaf) × (key m root i ≡ k) × (datum m root i ≡ v))
    ⊎ ((magic m root ≡ magic_node) × Member h m (datum m root i) k v)

pub Member-at :
    (h : ℕ) (m : Mem) (root k v : ℕ)
    → Member (suc h) m root k v
    → (i : ℕ) × (i < self_size m root) × MemberAt h m root i k v
Member-at h m root k v (inl (leaf, (i, lt, ki, di))) = (i, lt, inl (leaf, ki, di))
Member-at h m root k v (inr (inner, (i, lt, e))) = (i, lt, inr (inner, e))

pub at-Member :
    (h : ℕ) (m : Mem) (root i k v : ℕ)
    → i < self_size m root
    → MemberAt h m root i k v
    → Member (suc h) m root k v
at-Member h m root i k v lt (inl (leaf, ki, di)) = inl (leaf, (i, lt, ki, di))
at-Member h m root i k v lt (inr (inner, e)) = inr (inner, (i, lt, e))

-- What the slice is: a tree with its entries, in blocks of its own and of the root's subtrees.
pub record Sliced (h : ℕ) (m m' : Mem) (root lo x first len : ℕ) : Type 0 where
  pub tree : IsTree (suc h) m' x (least m root lo first) (key m root (first + len - 1))
  pub separate : IsSeparate (suc h) m' x
  pub blocks :
      (y : ℕ)
      → InTree (suc h) m' x y
      → (y ≡ x)
        ⊎ ((magic m root ≡ magic_node)
            × ((i : ℕ) × (first ≤ i) × (i < first + len) × InTree h m (datum m root i) y))
  pub member :
      (i k v : ℕ) → first ≤ i → i < first + len → MemberAt h m root i k v → Member (suc h) m' x k v
  pub member_back :
      (k v : ℕ)
      → Member (suc h) m' x k v
      → (i : ℕ) × (i < self_size m root) × MemberAt h m root i k v

-- The slice of a tree's root, with at least one of its entries, in a block outside of the root's
-- subtrees, which are as they were.
pub Slice-Sliced :
    (h : ℕ) (m m' : Mem) (root lo hi x first len : ℕ)
    → IsTree (suc h) m root lo hi
    → IsSeparate (suc h) m root
    → Slice m m' root x first len
    → first + len ≤ self_size m root
    → 0 < len
    → x < 2 ^ 20
    → (magic m root ≡ magic_node
        → (i : ℕ) → i < self_size m root
        → (¬ InTree h m (datum m root i) x) × SameTree h m m' (datum m root i))
    → Sliced h m m' root lo x first len
Slice-Sliced h m m' root lo hi x first len (node, range, inl leaf) (_, s) slice fits filled small
      under =
    let leaf₁ = leaf' h m m' root lo hi x first len node range slice fits filled leaf in
    record {
      tree = leaf_slice-IsTree h m m' root lo hi x first len node range slice fits filled leaf;
      separate = (small, inl leaf₁);
      blocks = λ y. (λ e. elim e [ inl r ↦ inl r | inr (inner, _) ↦ absurd (omega arith) ]);
      member = λ i k v low high. (λ e. elim e [
        | inl (_, ki, di) ↦ inl (
          leaf₁,
          (
            i - first,
            omega (arith, slice.size),
            ground (arith, slice.keys (i - first)),
            ground (arith, slice.values (i - first)),
          ),
        )
        | inr (inner, _) ↦ absurd (omega arith)
      ]);
      member_back = λ k v. (λ e. elim e [
        | inl (_, (i, lt, ki, di)) ↦ (
          first + i,
          omega (arith, slice.size),
          inl (
            leaf,
            ground (arith, slice.size, slice.keys i),
            ground (arith, slice.size, slice.values i),
          ),
        )
        | inr (inner, _) ↦ absurd (omega arith)
      ]);
    }
Slice-Sliced h m m' root lo hi x first len (node, range, inr (inner, children)) (_, inl leaf) slice
      fits filled small under =
    absurd (omega arith)
Slice-Sliced h m m' root lo hi x first len (node, range, inr (inner, children))
      (_, inr (_, apart, distinct)) slice fits filled small under =
    let same : (i : ℕ) → i < self_size m root → SameTree h m m' (datum m root i) =
      λ i lt. (under inner i lt).1 in
    let inner₁ =
      inner' h m m' root lo hi x first len node range slice fits filled inner children same in
    record {
      tree =
          node_slice-IsTree h m m' root lo hi x first len node range slice fits filled inner
            children same;
      separate =
          node_slice-IsSeparate h m m' root lo hi x first len node range slice fits filled inner
            children same small (λ i lt. ((apart i lt).0, (under inner i lt).0)) distinct;
      blocks = λ y. (λ e. elim e [
        | inl r ↦ inl r
        | inr (_, (i, lt, q)) ↦ inr (
          inner,
          (
            first + i,
            omega arith,
            omega (arith, slice.size),
            slice-InTree h m m' root lo hi x first len node range slice fits filled inner children
                same i y lt q,
          ),
        )
      ]);
      member = λ i k v low high. (λ e. elim e [
        | inl (leaf, _, _) ↦ absurd (omega arith)
        | inr (_, q) ↦
            let at : first + (i - first) ≡ i = omega arith in
            inr (
              inner₁,
              (
                i - first,
                omega (arith, slice.size),
                node_slice-Member h m m' root lo hi x first len node range slice fits filled inner
                    children same (i - first) k v (omega (arith, slice.size))
                    (subst (λ j. Member h m (datum m root j) k v) (sym at) q),
              ),
            )
      ]);
      member_back = λ k v. (λ e. elim e [
        | inl (leaf, _) ↦ absurd (omega (arith, inner₁))
        | inr (_, (i, lt, q)) ↦ (
          first + i,
          omega (arith, slice.size),
          inr (
            inner,
            node_slice-Member_back h m m' root lo hi x first len node range slice fits filled inner
                children same i k v lt q,
          ),
        )
      ]);
    }
