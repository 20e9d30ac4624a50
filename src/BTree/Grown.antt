-- ===== src/BTree/Grown.antt =====
-- A new root over the two slices of an old one: a tree that is one level higher and has the same entries.
use everdb_native.Base.{
  ℕ, zero, suc, ◌+◌, ◌-◌, ◌%◌, ◌^◌, ◌≤◌, ◌<◌, ◌≡◌, ◌≢◌, ◌∙◌, ◌⊎◌, inl, inr, arith, sym, ltb,
  Bool-cases,
}
use mathlib.Core.Path.{subst}
use everdb_native.Memory.{Mem}
use everdb_native.BTree.{key, datum, magic, magic_node, self_size, last_key}
use everdb_native.BTree.Tree.{IsTree, Member, least}
use everdb_native.BTree.Frame.{InTree, IsSeparate}
use everdb_native.BTree.Split.{Slice}
use everdb_native.BTree.Sliced.{Sliced, MemberAt, Member-at, at-Member}
use everdb_native.BTree.Join.{Joins}

-- `m'` has at `a`, in one more level, the tree that `m` has at `root`, with the new blocks `a` and `c`.
pub record Grown (h : ℕ) (m m' : Mem) (root lo hi a c : ℕ) : Type 0 where
  pub tree : IsTree (suc h) m' a lo hi
  pub separate : IsSeparate (suc h) m' a
  pub inner : magic m' a ≡ magic_node
  pub size : self_size m' a ≡ 2
  pub smaller : (i : ℕ) → i < 2 → self_size m' (datum m' a i) < self_size m root
  pub blocks : (y : ℕ) → InTree (suc h) m' a y → (y ≡ a) ⊎ ((y ≡ c) ⊎ InTree h m root y)
  pub member : (k v : ℕ) → Member h m root k v → Member (suc h) m' a k v
  pub member_back : (k v : ℕ) → Member (suc h) m' a k v → Member h m root k v

below_two : (P : ℕ → Type 0) → P 0 → P 1 → (i : ℕ) → i < 2 → P i
below_two P p q zero lt = p
below_two P p q (suc zero) lt = q
below_two P p q (suc (suc i)) lt = absurd (omega arith)

Slice-last_key :
    (m m' : Mem) (root x first len : ℕ)
    → Slice m m' root x first len
    → 0 < len
    → len ≤ 510
    → last_key m' x ≡ key m root (first + len - 1)
Slice-last_key m m' root x first len slice filled fits =
    let n = self_size m' x in
    let size = slice.size in
    let index : (n + (2 ^ 32 - 1)) % 2 ^ 32 ≡ len - 1 = omega arith in
    rw index (ground (arith, slice.keys (len - 1)))

module _ (h : ℕ) (m m' : Mem) (root lo hi n a c : ℕ) (t : IsTree (suc h) m root lo hi)
    (s : IsSeparate (suc h) m root) (positive : 0 < n) (proper : n < self_size m root)
    (left : Sliced h m m' root lo root 0 n)
    (right : Sliced h m m' root lo c n (self_size m root - n))
    (left_slice : Slice m m' root root 0 n)
    (right_slice : Slice m m' root c n (self_size m root - n)) (joins : Joins m' a root c)
    (small : a < 2 ^ 20) (ac : a ≢ c) (new_root : ¬ InTree (suc h) m root a)
    (new_child : ¬ InTree (suc h) m root c) where
  low_key : key m' a 0 ≡ key m root (n - 1)
  low_key =
      let fits = t.0.fits in
      joins.keys.0
      ∙ Slice-last_key m m' root root 0 n left_slice positive (omega arith)
      ∙ ground arith

  high_key : key m' a 1 ≡ key m root (self_size m root - 1)
  high_key =
      let fits = t.0.fits in
      joins.keys.1
      ∙ Slice-last_key m m' root c n (self_size m root - n) right_slice (omega arith) (omega arith)
      ∙ ground arith

  left_tree : IsTree (suc h) m' (datum m' a 0) lo (key m' a 0)
  left_tree =
      let index : 0 + n - 1 ≡ n - 1 = omega arith in
      rw (joins.children.0, low_key)
        (subst (λ j. IsTree (suc h) m' root lo (key m root j)) index left.tree)

  right_tree : IsTree (suc h) m' (datum m' a 1) (key m' a 0 + 1) (key m' a 1)
  right_tree =
      let index : n + (self_size m root - n) - 1 ≡ self_size m root - 1 = omega arith in
      let lower : least m root lo n ≡ key m root (n - 1) + 1 = ground arith in
      rw (joins.children.1, high_key, low_key)
        (subst (λ l. IsTree (suc h) m' c l (key m root (self_size m root - 1))) lower
          (subst (λ j. IsTree (suc h) m' c (least m root lo n) (key m root j)) index right.tree))

  join-IsTree : IsTree (suc (suc h)) m' a lo hi
  join-IsTree =
      let size = joins.size in
      let order : key m' a 0 < key m' a 1 =
        ground (arith, low_key, high_key, t.0.sorted (n - 1) (self_size m root - 1)) in
      let first = t.1 (n - 1) (omega arith) in
      let last = t.1 (self_size m root - 1) (omega arith) in
      let low = low_key in
      let high = high_key in
      (
        record {
          fits = omega arith;
          sorted = λ i j ij jn.
              (let i0 : i ≡ 0 = omega arith in let j1 : j ≡ 1 = omega arith in rw (i0, j1) order);
        },
        λ i lt.
            below_two (λ j. (lo ≤ key m' a j) × (key m' a j ≤ hi)) (omega arith) (omega arith) i
              (omega arith),
        inr (
          joins.inner,
          λ i lt.
              below_two (λ j. IsTree (suc h) m' (datum m' a j) (least m' a lo j) (key m' a j))
                left_tree right_tree i (omega arith),
        ),
      )

  -- The blocks of the halves are the new one and blocks of the old tree.
  left_blocks : (y : ℕ) → InTree (suc h) m' root y → InTree (suc h) m root y
  left_blocks y e = elim (left.blocks y e) [
    | inl r ↦ inl r
    | inr (inner, (i, low, high, q)) ↦ inr (inner, (i, omega arith, q))
  ]

  right_blocks : (y : ℕ) → InTree (suc h) m' c y → (y ≡ c) ⊎ InTree (suc h) m root y
  right_blocks y e = elim (right.blocks y e) [
    | inl r ↦ inl r
    | inr (inner, (i, low, high, q)) ↦ inr (inr (inner, (i, omega arith, q)))
  ]

  root_below :
      (i : ℕ)
      → magic m root ≡ magic_node
      → i < self_size m root
      → ¬ InTree h m (datum m root i) root
  root_below i inner lt = elim s.1 [
    | inl leaf ↦ absurd (omega arith)
    | inr (_, apart, distinct) ↦ (apart i lt).1
  ]

  -- The halves share no block.
  halves_apart : (y : ℕ) → InTree (suc h) m' root y → ¬ InTree (suc h) m' c y
  halves_apart y el er = elim (left.blocks y el) [
    | inl yr ↦ elim (right.blocks y er) [
      | inl yc ↦ new_child (inl (sym yc ∙ yr))
      | inr (inner, (j, low, high, q)) ↦
          root_below j inner (omega arith) (subst (λ z. InTree h m (datum m root j) z) yr q)
    ]
    | inr (inner, (i, il, ih, p)) ↦ elim (right.blocks y er) [
      | inl yc ↦
          new_child (inr (inner, (i, omega arith, subst (λ z. InTree h m (datum m root i) z) yc p)))
      | inr (_, (j, jl, jh, q)) ↦ elim s.1 [
        | inl leaf ↦ absurd (omega arith)
        | inr (_, apart, distinct) ↦ distinct i j y (omega arith) (omega arith) p q
      ]
    ]
  ]

  in_half :
      (i y : ℕ) → i < 2 → InTree (suc h) m' (datum m' a i) y → (y ≡ c) ⊎ InTree (suc h) m root y
  in_half i y lt =
      below_two (λ j. InTree (suc h) m' (datum m' a j) y → (y ≡ c) ⊎ InTree (suc h) m root y)
        (λ e. inr (left_blocks y (subst (λ d. InTree (suc h) m' d y) joins.children.0 e)))
        (λ e. right_blocks y (subst (λ d. InTree (suc h) m' d y) joins.children.1 e)) i lt

  join-IsSeparate : IsSeparate (suc (suc h)) m' a
  join-IsSeparate = (
    small,
    inr (
      omega (arith, joins.size),
      (λ i lt. (
        below_two (λ j. IsSeparate (suc h) m' (datum m' a j))
            (subst (λ d. IsSeparate (suc h) m' d) (sym joins.children.0) left.separate)
            (subst (λ d. IsSeparate (suc h) m' d) (sym joins.children.1) right.separate) i
            (omega (arith, joins.size)),
        λ e. elim (in_half i a (omega (arith, joins.size)) e) [ inl r ↦ ac r | inr r ↦ new_root r ],
      )),
      λ i j y ij jn ei ej.
          let i0 : i ≡ 0 = omega (arith, joins.size) in
          let j1 : j ≡ 1 = omega (arith, joins.size) in
          halves_apart y
            (subst (λ d. InTree (suc h) m' d y) joins.children.0
              (subst (λ z. InTree (suc h) m' (datum m' a z) y) i0 ei))
            (subst (λ d. InTree (suc h) m' d y) joins.children.1
              (subst (λ z. InTree (suc h) m' (datum m' a z) y) j1 ej)),
    ),
  )

  join-member :
      (k v i : ℕ) → i < self_size m root → MemberAt h m root i k v → Member (suc (suc h)) m' a k v
  join-member k v i lt e = inr (
    joins.inner,
    elim (Bool-cases (ltb i n)) [
      | inl below ↦ (
        0,
        omega (arith, joins.size),
        subst (λ d. Member (suc h) m' d k v) (sym joins.children.0)
            (left.member i k v (omega arith) (ground arith) e),
      )
      | inr above ↦ (
        1,
        omega (arith, joins.size),
        subst (λ d. Member (suc h) m' d k v) (sym joins.children.1)
            (right.member i k v (ground arith) (ground arith) e),
      )
    ],
  )

  join-member_back : (k v : ℕ) → Member (suc (suc h)) m' a k v → Member (suc h) m root k v
  join-member_back k v (inl (leaf, _)) = absurd (omega (arith, joins.inner))
  join-member_back k v (inr (inner, (i, lt, e))) =
      below_two (λ j. Member (suc h) m' (datum m' a j) k v → Member (suc h) m root k v)
        (λ q.
          let (j, jn, at) =
            left.member_back k v (subst (λ d. Member (suc h) m' d k v) joins.children.0 q) in
          at-Member h m root j k v jn at)
        (λ q.
          let (j, jn, at) =
            right.member_back k v (subst (λ d. Member (suc h) m' d k v) joins.children.1 q) in
          at-Member h m root j k v jn at)
        i (omega (arith, joins.size)) e

  pub join-Grown : Grown (suc h) m m' root lo hi a c
  join-Grown = record {
    tree = join-IsTree;
    separate = join-IsSeparate;
    inner = joins.inner;
    size = joins.size;
    smaller =
        below_two (λ i. self_size m' (datum m' a i) < self_size m root)
          (rw joins.children.0 (omega (arith, left_slice.size)))
          (rw joins.children.1 (omega (arith, right_slice.size)));
    blocks = λ y. (λ e. elim e [
      | inl r ↦ inl r
      | inr (inner, (i, lt, q)) ↦ inr (in_half i y (omega (arith, joins.size)) q)
    ]);
    member = λ k v e. let (i, lt, at) = Member-at h m root k v e in join-member k v i lt at;
    member_back = join-member_back;
  }
