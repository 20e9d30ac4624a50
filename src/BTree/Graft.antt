-- ===== src/BTree/Graft.antt =====
-- A tree in which one child has been written to: what it needs to be a tree again.
use everdb_native.Base.{
  ℕ, zero, suc, Option, none, some, ◌+◌, ◌-◌, ◌%◌, ◌^◌, ◌≤◌, ◌<◌, ◌≡◌, ◌≢◌, ◌∙◌, inl, inr, arith,
  sym, ◌==◌, Bool-cases,
}
use mathlib.Core.Path.{subst}
use everdb_native.Memory.{Mem}
use everdb_native.BTree.{key, datum, magic, magic_node, self_size, last_key}
use everdb_native.BTree.Tree.{IsNode, IsTree, Member, Member-bounds, least}
use everdb_native.BTree.Frame.{InTree, IsSeparate, SameTree, Framed, frame}

pub IsTree-mono :
    (h : ℕ) (m : Mem) (root lo hi lo' hi' : ℕ)
    → IsTree h m root lo hi
    → lo' ≤ lo
    → hi ≤ hi'
    → IsTree h m root lo' hi'
IsTree-mono zero m root lo hi lo' hi' t l u = absurd t
IsTree-mono (suc h) m root lo hi lo' hi' (node, range, inl leaf) l u =
    (node, λ i lt. omega (arith, range i lt), inl leaf)
IsTree-mono (suc h) m root lo hi lo' hi' (node, range, inr (inner, children)) l u = (
  node,
  λ i lt. omega (arith, range i lt),
  inr (
    inner,
    λ i lt.
        IsTree-mono h m (datum m root i) (least m root lo i) (key m root i) (least m root lo' i)
          (key m root i) (children i lt) (ground arith) (omega arith),
  ),
)

-- The last key bounds a tree that is not empty.
pub IsTree-last_key :
    (h : ℕ) (m : Mem) (root lo hi : ℕ)
    → IsTree h m root lo hi
    → 0 < self_size m root
    → (lo ≤ last_key m root) × (last_key m root ≤ hi) × IsTree h m root lo (last_key m root)
IsTree-last_key zero m root lo hi t filled = absurd t
IsTree-last_key (suc h) m root lo hi (node, range, rest) filled =
    let n = self_size m root in
    let fits = node.fits in
    let last : (n + (2 ^ 32 - 1)) % 2 ^ 32 ≡ n - 1 = omega arith in
    let b = range (n - 1) (omega arith) in
    let upper : (i : ℕ) → i < n → key m root i ≤ key m root (n - 1) =
      λ i lt. ground (arith, node.sorted i (n - 1)) in
    rw last (b.0, b.1, (node, λ i lt. ((range i lt).0, upper i lt), rest))

-- `m'` has the tree of `m` with `o` under the key `k` (a value, or nothing), in the same blocks.
pub record Put (h : ℕ) (m m' : Mem) (root lo hi k : ℕ) (o : Option ℕ) : Type 0 where
  pub tree : IsTree h m' root lo hi
  pub separate : IsSeparate h m' root
  pub blocks : (x : ℕ) → InTree h m' root x → InTree h m root x
  pub filled : 0 < self_size m' root
  pub new : (w : ℕ) → o ≡ some w → Member h m' root k w
  pub gone : o ≡ none → (w : ℕ) → ¬ Member h m' root k w
  pub kept : (q w : ℕ) → q ≢ k → Member h m root q w → Member h m' root q w
  pub only : (q w : ℕ) → q ≢ k → Member h m' root q w → Member h m root q w

-- The root in `m'` is the root in `m` with the last key of child `b` as its key `b`.
pub record Rekeyed (m m' : Mem) (root b : ℕ) : Type 0 where
  pub magic_same : magic m' root ≡ magic m root
  pub size_same : self_size m' root ≡ self_size m root
  pub datum_same : (i : ℕ) → i < 510 → datum m' root i ≡ datum m root i
  pub key_same : (i : ℕ) → i < 510 → i ≢ b → key m' root i ≡ key m root i
  pub key_new : key m' root b ≡ last_key m' (datum m root b)

module _ (h : ℕ) (m m' : Mem) (root lo hi k : ℕ) (o : Option ℕ) (b ch : ℕ) (node : IsNode m root)
    (range : (i : ℕ) → i < self_size m root → (lo ≤ key m root i) × (key m root i ≤ hi))
    (inner : magic m root ≡ magic_node)
    (children : (i : ℕ)
      → i < self_size m root
      → IsTree h m (datum m root i) (least m root lo i) (key m root i))
    (bn : b < self_size m root) (put : Put h m m' (datum m root b) (least m root lo b) ch k o)
    (rekeyed : Rekeyed m m' root b) (above : key m root b ≤ ch) (below : ch ≤ hi)
    (next : b + 1 < self_size m root → ch ≤ key m root b) (low : least m root lo b ≤ k)
    (high : k ≤ ch)
    (same : (i : ℕ) → i < self_size m root → i ≢ b → SameTree h m m' (datum m root i)) where
  last :
      (least m root lo b ≤ key m' root b)
      × (key m' root b ≤ ch)
      × IsTree h m' (datum m root b) (least m root lo b) (key m' root b)
  last =
      rw rekeyed.key_new
        (IsTree-last_key h m' (datum m root b) (least m root lo b) ch put.tree put.filled)

  child :
      (i : ℕ)
      → i < self_size m root
      → i ≢ b
      → Framed h m m' (datum m root i) (least m root lo i) (key m root i)
  child i lt ne =
      frame h m m' (datum m root i) (least m root lo i) (key m root i) (children i lt)
        (same i lt ne)

  child_blocks :
      (i x : ℕ)
      → i < self_size m root
      → InTree h m' (datum m root i) x
      → InTree h m (datum m root i) x
  child_blocks i x lt e = elim (Bool-cases (i == b)) [
    | inl at ↦
        let ib : i ≡ b = ground arith in
        subst (λ j. InTree h m (datum m root j) x) (sym ib)
          (put.blocks x (subst (λ j. InTree h m' (datum m root j) x) ib e))
    | inr off ↦ (child i lt (ground arith)).blocks x e
  ]

  back : (i : ℕ) → i < self_size m' root → i < self_size m root
  back i lt = omega (arith, rekeyed.size_same)

  data_same : (i : ℕ) → i < self_size m root → datum m' root i ≡ datum m root i
  data_same i lt = rekeyed.datum_same i (omega (arith, node.fits))

  graft-IsNode : IsNode m' root
  graft-IsNode = record {
    fits = omega (arith, rekeyed.size_same, node.fits);
    sorted = λ i j ij jn. ground (
      arith,
      back j jn,
      node.fits,
      rekeyed.key_same i,
      rekeyed.key_same j,
      last,
      node.sorted i j,
      node.sorted i (b - 1),
      next,
    );
  }

  graft-child :
      (i : ℕ)
      → i < self_size m root
      → IsTree h m' (datum m root i) (least m' root lo i) (key m' root i)
  graft-child i lt = elim (Bool-cases (i == b)) [
    | inl at ↦
        let ib : i ≡ b = ground arith in
        let lower : least m' root lo b ≡ least m root lo b =
          ground (arith, rekeyed.key_same (b - 1), node.fits) in
        subst (λ j. IsTree h m' (datum m root j) (least m' root lo j) (key m' root j)) (sym ib)
          (rw lower last.2)
    | inr off ↦
        let ne : i ≢ b = ground arith in
        let upper : key m' root i ≡ key m root i =
          rekeyed.key_same i (omega (arith, node.fits)) ne in
        rw upper (
          IsTree-mono h m' (datum m root i) (least m root lo i) (key m root i) (least m' root lo i)
            (key m root i) (child i lt ne).tree
            (ground (arith, rekeyed.key_same (i - 1), node.fits, last, next)) (omega arith))
  ]

  pub graft-IsTree : IsTree (suc h) m' root lo hi
  graft-IsTree = (
    graft-IsNode,
    λ i lt. ground (arith, back i lt, rekeyed.key_same i, node.fits, range i, range (b - 1), last),
    inr (
      rekeyed.magic_same ∙ inner,
      λ i lt. rw (data_same i (back i lt)) (graft-child i (back i lt)),
    ),
  )

  module _ (small : root < 2 ^ 20)
      (apart : (i : ℕ)
        → i < self_size m root
        → IsSeparate h m (datum m root i) × (¬ InTree h m (datum m root i) root))
      (distinct : (i j x : ℕ)
        → i < j
        → j < self_size m root
        → InTree h m (datum m root i) x
        → ¬ InTree h m (datum m root j) x) where
    child-IsSeparate : (i : ℕ) → i < self_size m root → IsSeparate h m' (datum m root i)
    child-IsSeparate i lt = elim (Bool-cases (i == b)) [
      | inl at ↦
          let ib : i ≡ b = ground arith in
          subst (λ j. IsSeparate h m' (datum m root j)) (sym ib) put.separate
      | inr off ↦ (child i lt (ground arith)).separate (apart i lt).0
    ]

    graft-IsSeparate : IsSeparate (suc h) m' root
    graft-IsSeparate = (
      small,
      inr (
        omega (arith, rekeyed.size_same),
        (λ i lt'.
            let lt = back i lt' in
            rw (data_same i lt)
              (child-IsSeparate i lt, λ e. (apart i lt).1 (child_blocks i root lt e))),
        λ i j x ij jn' ei ej.
            let jn = back j jn' in
            let il : i < self_size m root = omega arith in
            distinct i j x ij jn (child_blocks i x il (rw⁻¹ (data_same i il) ei))
              (child_blocks j x jn (rw⁻¹ (data_same j jn) ej)),
      ),
    )

    graft-kept :
        (i q w : ℕ)
        → i < self_size m root
        → q ≢ k
        → Member h m (datum m root i) q w
        → Member h m' (datum m root i) q w
    graft-kept i q w lt ne e = elim (Bool-cases (i == b)) [
      | inl at ↦
          let ib : i ≡ b = ground arith in
          subst (λ j. Member h m' (datum m root j) q w) (sym ib)
            (put.kept q w ne (subst (λ j. Member h m (datum m root j) q w) ib e))
      | inr off ↦ (child i lt (ground arith)).member q w e
    ]

    graft-only :
        (i q w : ℕ)
        → i < self_size m root
        → q ≢ k
        → Member h m' (datum m root i) q w
        → Member h m (datum m root i) q w
    graft-only i q w lt ne e = elim (Bool-cases (i == b)) [
      | inl at ↦
          let ib : i ≡ b = ground arith in
          subst (λ j. Member h m (datum m root j) q w) (sym ib)
            (put.only q w ne (subst (λ j. Member h m' (datum m root j) q w) ib e))
      | inr off ↦ (child i lt (ground arith)).member_back q w e
    ]

    graft-gone : o ≡ none → (i w : ℕ) → i < self_size m root → ¬ Member h m' (datum m root i) k w
    graft-gone e i w lt q = elim (Bool-cases (i == b)) [
      | inl at ↦
          let ib : i ≡ b = ground arith in
          put.gone e w (subst (λ j. Member h m' (datum m root j) k w) ib q)
      | inr off ↦
          let bounds =
            Member-bounds h m (datum m root i) (least m root lo i) (key m root i) k w
              (children i lt) ((child i lt (ground arith)).member_back k w q) in
          absurd
            (ground (arith, bounds, low, high, next, node.sorted i (b - 1), node.sorted b (i - 1)))
    ]

    -- A write to child `b` is one to the tree.
    pub graft-Put : Put (suc h) m m' root lo hi k o
    graft-Put =
        let inner' : magic m' root ≡ magic_node = rekeyed.magic_same ∙ inner in
        let there : (i : ℕ) → i < self_size m root → i < self_size m' root =
          λ i lt. omega (arith, rekeyed.size_same) in
        record {
          tree = graft-IsTree;
          separate = graft-IsSeparate;
          blocks = λ x. (λ e. elim e [
            | inl r ↦ inl r
            | inr (_, (i, lt', q)) ↦
                let lt = back i lt' in
                inr (inner, (i, lt, child_blocks i x lt (rw⁻¹ (data_same i lt) q)))
          ]);
          filled = omega (arith, rekeyed.size_same);
          new = λ w e. inr (inner', (b, there b bn, rw (data_same b bn) (put.new w e)));
          gone = λ e w. (λ q. elim q [
            | inl (leaf, r) ↦ absurd (omega arith)
            | inr (_, (i, lt', r)) ↦
                let lt = back i lt' in graft-gone e i w lt (rw⁻¹ (data_same i lt) r)
          ]);
          kept = λ q w ne. (λ e. elim e [
            | inl (leaf, r) ↦ absurd (omega arith)
            | inr (_, (i, lt, r)) ↦
                inr (inner', (i, there i lt, rw (data_same i lt) (graft-kept i q w lt ne r)))
          ]);
          only = λ q w ne. (λ e. elim e [
            | inl (leaf, r) ↦ absurd (omega arith)
            | inr (_, (i, lt', r)) ↦
                let lt = back i lt' in
                inr (inner, (i, lt, graft-only i q w lt ne (rw⁻¹ (data_same i lt) r)))
          ]);
        }
