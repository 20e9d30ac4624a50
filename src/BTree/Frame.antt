-- ===== src/BTree/Frame.antt =====
-- The blocks of a tree, trees that share no block, and that a tree depends on its blocks only.
use everdb_native.Base.{ℕ, zero, suc, ◌-◌, ◌^◌, ◌<◌, ◌≡◌, ◌∙◌, ◌⊎◌, inl, inr, refl, arith, sym}
use everdb_native.Memory.{Mem}
use everdb_native.BTree.{key, datum, magic, magic_leaf, magic_node, self_size}
use everdb_native.BTree.Nodes.{SameNode}
use everdb_native.BTree.Tree.{IsTree, Member, least}

-- `x` is a block of the tree.
abbrev pub InTree : ℕ → Mem → (root x : ℕ) → Type 0
InTree zero m root x = ⊥
InTree (suc h) m root x =
    (x ≡ root)
    ⊎ ((magic m root ≡ magic_node)
        × ((i : ℕ) × (i < self_size m root) × InTree h m (datum m root i) x))

-- The blocks of the tree are below 2 ^ 20, no block occurs twice, and each internal node has a child.
abbrev pub IsSeparate : ℕ → Mem → (root : ℕ) → Type 0
IsSeparate zero m root = ⊥
IsSeparate (suc h) m root =
    (root < 2 ^ 20)
    × ((magic m root ≡ magic_leaf)
        ⊎ ((0 < self_size m root)
            × ((i : ℕ)
                → i < self_size m root
                → IsSeparate h m (datum m root i) × (¬ InTree h m (datum m root i) root))
            × ((i j x : ℕ)
                → i < j
                → j < self_size m root
                → InTree h m (datum m root i) x
                → ¬ InTree h m (datum m root j) x)))

-- All nodes of the tree are as they were.
abbrev pub SameTree : ℕ → (m m' : Mem) → (root : ℕ) → Type 0
SameTree h m m' root = (x : ℕ) → InTree h m root x → SameNode m m' x

-- The tree of `m` is one of `m'`, with the same blocks and entries.
pub record Framed (h : ℕ) (m m' : Mem) (root lo hi : ℕ) : Type 0 where
  pub tree : IsTree h m' root lo hi
  pub separate : IsSeparate h m root → IsSeparate h m' root
  pub blocks : (x : ℕ) → InTree h m' root x → InTree h m root x
  pub blocks_back : (x : ℕ) → InTree h m root x → InTree h m' root x
  pub member : (k v : ℕ) → Member h m root k v → Member h m' root k v
  pub member_back : (k v : ℕ) → Member h m' root k v → Member h m root k v

pub frame :
    (h : ℕ) (m m' : Mem) (root lo hi : ℕ)
    → IsTree h m root lo hi
    → SameTree h m m' root
    → Framed h m m' root lo hi
frame zero m m' root lo hi t same = absurd t
frame (suc h) m m' root lo hi (node, range, inl leaf) same =
    let w = same root (inl refl) in
    let fits = node.fits in
    let leaf' : magic m' root ≡ magic_leaf = w.magic_same ∙ leaf in
    record {
      tree = (
        record {
          fits = omega (arith, w.size_same);
          sorted =
              λ i j ij jn. ground (arith, w.size_same, w.key_same i, w.key_same j, node.sorted i j);
        },
        λ i lt. ground (arith, w.size_same, w.key_same i, range i),
        inl leaf',
      );
      separate = λ (small, s). (small, inl leaf');
      blocks = λ x. (λ e. elim e [ inl r ↦ inl r | inr (inner, q) ↦ absurd (omega arith) ]);
      blocks_back = λ x. (λ e. elim e [ inl r ↦ inl r | inr (inner, q) ↦ absurd (omega arith) ]);
      member = λ k v. (λ e. elim e [
        | inr (inner, q) ↦ absurd (omega arith)
        | inl (_, (i, lt, ki, di)) ↦ inl (
          leaf',
          (
            i,
            omega (arith, w.size_same),
            w.key_same i (omega arith) ∙ ki,
            w.datum_same i (omega arith) ∙ di,
          ),
        )
      ]);
      member_back = λ k v. (λ e. elim e [
        | inr (inner, q) ↦ absurd (omega arith)
        | inl (_, (i, lt, ki, di)) ↦ inl (
          leaf,
          (
            i,
            omega (arith, w.size_same),
            sym (w.key_same i (omega (arith, w.size_same))) ∙ ki,
            sym (w.datum_same i (omega (arith, w.size_same))) ∙ di,
          ),
        )
      ]);
    }
frame (suc h) m m' root lo hi (node, range, inr (inner, children)) same =
    let w = same root (inl refl) in
    let fits = node.fits in
    let inner' : magic m' root ≡ magic_node = w.magic_same ∙ inner in
    let child : (i : ℕ)
        → (lt : i < self_size m root)
        → Framed h m m' (datum m root i) (least m root lo i) (key m root i) =
      λ i lt.
        frame h m m' (datum m root i) (least m root lo i) (key m root i) (children i lt)
          (λ x e. same x (inr (inner, (i, lt, e)))) in
    let back : (i : ℕ) → i < self_size m' root → i < self_size m root =
      λ i lt. omega (arith, w.size_same) in
    let there : (i : ℕ) → i < self_size m root → i < self_size m' root =
      λ i lt. omega (arith, w.size_same) in
    let d : (i : ℕ) → i < self_size m root → datum m' root i ≡ datum m root i =
      λ i lt. w.datum_same i (omega arith) in
    let lower : (i : ℕ) → i < self_size m root → least m' root lo i ≡ least m root lo i =
      λ i lt. ground (arith, w.key_same (i - 1)) in
    record {
      tree = (
        record {
          fits = omega (arith, w.size_same);
          sorted =
              λ i j ij jn. ground (arith, w.size_same, w.key_same i, w.key_same j, node.sorted i j);
        },
        λ i lt. ground (arith, w.size_same, w.key_same i, range i),
        inr (
          inner',
          λ i lt'.
              let lt = back i lt' in
              rw (d i lt, lower i lt, w.key_same i (omega arith)) (child i lt).tree,
        ),
      );
      separate = λ (small, s). (
        small,
        elim s [
          | inl leaf ↦ absurd (omega arith)
          | inr (filled, apart, distinct) ↦ inr (
            there 0 filled,
            (λ i lt'.
                let lt = back i lt' in
                rw (d i lt) (
                  (child i lt).separate (apart i lt).0,
                  λ e. (apart i lt).1 ((child i lt).blocks root e),
                )),
            λ i j x ij jn' ei ej.
                let jn = back j jn' in
                let il : i < self_size m root = omega arith in
                distinct i j x ij jn ((child i il).blocks x (rw⁻¹ (d i il) ei))
                  ((child j jn).blocks x (rw⁻¹ (d j jn) ej)),
          )
        ],
      );
      blocks = λ x. (λ e. elim e [
        | inl r ↦ inl r
        | inr (_, (i, lt', q)) ↦
            let lt = back i lt' in inr (inner, (i, lt, (child i lt).blocks x (rw⁻¹ (d i lt) q)))
      ]);
      blocks_back = λ x. (λ e. elim e [
        | inl r ↦ inl r
        | inr (_, (i, lt, q)) ↦
            inr (inner', (i, there i lt, rw (d i lt) ((child i lt).blocks_back x q)))
      ]);
      member = λ k v. (λ e. elim e [
        | inl (leaf, q) ↦ absurd (omega arith)
        | inr (_, (i, lt, q)) ↦
            inr (inner', (i, there i lt, rw (d i lt) ((child i lt).member k v q)))
      ]);
      member_back = λ k v. (λ e. elim e [
        | inl (leaf, q) ↦ absurd (omega arith)
        | inr (_, (i, lt', q)) ↦
            let lt = back i lt' in
            inr (inner, (i, lt, (child i lt).member_back k v (rw⁻¹ (d i lt) q)))
      ]);
    }
