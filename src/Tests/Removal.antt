-- ===== src/Tests/Removal.antt =====
-- A tree of two levels whose one leaf, at block 4, has the 128 keys from 0 on: `btree_pop` of the key 5.
use everdb_native.Base.{
  ℕ, ◌+◌, ◌-◌, ◌/◌, ◌%◌, ◌<◌, ◌≡◌, ◌⊎◌, ◌≢◌, ◌∙◌, ◌*◌, ◌&&◌, ◌==◌, inl, inr, refl, arith, leb,
  if◌then◌else◌,
}
use everdb_native.Memory.{Mem, load32, store32}
use everdb_native.Memory.Laws.{load32-store32_other}
use everdb_native.Core.{block_addr}
use everdb_native.BTree.{key, datum, magic, magic_leaf, magic_node, self_size, err_invalid_key}
use everdb_native.BTree.Tree.{IsTree, Member}
use everdb_native.BTree.Frame.{InTree, IsSeparate}
use everdb_native.BTree.Pop.{popped, btree_pop}
use everdb_native.BTree.Read.{miss, btree_get}
use everdb_native.BTree.Remove.{HasSpare, PopsFrom, btree_pop-PopsFrom, btree_get-btree_pop}
use everdb_native.Run.Returns.{Returns}
use everdb_native.Tests.Data.{in_place, holding}

-- The keys of the leaf are their indices.
abbrev counting : Mem
counting p = if leb 16400 p && (p % 4 == 0) then (p - 16400) / 4 % 256 else 0

abbrev wide_leaf : Mem
wide_leaf = store32 (store32 counting 16384 3301) 16388 128

abbrev wide_mem : Mem
wide_mem = store32 (store32 (store32 (store32 wide_leaf 20480 3300) 20484 1) 20496 127) 22536 4

counting_bytes :
    (i : ℕ)
    → i < 128
    → (counting (16400 + 4 * i) ≡ i)
      × (counting (16400 + 4 * i + 1) ≡ 0)
      × (counting (16400 + 4 * i + 2) ≡ 0)
      × (counting (16400 + 4 * i + 3) ≡ 0)
counting_bytes i lt = (ground arith, ground arith, ground arith, ground arith)

counting_word : (i : ℕ) → i < 128 → load32 counting (16400 + 4 * i) ≡ i
unfolding load32
counting_word i lt = let (a, b, c, d) = counting_bytes i lt in rw (a, b, c, d) (omega arith)

wide_key : (i : ℕ) → i < 128 → key wide_mem 4 i ≡ i
unfolding block_addr
wide_key i lt =
    load32-store32_other _ 22536 (16400 + 4 * i) 4 (omega arith)
    ∙ load32-store32_other _ 20496 (16400 + 4 * i) 127 (omega arith)
    ∙ load32-store32_other _ 20484 (16400 + 4 * i) 1 (omega arith)
    ∙ load32-store32_other _ 20480 (16400 + 4 * i) 3300 (omega arith)
    ∙ load32-store32_other _ 16388 (16400 + 4 * i) 128 (omega arith)
    ∙ load32-store32_other counting 16384 (16400 + 4 * i) 3301 (omega arith)
    ∙ counting_word i lt

wide_words :
    (magic wide_mem 4 ≡ magic_leaf)
    × (self_size wide_mem 4 ≡ 128)
    × (datum wide_mem 4 5 ≡ 3)
    × (magic wide_mem 5 ≡ magic_node)
    × (self_size wide_mem 5 ≡ 1)
    × (key wide_mem 5 0 ≡ 127)
    × (datum wide_mem 5 0 ≡ 4)
unfolding load32 store32 block_addr
wide_words = (refl, refl, refl, refl, refl, refl, refl)

wide_leaf-IsTree : IsTree 1 wide_mem 4 0 127
wide_leaf-IsTree = (
  record {
    fits = omega (arith, wide_words);
    sorted = λ i j ij jn. omega (arith, wide_words, wide_key i, wide_key j);
  },
  λ i lt. omega (arith, wide_words, wide_key i),
  inl wide_words.0,
)

wide-IsTree : IsTree 2 wide_mem 5 0 127
wide-IsTree =
    let (leaf, size, value, inner, one, upper, child) = wide_words in
    let only : (i : ℕ) → i < self_size wide_mem 5 → i ≡ 0 = λ i lt. omega (arith, one) in
    (
      record { fits = omega (arith, one); sorted = λ i j ij jn. absurd (omega (arith, one)) },
      λ i lt. rw (only i lt) (omega (arith, upper)),
      inr (inner, λ i lt. rw (only i lt, child, upper) wide_leaf-IsTree),
    )

wide_blocks : (x : ℕ) → InTree 2 wide_mem 5 x → (x ≡ 5) ⊎ (x ≡ 4)
wide_blocks x (inl r) = inl r
wide_blocks x (inr (inner, (i, lt, inl r))) =
    let i0 : i ≡ 0 = omega (arith, wide_words) in inr (r ∙ rw i0 wide_words.6)
wide_blocks x (inr (inner, (i, lt, inr (below, q)))) =
    let i0 : i ≡ 0 = omega (arith, wide_words) in
    absurd (omega (arith, wide_words, rw (i0, wide_words.6) at below))

wide-IsSeparate : IsSeparate 2 wide_mem 5
wide-IsSeparate =
    let (leaf, size, value, inner, one, upper, child) = wide_words in
    let only : (i : ℕ) → i < self_size wide_mem 5 → i ≡ 0 = λ i lt. omega (arith, one) in
    (
      omega arith,
      inr (
        omega (arith, one),
        (λ i lt.
            rw (only i lt, child)
              (
                (omega arith, inl leaf),
                λ e. elim e [
                  | inl r ↦ absurd (omega arith)
                  | inr (below, q) ↦ absurd (omega (arith, leaf))
                ],
              )),
        λ i j x ij jn ei ej. absurd (omega (arith, one)),
      ),
    )

wide-HasSpare : HasSpare 2 wide_mem 5
wide-HasSpare x e is_leaf = elim (wide_blocks x e) [
  | inl r ↦ absurd (omega (arith, wide_words, rw r at is_leaf))
  | inr r ↦ rw r (omega (arith, wide_words))
]

wide_member : Member 2 wide_mem 5 5 3
wide_member =
    let (leaf, size, value, inner, one, upper, child) = wide_words in
    inr (
      inner,
      (
        0,
        omega (arith, one),
        rw child (inl (leaf, (5, omega (arith, size), wide_key 5 (omega arith), value))),
      ),
    )

btree_pop-PopsFrom_example :
    Returns
      (PopsFrom 2 (holding wide_mem) 5 0 127 5 3)
      (btree_pop in_place 2 5 5 (holding wide_mem))
btree_pop-PopsFrom_example =
    btree_pop-PopsFrom in_place 2 (holding wide_mem) 5 0 127 5 3 wide-IsTree wide-IsSeparate
      wide-HasSpare (λ x e d only. refl) wide_member

btree_get-btree_pop_example :
    Returns
      (λ r db'.
        (r ≡ popped 0 3)
        × (btree_get 2 db'.mem 5 5 ≡ miss err_invalid_key)
        × ((q : ℕ) → q ≢ 5 → btree_get 2 db'.mem 5 q ≡ btree_get 2 wide_mem 5 q))
      (btree_pop in_place 2 5 5 (holding wide_mem))
btree_get-btree_pop_example =
    btree_get-btree_pop in_place 2 (holding wide_mem) 5 0 127 5 3 wide-IsTree wide-IsSeparate
      wide-HasSpare (λ x e d only. refl) wide_member
