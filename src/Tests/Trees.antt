-- ===== src/Tests/Trees.antt =====
-- B+ trees at concrete inputs: the leaf at block 4 has the entries (10, 100) and (30, 300), and is
-- the only child of the node at block 5.
use everdb_native.Base.{
  ◌≢◌, ◌∙◌, ℕ, zero, suc, ◌-◌, ◌/◌, ◌%◌, ◌==◌, ◌≤◌, ◌<◌, ◌≡◌, inl, inr, refl, arith, ltb,
  if◌then◌else◌,
}
use everdb_native.Memory.{Mem, load32, store32, memset}
use everdb_native.Core.{OnlyMem, block_addr}
use everdb_native.BTree.{
  key, datum, magic, self_size, magic_leaf, magic_node, init_node, list_insert, put_entry,
  copy_entry, shift_up, list_find, err_full, err_empty, btree_split,
}
use everdb_native.BTree.Find.{IsSorted, IsLowerBound, list_find-IsLowerBound}
use everdb_native.BTree.Tree.{IsTree, Answers, btree_get-Answers}
use everdb_native.BTree.Leaf.{IsLeaf, Entry, btree_set-full}
use everdb_native.BTree.Erase.{Erased, btree_pop-Erased}
use everdb_native.BTree.Read.{hit, btree_get, btree_first, btree_last}
use everdb_native.BTree.Frame.{IsSeparate}
use everdb_native.BTree.Graft.{IsTree-mono}
use everdb_native.BTree.Child.{HasRoom, SetsIn}
use everdb_native.BTree.Ends.{IsFilled, IsFirst, IsLast, btree_first-btree_last}
use everdb_native.BTree.Insert.{btree_set-SetsIn, btree_get-btree_set}
use everdb_native.BTree.Write.{btree_set}
use everdb_native.BTree.Pop.{popped, btree_pop}
use everdb_native.Run.{fail}
use everdb_native.Run.Returns.{Returns}
use everdb_native.Tests.Data.{in_place, holding}

abbrev leaf_mem : Mem
leaf_mem = list_insert (list_insert (init_node (λ p. 0) 4) 4 0 30 300) 4 0 10 100

abbrev tree_mem : Mem
tree_mem = list_insert (store32 (init_node leaf_mem 5) (block_addr 5) magic_node) 5 0 30 4

run_tree : Unit {0}
unfolding load32 store32 memset block_addr init_node list_insert put_entry copy_entry shift_up
run_tree = tt

leaf_words :
    (magic tree_mem 4 ≡ magic_leaf)
    × (self_size tree_mem 4 ≡ 2)
    × (key tree_mem 4 0 ≡ 10)
    × (key tree_mem 4 1 ≡ 30)
    × (datum tree_mem 4 0 ≡ 100)
unfolding run_tree
leaf_words = (refl, refl, refl, refl, refl)

node_words :
    (magic tree_mem 5 ≡ magic_node)
    × (self_size tree_mem 5 ≡ 1)
    × (key tree_mem 5 0 ≡ 30)
    × (datum tree_mem 5 0 ≡ 4)
unfolding run_tree
node_words = (refl, refl, refl, refl)

pub two-IsSorted :
    (m : Mem) (root : ℕ)
    → self_size m root ≡ 2
    → key m root 0 < key m root 1
    → IsSorted m root (self_size m root)
two-IsSorted m root size lt zero zero ij jn = absurd (omega arith)
two-IsSorted m root size lt zero (suc zero) ij jn = lt
two-IsSorted m root size lt zero (suc (suc j)) ij jn = absurd (omega arith)
two-IsSorted m root size lt (suc i) j ij jn = absurd (omega arith)

tree_mem-IsLeaf : IsLeaf tree_mem 4
tree_mem-IsLeaf =
    let (leaf, size, k0, k1, d0) = leaf_words in
    record {
      node = record {
        fits = omega (arith, size);
        sorted = two-IsSorted tree_mem 4 size (omega (arith, k0, k1));
      };
      leaf = leaf;
    }

leaf_range : (i : ℕ) → i < self_size tree_mem 4 → (0 ≤ key tree_mem 4 i) × (key tree_mem 4 i ≤ 30)
leaf_range zero lt = let (leaf, size, k0, k1, d0) = leaf_words in omega (arith, k0)
leaf_range (suc zero) lt = let (leaf, size, k0, k1, d0) = leaf_words in omega (arith, k1)
leaf_range (suc (suc i)) lt =
    let (leaf, size, k0, k1, d0) = leaf_words in absurd (omega (arith, size))

subtree_valid : IsTree 1 tree_mem 4 0 30
subtree_valid = (tree_mem-IsLeaf.node, leaf_range, inl tree_mem-IsLeaf.leaf)

tree_mem-IsTree : IsTree 2 tree_mem 5 0 30
tree_mem-IsTree =
    let (inner, size, k0, d0) = node_words in
    let only : (i : ℕ) → i < self_size tree_mem 5 → i ≡ 0 = λ i lt. omega (arith, size) in
    (
      record { fits = omega (arith, size); sorted = λ i j ij jn. absurd (omega (arith, size)) },
      λ i lt. rw (only i lt) (omega (arith, k0)),
      inr (inner, λ i lt. rw (only i lt, d0, k0) subtree_valid),
    )

leaf_entry : Entry tree_mem 4 10 100
leaf_entry = let (leaf, size, k0, k1, d0) = leaf_words in (0, omega (arith, size), k0, d0)

-- The search goes through the node to the leaf.
btree_get_example : Answers 2 tree_mem 5 10 (btree_get 2 tree_mem 5 10)
btree_get_example = btree_get-Answers 2 tree_mem 5 0 30 10 tree_mem-IsTree

list_find_example : IsLowerBound tree_mem 4 (self_size tree_mem 4) 20 (list_find tree_mem 4 20)
list_find_example = list_find-IsLowerBound tree_mem 4 20 tree_mem-IsLeaf.node.sorted

btree_pop_example :
    Returns
      (λ r db'.
        OnlyMem (holding tree_mem) db'
        × (r ≡ popped (if ltb (self_size db'.mem 4) btree_split then err_empty else 0) 100)
        × Erased tree_mem db'.mem 4 10)
      (btree_pop in_place 1 4 10 (holding tree_mem))
btree_pop_example =
    btree_pop-Erased in_place 0 (holding tree_mem) 4 10 tree_mem-IsLeaf 100 leaf_entry

-- A full leaf at block 4: key `i` is `i`.
abbrev full_mem : Mem
full_mem p =
    if p == 16384
    then 0xe5
    else if p == 16385
    then 0x0c
    else if p == 16388
    then 0xfe
    else if p == 16389
    then 1
    else if ltb p 16400
    then 0
    else if (p - 16400) % 4 == 0
    then (p - 16400) / 4 % 256
    else if (p - 16400) % 4 == 1
    then (p - 16400) / 1024
    else 0

full_key : (i : ℕ) → i < 510 → key full_mem 4 i ≡ i
unfolding load32 block_addr
full_key i lt = ground arith

full_mem-IsLeaf : IsLeaf full_mem 4
unfolding load32 block_addr
full_mem-IsLeaf = record {
  node = record {
    fits = omega arith;
    sorted = λ i j ij jn. omega (arith, full_key i (omega arith), full_key j jn);
  };
  leaf = refl;
}

btree_set-full_example :
    btree_set in_place 1 4 1000 7 (holding full_mem) ≡ fail err_full (holding full_mem)
unfolding load32 block_addr
btree_set-full_example =
    btree_set-full in_place 0 (holding full_mem) 4 1000 full_mem-IsLeaf 7 refl
      (λ w (i, il, ki, di). omega (arith, full_key i il))

tree_mem-IsSeparate : IsSeparate 2 tree_mem 5
tree_mem-IsSeparate =
    let (inner, size, k0, d0) = node_words in
    let only : (i : ℕ) → i < self_size tree_mem 5 → i ≡ 0 = λ i lt. omega (arith, size) in
    (
      omega arith,
      inr (
        omega (arith, size),
        (λ i lt.
            rw (only i lt, d0)
              (
                (omega arith, inl tree_mem-IsLeaf.leaf),
                λ e. elim e [
                  | inl r ↦ absurd (omega arith)
                  | inr (_, (j, jl, below)) ↦ absurd below
                ],
              )),
        λ i j x ij jn ei ej. absurd (omega (arith, size)),
      ),
    )

tree_mem-HasRoom : HasRoom 2 tree_mem 5
tree_mem-HasRoom x (inl r) leaf =
    let (inner, size, k0, d0) = node_words in rw r (omega (arith, size))
tree_mem-HasRoom x (inr (_, (i, lt, inl r))) leaf =
    let (inner, size, k0, d0) = node_words in
    let (leaf4, size4, rest0, rest1, rest2) = leaf_words in
    let zero_only : i ≡ 0 = omega (arith, size) in
    let at : x ≡ 4 = r ∙ rw zero_only d0 in rw at (omega (arith, size4))
tree_mem-HasRoom x (inr (_, (i, lt, inr (_, (j, jl, below))))) leaf = absurd below

btree_set_tree_example :
    Returns
      (λ _ db'. SetsIn 2 (holding tree_mem) 5 0 50 40 400 db')
      (btree_set in_place 2 5 40 400 (holding tree_mem))
btree_set_tree_example =
    btree_set-SetsIn in_place 2 (holding tree_mem) 5 0 50 40 400
      (IsTree-mono 2 tree_mem 5 0 30 0 50 tree_mem-IsTree (omega arith) (omega arith))
      tree_mem-IsSeparate tree_mem-HasRoom (λ x e d only. refl) (omega arith) (omega arith)
      (omega arith) (omega arith)

btree_get_set_example :
    Returns
      (λ _ db'.
        (btree_get 2 db'.mem 5 40 ≡ hit 40 400)
        × ((q : ℕ) → q ≢ 40 → btree_get 2 db'.mem 5 q ≡ btree_get 2 tree_mem 5 q))
      (btree_set in_place 2 5 40 400 (holding tree_mem))
btree_get_set_example =
    btree_get-btree_set in_place 2 (holding tree_mem) 5 0 50 40 400
      (IsTree-mono 2 tree_mem 5 0 30 0 50 tree_mem-IsTree (omega arith) (omega arith))
      tree_mem-IsSeparate tree_mem-HasRoom (λ x e d only. refl) (omega arith) (omega arith)
      (omega arith) (omega arith)

tree_mem-IsFilled : IsFilled 2 tree_mem 5
tree_mem-IsFilled =
    let (inner, size, k0, d0) = node_words in
    let (leaf, size4, rest0, rest1, rest2) = leaf_words in
    (
      omega (arith, size),
      λ _ i lt.
          let only : i ≡ 0 = omega (arith, size) in
          rw (only, d0) (omega (arith, size4), λ node j jl. absurd (omega (arith, leaf, node))),
    )

btree_ends_example :
    ((k v : ℕ) × (btree_first 2 tree_mem 5 ≡ hit k v) × IsFirst 2 tree_mem 5 k v)
    × ((k v : ℕ) × (btree_last 2 tree_mem 5 ≡ hit k v) × IsLast 2 tree_mem 5 k v)
btree_ends_example = btree_first-btree_last 2 tree_mem 5 0 30 tree_mem-IsTree tree_mem-IsFilled
