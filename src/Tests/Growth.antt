-- ===== src/Tests/Growth.antt =====
-- A transaction that allocates block 11, writes a leaf of two entries into it and grows it to a tree of
-- two levels.
use mathlib.Core.Path.{subst}
use everdb_native.Base.{
  ◌≢◌, ℕ, ◌∙◌, sym, zero, suc, ◌<◌, ◌≤◌, ◌≡◌, true, inl, inr, refl, arith, [], ◌∷◌,
}
use mathlib.Core.List.{Memᴰ}
use mathlib.Core.List.Memᴰ.{head, tail}
use everdb_native.Memory.{Mem, store8, store32, memset, bytes_u32}
use everdb_native.MemHash.{hash}
use everdb_native.MemHash.Spread.{IsLow}
use everdb_native.Core.{Db}
use everdb_native.Core.Words.{Inside}
use everdb_native.Core.Allocator.{Allocated, OnlyOwn, IsAllocator}
use everdb_native.Array.Small.{item_at}
use everdb_native.BTree.{
  has_magic, key, magic, magic_leaf, self_size, init_node, list_insert, put_entry, copy_entry,
  shift_up,
}
use everdb_native.BTree.Nodes.{list_insert-OnlyBlock}
use everdb_native.BTree.Tree.{IsTree}
use everdb_native.BTree.Frame.{InTree}
use everdb_native.BTree.Join.{init_node-OnlyBlock}
use everdb_native.BTree.Growth.{Grows, btree_grow-Grows, btree_get-btree_grow}
use everdb_native.BTree.Refill.{btree_get-btree_set-btree_grow}
use everdb_native.BTree.Read.{hit, btree_get}
use everdb_native.BTree.Write.{btree_grow, btree_set}
use everdb_native.Edb.Life.{IsRoot}
use everdb_native.Txn.{blocks}
use everdb_native.Txn.Cycle.{begun}
use everdb_native.Txn.Exclusive.{IsUser}
use everdb_native.Txn.Isolation.{Returns-of, ok_of}
use everdb_native.Txn.Own.{OwnBlock}
use everdb_native.Txn.Room.{HasRoom, own-Allocated, blocks-IsAllocator}
use everdb_native.Txn.Store.{IsStored, begun-Isolated, bootstrap-HasRoomFor}
use everdb_native.Run.{ok, ◌>>=◌, pure}
use everdb_native.Run.Returns.{Returns}
use everdb_native.Tests.{program}
use everdb_native.Tests.Atomic.{state_after}
use everdb_native.Tests.Trees.{two-IsSorted}
use everdb_native.Tests.Data.{blank, obliging}

-- The free list has the blocks 9, 10 and 11.
abbrev three_mem : Mem
three_mem =
    store32 (store8 (store8 (store8 (store8 (λ p. 0) 8180 4) 4096 9) 4100 10) 4104 11) 8184 3

abbrev three_db : Db
three_db = record blank { mem = three_mem; freelist = 1; objlist = 3; nblocks = 12 }

three-IsStored : IsStored IsRoot three_db 3
unfolding program
three-IsStored = record {
  idle = record { none_open = refl; primary = refl; objects = refl };
  committed = λ b live. omega arith;
  roots = (inl refl, inr refl);
  list = record {
    no_table = refl;
    item = refl;
    positive = omega arith;
    byte = omega arith;
    length = refl;
    fits = omega arith;
  };
  user = user;
  unique = ((λ m. ten m), ((λ m. nine m), ((λ m. elim m [ ]), tt)));
}
  where
    user : (b : ℕ) → Memᴰ b (11 ∷ 10 ∷ 9 ∷ []) → IsUser b × (¬ IsRoot b)
    user b (head e) = ((omega arith, omega arith), λ live. omega arith)
    user b (tail (head e)) = ((omega arith, omega arith), λ live. omega arith)
    user b (tail (tail (head e))) = ((omega arith, omega arith), λ live. omega arith)
    user b (tail (tail (tail m))) = elim m [ ]

    ten : ¬ Memᴰ {A = ℕ} 11 (10 ∷ 9 ∷ [])
    ten (head e) = absurd (omega arith)
    ten (tail (head e)) = absurd (omega arith)
    ten (tail (tail m)) = elim m [ ]

    nine : ¬ Memᴰ {A = ℕ} 10 (9 ∷ [])
    nine (head e) = absurd (omega arith)
    nine (tail m) = elim m [ ]

free-IsLow : (j : ℕ) → j < 3 → IsLow (hash (bytes_u32 (item_at (begun three_db).mem 2 4 j))) 631
unfolding program
free-IsLow zero lt = omega arith
free-IsLow (suc zero) lt = omega arith
free-IsLow (suc (suc zero)) lt = omega arith
free-IsLow (suc (suc (suc j))) lt = absurd (omega arith)

three_room : HasRoom IsRoot three_mem 12 3 (begun three_db)
unfolding program
three_room = record {
  isolated = begun-Isolated IsRoot three_db 3 three-IsStored;
  count = 3;
  list = record {
    no_table = refl;
    item = refl;
    positive = omega arith;
    byte = omega arith;
    length = refl;
    fits = omega arith;
  };
  enough = omega arith;
  room = omega arith;
  keys = (bootstrap-HasRoomFor 9 (omega arith)).keys;
  low = free-IsLow;
}

own-Allocated_example :
    Returns
      (Allocated OwnBlock (HasRoom IsRoot three_mem 12) 2 (begun three_db))
      ((blocks (obliging 12) 2).allocate (begun three_db))
own-Allocated_example =
    own-Allocated (obliging 12) 0 IsRoot three_mem 12 (λ b live. omega arith) 2 (begun three_db)
      three_room

-- Block 11 is allocated, and the leaf with the entries (10, 100) and (30, 300) is written into it.
abbrev with_block : Db
with_block = state_after ((blocks (obliging 12) 2).allocate (begun three_db))

allocate_runs : (blocks (obliging 12) 2).allocate (begun three_db) ≡ ok 11 with_block
unfolding program
allocate_runs = refl

with_block-Allocated :
    Allocated OwnBlock (HasRoom IsRoot three_mem 12) 2 (begun three_db) 11 with_block
with_block-Allocated = ok_of (
    Returns-of
      (own-Allocated (obliging 12) 0 IsRoot three_mem 12 (λ b live. omega arith) 2 (begun three_db)
        three_room)
      allocate_runs)

abbrev one_entry : Mem
one_entry = list_insert (init_node with_block.mem 11) 11 0 30 300

abbrev two_entries : Mem
two_entries = list_insert one_entry 11 0 10 100

abbrev with_leaf : Db
with_leaf = record with_block { mem = two_entries }

run_leaf : Unit {0}
unfolding program init_node list_insert put_entry copy_entry shift_up memset
run_leaf = tt

leaf_words :
    (magic two_entries 11 ≡ magic_leaf)
    × (self_size two_entries 11 ≡ 2)
    × (key two_entries 11 0 ≡ 10)
    × (key two_entries 11 1 ≡ 30)
unfolding run_leaf
leaf_words = (refl, refl, refl, refl)

sizes : (self_size (init_node with_block.mem 11) 11 ≡ 0) × (self_size one_entry 11 ≡ 1)
unfolding run_leaf
sizes = (refl, refl)

leaf-OnlyOwn : OnlyOwn OwnBlock with_block two_entries
leaf-OnlyOwn p out =
    let away : ¬ Inside 11 p = out 11 with_block-Allocated.new in
    list_insert-OnlyBlock 11 one_entry 0 10 100 (omega (arith, sizes)) (omega arith) p away
    ∙ list_insert-OnlyBlock 11 (init_node with_block.mem 11) 0 30 300 (omega (arith, sizes))
        (omega arith) p away
    ∙ init_node-OnlyBlock with_block.mem 11 p away

allocator : IsAllocator OwnBlock (HasRoom IsRoot three_mem 12) (blocks (obliging 12) 2)
allocator = blocks-IsAllocator (obliging 12) 0 IsRoot three_mem 12 (λ b live. omega arith)

leaf_room : HasRoom IsRoot three_mem 12 2 with_leaf
leaf_room = allocator.write_ready 2 with_block two_entries with_block-Allocated.ready leaf-OnlyOwn

leaf-IsTree : IsTree 1 two_entries 11 0 30
leaf-IsTree = (
  record {
    fits = omega (arith, leaf_words);
    sorted = two-IsSorted two_entries 11 leaf_words.1 (omega (arith, leaf_words));
  },
  range,
  inl leaf_words.0,
)
  where
    range :
        (i : ℕ)
        → i < self_size two_entries 11
        → (0 ≤ key two_entries 11 i) × (key two_entries 11 i ≤ 30)
    range zero lt = omega (arith, leaf_words)
    range (suc zero) lt = omega (arith, leaf_words)
    range (suc (suc i)) lt = absurd (omega (arith, leaf_words))

leaf_own : (y : ℕ) → InTree 1 two_entries 11 y → OwnBlock with_leaf y
leaf_own y (inl r) = subst (OwnBlock with_leaf) (sym r) with_block-Allocated.new
leaf_own y (inr (inner, (i, lt, e))) = absurd (omega (arith, leaf_words))

leaf_magic : has_magic two_entries 11 ≡ true
leaf_magic = ground (arith, leaf_words)

btree_grow-Grows_example :
    Returns
      (Grows OwnBlock
        (HasRoom IsRoot three_mem 12)
        (blocks (obliging 12) 2)
        allocator
        0
        0
        with_leaf
        11
        0
        30
        leaf-IsTree
        (omega arith, inl leaf_words.0)
        (omega (arith, leaf_words))
        leaf_own)
      (btree_grow (blocks (obliging 12) 2) 11 11 with_leaf)
btree_grow-Grows_example =
    btree_grow-Grows OwnBlock (HasRoom IsRoot three_mem 12) (blocks (obliging 12) 2) allocator 0 0
      with_leaf 11 0 30 leaf-IsTree (omega arith, inl leaf_words.0) (omega (arith, leaf_words))
      leaf_own 11 leaf_magic leaf_room

btree_get-btree_grow_example :
    Returns
      (λ a db'. (k : ℕ) → btree_get 2 db'.mem a k ≡ btree_get 1 two_entries 11 k)
      (btree_grow (blocks (obliging 12) 2) 11 11 with_leaf)
btree_get-btree_grow_example =
    btree_get-btree_grow OwnBlock (HasRoom IsRoot three_mem 12) (blocks (obliging 12) 2) allocator 0
      0 with_leaf 11 0 30 leaf-IsTree (omega arith, inl leaf_words.0) (omega (arith, leaf_words))
      leaf_own 11 leaf_magic leaf_room

btree_get-btree_set-btree_grow_example :
    Returns
      (λ a db'.
        (btree_get 2 db'.mem a 20 ≡ hit 20 200)
        × ((q : ℕ) → q ≢ 20 → btree_get 2 db'.mem a q ≡ btree_get 1 two_entries 11 q))
      ((btree_grow (blocks (obliging 12) 2) 11 11 >>= λ a.
          btree_set (blocks (obliging 12) 2) 2 a 20 200 >>= λ _. pure a)
        with_leaf)
btree_get-btree_set-btree_grow_example =
    btree_get-btree_set-btree_grow OwnBlock (HasRoom IsRoot three_mem 12) (blocks (obliging 12) 2)
      allocator 0 with_leaf 11 11 0 30 20 200 leaf_magic leaf-IsTree (omega arith) leaf_words.0
      (omega (arith, leaf_words)) with_block-Allocated.new leaf_room (omega arith) (omega arith)
      (omega arith) (omega arith)
