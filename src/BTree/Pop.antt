-- ===== src/BTree/Pop.antt =====
-- src/btree.c: `btree_pop`. The error code and `*value` are both results: EDB_ERROR_BTREE_EMPTY
-- says that the pop succeeded and that the node is small.
use everdb_native.Base.{ℕ, zero, suc, ◌+◌, ◌-◌, Bool, ◌==◌, leb, ltb, if◌then◌else◌}
use everdb_native.Base.Word.{add32, sub32}
use everdb_native.Memory.{store32}
use everdb_native.Core.{Db, Blocks, error_data_corrupt, read32, write32, update_mem}
use everdb_native.BTree.{
  has_magic, self_size, size_at, key_at, data_at, magic, magic_leaf, key, datum, err_invalid_key,
  err_empty, err_really_empty, list_find, list_insert, list_remove, copy_entries, btree_split,
}
use everdb_native.BTree.Write.{update_key}
use everdb_native.Run.{M, ok, hung, ◌>>=◌, ◌>>◌, pure, gets, attempt}

pub record Popped : Type 0 where
  pub code : ℕ
  pub value : ℕ

abbrev pub popped : ℕ → ℕ → Popped
popped c v = record { code = c; value = v }

-- The label `err`: the value is 0. Also CHECK of a call that fails.
abbrev pub fails : ℕ → M Db Popped
fails code = pure (popped code 0)

abbrev pub try : {A : Type 0} → M Db A → (A → M Db Popped) → M Db Popped
try m k = attempt m k fails

unfoldable pub leaf_pop : (root b k : ℕ) → M Db Popped
leaf_pop root b k = do
  m ← gets (λ db. db.mem)
  if key m root b == k
      then (do
        list_remove root b
        n ← gets (λ db. self_size db.mem root)
        pure (popped (if ltb n btree_split then err_empty else 0) (datum m root b)))
      else fails err_invalid_key

-- "can steal": one entry of the sibling moves over.
unfoldable pub steal : (root b other child0 child1 : ℕ) (from_left : Bool) → M Db (Unit {0})
steal root b other child0 child1 from_left = do
  m ← gets (λ db. db.mem)
  let n1 = self_size m child1
  let taken = if from_left then sub32 n1 1 else 0
  update_mem λ m.
      list_insert m child0 (if from_left then 0 else self_size m child0) (key m child1 taken)
        (datum m child1 taken)
  list_remove child1 taken
  update_key root b child0
  update_key root other child1

module _ (B : Blocks) where
  -- "merge nodes": the right one of the two goes into the left one and is freed.
  unfoldable pub merge : (root first child0 child1 value : ℕ) → M Db Popped
  merge root first child0 child1 value = do
    update_mem λ m. copy_entries (self_size m child1) m child0 (self_size m child0) child1 0
    update_mem λ m. store32 m (size_at child0) (add32 (self_size m child0) (self_size m child1))
    try (B.free child1) λ _. do
      list_remove root (first + 1)
      update_key root first child0
      n ← gets (λ db. self_size db.mem root)
      pure (popped err_empty (if ltb n btree_split then value else 0))

  -- The child `b` has become small.
  unfoldable pub rebalance : (root b child0 value : ℕ) → M Db Popped
  rebalance root b child0 value = do
    n ← gets (λ db. self_size db.mem root)
    if leb n 1 then fails err_really_empty else do
      let from_left = b + 1 == n
      let other = if from_left then b - 1 else b + 1
      child1 ← read32 (data_at root other)
      try (B.change child0) λ child0. try (B.change child1) λ child1. do
        write32 (data_at root b) child0
        write32 (data_at root other) child1
        n1 ← gets (λ db. self_size db.mem child1)
        if ltb btree_split n1
            then (do steal root b other child0 child1 from_left; pure (popped 0 value))
            else if from_left
            then merge root other child1 child0 value
            else merge root b child0 child1 value

  unfoldable pub node_pop : (ℕ → ℕ → M Db Popped) → (root b k : ℕ) → M Db Popped
  node_pop pop_below root b k = do
    upper ← read32 (key_at root b)
    if ltb upper k then fails err_invalid_key else do
      child0 ← read32 (data_at root b)
      try (B.change child0) λ child0. do
        write32 (data_at root b) child0
        r ← pop_below child0 k
        if r.code == 0
            then (update_key root b child0 >> pure r)
            else if r.code == err_empty
            then rebalance root b child0 r.value
            else fails r.code

  unfoldable pub btree_pop : ℕ → (root k : ℕ) → M Db Popped
  btree_pop zero root k db = hung
  btree_pop (suc depth) root k db =
      let b = list_find db.mem root k in
      let inner = node_pop (btree_pop depth) root b k db in
      if has_magic db.mem root
      then if magic db.mem root == magic_leaf then leaf_pop root b k db else inner
      else ok (popped error_data_corrupt 0) db
