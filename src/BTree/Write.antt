-- ===== src/BTree/Write.antt =====
-- src/btree.c: `btree_grow` and `btree_set`.
use everdb_native.Base.{ℕ, zero, suc, ◌+◌, ◌-◌, ◌/◌, false, ◌&&◌, ◌==◌, leb, ltb, if◌then◌else◌}
use everdb_native.Memory.{Mem, store32}
use everdb_native.Core.{Db, Blocks, error_data_corrupt, block_addr, read32, write32, update_mem}
use everdb_native.BTree.{
  has_magic, self_size, size_at, key_at, data_at, magic, magic_leaf, magic_node, key, last_key,
  err_full, list_find, list_insert, btree_init, split_entries, put_entry, btree_size, btree_split,
}
use everdb_native.Run.{M, ok, fail, hung, crashed, ◌>>=◌, ◌>>◌, pure, check_code, gets, attempt}

-- The leaf case of `btree_set`: overwrite, or insert where there is room.
unfoldable pub leaf_set : (root b k v : ℕ) → M Db (Unit {0})
leaf_set root b k v db =
    if ltb b (self_size db.mem root) && (key db.mem root b == k)
    then write32 (data_at root b) v db
    else if ltb (self_size db.mem root) btree_size
    then ok tt (record db { mem = list_insert db.mem root b k v })
    else fail err_full db

-- `bt->key[b] = b0->key[b0->self_size - 1]`
unfoldable pub update_key : (root b child : ℕ) → M Db (Unit {0})
update_key root b child = update_mem λ m. store32 m (key_at root b) (last_key m child)

module _ (B : Blocks) where
  -- The two new nodes under which `btree_grow` puts the halves of the old root.
  unfoldable pub link_root : (new_root root child1 : ℕ) → Mem → Mem
  link_root new_root root child1 m =
      let m₁ = store32 m (block_addr new_root) magic_node in
      let m₂ = put_entry m₁ new_root 0 (last_key m₁ root) root in
      let m₃ = put_entry m₂ new_root 1 (last_key m₂ child1) child1 in
      store32 m₃ (size_at new_root) 2

  -- The first check reads the block that `*new_root` names before the call.
  unfoldable pub btree_grow : (root new_root : ℕ) → M Db ℕ
  btree_grow root new_root = do
    valid ← gets (λ db. has_magic db.mem new_root)
    check_code valid error_data_corrupt
    root ← B.change root
    new_root ← B.allocate
    child1 ← B.allocate
    btree_init new_root
    btree_init child1
    update_mem λ m. store32 m (block_addr child1) (magic m root)
    update_mem λ m. split_entries m root child1 (self_size m root / 2)
    update_mem (link_root new_root root child1)
    pure new_root

  -- The split of the full child `b`, the second try, and the new keys of both halves. The second
  -- try goes by the key that the child had before the split.
  unfoldable pub split_child :
      (ℕ → ℕ → ℕ → M Db (Unit {0})) → (root b child0 k v : ℕ) → M Db (Unit {0})
  split_child set_below root b child0 k v = do
    room ← gets (λ db. ltb (self_size db.mem root) btree_size)
    check_code room err_full
    update_mem λ m. list_insert m root (b + 1) 0 0
    child1 ← B.allocate
    btree_init child1
    update_mem λ m. store32 m (block_addr child1) (magic m child0)
    write32 (data_at root (b + 1)) child1
    update_mem λ m. split_entries m child0 child1 btree_split
    upper ← read32 (key_at root b)
    left ← read32 (data_at root b)
    right ← read32 (data_at root (b + 1))
    set_below (if leb k upper then left else right) k v
    update_key root b child0
    update_key root (b + 1) child1

  -- The internal case of `btree_set` at child `b`.
  unfoldable pub node_set : (ℕ → ℕ → ℕ → M Db (Unit {0})) → (root b k v : ℕ) → M Db (Unit {0})
  node_set set_below root b k v = do
    child0 ← read32 (data_at root b)
    child0 ← B.change child0
    write32 (data_at root b) child0
    attempt (set_below child0 k v) (λ _. update_key root b child0)
        λ r. if r == err_full then split_child set_below root b child0 k v else check_code false r

  -- An internal node with no entries would be read at `data[-1]`.
  unfoldable pub btree_set : ℕ → (root k v : ℕ) → M Db (Unit {0})
  btree_set zero root k v db = hung
  btree_set (suc depth) root k v db =
      let b = list_find db.mem root k in
      let n = self_size db.mem root in
      let inner = node_set (btree_set depth) root (if b == n then b - 1 else b) k v db in
      if has_magic db.mem root
      then if magic db.mem root == magic_leaf
        then leaf_set root b k v db
        else if n == 0
        then crashed
        else inner
      else fail error_data_corrupt db
