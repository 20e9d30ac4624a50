-- ===== src/BTree.antt =====
-- src/btree.h, src/btree.c: a node of the B+ tree is a block: `magic`, `self_size`, `total_size`,
-- `checksum`, 510 keys and 510 data words. Here are the node and the routines on its lists; the
-- operations on the tree are in the children.
pub mod Read
pub mod Write
pub mod Pop
pub mod Find
pub mod Nodes
pub mod Entries
pub mod Lists
pub mod Tree
pub mod Ends
pub mod Leaf
pub mod Erase
pub mod Frame
pub mod Graft
pub mod Child
pub mod Descend
pub mod Answer
pub mod Insert
pub mod Remove
pub mod Split
pub mod Slice
pub mod Sliced
pub mod Join
pub mod Grown
pub mod Halves
pub mod Growth
pub mod Refill
use everdb_native.Base.{
  ℕ, zero, suc, ◌+◌, ◌-◌, ◌*◌, ◌/◌, ◌%◌, ◌^◌, Bool, true, false, ◌&&◌, ◌||◌, ◌==◌, leb, ltb,
  if◌then◌else◌,
}
use everdb_native.Base.Word.{add32, sub32}
use everdb_native.Memory.{Mem, load32, store32, memset}
use everdb_native.Core.{Db, block_addr, block_size, update_mem}
use everdb_native.Run.{M, ok, crashes, ◌>>=◌}

abbrev pub btree_size : ℕ
btree_size = 510

-- EDB_BTREE_SIZE >> 2
abbrev pub btree_split : ℕ
btree_split = 127

abbrev pub err_invalid_key : ℕ
err_invalid_key = 3351

abbrev pub err_full : ℕ
err_full = 3352

abbrev pub err_empty : ℕ
err_empty = 3353

abbrev pub err_really_empty : ℕ
err_really_empty = 3354

abbrev pub magic_node : ℕ
magic_node = 3300

abbrev pub magic_leaf : ℕ
magic_leaf = 3301

abbrev pub size_at : ℕ → ℕ
size_at root = block_addr root + 4

abbrev pub key_at : ℕ → ℕ → ℕ
key_at root i = block_addr root + 16 + 4 * i

abbrev pub data_at : ℕ → ℕ → ℕ
data_at root i = block_addr root + 2056 + 4 * i

abbrev pub magic : Mem → ℕ → ℕ
magic m root = load32 m (block_addr root)

abbrev pub self_size : Mem → ℕ → ℕ
self_size m root = load32 m (size_at root)

abbrev pub key : Mem → ℕ → ℕ → ℕ
key m root i = load32 m (key_at root i)

abbrev pub datum : Mem → ℕ → ℕ → ℕ
datum m root i = load32 m (data_at root i)

-- The test of the first CHECK_CODE of every operation.
abbrev pub has_magic : Mem → ℕ → Bool
has_magic m root = (magic m root == magic_leaf) || (magic m root == magic_node)

-- `bt->key[bt->self_size - 1]`
abbrev pub last_key : Mem → ℕ → ℕ
last_key m root = key m root (sub32 (self_size m root) 1)

unfoldable pub init_node : Mem → ℕ → Mem
init_node m root =
    store32 (store32 (memset m (block_addr root) 0 block_size) (block_addr root) magic_leaf)
      (size_at root) 0

unfoldable pub btree_init : ℕ → M Db (Unit {0})
btree_init root = update_mem λ m. init_node m root

-- The loop of `list_find`: the bounds come together in at most `e - b` rounds.
unfoldable pub bisect : ℕ → Mem → (root k b e : ℕ) → ℕ
bisect zero m root k b e = b
bisect (suc fuel) m root k b e =
    let mid = (b + e) / 2 in
    let right = bisect fuel m root k (mid + 1) e in
    let left = bisect fuel m root k b mid in
    if ltb b e then (if ltb (key m root mid) k then right else left) else b

unfoldable pub list_find : Mem → (root k : ℕ) → ℕ
list_find m root k = bisect (self_size m root) m root k 0 (self_size m root)

-- `bt->key[i] = ..; bt->data[i] = ..`
unfoldable pub put_entry : Mem → (root i k v : ℕ) → Mem
put_entry m root i k v = store32 (store32 m (key_at root i) k) (data_at root i) v

-- `to[i] = from[j]`, the key and the data word
unfoldable pub copy_entry : Mem → (to i from j : ℕ) → Mem
copy_entry m to i from j =
    let m₁ = store32 m (key_at to i) (key m from j) in store32 m₁ (data_at to i) (datum m₁ from j)

-- The loop of `list_insert`, downwards from entry `i`.
unfoldable pub shift_up : ℕ → Mem → (root i : ℕ) → Mem
shift_up zero m root i = m
shift_up (suc rounds) m root i = shift_up rounds (copy_entry m root i root (i - 1)) root (i - 1)

unfoldable pub list_insert : Mem → (root j k v : ℕ) → Mem
list_insert m root j k v =
    let n = self_size m root in
    let m₁ = put_entry (shift_up (n - j) m root n) root j k v in
    store32 m₁ (size_at root) (add32 n 1)

-- The loop of `list_remove`, upwards from entry `j`.
unfoldable pub shift_down : ℕ → Mem → (root j : ℕ) → Mem
shift_down zero m root j = m
shift_down (suc rounds) m root j = shift_down rounds (copy_entry m root j root (j + 1)) root (j + 1)

unfoldable pub remove_entry : Mem → (root j : ℕ) → Mem
remove_entry m root j =
    let n = self_size m root - 1 in
    let m₁ = store32 (shift_down (n - j) m root j) (size_at root) n in put_entry m₁ root n 0 0

-- On an empty node the bound `self_size - 1` is 2 ^ 32 - 1, and the loop leaves the array.
unfoldable pub list_remove : (root j : ℕ) → M Db (Unit {0})
list_remove root j db =
    if self_size db.mem root == 0
    then crashes db
    else ok tt (record db { mem = remove_entry db.mem root j })

-- `for (i = first; i < from->self_size; i++)` that copies entries to the front of another node,
-- and the loop of `btree_pop` that copies a whole node behind the entries of another.
unfoldable pub copy_entries : ℕ → Mem → (to i from j : ℕ) → Mem
copy_entries zero m to i from j = m
copy_entries (suc rounds) m to i from j =
    copy_entries rounds (copy_entry m to i from j) to (i + 1) from (j + 1)

-- The entries of `from` behind the first `n` become those of `to`.
unfoldable pub split_entries : Mem → (from to n : ℕ) → Mem
split_entries m from to n =
    let size = self_size m from in
    let m₁ = copy_entries (size - n) m to 0 from n in
    store32 (store32 m₁ (size_at to) (sub32 size n)) (size_at from) n
