-- ===== src/BTree/Read.antt =====
-- src/btree.c: `btree_first`, `btree_last` and `btree_get`. `depth` bounds the recursion: on a cycle
-- of nodes the C code does not end.
use everdb_native.Base.{ℕ, zero, suc, ◌==◌, ltb, if◌then◌else◌}
use everdb_native.Base.Word.{sub32}
use everdb_native.Memory.{Mem}
use everdb_native.Core.{error_data_corrupt}
use everdb_native.BTree.{
  has_magic, self_size, magic, magic_leaf, key, datum, err_invalid_key, list_find,
}

-- `miss` is an error code, with 0 in the output words.
pub data Answer : Type 0 where
  hit : (k v : ℕ) → Answer
  miss : ℕ → Answer
  endless : Answer

unfoldable pub btree_first : ℕ → Mem → ℕ → Answer
btree_first zero m root = endless
btree_first (suc depth) m root =
    let below = btree_first depth m (datum m root 0) in
    if has_magic m root
    then if self_size m root == 0
      then miss err_invalid_key
      else if magic m root == magic_leaf
      then hit (key m root 0) (datum m root 0)
      else below
    else miss error_data_corrupt

unfoldable pub btree_last : ℕ → Mem → ℕ → Answer
btree_last zero m root = endless
btree_last (suc depth) m root =
    let last = sub32 (self_size m root) 1 in
    let below = btree_last depth m (datum m root last) in
    if has_magic m root
    then if self_size m root == 0
      then miss err_invalid_key
      else if magic m root == magic_leaf
      then hit (key m root last) (datum m root last)
      else below
    else miss error_data_corrupt

unfoldable pub btree_get : ℕ → Mem → (root k : ℕ) → Answer
btree_get zero m root k = endless
btree_get (suc depth) m root k =
    let b = list_find m root k in
    let below = btree_get depth m (datum m root b) k in
    if has_magic m root
    then if ltb b (self_size m root)
      then if magic m root == magic_leaf
        then if key m root b == k then hit k (datum m root b) else miss err_invalid_key
        else below
      else miss err_invalid_key
    else miss error_data_corrupt
