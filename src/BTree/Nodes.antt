-- ===== src/BTree/Nodes.antt =====
-- Writes of the list routines stay within their node, and a node depends on its words only.
use everdb_native.Base.{ℕ, zero, suc, ◌+◌, ◌-◌, ◌≤◌, ◌<◌, ◌≡◌, refl, arith}
use everdb_native.Memory.{Mem}
use everdb_native.Core.{block_addr}
use everdb_native.Core.Words.{
  Apart, Inside, OnlyBlock, OnlyBlock-trans, store32-OnlyBlock, load32_same,
}
use everdb_native.BTree.{
  key, datum, magic, self_size, size_at, key_at, data_at, put_entry, copy_entry, shift_up,
  shift_down, list_insert, remove_entry,
}

module _ (root : ℕ) where
  pub put_entry-OnlyBlock :
      (m : Mem) (i k v : ℕ) → i < 510 → OnlyBlock root m (put_entry m root i k v)
  unfolding put_entry
  put_entry-OnlyBlock m i k v h =
      OnlyBlock-trans root m _ _
        (store32-OnlyBlock m root (key_at root i) k (omega arith) (omega arith))
        (store32-OnlyBlock _ root (data_at root i) v (omega arith) (omega arith))

  copy_entry-OnlyBlock :
      (m : Mem) (i from j : ℕ) → i < 510 → OnlyBlock root m (copy_entry m root i from j)
  unfolding copy_entry
  copy_entry-OnlyBlock m i from j h =
      OnlyBlock-trans root m _ _
        (store32-OnlyBlock m root (key_at root i) _ (omega arith) (omega arith))
        (store32-OnlyBlock _ root (data_at root i) _ (omega arith) (omega arith))

  shift_up-OnlyBlock :
      (rounds : ℕ) (m : Mem) (n : ℕ) → n < 510 → OnlyBlock root m (shift_up rounds m root n)
  unfolding shift_up
  shift_up-OnlyBlock zero m n h = λ p out. refl
  shift_up-OnlyBlock (suc rounds) m n h =
      OnlyBlock-trans root m _ _ (copy_entry-OnlyBlock m n root (n - 1) h)
        (shift_up-OnlyBlock rounds _ (n - 1) (omega arith))

  shift_down-OnlyBlock :
      (rounds : ℕ) (m : Mem) (j : ℕ)
      → j + rounds ≤ 510
      → OnlyBlock root m (shift_down rounds m root j)
  unfolding shift_down
  shift_down-OnlyBlock zero m j h = λ p out. refl
  shift_down-OnlyBlock (suc rounds) m j h =
      OnlyBlock-trans root m _ _ (copy_entry-OnlyBlock m j root (j + 1) (omega arith))
        (shift_down-OnlyBlock rounds _ (j + 1) (omega arith))

  pub list_insert-OnlyBlock :
      (m : Mem) (j k v : ℕ)
      → self_size m root < 510
      → j ≤ self_size m root
      → OnlyBlock root m (list_insert m root j k v)
  unfolding list_insert
  list_insert-OnlyBlock m j k v room le =
      OnlyBlock-trans root m _ _ (shift_up-OnlyBlock _ m (self_size m root) room) (
        OnlyBlock-trans root _ _ _ (put_entry-OnlyBlock _ j k v (omega arith))
          (store32-OnlyBlock _ root (size_at root) _ (omega arith) (omega arith)))

  pub remove_entry-OnlyBlock :
      (m : Mem) (j : ℕ)
      → j < self_size m root
      → self_size m root ≤ 510
      → OnlyBlock root m (remove_entry m root j)
  unfolding remove_entry
  remove_entry-OnlyBlock m j lt fits =
      OnlyBlock-trans root m _ _ (shift_down-OnlyBlock _ m j (omega arith)) (
        OnlyBlock-trans root _ _ _
          (store32-OnlyBlock _ root (size_at root) _ (omega arith) (omega arith))
          (put_entry-OnlyBlock _ _ 0 0 (omega arith)))

-- The words of the node are as they were.
pub record SameNode (m m' : Mem) (x : ℕ) : Type 0 where
  pub magic_same : magic m' x ≡ magic m x
  pub size_same : self_size m' x ≡ self_size m x
  pub key_same : (i : ℕ) → i < 510 → key m' x i ≡ key m x i
  pub datum_same : (i : ℕ) → i < 510 → datum m' x i ≡ datum m x i

pub bytes-SameNode : (m m' : Mem) (x : ℕ) → ((p : ℕ) → Inside x p → m' p ≡ m p) → SameNode m m' x
bytes-SameNode m m' x h = record {
  magic_same = load32_same m m' (block_addr x) λ p a b. h p (a, omega arith);
  size_same = load32_same m m' (size_at x) λ p a b. h p (omega arith, omega arith);
  key_same = λ i lt. load32_same m m' (key_at x i) λ p a b. h p (omega arith, omega arith);
  datum_same = λ i lt. load32_same m m' (data_at x i) λ p a b. h p (omega arith, omega arith);
}

pub OnlyBlock-SameNode : (m m' : Mem) (b x : ℕ) → Apart x b → OnlyBlock b m m' → SameNode m m' x
OnlyBlock-SameNode m m' b x apart only =
    bytes-SameNode m m' x λ p inside. only p (λ out. omega (arith, apart, inside, out))
