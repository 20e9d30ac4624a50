-- ===== src/BTree/Lists.antt =====
-- `list_insert` and `list_remove`: the entries, the size and the order of a node.
use everdb_native.Base.{ℕ, ◌+◌, ◌-◌, ◌%◌, ◌^◌, ◌≤◌, ◌<◌, ◌≡◌, ◌≢◌, ◌∙◌, arith}
use everdb_native.Memory.{Mem, store32}
use everdb_native.Memory.Laws.{load32-store32_same, load32-store32_other}
use everdb_native.Core.{block_addr}
use everdb_native.BTree.{
  key, datum, key_at, data_at, magic, self_size, size_at, put_entry, shift_up, shift_down,
  list_insert, remove_entry,
}
use everdb_native.BTree.Find.{IsSorted, IsLowerBound}
use everdb_native.BTree.Entries.{
  SameEntry, shift_up-Moves, shift_down-Moves, put_entry-key, put_entry-datum, put_entry-magic,
  put_entry-size,
}

module _ (m : Mem) (root s : ℕ) where
  pub resize-key : (x : ℕ) → key (store32 m (size_at root) s) root x ≡ key m root x
  resize-key x = load32-store32_other m (size_at root) (key_at root x) s (omega arith)

  pub resize-datum : (x : ℕ) → datum (store32 m (size_at root) s) root x ≡ datum m root x
  resize-datum x = load32-store32_other m (size_at root) (data_at root x) s (omega arith)

  pub resize-magic : magic (store32 m (size_at root) s) root ≡ magic m root
  resize-magic = load32-store32_other m (size_at root) (block_addr root) s (omega arith)

-- `m'` has the node of `m` with the entry (k, v) at `j`, and the entries from there on moved up.
pub record Inserted (m m' : Mem) (root j k v : ℕ) : Type 0 where
  pub magic_kept : magic m' root ≡ magic m root
  pub size : self_size m' root ≡ self_size m root + 1
  pub before : (x : ℕ) → x < j → SameEntry m' m root x x
  pub here : (key m' root j ≡ k) × (datum m' root j ≡ v)
  pub after : (x : ℕ) → j ≤ x → x < self_size m root → SameEntry m' m root (x + 1) x

-- `list_insert` into a node with fewer than 510 entries, at an index up to its size, puts the entry
-- there and moves the entries from there on up by one; the others are as they were.
pub list_insert-Inserted :
    (m : Mem) (root j k v : ℕ)
    → self_size m root < 510
    → j ≤ self_size m root
    → k < 2 ^ 32
    → v < 2 ^ 32
    → Inserted m (list_insert m root j k v) root j k v
unfolding list_insert
list_insert-Inserted m root j k v room le hk hv =
    let n = self_size m root in
    let m₁ = shift_up (n - j) m root n in
    let t = shift_up-Moves (n - j) m root n (omega arith) room in
    let m₂ = put_entry m₁ root j k v in
    let same : (x y : ℕ)
        → x < 510
        → x ≢ j
        → SameEntry m₁ m root x y
        → SameEntry (store32 m₂ (size_at root) ((n + 1) % 2 ^ 32)) m root x y =
      λ x y hx ne e. (
        resize-key m₂ root _ x ∙ ground (arith, put_entry-key m₁ root j k v x),
        resize-datum m₂ root _ x ∙ ground (arith, put_entry-datum m₁ root j k v x),
      ) in
    record {
      magic_kept = resize-magic m₂ root _ ∙ put_entry-magic m₁ root j k v ∙ t.magic_kept;
      size = load32-store32_same m₂ (size_at root) _ ∙ omega arith;
      before = λ x lt. same x x (omega arith) (omega arith) (ground (arith, t.entries x));
      here = (
        resize-key m₂ root _ j ∙ ground (arith, put_entry-key m₁ root j k v j),
        resize-datum m₂ root _ j ∙ ground (arith, put_entry-datum m₁ root j k v j),
      );
      after =
          λ x ge lt. same (x + 1) x (omega arith) (omega arith) (ground (arith, t.entries (x + 1)));
    }

-- `m'` has the node of `m` without the entry `j`.
pub record Removed (m m' : Mem) (root j : ℕ) : Type 0 where
  pub magic_kept : magic m' root ≡ magic m root
  pub size : self_size m' root + 1 ≡ self_size m root
  pub before : (x : ℕ) → x < j → SameEntry m' m root x x
  pub after : (x : ℕ) → j ≤ x → x + 1 < self_size m root → SameEntry m' m root x (x + 1)
  pub cleared : (key m' root (self_size m' root) ≡ 0) × (datum m' root (self_size m' root) ≡ 0)

-- The removal of an entry that the node has moves the entries behind it down by one and clears the
-- last place; the others are as they were.
pub remove_entry-Removed :
    (m : Mem) (root j : ℕ)
    → j < self_size m root
    → self_size m root ≤ 510
    → Removed m (remove_entry m root j) root j
unfolding remove_entry
remove_entry-Removed m root j lt fits =
    let n = self_size m root - 1 in
    let m₁ = shift_down (n - j) m root j in
    let t = shift_down-Moves (n - j) m root j (omega arith) in
    let m₂ = store32 m₁ (size_at root) n in
    let size : self_size (put_entry m₂ root n 0 0) root ≡ n =
      put_entry-size m₂ root n 0 0 ∙ load32-store32_same m₁ (size_at root) n ∙ omega arith in
    let same : (x y : ℕ)
        → x < n
        → SameEntry m₁ m root x y
        → SameEntry (put_entry m₂ root n 0 0) m root x y =
      λ x y hx e. (
        ground (arith, put_entry-key m₂ root n 0 0 x, resize-key m₁ root n x),
        ground (arith, put_entry-datum m₂ root n 0 0 x, resize-datum m₁ root n x),
      ) in
    record {
      magic_kept = put_entry-magic m₂ root n 0 0 ∙ resize-magic m₁ root n ∙ t.magic_kept;
      size = omega arith;
      before = λ x p. same x x (omega arith) (ground (arith, t.entries x));
      after = λ x p q. same x (x + 1) (omega arith) (ground (arith, t.entries x));
      cleared = rw size (
        ground (arith, put_entry-key m₂ root n 0 0 n),
        ground (arith, put_entry-datum m₂ root n 0 0 n),
      );
    }

-- Inserting at the lower bound of a key that the node does not have keeps the keys sorted.
pub Inserted-IsSorted :
    {m m' : Mem} {root j k v : ℕ}
    → Inserted m m' root j k v
    → IsSorted m root (self_size m root)
    → IsLowerBound m root (self_size m root) k j
    → ((x : ℕ) → x < self_size m root → key m root x ≢ k)
    → IsSorted m' root (self_size m' root)
Inserted-IsSorted {m} {m'} {root} {j} {k} t sorted lb fresh a b ab bn = ground (
  arith,
  t.before a,
  t.before b,
  t.after (a - 1),
  t.after (b - 1),
  sorted a b,
  sorted a (b - 1),
  sorted (a - 1) (b - 1),
  lb.below a,
  lb.above (b - 1),
  fresh (b - 1),
)

pub Removed-IsSorted :
    {m m' : Mem} {root j : ℕ}
    → Removed m m' root j
    → IsSorted m root (self_size m root)
    → IsSorted m' root (self_size m' root)
Removed-IsSorted {j} t sorted a b ab bn = ground (
  arith,
  t.before a,
  t.before b,
  t.after a,
  t.after b,
  sorted a b,
  sorted a (b + 1),
  sorted (a + 1) (b + 1),
)
