-- ===== src/BTree/Entries.antt =====
-- What the loops and routines on the lists of a node do to its entries.
use everdb_native.Base.{
  ℕ, zero, suc, ◌+◌, ◌-◌, ◌^◌, ◌≤◌, ◌<◌, ◌≡◌, ◌⊎◌, ◌∙◌, ◌&&◌, arith, ltb, leb, ◌==◌, if◌then◌else◌,
  refl, ap,
}
use everdb_native.Memory.{Mem, load32, store32}
use everdb_native.Memory.Laws.{load32-lt, load32-store32_same, load32-store32_other}
use everdb_native.Core.{block_addr}
use everdb_native.BTree.{
  key, datum, key_at, data_at, magic, self_size, size_at, copy_entry, put_entry, shift_up,
  shift_down,
}

module _ (m : Mem) (root : ℕ) where
  pub load32-store32 :
      (a b v : ℕ)
      → ((a + 4 ≤ b) ⊎ (b + 4 ≤ a)) ⊎ (a ≡ b)
      → v < 2 ^ 32
      → load32 (store32 m a v) b ≡ (if a == b then v else load32 m b)
  load32-store32 a b v h small =
      ground (arith, load32-store32_same m a v, load32-store32_other m a b v)

  pub put_entry-key :
      (i k v x : ℕ)
      → i < 510
      → x < 510
      → k < 2 ^ 32
      → key (put_entry m root i k v) root x ≡ (if x == i then k else key m root x)
  unfolding put_entry
  put_entry-key i k v x hi hx hk = ground (
    arith,
    load32-store32_other (store32 m (key_at root i) k) (data_at root i) (key_at root x) v,
    load32-store32 (key_at root i) (key_at root x) k,
  )

  pub put_entry-datum :
      (i k v x : ℕ)
      → i < 510
      → x < 510
      → v < 2 ^ 32
      → datum (put_entry m root i k v) root x ≡ (if x == i then v else datum m root x)
  unfolding put_entry
  put_entry-datum i k v x hi hx hv = ground (
    arith,
    load32-store32_same (store32 m (key_at root i) k) (data_at root i) v,
    load32-store32_other (store32 m (key_at root i) k) (data_at root i) (data_at root x) v,
    load32-store32_other m (key_at root i) (data_at root x) k,
  )

  pub put_entry-magic : (i k v : ℕ) → magic (put_entry m root i k v) root ≡ magic m root
  unfolding put_entry
  put_entry-magic i k v = ground (
    arith,
    load32-store32_other (store32 m (key_at root i) k) (data_at root i) (block_addr root) v,
    load32-store32_other m (key_at root i) (block_addr root) k,
  )

  pub put_entry-size : (i k v : ℕ) → self_size (put_entry m root i k v) root ≡ self_size m root
  unfolding put_entry
  put_entry-size i k v = ground (
    arith,
    load32-store32_other (store32 m (key_at root i) k) (data_at root i) (size_at root) v,
    load32-store32_other m (key_at root i) (size_at root) k,
  )

  -- Within a node a copied entry is the entry written with the values of the other.
  pub copy_entry-put_entry :
      (i j : ℕ)
      → i < 510
      → j < 510
      → copy_entry m root i root j ≡ put_entry m root i (key m root j) (datum m root j)
  unfolding copy_entry put_entry
  copy_entry-put_entry i j hi hj =
      ap (λ v. store32 (store32 m (key_at root i) (key m root j)) (data_at root i) v)
        (load32-store32_other m (key_at root i) (data_at root j) (key m root j) (omega arith))

-- Entry `i` of the node in `m'` is entry `j` of the node in `m`.
abbrev pub SameEntry : (m' m : Mem) → (root i j : ℕ) → Type 0
SameEntry m' m root i j = (key m' root i ≡ key m root j) × (datum m' root i ≡ datum m root j)

module _ (m : Mem) (root i j : ℕ) (hi : i < 510) (hj : j < 510) where
  pub copy_entry-entry :
      (x : ℕ) → x < 510 → SameEntry (copy_entry m root i root j) m root x (if x == i then j else x)
  copy_entry-entry x hx = rw (copy_entry-put_entry m root i j hi hj) (
    ground (
      arith,
      put_entry-key m root i (key m root j) (datum m root j) x,
      load32-lt m (key_at root j),
    ),
    ground (
      arith,
      put_entry-datum m root i (key m root j) (datum m root j) x,
      load32-lt m (data_at root j),
    ),
  )

  pub copy_entry-magic : magic (copy_entry m root i root j) root ≡ magic m root
  copy_entry-magic = rw (copy_entry-put_entry m root i j hi hj) (put_entry-magic m root i _ _)

  pub copy_entry-size : self_size (copy_entry m root i root j) root ≡ self_size m root
  copy_entry-size = rw (copy_entry-put_entry m root i j hi hj) (put_entry-size m root i _ _)

-- A loop that keeps the header and moves entry `at x` to `x`.
pub record Moves (m m' : Mem) (root : ℕ) (at : ℕ → ℕ) : Type 0 where
  pub magic_kept : magic m' root ≡ magic m root
  pub size_kept : self_size m' root ≡ self_size m root
  pub entries : (x : ℕ) → x < 510 → SameEntry m' m root x (at x)

-- The entries from `n - rounds` up to `n - 1` move up by one.
pub shift_up-Moves :
    (rounds : ℕ) (m : Mem) (root n : ℕ)
    → rounds ≤ n
    → n < 510
    → Moves m
        (shift_up rounds m root n)
        root
        (λ x. if ltb (n - rounds) x && leb x n then x - 1 else x)
unfolding shift_up
shift_up-Moves zero m root n r h = record {
  magic_kept = refl;
  size_kept = refl;
  entries = λ x hx. ground arith;
}
shift_up-Moves (suc rounds) m root n r h =
    let m₁ = copy_entry m root n root (n - 1) in
    let t = shift_up-Moves rounds m₁ root (n - 1) (omega arith) (omega arith) in
    record {
      magic_kept = t.magic_kept ∙ copy_entry-magic m root n (n - 1) h (omega arith);
      size_kept = t.size_kept ∙ copy_entry-size m root n (n - 1) h (omega arith);
      entries = λ x hx. ground (
        arith,
        t.entries x hx,
        copy_entry-entry m root n (n - 1) h (omega arith) x,
        copy_entry-entry m root n (n - 1) h (omega arith) (x - 1),
      );
    }

-- The entries above `j` move down by one.
pub shift_down-Moves :
    (rounds : ℕ) (m : Mem) (root j : ℕ)
    → j + rounds < 510
    → Moves m
        (shift_down rounds m root j)
        root
        (λ x. if leb j x && ltb x (j + rounds) then x + 1 else x)
unfolding shift_down
shift_down-Moves zero m root j h = record {
  magic_kept = refl;
  size_kept = refl;
  entries = λ x hx. ground arith;
}
shift_down-Moves (suc rounds) m root j h =
    let m₁ = copy_entry m root j root (j + 1) in
    let t = shift_down-Moves rounds m₁ root (j + 1) (omega arith) in
    record {
      magic_kept = t.magic_kept ∙ copy_entry-magic m root j (j + 1) (omega arith) (omega arith);
      size_kept = t.size_kept ∙ copy_entry-size m root j (j + 1) (omega arith) (omega arith);
      entries = λ x hx. ground (
        arith,
        t.entries x hx,
        copy_entry-entry m root j (j + 1) (omega arith) (omega arith) x,
        copy_entry-entry m root j (j + 1) (omega arith) (omega arith) (x + 1),
      );
    }
