-- ===== src/BTree/Split.antt =====
-- The copies between two nodes that split a node in `btree_grow` and `btree_set`.
use everdb_native.Base.{
  ℕ, zero, suc, ◌+◌, ◌-◌, ◌≤◌, ◌<◌, ◌≡◌, ◌∙◌, ◌&&◌, arith, ltb, leb, if◌then◌else◌, refl, ap,
}
use everdb_native.Memory.{Mem, store32}
use everdb_native.Memory.Laws.{load32-lt, load32-store32_same, load32-store32_other}
use everdb_native.Base.Word.{sub32}
use everdb_native.Core.Words.{Apart, Inside, OnlyBlock, OnlyBlock-trans, store32-OnlyBlock}
use everdb_native.BTree.{
  key, datum, key_at, data_at, magic, self_size, size_at, copy_entry, copy_entries, put_entry,
  split_entries,
}
use everdb_native.BTree.Nodes.{OnlyBlock-SameNode, put_entry-OnlyBlock}
use everdb_native.BTree.Lists.{resize-key, resize-datum, resize-magic}
use everdb_native.BTree.Entries.{put_entry-key, put_entry-datum, put_entry-magic, put_entry-size}

module _ (to from : ℕ) (apart : Apart from to) where
  copy_entry_apart :
      (m : Mem) (i j : ℕ)
      → i < 510
      → j < 510
      → copy_entry m to i from j ≡ put_entry m to i (key m from j) (datum m from j)
  unfolding copy_entry put_entry
  copy_entry_apart m i j hi hj =
      ap (λ v. store32 (store32 m (key_at to i) (key m from j)) (data_at to i) v)
        (load32-store32_other m (key_at to i) (data_at from j) (key m from j) (omega arith))

  -- The entries of `to` from `i` on are those of `from` from `j` on, the others are as they were.
  record Copies (m m' : Mem) (rounds i j : ℕ) : Type 0 where
    magic_kept : magic m' to ≡ magic m to
    size_kept : self_size m' to ≡ self_size m to
    keys :
        (x : ℕ)
        → x < 510
        → key m' to x
          ≡ (if leb i x && ltb x (i + rounds) then key m from (x + j - i) else key m to x)
    values :
        (x : ℕ)
        → x < 510
        → datum m' to x
          ≡ (if leb i x && ltb x (i + rounds) then datum m from (x + j - i) else datum m to x)
    others : OnlyBlock to m m'

  copy_entries-Copies :
      (rounds : ℕ) (m : Mem) (i j : ℕ)
      → i + rounds ≤ 510
      → j + rounds ≤ 510
      → Copies m (copy_entries rounds m to i from j) rounds i j
  unfolding copy_entries
  copy_entries-Copies zero m i j hi hj = record {
    magic_kept = refl;
    size_kept = refl;
    keys = λ x hx. ground arith;
    values = λ x hx. ground arith;
    others = λ p out. refl;
  }
  copy_entries-Copies (suc rounds) m i j hi hj =
      rw (copy_entry_apart m i j (omega arith) (omega arith)) (
        let k = key m from j in
        let v = datum m from j in
        let m₁ = put_entry m to i k v in
        let only = put_entry-OnlyBlock to m i k v (omega arith) in
        let same = OnlyBlock-SameNode m m₁ to from apart only in
        let t = copy_entries-Copies rounds m₁ (i + 1) (j + 1) (omega arith) (omega arith) in
        record {
          magic_kept = t.magic_kept ∙ put_entry-magic m to i k v;
          size_kept = t.size_kept ∙ put_entry-size m to i k v;
          keys = λ x hx. ground (
            arith,
            t.keys x hx,
            put_entry-key m to i k v x,
            same.key_same (x + (j + 1) - (i + 1)),
            load32-lt m (key_at from j),
          );
          values = λ x hx. ground (
            arith,
            t.values x hx,
            put_entry-datum m to i k v x,
            same.datum_same (x + (j + 1) - (i + 1)),
            load32-lt m (data_at from j),
          );
          others = OnlyBlock-trans to m m₁ _ only t.others;
        })

-- The node `x` of `m'` has the magic of the node `root` of `m`, and `len` of its entries, from `first` on.
pub record Slice (m m' : Mem) (root x first len : ℕ) : Type 0 where
  pub magic_same : magic m' x ≡ magic m root
  pub size : self_size m' x ≡ len
  pub keys : (i : ℕ) → i < len → key m' x i ≡ key m root (first + i)
  pub values : (i : ℕ) → i < len → datum m' x i ≡ datum m root (first + i)

-- A byte outside of the two blocks is as it was.
abbrev pub OnlyBlocks : (a b : ℕ) → (m m' : Mem) → Type 0
OnlyBlocks a b m m' = (p : ℕ) → ¬ Inside a p → ¬ Inside b p → m' p ≡ m p

-- `split_entries` leaves the first `n` entries to the node and moves the others to one of its kind.
pub split_entries-Slice :
    (m : Mem) (from to n : ℕ)
    → Apart from to
    → magic m to ≡ magic m from
    → n ≤ self_size m from
    → self_size m from ≤ 510
    → Slice m (split_entries m from to n) from from 0 n
      × Slice m (split_entries m from to n) from to n (self_size m from - n)
      × OnlyBlocks from to m (split_entries m from to n)
unfolding split_entries
split_entries-Slice m from to n apart kind le fits =
    let size = self_size m from in
    let m₁ = copy_entries (size - n) m to 0 from n in
    let t = copy_entries-Copies to from apart (size - n) m 0 n (omega arith) (omega arith) in
    let m₂ = store32 m₁ (size_at to) (sub32 size n) in
    let m₃ = store32 m₂ (size_at from) n in
    let only₂ : OnlyBlock to m₁ m₂ =
      store32-OnlyBlock m₁ to (size_at to) _ (omega arith) (omega arith) in
    let only₃ : OnlyBlock from m₂ m₃ =
      store32-OnlyBlock m₂ from (size_at from) _ (omega arith) (omega arith) in
    let same₂ = OnlyBlock-SameNode m m₂ to from apart (OnlyBlock-trans to m m₁ m₂ t.others only₂) in
    let same₃ = OnlyBlock-SameNode m₂ m₃ from to (omega (arith, apart)) only₃ in
    (
      record {
        magic_same = resize-magic m₂ from n ∙ same₂.magic_same;
        size = load32-store32_same m₂ (size_at from) n ∙ omega arith;
        keys = λ i lt. ground (arith, resize-key m₂ from n i, same₂.key_same i);
        values = λ i lt. ground (arith, resize-datum m₂ from n i, same₂.datum_same i);
      },
      record {
        magic_same = same₃.magic_same ∙ resize-magic m₁ to _ ∙ t.magic_kept ∙ kind;
        size = same₃.size_same ∙ load32-store32_same m₁ (size_at to) _ ∙ omega arith;
        keys = λ i lt.
            same₃.key_same i (omega arith) ∙ resize-key m₁ to _ i ∙ ground (arith, t.keys i);
        values = λ i lt.
            same₃.datum_same i (omega arith) ∙ resize-datum m₁ to _ i ∙ ground (arith, t.values i);
      },
      λ p out_from out_to. only₃ p out_from ∙ only₂ p out_to ∙ t.others p out_to,
    )
