-- ===== src/BTree/Join.antt =====
-- `btree_grow`: the new root over two nodes.
use everdb_native.Base.{ℕ, ◌^◌, ◌≤◌, ◌<◌, ◌≡◌, ◌∙◌, arith, sym}
use everdb_native.Memory.{Mem, store32, memset}
use everdb_native.Memory.Laws.{load32-lt, load32-store32_same}
use everdb_native.Core.{Blocks, block_addr}
use everdb_native.Core.Words.{Apart, OnlyBlock, OnlyBlock-trans, store32-OnlyBlock}
use everdb_native.BTree.{
  key, datum, magic, magic_node, self_size, size_at, last_key, init_node, put_entry,
}
use everdb_native.BTree.Nodes.{OnlyBlock-SameNode, put_entry-OnlyBlock}
use everdb_native.BTree.Entries.{put_entry-key, put_entry-datum, put_entry-magic}
use everdb_native.BTree.Lists.{resize-key, resize-datum, resize-magic}
use everdb_native.BTree.Child.{last_key_same}
use everdb_native.BTree.Write.{link_root}

pub init_node-OnlyBlock : (m : Mem) (x : ℕ) → OnlyBlock x m (init_node m x)
unfolding init_node memset
init_node-OnlyBlock m x =
    OnlyBlock-trans x m _ _ (λ p out. ground arith)
      (OnlyBlock-trans x _ _ _ (store32-OnlyBlock _ x (block_addr x) _ (omega arith) (omega arith))
        (store32-OnlyBlock _ x (size_at x) _ (omega arith) (omega arith)))

-- The node `x` of `m` is internal, over the nodes `left` and `right`, with their last keys.
pub record Joins (m : Mem) (x left right : ℕ) : Type 0 where
  pub inner : magic m x ≡ magic_node
  pub size : self_size m x ≡ 2
  pub keys : (key m x 0 ≡ last_key m left) × (key m x 1 ≡ last_key m right)
  pub children : (datum m x 0 ≡ left) × (datum m x 1 ≡ right)

module _ (B : Blocks) (m : Mem) (x left right : ℕ) (apart_left : Apart left x)
    (apart_right : Apart right x) (left_small : left < 2 ^ 20) (right_small : right < 2 ^ 20)
    (left_fits : (0 < self_size m left) × (self_size m left ≤ 510))
    (right_fits : (0 < self_size m right) × (self_size m right ≤ 510)) where
  pub link_root-OnlyBlock : OnlyBlock x m (link_root B x left right m)
  unfolding link_root
  link_root-OnlyBlock =
      OnlyBlock-trans x m _ _
        (store32-OnlyBlock m x (block_addr x) magic_node (omega arith) (omega arith))
        (OnlyBlock-trans x _ _ _ (put_entry-OnlyBlock x _ 0 _ _ (omega arith)) (
          OnlyBlock-trans x _ _ _ (put_entry-OnlyBlock x _ 1 _ _ (omega arith))
            (store32-OnlyBlock _ x (size_at x) 2 (omega arith) (omega arith))))

  pub link_root-Joins : Joins (link_root B x left right m) x left right
  unfolding link_root
  link_root-Joins =
      let m₁ = store32 m (block_addr x) magic_node in
      let m₂ = put_entry m₁ x 0 (last_key m₁ left) left in
      let m₃ = put_entry m₂ x 1 (last_key m₂ right) right in
      let m₄ = store32 m₃ (size_at x) 2 in
      let only₁ : OnlyBlock x m m₁ =
        store32-OnlyBlock m x (block_addr x) magic_node (omega arith) (omega arith) in
      let only₂ : OnlyBlock x m m₂ =
        OnlyBlock-trans x m m₁ m₂ only₁ (put_entry-OnlyBlock x m₁ 0 _ left (omega arith)) in
      let only₄ : OnlyBlock x m m₄ = link_root-OnlyBlock in
      let same : (m' : Mem) (y : ℕ)
          → Apart y x
          → (0 < self_size m y) × (self_size m y ≤ 510)
          → OnlyBlock x m m'
          → last_key m' y ≡ last_key m y =
        λ m' y apart fits only.
          last_key_same m m' y (OnlyBlock-SameNode m m' x y apart only) fits.0 fits.1 in
      let left₁ = same m₁ left apart_left left_fits only₁ in
      let right₂ = same m₂ right apart_right right_fits only₂ in
      let left₄ = same m₄ left apart_left left_fits only₄ in
      let right₄ = same m₄ right apart_right right_fits only₄ in
      let low : last_key m₁ left < 2 ^ 32 = load32-lt m₁ _ in
      let high : last_key m₂ right < 2 ^ 32 = load32-lt m₂ _ in
      record {
        inner =
            resize-magic m₃ x 2
            ∙ put_entry-magic m₂ x 1 _ _
            ∙ put_entry-magic m₁ x 0 _ _
            ∙ load32-store32_same m (block_addr x) magic_node
            ∙ omega arith;
        size = load32-store32_same m₃ (size_at x) 2 ∙ omega arith;
        keys = (
          resize-key m₃ x 2 0
              ∙ put_entry-key m₂ x 1 _ right 0 (omega arith) (omega arith) high
              ∙ put_entry-key m₁ x 0 _ left 0 (omega arith) (omega arith) low
              ∙ left₁
              ∙ sym left₄,
          resize-key m₃ x 2 1
              ∙ put_entry-key m₂ x 1 _ right 1 (omega arith) (omega arith) high
              ∙ right₂
              ∙ sym right₄,
        );
        children = (
          resize-datum m₃ x 2 0
              ∙ put_entry-datum m₂ x 1 _ right 0 (omega arith) (omega arith) (omega arith)
              ∙ put_entry-datum m₁ x 0 _ left 0 (omega arith) (omega arith) (omega arith),
          resize-datum m₃ x 2 1
              ∙ put_entry-datum m₂ x 1 _ right 1 (omega arith) (omega arith) (omega arith),
        );
      }
