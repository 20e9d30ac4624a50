-- ===== src/BTree/Halves.antt =====
-- The split of a node into itself and a new one, and `btree_grow`'s writes to the memory.
use everdb_native.Base.{
  ℕ, suc, ◌+◌, ◌-◌, ◌/◌, ◌^◌, ◌≤◌, ◌<◌, ◌≡◌, ◌≢◌, ◌∙◌, inl, inr, refl, arith, sym,
}
use mathlib.Core.Path.{subst}
use everdb_native.Memory.{Mem, store32}
use everdb_native.Memory.Laws.{load32-lt, load32-store32_same}
use everdb_native.Core.{Blocks, block_addr}
use everdb_native.Core.Words.{
  Apart, Inside, ne-Apart, OnlyBlock, OnlyBlock-trans, store32-OnlyBlock,
}
use everdb_native.BTree.{datum, magic, magic_node, self_size, init_node, split_entries}
use everdb_native.BTree.Nodes.{SameNode, bytes-SameNode, OnlyBlock-SameNode}
use everdb_native.BTree.Tree.{IsTree}
use everdb_native.BTree.Frame.{InTree, IsSeparate, SameTree}
use everdb_native.BTree.Child.{InTree_small}
use everdb_native.BTree.Split.{Slice, OnlyBlocks, split_entries-Slice}
use everdb_native.BTree.Sliced.{Slice-Sliced}
use everdb_native.BTree.Join.{init_node-OnlyBlock, link_root-OnlyBlock, link_root-Joins}
use everdb_native.BTree.Grown.{Grown, join-Grown}
use everdb_native.BTree.Write.{link_root}

-- A new node `to` of the kind of `from`, before any entry is moved.
abbrev pub fresh_node : Mem → (from to : ℕ) → Mem
fresh_node m from to = store32 (init_node m to) (block_addr to) (magic (init_node m to) from)

pub fresh_node-OnlyBlock : (m : Mem) (from to : ℕ) → OnlyBlock to m (fresh_node m from to)
fresh_node-OnlyBlock m from to =
    OnlyBlock-trans to m _ _ (init_node-OnlyBlock m to)
      (store32-OnlyBlock _ to (block_addr to) _ (omega arith) (omega arith))

-- A slice is one of what the nodes were before and are afterwards.
pub Slice-same :
    (m m₁ m₂ m₃ : Mem) (root x first len : ℕ)
    → SameNode m m₁ root
    → SameNode m₂ m₃ x
    → first + len ≤ 510
    → Slice m₁ m₂ root x first len
    → Slice m m₃ root x first len
Slice-same m m₁ m₂ m₃ root x first len s t fits slice = record {
  magic_same = t.magic_same ∙ slice.magic_same ∙ s.magic_same;
  size = t.size_same ∙ slice.size;
  keys =
      λ i lt. t.key_same i (omega arith) ∙ slice.keys i lt ∙ s.key_same (first + i) (omega arith);
  values = λ i lt.
      t.datum_same i (omega arith) ∙ slice.values i lt ∙ s.datum_same (first + i) (omega arith);
}

-- The node `from` is split at `n`: its later entries go to the new node `to`.
pub split_node-Slice :
    (m : Mem) (from to n : ℕ)
    → Apart from to
    → n ≤ self_size m from
    → self_size m from ≤ 510
    → Slice m (split_entries (fresh_node m from to) from to n) from from 0 n
      × Slice m (split_entries (fresh_node m from to) from to n) from to n (self_size m from - n)
      × OnlyBlocks from to m (split_entries (fresh_node m from to) from to n)
split_node-Slice m from to n apart le fits =
    let m₁ = fresh_node m from to in
    let m₂ = split_entries m₁ from to n in
    let only = fresh_node-OnlyBlock m from to in
    let same = OnlyBlock-SameNode m m₁ to from apart only in
    let init = OnlyBlock-SameNode m (init_node m to) to from apart (init_node-OnlyBlock m to) in
    let kind : magic m₁ to ≡ magic m₁ from =
      load32-store32_same (init_node m to) (block_addr to) _
      ∙ omega
          (arith, load32-lt (init_node m to) (block_addr from), init.magic_same, same.magic_same) in
    let (low, high, others) =
      split_entries-Slice m₁ from to n apart kind (omega (arith, same.size_same))
        (omega (arith, same.size_same)) in
    let here = λ (x : ℕ). bytes-SameNode m₂ m₂ x (λ p inside. refl) in
    (
      Slice-same m m₁ m₂ m₂ from from 0 n same (here from) (omega arith) low,
      Slice-same m m₁ m₂ m₂ from to n (self_size m from - n) same (here to) (omega arith)
          (subst (λ z. Slice m₁ m₂ from to n (z - n)) same.size_same high),
      λ p out_from out_to. others p out_from out_to ∙ only p out_to,
    )

module _ (B : Blocks) (h : ℕ) (m : Mem) (root lo hi a c : ℕ) (t : IsTree (suc h) m root lo hi)
    (s : IsSeparate (suc h) m root) (two : 2 ≤ self_size m root) (a_small : a < 2 ^ 20)
    (c_small : c < 2 ^ 20) (ac : a ≢ c) (new_root : ¬ InTree (suc h) m root a)
    (new_child : ¬ InTree (suc h) m root c) where
  -- The two new nodes, then the split, then the new root.
  abbrev started : Mem
  started = init_node m a

  abbrev half : ℕ
  half = self_size (fresh_node started root c) root / 2

  abbrev divided : Mem
  divided = split_entries (fresh_node started root c) root c half

  abbrev pub halved : Mem
  halved = link_root B a root c divided

  tree-Apart :
      (y b : ℕ) → InTree (suc h) m root y → b < 2 ^ 20 → ¬ InTree (suc h) m root b → Apart y b
  tree-Apart y b e small new =
      ne-Apart y b (InTree_small (suc h) m root y s e) small
        λ r. new (subst (λ z. InTree (suc h) m root z) r e)

  root_a : Apart root a
  root_a = tree-Apart root a (inl refl) a_small new_root

  root_c : Apart root c
  root_c = tree-Apart root c (inl refl) c_small new_child

  c_a : Apart c a
  c_a = ne-Apart c a c_small a_small λ e. ac (sym e)

  same_started : SameNode m started root
  same_started = OnlyBlock-SameNode m started a root root_a (init_node-OnlyBlock m a)

  half_size : half ≡ self_size m root / 2
  half_size =
      let fresh =
        OnlyBlock-SameNode started (fresh_node started root c) c root root_c
          (fresh_node-OnlyBlock started root c) in
      omega (arith, fresh.size_same, same_started.size_same)

  parts :
      Slice started divided root root 0 half
      × Slice started divided root c half (self_size started root - half)
      × OnlyBlocks root c started divided
  parts =
      split_node-Slice started root c half root_c (omega (arith, half_size, same_started.size_same))
        (omega (arith, t.0.fits, same_started.size_same))

  sizes :
      (0 < half)
      × (half < self_size m root)
      × (self_size divided root ≡ half)
      × (self_size divided c ≡ self_size m root - half)
  sizes = omega (arith, half_size, parts.0.size, parts.1.size, same_started.size_same)

  link-OnlyBlock : OnlyBlock a divided halved
  link-OnlyBlock =
      link_root-OnlyBlock B divided a root c root_a c_a
        (InTree_small (suc h) m root root s (inl refl)) c_small (omega (arith, sizes, t.0.fits))
        (omega (arith, sizes, t.0.fits))

  -- Nothing outside of the old root and the two new blocks changes.
  pub halved_outside : (p : ℕ) → ¬ Inside root p → ¬ Inside c p → ¬ Inside a p → halved p ≡ m p
  halved_outside p not_root not_c not_a =
      link-OnlyBlock p not_a ∙ parts.2 p not_root not_c ∙ init_node-OnlyBlock m a p not_a

  under :
      magic m root ≡ magic_node
      → (i : ℕ) → i < self_size m root
      → (¬ InTree h m (datum m root i) root)
        × (¬ InTree h m (datum m root i) c)
        × SameTree h m halved (datum m root i)
  under inner i lt = elim s.1 [
    | inl leaf ↦ absurd (omega arith)
    | inr (filled, apart, distinct) ↦ (
      (apart i lt).1,
      λ e. new_child (inr (inner, (i, lt, e))),
      λ y e. bytes-SameNode m halved y λ p inside.
          let e' : InTree (suc h) m root y = inr (inner, (i, lt, e)) in
          let away_root =
            ne-Apart y root (InTree_small (suc h) m root y s e') s.0
              λ r. (apart i lt).1 (subst (λ z. InTree h m (datum m root i) z) r e) in
          let away_a = tree-Apart y a e' a_small new_root in
          let away_c = tree-Apart y c e' c_small new_child in
          halved_outside p (λ r. omega (arith, away_root, inside, r))
            (λ r. omega (arith, away_c, inside, r)) (λ r. omega (arith, away_a, inside, r)),
    )
  ]

  left-Slice : Slice m halved root root 0 half
  left-Slice =
      Slice-same m started divided halved root root 0 half same_started
        (OnlyBlock-SameNode divided halved a root root_a link-OnlyBlock)
        (omega (arith, sizes, t.0.fits)) parts.0

  right-Slice : Slice m halved root c half (self_size m root - half)
  right-Slice =
      Slice-same m started divided halved root c half (self_size m root - half) same_started
        (OnlyBlock-SameNode divided halved a c c_a link-OnlyBlock) (omega (arith, sizes, t.0.fits))
        (subst (λ z. Slice started divided root c half (z - half)) same_started.size_same parts.1)

  pub halved-Grown : Grown (suc h) m halved root lo hi a c
  halved-Grown =
      join-Grown h m halved root lo hi half a c t s sizes.0 sizes.1
        (Slice-Sliced h m halved root lo hi root 0 half t s left-Slice (omega (arith, sizes))
          sizes.0 s.0 λ inner i lt. let (r, _, same) = under inner i lt in (r, same))
        (Slice-Sliced h m halved root lo hi c half (self_size m root - half) t s right-Slice
          (omega (arith, sizes)) (omega (arith, sizes)) c_small
          λ inner i lt. let (_, r, same) = under inner i lt in (r, same))
        left-Slice right-Slice
        (link_root-Joins B divided a root c root_a c_a
          (InTree_small (suc h) m root root s (inl refl)) c_small (omega (arith, sizes, t.0.fits))
          (omega (arith, sizes, t.0.fits)))
        a_small ac new_root new_child
