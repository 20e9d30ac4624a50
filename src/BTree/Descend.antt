-- ===== src/BTree/Descend.antt =====
-- The internal case of `btree_set`: the write of a child seen from its parent.
use everdb_native.Base.{
  ℕ, suc, Option, some, ◌^◌, ◌≤◌, ◌<◌, ◌≡◌, ◌≢◌, ◌∙◌, inl, inr, refl, arith, ltb, ap, Bool-cases,
}
use mathlib.Core.Path.{subst}
use everdb_native.Memory.{Mem, store32}
use everdb_native.Core.{Db, Blocks, IsWritable, read32, write32}
use everdb_native.Core.Words.{Apart, Inside, ne-Apart, OnlyBlock, store32-OnlyBlock}
use everdb_native.BTree.{key, datum, magic, magic_node, self_size, last_key, key_at, data_at}
use everdb_native.BTree.Nodes.{SameNode, bytes-SameNode, OnlyBlock-SameNode}
use everdb_native.BTree.Tree.{IsNode, IsTree, least}
use everdb_native.BTree.Frame.{InTree, IsSeparate, SameTree, Framed, frame}
use everdb_native.BTree.Graft.{Put, graft-Put}
use everdb_native.BTree.Write.{update_key, node_set, btree_set}
use everdb_native.Run.Returns
use everdb_native.Run.Returns.{Returns, returns}
use everdb_native.BTree.Child.{
  OnlyTree, InTree_small, link_same, SameNode-trans, update_key-Rekeyed, Put-framed, SetsIn, Chosen,
  InTree_root,
}

-- The internal case, where child `b` has been chosen.
module _ (B : Blocks) (h : ℕ) (db : Db) (root lo hi k b ch : ℕ) (node : IsNode db.mem root)
    (range : (i : ℕ)
      → i < self_size db.mem root
      → (lo ≤ key db.mem root i) × (key db.mem root i ≤ hi))
    (inner : magic db.mem root ≡ magic_node)
    (children : (i : ℕ)
      → i < self_size db.mem root
      → IsTree h db.mem (datum db.mem root i) (least db.mem root lo i) (key db.mem root i))
    (small : root < 2 ^ 20)
    (apart : (i : ℕ)
      → i < self_size db.mem root
      → IsSeparate h db.mem (datum db.mem root i) × (¬ InTree h db.mem (datum db.mem root i) root))
    (distinct : (i j x : ℕ)
      → i < j
      → j < self_size db.mem root
      → InTree h db.mem (datum db.mem root i) x
      → ¬ InTree h db.mem (datum db.mem root j) x)
    (chosen : Chosen db.mem root lo hi k b ch) where
  -- The memory in which the child is written to.
  abbrev pub linked : Mem
  linked = store32 db.mem (data_at root b) (datum db.mem root b)

  slot : b < 510
  slot = omega (arith, chosen.bn, node.fits)

  pub linked-OnlyBlock : OnlyBlock root db.mem linked
  linked-OnlyBlock =
      let h = slot in store32-OnlyBlock db.mem root (data_at root b) _ (omega arith) (omega arith)

  pub tree-Apart :
      (i x : ℕ) → i < self_size db.mem root → InTree h db.mem (datum db.mem root i) x → Apart x root
  tree-Apart i x lt e =
      ne-Apart x root (InTree_small h db.mem (datum db.mem root i) x (apart i lt).0 e) small
        λ r. (apart i lt).1 (subst (λ y. InTree h db.mem (datum db.mem root i) y) r e)

  pub linked_frame :
      Framed h db.mem linked (datum db.mem root b) (least db.mem root lo b) (key db.mem root b)
  linked_frame =
      frame h db.mem linked (datum db.mem root b) (least db.mem root lo b) (key db.mem root b)
        (children b chosen.bn)
        λ x e. OnlyBlock-SameNode db.mem linked root x (tree-Apart b x chosen.bn e) linked-OnlyBlock

  distinct-Apart :
      (i x y : ℕ)
      → i < self_size db.mem root
      → i ≢ b
      → InTree h db.mem (datum db.mem root i) x
      → InTree h db.mem (datum db.mem root b) y
      → Apart x y
  distinct-Apart i x y lt ne ex ey =
      ne-Apart x y (InTree_small h db.mem (datum db.mem root i) x (apart i lt).0 ex)
        (InTree_small h db.mem (datum db.mem root b) y (apart b chosen.bn).0 ey)
        λ r.
          let ex' = subst (λ z. InTree h db.mem (datum db.mem root i) z) r ex in
          elim (Bool-cases (ltb i b)) [
            | inl less ↦ distinct i b y (ground arith) chosen.bn ex' ey
            | inr more ↦ distinct b i y (ground arith) lt ey ex'
          ]

  module _ (o : Option ℕ) (m₂ : Mem)
      (put : Put h linked m₂ (datum db.mem root b) (least db.mem root lo b) ch k o)
      (outside : OnlyTree h linked m₂ (datum db.mem root b)) where
    abbrev pub rewritten : Mem
    rewritten = store32 m₂ (key_at root b) (last_key m₂ (datum db.mem root b))

    rewritten-OnlyBlock : OnlyBlock root m₂ rewritten
    rewritten-OnlyBlock =
        let h = slot in store32-OnlyBlock m₂ root (key_at root b) _ (omega arith) (omega arith)

    -- A byte outside of the root and of the child's tree is as it was.
    untouched :
        (p : ℕ)
        → ¬ Inside root p
        → ((y : ℕ) → InTree h db.mem (datum db.mem root b) y → ¬ Inside y p)
        → rewritten p ≡ db.mem p
    untouched p not_root not_child =
        rewritten-OnlyBlock p not_root
        ∙ outside p (λ y e. not_child y (linked_frame.blocks y e))
        ∙ linked-OnlyBlock p not_root

    same_child : SameTree h m₂ rewritten (datum db.mem root b)
    same_child x e =
        OnlyBlock-SameNode m₂ rewritten root x
          (tree-Apart b x chosen.bn (linked_frame.blocks x (put.blocks x e))) rewritten-OnlyBlock

    same_root : SameNode db.mem m₂ root
    same_root = SameNode-trans db.mem linked m₂ root (link_same db.mem root b slot) (
        bytes-SameNode linked m₂ root λ p inside. outside p λ y e in_y.
          let a = tree-Apart b y chosen.bn (linked_frame.blocks y e) in
          omega (arith, a, inside, in_y))

    pub rewritten-Put : Put (suc h) db.mem rewritten root lo hi k o
    rewritten-Put =
        let child = datum db.mem root b in
        let top =
          same_child child (InTree_root h m₂ child (least db.mem root lo b) ch put.tree).0 in
        graft-Put h db.mem rewritten root lo hi k o b ch node range inner children chosen.bn
          (Put-framed h db.mem linked m₂ rewritten child (least db.mem root lo b) ch
            (least db.mem root lo b) (key db.mem root b) k o linked_frame put same_child top)
          (update_key-Rekeyed db.mem m₂ root b slot same_root top put.filled
            (InTree_root h m₂ child (least db.mem root lo b) ch put.tree).1)
          chosen.above chosen.below chosen.next chosen.low chosen.high
          (λ i lt ne x e. bytes-SameNode db.mem rewritten x λ p inside.
            untouched p (λ r. let a = tree-Apart i x lt e in omega (arith, a, inside, r))
              (λ y ey in_y.
                let a = distinct-Apart i x y lt ne e ey in omega (arith, a, inside, in_y)))
          small apart distinct

    pub rewritten-OnlyTree : OnlyTree (suc h) db.mem rewritten root
    rewritten-OnlyTree p out =
        untouched p (out root (inl refl)) λ y e. out y (inr (inner, (b, chosen.bn, e)))

  pub node_set-SetsIn :
      (v : ℕ)
      → IsWritable B db (datum db.mem root b)
      → Returns
          (λ _ db'.
            SetsIn h
              (record db { mem = linked })
              (datum db.mem root b)
              (least db.mem root lo b)
              ch
              k
              v
              db')
          (btree_set B h (datum db.mem root b) k v (record db { mem = linked }))
      → Returns
          (λ _ db'. SetsIn (suc h) db root lo hi k v db')
          (node_set B (btree_set B h) root b k v db)
  unfolding node_set update_key read32 write32
  node_set-SetsIn v own ih = rw (own db refl) (
      Returns.handled _ ih λ _ d₂ (only, put, outside). returns (
        ap (λ (d : Db). record d { mem = rewritten (some v) d₂.mem put outside }) only,
        rewritten-Put (some v) d₂.mem put outside,
        rewritten-OnlyTree (some v) d₂.mem put outside,
      ))
