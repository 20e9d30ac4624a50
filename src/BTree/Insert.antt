-- ===== src/BTree/Insert.antt =====
-- `btree_set` and then `btree_get`, in a tree of any height whose leaves have room.
use everdb_native.Base.{
  ℕ, some, zero, suc, ◌^◌, ◌≤◌, ◌<◌, ◌≡◌, ◌≢◌, ◌∙◌, inl, inr, refl, arith, sym,
}
use everdb_native.Core.{Db, Blocks, IsWritable}
use everdb_native.BTree.{key, datum, list_find}
use everdb_native.BTree.Find.{list_find-IsLowerBound}
use everdb_native.BTree.Tree.{IsTree, least, btree_get-Answers}
use everdb_native.BTree.Nodes.{OnlyBlock-SameNode}
use everdb_native.BTree.Frame.{InTree, IsSeparate}
use everdb_native.BTree.Graft.{IsTree-mono}
use everdb_native.BTree.Leaf.{btree_set-Updated}
use everdb_native.BTree.Answer.{hit_of, same_answer}
use everdb_native.BTree.Read.{hit, btree_get}
use everdb_native.BTree.Write.{btree_set}
use everdb_native.BTree.Child.{HasRoom, SetsIn, choose, Updated-Put, btree_set-node, InTree_root}
use everdb_native.BTree.Descend.{
  node_set-SetsIn, linked, linked_frame, linked-OnlyBlock, tree-Apart,
}
use everdb_native.Run.Returns
use everdb_native.Run.Returns.{Returns, returns}

-- In a well-formed tree of at most `h` levels, none of whose blocks occurs twice and none of whose
-- leaves is full, and whose blocks are the transaction's own, `btree_set` of a u32 key and value within
-- the tree's bounds succeeds. The result is such a tree in the same blocks, with the value under the key
-- and all other entries as they were; nothing outside of the tree's blocks changes.
pub btree_set-SetsIn :
    (B : Blocks) (h : ℕ) (db : Db) (root lo hi k v : ℕ)
    → IsTree h db.mem root lo hi
    → IsSeparate h db.mem root
    → HasRoom h db.mem root
    → ((x : ℕ) → InTree h db.mem root x → IsWritable B db x)
    → lo ≤ k
    → k ≤ hi
    → k < 2 ^ 32
    → v < 2 ^ 32
    → Returns (λ _ db'. SetsIn h db root lo hi k v db') (btree_set B h root k v db)
btree_set-SetsIn B zero db root lo hi k v t s room own kl kh hk hv = absurd t
btree_set-SetsIn B (suc h) db root lo hi k v (node, range, inl leaf) (small, s) room own kl kh hk
      hv =
    Returns.mono
      (btree_set-Updated B h db root k (record { node = node; leaf = leaf }) v
        (room root (inl refl) leaf) hk hv)
      λ _ db' (only, u). (
        only,
        Updated-Put h db.mem db'.mem root lo hi k v (node, range, inl leaf) small leaf kl kh u,
        λ p out. u.others p (out root (inl refl)),
      )
btree_set-SetsIn B (suc h) db root lo hi k v (node, range, inr (inner, children)) (small, inl leaf)
      room own kl kh hk hv =
    absurd (omega arith)
btree_set-SetsIn B (suc h) db root lo hi k v (node, range, inr (inner, children))
      (small, inr (filled, apart, distinct)) room own kl kh hk hv =
    let m = db.mem in
    let (c, ch, at, chosen) =
      choose m root lo hi k (list_find m root k) node range filled kl kh
        (list_find-IsLowerBound m root k node.sorted) in
    let child = datum m root c in
    let m₁ =
      linked B h db root lo hi k c ch node range inner children small apart distinct chosen in
    let f =
      linked_frame B h db root lo hi k c ch node range inner children small apart distinct chosen in
    let inside : (x : ℕ) → InTree h m child x → InTree (suc h) m root x =
      λ x e. inr (inner, (c, chosen.bn, e)) in
    rw (btree_set-node B h db root inner filled k v, at)
      (node_set-SetsIn B h db root lo hi k c ch node range inner children small apart distinct
        chosen v
        (own child (
          inside child
            ((InTree_root h m child (least m root lo c) (key m root c) (children c chosen.bn)).0)))
        (btree_set-SetsIn B h (record db { mem = m₁ }) child (least m root lo c) ch k v
          (IsTree-mono h m₁ child (least m root lo c) (key m root c) (least m root lo c) ch f.tree
            (omega arith) chosen.above)
          (f.separate (apart c chosen.bn).0)
          (λ x e leaf.
            let w =
              OnlyBlock-SameNode m m₁ root x
                (tree-Apart B h db root lo hi k c ch node range inner children small apart distinct
                  chosen c x chosen.bn (f.blocks x e))
                (linked-OnlyBlock B h db root lo hi k c ch node range inner children small apart
                  distinct chosen) in
            omega (arith, room x (inside x (f.blocks x e)) (sym w.magic_same ∙ leaf), w.size_same))
          (λ x e. own x (inside x (f.blocks x e))) chosen.low chosen.high hk hv))

-- Under the conditions of `btree_set-SetsIn` (a well-formed tree of at most `h` levels, no block twice, no
-- full leaf, blocks that are the transaction's own, a u32 key within the tree's bounds and a u32 value),
-- `btree_set` succeeds; then `btree_get` gives the new value for its key, and for every other key what it
-- gave before.
pub btree_get-btree_set :
    (B : Blocks) (h : ℕ) (db : Db) (root lo hi k v : ℕ)
    → IsTree h db.mem root lo hi
    → IsSeparate h db.mem root
    → HasRoom h db.mem root
    → ((x : ℕ) → InTree h db.mem root x → IsWritable B db x)
    → lo ≤ k
    → k ≤ hi
    → k < 2 ^ 32
    → v < 2 ^ 32
    → Returns
        (λ _ db'.
          (btree_get h db'.mem root k ≡ hit k v)
          × ((q : ℕ) → q ≢ k → btree_get h db'.mem root q ≡ btree_get h db.mem root q))
        (btree_set B h root k v db)
btree_get-btree_set B h db root lo hi k v t s room own kl kh hk hv =
    Returns.mono (btree_set-SetsIn B h db root lo hi k v t s room own kl kh hk hv)
      λ _ db' (only, put, outside). (
        hit_of h db'.mem root lo hi k put.tree v _
            (btree_get-Answers h db'.mem root lo hi k put.tree) (put.new v refl),
        λ q ne.
            same_answer h db.mem db'.mem root lo hi k (some v) q _ put ne
              (btree_get-Answers h db.mem root lo hi q t),
      )
