-- ===== src/BTree/Remove.antt =====
-- `btree_pop` and then `btree_get`, in a tree of any height whose leaves are not small.
use everdb_native.Base.{
  ℕ, zero, suc, none, ◌-◌, ◌^◌, ◌≤◌, ◌<◌, ◌≡◌, ◌≢◌, ◌∙◌, inl, inr, refl, arith, sym, ltb, false, ap,
}
use everdb_native.Memory.{Mem}
use everdb_native.Core.{Db, OnlyMem, Blocks, IsWritable, read32, write32}
use everdb_native.BTree.{
  key, datum, magic, magic_leaf, magic_node, self_size, list_find, err_invalid_key,
}
use everdb_native.BTree.Find.{list_find-IsLowerBound}
use everdb_native.BTree.Tree.{IsNode, IsTree, Member, Member-bounds, least, btree_get-Answers}
use everdb_native.BTree.Nodes.{OnlyBlock-SameNode}
use everdb_native.BTree.Frame.{InTree, IsSeparate}
use everdb_native.BTree.Graft.{Put}
use everdb_native.BTree.Erase.{Erased-Put, btree_pop-Erased}
use everdb_native.BTree.Answer.{miss_of, same_answer}
use everdb_native.BTree.Read.{miss, btree_get}
use everdb_native.BTree.Write.{update_key}
use everdb_native.BTree.Pop.{Popped, popped, node_pop, btree_pop}
use everdb_native.BTree.Child.{OnlyTree, Chosen, InTree_root}
use everdb_native.BTree.Descend.{
  linked, linked_frame, linked-OnlyBlock, tree-Apart, rewritten, rewritten-Put, rewritten-OnlyTree,
}
use everdb_native.Run.Returns
use everdb_native.Run.Returns.{Returns, returns}

-- Every leaf of the tree has more entries than EDB_BTREE_SPLIT.
abbrev pub HasSpare : ℕ → Mem → (root : ℕ) → Type 0
HasSpare h m root = (x : ℕ) → InTree h m root x → magic m x ≡ magic_leaf → 127 < self_size m x

-- What `btree_pop` promises.
abbrev pub PopsFrom : (h : ℕ) (db : Db) (root lo hi k v : ℕ) → Popped → Db → Type 0
PopsFrom h db root lo hi k v r db' =
    (r ≡ popped 0 v)
    × OnlyMem db db'
    × Put h db.mem db'.mem root lo hi k none
    × OnlyTree h db.mem db'.mem root

-- The child that a key of the tree is under is the one that the search finds.
present-Chosen :
    (h : ℕ) (m : Mem) (root lo hi k v i : ℕ)
    → IsNode m root
    → ((j : ℕ) → j < self_size m root → (lo ≤ key m root j) × (key m root j ≤ hi))
    → i < self_size m root
    → IsTree h m (datum m root i) (least m root lo i) (key m root i)
    → Member h m (datum m root i) k v
    → (list_find m root k ≡ i) × Chosen m root lo hi k i (key m root i)
present-Chosen h m root lo hi k v i node range lt child e =
    let bounds =
      Member-bounds h m (datum m root i) (least m root lo i) (key m root i) k v child e in
    let lb = list_find-IsLowerBound m root k node.sorted in
    (
      ground (
        arith,
        bounds,
        lb.below i,
        lb.above (i - 1),
        lb.within,
        lb.below (i - 1),
        lb.above (list_find m root k),
        node.sorted (list_find m root k) (i - 1),
      ),
      record {
        bn = lt;
        above = omega arith;
        below = (range i lt).1;
        next = λ more. omega arith;
        low = bounds.0;
        high = bounds.1;
      },
    )

btree_pop-node :
    (B : Blocks) (h : ℕ) (db : Db) (root k : ℕ)
    → magic db.mem root ≡ magic_node
    → btree_pop B (suc h) root k db ≡ node_pop B (btree_pop B h) root (list_find db.mem root k) k db
unfolding btree_pop
btree_pop-node B h db root k inner = rw inner

-- The internal case, where the key is under child `b`.
module _ (B : Blocks) (h : ℕ) (db : Db) (root lo hi k b ch : ℕ) (node : IsNode db.mem root)
    (range : (i : ℕ)
      → i < self_size db.mem root
      → (lo ≤ key db.mem root i) × (key db.mem root i ≤ hi))
    (inner : magic db.mem root ≡ magic_node)
    (children : (i : ℕ)
      → i < self_size db.mem root
      → IsTree h db.mem (datum db.mem root i) (least db.mem root lo i) (key db.mem root i))
    (small : root < 2 ^ 20)
    (apart : (i : ℕ)
      → i < self_size db.mem root
      → IsSeparate h db.mem (datum db.mem root i) × (¬ InTree h db.mem (datum db.mem root i) root))
    (distinct : (i j x : ℕ)
      → i < j
      → j < self_size db.mem root
      → InTree h db.mem (datum db.mem root i) x
      → ¬ InTree h db.mem (datum db.mem root j) x)
    (chosen : Chosen db.mem root lo hi k b ch) where
  abbrev linked_db : Db
  linked_db = record db {
    mem = linked B h db root lo hi k b ch node range inner children small apart distinct chosen;
  }

  node_pop-PopsFrom :
      (v : ℕ)
      → k ≤ key db.mem root b
      → IsWritable B db (datum db.mem root b)
      → Returns
          (PopsFrom h linked_db (datum db.mem root b) (least db.mem root lo b) ch k v)
          (btree_pop B h (datum db.mem root b) k linked_db)
      → Returns (PopsFrom (suc h) db root lo hi k v) (node_pop B (btree_pop B h) root b k db)
  unfolding node_pop update_key read32 write32
  node_pop-PopsFrom v le own ih =
      let within : ltb (key db.mem root b) k ≡ false = ground arith in
      rw (within, own db refl)
        (Returns.bind ih λ r d₂ (same, only, put, outside). rw same (
          returns (
            refl,
            ap
                (λ (d : Db). record d {
                  mem =
                      rewritten B h db root lo hi k b ch node range inner children small apart
                        distinct chosen none d₂.mem put outside;
                })
                only,
            rewritten-Put B h db root lo hi k b ch node range inner children small apart distinct
                chosen none d₂.mem put outside,
            rewritten-OnlyTree B h db root lo hi k b ch node range inner children small apart
                distinct chosen none d₂.mem put outside,
          )))

-- In a well-formed tree of at most `h` levels, none of whose blocks occurs twice, whose leaves have more
-- entries than EDB_BTREE_SPLIT, and whose blocks are the transaction's own, `btree_pop` of a key that the
-- tree has succeeds with the key's value. The result is such a tree in the same blocks, without the key and
-- with all other entries as they were; nothing outside of the tree's blocks changes.
pub btree_pop-PopsFrom :
    (B : Blocks) (h : ℕ) (db : Db) (root lo hi k v : ℕ)
    → IsTree h db.mem root lo hi
    → IsSeparate h db.mem root
    → HasSpare h db.mem root
    → ((x : ℕ) → InTree h db.mem root x → IsWritable B db x)
    → Member h db.mem root k v
    → Returns (PopsFrom h db root lo hi k v) (btree_pop B h root k db)
btree_pop-PopsFrom B zero db root lo hi k v t s spare own e = absurd t
btree_pop-PopsFrom B (suc h) db root lo hi k v (node, range, inl leaf) (small, s) spare own
      (inr (inner, q)) =
    absurd (omega arith)
btree_pop-PopsFrom B (suc h) db root lo hi k v (node, range, inl leaf) (small, s) spare own
      (inl (_, entry)) =
    Returns.mono (btree_pop-Erased B h db root k (record { node = node; leaf = leaf }) v entry)
      λ r db' (only, same, u).
        let enough : ltb (self_size db'.mem root) 127 ≡ false =
          ground (arith, u.size, spare root (inl refl) leaf) in
        (
          rw enough at same,
          only,
          Erased-Put h db.mem db'.mem root lo hi k (node, range, inl leaf) small leaf
              (spare root (inl refl) leaf) u,
          λ p out. u.others p (out root (inl refl)),
        )
btree_pop-PopsFrom B (suc h) db root lo hi k v (node, range, inr (inner, children)) s spare own
      (inl (leaf, q)) =
    absurd (omega arith)
btree_pop-PopsFrom B (suc h) db root lo hi k v (node, range, inr (inner, children))
      (small, inl leaf) spare own e =
    absurd (omega arith)
btree_pop-PopsFrom B (suc h) db root lo hi k v (node, range, inr (inner, children))
      (small, inr (filled, apart, distinct)) spare own (inr (_, (c, lt, e))) =
    let m = db.mem in
    let ch = key m root c in
    let (at, chosen) = present-Chosen h m root lo hi k v c node range lt (children c lt) e in
    let child = datum m root c in
    let m₁ =
      linked B h db root lo hi k c ch node range inner children small apart distinct chosen in
    let f =
      linked_frame B h db root lo hi k c ch node range inner children small apart distinct chosen in
    let inside : (x : ℕ) → InTree h m child x → InTree (suc h) m root x =
      λ x q. inr (inner, (c, lt, q)) in
    rw (btree_pop-node B h db root k inner, at)
      (node_pop-PopsFrom B h db root lo hi k c ch node range inner children small apart distinct
        chosen v chosen.high
        (own child (
          inside child
            ((InTree_root h m child (least m root lo c) (key m root c) (children c lt)).0)))
        (btree_pop-PopsFrom B h (record db { mem = m₁ }) child (least m root lo c) ch k v f.tree
          (f.separate (apart c lt).0)
          (λ x q leaf.
            let w =
              OnlyBlock-SameNode m m₁ root x
                (tree-Apart B h db root lo hi k c ch node range inner children small apart distinct
                  chosen c x lt (f.blocks x q))
                (linked-OnlyBlock B h db root lo hi k c ch node range inner children small apart
                  distinct chosen) in
            omega (arith, spare x (inside x (f.blocks x q)) (sym w.magic_same ∙ leaf), w.size_same))
          (λ x q. own x (inside x (f.blocks x q))) (f.member k v e)))

-- Under the conditions of `btree_pop-PopsFrom` (a well-formed tree of at most `h` levels, no block twice,
-- leaves of more entries than EDB_BTREE_SPLIT, blocks that are the transaction's own, and a key that the
-- tree has), `btree_pop` succeeds with the key's value; then `btree_get` misses the key, and gives for every
-- other key what it gave before.
pub btree_get-btree_pop :
    (B : Blocks) (h : ℕ) (db : Db) (root lo hi k v : ℕ)
    → IsTree h db.mem root lo hi
    → IsSeparate h db.mem root
    → HasSpare h db.mem root
    → ((x : ℕ) → InTree h db.mem root x → IsWritable B db x)
    → Member h db.mem root k v
    → Returns
        (λ r db'.
          (r ≡ popped 0 v)
          × (btree_get h db'.mem root k ≡ miss err_invalid_key)
          × ((q : ℕ) → q ≢ k → btree_get h db'.mem root q ≡ btree_get h db.mem root q))
        (btree_pop B h root k db)
btree_get-btree_pop B h db root lo hi k v t s spare own e =
    Returns.mono (btree_pop-PopsFrom B h db root lo hi k v t s spare own e)
      λ r db' (same, only, put, outside). (
        same,
        miss_of h db'.mem root lo hi k put.tree _
            (btree_get-Answers h db'.mem root lo hi k put.tree) (put.gone refl),
        λ q ne.
            same_answer h db.mem db'.mem root lo hi k none q _ put ne
              (btree_get-Answers h db.mem root lo hi q t),
      )
