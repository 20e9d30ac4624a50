-- ===== src/BTree/Leaf.antt =====
-- `btree_set` on a leaf, as a write to a finite map.
use everdb_native.Base.{
  ℕ, suc, ◌+◌, ◌-◌, ◌^◌, ◌≤◌, ◌<◌, ◌≡◌, ◌≢◌, ◌∙◌, inl, inr, true, false, arith, ltb, ◌==◌, ◌&&◌,
  if◌then◌else◌, Bool-cases, refl,
}
use everdb_native.Memory.{Mem, store32}
use everdb_native.Memory.Laws.{load32-store32_same, load32-store32_other}
use everdb_native.Core.Words.{OnlyBlock, store32-OnlyBlock}
use everdb_native.BTree.Nodes.{list_insert-OnlyBlock}
use everdb_native.Core.{Db, OnlyMem, Blocks, block_addr, write32}
use everdb_native.BTree.{
  key, datum, magic, magic_leaf, self_size, size_at, key_at, data_at, list_find, err_full,
  btree_size,
}
use everdb_native.BTree.Find.{IsLowerBound, list_find-IsLowerBound}
use everdb_native.BTree.Lists.{Inserted, list_insert-Inserted, Inserted-IsSorted}
use everdb_native.BTree.Tree.{IsNode}
use everdb_native.BTree.Write.{leaf_set, btree_set}
use everdb_native.Run.{fail}
use everdb_native.Run.Returns.{Returns, returns}

pub record IsLeaf (m : Mem) (root : ℕ) : Type 0 where
  pub node : IsNode m root
  pub leaf : magic m root ≡ magic_leaf

-- Entry `i` of the leaf is (k, v).
abbrev pub Entry : Mem → (root k v : ℕ) → Type 0
Entry m root k v = (i : ℕ) × (i < self_size m root) × (key m root i ≡ k) × (datum m root i ≡ v)

-- `m'` has the leaf of `m` with `v` under the key `k`.
pub record Updated (m m' : Mem) (root k v : ℕ) : Type 0 where
  pub is_leaf : IsLeaf m' root
  pub size : self_size m' root ≤ self_size m root + 1
  pub new : Entry m' root k v
  pub kept : (q w : ℕ) → q ≢ k → Entry m root q w → Entry m' root q w
  pub only : (q w : ℕ) → q ≢ k → Entry m' root q w → Entry m root q w
  pub others : OnlyBlock root m m'

module _ (m : Mem) (root b k v : ℕ) (is : IsLeaf m root) where
  -- "overwrite": the value of the entry at `b`.
  overwrite-Updated :
      b < self_size m root
      → key m root b ≡ k
      → v < 2 ^ 32
      → Updated m (store32 m (data_at root b) v) root k v
  overwrite-Updated lt at small =
      let m' = store32 m (data_at root b) v in
      let fits : self_size m root ≤ 510 = is.node.fits in
      let keys : (i : ℕ) → i < 510 → key m' root i ≡ key m root i =
        λ i h. load32-store32_other m (data_at root b) (key_at root i) v (omega arith) in
      let size : self_size m' root ≡ self_size m root =
        load32-store32_other m (data_at root b) (size_at root) v (omega arith) in
      let other_data : (i : ℕ) → i ≢ b → datum m' root i ≡ datum m root i =
        λ i h. load32-store32_other m (data_at root b) (data_at root i) v (omega arith) in
      record {
        is_leaf = record {
          node = record {
            fits = omega arith;
            sorted = λ i j ij jn. ground (arith, keys i, keys j, is.node.sorted i j);
          };
          leaf =
              load32-store32_other m (data_at root b) (block_addr root) v (omega arith) ∙ is.leaf;
        };
        size = omega arith;
        new = (
          b,
          omega arith,
          keys b (omega arith) ∙ at,
          load32-store32_same m (data_at root b) v ∙ omega arith,
        );
        kept = λ q w ne (i, il, ki, di).
            (i, omega arith, ground (arith, keys i), ground (arith, other_data i));
        only = λ q w ne (i, il, ki, di).
            (i, omega arith, ground (arith, keys i), ground (arith, other_data i, keys i));
        others = store32-OnlyBlock m root (data_at root b) v (omega arith) (omega arith);
      }

  insert-Updated :
      (m' : Mem)
      → self_size m root < 510
      → IsLowerBound m root (self_size m root) k b
      → ((x : ℕ) → x < self_size m root → key m root x ≢ k)
      → Inserted m m' root b k v
      → OnlyBlock root m m'
      → Updated m m' root k v
  insert-Updated m' room lb fresh t only = record {
    is_leaf = record {
      node = record {
        fits = omega (arith, t.size);
        sorted = Inserted-IsSorted t is.node.sorted lb fresh;
      };
      leaf = t.magic_kept ∙ is.leaf;
    };
    size = omega (arith, t.size);
    new = (b, omega (arith, t.size, lb.within), t.here.0, t.here.1);
    kept = λ q w ne (i, il, ki, di). (
      if ltb i b then i else i + 1,
      ground (arith, t.size),
      ground (arith, t.before i, t.after i),
      ground (arith, t.before i, t.after i),
    );
    only = λ q w ne (i, il, ki, di). (
      if ltb i b then i else i - 1,
      ground (arith, t.size, lb.within, t.here.0),
      ground (arith, t.size, t.before i, t.after (i - 1), t.here.0),
      ground (arith, t.size, t.before i, t.after (i - 1), t.here.0),
    );
    others = only;
  }

-- Of sorted keys the one at the lower bound of `k` is `k`, or none is.
fresh_of_other :
    (m : Mem) (root b k : ℕ)
    → IsNode m root
    → IsLowerBound m root (self_size m root) k b
    → (ltb b (self_size m root) && (key m root b == k)) ≡ false
    → (x : ℕ) → x < self_size m root
    → key m root x ≢ k
fresh_of_other m root b k node lb other x lt =
    ground (arith, lb.below x, lb.above b, node.sorted b x)

module _ (B : Blocks) (d : ℕ) (db : Db) (root k : ℕ) (is : IsLeaf db.mem root) where
  btree_set-leaf :
      (v : ℕ) → btree_set B (suc d) root k v db ≡ leaf_set root (list_find db.mem root k) k v db
  unfolding btree_set
  btree_set-leaf v = rw is.leaf

  -- On a well-formed leaf with fewer than 510 entries `btree_set` of a u32 key and value succeeds. It
  -- puts the value under the key, whether the key was there or not, and changes no other entry and
  -- nothing outside of the block; the leaf stays sorted and within its 510 entries.
  pub btree_set-Updated :
      (v : ℕ)
      → self_size db.mem root < btree_size
      → k < 2 ^ 32
      → v < 2 ^ 32
      → Returns
          (λ _ db'. OnlyMem db db' × Updated db.mem db'.mem root k v)
          (btree_set B (suc d) root k v db)
  unfolding leaf_set write32
  btree_set-Updated v room hk hv =
      let m = db.mem in
      let b = list_find m root k in
      let lb = list_find-IsLowerBound m root k is.node.sorted in
      elim (Bool-cases (ltb b (self_size m root) && (key m root b == k))) [
        | inl there ↦
            rw (btree_set-leaf v, there)
              (returns (refl, overwrite-Updated m root b k v is (ground arith) (ground arith) hv))
        | inr other ↦
            let roomy : ltb (self_size m root) btree_size ≡ true = ground arith in
            rw (btree_set-leaf v, other, roomy)
              (returns (
                refl,
                insert-Updated m root b k v is _ room lb
                    (fresh_of_other m root b k is.node lb other)
                    (list_insert-Inserted m root b k v room lb.within hk hv)
                    (list_insert-OnlyBlock root m b k v room lb.within),
              ))
      ]

  -- A full leaf refuses a key that it does not have with EDB_ERROR_BTREE_FULL, and nothing is changed.
  pub btree_set-full :
      (v : ℕ)
      → self_size db.mem root ≡ btree_size
      → ((w : ℕ) → ¬ Entry db.mem root k w)
      → btree_set B (suc d) root k v db ≡ fail err_full db
  unfolding leaf_set
  btree_set-full v full absent =
      let m = db.mem in
      let b = list_find m root k in
      elim (Bool-cases (ltb b (self_size m root) && (key m root b == k))) [
        | inl there ↦ absurd (absent (datum m root b) (b, ground arith, ground arith, refl))
        | inr other ↦
            let packed : ltb (self_size m root) btree_size ≡ false = ground arith in
            rw (btree_set-leaf v, other, packed)
      ]
