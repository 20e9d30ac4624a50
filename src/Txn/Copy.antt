-- ===== src/Txn/Copy.antt =====
-- Copy-on-write: `txn_modify_block` of a block that the transaction has not touched.
use everdb_native.Base.{ℕ, suc, ◌+◌, ◌-◌, ◌<◌, ◌≡◌, ◌≢◌, ◌∙◌, refl, List, ◌∷◌, arith, ap}
use everdb_native.Memory.{Mem, memcpy, bytes_u32}
use everdb_native.MemHash.{MemHash}
use everdb_native.MemHash.Map.{IsValid, mem_hash_get-Holds}
use everdb_native.MemHash.Grow.{Written, HasRoomFor, valid_set-Written}
use everdb_native.Core.{IsWritable, Db, TxnState, Blocks, block_addr}
use everdb_native.Core.Words.{Apart, Inside}
use everdb_native.Io.{Os}
use everdb_native.Array.Moved.{SameBytes, IsSmall-moved, item_moved}
use everdb_native.Array.Small.{IsSmall, item_at}
use everdb_native.Freelist.Stack.{freelist_allocate_block-Shortened}
use everdb_native.Txn.{set_head, set_block_state, copy_block, txn_modify_block}
use everdb_native.Txn.States.{InState, block_state-known, check_txn-open}
use everdb_native.Run.{pure, ◌>>◌}
use everdb_native.Run.Returns
use everdb_native.Run.Returns.{Returns, returns}

-- In `db'` the block `c` is the transaction's copy of the block `b` in `m`. Outside of `c` and the
-- free list's root `fl` the contents are those of `m`, no other block's state has changed, and the free
-- list has the first `k` of its items.
pub record Copied (m : Mem) (fl : ℕ) (t : TxnState) (ts : List TxnState) (b c k : ℕ) (db' : Db)
    : Type 0 where
  pub copy : (i : ℕ) → i < 4096 → db'.mem (block_addr c + i) ≡ m (block_addr b + i)
  pub others : (p : ℕ) → ¬ Inside c p → ¬ Inside fl p → db'.mem p ≡ m p
  pub table : MemHash
  pub state : InState db' (record t { blocks = table }) ts c b
  pub updated : Written t.blocks table c b
  pub list : IsSmall db'.mem fl 4 k
  pub items : (j : ℕ) → j < k → item_at db'.mem fl 4 j ≡ item_at m fl 4 j

module _ (t : TxnState) (ts : List TxnState) (b c fl k : ℕ) (valid : IsValid t.blocks)
    (far : Apart b fl) (apart : Apart b c) (aside : Apart c fl) (c0 : c ≢ 0) where
  marked :
      (db : Db) (m₀ m : Mem) (table : MemHash)
      → ((p : ℕ) → ¬ Inside fl p → m p ≡ m₀ p)
      → IsSmall m fl 4 k
      → ((j : ℕ) → j < k → item_at m fl 4 j ≡ item_at m₀ fl 4 j)
      → Written t.blocks table c b
      → Copied m₀ fl t ts b c k (record db {
        mem = memcpy m (block_addr c) (block_addr b) 4096;
        txn = record t { blocks = table } ∷ ts;
      })
  marked db m₀ m table same is items updated =
      let m' = memcpy m (block_addr c) (block_addr b) 4096 in
      let moved : SameBytes m m' fl fl = λ i lt. unfold memcpy in ground (arith, aside) in
      record {
        copy = λ i lt.
            let from : block_addr b + (block_addr c + i - block_addr c) ≡ block_addr b + i =
              omega arith in
            let outside : ¬ Inside fl (block_addr b + i) = λ (above, below). omega (arith, far) in
            unfold memcpy in ground (arith, ap m from, same (block_addr b + i) outside);
        others = λ p out away. unfold memcpy in ground (arith, same p away, out);
        table = table;
        state = record {
          current = refl;
          known = mem_hash_get-Holds table c b updated.valid.placed c0 updated.new;
        };
        updated = updated;
        list = IsSmall-moved m m' fl fl 4 k moved is;
        items = λ j lt. item_moved m m' fl fl 4 k moved is j lt ∙ items j lt;
      }

  pub copy_and_mark :
      (db : Db) (m₀ m : Mem)
      → db.txn ≡ t ∷ ts
      → ((p : ℕ) → ¬ Inside fl p → m p ≡ m₀ p)
      → IsSmall m fl 4 k
      → ((j : ℕ) → j < k → item_at m fl 4 j ≡ item_at m₀ fl 4 j)
      → HasRoomFor t.blocks c
      → Returns
          (λ c' db'.
            (c' ≡ c)
            × (db' ≡ record db { mem = db'.mem; txn = db'.txn })
            × Copied m₀ fl t ts b c k db')
          ((copy_block c b >> (set_block_state c b >> pure c)) (record db { mem = m }))
  unfolding copy_block set_block_state set_head
  copy_and_mark db m₀ m current same is items has =
      let (table, set, updated) = valid_set-Written t.blocks c b valid c0 has in
      rw (current, set) (returns (refl, refl, marked db m₀ m table same is items updated))

module _ (os : Os) (B : Blocks) (db : Db) (t : TxnState) (ts : List TxnState) (b c k : ℕ)
    (at : InState db t ts b 0) (valid : IsValid t.blocks) where
  -- In a transaction whose table has at most 315 keys, all with low hashes as `c` has, and whose free list fits its root block, is writable and has
  -- the block `c` last, `txn_modify_block` of a block that the transaction has not touched gives `c`.
  -- It is then the transaction's copy of the block; outside of it and of the free list's root nothing
  -- of the contents has changed, and no state of another block has. The free list keeps its
  -- other items. The three blocks do not overlap, and `c` is not 0.
  pub txn_modify_block-Copied :
      IsSmall db.mem db.freelist 4 (suc k)
      → IsWritable B db db.freelist
      → bytes_u32 (item_at db.mem db.freelist 4 k) ≡ c
      → Apart b db.freelist
      → Apart b c
      → Apart c db.freelist
      → c ≢ 0
      → HasRoomFor t.blocks c
      → Returns
          (λ c' db'.
            (c' ≡ c)
            × (db' ≡ record db { mem = db'.mem; txn = db'.txn })
            × Copied db.mem db.freelist t ts b c k db')
          (txn_modify_block os B b db)
  unfolding txn_modify_block
  txn_modify_block-Copied is own last far apart aside c0 has =
      simp (check_txn-open os B db at, block_state-known os B db at)
        (Returns.bind (freelist_allocate_block-Shortened os B db (suc k) is own k refl)
          λ c' d (only, popped, rest).
            let same : c' ≡ c = popped ∙ last in
            let kept : (p : ℕ) → ¬ Inside db.freelist p → d.mem p ≡ db.mem p =
              λ p away. rest.outside p (ground arith) in
            rw (same, only)
              (copy_and_mark t ts b c db.freelist k valid far apart aside c0 db db.mem d.mem
                at.current kept rest.small rest.before has))
