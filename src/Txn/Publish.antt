-- ===== src/Txn/Publish.antt =====
-- `txn_commit` of the outermost transaction: what it leaves behind.
use mathlib.Core.Path.{subst}
use everdb_native.Base.{
  ℕ, ◌+◌, ◌-◌, ◌*◌, ◌^◌, ◌≤◌, ◌<◌, ◌≡◌, ◌≢◌, ◌∙◌, ◌⊎◌, refl, some, List, [], ◌∷◌, arith, length,
  sym, ap,
}
use everdb_native.Memory.{Mem, memcpy}
use everdb_native.MemHash.{entry_at, mem_hash_get}
use everdb_native.Core.{Db, TxnState, Blocks, IsWritable, block_addr}
use everdb_native.Io.{Os}
use everdb_native.Array.{small_bytes}
use everdb_native.Array.Small.{IsSmall}
use everdb_native.Array.Moved.{SameBytes, IsSmall-moved, item_moved}
use everdb_native.Freelist.{u32_rounds, set_freelist}
use everdb_native.Txn.{check_txn, block_state, copy_block}
use everdb_native.Txn.Begin.{next_txn_id}
use everdb_native.Txn.Commit.{txn_commit_master, txn_commit}
use everdb_native.Txn.Cycle.{IsIdle}
use everdb_native.Txn.Release.{released, AreUser, Grown, each_entry-Grown}
use everdb_native.Freelist.View.{stack, stack_same, push_all}
use everdb_native.Run.Returns
use everdb_native.Run.Returns.{Returns, returns}

-- The blocks that a commit releases.
abbrev pub released_blocks : TxnState → List ℕ
released_blocks t = released t.blocks t.blocks.capacity 0

-- No transaction is open, the free list in block 1 is that of block 2 in `db` with `bs` pushed on it, and
-- no other block has changed.
pub record Published (db db' : Db) (n : ℕ) (bs : List ℕ) : Type 0 where
  pub idle : IsIdle db'
  pub nblocks : db'.nblocks ≡ db.nblocks
  pub list : IsSmall db'.mem 1 4 (n + length bs)
  pub items : stack db'.mem 1 (n + length bs) ≡ push_all bs (stack db.mem 2 n)
  pub kept : (p : ℕ) → (p < 4096) ⊎ (12288 ≤ p) → db'.mem p ≡ db.mem p

module _ (os : Os) (B : Blocks) (db : Db) (t : TxnState) (n : ℕ) where
  -- The handle with the roots of an open transaction.
  open_db : Db
  open_db = record db { freelist = 2; objlist = 3; txn = t ∷ [] }

  copied_root : (m : Mem) → SameBytes m (memcpy m (block_addr 1) (block_addr 2) 4096) 2 1
  unfolding memcpy block_addr
  copied_root m i lt =
      let from : 8192 + (4096 + i - 4096) ≡ 8192 + i = omega arith in ground (arith, ap m from)

  published :
      (m : Mem) (id : ℕ) (bs : List ℕ)
      → Grown db.mem m 2 n bs
      → Published db
          (record db {
            mem = memcpy m (block_addr 1) (block_addr 2) 4096;
            freelist = 1;
            objlist = 3;
            txn_id = id;
            txn = [];
          })
          n
          bs
  published m id bs g =
      let m' = memcpy m (block_addr 1) (block_addr 2) 4096 in
      let same = copied_root m in
      record {
        idle = record { none_open = refl; primary = refl; objects = refl };
        nblocks = refl;
        list = IsSmall-moved m m' 2 1 4 (n + length bs) same g.list;
        items =
            stack_same m m' 2 1 (n + length bs) (item_moved m m' 2 1 4 (n + length bs) same g.list)
            ∙ g.items;
        kept = λ p out. unfold memcpy block_addr in ground (arith, g.outside p);
      }

  module _ (spare : mem_hash_get t.blocks 2 ≡ some 1)
      (objects : (s : ℕ) → s < t.blocks.capacity → (entry_at t.blocks s).k ≢ 3)
      (counter : t.blocks.capacity < 2 ^ 32) (list : IsSmall db.mem 2 4 n)
      (user : AreUser (released_blocks t))
      (room : (n + length (released_blocks t)) * 4 ≤ small_bytes) where
    commit_open :
        IsWritable B open_db 2
        → Returns (λ _ db'. Published db db' n (released_blocks t)) (txn_commit os B open_db)
    unfolding txn_commit txn_commit_master check_txn block_state copy_block set_freelist next_txn_id
        open_db
    commit_open own = rw spare (
        Returns.bind
          (each_entry-Grown os B open_db t own objects t.blocks.capacity u32_rounds 0 n db.mem
            (omega arith) (unfold u32_rounds in counter) list user room)
          λ _ d (same, g). rw same (returns (published d.mem _ _ g)))

-- Let one transaction be open, with the object list at its place and the free list in one block, the copy 2
-- of block 1, which is writable. Let the blocks that the table releases (those that were freed, and the
-- originals of those that were copied) be user blocks that fit that block behind the list, and let the
-- table have fewer than 2 ^ 32 slots. Then `txn_commit` succeeds. No transaction is open then; the free
-- list is back in block 1 and has the released blocks pushed on it in the order of the table; and every
-- block but 1 and 2 is as it was, so the copies are in place with their contents.
pub txn_commit-Published :
    (os : Os) (B : Blocks) (db : Db) (t : TxnState) (n : ℕ)
    → db.txn ≡ t ∷ []
    → db.freelist ≡ 2
    → db.objlist ≡ 3
    → mem_hash_get t.blocks 2 ≡ some 1
    → ((s : ℕ) → s < t.blocks.capacity → (entry_at t.blocks s).k ≢ 3)
    → t.blocks.capacity < 2 ^ 32
    → IsSmall db.mem 2 4 n
    → IsWritable B db 2
    → AreUser (released_blocks t)
    → (n + length (released_blocks t)) * 4 ≤ small_bytes
    → Returns (λ _ db'. Published db db' n (released_blocks t)) (txn_commit os B db)
unfolding open_db
txn_commit-Published os B db t n current root objlist spare objects counter list own user room =
    let same : db ≡ open_db os B db t n =
      ap (λ (x : List TxnState). record db { txn = x }) current
      ∙ ap (λ (x : ℕ). record db { freelist = x; txn = t ∷ [] }) root
      ∙ ap (λ (x : ℕ). record db { freelist = 2; objlist = x; txn = t ∷ [] }) objlist in
    subst (λ x. Returns (λ _ db'. Published db db' n (released_blocks t)) (txn_commit os B x))
      (sym same)
      (commit_open os B db t n spare objects counter list user room
        (subst (λ x. IsWritable B x 2) same own))
