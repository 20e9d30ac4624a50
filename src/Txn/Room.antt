-- ===== src/Txn/Room.antt =====
-- The block functions of an isolated transaction are an allocator, as far as its table and its free list
-- have room.
use mathlib.Core.Path.{subst}
use everdb_native.Base.{
  ℕ, suc, ◌+◌, ◌-◌, ◌^◌, ◌≤◌, ◌<◌, ◌≡◌, ◌∙◌, refl, [], ◌∷◌, inl, inr, arith, sym, ◌==◌, Bool-cases,
}
use everdb_native.Memory.{Mem, bytes_u32}
use everdb_native.MemHash.{MemHash, hash}
use everdb_native.MemHash.Spread.{IsLow}
use everdb_native.MemHash.Map.{mem_hash_get-Holds}
use everdb_native.MemHash.Grow.{Written, HasLowKeys, valid_set-Written}
use everdb_native.Freelist.View.{item_stack}
use everdb_native.Core.{Db, IsWritable}
use everdb_native.Core.Allocator.{Allocated, OnlyOwn, IsAllocator}
use everdb_native.Io.{Os}
use everdb_native.Array.Small.{IsSmall, item_at}
use everdb_native.Array.Stack.{Shortened}
use everdb_native.Array.Moved.{IsSmall-moved, item_moved}
use everdb_native.Txn.{allocated, blocks}
use everdb_native.Txn.States.{InState, own-IsWritable}
use everdb_native.Txn.Calls.{txn_allocate_block-takes}
use everdb_native.Txn.Isolation.{table_of, IsCommitted, Isolated, spare-IsWritable}
use everdb_native.Txn.Own.{OwnBlock, own_root, root_same, written-Isolated, taken-Isolated}
use everdb_native.Run.Returns
use everdb_native.Run.Returns.{Returns, returns}

-- The free list fits one block and has at least `n` blocks, and the table may take `n` more keys; all
-- blocks of the free list and all keys of the table have low hashes.
pub record HasRoom (Live : ℕ → Type 0) (m₀ : Mem) (n₀ n : ℕ) (db : Db) : Type 0 where
  pub isolated : Isolated Live m₀ n₀ db
  pub count : ℕ
  pub list : IsSmall db.mem db.freelist 4 count
  pub enough : n ≤ count
  pub room : (table_of db.txn).count + n ≤ 316
  pub keys : HasLowKeys (table_of db.txn)
  pub low : (j : ℕ) → j < count → IsLow (hash (bytes_u32 (item_at db.mem db.freelist 4 j))) 631

module _ (os : Os) (d : ℕ) (Live : ℕ → Type 0) (m₀ : Mem) (n₀ : ℕ)
    (committed : IsCommitted Live) where
  block-IsWritable :
      (n : ℕ) (db : Db) (b : ℕ)
      → HasRoom Live m₀ n₀ n db
      → OwnBlock db b
      → IsWritable (blocks os (suc (suc d))) db b
  block-IsWritable n db b r (v, b0, b2, v0, vf, h) =
      let i = r.isolated in
      let at : InState db (record { nblocks = n₀; blocks = table_of db.txn }) [] b v = record {
        current = i.current;
        known = mem_hash_get-Holds (table_of db.txn) b v i.valid.placed b0 h;
      } in
      own-IsWritable os (suc d) db at v0 vf

  write-HasRoom :
      (n : ℕ) (db : Db) (m : Mem)
      → HasRoom Live m₀ n₀ n db
      → OnlyOwn OwnBlock db m
      → HasRoom Live m₀ n₀ n (record db { mem = m })
  write-HasRoom n db m r only =
      let same = root_same Live m₀ n₀ committed db r.isolated m only in
      record {
        isolated = written-Isolated Live m₀ n₀ committed db r.isolated m only;
        count = r.count;
        list = IsSmall-moved db.mem m db.freelist db.freelist 4 r.count same r.list;
        enough = r.enough;
        room = r.room;
        keys = r.keys;
        low = λ j lt.
            rw (item_moved db.mem m db.freelist db.freelist 4 r.count same r.list j lt)
              (r.low j lt);
      }

  -- The state after the block `c` has been taken from the free list.
  module _ (n : ℕ) (db : Db) (r : HasRoom Live m₀ n₀ (suc n) db) (k : ℕ) (at : r.count ≡ suc k)
      (table : MemHash)
      (u : Written (table_of db.txn) table (bytes_u32 (item_at db.mem db.freelist 4 k)) allocated)
      (m : Mem) (rest : Shortened db.mem m db.freelist 4 k) where
    abbrev taken : ℕ
    taken = bytes_u32 (item_at db.mem db.freelist 4 k)

    list : IsSmall db.mem db.freelist 4 (suc k)
    list = subst (λ x. IsSmall db.mem db.freelist 4 x) at r.list

    is_free : (4 ≤ taken) × (taken < 2 ^ 20)
    is_free =
        let i = r.isolated in
        let size : i.n ≡ suc k = sym i.list.length ∙ list.length in
        let (user, small, dead) = i.free k (omega (arith, size)) in (user, small)

    not_own : ¬ OwnBlock db taken
    not_own (v, b0, b2, v0, vf, h) =
        let i = r.isolated in
        let size : i.n ≡ suc k = sym i.list.length ∙ list.length in
        v0
          (i.exclusive.unused taken v (item_stack db.mem db.freelist i.n k (omega (arith, size))) h)

    taken-Allocated :
        Allocated OwnBlock
          (HasRoom Live m₀ n₀)
          n
          db
          taken
          (record db { mem = m; txn = record { nblocks = n₀; blocks = table } ∷ [] })
    taken-Allocated = record {
      ready = record {
        isolated = taken-Isolated Live m₀ n₀ committed db r.isolated k m table list u rest;
        count = k;
        list = rest.small;
        enough = omega (arith, r.enough);
        room = omega (arith, r.room, u.count);
        keys = λ q w q0 h. elim (Bool-cases (q == taken)) [
          | inl same ↦
              let qc : q ≡ taken = ground arith in
              subst (λ x. IsLow (hash x) 631) (sym qc) (r.low k (omega arith))
          | inr other ↦ r.keys q w q0 (u.only q w q0 (ground arith) h)
        ];
        low = λ j lt. rw (rest.before j lt) (r.low j (omega arith));
      };
      small = is_free.1;
      fresh = not_own;
      new = (
        allocated,
        omega (arith, is_free),
        omega (arith, is_free),
        omega arith,
        omega arith,
        u.new,
      );
      kept = λ b (v, b0, b2, v0, vf, h). (
        v,
        b0,
        b2,
        v0,
        vf,
        u.kept b v b0 (λ e. not_own (subst (OwnBlock db) e (v, b0, b2, v0, vf, h))) h,
      );
      same = λ b p own inside.
          let a = own_root Live m₀ n₀ committed db r.isolated b own in
          rest.outside p (ground (arith, a, inside));
    }

  -- In a transaction that is isolated from the committed blocks, whose free list fits one block and has at
  -- least `n + 1` blocks, and whose table has at most `315 - n` keys, all of them and the free blocks with low
  -- hashes, `edb_allocate_block` succeeds: it gives a block that was not the transaction's own and is so now,
  -- the blocks that were its own are so, with their bytes, and the same holds of the transaction for `n`.
  pub own-Allocated :
      (n : ℕ) (db : Db)
      → HasRoom Live m₀ n₀ (suc n) db
      → Returns
          (Allocated OwnBlock (HasRoom Live m₀ n₀) n db)
          ((blocks os (suc (suc d))).allocate db)
  unfolding blocks
  own-Allocated n db r =
      let i = r.isolated in
      let k = r.count - 1 in
      let at : r.count ≡ suc k = omega (arith, r.enough) in
      let is = subst (λ x. IsSmall db.mem db.freelist 4 x) at r.list in
      let c = bytes_u32 (item_at db.mem db.freelist 4 k) in
      let size : i.n ≡ suc k = sym i.list.length ∙ is.length in
      let (user, small, dead) = i.free k (omega (arith, size)) in
      let (table, set, u) =
        valid_set-Written (table_of db.txn) c allocated i.valid (omega arith)
          (record { room = omega (arith, r.room); keys = r.keys; low = r.low k (omega arith) }) in
      Returns.mono
        (txn_allocate_block-takes os (blocks os (suc d)) db
          (record { nblocks = n₀; blocks = table_of db.txn }) [] c table k i.current is
          (spare-IsWritable Live m₀ n₀ committed db i os d) refl set)
        λ c' e (same, state, rest).
          subst (λ x. Allocated OwnBlock (HasRoom Live m₀ n₀) n db x e) (sym same)
            (subst (λ s. Allocated OwnBlock (HasRoom Live m₀ n₀) n db c s) (sym state)
              (taken-Allocated n db r k at table u e.mem rest))

  -- The block functions of a transaction that is isolated from the committed blocks are an allocator,
  -- while its free list, in one block, has blocks with low hashes and its table has room for them: a
  -- block of its own is changed in place, whatever the file contains, the allocation of a block
  -- succeeds and gives one that was not its own, and writes to its own blocks keep all of this.
  pub blocks-IsAllocator : IsAllocator OwnBlock (HasRoom Live m₀ n₀) (blocks os (suc (suc d)))
  blocks-IsAllocator = record {
    writable = λ n db b r own. block-IsWritable n db b r own;
    allocate = own-Allocated;
    write_ready = write-HasRoom;
    write_own = λ db m b only own. own;
  }
