-- ===== src/Txn/Cycle.antt =====
-- A transaction that does nothing between its begin and its end.
use everdb_native.Base.{
  ℕ, ◌+◌, ◌-◌, ◌*◌, ◌^◌, ◌≤◌, ◌<◌, ◌≡◌, ◌∙◌, ◌⊎◌, inl, inr, refl, some, [], ◌∷◌, get_or, set,
  replicate, ◌&&◌, leb, ltb, arith, ap, Bool-cases,
}
use everdb_native.Base.Word.{add32}
use everdb_native.Memory.{Mem, memcpy}
use everdb_native.MemHash.{
  MemHash, item, unset, hash, probe, entry_at, stops, find_slot, probe_limit, locate, next_size,
  reinsert, resize, put, set_item, mem_hash_set, mem_hash_get,
}
use everdb_native.MemHash.{new as new_table}
use everdb_native.Core.{Db, Blocks, block_addr, freelist_primary, objlist_block}
use everdb_native.Io.{Os, bytes_of}
use everdb_native.Io.Resize.{IsReliable, io_resize-Resized}
use everdb_native.Freelist.{u32_rounds, set_freelist}
use everdb_native.Txn.{check_txn, block_state, set_head, set_block_state, copy_block}
use everdb_native.Txn.Begin.{next_txn_id, txn_state_new, txn_begin_master, txn_begin}
use everdb_native.Txn.Commit.{current, each_entry, commit_entry, txn_commit_master, txn_commit}
use everdb_native.Txn.Abort.{txn_abort_master, txn_abort}
use everdb_native.Run.{ok, ◌>>◌}
use everdb_native.Run.Returns
use everdb_native.Run.Returns.{Returns, returns}

-- No transaction is open, and the roots are those of the committed data.
pub record IsIdle (db : Db) : Type 0 where
  pub none_open : db.txn ≡ []
  pub primary : db.freelist ≡ freelist_primary
  pub objects : db.objlist ≡ objlist_block

-- The table in which block 2 is the copy of block 1.
abbrev pub bootstrap : MemHash
bootstrap = record { count = 1; capacity = 3; entries = item 2 1 ∷ unset ∷ unset ∷ [] }

pub bootstrap-set : mem_hash_set new_table 2 1 ≡ some bootstrap
unfolding get_or set replicate hash probe entry_at stops find_slot probe_limit locate next_size
    reinsert resize put set_item mem_hash_set new_table
bootstrap-set = refl

bootstrap-get : mem_hash_get bootstrap 2 ≡ some 1
unfolding get_or hash probe entry_at stops find_slot probe_limit locate mem_hash_get
bootstrap-get = refl

-- The handle after `txn_begin`.
abbrev pub begun : Db → Db
begun db = record db {
  mem = memcpy db.mem (block_addr 2) (block_addr 1) 4096;
  freelist = 2;
  txn_id = add32 db.txn_id 1;
  txn = record { nblocks = db.nblocks; blocks = bootstrap } ∷ [];
}

-- The transaction has left no trace but the two steps of the transaction number and the contents of
-- block 2, the spare block of the free list.
pub record Undone (db db' : Db) : Type 0 where
  pub idle : IsIdle db'
  pub nblocks : db'.nblocks ≡ db.nblocks
  pub readonly : db'.readonly ≡ db.readonly
  pub txn_id : db'.txn_id ≡ add32 (add32 db.txn_id 1) 1
  pub kept : (p : ℕ) → p < db.nblocks * 4096 → (p < 8192) ⊎ (12288 ≤ p) → db'.mem p ≡ db.mem p

-- Block 2 copied from block 1 and back leaves the other blocks as they were.
copied_back :
    (m : Mem) (p : ℕ)
    → (p < 8192) ⊎ (12288 ≤ p)
    → memcpy (memcpy m (block_addr 2) (block_addr 1) 4096) (block_addr 1) (block_addr 2) 4096 p
      ≡ m p
unfolding memcpy block_addr
copied_back m p out = elim (Bool-cases (leb 4096 p && ltb p 8192)) [
  | inl inside ↦
      let back : 4096 + (8192 + (p - 4096) - 8192) ≡ p = ground arith in ground (arith, ap m back)
  | inr outside ↦ ground arith
]

module _ (os : Os) (B : Blocks) (db : Db) (idle : IsIdle db) where
  pub txn_begin-idle : txn_begin os B db ≡ ok tt (begun db)
  unfolding txn_begin txn_begin_master txn_state_new set_block_state set_head copy_block
      set_freelist next_txn_id
  txn_begin-idle = rw (idle.none_open, idle.primary, idle.objects, bootstrap-set)

  -- Outside of a transaction, on a reliable system and a file of up to 2 ^ 20 - 1 blocks,
  -- `txn_begin` and then `txn_abort` succeed. No transaction is open then, the roots and the number of
  -- blocks are as before, and so are the contents of every block but block 2.
  pub txn_abort-txn_begin :
      IsReliable os
      → 0 < db.nblocks
      → db.nblocks < 2 ^ 20
      → Returns (λ _ db'. Undone db db') ((txn_begin os B >> txn_abort os B) db)
  unfolding txn_abort txn_abort_master next_txn_id
  txn_abort-txn_begin reliable some_blocks small =
      let whole : bytes_of db.nblocks ≡ db.nblocks * 4096 = unfold bytes_of in omega arith in
      rw txn_begin-idle (
        Returns.bind
          (io_resize-Resized os reliable db.nblocks _ (omega (arith, whole)) (omega arith))
          λ _ d r. returns (record {
            idle = record {
              none_open = refl;
              primary = r.session.freelist;
              objects = r.session.objlist;
            };
            nblocks = r.nblocks;
            readonly = r.session.readonly;
            txn_id = ap (λ (i : ℕ). add32 i 1) r.session.txn_id;
            kept = λ p lt out.
                r.kept p (omega (arith, whole)) ∙ unfold memcpy block_addr in ground arith;
          }))

  -- Outside of a transaction `txn_begin` and then `txn_commit` succeed. No transaction is open then,
  -- the roots and the number of blocks are as before, and so are the contents of every block but block
  -- 2.
  pub txn_commit-txn_begin :
      Returns (λ _ db'. Undone db db') ((txn_begin os B >> txn_commit os B) db)
  unfolding txn_commit txn_commit_master check_txn block_state each_entry u32_rounds current
      entry_at get_or commit_entry copy_block set_freelist next_txn_id
  txn_commit-txn_begin =
      rw (txn_begin-idle, bootstrap-get)
        (returns (record {
          idle = record { none_open = refl; primary = refl; objects = idle.objects };
          nblocks = refl;
          readonly = refl;
          txn_id = refl;
          kept = λ p lt out. copied_back db.mem p out;
        }))
