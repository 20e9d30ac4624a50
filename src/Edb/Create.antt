-- ===== src/Edb/Create.antt =====
-- `edb_open` with `overwrite`: a new database.
use everdb_native.Base.{ℕ, ◌*◌, ◌≡◌, ◌∙◌, refl, true, false, some, List, [], arith}
use everdb_native.Memory.{Mem}
use everdb_native.Core.{Db, block_addr, write8, freelist_primary, objlist_block, user_data}
use everdb_native.Io.{Os, zeroed, io_close, bytes_of}
use everdb_native.Io.Resize.{IsReliable, io_resize-Resized}
use everdb_native.Page.{page_init}
use everdb_native.Array.{array_init}
use everdb_native.Array.Small.{IsSmall}
use everdb_native.Edb.{edb_init, open_database, edb_open}
use everdb_native.Edb.Open.{fresh_array, fresh_array-IsSmall, fresh_array-other, io_open-Resized}
use everdb_native.Run.{Outcome, handle, done, check_code, ◌>>◌}
use everdb_native.Run.Returns
use everdb_native.Run.Returns.{Returns, returns}

-- The four blocks of a new database: the free list and the object list are empty arrays of u32.
pub record Created (db : Db) : Type 0 where
  pub mapped : db.mapped ≡ true
  pub nblocks : db.nblocks ≡ user_data
  pub filesize : db.filesize ≡ 4 * 4096
  pub free_blocks : IsSmall db.mem freelist_primary 4 0
  pub objects : IsSmall db.mem objlist_block 4 0
  pub roots : (db.freelist ≡ freelist_primary) × (db.objlist ≡ objlist_block)
  pub no_txn : db.txn ≡ []
  pub writable : db.readonly ≡ 0

module _ (os : Os) (reliable : IsReliable os) where
  edb_init-Created :
      (db : Db)
      → db.freelist ≡ freelist_primary
      → db.objlist ≡ objlist_block
      → db.txn ≡ []
      → db.readonly ≡ 0
      → Returns (λ _ db'. Created db') (edb_init os db)
  unfolding edb_init array_init page_init write8
  edb_init-Created db free objects none_open writable =
      Returns.bind
        (io_resize-Resized os reliable user_data db (unfold bytes_of in omega arith) (omega arith))
        λ _ d r.
          let free' : d.freelist ≡ 1 = r.session.freelist ∙ free in
          let objects' : d.objlist ≡ 3 = r.session.objlist ∙ objects in
          let m = fresh_array d.mem 1 4 in
          rw (free', objects')
            (returns (record {
              mapped = r.mapped;
              nblocks = r.nblocks;
              filesize = r.filesize ∙ unfold bytes_of in omega arith;
              free_blocks =
                  fresh_array-other m 1 3 4 4 0 (unfold block_addr in omega arith)
                    (fresh_array-IsSmall d.mem 1 4 (omega arith) (omega arith));
              objects = fresh_array-IsSmall m 3 4 (omega arith) (omega arith);
              roots = (refl, refl);
              no_txn = r.session.txn ∙ none_open;
              writable = r.session.readonly ∙ writable;
            }))

  -- On a reliable system `edb_open` with `overwrite`, for which `open` has emptied the file, succeeds:
  -- the file has four blocks, the free list and the object list are empty arrays of u32 in blocks 1
  -- and 3, no transaction is open and the database is writable.
  pub edb_open-Created :
      (fname : List ℕ) (db : Db) (fd : ℕ) (contents : Mem)
      → os.open_file fname 0 1 ≡ some (record { fd = fd; size = some 0; contents = contents })
      → Returns (λ _ db'. Created db') (edb_open os fname 0 1 db)
  unfolding edb_open open_database
  edb_open-Created fname db fd contents file = handled (
      Returns.bind (io_open-Resized os fname 0 1 db fd 0 contents reliable refl file (omega arith))
        λ _ d r. edb_init-Created _ refl refl (r.session.txn ∙ unfold zeroed in refl) refl)
    where
      handled :
          {P : Unit {0} → Db → Type 0} {r : Outcome Db (Unit {0})}
          → Returns P r
          → Returns P (handle r (λ _. done) (λ e. do io_close; check_code false e))
      handled (returns p) = returns p
