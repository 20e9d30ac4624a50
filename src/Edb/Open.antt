-- ===== src/Edb/Open.antt =====
-- `edb_open` of an existing file, and the state of a block after `array_init`.
use everdb_native.Base.{
  ℕ, ◌+◌, ◌*◌, ◌/◌, ◌%◌, ◌^◌, ◌≤◌, ◌<◌, ◌≡◌, ◌∙◌, ◌⊎◌, inr, true, false, some, List, [], ◌==◌, ◌&&◌,
  leb, if◌then◌else◌, arith,
}
use everdb_native.Memory.{Mem, load8, load32, store8, memset}
use everdb_native.Memory.Laws.{load8-store8_same}
use everdb_native.Memory.Ranges.{load32-memset_zero}
use everdb_native.Core.{Db, block_addr, freelist_primary, objlist_block}
use everdb_native.Io.{Os, zeroed, open_blocks, io_open, io_close, io_resize, bytes_of}
use everdb_native.Io.Resize.{IsReliable, Resized, io_resize-Resized}
use everdb_native.Array.{array_length, item_size_at}
use everdb_native.Array.Small.{IsSmall}
use everdb_native.Run.{Outcome, handle, done, modify, check_code, ◌>>◌}
use everdb_native.Run.Returns
use everdb_native.Run.Returns.{Returns, returns}

-- The block after `array_init`.
abbrev pub fresh_array : Mem → (root size : ℕ) → Mem
fresh_array m root size = store8 (memset m (block_addr root) 0 4096) (item_size_at root) size

load32-store8_other :
    (m : Mem) (a b v : ℕ) → (b + 4 ≤ a) ⊎ (a < b) → load32 (store8 m a v) b ≡ load32 m b
unfolding load32 store8
load32-store8_other m a b v h = ground arith

pub fresh_array-IsSmall :
    (m : Mem) (root size : ℕ)
    → 0 < size
    → size < 256
    → IsSmall (fresh_array m root size) root size 0
fresh_array-IsSmall m root size pos byte =
    let m₁ = memset m (block_addr root) 0 4096 in
    let a = item_size_at root in
    record {
      no_table =
          load32-store8_other m₁ a (block_addr root + 4092) size (inr (omega arith))
          ∙ load32-memset_zero m (block_addr root) 4096 (block_addr root + 4092) (omega arith)
              (omega arith);
      item = load8-store8_same m₁ a size ∙ omega arith;
      positive = pos;
      byte = byte;
      length =
          unfold array_length in
          (load32-store8_other m₁ a (block_addr root + 4088) size (inr (omega arith))
            ∙ load32-memset_zero m (block_addr root) 4096 (block_addr root + 4088) (omega arith)
                (omega arith));
      fits = omega arith;
    }

-- Setting up an array in another block changes nothing in a small array.
pub fresh_array-other :
    (m : Mem) (root root' size size' n : ℕ)
    → (block_addr root + 4096 ≤ block_addr root') ⊎ (block_addr root' + 4096 ≤ block_addr root)
    → IsSmall m root size n
    → IsSmall (fresh_array m root' size') root size n
unfolding load32 load8 store8 memset array_length
fresh_array-other m root root' size size' n apart is = record {
  no_table = ground (arith, is.no_table);
  item = ground (arith, is.item);
  positive = is.positive;
  byte = is.byte;
  length = ground (arith, is.length);
  fits = is.fits;
}

-- The state that `io_open` resizes for a file of `n` blocks.
module _ (os : Os) (fname : List ℕ) (readonly overwrite : ℕ) (db : Db) (fd n : ℕ)
    (contents : Mem) where
  abbrev pub opened : Db
  opened = record (zeroed db) {
    h_file = fd;
    readonly = readonly;
    mem = contents;
    filesize = n * 4096;
  }

  open_blocks-resize :
      (leb 1 readonly && leb 1 overwrite) ≡ false
      → os.open_file fname readonly overwrite
        ≡ some (record { fd = fd; size = some (n * 4096); contents = contents })
      → n < 2 ^ 20
      → open_blocks os fname readonly overwrite db ≡ io_resize os (if n == 0 then 1 else n) opened
  unfolding open_blocks
  open_blocks-resize modes file small =
      let whole : (n * 4096 % 4096 == 0) ≡ true = ground arith in
      let blocks : n * 4096 / 4096 % 2 ^ 32 ≡ n = omega arith in rw (modes, file, whole, blocks)

  pub io_open-Resized :
      IsReliable os
      → (leb 1 readonly && leb 1 overwrite) ≡ false
      → os.open_file fname readonly overwrite
        ≡ some (record { fd = fd; size = some (n * 4096); contents = contents })
      → n < 2 ^ 20
      → Returns
          (λ _ db'. Resized (if n == 0 then 1 else n) opened db')
          (io_open os fname readonly overwrite db)
  unfolding io_open
  io_open-Resized reliable modes file small = rw (open_blocks-resize modes file small) (
      handled (
        io_resize-Resized os reliable (if n == 0 then 1 else n) opened
          (unfold bytes_of in ground arith) (ground arith)))
    where
      handled :
          {r : Outcome Db (Unit {0})}
          → Returns (λ _ db'. Resized (if n == 0 then 1 else n) opened db') r
          → Returns
              (λ _ db'. Resized (if n == 0 then 1 else n) opened db')
              (handle r (λ _. done) (λ e. do io_close; modify zeroed; check_code false e))
      handled (returns p) = returns p

-- An existing file of `n` blocks, opened without `overwrite`: the contents and the number of blocks
-- are the file's, and no transaction is open. The handle is not marked as read-only whatever `readonly` says,
-- but the mapping can be written only if `readonly` is 0.
pub record Reopened (contents : Mem) (readonly n : ℕ) (db : Db) : Type 0 where
  pub mapped : db.mapped ≡ true
  pub nblocks : db.nblocks ≡ n
  pub filesize : db.filesize ≡ n * 4096
  pub contents_kept : (p : ℕ) → p < n * 4096 → db.mem p ≡ contents p
  pub roots : (db.freelist ≡ freelist_primary) × (db.objlist ≡ objlist_block)
  pub no_txn : db.txn ≡ []
  pub writable : (db.readonly ≡ 0) × (db.writable ≡ (readonly == 0))
