-- ===== src/Array.antt =====
-- src/array.h, src/array.c: arrays of items of `item_size` bytes. A small array lies in its root
-- block; a large one in the blocks of the page table at the root. `item_size` is the byte at 4084 of
-- the root block and `length` the word at 4088, which are also words of the page table.
pub mod Small
pub mod Stack
pub mod Moved
use everdb_native.Base.{
  ℕ, zero, suc, ◌+◌, ◌-◌, ◌*◌, ◌/◌, ◌%◌, ◌^◌, Bool, true, false, ◌&&◌, Option, none, some, List,
  ◌==◌, leb, ltb, if◌then◌else◌, take,
}
use everdb_native.Base.Word.{add32, sub32, mul32}
use everdb_native.Memory.{Mem, load8, load32, memset, memcpy, read_bytes, write_bytes}
use everdb_native.Core.{
  Db, Blocks, block_addr, block_size, read8, read32, write8, write32, update_mem,
}
use everdb_native.Page.{table_nblocks, nblocks_at, page_init, page_write_host_index, page_resize}
use everdb_native.Run.{
  M, Outcome, ok, fail, hung, crashed, ◌>>=◌, ◌>>◌, done, crashes, pure, check_code, attempt,
}

abbrev pub err_index_out_of_bounds : ℕ
err_index_out_of_bounds = 3201

-- BLOCK_SIZE - sizeof(array_header) - sizeof(page_header)
abbrev pub small_bytes : ℕ
small_bytes = 4084

abbrev pub item_size_at : ℕ → ℕ
item_size_at root = block_addr root + 4084

abbrev pub length_at : ℕ → ℕ
length_at root = block_addr root + 4088

abbrev pub item_size : Mem → ℕ → ℕ
item_size m root = load8 m (item_size_at root)

unfoldable pub array_init : (root size : ℕ) → M Db (Unit {0})
array_init root size = do page_init root; write8 (item_size_at root) size

unfoldable pub array_length : Mem → ℕ → ℕ
array_length m root = load32 m (length_at root)

-- A division by an item size of 0 is undefined.
unfoldable pub per : ℕ → ℕ → M Db ℕ
per bytes size = if size == 0 then crashes else pure (bytes / size)

unfoldable pub array_capacity : ℕ → M Db ℕ
array_capacity root db =
    if table_nblocks db.mem root == 0
    then per small_bytes (item_size db.mem root) db
    else (do
      items ← per block_size (item_size db.mem root)
      pure (mul32 (table_nblocks db.mem root) items))
        db

module _ (B : Blocks) where
  -- The address of an item; `none` is NULL. A failing `page_write_host_index` ends in `abort()`.
  unfoldable pub array_data : (root index : ℕ) → M Db (Option ℕ)
  array_data root index db =
      let size = item_size db.mem root in
      if leb (array_length db.mem root) index
      then ok none db
      else if table_nblocks db.mem root == 0
      then ok (some (block_addr root + mul32 index size)) db
      else (do
        items ← per block_size size
        block ← attempt (page_write_host_index B root (index / items)) pure (λ _. crashes)
        pure (some (block_addr block + mul32 (index % items) size)))
          db

  unfoldable pub array_get : (root index : ℕ) → M Db (List ℕ)
  array_get root index = do
    element ← array_data root index
    elim element [
      | none ↦ λ db. fail err_index_out_of_bounds db
      | some a ↦ λ db. ok (read_bytes db.mem a (item_size db.mem root)) db
    ]

  unfoldable pub array_set : (root index : ℕ) → List ℕ → M Db (Unit {0})
  array_set root index bytes = do
    element ← array_data root index
    elim element [
      | none ↦ λ db. fail err_index_out_of_bounds db
      | some a ↦ λ db.
          ok tt (record db { mem = write_bytes db.mem a (take (item_size db.mem root) bytes) })
    ]

  unfoldable pub clip_length : (root limit : ℕ) → M Db (Unit {0})
  clip_length root limit db =
      if ltb limit (array_length db.mem root) then write32 (length_at root) limit db else ok tt db

  -- "make small block": the first block's items go back to the root block.
  unfoldable pub make_small : (root bytes : ℕ) → M Db (Unit {0})
  make_small root bytes = do
    first_page ← page_write_host_index B root 0
    saved ← (λ db. ok (read_bytes db.mem (block_addr first_page) bytes) db)
    page_resize B root 0
    update_mem λ m. write_bytes m (block_addr root) saved

  -- The items of a small array go to the first block of the table that takes their place.
  unfoldable pub make_large : (root bytes nblocks : ℕ) → M Db (Unit {0})
  make_large root bytes nblocks = do
    saved ← (λ db. ok (read_bytes db.mem (block_addr root) bytes) db)
    update_mem λ m. memset m (block_addr root) 0 bytes
    page_resize B root nblocks
    first_page ← page_write_host_index B root 0
    update_mem λ m. write_bytes m (block_addr first_page) saved

  unfoldable pub array_resize : (root capacity : ℕ) → M Db (Unit {0})
  array_resize root capacity = do
    current ← array_capacity root
    size ← read8 (item_size_at root)
    n ← read32 (nblocks_at root)
    if capacity == current then done else do
      small ← per small_bytes size
      if leb capacity small
          then ((if n == 0 then done else make_small root (small * size)) >> clip_length root small)
          else do
            items ← per block_size size
            let nblocks = sub32 (add32 capacity items) 1 / items
            if n == nblocks
                then done
                else if n == 0
                then make_large root (small * size) nblocks
                else page_resize B root nblocks
            clip_length root (mul32 nblocks items)

  unfoldable pub array_push : ℕ → List ℕ → M Db (Unit {0})
  array_push root bytes = do
    capacity ← array_capacity root
    n ← read32 (length_at root)
    if ltb capacity (add32 n 1) then array_resize root (add32 n 1) else done
    n ← read32 (length_at root)
    write32 (length_at root) (add32 n 1)
    array_set root (sub32 (add32 n 1) 1) bytes

  unfoldable pub array_pop : ℕ → M Db (List ℕ)
  array_pop root = do
    n ← read32 (length_at root)
    bytes ← array_get root (sub32 n 1)
    n' ← read32 (length_at root)
    write32 (length_at root) (sub32 n' 1)
    pure bytes
