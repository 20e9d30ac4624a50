-- ===== src/Page.antt =====
-- src/page.h, src/page.c: page tables. The words of a table at block `root` are `data_blocks`
-- (512 words) and `index_blocks` (512 words); the last word of the block is also `nblocks`. An
-- index page is 1024 words. The loops of `page_resize` run on fuel.
pub mod Index
use everdb_native.Base.{ℕ, zero, suc, ◌+◌, ◌*◌, ◌/◌, ◌%◌, ◌&&◌, ◌==◌, leb, ltb, if◌then◌else◌}
use everdb_native.Base.Word.{add32, sub32, minus}
use everdb_native.Memory.{Mem, load32, memset}
use everdb_native.Core.{Db, Blocks, block_addr, block_size, read32, write32, update_mem}
use everdb_native.Run.{M, ok, fail, ◌>>=◌, ◌>>◌, hung}

abbrev pub level_one : ℕ
level_one = 512

abbrev pub index_size : ℕ
index_size = 1024

abbrev pub err_out_of_bounds : ℕ
err_out_of_bounds = 3101

-- The macros INDEX0 and INDEX1, on 32-bit words.
unfoldable pub index0 : ℕ → ℕ
index0 index = sub32 index level_one / index_size

unfoldable pub index1 : ℕ → ℕ
index1 index = sub32 index level_one % index_size

-- Addresses of `pt->data_blocks[i]`, `pt->index_blocks[i]`, `pt->nblocks`, `ip->data_blocks[i]`.
abbrev pub data_at : ℕ → ℕ → ℕ
data_at root i = block_addr root + 4 * i

abbrev pub index_at : ℕ → ℕ → ℕ
index_at root i = block_addr root + 2048 + 4 * i

abbrev pub nblocks_at : ℕ → ℕ
nblocks_at root = block_addr root + 4092

abbrev pub table_nblocks : Mem → ℕ → ℕ
table_nblocks m root = load32 m (nblocks_at root)

-- The second result of an error is the `-1` that the C code leaves in `*block`.
pub data Lookup : Type 0 where
  found : ℕ → Lookup
  missing : (code block : ℕ) → Lookup

unfoldable pub page_read_host_index : Mem → (root index : ℕ) → Lookup
page_read_host_index m root index =
    if leb (table_nblocks m root) index
    then missing err_out_of_bounds (minus 1)
    else if table_nblocks m root == 0
    then found root
    else if ltb index level_one
    then found (load32 m (data_at root index))
    else found (load32 m (data_at (load32 m (index_at root (index0 index))) (index1 index)))

unfoldable pub page_init : ℕ → M Db (Unit {0})
page_init root = update_mem λ m. memset m (block_addr root) 0 block_size

module _ (B : Blocks) where
  unfoldable pub page_write_host_index : (root index : ℕ) → M Db ℕ
  page_write_host_index root index db =
      if leb (table_nblocks db.mem root) index
      then fail err_out_of_bounds db
      else if table_nblocks db.mem root == 0
      then B.change root db
      else if ltb index level_one
      then (do root ← B.change root; block ← read32 (data_at root index); B.change block) db
      else (do
        root ← B.change root
        index_block ← read32 (index_at root (index0 index))
        index_block ← B.change index_block
        block ← read32 (data_at index_block (index1 index))
        B.change block)
          db

  -- One round of "grow data_blocks".
  unfoldable pub push_data_block : ℕ → M Db (Unit {0})
  push_data_block root = do
    new_block ← B.allocate
    n ← read32 (nblocks_at root)
    write32 (data_at root n) new_block
    write32 (nblocks_at root) (add32 n 1)

  unfoldable pub grow_data : ℕ → (root nblocks : ℕ) → M Db (Unit {0})
  grow_data zero root nblocks db = hung
  grow_data (suc fuel) root nblocks db =
      let more = (push_data_block root >> grow_data fuel root nblocks) db in
      let n = table_nblocks db.mem root in
      if ltb n nblocks && ltb n level_one then more else ok tt db

  -- One round of "grow index_blocks".
  unfoldable pub push_index_entry : ℕ → M Db (Unit {0})
  push_index_entry root = do
    n ← read32 (nblocks_at root)
    old ← read32 (index_at root (index0 n))
    index_block ← if old == 0 then B.allocate else B.change old
    write32 (index_at root (index0 n)) index_block
    new_block ← B.allocate
    write32 (data_at index_block (index1 n)) new_block
    n' ← read32 (nblocks_at root)
    write32 (nblocks_at root) (add32 n' 1)

  unfoldable pub grow_index : ℕ → (root nblocks : ℕ) → M Db (Unit {0})
  grow_index zero root nblocks db = hung
  grow_index (suc fuel) root nblocks db =
      let more = (push_index_entry root >> grow_index fuel root nblocks) db in
      if ltb (table_nblocks db.mem root) nblocks then more else ok tt db

  -- One round of the first "shrink" loop. The index page is written before it is copied.
  unfoldable pub drop_index_entry : ℕ → M Db (Unit {0})
  drop_index_entry root = do
    n ← read32 (nblocks_at root)
    let index_index = index0 (sub32 n 1)
    let data_index = index1 (sub32 n 1)
    index_block ← read32 (index_at root index_index)
    data_block ← read32 (data_at index_block data_index)
    B.free data_block
    write32 (data_at index_block data_index) 0
    n' ← read32 (nblocks_at root)
    index_block' ←
        if index1 (sub32 n' 1) == 0 then (B.free index_block >> ok 0) else B.change index_block
    write32 (index_at root index_index) index_block'
    n'' ← read32 (nblocks_at root)
    write32 (nblocks_at root) (sub32 n'' 1)

  unfoldable pub shrink_index : ℕ → (root nblocks : ℕ) → M Db (Unit {0})
  shrink_index zero root nblocks db = hung
  shrink_index (suc fuel) root nblocks db =
      let more = (drop_index_entry root >> shrink_index fuel root nblocks) db in
      let n = table_nblocks db.mem root in
      if ltb nblocks n && ltb level_one n then more else ok tt db

  -- One round of the second "shrink" loop.
  unfoldable pub drop_data_block : ℕ → M Db (Unit {0})
  drop_data_block root = do
    n ← read32 (nblocks_at root)
    data_block ← read32 (data_at root (sub32 n 1))
    B.free data_block
    n' ← read32 (nblocks_at root)
    write32 (nblocks_at root) (sub32 n' 1)
    write32 (data_at root (sub32 n' 1)) 0

  unfoldable pub shrink_data : ℕ → (root nblocks : ℕ) → M Db (Unit {0})
  shrink_data zero root nblocks db = hung
  shrink_data (suc fuel) root nblocks db =
      let more = (drop_data_block root >> shrink_data fuel root nblocks) db in
      if ltb nblocks (table_nblocks db.mem root) then more else ok tt db

  -- A growing table takes at most `nblocks` rounds, a shrinking one as many as it has blocks.
  unfoldable pub page_resize : (root nblocks : ℕ) → M Db (Unit {0})
  page_resize root nblocks = do
    root ← B.change root
    n ← read32 (nblocks_at root)
    grow_data (nblocks + 1) root nblocks
    grow_index (nblocks + 1) root nblocks
    shrink_index (n + 1) root nblocks
    shrink_data (n + 1) root nblocks
