-- ===== src/Tests.antt =====
-- Runs of the model at concrete inputs.
mod Data
mod Trees
mod Tables
mod Arrays
mod Txns
mod Atomic
mod Created
mod Growth
mod Removal
mod Pages
mod Files
use everdb_native.Tests.Data.{blank, obliging}
use everdb_native.Base.{
  ℕ, Bool, true, false, Option, none, some, List, [], ◌∷◌, ◌≡◌, refl, get_or, set, take, replicate,
  ◌==◌,
}
use everdb_native.Memory.{
  load8, store8, load32, store32, memset, memcpy, read_bytes, write_bytes, u32_bytes, bytes_u32,
}
use everdb_native.MemHash.{
  hash, probe, entry_at, stops, find_slot, probe_limit, locate, next_size, reinsert, resize, put,
  set_item, mem_hash_set, mem_hash_get, new,
}
use everdb_native.Core.{Db, Blocks, block_addr, read8, read32, write8, write32}
use everdb_native.Math.{smear, next_power_of_two}
use everdb_native.Io.{
  Os, OpenFile, zeroed, io_map_close, io_close, resize_failed, bytes_of, grow_file, cut_file,
  map_file, io_resize, open_blocks, io_open,
}
use everdb_native.Page.{
  index0, index1, page_read_host_index, page_init, page_write_host_index, push_data_block,
  grow_data, push_index_entry, grow_index, drop_index_entry, shrink_index, drop_data_block,
  shrink_data, page_resize,
}
use everdb_native.Array.{
  array_init, array_length, per, array_capacity, array_data, array_get, array_set, clip_length,
  make_small, make_large, array_resize, array_push, array_pop,
}
use everdb_native.Freelist.{
  u32_rounds, align_down, set_freelist, grown, push_blocks, extend_file, freelist_allocate_block,
  freelist_free_block,
}
use everdb_native.Txn.{
  check_txn, block_state, set_head, set_block_state, copy_block, txn_allocate_block, txn_free_block,
  txn_modify_block, blocks,
}
use everdb_native.Txn.Begin.{next_txn_id, txn_state_new, txn_begin_master, txn_begin}
use everdb_native.Txn.Commit.{
  current, each_entry, commit_entry, txn_commit_master, parent_state, set_parent_state, merge_freed,
  merge_copied, merge_entry, txn_commit,
}
use everdb_native.Txn.Abort.{txn_abort_master, undo_entries, txn_abort}
use everdb_native.Edb.{
  edb_check, check_writable, edb_close, edb_init, open_database, edb_open, edb_txn_begin,
  edb_txn_commit, edb_txn_abort,
}
use everdb_native.Edb.Objects.{
  Session, in_session, on_db, set_root, refresh, obj_read, obj_write, obj_create, edb_array_create,
  edb_array_open, edb_array_get, edb_array_set, edb_array_push, edb_array_pop, edb_array_length,
  edb_array_capacity,
}
use everdb_native.Run.{M, Outcome, ok, fail, hung, crashed, ◌>>=◌, ◌>>◌, pure, gets}

unfoldable pub program : Unit {0}
unfolding get_or set take replicate load8 store8 load32 store32 memset memcpy read_bytes write_bytes
    u32_bytes bytes_u32 hash probe entry_at stops find_slot probe_limit locate next_size reinsert
    resize put set_item mem_hash_set mem_hash_get new block_addr read8 read32 write8 write32 smear
    next_power_of_two zeroed io_map_close io_close resize_failed bytes_of grow_file cut_file
    map_file io_resize open_blocks io_open index0 index1 page_read_host_index page_init
    page_write_host_index push_data_block grow_data push_index_entry grow_index drop_index_entry
    shrink_index drop_data_block shrink_data page_resize array_init array_length per array_capacity
    array_data array_get array_set clip_length make_small make_large array_resize array_push
    array_pop u32_rounds align_down set_freelist grown push_blocks extend_file
    freelist_allocate_block freelist_free_block check_txn block_state set_head set_block_state
    copy_block txn_allocate_block txn_free_block txn_modify_block blocks next_txn_id txn_state_new
    txn_begin_master txn_begin current each_entry commit_entry txn_commit_master parent_state
    set_parent_state merge_freed merge_copied merge_entry txn_commit txn_abort_master undo_entries
    txn_abort edb_check check_writable edb_close edb_init open_database edb_open edb_txn_begin
    edb_txn_commit edb_txn_abort in_session on_db set_root refresh obj_read obj_write obj_create
    edb_array_create edb_array_open edb_array_get edb_array_set edb_array_push edb_array_pop
    edb_array_length edb_array_capacity
program = tt

-- The first allocation grows the file by a block.
created : Outcome Db (ℕ × ℕ × ℕ)
created =
    (do
      edb_open (obliging 0) [] 0 1
      edb_txn_begin (obliging 0) 5
      b ← (blocks (obliging 0) 5).allocate
      n ← gets (λ db. db.nblocks)
      c ← (blocks (obliging 0) 5).allocate
      pure (b, n, c))
      blank

value : {A : Type 0} → Outcome Db A → Option A
value (ok a s) = some a
value (fail e s) = none
value hung = none
value crashed = none

created_value : value created ≡ some (4, 5, 5)
unfolding program value created
created_value = refl

-- An array object: the item pushed is there before and after the commit.
items : Outcome Session (List ℕ × ℕ × ℕ)
items =
    (do
      edb_array_push (blocks (obliging 0) 5) (42 ∷ 1 ∷ [])
      x ← edb_array_get (blocks (obliging 0) 5) 0
      l ← edb_array_length (blocks (obliging 0) 5)
      c ← edb_array_capacity (blocks (obliging 0) 5)
      on_db (edb_txn_commit (obliging 0) 5)
      y ← edb_array_get (blocks (obliging 0) 5) 0
      pure (y, l, c))
      (elim ((do
        edb_open (obliging 0) [] 0 1
        edb_txn_begin (obliging 0) 5
        edb_array_create (blocks (obliging 0) 5) 2)
        blank) [
          | ok h db ↦ record { db = db; handle = h }
          | _ ↦ record { db = blank; handle = record { obj_id = 0; txn_id = 0; root = 0 } }
        ])

session_value : {A : Type 0} → Outcome Session A → Option A
session_value (ok a s) = some a
session_value (fail e s) = none
session_value hung = none
session_value crashed = none

items_value : session_value items ≡ some (42 ∷ 1 ∷ [], 1, 2042)
unfolding program session_value items
items_value = refl
