-- ===== src/Tests/Arrays.antt =====
-- Arrays and the free list at concrete inputs: the array of u32 at block 1 has the one item 9.
use everdb_native.Base.{◌≡◌, refl, arith, [], ◌∷◌, ltb, if◌then◌else◌}
use everdb_native.Memory.{Mem, load8, load32, store8, store32}
use everdb_native.Core.{OnlyMem, block_addr}
use everdb_native.Array.{array_length, array_get, array_push, array_pop, err_index_out_of_bounds}
use everdb_native.Array.Small.{IsSmall, item_at, array_get-small}
use everdb_native.Array.Stack.{Pushed, Shortened, array_push-Pushed, array_pop-Shortened}
use everdb_native.Freelist.{freelist_allocate_block, freelist_free_block}
use everdb_native.Freelist.Stack.{Recovered, allocate-free}
use everdb_native.Edb.Objects.{ObjHandle, edb_array_get, edb_array_set}
use everdb_native.Edb.Items.{edb_array_set-edb_array_get}
use everdb_native.Run.{ok, fail, ◌>>◌}
use everdb_native.Run.Returns.{Returns}
use everdb_native.Tests.Data.{in_place, holding, obliging}

abbrev pub list_mem : Mem
list_mem = store32 (store8 (store8 (λ p. 0) 8180 4) 4096 9) 8184 1

pub list-IsSmall : IsSmall list_mem 1 4 1
unfolding load8 load32 store8 store32 array_length block_addr
list-IsSmall = record {
  no_table = refl;
  item = refl;
  positive = omega arith;
  byte = omega arith;
  length = refl;
  fits = omega arith;
}

array_push_example :
    Returns
      (λ _ db'. OnlyMem (holding list_mem) db' × Pushed list_mem db'.mem 1 4 1 (1 ∷ 2 ∷ 3 ∷ 4 ∷ []))
      (array_push in_place 1 (1 ∷ 2 ∷ 3 ∷ 4 ∷ []) (holding list_mem))
array_push_example =
    array_push-Pushed in_place (holding list_mem) 1 4 1 list-IsSmall (1 ∷ 2 ∷ 3 ∷ 4 ∷ [])
      (omega arith) refl (omega arith, (omega arith, (omega arith, (omega arith, tt))))

array_pop_example :
    Returns
      (λ bytes db'.
        OnlyMem (holding list_mem) db'
        × (bytes ≡ item_at list_mem 1 4 0)
        × Shortened list_mem db'.mem 1 4 0)
      (array_pop in_place 1 (holding list_mem))
array_pop_example = array_pop-Shortened in_place (holding list_mem) 1 4 1 list-IsSmall 0 refl

array_get_example : array_get in_place 1 0 (holding list_mem) ≡ (
    if ltb 0 1
    then ok (item_at list_mem 1 4 0) (holding list_mem)
    else fail err_index_out_of_bounds (holding list_mem))
array_get_example = array_get-small in_place (holding list_mem) 1 4 1 list-IsSmall 0

allocate-free_example : Returns (Recovered (holding list_mem) 1 12) (
    (freelist_free_block (obliging 4) in_place 12 >> freelist_allocate_block (obliging 4) in_place)
      (holding list_mem))
allocate-free_example =
    allocate-free (obliging 4) in_place (holding list_mem) 1 list-IsSmall (λ d only. refl) 12
      (omega arith) (omega arith) (omega arith)

abbrev on_list : ObjHandle
on_list = record { obj_id = 0; txn_id = 0; root = 1 }

edb_array_set_example :
    (edb_array_get in_place 0 (record { db = holding list_mem; handle = on_list })
      ≡ ok (item_at list_mem 1 4 0) (record { db = holding list_mem; handle = on_list }))
    × (edb_array_set in_place 0
          (1 ∷ 2 ∷ 3 ∷ 4 ∷ [])
          (record { db = holding list_mem; handle = on_list })
        ≡ ok (item_at list_mem 1 4 0) (record { db = holding list_mem; handle = on_list }))
edb_array_set_example =
    edb_array_set-edb_array_get in_place (holding list_mem) on_list 4 1 0 (1 ∷ 2 ∷ 3 ∷ 4 ∷ [])
      list-IsSmall refl refl (omega arith)
