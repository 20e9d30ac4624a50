-- ===== src/Edb/Items.antt =====
-- The item functions of an array object with a small array.
use everdb_native.Base.{ℕ, ◌≡◌, ◌<◌, true, List, ◌==◌, ltb, arith}
use everdb_native.Core.{Db, Blocks}
use everdb_native.Array.Small.{IsSmall, item_at, array_get-small}
use everdb_native.Edb.Objects.{
  ObjHandle, in_session, on_db, set_root, refresh, obj_read, obj_write, edb_array_get,
  edb_array_set,
}
use everdb_native.Run.{ok}

module _ (B : Blocks) (db : Db) (h : ObjHandle) (size n i : ℕ) (bytes : List ℕ) where
  -- On a handle of the current transaction whose root block is written in place, `edb_array_set` of an
  -- item that the small array has does what `edb_array_get` does: it gives the old item and stores
  -- nothing.
  pub edb_array_set-edb_array_get :
      IsSmall db.mem h.root size n
      → h.txn_id ≡ db.txn_id
      → B.change h.root db ≡ ok h.root db
      → i < n
      → (edb_array_get B i (record { db = db; handle = h })
          ≡ ok (item_at db.mem h.root size i) (record { db = db; handle = h }))
        × (edb_array_set B i bytes (record { db = db; handle = h })
            ≡ ok (item_at db.mem h.root size i) (record { db = db; handle = h }))
  unfolding edb_array_get edb_array_set obj_read obj_write refresh on_db set_root in_session
  edb_array_set-edb_array_get is fresh own lt =
      let now : (db.txn_id == h.txn_id) ≡ true = ground arith in
      let within : ltb i n ≡ true = ground arith in
      (
        simp (now, array_get-small B db h.root size n is i, within),
        simp (now, own, array_get-small B db h.root size n is i, within),
      )
