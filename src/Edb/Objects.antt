-- ===== src/Edb/Objects.antt =====
-- src/edb.c: object handles and the array interface. The state of these functions is the database
-- and the caller's handle, which keeps its new fields when a call fails.
use everdb_native.Base.{ℕ, ◌==◌, if◌then◌else◌, List}
use everdb_native.Base.Word.{minus}
use everdb_native.Memory.{u32_bytes, bytes_u32}
use everdb_native.Core.{Db, Blocks}
use everdb_native.Array.{array_init, array_length, array_capacity, array_get, array_push, array_pop}
use everdb_native.Run.{
  M, Outcome, ok, fail, hung, crashed, ◌>>=◌, ◌>>◌, done, pure, crashes, gets, modify, attempt,
}

-- `obj_handle_t`, without the pointer to the database.
pub record ObjHandle : Type 0 where
  pub obj_id : ℕ
  pub txn_id : ℕ
  pub root : ℕ

pub record Session : Type 0 where
  pub db : Db
  pub handle : ObjHandle

unfoldable pub in_session : {A : Type 0} → ObjHandle → Outcome Db A → Outcome Session A
in_session h (ok a db) = ok a (record { db = db; handle = h })
in_session h (fail e db) = fail e (record { db = db; handle = h })
in_session h hung = hung
in_session h crashed = crashed

-- A call on the handle's database.
unfoldable pub on_db : {A : Type 0} → M Db A → M Session A
on_db m s = in_session s.handle (m s.db)

unfoldable pub set_root : ℕ → M Session (Unit {0})
set_root root = modify λ s. record s { handle = record (s.handle) { root = root } }

module _ (B : Blocks) where
  -- "upgrading old obj": the root is read again in a new transaction.
  unfoldable pub refresh : M Session (Unit {0})
  refresh s =
      if s.db.txn_id == s.handle.txn_id
      then ok tt s
      else (do
        bytes ← on_db (array_get B s.db.objlist s.handle.obj_id)
        set_root (bytes_u32 bytes)
        modify λ s. record s { handle = record (s.handle) { txn_id = s.db.txn_id } })
          s

  unfoldable pub obj_read : M Session ℕ
  obj_read = do refresh; gets (λ s. s.handle.root)

  unfoldable pub obj_write : M Session ℕ
  obj_write = do
    refresh
    old ← gets (λ s. s.handle.root)
    root ← on_db (B.change old)
    set_root root
    pure root

  -- The root block is given back if the object list cannot take it.
  unfoldable pub obj_create : M Db ObjHandle
  obj_create = do
    old ← gets (λ db. db.objlist)
    objlist ← B.change old
    modify λ db. record db { objlist = objlist }
    txn_id ← gets (λ db. db.txn_id)
    obj_id ← gets (λ db. array_length db.mem objlist)
    root ← B.allocate
    objlist ← gets (λ db. db.objlist)
    attempt (array_push B objlist (u32_bytes root))
        (λ _. pure (record { obj_id = obj_id; txn_id = txn_id; root = root }))
        λ e. do
          if root == 0 then done else attempt (B.free root) (λ _. done) (λ _. crashes)
          λ db. fail e db

  unfoldable pub edb_array_create : ℕ → M Db ObjHandle
  edb_array_create size = do h ← obj_create; array_init h.root size; pure h

  -- The `txn_id` -1 makes the first use read the root.
  unfoldable pub edb_array_open : ℕ → ObjHandle
  edb_array_open obj_id = record { obj_id = obj_id; txn_id = minus 1; root = 0 }

  unfoldable pub edb_array_get : ℕ → M Session (List ℕ)
  edb_array_get index = do root ← obj_read; on_db (array_get B root index)

  -- The result is what the call leaves in the caller's buffer: it reads the item.
  unfoldable pub edb_array_set : ℕ → List ℕ → M Session (List ℕ)
  edb_array_set index bytes = do root ← obj_write; on_db (array_get B root index)

  unfoldable pub edb_array_push : List ℕ → M Session (Unit {0})
  edb_array_push bytes = do root ← obj_write; on_db (array_push B root bytes)

  unfoldable pub edb_array_pop : M Session (List ℕ)
  edb_array_pop = do root ← obj_write; on_db (array_pop B root)

  unfoldable pub edb_array_length : M Session ℕ
  edb_array_length = do root ← obj_read; gets (λ s. array_length s.db.mem root)

  unfoldable pub edb_array_capacity : M Session ℕ
  edb_array_capacity = do root ← obj_read; on_db (array_capacity root)
