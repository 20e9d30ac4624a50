-- ===== src/Freelist.antt =====
-- src/freelist.c: the list of free blocks is an array of u32 at the block `db->freelist`. It calls
-- the block functions, which call it: they are the parameter `B`.
pub mod Stack
pub mod View
use Prim.Native.Nat.{bit_and}
use everdb_native.Base.{
  ℕ, zero, suc, ◌+◌, ◌-◌, ◌/◌, ◌^◌, Bool, true, false, ◌==◌, leb, ltb, if◌then◌else◌,
}
use everdb_native.Base.Word.{add32, sub32}
use everdb_native.Memory.{u32_bytes, bytes_u32}
use everdb_native.Core.{Db, Blocks, user_data}
use everdb_native.Io.{Os, io_resize}
use everdb_native.Math.{next_power_of_two}
use everdb_native.Array.{array_length, array_pop, array_push}
use everdb_native.Run.{
  M, Outcome, ok, fail, hung, ◌>>=◌, ◌>>◌, pure, gets, modify, return_code, check_code,
}

-- A loop over a u32 counter that goes up takes at most this many rounds.
unfoldable pub u32_rounds : ℕ
u32_rounds = 2 ^ 32

-- `x & ~(step - 1)`
unfoldable pub align_down : ℕ → ℕ → ℕ
align_down x step = bit_and x (2 ^ 32 - 1 - sub32 step 1)

-- `db->freelist = b`
unfoldable pub set_freelist : ℕ → M Db (Unit {0})
set_freelist b = modify λ db. record db { freelist = b }

-- The size that `freelist_allocate_block` asks for: about an eighth more, as a multiple of a power
-- of two.
unfoldable pub grown : ℕ → ℕ
grown nblocks =
    let step = next_power_of_two (nblocks / 2 ^ 3) in align_down (add32 nblocks step) step

module _ (os : Os) (B : Blocks) where
  -- `for (i = ..; i < db->nblocks; i++)`
  unfoldable pub push_blocks : ℕ → ℕ → M Db (Unit {0})
  push_blocks zero i db = hung
  push_blocks (suc fuel) i db =
      let more = (array_push B db.freelist (u32_bytes i) >> push_blocks fuel (add32 i 1)) db in
      if ltb i db.nblocks then more else ok tt db

  unfoldable pub extend_file : M Db ℕ
  extend_file = do
    nblocks ← gets (λ db. db.nblocks)
    io_resize os (grown nblocks)
    push_blocks u32_rounds (add32 nblocks 1)
    pure nblocks

  unfoldable pub freelist_allocate_block : M Db ℕ
  freelist_allocate_block = do
    old ← gets (λ db. db.freelist)
    new ← B.change old
    set_freelist new
    length ← gets (λ db. array_length db.mem new)
    if ltb 0 length then (do bytes ← array_pop B new; pure (bytes_u32 bytes)) else extend_file

  -- The error code of a refused block is its number, and so 0 for block 0.
  unfoldable pub freelist_free_block : ℕ → M Db (Unit {0})
  freelist_free_block block =
      if leb user_data block
      then (do
        old ← gets (λ db. db.freelist)
        new ← B.change old
        set_freelist new
        array_push B new (u32_bytes block))
      else return_code block
