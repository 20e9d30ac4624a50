-- ===== src/Txn/States.antt =====
-- What the block functions do in each state that a block can have in the current transaction.
use everdb_native.Base.{
  ℕ, suc, ◌≡◌, ◌≢◌, ◌∙◌, refl, List, ◌∷◌, false, some, inl, inr, ◌==◌, arith, Bool-cases, ap,
}
use everdb_native.Base.Word.{minus}
use everdb_native.MemHash.{mem_hash_get}
use everdb_native.MemHash.Map.{IsValid, mem_hash_get-Holds}
use everdb_native.MemHash.Grow.{HasRoomFor, valid_set-Written}
use everdb_native.Core.{IsWritable, Db, TxnState, Blocks}
use everdb_native.Io.{Os}
use everdb_native.Txn.{
  allocated, freed, err_invalid_block, check_txn, block_state, set_head, set_block_state,
  txn_free_block, txn_modify_block, blocks,
}
use everdb_native.Run.{ok, fail}
use everdb_native.Run.Returns.{Returns, returns}

-- The current transaction `t` has the state `state` for the block `b`.
pub record InState (db : Db) (t : TxnState) (ts : List TxnState) (b state : ℕ) : Type 0 where
  pub current : db.txn ≡ t ∷ ts
  pub known : mem_hash_get t.blocks b ≡ some state

module _ (os : Os) (B : Blocks) where
  module _ (db : Db) {t : TxnState} {ts : List TxnState} {b state : ℕ}
      (at : InState db t ts b state) where
    pub block_state-known : block_state b db ≡ ok state db
    unfolding block_state
    block_state-known = rw (at.current, at.known)

    pub check_txn-open : check_txn db ≡ ok tt db
    unfolding check_txn
    check_txn-open = rw at.current

    -- A block that the transaction has freed can be neither freed again nor modified; nothing is
    -- changed.
    blocks_freed :
        state ≡ freed
        → (txn_free_block os B b db ≡ fail err_invalid_block db)
          × (txn_modify_block os B b db ≡ fail (minus 1) db)
    unfolding txn_free_block txn_modify_block
    blocks_freed is =
        (rw (check_txn-open, block_state-known, is), rw (check_txn-open, block_state-known, is))

    -- A block that the transaction has allocated or copied is modified in place.
    pub txn_modify_block_own : state ≢ 0 → state ≢ freed → txn_modify_block os B b db ≡ ok b db
    unfolding txn_modify_block
    txn_modify_block_own some_state live =
        let not_freed : (state == freed) ≡ false = ground arith in
        let not_zero : (state == 0) ≡ false = ground arith in
        elim (Bool-cases (state == allocated)) [
          | inl e ↦ rw (check_txn-open, block_state-known, e)
          | inr e ↦ rw (check_txn-open, block_state-known, e, not_freed, not_zero)
        ]

-- At every depth of the block functions a block that the transaction has allocated or copied is
-- written in place: changing it gives the block itself and changes nothing.
pub own-IsWritable :
    (os : Os) (d : ℕ) (db : Db) {t : TxnState} {ts : List TxnState} {b state : ℕ}
    → InState db t ts b state
    → state ≢ 0
    → state ≢ freed
    → IsWritable (blocks os (suc d)) db b
unfolding blocks
own-IsWritable os d db at some_state live db' only =
    txn_modify_block_own os (blocks os d) db'
      (record { current = ap (λ (x : Db). x.txn) only ∙ at.current; known = at.known }) some_state
      live

-- In a transaction whose table has at most 315 keys, all with low hashes as the block has, freeing a block
-- other than 0 that the transaction has not touched succeeds and changes nothing but the table; the block can then be neither freed again nor
-- modified.
pub txn_free_block_once :
    (os : Os) (B : Blocks) (db : Db) (t : TxnState) (ts : List TxnState) (b : ℕ)
    → InState db t ts b 0
    → b ≢ 0
    → IsValid t.blocks
    → HasRoomFor t.blocks b
    → Returns
        (λ _ db'.
          (db' ≡ record db { txn = db'.txn })
          × (txn_free_block os B b db' ≡ fail err_invalid_block db')
          × (txn_modify_block os B b db' ≡ fail (minus 1) db'))
        (txn_free_block os B b db)
unfolding txn_free_block set_block_state set_head
txn_free_block_once os B db t ts b at b0 valid has =
    let (table, set, updated) = valid_set-Written t.blocks b freed valid b0 has in
    let db' : Db = record db { txn = record t { blocks = table } ∷ ts } in
    let known = mem_hash_get-Holds table b freed updated.valid.placed b0 updated.new in
    let (again, changed) =
      blocks_freed os B db' {t = record t { blocks = table }} {ts = ts} {b = b} {state = freed}
        (record { current = refl; known = known }) refl in
    rw (check_txn-open os B db at, block_state-known os B db at, at.current, set)
      (returns (refl, unfold txn_free_block in again, changed))
