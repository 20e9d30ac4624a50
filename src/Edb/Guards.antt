-- ===== src/Edb/Guards.antt =====
-- What the public interface refuses while a transaction is open: a second one and a close.
use mathlib.Core.Path.{subst}
use everdb_native.Base.{ℕ, ◌≡◌, ◌≢◌, refl, ap, sym, List, ◌∷◌}
use everdb_native.Core.{Db, Blocks, TxnState}
use everdb_native.Io.{Os}
use everdb_native.Txn.{freed, err_not_implemented, blocks}
use everdb_native.Txn.Begin.{txn_begin}
use everdb_native.Txn.States.{InState, txn_modify_block_own}
use everdb_native.Freelist.{set_freelist}
use everdb_native.Edb.{error_open_txn, check_writable, edb_close, edb_txn_begin}
use everdb_native.Run.{fail}

-- `txn_begin` on a handle with the transaction `t`.
txn_begin-open :
    (os : Os) (B : Blocks) (db : Db) (t : TxnState) (ts : List TxnState) (state : ℕ)
    → InState (record db { txn = t ∷ ts }) t ts db.freelist state
    → state ≢ 0
    → state ≢ freed
    → txn_begin os B (record db { txn = t ∷ ts })
      ≡ fail err_not_implemented (record db { txn = t ∷ ts })
unfolding txn_begin set_freelist
txn_begin-open os B db t ts state at some_state live =
    rw (txn_modify_block_own os B (record db { txn = t ∷ ts }) at some_state live)

module _ (os : Os) (depth : ℕ) (db : Db) where
  -- While a transaction is open that has its own copy of the free list's root, a second one is refused
  -- with EDB_ERR_TXN_NOT_IMPLEMENTED and closing with EDB_ERROR_OPEN_TXN, and nothing is changed.
  pub open_txn_refused :
      {t : TxnState} {ts : List TxnState} {state : ℕ}
      → db.readonly ≡ 0
      → InState db t ts db.freelist state
      → state ≢ 0
      → state ≢ freed
      → (edb_txn_begin os depth db ≡ fail err_not_implemented db)
        × (edb_close db ≡ fail error_open_txn db)
  unfolding edb_txn_begin edb_close check_writable
  open_txn_refused {t} {ts} {state} writable at some_state live =
      let same : db ≡ record db { txn = t ∷ ts } =
        ap (λ (l : List TxnState). record db { txn = l }) at.current in
      (
        simp writable (
            subst (λ d. txn_begin os (blocks os depth) d ≡ fail err_not_implemented d) (sym same)
              (txn_begin-open os (blocks os depth) db t ts state
                (record { current = refl; known = at.known }) some_state live)),
        subst (λ d. edb_close d ≡ fail error_open_txn d) (sym same) refl,
      )
