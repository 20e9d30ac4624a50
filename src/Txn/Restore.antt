-- ===== src/Txn/Restore.antt =====
-- Aborting a transaction gives the committed data back.
use everdb_native.Base.{ℕ, ◌*◌, ◌^◌, ◌<◌, ◌≡◌, ◌∙◌, refl, arith}
use everdb_native.Memory.{Mem}
use everdb_native.Core.{Db, Blocks}
use everdb_native.Core.Words.{block_addr_small, Inside}
use everdb_native.Io.{Os, bytes_of}
use everdb_native.Io.Resize.{IsReliable, io_resize-Resized}
use everdb_native.Txn.Abort.{txn_abort, txn_abort_master}
use everdb_native.Txn.Begin.{next_txn_id}
use everdb_native.Txn.Cycle.{IsIdle}
use everdb_native.Txn.Isolation.{IsCommitted, Isolated}
use everdb_native.Txn.Step.{Reach}
use everdb_native.Run.Returns
use everdb_native.Run.Returns.{Returns, returns}
use everdb_native.Txn.Invariant.{Reach-Isolated}

-- The committed data as it was, and no transaction.
pub record Restored (Live : ℕ → Type 0) (m₀ : Mem) (n₀ : ℕ) (db' : Db) : Type 0 where
  pub idle : IsIdle db'
  pub nblocks : db'.nblocks ≡ n₀
  pub contents : (b p : ℕ) → Live b → Inside b p → db'.mem p ≡ m₀ p

module _ (os : Os) (d : ℕ) (Live : ℕ → Type 0) (m₀ : Mem) (n₀ : ℕ)
    (committed : IsCommitted Live) where
  -- On a reliable system a transaction that has taken any number of steps can be aborted: then none is
  -- open, the roots are those of the committed data, the file has its old size, and every committed block
  -- below that size has its old contents.
  pub txn_abort-Restored :
      (B : Blocks) (db db' : Db)
      → IsReliable os
      → 0 < n₀
      → n₀ < 2 ^ 20
      → ((b : ℕ) → Live b → b < n₀)
      → Isolated Live m₀ n₀ db
      → Reach os d Live db db'
      → Returns (λ _ e. Restored Live m₀ n₀ e) (txn_abort os B db')
  unfolding txn_abort txn_abort_master next_txn_id
  txn_abort-Restored B db db' reliable some_blocks small below start steps =
      let i = Reach-Isolated os d Live m₀ n₀ committed db db' start steps in
      let whole : bytes_of n₀ ≡ n₀ * 4096 = unfold bytes_of in omega arith in
      rw i.current (
        Returns.bind (io_resize-Resized os reliable n₀ _ (omega (arith, whole)) (omega arith))
          λ _ e r. returns (record {
            idle = record {
              none_open = refl;
              primary = r.session.freelist;
              objects = r.session.objlist;
            };
            nblocks = r.nblocks;
            contents = λ b p live inside.
                let a = block_addr_small b (committed b live).0 in
                r.kept p (omega (arith, whole, a, inside, below b live)) ∙ i.kept b p live inside;
          }))
