-- ===== src/Txn/Isolation.antt =====
-- What a transaction may do to the committed data: nothing. The invariant that the steps of an open
-- transaction (Txn.Step) keep.
use mathlib.Core.Path.{subst}
use everdb_native.Base.{
  ℕ, suc, ◌^◌, ◌≤◌, ◌<◌, ◌≡◌, ◌≢◌, ◌∙◌, ◌==◌, Bool, refl, List, [], ◌∷◌, inl, inr, ◌⊎◌, arith, sym,
  Bool-cases,
}
use everdb_native.Memory.{Mem, bytes_u32}
use everdb_native.MemHash.{MemHash}
use everdb_native.MemHash.{new as new_table}
use everdb_native.MemHash.Probe.{IsPlaced}
use everdb_native.MemHash.Map.{IsValid, Holds, Holds_unique, mem_hash_get-Holds}
use everdb_native.MemHash.Grow.{Written}
use everdb_native.Core.{Db, TxnState, IsWritable, user_data, objlist_block}
use everdb_native.Core.Words.{Apart, Inside, ne-Apart}
use everdb_native.Freelist.View.{stack}
use everdb_native.Txn.Exclusive.{IsExclusive, Change, Change-IsExclusive}
use everdb_native.Io.{Os}
use everdb_native.Array.Small.{IsSmall, item_at}
use everdb_native.Txn.{freed, allocated, blocks}
use everdb_native.Txn.States.{InState, own-IsWritable}
use everdb_native.Run.{Outcome, ok}
use everdb_native.Run.Returns.{Returns, returns}

-- The table of the current transaction.
abbrev pub table_of : List TxnState → MemHash
table_of [] = new_table
table_of (t ∷ ts) = t.blocks

-- A number that the free list may have.
abbrev pub Free : (ℕ → Type 0) → ℕ → Type 0
Free Live c = (user_data ≤ c) × (c < 2 ^ 20) × (¬ Live c)

-- The committed blocks are below 2 ^ 20 and none is the spare block 2.
abbrev pub IsCommitted : (ℕ → Type 0) → Type 0
IsCommitted Live = (b : ℕ) → Live b → (b < 2 ^ 20) × (b ≢ 2)

-- What a block may be to a transaction: released, allocated, freed, or the copy of a user block or of the
-- object list's root.
abbrev pub IsState : ℕ → Type 0
IsState s = (s ≡ 0) ⊎ ((s ≡ allocated) ⊎ ((s ≡ freed) ⊎ ((objlist_block ≤ s) × (s < 2 ^ 20))))

-- The transaction knows of user blocks only, but for the spare block of the free list.
abbrev pub IsSound : MemHash → Type 0
IsSound t = (b s : ℕ) → b ≢ 0 → b ≢ 2 → Holds t b s → (user_data ≤ b) × (b < 2 ^ 20) × IsState s

-- In a transaction that began with `n₀` blocks and the contents `m₀`: the committed blocks have their
-- contents, neither the free list nor the transaction has one of them, the table is sound, and no block
-- belongs to two of them.
pub record Isolated (Live : ℕ → Type 0) (m₀ : Mem) (n₀ : ℕ) (db : Db) : Type 0 where
  pub current : db.txn ≡ record { nblocks = n₀; blocks = table_of db.txn } ∷ []
  pub root : db.freelist ≡ 2
  pub valid : IsValid (table_of db.txn)
  pub spare : Holds (table_of db.txn) 2 1
  pub sound : IsSound (table_of db.txn)
  pub n : ℕ
  pub exclusive : IsExclusive Live (stack db.mem db.freelist n) (table_of db.txn)
  pub list : IsSmall db.mem db.freelist 4 n
  pub free : (j : ℕ) → j < n → Free Live (bytes_u32 (item_at db.mem db.freelist 4 j))
  pub owned :
      (b s : ℕ)
      → b ≢ 0
      → s ≢ 0
      → s ≢ freed
      → Holds (table_of db.txn) b s
      → (b < 2 ^ 20) × (¬ Live b)
  pub kept : (b p : ℕ) → Live b → Inside b p → db.mem p ≡ m₀ p

pub Returns-of :
    {S A : Type 0} {P : A → S → Type 0} {r : Outcome S A} {a : A} {s : S}
    → Returns P r
    → r ≡ ok a s
    → Returns P (ok a s)
Returns-of {P = P} p e = subst (λ x. Returns P x) e p

pub ok_of : {S A : Type 0} {P : A → S → Type 0} {a : A} {s : S} → Returns P (ok a s) → P a s
ok_of (returns p) = p

-- While block 2 is the transaction's copy of block 1, it is written in place.
pub root-IsWritable :
    (os : Os) (d : ℕ) (db : Db) (n : ℕ) (t : MemHash)
    → db.txn ≡ record { nblocks = n; blocks = t } ∷ []
    → db.freelist ≡ 2
    → IsPlaced t
    → Holds t 2 1
    → IsWritable (blocks os (suc d)) db db.freelist
root-IsWritable os d db n t current root placed spare =
    let state : InState db (record { nblocks = n; blocks = t }) [] 2 1 = record {
      current = current;
      known = mem_hash_get-Holds t 2 1 placed (omega arith) spare;
    } in
    subst (λ x. IsWritable (blocks os (suc d)) db x) (sym root)
      (own-IsWritable os d db state (omega arith) (omega arith))

module _ (Live : ℕ → Type 0) (m₀ : Mem) (n₀ : ℕ) (committed : IsCommitted Live) (db : Db)
    (i : Isolated Live m₀ n₀ db) where
  -- A state that differs from `db` in the contents, the table's entry for `c` and the size of the file.
  pub extend_file_to :
      (nblocks filesize : ℕ) (mapped writable : Bool) (m : Mem) (table : MemHash) (c s k : ℕ)
      → Written (table_of db.txn) table c s
      → user_data ≤ c
      → c < 2 ^ 20
      → IsState s
      → (s ≢ 0 → s ≢ freed → (c < 2 ^ 20) × (¬ Live c))
      → IsSmall m db.freelist 4 k
      → IsExclusive Live (stack m db.freelist k) table
      → ((j : ℕ) → j < k → Free Live (bytes_u32 (item_at m db.freelist 4 j)))
      → ((b p : ℕ) → Live b → Inside b p → m p ≡ db.mem p)
      → Isolated Live m₀ n₀ (record db {
        mapped = mapped;
        writable = writable;
        mem = m;
        filesize = filesize;
        nblocks = nblocks;
        txn = record { nblocks = n₀; blocks = table } ∷ [];
      })
  extend_file_to nblocks filesize mapped writable m table c s k u user small state fresh list
        exclusive free same =
      record {
        current = refl;
        root = i.root;
        valid = u.valid;
        spare = u.kept 2 1 (omega arith) (λ e. absurd (omega arith)) i.spare;
        sound = λ b s' b0 b2 holds. elim (Bool-cases (b == c)) [
          | inl at ↦
              let bc : b ≡ c = ground arith in
              let same_state = new_state b s' bc b0 holds in
              (omega arith, omega arith, subst IsState same_state state)
          | inr off ↦ i.sound b s' b0 b2 (u.only b s' b0 (ground arith) holds)
        ];
        n = k;
        exclusive = exclusive;
        list = list;
        free = free;
        owned = λ b s' b0 s0 sf holds. elim (Bool-cases (b == c)) [
          | inl at ↦
              let bc : b ≡ c = ground arith in
              let same_state = new_state b s' bc b0 holds in
              subst (λ x. (x < 2 ^ 20) × (¬ Live x)) (sym bc)
                (fresh (λ e. s0 (sym same_state ∙ e)) (λ e. sf (sym same_state ∙ e)))
          | inr off ↦ i.owned b s' b0 s0 sf (u.only b s' b0 (ground arith) holds)
        ];
        kept = λ b p live inside. same b p live inside ∙ i.kept b p live inside;
      }
    where
      new_state : (b s' : ℕ) → b ≡ c → b ≢ 0 → Holds table b s' → s ≡ s'
      new_state b s' bc b0 holds =
          Holds_unique table c s s' u.valid.placed (λ e. b0 (bc ∙ e)) u.new
            (subst (λ x. Holds table x s') bc holds)

  -- The same, where the file has the size that it had.
  pub extend :
      (m : Mem) (table : MemHash) (c s k : ℕ)
      → Written (table_of db.txn) table c s
      → user_data ≤ c
      → c < 2 ^ 20
      → IsState s
      → (s ≢ 0 → s ≢ freed → (c < 2 ^ 20) × (¬ Live c))
      → IsSmall m db.freelist 4 k
      → Change Live (table_of db.txn) c s (stack db.mem db.freelist i.n) (stack m db.freelist k)
      → ((j : ℕ) → j < k → Free Live (bytes_u32 (item_at m db.freelist 4 j)))
      → ((b p : ℕ) → Live b → Inside b p → m p ≡ db.mem p)
      → Isolated Live m₀ n₀
          (record db { mem = m; txn = record { nblocks = n₀; blocks = table } ∷ [] })
  extend m table c s k u user small state fresh list change free same =
      extend_file_to db.nblocks db.filesize db.mapped db.writable m table c s k u user small state
        fresh list
        (Change-IsExclusive Live (table_of db.txn) table c s _ _ (omega arith) i.exclusive u change)
        free same

  pub spare-IsWritable : (os : Os) (d : ℕ) → IsWritable (blocks os (suc d)) db db.freelist
  spare-IsWritable os d =
      root-IsWritable os d db n₀ (table_of db.txn) i.current i.root i.valid.placed i.spare

  pub live-Apart : (b c : ℕ) → Live b → c < 2 ^ 20 → ¬ Live c → Apart b c
  live-Apart b c live small dead =
      ne-Apart b c (committed b live).0 small λ e. dead (subst Live e live)

  pub live_root : (b : ℕ) → Live b → Apart b db.freelist
  live_root b live =
      subst (λ x. Apart b x) (sym i.root)
        (ne-Apart b 2 (committed b live).0 (omega arith) (committed b live).1)
