-- ===== src/Txn/Steps.antt =====
-- The release of a copy: it changes two entries of the table.
use mathlib.Core.Path.{subst}
use everdb_native.Base.{
  ℕ, suc, ◌+◌, ◌*◌, ◌≤◌, ◌<◌, ◌≡◌, ◌≢◌, ◌∙◌, ◌==◌, refl, [], ◌∷◌, inl, inr, some, arith, sym, ap,
  Bool-cases,
}
use everdb_native.Memory.{Mem, bytes_u32, u32_bytes}
use everdb_native.Memory.Ranges.{bytes_u32-u32_bytes}
use everdb_native.MemHash.{MemHash, mem_hash_set}
use everdb_native.MemHash.Map.{Holds, Holds_unique, mem_hash_get-Holds}
use everdb_native.MemHash.Grow.{HasRoomFor, valid_set-Written}
use everdb_native.Core.{Db, user_data}
use everdb_native.Core.Words.{Inside}
use everdb_native.Io.{Os}
use everdb_native.Array.{small_bytes}
use everdb_native.Array.Small.{IsSmall, item_at}
use everdb_native.Array.Stack.{Pushed}
use everdb_native.MemHash.Probe.{IsPlaced}
use everdb_native.Freelist.View.{stack, stack-Pushed}
use everdb_native.Txn.{allocated, freed, blocks, txn_free_block}
use everdb_native.Txn.States.{InState}
use everdb_native.Txn.Calls.{txn_free_block-drops}
use everdb_native.Txn.Exclusive.{IsUser, IsUncopied, gives, marks}
use everdb_native.Txn.Isolation.{
  table_of, IsCommitted, Isolated, Free, Returns-of, ok_of, extend, root-IsWritable, live_root,
}
use everdb_native.Run.{ok}

module _ (os : Os) (d : ℕ) (Live : ℕ → Type 0) (m₀ : Mem) (n₀ : ℕ) (committed : IsCommitted Live)
    (db db' : Db) (i : Isolated Live m₀ n₀ db) where
  -- The free list with one more block.
  module _ (c n : ℕ) (m : Mem) (user : IsUser c) (dead : ¬ Live c) (size : i.n ≡ n)
      (pushed : Pushed db.mem m db.freelist 4 n (u32_bytes c)) where
    pub pushed-Free : (j : ℕ) → j < n + 1 → Free Live (bytes_u32 (item_at m db.freelist 4 j))
    pushed-Free j lt = elim (Bool-cases (j == n)) [
      | inl at_end ↦
          let jn : j ≡ n = ground arith in
          rw (jn, pushed.last, bytes_u32-u32_bytes c (omega (arith, user))) (user.0, user.1, dead)
      | inr earlier ↦ rw (pushed.before j (ground arith)) (i.free j (ground arith))
    ]

    pub pushed_live : (b p : ℕ) → Live b → Inside b p → m p ≡ db.mem p
    pushed_live b p live inside =
        let a = live_root Live m₀ n₀ committed db i b live in
        pushed.outside p (ground (arith, a, inside))

  -- The release of the copy `c` of the user block `b`.
  pub dropped-Isolated :
      (b c n : ℕ)
      → user_data ≤ b
      → user_data ≤ c
      → Holds (table_of db.txn) c b
      → b ≢ allocated
      → b ≢ freed
      → IsSmall db.mem db.freelist 4 n
      → (n + 1) * 4 ≤ small_bytes
      → HasRoomFor (table_of db.txn) c
      → ((t : MemHash) → mem_hash_set (table_of db.txn) c 0 ≡ some t → HasRoomFor t b)
      → txn_free_block os (blocks os (suc d)) c db ≡ ok tt db'
      → Isolated Live m₀ n₀ db'
  dropped-Isolated b c n user_b user_c holds ba bf list room has has' call =
      let t = table_of db.txn in
      let c0 : c ≢ 0 = λ e. absurd (omega arith) in
      let b0 : b ≢ 0 = λ e. absurd (omega arith) in
      let c2 : c ≢ 2 = λ e. absurd (omega arith) in
      let (small, dead) = i.owned c b c0 b0 bf holds in
      let user : IsUser b = original holds in
      let (live, once) = i.exclusive.copied_once c b c0 c2 user holds in
      let (t₁, set, u) = valid_set-Written t c 0 i.valid c0 has in
      let (t₂, mark, v) = valid_set-Written t₁ b freed u.valid b0 (has' t₁ set) in
      let at : InState db (record { nblocks = n₀; blocks = t }) [] c b = record {
        current = i.current;
        known = mem_hash_get-Holds t c b i.valid.placed c0 holds;
      } in
      let spare = u.kept 2 1 (omega arith) (λ e. c2 (sym e)) i.spare in
      let db₂ : Db = record db { txn = record { nblocks = n₀; blocks = t₂ } ∷ [] } in
      let (only, pushed) = ok_of (
        Returns-of
          (txn_free_block-drops os (blocks os (suc d)) db (record { nblocks = n₀; blocks = t }) [] c
            t₂ n b t₁ at b0 ba bf set mark list
            (root-IsWritable os d db₂ n₀ t₂ refl i.root v.valid.placed
              (v.kept 2 1 (omega arith) (λ e. absurd (omega arith)) spare))
            room user_c)
          call) in
      let size : i.n ≡ n = sym i.list.length ∙ list.length in
      let top =
        subst (λ x. stack db'.mem db.freelist (n + 1) ≡ c ∷ stack db.mem db.freelist x) (sym size)
          (stack-Pushed db.mem db'.mem db.freelist n c (omega arith) pushed) in
      let first =
        extend Live m₀ n₀ committed db i db'.mem t₁ c 0 (n + 1) u user_c small (inl refl)
          (λ s0 sf. absurd (s0 refl)) pushed.small (gives b top refl (user_c, small) dead b0 holds)
          (pushed-Free c n db'.mem (user_c, small) dead size pushed)
          (pushed_live c n db'.mem (user_c, small) dead size pushed) in
      let db₁ : Db = record db { mem = db'.mem; txn = record { nblocks = n₀; blocks = t₁ } ∷ [] } in
      let again : first.n ≡ n + 1 = sym first.list.length ∙ pushed.small.length in
      subst (Isolated Live m₀ n₀) (sym only) (
        extend Live m₀ n₀ committed db₁ first db'.mem t₂ b freed (n + 1) v user_b
          (committed b live).0 (inr (inr (inl refl))) (λ s0 sf. absurd (sf refl)) pushed.small
          (marks (ap (stack db'.mem db.freelist) (sym again)) refl live user
            (uncopied t₁ u.new u.only once u.valid.placed))
          (pushed-Free c n db'.mem (user_c, small) dead size pushed) λ q p is_live inside. refl)
    where
      original : Holds (table_of db.txn) c b → IsUser b
      original h = elim (i.sound c b (λ e. absurd (omega arith)) (λ e. absurd (omega arith)) h).2 [
        | inl e ↦ absurd (omega arith)
        | inr r ↦ elim r [
          | inl e ↦ absurd (ba e)
          | inr r' ↦ elim r' [ inl e ↦ absurd (bf e) | inr old ↦ (user_b, old.1) ]
        ]
      ]

      uncopied :
          (t₁ : MemHash)
          → Holds t₁ c 0
          → ((q w : ℕ) → q ≢ 0 → q ≢ c → Holds t₁ q w → Holds (table_of db.txn) q w)
          → ((c' : ℕ) → c' ≢ 0 → c' ≢ 2 → Holds (table_of db.txn) c' b → c' ≡ c)
          → IsPlaced t₁
          → IsUncopied t₁ b
      uncopied t₁ new only once placed c' z two h = elim (Bool-cases (c' == c)) [
        | inl same ↦
            let e : c' ≡ c = ground arith in
            let zero : b ≡ 0 =
              Holds_unique t₁ c b 0 placed (λ y. z (e ∙ y)) (subst (λ y. Holds t₁ y b) e h) new in
            absurd (omega arith)
        | inr other ↦ let ne : c' ≢ c = ground arith in ne (once c' z two (only c' b z ne h))
      ]
