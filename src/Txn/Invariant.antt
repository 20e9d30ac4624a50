-- ===== src/Txn/Invariant.antt =====
-- Every step of a transaction keeps the committed data.
use mathlib.Core.Path.{subst}
use everdb_native.Base.{
  ℕ, suc, ◌+◌, ◌≡◌, ◌≢◌, ◌∙◌, ◌==◌, refl, List, [], ◌∷◌, inl, inr, arith, sym, ap, Bool-cases,
}
use everdb_native.Memory.{Mem, store8, bytes_u32}
use everdb_native.MemHash.Map.{mem_hash_get-Holds}
use everdb_native.MemHash.Grow.{valid_set-Written}
use everdb_native.Freelist.View.{stack, stack-Pushed, stack_popped}
use everdb_native.Txn.Exclusive.{marks, gives}
use everdb_native.Core.{Db, TxnState}
use everdb_native.Core.Words.{Apart, ne-Apart}
use everdb_native.Io.{Os}
use everdb_native.Array.Small.{item_at}
use everdb_native.Memory.Ranges.{bytes_u32-u32_bytes}
use everdb_native.Txn.{allocated, freed, blocks}
use everdb_native.Txn.States.{InState, txn_modify_block_own}
use everdb_native.Txn.Calls.{txn_free_block-marks, txn_free_block-Returns, txn_allocate_block-takes}
use everdb_native.Txn.Copy.{txn_modify_block-Copied}
use everdb_native.Txn.Isolation.{
  table_of, IsCommitted, Isolated, Returns-of, ok_of, extend, root-IsWritable, spare-IsWritable,
  live-Apart, live_root,
}
use everdb_native.Txn.Step.{
  Step, copies, reuses, writes, frees, allocates, releases, Reach, points, drops, grows, extends,
  here, next,
}
use everdb_native.Txn.Own.{written-Isolated, taken-Isolated}
use everdb_native.Txn.Steps.{dropped-Isolated}
use everdb_native.Txn.Growth.{cloned-Change, grown-Isolated, copied-Isolated}
use everdb_native.Run.{Outcome, ok}

-- Equal outcomes have equal states.
pub state_of : {S A : Type 0} {a b : A} {s t : S} → ok a s ≡ ok b t → s ≡ t
state_of {S} {A} {s = s} e = ap (λ (r : Outcome S A). elim r [ ok x y ↦ y | _ ↦ s ]) e

module _ (os : Os) (d : ℕ) (Live : ℕ → Type 0) (m₀ : Mem) (n₀ : ℕ)
    (committed : IsCommitted Live) where
  -- Every step of a transaction leaves the committed data alone.
  pub Step-Isolated :
      (db db' : Db) → Step os d Live db db' → Isolated Live m₀ n₀ db → Isolated Live m₀ n₀ db'
  Step-Isolated db db' (copies b c' k user_b live known none list has call) i =
      let t : TxnState = record { nblocks = n₀; blocks = table_of db.txn } in
      let at : InState db t [] b 0 = record { current = i.current; known = known } in
      let c = bytes_u32 (item_at db.mem db.freelist 4 k) in
      let size : i.n ≡ suc k = sym i.list.length ∙ list.length in
      let (user, small, dead) = i.free k (omega (arith, size)) in
      let aside : Apart c db.freelist =
        subst (λ x. Apart c x) (sym i.root) (ne-Apart c 2 small (omega arith) (omega arith)) in
      let (same, rest, copied) = ok_of (
        Returns-of
          (txn_modify_block-Copied os (blocks os (suc d)) db t [] b c k at i.valid list
            (spare-IsWritable Live m₀ n₀ committed db i os d) refl
            (live_root Live m₀ n₀ committed db i b live)
            (live-Apart Live m₀ n₀ committed db i b c live small dead) aside (omega arith) has)
          call) in
      subst (Isolated Live m₀ n₀)
        (sym (
          rest
          ∙ ap (λ (x : List TxnState). record db { mem = db'.mem; txn = x }) copied.state.current))
        (extend Live m₀ n₀ committed db i db'.mem copied.table c b k copied.updated user small
          (inr (inr (inr (user_b, (committed b live).0)))) (λ s0 sf. (small, dead)) copied.list
          (cloned-Change Live m₀ n₀ committed db b c _ (stack db'.mem db.freelist k) i known user_b
            live none (stack_popped db.mem db'.mem db.freelist i.n k size copied.items))
          (λ j lt. rw (copied.items j lt) (i.free j (omega (arith, size))))
          λ q p live' inside.
            let from_copy = live-Apart Live m₀ n₀ committed db i q c live' small dead in
            let from_root = live_root Live m₀ n₀ committed db i q live' in
            copied.others p (λ x. omega (arith, from_copy, inside, x))
              (λ x. omega (arith, from_root, inside, x)))
  Step-Isolated db db' (points o e) i = subst (Isolated Live m₀ n₀) (sym e) (record {
    current = i.current;
    root = i.root;
    valid = i.valid;
    spare = i.spare;
    sound = i.sound;
    n = i.n;
    exclusive = i.exclusive;
    list = i.list;
    free = i.free;
    owned = i.owned;
    kept = i.kept;
  })
  Step-Isolated db db' (drops b c n user_b user_c holds ba bf list room has has' call) i =
      dropped-Isolated os d Live m₀ n₀ committed db db' i b c n user_b user_c holds ba bf list room
        has has' call
  Step-Isolated db db' (grows c reliable list low longer small room inside fresh has call) i =
      grown-Isolated os d Live m₀ n₀ committed db db' i c reliable list low longer small room inside
        fresh has call
  Step-Isolated db db'
        (extends b c low_b live known none reliable list low longer small room inside fresh has
          call)
        i =
      copied-Isolated os d Live m₀ n₀ committed db db' i b c low_b live known none reliable list low
        longer small room inside fresh has call
  Step-Isolated db db' (reuses b c s known s0 sf call) i =
      let at : InState db (record { nblocks = n₀; blocks = table_of db.txn }) [] b s = record {
        current = i.current;
        known = known;
      } in
      subst (Isolated Live m₀ n₀)
        (state_of (sym (txn_modify_block_own os (blocks os (suc d)) db at s0 sf) ∙ call)) i
  Step-Isolated db db' (writes b s p v b0 b2 holds s0 sf inside e) i =
      subst (Isolated Live m₀ n₀) (sym e) (
        written-Isolated Live m₀ n₀ committed db i (store8 db.mem p v) λ q out.
          elim (Bool-cases (q == p)) [
            | inl at ↦
                let qp : q ≡ p = ground arith in
                absurd (out b (s, b0, b2, s0, sf, holds) (omega (arith, inside)))
            | inr off ↦ unfold store8 in ground arith
          ])
  Step-Isolated db db' (frees b user_b live known none has call) i =
      let t : TxnState = record { nblocks = n₀; blocks = table_of db.txn } in
      let at : InState db t [] b 0 = record { current = i.current; known = known } in
      let (table, set, u) =
        valid_set-Written (table_of db.txn) b freed i.valid (λ e. absurd (omega arith)) has in
      subst (Isolated Live m₀ n₀)
        (state_of (sym (txn_free_block-marks os (blocks os (suc d)) db t [] b table at set) ∙ call))
        (extend Live m₀ n₀ committed db i db.mem table b freed i.n u user_b (committed b live).0
          (inr (inr (inl refl))) (λ s0 sf. absurd (sf refl)) i.list
          (marks refl refl live (user_b, (committed b live).0) none) i.free
          λ q x live' inside. refl)
  Step-Isolated db db' (allocates c' k list has call) i =
      let t : TxnState = record { nblocks = n₀; blocks = table_of db.txn } in
      let c = bytes_u32 (item_at db.mem db.freelist 4 k) in
      let size : i.n ≡ suc k = sym i.list.length ∙ list.length in
      let (user, small, dead) = i.free k (omega (arith, size)) in
      let (table, set, u) =
        valid_set-Written (table_of db.txn) c allocated i.valid (omega arith) has in
      let (same, e, rest) = ok_of (
        Returns-of
          (txn_allocate_block-takes os (blocks os (suc d)) db t [] c table k i.current list
            (spare-IsWritable Live m₀ n₀ committed db i os d) refl set)
          call) in
      subst (Isolated Live m₀ n₀) (sym e)
        (taken-Isolated Live m₀ n₀ committed db i k db'.mem table list u rest)
  Step-Isolated db db' (releases b n user holds list room has call) i =
      let t : TxnState = record { nblocks = n₀; blocks = table_of db.txn } in
      let b0 : b ≢ 0 = λ e. absurd (omega arith) in
      let (small, dead) = i.owned b allocated b0 (omega arith) (omega arith) holds in
      let at : InState db t [] b allocated = record {
        current = i.current;
        known = mem_hash_get-Holds (table_of db.txn) b allocated i.valid.placed b0 holds;
      } in
      let (table, set, u) = valid_set-Written (table_of db.txn) b 0 i.valid b0 has in
      let b2 : b ≢ 2 = λ e. absurd (omega arith) in
      let db₁ : Db = record db { txn = record { nblocks = n₀; blocks = table } ∷ [] } in
      let (only, pushed) = ok_of (
        Returns-of
          (txn_free_block-Returns os (blocks os (suc d)) db t [] b table n at set list
            (root-IsWritable os d db₁ n₀ table refl i.root u.valid.placed
              (u.kept 2 1 (omega arith) (λ e. b2 (sym e)) i.spare))
            room user)
          call) in
      let size : i.n ≡ n = sym i.list.length ∙ list.length in
      subst (Isolated Live m₀ n₀) (sym only) (
        extend Live m₀ n₀ committed db i db'.mem table b 0 (n + 1) u user small (inl refl)
          (λ s0 sf. absurd (s0 refl)) pushed.small
          (gives allocated
            (subst (λ x. stack db'.mem db.freelist (n + 1) ≡ b ∷ stack db.mem db.freelist x)
              (sym size) (stack-Pushed db.mem db'.mem db.freelist n b (omega arith) pushed))
            refl (user, small) dead (omega arith) holds)
          (λ j lt. elim (Bool-cases (j == n)) [
            | inl at_end ↦
                let jn : j ≡ n = ground arith in
                rw (jn, pushed.last, bytes_u32-u32_bytes b (omega arith)) (user, small, dead)
            | inr earlier ↦ rw (pushed.before j (ground arith)) (i.free j (ground arith))
          ])
          λ q p live inside.
            let a = live_root Live m₀ n₀ committed db i q live in
            pushed.outside p (ground (arith, a, inside)))

  -- From a state in which the transaction is isolated from the committed blocks, any number of steps of Txn.Step
  -- (calls that succeed on a table of at most 315 keys with low hashes and a free list in one block, the file growing to fewer
  -- than 2 ^ 20 blocks where the list is empty, writes into the transaction's own blocks, and writes of the field `objlist`) leads to such a state: the committed blocks have their contents, neither the free list nor the
  -- transaction has one of them, the free list has no block twice and none that the transaction uses, and
  -- a block that a commit would release is a live one and is released once.
  pub Reach-Isolated :
      (db db' : Db) → Isolated Live m₀ n₀ db → Reach os d Live db db' → Isolated Live m₀ n₀ db'
  Reach-Isolated db db' i here = i
  Reach-Isolated db db' i (next {e} steps step) =
      Step-Isolated e db' step (Reach-Isolated db e i steps)
