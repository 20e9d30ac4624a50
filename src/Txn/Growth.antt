-- ===== src/Txn/Growth.antt =====
-- The steps for which the file grows, since the free list is empty: an allocation and a copy.
use mathlib.Core.Path.{subst}
use mathlib.Core.List.{Memᴰ}
use mathlib.Core.List.Memᴰ.{head, tail}
use everdb_native.Base.{
  ℕ, suc, ◌+◌, ◌-◌, ◌*◌, ◌^◌, ◌≤◌, ◌<◌, ◌≡◌, ◌∙◌, ◌==◌, refl, List, [], ◌∷◌, inl, inr, some, arith,
  sym, ap, Bool-cases,
}
use everdb_native.Memory.{Mem}
use everdb_native.MemHash.{MemHash, mem_hash_get}
use everdb_native.MemHash.Map.{Holds, same_slot, mem_hash_get-Holds}
use everdb_native.MemHash.Grow.{Written, HasRoomFor, valid_set-Written}
use everdb_native.Core.{Db, TxnState, user_data, objlist_block}
use everdb_native.Core.Words.{Inside, Apart, ne-Apart, block_addr_small}
use everdb_native.Io.{Os}
use everdb_native.Io.Resize.{IsReliable}
use everdb_native.Array.{small_bytes}
use everdb_native.Array.Small.{IsSmall, item_at}
use everdb_native.Freelist.{grown}
use everdb_native.Freelist.View.{
  stack, push_all, push_all_cases, push_all-IsUnique, item_stack, stack_same,
}
use everdb_native.Txn.{allocated, freed, blocks, txn_allocate_block, txn_modify_block}
use everdb_native.Txn.Exclusive.{
  IsExclusive, IsUser, IsUncopied, Change, Change-IsExclusive, takes, clones,
}
use everdb_native.Txn.Extend.{
  upto, upto_range, upto-IsUnique, Extended, txn_allocate_block-extends, txn_modify_block-extends,
}
use everdb_native.Txn.Isolation.{
  table_of, IsCommitted, Isolated, IsState, Returns-of, ok_of, extend_file_to, live-Apart,
  spare-IsWritable, live_root,
}
use everdb_native.Run.{ok}

module _ (Live : ℕ → Type 0) (m₀ : Mem) (n₀ : ℕ) (committed : IsCommitted Live) where
  -- A block without a state is not marked as freed.
  unmarked :
      (db : Db) (b : ℕ)
      → Isolated Live m₀ n₀ db
      → mem_hash_get (table_of db.txn) b ≡ some 0
      → user_data ≤ b
      → ¬ Holds (table_of db.txn) b freed
  unmarked db b i known user h =
      let value =
        mem_hash_get-Holds (table_of db.txn) b freed i.valid.placed (λ e. absurd (omega arith)) h in
      absurd (omega (arith, same_slot (sym value) known))

  -- Copying a block takes the copy from the free list.
  pub cloned-Change :
      (db : Db) (b c : ℕ) (s s' : List ℕ)
      → Isolated Live m₀ n₀ db
      → mem_hash_get (table_of db.txn) b ≡ some 0
      → objlist_block ≤ b
      → Live b
      → IsUncopied (table_of db.txn) b
      → s ≡ c ∷ s'
      → Change Live (table_of db.txn) c b s s'
  cloned-Change db b c s s' i known low live none taken = elim (Bool-cases (b == objlist_block)) [
    | inl root ↦ takes taken (inr (ground arith))
    | inr other ↦
        let user : user_data ≤ b = ground arith in
        clones taken live (user, (committed b live).0) none (unmarked db b i known user)
  ]

module _ (os : Os) (d : ℕ) (Live : ℕ → Type 0) (m₀ : Mem) (n₀ : ℕ) (committed : IsCommitted Live)
    (db db' : Db) (i : Isolated Live m₀ n₀ db) where
  -- The blocks of a file that has grown, none of which is used.
  module _ (n r : ℕ) (size : db.nblocks + 1 + r ≡ n) (low : user_data ≤ db.nblocks)
      (small : n < 2 ^ 20) (inside : (b : ℕ) → Live b → b < db.nblocks)
      (fresh : (b v : ℕ) → db.nblocks ≤ b → Holds (table_of db.txn) b v → v ≡ 0) where
    abbrev new_blocks : List ℕ
    new_blocks = push_all (upto (db.nblocks + 1) r) []

    new_block : (b : ℕ) → Memᴰ b new_blocks → (db.nblocks < b) × (b < n)
    new_block b m = elim (push_all_cases b (upto (db.nblocks + 1) r) [] m) [
      | inl new ↦ omega (arith, upto_range (db.nblocks + 1) r b new)
      | inr old ↦ elim old [ ]
    ]

    in_range : (b : ℕ) → Memᴰ b (db.nblocks ∷ new_blocks) → (db.nblocks ≤ b) × (b < n)
    in_range b (head e) = omega (arith, e)
    in_range b (tail m) = omega (arith, new_block b m)

    is_free : (b : ℕ) → (db.nblocks ≤ b) × (b < n) → IsUser b × (¬ Live b)
    is_free b range = ((omega arith, omega arith), λ live. absurd (omega (arith, inside b live)))

    new_blocks-IsExclusive : IsExclusive Live (db.nblocks ∷ new_blocks) (table_of db.txn)
    new_blocks-IsExclusive = record {
      unique = (
        λ m. absurd (omega (arith, new_block db.nblocks m)),
        push_all-IsUnique (upto (db.nblocks + 1) r) [] (upto-IsUnique (db.nblocks + 1) r) tt
            λ b m none. elim none [ ],
      );
      user = λ b m. is_free b (in_range b m);
      unused = λ b v m h. fresh b v (in_range b m).0 h;
      freed_once = i.exclusive.freed_once;
      copied_once = i.exclusive.copied_once;
    }

    -- The first of them gets the state `v` and has left the list of the others.
    Extended-Isolated :
        (c v : ℕ) (e : Db) (m : Mem) (table : MemHash)
        → Extended n r db c e
        → Written (table_of db.txn) table db.nblocks v
        → IsState v
        → Change Live (table_of db.txn) db.nblocks v (db.nblocks ∷ new_blocks) new_blocks
        → IsSmall m db.freelist 4 r
        → ((j : ℕ) → j < r → item_at m db.freelist 4 j ≡ item_at e.mem db.freelist 4 j)
        → ((b p : ℕ) → Live b → Inside b p → m p ≡ e.mem p)
        → Isolated Live m₀ n₀
            (record e { mem = m; txn = record { nblocks = n₀; blocks = table } ∷ [] })
    Extended-Isolated c v e m table x u state change list items same =
        let whole : stack m db.freelist r ≡ new_blocks =
          stack_same e.mem m db.freelist db.freelist r items ∙ x.items in
        subst
          (λ (y : Db).
            Isolated Live m₀ n₀
              (record y { mem = m; txn = record { nblocks = n₀; blocks = table } ∷ [] }))
          (sym x.state)
          (extend_file_to Live m₀ n₀ committed db i n e.filesize e.mapped e.writable m table
            db.nblocks v r u low (omega arith) state
            (λ s0 sf. (omega arith, λ live. absurd (omega (arith, inside db.nblocks live)))) list
            (subst (λ y. IsExclusive Live y table) (sym whole)
              (Change-IsExclusive Live (table_of db.txn) table db.nblocks v _ new_blocks
                (omega arith) new_blocks-IsExclusive u change))
            (λ j lt.
              let m' = subst (Memᴰ _) whole (item_stack m db.freelist r j lt) in
              let (user, dead) = is_free _ (in_range _ (tail m')) in (user.0, user.1, dead))
            λ b p live at.
              let a = block_addr_small b (committed b live).0 in
              let away = live_root Live m₀ n₀ committed db i b live in
              same b p live at
              ∙ x.kept p (omega (arith, a, at, inside b live)) λ y. omega (arith, away, at, y))

  -- The allocation from an empty free list.
  pub grown-Isolated :
      (c : ℕ)
      → IsReliable os
      → IsSmall db.mem db.freelist 4 0
      → user_data ≤ db.nblocks
      → db.nblocks < grown db.nblocks
      → grown db.nblocks < 2 ^ 20
      → (grown db.nblocks - db.nblocks) * 4 ≤ small_bytes
      → ((b : ℕ) → Live b → b < db.nblocks)
      → ((b v : ℕ) → db.nblocks ≤ b → Holds (table_of db.txn) b v → v ≡ 0)
      → HasRoomFor (table_of db.txn) db.nblocks
      → txn_allocate_block os (blocks os (suc d)) db ≡ ok c db'
      → Isolated Live m₀ n₀ db'
  grown-Isolated c reliable list low longer small room inside fresh has call =
      let n = grown db.nblocks in
      let r = n - db.nblocks - 1 in
      let size : db.nblocks + 1 + r ≡ n = omega arith in
      let (table, set, u) =
        valid_set-Written (table_of db.txn) db.nblocks allocated i.valid (omega arith) has in
      let (e, x, state) = ok_of (
        Returns-of
          (txn_allocate_block-extends os (blocks os (suc d)) reliable db r size low small
            (omega arith) i.root list (record { nblocks = n₀; blocks = table_of db.txn }) [] table
            i.current (spare-IsWritable Live m₀ n₀ committed db i os d) set)
          call) in
      subst (Isolated Live m₀ n₀) (sym state) (
        Extended-Isolated n r size low small inside fresh c allocated e e.mem table x u
          (inr (inl refl)) (takes refl (inl refl)) x.list (λ j lt. refl) λ b p live at. refl)

  -- The copy of a block to the first new one.
  pub copied-Isolated :
      (b c : ℕ)
      → objlist_block ≤ b
      → Live b
      → mem_hash_get (table_of db.txn) b ≡ some 0
      → IsUncopied (table_of db.txn) b
      → IsReliable os
      → IsSmall db.mem db.freelist 4 0
      → user_data ≤ db.nblocks
      → db.nblocks < grown db.nblocks
      → grown db.nblocks < 2 ^ 20
      → (grown db.nblocks - db.nblocks) * 4 ≤ small_bytes
      → ((b : ℕ) → Live b → b < db.nblocks)
      → ((b v : ℕ) → db.nblocks ≤ b → Holds (table_of db.txn) b v → v ≡ 0)
      → HasRoomFor (table_of db.txn) db.nblocks
      → txn_modify_block os (blocks os (suc d)) b db ≡ ok c db'
      → Isolated Live m₀ n₀ db'
  copied-Isolated b c low_b live known none reliable list low longer small room inside fresh has
        call =
      let n = grown db.nblocks in
      let r = n - db.nblocks - 1 in
      let size : db.nblocks + 1 + r ≡ n = omega arith in
      let t : TxnState = record { nblocks = n₀; blocks = table_of db.txn } in
      let dead : ¬ Live db.nblocks = λ l. absurd (omega (arith, inside db.nblocks l)) in
      let apart : (q : ℕ) → Live q → Apart q db.nblocks =
        λ q l. live-Apart Live m₀ n₀ committed db i q db.nblocks l (omega arith) dead in
      let aside : Apart db.nblocks db.freelist =
        subst (λ x. Apart db.nblocks x) (sym i.root)
          (ne-Apart db.nblocks 2 (omega arith) (omega arith) (omega arith)) in
      let (e, x, state, copied) = ok_of (
        Returns-of
          (txn_modify_block-extends os (blocks os (suc d)) reliable db r size low small
            (omega arith) i.root list t [] b (record { current = i.current; known = known }) i.valid
            (spare-IsWritable Live m₀ n₀ committed db i os d)
            (live_root Live m₀ n₀ committed db i b live) (apart b live) aside has)
          call) in
      subst (Isolated Live m₀ n₀)
        (sym (
          state
          ∙ ap (λ (y : List TxnState). record e { mem = db'.mem; txn = y }) copied.state.current))
        (Extended-Isolated n r size low small inside fresh c b e db'.mem copied.table x
          copied.updated (inr (inr (inr (low_b, (committed b live).0))))
          (cloned-Change Live m₀ n₀ committed db b db.nblocks _ _ i known low_b live none refl)
          copied.list copied.items
          λ q p l at.
            let from_copy = apart q l in
            let from_root = live_root Live m₀ n₀ committed db i q l in
            copied.others p (λ y. omega (arith, from_copy, at, y))
              (λ y. omega (arith, from_root, at, y)))
