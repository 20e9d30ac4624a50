-- ===== src/Txn/Release.antt =====
-- What a commit puts on the free list: the loop of `txn_commit_master` against the list of blocks that
-- the table says are to be released.
use mathlib.Core.Path.{subst}
use everdb_native.Base.{
  ℕ, zero, suc, ◌+◌, ◌*◌, ◌^◌, ◌≤◌, ◌<◌, ◌≡◌, ◌≢◌, ◌∙◌, ◌⊎◌, inl, inr, refl, Option, none, some,
  List, [], ◌∷◌, true, false, arith, ◌==◌, ltb, if◌then◌else◌, length, sym, ap, Bool-cases,
}
use everdb_native.Memory.{Mem, u32_bytes}
use everdb_native.MemHash.{Item, MemHash, entry_at}
use everdb_native.Core.{Db, TxnState, Blocks, IsWritable, block_addr, user_data, freelist_secondary}
use everdb_native.Io.{Os}
use everdb_native.Array.{small_bytes}
use everdb_native.Array.Small.{IsSmall}
use everdb_native.Array.Stack.{Pushed}
use everdb_native.Freelist.{freelist_free_block}
use everdb_native.Freelist.View.{stack, push_all, stack-Pushed}
use everdb_native.Freelist.Stack.{freelist_free_block-Pushed}
use everdb_native.Txn.{allocated, freed}
use everdb_native.Txn.Commit.{current, each_entry, commit_entry}
use everdb_native.Run.{ok, done}
use everdb_native.Run.Returns
use everdb_native.Run.Returns.{Returns, returns}

-- The block that a commit releases for an entry of the table: a block that was freed, or the original of a
-- block that was copied.
abbrev pub released_by : Item → Option ℕ
released_by e =
    if e.k == 0
    then none
    else if e.k == freelist_secondary
    then none
    else if e.v == allocated
    then none
    else if e.v == freed
    then some e.k
    else if e.v == 0
    then none
    else some e.v

abbrev pub add_released : Option ℕ → List ℕ → List ℕ
add_released none bs = bs
add_released (some b) bs = b ∷ bs

-- The blocks that the `r` entries from the entry `i` on release.
abbrev pub released : MemHash → (r i : ℕ) → List ℕ
released t zero i = []
released t (suc r) i = add_released (released_by (entry_at t i)) (released t r (i + 1))

-- Numbers that the free list may have.
abbrev pub AreUser : List ℕ → Type 0
AreUser [] = Unit {0}
AreUser (b ∷ bs) = (user_data ≤ b) × (b < 2 ^ 32) × AreUser bs

-- `m'` has the free list of `m` with `bs` pushed on it, and nothing has changed outside of its block.
pub record Grown (m m' : Mem) (root n : ℕ) (bs : List ℕ) : Type 0 where
  pub list : IsSmall m' root 4 (n + length bs)
  pub items : stack m' root (n + length bs) ≡ push_all bs (stack m root n)
  pub outside : (p : ℕ) → (p < block_addr root) ⊎ (block_addr root + 4096 ≤ p) → m' p ≡ m p

pub Pushed-Grown :
    (m m₁ m' : Mem) (root n b : ℕ) (bs : List ℕ)
    → b < 2 ^ 32
    → Pushed m m₁ root 4 n (u32_bytes b)
    → Grown m₁ m' root (n + 1) bs
    → Grown m m' root n (b ∷ bs)
Pushed-Grown m m₁ m' root n b bs word p g =
    let size : n + 1 + length bs ≡ n + suc (length bs) = omega arith in
    let top = stack-Pushed m m₁ root n b word p in
    record {
      list = subst (IsSmall m' root 4) size g.list;
      items =
          subst (λ k. stack m' root k ≡ push_all bs (b ∷ stack m root n)) size
            (g.items ∙ ap (push_all bs) top);
      outside = λ q out. g.outside q out ∙ p.outside q out;
    }

pub Grown-none : (m : Mem) (root n : ℕ) → IsSmall m root 4 n → Grown m m root n []
Grown-none m root n list =
    let size : n ≡ n + 0 = omega arith in
    record {
      list = subst (IsSmall m root 4) size list;
      items = ap (stack m root) (sym size);
      outside = λ p out. refl;
    }

module _ (os : Os) (B : Blocks) where
  -- What the loop does with an entry is to free the block that the entry releases.
  entry_effect :
      (e : Item) (db : Db)
      → e.k ≢ db.objlist
      → ((released_by e ≡ none) × ((if e.k == 0 then done else commit_entry os B e) db ≡ ok tt db))
        ⊎ ((b : ℕ) × (released_by e ≡ some b)
            × ((if e.k == 0 then done else commit_entry os B e) db ≡ freelist_free_block os B b db))
  unfolding commit_entry freelist_free_block
  entry_effect e db other =
      let objects : (e.k == db.objlist) ≡ false = ground arith in
      elim (Bool-cases (e.k == 0)) [
        | inl no_key ↦ inl (rw no_key refl, rw no_key refl)
        | inr key ↦ elim (Bool-cases (e.k == freelist_secondary)) [
          | inl spare ↦ inl (rw (key, spare) refl, rw (key, spare) refl)
          | inr other_key ↦ elim (Bool-cases (e.v == allocated)) [
            | inl new ↦ inl (rw (key, other_key, new) refl, rw (key, other_key, objects, new) refl)
            | inr old ↦ elim (Bool-cases (e.v == freed)) [
              | inl gone ↦ inr (
                e.k,
                rw (key, other_key, old, gone) refl,
                rw (key, other_key, objects, old, gone) refl,
              )
              | inr still ↦ elim (Bool-cases (e.v == 0)) [
                | inl unset ↦
                    let zero : e.v ≡ 0 = ground arith in
                    inl (
                      rw (key, other_key, old, still, unset) refl,
                      rw (key, other_key, objects, old, still, zero) refl,
                    )
                | inr copy ↦ inr (
                  e.v,
                  rw (key, other_key, old, still, copy) refl,
                  rw (key, other_key, objects, old, still) refl,
                )
              ]
            ]
          ]
        ]
      ]

  -- The states of the loop: `db` in the transaction `t`, with any contents.
  module _ (db : Db) (t : TxnState) (own : IsWritable B (record db { txn = t ∷ [] }) db.freelist)
      (objects : (s : ℕ) → s < t.blocks.capacity → (entry_at t.blocks s).k ≢ db.objlist) where
    -- The loop from the entry `i` on pushes the blocks that these entries release.
    pub each_entry-Grown :
        (r fuel i n : ℕ) (m : Mem)
        → i + r ≡ t.blocks.capacity
        → r < fuel
        → IsSmall m db.freelist 4 n
        → AreUser (released t.blocks r i)
        → (n + length (released t.blocks r i)) * 4 ≤ small_bytes
        → Returns
            (λ _ db'.
              (db' ≡ record db { mem = db'.mem; txn = t ∷ [] })
              × Grown m db'.mem db.freelist n (released t.blocks r i))
            (each_entry (commit_entry os B) fuel i (record db { mem = m; txn = t ∷ [] }))
    unfolding each_entry current
    each_entry-Grown r zero i n m at more list user room = absurd (omega arith)
    each_entry-Grown zero (suc fuel) i n m at more list user room =
        let last : ltb i t.blocks.capacity ≡ false = ground arith in
        rw last (returns (refl, Grown-none m db.freelist n list))
    each_entry-Grown (suc r) (suc fuel) i n m at more list user room =
        let go : ltb i t.blocks.capacity ≡ true = ground arith in
        let e = entry_at t.blocks i in
        let db₁ : Db = record db { mem = m; txn = t ∷ [] } in
        rw go (elim (entry_effect e db₁ (objects i (omega arith))) [
          | inl (none_released, runs) ↦
              rw (runs, none_released)
                (each_entry-Grown r fuel (i + 1) n m (omega arith) (omega arith) list
                  (rw none_released at user) (rw none_released at room))
          | inr (b, one_released, runs) ↦
              let (is_user, word, users) = rw one_released at user in
              let fits = rw one_released at room in
              rw (runs, one_released)
                (Returns.bind
                  (freelist_free_block-Pushed os B db₁ n list (λ d only. own d only) b (omega arith)
                    is_user)
                  λ _ d (only, p).
                    subst
                      (λ x.
                        Returns
                          (λ _ db'.
                            (db' ≡ record db { mem = db'.mem; txn = t ∷ [] })
                            × Grown m db'.mem db.freelist n (b ∷ released t.blocks r (i + 1)))
                          (each_entry (commit_entry os B) fuel (i + 1) x))
                      (sym only)
                      (Returns.mono
                        (each_entry-Grown r fuel (i + 1) (n + 1) d.mem (omega arith) (omega arith)
                          p.small users (omega (arith, fits)))
                        λ _ db' (same, g).
                          (same, Pushed-Grown m d.mem db'.mem db.freelist n b _ word p g)))
        ])
