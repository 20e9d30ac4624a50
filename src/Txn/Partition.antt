-- ===== src/Txn/Partition.antt =====
-- The blocks that a commit releases are live ones, no two of them the same, and none of them the
-- transaction's own.
use mathlib.Core.Path.{subst}
use mathlib.Core.List.{Memᴰ}
use mathlib.Core.List.Memᴰ.{cases_cons}
use everdb_native.Base.{
  ℕ, zero, suc, ◌+◌, ◌≤◌, ◌<◌, ◌≡◌, ◌≢◌, ◌∙◌, ◌⊎◌, inl, inr, refl, some, List, arith, sym,
  Option-cases,
}
use everdb_native.MemHash.{MemHash, Item, entry_at, locate}
use everdb_native.MemHash.Map.{IsValid, Holds, same_slot}
use everdb_native.Freelist.View.{IsUnique, push_all, push_all_cases, push_all-IsUnique}
use everdb_native.Core.{objlist_block}
use everdb_native.Txn.{allocated, freed}
use everdb_native.Txn.Exclusive.{IsExclusive, IsUser}
use everdb_native.Txn.Isolation.{IsSound}
use everdb_native.Txn.Release.{released_by, released}

-- The commit releases the block `b`: it was freed, or it has a copy.
abbrev pub Released : MemHash → ℕ → Type 0
Released t b = ((b ≢ 0) × Holds t b freed) ⊎ ((c : ℕ) × (c ≢ 0) × (c ≢ 2) × IsUser b × Holds t c b)

-- The block `b` is the transaction's own.
abbrev pub Owns : MemHash → ℕ → Type 0
Owns t b = (v : ℕ) × (b ≢ 0) × (b ≢ 2) × (v ≢ 0) × (v ≢ freed) × Holds t b v

-- The transaction has not copied the object list's root.
abbrev pub KeepsObjects : MemHash → Type 0
KeepsObjects t = (b s : ℕ) → b ≢ 0 → b ≢ 2 → Holds t b s → s ≢ objlist_block

-- The blocks that are live after the commit: the live ones that it does not release, and the
-- transaction's own.
abbrev pub After : (ℕ → Type 0) → MemHash → ℕ → Type 0
After Live t b = (Live b × (¬ Released t b)) ⊎ Owns t b

-- An entry that releases `b` is that of `b` itself or that of its copy.
abbrev Releases : Item → ℕ → Type 0
Releases e b =
    (e.k ≢ 0)
    × (e.k ≢ 2)
    × (((e.v ≡ freed) × (b ≡ e.k)) ⊎ ((e.v ≢ 0) × (e.v ≢ allocated) × (e.v ≢ freed) × (b ≡ e.v)))

released_by-Releases : (e : Item) (b : ℕ) → released_by e ≡ some b → Releases e b
released_by-Releases e b is = ground arith

released_slot :
    (t : MemHash) (r i b : ℕ)
    → Memᴰ b (released t r i)
    → (x : ℕ) × (i ≤ x) × (x < i + r) × (released_by (entry_at t x) ≡ some b)
released_slot t zero i b m = elim m [ ]
released_slot t (suc r) i b m = elim (Option-cases (released_by (entry_at t i))) [
  | inl nothing ↦
      let (x, le, lt, is) = released_slot t r (i + 1) b (rw nothing at m) in
      (x, omega arith, omega arith, is)
  | inr (c, one) ↦ elim (cases_cons (rw one at m)) [
    | inl e ↦
        (i, omega arith, omega arith, subst (λ y. released_by (entry_at t i) ≡ some y) (sym e) one)
    | inr later ↦
        let (x, le, lt, is) = released_slot t r (i + 1) b later in (x, omega arith, omega arith, is)
  ]
]

module _ (Live : ℕ → Type 0) (s : List ℕ) (t : MemHash) (valid : IsValid t) (sound : IsSound t)
    (x : IsExclusive Live s t) (objects : KeepsObjects t) where
  entry_holds : (y : ℕ) → y < t.capacity → Holds t (entry_at t y).k (entry_at t y).v
  entry_holds y lt = (y, lt, refl, refl)

  -- The block of the second kind is a user block.
  original-IsUser :
      (y : ℕ)
      → y < t.capacity
      → (entry_at t y).k ≢ 0
      → (entry_at t y).k ≢ 2
      → (entry_at t y).v ≢ 0
      → (entry_at t y).v ≢ allocated
      → (entry_at t y).v ≢ freed
      → IsUser (entry_at t y).v
  original-IsUser y lt k0 k2 v0 va vf = elim (sound _ _ k0 k2 (entry_holds y lt)).2 [
    | inl e ↦ absurd (v0 e)
    | inr r ↦ elim r [
      | inl e ↦ absurd (va e)
      | inr r' ↦ elim r' [
        | inl e ↦ absurd (vf e)
        | inr old ↦ omega (arith, old, objects _ _ k0 k2 (entry_holds y lt))
      ]
    ]
  ]

  Releases-Released : (y b : ℕ) → y < t.capacity → Releases (entry_at t y) b → Released t b
  Releases-Released y b lt (k0, k2, inl (vf, bk)) = inl (
    (λ z. k0 (sym bk ∙ z)),
    subst (λ q. Holds t q freed) (sym bk) (subst (Holds t (entry_at t y).k) vf (entry_holds y lt)),
  )
  Releases-Released y b lt (k0, k2, inr (v0, va, vf, bv)) = inr (
    (entry_at t y).k,
    k0,
    k2,
    subst IsUser (sym bv) (original-IsUser y lt k0 k2 v0 va vf),
    subst (Holds t (entry_at t y).k) (sym bv) (entry_holds y lt),
  )

  pub Released-live : (b : ℕ) → Released t b → Live b × IsUser b
  Released-live b (inl (b0, h)) = let (live, user, _) = x.freed_once b b0 h in (live, user)
  Released-live b (inr (c, c0, c2, user, h)) =
      let (live, _) = x.copied_once c b c0 c2 user h in (live, user)

  pub member-Released : (r i b : ℕ) → i + r ≡ t.capacity → Memᴰ b (released t r i) → Released t b
  member-Released r i b at m =
      let (y, le, lt, is) = released_slot t r i b m in
      Releases-Released y b (omega arith) (released_by-Releases (entry_at t y) b is)

  same_key :
      (y z : ℕ)
      → y < t.capacity
      → z < t.capacity
      → (entry_at t y).k ≢ 0
      → (entry_at t y).k ≡ (entry_at t z).k
      → y ≡ z
  same_key y z yl zl k0 e =
      let at_y = valid.placed.home y yl k0 in
      let at_z = valid.placed.home z zl λ q. k0 (e ∙ q) in
      same_slot (sym at_y) (subst (λ k. locate t k ≡ some z) (sym e) at_z)

  -- A block that was freed has no copy.
  mixed :
      (y z : ℕ)
      → y < t.capacity
      → z < t.capacity
      → (entry_at t y).k ≢ 0
      → (entry_at t z).k ≢ 0
      → (entry_at t z).k ≢ 2
      → (entry_at t y).v ≡ freed
      → (entry_at t y).k ≢ (entry_at t z).v
  mixed y z yl zl k0 k0' k2' vf e =
      let (_, _, uncopied) =
        x.freed_once (entry_at t y).k k0 (subst (Holds t (entry_at t y).k) vf (entry_holds y yl)) in
      uncopied (entry_at t z).k k0' k2'
        (subst (Holds t (entry_at t z).k) (sym e) (entry_holds z zl))

  released_once :
      (y z b : ℕ)
      → y < t.capacity
      → z < t.capacity
      → Releases (entry_at t y) b
      → Releases (entry_at t z) b
      → y ≡ z
  released_once y z b yl zl (k0, k2, inl (vf, bk)) (k0', k2', inl (vf', bk')) =
      same_key y z yl zl k0 (sym bk ∙ bk')
  released_once y z b yl zl (k0, k2, inr (v0, va, vf, bv)) (k0', k2', inr (v0', va', vf', bv')) =
      let user = original-IsUser z zl k0' k2' v0' va' vf' in
      let (_, once) =
        x.copied_once (entry_at t z).k (entry_at t z).v k0' k2' user (entry_holds z zl) in
      same_key y z yl zl k0 (
        once (entry_at t y).k k0 k2
          (subst (Holds t (entry_at t y).k) (sym bv ∙ bv') (entry_holds y yl)))
  released_once y z b yl zl (k0, k2, inl (vf, bk)) (k0', k2', inr (v0', va', vf', bv')) =
      absurd (mixed y z yl zl k0 k0' k2' vf (sym bk ∙ bv'))
  released_once y z b yl zl (k0, k2, inr (v0, va, vf, bv)) (k0', k2', inl (vf', bk')) =
      absurd (mixed z y zl yl k0' k0 k2 vf' (sym bk' ∙ bv))

  pub released-IsUnique : (r i : ℕ) → i + r ≡ t.capacity → IsUnique (released t r i)
  released-IsUnique zero i at = tt
  released-IsUnique (suc r) i at =
      let rest = released-IsUnique r (i + 1) (omega arith) in
      elim (Option-cases (released_by (entry_at t i))) [
        | inl nothing ↦ rw nothing rest
        | inr (b, one) ↦ rw one (
          (λ m.
              let (z, le, lt, is) = released_slot t r (i + 1) b m in
              absurd (
                omega (
                  arith,
                  released_once i z b (omega arith) (omega arith)
                      (released_by-Releases (entry_at t i) b one)
                      (released_by-Releases (entry_at t z) b is),
                ))),
          rest,
        )
      ]

  -- The free list after the commit has user blocks only, none of them live then, and none twice.
  module _ (dead_owned : (b : ℕ) → Owns t b → ¬ Live b) where
    pub pushed-IsUser :
        (b : ℕ) → Memᴰ b (push_all (released t t.capacity 0) s) → IsUser b × (¬ After Live t b)
    pushed-IsUser b m = elim (push_all_cases b (released t t.capacity 0) s m) [
      | inl new ↦
          let gone = member-Released t.capacity 0 b (omega arith) new in
          let (live, user) = Released-live b gone in
          (user, λ a. elim a [ inl (_, kept) ↦ kept gone | inr own ↦ dead_owned b own live ])
      | inr old ↦
          let (user, dead) = x.user b old in
          (
            user,
            λ a. elim a [
              | inl (live, _) ↦ dead live
              | inr (v, b0, b2, v0, vf, h) ↦ v0 (x.unused b v old h)
            ],
          )
    ]

  pub pushed-IsUnique : IsUnique (push_all (released t t.capacity 0) s)
  pushed-IsUnique =
      push_all-IsUnique (released t t.capacity 0) s (released-IsUnique t.capacity 0 (omega arith))
        x.unique
        λ b new old.
          (x.user b old).1 (Released-live b (member-Released t.capacity 0 b (omega arith) new)).0
