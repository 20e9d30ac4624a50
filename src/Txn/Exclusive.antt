-- ===== src/Txn/Exclusive.antt =====
-- Who owns a block: the free list, the committed data or the transaction, but never two of them. The
-- changes that the block functions make to the free list and the table keep it so.
use mathlib.Core.Path.{subst}
use mathlib.Core.List.{Memᴰ}
use mathlib.Core.List.Memᴰ.{head, tail}
use everdb_native.Base.{
  ℕ, ◌^◌, ◌≤◌, ◌<◌, ◌≡◌, ◌≢◌, ◌∙◌, ◌⊎◌, inl, inr, List, ◌∷◌, arith, sym, ◌==◌, Bool-cases,
}
use everdb_native.MemHash.{MemHash}
use everdb_native.MemHash.Map.{Holds, Holds_unique}
use everdb_native.MemHash.Grow.{Written}
use everdb_native.Core.{user_data, objlist_block}
use everdb_native.Freelist.View.{IsUnique}
use everdb_native.Txn.{allocated, freed}

-- The transaction has no copy of the block `b`.
abbrev pub IsUncopied : MemHash → ℕ → Type 0
IsUncopied t b = (c : ℕ) → c ≢ 0 → c ≢ 2 → ¬ Holds t c b

-- A number that a user block may have.
abbrev pub IsUser : ℕ → Type 0
IsUser b = (user_data ≤ b) × (b < 2 ^ 20)

-- The free list `s` has no block twice and none that the transaction uses; a block that is to be released
-- at the commit is a live one, and is released once.
pub record IsExclusive (Live : ℕ → Type 0) (s : List ℕ) (t : MemHash) : Type 0 where
  pub unique : IsUnique s
  pub user : (b : ℕ) → Memᴰ b s → IsUser b × (¬ Live b)
  pub unused : (b v : ℕ) → Memᴰ b s → Holds t b v → v ≡ 0
  pub freed_once : (b : ℕ) → b ≢ 0 → Holds t b freed → Live b × IsUser b × IsUncopied t b
  pub copied_once :
      (c b : ℕ)
      → c ≢ 0
      → c ≢ 2
      → IsUser b
      → Holds t c b
      → Live b × ((c' : ℕ) → c' ≢ 0 → c' ≢ 2 → Holds t c' b → c' ≡ c)

-- What a call does to the free list `s` and to the state of the block `c`, which becomes `v`.
pub data Change (Live : ℕ → Type 0) (t : MemHash) (c v : ℕ) (s s' : List ℕ) : Type 0 where
  takes : s ≡ c ∷ s' → (v ≡ allocated) ⊎ (v ≡ objlist_block) → Change Live t c v s s'
  clones :
      s ≡ c ∷ s' → Live v → IsUser v → IsUncopied t v → ¬ Holds t v freed → Change Live t c v s s'
  marks : s' ≡ s → v ≡ freed → Live c → IsUser c → IsUncopied t c → Change Live t c v s s'
  gives :
      (w : ℕ)
      → s' ≡ c ∷ s
      → v ≡ 0
      → IsUser c
      → ¬ Live c
      → w ≢ 0
      → Holds t c w
      → Change Live t c v s s'

module _ (Live : ℕ → Type 0) (t t' : MemHash) (c v : ℕ) (s s' : List ℕ) (c0 : c ≢ 0)
    (x : IsExclusive Live s t) (u : Written t t' c v) where
  entry : (b w : ℕ) → b ≢ 0 → Holds t' b w → ((b ≡ c) × (w ≡ v)) ⊎ ((b ≢ c) × Holds t b w)
  entry b w b0 h = elim (Bool-cases (b == c)) [
    | inl at ↦
        let bc : b ≡ c = ground arith in
        inl (bc, Holds_unique t' c w v u.valid.placed c0 (subst (λ y. Holds t' y w) bc h) u.new)
    | inr off ↦ let ne : b ≢ c = ground arith in inr (ne, u.only b w b0 ne h)
  ]

  -- A block whose state is not `v` has the state that it had.
  old_entry : (b w : ℕ) → b ≢ 0 → w ≢ v → Holds t' b w → Holds t b w
  old_entry b w b0 wv h = elim (entry b w b0 h) [ inl (_, e) ↦ absurd (wv e) | inr (_, h') ↦ h' ]

  freed_before :
      v ≢ freed
      → ((b : ℕ) → b ≢ 0 → Holds t b freed → b ≢ v)
      → (b : ℕ) → b ≢ 0
      → Holds t' b freed
      → Live b × IsUser b × IsUncopied t' b
  freed_before vf nv b b0 h =
      let old = old_entry b freed b0 (λ e. vf (sym e)) h in
      let (live, user, uncopied) = x.freed_once b b0 old in
      (live, user, λ c' z two h'. uncopied c' z two (old_entry c' b z (nv b b0 old) h'))

  copied_before :
      ¬ IsUser v
      → (c' b : ℕ) → c' ≢ 0
      → c' ≢ 2
      → IsUser b
      → Holds t' c' b
      → Live b × ((c'' : ℕ) → c'' ≢ 0 → c'' ≢ 2 → Holds t' c'' b → c'' ≡ c')
  copied_before nv c' b z two user h =
      let bv : b ≢ v = λ e. nv (subst IsUser e user) in
      let (live, once) = x.copied_once c' b z two user (old_entry c' b z bv h) in
      (live, λ c'' z' two' h'. once c'' z' two' (old_entry c'' b z' bv h'))

  -- Where the block `c` has left the list.
  popped : s ≡ c ∷ s' → IsUnique s' × ((b w : ℕ) → Memᴰ b s' → Holds t' b w → w ≡ 0)
  popped e =
      let (once, rest) = subst IsUnique e x.unique in
      (
        rest,
        λ b w m h.
            let m' : Memᴰ b s = subst (Memᴰ b) (sym e) (tail m) in
            let ((low, high), dead) = x.user b m' in
            elim (entry b w (λ z. absurd (omega (arith, low, z))) h) [
              | inl (bc, _) ↦ absurd (once (subst (λ y. Memᴰ y s') bc m))
              | inr (_, old) ↦ x.unused b w m' old
            ],
      )

  takes-IsExclusive : s ≡ c ∷ s' → (v ≡ allocated) ⊎ (v ≡ objlist_block) → IsExclusive Live s' t'
  takes-IsExclusive e is =
      let (rest, unused) = popped e in
      record {
        unique = rest;
        user = λ b m. x.user b (subst (Memᴰ b) (sym e) (tail m));
        unused = unused;
        freed_once =
            freed_before (omega arith)
              λ b b0 h. let (live, user, _) = x.freed_once b b0 h in omega arith;
        copied_once = copied_before (omega arith);
      }

  clones-IsExclusive :
      s ≡ c ∷ s' → Live v → IsUser v → IsUncopied t v → ¬ Holds t v freed → IsExclusive Live s' t'
  clones-IsExclusive e live_v user_v uncopied kept =
      let (rest, unused) = popped e in
      record {
        unique = rest;
        user = λ b m. x.user b (subst (Memᴰ b) (sym e) (tail m));
        unused = unused;
        freed_once =
            freed_before (omega arith) λ b b0 h bv. kept (subst (λ y. Holds t y freed) bv h);
        copied_once = λ c₁ b z two user h. elim (entry c₁ b z h) [
          | inl (cc, bv) ↦ (
            subst Live (sym bv) live_v,
            λ c' z' two' h'. elim (entry c' b z' h') [
              | inl (same, _) ↦ same ∙ sym cc
              | inr (_, old) ↦ absurd (uncopied c' z' two' (subst (Holds t c') bv old))
            ],
          )
          | inr (_, old) ↦
              let (live, once) = x.copied_once c₁ b z two user old in
              (
                live,
                λ c' z' two' h'. elim (entry c' b z' h') [
                  | inl (_, bv) ↦ absurd (uncopied c₁ z two (subst (Holds t c₁) bv old))
                  | inr (_, old') ↦ once c' z' two' old'
                ],
              )
        ];
      }

  marks-IsExclusive :
      s' ≡ s → v ≡ freed → Live c → IsUser c → IsUncopied t c → IsExclusive Live s' t'
  marks-IsExclusive e is live_c user_c uncopied =
      let uncopied' : (b : ℕ) → IsUser b → IsUncopied t b → IsUncopied t' b =
        λ b user none c' z two h. none c' z two (old_entry c' b z (omega arith) h) in
      subst (λ y. IsExclusive Live y t') (sym e)
        (record {
          unique = x.unique;
          user = x.user;
          unused = λ b w m h.
              let ((low, high), dead) = x.user b m in
              elim (entry b w (λ z. absurd (omega (arith, low, z))) h) [
                | inl (bc, _) ↦ absurd (dead (subst Live (sym bc) live_c))
                | inr (_, old) ↦ x.unused b w m old
              ];
          freed_once = λ b b0 h. elim (entry b freed b0 h) [
            | inl (bc, _) ↦
                subst (λ y. Live y × IsUser y × IsUncopied t' y) (sym bc)
                  (live_c, user_c, uncopied' c user_c uncopied)
            | inr (_, old) ↦
                let (live, user, none) = x.freed_once b b0 old in
                (live, user, uncopied' b user none)
          ];
          copied_once = copied_before (omega arith);
        })

  gives-IsExclusive :
      (w : ℕ)
      → s' ≡ c ∷ s
      → v ≡ 0
      → IsUser c
      → ¬ Live c
      → w ≢ 0
      → Holds t c w
      → IsExclusive Live s' t'
  gives-IsExclusive w e is user_c dead some_state own =
      subst (λ y. IsExclusive Live y t') (sym e)
        (record {
          unique = ((λ m. absurd (some_state (x.unused c w m own))), x.unique);
          user = user';
          unused = unused';
          freed_once = freed_before (omega arith) λ b b0 h. omega arith;
          copied_once = copied_before (omega arith);
        })
    where
      user' : (b : ℕ) → Memᴰ b (c ∷ s) → IsUser b × (¬ Live b)
      user' b (head bc) = subst (λ y. IsUser y × (¬ Live y)) (sym bc) (user_c, dead)
      user' b (tail m) = x.user b m

      b0 : (b : ℕ) → Memᴰ b (c ∷ s) → b ≢ 0
      b0 b m z = let ((low, high), _) = user' b m in absurd (omega (arith, low, z))

      before : (b w : ℕ) → Memᴰ b (c ∷ s) → b ≢ c → Holds t b w → w ≡ 0
      before b w (head bc) ne old = absurd (ne bc)
      before b w (tail m) ne old = x.unused b w m old

      unused' : (b w : ℕ) → Memᴰ b (c ∷ s) → Holds t' b w → w ≡ 0
      unused' b w m h = elim (entry b w (b0 b m) h) [
        | inl (_, wv) ↦ wv ∙ is
        | inr (ne, old) ↦ before b w m ne old
      ]

-- Every change keeps the blocks apart.
pub Change-IsExclusive :
    (Live : ℕ → Type 0) (t t' : MemHash) (c v : ℕ) (s s' : List ℕ)
    → c ≢ 0
    → IsExclusive Live s t
    → Written t t' c v
    → Change Live t c v s s'
    → IsExclusive Live s' t'
Change-IsExclusive Live t t' c v s s' c0 x u (takes e is) =
    takes-IsExclusive Live t t' c v s s' c0 x u e is
Change-IsExclusive Live t t' c v s s' c0 x u (clones e live user none kept) =
    clones-IsExclusive Live t t' c v s s' c0 x u e live user none kept
Change-IsExclusive Live t t' c v s s' c0 x u (marks e is live user none) =
    marks-IsExclusive Live t t' c v s s' c0 x u e is live user none
Change-IsExclusive Live t t' c v s s' c0 x u (gives w e is user dead some_state own) =
    gives-IsExclusive Live t t' c v s s' c0 x u w e is user dead some_state own
