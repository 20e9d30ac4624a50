-- ===== src/MemHash/Merge.antt =====
-- The loop of `mem_hash_resize` that puts the old entries into the new table.
use mathlib.Core.Path.{subst}
use everdb_native.Base.{
  ℕ, zero, suc, ◌+◌, ◌*◌, ◌≤◌, ◌<◌, ◌≡◌, ◌≢◌, ◌∙◌, ◌⊎◌, inl, inr, some, List, [], ◌∷◌, arith, ◌==◌,
  length, get_or, replicate, refl, sym, ap, Bool-cases, length-replicate, get_or-replicate,
}
use everdb_native.MemHash.{Item, unset, MemHash, entry_at, hash, set_item, reinsert}
use everdb_native.MemHash.Spread.{used, IsLow, IsSmallSize}
use everdb_native.MemHash.Map.{IsValid, Holds, Updated, Holds_unique, set_item-Updated}

-- The entries have the value `w` under the key `q`.
abbrev pub Has : List Item → (q w : ℕ) → Type 0
Has [] q w = ⊥
Has (e ∷ es) q w = ((e.k ≡ q) × (e.v ≡ w)) ⊎ Has es q w

-- No key other than 0 occurs twice.
abbrev pub IsDistinct : List Item → Type 0
IsDistinct [] = Unit {0}
IsDistinct (e ∷ es) = (e.k ≢ 0 → (w : ℕ) → ¬ Has es e.k w) × IsDistinct es

pub Has-get_or :
    (es : List Item) (q w : ℕ)
    → Has es q w
    → (s : ℕ) × (s < length es) × ((get_or es s unset).k ≡ q) × ((get_or es s unset).v ≡ w)
unfolding get_or
Has-get_or [] q w h = absurd h
Has-get_or (e ∷ es) q w (inl (ks, vs)) = (0, omega arith, ks, vs)
Has-get_or (e ∷ es) q w (inr h) =
    let (s, lt, ks, vs) = Has-get_or es q w h in (suc s, omega arith, ks, vs)

pub get_or-Has :
    (es : List Item) (s : ℕ) → s < length es → Has es (get_or es s unset).k (get_or es s unset).v
unfolding get_or
get_or-Has [] s lt = absurd (omega arith)
get_or-Has (e ∷ es) zero lt = inl (refl, refl)
get_or-Has (e ∷ es) (suc s) lt = inr (get_or-Has es s (omega arith))

-- If equal keys stand at equal indices then no key occurs twice.
pub injective-IsDistinct :
    (es : List Item)
    → ((i j : ℕ)
        → i < length es
        → j < length es
        → (get_or es i unset).k ≢ 0
        → (get_or es i unset).k ≡ (get_or es j unset).k
        → i ≡ j)
    → IsDistinct es
unfolding get_or
injective-IsDistinct [] same = tt
injective-IsDistinct (e ∷ es) same = (
  λ k0 w h.
      let (s, lt, ks, vs) = Has-get_or es e.k w h in
      absurd (omega (arith, same 0 (suc s) (omega arith) (omega arith) k0 (sym ks))),
  injective-IsDistinct es
      λ i j il jl k0 e'. omega (arith, same (suc i) (suc j) (omega arith) (omega arith) k0 e'),
)

-- `t'` has the entries of `t` and those of the list.
pub record Merged (t : MemHash) (es : List Item) (t' : MemHash) : Type 0 where
  pub valid : IsValid t'
  pub capacity : t'.capacity ≡ t.capacity
  pub count : t'.count ≤ t.count + used es
  pub kept : (q w : ℕ) → q ≢ 0 → Holds t q w → Holds t' q w
  pub added : (q w : ℕ) → q ≢ 0 → Has es q w → Holds t' q w
  pub only : (q w : ℕ) → q ≢ 0 → Holds t' q w → Holds t q w ⊎ Has es q w

-- What the loop needs: the keys of the list occur once and not in the table, and there is room.
pub record Mergeable (t : MemHash) (es : List Item) : Type 0 where
  pub valid : IsValid t
  pub distinct : IsDistinct es
  pub fresh : (q w v : ℕ) → q ≢ 0 → Has es q w → ¬ Holds t q v
  pub low : (q w : ℕ) → q ≢ 0 → Has es q w → IsLow (hash q) t.capacity
  pub room : (t.count + used es) * 2 + 1 ≤ t.capacity

-- After one call of `mem_hash_set` the rest of the list is as before it.
Updated-Mergeable :
    (t t' : MemHash) (e : Item) (es : List Item)
    → Mergeable t (e ∷ es)
    → e.k ≢ 0
    → Updated t t' e.k e.v
    → Mergeable t' es
Updated-Mergeable t t' e es m k0 u = record {
  valid = u.valid;
  distinct = m.distinct.1;
  fresh = λ q w v q0 has holds. elim (Bool-cases (q == e.k)) [
    | inl at ↦ m.distinct.0 k0 w (subst (λ x. Has es x w) (ground arith) has)
    | inr off ↦ m.fresh q w v q0 (inr has) (u.only q v q0 (ground arith) holds)
  ];
  low = λ q w q0 has. subst (IsLow (hash q)) (sym u.capacity) (m.low q w q0 (inr has));
  room = let r = m.room in let c = u.count in let cap = u.capacity in ground arith;
}

Updated-Merged :
    (t t' t'' : MemHash) (e : Item) (es : List Item)
    → Mergeable t (e ∷ es)
    → e.k ≢ 0
    → Updated t t' e.k e.v
    → Merged t' es t''
    → Merged t (e ∷ es) t''
Updated-Merged t t' t'' e es m k0 u r = record {
  valid = r.valid;
  capacity = r.capacity ∙ u.capacity;
  count = let c = r.count in let c' = u.count in ground arith;
  kept = λ q w q0 holds.
      r.kept q w q0 (u.kept q w q0 (λ at. m.fresh q e.v w q0 (inl (sym at, refl)) holds) holds);
  added = λ q w q0 has. elim has [
    | inl (ks, vs) ↦ r.kept q w q0 (subst (λ x. Holds t' x w) ks (subst (Holds t' e.k) vs u.new))
    | inr rest ↦ r.added q w q0 rest
  ];
  only = λ q w q0 holds. elim (r.only q w q0 holds) [
    | inl before ↦ elim (Bool-cases (q == e.k)) [
      | inl at ↦
          let qe : q ≡ e.k = ground arith in
          inr (
            inl (
              sym qe,
              Holds_unique t' e.k e.v w u.valid.placed k0 u.new
                  (subst (λ x. Holds t' x w) qe before),
            ))
      | inr off ↦ inl (u.only q w q0 (ground arith) before)
    ]
    | inr rest ↦ inr (inr rest)
  ];
}

skipped-Merged :
    (t t' : MemHash) (e : Item) (es : List Item) → e.k ≡ 0 → Merged t es t' → Merged t (e ∷ es) t'
skipped-Merged t t' e es k0 r = record {
  valid = r.valid;
  capacity = r.capacity;
  count = let c = r.count in ground arith;
  kept = r.kept;
  added = λ q w q0 has. elim has [
    | inl (ks, vs) ↦ absurd (q0 (sym ks ∙ k0))
    | inr rest ↦ r.added q w q0 rest
  ];
  only = λ q w q0 holds. elim (r.only q w q0 holds) [
    | inl before ↦ inl before
    | inr rest ↦ inr (inr rest)
  ];
}

skipped-Mergeable :
    (t : MemHash) (e : Item) (es : List Item) → e.k ≡ 0 → Mergeable t (e ∷ es) → Mergeable t es
skipped-Mergeable t e es k0 m = record {
  valid = m.valid;
  distinct = m.distinct.1;
  fresh = λ q w v q0 has. m.fresh q w v q0 (inr has);
  low = λ q w q0 has. m.low q w q0 (inr has);
  room = let r = m.room in ground arith;
}

-- The loop ends, without a resize on its way, and the table then has the old and the new entries.
pub reinsert-Merged :
    (d : ℕ) (es : List Item) (t : MemHash)
    → Mergeable t es
    → (t' : MemHash) × (reinsert (set_item (suc d)) es t ≡ some t') × Merged t es t'
unfolding reinsert
reinsert-Merged d [] t m = (
  t,
  refl,
  record {
    valid = m.valid;
    capacity = refl;
    count = omega arith;
    kept = λ q w q0 holds. holds;
    added = λ q w q0 has. absurd has;
    only = λ q w q0 holds. inl holds;
  },
)
reinsert-Merged d (e ∷ es) t m = elim (Bool-cases (e.k == 0)) [
  | inl blank ↦
      let k0 : e.k ≡ 0 = ground arith in
      let (t', runs, merged) = reinsert-Merged d es t (skipped-Mergeable t e es k0 m) in
      (t', rw (blank, runs) refl, skipped-Merged t t' e es k0 merged)
  | inr filled ↦
      let k0 : e.k ≢ 0 = ground arith in
      let r = m.room in
      let (t₁, sets, u) =
        set_item-Updated t e.k m.valid k0 d e.v (ground arith)
          (m.low e.k e.v k0 (inl (refl, refl))) in
      let (t', runs, merged) = reinsert-Merged d es t₁ (Updated-Mergeable t t₁ e es m k0 u) in
      (t', rw (filled, sets, runs) refl, Updated-Merged t t₁ t' e es m k0 u merged)
]

used-replicate : (n : ℕ) → used (replicate n unset) ≡ 0
unfolding replicate
used-replicate zero = refl
used-replicate (suc n) = omega (arith, used-replicate n)

-- A new array of a small size is a well-formed table without entries.
pub empty-IsValid :
    (c : ℕ)
    → IsSmallSize c
    → IsValid (record { count = 0; capacity = c; entries = replicate c unset })
unfolding entry_at
empty-IsValid c size = record {
  placed = record {
    wide = length-replicate c unset;
    home = λ s lt k0. absurd (k0 (ap (λ (e : Item). e.k) (get_or-replicate c s unset)));
  };
  counted = used-replicate c;
  size = size;
  blank = λ s lt e. ap (λ (e : Item). e.v) (get_or-replicate c s unset);
}

pub empty_holds :
    (c q w : ℕ)
    → q ≢ 0
    → ¬ Holds (record { count = 0; capacity = c; entries = replicate c unset }) q w
unfolding entry_at
empty_holds c q w q0 (s, lt, ks, vs) =
    q0 (sym ks ∙ ap (λ (e : Item). e.k) (get_or-replicate c s unset))
