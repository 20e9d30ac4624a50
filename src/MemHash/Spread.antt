-- ===== src/MemHash/Spread.antt =====
-- Why the probe loop ends: the first rounds meet different slots, and fewer slots are in use. The
-- probe steps are the triangular numbers; over the sizes of HASH_SIZES up to 631 the first half of
-- them is checked to be distinct, as it is over every odd prime.
use everdb_native.Base.{
  ℕ, zero, suc, ◌+◌, ◌-◌, ◌*◌, ◌/◌, ◌%◌, ◌^◌, ◌≤◌, ◌<◌, ◌≡◌, ◌≢◌, ◌∙◌, ◌⊎◌, inl, inr, Bool, true,
  false, ◌&&◌, some, List, [], ◌∷◌, arith, ◌==◌, if◌then◌else◌, length, get_or, set, Bool-cases,
  get_or-set, length-set, sym, ap,
}
use native.Mathlib.Nat.{mod-add-mod, div-add-mod, mod-lt, add-mul-mod_self_left}
use everdb_native.MemHash.{Item, unset, MemHash, probe, entry_at, stops, locate, hash, probe_limit}
use everdb_native.MemHash.Probe.{slot_of, find_slot_total}

abbrev pub used : List Item → ℕ
used [] = 0
used (e ∷ es) = (if e.k == 0 then 0 else 1) + used es

used-unset :
    (es : List Item) (i : ℕ)
    → i < length es
    → (get_or es i unset).k ≢ 0
    → used (set es i unset) + 1 ≡ used es
unfolding get_or set
used-unset [] i h e = absurd (omega arith)
used-unset (x ∷ es) zero h e = ground arith
used-unset (x ∷ es) (suc i) h e = omega (arith, used-unset es i (omega arith) e)

-- Slots in use that differ pairwise are no more than the entries in use.
pigeonhole :
    (n : ℕ) (f : ℕ → ℕ) (es : List Item)
    → ((i : ℕ) → i < n → f i < length es)
    → ((i j : ℕ) → i < j → j < n → f i ≢ f j)
    → ((i : ℕ) → i < n → (get_or es (f i) unset).k ≢ 0)
    → n ≤ used es
pigeonhole zero f es inside apart full = omega arith
pigeonhole (suc n) f es inside apart full =
    let es' = set es (f n) unset in
    let here = inside n (omega arith) in
    let rest =
      pigeonhole n f es' (λ i h. omega (arith, inside i, length-set es (f n) unset))
        (λ i j ij jn. apart i j ij (omega arith))
        (λ i h. ground (arith, get_or-set es (f n) (f i) unset unset, full i, apart i n)) in
    omega (arith, used-unset es (f n) here (full n (omega arith)))

-- Some slot among `n` is unset, or all are in use.
find_unset :
    (n : ℕ) (f : ℕ → ℕ) (es : List Item)
    → ((i : ℕ) × (i < n) × ((get_or es (f i) unset).k ≡ 0))
      ⊎ ((i : ℕ) → i < n → (get_or es (f i) unset).k ≢ 0)
find_unset zero f es = inr (λ i h. absurd (omega arith))
find_unset (suc n) f es = elim (find_unset n f es) [
  | inl (i, lt, e) ↦ inl (i, omega arith, e)
  | inr full ↦ elim (Bool-cases ((get_or es (f n) unset).k == 0)) [
    | inl e ↦ inl (n, omega arith, ground arith)
    | inr e ↦ inr (λ i h. ground (arith, full i))
  ]
]

-- The first `n` rounds for a hash meet different slots.
abbrev pub IsApart : MemHash → (h n : ℕ) → Type 0
IsApart t h n = (i j : ℕ) → i < j → j < n → slot_of t h i ≢ slot_of t h j

stops-unset :
    (k : ℕ) (t : MemHash) (s : ℕ) → (get_or t.entries s unset).k ≡ 0 → stops k (entry_at t s) ≡ true
unfolding stops entry_at
stops-unset k t s e = rw e

-- With fewer entries in use than rounds that meet different slots, the loop ends.
pub locate_total :
    (t : MemHash) (k n : ℕ)
    → length t.entries ≡ t.capacity
    → 0 < t.capacity
    → used t.entries < n
    → n < 2 ^ 32
    → IsApart t (hash k) n
    → (s : ℕ) × (locate t k ≡ some s)
unfolding locate probe_limit
locate_total t k n wide pos few small apart = elim (find_unset n (slot_of t (hash k)) t.entries) [
  | inl (i, lt, e) ↦
      find_slot_total t (hash k) k i (2 ^ 32) 0 (omega arith) (omega arith) (stop i e)
  | inr full ↦
      absurd
        (omega (arith, pigeonhole n (slot_of t (hash k)) t.entries (λ i h. omega arith) apart full))
]
  where
    stop :
        (i : ℕ)
        → (get_or t.entries (slot_of t (hash k) i) unset).k ≡ 0
        → stops k (entry_at t (slot_of t (hash k) (0 + i))) ≡ true
    stop i e =
        let same : 0 + i ≡ i = omega arith in rw same (stops-unset k t (slot_of t (hash k) i) e)

mod_cancel : (h a b p : ℕ) → 0 < p → (h + a) % p ≡ (h + b) % p → a % p ≡ b % p
mod_cancel h a b p pos e =
    sym (back a)
    ∙ sym (mod-add-mod (h + a) p (p - h % p))
    ∙ ap (λ (x : ℕ). (x + (p - h % p)) % p) e
    ∙ mod-add-mod (h + b) p (p - h % p)
    ∙ back b
  where
    back : (x : ℕ) → (h + x + (p - h % p)) % p ≡ x % p
    back x =
        let same : h + x + (p - h % p) ≡ x + p * (h / p + 1) =
          omega (arith, div-add-mod h p, mod-lt h pos) in
        rw same (add-mul-mod_self_left x p (h / p + 1))

-- The numbers that `mem_hash_probe` adds to the hash.
abbrev pub triangle : ℕ → ℕ
triangle i = (i * i + i) / 2

differs_below : ℕ → (p x : ℕ) → Bool
differs_below zero p x = true
differs_below (suc j) p x = (if triangle j % p == x then false else true) && differs_below j p x

distinct_below : ℕ → ℕ → Bool
distinct_below zero p = true
distinct_below (suc j) p = differs_below j p (triangle j % p) && distinct_below j p

differs_below_sound : (n p x i : ℕ) → differs_below n p x ≡ true → i < n → triangle i % p ≢ x
unfolding differs_below
differs_below_sound zero p x i h lt = absurd (omega arith)
differs_below_sound (suc n) p x i h lt = ground (arith, differs_below_sound n p x i)

distinct_below_sound :
    (n p i j : ℕ) → distinct_below n p ≡ true → i < j → j < n → triangle i % p ≢ triangle j % p
unfolding distinct_below
distinct_below_sound zero p i j h ij jn = absurd (omega arith)
distinct_below_sound (suc n) p i j h ij jn =
    ground (arith, distinct_below_sound n p i j, differs_below_sound n p (triangle n % p) i)

-- The first `p / 2 + 1` triangular numbers differ modulo `p`.
pub IsSpread : ℕ → Type 0
IsSpread p = distinct_below (p / 2 + 1) p ≡ true

-- The hash is so far below 2 ^ 32 that no probe of the first half wraps around.
abbrev pub IsLow : (h p : ℕ) → Type 0
IsLow h p = h + p * p < 2 ^ 32

pub square_mono : (a b : ℕ) → a ≤ b → a * a ≤ b * b
square_mono a b h = grind arith

self_le_square : (i : ℕ) → i ≤ i * i
self_le_square zero = omega arith
self_le_square (suc i) = omega arith

probe_low : (h p i : ℕ) → IsLow h p → i ≤ p / 2 → probe h i ≡ h + triangle i
unfolding probe
probe_low h p i low le = omega (arith, square_mono (2 * i) p (omega arith), self_le_square i)

pub IsSpread-IsApart :
    (t : MemHash) (h : ℕ)
    → 0 < t.capacity
    → IsSpread t.capacity
    → IsLow h t.capacity
    → IsApart t h (t.capacity / 2 + 1)
unfolding IsSpread
IsSpread-IsApart t h pos spread low i j ij jn e =
    distinct_below_sound (t.capacity / 2 + 1) t.capacity i j spread ij jn (
      mod_cancel h (triangle i) (triangle j) t.capacity pos (
        rw (probe_low h t.capacity i low (omega arith), probe_low h t.capacity j low (omega arith))
          at e))

-- The capacities up to 631 that `mem_hash_resize` chooses.
pub data IsSmallSize (p : ℕ) : Type 0 where
  size_3 : p ≡ 3 → IsSmallSize p
  size_7 : p ≡ 7 → IsSmallSize p
  size_13 : p ≡ 13 → IsSmallSize p
  size_23 : p ≡ 23 → IsSmallSize p
  size_41 : p ≡ 41 → IsSmallSize p
  size_71 : p ≡ 71 → IsSmallSize p
  size_127 : p ≡ 127 → IsSmallSize p
  size_223 : p ≡ 223 → IsSmallSize p
  size_373 : p ≡ 373 → IsSmallSize p
  size_631 : p ≡ 631 → IsSmallSize p

pub IsSmallSize-IsSpread : {p : ℕ} → IsSmallSize p → IsSpread p
unfolding IsSpread distinct_below differs_below
IsSmallSize-IsSpread (size_3 e) = rw e
IsSmallSize-IsSpread (size_7 e) = rw e
IsSmallSize-IsSpread (size_13 e) = rw e
IsSmallSize-IsSpread (size_23 e) = rw e
IsSmallSize-IsSpread (size_41 e) = rw e
IsSmallSize-IsSpread (size_71 e) = rw e
IsSmallSize-IsSpread (size_127 e) = rw e
IsSmallSize-IsSpread (size_223 e) = rw e
IsSmallSize-IsSpread (size_373 e) = rw e
IsSmallSize-IsSpread (size_631 e) = rw e

pub IsSmallSize-bounds : {p : ℕ} → IsSmallSize p → (3 ≤ p) × (p ≤ 631)
IsSmallSize-bounds (size_3 e) = omega arith
IsSmallSize-bounds (size_7 e) = omega arith
IsSmallSize-bounds (size_13 e) = omega arith
IsSmallSize-bounds (size_23 e) = omega arith
IsSmallSize-bounds (size_41 e) = omega arith
IsSmallSize-bounds (size_71 e) = omega arith
IsSmallSize-bounds (size_127 e) = omega arith
IsSmallSize-bounds (size_223 e) = omega arith
IsSmallSize-bounds (size_373 e) = omega arith
IsSmallSize-bounds (size_631 e) = omega arith
