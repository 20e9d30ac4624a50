-- ===== src/MemHash/Map.antt =====
-- The table as a map from u32 to u32: `mem_hash_set` where the table has room, and `mem_hash_get`.
use everdb_native.Base.{
  ℕ, zero, suc, ◌+◌, ◌*◌, ◌/◌, ◌%◌, ◌^◌, ◌≤◌, ◌<◌, ◌≡◌, ◌≢◌, ◌∙◌, ◌⊎◌, inl, inr, true, false,
  Option, some, List, [], ◌∷◌, arith, ltb, ◌==◌, if◌then◌else◌, length, get_or, set, refl,
  length-set, sym, ap,
}
use everdb_native.Base.Word.{add32}
use everdb_native.MemHash.{
  Item, item, unset, MemHash, entry_at, stops, locate, hash, put, set_item, mem_hash_get,
}
use everdb_native.MemHash.Probe.{
  IsPlaced, find_slot_ends, entry_at-put, find_slot-put_self, find_slot-put_other,
}
use everdb_native.MemHash.Spread.{
  used, IsLow, IsSmallSize, IsSmallSize-IsSpread, IsSmallSize-bounds, IsSpread-IsApart,
  locate_total,
}

pub record IsValid (t : MemHash) : Type 0 where
  pub placed : IsPlaced t
  pub counted : used t.entries ≡ t.count
  pub size : IsSmallSize t.capacity
  pub blank : (s : ℕ) → s < t.capacity → (entry_at t s).k ≡ 0 → (entry_at t s).v ≡ 0

-- The table has the value `v` under the key `k`.
abbrev pub Holds : MemHash → (k v : ℕ) → Type 0
Holds t k v = (s : ℕ) × (s < t.capacity) × ((entry_at t s).k ≡ k) × ((entry_at t s).v ≡ v)

-- `t'` is `t` with `v` under the key `k`.
pub record Updated (t t' : MemHash) (k v : ℕ) : Type 0 where
  pub valid : IsValid t'
  pub capacity : t'.capacity ≡ t.capacity
  pub count : (t.count ≤ t'.count) × (t'.count ≤ t.count + 1)
  pub new : Holds t' k v
  pub kept : (q w : ℕ) → q ≢ 0 → q ≢ k → Holds t q w → Holds t' q w
  pub only : (q w : ℕ) → q ≢ 0 → q ≢ k → Holds t' q w → Holds t q w

used-set :
    (es : List Item) (s k v : ℕ)
    → s < length es
    → k ≢ 0
    → used (set es s (item k v)) ≡ used es + (if (get_or es s unset).k == 0 then 1 else 0)
unfolding get_or set
used-set [] s k v lt k0 = absurd (omega arith)
used-set (e ∷ es) zero k v lt k0 = ground arith
used-set (e ∷ es) (suc s) k v lt k0 = ground (arith, used-set es s k v)

pub same_slot : {o : Option ℕ} {a b : ℕ} → some a ≡ o → o ≡ some b → a ≡ b
same_slot {a} {b} p q = let both : some a ≡ some b = p ∙ q in ground arith

module _ (t : MemHash) (k : ℕ) (valid : IsValid t) (k0 : k ≢ 0) where
  -- The loop for a key ends where fewer than half of the slots are in use.
  ends : t.count * 2 + 1 ≤ t.capacity → IsLow (hash k) t.capacity → (s : ℕ) × (locate t k ≡ some s)
  ends room low =
      let bounds = IsSmallSize-bounds valid.size in
      locate_total t k (t.capacity / 2 + 1) valid.placed.wide (omega arith)
        (omega (arith, valid.counted)) (omega arith)
        (IsSpread-IsApart t (hash k) (omega arith) (IsSmallSize-IsSpread valid.size) low)

  located : (s : ℕ) → locate t k ≡ some s → (s < t.capacity) × (stops k (entry_at t s) ≡ true)
  unfolding locate
  located s e =
      let bounds = IsSmallSize-bounds valid.size in
      find_slot_ends t (hash k) k _ 0 s (omega arith) e

  module _ (s v : ℕ) (at : locate t k ≡ some s) where
    put-IsPlaced : IsPlaced (put t s k v)
    unfolding locate
    put-IsPlaced =
        let (lt, stop) = located s at in
        let wide = valid.placed.wide in
        record {
          wide = unfold put in (length-set t.entries s (item k v) ∙ wide);
          home = λ x xl x0. elim (entry_at-put t s k v wide lt x) [
            | inl (e, r) ↦ rw r (rw (← e) (find_slot-put_self t s k v wide lt (hash k) _ 0 at))
            | inr (n, r) ↦
                let q = (entry_at t x).k in
                let q0 : q ≢ 0 = rw r at x0 in
                let home = valid.placed.home x (unfold put in xl) q0 in
                let qk : q ≢ k = λ e. n (same_slot (sym at) (rw e at home)) in
                rw r (find_slot-put_other t s k v wide lt (hash q) q x _ 0 k0 q0 qk stop refl home)
          ];
        }

    -- Every slot but `s` is as it was, and `s` had the key or none.
    put_slot :
        (x : ℕ)
        → ((s ≡ x) × (entry_at (put t s k v) x ≡ item k v))
          ⊎ ((s ≢ x) × (entry_at (put t s k v) x ≡ entry_at t x))
    put_slot = entry_at-put t s k v valid.placed.wide (located s at).0

    put-Updated : t.count * 2 + 1 ≤ t.capacity → Updated t (put t s k v) k v
    put-Updated room =
        let (lt, stop) = located s at in
        let wide = valid.placed.wide in
        let bounds = IsSmallSize-bounds valid.size in
        let held : (x q w : ℕ)
            → q ≢ 0
            → q ≢ k
            → (entry_at t x).k ≡ q
            → (entry_at t x).v ≡ w
            → ((entry_at (put t s k v) x).k ≡ q) × ((entry_at (put t s k v) x).v ≡ w) =
          λ x q w q0 qk kx vx. unfold stops in ground (arith, put_slot x) in
        let holds : (x q w : ℕ)
            → q ≢ k
            → (entry_at (put t s k v) x).k ≡ q
            → (entry_at (put t s k v) x).v ≡ w
            → ((entry_at t x).k ≡ q) × ((entry_at t x).v ≡ w) =
          λ x q w qk kx vx. ground (arith, put_slot x) in
        record {
          valid = record {
            placed = put-IsPlaced;
            counted =
                unfold put entry_at in
                (used-set t.entries s k v (omega arith) k0 ∙ ground (arith, valid.counted));
            size = unfold put in valid.size;
            blank = λ x xl e. ground (arith, put_slot x, valid.blank x (unfold put in xl));
          };
          capacity = unfold put in refl;
          count = unfold put in ground arith;
          new = (s, unfold put in lt, ground (arith, put_slot s), ground (arith, put_slot s));
          kept = λ q w q0 qk (x, xl, kx, vx).
              (x, unfold put in xl, (held x q w q0 qk kx vx).0, (held x q w q0 qk kx vx).1);
          only = λ q w q0 qk (x, xl, kx, vx).
              (x, unfold put in xl, (holds x q w qk kx vx).0, (holds x q w qk kx vx).1);
        }

  -- On a table with room for one more key `mem_hash_set` ends, at every depth of its recursion.
  pub set_item-Updated :
      (d v : ℕ)
      → t.count * 2 + 1 ≤ t.capacity
      → IsLow (hash k) t.capacity
      → (t' : MemHash) × (set_item (suc d) t k v ≡ some t') × Updated t t' k v
  unfolding set_item
  set_item-Updated d v room low =
      let bounds = IsSmallSize-bounds valid.size in
      let (s, at) = ends room low in
      let fits : ltb t.capacity (add32 (t.count * 2 % 2 ^ 32) 1) ≡ false = ground arith in
      (put t s k v, rw (fits, at), put-Updated s v at room)

  -- Under the same conditions the lookup of a key that the table does not have ends and gives 0.
  pub mem_hash_get-absent :
      t.count * 2 + 1 ≤ t.capacity
      → IsLow (hash k) t.capacity
      → ((w : ℕ) → ¬ Holds t k w)
      → mem_hash_get t k ≡ some 0
  unfolding mem_hash_get stops
  mem_hash_get-absent room low absent =
      let bounds = IsSmallSize-bounds valid.size in
      let (s, at) = ends room low in
      let (lt, stop) = located s at in
      let some_slots : (t.capacity == 0) ≡ false = ground arith in
      let free : (entry_at t s).k ≡ 0 = ground (arith, absent (entry_at t s).v) in
      rw (some_slots, at) (ap (λ (x : ℕ). some x) (valid.blank s lt free))

-- A lookup of a key that a well-formed table has gives its value, however full the table is.
pub mem_hash_get-Holds :
    (t : MemHash) (q w : ℕ) → IsPlaced t → q ≢ 0 → Holds t q w → mem_hash_get t q ≡ some w
unfolding mem_hash_get
mem_hash_get-Holds t q w placed q0 (s, lt, ks, vs) =
    let some_slots : (t.capacity == 0) ≡ false = ground arith in
    let home = placed.home s lt (rw ks q0) in
    rw (some_slots, rw ks at home) (ap (λ (x : ℕ). some x) vs)

-- A key has one value.
pub Holds_unique :
    (t : MemHash) (q v w : ℕ) → IsPlaced t → q ≢ 0 → Holds t q v → Holds t q w → v ≡ w
Holds_unique t q v w placed q0 a b =
    same_slot (sym (mem_hash_get-Holds t q v placed q0 a)) (mem_hash_get-Holds t q w placed q0 b)
