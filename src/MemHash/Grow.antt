-- ===== src/MemHash/Grow.antt =====
-- `mem_hash_resize`, and `mem_hash_set` on a table that may be full.
use mathlib.Core.Path.{subst}
use everdb_native.Base.{
  ℕ, suc, ◌+◌, ◌*◌, ◌≤◌, ◌<◌, ◌≡◌, ◌≢◌, ◌∙◌, inl, inr, true, false, some, List, ◌∷◌, arith, ltb,
  leb, length, get_or, replicate, refl, sym, ap, Bool-cases,
}
use everdb_native.MemHash.{
  unset, MemHash, entry_at, hash, locate, set_item, mem_hash_set, mem_hash_get, resize, next_size,
  hash_sizes, doubled, new,
}
use everdb_native.MemHash.Spread.{
  used, IsLow, IsSmallSize, IsSmallSize-bounds, square_mono, size_3, size_7, size_13, size_23,
  size_41, size_71, size_127, size_223, size_373, size_631,
}
use everdb_native.MemHash.Map.{IsValid, Holds, set_item-Updated, same_slot, mem_hash_get-Holds}
use everdb_native.MemHash.Merge.{
  Has, IsDistinct, Has-get_or, get_or-Has, injective-IsDistinct, reinsert-Merged, empty-IsValid,
  empty_holds,
}

-- What `next_size` may answer.
abbrev Picks : (ns : List ℕ) (w : ℕ) → Type 0
Picks ns w = (c : ℕ) × (next_size ns w ≡ some c) × IsSmallSize c × (w ≤ c)

pick_next : (n : ℕ) (ns : List ℕ) (w : ℕ) → IsSmallSize n → (n < w → Picks ns w) → Picks (n ∷ ns) w
unfolding next_size
pick_next n ns w small rest = elim (Bool-cases (leb w n)) [
  | inl fits ↦ (n, rw fits refl, small, ground arith)
  | inr less ↦ let (c, e, s, le) = rest (ground arith) in (c, rw less e, s, le)
]

-- The loop over HASH_SIZES finds a size for every number up to 631.
next_size-Picks : (w : ℕ) → w ≤ 631 → Picks hash_sizes w
next_size-Picks w le = pick_next 3 _ w (size_3 refl) λ _. pick_next 7 _ w (size_7 refl) λ _.
    pick_next 13 _ w (size_13 refl) λ _. pick_next 23 _ w (size_23 refl) λ _.
      pick_next 41 _ w (size_41 refl) λ _. pick_next 71 _ w (size_71 refl) λ _.
        pick_next 127 _ w (size_127 refl) λ _. pick_next 223 _ w (size_223 refl) λ _.
          pick_next 373 _ w (size_373 refl)
            λ _. pick_next 631 _ w (size_631 refl) λ more. absurd (omega arith)

-- The table of a transaction: as `mem_hash_new` gives it, or well formed.
pub data IsTable (t : MemHash) : Type 0 where
  as_new : t ≡ new → IsTable t
  well_formed : IsValid t → IsTable t

-- What the rest needs of a table.
record IsOld (t : MemHash) : Type 0 where
  wide : length t.entries ≡ t.capacity
  counted : used t.entries ≡ t.count
  distinct : IsDistinct t.entries

valid-IsDistinct : (t : MemHash) → IsValid t → IsDistinct t.entries
unfolding entry_at
valid-IsDistinct t valid = injective-IsDistinct t.entries λ i j il jl k0 same.
    let wide = valid.placed.wide in
    let at_i = valid.placed.home i (omega (arith, wide)) k0 in
    let at_j = valid.placed.home j (omega (arith, wide)) λ e. k0 (same ∙ e) in
    same_slot (sym at_i) (subst (λ k. locate t k ≡ some j) (sym same) at_j)

IsTable-IsOld : (t : MemHash) → IsTable t → IsOld t
unfolding new
IsTable-IsOld t (as_new e) =
    subst IsOld (sym e) (record { wide = refl; counted = refl; distinct = tt })
IsTable-IsOld t (well_formed valid) = record {
  wide = valid.placed.wide;
  counted = valid.counted;
  distinct = valid-IsDistinct t valid;
}

Has-Holds :
    (t : MemHash) (q w : ℕ) → length t.entries ≡ t.capacity → Has t.entries q w → Holds t q w
unfolding entry_at
Has-Holds t q w wide has =
    let (s, lt, ks, vs) = Has-get_or t.entries q w has in (s, omega (arith, wide), ks, vs)

Holds-Has :
    (t : MemHash) (q w : ℕ) → length t.entries ≡ t.capacity → Holds t q w → Has t.entries q w
unfolding entry_at
Holds-Has t q w wide (s, lt, ks, vs) =
    subst (λ x. Has t.entries x w) ks
      (subst (Has t.entries (get_or t.entries s unset).k) vs
        (get_or-Has t.entries s (omega (arith, wide))))

-- Every key of the table has a hash so low that no probe of a table of 631 slots wraps around.
abbrev pub HasLowKeys : MemHash → Type 0
HasLowKeys t = (q w : ℕ) → q ≢ 0 → Holds t q w → IsLow (hash q) 631

IsLow-small : (h c : ℕ) → c ≤ 631 → IsLow h 631 → IsLow h c
IsLow-small h c le low = omega (arith, square_mono c 631 le)

-- `t'` has the entries of `t`, and is larger.
record Resized (t t' : MemHash) : Type 0 where
  valid : IsValid t'
  room : t.count * 2 + 1 ≤ t'.capacity
  count : t'.count ≤ t.count
  kept : (q w : ℕ) → q ≢ 0 → Holds t q w → Holds t' q w
  only : (q w : ℕ) → q ≢ 0 → Holds t' q w → Holds t q w

module _ (t : MemHash) (table : IsTable t) (small : t.count * 2 + 1 ≤ 631)
    (low : HasLowKeys t) where
  doubled_small : doubled t ≡ t.count * 2 + 1
  doubled_small = omega arith

  -- `mem_hash_resize` of a full table ends in a table of a larger size with the same entries.
  resize-Resized :
      (d : ℕ)
      → t.capacity < t.count * 2 + 1
      → (t' : MemHash) × (resize (set_item (suc d)) t ≡ some t') × Resized t t'
  unfolding resize
  resize-Resized d full =
      let old = IsTable-IsOld t table in
      let (c, picked, size, le) = next_size-Picks (t.count * 2 + 1) small in
      let bounds = IsSmallSize-bounds size in
      let empty : MemHash = record { count = 0; capacity = c; entries = replicate c unset } in
      let (t', runs, merged) = reinsert-Merged d t.entries empty (record {
        valid = empty-IsValid c size;
        distinct = old.distinct;
        fresh = λ q w v q0 has. empty_holds c q v q0;
        low = λ q w q0 has.
            IsLow-small (hash q) c bounds.1 (low q w q0 (Has-Holds t q w old.wide has));
        room = omega (arith, old.counted);
      }) in
      let grows : leb c t.capacity ≡ false = ground arith in
      (
        t',
        rw (doubled_small, picked, grows) runs,
        record {
          valid = merged.valid;
          room = omega (arith, merged.capacity);
          count = omega (arith, merged.count, old.counted);
          kept = λ q w q0 holds. merged.added q w q0 (Holds-Has t q w old.wide holds);
          only = λ q w q0 holds. elim (merged.only q w q0 holds) [
            | inl none ↦ absurd (empty_holds c q w q0 none)
            | inr has ↦ Has-Holds t q w old.wide has
          ];
        },
      )

-- `t'` is well formed and is `t` with `v` under the key `k`; its capacity may be larger.
pub record Written (t t' : MemHash) (k v : ℕ) : Type 0 where
  pub valid : IsValid t'
  pub capacity : t.capacity ≤ t'.capacity
  pub count : t'.count ≤ t.count + 1
  pub new : Holds t' k v
  pub kept : (q w : ℕ) → q ≢ 0 → q ≢ k → Holds t q w → Holds t' q w
  pub only : (q w : ℕ) → q ≢ 0 → q ≢ k → Holds t' q w → Holds t q w

-- A call on a full table is a call on the larger table.
set_item-resize :
    (d : ℕ) (t t' : MemHash) (k v : ℕ)
    → ltb t.capacity (doubled t) ≡ true
    → resize (set_item d) t ≡ some t'
    → ltb t'.capacity (doubled t') ≡ false
    → set_item (suc d) t k v ≡ set_item (suc d) t' k v
unfolding set_item
set_item-resize d t t' k v full runs room = rw (full, runs, room) refl

-- On a table as `mem_hash_new` gives it or a well-formed one, with at most 315 keys, whose keys and the key
-- `k`, which is not 0, have hashes that are not within the last 631 ^ 2 words, `mem_hash_set` ends, however
-- full the table is: where `mem_hash_resize` is called it ends too, and loses no entry. The result is well
-- formed and has the value `v` under `k` and the old values under all other keys.
pub mem_hash_set-Written :
    (t : MemHash) (k v : ℕ)
    → IsTable t
    → t.count * 2 + 1 ≤ 631
    → HasLowKeys t
    → k ≢ 0
    → IsLow (hash k) 631
    → (t' : MemHash) × (mem_hash_set t k v ≡ some t') × Written t t' k v
unfolding mem_hash_set
mem_hash_set-Written t k v table small low k0 low_k =
    elim (Bool-cases (ltb t.capacity (doubled t))) [
      | inl full ↦
          let size = doubled_small t table small low in
          let (t₁, runs, r) = resize-Resized t table small low 0 (ground arith) in
          let room : t₁.count * 2 + 1 ≤ t₁.capacity = omega (arith, r.room, r.count) in
          let bounds = IsSmallSize-bounds r.valid.size in
          let fits : ltb t₁.capacity (doubled t₁) ≡ false = ground arith in
          let (t', sets, u) =
            set_item-Updated t₁ k r.valid k0 1 v room
              (IsLow-small (hash k) t₁.capacity bounds.1 low_k) in
          (
            t',
            set_item-resize 1 t t₁ k v full runs fits ∙ sets,
            record {
              valid = u.valid;
              capacity = ground (arith, u.capacity, r.room);
              count = omega (arith, u.count, r.count);
              new = u.new;
              kept = λ q w q0 qk holds. u.kept q w q0 qk (r.kept q w q0 holds);
              only = λ q w q0 qk holds. r.only q w q0 (u.only q w q0 qk holds);
            },
          )
      | inr room ↦ elim table [
        | as_new e ↦
            let none : t.capacity ≡ 0 = unfold new in ap (λ (x : MemHash). x.capacity) e in
            let size = doubled_small t (as_new e) small low in absurd (ground arith)
        | well_formed valid ↦
            let bounds = IsSmallSize-bounds valid.size in
            let (t', sets, u) =
              set_item-Updated t k valid k0 1 v (ground arith)
                (IsLow-small (hash k) t.capacity bounds.1 low_k) in
            (
              t',
              sets,
              record {
                valid = u.valid;
                capacity = omega (arith, u.capacity);
                count = u.count.1;
                new = u.new;
                kept = u.kept;
                only = u.only;
              },
            )
      ]
    ]

-- The table has at most 315 keys, all with low hashes, as `k` has; it may be full.
pub record HasRoomFor (t : MemHash) (k : ℕ) : Type 0 where
  pub room : t.count * 2 + 1 ≤ 631
  pub keys : HasLowKeys t
  pub low : IsLow (hash k) 631

pub valid_set-Written :
    (t : MemHash) (k v : ℕ)
    → IsValid t
    → k ≢ 0
    → HasRoomFor t k
    → (t' : MemHash) × (mem_hash_set t k v ≡ some t') × Written t t' k v
valid_set-Written t k v valid k0 has =
    mem_hash_set-Written t k v (well_formed valid) has.room has.keys k0 has.low

-- `mem_hash_set` of a key other than 0 ends on a well-formed table of at most 315 keys with low hashes, as the
-- key has, a full one included; then `mem_hash_get` gives the new value for the key, and for every other key
-- that the table had its value.
pub mem_hash_get-mem_hash_set :
    (t : MemHash) (k v : ℕ)
    → IsValid t
    → k ≢ 0
    → HasRoomFor t k
    → (t' : MemHash) × (mem_hash_set t k v ≡ some t')
      × (mem_hash_get t' k ≡ some v)
      × ((q w : ℕ) → q ≢ 0 → q ≢ k → Holds t q w → mem_hash_get t' q ≡ some w)
mem_hash_get-mem_hash_set t k v valid k0 has =
    let (t', set, u) = valid_set-Written t k v valid k0 has in
    (
      t',
      set,
      mem_hash_get-Holds t' k v u.valid.placed k0 u.new,
      λ q w q0 qk h. mem_hash_get-Holds t' q w u.valid.placed q0 (u.kept q w q0 qk h),
    )
