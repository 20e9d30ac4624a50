-- ===== src/Tests/Tables.antt =====
-- The hash table at concrete inputs: a table of three slots with the key 5 under the value 2.
use everdb_native.Base.{ℕ, zero, suc, ◌<◌, ◌≡◌, ◌≢◌, refl, sym, arith, some, [], ◌∷◌, get_or, set}
use everdb_native.MemHash.{
  MemHash, item, unset, hash, probe, entry_at, stops, find_slot, probe_limit, locate, mem_hash_set,
  mem_hash_get,
}
use everdb_native.MemHash.Probe.{IsPlaced}
use everdb_native.MemHash.Spread.{IsLow, size_3}
use everdb_native.MemHash.Grow.{
  well_formed, HasLowKeys, HasRoomFor, Written, mem_hash_set-Written, mem_hash_get-mem_hash_set,
}
use mathlib.Core.Path.{subst}
use everdb_native.MemHash.Map.{IsValid, Holds}

abbrev pub table : ℕ → MemHash
table v = record { count = 1; capacity = 3; entries = unset ∷ unset ∷ item 5 v ∷ [] }

unfoldable pub run_table : Unit {0}
unfolding get_or set hash probe entry_at stops find_slot probe_limit locate
run_table = tt

pub table-IsPlaced : (v : ℕ) → IsPlaced (table v)
unfolding run_table
table-IsPlaced v = record { wide = refl; home = home }
  where
    home :
        (s : ℕ)
        → s < 3
        → (entry_at (table v) s).k ≢ 0
        → locate (table v) (entry_at (table v) s).k ≡ some s
    home zero lt filled = absurd (filled refl)
    home (suc zero) lt filled = absurd (filled refl)
    home (suc (suc zero)) lt filled = refl
    home (suc (suc (suc s))) lt filled = absurd (omega arith)

pub table-IsValid : (v : ℕ) → IsValid (table v)
unfolding run_table
table-IsValid v = record {
  placed = table-IsPlaced v;
  counted = refl;
  size = size_3 refl;
  blank = blank;
}
  where
    blank : (s : ℕ) → s < 3 → (entry_at (table v) s).k ≡ 0 → (entry_at (table v) s).v ≡ 0
    blank zero lt e = refl
    blank (suc zero) lt e = refl
    blank (suc (suc zero)) lt e = absurd (omega arith)
    blank (suc (suc (suc s))) lt e = absurd (omega arith)

pub absent : (v w : ℕ) → ¬ Holds (table v) 7 w
unfolding run_table
absent v w (zero, lt, ks, vs) = absurd (omega arith)
absent v w (suc zero, lt, ks, vs) = absurd (omega arith)
absent v w (suc (suc zero), lt, ks, vs) = absurd (omega arith)
absent v w (suc (suc (suc s)), lt, ks, vs) = absurd (omega arith)

-- Two of three slots are in use, which is more than a table may have before a call.
abbrev full_table : MemHash
full_table = record { count = 2; capacity = 3; entries = item 7 9 ∷ unset ∷ item 5 2 ∷ [] }

full_table-IsValid : IsValid full_table
unfolding run_table
full_table-IsValid = record {
  placed = record { wide = refl; home = home };
  counted = refl;
  size = size_3 refl;
  blank = blank;
}
  where
    home :
        (s : ℕ)
        → s < 3
        → (entry_at full_table s).k ≢ 0
        → locate full_table (entry_at full_table s).k ≡ some s
    home zero lt filled = refl
    home (suc zero) lt filled = absurd (filled refl)
    home (suc (suc zero)) lt filled = refl
    home (suc (suc (suc s))) lt filled = absurd (omega arith)

    blank : (s : ℕ) → s < 3 → (entry_at full_table s).k ≡ 0 → (entry_at full_table s).v ≡ 0
    blank zero lt e = absurd (omega arith)
    blank (suc zero) lt e = refl
    blank (suc (suc zero)) lt e = absurd (omega arith)
    blank (suc (suc (suc s))) lt e = absurd (omega arith)

full_table-HasLowKeys : HasLowKeys full_table
unfolding run_table
full_table-HasLowKeys q w q0 (zero, lt, ks, vs) = subst (λ x. IsLow (hash x) 631) ks (omega arith)
full_table-HasLowKeys q w q0 (suc zero, lt, ks, vs) = absurd (q0 (sym ks))
full_table-HasLowKeys q w q0 (suc (suc zero), lt, ks, vs) =
    subst (λ x. IsLow (hash x) 631) ks (omega arith)
full_table-HasLowKeys q w q0 (suc (suc (suc s)), lt, ks, vs) = absurd (omega arith)

mem_hash_set-Written_example :
    (t : MemHash) × (mem_hash_set full_table 9 4 ≡ some t) × Written full_table t 9 4
unfolding run_table
mem_hash_set-Written_example =
    mem_hash_set-Written full_table 9 4 (well_formed full_table-IsValid) (omega arith)
      full_table-HasLowKeys (omega arith) (omega arith)

full_table-HasRoomFor : HasRoomFor full_table 9
unfolding run_table
full_table-HasRoomFor = record {
  room = omega arith;
  keys = full_table-HasLowKeys;
  low = omega arith;
}

mem_hash_get-mem_hash_set_example :
    (t : MemHash) × (mem_hash_set full_table 9 4 ≡ some t)
    × (mem_hash_get t 9 ≡ some 4)
    × ((q w : ℕ) → q ≢ 0 → q ≢ 9 → Holds full_table q w → mem_hash_get t q ≡ some w)
mem_hash_get-mem_hash_set_example =
    mem_hash_get-mem_hash_set full_table 9 4 full_table-IsValid (omega arith) full_table-HasRoomFor

pub table-HasRoomFor : (v k : ℕ) → IsLow (hash k) 631 → HasRoomFor (table v) k
unfolding run_table
table-HasRoomFor v k low = record { room = omega arith; keys = keys; low = low }
  where
    keys : HasLowKeys (table v)
    keys q w q0 (zero, lt, ks, vs) = absurd (q0 (sym ks))
    keys q w q0 (suc zero, lt, ks, vs) = absurd (q0 (sym ks))
    keys q w q0 (suc (suc zero), lt, ks, vs) = subst (λ x. IsLow (hash x) 631) ks (omega arith)
    keys q w q0 (suc (suc (suc s)), lt, ks, vs) = absurd (omega arith)
