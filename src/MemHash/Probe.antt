-- ===== src/MemHash/Probe.antt =====
-- Where the probe loop ends, and what a write to one slot does to the loops of all keys.
use everdb_native.Base.{
  ℕ, zero, suc, ◌+◌, ◌%◌, ◌^◌, ◌<◌, ◌≡◌, ◌≢◌, ◌∙◌, ◌⊎◌, inl, inr, true, false, some, arith, length,
  Bool-cases, get_or-set,
}
use everdb_native.Base.Word.{add32}
use everdb_native.MemHash.{item, unset, MemHash, probe, entry_at, stops, find_slot, locate, put}

-- The array has its length, and every key stands where its loop ends.
pub record IsPlaced (t : MemHash) : Type 0 where
  pub wide : length t.entries ≡ t.capacity
  pub home : (s : ℕ) → s < t.capacity → (entry_at t s).k ≢ 0 → locate t (entry_at t s).k ≡ some s

-- The slot of round `i`.
abbrev pub slot_of : MemHash → (h i : ℕ) → ℕ
slot_of t h i = probe h i % t.capacity

module _ (t : MemHash) (h k : ℕ) where
  pub find_slot_ends :
      (fuel i s : ℕ)
      → 0 < t.capacity
      → find_slot fuel t h k i ≡ some s
      → (s < t.capacity) × (stops k (entry_at t s) ≡ true)
  unfolding find_slot
  find_slot_ends zero i s pos e = absurd (ground arith)
  find_slot_ends (suc fuel) i s pos e = elim (Bool-cases (stops k (entry_at t (slot_of t h i)))) [
    | inl stop ↦ ground arith
    | inr go ↦ find_slot_ends fuel (add32 i 1) s pos (ground arith)
  ]

  find_slot_step :
      (fuel i : ℕ)
      → i + 1 < 2 ^ 32
      → stops k (entry_at t (slot_of t h i)) ≡ false
      → find_slot (suc fuel) t h k i ≡ find_slot fuel t h k (i + 1)
  unfolding find_slot
  find_slot_step fuel i small go = let next : add32 i 1 ≡ i + 1 = omega arith in rw (go, next)

  -- The loop ends if some round within the fuel meets a slot that stops it.
  pub find_slot_total :
      (n fuel i : ℕ)
      → n < fuel
      → i + n < 2 ^ 32
      → stops k (entry_at t (slot_of t h (i + n))) ≡ true
      → (s : ℕ) × (find_slot fuel t h k i ≡ some s)
  unfolding find_slot
  find_slot_total n zero i lt small stop = absurd (omega arith)
  find_slot_total zero (suc fuel) i lt small stop =
      let same : i + 0 ≡ i = omega arith in (slot_of t h i, rw (rw same at stop))
  find_slot_total (suc n) (suc fuel) i lt small stop =
      let same : i + suc n ≡ i + 1 + n = omega arith in
      let (s, e) = find_slot_total n fuel (i + 1) (omega arith) (omega arith) (rw same at stop) in
      elim (Bool-cases (stops k (entry_at t (slot_of t h i)))) [
        | inl here ↦ (slot_of t h i, rw here)
        | inr go ↦ (s, find_slot_step fuel i (omega arith) go ∙ e)
      ]

-- `put` at the slot where the loop for `k` ends.
module _ (t : MemHash) (s k v : ℕ) (wide : length t.entries ≡ t.capacity)
    (lt : s < t.capacity) where
  pub entry_at-put :
      (x : ℕ)
      → ((s ≡ x) × (entry_at (put t s k v) x ≡ item k v))
        ⊎ ((s ≢ x) × (entry_at (put t s k v) x ≡ entry_at t x))
  unfolding entry_at put
  entry_at-put x = get_or-set t.entries s x (item k v) unset (omega arith)

  -- The loop of the key itself ends in the same slot as before.
  pub find_slot-put_self :
      (h fuel i : ℕ) → find_slot fuel t h k i ≡ some s → find_slot fuel (put t s k v) h k i ≡ some s
  unfolding find_slot put stops
  find_slot-put_self h zero i e = cc
  find_slot-put_self h (suc fuel) i e =
      ground (arith, entry_at-put (slot_of t h i), find_slot-put_self h fuel (add32 i 1))

  -- A key in another slot is still found there.
  pub find_slot-put_other :
      (h q x fuel i : ℕ)
      → k ≢ 0
      → q ≢ 0
      → q ≢ k
      → stops k (entry_at t s) ≡ true
      → (entry_at t x).k ≡ q
      → find_slot fuel t h q i ≡ some x
      → find_slot fuel (put t s k v) h q i ≡ some x
  unfolding find_slot put stops
  find_slot-put_other h q x zero i k0 q0 qk stop there e = cc
  find_slot-put_other h q x (suc fuel) i k0 q0 qk stop there e = ground (
    arith,
    entry_at-put (slot_of t h i),
    find_slot-put_other h q x fuel (add32 i 1) k0 q0 qk stop there,
  )
