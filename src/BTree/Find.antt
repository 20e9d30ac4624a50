-- ===== src/BTree/Find.antt =====
-- `list_find` is the lower bound of a key among the sorted keys of a node.
use everdb_native.Base.{ℕ, zero, suc, ◌+◌, ◌/◌, ◌≤◌, ◌<◌, inl, inr, arith, ltb, Bool-cases, ltb→lt}
use everdb_native.Memory.{Mem}
use everdb_native.BTree.{key, self_size, bisect, list_find}

-- The first `n` keys ascend.
abbrev pub IsSorted : Mem → ℕ → ℕ → Type 0
IsSorted m root n = (i j : ℕ) → i < j → j < n → key m root i < key m root j

-- `b` splits the first `n` keys into those below `k` and the others.
pub record IsLowerBound (m : Mem) (root n k b : ℕ) : Type 0 where
  pub within : b ≤ n
  pub below : (i : ℕ) → i < b → key m root i < k
  pub above : (i : ℕ) → b ≤ i → i < n → k ≤ key m root i

module _ (m : Mem) (root n k : ℕ) (sorted : IsSorted m root n) where
  bisect-IsLowerBound :
      (fuel b e : ℕ)
      → b ≤ e
      → e ≤ n
      → e ≤ b + fuel
      → ((i : ℕ) → i < b → key m root i < k)
      → ((i : ℕ) → e ≤ i → i < n → k ≤ key m root i)
      → IsLowerBound m root n k (bisect fuel m root k b e)
  unfolding bisect
  bisect-IsLowerBound zero b e be en few lo hi = record {
    within = omega arith;
    below = lo;
    above = λ i p q. hi i (omega arith) q;
  }
  bisect-IsLowerBound (suc fuel) b e be en few lo hi = elim (Bool-cases (ltb b e)) [
    | inr out ↦
        rw out (record { within = omega arith; below = lo; above = λ i p q. hi i (ground arith) q })
    | inl in_range ↦
        let mid = (b + e) / 2 in
        let lt : b < e = ltb→lt b e in_range in
        elim (Bool-cases (ltb (key m root mid) k)) [
          | inl less ↦
              rw (in_range, less)
                (bisect-IsLowerBound fuel (mid + 1) e (omega arith) en (omega arith)
                  (λ i p. ground (arith, sorted i mid)) hi)
          | inr more ↦
              rw (in_range, more)
                (bisect-IsLowerBound fuel b mid (omega arith) (omega arith) (omega arith) lo
                  (λ i p q. ground (arith, sorted mid i)))
        ]
  ]

-- On sorted keys the binary search ends, and in the place of the first key that is not below `k`.
pub list_find-IsLowerBound :
    (m : Mem) (root k : ℕ)
    → IsSorted m root (self_size m root)
    → IsLowerBound m root (self_size m root) k (list_find m root k)
unfolding list_find
list_find-IsLowerBound m root k sorted =
    bisect-IsLowerBound m root (self_size m root) k sorted (self_size m root) 0 (self_size m root)
      (omega arith) (omega arith) (omega arith) (λ i p. elim p [ ]) (λ i p q. absurd (omega arith))
