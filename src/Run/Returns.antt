-- ===== src/Run/Returns.antt =====
-- Total correctness of a call: it succeeds, and the result and the state satisfy `P`.
use everdb_native.Base.{ℕ}
use everdb_native.Run.{Outcome, ok, M, and_then, handle}

pub data Returns {S A : Type 0} (P : A → S → Type 0) : Outcome S A → Type 0 where
  returns : {a : A} {s : S} → P a s → Returns P (ok a s)

module _ {S A : Type 0} {P : A → S → Type 0} where
  pub bind :
      {B : Type 0} {Q : B → S → Type 0} {r : Outcome S A} {k : A → M S B}
      → Returns P r
      → ((a : A) (s : S) → P a s → Returns Q (k a s))
      → Returns Q (and_then r k)
  bind (returns p) next = next _ _ p

  pub mono :
      {Q : A → S → Type 0} {r : Outcome S A}
      → Returns P r
      → ((a : A) (s : S) → P a s → Q a s)
      → Returns Q r
  mono (returns p) weaken = returns (weaken _ _ p)

  -- A caller that looks at the error code itself, of a call that succeeds.
  pub handled :
      {B : Type 0} {Q : B → S → Type 0} {r : Outcome S A} {k : A → M S B} (h : ℕ → M S B)
      → Returns P r
      → ((a : A) (s : S) → P a s → Returns Q (k a s))
      → Returns Q (handle r k h)
  handled h (returns p) next = next _ _ p
