-- ===== src/Run.antt =====
-- What a call of a C function does to the state it runs on. `fail code` is a return of a nonzero
-- error code, after the changes made so far. `hung` is a loop or a recursion that does not end, and
-- `crashed` is `abort()`, a division by zero or another access that C leaves undefined.
pub mod Returns
use everdb_native.Base.{ℕ, zero, suc, Bool, true, false, Option, none, some}

pub data Outcome (S A : Type 0) : Type 0 where
  ok : A → S → Outcome S A
  fail : ℕ → S → Outcome S A
  hung : Outcome S A
  crashed : Outcome S A

abbrev pub M : Type 0 → Type 0 → Type 0
M S A = S → Outcome S A

module _ {S A B : Type 0} where
  abbrev pub and_then : Outcome S A → (A → M S B) → Outcome S B
  and_then (ok a s) k = k a s
  and_then (fail e s) k = fail e s
  and_then hung k = hung
  and_then crashed k = crashed

  -- The macro CHECK: an error is returned at once.
  infixl 5 ◌>>=◌ ◌>>◌
  abbrev pub ◌>>=◌ : M S A → (A → M S B) → M S B
  m >>= k = λ s. and_then (m s) k

  abbrev pub ◌>>◌ : M S A → M S B → M S B
  m >> n = m >>= λ _. n

  -- A caller that looks at the error code itself.
  abbrev pub handle : Outcome S A → (A → M S B) → (ℕ → M S B) → Outcome S B
  handle (ok a s) k h = k a s
  handle (fail e s) k h = h e s
  handle hung k h = hung
  handle crashed k h = crashed

  abbrev pub attempt : M S A → (A → M S B) → (ℕ → M S B) → M S B
  attempt m k h = λ s. handle (m s) k h

module _ {S : Type 0} where
  abbrev pub pure : {A : Type 0} → A → M S A
  pure = ok

  abbrev pub done : M S (Unit {0})
  done = ok tt

  -- `return code;`, where the code 0 is success.
  abbrev pub return_code : ℕ → M S (Unit {0})
  return_code zero = ok tt
  return_code (suc e) = fail (suc e)

  -- The macro CHECK_CODE with a nonzero code.
  abbrev pub check_code : Bool → ℕ → M S (Unit {0})
  check_code true e = done
  check_code false e = fail e

  abbrev pub hangs : {A : Type 0} → M S A
  hangs = λ _. hung

  abbrev pub crashes : {A : Type 0} → M S A
  crashes = λ _. crashed

  abbrev pub gets : {A : Type 0} → (S → A) → M S A
  gets f = λ s. ok (f s) s

  abbrev pub modify : (S → S) → M S (Unit {0})
  modify f = λ s. ok tt (f s)

  -- A loop that may not end is `none` when it does not.
  abbrev pub unless_hung : {A : Type 0} → Option A → M S A
  unless_hung none = hangs
  unless_hung (some a) = pure a

  -- A call whose error code is not looked at.
  abbrev pub ignore_error : {A : Type 0} → M S A → M S (Unit {0})
  ignore_error m = attempt m (λ _. done) (λ _. done)
