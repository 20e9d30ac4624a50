-- ===== src/Base/Lists.antt =====
-- Lists with native indices.
use Prim.Native.Nat.{ℕ, zero, suc, ◌<◌}
use mathlib.Core.Path.{◌≡◌, refl, ap}
use mathlib.Core.Logic.{◌≢◌, ◌⊎◌, inl, inr}
use mathlib.Core.List.{List, [], ◌∷◌}
use native.Mathlib.Omega.{arith}

module _ {ℓ} {A : Type ℓ} where
  abbrev pub length : List A → ℕ
  length [] = 0
  length (x ∷ xs) = suc (length xs)

  unfoldable pub get_or : List A → ℕ → A → A
  get_or [] i d = d
  get_or (x ∷ xs) zero d = x
  get_or (x ∷ xs) (suc i) d = get_or xs i d

  unfoldable pub set : List A → ℕ → A → List A
  set [] i v = []
  set (x ∷ xs) zero v = v ∷ xs
  set (x ∷ xs) (suc i) v = x ∷ set xs i v

  unfoldable pub take : ℕ → List A → List A
  take zero xs = []
  take (suc n) [] = []
  take (suc n) (x ∷ xs) = x ∷ take n xs

  unfoldable pub replicate : ℕ → A → List A
  replicate zero a = []
  replicate (suc n) a = a ∷ replicate n a

  pub length-set : (xs : List A) (i : ℕ) (v : A) → length (set xs i v) ≡ length xs
  unfolding set
  length-set [] i v = refl
  length-set (x ∷ xs) zero v = refl
  length-set (x ∷ xs) (suc i) v = ap suc (length-set xs i v)

  pub length-replicate : (n : ℕ) (a : A) → length (replicate n a) ≡ n
  unfolding replicate
  length-replicate zero a = refl
  length-replicate (suc n) a = ap suc (length-replicate n a)

  pub get_or-replicate : (n i : ℕ) (a : A) → get_or (replicate n a) i a ≡ a
  unfolding replicate get_or
  get_or-replicate zero i a = refl
  get_or-replicate (suc n) zero a = refl
  get_or-replicate (suc n) (suc i) a = get_or-replicate n i a

  pub get_or-set :
      (xs : List A) (i j : ℕ) (v d : A)
      → i < length xs
      → ((i ≡ j) × (get_or (set xs i v) j d ≡ v))
        ⊎ ((i ≢ j) × (get_or (set xs i v) j d ≡ get_or xs j d))
  unfolding get_or set
  get_or-set [] i j v d h = absurd (omega arith)
  get_or-set (x ∷ xs) zero zero v d h = inl (refl, refl)
  get_or-set (x ∷ xs) zero (suc j) v d h = inr (omega arith, refl)
  get_or-set (x ∷ xs) (suc i) zero v d h = inr (omega arith, refl)
  get_or-set (x ∷ xs) (suc i) (suc j) v d h = elim (get_or-set xs i j v d (omega arith)) [
    | inl (e, r) ↦ inl (omega arith, r)
    | inr (n, r) ↦ inr (omega arith, r)
  ]

  pub take_all : (xs : List A) → take (length xs) xs ≡ xs
  unfolding take
  take_all [] = refl
  take_all (x ∷ xs) = ap (λ ys. x ∷ ys) (take_all xs)
