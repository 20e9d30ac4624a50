-- ===== src/Freelist/View.antt =====
-- The free list as a list of block numbers, the last item first.
use mathlib.Core.List.{Memᴰ}
use mathlib.Core.List.Memᴰ.{head, tail, cast}
use everdb_native.Base.{
  ℕ, zero, suc, ◌+◌, ◌^◌, ◌<◌, ◌≡◌, ◌⊎◌, inl, inr, refl, List, [], ◌∷◌, arith, sym, ◌==◌,
  Bool-cases,
}
use mathlib.Core.Path.{subst}
use everdb_native.Memory.{Mem, bytes_u32, u32_bytes}
use everdb_native.Memory.Ranges.{bytes_u32-u32_bytes}
use everdb_native.Array.Stack.{Pushed}
use everdb_native.Array.Small.{item_at}

-- The free list of `n` items at `root`, the last item first.
abbrev pub stack : Mem → (root n : ℕ) → List ℕ
stack m root zero = []
stack m root (suc n) = bytes_u32 (item_at m root 4 n) ∷ stack m root n

-- A stack on which the items have been pushed in turn.
abbrev pub push_all : List ℕ → List ℕ → List ℕ
push_all [] s = s
push_all (b ∷ bs) s = push_all bs (b ∷ s)

-- No number occurs twice.
abbrev pub IsUnique : List ℕ → Type 0
IsUnique [] = Unit {0}
IsUnique (b ∷ bs) = (¬ Memᴰ b bs) × IsUnique bs

pub stack_same :
    (m m' : Mem) (root root' n : ℕ)
    → ((j : ℕ) → j < n → item_at m' root' 4 j ≡ item_at m root 4 j)
    → stack m' root' n ≡ stack m root n
stack_same m m' root root' zero same = refl
stack_same m m' root root' (suc n) same =
    rw (same n (omega arith), stack_same m m' root root' n λ j lt. same j (omega arith)) refl

pub stack-Pushed :
    (m m' : Mem) (root n b : ℕ)
    → b < 2 ^ 32
    → Pushed m m' root 4 n (u32_bytes b)
    → stack m' root (n + 1) ≡ b ∷ stack m root n
stack-Pushed m m' root n b word p =
    let next : suc n ≡ n + 1 = omega arith in
    subst (λ k. stack m' root k ≡ b ∷ stack m root n) next
      (rw (p.last, bytes_u32-u32_bytes b word, stack_same m m' root root n p.before) refl)

pub stack_popped :
    (m m' : Mem) (root n k : ℕ)
    → n ≡ suc k
    → ((j : ℕ) → j < k → item_at m' root 4 j ≡ item_at m root 4 j)
    → stack m root n ≡ bytes_u32 (item_at m root 4 k) ∷ stack m' root k
stack_popped m m' root n k e same = rw (e, stack_same m m' root root k same) refl

pub stack_item :
    (m : Mem) (root n b : ℕ)
    → Memᴰ b (stack m root n)
    → (j : ℕ) × (j < n) × (b ≡ bytes_u32 (item_at m root 4 j))
stack_item m root zero b h = elim h [ ]
stack_item m root (suc n) b (head e) = (n, omega arith, e)
stack_item m root (suc n) b (tail r) =
    let (j, lt, e) = stack_item m root n b r in (j, omega arith, e)

pub item_stack :
    (m : Mem) (root n j : ℕ) → j < n → Memᴰ (bytes_u32 (item_at m root 4 j)) (stack m root n)
item_stack m root zero j lt = absurd (omega arith)
item_stack m root (suc n) j lt = elim (Bool-cases (j == n)) [
  | inl at ↦ let jn : j ≡ n = ground arith in head (rw jn refl)
  | inr below ↦ tail (item_stack m root n j (ground arith))
]

pub push_all_cases : (b : ℕ) (bs s : List ℕ) → Memᴰ b (push_all bs s) → Memᴰ b bs ⊎ Memᴰ b s
push_all_cases b [] s h = inr h
push_all_cases b (c ∷ bs) s h = elim (push_all_cases b bs (c ∷ s) h) [
  | inl r ↦ inl (tail r)
  | inr r ↦ first r
]
  where
    first : Memᴰ b (c ∷ s) → Memᴰ b (c ∷ bs) ⊎ Memᴰ b s
    first (head e) = inl (head e)
    first (tail r) = inr r

pub push_all-IsUnique :
    (bs s : List ℕ)
    → IsUnique bs
    → IsUnique s
    → ((b : ℕ) → Memᴰ b bs → ¬ Memᴰ b s)
    → IsUnique (push_all bs s)
push_all-IsUnique [] s ub us apart = us
push_all-IsUnique (b ∷ bs) s (once, ub) us apart =
    push_all-IsUnique bs (b ∷ s) ub (apart b (head refl), us) later
  where
    later : (c : ℕ) → Memᴰ c bs → ¬ Memᴰ c (b ∷ s)
    later c r (head e) = once (cast (sym e) r)
    later c r (tail q) = apart c (tail r) q
