-- ===== src/Prelude/Members.antt =====
-- Boolean tests over lists: `any`, `filter` and membership of numbers, with their laws, and the cases
-- of an option and of a list.
use Prim.Native.Nat.{ℕ, ◌+◌, ◌≤◌}
use mathlib.Core.Path.{◌≡◌, refl}
use mathlib.Core.Logic.{◌⊎◌, inl, inr}
use mathlib.Core.Bool.{Bool, true, false, not, ◌&&◌, ◌||◌}
use mathlib.Core.Option.{Option, none, some}
use mathlib.Core.List.{List, [], ◌∷◌, ◌++◌}
use native.Mathlib.Omega.{arith}
use elastic_sycl_hls.Prelude.Lists.{length}
use elastic_sycl_hls.Prelude.Tests.{◌==◌, if◌then◌else◌, Bool-cases}

abbrev pub any {ℓ} : {A : Type ℓ} → (A → Bool) → List A → Bool
any f [] = false
any f (x ∷ xs) = f x || any f xs

abbrev pub filter {ℓ} : {A : Type ℓ} → (A → Bool) → List A → List A
filter f [] = []
filter f (x ∷ xs) = if f x then x ∷ filter f xs else filter f xs

abbrev pub member : ℕ → List ℕ → Bool
member b bs = any (λ c. c == b) bs

pub any-append {ℓ} :
    {A : Type ℓ} (p : A → Bool) (xs ys : List A) → any p (xs ++ ys) ≡ (any p xs || any p ys)
any-append p [] ys = refl
any-append p (x ∷ xs) ys = ground (arith, any-append p xs ys)

pub any-witness :
    (p : ℕ → Bool) (xs : List ℕ) → any p xs ≡ true → (x : ℕ) × (member x xs ≡ true) × (p x ≡ true)
any-witness p [] e = ground arith
any-witness p (x ∷ xs) e = elim (Bool-cases (p x)) [
  | inl h ↦ (x, ground arith, h)
  | inr h ↦ (let (y, m, q) = any-witness p xs (ground arith) in (y, ground arith, q))
]

pub any-of_member :
    (p : ℕ → Bool) (x : ℕ) (xs : List ℕ) → member x xs ≡ true → p x ≡ true → any p xs ≡ true
any-of_member p x [] m e = ground arith
any-of_member p x (y ∷ xs) m e = ground (arith, any-of_member p x xs)

pub member-filter :
    (p : ℕ → Bool) (x : ℕ) (xs : List ℕ) → member x (filter p xs) ≡ (member x xs && p x)
member-filter p x [] = refl
member-filter p x (y ∷ xs) = ground (arith, member-filter p x xs)

-- The distinctness of a list.
abbrev pub distinct : List ℕ → Bool
distinct [] = true
distinct (b ∷ bs) = not (member b bs) && distinct bs

-- How many of a list are not done.
abbrev pub left_of : List ℕ → List ℕ → ℕ
left_of done [] = 0
left_of done (b ∷ bs) = (if member b done then 0 else 1) + left_of done bs

pub left_of-take :
    (c : ℕ) (done bs : List ℕ)
    → member c done ≡ false
    → left_of (c ∷ done) bs + (if member c bs then 1 else 0) ≤ left_of done bs
left_of-take c done [] new = omega arith
left_of-take c done (b ∷ bs) new = ground (arith, left_of-take c done bs new)

pub left_of-start : (bs : List ℕ) → left_of [] bs ≡ length bs
left_of-start [] = refl
left_of-start (b ∷ bs) = ground (arith, left_of-start bs)

pub option_cases {ℓ} : {A : Type ℓ} (o : Option A) → (o ≡ none) ⊎ ((x : A) × (o ≡ some x))
option_cases none = inl refl
option_cases (some x) = inr (x, refl)

pub list_cases : (xs : List ℕ) → (xs ≡ []) ⊎ ((y : ℕ) × (ys : List ℕ) × (xs ≡ y ∷ ys))
list_cases [] = inl refl
list_cases (y ∷ ys) = inr (y, ys, refl)
