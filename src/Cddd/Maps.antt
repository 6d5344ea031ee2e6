-- ===== src/Cddd/Maps.antt =====
-- `MapVector` and `SetVector` as lib/CDDDAnalysis.cpp uses them: keys and members are numbers, in the
-- order of their insertion.
use elastic_sycl_hls.Prelude.{
  ℕ, ◌≡◌, refl, ◌==◌, arith, ◌&&◌, ◌||◌, if◌then◌else◌, Option, none, some, List, [], ◌∷◌, ◌++◌,
  Bool-cases, inl, inr,
}
use elastic_sycl_hls.Prelude.Members.{member, any-append}

-- `set.insert(x)`
abbrev pub insert : ℕ → List ℕ → List ℕ
insert x xs = if member x xs then xs else xs ++ x ∷ []

pub member-insert : (x y : ℕ) (xs : List ℕ) → member x (insert y xs) ≡ ((y == x) || member x xs)
member-insert x y xs = elim (Bool-cases (member y xs)) [
  | inl old ↦ ground (arith, old)
  | inr new ↦ ground (arith, new, any-append (λ c. c == x) xs (y ∷ []))
]

abbrev pub insert_all : List ℕ → List ℕ → List ℕ
insert_all [] xs = xs
insert_all (y ∷ ys) xs = insert_all ys (insert y xs)

pub member-insert_all :
    (x : ℕ) (ys xs : List ℕ) → member x (insert_all ys xs) ≡ (member x ys || member x xs)
member-insert_all x [] xs = ground arith
member-insert_all x (y ∷ ys) xs =
    ground (arith, member-insert_all x ys (insert y xs), member-insert x y xs)

module _ {ℓ} {A : Type ℓ} where
  abbrev pub find : ℕ → List (ℕ × A) → Option A
  find k [] = none
  find k (e ∷ es) = if e.0 == k then some e.1 else find k es

  -- `map[k] = a`
  abbrev pub put : ℕ → A → List (ℕ × A) → List (ℕ × A)
  put k a [] = (k, a) ∷ []
  put k a (e ∷ es) = if e.0 == k then (k, a) ∷ es else e ∷ put k a es

  pub find-put :
      (k j : ℕ) (a : A) (es : List (ℕ × A))
      → find j (put k a es) ≡ (if k == j then some a else find j es)
  find-put k j a [] = ground arith
  find-put k j a (e ∷ es) = ground (arith, find-put k j a es)

-- `map[k]` of a map to sets.
abbrev pub find_set : ℕ → List (ℕ × List ℕ) → List ℕ
find_set k es = elim (find k es) [ none ↦ [] | some xs ↦ xs ]

pub find_set-some :
    (k : ℕ) (xs : List ℕ) (es : List (ℕ × List ℕ)) → find k es ≡ some xs → find_set k es ≡ xs
find_set-some k xs es e = rw (find_set, e) refl

-- `map[k].insert(x)`
abbrev pub insert_at : ℕ → ℕ → List (ℕ × List ℕ) → List (ℕ × List ℕ)
insert_at k x es = put k (insert x (find_set k es)) es

pub member-insert_at :
    (k j x y : ℕ) (es : List (ℕ × List ℕ))
    → member x (find_set j (insert_at k y es))
      ≡ (((k == j) && (y == x)) || member x (find_set j es))
member-insert_at k j x y es =
    ground (arith, find-put k j (insert y (find_set k es)) es, member-insert x y (find_set k es))
