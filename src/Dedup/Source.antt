-- ===== src/Dedup/Source.antt =====
-- forwardDuplicatedReads of lib/PipeDeduplicationPass.cpp chooses the kernel that relays the values
-- of a pipe, and the kernels that get them.
use elastic_sycl_hls.Prelude.{
  ℕ, ◌≡◌, ◌⊎◌, inl, inr, refl, sym, ◌∙◌, arith, ◌==◌, true, false, not, ◌&&◌, ◌||◌, if◌then◌else◌,
  Option, none, some, List, [], ◌∷◌, ◌++◌, Bool-cases,
}
use elastic_sycl_hls.Prelude.Members.{any, member, any-append, any-witness, any-of_member}
use elastic_sycl_hls.Dedup.{Names}

module _ (v : Names) where
  -- The first loop: address generation units have priority.
  unfoldable pub first_agu : List ℕ → Option ℕ
  first_agu [] = none
  first_agu (f ∷ fs) = if v.is_agu f then some f else first_agu fs

-- The second loop: `BroadcastSrcF` and `BroadcastDsts`.
unfoldable pub split_kernels : Option ℕ → List ℕ → List ℕ → Option ℕ × List ℕ
split_kernels src [] dsts = (src, dsts)
split_kernels none (f ∷ fs) dsts = split_kernels (some f) fs dsts
split_kernels (some s) (f ∷ fs) dsts =
    if not (f == s)
    then split_kernels (some s) fs (dsts ++ f ∷ [])
    else split_kernels (some s) fs dsts

unfoldable pub select_kernels : Names → List ℕ → Option ℕ × List ℕ
select_kernels v fs = split_kernels (first_agu v fs) fs []

split_kernels-from :
    (s g : ℕ) (fs dsts : List ℕ)
    → ((split_kernels (some s) fs dsts).0 ≡ some s)
      × (member g (split_kernels (some s) fs dsts).1
          ≡ ((member g fs && not (g == s)) || member g dsts))
unfolding split_kernels
split_kernels-from s g [] dsts = (refl, refl)
split_kernels-from s g (f ∷ fs) dsts =
    let (a, b) = split_kernels-from s g fs dsts in
    let (c, d) = split_kernels-from s g fs (dsts ++ f ∷ []) in
    (ground (arith, a, c), ground (arith, b, d, any-append (λ x. x == g) dsts (f ∷ [])))

first_agu-some :
    (v : Names) (fs : List ℕ)
    → ((s : ℕ) × (first_agu v fs ≡ some s) × (member s fs ≡ true) × (v.is_agu s ≡ true))
      ⊎ ((first_agu v fs ≡ none) × ((f : ℕ) → member f fs ≡ true → v.is_agu f ≡ false))
unfolding first_agu
first_agu-some v [] = inr (refl, λ f m. (let no : ⊥ = cc in elim no [ ]))
first_agu-some v (f ∷ fs) = elim (Bool-cases (v.is_agu f)) [
  | inl agu ↦ inl (f, ground arith, ground arith, agu)
  | inr other ↦ elim (first_agu-some v fs) [
    | inl (s, e, m, agu) ↦ inl (s, ground arith, ground arith, agu)
    | inr (e, all) ↦ inr (
      ground arith,
      λ g m. elim (Bool-cases (f == g)) [
        | inl same ↦ (let at : f ≡ g = ground arith in rw (sym at) other)
        | inr later ↦ all g (ground arith)
      ],
    )
  ]
]

-- Of the kernels that read a pipe, of which there is one at least, one is the source and all others
-- are the destinations. The source is an address generation unit if one of them is.
pub select_kernels-covers :
    (v : Names) (f : ℕ) (fs : List ℕ)
    → (s : ℕ) × ((select_kernels v (f ∷ fs)).0 ≡ some s)
      × (member s (f ∷ fs) ≡ true)
      × ((g : ℕ) → member g (select_kernels v (f ∷ fs)).1 ≡ (member g (f ∷ fs) && not (g == s)))
      × (any v.is_agu (f ∷ fs) ≡ v.is_agu s)
unfolding select_kernels split_kernels
select_kernels-covers v f fs = elim (first_agu-some v (f ∷ fs)) [
  | inl (s, e, m, agu) ↦
      (let (a, b) = split_kernels-from s f (f ∷ fs) [] in
        (
          s,
          rw e a,
          m,
          λ g. rw e ((split_kernels-from s g (f ∷ fs) []).1 ∙ ground arith),
          rw agu (any-of_member v.is_agu s (f ∷ fs) m agu),
        ))
  | inr (e, all) ↦
      (let no_agu = all f (ground arith) in
        (
          f,
          rw e (split_kernels-from f f fs []).0,
          ground arith,
          λ g. rw e ((split_kernels-from f g fs []).1 ∙ ground arith),
          rw no_agu (elim (Bool-cases (any v.is_agu fs)) [
            | inl some_agu ↦
                (let (g, m, agu) = any-witness v.is_agu fs some_agu in
                  let no : ⊥ = ground (arith, all g (ground arith), agu) in elim no [ ])
            | inr nothing ↦ nothing
          ]),
        ))
]
