-- ===== src/QueueSize/Counts.antt =====
-- The counts of stores and loads in each loop of getStoreQueueSize (lib/DataHazardAnalysis.cpp).
use elastic_sycl_hls.Prelude.{
  ℕ, ◌+◌, ◌≤◌, ◌≡◌, inl, inr, refl, if◌then◌else◌, Bool-cases, none, some, sym, arith, true, false,
  Option, List, [], ◌∷◌,
}
use elastic_sycl_hls.QueueSize.{same_loop, count_in_loop, max, max_in_loop}

-- How many operations are in a loop.
abbrev pub count_of : Option ℕ → List (Option ℕ) → ℕ
count_of k [] = 0
count_of k (l ∷ ls) = (if same_loop l k then 1 else 0) + count_of k ls

abbrev pub counted_in : Option ℕ → List (Option ℕ × ℕ) → ℕ
counted_in k [] = 0
counted_in k ((l, n) ∷ m) = if same_loop l k then n else counted_in k m

same_loop_eq : (a b : Option ℕ) → same_loop a b ≡ true → a ≡ b
same_loop_eq none none e = refl
same_loop_eq none (some b) e = (let no : ⊥ = cc in elim no [ ])
same_loop_eq (some a) none e = (let no : ⊥ = cc in elim no [ ])
same_loop_eq (some a) (some b) e = (let at : a ≡ b = ground (arith, e) in rw at refl)

same_loop_refl : (a : Option ℕ) → same_loop a a ≡ true
same_loop_refl none = refl
same_loop_refl (some a) = ground arith

count_in_loop-counted_in :
    (l k : Option ℕ) (m : List (Option ℕ × ℕ))
    → ((count_in_loop l m).1 ≡ counted_in l m + 1)
      × (counted_in k (count_in_loop l m).0 ≡ counted_in k m + (if same_loop l k then 1 else 0))
unfolding count_in_loop
count_in_loop-counted_in l k [] = (refl, ground arith)
count_in_loop-counted_in l k ((o, n) ∷ m) =
    let (total, kept) = count_in_loop-counted_in l k m in
    elim (Bool-cases (same_loop o l)) [
      | inl same ↦ (let e : o ≡ l = same_loop_eq o l same in rw same (refl, rw e (ground arith)))
      | inr other ↦ rw other (
        total,
        elim (Bool-cases (same_loop o k)) [
          | inl at ↦
              (let e : o ≡ k = same_loop_eq o k at in
                elim (Bool-cases (same_loop l k)) [
                  | inl also ↦
                      (let no : ⊥ =
                          (let f : l ≡ k = same_loop_eq l k also in
                            let g : same_loop o o ≡ false = rw (f, sym e) at (other) in
                            ground (arith, g, same_loop_refl o)) in
                        elim no [ ])
                  | inr apart ↦ ground (arith, at, apart)
                ])
          | inr away ↦ ground (arith, away, kept)
        ],
      )
    ]

pub max_in_loop-count_of :
    (k : Option ℕ) (ls : List (Option ℕ)) (m : List (Option ℕ × ℕ)) (most : ℕ)
    → counted_in k m ≤ most
    → counted_in k m + count_of k ls ≤ max_in_loop ls m most
unfolding max_in_loop
max_in_loop-count_of k [] m most le = omega (arith, le)
max_in_loop-count_of k (l ∷ ls) m most le =
    let (total, kept) = count_in_loop-counted_in l k m in
    let (m', n) = count_in_loop l m in
    let least : counted_in k (count_in_loop l m).0 ≤ max most (count_in_loop l m).1 =
      elim (Bool-cases (same_loop l k)) [
        | inl same ↦
            (let e : l ≡ k = same_loop_eq l k same in
              let here : counted_in l m ≡ counted_in k m = rw e refl in
              ground (arith, total, kept, same, here, le))
        | inr other ↦ ground (arith, kept, other, le)
      ] in
    ground (
      arith,
      kept,
      max_in_loop-count_of k ls (count_in_loop l m).0 (max most (count_in_loop l m).1) least,
    )
