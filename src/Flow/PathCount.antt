-- ===== src/Flow/PathCount.antt =====
-- getAllBlockPathsInLoop of lib/DataHazardAnalysis.cpp: how many paths its queue holds, and its result.
use elastic_sycl_hls.Prelude.{
  ℕ, zero, suc, ◌+◌, ◌≤◌, ◌<◌, ◌≡◌, ◌↔◌, inl, inr, refl, arith, ◌==◌, true, false, if◌then◌else◌,
  some, List, [], ◌∷◌, ◌++◌, Bool-cases,
}
use elastic_sycl_hls.Prelude.Members.{member}
use elastic_sycl_hls.Flow.{FlowGraph, back, continuations, paths_loop, get_all_block_paths_in_loop}
use elastic_sycl_hls.Flow.Paths.{LoopPath, PathIn, Prefix, only_path, back-snoc, paths_loop_sound}
use elastic_sycl_hls.Flow.AllPaths.{paths_loop_complete}

module _ (f : FlowGraph) where
  -- The number of paths that the queue holds, in turn, for the block `x` at rank `n`.
  abbrev sum_inner : (ℕ → ℕ) → List ℕ → ℕ
  sum_inner steps [] = 0
  sum_inner steps (y ∷ ys) = (if f.is_loop_header y then 0 else steps y) + sum_inner steps ys

  unfoldable pub path_steps : ℕ → ℕ → ℕ
  path_steps zero x = 0
  path_steps (suc n) x = suc (sum_inner (path_steps n) (f.successors x))

  sum_inner_mono :
      (g h : ℕ → ℕ) (ys : List ℕ) → ((y : ℕ) → g y ≤ h y) → sum_inner g ys ≤ sum_inner h ys
  sum_inner_mono g h [] le = ground arith
  sum_inner_mono g h (y ∷ ys) le = ground (arith, le y, sum_inner_mono g h ys le)

  path_steps_mono : (m n x : ℕ) → m ≤ n → path_steps m x ≤ path_steps n x
  unfolding path_steps
  path_steps_mono zero n x le = ground arith
  path_steps_mono (suc m) zero x le = (let no : ⊥ = omega arith in elim no [ ])
  path_steps_mono (suc m) (suc n) x le =
      (let least : m ≤ n = omega arith in
        ground (
          arith,
          sum_inner_mono (path_steps m) (path_steps n) (f.successors x)
              (λ y. path_steps_mono m n y least),
        ))

module _ (f : FlowGraph) (rank : ℕ → ℕ) where
  -- The blocks are ranked: a branch that enters no loop leads to a lower rank.
  abbrev pub IsRanked : Type 0
  IsRanked =
      (x y : ℕ) → member y (f.successors x) ≡ true → f.is_loop_header y ≡ false → rank y < rank x

  abbrev block_steps : ℕ → ℕ
  block_steps x = path_steps f (suc (rank x)) x

  abbrev queue_steps : ℕ → List (List ℕ) → ℕ
  queue_steps b [] = 0
  queue_steps b (q ∷ queue) = block_steps (back f b q) + queue_steps b queue

  queue_steps-append :
      (b : ℕ) (ps qs : List (List ℕ))
      → queue_steps b (ps ++ qs) ≡ queue_steps b ps + queue_steps b qs
  queue_steps-append b [] qs = ground arith
  queue_steps-append b (p ∷ ps) qs = ground (arith, queue_steps-append b ps qs)

  sum_inner-ranked :
      (n : ℕ) (ss : List ℕ)
      → ((y : ℕ) → member y ss ≡ true → f.is_loop_header y ≡ false → rank y < n)
      → (b : ℕ) (q : List ℕ)
      → queue_steps b (continuations f q ss) ≤ sum_inner f (path_steps f n) ss
  unfolding continuations
  sum_inner-ranked n [] low b q = ground arith
  sum_inner-ranked n (s ∷ ss) low b q =
      let rest = sum_inner-ranked n ss (λ y m inner. low y (ground arith) inner) b q in
      elim (Bool-cases (f.is_loop_header s)) [
        | inl header ↦ ground (arith, rest)
        | inr inner ↦
            (let le = path_steps_mono f (suc (rank s)) n s (low s (ground arith) inner) in
              ground (arith, rest, le, back-snoc f b s q))
      ]

  continuations-steps :
      IsRanked
      → (b : ℕ) (q : List ℕ)
      → suc (queue_steps b (continuations f q (f.successors (back f b q))))
        ≤ block_steps (back f b q)
  unfolding path_steps
  continuations-steps ranked b q = ground (
    arith,
    sum_inner-ranked (rank (back f b q)) (f.successors (back f b q))
        (λ y m inner. ranked (back f b q) y m inner) b q,
  )

  paths_loop-ends :
      IsRanked
      → (fuel b stop : ℕ) (queue all : List (List ℕ)) → queue_steps b queue < fuel
      → (r : List (List ℕ)) × (paths_loop f fuel b stop queue all ≡ some r)
  unfolding paths_loop
  paths_loop-ends ranked zero b stop queue all lt = (let no : ⊥ = omega arith in elim no [ ])
  paths_loop-ends ranked (suc fuel) b stop [] all lt = (all, refl)
  paths_loop-ends ranked (suc fuel) b stop (q ∷ queue) all lt =
      elim (Bool-cases (back f b q == stop)) [
        | inl at_stop ↦
            (let (r, e) =
                paths_loop-ends ranked fuel b stop queue (all ++ q ∷ [])
                  (ground (arith, continuations-steps ranked b q)) in
              (r, ground arith))
        | inr not_stop ↦
            (let next : List (List ℕ) = continuations f q (f.successors (back f b q)) in
              let (r, e) =
                paths_loop-ends ranked fuel b stop (queue ++ next) all (
                  ground
                    (arith, queue_steps-append b queue next, continuations-steps ranked b q)) in
              (r, ground arith))
      ]

-- getAllBlockPathsInLoop ends in a graph whose blocks are ranked, so that no cycle avoids the
-- headers of loops. It returns the paths from the block to `stop` that enter no loop at its header
-- and do not pass through `stop`, and no other. Its fuel is more than the number of paths that its
-- queue holds.
pub get_all_block_paths_in_loop_iff :
    (f : FlowGraph) (rank : ℕ → ℕ)
    → IsRanked f rank
    → (fuel b stop : ℕ) → path_steps f (suc (rank b)) b < fuel
    → (r : List (List ℕ)) × (get_all_block_paths_in_loop f fuel b stop ≡ some r)
      × ((ys : List ℕ) → PathIn ys r ↔ LoopPath f stop b ys)
unfolding get_all_block_paths_in_loop
get_all_block_paths_in_loop_iff f rank ranked fuel b stop lt =
    let (r, e) = paths_loop-ends f rank ranked fuel b stop ([] ∷ []) [] (ground arith) in
    (
      r,
      e,
      λ ys. (
        λ i.
            paths_loop_sound f b stop fuel ([] ∷ []) [] r e
              (λ p i. rw (only_path p [] i) Prefix.start) (λ p i. elim i [ ]) ys i,
        λ path. (paths_loop_complete f b stop fuel ([] ∷ []) [] r e).1 [] ys (PathIn.here []) path,
      ),
    )
