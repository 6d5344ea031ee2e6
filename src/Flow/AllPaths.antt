-- ===== src/Flow/AllPaths.antt =====
-- getAllBlockPathsInLoop of lib/DataHazardAnalysis.cpp: which paths it cannot miss.
use elastic_sycl_hls.Prelude.{
  ℕ, zero, suc, ◌≡◌, ◌⊎◌, inl, inr, refl, sym, arith, ◌==◌, true, false, some, List, [], ◌∷◌, ◌++◌,
  Bool-cases,
}
use mathlib.Core.List.{append-nil, append_assoc}
use elastic_sycl_hls.Flow.{FlowGraph, back, continuations, paths_loop}
use elastic_sycl_hls.Flow.Paths.{LoopPath, PathIn, in_left, in_right, back-snoc, continuations_of}

in_cons : (p q : List ℕ) (ps : List (List ℕ)) → PathIn p (q ∷ ps) → (p ≡ q) ⊎ PathIn p ps
in_cons p _ ps (PathIn.here _) = inl refl
in_cons p q ps (PathIn.there _ _ i) = inr i

module _ (f : FlowGraph) (b stop : ℕ) where
  stopped :
      (p q : List ℕ) (all : List (List ℕ)) (ys : List ℕ)
      → p ≡ q
      → (back f b q == stop) ≡ true
      → LoopPath f stop (back f b p) ys
      → PathIn (p ++ ys) (all ++ q ∷ [])
  stopped p q all [] e at_stop path =
      rw (append-nil p) (in_right p all (q ∷ []) (rw e (PathIn.here [])))
  stopped p q all (y ∷ ys) e at_stop (LoopPath.step _ _ _ not_stop edge inner path) =
      (let no : ⊥ = cc in elim no [ ])

  goes_on :
      (p q : List ℕ) (queue r : List (List ℕ)) (ys : List ℕ)
      → p ≡ q
      → (back f b q == stop) ≡ false
      → ((p ys : List ℕ)
          → PathIn p (queue ++ continuations f q (f.successors (back f b q)))
          → LoopPath f stop (back f b p) ys
          → PathIn (p ++ ys) r)
      → LoopPath f stop (back f b p) ys
      → PathIn (p ++ ys) r
  goes_on p q queue r [] e not_stop found (LoopPath.ends _ at_stop) =
      (let no : ⊥ = cc in elim no [ ])
  goes_on p q queue r (y ∷ ys) e not_stop found (LoopPath.step _ _ _ _ edge inner path) =
      rw (e, sym (append_assoc q (y ∷ []) ys))
        (found (q ++ y ∷ []) ys
          (in_right (q ++ y ∷ []) queue (continuations f q (f.successors (back f b q)))
            (continuations_of f q (f.successors (back f b q)) y (rw (sym e) edge) inner))
          (rw (back-snoc f b y q) path))

  -- What is found stays, and a path of the queue is continued in every way.
  pub paths_loop_complete :
      (fuel : ℕ) (queue all r : List (List ℕ))
      → paths_loop f fuel b stop queue all ≡ some r
      → ((p : List ℕ) → PathIn p all → PathIn p r)
        × ((p ys : List ℕ) → PathIn p queue → LoopPath f stop (back f b p) ys → PathIn (p ++ ys) r)
  unfolding paths_loop
  paths_loop_complete zero queue all r e = (let no : ⊥ = cc in elim no [ ])
  paths_loop_complete (suc fuel) [] all r e =
      let same : all ≡ r = cc in (λ p i. rw (sym same) i, λ p ys i path. elim i [ ])
  paths_loop_complete (suc fuel) (q ∷ queue) all r e = elim (Bool-cases (back f b q == stop)) [
    | inl at_stop ↦
        (let (kept, found) = paths_loop_complete fuel queue (all ++ q ∷ []) r (ground arith) in
          (
            λ p i. kept p (in_left p all (q ∷ []) i),
            λ p ys i path. elim (in_cons p q queue i) [
              | inl e ↦ kept (p ++ ys) (stopped p q all ys e at_stop path)
              | inr later ↦ found p ys later path
            ],
          ))
    | inr not_stop ↦
        (let next : List (List ℕ) = continuations f q (f.successors (back f b q)) in
          let (kept, found) = paths_loop_complete fuel (queue ++ next) all r (ground arith) in
          (
            kept,
            λ p ys i path. elim (in_cons p q queue i) [
              | inl e ↦ goes_on p q queue r ys e not_stop found path
              | inr later ↦ found p ys (in_left p queue next later) path
            ],
          ))
  ]
