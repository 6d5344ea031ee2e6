-- ===== src/Flow/Paths.antt =====
-- The paths of a loop, and what getAllBlockPathsInLoop of lib/DataHazardAnalysis.cpp returns.
use elastic_sycl_hls.Prelude.{
  ℕ, zero, suc, ◌≡◌, ◌⊎◌, inl, inr, refl, sym, arith, ◌==◌, Bool, true, false, if◌then◌else◌, some,
  List, [], ◌∷◌, ◌++◌, Bool-cases,
}
use mathlib.Core.List.{append-nil, append_assoc}
use elastic_sycl_hls.Prelude.Members.{member}
use elastic_sycl_hls.Flow.{FlowGraph, back, continuations, paths_loop}

-- A path that goes on from a block by the given blocks, to `stop` and not through it, and enters no
-- loop at its header.
pub data LoopPath (f : FlowGraph) (stop : ℕ) : ℕ → List ℕ → Type 0 where
  ends : (x : ℕ) → (x == stop) ≡ true → LoopPath f stop x []
  step :
      (x y : ℕ) (ys : List ℕ)
      → (x == stop) ≡ false
      → member y (f.successors x) ≡ true
      → f.is_loop_header y ≡ false
      → LoopPath f stop y ys
      → LoopPath f stop x (y ∷ ys)

pub data PathIn (p : List ℕ) : List (List ℕ) → Type 0 where
  here : (ps : List (List ℕ)) → PathIn p (p ∷ ps)
  there : (q : List ℕ) (ps : List (List ℕ)) → PathIn p ps → PathIn p (q ∷ ps)

pub in_left : (p : List ℕ) (ps qs : List (List ℕ)) → PathIn p ps → PathIn p (ps ++ qs)
in_left p [] qs i = elim i [ ]
in_left p (_ ∷ ps) qs (PathIn.here _) = PathIn.here (ps ++ qs)
in_left p (q ∷ ps) qs (PathIn.there _ _ i) = PathIn.there q (ps ++ qs) (in_left p ps qs i)

pub in_right : (p : List ℕ) (ps qs : List (List ℕ)) → PathIn p qs → PathIn p (ps ++ qs)
in_right p [] qs i = i
in_right p (q ∷ ps) qs i = PathIn.there q (ps ++ qs) (in_right p ps qs i)

pub in_either :
    (p : List ℕ) (ps qs : List (List ℕ)) → PathIn p (ps ++ qs) → PathIn p ps ⊎ PathIn p qs
in_either p [] qs i = inr i
in_either p (_ ∷ ps) qs (PathIn.here _) = inl (PathIn.here ps)
in_either p (q ∷ ps) qs (PathIn.there _ _ i) = elim (in_either p ps qs i) [
  | inl l ↦ inl (PathIn.there q ps l)
  | inr r ↦ inr r
]

pub back-snoc : (f : FlowGraph) (b y : ℕ) (q : List ℕ) → back f b (q ++ y ∷ []) ≡ y
back-snoc f b y [] = refl
back-snoc f b y (x ∷ q) = back-snoc f x y q

pub only_path : (p q : List ℕ) → PathIn p (q ∷ []) → p ≡ q
only_path p _ (PathIn.here _) = refl
only_path p q (PathIn.there _ _ i) = elim i [ ]

in_pick :
    (h : Bool) (x p : List ℕ) (rest : List (List ℕ))
    → PathIn p (if h then rest else x ∷ rest)
    → PathIn p rest ⊎ ((h ≡ false) × (p ≡ x))
in_pick true x p rest i = inl i
in_pick false _ p rest (PathIn.here _) = inr (refl, refl)
in_pick false x p rest (PathIn.there _ _ i) = inl i

pick_rest :
    (h : Bool) (x p : List ℕ) (rest : List (List ℕ))
    → PathIn p rest
    → PathIn p (if h then rest else x ∷ rest)
pick_rest true x p rest i = i
pick_rest false x p rest i = PathIn.there x rest i

pick_first :
    (h : Bool) (x : List ℕ) (rest : List (List ℕ))
    → h ≡ false
    → PathIn x (if h then rest else x ∷ rest)
pick_first true x rest e = (let no : ⊥ = cc in elim no [ ])
pick_first false x rest e = PathIn.here rest

module _ (f : FlowGraph) where
  pub in_continuations :
      (q ss p : List ℕ)
      → PathIn p (continuations f q ss)
      → (y : ℕ) × (member y ss ≡ true) × (f.is_loop_header y ≡ false) × (p ≡ q ++ y ∷ [])
  unfolding continuations
  in_continuations q [] p i = elim i [ ]
  in_continuations q (s ∷ ss) p i =
      elim (in_pick (f.is_loop_header s) (q ++ s ∷ []) p (continuations f q ss) i) [
        | inl later ↦
            (let (y, m, inner, e) = in_continuations q ss p later in (y, ground arith, inner, e))
        | inr (inner, e) ↦ (s, ground arith, inner, e)
      ]

  pub continuations_of :
      (q ss : List ℕ) (y : ℕ)
      → member y ss ≡ true
      → f.is_loop_header y ≡ false
      → PathIn (q ++ y ∷ []) (continuations f q ss)
  unfolding continuations
  continuations_of q [] y m inner = (let no : ⊥ = cc in elim no [ ])
  continuations_of q (s ∷ ss) y m inner = elim (Bool-cases (s == y)) [
    | inl same ↦
        (let e : s ≡ y = ground arith in
          rw (sym e)
            (pick_first (f.is_loop_header s) (q ++ s ∷ []) (continuations f q ss) (rw e inner)))
    | inr other ↦
        pick_rest (f.is_loop_header s) (q ++ s ∷ []) (q ++ y ∷ []) (continuations f q ss)
          (continuations_of q ss y (ground arith) inner)
  ]

module _ (f : FlowGraph) (b stop : ℕ) where
  -- A path that the queue can hold.
  pub data Prefix : List ℕ → Type 0 where
    start : Prefix []
    snoc :
        (q : List ℕ) (y : ℕ)
        → Prefix q
        → (back f b q == stop) ≡ false
        → member y (f.successors (back f b q)) ≡ true
        → f.is_loop_header y ≡ false
        → Prefix (q ++ y ∷ [])

  pub LoopPath-of_prefix :
      (q ys : List ℕ) → Prefix q → LoopPath f stop (back f b q) ys → LoopPath f stop b (q ++ ys)
  LoopPath-of_prefix _ ys Prefix.start path = path
  LoopPath-of_prefix _ ys (Prefix.snoc q y p not_stop edge inner) path =
      rw (append_assoc q (y ∷ []) ys) (
        LoopPath-of_prefix q (y ∷ ys) p
          (LoopPath.step (back f b q) y ys not_stop edge inner (rw (sym (back-snoc f b y q)) path)))

  prefix_of_continuation :
      (q ss p : List ℕ)
      → Prefix q
      → (back f b q == stop) ≡ false
      → ((y : ℕ) → member y ss ≡ true → member y (f.successors (back f b q)) ≡ true)
      → PathIn p (continuations f q ss)
      → Prefix p
  prefix_of_continuation q ss p pre not_stop sub i =
      let (y, m, inner, e) = in_continuations f q ss p i in
      rw e (Prefix.snoc q y pre not_stop (sub y m) inner)

  pub paths_loop_sound :
      (fuel : ℕ) (queue all r : List (List ℕ))
      → paths_loop f fuel b stop queue all ≡ some r
      → ((p : List ℕ) → PathIn p queue → Prefix p)
      → ((p : List ℕ) → PathIn p all → LoopPath f stop b p)
      → (p : List ℕ) → PathIn p r
      → LoopPath f stop b p
  unfolding paths_loop
  paths_loop_sound zero queue all r e pre good p i = (let no : ⊥ = cc in elim no [ ])
  paths_loop_sound (suc fuel) [] all r e pre good p i =
      let same : all ≡ r = cc in good p (rw same i)
  paths_loop_sound (suc fuel) (q ∷ queue) all r e pre good p i =
      elim (Bool-cases (back f b q == stop)) [
        | inl at_stop ↦
            paths_loop_sound fuel queue (all ++ q ∷ []) r (ground arith)
              (λ p i. pre p (PathIn.there q queue i))
              (λ p i. elim (in_either p all (q ∷ []) i) [
                | inl old ↦ good p old
                | inr new ↦
                    (let e = only_path p q new in
                      rw (e, sym (append-nil q))
                        (LoopPath-of_prefix q [] (pre q (PathIn.here queue))
                          (LoopPath.ends (back f b q) at_stop)))
              ])
              p i
        | inr not_stop ↦
            paths_loop_sound fuel (queue ++ continuations f q (f.successors (back f b q))) all r
              (ground arith)
              (λ p i. elim (in_either p queue (continuations f q (f.successors (back f b q))) i) [
                | inl old ↦ pre p (PathIn.there q queue old)
                | inr new ↦
                    prefix_of_continuation q (f.successors (back f b q)) p
                      (pre q (PathIn.here queue)) not_stop (λ y m. m) new
              ])
              good p i
      ]
