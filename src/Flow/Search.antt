-- ===== src/Flow/Search.antt =====
-- What the search of isReachableWithinLoop of include/CommonLLVM.h visits.
use elastic_sycl_hls.Prelude.{
  ℕ, zero, suc, ◌+◌, ◌≡◌, ◌≢◌, ◌⊎◌, inl, inr, refl, arith, ◌==◌, Bool, true, false, ◌||◌, Option,
  none, some, List, [], ◌∷◌, length, Bool-cases,
}
use elastic_sycl_hls.Prelude.Members.{member}
use elastic_sycl_hls.Flow.{FlowGraph, push_all, reach_loop}

-- A path from a block to `to` that does not go on from `stop`.
pub data WayTo (f : FlowGraph) (stop to : ℕ) : ℕ → Type 0 where
  here : WayTo f stop to to
  step :
      (x y : ℕ)
      → (x == stop) ≡ false
      → member y (f.successors x) ≡ true
      → WayTo f stop to y
      → WayTo f stop to x

pub member-push_all :
    (x : ℕ) (ss ws : List ℕ) → member x (push_all ss ws) ≡ (member x ss || member x ws)
member-push_all x [] ws = refl
member-push_all x (s ∷ ss) ws = ground (arith, member-push_all x ss (s ∷ ws))

pub length-push_all : (ss ws : List ℕ) → length (push_all ss ws) ≡ length ss + length ws
length-push_all [] ws = omega arith
length-push_all (s ∷ ss) ws = omega (arith, length-push_all ss (s ∷ ws))

pub some_of : (o : Option Bool) → o ≢ none → (o ≡ some true) ⊎ (o ≡ some false)
some_of none h = elim (h refl) [ ]
some_of (some true) h = inl refl
some_of (some false) h = inr refl

module _ (f : FlowGraph) (stop to : ℕ) where
  way_at : (c : ℕ) → (c == to) ≡ true → WayTo f stop to c
  way_at c e = let same : c ≡ to = ground (arith, e) in rw same WayTo.here

  pub reach_loop_sound :
      (fuel : ℕ) (visited ws : List ℕ)
      → reach_loop f fuel stop to visited ws ≡ some true
      → (w : ℕ) × (member w ws ≡ true) × WayTo f stop to w
  unfolding reach_loop
  reach_loop_sound zero visited ws e = ground arith
  reach_loop_sound (suc fuel) visited [] e = ground arith
  reach_loop_sound (suc fuel) visited (c ∷ ws) e = elim (Bool-cases (c == to)) [
    | inl at_to ↦ (c, ground arith, way_at c at_to)
    | inr not_to ↦ elim (Bool-cases ((c == stop) || member c visited)) [
      | inl skips ↦
          (let (w, m, way) = reach_loop_sound fuel visited ws (ground arith) in
            (w, ground arith, way))
      | inr expands ↦
          (let (w, m, way) =
              reach_loop_sound fuel (c ∷ visited) (push_all (f.successors c) ws) (ground arith) in
            elim (Bool-cases (member w ws)) [
              | inl later ↦ (w, ground arith, way)
              | inr next ↦ (
                c,
                ground arith,
                WayTo.step c w (ground arith)
                    (ground (arith, member-push_all w (f.successors c) ws)) way,
              )
            ])
    ]
  ]

  -- No visited block is `to` or `stop`, and its successors are visited, waiting, or `stop`.
  abbrev pub IsClosed : List ℕ → List ℕ → Type 0
  IsClosed visited ws =
      (x : ℕ)
      → member x visited ≡ true
      → ((x == to) ≡ false)
        × ((x == stop) ≡ false)
        × ((y : ℕ)
            → member y (f.successors x) ≡ true
            → (member y visited || (y == stop) || member y ws) ≡ true)

  IsClosed-skip :
      (visited ws : List ℕ) (c : ℕ)
      → ((c == stop) || member c visited) ≡ true
      → IsClosed visited (c ∷ ws)
      → IsClosed visited ws
  IsClosed-skip visited ws c skips closed x m =
      let (a, b, next) = closed x m in (a, b, λ y edge. ground (arith, next y edge))

  IsClosed-expand :
      (visited ws : List ℕ) (c : ℕ)
      → (c == to) ≡ false
      → (c == stop) ≡ false
      → IsClosed visited (c ∷ ws)
      → IsClosed (c ∷ visited) (push_all (f.successors c) ws)
  IsClosed-expand visited ws c not_to not_stop closed x m = elim (Bool-cases (c == x)) [
    | inl same ↦ (
      ground arith,
      ground arith,
      λ y edge.
          (let at_c : member y (f.successors c) ≡ true = ground arith in
            ground (arith, member-push_all y (f.successors c) ws, at_c)),
    )
    | inr other ↦
        (let (a, b, next) = closed x (ground arith) in
          (a, b, λ y edge. ground (arith, next y edge, member-push_all y (f.successors c) ws)))
  ]

  pub reach_loop-IsClosed :
      (fuel : ℕ) (visited ws : List ℕ)
      → reach_loop f fuel stop to visited ws ≡ some false
      → IsClosed visited ws
      → (v : List ℕ) × IsClosed v []
        × ((x : ℕ) → member x visited ≡ true → member x v ≡ true)
        × ((x : ℕ) → member x ws ≡ true → (member x v || (x == stop)) ≡ true)
  unfolding reach_loop
  reach_loop-IsClosed zero visited ws e closed = (let no : ⊥ = cc in elim no [ ])
  reach_loop-IsClosed (suc fuel) visited [] e closed =
      (visited, closed, λ x m. m, λ x m. ground arith)
  reach_loop-IsClosed (suc fuel) visited (c ∷ ws) e closed =
      elim (Bool-cases ((c == stop) || member c visited)) [
        | inl skips ↦
            (let (v, cl, vis, was) =
                reach_loop-IsClosed fuel visited ws (ground arith)
                  (IsClosed-skip visited ws c skips closed) in
              (v, cl, vis, λ x m. ground (arith, was x, vis x)))
        | inr expands ↦
            (let (v, cl, vis, was) =
                reach_loop-IsClosed fuel (c ∷ visited) (push_all (f.successors c) ws) (ground arith)
                  (IsClosed-expand visited ws c (ground arith) (ground arith) closed) in
              (
                v,
                cl,
                λ x m. vis x (ground arith),
                λ x m. ground (arith, was x, vis x, member-push_all x (f.successors c) ws),
              ))
      ]

  pub no_way_from :
      (v : List ℕ)
      → IsClosed v []
      → (stop == to) ≡ false
      → (x : ℕ) → (member x v || (x == stop)) ≡ true
      → WayTo f stop to x
      → ⊥
  no_way_from v closed ne x m WayTo.here = elim (Bool-cases (member to v)) [
    | inl h ↦ (let (a, b, next) = closed to h in ground (arith, a))
    | inr h ↦ ground arith
  ]
  no_way_from v closed ne x m (WayTo.step _ y not_stop edge way) =
      let (a, b, next) = closed x (ground arith) in
      no_way_from v closed ne y (ground (arith, next y edge)) way
