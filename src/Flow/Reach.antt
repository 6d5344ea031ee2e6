-- ===== src/Flow/Reach.antt =====
-- The end and the answer of isReachableWithinLoop of include/CommonLLVM.h.
use elastic_sycl_hls.Prelude.{
  ℕ, zero, suc, ◌+◌, ◌≤◌, ◌<◌, ◌≡◌, ◌≢◌, ◌⊎◌, ◌↔◌, inl, inr, refl, sym, arith, ◌==◌, Bool, true,
  false, if◌then◌else◌, none, some, List, [], ◌∷◌, length, Bool-cases,
}
use elastic_sycl_hls.Prelude.Members.{member}
use elastic_sycl_hls.Flow.{
  FlowGraph, LoopInfo, push_all, reach_loop, unvisited_edges, is_reachable_within_loop,
}
use elastic_sycl_hls.Flow.Search.{
  WayTo, member-push_all, length-push_all, some_of, reach_loop_sound, IsClosed, reach_loop-IsClosed,
  no_way_from,
}

module _ (f : FlowGraph) (stop to : ℕ) where
  unvisited_edges-visit :
      (c : ℕ) (visited bs : List ℕ)
      → member c visited ≡ false
      → unvisited_edges f (c ∷ visited) bs
          + (if member c bs then suc (length (f.successors c)) else 0)
        ≤ unvisited_edges f visited bs
  unvisited_edges-visit c visited [] new = omega arith
  unvisited_edges-visit c visited (b ∷ bs) new =
      ground (arith, unvisited_edges-visit c visited bs new)

  -- Every block on the worklist, and every successor of a block, is one of the function's.
  reach_loop-ends :
      ((x y : ℕ)
        → member x f.blocks ≡ true
        → member y (f.successors x) ≡ true
        → member y f.blocks ≡ true)
      → (fuel : ℕ) (visited ws : List ℕ) → ((w : ℕ) → member w ws ≡ true → member w f.blocks ≡ true)
      → unvisited_edges f visited f.blocks + length ws < fuel
      → reach_loop f fuel stop to visited ws ≢ none
  unfolding reach_loop
  reach_loop-ends inside zero visited ws known enough = (let no : ⊥ = omega arith in elim no [ ])
  reach_loop-ends inside (suc fuel) visited [] known enough = ground arith
  reach_loop-ends inside (suc fuel) visited (c ∷ ws) known enough =
      let skipped =
        reach_loop-ends inside fuel visited ws (λ w m. known w (ground arith)) (omega arith) in
      elim (Bool-cases (member c visited)) [
        | inl old ↦ ground (arith, skipped)
        | inr new ↦
            (let expanded =
                reach_loop-ends inside fuel (c ∷ visited) (push_all (f.successors c) ws)
                  (λ w m.
                    ground
                      (arith, known w, inside c w, known c, member-push_all w (f.successors c) ws))
                  (ground (
                    arith,
                    length-push_all (f.successors c) ws,
                    known c,
                    unvisited_edges-visit c visited f.blocks new,
                  )) in
              ground (arith, skipped, expanded))
      ]

  IsClosed-start : (ws : List ℕ) → IsClosed f stop to [] ws
  IsClosed-start ws x m = let no : ⊥ = cc in elim no [ ]

  only_start : (w from : ℕ) → member w (from ∷ []) ≡ true → from ≡ w
  only_start w from m = ground arith

  -- Of a block of the function, and a target that is not where paths stop.
  pub reach_loop-decides :
      ((x y : ℕ)
        → member x f.blocks ≡ true
        → member y (f.successors x) ≡ true
        → member y f.blocks ≡ true)
      → (from : ℕ) → member from f.blocks ≡ true
      → (stop == to) ≡ false
      → (b : Bool) × (reach_loop f
            (suc (suc (unvisited_edges f [] f.blocks)))
            stop
            to
            []
            (from ∷ [])
          ≡ some b)
        × ((b ≡ true) ↔ WayTo f stop to from)
  reach_loop-decides inside from known ne =
      let fuel : ℕ = suc (suc (unvisited_edges f [] f.blocks)) in
      let ends =
        reach_loop-ends inside fuel [] (from ∷ []) (λ w m. rw (sym (only_start w from m)) known)
          (omega arith) in
      elim (some_of (reach_loop f fuel stop to [] (from ∷ [])) ends) [
        | inl found ↦
            (let (w, m, way) = reach_loop_sound f stop to fuel [] (from ∷ []) found in
              (true, found, (λ e. rw (only_start w from m) way, λ h. refl)))
        | inr not_found ↦
            (let (v, closed, vis, was) =
                reach_loop-IsClosed f stop to fuel [] (from ∷ []) not_found
                  (IsClosed-start (from ∷ [])) in
              let none_from = no_way_from f stop to v closed ne from (was from (ground arith)) in
              (
                false,
                not_found,
                (λ e. (let no : ⊥ = cc in elim no [ ]), λ h. elim (none_from h) [ ]),
              ))
      ]

-- The successors of the blocks of the function are blocks of it.
abbrev pub IsGraph : FlowGraph → Type 0
IsGraph f =
    (x y : ℕ)
    → member x f.blocks ≡ true
    → member y (f.successors x) ≡ true
    → member y f.blocks ≡ true

-- For two blocks of a loop, of which the first is one of the function, isReachableWithinLoop
-- returns, and it returns true exactly if the second is the latch or a path leads to it from the
-- first that does not go on from the latch. Successors of the function's blocks are blocks of it.
pub is_reachable_within_loop_iff :
    (f : FlowGraph) (from to : ℕ) (l : LoopInfo)
    → IsGraph f
    → member from f.blocks ≡ true
    → l.contains from ≡ true
    → l.contains to ≡ true
    → (b : Bool) × (is_reachable_within_loop f from to l ≡ some b)
      × ((b ≡ true) ↔ (((l.latch == to) ≡ true) ⊎ WayTo f l.latch to from))
unfolding is_reachable_within_loop
is_reachable_within_loop_iff f from to l graph known c₁ c₂ = elim (Bool-cases (l.latch == to)) [
  | inl is_latch ↦ (true, ground arith, (λ e. inl is_latch, λ h. refl))
  | inr not_latch ↦
      (let (b, e, decides) = reach_loop-decides f l.latch to graph from known not_latch in
        (
          b,
          ground (arith, e),
          (
            λ t. inr (decides.0 t),
            λ h. elim h [
              | inl is_latch ↦ (let no : ⊥ = cc in elim no [ ])
              | inr way ↦ decides.1 way
            ],
          ),
        ))
]
