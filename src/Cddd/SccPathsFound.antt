-- ===== src/Cddd/SccPathsFound.antt =====
-- What getSCCPaths of lib/CDDDAnalysis.cpp returns.
use elastic_sycl_hls.Prelude.{
  ℕ, zero, suc, ◌≡◌, ◌⊎◌, inl, inr, refl, sym, arith, ◌==◌, true, false, not, ◌||◌, Option, some,
  List, [], ◌∷◌, length, Bool-cases,
}
use elastic_sycl_hls.Prelude.Members.{member, option_cases, list_cases}
use elastic_sycl_hls.Flow.Paths.{PathIn, in_either, only_path}
use elastic_sycl_hls.Cddd.SccPaths.{
  Recurrence, has_done, path_of, depth_of, all_pairs, find_edge, backtrack, take_edge, scc_loop,
  get_scc_paths,
}

some_pair :
    {x e : ℕ} {s t : List ℕ}
    → Path (Option (ℕ × List ℕ)) (some (x, s)) (some (e, t))
    → (x ≡ e) × (s ≡ t)
some_pair h = (cc, cc)

some_lists :
    {x e : List (List ℕ)} {s t : List ℕ}
    → Path (Option (List (List ℕ) × List ℕ)) (some (x, s)) (some (e, t))
    → (x ≡ e) × (s ≡ t)
some_lists h = (cc, cc)

module _ (g : Recurrence) (start : ℕ) where
  -- A stack of the search: it begins at the start, follows edges, and holds no node twice.
  pub data Trail : List ℕ → Type 0 where
    at_start : Trail (start ∷ [])
    go :
        (m n e : ℕ) (rest : List ℕ)
        → Trail (n ∷ rest)
        → member e (g.edges n) ≡ true
        → g.target e ≡ m
        → member m (n ∷ rest) ≡ false
        → Trail (m ∷ n ∷ rest)

  -- An edge that the search may take next.
  abbrev pub IsOpen : List (ℕ × ℕ) → ℕ → List ℕ → Type 0
  IsOpen done e [] = ⊥
  IsOpen done e (n ∷ rest) =
      (member e (g.edges n) ≡ true)
      × (((g.target e == start) || not (member (g.target e) (n ∷ rest))) ≡ true)
      × (has_done (length rest) e done ≡ false)

  -- A path through the recurrence: a trail with an edge from its end to its start.
  abbrev pub IsRound : List ℕ → Type 0
  IsRound p =
      (n e : ℕ) × (rest : List ℕ) × (p ≡ path_of (n ∷ rest))
      × Trail (n ∷ rest)
      × (member e (g.edges n) ≡ true)
      × (g.target e ≡ start)

  find_edge_sound :
      (stack : List ℕ) (done : List (ℕ × ℕ)) (depth e : ℕ) (es : List ℕ)
      → find_edge g start stack done depth es ≡ some e
      → (member e es ≡ true)
        × (((g.target e == start) || not (member (g.target e) stack)) ≡ true)
        × (has_done depth e done ≡ false)
  unfolding find_edge
  find_edge_sound stack done depth e [] found = (let no : ⊥ = cc in elim no [ ])
  find_edge_sound stack done depth e (x ∷ es) found =
      ground (arith, find_edge_sound stack done depth e es)

  abbrev pub IsStack : List ℕ → Type 0
  IsStack stack = (stack ≡ []) ⊎ Trail stack

  trail_tail : (n : ℕ) (rest : List ℕ) → IsStack (n ∷ rest) → IsStack rest
  trail_tail n rest (inl e) = (let no : ⊥ = cc in elim no [ ])
  trail_tail _ _ (inr Trail.at_start) = inl refl
  trail_tail _ _ (inr (Trail.go m n e rest trail edge leads new)) = inr trail

  frontier-Trail : (n : ℕ) (rest : List ℕ) → IsStack (n ∷ rest) → Trail (n ∷ rest)
  frontier-Trail n rest (inl e) = (let no : ⊥ = cc in elim no [ ])
  frontier-Trail n rest (inr trail) = trail

  IsOpen-same :
      (done : List (ℕ × ℕ)) (x e : ℕ) (s frontier : List ℕ)
      → (x ≡ e) × (s ≡ frontier)
      → Trail s × IsOpen done x s
      → Trail frontier × IsOpen done e frontier
  IsOpen-same done x e s frontier (edge, stack) h = rw (sym stack, sym edge) h

  pub backtrack-IsOpen :
      (done : List (ℕ × ℕ)) (stack : List ℕ) (e : ℕ) (frontier : List ℕ)
      → IsStack stack
      → backtrack g start done stack ≡ some (e, frontier)
      → Trail frontier × IsOpen done e frontier
  unfolding backtrack
  backtrack-IsOpen done [] e frontier trail found = (let no : ⊥ = cc in elim no [ ])
  backtrack-IsOpen done (n ∷ rest) e frontier trail found =
      elim (option_cases (find_edge g start (n ∷ rest) done (length rest) (g.edges n))) [
        | inl nothing ↦
            (let later = rw (backtrack, nothing) at (found) in
              backtrack-IsOpen done rest e frontier (trail_tail n rest trail) later)
        | inr (x, next) ↦
            IsOpen-same done x e (n ∷ rest) frontier (some_pair (rw (backtrack, next) at (found))) (
              frontier-Trail n rest trail,
              find_edge_sound (n ∷ rest) done (length rest) x (g.edges n) next,
            )
      ]

  -- An edge that is taken ends a path of the recurrence, or makes a longer stack.
  pub take_edge-IsOpen :
      (done : List (ℕ × ℕ)) (all new_all : List (List ℕ)) (stack new_stack : List ℕ) (e : ℕ)
      → Trail stack
      → IsOpen done e stack
      → take_edge g start all stack e ≡ some (new_all, new_stack)
      → Trail new_stack × ((p : List ℕ) → PathIn p new_all → PathIn p all ⊎ IsRound p)
  unfolding take_edge
  take_edge-IsOpen done all new_all [] new_stack e trail opened taken = elim opened [ ]
  take_edge-IsOpen done all new_all (n ∷ rest) new_stack e trail (edge, inside, fresh) taken =
      elim (Bool-cases (g.target e == start)) [
        | inl closes ↦
            (let (paths, same) = some_lists (rw (take_edge, closes) at (taken)) in
              rw (sym paths, sym same)
                (
                  trail,
                  λ p i. elim (in_either p all (path_of (n ∷ rest) ∷ []) i) [
                    | inl old ↦ inl old
                    | inr new ↦
                        inr (n, e, rest, only_path p _ new, trail, edge, ground (arith, closes))
                  ],
                ))
        | inr goes ↦ elim (Bool-cases (g.is_simple (g.target e))) [
          | inl simple ↦
              (let (paths, same) = some_lists (rw (take_edge, goes, simple) at (taken)) in
                rw (sym paths, sym same)
                  (
                    Trail.go (g.target e) n e rest trail edge refl (ground (arith, inside, goes)),
                    λ p i. inl i,
                  ))
          | inr other ↦
              (let stops = rw (take_edge, goes, other) at (taken) in let no : ⊥ = cc in elim no [ ])
        ]
      ]

  pub scc_loop_sound :
      (fuel : ℕ) (done : List (ℕ × ℕ)) (all r : List (List ℕ)) (stack : List ℕ) (e : ℕ)
      → Trail stack
      → IsOpen done e stack
      → ((p : List ℕ) → PathIn p all → IsRound p)
      → scc_loop g start fuel done all stack e ≡ some r
      → (p : List ℕ) → PathIn p r
      → IsRound p
  unfolding scc_loop
  scc_loop_sound zero done all r stack e trail opened good ends p i =
      (let no : ⊥ = cc in elim no [ ])
  scc_loop_sound (suc fuel) done all r stack e trail opened good ends p i =
      elim (option_cases (take_edge g start all stack e)) [
        | inl stops ↦ (let no : ⊥ = (let h = rw (scc_loop, stops) at (ends) in cc) in elim no [ ])
        | inr ((new_all, new_stack), taken) ↦
            (let now = rw (scc_loop, taken) at (ends) in
              let (longer, new) =
                take_edge-IsOpen done all new_all stack new_stack e trail opened taken in
              elim (option_cases (backtrack g start ((depth_of stack, e) ∷ done) new_stack)) [
                | inl nothing ↦
                    (let same : new_all ≡ r = (let h = rw nothing at (now) in cc) in
                      elim (new p (rw same i)) [ inl old ↦ good p old | inr round ↦ round ])
                | inr ((next, frontier), found) ↦
                    (let h = rw found at (now) in
                      let (t, o) =
                        backtrack-IsOpen ((depth_of stack, e) ∷ done) new_stack next frontier
                          (inr longer) found in
                      scc_loop_sound fuel ((depth_of stack, e) ∷ done) new_all r frontier next t o
                        (λ p i. elim (new p i) [ inl old ↦ good p old | inr round ↦ round ]) h p i)
              ])
      ]

  -- The first edge of the start may be taken at once.
  pub first-IsOpen : (e : ℕ) (es : List ℕ) → g.edges start ≡ e ∷ es → IsOpen [] e (start ∷ [])
  first-IsOpen e es edges = (rw edges (ground arith), ground arith, refl)

-- What getSCCPaths returns are paths through the recurrence: each begins at the first node, follows
-- edges of the graph, holds no node twice, and its last node has an edge to the first.
pub get_scc_paths_sound :
    (g : Recurrence) (start : ℕ) (ns : List ℕ) (r : List (List ℕ))
    → g.nodes ≡ start ∷ ns
    → get_scc_paths g ≡ some r
    → (p : List ℕ) → PathIn p r
    → IsRound g start p
unfolding get_scc_paths
get_scc_paths_sound g start ns r nodes ends p i =
    let loop = rw (get_scc_paths, nodes) at (ends) in
    elim (list_cases (g.edges start)) [
      | inl nothing ↦ (let no : ⊥ = (let h = rw nothing at (loop) in cc) in elim no [ ])
      | inr (e, es, edges) ↦
          scc_loop_sound g start (suc (length (all_pairs g))) [] [] r (start ∷ []) e Trail.at_start
            (first-IsOpen g start e es edges) (λ p i. elim i [ ]) (rw edges at (loop)) p i
    ]
