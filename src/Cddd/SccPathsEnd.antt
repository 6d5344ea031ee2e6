-- ===== src/Cddd/SccPathsEnd.antt =====
-- The search of getSCCPaths of lib/CDDDAnalysis.cpp ends.
use elastic_sycl_hls.Prelude.{
  ℕ, zero, suc, ◌+◌, ◌≤◌, ◌<◌, ◌≡◌, ◌≢◌, inl, inr, refl, sym, arith, ◌==◌, true, false, ◌&&◌,
  if◌then◌else◌, none, List, [], ◌∷◌, length,
}
use elastic_sycl_hls.Prelude.Members.{
  any-append, member, left_of, left_of-take, left_of-start, option_cases, list_cases,
}
use elastic_sycl_hls.Cddd.SccPaths.{
  Recurrence, has_done, depth_of, below, at_depths, with_depths, edges_of, all_pairs, backtrack,
  take_edge, scc_loop, get_scc_paths,
}
use elastic_sycl_hls.Cddd.SccPathsFound.{
  Trail, IsOpen, backtrack-IsOpen, take_edge-IsOpen, first-IsOpen,
}

-- How many of the pairs are not done.
abbrev pub pairs_left : List (ℕ × ℕ) → List (ℕ × ℕ) → ℕ
pairs_left done [] = 0
pairs_left done (p ∷ ps) = (if has_done p.0 p.1 done then 0 else 1) + pairs_left done ps

pairs_left-take :
    (d e : ℕ) (done ps : List (ℕ × ℕ))
    → has_done d e done ≡ false
    → pairs_left ((d, e) ∷ done) ps + (if has_done d e ps then 1 else 0) ≤ pairs_left done ps
pairs_left-take d e done [] new = omega arith
pairs_left-take d e done (p ∷ ps) new = ground (arith, pairs_left-take d e done ps new)

pairs_left-start : (ps : List (ℕ × ℕ)) → pairs_left [] ps ≡ length ps
pairs_left-start [] = refl
pairs_left-start (p ∷ ps) = ground (arith, pairs_left-start ps)

has_done-at_depths :
    (d e : ℕ) (ds : List ℕ) → member d ds ≡ true → has_done d e (at_depths e ds) ≡ true
has_done-at_depths d e [] m = ground arith
has_done-at_depths d e (x ∷ ds) m = ground (arith, has_done-at_depths d e ds)

has_done-with_depths :
    (d e : ℕ) (ds es : List ℕ)
    → member d ds ≡ true
    → member e es ≡ true
    → has_done d e (with_depths ds es) ≡ true
has_done-with_depths d e ds [] m n = ground arith
has_done-with_depths d e ds (x ∷ es) m n = ground (
  arith,
  any-append (λ p. (p.0 == d) && (p.1 == e)) (at_depths x ds) (with_depths ds es),
  has_done-with_depths d e ds es m,
  has_done-at_depths d x ds m,
)

member-below : (d n : ℕ) → d < n → member d (below n) ≡ true
member-below d zero h = ground arith
member-below d (suc n) h = ground (arith, member-below d n)

member-edges_of :
    (edges : ℕ → List ℕ) (n e : ℕ) (ns : List ℕ)
    → member n ns ≡ true
    → member e (edges n) ≡ true
    → member e (edges_of edges ns) ≡ true
member-edges_of edges n e [] m h = ground arith
member-edges_of edges n e (x ∷ ns) m h =
    ground
      (arith, any-append (λ c. c == e) (edges x) (edges_of edges ns), member-edges_of edges n e ns)

-- All edges of the recurrence stay in it, and its nodes are simple.
abbrev pub IsInside : Recurrence → Type 0
IsInside g =
    (n e : ℕ)
    → member n g.nodes ≡ true
    → member e (g.edges n) ≡ true
    → (member (g.target e) g.nodes ≡ true) × (g.is_simple (g.target e) ≡ true)

module _ (g : Recurrence) (start : ℕ) (inside : IsInside g)
    (starts : member start g.nodes ≡ true) where
  Trail-nodes :
      (n : ℕ) (rest : List ℕ)
      → Trail g start (n ∷ rest)
      → (member n g.nodes ≡ true)
        × (length (n ∷ rest) + left_of (n ∷ rest) g.nodes ≤ length g.nodes)
  Trail-nodes _ _ Trail.at_start =
      (starts, ground (arith, left_of-take start [] g.nodes refl, left_of-start g.nodes, starts))
  Trail-nodes _ _ (Trail.go m n e rest trail edge leads new) =
      let (node, small) = Trail-nodes n rest trail in
      let (next, simple) = inside n e node edge in
      let here : member m g.nodes ≡ true = rw (sym leads) next in
      (here, ground (arith, left_of-take m (n ∷ rest) g.nodes new, small, here))

  pair_listed :
      (n : ℕ) (rest : List ℕ) (e : ℕ)
      → Trail g start (n ∷ rest)
      → member e (g.edges n) ≡ true
      → has_done (length rest) e (all_pairs g) ≡ true
  pair_listed n rest e trail edge =
      let (node, small) = Trail-nodes n rest trail in
      has_done-with_depths (length rest) e (below (length g.nodes)) (edges_of g.edges g.nodes)
        (member-below (length rest) (length g.nodes) (omega (arith, small)))
        (member-edges_of g.edges n e g.nodes node edge)

  take_edge-some :
      (done : List (ℕ × ℕ)) (all : List (List ℕ)) (stack : List ℕ) (e : ℕ)
      → Trail g start stack
      → IsOpen g start done e stack
      → take_edge g start all stack e ≢ none
  unfolding take_edge
  take_edge-some done all [] e trail opened = elim opened [ ]
  take_edge-some done all (n ∷ rest) e trail (edge, new, fresh) =
      let (node, small) = Trail-nodes n rest trail in
      let (next, simple) = inside n e node edge in ground (arith, simple)

  pairs_left-round :
      (done : List (ℕ × ℕ)) (stack : List ℕ) (e : ℕ)
      → Trail g start stack
      → IsOpen g start done e stack
      → pairs_left ((depth_of stack, e) ∷ done) (all_pairs g) < pairs_left done (all_pairs g)
  pairs_left-round done [] e trail opened = elim opened [ ]
  pairs_left-round done (n ∷ rest) e trail (edge, new, fresh) = ground (
    arith,
    pairs_left-take (length rest) e done (all_pairs g) fresh,
    pair_listed n rest e trail edge,
  )

  pub scc_loop-some :
      (fuel : ℕ) (done : List (ℕ × ℕ)) (all : List (List ℕ)) (stack : List ℕ) (e : ℕ)
      → Trail g start stack
      → IsOpen g start done e stack
      → pairs_left done (all_pairs g) < fuel
      → scc_loop g start fuel done all stack e ≢ none
  unfolding scc_loop
  scc_loop-some zero done all stack e trail opened enough stops =
      (let no : ⊥ = omega (arith, enough) in elim no [ ])
  scc_loop-some (suc fuel) done all stack e trail opened enough stops =
      elim (option_cases (take_edge g start all stack e)) [
        | inl null ↦ take_edge-some done all stack e trail opened null
        | inr ((new_all, new_stack), taken) ↦
            (let now = rw (scc_loop, taken) at (stops) in
              let (longer, new) =
                take_edge-IsOpen g start done all new_all stack new_stack e trail opened taken in
              elim (option_cases (backtrack g start ((depth_of stack, e) ∷ done) new_stack)) [
                | inl nothing ↦ (let h = rw nothing at (now) in cc)
                | inr ((next, frontier), found) ↦
                    (let h = rw found at (now) in
                      let (t, o) =
                        backtrack-IsOpen g start ((depth_of stack, e) ∷ done) new_stack next
                          frontier (inr longer) found in
                      scc_loop-some fuel ((depth_of stack, e) ∷ done) new_all frontier next t o
                        (omega (arith, enough, pairs_left-round done stack e trail opened)) h)
              ])
      ]

-- getSCCPaths ends, without a null pointer, if the first node has an edge and all edges lead to
-- simple nodes of the recurrence.
pub get_scc_paths-some :
    (g : Recurrence) (start : ℕ) (ns : List ℕ)
    → g.nodes ≡ start ∷ ns
    → g.edges start ≢ []
    → IsInside g
    → get_scc_paths g ≢ none
unfolding get_scc_paths
get_scc_paths-some g start ns nodes leaves inside stops =
    let loop = rw (get_scc_paths, nodes) at (stops) in
    elim (list_cases (g.edges start)) [
      | inl nothing ↦ leaves nothing
      | inr (e, es, edges) ↦
          scc_loop-some g start inside (rw nodes (ground arith)) (suc (length (all_pairs g))) [] []
            (start ∷ []) e Trail.at_start (first-IsOpen g start e es edges)
            (omega (arith, pairs_left-start (all_pairs g))) (rw edges at (loop))
    ]
