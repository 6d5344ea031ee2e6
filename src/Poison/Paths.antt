-- ===== src/Poison/Paths.antt =====
-- calculatePoisonBlocks of lib/DataHazardAnalysis.cpp on the paths that getAllBlockPathsInLoop
-- returns, with isReachableWithinLoop of include/CommonLLVM.h.
use elastic_sycl_hls.Prelude.{
  ℕ, suc, ◌<◌, ◌≡◌, inl, inr, refl, ◌∙◌, arith, ◌==◌, Bool, true, false, ◌||◌, Option, none, some,
  List, [], ◌∷◌, Bool-cases,
}
use elastic_sycl_hls.Prelude.Members.{any, member}
use elastic_sycl_hls.Flow.{
  FlowGraph, LoopInfo, is_reachable_within_loop, get_all_block_paths_in_loop,
}
use elastic_sycl_hls.Flow.Search.{WayTo}
use elastic_sycl_hls.Flow.Reach.{IsGraph, is_reachable_within_loop_iff}
use elastic_sycl_hls.Flow.Paths.{LoopPath, PathIn}
use elastic_sycl_hls.Flow.PathCount.{IsRanked, path_steps, get_all_block_paths_in_loop_iff}
use elastic_sycl_hls.Poison.{CfgEdge, Group, edges_from, add_request, requests_for_path, poison_at}
use elastic_sycl_hls.Poison.Groups.{has_group, standing_in}
use elastic_sycl_hls.Poison.Once.{
  visited, reaches_what_follows, ends_past, path_poisons, path_poisons-visited,
  path_poisons-avoided,
}

-- A failed assertion counts as unreachable; between blocks of the loop none fails (Flow/Reach).
abbrev pub is_reached : Option Bool → Bool
is_reached none = false
is_reached (some b) = b

module _ (parent : ℕ → ℕ) where
  has_group-add_request :
      (t b r : ℕ) (gs : List Group)
      → has_group t (add_request b r gs) ≡ ((b == t) || has_group t gs)
  unfolding add_request
  has_group-add_request t b r [] = ground arith
  has_group-add_request t b r ((u, rs) ∷ gs) = ground (arith, has_group-add_request t b r gs)

  has_group-requests_for_path :
      (t : ℕ) (rs : List ℕ) (gs : List Group)
      → has_group t (requests_for_path parent rs gs)
        ≡ (any (λ r. parent r == t) rs || has_group t gs)
  unfolding requests_for_path
  has_group-requests_for_path t [] gs = refl
  has_group-requests_for_path t (r ∷ rs) gs = ground (
    arith,
    has_group-requests_for_path t rs (add_request (parent r) r gs),
    has_group-add_request t (parent r) r gs,
  )

module _ (f : FlowGraph) (l : LoopInfo) where
  abbrev pub reaches : ℕ → ℕ → Bool
  reaches x t = is_reached (is_reachable_within_loop f x t l)

  -- The latch is in the loop, and a loop is entered at a header only.
  abbrev pub IsLoop : Type 0
  IsLoop =
      (l.contains l.latch ≡ true)
      × ((x y : ℕ)
          → member y (f.successors x) ≡ true
          → f.is_loop_header y ≡ false
          → l.contains y ≡ true
          → l.contains x ≡ true)
      × ((x : ℕ) → l.contains x ≡ true → member x f.blocks ≡ true)

  pub LoopPath-contained :
      (x : ℕ) (ys : List ℕ) → IsLoop → LoopPath f l.latch x ys → l.contains x ≡ true
  LoopPath-contained x [] (latch_in, enters, known) (LoopPath.ends _ e) =
      (let same : x ≡ l.latch = ground (arith, e) in rw same latch_in)
  LoopPath-contained x (y ∷ ys) is_loop (LoopPath.step _ _ _ not_stop edge inner path) =
      is_loop.1 x y edge inner (LoopPath-contained y ys is_loop path)

  WayTo-of_path :
      (x t : ℕ) (ys : List ℕ)
      → LoopPath f l.latch x ys
      → ((x == t) || member t ys) ≡ true
      → WayTo f l.latch t x
  WayTo-of_path x t [] path m = (let same : x ≡ t = ground (arith, m) in rw same WayTo.here)
  WayTo-of_path x t (y ∷ ys) (LoopPath.step _ _ _ not_stop edge inner path) m =
      elim (Bool-cases (x == t)) [
        | inl same ↦ (let at : x ≡ t = ground (arith, same) in rw at WayTo.here)
        | inr other ↦ WayTo.step x y not_stop edge (WayTo-of_path y t ys path (ground (arith, m)))
      ]

  reaches-of_path :
      (x t : ℕ) (ys : List ℕ)
      → IsGraph f
      → IsLoop
      → l.contains t ≡ true
      → LoopPath f l.latch x ys
      → ((x == t) || member t ys) ≡ true
      → reaches x t ≡ true
  reaches-of_path x t ys graph is_loop at path m =
      let inside = LoopPath-contained x ys is_loop path in
      let (b, e, decides) =
        is_reachable_within_loop_iff f x t l graph (is_loop.2 x inside) inside at in
      rw e (decides.1 (inr (WayTo-of_path x t ys path m)))

  -- No way goes on from where it stops.
  only_way : (stop t x : ℕ) → WayTo f stop t x → (x == stop) ≡ true → x ≡ t
  only_way stop t _ WayTo.here e = refl
  only_way stop t x (WayTo.step _ y not_stop edge way) e = (let no : ⊥ = cc in elim no [ ])

  latch_passed :
      (t : ℕ)
      → IsGraph f
      → IsLoop
      → l.contains t ≡ true
      → (l.latch == t) ≡ false
      → reaches l.latch t ≡ false
  latch_passed t graph is_loop at ne =
      let (b, e, decides) =
        is_reachable_within_loop_iff f l.latch t l graph (is_loop.2 l.latch is_loop.0) is_loop.0
          at in
      let refl_latch : (l.latch == l.latch) ≡ true = ground arith in
      rw e (elim (Bool-cases b) [
        | inl yes_way ↦ elim (decides.0 yes_way) [
          | inl is_latch ↦ (let no : ⊥ = cc in elim no [ ])
          | inr way ↦
              (let same = only_way l.latch t l.latch way refl_latch in
                let no : ⊥ = ground (arith, same, ne) in elim no [ ])
        ]
        | inr none_way ↦ none_way
      ])

  module _ (parent : ℕ → ℕ) (t : ℕ) where
    pub visited-edges_from :
        (x : ℕ) (ys : List ℕ) → visited parent reaches t (edges_from (some x) ys) ≡ member t ys
    unfolding edges_from
    visited-edges_from x [] = refl
    visited-edges_from x (y ∷ ys) = ground (arith, visited-edges_from y ys)

    reaches_what_follows-edges_from :
        (x : ℕ) (ys : List ℕ)
        → IsGraph f
        → IsLoop
        → l.contains t ≡ true
        → LoopPath f l.latch x ys
        → reaches_what_follows parent reaches t (edges_from (some x) ys) ≡ true
    unfolding edges_from
    reaches_what_follows-edges_from x [] graph is_loop at path = refl
    reaches_what_follows-edges_from x (y ∷ ys) graph is_loop at
          (LoopPath.step _ _ _ ne edge inner path) =
        let rest = reaches_what_follows-edges_from y ys graph is_loop at path in
        elim (Bool-cases (member t ys)) [
          | inl later ↦
              (let reached = reaches-of_path y t ys graph is_loop at path (ground arith) in
                rw reached (ground (arith, rest)))
          | inr never ↦ ground (arith, visited-edges_from y ys, never, rest)
        ]

    ends_past-edges_from :
        (gs : List Group) (x y : ℕ) (ys : List ℕ)
        → reaches l.latch t ≡ false
        → has_group l.latch gs ≡ false
        → LoopPath f l.latch y ys
        → ends_past parent reaches t gs (edges_from (some x) (y ∷ ys)) ≡ true
    unfolding edges_from
    ends_past-edges_from gs x y [] not_reached no_group (LoopPath.ends _ e) =
        (let same : y ≡ l.latch = ground (arith, e) in rw (same, not_reached, no_group) refl)
    ends_past-edges_from gs x y (z ∷ ys) not_reached no_group
          (LoopPath.step _ _ _ ne edge inner path) =
        ends_past-edges_from gs y z ys not_reached no_group path

latch_on_path :
    (f : FlowGraph) (stop y t : ℕ) (ys : List ℕ)
    → LoopPath f stop y ys
    → member t (y ∷ ys) ≡ false
    → (stop == t) ≡ false
latch_on_path f stop y t [] (LoopPath.ends _ e) m = ground arith
latch_on_path f stop y t (z ∷ ys) (LoopPath.step _ _ _ ne edge inner path) m =
    latch_on_path f stop z t ys path (ground arith)

pub avoids :
    (f : FlowGraph) (l : LoopInfo) (parent : ℕ → ℕ) (requests : List ℕ) (b t y : ℕ) (ys : List ℕ)
    → IsGraph f
    → IsLoop f l
    → any (λ r. parent r == l.latch) requests ≡ false
    → l.contains t ≡ true
    → LoopPath f l.latch b (y ∷ ys)
    → member t (y ∷ ys) ≡ false
    → ends_past parent
        (reaches f l)
        t
        (requests_for_path parent requests [])
        (edges_from (some b) (y ∷ ys))
      ≡ true
avoids f l parent requests b t y ys graph is_loop none_at at
      (LoopPath.step _ _ _ ne edge inner path) m =
    let apart = latch_on_path f l.latch y t ys path m in
    ends_past-edges_from f l parent t (requests_for_path parent requests []) b y ys
      (latch_passed f l t graph is_loop at apart)
      (ground (arith, has_group-requests_for_path parent l.latch requests [], none_at)) path

-- What calculatePoisonBlocks finds on each path that getAllBlockPathsInLoop returns from a block of a
-- loop to its latch, with isReachableWithinLoop as the test: if the path goes on to a block T of the
-- loop, the walk along it poisons none of the requests that stand in T; if it does not, the walk
-- poisons each of them once, all at one edge, which leads to a block that does not reach T. The blocks
-- are ranked, the path has two blocks at least, and no request stands in the latch.
pub get_all_block_paths_in_loop-poisons :
    (f : FlowGraph) (l : LoopInfo) (rank : ℕ → ℕ) (parent : ℕ → ℕ) (requests : List ℕ)
    (b t fuel : ℕ)
    → IsGraph f
    → IsLoop f l
    → IsRanked f rank
    → path_steps f (suc (rank b)) b < fuel
    → any (λ r. parent r == l.latch) requests ≡ false
    → l.contains t ≡ true
    → (paths : List (List ℕ)) × (get_all_block_paths_in_loop f fuel b l.latch ≡ some paths)
      × ((y : ℕ) (ys : List ℕ)
          → PathIn (y ∷ ys) paths
          → (member t (y ∷ ys) ≡ true
              → path_poisons parent (reaches f l) requests (b ∷ y ∷ ys) t ≡ [])
            × (member t (y ∷ ys) ≡ false
                → (e : CfgEdge) × (path_poisons parent (reaches f l) requests (b ∷ y ∷ ys) t
                    ≡ poison_at e (standing_in parent t requests))
                  × (reaches f l e.1 t ≡ false)))
unfolding edges_from
get_all_block_paths_in_loop-poisons f l rank parent requests b t fuel graph is_loop ranked lt
      none_at at =
    let (paths, e, iff) = get_all_block_paths_in_loop_iff f rank ranked fuel b l.latch lt in
    (
      paths,
      e,
      λ y ys i.
          (let path = (iff (y ∷ ys)).0 i in
            let seen = visited-edges_from f l parent t b (y ∷ ys) in
            (
              λ m.
                  path_poisons-visited parent (reaches f l) requests (b ∷ y ∷ ys) t
                    (reaches_what_follows-edges_from f l parent t b (y ∷ ys) graph is_loop at path)
                    (seen ∙ m),
              λ m.
                  path_poisons-avoided parent (reaches f l) requests (b ∷ y ∷ ys) t (seen ∙ m)
                    (avoids f l parent requests b t y ys graph is_loop none_at at path m),
            )),
    )
