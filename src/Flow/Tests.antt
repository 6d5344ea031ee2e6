-- ===== src/Flow/Tests.antt =====
-- The paths and the reachability of a loop with a branch: isReachableWithinLoop of
-- include/CommonLLVM.h and getAllBlockPathsInLoop of lib/DataHazardAnalysis.cpp.
use elastic_sycl_hls.Prelude.{
  ℕ, ◌≡◌, ◌⊎◌, ◌↔◌, ◌==◌, ltb, refl, arith, Bool, true, false, if◌then◌else◌, ◌&&◌, some, List, [],
  ◌∷◌,
}
use elastic_sycl_hls.Flow.{
  FlowGraph, LoopInfo, reach_loop, is_reachable_within_loop, continuations, paths_loop,
  get_all_block_paths_in_loop,
}
use elastic_sycl_hls.Flow.Search.{WayTo}
use elastic_sycl_hls.Flow.Reach.{IsGraph, is_reachable_within_loop_iff}
use elastic_sycl_hls.Flow.Paths.{LoopPath, PathIn}
use elastic_sycl_hls.Flow.PathCount.{IsRanked, path_steps, get_all_block_paths_in_loop_iff}

-- `while (...) { if (...) block 1; else block 2; block 3 }; block 4`
abbrev branching_loop : FlowGraph
branching_loop = record {
  blocks = 0 ∷ 1 ∷ 2 ∷ 3 ∷ 4 ∷ [];
  successors = λ b.
      if b == 0
      then 1 ∷ 2 ∷ []
      else if b == 1
      then 3 ∷ []
      else if b == 2
      then 3 ∷ []
      else if b == 3
      then 0 ∷ 4 ∷ []
      else [];
  is_loop_header = λ b. b == 0;
}

abbrev whole_loop : LoopInfo
whole_loop = record { contains = λ b. ltb b 4; latch = 3 }

abbrev block_rank : ℕ → ℕ
block_rank b = if b == 0 then 3 else if b == 3 then 1 else if b == 4 then 0 else 2

branching_loop-IsGraph : IsGraph branching_loop
branching_loop-IsGraph x y m e = ground arith

branching_loop-IsRanked : IsRanked branching_loop block_rank
branching_loop-IsRanked x y m e = ground arith

sides_apart : is_reachable_within_loop branching_loop 1 2 whole_loop ≡ some false
unfolding is_reachable_within_loop reach_loop
sides_apart = refl

-- An inner loop of the blocks 1 to 4, left from block 3 into the latch 5 of an outer loop. Block 3
-- does not reach block 2 inside the loop, but over the outer loop it does.
abbrev nested_loops : FlowGraph
nested_loops = record {
  blocks = 0 ∷ 1 ∷ 2 ∷ 3 ∷ 4 ∷ 5 ∷ [];
  successors = λ b.
      if b == 0
      then 1 ∷ []
      else if b == 1
      then 2 ∷ 3 ∷ []
      else if b == 2
      then 4 ∷ []
      else if b == 3
      then 4 ∷ 5 ∷ []
      else if b == 4
      then 1 ∷ []
      else 0 ∷ [];
  is_loop_header = λ b. ltb b 2;
}

over_outer_loop :
    is_reachable_within_loop nested_loops 3 2
      (record { contains = λ b. ltb 0 b && ltb b 5; latch = 4 })
    ≡ some true
unfolding is_reachable_within_loop reach_loop
over_outer_loop = refl

two_paths :
    get_all_block_paths_in_loop branching_loop 20 0 3 ≡ some ((1 ∷ 3 ∷ []) ∷ (2 ∷ 3 ∷ []) ∷ [])
unfolding get_all_block_paths_in_loop paths_loop continuations
two_paths = refl

is_reachable_within_loop_iff_example :
    (b : Bool) × (is_reachable_within_loop branching_loop 1 2 whole_loop ≡ some b)
    × ((b ≡ true) ↔ (((3 == 2) ≡ true) ⊎ WayTo branching_loop 3 2 1))
is_reachable_within_loop_iff_example =
    is_reachable_within_loop_iff branching_loop 1 2 whole_loop branching_loop-IsGraph refl refl refl

get_all_block_paths_in_loop_iff_example :
    (r : List (List ℕ)) × (get_all_block_paths_in_loop branching_loop 20 0 3 ≡ some r)
    × ((ys : List ℕ) → PathIn ys r ↔ LoopPath branching_loop 3 0 ys)
unfolding path_steps
get_all_block_paths_in_loop_iff_example =
    get_all_block_paths_in_loop_iff branching_loop block_rank branching_loop-IsRanked 20 0 3
      (ground arith)
