-- ===== src/Poison/Tests.antt =====
-- Poisoned values of calculatePoisonBlocks (lib/DataHazardAnalysis.cpp) in a small loop body: block 0
-- branches to 1 or 2, both go on to the latch 3; request 10 stands in block 1.
use elastic_sycl_hls.Prelude.{
  ℕ, ◌≡◌, ◌⊎◌, ◌==◌, refl, sym, arith, Bool, true, false, ◌&&◌, ◌||◌, if◌then◌else◌, some, List, [],
  ◌∷◌, ltb,
}
use elastic_sycl_hls.Prelude.Members.{member}
use elastic_sycl_hls.Flow.{
  FlowGraph, LoopInfo, reach_loop, is_reachable_within_loop, continuations, paths_loop,
  get_all_block_paths_in_loop,
}
use elastic_sycl_hls.Flow.Reach.{IsGraph}
use elastic_sycl_hls.Flow.Paths.{LoopPath, PathIn}
use elastic_sycl_hls.Flow.PathCount.{IsRanked, path_steps}
use elastic_sycl_hls.Poison.Blocks.{
  Location, has_location, insert_locations, poison_paths, calculate_poison_blocks, IsEnoughFor,
}
use elastic_sycl_hls.Poison.Edges.{on_path}
use elastic_sycl_hls.Poison.Covered.{
  EntryIn, IsSpeculation, IsPast, IsFoundOn, calculate_poison_blocks-covers,
}
use elastic_sycl_hls.Poison.Paths.{reaches, IsLoop, get_all_block_paths_in_loop-poisons}
use elastic_sycl_hls.Poison.{
  CfgEdge, edges_from, block_to_edge_path, add_request, requests_for_path, poison_at, poison_path,
  visit_groups,
}
use elastic_sycl_hls.Poison.Groups.{standing_in}
use elastic_sycl_hls.Poison.Once.{path_poisons}

abbrev block_of : ℕ → ℕ
block_of r = 1

abbrev goes_to : ℕ → ℕ → Bool
goes_to d t = (d == t) || ((d == 0) && ltb 0 t) || (ltb d 3 && (t == 3))

edge_paths :
    block_to_edge_path ((0 ∷ 1 ∷ 3 ∷ []) ∷ (0 ∷ []) ∷ []) ≡ ((0, 1) ∷ (1, 3) ∷ []) ∷ [] ∷ []
unfolding block_to_edge_path
edge_paths = refl

-- The poison is on the edge from 0 to 2.
poisoned_edge : path_poisons block_of goes_to (10 ∷ []) (0 ∷ 2 ∷ 3 ∷ []) 1 ≡ (10, (0, 2)) ∷ []
unfolding edges_from requests_for_path add_request poison_path
poisoned_edge = refl

-- The loop of the example, with block 4 behind it.
abbrev small_loop : FlowGraph
small_loop = record {
  blocks = 0 ∷ 1 ∷ 2 ∷ 3 ∷ 4 ∷ [];
  successors = λ b.
      if b == 0
      then 1 ∷ 2 ∷ []
      else if b == 3
      then 0 ∷ 4 ∷ []
      else if b == 4
      then []
      else if ltb b 3
      then 3 ∷ []
      else [];
  is_loop_header = λ b. b == 0;
}

abbrev small_body : LoopInfo
small_body = record { contains = λ b. ltb b 4; latch = 3 }

abbrev block_rank : ℕ → ℕ
block_rank b = if b == 0 then 3 else if b == 3 then 1 else if b == 4 then 0 else 2

small_loop-IsGraph : IsGraph small_loop
small_loop-IsGraph x y m e = ground arith

small_loop-IsRanked : IsRanked small_loop block_rank
small_loop-IsRanked x y e inner = ground arith

small_loop-IsLoop : IsLoop small_loop small_body
small_loop-IsLoop = (refl, λ x y e inner m. ground arith, λ x m. ground arith)

get_all_block_paths_in_loop-poisons_example :
    (paths : List (List ℕ)) × (get_all_block_paths_in_loop small_loop 20 0 3 ≡ some paths)
    × ((y : ℕ) (ys : List ℕ)
        → PathIn (y ∷ ys) paths
        → (member 1 (y ∷ ys) ≡ true
            → path_poisons block_of (reaches small_loop small_body) (10 ∷ []) (0 ∷ y ∷ ys) 1 ≡ [])
          × (member 1 (y ∷ ys) ≡ false
              → (e : CfgEdge) × (path_poisons block_of
                    (reaches small_loop small_body)
                    (10 ∷ [])
                    (0 ∷ y ∷ ys)
                    1
                  ≡ poison_at e (standing_in block_of 1 (10 ∷ [])))
                × (reaches small_loop small_body e.1 1 ≡ false)))
unfolding path_steps
get_all_block_paths_in_loop-poisons_example =
    get_all_block_paths_in_loop-poisons small_loop small_body block_rank block_of (10 ∷ []) 0 1 20
      small_loop-IsGraph small_loop-IsLoop small_loop-IsRanked (ground arith) refl refl

-- The one path that poisons the request is that over block 2.
abbrev speculated : List (ℕ × List ℕ)
speculated = (0, 10 ∷ []) ∷ []

small_loop-enough : IsEnoughFor small_loop block_of block_rank 20 speculated
unfolding path_steps
small_loop-enough b e = (let same : 0 ≡ b = ground arith in rw (sym same) (ground arith))

poison_locations :
    calculate_poison_blocks small_loop block_of 20 (λ b. small_body) speculated []
    ≡ some ((10, (0, 2)) ∷ [])
unfolding calculate_poison_blocks poison_paths insert_locations poison_path requests_for_path
    add_request edges_from get_all_block_paths_in_loop paths_loop continuations
    is_reachable_within_loop reach_loop visit_groups
poison_locations = refl

small_loop-IsSpeculation : IsSpeculation small_loop block_of (λ b. small_body) speculated
small_loop-IsSpeculation _ _ (EntryIn.here _) = (small_loop-IsLoop, refl, λ r m. refl)
small_loop-IsSpeculation b requests (EntryIn.there _ _ _ i) = elim i [ ]

calculate_poison_blocks-covers_example :
    (found : List Location) × (calculate_poison_blocks small_loop block_of 20
        (λ b. small_body)
        speculated
        []
      ≡ some found)
    × ((r : ℕ) (e : CfgEdge)
        → has_location (r, e) found ≡ true
        → (has_location (r, e) [] ≡ true)
          ⊎ IsFoundOn small_loop block_of (λ b. small_body) r e speculated)
    × ((r b y : ℕ) (requests ys : List ℕ)
        → EntryIn b requests speculated
        → member r requests ≡ true
        → LoopPath small_loop 3 b (y ∷ ys)
        → member 1 (y ∷ ys) ≡ false
        → (e : CfgEdge) × (has_location (r, e) found ≡ true)
          × (on_path e b (y ∷ ys) ≡ true)
          × IsPast small_loop block_of (λ b. small_body) b r e)
calculate_poison_blocks-covers_example =
    calculate_poison_blocks-covers small_loop block_of block_rank 20 (λ b. small_body) speculated []
      small_loop-IsGraph small_loop-IsRanked small_loop-enough small_loop-IsSpeculation

-- Block 0 branches to 1 or 2, block 1 to 3 or 4, block 2 goes on to 3, and 3 and 4 to the latch 5.
-- Request 10 stands in block 3, request 11 in block 4. On the path 0, 1, 3, 5 the visit of block 3 ends
-- the edge from 1 to 3 before request 11 is looked at, so that 11 is poisoned behind block 3; the path
-- 0, 2, 3, 5 then has two poisons of request 11.
abbrev joined_loop : FlowGraph
joined_loop = record {
  blocks = 0 ∷ 1 ∷ 2 ∷ 3 ∷ 4 ∷ 5 ∷ [];
  successors = λ b.
      if b == 0
      then 1 ∷ 2 ∷ []
      else if b == 1
      then 3 ∷ 4 ∷ []
      else if b == 2
      then 3 ∷ []
      else if b == 5
      then 0 ∷ []
      else 5 ∷ [];
  is_loop_header = λ b. b == 0;
}

poisoned_twice :
    calculate_poison_blocks joined_loop
      (λ r. if r == 10 then 3 else 4)
      20
      (λ b. record { contains = λ b. ltb b 6; latch = 5 })
      ((0, 10 ∷ 11 ∷ []) ∷ [])
      []
    ≡ some ((11, (3, 5)) ∷ (10, (1, 4)) ∷ (11, (0, 2)) ∷ [])
unfolding calculate_poison_blocks poison_paths insert_locations poison_path requests_for_path
    add_request edges_from get_all_block_paths_in_loop paths_loop continuations
    is_reachable_within_loop reach_loop visit_groups
poisoned_twice = refl
