-- ===== src/Flow.antt =====
-- The control flow graph as the helpers of include/CommonLLVM.h and the analyses of
-- lib/DataHazardAnalysis.cpp see it: isReachableWithinLoop and getAllBlockPathsInLoop. Blocks are
-- numbers. A loop that runs out of its fuel gives `none`.
pub mod Search
pub mod Reach
pub mod Paths
pub mod AllPaths
pub mod PathCount
mod Tests
use elastic_sycl_hls.Prelude.{
  ℕ, zero, suc, ◌+◌, ◌==◌, Bool, true, false, not, ◌&&◌, if◌then◌else◌, Option, none, some, List,
  [], ◌∷◌, ◌++◌, length,
}
use elastic_sycl_hls.Prelude.Members.{any, member}

-- What LLVM says of a function: its blocks, their successors, and the headers of its loops.
pub record FlowGraph : Type 0 where
  pub blocks : List ℕ
  pub successors : ℕ → List ℕ
  pub is_loop_header : ℕ → Bool

-- A loop: its blocks and its latch.
pub record LoopInfo : Type 0 where
  pub contains : ℕ → Bool
  pub latch : ℕ

-- `worklist.append(succ_begin, succ_end)`: the back of the worklist is the front of the list.
abbrev pub push_all : List ℕ → List ℕ → List ℕ
push_all [] ws = ws
push_all (s ∷ ss) ws = push_all ss (s ∷ ws)

module _ (f : FlowGraph) where
  -- The loop of isReachableWithinLoop.
  unfoldable pub reach_loop : ℕ → ℕ → ℕ → List ℕ → List ℕ → Option Bool
  reach_loop zero stop to visited ws = none
  reach_loop (suc fuel) stop to visited [] = some false
  reach_loop (suc fuel) stop to visited (c ∷ ws) =
      let skip = reach_loop fuel stop to visited ws in
      let expand = reach_loop fuel stop to (c ∷ visited) (push_all (f.successors c) ws) in
      if c == to
      then some true
      else if c == stop
      then skip
      else if member c visited
      then skip
      else expand

  -- The successors of the blocks that are not visited, and one for each such block.
  abbrev pub unvisited_edges : List ℕ → List ℕ → ℕ
  unvisited_edges visited [] = 0
  unvisited_edges visited (b ∷ bs) =
      (if member b visited then 0 else suc (length (f.successors b))) + unvisited_edges visited bs

  -- `none` where an assertion fails. Each block is expanded at most once, so the fuel is enough.
  unfoldable pub is_reachable_within_loop : ℕ → ℕ → LoopInfo → Option Bool
  unfolding reach_loop
  is_reachable_within_loop from to l =
      if not (l.contains from && l.contains to)
      then none
      else if l.latch == to
      then some true
      else reach_loop (suc (suc (unvisited_edges [] f.blocks))) l.latch to [] (from ∷ [])

  -- The blocks after the first of the paths that continue a path: `b` is the first block.
  abbrev pub back : ℕ → List ℕ → ℕ
  back b [] = b
  back b (x ∷ xs) = back x xs

  -- The queue of the paths that go on from a path, `Queue.push(Continuation)`.
  unfoldable pub continuations : List ℕ → List ℕ → List (List ℕ)
  continuations path [] = []
  continuations path (s ∷ ss) =
      let rest = continuations path ss in
      if f.is_loop_header s then rest else (path ++ s ∷ []) ∷ rest

  -- The loop of getAllBlockPathsInLoop. All paths start with `b`; a path is given without it.
  unfoldable pub paths_loop : ℕ → ℕ → ℕ → List (List ℕ) → List (List ℕ) → Option (List (List ℕ))
  unfolding continuations
  paths_loop zero b stop queue all = none
  paths_loop (suc fuel) b stop [] all = some all
  paths_loop (suc fuel) b stop (p ∷ queue) all =
      let found = paths_loop fuel b stop queue (all ++ p ∷ []) in
      let go_on = paths_loop fuel b stop (queue ++ continuations p (f.successors (back b p))) all in
      if back b p == stop then found else go_on

  -- `stop` is the latch of the loop of `b`, or the block that returns.
  unfoldable pub get_all_block_paths_in_loop : ℕ → ℕ → ℕ → Option (List (List ℕ))
  unfolding paths_loop
  get_all_block_paths_in_loop fuel b stop = paths_loop fuel b stop ([] ∷ []) []
