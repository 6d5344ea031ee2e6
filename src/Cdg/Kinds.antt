-- ===== src/Cdg/Kinds.antt =====
-- getEdgeKind of lib/CDG.cpp: which branch direction an edge of the graph is labelled with.
use elastic_sycl_hls.Prelude.{ℕ, ◌≡◌, ◌≢◌, arith, true, if◌then◌else◌, some}
use elastic_sycl_hls.Prelude.Members.{member}
use elastic_sycl_hls.Cdg.Graph.{EdgeKind, Function, Terminator, successors}
use elastic_sycl_hls.Cdg.{get_edge_kind}
use elastic_sycl_hls.Cdg.Nodes.{FunctionLaws}

module _ (f : Function) (laws : FunctionLaws f) (a s t b : ℕ)
    (branch : f.terminator a ≡ Terminator.cond_br s t) where
  successors-first : member s (successors f a) ≡ true
  successors-first = rw branch (ground arith)

  successors-second : member t (successors f a) ≡ true
  successors-second = rw branch (ground arith)

  -- If A branches to S or T, a block reaches itself, and exactly one of S and T reaches B, then the
  -- kind is the direction of that one.
  pub get_edge_kind_only_way :
      ((x : ℕ) → f.is_potentially_reachable x x ≡ true)
      → f.is_potentially_reachable s b ≢ f.is_potentially_reachable t b
      → get_edge_kind f a b
        ≡ some (if f.is_potentially_reachable s b then EdgeKind.true_edge else EdgeKind.false_edge)
  unfolding get_edge_kind
  get_edge_kind_only_way self differ = rw branch (
      ground (
        arith,
        differ,
        self b,
        laws.reach_step a s b successors-first,
        laws.reach_step a t b successors-second,
      ))

  -- If A branches to S or T, neither of which is B, the branch to S can come back to A, and B
  -- post-dominates T, then the edge from A to B is labelled true, although it is the false branch
  -- that leads to B without fail.
  pub get_edge_kind_through_loop :
      ((x y z : ℕ)
        → f.is_potentially_reachable x y ≡ true
        → f.is_potentially_reachable y z ≡ true
        → f.is_potentially_reachable x z ≡ true)
      → s ≢ b
      → t ≢ b
      → f.is_potentially_reachable s a ≡ true
      → f.dominates b t ≡ true
      → get_edge_kind f a b ≡ some EdgeKind.true_edge
  unfolding get_edge_kind
  get_edge_kind_through_loop trans s≢b t≢b back dom =
      let far = laws.reach_step a t b successors-second (laws.reach_dominating t b dom) in
      rw branch (ground (arith, far, trans s a b back far, s≢b, t≢b))
