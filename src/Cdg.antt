-- ===== src/Cdg.antt =====
-- The control dependence graph, lib/CDG.cpp and include/CDG.h. An operation is `none` where the
-- source fails an assertion or follows a null pointer.
pub mod Graph
pub mod Nodes
pub mod Construction
pub mod Sources
pub mod Ferrante
pub mod Kinds
mod Tests
use elastic_sycl_hls.Prelude.{
  ℕ, ltb, ◌==◌, Bool, true, false, not, if◌then◌else◌, Option, none, some, List, [], ◌∷◌, ◌++◌,
  length, ◌>>=◌,
}
use elastic_sycl_hls.Prelude.Members.{
  any, filter, member, any-append, any-witness, any-of_member, distinct,
}
use Graph.{EdgeKind, CdgNode, DirectedGraph, Function, Terminator, successors, same_node}

-- The fields of class ControlDependenceGraph.
pub record ControlDependenceGraph (D : DirectedGraph) : Type 0 where
  pub graph : D.Graph
  pub root : Option CdgNode

-- `if (isa<RootCDGNode>(N)) Root = &N`.
abbrev new_root : CdgNode → Option CdgNode → Option CdgNode
new_root CdgNode.root_node root = some CdgNode.root_node
new_root (CdgNode.block_node b) root = root

module _ (f : Function) where
  -- The private `isControlDependent(B, A, PDT)`.
  unfoldable pub is_control_dependent : ℕ → ℕ → Bool
  is_control_dependent b a =
      if f.properly_dominates b a then false else any (λ s. f.dominates b s) (successors f a)

  -- Both cases for a branch with the successor `s` and, if `numSucc > 1`, the successor `t`.
  unfoldable pub branch_edge_kind : ℕ → Option ℕ → ℕ → Option EdgeKind
  branch_edge_kind s none b =
      if s == b
      then some EdgeKind.true_edge
      else if f.is_potentially_reachable s b
      then some EdgeKind.true_edge
      else none
  branch_edge_kind s (some t) b =
      if s == b
      then some EdgeKind.true_edge
      else if t == b
      then some EdgeKind.false_edge
      else if f.is_potentially_reachable s b
      then some EdgeKind.true_edge
      else if f.is_potentially_reachable t b
      then some EdgeKind.false_edge
      else none

  unfoldable pub terminator_edge_kind : Terminator → ℕ → Option EdgeKind
  unfolding branch_edge_kind
  terminator_edge_kind (Terminator.br s) b = branch_edge_kind s none b
  terminator_edge_kind (Terminator.cond_br s t) b = branch_edge_kind s (some t) b
  terminator_edge_kind (Terminator.other_terminator ss) b = none

  unfoldable pub get_edge_kind : ℕ → ℕ → Option EdgeKind
  unfolding terminator_edge_kind
  get_edge_kind a b =
      if f.is_potentially_reachable a b then terminator_edge_kind (f.terminator a) b else none

  unfoldable pub edge_kind : CdgNode → CdgNode → Option EdgeKind
  unfolding get_edge_kind
  edge_kind CdgNode.root_node tgt = some EdgeKind.rooted
  edge_kind (CdgNode.block_node a) (CdgNode.block_node b) = get_edge_kind a b
  edge_kind (CdgNode.block_node a) CdgNode.root_node = none

module _ (f : Function) (D : DirectedGraph) where
  unfoldable pub create_edge : CdgNode → CdgNode → D.Graph → Option D.Graph
  unfolding edge_kind
  create_edge src tgt g = do k ← edge_kind f src tgt; some (D.connect src tgt k g)

  abbrev pub first_block : ℕ → List CdgNode → Option CdgNode
  first_block b [] = none
  first_block b (CdgNode.root_node ∷ ns) = first_block b ns
  first_block b (CdgNode.block_node c ∷ ns) =
      if c == b then some (CdgNode.block_node c) else first_block b ns

  unfoldable pub get_block_node : ℕ → D.Graph → Option CdgNode
  get_block_node b g = first_block b (D.nodes g)

  -- The body of `for (auto &predBB : F)`, with `isControlDependentOnAny`.
  unfoldable pub link_pred : ℕ → ℕ → D.Graph × Bool → Option (D.Graph × Bool)
  unfolding create_edge get_block_node
  link_pred b a (g, dependent) =
      if is_control_dependent f b a
      then (do
        b_node ← get_block_node b g
        a_node ← get_block_node a g
        g' ← create_edge a_node b_node g
        some (g', true))
      else some (g, dependent)

  unfoldable pub link_preds : ℕ → List ℕ → D.Graph × Bool → Option (D.Graph × Bool)
  unfolding link_pred
  link_preds b [] s = some s
  link_preds b (a ∷ preds) s = do s' ← link_pred b a s; link_preds b preds s'

  -- The body of the second `for (auto &BB : F)`.
  unfoldable pub link_block : CdgNode → ℕ → D.Graph → Option D.Graph
  unfolding link_preds
  link_block root b g = do
    (g', dependent) ← link_preds b f.blocks (g, false)
    b_node ← get_block_node b g'
    if dependent then some g' else create_edge root b_node g'

  unfoldable pub link_blocks : CdgNode → List ℕ → D.Graph → Option D.Graph
  unfolding link_block
  link_blocks root [] g = some g
  link_blocks root (b ∷ bs) g = do g' ← link_block root b g; link_blocks root bs g'

  unfoldable pub add_node : CdgNode → ControlDependenceGraph D → ControlDependenceGraph D
  add_node n c =
      let (g', added) = D.add_node n c.graph in
      record { graph = g'; root = if added then new_root n c.root else c.root }

  unfoldable pub create_block_nodes : List ℕ → ControlDependenceGraph D → ControlDependenceGraph D
  unfolding add_node
  create_block_nodes [] c = c
  create_block_nodes (b ∷ bs) c = create_block_nodes bs (add_node (CdgNode.block_node b) c)

  -- The nodes that `calculateCDG` starts with.
  unfoldable pub created : ControlDependenceGraph D
  unfolding add_node create_block_nodes
  created =
      create_block_nodes f.blocks
        (add_node CdgNode.root_node (record { graph = D.empty; root = none }))

  unfoldable pub calculate_cdg : Option (ControlDependenceGraph D)
  unfolding link_blocks created
  calculate_cdg = do
    g ← link_blocks CdgNode.root_node f.blocks created.graph
    some (record { graph = g; root = created.root })

  -- The public `isControlDependent(B, A)`.
  unfoldable pub depends_on : ControlDependenceGraph D → ℕ → ℕ → Option Bool
  unfolding get_block_node
  depends_on c b a = do
    b_node ← get_block_node b c.graph
    a_node ← get_block_node a c.graph
    some (D.has_edge_to a_node b_node c.graph)

  unfoldable pub has_edges : CdgNode → CdgNode → D.Graph → Bool
  has_edges n tgt g = ltb 0 (length (D.find_edges_to n tgt g))

  -- The first block among the nodes with an edge to the node.
  unfoldable pub first_source : CdgNode → D.Graph → List CdgNode → Option ℕ
  unfolding has_edges
  first_source tgt g [] = none
  first_source tgt g (CdgNode.root_node ∷ ns) = first_source tgt g ns
  first_source tgt g (CdgNode.block_node a ∷ ns) =
      if has_edges (CdgNode.block_node a) tgt g then some a else first_source tgt g ns

  -- `nullptr` is the inner `none`.
  unfoldable pub get_control_dependency_source : ControlDependenceGraph D → ℕ → Option (Option ℕ)
  unfolding first_source get_block_node
  get_control_dependency_source c b = do
    node ← get_block_node b c.graph
    root ← c.root
    some (
        if D.has_edge_to root node c.graph
        then none
        else first_source node c.graph (D.nodes c.graph))

  -- `Result.insert` of a SetVector.
  abbrev pub set_insert : ℕ → List ℕ → List ℕ
  set_insert a result = if member a result then result else result ++ a ∷ []

  unfoldable pub all_sources : CdgNode → D.Graph → List CdgNode → List ℕ → List ℕ
  unfolding has_edges
  all_sources tgt g [] result = result
  all_sources tgt g (CdgNode.root_node ∷ ns) result = all_sources tgt g ns result
  all_sources tgt g (CdgNode.block_node a ∷ ns) result =
      all_sources tgt g ns
        (if has_edges (CdgNode.block_node a) tgt g then set_insert a result else result)

  unfoldable pub get_control_dependency_sources : ControlDependenceGraph D → ℕ → Option (List ℕ)
  unfolding all_sources get_block_node
  get_control_dependency_sources c b = do
    node ← get_block_node b c.graph
    root ← c.root
    some (
        if D.has_edge_to root node c.graph
        then []
        else all_sources node c.graph (D.nodes c.graph) [])
