-- ===== src/Cdg/Nodes.antt =====
-- The nodes of a control dependence graph (createRootNode, createBlockNode, addNode and
-- getBlockNode of include/CDG.h and lib/CDG.cpp), and the edge kind of a dependence.
use elastic_sycl_hls.Prelude.{
  ℕ, ◌≡◌, ◌≢◌, ◌∙◌, ap, sym, refl, arith, true, false, Option, none, some, List, [], ◌∷◌, ◌++◌, map,
}
use elastic_sycl_hls.Prelude.Members.{any, member, any-append, any-witness, distinct}
use mathlib.Core.List.{append-nil, append_assoc}
use elastic_sycl_hls.Cdg.Graph.{
  EdgeKind, CdgNode, DirectedGraph, GraphLaws, Function, Terminator, successors, same_node,
  terminator_successors,
}
use elastic_sycl_hls.Cdg.{
  ControlDependenceGraph, is_control_dependent, terminator_edge_kind, get_edge_kind, first_block,
  get_block_node, add_node, create_block_nodes, created,
}

-- What the construction relies on: the blocks of a function are different objects, no block ends in
-- a switch, and what LLVM documents of reachability and of post-domination.
pub record FunctionLaws (f : Function) : Type 0 where
  pub distinct_blocks : distinct f.blocks ≡ true
  pub no_switch : (a : ℕ) (ss : List ℕ) → f.terminator a ≡ Terminator.other_terminator ss → ss ≡ []
  pub reach_dominating : (s b : ℕ) → f.dominates b s ≡ true → f.is_potentially_reachable s b ≡ true
  pub reach_step :
      (a s b : ℕ)
      → member s (successors f a) ≡ true
      → f.is_potentially_reachable s b ≡ true
      → f.is_potentially_reachable a b ≡ true

some_of : {A : Type 0} (o : Option A) → o ≢ none → (a : A) × (o ≡ some a)
some_of none h = elim (h refl) [ ]
some_of (some a) h = (a, refl)

module _ (f : Function) (laws : FunctionLaws f) where
  terminator_edge_kind-found :
      (t : Terminator) (s b : ℕ)
      → ((ss : List ℕ) → t ≡ Terminator.other_terminator ss → ss ≡ [])
      → member s (terminator_successors t) ≡ true
      → f.is_potentially_reachable s b ≡ true
      → terminator_edge_kind f t b ≢ none
  unfolding terminator_edge_kind
  terminator_edge_kind-found (Terminator.br x) s b none_other next near = ground arith
  terminator_edge_kind-found (Terminator.cond_br x y) s b none_other next near = ground arith
  terminator_edge_kind-found (Terminator.other_terminator ss) s b none_other next near =
      ground (arith, none_other ss refl)

  -- The edge kind of a dependence is found.
  pub get_edge_kind-found :
      (a b : ℕ)
      → is_control_dependent f b a ≡ true
      → (k : EdgeKind) × (get_edge_kind f a b ≡ some k)
  unfolding get_edge_kind is_control_dependent
  get_edge_kind-found a b dep =
      let (s, next, dom) = any-witness (λ s. f.dominates b s) (successors f a) (ground arith) in
      let near = laws.reach_dominating s b dom in
      let far = laws.reach_step a s b next near in
      let found = terminator_edge_kind-found (f.terminator a) s b (laws.no_switch a) next near in
      some_of (get_edge_kind f a b) (ground (arith, far, found))

-- Every block has its node, and the root its own.
abbrev pub block_nodes : List ℕ → List CdgNode
block_nodes bs = map CdgNode.block_node bs

abbrev pub all_nodes : Function → List CdgNode
all_nodes f = CdgNode.root_node ∷ block_nodes f.blocks

module _ (f : Function) (D : DirectedGraph) where
  first_block-map :
      (b : ℕ) (bs : List ℕ)
      → member b bs ≡ true
      → first_block f D b (block_nodes bs) ≡ some (CdgNode.block_node b)
  first_block-map b [] m = ground arith
  first_block-map b (c ∷ bs) m = ground (arith, first_block-map b bs)

  pub get_block_node-some :
      (b : ℕ) (g : D.Graph)
      → D.nodes g ≡ all_nodes f
      → member b f.blocks ≡ true
      → get_block_node f D b g ≡ some (CdgNode.block_node b)
  unfolding get_block_node
  get_block_node-some b g e m = rw e (first_block-map b f.blocks m)

fresh-append :
    (b : ℕ) (bs : List ℕ) (ns : List CdgNode)
    → any (λ x. any (same_node (CdgNode.block_node x)) ns) bs ≡ false
    → member b bs ≡ false
    → any (λ x. any (same_node (CdgNode.block_node x)) (ns ++ CdgNode.block_node b ∷ [])) bs ≡ false
unfolding same_node
fresh-append b [] ns new m = refl
fresh-append b (x ∷ bs) ns new m = ground (
  arith,
  fresh-append b bs ns,
  any-append (same_node (CdgNode.block_node x)) ns (CdgNode.block_node b ∷ []),
)

module _ (f : Function) (D : DirectedGraph) (laws : GraphLaws D) where
  -- The nodes and the edges after some blocks' nodes are created.
  create_block_nodes-nodes :
      (bs : List ℕ) (c : ControlDependenceGraph D)
      → distinct bs ≡ true
      → any (λ b. any (same_node (CdgNode.block_node b)) (D.nodes c.graph)) bs ≡ false
      → (D.nodes (create_block_nodes f D bs c).graph ≡ D.nodes c.graph ++ block_nodes bs)
        × ((create_block_nodes f D bs c).root ≡ c.root)
        × ((s t : CdgNode)
            → D.find_edges_to s t (create_block_nodes f D bs c).graph ≡ D.find_edges_to s t c.graph)
  unfolding create_block_nodes add_node
  create_block_nodes-nodes [] c d new = (sym (append-nil (D.nodes c.graph)), refl, λ s t. refl)
  create_block_nodes-nodes (b ∷ bs) c d new =
      let (nodes, added) = laws.nodes_add (CdgNode.block_node b) c.graph (ground arith) in
      let fresh = fresh-append b bs (D.nodes c.graph) (ground arith) (ground arith) in
      let (ns, r, es) =
        create_block_nodes-nodes bs (add_node f D (CdgNode.block_node b) c) (ground arith)
          (rw nodes fresh) in
      (
        ns
            ∙ ap (λ xs. xs ++ block_nodes bs) nodes
            ∙ append_assoc (D.nodes c.graph) (CdgNode.block_node b ∷ []) (block_nodes bs),
        r ∙ rw added refl,
        λ s t. es s t ∙ laws.find_add s t (CdgNode.block_node b) c.graph,
      )

  not_root :
      (bs : List ℕ)
      → any (λ b. any (same_node (CdgNode.block_node b)) (CdgNode.root_node ∷ [])) bs ≡ false
  unfolding same_node
  not_root [] = refl
  not_root (b ∷ bs) = ground (arith, not_root bs)

  -- The graph before any edge is created.
  pub created-nodes :
      distinct f.blocks ≡ true
      → (D.nodes (created f D).graph ≡ all_nodes f)
        × ((created f D).root ≡ some CdgNode.root_node)
        × ((s t : CdgNode) → D.find_edges_to s t (created f D).graph ≡ [])
  unfolding created add_node
  created-nodes d =
      let (nodes, added) = laws.nodes_add CdgNode.root_node D.empty (rw laws.nodes_empty refl) in
      let is_root : D.nodes (D.add_node CdgNode.root_node D.empty).0 ≡ CdgNode.root_node ∷ [] =
        nodes ∙ ap (λ xs. xs ++ CdgNode.root_node ∷ []) laws.nodes_empty in
      let (ns, r, es) =
        create_block_nodes-nodes f.blocks
          (add_node f D CdgNode.root_node (record { graph = D.empty; root = none })) d
          (rw is_root (not_root f.blocks)) in
      (
        ns ∙ ap (λ xs. xs ++ block_nodes f.blocks) is_root,
        r ∙ rw added refl,
        λ s t. es s t ∙ laws.find_add s t CdgNode.root_node D.empty ∙ laws.find_empty s t,
      )
