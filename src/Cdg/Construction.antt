-- ===== src/Cdg/Construction.antt =====
-- calculateCDG of lib/CDG.cpp: the edges of the graph that it builds.
use elastic_sycl_hls.Prelude.{
  ℕ, ◌≡◌, ltb, ◌∙◌, refl, arith, Bool, true, false, not, ◌&&◌, ◌||◌, if◌then◌else◌, some, List, [],
  ◌∷◌, ◌++◌, length, Bool-cases, inl, inr,
}
use elastic_sycl_hls.Prelude.Members.{any, member}
use elastic_sycl_hls.Cdg.Graph.{EdgeKind, CdgNode, DirectedGraph, GraphLaws, Function, same_node}
use elastic_sycl_hls.Cdg.{
  ControlDependenceGraph, is_control_dependent, edge_kind, create_edge, link_pred, link_preds,
  link_block, link_blocks, created, calculate_cdg,
}
use elastic_sycl_hls.Cdg.Nodes.{
  FunctionLaws, get_edge_kind-found, all_nodes, get_block_node-some, created-nodes,
}

some_edge :
    (ks : List EdgeKind) (c : Bool) (k : EdgeKind)
    → ltb 0 (length (ks ++ (if c then k ∷ [] else []))) ≡ (ltb 0 (length ks) || c)
some_edge [] true k = refl
some_edge [] false k = refl
some_edge (x ∷ ks) c k = ground arith

module _ (f : Function) (D : DirectedGraph) (laws : GraphLaws D) (f_laws : FunctionLaws f) where
  has_edge-connect :
      (s t s' t' : CdgNode) (k : EdgeKind) (g : D.Graph)
      → D.has_edge_to s t (D.connect s' t' k g)
        ≡ (D.has_edge_to s t g || (same_node s s' && same_node t t'))
  has_edge-connect s t s' t' k g =
      rw
        (
          laws.has_find s t (D.connect s' t' k g),
          laws.has_find s t g,
          laws.find_connect s t s' t' k g,
        )
        (some_edge (D.find_edges_to s t g) (same_node s s' && same_node t t') k)

  -- From which nodes the blocks of a list make an edge to `b`.
  abbrev depends_from : ℕ → List ℕ → CdgNode → Bool
  depends_from b preds s =
      any (λ a. same_node s (CdgNode.block_node a) && is_control_dependent f b a) preds

  -- A step gives a graph with the same nodes, and with the edges that `added` says.
  abbrev Adds : D.Graph → D.Graph → (CdgNode → CdgNode → Bool) → Type 0
  Adds g g' added =
      (D.nodes g' ≡ D.nodes g)
      × ((s t : CdgNode) → D.has_edge_to s t g' ≡ (D.has_edge_to s t g || added s t))

  link_pred-Adds :
      (b a : ℕ) (g : D.Graph) (dependent : Bool)
      → D.nodes g ≡ all_nodes f
      → member b f.blocks ≡ true
      → member a f.blocks ≡ true
      → (g' : D.Graph) × (link_pred f D b a (g, dependent)
          ≡ some (g', is_control_dependent f b a || dependent))
        × Adds g g' (λ s t. same_node t (CdgNode.block_node b) && depends_from b (a ∷ []) s)
  unfolding link_pred create_edge edge_kind
  link_pred-Adds b a g dependent ns mb ma = elim (Bool-cases (is_control_dependent f b a)) [
    | inl e ↦
        (let (k, found) = get_edge_kind-found f f_laws a b e in
          let node_b = get_block_node-some f D b g ns mb in
          let node_a = get_block_node-some f D a g ns ma in
          (
            D.connect (CdgNode.block_node a) (CdgNode.block_node b) k g,
            ground (arith, node_a, node_b, found),
            (
              laws.nodes_connect (CdgNode.block_node a) (CdgNode.block_node b) k g,
              λ s t.
                  ground
                    (arith, has_edge-connect s t (CdgNode.block_node a) (CdgNode.block_node b) k g),
            ),
          ))
    | inr e ↦ (g, ground arith, (refl, λ s t. ground arith))
  ]

  link_preds-Adds :
      (b : ℕ) (preds : List ℕ) (g : D.Graph) (dependent : Bool)
      → D.nodes g ≡ all_nodes f
      → member b f.blocks ≡ true
      → ((a : ℕ) → member a preds ≡ true → member a f.blocks ≡ true)
      → (g' : D.Graph) × (link_preds f D b preds (g, dependent)
          ≡ some (g', any (is_control_dependent f b) preds || dependent))
        × Adds g g' (λ s t. same_node t (CdgNode.block_node b) && depends_from b preds s)
  unfolding link_preds
  link_preds-Adds b [] g dependent ns mb sub = (g, refl, (refl, λ s t. ground arith))
  link_preds-Adds b (a ∷ preds) g dependent ns mb sub =
      let (g₁, e₁, (ns₁, es₁)) = link_pred-Adds b a g dependent ns mb (sub a (ground arith)) in
      let (g₂, e₂, (ns₂, es₂)) =
        link_preds-Adds b preds g₁ (is_control_dependent f b a || dependent) (ns₁ ∙ ns) mb
          (λ x m. sub x (ground arith)) in
      (g₂, ground (arith, e₁, e₂), (ns₂ ∙ ns₁, λ s t. ground (arith, es₁ s t, es₂ s t)))

  -- Where the edges to `b` come from.
  abbrev edge_into : ℕ → CdgNode → Bool
  edge_into b s =
      depends_from b f.blocks s
      || (same_node s CdgNode.root_node && not (any (is_control_dependent f b) f.blocks))

  link_block-Adds :
      (b : ℕ) (g : D.Graph)
      → D.nodes g ≡ all_nodes f
      → member b f.blocks ≡ true
      → (g' : D.Graph) × (link_block f D CdgNode.root_node b g ≡ some g')
        × Adds g g' (λ s t. same_node t (CdgNode.block_node b) && edge_into b s)
  unfolding link_block create_edge edge_kind
  link_block-Adds b g ns mb =
      let (g₁, e₁, (ns₁, es₁)) = link_preds-Adds b f.blocks g false ns mb (λ a m. m) in
      let node_b = get_block_node-some f D b g₁ (ns₁ ∙ ns) mb in
      elim (Bool-cases (any (is_control_dependent f b) f.blocks)) [
        | inl e ↦ (g₁, ground (arith, e₁, node_b), (ns₁, λ s t. ground (arith, es₁ s t)))
        | inr e ↦ (
          D.connect CdgNode.root_node (CdgNode.block_node b) EdgeKind.rooted g₁,
          ground (arith, e₁, node_b),
          (
            laws.nodes_connect CdgNode.root_node (CdgNode.block_node b) EdgeKind.rooted g₁ ∙ ns₁,
            λ s t. ground (
              arith,
              es₁ s t,
              has_edge-connect s t CdgNode.root_node (CdgNode.block_node b) EdgeKind.rooted g₁,
            ),
          ),
        )
      ]

  link_blocks-Adds :
      (bs : List ℕ) (g : D.Graph)
      → D.nodes g ≡ all_nodes f
      → ((b : ℕ) → member b bs ≡ true → member b f.blocks ≡ true)
      → (g' : D.Graph) × (link_blocks f D CdgNode.root_node bs g ≡ some g')
        × Adds g g' (λ s t. any (λ b. same_node t (CdgNode.block_node b) && edge_into b s) bs)
  unfolding link_blocks
  link_blocks-Adds [] g ns sub = (g, refl, (refl, λ s t. ground arith))
  link_blocks-Adds (b ∷ bs) g ns sub =
      let (g₁, e₁, (ns₁, es₁)) = link_block-Adds b g ns (sub b (ground arith)) in
      let (g₂, e₂, (ns₂, es₂)) = link_blocks-Adds bs g₁ (ns₁ ∙ ns) (λ x m. sub x (ground arith)) in
      (g₂, ground (arith, e₁, e₂), (ns₂ ∙ ns₁, λ s t. ground (arith, es₁ s t, es₂ s t)))

  any-same :
      (b : ℕ) (p : ℕ → Bool) (bs : List ℕ)
      → any (λ x. same_node (CdgNode.block_node b) (CdgNode.block_node x) && p x) bs
        ≡ (member b bs && p b)
  unfolding same_node
  any-same b p [] = refl
  any-same b p (x ∷ bs) = ground (arith, any-same b p bs)

  no_dependence_on_root : (b : ℕ) (preds : List ℕ) → depends_from b preds CdgNode.root_node ≡ false
  unfolding same_node
  no_dependence_on_root b [] = refl
  no_dependence_on_root b (a ∷ preds) = ground (arith, no_dependence_on_root b preds)

  edge_into-block :
      (b a : ℕ)
      → edge_into b (CdgNode.block_node a) ≡ (member a f.blocks && is_control_dependent f b a)
  unfolding same_node
  edge_into-block b a = ground (arith, any-same a (is_control_dependent f b) f.blocks)

  edge_into-root :
      (b : ℕ) → edge_into b CdgNode.root_node ≡ not (any (is_control_dependent f b) f.blocks)
  unfolding same_node
  edge_into-root b = ground (arith, no_dependence_on_root b f.blocks)

  -- The graph that the constructor builds.
  pub calculate_cdg-has_edge :
      (c : ControlDependenceGraph D) × (calculate_cdg f D ≡ some c)
      × (D.nodes c.graph ≡ all_nodes f)
      × (c.root ≡ some CdgNode.root_node)
      × ((a b : ℕ)
          → member a f.blocks ≡ true
          → member b f.blocks ≡ true
          → D.has_edge_to (CdgNode.block_node a) (CdgNode.block_node b) c.graph
            ≡ is_control_dependent f b a)
      × ((b : ℕ)
          → member b f.blocks ≡ true
          → D.has_edge_to CdgNode.root_node (CdgNode.block_node b) c.graph
            ≡ not (any (is_control_dependent f b) f.blocks))
  unfolding calculate_cdg
  calculate_cdg-has_edge =
      let (ns₀, r₀, es₀) = created-nodes f D laws f_laws.distinct_blocks in
      let (g, e, (ns, es)) = link_blocks-Adds f.blocks (created f D).graph ns₀ (λ b m. m) in
      let edges : (s : CdgNode) (b : ℕ)
          → member b f.blocks ≡ true
          → D.has_edge_to s (CdgNode.block_node b) g ≡ edge_into b s =
        λ s b mb.
          (let before : D.has_edge_to s (CdgNode.block_node b) (created f D).graph ≡ false =
              rw
                (
                  laws.has_find s (CdgNode.block_node b) (created f D).graph,
                  es₀ s (CdgNode.block_node b),
                )
                refl in
            ground (
              arith,
              es s (CdgNode.block_node b),
              before,
              any-same b (λ x. edge_into x s) f.blocks,
            )) in
      (
        record { graph = g; root = (created f D).root },
        ground (arith, e),
        ns ∙ ns₀,
        r₀,
        λ a b ma mb. edges (CdgNode.block_node a) b mb ∙ edge_into-block b a ∙ ground (arith, ma),
        λ b mb. edges CdgNode.root_node b mb ∙ edge_into-root b,
      )
