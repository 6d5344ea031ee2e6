-- ===== src/Cdg/Sources.antt =====
-- The queries of the control dependence graph (isControlDependent, getControlDependencySource and
-- getControlDependencySources of lib/CDG.cpp and include/CDG.h) on the graph that calculateCDG
-- builds.
use elastic_sycl_hls.Prelude.{
  ℕ, ◌≡◌, ◌==◌, ◌∙◌, sym, refl, arith, Bool, true, false, ◌||◌, Option, none, some, List, [], ◌∷◌,
  ◌++◌, Bool-cases, inl, inr,
}
use elastic_sycl_hls.Prelude.Members.{any, filter, member, distinct}
use mathlib.Core.List.{append-nil, append_assoc}
use elastic_sycl_hls.Cdg.Graph.{CdgNode, DirectedGraph, GraphLaws, Function}
use elastic_sycl_hls.Cdg.{
  ControlDependenceGraph, is_control_dependent, calculate_cdg, depends_on, has_edges, first_source,
  get_control_dependency_source, all_sources, get_control_dependency_sources,
}
use elastic_sycl_hls.Cdg.Nodes.{FunctionLaws, block_nodes, get_block_node-some}
use elastic_sycl_hls.Cdg.Construction.{calculate_cdg-has_edge}

abbrev pub head? : List ℕ → Option ℕ
head? [] = none
head? (x ∷ xs) = some x

-- The sources that the definition of control dependence gives, in the order of the blocks.
abbrev pub expected_sources : Function → ℕ → List ℕ
expected_sources f b = filter (is_control_dependent f b) f.blocks

filter-none : (p : ℕ → Bool) (xs : List ℕ) → any p xs ≡ false → filter p xs ≡ []
filter-none p [] e = refl
filter-none p (x ∷ xs) e = ground (arith, filter-none p xs)

member-append : (x a : ℕ) (r : List ℕ) → member x (r ++ a ∷ []) ≡ (member x r || (a == x))
member-append x a [] = ground arith
member-append x a (y ∷ r) = ground (arith, member-append x a r)

new-append :
    (a : ℕ) (bs result : List ℕ)
    → any (λ x. member x result) bs ≡ false
    → member a bs ≡ false
    → any (λ x. member x (result ++ a ∷ [])) bs ≡ false
new-append a [] result new m = refl
new-append a (x ∷ bs) result new m =
    ground (arith, member-append x a result, new-append a bs result)

nothing_yet : (bs : List ℕ) → any (λ x. member x []) bs ≡ false
nothing_yet [] = refl
nothing_yet (b ∷ bs) = nothing_yet bs

module _ (f : Function) (D : DirectedGraph) (laws : GraphLaws D) (g : D.Graph) (b : ℕ)
    (edges : (a : ℕ)
      → member a f.blocks ≡ true
      → D.has_edge_to (CdgNode.block_node a) (CdgNode.block_node b) g
        ≡ is_control_dependent f b a) where
  has_edges-dependent :
      (a : ℕ)
      → member a f.blocks ≡ true
      → has_edges f D (CdgNode.block_node a) (CdgNode.block_node b) g ≡ is_control_dependent f b a
  unfolding has_edges
  has_edges-dependent a m =
      sym (laws.has_find (CdgNode.block_node a) (CdgNode.block_node b) g) ∙ edges a m

  first_source-head :
      (bs : List ℕ)
      → ((a : ℕ) → member a bs ≡ true → member a f.blocks ≡ true)
      → first_source f D (CdgNode.block_node b) g (block_nodes bs)
        ≡ head? (filter (is_control_dependent f b) bs)
  unfolding first_source
  first_source-head [] sub = refl
  first_source-head (a ∷ bs) sub = ground (
    arith,
    has_edges-dependent a (sub a (ground arith)),
    first_source-head bs (λ x m. sub x (ground arith)),
  )

  -- No block of the list is a source that was found before.
  all_sources-filter :
      (bs result : List ℕ)
      → distinct bs ≡ true
      → any (λ a. member a result) bs ≡ false
      → ((a : ℕ) → member a bs ≡ true → member a f.blocks ≡ true)
      → all_sources f D (CdgNode.block_node b) g (block_nodes bs) result
        ≡ result ++ filter (is_control_dependent f b) bs
  unfolding all_sources
  all_sources-filter [] result d new sub = sym (append-nil result)
  all_sources-filter (a ∷ bs) result d new sub =
      let is_source = has_edges-dependent a (sub a (ground arith)) in
      elim (Bool-cases (is_control_dependent f b a)) [
        | inl e ↦
            (let rest =
                all_sources-filter bs (result ++ a ∷ []) (ground arith)
                  (new-append a bs result (ground arith) (ground arith))
                  (λ x m. sub x (ground arith)) in
              ground (
                arith,
                is_source,
                rest,
                append_assoc result (a ∷ []) (filter (is_control_dependent f b) bs),
              ))
        | inr e ↦
            (let rest =
                all_sources-filter bs result (ground arith) (ground arith)
                  (λ x m. sub x (ground arith)) in
              ground (arith, is_source, rest))
      ]

module _ (f : Function) (D : DirectedGraph) (laws : GraphLaws D) (f_laws : FunctionLaws f) where
  -- For a function whose blocks are distinct and without a switch: the graph is built, with an edge
  -- from A to B exactly if B is control dependent on A; the sources of B are the blocks that it
  -- depends on, each once and in the order of the function, and the single source is the first
  -- of them.
  pub calculate_cdg-sources :
      (c : ControlDependenceGraph D) × (calculate_cdg f D ≡ some c)
      × ((a b : ℕ)
          → member a f.blocks ≡ true
          → member b f.blocks ≡ true
          → depends_on f D c b a ≡ some (is_control_dependent f b a))
      × ((b : ℕ)
          → member b f.blocks ≡ true
          → (get_control_dependency_sources f D c b ≡ some (expected_sources f b))
            × (get_control_dependency_source f D c b ≡ some (head? (expected_sources f b))))
  unfolding depends_on get_control_dependency_sources get_control_dependency_source
  calculate_cdg-sources =
      let (c, e, ns, r, from_block, from_root) = calculate_cdg-has_edge f D laws f_laws in
      (
        c,
        e,
        λ a b ma mb. ground (
          arith,
          get_block_node-some f D a c.graph ns ma,
          get_block_node-some f D b c.graph ns mb,
          from_block a b ma mb,
        ),
        λ b mb.
            (let node = get_block_node-some f D b c.graph ns mb in
              let several =
                all_sources-filter f D laws c.graph b (λ a ma. from_block a b ma mb) f.blocks []
                  f_laws.distinct_blocks (nothing_yet f.blocks) (λ a m. m) in
              let one =
                first_source-head f D laws c.graph b (λ a ma. from_block a b ma mb) f.blocks
                  (λ a m. m) in
              elim (Bool-cases (any (is_control_dependent f b) f.blocks)) [
                | inl e ↦ ground (arith, node, r, ns, from_root b mb, e, several, one)
                | inr e ↦ ground (
                  arith,
                  node,
                  r,
                  from_root b mb,
                  e,
                  filter-none (is_control_dependent f b) f.blocks e,
                )
              ]),
      )
