-- ===== src/Cdg/Tests.antt =====
-- The control dependence graph of lib/CDG.cpp of two small functions.
use elastic_sycl_hls.Prelude.{
  ℕ, zero, suc, ◌≡◌, ◌≤◌, ◌↔◌, ◌==◌, ltb, refl, arith, true, false, ◌&&◌, ◌||◌, if◌then◌else◌, some,
  List, [], ◌∷◌, ◌++◌, length, ℕ_discrete,
}
use elastic_sycl_hls.Prelude.Members.{any, member}
use elastic_sycl_hls.Cdg.Graph.{
  EdgeKind, CdgNode, DirectedGraph, GraphLaws, Function, Terminator, same_node, successors,
}
use elastic_sycl_hls.Cdg.{
  ControlDependenceGraph, is_control_dependent, calculate_cdg, depends_on,
  get_control_dependency_source, get_control_dependency_sources,
}
use elastic_sycl_hls.Cdg.Nodes.{FunctionLaws}
use elastic_sycl_hls.Cdg.Sources.{calculate_cdg-sources, expected_sources, head?}
use elastic_sycl_hls.Cdg.Ferrante.{
  ExitPath, visits, PostDominates, PostDominatorLaws, DependencePath, is_control_dependent_iff,
}

-- A graph as its list of nodes and its list of edges.
abbrev edges_between : CdgNode → CdgNode → List (CdgNode × CdgNode × EdgeKind) → List EdgeKind
edges_between s t [] = []
edges_between s t ((s', t', k) ∷ es) =
    (if same_node s s' && same_node t t' then k ∷ [] else []) ++ edges_between s t es

abbrev list_graph : DirectedGraph
list_graph = record {
  Graph = List CdgNode × List (CdgNode × CdgNode × EdgeKind);
  empty = ([], []);
  add_node = λ n g. (if any (same_node n) g.0 then (g, false) else ((g.0 ++ n ∷ [], g.1), true));
  connect = λ s t k g. (g.0, g.1 ++ (s, t, k) ∷ []);
  nodes = λ g. g.0;
  find_edges_to = λ s t g. edges_between s t g.1;
  has_edge_to = λ s t g. ltb 0 (length (edges_between s t g.1));
}

edges_between-append :
    (s t s' t' : CdgNode) (k : EdgeKind) (es : List (CdgNode × CdgNode × EdgeKind))
    → edges_between s t (es ++ (s', t', k) ∷ [])
      ≡ edges_between s t es ++ (if same_node s s' && same_node t t' then k ∷ [] else [])
edges_between-append s t s' t' k [] = ground arith
edges_between-append s t s' t' k ((s₁, t₁, k₁) ∷ es) =
    ground (arith, edges_between-append s t s' t' k es)

list_graph-GraphLaws : GraphLaws list_graph
list_graph-GraphLaws = record {
  nodes_empty = refl;
  nodes_add = λ n g e. ground (arith, e);
  nodes_connect = λ s t k g. refl;
  find_empty = λ s t. refl;
  find_add = λ s t n g. ground arith;
  find_connect = λ s t s' t' k g. edges_between-append s t s' t' k g.1;
  has_find = λ s t g. refl;
}

-- `if (c) block 1; block 2`
abbrev if_then : Function
if_then = record {
  blocks = 0 ∷ 1 ∷ 2 ∷ [];
  terminator = λ b.
      if b == 0
      then Terminator.cond_br 1 2
      else if b == 1
      then Terminator.br 2
      else Terminator.other_terminator [];
  dominates = λ b a. (b == a) || ((b == 2) && ltb a 2);
  properly_dominates = λ b a. (b == 2) && ltb a 2;
  is_potentially_reachable = λ a b. (a == b) || (ltb a 2 && ltb a b && ltb b 3);
}

if_then-FunctionLaws : FunctionLaws if_then
if_then-FunctionLaws = record {
  distinct_blocks = refl;
  no_switch = λ a ss e. ground arith;
  reach_dominating = λ s b e. ground arith;
  reach_step = λ a s b m r. ground arith;
}

no_successors : (a : ℕ) → successors if_then (suc (suc a)) ≡ []
no_successors a = ground arith

abbrev to_exit : (a : ℕ) → ExitPath if_then a
to_exit zero = ExitPath.step 0 2 refl (ExitPath.exit 2 refl)
to_exit (suc zero) = ExitPath.step 1 2 refl (ExitPath.exit 2 refl)
to_exit (suc (suc a)) = ExitPath.exit (suc (suc a)) (no_successors a)

through_two : (a : ℕ) (p : ExitPath if_then a) → a ≤ 2 → visits 2 p ≡ true
through_two a (ExitPath.exit _ e) le = ground arith
through_two a (ExitPath.step _ y m p) le = ground (arith, through_two y p)

visits-start : (a : ℕ) (p : ExitPath if_then a) → visits a p ≡ true
visits-start a (ExitPath.exit _ e) = ground arith
visits-start a (ExitPath.step _ y m p) = ground arith

dominated : (b a : ℕ) → if_then.dominates b a ≡ true → PostDominates if_then b a
dominated b a e p = elim (ℕ_discrete b a) [
  | yes same ↦ rw same (visits-start a p)
  | no ne ↦ (let two : b ≡ 2 = ground arith in rw two (through_two a p (ground arith)))
]

dominating : (b a : ℕ) → PostDominates if_then b a → if_then.dominates b a ≡ true
dominating b zero dom = ground (arith, dom (to_exit 0), dom (ExitPath.step 0 1 refl (to_exit 1)))
dominating b (suc zero) dom = ground (arith, dom (to_exit 1))
dominating b (suc (suc a)) dom = ground (arith, dom (to_exit (suc (suc a))))

if_then-PostDominatorLaws : PostDominatorLaws if_then
if_then-PostDominatorLaws = record {
  exits = to_exit;
  dominates_iff = λ b a. (dominated b a, dominating b a);
  properly = λ b a. ground arith;
}

-- Blocks 1 and 2 follow block 0; block 1 goes back to 0 or leaves, block 2 goes on to block 3.
abbrev loop_or_go_on : Function
loop_or_go_on = record {
  blocks = 0 ∷ 1 ∷ 2 ∷ 3 ∷ 4 ∷ [];
  terminator = λ b.
      (if b == 0
        then Terminator.cond_br 1 2
        else if b == 1
        then Terminator.cond_br 0 4
        else if b == 2
        then Terminator.br 3
        else if b == 3
        then Terminator.br 4
        else Terminator.other_terminator []);
  dominates = λ b a. (b == a) || ((b == 4) && ltb a 4) || ((b == 3) && (a == 2));
  properly_dominates = λ b a. ((b == 4) && ltb a 4) || ((b == 3) && (a == 2));
  is_potentially_reachable = λ a b. (a == b) || (ltb a 2 && ltb b 5) || (ltb a b && ltb b 5);
}

loop_or_go_on-FunctionLaws : FunctionLaws loop_or_go_on
loop_or_go_on-FunctionLaws = record {
  distinct_blocks = refl;
  no_switch = λ a ss e. ground arith;
  reach_dominating = λ s b e. ground arith;
  reach_step = λ a s b m r. ground arith;
}

calculate_cdg-sources_example :
    (c : ControlDependenceGraph list_graph) × (calculate_cdg if_then list_graph ≡ some c)
    × ((a b : ℕ)
        → member a if_then.blocks ≡ true
        → member b if_then.blocks ≡ true
        → depends_on if_then list_graph c b a ≡ some (is_control_dependent if_then b a))
    × ((b : ℕ)
        → member b if_then.blocks ≡ true
        → (get_control_dependency_sources if_then list_graph c b
            ≡ some (expected_sources if_then b))
          × (get_control_dependency_source if_then list_graph c b
              ≡ some (head? (expected_sources if_then b))))
calculate_cdg-sources_example =
    calculate_cdg-sources if_then list_graph list_graph-GraphLaws if_then-FunctionLaws

-- Block 1 depends on block 0, block 2 on none.
sources : (expected_sources if_then 1 ≡ 0 ∷ []) × (expected_sources if_then 2 ≡ [])
unfolding is_control_dependent
sources = (refl, refl)

abbrev then_block : ℕ
then_block = 1

is_control_dependent_iff_example :
    (is_control_dependent if_then then_block 0 ≡ true)
    ↔ (DependencePath if_then then_block 0 × (PostDominates if_then then_block 0 → then_block ≡ 0))
is_control_dependent_iff_example =
    is_control_dependent_iff if_then if_then-PostDominatorLaws then_block 0
