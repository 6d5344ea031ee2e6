-- ===== src/Cddd/SccPaths.antt =====
-- getSCCPaths of lib/CDDDAnalysis.cpp: paths through a recurrence, a strongly connected component of
-- the data dependence graph. Nodes and edges are numbers; an edge stands in one node's list.
use elastic_sycl_hls.Prelude.{
  ℕ, zero, suc, ◌==◌, Bool, not, ◌&&◌, if◌then◌else◌, Option, none, some, List, [], ◌∷◌, ◌++◌,
  length,
}
use elastic_sycl_hls.Prelude.Members.{any, member}

-- A pi-block: its nodes, the edges of a node and where an edge leads. The other nodes that an edge
-- may lead to are not `SimpleDDGNode`.
pub record Recurrence : Type 0 where
  pub nodes : List ℕ
  pub edges : ℕ → List ℕ
  pub target : ℕ → ℕ
  pub is_simple : ℕ → Bool

-- The entries of edgesDoneInThisPrefix: a depth and an edge.
abbrev pub has_done : ℕ → ℕ → List (ℕ × ℕ) → Bool
has_done depth e done = any (λ d. (d.0 == depth) && (d.1 == e)) done

-- The stack from its back to its front, as a path.
abbrev pub path_of : List ℕ → List ℕ
path_of [] = []
path_of (n ∷ ns) = path_of ns ++ n ∷ []

-- `pathPrefix` of a stack that is not empty.
abbrev pub depth_of : List ℕ → ℕ
depth_of [] = 0
depth_of (n ∷ ns) = length ns

abbrev pub below : ℕ → List ℕ
below zero = []
below (suc n) = n ∷ below n

abbrev pub at_depths : ℕ → List ℕ → List (ℕ × ℕ)
at_depths e [] = []
at_depths e (d ∷ ds) = (d, e) ∷ at_depths e ds

abbrev pub with_depths : List ℕ → List ℕ → List (ℕ × ℕ)
with_depths ds [] = []
with_depths ds (e ∷ es) = at_depths e ds ++ with_depths ds es

abbrev pub edges_of : (ℕ → List ℕ) → List ℕ → List ℕ
edges_of edges [] = []
edges_of edges (n ∷ ns) = edges n ++ edges_of edges ns

module _ (g : Recurrence) (start : ℕ) where
  -- The loop over the edges of the frontier.
  unfoldable pub find_edge : List ℕ → List (ℕ × ℕ) → ℕ → List ℕ → Option ℕ
  find_edge stack done depth [] = none
  find_edge stack done depth (e ∷ es) =
      let later = find_edge stack done depth es in
      if not (g.target e == start) && member (g.target e) stack
      then later
      else if has_done depth e done
      then later
      else some e

  -- The search for the next edge. `pathPrefix` is the size of the stack less one all along, and the
  -- back of the stack is the front of the list.
  unfoldable pub backtrack : List (ℕ × ℕ) → List ℕ → Option (ℕ × List ℕ)
  backtrack done [] = none
  backtrack done (n ∷ rest) = elim (find_edge (n ∷ rest) done (length rest) (g.edges n)) [
    | none ↦ backtrack done rest
    | some e ↦ some (e, n ∷ rest)
  ]

  -- A path ends, or the stack grows. `none` for a node that is not simple: the null pointer of the
  -- failed cast is followed next.
  unfoldable pub take_edge : List (List ℕ) → List ℕ → ℕ → Option (List (List ℕ) × List ℕ)
  take_edge all stack e =
      if g.target e == start
      then some (all ++ path_of stack ∷ [], stack)
      else if g.is_simple (g.target e)
      then some (all, g.target e ∷ stack)
      else none

  -- The loop; also `none` if the fuel is out.
  unfoldable pub scc_loop : ℕ → List (ℕ × ℕ) → List (List ℕ) → List ℕ → ℕ → Option (List (List ℕ))
  scc_loop zero done all stack e = none
  scc_loop (suc fuel) done all stack e = elim (take_edge all stack e) [
    | none ↦ none
    | some (new_all, new_stack) ↦ elim (backtrack ((depth_of stack, e) ∷ done) new_stack) [
      | none ↦ some new_all
      | some (next, frontier) ↦ scc_loop fuel ((depth_of stack, e) ∷ done) new_all frontier next
    ]
  ]

-- An edge is taken once at a depth, so there are no more rounds than depths and edges.
abbrev pub all_pairs : Recurrence → List (ℕ × ℕ)
all_pairs g = with_depths (below (length g.nodes)) (edges_of g.edges g.nodes)

-- `none` also if the start node has no edges, where the code reads behind the end.
unfoldable pub get_scc_paths : Recurrence → Option (List (List ℕ))
get_scc_paths g = elim g.nodes [
  | [] ↦ some []
  | start ∷ ns ↦ elim (g.edges start) [
    | [] ↦ none
    | e ∷ es ↦ scc_loop g start (suc (length (all_pairs g))) [] [] (start ∷ []) e
  ]
]
