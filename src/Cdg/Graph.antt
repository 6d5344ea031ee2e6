-- ===== src/Cdg/Graph.antt =====
-- The data of include/CDG.h and what lib/CDG.cpp takes from LLVM, as parameters: the directed graph
-- of llvm/ADT/DirectedGraph.h, the post-dominator tree, and reachability in the control flow graph.
-- A basic block is a number. A node is created once for each block, so a node object is known by
-- its block.
use elastic_sycl_hls.Prelude.{
  ℕ, ◌≡◌, ◌==◌, ltb, Bool, true, false, ◌&&◌, if◌then◌else◌, List, [], ◌∷◌, ◌++◌, length,
}
use elastic_sycl_hls.Prelude.Members.{any}

pub data EdgeKind : Type 0 where
  unknown : EdgeKind
  true_edge : EdgeKind
  false_edge : EdgeKind
  rooted : EdgeKind

pub data CdgNode : Type 0 where
  root_node : CdgNode
  block_node : ℕ → CdgNode

unfoldable pub same_node : CdgNode → CdgNode → Bool
same_node root_node root_node = true
same_node (block_node a) (block_node b) = a == b
same_node _ _ = false

-- `DirectedGraph<CDGNode, CDGEdge>`; an edge is given by its kind.
pub record DirectedGraph : Type 1 where
  pub Graph : Type 0
  pub empty : Graph
  -- The Boolean says whether the node was added.
  pub add_node : CdgNode → Graph → Graph × Bool
  pub connect : CdgNode → CdgNode → EdgeKind → Graph → Graph
  pub nodes : Graph → List CdgNode
  -- From the first node to the second.
  pub find_edges_to : CdgNode → CdgNode → Graph → List EdgeKind
  -- Whether `find_edges_to` finds one.
  pub has_edge_to : CdgNode → CdgNode → Graph → Bool

-- What LLVM documents of these operations, for new nodes and new edges.
pub record GraphLaws (D : DirectedGraph) : Type 0 where
  pub nodes_empty : D.nodes D.empty ≡ []
  pub nodes_add :
      (n : CdgNode) (g : D.Graph)
      → any (same_node n) (D.nodes g) ≡ false
      → (D.nodes (D.add_node n g).0 ≡ D.nodes g ++ n ∷ []) × ((D.add_node n g).1 ≡ true)
  pub nodes_connect :
      (s t : CdgNode) (k : EdgeKind) (g : D.Graph) → D.nodes (D.connect s t k g) ≡ D.nodes g
  pub find_empty : (s t : CdgNode) → D.find_edges_to s t D.empty ≡ []
  pub find_add :
      (s t n : CdgNode) (g : D.Graph)
      → D.find_edges_to s t (D.add_node n g).0 ≡ D.find_edges_to s t g
  pub find_connect :
      (s t s' t' : CdgNode) (k : EdgeKind) (g : D.Graph)
      → D.find_edges_to s t (D.connect s' t' k g)
        ≡ D.find_edges_to s t g ++ (if same_node s s' && same_node t t' then k ∷ [] else [])
  pub has_find :
      (s t : CdgNode) (g : D.Graph) → D.has_edge_to s t g ≡ ltb 0 (length (D.find_edges_to s t g))

-- The terminator of a block: a `BranchInst` with one or two successors, or another instruction.
pub data Terminator : Type 0 where
  br : ℕ → Terminator
  cond_br : ℕ → ℕ → Terminator
  other_terminator : List ℕ → Terminator

abbrev pub terminator_successors : Terminator → List ℕ
terminator_successors (br s) = s ∷ []
terminator_successors (cond_br s t) = s ∷ t ∷ []
terminator_successors (other_terminator ss) = ss

-- A function, with what LLVM computes for it.
pub record Function : Type 0 where
  pub blocks : List ℕ
  pub terminator : ℕ → Terminator
  -- `PDT.dominates(b, a)`: b post-dominates a.
  pub dominates : ℕ → ℕ → Bool
  pub properly_dominates : ℕ → ℕ → Bool
  pub is_potentially_reachable : ℕ → ℕ → Bool

abbrev pub successors : Function → ℕ → List ℕ
successors f b = terminator_successors (f.terminator b)
