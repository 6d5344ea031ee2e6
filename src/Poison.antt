-- ===== src/Poison.antt =====
-- Where the values of speculated requests are poisoned, lib/DataHazardAnalysis.cpp lines 386-460
-- (blockToEdgePath and the loops of calculatePoisonBlocks). Blocks and requests are numbers;
-- `parent r` is the block that request r stands in, `is_reachable d t` is isReachableWithinLoop.
pub mod Groups
pub mod Once
pub mod Paths
pub mod Blocks
pub mod Edges
pub mod Covered
mod Tests
use elastic_sycl_hls.Prelude.{
  ℕ, ◌==◌, Bool, if◌then◌else◌, Option, none, some, List, [], ◌∷◌, ◌++◌, map,
}

-- An edge of the control flow graph, its source first.
abbrev pub CfgEdge : Type 0
CfgEdge = ℕ × ℕ

-- The loop over one block path; the option is `CurrBB`.
unfoldable pub edges_from : Option ℕ → List ℕ → List CfgEdge
edges_from curr [] = []
edges_from none (b ∷ bs) = edges_from (some b) bs
edges_from (some c) (b ∷ bs) = (c, b) ∷ edges_from (some b) bs

unfoldable pub block_to_edge_path : List (List ℕ) → List (List CfgEdge)
unfolding edges_from
block_to_edge_path [] = []
block_to_edge_path (p ∷ ps) = edges_from none p ∷ block_to_edge_path ps

-- An entry of `requestsForPath`: a block and the requests originally in it.
abbrev pub Group : Type 0
Group = ℕ × List ℕ

unfoldable pub add_request : ℕ → ℕ → List Group → List Group
add_request b r [] = (b, r ∷ []) ∷ []
add_request b r ((t, rs) ∷ gs) =
    if t == b then (t, rs ++ r ∷ []) ∷ gs else (t, rs) ∷ add_request b r gs

module _ (parent : ℕ → ℕ) where
  -- `for (auto &r : requests)`; the requests of a set are distinct.
  unfoldable pub requests_for_path : List ℕ → List Group → List Group
  unfolding add_request
  requests_for_path [] gs = gs
  requests_for_path (r ∷ rs) gs = requests_for_path rs (add_request (parent r) r gs)

abbrev pub poison_at : CfgEdge → List ℕ → List (ℕ × CfgEdge)
poison_at e [] = []
poison_at e (r ∷ rs) = (r, e) ∷ poison_at e rs

module _ (is_reachable : ℕ → ℕ → Bool) where
  -- The loop over `requestsForPath` at one edge: the entries after it, and what is poisoned there.
  -- An entry of the block that the edge leads to ends the loop.
  unfoldable pub visit_groups : CfgEdge → List Group → List Group × List (ℕ × CfgEdge)
  visit_groups e [] = ([], [])
  visit_groups e ((t, []) ∷ gs) = let rest = visit_groups e gs in ((t, []) ∷ rest.0, rest.1)
  visit_groups e ((t, r ∷ rs) ∷ gs) =
      let rest = visit_groups e gs in
      if e.1 == t
      then ((t, []) ∷ gs, [])
      else if is_reachable e.1 t
      then ((t, r ∷ rs) ∷ rest.0, rest.1)
      else ((t, []) ∷ rest.0, poison_at e (r ∷ rs) ++ rest.1)

  -- The loop over the edges of a path.
  unfoldable pub poison_path : List CfgEdge → List Group → List (ℕ × CfgEdge)
  unfolding visit_groups
  poison_path [] gs = []
  poison_path (e ∷ es) gs =
      let (gs', poisoned) = visit_groups e gs in poisoned ++ poison_path es gs'
