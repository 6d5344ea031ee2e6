-- ===== src/Hazard/Decisions.antt =====
-- The decisions of lib/DataHazardAnalysis.cpp: getLodCtrlDepSources, calculateDecoupling and
-- calculateSpeculation.
use elastic_sycl_hls.Prelude.{
  ℕ, zero, suc, ◌==◌, Bool, true, false, not, ◌&&◌, if◌then◌else◌, Option, none, some, List, [],
  ◌∷◌, ◌++◌, length,
}
use elastic_sycl_hls.Prelude.Members.{any, member}
use elastic_sycl_hls.Hazard.{Program, get_lod_data_dependency_src}

abbrev pub is_some : Option ℕ → Bool
is_some none = false
is_some (some x) = true

abbrev pub is_header : Option ℕ → ℕ → Bool
is_header none b = false
is_header (some h) b = h == b

-- What the search needs of the blocks: the header of the innermost loop of a block, the sources of
-- its control dependencies, and whether the terminator of a block has a LoD data dependency.
pub record ControlView : Type 0 where
  pub blocks : List ℕ
  pub loop_header : ℕ → Option ℕ
  pub control_dependency_sources : ℕ → List ℕ
  pub has_lod : ℕ → Bool

module _ (v : ControlView) where
  -- The loop over the sources of one block: the worklist and the result after it. A set inserts only
  -- what it does not hold; the back of the worklist is the front of the list.
  unfoldable pub visit_sources : Option ℕ → List ℕ → List ℕ → List ℕ → List ℕ → List ℕ × List ℕ
  visit_sources header done [] ws result = (ws, result)
  visit_sources header done (s ∷ ss) ws result =
      let with_lod = visit_sources header done ss ws (result ++ s ∷ []) in
      let higher = visit_sources header done ss (if member s ws then ws else s ∷ ws) result in
      let skip = visit_sources header done ss ws result in
      if v.has_lod s
      then with_lod
      else if not (is_header header s) && not (member s done)
      then higher
      else skip

  unfoldable pub sources_loop : ℕ → Option ℕ → List ℕ → List ℕ → List ℕ → Option (List ℕ)
  sources_loop zero header done ws result = none
  sources_loop (suc fuel) header done [] result = some result
  sources_loop (suc fuel) header done (c ∷ ws) result =
      let next = visit_sources header (c ∷ done) (v.control_dependency_sources c) ws result in
      sources_loop fuel header (c ∷ done) next.0 next.1

  -- A block is taken from the worklist once at most.
  unfoldable pub get_lod_ctrl_dep_sources : ℕ → Option (List ℕ)
  get_lod_ctrl_dep_sources b =
      sources_loop (suc (suc (length v.blocks))) (v.loop_header b) [] (b ∷ []) []

abbrev pub is_not_empty : Option (List ℕ) → Bool
is_not_empty none = false
is_not_empty (some []) = false
is_not_empty (some (b ∷ bs)) = true

module _ (p : Program) (hazard_instrs : List (List ℕ)) where
  -- `all_of(cluster, ...)`
  unfoldable pub no_lod_data_dep : List ℕ → Bool
  no_lod_data_dep [] = true
  no_lod_data_dep (m ∷ ms) =
      not (is_some (get_lod_data_dependency_src p hazard_instrs m)) && no_lod_data_dep ms

  -- The loop over the clusters, `hazard_instrs` itself.
  unfoldable pub decide_decoupling : Bool → List (List ℕ) → List Bool
  decide_decoupling agu_decoupling_off [] = []
  decide_decoupling agu_decoupling_off (cluster ∷ clusters) =
      (not agu_decoupling_off && no_lod_data_dep cluster)
      ∷ decide_decoupling agu_decoupling_off clusters

  unfoldable pub calculate_decoupling : Bool → List Bool
  calculate_decoupling agu_decoupling_off = decide_decoupling agu_decoupling_off hazard_instrs

  -- The blocks as getLodCtrlDepSources sees them: its source of a LoD is a terminator.
  abbrev pub control_view : List ℕ → (ℕ → Option ℕ) → (ℕ → List ℕ) → ControlView
  control_view blocks loop_header sources = record {
    blocks = blocks;
    loop_header = loop_header;
    control_dependency_sources = sources;
    has_lod = λ b. is_some (get_lod_data_dependency_src p hazard_instrs (p.terminator b));
  }

module _ (v : ControlView) (parent : ℕ → ℕ) where
  -- `any_of(cluster, ...)`
  unfoldable pub needs_speculation : List ℕ → Bool
  needs_speculation ms = any (λ m. is_not_empty (get_lod_ctrl_dep_sources v (parent m))) ms

  -- The loop over the clusters and their decoupling decisions.
  unfoldable pub calculate_speculation : List (List ℕ) → List Bool → List Bool
  calculate_speculation [] ds = []
  calculate_speculation (cluster ∷ clusters) [] = []
  calculate_speculation (cluster ∷ clusters) (d ∷ ds) =
      (if not d then false else needs_speculation cluster) ∷ calculate_speculation clusters ds
