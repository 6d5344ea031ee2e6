-- ===== src/Cddd/Analysis.antt =====
-- The constructor of ControlDependentDataDependencyAnalysis, include/CDDDAnalysis.h: the steps of the
-- analysis in their order.
use elastic_sycl_hls.Prelude.{ℕ, Bool, if◌then◌else◌, Option, some, ◌>>=◌, List, [], ◌∷◌}
use elastic_sycl_hls.Cddd.SccPaths.{Recurrence, get_scc_paths}
use elastic_sycl_hls.Cddd.Blocks.{
  DecoupledBlocks, ddg_nodes_to_instructions, collect_blocks_to_decouple,
}
use elastic_sycl_hls.Cddd.Dependencies.{BlockDependencies, collect_block_dependencies}
use elastic_sycl_hls.Cddd.Hoist.{collect_dependencies_to_hoist}
use elastic_sycl_hls.Cddd.LoopDependencies.{LoopValues, collect_loop_dependencies}
use elastic_sycl_hls.Cddd.Loops.{LoopNest, collect_loops_to_decouple}

-- The members of the class.
pub record Decoupling : Type 0 where
  pub blocks : DecoupledBlocks
  pub dependencies : BlockDependencies
  pub instr_to_hoist : List (ℕ × List ℕ)
  pub loops_to_decouple : List ℕ
  pub loop_dependencies : List (ℕ × LoopValues)

abbrev pub no_blocks : DecoupledBlocks
no_blocks = record {
  blocks_to_decouple = [];
  recurrence_starts = [];
  recurrence_ends = [];
  instr_to_decouple = [];
}

abbrev pub no_dependencies : BlockDependencies
no_dependencies = record { input_dependencies = []; output_dependencies = [] }

abbrev pub first_keys : List (ℕ × List ℕ) → List ℕ
first_keys [] = []
first_keys (e ∷ es) = e.0 ∷ first_keys es

module _ (n : LoopNest) (node_instructions : ℕ → List ℕ) where
  -- The loop over the nodes of the graph.
  unfoldable pub analyse_recurrences :
      List Recurrence
      → DecoupledBlocks
      → BlockDependencies
      → Option (DecoupledBlocks × BlockDependencies)
  analyse_recurrences [] s d = some (s, d)
  analyse_recurrences (g ∷ gs) s d = do
    paths ← get_scc_paths g
    let s' =
        collect_blocks_to_decouple n.view (ddg_nodes_to_instructions n.view node_instructions paths)
          s
    analyse_recurrences gs s' (collect_block_dependencies n.view s'.instr_to_decouple d)

  -- What comes after that loop; `blocks` are those of the function and `loops` is loopsInBFS.
  unfoldable pub analyse_loops :
      List ℕ → List ℕ → DecoupledBlocks → BlockDependencies → Option Decoupling
  analyse_loops blocks loops s d = do
    hoisted ←
        collect_dependencies_to_hoist n.view
          (record {
            starts = s.recurrence_starts;
            ends = s.recurrence_ends;
            outputs = d.output_dependencies;
          })
          (first_keys d.input_dependencies) []
    decoupled ← collect_loops_to_decouple n loops
    some (record {
      blocks = s;
      dependencies = d;
      instr_to_hoist = hoisted;
      loops_to_decouple = decoupled;
      loop_dependencies = collect_loop_dependencies n.view blocks decoupled [];
    })

  abbrev pub no_decoupling : Decoupling
  no_decoupling = record {
    blocks = no_blocks;
    dependencies = no_dependencies;
    instr_to_hoist = [];
    loops_to_decouple = [];
    loop_dependencies = [];
  }

  -- `off` says that NO_PE_DECOUPLING is set.
  unfoldable pub analyse : Bool → List Recurrence → List ℕ → List ℕ → Option Decoupling
  analyse off recurrences blocks loops = if off then some no_decoupling else (do
    found ← analyse_recurrences recurrences no_blocks no_dependencies
    analyse_loops blocks loops found.0 found.1)
