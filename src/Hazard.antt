-- ===== src/Hazard.antt =====
-- The hazards of lib/DataHazardAnalysis.cpp and their decisions. This file has isInDefUsePath of
-- include/CommonLLVM.h and the searches that use it: getAllLoads, getLodDataDependencySrc.
-- Instructions and blocks are numbers.
pub mod DefUse
pub mod DefUseEnds
pub mod Decisions
pub mod CtrlSources
pub mod CtrlSourcesEnds
pub mod LodSource
pub mod Decided
pub mod Clusters
pub mod ClusterMap
pub mod Collected
pub mod Clustered
mod Tests
mod ClusterTests
use elastic_sycl_hls.Prelude.{
  ℕ, zero, suc, ◌+◌, Bool, true, false, if◌then◌else◌, Option, none, some, List, [], ◌∷◌, ◌++◌, map,
  length,
}
use elastic_sycl_hls.Prelude.Members.{filter, member}

-- What LLVM says of the instructions of a function.
pub record Program : Type 0 where
  pub instructions : List ℕ
  -- The operands that are instructions.
  pub operands : ℕ → List ℕ
  pub is_phi : ℕ → Bool
  -- The incoming blocks of a phi node.
  pub incoming_blocks : ℕ → List ℕ
  -- The terminator of a block.
  pub terminator : ℕ → ℕ
  pub is_load : ℕ → Bool
  pub is_store : ℕ → Bool
  -- The address instruction of a load or a store.
  pub pointer_operand : ℕ → Option ℕ

-- `push_back` of what is not done; the back of the worklist is the front of the list.
unfoldable pub push_unless_done : List ℕ → List ℕ → List ℕ → List ℕ
push_unless_done done [] ws = ws
push_unless_done done (u ∷ us) ws = push_unless_done done us (if member u done then ws else u ∷ ws)

module _ (p : Program) where
  abbrev pub incoming_terminators : ℕ → List ℕ
  incoming_terminators i = if p.is_phi i then map p.terminator (p.incoming_blocks i) else []

  -- The loop of isInDefUsePath; `none` if it is out of fuel.
  unfoldable pub def_use_loop : ℕ → ℕ → List ℕ → List ℕ → Option Bool
  def_use_loop zero src done ws = none
  def_use_loop (suc fuel) src done [] = some false
  def_use_loop (suc fuel) src done (c ∷ ws) =
      if member src (p.operands c)
      then some true
      else def_use_loop fuel src (c ∷ done) (
          push_unless_done (c ∷ done) (incoming_terminators c)
            (push_unless_done (c ∷ done) (p.operands c) ws))

  -- All that an instruction pushes, of the instructions that are not done.
  abbrev pub edges_left : List ℕ → List ℕ → ℕ
  edges_left done [] = 0
  edges_left done (i ∷ is) =
      (if member i done then 0 else suc (length (p.operands i ++ incoming_terminators i)))
      + edges_left done is

  -- The whole search; it never runs out of this fuel in a complete function.
  unfoldable pub search_def_use : ℕ → ℕ → Option Bool
  search_def_use src dst = def_use_loop (suc (suc (edges_left [] p.instructions))) src [] (dst ∷ [])

  abbrev pub is_found : Option Bool → Bool
  is_found none = false
  is_found (some b) = b

  -- What the callers take of it.
  unfoldable pub is_in_def_use_path : ℕ → ℕ → Bool
  unfolding search_def_use
  is_in_def_use_path src dst = is_found (search_def_use src dst)

  -- `hazardInstrs`: the memory operations of each base address.
  unfoldable pub get_all_loads : List (List ℕ) → List ℕ
  get_all_loads [] = []
  get_all_loads (cluster ∷ clusters) = filter p.is_load cluster ++ get_all_loads clusters

  unfoldable pub first_source : List ℕ → ℕ → Option ℕ
  first_source [] i = none
  first_source (li ∷ loads) i = if is_in_def_use_path li i then some li else first_source loads i

  abbrev pub or_pointer : ℕ → Option ℕ → ℕ
  or_pointer i none = i
  or_pointer i (some a) = a

  -- The load that the address of a memory operation, or the instruction, waits for.
  unfoldable pub get_lod_data_dependency_src : List (List ℕ) → ℕ → Option ℕ
  get_lod_data_dependency_src hazard_instrs i =
      first_source (get_all_loads hazard_instrs) (or_pointer i (p.pointer_operand i))
