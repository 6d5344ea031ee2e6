-- ===== src/Hazard/Tests.antt =====
-- The decisions of lib/DataHazardAnalysis.cpp for two clusters: the address of a store of the first
-- depends on its load, and a store of the second is in a branch that does.
use elastic_sycl_hls.Prelude.{
  ℕ, ◌≡◌, ◌↔◌, ◌==◌, refl, arith, Bool, true, false, ◌||◌, if◌then◌else◌, Option, none, some, List,
  [], ◌∷◌, get_elem?,
}
use elastic_sycl_hls.Prelude.Members.{member}
use elastic_sycl_hls.Hazard.{
  Program, push_unless_done, def_use_loop, search_def_use, is_in_def_use_path, get_all_loads,
  first_source, get_lod_data_dependency_src,
}
use elastic_sycl_hls.Hazard.DefUse.{DefUse, IsComplete}
use elastic_sycl_hls.Hazard.DefUseEnds.{is_in_def_use_path_ends}
use elastic_sycl_hls.Hazard.Decisions.{
  is_some, ControlView, visit_sources, sources_loop, get_lod_ctrl_dep_sources, no_lod_data_dep,
  decide_decoupling, calculate_decoupling, control_view, needs_speculation, calculate_speculation,
}
use elastic_sycl_hls.Hazard.CtrlSources.{WaitsFor}
use elastic_sycl_hls.Hazard.CtrlSourcesEnds.{HasSources, get_lod_ctrl_dep_sources_iff}
use elastic_sycl_hls.Hazard.LodSource.{is_cluster_load, address_of, get_lod_data_dependency_src_iff}
use elastic_sycl_hls.Hazard.Decided.{
  HasLodDataDep, calculate_decoupling_iff, calculate_speculation_iff,
}

-- 2 = phi(3, ...), 3 = 2 + 1; 0 = A[2]; A[0] = 3; if (0) { 7 = B[2]; B[2] = 7 }
abbrev two_arrays : Program
two_arrays = record {
  instructions = 0 ∷ 1 ∷ 2 ∷ 3 ∷ 4 ∷ 5 ∷ 6 ∷ 7 ∷ 8 ∷ 9 ∷ [];
  operands = λ i.
      if i == 0
      then 1 ∷ []
      else if i == 1
      then 2 ∷ []
      else if i == 2
      then 3 ∷ []
      else if i == 3
      then 2 ∷ []
      else if i == 4
      then 3 ∷ 6 ∷ []
      else if i == 5
      then 0 ∷ []
      else if i == 6
      then 0 ∷ []
      else if i == 7
      then 1 ∷ []
      else if i == 9
      then 7 ∷ 1 ∷ []
      else [];
  is_phi = λ i. i == 2;
  incoming_blocks = λ i. if i == 2 then 2 ∷ [] else [];
  terminator = λ b. if b == 0 then 5 else 8;
  is_load = λ i. (i == 0) || (i == 7);
  is_store = λ i. (i == 4) || (i == 9);
  pointer_operand =
      λ i. if (i == 0) || (i == 7) || (i == 9) then some 1 else if i == 4 then some 6 else none;
}

abbrev clusters : List (List ℕ)
clusters = (4 ∷ 0 ∷ []) ∷ (9 ∷ 7 ∷ []) ∷ []

abbrev block_of : ℕ → ℕ
block_of i = if (i == 7) || (i == 9) then 1 else 0

two_arrays-IsComplete : IsComplete two_arrays
two_arrays-IsComplete x m = (λ y e. ground arith, λ b phi e. ground arith)

abbrev branch_view : ControlView
branch_view =
    control_view two_arrays clusters (0 ∷ 1 ∷ 2 ∷ []) (λ b. none)
      (λ b. if b == 1 then 0 ∷ [] else [])

branch_view-HasSources : (header : Option ℕ) → HasSources branch_view header
branch_view-HasSources header c s m e = ground arith

second_decoupled : calculate_decoupling two_arrays clusters false ≡ false ∷ true ∷ []
unfolding calculate_decoupling decide_decoupling no_lod_data_dep get_lod_data_dependency_src
    first_source get_all_loads is_in_def_use_path search_def_use def_use_loop push_unless_done
second_decoupled = refl

second_speculated :
    calculate_speculation branch_view block_of clusters (false ∷ true ∷ []) ≡ false ∷ true ∷ []
unfolding calculate_speculation needs_speculation get_lod_ctrl_dep_sources sources_loop
    visit_sources get_lod_data_dependency_src first_source get_all_loads is_in_def_use_path
    search_def_use def_use_loop push_unless_done
second_speculated = refl

is_in_def_use_path_ends_example :
    (b : Bool) × (search_def_use two_arrays 0 4 ≡ some b)
    × (is_in_def_use_path two_arrays 0 4 ≡ b)
    × ((b ≡ true) ↔ DefUse two_arrays 0 4)
is_in_def_use_path_ends_example = is_in_def_use_path_ends two_arrays 0 4 two_arrays-IsComplete refl

get_lod_data_dependency_src_iff_example :
    (is_some (get_lod_data_dependency_src two_arrays clusters 4) ≡ true
      → (l : ℕ) × (get_lod_data_dependency_src two_arrays clusters 4 ≡ some l)
        × (is_cluster_load two_arrays clusters l ≡ true)
        × DefUse two_arrays l 6)
    × ((l : ℕ)
        → is_cluster_load two_arrays clusters l ≡ true
        → DefUse two_arrays l 6
        → is_some (get_lod_data_dependency_src two_arrays clusters 4) ≡ true)
get_lod_data_dependency_src_iff_example =
    get_lod_data_dependency_src_iff two_arrays clusters 4 two_arrays-IsComplete refl

get_lod_ctrl_dep_sources_iff_example :
    (r : List ℕ) × (get_lod_ctrl_dep_sources branch_view 1 ≡ some r)
    × ((s : ℕ) → (member s r ≡ true) ↔ WaitsFor branch_view none 1 s)
get_lod_ctrl_dep_sources_iff_example =
    get_lod_ctrl_dep_sources_iff branch_view 1 (branch_view-HasSources none) refl

second_addresses :
    (m : ℕ)
    → member m (9 ∷ 7 ∷ []) ≡ true
    → member (address_of two_arrays m) two_arrays.instructions ≡ true
second_addresses m e = ground arith

second_blocks :
    (m : ℕ) → member m (9 ∷ 7 ∷ []) ≡ true → member (block_of m) branch_view.blocks ≡ true
second_blocks m e = ground arith

calculate_decoupling_iff_example :
    (d : Bool) × (get_elem? (calculate_decoupling two_arrays clusters false) 1 ≡ some d)
    × ((d ≡ true) ↔ ((false ≡ false) × ¬ HasLodDataDep two_arrays clusters (9 ∷ 7 ∷ [])))
calculate_decoupling_iff_example =
    calculate_decoupling_iff two_arrays clusters false 1 (9 ∷ 7 ∷ []) two_arrays-IsComplete
      second_addresses refl

calculate_speculation_iff_example :
    (s : Bool) × (get_elem?
        (calculate_speculation branch_view block_of clusters (false ∷ true ∷ []))
        1
      ≡ some s)
    × ((s ≡ true) ↔ (
        (true ≡ true)
        × (m : ℕ) × (b : ℕ) × (member m (9 ∷ 7 ∷ []) ≡ true)
        × WaitsFor branch_view none (block_of m) b))
calculate_speculation_iff_example =
    calculate_speculation_iff branch_view block_of clusters (false ∷ true ∷ []) 1 (9 ∷ 7 ∷ []) true
      branch_view-HasSources second_blocks refl refl
