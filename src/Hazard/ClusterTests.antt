-- ===== src/Hazard/ClusterTests.antt =====
-- The clusters of lib/DataHazardAnalysis.cpp of a loop over three arrays: one with a hazard, one with
-- analyzable addresses, and one that is only stored to.
use elastic_sycl_hls.Prelude.{
  ℕ, ◌≡◌, ◌↔◌, ◌==◌, refl, arith, true, false, ◌&&◌, ◌||◌, if◌then◌else◌, none, List, [], ◌∷◌,
}
use elastic_sycl_hls.Prelude.Members.{any, member}
use elastic_sycl_hls.Hazard.Clusters.{
  Identity, insert_in_map, insert_in_cluster, HazardLoop, hazard_loop, MemoryView, collect_stores,
  collect_loops, collect_operations, take_clusters, collect_hazard_instrs,
}
use elastic_sycl_hls.Hazard.Clustered.{
  StoresSelected, is_clustered, IsServed, collect_hazard_instrs_iff,
}

abbrev same_number : Identity
same_number = record {
  identical = λ x y. x == y;
  identical_refl = λ x. ground arith;
  identical_sym = λ x y. ground arith;
  identical_trans = λ x y z e h. ground arith;
}

abbrev three_arrays : MemoryView
three_arrays = record {
  pointer_base =
      λ i. if (i == 0) || (i == 4) then 100 else if (i == 7) || (i == 9) then 200 else 300;
  control_terminator = λ i. none;
  in_def_use_path = λ i t. false;
  has_non_negative_index = λ i. false;
  is_memory_operation = λ i. (i == 0) || (i == 4) || (i == 7) || (i == 9) || (i == 11);
  has_pointer_type = λ i. false;
  is_store_op = λ i. (i == 4) || (i == 9) || (i == 11);
}

abbrev one_loop : List HazardLoop
one_loop =
    hazard_loop (λ i. (i == 0) || (i == 7)) (λ i. (i == 4) || (i == 9) || (i == 11))
      (λ b. if b == 0 then 0 ∷ 4 ∷ 5 ∷ [] else if b == 1 then 7 ∷ 9 ∷ 11 ∷ [] else 13 ∷ [])
      (λ b. (b == 0) || (b == 1)) (0 ∷ 2 ∷ 1 ∷ []) (λ i. i == 9)
    ∷ []

abbrev all_instructions : List ℕ
all_instructions = 0 ∷ 4 ∷ 5 ∷ 7 ∷ 9 ∷ 11 ∷ []

one_loop-StoresSelected : StoresSelected same_number three_arrays one_loop all_instructions
one_loop-StoresSelected x e = ground arith

one_cluster :
    collect_hazard_instrs same_number three_arrays one_loop all_instructions ≡ (4 ∷ 0 ∷ []) ∷ []
unfolding collect_hazard_instrs take_clusters collect_operations collect_loops collect_stores
    insert_in_map insert_in_cluster
one_cluster = refl

collect_hazard_instrs_iff_example :
    (any
        (λ c. member 0 c && member 4 c)
        (collect_hazard_instrs same_number three_arrays one_loop all_instructions)
      ≡ true)
    ↔ (IsServed same_number three_arrays one_loop all_instructions 0
        × (is_clustered same_number three_arrays one_loop all_instructions 100 4 ≡ true))
collect_hazard_instrs_iff_example =
    collect_hazard_instrs_iff same_number three_arrays one_loop all_instructions
      one_loop-StoresSelected 0 4
