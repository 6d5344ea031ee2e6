-- ===== src/Hazard/Clusters.antt =====
-- The clusters of memory operations that the constructor of lib/DataHazardAnalysis.cpp collects,
-- with insertInMap, getClusterPtrForBasePtr and isAddressAnalyzable. Instructions are numbers.
use elastic_sycl_hls.Prelude.{
  ℕ, ◌≡◌, Bool, true, false, not, ◌&&◌, ◌||◌, if◌then◌else◌, Option, none, some, List, [], ◌∷◌,
  ◌++◌,
}
use elastic_sycl_hls.Prelude.Members.{any, filter, member}

abbrev pub Cluster : Type 0
Cluster = ℕ × List ℕ

-- `SetVector::insert`
abbrev pub set_insert : ℕ → List ℕ → List ℕ
set_insert i s = if member i s then s else s ++ i ∷ []

-- `isIdenticalTo` of LLVM, an equivalence.
pub record Identity : Type 0 where
  pub identical : ℕ → ℕ → Bool
  pub identical_refl : (x : ℕ) → identical x x ≡ true
  pub identical_sym : (x y : ℕ) → identical x y ≡ identical y x
  pub identical_trans :
      (x y z : ℕ) → identical x y ≡ true → identical y z ≡ true → identical x z ≡ true

module _ (d : Identity) where
  unfoldable pub get_cluster_ptr_for_base_ptr : List Cluster → ℕ → Option (List ℕ)
  get_cluster_ptr_for_base_ptr [] b = none
  get_cluster_ptr_for_base_ptr ((k, s) ∷ m) b =
      if d.identical k b then some s else get_cluster_ptr_for_base_ptr m b

  unfoldable pub insert_in_map : List Cluster → ℕ → ℕ → List Cluster
  insert_in_map [] b i = (b, i ∷ []) ∷ []
  insert_in_map ((k, s) ∷ m) b i =
      if d.identical k b then (k, set_insert i s) ∷ m else (k, s) ∷ insert_in_map m b i

  -- `cluster->insert(&I)` of the cluster that getClusterPtrForBasePtr finds.
  unfoldable pub insert_in_cluster : List Cluster → ℕ → ℕ → List Cluster
  insert_in_cluster [] b i = []
  insert_in_cluster ((k, s) ∷ m) b i =
      if d.identical k b then (k, set_insert i s) ∷ m else (k, s) ∷ insert_in_cluster m b i

-- A loop with its loads and stores, and what ScalarEvolution says of the addresses in it.
pub record HazardLoop : Type 0 where
  pub loop_loads : List ℕ
  pub loop_stores : List ℕ
  -- `SE.hasComputableLoopEvolution(address, L)`
  pub has_computable_evolution : ℕ → Bool

-- The loads and stores of a loop: of its blocks, breadth first from the header, `reached` with what
-- lies outside the loop.
module _ (is_load is_store : ℕ → Bool) (block_instructions : ℕ → List ℕ) where
  abbrev pub loop_instructions : (ℕ → Bool) → List ℕ → List ℕ
  loop_instructions contains [] = []
  loop_instructions contains (b ∷ bs) =
      if not (contains b)
      then loop_instructions contains bs
      else block_instructions b ++ loop_instructions contains bs

  abbrev pub hazard_loop : (ℕ → Bool) → List ℕ → (ℕ → Bool) → HazardLoop
  hazard_loop contains reached evolution =
      let instrs = loop_instructions contains reached in
      record {
        loop_loads = filter (λ i. not (is_store i) && is_load i) instrs;
        loop_stores = filter is_store instrs;
        has_computable_evolution = evolution;
      }

-- What the constructor asks of a memory operation.
pub record MemoryView : Type 0 where
  -- `getPointerBase` of its address. It follows no null pointer: the source has no check, and a
  -- program in which it does has no defined run of the constructor.
  pub pointer_base : ℕ → ℕ
  -- The terminator of its control dependency source, if it has one.
  pub control_terminator : ℕ → Option ℕ
  -- isInDefUsePath
  pub in_def_use_path : ℕ → ℕ → Bool
  -- `isAllNonNegative` of the range of its index.
  pub has_non_negative_index : ℕ → Bool
  pub is_memory_operation : ℕ → Bool
  pub has_pointer_type : ℕ → Bool
  pub is_store_op : ℕ → Bool

module _ (d : Identity) (v : MemoryView) where
  abbrev pub is_address_analyzable : HazardLoop → ℕ → Bool
  is_address_analyzable l si =
      if l.has_computable_evolution si then true else v.has_non_negative_index si

  abbrev pub depends_on_loads : List ℕ → ℕ → Option ℕ → Bool
  depends_on_loads loads si none = false
  depends_on_loads loads si (some t) =
      any (λ li. d.identical (v.pointer_base li) (v.pointer_base si) && v.in_def_use_path li t)
        loads

  abbrev pub has_special_ctrl_dep : HazardLoop → ℕ → Bool
  has_special_ctrl_dep l si = depends_on_loads l.loop_loads si (v.control_terminator si)

  abbrev pub is_hazard_store : HazardLoop → ℕ → Bool
  is_hazard_store l si = has_special_ctrl_dep l si || not (is_address_analyzable l si)

  unfoldable pub collect_stores : HazardLoop → List ℕ → List Cluster → List Cluster
  collect_stores l [] m = m
  collect_stores l (si ∷ ss) m =
      collect_stores l ss
        (if is_hazard_store l si then insert_in_map d m (v.pointer_base si) si else m)

  -- The loops, in the order in which the constructor takes them.
  unfoldable pub collect_loops : List HazardLoop → List Cluster → List Cluster
  collect_loops [] m = m
  collect_loops (l ∷ ls) m = collect_loops ls (collect_stores l l.loop_stores m)

  -- The instructions of the function, in program order.
  unfoldable pub collect_operations : List ℕ → List Cluster → List Cluster
  collect_operations [] m = m
  collect_operations (i ∷ is) m = collect_operations is (
      if v.has_pointer_type i
      then m
      else if v.is_memory_operation i
      then insert_in_cluster d m (v.pointer_base i) i
      else m)

  -- `!llvm::all_of(kv.second, isaStore)`
  abbrev pub has_load : List ℕ → Bool
  has_load s = any (λ i. not (v.is_store_op i)) s

  unfoldable pub take_clusters : List Cluster → List (List ℕ)
  take_clusters [] = []
  take_clusters ((k, s) ∷ m) = if has_load s then s ∷ take_clusters m else take_clusters m

  unfoldable pub collect_hazard_instrs : List HazardLoop → List ℕ → List (List ℕ)
  collect_hazard_instrs ls is = take_clusters (collect_operations is (collect_loops ls []))
