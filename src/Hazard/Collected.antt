-- ===== src/Hazard/Collected.antt =====
-- What the two walks of the constructor of lib/DataHazardAnalysis.cpp put in the clusters.
use elastic_sycl_hls.Prelude.{
  ℕ, ◌≡◌, inl, inr, refl, ◌∙◌, arith, ◌==◌, Bool, true, not, ◌&&◌, ◌||◌, if◌then◌else◌, none, some,
  List, [], ◌∷◌, Bool-cases,
}
use elastic_sycl_hls.Prelude.Members.{any, member, option_cases}
use elastic_sycl_hls.Hazard.Clusters.{
  Cluster, Identity, insert_in_map, insert_in_cluster, HazardLoop, MemoryView, has_special_ctrl_dep,
  is_hazard_store, collect_stores, collect_loops, collect_operations,
}
use elastic_sycl_hls.Hazard.ClusterMap.{
  has_cluster, in_cluster, has_cluster-insert_in_map, in_cluster-insert_in_map,
  has_cluster-insert_in_cluster, in_cluster-insert_in_cluster, has_distinct_keys,
  insert_in_map-distinct, insert_in_cluster-distinct,
}

module _ (d : Identity) (v : MemoryView) where
  -- A memory operation that the second walk over the function takes.
  abbrev pub is_selected : ℕ → Bool
  is_selected i = not (v.has_pointer_type i) && v.is_memory_operation i

  -- A store of a loop may have a hazard: it is control dependent, through a def-use path, on a load of
  -- the loop from an identical base, or its address has no computable evolution in the loop and its
  -- index may be negative.
  unfoldable pub may_conflict : HazardLoop → ℕ → Bool
  may_conflict l si = elim (v.control_terminator si) [
    | none ↦ not (l.has_computable_evolution si) && not (v.has_non_negative_index si)
    | some t ↦
        any (λ li. d.identical (v.pointer_base li) (v.pointer_base si) && v.in_def_use_path li t)
          l.loop_loads
        || (not (l.has_computable_evolution si) && not (v.has_non_negative_index si))
  ]

  is_hazard_store-may_conflict :
      (l : HazardLoop) (si : ℕ) → is_hazard_store d v l si ≡ may_conflict l si
  unfolding may_conflict
  is_hazard_store-may_conflict l si = elim (option_cases (v.control_terminator si)) [
    | inl nothing ↦ rw (is_hazard_store, may_conflict, has_special_ctrl_dep, nothing) (ground arith)
    | inr (t, there) ↦
        rw (is_hazard_store, may_conflict, has_special_ctrl_dep, there) (ground arith)
  ]

  -- The stores of a loop that may have a hazard, to a base.
  abbrev pub hazard_in : HazardLoop → List ℕ → ℕ → Bool
  hazard_in l ss b = any (λ si. may_conflict l si && d.identical (v.pointer_base si) b) ss

  -- A store with a possible hazard to the base, in one of the loops.
  abbrev pub has_hazard : List HazardLoop → ℕ → Bool
  has_hazard ls b = any (λ l. hazard_in l l.loop_stores b) ls

  abbrev pub stored_in : HazardLoop → List ℕ → ℕ → ℕ → Bool
  stored_in l ss b x =
      any (λ si. may_conflict l si && d.identical (v.pointer_base si) b && (si == x)) ss

  abbrev pub stored : List HazardLoop → ℕ → ℕ → Bool
  stored ls b x = any (λ l. stored_in l l.loop_stores b x) ls

  has_cluster-collect_stores :
      (l : HazardLoop) (ss : List ℕ) (m : List Cluster) (b : ℕ)
      → has_cluster d (collect_stores d v l ss m) b ≡ (has_cluster d m b || hazard_in l ss b)
  unfolding collect_stores
  has_cluster-collect_stores l [] m b = ground arith
  has_cluster-collect_stores l (si ∷ ss) m b = ground (
    arith,
    is_hazard_store-may_conflict l si,
    has_cluster-collect_stores l ss
        (if is_hazard_store d v l si then insert_in_map d m (v.pointer_base si) si else m) b,
    has_cluster-insert_in_map d m (v.pointer_base si) si b,
  )

  in_cluster-collect_stores :
      (l : HazardLoop) (ss : List ℕ) (m : List Cluster) (b x : ℕ)
      → in_cluster d (collect_stores d v l ss m) b x ≡ (in_cluster d m b x || stored_in l ss b x)
  unfolding collect_stores
  in_cluster-collect_stores l [] m b x = ground arith
  in_cluster-collect_stores l (si ∷ ss) m b x = ground (
    arith,
    is_hazard_store-may_conflict l si,
    in_cluster-collect_stores l ss
        (if is_hazard_store d v l si then insert_in_map d m (v.pointer_base si) si else m) b x,
    in_cluster-insert_in_map d m (v.pointer_base si) si b x,
  )

  pub has_cluster-collect_loops :
      (ls : List HazardLoop) (m : List Cluster) (b : ℕ)
      → has_cluster d (collect_loops d v ls m) b ≡ (has_cluster d m b || has_hazard ls b)
  unfolding collect_loops
  has_cluster-collect_loops [] m b = ground arith
  has_cluster-collect_loops (l ∷ ls) m b =
      has_cluster-collect_loops ls (collect_stores d v l l.loop_stores m) b
      ∙ ground (arith, has_cluster-collect_stores l l.loop_stores m b)

  pub in_cluster-collect_loops :
      (ls : List HazardLoop) (m : List Cluster) (b x : ℕ)
      → in_cluster d (collect_loops d v ls m) b x ≡ (in_cluster d m b x || stored ls b x)
  unfolding collect_loops
  in_cluster-collect_loops [] m b x = ground arith
  in_cluster-collect_loops (l ∷ ls) m b x =
      in_cluster-collect_loops ls (collect_stores d v l l.loop_stores m) b x
      ∙ ground (arith, in_cluster-collect_stores l l.loop_stores m b x)

  pub has_cluster-collect_operations :
      (is : List ℕ) (m : List Cluster) (b : ℕ)
      → has_cluster d (collect_operations d v is m) b ≡ has_cluster d m b
  unfolding collect_operations
  has_cluster-collect_operations [] m b = refl
  has_cluster-collect_operations (i ∷ is) m b =
      has_cluster-collect_operations is
        (if v.has_pointer_type i
          then m
          else if v.is_memory_operation i
          then insert_in_cluster d m (v.pointer_base i) i
          else m)
        b
      ∙ ground (arith, has_cluster-insert_in_cluster d m (v.pointer_base i) i b)

  pub in_cluster-collect_operations :
      (is : List ℕ) (m : List Cluster) (b x : ℕ)
      → in_cluster d (collect_operations d v is m) b x ≡ (
          in_cluster d m b x
          || (has_cluster d m b
              && member x is
              && is_selected x
              && d.identical (v.pointer_base x) b))
  unfolding collect_operations
  in_cluster-collect_operations [] m b x = ground arith
  in_cluster-collect_operations (i ∷ is) m b x =
      let m' : List Cluster =
        if v.has_pointer_type i
        then m
        else if v.is_memory_operation i
        then insert_in_cluster d m (v.pointer_base i) i
        else m in
      in_cluster-collect_operations is m' b x ∙ elim (Bool-cases (i == x)) [
        | inl same ↦
            (let e : i ≡ x = ground arith in
              rw e (
                ground (
                  arith,
                  has_cluster-insert_in_cluster d m (v.pointer_base x) x b,
                  in_cluster-insert_in_cluster d m (v.pointer_base x) x b x,
                )))
        | inr other ↦ ground (
          arith,
          has_cluster-insert_in_cluster d m (v.pointer_base i) i b,
          in_cluster-insert_in_cluster d m (v.pointer_base i) i b x,
        )
      ]

  collect_stores-distinct :
      (l : HazardLoop) (ss : List ℕ) (m : List Cluster)
      → has_distinct_keys d m ≡ true
      → has_distinct_keys d (collect_stores d v l ss m) ≡ true
  unfolding collect_stores
  collect_stores-distinct l [] m h = h
  collect_stores-distinct l (si ∷ ss) m h =
      collect_stores-distinct l ss
        (if is_hazard_store d v l si then insert_in_map d m (v.pointer_base si) si else m)
        (ground (arith, insert_in_map-distinct d m (v.pointer_base si) si h))

  pub collect_loops-distinct :
      (ls : List HazardLoop) (m : List Cluster)
      → has_distinct_keys d m ≡ true
      → has_distinct_keys d (collect_loops d v ls m) ≡ true
  unfolding collect_loops
  collect_loops-distinct [] m h = h
  collect_loops-distinct (l ∷ ls) m h =
      collect_loops-distinct ls (collect_stores d v l l.loop_stores m)
        (collect_stores-distinct l l.loop_stores m h)

  pub collect_operations-distinct :
      (is : List ℕ) (m : List Cluster)
      → has_distinct_keys d m ≡ true
      → has_distinct_keys d (collect_operations d v is m) ≡ true
  unfolding collect_operations
  collect_operations-distinct [] m h = h
  collect_operations-distinct (i ∷ is) m h =
      collect_operations-distinct is
        (if v.has_pointer_type i
          then m
          else if v.is_memory_operation i
          then insert_in_cluster d m (v.pointer_base i) i
          else m)
        (ground (arith, insert_in_cluster-distinct d m (v.pointer_base i) i h))
