-- ===== src/Hazard/Clustered.antt =====
-- Which memory operations the constructor of lib/DataHazardAnalysis.cpp gives to a load-store queue.
use elastic_sycl_hls.Prelude.{
  ℕ, ◌≡◌, ◌↔◌, inl, inr, refl, sym, ◌∙◌, arith, ◌==◌, Bool, true, false, not, ◌&&◌, Option, none,
  some, List, [], ◌∷◌, Bool-cases,
}
use elastic_sycl_hls.Prelude.Members.{any, member, any-witness, any-of_member}
use elastic_sycl_hls.Hazard.Clusters.{
  Cluster, Identity, get_cluster_ptr_for_base_ptr, HazardLoop, MemoryView, collect_loops,
  collect_operations, has_load, take_clusters, collect_hazard_instrs,
}
use elastic_sycl_hls.Hazard.ClusterMap.{
  is_set, has_cluster, in_cluster, any-of_cluster, get_cluster-same, cluster-of_any,
}
use elastic_sycl_hls.Hazard.Collected.{
  is_selected, hazard_in, has_hazard, stored_in, stored, has_cluster-collect_loops,
  in_cluster-collect_loops, has_cluster-collect_operations, in_cluster-collect_operations,
  collect_loops-distinct, collect_operations-distinct,
}

some_set : (o : Option (List ℕ)) → is_set o ≡ true → (s : List ℕ) × (o ≡ some s)
some_set none e = (let no : ⊥ = cc in elim no [ ])
some_set (some s) e = (s, refl)

any-take_clusters :
    (d : Identity) (v : MemoryView) (g : List ℕ → Bool) (m : List Cluster)
    → any g (take_clusters d v m) ≡ any (λ c. g c.1 && has_load d v c.1) m
unfolding take_clusters
any-take_clusters d v g [] = refl
any-take_clusters d v g ((k, s) ∷ m) = ground (arith, any-take_clusters d v g m)

module _ (d : Identity) (v : MemoryView) where
  stored_in-facts :
      (l : HazardLoop) (ss : List ℕ) (b x : ℕ)
      → stored_in d v l ss b x ≡ true
      → (hazard_in d v l ss b && d.identical (v.pointer_base x) b && member x ss) ≡ true
  stored_in-facts l [] b x e = ground arith
  stored_in-facts l (si ∷ ss) b x e = elim (Bool-cases (si == x)) [
    | inl same ↦
        (let at_x : si ≡ x = ground arith in
          (let at_x' = rw at_x at (e) in rw at_x (ground (arith, stored_in-facts l ss b x, at_x'))))
    | inr other ↦ ground (arith, stored_in-facts l ss b x)
  ]

  -- A store in one of the loops.
  abbrev pub is_loop_store : List HazardLoop → ℕ → Bool
  is_loop_store ls x = any (λ l. member x l.loop_stores) ls

  stored-facts :
      (ls : List HazardLoop) (b x : ℕ)
      → stored d v ls b x ≡ true
      → (has_hazard d v ls b && d.identical (v.pointer_base x) b && is_loop_store ls x) ≡ true
  stored-facts [] b x e = ground arith
  stored-facts (l ∷ ls) b x e =
      ground (arith, stored_in-facts l l.loop_stores b x, stored-facts ls b x)

  -- An operation that the second walk takes, and its base is stored to with a possible hazard.
  abbrev pub is_clustered : List HazardLoop → List ℕ → ℕ → ℕ → Bool
  is_clustered ls is b x =
      has_hazard d v ls b && member x is && is_selected d v x && d.identical (v.pointer_base x) b

  abbrev collected : List HazardLoop → List ℕ → List Cluster
  collected ls is = collect_operations d v is (collect_loops d v ls [])

  has_cluster-collected :
      (ls : List HazardLoop) (is : List ℕ) (b : ℕ)
      → has_cluster d (collected ls is) b ≡ has_hazard d v ls b
  unfolding get_cluster_ptr_for_base_ptr
  has_cluster-collected ls is b =
      has_cluster-collect_operations d v is (collect_loops d v ls []) b
      ∙ has_cluster-collect_loops d v ls [] b

  -- The stores of the loops are instructions of the function, and operations that the walk takes.
  abbrev pub StoresSelected : List HazardLoop → List ℕ → Type 0
  StoresSelected ls is =
      (x : ℕ) → is_loop_store ls x ≡ true → (member x is && is_selected d v x) ≡ true

  in_cluster-collected :
      (ls : List HazardLoop) (is : List ℕ)
      → StoresSelected ls is
      → (b x : ℕ) → in_cluster d (collected ls is) b x ≡ is_clustered ls is b x
  unfolding get_cluster_ptr_for_base_ptr
  in_cluster-collected ls is selected b x =
      in_cluster-collect_operations d v is (collect_loops d v ls []) b x
      ∙ ground (
        arith,
        in_cluster-collect_loops d v ls [] b x,
        has_cluster-collect_loops d v ls [] b,
        stored-facts ls b x,
        selected x,
      )

  -- An operation that a load-store queue serves: its base is stored to with a possible hazard, and
  -- loaded from.
  abbrev pub IsServed : List HazardLoop → List ℕ → ℕ → Type 0
  IsServed ls is x =
      (is_clustered ls is (v.pointer_base x) x ≡ true)
      × (y : ℕ) × (is_clustered ls is (v.pointer_base x) y ≡ true)
      × (v.is_store_op y ≡ false)

-- Two memory operations are in one cluster that gets a load-store queue exactly if their bases are
-- identical and the first is served: both are operations that the walk over the function takes, a
-- store to the base may have a hazard, and some load is from the base. The stores of the loops are
-- operations that the walk takes.
pub collect_hazard_instrs_iff :
    (d : Identity) (v : MemoryView) (ls : List HazardLoop) (is : List ℕ)
    → StoresSelected d v ls is
    → (x y : ℕ)
    → (any (λ c. member x c && member y c) (collect_hazard_instrs d v ls is) ≡ true)
      ↔ (IsServed d v ls is x × (is_clustered d v ls is (v.pointer_base x) y ≡ true))
unfolding collect_hazard_instrs
collect_hazard_instrs_iff d v ls is selected x y =
    let m : List Cluster = collected d v ls is in
    let both : List ℕ → Bool = λ c. member x c && member y c in
    let f : List ℕ → Bool = λ c. both c && has_load d v c in
    let taken = any-take_clusters d v both m in
    (
      λ e.
          (let (k, s, found, fs) =
              cluster-of_any d f m
                (collect_operations-distinct d v is (collect_loops d v ls [])
                  (collect_loops-distinct d v ls [] refl))
                (sym taken ∙ e) in
            let (z, in_s, is_load) = any-witness (λ i. not (v.is_store_op i)) s (ground arith) in
            let at = in_cluster-collected d v ls is selected k in
            let x_at : d.identical (v.pointer_base x) k ≡ true = ground (arith, at x, found, fs) in
            let same = get_cluster-same d m (v.pointer_base x) k x_at in
            let from = in_cluster-collected d v ls is selected (v.pointer_base x) in
            (
              (
                ground (arith, from x, same, found, fs),
                z,
                ground (arith, from z, same, found, in_s),
                ground (arith, is_load),
              ),
              ground (arith, from y, same, found, fs),
            )),
      λ ((first, z, load_at, is_load), second).
          (let b : ℕ = v.pointer_base x in
            let (s, found) =
              some_set (get_cluster_ptr_for_base_ptr d m b)
                (has_cluster-collected d v ls is b ∙ ground arith) in
            let from = in_cluster-collected d v ls is selected b in
            let z_in : member z s ≡ true = ground (arith, from z, found) in
            let loads : has_load d v s ≡ true =
              any-of_member (λ i. not (v.is_store_op i)) z s z_in (ground arith) in
            taken ∙ any-of_cluster d f m b s found (ground (arith, from x, from y, found, loads))),
    )
