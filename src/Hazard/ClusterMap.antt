-- ===== src/Hazard/ClusterMap.antt =====
-- insertInMap and getClusterPtrForBasePtr of lib/DataHazardAnalysis.cpp as a map whose keys are
-- compared by isIdenticalTo.
use elastic_sycl_hls.Prelude.{
  ℕ, ◌≡◌, inl, inr, refl, ap, arith, ◌==◌, Bool, true, false, not, ◌&&◌, ◌||◌, Option, none, some,
  List, [], ◌∷◌, Bool-cases,
}
use elastic_sycl_hls.Prelude.Members.{any, member, any-append}
use elastic_sycl_hls.Hazard.Clusters.{
  Cluster, set_insert, Identity, get_cluster_ptr_for_base_ptr, insert_in_map, insert_in_cluster,
}

abbrev pub is_set : Option (List ℕ) → Bool
is_set none = false
is_set (some s) = true

abbrev pub in_set : ℕ → Option (List ℕ) → Bool
in_set x none = false
in_set x (some s) = member x s

member-set_insert : (x i : ℕ) (s : List ℕ) → member x (set_insert i s) ≡ ((i == x) || member x s)
member-set_insert x i s = ground (arith, any-append (λ c. c == x) s (i ∷ []))

module _ (d : Identity) where
  -- Whether there is a cluster for a base, and whether an instruction is in it.
  abbrev pub has_cluster : List Cluster → ℕ → Bool
  has_cluster m b = is_set (get_cluster_ptr_for_base_ptr d m b)

  abbrev pub in_cluster : List Cluster → ℕ → ℕ → Bool
  in_cluster m b x = in_set x (get_cluster_ptr_for_base_ptr d m b)

  same_class : (k b c : ℕ) → d.identical k b ≡ true → d.identical k c ≡ d.identical b c
  same_class k b c e =
      ground (arith, d.identical_trans b k c, d.identical_trans k b c, d.identical_sym k b)

  pub has_cluster-insert_in_map :
      (m : List Cluster) (b i c : ℕ)
      → has_cluster (insert_in_map d m b i) c ≡ (d.identical b c || has_cluster m c)
  unfolding insert_in_map get_cluster_ptr_for_base_ptr
  has_cluster-insert_in_map [] b i c = ground arith
  has_cluster-insert_in_map ((k, s) ∷ m) b i c =
      ground (arith, has_cluster-insert_in_map m b i c, same_class k b c)

  pub in_cluster-insert_in_map :
      (m : List Cluster) (b i c x : ℕ)
      → in_cluster (insert_in_map d m b i) c x ≡ ((d.identical b c && (i == x)) || in_cluster m c x)
  unfolding insert_in_map get_cluster_ptr_for_base_ptr
  in_cluster-insert_in_map [] b i c x = ground arith
  in_cluster-insert_in_map ((k, s) ∷ m) b i c x = ground (
    arith,
    in_cluster-insert_in_map m b i c x,
    same_class k b c,
    d.identical_trans k c b,
    d.identical_sym b c,
    member-set_insert x i s,
  )

  pub has_cluster-insert_in_cluster :
      (m : List Cluster) (b i c : ℕ) → has_cluster (insert_in_cluster d m b i) c ≡ has_cluster m c
  unfolding insert_in_cluster get_cluster_ptr_for_base_ptr
  has_cluster-insert_in_cluster [] b i c = refl
  has_cluster-insert_in_cluster ((k, s) ∷ m) b i c =
      ground (arith, has_cluster-insert_in_cluster m b i c)

  pub in_cluster-insert_in_cluster :
      (m : List Cluster) (b i c x : ℕ)
      → in_cluster (insert_in_cluster d m b i) c x
        ≡ ((d.identical b c && has_cluster m c && (i == x)) || in_cluster m c x)
  unfolding insert_in_cluster get_cluster_ptr_for_base_ptr
  in_cluster-insert_in_cluster [] b i c x = ground arith
  in_cluster-insert_in_cluster ((k, s) ∷ m) b i c x = ground (
    arith,
    in_cluster-insert_in_cluster m b i c x,
    same_class k b c,
    d.identical_trans k c b,
    d.identical_sym b c,
    member-set_insert x i s,
  )

  -- No two keys are identical.
  abbrev pub has_distinct_keys : List Cluster → Bool
  has_distinct_keys [] = true
  has_distinct_keys ((k, s) ∷ m) = not (has_cluster m k) && has_distinct_keys m

  pub insert_in_map-distinct :
      (m : List Cluster) (b i : ℕ)
      → has_distinct_keys m ≡ true
      → has_distinct_keys (insert_in_map d m b i) ≡ true
  unfolding insert_in_map get_cluster_ptr_for_base_ptr
  insert_in_map-distinct [] b i h = refl
  insert_in_map-distinct ((k, s) ∷ m) b i h =
      ground (
        arith,
        insert_in_map-distinct m b i,
        has_cluster-insert_in_map m b i k,
        d.identical_sym k b,
      )

  pub insert_in_cluster-distinct :
      (m : List Cluster) (b i : ℕ)
      → has_distinct_keys m ≡ true
      → has_distinct_keys (insert_in_cluster d m b i) ≡ true
  unfolding insert_in_cluster
  insert_in_cluster-distinct [] b i h = refl
  insert_in_cluster-distinct ((k, s) ∷ m) b i h =
      ground (arith, insert_in_cluster-distinct m b i, has_cluster-insert_in_cluster m b i k)

module _ (d : Identity) where
  -- In a map with distinct keys, what a set satisfies is found under its key, and the other way round.
  pub any-of_cluster :
      (f : List ℕ → Bool) (m : List Cluster) (b : ℕ) (s : List ℕ)
      → get_cluster_ptr_for_base_ptr d m b ≡ some s
      → f s ≡ true
      → any (λ c. f c.1) m ≡ true
  unfolding get_cluster_ptr_for_base_ptr
  any-of_cluster f [] b s e h = (let no : ⊥ = cc in elim no [ ])
  any-of_cluster f ((k, t) ∷ m) b s e h = elim (Bool-cases (d.identical k b)) [
    | inl here ↦ (let same : t ≡ s = ground arith in ground (arith, ap f same))
    | inr later ↦ ground (arith, any-of_cluster f m b s (ground arith) h)
  ]

  pub get_cluster-same :
      (m : List Cluster) (b c : ℕ)
      → d.identical b c ≡ true
      → get_cluster_ptr_for_base_ptr d m b ≡ get_cluster_ptr_for_base_ptr d m c
  unfolding get_cluster_ptr_for_base_ptr
  get_cluster-same [] b c e = refl
  get_cluster-same ((k, t) ∷ m) b c e = ground (
    arith,
    get_cluster-same m b c e,
    d.identical_trans k b c,
    d.identical_trans k c b,
    d.identical_sym b c,
  )

  pub cluster-of_any :
      (f : List ℕ → Bool) (m : List Cluster)
      → has_distinct_keys d m ≡ true
      → any (λ c. f c.1) m ≡ true
      → (k : ℕ) × (s : List ℕ) × (get_cluster_ptr_for_base_ptr d m k ≡ some s) × (f s ≡ true)
  unfolding get_cluster_ptr_for_base_ptr
  cluster-of_any f [] h e = (let no : ⊥ = cc in elim no [ ])
  cluster-of_any f ((k, t) ∷ m) h e = elim (Bool-cases (f t)) [
    | inl here ↦ (k, t, ground (arith, d.identical_refl k), here)
    | inr later ↦
        (let (b, s, found, fs) = cluster-of_any f m (ground arith) (ground arith) in
          elim (Bool-cases (d.identical k b)) [
            | inl same ↦
                (let no : ⊥ = ground (arith, get_cluster-same m k b same, found) in elim no [ ])
            | inr other ↦ (b, s, ground arith, fs)
          ])
  ]
