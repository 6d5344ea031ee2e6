-- ===== src/Hazard/Decided.antt =====
-- What calculateDecoupling and calculateSpeculation of lib/DataHazardAnalysis.cpp decide.
use elastic_sycl_hls.Prelude.{
  ℕ, zero, suc, ◌≡◌, ◌↔◌, inl, inr, refl, arith, Bool, true, false, not, ◌&&◌, Option, some, List,
  [], ◌∷◌, get_elem?, Bool-cases,
}
use elastic_sycl_hls.Prelude.Members.{any, member, any-witness, any-of_member}
use elastic_sycl_hls.Hazard.{Program, get_lod_data_dependency_src}
use elastic_sycl_hls.Hazard.DefUse.{DefUse, IsComplete}
use elastic_sycl_hls.Hazard.LodSource.{is_cluster_load, address_of, get_lod_data_dependency_src_iff}
use elastic_sycl_hls.Hazard.Decisions.{
  is_some, is_not_empty, ControlView, get_lod_ctrl_dep_sources, no_lod_data_dep, decide_decoupling,
  calculate_decoupling, needs_speculation, calculate_speculation,
}
use elastic_sycl_hls.Hazard.CtrlSources.{WaitsFor}
use elastic_sycl_hls.Hazard.CtrlSourcesEnds.{HasSources, get_lod_ctrl_dep_sources_iff}

module _ (p : Program) (hazard_instrs : List (List ℕ)) where
  no_lod_data_dep-any :
      (ms : List ℕ)
      → no_lod_data_dep p hazard_instrs ms
        ≡ not (any (λ m. is_some (get_lod_data_dependency_src p hazard_instrs m)) ms)
  unfolding no_lod_data_dep
  no_lod_data_dep-any [] = refl
  no_lod_data_dep-any (m ∷ ms) = ground (arith, no_lod_data_dep-any ms)

  decide_decoupling-get_elem? :
      (off : Bool) (cs : List (List ℕ)) (i : ℕ) (c : List ℕ)
      → get_elem? cs i ≡ some c
      → get_elem? (decide_decoupling p hazard_instrs off cs) i
        ≡ some (not off && no_lod_data_dep p hazard_instrs c)
  unfolding decide_decoupling
  decide_decoupling-get_elem? off [] i c e = (let no : ⊥ = cc in elim no [ ])
  decide_decoupling-get_elem? off (x ∷ cs) zero c e = ground (arith, e)
  decide_decoupling-get_elem? off (x ∷ cs) (suc i) c e = decide_decoupling-get_elem? off cs i c e

  -- An address of the cluster may depend on a load of a cluster.
  abbrev pub HasLodDataDep : List ℕ → Type 0
  HasLodDataDep c =
      (m : ℕ) × (l : ℕ) × (member m c ≡ true)
      × (is_cluster_load p hazard_instrs l ≡ true)
      × DefUse p l (address_of p m)

-- calculateDecoupling decides for each cluster: in a function that holds all the instructions it
-- uses, the cluster is decoupled exactly if decoupling is not switched off and the address of no
-- memory operation of the cluster may depend on a load of any cluster. The addresses of the cluster
-- are instructions of the function.
pub calculate_decoupling_iff :
    (p : Program) (hazard_instrs : List (List ℕ)) (off : Bool) (i : ℕ) (c : List ℕ)
    → IsComplete p
    → ((m : ℕ) → member m c ≡ true → member (address_of p m) p.instructions ≡ true)
    → get_elem? hazard_instrs i ≡ some c
    → (d : Bool) × (get_elem? (calculate_decoupling p hazard_instrs off) i ≡ some d)
      × ((d ≡ true) ↔ ((off ≡ false) × ¬ HasLodDataDep p hazard_instrs c))
unfolding calculate_decoupling
calculate_decoupling_iff p hazard_instrs off i c complete known at_i =
    let has : ℕ → Bool = λ m. is_some (get_lod_data_dependency_src p hazard_instrs m) in
    let as_any = no_lod_data_dep-any p hazard_instrs c in
    (
      not off && no_lod_data_dep p hazard_instrs c,
      decide_decoupling-get_elem? p hazard_instrs off hazard_instrs i c at_i,
      (
        λ decided. (
          ground arith,
          λ (m, l, in_cluster, is_load, path).
              (let found =
                  (get_lod_data_dependency_src_iff p hazard_instrs m complete
                      (known m in_cluster)).1
                    l is_load path in
                let some_of : any has c ≡ true = any-of_member has m c in_cluster found in
                let no : ⊥ = ground (arith, as_any, some_of) in elim no [ ]),
        ),
        λ (on, none_of). elim (Bool-cases (any has c)) [
          | inl some_of ↦
              (let (m, in_cluster, found) = any-witness has c some_of in
                let (l, e, is_load, path) =
                  (get_lod_data_dependency_src_iff p hazard_instrs m complete
                      (known m in_cluster)).0
                    found in
                elim (none_of (m, l, in_cluster, is_load, path)) [ ])
          | inr nothing ↦ ground (arith, as_any, nothing)
        ],
      ),
    )

module _ (v : ControlView) (parent : ℕ → ℕ) where
  calculate_speculation-get_elem? :
      (cs : List (List ℕ)) (ds : List Bool) (i : ℕ) (c : List ℕ) (d : Bool)
      → get_elem? cs i ≡ some c
      → get_elem? ds i ≡ some d
      → get_elem? (calculate_speculation v parent cs ds) i
        ≡ some (d && needs_speculation v parent c)
  unfolding calculate_speculation
  calculate_speculation-get_elem? [] ds i c d e h = (let no : ⊥ = cc in elim no [ ])
  calculate_speculation-get_elem? (x ∷ cs) [] i c d e h = (let no : ⊥ = cc in elim no [ ])
  calculate_speculation-get_elem? (x ∷ cs) (y ∷ ds) zero c d e h = ground (arith, e, h)
  calculate_speculation-get_elem? (x ∷ cs) (y ∷ ds) (suc i) c d e h =
      calculate_speculation-get_elem? cs ds i c d e h

is_not_empty-member :
    (o : Option (List ℕ)) (r : List ℕ)
    → o ≡ some r
    → is_not_empty o ≡ true
    → (s : ℕ) × (member s r ≡ true)
is_not_empty-member o [] e h = (let no : ⊥ = ground (arith, e, h) in elim no [ ])
is_not_empty-member o (s ∷ r) e h = (s, ground arith)

member-is_not_empty :
    (o : Option (List ℕ)) (r : List ℕ) (s : ℕ)
    → o ≡ some r
    → member s r ≡ true
    → is_not_empty o ≡ true
member-is_not_empty o [] s e m = (let no : ⊥ = ground (arith, m) in elim no [ ])
member-is_not_empty o (x ∷ r) s e m = ground (arith, e)

-- calculateSpeculation decides for each cluster, after its decoupling decision: the cluster is
-- speculated exactly if it is decoupled and the block of one of its memory operations has a LoD
-- control dependency source. The memory operations stand in blocks of the
-- function, and the control dependency sources of its blocks are blocks of it.
pub calculate_speculation_iff :
    (v : ControlView) (parent : ℕ → ℕ) (cs : List (List ℕ)) (ds : List Bool) (i : ℕ) (c : List ℕ)
    (d : Bool)
    → ((header : Option ℕ) → HasSources v header)
    → ((m : ℕ) → member m c ≡ true → member (parent m) v.blocks ≡ true)
    → get_elem? cs i ≡ some c
    → get_elem? ds i ≡ some d
    → (s : Bool) × (get_elem? (calculate_speculation v parent cs ds) i ≡ some s)
      × ((s ≡ true) ↔ (
          (d ≡ true)
          × (m : ℕ) × (b : ℕ) × (member m c ≡ true)
          × WaitsFor v (v.loop_header (parent m)) (parent m) b))
unfolding needs_speculation
calculate_speculation_iff v parent cs ds i c d has known at_cs at_ds =
    let needs : ℕ → Bool = λ m. is_not_empty (get_lod_ctrl_dep_sources v (parent m)) in
    (
      d && needs_speculation v parent c,
      calculate_speculation-get_elem? v parent cs ds i c d at_cs at_ds,
      (
        λ decided.
            (let (m, in_cluster, waits) = any-witness needs c (ground arith) in
              let (r, e, iff) =
                get_lod_ctrl_dep_sources_iff v (parent m) (has (v.loop_header (parent m)))
                  (known m in_cluster) in
              let (b, is_in) =
                is_not_empty-member (get_lod_ctrl_dep_sources v (parent m)) r e waits in
              (ground arith, m, b, in_cluster, (iff b).0 is_in)),
        λ (decoupled, m, b, in_cluster, waits).
            (let (r, e, iff) =
                get_lod_ctrl_dep_sources_iff v (parent m) (has (v.loop_header (parent m)))
                  (known m in_cluster) in
              let found =
                member-is_not_empty (get_lod_ctrl_dep_sources v (parent m)) r b e
                  ((iff b).1 waits) in
              ground (arith, any-of_member needs m c in_cluster found)),
      ),
    )
