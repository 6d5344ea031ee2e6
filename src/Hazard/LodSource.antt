-- ===== src/Hazard/LodSource.antt =====
-- The load that getLodDataDependencySrc of lib/DataHazardAnalysis.cpp returns.
use elastic_sycl_hls.Prelude.{
  ℕ, ◌≡◌, inl, inr, refl, sym, arith, ◌==◌, Bool, true, false, ◌&&◌, Option, none, some, List, [],
  ◌∷◌, Bool-cases,
}
use elastic_sycl_hls.Prelude.Members.{any, filter, member, any-append, member-filter}
use elastic_sycl_hls.Hazard.{
  Program, is_in_def_use_path, get_all_loads, first_source, or_pointer, get_lod_data_dependency_src,
}
use elastic_sycl_hls.Hazard.DefUse.{DefUse, IsComplete}
use elastic_sycl_hls.Hazard.DefUseEnds.{is_in_def_use_path_iff}
use elastic_sycl_hls.Hazard.Decisions.{is_some}

some_number : (o : Option ℕ) → is_some o ≡ true → (x : ℕ) × (o ≡ some x)
some_number none e = (let no : ⊥ = cc in elim no [ ])
some_number (some x) e = (x, refl)

no_number : (o : Option ℕ) → is_some o ≡ false → o ≡ none
no_number none e = refl
no_number (some x) e = (let no : ⊥ = cc in elim no [ ])

module _ (p : Program) where
  -- A load of one of the clusters.
  abbrev pub is_cluster_load : List (List ℕ) → ℕ → Bool
  is_cluster_load cs l = any (λ cluster. member l cluster) cs && p.is_load l

  member-get_all_loads :
      (l : ℕ) (cs : List (List ℕ)) → member l (get_all_loads p cs) ≡ is_cluster_load cs l
  unfolding get_all_loads
  member-get_all_loads l [] = refl
  member-get_all_loads l (c ∷ cs) = ground (
    arith,
    any-append (λ x. x == l) (filter p.is_load c) (get_all_loads p cs),
    member-filter p.is_load l c,
    member-get_all_loads l cs,
  )

  first_source-some :
      (loads : List ℕ) (i l : ℕ)
      → first_source p loads i ≡ some l
      → (member l loads ≡ true) × (is_in_def_use_path p l i ≡ true)
  unfolding first_source
  first_source-some [] i l e = (let no : ⊥ = cc in elim no [ ])
  first_source-some (x ∷ loads) i l e = elim (Bool-cases (is_in_def_use_path p x i)) [
    | inl h ↦ (let same : x ≡ l = ground arith in rw (sym same) (ground arith, h))
    | inr h ↦ (let (m, q) = first_source-some loads i l (ground arith) in (ground arith, q))
  ]

  first_source-none :
      (loads : List ℕ) (i l : ℕ)
      → first_source p loads i ≡ none
      → member l loads ≡ true
      → is_in_def_use_path p l i ≡ false
  unfolding first_source
  first_source-none [] i l e m = (let no : ⊥ = cc in elim no [ ])
  first_source-none (x ∷ loads) i l e m = elim (Bool-cases (x == l)) [
    | inl h ↦ (let same : x ≡ l = ground arith in rw (sym same) (ground arith))
    | inr h ↦ first_source-none loads i l (ground arith) (ground arith)
  ]

  -- The address of a memory operation, or the instruction itself.
  abbrev pub address_of : ℕ → ℕ
  address_of i = or_pointer p i (p.pointer_operand i)

-- In a function that holds all the instructions it uses, getLodDataDependencySrc returns a load of a
-- cluster on whose value the address of the memory operation, or the instruction, may depend; it
-- returns a null pointer only if there is no such load. The address, or the instruction, is one of the
-- function.
pub get_lod_data_dependency_src_iff :
    (p : Program) (hazard_instrs : List (List ℕ)) (i : ℕ)
    → IsComplete p
    → member (address_of p i) p.instructions ≡ true
    → (is_some (get_lod_data_dependency_src p hazard_instrs i) ≡ true
        → (l : ℕ) × (get_lod_data_dependency_src p hazard_instrs i ≡ some l)
          × (is_cluster_load p hazard_instrs l ≡ true)
          × DefUse p l (address_of p i))
      × ((l : ℕ)
          → is_cluster_load p hazard_instrs l ≡ true
          → DefUse p l (address_of p i)
          → is_some (get_lod_data_dependency_src p hazard_instrs i) ≡ true)
unfolding get_lod_data_dependency_src
get_lod_data_dependency_src_iff p hazard_instrs i complete known =
    let loads : List ℕ = get_all_loads p hazard_instrs in
    (
      λ found.
          (let (l, e) = some_number (first_source p loads (address_of p i)) found in
            let (m, path) = first_source-some p loads (address_of p i) l e in
            (
              l,
              e,
              ground (arith, m, member-get_all_loads p l hazard_instrs),
              (is_in_def_use_path_iff p l (address_of p i) complete known).0 path,
            )),
      λ l is_load path. elim (Bool-cases (is_some (first_source p loads (address_of p i)))) [
        | inl found ↦ found
        | inr missed ↦
            (let nothing =
                first_source-none p loads (address_of p i) l
                  (no_number (first_source p loads (address_of p i)) missed)
                  (ground (arith, member-get_all_loads p l hazard_instrs)) in
              ground (
                arith,
                nothing,
                (is_in_def_use_path_iff p l (address_of p i) complete known).1 path,
              ))
      ],
    )
