-- ===== src/Hazard/CtrlSourcesEnds.antt =====
-- The end and the result of getLodCtrlDepSources of lib/DataHazardAnalysis.cpp.
use elastic_sycl_hls.Prelude.{
  ℕ, zero, suc, ◌<◌, ◌≡◌, ◌↔◌, inl, inr, refl, sym, arith, true, false, if◌then◌else◌, Option, some,
  List, [], ◌∷◌, ◌++◌, length, Bool-cases,
}
use elastic_sycl_hls.Prelude.Members.{member, distinct, left_of, left_of-take, left_of-start}
use elastic_sycl_hls.Hazard.Decisions.{
  ControlView, visit_sources, sources_loop, get_lod_ctrl_dep_sources,
}
use elastic_sycl_hls.Hazard.CtrlSources.{WaitsFor, visit_sources-worklist, sources_loop_iff}

module _ (v : ControlView) (header : Option ℕ) where
  visit_sources-distinct :
      (done ss ws result : List ℕ)
      → distinct ws ≡ true
      → distinct (visit_sources v header done ss ws result).0 ≡ true
  unfolding visit_sources
  visit_sources-distinct done [] ws result d = d
  visit_sources-distinct done (s ∷ ss) ws result d = ground (
    arith,
    visit_sources-distinct done ss ws (result ++ s ∷ []) d,
    visit_sources-distinct done ss (if member s ws then ws else s ∷ ws) result (ground arith),
    visit_sources-distinct done ss ws result d,
  )

  -- The sources of the function's blocks are blocks of it.
  abbrev pub HasSources : Type 0
  HasSources =
      (c s : ℕ)
      → member c v.blocks ≡ true
      → member s (v.control_dependency_sources c) ≡ true
      → member s v.blocks ≡ true

  pub sources_loop-ends :
      HasSources
      → (fuel : ℕ) (done ws result : List ℕ) → distinct ws ≡ true
      → ((w : ℕ) → member w ws ≡ true → (member w v.blocks ≡ true) × (member w done ≡ false))
      → left_of done v.blocks < fuel
      → (r : List ℕ) × (sources_loop v fuel header done ws result ≡ some r)
  unfolding sources_loop
  sources_loop-ends has zero done ws result d known lt = (let no : ⊥ = omega arith in elim no [ ])
  sources_loop-ends has (suc fuel) done [] result d known lt = (result, refl)
  sources_loop-ends has (suc fuel) done (c ∷ ws) result d known lt =
      let ss = v.control_dependency_sources c in
      let next = visit_sources v header (c ∷ done) ss ws result in
      let (block, new) = known c (ground arith) in
      sources_loop-ends has fuel (c ∷ done) next.0 next.1
        (visit_sources-distinct (c ∷ done) ss ws result (ground arith))
        (λ w m.
          (let split = visit_sources-worklist v header w (c ∷ done) ss ws result in
            elim (Bool-cases (member w ws)) [
              | inl old ↦ (let (b, n) = known w (ground arith) in (b, ground arith))
              | inr higher ↦ (has c w block (ground (arith, split)), ground (arith, split))
            ]))
        (ground (arith, left_of-take c done v.blocks new, block))

-- getLodCtrlDepSources ends, and a block is in its result exactly if its terminator has a LoD data
-- dependency and it is a source of the control dependencies of the given block, or of a block that
-- the search goes up to: over sources without a LoD data dependency, and not over the header of the
-- innermost loop. The block is one of the function, and the sources of its blocks are too.
pub get_lod_ctrl_dep_sources_iff :
    (v : ControlView) (b : ℕ)
    → HasSources v (v.loop_header b)
    → member b v.blocks ≡ true
    → (r : List ℕ) × (get_lod_ctrl_dep_sources v b ≡ some r)
      × ((s : ℕ) → (member s r ≡ true) ↔ WaitsFor v (v.loop_header b) b s)
unfolding get_lod_ctrl_dep_sources
get_lod_ctrl_dep_sources_iff v b has known =
    let fuel : ℕ = suc (suc (length v.blocks)) in
    let (r, e) =
      sources_loop-ends v (v.loop_header b) has fuel [] (b ∷ []) [] refl
        (λ w m. (let same : b ≡ w = ground arith in rw (sym same) known, refl))
        (omega (arith, left_of-start v.blocks)) in
    (r, e, λ s. sources_loop_iff v (v.loop_header b) b fuel r e s)
