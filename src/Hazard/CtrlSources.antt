-- ===== src/Hazard/CtrlSources.antt =====
-- The blocks that getLodCtrlDepSources of lib/DataHazardAnalysis.cpp searches.
use elastic_sycl_hls.Prelude.{
  ℕ, zero, suc, ◌≡◌, ◌↔◌, inl, inr, refl, sym, arith, ◌==◌, Bool, true, not, ◌&&◌, ◌||◌,
  if◌then◌else◌, Option, some, List, [], ◌∷◌, ◌++◌, Bool-cases,
}
use elastic_sycl_hls.Prelude.Members.{member, any-append}
use elastic_sycl_hls.Hazard.Decisions.{ControlView, is_header, visit_sources, sources_loop}

module _ (v : ControlView) (header : Option ℕ) where
  -- Whether the search goes on to a source.
  abbrev pub goes_higher : ℕ → Bool
  goes_higher s = not (v.has_lod s) && not (is_header header s)

  -- The search goes from a block to another: over sources without a LoD, and not over the header.
  pub data Higher (from : ℕ) : ℕ → Type 0 where
    here : Higher from from
    step :
        (c s : ℕ)
        → Higher from c
        → member s (v.control_dependency_sources c) ≡ true
        → goes_higher s ≡ true
        → Higher from s

  pub visit_sources-worklist :
      (x : ℕ) (done ss ws result : List ℕ)
      → member x (visit_sources v header done ss ws result).0
        ≡ ((member x ss && goes_higher x && not (member x done)) || member x ws)
  unfolding visit_sources
  visit_sources-worklist x done [] ws result = refl
  visit_sources-worklist x done (s ∷ ss) ws result = ground (
    arith,
    visit_sources-worklist x done ss ws (result ++ s ∷ []),
    visit_sources-worklist x done ss (if member s ws then ws else s ∷ ws) result,
    visit_sources-worklist x done ss ws result,
  )

  visit_sources-result :
      (x : ℕ) (done ss ws result : List ℕ)
      → member x (visit_sources v header done ss ws result).1
        ≡ ((member x ss && v.has_lod x) || member x result)
  unfolding visit_sources
  visit_sources-result x done [] ws result = refl
  visit_sources-result x done (s ∷ ss) ws result = ground (
    arith,
    visit_sources-result x done ss ws (result ++ s ∷ []),
    any-append (λ c. c == x) result (s ∷ []),
    visit_sources-result x done ss (if member s ws then ws else s ∷ ws) result,
    visit_sources-result x done ss ws result,
  )

  -- A block that waits for another.
  abbrev pub WaitsFor : ℕ → ℕ → Type 0
  WaitsFor from s =
      (c : ℕ) × Higher from c
      × (member s (v.control_dependency_sources c) ≡ true)
      × (v.has_lod s ≡ true)

  sources_loop_sound :
      (from fuel : ℕ) (done ws result r : List ℕ)
      → sources_loop v fuel header done ws result ≡ some r
      → ((w : ℕ) → member w ws ≡ true → Higher from w)
      → ((s : ℕ) → member s result ≡ true → WaitsFor from s)
      → (s : ℕ) → member s r ≡ true
      → WaitsFor from s
  unfolding sources_loop
  sources_loop_sound from zero done ws result r e high good s m = (let no : ⊥ = cc in elim no [ ])
  sources_loop_sound from (suc fuel) done [] result r e high good s m =
      let same : result ≡ r = cc in good s (rw same m)
  sources_loop_sound from (suc fuel) done (c ∷ ws) result r e high good s m =
      let ss = v.control_dependency_sources c in
      let next = visit_sources v header (c ∷ done) ss ws result in
      sources_loop_sound from fuel (c ∷ done) next.0 next.1 r e
        (λ w mw. elim (Bool-cases (member w ws)) [
          | inl old ↦ high w (ground arith)
          | inr new ↦
              (let split = visit_sources-worklist w (c ∷ done) ss ws result in
                Higher.step c w (high c (ground arith)) (ground (arith, split))
                  (ground (arith, split)))
        ])
        (λ t mt. elim (Bool-cases (member t result)) [
          | inl old ↦ good t old
          | inr new ↦
              (let split = visit_sources-result t (c ∷ done) ss ws result in
                (c, high c (ground arith), ground (arith, split), ground (arith, split)))
        ])
        s m

  -- The sources of a finished block are found, finished or waiting.
  abbrev IsClosed : List ℕ → List ℕ → List ℕ → Type 0
  IsClosed done ws result =
      (c : ℕ)
      → member c done ≡ true
      → (s : ℕ) → member s (v.control_dependency_sources c) ≡ true
      → (v.has_lod s ≡ true → member s result ≡ true)
        × (goes_higher s ≡ true → (member s done || member s ws) ≡ true)

  IsClosed-next :
      (c : ℕ) (done ws result : List ℕ)
      → IsClosed done (c ∷ ws) result
      → IsClosed
          (c ∷ done)
          (visit_sources v header (c ∷ done) (v.control_dependency_sources c) ws result).0
          (visit_sources v header (c ∷ done) (v.control_dependency_sources c) ws result).1
  IsClosed-next c done ws result closed x m s edge =
      let ss = v.control_dependency_sources c in
      let on_list = visit_sources-worklist s (c ∷ done) ss ws result in
      let in_result = visit_sources-result s (c ∷ done) ss ws result in
      elim (Bool-cases (c == x)) [
        | inl same ↦
            (let at_c : member s (v.control_dependency_sources c) ≡ true = ground arith in
              (λ lod. ground (arith, in_result, at_c), λ high. ground (arith, on_list, at_c)))
        | inr other ↦
            (let (a, b) = closed x (ground arith) s edge in
              (λ lod. ground (arith, in_result, a lod), λ high. ground (arith, on_list, b high)))
      ]

  sources_loop-IsClosed :
      (fuel : ℕ) (done ws result r : List ℕ)
      → sources_loop v fuel header done ws result ≡ some r
      → IsClosed done ws result
      → (d : List ℕ) × IsClosed d [] r
        × ((x : ℕ) → (member x done || member x ws) ≡ true → member x d ≡ true)
  unfolding sources_loop
  sources_loop-IsClosed zero done ws result r e closed = (let no : ⊥ = cc in elim no [ ])
  sources_loop-IsClosed (suc fuel) done [] result r e closed =
      let same : result ≡ r = cc in (done, rw (sym same) closed, λ x m. ground arith)
  sources_loop-IsClosed (suc fuel) done (c ∷ ws) result r e closed =
      let ss = v.control_dependency_sources c in
      let next = visit_sources v header (c ∷ done) ss ws result in
      let (d, cl, kept) =
        sources_loop-IsClosed fuel (c ∷ done) next.0 next.1 r e
          (IsClosed-next c done ws result closed) in
      (d, cl, λ x m. kept x (ground (arith, visit_sources-worklist x (c ∷ done) ss ws result)))

  all-Higher :
      (from : ℕ) (d r : List ℕ)
      → IsClosed d [] r
      → member from d ≡ true
      → (x : ℕ) → Higher from x
      → member x d ≡ true
  all-Higher from d r closed start _ Higher.here = start
  all-Higher from d r closed start x (Higher.step c _ high edge up) =
      let at_c = all-Higher from d r closed start c high in
      ground (arith, (closed c at_c x edge).1 up)

  pub sources_loop_iff :
      (from fuel : ℕ) (r : List ℕ)
      → sources_loop v fuel header [] (from ∷ []) [] ≡ some r
      → (s : ℕ) → (member s r ≡ true) ↔ WaitsFor from s
  sources_loop_iff from fuel r e s = (
    sources_loop_sound from fuel [] (from ∷ []) [] r e
        (λ w m. let same : from ≡ w = ground arith in rw same Higher.here)
        (λ t m. (let no : ⊥ = cc in elim no [ ])) s,
    λ (c, high, edge, lod).
        (let (d, closed, kept) =
            sources_loop-IsClosed fuel [] (from ∷ []) [] r e
              (λ x m. (let no : ⊥ = cc in elim no [ ])) in
          (closed c (all-Higher from d r closed (kept from (ground arith)) c high) s edge).0 lod),
  )
