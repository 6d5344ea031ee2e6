-- ===== src/Cddd/LoopsChosen.antt =====
-- Which loops the second part of collectLoopsToDecouple of lib/CDDDAnalysis.cpp chooses.
use elastic_sycl_hls.Prelude.{
  ℕ, ◌≡◌, ◌⊎◌, inl, inr, sym, arith, ◌==◌, Bool, true, false, not, ◌&&◌, ◌||◌, some, List, [], ◌∷◌,
  Bool-cases,
}
use elastic_sycl_hls.Prelude.Members.{any-append, member, distinct, option_cases}
use elastic_sycl_hls.Cddd.Maps.{find}
use elastic_sycl_hls.Cddd.View.{is_loop_unrolled}
use elastic_sycl_hls.Cddd.Loops.{
  LoopNest, LoopFacts, OtherLoops, LoopChoice, has_alias, has_register_dep, scan_others,
  is_control_dep, is_only_one, is_skipped, others_of, choose_loop, choose_loops,
}

-- Each entry is the one that is found by its key.
abbrev pub AllFound : List (ℕ × List ℕ) → List (ℕ × List ℕ) → Type 0
AllFound [] whole = Unit
AllFound (e ∷ es) whole = (find e.0 whole ≡ some e.1) × AllFound es whole

abbrev pub keys : List (ℕ × List ℕ) → List ℕ
keys [] = []
keys (e ∷ es) = e.0 ∷ keys es

AllFound-cons :
    (k : ℕ) (x : List ℕ) (es whole : List (ℕ × List ℕ))
    → member k (keys es) ≡ false
    → AllFound es whole
    → AllFound es ((k, x) ∷ whole)
AllFound-cons k x [] whole new all = tt
AllFound-cons k x (e ∷ es) whole new (here, all) =
    (ground (arith, here), AllFound-cons k x es whole (ground arith) all)

pub distinct-AllFound : (es : List (ℕ × List ℕ)) → distinct (keys es) ≡ true → AllFound es es
distinct-AllFound [] d = tt
distinct-AllFound ((k, x) ∷ es) d =
    (ground arith, AllFound-cons k x es es (ground arith) (distinct-AllFound es (ground arith)))

find_cases :
    (k o : ℕ) (os others : List ℕ) (es : List (ℕ × List ℕ))
    → find k ((o, os) ∷ es) ≡ some others
    → ((o ≡ k) × (os ≡ others)) ⊎ (find k es ≡ some others)
find_cases k o os others es there = elim (Bool-cases (o == k)) [
  | inl same ↦ inl (ground (arith, same), (let h = rw same at (there) in cc))
  | inr other ↦ inr (rw other at (there))
]

module _ (n : LoopNest) (f : LoopFacts) where
  -- What is to hold of a loop that is decoupled.
  pub record IsDecoupledLoop (l : ℕ) : Type 0 where
    pub memories : List ℕ
    pub at_loop : find l f.memory_uses ≡ some memories
    pub not_unrolled : is_loop_unrolled n.view l ≡ some false
    pub not_front : (n.front_loop == l) ≡ false
    pub sibling_or_dep :
        (is_only_one n (find (n.depth l) f.num_at_level) && not (is_control_dep n l false)) ≡ false
    pub no_alias :
        (k : ℕ) (others : List ℕ)
        → find k f.memory_uses ≡ some others
        → (k == l) ≡ false
        → has_alias n f.stored memories others ≡ false
    pub independent :
        (is_control_dep n l false ≡ true)
        ⊎ ((k : ℕ) (others : List ℕ)
            → find k f.memory_uses ≡ some others
            → (k == l) ≡ false
            → has_register_dep n l k ≡ false)

  scan_others-no_alias :
      (l : ℕ) (memories : List ℕ) (entries : List (ℕ × List ℕ)) (s : OtherLoops)
      → (scan_others n f.stored l memories entries s).no_mem_alias ≡ true
      → (s.no_mem_alias ≡ true)
        × ((k : ℕ) (others : List ℕ)
            → find k entries ≡ some others
            → (k == l) ≡ false
            → has_alias n f.stored memories others ≡ false)
  unfolding scan_others
  scan_others-no_alias l memories [] s e =
      (e, λ k others there other. (let no : ⊥ = cc in elim no [ ]))
  scan_others-no_alias l memories ((o, os) ∷ entries) s e =
      let (before, all) = scan_others-no_alias l memories entries _ e in
      (
        ground (arith, before),
        λ k others there other. elim (find_cases k o os others entries there) [
          | inl (at_key, same) ↦
              (let clear : has_alias n f.stored memories os ≡ false =
                  ground (arith, before, at_key, other) in
                rw same at (clear))
          | inr later ↦ all k others later other
        ],
      )

  scan_others-independent :
      (l : ℕ) (memories : List ℕ) (entries : List (ℕ × List ℕ)) (s : OtherLoops)
      → (scan_others n f.stored l memories entries s).no_register_dep ≡ true
      → (s.no_register_dep ≡ true)
        × ((k : ℕ) (others : List ℕ)
            → find k entries ≡ some others
            → (k == l) ≡ false
            → has_register_dep n l k ≡ false)
  unfolding scan_others
  scan_others-independent l memories [] s e =
      (e, λ k others there other. (let no : ⊥ = cc in elim no [ ]))
  scan_others-independent l memories ((o, os) ∷ entries) s e =
      let (before, all) = scan_others-independent l memories entries _ e in
      (
        ground (arith, before),
        λ k others there other. elim (find_cases k o os others entries there) [
          | inl (at_key, same) ↦
              (let clear : ((o == l) ≡ false) → has_register_dep n l o ≡ false =
                  (λ differs. ground (arith, before, differs)) in
                rw (sym at_key) (clear (rw at_key other)))
          | inr later ↦ all k others later other
        ],
      )

  choose_loop_taken :
      (l x : ℕ) (memories : List ℕ) (unrolled : Bool) (c : LoopChoice)
      → member x (choose_loop n f l memories unrolled c).loops_to_decouple ≡ true
      → member x c.loops_to_decouple ≡ false
      → let s = others_of n f l memories c.excluded in
        (is_skipped n f c.excluded l unrolled ≡ false)
        × (s.no_mem_alias ≡ true)
        × ((s.no_register_dep || is_control_dep n l unrolled) ≡ true)
        × (l ≡ x)
  unfolding choose_loop
  choose_loop_taken l x memories unrolled c m new =
      elim (Bool-cases (is_skipped n f c.excluded l unrolled)) [
        | inl skips ↦ (let h = rw (choose_loop, skips) at (m) in let no : ⊥ = cc in elim no [ ])
        | inr goes ↦
            (let h = rw (choose_loop, goes) at (m) in
              let s = others_of n f l memories c.excluded in
              elim (Bool-cases
                (s.no_mem_alias && (s.no_register_dep || is_control_dep n l unrolled))) [
                  | inl fits ↦
                      (let h' = rw fits at (h) in
                        (
                          goes,
                          ground (arith, fits),
                          ground (arith, fits),
                          ground (
                            arith,
                            h',
                            new,
                            any-append (λ k. k == x) c.loops_to_decouple (l ∷ []),
                          ),
                        ))
                  | inr unfit ↦ (let h' = rw unfit at (h) in let no : ⊥ = cc in elim no [ ])
                ])
      ]

  choose_loop_sound :
      (l x : ℕ) (memories : List ℕ) (unrolled : Bool) (c : LoopChoice)
      → find l f.memory_uses ≡ some memories
      → is_loop_unrolled n.view l ≡ some unrolled
      → member x (choose_loop n f l memories unrolled c).loops_to_decouple ≡ true
      → (member x c.loops_to_decouple ≡ true) ⊎ IsDecoupledLoop x
  choose_loop_sound l x memories unrolled c at_loop is_unrolled m =
      elim (Bool-cases (member x c.loops_to_decouple)) [
        | inl old ↦ inl old
        | inr new ↦
            (let (goes, clear, free, same) = choose_loop_taken l x memories unrolled c m new in
              let start : OtherLoops = record {
                no_mem_alias = true;
                no_register_dep = true;
                do_not_decouple = c.excluded;
              } in
              let rolled : unrolled ≡ false = ground (arith, goes) in
              inr (
                rw (sym same) (record {
                  memories = memories;
                  at_loop = at_loop;
                  not_unrolled = rw rolled at (is_unrolled);
                  not_front = ground (arith, goes);
                  sibling_or_dep = ground (arith, goes, rolled);
                  no_alias = (scan_others-no_alias l memories f.memory_uses start clear).1;
                  independent = elim (Bool-cases (is_control_dep n l false)) [
                    | inl dep ↦ inl dep
                    | inr none_there ↦
                        inr
                          (scan_others-independent l memories f.memory_uses start
                            (ground (arith, free, none_there, rolled))).1
                  ];
                })))
      ]

  pub choose_loops_sound :
      (entries : List (ℕ × List ℕ)) (c r : LoopChoice) (x : ℕ)
      → AllFound entries f.memory_uses
      → choose_loops n f entries c ≡ some r
      → member x r.loops_to_decouple ≡ true
      → (member x c.loops_to_decouple ≡ true) ⊎ IsDecoupledLoop x
  unfolding choose_loops
  choose_loops_sound [] c r x all e m = let same : c ≡ r = cc in inl (rw same m)
  choose_loops_sound ((l, memories) ∷ entries) c r x (here, all) e m =
      elim (option_cases (is_loop_unrolled n.view l)) [
        | inl null ↦ (let no : ⊥ = (let h = rw (choose_loops, null) at (e) in cc) in elim no [ ])
        | inr (unrolled, is_unrolled) ↦
            elim (choose_loops_sound entries (choose_loop n f l memories unrolled c) r x all
              (rw (choose_loops, is_unrolled) at (e)) m) [
                | inl now ↦ choose_loop_sound l x memories unrolled c here is_unrolled now
                | inr good ↦ inr good
              ]
      ]
