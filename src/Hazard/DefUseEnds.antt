-- ===== src/Hazard/DefUseEnds.antt =====
-- The end and the answer of isInDefUsePath of include/CommonLLVM.h, whose worklist may hold an
-- instruction more than once.
use elastic_sycl_hls.Prelude.{
  ℕ, zero, suc, ◌+◌, ◌≤◌, ◌<◌, ◌≡◌, ◌⊎◌, ◌↔◌, inl, inr, refl, ◌∙◌, arith, ◌==◌, Bool, true, false,
  ◌||◌, if◌then◌else◌, some, List, [], ◌∷◌, length, Bool-cases,
}
use elastic_sycl_hls.Prelude.Members.{member}
use elastic_sycl_hls.Hazard.{
  Program, push_unless_done, def_use_loop, edges_left, search_def_use, is_in_def_use_path,
}
use elastic_sycl_hls.Hazard.DefUse.{
  sources_of, DefUse, IsComplete, IsComplete-source, next_worklist, def_use_loop-next,
  def_use_loop_iff, member-push_unless_done, length-push_unless_done, push_unless_done-all,
}

module _ (p : Program) where
  -- Each finished instruction on the worklist has its sources finished or above it.
  abbrev IsSettled : List ℕ → List ℕ → List ℕ → Type 0
  IsSettled done above [] = Unit
  IsSettled done above (x ∷ ws) =
      (member x done ≡ true
        → (y : ℕ) → member y (sources_of p x) ≡ true
        → (member y done || member y above) ≡ true)
      × IsSettled done (x ∷ above) ws

  IsSettled-change :
      (done done' above above' ws : List ℕ)
      → ((y : ℕ)
          → (member y done || member y above) ≡ true
          → (member y done' || member y above') ≡ true)
      → ((x : ℕ)
          → member x done' ≡ true
          → (member x done ≡ true)
            ⊎ ((y : ℕ)
                → member y (sources_of p x) ≡ true
                → (member y done' || member y above') ≡ true))
      → IsSettled done above ws
      → IsSettled done' above' ws
  IsSettled-change done done' above above' [] grow new s = s
  IsSettled-change done done' above above' (x ∷ ws) grow new (first, later) = (
    λ m y edge. elim (new x m) [ inl old ↦ grow y (first old y edge) | inr all ↦ all y edge ],
    IsSettled-change done done' (x ∷ above) (x ∷ above') ws (λ y h. ground (arith, grow y))
        (λ z m. elim (new z m) [
          | inl old ↦ inl old
          | inr all ↦ inr (λ y edge. ground (arith, all y edge))
        ])
        later,
  )

  IsSettled-push :
      (done us above ws : List ℕ)
      → IsSettled done (push_unless_done done us above) ws
      → IsSettled done above (push_unless_done done us ws)
  unfolding push_unless_done
  IsSettled-push done [] above ws s = s
  IsSettled-push done (u ∷ us) above ws s = elim (Bool-cases (member u done)) [
    | inl old ↦ rw old (IsSettled-push done us above ws (rw old at (s)))
    | inr new ↦ rw new (
        IsSettled-push done us above (u ∷ ws) (
          λ m y edge. (let no : ⊥ = cc in elim no [ ]),
          IsSettled-change done done (push_unless_done done us (u ∷ above))
              (u ∷ push_unless_done done us above) ws
              (λ y h. ground (
                arith,
                member-push_unless_done y done us (u ∷ above),
                member-push_unless_done y done us above,
              ))
              (λ x m. inl m) (rw new at (s)),
        ))
  ]

  IsSettled-next :
      (src c : ℕ) (done ws : List ℕ)
      → IsSettled done [] (c ∷ ws)
      → IsSettled (c ∷ done) [] (next_worklist p src c done ws)
  IsSettled-next src c done ws (first, later) = IsSettled-push (c ∷ done) (sources_of p c) [] ws (
      IsSettled-change done (c ∷ done) (c ∷ []) (push_unless_done (c ∷ done) (sources_of p c) []) ws
        (λ y h. ground arith)
        (λ x m. elim (Bool-cases (c == x)) [
          | inl same ↦ inr (λ y edge.
              (let at_c : member y (sources_of p c) ≡ true = ground arith in
                ground (arith, at_c, member-push_unless_done y (c ∷ done) (sources_of p c) [])))
          | inr other ↦ inl (ground arith)
        ])
        later)

  edges_left-visit :
      (c : ℕ) (done is : List ℕ)
      → member c done ≡ false
      → edges_left p (c ∷ done) is + (if member c is then suc (length (sources_of p c)) else 0)
        ≤ edges_left p done is
  edges_left-visit c done [] new = omega arith
  edges_left-visit c done (i ∷ is) new = ground (arith, edges_left-visit c done is new)

  edges_left-again : (c : ℕ) (done is : List ℕ) → edges_left p (c ∷ done) is ≤ edges_left p done is
  edges_left-again c done [] = omega arith
  edges_left-again c done (i ∷ is) = ground (arith, edges_left-again c done is)

  next_worklist-again :
      (src c : ℕ) (done ws : List ℕ)
      → IsSettled done [] (c ∷ ws)
      → member c done ≡ true
      → next_worklist p src c done ws ≡ ws
  next_worklist-again src c done ws (first, later) again =
      push_unless_done-all (c ∷ done) (sources_of p c) ws
        (λ y edge. ground (arith, first again y edge))

  next_worklist-smaller :
      (src c : ℕ) (done ws : List ℕ)
      → IsSettled done [] (c ∷ ws)
      → member c p.instructions ≡ true
      → suc (edges_left p (c ∷ done) p.instructions + length (next_worklist p src c done ws))
        ≤ edges_left p done p.instructions + length (c ∷ ws)
  next_worklist-smaller src c done ws settled known = elim (Bool-cases (member c done)) [
    | inl again ↦ ground (
      arith,
      next_worklist-again src c done ws settled again,
      edges_left-again c done p.instructions,
    )
    | inr new ↦ ground (
      arith,
      length-push_unless_done (c ∷ done) (sources_of p c) ws,
      edges_left-visit c done p.instructions new,
      known,
    )
  ]

  def_use_loop-ends :
      IsComplete p
      → (src fuel : ℕ) (done ws : List ℕ)
      → ((w : ℕ) → member w ws ≡ true → member w p.instructions ≡ true)
      → IsSettled done [] ws
      → edges_left p done p.instructions + length ws < fuel
      → (b : Bool) × (def_use_loop p fuel src done ws ≡ some b)
  unfolding def_use_loop
  def_use_loop-ends complete src zero done ws known settled lt =
      (let no : ⊥ = omega arith in elim no [ ])
  def_use_loop-ends complete src (suc fuel) done [] known settled lt = (false, refl)
  def_use_loop-ends complete src (suc fuel) done (c ∷ ws) known settled lt =
      elim (Bool-cases (member src (p.operands c))) [
        | inl direct ↦ (true, ground arith)
        | inr indirect ↦
            (let (b, e) =
                def_use_loop-ends complete src fuel (c ∷ done) (next_worklist p src c done ws)
                  (λ w m. ground (
                    arith,
                    known w,
                    known c,
                    IsComplete-source p complete c w,
                    member-push_unless_done w (c ∷ done) (sources_of p c) ws,
                  ))
                  (IsSettled-next src c done ws settled)
                  (omega (
                    arith,
                    next_worklist-smaller src c done ws settled (known c (ground arith)),
                  )) in
              (b, def_use_loop-next p src fuel c done ws indirect ∙ e))
      ]

-- In a function that holds all the instructions it uses, the search of isInDefUsePath ends with an
-- answer, which its callers get, and which is true exactly if a def-use path leads from the one
-- instruction to the other: an instruction uses its operands, and a phi node also the terminators of
-- its incoming blocks. The latter instruction is one of the function.
pub is_in_def_use_path_ends :
    (p : Program) (src dst : ℕ)
    → IsComplete p
    → member dst p.instructions ≡ true
    → (b : Bool) × (search_def_use p src dst ≡ some b)
      × (is_in_def_use_path p src dst ≡ b)
      × ((b ≡ true) ↔ DefUse p src dst)
unfolding is_in_def_use_path search_def_use
is_in_def_use_path_ends p src dst complete known =
    let fuel : ℕ = suc (suc (edges_left p [] p.instructions)) in
    let (b, e) =
      def_use_loop-ends p complete src fuel [] (dst ∷ []) (λ w m. ground arith)
        ((λ m y edge. (let no : ⊥ = cc in elim no [ ])), tt) (omega arith) in
    (b, e, ground (arith, e), def_use_loop_iff p src fuel dst b e)

pub is_in_def_use_path_iff :
    (p : Program) (src dst : ℕ)
    → IsComplete p
    → member dst p.instructions ≡ true
    → (is_in_def_use_path p src dst ≡ true) ↔ DefUse p src dst
is_in_def_use_path_iff p src dst complete known =
    let (b, found, answer, decides) = is_in_def_use_path_ends p src dst complete known in
    (λ t. decides.0 (ground (arith, answer)), λ path. ground (arith, answer, decides.1 path))
