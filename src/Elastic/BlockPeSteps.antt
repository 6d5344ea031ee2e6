-- ===== src/Elastic/BlockPeSteps.antt =====
-- The steps of the PE of a decoupled block through one loop of its kernel.
use elastic_sycl_hls.Prelude.{
  ℕ, ◌≡◌, inl, inr, refl, sym, arith, Bool, true, false, ◌&&◌, if◌then◌else◌, some, List, [], ◌∷◌,
  Bool-cases,
}
use elastic_sycl_hls.Elastic.BlockPe.{
  PredCode, PeInfo, Iteration, iteration_preds, iteration_values, iteration_inputs, is_execute,
  is_poison, PeBlock, PeState, pe_at, step_block, pe_step, ◌⟶*◌,
}

-- The recurrence of the loop as the program has it: the decoupled block updates it.
abbrev pub loop_value : (ℕ → ℕ → ℕ) → List Iteration → ℕ → ℕ
loop_value update [] r = r
loop_value update (Iteration.executes a y ∷ is) r = loop_value update is (update r y)
loop_value update (Iteration.takes_poison_edge ∷ is) r = loop_value update is r
loop_value update (Iteration.passes ∷ is) r = loop_value update is r

-- The results of the decoupled block, each time it executes, the newest first.
abbrev pub block_results : (ℕ → ℕ → ℕ) → List Iteration → List ℕ → List ℕ
block_results update [] outs = outs
block_results update (Iteration.executes a y ∷ is) outs =
    block_results update is (update a y ∷ outs)
block_results update (Iteration.takes_poison_edge ∷ is) outs = block_results update is outs
block_results update (Iteration.passes ∷ is) outs = block_results update is outs

-- The poison edge is taken only if the PE has a poison block.
abbrev pub is_poison_expected : PeInfo → List Iteration → Bool
is_poison_expected pe [] = true
is_poison_expected pe (Iteration.executes a y ∷ is) = is_poison_expected pe is
is_poison_expected pe (Iteration.takes_poison_edge ∷ is) =
    pe.needs_poison && is_poison_expected pe is
is_poison_expected pe (Iteration.passes ∷ is) = is_poison_expected pe is

module _ (pe : PeInfo) (update : ℕ → ℕ → ℕ) where
  pub one_step : (s t : PeState) → pe_step pe update s ≡ some t → ◌⟶*◌ pe update s t
  one_step s t e = ◌⟶*◌.then s t t e (◌⟶*◌.here t)

  pub steps_trans : (s t u : PeState) → ◌⟶*◌ pe update s t → ◌⟶*◌ pe update t u → ◌⟶*◌ pe update s u
  steps_trans s _ u (◌⟶*◌.here _) rest = rest
  steps_trans s t u (◌⟶*◌.then _ m _ e more) rest = ◌⟶*◌.then s m u e (steps_trans m t u more rest)

  -- The phi node and the outputs after some iterations.
  abbrev pub value_after : List Iteration → ℕ → ℕ
  value_after is r = if pe.is_hoisted then loop_value update is r else r

  abbrev pub outputs_after : List Iteration → List ℕ → List ℕ
  outputs_after is outs = if pe.is_hoisted then outs else block_results update is outs

  body_step :
      (ps : List PredCode) (vs xs outs : List ℕ) (a y r : ℕ)
      → pe_step pe update
          (pe_at PeBlock.body ps (if pe.is_hoisted then vs else a ∷ vs) (y ∷ xs) r outs)
        ≡ some (
            pe_at PeBlock.header ps vs xs
              (if pe.is_hoisted then update r y else r)
              (if pe.is_hoisted then outs else update a y ∷ outs))
  unfolding pe_step step_block
  body_step ps [] xs outs a y r = ground arith
  body_step ps (v ∷ vs) xs outs a y r = ground arith

  execute_steps :
      (ps : List PredCode) (vs xs outs : List ℕ) (a y r : ℕ)
      → ◌⟶*◌ pe update
          (pe_at PeBlock.header
            (PredCode.execute ∷ ps)
            (if pe.is_hoisted then vs else a ∷ vs)
            (y ∷ xs)
            r
            outs)
          (pe_at PeBlock.header ps vs xs
            (if pe.is_hoisted then update r y else r)
            (if pe.is_hoisted then outs else update a y ∷ outs))
  unfolding pe_step step_block
  execute_steps ps vs xs outs a y r =
      ◌⟶*◌.then _ (pe_at PeBlock.body ps (if pe.is_hoisted then vs else a ∷ vs) (y ∷ xs) r outs) _
        refl (one_step _ _ (body_step ps vs xs outs a y r))

  poison_steps :
      (ps : List PredCode) (vs xs outs : List ℕ) (r : ℕ)
      → pe.needs_poison ≡ true
      → ◌⟶*◌ pe update
          (pe_at PeBlock.header (PredCode.poison ∷ ps) vs xs r outs)
          (pe_at PeBlock.header ps vs xs r outs)
  unfolding pe_step step_block
  poison_steps ps vs xs outs r has =
      ◌⟶*◌.then _ (pe_at (PeBlock.before_exiting PredCode.poison) ps vs xs r outs) _
        (ground (arith, has))
        (◌⟶*◌.then _ (pe_at PeBlock.poison_block ps vs xs r outs) _ refl (one_step _ _ refl))

  arrives :
      (s : PeState) (ps : List PredCode) (vs xs : List ℕ) (r r' : ℕ) (outs outs' : List ℕ)
      → r ≡ r'
      → outs ≡ outs'
      → ◌⟶*◌ pe update s (pe_at PeBlock.header ps vs xs r outs)
      → ◌⟶*◌ pe update s (pe_at PeBlock.header ps vs xs r' outs')
  arrives s ps vs xs r r' outs outs' same_r same_outs steps = rw (sym same_r, sym same_outs) steps

  pub iteration_steps :
      (is : List Iteration) (ps : List PredCode) (vs xs outs : List ℕ) (r : ℕ)
      → is_poison_expected pe is ≡ true
      → ◌⟶*◌ pe update
          (pe_at PeBlock.header
            (iteration_preds pe is ps)
            (iteration_values pe is vs)
            (iteration_inputs pe is xs)
            r
            outs)
          (pe_at PeBlock.header ps vs xs (value_after is r) (outputs_after is outs))
  unfolding iteration_preds iteration_values iteration_inputs
  iteration_steps [] ps vs xs outs r ok =
      arrives _ ps vs xs r _ outs _ (ground arith) (ground arith) (◌⟶*◌.here _)
  iteration_steps (Iteration.executes a y ∷ is) ps vs xs outs r ok =
      arrives _ ps vs xs (value_after is (if pe.is_hoisted then update r y else r)) _
        (outputs_after is (if pe.is_hoisted then outs else update a y ∷ outs)) _ (ground arith)
        (ground arith)
        (steps_trans _ _ _ (execute_steps _ _ _ outs a y r) (
          iteration_steps is ps vs xs (if pe.is_hoisted then outs else update a y ∷ outs)
            (if pe.is_hoisted then update r y else r) ok))
  iteration_steps (Iteration.takes_poison_edge ∷ is) ps vs xs outs r ok =
      steps_trans _ _ _ (poison_steps _ _ _ outs r (ground (arith, ok)))
        (iteration_steps is ps vs xs outs r (ground (arith, ok)))
  iteration_steps (Iteration.passes ∷ is) ps vs xs outs r ok = iteration_steps is ps vs xs outs r ok

  pub enter_steps :
      (ps : List PredCode) (vs xs outs : List ℕ) (v r : ℕ)
      → ◌⟶*◌ pe update
          (pe_at PeBlock.pre_header ps (if pe.is_hoisted then v ∷ vs else vs) xs r outs)
          (pe_at PeBlock.header ps vs xs (if pe.is_hoisted then v else r) outs)
  unfolding pe_step step_block
  enter_steps ps [] xs outs v r = one_step _ _ (ground arith)
  enter_steps ps (w ∷ vs) xs outs v r = one_step _ _ (ground arith)

  pub to_exiting_steps :
      (p : PredCode) (ps : List PredCode) (vs xs outs : List ℕ) (r : ℕ)
      → is_execute p ≡ false
      → is_poison p ≡ false
      → ◌⟶*◌ pe update
          (pe_at PeBlock.header (p ∷ ps) vs xs r outs)
          (pe_at (PeBlock.exiting p) ps vs xs r outs)
  unfolding pe_step step_block
  to_exiting_steps p ps vs xs outs r no_exec no_poison = elim (Bool-cases pe.needs_poison) [
    | inl has ↦
        ◌⟶*◌.then _ (pe_at (PeBlock.before_exiting p) ps vs xs r outs) _
          (ground (arith, has, no_exec)) (one_step _ _ (ground (arith, no_poison)))
    | inr hasnt ↦ one_step _ _ (ground (arith, hasnt, no_exec))
  ]
