-- ===== src/Elastic/BlockPeRuns.antt =====
-- The PE of a decoupled block runs against all that its kernel writes.
use elastic_sycl_hls.Prelude.{
  ℕ, ◌+◌, ◌≡◌, ◌⊎◌, inl, inr, refl, sym, ap, arith, Bool, true, false, ◌&&◌, if◌then◌else◌, List,
  [], ◌∷◌, length, Bool-cases,
}
use elastic_sycl_hls.Elastic.BlockPe.{
  PredCode, PeInfo, Iteration, LoopRun, iteration_preds, kernel_preds, iteration_values,
  kernel_values, kernel_inputs, iteration_reads, kernel_reads, PeBlock, PeState, pe_at, step_block,
  pe_step, ◌⟶*◌,
}
use elastic_sycl_hls.Elastic.BlockPeSteps.{
  loop_value, block_results, is_poison_expected, one_step, steps_trans, value_after, outputs_after,
  iteration_steps, enter_steps, to_exiting_steps,
}

module _ (pe : PeInfo) (update : ℕ → ℕ → ℕ) where
  -- The value of the recurrence at each end of the loop, or the results of the block; the last is
  -- what the PE makes of the repeated write in the kernel's exit block.
  abbrev pub kernel_outputs : ℕ → List LoopRun → List ℕ → List ℕ
  kernel_outputs stale [] outs = if pe.needs_reset && pe.is_hoisted then stale ∷ outs else outs
  kernel_outputs stale (run ∷ runs) outs = kernel_outputs stale runs (
      if pe.is_hoisted
      then loop_value update run.iterations run.initial ∷ outs
      else block_results update run.iterations outs)

  abbrev pub are_poisons_expected : List LoopRun → Bool
  are_poisons_expected [] = true
  are_poisons_expected (run ∷ runs) =
      is_poison_expected pe run.iterations && are_poisons_expected runs

  starts_with :
      (ps ps' : List PredCode) (vs vs' xs : List ℕ) (r : ℕ) (outs : List ℕ) (t : PeState)
      → ps ≡ ps'
      → vs ≡ vs'
      → ◌⟶*◌ pe update (pe_at PeBlock.pre_header ps' vs' xs r outs) t
      → ◌⟶*◌ pe update (pe_at PeBlock.pre_header ps vs xs r outs) t
  starts_with ps ps' vs vs' xs r outs t same_ps same_vs steps = rw (same_ps, same_vs) steps

  ends_with :
      (s : PeState) (r r' : ℕ) (outs outs' : List ℕ)
      → r ≡ r'
      → outs ≡ outs'
      → ◌⟶*◌ pe update s (pe_at PeBlock.exit_block [] [] [] r outs)
      → ◌⟶*◌ pe update s (pe_at PeBlock.exit_block [] [] [] r' outs')
  ends_with s r r' outs outs' same_r same_outs steps = rw (sym same_r, sym same_outs) steps

  reset_steps :
      (runs : List LoopRun) (stale r : ℕ) (outs : List ℕ)
      → pe.needs_reset ≡ true
      → are_poisons_expected runs ≡ true
      → ◌⟶*◌ pe update
          (pe_at PeBlock.pre_header
            (kernel_preds pe runs)
            (kernel_values pe stale runs)
            (kernel_inputs pe runs)
            r
            outs)
          (pe_at PeBlock.exit_block [] [] []
            (if pe.is_hoisted then stale else r)
            (kernel_outputs stale runs outs))
  unfolding kernel_preds kernel_values kernel_inputs pe_step step_block
  reset_steps [] stale r outs resets ok =
      starts_with _ (PredCode.leave ∷ []) _ (if pe.is_hoisted then stale ∷ [] else []) [] r outs _
        (ground (arith, resets)) (ground (arith, resets))
        (steps_trans pe update _ _ _
          (enter_steps pe update (PredCode.leave ∷ []) [] [] outs stale r)
          (steps_trans pe update _ _ _
            (to_exiting_steps pe update PredCode.leave [] [] [] outs _ refl refl)
            (one_step pe update _ _ (ground (arith, resets)))))
  reset_steps (run ∷ runs) stale r outs resets ok =
      let started : ℕ = if pe.is_hoisted then run.initial else r in
      let ended : ℕ = value_after pe update run.iterations started in
      let written : List ℕ = outputs_after pe update run.iterations outs in
      let next : List ℕ = if pe.is_hoisted then ended ∷ written else written in
      starts_with _ (iteration_preds pe run.iterations (PredCode.reset ∷ kernel_preds pe runs)) _
        (if pe.is_hoisted
          then run.initial ∷ iteration_values pe run.iterations (kernel_values pe stale runs)
          else iteration_values pe run.iterations (kernel_values pe stale runs))
        _ r outs _
        (ap (λ p. iteration_preds pe run.iterations (p ∷ kernel_preds pe runs))
          (ground (arith, resets)))
        refl
        (ends_with _ _ _ (kernel_outputs stale runs next) _ (ground arith)
          (ap (kernel_outputs stale runs) (ground arith))
          (steps_trans pe update _ _ _ (enter_steps pe update _ _ _ outs run.initial r) (
            steps_trans pe update _ _ _
              (iteration_steps pe update run.iterations (PredCode.reset ∷ kernel_preds pe runs) _ _
                outs started (ground (arith, ok)))
              (steps_trans pe update _ _ _
                (to_exiting_steps pe update PredCode.reset _ _ _ written ended refl refl)
                (◌⟶*◌.then _
                  (pe_at PeBlock.pre_header (kernel_preds pe runs) (kernel_values pe stale runs)
                    (kernel_inputs pe runs) ended next)
                  _ refl (reset_steps runs stale ended next resets (ground (arith, ok))))))))

  once_steps :
      (run : LoopRun) (stale r : ℕ) (outs : List ℕ)
      → pe.needs_reset ≡ false
      → is_poison_expected pe run.iterations ≡ true
      → ◌⟶*◌ pe update
          (pe_at PeBlock.pre_header
            (kernel_preds pe (run ∷ []))
            (kernel_values pe stale (run ∷ []))
            (kernel_inputs pe (run ∷ []))
            r
            outs)
          (pe_at PeBlock.exit_block [] [] []
            (value_after pe update run.iterations (if pe.is_hoisted then run.initial else r))
            (kernel_outputs stale (run ∷ []) outs))
  unfolding kernel_preds kernel_values kernel_inputs pe_step step_block
  once_steps run stale r outs no_reset ok =
      let started : ℕ = if pe.is_hoisted then run.initial else r in
      let ended : ℕ = value_after pe update run.iterations started in
      let written : List ℕ = outputs_after pe update run.iterations outs in
      starts_with _ (iteration_preds pe run.iterations (PredCode.leave ∷ [])) _
        (if pe.is_hoisted
          then run.initial ∷ iteration_values pe run.iterations []
          else iteration_values pe run.iterations [])
        _ r outs _ (ap (iteration_preds pe run.iterations) (ground (arith, no_reset)))
        (ap
          (λ vs.
            if pe.is_hoisted
            then run.initial ∷ iteration_values pe run.iterations vs
            else iteration_values pe run.iterations vs)
          (ground (arith, no_reset)))
        (steps_trans pe update _ _ _ (enter_steps pe update _ _ _ outs run.initial r) (
          steps_trans pe update _ _ _
            (iteration_steps pe update run.iterations (PredCode.leave ∷ []) [] [] outs started ok)
            (steps_trans pe update _ _ _
              (to_exiting_steps pe update PredCode.leave [] [] [] written ended refl refl)
              (one_step pe update _ _ (ground (arith, no_reset))))))

  length-block_results :
      (is : List Iteration) (outs : List ℕ)
      → pe.is_hoisted ≡ false
      → length (block_results update is outs) ≡ iteration_reads pe is + length outs
  unfolding iteration_reads
  length-block_results [] outs h = omega arith
  length-block_results (Iteration.executes a y ∷ is) outs h =
      ground (arith, h, length-block_results is (update a y ∷ outs) h)
  length-block_results (Iteration.takes_poison_edge ∷ is) outs h = length-block_results is outs h
  length-block_results (Iteration.passes ∷ is) outs h = length-block_results is outs h

  no_reads : (is : List Iteration) → pe.is_hoisted ≡ true → iteration_reads pe is ≡ 0
  unfolding iteration_reads
  no_reads [] h = refl
  no_reads (Iteration.executes a y ∷ is) h = ground (arith, h, no_reads is h)
  no_reads (Iteration.takes_poison_edge ∷ is) h = no_reads is h
  no_reads (Iteration.passes ∷ is) h = no_reads is h

  length-kernel_outputs :
      (runs : List LoopRun) (stale : ℕ) (outs : List ℕ)
      → length (kernel_outputs stale runs outs) ≡ kernel_reads pe runs + length outs
  unfolding kernel_reads
  length-kernel_outputs [] stale outs = ground arith
  length-kernel_outputs (run ∷ runs) stale outs = elim (Bool-cases pe.is_hoisted) [
    | inl h ↦ ground (
      arith,
      h,
      no_reads run.iterations h,
      length-kernel_outputs runs stale (loop_value update run.iterations run.initial ∷ outs),
    )
    | inr h ↦ ground (
      arith,
      h,
      length-block_results run.iterations outs h,
      length-kernel_outputs runs stale (block_results update run.iterations outs),
    )
  ]

  -- A block PE and its kernel fit together if the PE is reset after each loop, or the loop is reached
  -- exactly once, and if the poison edge is taken only where the PE has a poison block: the PE comes
  -- to its exit block and has read all that the kernel writes. It has written, for a hoisted
  -- recurrence, the value that the loop computes, each time the loop is reached, and else the result
  -- of the block, each time it executes, and it has written as often as the kernel reads.
  pub block_pe_run-kernel_outputs :
      (runs : List LoopRun) (stale r : ℕ)
      → (pe.needs_reset ≡ true) ⊎ (length runs ≡ 1)
      → are_poisons_expected runs ≡ true
      → ((last : ℕ) × ◌⟶*◌ pe update
            (pe_at PeBlock.pre_header
              (kernel_preds pe runs)
              (kernel_values pe stale runs)
              (kernel_inputs pe runs)
              r
              [])
            (pe_at PeBlock.exit_block [] [] [] last (kernel_outputs stale runs [])))
        × (length (kernel_outputs stale runs []) ≡ kernel_reads pe runs)
  block_pe_run-kernel_outputs runs stale r once ok =
      (block_pe_run runs r once ok, omega (arith, length-kernel_outputs runs stale []))
    where
      block_pe_run :
          (runs : List LoopRun) (r : ℕ)
          → (pe.needs_reset ≡ true) ⊎ (length runs ≡ 1)
          → are_poisons_expected runs ≡ true
          → (last : ℕ) × ◌⟶*◌ pe update
              (pe_at PeBlock.pre_header
                (kernel_preds pe runs)
                (kernel_values pe stale runs)
                (kernel_inputs pe runs)
                r
                [])
              (pe_at PeBlock.exit_block [] [] [] last (kernel_outputs stale runs []))
      block_pe_run runs r (inl resets) ok = (_, reset_steps runs stale r [] resets ok)
      block_pe_run [] r (inr one) ok = (let no : ⊥ = omega (arith, one) in elim no [ ])
      block_pe_run (run ∷ []) r (inr one) ok = elim (Bool-cases pe.needs_reset) [
        | inl resets ↦ (_, reset_steps (run ∷ []) stale r [] resets ok)
        | inr no_reset ↦ (_, once_steps run stale r [] no_reset (ground (arith, ok)))
      ]
      block_pe_run (run ∷ other ∷ runs) r (inr one) ok =
          (let no : ⊥ = omega (arith, one) in elim no [ ])
