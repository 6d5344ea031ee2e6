-- ===== src/Elastic/LoopPe.antt =====
-- A processing element (PE) for a decoupled loop, as doPredLoopRead, doSsaLoopInRead and
-- doSsaLoopOutWrite of lib/ElasticTransform.cpp build it, and the pipe operations of its kernel, as
-- doPredLoopWrite, doSsaLoopInWrite and doSsaLoopOutRead place them. The loop has one input and one
-- output.
use elastic_sycl_hls.Prelude.{
  ℕ, suc, ◌+◌, ◌≡◌, refl, arith, if◌then◌else◌, Option, none, some, List, [], ◌∷◌, length,
}
use elastic_sycl_hls.Elastic.BlockPe.{PredCode, is_execute}

-- The kernel comes to the loop with each of the inputs in turn, and then to its exit block, where it
-- writes once more: `stale` is what the repeated write of the input carries.
unfoldable pub loop_preds : List ℕ → List PredCode
loop_preds [] = PredCode.leave ∷ []
loop_preds (x ∷ xs) = PredCode.execute ∷ loop_preds xs

unfoldable pub loop_inputs : ℕ → List ℕ → List ℕ
loop_inputs stale [] = stale ∷ []
loop_inputs stale (x ∷ xs) = x ∷ loop_inputs stale xs

-- The kernel reads the output in the header, each time.
unfoldable pub loop_reads : List ℕ → ℕ
loop_reads [] = 0
loop_reads (x ∷ xs) = suc (loop_reads xs)

-- The header of the PE, the decoupled loop with its input, and the exit block.
pub data LoopPeBlock : Type 0 where
  pe_header : LoopPeBlock
  in_loop : ℕ → LoopPeBlock
  pe_exit : LoopPeBlock

-- The PE between two blocks, with what it has written, the newest first.
pub record LoopPeState : Type 0 where
  pub at : LoopPeBlock
  pub preds : List PredCode
  pub inputs : List ℕ
  pub outputs : List ℕ

abbrev pub loop_pe_at : LoopPeBlock → List PredCode → List ℕ → List ℕ → LoopPeState
loop_pe_at b ps xs outs = record { at = b; preds = ps; inputs = xs; outputs = outs }

-- What the decoupled loop makes of its input is a function `result`.
module _ (result : ℕ → ℕ) where
  -- One block. The header reads both pipes; `none` where one is empty and the PE waits, and at the
  -- end.
  unfoldable pub step_loop : LoopPeBlock → List PredCode → List ℕ → List ℕ → Option LoopPeState
  step_loop pe_header [] xs outs = none
  step_loop pe_header (p ∷ ps) [] outs = none
  step_loop pe_header (p ∷ ps) (x ∷ xs) outs =
      some (loop_pe_at (if is_execute p then in_loop x else pe_exit) ps xs outs)
  step_loop (in_loop x) ps xs outs = some (loop_pe_at pe_header ps xs (result x ∷ outs))
  step_loop pe_exit ps xs outs = none

  unfoldable pub loop_pe_step : LoopPeState → Option LoopPeState
  loop_pe_step s = step_loop s.at s.preds s.inputs s.outputs

  infix 40 ◌⇒*◌
  pub data ◌⇒*◌ : LoopPeState → LoopPeState → Type 0 where
    here : (s : LoopPeState) → s ⇒* s
    then : (s t u : LoopPeState) → loop_pe_step s ≡ some t → t ⇒* u → s ⇒* u

  -- The results of the loop for the inputs, the newest first.
  abbrev pub loop_results : List ℕ → List ℕ → List ℕ
  loop_results [] outs = outs
  loop_results (x ∷ xs) outs = loop_results xs (result x ∷ outs)

  loop_pe_steps :
      (stale : ℕ) (xs outs : List ℕ)
      → loop_pe_at pe_header (loop_preds xs) (loop_inputs stale xs) outs
        ⇒* loop_pe_at pe_exit [] [] (loop_results xs outs)
  unfolding loop_pe_step step_loop loop_preds loop_inputs
  loop_pe_steps stale [] outs = ◌⇒*◌.then _ _ _ refl (◌⇒*◌.here _)
  loop_pe_steps stale (x ∷ xs) outs =
      ◌⇒*◌.then _ (loop_pe_at (in_loop x) (loop_preds xs) (loop_inputs stale xs) outs) _ refl (
        ◌⇒*◌.then _ (loop_pe_at pe_header (loop_preds xs) (loop_inputs stale xs) (result x ∷ outs))
          _ refl (loop_pe_steps stale xs (result x ∷ outs)))

  length-loop_results :
      (xs outs : List ℕ) → length (loop_results xs outs) ≡ loop_reads xs + length outs
  unfolding loop_reads
  length-loop_results [] outs = omega arith
  length-loop_results (x ∷ xs) outs = omega (arith, length-loop_results xs (result x ∷ outs))

  -- A loop PE and its kernel fit together: the PE comes to its exit block and has read all that the
  -- kernel writes; it has written what the loop computes, each time the kernel comes to the loop, and
  -- so as often as the kernel reads.
  pub loop_pe_run-loop_results :
      (stale : ℕ) (xs : List ℕ)
      → (loop_pe_at pe_header (loop_preds xs) (loop_inputs stale xs) []
          ⇒* loop_pe_at pe_exit [] [] (loop_results xs []))
        × (length (loop_results xs []) ≡ loop_reads xs)
  loop_pe_run-loop_results stale xs =
      (loop_pe_steps stale xs [], omega (arith, length-loop_results xs []))
