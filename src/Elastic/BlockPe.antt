-- ===== src/Elastic/BlockPe.antt =====
-- A processing element (PE) for a decoupled block, as doPredBbRead, doSsaBbInRead and doSsaBbOutWrite
-- of lib/ElasticTransform.cpp build it, and the pipe operations of the kernel it was taken out of, as
-- doPredBbWrite, doPoisonPredBbWrite, doSsaBbInWrite and doSsaBbOutRead place them. A pipe holds what
-- was written and not yet read, the oldest first.
use elastic_sycl_hls.Prelude.{
  ℕ, suc, ◌+◌, ◌≡◌, Bool, true, false, ◌&&◌, if◌then◌else◌, Option, none, some, List, [], ◌∷◌,
}

-- PE_PREDICATE_CODES
pub data PredCode : Type 0 where
  execute : PredCode
  reset : PredCode
  leave : PredCode
  poison : PredCode

-- The fields of `PEInfo` that the rules read, and whether the recurrence is hoisted out of its loop.
pub record PeInfo : Type 0 where
  pub needs_reset : Bool
  pub needs_poison : Bool
  pub is_hoisted : Bool

-- What an iteration of the kernel's loop does: the decoupled block, with the value of the recurrence
-- and one other input; or the edge on which its requests are poisoned; or neither.
pub data Iteration : Type 0 where
  executes : ℕ → ℕ → Iteration
  takes_poison_edge : Iteration
  passes : Iteration

-- The loop, each time the kernel comes to it, with the value that the recurrence starts from.
pub record LoopRun : Type 0 where
  pub initial : ℕ
  pub iterations : List Iteration

-- What the kernel writes and how often it reads, in front of what comes later.
module _ (pe : PeInfo) where
  -- The predicate pipe.
  unfoldable pub iteration_preds : List Iteration → List PredCode → List PredCode
  iteration_preds [] later = later
  iteration_preds (executes a y ∷ is) later = execute ∷ iteration_preds is later
  iteration_preds (takes_poison_edge ∷ is) later = poison ∷ iteration_preds is later
  iteration_preds (passes ∷ is) later = iteration_preds is later

  unfoldable pub kernel_preds : List LoopRun → List PredCode
  kernel_preds [] = if pe.needs_reset then leave ∷ [] else []
  kernel_preds (run ∷ runs) =
      iteration_preds run.iterations ((if pe.needs_reset then reset else leave) ∷ kernel_preds runs)

  -- The pipe of the recurrence: before the loop if it is hoisted, and else in the block. `stale` is
  -- what the repeated write in the function's exit block carries.
  unfoldable pub iteration_values : List Iteration → List ℕ → List ℕ
  iteration_values [] later = later
  iteration_values (executes a y ∷ is) later =
      if pe.is_hoisted then iteration_values is later else a ∷ iteration_values is later
  iteration_values (takes_poison_edge ∷ is) later = iteration_values is later
  iteration_values (passes ∷ is) later = iteration_values is later

  unfoldable pub kernel_values : ℕ → List LoopRun → List ℕ
  kernel_values stale [] = if pe.needs_reset && pe.is_hoisted then stale ∷ [] else []
  kernel_values stale (run ∷ runs) =
      let inner = iteration_values run.iterations (kernel_values stale runs) in
      if pe.is_hoisted then run.initial ∷ inner else inner

  -- The pipe of the other input.
  unfoldable pub iteration_inputs : List Iteration → List ℕ → List ℕ
  iteration_inputs [] later = later
  iteration_inputs (executes a y ∷ is) later = y ∷ iteration_inputs is later
  iteration_inputs (takes_poison_edge ∷ is) later = iteration_inputs is later
  iteration_inputs (passes ∷ is) later = iteration_inputs is later

  unfoldable pub kernel_inputs : List LoopRun → List ℕ
  kernel_inputs [] = []
  kernel_inputs (run ∷ runs) = iteration_inputs run.iterations (kernel_inputs runs)

  -- How often the kernel reads the output: after the loop and in the exit block, or in the block.
  unfoldable pub iteration_reads : List Iteration → ℕ
  iteration_reads [] = 0
  iteration_reads (executes a y ∷ is) =
      if pe.is_hoisted then iteration_reads is else suc (iteration_reads is)
  iteration_reads (takes_poison_edge ∷ is) = iteration_reads is
  iteration_reads (passes ∷ is) = iteration_reads is

  unfoldable pub kernel_reads : List LoopRun → ℕ
  kernel_reads [] = if pe.needs_reset && pe.is_hoisted then 1 else 0
  kernel_reads (run ∷ runs) =
      iteration_reads run.iterations + (if pe.is_hoisted then 1 else 0) + kernel_reads runs

-- The blocks of the PE; after the header the predicate is at hand.
pub data PeBlock : Type 0 where
  pre_header : PeBlock
  header : PeBlock
  body : PeBlock
  before_exiting : PredCode → PeBlock
  poison_block : PeBlock
  exiting : PredCode → PeBlock
  exit_block : PeBlock

-- The PE between two blocks: its pipes, the phi node of the recurrence, and what it has written, the
-- newest first.
pub record PeState : Type 0 where
  pub at : PeBlock
  pub preds : List PredCode
  pub values : List ℕ
  pub inputs : List ℕ
  pub recurrence : ℕ
  pub outputs : List ℕ

abbrev pub is_execute : PredCode → Bool
is_execute execute = true
is_execute p = false

abbrev pub is_poison : PredCode → Bool
is_poison poison = true
is_poison p = false

abbrev pub is_reset : PredCode → Bool
is_reset reset = true
is_reset p = false

-- The decoupled instructions are a function `update` of the recurrence and the other input.
abbrev pub pe_at : PeBlock → List PredCode → List ℕ → List ℕ → ℕ → List ℕ → PeState
pe_at b ps vs xs r outs = record {
  at = b;
  preds = ps;
  values = vs;
  inputs = xs;
  recurrence = r;
  outputs = outs;
}

module _ (pe : PeInfo) (update : ℕ → ℕ → ℕ) where
  -- The block after the header.
  abbrev pub after_header : PredCode → PeBlock
  after_header p =
      if is_execute p then body else if pe.needs_poison then before_exiting p else exiting p

  -- One block. `none` where a pipe is empty and the PE waits, and at the end.
  unfoldable pub step_block :
      PeBlock → List PredCode → List ℕ → List ℕ → ℕ → List ℕ → Option PeState
  step_block pre_header ps [] xs r outs =
      if pe.is_hoisted then none else some (pe_at header ps [] xs r outs)
  step_block pre_header ps (v ∷ vs) xs r outs =
      if pe.is_hoisted
      then some (pe_at header ps vs xs v outs)
      else some (pe_at header ps (v ∷ vs) xs r outs)
  step_block header [] vs xs r outs = none
  step_block header (p ∷ ps) vs xs r outs = some (pe_at (after_header p) ps vs xs r outs)
  step_block body ps vs [] r outs = none
  step_block body ps [] (x ∷ xs) r outs =
      if pe.is_hoisted then some (pe_at header ps [] xs (update r x) outs) else none
  step_block body ps (v ∷ vs) (x ∷ xs) r outs =
      if pe.is_hoisted
      then some (pe_at header ps (v ∷ vs) xs (update r x) outs)
      else some (pe_at header ps vs xs r (update v x ∷ outs))
  step_block (before_exiting p) ps vs xs r outs =
      some (pe_at (if is_poison p then poison_block else exiting p) ps vs xs r outs)
  step_block poison_block ps vs xs r outs = some (pe_at header ps vs xs r outs)
  step_block (exiting p) ps vs xs r outs = some (
      pe_at (if is_reset p then pre_header else exit_block) ps vs xs r
        (if pe.is_hoisted then r ∷ outs else outs))
  step_block exit_block ps vs xs r outs = none

  unfoldable pub pe_step : PeState → Option PeState
  pe_step s = step_block s.at s.preds s.values s.inputs s.recurrence s.outputs

  infix 40 ◌⟶*◌
  -- The PE goes from one state to another.
  pub data ◌⟶*◌ : PeState → PeState → Type 0 where
    here : (s : PeState) → s ⟶* s
    then : (s t u : PeState) → pe_step s ≡ some t → t ⟶* u → s ⟶* u
