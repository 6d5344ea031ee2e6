-- ===== src/Cddd/Loops.antt =====
-- collectLoopsToDecouple of lib/CDDDAnalysis.cpp: the loops that get a processing element of their own.
use elastic_sycl_hls.Prelude.{
  ℕ, ◌+◌, ◌==◌, Bool, true, false, not, ◌&&◌, ◌||◌, if◌then◌else◌, Option, none, some, ◌>>=◌, List,
  [], ◌∷◌, ◌++◌,
}
use elastic_sycl_hls.Prelude.Members.{any, member}
use elastic_sycl_hls.Helpers.{LoopBlocks, get_unique_loop_instructions}
use elastic_sycl_hls.Helpers.Pointers.{PointerView, get_pointer_base}
use elastic_sycl_hls.Cddd.Blocks.{is_inner_source}
use elastic_sycl_hls.Cddd.Maps.{insert, find, insert_at, put}
use elastic_sycl_hls.Cddd.View.{CdddView, is_loop_unrolled}

-- What LLVM says of the loops and of the instructions in them.
pub record LoopNest : Type 0 where
  pub view : CdddView
  pub loop_blocks : ℕ → LoopBlocks
  pub depth : ℕ → ℕ
  -- `LI.getTopLevelLoops().front()`
  pub front_loop : ℕ
  pub is_store : ℕ → Bool
  pub is_load : ℕ → Bool
  pub pointer_operand : ℕ → Option ℕ
  pub pointers : PointerView
  pub pointer_fuel : ℕ

-- memoryUsesInLoop, numLoopsAtLevel and atLeastOneStore.
pub record LoopFacts : Type 0 where
  pub memory_uses : List (ℕ × List ℕ)
  pub num_at_level : List (ℕ × ℕ)
  pub stored : List ℕ

-- The flags of one loop, and doNotDecouple.
pub record OtherLoops : Type 0 where
  pub no_mem_alias : Bool
  pub no_register_dep : Bool
  pub do_not_decouple : List ℕ

pub record LoopChoice : Type 0 where
  pub excluded : List ℕ
  pub loops_to_decouple : List ℕ

-- The values of a map after `if (!contains) map[k] = d`, and after a count.
abbrev pub start_at : ℕ → List (ℕ × List ℕ) → List (ℕ × List ℕ)
start_at k es = elim (find k es) [ none ↦ put k [] es | some xs ↦ es ]

abbrev pub count_at : ℕ → List (ℕ × ℕ) → List (ℕ × ℕ)
count_at k es = elim (find k es) [ none ↦ put k 1 es | some n ↦ put k (n + 1) es ]

module _ (n : LoopNest) where
  abbrev pub unique_instructions : ℕ → List ℕ
  unique_instructions l = get_unique_loop_instructions n.view.instructions (n.loop_blocks l)

  abbrev pub base_of : ℕ → Option ℕ
  base_of i = get_pointer_base n.pointers n.pointer_fuel (n.pointer_operand i)

  -- One instruction of a loop; `none` where getPointerBase follows a null pointer.
  unfoldable pub visit_memory : ℕ → ℕ → LoopFacts → Option LoopFacts
  visit_memory l i f =
      if n.is_store i
      then (do
        base ← base_of i
        some (record f {
          memory_uses = insert_at l base f.memory_uses;
          stored = insert base f.stored;
        }))
      else if n.is_load i
      then (do base ← base_of i; some (record f { memory_uses = insert_at l base f.memory_uses }))
      else some f

  unfoldable pub visit_memories : ℕ → List ℕ → LoopFacts → Option LoopFacts
  visit_memories l [] f = some f
  visit_memories l (i ∷ is) f = do next ← visit_memory l i f; visit_memories l is next

  abbrev pub start_loop : ℕ → LoopFacts → LoopFacts
  start_loop l f = record f {
    memory_uses = start_at l f.memory_uses;
    num_at_level = count_at (n.depth l) f.num_at_level;
  }

  -- The first loop, over all loops by their depth.
  unfoldable pub collect_facts : List ℕ → LoopFacts → Option LoopFacts
  collect_facts [] f = some f
  collect_facts (l ∷ ls) f = do
    next ← visit_memories l (unique_instructions l) (start_loop l f)
    collect_facts ls next

  abbrev pub has_alias : List ℕ → List ℕ → List ℕ → Bool
  has_alias stored memories others = any (λ m. member m stored && member m others) memories

  -- An instruction in the header of `l` has a user in the other loop.
  abbrev pub has_register_dep : ℕ → ℕ → Bool
  has_register_dep l other =
      any (λ i. any (λ u. member u (unique_instructions other)) (n.view.users i))
        (n.view.instructions (n.view.header l))

  -- The loop over the other loops.
  unfoldable pub scan_others : List ℕ → ℕ → List ℕ → List (ℕ × List ℕ) → OtherLoops → OtherLoops
  scan_others stored l memories [] s = s
  scan_others stored l memories ((other, others) ∷ entries) s =
      scan_others stored l memories entries (
        if other == l then s else record {
          no_mem_alias = if has_alias stored memories others then false else s.no_mem_alias;
          no_register_dep = if has_register_dep l other then false else s.no_register_dep;
          do_not_decouple =
              if has_register_dep l other
              then insert other s.do_not_decouple
              else s.do_not_decouple;
        })

  abbrev pub is_control_dep : ℕ → Bool → Bool
  is_control_dep l unrolled =
      is_inner_source n.view (n.view.get_control_dependency_source (n.view.header l))
      && not unrolled

  abbrev pub is_only_one : Option ℕ → Bool
  is_only_one none = false
  is_only_one (some k) = k == 1

  abbrev pub is_skipped : LoopFacts → List ℕ → ℕ → Bool → Bool
  is_skipped f excluded l unrolled =
      unrolled
      || member l excluded
      || (n.front_loop == l)
      || (is_only_one (find (n.depth l) f.num_at_level) && not (is_control_dep l unrolled))

  abbrev pub others_of : LoopFacts → ℕ → List ℕ → List ℕ → OtherLoops
  others_of f l memories excluded =
      scan_others f.stored l memories f.memory_uses
        (record { no_mem_alias = true; no_register_dep = true; do_not_decouple = excluded })

  unfoldable pub choose_loop : LoopFacts → ℕ → List ℕ → Bool → LoopChoice → LoopChoice
  choose_loop f l memories unrolled c =
      let s = others_of f l memories c.excluded in
      if is_skipped f c.excluded l unrolled then c else record {
        excluded = s.do_not_decouple;
        loops_to_decouple =
            if s.no_mem_alias && (s.no_register_dep || is_control_dep l unrolled)
            then c.loops_to_decouple ++ l ∷ []
            else c.loops_to_decouple;
      }

  -- The second loop. `none` for a loop without a latch: isLoopUnrolled follows a null pointer.
  unfoldable pub choose_loops : LoopFacts → List (ℕ × List ℕ) → LoopChoice → Option LoopChoice
  choose_loops f [] c = some c
  choose_loops f ((l, memories) ∷ entries) c = do
    unrolled ← is_loop_unrolled n.view l
    choose_loops f entries (choose_loop f l memories unrolled c)

  -- The argument is loopsInBFS.
  unfoldable pub collect_loops_to_decouple : List ℕ → Option (List ℕ)
  collect_loops_to_decouple loops = do
    f ← collect_facts loops (record { memory_uses = []; num_at_level = []; stored = [] })
    c ← choose_loops f f.memory_uses (record { excluded = []; loops_to_decouple = [] })
    some c.loops_to_decouple
