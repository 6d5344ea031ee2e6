-- ===== src/Elastic/Tests.antt =====
-- Small runs of the definitions that follow lib/ElasticTransform.cpp.
use elastic_sycl_hls.Prelude.{
  ℕ, ◌+◌, ◌*◌, ◌≡◌, ◌==◌, if◌then◌else◌, ◌||◌, inl, refl, arith, Bool, true, false, none, some,
  List, [], ◌∷◌,
}
use elastic_sycl_hls.Elastic.BlockPe.{
  PeInfo, Iteration, LoopRun, kernel_preds, kernel_values, kernel_inputs, kernel_reads, PeBlock,
  pe_at, step_block, pe_step, ◌⟶*◌,
}
use elastic_sycl_hls.Prelude.Members.{member}
use elastic_sycl_hls.Elastic.Edges.{
  SplitGraph, split_edge, create_block_on_edge, IsMatched, IsFresh, IsOnEdge,
  create_block_on_edge-IsOnEdge,
}
use elastic_sycl_hls.Elastic.Merge.{
  are_equivalent, merge_blocks, merge_into, merge_all, merge_poison_blocks, merge_all_joins,
}
use elastic_sycl_hls.Prelude.Int.{pos}
use elastic_sycl_hls.Elastic.LoopPe.{
  LoopPeBlock, loop_pe_at, loop_preds, loop_inputs, loop_reads, ◌⇒*◌, loop_pe_run-loop_results,
}
use elastic_sycl_hls.Elastic.Tags.{MemoryOp, load_requests}
use elastic_sycl_hls.Elastic.TagsConform.{SendsProgram, program_of, program_of-SendsProgram}
use elastic_sycl_hls.Elastic.Split.{
  PeKind, Pe, Kernel, split_pe, split_pes, split_code, kernel_split, agu_deletions,
  instrs_of_deleted, is_left,
}
use elastic_sycl_hls.Elastic.SplitParts.{IsDecoupled, kernel_split-is_left}
use elastic_sycl_hls.Elastic.BlockPeRuns.{kernel_outputs, block_pe_run-kernel_outputs}

-- A hoisted sum in an inner loop, with a poison block.
abbrev summing : PeInfo
summing = record { needs_reset = true; needs_poison = true; is_hoisted = true }

abbrev two_runs : List LoopRun
two_runs =
    record {
      initial = 10;
      iterations =
          Iteration.executes 0 1
          ∷ Iteration.passes
          ∷ Iteration.takes_poison_edge
          ∷ Iteration.executes 0 2
          ∷ [];
    }
    ∷ record { initial = 20; iterations = [] }
    ∷ []

-- 10 + 1 + 2 after the first loop, 20 after the second, and once more in the exit block.
sums_written : kernel_outputs summing (λ r x. r + x) 7 two_runs [] ≡ 7 ∷ 20 ∷ 13 ∷ []
sums_written = refl

block_pe_run-kernel_outputs_example :
    ((last : ℕ) × ◌⟶*◌ summing
        (λ r x. r + x)
        (pe_at PeBlock.pre_header
          (kernel_preds summing two_runs)
          (kernel_values summing 7 two_runs)
          (kernel_inputs summing two_runs)
          0
          [])
        (pe_at PeBlock.exit_block [] [] [] last (7 ∷ 20 ∷ 13 ∷ [])))
    × (3 ≡ kernel_reads summing two_runs)
block_pe_run-kernel_outputs_example =
    block_pe_run-kernel_outputs summing (λ r x. r + x) two_runs 7 0 (inl refl) refl

-- A loop that is not nested, with a block that is decoupled but not hoisted.
abbrev outer : PeInfo
outer = record { needs_reset = false; needs_poison = false; is_hoisted = false }

-- If the loop is never reached, the kernel writes no predicate, and the PE waits in its header.
waits_in_header :
    pe_step outer
      (λ r x. r + x)
      (pe_at PeBlock.header
        (kernel_preds outer [])
        (kernel_values outer 7 [])
        (kernel_inputs outer [])
        0
        [])
    ≡ none
unfolding kernel_preds kernel_values kernel_inputs pe_step step_block
waits_in_header = refl

-- Three poison blocks, of which 5 and 7 have the same calls.
abbrev calls : ℕ → List ℕ
calls b = if b == 6 then 2 ∷ [] else 1 ∷ []

-- Both edges lead to block 7, whatever successor block 5 has.
merged : merge_poison_blocks calls (5 ∷ 6 ∷ 7 ∷ []) (5 ∷ 6 ∷ 7 ∷ 8 ∷ []) ≡ 7 ∷ 6 ∷ 7 ∷ 8 ∷ []
unfolding merge_poison_blocks merge_all merge_into merge_blocks are_equivalent
merged = refl

merge_all_joins_example :
    ((s t : ℕ)
      → member s (5 ∷ 7 ∷ []) ≡ true
      → member t (5 ∷ 7 ∷ []) ≡ true
      → are_equivalent (calls s) (calls t) ≡ true
      → merge_all calls (5 ∷ 7 ∷ []) (5 ∷ 7 ∷ []) s ≡ merge_all calls (5 ∷ 7 ∷ []) (5 ∷ 7 ∷ []) t)
    × ((s : ℕ) → calls (merge_all calls (5 ∷ 7 ∷ []) (5 ∷ 7 ∷ []) s) ≡ calls s)
    × ((s : ℕ) → member s (5 ∷ 7 ∷ []) ≡ false → merge_all calls (5 ∷ 7 ∷ []) (5 ∷ 7 ∷ []) s ≡ s)
merge_all_joins_example = merge_all_joins calls (5 ∷ 7 ∷ [])

-- Block 0 branches to 1 or 2, and 1 goes on to 2, which has phi nodes.
abbrev triangle : SplitGraph
triangle = record {
  successors = λ b. if b == 0 then 1 ∷ 2 ∷ [] else if b == 1 then 2 ∷ [] else [];
  phi_blocks = λ b. if b == 2 then 0 ∷ 1 ∷ [] else [];
  created = [];
  fresh = 3;
}

abbrev at_join : ℕ → Bool
at_join b = b == 2

triangle-IsMatched : IsMatched at_join triangle
triangle-IsMatched b p = ground arith

triangle-IsFresh : IsFresh at_join triangle
triangle-IsFresh = (refl, refl, λ b. ground arith)

create_block_on_edge-IsOnEdge_example : IsOnEdge at_join 0 2 (create_block_on_edge 0 2 triangle)
create_block_on_edge-IsOnEdge_example =
    create_block_on_edge-IsOnEdge at_join 0 2 triangle triangle-IsMatched triangle-IsFresh
      (λ e. refl) (λ s m other. ground arith)

-- A new block on the edge from 0 to 1 renames the source of the edge from 0 to 2 as well.
phi_of_other_successor : (create_block_on_edge 0 1 triangle).1.phi_blocks 2 ≡ 3 ∷ 1 ∷ []
unfolding create_block_on_edge split_edge
phi_of_other_successor = refl

-- A loop of the blocks 1, 2 and 3 in which block 2 is decoupled into kernel 1; the loop of block 5 is
-- decoupled into kernel 2. Block 2 has the phi node 20, the instruction 21 and the terminator 22.
abbrev split_kernel : Kernel
split_kernel = record {
  blocks = 0 ∷ 1 ∷ 2 ∷ 3 ∷ 5 ∷ 6 ∷ [];
  instructions = λ b. if b == 2 then 20 ∷ 21 ∷ 22 ∷ [] else if b == 1 then 10 ∷ [] else [];
  entry = 0;
  return_block = 6;
  is_phi = λ i. i == 20;
  is_terminator = λ i. (i == 22) || (i == 10);
  is_pipe_call = λ i. false;
  is_debug = λ i. false;
  is_printf = λ i. false;
  is_store = λ i. i == 23;
  is_store_to_scalar_alloc = λ i. false;
  is_agu = λ n. n == 9;
}

abbrev pes : List Pe
pes =
    record { kernel_name = 1; kind = PeKind.block_pe 2 }
    ∷ record {
      kernel_name = 2;
      kind = PeKind.loop_pe (record { loop_blocks = 5 ∷ []; header = 5; exit_block = 6 });
    }
    ∷ []

in_one_kernel : IsDecoupled split_kernel pes 1 2 21
in_one_kernel = record {
  has_pe = refl;
  no_other = refl;
  in_block = refl;
  only_block = λ c m. ground arith;
  no_phi = refl;
  no_terminator = refl;
  no_pipe_call = refl;
}

kernel_split-is_left_example :
    is_left split_kernel 1 [] (kernel_split split_kernel 1 pes) 2 21 ≡ true
kernel_split-is_left_example =
    kernel_split-is_left split_kernel pes [] 1 1 2 21 in_one_kernel refl refl

-- The address generation unit is not split.
left_in_agu_kernel : is_left split_kernel 9 [] (kernel_split split_kernel 9 pes) 2 21 ≡ true
left_in_agu_kernel = kernel_split-is_left split_kernel pes [] 9 1 2 21 in_one_kernel refl refl

-- The main kernel loses the instruction, and keeps the terminator of the block.
left_in_main :
    (is_left split_kernel 0 [] (split_code split_kernel 0 pes) 2 21 ≡ false)
    × (is_left split_kernel 0 [] (split_code split_kernel 0 pes) 2 22 ≡ true)
unfolding is_left split_code split_pes split_pe instrs_of_deleted agu_deletions
left_in_main = (refl, refl)

-- A load, a store, a poisoned store and another load.
abbrev operations : List (MemoryOp ℕ)
operations =
    MemoryOp.load_from (pos 5)
    ∷ MemoryOp.store_to (pos 6) 40 true
    ∷ MemoryOp.store_to (pos 7) 41 false
    ∷ MemoryOp.load_from (pos 6)
    ∷ []

tags_sent :
    load_requests true 0 0 operations
    ≡ record { addr = pos 5; st_tag = 0; ld_tag = some 0 }
      ∷ record { addr = pos 6; st_tag = 2; ld_tag = some 1 }
      ∷ []
unfolding load_requests
tags_sent = refl

program_of-SendsProgram_example :
    SendsProgram (program_of (λ a. 0) 0 operations) true true true operations
program_of-SendsProgram_example =
    program_of-SendsProgram (λ a. 0) 0 true true true operations (omega arith) refl

-- The kernel comes to the loop twice.
loop_pe_run-loop_results_example :
    ◌⇒*◌
      (λ x. x * 10)
      (loop_pe_at LoopPeBlock.pe_header (loop_preds (3 ∷ 4 ∷ [])) (loop_inputs 9 (3 ∷ 4 ∷ [])) [])
      (loop_pe_at LoopPeBlock.pe_exit [] [] (40 ∷ 30 ∷ []))
    × (2 ≡ loop_reads (3 ∷ 4 ∷ []))
loop_pe_run-loop_results_example = loop_pe_run-loop_results (λ x. x * 10) 9 (3 ∷ 4 ∷ [])
