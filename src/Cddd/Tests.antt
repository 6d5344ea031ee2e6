-- ===== src/Cddd/Tests.antt =====
-- A loop with a header 1, an `if` in block 2, a block 3 that is decoupled and a latch 4; block 0 is the
-- entry, and a second loop has the blocks 5 and 6. The recurrence goes from the phi node 10 of the
-- header, through the addition 12 of block 3 or past it, to the phi node 13 of the latch.
use elastic_sycl_hls.Prelude.{
  ℕ, ◌≡◌, ◌≢◌, refl, arith, ◌==◌, true, false, not, ◌&&◌, ◌||◌, if◌then◌else◌, Option, none, some,
  List, [], ◌∷◌, ltb, ◌+◌,
}
use elastic_sycl_hls.Prelude.Members.{any, member}
use elastic_sycl_hls.Flow.Paths.{PathIn}
use elastic_sycl_hls.Helpers.{
  blocks_of_subloops, get_unique_loop_blocks, instructions_of, get_unique_loop_instructions,
}
use elastic_sycl_hls.Helpers.Pointers.{PointerKind, next_pointer, get_pointer_base}
use elastic_sycl_hls.Cddd.Analysis.{
  Decoupling, no_blocks, no_dependencies, analyse_recurrences, analyse_loops, analyse,
}
use elastic_sycl_hls.Cddd.AnalysisSound.{IsSound, analyse-IsSound}
use elastic_sycl_hls.Cddd.SccPaths.{
  Recurrence, find_edge, backtrack, take_edge, scc_loop, get_scc_paths,
}
use elastic_sycl_hls.Cddd.SccPathsFound.{IsRound, get_scc_paths_sound}
use elastic_sycl_hls.Cddd.SccPathsEnd.{IsInside, get_scc_paths-some}
use elastic_sycl_hls.Cddd.Latency.{Opcode, get_path_ii}
use elastic_sycl_hls.Cddd.View.{CdddView, has_unroll_enable, is_loop_unrolled}
use elastic_sycl_hls.Cddd.Blocks.{
  DecoupledBlocks, path_instructions, ddg_nodes_to_instructions, scan_path, recurrence_of,
  can_decouple, decouple_block, visit_blocks, visit_path, collect_blocks_to_decouple,
}
use elastic_sycl_hls.Cddd.BlocksChosen.{is_decoupled_by, collect_blocks_to_decouple_iff}
use elastic_sycl_hls.Cddd.Dependencies.{
  add_phis, add_operands, add_users, visit_decoupled, collect_block_dependencies,
}
use elastic_sycl_hls.Cddd.Inputs.{IsGrown, collect_block_dependencies-IsGrown}
use elastic_sycl_hls.Cddd.Hoist.{
  can_hoist_start, scan_end, hoist_recurrence, hoist_block, collect_dependencies_to_hoist,
}
use elastic_sycl_hls.Cddd.Maps.{find}
use elastic_sycl_hls.Cddd.LoopDependencies.{
  LoopValues, add_if_used_inside, add_if_used_outside, add_inputs, add_outputs, scan_function,
  collect_loop_dependencies, is_in_loop, defines, collect_loop_dependencies_iff,
}
use elastic_sycl_hls.Cddd.Loops.{
  LoopNest, visit_memory, visit_memories, collect_facts, scan_others, choose_loop, choose_loops,
  collect_loops_to_decouple,
}
use elastic_sycl_hls.Cddd.LoopsDecoupled.{
  IsSafeToDecouple, collect_loops_to_decouple-IsSafeToDecouple,
}

-- Both arms of a diamond lead from node 0 over 3 back to 0.
abbrev diamond : Recurrence
diamond = record {
  nodes = 0 ∷ 1 ∷ 2 ∷ 3 ∷ [];
  edges = λ n.
      if n == 0 then 0 ∷ 1 ∷ [] else if n == 1 then 2 ∷ [] else if n == 2 then 3 ∷ [] else 4 ∷ [];
  target = λ e. if e == 0 then 1 else if e == 1 then 2 else if ltb e 4 then 3 else 0;
  is_simple = λ n. true;
}

-- The path 0, 2, 3 is not found: the edge from 3 is done at its depth.
one_arm_only : get_scc_paths diamond ≡ some ((0 ∷ 1 ∷ 3 ∷ []) ∷ [])
unfolding get_scc_paths scc_loop take_edge backtrack find_edge
one_arm_only = refl

-- Through the addition, or past it.
abbrev recurrence : Recurrence
recurrence = record {
  nodes = 0 ∷ 1 ∷ 2 ∷ [];
  edges =
      λ n. if n == 0 then 0 ∷ 1 ∷ [] else if n == 1 then 2 ∷ [] else if n == 2 then 3 ∷ [] else [];
  target = λ e. if e == 0 then 1 else if ltb e 3 then 2 else 0;
  is_simple = λ n. ltb n 3;
}

both_paths : get_scc_paths recurrence ≡ some ((0 ∷ 1 ∷ 2 ∷ []) ∷ (0 ∷ 2 ∷ []) ∷ [])
unfolding get_scc_paths scc_loop take_edge backtrack find_edge
both_paths = refl

get_scc_paths_sound_example : IsRound recurrence 0 (0 ∷ 1 ∷ 2 ∷ [])
get_scc_paths_sound_example =
    get_scc_paths_sound recurrence 0 (1 ∷ 2 ∷ []) ((0 ∷ 1 ∷ 2 ∷ []) ∷ (0 ∷ 2 ∷ []) ∷ []) refl
      both_paths (0 ∷ 1 ∷ 2 ∷ []) (PathIn.here ((0 ∷ 2 ∷ []) ∷ []))

recurrence-IsInside : IsInside recurrence
recurrence-IsInside n e node edge = ground arith

get_scc_paths-some_example : get_scc_paths recurrence ≢ none
get_scc_paths-some_example =
    get_scc_paths-some recurrence 0 (1 ∷ 2 ∷ []) refl (λ e. cc) recurrence-IsInside

abbrev view : CdddView
view = record {
  instructions = λ b.
      if b == 1
      then 10 ∷ []
      else if b == 2
      then 20 ∷ []
      else if b == 3
      then 12 ∷ 14 ∷ []
      else if b == 4
      then 13 ∷ []
      else if b == 5
      then 21 ∷ []
      else [];
  is_entry = λ b. b == 0;
  is_loop_header = λ b. (b == 1) || (b == 5);
  loop_for = λ b. if b == 0 then none else if ltb b 5 then some 0 else some 1;
  get_control_dependency_source = λ b. if b == 3 then some 2 else none;
  metadata = λ b. [];
  parent = λ i.
      if i == 10 then 1 else if i == 20 then 2 else if i == 13 then 4 else if i == 21 then 5 else 3;
  opcode = λ i. if i == 12 then Opcode.fadd else Opcode.other_opcode 0;
  is_phi = λ i. (i == 10) || (i == 13);
  is_terminator = λ i. i == 14;
  is_void = λ i. i == 14;
  operands = λ i.
      if i == 12
      then 10 ∷ []
      else if i == 13
      then 10 ∷ 12 ∷ []
      else if i == 10
      then 13 ∷ []
      else [];
  users = λ i.
      if i == 10
      then 12 ∷ 13 ∷ []
      else if i == 12
      then 13 ∷ []
      else if i == 13
      then 10 ∷ 21 ∷ []
      else [];
  incoming = λ i. if i == 13 then 10 ∷ 12 ∷ [] else if i == 10 then 13 ∷ [] else [];
  header = λ l. if l == 0 then 1 else 5;
  latch = λ l. if l == 0 then some 4 else some 6;
  contains = λ l b. if l == 0 then ltb 0 b && ltb b 5 else ltb 4 b;
}

abbrev nest : LoopNest
nest = record {
  view = view;
  loop_blocks = λ l. record {
    header = view.header l;
    loop_blocks = if l == 0 then 1 ∷ 2 ∷ 3 ∷ 4 ∷ [] else 5 ∷ 6 ∷ [];
    sub_loops = [];
  };
  depth = λ l. 1;
  front_loop = 1;
  is_store = λ i. i == 20;
  is_load = λ i. i == 21;
  pointer_operand = λ i. some (i + 80);
  pointers = record { kind = λ i. PointerKind.other_pointer; is_in_entry_block = λ i. false };
  pointer_fuel = 2;
}

abbrev of_node : ℕ → List ℕ
of_node k = if k == 0 then 10 ∷ [] else if k == 1 then 12 ∷ 14 ∷ [] else 13 ∷ []

abbrev blocks : List ℕ
blocks = 0 ∷ 1 ∷ 2 ∷ 3 ∷ 4 ∷ 5 ∷ 6 ∷ []

abbrev result : Option Decoupling
result = analyse nest of_node false (recurrence ∷ []) blocks (0 ∷ 1 ∷ [])

abbrev chosen : DecoupledBlocks
chosen = record {
  blocks_to_decouple = 3 ∷ [];
  recurrence_starts = (3, 10) ∷ [];
  recurrence_ends = (3, 13) ∷ [];
  instr_to_decouple = (3, 12 ∷ []) ∷ [];
}

-- The addition is decoupled; the header's phi node goes in and the sum comes out, both once, before
-- and after the loop. Loop 0 is decoupled, and its last value is used in loop 1.
abbrev decoupling : Decoupling
decoupling = record {
  blocks = chosen;
  dependencies = record {
    input_dependencies = (3, 10 ∷ []) ∷ [];
    output_dependencies = (3, 12 ∷ []) ∷ [];
  };
  instr_to_hoist = (3, 10 ∷ 12 ∷ []) ∷ [];
  loops_to_decouple = 0 ∷ [];
  loop_dependencies = (0, record { in_deps = []; out_deps = 13 ∷ [] }) ∷ [];
}

analysis : result ≡ some decoupling
unfolding analyse analyse_recurrences analyse_loops get_scc_paths scc_loop take_edge backtrack
    find_edge ddg_nodes_to_instructions path_instructions collect_blocks_to_decouple visit_path
    visit_blocks decouple_block can_decouple recurrence_of scan_path get_path_ii has_unroll_enable
    is_loop_unrolled collect_block_dependencies visit_decoupled add_users add_operands add_phis
    collect_dependencies_to_hoist hoist_block hoist_recurrence scan_end can_hoist_start
    collect_loops_to_decouple collect_facts visit_memories visit_memory choose_loops choose_loop
    scan_others collect_loop_dependencies scan_function add_inputs add_outputs add_if_used_inside
    add_if_used_outside get_unique_loop_instructions instructions_of get_unique_loop_blocks
    blocks_of_subloops get_pointer_base next_pointer
analysis = refl

analyse-IsSound_example : IsSound nest of_node (0 ∷ 1 ∷ []) decoupling
analyse-IsSound_example =
    analyse-IsSound nest of_node (recurrence ∷ []) blocks (0 ∷ 1 ∷ []) decoupling analysis

-- Two paths of instructions: through the addition, and past it.
abbrev paths : List (List ℕ)
paths = (10 ∷ 12 ∷ 13 ∷ []) ∷ (10 ∷ 13 ∷ []) ∷ []

collect_blocks_to_decouple_iff_example :
    member 3 (collect_blocks_to_decouple view paths no_blocks).blocks_to_decouple
    ≡ (any (is_decoupled_by view 3) paths || member 3 no_blocks.blocks_to_decouple)
collect_blocks_to_decouple_iff_example = collect_blocks_to_decouple_iff view paths 3 no_blocks

collect_block_dependencies-IsGrown_example :
    IsGrown 3 12 false true no_dependencies
      (collect_block_dependencies view ((3, 12 ∷ []) ∷ []) no_dependencies)
collect_block_dependencies-IsGrown_example =
    collect_block_dependencies-IsGrown view ((3, 12 ∷ []) ∷ []) no_dependencies 3 12

collect_loop_dependencies_iff_example :
    (d : LoopValues) × (find 0 (collect_loop_dependencies view blocks (0 ∷ []) []) ≡ some d)
    × ((x : ℕ)
        → (member x d.in_deps ≡ (
            any (defines view false 0 x) blocks && any (λ u. is_in_loop view 0 u) (view.users x)))
          × (member x d.out_deps ≡ (
              any (defines view true 0 x) blocks
              && any (λ u. not (is_in_loop view 0 u)) (view.users x))))
collect_loop_dependencies_iff_example = collect_loop_dependencies_iff view blocks (0 ∷ []) [] 0 refl

loops_chosen : collect_loops_to_decouple nest (0 ∷ 1 ∷ []) ≡ some (0 ∷ [])
unfolding collect_loops_to_decouple collect_facts visit_memories visit_memory choose_loops
    choose_loop scan_others is_loop_unrolled has_unroll_enable get_unique_loop_instructions
    instructions_of get_unique_loop_blocks blocks_of_subloops get_pointer_base next_pointer
loops_chosen = refl

collect_loops_to_decouple-IsSafeToDecouple_example : IsSafeToDecouple nest (0 ∷ 1 ∷ []) 0
collect_loops_to_decouple-IsSafeToDecouple_example =
    collect_loops_to_decouple-IsSafeToDecouple nest (0 ∷ 1 ∷ []) (0 ∷ []) 0 loops_chosen refl refl
