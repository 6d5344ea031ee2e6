-- ===== src/Helpers/Tests.antt =====
-- The helpers of include/CommonLLVM.h on small inputs.
use elastic_sycl_hls.Prelude.{
  ◌*◌, ◌-◌, ◌&&◌, ◌||◌, ◌≡◌, ◌↔◌, refl, arith, ◌==◌, ltb, if◌then◌else◌, none, some, [], ◌∷◌,
}
use elastic_sycl_hls.Prelude.Members.{any, member}
use elastic_sycl_hls.Prelude.Int.{pos}
use elastic_sycl_hls.Helpers.{
  index_loop, get_index_into_parent, get_block, LoopBlocks, get_unique_loop_instructions,
  get_return_block,
}
use elastic_sycl_hls.Helpers.Positions.{
  is_unique, get_block-get_index_into_parent, get_unique_loop_instructions-member,
}
use elastic_sycl_hls.Helpers.PipeCalls.{
  PipeRequest, pipe_calls_to_skip, count_call, find_call, get_pipe_call, get_pipe_calls,
}
use elastic_sycl_hls.Helpers.TypeNames.{CType, i16, get_c_type_string}
use elastic_sycl_hls.Helpers.Pointers.{
  PointerKind, PointerView, next_pointer, get_pointer_base, BaseOf, Follows-next_pointer, IsOrdered,
  get_pointer_base_iff,
}
use elastic_sycl_hls.Helpers.Allocas.{ValueView, HasOperands}

third_block : get_index_into_parent (10 ∷ 11 ∷ 12 ∷ []) 12 ≡ pos 2
unfolding get_index_into_parent index_loop
third_block = refl

-- A child that is not found has the index of the last child.
not_found : get_index_into_parent (10 ∷ 11 ∷ 12 ∷ []) 13 ≡ pos 2
unfolding get_index_into_parent index_loop
not_found = refl

get_block-get_index_into_parent_example :
    (get_block (10 ∷ 11 ∷ 12 ∷ []) (pos 1) ≡ some 11)
    ↔ (get_index_into_parent (10 ∷ 11 ∷ 12 ∷ []) 11 ≡ pos 1)
get_block-get_index_into_parent_example =
    get_block-get_index_into_parent (10 ∷ 11 ∷ 12 ∷ []) 11 (pos 1) refl refl

-- Of two blocks that return the last is found.
last_return : get_return_block (λ b. ltb 0 b) (0 ∷ 1 ∷ 2 ∷ []) ≡ some 2
unfolding get_return_block
last_return = refl

abbrev nested_loop : LoopBlocks
nested_loop = record { header = 1; loop_blocks = 1 ∷ 2 ∷ 3 ∷ []; sub_loops = (2 ∷ []) ∷ [] }

get_unique_loop_instructions-member_example :
    member 30 (get_unique_loop_instructions (λ b. 10 * b ∷ []) nested_loop)
    ≡ any (λ b. is_unique nested_loop b && member 30 (10 * b ∷ [])) (1 ∷ 2 ∷ 3 ∷ [])
get_unique_loop_instructions-member_example =
    get_unique_loop_instructions-member (λ b. 10 * b ∷ []) nested_loop 30

abbrev store_pipe : PipeRequest
store_pipe = record {
  pipe_id_key = 7;
  pipe_calls = 20 ∷ 21 ∷ 22 ∷ 23 ∷ [];
  is_this_pipe = λ c. (c == 21) || (c == 23);
}

abbrev load_pipe : PipeRequest
load_pipe = record {
  pipe_id_key = 8;
  pipe_calls = 20 ∷ 21 ∷ 22 ∷ 23 ∷ [];
  is_this_pipe = λ c. c == 20;
}

in_turn :
    get_pipe_calls (store_pipe ∷ load_pipe ∷ store_pipe ∷ store_pipe ∷ []) []
    ≡ some 21 ∷ some 20 ∷ some 23 ∷ none ∷ []
unfolding get_pipe_call find_call count_call pipe_calls_to_skip
in_turn = refl

short_is_bool : get_c_type_string i16 ≡ CType.bool_type
unfolding get_c_type_string
short_is_bool = refl

-- 1 = bitcast 2, 2 = load 3, 3 is in the entry block.
abbrev casted : PointerView
casted = record {
  kind = λ i.
      if i == 1
      then PointerKind.bit_cast (some 2)
      else if i == 2
      then PointerKind.load_from (some 3)
      else PointerKind.other_pointer;
  is_in_entry_block = λ i. i == 3;
}

casted-IsOrdered : IsOrdered casted (λ i. 3 - i)
unfolding next_pointer
casted-IsOrdered i j e = ground (arith, Follows-next_pointer casted i j e)

get_pointer_base_iff_example : (get_pointer_base casted 4 (some 1) ≡ some 3) ↔ BaseOf casted 1 3
get_pointer_base_iff_example =
    get_pointer_base_iff casted (λ i. 3 - i) 4 1 3 casted-IsOrdered (ground arith)

abbrev local_array : ValueView
local_array = record {
  values = 1 ∷ 2 ∷ 3 ∷ [];
  is_alloca = λ x. x == 3;
  value_operands = λ x. if x == 1 then 2 ∷ 1 ∷ [] else if x == 2 then 3 ∷ [] else [];
}

local_array-HasOperands : HasOperands local_array
local_array-HasOperands x y m e = ground arith
