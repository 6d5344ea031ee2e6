-- ===== src/Helpers.antt =====
-- The helpers of include/CommonLLVM.h that the passes share: the positions of blocks and
-- instructions, the calls of pipes, the text of types, and the blocks of loops. Blocks, instructions
-- and calls are numbers.
pub mod Positions
pub mod PipeCalls
pub mod TypeNames
pub mod Pointers
pub mod Allocas
mod Tests
use elastic_sycl_hls.Prelude.{
  ℕ, zero, suc, ◌==◌, Bool, true, false, not, ◌&&◌, ◌||◌, if◌then◌else◌, Option, none, some, List,
  [], ◌∷◌, ◌++◌,
}
use elastic_sycl_hls.Prelude.Members.{any, filter, member}
use elastic_sycl_hls.Prelude.Int.{ℤ, pos, negsuc, ◌==ℤ◌}

-- `idx++`
abbrev pub next_int : ℤ → ℤ
next_int (pos n) = pos (suc n)
next_int (negsuc zero) = pos 0
next_int (negsuc (suc n)) = negsuc n

-- The loop of getIndexIntoParent, over the children of the parent.
unfoldable pub index_loop : ℕ → ℤ → List ℕ → ℤ
index_loop child idx [] = idx
index_loop child idx (ch ∷ chs) =
    if ch == child then next_int idx else index_loop child (next_int idx) chs

unfoldable pub get_index_into_parent : List ℕ → ℕ → ℤ
get_index_into_parent children child = index_loop child (negsuc 0) children

-- The loop of getBlock, and of getInstruction.
unfoldable pub child_loop : ℕ → ℤ → List ℕ → Option ℕ
child_loop i idx [] = none
child_loop i idx (ch ∷ chs) = if pos i ==ℤ idx then some ch else child_loop (suc i) idx chs

unfoldable pub get_block : List ℕ → ℤ → Option ℕ
get_block blocks idx = child_loop 0 idx blocks

unfoldable pub get_instruction : List ℕ → ℤ → Option ℕ
get_instruction instructions idx = child_loop 0 idx instructions

-- The last block that ends in a return: the loop runs from the last block on. This is the loop over
-- the reversed blocks.
abbrev pub first_returning : (ℕ → Bool) → List ℕ → Option ℕ
first_returning returns [] = none
first_returning returns (b ∷ bs) = if returns b then some b else first_returning returns bs

abbrev pub reverse_onto : List ℕ → List ℕ → List ℕ
reverse_onto [] acc = acc
reverse_onto (b ∷ bs) acc = reverse_onto bs (b ∷ acc)

unfoldable pub get_return_block : (ℕ → Bool) → List ℕ → Option ℕ
get_return_block returns blocks = first_returning returns (reverse_onto blocks [])

-- A loop with the blocks of its subloops.
pub record LoopBlocks : Type 0 where
  pub header : ℕ
  pub loop_blocks : List ℕ
  pub sub_loops : List (List ℕ)

unfoldable pub blocks_of_subloops : ℕ → List (List ℕ) → List ℕ
blocks_of_subloops header [] = []
blocks_of_subloops header (bs ∷ bss) =
    filter (λ b. not (b == header)) bs ++ blocks_of_subloops header bss

unfoldable pub get_unique_loop_blocks : LoopBlocks → List ℕ
get_unique_loop_blocks l =
    filter (λ b. not (member b (blocks_of_subloops l.header l.sub_loops))) l.loop_blocks

unfoldable pub instructions_of : (ℕ → List ℕ) → List ℕ → List ℕ
instructions_of block_instructions [] = []
instructions_of block_instructions (b ∷ bs) =
    block_instructions b ++ instructions_of block_instructions bs

unfoldable pub get_unique_loop_instructions : (ℕ → List ℕ) → LoopBlocks → List ℕ
get_unique_loop_instructions block_instructions l =
    instructions_of block_instructions (get_unique_loop_blocks l)
