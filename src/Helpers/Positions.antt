-- ===== src/Helpers/Positions.antt =====
-- getIndexIntoParent, getBlock, getReturnBlock and getUniqueLoopBlocks of include/CommonLLVM.h.
use elastic_sycl_hls.Prelude.{
  ℕ, zero, suc, ◌≤◌, ◌≡◌, ◌↔◌, inl, inr, refl, sym, ◌∙◌, arith, ◌==◌, Bool, true, not, ◌&&◌, ◌||◌,
  some, List, [], ◌∷◌, Bool-cases,
}
use elastic_sycl_hls.Prelude.Members.{any, filter, member, any-append, member-filter, distinct}
use elastic_sycl_hls.Prelude.Int.{ℤ, pos, negsuc, ◌==ℤ◌, ==ℤ_iff, ==ℤ_refl}
use elastic_sycl_hls.Helpers.{
  next_int, index_loop, get_index_into_parent, child_loop, get_block, get_instruction, LoopBlocks,
  blocks_of_subloops, get_unique_loop_blocks, instructions_of, get_unique_loop_instructions,
}

-- `idx` before the child at position `i`.
abbrev before : ℕ → ℤ
before zero = negsuc 0
before (suc i) = pos i

next-before : (i : ℕ) → next_int (before i) ≡ pos i
next-before zero = refl
next-before (suc i) = refl

index_loop-found :
    (child i : ℕ) (cs : List ℕ)
    → member child cs ≡ true
    → (k : ℕ) × (index_loop child (before i) cs ≡ pos k)
      × (i ≤ k)
      × (child_loop i (pos k) cs ≡ some child)
unfolding index_loop child_loop
index_loop-found child i [] m = (let no : ⊥ = cc in elim no [ ])
index_loop-found child i (c ∷ cs) m = elim (Bool-cases (c == child)) [
  | inl here ↦ (i, ground (arith, next-before i), ground arith, ground (arith, ==ℤ_refl (pos i)))
  | inr later ↦
      (let (k, e, le, found) = index_loop-found child (suc i) cs (ground arith) in
        (
          k,
          ground (arith, next-before i, e),
          omega arith,
          ground (arith, ==ℤ_iff (pos i) (pos k), found),
        ))
]

child_loop-member :
    (child i : ℕ) (idx : ℤ) (cs : List ℕ)
    → child_loop i idx cs ≡ some child
    → member child cs ≡ true
unfolding child_loop
child_loop-member child i idx [] e = (let no : ⊥ = cc in elim no [ ])
child_loop-member child i idx (c ∷ cs) e = ground (arith, child_loop-member child (suc i) idx cs)

child_loop-index :
    (child i : ℕ) (idx : ℤ) (cs : List ℕ)
    → distinct cs ≡ true
    → child_loop i idx cs ≡ some child
    → index_loop child (before i) cs ≡ idx
unfolding index_loop child_loop
child_loop-index child i idx [] d e = (let no : ⊥ = cc in elim no [ ])
child_loop-index child i idx (c ∷ cs) d e = elim (Bool-cases (pos i ==ℤ idx)) [
  | inl at ↦
      (let same : c ≡ child = ground arith in
        let here : pos i ≡ idx = (==ℤ_iff (pos i) idx).0 at in
        rw (same, sym here) (ground (arith, next-before i)))
  | inr later ↦
      (let rest : child_loop (suc i) idx cs ≡ some child = ground arith in
        let m = child_loop-member child (suc i) idx cs rest in
        let e' = child_loop-index child (suc i) idx cs (ground arith) rest in
        ground (arith, next-before i, m, e'))
]

-- For a block of a function, whose blocks are distinct, getBlock returns the block at an index
-- exactly if getIndexIntoParent gives that index for the block.
pub get_block-get_index_into_parent :
    (blocks : List ℕ) (b : ℕ) (idx : ℤ)
    → distinct blocks ≡ true
    → member b blocks ≡ true
    → (get_block blocks idx ≡ some b) ↔ (get_index_into_parent blocks b ≡ idx)
unfolding get_block get_index_into_parent
get_block-get_index_into_parent blocks b idx d m = (
  λ e. child_loop-index b 0 idx blocks d e,
  λ e. (let (k, at, le, found) = index_loop-found b 0 blocks m in rw (sym e, at) found),
)

-- The instructions of a block likewise.
pub get_instruction-get_index_into_parent :
    (instructions : List ℕ) (i : ℕ) (idx : ℤ)
    → distinct instructions ≡ true
    → member i instructions ≡ true
    → (get_instruction instructions idx ≡ some i) ↔ (get_index_into_parent instructions i ≡ idx)
unfolding get_block get_instruction
get_instruction-get_index_into_parent instructions i idx d m =
    get_block-get_index_into_parent instructions i idx d m

member-blocks_of_subloops :
    (header b : ℕ) (bss : List (List ℕ))
    → member b (blocks_of_subloops header bss) ≡ (not (b == header) && any (λ bs. member b bs) bss)
unfolding blocks_of_subloops
member-blocks_of_subloops header b [] = ground arith
member-blocks_of_subloops header b (bs ∷ bss) = ground (
  arith,
  any-append (λ c. c == b) (filter (λ c. not (c == header)) bs) (blocks_of_subloops header bss),
  member-filter (λ c. not (c == header)) b bs,
  member-blocks_of_subloops header b bss,
)

member-instructions_of :
    (block_instructions : ℕ → List ℕ) (i : ℕ) (bs : List ℕ)
    → member i (instructions_of block_instructions bs)
      ≡ any (λ b. member i (block_instructions b)) bs
unfolding instructions_of
member-instructions_of block_instructions i [] = refl
member-instructions_of block_instructions i (b ∷ bs) = ground (
  arith,
  any-append (λ c. c == i) (block_instructions b) (instructions_of block_instructions bs),
  member-instructions_of block_instructions i bs,
)

any-filter : (p q : ℕ → Bool) (bs : List ℕ) → any p (filter q bs) ≡ any (λ b. q b && p b) bs
any-filter p q [] = refl
any-filter p q (b ∷ bs) = ground (arith, any-filter p q bs)

any-same : (p q : ℕ → Bool) (bs : List ℕ) → ((b : ℕ) → p b ≡ q b) → any p bs ≡ any q bs
any-same p q [] same = refl
any-same p q (b ∷ bs) same = ground (arith, same b, any-same p q bs same)

-- A block of the loop that is its header, or is in none of its subloops.
abbrev pub is_unique : LoopBlocks → ℕ → Bool
is_unique l b = (b == l.header) || not (any (λ bs. member b bs) l.sub_loops)

-- getUniqueLoopInstructions returns an instruction exactly if it stands in a block of the loop that
-- is its header, or that is in none of its subloops.
pub get_unique_loop_instructions-member :
    (block_instructions : ℕ → List ℕ) (l : LoopBlocks) (i : ℕ)
    → member i (get_unique_loop_instructions block_instructions l)
      ≡ any (λ b. is_unique l b && member i (block_instructions b)) l.loop_blocks
unfolding get_unique_loop_instructions get_unique_loop_blocks
get_unique_loop_instructions-member block_instructions l i =
    member-instructions_of block_instructions i (get_unique_loop_blocks l)
    ∙ any-filter (λ b. member i (block_instructions b))
        (λ b. not (member b (blocks_of_subloops l.header l.sub_loops))) l.loop_blocks
    ∙ any-same
        (λ b.
          not (member b (blocks_of_subloops l.header l.sub_loops))
          && member i (block_instructions b))
        (λ b. is_unique l b && member i (block_instructions b)) l.loop_blocks
        (λ b. ground (arith, member-blocks_of_subloops l.header b l.sub_loops))
