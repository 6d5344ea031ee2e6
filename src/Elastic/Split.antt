-- ===== src/Elastic/Split.antt =====
-- splitCode and deleteCode of lib/ElasticTransform.cpp, as run composes them: which code remains in
-- the main kernel, in a PE and in the address generation unit. Blocks, instructions and kernel names
-- are numbers.
use elastic_sycl_hls.Prelude.{
  ℕ, ◌==◌, Bool, true, false, not, ◌&&◌, ◌||◌, if◌then◌else◌, List, [], ◌∷◌, ◌++◌,
}
use elastic_sycl_hls.Prelude.Members.{member, filter}
use elastic_sycl_hls.Cddd.Maps.{insert_all}

pub record PeLoop : Type 0 where
  pub loop_blocks : List ℕ
  pub header : ℕ
  pub exit_block : ℕ

-- `PE_TYPE`, with the decoupled block or loop.
pub data PeKind : Type 0 where
  block_pe : ℕ → PeKind
  loop_pe : PeLoop → PeKind

pub record Pe : Type 0 where
  pub kernel_name : ℕ
  pub kind : PeKind

-- A copy of the function, named as one of the kernels.
pub record Kernel : Type 0 where
  pub blocks : List ℕ
  pub instructions : ℕ → List ℕ
  pub entry : ℕ
  pub return_block : ℕ
  pub is_phi : ℕ → Bool
  pub is_terminator : ℕ → Bool
  pub is_pipe_call : ℕ → Bool
  -- `isDebugOrPseudoInst`, and a call of printf.
  pub is_debug : ℕ → Bool
  pub is_printf : ℕ → Bool
  pub is_store : ℕ → Bool
  -- A store to an alloca that is no array, as the arguments of pipes are.
  pub is_store_to_scalar_alloc : ℕ → Bool
  -- Whether a name is that of an address generation unit.
  pub is_agu : ℕ → Bool

-- toDeleteI, toKeepI, toDeleteBB and toKeepBB, and the loop headers that are connected directly to
-- the exit of their loop.
pub record CodeSplit : Type 0 where
  pub delete_instrs : List ℕ
  pub keep_instrs : List ℕ
  pub delete_blocks : List ℕ
  pub keep_blocks : List ℕ
  pub direct_exits : List (ℕ × ℕ)

module _ (f : Kernel) where
  abbrev pub not_terminators : ℕ → List ℕ
  not_terminators b = filter (λ i. not (f.is_terminator i)) (f.instructions b)

  abbrev pub phis : ℕ → List ℕ
  phis b = filter f.is_phi (f.instructions b)

  abbrev pub not_phis : ℕ → List ℕ
  not_phis b = filter (λ i. not (f.is_phi i)) (f.instructions b)

  -- The body of the loop over peArray; the first argument is `isThisPE`.
  unfoldable pub split_pe : Bool → PeKind → CodeSplit → CodeSplit
  split_pe true (block_pe b) s = record s {
    delete_instrs = insert_all (phis b ++ not_terminators f.return_block) s.delete_instrs;
    keep_instrs = insert_all (not_phis b) s.keep_instrs;
    delete_blocks = insert_all f.blocks s.delete_blocks;
    keep_blocks = insert_all (b ∷ []) s.keep_blocks;
  }
  split_pe true (loop_pe l) s = record s {
    delete_instrs = insert_all (not_terminators f.return_block) s.delete_instrs;
    delete_blocks =
        insert_all (filter (λ b. not (member b l.loop_blocks)) f.blocks) s.delete_blocks;
    keep_blocks = insert_all (l.exit_block ∷ []) s.keep_blocks;
  }
  split_pe false (block_pe b) s = record s {
    delete_instrs = insert_all (not_terminators b) s.delete_instrs;
  }
  split_pe false (loop_pe l) s = record s {
    delete_instrs = insert_all (phis l.header) s.delete_instrs;
    delete_blocks = insert_all (filter (λ b. not (b == l.header)) l.loop_blocks) s.delete_blocks;
    direct_exits = s.direct_exits ++ (l.header, l.exit_block) ∷ [];
  }

  unfoldable pub split_pes : ℕ → List Pe → CodeSplit → CodeSplit
  split_pes name [] s = s
  split_pes name (p ∷ ps) s = split_pes name ps (split_pe (p.kernel_name == name) p.kind s)

  unfoldable pub split_code : ℕ → List Pe → CodeSplit
  split_code name ps = split_pes name ps (record {
    delete_instrs = [];
    keep_instrs = [];
    delete_blocks = [];
    keep_blocks = insert_all (f.entry ∷ f.return_block ∷ []) [];
    direct_exits = [];
  })

  -- The instructions of the blocks that are deleted.
  unfoldable pub instrs_of_deleted : List ℕ → List ℕ → List ℕ
  instrs_of_deleted keep [] = []
  instrs_of_deleted keep (b ∷ bs) =
      if not (member b keep)
      then f.instructions b ++ instrs_of_deleted keep bs
      else instrs_of_deleted keep bs

  -- The sets that run gives to deleteCode, without what the rewrite rules keep.
  unfoldable pub kernel_split : ℕ → List Pe → CodeSplit
  kernel_split name ps =
      if f.is_agu name
      then record {
        delete_instrs = [];
        keep_instrs = [];
        delete_blocks = [];
        keep_blocks = [];
        direct_exits = [];
      }
      else split_code name ps

  -- The instructions that only the address generation unit deletes.
  abbrev pub is_deleted_in_agu : ℕ → Bool
  is_deleted_in_agu i =
      f.is_debug i || f.is_printf i || (f.is_store i && not (f.is_store_to_scalar_alloc i))

  unfoldable pub agu_deletions : List ℕ → List ℕ
  agu_deletions [] = []
  agu_deletions (b ∷ bs) =
      if not (b == f.entry)
      then filter is_deleted_in_agu (f.instructions b) ++ agu_deletions bs
      else agu_deletions bs

  -- Whether deleteCode leaves the instruction `i` of the block `b`; `kept` is what the rewrite rules
  -- have added to toKeepI.
  unfoldable pub is_left : ℕ → List ℕ → CodeSplit → ℕ → ℕ → Bool
  is_left name kept s b i =
      let in_agu =
        insert_all (if f.is_agu name then agu_deletions f.blocks else []) s.delete_instrs in
      let deleted = insert_all (instrs_of_deleted s.keep_blocks s.delete_blocks) in_agu in
      not (member b s.delete_blocks && not (member b s.keep_blocks))
      && not (
          member i deleted
          && not (member i kept || member i s.keep_instrs)
          && not (f.is_pipe_call i))
