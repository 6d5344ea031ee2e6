-- ===== src/Cddd/View.antt =====
-- What lib/CDDDAnalysis.cpp takes from LLVM and from the control dependence graph, and isLoopUnrolled
-- of include/CommonLLVM.h. Instructions, blocks and loops are numbers.
use elastic_sycl_hls.Prelude.{ℕ, ltb, Bool, ◌&&◌, Option, none, some, List, [], ◌∷◌, length}
use elastic_sycl_hls.Prelude.Members.{any}
use elastic_sycl_hls.Helpers.TypeNames.{Text, has_text}
use elastic_sycl_hls.Cddd.Latency.{Opcode}

pub record CdddView : Type 0 where
  -- Of a block.
  pub instructions : ℕ → List ℕ
  pub is_entry : ℕ → Bool
  pub is_loop_header : ℕ → Bool
  pub loop_for : ℕ → Option ℕ
  pub get_control_dependency_source : ℕ → Option ℕ
  -- The texts of the operands of the metadata at the block's terminator, debug locations left out.
  pub metadata : ℕ → List Text
  -- Of an instruction: those of its operands, users and incoming values that are instructions.
  pub parent : ℕ → ℕ
  pub opcode : ℕ → Opcode
  pub is_phi : ℕ → Bool
  pub is_terminator : ℕ → Bool
  pub is_void : ℕ → Bool
  pub operands : ℕ → List ℕ
  pub users : ℕ → List ℕ
  pub incoming : ℕ → List ℕ
  -- Of a loop.
  pub header : ℕ → ℕ
  pub latch : ℕ → Option ℕ
  pub contains : ℕ → ℕ → Bool

-- "llvm.loop.unroll.enable" in ASCII
abbrev pub unroll_enable : Text
unroll_enable =
    108 ∷ 108 ∷ 118 ∷ 109 ∷ 46 ∷ 108 ∷ 111 ∷ 111 ∷ 112 ∷ 46 ∷ 117 ∷ 110 ∷ 114 ∷ 111 ∷ 108 ∷ 108 ∷ 46
    ∷ 101 ∷ 110 ∷ 97 ∷ 98 ∷ 108 ∷ 101 ∷ []

module _ (v : CdddView) where
  -- The loops over the metadata of a latch.
  unfoldable pub has_unroll_enable : ℕ → Bool
  has_unroll_enable latch =
      any (λ t. ltb 0 (length t) && has_text unroll_enable t) (v.metadata latch)

  -- `none` for a loop without a latch, where a null pointer is followed.
  unfoldable pub is_loop_unrolled : ℕ → Option Bool
  is_loop_unrolled l = elim (v.latch l) [
    | none ↦ none
    | some latch ↦ some (has_unroll_enable latch)
  ]
