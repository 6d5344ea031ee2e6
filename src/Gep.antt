-- ===== src/Gep.antt =====
-- hoistGepPass of lib/HoistConstantGepTransform.cpp. A function is its entry block, without the
-- terminator, and its other blocks, each the list of its instructions, which are numbers.
pub mod Hoisted
mod Tests
use elastic_sycl_hls.Prelude.{
  ℕ, ◌==◌, Bool, true, false, not, ◌&&◌, if◌then◌else◌, Option, none, some, List, [], ◌∷◌, ◌++◌,
  map,
}
use elastic_sycl_hls.Prelude.Members.{filter, member}

pub record GepView : Type 0 where
  -- An element pointer whose indices are all constant.
  pub is_constant_gep : ℕ → Bool
  -- Its first operand, if that is an instruction.
  pub pointer_operand : ℕ → Option ℕ

pub record Body : Type 0 where
  pub entry : List ℕ
  pub other_blocks : List (List ℕ)
  pub was_changed : Bool

module _ (v : GepView) where
  -- The loops over the blocks, of which the entry block is left out.
  unfoldable pub geps_to_hoist : List (List ℕ) → List ℕ
  geps_to_hoist [] = []
  geps_to_hoist (b ∷ bs) = filter v.is_constant_gep b ++ geps_to_hoist bs

  -- Only the entry block dominates the entry block, so the test for dominance asks whether the
  -- operand stands there.
  unfoldable pub is_movable : List ℕ → ℕ → Bool
  is_movable entry gep = elim (v.pointer_operand gep) [ none ↦ false | some o ↦ member o entry ]

  -- `gep->moveBefore(entryBB->getTerminator())`
  unfoldable pub move_to_entry : ℕ → Body → Body
  move_to_entry gep b = record {
    entry = b.entry ++ gep ∷ [];
    other_blocks = map (filter (λ i. not (i == gep))) b.other_blocks;
    was_changed = true;
  }

  unfoldable pub hoist_loop : List ℕ → Body → Body
  hoist_loop [] b = b
  hoist_loop (gep ∷ geps) b =
      hoist_loop geps (if is_movable b.entry gep then move_to_entry gep b else b)

  unfoldable pub hoist_gep_pass : List ℕ → List (List ℕ) → Body
  hoist_gep_pass entry blocks =
      hoist_loop (geps_to_hoist blocks)
        (record { entry = entry; other_blocks = blocks; was_changed = false })
