-- ===== src/Cddd/Dependencies.antt =====
-- collectBlockInOutDependencies of lib/CDDDAnalysis.cpp: the values that go in and out of the
-- decoupled blocks.
use elastic_sycl_hls.Prelude.{ℕ, Bool, not, ◌&&◌, ◌||◌, if◌then◌else◌, List, [], ◌∷◌}
use elastic_sycl_hls.Prelude.Members.{any, member, filter}
use elastic_sycl_hls.Cddd.Maps.{insert_at}
use elastic_sycl_hls.Cddd.View.{CdddView}

pub record BlockDependencies : Type 0 where
  pub input_dependencies : List (ℕ × List ℕ)
  pub output_dependencies : List (ℕ × List ℕ)

-- `blockInputDependencies[BB].insert(I)`
abbrev pub add_input : ℕ → ℕ → BlockDependencies → BlockDependencies
add_input b i d = record d { input_dependencies = insert_at b i d.input_dependencies }

-- `blockOutputDependencies[BB].insert(I)`
abbrev pub add_output : ℕ → ℕ → BlockDependencies → BlockDependencies
add_output b i d = record d { output_dependencies = insert_at b i d.output_dependencies }

module _ (v : CdddView) where
  unfoldable pub add_phis : ℕ → List ℕ → BlockDependencies → BlockDependencies
  add_phis b [] d = d
  add_phis b (i ∷ is) d = add_phis b is (add_input b i d)

  abbrev pub is_input_operand : List ℕ → ℕ → Bool
  is_input_operand decoupled i = not (v.is_entry (v.parent i)) && not (member i decoupled)

  -- The loop over the operands of one instruction.
  unfoldable pub add_operands : ℕ → List ℕ → List ℕ → BlockDependencies → BlockDependencies
  add_operands b decoupled [] d = d
  add_operands b decoupled (i ∷ is) d =
      add_operands b decoupled is (if is_input_operand decoupled i then add_input b i d else d)

  -- The loop over the users of the instruction `i`.
  unfoldable pub add_users : ℕ → ℕ → List ℕ → List ℕ → BlockDependencies → BlockDependencies
  add_users b i decoupled [] d = d
  add_users b i decoupled (u ∷ us) d =
      add_users b i decoupled us (if not (member u decoupled) then add_output b i d else d)

  -- The loop over the instructions to decouple.
  unfoldable pub visit_decoupled : ℕ → List ℕ → List ℕ → BlockDependencies → BlockDependencies
  visit_decoupled b decoupled [] d = d
  visit_decoupled b decoupled (i ∷ is) d =
      visit_decoupled b decoupled is
        (add_users b i decoupled (v.users i) (add_operands b decoupled (v.operands i) d))

  unfoldable pub collect_block_dependencies :
      List (ℕ × List ℕ) → BlockDependencies → BlockDependencies
  collect_block_dependencies [] d = d
  collect_block_dependencies ((b, decoupled) ∷ entries) d =
      collect_block_dependencies entries
        (visit_decoupled b decoupled decoupled (add_phis b (filter v.is_phi (v.instructions b)) d))

  -- An input and an output dependency of a block with its decoupled instructions.
  abbrev pub is_input : ℕ → List ℕ → ℕ → Bool
  is_input b decoupled x =
      member x (filter v.is_phi (v.instructions b))
      || (any (λ i. member x (v.operands i)) decoupled
          && not (v.is_entry (v.parent x))
          && not (member x decoupled))

  abbrev pub is_output : List ℕ → ℕ → Bool
  is_output decoupled x = member x decoupled && any (λ u. not (member u decoupled)) (v.users x)
