-- ===== src/Cddd/Inputs.antt =====
-- What collectBlockInOutDependencies of lib/CDDDAnalysis.cpp collects.
use elastic_sycl_hls.Prelude.{
  ℕ, ◌≡◌, refl, arith, ◌==◌, Bool, true, false, not, ◌&&◌, ◌||◌, if◌then◌else◌, List, [], ◌∷◌,
}
use elastic_sycl_hls.Prelude.Members.{any, member, filter}
use elastic_sycl_hls.Cddd.Maps.{find_set, member-insert_at}
use elastic_sycl_hls.Cddd.View.{CdddView}
use elastic_sycl_hls.Cddd.Dependencies.{
  BlockDependencies, add_input, add_output, add_phis, is_input_operand, add_operands, add_users,
  visit_decoupled, collect_block_dependencies, is_input, is_output,
}

abbrev pub inputs_of : BlockDependencies → ℕ → ℕ → Bool
inputs_of d b x = member x (find_set b d.input_dependencies)

abbrev pub outputs_of : BlockDependencies → ℕ → ℕ → Bool
outputs_of d b x = member x (find_set b d.output_dependencies)

-- The two maps hold for block `c` and instruction `x` what they held before and what is said to
-- be new.
pub record IsGrown (c x : ℕ) (new_in new_out : Bool) (d e : BlockDependencies) : Type 0 where
  pub grown_in : inputs_of e c x ≡ (new_in || inputs_of d c x)
  pub grown_out : outputs_of e c x ≡ (new_out || outputs_of d c x)

add_input_if :
    (h : Bool) (b i c x : ℕ) (d : BlockDependencies)
    → IsGrown c x (h && (b == c) && (i == x)) false d (if h then add_input b i d else d)
add_input_if true b i c x d = record {
  grown_in = member-insert_at b c x i d.input_dependencies;
  grown_out = refl;
}
add_input_if false b i c x d = record { grown_in = refl; grown_out = refl }

add_output_if :
    (h : Bool) (b i c x : ℕ) (d : BlockDependencies)
    → IsGrown c x false (h && (b == c) && (i == x)) d (if h then add_output b i d else d)
add_output_if true b i c x d = record {
  grown_in = refl;
  grown_out = member-insert_at b c x i d.output_dependencies;
}
add_output_if false b i c x d = record { grown_in = refl; grown_out = refl }

IsGrown-then :
    {c x : ℕ} {ins outs ins' outs' all_ins all_outs : Bool} {d e f : BlockDependencies}
    → IsGrown c x ins outs d e
    → IsGrown c x ins' outs' e f
    → (ins' || ins) ≡ all_ins
    → (outs' || outs) ≡ all_outs
    → IsGrown c x all_ins all_outs d f
IsGrown-then g h i o = record {
  grown_in = ground (arith, g.grown_in, h.grown_in, i);
  grown_out = ground (arith, g.grown_out, h.grown_out, o);
}

module _ (v : CdddView) (b c x : ℕ) where
  add_phis-IsGrown :
      (is : List ℕ) (d : BlockDependencies)
      → IsGrown c x ((b == c) && member x is) false d (add_phis v b is d)
  unfolding add_phis
  add_phis-IsGrown [] d = record { grown_in = ground arith; grown_out = refl }
  add_phis-IsGrown (i ∷ is) d =
      IsGrown-then (add_input_if true b i c x d) (add_phis-IsGrown is (add_input b i d))
        (ground arith) refl

  add_operands-IsGrown :
      (decoupled is : List ℕ) (d : BlockDependencies)
      → IsGrown c x
          ((b == c) && member x is && is_input_operand v decoupled x)
          false
          d
          (add_operands v b decoupled is d)
  unfolding add_operands
  add_operands-IsGrown decoupled [] d = record { grown_in = ground arith; grown_out = refl }
  add_operands-IsGrown decoupled (i ∷ is) d =
      IsGrown-then (add_input_if (is_input_operand v decoupled i) b i c x d)
        (add_operands-IsGrown decoupled is _) (ground arith) refl

  add_users-IsGrown :
      (i : ℕ) (decoupled us : List ℕ) (d : BlockDependencies)
      → IsGrown c x false
          ((b == c) && (i == x) && any (λ u. not (member u decoupled)) us)
          d
          (add_users v b i decoupled us d)
  unfolding add_users
  add_users-IsGrown i decoupled [] d = record { grown_in = refl; grown_out = ground arith }
  add_users-IsGrown i decoupled (u ∷ us) d =
      IsGrown-then (add_output_if (not (member u decoupled)) b i c x d)
        (add_users-IsGrown i decoupled us _) refl (ground arith)

  visit_decoupled-IsGrown :
      (decoupled is : List ℕ) (d : BlockDependencies)
      → IsGrown c x
          ((b == c) && any (λ i. member x (v.operands i)) is && is_input_operand v decoupled x)
          ((b == c) && member x is && any (λ u. not (member u decoupled)) (v.users x))
          d
          (visit_decoupled v b decoupled is d)
  unfolding visit_decoupled
  visit_decoupled-IsGrown decoupled [] d = record {
    grown_in = ground arith;
    grown_out = ground arith;
  }
  visit_decoupled-IsGrown decoupled (i ∷ is) d =
      IsGrown-then
        (IsGrown-then (add_operands-IsGrown decoupled (v.operands i) d)
          (add_users-IsGrown i decoupled (v.users i) _) refl refl)
        (visit_decoupled-IsGrown decoupled is _) (ground arith) (ground arith)

-- The decoupled instructions of a block, as the entries list them.
module _ (v : CdddView) where
  -- collectBlockInOutDependencies adds to the inputs of a block its phi nodes and the operands of
  -- its decoupled instructions that are neither decoupled with them nor in an entry block, and to the
  -- outputs its decoupled instructions with a user that is not decoupled with them, and nothing else.
  pub collect_block_dependencies-IsGrown :
      (entries : List (ℕ × List ℕ)) (d : BlockDependencies) (c x : ℕ)
      → IsGrown c x
          (any (λ e. (e.0 == c) && is_input v e.0 e.1 x) entries)
          (any (λ e. (e.0 == c) && is_output v e.1 x) entries)
          d
          (collect_block_dependencies v entries d)
  unfolding collect_block_dependencies
  collect_block_dependencies-IsGrown [] d c x = record { grown_in = refl; grown_out = refl }
  collect_block_dependencies-IsGrown ((b, decoupled) ∷ entries) d c x =
      IsGrown-then
        (IsGrown-then (add_phis-IsGrown v b c x (filter v.is_phi (v.instructions b)) d)
          (visit_decoupled-IsGrown v b c x decoupled decoupled _) refl refl)
        (collect_block_dependencies-IsGrown entries _ c x) (ground arith) (ground arith)
