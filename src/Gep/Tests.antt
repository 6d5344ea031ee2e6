-- ===== src/Gep/Tests.antt =====
-- lib/HoistConstantGepTransform.cpp: an element pointer into the kernel arguments, one on top of it,
-- and one of a value that stays behind.
use elastic_sycl_hls.Prelude.{
  ℕ, ◌≡◌, ◌==◌, refl, true, ◌&&◌, ◌||◌, if◌then◌else◌, none, some, List, [], ◌∷◌, ◌++◌,
}
use elastic_sycl_hls.Prelude.Members.{any, member}
use elastic_sycl_hls.Gep.{
  GepView, geps_to_hoist, is_movable, move_to_entry, hoist_loop, hoist_gep_pass,
}
use elastic_sycl_hls.Gep.Hoisted.{without, is_not_nil, in_order, hoist_gep_pass-hoisted}

-- 1 is an argument in the entry block; 2 = gep 1, 3 = gep 2, 5 = gep 4.
abbrev kernel_args : GepView
kernel_args = record {
  is_constant_gep = λ i. (i == 2) || (i == 3) || (i == 5);
  pointer_operand =
      λ i. if i == 2 then some 1 else if i == 3 then some 2 else if i == 5 then some 4 else none;
}

abbrev kernel_blocks : List (List ℕ)
kernel_blocks = (2 ∷ 4 ∷ []) ∷ (3 ∷ 5 ∷ 6 ∷ []) ∷ []

both_hoisted : hoist_gep_pass kernel_args (1 ∷ []) kernel_blocks ≡ record {
  entry = 1 ∷ 2 ∷ 3 ∷ [];
  other_blocks = (4 ∷ []) ∷ (5 ∷ 6 ∷ []) ∷ [];
  was_changed = true;
}
unfolding hoist_gep_pass hoist_loop move_to_entry is_movable geps_to_hoist
both_hoisted = refl

hoist_gep_pass-hoisted_example :
    (hs : List ℕ) × ((hoist_gep_pass kernel_args (1 ∷ []) kernel_blocks).entry ≡ (1 ∷ []) ++ hs)
    × ((hoist_gep_pass kernel_args (1 ∷ []) kernel_blocks).other_blocks ≡ without hs kernel_blocks)
    × ((hoist_gep_pass kernel_args (1 ∷ []) kernel_blocks).was_changed ≡ is_not_nil hs)
    × (in_order kernel_args (1 ∷ []) hs ≡ true)
    × ((g : ℕ)
        → member g hs ≡ true
        → (kernel_args.is_constant_gep g && any (λ b. member g b) kernel_blocks) ≡ true)
    × ((g : ℕ)
        → (kernel_args.is_constant_gep g && any (λ b. member g b) kernel_blocks) ≡ true
        → is_movable kernel_args (1 ∷ []) g ≡ true
        → member g hs ≡ true)
hoist_gep_pass-hoisted_example = hoist_gep_pass-hoisted kernel_args (1 ∷ []) kernel_blocks
