-- ===== src/Gep/Hoisted.antt =====
-- What hoistGepPass of lib/HoistConstantGepTransform.cpp moves to the entry block.
use elastic_sycl_hls.Prelude.{
  ℕ, ◌≡◌, inl, inr, refl, sym, ap, ◌∙◌, arith, ◌==◌, Bool, true, false, not, ◌&&◌, ◌||◌,
  if◌then◌else◌, Option, none, some, List, [], ◌∷◌, ◌++◌, map, Bool-cases,
}
use mathlib.Core.List.{append-nil, append_assoc}
use elastic_sycl_hls.Prelude.Members.{any, filter, member, any-append, member-filter}
use elastic_sycl_hls.Gep.{
  GepView, Body, geps_to_hoist, is_movable, move_to_entry, hoist_loop, hoist_gep_pass,
}

-- The blocks without some instructions.
abbrev pub without : List ℕ → List (List ℕ) → List (List ℕ)
without hs blocks = map (filter (λ i. not (member i hs))) blocks

filter-filter :
    (g : ℕ) (hs b : List ℕ)
    → filter (λ i. not (member i hs)) (filter (λ i. not (i == g)) b)
      ≡ filter (λ i. not (member i (g ∷ hs))) b
filter-filter g hs [] = refl
filter-filter g hs (i ∷ b) = ground (arith, filter-filter g hs b)

without-cons :
    (g : ℕ) (hs : List ℕ) (blocks : List (List ℕ))
    → without hs (map (filter (λ i. not (i == g))) blocks) ≡ without (g ∷ hs) blocks
without-cons g hs [] = refl
without-cons g hs (b ∷ blocks) = ground (arith, filter-filter g hs b, without-cons g hs blocks)

filter-all : (b : List ℕ) → filter (λ i. true) b ≡ b
filter-all [] = refl
filter-all (i ∷ b) = ground (arith, filter-all b)

without-none : (blocks : List (List ℕ)) → without [] blocks ≡ blocks
without-none [] = refl
without-none (b ∷ blocks) = ground (arith, filter-all b, without-none blocks)

abbrev pub is_not_nil : List ℕ → Bool
is_not_nil [] = false
is_not_nil (h ∷ hs) = true

movable_operand :
    (entry : List ℕ) (gep : ℕ) (o : Option ℕ)
    → elim o as (λ o. Bool) [ none ↦ false | some x ↦ member x entry ] ≡ true
    → elim o as (λ o. Bool) [ none ↦ false | some x ↦ member x (entry ++ gep ∷ []) ] ≡ true
movable_operand entry gep none e = e
movable_operand entry gep (some x) e = ground (arith, any-append (λ c. c == x) entry (gep ∷ []), e)

module _ (v : GepView) where
  -- The instructions, placed behind the entry block in this order, each stand behind their operand.
  abbrev pub in_order : List ℕ → List ℕ → Bool
  in_order entry [] = true
  in_order entry (h ∷ hs) = is_movable v entry h && in_order (entry ++ h ∷ []) hs

  later_movable :
      (entry : List ℕ) (gep g : ℕ)
      → is_movable v entry g ≡ true
      → is_movable v (entry ++ gep ∷ []) g ≡ true
  unfolding is_movable
  later_movable entry gep g movable = movable_operand entry gep (v.pointer_operand g) movable

  hoist_loop-moves :
      (gep : ℕ) (geps : List ℕ) (b : Body)
      → is_movable v b.entry gep ≡ true
      → hoist_loop v (gep ∷ geps) b ≡ hoist_loop v geps (move_to_entry v gep b)
  unfolding hoist_loop
  hoist_loop-moves gep geps b moved =
      ap (λ t. hoist_loop v geps (if t then move_to_entry v gep b else b)) moved

  hoist_loop-stays :
      (gep : ℕ) (geps : List ℕ) (b : Body)
      → is_movable v b.entry gep ≡ false
      → hoist_loop v (gep ∷ geps) b ≡ hoist_loop v geps b
  unfolding hoist_loop
  hoist_loop-stays gep geps b stays =
      ap (λ t. hoist_loop v geps (if t then move_to_entry v gep b else b)) stays

  hoist_loop-hoisted :
      (geps : List ℕ) (b : Body)
      → (hs : List ℕ) × ((hoist_loop v geps b).entry ≡ b.entry ++ hs)
        × ((hoist_loop v geps b).other_blocks ≡ without hs b.other_blocks)
        × ((hoist_loop v geps b).was_changed ≡ (b.was_changed || is_not_nil hs))
        × (in_order b.entry hs ≡ true)
        × ((g : ℕ) → member g hs ≡ true → member g geps ≡ true)
        × ((g : ℕ) → member g geps ≡ true → is_movable v b.entry g ≡ true → member g hs ≡ true)
  unfolding hoist_loop move_to_entry
  hoist_loop-hoisted [] b = (
    [],
    sym (append-nil b.entry),
    sym (without-none b.other_blocks),
    ground arith,
    refl,
    λ g m. m,
    λ g m movable. m,
  )
  hoist_loop-hoisted (gep ∷ geps) b = elim (Bool-cases (is_movable v b.entry gep)) [
    | inl moved ↦
        (let (hs, e, o, c, ord, sub, all) = hoist_loop-hoisted geps (move_to_entry v gep b) in
          let step = hoist_loop-moves gep geps b moved in
          (
            gep ∷ hs,
            ap (λ x. x.entry) step ∙ e ∙ append_assoc b.entry (gep ∷ []) hs,
            ap (λ x. x.other_blocks) step ∙ o ∙ without-cons gep hs b.other_blocks,
            ap (λ x. x.was_changed) step ∙ ground (arith, c),
            ground (arith, moved, ord),
            λ g m. ground (arith, sub g),
            λ g m movable. ground (arith, all g, later_movable b.entry gep g movable),
          ))
    | inr stays ↦
        (let (hs, e, o, c, ord, sub, all) = hoist_loop-hoisted geps b in
          let step = hoist_loop-stays gep geps b stays in
          (
            hs,
            ap (λ x. x.entry) step ∙ e,
            ap (λ x. x.other_blocks) step ∙ o,
            ap (λ x. x.was_changed) step ∙ c,
            ord,
            λ g m. ground (arith, sub g),
            λ g m movable. elim (Bool-cases (gep == g)) [
              | inl same ↦
                  (let at : gep ≡ g = ground (arith, same) in
                    let no : ⊥ = ground (arith, rw at at (stays), movable) in elim no [ ])
              | inr other ↦ all g (ground arith) movable
            ],
          ))
  ]

  member-geps_to_hoist :
      (g : ℕ) (blocks : List (List ℕ))
      → member g (geps_to_hoist v blocks) ≡ (v.is_constant_gep g && any (λ b. member g b) blocks)
  unfolding geps_to_hoist
  member-geps_to_hoist g [] = ground arith
  member-geps_to_hoist g (b ∷ blocks) = ground (
    arith,
    any-append (λ c. c == g) (filter v.is_constant_gep b) (geps_to_hoist v blocks),
    member-filter v.is_constant_gep g b,
    member-geps_to_hoist g blocks,
  )

-- hoistGepPass moves some instructions behind the entry block, and removes these from the other
-- blocks, which else stay as they are. They are element pointers with constant indices of the other
-- blocks, each stands behind its operand in the new entry block, and among them are all those whose
-- operand stood in the entry block before. The pass reports a change exactly if it moved any.
pub hoist_gep_pass-hoisted :
    (v : GepView) (entry : List ℕ) (blocks : List (List ℕ))
    → (hs : List ℕ) × ((hoist_gep_pass v entry blocks).entry ≡ entry ++ hs)
      × ((hoist_gep_pass v entry blocks).other_blocks ≡ without hs blocks)
      × ((hoist_gep_pass v entry blocks).was_changed ≡ is_not_nil hs)
      × (in_order v entry hs ≡ true)
      × ((g : ℕ)
          → member g hs ≡ true
          → (v.is_constant_gep g && any (λ b. member g b) blocks) ≡ true)
      × ((g : ℕ)
          → (v.is_constant_gep g && any (λ b. member g b) blocks) ≡ true
          → is_movable v entry g ≡ true
          → member g hs ≡ true)
unfolding hoist_gep_pass
hoist_gep_pass-hoisted v entry blocks =
    let (hs, e, o, c, ord, sub, all) =
      hoist_loop-hoisted v (geps_to_hoist v blocks)
        (record { entry = entry; other_blocks = blocks; was_changed = false }) in
    (
      hs,
      e,
      o,
      c,
      ord,
      λ g m. sym (member-geps_to_hoist v g blocks) ∙ sub g m,
      λ g m movable. all g (member-geps_to_hoist v g blocks ∙ m) movable,
    )
