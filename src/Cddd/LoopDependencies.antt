-- ===== src/Cddd/LoopDependencies.antt =====
-- collectLoopInOutDependencies of lib/CDDDAnalysis.cpp: the values that go in and out of the decoupled
-- loops.
use elastic_sycl_hls.Prelude.{
  ℕ, ◌≡◌, refl, ◌∙◌, arith, ◌==◌, Bool, true, false, not, ◌&&◌, ◌||◌, if◌then◌else◌, some, List, [],
  ◌∷◌, Bool-cases, inl, inr,
}
use elastic_sycl_hls.Prelude.Members.{any, member}
use elastic_sycl_hls.Cddd.Maps.{insert, member-insert, find, find-put, put}
use elastic_sycl_hls.Cddd.View.{CdddView}

-- inDeps and outDeps of one loop.
pub record LoopValues : Type 0 where
  pub in_deps : List ℕ
  pub out_deps : List ℕ

module _ (v : CdddView) where
  abbrev pub is_in_loop : ℕ → ℕ → Bool
  is_in_loop l i = v.contains l (v.parent i)

  -- The loops over the users of an instruction that stands outside, and inside, the loop.
  unfoldable pub add_if_used_inside : ℕ → ℕ → List ℕ → List ℕ → List ℕ
  add_if_used_inside l i [] deps = deps
  add_if_used_inside l i (u ∷ us) deps =
      add_if_used_inside l i us (if is_in_loop l u then insert i deps else deps)

  unfoldable pub add_if_used_outside : ℕ → ℕ → List ℕ → List ℕ → List ℕ
  add_if_used_outside l i [] deps = deps
  add_if_used_outside l i (u ∷ us) deps =
      add_if_used_outside l i us (if not (is_in_loop l u) then insert i deps else deps)

  unfoldable pub add_inputs : ℕ → List ℕ → List ℕ → List ℕ
  add_inputs l [] deps = deps
  add_inputs l (i ∷ is) deps = add_inputs l is (add_if_used_inside l i (v.users i) deps)

  unfoldable pub add_outputs : ℕ → List ℕ → List ℕ → List ℕ
  add_outputs l [] deps = deps
  add_outputs l (i ∷ is) deps = add_outputs l is (add_if_used_outside l i (v.users i) deps)

  -- The loop over the blocks of the function.
  unfoldable pub scan_function : ℕ → List ℕ → LoopValues → LoopValues
  scan_function l [] d = d
  scan_function l (b ∷ bs) d =
      let skip = scan_function l bs d in
      let outside =
        scan_function l bs (record d { in_deps = add_inputs l (v.instructions b) d.in_deps }) in
      let inside =
        scan_function l bs (record d { out_deps = add_outputs l (v.instructions b) d.out_deps }) in
      if v.is_entry b then skip else if not (v.contains l b) then outside else inside

  abbrev pub loop_values : List ℕ → ℕ → LoopValues
  loop_values blocks l = scan_function l blocks (record { in_deps = []; out_deps = [] })

  -- loopInputDependencies and loopOutputDependencies.
  unfoldable pub collect_loop_dependencies :
      List ℕ → List ℕ → List (ℕ × LoopValues) → List (ℕ × LoopValues)
  collect_loop_dependencies blocks [] deps = deps
  collect_loop_dependencies blocks (l ∷ ls) deps =
      collect_loop_dependencies blocks ls (put l (loop_values blocks l) deps)

  member-add_if_used_inside :
      (l i x : ℕ) (us deps : List ℕ)
      → member x (add_if_used_inside l i us deps)
        ≡ (((i == x) && any (λ u. is_in_loop l u) us) || member x deps)
  unfolding add_if_used_inside
  member-add_if_used_inside l i x [] deps = ground arith
  member-add_if_used_inside l i x (u ∷ us) deps =
      member-add_if_used_inside l i x us _ ∙ ground (arith, member-insert x i deps)

  member-add_if_used_outside :
      (l i x : ℕ) (us deps : List ℕ)
      → member x (add_if_used_outside l i us deps)
        ≡ (((i == x) && any (λ u. not (is_in_loop l u)) us) || member x deps)
  unfolding add_if_used_outside
  member-add_if_used_outside l i x [] deps = ground arith
  member-add_if_used_outside l i x (u ∷ us) deps =
      member-add_if_used_outside l i x us _ ∙ ground (arith, member-insert x i deps)

  member-add_inputs :
      (l x : ℕ) (is deps : List ℕ)
      → member x (add_inputs l is deps)
        ≡ ((member x is && any (λ u. is_in_loop l u) (v.users x)) || member x deps)
  unfolding add_inputs
  member-add_inputs l x [] deps = refl
  member-add_inputs l x (i ∷ is) deps =
      member-add_inputs l x is _ ∙ ground (arith, member-add_if_used_inside l i x (v.users i) deps)

  member-add_outputs :
      (l x : ℕ) (is deps : List ℕ)
      → member x (add_outputs l is deps)
        ≡ ((member x is && any (λ u. not (is_in_loop l u)) (v.users x)) || member x deps)
  unfolding add_outputs
  member-add_outputs l x [] deps = refl
  member-add_outputs l x (i ∷ is) deps =
      member-add_outputs l x is _
      ∙ ground (arith, member-add_if_used_outside l i x (v.users i) deps)

  -- A block of the function, but the entry block, that holds `x`, in the loop or out of it.
  abbrev pub defines : Bool → ℕ → ℕ → ℕ → Bool
  defines inner l x b =
      not (v.is_entry b)
      && (if inner then v.contains l b else not (v.contains l b))
      && member x (v.instructions b)

  scan_function-in_deps :
      (l x : ℕ) (bs : List ℕ) (d : LoopValues)
      → member x (scan_function l bs d).in_deps ≡ (
          (any (defines false l x) bs && any (λ u. is_in_loop l u) (v.users x))
          || member x d.in_deps)
  unfolding scan_function
  scan_function-in_deps l x [] d = refl
  scan_function-in_deps l x (b ∷ bs) d = ground (
    arith,
    scan_function-in_deps l x bs d,
    scan_function-in_deps l x bs (record d { in_deps = add_inputs l (v.instructions b) d.in_deps }),
    scan_function-in_deps l x bs
        (record d { out_deps = add_outputs l (v.instructions b) d.out_deps }),
    member-add_inputs l x (v.instructions b) d.in_deps,
  )

  scan_function-out_deps :
      (l x : ℕ) (bs : List ℕ) (d : LoopValues)
      → member x (scan_function l bs d).out_deps ≡ (
          (any (defines true l x) bs && any (λ u. not (is_in_loop l u)) (v.users x))
          || member x d.out_deps)
  unfolding scan_function
  scan_function-out_deps l x [] d = refl
  scan_function-out_deps l x (b ∷ bs) d = ground (
    arith,
    scan_function-out_deps l x bs d,
    scan_function-out_deps l x bs
        (record d { in_deps = add_inputs l (v.instructions b) d.in_deps }),
    scan_function-out_deps l x bs
        (record d { out_deps = add_outputs l (v.instructions b) d.out_deps }),
    member-add_outputs l x (v.instructions b) d.out_deps,
  )

  find-collect_loop_dependencies :
      (blocks ls : List ℕ) (deps : List (ℕ × LoopValues)) (l : ℕ)
      → find l (collect_loop_dependencies blocks ls deps)
        ≡ (if member l ls then some (loop_values blocks l) else find l deps)
  unfolding collect_loop_dependencies
  find-collect_loop_dependencies blocks [] deps l = refl
  find-collect_loop_dependencies blocks (k ∷ ls) deps l = elim (Bool-cases (k == l)) [
    | inl same ↦
        (let e : k ≡ l = ground (arith, same) in
          find-collect_loop_dependencies blocks ls _ l
          ∙ rw e (ground (arith, find-put l l (loop_values blocks l) deps)))
    | inr other ↦
        find-collect_loop_dependencies blocks ls _ l
        ∙ ground (arith, other, find-put k l (loop_values blocks k) deps)
  ]

  -- collectLoopInOutDependencies gives each decoupled loop as inputs the instructions of the blocks
  -- outside it, but the entry block, with a user in it, and as outputs the instructions of its own
  -- blocks, but an entry block, with a user outside, and nothing else.
  pub collect_loop_dependencies_iff :
      (blocks ls : List ℕ) (deps : List (ℕ × LoopValues)) (l : ℕ)
      → member l ls ≡ true
      → (d : LoopValues) × (find l (collect_loop_dependencies blocks ls deps) ≡ some d)
        × ((x : ℕ)
            → (member x d.in_deps
                ≡ (any (defines false l x) blocks && any (λ u. is_in_loop l u) (v.users x)))
              × (member x d.out_deps
                  ≡ (any (defines true l x) blocks && any (λ u. not (is_in_loop l u)) (v.users x))))
  collect_loop_dependencies_iff blocks ls deps l m = (
    loop_values blocks l,
    rw (find-collect_loop_dependencies blocks ls deps l, m) refl,
    λ x. (
      scan_function-in_deps l x blocks _ ∙ ground arith,
      scan_function-out_deps l x blocks _ ∙ ground arith,
    ),
  )
