-- ===== src/Helpers/Allocas.antt =====
-- getAllocaOfPointerBase of include/CommonLLVM.h: a search for the stack allocation behind a pointer.
-- Values are numbers.
use elastic_sycl_hls.Prelude.{
  ℕ, zero, suc, ◌+◌, ◌≤◌, ◌<◌, ◌≡◌, ◌⊎◌, inl, inr, refl, sym, ap, ◌∙◌, arith, ◌==◌, Bool, true,
  false, not, ◌&&◌, ◌||◌, if◌then◌else◌, Option, none, some, List, [], ◌∷◌, length, Bool-cases,
}
use elastic_sycl_hls.Prelude.Members.{member, left_of, left_of-take, left_of-start}

pub record ValueView : Type 0 where
  pub values : List ℕ
  pub is_alloca : ℕ → Bool
  -- The operands of an instruction; a value that is none has none.
  pub value_operands : ℕ → List ℕ

-- The loop over the operands: the worklist, its back in front, and the set of what is done.
unfoldable pub push_operands : List ℕ → List ℕ → List ℕ → List ℕ × List ℕ
push_operands [] ws done = (ws, done)
push_operands (o ∷ os) ws done =
    let skip = push_operands os ws done in
    let push = push_operands os (o ∷ ws) (o ∷ done) in if not (member o done) then push else skip

module _ (v : ValueView) where
  -- The outer option is the fuel.
  unfoldable pub alloca_loop : ℕ → List ℕ → List ℕ → Option (Option ℕ)
  alloca_loop zero ws done = none
  alloca_loop (suc fuel) [] done = some none
  alloca_loop (suc fuel) (c ∷ ws) done =
      let next = push_operands (v.value_operands c) ws done in
      let rest = alloca_loop fuel next.0 next.1 in if v.is_alloca c then some (some c) else rest

  unfoldable pub get_alloca_of_pointer_base : ℕ → Option (Option ℕ)
  get_alloca_of_pointer_base base = alloca_loop (suc (suc (length v.values))) (base ∷ []) []

push_operands-worklist :
    (x : ℕ) (os ws done : List ℕ)
    → member x (push_operands os ws done).0 ≡ ((member x os && not (member x done)) || member x ws)
unfolding push_operands
push_operands-worklist x [] ws done = refl
push_operands-worklist x (o ∷ os) ws done =
    ground
      (arith, push_operands-worklist x os ws done, push_operands-worklist x os (o ∷ ws) (o ∷ done))

push_operands-done :
    (x : ℕ) (os ws done : List ℕ)
    → member x (push_operands os ws done).1 ≡ (member x os || member x done)
unfolding push_operands
push_operands-done x [] ws done = refl
push_operands-done x (o ∷ os) ws done =
    ground (arith, push_operands-done x os ws done, push_operands-done x os (o ∷ ws) (o ∷ done))

module _ (v : ValueView) where
  -- A value on which another depends through operands.
  pub data Behind (x : ℕ) : ℕ → Type 0 where
    here : Behind x x
    through : (y z : ℕ) → Behind x y → member z (v.value_operands y) ≡ true → Behind x z

  -- The operands of the function's values are values of it.
  abbrev pub HasOperands : Type 0
  HasOperands =
      (x y : ℕ)
      → member x v.values ≡ true
      → member y (v.value_operands x) ≡ true
      → member y v.values ≡ true

  alloca_loop_sound :
      (base fuel a : ℕ) (ws done : List ℕ)
      → ((w : ℕ) → member w ws ≡ true → Behind base w)
      → alloca_loop v fuel ws done ≡ some (some a)
      → Behind base a × (v.is_alloca a ≡ true)
  unfolding alloca_loop
  alloca_loop_sound base zero a ws done behind e = (let no : ⊥ = cc in elim no [ ])
  alloca_loop_sound base (suc fuel) a [] done behind e = (let no : ⊥ = cc in elim no [ ])
  alloca_loop_sound base (suc fuel) a (c ∷ ws) done behind e = elim (Bool-cases (v.is_alloca c)) [
    | inl found ↦
        (let same : c ≡ a = ground arith in rw (sym same) (behind c (ground arith), found))
    | inr other ↦
        (let next = push_operands (v.value_operands c) ws done in
          alloca_loop_sound base fuel a next.0 next.1
            (λ w m. elim (Bool-cases (member w ws)) [
              | inl old ↦ behind w (ground arith)
              | inr new ↦
                  Behind.through c w (behind c (ground arith))
                    (ground (arith, push_operands-worklist w (v.value_operands c) ws done))
            ])
            (ground arith))
  ]

  -- What was found is waiting, or is no allocation and its operands were found.
  abbrev IsClosed : (ℕ → Bool) → List ℕ → Type 0
  IsClosed found ws =
      (x : ℕ)
      → found x ≡ true
      → (member x ws ≡ true)
        ⊎ ((v.is_alloca x ≡ false)
            × ((y : ℕ) → member y (v.value_operands x) ≡ true → found y ≡ true))

  abbrev found_from : ℕ → List ℕ → ℕ → Bool
  found_from base done x = (base == x) || member x done

  IsClosed-next :
      (base c : ℕ) (ws done : List ℕ)
      → v.is_alloca c ≡ false
      → IsClosed (found_from base done) (c ∷ ws)
      → IsClosed
          (found_from base (push_operands (v.value_operands c) ws done).1)
          (push_operands (v.value_operands c) ws done).0
  IsClosed-next base c ws done no_alloca closed x m =
      let os = v.value_operands c in
      let on_list = push_operands-worklist x os ws done in
      let grown : (y : ℕ) → member y (push_operands os ws done).1 ≡ (member y os || member y done) =
        λ y. push_operands-done y os ws done in
      elim (Bool-cases (found_from base done x)) [
        | inl old ↦ elim (closed x old) [
          | inl waits ↦ elim (Bool-cases (c == x)) [
            | inl same ↦ inr (
              ground arith,
              λ y edge.
                  (let at_c : member y (v.value_operands c) ≡ true = ground arith in
                    ground (arith, grown y, at_c)),
            )
            | inr other ↦ inl (ground (arith, on_list))
          ]
          | inr (never, all) ↦ inr (never, λ y edge. ground (arith, all y edge, grown y))
        ]
        | inr new ↦ inl (ground (arith, on_list, grown x))
      ]

  alloca_loop-IsClosed :
      (base fuel : ℕ) (ws done : List ℕ)
      → alloca_loop v fuel ws done ≡ some none
      → IsClosed (found_from base done) ws
      → (d : List ℕ) × IsClosed (found_from base d) []
  unfolding alloca_loop
  alloca_loop-IsClosed base zero ws done e closed = (let no : ⊥ = cc in elim no [ ])
  alloca_loop-IsClosed base (suc fuel) [] done e closed = (done, closed)
  alloca_loop-IsClosed base (suc fuel) (c ∷ ws) done e closed =
      let os = v.value_operands c in
      let next = push_operands os ws done in
      let no_alloca : v.is_alloca c ≡ false = ground arith in
      alloca_loop-IsClosed base fuel next.0 next.1 (ground arith)
        (IsClosed-next base c ws done no_alloca closed)

  none-Behind :
      (base : ℕ) (d : List ℕ)
      → IsClosed (found_from base d) []
      → (a : ℕ) → Behind base a
      → (found_from base d a ≡ true) × (v.is_alloca a ≡ false)
  none-Behind base d closed _ Behind.here = elim (closed base (ground arith)) [
    | inl waits ↦ (let no : ⊥ = cc in elim no [ ])
    | inr (never, all) ↦ (ground arith, never)
  ]
  none-Behind base d closed a (Behind.through y _ behind edge) =
      let (found, other) = none-Behind base d closed y behind in
      elim (closed y found) [
        | inl waits ↦ (let no : ⊥ = cc in elim no [ ])
        | inr (never, all) ↦
            (let found_a = all a edge in
              elim (closed a found_a) [
                | inl waits ↦ (let no : ⊥ = cc in elim no [ ])
                | inr (never_a, all_a) ↦ (found_a, never_a)
              ])
      ]

  push_operands-smaller :
      (os ws done : List ℕ)
      → ((y : ℕ) → member y os ≡ true → member y v.values ≡ true)
      → left_of (push_operands os ws done).1 v.values + length (push_operands os ws done).0
        ≤ left_of done v.values + length ws
  unfolding push_operands
  push_operands-smaller [] ws done known = omega arith
  push_operands-smaller (o ∷ os) ws done known = elim (Bool-cases (member o done)) [
    | inl old ↦ ground (arith, push_operands-smaller os ws done (λ y m. known y (ground arith)))
    | inr new ↦ ground (
      arith,
      push_operands-smaller os (o ∷ ws) (o ∷ done) (λ y m. known y (ground arith)),
      left_of-take o done v.values new,
      known o,
    )
  ]

  alloca_loop-ends :
      HasOperands
      → (fuel : ℕ) (ws done : List ℕ) → ((w : ℕ) → member w ws ≡ true → member w v.values ≡ true)
      → left_of done v.values + length ws < fuel
      → (r : Option ℕ) × (alloca_loop v fuel ws done ≡ some r)
  unfolding alloca_loop
  alloca_loop-ends has zero ws done known lt = (let no : ⊥ = omega arith in elim no [ ])
  alloca_loop-ends has (suc fuel) [] done known lt = (none, refl)
  alloca_loop-ends has (suc fuel) (c ∷ ws) done known lt = elim (Bool-cases (v.is_alloca c)) [
    | inl found ↦ (some c, ground arith)
    | inr other ↦
        (let os = v.value_operands c in
          let next = push_operands os ws done in
          let (r, e) =
            alloca_loop-ends has fuel next.0 next.1
              (λ w m.
                ground (arith, push_operands-worklist w os ws done, known w, known c, has c w))
              (omega (
                arith,
                push_operands-smaller os ws done (λ y m. has c y (known c (ground arith)) m),
              )) in
          (r, ground (arith, e)))
  ]

-- getAllocaOfPointerBase ends. It returns an allocation that the pointer depends on through operands,
-- or a null pointer if there is none. The pointer and the operands of the function's values are values
-- of the function.
pub get_alloca_of_pointer_base-finds :
    (v : ValueView) (base : ℕ)
    → HasOperands v
    → member base v.values ≡ true
    → (r : Option ℕ) × (get_alloca_of_pointer_base v base ≡ some r)
      × ((a : ℕ) → r ≡ some a → Behind v base a × (v.is_alloca a ≡ true))
      × (r ≡ none → (a : ℕ) → Behind v base a → v.is_alloca a ≡ false)
unfolding get_alloca_of_pointer_base
get_alloca_of_pointer_base-finds v base has known =
    let fuel : ℕ = suc (suc (length v.values)) in
    let (r, e) =
      alloca_loop-ends v has fuel (base ∷ []) [] (λ w m. ground arith)
        (omega (arith, left_of-start v.values)) in
    (
      r,
      e,
      λ a h.
          alloca_loop_sound v base fuel a (base ∷ []) []
            (λ w m. let same : base ≡ w = ground arith in rw same Behind.here) (e ∙ ap some h),
      λ h a behind.
          (let (d, closed) =
              alloca_loop-IsClosed v base fuel (base ∷ []) [] (e ∙ ap some h)
                (λ x m. inl (ground arith)) in
            (none-Behind v base d closed a behind).1),
    )
