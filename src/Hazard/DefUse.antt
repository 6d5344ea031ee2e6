-- ===== src/Hazard/DefUse.antt =====
-- Def-use paths, as isInDefUsePath of include/CommonLLVM.h searches them.
use elastic_sycl_hls.Prelude.{
  ℕ, zero, suc, ◌+◌, ◌≤◌, ◌≡◌, ◌⊎◌, ◌↔◌, inl, inr, refl, sym, ◌∙◌, arith, ◌==◌, Bool, true, false,
  not, ◌&&◌, ◌||◌, if◌then◌else◌, some, List, [], ◌∷◌, ◌++◌, length, map, Bool-cases,
}
use elastic_sycl_hls.Prelude.Members.{member}
use elastic_sycl_hls.Hazard.{Program, push_unless_done, incoming_terminators, def_use_loop}

pub member-push_unless_done :
    (y : ℕ) (done us ws : List ℕ)
    → member y (push_unless_done done us ws) ≡ ((member y us && not (member y done)) || member y ws)
unfolding push_unless_done
member-push_unless_done y done [] ws = refl
member-push_unless_done y done (u ∷ us) ws =
    ground (arith, member-push_unless_done y done us (if member u done then ws else u ∷ ws))

pub length-push_unless_done :
    (done us ws : List ℕ) → length (push_unless_done done us ws) ≤ length us + length ws
unfolding push_unless_done
length-push_unless_done done [] ws = ground arith
length-push_unless_done done (u ∷ us) ws =
    ground (arith, length-push_unless_done done us (if member u done then ws else u ∷ ws))

pub push_unless_done-all :
    (done us ws : List ℕ)
    → ((y : ℕ) → member y us ≡ true → member y done ≡ true)
    → push_unless_done done us ws ≡ ws
unfolding push_unless_done
push_unless_done-all done [] ws all = refl
push_unless_done-all done (u ∷ us) ws all =
    ground (arith, all u, push_unless_done-all done us ws (λ y m. all y (ground arith)))

pub push_unless_done-append :
    (done us vs ws : List ℕ)
    → push_unless_done done vs (push_unless_done done us ws) ≡ push_unless_done done (us ++ vs) ws
unfolding push_unless_done
push_unless_done-append done [] vs ws = refl
push_unless_done-append done (u ∷ us) vs ws =
    push_unless_done-append done us vs (if member u done then ws else u ∷ ws)

module _ (p : Program) where
  -- All that isInDefUsePath goes on to from an instruction.
  abbrev pub sources_of : ℕ → List ℕ
  sources_of i = p.operands i ++ incoming_terminators p i

  -- A def-use path, on which a phi node uses the terminators of its incoming blocks.
  pub data DefUse (src : ℕ) : ℕ → Type 0 where
    used : (x : ℕ) → member src (p.operands x) ≡ true → DefUse src x
    through_operand : (x y : ℕ) → member y (p.operands x) ≡ true → DefUse src y → DefUse src x
    through_phi :
        (x b : ℕ)
        → p.is_phi x ≡ true
        → member b (p.incoming_blocks x) ≡ true
        → DefUse src (p.terminator b)
        → DefUse src x

  -- The operands and the terminators that a function's instructions use stand in the function.
  abbrev pub IsComplete : Type 0
  IsComplete =
      (x : ℕ)
      → member x p.instructions ≡ true
      → ((y : ℕ) → member y (p.operands x) ≡ true → member y p.instructions ≡ true)
        × ((b : ℕ)
            → p.is_phi x ≡ true
            → member b (p.incoming_blocks x) ≡ true
            → member (p.terminator b) p.instructions ≡ true)

  member-append : (y : ℕ) (us vs : List ℕ) → member y (us ++ vs) ≡ (member y us || member y vs)
  member-append y [] vs = refl
  member-append y (u ∷ us) vs = ground (arith, member-append y us vs)

  member-terminators :
      (y : ℕ) (bs : List ℕ)
      → member y (map p.terminator bs) ≡ true
      → (b : ℕ) × (member b bs ≡ true) × (p.terminator b ≡ y)
  member-terminators y [] e = (let no : ⊥ = cc in elim no [ ])
  member-terminators y (b ∷ bs) e = elim (Bool-cases (p.terminator b == y)) [
    | inl same ↦ (b, ground arith, ground arith)
    | inr other ↦ (let (c, m, at) = member-terminators y bs (ground arith) in (c, ground arith, at))
  ]

  terminators-member :
      (b : ℕ) (bs : List ℕ)
      → member b bs ≡ true
      → member (p.terminator b) (map p.terminator bs) ≡ true
  terminators-member b [] e = (let no : ⊥ = cc in elim no [ ])
  terminators-member b (c ∷ bs) e = elim (Bool-cases (c == b)) [
    | inl same ↦ (let at : c ≡ b = ground arith in rw at (ground arith))
    | inr other ↦ ground (arith, terminators-member b bs (ground arith))
  ]

  -- A source of an instruction is an operand, or the terminator of an incoming block of a phi node.
  sources_of-cases :
      (x y : ℕ)
      → member y (sources_of x) ≡ true
      → (member y (p.operands x) ≡ true)
        ⊎ ((b : ℕ) × (p.is_phi x ≡ true)
            × (member b (p.incoming_blocks x) ≡ true)
            × (p.terminator b ≡ y))
  sources_of-cases x y e = elim (Bool-cases (member y (p.operands x))) [
    | inl direct ↦ inl direct
    | inr unused ↦ elim (Bool-cases (p.is_phi x)) [
      | inl phi ↦
          (let all : member y (map p.terminator (p.incoming_blocks x)) ≡ true =
              ground (arith, member-append y (p.operands x) (incoming_terminators p x), phi) in
            let (b, m, at) = member-terminators y (p.incoming_blocks x) all in inr (b, phi, m, at))
      | inr other ↦
          (let no : ⊥ =
              ground (arith, member-append y (p.operands x) (incoming_terminators p x), other) in
            elim no [ ])
    ]
  ]

  DefUse-source : (src x y : ℕ) → member y (sources_of x) ≡ true → DefUse src y → DefUse src x
  DefUse-source src x y e path = elim (sources_of-cases x y e) [
    | inl direct ↦ DefUse.through_operand x y direct path
    | inr (b, phi, m, at) ↦ DefUse.through_phi x b phi m (rw at path)
  ]

  operand-source : (x y : ℕ) → member y (p.operands x) ≡ true → member y (sources_of x) ≡ true
  operand-source x y e = ground (arith, member-append y (p.operands x) (incoming_terminators p x))

  phi-source :
      (x b : ℕ)
      → p.is_phi x ≡ true
      → member b (p.incoming_blocks x) ≡ true
      → member (p.terminator b) (sources_of x) ≡ true
  phi-source x b phi m = ground (
    arith,
    member-append (p.terminator b) (p.operands x) (incoming_terminators p x),
    terminators-member b (p.incoming_blocks x) m,
  )

  pub IsComplete-source :
      IsComplete
      → (x y : ℕ) → member x p.instructions ≡ true
      → member y (sources_of x) ≡ true
      → member y p.instructions ≡ true
  IsComplete-source complete x y known e = elim (sources_of-cases x y e) [
    | inl direct ↦ (complete x known).0 y direct
    | inr (b, phi, m, at) ↦ rw (sym at) ((complete x known).1 b phi m)
  ]

module _ (p : Program) (src : ℕ) where
  abbrev pub next_worklist : ℕ → List ℕ → List ℕ → List ℕ
  next_worklist c done ws = push_unless_done (c ∷ done) (sources_of p c) ws

  pub def_use_loop-next :
      (fuel c : ℕ) (done ws : List ℕ)
      → member src (p.operands c) ≡ false
      → def_use_loop p (suc fuel) src done (c ∷ ws)
        ≡ def_use_loop p fuel src (c ∷ done) (next_worklist c done ws)
  unfolding def_use_loop
  def_use_loop-next fuel c done ws indirect =
      rw (indirect, push_unless_done-append (c ∷ done) (p.operands c) (incoming_terminators p c) ws)
        refl

  def_use_loop_sound :
      (fuel : ℕ) (done ws : List ℕ)
      → def_use_loop p fuel src done ws ≡ some true
      → (w : ℕ) × (member w ws ≡ true) × DefUse p src w
  unfolding def_use_loop
  def_use_loop_sound zero done ws e = ground arith
  def_use_loop_sound (suc fuel) done [] e = ground arith
  def_use_loop_sound (suc fuel) done (c ∷ ws) e = elim (Bool-cases (member src (p.operands c))) [
    | inl direct ↦ (c, ground arith, DefUse.used c direct)
    | inr indirect ↦
        (let (w, m, path) =
            def_use_loop_sound fuel (c ∷ done) (next_worklist c done ws)
              (sym (def_use_loop-next fuel c done ws indirect) ∙ e) in
          let split = member-push_unless_done w (c ∷ done) (sources_of p c) ws in
          elim (Bool-cases (member w ws)) [
            | inl later ↦ (w, ground arith, path)
            | inr next ↦ (c, ground arith, DefUse-source p src c w (ground (arith, split)) path)
          ])
  ]

  -- No finished instruction uses `src`, and its sources are finished or waiting.
  abbrev IsClosed : List ℕ → List ℕ → Type 0
  IsClosed done ws =
      (x : ℕ)
      → member x done ≡ true
      → (member src (p.operands x) ≡ false)
        × ((y : ℕ) → member y (sources_of p x) ≡ true → (member y done || member y ws) ≡ true)

  IsClosed-next :
      (c : ℕ) (done ws : List ℕ)
      → member src (p.operands c) ≡ false
      → IsClosed done (c ∷ ws)
      → IsClosed (c ∷ done) (next_worklist c done ws)
  IsClosed-next c done ws indirect closed x m = elim (Bool-cases (c == x)) [
    | inl same ↦ (
      ground arith,
      λ y edge.
          (let at_c : member y (sources_of p c) ≡ true = ground arith in
            ground (arith, at_c, member-push_unless_done y (c ∷ done) (sources_of p c) ws)),
    )
    | inr other ↦
        (let (a, next) = closed x (ground arith) in
          (
            a,
            λ y edge.
                ground
                  (arith, next y edge, member-push_unless_done y (c ∷ done) (sources_of p c) ws),
          ))
  ]

  def_use_loop-IsClosed :
      (fuel : ℕ) (done ws : List ℕ)
      → def_use_loop p fuel src done ws ≡ some false
      → IsClosed done ws
      → (v : List ℕ) × IsClosed v []
        × ((x : ℕ) → (member x done || member x ws) ≡ true → member x v ≡ true)
  unfolding def_use_loop
  def_use_loop-IsClosed zero done ws e closed = (let no : ⊥ = cc in elim no [ ])
  def_use_loop-IsClosed (suc fuel) done [] e closed = (done, closed, λ x m. ground arith)
  def_use_loop-IsClosed (suc fuel) done (c ∷ ws) e closed =
      elim (Bool-cases (member src (p.operands c))) [
        | inl direct ↦ (let no : ⊥ = ground arith in elim no [ ])
        | inr indirect ↦
            (let (v, cl, kept) =
                def_use_loop-IsClosed fuel (c ∷ done) (next_worklist c done ws)
                  (sym (def_use_loop-next fuel c done ws indirect) ∙ e)
                  (IsClosed-next c done ws indirect closed) in
              (
                v,
                cl,
                λ x m.
                    kept x
                      (ground (arith, member-push_unless_done x (c ∷ done) (sources_of p c) ws)),
              ))
      ]

  no_path_from : (v : List ℕ) → IsClosed v [] → (x : ℕ) → member x v ≡ true → DefUse p src x → ⊥
  no_path_from v closed x m (DefUse.used _ direct) = ground (arith, (closed x m).0)
  no_path_from v closed x m (DefUse.through_operand _ y edge path) =
      no_path_from v closed y (ground (arith, (closed x m).1 y (operand-source p x y edge))) path
  no_path_from v closed x m (DefUse.through_phi _ b phi edge path) =
      no_path_from v closed (p.terminator b)
        (ground (arith, (closed x m).1 (p.terminator b) (phi-source p x b phi edge))) path

  pub def_use_loop_iff :
      (fuel dst : ℕ) (b : Bool)
      → def_use_loop p fuel src [] (dst ∷ []) ≡ some b
      → (b ≡ true) ↔ DefUse p src dst
  def_use_loop_iff fuel dst true e = (
    λ h.
        (let (w, m, path) = def_use_loop_sound fuel [] (dst ∷ []) e in
          let same : dst ≡ w = ground arith in rw same path),
    λ path. refl,
  )
  def_use_loop_iff fuel dst false e = (
    λ h. (let no : ⊥ = cc in elim no [ ]),
    λ path.
        (let (v, closed, kept) =
            def_use_loop-IsClosed fuel [] (dst ∷ []) e (λ x m. (let no : ⊥ = cc in elim no [ ])) in
          elim (no_path_from v closed dst (kept dst (ground arith)) path) [ ]),
  )
