-- ===== src/Cdg/Ferrante.antt =====
-- isControlDependent of lib/CDG.cpp against the definition of control dependence in include/CDG.h,
-- with post-domination over paths to the end of the function.
use elastic_sycl_hls.Prelude.{
  ℕ, ◌≡◌, ◌↔◌, ◌==◌, arith, Bool, true, false, not, ◌&&◌, ◌||◌, [], Bool-cases, inl, inr,
}
use elastic_sycl_hls.Prelude.Members.{member, any-witness, any-of_member}
use elastic_sycl_hls.Cdg.Graph.{Function, successors}
use elastic_sycl_hls.Cdg.{is_control_dependent}

-- A path from a block to a block without successors.
pub data ExitPath (f : Function) : ℕ → Type 0 where
  exit : (x : ℕ) → successors f x ≡ [] → ExitPath f x
  step : (x y : ℕ) → member y (successors f x) ≡ true → ExitPath f y → ExitPath f x

abbrev pub visits : {f : Function} {x : ℕ} → ℕ → ExitPath f x → Bool
visits b (ExitPath.exit x e) = x == b
visits b (ExitPath.step x y m p) = (x == b) || visits b p

abbrev pub PostDominates : Function → ℕ → ℕ → Type 0
PostDominates f b a = (p : ExitPath f a) → visits b p ≡ true

-- What LLVM documents of the post-dominator tree, for a function in which every block can reach
-- an exit.
pub record PostDominatorLaws (f : Function) : Type 0 where
  pub exits : (a : ℕ) → ExitPath f a
  pub dominates_iff : (b a : ℕ) → (f.dominates b a ≡ true) ↔ PostDominates f b a
  pub properly : (b a : ℕ) → f.properly_dominates b a ≡ (f.dominates b a && not (b == a))

-- A path from a block to `b` on which every other block is post-dominated by `b`.
pub data DependencePath (f : Function) (b : ℕ) : ℕ → Type 0 where
  direct : (x : ℕ) → member b (successors f x) ≡ true → DependencePath f b x
  via :
      (x y : ℕ)
      → member y (successors f x) ≡ true
      → PostDominates f b y
      → DependencePath f b y
      → DependencePath f b x

eq_of_test : (a b : ℕ) → (a == b) ≡ true → b ≡ a
eq_of_test a b e = ground arith

module _ (f : Function) where
  visits_start : (b : ℕ) → PostDominates f b b
  visits_start b (ExitPath.exit x e) = ground arith
  visits_start b (ExitPath.step x y m p) = ground arith

  -- What post-dominates a block, and is not that block, post-dominates its successors.
  PostDominates-next :
      (b x y : ℕ)
      → member y (successors f x) ≡ true
      → (x == b) ≡ false
      → PostDominates f b x
      → PostDominates f b y
  PostDominates-next b x y m ne dom p = ground (arith, dom (ExitPath.step x y m p))

  path_from :
      (b x s : ℕ)
      → member s (successors f x) ≡ true
      → PostDominates f b s
      → ExitPath f s
      → DependencePath f b x
  path_from b x s m dom (ExitPath.exit _ e) =
      DependencePath.direct x (rw (eq_of_test s b (dom (ExitPath.exit s e))) m)
  path_from b x s m dom (ExitPath.step _ y next p) = elim (Bool-cases (s == b)) [
    | inl e ↦ DependencePath.direct x (rw (eq_of_test s b e) m)
    | inr e ↦
        DependencePath.via x s m dom (path_from b s y next (PostDominates-next b s y next e dom) p)
  ]

  successor_of_path :
      (b x : ℕ)
      → DependencePath f b x
      → (s : ℕ) × (member s (successors f x) ≡ true) × PostDominates f b s
  successor_of_path b x (DependencePath.direct _ m) = (b, m, visits_start b)
  successor_of_path b x (DependencePath.via _ y m dom p) = (y, m, dom)

  module _ (laws : PostDominatorLaws f) where
    -- If every block reaches an exit: B is control dependent on A exactly if there is a path from A
    -- to B on which every block other than A and B is post-dominated by B, and B does not
    -- post-dominate A, or is A.
    pub is_control_dependent_iff :
        (b a : ℕ)
        → (is_control_dependent f b a ≡ true)
          ↔ (DependencePath f b a × (PostDominates f b a → b ≡ a))
    unfolding is_control_dependent
    is_control_dependent_iff b a = (
      λ e.
          (let (s, m, d) = any-witness (λ s. f.dominates b s) (successors f a) (ground arith) in
            (
              path_from b a s m ((laws.dominates_iff b s).0 d) (laws.exits s),
              λ dom. ground (arith, laws.properly b a, (laws.dominates_iff b a).1 dom, e),
            )),
      λ (p, same).
          (let (s, m, dom) = successor_of_path b a p in
            let found =
              any-of_member (λ s. f.dominates b s) s (successors f a) m
                ((laws.dominates_iff b s).1 dom) in
            elim (Bool-cases (f.dominates b a)) [
              | inl e ↦
                  ground (arith, found, laws.properly b a, same ((laws.dominates_iff b a).0 e))
              | inr e ↦ ground (arith, found, laws.properly b a, e)
            ]),
    )
