-- ===== src/Cddd/LoopsDecoupled.antt =====
-- Which loops collectLoopsToDecouple of lib/CDDDAnalysis.cpp decouples.
use elastic_sycl_hls.Prelude.{
  ℕ, ◌+◌, ◌≡◌, ◌⊎◌, inl, inr, refl, sym, ap, ◌∙◌, arith, ◌==◌, Bool, true, false, not, ◌&&◌, ◌||◌,
  if◌then◌else◌, Option, none, some, List, [], ◌∷◌, Bool-cases,
}
use elastic_sycl_hls.Prelude.Members.{any, any-of_member, member, distinct, option_cases}
use elastic_sycl_hls.Cddd.LoopsChosen.{keys, distinct-AllFound, IsDecoupledLoop, choose_loops_sound}
use elastic_sycl_hls.Cddd.LoopMemory.{
  member-keys-put, distinct-keys-put, stores_to, touches, visit_memories-IsVisited,
}
use elastic_sycl_hls.Cddd.Maps.{find, find-put, find_set, find_set-some}
use elastic_sycl_hls.Cddd.View.{is_loop_unrolled}
use elastic_sycl_hls.Cddd.Loops.{
  LoopNest, LoopFacts, LoopChoice, start_at, count_at, unique_instructions, visit_memories,
  start_loop, collect_facts, has_register_dep, is_control_dep, is_only_one, choose_loops,
  collect_loops_to_decouple,
}

-- The count that a map has, or 0.
abbrev pub counted : Option ℕ → ℕ
counted none = 0
counted (some k) = k

counted-count_at :
    (d k : ℕ) (es : List (ℕ × ℕ))
    → counted (find d (count_at k es)) ≡ (if k == d then 1 else 0) + counted (find d es)
counted-count_at d k es = elim (option_cases (find k es)) [
  | inl new ↦ rw (count_at, new) (ground (arith, find-put k d 1 es, new))
  | inr (c, old) ↦ rw (count_at, old) (ground (arith, find-put k d (c + 1) es, old))
]

find_set-start_at : (j k : ℕ) (es : List (ℕ × List ℕ)) → find_set j (start_at k es) ≡ find_set j es
find_set-start_at j k es = elim (option_cases (find k es)) [
  | inl new ↦ rw (start_at, new) (ground (arith, find-put k j [] es, new))
  | inr (c, old) ↦ rw (start_at, old) refl
]

member-keys-found :
    (k : ℕ) (x : List ℕ) (es : List (ℕ × List ℕ)) → find k es ≡ some x → member k (keys es) ≡ true
member-keys-found k x [] e = (let no : ⊥ = cc in elim no [ ])
member-keys-found k x ((o, os) ∷ es) e = ground (arith, e, member-keys-found k x es)

keys-start_at :
    (k : ℕ) (es : List (ℕ × List ℕ))
    → ((j : ℕ) → member j (keys (start_at k es)) ≡ ((k == j) || member j (keys es)))
      × (distinct (keys es) ≡ true → distinct (keys (start_at k es)) ≡ true)
keys-start_at k es = elim (option_cases (find k es)) [
  | inl new ↦ rw (start_at, new) (λ j. member-keys-put j k [] es, distinct-keys-put k [] es)
  | inr (c, old) ↦ rw (start_at, old) (λ j. ground (arith, member-keys-found k c es old), λ d. d)
]

keys-found :
    (k : ℕ) (es : List (ℕ × List ℕ))
    → member k (keys es) ≡ true
    → (x : List ℕ) × (find k es ≡ some x)
keys-found k [] m = (let no : ⊥ = cc in elim no [ ])
keys-found k ((o, os) ∷ es) m = elim (Bool-cases (o == k)) [
  | inl same ↦ (os, ground (arith, same))
  | inr other ↦
      (let (x, there) = keys-found k es (ground (arith, m, other)) in
        (x, ground (arith, other, there)))
]

module _ (n : LoopNest) where
  abbrev pub stored_in : List ℕ → ℕ → Bool
  stored_in ls m = any (λ l. any (stores_to n m) (unique_instructions n l)) ls

  abbrev pub used_in : ℕ → ℕ → Bool
  used_in l m = any (touches n m) (unique_instructions n l)

  -- How many of the loops have a depth.
  abbrev pub loops_at : ℕ → List ℕ → ℕ
  loops_at d [] = 0
  loops_at d (l ∷ ls) = (if n.depth l == d then 1 else 0) + loops_at d ls

  record IsCollected (ls : List ℕ) (f g : LoopFacts) : Type 0 where
    pub uses :
        (k m : ℕ)
        → member m (find_set k g.memory_uses)
          ≡ ((member k ls && used_in k m) || member m (find_set k f.memory_uses))
    pub stores : (m : ℕ) → member m g.stored ≡ (stored_in ls m || member m f.stored)
    pub levels :
        (d : ℕ) → counted (find d g.num_at_level) ≡ loops_at d ls + counted (find d f.num_at_level)
    pub once : distinct (keys f.memory_uses) ≡ true → distinct (keys g.memory_uses) ≡ true
    pub keyed :
        (k : ℕ)
        → (member k ls || member k (keys f.memory_uses)) ≡ true
        → member k (keys g.memory_uses) ≡ true

  collect_facts-IsCollected :
      (ls : List ℕ) (f g : LoopFacts) → collect_facts n ls f ≡ some g → IsCollected ls f g
  unfolding collect_facts
  collect_facts-IsCollected [] f g e =
      let same : f ≡ g = cc in
      rw (sym same) (record {
        uses = λ k m. refl;
        stores = λ m. refl;
        levels = λ d. omega arith;
        once = λ d. d;
        keyed = λ k m. m;
      })
  collect_facts-IsCollected (l ∷ ls) f g e =
      elim (option_cases (visit_memories n l (unique_instructions n l) (start_loop n l f))) [
        | inl null ↦ (let no : ⊥ = (let h = rw (collect_facts, null) at (e) in cc) in elim no [ ])
        | inr (next, now) ↦
            (let first =
                visit_memories-IsVisited n l (unique_instructions n l) (start_loop n l f) next
                  now in
              let rest = collect_facts-IsCollected ls next g (rw (collect_facts, now) at (e)) in
              record {
                uses = λ k m.
                    rest.uses k m
                    ∙ ground (arith, first.uses k m, find_set-start_at k l f.memory_uses);
                stores = λ m. rest.stores m ∙ ground (arith, first.stores m);
                levels = λ d. ground (
                  arith,
                  rest.levels d,
                  counted-count_at d (n.depth l) f.num_at_level,
                  ap (λ es. counted (find d es)) first.levels,
                );
                once = λ d. rest.once (first.once ((keys-start_at l f.memory_uses).1 d));
                keyed = λ k m.
                    rest.keyed k
                      (ground (arith, m, first.keyed k, (keys-start_at l f.memory_uses).0 k));
              })
      ]

  only_one-counted : (o : Option ℕ) → is_only_one n o ≡ (counted o == 1)
  only_one-counted none = refl
  only_one-counted (some k) = refl

  -- A decoupled loop, among the loops of a function: it is not unrolled nor the loop that
  -- `getTopLevelLoops().front()` gives, and it is control dependent on a block that is no loop
  -- header, or not the only loop of its depth. Another loop uses none of its arrays that any loop
  -- stores to; if it is not control dependent, no value of its header is used in another loop.
  pub record IsSafeToDecouple (ls : List ℕ) (l : ℕ) : Type 0 where
    pub not_unrolled : is_loop_unrolled n.view l ≡ some false
    pub not_front : (n.front_loop == l) ≡ false
    pub sibling_or_dep : ((loops_at (n.depth l) ls == 1) && not (is_control_dep n l false)) ≡ false
    pub no_alias :
        (k m : ℕ)
        → member k ls ≡ true
        → (k == l) ≡ false
        → used_in l m ≡ true
        → used_in k m ≡ true
        → stored_in ls m ≡ false
    pub independent :
        (is_control_dep n l false ≡ true)
        ⊎ ((k : ℕ) → member k ls ≡ true → (k == l) ≡ false → has_register_dep n l k ≡ false)

  IsDecoupledLoop-IsSafeToDecouple :
      (ls : List ℕ) (f : LoopFacts) (l : ℕ)
      → IsCollected ls (record { memory_uses = []; num_at_level = []; stored = [] }) f
      → member l ls ≡ true
      → IsDecoupledLoop n f l
      → IsSafeToDecouple ls l
  IsDecoupledLoop-IsSafeToDecouple ls f l c listed d = record {
    not_unrolled = d.not_unrolled;
    not_front = d.not_front;
    sibling_or_dep = ground (
      arith,
      d.sibling_or_dep,
      c.levels (n.depth l),
      only_one-counted (find (n.depth l) f.num_at_level),
    );
    no_alias = λ k m there other mine its.
        (let (others, found) = keys-found k f.memory_uses (c.keyed k (ground (arith, there))) in
          let no_shared = d.no_alias k others found other in
          let in_mine : member m d.memories ≡ true =
            (let h = c.uses l m in
              let h' = rw (find_set-some l d.memories f.memory_uses d.at_loop) at (h) in
              ground (arith, h', listed, mine)) in
          let in_its : member m others ≡ true =
            (let h = c.uses k m in
              let h' = rw (find_set-some k others f.memory_uses found) at (h) in
              ground (arith, h', there, its)) in
          elim (Bool-cases (stored_in ls m)) [
            | inl stored ↦
                (let hit =
                    any-of_member (λ a. member a f.stored && member a others) m d.memories in_mine
                      (ground (arith, in_its, c.stores m, stored)) in
                  let no : ⊥ = cc in elim no [ ])
            | inr clear ↦ clear
          ]);
    independent = elim d.independent [
      | inl dep ↦ inl dep
      | inr no_dep ↦ inr (λ k there other.
          (let (others, found) = keys-found k f.memory_uses (c.keyed k (ground (arith, there))) in
            no_dep k others found other))
    ];
  }

  -- Each loop of the given ones that collectLoopsToDecouple decouples, where it ends, is safe to
  -- decouple.
  pub collect_loops_to_decouple-IsSafeToDecouple :
      (ls r : List ℕ) (l : ℕ)
      → collect_loops_to_decouple n ls ≡ some r
      → member l r ≡ true
      → member l ls ≡ true
      → IsSafeToDecouple ls l
  unfolding collect_loops_to_decouple
  collect_loops_to_decouple-IsSafeToDecouple ls r l e m listed =
      let start : LoopFacts = record { memory_uses = []; num_at_level = []; stored = [] } in
      let none_yet : LoopChoice = record { excluded = []; loops_to_decouple = [] } in
      elim (option_cases (collect_facts n ls start)) [
        | inl null ↦
            (let no : ⊥ = (let h = rw (collect_loops_to_decouple, null) at (e) in cc) in
              elim no [ ])
        | inr (f, facts) ↦
            (let h = rw (collect_loops_to_decouple, facts) at (e) in
              let c = collect_facts-IsCollected ls start f facts in
              elim (option_cases (choose_loops n f f.memory_uses none_yet)) [
                | inl null ↦ (let no : ⊥ = (let h' = rw null at (h) in cc) in elim no [ ])
                | inr (chosen, choice) ↦
                    (let same : chosen.loops_to_decouple ≡ r = (let h' = rw choice at (h) in cc) in
                      IsDecoupledLoop-IsSafeToDecouple ls f l c listed (
                        only_new (
                          choose_loops_sound n f f.memory_uses none_yet chosen l
                            (distinct-AllFound f.memory_uses (c.once refl)) choice (rw same m))))
              ])
      ]
    where
      only_new :
          {f : LoopFacts} {l : ℕ}
          → (member l [] ≡ true) ⊎ IsDecoupledLoop n f l
          → IsDecoupledLoop n f l
      only_new (inl old) = (let no : ⊥ = cc in elim no [ ])
      only_new (inr good) = good
