-- ===== src/Cddd/LoopMemory.antt =====
-- What the first part of collectLoopsToDecouple of lib/CDDDAnalysis.cpp collects of the loops.
use elastic_sycl_hls.Prelude.{
  ℕ, ◌≡◌, inl, inr, refl, sym, ◌∙◌, arith, ◌==◌, Bool, true, ◌&&◌, ◌||◌, some, List, [], ◌∷◌,
  Bool-cases,
}
use elastic_sycl_hls.Prelude.Members.{any, member, distinct, option_cases}
use elastic_sycl_hls.Cddd.Hoist.{is_block}
use elastic_sycl_hls.Cddd.LoopsChosen.{keys}
use elastic_sycl_hls.Cddd.Maps.{insert, member-insert, find_set, insert_at, member-insert_at, put}
use elastic_sycl_hls.Cddd.Loops.{LoopNest, LoopFacts, base_of, visit_memory, visit_memories}

pub member-keys-put :
    (j k : ℕ) (a : List ℕ) (es : List (ℕ × List ℕ))
    → member j (keys (put k a es)) ≡ ((k == j) || member j (keys es))
member-keys-put j k a [] = refl
member-keys-put j k a ((o, os) ∷ es) = elim (Bool-cases (o == k)) [
  | inl same ↦ ground (arith, same)
  | inr other ↦ ground (arith, other, member-keys-put j k a es)
]

pub distinct-keys-put :
    (k : ℕ) (a : List ℕ) (es : List (ℕ × List ℕ))
    → distinct (keys es) ≡ true
    → distinct (keys (put k a es)) ≡ true
distinct-keys-put k a [] d = refl
distinct-keys-put k a ((o, os) ∷ es) d = elim (Bool-cases (o == k)) [
  | inl same ↦ ground (arith, same)
  | inr other ↦
      ground (arith, other, member-keys-put o k a es, distinct-keys-put k a es (ground (arith, d)))
]

module _ (n : LoopNest) where
  -- An instruction stores to an array, or loads or stores.
  abbrev pub stores_to : ℕ → ℕ → Bool
  stores_to m i = n.is_store i && is_block (base_of n i) m

  abbrev pub touches : ℕ → ℕ → Bool
  touches m i = (n.is_store i || n.is_load i) && is_block (base_of n i) m

  -- What is collected of the instructions of one loop.
  pub record IsVisited (l : ℕ) (is : List ℕ) (f g : LoopFacts) : Type 0 where
    pub uses :
        (k m : ℕ)
        → member m (find_set k g.memory_uses)
          ≡ (((l == k) && any (touches m) is) || member m (find_set k f.memory_uses))
    pub stores : (m : ℕ) → member m g.stored ≡ (any (stores_to m) is || member m f.stored)
    pub levels : g.num_at_level ≡ f.num_at_level
    pub once : distinct (keys f.memory_uses) ≡ true → distinct (keys g.memory_uses) ≡ true
    pub keyed :
        (k : ℕ) → member k (keys f.memory_uses) ≡ true → member k (keys g.memory_uses) ≡ true

  used-IsVisited :
      (l i base : ℕ) (st : List ℕ) (f : LoopFacts)
      → (n.is_store i || n.is_load i) ≡ true
      → base_of n i ≡ some base
      → ((m : ℕ) → member m st ≡ (any (stores_to m) (i ∷ []) || member m f.stored))
      → IsVisited l
          (i ∷ [])
          f
          (record f { memory_uses = insert_at l base f.memory_uses; stored = st })
  used-IsVisited l i base st f used at_base stored = record {
    uses = λ k m. member-insert_at l k m base f.memory_uses ∙ (rw at_base (ground (arith, used)));
    stores = stored;
    levels = refl;
    once = λ d. distinct-keys-put l (insert base (find_set l f.memory_uses)) f.memory_uses d;
    keyed = λ k m.
        ground
          (arith, member-keys-put k l (insert base (find_set l f.memory_uses)) f.memory_uses, m);
  }

  visit_memory-IsVisited :
      (l i : ℕ) (f g : LoopFacts) → visit_memory n l i f ≡ some g → IsVisited l (i ∷ []) f g
  unfolding visit_memory
  visit_memory-IsVisited l i f g e = elim (Bool-cases (n.is_store i)) [
    | inl store ↦ elim (option_cases (base_of n i)) [
      | inl null ↦
          (let no : ⊥ = (let h = rw (visit_memory, store, null) at (e) in cc) in elim no [ ])
      | inr (base, at_base) ↦
          (let same : record f {
            memory_uses = insert_at l base f.memory_uses;
            stored = insert base f.stored;
          }
                ≡ g =
              (let h = rw (visit_memory, store, at_base) at (e) in cc) in
            rw (sym same) (
              used-IsVisited l i base (insert base f.stored) f (ground (arith, store)) at_base
                (λ m. member-insert m base f.stored ∙ rw (store, at_base) (ground arith))))
    ]
    | inr no_store ↦ elim (Bool-cases (n.is_load i)) [
      | inl load ↦ elim (option_cases (base_of n i)) [
        | inl null ↦
            (let no : ⊥ = (let h = rw (visit_memory, no_store, load, null) at (e) in cc) in
              elim no [ ])
        | inr (base, at_base) ↦
            (let same : record f { memory_uses = insert_at l base f.memory_uses } ≡ g =
                (let h = rw (visit_memory, no_store, load, at_base) at (e) in cc) in
              rw (sym same) (
                used-IsVisited l i base f.stored f (ground (arith, load)) at_base
                  (λ m. ground (arith, no_store))))
      ]
      | inr no_load ↦
          (let same : f ≡ g = (let h = rw (visit_memory, no_store, no_load) at (e) in cc) in
            rw (sym same) (record {
              uses = λ k m. ground (arith, no_store, no_load);
              stores = λ m. ground (arith, no_store);
              levels = refl;
              once = λ d. d;
              keyed = λ k m. m;
            }))
    ]
  ]

  pub visit_memories-IsVisited :
      (l : ℕ) (is : List ℕ) (f g : LoopFacts)
      → visit_memories n l is f ≡ some g
      → IsVisited l is f g
  unfolding visit_memories
  visit_memories-IsVisited l [] f g e =
      let same : f ≡ g = cc in
      rw (sym same) (record {
        uses = λ k m. ground arith;
        stores = λ m. refl;
        levels = refl;
        once = λ d. d;
        keyed = λ k m. m;
      })
  visit_memories-IsVisited l (i ∷ is) f g e = elim (option_cases (visit_memory n l i f)) [
    | inl null ↦ (let no : ⊥ = (let h = rw (visit_memories, null) at (e) in cc) in elim no [ ])
    | inr (next, now) ↦
        (let first = visit_memory-IsVisited l i f next now in
          let rest = visit_memories-IsVisited l is next g (rw (visit_memories, now) at (e)) in
          record {
            uses = λ k m. rest.uses k m ∙ ground (arith, first.uses k m);
            stores = λ m. rest.stores m ∙ ground (arith, first.stores m);
            levels = rest.levels ∙ first.levels;
            once = λ d. rest.once (first.once d);
            keyed = λ k m. rest.keyed k (first.keyed k m);
          })
  ]
