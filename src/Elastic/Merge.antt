-- ===== src/Elastic/Merge.antt =====
-- mergePoisonBlocks of lib/ElasticTransform.cpp, on the edges of the control flow graph. Poison blocks
-- are given by their number, with the functions of the pipe calls in them.
use elastic_sycl_hls.Prelude.{
  ℕ, ◌≡◌, refl, sym, ap, ◌∙◌, arith, ◌==◌, Bool, true, false, not, ◌&&◌, if◌then◌else◌, List, [],
  ◌∷◌, map, Bool-cases, inl, inr,
}
use elastic_sycl_hls.Prelude.Members.{member}

abbrev pub same_calls : List ℕ → List ℕ → Bool
same_calls [] [] = true
same_calls [] (d ∷ ds) = false
same_calls (c ∷ cs) [] = false
same_calls (c ∷ cs) (d ∷ ds) = (c == d) && same_calls cs ds

abbrev pub is_empty : List ℕ → Bool
is_empty [] = true
is_empty (c ∷ cs) = false

unfoldable pub are_equivalent : List ℕ → List ℕ → Bool
are_equivalent v w = same_calls v w && not (is_empty v)

-- `replaceSuccessorWith(BB2, BB1)`, for one successor. No phi node stands in a poison block.
unfoldable pub merge_blocks : ℕ → ℕ → ℕ → ℕ
merge_blocks b1 b2 successor = if successor == b2 then b1 else successor

module _ (calls : ℕ → List ℕ) where
  -- The inner loop, for one block.
  unfoldable pub merge_into : ℕ → List ℕ → ℕ → ℕ
  merge_into p [] successor = successor
  merge_into p (q ∷ qs) successor = merge_into p qs (
      if not (p == q) && are_equivalent (calls p) (calls q)
      then merge_blocks p q successor
      else successor)

  -- The outer loop, over the blocks that are left, among all.
  unfoldable pub merge_all : List ℕ → List ℕ → ℕ → ℕ
  merge_all [] all successor = successor
  merge_all (p ∷ ps) all successor = merge_all ps all (merge_into p all successor)

  -- What mergePoisonBlocks makes of the successors of a block.
  unfoldable pub merge_poison_blocks : List ℕ → List ℕ → List ℕ
  merge_poison_blocks ps successors = map (merge_all ps ps) successors

  same_calls-eq : (cs ds : List ℕ) → same_calls cs ds ≡ true → cs ≡ ds
  same_calls-eq [] [] e = refl
  same_calls-eq [] (d ∷ ds) e = (let no : ⊥ = cc in elim no [ ])
  same_calls-eq (c ∷ cs) [] e = (let no : ⊥ = cc in elim no [ ])
  same_calls-eq (c ∷ cs) (d ∷ ds) e = ground (arith, same_calls-eq cs ds)

  same_calls_self : (cs : List ℕ) → same_calls cs cs ≡ true
  same_calls_self [] = refl
  same_calls_self (c ∷ cs) = ground (arith, same_calls_self cs)

  merge_into-lem :
      (p : ℕ) (qs : List ℕ) (s : ℕ)
      → merge_into p qs s
        ≡ (if member s qs && not (p == s) && are_equivalent (calls p) (calls s) then p else s)
  unfolding merge_into merge_blocks
  merge_into-lem p [] s = refl
  merge_into-lem p (q ∷ qs) s = elim (Bool-cases (q == s)) [
    | inl hit ↦
        (let e : q ≡ s = ground (arith, hit) in
          merge_into-lem p qs (
            if not (p == q) && are_equivalent (calls p) (calls q)
            then (if s == q then p else s)
            else s)
          ∙ rw e (ground arith))
    | inr miss ↦
        merge_into-lem p qs (
          if not (p == q) && are_equivalent (calls p) (calls q)
          then (if s == q then p else s)
          else s)
        ∙ ground (arith, miss)
  ]

  -- An equivalent block takes the edges of a poison block, and no other does.
  merge_step :
      (p : ℕ) (all : List ℕ) (s : ℕ)
      → member s all ≡ true
      → merge_into p all s ≡ (if are_equivalent (calls p) (calls s) then p else s)
  merge_step p all s m = merge_into-lem p all s ∙ ground (arith, m)

  merge_calls : (ps all : List ℕ) (s : ℕ) → calls (merge_all ps all s) ≡ calls s
  unfolding merge_all are_equivalent
  merge_calls [] all s = refl
  merge_calls (p ∷ ps) all s =
      merge_calls ps all (merge_into p all s)
      ∙ elim (Bool-cases (member s all && not (p == s) && are_equivalent (calls p) (calls s))) [
        | inl moved ↦
            rw (merge_into-lem p all s, moved)
              (same_calls-eq (calls p) (calls s) (ground (arith, moved)))
        | inr stays ↦ rw (merge_into-lem p all s, stays) refl
      ]

  still_left :
      (p s t : ℕ) (ps : List ℕ)
      → member s (p ∷ ps) ≡ true
      → are_equivalent (calls s) (calls t) ≡ true
      → are_equivalent (calls p) (calls s) ≡ false
      → member s ps ≡ true
  unfolding are_equivalent
  still_left p s t ps m like leaves = elim (Bool-cases (p == s)) [
    | inl hit ↦
        (let e : p ≡ s = ground (arith, hit) in
          let unlike = rw e at (leaves) in
          let no : ⊥ = ground (arith, like, unlike, same_calls_self (calls s)) in elim no [ ])
    | inr other ↦ ground (arith, m, other)
  ]

  merge_meet :
      (ps all : List ℕ) (s t : ℕ)
      → member s ps ≡ true
      → member s all ≡ true
      → member t all ≡ true
      → are_equivalent (calls s) (calls t) ≡ true
      → merge_all ps all s ≡ merge_all ps all t
  unfolding merge_all are_equivalent
  merge_meet [] all s t m in_s in_t like = (let no : ⊥ = cc in elim no [ ])
  merge_meet (p ∷ ps) all s t m in_s in_t like =
      let same : calls s ≡ calls t = same_calls-eq (calls s) (calls t) (ground (arith, like)) in
      elim (Bool-cases (are_equivalent (calls p) (calls s))) [
        | inl takes ↦ ap (merge_all ps all) (
            merge_step p all s in_s
            ∙ rw takes (sym (merge_step p all t in_t ∙ rw (sym same, takes) refl)))
        | inr leaves ↦
            ap (merge_all ps all) (merge_step p all s in_s ∙ rw leaves refl)
            ∙ merge_meet ps all s t (still_left p s t ps m like leaves) in_s in_t like
            ∙ ap (merge_all ps all) (sym (merge_step p all t in_t ∙ rw (sym same, leaves) refl))
      ]

  merge_stays : (ps all : List ℕ) (s : ℕ) → member s all ≡ false → merge_all ps all s ≡ s
  unfolding merge_all
  merge_stays [] all s out = refl
  merge_stays (p ∷ ps) all s out =
      ap (merge_all ps all) (merge_into-lem p all s ∙ ground (arith, out))
      ∙ merge_stays ps all s out

  -- After mergePoisonBlocks, the edges to two poison blocks with the same pipe calls, at least one,
  -- lead to one block; every edge leads to a block with the calls of the block it led to; and the
  -- edges to blocks that are no poison blocks are as before.
  pub merge_all_joins :
      (ps : List ℕ)
      → ((s t : ℕ)
          → member s ps ≡ true
          → member t ps ≡ true
          → are_equivalent (calls s) (calls t) ≡ true
          → merge_all ps ps s ≡ merge_all ps ps t)
        × ((s : ℕ) → calls (merge_all ps ps s) ≡ calls s)
        × ((s : ℕ) → member s ps ≡ false → merge_all ps ps s ≡ s)
  merge_all_joins ps = (
    λ s t in_s in_t like. merge_meet ps ps s t in_s in_s in_t like,
    λ s. merge_calls ps ps s,
    λ s out. merge_stays ps ps s out,
  )
