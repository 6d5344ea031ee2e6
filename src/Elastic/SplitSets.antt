-- ===== src/Elastic/SplitSets.antt =====
-- What the loop over the PEs in splitCode of lib/ElasticTransform.cpp puts into its sets.
use elastic_sycl_hls.Prelude.{
  ℕ, ◌≡◌, inl, inr, refl, ◌∙◌, arith, ◌==◌, Bool, true, false, not, ◌&&◌, ◌||◌, List, [], ◌∷◌, ◌++◌,
  Bool-cases,
}
use elastic_sycl_hls.Prelude.Members.{any, member}
use elastic_sycl_hls.Cddd.Maps.{member-insert_all}
use elastic_sycl_hls.Elastic.Split.{
  PeKind, block_pe, loop_pe, Pe, Kernel, CodeSplit, not_terminators, phis, not_phis, split_pe,
  split_pes,
}

pub any_imp {ℓ} :
    {A : Type ℓ} (f g : A → Bool) (xs : List A)
    → ((x : A) → f x ≡ true → g x ≡ true)
    → any f xs ≡ true
    → any g xs ≡ true
any_imp f g [] imp e = e
any_imp f g (x ∷ xs) imp e = elim (Bool-cases (f x)) [
  | inl h ↦ ground (arith, imp x h)
  | inr h ↦ ground (arith, any_imp f g xs imp (ground (arith, e, h)))
]

abbrev pub is_pe_of : ℕ → PeKind → Bool
is_pe_of b (block_pe c) = c == b
is_pe_of b (loop_pe l) = false

module _ (f : Kernel) where
  -- What splitCode keeps for a PE in its own kernel, and deletes in the others.
  abbrev pub is_kept : ℕ → PeKind → Bool
  is_kept i (block_pe c) = member i (not_phis f c)
  is_kept i (loop_pe l) = false

  abbrev pub is_dropped : ℕ → PeKind → Bool
  is_dropped i (block_pe c) = member i (not_terminators f c)
  is_dropped i (loop_pe l) = false

  abbrev pub keeps : ℕ → ℕ → Pe → Bool
  keeps name i p = (p.kernel_name == name) && is_kept i p.kind

  split_pe-keep_instrs :
      (h : Bool) (k : PeKind) (s : CodeSplit) (i : ℕ)
      → member i (split_pe f h k s).keep_instrs ≡ ((h && is_kept i k) || member i s.keep_instrs)
  unfolding split_pe
  split_pe-keep_instrs true (block_pe c) s i = member-insert_all i (not_phis f c) s.keep_instrs
  split_pe-keep_instrs true (loop_pe l) s i = refl
  split_pe-keep_instrs false (block_pe c) s i = refl
  split_pe-keep_instrs false (loop_pe l) s i = refl

  pub split_pes-keep_instrs :
      (name : ℕ) (ps : List Pe) (s : CodeSplit) (i : ℕ)
      → member i (split_pes f name ps s).keep_instrs
        ≡ (any (keeps name i) ps || member i s.keep_instrs)
  unfolding split_pes
  split_pes-keep_instrs name [] s i = refl
  split_pes-keep_instrs name (p ∷ ps) s i =
      split_pes-keep_instrs name ps _ i
      ∙ ground (arith, split_pe-keep_instrs (p.kernel_name == name) p.kind s i)

  split_pe-keep_blocks :
      (h : Bool) (k : PeKind) (s : CodeSplit) (b : ℕ)
      → ((h && is_pe_of b k) || member b s.keep_blocks) ≡ true
      → member b (split_pe f h k s).keep_blocks ≡ true
  unfolding split_pe
  split_pe-keep_blocks true (block_pe c) s b e =
      ground (arith, member-insert_all b (c ∷ []) s.keep_blocks, e)
  split_pe-keep_blocks true (loop_pe l) s b e =
      ground (arith, member-insert_all b (l.exit_block ∷ []) s.keep_blocks, e)
  split_pe-keep_blocks false (block_pe c) s b e = e
  split_pe-keep_blocks false (loop_pe l) s b e = e

  pub split_pes-keep_blocks :
      (name : ℕ) (ps : List Pe) (s : CodeSplit) (b : ℕ)
      → (any (λ p. (p.kernel_name == name) && is_pe_of b p.kind) ps || member b s.keep_blocks)
        ≡ true
      → member b (split_pes f name ps s).keep_blocks ≡ true
  unfolding split_pes
  split_pes-keep_blocks name [] s b e = e
  split_pes-keep_blocks name (p ∷ ps) s b e =
      split_pes-keep_blocks name ps _ b
        (ground (arith, split_pe-keep_blocks (p.kernel_name == name) p.kind s b, e))

  abbrev pub drops : ℕ → ℕ → Pe → Bool
  drops name i p = not (p.kernel_name == name) && is_dropped i p.kind

  split_pe-delete_instrs :
      (h : Bool) (k : PeKind) (s : CodeSplit) (i : ℕ)
      → ((not h && is_dropped i k) || member i s.delete_instrs) ≡ true
      → member i (split_pe f h k s).delete_instrs ≡ true
  unfolding split_pe
  split_pe-delete_instrs true (block_pe c) s i e =
      ground (
        arith,
        member-insert_all i (phis f c ++ not_terminators f f.return_block) s.delete_instrs,
        e,
      )
  split_pe-delete_instrs true (loop_pe l) s i e =
      ground (arith, member-insert_all i (not_terminators f f.return_block) s.delete_instrs, e)
  split_pe-delete_instrs false (block_pe c) s i e =
      ground (arith, member-insert_all i (not_terminators f c) s.delete_instrs, e)
  split_pe-delete_instrs false (loop_pe l) s i e =
      ground (arith, member-insert_all i (phis f l.header) s.delete_instrs, e)

  pub split_pes-delete_instrs :
      (name : ℕ) (ps : List Pe) (s : CodeSplit) (i : ℕ)
      → (any (drops name i) ps || member i s.delete_instrs) ≡ true
      → member i (split_pes f name ps s).delete_instrs ≡ true
  unfolding split_pes
  split_pes-delete_instrs name [] s i e = e
  split_pes-delete_instrs name (p ∷ ps) s i e =
      split_pes-delete_instrs name ps _ i
        (ground (arith, split_pe-delete_instrs (p.kernel_name == name) p.kind s i, e))
