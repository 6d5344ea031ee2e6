-- ===== src/Elastic/SplitParts.antt =====
-- Which kernel keeps a decoupled instruction after splitCode and deleteCode of
-- lib/ElasticTransform.cpp.
use elastic_sycl_hls.Prelude.{
  ℕ, ◌≡◌, inl, inr, refl, sym, ◌∙◌, arith, ◌==◌, true, false, not, ◌&&◌, ◌||◌, List, [], ◌∷◌, ◌++◌,
  if◌then◌else◌, Bool-cases,
}
use elastic_sycl_hls.Prelude.Members.{any, filter, member, member-filter}
use elastic_sycl_hls.Cddd.Maps.{insert_all, member-insert_all}
use elastic_sycl_hls.Elastic.Split.{
  PeKind, block_pe, loop_pe, Pe, Kernel, CodeSplit, split_pes, split_code, kernel_split,
  instrs_of_deleted, is_deleted_in_agu, agu_deletions, is_left,
}
use elastic_sycl_hls.Elastic.SplitSets.{
  any_imp, is_pe_of, is_kept, is_dropped, keeps, split_pes-keep_instrs, split_pes-keep_blocks,
  drops, split_pes-delete_instrs,
}

module _ (f : Kernel) where
  -- An instruction of a block that one kernel decouples: it is no phi node, no terminator and no call
  -- of a pipe, and stands in no other block; the PEs of the block are in that kernel, at least one.
  pub record IsDecoupled (ps : List Pe) (k b i : ℕ) : Type 0 where
    pub has_pe : any (λ p. (p.kernel_name == k) && is_pe_of b p.kind) ps ≡ true
    pub no_other : any (λ p. is_pe_of b p.kind && not (p.kernel_name == k)) ps ≡ false
    pub in_block : member i (f.instructions b) ≡ true
    pub only_block : (c : ℕ) → member i (f.instructions c) ≡ true → (c == b) ≡ true
    pub no_phi : f.is_phi i ≡ false
    pub no_terminator : f.is_terminator i ≡ false
    pub no_pipe_call : f.is_pipe_call i ≡ false

  is_kept-is_pe_of :
      (ps : List Pe) (k b i : ℕ)
      → IsDecoupled ps k b i
      → (q : PeKind) → is_kept f i q ≡ is_pe_of b q
  is_kept-is_pe_of ps k b i d (block_pe c) = elim (Bool-cases (c == b)) [
    | inl same ↦
        (let e : c ≡ b = ground (arith, same) in
          rw (e, member-filter (λ j. not (f.is_phi j)) i (f.instructions b))
            (ground (arith, d.in_block, d.no_phi)))
    | inr other ↦
        ground
          (arith, other, d.only_block c, member-filter (λ j. not (f.is_phi j)) i (f.instructions c))
  ]
  is_kept-is_pe_of ps k b i d (loop_pe l) = refl

  is_pe_of-is_dropped :
      (ps : List Pe) (k b i : ℕ)
      → IsDecoupled ps k b i
      → (q : PeKind) → is_pe_of b q ≡ true
      → is_dropped f i q ≡ true
  is_pe_of-is_dropped ps k b i d (block_pe c) h =
      let e : c ≡ b = ground (arith, h) in
      rw (e, member-filter (λ j. not (f.is_terminator j)) i (f.instructions b))
        (ground (arith, d.in_block, d.no_terminator))
  is_pe_of-is_dropped ps k b i d (loop_pe l) h = (let no : ⊥ = cc in elim no [ ])

  left_in_own :
      (ps : List Pe) (kept : List ℕ) (k b i : ℕ)
      → IsDecoupled ps k b i
      → is_left f k kept (split_code f k ps) b i ≡ true
  unfolding is_left split_code
  left_in_own ps kept k b i d =
      let start : CodeSplit = record {
        delete_instrs = [];
        keep_instrs = [];
        delete_blocks = [];
        keep_blocks = insert_all (f.entry ∷ f.return_block ∷ []) [];
        direct_exits = [];
      } in
      let own =
        any_imp (λ p. (p.kernel_name == k) && is_pe_of b p.kind) (keeps f k i) ps
          (λ p h. ground (arith, h, is_kept-is_pe_of ps k b i d p.kind)) d.has_pe in
      ground (
        arith,
        split_pes-keep_instrs f k ps start i,
        own,
        split_pes-keep_blocks f k ps start b (ground (arith, d.has_pe)),
      )

  gone_elsewhere :
      (ps : List Pe) (kept : List ℕ) (n k b i : ℕ)
      → IsDecoupled ps k b i
      → (k == n) ≡ false
      → member i kept ≡ false
      → is_left f n kept (split_code f n ps) b i ≡ false
  unfolding is_left split_code
  gone_elsewhere ps kept n k b i d other unruled =
      let start : CodeSplit = record {
        delete_instrs = [];
        keep_instrs = [];
        delete_blocks = [];
        keep_blocks = insert_all (f.entry ∷ f.return_block ∷ []) [];
        direct_exits = [];
      } in
      let r = split_pes f n ps start in
      let in_agu =
        insert_all (if f.is_agu n then agu_deletions f f.blocks else []) r.delete_instrs in
      let dropped =
        any_imp (λ p. (p.kernel_name == k) && is_pe_of b p.kind) (drops f n i) ps
          (λ p h. ground (arith, h, other, is_pe_of-is_dropped ps k b i d p.kind)) d.has_pe in
      let unkept : any (keeps f n i) ps ≡ false = elim (Bool-cases (any (keeps f n i) ps)) [
        | inl found ↦
            (let wrong =
                any_imp (keeps f n i) (λ p. is_pe_of b p.kind && not (p.kernel_name == k)) ps
                  (λ p h. ground (arith, h, other, is_kept-is_pe_of ps k b i d p.kind)) found in
              let no : ⊥ = ground (arith, wrong, d.no_other) in elim no [ ])
        | inr none_kept ↦ none_kept
      ] in
      ground (
        arith,
        member-insert_all i (instrs_of_deleted f r.keep_blocks r.delete_blocks) in_agu,
        member-insert_all i (if f.is_agu n then agu_deletions f f.blocks else []) r.delete_instrs,
        unruled,
        split_pes-keep_instrs f n ps start i,
        unkept,
        split_pes-delete_instrs f n ps start i (ground (arith, dropped)),
        d.no_pipe_call,
      )

  member-append : (y : ℕ) (us vs : List ℕ) → member y (us ++ vs) ≡ (member y us || member y vs)
  member-append y [] vs = refl
  member-append y (u ∷ us) vs = ground (arith, member-append y us vs)

  member-agu_deletions :
      (b i : ℕ) (bs : List ℕ)
      → member i (f.instructions b) ≡ true
      → ((c : ℕ) → member i (f.instructions c) ≡ true → (c == b) ≡ true)
      → member i (agu_deletions f bs) ≡ (member b bs && not (b == f.entry) && is_deleted_in_agu f i)
  unfolding agu_deletions
  member-agu_deletions b i [] at only = refl
  member-agu_deletions b i (c ∷ bs) at only =
      let rest = member-agu_deletions b i bs at only in
      let here =
        member-append i (filter (is_deleted_in_agu f) (f.instructions c)) (agu_deletions f bs) in
      let chosen = member-filter (is_deleted_in_agu f) i (f.instructions c) in
      elim (Bool-cases (c == b)) [
        | inl same ↦
            (let e : c ≡ b = ground (arith, same) in
              rw (sym e) (ground (arith, rest, here, chosen, rw (sym e) at (at), same)))
        | inr other ↦ ground (arith, rest, here, chosen, only c, other)
      ]

  left_in_agu :
      (ps : List Pe) (kept : List ℕ) (n k b i : ℕ)
      → IsDecoupled ps k b i
      → member b f.blocks ≡ true
      → member i kept ≡ false
      → f.is_agu n ≡ true
      → is_left f n kept
          (record {
            delete_instrs = [];
            keep_instrs = [];
            delete_blocks = [];
            keep_blocks = [];
            direct_exits = [];
          })
          b
          i
        ≡ ((b == f.entry) || not (is_deleted_in_agu f i))
  unfolding is_left instrs_of_deleted
  left_in_agu ps kept n k b i d inside unruled agu = ground (
    arith,
    agu,
    unruled,
    inside,
    d.no_pipe_call,
    member-insert_all i (if f.is_agu n then agu_deletions f f.blocks else []) [],
    member-agu_deletions b i f.blocks d.in_block d.only_block,
  )

  -- After splitCode and deleteCode, as run calls them, a decoupled instruction that no rewrite rule
  -- keeps f is left in exactly one of the kernels that are no address generation unit: the PE of its
  -- block. An address generation unit, which is not split, keeps f it unless it is a debug instruction, a
  -- call of printf or a store to something else than a scalar alloca, outside the entry block.
  pub kernel_split-is_left :
      (ps : List Pe) (kept : List ℕ) (n k b i : ℕ)
      → IsDecoupled ps k b i
      → member b f.blocks ≡ true
      → member i kept ≡ false
      → is_left f n kept (kernel_split f n ps) b i ≡ (
          if f.is_agu n
          then (b == f.entry)
            || not (
                f.is_debug i
                || f.is_printf i
                || (f.is_store i && not (f.is_store_to_scalar_alloc i)))
          else k == n)
  unfolding kernel_split
  kernel_split-is_left ps kept n k b i d inside unruled = elim (Bool-cases (f.is_agu n)) [
    | inl agu ↦ rw (kernel_split, agu) (left_in_agu ps kept n k b i d inside unruled agu)
    | inr other ↦
        rw (kernel_split, other)
          (elim (Bool-cases (k == n)) [
            | inl own ↦
                (let e : k ≡ n = ground (arith, own) in
                  rw (sym e) (left_in_own ps kept k b i d ∙ ground arith))
            | inr elsewhere ↦ gone_elsewhere ps kept n k b i d elsewhere unruled ∙ sym elsewhere
          ])
  ]
