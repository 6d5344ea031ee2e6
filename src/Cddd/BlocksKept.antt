-- ===== src/Cddd/BlocksKept.antt =====
-- What collectBlocksToDecouple of lib/CDDDAnalysis.cpp keeps of each block that it decouples.
use elastic_sycl_hls.Prelude.{
  ℕ, ◌≡◌, inl, inr, refl, arith, ◌==◌, Bool, true, false, not, ◌&&◌, if◌then◌else◌, Option, none,
  some, List, [], ◌∷◌, Bool-cases,
}
use elastic_sycl_hls.Prelude.Members.{member, option_cases}
use elastic_sycl_hls.Cddd.Maps.{
  insert_all, member-insert, member-insert_all, find, find-put, find_set,
}
use elastic_sycl_hls.Cddd.View.{CdddView}
use elastic_sycl_hls.Cddd.Blocks.{
  DecoupledBlocks, scan_path, both_ends, recurrence_of, can_decouple, instructions_to_decouple,
  decouple_block, visit_blocks, visit_path, collect_blocks_to_decouple,
}

module _ (v : CdddView) where
  -- A phi node in a block.
  abbrev pub IsPhiIn : ℕ → Option ℕ → Type 0
  IsPhiIn b none = Unit
  IsPhiIn b (some i) = (v.is_phi i ≡ true) × (v.parent i ≡ b)

  scan_path-IsPhiIn :
      (header latch : ℕ) (path : List ℕ) (x y : Option ℕ) (bs : List ℕ)
      → IsPhiIn header x
      → IsPhiIn latch y
      → IsPhiIn header (scan_path v header latch path (x, y, bs)).0
        × IsPhiIn latch (scan_path v header latch path (x, y, bs)).1
  unfolding scan_path
  scan_path-IsPhiIn header latch [] x y bs hx hy = (hx, hy)
  scan_path-IsPhiIn header latch (i ∷ path) x y bs hx hy =
      scan_path-IsPhiIn header latch path _ _ _
        (pick_phi (v.is_phi i && (v.parent i == header)) header i x
          (λ h. (ground arith, ground arith)) hx)
        (pick_phi (v.is_phi i && not (v.parent i == header) && (v.parent i == latch)) latch i y
          (λ h. (ground arith, ground arith)) hy)
    where
      pick_phi :
          (h : Bool) (b i : ℕ) (x : Option ℕ)
          → (h ≡ true → IsPhiIn b (some i))
          → IsPhiIn b x
          → IsPhiIn b (if h then some i else x)
      pick_phi true b i x new old = new refl
      pick_phi false b i x new old = old

  -- The ends of a recurrence through the registers of a loop.
  abbrev pub IsRecurrence : ℕ → ℕ → Type 0
  IsRecurrence x y =
      (l latch : ℕ) × (v.latch l ≡ some latch)
      × IsPhiIn (v.header l) (some x)
      × IsPhiIn latch (some y)

  both_ends-IsRecurrence :
      (l latch t x y : ℕ) (bs blocks : List ℕ) (rec_start rec_end : Option ℕ)
      → v.latch l ≡ some latch
      → IsPhiIn (v.header l) rec_start × IsPhiIn latch rec_end
      → both_ends latch rec_start rec_end bs ≡ some (t, x, y, blocks)
      → IsRecurrence x y
  both_ends-IsRecurrence l latch t x y bs blocks none rec_end at_latch phis e =
      (let no : ⊥ = cc in elim no [ ])
  both_ends-IsRecurrence l latch t x y bs blocks (some s) none at_latch phis e =
      (let no : ⊥ = cc in elim no [ ])
  both_ends-IsRecurrence l latch t x y bs blocks (some s) (some r) at_latch (p, q) e =
      let same_x : s ≡ x = cc in
      let same_y : r ≡ y = cc in (l, latch, at_latch, rw same_x at (p), rw same_y at (q))

  recurrence_of-IsRecurrence :
      (path : List ℕ) (t x y : ℕ) (blocks : List ℕ)
      → recurrence_of v path ≡ some (t, x, y, blocks)
      → IsRecurrence x y
  unfolding recurrence_of
  recurrence_of-IsRecurrence [] t x y blocks e = (let no : ⊥ = cc in elim no [ ])
  recurrence_of-IsRecurrence (i ∷ path) t x y blocks e =
      elim (option_cases (v.loop_for (v.parent i))) [
        | inl outside ↦
            (let no : ⊥ = (let h = rw (recurrence_of, outside) at (e) in cc) in elim no [ ])
        | inr (l, inside) ↦
            (let h = rw (recurrence_of, inside) at (e) in
              elim (option_cases (v.latch l)) [
                | inl none_there ↦
                    (let no : ⊥ = (let h' = rw none_there at (h) in cc) in elim no [ ])
                | inr (latch, at_latch) ↦
                    both_ends-IsRecurrence l latch t x y _ blocks _ _ at_latch
                      (scan_path-IsPhiIn (v.header l) latch (i ∷ path) none none [] tt tt)
                      (rw at_latch at (h))
              ])
      ]

  -- Each decoupled block has the two phi nodes of a recurrence, and just the decoupled blocks have
  -- instructions to decouple: all of the block but its phi nodes and terminators.
  pub record IsConsistent (s : DecoupledBlocks) : Type 0 where
    pub ends_kept :
        (b : ℕ)
        → member b s.blocks_to_decouple ≡ true
        → (x y : ℕ) × (find b s.recurrence_starts ≡ some x)
          × (find b s.recurrence_ends ≡ some y)
          × IsRecurrence x y
    pub instructions_kept :
        (b i : ℕ)
        → member i (find_set b s.instr_to_decouple)
          ≡ (member b s.blocks_to_decouple && member i (instructions_to_decouple v b))

  decouple_block-IsConsistent :
      (x y c : ℕ) (s : DecoupledBlocks)
      → IsRecurrence x y
      → IsConsistent s
      → IsConsistent (decouple_block v x y c s)
  unfolding decouple_block
  decouple_block-IsConsistent x y c s ends h = record {
    ends_kept = λ b chosen. elim (Bool-cases (c == b)) [
      | inl same ↦ (
        x,
        y,
        rw (find-put c b x s.recurrence_starts, same) refl,
        rw (find-put c b y s.recurrence_ends, same) refl,
        ends,
      )
      | inr other ↦
          (let (x', y', at_start, at_end, kept) =
              h.ends_kept b (ground (arith, member-insert b c s.blocks_to_decouple)) in
            (
              x',
              y',
              rw (find-put c b x s.recurrence_starts, other) at_start,
              rw (find-put c b y s.recurrence_ends, other) at_end,
              kept,
            ))
    ];
    instructions_kept = λ b i. ground (
      arith,
      find-put c b (insert_all (instructions_to_decouple v c) (find_set c s.instr_to_decouple))
          s.instr_to_decouple,
      member-insert_all i (instructions_to_decouple v c) (find_set c s.instr_to_decouple),
      member-insert b c s.blocks_to_decouple,
      h.instructions_kept b i,
    );
  }

  visit_blocks-IsConsistent :
      (latch x y : ℕ) (path bs : List ℕ) (s : DecoupledBlocks)
      → IsRecurrence x y
      → IsConsistent s
      → IsConsistent (visit_blocks v latch x y path bs s)
  unfolding visit_blocks
  visit_blocks-IsConsistent latch x y path [] s ends h = h
  visit_blocks-IsConsistent latch x y path (b ∷ bs) s ends h =
      visit_blocks-IsConsistent latch x y path bs _ ends
        (elim (can_decouple v latch path b)
          as (λ chosen. IsConsistent (if chosen then decouple_block v x y b s else s)) [
            | true ↦ decouple_block-IsConsistent x y b s ends h
            | false ↦ h
          ])

  visit_path-IsConsistent :
      (path : List ℕ) (s : DecoupledBlocks) → IsConsistent s → IsConsistent (visit_path v path s)
  unfolding visit_path
  visit_path-IsConsistent path s h = elim (option_cases (recurrence_of v path)) [
    | inl nothing ↦ rw (visit_path, nothing) h
    | inr ((latch, x, y, blocks), found) ↦
        rw (visit_path, found)
          (visit_blocks-IsConsistent latch x y path blocks s
            (recurrence_of-IsRecurrence path latch x y blocks found) h)
  ]

  -- collectBlocksToDecouple keeps: each decoupled block has a start of its recurrence, a phi node in
  -- the header of a loop, and an end, a phi node in the latch of the same loop; the instructions to
  -- decouple are, for the decoupled blocks and no others, those of the block that are neither phi
  -- nodes nor terminators.
  pub collect_blocks_to_decouple-IsConsistent :
      (paths : List (List ℕ)) (s : DecoupledBlocks)
      → IsConsistent s
      → IsConsistent (collect_blocks_to_decouple v paths s)
  unfolding collect_blocks_to_decouple
  collect_blocks_to_decouple-IsConsistent [] s h = h
  collect_blocks_to_decouple-IsConsistent (path ∷ paths) s h =
      collect_blocks_to_decouple-IsConsistent paths (visit_path v path s)
        (visit_path-IsConsistent path s h)
