-- ===== src/Cddd/BlocksChosen.antt =====
-- Which blocks collectBlocksToDecouple of lib/CDDDAnalysis.cpp decouples.
use elastic_sycl_hls.Prelude.{
  ℕ, ltb, map, length, ◌≡◌, inl, inr, refl, ◌∙◌, arith, ◌==◌, Bool, true, false, not, ◌&&◌, ◌||◌,
  if◌then◌else◌, Option, none, some, List, [], ◌∷◌,
}
use elastic_sycl_hls.Prelude.Members.{member, any, option_cases}
use elastic_sycl_hls.Cddd.Maps.{insert, member-insert}
use elastic_sycl_hls.Helpers.TypeNames.{Text, has_text}
use elastic_sycl_hls.Cddd.Latency.{total_cycles, get_path_ii-total_cycles}
use elastic_sycl_hls.Cddd.View.{CdddView, unroll_enable, has_unroll_enable}
use elastic_sycl_hls.Cddd.Blocks.{
  DecoupledBlocks, scan_path, both_ends, recurrence_of, is_inner_source, can_decouple,
  decouple_block, visit_blocks, visit_path, collect_blocks_to_decouple,
}

module _ (v : CdddView) where
  -- The metadata of a latch, some of which says that its loop is to be unrolled.
  unfoldable pub says_unroll : ℕ → Bool
  says_unroll latch = any (has_text unroll_enable) (v.metadata latch)

  any_nonempty :
      (s : Text) (ts : List Text)
      → has_text s [] ≡ false
      → any (λ t. ltb 0 (length t) && has_text s t) ts ≡ any (has_text s) ts
  any_nonempty s [] e = refl
  any_nonempty s ([] ∷ ts) e = ground (arith, any_nonempty s ts e)
  any_nonempty s ((c ∷ cs) ∷ ts) e = ground (arith, any_nonempty s ts e)

  has_unroll_enable-says_unroll : (latch : ℕ) → has_unroll_enable v latch ≡ says_unroll latch
  unfolding has_unroll_enable says_unroll
  has_unroll_enable-says_unroll latch = any_nonempty unroll_enable (v.metadata latch) refl

  -- The block is control dependent on a block that is no loop header.
  unfoldable pub is_conditional : ℕ → Bool
  is_conditional b = elim (v.get_control_dependency_source b) [
    | none ↦ false
    | some c ↦ not (v.is_loop_header c)
  ]

  is_inner_source-is_conditional :
      (b : ℕ) → is_inner_source v (v.get_control_dependency_source b) ≡ is_conditional b
  unfolding is_conditional
  is_inner_source-is_conditional b = elim (option_cases (v.get_control_dependency_source b)) [
    | inl nothing ↦ rw (is_inner_source, is_conditional, nothing) refl
    | inr (c, source) ↦ rw (is_inner_source, is_conditional, source) refl
  ]

  -- The latencies of the path and of the block are over 1, the block is conditional, and the loop
  -- is not unrolled.
  abbrev pub is_worthwhile : ℕ → List ℕ → ℕ → Bool
  is_worthwhile latch path b =
      ltb 1 (total_cycles (map v.opcode path))
      && ltb 1 (total_cycles (map v.opcode (v.instructions b)))
      && is_conditional b
      && not (says_unroll latch)

  can_decouple-is_worthwhile :
      (latch : ℕ) (path : List ℕ) (b : ℕ) → can_decouple v latch path b ≡ is_worthwhile latch path b
  unfolding can_decouple
  can_decouple-is_worthwhile latch path b = ground (
    arith,
    get_path_ii-total_cycles (map v.opcode path),
    get_path_ii-total_cycles (map v.opcode (v.instructions b)),
    is_inner_source-is_conditional b,
    has_unroll_enable-says_unroll latch,
  )

  -- One path, given what its recurrence is.
  abbrev of_recurrence : List ℕ → ℕ → Option (ℕ × ℕ × ℕ × List ℕ) → Bool
  of_recurrence path b none = false
  of_recurrence path b (some (latch, rec_start, rec_end, blocks)) =
      member b blocks && can_decouple v latch path b

  -- A path decouples a block on it.
  abbrev pub decouples : List ℕ → ℕ → Bool
  decouples path b = of_recurrence path b (recurrence_of v path)

  member-decouple_if :
      (chosen : Bool) (rec_start rec_end b c : ℕ) (s : DecoupledBlocks)
      → member b (if chosen then decouple_block v rec_start rec_end c s else s).blocks_to_decouple
        ≡ ((chosen && (c == b)) || member b s.blocks_to_decouple)
  unfolding decouple_block
  member-decouple_if true rec_start rec_end b c s = member-insert b c s.blocks_to_decouple
  member-decouple_if false rec_start rec_end b c s = refl

  member-visit_blocks :
      (latch rec_start rec_end : ℕ) (path bs : List ℕ) (b : ℕ) (s : DecoupledBlocks)
      → member b (visit_blocks v latch rec_start rec_end path bs s).blocks_to_decouple
        ≡ ((member b bs && can_decouple v latch path b) || member b s.blocks_to_decouple)
  unfolding visit_blocks decouple_block
  member-visit_blocks latch rec_start rec_end path [] b s = ground arith
  member-visit_blocks latch rec_start rec_end path (c ∷ bs) b s =
      member-visit_blocks latch rec_start rec_end path bs b
        (if can_decouple v latch path c then decouple_block v rec_start rec_end c s else s)
      ∙ ground (arith, member-decouple_if (can_decouple v latch path c) rec_start rec_end b c s)

  member-visit_path :
      (path : List ℕ) (b : ℕ) (s : DecoupledBlocks)
      → member b (visit_path v path s).blocks_to_decouple
        ≡ (decouples path b || member b s.blocks_to_decouple)
  unfolding visit_path
  member-visit_path path b s = elim (option_cases (recurrence_of v path)) [
    | inl nothing ↦ rw (visit_path, decouples, nothing) refl
    | inr ((latch, rec_start, rec_end, blocks), found) ↦
        rw (visit_path, decouples, found)
          (member-visit_blocks latch rec_start rec_end path blocks b s)
  ]

  pub member-collect_blocks :
      (paths : List (List ℕ)) (b : ℕ) (s : DecoupledBlocks)
      → member b (collect_blocks_to_decouple v paths s).blocks_to_decouple
        ≡ (any (λ path. decouples path b) paths || member b s.blocks_to_decouple)
  unfolding collect_blocks_to_decouple
  member-collect_blocks [] b s = refl
  member-collect_blocks (path ∷ paths) b s =
      member-collect_blocks paths b (visit_path v path s)
      ∙ ground (arith, member-visit_path path b s)

  abbrev pub is_some : Option ℕ → Bool
  is_some none = false
  is_some (some x) = true

  abbrev pub is_start : ℕ → ℕ → Bool
  is_start header i = v.is_phi i && (v.parent i == header)

  abbrev pub is_end : ℕ → ℕ → ℕ → Bool
  is_end header latch i = v.is_phi i && not (v.parent i == header) && (v.parent i == latch)

  scan_path-found :
      (header latch : ℕ) (path : List ℕ) (x y : Option ℕ) (bs : List ℕ) (b : ℕ)
      → let found = scan_path v header latch path (x, y, bs) in
        (is_some found.0 ≡ (any (is_start header) path || is_some x))
        × (is_some found.1 ≡ (any (is_end header latch) path || is_some y))
        × (member b found.2 ≡ (any (λ i. v.parent i == b) path || member b bs))
  unfolding scan_path
  scan_path-found header latch [] x y bs b = (refl, refl, refl)
  scan_path-found header latch (i ∷ path) x y bs b =
      let (starts, ends, blocks) =
        scan_path-found header latch path (if is_start header i then some i else x)
          (if is_end header latch i then some i else y) (insert (v.parent i) bs) b in
      (
        starts ∙ pick-is_some (is_start header i) (any (is_start header) path) i x,
        ends ∙ pick-is_some (is_end header latch i) (any (is_end header latch) path) i y,
        blocks ∙ ground (arith, member-insert b (v.parent i) bs),
      )
    where
      pick-is_some :
          (c a : Bool) (i : ℕ) (x : Option ℕ)
          → (a || is_some (if c then some i else x)) ≡ ((c || a) || is_some x)
      pick-is_some true true i x = refl
      pick-is_some true false i x = refl
      pick-is_some false a i x = refl

  -- The conditions under which a path decouples a block of it: it begins in a loop, has phi nodes
  -- in the header and in the latch, goes through the block and is worthwhile.
  abbrev pub is_decoupled_by : ℕ → List ℕ → Bool
  is_decoupled_by b [] = false
  is_decoupled_by b (i ∷ path) = elim (v.loop_for (v.parent i)) [
    | none ↦ false
    | some l ↦ elim (v.latch l) [
      | none ↦ false
      | some latch ↦
          any (is_start (v.header l)) (i ∷ path)
          && any (is_end (v.header l) latch) (i ∷ path)
          && any (λ j. v.parent j == b) (i ∷ path)
          && is_worthwhile latch (i ∷ path) b
    ]
  ]

  both_ends-decouples :
      (latch : ℕ) (path : List ℕ) (b : ℕ) (x y : Option ℕ) (bs : List ℕ)
      → of_recurrence path b (both_ends latch x y bs)
        ≡ (is_some x && is_some y && member b bs && can_decouple v latch path b)
  both_ends-decouples latch path b none y bs = refl
  both_ends-decouples latch path b (some s) none bs = refl
  both_ends-decouples latch path b (some s) (some e) bs = refl

  decouples-is_decoupled_by : (path : List ℕ) (b : ℕ) → decouples path b ≡ is_decoupled_by b path
  unfolding recurrence_of
  decouples-is_decoupled_by [] b = refl
  decouples-is_decoupled_by (i ∷ path) b = elim (option_cases (v.loop_for (v.parent i))) [
    | inl outside ↦ rw (decouples, is_decoupled_by, recurrence_of, outside) refl
    | inr (l, inside) ↦ elim (option_cases (v.latch l)) [
      | inl nothing ↦ rw (decouples, is_decoupled_by, recurrence_of, inside, nothing) refl
      | inr (latch, at_latch) ↦
          (let p : List ℕ = i ∷ path in
            let (starts, ends, blocks) = scan_path-found (v.header l) latch p none none [] b in
            rw (decouples, is_decoupled_by, recurrence_of, inside, at_latch)
              (both_ends-decouples latch p b _ _ _
                ∙ ground (arith, starts, ends, blocks, can_decouple-is_worthwhile latch p b)))
    ]
  ]

  decoupled_by_any :
      (paths : List (List ℕ)) (b : ℕ)
      → any (λ path. decouples path b) paths ≡ any (is_decoupled_by b) paths
  decoupled_by_any [] b = refl
  decoupled_by_any (path ∷ paths) b =
      ground (arith, decouples-is_decoupled_by path b, decoupled_by_any paths b)

  -- collectBlocksToDecouple adds a block exactly if one of the paths decouples it: the path begins
  -- in a loop with a latch and goes through the block, it has a phi node in the header and one in the
  -- latch, its latency is over 1 and so is the block's, the block is control dependent on a block
  -- that is no loop header, and the loop is not unrolled.
  pub collect_blocks_to_decouple_iff :
      (paths : List (List ℕ)) (b : ℕ) (s : DecoupledBlocks)
      → member b (collect_blocks_to_decouple v paths s).blocks_to_decouple
        ≡ (any (is_decoupled_by b) paths || member b s.blocks_to_decouple)
  collect_blocks_to_decouple_iff paths b s =
      member-collect_blocks paths b s ∙ ground (arith, decoupled_by_any paths b)
