-- ===== src/Cddd/Blocks.antt =====
-- DDGNodesToInstructions and collectBlocksToDecouple of lib/CDDDAnalysis.cpp.
use elastic_sycl_hls.Prelude.{
  ℕ, ltb, ◌==◌, Bool, false, not, ◌&&◌, if◌then◌else◌, Option, none, some, List, [], ◌∷◌, ◌++◌, map,
}
use elastic_sycl_hls.Prelude.Members.{filter}
use elastic_sycl_hls.Cddd.Latency.{get_path_ii}
use elastic_sycl_hls.Cddd.Maps.{insert, insert_all, find_set, put}
use elastic_sycl_hls.Cddd.View.{CdddView, has_unroll_enable}

-- The members of the analysis that this step fills.
pub record DecoupledBlocks : Type 0 where
  pub blocks_to_decouple : List ℕ
  pub recurrence_starts : List (ℕ × ℕ)
  pub recurrence_ends : List (ℕ × ℕ)
  pub instr_to_decouple : List (ℕ × List ℕ)

-- `if (!recStart || !recEnd) continue`
abbrev pub both_ends : ℕ → Option ℕ → Option ℕ → List ℕ → Option (ℕ × ℕ × ℕ × List ℕ)
both_ends latch none rec_end blocks = none
both_ends latch (some s) none blocks = none
both_ends latch (some s) (some e) blocks = some (latch, s, e, blocks)

module _ (v : CdddView) where
  -- The loop over the nodes of one path; `node_instructions` is `N->getInstructions()`.
  unfoldable pub path_instructions : (ℕ → List ℕ) → List ℕ → List ℕ
  path_instructions node_instructions [] = []
  path_instructions node_instructions (n ∷ ns) =
      filter (λ i. not (v.is_void i)) (node_instructions n)
      ++ path_instructions node_instructions ns

  unfoldable pub ddg_nodes_to_instructions : (ℕ → List ℕ) → List (List ℕ) → List (List ℕ)
  ddg_nodes_to_instructions node_instructions [] = []
  ddg_nodes_to_instructions node_instructions (path ∷ paths) =
      path_instructions node_instructions path ∷ ddg_nodes_to_instructions node_instructions paths

  -- The loop over a path: its blocks, and the last phi nodes in the header and in the latch.
  unfoldable pub scan_path :
      ℕ → ℕ → List ℕ → Option ℕ × Option ℕ × List ℕ → Option ℕ × Option ℕ × List ℕ
  scan_path header latch [] found = found
  scan_path header latch (i ∷ path) (rec_start, rec_end, blocks) = scan_path header latch path (
    (if v.is_phi i && (v.parent i == header) then some i else rec_start),
    (if v.is_phi i && not (v.parent i == header) && (v.parent i == latch) then some i else rec_end),
    insert (v.parent i) blocks,
  )

  -- The latch, the two phi nodes and the blocks of a path, if it is a recurrence through registers.
  -- Without a latch there is no phi node in it.
  unfoldable pub recurrence_of : List ℕ → Option (ℕ × ℕ × ℕ × List ℕ)
  recurrence_of [] = none
  recurrence_of (i ∷ path) = elim (v.loop_for (v.parent i)) [
    | none ↦ none
    | some l ↦ elim (v.latch l) [
      | none ↦ none
      | some latch ↦
          (let (rec_start, rec_end, blocks) =
              scan_path (v.header l) latch (i ∷ path) (none, none, []) in
            both_ends latch rec_start rec_end blocks)
    ]
  ]

  abbrev pub is_inner_source : Option ℕ → Bool
  is_inner_source none = false
  is_inner_source (some b) = not (v.is_loop_header b)

  -- The conditions on a candidate block: those of the path, and that of `subPath`.
  unfoldable pub can_decouple : ℕ → List ℕ → ℕ → Bool
  can_decouple latch path b =
      ltb 1 (get_path_ii (map v.opcode path))
      && is_inner_source (v.get_control_dependency_source b)
      && not (has_unroll_enable v latch)
      && ltb 1 (get_path_ii (map v.opcode (v.instructions b)))

  abbrev pub instructions_to_decouple : ℕ → List ℕ
  instructions_to_decouple b =
      filter (λ i. not (v.is_terminator i) && not (v.is_phi i)) (v.instructions b)

  unfoldable pub decouple_block : ℕ → ℕ → ℕ → DecoupledBlocks → DecoupledBlocks
  decouple_block rec_start rec_end b s = record {
    blocks_to_decouple = insert b s.blocks_to_decouple;
    recurrence_starts = put b rec_start s.recurrence_starts;
    recurrence_ends = put b rec_end s.recurrence_ends;
    instr_to_decouple =
        put b (insert_all (instructions_to_decouple b) (find_set b s.instr_to_decouple))
          s.instr_to_decouple;
  }

  -- The loop over the blocks of a path.
  unfoldable pub visit_blocks : ℕ → ℕ → ℕ → List ℕ → List ℕ → DecoupledBlocks → DecoupledBlocks
  visit_blocks latch rec_start rec_end path [] s = s
  visit_blocks latch rec_start rec_end path (b ∷ bs) s =
      visit_blocks latch rec_start rec_end path bs
        (if can_decouple latch path b then decouple_block rec_start rec_end b s else s)

  unfoldable pub visit_path : List ℕ → DecoupledBlocks → DecoupledBlocks
  visit_path path s = elim (recurrence_of path) [
    | none ↦ s
    | some (latch, rec_start, rec_end, blocks) ↦ visit_blocks latch rec_start rec_end path blocks s
  ]

  unfoldable pub collect_blocks_to_decouple : List (List ℕ) → DecoupledBlocks → DecoupledBlocks
  collect_blocks_to_decouple [] s = s
  collect_blocks_to_decouple (path ∷ paths) s = collect_blocks_to_decouple paths (visit_path path s)
