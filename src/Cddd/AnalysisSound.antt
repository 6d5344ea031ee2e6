-- ===== src/Cddd/AnalysisSound.antt =====
-- What the whole analysis of include/CDDDAnalysis.h leaves in its members.
use elastic_sycl_hls.Prelude.{
  ℕ, ◌≡◌, inl, inr, refl, sym, ◌∙◌, arith, ◌==◌, true, false, ◌&&◌, if◌then◌else◌, some, List, [],
  ◌∷◌, Bool-cases,
}
use elastic_sycl_hls.Prelude.Members.{any, member, distinct, option_cases}
use elastic_sycl_hls.Cddd.Analysis.{
  Decoupling, no_blocks, no_dependencies, first_keys, analyse_recurrences, analyse_loops, analyse,
}
use elastic_sycl_hls.Cddd.SccPaths.{Recurrence, get_scc_paths}
use elastic_sycl_hls.Cddd.Blocks.{
  DecoupledBlocks, recurrence_of, can_decouple, decouple_block, visit_blocks, visit_path,
  instructions_to_decouple, ddg_nodes_to_instructions, collect_blocks_to_decouple,
}
use elastic_sycl_hls.Cddd.BlocksChosen.{collect_blocks_to_decouple_iff}
use elastic_sycl_hls.Cddd.BlocksKept.{IsConsistent, collect_blocks_to_decouple-IsConsistent}
use elastic_sycl_hls.Cddd.Dependencies.{BlockDependencies, collect_block_dependencies, is_output}
use elastic_sycl_hls.Cddd.Inputs.{outputs_of, collect_block_dependencies-IsGrown}
use elastic_sycl_hls.Cddd.Hoist.{HoistView, IsHoistable, collect_dependencies_to_hoist}
use elastic_sycl_hls.Cddd.Hoisted.{collect_dependencies_to_hoist_sound}
use elastic_sycl_hls.Cddd.Maps.{find_set, find_set-some}
use elastic_sycl_hls.Cddd.LoopMemory.{distinct-keys-put}
use elastic_sycl_hls.Cddd.LoopsChosen.{keys, AllFound, distinct-AllFound}
use elastic_sycl_hls.Cddd.Loops.{LoopNest, collect_loops_to_decouple}
use elastic_sycl_hls.Cddd.LoopDependencies.{collect_loop_dependencies}
use elastic_sycl_hls.Cddd.LoopsDecoupled.{
  IsSafeToDecouple, collect_loops_to_decouple-IsSafeToDecouple,
}

module _ (n : LoopNest) (node_instructions : ℕ → List ℕ) where
  -- The output dependencies of a block are decoupled instructions of it.
  abbrev pub HasOutputsInside : DecoupledBlocks → BlockDependencies → Type 0
  HasOutputsInside s d =
      (b x : ℕ)
      → outputs_of d b x ≡ true
      → (member b s.blocks_to_decouple && member x (instructions_to_decouple n.view b)) ≡ true

  -- What holds of the members at the end.
  pub record IsSound (loops : List ℕ) (r : Decoupling) : Type 0 where
    pub consistent : IsConsistent n.view r.blocks
    pub outputs_inside : HasOutputsInside r.blocks r.dependencies
    pub hoistable :
        (b x : ℕ)
        → member x (find_set b r.instr_to_hoist) ≡ true
        → IsHoistable n.view
            (record {
              starts = r.blocks.recurrence_starts;
              ends = r.blocks.recurrence_ends;
              outputs = r.dependencies.output_dependencies;
            })
            b
            x
    pub safe_loops :
        (l : ℕ)
        → member l r.loops_to_decouple ≡ true
        → member l loops ≡ true
        → IsSafeToDecouple n loops l

  -- The map of instructions has each key once.
  abbrev HasDistinctKeys : DecoupledBlocks → Type 0
  HasDistinctKeys s = distinct (keys s.instr_to_decouple) ≡ true

  visit_blocks-HasDistinctKeys :
      (latch x y : ℕ) (path bs : List ℕ) (s : DecoupledBlocks)
      → HasDistinctKeys s
      → HasDistinctKeys (visit_blocks n.view latch x y path bs s)
  unfolding visit_blocks decouple_block
  visit_blocks-HasDistinctKeys latch x y path [] s d = d
  visit_blocks-HasDistinctKeys latch x y path (b ∷ bs) s d =
      visit_blocks-HasDistinctKeys latch x y path bs _
        (elim (can_decouple n.view latch path b)
          as (λ chosen. HasDistinctKeys (if chosen then decouple_block n.view x y b s else s)) [
            | true ↦ distinct-keys-put b _ s.instr_to_decouple d
            | false ↦ d
          ])

  collect_blocks-HasDistinctKeys :
      (paths : List (List ℕ)) (s : DecoupledBlocks)
      → HasDistinctKeys s
      → HasDistinctKeys (collect_blocks_to_decouple n.view paths s)
  unfolding collect_blocks_to_decouple visit_path
  collect_blocks-HasDistinctKeys [] s d = d
  collect_blocks-HasDistinctKeys (path ∷ paths) s d =
      collect_blocks-HasDistinctKeys paths (visit_path n.view path s)
        (elim (option_cases (recurrence_of n.view path)) [
          | inl nothing ↦ rw (visit_path, nothing) d
          | inr ((latch, x, y, blocks), found) ↦
              rw (visit_path, found) (visit_blocks-HasDistinctKeys latch x y path blocks s d)
        ])

  output_decoupled :
      (b x : ℕ) (entries whole : List (ℕ × List ℕ))
      → AllFound entries whole
      → any (λ e. (e.0 == b) && is_output n.view e.1 x) entries ≡ true
      → member x (find_set b whole) ≡ true
  output_decoupled b x [] whole all e = (let no : ⊥ = cc in elim no [ ])
  output_decoupled b x ((k, is) ∷ entries) whole (here, all) h =
      elim (Bool-cases ((k == b) && is_output n.view is x)) [
        | inl hit ↦
            (let same : k ≡ b = ground (arith, hit) in
              let found = find_set-some k is whole here in
              rw (sym same, found) (ground (arith, hit)))
        | inr miss ↦ output_decoupled b x entries whole all (ground (arith, h, miss))
      ]

  record IsRecorded (s : DecoupledBlocks) (d : BlockDependencies) : Type 0 where
    pub consistent : IsConsistent n.view s
    pub distinct_keys : HasDistinctKeys s
    pub outputs_inside : HasOutputsInside s d

  analyse_paths-IsRecorded :
      (paths : List (List ℕ)) (s : DecoupledBlocks) (d : BlockDependencies)
      → IsRecorded s d
      → let t = collect_blocks_to_decouple n.view paths s in
        IsRecorded t (collect_block_dependencies n.view t.instr_to_decouple d)
  analyse_paths-IsRecorded paths s d h =
      let t = collect_blocks_to_decouple n.view paths s in
      let kept = collect_blocks_to_decouple-IsConsistent n.view paths s h.consistent in
      let once = collect_blocks-HasDistinctKeys paths s h.distinct_keys in
      record {
        consistent = kept;
        distinct_keys = once;
        outputs_inside = λ b x out.
            (let grown = collect_block_dependencies-IsGrown n.view t.instr_to_decouple d b x in
              elim (Bool-cases
                (any (λ e. (e.0 == b) && is_output n.view e.1 x) t.instr_to_decouple)) [
                  | inl new ↦
                      sym (kept.instructions_kept b x)
                      ∙ output_decoupled b x t.instr_to_decouple t.instr_to_decouple
                          (distinct-AllFound t.instr_to_decouple once) new
                  | inr old ↦
                      (let before =
                          h.outputs_inside b x (ground (arith, grown.grown_out, out, old)) in
                        ground (arith, before, collect_blocks_to_decouple_iff n.view paths b s))
                ]);
      }

  analyse_recurrences-IsRecorded :
      (gs : List Recurrence) (s t : DecoupledBlocks) (d e : BlockDependencies)
      → IsRecorded s d
      → analyse_recurrences n node_instructions gs s d ≡ some (t, e)
      → IsRecorded t e
  unfolding analyse_recurrences
  analyse_recurrences-IsRecorded [] s t d e h ends =
      let same_s : s ≡ t = cc in let same_d : d ≡ e = cc in rw (sym same_s, sym same_d) h
  analyse_recurrences-IsRecorded (g ∷ gs) s t d e h ends = elim (option_cases (get_scc_paths g)) [
    | inl null ↦
        (let no : ⊥ = (let f = rw (analyse_recurrences, null) at (ends) in cc) in elim no [ ])
    | inr (paths, found) ↦
        analyse_recurrences-IsRecorded gs _ t _ e
          (analyse_paths-IsRecorded (ddg_nodes_to_instructions n.view node_instructions paths) s d
            h)
          (rw (analyse_recurrences, found) at (ends))
  ]

  no_blocks-IsRecorded : IsRecorded no_blocks no_dependencies
  no_blocks-IsRecorded = record {
    consistent = record {
      ends_kept = λ b m. (let no : ⊥ = cc in elim no [ ]);
      instructions_kept = λ b i. refl;
    };
    distinct_keys = refl;
    outputs_inside = λ b x m. m;
  }

  analyse_loops-IsSound :
      (blocks loops : List ℕ) (s : DecoupledBlocks) (d : BlockDependencies) (r : Decoupling)
      → IsRecorded s d
      → analyse_loops n node_instructions blocks loops s d ≡ some r
      → IsSound loops r
  unfolding analyse_loops
  analyse_loops-IsSound blocks loops s d r h ends =
      let view : HoistView = record {
        starts = s.recurrence_starts;
        ends = s.recurrence_ends;
        outputs = d.output_dependencies;
      } in
      elim (option_cases
        (collect_dependencies_to_hoist n.view view (first_keys d.input_dependencies) [])) [
          | inl null ↦
              (let no : ⊥ = (let f = rw (analyse_loops, null) at (ends) in cc) in elim no [ ])
          | inr (hoisted, found) ↦
              (let f = rw (analyse_loops, found) at (ends) in
                elim (option_cases (collect_loops_to_decouple n loops)) [
                  | inl null ↦ (let no : ⊥ = (let f' = rw null at (f) in cc) in elim no [ ])
                  | inr (decoupled, chosen) ↦
                      (let f' = rw chosen at (f) in
                        let same : record {
                          blocks = s;
                          dependencies = d;
                          instr_to_hoist = hoisted;
                          loops_to_decouple = decoupled;
                          loop_dependencies = collect_loop_dependencies n.view blocks decoupled [];
                        }
                            ≡ r =
                          cc in
                        rw (sym same) (record {
                          consistent = h.consistent;
                          outputs_inside = h.outputs_inside;
                          hoistable = λ b x m.
                              elim (collect_dependencies_to_hoist_sound n.view view
                                (first_keys d.input_dependencies) [] hoisted b x found m) [
                                  | inl before ↦ (let no : ⊥ = cc in elim no [ ])
                                  | inr good ↦ good
                                ];
                          safe_loops = λ l.
                              collect_loops_to_decouple-IsSafeToDecouple n loops decoupled l chosen;
                        }))
                ])
        ]

  -- Where the analysis ends, its members fit together: each decoupled block has the two phi nodes of
  -- a recurrence and its instructions to decouple; the output dependencies of a block are decoupled
  -- instructions of it; each hoisted value is the start of the block's recurrence or an output
  -- dependency that the end takes, under the conditions of IsHoistable; and each decoupled loop among
  -- the loops is safe to decouple.
  pub analyse-IsSound :
      (recurrences : List Recurrence) (blocks loops : List ℕ) (r : Decoupling)
      → analyse n node_instructions false recurrences blocks loops ≡ some r
      → IsSound loops r
  unfolding analyse
  analyse-IsSound recurrences blocks loops r ends =
      elim (option_cases
        (analyse_recurrences n node_instructions recurrences no_blocks no_dependencies)) [
          | inl null ↦ (let no : ⊥ = (let f = rw (analyse, null) at (ends) in cc) in elim no [ ])
          | inr ((s, d), found) ↦
              analyse_loops-IsSound blocks loops s d r
                (analyse_recurrences-IsRecorded recurrences no_blocks s no_dependencies d
                  no_blocks-IsRecorded found)
                (rw (analyse, found) at (ends))
        ]
