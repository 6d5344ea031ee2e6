-- ===== src/Cddd/Hoisted.antt =====
-- Which values collectDependenciesToHoist of lib/CDDDAnalysis.cpp hoists.
use elastic_sycl_hls.Prelude.{
  ℕ, ◌≡◌, ◌≢◌, ◌⊎◌, inl, inr, refl, sym, ap, arith, ◌==◌, Bool, true, false, ◌&&◌, ◌||◌,
  if◌then◌else◌, Option, none, some, List, [], ◌∷◌, Bool-cases,
}
use elastic_sycl_hls.Prelude.Members.{member, option_cases}
use elastic_sycl_hls.Cddd.Maps.{find, find_set, insert_at, member-insert_at}
use elastic_sycl_hls.Cddd.View.{CdddView}
use elastic_sycl_hls.Cddd.Hoist.{
  EndScan, HoistView, is_used_elsewhere, can_hoist_start, scan_end, insert_both, end_scan,
  hoist_recurrence, hoist_block, collect_dependencies_to_hoist, IsHoistable,
}

picked :
    (c : Bool) (y x : ℕ) (old : Option ℕ)
    → (if c then some y else old) ≡ some x
    → ((c ≡ true) × (y ≡ x)) ⊎ (old ≡ some x)
picked true y x old e = inl (refl, cc)
picked false y x old e = inr e

module _ (v : CdddView) where
  can_hoist_start-users :
      (l b : ℕ) (us : List ℕ) (can : Bool)
      → can_hoist_start v l b us can ≡ true
      → (can ≡ true) × ((u : ℕ) → member u us ≡ true → is_used_elsewhere v l b u ≡ false)
  unfolding can_hoist_start
  can_hoist_start-users l b [] can e = (e, λ u m. ground arith)
  can_hoist_start-users l b (x ∷ us) can e =
      let (c, rest) =
        can_hoist_start-users l b us (if is_used_elsewhere v l b x then false else can) e in
      (ground arith, λ u m. ground (arith, rest u))

  scan_end-sources :
      (l b start : ℕ) (outs is : List ℕ) (s : EndScan)
      → let r = scan_end v l b start outs is s in
        (r.can_hoist_end ≡ true
          → (s.can_hoist_end ≡ true)
            × ((i : ℕ)
                → member i is ≡ true
                → ((v.parent i == v.header l) || (v.parent i == b)) ≡ true))
        × (r.uses_start ≡ (member start is || s.uses_start))
        × ((x : ℕ)
            → r.value_from_pe ≡ some x
            → ((member x is && member x outs) ≡ true) ⊎ (s.value_from_pe ≡ some x))
  unfolding scan_end
  scan_end-sources l b start outs [] s = (λ e. (e, λ i m. ground arith), refl, λ x e. inr e)
  scan_end-sources l b start outs (y ∷ is) s =
      let (ok, uses, value) = scan_end-sources l b start outs is _ in
      (
        λ e. (let (can, all) = ok e in (ground arith, λ i m. ground (arith, all i))),
        ground (arith, uses),
        λ x e. elim (value x e) [
          | inl later ↦ inl (ground (arith, later))
          | inr now ↦ elim (picked _ y x s.value_from_pe now) [
            | inl (here, same) ↦ inl (ground (arith, here, same))
            | inr old ↦ inr old
          ]
        ],
      )

  member-insert_both :
      (b c x start : ℕ) (value : Option ℕ) (hoisted : List (ℕ × List ℕ))
      → member x (find_set c (insert_both v b start value hoisted)) ≡ true
      → (member x (find_set c hoisted) ≡ true) ⊎ ((b ≡ c) × ((x ≡ start) ⊎ (value ≡ some x)))
  member-insert_both b c x start none hoisted m = inl m
  member-insert_both b c x start (some y) hoisted m =
      elim (Bool-cases (member x (find_set c hoisted))) [
        | inl old ↦ inl old
        | inr new ↦ elim (Bool-cases (y == x)) [
          | inl same ↦ inr (
            ground (
              arith,
              member-insert_at b c x y (insert_at b start hoisted),
              member-insert_at b c x start hoisted,
            ),
            inr (ap some (ground (arith, same))),
          )
          | inr other ↦ inr (
            ground (
              arith,
              member-insert_at b c x y (insert_at b start hoisted),
              member-insert_at b c x start hoisted,
            ),
            inl (
                ground (
                  arith,
                  member-insert_at b c x y (insert_at b start hoisted),
                  member-insert_at b c x start hoisted,
                )),
          )
        ]
      ]

  hoist_recurrence_sound :
      (h : HoistView) (l b c x start end : ℕ) (hoisted : List (ℕ × List ℕ))
      → v.loop_for b ≡ some l
      → find b h.starts ≡ some start
      → find b h.ends ≡ some end
      → member x (find_set c (hoist_recurrence v l b start end (find_set b h.outputs) hoisted))
        ≡ true
      → (member x (find_set c hoisted) ≡ true) ⊎ IsHoistable v h c x
  unfolding hoist_recurrence
  hoist_recurrence_sound h l b c x start end hoisted in_loop at_start at_end m =
      let outs = find_set b h.outputs in
      let s = end_scan v l b start end outs in
      let can = can_hoist_start v l b (v.users start) true && s.can_hoist_end && s.uses_start in
      let (sources, uses, value) =
        scan_end-sources l b start outs (v.incoming end)
          (record { can_hoist_end = true; uses_start = false; value_from_pe = none }) in
      elim (Bool-cases can) [
        | inr kept ↦ inl (rw kept at (m))
        | inl hoists ↦
            elim (member-insert_both b c x start s.value_from_pe hoisted (rw hoists at (m))) [
              | inl old ↦ inl old
              | inr (same, exchanged) ↦ inr (
                  rw (sym same) (record {
                    l = l;
                    start = start;
                    end = end;
                    in_loop = in_loop;
                    at_start = at_start;
                    at_end = at_end;
                    only_user =
                        (can_hoist_start-users l b (v.users start) true (ground (arith, hoists))).1;
                    only_source = (sources (ground (arith, hoists))).1;
                    carried = ground (arith, uses, hoists);
                    exchanged = elim exchanged [
                      | inl first ↦ inl first
                      | inr last ↦ elim (value x last) [
                        | inl inner ↦ inr inner
                        | inr empty ↦ (let never : ⊥ = cc in elim never [ ])
                      ]
                    ];
                  }))
            ]
      ]

  hoist_block_sound :
      (h : HoistView) (b c x : ℕ) (hoisted r : List (ℕ × List ℕ))
      → hoist_block v h b hoisted ≡ some r
      → member x (find_set c r) ≡ true
      → (member x (find_set c hoisted) ≡ true) ⊎ IsHoistable v h c x
  unfolding hoist_block
  hoist_block_sound h b c x hoisted r ends m = elim (option_cases (v.loop_for b)) [
    | inl outside ↦
        (let no : ⊥ = (let e = rw (hoist_block, outside) at (ends) in cc) in elim no [ ])
    | inr (l, in_loop) ↦
        (let e = rw (hoist_block, in_loop) at (ends) in
          elim (option_cases (find b h.starts)) [
            | inl missing ↦ (let no : ⊥ = (let e' = rw missing at (e) in cc) in elim no [ ])
            | inr (start, at_start) ↦
                (let e' = rw at_start at (e) in
                  elim (option_cases (find b h.ends)) [
                    | inl missing ↦
                        (let no : ⊥ = (let e'' = rw missing at (e') in cc) in elim no [ ])
                    | inr (end, at_end) ↦
                        (let e'' = rw at_end at (e') in
                          let same : hoist_recurrence v l b start end (find_set b h.outputs) hoisted
                              ≡ r =
                            cc in
                          hoist_recurrence_sound h l b c x start end hoisted in_loop at_start at_end
                            (rw same m))
                  ])
          ])
  ]

  -- collectDependenciesToHoist, where it ends, hoists for a block only the start of its recurrence
  -- and output dependencies of the block that the end of the recurrence takes, and only if the start
  -- is used in the loop by the block and the latch alone, all instructions that the end takes stand
  -- in the header or in the block, and the start is one of them.
  pub collect_dependencies_to_hoist_sound :
      (h : HoistView) (bs : List ℕ) (hoisted r : List (ℕ × List ℕ)) (c x : ℕ)
      → collect_dependencies_to_hoist v h bs hoisted ≡ some r
      → member x (find_set c r) ≡ true
      → (member x (find_set c hoisted) ≡ true) ⊎ IsHoistable v h c x
  unfolding collect_dependencies_to_hoist
  collect_dependencies_to_hoist_sound h [] hoisted r c x ends m =
      let same : hoisted ≡ r = cc in inl (rw same m)
  collect_dependencies_to_hoist_sound h (b ∷ bs) hoisted r c x ends m =
      elim (option_cases (hoist_block v h b hoisted)) [
        | inl null ↦
            (let no : ⊥ = (let e = rw (collect_dependencies_to_hoist, null) at (ends) in cc) in
              elim no [ ])
        | inr (next, now) ↦
            elim (collect_dependencies_to_hoist_sound h bs next r c x
              (rw (collect_dependencies_to_hoist, now) at (ends)) m) [
                | inl earlier ↦ hoist_block_sound h b c x hoisted next now earlier
                | inr good ↦ inr good
              ]
      ]

  hoist_block-some :
      (h : HoistView) (b l x y : ℕ) (hoisted : List (ℕ × List ℕ))
      → v.loop_for b ≡ some l
      → find b h.starts ≡ some x
      → find b h.ends ≡ some y
      → (r : List (ℕ × List ℕ)) × (hoist_block v h b hoisted ≡ some r)
  unfolding hoist_block
  hoist_block-some h b l x y hoisted in_loop at_start at_end = (
    hoist_recurrence v l b x y (find_set b h.outputs) hoisted,
    rw (hoist_block, in_loop, at_start, at_end) refl,
  )

  -- collectDependenciesToHoist follows no null pointer if each of its blocks is in a loop and has
  -- the start and the end of a recurrence.
  pub collect_dependencies_to_hoist-some :
      (h : HoistView) (bs : List ℕ) (hoisted : List (ℕ × List ℕ))
      → ((b : ℕ)
          → member b bs ≡ true
          → (l x y : ℕ) × (v.loop_for b ≡ some l)
            × (find b h.starts ≡ some x)
            × (find b h.ends ≡ some y))
      → collect_dependencies_to_hoist v h bs hoisted ≢ none
  unfolding collect_dependencies_to_hoist
  collect_dependencies_to_hoist-some h [] hoisted all e = (let no : ⊥ = cc in elim no [ ])
  collect_dependencies_to_hoist-some h (b ∷ bs) hoisted all e =
      let (l, x, y, in_loop, at_start, at_end) = all b (ground arith) in
      let (next, now) = hoist_block-some h b l x y hoisted in_loop at_start at_end in
      collect_dependencies_to_hoist-some h bs next (λ c m. all c (ground arith))
        (rw (collect_dependencies_to_hoist, now) at (e))
