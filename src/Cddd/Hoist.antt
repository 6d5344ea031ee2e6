-- ===== src/Cddd/Hoist.antt =====
-- collectDependenciesToHoist of lib/CDDDAnalysis.cpp: values that are exchanged with a decoupled block
-- once, before and after the loop.
use elastic_sycl_hls.Prelude.{
  ℕ, ◌≡◌, ◌⊎◌, ◌==◌, Bool, true, false, not, ◌&&◌, ◌||◌, if◌then◌else◌, Option, none, some, ◌>>=◌,
  List, [], ◌∷◌,
}
use elastic_sycl_hls.Prelude.Members.{member}
use elastic_sycl_hls.Cddd.Maps.{find, find_set, insert_at}
use elastic_sycl_hls.Cddd.View.{CdddView}

abbrev pub is_block : Option ℕ → ℕ → Bool
is_block none b = false
is_block (some c) b = c == b

-- canHoistEnd, recEndUsesRecStart and recEndValFromPE.
pub record EndScan : Type 0 where
  pub can_hoist_end : Bool
  pub uses_start : Bool
  pub value_from_pe : Option ℕ

-- What the earlier steps have collected of the decoupled blocks.
pub record HoistView : Type 0 where
  pub starts : List (ℕ × ℕ)
  pub ends : List (ℕ × ℕ)
  pub outputs : List (ℕ × List ℕ)

module _ (v : CdddView) where
  -- A user in the loop, but not in the decoupled block nor in the latch.
  abbrev pub is_used_elsewhere : ℕ → ℕ → ℕ → Bool
  is_used_elsewhere l b u =
      v.contains l (v.parent u) && not (v.parent u == b) && not (is_block (v.latch l) (v.parent u))

  unfoldable pub can_hoist_start : ℕ → ℕ → List ℕ → Bool → Bool
  can_hoist_start l b [] can = can
  can_hoist_start l b (u ∷ us) can =
      can_hoist_start l b us (if is_used_elsewhere l b u then false else can)

  -- The loop over the incoming values of the recurrence's end.
  unfoldable pub scan_end : ℕ → ℕ → ℕ → List ℕ → List ℕ → EndScan → EndScan
  scan_end l b start outs [] s = s
  scan_end l b start outs (i ∷ is) s =
      let foreign = not (v.parent i == v.header l) && not (v.parent i == b) in
      scan_end l b start outs is (record {
        can_hoist_end = if foreign then false else s.can_hoist_end;
        uses_start = if i == start then true else s.uses_start;
        value_from_pe = if not foreign && member i outs then some i else s.value_from_pe;
      })

  abbrev pub insert_both : ℕ → ℕ → Option ℕ → List (ℕ × List ℕ) → List (ℕ × List ℕ)
  insert_both b start none hoisted = hoisted
  insert_both b start (some value) hoisted = insert_at b value (insert_at b start hoisted)

  abbrev pub end_scan : ℕ → ℕ → ℕ → ℕ → List ℕ → EndScan
  end_scan l b start end outs =
      scan_end l b start outs (v.incoming end)
        (record { can_hoist_end = true; uses_start = false; value_from_pe = none })

  unfoldable pub hoist_recurrence : ℕ → ℕ → ℕ → ℕ → List ℕ → List (ℕ × List ℕ) → List (ℕ × List ℕ)
  hoist_recurrence l b start end outs hoisted =
      let s = end_scan l b start end outs in
      if can_hoist_start l b (v.users start) true && s.can_hoist_end && s.uses_start
      then insert_both b start s.value_from_pe hoisted
      else hoisted

  -- `none` where a null pointer is followed: a block outside loops, or without a recurrence.
  unfoldable pub hoist_block : HoistView → ℕ → List (ℕ × List ℕ) → Option (List (ℕ × List ℕ))
  hoist_block h b hoisted = do
    l ← v.loop_for b
    start ← find b h.starts
    end ← find b h.ends
    some (hoist_recurrence l b start end (find_set b h.outputs) hoisted)

  -- The loop over blockInputDependencies, given by its keys.
  unfoldable pub collect_dependencies_to_hoist :
      HoistView → List ℕ → List (ℕ × List ℕ) → Option (List (ℕ × List ℕ))
  collect_dependencies_to_hoist h [] hoisted = some hoisted
  collect_dependencies_to_hoist h (b ∷ bs) hoisted = do
    next ← hoist_block h b hoisted
    collect_dependencies_to_hoist h bs next

  -- What is to hold of a value that is hoisted for a block.
  pub record IsHoistable (h : HoistView) (b x : ℕ) : Type 0 where
    pub l : ℕ
    pub start : ℕ
    pub end : ℕ
    pub in_loop : v.loop_for b ≡ some l
    pub at_start : find b h.starts ≡ some start
    pub at_end : find b h.ends ≡ some end
    pub only_user : (u : ℕ) → member u (v.users start) ≡ true → is_used_elsewhere l b u ≡ false
    pub only_source :
        (i : ℕ)
        → member i (v.incoming end) ≡ true
        → ((v.parent i == v.header l) || (v.parent i == b)) ≡ true
    pub carried : member start (v.incoming end) ≡ true
    pub exchanged :
        (x ≡ start) ⊎ ((member x (v.incoming end) && member x (find_set b h.outputs)) ≡ true)
