-- ===== src/Poison/Once.antt =====
-- On every path a speculated request gets its value or a poison, and not both
-- (calculatePoisonBlocks of lib/DataHazardAnalysis.cpp).
use elastic_sycl_hls.Prelude.{
  ℕ, ◌≡◌, inl, inr, ◌==◌, ◌∙◌, ap, refl, arith, Bool, true, false, not, ◌&&◌, ◌||◌, List, [], ◌∷◌,
  Bool-cases, none,
}
use mathlib.Core.List.{append-nil}
use elastic_sycl_hls.Poison.{
  CfgEdge, Group, edges_from, poison_at, visit_groups, poison_path, requests_for_path,
}
use elastic_sycl_hls.Poison.Groups.{
  has_group, requests_of, grouped, poisons_of, poisons_of-append, visit_groups-grouped,
  visit_groups-cleared, visit_groups-either, visit_groups-reached, standing_in,
  requests_for_path-groups,
}

module _ (parent : ℕ → ℕ) (is_reachable : ℕ → ℕ → Bool) where
  abbrev pub visited : ℕ → List CfgEdge → Bool
  visited t [] = false
  visited t (e ∷ es) = (e.1 == t) || visited t es

  -- A block from which the path goes on to `t` reaches `t`.
  abbrev pub reaches_what_follows : ℕ → List CfgEdge → Bool
  reaches_what_follows t [] = true
  reaches_what_follows t (e ∷ es) =
      (not (visited t es) || is_reachable e.1 t) && reaches_what_follows t es

  -- The last block of the path does not reach `t`, and holds none of the requests.
  abbrev pub ends_past : ℕ → List Group → List CfgEdge → Bool
  ends_past t gs [] = false
  ends_past t gs (e ∷ []) = not (is_reachable e.1 t) && not (has_group e.1 gs)
  ends_past t gs (e ∷ f ∷ es) = ends_past t gs (f ∷ es)

  ends_past-same :
      (t : ℕ) (gs gs' : List Group) (es : List CfgEdge)
      → ((u : ℕ) → has_group u gs' ≡ has_group u gs)
      → ends_past t gs' es ≡ ends_past t gs es
  ends_past-same t gs gs' [] same = refl
  ends_past-same t gs gs' (e ∷ []) same = ground (arith, same e.1)
  ends_past-same t gs gs' (e ∷ f ∷ es) same = ends_past-same t gs gs' (f ∷ es) same

  poison_path-cleared :
      (t : ℕ) (es : List CfgEdge) (gs : List Group)
      → grouped parent is_reachable gs ≡ true
      → requests_of t gs ≡ []
      → poisons_of parent is_reachable t (poison_path is_reachable es gs) ≡ []
  unfolding poison_path
  poison_path-cleared t [] gs h c = refl
  poison_path-cleared t (e ∷ es) gs h c =
      let (g, k) = visit_groups-grouped parent is_reachable e gs h in
      let (c', none_here) = visit_groups-cleared parent is_reachable t e gs h c in
      poisons_of-append parent is_reachable t (visit_groups is_reachable e gs).1
        (poison_path is_reachable es (visit_groups is_reachable e gs).0)
      ∙ ground (arith, none_here, poison_path-cleared t es (visit_groups is_reachable e gs).0 g c')

  poison_path-visited :
      (t : ℕ) (es : List CfgEdge) (gs : List Group)
      → grouped parent is_reachable gs ≡ true
      → reaches_what_follows t es ≡ true
      → visited t es ≡ true
      → poisons_of parent is_reachable t (poison_path is_reachable es gs) ≡ []
  unfolding poison_path
  poison_path-visited t [] gs h sound v = refl
  poison_path-visited t (e ∷ es) gs h sound v =
      let gs' : List Group = (visit_groups is_reachable e gs).0 in
      let (g, k) = visit_groups-grouped parent is_reachable e gs h in
      poisons_of-append parent is_reachable t (visit_groups is_reachable e gs).1
        (poison_path is_reachable es gs')
      ∙ elim (Bool-cases (e.1 == t)) [
        | inl eq ↦
            (let (c, none_here) = visit_groups-reached parent is_reachable t e gs h eq in
              ground (arith, none_here, poison_path-cleared t es gs' g c))
        | inr ne ↦ ground (
          arith,
          visit_groups-either parent is_reachable t e gs h ne,
          poison_path-visited t es gs' g (ground arith) (ground arith),
        )
      ]

  poison_path-avoided :
      (t : ℕ) (es : List CfgEdge) (gs : List Group)
      → grouped parent is_reachable gs ≡ true
      → visited t es ≡ false
      → ends_past t gs es ≡ true
      → (e : CfgEdge) × (poisons_of parent is_reachable t (poison_path is_reachable es gs)
          ≡ poison_at e (requests_of t gs))
        × (is_reachable e.1 t ≡ false)
  unfolding poison_path
  poison_path-avoided t [] gs h v past = ground arith
  poison_path-avoided t (e ∷ []) gs h v past =
      elim (visit_groups-either parent is_reachable t e gs h (ground arith)) [
        | inl (same, none_here, why) ↦ (
          e,
          poisons_of-append parent is_reachable t (visit_groups is_reachable e gs).1 []
              ∙ ground (arith, none_here, why),
          ground arith,
        )
        | inr (gone, here, unreachable) ↦ (
          e,
          poisons_of-append parent is_reachable t (visit_groups is_reachable e gs).1 []
              ∙ ground (arith, here, append-nil (poison_at e (requests_of t gs))),
          unreachable,
        )
      ]
  poison_path-avoided t (e ∷ f ∷ es) gs h v past =
      let gs' : List Group = (visit_groups is_reachable e gs).0 in
      let (g, k) = visit_groups-grouped parent is_reachable e gs h in
      let split =
        poisons_of-append parent is_reachable t (visit_groups is_reachable e gs).1
          (poison_path is_reachable (f ∷ es) gs') in
      elim (visit_groups-either parent is_reachable t e gs h (ground arith)) [
        | inl (same, none_here, why) ↦
            (let (later, poisoned, unreachable) =
                poison_path-avoided t (f ∷ es) gs' g (ground arith)
                  (ends_past-same t gs gs' (f ∷ es) k ∙ past) in
              (later, split ∙ ground (arith, none_here, poisoned, same), unreachable))
        | inr (gone, here, unreachable) ↦ (
          e,
          split
              ∙ ground (
                arith,
                here,
                poison_path-cleared t (f ∷ es) gs' g gone,
                append-nil (poison_at e (requests_of t gs)),
              ),
          unreachable,
        )
      ]

module _ (parent : ℕ → ℕ) (is_reachable : ℕ → ℕ → Bool) (requests path : List ℕ) (t : ℕ) where
  -- What is poisoned on a path of the requests that stand in block T.
  abbrev pub path_poisons : List (ℕ × CfgEdge)
  path_poisons =
      poisons_of parent is_reachable t
        (poison_path is_reachable (edges_from none path) (requests_for_path parent requests []))

  -- If a path visits a block T after its start, and every block of it from which it goes on to T
  -- reaches T, then none of the requests of T is poisoned on the path.
  pub path_poisons-visited :
      reaches_what_follows parent is_reachable t (edges_from none path) ≡ true
      → visited parent is_reachable t (edges_from none path) ≡ true
      → path_poisons ≡ []
  path_poisons-visited sound v =
      poison_path-visited parent is_reachable t (edges_from none path)
        (requests_for_path parent requests [])
        (requests_for_path-groups parent is_reachable requests [] refl).0 sound v

  -- If a path does not visit a block T after its start, and ends in a block that does not reach T and
  -- holds no request, then all requests of T are poisoned on the path, each once, and at one edge,
  -- which leads to a block that does not reach T.
  pub path_poisons-avoided :
      visited parent is_reachable t (edges_from none path) ≡ false
      → ends_past parent is_reachable t
          (requests_for_path parent requests [])
          (edges_from none path)
        ≡ true
      → (e : CfgEdge) × (path_poisons ≡ poison_at e (standing_in parent t requests))
        × (is_reachable e.1 t ≡ false)
  path_poisons-avoided v past =
      let (g, k) = requests_for_path-groups parent is_reachable requests [] refl in
      let (e, poisoned, unreachable) =
        poison_path-avoided parent is_reachable t (edges_from none path)
          (requests_for_path parent requests []) g v past in
      (e, poisoned ∙ ap (poison_at e) (k t), unreachable)
