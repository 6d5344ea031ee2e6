-- ===== src/Poison/Edges.antt =====
-- The edges at which the walk of calculatePoisonBlocks (lib/DataHazardAnalysis.cpp) along one path
-- poisons a request.
use elastic_sycl_hls.Prelude.{
  ℕ, ◌≡◌, inl, inr, refl, arith, ◌==◌, Bool, true, false, ◌&&◌, ◌||◌, some, List, [], ◌∷◌,
  Bool-cases,
}
use elastic_sycl_hls.Prelude.Members.{any, any-append, member}
use elastic_sycl_hls.Poison.{
  CfgEdge, Group, edges_from, poison_at, visit_groups, poison_path, add_request, requests_for_path,
}
use elastic_sycl_hls.Flow.{FlowGraph, LoopInfo}
use elastic_sycl_hls.Flow.Paths.{LoopPath}
use elastic_sycl_hls.Poison.Groups.{poisons_of, standing_in}
use elastic_sycl_hls.Poison.Paths.{IsLoop, LoopPath-contained}
use elastic_sycl_hls.Poison.Blocks.{Location, same_location, has_location}

abbrev pub same_edge : CfgEdge → CfgEdge → Bool
same_edge e d = (e.0 == d.0) && (e.1 == d.1)

-- A request in the entry of a block.
abbrev in_group : ℕ → ℕ → List Group → Bool
in_group r t gs = any (λ g. (g.0 == t) && member r g.1) gs

pub has_location-poison_at :
    (r : ℕ) (d e : CfgEdge) (rs : List ℕ)
    → has_location (r, e) (poison_at d rs) ≡ (member r rs && same_edge e d)
has_location-poison_at r d e [] = refl
has_location-poison_at r d e (x ∷ rs) = ground (arith, has_location-poison_at r d e rs)

module _ (is_reachable : ℕ → ℕ → Bool) where
  visit_groups-in_group :
      (d : CfgEdge) (gs : List Group) (r t : ℕ)
      → in_group r t (visit_groups is_reachable d gs).0 ≡ true
      → in_group r t gs ≡ true
  unfolding visit_groups
  visit_groups-in_group d [] r t m = m
  visit_groups-in_group d ((u, []) ∷ gs) r t m = ground (arith, visit_groups-in_group d gs r t)
  visit_groups-in_group d ((u, x ∷ xs) ∷ gs) r t m = ground (arith, visit_groups-in_group d gs r t)

  -- A request is poisoned at an edge from which its block is not reached.
  visit_groups-poisons :
      (d : CfgEdge) (gs : List Group) (r : ℕ) (e : CfgEdge)
      → has_location (r, e) (visit_groups is_reachable d gs).1 ≡ true
      → (t : ℕ) × (in_group r t gs ≡ true) × (is_reachable e.1 t ≡ false) × (same_edge e d ≡ true)
  unfolding visit_groups
  visit_groups-poisons d [] r e m = (let no : ⊥ = cc in elim no [ ])
  visit_groups-poisons d ((u, []) ∷ gs) r e m =
      let (t, i, un, at) = visit_groups-poisons d gs r e m in (t, ground (arith, i), un, at)
  visit_groups-poisons d ((u, x ∷ xs) ∷ gs) r e m = elim (Bool-cases (d.1 == u)) [
    | inl reached ↦ (let no : ⊥ = ground arith in elim no [ ])
    | inr apart ↦ elim (Bool-cases (is_reachable d.1 u)) [
      | inl later ↦
          (let (t, i, un, at) = visit_groups-poisons d gs r e (ground arith) in
            (t, ground (arith, i), un, at))
      | inr unreachable ↦
          (let rest : List Location = (visit_groups is_reachable d gs).1 in
            let here = has_location-poison_at r d e (x ∷ xs) in
            let split = any-append (same_location (r, e)) (poison_at d (x ∷ xs)) rest in
            elim (Bool-cases (has_location (r, e) (poison_at d (x ∷ xs)))) [
              | inl new ↦
                  (let at : same_edge e d ≡ true = ground (arith, here, new) in
                    let to : e.1 ≡ d.1 = ground (arith, at) in
                    (u, ground (arith, here, new), rw to unreachable, at))
              | inr old ↦
                  (let (t, i, un, at) =
                      visit_groups-poisons d gs r e (ground (arith, split, old)) in
                    (t, ground (arith, i), un, at))
            ])
    ]
  ]

  pub poison_path-poisons :
      (es : List CfgEdge) (gs : List Group) (r : ℕ) (e : CfgEdge)
      → has_location (r, e) (poison_path is_reachable es gs) ≡ true
      → (t : ℕ) × (in_group r t gs ≡ true)
        × (is_reachable e.1 t ≡ false)
        × (any (same_edge e) es ≡ true)
  unfolding poison_path
  poison_path-poisons [] gs r e m = (let no : ⊥ = cc in elim no [ ])
  poison_path-poisons (d ∷ es) gs r e m =
      let gs' : List Group = (visit_groups is_reachable d gs).0 in
      let new : List Location = (visit_groups is_reachable d gs).1 in
      let split = any-append (same_location (r, e)) new (poison_path is_reachable es gs') in
      elim (Bool-cases (has_location (r, e) new)) [
        | inl here ↦
            (let (t, i, un, at) = visit_groups-poisons d gs r e here in
              (t, i, un, ground (arith, at)))
        | inr later ↦
            (let (t, i, un, at) = poison_path-poisons es gs' r e (ground (arith, split, later)) in
              (t, visit_groups-in_group d gs r t i, un, ground (arith, at)))
      ]

in_group-add_request :
    (b x : ℕ) (gs : List Group) (r t : ℕ)
    → in_group r t (add_request b x gs) ≡ (((b == t) && (x == r)) || in_group r t gs)
unfolding add_request
in_group-add_request b x [] r t = ground arith
in_group-add_request b x ((u, rs) ∷ gs) r t =
    ground (arith, in_group-add_request b x gs r t, any-append (λ y. y == r) rs (x ∷ []))

pub in_group-requests_for_path :
    (parent : ℕ → ℕ) (xs : List ℕ) (gs : List Group) (r t : ℕ)
    → in_group r t (requests_for_path parent xs gs) ≡ true
    → (((parent r == t) && member r xs) || in_group r t gs) ≡ true
unfolding requests_for_path
in_group-requests_for_path parent [] gs r t m = ground arith
in_group-requests_for_path parent (x ∷ xs) gs r t m =
    let rest = in_group-requests_for_path parent xs (add_request (parent x) x gs) r t m in
    let added = in_group-add_request (parent x) x gs r t in
    elim (Bool-cases (x == r)) [
      | inl same ↦ (let e : x ≡ r = ground (arith, same) in ground (arith, rest, added, e))
      | inr other ↦ ground (arith, rest, added, other)
    ]

pub standing_in-member :
    (parent : ℕ → ℕ) (r : ℕ) (requests : List ℕ)
    → member r requests ≡ true
    → member r (standing_in parent (parent r) requests) ≡ true
standing_in-member parent r [] m = (let no : ⊥ = cc in elim no [ ])
standing_in-member parent r (x ∷ xs) m = elim (Bool-cases (x == r)) [
  | inl same ↦ (let e : x ≡ r = ground (arith, same) in rw e (ground arith))
  | inr other ↦ ground (arith, standing_in-member parent r xs)
]

pub has_location-poisons_of :
    (parent : ℕ → ℕ) (is_reachable : ℕ → ℕ → Bool) (t : ℕ) (x : Location) (ps : List Location)
    → has_location x (poisons_of parent is_reachable t ps) ≡ true
    → has_location x ps ≡ true
has_location-poisons_of parent is_reachable t x [] h = h
has_location-poisons_of parent is_reachable t x ((r, e) ∷ ps) h =
    ground (arith, has_location-poisons_of parent is_reachable t x ps)

-- An edge of the path from a block by the given blocks.
abbrev pub on_path : CfgEdge → ℕ → List ℕ → Bool
on_path e x [] = false
on_path e x (y ∷ ys) = ((e.0 == x) && (e.1 == y)) || on_path e y ys

pub on_path-edges_from :
    (e : CfgEdge) (x : ℕ) (ys : List ℕ)
    → any (same_edge e) (edges_from (some x) ys) ≡ on_path e x ys
unfolding edges_from
on_path-edges_from e x [] = refl
on_path-edges_from e x (y ∷ ys) = ground (arith, on_path-edges_from e y ys)

pub on_path-contained :
    (f : FlowGraph) (l : LoopInfo) (e : CfgEdge) (x : ℕ) (ys : List ℕ)
    → IsLoop f l
    → LoopPath f l.latch x ys
    → on_path e x ys ≡ true
    → l.contains e.1 ≡ true
on_path-contained f l e x [] is_loop path on = (let no : ⊥ = cc in elim no [ ])
on_path-contained f l e x (y ∷ ys) is_loop (LoopPath.step _ _ _ ne edge inner path) on =
    elim (Bool-cases (on_path e y ys)) [
      | inl later ↦ on_path-contained f l e y ys is_loop path later
      | inr last ↦
          (let to : e.1 ≡ y = ground (arith, on, last) in
            rw to (LoopPath-contained f l y ys is_loop path))
    ]
