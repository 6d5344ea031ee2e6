-- ===== src/Poison/Groups.antt =====
-- The entries of `requestsForPath` in calculatePoisonBlocks of lib/DataHazardAnalysis.cpp: how they
-- are built, and what one edge of a path does to the entry of a block.
use elastic_sycl_hls.Prelude.{
  ℕ, ◌≡◌, ◌⊎◌, inl, inr, ◌==◌, sym, refl, arith, Bool, true, false, not, ◌&&◌, ◌||◌, if◌then◌else◌,
  List, [], ◌∷◌, ◌++◌,
}
use mathlib.Core.List.{append-nil, append_assoc}
use elastic_sycl_hls.Poison.{
  CfgEdge, Group, poison_at, visit_groups, add_request, requests_for_path,
}

abbrev pub has_group : ℕ → List Group → Bool
has_group t [] = false
has_group t ((u, rs) ∷ gs) = (u == t) || has_group t gs

-- The requests of a block.
abbrev pub requests_of : ℕ → List Group → List ℕ
requests_of t [] = []
requests_of t ((u, rs) ∷ gs) = if u == t then rs else requests_of t gs

requests_of-none : (t : ℕ) (gs : List Group) → has_group t gs ≡ false → requests_of t gs ≡ []
requests_of-none t [] h = refl
requests_of-none t ((u, rs) ∷ gs) h = ground (arith, requests_of-none t gs)

module _ (parent : ℕ → ℕ) (is_reachable : ℕ → ℕ → Bool) where
  abbrev pub all_in : ℕ → List ℕ → Bool
  all_in t [] = true
  all_in t (r ∷ rs) = (parent r == t) && all_in t rs

  -- One entry for each block, which holds requests of that block.
  abbrev pub grouped : List Group → Bool
  grouped [] = true
  grouped ((t, rs) ∷ gs) = all_in t rs && not (has_group t gs) && grouped gs

  -- What is poisoned of the requests of a block.
  abbrev pub poisons_of : ℕ → List (ℕ × CfgEdge) → List (ℕ × CfgEdge)
  poisons_of t [] = []
  poisons_of t ((r, e) ∷ ps) = if parent r == t then (r, e) ∷ poisons_of t ps else poisons_of t ps

  pub poisons_of-append :
      (t : ℕ) (ps qs : List (ℕ × CfgEdge))
      → poisons_of t (ps ++ qs) ≡ poisons_of t ps ++ poisons_of t qs
  poisons_of-append t [] qs = refl
  poisons_of-append t ((r, e) ∷ ps) qs = ground (arith, poisons_of-append t ps qs)

  poisons_of-poison_at :
      (t u : ℕ) (e : CfgEdge) (rs : List ℕ)
      → all_in u rs ≡ true
      → poisons_of t (poison_at e rs) ≡ (if u == t then poison_at e rs else [])
  poisons_of-poison_at t u e [] h = ground arith
  poisons_of-poison_at t u e (r ∷ rs) h = ground (arith, poisons_of-poison_at t u e rs)

  pub visit_groups-grouped :
      (e : CfgEdge) (gs : List Group)
      → grouped gs ≡ true
      → (grouped (visit_groups is_reachable e gs).0 ≡ true)
        × ((t : ℕ) → has_group t (visit_groups is_reachable e gs).0 ≡ has_group t gs)
  unfolding visit_groups
  visit_groups-grouped e [] h = (refl, λ t. refl)
  visit_groups-grouped e ((u, []) ∷ gs) h =
      let (g, k) = visit_groups-grouped e gs (ground arith) in
      (ground (arith, k u), λ t. ground (arith, k t))
  visit_groups-grouped e ((u, r ∷ rs) ∷ gs) h =
      let (g, k) = visit_groups-grouped e gs (ground arith) in
      (ground (arith, g, k u), λ t. ground (arith, k t))

  -- A block without an entry, or whose entry is cleared, has nothing poisoned.
  pub visit_groups-cleared :
      (t : ℕ) (e : CfgEdge) (gs : List Group)
      → grouped gs ≡ true
      → requests_of t gs ≡ []
      → (requests_of t (visit_groups is_reachable e gs).0 ≡ [])
        × (poisons_of t (visit_groups is_reachable e gs).1 ≡ [])
  unfolding visit_groups
  visit_groups-cleared t e [] h c = (refl, refl)
  visit_groups-cleared t e ((u, []) ∷ gs) h c =
      ground (arith, requests_of-none t gs, visit_groups-cleared t e gs)
  visit_groups-cleared t e ((u, r ∷ rs) ∷ gs) h c = ground (
    arith,
    visit_groups-cleared t e gs,
    poisons_of-append t (poison_at e rs) (visit_groups is_reachable e gs).1,
    poisons_of-poison_at t u e rs,
  )

  -- Of a block with requests that the edge does not lead to: they stay if the block can still be
  -- reached; if not, they stay or are all poisoned at the edge, the latter if the edge leads to
  -- no block with an entry.
  pub visit_groups-either :
      (t : ℕ) (e : CfgEdge) (gs : List Group)
      → grouped gs ≡ true
      → (e.1 == t) ≡ false
      → ((requests_of t (visit_groups is_reachable e gs).0 ≡ requests_of t gs)
          × (poisons_of t (visit_groups is_reachable e gs).1 ≡ [])
          × ((is_reachable e.1 t ≡ true) ⊎ (has_group e.1 gs ≡ true) ⊎ (requests_of t gs ≡ [])))
        ⊎ ((requests_of t (visit_groups is_reachable e gs).0 ≡ [])
            × (poisons_of t (visit_groups is_reachable e gs).1 ≡ poison_at e (requests_of t gs))
            × (is_reachable e.1 t ≡ false))
  unfolding visit_groups
  visit_groups-either t e [] h ne = inl (refl, refl, inr (inr refl))
  visit_groups-either t e ((u, []) ∷ gs) h ne = ground (
    arith,
    visit_groups-either t e gs,
    visit_groups-cleared t e gs,
    requests_of-none t gs,
    visit_groups-grouped e gs,
  )
  visit_groups-either t e ((u, r ∷ rs) ∷ gs) h ne = ground (
    arith,
    visit_groups-either t e gs,
    visit_groups-cleared t e gs,
    requests_of-none t gs,
    poisons_of-append t (poison_at e rs) (visit_groups is_reachable e gs).1,
    poisons_of-poison_at t u e rs,
    append-nil (poison_at e rs),
  )

  pub visit_groups-reached :
      (t : ℕ) (e : CfgEdge) (gs : List Group)
      → grouped gs ≡ true
      → (e.1 == t) ≡ true
      → (requests_of t (visit_groups is_reachable e gs).0 ≡ [])
        × (poisons_of t (visit_groups is_reachable e gs).1 ≡ [])
  unfolding visit_groups
  visit_groups-reached t e [] h eq = (refl, refl)
  visit_groups-reached t e ((u, []) ∷ gs) h eq =
      ground
        (arith, requests_of-none t gs, visit_groups-reached t e gs, visit_groups-cleared t e gs)
  visit_groups-reached t e ((u, r ∷ rs) ∷ gs) h eq = ground (
    arith,
    visit_groups-reached t e gs,
    poisons_of-append t (poison_at e rs) (visit_groups is_reachable e gs).1,
    poisons_of-poison_at t u e rs,
  )

-- The requests that stand in a block.
abbrev pub standing_in : (ℕ → ℕ) → ℕ → List ℕ → List ℕ
standing_in parent t [] = []
standing_in parent t (r ∷ rs) =
    if parent r == t then r ∷ standing_in parent t rs else standing_in parent t rs

module _ (parent : ℕ → ℕ) (is_reachable : ℕ → ℕ → Bool) where
  all_in-append :
      (t r : ℕ) (rs : List ℕ)
      → all_in parent is_reachable t (rs ++ r ∷ [])
        ≡ (all_in parent is_reachable t rs && (parent r == t))
  all_in-append t r [] = ground arith
  all_in-append t r (x ∷ rs) = ground (arith, all_in-append t r rs)

  has_group-add_request :
      (t b r : ℕ) (gs : List Group)
      → has_group t (add_request b r gs) ≡ (has_group t gs || (b == t))
  unfolding add_request
  has_group-add_request t b r [] = ground arith
  has_group-add_request t b r ((u, rs) ∷ gs) = ground (arith, has_group-add_request t b r gs)

  add_request-grouped :
      (r : ℕ) (gs : List Group)
      → grouped parent is_reachable gs ≡ true
      → grouped parent is_reachable (add_request (parent r) r gs) ≡ true
  unfolding add_request
  add_request-grouped r [] h = ground arith
  add_request-grouped r ((u, rs) ∷ gs) h = ground (
    arith,
    add_request-grouped r gs,
    all_in-append u r rs,
    has_group-add_request u (parent r) r gs,
  )

  requests_of-add_request :
      (t r : ℕ) (gs : List Group)
      → requests_of t (add_request (parent r) r gs)
        ≡ requests_of t gs ++ standing_in parent t (r ∷ [])
  unfolding add_request
  requests_of-add_request t r [] = ground arith
  requests_of-add_request t r ((u, rs) ∷ gs) = ground (
    arith,
    requests_of-add_request t r gs,
    append-nil (requests_of t ((u, rs) ∷ gs)),
    append-nil rs,
    append-nil (requests_of t gs),
  )

  -- The entries that the requests of a speculation block make.
  pub requests_for_path-groups :
      (rs : List ℕ) (gs : List Group)
      → grouped parent is_reachable gs ≡ true
      → (grouped parent is_reachable (requests_for_path parent rs gs) ≡ true)
        × ((t : ℕ)
            → requests_of t (requests_for_path parent rs gs)
              ≡ requests_of t gs ++ standing_in parent t rs)
  unfolding requests_for_path
  requests_for_path-groups [] gs h = (h, λ t. sym (append-nil (requests_of t gs)))
  requests_for_path-groups (r ∷ rs) gs h =
      let (g, k) =
        requests_for_path-groups rs (add_request (parent r) r gs) (add_request-grouped r gs h) in
      (
        g,
        λ t. ground (
          arith,
          k t,
          requests_of-add_request t r gs,
          append_assoc (requests_of t gs) (r ∷ []) (standing_in parent t rs),
          append-nil (requests_of t gs),
        ),
      )
