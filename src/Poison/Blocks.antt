-- ===== src/Poison/Blocks.antt =====
-- The whole of calculatePoisonBlocks (lib/DataHazardAnalysis.cpp): the loops over the speculation
-- blocks and their paths, and the map `poisonLocations`.
use elastic_sycl_hls.Prelude.{
  ℕ, suc, ◌<◌, ◌≡◌, ◌⊎◌, ◌↔◌, inl, inr, refl, ◌∙◌, arith, ◌==◌, Bool, true, ◌&&◌, ◌||◌,
  if◌then◌else◌, Option, none, some, List, [], ◌∷◌, ◌++◌, Bool-cases, ◌>>=◌,
}
use elastic_sycl_hls.Prelude.Members.{any, any-append}
use elastic_sycl_hls.Flow.{FlowGraph, LoopInfo, get_all_block_paths_in_loop}
use elastic_sycl_hls.Flow.Paths.{LoopPath, PathIn}
use elastic_sycl_hls.Flow.PathCount.{IsRanked, path_steps, get_all_block_paths_in_loop_iff}
use elastic_sycl_hls.Poison.{CfgEdge, edges_from, requests_for_path, poison_path}
use elastic_sycl_hls.Poison.Paths.{reaches}

-- A request that is poisoned on an edge.
abbrev pub Location : Type 0
Location = ℕ × CfgEdge

abbrev pub same_location : Location → Location → Bool
same_location (r, (s, d)) (r', (s', d')) = (r == r') && (s == s') && (d == d')

abbrev pub has_location : Location → List Location → Bool
has_location x ls = any (same_location x) ls

-- `poisonLocations[r].insert(edge)`
abbrev pub insert_location : Location → List Location → List Location
insert_location x ls = if has_location x ls then ls else ls ++ x ∷ []

unfoldable pub insert_locations : List Location → List Location → List Location
insert_locations [] ls = ls
insert_locations (x ∷ xs) ls = insert_locations xs (insert_location x ls)

module _ (f : FlowGraph) (parent : ℕ → ℕ) where
  -- What one path poisons. A path is given without its first block.
  abbrev pub poisons_on : LoopInfo → ℕ → List ℕ → List ℕ → List Location
  poisons_on l b requests ys =
      poison_path (reaches f l) (edges_from none (b ∷ ys)) (requests_for_path parent requests [])

  -- The loop over the paths.
  unfoldable pub poison_paths :
      LoopInfo → ℕ → List ℕ → List (List ℕ) → List Location → List Location
  poison_paths l b requests [] ls = ls
  poison_paths l b requests (ys ∷ paths) ls =
      poison_paths l b requests paths (insert_locations (poisons_on l b requests ys) ls)

  -- The loop over `requestMap`: speculation blocks, which lie in loops, and their requests.
  unfoldable pub calculate_poison_blocks :
      ℕ → (ℕ → LoopInfo) → List (ℕ × List ℕ) → List Location → Option (List Location)
  calculate_poison_blocks fuel loop_for [] ls = some ls
  calculate_poison_blocks fuel loop_for ((b, requests) ∷ entries) ls = do
    paths ← get_all_block_paths_in_loop f fuel b (loop_for b).latch
    calculate_poison_blocks fuel loop_for entries (poison_paths (loop_for b) b requests paths ls)

same_location_trans :
    (x y z : Location) → same_location y z ≡ true → same_location x y ≡ same_location x z
same_location_trans (r, (s, d)) (r', (s', d')) (r'', (s'', d'')) e = ground arith

has_location-same :
    (x y : Location) (ls : List Location)
    → has_location y ls ≡ true
    → same_location x y ≡ true
    → has_location x ls ≡ true
has_location-same x y [] h e = (let no : ⊥ = cc in elim no [ ])
has_location-same x y (z ∷ ls) h e =
    ground (arith, same_location_trans x y z, has_location-same x y ls)

has_location-insert_location :
    (x y : Location) (ls : List Location)
    → has_location x (insert_location y ls) ≡ (same_location x y || has_location x ls)
has_location-insert_location x y ls = elim (Bool-cases (has_location y ls)) [
  | inl old ↦ rw old (ground (arith, has_location-same x y ls))
  | inr new ↦ rw new (any-append (same_location x) ls (y ∷ []) ∙ ground arith)
]

has_location-insert_locations :
    (x : Location) (xs ls : List Location)
    → has_location x (insert_locations xs ls) ≡ (has_location x xs || has_location x ls)
unfolding insert_locations
has_location-insert_locations x [] ls = refl
has_location-insert_locations x (y ∷ xs) ls =
    has_location-insert_locations x xs (insert_location y ls)
    ∙ ground (arith, has_location-insert_location x y ls)

any-PathIn :
    (p : List ℕ → Bool) (paths : List (List ℕ))
    → any p paths ≡ true
    → (ys : List ℕ) × PathIn ys paths × (p ys ≡ true)
any-PathIn p [] e = (let no : ⊥ = cc in elim no [ ])
any-PathIn p (ys ∷ paths) e = elim (Bool-cases (p ys)) [
  | inl here ↦ (ys, PathIn.here paths, here)
  | inr later ↦
      (let (zs, i, h) = any-PathIn p paths (ground arith) in (zs, PathIn.there ys paths i, h))
]

PathIn-any :
    (p : List ℕ → Bool) (ys : List ℕ) (paths : List (List ℕ))
    → PathIn ys paths
    → p ys ≡ true
    → any p paths ≡ true
PathIn-any p ys [] i h = elim i [ ]
PathIn-any p _ (zs ∷ paths) (PathIn.here _) h = ground arith
PathIn-any p ys (zs ∷ paths) (PathIn.there _ _ i) h = ground (arith, PathIn-any p ys paths i h)

module _ (f : FlowGraph) (parent : ℕ → ℕ) where
  has_location-poison_paths :
      (x : Location) (l : LoopInfo) (b : ℕ) (requests : List ℕ) (paths : List (List ℕ))
      (ls : List Location)
      → has_location x (poison_paths f parent l b requests paths ls) ≡ (
          any (λ ys. has_location x (poisons_on f parent l b requests ys)) paths
          || has_location x ls)
  unfolding poison_paths
  has_location-poison_paths x l b requests [] ls = refl
  has_location-poison_paths x l b requests (ys ∷ paths) ls =
      let new : List Location = poisons_on f parent l b requests ys in
      has_location-poison_paths x l b requests paths (insert_locations new ls)
      ∙ ground (arith, has_location-insert_locations x new ls)

  -- A path from one of the speculation blocks to the latch of its loop poisons the request there.
  pub data IsPoisoned (loop_for : ℕ → LoopInfo) (x : Location) : List (ℕ × List ℕ) → Type 0 where
    on_path :
        (b : ℕ) (requests ys : List ℕ) (entries : List (ℕ × List ℕ))
        → LoopPath f (loop_for b).latch b ys
        → has_location x (poisons_on f parent (loop_for b) b requests ys) ≡ true
        → IsPoisoned loop_for x ((b, requests) ∷ entries)
    later :
        (b : ℕ) (requests : List ℕ) (entries : List (ℕ × List ℕ))
        → IsPoisoned loop_for x entries
        → IsPoisoned loop_for x ((b, requests) ∷ entries)

  IsPoisoned-cases :
      (loop_for : ℕ → LoopInfo) (x : Location) (b : ℕ) (requests : List ℕ)
      (entries : List (ℕ × List ℕ))
      → IsPoisoned loop_for x ((b, requests) ∷ entries)
      → ((ys : List ℕ) × LoopPath f (loop_for b).latch b ys
          × (has_location x (poisons_on f parent (loop_for b) b requests ys) ≡ true))
        ⊎ IsPoisoned loop_for x entries
  IsPoisoned-cases loop_for x _ _ _ (IsPoisoned.on_path b requests ys entries path at) =
      inl (ys, path, at)
  IsPoisoned-cases loop_for x _ _ _ (IsPoisoned.later b requests entries p) = inr p

  abbrev pub IsEnoughFor : (ℕ → ℕ) → ℕ → List (ℕ × List ℕ) → Type 0
  IsEnoughFor rank fuel entries =
      (b : ℕ) → any (λ e. e.0 == b) entries ≡ true → path_steps f (suc (rank b)) b < fuel

-- calculatePoisonBlocks ends, in a graph whose blocks are ranked, and an edge is in the poison
-- locations of a request exactly if it was before, or a path from a speculation block to the latch of
-- its loop poisons the request on that edge. The fuel is enough for the paths of each speculation block.
pub calculate_poison_blocks_iff :
    (f : FlowGraph) (parent : ℕ → ℕ) (rank : ℕ → ℕ) (fuel : ℕ) (loop_for : ℕ → LoopInfo)
    (entries : List (ℕ × List ℕ)) (ls : List Location)
    → IsRanked f rank
    → IsEnoughFor f parent rank fuel entries
    → (r : List Location) × (calculate_poison_blocks f parent fuel loop_for entries ls ≡ some r)
      × ((x : Location)
          → (has_location x r ≡ true)
            ↔ ((has_location x ls ≡ true) ⊎ IsPoisoned f parent loop_for x entries))
unfolding calculate_poison_blocks
calculate_poison_blocks_iff f parent rank fuel loop_for [] ls ranked enough =
    (ls, refl, λ x. (λ h. inl h, λ h. elim h [ inl old ↦ old | inr i ↦ elim i [ ] ]))
calculate_poison_blocks_iff f parent rank fuel loop_for ((b, requests) ∷ entries) ls ranked enough =
    let l : LoopInfo = loop_for b in
    let (paths, found, iff) =
      get_all_block_paths_in_loop_iff f rank ranked fuel b l.latch (enough b (ground arith)) in
    let next : List Location = poison_paths f parent l b requests paths ls in
    let (r, e, rest) =
      calculate_poison_blocks_iff f parent rank fuel loop_for entries next ranked
        (λ c i. enough c (ground arith)) in
    let poisons : Location → List ℕ → Bool =
      λ x ys. has_location x (poisons_on f parent l b requests ys) in
    (
      r,
      rw found e,
      λ x.
          (let split = has_location-poison_paths f parent x l b requests paths ls in
            (
              λ h. elim ((rest x).0 h) [
                | inl here ↦ elim (Bool-cases (any (poisons x) paths)) [
                  | inl new ↦
                      (let (ys, i, at) = any-PathIn (poisons x) paths new in
                        inr (IsPoisoned.on_path b requests ys entries ((iff ys).0 i) at))
                  | inr old ↦ inl (ground (arith, split))
                ]
                | inr there ↦ inr (IsPoisoned.later b requests entries there)
              ],
              λ h. elim h [
                | inl old ↦ (rest x).1 (inl (ground (arith, split)))
                | inr p ↦
                    (rest x).1 (elim (IsPoisoned-cases f parent loop_for x b requests entries p) [
                      | inl (ys, path, at) ↦
                          (let new = PathIn-any (poisons x) ys paths ((iff ys).1 path) at in
                            inl (ground (arith, split, new)))
                      | inr there ↦ inr there
                    ])
              ],
            )),
    )
