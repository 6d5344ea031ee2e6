-- ===== src/Elastic/Edges.antt =====
-- createBlockOnEdge of lib/ElasticTransform.cpp.
use elastic_sycl_hls.Prelude.{
  ℕ, suc, ◌≡◌, refl, arith, ◌==◌, Bool, true, false, not, ◌&&◌, ◌||◌, if◌then◌else◌, Option, none,
  some, List, [], ◌∷◌, Bool-cases, inl, inr,
}
use elastic_sycl_hls.Prelude.Members.{member, option_cases}

-- `CFGEdge`
abbrev pub CfgEdge : Type 0
CfgEdge = ℕ × ℕ

-- A function: the successors of each block, and the incoming blocks that its phi nodes name. The
-- static map createdBlocks holds the blocks made so far; `fresh` is the next new block.
pub record SplitGraph : Type 0 where
  pub successors : ℕ → List ℕ
  pub phi_blocks : ℕ → List ℕ
  pub created : List (CfgEdge × ℕ)
  pub fresh : ℕ

abbrev pub same_edge : CfgEdge → CfgEdge → Bool
same_edge d e = (d.0 == e.0) && (d.1 == e.1)

abbrev pub find_created : CfgEdge → List (CfgEdge × ℕ) → Option ℕ
find_created e [] = none
find_created e (c ∷ cs) = if same_edge c.0 e then some c.1 else find_created e cs

abbrev pub replace : ℕ → ℕ → List ℕ → List ℕ
replace old new [] = []
replace old new (b ∷ bs) = (if b == old then new else b) ∷ replace old new bs

-- `replaceSuccessorsPhiUsesWith`: the phi nodes of all successors.
abbrev pub replace_phi_uses : ℕ → ℕ → SplitGraph → ℕ → List ℕ
replace_phi_uses pred new g b =
    if member b (g.successors pred) then replace pred new (g.phi_blocks b) else g.phi_blocks b

-- A new block on the edge.
unfoldable pub split_edge : ℕ → ℕ → SplitGraph → SplitGraph
split_edge pred succ g = record {
  successors = λ b.
      if b == g.fresh
      then succ ∷ []
      else if b == pred
      then replace succ g.fresh (g.successors pred)
      else g.successors b;
  phi_blocks = replace_phi_uses pred g.fresh g;
  created = ((pred, succ), g.fresh) ∷ g.created;
  fresh = suc g.fresh;
}

unfoldable pub create_block_on_edge : ℕ → ℕ → SplitGraph → ℕ × SplitGraph
create_block_on_edge pred succ g = elim (find_created (pred, succ) g.created) [
  | some b ↦ (b, g)
  | none ↦ (g.fresh, split_edge pred succ g)
]

member-replace :
    (old new x : ℕ) (bs : List ℕ)
    → member x (replace old new bs)
      ≡ ((member x bs && not (x == old)) || ((x == new) && member old bs))
member-replace old new x [] = ground arith
member-replace old new x (b ∷ bs) = ground (arith, member-replace old new x bs)

module _ (has_phis : ℕ → Bool) where
  -- The phi nodes of a block name the blocks that have it as a successor.
  abbrev pub IsMatched : SplitGraph → Type 0
  IsMatched g = (b p : ℕ) → member p (g.phi_blocks b) ≡ (has_phis b && member b (g.successors p))

  -- The next new block has no edge and no phi node yet.
  abbrev pub IsFresh : SplitGraph → Type 0
  IsFresh g =
      (has_phis g.fresh ≡ false)
      × (g.successors g.fresh ≡ [])
      × ((b : ℕ) → member g.fresh (g.successors b) ≡ false)

  not_fresh :
      (g : SplitGraph) (pred succ : ℕ)
      → g.successors g.fresh ≡ []
      → member succ (g.successors pred) ≡ true
      → (pred == g.fresh) ≡ false
  not_fresh g pred succ no_edges edge = elim (Bool-cases (pred == g.fresh)) [
    | inl same ↦
        (let e : pred ≡ g.fresh = ground (arith, same) in
          let h = rw (e, no_edges) at (edge) in let no : ⊥ = cc in elim no [ ])
    | inr other ↦ other
  ]

  -- A new block on an edge keeps the phi nodes and the edges matched if no other successor of the
  -- edge's source has a phi node.
  split_edge-IsMatched :
      (g : SplitGraph) (pred succ : ℕ)
      → IsMatched g
      → IsFresh g
      → member succ (g.successors pred) ≡ true
      → ((s : ℕ) → member s (g.successors pred) ≡ true → (s == succ) ≡ false → has_phis s ≡ false)
      → IsMatched (split_edge pred succ g)
  unfolding split_edge
  split_edge-IsMatched g pred succ matched (no_phis, no_edges, new) edge alone b p =
      let no_source : member b (g.successors g.fresh) ≡ false = rw no_edges refl in
      let other_block : (pred == g.fresh) ≡ false = not_fresh g pred succ no_edges edge in
      let phis = member-replace pred g.fresh p (g.phi_blocks b) in
      let edges = member-replace succ g.fresh b (g.successors pred) in
      elim (Bool-cases (p == g.fresh)) [
        | inl is_new ↦
            (let e : p ≡ g.fresh = ground (arith, is_new) in
              rw e (
                ground (
                  arith,
                  member-replace pred g.fresh g.fresh (g.phi_blocks b),
                  matched b g.fresh,
                  matched b pred,
                  no_source,
                  edge,
                  alone b,
                  other_block,
                )))
        | inr old ↦ elim (Bool-cases (p == pred)) [
          | inl source ↦
              (let e : p ≡ pred = ground (arith, source) in
                rw e (
                  ground (
                    arith,
                    member-replace pred g.fresh pred (g.phi_blocks b),
                    matched b pred,
                    edges,
                    new pred,
                    edge,
                    alone b,
                    other_block,
                    no_phis,
                  )))
          | inr other ↦ ground (arith, phis, matched b p, old, other)
        ]
      ]

same_edge_self : (e : CfgEdge) → same_edge e e ≡ true
same_edge_self (p, s) = ground arith

create_cached :
    (pred succ b : ℕ) (g : SplitGraph)
    → find_created (pred, succ) g.created ≡ some b
    → create_block_on_edge pred succ g ≡ (b, g)
unfolding create_block_on_edge
create_cached pred succ b g e = rw (create_block_on_edge, e) refl

create_new :
    (pred succ : ℕ) (g : SplitGraph)
    → find_created (pred, succ) g.created ≡ none
    → create_block_on_edge pred succ g ≡ (g.fresh, split_edge pred succ g)
unfolding create_block_on_edge
create_new pred succ g e = rw (create_block_on_edge, e) refl

split_edge-created :
    (pred succ : ℕ) (g : SplitGraph)
    → find_created (pred, succ) (split_edge pred succ g).created ≡ some g.fresh
unfolding split_edge
split_edge-created pred succ g = ground (arith, same_edge_self (pred, succ))

-- What createBlockOnEdge is to do: it is the same when it is called again, and the phi nodes and the
-- edges stay matched.
pub record IsOnEdge (has_phis : ℕ → Bool) (pred succ : ℕ) (result : ℕ × SplitGraph) : Type 0 where
  pub again : create_block_on_edge pred succ result.1 ≡ result
  pub still_matched : IsMatched has_phis result.1

-- createBlockOnEdge returns the same block, and changes nothing, when it is called again with the
-- same edge; and it keeps the phi nodes and the edges matched, if a block that is not made yet is for
-- an edge of the graph whose source has no other successor with phi nodes.
pub create_block_on_edge-IsOnEdge :
    (has_phis : ℕ → Bool) (pred succ : ℕ) (g : SplitGraph)
    → IsMatched has_phis g
    → IsFresh has_phis g
    → (find_created (pred, succ) g.created ≡ none → member succ (g.successors pred) ≡ true)
    → ((s : ℕ) → member s (g.successors pred) ≡ true → (s == succ) ≡ false → has_phis s ≡ false)
    → IsOnEdge has_phis pred succ (create_block_on_edge pred succ g)
create_block_on_edge-IsOnEdge has_phis pred succ g matched unused edge alone =
    elim (option_cases (find_created (pred, succ) g.created)) [
      | inl new ↦ rw (create_new pred succ g new) (record {
        again =
            create_cached pred succ g.fresh (split_edge pred succ g)
              (split_edge-created pred succ g);
        still_matched = split_edge-IsMatched has_phis g pred succ matched unused (edge new) alone;
      })
      | inr (b, old) ↦
          rw (create_cached pred succ b g old)
            (record { again = create_cached pred succ b g old; still_matched = matched })
    ]
