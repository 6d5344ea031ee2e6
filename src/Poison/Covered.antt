-- ===== src/Poison/Covered.antt =====
-- What the whole of calculatePoisonBlocks (lib/DataHazardAnalysis.cpp) guarantees: which edges it
-- poisons a request on, and that no path misses its poison.
use elastic_sycl_hls.Prelude.{
  ℕ, ◌≡◌, ◌⊎◌, inl, inr, ◌∙◌, ap, arith, ◌==◌, true, false, none, some, List, [], ◌∷◌,
}
use elastic_sycl_hls.Prelude.Members.{any, member}
use elastic_sycl_hls.Poison.{CfgEdge, edges_from, poison_path, requests_for_path}
use elastic_sycl_hls.Flow.{FlowGraph, LoopInfo}
use elastic_sycl_hls.Flow.Search.{WayTo}
use elastic_sycl_hls.Flow.Reach.{IsGraph, is_reachable_within_loop_iff}
use elastic_sycl_hls.Flow.Paths.{LoopPath}
use elastic_sycl_hls.Poison.Groups.{standing_in}
use elastic_sycl_hls.Poison.Paths.{reaches, IsLoop, visited-edges_from, avoids}
use elastic_sycl_hls.Poison.Blocks.{
  Location, has_location, IsPoisoned, IsEnoughFor, calculate_poison_blocks,
  calculate_poison_blocks_iff,
}
use elastic_sycl_hls.Poison.Once.{path_poisons-avoided}
use elastic_sycl_hls.Flow.PathCount.{IsRanked}
use elastic_sycl_hls.Poison.Edges.{
  has_location-poison_at, poison_path-poisons, in_group-requests_for_path, standing_in-member,
  has_location-poisons_of, on_path, on_path-edges_from, on_path-contained,
}

-- A speculation block with its requests.
pub data EntryIn (b : ℕ) (requests : List ℕ) : List (ℕ × List ℕ) → Type 0 where
  here : (entries : List (ℕ × List ℕ)) → EntryIn b requests ((b, requests) ∷ entries)
  there :
      (c : ℕ) (rs : List ℕ) (entries : List (ℕ × List ℕ))
      → EntryIn b requests entries
      → EntryIn b requests ((c, rs) ∷ entries)

module _ (f : FlowGraph) (parent : ℕ → ℕ) (loop_for : ℕ → LoopInfo) where
  -- The requests of a speculation block stand in the loop of the block, and not in its latch.
  abbrev pub IsSpeculation : List (ℕ × List ℕ) → Type 0
  IsSpeculation entries =
      (b : ℕ) (requests : List ℕ)
      → EntryIn b requests entries
      → IsLoop f (loop_for b)
        × (any (λ r. parent r == (loop_for b).latch) requests ≡ false)
        × ((r : ℕ) → member r requests ≡ true → (loop_for b).contains (parent r) ≡ true)

  -- No way within the loop of a speculation block leads from the end of the edge to the request.
  abbrev pub IsPast : ℕ → ℕ → CfgEdge → Type 0
  IsPast b r e = WayTo f (loop_for b).latch (parent r) e.1 → ⊥

  reaches-IsPast :
      (b r : ℕ) (e : CfgEdge)
      → IsGraph f
      → IsLoop f (loop_for b)
      → (loop_for b).contains e.1 ≡ true
      → (loop_for b).contains (parent r) ≡ true
      → reaches f (loop_for b) e.1 (parent r) ≡ false
      → IsPast b r e
  reaches-IsPast b r e graph is_loop inside at un way =
      let (found, decided, decides) =
        is_reachable_within_loop_iff f e.1 (parent r) (loop_for b) graph (is_loop.2 e.1 inside)
          inside at in
      ground (arith, un, decided, decides.1 (inr way))

  -- A location that a path from a speculation block has.
  pub record IsFoundOn (r : ℕ) (e : CfgEdge) (entries : List (ℕ × List ℕ)) : Type 0 where
    pub block : ℕ
    pub requests : List ℕ
    pub path : List ℕ
    pub speculated : EntryIn block requests entries
    pub requested : member r requests ≡ true
    pub to_latch : LoopPath f (loop_for block).latch block path
    pub on_edge : on_path e block path ≡ true
    pub past : IsPast block r e

  IsPoisoned-found :
      (r : ℕ) (e : CfgEdge) (entries : List (ℕ × List ℕ))
      → IsGraph f
      → IsSpeculation entries
      → IsPoisoned f parent loop_for (r, e) entries
      → IsFoundOn r e entries
  unfolding edges_from
  IsPoisoned-found r e [] graph good p = elim p [ ]
  IsPoisoned-found r e _ graph good (IsPoisoned.on_path b requests ys entries path at) =
      let (is_loop, none_at, inside) = good b requests (EntryIn.here entries) in
      let (t, i, un, on) =
        poison_path-poisons (reaches f (loop_for b)) (edges_from none (b ∷ ys))
          (requests_for_path parent requests []) r e at in
      let known = in_group-requests_for_path parent requests [] r t i in
      let same : parent r ≡ t = ground (arith, known) in
      let asked : member r requests ≡ true = ground (arith, known) in
      let edge : on_path e b ys ≡ true = ground (arith, on, on_path-edges_from e b ys) in
      record {
        block = b;
        requests = requests;
        path = ys;
        speculated = EntryIn.here entries;
        requested = asked;
        to_latch = path;
        on_edge = edge;
        past =
            reaches-IsPast b r e graph is_loop
              (on_path-contained f (loop_for b) e b ys is_loop path edge) (inside r asked)
              (rw same un);
      }
  IsPoisoned-found r e _ graph good (IsPoisoned.later b requests entries p) =
      let rest =
        IsPoisoned-found r e entries graph
          (λ c rs i. good c rs (EntryIn.there b requests entries i)) p in
      record {
        block = rest.block;
        requests = rest.requests;
        path = rest.path;
        speculated = EntryIn.there b requests entries rest.speculated;
        requested = rest.requested;
        to_latch = rest.to_latch;
        on_edge = rest.on_edge;
        past = rest.past;
      }

  -- A path from a speculation block that does not come to the block of a request poisons it.
  avoided-IsPoisoned :
      (r b y : ℕ) (requests ys : List ℕ) (entries : List (ℕ × List ℕ))
      → IsGraph f
      → IsSpeculation entries
      → EntryIn b requests entries
      → member r requests ≡ true
      → LoopPath f (loop_for b).latch b (y ∷ ys)
      → member (parent r) (y ∷ ys) ≡ false
      → (e : CfgEdge) × IsPoisoned f parent loop_for (r, e) entries
        × (on_path e b (y ∷ ys) ≡ true)
        × IsPast b r e
  unfolding edges_from
  avoided-IsPoisoned r b y requests ys _ graph good (EntryIn.here entries) asked path avoided =
      let l : LoopInfo = loop_for b in
      let t : ℕ = parent r in
      let (is_loop, none_at, inside) = good b requests (EntryIn.here entries) in
      let seen = visited-edges_from f l parent t b (y ∷ ys) in
      let (e, poisoned, un) =
        path_poisons-avoided parent (reaches f l) requests (b ∷ y ∷ ys) t (seen ∙ avoided) (
          avoids f l parent requests b t y ys graph is_loop none_at (inside r asked) path
            avoided) in
      let all : List Location =
        poison_path (reaches f l) (edges_from none (b ∷ y ∷ ys))
          (requests_for_path parent requests []) in
      let at : has_location (r, e) all ≡ true =
        has_location-poisons_of parent (reaches f l) t (r, e) all
          (ap (has_location (r, e)) poisoned
            ∙ ground (
              arith,
              has_location-poison_at r e e (standing_in parent t requests),
              standing_in-member parent r requests asked,
            )) in
      let (u, i, gone, on) =
        poison_path-poisons (reaches f l) (edges_from none (b ∷ y ∷ ys))
          (requests_for_path parent requests []) r e at in
      let edge : on_path e b (y ∷ ys) ≡ true =
        ground (arith, on, on_path-edges_from e b (y ∷ ys)) in
      (
        e,
        IsPoisoned.on_path b requests (y ∷ ys) entries path at,
        edge,
        reaches-IsPast b r e graph is_loop (on_path-contained f l e b (y ∷ ys) is_loop path edge)
            (inside r asked) un,
      )
  avoided-IsPoisoned r b y requests ys _ graph good (EntryIn.there c rs entries i) asked path
        avoided =
      let (e, poisoned, on, past) =
        avoided-IsPoisoned r b y requests ys entries graph
          (λ d qs j. good d qs (EntryIn.there c rs entries j)) i asked path avoided in
      (e, IsPoisoned.later c rs entries poisoned, on, past)

-- calculatePoisonBlocks ends. Each location that it adds is an edge of a path from a speculation block
-- of the request to the latch of its loop, and from the end of the edge no way within the loop leads to
-- the request. Each such path of two blocks at least that does not come to the block of a request of
-- its speculation block has an edge of this kind in the locations of the request. The blocks are
-- ranked, the fuel is enough for the paths of each speculation block, and the requests stand in the
-- loop of their speculation block, and not in its latch.
pub calculate_poison_blocks-covers :
    (f : FlowGraph) (parent : ℕ → ℕ) (rank : ℕ → ℕ) (fuel : ℕ) (loop_for : ℕ → LoopInfo)
    (entries : List (ℕ × List ℕ)) (ls : List Location)
    → IsGraph f
    → IsRanked f rank
    → IsEnoughFor f parent rank fuel entries
    → IsSpeculation f parent loop_for entries
    → (found : List Location) × (calculate_poison_blocks f parent fuel loop_for entries ls
        ≡ some found)
      × ((r : ℕ) (e : CfgEdge)
          → has_location (r, e) found ≡ true
          → (has_location (r, e) ls ≡ true) ⊎ IsFoundOn f parent loop_for r e entries)
      × ((r b y : ℕ) (requests ys : List ℕ)
          → EntryIn b requests entries
          → member r requests ≡ true
          → LoopPath f (loop_for b).latch b (y ∷ ys)
          → member (parent r) (y ∷ ys) ≡ false
          → (e : CfgEdge) × (has_location (r, e) found ≡ true)
            × (on_path e b (y ∷ ys) ≡ true)
            × IsPast f parent loop_for b r e)
calculate_poison_blocks-covers f parent rank fuel loop_for entries ls graph ranked enough good =
    let (found, ends, iff) =
      calculate_poison_blocks_iff f parent rank fuel loop_for entries ls ranked enough in
    (
      found,
      ends,
      λ r e h. elim ((iff (r, e)).0 h) [
        | inl old ↦ inl old
        | inr p ↦ inr (IsPoisoned-found f parent loop_for r e entries graph good p)
      ],
      λ r b y requests ys i asked path avoided.
          (let (e, p, on, past) =
              avoided-IsPoisoned f parent loop_for r b y requests ys entries graph good i asked path
                avoided in
            (e, (iff (r, e)).1 (inr p), on, past)),
    )
