-- ===== src/QueueSize.antt =====
-- The size of the store queue, getStoreQueueSize of lib/DataHazardAnalysis.cpp. Loops are numbers.
-- `int` is a natural number: a run is modelled where no operation overflows, and where the count of
-- each loop is a number, for else std::stoi throws.
pub mod Counts
pub mod Delays
pub mod Bounds
mod Tests
use elastic_sycl_hls.Prelude.{
  ℕ, zero, suc, ◌+◌, ◌*◌, ◌==◌, ltb, Bool, true, false, not, ◌&&◌, ◌||◌, if◌then◌else◌, Option,
  none, some, List, [], ◌∷◌, ◌++◌,
}

abbrev pub max : ℕ → ℕ → ℕ
max a b = if ltb a b then b else a

-- `LI.getLoopFor`: no loop is the null pointer, which is a key like the others.
abbrev pub same_loop : Option ℕ → Option ℕ → Bool
same_loop none none = true
same_loop (some a) (some b) = a == b
same_loop _ _ = false

-- `storesInLoop` and `loadsInLoop` after one more operation, and the count of its loop.
unfoldable pub count_in_loop : Option ℕ → List (Option ℕ × ℕ) → List (Option ℕ × ℕ) × ℕ
count_in_loop l [] = ((l, 1) ∷ [], 1)
count_in_loop l ((k, n) ∷ m) =
    let rest = count_in_loop l m in
    if same_loop k l then ((k, n + 1) ∷ m, n + 1) else ((k, n) ∷ rest.0, rest.1)

-- The loop over the stores, or over the loads, given by their loops.
unfoldable pub max_in_loop : List (Option ℕ) → List (Option ℕ × ℕ) → ℕ → ℕ
unfolding count_in_loop
max_in_loop [] m most = most
max_in_loop (l ∷ ls) m most = let (m', n) = count_in_loop l m in max_in_loop ls m' (max most n)

-- An instruction of a DDG node: its latency in LATENCY_TABLE_ARRIA10 (0 if absent) and its loop.
pub record DdgInstruction : Type 0 where
  pub latency : ℕ
  pub in_loop : Option ℕ

-- A node of the data dependence graph: a pi-block with the instructions of its simple nodes.
pub data DdgNode : Type 0 where
  pi_block : List DdgInstruction → DdgNode
  other_node : DdgNode

-- What LLVM says of loops: isLoopUnrolled, the backedge-taken count, and getSubLoops.
pub record Loops : Type 0 where
  pub is_unrolled : ℕ → Bool
  pub backedge_count : ℕ → ℕ
  pub is_sub_loop : ℕ → ℕ → Bool

module _ (loops : Loops) where
  abbrev pub minimum_latency : ℕ → ℕ
  minimum_latency l = loops.backedge_count l

  unfoldable pub nested_latency : ℕ → List ℕ → ℕ → ℕ
  nested_latency l [] lat = lat
  nested_latency l (o ∷ counted) lat =
      nested_latency l counted
        (if loops.is_sub_loop o l || loops.is_sub_loop l o then lat * minimum_latency o else lat)

  abbrev pub contains : ℕ → List ℕ → Bool
  contains l [] = false
  contains l (o ∷ counted) = (o == l) || contains l counted

  unfoldable pub loop_latency : Option ℕ → ℕ → List ℕ → ℕ × List ℕ
  unfolding nested_latency
  loop_latency none latency counted = (latency, counted)
  loop_latency (some l) latency counted =
      if loops.is_unrolled l && not (contains l counted)
      then (nested_latency l counted (1 + minimum_latency l), counted ++ l ∷ [])
      else (latency, counted)

  -- The latency of an instruction, and `unrolledLoopsCounted` after it.
  unfoldable pub instruction_latency : DdgInstruction → List ℕ → ℕ × List ℕ
  unfolding loop_latency
  instruction_latency i counted = loop_latency i.in_loop i.latency counted

  unfoldable pub add_latencies : List DdgInstruction → List ℕ → ℕ → ℕ
  unfolding instruction_latency
  add_latencies [] counted delay = delay
  add_latencies (i ∷ is) counted delay =
      let (lat, counted') = instruction_latency i counted in add_latencies is counted' (delay + lat)

  unfoldable pub node_delay : ℕ → ℕ → DdgNode → ℕ
  unfolding add_latencies
  node_delay stores loads (DdgNode.pi_block is) = add_latencies is [] (2 + loads) * stores
  node_delay stores loads DdgNode.other_node = (2 + loads) * stores

  unfoldable pub max_delay : ℕ → ℕ → List DdgNode → ℕ → ℕ
  unfolding node_delay
  max_delay stores loads [] size = size
  max_delay stores loads (n ∷ ns) size =
      max_delay stores loads ns (max size (node_delay stores loads n))

-- `while(nextPower < size) nextPower *= 2`, at most as many times as the fuel says.
unfoldable pub next_power : ℕ → ℕ → ℕ → ℕ
next_power zero size p = p
next_power (suc f) size p = let rest = next_power f size (p * 2) in if ltb p size then rest else p

unfoldable pub round_size : ℕ → ℕ
unfolding next_power
round_size size = if ltb size 32 then next_power size size 1 else size

abbrev pub speculation_size : Bool → ℕ → ℕ
speculation_size b size = if b then size + 4 else size

-- `stores` and `loads` are the loops of the stores and of the loads of the cluster.
unfoldable pub store_queue_size :
    Loops → List (Option ℕ) → List (Option ℕ) → List DdgNode → Bool → ℕ
unfolding round_size max_in_loop max_delay
store_queue_size loops stores loads ddg has_speculation =
    let max_stores : ℕ = max_in_loop stores [] 1 in
    let max_loads : ℕ = max_in_loop loads [] 1 in
    round_size (speculation_size has_speculation (max_delay loops max_stores max_loads ddg 4))
