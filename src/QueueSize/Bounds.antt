-- ===== src/QueueSize/Bounds.antt =====
-- How large the store queue is that getStoreQueueSize of lib/DataHazardAnalysis.cpp asks for.
use elastic_sycl_hls.Prelude.{
  ℕ, zero, suc, ◌+◌, ◌*◌, ◌^◌, ◌≤◌, ◌<◌, ◌≡◌, if◌then◌else◌, sym, arith, Bool, true, false, Option,
  List, [], ◌∷◌, dec_lt,
}
use native.Mathlib.Nat.{mul_assoc}
use elastic_sycl_hls.QueueSize.{
  DdgInstruction, max, DdgNode, Loops, max_in_loop, node_delay, max_delay, next_power, round_size,
  store_queue_size,
}
use native.Mathlib.Nat.{mul-le-mul}
use elastic_sycl_hls.QueueSize.Counts.{count_of, max_in_loop-count_of}
use elastic_sycl_hls.QueueSize.Delays.{outside, cycles_of, add_latencies-least}

-- A node of the list.
pub data NodeIn (n : DdgNode) : List DdgNode → Type 0 where
  here : (ns : List DdgNode) → NodeIn n (n ∷ ns)
  there : (m : DdgNode) (ns : List DdgNode) → NodeIn n ns → NodeIn n (m ∷ ns)

twice_power : (p k : ℕ) → p * 2 ^ suc k ≡ p * 2 * 2 ^ k
twice_power p k =
    let next : 2 ^ suc k ≡ 2 * 2 ^ k = omega arith in rw next (sym (mul_assoc p 2 (2 ^ k)))

next_power-bounds :
    (f size p : ℕ)
    → 0 < p
    → size ≤ p + f
    → p < size + size
    → (k : ℕ) × (next_power f size p ≡ p * 2 ^ k) × (size ≤ p * 2 ^ k) × (p * 2 ^ k < size + size)
unfolding next_power
next_power-bounds zero size p pos enough small = (0, omega arith, omega arith, omega arith)
next_power-bounds (suc f) size p pos enough small = elim (dec_lt p size) [
  | yes lt ↦
      (let (k, e, lo, hi) =
          next_power-bounds f size (p * 2) (omega arith) (omega arith) (omega arith) in
        let twice = twice_power p k in
        (suc k, ground (arith, e, twice), omega (arith, lo, twice), omega (arith, hi, twice)))
  | no ge ↦ (0, ground arith, omega arith, omega arith)
]

-- A positive size below 32 is rounded up to a power of two below its double.
pub round_size-small :
    (size : ℕ)
    → 0 < size
    → size < 32
    → (k : ℕ) × (round_size size ≡ 2 ^ k) × (size ≤ 2 ^ k) × (2 ^ k < size + size)
unfolding round_size
round_size-small size pos lt =
    let (k, e, lo, hi) = next_power-bounds size size 1 (omega arith) (omega arith) (omega arith) in
    (k, ground (arith, e), omega (arith, lo), omega (arith, hi))

size-le-round_size : (size : ℕ) → 0 < size → size ≤ round_size size
unfolding round_size
size-le-round_size size pos = elim (dec_lt size 32) [
  | yes lt ↦ (let (k, e, lo, hi) = round_size-small size pos lt in omega (arith, e, lo))
  | no ge ↦ ground arith
]

module _ (loops : Loops) (stores loads : ℕ) where
  le-max_delay : (ns : List DdgNode) (size : ℕ) → size ≤ max_delay loops stores loads ns size
  unfolding max_delay
  le-max_delay [] size = omega arith
  le-max_delay (n ∷ ns) size =
      ground (arith, le-max_delay ns (max size (node_delay loops stores loads n)))

  node_delay-le-max_delay :
      (n : DdgNode) (ns : List DdgNode) (size : ℕ)
      → NodeIn n ns
      → node_delay loops stores loads n ≤ max_delay loops stores loads ns size
  unfolding max_delay
  node_delay-le-max_delay n [] size i = elim i [ ]
  node_delay-le-max_delay n (_ ∷ ns) size (NodeIn.here _) =
      ground (arith, le-max_delay ns (max size (node_delay loops stores loads n)))
  node_delay-le-max_delay n (m ∷ ns) size (NodeIn.there _ _ i) =
      node_delay-le-max_delay n ns (max size (node_delay loops stores loads m)) i

-- The delay of a pi-block, by what its instructions and loops ask for.
node_delay-least :
    (loops : Loops)
    → ((o : ℕ) → 1 ≤ loops.backedge_count o)
    → (stores loads : List (Option ℕ)) (is : List DdgInstruction) (j k : Option ℕ) (l : ℕ)
    → (2 + count_of j loads + outside loops is + cycles_of loops l [] is) * count_of k stores
      ≤ node_delay loops (max_in_loop stores [] 1) (max_in_loop loads [] 1) (DdgNode.pi_block is)
unfolding node_delay
node_delay-least loops runs stores loads is j k l =
    let most = max_in_loop-count_of j loads [] 1 (omega arith) in
    let sum = add_latencies-least loops runs l is [] (2 + max_in_loop loads [] 1) in
    mul-le-mul (omega (arith, most, sum))
      (omega (arith, max_in_loop-count_of k stores [] 1 (omega arith)))

-- For every pi-block, any two loops with stores and with loads, and any unrolled loop, the store queue
-- is at least as large as the number of the stores times the sum of 2, the number of the loads, the
-- latencies of the block's instructions outside unrolled loops and, if the block has an instruction of
-- the unrolled loop, one more than its count; with speculation 4 are added, and the least size is 4,
-- or 8. The count of each loop is 1 at least, and no operation on `int` overflows.
pub store_queue_size-enough :
    (loops : Loops) (stores loads : List (Option ℕ)) (ddg : List DdgNode) (speculation : Bool)
    (is : List DdgInstruction) (j k : Option ℕ) (l : ℕ)
    → ((o : ℕ) → 1 ≤ loops.backedge_count o)
    → NodeIn (DdgNode.pi_block is) ddg
    → ((2 + count_of j loads + outside loops is + cycles_of loops l [] is) * count_of k stores
          + (if speculation then 4 else 0)
        ≤ store_queue_size loops stores loads ddg speculation)
      × ((if speculation then 8 else 4) ≤ store_queue_size loops stores loads ddg speculation)
unfolding store_queue_size
store_queue_size-enough loops stores loads ddg true is j k l runs i =
    let st : ℕ = max_in_loop stores [] 1 in
    let ld : ℕ = max_in_loop loads [] 1 in
    let rounded = size-le-round_size (max_delay loops st ld ddg 4 + 4) (omega arith) in
    (
      omega (
        arith,
        rounded,
        node_delay-le-max_delay loops st ld (DdgNode.pi_block is) ddg 4 i,
        node_delay-least loops runs stores loads is j k l,
      ),
      omega (arith, rounded, le-max_delay loops st ld ddg 4),
    )
store_queue_size-enough loops stores loads ddg false is j k l runs i =
    let st : ℕ = max_in_loop stores [] 1 in
    let ld : ℕ = max_in_loop loads [] 1 in
    let least = le-max_delay loops st ld ddg 4 in
    let rounded = size-le-round_size (max_delay loops st ld ddg 4) (omega (arith, least)) in
    (
      omega (
        arith,
        rounded,
        node_delay-le-max_delay loops st ld (DdgNode.pi_block is) ddg 4 i,
        node_delay-least loops runs stores loads is j k l,
      ),
      omega (arith, rounded, least),
    )
