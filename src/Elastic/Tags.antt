-- ===== src/Elastic/Tags.antt =====
-- The tags of requests and values, as doLdReqWrite, doStReqWrite, doStValWrite and doPoisonStWrite of
-- lib/ElasticTransform.cpp have the kernels count them in 32-bit integers that createTag sets to 0.
-- The kernels go through the same memory operations in program order.
use elastic_sycl_hls.Prelude.{
  ℕ, zero, suc, ◌+◌, ◌%◌, ◌^◌, Bool, false, not, ◌||◌, if◌then◌else◌, Option, none, some, List, [],
  ◌∷◌,
}
use elastic_sycl_hls.Prelude.Int.{ℤ, pos}
use elastic_sycl_hls.Bram.State.{StReq}

-- A load, or a store with its value and whether it takes place; a poisoned store does not.
pub data MemoryOp (V : Type 0) : Type 0 where
  load_from : ℤ → MemoryOp V
  store_to : ℤ → V → Bool → MemoryOp V

-- The struct that a load request writes into its pipe; the load's own tag is there if several loads
-- are muxed.
pub record TaggedLoad : Type 0 where
  pub addr : ℤ
  pub st_tag : ℕ
  pub ld_tag : Option ℕ

-- A store value in its pipe; the tag is written if several value pipes are muxed.
pub record TaggedValue (V : Type 0) : Type 0 where
  pub value : V
  pub tag : Option ℕ
  pub valid : Bool

abbrev pub next_tag : ℕ → ℕ
next_tag t = (t + 1) % 2 ^ 32

module _ {V : Type 0} where
  -- The load requests of the address generation unit, from the tags so far.
  unfoldable pub load_requests : Bool → ℕ → ℕ → List (MemoryOp V) → List TaggedLoad
  load_requests muxed st ld [] = []
  load_requests muxed st ld (load_from a ∷ ops) =
      record { addr = a; st_tag = st; ld_tag = if muxed then some ld else none }
      ∷ load_requests muxed st (if muxed then next_tag ld else ld) ops
  load_requests muxed st ld (store_to a x valid ∷ ops) = load_requests muxed (next_tag st) ld ops

  -- Its store requests: the tag is incremented first.
  unfoldable pub store_requests : ℕ → List (MemoryOp V) → List StReq
  store_requests st [] = []
  store_requests st (load_from a ∷ ops) = store_requests st ops
  store_requests st (store_to a x valid ∷ ops) =
      record { addr = a; tag = next_tag st } ∷ store_requests (next_tag st) ops

  -- The store values. With several value pipes (`muxed`) they carry a tag: it is incremented first if
  -- the requests are those of an address generation unit (`decoupled`), and for a poisoned value; else
  -- the request of the store, in the same kernel, has incremented it.
  unfoldable pub store_values : Bool → Bool → ℕ → List (MemoryOp V) → List (TaggedValue V)
  store_values muxed decoupled st [] = []
  store_values muxed decoupled st (load_from a ∷ ops) = store_values muxed decoupled st ops
  store_values muxed decoupled st (store_to a x valid ∷ ops) =
      let requested : ℕ = if decoupled then st else next_tag st in
      let tag : ℕ = if decoupled || not valid then next_tag requested else requested in
      record { value = x; tag = if muxed then some tag else none; valid = valid }
      ∷ store_values muxed decoupled (if muxed then tag else requested) ops

  -- A kernel that sends requests poisons no store: calculateSpeculation of
  -- lib/DataHazardAnalysis.cpp speculates only where the addresses are decoupled.
  abbrev pub has_poisoned : List (MemoryOp V) → Bool
  has_poisoned [] = false
  has_poisoned (load_from a ∷ ops) = has_poisoned ops
  has_poisoned (store_to a x valid ∷ ops) = not valid || has_poisoned ops

  -- The program that the operations make.
  abbrev pub nth_store : ℕ → List (MemoryOp V) → Option (ℤ × V × Bool)
  nth_store n [] = none
  nth_store n (load_from a ∷ ops) = nth_store n ops
  nth_store zero (store_to a x valid ∷ ops) = some (a, x, valid)
  nth_store (suc n) (store_to a x valid ∷ ops) = nth_store n ops

  -- The address of a load, and how many stores are before it.
  abbrev pub nth_load : ℕ → List (MemoryOp V) → ℤ × ℕ
  nth_load i [] = (pos 0, 0)
  nth_load i (store_to a x valid ∷ ops) = let (b, n) = nth_load i ops in (b, suc n)
  nth_load zero (load_from a ∷ ops) = (a, 0)
  nth_load (suc i) (load_from a ∷ ops) = nth_load i ops
