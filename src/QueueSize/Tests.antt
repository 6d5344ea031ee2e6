-- ===== src/QueueSize/Tests.antt =====
-- Store queue sizes of getStoreQueueSize (lib/DataHazardAnalysis.cpp).
use elastic_sycl_hls.Prelude.{
  ◌+◌, ◌*◌, ◌≤◌, arith, true, ◌==◌, ◌≡◌, refl, false, some, List, [], ◌∷◌,
}
use elastic_sycl_hls.QueueSize.{
  DdgInstruction, DdgNode, Loops, loop_latency, nested_latency, next_power, store_queue_size,
}
use elastic_sycl_hls.QueueSize.Bounds.{NodeIn, store_queue_size-enough}

abbrev no_unrolling : Loops
no_unrolling = record {
  is_unrolled = λ l. false;
  backedge_count = λ l. 1;
  is_sub_loop = λ a b. false;
}

-- A load, an addition and a store in loop 0.
abbrev load_add_store : List DdgInstruction
load_add_store =
    record { latency = 5; in_loop = some 0 }
    ∷ record { latency = 1; in_loop = some 0 }
    ∷ record { latency = 2; in_loop = some 0 }
    ∷ []

abbrev one_recurrence : List DdgNode
one_recurrence = DdgNode.other_node ∷ DdgNode.pi_block load_add_store ∷ []

sixteen : store_queue_size no_unrolling (some 0 ∷ []) (some 0 ∷ []) one_recurrence false ≡ 16
unfolding store_queue_size loop_latency nested_latency next_power
sixteen = refl

-- Loop 0 is unrolled and takes its back edge 7 times.
abbrev unrolled : Loops
unrolled = record { is_unrolled = λ l. l == 0; backedge_count = λ l. 7; is_sub_loop = λ a b. false }

store_queue_size-enough_example :
    ((2 + 1 + 0 + 8) * 1 + 4
      ≤ store_queue_size unrolled (some 0 ∷ []) (some 0 ∷ []) one_recurrence true)
    × (8 ≤ store_queue_size unrolled (some 0 ∷ []) (some 0 ∷ []) one_recurrence true)
store_queue_size-enough_example =
    store_queue_size-enough unrolled (some 0 ∷ []) (some 0 ∷ []) one_recurrence true load_add_store
      (some 0) (some 0) 0 (λ o. ground arith) (NodeIn.there DdgNode.other_node _ (NodeIn.here []))
