-- ===== src/Dram/Tests.antt =====
-- Iterations of the kernel LSQ_DRAM of lsq/LoadStoreQueueDRAM.hpp on a queue of two entries: a store
-- of 9 to address 5 is allocated, and a load from address 5 waits for it.
use elastic_sycl_hls.Prelude.{ℕ, ◌≡◌, ◌⊎◌, ◌↔◌, ◌≤◌, refl, true, false, none, some, List, [], ◌∷◌}
use elastic_sycl_hls.Prelude.Int.{pos, ◌==ℤ◌}
use elastic_sycl_hls.Mux.{initial_mux}
use elastic_sycl_hls.Bram.State.{TaggedVal, Config, StAlloc}
use elastic_sycl_hls.Bram.Stores.{StVal, st_val_from, alloc_moves, shift_allocs, new_alloc}
use elastic_sycl_hls.Dram.{
  Commit, DramLoad, DramLsq, DramInputs, LdState, LoadAction, invalid_address, find_bypass,
  check_load, dram_cycle,
}
use elastic_sycl_hls.Dram.CommitQueue.{dram_cycle-forwards}
use elastic_sycl_hls.Dram.Safe.{AllAfter, has_commit, LastCommit, check_load-decides}

abbrev dram_config : Config
dram_config = record {
  use_speculation = false;
  num_lds = 1;
  num_st_req = 1;
  num_st_val = 1;
  ld_q_size = 2;
  st_q_size = 2;
}

abbrev junk : TaggedVal ℕ
junk = record { value = 0; tag = 0; valid = false }

abbrev empty_commit : Commit ℕ
empty_commit = record { addr = invalid_address; value = 0 }

abbrev store_at_five : StAlloc
store_at_five = record { addr = pos 5; addr_valid = true; tag = 1 }

abbrev later_store : StAlloc
later_store = record { addr = pos 5; addr_valid = true; tag = 2 }

abbrev waiting_load : DramLoad ℕ
waiting_load = record {
  state = LdState.search;
  addr = pos 5;
  tag = 1;
  is_safe = false;
  is_bypass = false;
  bypass_val = 0;
}

abbrev store_pending : DramLsq ℕ
store_pending = record {
  st_alloc = store_at_five ∷ later_store ∷ [];
  st_commit = empty_commit ∷ empty_commit ∷ [];
  last_st_req_tag = 2;
  ld_ports = (waiting_load ∷ waiting_load ∷ []) ∷ [];
  st_val_mux = initial_mux 1 1;
}

abbrev value_arrives : DramInputs ℕ
value_arrives = record {
  st_val_offer = λ k. some (record { value = 9; tag = 1; valid = true });
  st_req_offer = none;
  ld_req_offer = λ i. none;
  junk_val = junk;
  junk_tag = 0;
}

abbrev nothing_arrives : DramInputs ℕ
nothing_arrives = record value_arrives { st_val_offer = λ k. none }

dram_cycle-forwards_example :
    find_bypass dram_config
      (dram_cycle dram_config store_pending value_arrives).0.st_commit
      (pos 5)
      none
    ≡ some 9
unfolding dram_cycle st_val_from
dram_cycle-forwards_example =
    dram_cycle-forwards dram_config store_pending value_arrives empty_commit (empty_commit ∷ [])
      (pos 5) 9 refl refl

-- The load gets the stored value by a bypass one iteration later.
load_bypassed :
    (dram_cycle dram_config
      (dram_cycle dram_config store_pending value_arrives).0
      nothing_arrives).2
    ≡ some (LoadAction.bypass 9) ∷ []
unfolding dram_cycle st_val_from new_alloc ◌==ℤ◌ alloc_moves shift_allocs
load_bypassed = refl

abbrev committed : StVal ℕ
committed = record { arrived = true; valid = true; value = 9; mux = initial_mux 1 1 }

abbrev committed_nine : List (Commit ℕ)
committed_nine = empty_commit ∷ record { addr = pos 5; value = 9 } ∷ []

abbrev checked : DramLoad ℕ
checked = check_load dram_config 2 (later_store ∷ []) committed_nine waiting_load

check_load-decides_example :
    ((checked.is_safe ≡ true)
      ↔ ((waiting_load.is_safe ≡ true) ⊎ ((1 ≤ 2) × AllAfter (later_store ∷ []) (pos 5) 1)))
    × (checked.is_bypass ≡ has_commit (pos 5) committed_nine)
    × (checked.is_bypass ≡ true → LastCommit (pos 5) checked.bypass_val committed_nine)
    × (checked.addr ≡ pos 5)
    × (checked.tag ≡ 1)
check_load-decides_example =
    check_load-decides dram_config 2 (later_store ∷ []) committed_nine waiting_load
