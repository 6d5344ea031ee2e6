-- ===== src/Bram/Tests.antt =====
-- Runs of the kernel LSQ_BRAM of lsq/LoadStoreQueueBRAM.hpp on a small program, and the theorems at
-- that program: store 1 and then load 1, both at address 5, behind load 0 of the same address.
use elastic_sycl_hls.Prelude.{
  ℕ, ◌+◌, ◌≡◌, ◌⊎◌, true, false, none, some, List, [], ◌∷◌, arith, refl, length,
}
use elastic_sycl_hls.Prelude.Int.{ℤ, pos, ◌==ℤ◌}
use elastic_sycl_hls.Bram.State.{
  TaggedVal, Config, Lsq, PipeInputs, initial_lsq, use_ld_mux, use_st_val_mux_inlined,
}
use elastic_sycl_hls.Bram.Stores.{
  st_val_from, read_st_val, take_st_val, commit_store, new_alloc, alloc_moves, shift_allocs,
  mk_dependency,
}
use elastic_sycl_hls.Bram.Loads.{
  bypasses, pipe_succ, write_load, return_load, fill_entry, accept_load, accepts, ld_wait,
  mark_safe, mark_first_two, shift_loads,
}
use elastic_sycl_hls.Bram.Cycle.{cycle_st_val, cycle_return, cycle, ends, run}
use elastic_sycl_hls.Bram.Program.{
  Program, Progress, Conforms, ConformsRun, no_progress, advance, mem_after,
}
use elastic_sycl_hls.Bram.Invariant.{Inv}
use elastic_sycl_hls.Bram.Invariant.Kept.{cycle-Inv}
use elastic_sycl_hls.Bram.Progress.{first_alloc, ends-pending}
use elastic_sycl_hls.Bram.Progress.Loads.{load-returns}
use elastic_sycl_hls.Bram.InOrder.{
  initial-Inv, run-in_order, values_written, expected_from, advance_all,
}

abbrev small_config : Config
small_config = record {
  use_speculation = true;
  num_lds = 1;
  num_st_req = 1;
  num_st_val = 1;
  ld_q_size = 2;
  st_q_size = 2;
}

abbrev one_address : Program ℕ
one_address = record {
  init = λ a. 7;
  st_addr = λ k. pos 5;
  st_value = λ k. 100 + k;
  st_valid = λ k. true;
  ld_addr = λ i. pos 5;
  ld_tag = λ i. i;
  ld_port = λ i. 0;
}

abbrev value_byte : ℕ → ℤ
value_byte v = pos v

abbrev no_value : TaggedVal ℕ
no_value = record { value = 0; tag = 0; valid = false }

abbrev no_inputs : PipeInputs ℕ
no_inputs = record {
  end_arrived = false;
  st_val_offer = λ k. none;
  ld_ready = λ k. true;
  ld_req_offer = none;
  st_req_offer = none;
  junk_val = no_value;
  junk_tag = 0;
}

abbrev requests : PipeInputs ℕ
requests = record no_inputs {
  ld_req_offer = some (record { addr = pos 5; tag = 0; port_ldtag_union = 0 });
  st_req_offer = some (record { addr = pos 5; tag = 1 });
}

abbrev second_load : PipeInputs ℕ
second_load = record no_inputs {
  ld_req_offer = some (record { addr = pos 5; tag = 1; port_ldtag_union = 0 });
}

abbrev first_value : PipeInputs ℕ
first_value = record no_inputs {
  st_val_offer = λ k. some (record { value = 101; tag = 1; valid = true });
}

abbrev three_inputs : List (PipeInputs ℕ)
three_inputs = requests ∷ second_load ∷ first_value ∷ []

abbrev start : Lsq ℕ
start = initial_lsq small_config (λ a. 7) 0

-- The evaluation of the kernel, for the `unfolding` lines of the tests.
evaluation : ℕ
unfolding run cycle ends cycle_st_val cycle_return take_st_val read_st_val st_val_from
    use_st_val_mux_inlined use_ld_mux bypasses return_load write_load pipe_succ commit_store
    mk_dependency new_alloc alloc_moves shift_allocs fill_entry accept_load accepts ld_wait
    mark_safe mark_first_two shift_loads initial_lsq ◌==ℤ◌ mem_after
evaluation = 0

-- Load 0 is served from memory before store 1, load 1 gets the value of store 1 by the bypass.
three_inputs-values :
    values_written small_config value_byte one_address
      (run small_config value_byte start three_inputs).0
    ≡ (0, 7) ∷ (0, 101) ∷ []
unfolding evaluation
three_inputs-values = refl

requests-Conforms : Conforms small_config one_address no_progress requests
requests-Conforms = record {
  ld_reqs = λ r e. ground arith;
  st_reqs = λ r e. ground arith;
  st_vals = λ k x e. cc;
  loads_first = λ k x e. cc;
  in_order = λ x d e. cc;
}

three_inputs-ConformsRun :
    ConformsRun small_config value_byte one_address no_progress start three_inputs
unfolding evaluation
three_inputs-ConformsRun = (
  requests-Conforms,
  (
    record {
      ld_reqs = λ r e. ground arith;
      st_reqs = λ r e. cc;
      st_vals = λ k x e. cc;
      loads_first = λ k x e. cc;
      in_order = λ x d e. cc;
    },
    (
      record {
        ld_reqs = λ r e. cc;
        st_reqs = λ r e. cc;
        st_vals = λ k x e. ground arith;
        loads_first = λ k x e i lt. ground arith;
        in_order = λ x d e. ground arith;
      },
      tt,
    ),
  ),
)

run-in_order_example :
    let (effs, s') = run small_config value_byte start three_inputs in
    (values_written small_config value_byte one_address effs
      ≡ expected_from small_config value_byte one_address 0
          (length (values_written small_config value_byte one_address effs)))
    × ((a : ℤ)
        → s'.data_mem a
          ≡ mem_after small_config one_address
              (advance_all small_config value_byte one_address no_progress effs).done
              a)
run-in_order_example =
    run-in_order small_config value_byte one_address 0 three_inputs (omega arith) (omega arith)
      three_inputs-ConformsRun

-- One iteration later: load 0 is at the head, marked safe, and store 1 is requested.
abbrev one_later : Lsq ℕ
one_later = (cycle small_config value_byte start requests).0

abbrev progress_later : Progress
progress_later = advance no_progress (cycle small_config value_byte start requests).1

one_later-Inv : Inv small_config one_address progress_later one_later
one_later-Inv =
    cycle-Inv small_config value_byte one_address requests
      (initial-Inv small_config value_byte one_address 0 1 0 refl refl) requests-Conforms

-- The load value pipe is full.
abbrev blocked : PipeInputs ℕ
blocked = record no_inputs { ld_ready = λ k. false }

no_offers-Conforms :
    (g : Progress) (inp : PipeInputs ℕ)
    → inp.ld_req_offer ≡ none
    → inp.st_req_offer ≡ none
    → ((k : ℕ) → inp.st_val_offer k ≡ none)
    → Conforms small_config one_address g inp
no_offers-Conforms g inp a b c = record {
  ld_reqs = λ r e. cc;
  st_reqs = λ r e. cc;
  st_vals = λ k x e. cc (c k);
  loads_first = λ k x e. cc (c k);
  in_order = λ x d e. cc (c 0);
}

load-returns_example :
    ((cycle small_config value_byte one_later blocked).1.returned ≡ some (0, 7))
    ⊎ ((cycle small_config value_byte
          (cycle small_config value_byte one_later blocked).0
          no_inputs).1.returned
        ≡ some (0, 7))
unfolding evaluation
load-returns_example =
    load-returns small_config value_byte one_address blocked one_later-Inv
      (no_offers-Conforms progress_later blocked refl refl (λ k. refl)) no_inputs
      (no_offers-Conforms _ no_inputs refl refl (λ k. refl)) refl (omega arith) (λ e. cc)
      (refl, λ e. cc)

cycle-Inv_example :
    Inv small_config one_address
      (advance no_progress (cycle small_config value_byte start requests).1)
      (cycle small_config value_byte start requests).0
cycle-Inv_example =
    cycle-Inv small_config value_byte one_address requests
      (initial-Inv small_config value_byte one_address 0 1 0 refl refl) requests-Conforms

-- The end signal arrives while store 1 is one entry behind the head.
abbrev end_signal : PipeInputs ℕ
end_signal = record no_inputs { end_arrived = true }

ends-pending_example :
    let (effs, s') = run small_config value_byte one_later (end_signal ∷ []) in
    (length effs ≡ 1) × (first_alloc s'.st_alloc ≡ some 0)
unfolding evaluation
ends-pending_example = ends-pending small_config value_byte one_later end_signal [] 0 refl refl
