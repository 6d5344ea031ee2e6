-- ===== src/Bram/Cycle.antt =====
-- One iteration of the kernel LSQ_BRAM and its loop, lsq/LoadStoreQueueBRAM.hpp lines 293-497.
use elastic_sycl_hls.Prelude.{ℕ, Bool, not, ◌&&◌, if◌then◌else◌, Option, none, List, [], ◌∷◌}
use elastic_sycl_hls.Prelude.Int.{ℤ}
use elastic_sycl_hls.Bram.State.{
  StReq, LdReq, Config, LdEntry, Lsq, PipeInputs, alloc_head, load_head,
}
use elastic_sycl_hls.Bram.Stores.{
  StVal, take_st_val, commit_store, new_last_tag, alloc_moves, shift_allocs,
}
use elastic_sycl_hls.Bram.Loads.{
  Return, bypasses, return_load, accept_load, accepts, mark_first_two, shift_loads, set_head,
}

-- What an iteration does to its pipes: the load value written, with its port, the requests
-- accepted, and whether a store value was used up.
pub record Effects (V : Type 0) : Type 0 where
  pub returned : Option (ℕ × V)
  pub ld_req : Option LdReq
  pub st_req : Option StReq
  pub st_done : Bool

abbrev pub only_if {ℓ} : {A : Type ℓ} → Bool → Option A → Option A
only_if b o = if b then o else none

module _ {V : Type 0} (cfg : Config) (byte_of : V → ℤ) where
  -- The store value of this iteration, and the value that the head of the load queue gets.
  unfoldable pub cycle_st_val : Lsq V → PipeInputs V → StVal V
  cycle_st_val s inp = take_st_val cfg inp (alloc_head s.st_alloc) s.st_val_mux

  unfoldable pub cycle_return : Lsq V → PipeInputs V → Return V
  unfolding cycle_st_val
  cycle_return s inp =
      let st : StVal V = cycle_st_val s inp in
      let ld : LdEntry = load_head s.ld_queue in
      return_load cfg inp.ld_ready (bypasses st.valid (alloc_head s.st_alloc) ld) st.value
        (s.data_mem ld.addr) s.ld_val ld

  -- The body of `while (!end_signal)` after the read of the end signal.
  unfoldable pub cycle : Lsq V → PipeInputs V → Lsq V × Effects V
  unfolding cycle_st_val cycle_return
  cycle s inp =
      let st : StVal V = cycle_st_val s inp in
      let ret : Return V = cycle_return s inp in
      let loads : List LdEntry = set_head ret.head s.ld_queue in
      let moves : Bool = alloc_moves st.arrived s.st_alloc in
      let st_req : Option StReq = only_if moves inp.st_req_offer in
      (
        record {
          data_mem =
              commit_store cfg byte_of (s.data_mem (load_head s.ld_queue).addr) st
                (alloc_head s.st_alloc) s.data_mem;
          st_alloc = shift_allocs moves inp.st_req_offer inp.junk_tag s.st_alloc;
          last_st_req_tag = new_last_tag st_req s.last_st_req_tag;
          ld_queue =
              shift_loads cfg
                (mark_first_two s.last_st_req_tag s.st_alloc (accept_load inp.ld_req_offer loads));
          ld_val = ret.ld_val;
          st_val_mux = st.mux;
        },
        record {
          returned = ret.written;
          ld_req = only_if (accepts loads) inp.ld_req_offer;
          st_req = st_req;
          st_done = st.arrived;
        },
      )

  -- The end signal is only listened for when the store queue has an empty head.
  unfoldable pub ends : Lsq V → PipeInputs V → Bool
  ends s inp = not (alloc_head s.st_alloc).addr_valid && inp.end_arrived

  -- The loop, over the iterations that a list of inputs allows. The iteration that reads the end
  -- signal is completed.
  unfoldable pub run : Lsq V → List (PipeInputs V) → List (Effects V) × Lsq V
  unfolding cycle ends
  run s [] = ([], s)
  run s (inp ∷ inps) =
      let (s', eff) = cycle s inp in
      let rest = run s' inps in if ends s inp then (eff ∷ [], s') else (eff ∷ rest.0, rest.1)
