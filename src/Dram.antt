-- ===== src/Dram.antt =====
-- One iteration of the kernel LSQ_DRAM, lsq/LoadStoreQueueDRAM.hpp lines 164-377. The store
-- allocation queue is as in the BRAM version, whose definitions are used; there are a commit queue
-- of the last stores, and one load queue for each load port. Pipe writes block, so they are effects.
pub mod CommitQueue
pub mod Safe
mod Tests
use elastic_sycl_hls.Prelude.{
  ℕ, ◌+◌, ◌==◌, leb, Bool, true, false, not, ◌&&◌, ◌||◌, if◌then◌else◌, Option, none, some, List,
  [], ◌∷◌,
}
use elastic_sycl_hls.Prelude.Int.{ℤ, ◌==ℤ◌}
use elastic_sycl_hls.Mux.{Mux, mux_step, next_uint}
use elastic_sycl_hls.Bram.State.{
  TaggedVal, val_tag, StReq, Config, StAlloc, invalid_bram_addr, alloc_head,
}
use elastic_sycl_hls.Bram.Stores.{
  StVal, st_val_from, picked_val, shift_in, alloc_moves, shift_allocs,
}

-- INVALID_ADDRESS
abbrev pub invalid_address : ℤ
invalid_address = invalid_bram_addr

-- A load request, req_lsq_dram_t.
pub record DramReq : Type 0 where
  pub addr : ℤ
  pub tag : ℕ

pub data LdState : Type 0 where
  wait_for_req : LdState
  search : LdState
  return_state : LdState

abbrev pub waits : LdState → Bool
waits LdState.wait_for_req = true
waits _ = false

abbrev pub searches : LdState → Bool
searches LdState.search = true
searches _ = false

-- st_commit_addr and st_commit_value.
pub record Commit (V : Type 0) : Type 0 where
  pub addr : ℤ
  pub value : V

-- ld_state, ld_addr, ld_tag, ld_is_safe, is_bypass and bypass_val.
pub record DramLoad (V : Type 0) : Type 0 where
  pub state : LdState
  pub addr : ℤ
  pub tag : ℕ
  pub is_safe : Bool
  pub is_bypass : Bool
  pub bypass_val : V

pub record DramLsq (V : Type 0) : Type 0 where
  pub st_alloc : List StAlloc
  pub st_commit : List (Commit V)
  pub last_st_req_tag : ℕ
  pub ld_ports : List (List (DramLoad V))
  pub st_val_mux : Mux (TaggedVal V)

pub record DramInputs (V : Type 0) : Type 0 where
  pub st_val_offer : ℕ → Option (TaggedVal V)
  pub st_req_offer : Option StReq
  pub ld_req_offer : ℕ → Option DramReq
  pub junk_val : TaggedVal V
  pub junk_tag : ℕ

-- What a load port tells its load mux: the value bypassed, or the address to load from.
pub data LoadAction (V : Type 0) : Type 0 where
  bypass : V → LoadAction V
  load_from : ℤ → LoadAction V

-- `last_st_req_tag++`
abbrev pub count_request : Option StReq → ℕ → ℕ
count_request none n = n
count_request (some r) n = next_uint n

-- `ld_wait`
unfoldable pub load_waits : List StAlloc → ℤ → ℕ → Bool
load_waits [] addr tag = false
load_waits (st ∷ q) addr tag = ((st.addr ==ℤ addr) && leb st.tag tag) || load_waits q addr tag

module _ {V : Type 0} (cfg : Config) where
  -- The store value: from port 0 if NUM_ST_REQ is 1, else from the mux.
  unfoldable pub dram_st_val : DramInputs V → StAlloc → Mux (TaggedVal V) → StVal V
  unfolding st_val_from
  dram_st_val inp head mux =
      if not head.addr_valid
      then record { arrived = false; valid = false; value = inp.junk_val.value; mux = mux }
      else if cfg.num_st_req == 1
      then st_val_from cfg (inp.st_val_offer 0) inp.junk_val mux
      else (let (mux', chosen) = mux_step val_tag mux inp.st_val_offer in
          st_val_from cfg (picked_val cfg chosen) inp.junk_val mux')

  abbrev pub commit_head : List (Commit V) → ℤ
  commit_head [] = invalid_address
  commit_head (c ∷ q) = c.addr

  -- The entry that enters the commit queue, and the shift.
  unfoldable pub shift_commits : StVal V → StAlloc → List (Commit V) → List (Commit V)
  shift_commits st head q =
      if st.valid || (commit_head q ==ℤ invalid_address)
      then shift_in
          (record { addr = if st.valid then head.addr else invalid_address; value = st.value }) q
      else q

  -- What is written to the store port.
  unfoldable pub store_written : StVal V → StAlloc → Option (ℤ × V)
  store_written st head = if st.valid then some (head.addr, st.value) else none

  -- Returning the head.
  unfoldable pub return_head : List (DramLoad V) → List (DramLoad V) × Option (LoadAction V)
  return_head [] = ([], none)
  return_head (e ∷ q) =
      if searches e.state && e.is_safe
      then (
        record e { state = LdState.wait_for_req } ∷ q,
        some (if e.is_bypass then LoadAction.bypass e.bypass_val else LoadAction.load_from e.addr),
      )
      else (e ∷ q, none)

  abbrev pub fill_load : Option DramReq → DramLoad V → DramLoad V
  fill_load none e = record e { is_safe = false }
  fill_load (some r) e = record e {
    state = LdState.search;
    addr = r.addr;
    tag = r.tag;
    is_safe = false;
  }

  -- Reading a request into the last entry, if it waits for one.
  unfoldable pub accept_request : Option DramReq → List (DramLoad V) → List (DramLoad V)
  accept_request req [] = []
  accept_request req (e ∷ []) = (if waits e.state then fill_load req e else e) ∷ []
  accept_request req (e ∷ f ∷ q) = e ∷ accept_request req (f ∷ q)

  -- The last match in the commit queue, if there is one; `found` is the match so far.
  unfoldable pub find_bypass : List (Commit V) → ℤ → Option V → Option V
  find_bypass [] addr found = found
  find_bypass (c ∷ q) addr found =
      find_bypass q addr (if c.addr ==ℤ addr then some c.value else found)

  abbrev pub set_bypass : Option V → DramLoad V → DramLoad V
  set_bypass none e = record e { is_bypass = false }
  set_bypass (some v) e = record e { is_bypass = true; bypass_val = v }

  -- The body of `UnrolledLoop<2>` for one entry.
  unfoldable pub check_load : ℕ → List StAlloc → List (Commit V) → DramLoad V → DramLoad V
  unfolding load_waits find_bypass
  check_load last allocs commits e = set_bypass (find_bypass commits e.addr none) (
      if leb e.tag last && not (load_waits allocs e.addr e.tag)
      then record e { is_safe = true }
      else e)

  abbrev pub check_one : ℕ → List StAlloc → List (Commit V) → List (DramLoad V) → List (DramLoad V)
  check_one last allocs commits [] = []
  check_one last allocs commits (e ∷ q) = check_load last allocs commits e ∷ q

  unfoldable pub check_two :
      ℕ → List StAlloc → List (Commit V) → List (DramLoad V) → List (DramLoad V)
  unfolding check_load
  check_two last allocs commits [] = []
  check_two last allocs commits (e ∷ q) =
      check_load last allocs commits e ∷ check_one last allocs commits q

  -- Every entry takes over the next one; the last is emptied but keeps its other fields.
  unfoldable pub shift_up : List (DramLoad V) → List (DramLoad V)
  shift_up [] = []
  shift_up (e ∷ []) = record e { state = LdState.wait_for_req; is_safe = false } ∷ []
  shift_up (e ∷ f ∷ []) = f ∷ record f { state = LdState.wait_for_req; is_safe = false } ∷ []
  shift_up (e ∷ f ∷ g ∷ q) = f ∷ shift_up (f ∷ g ∷ q)

  unfoldable pub shift_port : List (DramLoad V) → List (DramLoad V)
  unfolding shift_up
  shift_port [] = []
  shift_port (e ∷ q) = if waits e.state then shift_up (e ∷ q) else e ∷ q

  -- The load logic of one port.
  unfoldable pub port_step :
      ℕ
      → List StAlloc
      → List (Commit V)
      → Option DramReq
      → List (DramLoad V)
      → List (DramLoad V) × Option (LoadAction V)
  unfolding return_head accept_request check_two shift_port
  port_step last allocs commits req q =
      let (q', action) = return_head q in
      (shift_port (check_two last allocs commits (accept_request req q')), action)

  unfoldable pub ports_step :
      ℕ
      → List StAlloc
      → List (Commit V)
      → (ℕ → Option DramReq)
      → ℕ
      → List (List (DramLoad V))
      → List (List (DramLoad V)) × List (Option (LoadAction V))
  unfolding port_step
  ports_step last allocs commits reqs i [] = ([], [])
  ports_step last allocs commits reqs i (q ∷ qs) =
      let (q', action) = port_step last allocs commits (reqs i) q in
      let rest = ports_step last allocs commits reqs (i + 1) qs in (q' ∷ rest.0, action ∷ rest.1)

  -- The body of `while (!end_signal)`: the registers, the store written and the loads' actions. The
  -- load logic reads the registers as the store logic left them.
  unfoldable pub dram_cycle :
      DramLsq V → DramInputs V → DramLsq V × Option (ℤ × V) × List (Option (LoadAction V))
  unfolding dram_st_val shift_commits store_written ports_step
  dram_cycle s inp =
      let head : StAlloc = alloc_head s.st_alloc in
      let st : StVal V = dram_st_val inp head s.st_val_mux in
      let moves : Bool = alloc_moves st.arrived s.st_alloc in
      let allocs : List StAlloc = shift_allocs moves inp.st_req_offer inp.junk_tag s.st_alloc in
      let last : ℕ =
        if moves then count_request inp.st_req_offer s.last_st_req_tag else s.last_st_req_tag in
      let commits : List (Commit V) = shift_commits st head s.st_commit in
      let loads = ports_step last allocs commits inp.ld_req_offer 0 s.ld_ports in
      (
        record {
          st_alloc = allocs;
          st_commit = commits;
          last_st_req_tag = last;
          ld_ports = loads.0;
          st_val_mux = st.mux;
        },
        store_written st head,
        loads.1,
      )
