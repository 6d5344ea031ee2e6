-- ===== src/Bram/Loads.antt =====
-- The load rules of the kernel LSQ_BRAM, lsq/LoadStoreQueueBRAM.hpp lines 376-453: returning the
-- value of the head, accepting a request, marking loads safe, and the shift of the load queue.
use elastic_sycl_hls.Prelude.{
  ℕ, ◌+◌, Bool, true, false, not, ◌&&◌, ◌||◌, if◌then◌else◌, ◌==◌, leb, ltb, Option, none, some,
  List, [], ◌∷◌,
}
use elastic_sycl_hls.Prelude.Int.{◌==ℤ◌}
use elastic_sycl_hls.Bram.State.{LdReq, Config, use_ld_mux, StAlloc, LdEntry, no_load, load_head}
use elastic_sycl_hls.Bram.Stores.{shift_in}

-- `is_bypass`
unfoldable pub bypasses : Bool → StAlloc → LdEntry → Bool
bypasses st_val_valid st ld = st_val_valid && (st.addr ==ℤ ld.addr) && (st.tag == ld.tag)

-- `pipe_succ` of the write to the port of the load.
unfoldable pub pipe_succ : Config → (ℕ → Bool) → LdEntry → Bool
unfolding use_ld_mux
pipe_succ cfg ready ld =
    if use_ld_mux cfg then ltb ld.port cfg.num_lds && ready ld.port else ready 0

abbrev pub return_port : Config → LdEntry → ℕ
return_port cfg ld = if use_ld_mux cfg then ld.port else 0

-- The head of the load queue, `ld_val`, and what is written to a load value pipe.
pub record Return (V : Type 0) : Type 0 where
  pub head : LdEntry
  pub ld_val : V
  pub written : Option (ℕ × V)

module _ {V : Type 0} (cfg : Config) where
  -- The body of the rule for returning a load value, for a head that may return.
  unfoldable pub write_load : (ℕ → Bool) → V → LdEntry → Return V
  unfolding pipe_succ
  write_load ready v ld =
      if pipe_succ cfg ready ld
      then record {
        head = record ld { addr_valid = false; val_valid = false; port = cfg.num_lds + 1 };
        ld_val = v;
        written = some (return_port cfg ld, v);
      }
      else record { head = record ld { val_valid = true }; ld_val = v; written = none }

  -- `ready` are the load value pipes, `bypass` and `st_val` the store of this cycle, `mem_val` the
  -- word read before it, `ld_val` the value kept from an earlier failed write.
  unfoldable pub return_load : (ℕ → Bool) → Bool → V → V → V → LdEntry → Return V
  unfolding write_load
  return_load ready bypass st_val mem_val ld_val ld =
      if ld.addr_valid && (bypass || ld.is_safe)
      then write_load ready (if ld.val_valid then ld_val else if bypass then st_val else mem_val) ld
      else record { head = ld; ld_val = ld_val; written = none }

-- What the rule for load requests does to the last entry.
unfoldable pub fill_entry : Option LdReq → LdEntry → LdEntry
fill_entry none e = e
fill_entry (some r) e = record e {
  addr = r.addr;
  tag = r.tag;
  addr_valid = true;
  port = r.port_ldtag_union;
}

-- The pipe is read only if the last entry is empty.
unfoldable pub accept_load : Option LdReq → List LdEntry → List LdEntry
accept_load req [] = []
accept_load req (e ∷ []) = (if e.addr_valid then e else fill_entry req e) ∷ []
accept_load req (e ∷ f ∷ q) = e ∷ accept_load req (f ∷ q)

unfoldable pub accepts : List LdEntry → Bool
accepts [] = false
accepts (e ∷ []) = not e.addr_valid
accepts (e ∷ f ∷ q) = accepts (f ∷ q)

-- `ld_wait`: some allocated store has the address of the load and precedes it.
unfoldable pub ld_wait : List StAlloc → LdEntry → Bool
ld_wait [] ld = false
ld_wait (st ∷ q) ld = ((st.addr ==ℤ ld.addr) && leb st.tag ld.tag) || ld_wait q ld

unfoldable pub mark_safe : ℕ → List StAlloc → LdEntry → LdEntry
mark_safe last_st_req_tag allocs ld =
    if ld.addr_valid && leb ld.tag last_st_req_tag && not (ld_wait allocs ld)
    then record ld { is_safe = true }
    else ld

-- `UnrolledLoop<2>`: only the first two entries are marked.
abbrev pub mark_first : ℕ → List StAlloc → List LdEntry → List LdEntry
mark_first last allocs [] = []
mark_first last allocs (e ∷ q) = mark_safe last allocs e ∷ q

unfoldable pub mark_first_two : ℕ → List StAlloc → List LdEntry → List LdEntry
mark_first_two last allocs [] = []
mark_first_two last allocs (e ∷ q) = mark_safe last allocs e ∷ mark_first last allocs q

-- The queue is shifted when its head is empty.
unfoldable pub shift_loads : Config → List LdEntry → List LdEntry
shift_loads cfg q = if (load_head q).addr_valid then q else shift_in (no_load (cfg.num_lds + 1)) q

abbrev pub set_head : LdEntry → List LdEntry → List LdEntry
set_head h [] = []
set_head h (e ∷ q) = h ∷ q
