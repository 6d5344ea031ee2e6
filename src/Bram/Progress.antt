-- ===== src/Bram/Progress.antt =====
-- The kernel LSQ_BRAM of lsq/LoadStoreQueueBRAM.hpp does not get stuck: requests move towards the
-- heads of the queues, a store value that is offered is used, and a load whose stores are done
-- returns.
pub mod Loads
use elastic_sycl_hls.Prelude.{
  ℕ, zero, suc, ◌+◌, ◌≤◌, ◌<◌, ◌≡◌, ◌≢◌, ◌⊎◌, inl, inr, Bool, true, false, not, ◌&&◌, ◌||◌, leb,
  if◌then◌else◌, Bool-cases, Option, none, some, List, [], ◌∷◌, ◌++◌, arith, refl, ap, length,
}
use elastic_sycl_hls.Prelude.Int.{ℤ, ==ℤ_iff}
use elastic_sycl_hls.Bram.State.{
  invalid_bram_addr, Config, Lsq, StAlloc, StReq, LdEntry, PipeInputs, TaggedVal,
  use_st_val_mux_inlined, alloc_head, load_head,
}
use elastic_sycl_hls.Bram.Stores.{
  st_val_from, read_st_val, take_st_val, shift_in, alloc_moves, shift_allocs, new_alloc,
}
use elastic_sycl_hls.Bram.Loads.{
  Return, ld_wait, mark_safe, pipe_succ, write_load, return_load, bypasses, accept_load,
  mark_first_two, shift_loads, set_head,
}
use elastic_sycl_hls.Bram.Cycle.{cycle, ends, run}
use elastic_sycl_hls.Bram.Program.{Program, Progress, Conforms, advance}
use elastic_sycl_hls.Bram.Invariant.{Inv, Holds, Allocs, LoadQueue, StoreQueue}
use elastic_sycl_hls.Bram.Invariant.Stores.{StoreQueue-Allocs}
use elastic_sycl_hls.Bram.Invariant.Kept.{cycle-Inv}

-- The position of the first entry that holds a request.
abbrev pub first_alloc : List StAlloc → Option ℕ
first_alloc [] = none
first_alloc (e ∷ q) =
    if e.addr_valid then some 0 else elim (first_alloc q) [ none ↦ none | some k ↦ some (suc k) ]

first_alloc-append :
    (q r : List StAlloc) (k : ℕ) → first_alloc q ≡ some k → first_alloc (q ++ r) ≡ some k
first_alloc-append [] r k h = cc
first_alloc-append (e ∷ q) r zero h = ground (arith, first_alloc-append q r zero)
first_alloc-append (e ∷ q) r (suc k) h = ground (arith, first_alloc-append q r k)

first_alloc-head : (q : List StAlloc) → first_alloc q ≡ some 0 → (alloc_head q).addr_valid ≡ true
first_alloc-head [] h = cc
first_alloc-head (e ∷ q) h = ground arith

first_alloc-tail :
    (e : StAlloc) (q : List StAlloc) (k : ℕ)
    → first_alloc (e ∷ q) ≡ some (suc k)
    → (e.addr_valid ≡ false) × (first_alloc q ≡ some k)
first_alloc-tail e q k h = ground arith

first_alloc-head_empty :
    (q : List StAlloc) (k : ℕ) → first_alloc q ≡ some (suc k) → (alloc_head q).addr_valid ≡ false
first_alloc-head_empty [] k h = cc
first_alloc-head_empty (e ∷ q) k h = (first_alloc-tail e q k h).0

shift_allocs-first :
    (arrived : Bool) (q : List StAlloc) (req : Option StReq) (junk k : ℕ)
    → first_alloc q ≡ some (suc k)
    → first_alloc (shift_allocs (alloc_moves arrived q) req junk q) ≡ some k
unfolding shift_allocs alloc_moves
shift_allocs-first arrived [] req junk k h = cc
shift_allocs-first true (e ∷ q) req junk k h = first_alloc-append q _ k (first_alloc-tail e q k h).1
shift_allocs-first false (e ∷ q) req junk k h =
    let (v, t) = first_alloc-tail e q k h in rw v (first_alloc-append q _ k t)

module _ {V : Type 0} (cfg : Config) (byte_of : V → ℤ) where
  -- The registers after a sequence of iterations.
  abbrev pub iterate : Lsq V → List (PipeInputs V) → Lsq V
  iterate s [] = s
  iterate s (inp ∷ inps) = iterate (cycle cfg byte_of s inp).0 inps

  -- Whatever the pipes do, the first store request of the allocation queue moves to its head in as
  -- many iterations as its position.
  pub iterate-first_alloc :
      (s : Lsq V) (inps : List (PipeInputs V))
      → first_alloc s.st_alloc ≡ some (length inps)
      → (alloc_head (iterate s inps).st_alloc).addr_valid ≡ true
  unfolding cycle
  iterate-first_alloc s [] h = first_alloc-head s.st_alloc h
  iterate-first_alloc s (inp ∷ inps) h =
      iterate-first_alloc (cycle cfg byte_of s inp).0 inps
        (shift_allocs-first _ s.st_alloc inp.st_req_offer inp.junk_tag (length inps) h)

-- A load whose stores are all done matches no entry of the store queue.
ld_wait-done :
    {V : Type 0} (p : Program V) (c n : ℕ) (q : List StAlloc) (ld : LdEntry)
    → Allocs p c n q
    → ld.tag ≤ c
    → ld.addr ≢ invalid_bram_addr
    → ld_wait q ld ≡ false
unfolding ld_wait
ld_wait-done p c n [] ld h le ne = refl
ld_wait-done p c n (e ∷ q) ld (inl (v, a, t, i)) le ne =
    ground (arith, ld_wait-done p (suc c) n q ld i (omega arith) ne)
ld_wait-done p c n (e ∷ q) ld (inr (v, x, i)) le ne =
    ground (arith, ld_wait-done p c n q ld i le ne, ==ℤ_iff e.addr ld.addr)

pub mark_safe-done :
    {V : Type 0} (p : Program V) (c n : ℕ) (q : List StAlloc) (ld : LdEntry)
    → Allocs p c n q
    → ld.tag ≤ c
    → c ≤ n
    → ld.addr ≢ invalid_bram_addr
    → ld.addr_valid ≡ true
    → (mark_safe n q ld).is_safe ≡ true
unfolding mark_safe
mark_safe-done p c n q ld h le le' ne v = ground (arith, ld_wait-done p c n q ld h le ne)

-- The end signal is listened for whenever the head of the store queue is empty, also when requests
-- wait behind it: a run whose first iteration reads it then ends after that iteration, with the
-- first request still in the queue, one entry further on and not done.
pub ends-pending :
    {V : Type 0} (cfg : Config) (byte_of : V → ℤ) (s : Lsq V) (inp : PipeInputs V)
    (inps : List (PipeInputs V)) (k : ℕ)
    → first_alloc s.st_alloc ≡ some (suc k)
    → inp.end_arrived ≡ true
    → let (effs, s') = run cfg byte_of s (inp ∷ inps) in
      (length effs ≡ 1) × (first_alloc s'.st_alloc ≡ some k)
unfolding run ends cycle
ends-pending cfg byte_of s inp inps k h signal =
    rw (first_alloc-head_empty s.st_alloc k h, signal)
      (refl, shift_allocs-first _ s.st_alloc inp.st_req_offer inp.junk_tag k h)
