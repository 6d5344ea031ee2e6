-- ===== src/Bram/Invariant/Kept.antt =====
-- One iteration of the kernel LSQ_BRAM keeps the invariant: lsq/LoadStoreQueueBRAM.hpp 288-480.
use elastic_sycl_hls.Prelude.{
  ℕ, suc, ◌+◌, ◌≤◌, ◌<◌, ◌^◌, ◌≡◌, Bool, true, false, Option, none, some, arith, refl,
  if◌then◌else◌, Bool-cases, inl, inr, dec_lt,
}
use elastic_sycl_hls.Prelude.Int.{ℤ}
use elastic_sycl_hls.Bram.State.{Config, Lsq, StReq, PipeInputs, use_st_val_mux_inlined, alloc_head}
use elastic_sycl_hls.Bram.Stores.{StVal, alloc_moves, new_last_tag}
use elastic_sycl_hls.Bram.Loads.{Return, accepts, set_head}
use elastic_sycl_hls.Bram.Cycle.{only_if, cycle_st_val, cycle_return, cycle}
use elastic_sycl_hls.Bram.Sizes.{cycle-sizes}
use elastic_sycl_hls.Bram.Program.{Program, Progress, Conforms, advance, one_if_some}
use elastic_sycl_hls.Bram.Invariant.{Inv, MuxHolds, LoadQueue, StoreQueue}
use elastic_sycl_hls.Bram.Invariant.Stores.{shift_allocs-Allocs, StoreQueue-head, StoreQueue-Allocs}
use elastic_sycl_hls.Bram.Invariant.Values.{TakenWell, take_st_val-TakenWell}
use elastic_sycl_hls.Bram.Invariant.Memory.{commit_store-mem_after}
use elastic_sycl_hls.Bram.Invariant.Loads.{LoadQueue-mono}
use elastic_sycl_hls.Bram.Invariant.Returns.{WrittenWell, LoadsWell, loads-kept}

one_if_some-only_if {ℓ} :
    {A : Type ℓ} (b : Bool) (o : Option A) (n : ℕ)
    → one_if_some (only_if b o) n ≡ (if b then one_if_some o n else n)
one_if_some-only_if true o n = refl
one_if_some-only_if false o n = refl

only_if-some {ℓ} :
    {A : Type ℓ} (b : Bool) (o : Option A) (a : A) → only_if b o ≡ some a → o ≡ some a
only_if-some true o a e = e
only_if-some false o a e = cc

le-one_if_some {ℓ} : {A : Type ℓ} (o : Option A) (n : ℕ) → n ≤ one_if_some o n
le-one_if_some none n = omega arith
le-one_if_some (some a) n = omega arith

-- The tag of the last request, and its bound, after a request or none.
new_last_tag-eq :
    (o : Option StReq) (last n : ℕ)
    → ((r : StReq) → o ≡ some r → (r.tag ≡ suc n) × (n + 2 < 2 ^ 32))
    → last ≡ n
    → n + 1 < 2 ^ 32
    → (new_last_tag o last ≡ one_if_some o n) × (one_if_some o n + 1 < 2 ^ 32)
new_last_tag-eq none last n h e b = (e, b)
new_last_tag-eq (some r) last n h e b = let (t, small) = h r refl in (t, omega arith)

module _ {V : Type 0} (cfg : Config) (byte_of : V → ℤ) (p : Program V) {g : Progress} {s : Lsq V}
    (inp : PipeInputs V) (inv : Inv cfg p g s) (ok : Conforms cfg p g inp) where
  st : StVal V
  st = cycle_st_val cfg byte_of s inp

  ret : Return V
  ret = cycle_return cfg byte_of s inp

  moves : Bool
  moves = alloc_moves st.arrived s.st_alloc

  g' : Progress
  g' = advance g (cycle cfg byte_of s inp).1

  small : (alloc_head s.st_alloc).addr_valid ≡ true → g.done + 2 < 2 ^ 32
  small v = omega (arith, inv.few, (StoreQueue-head p g.done g.alloc s.st_alloc inv.stores v).2)

  taken : TakenWell cfg p g (alloc_head s.st_alloc) s.st_val_mux st
  unfolding st cycle_st_val
  taken = take_st_val-TakenWell cfg p g inp (alloc_head s.st_alloc) s.st_val_mux ok inv.mux small

  oldest :
      st.arrived ≡ true
      → ((alloc_head s.st_alloc).addr ≡ p.st_addr (suc g.done))
        × ((alloc_head s.st_alloc).tag ≡ suc g.done)
  oldest a =
      let (addr, tag, _) = StoreQueue-head p g.done g.alloc s.st_alloc inv.stores (taken.1 a) in
      (addr, tag)

  waits : g.done ≤ p.ld_tag g.returned
  waits = elim (dec_lt (p.ld_tag g.returned) g.done) [
    | yes before ↦ absurd (omega (arith, inv.served g.returned before))
    | no not_before ↦ omega arith
  ]

  loads :
      LoadsWell cfg p g.done g.alloc g.returned g.requested s.st_alloc inp.ld_req_offer s.ld_queue
        ret
  unfolding ret cycle_return st
  loads =
      loads-kept cfg p inp.ld_ready st (alloc_head s.st_alloc) s.data_mem g.done g.alloc g.returned
        g.requested taken.0 oldest inv.memory waits s.st_alloc inp.ld_req_offer s.ld_val s.ld_queue
        ok.ld_reqs (StoreQueue-Allocs p g.done g.alloc s.st_alloc inv.stores) inv.two_loads
        inv.loads

  alloc_eq : g'.alloc ≡ (if moves then one_if_some inp.st_req_offer g.alloc else g.alloc)
  unfolding g' moves st cycle
  alloc_eq = one_if_some-only_if _ inp.st_req_offer g.alloc

  stores_after : StoreQueue p g'.done g'.alloc (cycle cfg byte_of s inp).0.st_alloc
  unfolding g' moves st cycle
  stores_after = rw alloc_eq (
      shift_allocs-Allocs p st.arrived g.done g.alloc s.st_alloc inp.st_req_offer inp.junk_tag
        taken.1 (λ r e. let (a, t, _) = ok.st_reqs r e in (a, t)) inv.stores)

  done_le : g.done ≤ g'.done
  unfolding g' st cycle
  done_le = ground arith

  alloc_le : g.alloc ≤ g'.alloc
  unfolding g' cycle
  alloc_le = le-one_if_some {0} _ g.alloc

  returned_le : g.returned ≤ g'.returned
  unfolding g' cycle
  returned_le = le-one_if_some {0} _ g.returned

  loads_after :
      LoadQueue cfg p g'.done g'.alloc g'.returned g'.requested
        (cycle cfg byte_of s inp).0.ld_val
        (cycle cfg byte_of s inp).0.ld_queue
  unfolding g' ret cycle
  loads_after =
      rw
        (
          one_if_some-only_if (accepts (set_head ret.head s.ld_queue)) inp.ld_req_offer g.requested,
          inv.last,
        )
        (LoadQueue-mono p cfg g.done g'.done g.alloc g'.alloc _ _ _ _ done_le alloc_le loads.0)

  served_after : (i : ℕ) → p.ld_tag i < g'.done → i < g'.returned
  unfolding g' st cycle
  served_after i lt = elim (Bool-cases st.arrived) [
    | inl a ↦ omega (arith, taken.0.served a i (ground arith), returned_le)
    | inr n ↦ omega (arith, inv.served i (ground arith), returned_le)
  ]

  last_after : ((cycle cfg byte_of s inp).0.last_st_req_tag ≡ g'.alloc) × (g'.alloc + 1 < 2 ^ 32)
  unfolding g' moves st cycle
  last_after =
      new_last_tag-eq (only_if moves inp.st_req_offer) s.last_st_req_tag g.alloc
        (λ r e. let (a, t, small') = ok.st_reqs r (only_if-some moves _ r e) in (t, small'))
        inv.last inv.few

  mux_after :
      use_st_val_mux_inlined cfg ≡ true → MuxHolds p g' (cycle cfg byte_of s inp).0.st_val_mux
  unfolding g' st cycle
  mux_after inlined =
      let m = taken.2 inlined in
      record {
        next = m.next;
        values = λ i x held.
            let (v, w, before) = m.values i x held in
            (v, w, λ j lt. omega (arith, before j lt, returned_le));
      }

  -- One iteration keeps the invariant: if it holds between the registers, a program and the progress
  -- made, and the clients conform in the iteration, then it holds between the new registers, the
  -- program and the progress advanced by the effects of the iteration.
  pub cycle-Inv : Inv cfg p (advance g (cycle cfg byte_of s inp).1) (cycle cfg byte_of s inp).0
  unfolding g' st cycle
  cycle-Inv = record {
    memory = λ a.
        commit_store-mem_after cfg p byte_of g.done g.returned st (alloc_head s.st_alloc) _
          s.data_mem a taken.0 (λ h. (oldest h).0) inv.memory;
    last = last_after.0;
    few = last_after.1;
    stores = stores_after;
    loads = loads_after;
    two_loads = omega (arith, inv.two_loads, (cycle-sizes cfg byte_of s inp).1);
    served = served_after;
    mux = mux_after;
  }

  -- What it writes to a load value pipe is the next load, with its port and its value.
  pub cycle-WrittenWell : WrittenWell cfg p g.returned (cycle cfg byte_of s inp).1.returned
  unfolding cycle ret
  cycle-WrittenWell = loads.1
