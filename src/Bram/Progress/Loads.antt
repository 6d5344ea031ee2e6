-- ===== src/Bram/Progress/Loads.antt =====
-- A load whose stores are done returns within two iterations: lsq/LoadStoreQueueBRAM.hpp 359-448.
use elastic_sycl_hls.Prelude.{
  ℕ, ◌≤◌, ◌<◌, ◌≡◌, ◌≢◌, ◌⊎◌, inl, inr, Bool, true, if◌then◌else◌, Option-cases, Option, none, some,
  List, [], ◌∷◌, arith, refl, ap, sym, ◌∙◌, length,
}
use elastic_sycl_hls.Prelude.Int.{ℤ}
use elastic_sycl_hls.Bram.State.{
  invalid_bram_addr, Config, Lsq, StAlloc, LdReq, LdEntry, PipeInputs, use_ld_mux, load_head,
}
use elastic_sycl_hls.Bram.Loads.{
  mark_safe, pipe_succ, return_load, accept_load, mark_first_two, shift_loads, set_head,
}
use elastic_sycl_hls.Bram.Cycle.{cycle_return, cycle}
use elastic_sycl_hls.Bram.Program.{Program, Progress, Conforms, advance, expected, expected_port}
use elastic_sycl_hls.Bram.Invariant.{Inv, LoadQueue}
use elastic_sycl_hls.Bram.Invariant.Stores.{StoreQueue-Allocs, StoreQueue-le}
use elastic_sycl_hls.Bram.Invariant.Loads.{load_rules, mark_safe-fields}
use elastic_sycl_hls.Bram.Invariant.Kept.{cycle-Inv, cycle-WrittenWell}
use elastic_sycl_hls.Bram.Progress.{mark_safe-done}

-- A valid head that is not returned stays the head, and may be marked safe.
kept_head :
    {V : Type 0} (p : Program V) (cfg : Config) (n : ℕ) (allocs : List StAlloc) (req : Option LdReq)
    (h : LdEntry) (q : List LdEntry)
    → 2 ≤ length q
    → h.addr_valid ≡ true
    → load_head (load_rules p cfg n allocs req (set_head h q)) ≡ mark_safe n allocs h
unfolding shift_loads mark_first_two accept_load
kept_head p cfg n allocs req h [] two v = absurd (omega arith)
kept_head p cfg n allocs req h (e ∷ []) two v = absurd (omega arith)
kept_head p cfg n allocs req h (e ∷ f ∷ q) two v =
    let m : (mark_safe n allocs h).addr_valid ≡ true = (mark_safe-fields p n allocs h).0 ∙ v in
    ground arith

cycle-returned :
    {V : Type 0} (cfg : Config) (byte_of : V → ℤ) (s : Lsq V) (inp : PipeInputs V)
    → (cycle cfg byte_of s inp).1.returned ≡ (cycle_return cfg byte_of s inp).written
unfolding cycle
cycle-returned cfg byte_of s inp = refl

module _ {V : Type 0} (cfg : Config) where
  return_load-returns :
      (ready : ℕ → Bool) (bypass : Bool) (st_val mem_val ld_val : V) (e : LdEntry)
      → e.addr_valid ≡ true
      → e.is_safe ≡ true
      → pipe_succ cfg ready e ≡ true
      → (return_load cfg ready bypass st_val mem_val ld_val e).written ≢ none
  unfolding return_load
  return_load-returns ready bypass st_val mem_val ld_val e v s ready' = ground arith

cycle_return-returns :
    {V : Type 0} (cfg : Config) (byte_of : V → ℤ) (s : Lsq V) (inp : PipeInputs V)
    → (load_head s.ld_queue).addr_valid ≡ true
    → (load_head s.ld_queue).is_safe ≡ true
    → pipe_succ cfg inp.ld_ready (load_head s.ld_queue) ≡ true
    → (cycle_return cfg byte_of s inp).written ≢ none
unfolding cycle_return
cycle_return-returns cfg byte_of s inp =
    return_load-returns cfg inp.ld_ready _ _ _ s.ld_val (load_head s.ld_queue)

module _ {V : Type 0} (cfg : Config) where
  return_load-stays :
      (ready : ℕ → Bool) (bypass : Bool) (st_val mem_val ld_val : V) (e : LdEntry)
      → e.addr_valid ≡ true
      → (return_load cfg ready bypass st_val mem_val ld_val e).written ≡ none
      → let h = (return_load cfg ready bypass st_val mem_val ld_val e).head in
        (h.addr_valid ≡ true) × (h.addr ≡ e.addr) × (h.tag ≡ e.tag) × (h.port ≡ e.port)
  unfolding return_load
  return_load-stays ready bypass st_val mem_val ld_val e v w = ground arith

module _ {V : Type 0} (cfg : Config) (byte_of : V → ℤ) (p : Program V) {g : Progress} {s : Lsq V}
    (inp : PipeInputs V) (inv : Inv cfg p g s) (ok : Conforms cfg p g inp) where
  abbrev after : Lsq V
  after = (cycle cfg byte_of s inp).0

  abbrev NextLoad : LdEntry → Type 0
  NextLoad e =
      (e.addr ≡ p.ld_addr g.returned)
      × (e.tag ≡ p.ld_tag g.returned)
      × (e.port ≡ p.ld_port g.returned)

  load_head-NextLoad :
      (q : List LdEntry)
      → LoadQueue cfg p g.done g.alloc g.returned g.requested s.ld_val q
      → (load_head q).addr_valid ≡ true
      → NextLoad (load_head q)
  load_head-NextLoad [] h v = absurd h
  load_head-NextLoad (e ∷ q) (inl (w, (a, t, port, safe), val, r)) v = (a, t, port)
  load_head-NextLoad (e ∷ q) (inr (w, x, y, r)) v = cc

  -- After an iteration that does not return the head, the head is marked safe.
  safe_next :
      (load_head s.ld_queue).addr_valid ≡ true
      → p.ld_tag g.returned ≤ g.done
      → p.ld_addr g.returned ≢ invalid_bram_addr
      → (cycle cfg byte_of s inp).1.returned ≡ none
      → let e = load_head after.ld_queue in
        (e.addr_valid ≡ true) × (e.is_safe ≡ true) × (e.port ≡ p.ld_port g.returned)
  unfolding cycle cycle_return
  safe_next v le ne none' =
      let e : LdEntry = load_head s.ld_queue in
      let (addr, tag, port) = load_head-NextLoad s.ld_queue inv.loads v in
      let h : LdEntry = (cycle_return cfg byte_of s inp).head in
      let (hv, ha, ht, hp) = return_load-stays cfg inp.ld_ready _ _ _ s.ld_val e v none' in
      let (fv, _, _, fp) = mark_safe-fields p g.alloc s.st_alloc h in
      rw
        (
          inv.last,
          kept_head p cfg g.alloc s.st_alloc inp.ld_req_offer h s.ld_queue inv.two_loads hv,
        )
        (
          fv ∙ hv,
          mark_safe-done p g.done g.alloc s.st_alloc h
              (StoreQueue-Allocs p g.done g.alloc s.st_alloc inv.stores) (omega arith)
              (StoreQueue-le p g.done g.alloc s.st_alloc inv.stores)
              (λ x. ne (sym addr ∙ sym ha ∙ x)) hv,
          fp ∙ hp ∙ port,
        )

  -- The port of the next load, as the kernel compares it with the ports that it has.
  abbrev pub PortReady : (ℕ → Bool) → Type 0
  PortReady ready =
      (ready (if use_ld_mux cfg then p.ld_port g.returned else 0) ≡ true)
      × (use_ld_mux cfg ≡ true → p.ld_port g.returned < cfg.num_lds)

  PortReady-pipe_succ :
      (ready : ℕ → Bool) (e : LdEntry)
      → e.port ≡ p.ld_port g.returned
      → PortReady ready
      → pipe_succ cfg ready e ≡ true
  unfolding pipe_succ
  PortReady-pipe_succ ready e port (r, small) = ground arith

  returns_next :
      (inp' : PipeInputs V)
      → (load_head s.ld_queue).addr_valid ≡ true
      → p.ld_tag g.returned ≤ g.done
      → p.ld_addr g.returned ≢ invalid_bram_addr
      → PortReady inp'.ld_ready
      → (cycle cfg byte_of s inp).1.returned ≡ none
      → (cycle cfg byte_of after inp').1.returned ≢ none
  returns_next inp' v le ne ready none' =
      let (av, safe, port) = safe_next v le ne none' in
      rw cycle-returned
        (cycle_return-returns cfg byte_of after inp' av safe (PortReady-pipe_succ _ _ port ready))

  -- A load at the head of the queue does not wait for ever. If the stores before it in program
  -- order are all done and its address is not the invalid one, then it returns in this iteration
  -- or, provided that its port is one that the kernel has and the load value pipe takes the value,
  -- in the next one; either way it is written to its port with the value that it is to have.
  pub load-returns :
      (inp' : PipeInputs V)
      → Conforms cfg p (advance g (cycle cfg byte_of s inp).1) inp'
      → (load_head s.ld_queue).addr_valid ≡ true
      → p.ld_tag g.returned ≤ g.done
      → p.ld_addr g.returned ≢ invalid_bram_addr
      → PortReady inp'.ld_ready
      → let load : ℕ × V = (expected_port cfg p g.returned, expected cfg p g.returned) in
        ((cycle cfg byte_of s inp).1.returned ≡ some load)
        ⊎ ((cycle cfg byte_of after inp').1.returned ≡ some load)
  load-returns inp' ok' v le ne ready = elim (Option-cases (cycle cfg byte_of s inp).1.returned) [
    | inr (x, now) ↦ inl (now ∙ ap some (cycle-WrittenWell cfg byte_of p inp inv ok x now))
    | inl not_now ↦ elim (Option-cases (cycle cfg byte_of after inp').1.returned) [
      | inl never ↦ absurd (returns_next inp' v le ne ready not_now never)
      | inr (x, later) ↦
          inr (
            later ∙ ap some (rw not_now at (cycle-WrittenWell cfg byte_of p inp' inv' ok' x later)))
    ]
  ]
    where
      inv' : Inv cfg p (advance g (cycle cfg byte_of s inp).1) after
      inv' = cycle-Inv cfg byte_of p inp inv ok
