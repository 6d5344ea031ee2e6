-- ===== src/Bram/Program.antt =====
-- What the kernel LSQ_BRAM of lsq/LoadStoreQueueBRAM.hpp promises: a program-order execution.
-- The client numbers its stores 1, 2, 3, … in program order; a load carries as its tag the number
-- of the last store before it. `expected` is the value that the load gets if every store takes
-- effect in program order.
use elastic_sycl_hls.Prelude.{
  ℕ, zero, suc, ◌+◌, ◌<◌, ◌^◌, ◌≡◌, Bool, ◌&&◌, if◌then◌else◌, Option, none, some, List, [], ◌∷◌,
}
use elastic_sycl_hls.Prelude.Int.{ℤ, ◌==ℤ◌}
use elastic_sycl_hls.Bram.State.{
  TaggedVal, StReq, LdReq, Config, use_st_val_mux_inlined, Lsq, PipeInputs,
}
use elastic_sycl_hls.Bram.Loads.{return_port}
use elastic_sycl_hls.Bram.Cycle.{Effects, cycle}

-- The memory operations in program order. Stores are numbered by their tags, from 1 on, and loads
-- from 0 on. A speculated store whose `st_valid` is false is not to be committed.
pub record Program (V : Type 0) : Type 0 where
  pub init : ℤ → V
  pub st_addr : ℕ → ℤ
  pub st_value : ℕ → V
  pub st_valid : ℕ → Bool
  pub ld_addr : ℕ → ℤ
  pub ld_tag : ℕ → ℕ
  pub ld_port : ℕ → ℕ

module _ {V : Type 0} (cfg : Config) (p : Program V) where
  -- Without speculation every store commits.
  abbrev pub commits : ℕ → Bool
  commits k = if cfg.use_speculation then p.st_valid k else Bool.true

  -- The memory after the first `n` stores.
  unfoldable pub mem_after : ℕ → ℤ → V
  mem_after zero a = p.init a
  mem_after (suc n) a =
      if commits (suc n) && (p.st_addr (suc n) ==ℤ a) then p.st_value (suc n) else mem_after n a

  -- What load `i` is to return.
  abbrev pub expected : ℕ → V
  expected i = mem_after (p.ld_tag i) (p.ld_addr i)

  abbrev pub expected_port : ℕ → ℕ
  expected_port i = return_port cfg (record {
    addr = p.ld_addr i;
    tag = p.ld_tag i;
    addr_valid = Bool.true;
    val_valid = Bool.true;
    is_safe = Bool.true;
    port = p.ld_port i;
  })

-- How far the queue has come: loads returned and requested, stores done and requested.
pub record Progress : Type 0 where
  pub returned : ℕ
  pub requested : ℕ
  pub done : ℕ
  pub alloc : ℕ

abbrev pub no_progress : Progress
no_progress = record { returned = 0; requested = 0; done = 0; alloc = 0 }

abbrev pub one_if_some {ℓ} : {A : Type ℓ} → Option A → ℕ → ℕ
one_if_some none n = n
one_if_some (some a) n = suc n

abbrev pub advance : {V : Type 0} → Progress → Effects V → Progress
advance g eff = record {
  returned = one_if_some eff.returned g.returned;
  requested = one_if_some eff.ld_req g.requested;
  done = if eff.st_done then suc g.done else g.done;
  alloc = one_if_some eff.st_req g.alloc;
}

-- The clients' side of one iteration. Requests arrive in program order and fewer than 2^32 - 2
-- stores are requested. A store value belongs to the store whose tag it carries, and is sent only
-- when every load before that store in program order has returned (the compute unit reads its
-- loads before it writes the later store values). The one pipe of a queue with no inlined mux
-- delivers the values in the order of their tags.
pub record Conforms {V : Type 0} (cfg : Config) (p : Program V) (g : Progress) (inp : PipeInputs V)
    : Type 0 where
  pub ld_reqs :
      (r : LdReq)
      → inp.ld_req_offer ≡ some r
      → (r.addr ≡ p.ld_addr g.requested)
        × (r.tag ≡ p.ld_tag g.requested)
        × (r.port_ldtag_union ≡ p.ld_port g.requested)
  pub st_reqs :
      (r : StReq)
      → inp.st_req_offer ≡ some r
      → (r.addr ≡ p.st_addr (suc g.alloc)) × (r.tag ≡ suc g.alloc) × (g.alloc + 2 < 2 ^ 32)
  pub st_vals :
      (k : ℕ) (x : TaggedVal V)
      → inp.st_val_offer k ≡ some x
      → (x.value ≡ p.st_value x.tag) × (x.valid ≡ p.st_valid x.tag)
  pub loads_first :
      (k : ℕ) (x : TaggedVal V)
      → inp.st_val_offer k ≡ some x
      → (i : ℕ) → p.ld_tag i < x.tag
      → i < g.returned
  pub in_order :
      (x : TaggedVal V)
      → use_st_val_mux_inlined cfg ≡ Bool.false
      → inp.st_val_offer 0 ≡ some x
      → x.tag ≡ suc g.done

module _ {V : Type 0} (cfg : Config) (byte_of : V → ℤ) (p : Program V) where
  -- The clients conform in every iteration of a run.
  abbrev pub ConformsRun : Progress → Lsq V → List (PipeInputs V) → Type 0
  ConformsRun g s [] = Unit
  ConformsRun g s (inp ∷ inps) =
      Conforms cfg p g inp
      × ConformsRun (advance g (cycle cfg byte_of s inp).1) (cycle cfg byte_of s inp).0 inps
