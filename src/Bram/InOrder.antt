-- ===== src/Bram/InOrder.antt =====
-- The kernel LSQ_BRAM of lsq/LoadStoreQueueBRAM.hpp against the program-order execution.
use elastic_sycl_hls.Prelude.{
  ℕ, zero, suc, ◌-◌, ◌≤◌, ◌≡◌, Bool-cases, inl, inr, Option, none, some, List, [], ◌∷◌, arith, refl,
  length, replicate, get_elem?, Option-cases,
}
use elastic_sycl_hls.Prelude.Int.{ℤ}
use elastic_sycl_hls.Bram.State.{Config, Lsq, PipeInputs, initial_lsq, no_load, no_alloc}
use elastic_sycl_hls.Bram.Cycle.{Effects, cycle, ends, run}
use elastic_sycl_hls.Bram.Program.{
  Program, Progress, ConformsRun, advance, no_progress, mem_after, expected, expected_port,
}
use elastic_sycl_hls.Bram.Invariant.{Inv, Slots, Allocs, LoadQueue, StoreQueue}
use elastic_sycl_hls.Bram.Invariant.Kept.{cycle-Inv, cycle-WrittenWell}

module _ {V : Type 0} (cfg : Config) (byte_of : V → ℤ) (p : Program V) where
  -- The load values written in a sequence of iterations, with the ports written to.
  abbrev pub values_written : List (Effects V) → List (ℕ × V)
  values_written [] = []
  values_written (eff ∷ effs) = elim eff.returned [
    | none ↦ values_written effs
    | some x ↦ x ∷ values_written effs
  ]

  -- The values of `n` loads of the program from load `i` on.
  abbrev pub expected_from : ℕ → ℕ → List (ℕ × V)
  expected_from i zero = []
  expected_from i (suc n) = (expected_port cfg p i, expected cfg p i) ∷ expected_from (suc i) n

  -- The progress after a sequence of iterations.
  abbrev pub advance_all : Progress → List (Effects V) → Progress
  advance_all g [] = g
  advance_all g (eff ∷ effs) = advance_all (advance g eff) effs

  abbrev RunsWell : Progress → List (Effects V) × Lsq V → Type 0
  RunsWell g (effs, s') =
      (values_written effs ≡ expected_from g.returned (length (values_written effs)))
      × Inv cfg p (advance_all g effs) s'

  -- One more iteration in front.
  RunsWell-step :
      (g : Progress) (eff : Effects V) (effs : List (Effects V)) (s' : Lsq V)
      → ((x : ℕ × V)
          → eff.returned ≡ some x
          → x ≡ (expected_port cfg p g.returned, expected cfg p g.returned))
      → RunsWell (advance g eff) (effs, s')
      → RunsWell g (eff ∷ effs, s')
  RunsWell-step g eff effs s' w (v, i) = elim (Option-cases eff.returned) [
    | inl e ↦ (rw e (rw e at v), i)
    | inr (x, e) ↦ (rw e (cc (w x e, rw e at v)), i)
  ]

  run-RunsWell :
      (g : Progress) (s : Lsq V) (inps : List (PipeInputs V))
      → Inv cfg p g s
      → ConformsRun cfg byte_of p g s inps
      → RunsWell g (run cfg byte_of s inps)
  unfolding run
  run-RunsWell g s [] inv ok = (refl, inv)
  run-RunsWell g s (inp ∷ inps) inv ok =
      let (s', eff) = cycle cfg byte_of s inp in
      let inv' : Inv cfg p (advance g eff) s' = cycle-Inv cfg byte_of p inp inv ok.0 in
      let w = cycle-WrittenWell cfg byte_of p inp inv ok.0 in
      elim (Bool-cases (ends cfg byte_of s inp)) [
        | inl stop ↦ rw stop (RunsWell-step g eff [] s' w (refl, inv'))
        | inr go ↦ rw go (
            RunsWell-step g eff (run cfg byte_of s' inps).0 (run cfg byte_of s' inps).1 w
              (run-RunsWell (advance g eff) s' inps inv' ok.1))
      ]

  Slots-empty : (n port : ℕ) → Slots p 0 0 0 0 (replicate n (no_load port))
  Slots-empty zero port = refl
  Slots-empty (suc n) port = inr (refl, refl, refl, Slots-empty n port)

  Allocs-empty : (n : ℕ) → Allocs p 0 0 (replicate n no_alloc)
  Allocs-empty zero = refl
  Allocs-empty (suc n) = inr (refl, refl, Allocs-empty n)

  no_ports {ℓ} :
      {A : Type ℓ} (n i : ℕ) (x : A)
      → get_elem? (replicate {A = Option A} n none) i ≡ some (some x)
      → ⊥
  no_ports zero i x e = cc
  no_ports (suc n) zero x e = cc
  no_ports (suc n) (suc i) x e = no_ports n i x e

  -- The registers at the start, `n + 2` load entries and `m + 1` store entries.
  initial_queues :
      (n m : ℕ) (junk : V)
      → LoadQueue cfg p 0 0 0 0 junk (replicate (suc (suc n)) (no_load 0))
        × StoreQueue p 0 0 (replicate (suc m) no_alloc)
  initial_queues n m junk = (inr (refl, refl, refl, Slots-empty (suc n) 0), Allocs-empty (suc m))

  pub initial-Inv :
      (n m : ℕ) (junk : V)
      → cfg.ld_q_size ≡ suc (suc n)
      → cfg.st_q_size ≡ suc m
      → Inv cfg p no_progress (initial_lsq cfg p.init junk)
  unfolding initial_lsq mem_after
  initial-Inv n m junk e f =
      let (loads, stores) = initial_queues n m junk in
      record {
        memory = λ a. refl;
        last = refl;
        few = omega arith;
        stores = rw f stores;
        loads = rw e loads;
        two_loads = rw e (omega arith);
        served = λ i lt. absurd (omega arith);
        mux = λ inlined. record {
          next = refl;
          values = λ i x held. absurd (no_ports cfg.num_st_val i x held);
        };
      }

  -- Every load gets the value of the program-order execution. With queues of the sizes that the
  -- kernel asserts, and clients that conform in every iteration, a run of the kernel from its
  -- initial registers, of any length, writes the values of loads 0, 1, 2, … of the program in this
  -- order, each to the port of its load, and each is the value at its address after exactly the
  -- stores that precede it in program order. At the end the memory is that after the stores whose
  -- values were used up.
  pub run-in_order :
      (junk : V) (inps : List (PipeInputs V))
      → 2 ≤ cfg.ld_q_size
      → 2 ≤ cfg.st_q_size
      → ConformsRun cfg byte_of p no_progress (initial_lsq cfg p.init junk) inps
      → let (effs, s') = run cfg byte_of (initial_lsq cfg p.init junk) inps in
        (values_written effs ≡ expected_from 0 (length (values_written effs)))
        × ((a : ℤ) → s'.data_mem a ≡ mem_after cfg p (advance_all no_progress effs).done a)
  run-in_order junk inps ld st ok =
      let start =
        initial-Inv (cfg.ld_q_size - 2) (cfg.st_q_size - 1) junk (omega arith) (omega arith) in
      let (values, inv) = run-RunsWell no_progress (initial_lsq cfg p.init junk) inps start ok in
      (values, inv.memory)
