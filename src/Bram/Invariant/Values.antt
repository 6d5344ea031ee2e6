-- ===== src/Bram/Invariant/Values.antt =====
-- The store value of an iteration belongs to the oldest store that is not done:
-- lsq/LoadStoreQueueBRAM.hpp lines 301-347.
use elastic_sycl_hls.Prelude.{
  ℕ, suc, ◌+◌, ◌<◌, ◌^◌, ◌≡◌, inl, inr, true, false, Bool-cases, Option, none, some, arith, refl,
  get_elem?, if◌then◌else◌,
}
use mathlib.Core.Path.{subst}
use elastic_sycl_hls.Mux.{Mux, mux_step}
use elastic_sycl_hls.Mux.Order.{mux_step-emits, mux_step-holds}
use elastic_sycl_hls.Bram.State.{
  TaggedVal, val_tag, Config, use_st_val_mux_inlined, StAlloc, PipeInputs, is_some,
}
use elastic_sycl_hls.Bram.Stores.{StVal, st_val_from, picked_val, read_st_val, take_st_val}
use elastic_sycl_hls.Bram.Program.{Program, Progress, Conforms, commits}
use elastic_sycl_hls.Bram.Invariant.{ValueOf, MuxHolds}

-- What is known of a store value that arrives, where `c` stores are done and `r` loads returned.
pub record Arrival {V : Type 0} (cfg : Config) (p : Program V) (c r : ℕ) (st : StVal V)
    : Type 0 where
  pub value : st.arrived ≡ true → st.value ≡ p.st_value (suc c)
  pub valid : st.valid ≡ (if st.arrived then commits cfg p (suc c) else false)
  pub served : st.arrived ≡ true → (i : ℕ) → p.ld_tag i < suc c → i < r

module _ {V : Type 0} (cfg : Config) (p : Program V) (g : Progress) where
  st_val_from-Arrival :
      (rd : Option (TaggedVal V)) (junk : TaggedVal V) (mux : Mux (TaggedVal V))
      → ((x : TaggedVal V) → rd ≡ some x → ValueOf p g.returned x × (x.tag ≡ suc g.done))
      → Arrival cfg p g.done g.returned (st_val_from cfg rd junk mux)
  unfolding st_val_from
  st_val_from-Arrival none junk mux h = record {
    value = λ e. cc;
    valid = ground arith;
    served = λ e. cc;
  }
  st_val_from-Arrival (some x) junk mux h =
      let ((v, w, first), t) = h x refl in
      record { value = λ _. rw (← t) v; valid = ground arith; served = λ _ i lt. first i (rw t lt) }

  abbrev mux_of : PipeInputs V → Mux (TaggedVal V) → Mux (TaggedVal V) × Option (ℕ × TaggedVal V)
  mux_of inp m = mux_step val_tag m inp.st_val_offer

  -- After an iteration of the inlined mux that has picked a value or not.
  mux_step-MuxHolds :
      (inp : PipeInputs V) (m : Mux (TaggedVal V))
      → Conforms cfg p g inp
      → MuxHolds p g m
      → g.done + 2 < 2 ^ 32
      → let (m', chosen) = mux_of inp m in
        MuxHolds p
          (record g { done = if is_some (picked_val cfg chosen) then suc g.done else g.done })
          m'
        × ((x : TaggedVal V)
            → picked_val cfg chosen ≡ some x
            → ValueOf p g.returned x × (x.tag ≡ suc g.done))
  mux_step-MuxHolds inp m ok h small = elim (mux_step-emits val_tag m inp.st_val_offer) [
    | inl (j, x, e, held, t, n) ↦ rw e (
      record { next = omega (arith, n, h.next); values = kept },
      λ y f.
          let same : x ≡ y = cc in
          subst (λ z. ValueOf p g.returned z × (z.tag ≡ suc g.done)) same
            (h.values j x held, omega (arith, t, h.next)),
    )
    | inr (e, _, n) ↦ rw e (record { next = omega (arith, n, h.next); values = kept }, λ y f. cc)
  ]
    where
      kept :
          (i : ℕ) (x : TaggedVal V)
          → get_elem? (mux_of inp m).0.ports i ≡ some (some x)
          → ValueOf p g.returned x
      kept i x e = elim (mux_step-holds val_tag m inp.st_val_offer i x e) [
        | inl old ↦ h.values i x old
        | inr new ↦ let (v, w) = ok.st_vals i x new in (v, w, ok.loads_first i x new)
      ]

  -- The store value of an iteration under the invariant.
  abbrev pub TakenWell : StAlloc → Mux (TaggedVal V) → StVal V → Type 0
  TakenWell head m st =
      Arrival cfg p g.done g.returned st
      × (st.arrived ≡ true → head.addr_valid ≡ true)
      × (use_st_val_mux_inlined cfg ≡ true
          → MuxHolds p (record g { done = if st.arrived then suc g.done else g.done }) st.mux)

  read_st_val-Arrival :
      (inp : PipeInputs V) (m : Mux (TaggedVal V))
      → Conforms cfg p g inp
      → (use_st_val_mux_inlined cfg ≡ true → MuxHolds p g m)
      → g.done + 2 < 2 ^ 32
      → let st = read_st_val cfg inp m in
        Arrival cfg p g.done g.returned st
        × (use_st_val_mux_inlined cfg ≡ true
            → MuxHolds p (record g { done = if st.arrived then suc g.done else g.done }) st.mux)
  unfolding read_st_val
  read_st_val-Arrival inp m ok h small = elim (Bool-cases (use_st_val_mux_inlined cfg)) [
    | inl inlined ↦
        let (holds, picked) = mux_step-MuxHolds inp m ok (h inlined) small in
        rw inlined (st_val_from-Arrival _ _ _ picked, λ _. holds)
    | inr direct ↦ rw direct (
      st_val_from-Arrival _ _ _ (λ x e.
          let (v, w) = ok.st_vals 0 x e in ((v, w, ok.loads_first 0 x e), ok.in_order x direct e)),
      λ x. cc,
    )
  ]

  pub take_st_val-TakenWell :
      (inp : PipeInputs V) (head : StAlloc) (m : Mux (TaggedVal V))
      → Conforms cfg p g inp
      → (use_st_val_mux_inlined cfg ≡ true → MuxHolds p g m)
      → (head.addr_valid ≡ true → g.done + 2 < 2 ^ 32)
      → TakenWell head m (take_st_val cfg inp head m)
  unfolding take_st_val
  take_st_val-TakenWell inp head m ok h small = elim (Bool-cases head.addr_valid) [
    | inl v ↦
        let (arrival, holds) = read_st_val-Arrival inp m ok h (small v) in
        rw v (arrival, λ _. refl, holds)
    | inr v ↦ rw v (record { value = λ e. cc; valid = refl; served = λ e. cc }, λ e. cc, h)
  ]
