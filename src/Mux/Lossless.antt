-- ===== src/Mux/Lossless.antt =====
-- No item is lost or made up by a mux: mux loops of lsq/LoadStoreQueueBRAM.hpp.
use elastic_sycl_hls.Prelude.{
  ℕ, ◌+◌, ◌≤◌, ◌≡◌, refl, ◌==◌, if◌then◌else◌, Bool-cases, false, inl, inr, Option, none, some,
  List, [], ◌∷◌, ◌++◌, arith,
}
use elastic_sycl_hls.Mux.{
  Mux, MuxInput, refill_port, refill_ports, choose_at, choose_port, mux_step, written, mux_run,
}

module _ {ℓ} {A : Type ℓ} (tag : A → ℕ) where
  -- How many items of a list carry tag `t`.
  abbrev pub count_tag : ℕ → List A → ℕ
  count_tag t [] = 0
  count_tag t (x ∷ xs) = (if tag x == t then 1 else 0) + count_tag t xs

  pub count_tag-append :
      (t : ℕ) (xs ys : List A) → count_tag t (xs ++ ys) ≡ count_tag t xs + count_tag t ys
  count_tag-append t [] ys = omega arith
  count_tag-append t (x ∷ xs) ys = omega (arith, count_tag-append t xs ys)

-- The items in the registers.
abbrev pub held {ℓ} : {A : Type ℓ} → List (Option A) → List A
held [] = []
held (none ∷ ps) = held ps
held (some x ∷ ps) = x ∷ held ps

-- The items that an iteration takes from the pipes of the ports from `k` on: those whose register
-- is empty.
abbrev pub taken {ℓ} : {A : Type ℓ} → ℕ → (ℕ → Option A) → List (Option A) → List A
taken k offer [] = []
taken k offer (some x ∷ ps) = taken (k + 1) offer ps
taken k offer (none ∷ ps) = held (offer k ∷ []) ++ taken (k + 1) offer ps

module _ {ℓ} {A : Type ℓ} (tag : A → ℕ) where
  refill_ports-count :
      (next t k : ℕ) (offer : ℕ → Option A) (ps : List (Option A))
      → count_tag tag t (held (refill_ports tag next k offer ps))
          + (if t == next then count_tag tag next (held ps) else 0)
        ≡ count_tag tag t (held ps) + count_tag tag t (taken k offer ps)
  unfolding refill_ports refill_port
  refill_ports-count next t k offer [] = ground arith
  refill_ports-count next t k offer (none ∷ ps) =
      ground (arith, refill_ports-count next t (k + 1) offer ps)
  refill_ports-count next t k offer (some x ∷ ps) =
      ground (arith, refill_ports-count next t (k + 1) offer ps)

  choose_port-stays :
      (next k : ℕ) (ps : List (Option A)) (y : ℕ × A)
      → count_tag tag next (held ps) ≡ 0
      → choose_port tag next k ps (some y) ≡ some y
  unfolding choose_port choose_at
  choose_port-stays next k [] y h = refl
  choose_port-stays next k (none ∷ ps) y h = choose_port-stays next (k + 1) ps y h
  choose_port-stays next k (some x ∷ ps) y h = ground (arith, choose_port-stays next (k + 1) ps y)

  -- If one register at most holds the tag, the count of the item to write is that of the registers.
  choose_port-count :
      (next t k : ℕ) (ps : List (Option A))
      → count_tag tag next (held ps) ≤ 1
      → count_tag tag t (written tag (choose_port tag next k ps none))
        ≡ (if t == next then count_tag tag next (held ps) else 0)
  unfolding choose_port choose_at written
  choose_port-count next t k [] h = ground arith
  choose_port-count next t k (none ∷ ps) h = choose_port-count next t (k + 1) ps h
  choose_port-count next t k (some x ∷ ps) h =
      ground (arith, choose_port-stays next (k + 1) ps (k, x), choose_port-count next t (k + 1) ps)

  step-count :
      (t : ℕ) (m : Mux A) (offer : ℕ → Option A)
      → count_tag tag m.next_tag (held m.ports) ≤ 1
      → let (m', chosen) = mux_step tag m offer in
        count_tag tag t (held m'.ports) + count_tag tag t (written tag chosen)
        ≡ count_tag tag t (held m.ports) + count_tag tag t (taken 0 offer m.ports)
  unfolding mux_step written
  step-count t m offer h = omega (
    arith,
    refill_ports-count m.next_tag t 0 offer m.ports,
    choose_port-count m.next_tag t 0 m.ports h,
  )

  -- All that a run takes from the pipes.
  abbrev pub taken_run : Mux A → List (MuxInput A) → List A
  taken_run m [] = []
  taken_run m (i ∷ is) =
      let rest = taken_run (mux_step tag m i.offer).0 is in
      taken 0 i.offer m.ports ++ (if i.end_arrived then [] else rest)

  -- A run neither loses, duplicates nor makes up an item: if among the items that its registers
  -- hold and those that it takes from the pipes no tag occurs twice, then each tag occurs among
  -- the items written and those still held as often as among the items held at first and those
  -- taken.
  pub mux_run-lossless :
      (m : Mux A) (is : List (MuxInput A))
      → ((t : ℕ) → count_tag tag t (held m.ports) + count_tag tag t (taken_run m is) ≤ 1)
      → (t : ℕ)
      → let (out, m') = mux_run tag m is in
        count_tag tag t out + count_tag tag t (held m'.ports)
        ≡ count_tag tag t (held m.ports) + count_tag tag t (taken_run m is)
  unfolding mux_run
  mux_run-lossless m [] h t = omega arith
  mux_run-lossless m (i ∷ is) h t = elim (Bool-cases i.end_arrived) [
    | inl stop ↦
        rw stop (omega (arith, step t, count_tag-append tag t (taken 0 i.offer m.ports) []))
    | inr go ↦ rw go (
        omega (
          arith,
          step t,
          mux_run-lossless m' is (λ u. omega (arith, step u, split u go, h u)) t,
          count_tag-append tag t (written tag (mux_step tag m i.offer).1) (mux_run tag m' is).0,
          count_tag-append tag t (taken 0 i.offer m.ports) (taken_run m' is),
        ))
  ]
    where
      m' : Mux A
      m' = (mux_step tag m i.offer).0

      all_taken :
          (u : ℕ)
          → count_tag tag u (taken_run m (i ∷ is))
            ≡ count_tag tag u (taken 0 i.offer m.ports)
              + count_tag tag u (if i.end_arrived then [] else taken_run m' is)
      all_taken u =
          count_tag-append tag u (taken 0 i.offer m.ports)
            (if i.end_arrived then [] else taken_run m' is)

      split :
          (u : ℕ)
          → i.end_arrived ≡ false
          → count_tag tag u (taken_run m (i ∷ is))
            ≡ count_tag tag u (taken 0 i.offer m.ports) + count_tag tag u (taken_run m' is)
      split u go = rw go (count_tag-append tag u (taken 0 i.offer m.ports) (taken_run m' is))

      step :
          (u : ℕ)
          → count_tag tag u (held m'.ports)
              + count_tag tag u (written tag (mux_step tag m i.offer).1)
            ≡ count_tag tag u (held m.ports) + count_tag tag u (taken 0 i.offer m.ports)
      step u = step-count u m i.offer (omega (arith, h m.next_tag, all_taken m.next_tag))
