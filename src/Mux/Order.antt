-- ===== src/Mux/Order.antt =====
-- The order in which a mux emits items, and from which port: mux loops of
-- lsq/LoadStoreQueueBRAM.hpp.
use elastic_sycl_hls.Prelude.{
  ℕ, zero, suc, ◌+◌, ◌≡◌, refl, ap, ◌≢◌, ◌⊎◌, inl, inr, Bool-cases, Option-cases, Option, none,
  some, List, [], ◌∷◌, map, arith, length, get_elem?,
}
use elastic_sycl_hls.Mux.{
  Mux, MuxInput, next_uint, refill_port, refill_ports, choose_at, choose_port, advance_tag,
  mux_step, written, mux_run,
}

-- `n` consecutive tags of a 32-bit counter.
abbrev pub tags_from : ℕ → ℕ → List ℕ
tags_from next zero = []
tags_from next (suc n) = next ∷ tags_from (next_uint next) n

module _ {ℓ} {A : Type ℓ} (tag : A → ℕ) where
  -- Item `x` with tag `next` is in the register of port `j`, where `ps` are the ports from `k` on.
  abbrev pub HeldAt : ℕ → ℕ → List (Option A) → ℕ → A → Type ℓ
  HeldAt next k ps j x = (i : ℕ) × (j ≡ k + i) × (get_elem? ps i ≡ some (some x)) × (tag x ≡ next)

  HeldAt-suc :
      (next k j : ℕ) (p : Option A) (ps : List (Option A)) {x : A}
      → HeldAt next (k + 1) ps j x
      → HeldAt next k (p ∷ ps) j x
  HeldAt-suc next k j p ps (i, e, held, t) = (suc i, omega arith, held, t)

  choose_at-some :
      (next k : ℕ) (p : Option A) (chosen : Option (ℕ × A)) {j : ℕ} {x : A}
      → choose_at tag next k p chosen ≡ some (j, x)
      → (chosen ≡ some (j, x)) ⊎ ((p ≡ some x) × (j ≡ k) × (tag x ≡ next))
  unfolding choose_at
  choose_at-some next k none chosen e = inl e
  choose_at-some next k (some y) chosen e = ground arith

  pub choose_port-some :
      (next k : ℕ) (ps : List (Option A)) (chosen : Option (ℕ × A)) {j : ℕ} {x : A}
      → choose_port tag next k ps chosen ≡ some (j, x)
      → (chosen ≡ some (j, x)) ⊎ HeldAt next k ps j x
  unfolding choose_port
  choose_port-some next k [] chosen e = inl e
  choose_port-some next k (p ∷ ps) chosen e =
      elim (choose_port-some next (k + 1) ps (choose_at tag next k p chosen) e) [
        | inl now ↦ elim (choose_at-some next k p chosen now) [
          | inl before ↦ inl before
          | inr (here, at, t) ↦ inr (zero, omega arith, ap some here, t)
        ]
        | inr later ↦ inr (HeldAt-suc next k _ p ps later)
      ]

  -- An item that was chosen stays, unless a later port overwrites it by another.
  choose_port-keeps :
      (next k : ℕ) (ps : List (Option A)) (y : ℕ × A) → choose_port tag next k ps (some y) ≢ none
  unfolding choose_port choose_at
  choose_port-keeps next k [] y e = cc
  choose_port-keeps next k (none ∷ ps) y e = choose_port-keeps next (k + 1) ps y e
  choose_port-keeps next k (some x ∷ ps) y e =
      ground (arith, choose_port-keeps next (k + 1) ps y, choose_port-keeps next (k + 1) ps (k, x))

  pub choose_port-none :
      (next k : ℕ) (ps : List (Option A))
      → choose_port tag next k ps none ≡ none
      → (i : ℕ) (x : A) → get_elem? ps i ≡ some (some x)
      → tag x ≢ next
  unfolding choose_port choose_at
  choose_port-none next k [] e i x h = cc
  choose_port-none next k (none ∷ ps) e zero x h = cc
  choose_port-none next k (none ∷ ps) e (suc i) x h = choose_port-none next (k + 1) ps e i x h
  choose_port-none next k (some y ∷ ps) e zero x h =
      ground (arith, choose_port-keeps next (k + 1) ps (k, y))
  choose_port-none next k (some y ∷ ps) e (suc i) x h = ground (
    arith,
    choose_port-keeps next (k + 1) ps (k, y),
    λ (f : choose_port tag next (k + 1) ps none ≡ none). choose_port-none next (k + 1) ps f i x h,
  )

  -- A register holds what it held, or what its pipe delivered.
  refill_ports-some :
      (next k : ℕ) (offer : ℕ → Option A) (ps : List (Option A)) (i : ℕ) (x : A)
      → get_elem? (refill_ports tag next k offer ps) i ≡ some (some x)
      → (get_elem? ps i ≡ some (some x)) ⊎ (offer (k + i) ≡ some x)
  unfolding refill_ports refill_port
  refill_ports-some next k offer [] i x h = cc
  refill_ports-some next k offer (none ∷ ps) zero x h = inr (ground arith)
  refill_ports-some next k offer (some y ∷ ps) zero x h = ground arith
  refill_ports-some next k offer (p ∷ ps) (suc i) x h =
      elim (refill_ports-some next (k + 1) offer ps i x h) [
        | inl old ↦ inl old
        | inr new ↦ let e : k + suc i ≡ k + 1 + i = omega arith in inr (rw e new)
      ]

  pub mux_step-holds :
      (m : Mux A) (offer : ℕ → Option A) (i : ℕ) (x : A)
      → get_elem? (mux_step tag m offer).0.ports i ≡ some (some x)
      → (get_elem? m.ports i ≡ some (some x)) ⊎ (offer i ≡ some x)
  unfolding mux_step
  mux_step-holds m offer i x h = elim (refill_ports-some m.next_tag 0 offer m.ports i x h) [
    | inl old ↦ inl old
    | inr new ↦ let e : i ≡ 0 + i = omega arith in inr (rw e new)
  ]

  -- One iteration of a mux: it emits an item exactly when some port register holds the next tag.
  -- What it emits then is the content of the register of the port that it names and carries the
  -- next tag, and `next_tag` moves on by one; otherwise `next_tag` stays.
  pub mux_step-emits :
      (m : Mux A) (offer : ℕ → Option A)
      → ((j : ℕ) × (x : A) × ((mux_step tag m offer).1 ≡ some (j, x))
          × (get_elem? m.ports j ≡ some (some x))
          × (tag x ≡ m.next_tag)
          × ((mux_step tag m offer).0.next_tag ≡ next_uint m.next_tag))
        ⊎ (((mux_step tag m offer).1 ≡ none)
            × ((i : ℕ) (x : A) → get_elem? m.ports i ≡ some (some x) → tag x ≢ m.next_tag)
            × ((mux_step tag m offer).0.next_tag ≡ m.next_tag))
  unfolding mux_step advance_tag
  mux_step-emits m offer = elim (Option-cases (choose_port tag m.next_tag 0 m.ports none)) [
    | inl e ↦ inr (e, choose_port-none m.next_tag 0 m.ports e, rw e)
    | inr ((j, x), e) ↦ elim (choose_port-some m.next_tag 0 m.ports none e) [
      | inl never ↦ cc
      | inr (i, at, held, t) ↦ inl (j, x, e, ground arith, t, rw e)
    ]
  ]

  -- Over a whole run, whatever the pipes deliver and in whatever order: the items that a mux
  -- writes carry consecutive tags, from its `next_tag` on.
  pub mux_run-consecutive :
      (m : Mux A) (is : List (MuxInput A))
      → let out = (mux_run tag m is).0 in map tag out ≡ tags_from m.next_tag (length out)
  unfolding mux_run written
  mux_run-consecutive m [] = refl
  mux_run-consecutive m (i ∷ is) = elim (mux_step-emits m i.offer) [
    | inl (j, x, e, held, t, n) ↦ elim (Bool-cases i.end_arrived) [
      | inl stop ↦ rw (stop, e) (rw t)
      | inr go ↦ rw (go, e) (cc (mux_run-consecutive (mux_step tag m i.offer).0 is))
    ]
    | inr (e, _, n) ↦ elim (Bool-cases i.end_arrived) [
      | inl stop ↦ rw (stop, e) refl
      | inr go ↦ rw (go, e) (cc (mux_run-consecutive (mux_step tag m i.offer).0 is))
    ]
  ]
