-- ===== src/Bram/Invariant/Memory.antt =====
-- The memory holds the stores that are done, and a load that may return gets its expected value:
-- lsq/LoadStoreQueueBRAM.hpp lines 341-388.
use elastic_sycl_hls.Prelude.{
  ℕ, zero, suc, ◌≤◌, ◌<◌, ◌≡◌, ◌≢◌, ◌⊎◌, inl, inr, Bool, true, false, ◌&&◌, ◌||◌, Bool-cases, none,
  some, arith, refl, sym, ◌∙◌, if◌then◌else◌, ℕ_discrete,
}
use elastic_sycl_hls.Prelude.Int.{ℤ, ==ℤ_iff, ==ℤ_refl, ==ℤ_ne}
use elastic_sycl_hls.Bram.State.{Config, StAlloc, LdEntry}
use elastic_sycl_hls.Bram.Stores.{StVal, commit_store, mk_dependency-true}
use elastic_sycl_hls.Bram.Loads.{Return, bypasses, pipe_succ, write_load, return_load, return_port}
use elastic_sycl_hls.Bram.Program.{Program, mem_after, commits, expected}
use elastic_sycl_hls.Bram.Invariant.{Holds}
use elastic_sycl_hls.Bram.Invariant.Values.{Arrival}

module _ {V : Type 0} (cfg : Config) (p : Program V) where
  -- Stores to other addresses do not change a word.
  mem_after-same :
      (c t : ℕ) (a : ℤ)
      → c ≤ t
      → ((k : ℕ) → c < k → k ≤ t → p.st_addr k ≢ a)
      → mem_after cfg p t a ≡ mem_after cfg p c a
  unfolding mem_after
  mem_after-same zero zero a le h = refl
  mem_after-same (suc c) zero a le h = absurd (omega arith)
  mem_after-same c (suc t) a le h = elim (ℕ_discrete c (suc t)) [
    | yes same ↦ rw same
    | no more ↦ ground (
      arith,
      ==ℤ_ne (p.st_addr (suc t)) a (h (suc t) (omega arith) (omega arith)),
      mem_after-same c t a (omega arith) (λ k lo hi. h k lo (omega arith)),
    )
  ]

  module _ (byte_of : V → ℤ) where
    pub commit_store-mem_after :
        (c r : ℕ) (st : StVal V) (head : StAlloc) (ld_memory_val : V) (mem : ℤ → V) (a : ℤ)
        → Arrival cfg p c r st
        → (st.arrived ≡ true → head.addr ≡ p.st_addr (suc c))
        → ((b : ℤ) → mem b ≡ mem_after cfg p c b)
        → commit_store cfg byte_of ld_memory_val st head mem a
          ≡ mem_after cfg p (if st.arrived then suc c else c) a
    unfolding commit_store mem_after
    commit_store-mem_after c r st head junk mem a arr addr h = elim (Bool-cases st.arrived) [
      | inl yes' ↦
          rw (arr.valid, yes', mk_dependency-true (byte_of junk), addr yes', arr.value yes', h a)
            (ground arith)
      | inr not_yet ↦ rw (arr.valid, not_yet) (h a)
    ]

  bypass-expected :
      (c n i r : ℕ) (st : StVal V) (head : StAlloc) (e : LdEntry)
      → Arrival cfg p c r st
      → (st.arrived ≡ true → (head.addr ≡ p.st_addr (suc c)) × (head.tag ≡ suc c))
      → Holds p c n i e
      → bypasses st.valid head e ≡ true
      → st.value ≡ expected cfg p i
  unfolding bypasses mem_after
  bypass-expected c n i r st head e arr h (a, t, port, safe) b =
      let arrived : st.arrived ≡ true = ground arith in
      let (addr, tag) = h arrived in
      let valid : commits cfg p (suc c) ≡ true = ground arith in
      let same : p.ld_addr i ≡ p.st_addr (suc c) = ground (arith, ==ℤ_iff head.addr e.addr) in
      let last : p.ld_tag i ≡ suc c = ground arith in
      arr.value arrived ∙ rw (last, same, valid, ==ℤ_refl (p.st_addr (suc c)))

  safe-expected :
      (c n i : ℕ) (e : LdEntry) (mem_val : V)
      → Holds p c n i e
      → c ≤ p.ld_tag i
      → mem_val ≡ mem_after cfg p c e.addr
      → e.is_safe ≡ true
      → mem_val ≡ expected cfg p i
  safe-expected c n i e mem_val (a, t, port, safe) le m s =
      m ∙ rw (sym a, sym t) (sym (mem_after-same c e.tag e.addr (omega arith) (safe s).1))

  -- The head of the load queue, which holds load `i`, after the rule that returns load values: the
  -- load is returned with the value that it is to have, or it stays, with that value if it has one.
  abbrev pub ReturnedWell : ℕ → ℕ → ℕ → LdEntry → Return V → Type 0
  ReturnedWell c n i e ret =
      ((ret.written ≡ some (return_port cfg e, expected cfg p i)) × (ret.head.addr_valid ≡ false))
      ⊎ ((ret.written ≡ none)
          × (ret.head.addr_valid ≡ true)
          × Holds p c n i ret.head
          × (ret.head.val_valid ≡ true → ret.ld_val ≡ expected cfg p i))

  write_load-ReturnedWell :
      (c n i : ℕ) (ready : ℕ → Bool) (v : V) (e : LdEntry)
      → e.addr_valid ≡ true
      → Holds p c n i e
      → v ≡ expected cfg p i
      → ReturnedWell c n i e (write_load cfg ready v e)
  unfolding write_load
  write_load-ReturnedWell c n i ready v e valid h q = elim (Bool-cases (pipe_succ cfg ready e)) [
    | inl sent ↦ rw (sent, q) (inl (refl, refl))
    | inr full ↦ rw full (inr (refl, valid, h, λ _. q))
  ]

  pub return_load-ReturnedWell :
      (c n i r : ℕ) (ready : ℕ → Bool) (st : StVal V) (head : StAlloc) (mem_val ld_val : V)
      (e : LdEntry)
      → Arrival cfg p c r st
      → (st.arrived ≡ true → (head.addr ≡ p.st_addr (suc c)) × (head.tag ≡ suc c))
      → e.addr_valid ≡ true
      → Holds p c n i e
      → c ≤ p.ld_tag i
      → mem_val ≡ mem_after cfg p c e.addr
      → (e.val_valid ≡ true → ld_val ≡ expected cfg p i)
      → ReturnedWell c n i e
          (return_load cfg ready (bypasses st.valid head e) st.value mem_val ld_val e)
  unfolding return_load
  return_load-ReturnedWell c n i r ready st head mem_val ld_val e arr h valid o le m val =
      elim (Bool-cases (e.addr_valid && (bypasses st.valid head e || e.is_safe))) [
        | inl may ↦ rw may (write_load-ReturnedWell c n i ready _ e valid o (right may))
        | inr not_yet ↦ rw not_yet (inr (refl, valid, o, val))
      ]
    where
      bypass : Bool
      bypass = bypasses st.valid head e

      right :
          (e.addr_valid && (bypass || e.is_safe)) ≡ true
          → (if e.val_valid then ld_val else if bypass then st.value else mem_val)
            ≡ expected cfg p i
      right may = elim (Bool-cases e.val_valid) [
        | inl kept ↦ rw kept (val kept)
        | inr fresh ↦ elim (Bool-cases bypass) [
          | inl b ↦ rw (b, fresh) (bypass-expected c n i r st head e arr h o b)
          | inr nb ↦ rw (nb, fresh) (safe-expected c n i e mem_val o le m (ground arith))
        ]
      ]
