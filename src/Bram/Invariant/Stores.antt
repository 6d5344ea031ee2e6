-- ===== src/Bram/Invariant/Stores.antt =====
-- The store queue of lsq/LoadStoreQueueBRAM.hpp keeps its part of the invariant.
use elastic_sycl_hls.Prelude.{
  ℕ, suc, ◌≤◌, ◌<◌, ◌≡◌, ◌≢◌, inl, inr, Bool, true, false, if◌then◌else◌, Option, none, some, List,
  [], ◌∷◌, ◌++◌, arith, refl, ℕ_discrete,
}
use elastic_sycl_hls.Prelude.Int.{==ℤ_iff}
use elastic_sycl_hls.Bram.State.{StAlloc, StReq, LdEntry, alloc_head}
use elastic_sycl_hls.Bram.Stores.{new_alloc, alloc_moves, shift_allocs}
use elastic_sycl_hls.Bram.Loads.{ld_wait}
use elastic_sycl_hls.Bram.Program.{Program, one_if_some}
use elastic_sycl_hls.Bram.Invariant.{Allocs, StoreQueue}

module _ {V : Type 0} (p : Program V) where
  Allocs-le : (c n : ℕ) (q : List StAlloc) → Allocs p c n q → c ≤ n
  Allocs-le c n [] h = omega arith
  Allocs-le c n (e ∷ q) (inl (v, a, t, r)) = omega (arith, Allocs-le (suc c) n q r)
  Allocs-le c n (e ∷ q) (inr (v, x, r)) = Allocs-le c n q r

  -- A load that no allocated store holds up does not depend on a store that is not done.
  pub ld_wait-SafeAt :
      (c n : ℕ) (q : List StAlloc) (ld : LdEntry)
      → Allocs p c n q
      → ld_wait q ld ≡ false
      → ld.tag ≤ n
      → (k : ℕ) → c < k
      → k ≤ ld.tag
      → p.st_addr k ≢ ld.addr
  unfolding ld_wait
  ld_wait-SafeAt c n [] ld h w le k lo hi e = omega arith
  ld_wait-SafeAt c n (st ∷ q) ld (inr (v, x, r)) w le k lo hi e =
      ld_wait-SafeAt c n q ld r (ground arith) le k lo hi e
  ld_wait-SafeAt c n (st ∷ q) ld (inl (v, a, t, r)) w le k lo hi e = elim (ℕ_discrete k (suc c)) [
    | yes this ↦ ground (arith, ==ℤ_iff st.addr ld.addr)
    | no later ↦ ld_wait-SafeAt (suc c) n q ld r (ground arith) le k (omega arith) hi e
  ]

  Allocs-snoc :
      (c n : ℕ) (q : List StAlloc) (req : Option StReq) (junk : ℕ)
      → ((r : StReq) → req ≡ some r → (r.addr ≡ p.st_addr (suc n)) × (r.tag ≡ suc n))
      → Allocs p c n q
      → Allocs p c (one_if_some req n) (q ++ new_alloc req junk ∷ [])
  unfolding new_alloc
  Allocs-snoc c n [] none junk h i = inr (refl, refl, i)
  Allocs-snoc c n [] (some r) junk h i =
      let (a, t) = h r refl in inl (refl, ground arith, ground arith, ground arith)
  Allocs-snoc c n (e ∷ q) req junk h (inl (v, a, t, i)) =
      inl (v, a, t, Allocs-snoc (suc c) n q req junk h i)
  Allocs-snoc c n (e ∷ q) req junk h (inr (v, x, i)) = inr (v, x, Allocs-snoc c n q req junk h i)

  StoreQueue-snoc :
      (c n : ℕ) (q : List StAlloc) (e : StAlloc)
      → Allocs p c n (q ++ e ∷ [])
      → StoreQueue p c n (q ++ e ∷ [])
  StoreQueue-snoc c n [] e h = h
  StoreQueue-snoc c n (f ∷ q) e h = h

  abbrev pub Matches : ℕ → Option StReq → Type 0
  Matches n req = (r : StReq) → req ≡ some r → (r.addr ≡ p.st_addr (suc n)) × (r.tag ≡ suc n)

  -- The store queue after an iteration: `arrived` says that the value of the head was used.
  pub shift_allocs-Allocs :
      (arrived : Bool) (c n : ℕ) (q : List StAlloc) (req : Option StReq) (junk : ℕ)
      → (arrived ≡ true → (alloc_head q).addr_valid ≡ true)
      → Matches n req
      → StoreQueue p c n q
      → StoreQueue p
          (if arrived then suc c else c)
          (if alloc_moves arrived q then one_if_some req n else n)
          (shift_allocs (alloc_moves arrived q) req junk q)
  unfolding shift_allocs alloc_moves
  shift_allocs-Allocs arrived c n [] req junk v h i = absurd i
  shift_allocs-Allocs true c n (e ∷ q) req junk v h (inl (w, a, t, i)) =
      StoreQueue-snoc (suc c) _ q _ (Allocs-snoc (suc c) n q req junk h i)
  shift_allocs-Allocs true c n (e ∷ q) req junk v h (inr (w, x, i)) = cc (v refl)
  shift_allocs-Allocs false c n (e ∷ q) req junk v h (inl (w, a, t, i)) = rw w (inl (refl, a, t, i))
  shift_allocs-Allocs false c n (e ∷ q) req junk v h (inr (w, x, i)) =
      rw w (StoreQueue-snoc c _ q _ (Allocs-snoc c n q req junk h i))

  pub StoreQueue-le : (c n : ℕ) (q : List StAlloc) → StoreQueue p c n q → c ≤ n
  StoreQueue-le c n [] h = absurd h
  StoreQueue-le c n (e ∷ q) h = Allocs-le c n (e ∷ q) h

  -- A valid head is the oldest store that is not done.
  pub StoreQueue-head :
      (c n : ℕ) (q : List StAlloc)
      → StoreQueue p c n q
      → (alloc_head q).addr_valid ≡ true
      → ((alloc_head q).addr ≡ p.st_addr (suc c)) × ((alloc_head q).tag ≡ suc c) × (suc c ≤ n)
  StoreQueue-head c n [] h v = absurd h
  StoreQueue-head c n (e ∷ q) (inl (w, a, t, r)) v = (a, t, Allocs-le (suc c) n q r)
  StoreQueue-head c n (e ∷ q) (inr (w, x, r)) v = cc

  pub StoreQueue-Allocs : (c n : ℕ) (q : List StAlloc) → StoreQueue p c n q → Allocs p c n q
  StoreQueue-Allocs c n [] h = absurd h
  StoreQueue-Allocs c n (e ∷ q) h = h
