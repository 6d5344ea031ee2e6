-- ===== src/Bram/Invariant/Loads.antt =====
-- The load queue of lsq/LoadStoreQueueBRAM.hpp keeps its part of the invariant.
use elastic_sycl_hls.Prelude.{
  ℕ, suc, ◌≤◌, ◌≡◌, inl, inr, true, false, not, ◌&&◌, if◌then◌else◌, leb, Bool-cases, Option, none,
  some, List, [], ◌∷◌, ◌++◌, arith, refl, sym, ◌∙◌,
}
use elastic_sycl_hls.Bram.State.{Config, StAlloc, LdReq, LdEntry, no_load}
use elastic_sycl_hls.Bram.Loads.{
  fill_entry, accept_load, accepts, ld_wait, mark_safe, mark_first, mark_first_two, shift_loads,
}
use elastic_sycl_hls.Bram.Program.{Program, one_if_some, expected}
use elastic_sycl_hls.Bram.Invariant.{Holds, Slots, Allocs, LoadQueue}
use elastic_sycl_hls.Bram.Invariant.Stores.{ld_wait-SafeAt}

module _ {V : Type 0} (p : Program V) where
  Holds-mono :
      {c c' n n' : ℕ} (i : ℕ) (e : LdEntry) → c ≤ c' → n ≤ n' → Holds p c n i e → Holds p c' n' i e
  Holds-mono i e le le' (a, t, port, safe) = (
    a,
    t,
    port,
    λ h. let (req, free) = safe h in (omega arith, λ k lo hi. free k (omega arith) hi),
  )

  Slots-mono :
      {c c' n n' : ℕ} (i m : ℕ) (q : List LdEntry)
      → c ≤ c'
      → n ≤ n'
      → Slots p c n i m q
      → Slots p c' n' i m q
  Slots-mono i m [] le le' h = h
  Slots-mono i m (e ∷ q) le le' (inl (v, o, w, r)) =
      inl (v, Holds-mono i e le le' o, w, Slots-mono (suc i) m q le le' r)
  Slots-mono i m (e ∷ q) le le' (inr (v, s, w, r)) = inr (v, s, w, Slots-mono i m q le le' r)

  abbrev pub MatchesLoad : ℕ → Option LdReq → Type 0
  MatchesLoad m req =
      (r : LdReq)
      → req ≡ some r
      → (r.addr ≡ p.ld_addr m) × (r.tag ≡ p.ld_tag m) × (r.port_ldtag_union ≡ p.ld_port m)

  accept_load-Slots :
      (c n i m : ℕ) (req : Option LdReq) (q : List LdEntry)
      → MatchesLoad m req
      → Slots p c n i m q
      → Slots p c n i (if accepts q then one_if_some req m else m) (accept_load req q)
  unfolding accept_load accepts fill_entry
  accept_load-Slots c n i m req [] h s = s
  accept_load-Slots c n i m req (e ∷ []) h (inl (v, o, w, s)) = rw v (inl (refl, o, w, s))
  accept_load-Slots c n i m none (e ∷ []) h (inr (v, f, w, s)) = rw v (inr (refl, f, w, s))
  accept_load-Slots c n i m (some r) (e ∷ []) h (inr (v, f, w, s)) =
      let (a, t, port) = h r refl in
      rw v (inl (refl, (ground arith, ground arith, ground arith, λ x. cc), w, omega arith))
  accept_load-Slots c n i m req (e ∷ f ∷ q) h (inl (v, o, w, s)) =
      inl (v, o, w, accept_load-Slots c n (suc i) m req (f ∷ q) h s)
  accept_load-Slots c n i m req (e ∷ f ∷ q) h (inr (v, x, w, s)) =
      inr (v, x, w, accept_load-Slots c n i m req (f ∷ q) h s)

  mark_safe-Holds :
      (c n i : ℕ) (allocs : List StAlloc) (e : LdEntry)
      → Allocs p c n allocs
      → Holds p c n i e
      → Holds p c n i (mark_safe n allocs e)
  unfolding mark_safe
  mark_safe-Holds c n i allocs e h (a, t, port, safe) =
      elim (Bool-cases (e.addr_valid && leb e.tag n && not (ld_wait allocs e))) [
        | inl marked ↦ rw marked (
          a,
          t,
          port,
          λ _. (ground arith, ld_wait-SafeAt p c n allocs e h (ground arith) (ground arith)),
        )
        | inr kept ↦ rw kept (a, t, port, safe)
      ]

  pub mark_safe-fields :
      (n : ℕ) (allocs : List StAlloc) (e : LdEntry)
      → let e' = mark_safe n allocs e in
        (e'.addr_valid ≡ e.addr_valid)
        × (e'.val_valid ≡ e.val_valid)
        × (e.addr_valid ≡ false → e'.is_safe ≡ e.is_safe)
        × (e'.port ≡ e.port)
  unfolding mark_safe
  mark_safe-fields n allocs e = ground arith

  mark_first-Slots :
      (c n i m : ℕ) (allocs : List StAlloc) (q : List LdEntry)
      → Allocs p c n allocs
      → Slots p c n i m q
      → Slots p c n i m (mark_first n allocs q)
  mark_first-Slots c n i m allocs [] h s = s
  mark_first-Slots c n i m allocs (e ∷ q) h (inl (v, o, w, s)) =
      let (fv, fw, fs, _) = mark_safe-fields n allocs e in
      inl (rw fv v, mark_safe-Holds c n i allocs e h o, rw fw w, s)
  mark_first-Slots c n i m allocs (e ∷ q) h (inr (v, x, w, s)) =
      let (fv, fw, fs, _) = mark_safe-fields n allocs e in inr (rw fv v, rw (fs v) x, rw fw w, s)

  Slots-snoc :
      (c n i m port : ℕ) (q : List LdEntry)
      → Slots p c n i m q
      → Slots p c n i m (q ++ no_load port ∷ [])
  Slots-snoc c n i m port [] s = inr (refl, refl, refl, s)
  Slots-snoc c n i m port (e ∷ q) (inl (v, o, w, s)) =
      inl (v, o, w, Slots-snoc c n (suc i) m port q s)
  Slots-snoc c n i m port (e ∷ q) (inr (v, x, w, s)) = inr (v, x, w, Slots-snoc c n i m port q s)

  module _ (cfg : Config) where
    -- A queue whose entries have no value yet is a load queue, whatever `ld_val` is.
    LoadQueue-snoc :
        (c n i m port : ℕ) (ld_val : V) (q : List LdEntry)
        → Slots p c n i m q
        → LoadQueue cfg p c n i m ld_val (q ++ no_load port ∷ [])
    LoadQueue-snoc c n i m port ld_val [] s = inr (refl, refl, refl, s)
    LoadQueue-snoc c n i m port ld_val (e ∷ q) (inl (v, o, w, s)) =
        inl (v, o, λ x. cc, Slots-snoc c n (suc i) m port q s)
    LoadQueue-snoc c n i m port ld_val (e ∷ q) (inr (v, x, w, s)) =
        inr (v, x, w, Slots-snoc c n i m port q s)

    -- The rules behind the return of a load value, for a head `e` that is as the return left it,
    -- in front of the entries `f ∷ q`.
    abbrev pub load_rules : ℕ → List StAlloc → Option LdReq → List LdEntry → List LdEntry
    load_rules n allocs req q = shift_loads cfg (mark_first_two n allocs (accept_load req q))

    pub load_rules-returned :
        (c n r m : ℕ) (ld_val : V) (allocs : List StAlloc) (req : Option LdReq) (e f : LdEntry)
        (q : List LdEntry)
        → MatchesLoad m req
        → Allocs p c n allocs
        → e.addr_valid ≡ false
        → Slots p c n r m (f ∷ q)
        → LoadQueue cfg p c n r
            (if accepts (e ∷ f ∷ q) then one_if_some req m else m)
            ld_val
            (load_rules n allocs req (e ∷ f ∷ q))
    unfolding mark_first_two shift_loads accept_load accepts
    load_rules-returned c n r m ld_val allocs req e f q h al v s =
        rw ((mark_safe-fields n allocs e).0, v)
          (LoadQueue-snoc c n r _ _ ld_val _
            (mark_first-Slots c n r _ allocs _ al (accept_load-Slots c n r m req (f ∷ q) h s)))

    pub load_rules-kept :
        (c n r m : ℕ) (ld_val : V) (allocs : List StAlloc) (req : Option LdReq) (e f : LdEntry)
        (q : List LdEntry)
        → MatchesLoad m req
        → Allocs p c n allocs
        → e.addr_valid ≡ true
        → Holds p c n r e
        → (e.val_valid ≡ true → ld_val ≡ expected cfg p r)
        → Slots p c n (suc r) m (f ∷ q)
        → LoadQueue cfg p c n r
            (if accepts (e ∷ f ∷ q) then one_if_some req m else m)
            ld_val
            (load_rules n allocs req (e ∷ f ∷ q))
    unfolding mark_first_two shift_loads accept_load accepts
    load_rules-kept c n r m ld_val allocs req e f q h al v o val s =
        rw ((mark_safe-fields n allocs e).0, v)
          (inl (
            refl,
            mark_safe-Holds c n r allocs (record e { addr_valid = true }) al o,
            λ x. val (sym (mark_safe-fields n allocs (record e { addr_valid = true })).1 ∙ x),
            mark_first-Slots c n (suc r) _ allocs _ al
                (accept_load-Slots c n (suc r) m req (f ∷ q) h s),
          ))

    pub LoadQueue-mono :
        (c c' n n' r m : ℕ) (ld_val : V) (q : List LdEntry)
        → c ≤ c'
        → n ≤ n'
        → LoadQueue cfg p c n r m ld_val q
        → LoadQueue cfg p c' n' r m ld_val q
    LoadQueue-mono c c' n n' r m ld_val [] le le' h = h
    LoadQueue-mono c c' n n' r m ld_val (e ∷ q) le le' (inl (v, o, w, s)) =
        inl (v, Holds-mono r e le le' o, w, Slots-mono (suc r) m q le le' s)
    LoadQueue-mono c c' n n' r m ld_val (e ∷ q) le le' (inr (v, x, w, s)) =
        inr (v, x, w, Slots-mono r m q le le' s)
