-- ===== src/Dram/Safe.antt =====
-- Which loads LSQ_DRAM issues, and with which value (lsq/LoadStoreQueueDRAM.hpp lines 294-359).
use elastic_sycl_hls.Prelude.{
  ℕ, ◌≡◌, ◌⊎◌, ◌↔◌, ◌≤◌, ◌<◌, refl, arith, Bool, true, false, none, some, Option, List, [], ◌∷◌,
  inl, inr, Bool-cases,
}
use elastic_sycl_hls.Prelude.Int.{ℤ, ◌==ℤ◌}
use elastic_sycl_hls.Prelude.Members.{any}
use elastic_sycl_hls.Bram.State.{Config, StAlloc}
use elastic_sycl_hls.Dram.{Commit, DramLoad, load_waits, find_bypass, check_load}

-- A store of the allocation queue.
pub data StoreIn (st : StAlloc) : List StAlloc → Type 0 where
  here : (q : List StAlloc) → StoreIn st (st ∷ q)
  there : (x : StAlloc) (q : List StAlloc) → StoreIn st q → StoreIn st (x ∷ q)

-- Each allocated store to the address is after the load in program order.
abbrev pub AllAfter : List StAlloc → ℤ → ℕ → Type 0
AllAfter q addr tag = (st : StAlloc) → StoreIn st q → (st.addr ==ℤ addr) ≡ true → tag < st.tag

load_waits-AllAfter :
    (q : List StAlloc) (addr : ℤ) (tag : ℕ) → load_waits q addr tag ≡ false → AllAfter q addr tag
unfolding load_waits
load_waits-AllAfter [] addr tag e st i same = elim i [ ]
load_waits-AllAfter (_ ∷ q) addr tag e st (StoreIn.here _) same = ground arith
load_waits-AllAfter (x ∷ q) addr tag e st (StoreIn.there _ _ i) same =
    load_waits-AllAfter q addr tag (ground arith) st i same

AllAfter-load_waits :
    (q : List StAlloc) (addr : ℤ) (tag : ℕ) → AllAfter q addr tag → load_waits q addr tag ≡ false
unfolding load_waits
AllAfter-load_waits [] addr tag all = refl
AllAfter-load_waits (x ∷ q) addr tag all =
    let rest = AllAfter-load_waits q addr tag (λ st i same. all st (StoreIn.there x q i) same) in
    elim (Bool-cases (x.addr ==ℤ addr)) [
      | inl same ↦ (let after = all x (StoreIn.here q) same in ground (arith, rest, after))
      | inr other ↦ ground (arith, rest)
    ]

module _ {V : Type 0} where
  abbrev pub has_commit : ℤ → List (Commit V) → Bool
  has_commit addr q = any (λ c. c.addr ==ℤ addr) q

  -- The last entry of the commit queue with the address has the value.
  pub data LastCommit (addr : ℤ) (x : V) : List (Commit V) → Type 0 where
    at_last :
        (c : Commit V) (q : List (Commit V))
        → (c.addr ==ℤ addr) ≡ true
        → c.value ≡ x
        → has_commit addr q ≡ false
        → LastCommit addr x (c ∷ q)
    later : (c : Commit V) (q : List (Commit V)) → LastCommit addr x q → LastCommit addr x (c ∷ q)

module _ {V : Type 0} (cfg : Config) where
  find_bypass-last :
      (q : List (Commit V)) (addr : ℤ) (found : Option V)
      → ((has_commit addr q ≡ false) × (find_bypass cfg q addr found ≡ found))
        ⊎ ((x : V) × LastCommit addr x q × (find_bypass cfg q addr found ≡ some x))
  unfolding find_bypass
  find_bypass-last [] addr found = inl (refl, refl)
  find_bypass-last (c ∷ q) addr found = elim (Bool-cases (c.addr ==ℤ addr)) [
    | inl same ↦ elim (find_bypass-last q addr (some c.value)) [
      | inl (unmatched, e) ↦
          inr (c.value, LastCommit.at_last c q same refl unmatched, rw (find_bypass, same) e)
      | inr (x, at, e) ↦ inr (x, LastCommit.later c q at, rw (find_bypass, same) e)
    ]
    | inr other ↦ elim (find_bypass-last q addr found) [
      | inl (unmatched, e) ↦ inl (ground (arith, unmatched, other), rw (find_bypass, other) e)
      | inr (x, at, e) ↦ inr (x, LastCommit.later c q at, rw (find_bypass, other) e)
    ]
  ]

  check_load-is_safe :
      (last : ℕ) (allocs : List StAlloc) (commits : List (Commit V)) (e : DramLoad V)
      → ((check_load cfg last allocs commits e).is_safe ≡ true)
        ↔ ((e.is_safe ≡ true) ⊎ ((e.tag ≤ last) × AllAfter allocs e.addr e.tag))
  unfolding check_load
  check_load-is_safe last allocs commits e = (
    λ safe. elim (Bool-cases e.is_safe) [
      | inl old ↦ inl old
      | inr new ↦ inr (elim (find_bypass-last commits e.addr none) [
        | inl (unmatched, f) ↦
            (ground (arith, f), load_waits-AllAfter allocs e.addr e.tag (ground (arith, f)))
        | inr (x, at, f) ↦
            (ground (arith, f), load_waits-AllAfter allocs e.addr e.tag (ground (arith, f)))
      ])
    ],
    λ h. elim h [
      | inl old ↦ elim (find_bypass-last commits e.addr none) [
        | inl (unmatched, f) ↦ ground (arith, f, old)
        | inr (x, at, f) ↦ ground (arith, f, old)
      ]
      | inr (known, after) ↦
          (let free = AllAfter-load_waits allocs e.addr e.tag after in
            elim (find_bypass-last commits e.addr none) [
              | inl (unmatched, f) ↦ ground (arith, f, free, known)
              | inr (x, at, f) ↦ ground (arith, f, free, known)
            ])
    ],
  )

  -- After a check, a load is safe exactly if it was before, or if its tag is not above that of the
  -- last store request and each allocated store to its address has a tag above its own. It bypasses
  -- the memory exactly if the commit queue has an entry with its address, and then with the value of
  -- the last such entry. Its address and its tag are unchanged.
  pub check_load-decides :
      (last : ℕ) (allocs : List StAlloc) (commits : List (Commit V)) (e : DramLoad V)
      → let checked = check_load cfg last allocs commits e in
        ((checked.is_safe ≡ true)
          ↔ ((e.is_safe ≡ true) ⊎ ((e.tag ≤ last) × AllAfter allocs e.addr e.tag)))
        × (checked.is_bypass ≡ has_commit e.addr commits)
        × (checked.is_bypass ≡ true → LastCommit e.addr checked.bypass_val commits)
        × (checked.addr ≡ e.addr)
        × (checked.tag ≡ e.tag)
  unfolding check_load
  check_load-decides last allocs commits e = elim (find_bypass-last commits e.addr none) [
    | inl (unmatched, f) ↦ (
      check_load-is_safe last allocs commits e,
      ground (arith, f, unmatched),
      λ h. (let no : ⊥ = ground (arith, f, h) in elim no [ ]),
      ground (arith, f),
      ground (arith, f),
    )
    | inr (x, at, f) ↦ (
      check_load-is_safe last allocs commits e,
      ground (arith, f, LastCommit-has_commit e.addr x commits at),
      λ h. rw f at,
      ground (arith, f),
      ground (arith, f),
    )
  ]
    where
      LastCommit-has_commit :
          (addr : ℤ) (x : V) (q : List (Commit V)) → LastCommit addr x q → has_commit addr q ≡ true
      LastCommit-has_commit addr x [] i = elim i [ ]
      LastCommit-has_commit addr x _ (LastCommit.at_last c q same value none_after) = ground arith
      LastCommit-has_commit addr x _ (LastCommit.later c q i) =
          ground (arith, LastCommit-has_commit addr x q i)
