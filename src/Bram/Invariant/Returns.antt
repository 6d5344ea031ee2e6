-- ===== src/Bram/Invariant/Returns.antt =====
-- The load queue across one iteration: lsq/LoadStoreQueueBRAM.hpp lines 359-448.
use elastic_sycl_hls.Prelude.{
  ℕ, suc, ◌≤◌, ◌≡◌, inl, inr, Bool, true, false, Option, none, some, List, [], ◌∷◌, arith,
  if◌then◌else◌, length,
}
use elastic_sycl_hls.Prelude.Int.{ℤ}
use elastic_sycl_hls.Bram.State.{Config, StAlloc, LdReq, LdEntry, load_head}
use elastic_sycl_hls.Bram.Stores.{StVal}
use elastic_sycl_hls.Bram.Loads.{Return, bypasses, return_load, accepts, set_head}
use elastic_sycl_hls.Bram.Program.{Program, mem_after, expected, expected_port, one_if_some}
use elastic_sycl_hls.Bram.Invariant.{Slots, Allocs, LoadQueue}
use elastic_sycl_hls.Bram.Invariant.Values.{Arrival}
use elastic_sycl_hls.Bram.Invariant.Memory.{ReturnedWell, return_load-ReturnedWell}
use elastic_sycl_hls.Bram.Invariant.Loads.{
  MatchesLoad, load_rules, load_rules-returned, load_rules-kept,
}

module _ {V : Type 0} (cfg : Config) (p : Program V) where
  -- What a write to a load value pipe is to be, when `r` loads were returned before.
  abbrev pub WrittenWell : ℕ → Option (ℕ × V) → Type 0
  WrittenWell r written =
      (x : ℕ × V) → written ≡ some x → x ≡ (expected_port cfg p r, expected cfg p r)

  -- The load rules of one iteration, with the return `ret`.
  abbrev pub LoadsWell :
      ℕ → ℕ → ℕ → ℕ → List StAlloc → Option LdReq → List LdEntry → Return V → Type 0
  LoadsWell c n r m allocs req q ret =
      LoadQueue cfg p c n (one_if_some ret.written r)
        (if accepts (set_head ret.head q) then one_if_some req m else m) ret.ld_val
        (load_rules p cfg n allocs req (set_head ret.head q))
      × WrittenWell r ret.written

  after_return :
      (c n r m : ℕ) (allocs : List StAlloc) (req : Option LdReq) (e f : LdEntry) (q : List LdEntry)
      (ret : Return V)
      → MatchesLoad p m req
      → Allocs p c n allocs
      → e.port ≡ p.ld_port r
      → Slots p c n (suc r) m (f ∷ q)
      → ReturnedWell cfg p c n r e ret
      → LoadsWell c n r m allocs req (e ∷ f ∷ q) ret
  after_return c n r m allocs req e f q ret h al port s (inl (w, v)) = rw w (
    load_rules-returned p cfg c n (suc r) m ret.ld_val allocs req ret.head f q h al v s,
    λ x same. cc,
  )
  after_return c n r m allocs req e f q ret h al port s (inr (w, v, o, val)) = rw w (
    load_rules-kept p cfg c n r m ret.ld_val allocs req ret.head f q h al v o val s,
    λ x same. cc,
  )

  module _ (ready : ℕ → Bool) (st : StVal V) (head : StAlloc) (mem : ℤ → V) (c n r m : ℕ)
      (arr : Arrival cfg p c r st)
      (oldest : st.arrived ≡ true → (head.addr ≡ p.st_addr (suc c)) × (head.tag ≡ suc c))
      (memory : (a : ℤ) → mem a ≡ mem_after cfg p c a) (le : c ≤ p.ld_tag r) where
    abbrev pub head_return : V → List LdEntry → Return V
    head_return ld_val q =
        return_load cfg ready (bypasses st.valid head (load_head q)) st.value
          (mem (load_head q).addr) ld_val (load_head q)

    idle_head :
        (ld_val : V) (e : LdEntry) (q : List LdEntry)
        → e.addr_valid ≡ false
        → head_return ld_val (e ∷ q) ≡ record { head = e; ld_val = ld_val; written = none }
    unfolding return_load
    idle_head ld_val e q v = ground arith

    pub loads-kept :
        (allocs : List StAlloc) (req : Option LdReq) (ld_val : V) (q : List LdEntry)
        → MatchesLoad p m req
        → Allocs p c n allocs
        → 2 ≤ length q
        → LoadQueue cfg p c n r m ld_val q
        → LoadsWell c n r m allocs req q (head_return ld_val q)
    loads-kept allocs req ld_val [] h al two i = absurd i
    loads-kept allocs req ld_val (e ∷ []) h al two i = absurd (omega arith)
    loads-kept allocs req ld_val (e ∷ f ∷ q) h al two (inl (v, o, val, s)) =
        after_return c n r m allocs req e f q _ h al o.2 s (
          return_load-ReturnedWell cfg p c n r r ready st head (mem e.addr) ld_val e arr oldest v o
            le (memory e.addr) val)
    loads-kept allocs req ld_val (e ∷ f ∷ q) h al two (inr (v, x, w, s)) =
        rw (idle_head ld_val e (f ∷ q) v)
          (load_rules-returned p cfg c n r m ld_val allocs req e f q h al v s, λ y same. cc)
