-- ===== src/Dram/CommitQueue.antt =====
-- The commit queue of LSQ_DRAM (lsq/LoadStoreQueueDRAM.hpp lines 252-262 and 345-356): what a load
-- finds there after a store commits.
use elastic_sycl_hls.Prelude.{
  ◌≡◌, ◌∙◌, refl, arith, true, if◌then◌else◌, Option, none, some, List, [], ◌∷◌, ◌++◌,
}
use elastic_sycl_hls.Prelude.Int.{ℤ, ◌==ℤ◌, ==ℤ_refl}
use elastic_sycl_hls.Bram.State.{Config, StAlloc, alloc_head}
use elastic_sycl_hls.Bram.Stores.{StVal}
use elastic_sycl_hls.Dram.{
  Commit, shift_commits, find_bypass, store_written, dram_st_val, dram_cycle, DramLsq, DramInputs,
}

module _ {V : Type 0} (cfg : Config) where
  find_bypass-append :
      (q : List (Commit V)) (c : Commit V) (a : ℤ) (found : Option V)
      → find_bypass cfg (q ++ c ∷ []) a found
        ≡ (if c.addr ==ℤ a then some c.value else find_bypass cfg q a found)
  unfolding find_bypass
  find_bypass-append [] c a found = ground arith
  find_bypass-append (x ∷ q) c a found =
      find_bypass-append q c a (if x.addr ==ℤ a then some x.value else found)

  -- After a store commits, a load from its address finds its value in a commit queue that is not
  -- empty, and a load from another address finds what the queue less its oldest entry holds.
  pub find_bypass-shift_commits :
      (st : StVal V) (head : StAlloc) (c : Commit V) (q : List (Commit V)) (a : ℤ)
      → st.valid ≡ true
      → find_bypass cfg (shift_commits cfg st head (c ∷ q)) a none
        ≡ (if head.addr ==ℤ a then some st.value else find_bypass cfg q a none)
  unfolding shift_commits
  find_bypass-shift_commits st head c q a valid =
      rw valid (find_bypass-append q (record { addr = head.addr; value = st.value }) a none)

  same_address :
      (x a : ℤ) (w v : V) (other : Option V)
      → x ≡ a
      → w ≡ v
      → (if x ==ℤ a then some w else other) ≡ some v
  same_address x a w v other e e' = rw (e, ==ℤ_refl a, e') refl

  commit_of :
      (st : StVal V) (head : StAlloc) (a : ℤ) (v : V)
      → store_written cfg st head ≡ some (a, v)
      → (st.valid ≡ true) × (head.addr ≡ a) × (st.value ≡ v)
  unfolding store_written
  commit_of st head a v e = ground arith

  -- A store that an iteration writes to memory is found by a load from its address in the commit
  -- queue that the iteration leaves, if the queue is not empty, with its value.
  pub dram_cycle-forwards :
      (s : DramLsq V) (inp : DramInputs V) (c : Commit V) (q : List (Commit V)) (a : ℤ) (v : V)
      → s.st_commit ≡ c ∷ q
      → (dram_cycle cfg s inp).1 ≡ some (a, v)
      → find_bypass cfg (dram_cycle cfg s inp).0.st_commit a none ≡ some v
  unfolding dram_cycle
  dram_cycle-forwards s inp c q a v commits written =
      let st : StVal V = dram_st_val cfg inp (alloc_head s.st_alloc) s.st_val_mux in
      let (valid, addr, value) = commit_of st (alloc_head s.st_alloc) a v written in
      let found = find_bypass-shift_commits st (alloc_head s.st_alloc) c q a valid in
      rw commits (
        found
        ∙ same_address (alloc_head s.st_alloc).addr a st.value v (find_bypass cfg q a none) addr
            value)
