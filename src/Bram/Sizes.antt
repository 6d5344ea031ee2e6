-- ===== src/Bram/Sizes.antt =====
-- The two queues of lsq/LoadStoreQueueBRAM.hpp are register arrays: no rule changes their sizes.
use elastic_sycl_hls.Prelude.{
  ℕ, suc, ◌+◌, ◌≡◌, Bool, true, false, Option, List, [], ◌∷◌, arith, refl, ap, ◌∙◌, length,
  length-append,
}
use elastic_sycl_hls.Prelude.Int.{ℤ}
use elastic_sycl_hls.Bram.State.{Config, Lsq, LdReq, StReq, StAlloc, LdEntry, PipeInputs, no_load}
use elastic_sycl_hls.Bram.Stores.{shift_in, shift_allocs}
use elastic_sycl_hls.Bram.Loads.{accept_load, mark_first_two, shift_loads, set_head}
use elastic_sycl_hls.Bram.Cycle.{cycle}

length-shift_in {ℓ} : {A : Type ℓ} (a : A) (q : List A) → length (shift_in a q) ≡ length q
length-shift_in a [] = refl
length-shift_in a (x ∷ q) = omega (arith, length-append q (a ∷ []))

length-shift_allocs :
    (moves : Bool) (req : Option StReq) (junk : ℕ) (q : List StAlloc)
    → length (shift_allocs moves req junk q) ≡ length q
unfolding shift_allocs
length-shift_allocs true req junk q = length-shift_in _ q
length-shift_allocs false req junk q = refl

length-accept_load : (req : Option LdReq) (q : List LdEntry) → length (accept_load req q) ≡ length q
unfolding accept_load
length-accept_load req [] = refl
length-accept_load req (e ∷ []) = refl
length-accept_load req (e ∷ f ∷ q) = ap suc (length-accept_load req (f ∷ q))

length-mark_first_two :
    (n : ℕ) (allocs : List StAlloc) (q : List LdEntry)
    → length (mark_first_two n allocs q) ≡ length q
unfolding mark_first_two
length-mark_first_two n allocs [] = refl
length-mark_first_two n allocs (e ∷ []) = refl
length-mark_first_two n allocs (e ∷ f ∷ q) = refl

length-shift_loads : (cfg : Config) (q : List LdEntry) → length (shift_loads cfg q) ≡ length q
unfolding shift_loads
length-shift_loads cfg [] = ground arith
length-shift_loads cfg (e ∷ q) = ground (arith, length-shift_in (no_load (cfg.num_lds + 1)) (e ∷ q))

length-set_head : (h : LdEntry) (q : List LdEntry) → length (set_head h q) ≡ length q
length-set_head h [] = refl
length-set_head h (e ∷ q) = refl

-- One iteration leaves both queues as long as they were.
pub cycle-sizes :
    {V : Type 0} (cfg : Config) (byte_of : V → ℤ) (s : Lsq V) (inp : PipeInputs V)
    → let s' = (cycle cfg byte_of s inp).0 in
      (length s'.st_alloc ≡ length s.st_alloc) × (length s'.ld_queue ≡ length s.ld_queue)
unfolding cycle
cycle-sizes cfg byte_of s inp = (
  length-shift_allocs _ _ _ s.st_alloc,
  length-shift_loads cfg _
      ∙ length-mark_first_two _ _ _
      ∙ length-accept_load _ _
      ∙ length-set_head _ s.ld_queue,
)
