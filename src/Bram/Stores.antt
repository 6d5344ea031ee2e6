-- ===== src/Bram/Stores.antt =====
-- The store rules of the kernel LSQ_BRAM, lsq/LoadStoreQueueBRAM.hpp lines 58-62, 314-375 and
-- 454-487: taking a store value, committing it, and the store allocation queue.
use elastic_sycl_hls.Prelude.{
  ℕ, ◌+◌, ◌≡◌, arith, Bool, true, false, not, ◌&&◌, ◌||◌, if◌then◌else◌, Option, none, some, List,
  [], ◌∷◌, ◌++◌,
}
use elastic_sycl_hls.Prelude.Int.{ℤ, pos, negsuc, ◌==ℤ◌}
use elastic_sycl_hls.Mux.{Mux, mux_step}
use elastic_sycl_hls.Bram.State.{
  TaggedVal, val_tag, StReq, Config, use_st_val_mux_inlined, StAlloc, PipeInputs, invalid_bram_addr,
  is_some, or_junk, alloc_head,
}

-- `tmp << 1` for a value of the range of int8_t held in an int.
abbrev shl_one : ℤ → ℤ
shl_one (pos n) = pos (n + n)
shl_one (negsuc n) = negsuc (n + n + 1)

-- `mk_dependency` on the byte of its argument.
unfoldable pub mk_dependency : ℤ → Bool
unfolding ◌==ℤ◌
mk_dependency tmp = not (shl_one tmp ==ℤ tmp && not (tmp ==ℤ pos 0))

-- It is true of every byte, so the store does not depend on it.
pub mk_dependency-true : (tmp : ℤ) → mk_dependency tmp ≡ true
unfolding mk_dependency
mk_dependency-true (pos n) = ground arith
mk_dependency-true (negsuc n) = ground arith

-- st_val_arrived, st_val_valid and st_val, with the registers of the inlined mux.
pub record StVal (V : Type 0) : Type 0 where
  pub arrived : Bool
  pub valid : Bool
  pub value : V
  pub mux : Mux (TaggedVal V)

module _ {V : Type 0} (cfg : Config) where
  -- The value that a read delivered, and the valid bit as speculation needs it.
  unfoldable pub st_val_from : Option (TaggedVal V) → TaggedVal V → Mux (TaggedVal V) → StVal V
  st_val_from rd junk mux =
      let arrived : Bool = is_some rd in
      let st_val : TaggedVal V = or_junk rd junk in
      record {
        arrived = arrived;
        valid = if cfg.use_speculation then arrived && st_val.valid else arrived;
        value = st_val.value;
        mux = mux;
      }

  abbrev pub picked_val : Option (ℕ × TaggedVal V) → Option (TaggedVal V)
  picked_val none = none
  picked_val (some (k, x)) = some x

  -- The read under `if (st_alloc_addr_valid[0])`: the inlined mux, or the one pipe (the output of
  -- the mux kernel, or port 0).
  unfoldable pub read_st_val : PipeInputs V → Mux (TaggedVal V) → StVal V
  unfolding st_val_from
  read_st_val inp mux =
      if use_st_val_mux_inlined cfg
      then (let (mux', chosen) = mux_step val_tag mux inp.st_val_offer in
          st_val_from (picked_val chosen) inp.junk_val mux')
      else st_val_from (inp.st_val_offer 0) inp.junk_val mux

  unfoldable pub take_st_val : PipeInputs V → StAlloc → Mux (TaggedVal V) → StVal V
  unfolding read_st_val
  take_st_val inp head mux =
      if head.addr_valid
      then read_st_val inp mux
      else record { arrived = false; valid = false; value = inp.junk_val.value; mux = mux }

  -- `DATA[st_alloc_addr[0]] = st_val`, one cycle after the load of `ld_memory_val`.
  -- `byte_of` is `reinterpret_cast<int8_t &>`.
  unfoldable pub commit_store : (V → ℤ) → V → StVal V → StAlloc → (ℤ → V) → ℤ → V
  commit_store byte_of ld_memory_val st head mem a =
      if st.valid && mk_dependency (byte_of ld_memory_val) && (head.addr ==ℤ a)
      then st.value
      else mem a

-- The entry that enters the queue.
unfoldable pub new_alloc : Option StReq → ℕ → StAlloc
new_alloc none junk_tag = record { addr = invalid_bram_addr; addr_valid = false; tag = junk_tag }
new_alloc (some r) junk_tag = record { addr = r.addr; addr_valid = true; tag = r.tag }

abbrev pub new_last_tag : Option StReq → ℕ → ℕ
new_last_tag none last = last
new_last_tag (some r) last = r.tag

abbrev pub shift_in {ℓ} : {A : Type ℓ} → A → List A → List A
shift_in a [] = []
shift_in a (x ∷ q) = q ++ a ∷ []

-- The queue is shifted, and a request pipe read, when the head is done or empty.
unfoldable pub alloc_moves : Bool → List StAlloc → Bool
alloc_moves arrived q = arrived || not (alloc_head q).addr_valid

unfoldable pub shift_allocs : Bool → Option StReq → ℕ → List StAlloc → List StAlloc
unfolding alloc_moves new_alloc
shift_allocs moves req junk_tag q = if moves then shift_in (new_alloc req junk_tag) q else q
