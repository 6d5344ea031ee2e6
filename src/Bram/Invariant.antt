-- ===== src/Bram/Invariant.antt =====
-- What the registers of the kernel LSQ_BRAM hold between two iterations, relative to a program and
-- to the progress made: lsq/LoadStoreQueueBRAM.hpp.
pub mod Stores
pub mod Loads
pub mod Values
pub mod Memory
pub mod Returns
pub mod Kept
use elastic_sycl_hls.Prelude.{
  ℕ, suc, ◌+◌, ◌≤◌, ◌<◌, ◌^◌, ◌≡◌, ◌≢◌, ◌⊎◌, Bool, true, false, some, List, [], ◌∷◌, length,
  get_elem?,
}
use elastic_sycl_hls.Prelude.Int.{ℤ}
use elastic_sycl_hls.Mux.{Mux}
use elastic_sycl_hls.Bram.State.{
  invalid_bram_addr, TaggedVal, Config, use_st_val_mux_inlined, StAlloc, LdEntry, Lsq,
}
use elastic_sycl_hls.Bram.Program.{Program, Progress, mem_after, expected}

module _ {V : Type 0} (p : Program V) where
  -- No store after store `c` and up to store `t` writes address `a`, and store `t` is requested.
  abbrev pub SafeAt : ℕ → ℕ → ℕ → ℤ → Type 0
  SafeAt c n t a = (t ≤ n) × ((k : ℕ) → c < k → k ≤ t → p.st_addr k ≢ a)

  -- Entry `e` holds load `i`, where `c` stores are done and `n` requested.
  abbrev pub Holds : ℕ → ℕ → ℕ → LdEntry → Type 0
  Holds c n i e =
      (e.addr ≡ p.ld_addr i)
      × (e.tag ≡ p.ld_tag i)
      × (e.port ≡ p.ld_port i)
      × (e.is_safe ≡ true → SafeAt c n e.tag e.addr)

  -- The valid entries of the list are the loads from `i` to below `m`, in order, none with a value.
  abbrev pub Slots : ℕ → ℕ → ℕ → ℕ → List LdEntry → Type 0
  Slots c n i m [] = i ≡ m
  Slots c n i m (e ∷ q) =
      ((e.addr_valid ≡ true) × Holds c n i e × (e.val_valid ≡ false) × Slots c n (suc i) m q)
      ⊎ ((e.addr_valid ≡ false) × (e.is_safe ≡ false) × (e.val_valid ≡ false) × Slots c n i m q)

  -- The valid entries of the list are the stores after `c` up to `n`, in order; the others have the
  -- invalid address.
  abbrev pub Allocs : ℕ → ℕ → List StAlloc → Type 0
  Allocs c n [] = c ≡ n
  Allocs c n (e ∷ q) =
      ((e.addr_valid ≡ true) × (e.addr ≡ p.st_addr (suc c)) × (e.tag ≡ suc c) × Allocs (suc c) n q)
      ⊎ ((e.addr_valid ≡ false) × (e.addr ≡ invalid_bram_addr) × Allocs c n q)

  -- A store value that may be used once the loads before it, here those below `r`, have returned.
  abbrev pub ValueOf : ℕ → TaggedVal V → Type 0
  ValueOf r x =
      (x.value ≡ p.st_value x.tag)
      × (x.valid ≡ p.st_valid x.tag)
      × ((i : ℕ) → p.ld_tag i < x.tag → i < r)

-- The load queue, where `c` stores are done and `n` requested, `r` loads returned and `m` requested:
-- the head may have its value already, `ld_val`.
abbrev pub LoadQueue : {V : Type 0} → Config → Program V → ℕ → ℕ → ℕ → ℕ → V → List LdEntry → Type 0
LoadQueue cfg p c n r m ld_val [] = ⊥
LoadQueue cfg p c n r m ld_val (e ∷ q) =
    ((e.addr_valid ≡ true)
      × Holds p c n r e
      × (e.val_valid ≡ true → ld_val ≡ expected cfg p r)
      × Slots p c n (suc r) m q)
    ⊎ ((e.addr_valid ≡ false) × (e.is_safe ≡ false) × (e.val_valid ≡ false) × Slots p c n r m q)

-- The store queue has an entry, and holds the stores that are requested and not done.
abbrev pub StoreQueue : {V : Type 0} → Program V → ℕ → ℕ → List StAlloc → Type 0
StoreQueue p c n [] = ⊥
StoreQueue p c n (e ∷ q) = Allocs p c n (e ∷ q)

-- The registers of the inlined store value mux.
pub record MuxHolds {V : Type 0} (p : Program V) (g : Progress) (m : Mux (TaggedVal V))
    : Type 0 where
  pub next : m.next_tag ≡ suc g.done
  pub values :
      (i : ℕ) (x : TaggedVal V) → get_elem? m.ports i ≡ some (some x) → ValueOf p g.returned x

pub record Inv {V : Type 0} (cfg : Config) (p : Program V) (g : Progress) (s : Lsq V) : Type 0 where
  pub memory : (a : ℤ) → s.data_mem a ≡ mem_after cfg p g.done a
  pub last : s.last_st_req_tag ≡ g.alloc
  pub few : g.alloc + 1 < 2 ^ 32
  pub stores : StoreQueue p g.done g.alloc s.st_alloc
  pub loads : LoadQueue cfg p g.done g.alloc g.returned g.requested s.ld_val s.ld_queue
  pub two_loads : 2 ≤ length s.ld_queue
  pub served : (i : ℕ) → p.ld_tag i < g.done → i < g.returned
  pub mux : use_st_val_mux_inlined cfg ≡ true → MuxHolds p g s.st_val_mux
