-- ===== src/Bram/State.antt =====
-- The configuration (template parameters), requests and registers of the kernel LSQ_BRAM,
-- lsq/LoadStoreQueueBRAM.hpp lines 29-42, 63-80 and 241-291.
-- The parallel register arrays `st_alloc_*` and `ld_*` are one list of records each, index 0 first.
-- `DATA` is a total map of addresses: staying inside ARRAY_SIZE is the client's part.
use elastic_sycl_hls.Prelude.{
  ℕ, Bool, true, false, not, ◌&&◌, ltb, Option, none, some, List, [], ◌∷◌, replicate,
}
use elastic_sycl_hls.Prelude.Int.{ℤ, pos, negsuc}
use elastic_sycl_hls.Mux.{Mux, initial_mux}

-- INVALID_BRAM_ADDR
abbrev pub invalid_bram_addr : ℤ
invalid_bram_addr = negsuc 0

pub record TaggedVal (V : Type 0) : Type 0 where
  pub value : V
  pub tag : ℕ
  pub valid : Bool

abbrev pub val_tag : {V : Type 0} → TaggedVal V → ℕ
val_tag x = x.tag

pub record StReq : Type 0 where
  pub addr : ℤ
  pub tag : ℕ

pub record LdReq : Type 0 where
  pub addr : ℤ
  pub tag : ℕ
  pub port_ldtag_union : ℕ

-- The template parameters.
pub record Config : Type 0 where
  pub use_speculation : Bool
  pub num_lds : ℕ
  pub num_st_req : ℕ
  pub num_st_val : ℕ
  pub ld_q_size : ℕ
  pub st_q_size : ℕ

abbrev pub max_inlined_st_val_mux : ℕ
max_inlined_st_val_mux = 3

unfoldable pub use_st_val_mux_kernel : Config → Bool
use_st_val_mux_kernel cfg = ltb max_inlined_st_val_mux cfg.num_st_val

unfoldable pub use_st_val_mux_inlined : Config → Bool
unfolding use_st_val_mux_kernel
use_st_val_mux_inlined cfg = not (use_st_val_mux_kernel cfg) && ltb 1 cfg.num_st_val

unfoldable pub use_ld_mux : Config → Bool
use_ld_mux cfg = ltb 1 cfg.num_lds

-- One entry of the store allocation queue: st_alloc_addr, st_alloc_addr_valid, st_alloc_tag.
pub record StAlloc : Type 0 where
  pub addr : ℤ
  pub addr_valid : Bool
  pub tag : ℕ

-- One entry of the load queue: ld_addr, ld_tag, ld_addr_valid, ld_val_valid, ld_is_safe, ld_port.
pub record LdEntry : Type 0 where
  pub addr : ℤ
  pub tag : ℕ
  pub addr_valid : Bool
  pub val_valid : Bool
  pub is_safe : Bool
  pub port : ℕ

-- The local variables of the kernel that live across iterations.
pub record Lsq (V : Type 0) : Type 0 where
  pub data_mem : ℤ → V
  pub st_alloc : List StAlloc
  pub last_st_req_tag : ℕ
  pub ld_queue : List LdEntry
  pub ld_val : V
  pub st_val_mux : Mux (TaggedVal V)

abbrev pub no_alloc : StAlloc
no_alloc = record { addr = invalid_bram_addr; addr_valid = false; tag = 0 }

-- An empty load entry with a given port field.
abbrev pub no_load : ℕ → LdEntry
no_load port = record {
  addr = pos 0;
  tag = 0;
  addr_valid = false;
  val_valid = false;
  is_safe = false;
  port = port;
}

-- The registers when the loop starts; `data_mem` and `ld_val` have no initial value in the source.
unfoldable pub initial_lsq : {V : Type 0} → Config → (ℤ → V) → V → Lsq V
initial_lsq cfg mem junk = record {
  data_mem = mem;
  st_alloc = replicate cfg.st_q_size no_alloc;
  last_st_req_tag = 0;
  ld_queue = replicate cfg.ld_q_size (no_load 0);
  ld_val = junk;
  st_val_mux = initial_mux cfg.num_st_val 1;
}

-- What the kernel sees of its pipes in one iteration: what each non-blocking read would deliver,
-- and whether a non-blocking write to a load value pipe would succeed. `junk_val` and `junk_tag`
-- are the contents of variables that the source leaves uninitialised when a read fails.
pub record PipeInputs (V : Type 0) : Type 0 where
  pub end_arrived : Bool
  pub st_val_offer : ℕ → Option (TaggedVal V)
  pub ld_ready : ℕ → Bool
  pub ld_req_offer : Option LdReq
  pub st_req_offer : Option StReq
  pub junk_val : TaggedVal V
  pub junk_tag : ℕ

abbrev pub is_some {ℓ} : {A : Type ℓ} → Option A → Bool
is_some none = false
is_some (some a) = true

abbrev pub or_junk {ℓ} : {A : Type ℓ} → Option A → A → A
or_junk none junk = junk
or_junk (some a) junk = a

-- The entry at index 0.
abbrev pub alloc_head : List StAlloc → StAlloc
alloc_head [] = no_alloc
alloc_head (e ∷ q) = e

abbrev pub load_head : List LdEntry → LdEntry
load_head [] = no_load 0
load_head (e ∷ q) = e
