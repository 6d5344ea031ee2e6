-- ===== src/Mux.antt =====
-- The muxes in front of a load-store queue: the kernels StoreReqInMux, StoreValInMux and
-- LoadReqInMux of lsq/LoadStoreQueueBRAM.hpp (lines 98-235), the kernel StoreReqMux of
-- lsq/LoadStoreQueueDRAM.hpp, and the store value mux inlined into both queue kernels.
-- Each port has a register for one item (`read_succ` says that it is full: `some`), and an
-- iteration emits the item whose tag is `next_tag`. A port whose register is empty is read with a
-- non-blocking read: `offer k` is what pipe k would deliver in this iteration.
pub mod Order
pub mod Lossless
mod Tests
use elastic_sycl_hls.Prelude.{
  ℕ, ◌+◌, ◌%◌, ◌^◌, ◌==◌, if◌then◌else◌, Bool, Option, none, some, List, [], ◌∷◌, ◌++◌, replicate,
}

-- `next_tag++` on a 32-bit uint.
abbrev pub next_uint : ℕ → ℕ
next_uint n = (n + 1) % 2 ^ 32

pub record Mux {ℓ} (A : Type ℓ) : Type ℓ where
  pub ports : List (Option A)
  pub next_tag : ℕ

-- The state before the loop: all registers empty.
abbrev pub initial_mux {ℓ} : {A : Type ℓ} → ℕ → ℕ → Mux A
initial_mux num_ports first_tag = record { ports = replicate num_ports none; next_tag = first_tag }

-- What a mux kernel sees in one iteration: whether its end signal arrived, and its pipes.
pub record MuxInput {ℓ} (A : Type ℓ) : Type ℓ where
  pub end_arrived : Bool
  pub offer : ℕ → Option A

module _ {ℓ} {A : Type ℓ} (tag : A → ℕ) where
  -- The register of one port after the iteration.
  unfoldable pub refill_port : ℕ → Option A → Option A → Option A
  refill_port next none offered = offered
  refill_port next (some x) offered = if tag x == next then none else some x

  -- `UnrolledLoop<NUM>` over the ports from `k` on: the registers.
  unfoldable pub refill_ports : ℕ → ℕ → (ℕ → Option A) → List (Option A) → List (Option A)
  refill_ports next k offer [] = []
  refill_ports next k offer (p ∷ ps) =
      refill_port next p (offer k) ∷ refill_ports next (k + 1) offer ps

  -- What one port does to the item to write: a match overwrites what an earlier port chose.
  unfoldable pub choose_at : ℕ → ℕ → Option A → Option (ℕ × A) → Option (ℕ × A)
  choose_at next k none chosen = chosen
  choose_at next k (some x) chosen = if tag x == next then some (k, x) else chosen

  -- The same loop: the item to write, with the port that it came from.
  unfoldable pub choose_port : ℕ → ℕ → List (Option A) → Option (ℕ × A) → Option (ℕ × A)
  choose_port next k [] chosen = chosen
  choose_port next k (p ∷ ps) chosen = choose_port next (k + 1) ps (choose_at next k p chosen)

  unfoldable pub advance_tag : ℕ → Option (ℕ × A) → ℕ
  advance_tag next none = next
  advance_tag next (some x) = next_uint next

  -- One iteration of the mux loop.
  unfoldable pub mux_step : Mux A → (ℕ → Option A) → Mux A × Option (ℕ × A)
  mux_step m offer =
      let chosen : Option (ℕ × A) = choose_port m.next_tag 0 m.ports none in
      (
        record {
          ports = refill_ports m.next_tag 0 offer m.ports;
          next_tag = advance_tag m.next_tag chosen;
        },
        chosen,
      )

  -- What is written to the output pipe in one iteration.
  unfoldable pub written : Option (ℕ × A) → List A
  written none = []
  written (some (k, x)) = x ∷ []

  -- `while (!end_signal)`: an iteration that reads the end signal is still completed.
  unfoldable pub mux_run : Mux A → List (MuxInput A) → List A × Mux A
  mux_run m [] = ([], m)
  mux_run m (i ∷ is) =
      let (m', chosen) = mux_step m i.offer in
      let rest = mux_run m' is in
      if i.end_arrived then (written chosen, m') else (written chosen ++ rest.0, rest.1)
