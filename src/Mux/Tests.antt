-- ===== src/Mux/Tests.antt =====
-- Runs of a mux of two ports, and the theorems at them: mux loops of lsq/LoadStoreQueueBRAM.hpp.
-- An item is its own tag.
use elastic_sycl_hls.Prelude.{
  ℕ, ◌+◌, ◌≤◌, ◌==◌, ◌≡◌, true, false, if◌then◌else◌, Option, none, some, List, [], ◌∷◌, map,
  length, arith, refl,
}
use elastic_sycl_hls.Mux.{
  Mux, MuxInput, initial_mux, refill_port, refill_ports, choose_at, choose_port, advance_tag,
  mux_step, written, mux_run,
}
use elastic_sycl_hls.Mux.Order.{tags_from, mux_run-consecutive}
use elastic_sycl_hls.Mux.Lossless.{count_tag, held, taken_run, mux_run-lossless}

abbrev own_tag : ℕ → ℕ
own_tag x = x

abbrev no_offer : ℕ → Option ℕ
no_offer k = none

-- Port 0 delivers tag 2 and port 1 delivers tag 1.
abbrev two_offers : ℕ → Option ℕ
two_offers k = if k == 0 then some 2 else some 1

abbrev inputs : List (MuxInput ℕ)
inputs =
    record { end_arrived = false; offer = two_offers }
    ∷ record { end_arrived = false; offer = no_offer }
    ∷ record { end_arrived = true; offer = no_offer }
    ∷ []

abbrev two_ports : Mux ℕ
two_ports = initial_mux 2 1

abbrev both_full : Mux ℕ
both_full = record { ports = some 2 ∷ some 1 ∷ []; next_tag = 1 }

inputs-written : (mux_run own_tag two_ports inputs).0 ≡ 1 ∷ 2 ∷ []
unfolding mux_run mux_step choose_port choose_at refill_ports refill_port advance_tag written
inputs-written = refl

mux_run-consecutive_example :
    map own_tag (mux_run own_tag two_ports inputs).0
    ≡ tags_from 1 (length (mux_run own_tag two_ports inputs).0)
mux_run-consecutive_example = mux_run-consecutive own_tag two_ports inputs

distinct :
    (t : ℕ)
    → count_tag own_tag t (held two_ports.ports)
        + count_tag own_tag t (taken_run own_tag two_ports inputs)
      ≤ 1
unfolding mux_step refill_ports refill_port choose_port choose_at
distinct t = ground arith

mux_run-lossless_example :
    let (out, m') = mux_run own_tag two_ports inputs in
    count_tag own_tag 2 out + count_tag own_tag 2 (held m'.ports)
    ≡ count_tag own_tag 2 (held two_ports.ports)
      + count_tag own_tag 2 (taken_run own_tag two_ports inputs)
mux_run-lossless_example = mux_run-lossless own_tag two_ports inputs distinct 2
