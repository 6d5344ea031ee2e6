-- ===== src/QueueSize/Delays.antt =====
-- The delay that getStoreQueueSize of lib/DataHazardAnalysis.cpp sums up over the instructions of a
-- pi-block: an unrolled loop counts once, with its iterations.
use elastic_sycl_hls.Prelude.{
  ℕ, suc, ◌+◌, ◌*◌, ◌≤◌, ◌≡◌, inl, inr, if◌then◌else◌, Bool-cases, none, some, arith, Bool, false,
  Option, List, [], ◌∷◌, ◌++◌, not, ◌&&◌, ◌||◌, ◌==◌,
}
use elastic_sycl_hls.Prelude.Members.{any}
use elastic_sycl_hls.QueueSize.{
  DdgInstruction, contains, nested_latency, loop_latency, instruction_latency, add_latencies, Loops,
}
use native.Mathlib.Nat.{le-mul_of_pos_right}

le_times : (n m : ℕ) → 1 ≤ m → n ≤ n * m
le_times n m h = le-mul_of_pos_right n h

module _ (loops : Loops) where
  abbrev outside_of : Option ℕ → ℕ → ℕ
  outside_of none lat = lat
  outside_of (some o) lat = if loops.is_unrolled o then 0 else lat

  -- The latency of the instructions outside unrolled loops.
  abbrev pub outside : List DdgInstruction → ℕ
  outside [] = 0
  outside (i ∷ is) = outside_of i.in_loop i.latency + outside is

  abbrev is_in : ℕ → Option ℕ → Bool
  is_in l none = false
  is_in l (some o) = o == l

  -- The cycles that an unrolled loop adds if it has one of the instructions and is not counted yet:
  -- one for each iteration and one more.
  abbrev pub cycles_of : ℕ → List ℕ → List DdgInstruction → ℕ
  cycles_of l counted is =
      if loops.is_unrolled l && any (λ i. is_in l i.in_loop) is && not (contains loops l counted)
      then suc (loops.backedge_count l)
      else 0

  nested_latency-least :
      ((o : ℕ) → 1 ≤ loops.backedge_count o)
      → (o : ℕ) (counted : List ℕ) (lat : ℕ) → lat ≤ nested_latency loops o counted lat
  unfolding nested_latency
  nested_latency-least runs o [] lat = omega arith
  nested_latency-least runs o (c ∷ cs) lat =
      elim (Bool-cases (loops.is_sub_loop c o || loops.is_sub_loop o c)) [
        | inl nested ↦
            (let more = le_times lat (loops.backedge_count c) (runs c) in
              rw nested (
                omega (arith, more, nested_latency-least runs o cs (lat * loops.backedge_count c))))
        | inr apart ↦ rw apart (nested_latency-least runs o cs lat)
      ]

  contains-append :
      (l o : ℕ) (counted : List ℕ)
      → contains loops l (counted ++ o ∷ []) ≡ (contains loops l counted || (o == l))
  contains-append l o [] = ground arith
  contains-append l o (c ∷ cs) = ground (arith, contains-append l o cs)

  loop_latency-least :
      ((o : ℕ) → 1 ≤ loops.backedge_count o)
      → (l : ℕ) (loop : Option ℕ) (lat : ℕ) (counted : List ℕ) (later : Bool)
      → let after = loop_latency loops loop lat counted in
        outside_of loop lat
          + (if loops.is_unrolled l && (is_in l loop || later) && not (contains loops l counted)
              then suc (loops.backedge_count l)
              else 0)
        ≤ after.0
          + (if loops.is_unrolled l && later && not (contains loops l after.1)
              then suc (loops.backedge_count l)
              else 0)
  unfolding loop_latency
  loop_latency-least runs l none lat counted later = omega arith
  loop_latency-least runs l (some o) lat counted later =
      let nested = nested_latency-least runs o counted (1 + loops.backedge_count o) in
      elim (Bool-cases (loops.is_unrolled o && not (contains loops o counted))) [
        | inl first ↦ elim (Bool-cases (o == l)) [
          | inl same ↦
              (let e : o ≡ l = ground (arith, same) in
                rw first (ground (arith, nested, first, e, contains-append l o counted)))
          | inr other ↦ rw first (ground (arith, nested, first, other, contains-append l o counted))
        ]
        | inr again ↦ elim (Bool-cases (o == l)) [
          | inl same ↦ (let e : o ≡ l = ground (arith, same) in rw again (ground (arith, again, e)))
          | inr other ↦ rw again (ground (arith, again, other))
        ]
      ]

  pub add_latencies-least :
      ((o : ℕ) → 1 ≤ loops.backedge_count o)
      → (l : ℕ) (is : List DdgInstruction) (counted : List ℕ) (delay : ℕ)
      → delay + outside is + cycles_of l counted is ≤ add_latencies loops is counted delay
  unfolding add_latencies instruction_latency
  add_latencies-least runs l [] counted delay = ground arith
  add_latencies-least runs l (i ∷ is) counted delay =
      let after = loop_latency loops i.in_loop i.latency counted in
      let rest = add_latencies-least runs l is after.1 (delay + after.0) in
      let here =
        loop_latency-least runs l i.in_loop i.latency counted (any (λ j. is_in l j.in_loop) is) in
      omega (arith, rest, here)
