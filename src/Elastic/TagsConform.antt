-- ===== src/Elastic/TagsConform.antt =====
-- The requests and values that lib/ElasticTransform.cpp makes the kernels send are those that the
-- queue of lsq/LoadStoreQueueBRAM.hpp expects of its clients.
use elastic_sycl_hls.Prelude.{
  ℕ, zero, suc, ◌+◌, ◌^◌, ◌<◌, ◌≡◌, refl, sym, arith, Bool, true, false, not, ◌||◌, if◌then◌else◌,
  Option, none, some, List, [], ◌∷◌, length, get_elem?,
}
use elastic_sycl_hls.Prelude.Int.{ℤ, pos}
use elastic_sycl_hls.Bram.State.{StReq}
use elastic_sycl_hls.Bram.Program.{Program}
use elastic_sycl_hls.Elastic.Tags.{
  MemoryOp, load_from, store_to, TaggedLoad, TaggedValue, has_poisoned, next_tag, load_requests,
  store_requests, store_values, nth_store, nth_load,
}

next_tag-lt : (t : ℕ) → t + 1 < 2 ^ 32 → next_tag t ≡ t + 1
next_tag-lt t h = omega (arith, h)

module _ {V : Type 0} where
  load_requests-nth_load :
      (muxed : Bool) (st ld i : ℕ) (ops : List (MemoryOp V)) (r : TaggedLoad)
      → st + length ops < 2 ^ 32
      → ld + length ops < 2 ^ 32
      → get_elem? (load_requests muxed st ld ops) i ≡ some r
      → (r.addr ≡ (nth_load i ops).0)
        × (r.st_tag ≡ st + (nth_load i ops).1)
        × (r.ld_tag ≡ (if muxed then some (ld + i) else none))
  unfolding load_requests
  load_requests-nth_load muxed st ld i [] r hs hl e = (let no : ⊥ = cc in elim no [ ])
  load_requests-nth_load muxed st ld i (store_to a x valid ∷ ops) r hs hl e =
      let next = next_tag-lt st (omega (arith, hs)) in
      let (at, tag, own) =
        load_requests-nth_load muxed (next_tag st) ld i ops r (omega (arith, hs, next))
          (omega (arith, hl)) e in
      (at, omega (arith, tag, next), own)
  load_requests-nth_load muxed st ld zero (load_from a ∷ ops) r hs hl e =
      let same : record { addr = a; st_tag = st; ld_tag = if muxed then some ld else none } ≡ r =
        cc in
      rw (sym same) (refl, omega arith, ground arith)
  load_requests-nth_load true st ld (suc i) (load_from a ∷ ops) r hs hl e =
      let next = next_tag-lt ld (omega (arith, hl)) in
      let (at, tag, own) =
        load_requests-nth_load true st (next_tag ld) i ops r (omega (arith, hs))
          (omega (arith, hl, next)) e in
      (at, tag, ground (arith, own, next))
  load_requests-nth_load false st ld (suc i) (load_from a ∷ ops) r hs hl e =
      load_requests-nth_load false st ld i ops r (omega (arith, hs)) (omega (arith, hl)) e

  store_requests-nth_store :
      (st n : ℕ) (ops : List (MemoryOp V)) (r : StReq)
      → st + length ops < 2 ^ 32
      → get_elem? (store_requests st ops) n ≡ some r
      → (r.tag ≡ st + suc n)
        × (n < length ops)
        × (x : V) × (valid : Bool) × (nth_store n ops ≡ some (r.addr, x, valid))
  unfolding store_requests
  store_requests-nth_store st n [] r h e = (let no : ⊥ = cc in elim no [ ])
  store_requests-nth_store st n (load_from a ∷ ops) r h e =
      let (tag, few, y, holds, there) = store_requests-nth_store st n ops r (omega (arith, h)) e in
      (tag, omega (arith, few), y, holds, there)
  store_requests-nth_store st zero (store_to a x valid ∷ ops) r h e =
      let next = next_tag-lt st (omega (arith, h)) in
      let same : record { addr = a; tag = next_tag st } ≡ r = cc in
      rw (sym same) (omega (arith, next), omega arith, x, valid, refl)
  store_requests-nth_store st (suc n) (store_to a x valid ∷ ops) r h e =
      let next = next_tag-lt st (omega (arith, h)) in
      let (tag, few, y, holds, there) =
        store_requests-nth_store (next_tag st) n ops r (omega (arith, h, next)) e in
      (omega (arith, tag, next), omega (arith, few), y, holds, there)

  -- A tag that is written, and counted as far as it is.
  store_values-muxed :
      (decoupled : Bool) (st n : ℕ) (ops : List (MemoryOp V)) (v : TaggedValue V)
      → st + length ops < 2 ^ 32
      → (decoupled || not (has_poisoned ops)) ≡ true
      → get_elem? (store_values true decoupled st ops) n ≡ some v
      → (v.tag ≡ some (st + suc n)) × (a : ℤ) × (nth_store n ops ≡ some (a, v.value, v.valid))
  unfolding store_values
  store_values-muxed decoupled st n [] v h s e = (let no : ⊥ = cc in elim no [ ])
  store_values-muxed decoupled st n (load_from a ∷ ops) v h s e =
      store_values-muxed decoupled st n ops v (omega (arith, h)) s e
  store_values-muxed true st zero (store_to a x valid ∷ ops) v h s e =
      let next = next_tag-lt st (omega (arith, h)) in
      let same : record { value = x; tag = some (next_tag st); valid = valid } ≡ v = cc in
      rw (sym same) (ground (arith, next), a, refl)
  store_values-muxed false st zero (store_to a x true ∷ ops) v h s e =
      let next = next_tag-lt st (omega (arith, h)) in
      let same : record { value = x; tag = some (next_tag st); valid = true } ≡ v = cc in
      rw (sym same) (ground (arith, next), a, refl)
  store_values-muxed false st n (store_to a x false ∷ ops) v h s e =
      (let no : ⊥ = ground arith in elim no [ ])
  store_values-muxed true st (suc n) (store_to a x valid ∷ ops) v h s e =
      let next = next_tag-lt st (omega (arith, h)) in
      let (tag, b, there) =
        store_values-muxed true (next_tag st) n ops v (omega (arith, h, next)) refl e in
      (ground (arith, tag, next), b, there)
  store_values-muxed false st (suc n) (store_to a x true ∷ ops) v h s e =
      let next = next_tag-lt st (omega (arith, h)) in
      let (tag, b, there) =
        store_values-muxed false (next_tag st) n ops v (omega (arith, h, next)) s e in
      (ground (arith, tag, next), b, there)

  store_values-untagged :
      (decoupled : Bool) (st n : ℕ) (ops : List (MemoryOp V)) (v : TaggedValue V)
      → get_elem? (store_values false decoupled st ops) n ≡ some v
      → (v.tag ≡ none) × (a : ℤ) × (nth_store n ops ≡ some (a, v.value, v.valid))
  unfolding store_values
  store_values-untagged decoupled st n [] v e = (let no : ⊥ = cc in elim no [ ])
  store_values-untagged decoupled st n (load_from a ∷ ops) v e =
      store_values-untagged decoupled st n ops v e
  store_values-untagged decoupled st zero (store_to a x valid ∷ ops) v e =
      let same : record { value = x; tag = none; valid = valid } ≡ v = cc in
      rw (sym same) (refl, a, refl)
  store_values-untagged decoupled st (suc n) (store_to a x valid ∷ ops) v e =
      store_values-untagged decoupled (if decoupled then st else next_tag st) n ops v e

  store_values-nth_store :
      (muxed decoupled : Bool) (n : ℕ) (ops : List (MemoryOp V)) (v : TaggedValue V)
      → length ops + 2 < 2 ^ 32
      → (decoupled || not (has_poisoned ops)) ≡ true
      → get_elem? (store_values muxed decoupled 0 ops) n ≡ some v
      → (v.tag ≡ (if muxed then some (suc n) else none))
        × (a : ℤ) × (nth_store n ops ≡ some (a, v.value, v.valid))
  store_values-nth_store true decoupled n ops v few s e =
      let (tag, a, there) = store_values-muxed decoupled 0 n ops v (omega (arith, few)) s e in
      (ground (arith, tag), a, there)
  store_values-nth_store false decoupled n ops v few s e =
      store_values-untagged decoupled 0 n ops v e

  -- The operations as a program of the queue: stores are numbered from 1, loads from 0. `otherwise` is
  -- the value of a store that there is not.
  abbrev value_of : V → Option (ℤ × V × Bool) → ℤ × V × Bool
  value_of otherwise none = (pos 0, otherwise, false)
  value_of otherwise (some s) = s

  abbrev pub numbered_store : V → List (MemoryOp V) → ℕ → ℤ × V × Bool
  numbered_store otherwise ops zero = (pos 0, otherwise, false)
  numbered_store otherwise ops (suc n) = value_of otherwise (nth_store n ops)

  abbrev pub program_of : (ℤ → V) → V → List (MemoryOp V) → Program V
  program_of memory otherwise ops = record {
    init = memory;
    st_addr = λ k. (numbered_store otherwise ops k).0;
    st_value = λ k. (numbered_store otherwise ops k).1;
    st_valid = λ k. (numbered_store otherwise ops k).2;
    ld_addr = λ i. (nth_load i ops).0;
    ld_tag = λ i. (nth_load i ops).1;
    ld_port = λ i. 0;
  }

  -- The requests and values, each at its place in the sequence, that `Conforms` asks the clients for.
  -- `loads_muxed` is `isOnChipMem && numLoadPipes > 1`, `values_muxed` is `numStoreValPipes > 1`.
  pub record SendsProgram (p : Program V) (loads_muxed values_muxed decoupled : Bool)
      (ops : List (MemoryOp V)) : Type 0 where
    pub loads :
        (i : ℕ) (r : TaggedLoad)
        → get_elem? (load_requests loads_muxed 0 0 ops) i ≡ some r
        → (r.addr ≡ p.ld_addr i)
          × (r.st_tag ≡ p.ld_tag i)
          × (r.ld_tag ≡ (if loads_muxed then some i else none))
    pub stores :
        (n : ℕ) (r : StReq)
        → get_elem? (store_requests 0 ops) n ≡ some r
        → (r.addr ≡ p.st_addr (suc n)) × (r.tag ≡ suc n) × (n + 2 < 2 ^ 32)
    pub values :
        (n : ℕ) (v : TaggedValue V)
        → get_elem? (store_values values_muxed decoupled 0 ops) n ≡ some v
        → (v.tag ≡ (if values_muxed then some (suc n) else none))
          × (v.value ≡ p.st_value (suc n))
          × (v.valid ≡ p.st_valid (suc n))

  -- The kernels send what the program of their operations asks for, for fewer than 2^32 - 2
  -- operations, and if no store is poisoned where the addresses are not decoupled: load i carries the
  -- number of the stores before it and, if loads are muxed, its own number i; the n-th store request
  -- carries n, counted from 1, and so does the n-th store value if values are muxed. An unmuxed value
  -- has no tag.
  pub program_of-SendsProgram :
      (memory : ℤ → V) (otherwise : V) (loads_muxed values_muxed decoupled : Bool)
      (ops : List (MemoryOp V))
      → length ops + 2 < 2 ^ 32
      → (decoupled || not (has_poisoned ops)) ≡ true
      → SendsProgram (program_of memory otherwise ops) loads_muxed values_muxed decoupled ops
  program_of-SendsProgram memory otherwise loads_muxed values_muxed decoupled ops few sound =
      record {
        loads = λ i r e.
            (let (at, tag, own) =
                load_requests-nth_load loads_muxed 0 0 i ops r (omega (arith, few))
                  (omega (arith, few)) e in
              (at, omega (arith, tag), ground (arith, own)));
        stores = λ n r e.
            (let (tag, short, x, valid, there) =
                store_requests-nth_store 0 n ops r (omega (arith, few)) e in
              (rw there refl, omega (arith, tag), omega (arith, short, few)));
        values = λ n v e.
            (let (tag, a, there) =
                store_values-nth_store values_muxed decoupled n ops v few sound e in
              (tag, rw there refl, rw there refl));
      }
