-- ===== src/Math/Tests.antt =====
-- The helpers of include_sycl/constexpr_math.hpp at concrete numbers.
use elastic_sycl_hls.Prelude.{◌+◌, ◌^◌, ◌≡◌, refl, ltb}
use elastic_sycl_hls.Math.{
  min_of, max_of, round_up_to_multiple, is_pow2, pow2, log2, round_up_pow2, via_int, bit_and,
  log2_loop,
}

minimum : (min_of ltb 3 5 ≡ 3) × (max_of (λ a b. ltb b a) 3 5 ≡ 5)
unfolding min_of max_of
minimum = (refl, refl)

-- RoundUpPow2 of 0 is 2, although 1 is a power of two; it has no result for more than 2 ^ 31.
rounded : (round_up_pow2 32 0 ≡ 2) × (round_up_pow2 32 5 ≡ 8) × (round_up_pow2 32 (2 ^ 31 + 1) ≡ 0)
unfolding round_up_pow2 is_pow2 pow2 log2 bit_and log2_loop
rounded = (refl, refl, refl)

multiples :
    (round_up_to_multiple 32 10 8 ≡ 16) × (round_up_to_multiple 64 (2 ^ 32) (2 ^ 33) ≡ 2 ^ 32)
unfolding round_up_to_multiple via_int
multiples = (refl, refl)
