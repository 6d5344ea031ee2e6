-- ===== src/Math.antt =====
-- The integer helpers of include_sycl/constexpr_math.hpp (lines 14-93). `T` is an unsigned type of
-- `w` bits with `w` at least 32 (no integer promotion): a value is a number below 2 ^ w, and
-- arithmetic wraps around at 2 ^ w. `int` has 32 bits.
pub mod Logs
pub mod Powers
pub mod Rounding
mod Tests
use elastic_sycl_hls.Prelude.{
  ℕ, zero, suc, ◌+◌, ◌-◌, ◌*◌, ◌/◌, ◌%◌, ◌^◌, ◌==◌, ltb, Bool, true, false, not, ◌&&◌,
  if◌then◌else◌,
}

-- `Min` and `Max` of a type with `operator<` and `operator>`.
unfoldable pub min_of {ℓ} : {T : Type ℓ} → (T → T → Bool) → T → T → T
min_of lt a b = if lt a b then a else b

unfoldable pub max_of {ℓ} : {T : Type ℓ} → (T → T → Bool) → T → T → T
max_of gt a b = if gt a b then a else b

-- The value of a word of `w` bits as an `int`, and that `int` as a word of `w` bits again.
unfoldable pub via_int : ℕ → ℕ → ℕ
via_int w x = let r : ℕ = x % 2 ^ 32 in if ltb r (2 ^ 31) then r else r + (2 ^ w - 2 ^ 32)

unfoldable pub round_up_to_multiple : ℕ → ℕ → ℕ → ℕ
unfolding via_int
round_up_to_multiple w num zero = num
round_up_to_multiple w num (suc m) =
    let remainder : ℕ = via_int w (num % suc m) in
    if remainder == 0 then num else (num + suc m + (2 ^ w - remainder)) % 2 ^ w

-- `&` on words of at most `w` bits.
unfoldable pub bit_and : ℕ → ℕ → ℕ → ℕ
bit_and zero a b = 0
bit_and (suc w) a b = 2 * bit_and w (a / 2) (b / 2) + (a % 2) * (b % 2)

-- For unsigned `T` the test `n < 0` is false.
unfoldable pub is_pow2 : ℕ → ℕ → Bool
is_pow2 w n = not (n == 0) && (bit_and w n (n - 1) == 0)

-- `T(1) << n`, for an unsigned `n` below the width.
unfoldable pub pow2 : ℕ → ℕ → ℕ
pow2 w n = 2 ^ n % 2 ^ w

-- `while (n >= 2)`, at most as many times as the fuel says.
unfoldable pub log2_loop : ℕ → ℕ → ℕ → ℕ
log2_loop zero ret n = ret
log2_loop (suc f) ret n = let rest = log2_loop f (ret + 1) (n / 2) in if ltb n 2 then ret else rest

-- A word of `w` bits is below 2 after at most `w` halvings.
unfoldable pub log2 : ℕ → ℕ → ℕ
log2 w n = if ltb n 2 then 0 else log2_loop w 0 n

-- `n - 1` on an unsigned word.
abbrev pub pred_word : ℕ → ℕ → ℕ
pred_word w zero = 2 ^ w - 1
pred_word w (suc n) = n

unfoldable pub ceil_log2 : ℕ → ℕ → ℕ
ceil_log2 w n = if n == 1 then 0 else log2 w (pred_word w n) + 1

-- Of an `unsigned int`.
unfoldable pub bits_for_max_value : ℕ → ℕ
bits_for_max_value n = ceil_log2 32 ((n + 1) % 2 ^ 32)

unfoldable pub round_up_pow2 : ℕ → ℕ → ℕ
unfolding pow2
round_up_pow2 w n = if n == 0 then 2 else if is_pow2 w n then n else pow2 w (log2 w n + 1)
