-- ===== src/Math/Logs.antt =====
-- Log2, CeilLog2 and BitsForMaxValue of include_sycl/constexpr_math.hpp (lines 62-86).
use elastic_sycl_hls.Prelude.{
  ℕ, zero, suc, ◌+◌, ◌/◌, ◌%◌, ◌^◌, ◌≤◌, ◌<◌, ◌≡◌, ◌↔◌, refl, arith, dec_lt,
}
use native.Mathlib.Nat.{pow-le-pow_right}
use elastic_sycl_hls.Math.{log2_loop, log2, ceil_log2, bits_for_max_value, pred_word}

pub pow_pos : (k : ℕ) → 0 < 2 ^ k
pow_pos zero = omega arith
pow_pos (suc k) = omega (arith, pow_pos k)

pub pow_mono : {i j : ℕ} → i ≤ j → 2 ^ i ≤ 2 ^ j
pow_mono le = pow-le-pow_right (omega arith) le

-- With `n` below 2 ^ (f + 1) the fuel `f` is enough.
log2_loop-bounds :
    (f ret n : ℕ)
    → 0 < n
    → n < 2 ^ suc f
    → (d : ℕ) × (log2_loop f ret n ≡ ret + d) × (2 ^ d ≤ n) × (n < 2 ^ suc d)
unfolding log2_loop
log2_loop-bounds zero ret n pos lt = (0, omega arith, omega arith, omega arith)
log2_loop-bounds (suc f) ret n pos lt = elim (dec_lt n 2) [
  | yes small ↦ (0, ground arith, omega arith, omega arith)
  | no big ↦
      (let (d, e, lo, hi) = log2_loop-bounds f (ret + 1) (n / 2) (omega arith) (omega arith) in
        (suc d, ground (arith, e), omega arith, omega arith))
]

log2-log2_loop : (w n : ℕ) → log2 w n ≡ log2_loop w 0 n
unfolding log2 log2_loop
log2-log2_loop zero n = ground arith
log2-log2_loop (suc w) n = ground arith

-- `k` is the logarithm of `n`, rounded down.
abbrev pub FloorLog : ℕ → ℕ → Type 0
FloorLog n k = (2 ^ k ≤ n) × (n < 2 ^ suc k)

FloorLog-lt : (n d k : ℕ) → FloorLog n d → (n < 2 ^ k) ↔ (d < k)
FloorLog-lt n d k (lo, hi) = elim (dec_lt d k) [
  | yes lt ↦ ground (arith, pow_mono lt)
  | no ge ↦ (let k≤d : k ≤ d = omega arith in ground (arith, pow_mono k≤d))
]

module _ (w : ℕ) where
  -- For 0 < n < 2 ^ (w + 1), Log2 of `n` is the exponent of the largest power of two that is at most `n`.
  pub log2-FloorLog : (n : ℕ) → 0 < n → n < 2 ^ suc w → FloorLog n (log2 w n)
  log2-FloorLog n pos lt =
      let (d, e, lo, hi) = log2_loop-bounds w 0 n pos lt in
      let is_d : log2 w n ≡ d = omega (arith, e, log2-log2_loop w n) in rw is_d (lo, hi)

  pub log2-lt : (n k : ℕ) → 0 < n → n < 2 ^ w → (n < 2 ^ k) ↔ (log2 w n < k)
  log2-lt n k pos lt = FloorLog-lt n (log2 w n) k (log2-FloorLog n pos (omega arith))

  -- `n` is `m - 1` in `w` bits.
  ceil_log2_wrapped :
      (m n k : ℕ) → 0 < w → pred_word w m ≡ n → n < 2 ^ w → (n < 2 ^ k) ↔ (ceil_log2 w m ≤ k)
  unfolding ceil_log2
  ceil_log2_wrapped zero n k wide e lt =
      rw e (ground (arith, log2-lt n k (omega (arith, pow_mono wide)) lt))
  ceil_log2_wrapped (suc zero) n k wide e lt = ground (arith, pow_pos k)
  ceil_log2_wrapped (suc (suc m)) n k wide e lt =
      rw e (ground (arith, log2-lt n k (omega arith) lt))

  -- For a width `w` that is not 0 and 0 < n < 2 ^ w, CeilLog2 of `n` is the least exponent whose power is at least `n`.
  pub ceil_log2-least : (n k : ℕ) → 0 < w → 0 < n → n < 2 ^ w → (n ≤ 2 ^ k) ↔ (ceil_log2 w n ≤ k)
  ceil_log2-least zero k wide pos lt = elim pos [ ]
  ceil_log2-least (suc n) k wide pos lt = ceil_log2_wrapped (suc n) n k wide refl (omega arith)

pred_word_of : (m n : ℕ) → n < 2 ^ 32 → m ≡ (n + 1) % 2 ^ 32 → pred_word 32 m ≡ n
pred_word_of zero n lt e = omega arith
pred_word_of (suc m) n lt e = omega arith

-- For n < 2 ^ 32, BitsForMaxValue of `n` is the least number of bits that suffices for `n`, also
-- for the largest `unsigned int`, where `n + 1` wraps around to 0.
pub bits_for_max_value-least : (n k : ℕ) → n < 2 ^ 32 → (n < 2 ^ k) ↔ (bits_for_max_value n ≤ k)
unfolding bits_for_max_value
bits_for_max_value-least n k lt =
    ceil_log2_wrapped 32 ((n + 1) % 2 ^ 32) n k (omega arith)
      (pred_word_of ((n + 1) % 2 ^ 32) n lt refl) lt
