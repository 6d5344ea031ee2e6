-- ===== src/Math/Powers.antt =====
-- IsPow2, Pow2 and RoundUpPow2 of include_sycl/constexpr_math.hpp (lines 46-59 and 89-103).
use elastic_sycl_hls.Prelude.{
  ℕ, zero, suc, ◌+◌, ◌-◌, ◌*◌, ◌/◌, ◌%◌, ◌^◌, ◌≤◌, ◌<◌, ◌≡◌, ◌≢◌, ◌↔◌, ◌⊎◌, inl, inr, refl, arith,
  true, ℕ_discrete, Bool-cases,
}
use native.Mathlib.Nat.{mod-eq_of_lt}
use elastic_sycl_hls.Math.{bit_and, is_pow2, pow2, log2, round_up_pow2}
use elastic_sycl_hls.Math.Logs.{pow_pos, log2-FloorLog}

bit_square : (a : ℕ) → (a % 2) * (a % 2) ≡ a % 2
bit_square a = elim (ℕ_discrete (a % 2) 0) [
  | yes e ↦ rw e refl
  | no h ↦ (let e : a % 2 ≡ 1 = omega arith in rw e refl)
]

bit_and_self : (w a : ℕ) → a < 2 ^ w → bit_and w a a ≡ a
unfolding bit_and
bit_and_self zero a lt = omega arith
bit_and_self (suc w) a lt = omega (arith, bit_square a, bit_and_self w (a / 2) (omega arith))

bit_and_even :
    (w n : ℕ) → 0 < n → n % 2 ≡ 0 → bit_and (suc w) n (n - 1) ≡ 2 * bit_and w (n / 2) (n / 2 - 1)
unfolding bit_and
bit_and_even w n pos e =
    let half : (n - 1) / 2 ≡ n / 2 - 1 = omega arith in rw (half, e) (omega arith)

bit_and_odd : (w n : ℕ) → n < 2 ^ suc w → n % 2 ≡ 1 → bit_and (suc w) n (n - 1) ≡ 2 * (n / 2)
unfolding bit_and
bit_and_odd w n lt e =
    let half : (n - 1) / 2 ≡ n / 2 = omega arith in
    let even : (n - 1) % 2 ≡ 0 = omega arith in
    rw (half, even) (omega (arith, bit_and_self w (n / 2) (omega arith)))

-- A power of two is 1 or twice a power of two.
halve : (n k : ℕ) → n ≡ 2 ^ k → (n ≡ 1) ⊎ ((j : ℕ) × (n / 2 ≡ 2 ^ j) × (n % 2 ≡ 0))
halve n zero e = inl (omega arith)
halve n (suc k) e = inr (k, omega arith, omega arith)

no_word : (n : ℕ) → n < 2 ^ 0 → 0 < n → ⊥
no_word n lt pos = omega arith

-- `n & (n - 1)` is 0 for a positive `n` exactly if `n` is a power of two.
clears_last : (w n : ℕ) → n < 2 ^ w → 0 < n → (bit_and w n (n - 1) ≡ 0) ↔ ((k : ℕ) × (n ≡ 2 ^ k))
clears_last zero n lt pos = elim (no_word n lt pos) [ ]
clears_last (suc w) n lt pos = elim (ℕ_discrete (n % 2) 0) [
  | yes e ↦ (
    λ h.
        (let (k, half) =
            (clears_last w (n / 2) (omega arith) (omega arith)).0
              (omega (arith, bit_and_even w n pos e, h)) in
          (suc k, omega arith)),
    λ (k, p). (elim (halve n k p) [
      | inl one ↦ omega arith
      | inr (j, half, even) ↦ omega (
        arith,
        bit_and_even w n pos e,
        (clears_last w (n / 2) (omega arith) (omega arith)).1 (j, half),
      )
    ]),
  )
  | no odd ↦ (
    λ h. (0, omega (arith, bit_and_odd w n lt (omega arith), h)),
    λ (k, p). (elim (halve n k p) [
      | inl one ↦ omega (arith, bit_and_odd w n lt (omega arith))
      | inr (j, half, even) ↦ omega arith
    ]),
  )
]

-- For n < 2 ^ w, IsPow2 holds of `n` exactly if `n` is a power of two.
pub is_pow2-power : (w n : ℕ) → n < 2 ^ w → (is_pow2 w n ≡ true) ↔ ((k : ℕ) × (n ≡ 2 ^ k))
unfolding is_pow2
is_pow2-power w zero lt = (
  λ e. (let no : ⊥ = cc in elim no [ ]),
  λ (k, e). (let no : ⊥ = omega (arith, e, pow_pos k) in elim no [ ]),
)
is_pow2-power w (suc n) lt =
    let h = clears_last w (suc n) lt (omega arith) in
    (λ e. h.0 (ground arith), λ p. ground (arith, h.1 p))

-- For 0 < n and 2 n ≤ 2 ^ w, RoundUpPow2 of `n` is a power of two that is at least `n` and below
-- 2 n.
pub round_up_pow2-nearest :
    (w n : ℕ)
    → 0 < n
    → n + n ≤ 2 ^ w
    → (k : ℕ) × (round_up_pow2 w n ≡ 2 ^ k) × (n ≤ 2 ^ k) × (2 ^ k < n + n)
unfolding round_up_pow2 pow2
round_up_pow2-nearest w n pos le = elim (Bool-cases (is_pow2 w n)) [
  | inl e ↦
      (let (k, p) = (is_pow2-power w n (omega arith)).0 e in
        (k, ground arith, omega arith, omega arith))
  | inr e ↦
      (let (lo, hi) = log2-FloorLog w n pos (omega arith) in
        let ne : n ≢ 2 ^ log2 w n =
          λ p. (let y = (is_pow2-power w n (omega arith)).1 (log2 w n, p) in cc) in
        let strict : 2 ^ suc (log2 w n) < n + n = omega (arith, ne) in
        let fits : 2 ^ suc (log2 w n) % 2 ^ w ≡ 2 ^ suc (log2 w n) = mod-eq_of_lt (omega arith) in
        (suc (log2 w n), ground (arith, fits), omega arith, strict))
]
