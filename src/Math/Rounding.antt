-- ===== src/Math/Rounding.antt =====
-- RoundUpToMultiple of include_sycl/constexpr_math.hpp (lines 29-44).
use elastic_sycl_hls.Prelude.{
  ℕ, zero, suc, ◌+◌, ◌-◌, ◌*◌, ◌/◌, ◌%◌, ◌^◌, ◌≤◌, ◌<◌, ◌≡◌, ◌≢◌, refl, arith, ℕ_discrete, ◌∙◌,
}
use native.Mathlib.Nat.{mod-eq_of_lt, div-add-mod, add-mod_right, mod-lt}
use elastic_sycl_hls.Math.{via_int, round_up_to_multiple}

-- A remainder below 2 ^ 31 fits in an `int`.
via_int-small : (w x : ℕ) → x < 2 ^ 31 → via_int w x ≡ x
unfolding via_int
via_int-small w x lt = ground arith

module _ (w num m : ℕ) (fits : num + suc m ≤ 2 ^ w) (small : num % suc m < 2 ^ 31) where
  round_up_exact : num % suc m ≡ 0 → round_up_to_multiple w num (suc m) ≡ num
  unfolding round_up_to_multiple
  round_up_exact e = rw (via_int-small w (num % suc m) small, e) refl

  round_up_inexact :
      num % suc m ≢ 0 → round_up_to_multiple w num (suc m) ≡ num + suc m - num % suc m
  unfolding round_up_to_multiple
  round_up_inexact h =
      let lt : num % suc m < suc m = mod-lt num (omega arith) in
      let total : num + suc m + (2 ^ w - num % suc m) ≡ num + suc m - num % suc m + 2 ^ w =
        omega arith in
      let wraps : (num + suc m - num % suc m + 2 ^ w) % 2 ^ w ≡ num + suc m - num % suc m =
        add-mod_right (num + suc m - num % suc m) (2 ^ w) ∙ mod-eq_of_lt (omega arith) in
      rw (via_int-small w (num % suc m) small) (ground (arith, total, wraps))

-- For a positive `multiple`, if `num % multiple` fits in an `int` and num + multiple ≤ 2 ^ w, the
-- result is the least multiple of `multiple` that is at least `num`.
pub round_up_to_multiple-least :
    (w num multiple : ℕ)
    → 0 < multiple
    → num + multiple ≤ 2 ^ w
    → num % multiple < 2 ^ 31
    → (q : ℕ) × (round_up_to_multiple w num multiple ≡ multiple * q)
      × (num ≤ multiple * q)
      × (multiple * q < num + multiple)
round_up_to_multiple-least w num zero pos fits small = elim pos [ ]
round_up_to_multiple-least w num (suc m) pos fits small =
    let split = div-add-mod num (suc m) in
    let lt : num % suc m < suc m = mod-lt num (omega arith) in
    let next : suc m * (num / suc m + 1) ≡ suc m * (num / suc m) + suc m = omega arith in
    elim (ℕ_discrete (num % suc m) 0) [
      | yes e ↦ (
        num / suc m,
        round_up_exact w num m fits small e ∙ omega (arith, split, e),
        omega (arith, split, e),
        omega (arith, split, e),
      )
      | no h ↦ (
        num / suc m + 1,
        round_up_inexact w num m fits small h ∙ omega (arith, split, lt, next),
        omega (arith, split, lt, next),
        omega (arith, split, lt, next),
      )
    ]

-- If `num % multiple` is a positive multiple of 2 ^ 32, which is 0 as an `int`, then `num` is
-- returned as it is, although it is not a multiple of `multiple`.
pub round_up_to_multiple-truncated :
    (w num multiple j : ℕ)
    → num % multiple ≡ 2 ^ 32 * suc j
    → (round_up_to_multiple w num multiple ≡ num) × (num % multiple ≢ 0)
unfolding round_up_to_multiple via_int
round_up_to_multiple-truncated w num zero j e = ground arith
round_up_to_multiple-truncated w num (suc m) j e =
    let gone : (num % suc m) % 2 ^ 32 ≡ 0 = omega (arith, e) in ground (arith, gone, e)
