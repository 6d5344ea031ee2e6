-- ===== src/Prelude/Int.antt =====
-- The signed integers of the source (`int`, `int64_t`) as far as addresses use them: a literal,
-- a non-negative value, and equality.
use elastic_sycl_hls.Prelude.{ℕ, ◌≡◌, ◌≢◌, ◌==◌, ◌↔◌, Bool, true, false, refl, arith}

-- `negsuc n` is -(n + 1).
pub data ℤ : Type 0 where
  pos : ℕ → ℤ
  negsuc : ℕ → ℤ

infix 50 ◌==ℤ◌
unfoldable pub ◌==ℤ◌ : ℤ → ℤ → Bool
pos a ==ℤ pos b = a == b
negsuc a ==ℤ negsuc b = a == b
_ ==ℤ _ = false

pub ==ℤ_iff : (a b : ℤ) → ((a ==ℤ b) ≡ true) ↔ (a ≡ b)
unfolding ◌==ℤ◌
==ℤ_iff (pos a) (pos b) = ground arith
==ℤ_iff (negsuc a) (negsuc b) = ground arith
==ℤ_iff (pos a) (negsuc b) = ground arith
==ℤ_iff (negsuc a) (pos b) = ground arith

pub ==ℤ_refl : (a : ℤ) → (a ==ℤ a) ≡ true
==ℤ_refl a = (==ℤ_iff a a).1 refl

pub ==ℤ_ne : (a b : ℤ) → a ≢ b → (a ==ℤ b) ≡ false
==ℤ_ne a b h = ground (arith, ==ℤ_iff a b)
