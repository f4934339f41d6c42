-- ===== src/Common/Digits.antt =====
-- The bit operations by their lowest digit: the recursion on binary digits, without its fuel.
use Prim.Native.Nat.{ℕ, zero, suc, ◌+◌, ◌*◌, ◌/◌, ◌%◌, ◌≤◌, min, max, bit_and, bit_or, digits}
use Prim.Native.Nat.{bit_and-bitwise, bit_or-bitwise}
use mathlib.Core.Path.{◌≡◌, refl, ap, ◌∙◌}
use native.Mathlib.Decide.{dec_le}
use native.Mathlib.Omega.{arith}

module _ (z : ℕ → ℕ) (f : ℕ → ℕ → ℕ) where
  spare_fuel : (k a b : ℕ) → a ≤ k → digits z f (suc k) a b ≡ digits z f k a b
  spare_fuel zero zero b h = refl
  spare_fuel (suc k) zero b h = refl
  spare_fuel zero (suc a) b h = absurd (omega arith)
  spare_fuel (suc k) (suc a) b h =
      ap (λ t. t * 2 + f (suc a % 2) (b % 2)) (spare_fuel k (suc a / 2) (b / 2) (omega arith))

  least_fuel : (k a b : ℕ) → a ≤ k → digits z f k a b ≡ digits z f a a b
  least_fuel zero zero b h = refl
  least_fuel zero (suc a) b h = absurd (omega arith)
  least_fuel (suc k) a b h = elim (dec_le a k) [
    | yes less ↦ spare_fuel k a b less ∙ least_fuel k a b less
    | no more ↦ (let full : suc k ≡ a = omega (arith, h, more) in ap (λ t. digits z f t a b) full)
  ]

  -- One equation for the lowest digit of a positive number.
  pub digits-suc :
      (a b : ℕ)
      → digits z f (suc a) (suc a) b
        ≡ digits z f (suc a / 2) (suc a / 2) (b / 2) * 2 + f (suc a % 2) (b % 2)
  digits-suc a b =
      ap (λ t. t * 2 + f (suc a % 2) (b % 2)) (least_fuel a (suc a / 2) (b / 2) (omega arith))

pub zero-bit_and : (b : ℕ) → bit_and 0 b ≡ 0
zero-bit_and b = bit_and-bitwise 0 b

pub zero-bit_or : (b : ℕ) → bit_or 0 b ≡ b
zero-bit_or b = bit_or-bitwise 0 b

pub and_step : (a b : ℕ) → bit_and a b ≡ bit_and (a / 2) (b / 2) * 2 + min (a % 2) (b % 2)
and_step zero b = omega (arith, zero-bit_and b, zero-bit_and (b / 2))
and_step (suc a) b = omega (
  arith,
  digits-suc (λ d. 0) min a b,
  bit_and-bitwise (suc a) b,
  bit_and-bitwise (suc a / 2) (b / 2),
)

pub or_step : (a b : ℕ) → bit_or a b ≡ bit_or (a / 2) (b / 2) * 2 + max (a % 2) (b % 2)
or_step zero b = omega (arith, zero-bit_or b, zero-bit_or (b / 2))
or_step (suc a) b = omega (
  arith,
  digits-suc (λ d. d) max a b,
  bit_or-bitwise (suc a) b,
  bit_or-bitwise (suc a / 2) (b / 2),
)
