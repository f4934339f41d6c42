-- ===== src/Common/Xor.antt =====
-- Exclusive or at variables: the digit recursion, and the group laws that follow from it.
use Prim.Native.Nat.{ℕ, zero, suc, ◌+◌, ◌*◌, ◌/◌, ◌%◌, ◌≤◌, ◌<◌, bit_xor, differ}
use Prim.Native.Nat.{bit_xor-bitwise}
use mathlib.Core.Path.{◌≡◌, refl, ap, ap₂, sym, ◌∙◌}
use mathlib.Core.Logic.{◌⊎◌, inl, inr}
use myrtus_psm_edge.Common.Digits.{digits-suc}
use native.Mathlib.Nat.{le_refl}
use native.Mathlib.Omega.{arith}

infixl 60 ◌⊕◌
abbrev pub ◌⊕◌ : ℕ → ℕ → ℕ
a ⊕ b = bit_xor a b

-- The digit of `a ⊕ b` is the parity of the two digits.
pub digit_cases : (a : ℕ) → (a % 2 ≡ 0) ⊎ (a % 2 ≡ 1)
digit_cases a = omega arith

differ-parity : (a b : ℕ) → differ (a % 2) (b % 2) ≡ (a + b) % 2
differ-parity a b = go (digit_cases a) (digit_cases b)
  where
    go :
        (a % 2 ≡ 0) ⊎ (a % 2 ≡ 1) → (b % 2 ≡ 0) ⊎ (b % 2 ≡ 1) → differ (a % 2) (b % 2) ≡ (a + b) % 2
    go (inl p) (inl q) = rw (p, q) (omega arith)
    go (inl p) (inr q) = rw (p, q) (omega arith)
    go (inr p) (inl q) = rw (p, q) (omega arith)
    go (inr p) (inr q) = rw (p, q) (omega arith)

zero-xor : (b : ℕ) → 0 ⊕ b ≡ b
zero-xor b = bit_xor-bitwise 0 b

-- One equation for the lowest digit.
pub xor_step : (a b : ℕ) → a ⊕ b ≡ (a / 2 ⊕ b / 2) * 2 + (a + b) % 2
xor_step zero b = omega (arith, zero-xor b, zero-xor (b / 2))
xor_step (suc a) b = omega (
  arith,
  bit_xor-bitwise (suc a) b,
  bit_xor-bitwise (suc a / 2) (b / 2),
  digits-suc (λ d. d) differ a b,
  differ-parity (suc a) b,
)

pub xor_half : (a b : ℕ) → (a ⊕ b) / 2 ≡ a / 2 ⊕ b / 2
xor_half a b = omega (arith, xor_step a b)

comm_fuel : (n a b : ℕ) → a ≤ n → b ≤ n → a ⊕ b ≡ b ⊕ a
comm_fuel zero zero zero p q = refl
comm_fuel zero zero (suc b) p q = absurd (omega arith)
comm_fuel zero (suc a) b p q = absurd (omega arith)
comm_fuel (suc n) a b p q =
    omega
      (arith, xor_step a b, xor_step b a, comm_fuel n (a / 2) (b / 2) (omega arith) (omega arith))

pub xor_comm : (a b : ℕ) → a ⊕ b ≡ b ⊕ a
xor_comm a b = comm_fuel (a + b) a b (omega arith) (omega arith)

assoc_fuel : (n a b c : ℕ) → a ≤ n → b ≤ n → c ≤ n → a ⊕ b ⊕ c ≡ a ⊕ (b ⊕ c)
assoc_fuel zero zero zero zero p q r = refl
assoc_fuel zero (suc a) b c p q r = absurd (omega arith)
assoc_fuel zero zero (suc b) c p q r = absurd (omega arith)
assoc_fuel zero zero zero (suc c) p q r = absurd (omega arith)
assoc_fuel (suc n) a b c p q r = omega (
  arith,
  xor_step (a ⊕ b) c,
  xor_step a (b ⊕ c),
  xor_step a b,
  xor_step b c,
  ap (λ t. t ⊕ c / 2) (xor_half a b),
  ap (λ t. a / 2 ⊕ t) (xor_half b c),
  assoc_fuel n (a / 2) (b / 2) (c / 2) (omega arith) (omega arith) (omega arith),
)

pub xor_assoc : (a b c : ℕ) → a ⊕ b ⊕ c ≡ a ⊕ (b ⊕ c)
xor_assoc a b c = assoc_fuel (a + b + c) a b c (omega arith) (omega arith) (omega arith)

self_fuel : (n a : ℕ) → a ≤ n → a ⊕ a ≡ 0
self_fuel zero zero p = refl
self_fuel zero (suc a) p = absurd (omega arith)
self_fuel (suc n) a p = omega (arith, xor_step a a, self_fuel n (a / 2) (omega arith))

pub xor_self : (a : ℕ) → a ⊕ a ≡ 0
xor_self a = self_fuel a a (le_refl a)

pub zero_xor : (b : ℕ) → 0 ⊕ b ≡ b
zero_xor b = zero-xor b

pub xor_zero : (a : ℕ) → a ⊕ 0 ≡ a
xor_zero a = xor_comm a 0 ∙ zero-xor a

-- A mask put on twice is off.
pub xor_cancel : (a b : ℕ) → a ⊕ b ⊕ b ≡ a
xor_cancel a b = xor_assoc a b b ∙ ap (λ t. a ⊕ t) (xor_self b) ∙ xor_zero a

-- Two values are equal when they differ nowhere.
pub eq_of_xor-zero : (a b : ℕ) → a ⊕ b ≡ 0 → a ≡ b
eq_of_xor-zero a b h = sym (xor_cancel a b) ∙ ap (λ t. t ⊕ b) h ∙ zero-xor b

-- The remainder by a power of two goes inside.
abbrev Splits : ℕ → Type 0
Splits m = (a b : ℕ) → (a ⊕ b) % m ≡ a % m ⊕ b % m

abbrev Halves : ℕ → Type 0
Halves m = (x : ℕ) → x % (2 * m) ≡ x / 2 % m * 2 + x % 2

Splits-double : (m : ℕ) → Halves m → Splits m → Splits (2 * m)
Splits-double m h s a b = omega (
  arith,
  h (a ⊕ b),
  h a,
  h b,
  xor_step a b,
  xor_step (a % (2 * m)) (b % (2 * m)),
  s (a / 2) (b / 2),
  ap (λ t. t % m) (xor_half a b),
  ap₂ ◌⊕◌ (half a) (half b),
)
  where
    half : (x : ℕ) → x % (2 * m) / 2 ≡ x / 2 % m
    half x = omega (arith, h x)

Splits-one : Splits 1
Splits-one a b = omega (arith, ap₂ ◌⊕◌ (none_left a) (none_left b))
  where
    none_left : (x : ℕ) → x % 1 ≡ 0
    none_left x = omega arith

Splits-8 : Splits 8
Splits-8 =
    Splits-double 4 (λ x. omega arith)
      (Splits-double 2 (λ x. omega arith) (Splits-double 1 (λ x. omega arith) Splits-one))

Splits-64 : Splits 64
Splits-64 =
    Splits-double 32 (λ x. omega arith)
      (Splits-double 16 (λ x. omega arith) (Splits-double 8 (λ x. omega arith) Splits-8))

pub xor-mod_byte : (a b : ℕ) → (a ⊕ b) % 256 ≡ a % 256 ⊕ b % 256
xor-mod_byte = Splits-double 128 (λ x. omega arith) (Splits-double 64 (λ x. omega arith) Splits-64)

pub xor_byte-lt : (a b : ℕ) → a < 256 → b < 256 → a ⊕ b < 256
xor_byte-lt a b p q = omega (arith, xor-mod_byte a b, ap₂ ◌⊕◌ (small a p) (small b q))
  where
    small : (x : ℕ) → x < 256 → x % 256 ≡ x
    small x h = omega arith
