-- ===== src/Common/Lanes.antt =====
-- Words as lanes of bits: lane `l` of a word is its bit `l`, and a byte in lane `l` of eight words is
-- put together from their bits.
use Prim.Native.Nat.{ℕ, zero, suc, ◌+◌, ◌-◌, ◌*◌, ◌/◌, ◌%◌, ◌^◌, ◌<◌, min, max, bit_and, bit_or}
use mathlib.Core.Path.{◌≡◌, refl, ap, ap₂, sym, ◌∙◌}
use mathlib.Core.Logic.{◌⊎◌}
use mathlib.Core.List.{List, [], ◌∷◌, map}
use native.Mathlib.Omega.{arith}
use mathlib.Core.Bool.{true}
use myrtus_psm_edge.Common.Arrays.{length, array_ind}
use myrtus_psm_edge.Common.Tests.{◌==◌, ==_iff, all_below, all_below_sound}
use myrtus_psm_edge.Common.Digits.{and_step, or_step}
use myrtus_psm_edge.Common.Xor.{◌⊕◌, xor_step, xor_half}

unfoldable pub lane : ℕ → ℕ → ℕ
lane zero x = x % 2
lane (suc l) x = lane l (x / 2)

pub lane-lt : (l x : ℕ) → lane l x < 2
unfolding lane
lane-lt zero x = omega arith
lane-lt (suc l) x = lane-lt l (x / 2)

pub lane-zero : (l : ℕ) → lane l 0 ≡ 0
unfolding lane
lane-zero zero = refl
lane-zero (suc l) = lane-zero l

pub lane-xor_parity : (l a b : ℕ) → lane l (a ⊕ b) ≡ (lane l a + lane l b) % 2
unfolding lane
lane-xor_parity zero a b = omega (arith, xor_step a b)
lane-xor_parity (suc l) a b = ap (lane l) (xor_half a b) ∙ lane-xor_parity l (a / 2) (b / 2)

half_and : (a b : ℕ) → bit_and a b / 2 ≡ bit_and (a / 2) (b / 2)
half_and a b = omega (arith, and_step a b)

pub lane-and_min : (l a b : ℕ) → lane l (bit_and a b) ≡ min (lane l a) (lane l b)
unfolding lane
lane-and_min zero a b = omega (arith, and_step a b)
lane-and_min (suc l) a b = ap (lane l) (half_and a b) ∙ lane-and_min l (a / 2) (b / 2)

half_or : (a b : ℕ) → bit_or a b / 2 ≡ bit_or (a / 2) (b / 2)
half_or a b = omega (arith, or_step a b)

pub lane-or_max : (l a b : ℕ) → lane l (bit_or a b) ≡ max (lane l a) (lane l b)
unfolding lane
lane-or_max zero a b = omega (arith, or_step a b)
lane-or_max (suc l) a b = ap (lane l) (half_or a b) ∙ lane-or_max l (a / 2) (b / 2)

-- On single bits the operations are those of a word of one bit.
bit_cases : (x : ℕ) → x < 2 → (x ≡ 0) ⊎ (x ≡ 1)
bit_cases x h = omega arith

bits_xor : (a b : ℕ) → a < 2 → b < 2 → a ⊕ b ≡ (a + b) % 2
bits_xor a b p q = omega (arith, xor_step a b, ap₂ ◌⊕◌ (half a p) (half b q))
  where
    half : (x : ℕ) → x < 2 → x / 2 ≡ 0
    half x h = omega arith

bits_and : (a b : ℕ) → a < 2 → b < 2 → bit_and a b ≡ min a b
bits_and a b p q = omega (arith, and_step a b, ap₂ bit_and (half a p) (half b q))
  where
    half : (x : ℕ) → x < 2 → x / 2 ≡ 0
    half x h = omega arith

pub lane-xor : (l a b : ℕ) → lane l (a ⊕ b) ≡ lane l a ⊕ lane l b
lane-xor l a b =
    lane-xor_parity l a b ∙ sym (bits_xor (lane l a) (lane l b) (lane-lt l a) (lane-lt l b))

pub lane-and : (l a b : ℕ) → lane l (bit_and a b) ≡ bit_and (lane l a) (lane l b)
lane-and l a b =
    lane-and_min l a b ∙ sym (bits_and (lane l a) (lane l b) (lane-lt l a) (lane-lt l b))

ones_table : all_below 64 (λ l. lane l (2 ^ 64 - 1) == 1) ≡ true
unfolding all_below lane
ones_table = refl

pub lane-ones : (l : ℕ) → l < 64 → lane l (2 ^ 64 - 1) ≡ 1
lane-ones l h = (==_iff _ _).0 (all_below_sound 64 (λ l. lane l (2 ^ 64 - 1) == 1) l ones_table h)

-- The number whose binary digits are the entries, the lowest first.
abbrev pub pack : List ℕ → ℕ
pack [] = 0
pack (x ∷ xs) = x + 2 * pack xs

-- The digits of a number.
abbrev pub digits_of : ℕ → ℕ → List ℕ
digits_of zero x = []
digits_of (suc n) x = x % 2 ∷ digits_of n (x / 2)

-- The byte in lane `l` of eight words, or of any number of words.
abbrev pub slice : ℕ → List ℕ → ℕ
slice l ws = pack (map (lane l) ws)

abbrev pub xor_words : List ℕ → List ℕ → List ℕ
xor_words [] ys = []
xor_words (x ∷ xs) [] = x ∷ xs
xor_words (x ∷ xs) (y ∷ ys) = (x ⊕ y) ∷ xor_words xs ys

pub slice-xor :
    (l : ℕ) (xs ys : List ℕ)
    → length xs ≡ length ys
    → slice l (xor_words xs ys) ≡ slice l xs ⊕ slice l ys
slice-xor l [] [] h = refl
slice-xor l [] (y ∷ ys) h = absurd (omega arith)
slice-xor l (x ∷ xs) [] h = absurd (omega arith)
slice-xor l (x ∷ xs) (y ∷ ys) h = omega (
  arith,
  lane-xor_parity l x y,
  slice-xor l xs ys (omega arith),
  xor_step (lane l x + 2 * slice l xs) (lane l y + 2 * slice l ys),
  ap₂ ◌⊕◌ (tail (lane l x) (slice l xs) (lane-lt l x)) (tail (lane l y) (slice l ys) (lane-lt l y)),
)
  where
    tail : (b p : ℕ) → b < 2 → (b + 2 * p) / 2 ≡ p
    tail b p h = omega arith

pub digits_of-slice : (l : ℕ) (ws : List ℕ) → digits_of (length ws) (slice l ws) ≡ map (lane l) ws
digits_of-slice l [] = refl
digits_of-slice l (x ∷ ws) =
    ap₂ ◌∷◌ (low (lane l x) (slice l ws) (lane-lt l x)) (
      ap (digits_of (length ws)) (tail (lane l x) (slice l ws) (lane-lt l x))
      ∙ digits_of-slice l ws)
  where
    low : (b p : ℕ) → b < 2 → (b + 2 * p) % 2 ≡ b
    low b p h = omega arith

    tail : (b p : ℕ) → b < 2 → (b + 2 * p) / 2 ≡ p
    tail b p h = omega arith

pub slice-lt_byte : (l : ℕ) (ws : List ℕ) → length ws ≡ 8 → slice l ws < 256
slice-lt_byte l =
    array_ind 8 (λ ws. slice l ws < 256)
      (λ a b c d e f g h. omega (
        arith,
        lane-lt l a,
        lane-lt l b,
        lane-lt l c,
        lane-lt l d,
        lane-lt l e,
        lane-lt l f,
        lane-lt l g,
        lane-lt l h,
      ))
