-- ===== src/Common/Bits.antt =====
-- Single bits of words: tests of one bit, words put together from bits by `|`, and the bytes of a word as
-- its bits.
use Prim.Native.Nat.{ℕ, zero, suc, ◌+◌, ◌*◌, ◌/◌, ◌%◌, ◌^◌, ◌≤◌, ◌<◌, bit_and, bit_or}
use mathlib.Core.Path.{◌≡◌, refl, ap, ap₂, sym, ◌∙◌}
use mathlib.Core.Logic.{◌⊎◌, inl, inr}
use mathlib.Core.List.{List, [], ◌∷◌}
use native.Mathlib.Nat.{div-div-eq-div-mul, pow-succ', le_refl}
use native.Mathlib.Omega.{arith}
use myrtus_psm_edge.Common.Arrays.{drop}
use myrtus_psm_edge.Common.Tests.{◌==◌, if◌then◌else◌, ==_of_eq, ==_of_ne}
use myrtus_psm_edge.Common.Loops.{for_range}
use myrtus_psm_edge.Common.Fill.{table, table_congr}
use myrtus_psm_edge.Common.Digits.{and_step, or_step, zero-bit_or}
use myrtus_psm_edge.Common.Lanes.{lane, lane-lt, pack}

bit_and-zero_fuel : (n a : ℕ) → a ≤ n → bit_and a 0 ≡ 0
bit_and-zero_fuel zero zero h = refl
bit_and-zero_fuel zero (suc a) h = absurd (omega arith)
bit_and-zero_fuel (suc n) a h =
    omega (arith, and_step a 0, bit_and-zero_fuel n (a / 2) (omega arith))

bit_and-zero : (a : ℕ) → bit_and a 0 ≡ 0
bit_and-zero a = bit_and-zero_fuel a a (le_refl a)

bit_cases : (l w : ℕ) → (lane l w ≡ 0) ⊎ (lane l w ≡ 1)
bit_cases l w = omega (arith, lane-lt l w)

double_power : (j : ℕ) → 2 ^ suc j ≡ 2 * 2 ^ j
double_power j = pow-succ' 2 j

pow_pos : (j : ℕ) → 0 < 2 ^ j
pow_pos zero = omega arith
pow_pos (suc j) = omega (arith, double_power j, pow_pos j)

pub bit_and-power : (j w : ℕ) → bit_and w (2 ^ j) ≡ lane j w * 2 ^ j
unfolding lane
bit_and-power zero w = omega (arith, and_step w 1, bit_and-zero (w / 2))
bit_and-power (suc j) w = omega (
  arith,
  and_step w (2 ^ suc j),
  double_power j,
  ap (bit_and (w / 2)) half,
  bit_and-power j (w / 2),
  times (lane j (w / 2)) (bit_cases j (w / 2)),
)
  where
    half : 2 ^ suc j / 2 ≡ 2 ^ j
    half = omega (arith, double_power j)

    times : (b : ℕ) → (b ≡ 0) ⊎ (b ≡ 1) → b * 2 ^ suc j ≡ 2 * (b * 2 ^ j)
    times b (inl e) = rw e (omega arith)
    times b (inr e) = rw e (omega (arith, double_power j))

-- `(w & 1 << j) ? v : 0` by the bit.
pub tested_bit :
    (j w v : ℕ) → (if bit_and w (1 * 2 ^ j) == 0 then 0 else v) ≡ (if lane j w == 0 then 0 else v)
tested_bit j w v = ap (λ t. if t then 0 else v) (go (bit_cases j w))
  where
    bit : bit_and w (1 * 2 ^ j) ≡ lane j w * 2 ^ j
    bit = ap (bit_and w) (omega arith) ∙ bit_and-power j w

    go : (lane j w ≡ 0) ⊎ (lane j w ≡ 1) → (bit_and w (1 * 2 ^ j) == 0) ≡ (lane j w == 0)
    go (inl e) = ==_of_eq _ 0 (bit ∙ ap (λ t. t * 2 ^ j) e ∙ omega arith) ∙ sym (==_of_eq _ 0 e)
    go (inr e) =
        ==_of_ne _ 0 (λ z. omega (arith, sym (bit ∙ ap (λ t. t * 2 ^ j) e) ∙ z, pow_pos j))
        ∙ sym (==_of_ne _ 0 (λ z. omega (arith, e)))

-- A bit above all others is added.
bit_or-above : (i x : ℕ) → x < 2 ^ i → bit_or x (2 ^ i) ≡ x + 2 ^ i
bit_or-above zero x h = go x (omega arith)
  where
    go : (x : ℕ) → x ≡ 0 → bit_or x 1 ≡ x + 1
    go x e = rw e (zero-bit_or 1)
bit_or-above (suc i) x h = omega (
  arith,
  or_step x (2 ^ suc i),
  double_power i,
  ap (bit_or (x / 2)) half,
  bit_or-above i (x / 2) (omega (arith, double_power i)),
)
  where
    half : 2 ^ suc i / 2 ≡ 2 ^ i
    half = omega (arith, double_power i)

bit_or_fuel : (n a : ℕ) → a ≤ n → bit_or a 0 ≡ a
bit_or_fuel zero zero h = refl
bit_or_fuel zero (suc a) h = absurd (omega arith)
bit_or_fuel (suc n) a h = omega (arith, or_step a 0, bit_or_fuel n (a / 2) (omega arith))

bit_or_zero : (a : ℕ) → bit_or a 0 ≡ a
bit_or_zero a = bit_or_fuel a a (le_refl a)

-- Bits set by `|` in rising order: the number whose digits they are.
pub for_range-or :
    (f : ℕ → ℕ) (n i x : ℕ)
    → ((k : ℕ) → f k < 2)
    → x < 2 ^ i
    → for_range n i (λ k x. bit_or x (if f k == 0 then 0 else 2 ^ k)) x
      ≡ x + 2 ^ i * pack (table f i n)
for_range-or f zero i x small h = omega arith
for_range-or f (suc n) i x small h =
    ap (for_range n (i + 1) _) (set_bit (f i) (bit (f i) (small i)))
    ∙ for_range-or f n (i + 1) (x + f i * 2 ^ i) small (below (f i) (bit (f i) (small i)))
    ∙ carry (f i) (2 ^ i) (pack (table f (i + 1) n))
        (ap (λ t. t * pack (table f (i + 1) n)) (next i))
  where
    next : (i : ℕ) → 2 ^ (i + 1) ≡ 2 * 2 ^ i
    next i = ap (λ k. 2 ^ k) (omega arith) ∙ double_power i

    bit : (b : ℕ) → b < 2 → (b ≡ 0) ⊎ (b ≡ 1)
    bit b p = omega arith

    set_bit : (b : ℕ) → (b ≡ 0) ⊎ (b ≡ 1) → bit_or x (if b == 0 then 0 else 2 ^ i) ≡ x + b * 2 ^ i
    set_bit b (inl e) = rw e (omega (arith, bit_or_zero x))
    set_bit b (inr e) = rw e (omega (arith, bit_or-above i x h))

    below : (b : ℕ) → (b ≡ 0) ⊎ (b ≡ 1) → x + b * 2 ^ i < 2 ^ (i + 1)
    below b (inl e) = rw e (omega (arith, next i))
    below b (inr e) = rw e (omega (arith, next i))

    carry :
        (b q p : ℕ)
        → 2 ^ (i + 1) * p ≡ 2 * q * p
        → x + b * q + 2 ^ (i + 1) * p ≡ x + q * (b + 2 * p)
    carry b q p e = omega (arith, e)

abbrev pub AllBits : List ℕ → Type 0
AllBits [] = Unit
AllBits (x ∷ xs) = (x < 2) × AllBits xs

-- Digits behind the first ones, and the first ones.
pub pack-drop : (m : ℕ) (xs : List ℕ) → AllBits xs → pack xs / 2 ^ m ≡ pack (drop m xs)
pack-drop zero xs h = omega arith
pack-drop (suc m) [] h = omega arith
pack-drop (suc m) (x ∷ xs) h =
    ap (λ t. (x + 2 * pack xs) / t) (double_power m)
    ∙ sym (div-div-eq-div-mul (x + 2 * pack xs) 2 (2 ^ m))
    ∙ ap (λ t. t / 2 ^ m) (tail x (pack xs) h.0)
    ∙ pack-drop m xs h.1
  where
    tail : (b p : ℕ) → b < 2 → (b + 2 * p) / 2 ≡ p
    tail b p h = omega arith

pub pack-take_byte :
    (a b c d e f g h : ℕ) (xs : List ℕ)
    → AllBits (a ∷ b ∷ c ∷ d ∷ e ∷ f ∷ g ∷ h ∷ [])
    → pack (a ∷ b ∷ c ∷ d ∷ e ∷ f ∷ g ∷ h ∷ xs) % 256 ≡ pack (a ∷ b ∷ c ∷ d ∷ e ∷ f ∷ g ∷ h ∷ [])
pack-take_byte a b c d e f g h xs p = omega (
  arith, p.0, p.1.0, p.1.1.0, p.1.1.1.0, p.1.1.1.1.0, p.1.1.1.1.1.0, p.1.1.1.1.1.1.0,
  p.1.1.1.1.1.1.1.0,
)

-- The bits of a number from bit `m` on.
pub lane-add : (m n w : ℕ) → lane (m + n) w ≡ lane n (w / 2 ^ m)
unfolding lane
lane-add zero n w = ap₂ lane (left n) (whole w)
  where
    left : (n : ℕ) → 0 + n ≡ n
    left n = omega arith

    whole : (w : ℕ) → w ≡ w / 1
    whole w = omega arith
lane-add (suc m) n w =
    ap (λ k. lane k w) (left m n)
    ∙ lane-add m n (w / 2)
    ∙ ap (lane n) (div-div-eq-div-mul w 2 (2 ^ m) ∙ ap (λ t. w / t) (sym (double_power m)))
  where
    left : (m n : ℕ) → suc m + n ≡ suc (m + n)
    left m n = omega arith

low_byte : (w : ℕ) → pack (table (λ t. lane t w) 0 8) ≡ w % 256
unfolding lane
low_byte w = omega arith

-- The byte at bit `m` of a word.
pub pack-lanes : (m w : ℕ) → pack (table (λ t. lane (m + t) w) 0 8) ≡ w / 2 ^ m % 256
pack-lanes m w = ap pack (table_congr _ _ 8 0 (λ t p q. lane-add m t w)) ∙ low_byte (w / 2 ^ m)
