-- ===== src/Common/Bytes.antt =====
-- Arrays of bytes, and `bit_or` of bytes.
use Prim.Native.Nat.{ℕ, zero, suc, ◌<◌, bit_or}
use mathlib.Core.Path.{◌≡◌, refl}
use mathlib.Core.Bool.{Bool, true, ◌&&◌, ◌||◌, not}
use mathlib.Core.List.{List, [], ◌∷◌}
use native.Mathlib.Omega.{arith}
use myrtus_psm_edge.Common.Tests.{ltb, ◌==◌, all_below, all_below_sound}
use myrtus_psm_edge.Common.Arrays.{get_or}

abbrev pub IsBytes : List ℕ → Type 0
IsBytes xs = (i : ℕ) → get_or xs i 0 < 256

abbrev pub all_lt : List ℕ → Bool
all_lt [] = true
all_lt (x ∷ xs) = ltb x 256 && all_lt xs

and_right : (b c : Bool) → (b && c) ≡ true → c ≡ true
and_right b c h = ground arith

pub all_lt-IsBytes : (xs : List ℕ) → all_lt xs ≡ true → IsBytes xs
all_lt-IsBytes [] h i = omega arith
all_lt-IsBytes (x ∷ xs) h zero = ground arith
all_lt-IsBytes (x ∷ xs) h (suc i) = all_lt-IsBytes xs (and_right _ _ h) i

-- Two bytes have no bit set exactly when their `|` has none, and it is a byte.
abbrev or_test : ℕ → ℕ → Bool
or_test a b = ltb (bit_or a b) 256 && (not (bit_or a b == 0) || ((a == 0) && (b == 0)))

or_table : all_below 256 (λ a. all_below 256 (λ b. or_test a b)) ≡ true
unfolding all_below
or_table = refl

or_tested : (a b : ℕ) → a < 256 → b < 256 → or_test a b ≡ true
or_tested a b p q =
    all_below_sound 256 (or_test a) b
      (all_below_sound 256 (λ a. all_below 256 (or_test a)) a or_table p) q

pub bit_or-lt : (a b : ℕ) → a < 256 → b < 256 → bit_or a b < 256
bit_or-lt a b p q = ground (arith, or_tested a b p q)

pub bit_or-zero : (a b : ℕ) → a < 256 → b < 256 → bit_or a b ≡ 0 → (a ≡ 0) × (b ≡ 0)
bit_or-zero a b p q h = ground (arith, or_tested a b p q)
