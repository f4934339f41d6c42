-- ===== src/Gcm/Verify.antt =====
-- `crypto_verify_16` decides whether two tags are equal.
use myrtus_psm_edge.Common.{
  ℕ, zero, suc, ◌+◌, ◌-◌, ◌^◌, ◌≤◌, ◌<◌, ◌≡◌, ◌↔◌, refl, sym, ◌∙◌, ap, arith, List, length, get_or,
  get_or_ext, true, ◌==◌, Bool, not, if◌then◌else◌, bit_and, bit_or, u32, ◌⊕◌, ◌>>>◌, xor_self,
  xor_byte-lt, eq_of_xor-zero, for_range, all_below, all_below_sound, subst, IsBytes, bit_or-lt,
  bit_or-zero,
}
use native.Mathlib.Decide.{ℕ_discrete}
use myrtus_psm_edge.Gcm.{success, failure, different_bits, crypto_verify_16}

module _ (x y : List ℕ) where
  abbrev difference : ℕ → ℕ → ℕ
  difference i d = bit_or d (get_or x i 0 ⊕ get_or y i 0)

  differences-lt : IsBytes x → IsBytes y → (n i d : ℕ) → d < 256 → for_range n i difference d < 256
  differences-lt bx by zero i d h = h
  differences-lt bx by (suc n) i d h =
      differences-lt bx by n (i + 1) _ (bit_or-lt d _ h (xor_byte-lt _ _ (bx i) (by i)))

  -- Where no bit differs, the entries are equal.
  differences-zero :
      IsBytes x
      → IsBytes y
      → (n i d : ℕ) → d < 256
      → for_range n i difference d ≡ 0
      → (d ≡ 0) × ((k : ℕ) → i ≤ k → k < i + n → get_or x k 0 ≡ get_or y k 0)
  differences-zero bx by zero i d h e = (e, λ k p q. absurd (omega arith))
  differences-zero bx by (suc n) i d h e =
      let byte = xor_byte-lt _ _ (bx i) (by i) in
      let rest = differences-zero bx by n (i + 1) _ (bit_or-lt d _ h byte) e in
      let here = bit_or-zero d _ h byte rest.0 in
      (here.0, extend i n (eq_of_xor-zero _ _ here.1) rest.1)
    where
      extend :
          (i n : ℕ)
          → get_or x i 0 ≡ get_or y i 0
          → ((k : ℕ) → i + 1 ≤ k → k < i + 1 + n → get_or x k 0 ≡ get_or y k 0)
          → (k : ℕ) → i ≤ k
          → k < i + suc n
          → get_or x k 0 ≡ get_or y k 0
      extend i n here rest k p q = elim (ℕ_discrete i k) [
        | yes e ↦ subst (λ t. get_or x t 0 ≡ get_or y t 0) e here
        | no ne ↦ rest k (omega arith) (omega arith)
      ]

differences_self : (x : List ℕ) (n i : ℕ) → for_range n i (difference x x) 0 ≡ 0
differences_self x zero i = refl
differences_self x (suc n) i =
    ap (for_range n (i + 1) (difference x x)) (ap (bit_or 0) (xor_self (get_or x i 0)))
    ∙ differences_self x n (i + 1)

-- `(1 & ((d - 1) >> 8)) - 1` tells zero from every other byte.
abbrev zero_bit : ℕ → Bool
zero_bit d = bit_and 1 (u32 (d + 2 ^ 32 - 1) >>> 8) == 1

zero_bit_table : all_below 256 (λ d. if d == 0 then zero_bit d else not (zero_bit d)) ≡ true
unfolding all_below
zero_bit_table = refl

zero_bit-zero : (d : ℕ) → d < 256 → zero_bit d ≡ true → d ≡ 0
zero_bit-zero d h e = ground (
  arith,
  all_below_sound 256 (λ d. if d == 0 then zero_bit d else not (zero_bit d)) d zero_bit_table h,
)

success-eq-zero : (b : Bool) → (if b then success else failure) ≡ success → b ≡ true
success-eq-zero b h = ground arith

pub crypto_verify_16_self : (x : List ℕ) → crypto_verify_16 x x ≡ success
unfolding crypto_verify_16 different_bits
crypto_verify_16_self x =
    ap (λ d. if zero_bit d then success else failure) (differences_self x 16 0)

-- `crypto_verify_16` accepts two tags of sixteen bytes exactly when they are equal.
pub crypto_verify_16-success_iff :
    (x y : List ℕ)
    → length x ≡ 16
    → length y ≡ 16
    → IsBytes x
    → IsBytes y
    → (crypto_verify_16 x y ≡ success) ↔ (x ≡ y)
unfolding crypto_verify_16 different_bits
crypto_verify_16-success_iff x y lx ly bx by = (
  λ h. get_or_ext 0 x y (omega arith) (λ i p.
      (differences-zero x y bx by 16 0 0 (omega arith)
          (zero_bit-zero _ (differences-lt x y bx by 16 0 0 (omega arith)) (success-eq-zero _ h))).1
        i (omega arith) (omega arith)),
  λ e.
      ap (λ y. crypto_verify_16 x y) (sym e)
      ∙ ap (λ d. if zero_bit d then success else failure) (differences_self x 16 0),
)
