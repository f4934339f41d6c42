-- ===== src/Backend/Spec/Field.antt =====
-- Multiplication by 2 and 3 in GF(2 ^ 8), as the column mixing of every backend uses it.
use myrtus_psm_edge.Common.{
  ℕ, ◌<◌, ◌≡◌, refl, ◌∙◌, ap, ap₂, true, ◌==◌, ==_iff, all_below, all_below_sound, ◌⊕◌, xor_zero,
  zero_xor,
}
use myrtus_psm_edge.Backend.Spec.{double, gf_mul}

double-xor_table :
    all_below 256 (λ x. all_below 256 (λ y. double (x ⊕ y) == (double x ⊕ double y))) ≡ true
unfolding all_below double
double-xor_table = refl

pub double-xor : (x y : ℕ) → x < 256 → y < 256 → double (x ⊕ y) ≡ double x ⊕ double y
double-xor x y p q =
    (==_iff _ _).0 (all_below_sound 256 _ y (all_below_sound 256 _ x double-xor_table p) q)

pub gf_mul_two : (x : ℕ) → gf_mul 2 x ≡ double x
unfolding gf_mul
gf_mul_two x = zero_xor _ ∙ xor_zero _

pub gf_mul_three : (x : ℕ) → gf_mul 3 x ≡ x ⊕ double x
unfolding gf_mul
gf_mul_three x = ap (λ t. x ⊕ t) (xor_zero (double x))

-- The byte that mixing makes of a byte `x`, the next byte `y` of its column, and the other two.
pub mixed-double :
    (x y z v : ℕ) → gf_mul 2 x ⊕ gf_mul 3 y ⊕ z ⊕ v ≡ double x ⊕ (y ⊕ double y) ⊕ z ⊕ v
mixed-double x y z v = ap (λ t. t ⊕ z ⊕ v) (ap₂ ◌⊕◌ (gf_mul_two x) (gf_mul_three y))
