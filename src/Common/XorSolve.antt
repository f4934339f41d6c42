-- ===== src/Common/XorSolve.antt =====
-- Equations between sums of exclusive ors, decided by counting each variable modulo two.
use Prim.Native.Nat.{ℕ, zero, suc}
use mathlib.Core.Path.{◌≡◌, refl, ap, ap₂, sym, ◌∙◌}
use mathlib.Core.Bool.{Bool, true, false, ◌&&◌, not}
use mathlib.Core.List.{List, [], ◌∷◌}
use myrtus_psm_edge.Common.Arrays.{get_or}
use myrtus_psm_edge.Common.Xor.{◌⊕◌, xor_comm, xor_assoc, xor_self, zero_xor, xor_zero}
use myrtus_psm_edge.Common.Xor.{eq_of_xor-zero}

-- A sum of variables, each named by its place in a list of values.
pub data Sum : Type 0 where
  var : ℕ → Sum
  add : Sum → Sum → Sum

abbrev pub value : List ℕ → Sum → ℕ
value env (var i) = get_or env i 0
value env (add e f) = value env e ⊕ value env f

-- Which variables occur an odd number of times.
abbrev unit_mask : ℕ → List Bool
unit_mask zero = true ∷ []
unit_mask (suc i) = false ∷ unit_mask i

abbrev parity : Bool → Bool → Bool
parity true c = not c
parity false c = c

abbrev merge : List Bool → List Bool → List Bool
merge [] k = k
merge (b ∷ m) [] = b ∷ m
merge (b ∷ m) (c ∷ k) = parity b c ∷ merge m k

abbrev pub odd_mask : Sum → List Bool
odd_mask (var i) = unit_mask i
odd_mask (add e f) = merge (odd_mask e) (odd_mask f)

abbrev keep : Bool → ℕ → ℕ
keep true x = x
keep false x = 0

abbrev weigh : List ℕ → List Bool → ℕ
weigh [] m = 0
weigh (x ∷ env) [] = 0
weigh (x ∷ env) (b ∷ m) = keep b x ⊕ weigh env m

keep-xor : (b c : Bool) (x : ℕ) → keep (parity b c) x ≡ keep b x ⊕ keep c x
keep-xor true true x = sym (xor_self x)
keep-xor true false x = sym (xor_zero x)
keep-xor false true x = sym (zero_xor x)
keep-xor false false x = refl

weigh-nil : (env : List ℕ) → weigh env [] ≡ 0
weigh-nil [] = refl
weigh-nil (x ∷ env) = refl

-- (a ⊕ c) ⊕ (b ⊕ d) regrouped.
pub xor_interchange : (a b c d : ℕ) → a ⊕ b ⊕ (c ⊕ d) ≡ a ⊕ c ⊕ (b ⊕ d)
xor_interchange a b c d =
    xor_assoc a b (c ⊕ d)
    ∙ ap (λ t. a ⊕ t) (sym (xor_assoc b c d) ∙ ap (λ t. t ⊕ d) (xor_comm b c) ∙ xor_assoc c b d)
    ∙ sym (xor_assoc a c (b ⊕ d))

weigh-merge : (env : List ℕ) (m k : List Bool) → weigh env (merge m k) ≡ weigh env m ⊕ weigh env k
weigh-merge [] m k = refl
weigh-merge (x ∷ env) [] k = sym (zero_xor _)
weigh-merge (x ∷ env) (b ∷ m) [] = sym (xor_zero _)
weigh-merge (x ∷ env) (b ∷ m) (c ∷ k) =
    ap₂ ◌⊕◌ (keep-xor b c x) (weigh-merge env m k)
    ∙ xor_interchange (keep b x) (keep c x) (weigh env m) (weigh env k)

weigh-unit_mask : (env : List ℕ) (i : ℕ) → weigh env (unit_mask i) ≡ get_or env i 0
weigh-unit_mask [] i = refl
weigh-unit_mask (x ∷ env) zero = ap (λ t. x ⊕ t) (weigh-nil env) ∙ xor_zero x
weigh-unit_mask (x ∷ env) (suc i) = zero_xor _ ∙ weigh-unit_mask env i

value-weigh : (env : List ℕ) (e : Sum) → value env e ≡ weigh env (odd_mask e)
value-weigh env (var i) = sym (weigh-unit_mask env i)
value-weigh env (add e f) =
    ap₂ ◌⊕◌ (value-weigh env e) (value-weigh env f)
    ∙ sym (weigh-merge env (odd_mask e) (odd_mask f))

abbrev none_set : List Bool → Bool
none_set [] = true
none_set (b ∷ m) = not b && none_set m

weigh-none_set : (env : List ℕ) (m : List Bool) → none_set m ≡ true → weigh env m ≡ 0
weigh-none_set [] m h = refl
weigh-none_set (x ∷ env) [] h = refl
weigh-none_set (x ∷ env) (true ∷ m) h = cc
weigh-none_set (x ∷ env) (false ∷ m) h = zero_xor _ ∙ weigh-none_set env m h

abbrev pub same_sum : Sum → Sum → Bool
same_sum e f = none_set (merge (odd_mask e) (odd_mask f))

-- Sums in which each variable occurs equally often, modulo two, are equal.
pub same_sum_sound : (env : List ℕ) (e f : Sum) → same_sum e f ≡ true → value env e ≡ value env f
same_sum_sound env e f h = eq_of_xor-zero (value env e) (value env f) (
    ap₂ ◌⊕◌ (value-weigh env e) (value-weigh env f)
    ∙ sym (weigh-merge env (odd_mask e) (odd_mask f))
    ∙ weigh-none_set env (merge (odd_mask e) (odd_mask f)) h)
