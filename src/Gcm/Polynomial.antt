-- ===== src/Gcm/Polynomial.antt =====
-- Polynomials modulo that of the field, as functions from powers to coefficients: the sum, the product
-- with x, and what a list of any number of coefficients is modulo it.
use mathlib.Core.Path.{fun_ext}
use myrtus_psm_edge.Common.{
  ℕ, zero, suc, ◌+◌, ◌-◌, ◌≤◌, ◌<◌, ◌≡◌, refl, sym, ◌∙◌, ap, ap₂, arith, Bool, true, false, List,
  [], ◌∷◌, get_or, set, length, ◌⊕◌, xor_comm, xor_assoc, xor_self, xor_zero, zero_xor,
  xor_interchange, if◌then◌else◌, ltb, ltb_of_lt, ltb_of_ge, ◌⊎◌, inl, inr,
}
use myrtus_psm_edge.Gcm.Product.{in_modulus, before}

abbrev pub Poly : Type 0
Poly = ℕ → ℕ

infixl 60 ◌⊞◌
abbrev pub ◌⊞◌ : Poly → Poly → Poly
f ⊞ g = λ m. f m ⊕ g m

abbrev pub none : Poly
none = λ m. 0

abbrev pub constant : ℕ → Poly
constant t zero = t
constant t (suc m) = 0

abbrev pub view : List ℕ → Poly
view p = λ m. get_or p m 0

unfoldable pub shifted : Poly → Poly
shifted f m = if ltb m 128 then before f m ⊕ (if in_modulus m then f 127 else 0) else 0

abbrev pub power : ℕ → Poly → Poly
power zero f = f
power (suc k) f = shifted (power k f)

-- Any number of coefficients, modulo the polynomial of the field.
unfoldable pub modulo : List ℕ → Poly
modulo [] = none
modulo (c ∷ cs) = constant c ⊞ shifted (modulo cs)

pub sum_assoc : (f g h : Poly) → f ⊞ g ⊞ h ≡ f ⊞ (g ⊞ h)
sum_assoc f g h = fun_ext (λ m. xor_assoc (f m) (g m) (h m))

pub sum-none : (f : Poly) → f ⊞ none ≡ f
sum-none f = fun_ext (λ m. xor_zero (f m))

pub none-sum : (f : Poly) → none ⊞ f ≡ f
none-sum f = fun_ext (λ m. zero_xor (f m))

pub sum_comm : (f g : Poly) → f ⊞ g ≡ g ⊞ f
sum_comm f g = fun_ext (λ m. xor_comm (f m) (g m))

if-xor :
    (b : Bool) (x y : ℕ) → (if b then x ⊕ y else 0) ≡ (if b then x else 0) ⊕ (if b then y else 0)
if-xor true x y = refl
if-xor false x y = refl

before-xor : (f g : Poly) (m : ℕ) → before (f ⊞ g) m ≡ before f m ⊕ before g m
before-xor f g zero = refl
before-xor f g (suc m) = refl

pub shifted-sum : (f g : Poly) → shifted (f ⊞ g) ≡ shifted f ⊞ shifted g
unfolding shifted
shifted-sum f g = fun_ext (λ m.
    let back = λ (h : Poly). if in_modulus m then h 127 else 0 in
    ap (λ t. if ltb m 128 then t else 0)
      (ap₂ ◌⊕◌ (before-xor f g m) (if-xor (in_modulus m) (f 127) (g 127))
        ∙ xor_interchange (before f m) (before g m) (back f) (back g))
    ∙ if-xor (ltb m 128) (before f m ⊕ back f) (before g m ⊕ back g))

pub power-sum : (k : ℕ) (f g : Poly) → power k (f ⊞ g) ≡ power k f ⊞ power k g
power-sum zero f g = refl
power-sum (suc k) f g = ap shifted (power-sum k f g) ∙ shifted-sum (power k f) (power k g)

pub power-shifted : (k : ℕ) (f : Poly) → power k (shifted f) ≡ shifted (power k f)
power-shifted zero f = refl
power-shifted (suc k) f = ap shifted (power-shifted k f)

pub power-power : (j k : ℕ) (f : Poly) → power (j + k) f ≡ power j (power k f)
power-power zero k f = ap (λ n. power n f) (omega arith)
power-power (suc j) k f = ap (λ n. power n f) (next j k) ∙ ap shifted (power-power j k f)
  where
    next : (j k : ℕ) → suc j + k ≡ suc (j + k)
    next j k = omega arith

-- A sum that equals its half is nothing: `none` goes to `none`.
pub shifted-none : shifted none ≡ none
shifted-none = ap shifted (sym (self none)) ∙ shifted-sum none none ∙ self (shifted none)
  where
    self : (f : Poly) → f ⊞ f ≡ none
    self f = fun_ext (λ m. xor_self (f m))

pub power-none : (k : ℕ) → power k none ≡ none
power-none zero = refl
power-none (suc k) = ap shifted (power-none k) ∙ shifted-none

pub constant-sum : (s t : ℕ) → constant (s ⊕ t) ≡ constant s ⊞ constant t
constant-sum s t = fun_ext entry
  where
    entry : (m : ℕ) → constant (s ⊕ t) m ≡ constant s m ⊕ constant t m
    entry zero = refl
    entry (suc m) = refl

-- One coefficient is changed.
pub modulo-set :
    (k : ℕ) (p : List ℕ) (t : ℕ)
    → k < length p
    → modulo (set p k (get_or p k 0 ⊕ t)) ≡ modulo p ⊞ power k (constant t)
unfolding modulo
modulo-set k [] t h = absurd (omega arith)
modulo-set zero (c ∷ cs) t h =
    ap (λ f. f ⊞ shifted (modulo cs)) (constant-sum c t)
    ∙ sum_assoc (constant c) (constant t) (shifted (modulo cs))
    ∙ ap (λ f. constant c ⊞ f) (sum_comm (constant t) (shifted (modulo cs)))
    ∙ sym (sum_assoc (constant c) (shifted (modulo cs)) (constant t))
modulo-set (suc k) (c ∷ cs) t h =
    ap (λ f. constant c ⊞ f)
      (ap shifted (modulo-set k cs t (omega arith))
        ∙ shifted-sum (modulo cs) (power k (constant t)))
    ∙ sym (sum_assoc (constant c) (shifted (modulo cs)) (power (suc k) (constant t)))

-- Below 128 coefficients nothing is to be done.
pub modulo-view :
    (k : ℕ) (p : List ℕ) → k ≤ 128 → ((m : ℕ) → k ≤ m → get_or p m 0 ≡ 0) → modulo p ≡ view p
unfolding modulo shifted
modulo-view k [] h z = refl
modulo-view k (c ∷ cs) h z =
    ap (λ f. constant c ⊞ shifted f)
      (modulo-view (k - 1) cs (omega arith) (λ m l. z (suc m) (omega arith)))
    ∙ fun_ext (entry (z 128 h))
  where
    back : get_or cs 127 0 ≡ 0 → (b : Bool) → (if b then get_or cs 127 0 else 0) ≡ 0
    back e true = e
    back e false = refl

    entry : get_or cs 127 0 ≡ 0 → (m : ℕ) → (constant c ⊞ shifted (view cs)) m ≡ get_or (c ∷ cs) m 0
    entry e zero = ap (λ t. c ⊕ (0 ⊕ t)) e ∙ xor_zero c
    entry e (suc m) = zero_xor _ ∙ go (in_range (suc m))
      where
        in_range : (n : ℕ) → (n < 128) ⊎ (128 ≤ n)
        in_range n = omega arith

        go : (suc m < 128) ⊎ (128 ≤ suc m) → shifted (view cs) (suc m) ≡ get_or cs m 0
        go (inl l) =
            ap
              (λ b.
                if b
                then get_or cs m 0 ⊕ (if in_modulus (suc m) then get_or cs 127 0 else 0)
                else 0)
              (ltb_of_lt (suc m) 128 l)
            ∙ ap (λ t. get_or cs m 0 ⊕ t) (back e (in_modulus (suc m)))
            ∙ xor_zero (get_or cs m 0)
        go (inr l) =
            ap
              (λ b.
                if b
                then get_or cs m 0 ⊕ (if in_modulus (suc m) then get_or cs 127 0 else 0)
                else 0)
              (ltb_of_ge (suc m) 128 l)
            ∙ sym (z (suc m) (omega (arith, h, l)))
