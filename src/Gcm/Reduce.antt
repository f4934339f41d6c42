-- ===== src/Gcm/Reduce.antt =====
-- The reduction loop of `addmul`: it keeps the polynomial modulo that of the field, and leaves 128 coefficients.
use mathlib.Core.Path.{fun_ext}
use native.Mathlib.Decide.{ℕ_discrete}
use myrtus_psm_edge.Common.{
  ℕ, zero, suc, ◌+◌, ◌≤◌, ◌<◌, ◌≡◌, refl, sym, ◌∙◌, ap, ap₂, arith, true, List, get_or, set, length,
  length-set, get_or-set_self, get_or-set_ne, ◌⊕◌, xor_self, ◌==◌, ==_iff, get_or_past, ltb_of_ge,
  all_below, all_below_sound, ◌⊎◌, inl, inr, same_sum_sound, var, add, [], ◌∷◌,
}
use myrtus_psm_edge.Gcm.{reduce_bit, reduce}
use myrtus_psm_edge.Gcm.Range.{Below, Below-reduce_bit}
use myrtus_psm_edge.Gcm.Polynomial.{
  Poly, ◌⊞◌, none, constant, view, shifted, power, modulo, power-sum, power-power, power-none,
  sum-none, modulo-set, modulo-view,
}

-- 1 + x + x^2 + x^7 + x^128, times a bit.
abbrev modulus : ℕ → Poly
modulus t =
    constant t
    ⊞ power 1 (constant t)
    ⊞ power 2 (constant t)
    ⊞ power 7 (constant t)
    ⊞ power 128 (constant t)

modulus_table : all_below 2 (λ t. all_below 128 (λ m. modulus t m == 0)) ≡ true
unfolding all_below shifted
modulus_table = refl

modulus_vanishes : (t m : ℕ) → t < 2 → modulus t m ≡ 0
unfolding shifted
modulus_vanishes t m h = go m (in_range m)
  where
    in_range : (n : ℕ) → (n < 128) ⊎ (128 ≤ n)
    in_range n = omega arith

    go : (m : ℕ) → (m < 128) ⊎ (128 ≤ m) → modulus t m ≡ 0
    go m (inl l) = (==_iff (modulus t m) 0).0 (
        all_below_sound 128 (λ m. modulus t m == 0) m
          (all_below_sound 2 (λ t. all_below 128 (λ m. modulus t m == 0)) t modulus_table h) l)
    go zero (inr l) = absurd (omega arith)
    go (suc m) (inr l) = rw (ltb_of_ge (suc m) 128 l) refl

modulus-none : (t : ℕ) → t < 2 → modulus t ≡ none
modulus-none t h = fun_ext (λ m. modulus_vanishes t m h)

-- One line of the body of the loop: the coefficient of `k` changes by that of `i + 128`, which stays.
module _ (i : ℕ) (p : List ℕ) (k t : ℕ) (size : length p ≡ 256) (top : get_or p (i + 128) 0 ≡ t)
    (away : k < i + 128) (small : i < 128) where
  pub line : List ℕ
  line = set p k (get_or p k 0 ⊕ get_or p (i + 128) 0)

  pub length-line : length line ≡ 256
  unfolding line
  length-line = length-set p k _ ∙ size

  pub line-top : get_or line (i + 128) 0 ≡ t
  unfolding line
  line-top = get_or-set_ne p k (i + 128) _ 0 (λ e. omega (arith, e)) ∙ top

  pub line-modulo : modulo line ≡ modulo p ⊞ power k (constant t)
  unfolding line
  line-modulo =
      ap (λ x. modulo (set p k (get_or p k 0 ⊕ x))) top ∙ modulo-set k p t (omega (arith, size))

regroup : (f a b c d e : Poly) → f ⊞ a ⊞ b ⊞ c ⊞ d ⊞ e ≡ f ⊞ (a ⊞ b ⊞ c ⊞ d ⊞ e)
regroup f a b c d e = fun_ext (λ m.
    same_sum_sound (f m ∷ a m ∷ b m ∷ c m ∷ d m ∷ e m ∷ [])
      (add (add (add (add (add (var 0) (var 1)) (var 2)) (var 3)) (var 4)) (var 5))
      (add (var 0) (add (add (add (add (var 1) (var 2)) (var 3)) (var 4)) (var 5))) refl)

power-modulus :
    (i t : ℕ)
    → power i (constant t)
        ⊞ power (i + 1) (constant t)
        ⊞ power (i + 2) (constant t)
        ⊞ power (i + 7) (constant t)
        ⊞ power (i + 128) (constant t)
      ≡ power i (modulus t)
power-modulus i t =
    let c = constant t in
    sym (
      power-sum i (c ⊞ power 1 c ⊞ power 2 c ⊞ power 7 c) (power 128 c)
      ∙ ap₂ ◌⊞◌
          (power-sum i (c ⊞ power 1 c ⊞ power 2 c) (power 7 c)
            ∙ ap₂ ◌⊞◌
                (power-sum i (c ⊞ power 1 c) (power 2 c)
                  ∙ ap₂ ◌⊞◌
                      (power-sum i c (power 1 c)
                        ∙ ap (λ f. power i c ⊞ f) (sym (power-power i 1 c)))
                      (sym (power-power i 2 c)))
                (sym (power-power i 7 c)))
          (sym (power-power i 128 c)))

module _ (i : ℕ) (p : List ℕ) (size : length p ≡ 256) (bit : get_or p (i + 128) 0 < 2)
    (small : i < 128) where
  -- The five lines of the body, one after the other.
  abbrev t : ℕ
  t = get_or p (i + 128) 0

  abbrev line_0 : List ℕ
  line_0 = line i p i t size refl (omega arith) small

  size_0 : length line_0 ≡ 256
  size_0 = length-line i p i t size refl (omega arith) small

  top_0 : get_or line_0 (i + 128) 0 ≡ t
  top_0 = line-top i p i t size refl (omega arith) small

  abbrev line_1 : List ℕ
  line_1 = line i line_0 (i + 1) t size_0 top_0 (omega arith) small

  size_1 : length line_1 ≡ 256
  size_1 = length-line i line_0 (i + 1) t size_0 top_0 (omega arith) small

  top_1 : get_or line_1 (i + 128) 0 ≡ t
  top_1 = line-top i line_0 (i + 1) t size_0 top_0 (omega arith) small

  abbrev line_2 : List ℕ
  line_2 = line i line_1 (i + 2) t size_1 top_1 (omega arith) small

  size_2 : length line_2 ≡ 256
  size_2 = length-line i line_1 (i + 2) t size_1 top_1 (omega arith) small

  top_2 : get_or line_2 (i + 128) 0 ≡ t
  top_2 = line-top i line_1 (i + 2) t size_1 top_1 (omega arith) small

  abbrev line_7 : List ℕ
  line_7 = line i line_2 (i + 7) t size_2 top_2 (omega arith) small

  size_7 : length line_7 ≡ 256
  size_7 = length-line i line_2 (i + 7) t size_2 top_2 (omega arith) small

  top_7 : get_or line_7 (i + 128) 0 ≡ t
  top_7 = line-top i line_2 (i + 7) t size_2 top_2 (omega arith) small

  reduce_bit-lines :
      reduce_bit i p ≡ set line_7 (i + 128) (get_or line_7 (i + 128) 0 ⊕ get_or line_7 (i + 128) 0)
  unfolding reduce_bit line
  reduce_bit-lines = refl

  pub length-reduce_bit : length (reduce_bit i p) ≡ 256
  length-reduce_bit = ap length reduce_bit-lines ∙ length-set line_7 (i + 128) _ ∙ size_7

  pub reduce_bit-modulo : modulo (reduce_bit i p) ≡ modulo p
  reduce_bit-modulo =
      let c = constant t in
      ap modulo reduce_bit-lines
      ∙ ap (λ x. modulo (set line_7 (i + 128) (get_or line_7 (i + 128) 0 ⊕ x))) top_7
      ∙ modulo-set (i + 128) line_7 t (omega (arith, size_7))
      ∙ ap (λ f. f ⊞ power (i + 128) c)
          (line-modulo i line_2 (i + 7) t size_2 top_2 (omega arith) small
            ∙ ap (λ f. f ⊞ power (i + 7) c)
                (line-modulo i line_1 (i + 2) t size_1 top_1 (omega arith) small
                  ∙ ap (λ f. f ⊞ power (i + 2) c)
                      (line-modulo i line_0 (i + 1) t size_0 top_0 (omega arith) small
                        ∙ ap (λ f. f ⊞ power (i + 1) c)
                            (line-modulo i p i t size refl (omega arith) small))))
      ∙ regroup (modulo p) (power i c) (power (i + 1) c) (power (i + 2) c) (power (i + 7) c)
          (power (i + 128) c)
      ∙ ap (λ f. modulo p ⊞ f)
          (power-modulus i t ∙ ap (power i) (modulus-none t bit) ∙ power-none i)
      ∙ sum-none (modulo p)

  -- Nothing is left from `i + 128` on.
  reduce_bit-clears :
      ((m : ℕ) → suc i + 128 ≤ m → get_or p m 0 ≡ 0)
      → (m : ℕ) → i + 128 ≤ m
      → get_or (reduce_bit i p) m 0 ≡ 0
  unfolding line
  reduce_bit-clears above m l =
      ap (λ q. get_or q m 0) reduce_bit-lines ∙ go (ℕ_discrete (i + 128) m)
    where
      go :
          Dec (i + 128 ≡ m)
          → get_or
              (set line_7 (i + 128) (get_or line_7 (i + 128) 0 ⊕ get_or line_7 (i + 128) 0))
              m
              0
            ≡ 0
      go (yes here) =
          ap
            (λ k.
              get_or (set line_7 (i + 128) (get_or line_7 (i + 128) 0 ⊕ get_or line_7 (i + 128) 0))
                k 0)
            (sym here)
          ∙ get_or-set_self line_7 (i + 128) _ 0 (omega (arith, size_7))
          ∙ xor_self (get_or line_7 (i + 128) 0)
      go (no away) =
          get_or-set_ne line_7 (i + 128) m _ 0 away
          ∙ get_or-set_ne line_2 (i + 7) m _ 0 (λ e. omega (arith, e))
          ∙ get_or-set_ne line_1 (i + 2) m _ 0 (λ e. omega (arith, e))
          ∙ get_or-set_ne line_0 (i + 1) m _ 0 (λ e. omega (arith, e))
          ∙ get_or-set_ne p i m _ 0 (λ e. omega (arith, e))
          ∙ above m (omega (arith, l, away))

-- The loop leaves the coefficients modulo the polynomial of the field.
view-reduce :
    (n : ℕ) (p : List ℕ)
    → n ≤ 128
    → length p ≡ 256
    → Below 2 p
    → ((m : ℕ) → n + 128 ≤ m → get_or p m 0 ≡ 0)
    → view (reduce n p) ≡ modulo p
unfolding reduce
view-reduce zero p h size bits above =
    sym (modulo-view 128 p (omega arith) (λ m l. above m (omega arith)))
view-reduce (suc i) p h size bits above =
    view-reduce i (reduce_bit i p) (omega arith) (length-reduce_bit i p size (bits (i + 128)) h)
      (Below-reduce_bit i p bits) (reduce_bit-clears i p size (bits (i + 128)) h above)
    ∙ reduce_bit-modulo i p size (bits (i + 128)) h

pub reduce_lem : (p : List ℕ) → length p ≡ 256 → Below 2 p → view (reduce 128 p) ≡ modulo p
reduce_lem p size bits =
    view-reduce 128 p (omega arith) size bits (λ m l. get_or_past p m (omega (arith, l, size)))
