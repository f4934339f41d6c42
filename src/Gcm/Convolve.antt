-- ===== src/Gcm/Convolve.antt =====
-- The first loops of `addmul`: the bits of the two factors, and the product of the polynomials.
use mathlib.Core.Path.{fun_ext}
use myrtus_psm_edge.Common.{
  ℕ, zero, suc, ◌+◌, ◌-◌, ◌*◌, ◌/◌, ◌%◌, ◌≤◌, ◌<◌, ◌≡◌, refl, sym, ◌∙◌, ap, ap₂, arith, List, [],
  ◌∷◌, get_or, set, length, length-set, replicate, for_range, for_range_view, table, table_congr,
  bit_and, bit_and-power, zero-bit_and, and_step, lane, ◌⊕◌, ◌>>>◌, if◌then◌else◌, ◌==◌, table-zero,
  table-get_or, fill_front, take_of_le, length-replicate, get_or_past, Bool, true, false,
}
use myrtus_psm_edge.Gcm.{bits, convolve}
use myrtus_psm_edge.Gcm.Product.{coefficients}
use myrtus_psm_edge.Gcm.Polynomial.{
  Poly, ◌⊞◌, none, constant, view, shifted, power, modulo, power-sum, power-shifted, power-none,
  sum_assoc, sum-none, none-sum, modulo-set, modulo-view, shifted-none,
}

low_bit : (w : ℕ) → bit_and w 1 ≡ w % 2
unfolding lane
low_bit w = let e : bit_and w 1 ≡ lane 0 w * 1 = bit_and-power 0 w in omega (arith, e)

-- `abits` are the coefficients of the block.
pub bits_lem : (a : List ℕ) → bits a ≡ coefficients a
unfolding bits coefficients
bits_lem a =
    fill_front (λ i. bit_and (get_or a (i / 8) 0 >>> (7 - i % 8)) 1) 128 (replicate 128 0)
      (length-replicate {A = ℕ} 128 0)
    ∙ table_congr _ _ 128 0 (λ k p q. low_bit (get_or a (k / 8) 0 >>> (7 - k % 8)))

-- The sum that the inner loop adds.
inner_sum :
    (i : ℕ) (c : ℕ → ℕ) (n j : ℕ) (f : Poly)
    → for_range n j (λ j f. f ⊞ power (i + j) (constant (c j))) f
      ≡ f ⊞ power (i + j) (modulo (table c j n))
unfolding modulo
inner_sum i c zero j f = sym (ap (λ g. f ⊞ g) (power-none (i + j)) ∙ sum-none f)
inner_sum i c (suc n) j f =
    inner_sum i c n (j + 1) (f ⊞ power (i + j) (constant (c j)))
    ∙ sum_assoc f (power (i + j) (constant (c j)))
        (power (i + (j + 1)) (modulo (table c (j + 1) n)))
    ∙ ap (λ g. f ⊞ g)
        (ap (λ g. power (i + j) (constant (c j)) ⊞ g)
            (ap (λ k. power k (modulo (table c (j + 1) n))) (next i j)
              ∙ sym (power-shifted (i + j) (modulo (table c (j + 1) n))))
          ∙ sym (power-sum (i + j) (constant (c j)) (shifted (modulo (table c (j + 1) n)))))
  where
    next : (i j : ℕ) → i + (j + 1) ≡ suc (i + j)
    next i j = omega arith

-- What the product of the polynomials is, one coefficient of the first after the other.
unfoldable pub terms : List ℕ → Poly → Poly
terms [] f = none
terms (c ∷ cs) f = (if c == 0 then none else f) ⊞ terms cs (shifted f)

zeros-modulo : (n j : ℕ) → modulo (table (λ k. 0) j n) ≡ none
unfolding modulo
zeros-modulo zero j = refl
zeros-modulo (suc n) j =
    ap (λ f. constant 0 ⊞ shifted f) (zeros-modulo n (j + 1))
    ∙ ap (λ f. constant 0 ⊞ f) shifted-none
    ∙ sum-none (constant 0)
    ∙ fun_ext nothing
  where
    nothing : (m : ℕ) → constant 0 m ≡ 0
    nothing zero = refl
    nothing (suc m) = refl

bit_and-one : (x : ℕ) → x < 2 → bit_and 1 x ≡ x
bit_and-one x h = omega (arith, and_step 1 x, zero-bit_and (x / 2))

-- The factors, as the loops find them.
module _ (a b : List ℕ) (n : ℕ) (a_bits : (m : ℕ) → get_or a m 0 < 2)
    (b_bits : (m : ℕ) → get_or b m 0 < 2) (b_size : length b ≡ n) (b_small : n ≤ 128) where
  abbrev step : ℕ → ℕ → List ℕ → List ℕ
  step i j p = set p (i + j) (get_or p (i + j) 0 ⊕ bit_and (get_or a i 0) (get_or b j 0))

  length-steps : (i k j : ℕ) (p : List ℕ) → length (for_range k j (step i) p) ≡ length p
  length-steps i zero j p = refl
  length-steps i (suc k) j p = length-steps i k (j + 1) (step i j p) ∙ length-set p (i + j) _

  masked :
      (x : ℕ)
      → x < 2
      → modulo (table (λ j. bit_and x (get_or b j 0)) 0 n) ≡ (if x == 0 then none else view b)
  masked zero h =
      ap modulo (table_congr _ (λ k. 0) n 0 (λ k p q. zero-bit_and (get_or b k 0)))
      ∙ zeros-modulo n 0
  masked (suc zero) h =
      ap modulo (
        table_congr _ (λ k. get_or b k 0) n 0 (λ k p q. bit_and-one (get_or b k 0) (b_bits k))
        ∙ table-get_or b n 0 (omega (arith, b_size))
        ∙ take_of_le n b (omega (arith, b_size)))
      ∙ modulo-view n b b_small (λ m l. get_or_past b m (omega (arith, b_size, l)))
  masked (suc (suc x)) h = absurd (omega arith)

  -- The inner loop.
  round_lem :
      (size i : ℕ) (p : List ℕ)
      → length p ≡ size
      → i + n ≤ size
      → modulo (for_range n 0 (step i) p)
        ≡ modulo p ⊞ power i (if get_or a i 0 == 0 then none else view b)
  round_lem size i p here room =
      for_range_view (λ p. length p ≡ size) modulo (step i)
        (λ j f. f ⊞ power (i + j) (constant (bit_and (get_or a i 0) (get_or b j 0))))
        (λ j p h. length-set p (i + j) _ ∙ h) n 0
        (λ j p h l r. modulo-set (i + j) p _ (omega (arith, h, r, room))) p here
      ∙ inner_sum i (λ j. bit_and (get_or a i 0) (get_or b j 0)) n 0 (modulo p)
      ∙ ap (λ f. modulo p ⊞ f) (ap₂ power (right i) (masked (get_or a i 0) (a_bits i)))
    where
      right : (i : ℕ) → i + 0 ≡ i
      right i = omega arith

  outer_sum :
      (r i : ℕ) (f : Poly)
      → for_range r i (λ i f. f ⊞ power i (if get_or a i 0 == 0 then none else view b)) f
        ≡ f ⊞ terms (table (λ k. get_or a k 0) i r) (power i (view b))
  unfolding terms
  outer_sum zero i f = sym (sum-none f)
  outer_sum (suc r) i f =
      let c = get_or a i 0 in
      outer_sum r (i + 1) (f ⊞ power i (if c == 0 then none else view b))
      ∙ sum_assoc f (power i (if c == 0 then none else view b)) _
      ∙ ap (λ g. f ⊞ g)
          (ap₂ ◌⊞◌ (power-if i (c == 0) (view b))
            (ap (λ k. terms (table (λ k. get_or a k 0) (i + 1) r) (power k (view b))) (next i)))
    where
      next : (i : ℕ) → i + 1 ≡ suc i
      next i = omega arith

      power-if :
          (i : ℕ) (t : Bool) (f : Poly)
          → power i (if t then none else f) ≡ (if t then none else power i f)
      power-if i true f = power-none i
      power-if i false f = refl

  -- Both loops.
  rounds_lem :
      (size r : ℕ) (p : List ℕ)
      → length p ≡ size
      → r + n ≤ size
      → modulo (for_range r 0 (λ i. for_range n 0 (step i)) p)
        ≡ modulo p ⊞ terms (table (λ k. get_or a k 0) 0 r) (view b)
  rounds_lem size r p here room =
      for_range_view (λ p. length p ≡ size) modulo (λ i. for_range n 0 (step i))
        (λ i f. f ⊞ power i (if get_or a i 0 == 0 then none else view b))
        (λ i p h. length-steps i n 0 p ∙ h) r 0
        (λ i p h l q. round_lem size i p h (omega (arith, q, room))) p here
      ∙ outer_sum r 0 (modulo p)

  length-rounds :
      (r i : ℕ) (p : List ℕ) → length (for_range r i (λ i. for_range n 0 (step i)) p) ≡ length p
  length-rounds zero i p = refl
  length-rounds (suc r) i p =
      length-rounds r (i + 1) (for_range n 0 (step i) p) ∙ length-steps i n 0 p

module _ (a b : List ℕ) (a_bits : (m : ℕ) → get_or a m 0 < 2) (b_bits : (m : ℕ) → get_or b m 0 < 2)
    (a_size : length a ≡ 128) (b_size : length b ≡ 128) where
  pub length-convolve : length (convolve a b) ≡ 256
  unfolding convolve
  length-convolve =
      length-rounds a b 128 a_bits b_bits b_size (omega arith) 128 0 (replicate 256 0)
      ∙ length-replicate {A = ℕ} 256 0

  pub convolve_lem : modulo (convolve a b) ≡ terms a (view b)
  unfolding convolve
  convolve_lem =
      rounds_lem a b 128 a_bits b_bits b_size (omega arith) 256 128 (replicate 256 0)
        (length-replicate {A = ℕ} 256 0) (omega arith)
      ∙ ap₂ ◌⊞◌ (ap modulo (sym (table-zero 256 0)) ∙ zeros-modulo 256 0) (
          ap (λ t. terms t (view b))
            (table-get_or a 128 0 (omega (arith, a_size))
              ∙ take_of_le 128 a (omega (arith, a_size))))
      ∙ none-sum (terms a (view b))
