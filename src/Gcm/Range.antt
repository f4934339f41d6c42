-- ===== src/Gcm/Range.antt =====
-- The entries of the arrays of `addmul`: bits in `abits`, `ybits` and `prod`, bytes in the result.
use myrtus_psm_edge.Common.{
  ℕ, zero, suc, ◌+◌, ◌-◌, ◌*◌, ◌/◌, ◌%◌, ◌<◌, ◌≡◌, refl, ap₂, arith, true, List, [], ◌∷◌, get_or,
  set, replicate, for_range_inv, bit_and, bit_or-lt, and_step, xor_step, bit_and-power, lane,
  lane-lt, all_below, all_below_sound, ltb, IsBytes, ◌⊕◌, ◌<<<◌, ◌>>>◌,
}
use myrtus_psm_edge.Gcm.{addmul, multiply, pack, reduce, reduce_bit, convolve, bits}

abbrev pub Below : ℕ → List ℕ → Type 0
Below m xs = (i : ℕ) → get_or xs i 0 < m

pub Below-set : (m : ℕ) (xs : List ℕ) (k v : ℕ) → Below m xs → v < m → Below m (set xs k v)
Below-set m [] k v h p i = h i
Below-set m (x ∷ xs) zero v h p zero = p
Below-set m (x ∷ xs) zero v h p (suc i) = h (suc i)
Below-set m (x ∷ xs) (suc k) v h p zero = h zero
Below-set m (x ∷ xs) (suc k) v h p (suc i) = Below-set m xs k v (λ j. h (suc j)) p i

Below-replicate : (m n : ℕ) → 0 < m → Below m (replicate n 0)
Below-replicate m zero p i = p
Below-replicate m (suc n) p zero = p
Below-replicate m (suc n) p (suc i) = Below-replicate m n p i

half : (x : ℕ) → x < 2 → x / 2 ≡ 0
half x h = omega arith

xor_bit : (a b : ℕ) → a < 2 → b < 2 → a ⊕ b < 2
xor_bit a b p q = omega (arith, xor_step a b, ap₂ ◌⊕◌ (half a p) (half b q))

pub and_bit : (a b : ℕ) → a < 2 → b < 2 → bit_and a b < 2
and_bit a b p q = omega (arith, and_step a b, ap₂ bit_and (half a p) (half b q))

low_bit : (w : ℕ) → bit_and w 1 < 2
low_bit w = let e : bit_and w 1 ≡ lane 0 w * 1 = bit_and-power 0 w in omega (arith, e, lane-lt 0 w)

pub Below-bits : (a : List ℕ) → Below 2 (bits a)
unfolding bits
Below-bits a =
    for_range_inv (Below 2) (λ i b. set b i (bit_and (get_or a (i / 8) 0 >>> (7 - i % 8)) 1))
      (λ i b h. Below-set 2 b i _ h (low_bit (get_or a (i / 8) 0 >>> (7 - i % 8)))) 128 0
      (replicate 128 0) (Below-replicate 2 128 (omega arith))

pub Below-convolve : (a b : List ℕ) → Below 2 a → Below 2 b → Below 2 (convolve a b)
unfolding convolve
Below-convolve a b p q =
    for_range_inv (Below 2) _
      (λ i s h.
        for_range_inv (Below 2) _
          (λ j t g. Below-set 2 t (i + j) _ g (xor_bit _ _ (g (i + j)) (and_bit _ _ (p i) (q j))))
          128 0 s h)
      128 0 (replicate 256 0) (Below-replicate 2 256 (omega arith))

-- One line of the body of the reduction loop.
Below-fold : (p : List ℕ) (i j : ℕ) → Below 2 p → Below 2 (set p i (get_or p i 0 ⊕ get_or p j 0))
Below-fold p i j h = Below-set 2 p i _ h (xor_bit _ _ (h i) (h j))

pub Below-reduce_bit : (i : ℕ) (p : List ℕ) → Below 2 p → Below 2 (reduce_bit i p)
unfolding reduce_bit
Below-reduce_bit i p h = Below-fold _ (i + 128) (i + 128) (
    Below-fold _ (i + 7) (i + 128) (
      Below-fold _ (i + 2) (i + 128) (Below-fold _ (i + 1) (i + 128) (Below-fold p i (i + 128) h))))

pub Below-reduce : (n : ℕ) (p : List ℕ) → Below 2 p → Below 2 (reduce n p)
unfolding reduce
Below-reduce zero p h = h
Below-reduce (suc n) p h = Below-reduce n (reduce_bit n p) (Below-reduce_bit n p h)

shift_table : all_below 2 (λ b. all_below 8 (λ r. ltb (b <<< (7 - r)) 256)) ≡ true
unfolding all_below
shift_table = refl

pub shifted_bit : (b r : ℕ) → b < 2 → r < 8 → b <<< (7 - r) < 256
shifted_bit b r p q =
    let t =
      all_below_sound 8 (λ r. ltb (b <<< (7 - r)) 256) r
        (all_below_sound 2 (λ b. all_below 8 (λ r. ltb (b <<< (7 - r)) 256)) b shift_table p) q in
    ground (arith, t)

IsBytes-pack : (p : List ℕ) → Below 2 p → IsBytes (pack p)
unfolding pack
IsBytes-pack p h =
    for_range_inv (Below 256) _
      (λ i a g.
        Below-set 256 a (i / 8) _ g
          (bit_or-lt _ _ (g (i / 8)) (shifted_bit _ (i % 8) (h i) (omega arith))))
      128 0 (replicate 16 0) (Below-replicate 256 16 (omega arith))

pub IsBytes-addmul : (a x : List ℕ) (n : ℕ) (y : List ℕ) → IsBytes (addmul a x n y)
unfolding addmul multiply
IsBytes-addmul a x n y =
    IsBytes-pack _ (Below-reduce 128 _ (Below-convolve _ _ (Below-bits _) (Below-bits y)))
