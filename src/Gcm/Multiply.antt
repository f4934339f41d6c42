-- ===== src/Gcm/Multiply.antt =====
-- `addmul` against the product of the field, and the hash that the program runs against GHASH.
use mathlib.Core.Path.{fun_ext}
use native.Mathlib.Decide.{dec_lt}
use myrtus_psm_edge.Common.{
  ℕ, zero, suc, ◌-◌, ◌/◌, ◌≤◌, ◌<◌, ◌≡◌, refl, sym, ◌∙◌, ap, ap₂, arith, Bool, true, false, List,
  [], ◌∷◌, get_or, set, length, replicate, for_range, table, get_or-table_front, get_or_past,
  get_or_ext, length-updates, get_or-updates, get_or-updates_outside, length-table, ◌⊕◌, xor_zero,
  if◌then◌else◌, ◌==◌, ltb_of_lt, ltb_of_ge, ltb, zero_xor, ◌^◌, ◌%◌,
}
use myrtus_psm_edge.Gcm.{multiply, addmul, xor_into, bits, convolve, reduce}
use myrtus_psm_edge.Gcm.Product.{
  coefficients, block_of, times_x, plus, times, product, block_sum, in_modulus, before,
}
use myrtus_psm_edge.Gcm.Polynomial.{◌⊞◌, none, view, shifted}
use myrtus_psm_edge.Gcm.Range.{Below-bits, Below-convolve, Below-reduce}
use myrtus_psm_edge.Gcm.Pack.{pack_lem, block_of_congr}
use myrtus_psm_edge.Gcm.Reduce.{reduce_lem}
use myrtus_psm_edge.Gcm.Convolve.{bits_lem, terms, length-convolve, convolve_lem}

module _ (v : List ℕ) where
  abbrev next : ℕ → ℕ
  next m = before (λ k. get_or v k 0) m ⊕ (if in_modulus m then get_or v 127 0 else 0)

  times_x-table : times_x v ≡ table next 0 128
  unfolding times_x
  times_x-table = refl

  shifted-next : (m : ℕ) → shifted (view v) m ≡ (if ltb m 128 then next m else 0)
  unfolding shifted
  shifted-next m = refl

  times_x-shifted : (m : ℕ) → get_or (times_x v) m 0 ≡ shifted (view v) m
  times_x-shifted m =
      ap (λ t. get_or t m 0) times_x-table ∙ go (dec_lt m 128) ∙ sym (shifted-next m)
    where
      go : Dec (m < 128) → get_or (table next 0 128) m 0 ≡ (if ltb m 128 then next m else 0)
      go (yes l) =
          get_or-table_front next 128 m l
          ∙ ap (λ b. if b then next m else 0) (sym (ltb_of_lt m 128 l))
      go (no l) =
          get_or_past (table next 0 128) m (omega (arith, length-table next 128 0, l))
          ∙ ap (λ b. if b then next m else 0) (sym (ltb_of_ge m 128 (omega (arith, l))))

plus_lem : (v w : List ℕ) (m : ℕ) → m < 128 → get_or (plus v w) m 0 ≡ get_or v m 0 ⊕ get_or w m 0
unfolding plus
plus_lem v w m h = get_or-table_front (λ m. get_or v m 0 ⊕ get_or w m 0) 128 m h

get_or-zeros : (n m : ℕ) → get_or {A = ℕ} (replicate n 0) m 0 ≡ 0
get_or-zeros zero m = refl
get_or-zeros (suc n) zero = refl
get_or-zeros (suc n) (suc m) = get_or-zeros n m

-- The product of the specification, coefficient by coefficient.
view-times : (cs y : List ℕ) (m : ℕ) → m < 128 → get_or (times cs y) m 0 ≡ terms cs (view y) m
unfolding times terms
view-times [] y m h = get_or-zeros 128 m
view-times (c ∷ cs) y m h =
    go (view-times cs (times_x y) m h ∙ ap (λ f. terms cs f m) (fun_ext (times_x-shifted y)))
      (c == 0)
  where
    go :
        get_or (times cs (times_x y)) m 0 ≡ terms cs (shifted (view y)) m
        → (b : Bool)
        → get_or (if b then times cs (times_x y) else plus y (times cs (times_x y))) m 0
          ≡ ((if b then none else view y) ⊞ terms cs (shifted (view y))) m
    go rest true = rest ∙ sym (zero_xor (terms cs (shifted (view y)) m))
    go rest false = plus_lem y (times cs (times_x y)) m h ∙ ap (λ t. get_or y m 0 ⊕ t) rest

length-bits : (a : List ℕ) → length (bits a) ≡ 128
unfolding coefficients
length-bits a =
    ap length (bits_lem a) ∙ length-table (λ i. get_or a (i / 8) 0 / 2 ^ (7 - i % 8) % 2) 128 0

-- Once `x` has been added, `addmul` leaves the product of the field, whatever the two blocks.
pub multiply_refines : (a y : List ℕ) → multiply a y ≡ product a y
unfolding multiply product
multiply_refines a y =
    let x = bits a in
    let w = bits y in
    let conv = convolve x w in
    let conv_bits = Below-convolve x w (Below-bits a) (Below-bits y) in
    let whole = length-convolve x w (Below-bits a) (Below-bits y) (length-bits a) (length-bits y) in
    pack_lem (reduce 128 conv) (Below-reduce 128 conv conv_bits)
    ∙ block_of_congr (reduce 128 conv) (times (coefficients a) (coefficients y)) (λ m h.
      ap (λ f. f m)
        (reduce_lem conv whole conv_bits
          ∙ convolve_lem x w (Below-bits a) (Below-bits y) (length-bits a) (length-bits y))
      ∙ ap₂ (λ s t. terms s (view t) m) (bits_lem a) (bits_lem y)
      ∙ sym (view-times (coefficients a) (coefficients y) m h))

-- The loop that adds a block of at most sixteen bytes.
xor_into_lem :
    (a x : List ℕ) → length a ≡ 16 → length x ≤ 16 → xor_into a x (length x) ≡ block_sum a x
unfolding xor_into block_sum
xor_into_lem a x p q =
    get_or_ext 0 (for_range (length x) 0 add_byte a) (table summed 0 16)
      (length-updates 0 (λ i. i) (λ i j e. e) change (length x) 0 a
        ∙ p
        ∙ sym (length-table summed 16 0))
      (λ i l.
        let small : i < 16 =
          omega (arith, l, length-updates 0 (λ i. i) (λ i j e. e) change (length x) 0 a, p) in
        go i small (dec_lt i (length x)) ∙ sym (get_or-table_front summed 16 i small))
  where
    change : ℕ → ℕ → ℕ
    change i v = v ⊕ get_or x i 0

    add_byte : ℕ → List ℕ → List ℕ
    add_byte i a = set a i (get_or a i 0 ⊕ get_or x i 0)

    summed : ℕ → ℕ
    summed i = get_or a i 0 ⊕ get_or x i 0

    go :
        (i : ℕ)
        → i < 16
        → Dec (i < length x)
        → get_or (for_range (length x) 0 add_byte a) i 0 ≡ summed i
    go i small (yes l) =
        get_or-updates 0 (λ i. i) (λ i j e. e) change (length x) 0 i a (omega arith)
          (omega (arith, l)) (omega (arith, p, small))
    go i small (no l) =
        get_or-updates_outside 0 (λ i. i) (λ i j e. e) change (length x) 0 i a
          (λ m b c e. omega (arith, b, c, e, l))
        ∙ sym (
            ap (λ t. get_or a i 0 ⊕ t) (get_or_past x i (omega (arith, l)))
            ∙ xor_zero (get_or a i 0))

-- On an accumulator `a` of sixteen bytes, a block `x` of at most sixteen and any `y`, `addmul`
-- leaves in `a` the product in the field of GCM, as NIST SP 800-38D has it, of `y` and the sum
-- of `a` and `x` with zeros behind it.
pub addmul_refines :
    (a x y : List ℕ)
    → length a ≡ 16
    → length x ≤ 16
    → addmul a x (length x) y ≡ product (block_sum a x) y
unfolding addmul
addmul_refines a x y p q =
    ap (λ t. multiply t y) (xor_into_lem a x p q) ∙ multiply_refines (block_sum a x) y

pub length-product : (a y : List ℕ) → length (product a y) ≡ 16
unfolding product block_of
length-product a y = refl
