-- ===== src/Backend/F3/Mixed.antt =====
-- A mixed byte in every lane: multiplication by 2 and 3 on the eight words of a byte, and the same as sums of
-- single words.
use myrtus_psm_edge.Common.{
  ℕ, ◌+◌, ◌≡◌, refl, sym, ◌∙◌, ap, ap₂, Bool, true, false, List, [], ◌∷◌, map, get_or, length,
  array_ind, ◌⊕◌, ◌==◌, ==_iff, ◌&&◌, all_below, all_below_sound, lane, lane-xor, pack, digits_of,
  slice, arith, digits_of-slice, slice-lt_byte, Sum, var, add, value, same_sum, same_sum_sound,
  xor_words, slice-xor,
}
use myrtus_psm_edge.Backend.Spec.{double, gf_mul}
use myrtus_psm_edge.Backend.Spec.Blocks.{◌&≡◌}
use myrtus_psm_edge.Backend.Spec.Field.{mixed-double}

-- Multiplication by 2, on the eight words of a byte.
abbrev doubled : List ℕ → List ℕ
doubled w =
    let top = get_or w 7 0 in
    top
    ∷ (get_or w 0 0 ⊕ top)
    ∷ get_or w 1 0
    ∷ (get_or w 2 0 ⊕ top)
    ∷ (get_or w 3 0 ⊕ top)
    ∷ get_or w 4 0
    ∷ get_or w 5 0
    ∷ get_or w 6 0
    ∷ []

doubled-lane :
    (l : ℕ) (w : List ℕ) → length w ≡ 8 → map (lane l) (doubled w) ≡ doubled (map (lane l) w)
doubled-lane l =
    array_ind 8 (λ w. map (lane l) (doubled w) ≡ doubled (map (lane l) w))
      (λ a b c d e f g h.
        refl &≡ lane-xor l a h &≡ refl &≡ lane-xor l c h &≡ lane-xor l d h &≡ refl)

doubled_table : all_below 256 (λ x. pack (doubled (digits_of 8 x)) == double x) ≡ true
unfolding all_below double
doubled_table = refl

slice-doubled : (l : ℕ) (w : List ℕ) → length w ≡ 8 → slice l (doubled w) ≡ double (slice l w)
slice-doubled l w size =
    ap pack (doubled-lane l w size ∙ ap doubled (sym bits))
    ∙ (==_iff _ _).0 (all_below_sound 256 _ (slice l w) doubled_table (slice-lt_byte l w size))
  where
    bits : digits_of 8 (slice l w) ≡ map (lane l) w
    bits = ap (λ n. digits_of n (slice l w)) (sym size) ∙ digits_of-slice l w

-- The sums as data, over the 32 words of the four rows.
abbrev doubled_sums : List Sum → List Sum
doubled_sums w =
    let top = get_or w 7 (var 0) in
    top
    ∷ add (get_or w 0 (var 0)) top
    ∷ get_or w 1 (var 0)
    ∷ add (get_or w 2 (var 0)) top
    ∷ add (get_or w 3 (var 0)) top
    ∷ get_or w 4 (var 0)
    ∷ get_or w 5 (var 0)
    ∷ get_or w 6 (var 0)
    ∷ []

abbrev plus : List Sum → List Sum → List Sum
plus [] q = []
plus (e ∷ p) [] = []
plus (e ∷ p) (f ∷ q) = add e f ∷ plus p q

abbrev pub same_sums : List Sum → List Sum → Bool
same_sums [] [] = true
same_sums [] (f ∷ q) = false
same_sums (e ∷ p) [] = false
same_sums (e ∷ p) (f ∷ q) = same_sum e f && same_sums p q

and_both : (a b : Bool) → (a && b) ≡ true → (a ≡ true) × (b ≡ true)
and_both a b h = ground arith

pub same_sums_sound :
    (env : List ℕ) (p q : List Sum) → same_sums p q ≡ true → map (value env) p ≡ map (value env) q
same_sums_sound env [] [] h = refl
same_sums_sound env [] (f ∷ q) h = ground arith
same_sums_sound env (e ∷ p) [] h = ground arith
same_sums_sound env (e ∷ p) (f ∷ q) h =
    let both = and_both (same_sum e f) (same_sums p q) h in
    same_sum_sound env e f both.0 &≡ same_sums_sound env p q both.1

abbrev pub row : ℕ → List Sum
row i =
    var i
    ∷ var (i + 1)
    ∷ var (i + 2)
    ∷ var (i + 3)
    ∷ var (i + 4)
    ∷ var (i + 5)
    ∷ var (i + 6)
    ∷ var (i + 7)
    ∷ []

-- The sums of a mixed byte, from a row, the next one, and the other two.
abbrev pub mixed_sums : List Sum → List Sum → List Sum → List Sum → List Sum
mixed_sums x y z v = plus (plus (plus (doubled_sums x) (plus y (doubled_sums y))) z) v

-- The eight values of a function.
abbrev pub listed : (ℕ → ℕ) → List ℕ
listed a = a 0 ∷ a 1 ∷ a 2 ∷ a 3 ∷ a 4 ∷ a 5 ∷ a 6 ∷ a 7 ∷ []

pub slice-mixed :
    (l : ℕ) (x y z v : ℕ → ℕ)
    → slice l (
        xor_words
          (xor_words
            (xor_words (doubled (listed x)) (xor_words (listed y) (doubled (listed y))))
            (listed z))
          (listed v))
      ≡ gf_mul 2 (slice l (listed x))
        ⊕ gf_mul 3 (slice l (listed y))
        ⊕ slice l (listed z)
        ⊕ slice l (listed v)
slice-mixed l x y z v =
    slice-xor l
      (xor_words (xor_words (doubled (listed x)) (xor_words (listed y) (doubled (listed y))))
        (listed z))
      (listed v) refl
    ∙ ap (λ t. t ⊕ slice l (listed v))
        (slice-xor l (xor_words (doubled (listed x)) (xor_words (listed y) (doubled (listed y))))
            (listed z) refl
          ∙ ap (λ t. t ⊕ slice l (listed z))
              (slice-xor l (doubled (listed x)) (xor_words (listed y) (doubled (listed y))) refl
                ∙ ap₂ ◌⊕◌ (slice-doubled l (listed x) refl) (
                    slice-xor l (listed y) (doubled (listed y)) refl
                    ∙ ap (λ t. slice l (listed y) ⊕ t) (slice-doubled l (listed y) refl))))
    ∙ sym (
        mixed-double (slice l (listed x)) (slice l (listed y)) (slice l (listed z))
          (slice l (listed v)))

abbrev pub four_rows : (ℕ → ℕ) → (ℕ → ℕ) → (ℕ → ℕ) → (ℕ → ℕ) → List ℕ
four_rows a b c d =
    a 0
    ∷ a 1
    ∷ a 2
    ∷ a 3
    ∷ a 4
    ∷ a 5
    ∷ a 6
    ∷ a 7
    ∷ b 0
    ∷ b 1
    ∷ b 2
    ∷ b 3
    ∷ b 4
    ∷ b 5
    ∷ b 6
    ∷ b 7
    ∷ c 0
    ∷ c 1
    ∷ c 2
    ∷ c 3
    ∷ c 4
    ∷ c 5
    ∷ c 6
    ∷ c 7
    ∷ d 0
    ∷ d 1
    ∷ d 2
    ∷ d 3
    ∷ d 4
    ∷ d 5
    ∷ d 6
    ∷ d 7
    ∷ []
