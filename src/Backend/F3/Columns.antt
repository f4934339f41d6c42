-- ===== src/Backend/F3/Columns.antt =====
-- The words of a mixed column, in every lane: the sums of `bs_shiftmix` against multiplication by 2 and 3.
use myrtus_psm_edge.Common.{ℕ, ◌≡◌, refl, ◌∙◌, ap, List, [], ◌∷◌, ◌⊕◌, slice, Sum, var, add}
use myrtus_psm_edge.Backend.Spec.{gf_mul}
use myrtus_psm_edge.Backend.F3.Slices.{mixed_0, mixed_1, mixed_2, mixed_3}
use myrtus_psm_edge.Backend.F3.Mixed.{
  same_sums_sound, row, mixed_sums, four_rows, listed, slice-mixed,
}

quoted_0 : List Sum
quoted_0 =
    let over = add (var 7) (var 15) in
    add (add (add (var 8) (var 16)) (var 24)) over
    ∷ add (add (add (add (add (var 0) (var 8)) (var 9)) (var 17)) (var 25)) over
    ∷ add (add (add (add (var 1) (var 9)) (var 10)) (var 18)) (var 26)
    ∷ add (add (add (add (add (var 2) (var 10)) (var 11)) (var 19)) (var 27)) over
    ∷ add (add (add (add (add (var 3) (var 11)) (var 12)) (var 20)) (var 28)) over
    ∷ add (add (add (add (var 4) (var 12)) (var 13)) (var 21)) (var 29)
    ∷ add (add (add (add (var 5) (var 13)) (var 14)) (var 22)) (var 30)
    ∷ add (add (add (add (var 6) (var 14)) (var 15)) (var 23)) (var 31)
    ∷ []

pub slice-mixed_0 :
    (l : ℕ) (a b c d : ℕ → ℕ)
    → slice l (mixed_0 a b c d)
      ≡ gf_mul 2 (slice l (listed a))
        ⊕ gf_mul 3 (slice l (listed b))
        ⊕ slice l (listed c)
        ⊕ slice l (listed d)
unfolding quoted_0
slice-mixed_0 l a b c d =
    ap (slice l) (
      same_sums_sound (four_rows a b c d) quoted_0 (mixed_sums (row 0) (row 8) (row 16) (row 24))
        refl)
    ∙ slice-mixed l a b c d

quoted_1 : List Sum
quoted_1 =
    let over = add (var 15) (var 23) in
    add (add (add (var 0) (var 16)) (var 24)) over
    ∷ add (add (add (add (add (var 1) (var 8)) (var 16)) (var 17)) (var 25)) over
    ∷ add (add (add (add (var 2) (var 9)) (var 17)) (var 18)) (var 26)
    ∷ add (add (add (add (add (var 3) (var 10)) (var 18)) (var 19)) (var 27)) over
    ∷ add (add (add (add (add (var 4) (var 11)) (var 19)) (var 20)) (var 28)) over
    ∷ add (add (add (add (var 5) (var 12)) (var 20)) (var 21)) (var 29)
    ∷ add (add (add (add (var 6) (var 13)) (var 21)) (var 22)) (var 30)
    ∷ add (add (add (add (var 7) (var 14)) (var 22)) (var 23)) (var 31)
    ∷ []

pub slice-mixed_1 :
    (l : ℕ) (a b c d : ℕ → ℕ)
    → slice l (mixed_1 a b c d)
      ≡ gf_mul 2 (slice l (listed b))
        ⊕ gf_mul 3 (slice l (listed c))
        ⊕ slice l (listed d)
        ⊕ slice l (listed a)
unfolding quoted_1
slice-mixed_1 l a b c d =
    ap (slice l) (
      same_sums_sound (four_rows a b c d) quoted_1 (mixed_sums (row 8) (row 16) (row 24) (row 0))
        refl)
    ∙ slice-mixed l b c d a

quoted_2 : List Sum
quoted_2 =
    let over = add (var 23) (var 31) in
    add (add (add (var 0) (var 8)) (var 24)) over
    ∷ add (add (add (add (add (var 1) (var 9)) (var 16)) (var 24)) (var 25)) over
    ∷ add (add (add (add (var 2) (var 10)) (var 17)) (var 25)) (var 26)
    ∷ add (add (add (add (add (var 3) (var 11)) (var 18)) (var 26)) (var 27)) over
    ∷ add (add (add (add (add (var 4) (var 12)) (var 19)) (var 27)) (var 28)) over
    ∷ add (add (add (add (var 5) (var 13)) (var 20)) (var 28)) (var 29)
    ∷ add (add (add (add (var 6) (var 14)) (var 21)) (var 29)) (var 30)
    ∷ add (add (add (add (var 7) (var 15)) (var 22)) (var 30)) (var 31)
    ∷ []

pub slice-mixed_2 :
    (l : ℕ) (a b c d : ℕ → ℕ)
    → slice l (mixed_2 a b c d)
      ≡ gf_mul 2 (slice l (listed c))
        ⊕ gf_mul 3 (slice l (listed d))
        ⊕ slice l (listed a)
        ⊕ slice l (listed b)
unfolding quoted_2
slice-mixed_2 l a b c d =
    ap (slice l) (
      same_sums_sound (four_rows a b c d) quoted_2 (mixed_sums (row 16) (row 24) (row 0) (row 8))
        refl)
    ∙ slice-mixed l c d a b

quoted_3 : List Sum
quoted_3 =
    let over = add (var 7) (var 31) in
    add (add (add (var 0) (var 8)) (var 16)) over
    ∷ add (add (add (add (add (var 1) (var 0)) (var 9)) (var 17)) (var 24)) over
    ∷ add (add (add (add (var 2) (var 1)) (var 10)) (var 18)) (var 25)
    ∷ add (add (add (add (add (var 3) (var 2)) (var 11)) (var 19)) (var 26)) over
    ∷ add (add (add (add (add (var 4) (var 3)) (var 12)) (var 20)) (var 27)) over
    ∷ add (add (add (add (var 5) (var 4)) (var 13)) (var 21)) (var 28)
    ∷ add (add (add (add (var 6) (var 5)) (var 14)) (var 22)) (var 29)
    ∷ add (add (add (add (var 7) (var 6)) (var 15)) (var 23)) (var 30)
    ∷ []

pub slice-mixed_3 :
    (l : ℕ) (a b c d : ℕ → ℕ)
    → slice l (mixed_3 a b c d)
      ≡ gf_mul 2 (slice l (listed d))
        ⊕ gf_mul 3 (slice l (listed a))
        ⊕ slice l (listed b)
        ⊕ slice l (listed c)
unfolding quoted_3
slice-mixed_3 l a b c d =
    ap (slice l) (
      same_sums_sound (four_rows a b c d) quoted_3 (mixed_sums (row 24) (row 0) (row 8) (row 16))
        refl)
    ∙ slice-mixed l d a b c
