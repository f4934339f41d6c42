-- ===== src/Backend/F3/Sbox.antt =====
-- `bs_sbox` of backends/f3/bs.c: the S-box on eight words, where word `i` has bit `i` of one byte in each
-- of its 64 lanes.
use myrtus_psm_edge.Common.{ℕ, ◌-◌, ◌^◌, List, [], ◌∷◌, get_or, ◌⊕◌, bit_and}

-- `~x` on a word.
abbrev pub complement : ℕ → ℕ
complement x = (2 ^ 64 - 1) ⊕ x

-- The gates on the words, from the last word to the first.
unfoldable pub gates : ℕ → ℕ → ℕ → ℕ → ℕ → ℕ → ℕ → ℕ → List ℕ
gates u0 u1 u2 u3 u4 u5 u6 u7 =
    let t1 = u7 ⊕ u4 in
    let t2 = u7 ⊕ u2 in
    let t3 = u7 ⊕ u1 in
    let t4 = u4 ⊕ u2 in
    let t5 = u3 ⊕ u1 in
    let t6 = t1 ⊕ t5 in
    let t7 = u6 ⊕ u5 in
    let t8 = u0 ⊕ t6 in
    let t9 = u0 ⊕ t7 in
    let t10 = t6 ⊕ t7 in
    let t11 = u6 ⊕ u2 in
    let t12 = u5 ⊕ u2 in
    let t13 = t3 ⊕ t4 in
    let t14 = t6 ⊕ t11 in
    let t15 = t5 ⊕ t11 in
    let t16 = t5 ⊕ t12 in
    let t17 = t9 ⊕ t16 in
    let t18 = u4 ⊕ u0 in
    let t19 = t7 ⊕ t18 in
    let t20 = t1 ⊕ t19 in
    let t21 = u1 ⊕ u0 in
    let t22 = t7 ⊕ t21 in
    let t23 = t2 ⊕ t22 in
    let t24 = t2 ⊕ t10 in
    let t25 = t20 ⊕ t17 in
    let t26 = t3 ⊕ t16 in
    let t27 = t1 ⊕ t12 in
    let m1 = bit_and t13 t6 in
    let m2 = bit_and t23 t8 in
    let m3 = t14 ⊕ m1 in
    let m4 = bit_and t19 u0 in
    let m5 = m4 ⊕ m1 in
    let m6 = bit_and t3 t16 in
    let m7 = bit_and t22 t9 in
    let m8 = t26 ⊕ m6 in
    let m9 = bit_and t20 t17 in
    let m10 = m9 ⊕ m6 in
    let m11 = bit_and t1 t15 in
    let m12 = bit_and t4 t27 in
    let m13 = m12 ⊕ m11 in
    let m14 = bit_and t2 t10 in
    let m15 = m14 ⊕ m11 in
    let m16 = m3 ⊕ m2 in
    let m17 = m5 ⊕ t24 in
    let m18 = m8 ⊕ m7 in
    let m19 = m10 ⊕ m15 in
    let m20 = m16 ⊕ m13 in
    let m21 = m17 ⊕ m15 in
    let m22 = m18 ⊕ m13 in
    let m23 = m19 ⊕ t25 in
    let m24 = m22 ⊕ m23 in
    let m25 = bit_and m22 m20 in
    let m26 = m21 ⊕ m25 in
    let m27 = m20 ⊕ m21 in
    let m28 = m23 ⊕ m25 in
    let m29 = bit_and m28 m27 in
    let m30 = bit_and m26 m24 in
    let m31 = bit_and m20 m23 in
    let m32 = bit_and m27 m31 in
    let m33 = m27 ⊕ m25 in
    let m34 = bit_and m21 m22 in
    let m35 = bit_and m24 m34 in
    let m36 = m24 ⊕ m25 in
    let m37 = m21 ⊕ m29 in
    let m38 = m32 ⊕ m33 in
    let m39 = m23 ⊕ m30 in
    let m40 = m35 ⊕ m36 in
    let m41 = m38 ⊕ m40 in
    let m42 = m37 ⊕ m39 in
    let m43 = m37 ⊕ m38 in
    let m44 = m39 ⊕ m40 in
    let m45 = m42 ⊕ m41 in
    let m46 = bit_and m44 t6 in
    let m47 = bit_and m40 t8 in
    let m48 = bit_and m39 u0 in
    let m49 = bit_and m43 t16 in
    let m50 = bit_and m38 t9 in
    let m51 = bit_and m37 t17 in
    let m52 = bit_and m42 t15 in
    let m53 = bit_and m45 t27 in
    let m54 = bit_and m41 t10 in
    let m55 = bit_and m44 t13 in
    let m56 = bit_and m40 t23 in
    let m57 = bit_and m39 t19 in
    let m58 = bit_and m43 t3 in
    let m59 = bit_and m38 t22 in
    let m60 = bit_and m37 t20 in
    let m61 = bit_and m42 t1 in
    let m62 = bit_and m45 t4 in
    let m63 = bit_and m41 t2 in
    let l0 = m61 ⊕ m62 in
    let l1 = m50 ⊕ m56 in
    let l2 = m46 ⊕ m48 in
    let l3 = m47 ⊕ m55 in
    let l4 = m54 ⊕ m58 in
    let l5 = m49 ⊕ m61 in
    let l6 = m62 ⊕ l5 in
    let l7 = m46 ⊕ l3 in
    let l8 = m51 ⊕ m59 in
    let l9 = m52 ⊕ m53 in
    let l10 = m53 ⊕ l4 in
    let l11 = m60 ⊕ l2 in
    let l12 = m48 ⊕ m51 in
    let l13 = m50 ⊕ l0 in
    let l14 = m52 ⊕ m61 in
    let l15 = m55 ⊕ l1 in
    let l16 = m56 ⊕ l0 in
    let l17 = m57 ⊕ l1 in
    let l18 = m58 ⊕ l8 in
    let l19 = m63 ⊕ l4 in
    let l20 = l0 ⊕ l1 in
    let l21 = l1 ⊕ l7 in
    let l22 = l3 ⊕ l12 in
    let l23 = l18 ⊕ l2 in
    let l24 = l15 ⊕ l9 in
    let l25 = l6 ⊕ l10 in
    let l26 = l7 ⊕ l9 in
    let l27 = l8 ⊕ l10 in
    let l28 = l11 ⊕ l14 in
    let l29 = l11 ⊕ l17 in
    let s7 = l6 ⊕ l24 in
    let s6 = complement (l16 ⊕ l26) in
    let s5 = complement (l19 ⊕ l28) in
    let s4 = l6 ⊕ l21 in
    let s3 = l20 ⊕ l22 in
    let s2 = l25 ⊕ l29 in
    let s1 = complement (l13 ⊕ l27) in
    let s0 = complement (l6 ⊕ l23) in s0 ∷ s1 ∷ s2 ∷ s3 ∷ s4 ∷ s5 ∷ s6 ∷ s7 ∷ []

unfoldable pub bs_sbox : List ℕ → List ℕ
bs_sbox u =
    gates (get_or u 0 0) (get_or u 1 0) (get_or u 2 0) (get_or u 3 0) (get_or u 4 0) (get_or u 5 0)
      (get_or u 6 0) (get_or u 7 0)
