-- ===== src/Backend/F3/Stack.antt =====
-- The arrays of bs.c: those on the stack are written in full before they are read, and all keep their length.
use myrtus_psm_edge.Common.{
  ℕ, ◌*◌, ◌≡◌, refl, ◌∙◌, ap, List, get_or, length, array_ind, ◌⊕◌, ◌+◌, replicate, length-updates,
  length-set, set, for_range_inv,
}
use myrtus_psm_edge.Backend.F3.Sbox.{bs_sbox}
use myrtus_psm_edge.Backend.F3.Slices.{
  octet, move, bs_apply_sbox, bs_addroundkey, bs_shiftrows, shift_round, bs_shiftmix, mix_round,
}

-- The arrays on the stack are written in full, before they are read.
pub shiftrows_fresh :
    (bp b : List ℕ) → length bp ≡ 128 → bs_shiftrows bp b ≡ bs_shiftrows (replicate 128 0) b
unfolding bs_shiftrows shift_round
shiftrows_fresh bp b =
    array_ind 128 (λ bp. bs_shiftrows bp b ≡ bs_shiftrows (replicate 128 0) b)
      (λ y0 y1 y2 y3 y4 y5 y6 y7 y8 y9 y10 y11 y12 y13 y14 y15 y16 y17 y18 y19 y20 y21 y22 y23 y24
          y25 y26 y27 y28 y29 y30 y31 y32 y33 y34 y35 y36 y37 y38 y39 y40 y41 y42 y43 y44 y45 y46
          y47 y48 y49 y50 y51 y52 y53 y54 y55 y56 y57 y58 y59 y60 y61 y62 y63 y64 y65 y66 y67 y68
          y69 y70 y71 y72 y73 y74 y75 y76 y77 y78 y79 y80 y81 y82 y83 y84 y85 y86 y87 y88 y89 y90
          y91 y92 y93 y94 y95 y96 y97 y98 y99 y100 y101 y102 y103 y104 y105 y106 y107 y108 y109 y110
          y111 y112 y113 y114 y115 y116 y117 y118 y119 y120 y121 y122 y123 y124 y125 y126 y127.
        refl)
      bp

pub shiftmix_fresh :
    (bp b : List ℕ) → length bp ≡ 128 → bs_shiftmix bp b ≡ bs_shiftmix (replicate 128 0) b
unfolding bs_shiftmix mix_round
shiftmix_fresh bp b =
    array_ind 128 (λ bp. bs_shiftmix bp b ≡ bs_shiftmix (replicate 128 0) b)
      (λ y0 y1 y2 y3 y4 y5 y6 y7 y8 y9 y10 y11 y12 y13 y14 y15 y16 y17 y18 y19 y20 y21 y22 y23 y24
          y25 y26 y27 y28 y29 y30 y31 y32 y33 y34 y35 y36 y37 y38 y39 y40 y41 y42 y43 y44 y45 y46
          y47 y48 y49 y50 y51 y52 y53 y54 y55 y56 y57 y58 y59 y60 y61 y62 y63 y64 y65 y66 y67 y68
          y69 y70 y71 y72 y73 y74 y75 y76 y77 y78 y79 y80 y81 y82 y83 y84 y85 y86 y87 y88 y89 y90
          y91 y92 y93 y94 y95 y96 y97 y98 y99 y100 y101 y102 y103 y104 y105 y106 y107 y108 y109 y110
          y111 y112 y113 y114 y115 y116 y117 y118 y119 y120 y121 y122 y123 y124 y125 y126 y127.
        refl)
      bp

-- The arrays keep their 128 words.
pub length-bs_addroundkey : (b rk : List ℕ) → length (bs_addroundkey b rk) ≡ length b
unfolding bs_addroundkey
length-bs_addroundkey b rk =
    length-updates 0 (λ i. i) (λ i j e. e) (λ i x. x ⊕ get_or rk i 0) 128 0 b

length-move : (s : List ℕ) (off : ℕ) (src : List ℕ) → length (move 8 s off src) ≡ length s
length-move s off src =
    for_range_inv (λ m. length m ≡ length s) (λ i m. set m (off + i) (get_or src i 0))
      (λ i m e. length-set m (off + i) (get_or src i 0) ∙ e) 8 0 s refl

pub length-bs_apply_sbox : (b : List ℕ) → length b ≡ 128 → length (bs_apply_sbox b) ≡ 128
unfolding bs_apply_sbox
length-bs_apply_sbox b h =
    for_range_inv (λ s. length s ≡ 128) (λ k s. move 8 s (8 * k) (bs_sbox (octet s (8 * k))))
      (λ k s e. length-move s (8 * k) (bs_sbox (octet s (8 * k))) ∙ e) 16 0 b h

pub length-bs_shiftrows : (bp b : List ℕ) → length bp ≡ 128 → length (bs_shiftrows bp b) ≡ 128
unfolding bs_shiftrows shift_round
length-bs_shiftrows bp b h = ap length (shiftrows_fresh bp b h)

pub length-bs_shiftmix : (bp b : List ℕ) → length bp ≡ 128 → length (bs_shiftmix bp b) ≡ 128
unfolding bs_shiftmix mix_round
length-bs_shiftmix bp b h = ap length (shiftmix_fresh bp b h)
