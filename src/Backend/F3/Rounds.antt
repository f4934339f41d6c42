-- ===== src/Backend/F3/Rounds.antt =====
-- The steps of bs.c on transposed blocks, lane by lane, against those of the specification.
use myrtus_psm_edge.Common.{
  ℕ, ◌*◌, ◌<◌, ◌≡◌, refl, ◌∙◌, ap, List, [], ◌∷◌, map, get_or, length, array_ind, slice, xor_words,
  slice-xor, replicate,
}
use myrtus_psm_edge.Backend.Spec
use myrtus_psm_edge.Backend.Spec.Blocks.{◌&≡◌}
use myrtus_psm_edge.Backend.F3.Sbox.{bs_sbox, gates}
use myrtus_psm_edge.Backend.F3.Circuit.{slice-bs_sbox}
use myrtus_psm_edge.Backend.F3.Columns.{slice-mixed_0, slice-mixed_1, slice-mixed_2, slice-mixed_3}
use myrtus_psm_edge.Backend.F3.Slices.{
  octet, bs_apply_sbox, bs_addroundkey, bs_shiftrows, shift_round, bs_shiftmix, mix_round,
}
use myrtus_psm_edge.Backend.F3.Stack.{shiftrows_fresh, shiftmix_fresh}

-- The 16 bytes in lane `l` of an array of 128 words.
unfoldable pub block : ℕ → List ℕ → List ℕ
block l b = map (λ i. slice l (octet b (8 * i))) (Spec.range_from 0 16)

abbrev get_at : List ℕ → ℕ → ℕ
get_at s k = get_or s k 0

octet_self : (s : List ℕ) → length s ≡ 8 → octet s 0 ≡ s
octet_self = array_ind 8 (λ s. octet s 0 ≡ s) (λ a b c d e f g h. refl)

length-bs_sbox : (u : List ℕ) → length (bs_sbox u) ≡ 8
unfolding bs_sbox gates
length-bs_sbox u = refl

sboxed :
    (l : ℕ) (u : List ℕ)
    → l < 64
    → length u ≡ 8
    → slice l (octet (bs_sbox u) 0) ≡ Spec.sbox (slice l u)
sboxed l u p h = ap (slice l) (octet_self _ (length-bs_sbox u)) ∙ slice-bs_sbox l u p h

pub block-bs_apply_sbox :
    (l : ℕ) (b : List ℕ)
    → l < 64
    → length b ≡ 128
    → block l (bs_apply_sbox b) ≡ Spec.sub_bytes (block l b)
unfolding block bs_apply_sbox Spec.sub_bytes
block-bs_apply_sbox l b fits =
    array_ind 128 (λ b. block l (bs_apply_sbox b) ≡ Spec.sub_bytes (block l b))
      (λ x0 x1 x2 x3 x4 x5 x6 x7 x8 x9 x10 x11 x12 x13 x14 x15 x16 x17 x18 x19 x20 x21 x22 x23 x24
          x25 x26 x27 x28 x29 x30 x31 x32 x33 x34 x35 x36 x37 x38 x39 x40 x41 x42 x43 x44 x45 x46
          x47 x48 x49 x50 x51 x52 x53 x54 x55 x56 x57 x58 x59 x60 x61 x62 x63 x64 x65 x66 x67 x68
          x69 x70 x71 x72 x73 x74 x75 x76 x77 x78 x79 x80 x81 x82 x83 x84 x85 x86 x87 x88 x89 x90
          x91 x92 x93 x94 x95 x96 x97 x98 x99 x100 x101 x102 x103 x104 x105 x106 x107 x108 x109 x110
          x111 x112 x113 x114 x115 x116 x117 x118 x119 x120 x121 x122 x123 x124 x125 x126 x127.
        sboxed l (x0 ∷ x1 ∷ x2 ∷ x3 ∷ x4 ∷ x5 ∷ x6 ∷ x7 ∷ []) fits refl
        &≡ sboxed l (x8 ∷ x9 ∷ x10 ∷ x11 ∷ x12 ∷ x13 ∷ x14 ∷ x15 ∷ []) fits refl
        &≡ sboxed l (x16 ∷ x17 ∷ x18 ∷ x19 ∷ x20 ∷ x21 ∷ x22 ∷ x23 ∷ []) fits refl
        &≡ sboxed l (x24 ∷ x25 ∷ x26 ∷ x27 ∷ x28 ∷ x29 ∷ x30 ∷ x31 ∷ []) fits refl
        &≡ sboxed l (x32 ∷ x33 ∷ x34 ∷ x35 ∷ x36 ∷ x37 ∷ x38 ∷ x39 ∷ []) fits refl
        &≡ sboxed l (x40 ∷ x41 ∷ x42 ∷ x43 ∷ x44 ∷ x45 ∷ x46 ∷ x47 ∷ []) fits refl
        &≡ sboxed l (x48 ∷ x49 ∷ x50 ∷ x51 ∷ x52 ∷ x53 ∷ x54 ∷ x55 ∷ []) fits refl
        &≡ sboxed l (x56 ∷ x57 ∷ x58 ∷ x59 ∷ x60 ∷ x61 ∷ x62 ∷ x63 ∷ []) fits refl
        &≡ sboxed l (x64 ∷ x65 ∷ x66 ∷ x67 ∷ x68 ∷ x69 ∷ x70 ∷ x71 ∷ []) fits refl
        &≡ sboxed l (x72 ∷ x73 ∷ x74 ∷ x75 ∷ x76 ∷ x77 ∷ x78 ∷ x79 ∷ []) fits refl
        &≡ sboxed l (x80 ∷ x81 ∷ x82 ∷ x83 ∷ x84 ∷ x85 ∷ x86 ∷ x87 ∷ []) fits refl
        &≡ sboxed l (x88 ∷ x89 ∷ x90 ∷ x91 ∷ x92 ∷ x93 ∷ x94 ∷ x95 ∷ []) fits refl
        &≡ sboxed l (x96 ∷ x97 ∷ x98 ∷ x99 ∷ x100 ∷ x101 ∷ x102 ∷ x103 ∷ []) fits refl
        &≡ sboxed l (x104 ∷ x105 ∷ x106 ∷ x107 ∷ x108 ∷ x109 ∷ x110 ∷ x111 ∷ []) fits refl
        &≡ sboxed l (x112 ∷ x113 ∷ x114 ∷ x115 ∷ x116 ∷ x117 ∷ x118 ∷ x119 ∷ []) fits refl
        &≡ sboxed l (x120 ∷ x121 ∷ x122 ∷ x123 ∷ x124 ∷ x125 ∷ x126 ∷ x127 ∷ []) fits refl
        &≡ refl)
      b

pub block-bs_addroundkey :
    (l : ℕ) (b rk : List ℕ)
    → length b ≡ 128
    → block l (bs_addroundkey b rk) ≡ xor_words (block l b) (block l rk)
unfolding block bs_addroundkey
block-bs_addroundkey l b rk =
    array_ind 128 (λ b. block l (bs_addroundkey b rk) ≡ xor_words (block l b) (block l rk))
      (λ x0 x1 x2 x3 x4 x5 x6 x7 x8 x9 x10 x11 x12 x13 x14 x15 x16 x17 x18 x19 x20 x21 x22 x23 x24
          x25 x26 x27 x28 x29 x30 x31 x32 x33 x34 x35 x36 x37 x38 x39 x40 x41 x42 x43 x44 x45 x46
          x47 x48 x49 x50 x51 x52 x53 x54 x55 x56 x57 x58 x59 x60 x61 x62 x63 x64 x65 x66 x67 x68
          x69 x70 x71 x72 x73 x74 x75 x76 x77 x78 x79 x80 x81 x82 x83 x84 x85 x86 x87 x88 x89 x90
          x91 x92 x93 x94 x95 x96 x97 x98 x99 x100 x101 x102 x103 x104 x105 x106 x107 x108 x109 x110
          x111 x112 x113 x114 x115 x116 x117 x118 x119 x120 x121 x122 x123 x124 x125 x126 x127.
        slice-xor l (x0 ∷ x1 ∷ x2 ∷ x3 ∷ x4 ∷ x5 ∷ x6 ∷ x7 ∷ []) (octet rk 0) refl
        &≡ slice-xor l (x8 ∷ x9 ∷ x10 ∷ x11 ∷ x12 ∷ x13 ∷ x14 ∷ x15 ∷ []) (octet rk 8) refl
        &≡ slice-xor l (x16 ∷ x17 ∷ x18 ∷ x19 ∷ x20 ∷ x21 ∷ x22 ∷ x23 ∷ []) (octet rk 16) refl
        &≡ slice-xor l (x24 ∷ x25 ∷ x26 ∷ x27 ∷ x28 ∷ x29 ∷ x30 ∷ x31 ∷ []) (octet rk 24) refl
        &≡ slice-xor l (x32 ∷ x33 ∷ x34 ∷ x35 ∷ x36 ∷ x37 ∷ x38 ∷ x39 ∷ []) (octet rk 32) refl
        &≡ slice-xor l (x40 ∷ x41 ∷ x42 ∷ x43 ∷ x44 ∷ x45 ∷ x46 ∷ x47 ∷ []) (octet rk 40) refl
        &≡ slice-xor l (x48 ∷ x49 ∷ x50 ∷ x51 ∷ x52 ∷ x53 ∷ x54 ∷ x55 ∷ []) (octet rk 48) refl
        &≡ slice-xor l (x56 ∷ x57 ∷ x58 ∷ x59 ∷ x60 ∷ x61 ∷ x62 ∷ x63 ∷ []) (octet rk 56) refl
        &≡ slice-xor l (x64 ∷ x65 ∷ x66 ∷ x67 ∷ x68 ∷ x69 ∷ x70 ∷ x71 ∷ []) (octet rk 64) refl
        &≡ slice-xor l (x72 ∷ x73 ∷ x74 ∷ x75 ∷ x76 ∷ x77 ∷ x78 ∷ x79 ∷ []) (octet rk 72) refl
        &≡ slice-xor l (x80 ∷ x81 ∷ x82 ∷ x83 ∷ x84 ∷ x85 ∷ x86 ∷ x87 ∷ []) (octet rk 80) refl
        &≡ slice-xor l (x88 ∷ x89 ∷ x90 ∷ x91 ∷ x92 ∷ x93 ∷ x94 ∷ x95 ∷ []) (octet rk 88) refl
        &≡ slice-xor l (x96 ∷ x97 ∷ x98 ∷ x99 ∷ x100 ∷ x101 ∷ x102 ∷ x103 ∷ []) (octet rk 96) refl
        &≡ slice-xor l (x104 ∷ x105 ∷ x106 ∷ x107 ∷ x108 ∷ x109 ∷ x110 ∷ x111 ∷ []) (octet rk 104)
            refl
        &≡ slice-xor l (x112 ∷ x113 ∷ x114 ∷ x115 ∷ x116 ∷ x117 ∷ x118 ∷ x119 ∷ []) (octet rk 112)
            refl
        &≡ slice-xor l (x120 ∷ x121 ∷ x122 ∷ x123 ∷ x124 ∷ x125 ∷ x126 ∷ x127 ∷ []) (octet rk 120)
            refl
        &≡ refl)
      b

pub block-bs_shiftrows :
    (l : ℕ) (bp b : List ℕ)
    → length bp ≡ 128
    → length b ≡ 128
    → block l (bs_shiftrows bp b) ≡ Spec.shift_rows (block l b)
unfolding block bs_shiftrows shift_round Spec.shift_rows
block-bs_shiftrows l bp b p q =
    ap (block l) (shiftrows_fresh bp b p)
    ∙ array_ind 128 (λ b. block l (bs_shiftrows (replicate 128 0) b) ≡ Spec.shift_rows (block l b))
        (λ x0 x1 x2 x3 x4 x5 x6 x7 x8 x9 x10 x11 x12 x13 x14 x15 x16 x17 x18 x19 x20 x21 x22 x23 x24
            x25 x26 x27 x28 x29 x30 x31 x32 x33 x34 x35 x36 x37 x38 x39 x40 x41 x42 x43 x44 x45 x46
            x47 x48 x49 x50 x51 x52 x53 x54 x55 x56 x57 x58 x59 x60 x61 x62 x63 x64 x65 x66 x67 x68
            x69 x70 x71 x72 x73 x74 x75 x76 x77 x78 x79 x80 x81 x82 x83 x84 x85 x86 x87 x88 x89 x90
            x91 x92 x93 x94 x95 x96 x97 x98 x99 x100 x101 x102 x103 x104 x105 x106 x107 x108 x109
            x110 x111 x112 x113 x114 x115 x116 x117 x118 x119 x120 x121 x122 x123 x124 x125 x126
            x127.
          refl)
        b q

-- In every lane, `bs_shiftmix` on arrays of 128 words does to the block what ShiftRows and
-- then MixColumns of FIPS 197 do.
pub block-bs_shiftmix :
    (l : ℕ) (bp b : List ℕ)
    → length bp ≡ 128
    → length b ≡ 128
    → block l (bs_shiftmix bp b) ≡ Spec.mix_columns (Spec.shift_rows (block l b))
unfolding block bs_shiftmix mix_round Spec.shift_rows Spec.mix_columns
block-bs_shiftmix l bp b p q =
    ap (block l) (shiftmix_fresh bp b p)
    ∙ array_ind 128
        (λ b.
          block l (bs_shiftmix (replicate 128 0) b)
          ≡ Spec.mix_columns (Spec.shift_rows (block l b)))
        (λ x0 x1 x2 x3 x4 x5 x6 x7 x8 x9 x10 x11 x12 x13 x14 x15 x16 x17 x18 x19 x20 x21 x22 x23 x24
            x25 x26 x27 x28 x29 x30 x31 x32 x33 x34 x35 x36 x37 x38 x39 x40 x41 x42 x43 x44 x45 x46
            x47 x48 x49 x50 x51 x52 x53 x54 x55 x56 x57 x58 x59 x60 x61 x62 x63 x64 x65 x66 x67 x68
            x69 x70 x71 x72 x73 x74 x75 x76 x77 x78 x79 x80 x81 x82 x83 x84 x85 x86 x87 x88 x89 x90
            x91 x92 x93 x94 x95 x96 x97 x98 x99 x100 x101 x102 x103 x104 x105 x106 x107 x108 x109
            x110 x111 x112 x113 x114 x115 x116 x117 x118 x119 x120 x121 x122 x123 x124 x125 x126
            x127.
          slice-mixed_0 l (get_at (x0 ∷ x1 ∷ x2 ∷ x3 ∷ x4 ∷ x5 ∷ x6 ∷ x7 ∷ []))
            (get_at (x40 ∷ x41 ∷ x42 ∷ x43 ∷ x44 ∷ x45 ∷ x46 ∷ x47 ∷ []))
            (get_at (x80 ∷ x81 ∷ x82 ∷ x83 ∷ x84 ∷ x85 ∷ x86 ∷ x87 ∷ []))
            (get_at (x120 ∷ x121 ∷ x122 ∷ x123 ∷ x124 ∷ x125 ∷ x126 ∷ x127 ∷ []))
          &≡ slice-mixed_1 l (get_at (x0 ∷ x1 ∷ x2 ∷ x3 ∷ x4 ∷ x5 ∷ x6 ∷ x7 ∷ []))
              (get_at (x40 ∷ x41 ∷ x42 ∷ x43 ∷ x44 ∷ x45 ∷ x46 ∷ x47 ∷ []))
              (get_at (x80 ∷ x81 ∷ x82 ∷ x83 ∷ x84 ∷ x85 ∷ x86 ∷ x87 ∷ []))
              (get_at (x120 ∷ x121 ∷ x122 ∷ x123 ∷ x124 ∷ x125 ∷ x126 ∷ x127 ∷ []))
          &≡ slice-mixed_2 l (get_at (x0 ∷ x1 ∷ x2 ∷ x3 ∷ x4 ∷ x5 ∷ x6 ∷ x7 ∷ []))
              (get_at (x40 ∷ x41 ∷ x42 ∷ x43 ∷ x44 ∷ x45 ∷ x46 ∷ x47 ∷ []))
              (get_at (x80 ∷ x81 ∷ x82 ∷ x83 ∷ x84 ∷ x85 ∷ x86 ∷ x87 ∷ []))
              (get_at (x120 ∷ x121 ∷ x122 ∷ x123 ∷ x124 ∷ x125 ∷ x126 ∷ x127 ∷ []))
          &≡ slice-mixed_3 l (get_at (x0 ∷ x1 ∷ x2 ∷ x3 ∷ x4 ∷ x5 ∷ x6 ∷ x7 ∷ []))
              (get_at (x40 ∷ x41 ∷ x42 ∷ x43 ∷ x44 ∷ x45 ∷ x46 ∷ x47 ∷ []))
              (get_at (x80 ∷ x81 ∷ x82 ∷ x83 ∷ x84 ∷ x85 ∷ x86 ∷ x87 ∷ []))
              (get_at (x120 ∷ x121 ∷ x122 ∷ x123 ∷ x124 ∷ x125 ∷ x126 ∷ x127 ∷ []))
          &≡ slice-mixed_0 l (get_at (x32 ∷ x33 ∷ x34 ∷ x35 ∷ x36 ∷ x37 ∷ x38 ∷ x39 ∷ []))
              (get_at (x72 ∷ x73 ∷ x74 ∷ x75 ∷ x76 ∷ x77 ∷ x78 ∷ x79 ∷ []))
              (get_at (x112 ∷ x113 ∷ x114 ∷ x115 ∷ x116 ∷ x117 ∷ x118 ∷ x119 ∷ []))
              (get_at (x24 ∷ x25 ∷ x26 ∷ x27 ∷ x28 ∷ x29 ∷ x30 ∷ x31 ∷ []))
          &≡ slice-mixed_1 l (get_at (x32 ∷ x33 ∷ x34 ∷ x35 ∷ x36 ∷ x37 ∷ x38 ∷ x39 ∷ []))
              (get_at (x72 ∷ x73 ∷ x74 ∷ x75 ∷ x76 ∷ x77 ∷ x78 ∷ x79 ∷ []))
              (get_at (x112 ∷ x113 ∷ x114 ∷ x115 ∷ x116 ∷ x117 ∷ x118 ∷ x119 ∷ []))
              (get_at (x24 ∷ x25 ∷ x26 ∷ x27 ∷ x28 ∷ x29 ∷ x30 ∷ x31 ∷ []))
          &≡ slice-mixed_2 l (get_at (x32 ∷ x33 ∷ x34 ∷ x35 ∷ x36 ∷ x37 ∷ x38 ∷ x39 ∷ []))
              (get_at (x72 ∷ x73 ∷ x74 ∷ x75 ∷ x76 ∷ x77 ∷ x78 ∷ x79 ∷ []))
              (get_at (x112 ∷ x113 ∷ x114 ∷ x115 ∷ x116 ∷ x117 ∷ x118 ∷ x119 ∷ []))
              (get_at (x24 ∷ x25 ∷ x26 ∷ x27 ∷ x28 ∷ x29 ∷ x30 ∷ x31 ∷ []))
          &≡ slice-mixed_3 l (get_at (x32 ∷ x33 ∷ x34 ∷ x35 ∷ x36 ∷ x37 ∷ x38 ∷ x39 ∷ []))
              (get_at (x72 ∷ x73 ∷ x74 ∷ x75 ∷ x76 ∷ x77 ∷ x78 ∷ x79 ∷ []))
              (get_at (x112 ∷ x113 ∷ x114 ∷ x115 ∷ x116 ∷ x117 ∷ x118 ∷ x119 ∷ []))
              (get_at (x24 ∷ x25 ∷ x26 ∷ x27 ∷ x28 ∷ x29 ∷ x30 ∷ x31 ∷ []))
          &≡ slice-mixed_0 l (get_at (x64 ∷ x65 ∷ x66 ∷ x67 ∷ x68 ∷ x69 ∷ x70 ∷ x71 ∷ []))
              (get_at (x104 ∷ x105 ∷ x106 ∷ x107 ∷ x108 ∷ x109 ∷ x110 ∷ x111 ∷ []))
              (get_at (x16 ∷ x17 ∷ x18 ∷ x19 ∷ x20 ∷ x21 ∷ x22 ∷ x23 ∷ []))
              (get_at (x56 ∷ x57 ∷ x58 ∷ x59 ∷ x60 ∷ x61 ∷ x62 ∷ x63 ∷ []))
          &≡ slice-mixed_1 l (get_at (x64 ∷ x65 ∷ x66 ∷ x67 ∷ x68 ∷ x69 ∷ x70 ∷ x71 ∷ []))
              (get_at (x104 ∷ x105 ∷ x106 ∷ x107 ∷ x108 ∷ x109 ∷ x110 ∷ x111 ∷ []))
              (get_at (x16 ∷ x17 ∷ x18 ∷ x19 ∷ x20 ∷ x21 ∷ x22 ∷ x23 ∷ []))
              (get_at (x56 ∷ x57 ∷ x58 ∷ x59 ∷ x60 ∷ x61 ∷ x62 ∷ x63 ∷ []))
          &≡ slice-mixed_2 l (get_at (x64 ∷ x65 ∷ x66 ∷ x67 ∷ x68 ∷ x69 ∷ x70 ∷ x71 ∷ []))
              (get_at (x104 ∷ x105 ∷ x106 ∷ x107 ∷ x108 ∷ x109 ∷ x110 ∷ x111 ∷ []))
              (get_at (x16 ∷ x17 ∷ x18 ∷ x19 ∷ x20 ∷ x21 ∷ x22 ∷ x23 ∷ []))
              (get_at (x56 ∷ x57 ∷ x58 ∷ x59 ∷ x60 ∷ x61 ∷ x62 ∷ x63 ∷ []))
          &≡ slice-mixed_3 l (get_at (x64 ∷ x65 ∷ x66 ∷ x67 ∷ x68 ∷ x69 ∷ x70 ∷ x71 ∷ []))
              (get_at (x104 ∷ x105 ∷ x106 ∷ x107 ∷ x108 ∷ x109 ∷ x110 ∷ x111 ∷ []))
              (get_at (x16 ∷ x17 ∷ x18 ∷ x19 ∷ x20 ∷ x21 ∷ x22 ∷ x23 ∷ []))
              (get_at (x56 ∷ x57 ∷ x58 ∷ x59 ∷ x60 ∷ x61 ∷ x62 ∷ x63 ∷ []))
          &≡ slice-mixed_0 l (get_at (x96 ∷ x97 ∷ x98 ∷ x99 ∷ x100 ∷ x101 ∷ x102 ∷ x103 ∷ []))
              (get_at (x8 ∷ x9 ∷ x10 ∷ x11 ∷ x12 ∷ x13 ∷ x14 ∷ x15 ∷ []))
              (get_at (x48 ∷ x49 ∷ x50 ∷ x51 ∷ x52 ∷ x53 ∷ x54 ∷ x55 ∷ []))
              (get_at (x88 ∷ x89 ∷ x90 ∷ x91 ∷ x92 ∷ x93 ∷ x94 ∷ x95 ∷ []))
          &≡ slice-mixed_1 l (get_at (x96 ∷ x97 ∷ x98 ∷ x99 ∷ x100 ∷ x101 ∷ x102 ∷ x103 ∷ []))
              (get_at (x8 ∷ x9 ∷ x10 ∷ x11 ∷ x12 ∷ x13 ∷ x14 ∷ x15 ∷ []))
              (get_at (x48 ∷ x49 ∷ x50 ∷ x51 ∷ x52 ∷ x53 ∷ x54 ∷ x55 ∷ []))
              (get_at (x88 ∷ x89 ∷ x90 ∷ x91 ∷ x92 ∷ x93 ∷ x94 ∷ x95 ∷ []))
          &≡ slice-mixed_2 l (get_at (x96 ∷ x97 ∷ x98 ∷ x99 ∷ x100 ∷ x101 ∷ x102 ∷ x103 ∷ []))
              (get_at (x8 ∷ x9 ∷ x10 ∷ x11 ∷ x12 ∷ x13 ∷ x14 ∷ x15 ∷ []))
              (get_at (x48 ∷ x49 ∷ x50 ∷ x51 ∷ x52 ∷ x53 ∷ x54 ∷ x55 ∷ []))
              (get_at (x88 ∷ x89 ∷ x90 ∷ x91 ∷ x92 ∷ x93 ∷ x94 ∷ x95 ∷ []))
          &≡ slice-mixed_3 l (get_at (x96 ∷ x97 ∷ x98 ∷ x99 ∷ x100 ∷ x101 ∷ x102 ∷ x103 ∷ []))
              (get_at (x8 ∷ x9 ∷ x10 ∷ x11 ∷ x12 ∷ x13 ∷ x14 ∷ x15 ∷ []))
              (get_at (x48 ∷ x49 ∷ x50 ∷ x51 ∷ x52 ∷ x53 ∷ x54 ∷ x55 ∷ []))
              (get_at (x88 ∷ x89 ∷ x90 ∷ x91 ∷ x92 ∷ x93 ∷ x94 ∷ x95 ∷ []))
          &≡ refl)
        b q
