-- ===== src/Backend/F3/Keys.antt =====
-- `bs_expand_key` of bs.c: every block of a transposed round key is that round key.
use myrtus_psm_edge.Common.{
  ℕ, zero, suc, ◌+◌, ◌*◌, ◌/◌, ◌%◌, ◌^◌, ◌<◌, ◌≡◌, refl, ◌∙◌, ap, ap₂, arith, List, [], ◌∷◌, map,
  get_or, length, array_ind, IsBytes, u8,
}
use myrtus_psm_edge.Backend.Spec
use myrtus_psm_edge.Backend.Spec.Blocks.{◌&≡◌}
use myrtus_psm_edge.Backend.F3.Slices.{fill_blocks, load, byte_of}
use myrtus_psm_edge.Backend.F3.Blocks.{stored, byte_place}

-- The 16 bytes of round key `r` in a schedule.
unfoldable pub round_key : List ℕ → ℕ → List ℕ
round_key w r = map (λ i. get_or w (r * 16 + i) 0) (Spec.range_from 0 16)

abbrev pairs : ℕ → ℕ → ℕ → List ℕ
pairs zero a b = []
pairs (suc n) a b = a ∷ b ∷ pairs n a b

get_or-pairs_first : (n k a b : ℕ) → k < n → get_or (pairs n a b) (k * 2 + 0) 0 ≡ a
get_or-pairs_first zero k a b h = absurd (omega arith)
get_or-pairs_first (suc n) zero a b h = refl
get_or-pairs_first (suc n) (suc k) a b h =
    ap (λ i. get_or (pairs (suc n) a b) i 0) (next k) ∙ get_or-pairs_first n k a b (omega arith)
  where
    next : (k : ℕ) → suc k * 2 + 0 ≡ suc (suc (k * 2 + 0))
    next k = omega arith

get_or-pairs_second : (n k a b : ℕ) → k < n → get_or (pairs n a b) (k * 2 + 1) 0 ≡ b
get_or-pairs_second zero k a b h = absurd (omega arith)
get_or-pairs_second (suc n) zero a b h = refl
get_or-pairs_second (suc n) (suc k) a b h =
    ap (λ i. get_or (pairs (suc n) a b) i 0) (next k) ∙ get_or-pairs_second n k a b (omega arith)
  where
    next : (k : ℕ) → suc k * 2 + 1 ≡ suc (suc (k * 2 + 1))
    next k = omega arith

fill_blocks-pairs :
    (key : List ℕ) (at : ℕ) (rk : List ℕ)
    → length rk ≡ 128
    → fill_blocks key at rk ≡ pairs 64 (load key at) (load key (at + 8))
unfolding fill_blocks
fill_blocks-pairs key at =
    array_ind 128 (λ rk. fill_blocks key at rk ≡ pairs 64 (load key at) (load key (at + 8)))
      (λ x0 x1 x2 x3 x4 x5 x6 x7 x8 x9 x10 x11 x12 x13 x14 x15 x16 x17 x18 x19 x20 x21 x22 x23 x24
          x25 x26 x27 x28 x29 x30 x31 x32 x33 x34 x35 x36 x37 x38 x39 x40 x41 x42 x43 x44 x45 x46
          x47 x48 x49 x50 x51 x52 x53 x54 x55 x56 x57 x58 x59 x60 x61 x62 x63 x64 x65 x66 x67 x68
          x69 x70 x71 x72 x73 x74 x75 x76 x77 x78 x79 x80 x81 x82 x83 x84 x85 x86 x87 x88 x89 x90
          x91 x92 x93 x94 x95 x96 x97 x98 x99 x100 x101 x102 x103 x104 x105 x106 x107 x108 x109 x110
          x111 x112 x113 x114 x115 x116 x117 x118 x119 x120 x121 x122 x123 x124 x125 x126 x127.
        refl)

-- A byte of a loaded word.
module _ (m : List ℕ) (bytes : IsBytes m) (off : ℕ) where
  pub load_byte : (k : ℕ) → k < 8 → u8 (load m off / 2 ^ (8 * k)) ≡ get_or m (off + k) 0
  load_byte zero h = omega (arith, bytes off, ap (λ i. get_or m i 0) (right off))
    where
      right : (i : ℕ) → i + 0 ≡ i
      right i = omega arith
  load_byte (suc zero) h = omega (arith, bytes off, bytes (off + 1))
  load_byte (suc (suc zero)) h = omega (arith, bytes off, bytes (off + 1), bytes (off + 2))
  load_byte (suc (suc (suc zero))) h =
      omega (arith, bytes off, bytes (off + 1), bytes (off + 2), bytes (off + 3))
  load_byte (suc (suc (suc (suc zero)))) h =
      omega (arith, bytes off, bytes (off + 1), bytes (off + 2), bytes (off + 3), bytes (off + 4))
  load_byte (suc (suc (suc (suc (suc zero))))) h = omega (
    arith,
    bytes off,
    bytes (off + 1),
    bytes (off + 2),
    bytes (off + 3),
    bytes (off + 4),
    bytes (off + 5),
  )
  load_byte (suc (suc (suc (suc (suc (suc zero)))))) h = omega (
    arith,
    bytes off,
    bytes (off + 1),
    bytes (off + 2),
    bytes (off + 3),
    bytes (off + 4),
    bytes (off + 5),
    bytes (off + 6),
  )
  load_byte (suc (suc (suc (suc (suc (suc (suc zero))))))) h = omega (
    arith,
    bytes off,
    bytes (off + 1),
    bytes (off + 2),
    bytes (off + 3),
    bytes (off + 4),
    bytes (off + 5),
    bytes (off + 6),
    bytes (off + 7),
  )
  load_byte (suc (suc (suc (suc (suc (suc (suc (suc k)))))))) h = absurd (omega arith)

-- The blocks of a filled array.
module _ (key : List ℕ) (bytes : IsBytes key) (at : ℕ) (rk : List ℕ) (size : length rk ≡ 128) where
  filled_byte :
      (n c w k : ℕ)
      → get_or (pairs 64 (load key at) (load key (at + 8))) (n * 2 + c / 8) 0 ≡ w
      → 8 * (c % 8) ≡ k
      → byte_of (fill_blocks key at rk) (16 * n + c) ≡ u8 (w / 2 ^ k)
  filled_byte n c w k word shift =
      byte_place (fill_blocks key at rk) n c
      ∙ ap₂ (λ w k. u8 (w / 2 ^ k))
          (ap (λ b. get_or b (n * 2 + c / 8) 0) (fill_blocks-pairs key at rk size) ∙ word) shift

  pub stored-fill_blocks :
      (n : ℕ)
      → n < 64
      → stored n (fill_blocks key at rk) ≡ map (λ i. get_or key (at + i) 0) (Spec.range_from 0 16)
  unfolding stored
  stored-fill_blocks n h =
      (filled_byte n 0 (load key at) 0 first refl ∙ load_byte key bytes at 0 (omega arith))
      &≡ (filled_byte n 1 (load key at) 8 first refl ∙ load_byte key bytes at 1 (omega arith))
      &≡ (filled_byte n 2 (load key at) 16 first refl ∙ load_byte key bytes at 2 (omega arith))
      &≡ (filled_byte n 3 (load key at) 24 first refl ∙ load_byte key bytes at 3 (omega arith))
      &≡ (filled_byte n 4 (load key at) 32 first refl ∙ load_byte key bytes at 4 (omega arith))
      &≡ (filled_byte n 5 (load key at) 40 first refl ∙ load_byte key bytes at 5 (omega arith))
      &≡ (filled_byte n 6 (load key at) 48 first refl ∙ load_byte key bytes at 6 (omega arith))
      &≡ (filled_byte n 7 (load key at) 56 first refl ∙ load_byte key bytes at 7 (omega arith))
      &≡ (filled_byte n 8 (load key (at + 8)) 0 second refl
          ∙ load_byte key bytes (at + 8) 0 (omega arith)
          ∙ at_8 0)
      &≡ (filled_byte n 9 (load key (at + 8)) 8 second refl
          ∙ load_byte key bytes (at + 8) 1 (omega arith)
          ∙ at_8 1)
      &≡ (filled_byte n 10 (load key (at + 8)) 16 second refl
          ∙ load_byte key bytes (at + 8) 2 (omega arith)
          ∙ at_8 2)
      &≡ (filled_byte n 11 (load key (at + 8)) 24 second refl
          ∙ load_byte key bytes (at + 8) 3 (omega arith)
          ∙ at_8 3)
      &≡ (filled_byte n 12 (load key (at + 8)) 32 second refl
          ∙ load_byte key bytes (at + 8) 4 (omega arith)
          ∙ at_8 4)
      &≡ (filled_byte n 13 (load key (at + 8)) 40 second refl
          ∙ load_byte key bytes (at + 8) 5 (omega arith)
          ∙ at_8 5)
      &≡ (filled_byte n 14 (load key (at + 8)) 48 second refl
          ∙ load_byte key bytes (at + 8) 6 (omega arith)
          ∙ at_8 6)
      &≡ (filled_byte n 15 (load key (at + 8)) 56 second refl
          ∙ load_byte key bytes (at + 8) 7 (omega arith)
          ∙ at_8 7)
      &≡ refl
    where
      first : get_or (pairs 64 (load key at) (load key (at + 8))) (n * 2 + 0) 0 ≡ load key at
      first = get_or-pairs_first 64 n _ _ h

      second : get_or (pairs 64 (load key at) (load key (at + 8))) (n * 2 + 1) 0 ≡ load key (at + 8)
      second = get_or-pairs_second 64 n _ _ h

      at_8 : (k : ℕ) → get_or key (at + 8 + k) 0 ≡ get_or key (at + (8 + k)) 0
      at_8 k = ap (λ i. get_or key i 0) (omega arith)
