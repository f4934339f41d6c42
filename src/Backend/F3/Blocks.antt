-- ===== src/Backend/F3/Blocks.antt =====
-- The transpositions of bs.c between blocks in memory and blocks in lanes.
use myrtus_psm_edge.Common.{
  ℕ, zero, suc, ◌+◌, ◌*◌, ◌/◌, ◌%◌, ◌^◌, ◌≤◌, ◌<◌, ◌≡◌, ◌⊎◌, inl, inr, refl, sym, ◌∙◌, ap, ap₂,
  arith, List, [], ◌∷◌, map, get_or, lane, lane-lt, pack, pack-lanes, pack-drop, pack-take_byte,
  AllBits, table, table_congr, drop, u8,
}
use Prim.Native.Nat.{min}
use myrtus_psm_edge.Backend.Spec
use myrtus_psm_edge.Backend.Spec.Blocks.{◌&≡◌}
use myrtus_psm_edge.Backend.F3.Slices.{bs_transpose, bs_transpose_rev, byte_of}
use myrtus_psm_edge.Backend.F3.Rounds.{block}
use myrtus_psm_edge.Backend.F3.Transpose.{lane-bs_transpose}
use myrtus_psm_edge.Backend.F3.TransposeRev.{entry, stride, get_or-bs_transpose_rev}

-- The 16 bytes of block `n` of an array of words in memory.
unfoldable pub stored : ℕ → List ℕ → List ℕ
stored n s = map (λ k. byte_of s (16 * n + k)) (Spec.range_from 0 16)

-- The bytes of words that are put together from bits.
module _ (f : ℕ → ℕ) (small : (k : ℕ) → f k < 2) where
  AllBits-table : (n i : ℕ) → AllBits (table f i n)
  AllBits-table zero i = tt
  AllBits-table (suc n) i = (small i, AllBits-table n (i + 1))

  byte_of_bits :
      (m : ℕ) (xs : List ℕ)
      → drop m (table f 0 64)
        ≡ f m
          ∷ f (m + 1)
          ∷ f (m + 2)
          ∷ f (m + 3)
          ∷ f (m + 4)
          ∷ f (m + 5)
          ∷ f (m + 6)
          ∷ f (m + 7)
          ∷ xs
      → u8 (pack (table f 0 64) / 2 ^ m)
        ≡ pack (
            f m
            ∷ f (m + 1)
            ∷ f (m + 2)
            ∷ f (m + 3)
            ∷ f (m + 4)
            ∷ f (m + 5)
            ∷ f (m + 6)
            ∷ f (m + 7)
            ∷ [])
  byte_of_bits m xs cut =
      ap u8 (pack-drop m (table f 0 64) (AllBits-table 64 0) ∙ ap pack cut)
      ∙ pack-take_byte (f m) (f (m + 1)) (f (m + 2)) (f (m + 3)) (f (m + 4)) (f (m + 5)) (f (m + 6))
          (f (m + 7)) xs
          (small _, (small _, (small _, (small _, (small _, (small _, (small _, (small _, tt))))))))

pub byte_place :
    (s : List ℕ) (n c : ℕ)
    → byte_of s (16 * n + c) ≡ u8 (get_or s (n * 2 + c / 8) 0 / 2 ^ (8 * (c % 8)))
byte_place s n c = ap₂ (λ k m. u8 (get_or s k 0 / 2 ^ (8 * m))) (word_index n c) (byte_index n c)
  where
    word_index : (n c : ℕ) → (16 * n + c) / 8 ≡ n * 2 + c / 8
    word_index n c = omega arith

    byte_index : (n c : ℕ) → (16 * n + c) % 8 ≡ c % 8
    byte_index n c = omega arith

-- Block `l` in memory behind `bs_transpose_rev` is the block in lane `l` before it.
pub stored-bs_transpose_rev :
    (l : ℕ) (b : List ℕ) → l < 64 → stored l (bs_transpose_rev b) ≡ block l b
unfolding stored block
stored-bs_transpose_rev l b h =
    back 0 0 0 (table (λ k. entry l b (0 + k)) 8 56) (inl refl) refl refl refl
    &≡ back 0 8 1 (table (λ k. entry l b (0 + k)) 16 48) (inl refl) refl refl refl
    &≡ back 0 16 2 (table (λ k. entry l b (0 + k)) 24 40) (inl refl) refl refl refl
    &≡ back 0 24 3 (table (λ k. entry l b (0 + k)) 32 32) (inl refl) refl refl refl
    &≡ back 0 32 4 (table (λ k. entry l b (0 + k)) 40 24) (inl refl) refl refl refl
    &≡ back 0 40 5 (table (λ k. entry l b (0 + k)) 48 16) (inl refl) refl refl refl
    &≡ back 0 48 6 (table (λ k. entry l b (0 + k)) 56 8) (inl refl) refl refl refl
    &≡ back 0 56 7 (table (λ k. entry l b (0 + k)) 64 0) (inl refl) refl refl refl
    &≡ back 1 0 8 (table (λ k. entry l b (64 + k)) 8 56) (inr refl) refl refl refl
    &≡ back 1 8 9 (table (λ k. entry l b (64 + k)) 16 48) (inr refl) refl refl refl
    &≡ back 1 16 10 (table (λ k. entry l b (64 + k)) 24 40) (inr refl) refl refl refl
    &≡ back 1 24 11 (table (λ k. entry l b (64 + k)) 32 32) (inr refl) refl refl refl
    &≡ back 1 32 12 (table (λ k. entry l b (64 + k)) 40 24) (inr refl) refl refl refl
    &≡ back 1 40 13 (table (λ k. entry l b (64 + k)) 48 16) (inr refl) refl refl refl
    &≡ back 1 48 14 (table (λ k. entry l b (64 + k)) 56 8) (inr refl) refl refl refl
    &≡ back 1 56 15 (table (λ k. entry l b (64 + k)) 64 0) (inr refl) refl refl refl
    &≡ refl
  where
    back :
        (o m c : ℕ) (xs : List ℕ)
        → (o ≡ 0) ⊎ (o ≡ 1)
        → get_or (bs_transpose_rev b) (l * 2 + c / 8) 0 ≡ get_or (bs_transpose_rev b) (stride o l) 0
        → 8 * (c % 8) ≡ m
        → drop m (table (λ k. entry l b (64 * o + k)) 0 64)
          ≡ entry l b (64 * o + m)
            ∷ entry l b (64 * o + (m + 1))
            ∷ entry l b (64 * o + (m + 2))
            ∷ entry l b (64 * o + (m + 3))
            ∷ entry l b (64 * o + (m + 4))
            ∷ entry l b (64 * o + (m + 5))
            ∷ entry l b (64 * o + (m + 6))
            ∷ entry l b (64 * o + (m + 7))
            ∷ xs
        → byte_of (bs_transpose_rev b) (16 * l + c)
          ≡ pack (table (λ k. entry l b (64 * o + (m + k))) 0 8)
    back o m c xs which word shift cut =
        byte_place (bs_transpose_rev b) l c
        ∙ ap₂ (λ w k. u8 (w / 2 ^ k)) (word ∙ get_or-bs_transpose_rev b l o h which) shift
        ∙ byte_of_bits (λ k. entry l b (64 * o + k)) (λ k. lane-lt l _) m xs cut
        ∙ ap (λ t. pack (entry l b (64 * o + t) ∷ table (λ k. entry l b (64 * o + (m + k))) 1 7))
            (right m)
      where
        right : (m : ℕ) → m ≡ m + 0
        right m = omega arith

-- In each of the 64 lanes of what `bs_transpose` gives stands the block of the same number in
-- memory, up to block 31, and in the lanes behind stands block 31 again.
pub block-bs_transpose :
    (l : ℕ) (b : List ℕ) → l < 64 → block l (bs_transpose b) ≡ stored (min l 31) b
unfolding stored block
block-bs_transpose l b h =
    forward 0 0 (inl refl) (omega arith) 0 refl
    &≡ forward 0 8 (inl refl) (omega arith) 1 refl
    &≡ forward 0 16 (inl refl) (omega arith) 2 refl
    &≡ forward 0 24 (inl refl) (omega arith) 3 refl
    &≡ forward 0 32 (inl refl) (omega arith) 4 refl
    &≡ forward 0 40 (inl refl) (omega arith) 5 refl
    &≡ forward 0 48 (inl refl) (omega arith) 6 refl
    &≡ forward 0 56 (inl refl) (omega arith) 7 refl
    &≡ forward 1 0 (inr refl) (omega arith) 8 refl
    &≡ forward 1 8 (inr refl) (omega arith) 9 refl
    &≡ forward 1 16 (inr refl) (omega arith) 10 refl
    &≡ forward 1 24 (inr refl) (omega arith) 11 refl
    &≡ forward 1 32 (inr refl) (omega arith) 12 refl
    &≡ forward 1 40 (inr refl) (omega arith) 13 refl
    &≡ forward 1 48 (inr refl) (omega arith) 14 refl
    &≡ forward 1 56 (inr refl) (omega arith) 15 refl
    &≡ refl
  where
    forward :
        (i m : ℕ)
        → (i ≡ 0) ⊎ (i ≡ 1)
        → m + 8 ≤ 64
        → (c : ℕ)
        → u8 (get_or b (min l 31 * 2 + i) 0 / 2 ^ m)
          ≡ u8 (get_or b (min l 31 * 2 + c / 8) 0 / 2 ^ (8 * (c % 8)))
        → pack (table (λ t. lane l (get_or (bs_transpose b) (i * 2 ^ 6 + (m + t)) 0)) 0 8)
          ≡ byte_of b (16 * min l 31 + c)
    forward i m which fits c place =
        ap pack (
          table_congr _ (λ t. lane (m + t) (get_or b (min l 31 * 2 + i) 0)) 8 0
            (λ t p q. lane-bs_transpose l i (m + t) b h (omega (arith, q, fits)) which))
        ∙ pack-lanes m (get_or b (min l 31 * 2 + i) 0)
        ∙ place
        ∙ sym (byte_place b (min l 31) c)

-- `bs_transpose_rev` of `bs_transpose` gives back each of the blocks up to block 31, and block
-- 31 in place of those behind.
pub bs_transpose_rev-bs_transpose :
    (l : ℕ) (b : List ℕ)
    → l < 64
    → stored l (bs_transpose_rev (bs_transpose b)) ≡ stored (min l 31) b
bs_transpose_rev-bs_transpose l b h =
    stored-bs_transpose_rev l (bs_transpose b) h ∙ block-bs_transpose l b h
