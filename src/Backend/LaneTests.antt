-- ===== src/Backend/LaneTests.antt =====
-- The theorems on the bitsliced backends at the vectors of src/check1.c and src/check2.c, with arrays on the
-- stack that hold something else before.
use myrtus_psm_edge.Common.{
  ℕ, zero, suc, ◌+◌, ◌*◌, ◌%◌, ◌^◌, ◌<◌, ◌≡◌, refl, arith, List, [], ◌∷◌, get_or, length, replicate,
  IsBytes, all_lt-IsBytes, slice,
}
use Prim.Native.Nat.{min}
use myrtus_psm_edge.Backend.Spec
use myrtus_psm_edge.Backend.F1
use myrtus_psm_edge.Backend.F4
use myrtus_psm_edge.Backend.F3.Slices
use myrtus_psm_edge.Backend.F3.Sbox.{bs_sbox}
use myrtus_psm_edge.Backend.F3.Circuit.{slice-bs_sbox}
use myrtus_psm_edge.Backend.F3.Rounds.{block, block-bs_shiftmix}
use myrtus_psm_edge.Backend.F3.Blocks.{stored, block-bs_transpose, bs_transpose_rev-bs_transpose}
use myrtus_psm_edge.Backend.F3.Cipher.{bs_cipher_refines, aes_ecb_encrypt_refines}
use myrtus_psm_edge.Backend.F6.Slices as Slices6
use myrtus_psm_edge.Backend.F6.Cipher.{bs_cipher_256_refines, aes256_ecb_encrypt_refines}
use myrtus_psm_edge.Backend.Agree.{aes128-aes_ecb_encrypt, aes256-aes256_ecb_encrypt}
use myrtus_psm_edge.Backend.Tests.{key1, pt1, key2, pt2}

abbrev stale : List ℕ
stale = replicate 128 5

length-stale : (n r : ℕ) → r < n → length (get_or (replicate n stale) r []) ≡ 128
length-stale zero r h = absurd (omega arith)
length-stale (suc n) zero h = refl
length-stale (suc n) (suc r) h = length-stale n r (omega arith)

abbrev stack : ℕ → List ℕ
stack r = stale

-- Different blocks of one word each.
abbrev count_up : ℕ → ℕ → List ℕ
count_up zero i = []
count_up (suc n) i = i * 0x0123456789abcdef % 2 ^ 64 ∷ count_up n (i + 1)

blocks : List ℕ
blocks = count_up 128 1

length-blocks : length blocks ≡ 128
unfolding blocks
length-blocks = refl

key1-IsBytes : IsBytes key1
key1-IsBytes = all_lt-IsBytes key1 refl

pt1-IsBytes : IsBytes pt1
pt1-IsBytes = all_lt-IsBytes pt1 refl

key2-IsBytes : IsBytes key2
key2-IsBytes = all_lt-IsBytes key2 refl

pt2-IsBytes : IsBytes pt2
pt2-IsBytes = all_lt-IsBytes pt2 refl

aes_ecb_encrypt_refines_example :
    Slices.aes_ecb_encrypt (replicate 176 3) (replicate 11 stale) stack pt1 key1 (replicate 16 7)
    ≡ Spec.aes128 key1 pt1
aes_ecb_encrypt_refines_example =
    aes_ecb_encrypt_refines (replicate 176 3) (replicate 11 stale) stack pt1 key1 (replicate 16 7)
      refl refl (length-stale 11) (λ r. refl) pt1-IsBytes refl key1-IsBytes (omega arith) refl

aes256_ecb_encrypt_refines_example :
    Slices6.aes256_ecb_encrypt
      (replicate 240 3)
      (replicate 15 stale)
      stack
      pt2
      key2
      (replicate 16 7)
    ≡ Spec.aes256 key2 pt2
aes256_ecb_encrypt_refines_example =
    aes256_ecb_encrypt_refines (replicate 240 3) (replicate 15 stale) stack pt2 key2
      (replicate 16 7) refl refl (length-stale 15) (λ r. refl) pt2-IsBytes refl key2-IsBytes
      (omega arith) refl

bs_cipher_refines_example :
    stored 9 (
      Slices.bs_cipher stack blocks
        (Slices.bs_expand_key (replicate 176 3) (replicate 11 stale) key1))
    ≡ Spec.aes128 key1 (stored (min 9 31) blocks)
bs_cipher_refines_example =
    bs_cipher_refines (replicate 176 3) key1 (replicate 11 stale) refl (omega arith) key1-IsBytes
      refl (length-stale 11) 9 stack blocks (omega arith) (λ r. refl)

bs_cipher_256_refines_example :
    stored 40 (
      Slices6.bs_cipher stack blocks
        (Slices6.bs_expand_key (replicate 240 3) (replicate 15 stale) key2))
    ≡ Spec.aes256 key2 (stored (min 40 31) blocks)
bs_cipher_256_refines_example =
    bs_cipher_256_refines (replicate 240 3) key2 (replicate 15 stale) refl (omega arith)
      key2-IsBytes refl (length-stale 15) 40 stack blocks (omega arith) (λ r. refl)

block-bs_transpose_example : block 40 (Slices.bs_transpose blocks) ≡ stored (min 40 31) blocks
block-bs_transpose_example = block-bs_transpose 40 blocks (omega arith)

bs_transpose_rev-bs_transpose_example :
    stored 12 (Slices.bs_transpose_rev (Slices.bs_transpose blocks)) ≡ stored (min 12 31) blocks
bs_transpose_rev-bs_transpose_example = bs_transpose_rev-bs_transpose 12 blocks (omega arith)

block-bs_shiftmix_example :
    block 3 (Slices.bs_shiftmix stale blocks) ≡ Spec.mix_columns (Spec.shift_rows (block 3 blocks))
block-bs_shiftmix_example = block-bs_shiftmix 3 stale blocks refl length-blocks

slice-bs_sbox_example :
    slice 2 (bs_sbox (1 ∷ 2 ∷ 3 ∷ 4 ∷ 5 ∷ 6 ∷ 7 ∷ 8 ∷ []))
    ≡ Spec.sbox (slice 2 (1 ∷ 2 ∷ 3 ∷ 4 ∷ 5 ∷ 6 ∷ 7 ∷ 8 ∷ []))
slice-bs_sbox_example = slice-bs_sbox 2 (1 ∷ 2 ∷ 3 ∷ 4 ∷ 5 ∷ 6 ∷ 7 ∷ 8 ∷ []) (omega arith) refl

aes128-aes_ecb_encrypt_example :
    F1.aes128 (replicate 176 0) pt1 key1
    ≡ Slices.aes_ecb_encrypt (replicate 176 3) (replicate 11 stale) stack pt1 key1 (replicate 16 7)
aes128-aes_ecb_encrypt_example =
    aes128-aes_ecb_encrypt (replicate 176 0) (replicate 176 3) (replicate 11 stale) stack pt1 key1
      (replicate 16 7) refl refl refl (length-stale 11) (λ r. refl) pt1-IsBytes refl key1-IsBytes
      (omega arith) refl

aes256-aes256_ecb_encrypt_example :
    F4.aes256 (replicate 240 0) pt2 key2
    ≡ Slices6.aes256_ecb_encrypt
        (replicate 240 3)
        (replicate 15 stale)
        stack
        pt2
        key2
        (replicate 16 7)
aes256-aes256_ecb_encrypt_example =
    aes256-aes256_ecb_encrypt (replicate 240 0) (replicate 240 3) (replicate 15 stale) stack pt2
      key2 (replicate 16 7) refl refl refl (length-stale 15) (λ r. refl) pt2-IsBytes refl
      key2-IsBytes (omega arith) refl
