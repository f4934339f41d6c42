-- ===== src/Backend/F6/Cipher.antt =====
-- The bitsliced AES-256 of backends/f6 against the block cipher of the specification: its functions on words
-- are those of f3.
use myrtus_psm_edge.Common.{
  ℕ, ◌*◌, ◌≤◌, ◌<◌, ◌≡◌, refl, ◌∙◌, ap, arith, List, [], get_or, set, length, IsBytes, for_range,
  for_range_congr,
}
use Prim.Native.Nat.{min}
use myrtus_psm_edge.Backend.Spec
use myrtus_psm_edge.Backend.Spec.Bytes.{IsBytes-key_expansion}
use myrtus_psm_edge.Backend.F6
use myrtus_psm_edge.Backend.F6.Schedule.{bitsliced_256_refines}
use myrtus_psm_edge.Backend.F6.Sbox
use myrtus_psm_edge.Backend.F6.Slices
use myrtus_psm_edge.Backend.F3.Sbox as Sbox3
use myrtus_psm_edge.Backend.F3.Slices as Slices3
use myrtus_psm_edge.Backend.F3.Slices.{move, octet}
use myrtus_psm_edge.Backend.F3.Rounds.{block}
use myrtus_psm_edge.Backend.F3.Blocks.{stored}
use myrtus_psm_edge.Backend.F3.Keys.{round_key}
use myrtus_psm_edge.Backend.F3.Cipher.{stored-rounds, round_keys, stored-first, copied_out}

sbox_same : (u : List ℕ) → Sbox.bs_sbox u ≡ Sbox3.bs_sbox u
unfolding Sbox.bs_sbox Sbox3.bs_sbox Sbox.gates Sbox3.gates
sbox_same u = refl

apply_sbox_same : (b : List ℕ) → Slices.bs_apply_sbox b ≡ Slices3.bs_apply_sbox b
unfolding Slices.bs_apply_sbox Slices3.bs_apply_sbox
apply_sbox_same b =
    for_range_congr (λ k s. move 8 s (8 * k) (Sbox.bs_sbox (octet s (8 * k))))
      (λ k s. move 8 s (8 * k) (Sbox3.bs_sbox (octet s (8 * k)))) 16 0 b
      (λ k s p q. ap (move 8 s (8 * k)) (sbox_same (octet s (8 * k))))

addroundkey_same : (b k : List ℕ) → Slices.bs_addroundkey b k ≡ Slices3.bs_addroundkey b k
unfolding Slices.bs_addroundkey Slices3.bs_addroundkey
addroundkey_same b k = refl

shiftrows_same : (bp b : List ℕ) → Slices.bs_shiftrows bp b ≡ Slices3.bs_shiftrows bp b
unfolding Slices.bs_shiftrows Slices3.bs_shiftrows Slices.shift_round Slices3.shift_round
shiftrows_same bp b = refl

shiftmix_same : (bp b : List ℕ) → Slices.bs_shiftmix bp b ≡ Slices3.bs_shiftmix bp b
unfolding Slices.bs_shiftmix Slices3.bs_shiftmix Slices.mix_round Slices3.mix_round
shiftmix_same bp b = refl

transpose_same : (b : List ℕ) → Slices.bs_transpose b ≡ Slices3.bs_transpose b
unfolding Slices.bs_transpose Slices3.bs_transpose Slices.bs_transpose_dst Slices3.bs_transpose_dst
    Slices.spread Slices3.spread
transpose_same b = refl

transpose_rev_same : (b : List ℕ) → Slices.bs_transpose_rev b ≡ Slices3.bs_transpose_rev b
unfolding Slices.bs_transpose_rev Slices3.bs_transpose_rev Slices.spread Slices3.spread
transpose_rev_same b = refl

fill_blocks_same :
    (w : List ℕ) (at : ℕ) (k : List ℕ) → Slices.fill_blocks w at k ≡ Slices3.fill_blocks w at k
unfolding Slices.fill_blocks Slices3.fill_blocks
fill_blocks_same w at k = refl

round_same :
    (bp : ℕ → List ℕ) (rk : List (List ℕ)) (r : ℕ) (s : List ℕ)
    → Slices.bs_round bp rk r s ≡ Slices3.bs_round bp rk r s
unfolding Slices.bs_round Slices3.bs_round
round_same bp rk r s =
    addroundkey_same (Slices.bs_shiftmix (bp r) (Slices.bs_apply_sbox s)) (get_or rk r [])
    ∙ ap (λ b. Slices3.bs_addroundkey b (get_or rk r []))
        (shiftmix_same (bp r) (Slices.bs_apply_sbox s)
          ∙ ap (Slices3.bs_shiftmix (bp r)) (apply_sbox_same s))

-- The cipher of f6 by the functions of f3.
cipher_same :
    (bp : ℕ → List ℕ) (b : List ℕ) (rk : List (List ℕ))
    → Slices.bs_cipher bp b rk
      ≡ Slices3.bs_transpose_rev (
          Slices3.bs_addroundkey
            (Slices3.bs_shiftrows (bp 14) (
              Slices3.bs_apply_sbox (
                for_range 13 1
                  (Slices3.bs_round bp rk)
                  (Slices3.bs_addroundkey (Slices3.bs_transpose b) (get_or rk 0 [])))))
            (get_or rk 14 []))
unfolding Slices.bs_cipher
cipher_same bp b rk =
    transpose_rev_same _
    ∙ ap Slices3.bs_transpose_rev (
        addroundkey_same _ _
        ∙ ap (λ t. Slices3.bs_addroundkey t (get_or rk 14 []))
            (shiftrows_same (bp 14) _
              ∙ ap (Slices3.bs_shiftrows (bp 14)) (
                  apply_sbox_same _
                  ∙ ap Slices3.bs_apply_sbox (
                      for_range_congr (Slices.bs_round bp rk) (Slices3.bs_round bp rk) 13 1 _
                        (λ r s p q. round_same bp rk r s)
                      ∙ ap (for_range 13 1 (Slices3.bs_round bp rk)) (
                          addroundkey_same _ _
                          ∙ ap (λ t. Slices3.bs_addroundkey t (get_or rk 0 []))
                              (transpose_same b))))))

module _ (key key' : List ℕ) (rk : List (List ℕ)) (stack_key : length key ≡ 240)
    (full : 32 ≤ length key') (bytes : IsBytes key') (stack_rk : length rk ≡ 15)
    (stack_keys : (r : ℕ) → r < 15 → length (get_or rk r []) ≡ 128) where
  fill_keys : List ℕ → List (List ℕ)
  fill_keys w =
      for_range 15 0
        (λ j rk. set rk j (Slices3.bs_transpose (Slices3.fill_blocks w (16 * j) (get_or rk j []))))
        rk

  stored_key : List ℕ
  stored_key = F6.expand_key (for_range 32 0 (λ i s. set s i (get_or key' i 0)) key)

  expand_key_same : Slices.bs_expand_key key rk key' ≡ fill_keys (Spec.key_expansion 8 14 key')
  unfolding Slices.bs_expand_key fill_keys stored_key
  expand_key_same =
      for_range_congr
        (λ j rk.
          set rk j (Slices.bs_transpose (Slices.fill_blocks stored_key (16 * j) (get_or rk j []))))
        (λ j rk.
          set rk j
            (Slices3.bs_transpose (Slices3.fill_blocks stored_key (16 * j) (get_or rk j []))))
        15 0 rk
        (λ j rk p q. ap (set rk j) (
          transpose_same (Slices.fill_blocks stored_key (16 * j) (get_or rk j []))
          ∙ ap Slices3.bs_transpose (fill_blocks_same stored_key (16 * j) (get_or rk j []))))
      ∙ ap fill_keys (bitsliced_256_refines key key' stack_key full)

  expanded_keys :
      (l r : ℕ)
      → l < 64
      → r ≤ 14
      → block l (get_or (Slices.bs_expand_key key rk key') r [])
        ≡ round_key (Spec.key_expansion 8 14 key') r
  unfolding fill_keys
  expanded_keys l r fits h =
      ap (λ k. block l (get_or k r [])) expand_key_same
      ∙ round_keys l 15 (Spec.key_expansion 8 14 key') rk fits
          (IsBytes-key_expansion 8 14 key' bytes) stack_rk stack_keys r (omega arith)

  -- When the arrays on the stack have their sizes, whatever they hold, and the key has at
  -- least 32 bytes, block `l` of the 64 that `bs_cipherf6` gives under the keys of the
  -- expansion is the AES-256 encryption of block `l` of those it takes, for `l` up to 31,
  -- and of block 31 for the blocks behind.
  pub bs_cipher_256_refines :
      (l : ℕ) (bp : ℕ → List ℕ) (state : List ℕ)
      → l < 64
      → ((r : ℕ) → length (bp r) ≡ 128)
      → stored l (Slices.bs_cipher bp state (Slices.bs_expand_key key rk key'))
        ≡ Spec.aes256 key' (stored (min l 31) state)
  unfolding Spec.aes256
  bs_cipher_256_refines l bp state fits stack =
      ap (stored l) (cipher_same bp state (Slices.bs_expand_key key rk key'))
      ∙ stored-rounds l 14 (Spec.key_expansion 8 14 key') bp (Slices.bs_expand_key key rk key') fits
          stack (λ r h. expanded_keys l r fits h) 13 state refl

-- When the arrays on the stack and the output have their sizes, whatever they hold,
-- `aes256_ecb_encrypt` of backends/f6 is AES-256 of FIPS 197, on an input of 16 bytes and a
-- key of at least 32 bytes.
pub aes256_ecb_encrypt_refines :
    (key : List ℕ) (rk : List (List ℕ)) (bp : ℕ → List ℕ) (inputb key' outputb : List ℕ)
    → length key ≡ 240
    → length rk ≡ 15
    → ((r : ℕ) → r < 15 → length (get_or rk r []) ≡ 128)
    → ((r : ℕ) → length (bp r) ≡ 128)
    → IsBytes inputb
    → length inputb ≡ 16
    → IsBytes key'
    → 32 ≤ length key'
    → length outputb ≡ 16
    → Slices.aes256_ecb_encrypt key rk bp inputb key' outputb ≡ Spec.aes256 key' inputb
unfolding Slices.aes256_ecb_encrypt
aes256_ecb_encrypt_refines key rk bp inputb key' outputb p q r s t u v w x =
    copied_out _ outputb x
    ∙ bs_cipher_256_refines key key' rk p w v q r 0 bp _ (omega arith) s
    ∙ ap (Spec.aes256 key') (stored-first inputb t u)
