-- ===== src/Backend/Agree.antt =====
-- The portable backends of one key size against each other.
use myrtus_psm_edge.Common.{ℕ, ◌≤◌, ◌<◌, ◌≡◌, sym, ◌∙◌, List, [], get_or, length, IsBytes}
use myrtus_psm_edge.Backend.F1
use myrtus_psm_edge.Backend.F2
use myrtus_psm_edge.Backend.F4
use myrtus_psm_edge.Backend.F5
use myrtus_psm_edge.Backend.F1.Keys.{aes128_refines}
use myrtus_psm_edge.Backend.F2.Keys.{aes_enc_refines}
use myrtus_psm_edge.Backend.F4.Keys.{aes256_refines}
use myrtus_psm_edge.Backend.F3.Slices.{aes_ecb_encrypt}
use myrtus_psm_edge.Backend.F3.Cipher.{aes_ecb_encrypt_refines}
use myrtus_psm_edge.Backend.F6.Slices.{aes256_ecb_encrypt}
use myrtus_psm_edge.Backend.F6.Cipher.{aes256_ecb_encrypt_refines}
use myrtus_psm_edge.Backend.F5.Keys.{aes256_enc_refines}

-- `aes128` of f1 and `AES_enc` of f2 store the same block, for a plaintext of 16 bytes and a
-- key of at least 16.
pub aes128-aes_enc :
    (round_key rkey pt key ct : List ℕ)
    → length round_key ≡ 176
    → length rkey ≡ 176
    → length pt ≡ 16
    → 16 ≤ length key
    → length ct ≡ 16
    → F1.aes128 round_key pt key ≡ F2.aes_enc rkey pt key ct
aes128-aes_enc round_key rkey pt key ct a b p k c =
    aes128_refines round_key pt key a p k ∙ sym (aes_enc_refines rkey pt key ct b k c)

-- `aes256` of f4 and `AES256_enc` of f5 store the same block, for a plaintext of 16 bytes and
-- a key of at least 32.
pub aes256-aes256_enc :
    (round_key rkey pt key ct : List ℕ)
    → length round_key ≡ 240
    → length rkey ≡ 240
    → length pt ≡ 16
    → 32 ≤ length key
    → length ct ≡ 16
    → F4.aes256 round_key pt key ≡ F5.aes256_enc rkey pt key ct
aes256-aes256_enc round_key rkey pt key ct a b p k c =
    aes256_refines round_key pt key a p k ∙ sym (aes256_enc_refines rkey pt key ct b k c)

-- `aes128` of f1 and `aes_ecb_encrypt` of f3 store the same block, for a plaintext of 16 bytes
-- and a key of at least 16 bytes, when the arrays have their sizes, whatever they hold.
pub aes128-aes_ecb_encrypt :
    (round_key rkey : List ℕ) (rk : List (List ℕ)) (bp : ℕ → List ℕ) (pt key out : List ℕ)
    → length round_key ≡ 176
    → length rkey ≡ 176
    → length rk ≡ 11
    → ((r : ℕ) → r < 11 → length (get_or rk r []) ≡ 128)
    → ((r : ℕ) → length (bp r) ≡ 128)
    → IsBytes pt
    → length pt ≡ 16
    → IsBytes key
    → 16 ≤ length key
    → length out ≡ 16
    → F1.aes128 round_key pt key ≡ aes_ecb_encrypt rkey rk bp pt key out
aes128-aes_ecb_encrypt round_key rkey rk bp pt key out a b r s t i p j k c =
    aes128_refines round_key pt key a p k
    ∙ sym (aes_ecb_encrypt_refines rkey rk bp pt key out b r s t i p j k c)

-- `aes256` of f4 and `aes256_ecb_encrypt` of f6 store the same block, for a plaintext of 16
-- bytes and a key of at least 32 bytes, when the arrays have their sizes, whatever they hold.
pub aes256-aes256_ecb_encrypt :
    (round_key rkey : List ℕ) (rk : List (List ℕ)) (bp : ℕ → List ℕ) (pt key out : List ℕ)
    → length round_key ≡ 240
    → length rkey ≡ 240
    → length rk ≡ 15
    → ((r : ℕ) → r < 15 → length (get_or rk r []) ≡ 128)
    → ((r : ℕ) → length (bp r) ≡ 128)
    → IsBytes pt
    → length pt ≡ 16
    → IsBytes key
    → 32 ≤ length key
    → length out ≡ 16
    → F4.aes256 round_key pt key ≡ aes256_ecb_encrypt rkey rk bp pt key out
aes256-aes256_ecb_encrypt round_key rkey rk bp pt key out a b r s t i p j k c =
    aes256_refines round_key pt key a p k
    ∙ sym (aes256_ecb_encrypt_refines rkey rk bp pt key out b r s t i p j k c)
