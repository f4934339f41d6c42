-- ===== src/Gcm/Tests.antt =====
-- The theorems on the decryption at the vectors of src/check1.c, with the backends F1 and F2.

use myrtus_psm_edge.Common.{
  ℕ, ◌≡◌, refl, sym, arith, List, [], ◌∷◌, ◌++◌, none, some, replicate, if◌then◌else◌, ◌==◌, ◌↔◌,
  all_lt-IsBytes,
}
use myrtus_psm_edge.Backend.F1
use myrtus_psm_edge.Backend.F2
use myrtus_psm_edge.Backend.Agree.{aes128-aes_enc}
use myrtus_psm_edge.Gcm.{
  addmul, Loader, EdContext, Op, success, ed_init, dec_update, crypto_verify_16,
}
use myrtus_psm_edge.Gcm.Spec.{be32, blocks, ghash, digest}
use myrtus_psm_edge.Gcm.Blocks.{ctr_bytes, hash_blocks}
use myrtus_psm_edge.Gcm.Product.{product, block_sum, block_of, times, coefficients, times_x, plus}
use myrtus_psm_edge.Gcm.Multiply.{addmul_refines}
use myrtus_psm_edge.Gcm.Verify.{crypto_verify_16-success_iff}
use myrtus_psm_edge.Gcm.Context.{Live}
use myrtus_psm_edge.Gcm.Stream.{dec_update-ctr}
use myrtus_psm_edge.Gcm.Split.{decrypt, decrypt-append}
use myrtus_psm_edge.Gcm.Tag.{Holds, Sized, ed_init-Holds}

abbrev pub iv1 : List ℕ
iv1 = 0 ∷ 1 ∷ 2 ∷ 3 ∷ 4 ∷ 5 ∷ 6 ∷ 7 ∷ 8 ∷ 9 ∷ 10 ∷ 11 ∷ []

abbrev pub key1 : List ℕ
key1 =
    0x84
    ∷ 0x81
    ∷ 0x85
    ∷ 0xdf
    ∷ 0xa9
    ∷ 0x51
    ∷ 0xf1
    ∷ 0x1e
    ∷ 0x13
    ∷ 0x97
    ∷ 0x24
    ∷ 0x8a
    ∷ 0x6a
    ∷ 0x69
    ∷ 0x8b
    ∷ 0x17
    ∷ replicate 16 5

abbrev pub op1 : Op
op1 = λ pt key. F1.aes128 (replicate 176 0) pt key

abbrev pub op2 : Op
op2 = λ pt key. F2.aes_enc (replicate 176 0) pt key (replicate 16 0)

-- `enc_s01_n00` is F1 and `enc_s01_n01` is F2.
abbrev pub loader1 : Loader
loader1 = record {
  dlopen = 1;
  dlsym = λ handle s n.
      if s == 1 then (if n == 0 then some op1 else if n == 1 then some op2 else none) else none;
}

abbrev pub memory1 : EdContext
memory1 = record {
  kcopy = replicate 32 9;
  h = replicate 16 9;
  j = replicate 16 9;
  t = replicate 16 9;
  accum = replicate 16 9;
  paccum = replicate 16 9;
  finalblock = replicate 16 9;
  handle = 7;
  index = 5;
  mlen = 3;
}

-- A context as `ed_init` leaves it, with a hash of its own.
abbrev context1 : EdContext
context1 = record {
  kcopy = key1;
  h = replicate 16 3;
  j = iv1 ++ be32 1;
  t = replicate 16 0;
  accum = replicate 16 0;
  paccum = replicate 16 0;
  finalblock = replicate 16 0;
  handle = 1;
  index = 1;
  mlen = 0;
}

context1-Live : Live iv1 context1
context1-Live = record { iv_length = refl; j_length = refl; j_prefix = refl }

pub memory1-Sized : Sized memory1
memory1-Sized = record {
  sized_kcopy = refl;
  sized_j = refl;
  sized_accum = refl;
  sized_paccum = refl;
  sized_finalblock = refl;
}

abbrev tag1 : List ℕ
tag1 = replicate 16 3

abbrev tag2 : List ℕ
tag2 = replicate 15 3 ++ 4 ∷ []

crypto_verify_16-success_iff_example : (crypto_verify_16 tag1 tag2 ≡ success) ↔ (tag1 ≡ tag2)
crypto_verify_16-success_iff_example =
    crypto_verify_16-success_iff tag1 tag2 refl refl (all_lt-IsBytes tag1 refl)
      (all_lt-IsBytes tag2 refl)

dec_update-ctr_example :
    let r = dec_update loader1 0x10 context1 (replicate 40 0) (replicate 35 8) 35 in
    (r.0 ≡ success)
    × (r.2 ≡ ctr_bytes (λ b. op1 b key1) iv1 2 (replicate 35 8) ++ replicate 5 0)
    × (r.1.accum ≡ hash_blocks (replicate 16 3) (replicate 16 0) (blocks (replicate 35 8)))
    × (r.1.index ≡ 4)
    × (r.1.mlen ≡ 35)
unfolding blocks
dec_update-ctr_example =
    dec_update-ctr iv1 loader1 0x10 context1 (replicate 40 0) (replicate 35 8) op1 refl
      context1-Live (omega arith) (omega arith) (omega arith)

decrypt-append_example :
    let first = decrypt loader1 0x10 context1 (replicate 40 0) (replicate 32 8) in
    let second = decrypt loader1 0x11 first.0 (replicate 40 1) (replicate 5 7) in
    decrypt loader1 0x10 context1 (replicate 50 2) (replicate 32 8 ++ replicate 5 7)
    ≡ (second.0, first.1 ++ second.1)
decrypt-append_example =
    decrypt-append loader1 0x10 0x11 2 context1 iv1 (replicate 40 0) (replicate 40 1)
      (replicate 50 2) (replicate 32 8) (replicate 5 7) op1 op2 context1-Live refl refl
      (λ x n. sym (
        aes128-aes_enc (replicate 176 0) (replicate 176 0) x key1 (replicate 16 0) refl refl n
          (omega arith) refl))
      refl (omega arith) (omega arith) (omega arith)

ed_init-Holds_example :
    let r = ed_init loader1 0x10 memory1 iv1 key1 in
    (r.0 ≡ success)
    × Holds (λ b. op1 b key1) iv1 key1 [] r.1
    × Live iv1 r.1
    × (r.1.handle ≡ 1)
    × (r.1.index ≡ 1)
    × (r.1.j ≡ iv1 ++ be32 1)
    × (r.1.accum ≡ replicate 16 0)
    × (r.1.paccum ≡ replicate 16 0)
ed_init-Holds_example =
    ed_init-Holds loader1 0x10 memory1 iv1 key1 op1 (λ e. omega (arith, e)) refl memory1-Sized
      (omega arith) (omega arith)

abbrev test_key : List ℕ
test_key =
    0x66 ∷ 0xe9 ∷ 0x4b ∷ 0xd4 ∷ 0xef ∷ 0x8a ∷ 0x2c ∷ 0x3b ∷ 0x88 ∷ 0x4c ∷ 0xfa ∷ 0x59 ∷ 0xca ∷ 0x34
    ∷ 0x2b ∷ 0x2e ∷ []

abbrev test_ciphertext : List ℕ
test_ciphertext =
    0x03 ∷ 0x88 ∷ 0xda ∷ 0xce ∷ 0x60 ∷ 0xb6 ∷ 0xa3 ∷ 0x92 ∷ 0xf3 ∷ 0x28 ∷ 0xc2 ∷ 0xb9 ∷ 0x71 ∷ 0xb2
    ∷ 0xfe ∷ 0x78 ∷ []

-- Test case 2 of the specification of GCM.
digest_test :
    digest test_key test_ciphertext
    ≡ 0xf3 ∷ 0x8c ∷ 0xbb ∷ 0x1a ∷ 0xd6 ∷ 0x92 ∷ 0x23 ∷ 0xdc ∷ 0xc3 ∷ 0x45 ∷ 0x7a ∷ 0xe5 ∷ 0xb6
      ∷ 0xb0 ∷ 0xf8 ∷ 0x85 ∷ []
unfolding digest ghash blocks product block_sum block_of times coefficients times_x plus
digest_test = refl

addmul_refines_example :
    addmul test_key (replicate 5 7) 5 test_ciphertext
    ≡ product (block_sum test_key (replicate 5 7)) test_ciphertext
addmul_refines_example = addmul_refines test_key (replicate 5 7) test_ciphertext refl (omega arith)
