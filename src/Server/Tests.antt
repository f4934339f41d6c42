-- ===== src/Server/Tests.antt =====
-- The theorems on a message and on a connection, at records that split the tag and with a change of the
-- backend.
use mathlib.Core.List.{append-nil}
use myrtus_psm_edge.Common.{
  ℕ, ◌≡◌, refl, arith, List, [], ◌∷◌, ◌++◌, length, length-append, replicate, false, IsBytes,
  all_lt-IsBytes, ◌↔◌,
}
use myrtus_psm_edge.Backend.Spec
use myrtus_psm_edge.Backend.F1.Keys.{aes128_refines}
use myrtus_psm_edge.Backend.F2.Keys.{aes_enc_refines}
use myrtus_psm_edge.Gcm.{success, ed_init, dec_update, dec_final, crypto_verify_16}
use myrtus_psm_edge.Gcm.Spec.{be32, encrypt, tag}
use myrtus_psm_edge.Gcm.Blocks.{ctr_bytes, length-ctr_bytes}
use myrtus_psm_edge.Gcm.Tag.{length-tag}
use myrtus_psm_edge.Gcm.Message.{dec_final-dec_update}
use myrtus_psm_edge.Gcm.Tests.{iv1, key1, op1, op2, loader1, memory1, memory1-Sized}
use myrtus_psm_edge.Server.{Session, Served, saved, aborted, serve}
use myrtus_psm_edge.Server.Serves.{Serves}
use myrtus_psm_edge.Server.Receive.{short, full}
use myrtus_psm_edge.Server.Missing.{none_yet, one_more, serve-missing}
use myrtus_psm_edge.Server.Connection.{Memory, serve_lem, serve-encrypt}

abbrev pub session1 : Session
session1 = record {
  cx = memory1;
  outmsg = replicate 1024 1;
  buffer = replicate 1024 2;
  tag = replicate 32 3;
  tp = 9;
  ct = 8;
  kbyte = 7;
  part = false;
  file = [];
}

pub session1-Memory : Memory session1
session1-Memory = record {
  sized = memory1-Sized;
  outmsg_size = refl;
  buffer_size = refl;
  tag_size = refl;
}

abbrev pub cipher1 : List ℕ → List ℕ
cipher1 b = Spec.aes128 key1 b

pub Serves-f1 : Serves loader1 1 key1 cipher1 0x10
Serves-f1 = record {
  op = op1;
  found = refl;
  computes = λ x h. aes128_refines (replicate 176 0) x key1 refl h (omega arith);
}

pub Serves-f2 : Serves loader1 1 key1 cipher1 0x11
Serves-f2 = record {
  op = op2;
  found = refl;
  computes =
      λ x h. aes_enc_refines (replicate 176 0) x key1 (replicate 16 0) refl (omega arith) refl;
}

-- OpenSSL without the cipher: `evp == NULL`.
abbrev pub no_cipher : List (List ℕ) → Session → Served
no_cipher rs s = aborted s.file

abbrev fives : ℕ → List ℕ
fives n = replicate n 5

serve_lem_example :
    serve loader1 no_cipher 0x10 0x10 iv1 key1
      ((0x10, fives 1024) ∷ (0x11, fives 12) ∷ [])
      0x11
      session1
    ≡ saved
        (ctr_bytes cipher1 iv1 2 (fives 1020))
        (crypto_verify_16 (fives 16) (tag cipher1 iv1 (fives 1020)))
serve_lem_example =
    serve_lem loader1 0x10 iv1 key1 cipher1 ((0x10, fives 1024) ∷ (0x11, fives 12) ∷ []) session1
      no_cipher 0x10 0x11 (fives 1020) (fives 16) (λ e. omega (arith, e)) (λ e. omega (arith, e))
      (λ e. omega (arith, e)) Serves-f1 session1-Memory (omega arith) (omega arith)
      (full 0x10 (fives 1024) ((0x11, fives 12) ∷ []) Serves-f1 refl
        (short 0x11 (fives 12) Serves-f2 (omega arith) (omega arith)))
      refl refl (omega arith)

abbrev sevens : List ℕ
sevens = replicate 5 7

abbrev sent1 : List ℕ
sent1 = encrypt cipher1 iv1 sevens ++ tag cipher1 iv1 (encrypt cipher1 iv1 sevens)

sent1_size : length sent1 ≡ 21
unfolding encrypt
sent1_size = omega (
  arith,
  length-append (encrypt cipher1 iv1 sevens) (tag cipher1 iv1 (encrypt cipher1 iv1 sevens)),
  length-ctr_bytes cipher1 iv1 2 sevens,
  length-tag cipher1 iv1 (encrypt cipher1 iv1 sevens),
)

serve-encrypt_example :
    serve loader1 no_cipher 0x10 0x10 iv1 key1 ((0x11, sent1) ∷ []) 0x11 session1
    ≡ saved sevens success
serve-encrypt_example =
    serve-encrypt loader1 0x10 iv1 key1 cipher1 ((0x11, sent1) ∷ []) session1 no_cipher 0x10 0x11
      sevens (λ e. omega (arith, e)) (λ e. omega (arith, e)) (λ e. omega (arith, e)) Serves-f1
      session1-Memory (omega arith) (omega arith)
      (short 0x11 sent1 Serves-f2 (omega (arith, sent1_size)) (omega (arith, sent1_size)))
      (append-nil sent1) (omega arith)

-- Behind the first record the signal sets `mode` to zero, and there is no enc_s00_n00.
serve-missing_example :
    serve loader1 no_cipher 0x10 0x10 iv1 key1
      ((0x11, fives 1024) ∷ (0, replicate 1024 8) ∷ (0x10, fives 12) ∷ [])
      0
      session1
    ≡ aborted (ctr_bytes cipher1 iv1 2 (fives 1024 ++ []))
serve-missing_example =
    serve-missing loader1 0x10 iv1 key1 cipher1 ((0x11, fives 1024) ∷ []) ((0x10, fives 12) ∷ [])
      session1 no_cipher 0x10 0 0 (replicate 1024 8) (λ e. omega (arith, e)) (λ e. omega (arith, e))
      Serves-f1 session1-Memory (omega arith) (omega arith)
      (one_more 0x11 (fives 1024) [] Serves-f2 refl none_yet) refl refl (omega arith)

abbrev message1 : List ℕ
message1 = replicate 35 8

pub mask1-IsBytes : IsBytes (cipher1 (iv1 ++ be32 1))
unfolding Spec.aes128 Spec.encrypt_with Spec.full_rounds Spec.key_expansion Spec.schedule
    Spec.next_word Spec.temp_word Spec.add_round_key Spec.mix_columns Spec.gf_mul Spec.double
    Spec.shift_rows Spec.sub_bytes Spec.sbox Spec.sbox_table Spec.round_constant
mask1-IsBytes = all_lt-IsBytes (cipher1 (iv1 ++ be32 1)) refl

dec_final-dec_update_example :
    let i = ed_init loader1 0x10 memory1 iv1 key1 in
    let r = dec_update loader1 0x11 i.1 (replicate 40 0) message1 35 in
    (i.0 ≡ success)
    × (r.0 ≡ success)
    × (r.2 ≡ ctr_bytes cipher1 iv1 2 message1 ++ replicate 5 0)
    × ((dec_final r.1 (fives 16) ≡ success) ↔ (fives 16 ≡ tag cipher1 iv1 message1))
dec_final-dec_update_example =
    dec_final-dec_update loader1 0x10 0x11 memory1 iv1 key1 cipher1 (replicate 40 0) message1
      (fives 16) (λ e. omega (arith, e)) Serves-f1 Serves-f2 memory1-Sized (omega arith)
      (omega arith) (omega arith) (omega arith) refl (all_lt-IsBytes (fives 16) refl) mask1-IsBytes
