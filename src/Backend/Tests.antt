-- ===== src/Backend/Tests.antt =====
-- The vectors of src/check1.c and src/check2.c, and the theorems on the backends at them.
use myrtus_psm_edge.Common.{ℕ, List, [], ◌∷◌, ◌≡◌, refl, replicate, arith, for_range, set, get_or}
use myrtus_psm_edge.Backend.F1
use myrtus_psm_edge.Backend.F2
use myrtus_psm_edge.Backend.F3
use myrtus_psm_edge.Backend.F4
use myrtus_psm_edge.Backend.F5
use myrtus_psm_edge.Backend.F6
use myrtus_psm_edge.Backend.Spec
use myrtus_psm_edge.Backend.F1.Keys.{aes128_refines}
use myrtus_psm_edge.Backend.F2.Keys.{aes_enc_refines}
use myrtus_psm_edge.Backend.F4.Keys.{aes256_refines}
use myrtus_psm_edge.Backend.F5.Keys.{aes256_enc_refines}
use myrtus_psm_edge.Backend.F3.Schedule.{bitsliced_128_refines}
use myrtus_psm_edge.Backend.F6.Schedule.{bitsliced_256_refines}
use myrtus_psm_edge.Backend.F6.Sbox.{gates_6_refines}
use myrtus_psm_edge.Backend.Agree.{aes128-aes_enc, aes256-aes256_enc}

abbrev pub key1 : List ℕ
key1 =
    0x84 ∷ 0x81 ∷ 0x85 ∷ 0xdf ∷ 0xa9 ∷ 0x51 ∷ 0xf1 ∷ 0x1e ∷ 0x13 ∷ 0x97 ∷ 0x24 ∷ 0x8a ∷ 0x6a ∷ 0x69
    ∷ 0x8b ∷ 0x17 ∷ []

abbrev pub pt1 : List ℕ
pt1 =
    0xad ∷ 0x40 ∷ 0xa8 ∷ 0x96 ∷ 0xb1 ∷ 0xc7 ∷ 0xea ∷ 0xa0 ∷ 0x52 ∷ 0xb1 ∷ 0xa7 ∷ 0x0b ∷ 0xd6 ∷ 0x45
    ∷ 0xdb ∷ 0x66 ∷ []

abbrev pub expected1 : List ℕ
expected1 =
    0x6f ∷ 0x0f ∷ 0xa9 ∷ 0x16 ∷ 0x3f ∷ 0x92 ∷ 0xc5 ∷ 0x60 ∷ 0x27 ∷ 0xea ∷ 0x4d ∷ 0x32 ∷ 0x94 ∷ 0x55
    ∷ 0xd7 ∷ 0xd7 ∷ []

abbrev pub key2 : List ℕ
key2 =
    0x60 ∷ 0x3d ∷ 0xeb ∷ 0x10 ∷ 0x15 ∷ 0xca ∷ 0x71 ∷ 0xbe ∷ 0x2b ∷ 0x73 ∷ 0xae ∷ 0xf0 ∷ 0x85 ∷ 0x7d
    ∷ 0x77 ∷ 0x81 ∷ 0x1f ∷ 0x35 ∷ 0x2c ∷ 0x07 ∷ 0x3b ∷ 0x61 ∷ 0x08 ∷ 0xd7 ∷ 0x2d ∷ 0x98 ∷ 0x10
    ∷ 0xa3 ∷ 0x09 ∷ 0x14 ∷ 0xdf ∷ 0xf4 ∷ []

abbrev pub pt2 : List ℕ
pt2 =
    0x6b ∷ 0xc1 ∷ 0xbe ∷ 0xe2 ∷ 0x2e ∷ 0x40 ∷ 0x9f ∷ 0x96 ∷ 0xe9 ∷ 0x3d ∷ 0x7e ∷ 0x11 ∷ 0x73 ∷ 0x93
    ∷ 0x17 ∷ 0x2a ∷ []

abbrev pub expected2 : List ℕ
expected2 =
    0xf3 ∷ 0xee ∷ 0xd1 ∷ 0xbd ∷ 0xb5 ∷ 0xd2 ∷ 0xa0 ∷ 0x3c ∷ 0x06 ∷ 0x4b ∷ 0x5a ∷ 0x7e ∷ 0x3d ∷ 0xb1
    ∷ 0x81 ∷ 0xf8 ∷ []

spec_vector_128 : Spec.aes128 key1 pt1 ≡ expected1
unfolding Spec.aes128 Spec.encrypt_with Spec.full_rounds Spec.key_expansion Spec.schedule
    Spec.next_word Spec.temp_word Spec.add_round_key Spec.mix_columns Spec.gf_mul Spec.double
    Spec.shift_rows Spec.sub_bytes Spec.sbox Spec.sbox_table Spec.round_constant
spec_vector_128 = refl

spec_vector_256 : Spec.aes256 key2 pt2 ≡ expected2
unfolding Spec.aes256 Spec.encrypt_with Spec.full_rounds Spec.key_expansion Spec.schedule
    Spec.next_word Spec.temp_word Spec.add_round_key Spec.mix_columns Spec.gf_mul Spec.double
    Spec.shift_rows Spec.sub_bytes Spec.sbox Spec.sbox_table Spec.round_constant
spec_vector_256 = refl

f1_vector : F1.aes128 (replicate 176 0) pt1 key1 ≡ expected1
unfolding F1.aes128 F1.cipher F1.rounds F1.mix_columns F1.mix_column F1.xtime F1.shift_rows
    F1.sub_bytes F1.add_round_key F1.key_expansion F1.copy_key F1.expand_word F1.temp_word
    F1.core_word F1.get_sbox_value
f1_vector = refl

f2_vector : F2.aes_enc (replicate 176 0) pt1 key1 (replicate 16 0) ≡ expected1
unfolding F2.aes_enc F2.round_step F2.add_round_key F2.shift_row F2.sub_bytes F2.mcol F2.mix_column
    F2.expand_key F2.expand_loop F2.expand_block F2.schedule_core F2.rcon F2.rcon_loop F2.gmul2
    F2.rotate F2.sub
f2_vector = refl

aes128_refines_example : F1.aes128 (replicate 176 0) pt1 key1 ≡ Spec.aes128 key1 pt1
aes128_refines_example = aes128_refines (replicate 176 0) pt1 key1 refl refl (omega arith)

aes_enc_refines_example :
    F2.aes_enc (replicate 176 0) pt1 key1 (replicate 16 0) ≡ Spec.aes128 key1 pt1
aes_enc_refines_example =
    aes_enc_refines (replicate 176 0) pt1 key1 (replicate 16 0) refl (omega arith) refl

aes256_refines_example : F4.aes256 (replicate 240 0) pt2 key2 ≡ Spec.aes256 key2 pt2
aes256_refines_example = aes256_refines (replicate 240 0) pt2 key2 refl refl (omega arith)

aes256_enc_refines_example :
    F5.aes256_enc (replicate 240 0) pt2 key2 (replicate 16 0) ≡ Spec.aes256 key2 pt2
aes256_enc_refines_example =
    aes256_enc_refines (replicate 240 0) pt2 key2 (replicate 16 0) refl (omega arith) refl

aes128-aes_enc_example :
    F1.aes128 (replicate 176 0) pt1 key1 ≡ F2.aes_enc (replicate 176 7) pt1 key1 (replicate 16 0)
aes128-aes_enc_example =
    aes128-aes_enc (replicate 176 0) (replicate 176 7) pt1 key1 (replicate 16 0) refl refl refl
      (omega arith) refl

aes256-aes256_enc_example :
    F4.aes256 (replicate 240 0) pt2 key2 ≡ F5.aes256_enc (replicate 240 7) pt2 key2 (replicate 16 0)
aes256-aes256_enc_example =
    aes256-aes256_enc (replicate 240 0) (replicate 240 7) pt2 key2 (replicate 16 0) refl refl refl
      (omega arith) refl

bitsliced_128_refines_example :
    F3.expand_key (for_range 16 0 (λ i s. set s i (get_or key1 i 0)) (replicate 176 9))
    ≡ Spec.key_expansion 4 10 key1
bitsliced_128_refines_example = bitsliced_128_refines (replicate 176 9) key1 refl (omega arith)

bitsliced_256_refines_example :
    F6.expand_key (for_range 32 0 (λ i s. set s i (get_or key2 i 0)) (replicate 240 9))
    ≡ Spec.key_expansion 8 14 key2
bitsliced_256_refines_example = bitsliced_256_refines (replicate 240 9) key2 refl (omega arith)

gates_6_refines_example :
    F6.Sbox.bs_sbox (F6.Sbox.all_lanes 0x53) ≡ F6.Sbox.all_lanes (Spec.sbox 0x53)
gates_6_refines_example = gates_6_refines 0x53 (omega arith)
