-- ===== src/Backend/F4/Refine.antt =====
-- The functions of backends/f4/aes256.c against the block cipher of the specification. Those that
-- do not depend on the key size are the functions of backends/f1/aes128.c under other names.
use myrtus_psm_edge.Common.{
  ℕ, zero, suc, ◌+◌, ◌≡◌, refl, ◌∙◌, ap, arith, List, length, ==_of_eq, ==_of_ne,
}
use myrtus_psm_edge.Backend.Spec
use myrtus_psm_edge.Backend.Spec.Blocks
use myrtus_psm_edge.Backend.Spec.Blocks.{
  shift_rows-sub_bytes-AllBytes, length-sub_bytes, length-shift_rows, length-mix_columns,
  length-add_round_key,
}
use myrtus_psm_edge.Backend.F1
use myrtus_psm_edge.Backend.F1.Refine
use myrtus_psm_edge.Backend.F4

pub get_sbox_value-sbox : (x : ℕ) → F4.get_sbox_value x ≡ Spec.sbox x
unfolding F4.get_sbox_value F1.get_sbox_value
get_sbox_value-sbox x = Refine.get_sbox_value-sbox x

sub_bytes_refines : (s : List ℕ) → length s ≡ 16 → F4.sub_bytes s ≡ Spec.sub_bytes s
unfolding F4.sub_bytes F1.sub_bytes F4.get_sbox_value F1.get_sbox_value
sub_bytes_refines s = Refine.sub_bytes_refines s

shift_rows_refines : (s : List ℕ) → length s ≡ 16 → F4.shift_rows s ≡ Spec.shift_rows s
unfolding F4.shift_rows F1.shift_rows
shift_rows_refines s = Refine.shift_rows_refines s

add_round_key_refines :
    (w : List ℕ) (round : ℕ) (s : List ℕ)
    → length s ≡ 16
    → F4.add_round_key round s w ≡ Spec.add_round_key w round s
unfolding F4.add_round_key F1.add_round_key
add_round_key_refines w round s = Refine.add_round_key_refines w round s

mix_columns_refines :
    (s : List ℕ) → length s ≡ 16 → Blocks.AllBytes s → F4.mix_columns s ≡ Spec.mix_columns s
unfolding F4.mix_columns F1.mix_columns F4.mix_column F1.mix_column F4.xtime F1.xtime
mix_columns_refines s = Refine.mix_columns_refines s

-- The mixing of a state that has been through the S-box.
mix_shifted_refines :
    (s : List ℕ)
    → F4.mix_columns (Spec.shift_rows (Spec.sub_bytes s))
      ≡ Spec.mix_columns (Spec.shift_rows (Spec.sub_bytes s))
mix_shifted_refines s =
    mix_columns_refines _ (length-shift_rows _) (shift_rows-sub_bytes-AllBytes s)

shifted_refines :
    (s : List ℕ)
    → length s ≡ 16
    → F4.shift_rows (F4.sub_bytes s) ≡ Spec.shift_rows (Spec.sub_bytes s)
shifted_refines s len =
    ap F4.shift_rows (sub_bytes_refines s len) ∙ shift_rows_refines _ (length-sub_bytes s)

-- The loop leaves by its `break` at round 14; the rounds before it are full.
rounds_refines :
    (n round : ℕ) (w s : List ℕ)
    → n + round ≡ 14
    → length s ≡ 16
    → F4.rounds (suc n) round s w ≡ Spec.shift_rows (Spec.sub_bytes (Spec.full_rounds w n round s))
unfolding F4.rounds Spec.full_rounds
rounds_refines zero round w s e len = rw (==_of_eq round 14 (omega arith)) (shifted_refines s len)
rounds_refines (suc n) round w s e len =
    rw
      (
        ==_of_ne round 14 (λ h. omega arith),
        shifted_refines s len,
        mix_shifted_refines s,
        add_round_key_refines w round _ (length-mix_columns _),
      )
      (rounds_refines n (round + 1) w _ (omega arith) (length-add_round_key w round _))

-- On one block and one expanded key, `Cipher` is the cipher of FIPS 197.
pub cipher_refines : (s w : List ℕ) → length s ≡ 16 → F4.cipher s w ≡ Spec.encrypt_with 14 w s
unfolding F4.cipher Spec.encrypt_with
cipher_refines s w len =
    ap (λ t. F4.add_round_key 14 t w)
      (ap (λ t. F4.rounds 14 1 t w) (add_round_key_refines w 0 s len)
        ∙ rounds_refines 13 1 w _ refl (length-add_round_key w 0 s))
    ∙ add_round_key_refines w 14 _ (length-shift_rows _)
