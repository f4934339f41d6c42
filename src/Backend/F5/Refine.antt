-- ===== src/Backend/F5/Refine.antt =====
-- The functions of backends/f5/a.c on the state, against the block cipher of the specification.
-- Those that do not depend on the key size are the functions of backends/f2/a.c under other names.
use myrtus_psm_edge.Common.{
  ℕ, zero, suc, ◌+◌, ◌<◌, ◌≡◌, ◌∙◌, ap, arith, List, length, ==_of_ne, for_range,
}
use myrtus_psm_edge.Backend.Spec
use myrtus_psm_edge.Backend.Spec.Blocks.{
  AllBytes, shift_rows-sub_bytes-AllBytes, length-sub_bytes, length-shift_rows, length-mix_columns,
  length-add_round_key,
}
use myrtus_psm_edge.Backend.F2
use myrtus_psm_edge.Backend.F2.Refine
use myrtus_psm_edge.Backend.F5

pub sub-sbox : (x : ℕ) → F5.sub x ≡ Spec.sbox x
unfolding F5.sub F2.sub
sub-sbox x = Refine.sub-sbox x

sub_bytes_refines : (s : List ℕ) → length s ≡ 16 → F5.sub_bytes s ≡ Spec.sub_bytes s
unfolding F5.sub_bytes F2.sub_bytes F5.sub F2.sub
sub_bytes_refines s = Refine.sub_bytes_refines s

shift_row_refines : (s : List ℕ) → length s ≡ 16 → F5.shift_row s ≡ Spec.shift_rows s
unfolding F5.shift_row F2.shift_row
shift_row_refines s = Refine.shift_row_refines s

add_round_key_refines :
    (w : List ℕ) (round : ℕ) (s : List ℕ)
    → length s ≡ 16
    → F5.add_round_key w round s ≡ Spec.add_round_key w round s
unfolding F5.add_round_key F2.add_round_key
add_round_key_refines w round s = Refine.add_round_key_refines w round s

mcol_refines : (s : List ℕ) → length s ≡ 16 → AllBytes s → F5.mcol s ≡ Spec.mix_columns s
unfolding F5.mcol F2.mcol F5.mix_column F2.mix_column F5.gmul2 F2.gmul2
mcol_refines s = Refine.mcol_refines s

mix_shifted_refines :
    (s : List ℕ)
    → F5.mcol (Spec.shift_rows (Spec.sub_bytes s))
      ≡ Spec.mix_columns (Spec.shift_rows (Spec.sub_bytes s))
mix_shifted_refines s = mcol_refines _ (length-shift_rows _) (shift_rows-sub_bytes-AllBytes s)

shifted_refines :
    (s : List ℕ)
    → length s ≡ 16
    → F5.shift_row (F5.sub_bytes s) ≡ Spec.shift_rows (Spec.sub_bytes s)
shifted_refines s len =
    ap F5.shift_row (sub_bytes_refines s len) ∙ shift_row_refines _ (length-sub_bytes s)

-- A round before the last.
full_round :
    (w : List ℕ) (round : ℕ) (s : List ℕ)
    → round < 14
    → length s ≡ 16
    → F5.round_step w round s
      ≡ Spec.add_round_key w round (Spec.mix_columns (Spec.shift_rows (Spec.sub_bytes s)))
unfolding F5.round_step
full_round w round s lt len =
    rw (==_of_ne round 14 (λ h. omega arith), shifted_refines s len, mix_shifted_refines s)
      (add_round_key_refines w round _ (length-mix_columns _))

-- The last round leaves out the mixing.
last_round :
    (w : List ℕ) (s : List ℕ)
    → length s ≡ 16
    → F5.round_step w 14 s ≡ Spec.add_round_key w 14 (Spec.shift_rows (Spec.sub_bytes s))
unfolding F5.round_step
last_round w s len = rw (shifted_refines s len) (add_round_key_refines w 14 _ (length-shift_rows _))

pub rounds_refines :
    (n round : ℕ) (w s : List ℕ)
    → n + round ≡ 14
    → length s ≡ 16
    → for_range (suc n) round (F5.round_step w) s
      ≡ Spec.add_round_key w 14 (Spec.shift_rows (Spec.sub_bytes (Spec.full_rounds w n round s)))
unfolding Spec.full_rounds
rounds_refines zero round w s e len =
    ap (λ r. F5.round_step w r s) (omega arith) ∙ last_round w s len
rounds_refines (suc n) round w s e len =
    rw (full_round w round s (omega arith) len)
      (rounds_refines n (round + 1) w _ (omega arith) (length-add_round_key w round _))
