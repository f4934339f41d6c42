-- ===== src/Backend/F2/Refine.antt =====
-- The functions of backends/f2/a.c on the state, against the block cipher of the specification.
use myrtus_psm_edge.Common.{
  ℕ, zero, suc, ◌+◌, ◌<◌, ◌≡◌, refl, sym, ◌∙◌, ap, ap₂, arith, List, [], ◌∷◌, get_or, length,
  array_ind, true, ◌==◌, ==_iff, ==_of_ne, all_below, all_below_sound, ◌⊕◌, add, var,
  same_sum_sound, for_range,
}
use myrtus_psm_edge.Backend.Spec
use myrtus_psm_edge.Backend.Spec.{double, gf_mul, sbox}
use myrtus_psm_edge.Backend.Spec.Field.{mixed-double}
use myrtus_psm_edge.Backend.Spec.Blocks.{
  AllBytes, ◌&≡◌, shift_rows-sub_bytes-AllBytes, length-sub_bytes, length-shift_rows,
  length-mix_columns, length-add_round_key,
}
use myrtus_psm_edge.Backend.F2

sbox-table : F2.sbox_f2 ≡ Spec.sbox_table
unfolding Spec.sbox_table
sbox-table = refl

pub sub-sbox : (x : ℕ) → F2.sub x ≡ sbox x
unfolding F2.sub Spec.sbox
sub-sbox x = ap (λ t. get_or t x 0) sbox-table

pub sub_bytes_refines : (s : List ℕ) → length s ≡ 16 → F2.sub_bytes s ≡ Spec.sub_bytes s
unfolding F2.sub_bytes Spec.sub_bytes
sub_bytes_refines =
    array_ind 16 (λ s. F2.sub_bytes s ≡ Spec.sub_bytes s)
      (λ a b c d e f g h i j k l m n o p. simp sub-sbox)

pub shift_row_refines : (s : List ℕ) → length s ≡ 16 → F2.shift_row s ≡ Spec.shift_rows s
unfolding F2.shift_row Spec.shift_rows
shift_row_refines =
    array_ind 16 (λ s. F2.shift_row s ≡ Spec.shift_rows s) (λ a b c d e f g h i j k l m n o p. refl)

gmul2_table : all_below 256 (λ x. F2.gmul2 x == double x) ≡ true
unfolding all_below F2.gmul2 Spec.double
gmul2_table = refl

pub gmul2-double : (x : ℕ) → x < 256 → F2.gmul2 x ≡ double x
gmul2-double x p = (==_iff _ _).0 (all_below_sound 256 _ x gmul2_table p)

pub add_round_key_refines :
    (w : List ℕ) (round : ℕ) (s : List ℕ)
    → length s ≡ 16
    → F2.add_round_key w round s ≡ Spec.add_round_key w round s
unfolding F2.add_round_key Spec.add_round_key
add_round_key_refines w round =
    array_ind 16 (λ s. F2.add_round_key w round s ≡ Spec.add_round_key w round s)
      (λ a b c d e f g h i j k l m n o p. ground arith)

-- One byte of a mixed column.
mixed_row :
    (x y z v : ℕ)
    → x < 256
    → y < 256
    → F2.gmul2 x ⊕ z ⊕ (F2.gmul2 y ⊕ v) ⊕ y ≡ gf_mul 2 x ⊕ gf_mul 3 y ⊕ z ⊕ v
mixed_row x y z v p q =
    ap₂ (λ t u. t ⊕ z ⊕ (u ⊕ v) ⊕ y) (gmul2-double x p) (gmul2-double y q)
    ∙ same_sum_sound (x ∷ y ∷ z ∷ v ∷ double x ∷ double y ∷ [])
        (add (add (add (var 4) (var 2)) (add (var 5) (var 3))) (var 1))
        (add (add (add (var 4) (add (var 1) (var 5))) (var 2)) (var 3)) refl
    ∙ sym (mixed-double x y z v)

mixed_column :
    (a b c d : ℕ) {xs ys : List ℕ}
    → a < 256
    → b < 256
    → c < 256
    → d < 256
    → xs ≡ ys
    → (F2.gmul2 a ⊕ c ⊕ (F2.gmul2 b ⊕ d) ⊕ b)
        ∷ (F2.gmul2 b ⊕ d ⊕ (F2.gmul2 c ⊕ a) ⊕ c)
        ∷ (F2.gmul2 c ⊕ a ⊕ (F2.gmul2 d ⊕ b) ⊕ d)
        ∷ (F2.gmul2 d ⊕ b ⊕ (F2.gmul2 a ⊕ c) ⊕ a)
        ∷ xs
      ≡ (gf_mul 2 a ⊕ gf_mul 3 b ⊕ c ⊕ d)
        ∷ (gf_mul 2 b ⊕ gf_mul 3 c ⊕ d ⊕ a)
        ∷ (gf_mul 2 c ⊕ gf_mul 3 d ⊕ a ⊕ b)
        ∷ (gf_mul 2 d ⊕ gf_mul 3 a ⊕ b ⊕ c)
        ∷ ys
mixed_column a b c d pa pb pc pd rest =
    mixed_row a b c d pa pb
    &≡ mixed_row b c d a pb pc
    &≡ mixed_row c d a b pc pd
    &≡ mixed_row d a b c pd pa
    &≡ rest

pub mcol_refines : (s : List ℕ) → length s ≡ 16 → AllBytes s → F2.mcol s ≡ Spec.mix_columns s
unfolding F2.mcol Spec.mix_columns F2.mix_column
mcol_refines =
    array_ind 16 (λ s. AllBytes s → F2.mcol s ≡ Spec.mix_columns s)
      (λ a b c d e f g h i j k l m n o p v. mixed_column a b c d v.0 v.1.0 v.1.1.0 v.1.1.1.0 (
        mixed_column e f g h v.1.1.1.1.0 v.1.1.1.1.1.0 v.1.1.1.1.1.1.0 v.1.1.1.1.1.1.1.0 (
          mixed_column i j k l v.1.1.1.1.1.1.1.1.0 v.1.1.1.1.1.1.1.1.1.0 v.1.1.1.1.1.1.1.1.1.1.0
            v.1.1.1.1.1.1.1.1.1.1.1.0
            (mixed_column m n o p v.1.1.1.1.1.1.1.1.1.1.1.1.0 v.1.1.1.1.1.1.1.1.1.1.1.1.1.0
              v.1.1.1.1.1.1.1.1.1.1.1.1.1.1.0 v.1.1.1.1.1.1.1.1.1.1.1.1.1.1.1.0 refl))))

mix_shifted_refines :
    (s : List ℕ)
    → F2.mcol (Spec.shift_rows (Spec.sub_bytes s))
      ≡ Spec.mix_columns (Spec.shift_rows (Spec.sub_bytes s))
mix_shifted_refines s = mcol_refines _ (length-shift_rows _) (shift_rows-sub_bytes-AllBytes s)

shifted_refines :
    (s : List ℕ)
    → length s ≡ 16
    → F2.shift_row (F2.sub_bytes s) ≡ Spec.shift_rows (Spec.sub_bytes s)
shifted_refines s len =
    ap F2.shift_row (sub_bytes_refines s len) ∙ shift_row_refines _ (length-sub_bytes s)

-- A round before the last.
full_round :
    (w : List ℕ) (round : ℕ) (s : List ℕ)
    → round < 10
    → length s ≡ 16
    → F2.round_step w round s
      ≡ Spec.add_round_key w round (Spec.mix_columns (Spec.shift_rows (Spec.sub_bytes s)))
unfolding F2.round_step
full_round w round s lt len =
    rw (==_of_ne round 10 (λ h. omega arith), shifted_refines s len, mix_shifted_refines s)
      (add_round_key_refines w round _ (length-mix_columns _))

-- The last round leaves out the mixing.
last_round :
    (w : List ℕ) (s : List ℕ)
    → length s ≡ 16
    → F2.round_step w 10 s ≡ Spec.add_round_key w 10 (Spec.shift_rows (Spec.sub_bytes s))
unfolding F2.round_step
last_round w s len = rw (shifted_refines s len) (add_round_key_refines w 10 _ (length-shift_rows _))

pub rounds_refines :
    (n round : ℕ) (w s : List ℕ)
    → n + round ≡ 10
    → length s ≡ 16
    → for_range (suc n) round (F2.round_step w) s
      ≡ Spec.add_round_key w 10 (Spec.shift_rows (Spec.sub_bytes (Spec.full_rounds w n round s)))
unfolding Spec.full_rounds
rounds_refines zero round w s e len =
    ap (λ r. F2.round_step w r s) (omega arith) ∙ last_round w s len
rounds_refines (suc n) round w s e len =
    rw (full_round w round s (omega arith) len)
      (rounds_refines n (round + 1) w _ (omega arith) (length-add_round_key w round _))
