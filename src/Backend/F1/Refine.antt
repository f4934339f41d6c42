-- ===== src/Backend/F1/Refine.antt =====
-- The functions of backends/f1/aes128.c against the block cipher of the specification.
use myrtus_psm_edge.Common.{
  ℕ, zero, suc, ◌+◌, ◌<◌, ◌≡◌, refl, sym, ◌∙◌, ap, ap₂, arith, List, [], ◌∷◌, get_or, length,
  array_ind, true, ◌==◌, ==_iff, ==_of_eq, ==_of_ne, all_below, all_below_sound, ◌⊕◌, add, var,
  same_sum_sound, xor_byte-lt,
}
use myrtus_psm_edge.Backend.Spec
use myrtus_psm_edge.Backend.Spec.{double, gf_mul, sbox}
use myrtus_psm_edge.Backend.Spec.Field.{double-xor, mixed-double}
use myrtus_psm_edge.Backend.Spec.Blocks.{
  AllBytes, ◌&≡◌, shift_rows-sub_bytes-AllBytes, length-sub_bytes, length-shift_rows,
  length-mix_columns, length-add_round_key,
}
use myrtus_psm_edge.Backend.F1

-- `sbox` is the S-box computed from inverses in GF(2 ^ 8).
sbox-table : F1.sbox ≡ Spec.sbox_table
unfolding Spec.sbox_table
sbox-table = refl

pub get_sbox_value-sbox : (x : ℕ) → F1.get_sbox_value x ≡ sbox x
unfolding F1.get_sbox_value Spec.sbox
get_sbox_value-sbox x = ap (λ t. get_or t x 0) sbox-table

pub sub_bytes_refines : (s : List ℕ) → length s ≡ 16 → F1.sub_bytes s ≡ Spec.sub_bytes s
unfolding F1.sub_bytes Spec.sub_bytes
sub_bytes_refines =
    array_ind 16 (λ s. F1.sub_bytes s ≡ Spec.sub_bytes s)
      (λ a b c d e f g h i j k l m n o p. simp get_sbox_value-sbox)

pub shift_rows_refines : (s : List ℕ) → length s ≡ 16 → F1.shift_rows s ≡ Spec.shift_rows s
unfolding F1.shift_rows Spec.shift_rows
shift_rows_refines =
    array_ind 16 (λ s. F1.shift_rows s ≡ Spec.shift_rows s)
      (λ a b c d e f g h i j k l m n o p. refl)

xtime_table : all_below 256 (λ x. F1.xtime x == double x) ≡ true
unfolding all_below F1.xtime Spec.double
xtime_table = refl

xtime-xor : (x y : ℕ) → x < 256 → y < 256 → F1.xtime (x ⊕ y) ≡ double x ⊕ double y
xtime-xor x y p q =
    (==_iff _ _).0 (all_below_sound 256 _ (x ⊕ y) xtime_table (xor_byte-lt x y p q))
    ∙ double-xor x y p q

pub add_round_key_refines :
    (w : List ℕ) (round : ℕ) (s : List ℕ)
    → length s ≡ 16
    → F1.add_round_key round s w ≡ Spec.add_round_key w round s
unfolding F1.add_round_key Spec.add_round_key
add_round_key_refines w round =
    array_ind 16 (λ s. F1.add_round_key round s w ≡ Spec.add_round_key w round s)
      (λ a b c d e f g h i j k l m n o p. ground arith)

-- One byte of a mixed column: `all` is the sum of the column.
mixed_row :
    (x y z v all : ℕ)
    → all ≡ x ⊕ y ⊕ z ⊕ v
    → x < 256
    → y < 256
    → x ⊕ (F1.xtime (x ⊕ y) ⊕ all) ≡ gf_mul 2 x ⊕ gf_mul 3 y ⊕ z ⊕ v
mixed_row x y z v all e p q =
    ap₂ (λ t u. x ⊕ (t ⊕ u)) (xtime-xor x y p q) e
    ∙ same_sum_sound (x ∷ y ∷ z ∷ v ∷ double x ∷ double y ∷ [])
        (add (var 0) (add (add (var 4) (var 5)) (add (add (add (var 0) (var 1)) (var 2)) (var 3))))
        (add (add (add (var 4) (add (var 1) (var 5))) (var 2)) (var 3)) refl
    ∙ sym (mixed-double x y z v)

turn : (a b c d : ℕ) → a ⊕ b ⊕ c ⊕ d ≡ b ⊕ c ⊕ d ⊕ a
turn a b c d =
    same_sum_sound (a ∷ b ∷ c ∷ d ∷ []) (add (add (add (var 0) (var 1)) (var 2)) (var 3))
      (add (add (add (var 1) (var 2)) (var 3)) (var 0)) refl

mixed_column :
    (a b c d : ℕ) {xs ys : List ℕ}
    → a < 256
    → b < 256
    → c < 256
    → d < 256
    → xs ≡ ys
    → let all = a ⊕ b ⊕ c ⊕ d in
      (a ⊕ (F1.xtime (a ⊕ b) ⊕ all))
        ∷ (b ⊕ (F1.xtime (b ⊕ c) ⊕ all))
        ∷ (c ⊕ (F1.xtime (c ⊕ d) ⊕ all))
        ∷ (d ⊕ (F1.xtime (d ⊕ a) ⊕ all))
        ∷ xs
      ≡ (gf_mul 2 a ⊕ gf_mul 3 b ⊕ c ⊕ d)
        ∷ (gf_mul 2 b ⊕ gf_mul 3 c ⊕ d ⊕ a)
        ∷ (gf_mul 2 c ⊕ gf_mul 3 d ⊕ a ⊕ b)
        ∷ (gf_mul 2 d ⊕ gf_mul 3 a ⊕ b ⊕ c)
        ∷ ys
mixed_column a b c d pa pb pc pd rest =
    mixed_row a b c d _ refl pa pb
    &≡ mixed_row b c d a _ (turn a b c d) pb pc
    &≡ mixed_row c d a b _ (turn a b c d ∙ turn b c d a) pc pd
    &≡ mixed_row d a b c _ (turn a b c d ∙ turn b c d a ∙ turn c d a b) pd pa
    &≡ rest

pub mix_columns_refines :
    (s : List ℕ) → length s ≡ 16 → AllBytes s → F1.mix_columns s ≡ Spec.mix_columns s
unfolding F1.mix_columns Spec.mix_columns F1.mix_column
mix_columns_refines =
    array_ind 16 (λ s. AllBytes s → F1.mix_columns s ≡ Spec.mix_columns s)
      (λ a b c d e f g h i j k l m n o p v. mixed_column a b c d v.0 v.1.0 v.1.1.0 v.1.1.1.0 (
        mixed_column e f g h v.1.1.1.1.0 v.1.1.1.1.1.0 v.1.1.1.1.1.1.0 v.1.1.1.1.1.1.1.0 (
          mixed_column i j k l v.1.1.1.1.1.1.1.1.0 v.1.1.1.1.1.1.1.1.1.0 v.1.1.1.1.1.1.1.1.1.1.0
            v.1.1.1.1.1.1.1.1.1.1.1.0
            (mixed_column m n o p v.1.1.1.1.1.1.1.1.1.1.1.1.0 v.1.1.1.1.1.1.1.1.1.1.1.1.1.0
              v.1.1.1.1.1.1.1.1.1.1.1.1.1.1.0 v.1.1.1.1.1.1.1.1.1.1.1.1.1.1.1.0 refl))))

-- The mixing of a state that has been through the S-box.
mix_shifted_refines :
    (s : List ℕ)
    → F1.mix_columns (Spec.shift_rows (Spec.sub_bytes s))
      ≡ Spec.mix_columns (Spec.shift_rows (Spec.sub_bytes s))
mix_shifted_refines s =
    mix_columns_refines _ (length-shift_rows _) (shift_rows-sub_bytes-AllBytes s)

shifted_refines :
    (s : List ℕ)
    → length s ≡ 16
    → F1.shift_rows (F1.sub_bytes s) ≡ Spec.shift_rows (Spec.sub_bytes s)
shifted_refines s len =
    ap F1.shift_rows (sub_bytes_refines s len) ∙ shift_rows_refines _ (length-sub_bytes s)

-- The loop leaves by its `break` at round 10; the rounds before it are full.
rounds_refines :
    (n round : ℕ) (w s : List ℕ)
    → n + round ≡ 10
    → length s ≡ 16
    → F1.rounds (suc n) round s w ≡ Spec.shift_rows (Spec.sub_bytes (Spec.full_rounds w n round s))
unfolding F1.rounds Spec.full_rounds
rounds_refines zero round w s e len = rw (==_of_eq round 10 (omega arith)) (shifted_refines s len)
rounds_refines (suc n) round w s e len =
    rw
      (
        ==_of_ne round 10 (λ h. omega arith),
        shifted_refines s len,
        mix_shifted_refines s,
        add_round_key_refines w round _ (length-mix_columns _),
      )
      (rounds_refines n (round + 1) w _ (omega arith) (length-add_round_key w round _))

-- On one block and one expanded key, `Cipher` is the cipher of FIPS 197.
pub cipher_refines : (s w : List ℕ) → length s ≡ 16 → F1.cipher s w ≡ Spec.encrypt_with 10 w s
unfolding F1.cipher Spec.encrypt_with
cipher_refines s w len =
    ap (λ t. F1.add_round_key 10 t w)
      (ap (λ t. F1.rounds 10 1 t w) (add_round_key_refines w 0 s len)
        ∙ rounds_refines 9 1 w _ refl (length-add_round_key w 0 s))
    ∙ add_round_key_refines w 10 _ (length-shift_rows _)
