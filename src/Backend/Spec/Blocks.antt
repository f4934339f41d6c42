-- ===== src/Backend/Spec/Blocks.antt =====
-- Lists whose entries are bytes, and paths between lists entry by entry.
use myrtus_psm_edge.Common.{
  ℕ, zero, suc, ◌<◌, ◌≡◌, refl, ap₂, List, [], ◌∷◌, ◌+◌, length, all_lt-IsBytes,
}
use myrtus_psm_edge.Backend.Spec.{
  sbox, sbox_table, sub_bytes, shift_rows, mix_columns, add_round_key, full_rounds,
}

infixr 67 ◌&≡◌
pub ◌&≡◌ : {x y : ℕ} {xs ys : List ℕ} → x ≡ y → xs ≡ ys → x ∷ xs ≡ y ∷ ys
p &≡ q = ap₂ ◌∷◌ p q

abbrev pub AllBytes : List ℕ → Type 0
AllBytes [] = Unit
AllBytes (x ∷ xs) = (x < 256) × AllBytes xs

pub sbox-lt : (x : ℕ) → sbox x < 256
unfolding sbox sbox_table
sbox-lt x = all_lt-IsBytes sbox_table refl x

-- Whatever goes in, bytes come out of the S-box.
pub shift_rows-sub_bytes-AllBytes : (s : List ℕ) → AllBytes (shift_rows (sub_bytes s))
unfolding shift_rows sub_bytes
shift_rows-sub_bytes-AllBytes s = (
  sbox-lt _,
  (
    sbox-lt _,
    (
      sbox-lt _,
      (
        sbox-lt _,
        (
          sbox-lt _,
          (
            sbox-lt _,
            (
              sbox-lt _,
              (
                sbox-lt _,
                (
                  sbox-lt _,
                  (
                    sbox-lt _,
                    (
                      sbox-lt _,
                      (sbox-lt _, (sbox-lt _, (sbox-lt _, (sbox-lt _, (sbox-lt _, tt))))),
                    ),
                  ),
                ),
              ),
            ),
          ),
        ),
      ),
    ),
  ),
)

pub length-sub_bytes : (s : List ℕ) → length (sub_bytes s) ≡ 16
unfolding sub_bytes
length-sub_bytes s = refl

pub length-shift_rows : (s : List ℕ) → length (shift_rows s) ≡ 16
unfolding shift_rows
length-shift_rows s = refl

pub length-mix_columns : (s : List ℕ) → length (mix_columns s) ≡ 16
unfolding mix_columns
length-mix_columns s = refl

pub length-add_round_key :
    (w : List ℕ) (round : ℕ) (s : List ℕ) → length (add_round_key w round s) ≡ 16
unfolding add_round_key
length-add_round_key w round s = refl

-- Blocks stay blocks.
pub length-full_rounds :
    (w : List ℕ) (n round : ℕ) (s : List ℕ) → length s ≡ 16 → length (full_rounds w n round s) ≡ 16
unfolding full_rounds
length-full_rounds w zero round s h = h
length-full_rounds w (suc n) round s h =
    length-full_rounds w n (round + 1) _ (length-add_round_key w round _)
