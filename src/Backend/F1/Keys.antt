-- ===== src/Backend/F1/Keys.antt =====
-- `KeyExpansion` of backends/f1/aes128.c computes the key schedule of FIPS 197, whatever the
-- uninitialised array held.
use myrtus_psm_edge.Common.{
  ℕ, ◌+◌, ◌-◌, ◌*◌, ◌%◌, ◌/◌, ◌≤◌, ◌<◌, ◌≡◌, refl, sym, ◌∙◌, ap, ap₂, arith, List, [], ◌∷◌, ◌++◌,
  get_or, take, drop, length, length-take, length-drop, array_ind, take-append-drop, take_of_le,
  ◌⊕◌, xor_zero, true, ◌==◌, ◌||◌, all_below, all_below_sound, Bool-cases, inl, inr, for_range,
}
use myrtus_psm_edge.Backend.Spec
use myrtus_psm_edge.Backend.Spec.{
  sbox, round_constant, next_word, word, sub_word, rot_word, xor_word,
}
use myrtus_psm_edge.Backend.Spec.Blocks.{◌&≡◌}
use myrtus_psm_edge.Backend.Spec.Schedule.{store_word, read_word, fill_schedule, gets, gets-take}
use myrtus_psm_edge.Backend.F1
use myrtus_psm_edge.Backend.F1.Refine.{get_sbox_value-sbox, cipher_refines}

rcon_table : all_below 11 (λ k. (k == 0) || (get_or F1.rcon k 0 == round_constant k)) ≡ true
unfolding all_below Spec.round_constant
rcon_table = refl

rcon-round_constant : (k : ℕ) → 0 < k → k < 11 → get_or F1.rcon k 0 ≡ round_constant k
rcon-round_constant k p q = ground (
  arith,
  all_below_sound 11 (λ k. (k == 0) || (get_or F1.rcon k 0 == round_constant k)) k rcon_table q,
)

core_word_refines :
    (i t0 t1 t2 t3 : ℕ)
    → 0 < i / 4
    → i / 4 < 11
    → F1.core_word i (t0 ∷ t1 ∷ t2 ∷ t3 ∷ [])
      ≡ xor_word
          (sub_word (rot_word (t0 ∷ t1 ∷ t2 ∷ t3 ∷ [])))
          (round_constant (i / 4) ∷ 0 ∷ 0 ∷ 0 ∷ [])
unfolding F1.core_word
core_word_refines i t0 t1 t2 t3 p q =
    ap₂ ◌⊕◌ (get_sbox_value-sbox t1) (rcon-round_constant (i / 4) p q)
    &≡ plain t2
    &≡ plain t3
    &≡ plain t0
    &≡ refl
  where
    plain : (t : ℕ) → F1.get_sbox_value t ≡ sbox t ⊕ 0
    plain t = get_sbox_value-sbox t ∙ sym (xor_zero _)

temp_word_refines :
    (i : ℕ) (bs g : List ℕ)
    → 4 ≤ i
    → i < 44
    → length bs ≡ 4 * i
    → F1.temp_word i (bs ++ g) ≡ Spec.temp_word 4 i (word bs (i - 1))
unfolding F1.temp_word Spec.temp_word
temp_word_refines i bs g lo hi e =
    rw
      (read_word bs g (i - 1) ((i - 1) * 4 + 0) ((i - 1) * 4 + 1) ((i - 1) * 4 + 2)
        ((i - 1) * 4 + 3) (omega arith) (omega arith) (omega arith) (omega arith) (omega arith))
      (elim (Bool-cases (i % 4 == 0)) [
        | inl y ↦ rw y (core_word_refines i _ _ _ _ (omega arith) (omega arith))
        | inr n ↦ rw n
      ])

expand_word_fills :
    (i : ℕ) (bs g : List ℕ) (y0 y1 y2 y3 : ℕ)
    → 4 ≤ i
    → i < 44
    → length bs ≡ 4 * i
    → F1.expand_word i (bs ++ y0 ∷ y1 ∷ y2 ∷ y3 ∷ g) ≡ bs ++ (next_word 4 i bs ++ g)
unfolding F1.expand_word Spec.next_word
expand_word_fills i bs g y0 y1 y2 y3 lo hi e =
    rw (temp_word_refines i bs (y0 ∷ y1 ∷ y2 ∷ y3 ∷ g) lo hi e) (
      store_word bs g y0 y1 y2 y3 (4 * (i - 4)) (omega arith) _ _ _ _ _ _ _ _ _ _ _ _ (omega arith)
        (omega arith) (omega arith) (omega arith) (omega arith) (omega arith) (omega arith)
        (omega arith))

copy_key_lem :
    (round_key key : List ℕ)
    → 16 ≤ length round_key
    → 16 ≤ length key
    → F1.copy_key round_key key ≡ take 16 key ++ drop 16 round_key
unfolding F1.copy_key
copy_key_lem round_key key h h' =
    ap (λ r. F1.copy_key r key) (sym (take-append-drop 16 round_key))
    ∙ array_ind 16
        (λ r. F1.copy_key (r ++ drop 16 round_key) key ≡ gets key 0 16 ++ drop 16 round_key) copied
        (take 16 round_key) (omega (arith, length-take 16 round_key))
    ∙ ap (λ t. t ++ drop 16 round_key) (gets-take 16 key h')
  where
    copied :
        (a b c d e f g h i j k l m n o p : ℕ)
        → F1.copy_key
            (a ∷ b ∷ c ∷ d ∷ e ∷ f ∷ g ∷ h ∷ i ∷ j ∷ k ∷ l ∷ m ∷ n ∷ o ∷ p ∷ drop 16 round_key)
            key
          ≡ gets key 0 16 ++ drop 16 round_key
    copied a b c d e f g h i j k l m n o p = refl

pub key_expansion_refines :
    (round_key key : List ℕ)
    → length round_key ≡ 176
    → 16 ≤ length key
    → F1.key_expansion round_key key ≡ Spec.key_expansion 4 10 key
unfolding F1.key_expansion Spec.key_expansion
key_expansion_refines round_key key l h =
    ap (for_range 40 4 F1.expand_word) (copy_key_lem round_key key (omega arith) h)
    ∙ fill_schedule 4 44 F1.expand_word expand_word_fills 40 4 (take 16 key) (drop 16 round_key)
        (omega arith) (omega arith) (omega (arith, length-take 16 key))
        (omega (arith, length-drop 16 round_key))

-- `aes128` of backends/f1 is AES-128 of FIPS 197, on a plaintext of 16 bytes and a key of at
-- least 16, whatever `RoundKey` held.
pub aes128_refines :
    (round_key plaintext key : List ℕ)
    → length round_key ≡ 176
    → length plaintext ≡ 16
    → 16 ≤ length key
    → F1.aes128 round_key plaintext key ≡ Spec.aes128 key plaintext
unfolding F1.aes128 Spec.aes128
aes128_refines round_key plaintext key r l h =
    rw (take_of_le 16 plaintext (omega arith), key_expansion_refines round_key key r h)
      (cipher_refines plaintext _ l)
