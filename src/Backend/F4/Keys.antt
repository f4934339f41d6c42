-- ===== src/Backend/F4/Keys.antt =====
-- `KeyExpansion` of backends/f4/aes256.c computes the key schedule of FIPS 197, whatever the
-- uninitialised array held.
use myrtus_psm_edge.Common.{
  ==_of_ne, ℕ, ◌+◌, ◌-◌, ◌*◌, ◌%◌, ◌/◌, ◌≤◌, ◌<◌, ◌≡◌, refl, sym, ◌∙◌, ap, ap₂, arith, List, [],
  ◌∷◌, ◌++◌, get_or, take, drop, length, length-take, length-drop, array_ind, take-append-drop,
  take_of_le, ◌⊕◌, xor_zero, true, ◌==◌, ◌||◌, all_below, all_below_sound, Bool-cases, inl, inr,
  for_range,
}
use myrtus_psm_edge.Backend.Spec
use myrtus_psm_edge.Backend.Spec.{
  sbox, round_constant, next_word, word, sub_word, rot_word, xor_word,
}
use myrtus_psm_edge.Backend.Spec.Blocks.{◌&≡◌}
use myrtus_psm_edge.Backend.Spec.Schedule.{store_word, read_word, fill_schedule, gets, gets-take}
use myrtus_psm_edge.Backend.F4
use myrtus_psm_edge.Backend.F4.Refine.{get_sbox_value-sbox, cipher_refines}

rcon_table : all_below 11 (λ k. (k == 0) || (get_or F4.rcon k 0 == round_constant k)) ≡ true
unfolding all_below Spec.round_constant
rcon_table = refl

rcon-round_constant : (k : ℕ) → 0 < k → k < 11 → get_or F4.rcon k 0 ≡ round_constant k
rcon-round_constant k p q = ground (
  arith,
  all_below_sound 11 (λ k. (k == 0) || (get_or F4.rcon k 0 == round_constant k)) k rcon_table q,
)

core_word_refines :
    (i t0 t1 t2 t3 : ℕ)
    → 0 < i / 8
    → i / 8 < 11
    → F4.core_word i (t0 ∷ t1 ∷ t2 ∷ t3 ∷ [])
      ≡ xor_word
          (sub_word (rot_word (t0 ∷ t1 ∷ t2 ∷ t3 ∷ [])))
          (round_constant (i / 8) ∷ 0 ∷ 0 ∷ 0 ∷ [])
unfolding F4.core_word
core_word_refines i t0 t1 t2 t3 p q =
    ap₂ ◌⊕◌ (get_sbox_value-sbox t1) (rcon-round_constant (i / 8) p q)
    &≡ plain t2
    &≡ plain t3
    &≡ plain t0
    &≡ refl
  where
    plain : (t : ℕ) → F4.get_sbox_value t ≡ sbox t ⊕ 0
    plain t = get_sbox_value-sbox t ∙ sym (xor_zero _)

sub_word_refines :
    (t0 t1 t2 t3 : ℕ) → F4.sub_word (t0 ∷ t1 ∷ t2 ∷ t3 ∷ []) ≡ sub_word (t0 ∷ t1 ∷ t2 ∷ t3 ∷ [])
unfolding F4.sub_word
sub_word_refines t0 t1 t2 t3 =
    get_sbox_value-sbox t0
    &≡ get_sbox_value-sbox t1
    &≡ get_sbox_value-sbox t2
    &≡ get_sbox_value-sbox t3
    &≡ refl

temp_word_refines :
    (i : ℕ) (bs g : List ℕ)
    → 8 ≤ i
    → i < 60
    → length bs ≡ 4 * i
    → F4.temp_word i (bs ++ g) ≡ Spec.temp_word 8 i (word bs (i - 1))
unfolding F4.temp_word Spec.temp_word
temp_word_refines i bs g lo hi e =
    rw
      (read_word bs g (i - 1) ((i - 1) * 4 + 0) ((i - 1) * 4 + 1) ((i - 1) * 4 + 2)
        ((i - 1) * 4 + 3) (omega arith) (omega arith) (omega arith) (omega arith) (omega arith))
      (elim (Bool-cases (i % 8 == 0)) [
        | inl y ↦
            rw (y, ==_of_ne (i % 8) 4 (λ h. ground arith))
              (core_word_refines i _ _ _ _ (ground arith) (omega arith))
        | inr n ↦ rw n (elim (Bool-cases (i % 8 == 4)) [
          | inl y ↦ rw y (sub_word_refines _ _ _ _)
          | inr m ↦ rw m
        ])
      ])

expand_word_fills :
    (i : ℕ) (bs g : List ℕ) (y0 y1 y2 y3 : ℕ)
    → 8 ≤ i
    → i < 60
    → length bs ≡ 4 * i
    → F4.expand_word i (bs ++ y0 ∷ y1 ∷ y2 ∷ y3 ∷ g) ≡ bs ++ (next_word 8 i bs ++ g)
unfolding F4.expand_word Spec.next_word
expand_word_fills i bs g y0 y1 y2 y3 lo hi e =
    rw (temp_word_refines i bs (y0 ∷ y1 ∷ y2 ∷ y3 ∷ g) lo hi e) (
      store_word bs g y0 y1 y2 y3 (4 * (i - 8)) (omega arith) _ _ _ _ _ _ _ _ _ _ _ _ (omega arith)
        (omega arith) (omega arith) (omega arith) (omega arith) (omega arith) (omega arith)
        (omega arith))

copy_key_lem :
    (round_key key : List ℕ)
    → 32 ≤ length round_key
    → 32 ≤ length key
    → F4.copy_key round_key key ≡ take 32 key ++ drop 32 round_key
unfolding F4.copy_key
copy_key_lem round_key key h h' =
    ap (λ r. F4.copy_key r key) (sym (take-append-drop 32 round_key))
    ∙ array_ind 32
        (λ r. F4.copy_key (r ++ drop 32 round_key) key ≡ gets key 0 32 ++ drop 32 round_key) copied
        (take 32 round_key) (omega (arith, length-take 32 round_key))
    ∙ ap (λ t. t ++ drop 32 round_key) (gets-take 32 key h')
  where
    copied :
        (a b c d e f g h i j k l m n o p a' b' c' d' e' f' g' h' i' j' k' l' m' n' o' p' : ℕ)
        → F4.copy_key
            (a
              ∷ b
              ∷ c
              ∷ d
              ∷ e
              ∷ f
              ∷ g
              ∷ h
              ∷ i
              ∷ j
              ∷ k
              ∷ l
              ∷ m
              ∷ n
              ∷ o
              ∷ p
              ∷ a'
              ∷ b'
              ∷ c'
              ∷ d'
              ∷ e'
              ∷ f'
              ∷ g'
              ∷ h'
              ∷ i'
              ∷ j'
              ∷ k'
              ∷ l'
              ∷ m'
              ∷ n'
              ∷ o'
              ∷ p'
              ∷ drop 32 round_key)
            key
          ≡ gets key 0 32 ++ drop 32 round_key
    copied a b c d e f g h i j k l m n o p a' b' c' d' e' f' g' h' i' j' k' l' m' n' o' p' = refl

pub key_expansion_refines :
    (round_key key : List ℕ)
    → length round_key ≡ 240
    → 32 ≤ length key
    → F4.key_expansion round_key key ≡ Spec.key_expansion 8 14 key
unfolding F4.key_expansion Spec.key_expansion
key_expansion_refines round_key key l h =
    ap (for_range 52 8 F4.expand_word) (copy_key_lem round_key key (omega arith) h)
    ∙ fill_schedule 8 60 F4.expand_word expand_word_fills 52 8 (take 32 key) (drop 32 round_key)
        (omega arith) (omega arith) (omega (arith, length-take 32 key))
        (omega (arith, length-drop 32 round_key))

-- `aes256` of backends/f4 is AES-256 of FIPS 197, on a plaintext of 16 bytes and a key of at
-- least 32, whatever `RoundKey` held.
pub aes256_refines :
    (round_key plaintext key : List ℕ)
    → length round_key ≡ 240
    → length plaintext ≡ 16
    → 32 ≤ length key
    → F4.aes256 round_key plaintext key ≡ Spec.aes256 key plaintext
unfolding F4.aes256 Spec.aes256
aes256_refines round_key plaintext key r l h =
    rw (take_of_le 16 plaintext (omega arith), key_expansion_refines round_key key r h)
      (cipher_refines plaintext _ l)
