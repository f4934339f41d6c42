-- ===== src/Backend/F2/Keys.antt =====
-- `expand_keyf2` of backends/f2/a.c computes the key schedule of FIPS 197, and `AES_enc` the
-- cipher, whatever the uninitialised arrays held.
use myrtus_psm_edge.Common.{
  ℕ, zero, suc, ◌+◌, ◌-◌, ◌*◌, ◌%◌, ◌/◌, ◌≤◌, ◌<◌, ◌≡◌, refl, sym, ◌∙◌, ap, ap₂, arith, List, [],
  ◌∷◌, ◌++◌, get_or, set, take, drop, length, length-append, length-take, length-drop, array_ind,
  take-append-drop, ◌⊕◌, xor_zero, true, if◌then◌else◌, ◌==◌, ==_of_eq, ==_of_ne, ltb_of_lt,
  ltb_of_ge, u8, ◌||◌, all_below, all_below_sound, Bool-cases, inl, inr, for_range,
}
use mathlib.Core.List.{append_assoc, append-nil}
use myrtus_psm_edge.Backend.Spec
use myrtus_psm_edge.Backend.Spec.{
  sbox, round_constant, next_word, word, sub_word, rot_word, xor_word, schedule,
}
use myrtus_psm_edge.Backend.Spec.Blocks.{◌&≡◌, length-add_round_key}
use myrtus_psm_edge.Backend.Spec.Schedule.{store_word, read_word, gets, gets-take, length-next_word}
use myrtus_psm_edge.Backend.F2
use myrtus_psm_edge.Backend.F2.{
  Expansion, expand_block, expand_loop, schedule_core, last_word, store_byte,
}
use myrtus_psm_edge.Backend.F2.Refine.{sub-sbox, rounds_refines}

rcon_table : all_below 11 (λ k. (k == 0) || (F2.rcon k == round_constant k)) ≡ true
unfolding all_below Spec.round_constant F2.rcon F2.rcon_loop F2.gmul2
rcon_table = refl

rcon-round_constant : (k : ℕ) → 0 < k → k < 11 → F2.rcon k ≡ round_constant k
rcon-round_constant k p q =
    ground
      (arith, all_below_sound 11 (λ k. (k == 0) || (F2.rcon k == round_constant k)) k rcon_table q)

schedule_core_refines :
    (i t0 t1 t2 t3 : ℕ)
    → 0 < i
    → i < 11
    → schedule_core (t0 ∷ t1 ∷ t2 ∷ t3 ∷ []) i
      ≡ xor_word (sub_word (rot_word (t0 ∷ t1 ∷ t2 ∷ t3 ∷ []))) (round_constant i ∷ 0 ∷ 0 ∷ 0 ∷ [])
unfolding F2.schedule_core F2.rotate
schedule_core_refines i t0 t1 t2 t3 p q =
    ap₂ ◌⊕◌ (sub-sbox t1) (rcon-round_constant i p q) &≡ plain t2 &≡ plain t3 &≡ plain t0 &≡ refl
  where
    plain : (t : ℕ) → F2.sub t ≡ sbox t ⊕ 0
    plain t = sub-sbox t ∙ sym (xor_zero _)

-- The state of the loop when word `w` is next.
abbrev at_word : ℕ → List ℕ → Expansion
at_word w buf = record { c = 4 * w; i = (w + 3) / 4; buf = buf }

module _ (w : ℕ) (bs g : List ℕ) (lo : 4 ≤ w) (hi : w < 44) (e : length bs ≡ 4 * w) where
  last_word_lem : last_word (at_word w (bs ++ g)) ≡ word bs (w - 1)
  last_word_lem =
      read_word bs g (w - 1) _ _ _ _ (omega arith) (omega arith) (omega arith) (omega arith)
        (omega arith)

  temp_refines :
      (if 4 * w % 16 == 0
        then schedule_core (last_word (at_word w (bs ++ g))) ((w + 3) / 4)
        else last_word (at_word w (bs ++ g)))
      ≡ Spec.temp_word 4 w (word bs (w - 1))
  unfolding Spec.temp_word
  temp_refines = rw last_word_lem (elim (Bool-cases (w % 4 == 0)) [
    | inl y ↦
        rw (y, ==_of_eq (4 * w % 16) 0 (ground arith), index y)
          (schedule_core_refines (w / 4) _ _ _ _ (ground arith) (omega arith))
    | inr n ↦ rw (n, ==_of_ne (4 * w % 16) 0 (λ h. ground arith))
  ])
    where
      index : (w % 4 == 0) ≡ true → (w + 3) / 4 ≡ w / 4
      index y = ground arith

  counter_lem : (if 4 * w % 16 == 0 then u8 ((w + 3) / 4 + 1) else (w + 3) / 4) ≡ (w + 1 + 3) / 4
  counter_lem = ground arith

Expansion_path :
    {c c' i i' : ℕ} {buf buf' : List ℕ}
    → c ≡ c'
    → i ≡ i'
    → buf ≡ buf'
    → ◌≡◌ {A = Expansion}
        (record { c = c; i = i; buf = buf })
        (record { c = c'; i = i'; buf = buf' })
Expansion_path p q r = λ k. record { c = p k; i = q k; buf = r k }

expand_block_fills :
    (w : ℕ) (bs g : List ℕ) (y0 y1 y2 y3 : ℕ)
    → 4 ≤ w
    → w < 44
    → length bs ≡ 4 * w
    → expand_block (at_word w (bs ++ y0 ∷ y1 ∷ y2 ∷ y3 ∷ g))
      ≡ at_word (w + 1) (bs ++ (next_word 4 w bs ++ g))
unfolding F2.expand_block Spec.next_word
expand_block_fills w bs g y0 y1 y2 y3 lo hi e =
    Expansion_path (omega arith) (counter_lem w bs g lo hi e) (
      ap (λ t. (for_range 4 0 (store_byte t) (at_word w (bs ++ y0 ∷ y1 ∷ y2 ∷ y3 ∷ g))).buf)
        (temp_refines w bs (y0 ∷ y1 ∷ y2 ∷ y3 ∷ g) lo hi e)
      ∙ store_word bs g y0 y1 y2 y3 (4 * (w - 4)) (omega arith) _ _ _ _ _ _ _ _ _ _ _ _
          (omega arith) (omega arith) (omega arith) (omega arith) (omega arith) (omega arith)
          (omega arith) (omega arith))

-- With `n` words to go the loop runs `n` rounds and stops by its test, on any larger fuel.
expand_loop_fills :
    (n fuel w : ℕ) (bs g : List ℕ)
    → n ≤ fuel
    → 4 ≤ w
    → w + n ≡ 44
    → length bs ≡ 4 * w
    → length g ≡ 4 * n
    → (expand_loop fuel (at_word w (bs ++ g))).buf ≡ schedule 4 n w bs
unfolding F2.expand_loop Spec.schedule
expand_loop_fills zero zero w bs [] f lo hi e l = append-nil bs
expand_loop_fills zero (suc fuel) w bs [] f lo hi e l =
    rw (ltb_of_ge (4 * w) 176 (omega arith)) (append-nil bs)
expand_loop_fills zero fuel w bs (y ∷ g) f lo hi e l = absurd (omega arith)
expand_loop_fills (suc n) zero w bs g f lo hi e l = absurd (omega arith)
expand_loop_fills (suc n) (suc fuel) w bs [] f lo hi e l = absurd (omega arith)
expand_loop_fills (suc n) (suc fuel) w bs (y0 ∷ []) f lo hi e l = absurd (omega arith)
expand_loop_fills (suc n) (suc fuel) w bs (y0 ∷ y1 ∷ []) f lo hi e l = absurd (omega arith)
expand_loop_fills (suc n) (suc fuel) w bs (y0 ∷ y1 ∷ y2 ∷ []) f lo hi e l = absurd (omega arith)
expand_loop_fills (suc n) (suc fuel) w bs (y0 ∷ y1 ∷ y2 ∷ y3 ∷ g) f lo hi e l =
    rw (ltb_of_lt (4 * w) 176 (omega arith)) (
      ap (λ t. (expand_loop fuel t).buf)
        (expand_block_fills w bs g y0 y1 y2 y3 lo (omega arith) e
          ∙ ap (at_word (w + 1)) (sym (append_assoc bs (next_word 4 w bs) g)))
      ∙ expand_loop_fills n fuel (w + 1) (bs ++ next_word 4 w bs) g (omega arith) (omega arith)
          (omega arith)
          (omega (arith, length-append bs (next_word 4 w bs), length-next_word 4 w bs))
          (omega arith))

-- The first loop of `AES_enc`.
copied :
    (rkey key : List ℕ)
    → 16 ≤ length rkey
    → 16 ≤ length key
    → for_range 16 0 (λ i s. set s i (get_or key i 0)) rkey ≡ take 16 key ++ drop 16 rkey
copied rkey key h h' =
    ap (for_range 16 0 (λ i s. set s i (get_or key i 0))) (sym (take-append-drop 16 rkey))
    ∙ array_ind 16
        (λ r.
          for_range 16 0 (λ i s. set s i (get_or key i 0)) (r ++ drop 16 rkey)
          ≡ gets key 0 16 ++ drop 16 rkey)
        (λ a b c d e f g h i j k l m n o p. refl) (take 16 rkey)
        (omega (arith, length-take 16 rkey))
    ∙ ap (λ t. t ++ drop 16 rkey) (gets-take 16 key h')

-- The key schedule, whatever the rest of the array held.
pub expand_key_refines :
    (rkey key : List ℕ)
    → length rkey ≡ 176
    → 16 ≤ length key
    → F2.expand_key (for_range 16 0 (λ i s. set s i (get_or key i 0)) rkey)
      ≡ Spec.key_expansion 4 10 key
unfolding F2.expand_key Spec.key_expansion
expand_key_refines rkey key l h =
    ap (λ b. (expand_loop 40 (at_word 4 b)).buf) (copied rkey key (omega arith) h)
    ∙ expand_loop_fills 40 40 4 (take 16 key) (drop 16 rkey) (omega arith) (omega arith)
        (omega arith) (omega (arith, length-take 16 key)) (omega (arith, length-drop 16 rkey))

-- `CT[i] = PT[i] ^ RKey[i]` over the caller's buffer.
first_key :
    (w pt ct : List ℕ)
    → length ct ≡ 16
    → for_range 16 0 (λ i s. set s i (get_or pt i 0 ⊕ get_or w i 0)) ct ≡ Spec.add_round_key w 0 pt
unfolding Spec.add_round_key
first_key w pt =
    array_ind 16
      (λ ct.
        for_range 16 0 (λ i s. set s i (get_or pt i 0 ⊕ get_or w i 0)) ct
        ≡ Spec.add_round_key w 0 pt)
      (λ a b c d e f g h i j k l m n o p. refl)

-- `AES_enc` of backends/f2 is AES-128 of FIPS 197, with a key of at least 16 bytes, whatever
-- `RKey` and the caller's buffer of 16 bytes held.
pub aes_enc_refines :
    (rkey pt key ct : List ℕ)
    → length rkey ≡ 176
    → 16 ≤ length key
    → length ct ≡ 16
    → F2.aes_enc rkey pt key ct ≡ Spec.aes128 key pt
unfolding F2.aes_enc Spec.aes128 Spec.encrypt_with
aes_enc_refines rkey pt key ct r h l =
    rw (expand_key_refines rkey key r h, first_key (Spec.key_expansion 4 10 key) pt ct l)
      (rounds_refines 9 1 _ _ refl (length-add_round_key _ 0 pt))
