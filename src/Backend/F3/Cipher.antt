-- ===== src/Backend/F3/Cipher.antt =====
-- `bs_cipher` of bs.c and `aes_ecb_encrypt` of aes.c against the block cipher of the specification.
use myrtus_psm_edge.Common.{
  ℕ, zero, suc, ◌+◌, ◌-◌, ◌*◌, ◌≤◌, ◌<◌, ◌≡◌, refl, ◌∙◌, ap, arith, List, [], map, get_or, set,
  length, replicate, array_ind, IsBytes, for_range, for_range_inv, for_range_view, get_or-updates,
  xor_words,
}
use Prim.Native.Nat.{min}
use myrtus_psm_edge.Backend.Spec
use myrtus_psm_edge.Backend.Spec.Blocks.{◌&≡◌}
use myrtus_psm_edge.Backend.Spec.Bytes.{IsBytes-key_expansion}
use myrtus_psm_edge.Backend.F3.Schedule.{bitsliced_128_refines}
use myrtus_psm_edge.Backend.F3.Slices.{
  load, byte_of, bs_addroundkey, bs_apply_sbox, bs_shiftrows, bs_shiftmix, bs_transpose,
  bs_transpose_rev, fill_blocks, bs_expand_key, bs_round, bs_cipher, aes_ecb_encrypt,
}
use myrtus_psm_edge.Backend.F3.Rounds.{
  block, block-bs_addroundkey, block-bs_apply_sbox, block-bs_shiftrows, block-bs_shiftmix,
}
use myrtus_psm_edge.Backend.F3.Stack.{
  length-bs_addroundkey, length-bs_apply_sbox, length-bs_shiftrows, length-bs_shiftmix,
}
use myrtus_psm_edge.Backend.F3.Transpose.{length-bs_transpose}
use myrtus_psm_edge.Backend.F3.Blocks.{stored, block-bs_transpose, stored-bs_transpose_rev}
use myrtus_psm_edge.Backend.F3.Keys.{round_key, stored-fill_blocks, load_byte}

abbrev spec_round : List ℕ → ℕ → List ℕ → List ℕ
spec_round w r s = Spec.add_round_key w r (Spec.mix_columns (Spec.shift_rows (Spec.sub_bytes s)))

full_rounds-for_range :
    (w : List ℕ) (n r : ℕ) (s : List ℕ) → for_range n r (spec_round w) s ≡ Spec.full_rounds w n r s
unfolding Spec.full_rounds
full_rounds-for_range w zero r s = refl
full_rounds-for_range w (suc n) r s = full_rounds-for_range w n (r + 1) (spec_round w r s)

added_words :
    (l : ℕ) (b w : List ℕ) (r : ℕ)
    → xor_words (block l b) (round_key w r) ≡ Spec.add_round_key w r (block l b)
unfolding block round_key Spec.add_round_key
added_words l b w r = refl

add_key :
    (l : ℕ) (b k w : List ℕ) (r : ℕ)
    → length b ≡ 128
    → block l k ≡ round_key w r
    → block l (bs_addroundkey b k) ≡ Spec.add_round_key w r (block l b)
add_key l b k w r size e =
    block-bs_addroundkey l b k size ∙ ap (xor_words (block l b)) e ∙ added_words l b w r

-- Any number of rounds, in the lane `l`, with round keys whose blocks in that lane are those of `w`.
module _ (l nr : ℕ) (w : List ℕ) (bp : ℕ → List ℕ) (rk : List (List ℕ)) (fits : l < 64)
    (stack : (r : ℕ) → length (bp r) ≡ 128)
    (keys : (r : ℕ) → r ≤ nr → block l (get_or rk r []) ≡ round_key w r) where
  block-bs_round :
      (r : ℕ) (s : List ℕ)
      → r ≤ nr
      → length s ≡ 128
      → block l (bs_round bp rk r s) ≡ spec_round w r (block l s)
  unfolding bs_round
  block-bs_round r s h size =
      let sub = length-bs_apply_sbox s size in
      add_key l (bs_shiftmix (bp r) (bs_apply_sbox s)) (get_or rk r []) w r
        (length-bs_shiftmix (bp r) (bs_apply_sbox s) (stack r)) (keys r h)
      ∙ ap (Spec.add_round_key w r) (
          block-bs_shiftmix l (bp r) (bs_apply_sbox s) (stack r) sub
          ∙ ap (λ t. Spec.mix_columns (Spec.shift_rows t)) (block-bs_apply_sbox l s fits size))

  length-bs_round : (r : ℕ) (s : List ℕ) → length s ≡ 128 → length (bs_round bp rk r s) ≡ 128
  unfolding bs_round
  length-bs_round r s size =
      length-bs_addroundkey (bs_shiftmix (bp r) (bs_apply_sbox s)) (get_or rk r [])
      ∙ length-bs_shiftmix (bp r) (bs_apply_sbox s) (stack r)

  pub stored-rounds :
      (n : ℕ) (b : List ℕ)
      → n + 1 ≡ nr
      → stored l (
          bs_transpose_rev (
            bs_addroundkey
              (bs_shiftrows (bp nr) (
                bs_apply_sbox (
                  for_range n 1
                    (bs_round bp rk)
                    (bs_addroundkey (bs_transpose b) (get_or rk 0 [])))))
              (get_or rk nr [])))
        ≡ Spec.encrypt_with nr w (stored (min l 31) b)
  unfolding Spec.encrypt_with
  stored-rounds n b e =
      stored-bs_transpose_rev l _ fits
      ∙ add_key l (bs_shiftrows (bp nr) (bs_apply_sbox last)) (get_or rk nr []) w nr
          (length-bs_shiftrows (bp nr) (bs_apply_sbox last) (stack nr)) (keys nr (omega arith))
      ∙ ap (Spec.add_round_key w nr) (
          block-bs_shiftrows l (bp nr) (bs_apply_sbox last) (stack nr)
            (length-bs_apply_sbox last sized)
          ∙ ap Spec.shift_rows (
              block-bs_apply_sbox l last fits sized
              ∙ ap Spec.sub_bytes (
                  rounds
                  ∙ ap (λ k. Spec.full_rounds w k 1 (Spec.add_round_key w 0 (stored (min l 31) b)))
                      (pred n nr e))))
    where
      start : List ℕ
      start = bs_addroundkey (bs_transpose b) (get_or rk 0 [])

      last : List ℕ
      last = for_range n 1 (bs_round bp rk) start

      start_size : length start ≡ 128
      start_size = length-bs_addroundkey (bs_transpose b) (get_or rk 0 []) ∙ length-bs_transpose b

      sized : length last ≡ 128
      sized =
          for_range_inv (λ s. length s ≡ 128) (bs_round bp rk) length-bs_round n 1 start start_size

      rounds : block l last ≡ Spec.full_rounds w n 1 (Spec.add_round_key w 0 (stored (min l 31) b))
      rounds =
          for_range_view (λ s. length s ≡ 128) (block l) (bs_round bp rk) (spec_round w)
            length-bs_round n 1 (λ r s size p q. block-bs_round r s (omega (arith, q, e)) size)
            start start_size
          ∙ full_rounds-for_range w n 1 (block l start)
          ∙ ap (Spec.full_rounds w n 1) (
              add_key l (bs_transpose b) (get_or rk 0 []) w 0 (length-bs_transpose b)
                (keys 0 (omega arith))
              ∙ ap (Spec.add_round_key w 0) (block-bs_transpose l b fits))

      pred : (n nr : ℕ) → n + 1 ≡ nr → n ≡ nr - 1
      pred n nr e = omega arith

-- The round keys that are filled in from a schedule of bytes, in every lane.
pub round_keys :
    (l n : ℕ) (w : List ℕ) (rk : List (List ℕ))
    → l < 64
    → IsBytes w
    → length rk ≡ n
    → ((r : ℕ) → r < n → length (get_or rk r []) ≡ 128)
    → (r : ℕ) → r < n
    → block l (
        get_or
          (for_range n 0
            (λ j rk. set rk j (bs_transpose (fill_blocks w (16 * j) (get_or rk j []))))
            rk)
          r
          [])
      ≡ round_key w r
unfolding round_key
round_keys l n w rk fits bytes size sizes r h =
    ap (block l) (
      get_or-updates [] (λ j. j) (λ a b e. e) (λ j k. bs_transpose (fill_blocks w (16 * j) k)) n 0 r
        rk (omega arith) (omega arith) (omega arith))
    ∙ block-bs_transpose l (fill_blocks w (16 * r) (get_or rk r [])) fits
    ∙ stored-fill_blocks w bytes (16 * r) (get_or rk r []) (sizes r h) (min l 31) (omega arith)
    ∙ ap (λ at. map (λ i. get_or w (at + i) 0) (Spec.range_from 0 16)) (mul_swap r)
  where
    mul_swap : (r : ℕ) → 16 * r ≡ r * 16
    mul_swap r = omega arith

module _ (key key' : List ℕ) (rk : List (List ℕ)) (stack_key : length key ≡ 176)
    (full : 16 ≤ length key') (bytes : IsBytes key') (stack_rk : length rk ≡ 11)
    (stack_keys : (r : ℕ) → r < 11 → length (get_or rk r []) ≡ 128) where
  expanded_keys :
      (l r : ℕ)
      → l < 64
      → r ≤ 10
      → block l (get_or (bs_expand_key key rk key') r [])
        ≡ round_key (Spec.key_expansion 4 10 key') r
  unfolding bs_expand_key
  expanded_keys l r fits h =
      ap
        (λ w. block l (
          get_or
            (for_range 11 0
              (λ j rk. set rk j (bs_transpose (fill_blocks w (16 * j) (get_or rk j [])))) rk)
            r []))
        (bitsliced_128_refines key key' stack_key full)
      ∙ round_keys l 11 (Spec.key_expansion 4 10 key') rk fits
          (IsBytes-key_expansion 4 10 key' bytes) stack_rk stack_keys r (omega arith)

  -- When the arrays on the stack have their sizes, whatever they hold, and the key has at
  -- least 16 bytes, block `l` of the 64 that `bs_cipher` gives under the keys of the
  -- expansion is the AES-128 encryption of block `l` of those it takes, for `l` up to 31,
  -- and of block 31 for the blocks behind.
  pub bs_cipher_refines :
      (l : ℕ) (bp : ℕ → List ℕ) (state : List ℕ)
      → l < 64
      → ((r : ℕ) → length (bp r) ≡ 128)
      → stored l (bs_cipher bp state (bs_expand_key key rk key'))
        ≡ Spec.aes128 key' (stored (min l 31) state)
  unfolding bs_cipher Spec.aes128
  bs_cipher_refines l bp state fits stack =
      stored-rounds l 10 (Spec.key_expansion 4 10 key') bp (bs_expand_key key rk key') fits stack
        (λ r h. expanded_keys l r fits h) 9 state refl

pub stored-first :
    (inputb : List ℕ)
    → IsBytes inputb
    → length inputb ≡ 16
    → stored 0 (set (set (replicate 128 0) 0 (load inputb 0)) 1 (load inputb 8)) ≡ inputb
unfolding stored
stored-first inputb bytes size =
    (load_byte inputb bytes 0 0 (omega arith)
      &≡ load_byte inputb bytes 0 1 (omega arith)
      &≡ load_byte inputb bytes 0 2 (omega arith)
      &≡ load_byte inputb bytes 0 3 (omega arith)
      &≡ load_byte inputb bytes 0 4 (omega arith)
      &≡ load_byte inputb bytes 0 5 (omega arith)
      &≡ load_byte inputb bytes 0 6 (omega arith)
      &≡ load_byte inputb bytes 0 7 (omega arith)
      &≡ load_byte inputb bytes 8 0 (omega arith)
      &≡ load_byte inputb bytes 8 1 (omega arith)
      &≡ load_byte inputb bytes 8 2 (omega arith)
      &≡ load_byte inputb bytes 8 3 (omega arith)
      &≡ load_byte inputb bytes 8 4 (omega arith)
      &≡ load_byte inputb bytes 8 5 (omega arith)
      &≡ load_byte inputb bytes 8 6 (omega arith)
      &≡ load_byte inputb bytes 8 7 (omega arith)
      &≡ refl)
    ∙ sixteen inputb size
  where
    sixteen : (s : List ℕ) → length s ≡ 16 → map (λ i. get_or s i 0) (Spec.range_from 0 16) ≡ s
    sixteen =
        array_ind 16 (λ s. map (λ i. get_or s i 0) (Spec.range_from 0 16) ≡ s)
          (λ a b c d e f g h i j k l m n o p. refl)

pub copied_out :
    (s outputb : List ℕ)
    → length outputb ≡ 16
    → for_range 16 0
        (λ k out. set out k (byte_of s k))
        (for_range 16 0 (λ k out. set out k 0) outputb)
      ≡ stored 0 s
unfolding stored
copied_out s =
    array_ind 16
      (λ outputb.
        for_range 16 0 (λ k out. set out k (byte_of s k))
          (for_range 16 0 (λ k out. set out k 0) outputb)
        ≡ stored 0 s)
      (λ a b c d e f g h i j k l m n o p. refl)

-- When the arrays on the stack and the output have their sizes, whatever they hold,
-- `aes_ecb_encrypt` of backends/f3 is AES-128 of FIPS 197, on an input of 16 bytes and a key
-- of at least 16 bytes.
pub aes_ecb_encrypt_refines :
    (key : List ℕ) (rk : List (List ℕ)) (bp : ℕ → List ℕ) (inputb key' outputb : List ℕ)
    → length key ≡ 176
    → length rk ≡ 11
    → ((r : ℕ) → r < 11 → length (get_or rk r []) ≡ 128)
    → ((r : ℕ) → length (bp r) ≡ 128)
    → IsBytes inputb
    → length inputb ≡ 16
    → IsBytes key'
    → 16 ≤ length key'
    → length outputb ≡ 16
    → aes_ecb_encrypt key rk bp inputb key' outputb ≡ Spec.aes128 key' inputb
unfolding aes_ecb_encrypt
aes_ecb_encrypt_refines key rk bp inputb key' outputb p q r s t u v w x =
    copied_out _ outputb x
    ∙ bs_cipher_refines key key' rk p w v q r 0 bp _ (omega arith) s
    ∙ ap (Spec.aes128 key') (stored-first inputb t u)
