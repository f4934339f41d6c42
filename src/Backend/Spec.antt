-- ===== src/Backend/Spec.antt =====
-- The AES block cipher of FIPS 197, over lists of bytes: what every backend is compared with.
-- Byte `4 * c + r` of a block is row `r` of column `c`. The S-box is computed from inverses in
-- GF(2 ^ 8), not copied from a table.
pub mod Field
pub mod Blocks
pub mod Schedule
pub mod Bytes
use myrtus_psm_edge.Common.{
  ℕ, zero, suc, ◌+◌, ◌-◌, ◌*◌, ◌/◌, ◌%◌, List, [], ◌∷◌, ◌++◌, map, get_or, take, if◌then◌else◌,
  ◌==◌, ltb, ◌⊕◌, ◌&&◌,
}

-- Multiplication by x modulo x^8 + x^4 + x^3 + x + 1.
unfoldable pub double : ℕ → ℕ
double b = if ltb (b * 2) 256 then b * 2 else b * 2 ⊕ 0x11b

abbrev peasant : ℕ → ℕ → ℕ → ℕ
peasant zero a b = 0
peasant (suc n) a b = (if a % 2 == 1 then b else 0) ⊕ peasant n (a / 2) (double b)

-- The product in GF(2 ^ 8).
unfoldable pub gf_mul : ℕ → ℕ → ℕ
gf_mul a b = peasant 8 a b

abbrev pub gf_pow : ℕ → ℕ → ℕ
gf_pow zero a = 1
gf_pow (suc n) a = gf_mul a (gf_pow n a)

-- x ^ 254 is the inverse of x, and 0 for 0: 254 = 2 * 127, by squarings.
abbrev inverse_loop : ℕ → ℕ → ℕ → ℕ
inverse_loop zero square acc = acc
inverse_loop (suc n) square acc =
    let next = gf_mul square square in inverse_loop n next (gf_mul acc next)

unfoldable pub inverse : ℕ → ℕ
unfolding gf_mul double
inverse x = inverse_loop 7 x 1

abbrev rotate_left : ℕ → ℕ → ℕ
rotate_left k b = b * k % 256 ⊕ b * k / 256

-- The affine map of the S-box.
unfoldable pub affine : ℕ → ℕ
affine b = b ⊕ rotate_left 2 b ⊕ rotate_left 4 b ⊕ rotate_left 8 b ⊕ rotate_left 16 b ⊕ 0x63

abbrev pub range_from : ℕ → ℕ → List ℕ
range_from i zero = []
range_from i (suc n) = i ∷ range_from (i + 1) n

unfoldable pub sbox_table : List ℕ
unfolding affine inverse
sbox_table = map (λ x. affine (inverse x)) (range_from 0 256)

unfoldable pub sbox : ℕ → ℕ
sbox x = get_or sbox_table x 0

-- The round constant of word `i`: x ^ (i - 1).
unfoldable pub round_constant : ℕ → ℕ
unfolding gf_mul double
round_constant i = gf_pow (i - 1) 2

unfoldable pub sub_bytes : List ℕ → List ℕ
sub_bytes s = map (λ i. sbox (get_or s i 0)) (range_from 0 16)

unfoldable pub shift_rows : List ℕ → List ℕ
shift_rows s = map (λ i. get_or s ((i + 4 * (i % 4)) % 16) 0) (range_from 0 16)

-- Row `r` of column `c` of the product with the circulant matrix of 2, 3, 1, 1.
abbrev mixed_byte : List ℕ → ℕ → ℕ
mixed_byte s i =
    let cell = λ (k : ℕ). get_or s (i / 4 * 4 + (i + k) % 4) 0 in
    gf_mul 2 (cell 0) ⊕ gf_mul 3 (cell 1) ⊕ cell 2 ⊕ cell 3

unfoldable pub mix_columns : List ℕ → List ℕ
mix_columns s = map (mixed_byte s) (range_from 0 16)

unfoldable pub add_round_key : List ℕ → ℕ → List ℕ → List ℕ
add_round_key w round s = map (λ i. get_or s i 0 ⊕ get_or w (round * 16 + i) 0) (range_from 0 16)

abbrev pub sub_word : List ℕ → List ℕ
sub_word t =
    sbox (get_or t 0 0) ∷ sbox (get_or t 1 0) ∷ sbox (get_or t 2 0) ∷ sbox (get_or t 3 0) ∷ []

abbrev pub rot_word : List ℕ → List ℕ
rot_word t = get_or t 1 0 ∷ get_or t 2 0 ∷ get_or t 3 0 ∷ get_or t 0 0 ∷ []

abbrev pub xor_word : List ℕ → List ℕ → List ℕ
xor_word s t =
    (get_or s 0 0 ⊕ get_or t 0 0)
    ∷ (get_or s 1 0 ⊕ get_or t 1 0)
    ∷ (get_or s 2 0 ⊕ get_or t 2 0)
    ∷ (get_or s 3 0 ⊕ get_or t 3 0)
    ∷ []

-- Word `i` of a schedule.
abbrev pub word : List ℕ → ℕ → List ℕ
word w i =
    get_or w (4 * i) 0
    ∷ get_or w (4 * i + 1) 0
    ∷ get_or w (4 * i + 2) 0
    ∷ get_or w (4 * i + 3) 0
    ∷ []

-- What is added to word `i - nk` to give word `i`; `t` is word `i - 1`.
unfoldable pub temp_word : ℕ → ℕ → List ℕ → List ℕ
temp_word nk i t =
    if i % nk == 0
    then xor_word (sub_word (rot_word t)) (round_constant (i / nk) ∷ 0 ∷ 0 ∷ 0 ∷ [])
    else if ltb 6 nk && i % nk == 4
    then sub_word t
    else t

unfoldable pub next_word : ℕ → ℕ → List ℕ → List ℕ
next_word nk i w = xor_word (word w (i - nk)) (temp_word nk i (word w (i - 1)))

-- `n` more words after the first `i`.
unfoldable pub schedule : ℕ → ℕ → ℕ → List ℕ → List ℕ
schedule nk zero i w = w
schedule nk (suc n) i w = schedule nk n (i + 1) (w ++ next_word nk i w)

unfoldable pub key_expansion : ℕ → ℕ → List ℕ → List ℕ
key_expansion nk nr key = schedule nk (4 * (nr + 1) - nk) nk (take (4 * nk) key)

-- `n` full rounds from `round` on.
unfoldable pub full_rounds : List ℕ → ℕ → ℕ → List ℕ → List ℕ
full_rounds w zero round s = s
full_rounds w (suc n) round s =
    full_rounds w n (round + 1) (add_round_key w round (mix_columns (shift_rows (sub_bytes s))))

-- The cipher on an expanded key.
unfoldable pub encrypt_with : ℕ → List ℕ → List ℕ → List ℕ
encrypt_with nr w s =
    add_round_key w nr (shift_rows (sub_bytes (full_rounds w (nr - 1) 1 (add_round_key w 0 s))))

unfoldable pub aes128 : List ℕ → List ℕ → List ℕ
aes128 key s = encrypt_with 10 (key_expansion 4 10 key) s

unfoldable pub aes256 : List ℕ → List ℕ → List ℕ
aes256 key s = encrypt_with 14 (key_expansion 8 14 key) s
