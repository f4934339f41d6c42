-- ===== src/Backend/F6/Slices.antt =====
-- backends/f6/bs.c and aes.c: AES-256 on 64 blocks at once. A state is an array of 128 words; once it is
-- transposed, bit `l` of word `8 * b + t` is bit `t` of byte `b` of block `l`. The build defines
-- UNROLL_TRANSPOSE, and `bs2le` and `bs2be` are the identity on a little-endian machine.
use myrtus_psm_edge.Common.{
  ℕ, zero, suc, ◌+◌, ◌-◌, ◌*◌, ◌/◌, ◌%◌, ◌^◌, List, [], ◌∷◌, get_or, set, replicate, if◌then◌else◌,
  ◌==◌, ltb, bit_and, bit_or, ◌⊕◌, ◌<<<◌, u32, u64, for_range,
}
use myrtus_psm_edge.Backend.F6
use myrtus_psm_edge.Backend.F6.Sbox.{bs_sbox}
use myrtus_psm_edge.Backend.F3.Slices.{move, octet, load, byte_of}

unfoldable pub bs_addroundkey : List ℕ → List ℕ → List ℕ
bs_addroundkey b rk = for_range 128 0 (λ i b. set b i (get_or b i 0 ⊕ get_or rk i 0)) b

-- The loop steps by 8: its round `k` is at `i = 8 * k`.
unfoldable pub bs_apply_sbox : List ℕ → List ℕ
bs_apply_sbox input = for_range 16 0 (λ k s. move 8 s (8 * k) (bs_sbox (octet s (8 * k)))) input

-- `(w & (ONE << j)) ? v : 0`
abbrev pub pick : ℕ → ℕ → ℕ → ℕ
pick w j v = if bit_and w (1 <<< j) == 0 then 0 else v

-- `int bitpos = ONE << k`: the conversion keeps 32 bits, and `|=` extends the sign to a word.
abbrev pub int_bit : ℕ → ℕ
int_bit k =
    let low = u32 (u64 (1 <<< k)) in if ltb low (2 ^ 31) then low else low + (2 ^ 64 - 2 ^ 32)

-- `transpose[at(j)] |= (w & (ONE << j)) ? v : 0` for the 64 bits of `w`.
unfoldable pub spread : (ℕ → ℕ) → ℕ → ℕ → List ℕ → List ℕ
spread at w v t = for_range 64 0 (λ j t. set t (at j) (bit_or (get_or t (at j) 0) (pick w j v))) t

unfoldable pub bs_transpose_dst : List ℕ → List ℕ → List ℕ
bs_transpose_dst transpose blocks =
    for_range 64 0
      (λ k t.
        for_range 2 0
          (λ i t. spread (λ j. (i <<< 6) + j) (get_or blocks (k * 2 + i) 0) (int_bit k) t) t)
      transpose

unfoldable pub bs_transpose : List ℕ → List ℕ
bs_transpose blocks = bs_transpose_dst (replicate 128 0) blocks

unfoldable pub bs_transpose_rev : List ℕ → List ℕ
bs_transpose_rev blocks =
    for_range 128 0
      (λ k t. spread (λ j. j * 2 + k / 64) (get_or blocks k 0) (u64 (1 <<< (k % 64))) t)
      (replicate 128 0)

-- `offsetr` after `i` rounds that add `step` to it.
abbrev pub offset : ℕ → ℕ → ℕ → ℕ
offset zero step o = o
offset (suc i) step o = offset i step (bit_and (o + step) 0x7f)

-- A round of the loop of `bs_shiftrows`: eight words of each of four columns.
unfoldable pub shift_round : List ℕ → ℕ → List ℕ → List ℕ
shift_round b i bp =
    let bp = move 8 bp (8 * i) (octet b (offset i 40 0)) in
    let bp = move 8 bp (8 * i + 32) (octet b (offset i 40 32)) in
    let bp = move 8 bp (8 * i + 64) (octet b (offset i 40 64)) in
    move 8 bp (8 * i + 96) (octet b (offset i 40 96))

-- `bp` is the array on the stack, with what it held.
unfoldable pub bs_shiftrows : List ℕ → List ℕ → List ℕ
bs_shiftrows bp b = for_range 4 0 (shift_round b) bp

-- The eight words of each row of a mixed column, from the four rows that go in.
abbrev pub mixed_0 : (ℕ → ℕ) → (ℕ → ℕ) → (ℕ → ℕ) → (ℕ → ℕ) → List ℕ
mixed_0 a b c d =
    let over = a 7 ⊕ b 7 in
    (b 0 ⊕ c 0 ⊕ d 0 ⊕ over)
    ∷ (a 0 ⊕ b 0 ⊕ b 1 ⊕ c 1 ⊕ d 1 ⊕ over)
    ∷ (a 1 ⊕ b 1 ⊕ b 2 ⊕ c 2 ⊕ d 2)
    ∷ (a 2 ⊕ b 2 ⊕ b 3 ⊕ c 3 ⊕ d 3 ⊕ over)
    ∷ (a 3 ⊕ b 3 ⊕ b 4 ⊕ c 4 ⊕ d 4 ⊕ over)
    ∷ (a 4 ⊕ b 4 ⊕ b 5 ⊕ c 5 ⊕ d 5)
    ∷ (a 5 ⊕ b 5 ⊕ b 6 ⊕ c 6 ⊕ d 6)
    ∷ (a 6 ⊕ b 6 ⊕ b 7 ⊕ c 7 ⊕ d 7)
    ∷ []

abbrev pub mixed_1 : (ℕ → ℕ) → (ℕ → ℕ) → (ℕ → ℕ) → (ℕ → ℕ) → List ℕ
mixed_1 a b c d =
    let over = b 7 ⊕ c 7 in
    (a 0 ⊕ c 0 ⊕ d 0 ⊕ over)
    ∷ (a 1 ⊕ b 0 ⊕ c 0 ⊕ c 1 ⊕ d 1 ⊕ over)
    ∷ (a 2 ⊕ b 1 ⊕ c 1 ⊕ c 2 ⊕ d 2)
    ∷ (a 3 ⊕ b 2 ⊕ c 2 ⊕ c 3 ⊕ d 3 ⊕ over)
    ∷ (a 4 ⊕ b 3 ⊕ c 3 ⊕ c 4 ⊕ d 4 ⊕ over)
    ∷ (a 5 ⊕ b 4 ⊕ c 4 ⊕ c 5 ⊕ d 5)
    ∷ (a 6 ⊕ b 5 ⊕ c 5 ⊕ c 6 ⊕ d 6)
    ∷ (a 7 ⊕ b 6 ⊕ c 6 ⊕ c 7 ⊕ d 7)
    ∷ []

abbrev pub mixed_2 : (ℕ → ℕ) → (ℕ → ℕ) → (ℕ → ℕ) → (ℕ → ℕ) → List ℕ
mixed_2 a b c d =
    let over = c 7 ⊕ d 7 in
    (a 0 ⊕ b 0 ⊕ d 0 ⊕ over)
    ∷ (a 1 ⊕ b 1 ⊕ c 0 ⊕ d 0 ⊕ d 1 ⊕ over)
    ∷ (a 2 ⊕ b 2 ⊕ c 1 ⊕ d 1 ⊕ d 2)
    ∷ (a 3 ⊕ b 3 ⊕ c 2 ⊕ d 2 ⊕ d 3 ⊕ over)
    ∷ (a 4 ⊕ b 4 ⊕ c 3 ⊕ d 3 ⊕ d 4 ⊕ over)
    ∷ (a 5 ⊕ b 5 ⊕ c 4 ⊕ d 4 ⊕ d 5)
    ∷ (a 6 ⊕ b 6 ⊕ c 5 ⊕ d 5 ⊕ d 6)
    ∷ (a 7 ⊕ b 7 ⊕ c 6 ⊕ d 6 ⊕ d 7)
    ∷ []

abbrev pub mixed_3 : (ℕ → ℕ) → (ℕ → ℕ) → (ℕ → ℕ) → (ℕ → ℕ) → List ℕ
mixed_3 a b c d =
    let over = a 7 ⊕ d 7 in
    (a 0 ⊕ b 0 ⊕ c 0 ⊕ over)
    ∷ (a 1 ⊕ a 0 ⊕ b 1 ⊕ c 1 ⊕ d 0 ⊕ over)
    ∷ (a 2 ⊕ a 1 ⊕ b 2 ⊕ c 2 ⊕ d 1)
    ∷ (a 3 ⊕ a 2 ⊕ b 3 ⊕ c 3 ⊕ d 2 ⊕ over)
    ∷ (a 4 ⊕ a 3 ⊕ b 4 ⊕ c 4 ⊕ d 3 ⊕ over)
    ∷ (a 5 ⊕ a 4 ⊕ b 5 ⊕ c 5 ⊕ d 4)
    ∷ (a 6 ⊕ a 5 ⊕ b 6 ⊕ c 6 ⊕ d 5)
    ∷ (a 7 ⊕ a 6 ⊕ b 7 ⊕ c 7 ⊕ d 6)
    ∷ []

-- A round of the loop of `bs_shiftmix`: a whole column.
unfoldable pub mix_round : List ℕ → ℕ → List ℕ → List ℕ
mix_round s i bp =
    let a = λ (k : ℕ). get_or s (offset i 32 0 + 0 + k) 0 in
    let b = λ (k : ℕ). get_or s (offset i 32 32 + 8 + k) 0 in
    let c = λ (k : ℕ). get_or s (offset i 32 64 + 16 + k) 0 in
    let d = λ (k : ℕ). get_or s (offset i 32 96 + 24 + k) 0 in
    let bp = move 8 bp (32 * i) (mixed_0 a b c d) in
    let bp = move 8 bp (32 * i + 8) (mixed_1 a b c d) in
    let bp = move 8 bp (32 * i + 16) (mixed_2 a b c d) in move 8 bp (32 * i + 24) (mixed_3 a b c d)

unfoldable pub bs_shiftmix : List ℕ → List ℕ → List ℕ
bs_shiftmix bp b = for_range 4 0 (mix_round b) bp

-- The 16 bytes of `key` from `at` on, in every block of `rk`.
unfoldable pub fill_blocks : List ℕ → ℕ → List ℕ → List ℕ
fill_blocks key at rk =
    let rk = set (set rk 0 (load key at)) 1 (load key (at + 8)) in
    for_range 63 1 (λ k rk. for_range 2 0 (λ l rk. set rk (2 * k + l) (get_or rk l 0)) rk) rk

-- `key` is the array on the stack, with what it held.
unfoldable pub bs_expand_key : List ℕ → List (List ℕ) → List ℕ → List (List ℕ)
bs_expand_key key rk key' =
    let key = F6.expand_key (for_range 32 0 (λ i s. set s i (get_or key' i 0)) key) in
    for_range 15 0 (λ j rk. set rk j (bs_transpose (fill_blocks key (16 * j) (get_or rk j [])))) rk

-- A round before the last. `bp` is the array on the stack of `bs_shiftmix`, by its calls.
unfoldable pub bs_round : (ℕ → List ℕ) → List (List ℕ) → ℕ → List ℕ → List ℕ
bs_round bp rk round s =
    bs_addroundkey (bs_shiftmix (bp round) (bs_apply_sbox s)) (get_or rk round [])

-- `bp 14` is the array on the stack of `bs_shiftrows`.
unfoldable pub bs_cipher : (ℕ → List ℕ) → List ℕ → List (List ℕ) → List ℕ
bs_cipher bp state rk =
    let s = bs_addroundkey (bs_transpose state) (get_or rk 0 []) in
    let s = for_range 13 1 (bs_round bp rk) s in
    bs_transpose_rev (bs_addroundkey (bs_shiftrows (bp 14) (bs_apply_sbox s)) (get_or rk 14 []))

-- The 16 bytes are less than the BS_BLOCK_SIZE of 64 blocks, so that the loop runs once, in its first
-- branch. `key`, `rk` and `bp` are the arrays on the stack.
unfoldable pub aes256_ecb_encrypt :
    List ℕ → List (List ℕ) → (ℕ → List ℕ) → List ℕ → List ℕ → List ℕ → List ℕ
aes256_ecb_encrypt key rk bp inputb key' outputb =
    let outputb = for_range 16 0 (λ k out. set out k 0) outputb in
    let rk = bs_expand_key key rk key' in
    let input_space = set (set (replicate 128 0) 0 (load inputb 0)) 1 (load inputb 8) in
    let input_space = bs_cipher bp input_space rk in
    for_range 16 0 (λ k out. set out k (byte_of input_space k)) outputb
