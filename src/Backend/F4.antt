-- ===== src/Backend/F4.antt =====
-- backends/f4/aes256.c: AES-256 on one block, with the state as sixteen bytes. The cell
-- `state[i][j]` is byte `i * 4 + j` of the buffer that the state is cast from. An array that C
-- leaves uninitialised is an argument, so what it holds is arbitrary.
pub mod Refine
pub mod Keys
use myrtus_psm_edge.Common.{
  ℕ, zero, suc, ◌+◌, ◌-◌, ◌*◌, ◌/◌, ◌%◌, List, [], ◌∷◌, get_or, set, take, if◌then◌else◌, ◌==◌,
  bit_and, ◌⊕◌, ◌<<<◌, ◌>>>◌, u8, for_range,
}

abbrev pub nb : ℕ
nb = 4

abbrev pub nk : ℕ
nk = 8

abbrev pub nr : ℕ
nr = 14

abbrev pub key_exp_size : ℕ
key_exp_size = 240

abbrev pub sbox : List ℕ
sbox =
    0x63 ∷ 0x7c ∷ 0x77 ∷ 0x7b ∷ 0xf2 ∷ 0x6b ∷ 0x6f ∷ 0xc5 ∷ 0x30 ∷ 0x01 ∷ 0x67 ∷ 0x2b ∷ 0xfe ∷ 0xd7
    ∷ 0xab ∷ 0x76 ∷ 0xca ∷ 0x82 ∷ 0xc9 ∷ 0x7d ∷ 0xfa ∷ 0x59 ∷ 0x47 ∷ 0xf0 ∷ 0xad ∷ 0xd4 ∷ 0xa2
    ∷ 0xaf ∷ 0x9c ∷ 0xa4 ∷ 0x72 ∷ 0xc0 ∷ 0xb7 ∷ 0xfd ∷ 0x93 ∷ 0x26 ∷ 0x36 ∷ 0x3f ∷ 0xf7 ∷ 0xcc
    ∷ 0x34 ∷ 0xa5 ∷ 0xe5 ∷ 0xf1 ∷ 0x71 ∷ 0xd8 ∷ 0x31 ∷ 0x15 ∷ 0x04 ∷ 0xc7 ∷ 0x23 ∷ 0xc3 ∷ 0x18
    ∷ 0x96 ∷ 0x05 ∷ 0x9a ∷ 0x07 ∷ 0x12 ∷ 0x80 ∷ 0xe2 ∷ 0xeb ∷ 0x27 ∷ 0xb2 ∷ 0x75 ∷ 0x09 ∷ 0x83
    ∷ 0x2c ∷ 0x1a ∷ 0x1b ∷ 0x6e ∷ 0x5a ∷ 0xa0 ∷ 0x52 ∷ 0x3b ∷ 0xd6 ∷ 0xb3 ∷ 0x29 ∷ 0xe3 ∷ 0x2f
    ∷ 0x84 ∷ 0x53 ∷ 0xd1 ∷ 0x00 ∷ 0xed ∷ 0x20 ∷ 0xfc ∷ 0xb1 ∷ 0x5b ∷ 0x6a ∷ 0xcb ∷ 0xbe ∷ 0x39
    ∷ 0x4a ∷ 0x4c ∷ 0x58 ∷ 0xcf ∷ 0xd0 ∷ 0xef ∷ 0xaa ∷ 0xfb ∷ 0x43 ∷ 0x4d ∷ 0x33 ∷ 0x85 ∷ 0x45
    ∷ 0xf9 ∷ 0x02 ∷ 0x7f ∷ 0x50 ∷ 0x3c ∷ 0x9f ∷ 0xa8 ∷ 0x51 ∷ 0xa3 ∷ 0x40 ∷ 0x8f ∷ 0x92 ∷ 0x9d
    ∷ 0x38 ∷ 0xf5 ∷ 0xbc ∷ 0xb6 ∷ 0xda ∷ 0x21 ∷ 0x10 ∷ 0xff ∷ 0xf3 ∷ 0xd2 ∷ 0xcd ∷ 0x0c ∷ 0x13
    ∷ 0xec ∷ 0x5f ∷ 0x97 ∷ 0x44 ∷ 0x17 ∷ 0xc4 ∷ 0xa7 ∷ 0x7e ∷ 0x3d ∷ 0x64 ∷ 0x5d ∷ 0x19 ∷ 0x73
    ∷ 0x60 ∷ 0x81 ∷ 0x4f ∷ 0xdc ∷ 0x22 ∷ 0x2a ∷ 0x90 ∷ 0x88 ∷ 0x46 ∷ 0xee ∷ 0xb8 ∷ 0x14 ∷ 0xde
    ∷ 0x5e ∷ 0x0b ∷ 0xdb ∷ 0xe0 ∷ 0x32 ∷ 0x3a ∷ 0x0a ∷ 0x49 ∷ 0x06 ∷ 0x24 ∷ 0x5c ∷ 0xc2 ∷ 0xd3
    ∷ 0xac ∷ 0x62 ∷ 0x91 ∷ 0x95 ∷ 0xe4 ∷ 0x79 ∷ 0xe7 ∷ 0xc8 ∷ 0x37 ∷ 0x6d ∷ 0x8d ∷ 0xd5 ∷ 0x4e
    ∷ 0xa9 ∷ 0x6c ∷ 0x56 ∷ 0xf4 ∷ 0xea ∷ 0x65 ∷ 0x7a ∷ 0xae ∷ 0x08 ∷ 0xba ∷ 0x78 ∷ 0x25 ∷ 0x2e
    ∷ 0x1c ∷ 0xa6 ∷ 0xb4 ∷ 0xc6 ∷ 0xe8 ∷ 0xdd ∷ 0x74 ∷ 0x1f ∷ 0x4b ∷ 0xbd ∷ 0x8b ∷ 0x8a ∷ 0x70
    ∷ 0x3e ∷ 0xb5 ∷ 0x66 ∷ 0x48 ∷ 0x03 ∷ 0xf6 ∷ 0x0e ∷ 0x61 ∷ 0x35 ∷ 0x57 ∷ 0xb9 ∷ 0x86 ∷ 0xc1
    ∷ 0x1d ∷ 0x9e ∷ 0xe1 ∷ 0xf8 ∷ 0x98 ∷ 0x11 ∷ 0x69 ∷ 0xd9 ∷ 0x8e ∷ 0x94 ∷ 0x9b ∷ 0x1e ∷ 0x87
    ∷ 0xe9 ∷ 0xce ∷ 0x55 ∷ 0x28 ∷ 0xdf ∷ 0x8c ∷ 0xa1 ∷ 0x89 ∷ 0x0d ∷ 0xbf ∷ 0xe6 ∷ 0x42 ∷ 0x68
    ∷ 0x41 ∷ 0x99 ∷ 0x2d ∷ 0x0f ∷ 0xb0 ∷ 0x54 ∷ 0xbb ∷ 0x16 ∷ []

abbrev pub rcon : List ℕ
rcon = 0x8d ∷ 0x01 ∷ 0x02 ∷ 0x04 ∷ 0x08 ∷ 0x10 ∷ 0x20 ∷ 0x40 ∷ 0x80 ∷ 0x1b ∷ 0x36 ∷ []

unfoldable pub get_sbox_value : ℕ → ℕ
get_sbox_value num = get_or sbox num 0

-- The first round key is the key itself.
unfoldable pub copy_key : List ℕ → List ℕ → List ℕ
copy_key round_key key =
    for_range nk 0
      (λ i rk.
        let rk = set rk (i * 4 + 0) (get_or key (i * 4 + 0) 0) in
        let rk = set rk (i * 4 + 1) (get_or key (i * 4 + 1) 0) in
        let rk = set rk (i * 4 + 2) (get_or key (i * 4 + 2) 0) in
        set rk (i * 4 + 3) (get_or key (i * 4 + 3) 0))
      round_key

-- RotWord, SubWord and the round constant.
unfoldable pub core_word : ℕ → List ℕ → List ℕ
core_word i t =
    let u8tmp = get_or t 0 0 in
    let t = set t 0 (get_or t 1 0) in
    let t = set t 1 (get_or t 2 0) in
    let t = set t 2 (get_or t 3 0) in
    let t = set t 3 u8tmp in
    let t = set t 0 (get_sbox_value (get_or t 0 0)) in
    let t = set t 1 (get_sbox_value (get_or t 1 0)) in
    let t = set t 2 (get_sbox_value (get_or t 2 0)) in
    let t = set t 3 (get_sbox_value (get_or t 3 0)) in
    set t 0 (get_or t 0 0 ⊕ get_or rcon (i / nk) 0)

-- SubWord alone.
unfoldable pub sub_word : List ℕ → List ℕ
sub_word t =
    let t = set t 0 (get_sbox_value (get_or t 0 0)) in
    let t = set t 1 (get_sbox_value (get_or t 1 0)) in
    let t = set t 2 (get_sbox_value (get_or t 2 0)) in set t 3 (get_sbox_value (get_or t 3 0))

-- `tempa` when it is added to word `i - Nk`.
unfoldable pub temp_word : ℕ → List ℕ → List ℕ
temp_word i round_key =
    let k = (i - 1) * 4 in
    let tempa =
      get_or round_key (k + 0) 0
      ∷ get_or round_key (k + 1) 0
      ∷ get_or round_key (k + 2) 0
      ∷ get_or round_key (k + 3) 0
      ∷ [] in
    let tempa = if i % nk == 0 then core_word i tempa else tempa in
    if i % nk == 4 then sub_word tempa else tempa

-- One round of the second loop of `KeyExpansion`.
unfoldable pub expand_word : ℕ → List ℕ → List ℕ
expand_word i round_key =
    let tempa = temp_word i round_key in
    let j = i * 4 in
    let k = (i - nk) * 4 in
    let rk = set round_key (j + 0) (get_or round_key (k + 0) 0 ⊕ get_or tempa 0 0) in
    let rk = set rk (j + 1) (get_or rk (k + 1) 0 ⊕ get_or tempa 1 0) in
    let rk = set rk (j + 2) (get_or rk (k + 2) 0 ⊕ get_or tempa 2 0) in
    set rk (j + 3) (get_or rk (k + 3) 0 ⊕ get_or tempa 3 0)

unfoldable pub key_expansion : List ℕ → List ℕ → List ℕ
key_expansion round_key key = for_range (nb * (nr + 1) - nk) nk expand_word (copy_key round_key key)

abbrev add_key_byte : ℕ → List ℕ → ℕ → ℕ → List ℕ → List ℕ
add_key_byte round round_key i j s =
    set s (i * 4 + j) (get_or s (i * 4 + j) 0 ⊕ get_or round_key (round * nb * 4 + i * nb + j) 0)

unfoldable pub add_round_key : ℕ → List ℕ → List ℕ → List ℕ
add_round_key round state round_key =
    for_range 4 0 (λ i. for_range 4 0 (add_key_byte round round_key i)) state

unfoldable pub sub_bytes : List ℕ → List ℕ
sub_bytes state =
    for_range 4 0
      (λ i. for_range 4 0 (λ j s. set s (j * 4 + i) (get_sbox_value (get_or s (j * 4 + i) 0))))
      state

unfoldable pub shift_rows : List ℕ → List ℕ
shift_rows s =
    let temp = get_or s 1 0 in
    let s = set s 1 (get_or s 5 0) in
    let s = set s 5 (get_or s 9 0) in
    let s = set s 9 (get_or s 13 0) in
    let s = set s 13 temp in
    let temp = get_or s 2 0 in
    let s = set s 2 (get_or s 10 0) in
    let s = set s 10 temp in
    let temp = get_or s 6 0 in
    let s = set s 6 (get_or s 14 0) in
    let s = set s 14 temp in
    let temp = get_or s 3 0 in
    let s = set s 3 (get_or s 15 0) in
    let s = set s 15 (get_or s 11 0) in let s = set s 11 (get_or s 7 0) in set s 7 temp

unfoldable pub xtime : ℕ → ℕ
xtime x = u8 (x <<< 1 ⊕ bit_and (x >>> 7) 1 * 0x1b)

-- One column of `MixColumns`, in place.
unfoldable pub mix_column : ℕ → List ℕ → List ℕ
mix_column i s =
    let t = get_or s (i * 4 + 0) 0 in
    let all =
      get_or s (i * 4 + 0) 0
      ⊕ get_or s (i * 4 + 1) 0
      ⊕ get_or s (i * 4 + 2) 0
      ⊕ get_or s (i * 4 + 3) 0 in
    let tm = xtime (get_or s (i * 4 + 0) 0 ⊕ get_or s (i * 4 + 1) 0) in
    let s = set s (i * 4 + 0) (get_or s (i * 4 + 0) 0 ⊕ (tm ⊕ all)) in
    let tm = xtime (get_or s (i * 4 + 1) 0 ⊕ get_or s (i * 4 + 2) 0) in
    let s = set s (i * 4 + 1) (get_or s (i * 4 + 1) 0 ⊕ (tm ⊕ all)) in
    let tm = xtime (get_or s (i * 4 + 2) 0 ⊕ get_or s (i * 4 + 3) 0) in
    let s = set s (i * 4 + 2) (get_or s (i * 4 + 2) 0 ⊕ (tm ⊕ all)) in
    let tm = xtime (get_or s (i * 4 + 3) 0 ⊕ t) in
    set s (i * 4 + 3) (get_or s (i * 4 + 3) 0 ⊕ (tm ⊕ all))

unfoldable pub mix_columns : List ℕ → List ℕ
mix_columns state = for_range 4 0 mix_column state

-- The rounds from `round` on, up to the `break` at `round == Nr`: `left` rounds are left at most.
unfoldable pub rounds : ℕ → ℕ → List ℕ → List ℕ → List ℕ
rounds zero round state round_key = state
rounds (suc left) round state round_key =
    let shifted = shift_rows (sub_bytes state) in
    let rest =
      rounds left (round + 1) (add_round_key round (mix_columns shifted) round_key) round_key in
    if round == nr then shifted else rest

unfoldable pub cipher : List ℕ → List ℕ → List ℕ
cipher state round_key =
    add_round_key nr (rounds nr 1 (add_round_key 0 state round_key) round_key) round_key

-- What `aes256` leaves in `ciphertext`. `round_key` is the uninitialised array of that name.
unfoldable pub aes256 : List ℕ → List ℕ → List ℕ → List ℕ
aes256 round_key plaintext key = cipher (take 16 plaintext) (key_expansion round_key key)
