-- ===== src/Backend/F3.antt =====
-- backends/f3/key_schedule.c: the key schedule of the bitsliced backend f3, by bytes. The locals
-- of its loop are those of F2, whose record holds them here too.
pub mod Schedule
pub mod Sbox
pub mod Circuit
pub mod Slices
pub mod Mixed
pub mod Stack
pub mod Columns
pub mod Rounds
pub mod Transpose
pub mod TransposeRev
pub mod Blocks
pub mod Keys
pub mod Cipher
use myrtus_psm_edge.Common.{
  ℕ, zero, suc, ◌+◌, ◌-◌, ◌*◌, ◌%◌, List, [], ◌∷◌, get_or, set, if◌then◌else◌, ◌==◌, ltb, bit_and,
  ◌⊕◌, ◌<<<◌, u8, for_range,
}
use myrtus_psm_edge.Backend.F2.{Expansion}

abbrev pub sbox_bs : List ℕ
sbox_bs =
    0x63 ∷ 0x7c ∷ 0x77 ∷ 0x7b ∷ 0xf2 ∷ 0x6b ∷ 0x6f ∷ 0xc5 ∷ 0x30 ∷ 0x01 ∷ 0x67 ∷ 0x2b ∷ 0xfe ∷ 0xd7
    ∷ 0xab ∷ 0x76 ∷ 0xca ∷ 0x82 ∷ 0xc9 ∷ 0x7d ∷ 0xfa ∷ 0x59 ∷ 0x47 ∷ 0xf0 ∷ 0xad ∷ 0xd4 ∷ 0xa2
    ∷ 0xaf ∷ 0x9c ∷ 0xa4 ∷ 0x72 ∷ 0xc0 ∷ 0xb7 ∷ 0xfd ∷ 0x93 ∷ 0x26 ∷ 0x36 ∷ 0x3f ∷ 0xf7 ∷ 0xcc
    ∷ 0x34 ∷ 0xa5 ∷ 0xe5 ∷ 0xf1 ∷ 0x71 ∷ 0xd8 ∷ 0x31 ∷ 0x15 ∷ 0x04 ∷ 0xc7 ∷ 0x23 ∷ 0xc3 ∷ 0x18
    ∷ 0x96 ∷ 0x05 ∷ 0x9a ∷ 0x07 ∷ 0x12 ∷ 0x80 ∷ 0xe2 ∷ 0xeb ∷ 0x27 ∷ 0xb2 ∷ 0x75 ∷ 0x09 ∷ 0x83
    ∷ 0x2c ∷ 0x1a ∷ 0x1b ∷ 0x6e ∷ 0x5a ∷ 0xa0 ∷ 0x52 ∷ 0x3b ∷ 0xd6 ∷ 0xb3 ∷ 0x29 ∷ 0xe3 ∷ 0x2f
    ∷ 0x84 ∷ 0x53 ∷ 0xd1 ∷ 0x00 ∷ 0xed ∷ 0x20 ∷ 0xfc ∷ 0xb1 ∷ 0x5b ∷ 0x6a ∷ 0xcb ∷ 0xbe ∷ 0x39
    ∷ 0x4a ∷ 0x4c ∷ 0x58 ∷ 0xcf ∷ 0xd0 ∷ 0xef ∷ 0xaa ∷ 0xfb ∷ 0x43 ∷ 0x4d ∷ 0x33 ∷ 0x85 ∷ 0x45
    ∷ 0xf9 ∷ 0x02 ∷ 0x7f ∷ 0x50 ∷ 0x3c ∷ 0x9f ∷ 0xa8 ∷ 0x51 ∷ 0xa3 ∷ 0x40 ∷ 0x8f ∷ 0x92 ∷ 0x9d
    ∷ 0x38 ∷ 0xf5 ∷ 0xbc ∷ 0xb6 ∷ 0xda ∷ 0x21 ∷ 0x10 ∷ 0xff ∷ 0xf3 ∷ 0xd2 ∷ 0xcd ∷ 0x0c ∷ 0x13
    ∷ 0xec ∷ 0x5f ∷ 0x97 ∷ 0x44 ∷ 0x17 ∷ 0xc4 ∷ 0xa7 ∷ 0x7e ∷ 0x3d ∷ 0x64 ∷ 0x5d ∷ 0x19 ∷ 0x73
    ∷ 0x60 ∷ 0x81 ∷ 0x4f ∷ 0xdc ∷ 0x22 ∷ 0x2a ∷ 0x90 ∷ 0x88 ∷ 0x46 ∷ 0xee ∷ 0xb8 ∷ 0x14 ∷ 0xde
    ∷ 0x5e ∷ 0x0b ∷ 0xdb ∷ 0xe0 ∷ 0x32 ∷ 0x3a ∷ 0x0a ∷ 0x49 ∷ 0x06 ∷ 0x24 ∷ 0x5c ∷ 0xc2 ∷ 0xd3
    ∷ 0xac ∷ 0x62 ∷ 0x91 ∷ 0x95 ∷ 0xe4 ∷ 0x79 ∷ 0xe7 ∷ 0xc8 ∷ 0x37 ∷ 0x6d ∷ 0x8d ∷ 0xd5 ∷ 0x4e
    ∷ 0xa9 ∷ 0x6c ∷ 0x56 ∷ 0xf4 ∷ 0xea ∷ 0x65 ∷ 0x7a ∷ 0xae ∷ 0x08 ∷ 0xba ∷ 0x78 ∷ 0x25 ∷ 0x2e
    ∷ 0x1c ∷ 0xa6 ∷ 0xb4 ∷ 0xc6 ∷ 0xe8 ∷ 0xdd ∷ 0x74 ∷ 0x1f ∷ 0x4b ∷ 0xbd ∷ 0x8b ∷ 0x8a ∷ 0x70
    ∷ 0x3e ∷ 0xb5 ∷ 0x66 ∷ 0x48 ∷ 0x03 ∷ 0xf6 ∷ 0x0e ∷ 0x61 ∷ 0x35 ∷ 0x57 ∷ 0xb9 ∷ 0x86 ∷ 0xc1
    ∷ 0x1d ∷ 0x9e ∷ 0xe1 ∷ 0xf8 ∷ 0x98 ∷ 0x11 ∷ 0x69 ∷ 0xd9 ∷ 0x8e ∷ 0x94 ∷ 0x9b ∷ 0x1e ∷ 0x87
    ∷ 0xe9 ∷ 0xce ∷ 0x55 ∷ 0x28 ∷ 0xdf ∷ 0x8c ∷ 0xa1 ∷ 0x89 ∷ 0x0d ∷ 0xbf ∷ 0xe6 ∷ 0x42 ∷ 0x68
    ∷ 0x41 ∷ 0x99 ∷ 0x2d ∷ 0x0f ∷ 0xb0 ∷ 0x54 ∷ 0xbb ∷ 0x16 ∷ []

unfoldable pub sub : ℕ → ℕ
sub x = get_or sbox_bs x 0

unfoldable pub rotate : List ℕ → List ℕ
rotate t = let a = get_or t 0 0 in set (for_range 3 0 (λ c s. set s c (get_or s (c + 1) 0)) t) 3 a

-- The body of the loop of `rcon`.
unfoldable pub twice : ℕ → ℕ
twice c = let b = bit_and c 0x80 in let c = u8 (c <<< 1) in if b == 0x80 then c ⊕ 0x1b else c

-- `while (in != 1) …; in--`: called with `in` at least 1.
unfoldable pub rcon_loop : ℕ → ℕ → ℕ
rcon_loop zero c = c
rcon_loop (suc zero) c = c
rcon_loop (suc (suc in')) c = rcon_loop (suc in') (twice c)

unfoldable pub rcon : ℕ → ℕ
rcon in' = if in' == 0 then 0 else rcon_loop in' 1

unfoldable pub schedule_core : List ℕ → ℕ → List ℕ
schedule_core t i =
    let t = rotate t in
    let t = for_range 4 0 (λ a s. set s a (sub (get_or s a 0))) t in set t 0 (get_or t 0 0 ⊕ rcon i)

-- `in[c] = in[c - 16] ^ t[a]; c++`
abbrev pub store_byte : List ℕ → ℕ → Expansion → Expansion
store_byte t a e = record e {
  c = u8 (e.c + 1);
  buf = set e.buf e.c (get_or e.buf (e.c - 16) 0 ⊕ get_or t a 0);
}

-- The copy of the last four bytes into `t`.
abbrev pub last_word : Expansion → List ℕ
last_word e =
    get_or e.buf (0 + e.c - 4) 0
    ∷ get_or e.buf (1 + e.c - 4) 0
    ∷ get_or e.buf (2 + e.c - 4) 0
    ∷ get_or e.buf (3 + e.c - 4) 0
    ∷ []

-- The body of the `while` loop.
unfoldable pub expand_block : Expansion → Expansion
expand_block e =
    let t = last_word e in
    let starts = e.c % 16 == 0 in
    let t = if starts then schedule_core t e.i else t in
    let i = if starts then u8 (e.i + 1) else e.i in
    for_range 4 0 (store_byte t) (record e { i = i })

-- `while (c < 176)`, with fuel.
unfoldable pub expand_loop : ℕ → Expansion → Expansion
expand_loop zero e = e
expand_loop (suc fuel) e =
    let rest = expand_loop fuel (expand_block e) in if ltb e.c 176 then rest else e

unfoldable pub expand_key : List ℕ → List ℕ
expand_key in' = (expand_loop 40 (record { c = 16; i = 1; buf = in' })).buf
