-- ===== src/Gcm.antt =====
-- src/encrypt02.c and src/verify_16.inc: AES-GCM decryption in pieces, on a backend that is looked
-- up by name in LIB/lib_enc.so at each call. Byte arrays are lists; a pointer that walks through
-- an array that is only read is the rest of the list.
pub mod Verify
pub mod Product
pub mod Polynomial
pub mod Reduce
pub mod Convolve
pub mod Pack
pub mod Multiply
pub mod Hash
pub mod Spec
pub mod Blocks
pub mod Update
pub mod Context
pub mod Stream
pub mod Split
pub mod Tag
pub mod Range
pub mod Message
pub mod Tests
use myrtus_psm_edge.Common.{
  ℕ, zero, suc, ◌+◌, ◌-◌, ◌*◌, ◌/◌, ◌%◌, ◌^◌, List, [], ◌∷◌, Option, none, some, get_or, set, drop,
  replicate, if◌then◌else◌, ◌==◌, ltb, bit_and, bit_or, ◌⊕◌, ◌<<<◌, ◌>>>◌, u8, u32, u64, for_range,
}

-- A backend: plaintext block, key, and the block that it stores.
abbrev pub Op : Type 0
Op = List ℕ → List ℕ → List ℕ

-- The dynamic loader. A handle is a number, 0 for NULL; `dlsym h s n` is the symbol `enc_sXX_nYY`
-- of level `s` and index `n`.
pub record Loader : Type 0 where
  pub dlopen : ℕ
  pub dlsym : ℕ → ℕ → ℕ → Option Op

abbrev pub sbits : ℕ → ℕ
sbits y = bit_and y 0x30 >>> 4

abbrev pub ibits : ℕ → ℕ
ibits y = bit_and y 0x0f

-- The macro `fetch`.
abbrev pub fetch : Loader → ℕ → ℕ → Option Op
fetch loader handle mode = loader.dlsym handle (sbits mode) (ibits mode)

pub record EdContext : Type 0 where
  pub kcopy : List ℕ
  pub h : List ℕ
  pub j : List ℕ
  pub t : List ℕ
  pub accum : List ℕ
  pub paccum : List ℕ
  pub finalblock : List ℕ
  pub handle : ℕ
  pub index : ℕ
  pub mlen : ℕ

-- `for (i = n - 1; i >= 0; --i) { x[i] = u; u >>= 8; }` at the pointer `x + off`.
abbrev pub store_down : ℕ → List ℕ → ℕ → ℕ → List ℕ
store_down zero x off u = x
store_down (suc i) x off u = store_down i (set x (off + i) (u8 u)) off (u >>> 8)

unfoldable pub store32 : List ℕ → ℕ → ℕ → List ℕ
store32 x off u = store_down 4 x off u

unfoldable pub store64 : List ℕ → ℕ → ℕ → List ℕ
store64 x off u = store_down 8 x off u

-- The first loop of `addmul`.
unfoldable pub xor_into : List ℕ → List ℕ → ℕ → List ℕ
xor_into a x xlen = for_range xlen 0 (λ i a. set a i (get_or a i 0 ⊕ get_or x i 0)) a

-- `abits` and `ybits`.
unfoldable pub bits : List ℕ → List ℕ
bits a =
    for_range 128 0 (λ i b. set b i (bit_and (get_or a (i / 8) 0 >>> (7 - i % 8)) 1))
      (replicate 128 0)

unfoldable pub convolve : List ℕ → List ℕ → List ℕ
convolve abits ybits =
    for_range 128 0
      (λ i.
        for_range 128 0 (λ j p.
          set p (i + j) (get_or p (i + j) 0 ⊕ bit_and (get_or abits i 0) (get_or ybits j 0))))
      (replicate 256 0)

-- The body of the reduction loop.
unfoldable pub reduce_bit : ℕ → List ℕ → List ℕ
reduce_bit i p =
    let p = set p i (get_or p i 0 ⊕ get_or p (i + 128) 0) in
    let p = set p (i + 1) (get_or p (i + 1) 0 ⊕ get_or p (i + 128) 0) in
    let p = set p (i + 2) (get_or p (i + 2) 0 ⊕ get_or p (i + 128) 0) in
    let p = set p (i + 7) (get_or p (i + 7) 0 ⊕ get_or p (i + 128) 0) in
    set p (i + 128) (get_or p (i + 128) 0 ⊕ get_or p (i + 128) 0)

-- `for (i = n - 1; i >= 0; --i)`
unfoldable pub reduce : ℕ → List ℕ → List ℕ
reduce zero p = p
reduce (suc i) p = reduce i (reduce_bit i p)

-- The last two loops of `addmul`.
unfoldable pub pack : List ℕ → List ℕ
pack p =
    for_range 128 0
      (λ i a. set a (i / 8) (bit_or (get_or a (i / 8) 0) (get_or p i 0 <<< (7 - i % 8))))
      (replicate 16 0)

-- The product that `addmul` leaves in `a`, once `x` has been added.
unfoldable pub multiply : List ℕ → List ℕ → List ℕ
multiply a y = pack (reduce 128 (convolve (bits a) (bits y)))

unfoldable pub addmul : List ℕ → List ℕ → ℕ → List ℕ → List ℕ
addmul a x xlen y = multiply (xor_into a x xlen) y

-- `return 0`, and any other result.
pub data Status : Type 0 where
  success failure : Status

-- `cx` is what `malloc` returned.
unfoldable pub ed_init : Loader → ℕ → EdContext → List ℕ → List ℕ → Status × EdContext
ed_init loader mode cx npub k =
    let opened = record cx { handle = loader.dlopen } in
    if loader.dlopen == 0 then (failure, opened) else elim (fetch loader loader.dlopen mode) [
      | none ↦ (failure, opened)
      | some op ↦
          (let kcopy = for_range 32 0 (λ i a. set a i (get_or k i 0)) cx.kcopy in
            let j = store32 (for_range 12 0 (λ i a. set a i (get_or npub i 0)) cx.j) 12 1 in
            let zeros = λ (a : List ℕ). for_range 16 0 (λ i a. set a i 0) a in
            (
              success,
              record {
                kcopy = kcopy;
                h = op (replicate 16 0) kcopy;
                j = j;
                t = op j kcopy;
                accum = zeros cx.accum;
                paccum = zeros cx.paccum;
                finalblock = store64 (store64 cx.finalblock 0 0) 8 0;
                handle = loader.dlopen;
                index = 1;
                mlen = 0;
              },
            ))
    ]

-- The context after one round of the loop of `dec_update`, on a block of `blocklen` bytes at `c`.
unfoldable pub dec_block : Op → EdContext → List ℕ → ℕ → EdContext
dec_block op cx c blocklen =
    let index = u64 (cx.index + 1) in
    record cx {
      index = index;
      j = store32 cx.j 12 index;
      paccum = cx.accum;
      accum = addmul cx.accum c blocklen cx.h;
    }

-- `while (clen > 0)`, with fuel: `m` is written from `off` on, and `c` is what is left to read.
unfoldable pub dec_loop : ℕ → Op → EdContext → List ℕ → ℕ → List ℕ → ℕ → EdContext × List ℕ
dec_loop zero op cx m off c clen = (cx, m)
dec_loop (suc fuel) op cx m off c clen =
    let blocklen = if ltb clen 16 then clen else 16 in
    let cx' = dec_block op cx c blocklen in
    let stream = op cx'.j cx'.kcopy in
    let m' = for_range blocklen 0 (λ i m. set m (off + i) (get_or c i 0 ⊕ get_or stream i 0)) m in
    let rest = dec_loop fuel op cx' m' (off + blocklen) (drop blocklen c) (clen - blocklen) in
    if clen == 0 then (cx, m) else rest

-- A round reads at least one byte, so `clen` rounds are enough.
unfoldable pub dec_update :
    Loader → ℕ → EdContext → List ℕ → List ℕ → ℕ → Status × EdContext × List ℕ
dec_update loader mode cx m c clen = elim (fetch loader cx.handle mode) [
  | none ↦ (failure, cx, m)
  | some op ↦
      (let done = dec_loop clen op (record cx { mlen = u64 (cx.mlen + clen) }) m 0 c clen in
        (success, done.0, done.1))
]

-- `crypto_verify_16`: `unsigned int` arithmetic; the result is 0 or -1.
unfoldable pub different_bits : List ℕ → List ℕ → ℕ
different_bits x y = for_range 16 0 (λ i d. bit_or d (get_or x i 0 ⊕ get_or y i 0)) 0

unfoldable pub crypto_verify_16 : List ℕ → List ℕ → Status
crypto_verify_16 x y =
    if bit_and 1 (u32 (different_bits x y + 2 ^ 32 - 1) >>> 8) == 1 then success else failure

-- `ts`, the tag that is expected.
unfoldable pub expected_tag : EdContext → List ℕ
expected_tag cx =
    let finalblock = store64 cx.finalblock 8 (u64 (8 * cx.mlen)) in
    let accum = addmul cx.accum finalblock 16 cx.h in
    for_range 16 0 (λ i a. set a i (get_or cx.t i 0 ⊕ get_or accum i 0)) (replicate 16 0)

-- The result of `dec_final`; the server frees nothing and uses the context no more.
unfoldable pub dec_final : EdContext → List ℕ → Status
dec_final cx tag = crypto_verify_16 tag (expected_tag cx)
