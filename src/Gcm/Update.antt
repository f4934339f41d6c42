-- ===== src/Gcm/Update.antt =====
-- `dec_update` as a fold over the blocks of its input, whatever the sizes of the calls.
use mathlib.Core.List.{append_assoc}
use myrtus_psm_edge.Common.{
  ℕ, zero, suc, ◌+◌, ◌-◌, ◌≤◌, ◌≡◌, refl, sym, ◌∙◌, ap, ap₂, arith, List, [], ◌∷◌, ◌++◌, get_or,
  set, take, drop, length, length-append, length-take, length-drop, array_ind, take_of_le,
  drop_of_le, ◌⊕◌, if◌then◌else◌, ltb, ltb_of_lt, ltb_of_ge, ==_of_ne, for_range, fill_table, table,
  for_range_congr, get_or-take, take-take, drop-take, drop-drop, drop-cons,
}
use native.Mathlib.Decide.{dec_lt}
use myrtus_psm_edge.Gcm.{EdContext, Op, multiply, store32, xor_into, addmul, dec_block, dec_loop}
use myrtus_psm_edge.Gcm.Spec.{be32, blocks, xor_from}
use myrtus_psm_edge.Gcm.Blocks.{blocks-nil, blocks-cons, length-xor_from}

-- `store32(x + 12, u)` writes the four last bytes of a block, the high one first.
pub store32_lem : (x : List ℕ) (u : ℕ) → length x ≡ 16 → store32 x 12 u ≡ take 12 x ++ be32 u
unfolding store32
store32_lem x u =
    array_ind 16 (λ x. store32 x 12 u ≡ take 12 x ++ be32 u)
      (λ a b c d e f g h i j k l m n o p. ground arith) x

-- Only the first `xlen` bytes of `x` are read.
pub addmul-take :
    (a x : List ℕ) (xlen : ℕ) (y : List ℕ) → addmul a (take xlen x) xlen y ≡ addmul a x xlen y
unfolding addmul xor_into
addmul-take a x xlen y =
    ap (λ t. multiply t y)
      (for_range_congr _ _ xlen 0 a
        (λ i s p q. ap (λ t. set s i (get_or s i 0 ⊕ t)) (get_or-take xlen i x 0 (omega arith))))

unfoldable pub run_blocks : Op → EdContext → List (List ℕ) → EdContext
run_blocks op cx [] = cx
run_blocks op cx (b ∷ bs) = run_blocks op (dec_block op cx b (length b)) bs

unfoldable pub out_blocks : Op → EdContext → List (List ℕ) → List ℕ
out_blocks op cx [] = []
out_blocks op cx (b ∷ bs) =
    let next = dec_block op cx b (length b) in
    xor_from 0 b (op next.j next.kcopy) ++ out_blocks op next bs

dec_block-take :
    (op : Op) (cx : EdContext) (c : List ℕ) (n : ℕ)
    → n ≤ length c
    → dec_block op cx c n ≡ dec_block op cx (take n c) (length (take n c))
unfolding dec_block
dec_block-take op cx c n h =
    ap (λ t. record (dec_block op cx c n) { accum = t })
      (sym (addmul-take cx.accum c n cx.h)
        ∙ ap (λ k. addmul cx.accum (take n c) k cx.h) (omega (arith, length-take n c)))

-- The bytes that one round stores.
xor_from-table :
    (c s : List ℕ) (n i : ℕ)
    → i + n ≤ length c
    → table (λ k. get_or c k 0 ⊕ get_or s k 0) i n ≡ xor_from i (take n (drop i c)) s
xor_from-table c s zero i h = refl
xor_from-table c s (suc n) i h =
    ap (λ t. (get_or c i 0 ⊕ get_or s i 0) ∷ t) (xor_from-table c s n (i + 1) (omega arith))
    ∙ ap (λ l. xor_from i (take (suc n) l) s) (sym (drop-cons i c 0 (omega arith)))

block_size : ℕ → ℕ
block_size clen = if ltb clen 16 then clen else 16

first_block : (n : ℕ) (c : List ℕ) → take 16 (take n c) ≡ take (block_size n) c
unfolding block_size
first_block n c = elim (dec_lt n 16) [
  | yes p ↦ rw (ltb_of_lt n 16 p) (take_of_le 16 (take n c) (omega (arith, length-take n c, p)))
  | no p ↦ rw (ltb_of_ge n 16 (omega (arith, p))) (take-take 16 n c (omega (arith, p)))
]

other_blocks :
    (n : ℕ) (c : List ℕ)
    → n ≤ length c
    → drop 16 (take n c) ≡ take (n - block_size n) (drop (block_size n) c)
unfolding block_size
other_blocks n c h = elim (dec_lt n 16) [
  | yes p ↦ rw (ltb_of_lt n 16 p) (
      drop_of_le 16 (take n c) (omega (arith, length-take n c, p))
      ∙ ap (λ k. take k (drop n c)) zero_left)
  | no p ↦ rw (ltb_of_ge n 16 (omega (arith, p))) (drop-take 16 n c (omega (arith, p)))
]
  where
    zero_left : 0 ≡ n - n
    zero_left = omega arith

blocks-take :
    (n x : ℕ) (c : List ℕ)
    → suc n ≤ length (x ∷ c)
    → blocks (take (suc n) (x ∷ c))
      ≡ take (block_size (suc n)) (x ∷ c)
        ∷ blocks (take (suc n - block_size (suc n)) (drop (block_size (suc n)) (x ∷ c)))
blocks-take n x c h =
    blocks-cons x (take n c)
    ∙ ap₂ (λ b r. b ∷ blocks r) (first_block (suc n) (x ∷ c)) (other_blocks (suc n) (x ∷ c) h)

block_size_bounds :
    (n : ℕ) → (block_size (suc n) ≤ suc n) × (1 ≤ block_size (suc n)) × (block_size (suc n) ≤ 16)
unfolding block_size
block_size_bounds n = ground arith

-- The inner loop, for a stream block `s`.
store_stream :
    (off n : ℕ) (done g c s : List ℕ)
    → off ≡ length done
    → n ≤ length c
    → n ≤ length g
    → for_range n 0 (λ i m. set m (off + i) (get_or c i 0 ⊕ get_or s i 0)) (done ++ g)
      ≡ done ++ (xor_from 0 (take n c) s ++ drop n g)
store_stream off n done g c s e h l =
    fill_table off (λ i. get_or c i 0 ⊕ get_or s i 0) n 0 done g (omega arith) l
    ∙ ap (λ t. done ++ (t ++ drop n g)) (xor_from-table c s n 0 (omega arith))

dec_loop_step :
    (fuel : ℕ) (op : Op) (cx : EdContext) (m : List ℕ) (off : ℕ) (c : List ℕ) (n : ℕ)
    → let size = block_size (suc n) in
      let next = dec_block op cx c size in
      let s = op next.j next.kcopy in
      dec_loop (suc fuel) op cx m off c (suc n)
      ≡ dec_loop fuel op next
          (for_range size 0 (λ i m. set m (off + i) (get_or c i 0 ⊕ get_or s i 0)) m)
          (off + size)
          (drop size c)
          (suc n - size)
unfolding dec_loop block_size
dec_loop_step fuel op cx m off c n = rw (==_of_ne (suc n) 0 (λ h. omega arith))

-- The loop on `clen` bytes: the context runs through their blocks, and the output is written behind
-- what was there, over as many bytes.
pub dec_loop_lem :
    (fuel : ℕ) (op : Op) (cx : EdContext) (off : ℕ) (done g c : List ℕ) (clen : ℕ)
    → clen ≤ fuel
    → off ≡ length done
    → clen ≤ length c
    → clen ≤ length g
    → dec_loop fuel op cx (done ++ g) off c clen ≡ (
      run_blocks op cx (blocks (take clen c)),
      done ++ (out_blocks op cx (blocks (take clen c)) ++ drop clen g),
    )
unfolding dec_loop run_blocks out_blocks
dec_loop_lem zero op cx off done g c zero p e h l = rw blocks-nil
dec_loop_lem (suc fuel) op cx off done g c zero p e h l = rw blocks-nil
dec_loop_lem zero op cx off done g c (suc n) p e h l = absurd (omega arith)
dec_loop_lem (suc fuel) op cx off done g [] (suc n) p e h l = absurd (omega arith)
dec_loop_lem (suc fuel) op cx off done g (x ∷ c) (suc n) p e h l =
    let size = block_size (suc n) in
    let b = block_size_bounds n in
    let first = take size (x ∷ c) in
    let next = dec_block op cx (x ∷ c) size in
    let next' = dec_block op cx first (length first) in
    let same = dec_block-take op cx (x ∷ c) size (omega arith) in
    let out = xor_from 0 first (op next.j next.kcopy) in
    let bs = blocks (take (suc n - size) (drop size (x ∷ c))) in
    let whole : size + (suc n - size) ≡ suc n = omega arith in
    dec_loop_step fuel op cx (done ++ g) off (x ∷ c) n
    ∙ ap (λ m. dec_loop fuel op next m (off + size) (drop size (x ∷ c)) (suc n - size))
        (store_stream off size done g (x ∷ c) (op next.j next.kcopy) e (omega arith) (omega arith)
          ∙ sym (append_assoc done out (drop size g)))
    ∙ dec_loop_lem fuel op next (off + size) (done ++ out) (drop size g) (drop size (x ∷ c))
        (suc n - size) (omega arith)
        (omega (
          arith,
          length-append done out,
          length-xor_from 0 first (op next.j next.kcopy),
          length-take size (x ∷ c),
        ))
        (omega (arith, length-drop size (x ∷ c))) (omega (arith, length-drop size g))
    ∙ ap (λ r. (run_blocks op next bs, (done ++ out) ++ (out_blocks op next bs ++ r)))
        (drop-drop (suc n - size) size g ∙ ap (λ k. drop k g) whole)
    ∙ ap (λ r. (run_blocks op next bs, r))
        (append_assoc done out _
          ∙ ap (λ t. done ++ t) (sym (append_assoc out (out_blocks op next bs) (drop (suc n) g))))
    ∙ ap
        (λ t. (
          run_blocks op t bs,
          done ++ (xor_from 0 first (op t.j t.kcopy) ++ out_blocks op t bs ++ drop (suc n) g),
        ))
        same
    ∙ ap (λ t. (run_blocks op cx t, done ++ (out_blocks op cx t ++ drop (suc n) g)))
        (sym (blocks-take n x c h))
