-- ===== src/Gcm/Split.antt =====
-- A message in two calls of `dec_update`, with a change of the backend between them.

use myrtus_psm_edge.Common.{
  ℕ, ◌+◌, ◌*◌, ◌≤◌, ◌≡◌, refl, sym, ◌∙◌, ap, ap₂, arith, List, [], ◌∷◌, ◌++◌, some, length, take,
  drop, take_of_le, length-append, take-append, u64,
}
use myrtus_psm_edge.Gcm.{Loader, EdContext, Op, fetch, dec_update, dec_block}
use myrtus_psm_edge.Gcm.Spec.{be32, blocks, ctr, xor_from}
use myrtus_psm_edge.Gcm.Blocks.{blocks-append, length-xor_from, length-ctr_bytes}
use myrtus_psm_edge.Gcm.Update.{run_blocks, out_blocks}
use myrtus_psm_edge.Gcm.Context.{
  Live, run_blocks-Live, run_blocks-append, out_blocks-append, run_blocks-SameKey,
}
use myrtus_psm_edge.Gcm.Stream.{
  counted, counted-Live, dec_update_lem, run_blocks-backend, out_blocks-backend,
}

-- The count of bytes takes no part in the work on a block.
run_blocks-counted :
    (op : Op) (cx : EdContext) (n : ℕ) (bs : List (List ℕ))
    → run_blocks op (record cx { mlen = n }) bs ≡ record (run_blocks op cx bs) { mlen = n }
unfolding run_blocks dec_block
run_blocks-counted op cx n [] = refl
run_blocks-counted op cx n (b ∷ bs) = run_blocks-counted op (dec_block op cx b (length b)) n bs

out_blocks-counted :
    (op : Op) (cx : EdContext) (n : ℕ) (bs : List (List ℕ))
    → out_blocks op (record cx { mlen = n }) bs ≡ out_blocks op cx bs
unfolding out_blocks dec_block
out_blocks-counted op cx n [] = refl
out_blocks-counted op cx n (b ∷ bs) =
    let next = dec_block op cx b (length b) in
    ap (λ r. xor_from 0 b (op next.j next.kcopy) ++ r) (out_blocks-counted op next n bs)

length-out_ctr :
    (op : Op) (cx : EdContext) (e : List ℕ → List ℕ) (i : ℕ) (bs : List (List ℕ))
    → length (out_blocks op cx bs) ≡ length (ctr e [] i bs)
unfolding out_blocks ctr
length-out_ctr op cx e i [] = refl
length-out_ctr op cx e i (b ∷ bs) =
    let next = dec_block op cx b (length b) in
    let s = op next.j next.kcopy in
    let rest = out_blocks op next bs in
    omega (
      arith,
      length-append (xor_from 0 b s) rest,
      length-xor_from 0 b s,
      length-out_ctr op next e (i + 1) bs,
      length-append (xor_from 0 b (e ([] ++ be32 i))) (ctr e [] (i + 1) bs),
      length-xor_from 0 b (e ([] ++ be32 i)),
    )

pub length-out_blocks :
    (op : Op) (cx : EdContext) (xs : List ℕ) → length (out_blocks op cx (blocks xs)) ≡ length xs
length-out_blocks op cx xs =
    length-out_ctr op cx (λ b. b) 0 (blocks xs) ∙ length-ctr_bytes (λ b. b) [] 0 xs

-- What a call returns, with the part of the output array that it has written.
pub decrypt : Loader → ℕ → EdContext → List ℕ → List ℕ → EdContext × List ℕ
decrypt loader mode cx m c =
    let r = dec_update loader mode cx m c (length c) in (r.1, take (length c) r.2)

decrypt_lem :
    (loader : Loader) (mode : ℕ) (cx : EdContext) (m c : List ℕ) (op : Op)
    → fetch loader cx.handle mode ≡ some op
    → length c ≤ length m
    → decrypt loader mode cx m c
      ≡ (run_blocks op (counted cx (length c)) (blocks c), out_blocks op cx (blocks c))
unfolding decrypt
decrypt_lem loader mode cx m c op found room =
    let n = length c in
    let out = out_blocks op (counted cx n) (blocks c) in
    let size : length out ≡ n = length-out_blocks op (counted cx n) c in
    ap (λ r. (r.1, take n r.2)) (dec_update_lem loader mode cx m c n op found (omega arith) room)
    ∙ rw (take_of_le n c (omega arith)) (
        ap (λ t. (run_blocks op (counted cx n) (blocks c), t))
          (take-append n out (drop n m) (omega (arith, size))
            ∙ take_of_le n out (omega (arith, size))
            ∙ out_blocks-counted op cx (u64 (cx.mlen + n)) (blocks c)))

-- Two calls of `dec_update`, the first on whole blocks, leave the context and write the bytes
-- that one call does, also when the second fetches another backend that agrees with the first
-- on blocks under the key, in a context in use and with room for the output.
pub decrypt-append :
    (loader : Loader) (mode mode' k : ℕ) (cx : EdContext) (iv m m' w a b : List ℕ) (op op' : Op)
    → Live iv cx
    → fetch loader cx.handle mode ≡ some op
    → fetch loader cx.handle mode' ≡ some op'
    → ((x : List ℕ) → length x ≡ 16 → op' x cx.kcopy ≡ op x cx.kcopy)
    → length a ≡ 16 * k
    → length a ≤ length m
    → length b ≤ length m'
    → length (a ++ b) ≤ length w
    → let first = decrypt loader mode cx m a in
      let second = decrypt loader mode' first.0 m' b in
      decrypt loader mode cx w (a ++ b) ≡ (second.0, first.1 ++ second.1)
decrypt-append loader mode mode' k cx iv m m' w a b op op' live found found' agree cut p q r =
    let start = counted cx (length a) in
    let mid = run_blocks op start (blocks a) in
    let same = run_blocks-SameKey op start (blocks a) in
    let n = u64 (cx.mlen + length a) in
    let first = decrypt_lem loader mode cx m a op found p in
    let second =
      decrypt_lem loader mode' mid m' b op'
        (ap (λ h. fetch loader h mode') same.same_handle ∙ found') q in
    let whole = decrypt_lem loader mode cx w (a ++ b) op found r in
    let joined = blocks-append k a b cut in
    let total : u64 (cx.mlen + length (a ++ b)) ≡ u64 (mid.mlen + length b) =
      omega (arith, length-append a b, same.same_mlen) in
    let context : run_blocks op (counted cx (length (a ++ b))) (blocks (a ++ b))
        ≡ run_blocks op' (counted mid (length b)) (blocks b) =
      ap (run_blocks op (counted cx (length (a ++ b)))) joined
      ∙ run_blocks-append op (counted cx (length (a ++ b))) (blocks a) (blocks b)
      ∙ ap (λ t. run_blocks op t (blocks b))
          (run_blocks-counted op start (u64 (cx.mlen + length (a ++ b))) (blocks a)
            ∙ ap (λ t. record mid { mlen = t }) total)
      ∙ run_blocks-backend op op' (counted mid (length b)) (blocks b) in
    let output : out_blocks op cx (blocks (a ++ b))
        ≡ out_blocks op cx (blocks a) ++ out_blocks op' mid (blocks b) =
      ap (out_blocks op cx) joined
      ∙ out_blocks-append op cx (blocks a) (blocks b)
      ∙ ap (λ t. out_blocks op cx (blocks a) ++ t)
          (sym (out_blocks-counted op (run_blocks op cx (blocks a)) n (blocks b))
            ∙ ap (λ t. out_blocks op t (blocks b)) (sym (run_blocks-counted op cx n (blocks a)))
            ∙ out_blocks-backend op op' mid (blocks b)
                (run_blocks-Live op start (blocks a) (counted-Live cx (length a) live))
                (λ x n. sym (
                  ap (λ y. op' x y) same.same_kcopy
                  ∙ agree x n
                  ∙ ap (op x) (sym same.same_kcopy)))) in
    whole
    ∙ ap₂ (λ t u. (t, u)) context output
    ∙ sym (
        ap₂ (λ t u. ((decrypt loader mode' t m' b).0, u ++ (decrypt loader mode' t m' b).1))
          (ap (λ x. x.0) first) (ap (λ x. x.1) first)
        ∙ ap (λ x. (x.0, out_blocks op cx (blocks a) ++ x.1)) second)
