-- ===== src/Gcm/Stream.antt =====
-- `dec_update` against counter mode and the hash, and what a split of its input or a change of the
-- backend between two calls makes of it.

use myrtus_psm_edge.Common.{
  ℕ, ◌+◌, ◌^◌, ◌≤◌, ◌<◌, ◌≡◌, refl, ◌∙◌, ap, ap₂, arith, List, [], ◌∷◌, ◌++◌, none, some, length,
  take, drop, take_of_le, u64,
}
use myrtus_psm_edge.Gcm.{Loader, EdContext, Op, success, failure, fetch, dec_update, dec_block}
use myrtus_psm_edge.Gcm.Spec.{blocks, xor_from}
use myrtus_psm_edge.Gcm.Blocks.{ctr_bytes, hash_blocks}
use myrtus_psm_edge.Gcm.Update.{run_blocks, out_blocks, dec_loop_lem}
use myrtus_psm_edge.Gcm.Context.{
  Live, dec_block-Live, run_blocks-SameKey, accum-run_blocks, index-run_blocks, out_blocks-ctr,
}

-- The context with `clen` more bytes counted.
abbrev pub counted : EdContext → ℕ → EdContext
counted cx clen = record cx { mlen = u64 (cx.mlen + clen) }

pub counted-Live : {iv : List ℕ} (cx : EdContext) (n : ℕ) → Live iv cx → Live iv (counted cx n)
counted-Live cx n v = record {
  iv_length = v.iv_length;
  j_length = v.j_length;
  j_prefix = v.j_prefix;
}

-- With a backend, a call runs through the blocks of its input.
pub dec_update_lem :
    (loader : Loader) (mode : ℕ) (cx : EdContext) (m c : List ℕ) (clen : ℕ) (op : Op)
    → fetch loader cx.handle mode ≡ some op
    → clen ≤ length c
    → clen ≤ length m
    → dec_update loader mode cx m c clen ≡ (
      success,
      run_blocks op (counted cx clen) (blocks (take clen c)),
      out_blocks op (counted cx clen) (blocks (take clen c)) ++ drop clen m,
    )
unfolding dec_update
dec_update_lem loader mode cx m c clen op found p q =
    rw (found, dec_update)
      (ap (λ r. (success, r.0, r.1))
        (dec_loop_lem clen op (counted cx clen) 0 [] m c clen (omega arith) refl p q))

-- Without one, nothing is read and nothing changes.
pub dec_update-missing :
    (loader : Loader) (mode : ℕ) (cx : EdContext) (m c : List ℕ) (clen : ℕ)
    → fetch loader cx.handle mode ≡ none
    → dec_update loader mode cx m c clen ≡ (failure, cx, m)
unfolding dec_update
dec_update-missing loader mode cx m c clen e = rw (e, dec_update) refl

-- The backend does not enter the context.
pub run_blocks-backend :
    (op op' : Op) (cx : EdContext) (bs : List (List ℕ)) → run_blocks op cx bs ≡ run_blocks op' cx bs
unfolding run_blocks dec_block
run_blocks-backend op op' cx [] = refl
run_blocks-backend op op' cx (b ∷ bs) = run_blocks-backend op op' (dec_block op cx b (length b)) bs

-- Backends that agree on blocks under the key give the same output.
pub out_blocks-backend :
    {iv : List ℕ} (op op' : Op) (cx : EdContext) (bs : List (List ℕ))
    → Live iv cx
    → ((b : List ℕ) → length b ≡ 16 → op b cx.kcopy ≡ op' b cx.kcopy)
    → out_blocks op cx bs ≡ out_blocks op' cx bs
unfolding out_blocks dec_block
out_blocks-backend op op' cx [] v agree = refl
out_blocks-backend op op' cx (b ∷ bs) v agree =
    let next = dec_block op cx b (length b) in
    let w = dec_block-Live op cx b (length b) v in
    ap₂ (λ s r. xor_from 0 b s ++ r) (agree next.j w.j_length)
      (out_blocks-backend op op' next bs w agree)

module _ (iv : List ℕ) (loader : Loader) (mode : ℕ) (cx : EdContext) (m c : List ℕ) (op : Op) where
  -- A call of `dec_update` that finds its backend, in a context in use, with room for the
  -- output and counts below 2^64, succeeds, writes its input in counter mode from the next
  -- counter on, runs the hash over the blocks of the input, and counts its blocks and bytes.
  pub dec_update-ctr :
      fetch loader cx.handle mode ≡ some op
      → Live iv cx
      → length c ≤ length m
      → cx.index + length (blocks c) < 2 ^ 64
      → cx.mlen + length c < 2 ^ 64
      → let r = dec_update loader mode cx m c (length c) in
        (r.0 ≡ success)
        × (r.2 ≡ ctr_bytes (λ b. op b cx.kcopy) iv (cx.index + 1) c ++ drop (length c) m)
        × (r.1.accum ≡ hash_blocks cx.h cx.accum (blocks c))
        × (r.1.index ≡ cx.index + length (blocks c))
        × (r.1.mlen ≡ cx.mlen + length c)
  dec_update-ctr found v room small count =
      let start = counted cx (length c) in
      let whole = take_of_le (length c) c (omega arith) in
      let call = dec_update_lem loader mode cx m c (length c) op found (omega arith) room in
      (
        ap (λ r. r.0) call,
        ap (λ r. r.2) call
            ∙ rw whole (
                ap (λ t. t ++ drop (length c) m)
                  (out_blocks-ctr op start (blocks c) (counted-Live cx (length c) v) small)),
        ap (λ r. r.1.accum) call ∙ rw whole (accum-run_blocks op start (blocks c)),
        ap (λ r. r.1.index) call ∙ rw whole (index-run_blocks op start (blocks c) small),
        ap (λ r. r.1.mlen) call
            ∙ rw whole ((run_blocks-SameKey op start (blocks c)).same_mlen ∙ omega (arith, count)),
      )
