-- ===== src/Gcm/Context.antt =====
-- What a run over blocks does to each field of the context.
use mathlib.Core.List.{append_assoc}
use myrtus_psm_edge.Common.{
  ℕ, ◌+◌, ◌^◌, ◌<◌, ◌≡◌, refl, sym, ◌∙◌, ap, ap₂, arith, List, [], ◌∷◌, ◌++◌, take, length,
  length-append, take-append, take_of_le, u64,
}
use myrtus_psm_edge.Gcm.{EdContext, Op, dec_block}
use myrtus_psm_edge.Gcm.Spec.{be32, ctr, xor_from}
use myrtus_psm_edge.Gcm.Blocks.{hash_blocks}
use myrtus_psm_edge.Gcm.Update.{run_blocks, out_blocks, store32_lem}

pub run_blocks-append :
    (op : Op) (cx : EdContext) (cs bs : List (List ℕ))
    → run_blocks op cx (cs ++ bs) ≡ run_blocks op (run_blocks op cx cs) bs
unfolding run_blocks
run_blocks-append op cx [] bs = refl
run_blocks-append op cx (a ∷ cs) bs = run_blocks-append op (dec_block op cx a (length a)) cs bs

pub out_blocks-append :
    (op : Op) (cx : EdContext) (cs bs : List (List ℕ))
    → out_blocks op cx (cs ++ bs) ≡ out_blocks op cx cs ++ out_blocks op (run_blocks op cx cs) bs
unfolding run_blocks out_blocks
out_blocks-append op cx [] bs = refl
out_blocks-append op cx (a ∷ cs) bs =
    ap
      (λ t.
        xor_from 0 a (op (dec_block op cx a (length a)).j (dec_block op cx a (length a)).kcopy)
        ++ t)
      (out_blocks-append op (dec_block op cx a (length a)) cs bs)
    ∙ sym (
        append_assoc
          (xor_from 0 a (op (dec_block op cx a (length a)).j (dec_block op cx a (length a)).kcopy))
          (out_blocks op (dec_block op cx a (length a)) cs)
          (out_blocks op (run_blocks op (dec_block op cx a (length a)) cs) bs))

-- A context in use: its counter block begins with the twelve bytes `iv`.
pub record Live (iv : List ℕ) (cx : EdContext) : Type 0 where
  pub iv_length : length iv ≡ 12
  pub j_length : length cx.j ≡ 16
  pub j_prefix : take 12 cx.j ≡ iv

next_block :
    {iv : List ℕ} (op : Op) (cx : EdContext) (b : List ℕ) (n : ℕ)
    → Live iv cx
    → (dec_block op cx b n).j ≡ iv ++ be32 (u64 (cx.index + 1))
unfolding dec_block
next_block op cx b n v =
    store32_lem cx.j _ v.j_length ∙ ap (λ t. t ++ be32 (u64 (cx.index + 1))) v.j_prefix

pub dec_block-Live :
    {iv : List ℕ} (op : Op) (cx : EdContext) (b : List ℕ) (n : ℕ)
    → Live iv cx
    → Live iv (dec_block op cx b n)
dec_block-Live {iv} op cx b n v =
    let e = next_block op cx b n v in
    record {
      iv_length = v.iv_length;
      j_length =
          omega (arith, ap length e, length-append iv (be32 (u64 (cx.index + 1))), v.iv_length);
      j_prefix =
          ap (take 12) e
          ∙ take-append 12 iv (be32 (u64 (cx.index + 1))) (omega (arith, v.iv_length))
          ∙ take_of_le 12 iv (omega (arith, v.iv_length));
    }

pub run_blocks-Live :
    {iv : List ℕ} (op : Op) (cx : EdContext) (bs : List (List ℕ))
    → Live iv cx
    → Live iv (run_blocks op cx bs)
unfolding run_blocks
run_blocks-Live op cx [] v = v
run_blocks-Live op cx (b ∷ bs) v =
    run_blocks-Live op (dec_block op cx b (length b)) bs (dec_block-Live op cx b (length b) v)

-- The fields that no block changes.
pub record SameKey (cx cx' : EdContext) : Type 0 where
  pub same_kcopy : cx'.kcopy ≡ cx.kcopy
  pub same_h : cx'.h ≡ cx.h
  pub same_t : cx'.t ≡ cx.t
  pub same_finalblock : cx'.finalblock ≡ cx.finalblock
  pub same_handle : cx'.handle ≡ cx.handle
  pub same_mlen : cx'.mlen ≡ cx.mlen

pub run_blocks-SameKey :
    (op : Op) (cx : EdContext) (bs : List (List ℕ)) → SameKey cx (run_blocks op cx bs)
unfolding run_blocks dec_block
run_blocks-SameKey op cx [] = record {
  same_kcopy = refl;
  same_h = refl;
  same_t = refl;
  same_finalblock = refl;
  same_handle = refl;
  same_mlen = refl;
}
run_blocks-SameKey op cx (b ∷ bs) =
    let rest = run_blocks-SameKey op (dec_block op cx b (length b)) bs in
    record {
      same_kcopy = rest.same_kcopy;
      same_h = rest.same_h;
      same_t = rest.same_t;
      same_finalblock = rest.same_finalblock;
      same_handle = rest.same_handle;
      same_mlen = rest.same_mlen;
    }

-- The hash goes on over the blocks.
pub accum-run_blocks :
    (op : Op) (cx : EdContext) (bs : List (List ℕ))
    → (run_blocks op cx bs).accum ≡ hash_blocks cx.h cx.accum bs
unfolding run_blocks hash_blocks dec_block
accum-run_blocks op cx [] = refl
accum-run_blocks op cx (b ∷ bs) = accum-run_blocks op (dec_block op cx b (length b)) bs

pub index-run_blocks :
    (op : Op) (cx : EdContext) (bs : List (List ℕ))
    → cx.index + length bs < 2 ^ 64
    → (run_blocks op cx bs).index ≡ cx.index + length bs
unfolding run_blocks dec_block
index-run_blocks op cx [] h = omega arith
index-run_blocks op cx (b ∷ bs) h =
    index-run_blocks op (dec_block op cx b (length b)) bs (omega arith) ∙ omega arith

-- The output is the input in counter mode, from the next counter on.
pub out_blocks-ctr :
    {iv : List ℕ} (op : Op) (cx : EdContext) (bs : List (List ℕ))
    → Live iv cx
    → cx.index + length bs < 2 ^ 64
    → out_blocks op cx bs ≡ ctr (λ b. op b cx.kcopy) iv (cx.index + 1) bs
unfolding out_blocks ctr dec_block
out_blocks-ctr op cx [] v h = refl
out_blocks-ctr {iv} op cx (b ∷ bs) v h =
    ap₂ ◌++◌
      (ap (λ t. xor_from 0 b (op t cx.kcopy))
        (next_block op cx b (length b) v ∙ ap (λ k. iv ++ be32 k) small))
      (out_blocks-ctr op (dec_block op cx b (length b)) bs (dec_block-Live op cx b (length b) v)
          (omega arith)
        ∙ ap (λ k. ctr (λ b. op b cx.kcopy) iv (k + 1) bs) small)
  where
    small : u64 (cx.index + 1) ≡ cx.index + 1
    small = omega arith
