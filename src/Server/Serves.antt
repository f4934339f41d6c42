-- ===== src/Server/Serves.antt =====
-- `dec_update` for any value of `mode` that fetches the cipher `e`.
use myrtus_psm_edge.Common.{
  ℕ, ◌+◌, ◌*◌, ◌^◌, ◌≤◌, ◌<◌, ◌≡◌, refl, sym, ◌∙◌, ap, ap₂, arith, List, [], ◌∷◌, ◌++◌, some,
  length, length-append, take_of_le, drop_of_le, take, drop, replicate,
}
use myrtus_psm_edge.Gcm.{Loader, EdContext, Op, success, fetch, dec_update, dec_block}
use myrtus_psm_edge.Gcm.Spec.{blocks}
use myrtus_psm_edge.Gcm.Blocks.{
  ctr_bytes, blocks-append, blocks-cons, blocks-nil, hash_blocks-append, hash_blocks,
}
use myrtus_psm_edge.Gcm.Update.{run_blocks}
use myrtus_psm_edge.Gcm.Context.{
  Live, run_blocks-append, run_blocks-Live, run_blocks-SameKey, accum-run_blocks, index-run_blocks,
  out_blocks-ctr,
}
use myrtus_psm_edge.Gcm.Stream.{
  counted, counted-Live, dec_update_lem, run_blocks-backend, out_blocks-backend,
}
use myrtus_psm_edge.Gcm.Tag.{Holds}

-- `mode` fetches a backend that computes `e` on blocks under the key `k`.
pub record Serves (loader : Loader) (handle : ℕ) (k : List ℕ) (e : List ℕ → List ℕ) (mode : ℕ)
    : Type 0 where
  pub op : Op
  pub found : fetch loader handle mode ≡ some op
  pub computes : (x : List ℕ) → length x ≡ 16 → op x k ≡ e x

-- The context once `data` has been read, whichever backend has decrypted it.
pub after : EdContext → List ℕ → EdContext
after cx input = run_blocks (λ b k. b) (counted cx (length input)) (blocks input)

module _ (loader : Loader) (k : List ℕ) (e : List ℕ → List ℕ) (iv : List ℕ) (mode : ℕ) where
  pub dec_update-Serves :
      (cx : EdContext) (m c : List ℕ) (n : ℕ)
      → Serves loader cx.handle k e mode
      → cx.kcopy ≡ k
      → Live iv cx
      → n ≤ length c
      → n ≤ length m
      → cx.index + length (blocks (take n c)) < 2 ^ 64
      → length (take n c) ≡ n
      → dec_update loader mode cx m c n
        ≡ (success, after cx (take n c), ctr_bytes e iv (cx.index + 1) (take n c) ++ drop n m)
  unfolding after
  dec_update-Serves cx m c n v key live p q small size =
      let bs = blocks (take n c) in
      let op' : Op = λ b k. e b in
      dec_update_lem loader mode cx m c n v.op v.found p q
      ∙ ap₂ (λ t u. (success, t, u ++ drop n m))
          (run_blocks-backend v.op (λ b k. b) (counted cx n) bs
            ∙ ap (λ l. run_blocks (λ b k. b) (counted cx l) bs) (sym size))
          (out_blocks-backend v.op op' (counted cx n) bs (counted-Live cx n live)
              (λ b l. ap (v.op b) key ∙ v.computes b l)
            ∙ out_blocks-ctr op' (counted cx n) bs (counted-Live cx n live) small)

pub blocks_one : (b : List ℕ) → 1 ≤ length b → length b ≤ 16 → blocks b ≡ b ∷ []
blocks_one [] p h = absurd (omega arith)
blocks_one (x ∷ b) p h =
    blocks-cons x b
    ∙ ap₂ (λ t u. t ∷ blocks u) (take_of_le 16 (x ∷ b) (omega arith))
        (drop_of_le 16 (x ∷ b) (omega arith))
    ∙ ap (λ t. (x ∷ b) ∷ t) blocks-nil

paccum_last :
    (op : Op) (cx : EdContext) (b : List ℕ) → (run_blocks op cx (b ∷ [])).paccum ≡ cx.accum
unfolding run_blocks dec_block
paccum_last op cx b = refl

-- `paccum` is the hash before the last block.
pub after-paccum :
    (cx : EdContext) (n : ℕ) (a b : List ℕ)
    → length a ≡ 16 * n
    → length b ≡ 16
    → (after cx (a ++ b)).paccum ≡ hash_blocks cx.h cx.accum (blocks a)
unfolding after
after-paccum cx n a b p q =
    let op : Op = λ b k. b in
    let start = counted cx (length (a ++ b)) in
    ap (λ t. (run_blocks op start t).paccum)
      (blocks-append n a b p
        ∙ ap (λ t. blocks a ++ t) (blocks_one b (omega (arith, q)) (omega (arith, q))))
    ∙ ap (λ t. t.paccum) (run_blocks-append op start (blocks a) (b ∷ []))
    ∙ paccum_last op (run_blocks op start (blocks a)) b
    ∙ accum-run_blocks op start (blocks a)

pub after-Live : {iv : List ℕ} (cx : EdContext) (b : List ℕ) → Live iv cx → Live iv (after cx b)
unfolding after
after-Live cx b v =
    run_blocks-Live (λ b k. b) (counted cx (length b)) (blocks b) (counted-Live cx (length b) v)

pub after-handle : (cx : EdContext) (b : List ℕ) → (after cx b).handle ≡ cx.handle
unfolding after
after-handle cx b = (run_blocks-SameKey (λ b k. b) (counted cx (length b)) (blocks b)).same_handle

pub after-index :
    (cx : EdContext) (b : List ℕ)
    → cx.index + length (blocks b) < 2 ^ 64
    → (after cx b).index ≡ cx.index + length (blocks b)
unfolding after
after-index cx b h = index-run_blocks (λ b k. b) (counted cx (length b)) (blocks b) h

-- What a context holds, after whole blocks, grows by what is read.
pub after-Holds :
    (e : List ℕ → List ℕ) (iv k d : List ℕ) (n : ℕ) (cx : EdContext) (b : List ℕ)
    → Holds e iv k d cx
    → length d ≡ 16 * n
    → length d + length b < 2 ^ 64
    → Holds e iv k (d ++ b) (after cx b)
unfolding after
after-Holds e iv k d n cx b v cut small =
    let op : Op = λ b k. b in
    let start = counted cx (length b) in
    let same = run_blocks-SameKey op start (blocks b) in
    let h = e (replicate 16 0) in
    record {
      holds_kcopy = same.same_kcopy ∙ v.holds_kcopy;
      holds_h = same.same_h ∙ v.holds_h;
      holds_t = same.same_t ∙ v.holds_t;
      holds_finalblock = same.same_finalblock ∙ v.holds_finalblock;
      holds_accum =
          accum-run_blocks op start (blocks b)
          ∙ ap₂ (λ x a. hash_blocks x a (blocks b)) v.holds_h v.holds_accum
          ∙ sym (hash_blocks-append h (replicate 16 0) (blocks d) (blocks b))
          ∙ ap (hash_blocks h (replicate 16 0)) (sym (blocks-append n d b cut));
      holds_mlen = same.same_mlen ∙ omega (arith, v.holds_mlen, length-append d b);
    }
