-- ===== src/Server/Finish.antt =====
-- What the server reports at each end of the stream.
use mathlib.Core.List.{append-nil}
use myrtus_psm_edge.Common.{
  ℕ, ◌+◌, ◌-◌, ◌*◌, ◌%◌, ◌^◌, ◌≤◌, ◌<◌, ◌≡◌, sym, ◌∙◌, ap, ap₂, arith, List, ◌++◌, length,
  length-append, length-take, length-drop, take, drop, take-length_add, take-take, subst, replicate,
}
use myrtus_psm_edge.Gcm.{crypto_verify_16}
use myrtus_psm_edge.Gcm.Spec.{blocks, tag}
use myrtus_psm_edge.Gcm.Blocks.{ctr_bytes, length-ctr_bytes, hash_blocks}
use myrtus_psm_edge.Gcm.Tag.{Holds}
use myrtus_psm_edge.Server.{Session, Served, saved, going, held, finish, served}
use myrtus_psm_edge.Server.Ends.{dec_final-Holds, ctr-take}
use myrtus_psm_edge.Server.Records.{Reading, Tail}

module _ (e : List ℕ → List ℕ) (iv k : List ℕ) (handle : ℕ) where
  -- The answer for the ciphertext `c` and the tag `given`.
  abbrev pub Answer : List ℕ → List ℕ → Served
  Answer c given = saved (ctr_bytes e iv 2 c) (crypto_verify_16 given (tag e iv c))

  held_size : (s : Session) → length s.outmsg ≡ 1024 → length (held s 16) ≡ 16
  held_size s h = omega (arith, length-take 16 (drop 1008 s.outmsg), length-drop 1008 s.outmsg, h)

  file_size :
      (s : Session) (d rear : List ℕ) (n : ℕ)
      → Reading e iv k handle (d ++ rear) n s
      → Tail e d rear s
      → length s.file ≡ length d
  file_size s d rear n v t = omega (
    arith,
    length-append s.file (held s 16),
    held_size s v.out_size,
    ap length (t.on_file ∙ v.written),
    length-ctr_bytes e iv 2 (d ++ rear),
    length-append d rear,
    t.block,
  )

  -- The blocks before the last one.
  pub front_cut :
      (s : Session) (d rear : List ℕ) (n : ℕ)
      → Reading e iv k handle (d ++ rear) n s
      → length rear ≡ 16
      → length d ≡ 16 * (n - 1)
  front_cut s d rear n v size = omega (arith, v.cut, length-append d rear, size)

  -- The file, with `r` of the bytes that wait.
  pub file_with :
      (s : Session) (d rear : List ℕ) (n r : ℕ)
      → Reading e iv k handle (d ++ rear) n s
      → Tail e d rear s
      → r ≤ 16
      → s.file ++ held s r ≡ ctr_bytes e iv 2 (d ++ take r rear)
  file_with s d rear n r v t le =
      ap (λ x. s.file ++ x) (sym (take-take r 16 (drop 1008 s.outmsg) le))
      ∙ sym (take-length_add s.file (held s 16) r)
      ∙ ap₂ (λ l x. take (l + r) x) (file_size s d rear n v t) (t.on_file ∙ v.written)
      ∙ ctr-take e iv d rear (n - 1) r (front_cut s d rear n v t.block) t.block

  -- The context without the bytes of the last block from `r` on.
  pub shortened :
      (s : Session) (d rear : List ℕ) (n r : ℕ) (hash p : List ℕ)
      → Reading e iv k handle (d ++ rear) n s
      → length rear ≡ 16
      → length d < 2 ^ 60
      → r ≤ 16
      → hash ≡ hash_blocks (e (replicate 16 0)) (replicate 16 0) (blocks (d ++ take r rear))
      → Holds e iv k (d ++ take r rear) (record s.cx {
        mlen = (s.cx.mlen + 2 ^ 64 - (16 - r)) % 2 ^ 64;
        paccum = p;
        accum = hash;
      })
  shortened s d rear n r hash p v size small le hashed = record {
    holds_kcopy = v.holds.holds_kcopy;
    holds_h = v.holds.holds_h;
    holds_t = v.holds.holds_t;
    holds_finalblock = v.holds.holds_finalblock;
    holds_accum = hashed;
    holds_mlen = omega (
      arith,
      v.holds.holds_mlen,
      length-append d rear,
      length-append d (take r rear),
      length-take r rear,
      size,
    );
  }

  -- The stream ends after a full record: its last block is the tag.
  pub ends-full :
      (s : Session) (d rear : List ℕ) (n : ℕ)
      → Reading e iv k handle (d ++ rear) n s
      → Tail e d rear s
      → length d < 2 ^ 60
      → served (going s) ≡ Answer d rear
  unfolding finish
  ends-full s d rear n v t small =
      let whole = append-nil d in
      rw (v.no_part, v.at_front)
        (ap₂ saved
          (sym (append-nil s.file)
            ∙ file_with s d rear n 0 v t (omega arith)
            ∙ ap (ctr_bytes e iv 2) whole)
          (dec_final-Holds e iv k d _ s.tag rear
            (subst
              (λ c.
                Holds e iv k c
                  (record s.cx { mlen = (s.cx.mlen + 2 ^ 64 - 16) % 2 ^ 64; accum = s.cx.paccum }))
              whole
              (shortened s d rear n 0 s.cx.paccum s.cx.paccum v t.block small (omega arith) (
                t.hashed
                ∙ ap (λ c. hash_blocks (e (replicate 16 0)) (replicate 16 0) (blocks c))
                    (sym whole))))
            (omega arith) t.in_tag))
