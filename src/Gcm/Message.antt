-- ===== src/Gcm/Message.antt =====
-- One message through encrypt02.c: `ed_init`, a call of `dec_update`, and `dec_final`.
use myrtus_psm_edge.Common.{
  ℕ, ◌+◌, ◌^◌, ◌≤◌, ◌<◌, ◌≡◌, ◌≢◌, refl, sym, ◌∙◌, ap, ap₂, arith, subst, List, [], ◌++◌, length,
  length-take, take, drop, take_of_le, IsBytes, ◌↔◌,
}
use myrtus_psm_edge.Gcm.{Loader, EdContext, success, ed_init, dec_update, dec_final}
use myrtus_psm_edge.Gcm.Spec.{be32, tag}
use myrtus_psm_edge.Gcm.Verify.{crypto_verify_16-success_iff}
use myrtus_psm_edge.Gcm.Hash.{IsBytes-tag}
use myrtus_psm_edge.Gcm.Blocks.{ctr_bytes}
use myrtus_psm_edge.Gcm.Tag.{length-tag, Holds, Sized, ed_init-Holds}
use myrtus_psm_edge.Server.Serves.{Serves, after, dec_update-Serves, after-Holds}
use myrtus_psm_edge.Server.Ends.{dec_final-Holds}
use myrtus_psm_edge.Server.Last.{blocks_le}
use myrtus_psm_edge.Server.Connection.{Holds-Serves}

module _ (loader : Loader) (mode mode' : ℕ) (cx : EdContext) (npub key : List ℕ)
    (e : List ℕ → List ℕ) where
  -- When the loader opens the library, the values of `mode` at the two calls fetch backends
  -- that compute `e` under the key, the memory of the context has the declared sizes, the
  -- initial vector has 12 bytes at least and the key 32, there is room for the output, the
  -- ciphertext `c` has fewer than 2^60 bytes, and the sixteen bytes `t` and the mask of the tag
  -- are bytes: ed_init and one call of dec_update succeed and write `c` in counter mode, with
  -- what is behind it in the output unchanged, and dec_final then accepts `t` exactly when it is
  -- the AES-GCM tag of `c`.
  pub dec_final-dec_update :
      (m c t : List ℕ)
      → loader.dlopen ≢ 0
      → Serves loader loader.dlopen (take 32 key) e mode
      → Serves loader loader.dlopen (take 32 key) e mode'
      → Sized cx
      → 12 ≤ length npub
      → 32 ≤ length key
      → length c ≤ length m
      → length c < 2 ^ 60
      → length t ≡ 16
      → IsBytes t
      → IsBytes (e (take 12 npub ++ be32 1))
      → let i = ed_init loader mode cx npub key in
        let r = dec_update loader mode' i.1 m c (length c) in
        (i.0 ≡ success)
        × (r.0 ≡ success)
        × (r.2 ≡ ctr_bytes e (take 12 npub) 2 c ++ drop (length c) m)
        × ((dec_final r.1 t ≡ success) ↔ (t ≡ tag e (take 12 npub) c))
  dec_final-dec_update m c t opened first second sized iv_size key_size room small t_size t_bytes
        mask_bytes =
      let iv = take 12 npub in
      let k = take 32 key in
      let init =
        ed_init-Holds loader mode cx npub key first.op opened first.found sized iv_size key_size in
      let start = (ed_init loader mode cx npub key).1 in
      let holds : Holds e iv k [] start =
        Holds-Serves loader loader.dlopen k e iv mode start first
          (omega (arith, length-take 12 npub)) init.1 in
      let whole : take (length c) c ≡ c = take_of_le (length c) c (omega arith) in
      let call =
        dec_update-Serves loader k e iv mode' start m c (length c)
          (subst (λ h. Serves loader h k e mode') (sym init.3) second) holds.holds_kcopy init.2
          (omega arith) room
          (omega (arith, init.4, blocks_le (take (length c) c), ap length whole, small))
          (ap length whole)
        ∙ ap₂ (λ b i. (success, after start b, ctr_bytes e iv (i + 1) b ++ drop (length c) m)) whole
            init.4 in
      let verdict =
        ap (λ r. dec_final r.1 t) call
        ∙ dec_final-Holds e iv k c (after start c) t t
            (after-Holds e iv k [] 0 start c holds refl (omega arith)) (omega arith)
            (take_of_le 16 t (omega (arith, t_size))) in
      let equal =
        crypto_verify_16-success_iff t (tag e iv c) t_size (length-tag e iv c) t_bytes
          (IsBytes-tag e iv c mask_bytes) in
      (
        init.0,
        ap (λ r. r.0) call,
        ap (λ r. r.2) call,
        (λ h. equal.0 (sym verdict ∙ h), λ h. verdict ∙ equal.1 h),
      )
