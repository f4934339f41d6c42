-- ===== src/Client/Deliver.antt =====
-- What the client writes, as the records that the server reads, and the two together.
use mathlib.Core.List.{append_assoc, append-nil}
use native.Mathlib.Decide.{dec_lt}
use myrtus_psm_edge.Common.{
  ℕ, suc, ◌+◌, ◌-◌, ◌≤◌, ◌<◌, ◌≡◌, refl, sym, ◌∙◌, ap, ap₂, subst, arith, List, [], ◌∷◌, ◌++◌, some,
  length, length-append, length-take, length-drop, take, drop, take-append, drop-append,
  take-append-drop, if◌then◌else◌, ltb_of_lt, ltb_of_ge,
}
use myrtus_psm_edge.Gcm.Spec.{encrypt, tag, ctr}
use myrtus_psm_edge.Gcm.Blocks.{blocks-nil}
use myrtus_psm_edge.Gcm.Tag.{length-tag}
use myrtus_psm_edge.Server.Cut.{joined, Cut, ended, last, more}
use myrtus_psm_edge.Client.{
  Evp, State, entire, last_writes, tag_sent, final_sent, send_rest, after_loop, after_init,
  send_file,
}
use myrtus_psm_edge.Client.Send.{
  Encrypts, Front, Back, AllFull, joined-append, take_front, send_loop-Back,
}

-- Writes of nothing are no records.
unfoldable pub delivered : List (List ℕ) → List (List ℕ)
delivered [] = []
delivered ([] ∷ ws) = delivered ws
delivered ((x ∷ w) ∷ ws) = (x ∷ w) ∷ delivered ws

joined-delivered : (ws : List (List ℕ)) → joined (delivered ws) ≡ joined ws
unfolding delivered
joined-delivered [] = refl
joined-delivered ([] ∷ ws) = joined-delivered ws
joined-delivered ((x ∷ w) ∷ ws) = ap (λ t. (x ∷ w) ++ t) (joined-delivered ws)

Cut-one : (w : List ℕ) → length w < 1024 → Cut (delivered (w ∷ []))
unfolding delivered
Cut-one [] h = ended
Cut-one (x ∷ w) h = last (x ∷ w) (omega arith) h

Cut-full : (ws vs : List (List ℕ)) → AllFull ws → Cut (delivered vs) → Cut (delivered (ws ++ vs))
unfolding delivered
Cut-full [] vs h c = c
Cut-full ([] ∷ ws) vs h c = absurd (omega (arith, h.0))
Cut-full ((x ∷ w) ∷ ws) vs h c = more (x ∷ w) (delivered (ws ++ vs)) h.0 (Cut-full ws vs h.1 c)

-- The writes of what waits and the tag, `body`, at the front of the array.
module _ (body tail : List ℕ) (n : ℕ) (size : n ≡ length body) (small : n < 2048) where
  two_writes : 1024 ≤ n → last_writes (body ++ tail) n ≡ take 1024 body ∷ drop 1024 body ∷ []
  two_writes long =
      ap
        (λ b.
          if b
          then take n (body ++ tail) ∷ []
          else take 1024 (body ++ tail) ∷ take (n - 1024) (drop 1024 (body ++ tail)) ∷ [])
        (ltb_of_ge n 1024 long)
      ∙ ap₂ (λ v w. v ∷ w ∷ []) (take-append 1024 body tail (omega (arith, size, long)))
          (ap (take (n - 1024)) (drop-append 1024 body tail (omega (arith, size, long)))
            ∙ take_front (drop 1024 body) tail (n - 1024)
                (omega (arith, length-drop 1024 body, size)))

  one_write : n < 1024 → last_writes (body ++ tail) n ≡ body ∷ []
  one_write less =
      ap
        (λ b.
          if b
          then take n (body ++ tail) ∷ []
          else take 1024 (body ++ tail) ∷ take (n - 1024) (drop 1024 (body ++ tail)) ∷ [])
        (ltb_of_lt n 1024 less)
      ∙ ap (λ w. w ∷ []) (take_front body tail n size)

  joined-last_writes : joined (last_writes (body ++ tail) n) ≡ body
  joined-last_writes = elim (dec_lt n 1024) [
    | yes less ↦ ap joined (one_write less) ∙ append-nil body
    | no long ↦
        ap joined (two_writes (omega (arith, long)))
        ∙ ap (λ t. take 1024 body ++ t) (append-nil (drop 1024 body))
        ∙ take-append-drop 1024 body
  ]

  Cut-last_writes : Cut (delivered (last_writes (body ++ tail) n))
  Cut-last_writes = elim (dec_lt n 1024) [
    | yes less ↦
        subst (λ ws. Cut (delivered ws)) (sym (one_write less))
          (Cut-one body (omega (arith, size, less)))
    | no long ↦
        subst (λ ws. Cut (delivered ws)) (sym (two_writes (omega (arith, long))))
          (Cut-full (take 1024 body ∷ []) (drop 1024 body ∷ [])
            (omega (arith, length-take 1024 body, size, long), tt)
            (Cut-one (drop 1024 body) (omega (arith, length-drop 1024 body, size, small))))
  ]

module _ {C : Type 0} (evp : Evp C) (Has : C → List ℕ → Type 0) (e : List ℕ → List ℕ) (iv : List ℕ)
    (law : Encrypts evp Has e iv) where
  sent_rest :
      (s : State C) (p : List ℕ)
      → Back evp Has e iv law s p
      → (ws : List (List ℕ)) × ((send_rest evp s ≡ entire ws)
          × (Cut (delivered ws) × (joined ws ≡ encrypt e iv p ++ tag e iv (encrypt e iv p))))
  unfolding send_rest
  sent_rest s p h =
      let t = tag e iv (encrypt e iv p) in
      let waiting = take s.outlen s.outmsg in
      let behind = drop (s.outlen + length t) s.outmsg in
      let n = s.outlen + 16 in
      let size : n ≡ length (waiting ++ t) = omega (
        arith,
        length-append waiting t,
        length-take s.outlen s.outmsg,
        h.room,
        h.short,
        length-tag e iv (encrypt e iv p),
      ) in
      let small : n < 2048 = omega (arith, h.short) in
      let writes = last_writes ((waiting ++ t) ++ behind) n in
      (
        s.sent ++ writes,
        (
          ap (final_sent evp s) (law.finals s.ctxx p h.has)
              ∙ ap (tag_sent s s.outmsg s.sent) (law.tags s.ctxx p h.has)
              ∙ ap (λ m. entire (s.sent ++ last_writes m n)) (sym (append_assoc waiting t behind)),
          (
            Cut-full s.sent writes h.full (Cut-last_writes (waiting ++ t) behind n size small),
            joined-append s.sent writes
                ∙ ap (λ w. joined s.sent ++ w)
                    (joined-last_writes (waiting ++ t) behind n size small)
                ∙ sym (append_assoc (joined s.sent) waiting t)
                ∙ ap (λ w. w ++ t) h.wrote,
          ),
        ),
      )

  starts : [] ≡ encrypt e iv []
  unfolding encrypt ctr
  starts = sym (ap (ctr e iv 2) blocks-nil)

  -- When OpenSSL starts and encrypts as documented, the client sends the whole file: what it
  -- writes, the writes of nothing left out, is records of 1024 bytes but for the last, which
  -- may be shorter, and they hold the encryption of the file and then its tag.
  pub send_file_lem :
      (key iv' file outmsg : List ℕ) (c : C)
      → evp.init key iv' ≡ some c
      → Has c []
      → length outmsg ≡ 1040
      → (ws : List (List ℕ)) × ((send_file evp key iv' file outmsg ≡ entire ws)
          × (Cut (delivered ws)
              × (joined (delivered ws) ≡ encrypt e iv file ++ tag e iv (encrypt e iv file))))
  unfolding send_file
  send_file_lem key iv' file outmsg c opens has room =
      let s : State C = record { ctxx = c; outmsg = outmsg; outlen = 0; sent = [] } in
      let front : Front evp Has e iv law s [] = record {
        has = has;
        room = room;
        none_left = refl;
        full = tt;
        wrote = starts;
      } in
      let looped =
        send_loop-Back evp Has e iv law (suc (length file)) 0 [] file s front refl (omega arith) in
      let ended = sent_rest looped.0 file looped.1.1 in
      (
        ended.0,
        (
          ap (after_init evp file outmsg) opens ∙ ap (after_loop evp) looped.1.0 ∙ ended.1.0,
          (ended.1.1.0, joined-delivered ended.0 ∙ ended.1.1.1),
        ),
      )
