-- ===== src/Client/Send.antt =====
-- The loop of the client over its file: after each chunk, what is written and what waits in `outmsg` is the
-- encryption of what has been read.
use mathlib.Core.List.{append_assoc, append-nil}
use native.Mathlib.Decide.{dec_le}
use myrtus_psm_edge.Common.{
  ℕ, zero, suc, ◌+◌, ◌*◌, ◌≤◌, ◌<◌, ◌≡◌, refl, sym, ◌∙◌, ap, ap₂, arith, List, [], ◌∷◌, ◌++◌, some,
  length, length-append, length-take, length-drop, take, drop, take_of_le, drop_of_le, take-append,
  drop-append, take-append-drop, if◌then◌else◌, ==_of_eq, ==_of_ne, subst,
}
use myrtus_psm_edge.Gcm.Spec.{encrypt, tag}
use myrtus_psm_edge.Gcm.Blocks.{ctr_bytes, ctr_bytes-append, length-ctr_bytes}
use myrtus_psm_edge.Server.Cut.{joined}
use myrtus_psm_edge.Client.{
  Evp, State, working, chunk_sent, store, chunk_done, send_chunk, send_loop,
}

-- OpenSSL, as documented: a context has encrypted a message `p`; an update puts out the next bytes of the
-- encryption, the final call puts out nothing more, and then the tag can be read.
pub record Encrypts {C : Type 0} (evp : Evp C) (Has : C → List ℕ → Type 0) (e : List ℕ → List ℕ)
    (iv : List ℕ) : Type 0 where
  pub next : C → List ℕ → C
  pub finished : C → C
  pub updates :
      (c : C) (p m : List ℕ)
      → Has c p
      → evp.update c m ≡ some (drop (length p) (encrypt e iv (p ++ m)), next c m)
  pub continues : (c : C) (p m : List ℕ) → Has c p → Has (next c m) (p ++ m)
  pub finals : (c : C) (p : List ℕ) → Has c p → evp.final c ≡ some ([], finished c)
  pub tags :
      (c : C) (p : List ℕ) → Has c p → evp.get_tag (finished c) ≡ some (tag e iv (encrypt e iv p))

pub joined-append : (ws vs : List (List ℕ)) → joined (ws ++ vs) ≡ joined ws ++ joined vs
joined-append [] vs = refl
joined-append (w ∷ ws) vs =
    ap (λ t. w ++ t) (joined-append ws vs) ∙ sym (append_assoc w (joined ws) (joined vs))

abbrev pub AllFull : List (List ℕ) → Type 0
AllFull [] = Unit
AllFull (w ∷ ws) = (length w ≡ 1024) × AllFull ws

AllFull-append :
    (ws : List (List ℕ)) (w : List ℕ) → AllFull ws → length w ≡ 1024 → AllFull (ws ++ w ∷ [])
AllFull-append [] w h e = (e, tt)
AllFull-append (v ∷ ws) w h e = (h.0, AllFull-append ws w h.1 e)

pub take_front : (xs ys : List ℕ) (n : ℕ) → n ≡ length xs → take n (xs ++ ys) ≡ xs
take_front xs ys n e = take-append n xs ys (omega (arith, e)) ∙ take_of_le n xs (omega (arith, e))

module _ {C : Type 0} (evp : Evp C) (Has : C → List ℕ → Type 0) (e : List ℕ → List ℕ) (iv : List ℕ)
    (law : Encrypts evp Has e iv) where
  -- `p` is read, and all of it written.
  pub record Front (s : State C) (p : List ℕ) : Type 0 where
    pub has : Has s.ctxx p
    pub room : length s.outmsg ≡ 1040
    pub none_left : s.outlen ≡ 0
    pub full : AllFull s.sent
    pub wrote : joined s.sent ≡ encrypt e iv p

  -- `p` is read, and the last `outlen` bytes wait.
  pub record Back (s : State C) (p : List ℕ) : Type 0 where
    pub has : Has s.ctxx p
    pub room : length s.outmsg ≡ 1040
    pub short : s.outlen < 1024
    pub full : AllFull s.sent
    pub wrote : joined s.sent ++ take s.outlen s.outmsg ≡ encrypt e iv p

  Front-Back : (s : State C) (p : List ℕ) → Front s p → Back s p
  Front-Back s p h = record {
    has = h.has;
    room = h.room;
    short = omega (arith, h.none_left);
    full = h.full;
    wrote =
        ap (λ n. joined s.sent ++ take n s.outmsg) h.none_left
        ∙ append-nil (joined s.sent)
        ∙ h.wrote;
  }

  length-encrypt : (p : List ℕ) → length (encrypt e iv p) ≡ length p
  unfolding encrypt
  length-encrypt p = length-ctr_bytes e iv 2 p

  -- Behind whole blocks the encryption goes on.
  pub encrypt-append :
      (n : ℕ) (p m : List ℕ)
      → length p ≡ 16 * n
      → encrypt e iv p ++ drop (length p) (encrypt e iv (p ++ m)) ≡ encrypt e iv (p ++ m)
  unfolding encrypt
  encrypt-append n p m h =
      let c = ctr_bytes e iv 2 p in
      let cut = ctr_bytes-append e iv n 2 p m h in
      let size = length-ctr_bytes e iv 2 p in
      ap (λ t. c ++ drop (length p) t) cut
      ∙ ap (λ t. c ++ t)
          (drop-append (length p) c (ctr_bytes e iv (2 + n) m) (omega (arith, size))
            ∙ ap (λ t. t ++ ctr_bytes e iv (2 + n) m)
                (drop_of_le (length p) c (omega (arith, size))))
      ∙ sym cut

  pub length-out : (p m : List ℕ) → length (drop (length p) (encrypt e iv (p ++ m))) ≡ length m
  length-out p m = omega (
    arith,
    length-drop (length p) (encrypt e iv (p ++ m)),
    length-encrypt (p ++ m),
    length-append p m,
  )

  module _ (s : State C) (p m : List ℕ) (n : ℕ) (h : Front s p) (cut : length p ≡ 16 * n) where
    out : List ℕ
    out = drop (length p) (encrypt e iv (p ++ m))

    done : State C
    done = chunk_done s (out, law.next s.ctxx m)

    send_chunk-done : send_chunk evp m s ≡ working done
    unfolding send_chunk done out
    send_chunk-done = ap (chunk_sent s) (law.updates s.ctxx p m h.has)

    room-done : length m ≤ 1024 → length (store s.outmsg 0 out) ≡ 1040
    unfolding out
    room-done small = omega (
      arith,
      length-append out (drop (0 + length out) s.outmsg),
      length-drop (0 + length out) s.outmsg,
      length-out p m,
      h.room,
    )

    Front-done : length m ≡ 1024 → Front done (p ++ m)
    unfolding done out
    Front-done size =
        let test = ==_of_eq (length out) 1024 (length-out p m ∙ size) in
        let w = take (length out) (store s.outmsg 0 out) in
        let w_out : w ≡ out = take_front out (drop (0 + length out) s.outmsg) (length out) refl in
        record {
          has = law.continues s.ctxx p m h.has;
          room = room-done (omega (arith, size));
          none_left = ap (λ b. if b then 0 else length out) test;
          full =
              subst (λ b. AllFull (if b then s.sent ++ w ∷ [] else s.sent)) (sym test)
                (AllFull-append s.sent w h.full (ap length w_out ∙ length-out p m ∙ size));
          wrote =
              ap (λ b. joined (if b then s.sent ++ w ∷ [] else s.sent)) test
              ∙ joined-append s.sent (w ∷ [])
              ∙ ap₂ ◌++◌ h.wrote (append-nil w ∙ w_out)
              ∙ encrypt-append n p m cut;
        }

    Back-done : length m < 1024 → Back done (p ++ m)
    unfolding done out
    Back-done size =
        let test = ==_of_ne (length out) 1024 (λ z. omega (arith, z, length-out p m, size)) in
        let w = take (length out) (store s.outmsg 0 out) in
        let w_out : w ≡ out = take_front out (drop (0 + length out) s.outmsg) (length out) refl in
        record {
          has = law.continues s.ctxx p m h.has;
          room = room-done (omega (arith, size));
          short =
              subst (λ b. (if b then 0 else length out) < 1024) (sym test)
                (omega (arith, size, length-out p m));
          full = subst (λ b. AllFull (if b then s.sent ++ w ∷ [] else s.sent)) (sym test) h.full;
          wrote =
              ap
                (λ b.
                  joined (if b then s.sent ++ w ∷ [] else s.sent)
                  ++ take (if b then 0 else length out) (store s.outmsg 0 out))
                test
              ∙ ap₂ ◌++◌ h.wrote w_out
              ∙ encrypt-append n p m cut;
        }

  empty : (r : List ℕ) → length r ≡ 0 → r ≡ []
  empty [] h = refl
  empty (x ∷ r) h = absurd (omega arith)

  loop_end : (fuel : ℕ) (s : State C) → send_loop evp fuel [] s ≡ working s
  unfolding send_loop
  loop_end zero s = refl
  loop_end (suc fuel) s = refl

  loop_step :
      (fuel : ℕ) (r : List ℕ) (s s' : State C)
      → 1 ≤ length r
      → send_chunk evp (take 1024 r) s ≡ working s'
      → send_loop evp (suc fuel) r s ≡ send_loop evp fuel (drop 1024 r) s'
  unfolding send_loop
  loop_step fuel r s s' h chunk =
      rw (==_of_ne (length (take 1024 r)) 0 (λ z. omega (arith, z, length-take 1024 r, h)), chunk)
        refl

  -- The whole file is read, with the fuel it is given.
  pub send_loop-Back :
      (fuel n : ℕ) (p r : List ℕ) (s : State C)
      → Front s p
      → length p ≡ 16 * n
      → length r < fuel
      → (s' : State C) × ((send_loop evp fuel r s ≡ working s') × Back s' (p ++ r))
  send_loop-Back zero n p r s h cut small = absurd (omega arith)
  send_loop-Back (suc fuel) n p r s h cut small = elim (dec_le 1024 (length r)) [
    | yes long ↦
        (let m = take 1024 r in
          let size : length m ≡ 1024 = omega (arith, length-take 1024 r, long) in
          let s1 = done s p m n h cut in
          let rest =
            send_loop-Back fuel (n + 64) (p ++ m) (drop 1024 r) s1 (Front-done s p m n h cut size)
              (omega (arith, length-append p m, cut, size))
              (omega (arith, length-drop 1024 r, small, long)) in
          (
            rest.0,
            (
              loop_step fuel r s s1 (omega (arith, long)) (send_chunk-done s p m n h cut)
                  ∙ rest.1.0,
              subst (Back rest.0)
                  (append_assoc p m (drop 1024 r) ∙ ap (λ t. p ++ t) (take-append-drop 1024 r))
                  rest.1.1,
            ),
          ))
    | no less ↦ elim (dec_le 1 (length r)) [
      | yes some_left ↦
          (let whole : take 1024 r ≡ r = take_of_le 1024 r (omega (arith, less)) in
            let s1 = done s p r n h cut in
            (
              s1,
              (
                loop_step fuel r s s1 some_left
                      (ap (λ m. send_chunk evp m s) whole ∙ send_chunk-done s p r n h cut)
                    ∙ ap (λ t. send_loop evp fuel t s1) (drop_of_le 1024 r (omega (arith, less)))
                    ∙ loop_end fuel s1,
                Back-done s p r n h cut (omega (arith, less)),
              ),
            ))
      | no ended ↦
          (let nothing : r ≡ [] = empty r (omega (arith, ended)) in
            (
              s,
              (
                ap (λ t. send_loop evp (suc fuel) t s) nothing ∙ loop_end (suc fuel) s,
                subst (Back s) (sym (append-nil p) ∙ ap (λ t. p ++ t) (sym nothing))
                    (Front-Back s p h),
              ),
            ))
    ]
  ]
