-- ===== src/Server/Native/Verdict.antt =====
-- The reading loop in which OpenSSL decrypts, from any point of a connection to its end.
use mathlib.Core.List.{append_assoc, append-nil}
use native.Mathlib.Decide.{dec_lt}
use myrtus_psm_edge.Common.{
  ℕ, ◌+◌, ◌-◌, ◌*◌, ◌/◌, ◌^◌, ◌≤◌, ◌<◌, ◌≡◌, ◌⊎◌, inl, inr, refl, sym, ◌∙◌, ap, subst, arith, List,
  [], ◌∷◌, ◌++◌, true, false, length, length-append, length-take, length-drop, take, drop,
  take-append-drop, ◌==◌,
}
use myrtus_psm_edge.Server.Receive.{append_cut}
use myrtus_psm_edge.Server.Cut.{joined, Cut, ended, last, more}
use myrtus_psm_edge.Server.Native.{Evp, Native, going, tag_record, on_record, next_step, read_loop}
use myrtus_psm_edge.Server.Native.Pieces.{
  Decrypts, Ran, after_data, data_record-going, after_data-ct, Between-data,
}
use myrtus_psm_edge.Server.Native.Ends.{
  End, BetweenOf, filled, Between-filled, on_record-data, on_record-tag, End-tag,
}

module _ {C : Type 0} (evp : Evp C) (Has : C → List ℕ → Type 0) (e : List ℕ → List ℕ) (iv : List ℕ)
    (law : Decrypts evp Has e iv) where
  -- Nothing more comes.
  End-between :
      (s : Native C) (d held c given : List ℕ)
      → BetweenOf evp Has e iv law s d held
      → d ++ held ≡ c ++ given
      → length given ≡ 16
      → End evp Has e iv law s c given
  End-between s d held c given h same size = go h.kept
    where
      go :
          (((s.ct == 0) ≡ true) × ((d ≡ []) × (held ≡ [])))
            ⊎ (((s.ct == 0) ≡ false) × ((take 16 s.tag ≡ held) × (length held ≡ 16)))
          → End evp Has e iv law s c given
      go (inl p) = absurd (
          omega (
            arith,
            ap length same,
            length-append d held,
            length-append c given,
            ap length p.1.0,
            ap length p.1.1,
            size,
          ))
      go (inr p) =
          let parts = append_cut d held c given same (p.1.1 ∙ sym size) in
          record {
            ran = subst (Ran evp Has e iv law s) parts.0 h.ran;
            answer = ap (λ k. take 16 (drop k s.tag)) h.at_front ∙ p.1.0 ∙ parts.1;
          }

  whole_blocks :
      (s : Native C) (d held : List ℕ) (n : ℕ)
      → BetweenOf evp Has e iv law s d held
      → length (d ++ held) ≡ 1024 * n
      → length d ≡ 16 * (length d / 16)
  whole_blocks s d held n h cut = go h.kept
    where
      go :
          (((s.ct == 0) ≡ true) × ((d ≡ []) × (held ≡ [])))
            ⊎ (((s.ct == 0) ≡ false) × ((take 16 s.tag ≡ held) × (length held ≡ 16)))
          → length d ≡ 16 * (length d / 16)
      go (inl p) = omega (arith, ap length p.1.0)
      go (inr p) = omega (arith, length-append d held, cut, p.1.1)

  -- A record with data, in the loop.
  module _ (w : List ℕ) (s : Native C) (d held : List ℕ) (n : ℕ)
      (h : BetweenOf evp Has e iv law s d held) (cut : length (d ++ held) ≡ 1024 * n)
      (large : 16 < length w) (fits : length w ≤ 1024) where
    reached : Native C
    reached =
        after_data evp Has e iv law (filled evp Has e iv law w s) d held w
          (drop (length w) s.buffer) (length d / 16)
          (Between-filled evp Has e iv law w s d held fits h) (whole_blocks s d held n h cut) refl
          large fits

    reached-ct : reached.ct ≡ s.ct + 1
    unfolding reached
    reached-ct =
        after_data-ct evp Has e iv law (filled evp Has e iv law w s) d held w
          (drop (length w) s.buffer) (length d / 16)
          (Between-filled evp Has e iv law w s d held fits h) (whole_blocks s d held n h cut) refl
          large fits

    on_record-reached : s.ct + 1 < 2 ^ 31 → on_record evp w s ≡ going reached
    unfolding reached
    on_record-reached small =
        on_record-data evp Has e iv law w s large
        ∙ data_record-going evp Has e iv law (filled evp Has e iv law w s) d held w
            (drop (length w) s.buffer) (length d / 16)
            (Between-filled evp Has e iv law w s d held fits h) (whole_blocks s d held n h cut) refl
            large fits small

    Between-reached :
        BetweenOf evp Has e iv law reached
          (d ++ (held ++ take (length w - 16) w))
          (drop (length w - 16) w)
    unfolding reached
    Between-reached =
        Between-data evp Has e iv law (filled evp Has e iv law w s) d held w
          (drop (length w) s.buffer) (length d / 16)
          (Between-filled evp Has e iv law w s d held fits h) (whole_blocks s d held n h cut) refl
          large fits

  regroup :
      (d held w j : List ℕ) (k : ℕ)
      → d ++ (held ++ take k w) ++ (drop k w ++ j) ≡ d ++ (held ++ (w ++ j))
  regroup d held w j k =
      append_assoc d (held ++ take k w) (drop k w ++ j)
      ∙ ap (λ t. d ++ t)
          (append_assoc held (take k w) (drop k w ++ j)
            ∙ ap (λ t. held ++ t)
                (sym (append_assoc (take k w) (drop k w) j)
                  ∙ ap (λ t. t ++ j) (take-append-drop k w)))

  read_loop-going :
      (w : List ℕ) (ws : List (List ℕ)) (s s' : Native C)
      → on_record evp w s ≡ going s'
      → read_loop evp (w ∷ ws) s ≡ read_loop evp ws s'
  unfolding read_loop
  read_loop-going w ws s s' h = ap (next_step (read_loop evp ws)) h

  read_loop-ended : (s : Native C) → read_loop evp [] s ≡ going s
  unfolding read_loop
  read_loop-ended s = refl

  pub loop_End :
      (rs : List (List ℕ)) (s : Native C) (d held c given : List ℕ) (n : ℕ)
      → Cut rs
      → BetweenOf evp Has e iv law s d held
      → length (d ++ held) ≡ 1024 * n
      → d ++ (held ++ joined rs) ≡ c ++ given
      → length given ≡ 16
      → s.ct + length rs < 2 ^ 31
      → (s' : Native C) × ((read_loop evp rs s ≡ going s') × End evp Has e iv law s' c given)
  loop_End _ s d held c given n ended h cut same size small = (
    s,
    (
      read_loop-ended s,
      End-between s d held c given h (ap (λ t. d ++ t) (sym (append-nil held)) ∙ same) size,
    ),
  )
  loop_End _ s d held c given n (last w a b) h cut same size count = elim (dec_lt 16 (length w)) [
    | yes large ↦
        (let s1 = reached w s d held n h cut large (omega (arith, b)) in
          (
            s1,
            (
              read_loop-going w [] s s1 (
                    on_record-reached w s d held n h cut large (omega (arith, b))
                      (omega (arith, count)))
                  ∙ read_loop-ended s1,
              End-between s1 (d ++ (held ++ take (length w - 16) w)) (drop (length w - 16) w) c
                  given (Between-reached w s d held n h cut large (omega (arith, b)))
                  (ap (λ t. d ++ (held ++ take (length w - 16) w) ++ t)
                      (sym (append-nil (drop (length w - 16) w)))
                    ∙ regroup d held w [] (length w - 16)
                    ∙ same)
                  size,
            ),
          ))
    | no small ↦
        (let s1 = tag_record evp (length w) (filled evp Has e iv law w s) in
          (
            s1,
            (
              read_loop-going w [] s s1
                    (on_record-tag evp Has e iv law w s a (omega (arith, small)))
                  ∙ read_loop-ended s1,
              End-tag evp Has e iv law w s d held c given (length d / 16) (omega (arith, small)) h
                  (whole_blocks s d held n h cut)
                  (ap (λ t. d ++ (held ++ t)) (sym (append-nil w)) ∙ same) size,
            ),
          ))
  ]
  loop_End _ s d held c given n (more w ws a rest) h cut same size count =
      let large : 16 < length w = omega (arith, a) in
      let fits : length w ≤ 1024 = omega (arith, a) in
      let s1 = reached w s d held n h cut large fits in
      let d1 = d ++ (held ++ take (length w - 16) w) in
      let held1 = drop (length w - 16) w in
      let tail =
        loop_End ws s1 d1 held1 c given (n + 1) rest (Between-reached w s d held n h cut large fits)
          (omega (
            arith,
            length-append d1 held1,
            length-append d (held ++ take (length w - 16) w),
            length-append held (take (length w - 16) w),
            length-append d held,
            length-take (length w - 16) w,
            length-drop (length w - 16) w,
            cut,
            a,
          ))
          (regroup d held w (joined ws) (length w - 16) ∙ same) size
          (omega (arith, reached-ct w s d held n h cut large fits, count)) in
      (
        tail.0,
        (
          read_loop-going w ws s s1
                (on_record-reached w s d held n h cut large fits (omega (arith, count)))
              ∙ tail.1.0,
          tail.1.1,
        ),
      )
