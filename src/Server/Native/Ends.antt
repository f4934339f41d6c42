-- ===== src/Server/Native/Ends.antt =====
-- The body of the loop in which OpenSSL decrypts, on either kind of record, and the end of the connection
-- at a record that splits the tag.
use mathlib.Core.List.{append_assoc}
use myrtus_psm_edge.Common.{
  ℕ, zero, suc, ◌+◌, ◌*◌, ◌≤◌, ◌<◌, ◌≡◌, ◌⊎◌, inl, inr, refl, sym, ◌∙◌, ap, ap₂, subst, arith, List,
  [], ◌++◌, true, false, length, length-append, length-take, length-drop, take, drop, drop_of_le,
  drop-append, take-append-drop, if◌then◌else◌, ◌==◌, ltb, ltb_of_lt, ltb_of_ge,
}
use myrtus_psm_edge.Server.{memcpy}
use myrtus_psm_edge.Server.Records.{memcpy_lem}
use myrtus_psm_edge.Server.Receive.{append_cut}
use myrtus_psm_edge.Server.Native.{Evp, Native, going, release, data_record, tag_record, on_record}
use myrtus_psm_edge.Server.Native.Pieces.{
  Decrypts, Ran, Between, Ran-release, release-buffer, release-tag, take_front,
}

module _ {C : Type 0} (evp : Evp C) (Has : C → List ℕ → Type 0) (e : List ℕ → List ℕ) (iv : List ℕ)
    (law : Decrypts evp Has e iv) where
  -- At the end: `c` is decrypted, and `given` stands at `tp`.
  pub record End (s : Native C) (c given : List ℕ) : Type 0 where
    pub ran : Ran evp Has e iv law s c
    pub answer : take 16 (drop s.tp s.tag) ≡ given

  abbrev pub BetweenOf : Native C → List ℕ → List ℕ → Type 0
  BetweenOf s d held = Between evp Has e iv law s d held

  -- The buffer with the bytes of a record.
  abbrev pub filled : List ℕ → Native C → Native C
  filled bytes s = record s { buffer = bytes ++ drop (length bytes) s.buffer }

  pub Between-filled :
      (bytes : List ℕ) (s : Native C) (d held : List ℕ)
      → length bytes ≤ 1024
      → BetweenOf s d held
      → BetweenOf (filled bytes s) d held
  Between-filled bytes s d held fits h = record {
    ran = record { has = h.ran.has; room = h.ran.room; wrote = h.ran.wrote };
    buffer_size = omega (
      arith,
      length-append bytes (drop (length bytes) s.buffer),
      length-drop (length bytes) s.buffer,
      h.buffer_size,
      fits,
    );
    tag_room = h.tag_room;
    at_front = h.at_front;
    kept = h.kept;
  }

  pub on_record-data :
      (bytes : List ℕ) (s : Native C)
      → 16 < length bytes
      → on_record evp bytes s ≡ data_record evp (length bytes) (filled bytes s)
  unfolding on_record
  on_record-data bytes s large =
      ap
        (λ b.
          if b
          then data_record evp (length bytes) (filled bytes s)
          else if ltb 0 (length bytes)
          then going (tag_record evp (length bytes) (filled bytes s))
          else going (filled bytes s))
        (ltb_of_lt 16 (length bytes) large)

  pub on_record-tag :
      (bytes : List ℕ) (s : Native C)
      → 1 ≤ length bytes
      → length bytes ≤ 16
      → on_record evp bytes s ≡ going (tag_record evp (length bytes) (filled bytes s))
  unfolding on_record
  on_record-tag bytes s some_bytes small =
      ap
        (λ b.
          if b
          then data_record evp (length bytes) (filled bytes s)
          else if ltb 0 (length bytes)
          then going (tag_record evp (length bytes) (filled bytes s))
          else going (filled bytes s))
        (ltb_of_ge 16 (length bytes) small)
      ∙ ap
          (λ b.
            if b
            then going (tag_record evp (length bytes) (filled bytes s))
            else going (filled bytes s))
          (ltb_of_lt 0 (length bytes) (omega arith))

  tag_bytes :
      (bytes : List ℕ) (s : Native C) (d held : List ℕ)
      → length bytes ≤ 16
      → BetweenOf (filled bytes s) d held
      → (let t = tag_record evp (length bytes) (filled bytes s) in
          take 16 (drop t.tp t.tag)
          ≡ take 16
              (drop (length bytes) (take 16 s.tag) ++ (bytes ++ drop (16 + length bytes) s.tag)))
  unfolding tag_record
  tag_bytes bytes s d held small h =
      let b = length bytes in
      let s1 = filled bytes s in
      let rest = drop b s.buffer in
      let x = drop (16 + b) s.tag in
      let room : 16 + b ≤ length s.tag = omega (arith, h.tag_room, small) in
      ap₂ (λ t m. take 16 (drop b (memcpy t 16 m b))) (release-tag evp Has e iv law b s1)
        (release-buffer evp Has e iv law b s1)
      ∙ ap (λ t. take 16 (drop b t))
          (memcpy_lem 16 b s.tag (bytes ++ rest) (omega (arith, length-append bytes rest)) room
            ∙ ap (λ m. take 16 s.tag ++ (m ++ x)) (take_front bytes rest b refl))
      ∙ ap (take 16) (
          drop-append b (take 16 s.tag) (bytes ++ x)
            (omega (arith, length-take 16 s.tag, room, small)))

  -- A record with the end of the tag.
  pub End-tag :
      (bytes : List ℕ) (s : Native C) (d held c given : List ℕ) (n : ℕ)
      → length bytes ≤ 16
      → BetweenOf s d held
      → length d ≡ 16 * n
      → d ++ (held ++ bytes) ≡ c ++ given
      → length given ≡ 16
      → End (tag_record evp (length bytes) (filled bytes s)) c given
  unfolding tag_record
  End-tag bytes s d held c given n small h cut same size = go h.kept
    where
      between : BetweenOf (filled bytes s) d held
      between = Between-filled bytes s d held (omega (arith, small)) h

      ran :
          Ran evp Has e iv law
            (release evp (length bytes) (filled bytes s))
            (d ++ take (length bytes) held)
      ran = Ran-release evp Has e iv law n (length bytes) (filled bytes s) d held between cut small

      finish :
          (d ++ take (length bytes) held ≡ c)
          → take 16
              (drop (length bytes) (take 16 s.tag) ++ (bytes ++ drop (16 + length bytes) s.tag))
            ≡ given
          → End (tag_record evp (length bytes) (filled bytes s)) c given
      finish p q = record {
        ran =
            subst (Ran evp Has e iv law (tag_record evp (length bytes) (filled bytes s))) p
              (record { has = ran.has; room = ran.room; wrote = ran.wrote });
        answer = tag_bytes bytes s d held small between ∙ q;
      }

      go :
          (((s.ct == 0) ≡ true) × ((d ≡ []) × (held ≡ [])))
            ⊎ (((s.ct == 0) ≡ false) × ((take 16 s.tag ≡ held) × (length held ≡ 16)))
          → End (tag_record evp (length bytes) (filled bytes s)) c given
      go (inl p) =
          let parts =
            append_cut [] bytes c given
              (ap₂ (λ x y. x ++ (y ++ bytes)) (sym p.1.0) (sym p.1.1) ∙ same)
              (omega (arith, small, size, bytes_count p.1.0 p.1.1)) in
          finish
            (ap₂ (λ x y. x ++ take (length bytes) y) p.1.0 p.1.1 ∙ nothing (length bytes) ∙ parts.0)
            (ap (λ t. take 16 (t ++ (bytes ++ drop (16 + length bytes) s.tag)))
                (drop_of_le (length bytes) (take 16 s.tag)
                  (omega (arith, length-take 16 s.tag, h.tag_room, size, bytes_count p.1.0 p.1.1)))
              ∙ take_front bytes (drop (16 + length bytes) s.tag) 16
                  (omega (arith, small, size, bytes_count p.1.0 p.1.1))
              ∙ parts.1)
        where
          nothing : (k : ℕ) → take {A = ℕ} k [] ≡ []
          nothing zero = refl
          nothing (suc k) = refl

          bytes_count : d ≡ [] → held ≡ [] → length bytes ≡ length c + length given
          bytes_count x y = omega (
            arith,
            ap length same,
            length-append d (held ++ bytes),
            length-append held bytes,
            length-append c given,
            ap length x,
            ap length y,
          )
      go (inr p) =
          let b = length bytes in
          let front = d ++ take b held in
          let rear = drop b held ++ bytes in
          let sixteen : length rear ≡ 16 =
            omega (arith, length-append (drop b held) bytes, length-drop b held, p.1.1, small) in
          let parts =
            append_cut front rear c given
              (append_assoc d (take b held) rear
                ∙ ap (λ t. d ++ t)
                    (sym (append_assoc (take b held) (drop b held) bytes)
                      ∙ ap (λ t. t ++ bytes) (take-append-drop b held))
                ∙ same)
              (sixteen ∙ sym size) in
          finish parts.0 (
            ap (λ t. take 16 (drop b t ++ (bytes ++ drop (16 + b) s.tag))) p.1.0
            ∙ ap (take 16) (sym (append_assoc (drop b held) bytes (drop (16 + b) s.tag)))
            ∙ take_front rear (drop (16 + b) s.tag) 16 (sym sixteen)
            ∙ parts.1)
