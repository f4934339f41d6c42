-- ===== src/Server/Native/Pieces.antt =====
-- The bytes that OpenSSL has decrypted for the server, and those that are held back, while records come in.
use mathlib.Core.List.{append_assoc, append-nil}
use myrtus_psm_edge.Common.{
  ℕ, zero, suc, ◌+◌, ◌-◌, ◌*◌, ◌^◌, ◌≤◌, ◌<◌, ◌≡◌, ◌⊎◌, ◌↔◌, inl, inr, refl, sym, ◌∙◌, ap, ap₂,
  subst, arith, Bool, List, [], ◌++◌, true, false, length, length-append, length-take, length-drop,
  take, drop, take_of_le, drop_of_le, take-append, drop-append, take-take, if◌then◌else◌, ◌==◌,
  ==_of_ne, ltb_of_lt, ◌/◌,
}
use myrtus_psm_edge.Gcm.Spec.{tag}
use myrtus_psm_edge.Gcm.Blocks.{ctr_bytes, ctr_bytes-append, length-ctr_bytes}
use myrtus_psm_edge.Server.{memcpy}
use myrtus_psm_edge.Server.Records.{memcpy_lem}
use myrtus_psm_edge.Server.Native.{
  Evp, Native, going, overflowed, put_out, release, held_state, hold_back, data_record,
}

-- OpenSSL, as documented: a context has decrypted a ciphertext `d`; an update puts out the next bytes of the
-- message, and the final call compares the tag that was set with that of the ciphertext.
pub record Decrypts {C : Type 0} (evp : Evp C) (Has : C → List ℕ → Type 0) (e : List ℕ → List ℕ)
    (iv : List ℕ) : Type 0 where
  pub next : C → List ℕ → C
  pub updates :
      (c : C) (d m : List ℕ)
      → Has c d
      → evp.update c m ≡ (true, (drop (length d) (ctr_bytes e iv 2 (d ++ m)), next c m))
  pub continues : (c : C) (d m : List ℕ) → Has c d → Has (next c m) (d ++ m)
  pub verifies :
      (c : C) (d t : List ℕ) → Has c d → length t ≡ 16 → (evp.final c t ≡ true) ↔ (t ≡ tag e iv d)

pub take_front : (xs ys : List ℕ) (n : ℕ) → n ≡ length xs → take n (xs ++ ys) ≡ xs
take_front xs ys n e = take-append n xs ys (omega (arith, e)) ∙ take_of_le n xs (omega (arith, e))

module _ {C : Type 0} (evp : Evp C) (Has : C → List ℕ → Type 0) (e : List ℕ → List ℕ) (iv : List ℕ)
    (law : Decrypts evp Has e iv) where
  pub record Ran (s : Native C) (d : List ℕ) : Type 0 where
    pub has : Has s.ctxx d
    pub room : length s.outmsg ≡ 1024
    pub wrote : s.file ≡ ctr_bytes e iv 2 d

  out : List ℕ → List ℕ → List ℕ
  out d m = drop (length d) (ctr_bytes e iv 2 (d ++ m))

  length-out : (d m : List ℕ) → length (out d m) ≡ length m
  unfolding out
  length-out d m = omega (
    arith,
    length-drop (length d) (ctr_bytes e iv 2 (d ++ m)),
    length-ctr_bytes e iv 2 (d ++ m),
    length-append d m,
  )

  out-append :
      (n : ℕ) (d m : List ℕ)
      → length d ≡ 16 * n
      → ctr_bytes e iv 2 d ++ out d m ≡ ctr_bytes e iv 2 (d ++ m)
  unfolding out
  out-append n d m h =
      let c = ctr_bytes e iv 2 d in
      let cut = ctr_bytes-append e iv n 2 d m h in
      let size = length-ctr_bytes e iv 2 d in
      ap (λ t. c ++ drop (length d) t) cut
      ∙ ap (λ t. c ++ t)
          (drop-append (length d) c (ctr_bytes e iv (2 + n) m) (omega (arith, size))
            ∙ ap (λ t. t ++ ctr_bytes e iv (2 + n) m)
                (drop_of_le (length d) c (omega (arith, size))))
      ∙ sym cut

  -- One update and the write of all that it puts out.
  pub Ran-put_out :
      (n k : ℕ) (s : Native C) (d m : List ℕ)
      → Ran s d
      → length d ≡ 16 * n
      → k ≡ length m
      → k ≤ 1024
      → Ran (put_out s (evp.update s.ctxx m).1 k) (d ++ m)
  unfolding out
  Ran-put_out n k s d m h cut size small =
      subst (λ r. Ran (put_out s r k) (d ++ m)) (ap (λ t. t.1) (sym (law.updates s.ctxx d m h.has)))
        done
    where
      done : Ran (put_out s (out d m, law.next s.ctxx m) k) (d ++ m)
      done = record {
        has = law.continues s.ctxx d m h.has;
        room = omega (
          arith,
          length-append (out d m) (drop (length (out d m)) s.outmsg),
          length-drop (length (out d m)) s.outmsg,
          length-out d m,
          h.room,
          size,
          small,
        );
        wrote =
            ap₂ ◌++◌ h.wrote (
              take_front (out d m) (drop (length (out d m)) s.outmsg) k
                (size ∙ sym (length-out d m)))
            ∙ out-append n d m cut;
      }

  -- Between two records: `d` is decrypted, and `held` is held back, if there was a record.
  pub record Between (s : Native C) (d held : List ℕ) : Type 0 where
    pub ran : Ran s d
    pub buffer_size : length s.buffer ≡ 1024
    pub tag_room : length s.tag ≡ 32
    pub at_front : s.tp ≡ 0
    pub kept :
        (((s.ct == 0) ≡ true) × ((d ≡ []) × (held ≡ [])))
        ⊎ (((s.ct == 0) ≡ false) × ((take 16 s.tag ≡ held) × (length held ≡ 16)))

  pub Ran-release :
      (n k : ℕ) (s : Native C) (d held : List ℕ)
      → Between s d held
      → length d ≡ 16 * n
      → k ≤ 16
      → Ran (release evp k s) (d ++ take k held)
  Ran-release n k s d held h cut small = go h.kept
    where
      go :
          (((s.ct == 0) ≡ true) × ((d ≡ []) × (held ≡ [])))
            ⊎ (((s.ct == 0) ≡ false) × ((take 16 s.tag ≡ held) × (length held ≡ 16)))
          → Ran (release evp k s) (d ++ take k held)
      go (inl p) =
          subst
            (λ b.
              Ran (if b then s else put_out s (evp.update s.ctxx (take k s.tag)).1 k)
                (d ++ take k held))
            (sym p.0)
            (subst (Ran s)
              (sym (append-nil d) ∙ ap (λ t. d ++ t) (sym (nothing k) ∙ ap (take k) (sym p.1.1)))
              h.ran)
        where
          nothing : (k : ℕ) → take {A = ℕ} k [] ≡ []
          nothing zero = refl
          nothing (suc k) = refl
      go (inr p) =
          subst
            (λ b.
              Ran (if b then s else put_out s (evp.update s.ctxx (take k s.tag)).1 k)
                (d ++ take k held))
            (sym p.0)
            (subst (λ m. Ran (put_out s (evp.update s.ctxx m).1 k) (d ++ take k held))
              (sym (sym (take-take k 16 s.tag small) ∙ ap (take k) p.1.0))
              (Ran-put_out n k s d (take k held) h.ran cut
                (omega (arith, length-take k held, p.1.1, small)) (omega (arith, small))))

  pub release-buffer : (k : ℕ) (s : Native C) → (release evp k s).buffer ≡ s.buffer
  release-buffer k s = go (s.ct == 0)
    where
      go :
          (b : Bool)
          → (if b then s else put_out s (evp.update s.ctxx (take k s.tag)).1 k).buffer ≡ s.buffer
      go true = refl
      go false = refl

  pub release-tag : (k : ℕ) (s : Native C) → (release evp k s).tag ≡ s.tag
  release-tag k s = go (s.ct == 0)
    where
      go :
          (b : Bool)
          → (if b then s else put_out s (evp.update s.ctxx (take k s.tag)).1 k).tag ≡ s.tag
      go true = refl
      go false = refl

  release-ct : (k : ℕ) (s : Native C) → (release evp k s).ct ≡ s.ct
  release-ct k s = go (s.ct == 0)
    where
      go :
          (b : Bool) → (if b then s else put_out s (evp.update s.ctxx (take k s.tag)).1 k).ct ≡ s.ct
      go true = refl
      go false = refl

  -- A record with data: `bytes` are at the front of the buffer.
  module _ (s : Native C) (d held bytes rest : List ℕ) (n : ℕ) (h : Between s d held)
      (cut : length d ≡ 16 * n) (front : s.buffer ≡ bytes ++ rest) (large : 16 < length bytes)
      (fits : length bytes ≤ 1024) where
    released : Native C
    released = release evp 16 s

    piece : List ℕ
    piece = take (length bytes - 16) (bytes ++ rest)

    rear : List ℕ
    rear = drop (length bytes - 16) bytes

    length-rear : length rear ≡ 16
    unfolding rear
    length-rear = omega (arith, length-drop (length bytes - 16) bytes, large)

    piece-take : piece ≡ take (length bytes - 16) bytes
    unfolding piece
    piece-take = take-append (length bytes - 16) bytes rest (omega arith)

    length-held : length held ≤ 16
    length-held = go h.kept
      where
        go :
            (((s.ct == 0) ≡ true) × ((d ≡ []) × (held ≡ [])))
              ⊎ (((s.ct == 0) ≡ false) × ((take 16 s.tag ≡ held) × (length held ≡ 16)))
            → length held ≤ 16
        go (inl p) = omega (arith, ap length p.1.1)
        go (inr p) = omega (arith, p.1.1)

    pub after_data : Native C
    after_data = held_state (length bytes) released (evp.update released.ctxx piece).1

    Ran-released : Ran released (d ++ held)
    unfolding released
    Ran-released =
        subst (λ t. Ran released (d ++ t)) (take_of_le 16 held length-held)
          (Ran-release n 16 s d held h cut (omega arith))

    whole : length (d ++ held) ≡ 16 * (length (d ++ held) / 16)
    whole = go h.kept
      where
        go :
            (((s.ct == 0) ≡ true) × ((d ≡ []) × (held ≡ [])))
              ⊎ (((s.ct == 0) ≡ false) × ((take 16 s.tag ≡ held) × (length held ≡ 16)))
            → length (d ++ held) ≡ 16 * (length (d ++ held) / 16)
        go (inl p) = omega (arith, length-append d held, cut, ap length p.1.1)
        go (inr p) = omega (arith, length-append d held, cut, p.1.1)

    piece_read : take (length bytes - 16) released.buffer ≡ piece
    unfolding released piece
    piece_read = ap (take (length bytes - 16)) (release-buffer 16 s ∙ front)

    released-ct : released.ct ≡ s.ct
    unfolding released
    released-ct = release-ct 16 s

    pub after_data-ct : after_data.ct ≡ s.ct + 1
    unfolding after_data
    after_data-ct = ap (λ k. k + 1) released-ct

    pub data_record-going : s.ct + 1 < 2 ^ 31 → data_record evp (length bytes) s ≡ going after_data
    unfolding data_record after_data released out
    data_record-going small =
        let u = law.updates released.ctxx (d ++ held) piece Ran-released.has in
        ap (λ m. hold_back (length bytes) released (evp.update released.ctxx m)) piece_read
        ∙ ap (hold_back (length bytes) released) u
        ∙ ap
            (λ b.
              if b
              then going (
                  held_state (length bytes) released
                    (out (d ++ held) piece, law.next released.ctxx piece))
              else overflowed)
            (ltb_of_lt (released.ct + 1) (2 ^ 31) (omega (arith, released-ct, small)))
        ∙ ap (λ r. going (held_state (length bytes) released r)) (ap (λ t. t.1) (sym u))

    new_tag : after_data.tag ≡ rear ++ drop 16 s.tag
    unfolding after_data released rear
    new_tag =
        ap₂ (λ t m. memcpy t 0 (drop (length bytes - 16) m) 16) (release-tag 16 s)
          (release-buffer 16 s ∙ front)
        ∙ ap (λ m. memcpy s.tag 0 m 16) (drop-append (length bytes - 16) bytes rest (omega arith))
        ∙ memcpy_lem 0 16 s.tag (rear ++ rest) (omega (arith, length-append rear rest, length-rear))
            (omega (arith, h.tag_room))
        ∙ ap (λ t. t ++ drop 16 s.tag) (take_front rear rest 16 (sym length-rear))

    pub Between-data :
        Between after_data
          (d ++ (held ++ take (length bytes - 16) bytes))
          (drop (length bytes - 16) bytes)
    unfolding rear after_data released
    Between-data =
        subst (λ t. Between after_data t rear)
          (append_assoc d held piece ∙ ap (λ t. d ++ (held ++ t)) piece-take)
          (record {
            ran = record { has = put.has; room = put.room; wrote = put.wrote };
            buffer_size = ap length (buffer_kept) ∙ h.buffer_size;
            tag_room =
                ap length new_tag
                ∙ omega (
                  arith,
                  length-append rear (drop 16 s.tag),
                  length-rear,
                  length-drop 16 s.tag,
                  h.tag_room,
                );
            at_front = at_start;
            kept = inr (
              counted,
              (
                ap (take 16) new_tag ∙ take_front rear (drop 16 s.tag) 16 (sym length-rear),
                length-rear,
              ),
            );
          })
      where
        put :
            Ran
              (put_out released (evp.update released.ctxx piece).1 (length bytes - 16))
              (d ++ held ++ piece)
        put =
            Ran-put_out (length (d ++ held) / 16) (length bytes - 16) released (d ++ held) piece
              Ran-released whole
              (omega (arith, ap length piece-take, length-take (length bytes - 16) bytes))
              (omega (arith, fits))

        buffer_kept : after_data.buffer ≡ s.buffer
        buffer_kept = release-buffer 16 s

        at_start : after_data.tp ≡ 0
        at_start = refl

        counted : (after_data.ct == 0) ≡ false
        counted = ==_of_ne after_data.ct 0 (λ z. omega (arith, z))
