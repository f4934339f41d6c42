-- ===== src/Server/Last.antt =====
-- The last record, when it holds the whole tag.

use myrtus_psm_edge.Common.{
  ℕ, zero, suc, ◌+◌, ◌-◌, ◌^◌, ◌≤◌, ◌<◌, ◌≡◌, refl, sym, ◌∙◌, ap, ap₂, arith, List, [], ◌∷◌, ◌++◌,
  true, length, length-append, length-take, length-drop, take, drop, take_of_le, drop_of_le,
  take-append, drop-append, subst, if◌then◌else◌, ◌==◌, ltb_of_lt, ltb_of_ge,
}
use myrtus_psm_edge.Gcm.{Loader, EdContext, Status, success, dec_update}
use myrtus_psm_edge.Gcm.Spec.{chunks, blocks}
use myrtus_psm_edge.Gcm.Blocks.{ctr_bytes, ctr_bytes-append, length-ctr_bytes}
use myrtus_psm_edge.Server.{
  Session, saved, going, memcpy, held, finish, served, last_record, tag_record, read_record,
}
use myrtus_psm_edge.Server.Serves.{Serves, after, dec_update-Serves, after-Holds}
use myrtus_psm_edge.Server.Ends.{dec_final-Holds}
use myrtus_psm_edge.Server.Finish.{Answer}
use myrtus_psm_edge.Server.Short.{on_short, joined_tag}
use myrtus_psm_edge.Server.Records.{Reading, pending, memcpy_lem}

length-chunks : (f : ℕ) (xs : List ℕ) → length (chunks f xs) ≤ f
length-chunks zero xs = omega arith
length-chunks (suc f) [] = omega arith
length-chunks (suc f) (x ∷ xs) = omega (arith, length-chunks f (drop 16 (x ∷ xs)))

pub blocks_le : (xs : List ℕ) → length (blocks xs) ≤ length xs
unfolding blocks
blocks_le xs = length-chunks (length xs) xs

-- The last record, given what `dec_update` returns on it.
last_with : ℕ → Status × EdContext × List ℕ → Session → Session
last_with n r s = record s {
  cx = r.1;
  outmsg = r.2;
  part = true;
  file = pending s ++ take n r.2;
  tag = memcpy s.tag 0 (drop n s.buffer) 16;
}

last_record_lem :
    (loader : Loader) (mode r : ℕ) (s : Session)
    → last_record loader mode r s
      ≡ last_with (r - 16) (dec_update loader mode s.cx s.outmsg s.buffer (r - 16)) s
unfolding last_record last_with pending
last_record_lem loader mode r s = refl

-- The tag behind `n` bytes of the message.
tag_behind :
    (old bytes buffer : List ℕ) (n : ℕ)
    → length old ≡ 32
    → length bytes ≡ n + 16
    → take 16 (memcpy old 0 (drop n (bytes ++ buffer)) 16) ≡ drop n bytes
tag_behind old bytes buffer n room size =
    let rear = drop n bytes in
    let rear_size : length rear ≡ 16 = omega (arith, length-drop n bytes, size) in
    let src = drop n (bytes ++ buffer) in
    let here = drop-append n bytes buffer (omega (arith, size)) in
    ap (λ t. take 16 (memcpy old 0 t 16)) here
    ∙ ap (take 16) (
        memcpy_lem 0 16 old (rear ++ buffer) (omega (arith, length-append rear buffer, rear_size))
          (omega (arith, room)))
    ∙ ap (λ t. take 16 (t ++ drop (0 + 16) old))
        (take-append 16 rear buffer (omega (arith, rear_size))
          ∙ take_of_le 16 rear (omega (arith, rear_size)))
    ∙ take-append 16 rear (drop (0 + 16) old) (omega (arith, rear_size))
    ∙ take_of_le 16 rear (omega (arith, rear_size))

module _ (loader : Loader) (e : List ℕ → List ℕ) (iv k : List ℕ) (handle : ℕ) where
  pub ends-last :
      (mode : ℕ) (s : Session) (d bytes : List ℕ) (n m : ℕ)
      → Reading e iv k handle d n s
      → Serves loader handle k e mode
      → length bytes ≡ m + 16
      → 1 ≤ m
      → length bytes < 1024
      → length d < 2 ^ 60
      → served (read_record loader (mode, bytes) s)
        ≡ Answer e iv k handle (d ++ take m bytes) (drop m bytes)
  unfolding finish last_with pending
  ends-last mode s d bytes n m v serves size pos le small =
      let r = length bytes in
      let buffer = bytes ++ drop r s.buffer in
      let s' = record s { buffer = buffer } in
      let input = take m bytes in
      let input_size : length input ≡ m = omega (arith, length-take m bytes, size) in
      let front : take m buffer ≡ input =
        take-append m bytes (drop r s.buffer) (omega (arith, size)) in
      let out = ctr_bytes e iv (s.cx.index + 1) input in
      let out_length : length out ≡ m = length-ctr_bytes e iv (s.cx.index + 1) input ∙ input_size in
      let call =
        dec_update-Serves loader k e iv mode s.cx s.outmsg buffer m
          (subst (λ h. Serves loader h k e mode) (sym v.opened) serves) v.holds.holds_kcopy v.live
          (omega (arith, size, length-append bytes (drop r s.buffer)))
          (omega (arith, v.out_size, size))
          (omega (
            arith,
            v.next,
            v.cut,
            ap length front,
            input_size,
            blocks_le (take m buffer),
            size,
            le,
          ))
          (ap length front ∙ input_size)
        ∙ ap (λ b. (success, after s.cx b, ctr_bytes e iv (s.cx.index + 1) b ++ drop m s.outmsg))
            front in
      let took : r - 16 ≡ m = omega (arith, size) in
      ap served (on_short loader mode s bytes (omega (arith, size)) le)
      ∙ rw (ltb_of_lt 16 r (omega (arith, size, pos))) (
          ap (λ t. served (going t))
            (last_record_lem loader mode r s'
              ∙ ap (λ x. last_with x (dec_update loader mode s.cx s.outmsg buffer x) s') took
              ∙ ap (λ x. last_with m x s') call)
          ∙ rw v.at_front (
              ap₂ saved
                (ap (λ t. pending s ++ t)
                    (take-append m out (drop m s.outmsg) (omega (arith, out_length))
                      ∙ take_of_le m out (omega (arith, out_length)))
                  ∙ ap₂ ◌++◌ v.written (ap (λ i. ctr_bytes e iv i input) (omega (arith, v.next)))
                  ∙ sym (ctr_bytes-append e iv n 2 d input v.cut))
                (dec_final-Holds e iv k (d ++ input) (after s.cx input) _ (drop m bytes)
                  (after-Holds e iv k d n s.cx input v.holds v.cut
                    (omega (arith, input_size, size)))
                  (omega (arith, length-append d input, input_size, size))
                  (tag_behind s.tag bytes (drop r s.buffer) m v.tag_room size))))

  -- The tag alone, of an empty message.
  pub ends-empty :
      (mode : ℕ) (s : Session) (bytes : List ℕ) (n : ℕ)
      → Reading e iv k handle [] n s
      → (s.ct == 0) ≡ true
      → length bytes ≡ 16
      → served (read_record loader (mode, bytes) s) ≡ Answer e iv k handle [] bytes
  unfolding finish tag_record pending
  ends-empty mode s bytes n v first size =
      let r = length bytes in
      let old = take 16 s.tag in
      let old_size : length old ≡ 16 = omega (arith, length-take 16 s.tag, v.tag_room) in
      ap served (on_short loader mode s bytes (omega (arith, size)) (omega (arith, size)))
      ∙ rw (ltb_of_ge 16 r (omega (arith, size)), first)
          (ap₂ saved (ap (λ b. if b then s.file else s.file ++ held s 16) (sym first) ∙ v.written) (
            dec_final-Holds e iv k [] s.cx _ bytes v.holds (omega arith) (
              joined_tag s.tag old bytes (drop r s.buffer) v.tag_room refl old_size
                (omega (arith, size))
              ∙ ap (λ t. t ++ bytes) (drop_of_le r old (omega (arith, old_size, size))))))
