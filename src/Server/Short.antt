-- ===== src/Server/Short.antt =====
-- The reading loop on a record that is not full, which is the last one.
use mathlib.Core.List.{append_assoc}
use myrtus_psm_edge.Common.{
  ℕ, ◌+◌, ◌-◌, ◌^◌, ◌≤◌, ◌<◌, ◌≡◌, refl, sym, ◌∙◌, ap, ap₂, arith, List, [], ◌∷◌, ◌++◌, length,
  length-append, length-take, length-drop, take, drop, take_of_le, take-append, drop-append,
  drop-overwritten, replicate, if◌then◌else◌, ==_of_ne, ltb, ltb_of_lt, ltb_of_ge,
}
use myrtus_psm_edge.Gcm.{Loader, addmul}
use myrtus_psm_edge.Gcm.Spec.{blocks}
use myrtus_psm_edge.Gcm.Blocks.{blocks-append, hash_blocks-append, hash_blocks}
use myrtus_psm_edge.Gcm.Update.{addmul-take}
use myrtus_psm_edge.Server.{
  Session, saved, going, memcpy, finish, served, last_record, tag_record, on_record, read_record,
}
use myrtus_psm_edge.Server.Serves.{blocks_one}
use myrtus_psm_edge.Server.Ends.{dec_final-Holds}
use myrtus_psm_edge.Server.Finish.{Answer, shortened, file_with, front_cut}
use myrtus_psm_edge.Server.Records.{Reading, Tail, memcpy_lem}

pub on_short :
    (loader : Loader) (mode : ℕ) (s : Session) (bytes : List ℕ)
    → 1 ≤ length bytes
    → length bytes < 1024
    → let r = length bytes in
      let s' = record s { buffer = bytes ++ drop r s.buffer } in
      read_record loader (mode, bytes) s
      ≡ (if ltb 16 r then going (last_record loader mode r s') else going (tag_record r s'))
unfolding read_record on_record
on_short loader mode s bytes p q =
    rw (==_of_ne (length bytes) 1024 (λ h. omega (arith, h, q)), ltb_of_lt 0 (length bytes) p) refl

-- The tag in two pieces.
pub joined_tag :
    (old rear bytes buffer : List ℕ)
    → length old ≡ 32
    → take 16 old ≡ rear
    → length rear ≡ 16
    → length bytes ≤ 16
    → take 16 (drop (length bytes) (memcpy old 16 (bytes ++ buffer) (length bytes)))
      ≡ drop (length bytes) rear ++ bytes
joined_tag old rear bytes buffer room same size small =
    let r = length bytes in
    let rest = drop (16 + r) old in
    ap (λ t. take 16 (drop r t))
      (memcpy_lem 16 r old (bytes ++ buffer) (omega (arith, length-append bytes buffer))
          (omega (arith, room))
        ∙ ap₂ (λ t u. t ++ (u ++ rest)) same
            (take-append r bytes buffer (omega arith) ∙ take_of_le r bytes (omega arith)))
    ∙ ap (take 16) (
        drop-append r rear (bytes ++ rest) (omega (arith, size))
        ∙ sym (append_assoc (drop r rear) bytes rest))
    ∙ take-append 16 (drop r rear ++ bytes) rest
        (omega (arith, length-append (drop r rear) bytes, length-drop r rear, size))
    ∙ take_of_le 16 (drop r rear ++ bytes)
        (omega (arith, length-append (drop r rear) bytes, length-drop r rear, size))

module _ (e : List ℕ → List ℕ) (iv k : List ℕ) (handle : ℕ) where
  -- The hash with the front of the last block in place of the whole.
  rehashed :
      (s : Session) (d rear : List ℕ) (n r : ℕ)
      → Reading e iv k handle (d ++ rear) n s
      → Tail e d rear s
      → 1 ≤ r
      → r ≤ 16
      → addmul s.cx.paccum rear r s.cx.h
        ≡ hash_blocks (e (replicate 16 0)) (replicate 16 0) (blocks (d ++ take r rear))
  unfolding hash_blocks
  rehashed s d rear n r v t pos le =
      let h = e (replicate 16 0) in
      let b = take r rear in
      let size : r ≡ length b = omega (arith, length-take r rear, t.block) in
      sym (addmul-take s.cx.paccum rear r s.cx.h)
      ∙ ap (λ l. addmul s.cx.paccum b l s.cx.h) size
      ∙ ap₂ (λ a x. addmul a b (length b) x) t.hashed v.holds.holds_h
      ∙ sym (hash_blocks-append h (replicate 16 0) (blocks d) (b ∷ []))
      ∙ ap (λ x. hash_blocks h (replicate 16 0) (blocks d ++ x))
          (sym (blocks_one b (omega arith) (omega arith)))
      ∙ ap (hash_blocks h (replicate 16 0))
          (sym (blocks-append (n - 1) d b (front_cut e iv k handle s d rear n v t.block)))

  -- The stream ends with a record that holds only the end of the tag.
  pub ends-split :
      (loader : Loader) (mode : ℕ) (s : Session) (d rear bytes : List ℕ) (n : ℕ)
      → Reading e iv k handle (d ++ rear) n s
      → Tail e d rear s
      → length d < 2 ^ 60
      → 1 ≤ length bytes
      → length bytes ≤ 16
      → served (read_record loader (mode, bytes) s)
        ≡ Answer e iv k handle (d ++ take (length bytes) rear) (drop (length bytes) rear ++ bytes)
  unfolding finish tag_record
  ends-split loader mode s d rear bytes n v t small pos le =
      let r = length bytes in
      let c = d ++ take r rear in
      let behind = drop-overwritten bytes s.buffer 1008 (omega (arith, le)) ∙ t.in_buffer in
      let hash = addmul s.cx.paccum (drop 1008 (bytes ++ drop r s.buffer)) r s.cx.h in
      ap served (on_short loader mode s bytes pos (omega (arith, le)))
      ∙ rw (ltb_of_ge 16 r le, t.counted)
          (ap₂ saved (file_with e iv k handle s d rear n r v t le) (
            dec_final-Holds e iv k c _ _ (drop r rear ++ bytes)
              (shortened e iv k handle s d rear n r hash hash v t.block small le
                (ap (λ x. addmul s.cx.paccum x r s.cx.h) behind ∙ rehashed s d rear n r v t pos le))
              (omega (arith, length-append d (take r rear), length-take r rear))
              (joined_tag s.tag rear bytes (drop r s.buffer) v.tag_room t.in_tag t.block le)))
