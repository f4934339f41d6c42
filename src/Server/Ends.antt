-- ===== src/Server/Ends.antt =====
-- The end of the stream: what the file and the context hold after the last record.

use myrtus_psm_edge.Common.{
  ℕ, zero, suc, ◌+◌, ◌-◌, ◌*◌, ◌^◌, ◌<◌, ◌≡◌, refl, sym, ◌∙◌, ap, ap₂, arith, List, [], ◌∷◌, ◌++◌,
  length, length-take, take, take-length_add, get_or, get_or-take, for_range_congr, if◌then◌else◌,
  ◌==◌, bit_or, bit_and, u32, ◌⊕◌, ◌>>>◌,
}
use myrtus_psm_edge.Gcm.{
  EdContext, success, failure, dec_final, crypto_verify_16, different_bits, expected_tag,
}
use myrtus_psm_edge.Gcm.Spec.{be32, tag, xor_from}
use myrtus_psm_edge.Gcm.Blocks.{ctr_bytes, ctr_bytes-append, ctr_bytes_one, length-ctr_bytes}
use myrtus_psm_edge.Gcm.Tag.{Holds, expected_tag_lem}

-- Only sixteen bytes of the tag are read.
verify-take : (x y : List ℕ) → crypto_verify_16 x y ≡ crypto_verify_16 (take 16 x) y
unfolding crypto_verify_16 different_bits
verify-take x y =
    ap (λ d. if bit_and 1 (u32 (d + 2 ^ 32 - 1) >>> 8) == 1 then success else failure)
      (for_range_congr (λ i d. bit_or d (get_or x i 0 ⊕ get_or y i 0))
        (λ i d. bit_or d (get_or (take 16 x) i 0 ⊕ get_or y i 0)) 16 0 0
        (λ i d p q.
          ap (λ t. bit_or d (t ⊕ get_or y i 0)) (sym (get_or-take 16 i x 0 (omega arith)))))

pub dec_final-Holds :
    (e : List ℕ → List ℕ) (iv k c : List ℕ) (cx : EdContext) (t given : List ℕ)
    → Holds e iv k c cx
    → length c < 2 ^ 61
    → take 16 t ≡ given
    → dec_final cx t ≡ crypto_verify_16 given (tag e iv c)
unfolding dec_final
dec_final-Holds e iv k c cx t given v small at =
    verify-take t (expected_tag cx) ∙ ap₂ crypto_verify_16 at (expected_tag_lem e iv k c cx v small)

xor_from-take : (n i : ℕ) (b s : List ℕ) → take n (xor_from i b s) ≡ xor_from i (take n b) s
xor_from-take zero i b s = refl
xor_from-take (suc n) i [] s = refl
xor_from-take (suc n) i (x ∷ b) s = ap (λ t. (x ⊕ get_or s i 0) ∷ t) (xor_from-take n (i + 1) b s)

-- Counter mode on the front of the last block.
pub ctr-take :
    (e : List ℕ → List ℕ) (iv d rear : List ℕ) (n r : ℕ)
    → length d ≡ 16 * n
    → length rear ≡ 16
    → take (length d + r) (ctr_bytes e iv 2 (d ++ rear)) ≡ ctr_bytes e iv 2 (d ++ take r rear)
ctr-take e iv d rear n r cut size =
    let front = ctr_bytes e iv 2 d in
    let front_size : length front ≡ length d = length-ctr_bytes e iv 2 d in
    let s = e (iv ++ be32 (2 + n)) in
    ap (take (length d + r)) (ctr_bytes-append e iv n 2 d rear cut)
    ∙ ap (λ l. take (l + r) (front ++ ctr_bytes e iv (2 + n) rear)) (sym front_size)
    ∙ take-length_add front (ctr_bytes e iv (2 + n) rear) r
    ∙ ap (λ t. front ++ take r t) (ctr_bytes_one e iv (2 + n) rear (omega (arith, size)))
    ∙ ap (λ t. front ++ t)
        (xor_from-take r 0 rear s
          ∙ sym
              (ctr_bytes_one e iv (2 + n) (take r rear) (omega (arith, size, length-take r rear))))
    ∙ sym (ctr_bytes-append e iv n 2 d (take r rear) cut)
