-- ===== src/Gcm/Pack.antt =====
-- The last loops of `addmul`: 128 bits put into the bytes of a block.
use myrtus_psm_edge.Common.{
  ℕ, zero, suc, ◌+◌, ◌*◌, ◌<◌, ◌≡◌, refl, ap₂, arith, Bool, true, List, ◌∷◌, get_or, table_congr,
  bit_or, ◌<<<◌, ◌==◌, ==_iff, all_below, all_below_sound,
}
use myrtus_psm_edge.Gcm.{pack}
use myrtus_psm_edge.Gcm.Product.{byte_at, block_of}
use myrtus_psm_edge.Gcm.Range.{Below}

-- Eight bits put into a byte, the high one first.
abbrev ors : ℕ → ℕ → ℕ → ℕ → ℕ → ℕ → ℕ → ℕ → ℕ
ors a b c d e f g h =
    bit_or
      (bit_or
        (bit_or
          (bit_or (bit_or (bit_or (bit_or (bit_or 0 (a <<< 7)) (b <<< 6)) (c <<< 5)) (d <<< 4))
            (e <<< 3))
          (f <<< 2))
        (g <<< 1))
      (h <<< 0)

abbrev sums : ℕ → ℕ → ℕ → ℕ → ℕ → ℕ → ℕ → ℕ → ℕ
sums a b c d e f g h = a * 128 + b * 64 + c * 32 + d * 16 + e * 8 + f * 4 + g * 2 + h

bit_cases : (x : ℕ) (P : ℕ → Type 0) → P 0 → P 1 → x < 2 → P x
bit_cases zero P p q h = p
bit_cases (suc zero) P p q h = q
bit_cases (suc (suc x)) P p q h = absurd (omega arith)

ors_table :
    all_below 2 (λ a. all_below 2 (λ b. all_below 2 (λ c. all_below 2 (λ d. all_below 2 (λ e.
      all_below 2 (λ f.
        all_below 2 (λ g. all_below 2 (λ h. ors a b c d e f g h == sums a b c d e f g h))))))))
    ≡ true
unfolding all_below
ors_table = refl

module _ (p : List ℕ) (p_bits : Below 2 p) where
  abbrev at : ℕ → ℕ
  at i = get_or p i 0

  byte :
      (i : ℕ)
      → ors
          (at i)
          (at (i + 1))
          (at (i + 2))
          (at (i + 3))
          (at (i + 4))
          (at (i + 5))
          (at (i + 6))
          (at (i + 7))
        ≡ byte_at p i
  byte i =
      let go = λ (test : ℕ → Bool) (x : ℕ) (h : all_below 2 test ≡ true) (l : x < 2).
        all_below_sound 2 test x h l in
      (==_iff _ _).0 (
        go _ (at (i + 7))
          (go _ (at (i + 6))
            (go _ (at (i + 5))
              (go _ (at (i + 4))
                (go _ (at (i + 3))
                  (go _ (at (i + 2))
                    (go _ (at (i + 1)) (go _ (at i) ors_table (p_bits i)) (p_bits (i + 1)))
                    (p_bits (i + 2)))
                  (p_bits (i + 3)))
                (p_bits (i + 4)))
              (p_bits (i + 5)))
            (p_bits (i + 6)))
          (p_bits (i + 7)))

  pub pack_lem : pack p ≡ block_of p
  unfolding pack block_of
  pack_lem = ap₂ ◌∷◌ (byte 0) (
      ap₂ ◌∷◌ (byte 8) (
        ap₂ ◌∷◌ (byte 16) (
          ap₂ ◌∷◌ (byte 24) (
            ap₂ ◌∷◌ (byte 32) (
              ap₂ ◌∷◌ (byte 40) (
                ap₂ ◌∷◌ (byte 48) (
                  ap₂ ◌∷◌ (byte 56) (
                    ap₂ ◌∷◌ (byte 64) (
                      ap₂ ◌∷◌ (byte 72) (
                        ap₂ ◌∷◌ (byte 80) (
                          ap₂ ◌∷◌ (byte 88) (
                            ap₂ ◌∷◌ (byte 96) (
                              ap₂ ◌∷◌ (byte 104)
                                (ap₂ ◌∷◌ (byte 112) (ap₂ ◌∷◌ (byte 120) refl)))))))))))))))

-- Only the first 128 coefficients are read.
pub block_of_congr :
    (v w : List ℕ) → ((m : ℕ) → m < 128 → get_or v m 0 ≡ get_or w m 0) → block_of v ≡ block_of w
unfolding block_of
block_of_congr v w h =
    table_congr (λ k. byte_at v (8 * k)) (λ k. byte_at w (8 * k)) 16 0
      (λ k p q. omega (
        arith,
        h (8 * k) (omega arith),
        h (8 * k + 1) (omega arith),
        h (8 * k + 2) (omega arith),
        h (8 * k + 3) (omega arith),
        h (8 * k + 4) (omega arith),
        h (8 * k + 5) (omega arith),
        h (8 * k + 6) (omega arith),
        h (8 * k + 7) (omega arith),
      ))
