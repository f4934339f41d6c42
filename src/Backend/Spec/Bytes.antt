-- ===== src/Backend/Spec/Bytes.antt =====
-- A key schedule consists of bytes when its key does.
use myrtus_psm_edge.Common.{
  ℕ, zero, suc, ◌+◌, ◌-◌, ◌*◌, ◌/◌, ◌%◌, ◌<◌, ◌≡◌, refl, sym, arith, subst, List, [], ◌∷◌, ◌++◌,
  true, false, Bool, take, IsBytes, xor_byte-lt, if◌then◌else◌, ◌==◌, ltb, ◌&&◌, all_below,
  all_below_sound,
}
use myrtus_psm_edge.Backend.Spec.{
  double, gf_pow, round_constant, temp_word, next_word, schedule, key_expansion, word, sub_word,
  rot_word, xor_word,
}
use myrtus_psm_edge.Backend.Spec.Field.{gf_mul_two}
use myrtus_psm_edge.Backend.Spec.Blocks.{sbox-lt}

double_table : all_below 256 (λ x. ltb (double x) 256) ≡ true
unfolding all_below double
double_table = refl

double-lt : (x : ℕ) → x < 256 → double x < 256
double-lt x h =
    lt_of_ltb (double x) (all_below_sound 256 (λ x. ltb (double x) 256) x double_table h)
  where
    lt_of_ltb : (y : ℕ) → ltb y 256 ≡ true → y < 256
    lt_of_ltb y h = ground arith

round_constant-lt : (i : ℕ) → round_constant i < 256
unfolding round_constant
round_constant-lt i = power-lt (i - 1)
  where
    power-lt : (n : ℕ) → gf_pow n 2 < 256
    power-lt zero = omega arith
    power-lt (suc n) =
        subst (λ v. v < 256) (sym (gf_mul_two (gf_pow n 2))) (double-lt (gf_pow n 2) (power-lt n))

IsBytes-take : (n : ℕ) (xs : List ℕ) → IsBytes xs → IsBytes (take n xs)
IsBytes-take zero xs h i = omega arith
IsBytes-take (suc n) [] h i = omega arith
IsBytes-take (suc n) (x ∷ xs) h zero = h 0
IsBytes-take (suc n) (x ∷ xs) h (suc i) = IsBytes-take n xs (λ k. h (suc k)) i

IsBytes-append : (xs ys : List ℕ) → IsBytes xs → IsBytes ys → IsBytes (xs ++ ys)
IsBytes-append [] ys p q i = q i
IsBytes-append (x ∷ xs) ys p q zero = p 0
IsBytes-append (x ∷ xs) ys p q (suc i) = IsBytes-append xs ys (λ k. p (suc k)) q i

IsBytes-four : (a b c d : ℕ) → a < 256 → b < 256 → c < 256 → d < 256 → IsBytes (a ∷ b ∷ c ∷ d ∷ [])
IsBytes-four a b c d p q r s zero = p
IsBytes-four a b c d p q r s (suc zero) = q
IsBytes-four a b c d p q r s (suc (suc zero)) = r
IsBytes-four a b c d p q r s (suc (suc (suc zero))) = s
IsBytes-four a b c d p q r s (suc (suc (suc (suc i)))) = omega arith

IsBytes-xor_word : (s t : List ℕ) → IsBytes s → IsBytes t → IsBytes (xor_word s t)
IsBytes-xor_word s t p q =
    IsBytes-four _ _ _ _ (xor_byte-lt _ _ (p 0) (q 0)) (xor_byte-lt _ _ (p 1) (q 1))
      (xor_byte-lt _ _ (p 2) (q 2)) (xor_byte-lt _ _ (p 3) (q 3))

IsBytes-word : (w : List ℕ) (i : ℕ) → IsBytes w → IsBytes (word w i)
IsBytes-word w i h = IsBytes-four _ _ _ _ (h _) (h _) (h _) (h _)

IsBytes-sub_word : (t : List ℕ) → IsBytes (sub_word t)
IsBytes-sub_word t = IsBytes-four _ _ _ _ (sbox-lt _) (sbox-lt _) (sbox-lt _) (sbox-lt _)

IsBytes-if : (c : Bool) (s t : List ℕ) → IsBytes s → IsBytes t → IsBytes (if c then s else t)
IsBytes-if true s t p q = p
IsBytes-if false s t p q = q

IsBytes-temp_word : (nk i : ℕ) (t : List ℕ) → IsBytes t → IsBytes (temp_word nk i t)
unfolding temp_word
IsBytes-temp_word nk i t h =
    IsBytes-if (i % nk == 0)
      (xor_word (sub_word (rot_word t)) (round_constant (i / nk) ∷ 0 ∷ 0 ∷ 0 ∷ []))
      (if ltb 6 nk && i % nk == 4 then sub_word t else t)
      (IsBytes-xor_word (sub_word (rot_word t)) (round_constant (i / nk) ∷ 0 ∷ 0 ∷ 0 ∷ [])
        (IsBytes-sub_word (rot_word t))
        (IsBytes-four _ 0 0 0 (round_constant-lt (i / nk)) (omega arith) (omega arith)
          (omega arith)))
      (IsBytes-if (ltb 6 nk && i % nk == 4) (sub_word t) t (IsBytes-sub_word t) h)

IsBytes-schedule : (nk n i : ℕ) (w : List ℕ) → IsBytes w → IsBytes (schedule nk n i w)
unfolding schedule next_word
IsBytes-schedule nk zero i w h = h
IsBytes-schedule nk (suc n) i w h =
    let t = word w (i - 1) in
    IsBytes-schedule nk n (i + 1) (w ++ xor_word (word w (i - nk)) (temp_word nk i t)) (
      IsBytes-append w (xor_word (word w (i - nk)) (temp_word nk i t)) h (
        IsBytes-xor_word (word w (i - nk)) (temp_word nk i t) (IsBytes-word w (i - nk) h)
          (IsBytes-temp_word nk i t (IsBytes-word w (i - 1) h))))

pub IsBytes-key_expansion :
    (nk nr : ℕ) (key : List ℕ) → IsBytes key → IsBytes (key_expansion nk nr key)
unfolding key_expansion
IsBytes-key_expansion nk nr key h =
    IsBytes-schedule nk (4 * (nr + 1) - nk) nk (take (4 * nk) key) (IsBytes-take (4 * nk) key h)
