-- ===== src/Backend/F3/Circuit.antt =====
-- The S-box circuit as a list of gates, which shows that it works on each lane by itself.
use myrtus_psm_edge.Common.{
  ℕ, zero, suc, ◌-◌, ◌^◌, ◌<◌, ◌≡◌, refl, sym, ◌∙◌, ap, ap₂, true, List, [], ◌∷◌, map, get_or, take,
  length, array_ind, ◌⊕◌, bit_and, ◌==◌, ==_iff, all_below, all_below_sound, lane, lane-zero,
  lane-xor, lane-and, lane-ones, pack, digits_of, slice, digits_of-slice, slice-lt_byte,
}
use myrtus_psm_edge.Backend.Spec
use myrtus_psm_edge.Backend.F2
use myrtus_psm_edge.Backend.F2.Refine
use myrtus_psm_edge.Backend.F3.Sbox.{bs_sbox, gates}

-- A gate takes two values, each named by how many gates before it they stand.
data Gate : Type 0 where
  xor and nxor : ℕ → ℕ → Gate

abbrev output : ℕ → Gate → List ℕ → ℕ
output ones (xor i j) env = get_or env i 0 ⊕ get_or env j 0
output ones (and i j) env = bit_and (get_or env i 0) (get_or env j 0)
output ones (nxor i j) env = ones ⊕ (get_or env i 0 ⊕ get_or env j 0)

abbrev run : ℕ → List Gate → List ℕ → List ℕ
run ones [] env = env
run ones (g ∷ p) env = run ones p (output ones g env ∷ env)

circuit : List Gate
circuit =
    xor 7 4
    ∷ xor 8 3
    ∷ xor 9 3
    ∷ xor 7 5
    ∷ xor 7 5
    ∷ xor 4 0
    ∷ xor 12 11
    ∷ xor 7 1
    ∷ xor 8 1
    ∷ xor 3 2
    ∷ xor 16 12
    ∷ xor 16 13
    ∷ xor 9 8
    ∷ xor 7 2
    ∷ xor 9 3
    ∷ xor 10 3
    ∷ xor 7 0
    ∷ xor 21 17
    ∷ xor 11 0
    ∷ xor 18 0
    ∷ xor 21 20
    ∷ xor 14 0
    ∷ xor 20 0
    ∷ xor 21 13
    ∷ xor 4 7
    ∷ xor 22 9
    ∷ xor 25 14
    ∷ and 14 21
    ∷ and 5 20
    ∷ xor 15 1
    ∷ and 11 30
    ∷ xor 0 3
    ∷ and 29 16
    ∷ and 11 24
    ∷ xor 8 1
    ∷ and 15 18
    ∷ xor 0 3
    ∷ and 36 22
    ∷ and 34 11
    ∷ xor 0 1
    ∷ and 38 30
    ∷ xor 0 3
    ∷ xor 12 13
    ∷ xor 11 19
    ∷ xor 9 10
    ∷ xor 8 3
    ∷ xor 3 6
    ∷ xor 3 5
    ∷ xor 3 8
    ∷ xor 3 24
    ∷ xor 1 0
    ∷ and 2 4
    ∷ xor 4 0
    ∷ xor 6 5
    ∷ xor 4 2
    ∷ and 0 1
    ∷ and 3 5
    ∷ and 10 7
    ∷ and 4 0
    ∷ xor 5 7
    ∷ and 12 11
    ∷ and 10 0
    ∷ xor 11 10
    ∷ xor 15 7
    ∷ xor 5 4
    ∷ xor 15 8
    ∷ xor 4 3
    ∷ xor 2 0
    ∷ xor 4 2
    ∷ xor 5 4
    ∷ xor 4 3
    ∷ xor 2 3
    ∷ and 1 66
    ∷ and 6 65
    ∷ and 8 74
    ∷ and 5 59
    ∷ and 11 67
    ∷ and 13 60
    ∷ and 9 63
    ∷ and 7 52
    ∷ and 12 70
    ∷ and 10 68
    ∷ and 15 59
    ∷ and 17 64
    ∷ and 14 81
    ∷ and 20 63
    ∷ and 22 66
    ∷ and 18 86
    ∷ and 16 84
    ∷ and 21 87
    ∷ xor 2 1
    ∷ xor 14 8
    ∷ xor 19 17
    ∷ xor 19 11
    ∷ xor 13 9
    ∷ xor 19 7
    ∷ xor 7 0
    ∷ xor 24 3
    ∷ xor 20 12
    ∷ xor 20 19
    ∷ xor 20 5
    ∷ xor 14 8
    ∷ xor 27 24
    ∷ xor 26 12
    ∷ xor 25 16
    ∷ xor 23 13
    ∷ xor 23 15
    ∷ xor 23 15
    ∷ xor 23 9
    ∷ xor 19 14
    ∷ xor 19 18
    ∷ xor 19 13
    ∷ xor 18 9
    ∷ xor 4 20
    ∷ xor 8 14
    ∷ xor 18 14
    ∷ xor 18 16
    ∷ xor 18 16
    ∷ xor 16 13
    ∷ xor 17 11
    ∷ xor 23 5
    ∷ nxor 14 4
    ∷ nxor 12 3
    ∷ xor 26 11
    ∷ xor 13 11
    ∷ xor 9 5
    ∷ nxor 22 8
    ∷ nxor 30 13
    ∷ []

gates-run :
    (a b c d e f g h : ℕ)
    → gates a b c d e f g h ≡ take 8 (run (2 ^ 64 - 1) circuit (a ∷ b ∷ c ∷ d ∷ e ∷ f ∷ g ∷ h ∷ []))
unfolding gates circuit
gates-run a b c d e f g h = refl

-- A map that keeps the operations goes through a circuit.
module _ (l : ℕ) (fits : l < 64) where
  get_or-lane : (env : List ℕ) (i : ℕ) → lane l (get_or env i 0) ≡ get_or (map (lane l) env) i 0
  get_or-lane [] i = lane-zero l
  get_or-lane (x ∷ env) zero = refl
  get_or-lane (x ∷ env) (suc i) = get_or-lane env i

  output-lane :
      (g : Gate) (env : List ℕ) → lane l (output (2 ^ 64 - 1) g env) ≡ output 1 g (map (lane l) env)
  output-lane (xor i j) env = lane-xor l _ _ ∙ ap₂ ◌⊕◌ (get_or-lane env i) (get_or-lane env j)
  output-lane (and i j) env = lane-and l _ _ ∙ ap₂ bit_and (get_or-lane env i) (get_or-lane env j)
  output-lane (nxor i j) env =
      lane-xor l _ _
      ∙ ap₂ ◌⊕◌ (lane-ones l fits)
          (lane-xor l _ _ ∙ ap₂ ◌⊕◌ (get_or-lane env i) (get_or-lane env j))

  run-lane :
      (p : List Gate) (env : List ℕ)
      → map (lane l) (run (2 ^ 64 - 1) p env) ≡ run 1 p (map (lane l) env)
  run-lane [] env = refl
  run-lane (g ∷ p) env =
      run-lane p (output (2 ^ 64 - 1) g env ∷ env)
      ∙ ap (λ t. run 1 p (t ∷ map (lane l) env)) (output-lane g env)

  map-take : (n : ℕ) (xs : List ℕ) → map (lane l) (take n xs) ≡ take n (map (lane l) xs)
  map-take zero xs = refl
  map-take (suc n) [] = refl
  map-take (suc n) (x ∷ xs) = ap (λ t. lane l x ∷ t) (map-take n xs)

-- On single bits every byte is tried.
table : all_below 256 (λ x. pack (take 8 (run 1 circuit (digits_of 8 x))) == F2.sub x) ≡ true
unfolding all_below circuit F2.sub
table = refl

-- In each of the 64 lanes of any eight words, the circuit `bs_sbox` gives the S-box of FIPS
-- 197 of the byte in that lane.
pub slice-bs_sbox :
    (l : ℕ) (u : List ℕ) → l < 64 → length u ≡ 8 → slice l (bs_sbox u) ≡ Spec.sbox (slice l u)
unfolding bs_sbox
slice-bs_sbox l u fits size =
    let x = slice l u in
    let bits = ap (λ n. digits_of n x) (sym size) ∙ digits_of-slice l u in
    ap (slice l) (all_words u size)
    ∙ ap pack
        (map-take l fits 8 (run (2 ^ 64 - 1) circuit u) ∙ ap (take 8) (run-lane l fits circuit u))
    ∙ ap (λ t. pack (take 8 (run 1 circuit t))) (sym bits)
    ∙ (==_iff _ _).0 (
        all_below_sound 256 (λ x. pack (take 8 (run 1 circuit (digits_of 8 x))) == F2.sub x) x table
          (slice-lt_byte l u size))
    ∙ Refine.sub-sbox x
  where
    all_words : (u : List ℕ) → length u ≡ 8 → bs_sbox u ≡ take 8 (run (2 ^ 64 - 1) circuit u)
    all_words =
        array_ind 8 (λ u. bs_sbox u ≡ take 8 (run (2 ^ 64 - 1) circuit u))
          (λ a b c d e f g h. gates-run a b c d e f g h)
