-- ===== src/Backend/F3/TransposeRev.antt =====
-- `bs_transpose_rev` of bs.c, word by word: each word of a block is put together from the bits of its lane.
use myrtus_psm_edge.Common.{
  ℕ, ◌+◌, ◌*◌, ◌/◌, ◌%◌, ◌^◌, ◌≤◌, ◌<◌, ◌≡◌, ◌⊎◌, inl, inr, refl, sym, ◌∙◌, ap, arith, true, List,
  get_or, length, replicate, bit_or, ◌==◌, ==_iff, ==_of_eq, ==_of_ne, if◌then◌else◌, lane, lane-lt,
  pack, table, for_range-append, for_range_idle, for_range_shift, all_below, all_below_sound,
  for_range-or, for_range, for_range_view, for_range_congr, u64, ◌<<<◌,
}
use native.Mathlib.Decide.{ℕ_discrete}
use myrtus_psm_edge.Backend.F3.Slices.{spread, bs_transpose_rev}
use myrtus_psm_edge.Backend.F3.Transpose.{
  length-spread, get_or-spread, get_or-spread_outside, get_or-replicate,
}

abbrev pub entry : ℕ → List ℕ → ℕ → ℕ
entry l b k = lane l (get_or b k 0)

abbrev pub stride : ℕ → ℕ → ℕ
stride o j = j * 2 + o

stride_apart : (o a b : ℕ) → stride o a ≡ stride o b → a ≡ b
stride_apart o a b h = omega (arith, h)

abbrev rev_round : List ℕ → ℕ → List ℕ → List ℕ
rev_round b k t = spread (stride (k / 64)) (get_or b k 0) (u64 (1 <<< (k % 64))) t

-- What a round adds to word `o` of block `l`.
abbrev bit_round : List ℕ → ℕ → ℕ → ℕ → ℕ → ℕ
bit_round b l o k x =
    if k / 64 == o then bit_or x (if entry l b k == 0 then 0 else u64 (1 <<< (k % 64))) else x

get_or-rev_round :
    (b : List ℕ) (l o k : ℕ) (t : List ℕ)
    → length t ≡ 128
    → l < 64
    → o < 2
    → k < 128
    → get_or (rev_round b k t) (stride o l) 0 ≡ bit_round b l o k (get_or t (stride o l) 0)
get_or-rev_round b l o k t size p q r = elim (ℕ_discrete (k / 64) o) [
  | yes here ↦
      ap (λ o. get_or (rev_round b k t) (stride o l) 0) (sym here)
      ∙ get_or-spread (stride (k / 64)) (stride_apart (k / 64)) _ _ l t p (omega (arith, size))
      ∙ ap
          (λ o.
            bit_or (get_or t (stride o l) 0) (if entry l b k == 0 then 0 else u64 (1 <<< (k % 64))))
          here
      ∙ sym (ap (λ c. if c then added else get_or t (stride o l) 0) (==_of_eq (k / 64) o here))
  | no away ↦
      get_or-spread_outside (stride (k / 64)) (stride_apart (k / 64)) _ _ (stride o l) t
        (λ j h e. away (omega (arith, e)))
      ∙ sym (ap (λ c. if c then added else get_or t (stride o l) 0) (==_of_ne (k / 64) o away))
]
  where
    added : ℕ
    added = bit_or (get_or t (stride o l) 0) (if entry l b k == 0 then 0 else u64 (1 <<< (k % 64)))

power_table : all_below 64 (λ m. u64 (1 <<< m) == 2 ^ m) ≡ true
unfolding all_below
power_table = refl

power : (m : ℕ) → m < 64 → u64 (1 <<< m) ≡ 2 ^ m
power m h = (==_iff _ _).0 (all_below_sound 64 (λ m. u64 (1 <<< m) == 2 ^ m) m power_table h)

module _ (b : List ℕ) (l o : ℕ) where
  -- The rounds of the words that hold half `o` of the block.
  own_rounds :
      for_range 64 (64 * o + 0) (bit_round b l o) 0
      ≡ pack (table (λ k. entry l b (64 * o + k)) 0 64)
  own_rounds =
      for_range_shift (bit_round b l o) (64 * o) 64 0 0
      ∙ for_range_congr (λ k. bit_round b l o (64 * o + k))
          (λ k x. bit_or x (if entry l b (64 * o + k) == 0 then 0 else 2 ^ k)) 64 0 0
          (λ k x p q. own k x q)
      ∙ for_range-or (λ k. entry l b (64 * o + k)) 64 0 0 (λ k. lane-lt l _) (omega arith)
      ∙ whole (pack (table (λ k. entry l b (64 * o + k)) 0 64))
    where
      own :
          (k x : ℕ)
          → k < 64
          → bit_round b l o (64 * o + k) x
            ≡ bit_or x (if entry l b (64 * o + k) == 0 then 0 else 2 ^ k)
      own k x h =
          ap
            (λ c.
              if c
              then bit_or x
                  (if entry l b (64 * o + k) == 0 then 0 else u64 (1 <<< ((64 * o + k) % 64)))
              else x)
            (==_of_eq ((64 * o + k) / 64) o (omega (arith, h)))
          ∙ ap (λ v. bit_or x (if entry l b (64 * o + k) == 0 then 0 else v))
              (ap (λ m. u64 (1 <<< m)) (place k h) ∙ power k h)
        where
          place : (k : ℕ) → k < 64 → (64 * o + k) % 64 ≡ k
          place k h = omega arith

      whole : (p : ℕ) → 0 + 1 * p ≡ p
      whole p = omega arith

  other_rounds :
      (i x : ℕ)
      → ((k : ℕ) → i ≤ k → k < i + 64 → k / 64 ≡ o → ⊥)
      → for_range 64 i (bit_round b l o) x ≡ x
  other_rounds i x h = for_range_idle (bit_round b l o) 64 i x (λ k z p q.
      ap (λ c. if c then bit_or z (if entry l b k == 0 then 0 else u64 (1 <<< (k % 64))) else z)
        (==_of_ne (k / 64) o (h k p q)))

all_rounds :
    (b : List ℕ) (l o : ℕ)
    → (o ≡ 0) ⊎ (o ≡ 1)
    → for_range 128 0 (bit_round b l o) 0 ≡ pack (table (λ k. entry l b (64 * o + k)) 0 64)
all_rounds b l o (inl e) =
    for_range-append (bit_round b l o) 64 64 0 0
    ∙ other_rounds b l o 64 _ (λ k p q z. omega (arith, e, z))
    ∙ ap (λ i. for_range 64 i (bit_round b l o) 0) (start o e)
    ∙ own_rounds b l o
  where
    start : (o : ℕ) → o ≡ 0 → 0 ≡ 64 * o + 0
    start o e = omega (arith, e)
all_rounds b l o (inr e) =
    for_range-append (bit_round b l o) 64 64 0 0
    ∙ ap (for_range 64 64 (bit_round b l o))
        (other_rounds b l o 0 0 (λ k p q z. omega (arith, e, z)))
    ∙ ap (λ i. for_range 64 i (bit_round b l o) 0) (start o e)
    ∙ own_rounds b l o
  where
    start : (o : ℕ) → o ≡ 1 → 64 ≡ 64 * o + 0
    start o e = omega (arith, e)

pub get_or-bs_transpose_rev :
    (b : List ℕ) (l o : ℕ)
    → l < 64
    → (o ≡ 0) ⊎ (o ≡ 1)
    → get_or (bs_transpose_rev b) (stride o l) 0 ≡ pack (table (λ k. entry l b (64 * o + k)) 0 64)
unfolding bs_transpose_rev
get_or-bs_transpose_rev b l o p c =
    for_range_view (λ t. length t ≡ 128) (λ t. get_or t (stride o l) 0) (rev_round b)
      (bit_round b l o)
      (λ k t h.
        length-spread (stride (k / 64)) (stride_apart (k / 64)) (get_or b k 0)
          (u64 (1 <<< (k % 64))) t
        ∙ h)
      128 0 (λ k t h x y. get_or-rev_round b l o k t h p (small c) y) (replicate 128 0) refl
    ∙ ap (for_range 128 0 (bit_round b l o)) (get_or-replicate 128 (stride o l))
    ∙ all_rounds b l o c
  where
    small : (o ≡ 0) ⊎ (o ≡ 1) → o < 2
    small (inl e) = omega (arith, e)
    small (inr e) = omega (arith, e)
