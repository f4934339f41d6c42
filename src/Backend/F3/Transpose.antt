-- ===== src/Backend/F3/Transpose.antt =====
-- `bs_transpose` of bs.c, bit by bit: which bit of the blocks each lane of each word is.
use myrtus_psm_edge.Common.{
  ℕ, zero, suc, ◌+◌, ◌*◌, ◌^◌, ◌<◌, ◌≡◌, ◌⊎◌, inl, inr, refl, sym, ◌∙◌, ap, arith, Bool, true,
  false, subst, List, get_or, length, replicate, bit_or, ◌==◌, ==_iff, if◌then◌else◌, all_below,
  all_below_sound, lane, lane-lt, lane-zero, lane-or_max, for_range, for_range_inv, for_range_view,
  for_range_single, get_or-updates, get_or-updates_outside, length-updates, tested_bit,
}
use Prim.Native.Nat.{min, max}
use myrtus_psm_edge.Backend.F3.Slices.{pick, int_bit, spread, bs_transpose, bs_transpose_dst}

abbrev kept : ℕ → ℕ → ℕ → ℕ
kept j w v = if lane j w == 0 then 0 else v

pub pick-kept : (w j v : ℕ) → pick w j v ≡ kept j w v
pick-kept w j v = tested_bit j w v

module _ (at : ℕ → ℕ) (apart : (a b : ℕ) → at a ≡ at b → a ≡ b) (w v : ℕ) where
  pub length-spread : (t : List ℕ) → length (spread at w v t) ≡ length t
  unfolding spread
  length-spread t = length-updates 0 at apart (λ j x. bit_or x (pick w j v)) 64 0 t

  pub get_or-spread :
      (j : ℕ) (t : List ℕ)
      → j < 64
      → at j < length t
      → get_or (spread at w v t) (at j) 0 ≡ bit_or (get_or t (at j) 0) (kept j w v)
  unfolding spread
  get_or-spread j t h inside =
      get_or-updates 0 at apart (λ j x. bit_or x (pick w j v)) 64 0 j t (omega arith) (omega arith)
        inside
      ∙ ap (bit_or (get_or t (at j) 0)) (pick-kept w j v)

  pub get_or-spread_outside :
      (p : ℕ) (t : List ℕ)
      → ((j : ℕ) → j < 64 → at j ≡ p → ⊥)
      → get_or (spread at w v t) p 0 ≡ get_or t p 0
  unfolding spread
  get_or-spread_outside p t h =
      get_or-updates_outside 0 at apart (λ j x. bit_or x (pick w j v)) 64 0 p t
        (λ m a b. h m (omega arith))

abbrev half : ℕ → ℕ → ℕ
half i j = i * 2 ^ 6 + j

half_apart : (i a b : ℕ) → half i a ≡ half i b → a ≡ b
half_apart i a b h = omega (arith, h)

abbrev transpose_block : List ℕ → ℕ → List ℕ → List ℕ
transpose_block blocks k t =
    for_range 2 0 (λ i t. spread (half i) (get_or blocks (k * 2 + i) 0) (int_bit k) t) t

module _ (blocks : List ℕ) (k : ℕ) (t : List ℕ) (size : length t ≡ 128) where
  first : List ℕ
  first = spread (half 0) (get_or blocks (k * 2 + 0) 0) (int_bit k) t

  length-first : length first ≡ 128
  unfolding first
  length-first =
      length-spread (half 0) (half_apart 0) (get_or blocks (k * 2 + 0) 0) (int_bit k) t ∙ size

  length-transpose_block : length (transpose_block blocks k t) ≡ 128
  unfolding first
  length-transpose_block =
      length-spread (half 1) (half_apart 1) (get_or blocks (k * 2 + 1) 0) (int_bit k) first
      ∙ length-first

  get_or-transpose_block :
      (i j : ℕ)
      → j < 64
      → (i ≡ 0) ⊎ (i ≡ 1)
      → get_or (transpose_block blocks k t) (half i j) 0
        ≡ bit_or (get_or t (half i j) 0) (kept j (get_or blocks (k * 2 + i) 0) (int_bit k))
  unfolding first
  get_or-transpose_block i j h (inl e) =
      subst
        (λ i.
          get_or (transpose_block blocks k t) (half i j) 0
          ≡ bit_or (get_or t (half i j) 0) (kept j (get_or blocks (k * 2 + i) 0) (int_bit k)))
        (sym e)
        (get_or-spread_outside (half 1) (half_apart 1) (get_or blocks (k * 2 + 1) 0) (int_bit k)
            (half 0 j) first (λ m p q. omega (arith, q))
          ∙ get_or-spread (half 0) (half_apart 0) (get_or blocks (k * 2 + 0) 0) (int_bit k) j t h
              (omega (arith, size)))
  get_or-transpose_block i j h (inr e) =
      subst
        (λ i.
          get_or (transpose_block blocks k t) (half i j) 0
          ≡ bit_or (get_or t (half i j) 0) (kept j (get_or blocks (k * 2 + i) 0) (int_bit k)))
        (sym e)
        (get_or-spread (half 1) (half_apart 1) (get_or blocks (k * 2 + 1) 0) (int_bit k) j first h
            (omega (arith, length-first))
          ∙ ap (λ x. bit_or x (kept j (get_or blocks (k * 2 + 1) 0) (int_bit k)))
              (get_or-spread_outside (half 0) (half_apart 0) (get_or blocks (k * 2 + 0) 0)
                (int_bit k) (half 1 j) t (λ m p q. omega (arith, q))))

-- Which block a bit stands for: 32 bits of an `int` hold the first 31, and the sign is extended.
int_bit_table :
    all_below 64 (λ l. all_below 64 (λ k. lane l (int_bit k) == (if k == min l 31 then 1 else 0)))
    ≡ true
unfolding all_below lane
int_bit_table = refl

lane-int_bit : (l k : ℕ) → l < 64 → k < 64 → lane l (int_bit k) ≡ (if k == min l 31 then 1 else 0)
lane-int_bit l k p q = (==_iff _ _).0 (
    all_below_sound 64 (λ k. lane l (int_bit k) == (if k == min l 31 then 1 else 0)) k
      (all_below_sound 64
        (λ l. all_below 64 (λ k. lane l (int_bit k) == (if k == min l 31 then 1 else 0))) l
        int_bit_table p)
      q)

if_same : (b : Bool) → if◌then◌else◌ {A = ℕ} b 0 0 ≡ 0
if_same true = refl
if_same false = refl

lane-kept :
    (l k j w : ℕ)
    → l < 64
    → k < 64
    → lane l (kept j w (int_bit k)) ≡ (if k == min l 31 then lane j w else 0)
lane-kept l k j w p q = go (bit (lane j w) (lane-lt j w))
  where
    bit : (b : ℕ) → b < 2 → (b ≡ 0) ⊎ (b ≡ 1)
    bit b h = omega arith

    go :
        (lane j w ≡ 0) ⊎ (lane j w ≡ 1)
        → lane l (kept j w (int_bit k)) ≡ (if k == min l 31 then lane j w else 0)
    go (inl e) = rw e (lane-zero l ∙ sym (if_same (k == min l 31)))
    go (inr e) = rw e (lane-int_bit l k p q)

pub get_or-replicate : (n p : ℕ) → get_or (replicate {A = ℕ} n 0) p 0 ≡ 0
get_or-replicate zero p = refl
get_or-replicate (suc n) zero = refl
get_or-replicate (suc n) (suc p) = get_or-replicate n p

pub lane-bs_transpose :
    (l i j : ℕ) (blocks : List ℕ)
    → l < 64
    → j < 64
    → (i ≡ 0) ⊎ (i ≡ 1)
    → lane l (get_or (bs_transpose blocks) (half i j) 0)
      ≡ lane j (get_or blocks (min l 31 * 2 + i) 0)
unfolding bs_transpose bs_transpose_dst
lane-bs_transpose l i j blocks p q c =
    ap (lane l) (
      for_range_view (λ t. length t ≡ 128) (λ t. get_or t (half i j) 0) (transpose_block blocks)
        (λ k x. bit_or x (kept j (get_or blocks (k * 2 + i) 0) (int_bit k)))
        (length-transpose_block blocks) 64 0
        (λ k t s a b. get_or-transpose_block blocks k t s i j q c) (replicate 128 0) refl)
    ∙ for_range_view {0, 0, 0} (λ x. Unit) (lane l)
        (λ k x. bit_or x (kept j (get_or blocks (k * 2 + i) 0) (int_bit k)))
        (λ k y. max y (if k == min l 31 then lane j (get_or blocks (k * 2 + i) 0) else 0))
        (λ k x u. tt) 64 0
        (λ k x u a b. lane-or_max l x _ ∙ ap (max (lane l x)) (lane-kept l k j _ p b)) _ tt
    ∙ for_range_single (λ k. lane j (get_or blocks (k * 2 + i) 0)) (min l 31) 64 0 _ (omega arith)
        (omega arith)
    ∙ ap (λ x. max x (lane j (get_or blocks (min l 31 * 2 + i) 0)))
        (ap (lane l) (get_or-replicate 128 (half i j)) ∙ lane-zero l)
    ∙ from_zero (lane j (get_or blocks (min l 31 * 2 + i) 0))
  where
    from_zero : (x : ℕ) → max 0 x ≡ x
    from_zero x = omega arith

pub length-bs_transpose : (blocks : List ℕ) → length (bs_transpose blocks) ≡ 128
unfolding bs_transpose bs_transpose_dst
length-bs_transpose blocks =
    for_range_inv (λ t. length t ≡ 128) (transpose_block blocks) (length-transpose_block blocks) 64
      0 (replicate 128 0) refl
