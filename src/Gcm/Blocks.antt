-- ===== src/Gcm/Blocks.antt =====
-- Cutting messages into blocks, and the laws of the specification over them.
use native.Mathlib.Decide.{dec_le}
use mathlib.Core.List.{append_assoc, append-nil}
use myrtus_psm_edge.Common.{
  ℕ, zero, suc, ◌+◌, ◌*◌, ◌≤◌, ◌≡◌, refl, sym, ◌∙◌, ap, ap₂, arith, List, [], ◌∷◌, ◌++◌, length,
  get_or, take, drop, length-drop, length-append, length-take, take-append, drop-append, take_of_le,
  drop_of_le, take-append-drop, xor_cancel,
}
use myrtus_psm_edge.Gcm.{addmul}
use myrtus_psm_edge.Gcm.Spec.{chunks, blocks, ctr, xor_from, be32}

-- More fuel than bytes makes no difference.
pub chunks_fuel :
    (f f' : ℕ) (xs : List ℕ) → length xs ≤ f → length xs ≤ f' → chunks f xs ≡ chunks f' xs
chunks_fuel zero zero xs p q = refl
chunks_fuel zero (suc f') [] p q = refl
chunks_fuel zero (suc f') (x ∷ xs) p q = absurd (omega arith)
chunks_fuel (suc f) zero [] p q = refl
chunks_fuel (suc f) zero (x ∷ xs) p q = absurd (omega arith)
chunks_fuel (suc f) (suc f') [] p q = refl
chunks_fuel (suc f) (suc f') (x ∷ xs) p q =
    ap (λ t. take 16 (x ∷ xs) ∷ t)
      (chunks_fuel f f' (drop 16 (x ∷ xs)) (omega (arith, length-drop 16 (x ∷ xs)))
        (omega (arith, length-drop 16 (x ∷ xs))))

pub blocks-cons :
    (x : ℕ) (xs : List ℕ) → blocks (x ∷ xs) ≡ take 16 (x ∷ xs) ∷ blocks (drop 16 (x ∷ xs))
unfolding blocks
blocks-cons x xs =
    ap (λ t. take 16 (x ∷ xs) ∷ t)
      (chunks_fuel (length xs) _ (drop 16 (x ∷ xs)) (omega (arith, length-drop 16 (x ∷ xs)))
        (omega arith))

pub blocks-nil : blocks [] ≡ []
unfolding blocks
blocks-nil = refl

-- A message that ends on a block boundary is cut there.
pub blocks-append :
    (k : ℕ) (xs ys : List ℕ) → length xs ≡ 16 * k → blocks (xs ++ ys) ≡ blocks xs ++ blocks ys
blocks-append zero [] ys e = ap (λ t. t ++ blocks ys) (sym blocks-nil)
blocks-append zero (x ∷ xs) ys e = absurd (omega arith)
blocks-append (suc k) [] ys e = absurd (omega arith)
blocks-append (suc k) (x ∷ xs) ys e =
    blocks-cons x (xs ++ ys)
    ∙ ap₂ (λ b t. b ∷ blocks t) (take-append 16 (x ∷ xs) ys (omega arith))
        (drop-append 16 (x ∷ xs) ys (omega arith))
    ∙ ap (λ t. take 16 (x ∷ xs) ∷ t)
        (blocks-append k (drop 16 (x ∷ xs)) ys (omega (arith, length-drop 16 (x ∷ xs))))
    ∙ ap (λ t. t ++ blocks ys) (sym (blocks-cons x xs))

-- As many blocks as there are sixteens.
pub length-blocks : (k : ℕ) (xs : List ℕ) → length xs ≡ 16 * k → length (blocks xs) ≡ k
length-blocks zero [] e = ap length blocks-nil
length-blocks zero (x ∷ xs) e = absurd (omega arith)
length-blocks (suc k) [] e = absurd (omega arith)
length-blocks (suc k) (x ∷ xs) e =
    ap length (blocks-cons x xs)
    ∙ ap suc (length-blocks k (drop 16 (x ∷ xs)) (omega (arith, length-drop 16 (x ∷ xs))))

-- What `addmul` makes of the blocks of a message, from a state on.
unfoldable pub hash_blocks : List ℕ → List ℕ → List (List ℕ) → List ℕ
hash_blocks h acc [] = acc
hash_blocks h acc (b ∷ bs) = hash_blocks h (addmul acc b (length b) h) bs

pub hash_blocks-append :
    (h acc : List ℕ) (bs cs : List (List ℕ))
    → hash_blocks h acc (bs ++ cs) ≡ hash_blocks h (hash_blocks h acc bs) cs
unfolding hash_blocks
hash_blocks-append h acc [] cs = refl
hash_blocks-append h acc (b ∷ bs) cs = hash_blocks-append h (addmul acc b (length b) h) bs cs

pub length-xor_from : (i : ℕ) (b s : List ℕ) → length (xor_from i b s) ≡ length b
length-xor_from i [] s = refl
length-xor_from i (x ∷ b) s = ap suc (length-xor_from (i + 1) b s)

xor_from_twice : (i : ℕ) (b s : List ℕ) → xor_from i (xor_from i b s) s ≡ b
xor_from_twice i [] s = refl
xor_from_twice i (x ∷ b) s = ap₂ ◌∷◌ (xor_cancel x (get_or s i 0)) (xor_from_twice (i + 1) b s)

module _ (e : List ℕ → List ℕ) (iv : List ℕ) where
  pub ctr-append :
      (index : ℕ) (bs cs : List (List ℕ))
      → ctr e iv index (bs ++ cs) ≡ ctr e iv index bs ++ ctr e iv (index + length bs) cs
  unfolding ctr
  ctr-append index [] cs = ap (λ k. ctr e iv k cs) (omega arith)
  ctr-append index (b ∷ bs) cs =
      ap (λ t. xor_from 0 b (e (iv ++ be32 index)) ++ t)
        (ctr-append (index + 1) bs cs
          ∙ ap (λ k. ctr e iv (index + 1) bs ++ ctr e iv k cs) (omega arith))
      ∙ sym (append_assoc _ (ctr e iv (index + 1) bs) _)

  -- Counter mode on a message.
  abbrev pub ctr_bytes : ℕ → List ℕ → List ℕ
  ctr_bytes index xs = ctr e iv index (blocks xs)

  pub ctr_bytes-cons :
      (index x : ℕ) (xs : List ℕ)
      → ctr_bytes index (x ∷ xs)
        ≡ xor_from 0 (take 16 (x ∷ xs)) (e (iv ++ be32 index))
          ++ ctr_bytes (index + 1) (drop 16 (x ∷ xs))
  unfolding ctr
  ctr_bytes-cons index x xs = ap (ctr e iv index) (blocks-cons x xs)

  pub ctr_bytes-append :
      (k index : ℕ) (xs ys : List ℕ)
      → length xs ≡ 16 * k
      → ctr_bytes index (xs ++ ys) ≡ ctr_bytes index xs ++ ctr_bytes (index + k) ys
  ctr_bytes-append k index xs ys h =
      ap (ctr e iv index) (blocks-append k xs ys h)
      ∙ ctr-append index (blocks xs) (blocks ys)
      ∙ ap (λ n. ctr_bytes index xs ++ ctr_bytes (index + n) ys) (length-blocks k xs h)

  -- The laws by strong induction, on a bound of the length.
  length-ctr_fuel :
      (n index : ℕ) (xs : List ℕ) → length xs ≤ n → length (ctr_bytes index xs) ≡ length xs
  unfolding ctr
  length-ctr_fuel n index [] h = ap (λ b. length (ctr e iv index b)) blocks-nil
  length-ctr_fuel zero index (x ∷ xs) h = absurd (omega arith)
  length-ctr_fuel (suc n) index (x ∷ xs) h = omega (
    arith,
    ap length (ctr_bytes-cons index x xs),
    length-append (xor_from 0 (take 16 (x ∷ xs)) (e (iv ++ be32 index)))
        (ctr_bytes (index + 1) (drop 16 (x ∷ xs))),
    length-xor_from 0 (take 16 (x ∷ xs)) (e (iv ++ be32 index)),
    length-take 16 (x ∷ xs),
    length-drop 16 (x ∷ xs),
    length-ctr_fuel n (index + 1) (drop 16 (x ∷ xs)) (omega (arith, length-drop 16 (x ∷ xs))),
  )

  pub length-ctr_bytes : (index : ℕ) (xs : List ℕ) → length (ctr_bytes index xs) ≡ length xs
  length-ctr_bytes index xs = length-ctr_fuel (length xs) index xs (omega arith)

  -- At most one block.
  pub ctr_bytes_one :
      (index : ℕ) (b : List ℕ)
      → length b ≤ 16
      → ctr_bytes index b ≡ xor_from 0 b (e (iv ++ be32 index))
  unfolding ctr
  ctr_bytes_one index [] h = ap (ctr e iv index) blocks-nil
  ctr_bytes_one index (x ∷ xs) h =
      ctr_bytes-cons index x xs
      ∙ ap₂ (λ b r. xor_from 0 b (e (iv ++ be32 index)) ++ ctr_bytes (index + 1) r)
          (take_of_le 16 (x ∷ xs) h) (drop_of_le 16 (x ∷ xs) h)
      ∙ ap (λ r. xor_from 0 (x ∷ xs) (e (iv ++ be32 index)) ++ ctr e iv (index + 1) r) blocks-nil
      ∙ append-nil _

  ctr_one_twice : (index : ℕ) (b : List ℕ) → length b ≤ 16 → ctr_bytes index (ctr_bytes index b) ≡ b
  ctr_one_twice index b h =
      ap (ctr_bytes index) (ctr_bytes_one index b h)
      ∙ ctr_bytes_one index _ (omega (arith, length-xor_from 0 b (e (iv ++ be32 index))))
      ∙ xor_from_twice 0 b (e (iv ++ be32 index))

  ctr_twice_fuel :
      (n index : ℕ) (xs : List ℕ) → length xs ≤ n → ctr_bytes index (ctr_bytes index xs) ≡ xs
  ctr_twice_fuel zero index xs h = ctr_one_twice index xs (omega arith)
  ctr_twice_fuel (suc n) index xs h = elim (dec_le (length xs) 16) [
    | yes short ↦ ctr_one_twice index xs short
    | no long ↦
        (let front : length (take 16 xs) ≡ 16 * 1 = omega (arith, length-take 16 xs, long) in
          ap (λ t. ctr_bytes index (ctr_bytes index t)) (sym (take-append-drop 16 xs))
          ∙ ap (ctr_bytes index) (ctr_bytes-append 1 index (take 16 xs) (drop 16 xs) front)
          ∙ ctr_bytes-append 1 index _ _ (length-ctr_bytes index (take 16 xs) ∙ front)
          ∙ ap₂ ◌++◌ (ctr_one_twice index (take 16 xs) (omega (arith, front)))
              (ctr_twice_fuel n (index + 1) (drop 16 xs) (omega (arith, length-drop 16 xs)))
          ∙ take-append-drop 16 xs)
  ]

  -- Counter mode undoes itself.
  pub ctr_bytes_twice : (index : ℕ) (xs : List ℕ) → ctr_bytes index (ctr_bytes index xs) ≡ xs
  ctr_bytes_twice index xs = ctr_twice_fuel (length xs) index xs (omega arith)
