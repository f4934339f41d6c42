-- ===== src/Common/Cuts.antt =====
-- Cutting lists that have been cut before.
use Prim.Native.Nat.{ℕ, zero, suc, ◌+◌, ◌-◌, ◌≤◌, ◌<◌}
use mathlib.Core.Path.{◌≡◌, refl, ap, sym, ◌∙◌}
use mathlib.Core.List.{List, [], ◌∷◌, ◌++◌}
use native.Mathlib.Omega.{arith}
use myrtus_psm_edge.Common.Arrays.{length, get_or, take, drop}

module _ {ℓ} {A : Type ℓ} where
  pub take-take : (n m : ℕ) (xs : List A) → n ≤ m → take n (take m xs) ≡ take n xs
  take-take zero m xs h = refl
  take-take (suc n) zero xs h = absurd (omega arith)
  take-take (suc n) (suc m) [] h = refl
  take-take (suc n) (suc m) (x ∷ xs) h = ap (λ l. x ∷ l) (take-take n m xs (omega arith))

  pub drop-take : (n m : ℕ) (xs : List A) → n ≤ m → drop n (take m xs) ≡ take (m - n) (drop n xs)
  drop-take zero m xs h = ap (λ k. take k xs) (omega arith)
  drop-take (suc n) zero xs h = absurd (omega arith)
  drop-take (suc n) (suc m) [] h = sym (take-nil (suc m - suc n))
    where
      take-nil : (k : ℕ) → take {A = A} k [] ≡ []
      take-nil zero = refl
      take-nil (suc k) = refl
  drop-take (suc n) (suc m) (x ∷ xs) h =
      drop-take n m xs (omega arith) ∙ ap (λ k. take k (drop n xs)) (same n m)
    where
      same : (n m : ℕ) → m - n ≡ suc m - suc n
      same n m = omega arith

  pub drop-drop : (n m : ℕ) (xs : List A) → drop n (drop m xs) ≡ drop (m + n) xs
  drop-drop n zero xs = ap (λ k. drop k xs) (omega arith)
  drop-drop zero (suc m) [] = sym (drop-nil (suc m + zero))
    where
      drop-nil : (k : ℕ) → drop {A = A} k [] ≡ []
      drop-nil zero = refl
      drop-nil (suc k) = refl
  drop-drop (suc n) (suc m) [] = sym (drop-nil (suc m + suc n))
    where
      drop-nil : (k : ℕ) → drop {A = A} k [] ≡ []
      drop-nil zero = refl
      drop-nil (suc k) = refl
  drop-drop n (suc m) (x ∷ xs) = drop-drop n m xs ∙ ap (λ k. drop k (x ∷ xs)) (same n m)
    where
      same : (n m : ℕ) → suc (m + n) ≡ suc m + n
      same n m = omega arith

  pub drop-cons :
      (i : ℕ) (xs : List A) (d : A) → i < length xs → drop i xs ≡ get_or xs i d ∷ drop (i + 1) xs
  drop-cons i [] d h = absurd (omega arith)
  drop-cons zero (x ∷ xs) d h = refl
  drop-cons (suc i) (x ∷ xs) d h =
      drop-cons i xs d (omega arith) ∙ ap (λ k. get_or xs i d ∷ drop k (x ∷ xs)) (same i)
    where
      same : (i : ℕ) → suc (i + 1) ≡ suc i + 1
      same i = omega arith

  pub take-length_add : (xs ys : List A) (r : ℕ) → take (length xs + r) (xs ++ ys) ≡ xs ++ take r ys
  take-length_add [] ys r = ap (λ k. take k ys) (zero_left r)
    where
      zero_left : (r : ℕ) → 0 + r ≡ r
      zero_left r = omega arith
  take-length_add (x ∷ xs) ys r =
      ap (λ k. take k (x ∷ (xs ++ ys))) (suc_left (length xs) r)
      ∙ ap (λ t. x ∷ t) (take-length_add xs ys r)
    where
      suc_left : (n r : ℕ) → suc n + r ≡ suc (n + r)
      suc_left n r = omega arith

  drop-nil : (n : ℕ) → drop {A = A} n [] ≡ []
  drop-nil zero = refl
  drop-nil (suc n) = refl

  -- Behind what has been overwritten at the front.
  pub drop-overwritten :
      (xs ys : List A) (n : ℕ) → length xs ≤ n → drop n (xs ++ drop (length xs) ys) ≡ drop n ys
  drop-overwritten [] ys n h = refl
  drop-overwritten (x ∷ xs) ys zero h = absurd (omega arith)
  drop-overwritten (x ∷ xs) [] (suc n) h =
      ap (λ t. drop n (xs ++ t)) (sym (drop-nil (length xs)))
      ∙ drop-overwritten xs [] n (omega arith)
      ∙ drop-nil n
  drop-overwritten (x ∷ xs) (y ∷ ys) (suc n) h = drop-overwritten xs ys n (omega arith)
