-- ===== src/Common/Fill.antt =====
-- Arrays that are written from the front: the part already written, followed by the rest.
use Prim.Native.Nat.{ℕ, zero, suc, ◌+◌, ◌≤◌, ◌<◌}
use mathlib.Core.Path.{◌≡◌, refl, ap, ap₂, sym, ◌∙◌}
use mathlib.Core.List.{List, [], ◌∷◌, ◌++◌, append_assoc}
use native.Mathlib.Omega.{arith}
use myrtus_psm_edge.Common.Arrays.{length, get_or, set, take, drop, length-append}
use myrtus_psm_edge.Common.Loops.{for_range}

module _ {ℓ} {A : Type ℓ} where
  pub set-append :
      (bs ys : List A) (m : ℕ) (v : A) → set (bs ++ ys) (length bs + m) v ≡ bs ++ set ys m v
  set-append [] ys m v = ap (λ k. set ys k v) (omega arith)
  set-append (b ∷ bs) ys m v =
      ap (λ k. set (b ∷ (bs ++ ys)) k v) (suc_left (length bs) m)
      ∙ ap (λ l. b ∷ l) (set-append bs ys m v)
    where
      suc_left : (n k : ℕ) → suc n + k ≡ suc (n + k)
      suc_left n k = omega arith

  pub get_or-take : (n k : ℕ) (xs : List A) (d : A) → k < n → get_or (take n xs) k d ≡ get_or xs k d
  get_or-take zero k xs d h = absurd (omega arith)
  get_or-take (suc n) k [] d h = refl
  get_or-take (suc n) zero (x ∷ xs) d h = refl
  get_or-take (suc n) (suc k) (x ∷ xs) d h = get_or-take n k xs d (omega arith)

  -- The values of `f` from `i` on.
  abbrev pub table : (ℕ → A) → ℕ → ℕ → List A
  table f i zero = []
  table f i (suc n) = f i ∷ table f (i + 1) n

  pub table_congr :
      (f g : ℕ → A) (n i : ℕ)
      → ((k : ℕ) → i ≤ k → k < i + n → f k ≡ g k)
      → table f i n ≡ table g i n
  table_congr f g zero i h = refl
  table_congr f g (suc n) i h =
      ap₂ ◌∷◌ (h i (omega arith) (omega arith))
        (table_congr f g n (i + 1) (λ k p q. h k (omega arith) (omega arith)))

  pub length-table : (f : ℕ → A) (n i : ℕ) → length (table f i n) ≡ n
  length-table f zero i = refl
  length-table f (suc n) i = ap suc (length-table f n (i + 1))

  -- `for (i = from; …) m[off + i] = f(i)` where the writes begin behind what is written.
  pub fill_table :
      (off : ℕ) (f : ℕ → A) (n i : ℕ) (done g : List A)
      → length done ≡ off + i
      → n ≤ length g
      → for_range n i (λ i m. set m (off + i) (f i)) (done ++ g) ≡ done ++ (table f i n ++ drop n g)
  fill_table off f zero i done g e l = refl
  fill_table off f (suc n) i done [] e l = absurd (omega arith)
  fill_table off f (suc n) i done (y ∷ g) e l =
      ap (for_range n (i + 1) (λ i m. set m (off + i) (f i))) (
        ap (λ k. set (done ++ y ∷ g) k (f i)) place
        ∙ set-append done (y ∷ g) 0 (f i)
        ∙ sym (append_assoc done (f i ∷ []) g))
      ∙ fill_table off f n (i + 1) (done ++ f i ∷ []) g
          (omega (arith, length-append done (f i ∷ []))) (omega arith)
      ∙ append_assoc done (f i ∷ []) (table f (i + 1) n ++ drop n g)
    where
      place : off + i ≡ length done + 0
      place = omega (arith, e)

pub for_range_congr {κ} :
    {S : Type κ} (f g : ℕ → S → S) (n i : ℕ) (s : S)
    → ((k : ℕ) (s : S) → i ≤ k → k < i + n → f k s ≡ g k s)
    → for_range n i f s ≡ for_range n i g s
for_range_congr f g zero i s h = refl
for_range_congr f g (suc n) i s h =
    ap (for_range n (i + 1) f) (h i s (omega arith) (omega arith))
    ∙ for_range_congr f g n (i + 1) (g i s) (λ k s p q. h k s (omega arith) (omega arith))
