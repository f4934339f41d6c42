-- ===== src/Common/Tables.antt =====
-- Arrays that are filled from the front with the values of a function, and reading past an end.
use Prim.Native.Nat.{ℕ, zero, suc, ◌+◌, ◌≤◌, ◌<◌}
use mathlib.Core.Path.{◌≡◌, refl, ap, sym, ◌∙◌}
use mathlib.Core.List.{List, [], ◌∷◌, ◌++◌, append-nil}
use native.Mathlib.Omega.{arith}
use myrtus_psm_edge.Common.Arrays.{length, get_or, set, take, drop, replicate, drop_of_le}
use myrtus_psm_edge.Common.Loops.{for_range}
use myrtus_psm_edge.Common.Fill.{table, fill_table, for_range_congr}
use myrtus_psm_edge.Common.Cuts.{drop-cons}

-- `for (i = 0; i < n; ++i) a[i] = f(i)` over an array of `n` bytes.
pub fill_front :
    (f : ℕ → ℕ) (n : ℕ) (a : List ℕ)
    → length a ≡ n
    → for_range n 0 (λ i a. set a i (f i)) a ≡ table f 0 n
fill_front f n a h =
    for_range_congr _ (λ i a. set a (0 + i) (f i)) n 0 a
      (λ k s p q. ap (λ i. set s i (f k)) (omega arith))
    ∙ fill_table 0 f n 0 [] a (omega arith) (omega arith)
    ∙ ap (λ t. table f 0 n ++ t) (drop_of_le n a (omega arith))
    ∙ append-nil (table f 0 n)

pub table-zero : (n i : ℕ) → table {A = ℕ} (λ j. 0) i n ≡ replicate n 0
table-zero zero i = refl
table-zero (suc n) i = ap (λ l. 0 ∷ l) (table-zero n (i + 1))

-- Reading an array from its front copies it.
pub table-get_or :
    (xs : List ℕ) (n i : ℕ)
    → i + n ≤ length xs
    → table (λ j. get_or xs j 0) i n ≡ take n (drop i xs)
table-get_or xs zero i h = refl
table-get_or xs (suc n) i h =
    ap (λ t. get_or xs i 0 ∷ t) (table-get_or xs n (i + 1) (omega arith))
    ∙ ap (take (suc n)) (sym (drop-cons i xs 0 (omega arith)))

pub get_or_past : (p : List ℕ) (m : ℕ) → length p ≤ m → get_or p m 0 ≡ 0
get_or_past [] m h = refl
get_or_past (c ∷ p) zero h = absurd (omega arith)
get_or_past (c ∷ p) (suc m) h = get_or_past p m (omega arith)

pub get_or-table : (f : ℕ → ℕ) (n i k : ℕ) → k < n → get_or (table f i n) k 0 ≡ f (i + k)
get_or-table f zero i k h = absurd (omega arith)
get_or-table f (suc n) i zero h = ap f (omega arith)
get_or-table f (suc n) i (suc k) h = get_or-table f n (i + 1) k (omega arith) ∙ ap f (omega arith)

pub get_or-table_front : (f : ℕ → ℕ) (n k : ℕ) → k < n → get_or (table f 0 n) k 0 ≡ f k
get_or-table_front f n k h = get_or-table f n 0 k h ∙ ap f (omega arith)
