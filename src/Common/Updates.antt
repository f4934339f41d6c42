-- ===== src/Common/Updates.antt =====
-- Loops that update places of an array which are apart from each other, and loops seen through a function
-- of their state.
use Prim.Native.Nat.{ℕ, zero, suc, ◌+◌, ◌≤◌, ◌<◌, max}
use mathlib.Core.Path.{◌≡◌, refl, ap, ◌∙◌}
use mathlib.Core.Logic.{◌≢◌}
use mathlib.Core.List.{List}
use native.Mathlib.Decide.{ℕ_discrete}
use native.Mathlib.Omega.{arith}
use myrtus_psm_edge.Common.Arrays.{length, get_or, set, length-set, get_or-set_self, get_or-set_ne}
use myrtus_psm_edge.Common.Loops.{for_range}
use myrtus_psm_edge.Common.Tests.{◌==◌, if◌then◌else◌, ==_of_eq, ==_of_ne}

module _ {ℓ} {A : Type ℓ} (d : A) (at : ℕ → ℕ) (apart : (a b : ℕ) → at a ≡ at b → a ≡ b)
    (g : ℕ → A → A) where
  abbrev pub update : ℕ → List A → List A
  update j t = set t (at j) (g j (get_or t (at j) d))

  pub length-updates : (n i : ℕ) (t : List A) → length (for_range n i update t) ≡ length t
  length-updates zero i t = refl
  length-updates (suc n) i t = length-updates n (i + 1) (update i t) ∙ length-set t (at i) _

  pub get_or-updates_outside :
      (n i p : ℕ) (t : List A)
      → ((m : ℕ) → i ≤ m → m < i + n → at m ≢ p)
      → get_or (for_range n i update t) p d ≡ get_or t p d
  get_or-updates_outside zero i p t h = refl
  get_or-updates_outside (suc n) i p t h =
      get_or-updates_outside n (i + 1) p (update i t) (λ m a b. h m (omega arith) (omega arith))
      ∙ get_or-set_ne t (at i) p _ d (h i (omega arith) (omega arith))

  pub get_or-updates :
      (n i m : ℕ) (t : List A)
      → i ≤ m
      → m < i + n
      → at m < length t
      → get_or (for_range n i update t) (at m) d ≡ g m (get_or t (at m) d)
  get_or-updates zero i m t a b h = absurd (omega arith)
  get_or-updates (suc n) i m t a b h = elim (ℕ_discrete i m) [
    | yes here ↦
        get_or-updates_outside n (i + 1) (at m) (update i t) (λ k p q e. omega (arith, apart k m e))
        ∙ ap (λ k. get_or (update k t) (at m) d) here
        ∙ get_or-set_self t (at m) _ d h
    | no away ↦
        get_or-updates n (i + 1) m (update i t) (omega arith) (omega arith)
          (omega (arith, length-set t (at i) (g i (get_or t (at i) d))))
        ∙ ap (g m) (get_or-set_ne t (at i) (at m) _ d (λ e. away (apart i m e)))
  ]

-- A loop seen through `h`, while `P` holds of its state.
pub for_range_view {κ ν μ} :
    {S : Type κ} {R : Type ν} (P : S → Type μ) (h : S → R) (f : ℕ → S → S) (g : ℕ → R → R)
    → ((k : ℕ) (s : S) → P s → P (f k s))
    → (n i : ℕ) → ((k : ℕ) (s : S) → P s → i ≤ k → k < i + n → h (f k s) ≡ g k (h s))
    → (s : S) → P s
    → h (for_range n i f s) ≡ for_range n i g (h s)
for_range_view P h f g keep zero i same s p = refl
for_range_view P h f g keep (suc n) i same s p =
    for_range_view P h f g keep n (i + 1) (λ k s q a b. same k s q (omega arith) (omega arith))
      (f i s) (keep i s p)
    ∙ ap (for_range n (i + 1) g) (same i s p (omega arith) (omega arith))

pub for_range-append {κ} :
    {S : Type κ} (f : ℕ → S → S) (m n i : ℕ) (s : S)
    → for_range (m + n) i f s ≡ for_range n (i + m) f (for_range m i f s)
for_range-append f zero n i s =
    ap (λ k. for_range k i f s) (left n) ∙ ap (λ k. for_range n k f s) (right i)
  where
    left : (n : ℕ) → 0 + n ≡ n
    left n = omega arith

    right : (i : ℕ) → i ≡ i + 0
    right i = omega arith
for_range-append f (suc m) n i s =
    ap (λ k. for_range k i f s) (left m n)
    ∙ for_range-append f m n (i + 1) (f i s)
    ∙ ap (λ k. for_range n k f (for_range m (i + 1) f (f i s))) (right i m)
  where
    left : (m n : ℕ) → suc m + n ≡ suc (m + n)
    left m n = omega arith

    right : (i m : ℕ) → i + 1 + m ≡ i + suc m
    right i m = omega arith

-- Rounds that change nothing.
pub for_range_idle {κ} :
    {S : Type κ} (f : ℕ → S → S) (n i : ℕ) (s : S)
    → ((k : ℕ) (s : S) → i ≤ k → k < i + n → f k s ≡ s)
    → for_range n i f s ≡ s
for_range_idle f zero i s h = refl
for_range_idle f (suc n) i s h =
    ap (for_range n (i + 1) f) (h i s (omega arith) (omega arith))
    ∙ for_range_idle f n (i + 1) s (λ k s a b. h k s (omega arith) (omega arith))

-- The maximum of values of which only one, at `c`, can be above zero.
pub for_range_single :
    (f : ℕ → ℕ) (c n i y : ℕ)
    → i ≤ c
    → c < i + n
    → for_range n i (λ k y. max y (if k == c then f k else 0)) y ≡ max y (f c)
for_range_single f c zero i y a b = absurd (omega arith)
for_range_single f c (suc n) i y a b = elim (ℕ_discrete i c) [
  | yes here ↦
      for_range_idle _ n (i + 1) _ (λ k z p q. rw (==_of_ne k c (λ e. omega arith)) (omega arith))
      ∙ ap (λ t. max y (if t then f i else 0)) (==_of_eq i c here)
      ∙ ap (λ k. max y (f k)) here
  | no away ↦
      for_range_single f c n (i + 1) _ (omega arith) (omega arith)
      ∙ ap (λ t. max (max y (if t then f i else 0)) (f c)) (==_of_ne i c away)
      ∙ none (f c) y
]
  where
    none : (z y : ℕ) → max (max y 0) z ≡ max y z
    none z y = omega arith

-- A loop that starts later.
pub for_range_shift {κ} :
    {S : Type κ} (f : ℕ → S → S) (c n i : ℕ) (s : S)
    → for_range n (c + i) f s ≡ for_range n i (λ k. f (c + k)) s
for_range_shift f c zero i s = refl
for_range_shift f c (suc n) i s =
    ap (λ k. for_range n k f (f (c + i) s)) (next c i) ∙ for_range_shift f c n (i + 1) (f (c + i) s)
  where
    next : (c i : ℕ) → c + i + 1 ≡ c + (i + 1)
    next c i = omega arith
