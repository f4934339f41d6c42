-- ===== src/Common/Loops.antt =====
-- Counted loops: `for (i = from; rounds more; i++) state = body(i, state)`.
use Prim.Native.Nat.{ℕ, zero, suc, ◌+◌}

module _ {ℓ} {S : Type ℓ} where
  abbrev pub for_range : ℕ → ℕ → (ℕ → S → S) → S → S
  for_range zero i body s = s
  for_range (suc rounds) i body s = for_range rounds (i + 1) body (body i s)

  -- An invariant that each round keeps holds at the end.
  pub for_range_inv {κ} :
      (P : S → Type κ) (body : ℕ → S → S)
      → ((i : ℕ) (s : S) → P s → P (body i s))
      → (rounds i : ℕ) (s : S) → P s
      → P (for_range rounds i body s)
  for_range_inv P body keep zero i s h = h
  for_range_inv P body keep (suc rounds) i s h =
      for_range_inv P body keep rounds (i + 1) (body i s) (keep i s h)
