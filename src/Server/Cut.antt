-- ===== src/Server/Cut.antt =====
-- The bytes of a connection in records, as the client cuts them.
use myrtus_psm_edge.Common.{ℕ, ◌≤◌, ◌<◌, ◌≡◌, List, [], ◌∷◌, ◌++◌, length}

abbrev pub joined : List (List ℕ) → List ℕ
joined [] = []
joined (w ∷ ws) = w ++ joined ws

-- Records that are full but for the last.
pub data Cut : List (List ℕ) → Type 0 where
  ended : Cut []
  last : (w : List ℕ) → 1 ≤ length w → length w < 1024 → Cut (w ∷ [])
  more : (w : List ℕ) (ws : List (List ℕ)) → length w ≡ 1024 → Cut ws → Cut (w ∷ ws)
