-- ===== src/Gcm/Spec.antt =====
-- Counter mode and the authentication of AES-GCM over the sixteen-byte blocks of a whole message,
-- for a block cipher under one key, as NIST SP 800-38D has them. Nothing here is from the program.
use myrtus_psm_edge.Common.{
  ℕ, zero, suc, ◌+◌, ◌*◌, ◌/◌, ◌^◌, List, [], ◌∷◌, ◌++◌, length, get_or, take, drop, replicate,
  table, u8, ◌⊕◌,
}
use myrtus_psm_edge.Gcm.Product.{product, block_sum}

-- The message in blocks of sixteen bytes, the last one perhaps shorter.
abbrev pub chunks : ℕ → List ℕ → List (List ℕ)
chunks zero xs = []
chunks (suc fuel) [] = []
chunks (suc fuel) (x ∷ xs) = take 16 (x ∷ xs) ∷ chunks fuel (drop 16 (x ∷ xs))

unfoldable pub blocks : List ℕ → List (List ℕ)
blocks xs = chunks (length xs) xs

-- GHASH from a state on; a short block has zeros behind it.
unfoldable pub ghash : List ℕ → List ℕ → List (List ℕ) → List ℕ
ghash h acc [] = acc
ghash h acc (b ∷ bs) = ghash h (product (block_sum acc b) h) bs

abbrev pub be32 : ℕ → List ℕ
be32 u = u8 (u / 2 ^ 24) ∷ u8 (u / 2 ^ 16) ∷ u8 (u / 2 ^ 8) ∷ u8 u ∷ []

abbrev pub xor_from : ℕ → List ℕ → List ℕ → List ℕ
xor_from i [] s = []
xor_from i (x ∷ b) s = (x ⊕ get_or s i 0) ∷ xor_from (i + 1) b s

-- Counter mode from block number `index` on; `iv` has twelve bytes.
unfoldable pub ctr : (List ℕ → List ℕ) → List ℕ → ℕ → List (List ℕ) → List ℕ
ctr e iv index [] = []
ctr e iv index (b ∷ bs) = xor_from 0 b (e (iv ++ be32 index)) ++ ctr e iv (index + 1) bs

abbrev pub be64 : ℕ → List ℕ
be64 u = be32 (u / 2 ^ 32) ++ be32 u

-- The hash of a whole message: its blocks, then its length in bits behind that of no further data.
unfoldable pub digest : List ℕ → List ℕ → List ℕ
digest h c = ghash h (replicate 16 0) (blocks c ++ (replicate 8 0 ++ be64 (8 * length c)) ∷ [])

-- What a sender stores for a message: the ciphertext, then the tag.
unfoldable pub encrypt : (List ℕ → List ℕ) → List ℕ → List ℕ → List ℕ
encrypt e iv p = ctr e iv 2 (blocks p)

unfoldable pub tag : (List ℕ → List ℕ) → List ℕ → List ℕ → List ℕ
tag e iv c =
    let hash = digest (e (replicate 16 0)) c in
    let mask = e (iv ++ be32 1) in table (λ i. get_or mask i 0 ⊕ get_or hash i 0) 0 16
