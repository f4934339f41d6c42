-- ===== src/Gcm/Hash.antt =====
-- The hash that the program runs over the blocks of a message, against GHASH.
use myrtus_psm_edge.Common.{
  ℕ, zero, suc, ◌+◌, ◌*◌, ◌<◌, ◌≡◌, refl, sym, ◌∙◌, ap, arith, List, [], ◌∷◌, ◌++◌, take, drop,
  length, length-take, replicate, table, xor_byte-lt, IsBytes, subst,
}
use myrtus_psm_edge.Gcm.{addmul}
use myrtus_psm_edge.Gcm.Product.{product, block_sum}
use myrtus_psm_edge.Gcm.Spec.{chunks, blocks, ghash, digest, tag, be32, be64}
use myrtus_psm_edge.Gcm.Blocks.{hash_blocks}
use myrtus_psm_edge.Gcm.Range.{IsBytes-addmul}
use myrtus_psm_edge.Gcm.Multiply.{addmul_refines, length-product}

hash-chunks :
    (h : List ℕ) (fuel : ℕ) (xs acc : List ℕ)
    → length acc ≡ 16
    → (hash_blocks h acc (chunks fuel xs) ≡ ghash h acc (chunks fuel xs))
      × (length (ghash h acc (chunks fuel xs)) ≡ 16)
unfolding hash_blocks ghash
hash-chunks h zero xs acc p = (refl, p)
hash-chunks h (suc fuel) [] acc p = (refl, p)
hash-chunks h (suc fuel) (x ∷ xs) acc p =
    let b = take 16 (x ∷ xs) in
    let rest = chunks fuel (drop 16 (x ∷ xs)) in
    let next = product (block_sum acc b) h in
    let more = hash-chunks h fuel (drop 16 (x ∷ xs)) next (length-product (block_sum acc b) h) in
    (
      ap (λ a. hash_blocks h a rest)
            (addmul_refines acc b h p (omega (arith, length-take 16 (x ∷ xs))))
          ∙ more.0,
      more.1,
    )

ghash-last :
    (h acc b : List ℕ) (bs : List (List ℕ))
    → ghash h acc (bs ++ b ∷ []) ≡ product (block_sum (ghash h acc bs) b) h
unfolding ghash
ghash-last h acc b [] = refl
ghash-last h acc b (a ∷ bs) = ghash-last h (product (block_sum acc a) h) b bs

-- The last step of the hash, on the block of the length.
pub digest_refines :
    (h c : List ℕ)
    → addmul (hash_blocks h (replicate 16 0) (blocks c)) (replicate 8 0 ++ be64 (8 * length c)) 16 h
      ≡ digest h c
unfolding digest blocks
digest_refines h c =
    let run = hash-chunks h (length c) c (replicate 16 0) refl in
    let last = replicate 8 0 ++ be64 (8 * length c) in
    ap (λ a. addmul a last 16 h) run.0
    ∙ addmul_refines (ghash h (replicate 16 0) (blocks c)) last h run.1 (omega arith)
    ∙ sym (ghash-last h (replicate 16 0) last (blocks c))

IsBytes-table : (f : ℕ → ℕ) (n i : ℕ) → ((j : ℕ) → f j < 256) → IsBytes (table f i n)
IsBytes-table f zero i h k = omega arith
IsBytes-table f (suc n) i h zero = h i
IsBytes-table f (suc n) i h (suc k) = IsBytes-table f n (i + 1) h k

-- The tag consists of bytes, when the mask does.
pub IsBytes-tag :
    (e : List ℕ → List ℕ) (iv c : List ℕ) → IsBytes (e (iv ++ be32 1)) → IsBytes (tag e iv c)
unfolding tag
IsBytes-tag e iv c h =
    let k = e (replicate 16 0) in
    let last = replicate 8 0 ++ be64 (8 * length c) in
    IsBytes-table _ 16 0 (λ j. xor_byte-lt _ _ (h j) (
      subst IsBytes (digest_refines k c)
        (IsBytes-addmul (hash_blocks k (replicate 16 0) (blocks c)) last 16 k) j))
