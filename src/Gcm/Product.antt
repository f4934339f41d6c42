-- ===== src/Gcm/Product.antt =====
-- The product in the field of GCM, as algorithm 1 of NIST SP 800-38D has it: a block is the polynomial
-- whose coefficient of x^i is its bit i, the high bit of its first byte being bit 0, and products are
-- taken modulo 1 + x + x^2 + x^7 + x^128. Nothing here is from the program.
use myrtus_psm_edge.Common.{
  ℕ, zero, suc, ◌+◌, ◌-◌, ◌*◌, ◌/◌, ◌%◌, ◌^◌, Bool, List, [], ◌∷◌, get_or, replicate, table, ◌⊕◌,
  if◌then◌else◌, ◌==◌, ◌||◌,
}

-- The coefficients of a block.
unfoldable pub coefficients : List ℕ → List ℕ
coefficients b = table (λ i. get_or b (i / 8) 0 / 2 ^ (7 - i % 8) % 2) 0 128

-- The byte of the eight coefficients from `i` on, and the block of 128 of them.
abbrev pub byte_at : List ℕ → ℕ → ℕ
byte_at v i =
    get_or v i 0 * 128
    + get_or v (i + 1) 0 * 64
    + get_or v (i + 2) 0 * 32
    + get_or v (i + 3) 0 * 16
    + get_or v (i + 4) 0 * 8
    + get_or v (i + 5) 0 * 4
    + get_or v (i + 6) 0 * 2
    + get_or v (i + 7) 0

unfoldable pub block_of : List ℕ → List ℕ
block_of v = table (λ k. byte_at v (8 * k)) 0 16

-- x^128 is the sum of x^m for these `m`.
abbrev pub in_modulus : ℕ → Bool
in_modulus m = (m == 0) || (m == 1) || (m == 2) || (m == 7)

abbrev pub before : (ℕ → ℕ) → ℕ → ℕ
before f zero = 0
before f (suc m) = f m

-- The polynomial times x.
unfoldable pub times_x : List ℕ → List ℕ
times_x v =
    table (λ m. before (λ k. get_or v k 0) m ⊕ (if in_modulus m then get_or v 127 0 else 0)) 0 128

unfoldable pub plus : List ℕ → List ℕ → List ℕ
plus v w = table (λ m. get_or v m 0 ⊕ get_or w m 0) 0 128

-- (x0 + x * rest) * y = x0 * y + rest * (x * y)
unfoldable pub times : List ℕ → List ℕ → List ℕ
times [] y = replicate 128 0
times (c ∷ cs) y = let rest = times cs (times_x y) in if c == 0 then rest else plus y rest

unfoldable pub product : List ℕ → List ℕ → List ℕ
product a b = block_of (times (coefficients a) (coefficients b))

-- The sum of a block and one that is perhaps shorter, with zeros behind it.
unfoldable pub block_sum : List ℕ → List ℕ → List ℕ
block_sum a b = table (λ i. get_or a i 0 ⊕ get_or b i 0) 0 16
