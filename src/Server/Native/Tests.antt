-- ===== src/Server/Native/Tests.antt =====
-- The theorems on the decryption by OpenSSL, with a concrete one in its place, at two records that split the tag.
use myrtus_psm_edge.Common.{
  ℕ, ◌≡◌, refl, sym, ◌∙◌, ap, ap₂, arith, Bool, true, false, List, [], ◌∷◌, ◌++◌, length, replicate,
  drop, some, ◌==◌, ◌&&◌, ==_iff, all_lt-IsBytes,
}
use myrtus_psm_edge.Gcm.{crypto_verify_16}
use myrtus_psm_edge.Gcm.Spec.{tag}
use myrtus_psm_edge.Gcm.Blocks.{ctr_bytes}
use myrtus_psm_edge.Gcm.Tests.{iv1, key1, loader1}
use myrtus_psm_edge.Server.{Session, saved, serve}
use myrtus_psm_edge.Server.Receive.{short, full}
use myrtus_psm_edge.Server.Cut.{last, more}
use myrtus_psm_edge.Server.Tests.{
  session1, session1-Memory, cipher1, mask1-IsBytes, Serves-f1, Serves-f2,
}
use myrtus_psm_edge.Server.Native.{Evp, serve_native}
use myrtus_psm_edge.Server.Native.Pieces.{Decrypts}
use myrtus_psm_edge.Server.Native.Same.{serve_native_lem, serve-serve_native}

equal_bytes : List ℕ → List ℕ → Bool
equal_bytes [] [] = true
equal_bytes [] (y ∷ ys) = false
equal_bytes (x ∷ xs) [] = false
equal_bytes (x ∷ xs) (y ∷ ys) = (x == y) && equal_bytes xs ys

and_both : (a b : Bool) → (a && b) ≡ true → (a ≡ true) × (b ≡ true)
and_both a b h = ground arith

equal_bytes_sound : (xs ys : List ℕ) → equal_bytes xs ys ≡ true → xs ≡ ys
unfolding equal_bytes
equal_bytes_sound [] [] h = refl
equal_bytes_sound [] (y ∷ ys) h = ground arith
equal_bytes_sound (x ∷ xs) [] h = ground arith
equal_bytes_sound (x ∷ xs) (y ∷ ys) h =
    let both = and_both (x == y) (equal_bytes xs ys) h in
    ap₂ ◌∷◌ ((==_iff x y).0 both.0) (equal_bytes_sound xs ys both.1)

equal_bytes_self : (xs : List ℕ) → equal_bytes xs xs ≡ true
unfolding equal_bytes
equal_bytes_self [] = refl
equal_bytes_self (x ∷ xs) = ap₂ ◌&&◌ ((==_iff x x).1 refl) (equal_bytes_self xs)

-- A context is the ciphertext so far.
abbrev plain : Evp (List ℕ)
plain = record {
  init = λ key iv. some [];
  update = λ c m. (true, (drop (length c) (ctr_bytes cipher1 iv1 2 (c ++ m)), c ++ m));
  final = λ c t. equal_bytes t (tag cipher1 iv1 c);
}

abbrev Same : List ℕ → List ℕ → Type 0
Same c d = c ≡ d

plain-Decrypts : Decrypts plain Same cipher1 iv1
plain-Decrypts = record {
  next = λ c m. c ++ m;
  updates =
      λ c d m h. ap (λ q. (true, (drop (length q) (ctr_bytes cipher1 iv1 2 (q ++ m)), c ++ m))) h;
  continues = λ c d m h. ap (λ q. q ++ m) h;
  verifies = λ c d t h size. (
    λ p. equal_bytes_sound t (tag cipher1 iv1 c) p ∙ ap (tag cipher1 iv1) h,
    λ p. ap (equal_bytes t) (ap (tag cipher1 iv1) h ∙ sym p) ∙ equal_bytes_self t,
  );
}

abbrev fives : ℕ → List ℕ
fives n = replicate n 5

-- The memory of a connection that has begun.
abbrev begun : Session
begun = record session1 { tp = 0; file = [] }

-- The second record releases four of the bytes that the first held back.
serve_native_lem_example :
    serve_native plain iv1 key1 (fives 1024 ∷ fives 12 ∷ []) begun
    ≡ saved
        (ctr_bytes cipher1 iv1 2 (fives 1020))
        (crypto_verify_16 (fives 16) (tag cipher1 iv1 (fives 1020)))
serve_native_lem_example =
    serve_native_lem plain Same cipher1 iv1 plain-Decrypts iv1 key1 (fives 1020) (fives 16)
      (fives 1024 ∷ fives 12 ∷ []) begun [] refl refl refl refl refl refl refl
      (more (fives 1024) (fives 12 ∷ []) refl (last (fives 12) (omega arith) (omega arith))) refl
      refl (omega arith) (all_lt-IsBytes (fives 16) refl) mask1-IsBytes

abbrev two_records : List (ℕ × List ℕ)
two_records = (0x11, fives 1024) ∷ (0x10, fives 12) ∷ []

serve-serve_native_example :
    serve loader1 (serve_native plain iv1 key1) 0x10 0x10 iv1 key1 two_records 0x11 session1
    ≡ serve loader1 (serve_native plain iv1 key1) 0 0x10 iv1 key1 two_records 0 session1
serve-serve_native_example =
    serve-serve_native loader1 0x10 iv1 key1 cipher1 two_records session1 plain Same 0x10 0x11
      (fives 1020) (fives 16) 0x10 session1 [] (λ e. omega (arith, e)) (λ e. omega (arith, e))
      (λ e. omega (arith, e)) Serves-f1 session1-Memory (omega arith) (omega arith)
      (full 0x11 (fives 1024) ((0x10, fives 12) ∷ []) Serves-f2 refl
        (short 0x10 (fives 12) Serves-f1 (omega arith) (omega arith)))
      refl refl (omega arith) (all_lt-IsBytes (fives 16) refl) mask1-IsBytes plain-Decrypts refl
      refl refl refl refl
