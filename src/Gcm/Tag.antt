-- ===== src/Gcm/Tag.antt =====
-- `ed_init` and the tag that `dec_final` expects, against the tag of a whole message.
use myrtus_psm_edge.Common.{
  ℕ, ◌+◌, ◌*◌, ◌^◌, ◌≤◌, ◌<◌, ◌≡◌, refl, sym, ◌∙◌, ap, ap₂, arith, List, [], ◌++◌, some, length,
  get_or, set, take, drop, replicate, table, array_ind, length-append, length-take, length-drop,
  ◌≢◌, take-append, take_of_le, fill_table, for_range, for_range_congr, fill_front, table-zero,
  table-get_or, ◌⊕◌, ==_of_ne, u64,
}
use myrtus_psm_edge.Gcm.{
  Loader, EdContext, Op, success, fetch, ed_init, store32, store64, addmul, expected_tag,
}
use myrtus_psm_edge.Gcm.Spec.{be32, be64, blocks, digest, tag}
use myrtus_psm_edge.Gcm.Blocks.{blocks-nil, hash_blocks}
use myrtus_psm_edge.Gcm.Hash.{digest_refines}
use myrtus_psm_edge.Gcm.Update.{store32_lem}
use myrtus_psm_edge.Gcm.Context.{Live}

-- `store64(x + 8, u)` writes the eight last bytes of a block, the high one first.
pub store64_lem : (x : List ℕ) (u : ℕ) → length x ≡ 16 → store64 x 8 u ≡ take 8 x ++ be64 u
unfolding store64
store64_lem x u =
    array_ind 16 (λ x. store64 x 8 u ≡ take 8 x ++ be64 u)
      (λ a b c d e f g h i j k l m n o p. ground arith) x

-- A context that holds the key `k`, whose cipher is `e`, and has read the message `d`.
pub record Holds (e : List ℕ → List ℕ) (iv k d : List ℕ) (cx : EdContext) : Type 0 where
  pub holds_kcopy : cx.kcopy ≡ k
  pub holds_h : cx.h ≡ e (replicate 16 0)
  pub holds_t : cx.t ≡ e (iv ++ be32 1)
  pub holds_finalblock : cx.finalblock ≡ replicate 16 0
  pub holds_accum : cx.accum ≡ hash_blocks (e (replicate 16 0)) (replicate 16 0) (blocks d)
  pub holds_mlen : cx.mlen ≡ length d

-- The tag that a context expects is the tag of the message that it has read.
pub expected_tag_lem :
    (e : List ℕ → List ℕ) (iv k d : List ℕ) (cx : EdContext)
    → Holds e iv k d cx
    → length d < 2 ^ 61
    → expected_tag cx ≡ tag e iv d
unfolding expected_tag tag
expected_tag_lem e iv k d cx v small =
    let h = e (replicate 16 0) in
    let mask = e (iv ++ be32 1) in
    let last : store64 cx.finalblock 8 (u64 (8 * cx.mlen)) ≡ replicate 8 0 ++ be64 (8 * length d) =
      ap₂ (λ x n. store64 x 8 n) v.holds_finalblock (omega (arith, v.holds_mlen))
      ∙ store64_lem (replicate 16 0) (8 * length d) refl in
    let hash : addmul cx.accum (store64 cx.finalblock 8 (u64 (8 * cx.mlen))) 16 cx.h ≡ digest h d =
      ap (λ x. addmul cx.accum x 16 cx.h) last
      ∙ ap₂ (λ a y. addmul a (replicate 8 0 ++ be64 (8 * length d)) 16 y) v.holds_accum v.holds_h
      ∙ digest_refines h d in
    let accum = addmul cx.accum (store64 cx.finalblock 8 (u64 (8 * cx.mlen))) 16 cx.h in
    fill_front (λ i. get_or cx.t i 0 ⊕ get_or accum i 0) 16 (replicate 16 0) refl
    ∙ ap₂ (λ m a. table (λ i. get_or m i 0 ⊕ get_or a i 0) 0 16) v.holds_t hash

pub length-tag : (e : List ℕ → List ℕ) (iv d : List ℕ) → length (tag e iv d) ≡ 16
unfolding tag
length-tag e iv d = refl

pub record Sized (cx : EdContext) : Type 0 where
  pub sized_kcopy : length cx.kcopy ≡ 32
  pub sized_j : length cx.j ≡ 16
  pub sized_accum : length cx.accum ≡ 16
  pub sized_paccum : length cx.paccum ≡ 16
  pub sized_finalblock : length cx.finalblock ≡ 16

zero_block : (x : List ℕ) → length x ≡ 16 → store64 (store64 x 0 0) 8 0 ≡ replicate 16 0
unfolding store64
zero_block x =
    array_ind 16 (λ x. store64 (store64 x 0 0) 8 0 ≡ replicate 16 0)
      (λ a b c d e f g h i j k l m n o p. refl) x

zeros_lem : (a : List ℕ) → length a ≡ 16 → for_range 16 0 (λ i a. set a i 0) a ≡ replicate 16 0
zeros_lem a h = fill_front (λ i. 0) 16 a h ∙ table-zero 16 0

copy_front :
    (n : ℕ) (x a : List ℕ)
    → length a ≡ n
    → n ≤ length x
    → for_range n 0 (λ i a. set a i (get_or x i 0)) a ≡ take n x
copy_front n x a h l = fill_front (λ i. get_or x i 0) n a h ∙ table-get_or x n 0 (omega arith)

copy_iv :
    (x a : List ℕ)
    → length a ≡ 16
    → 12 ≤ length x
    → for_range 12 0 (λ i a. set a i (get_or x i 0)) a ≡ take 12 x ++ drop 12 a
copy_iv x a h l =
    for_range_congr (λ i a. set a i (get_or x i 0)) (λ i a. set a (0 + i) (get_or x i 0)) 12 0 a
      (λ k s p q. ap (λ i. set s i (get_or x k 0)) (from_zero k))
    ∙ fill_table 0 (λ i. get_or x i 0) 12 0 [] a (omega arith) (omega arith)
    ∙ ap (λ t. t ++ drop 12 a) (table-get_or x 12 0 l)
  where
    from_zero : (k : ℕ) → k ≡ 0 + k
    from_zero k = omega arith

-- The first counter block.
first_counter :
    (x a : List ℕ)
    → length a ≡ 16
    → 12 ≤ length x
    → store32 (for_range 12 0 (λ i a. set a i (get_or x i 0)) a) 12 1 ≡ take 12 x ++ be32 1
first_counter x a h l =
    let start = take 12 x ++ drop 12 a in
    ap (λ t. store32 t 12 1) (copy_iv x a h l)
    ∙ store32_lem start 1
        (omega (arith, length-append (take 12 x) (drop 12 a), length-take 12 x, length-drop 12 a))
    ∙ ap (λ t. t ++ be32 1)
        (take-append 12 (take 12 x) (drop 12 a) (omega (arith, length-take 12 x))
          ∙ take_of_le 12 (take 12 x) (omega (arith, length-take 12 x)))

-- With the library open and a backend found, in memory of the declared sizes with any contents,
-- an initial vector of 12 bytes at least and a key of 32, `ed_init` succeeds and leaves the
-- context of the empty message under the first 32 bytes of the key and 12 of the initial
-- vector: the handle, the hash key, the mask of the tag, the counter block of number 1, and
-- both hash states, the last block and the length zero.
pub ed_init-Holds :
    (loader : Loader) (mode : ℕ) (cx : EdContext) (npub key : List ℕ) (op : Op)
    → loader.dlopen ≢ 0
    → fetch loader loader.dlopen mode ≡ some op
    → Sized cx
    → 12 ≤ length npub
    → 32 ≤ length key
    → let r = ed_init loader mode cx npub key in
      (r.0 ≡ success)
      × Holds (λ b. op b (take 32 key)) (take 12 npub) (take 32 key) [] r.1
      × Live (take 12 npub) r.1
      × (r.1.handle ≡ loader.dlopen)
      × (r.1.index ≡ 1)
      × (r.1.j ≡ take 12 npub ++ be32 1)
      × (r.1.accum ≡ replicate 16 0)
      × (r.1.paccum ≡ replicate 16 0)
unfolding ed_init hash_blocks
ed_init-Holds loader mode cx npub key op opened found sized iv_size key_size =
    let iv = take 12 npub in
    let k = copy_front 32 key cx.kcopy sized.sized_kcopy key_size in
    let j = first_counter npub cx.j sized.sized_j iv_size in
    rw (==_of_ne loader.dlopen 0 opened, found)
      (
        refl,
        record {
          holds_kcopy = k;
          holds_h = ap (op (replicate 16 0)) k;
          holds_t = ap₂ op j k;
          holds_finalblock = zero_block cx.finalblock sized.sized_finalblock;
          holds_accum =
              zeros_lem cx.accum sized.sized_accum
              ∙ ap (hash_blocks (op (replicate 16 0) (take 32 key)) (replicate 16 0))
                  (sym blocks-nil);
          holds_mlen = refl;
        },
        record {
          iv_length = omega (arith, length-take 12 npub);
          j_length = ap length j ∙ omega (arith, length-append iv (be32 1), length-take 12 npub);
          j_prefix =
              ap (take 12) j
              ∙ take-append 12 iv (be32 1) (omega (arith, length-take 12 npub))
              ∙ take_of_le 12 iv (omega (arith, length-take 12 npub));
        },
        refl,
        refl,
        j,
        zeros_lem cx.accum sized.sized_accum,
        zeros_lem cx.paccum sized.sized_paccum,
      )
