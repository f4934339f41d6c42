-- ===== src/Backend/Spec/Schedule.antt =====
-- Arrays that are filled from the front: the part already written, followed by what C leaves
-- uninitialised. Writing one more word extends the first part and reads only from it.
use mathlib.Core.List.{append_assoc, append-nil}
use myrtus_psm_edge.Common.{
  ℕ, zero, suc, ◌+◌, ◌*◌, ◌≤◌, ◌<◌, ◌≡◌, refl, sym, ◌∙◌, ap, ap₂, arith, List, [], ◌∷◌, ◌++◌,
  for_range, get_or, set, take, length, length-append, ◌⊕◌,
}
use myrtus_psm_edge.Backend.Spec.{next_word, word, schedule}
use myrtus_psm_edge.Backend.Spec.Blocks.{◌&≡◌}

pub get_or-append : (bs ys : List ℕ) (k : ℕ) → k < length bs → get_or (bs ++ ys) k 0 ≡ get_or bs k 0
get_or-append [] ys k h = absurd (omega arith)
get_or-append (b ∷ bs) ys zero h = refl
get_or-append (b ∷ bs) ys (suc k) h = get_or-append bs ys k (omega arith)

set-append : (bs ys : List ℕ) (m v : ℕ) → set (bs ++ ys) (length bs + m) v ≡ bs ++ set ys m v
set-append [] ys m v = ap (λ k. set ys k v) (omega arith)
set-append (b ∷ bs) ys m v =
    ap (λ k. set (b ∷ (bs ++ ys)) k v) (suc_left (length bs) m)
    ∙ ap (λ l. b ∷ l) (set-append bs ys m v)
  where
    suc_left : (n k : ℕ) → suc n + k ≡ suc (n + k)
    suc_left n k = omega arith

-- One byte stored `m` places behind the written part, from a read inside that part.
store_step :
    (bs ys : List ℕ) (j m k' k t : ℕ)
    → j ≡ length bs + m
    → k' ≡ k
    → k < length bs
    → set (bs ++ ys) j (get_or (bs ++ ys) k' 0 ⊕ t) ≡ bs ++ set ys m (get_or bs k 0 ⊕ t)
store_step bs ys j m k' k t ej ek h =
    ap₂ (λ a b. set (bs ++ ys) a (b ⊕ t)) ej
      (ap (λ a. get_or (bs ++ ys) a 0) ek ∙ get_or-append bs ys k h)
    ∙ set-append bs ys m (get_or bs k 0 ⊕ t)

-- A word stored behind the written part.
module _ (bs g : List ℕ) (y0 y1 y2 y3 k : ℕ) (inside : k + 4 ≤ length bs) where
  pub store_word :
      (j0 j1 j2 j3 k0 k1 k2 k3 t0 t1 t2 t3 : ℕ)
      → j0 ≡ length bs + 0
      → j1 ≡ length bs + 1
      → j2 ≡ length bs + 2
      → j3 ≡ length bs + 3
      → k0 ≡ k
      → k1 ≡ k + 1
      → k2 ≡ k + 2
      → k3 ≡ k + 3
      → let r0 = bs ++ y0 ∷ y1 ∷ y2 ∷ y3 ∷ g in
        let r1 = set r0 j0 (get_or r0 k0 0 ⊕ t0) in
        let r2 = set r1 j1 (get_or r1 k1 0 ⊕ t1) in
        let r3 = set r2 j2 (get_or r2 k2 0 ⊕ t2) in
        set r3 j3 (get_or r3 k3 0 ⊕ t3)
        ≡ bs
          ++ (get_or bs k 0 ⊕ t0)
            ∷ (get_or bs (k + 1) 0 ⊕ t1)
            ∷ (get_or bs (k + 2) 0 ⊕ t2)
            ∷ (get_or bs (k + 3) 0 ⊕ t3)
            ∷ g
  store_word j0 j1 j2 j3 k0 k1 k2 k3 t0 t1 t2 t3 e0 e1 e2 e3 f0 f1 f2 f3 =
      ap (λ r. put j3 k3 t3 (put j2 k2 t2 (put j1 k1 t1 r)))
        (store_step bs _ j0 0 k0 k t0 e0 f0 (omega arith))
      ∙ ap (λ r. put j3 k3 t3 (put j2 k2 t2 r))
          (store_step bs _ j1 1 k1 (k + 1) t1 e1 f1 (omega arith))
      ∙ ap (put j3 k3 t3) (store_step bs _ j2 2 k2 (k + 2) t2 e2 f2 (omega arith))
      ∙ store_step bs _ j3 3 k3 (k + 3) t3 e3 f3 (omega arith)
    where
      put : ℕ → ℕ → ℕ → List ℕ → List ℕ
      put j k' t r = set r j (get_or r k' 0 ⊕ t)

-- Four bytes read from the written part are a word of it.
pub read_word :
    (bs g : List ℕ) (i k0 k1 k2 k3 : ℕ)
    → 4 * i + 4 ≤ length bs
    → k0 ≡ 4 * i
    → k1 ≡ 4 * i + 1
    → k2 ≡ 4 * i + 2
    → k3 ≡ 4 * i + 3
    → get_or (bs ++ g) k0 0
        ∷ get_or (bs ++ g) k1 0
        ∷ get_or (bs ++ g) k2 0
        ∷ get_or (bs ++ g) k3 0
        ∷ []
      ≡ word bs i
read_word bs g i k0 k1 k2 k3 h e0 e1 e2 e3 =
    read k0 _ e0 (omega arith)
    &≡ read k1 _ e1 (omega arith)
    &≡ read k2 _ e2 (omega arith)
    &≡ read k3 _ e3 (omega arith)
    &≡ refl
  where
    read : (k' k : ℕ) → k' ≡ k → k < length bs → get_or (bs ++ g) k' 0 ≡ get_or bs k 0
    read k' k e p = ap (λ a. get_or (bs ++ g) a 0) e ∙ get_or-append bs g k p

pub length-next_word : (nk i : ℕ) (w : List ℕ) → length (next_word nk i w) ≡ 4
unfolding next_word
length-next_word nk i w = refl

abbrev pub gets : List ℕ → ℕ → ℕ → List ℕ
gets key i zero = []
gets key i (suc n) = get_or key i 0 ∷ gets key (i + 1) n

gets-cons : (x : ℕ) (xs : List ℕ) (i n : ℕ) → gets (x ∷ xs) (suc i) n ≡ gets xs i n
gets-cons x xs i zero = refl
gets-cons x xs i (suc n) =
    refl &≡ (ap (λ k. gets (x ∷ xs) k n) (omega arith) ∙ gets-cons x xs (i + 1) n)

-- The first bytes of an array, read one by one.
pub gets-take : (n : ℕ) (key : List ℕ) → n ≤ length key → gets key 0 n ≡ take n key
gets-take zero key h = refl
gets-take (suc n) [] h = absurd (omega arith)
gets-take (suc n) (x ∷ key) h = refl &≡ (gets-cons x key 0 n ∙ gets-take n key (omega arith))

-- A loop whose round `i` writes word `i` of the schedule fills the array with the schedule.
module _ (nk hi : ℕ) (f : ℕ → List ℕ → List ℕ)
    (fills : (i : ℕ) (bs g : List ℕ) (y0 y1 y2 y3 : ℕ)
      → nk ≤ i
      → i < hi
      → length bs ≡ 4 * i
      → f i (bs ++ y0 ∷ y1 ∷ y2 ∷ y3 ∷ g) ≡ bs ++ (next_word nk i bs ++ g)) where
  pub fill_schedule :
      (n i : ℕ) (bs g : List ℕ)
      → nk ≤ i
      → i + n ≤ hi
      → length bs ≡ 4 * i
      → length g ≡ 4 * n
      → for_range n i f (bs ++ g) ≡ schedule nk n i bs
  unfolding schedule
  fill_schedule zero i bs [] p q e l = append-nil bs
  fill_schedule zero i bs (y ∷ g) p q e l = absurd (omega arith)
  fill_schedule (suc n) i bs [] p q e l = absurd (omega arith)
  fill_schedule (suc n) i bs (y0 ∷ []) p q e l = absurd (omega arith)
  fill_schedule (suc n) i bs (y0 ∷ y1 ∷ []) p q e l = absurd (omega arith)
  fill_schedule (suc n) i bs (y0 ∷ y1 ∷ y2 ∷ []) p q e l = absurd (omega arith)
  fill_schedule (suc n) i bs (y0 ∷ y1 ∷ y2 ∷ y3 ∷ g) p q e l =
      ap (for_range n (i + 1) f)
        (fills i bs g y0 y1 y2 y3 p (omega arith) e ∙ sym (append_assoc bs (next_word nk i bs) g))
      ∙ fill_schedule n (i + 1) (bs ++ next_word nk i bs) g (omega arith) (omega arith)
          (omega (arith, length-append bs (next_word nk i bs), length-next_word nk i bs))
          (omega arith)
