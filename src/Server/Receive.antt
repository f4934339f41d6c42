-- ===== src/Server/Receive.antt =====
-- A connection from the handshake to the report: what is saved, and whether the tag is accepted.
use native.Mathlib.Decide.{dec_le}
use mathlib.Core.List.{append_assoc, append-nil}
use myrtus_psm_edge.Common.{
  ℕ, ◌+◌, ◌-◌, ◌^◌, ◌≤◌, ◌<◌, ◌≡◌, refl, sym, ◌∙◌, ap, ap₂, arith, List, [], ◌∷◌, ◌++◌, true,
  length, length-append, length-drop, take, drop, take_of_le, drop_of_le, take-append, drop-append,
  take-append-drop, subst, ◌==◌,
}
use myrtus_psm_edge.Gcm.{Loader}
use myrtus_psm_edge.Server.{
  Session, Progress, Served, going, stopped, overflowed, served, read_record, read_loop,
}
use myrtus_psm_edge.Server.Serves.{Serves}
use myrtus_psm_edge.Server.Finish.{Answer, ends-full}
use myrtus_psm_edge.Server.Short.{ends-split}
use myrtus_psm_edge.Server.Last.{ends-last, ends-empty}
use myrtus_psm_edge.Server.Records.{
  refilled, read_record-full, refilled-Reading, refilled-Tail, Reading, Tail,
}

pub append_cut :
    (xs ys xs' ys' : List ℕ)
    → xs ++ ys ≡ xs' ++ ys'
    → length ys ≡ length ys'
    → (xs ≡ xs') × (ys ≡ ys')
append_cut xs ys xs' ys' h e =
    let same : length xs ≡ length xs' =
      omega (arith, ap length h, length-append xs ys, length-append xs' ys') in
    (
      sym (take_of_le (length xs) xs (omega arith))
          ∙ sym (take-append (length xs) xs ys (omega arith))
          ∙ ap₂ take same h
          ∙ take-append (length xs') xs' ys' (omega arith)
          ∙ take_of_le (length xs') xs' (omega arith),
      ap (λ t. t ++ ys) (sym (drop_of_le (length xs) xs (omega arith)))
          ∙ sym (drop-append (length xs) xs ys (omega arith))
          ∙ ap₂ drop same h
          ∙ drop-append (length xs') xs' ys' (omega arith)
          ∙ ap (λ t. t ++ ys') (drop_of_le (length xs') xs' (omega arith)),
    )

-- The bytes of the records.
abbrev pub content : List (ℕ × List ℕ) → List ℕ
content [] = []
content (r ∷ rs) = r.1 ++ content rs

-- Records as SSL_read_ex hands them over: all full but the last; at each, `mode` fetches a backend
-- that computes `e` under the key `k`.
pub data Records (loader : Loader) (handle : ℕ) (k : List ℕ) (e : List ℕ → List ℕ)
    : List (ℕ × List ℕ) → Type 0 where
  over : Records loader handle k e []
  short :
      (mode : ℕ) (bytes : List ℕ)
      → Serves loader handle k e mode
      → 1 ≤ length bytes
      → length bytes < 1024
      → Records loader handle k e ((mode, bytes) ∷ [])
  full :
      (mode : ℕ) (bytes : List ℕ) (rs : List (ℕ × List ℕ))
      → Serves loader handle k e mode
      → length bytes ≡ 1024
      → Records loader handle k e rs
      → Records loader handle k e ((mode, bytes) ∷ rs)

-- No record yet, or the last one was full.
pub data Phase (e : List ℕ → List ℕ) (d : List ℕ) (s : Session) : Type 0 where
  first : d ≡ [] → (s.ct == 0) ≡ true → Phase e d s
  later : (d' rear : List ℕ) → d ≡ d' ++ rear → Tail e d' rear s → Phase e d s

unfoldable pub loop_going : Loader → List (ℕ × List ℕ) → Progress → Progress
loop_going loader rs (going s) = read_loop loader rs s
loop_going loader rs (stopped s) = stopped s
loop_going loader rs overflowed = overflowed

pub read_loop-cons :
    (loader : Loader) (r : ℕ × List ℕ) (rs : List (ℕ × List ℕ)) (s : Session)
    → read_loop loader (r ∷ rs) s ≡ loop_going loader rs (read_record loader r s)
unfolding read_loop loop_going read_record
read_loop-cons loader r rs s = elim (read_record loader r s) [
  | going s' ↦ refl
  | stopped s' ↦ refl
  | overflowed ↦ refl
]

loop_going-nil : (loader : Loader) (p : Progress) → loop_going loader [] p ≡ p
unfolding read_loop loop_going
loop_going-nil loader (going s) = refl
loop_going-nil loader (stopped s) = refl
loop_going-nil loader overflowed = refl

module _ (loader : Loader) (e : List ℕ → List ℕ) (iv k : List ℕ) (handle : ℕ) where
  expected :
      (c given c' given' : List ℕ) (result : Served)
      → result ≡ Answer e iv k handle c' given'
      → c' ++ given' ≡ c ++ given
      → length given' ≡ length given
      → result ≡ Answer e iv k handle c given
  expected c given c' given' result h same size =
      let both = append_cut c' given' c given same size in
      h ∙ ap₂ (Answer e iv k handle) both.0 both.1

  short_ends :
      (mode : ℕ) (bytes : List ℕ) (s : Session) (d : List ℕ) (n : ℕ) (c given : List ℕ)
      → Serves loader handle k e mode
      → 1 ≤ length bytes
      → length bytes < 1024
      → Reading e iv k handle d n s
      → Phase e d s
      → d ++ bytes ≡ c ++ given
      → length given ≡ 16
      → length d < 2 ^ 60
      → served (read_record loader (mode, bytes) s) ≡ Answer e iv k handle c given
  short_ends mode bytes s d n c given serves pos le v phase same size small =
      elim (dec_le (length bytes) 16) [
        | no long ↦
            (let m = length bytes - 16 in
              expected c given (d ++ take m bytes) (drop m bytes) _
                (ends-last loader e iv k handle mode s d bytes n m v serves (omega (arith, long))
                  (omega (arith, long)) le small)
                (append_assoc d (take m bytes) (drop m bytes)
                  ∙ ap (λ t. d ++ t) (take-append-drop m bytes)
                  ∙ same)
                (omega (arith, length-drop m bytes, long, size)))
        | yes fits ↦ elim phase [
          | first none_yet start ↦
              (let alone = ap (λ t. t ++ bytes) (sym none_yet) ∙ same in
                let whole : length bytes ≡ 16 =
                  omega (arith, ap length alone, length-append c given, size, fits) in
                expected c given [] bytes _
                  (ends-empty loader e iv k handle mode s bytes n
                    (subst (λ t. Reading e iv k handle t n s) none_yet v) start whole)
                  alone (omega (arith, whole, size)))
          | later d' rear cut tail ↦
              (let r = length bytes in
                expected c given (d' ++ take r rear) (drop r rear ++ bytes) _
                  (ends-split e iv k handle loader mode s d' rear bytes n
                    (subst (λ t. Reading e iv k handle t n s) cut v) tail
                    (omega (arith, ap length cut, length-append d' rear, small)) pos fits)
                  (append_assoc d' (take r rear) (drop r rear ++ bytes)
                    ∙ ap (λ t. d' ++ t)
                        (sym (append_assoc (take r rear) (drop r rear) bytes)
                          ∙ ap (λ t. t ++ bytes) (take-append-drop r rear))
                    ∙ sym (append_assoc d' rear bytes)
                    ∙ ap (λ t. t ++ bytes) (sym cut)
                    ∙ same)
                  (omega (
                    arith,
                    length-append (drop r rear) bytes,
                    length-drop r rear,
                    tail.block,
                    fits,
                    size,
                  )))
        ]
      ]

  -- From any point of the stream on.
  pub loop_ends :
      (rs : List (ℕ × List ℕ)) (s : Session) (d : List ℕ) (n : ℕ) (c given : List ℕ)
      → Records loader handle k e rs
      → Reading e iv k handle d n s
      → Phase e d s
      → d ++ content rs ≡ c ++ given
      → length given ≡ 16
      → length c + 16 < 2 ^ 31
      → served (read_loop loader rs s) ≡ Answer e iv k handle c given
  unfolding read_loop loop_going
  loop_ends rs s d n c given over v (first none_yet start) same size small = absurd (
      omega (
        arith,
        ap length same,
        length-append d [],
        length-append c given,
        ap length none_yet,
        size,
      ))
  loop_ends rs s d n c given over v (later d' rear cut tail) same size small =
      expected c given d' rear _
        (ends-full e iv k handle s d' rear n (subst (λ t. Reading e iv k handle t n s) cut v) tail (
          omega (
            arith,
            ap length same,
            length-append d [],
            ap length cut,
            length-append d' rear,
            length-append c given,
            size,
            small,
          )))
        (sym cut ∙ sym (append-nil d) ∙ same) (omega (arith, tail.block, size))
  loop_ends rs s d n c given (short mode bytes serves pos le) v phase same size small =
      let whole = ap (λ t. d ++ t) (sym (append-nil bytes)) ∙ same in
      ap served (
        read_loop-cons loader (mode, bytes) [] s
        ∙ loop_going-nil loader (read_record loader (mode, bytes) s))
      ∙ short_ends mode bytes s d n c given serves pos le v phase whole size (
          omega (arith, ap length whole, length-append d bytes, length-append c given, size, small))
  loop_ends rs s d n c given (full mode bytes rest serves room more) v phase same size small =
      let bound : length d + 1024 < 2 ^ 31 = omega (
        arith,
        ap length same,
        length-append d (bytes ++ content rest),
        length-append bytes (content rest),
        length-append c given,
        room,
        size,
        small,
      ) in
      let front = take 1008 bytes in
      let rear = drop 1008 bytes in
      ap served (
        read_loop-cons loader (mode, bytes) rest s
        ∙ ap (loop_going loader rest)
            (read_record-full loader e iv k handle mode s bytes d n v serves room bound))
      ∙ loop_ends rest (refilled loader e iv k handle s bytes) (d ++ bytes) (n + 64) c given more
          (refilled-Reading loader e iv k handle s bytes d n v room bound)
          (later (d ++ front) rear
            (ap (λ t. d ++ t) (sym (take-append-drop 1008 bytes)) ∙ sym (append_assoc d front rear))
            (refilled-Tail loader e iv k handle s bytes d n v room))
          (append_assoc d bytes (content rest) ∙ same) size small
