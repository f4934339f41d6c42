-- ===== src/Server/Missing.antt =====
-- The reading loop at a full record for which `fetch` finds no backend: `goto outg`.
use mathlib.Core.List.{append_assoc, append-nil}
use myrtus_psm_edge.Common.{
  ℕ, ◌+◌, ◌^◌, ◌≤◌, ◌<◌, ◌≡◌, ◌≢◌, sym, ◌∙◌, ap, arith, List, [], ◌∷◌, ◌++◌, none, length,
  length-append, take, subst,
}
use myrtus_psm_edge.Gcm.{Loader, fetch}
use myrtus_psm_edge.Gcm.Blocks.{ctr_bytes}
use myrtus_psm_edge.Gcm.Stream.{dec_update-missing}
use myrtus_psm_edge.Server.{
  Session, Served, Progress, going, stopped, overflowed, aborted, served, conclude, serve,
  read_loop,
}
use myrtus_psm_edge.Server.Serves.{Serves}
use myrtus_psm_edge.Server.Records.{
  Reading, pending, on_full, full_with, full_record_lem, read_record-full, refilled,
  refilled-Reading,
}
use myrtus_psm_edge.Server.Receive.{content, loop_going, read_loop-cons}
use myrtus_psm_edge.Server.Connection.{Memory, started, serve-conclude, started-Reading}

-- Full records, at each of which `mode` fetches a backend that computes `e` under the key `k`.
pub data Fulls (loader : Loader) (handle : ℕ) (k : List ℕ) (e : List ℕ → List ℕ)
    : List (ℕ × List ℕ) → Type 0 where
  none_yet : Fulls loader handle k e []
  one_more :
      (mode : ℕ) (bytes : List ℕ) (rs : List (ℕ × List ℕ))
      → Serves loader handle k e mode
      → length bytes ≡ 1024
      → Fulls loader handle k e rs
      → Fulls loader handle k e ((mode, bytes) ∷ rs)

module _ (loader : Loader) (e : List ℕ → List ℕ) (iv k : List ℕ) (handle : ℕ) (mode : ℕ)
    (bytes : List ℕ) (more : List (ℕ × List ℕ)) where
  stops :
      (s : Session) (d : List ℕ) (n : ℕ)
      → Reading e iv k handle d n s
      → fetch loader handle mode ≡ none
      → length bytes ≡ 1024
      → served (read_loop loader ((mode, bytes) ∷ more) s) ≡ aborted (ctr_bytes e iv 2 d)
  unfolding full_with loop_going pending
  stops s d n v missing size =
      ap served (
        read_loop-cons loader (mode, bytes) more s
        ∙ ap (loop_going loader more) (
            on_full loader e iv k handle mode s bytes size v.buffer_size
            ∙ full_record_lem loader mode (record s { buffer = bytes })
            ∙ ap (λ r. full_with r (record s { buffer = bytes }))
                (dec_update-missing loader mode s.cx s.outmsg bytes 1024
                  (subst (λ h. fetch loader h mode ≡ none) (sym v.opened) missing))))
      ∙ ap aborted v.written

  stops_after :
      (rs : List (ℕ × List ℕ)) (s : Session) (d : List ℕ) (n : ℕ)
      → Fulls loader handle k e rs
      → Reading e iv k handle d n s
      → fetch loader handle mode ≡ none
      → length bytes ≡ 1024
      → length d + length (content rs) < 2 ^ 31
      → served (read_loop loader (rs ++ ((mode, bytes) ∷ more)) s)
        ≡ aborted (ctr_bytes e iv 2 (d ++ content rs))
  unfolding loop_going
  stops_after rs s d n none_yet v missing size small =
      stops s d n v missing size ∙ ap (λ t. aborted (ctr_bytes e iv 2 t)) (sym (append-nil d))
  stops_after rs s d n (one_more mode' bytes' rest serves room after) v missing size small =
      let bound : length d + 1024 < 2 ^ 31 =
        omega (arith, length-append bytes' (content rest), room, small) in
      ap served (
        read_loop-cons loader (mode', bytes') (rest ++ ((mode, bytes) ∷ more)) s
        ∙ ap (loop_going loader (rest ++ ((mode, bytes) ∷ more)))
            (read_record-full loader e iv k handle mode' s bytes' d n v serves room bound))
      ∙ stops_after rest (refilled loader e iv k handle s bytes') (d ++ bytes') (n + 64) after
          (refilled-Reading loader e iv k handle s bytes' d n v room bound) missing size
          (omega (arith, length-append d bytes', length-append bytes' (content rest), small))
      ∙ ap (λ t. aborted (ctr_bytes e iv 2 t)) (append_assoc d bytes' (content rest))

-- Behind `goto outg` there is no second block.
conclude-aborted :
    (native : List (List ℕ) → Session → Served) (ended : ℕ) (p : Progress) (file : List ℕ)
    → served p ≡ aborted file
    → conclude native ended p ≡ aborted file
conclude-aborted native ended (going s) file h = cc
conclude-aborted native ended (stopped s) file h = h
conclude-aborted native ended overflowed file h = cc

module _ (loader : Loader) (mode : ℕ) (npub key : List ℕ) (e : List ℕ → List ℕ)
    (rs more : List (ℕ × List ℕ)) (s : Session) (native : List (List ℕ) → Session → Served)
    (tested ended : ℕ) where
  -- For any contents of the arrays at the start, when the loader opens the library, the initial
  -- vector has 12 bytes at least and the key 32, `mode` is not zero at `if(mode!=0)`, its value
  -- in ed_init fetches a backend that computes `e` under the key, and so it does at each of
  -- some records of 1024 bytes with fewer than 2^31 bytes in all, and the value at the next
  -- record, of 1024 bytes too, fetches none, be it zero or not: the server gives up without a
  -- verdict on the tag, whatever records follow and whatever `mode` is then, and the file has
  -- all of the records before that one, in counter mode, the bytes that it held back included.
  pub serve-missing :
      (mode' : ℕ) (bytes : List ℕ)
      → tested ≢ 0
      → loader.dlopen ≢ 0
      → Serves loader loader.dlopen (take 32 key) e mode
      → Memory s
      → 12 ≤ length npub
      → 32 ≤ length key
      → Fulls loader loader.dlopen (take 32 key) e rs
      → fetch loader loader.dlopen mode' ≡ none
      → length bytes ≡ 1024
      → length (content rs) < 2 ^ 31
      → serve loader native tested mode npub key (rs ++ ((mode', bytes) ∷ more)) ended s
        ≡ aborted (ctr_bytes e (take 12 npub) 2 (content rs))
  serve-missing mode' bytes external opened serves memory iv_size key_size fulls missing size
        small =
      let all = rs ++ ((mode', bytes) ∷ more) in
      serve-conclude loader mode npub key e s native tested ended all external
      ∙ conclude-aborted native ended (read_loop loader all (started loader mode npub key e s))
          (ctr_bytes e (take 12 npub) 2 (content rs))
          (stops_after loader e (take 12 npub) (take 32 key) loader.dlopen mode' bytes more rs
            (started loader mode npub key e s) [] 0 fulls
            (started-Reading loader mode npub key e s opened serves memory iv_size key_size) missing
            size (omega (arith, small)))
