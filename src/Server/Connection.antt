-- ===== src/Server/Connection.antt =====
-- A connection from the keys on: what the server saves, and whether it accepts the tag.
use myrtus_psm_edge.Common.{
  ℕ, ◌+◌, ◌^◌, ◌≤◌, ◌<◌, ◌≡◌, ◌≢◌, refl, sym, ◌∙◌, ap, ap₂, arith, List, [], ◌++◌, length,
  length-append, length-take, take, replicate, false, if◌then◌else◌, ◌==◌, ==_of_ne, [],
}
use myrtus_psm_edge.Gcm.{Loader, EdContext, success, ed_init, crypto_verify_16}
use myrtus_psm_edge.Gcm.Spec.{be32, ctr, encrypt, tag}
use myrtus_psm_edge.Gcm.Verify.{crypto_verify_16_self}
use myrtus_psm_edge.Gcm.Blocks.{
  blocks-nil, ctr_bytes, ctr_bytes_twice, length-ctr_bytes, hash_blocks,
}
use myrtus_psm_edge.Gcm.Tag.{length-tag, Holds, Sized, ed_init-Holds}
use myrtus_psm_edge.Server.{
  Session, Served, Progress, going, stopped, overflowed, saved, twice, unverified, served, received,
  conclude, finish, read_loop, serve,
}
use myrtus_psm_edge.Server.Serves.{Serves}
use myrtus_psm_edge.Server.Records.{Reading, pending}
use myrtus_psm_edge.Server.Receive.{first, Records, content, loop_ends}

-- The memory that the server starts in: any bytes, in arrays of the declared sizes.
pub record Memory (s : Session) : Type 0 where
  pub sized : Sized s.cx
  pub outmsg_size : length s.outmsg ≡ 1024
  pub buffer_size : length s.buffer ≡ 1024
  pub tag_size : length s.tag ≡ 32

-- The context for `e`, which the fetched backend computes.
pub Holds-Serves :
    (loader : Loader) (handle : ℕ) (k : List ℕ) (e : List ℕ → List ℕ) (iv : List ℕ) (mode : ℕ)
    (cx : EdContext)
    → (v : Serves loader handle k e mode) → length iv ≡ 12
    → Holds (λ b. v.op b k) iv k [] cx
    → Holds e iv k [] cx
unfolding hash_blocks
Holds-Serves loader handle k e iv mode cx v iv_size h = record {
  holds_kcopy = h.holds_kcopy;
  holds_h = h.holds_h ∙ v.computes (replicate 16 0) refl;
  holds_t =
      h.holds_t ∙ v.computes (iv ++ be32 1) (omega (arith, length-append iv (be32 1), iv_size));
  holds_finalblock = h.holds_finalblock;
  holds_accum =
      h.holds_accum
      ∙ ap (λ b. hash_blocks (v.op (replicate 16 0) k) (replicate 16 0) b) blocks-nil
      ∙ ap (λ b. hash_blocks (e (replicate 16 0)) (replicate 16 0) b) (sym blocks-nil);
  holds_mlen = h.holds_mlen;
}

module _ (loader : Loader) (mode : ℕ) (npub key : List ℕ) (e : List ℕ → List ℕ) (s : Session) where
  -- The session when the first record is read.
  abbrev pub started : Session
  started = record s {
    cx = (ed_init loader mode s.cx npub key).1;
    tp = 0;
    ct = 0;
    part = false;
    file = [];
  }

  pub started-Reading :
      loader.dlopen ≢ 0
      → Serves loader loader.dlopen (take 32 key) e mode
      → Memory s
      → 12 ≤ length npub
      → 32 ≤ length key
      → Reading e (take 12 npub) (take 32 key) loader.dlopen [] 0 started
  unfolding pending ctr
  started-Reading opened serves memory iv_size key_size =
      let iv = take 12 npub in
      let init =
        ed_init-Holds loader mode s.cx npub key serves.op opened serves.found memory.sized iv_size
          key_size in
      record {
        holds =
            Holds-Serves loader loader.dlopen (take 32 key) e iv mode started.cx serves
              (omega (arith, length-take 12 npub)) init.1;
        live = init.2;
        opened = init.3;
        cut = refl;
        next = init.4;
        out_size = memory.outmsg_size;
        buffer_size = memory.buffer_size;
        tag_room = memory.tag_size;
        at_front = refl;
        no_part = refl;
        counts = refl;
        written = sym (ap (ctr e iv 2) blocks-nil);
      }

  conclude-served :
      (native : List (List ℕ) → Session → Served) (ended : ℕ) (p : Progress)
      → ended ≢ 0
      → conclude native ended p ≡ served p
  conclude-served native ended (going s) h =
      ap (λ b. if b then twice (finish s) (native [] s) else saved s.file (finish s))
        (==_of_ne ended 0 h)
  conclude-served native ended (stopped s) h = refl
  conclude-served native ended overflowed h = refl

  -- The first block runs when `mode` is not zero at its test.
  pub serve-conclude :
      (native : List (List ℕ) → Session → Served) (tested ended : ℕ) (rs : List (ℕ × List ℕ))
      → tested ≢ 0
      → serve loader native tested mode npub key rs ended s
        ≡ conclude native ended (read_loop loader rs started)
  unfolding serve
  serve-conclude native tested ended rs external =
      ap
        (λ b.
          if b
          then if ended == 0
            then native (received rs) (record s { tp = 0; file = [] })
            else unverified []
          else conclude native ended (read_loop loader rs started))
        (==_of_ne tested 0 external)

  -- A backend decrypts, and nothing else, when `mode` is not zero at the two tests.
  pub serve-read_loop :
      (native : List (List ℕ) → Session → Served) (tested ended : ℕ) (rs : List (ℕ × List ℕ))
      → tested ≢ 0
      → ended ≢ 0
      → serve loader native tested mode npub key rs ended s ≡ served (read_loop loader rs started)
  serve-read_loop native tested ended rs external done =
      serve-conclude native tested ended rs external
      ∙ conclude-served native ended (read_loop loader rs started) done

module _ (loader : Loader) (mode : ℕ) (npub key : List ℕ) (e : List ℕ → List ℕ)
    (rs : List (ℕ × List ℕ)) (s : Session) (native : List (List ℕ) → Session → Served)
    (tested ended : ℕ) where
  -- For any contents of the arrays at the start, when the loader opens the library, the initial
  -- vector has 12 bytes at least and the key 32, `mode` is not zero at the two tests of
  -- createserver, its value in ed_init and at each record fetches a backend that computes `e`
  -- on blocks under the key, and the records, all of 1024 bytes but the last, hold a ciphertext
  -- `c` and then sixteen bytes `given`, fewer than 2^31 bytes in all: the server saves `c` in
  -- counter mode, its verdict is the comparison of `given` with the AES-GCM tag of `c`, and its
  -- counters do not overflow.
  pub serve_lem :
      (c given : List ℕ)
      → tested ≢ 0
      → ended ≢ 0
      → loader.dlopen ≢ 0
      → Serves loader loader.dlopen (take 32 key) e mode
      → Memory s
      → 12 ≤ length npub
      → 32 ≤ length key
      → Records loader loader.dlopen (take 32 key) e rs
      → content rs ≡ c ++ given
      → length given ≡ 16
      → length c + 16 < 2 ^ 31
      → serve loader native tested mode npub key rs ended s
        ≡ saved (ctr_bytes e (take 12 npub) 2 c) (crypto_verify_16 given (tag e (take 12 npub) c))
  serve_lem c given external done opened serves memory iv_size key_size records same size small =
      serve-read_loop loader mode npub key e s native tested ended rs external done
      ∙ loop_ends loader e (take 12 npub) (take 32 key) loader.dlopen rs
          (started loader mode npub key e s) [] 0 c given records
          (started-Reading loader mode npub key e s opened serves memory iv_size key_size)
          (first refl refl) same size small

  -- For any contents of the arrays at the start, when the loader opens the library, the initial
  -- vector has 12 bytes at least and the key 32, `mode` is not zero at the two tests of
  -- createserver, its value in ed_init and at each record fetches a backend that computes `e`
  -- on blocks under the key, and the records, all of 1024 bytes but the last, hold the AES-GCM
  -- encryption of a message `p` and then its tag, fewer than 2^31 bytes in all: the server
  -- saves `p` and accepts the tag.
  pub serve-encrypt :
      (p : List ℕ)
      → tested ≢ 0
      → ended ≢ 0
      → loader.dlopen ≢ 0
      → Serves loader loader.dlopen (take 32 key) e mode
      → Memory s
      → 12 ≤ length npub
      → 32 ≤ length key
      → Records loader loader.dlopen (take 32 key) e rs
      → content rs ≡ encrypt e (take 12 npub) p ++ tag e (take 12 npub) (encrypt e (take 12 npub) p)
      → length p + 16 < 2 ^ 31
      → serve loader native tested mode npub key rs ended s ≡ saved p success
  unfolding encrypt
  serve-encrypt p external done opened serves memory iv_size key_size records same small =
      let iv = take 12 npub in
      let c = encrypt e iv p in
      let given = tag e iv c in
      serve_lem c given external done opened serves memory iv_size key_size records same
        (length-tag e iv c) (omega (arith, length-ctr_bytes e iv 2 p))
      ∙ ap₂ saved (ctr_bytes_twice e iv 2 p) (crypto_verify_16_self given)
