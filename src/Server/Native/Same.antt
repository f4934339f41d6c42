-- ===== src/Server/Native/Same.antt =====
-- The two ways of the server to decrypt, against the specification and against each other.
use myrtus_psm_edge.Common.{
  ℕ, ◌+◌, ◌^◌, ◌≤◌, ◌<◌, ◌≡◌, ◌≢◌, ◌⊎◌, inl, inr, refl, sym, ◌∙◌, ap, ap₂, Bool-cases, List, [],
  ◌∷◌, ◌++◌, true, false, some, IsBytes, ◌↔◌, length, length-append, arith, take, drop,
  if◌then◌else◌,
}
use myrtus_psm_edge.Gcm.{Loader, Status, success, failure, crypto_verify_16}
use myrtus_psm_edge.Gcm.Spec.{be32, tag, ctr}
use myrtus_psm_edge.Gcm.Blocks.{ctr_bytes, blocks-nil}
use myrtus_psm_edge.Gcm.Tag.{length-tag}
use myrtus_psm_edge.Gcm.Hash.{IsBytes-tag}
use myrtus_psm_edge.Gcm.Verify.{crypto_verify_16-success_iff}
use myrtus_psm_edge.Server.{Session, saved, received, serve}
use myrtus_psm_edge.Server.Serves.{Serves}
use myrtus_psm_edge.Server.Receive.{Records, over, short, full, content}
use myrtus_psm_edge.Server.Connection.{Memory, serve_lem}
use myrtus_psm_edge.Server.Cut.{joined, Cut, ended, last, more}
use myrtus_psm_edge.Server.Native.{Evp, Native, serve_native, begin, report}
use myrtus_psm_edge.Server.Native.Pieces.{Decrypts, Between}
use myrtus_psm_edge.Server.Native.Verdict.{loop_End}

status_cases : (v : Status) → (v ≡ success) ⊎ (v ≡ failure)
status_cases success = inl refl
status_cases failure = inr refl

-- No record is empty.
length-Cut : (rs : List (List ℕ)) → Cut rs → length rs ≤ length (joined rs)
length-Cut _ ended = omega arith
length-Cut _ (last w a b) = omega (arith, length-append w [], a)
length-Cut _ (more w ws a rest) = omega (arith, length-append w (joined ws), length-Cut ws rest, a)

module _ {C : Type 0} (evp : Evp C) (Has : C → List ℕ → Type 0) (e : List ℕ → List ℕ) (iv : List ℕ)
    (law : Decrypts evp Has e iv) where
  verdict :
      (x : C) (c given t : List ℕ)
      → Has x c
      → t ≡ given
      → length given ≡ 16
      → IsBytes given
      → IsBytes (tag e iv c)
      → (if evp.final x t then success else failure) ≡ crypto_verify_16 given (tag e iv c)
  verdict x c given t has same size bytes tag_bytes =
      go (Bool-cases (evp.final x t)) (status_cases (crypto_verify_16 given (tag e iv c)))
    where
      equal : (crypto_verify_16 given (tag e iv c) ≡ success) ↔ (given ≡ tag e iv c)
      equal =
          crypto_verify_16-success_iff given (tag e iv c) size (length-tag e iv c) bytes tag_bytes

      length-t : length t ≡ 16
      length-t = ap length same ∙ size

      go :
          ((evp.final x t ≡ true) ⊎ (evp.final x t ≡ false))
          → ((crypto_verify_16 given (tag e iv c) ≡ success)
              ⊎ (crypto_verify_16 given (tag e iv c) ≡ failure))
          → (if evp.final x t then success else failure) ≡ crypto_verify_16 given (tag e iv c)
      go (inl p) q =
          ap (λ b. if b then success else failure) p
          ∙ sym (equal.1 (sym same ∙ (law.verifies x c t has length-t).0 p))
      go (inr p) (inl q) =
          absurd (differ (sym ((law.verifies x c t has length-t).1 (same ∙ equal.0 q)) ∙ p))
        where
          differ : true ≡ false → ⊥
          differ h = cc
      go (inr p) (inr q) = ap (λ b. if b then success else failure) p ∙ sym q

  -- When OpenSSL starts and decrypts as documented, the arrays have their sizes, `tp` is at the
  -- front of the tag and the file is empty, the mask of the tag and the sixteen bytes `given`
  -- are bytes, and the records, all of 1024 bytes but the last, hold a ciphertext `c` and then
  -- `given`, fewer than 2^31 bytes in all: the server saves `c` in counter mode, and its
  -- verdict is the comparison of `given` with the AES-GCM tag of `c`.
  pub serve_native_lem :
      (iv' key c given : List ℕ) (rs : List (List ℕ)) (s : Session) (x : C)
      → evp.init key iv' ≡ some x
      → Has x []
      → length s.outmsg ≡ 1024
      → length s.buffer ≡ 1024
      → length s.tag ≡ 32
      → s.tp ≡ 0
      → s.file ≡ []
      → Cut rs
      → joined rs ≡ c ++ given
      → length given ≡ 16
      → length c + 16 < 2 ^ 31
      → IsBytes given
      → IsBytes (e (iv ++ be32 1))
      → serve_native evp iv' key rs s
        ≡ saved (ctr_bytes e iv 2 c) (crypto_verify_16 given (tag e iv c))
  unfolding serve_native ctr
  serve_native_lem iv' key c given rs s x opens has p q r front empty cut same size small bytes
        mask_bytes =
      let first : Native C = record {
        ctxx = x;
        outmsg = s.outmsg;
        buffer = s.buffer;
        tag = s.tag;
        tp = s.tp;
        ct = 0;
        file = s.file;
      } in
      let between : Between evp Has e iv law first [] [] = record {
        ran = record { has = has; room = p; wrote = empty ∙ sym (ap (ctr e iv 2) blocks-nil) };
        buffer_size = q;
        tag_room = r;
        at_front = front;
        kept = inl (refl, (refl, refl));
      } in
      let run =
        loop_End evp Has e iv law rs first [] [] c given 0 cut between refl same size
          (omega (arith, length-Cut rs cut, ap length same, length-append c given, size, small)) in
      ap (begin evp rs s) opens
      ∙ ap (report evp) run.1.0
      ∙ ap₂ saved run.1.1.ran.wrote (
          verdict run.0.ctxx c given (take 16 (drop run.0.tp run.0.tag)) run.1.1.ran.has
            run.1.1.answer size bytes (IsBytes-tag e iv c mask_bytes))

joined-received : (rs : List (ℕ × List ℕ)) → joined (received rs) ≡ content rs
joined-received [] = refl
joined-received (r ∷ rs) = ap (λ t. r.1 ++ t) (joined-received rs)

Cut-received :
    (loader : Loader) (handle : ℕ) (k : List ℕ) (e : List ℕ → List ℕ) (rs : List (ℕ × List ℕ))
    → Records loader handle k e rs
    → Cut (received rs)
Cut-received loader handle k e _ over = ended
Cut-received loader handle k e _ (short mode bytes v a b) = last bytes a b
Cut-received loader handle k e _ (full mode bytes rs v a rest) =
    more bytes (received rs) a (Cut-received loader handle k e rs rest)

module _ (loader : Loader) (mode : ℕ) (npub key : List ℕ) (e : List ℕ → List ℕ)
    (rs : List (ℕ × List ℕ)) (s : Session) {C : Type 0} (evp : Evp C) (Has : C → List ℕ → Type 0)
    (tested ended : ℕ) where
  -- When the loader opens the library, the initial vector has 12 bytes at least and the key 32,
  -- `mode` is not zero at the two tests of one run of createserver and its value in ed_init and
  -- at each record fetches a backend that computes `e` under the key, OpenSSL starts and
  -- decrypts with `e` as documented, the arrays have their sizes, the mask of the tag and the
  -- sixteen bytes `given` are bytes, and the records, all of 1024 bytes but the last, hold a
  -- ciphertext and then `given`, fewer than 2^31 bytes in all: this run saves the same file and
  -- gives the same verdict as one in which `mode` is zero at the two tests.
  pub serve-serve_native :
      (c given : List ℕ) (mode' : ℕ) (s' : Session) (x : C)
      → tested ≢ 0
      → ended ≢ 0
      → loader.dlopen ≢ 0
      → Serves loader loader.dlopen (take 32 key) e mode
      → Memory s
      → 12 ≤ length npub
      → 32 ≤ length key
      → Records loader loader.dlopen (take 32 key) e rs
      → content rs ≡ c ++ given
      → length given ≡ 16
      → length c + 16 < 2 ^ 31
      → IsBytes given
      → IsBytes (e (take 12 npub ++ be32 1))
      → Decrypts evp Has e (take 12 npub)
      → evp.init key npub ≡ some x
      → Has x []
      → length s'.outmsg ≡ 1024
      → length s'.buffer ≡ 1024
      → length s'.tag ≡ 32
      → serve loader (serve_native evp npub key) tested mode npub key rs ended s
        ≡ serve loader (serve_native evp npub key) 0 mode' npub key rs 0 s'
  unfolding serve
  serve-serve_native c given mode' s' x external done opened serves memory iv_size key_size records
        same size small bytes mask_bytes law opens has p q r =
      serve_lem loader mode npub key e rs s (serve_native evp npub key) tested ended c given
        external done opened serves memory iv_size key_size records same size small
      ∙ sym (
          serve_native_lem evp Has e (take 12 npub) law npub key c given (received rs)
            (record s' { tp = 0; file = [] }) x opens has p q r refl refl
            (Cut-received loader loader.dlopen (take 32 key) e rs records)
            (joined-received rs ∙ same) size small bytes mask_bytes)
