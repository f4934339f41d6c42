-- ===== src/Client/Whole.antt =====
-- The client and the server together: the records that the client writes, read by the server.
use myrtus_psm_edge.Common.{
  ℕ, ◌+◌, ◌^◌, ◌<◌, ◌≡◌, ◌≢◌, refl, sym, ◌∙◌, ap, ap₂, subst, arith, List, [], ◌∷◌, ◌++◌, some,
  length, take, drop, array_ind, Curried, take-take, length-take, length-drop,
}
use myrtus_psm_edge.Gcm.{Loader, success}
use myrtus_psm_edge.Gcm.Spec.{encrypt, tag}
use myrtus_psm_edge.Server.{Session, Served, saved, serve}
use myrtus_psm_edge.Server.Serves.{Serves}
use myrtus_psm_edge.Server.Receive.{Records, over, short, full, content}
use myrtus_psm_edge.Server.Connection.{Memory, serve-encrypt}
use myrtus_psm_edge.Server as Server
use myrtus_psm_edge.Server.Cut.{joined, Cut, ended, last, more}
use myrtus_psm_edge.Client.{Evp, Sent, entire, broken_off, send_file, export_keys}
use myrtus_psm_edge.Client.Send.{Encrypts}
use myrtus_psm_edge.Client.Deliver.{delivered, send_file_lem}

-- The records with the value of `mode` that the server finds at each.
unfoldable pub with_modes : (ℕ → ℕ) → ℕ → List (List ℕ) → List (ℕ × List ℕ)
with_modes modes i [] = []
with_modes modes i (w ∷ ws) = (modes i, w) ∷ with_modes modes (i + 1) ws

abbrev pub writes : Sent → List (List ℕ)
writes (entire ws) = ws
writes (broken_off ws) = ws

content-with_modes :
    (modes : ℕ → ℕ) (i : ℕ) (ws : List (List ℕ)) → content (with_modes modes i ws) ≡ joined ws
unfolding with_modes
content-with_modes modes i [] = refl
content-with_modes modes i (w ∷ ws) = ap (λ t. w ++ t) (content-with_modes modes (i + 1) ws)

module _ (loader : Loader) (handle : ℕ) (k : List ℕ) (e : List ℕ → List ℕ) (modes : ℕ → ℕ)
    (serves : (i : ℕ) → Serves loader handle k e (modes i)) where
  Records-Cut :
      (i : ℕ) (ws : List (List ℕ)) → Cut ws → Records loader handle k e (with_modes modes i ws)
  unfolding with_modes
  Records-Cut i _ ended = over
  Records-Cut i _ (last w a b) = short (modes i) w (serves i) a b
  Records-Cut i _ (more w ws a c) =
      full (modes i) w (with_modes modes (i + 1) ws) (serves i) a (Records-Cut (i + 1) ws c)

-- The keys are the first 32 bytes of the material, and the initial vector the next 16.
split_material : List ℕ → List ℕ × List ℕ
split_material out = (take 32 out, take 16 (drop 32 out))

keys_written :
    (f : List ℕ → List ℕ → List ℕ → List ℕ × List ℕ)
    → Curried 64 (λ out. Curried 32 (λ key. Curried 16 (λ iv. f out key iv ≡ split_material out)))
    → (out key iv : List ℕ) → length out ≡ 64
    → length key ≡ 32
    → length iv ≡ 16
    → f out key iv ≡ split_material out
keys_written f h out key iv p q r =
    array_ind 16 (λ iv. f out key iv ≡ split_material out)
      (array_ind 32 (λ key. Curried 16 (λ iv. f out key iv ≡ split_material out))
        (array_ind 64
          (λ out. Curried 32 (λ key. Curried 16 (λ iv. f out key iv ≡ split_material out))) h out p)
        key q)
      iv r

client_keys :
    (out key iv : List ℕ)
    → length out ≡ 64
    → length key ≡ 32
    → length iv ≡ 16
    → export_keys out key iv ≡ split_material out
unfolding export_keys split_material
client_keys =
    keys_written export_keys
      (λ o0 o1 o2 o3 o4 o5 o6 o7 o8 o9 o10 o11 o12 o13 o14 o15 o16 o17 o18 o19 o20 o21 o22 o23 o24
          o25 o26 o27 o28 o29 o30 o31 o32 o33 o34 o35 o36 o37 o38 o39 o40 o41 o42 o43 o44 o45 o46
          o47 o48 o49 o50 o51 o52 o53 o54 o55 o56 o57 o58 o59 o60 o61 o62 o63 k0 k1 k2 k3 k4 k5 k6
          k7 k8 k9 k10 k11 k12 k13 k14 k15 k16 k17 k18 k19 k20 k21 k22 k23 k24 k25 k26 k27 k28 k29
          k30 k31 v0 v1 v2 v3 v4 v5 v6 v7 v8 v9 v10 v11 v12 v13 v14 v15.
        refl)

server_keys :
    (out key iv : List ℕ)
    → length out ≡ 64
    → length key ≡ 32
    → length iv ≡ 16
    → Server.export_keys out key iv ≡ split_material out
unfolding Server.export_keys split_material
server_keys =
    keys_written Server.export_keys
      (λ o0 o1 o2 o3 o4 o5 o6 o7 o8 o9 o10 o11 o12 o13 o14 o15 o16 o17 o18 o19 o20 o21 o22 o23 o24
          o25 o26 o27 o28 o29 o30 o31 o32 o33 o34 o35 o36 o37 o38 o39 o40 o41 o42 o43 o44 o45 o46
          o47 o48 o49 o50 o51 o52 o53 o54 o55 o56 o57 o58 o59 o60 o61 o62 o63 k0 k1 k2 k3 k4 k5 k6
          k7 k8 k9 k10 k11 k12 k13 k14 k15 k16 k17 k18 k19 k20 k21 k22 k23 k24 k25 k26 k27 k28 k29
          k30 k31 v0 v1 v2 v3 v4 v5 v6 v7 v8 v9 v10 v11 v12 v13 v14 v15.
        refl)

module _ (loader : Loader) (mode : ℕ) (modes : ℕ → ℕ) (e : List ℕ → List ℕ) {C : Type 0}
    (evp : Evp C) (Has : C → List ℕ → Type 0) (out : List ℕ) (c : C)
    (native : List (List ℕ) → Session → Served) (tested ended : ℕ) where
  -- When the client and the server have the same 64 bytes of keying material, OpenSSL encrypts
  -- as documented, the loader opens the library, `mode` is not zero at the two tests of
  -- createserver, its value in ed_init and at each record fetches a backend that computes `e`
  -- under the key, the arrays have their sizes, and the file and its tag have fewer than 2^31
  -- bytes: the server, reading the records that the client writes, saves the file and accepts
  -- the tag.
  pub serve-send_file :
      (ckey civ skey siv file outmsg : List ℕ) (s : Session)
      → length out ≡ 64
      → length ckey ≡ 32
      → length civ ≡ 16
      → length skey ≡ 32
      → length siv ≡ 16
      → length outmsg ≡ 1040
      → Memory s
      → length file + 16 < 2 ^ 31
      → tested ≢ 0
      → ended ≢ 0
      → loader.dlopen ≢ 0
      → Serves loader loader.dlopen (take 32 out) e mode
      → ((i : ℕ) → Serves loader loader.dlopen (take 32 out) e (modes i))
      → Encrypts evp Has e (take 12 (drop 32 out))
      → evp.init (take 32 out) (take 16 (drop 32 out)) ≡ some c
      → Has c []
      → (let mine = export_keys out ckey civ in
          let yours = Server.export_keys out skey siv in
          let sent = delivered (writes (send_file evp mine.0 mine.1 file outmsg)) in
          serve loader native tested mode yours.1 yours.0 (with_modes modes 0 sent) ended s
          ≡ saved file success)
  unfolding split_material
  serve-send_file ckey civ skey siv file outmsg s p q r t u room memory small external done opened
        serves each law opens has =
      let iv = take 16 (drop 32 out) in
      let mine = client_keys out ckey civ p q r in
      let yours = server_keys out skey siv p t u in
      let sent =
        send_file_lem evp Has e (take 12 (drop 32 out)) law (take 32 out) iv file outmsg c opens has
          room in
      let ws = delivered sent.0 in
      let whole : take 32 (take 32 out) ≡ take 32 out = take-take 32 32 out (omega arith) in
      let short_iv : take 12 iv ≡ take 12 (drop 32 out) =
        take-take 12 16 (drop 32 out) (omega arith) in
      ap₂
        (λ x y.
          serve loader native tested mode y.1 y.0
            (with_modes modes 0 (delivered (writes (send_file evp x.0 x.1 file outmsg)))) ended s)
        mine yours
      ∙ ap
          (λ x.
            serve loader native tested mode iv (take 32 out)
              (with_modes modes 0 (delivered (writes x))) ended s)
          sent.1.0
      ∙ serve-encrypt loader mode iv (take 32 out) e (with_modes modes 0 ws) s native tested ended
          file external done opened
          (subst (λ k. Serves loader loader.dlopen k e mode) (sym whole) serves) memory
          (omega (arith, length-take 16 (drop 32 out), length-drop 32 out, p))
          (omega (arith, length-take 32 out, p))
          (Records-Cut loader loader.dlopen (take 32 (take 32 out)) e modes
            (λ i. subst (λ k. Serves loader loader.dlopen k e (modes i)) (sym whole) (each i)) 0 ws
            sent.1.1.0)
          (content-with_modes modes 0 ws
            ∙ sent.1.1.1
            ∙ ap (λ v. encrypt e v file ++ tag e v (encrypt e v file)) (sym short_iv))
          small
