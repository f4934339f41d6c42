-- ===== src/Client/Tests.antt =====
-- The theorems on the client at a file of two records, with a concrete encryption in place of OpenSSL.
use myrtus_psm_edge.Common.{
  ℕ, zero, suc, ◌≡◌, refl, ap, arith, List, [], ◌++◌, length, replicate, take, drop, some,
}
use myrtus_psm_edge.Backend.Spec
use myrtus_psm_edge.Backend.F1.Keys.{aes128_refines}
use myrtus_psm_edge.Backend.F2.Keys.{aes_enc_refines}
use myrtus_psm_edge.Gcm.{success}
use myrtus_psm_edge.Gcm.Spec.{encrypt, tag}
use myrtus_psm_edge.Gcm.Tests.{op1, op2, loader1}
use myrtus_psm_edge.Server as Server
use myrtus_psm_edge.Server.{saved, serve}
use myrtus_psm_edge.Server.Serves.{Serves}
use myrtus_psm_edge.Server.Tests.{session1, session1-Memory, no_cipher}
use myrtus_psm_edge.Server.Cut.{joined, Cut}
use myrtus_psm_edge.Client.{Evp, entire, send_file, export_keys}
use myrtus_psm_edge.Client.Send.{Encrypts}
use myrtus_psm_edge.Client.Deliver.{delivered, send_file_lem}
use myrtus_psm_edge.Client.Whole.{with_modes, writes, serve-send_file}

abbrev material : List ℕ
material = replicate 32 9 ++ replicate 32 4

abbrev cipher : List ℕ → List ℕ
cipher b = Spec.aes128 (take 32 material) b

abbrev nonce : List ℕ
nonce = replicate 12 4

-- A context is the message so far.
abbrev plain : Evp (List ℕ)
plain = record {
  init = λ key iv. some [];
  update = λ c m. some (drop (length c) (encrypt cipher nonce (c ++ m)), c ++ m);
  final = λ c. some ([], c);
  get_tag = λ c. some (tag cipher nonce (encrypt cipher nonce c));
}

abbrev Same : List ℕ → List ℕ → Type 0
Same c p = c ≡ p

plain-Encrypts : Encrypts plain Same cipher nonce
plain-Encrypts = record {
  next = λ c m. c ++ m;
  finished = λ c. c;
  updates = λ c p m h. ap (λ q. some (drop (length q) (encrypt cipher nonce (q ++ m)), c ++ m)) h;
  continues = λ c p m h. ap (λ q. q ++ m) h;
  finals = λ c p h. refl;
  tags = λ c p h. ap (λ q. some (tag cipher nonce (encrypt cipher nonce q))) h;
}

Serves-first : Serves loader1 1 (take 32 material) cipher 0x10
Serves-first = record {
  op = op1;
  found = refl;
  computes = λ x h. aes128_refines (replicate 176 0) x (take 32 material) refl h (omega arith);
}

Serves-second : Serves loader1 1 (take 32 material) cipher 0x11
Serves-second = record {
  op = op2;
  found = refl;
  computes = λ x h.
      aes_enc_refines (replicate 176 0) x (take 32 material) (replicate 16 0) refl (omega arith)
        refl;
}

-- The backend changes behind the first record.
abbrev modes1 : ℕ → ℕ
modes1 zero = 0x10
modes1 (suc i) = 0x11

Serves-modes1 : (i : ℕ) → Serves loader1 1 (take 32 material) cipher (modes1 i)
Serves-modes1 zero = Serves-first
Serves-modes1 (suc i) = Serves-second

abbrev file1 : List ℕ
file1 = replicate 1500 6

abbrev stack1 : List ℕ
stack1 = replicate 1040 0

send_file_lem_example :
    (ws : List (List ℕ)) × ((send_file plain (replicate 32 9) nonce file1 stack1 ≡ entire ws)
      × (Cut (delivered ws)
          × (joined (delivered ws)
              ≡ encrypt cipher nonce file1 ++ tag cipher nonce (encrypt cipher nonce file1))))
send_file_lem_example =
    send_file_lem plain Same cipher nonce plain-Encrypts (replicate 32 9) nonce file1 stack1 [] refl
      refl refl

serve-send_file_example :
    (let mine = export_keys material (replicate 32 0) (replicate 16 0) in
      let yours = Server.export_keys material (replicate 32 1) (replicate 16 1) in
      let sent = delivered (writes (send_file plain mine.0 mine.1 file1 stack1)) in
      serve loader1 no_cipher 0x10 0x10 yours.1 yours.0 (with_modes modes1 0 sent) 0x11 session1
      ≡ saved file1 success)
serve-send_file_example =
    serve-send_file loader1 0x10 modes1 cipher plain Same material [] no_cipher 0x10 0x11
      (replicate 32 0) (replicate 16 0) (replicate 32 1) (replicate 16 1) file1 stack1 session1 refl
      refl refl refl refl refl session1-Memory (omega arith) (λ e. omega (arith, e))
      (λ e. omega (arith, e)) (λ e. omega (arith, e)) Serves-first Serves-modes1 plain-Encrypts refl
      refl
