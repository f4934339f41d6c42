-- ===== src/Client.antt =====
-- src/cltest.c: the client, from the keys on. It reads the file in chunks, encrypts them with OpenSSL, and
-- writes records to the connection. OpenSSL is a parameter: the calls of EVP_* with what they return.
pub mod Send
pub mod Deliver
pub mod Whole
mod Tests
use myrtus_psm_edge.Common.{
  ℕ, zero, suc, ◌+◌, ◌-◌, List, [], ◌∷◌, ◌++◌, get_or, set, take, drop, length, if◌then◌else◌, ◌==◌,
  ltb, ◌&&◌, for_range, Option, none, some, leb,
}

abbrev pub chunk_size : ℕ
chunk_size = 1024

abbrev pub tag_size : ℕ
tag_size = 16

-- The calls of OpenSSL on a context: EVP_EncryptInit, EVP_EncryptUpdate and EVP_EncryptFinal with the bytes
-- they put out, and EVP_CIPHER_CTX_ctrl for the tag. None is a failure.
pub record Evp (C : Type 0) : Type 0 where
  pub init : List ℕ → List ℕ → Option C
  pub update : C → List ℕ → Option (List ℕ × C)
  pub final : C → Option (List ℕ × C)
  pub get_tag : C → Option (List ℕ)

-- The locals of `main` that live across the loop; `sent` are the calls of BIO_write.
pub record State (C : Type 0) : Type 0 where
  pub ctxx : C
  pub outmsg : List ℕ
  pub outlen : ℕ
  pub sent : List (List ℕ)

-- `goto outg`, or the end of the program.
pub data Sent : Type 0 where
  entire : List (List ℕ) → Sent
  broken_off : List (List ℕ) → Sent

pub data Sending (C : Type 0) : Type 0 where
  working : State C → Sending C
  failed : List (List ℕ) → Sending C

-- Bytes put into an array from `off` on.
abbrev pub store : List ℕ → ℕ → List ℕ → List ℕ
store dst off bytes = take off dst ++ (bytes ++ drop (off + length bytes) dst)

-- `key` and `iv` from the exported keying material.
unfoldable pub export_keys : List ℕ → List ℕ → List ℕ → List ℕ × List ℕ
export_keys outc key iv = (
  for_range 64 0 (λ i key. if ltb i 32 then set key i (get_or outc i 0) else key) key,
  for_range 64 0 (λ i iv. if leb 32 i && ltb i 48 then set iv (i - 32) (get_or outc i 0) else iv)
      iv,
)

-- What the encryption of a chunk put out: a full one is written, another waits for the tag.
abbrev pub chunk_done : {C : Type 0} → State C → List ℕ × C → State C
chunk_done s r =
    let outmsg = store s.outmsg 0 r.0 in
    let outlen = length r.0 in
    record {
      ctxx = r.1;
      outmsg = outmsg;
      outlen = if outlen == chunk_size then 0 else outlen;
      sent = if outlen == chunk_size then s.sent ++ take outlen outmsg ∷ [] else s.sent;
    }

abbrev pub chunk_sent : {C : Type 0} → State C → Option (List ℕ × C) → Sending C
chunk_sent s none = failed s.sent
chunk_sent s (some r) = working (chunk_done s r)

-- The body of the loop, once `fread` has stored `message`.
unfoldable pub send_chunk : {C : Type 0} → Evp C → List ℕ → State C → Sending C
send_chunk evp message s = chunk_sent s (evp.update s.ctxx message)

-- The loop over the file, with fuel: a round reads at least one byte, or ends it.
unfoldable pub send_loop : {C : Type 0} → Evp C → ℕ → List ℕ → State C → Sending C
send_loop evp zero file s = working s
send_loop evp (suc fuel) file s =
    if length (take chunk_size file) == 0
    then working s
    else elim (send_chunk evp (take chunk_size file) s) [
      | working s' ↦ send_loop evp fuel (drop chunk_size file) s'
      | failed ws ↦ failed ws
    ]

-- The tag behind what is left in `outmsg`, in one record or in two.
abbrev pub last_writes : List ℕ → ℕ → List (List ℕ)
last_writes outmsg n =
    if ltb n chunk_size
    then take n outmsg ∷ []
    else take chunk_size outmsg ∷ take (n - chunk_size) (drop chunk_size outmsg) ∷ []

abbrev pub tag_sent : {C : Type 0} → State C → List ℕ → List (List ℕ) → Option (List ℕ) → Sent
tag_sent s outmsg sent none = broken_off sent
tag_sent s outmsg sent (some t) =
    entire (sent ++ last_writes (store outmsg s.outlen t) (s.outlen + tag_size))

abbrev pub final_sent : {C : Type 0} → Evp C → State C → Option (List ℕ × C) → Sent
final_sent evp s none = broken_off s.sent
final_sent evp s (some r) =
    let outmsg = store s.outmsg 0 r.0 in
    let tmplen = length r.0 in
    tag_sent s outmsg (if ltb 0 tmplen then s.sent ++ take tmplen outmsg ∷ [] else s.sent)
      (evp.get_tag r.1)

-- What follows the loop.
unfoldable pub send_rest : {C : Type 0} → Evp C → State C → Sent
send_rest evp s = final_sent evp s (evp.final s.ctxx)

abbrev pub after_loop : {C : Type 0} → Evp C → Sending C → Sent
after_loop evp (working s) = send_rest evp s
after_loop evp (failed ws) = broken_off ws

abbrev pub after_init : {C : Type 0} → Evp C → List ℕ → List ℕ → Option C → Sent
after_init evp file outmsg none = broken_off []
after_init evp file outmsg (some c) = after_loop evp (
    send_loop evp (suc (length file)) file
      (record { ctxx = c; outmsg = outmsg; outlen = 0; sent = [] }))

-- From EVP_EncryptInit to the end. `outmsg` is the array on the stack.
unfoldable pub send_file : {C : Type 0} → Evp C → List ℕ → List ℕ → List ℕ → List ℕ → Sent
send_file evp key iv file outmsg = after_init evp file outmsg (evp.init key iv)
