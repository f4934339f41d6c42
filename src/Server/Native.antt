-- ===== src/Server/Native.antt =====
-- src/server_f.c: what `createserver` does with the records of one connection when `mode` is 0 and OpenSSL
-- decrypts, whose calls EVP_* are a parameter. The last bytes of each record are held back in `tag`.
pub mod Pieces
pub mod Ends
pub mod Verdict
pub mod Same
mod Tests
use myrtus_psm_edge.Common.{
  ℕ, ◌+◌, ◌-◌, ◌^◌, List, [], ◌∷◌, ◌++◌, Bool, true, false, take, drop, length, if◌then◌else◌, ◌==◌,
  ltb, Option, none, some,
}
use myrtus_psm_edge.Gcm.{Status, success, failure}
use myrtus_psm_edge.Server.{Session, Served, saved, aborted, undefined, memcpy, tag_size}

-- The calls of OpenSSL: EVP_DecryptInit; EVP_DecryptUpdate, with its status, the bytes put out and the
-- context after it; and EVP_DecryptFinal, once the tag is set.
pub record Evp (C : Type 0) : Type 0 where
  pub init : List ℕ → List ℕ → Option C
  pub update : C → List ℕ → Bool × (List ℕ × C)
  pub final : C → List ℕ → Bool

-- The locals of `createserver` that live across the reading loop.
pub record Native (C : Type 0) : Type 0 where
  pub ctxx : C
  pub outmsg : List ℕ
  pub buffer : List ℕ
  pub tag : List ℕ
  pub tp : ℕ
  pub ct : ℕ
  pub file : List ℕ

pub data Step (C : Type 0) : Type 0 where
  going : Native C → Step C
  stopped : Native C → Step C
  overflowed : Step C

-- EVP_DecryptUpdate to `outmsg`, then `fwrite` of `n` bytes of it.
abbrev pub put_out : {C : Type 0} → Native C → List ℕ × C → ℕ → Native C
put_out s r n =
    let outmsg = r.0 ++ drop (length r.0) s.outmsg in
    record s { ctxx = r.1; outmsg = outmsg; file = s.file ++ take n outmsg }

-- The first `n` bytes that are held back turn out to be data. The status is not looked at.
abbrev pub release : {C : Type 0} → Evp C → ℕ → Native C → Native C
release evp n s = if s.ct == 0 then s else put_out s (evp.update s.ctxx (take n s.tag)).1 n

-- The message of the record is written, and its last bytes are held back.
abbrev pub held_state : {C : Type 0} → ℕ → Native C → List ℕ × C → Native C
held_state readbytes s r =
    let s' = put_out s r (readbytes - tag_size) in
    record s' {
      tag = memcpy s'.tag 0 (drop (readbytes - tag_size) s'.buffer) tag_size;
      tp = 0;
      ct = s'.ct + 1;
    }

-- `ct++` on an `int`, in which an overflow is undefined, comes last.
abbrev pub hold_back : {C : Type 0} → ℕ → Native C → Bool × (List ℕ × C) → Step C
hold_back readbytes s (false, r) = stopped (record s { ctxx = r.1 })
hold_back readbytes s (true, r) =
    if ltb (s.ct + 1) (2 ^ 31) then going (held_state readbytes s r) else overflowed

-- A record of more bytes than a tag.
unfoldable pub data_record : {C : Type 0} → Evp C → ℕ → Native C → Step C
data_record evp readbytes s =
    let s' = release evp tag_size s in
    hold_back readbytes s' (evp.update s'.ctxx (take (readbytes - tag_size) s'.buffer))

-- A record that has the end of the tag.
unfoldable pub tag_record : {C : Type 0} → Evp C → ℕ → Native C → Native C
tag_record evp readbytes s =
    let s' = release evp readbytes s in
    record s' { tag = memcpy s'.tag tag_size s'.buffer readbytes; tp = readbytes }

-- The body of the reading loop, once `SSL_read_ex` has stored `bytes`.
unfoldable pub on_record : {C : Type 0} → Evp C → List ℕ → Native C → Step C
on_record evp bytes s =
    let s' = record s { buffer = bytes ++ drop (length bytes) s.buffer } in
    if ltb tag_size (length bytes)
    then data_record evp (length bytes) s'
    else if ltb 0 (length bytes)
    then going (tag_record evp (length bytes) s')
    else going s'

abbrev pub next_step : {C : Type 0} → (Native C → Step C) → Step C → Step C
next_step f (going s) = f s
next_step f (stopped s) = stopped s
next_step f overflowed = overflowed

unfoldable pub read_loop : {C : Type 0} → Evp C → List (List ℕ) → Native C → Step C
read_loop evp [] s = going s
read_loop evp (bytes ∷ rs) s = next_step (read_loop evp rs) (on_record evp bytes s)

-- EVP_CTRL_GCM_SET_TAG takes the 16 bytes at `tp`.
abbrev pub report : {C : Type 0} → Evp C → Step C → Served
report evp (going s) =
    saved s.file (if evp.final s.ctxx (take tag_size (drop s.tp s.tag)) then success else failure)
report evp (stopped s) = aborted s.file
report evp overflowed = undefined

abbrev pub begin : {C : Type 0} → Evp C → List (List ℕ) → Session → Option C → Served
begin evp rs s none = aborted s.file
begin evp rs s (some c) = report evp (
    read_loop evp rs (record {
      ctxx = c;
      outmsg = s.outmsg;
      buffer = s.buffer;
      tag = s.tag;
      tp = s.tp;
      ct = 0;
      file = s.file;
    }))

-- The block under `if(mode==0)`, on the records that are left to read.
unfoldable pub serve_native :
    {C : Type 0} → Evp C → List ℕ → List ℕ → List (List ℕ) → Session → Served
serve_native evp iv key rs s = begin evp rs s (evp.init key iv)
