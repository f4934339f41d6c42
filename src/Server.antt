-- ===== src/Server.antt =====
-- src/server_f.c: what `createserver` does with the records of one connection. `SSL_read_ex` hands
-- over one record at a time, of at most CHUNK_SIZE bytes; `mode` is read at each test and at each call
-- of the decryption, and the signal handler may have changed it between any two of them.
pub mod Serves
pub mod Records
pub mod Ends
pub mod Finish
pub mod Short
pub mod Last
pub mod Receive
pub mod Connection
pub mod Missing
pub mod Cut
pub mod Native
pub mod Tests
use myrtus_psm_edge.Common.{
  ℕ, ◌+◌, ◌-◌, ◌*◌, ◌%◌, ◌^◌, List, [], ◌∷◌, ◌++◌, Bool, true, false, get_or, set, take, drop,
  length, if◌then◌else◌, ◌==◌, ltb, leb, ◌&&◌, for_range,
}
use myrtus_psm_edge.Gcm.{
  Loader, EdContext, Status, success, failure, ed_init, dec_update, dec_final, addmul,
}

abbrev pub chunk_size : ℕ
chunk_size = 1024

abbrev pub tag_size : ℕ
tag_size = 16

-- The locals of `createserver` that live across the reading loop. `file` is what `fwrite` has
-- written, and `tp` the place in `tag` that it points to.
pub record Session : Type 0 where
  pub cx : EdContext
  pub outmsg : List ℕ
  pub buffer : List ℕ
  pub tag : List ℕ
  pub tp : ℕ
  pub ct : ℕ
  pub kbyte : ℕ
  pub part : Bool
  pub file : List ℕ

-- `goto outg` leaves the loop over the connections, and the function. An `int` that overflows has no
-- defined behaviour.
pub data Progress : Type 0 where
  going : Session → Progress
  stopped : Session → Progress
  overflowed : Progress

abbrev pub memcpy : List ℕ → ℕ → List ℕ → ℕ → List ℕ
memcpy dst off src n = for_range n 0 (λ i d. set d (off + i) (get_or src i 0)) dst

-- The bytes at `outmsg + CHUNK_SIZE - TAGSIZE`, which were not written yet.
abbrev pub held : Session → ℕ → List ℕ
held s n = take n (drop (chunk_size - tag_size) s.outmsg)

-- `kbyte=(++ct)*CHUNK_SIZE`, where `ct` and `kbyte` are of type `int`.
abbrev pub count_chunk : Session → Progress
count_chunk s =
    if ltb ((s.ct + 1) * chunk_size) (2 ^ 31)
    then going (record s { ct = s.ct + 1; kbyte = (s.ct + 1) * chunk_size })
    else overflowed

-- A record of CHUNK_SIZE bytes.
unfoldable pub full_record : Loader → ℕ → Session → Progress
full_record loader mode s =
    let file = if s.ct == 0 then s.file else s.file ++ held s tag_size in
    let r = dec_update loader mode s.cx s.outmsg s.buffer chunk_size in
    elim r.0 [
      | failure ↦ stopped (record s { cx = r.1; outmsg = r.2; file = file })
      | success ↦ count_chunk (record s {
        cx = r.1;
        outmsg = r.2;
        tag = memcpy s.tag 0 (drop (chunk_size - tag_size) s.buffer) tag_size;
        file = file ++ take (chunk_size - tag_size) r.2;
      })
    ]

-- The last block again, without the bytes of it that belong to the tag.
abbrev pub rehash : EdContext → List ℕ → ℕ → EdContext
rehash cx data' n =
    let paccum = addmul cx.paccum data' n cx.h in
    record cx {
      mlen = (cx.mlen + 2 ^ 64 - (tag_size - n)) % 2 ^ 64;
      paccum = paccum;
      accum = paccum;
    }

-- A record that holds the end of the tag and nothing else.
unfoldable pub tag_record : ℕ → Session → Session
tag_record readbytes s =
    let tag = memcpy s.tag tag_size s.buffer readbytes in
    if s.ct == 0 then record s { tag = tag; tp = readbytes; part = true } else record s {
      tag = tag;
      tp = readbytes;
      part = true;
      file = s.file ++ held s readbytes;
      cx = rehash s.cx (drop (chunk_size - tag_size) s.buffer) readbytes;
    }

-- A shorter record that ends with the whole tag. The status of `dec_update` is not looked at.
unfoldable pub last_record : Loader → ℕ → ℕ → Session → Session
last_record loader mode readbytes s =
    let file = if s.ct == 0 then s.file else s.file ++ held s tag_size in
    let r = dec_update loader mode s.cx s.outmsg s.buffer (readbytes - tag_size) in
    record s {
      cx = r.1;
      outmsg = r.2;
      part = true;
      file = file ++ take (readbytes - tag_size) r.2;
      tag = memcpy s.tag 0 (drop (readbytes - tag_size) s.buffer) tag_size;
    }

-- The body of the reading loop, once `SSL_read_ex` has stored `readbytes` bytes.
unfoldable pub on_record : Loader → ℕ → ℕ → Session → Progress
on_record loader mode readbytes s =
    if readbytes == chunk_size
    then full_record loader mode s
    else if ltb 0 readbytes
    then if ltb tag_size readbytes
      then going (last_record loader mode readbytes s)
      else going (tag_record readbytes s)
    else going s

-- One read: the record goes to the front of `buffer`.
unfoldable pub read_record : Loader → ℕ × List ℕ → Session → Progress
read_record loader (mode, bytes) s =
    on_record loader mode (length bytes)
      (record s { buffer = bytes ++ drop (length bytes) s.buffer })

-- The reading loop, over the records with the value of `mode` at each.
unfoldable pub read_loop : Loader → List (ℕ × List ℕ) → Session → Progress
read_loop loader [] s = going s
read_loop loader (r ∷ rs) s = elim (read_record loader r s) [
  | going s' ↦ read_loop loader rs s'
  | stopped s' ↦ stopped s'
  | overflowed ↦ overflowed
]

-- After the loop: the whole tag was the end of the last full record, if none was shorter.
unfoldable pub finish : Session → Status
finish s =
    let cx =
      if s.part
      then s.cx
      else record s.cx { mlen = (s.cx.mlen + 2 ^ 64 - tag_size) % 2 ^ 64; accum = s.cx.paccum } in
    dec_final cx (drop s.tp s.tag)

-- `key` and `iv` from the exported keying material.
unfoldable pub export_keys : List ℕ → List ℕ → List ℕ → List ℕ × List ℕ
export_keys out key iv = (
  for_range 64 0 (λ i key. if ltb i 32 then set key i (get_or out i 0) else key) key,
  for_range 64 0 (λ i iv. if leb 32 i && ltb i 48 then set iv (i - 32) (get_or out i 0) else iv) iv,
)

-- What a connection ends with: the file, and whether the tag was the one expected, if it was looked at.
-- The two ways to decrypt stand one behind the other, and `twice` is for both of them.
pub data Served : Type 0 where
  saved : List ℕ → Status → Served
  unverified : List ℕ → Served
  twice : Status → Served → Served
  aborted : List ℕ → Served
  undefined : Served

-- The end of a connection that a backend has decrypted, when `mode` is not zero behind it.
abbrev pub served : Progress → Served
served (going s) = saved s.file (finish s)
served (stopped s) = aborted s.file
served overflowed = undefined

-- The bytes of the records, without the modes.
abbrev pub received : List (ℕ × List ℕ) → List (List ℕ)
received [] = []
received (r ∷ rs) = r.1 ∷ received rs

-- `native` is the block under `if(mode==0)`, on the records that are left to read; `ended` is the value
-- of `mode` at this test.
abbrev pub conclude : (List (List ℕ) → Session → Served) → ℕ → Progress → Served
conclude native ended (going s) =
    if ended == 0 then twice (finish s) (native [] s) else saved s.file (finish s)
conclude native ended (stopped s) = aborted s.file
conclude native ended overflowed = undefined

-- `tested` is the value of `mode` at `if(mode!=0)`, and `mode` that in `ed_init`, whose status is not
-- looked at. `s` holds what the locals and `malloc` left in memory.
unfoldable pub serve :
    Loader
    → (List (List ℕ) → Session → Served)
    → ℕ
    → ℕ
    → List ℕ
    → List ℕ
    → List (ℕ × List ℕ)
    → ℕ
    → Session
    → Served
serve loader native tested mode iv key records ended s =
    let r = ed_init loader mode s.cx iv key in
    let start = record s { cx = r.1; tp = 0; ct = 0; part = false; file = [] } in
    if tested == 0
    then if ended == 0
      then native (received records) (record s { tp = 0; file = [] })
      else unverified []
    else conclude native ended (read_loop loader records start)
