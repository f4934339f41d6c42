-- ===== src/Server/Records.antt =====
-- The reading loop on a record of CHUNK_SIZE bytes.
use mathlib.Core.List.{append_assoc, append-nil}
use myrtus_psm_edge.Common.{
  ℕ, ◌+◌, ◌*◌, ◌^◌, ◌≤◌, ◌<◌, ◌≡◌, refl, sym, ◌∙◌, ap, ap₂, arith, List, ◌++◌, false, length,
  length-append, length-take, length-drop, take, drop, take_of_le, drop_of_le, take-append,
  take-append-drop, take-take, drop-drop, subst, get_or, fill_table, table-get_or, replicate,
  if◌then◌else◌, ◌==◌, ==_of_ne, ltb_of_lt,
}
use myrtus_psm_edge.Gcm.{Loader, EdContext, Status, success, failure, dec_update}
use myrtus_psm_edge.Gcm.Spec.{blocks}
use myrtus_psm_edge.Gcm.Blocks.{
  ctr_bytes, ctr_bytes-append, length-ctr_bytes, length-blocks, blocks-append, hash_blocks-append,
  hash_blocks,
}
use myrtus_psm_edge.Gcm.Context.{Live}
use myrtus_psm_edge.Gcm.Tag.{Holds}
use myrtus_psm_edge.Server.{
  Session, Progress, going, stopped, overflowed, count_chunk, held, memcpy, full_record, on_record,
  read_record,
}
use myrtus_psm_edge.Server.Serves.{
  Serves, after, dec_update-Serves, after-paccum, after-Live, after-handle, after-index,
  after-Holds,
}

-- What the file will hold once the bytes that wait in `outmsg` are written.
unfoldable pub pending : Session → List ℕ
pending s = if s.ct == 0 then s.file else s.file ++ held s 16

pub memcpy_lem :
    (off n : ℕ) (dst src : List ℕ)
    → n ≤ length src
    → off + n ≤ length dst
    → memcpy dst off src n ≡ take off dst ++ (take n src ++ drop (off + n) dst)
memcpy_lem off n dst src p q =
    ap (λ d. memcpy d off src n) (sym (take-append-drop off dst))
    ∙ fill_table off (λ i. get_or src i 0) n 0 (take off dst) (drop off dst)
        (omega (arith, length-take off dst)) (omega (arith, length-drop off dst))
    ∙ ap₂ (λ t u. take off dst ++ (t ++ u)) (table-get_or src n 0 (omega arith))
        (drop-drop n off dst)

-- `n` whole blocks, the message `d`, have been read.
pub record Reading (e : List ℕ → List ℕ) (iv k : List ℕ) (handle : ℕ) (d : List ℕ) (n : ℕ)
    (s : Session) : Type 0 where
  pub holds : Holds e iv k d s.cx
  pub live : Live iv s.cx
  pub opened : s.cx.handle ≡ handle
  pub cut : length d ≡ 16 * n
  pub next : s.cx.index ≡ n + 1
  pub out_size : length s.outmsg ≡ 1024
  pub buffer_size : length s.buffer ≡ 1024
  pub tag_room : length s.tag ≡ 32
  pub at_front : s.tp ≡ 0
  pub no_part : s.part ≡ false
  pub counts : 64 * s.ct ≡ n
  pub written : pending s ≡ ctr_bytes e iv 2 d

-- The last record was full; it ended with the block `rear`, and `d` is the message before it.
pub record Tail (e : List ℕ → List ℕ) (d rear : List ℕ) (s : Session) : Type 0 where
  pub counted : (s.ct == 0) ≡ false
  pub block : length rear ≡ 16
  pub hashed : s.cx.paccum ≡ hash_blocks (e (replicate 16 0)) (replicate 16 0) (blocks d)
  pub in_buffer : drop 1008 s.buffer ≡ rear
  pub in_tag : take 16 s.tag ≡ rear
  pub on_file : s.file ++ held s 16 ≡ pending s

-- A full record, given what `dec_update` returns on it.
unfoldable pub full_with : Status × EdContext × List ℕ → Session → Progress
full_with r s = elim r.0 [
  | failure ↦ stopped (record s { cx = r.1; outmsg = r.2; file = pending s })
  | success ↦ count_chunk (record s {
    cx = r.1;
    outmsg = r.2;
    tag = memcpy s.tag 0 (drop 1008 s.buffer) 16;
    file = pending s ++ take 1008 r.2;
  })
]

pub full_record_lem :
    (loader : Loader) (mode : ℕ) (s : Session)
    → full_record loader mode s ≡ full_with (dec_update loader mode s.cx s.outmsg s.buffer 1024) s
unfolding full_record full_with pending
full_record_lem loader mode s = refl

module _ (loader : Loader) (e : List ℕ → List ℕ) (iv k : List ℕ) (handle : ℕ) where
  -- The session after a full record.
  pub refilled : Session → List ℕ → Session
  refilled s bytes = record s {
    buffer = bytes;
    cx = after s.cx bytes;
    outmsg = ctr_bytes e iv (s.cx.index + 1) bytes;
    tag = memcpy s.tag 0 (drop 1008 bytes) 16;
    ct = s.ct + 1;
    kbyte = (s.ct + 1) * 1024;
    file = pending s ++ take 1008 (ctr_bytes e iv (s.cx.index + 1) bytes);
  }

  pub on_full :
      (mode : ℕ) (s : Session) (bytes : List ℕ)
      → length bytes ≡ 1024
      → length s.buffer ≡ 1024
      → read_record loader (mode, bytes) s ≡ full_record loader mode (record s { buffer = bytes })
  unfolding read_record on_record
  on_full mode s bytes size room =
      ap (λ b. on_record loader mode (length bytes) (record s { buffer = b }))
        (ap (λ t. bytes ++ t) (drop_of_le (length bytes) s.buffer (omega arith)) ∙ append-nil bytes)
      ∙ ap (λ l. on_record loader mode l (record s { buffer = bytes })) size

  pub read_record-full :
      (mode : ℕ) (s : Session) (bytes d : List ℕ) (n : ℕ)
      → Reading e iv k handle d n s
      → Serves loader handle k e mode
      → length bytes ≡ 1024
      → length d + 1024 < 2 ^ 31
      → read_record loader (mode, bytes) s ≡ going (refilled s bytes)
  unfolding refilled full_with pending
  read_record-full mode s bytes d n v serves size small =
      let front : take 1024 bytes ≡ bytes = take_of_le 1024 bytes (omega arith) in
      let count : length (blocks bytes) ≡ 64 = length-blocks 64 bytes size in
      let call =
        dec_update-Serves loader k e iv mode s.cx s.outmsg bytes 1024
          (subst (λ h. Serves loader h k e mode) (sym v.opened) serves) v.holds.holds_kcopy v.live
          (omega arith) (omega (arith, v.out_size))
          (omega (arith, v.next, v.cut, ap (λ b. length (blocks b)) front, count))
          (ap length front ∙ size)
        ∙ ap₂ (λ b t. (success, after s.cx b, ctr_bytes e iv (s.cx.index + 1) b ++ t)) front
            (drop_of_le 1024 s.outmsg (omega (arith, v.out_size)))
        ∙ ap (λ t. (success, after s.cx bytes, t))
            (append-nil (ctr_bytes e iv (s.cx.index + 1) bytes)) in
      on_full mode s bytes size v.buffer_size
      ∙ full_record_lem loader mode (record s { buffer = bytes })
      ∙ ap (λ r. full_with r (record s { buffer = bytes })) call
      ∙ ap (λ b. if b then going (refilled s bytes) else overflowed)
          (ltb_of_lt ((s.ct + 1) * 1024) (2 ^ 31) (omega (arith, v.counts, v.cut, small)))

  pub refilled-Reading :
      (s : Session) (bytes d : List ℕ) (n : ℕ)
      → Reading e iv k handle d n s
      → length bytes ≡ 1024
      → length d + 1024 < 2 ^ 31
      → Reading e iv k handle (d ++ bytes) (n + 64) (refilled s bytes)
  unfolding refilled pending
  refilled-Reading s bytes d n v size small =
      let out = ctr_bytes e iv (s.cx.index + 1) bytes in
      let out_length : length out ≡ 1024 = length-ctr_bytes e iv (s.cx.index + 1) bytes ∙ size in
      let count : length (blocks bytes) ≡ 64 = length-blocks 64 bytes size in
      record {
        holds = after-Holds e iv k d n s.cx bytes v.holds v.cut (omega arith);
        live = after-Live s.cx bytes v.live;
        opened = after-handle s.cx bytes ∙ v.opened;
        cut = omega (arith, length-append d bytes, v.cut);
        next = after-index s.cx bytes (omega (arith, v.next, v.cut)) ∙ omega (arith, v.next);
        out_size = out_length;
        buffer_size = size;
        tag_room = omega (
          arith,
          ap length (
              memcpy_lem 0 16 s.tag (drop 1008 bytes) (omega (arith, length-drop 1008 bytes))
                (omega (arith, v.tag_room))),
          length-append (take 16 (drop 1008 bytes)) (drop (0 + 16) s.tag),
          length-take 16 (drop 1008 bytes),
          length-drop 1008 bytes,
          length-drop (0 + 16) s.tag,
          v.tag_room,
        );
        at_front = v.at_front;
        no_part = v.no_part;
        counts = omega (arith, v.counts);
        written = rw (==_of_ne (s.ct + 1) 0 (λ h. omega (arith, h))) (
            append_assoc (pending s) (take 1008 out) (take 16 (drop 1008 out))
            ∙ ap (λ t. pending s ++ (take 1008 out ++ t))
                (take_of_le 16 (drop 1008 out) (omega (arith, length-drop 1008 out)))
            ∙ ap₂ ◌++◌ v.written (take-append-drop 1008 out)
            ∙ ap (λ i. ctr_bytes e iv 2 d ++ ctr_bytes e iv i bytes) (omega (arith, v.next))
            ∙ sym (ctr_bytes-append e iv n 2 d bytes v.cut));
      }

  pub refilled-Tail :
      (s : Session) (bytes d : List ℕ) (n : ℕ)
      → Reading e iv k handle d n s
      → length bytes ≡ 1024
      → Tail e (d ++ take 1008 bytes) (drop 1008 bytes) (refilled s bytes)
  unfolding refilled pending
  refilled-Tail s bytes d n v size =
      let front = take 1008 bytes in
      let rear = drop 1008 bytes in
      let h = e (replicate 16 0) in
      let rear_length : length rear ≡ 16 = omega (arith, length-drop 1008 bytes) in
      record {
        counted = ==_of_ne (s.ct + 1) 0 (λ h. omega (arith, h));
        block = rear_length;
        hashed =
            ap (λ t. (after s.cx t).paccum) (sym (take-append-drop 1008 bytes))
            ∙ after-paccum s.cx 63 front rear (omega (arith, length-take 1008 bytes)) rear_length
            ∙ ap₂ (λ x a. hash_blocks x a (blocks front)) v.holds.holds_h v.holds.holds_accum
            ∙ sym (hash_blocks-append h (replicate 16 0) (blocks d) (blocks front))
            ∙ ap (hash_blocks h (replicate 16 0)) (sym (blocks-append n d front v.cut));
        in_buffer = refl;
        in_tag =
            ap (take 16)
              (memcpy_lem 0 16 s.tag rear (omega (arith, rear_length)) (omega (arith, v.tag_room)))
            ∙ take-append 16 (take 16 rear) (drop (0 + 16) s.tag)
                (omega (arith, rear_length, length-take 16 rear))
            ∙ take-take 16 16 rear (omega arith)
            ∙ take_of_le 16 rear (omega (arith, rear_length));
        on_file = rw (==_of_ne (s.ct + 1) 0 (λ h. omega (arith, h))) refl;
      }
