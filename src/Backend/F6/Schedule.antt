-- ===== src/Backend/F6/Schedule.antt =====
-- The key schedule of f6 is that of f5, and so that of FIPS 197.
use myrtus_psm_edge.Common.{
  ℕ, zero, suc, ◌≤◌, ◌≡◌, refl, ◌∙◌, ap, List, length, get_or, set, for_range, if◌then◌else◌, ltb,
  ◌==◌, ◌%◌, ◌⊕◌, u8, ◌+◌,
}
use myrtus_psm_edge.Backend.Spec
use myrtus_psm_edge.Backend.F5
use myrtus_psm_edge.Backend.F6
use myrtus_psm_edge.Backend.F5.{Expansion}
use myrtus_psm_edge.Backend.F5.Keys.{expand_key_refines}

rcon_loop_same : (n c : ℕ) → F6.rcon_loop n c ≡ F5.rcon_loop n c
unfolding F6.rcon_loop F5.rcon_loop F6.twice F5.gmul2
rcon_loop_same zero c = refl
rcon_loop_same (suc zero) c = refl
rcon_loop_same (suc (suc n)) c = rcon_loop_same (suc n) (F6.twice c)

rcon_same : (n : ℕ) → F6.rcon n ≡ F5.rcon n
unfolding F6.rcon F5.rcon
rcon_same n = ap (λ t. if n == 0 then 0 else t) (rcon_loop_same n 1)

schedule_core_same : (t : List ℕ) (i : ℕ) → F6.schedule_core t i ≡ F5.schedule_core t i
unfolding F6.schedule_core F5.schedule_core F6.rotate F5.rotate F6.sub F5.sub
schedule_core_same t i =
    let s = for_range 4 0 (λ a s. set s a (F5.sub (get_or s a 0))) (F5.rotate t) in
    ap (λ r. set s 0 (get_or s 0 0 ⊕ r)) (rcon_same i)

expand_block_same : (e : Expansion) → F6.expand_block e ≡ F5.expand_block e
unfolding F6.expand_block F5.expand_block F6.schedule_sub F5.schedule_sub F6.sub F5.sub
expand_block_same e =
    let starts = e.c % 32 == 0 in
    let i = if starts then u8 (e.i + 1) else e.i in
    ap
      (λ w.
        let t = if starts then w else F5.last_word e in
        for_range 4 0 (F5.store_byte (if e.c % 32 == 16 then F5.schedule_sub t else t))
          (record e { i = i }))
      (schedule_core_same (F5.last_word e) e.i)

expand_loop_same : (fuel : ℕ) (e : Expansion) → F6.expand_loop fuel e ≡ F5.expand_loop fuel e
unfolding F6.expand_loop F5.expand_loop
expand_loop_same zero e = refl
expand_loop_same (suc fuel) e =
    ap (λ r. if ltb e.c 240 then r else e)
      (expand_loop_same fuel (F6.expand_block e) ∙ ap (F5.expand_loop fuel) (expand_block_same e))

-- The key schedule of backends/f6, on an array of 240 bytes whose first 32 are those of a key
-- of at least 32, gives the round keys of AES-256 of FIPS 197, whatever the other bytes held.
pub bitsliced_256_refines :
    (rkey key : List ℕ)
    → length rkey ≡ 240
    → 32 ≤ length key
    → F6.expand_key (for_range 32 0 (λ i s. set s i (get_or key i 0)) rkey)
      ≡ Spec.key_expansion 8 14 key
unfolding F6.expand_key F5.expand_key
bitsliced_256_refines rkey key l h =
    ap (λ e. e.buf) (expand_loop_same 52 _) ∙ expand_key_refines rkey key l h
