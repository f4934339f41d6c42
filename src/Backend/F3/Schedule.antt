-- ===== src/Backend/F3/Schedule.antt =====
-- The key schedule of f3 is that of f2, and so that of FIPS 197.
use myrtus_psm_edge.Common.{
  ℕ, zero, suc, ◌≤◌, ◌≡◌, refl, ◌∙◌, ap, List, length, get_or, set, for_range, if◌then◌else◌, ltb,
  ◌==◌, ◌%◌, ◌⊕◌, u8, ◌+◌,
}
use myrtus_psm_edge.Backend.Spec
use myrtus_psm_edge.Backend.F2
use myrtus_psm_edge.Backend.F3
use myrtus_psm_edge.Backend.F2.{Expansion}
use myrtus_psm_edge.Backend.F2.Keys.{expand_key_refines}

rcon_loop_same : (n c : ℕ) → F3.rcon_loop n c ≡ F2.rcon_loop n c
unfolding F3.rcon_loop F2.rcon_loop F3.twice F2.gmul2
rcon_loop_same zero c = refl
rcon_loop_same (suc zero) c = refl
rcon_loop_same (suc (suc n)) c = rcon_loop_same (suc n) (F3.twice c)

rcon_same : (n : ℕ) → F3.rcon n ≡ F2.rcon n
unfolding F3.rcon F2.rcon
rcon_same n = ap (λ t. if n == 0 then 0 else t) (rcon_loop_same n 1)

schedule_core_same : (t : List ℕ) (i : ℕ) → F3.schedule_core t i ≡ F2.schedule_core t i
unfolding F3.schedule_core F2.schedule_core F3.rotate F2.rotate F3.sub F2.sub
schedule_core_same t i =
    let s = for_range 4 0 (λ a s. set s a (F2.sub (get_or s a 0))) (F2.rotate t) in
    ap (λ r. set s 0 (get_or s 0 0 ⊕ r)) (rcon_same i)

expand_block_same : (e : Expansion) → F3.expand_block e ≡ F2.expand_block e
unfolding F3.expand_block F2.expand_block
expand_block_same e =
    let starts = e.c % 16 == 0 in
    let i = if starts then u8 (e.i + 1) else e.i in
    ap
      (λ w.
        let t = if starts then w else F2.last_word e in
        for_range 4 0 (F2.store_byte t) (record e { i = i }))
      (schedule_core_same (F2.last_word e) e.i)

expand_loop_same : (fuel : ℕ) (e : Expansion) → F3.expand_loop fuel e ≡ F2.expand_loop fuel e
unfolding F3.expand_loop F2.expand_loop
expand_loop_same zero e = refl
expand_loop_same (suc fuel) e =
    ap (λ r. if ltb e.c 176 then r else e)
      (expand_loop_same fuel (F3.expand_block e) ∙ ap (F2.expand_loop fuel) (expand_block_same e))

-- The key schedule of backends/f3, on an array of 176 bytes whose first 16 are those of a key
-- of at least 16, gives the round keys of AES-128 of FIPS 197, whatever the other bytes held.
pub bitsliced_128_refines :
    (rkey key : List ℕ)
    → length rkey ≡ 176
    → 16 ≤ length key
    → F3.expand_key (for_range 16 0 (λ i s. set s i (get_or key i 0)) rkey)
      ≡ Spec.key_expansion 4 10 key
unfolding F3.expand_key F2.expand_key
bitsliced_128_refines rkey key l h =
    ap (λ e. e.buf) (expand_loop_same 40 _) ∙ expand_key_refines rkey key l h
