-- ===== src/Jitter/PopTotal.antt =====
-- `pop_frames` as a whole: it ends, and delivers exactly the frames asked for
-- (src/client/jitter_buffer.cpp).
use audio_router.Prelude.{
  ℕ, zero, suc, ◌+◌, ◌-◌, ◌*◌, ◌^◌, ◌<◌, ◌≤◌, ◌≡◌, refl, ap, ◌∙◌, arith, List, [], ◌++◌, Option,
  none, some, ltb, ◌==◌, length, length-replicate, length-append, if_elim, ◌||◌, not,
}
use audio_router.Prelude.Word.{add64, sub64, mul64}
use audio_router.Jitter.{JitterBuffer}
use audio_router.Jitter.Inv.{IsValid}
use mathlib.Core.Path.{subst}
use audio_router.Jitter.Pop.{pop_round, pop_loop, pop_frames, pop_from, drain}
use audio_router.Jitter.Advance.{Advanced, drain-Advanced}
use audio_router.Jitter.PopRounds.{pop_round-Delivers, mul_mono, mul64_exact}

-- The result of a call that ends: a count, as many samples, and a valid state.
abbrev pub Delivered : {D : Type 0} → ℕ → ℕ → Option (ℕ × List ℕ × JitterBuffer D) → Type 0
Delivered n channels none = ⊥
Delivered n channels (some (frames, samples, jb)) =
    (frames ≡ n) × (length samples ≡ n * channels) × IsValid jb × (jb.config.channels ≡ channels)

module _ {D : Type 0} where
  -- From `d` frames on, with a round of fuel for each frame that is missing, the loop ends with
  -- exactly `n` frames.
  pub pop_loop-Delivered :
      (fuel : ℕ) (jb : JitterBuffer D) (n d : ℕ) (out : List ℕ)
      → IsValid jb
      → d ≤ n
      → n - d ≤ fuel
      → n < 2 ^ 64
      → n * jb.config.channels < 2 ^ 64
      → length out ≡ d * jb.config.channels
      → Delivered n jb.config.channels (pop_loop fuel jb n d out)
  unfolding pop_loop
  pop_loop-Delivered zero jb n d out v h f w b l =
      let e : d ≡ n = omega arith in
      if_elim (Delivered n jb.config.channels) (ltb d n) none _ (λ t. absurd (ground arith))
        (λ _. (e, l ∙ ap (λ k. k * jb.config.channels) e, v, refl))
  pop_loop-Delivered (suc fuel) jb n d out v h f w b l =
      let c = jb.config.channels in
      let needed = sub64 n d in
      let r = pop_round jb needed in
      let d' = add64 d r.frames in
      if_elim (Delivered n c) (ltb d n) _ (some (d, out, jb))
        (λ t.
          let less : d < n = ground arith in
          let room : needed * c < 2 ^ 64 = omega (arith, mul_mono needed n c (omega arith)) in
          let ds = pop_round-Delivers jb needed v (omega arith) room in
          let ce : r.after.config.channels ≡ c = ap (λ g. g.channels) ds.config in
          let de : d' ≡ d + r.frames = omega (arith, ds.no_more) in
          let len : length (out ++ r.samples) ≡ d' * c =
            rw de (omega (arith, length-append out r.samples, ds.samples)) in
          if_elim (Delivered n c) r.stop (some (d', out ++ r.samples, r.after))
            (pop_loop fuel r.after n d' (out ++ r.samples))
            (λ s.
              let all : d' ≡ n = omega (arith, ds.all_if_stop s) in
              (all, len ∙ ap (λ k. k * c) all, ds.valid, ce))
            (λ _.
              subst (λ k. Delivered n k (pop_loop fuel r.after n d' (out ++ r.samples))) ce
                (pop_loop-Delivered fuel r.after n d' (out ++ r.samples) ds.valid
                  (omega (arith, ds.no_more)) (omega (arith, ds.some_frames)) w (rw ce b)
                  (rw ce len))))
        (λ t. let e : d ≡ n = ground arith in (e, l ∙ ap (λ k. k * c) e, v, refl))

  -- `pop_frames` ends, on 257 rounds for the drain and one round for each frame. It delivers exactly
  -- the frames asked for with all their samples, whether buffering, playing, concealing or run dry,
  -- and keeps the invariant. The frames' samples must fit a `size_t`.
  pub pop_frames-Delivered :
      (jb : JitterBuffer D) (n now_ms : ℕ)
      → IsValid jb
      → jb.target_buffer_frames < 2 ^ 63
      → n < 2 ^ 64
      → n * jb.config.channels < 2 ^ 64
      → Delivered n jb.config.channels (pop_frames 257 jb n now_ms)
  unfolding pop_frames
  pop_frames-Delivered jb n now_ms v t w b =
      let c = jb.config.channels in
      if_elim (Delivered n c) (n == 0) _ _
        (λ z. let e : n ≡ 0 = ground arith in rw e (refl, omega arith, v, refl))
        λ _.
          if_elim (Delivered n c) (jb.is_buffering || not jb.has_first_packet) _ _
            (λ _.
              (refl, length-replicate (mul64 n c) 0 ∙ mul64_exact n c n (omega arith) b, v, refl))
            (λ _. play (drain 257 jb now_ms) (drain-Advanced jb now_ms v t))
    where
      play :
          (o : Option (JitterBuffer D))
          → Advanced jb o
          → Delivered n jb.config.channels (pop_from n o)
      play none a = elim a [ ]
      play (some jb') (v', same) =
          let ce = ap (λ g. g.channels) same in
          subst (λ k. Delivered n k (pop_loop n jb' n 0 [])) ce
            (pop_loop-Delivered n jb' n 0 [] v' (omega arith) (omega arith) w (rw ce b)
              (omega arith))
