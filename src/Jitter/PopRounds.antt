-- ===== src/Jitter/PopRounds.antt =====
-- What each round of the copying loop of `pop_frames` delivers (src/client/jitter_buffer.cpp).
use audio_router.Prelude.{
  ℕ, ◌+◌, ◌*◌, ◌^◌, ◌<◌, ◌≤◌, ◌≡◌, refl, ◌∙◌, arith, true, List, ltb, leb, if◌then◌else◌, length,
  take, drop, length-take, length-drop, length-replicate, min, if_elim,
}
use audio_router.Prelude.Word.{add64, sub64, mul64}
use audio_router.Jitter.{JitterBuffer}
use audio_router.Jitter.Inv.{IsValid}
use audio_router.Jitter.Pop.{
  Round, current, at_packet, leave_slot, copy_round, conceal_round, dry_round, pop_round,
  has_future,
}
use audio_router.Jitter.PushKept.{samples_exact}
use audio_router.Jitter.PopInv.{leave_slot-IsValid, current_left, offset-IsValid}

-- What a round promises: some frames but not too many, their samples, a valid state, and all that
-- is needed if it breaks out.
pub record Delivers {D : Type 0} (jb : JitterBuffer D) (needed : ℕ) (r : Round D) : Type 0 where
  pub valid : IsValid r.after
  pub config : r.after.config ≡ jb.config
  pub some_frames : 0 < r.frames
  pub no_more : r.frames ≤ needed
  pub samples : length r.samples ≡ r.frames * jb.config.channels
  pub all_if_stop : r.stop ≡ true → r.frames ≡ needed

pub mul_mono : (a b c : ℕ) → a ≤ b → a * c ≤ b * c
mul_mono a b c h = grind arith

pub mul64_exact : (k c needed : ℕ) → k ≤ needed → needed * c < 2 ^ 64 → mul64 k c ≡ k * c
mul64_exact k c needed h b = let q : k * c ≤ needed * c = grind arith in omega arith

-- The samples of `k` frames from frame `o` on lie inside those of `n` frames.
slice_length :
    (xs : List ℕ) (o k n c : ℕ)
    → length xs ≡ n * c
    → o + k ≤ n
    → length (take (k * c) (drop (o * c) xs)) ≡ k * c
slice_length xs o k n c e h =
    let q = mul_mono (o + k) n c h in
    omega (arith, length-take (k * c) (drop (o * c) xs), length-drop (o * c) xs)

module _ {D : Type 0} where
  dry_round-Delivers :
      (jb : JitterBuffer D) (needed : ℕ)
      → IsValid jb
      → 0 < needed
      → needed * jb.config.channels < 2 ^ 64
      → Delivers jb needed (dry_round jb needed)
  unfolding dry_round
  dry_round-Delivers jb needed v p b = record {
    valid = v;
    config = refl;
    some_frames = p;
    no_more = omega arith;
    samples =
        length-replicate (mul64 needed jb.config.channels) 0
        ∙ mul64_exact needed jb.config.channels needed (omega arith) b;
    all_if_stop = λ _. refl;
  }

  conceal_round-Delivers :
      (jb : JitterBuffer D) (needed : ℕ)
      → IsValid jb
      → 0 < needed
      → needed * jb.config.channels < 2 ^ 64
      → Delivers jb needed (conceal_round jb needed)
  unfolding conceal_round leave_slot
  conceal_round-Delivers jb needed v p b =
      let size = jb.config.frames_per_packet in
      let k : ℕ = min needed (if ltb 0 size then size else 240) in
      record {
        valid = leave_slot-IsValid jb v;
        config = refl;
        some_frames = ground arith;
        no_more = omega arith;
        samples =
            length-replicate (mul64 k jb.config.channels) 0
            ∙ mul64_exact k jb.config.channels needed (omega arith) b;
        all_if_stop = λ e. absurd (cc);
      }

  copy_round-Delivers :
      (jb : JitterBuffer D) (needed : ℕ)
      → IsValid jb
      → at_packet jb ≡ true
      → 0 < needed
      → needed * jb.config.channels < 2 ^ 64
      → Delivers jb needed (copy_round jb needed)
  unfolding copy_round
  copy_round-Delivers jb needed v e p b =
      let c = jb.config.channels in
      let o = jb.slot_frame_offset in
      let (left, word, all, live) = current_left jb v e in
      let k : ℕ = min (sub64 (current jb).num_frames o) needed in
      let fits : o + k ≤ (current jb).num_frames = omega arith in
      let exact = mul64_exact k c needed (omega arith) b in
      let start : mul64 o c ≡ o * c = samples_exact o c (omega arith) v.channels_word in
      let jb' : JitterBuffer D = record jb { slot_frame_offset = add64 o k } in
      record {
        valid =
            if_elim IsValid (leb (current jb).num_frames (add64 o k)) (leave_slot jb') jb'
              (λ _. unfold leave_slot in leave_slot-IsValid jb v)
              (λ l. offset-IsValid jb (add64 o k) v e (ground arith));
        config =
            if_elim (λ a. a.config ≡ jb.config) (leb (current jb).num_frames (add64 o k))
              (leave_slot jb') jb' (λ _. unfold leave_slot in refl) (λ _. refl);
        some_frames = omega arith;
        no_more = omega arith;
        samples =
            rw (exact, start)
              (slice_length (current jb).pcm_data o k (current jb).num_frames c all fits);
        all_if_stop = λ f. absurd (cc);
      }

  -- Every round delivers, at a packet, at a hole and when dry.
  pub pop_round-Delivers :
      (jb : JitterBuffer D) (needed : ℕ)
      → IsValid jb
      → 0 < needed
      → needed * jb.config.channels < 2 ^ 64
      → Delivers jb needed (pop_round jb needed)
  unfolding pop_round
  pop_round-Delivers jb needed v p b =
      if_elim (Delivers jb needed) (at_packet jb) (copy_round jb needed) _
        (λ e. copy_round-Delivers jb needed v e p b)
        λ _.
          if_elim (Delivers jb needed) (has_future jb 255 1) (conceal_round jb needed)
            (dry_round jb needed) (λ _. conceal_round-Delivers jb needed v p b)
            (λ _. dry_round-Delivers jb needed v p b)
