-- ===== src/Client/Playback.antt =====
-- `audio_playback_thread` of src/client/client.cpp: one round of its loop, with the player's answers as
-- arguments.
use audio_router.Prelude.{
  ℕ, ◌*◌, ◌/◌, ◌^◌, ◌<◌, ◌≤◌, ◌≡◌, refl, arith, Bool, true, ◌&&◌, List, [], Option, none, some, ltb,
  if◌then◌else◌, if_elim, length, ◌⊎◌, inl, inr,
}
use mathlib.Core.Path.{subst}
use audio_router.Prelude.Word.{add64, mul64, u32, sub32}
use audio_router.Config.{AudioConfig}
use audio_router.Jitter.{JitterBuffer}
use audio_router.Jitter.Inv.{IsValid}
use audio_router.Jitter.Pop.{pop_frames}
use audio_router.Jitter.PopTotal.{Delivered, pop_frames-Delivered}

-- What the player answers in one round: is there one and is it open, how many frames `write_frames`
-- takes, and what it reports behind that.
pub record PlayerAnswer : Type 0 where
  pub is_open : Bool
  pub written : ℕ
  pub delay_frames : ℕ
  pub needs_pacing : Bool

pub record Playback (D : Type 0) : Type 0 where
  pub jitter_buffer : JitterBuffer D
  pub frames_played : ℕ  -- uint64_t
  pub audio_backend_delay_ms : ℕ  -- uint32_t

-- What a round does: the samples that the player is given, and how long the thread sleeps.
pub record Round (D : Type 0) : Type 0 where
  pub after : Playback D
  pub given : List ℕ
  pub sleep_ms : ℕ

abbrev pub rate_or_default : AudioConfig → ℕ
rate_or_default c = if ltb 0 c.sample_rate then c.sample_rate else 48000

abbrev pub period_frames : AudioConfig → ℕ
period_frames c = if ltb 0 c.frames_per_packet then c.frames_per_packet else 240

unfoldable pub fallback_sleep_ms : AudioConfig → ℕ
fallback_sleep_ms c =
    let duration = u32 (mul64 (period_frames c) 1000 / rate_or_default c) in
    if ltb 0 duration then duration else 2

-- The size of `play_buffer`.
abbrev pub play_buffer_size : AudioConfig → ℕ
play_buffer_size c = mul64 (period_frames c) c.channels

fallback_sleep_ms-pos : (c : AudioConfig) → 0 < fallback_sleep_ms c
unfolding fallback_sleep_ms
fallback_sleep_ms-pos c = ground arith

product_lt : (n k : ℕ) → n ≤ 2 ^ 32 → k ≤ 2 ^ 16 → n * k < 2 ^ 64
product_lt n k l m = let w : n * k ≤ 2 ^ 32 * 2 ^ 16 = grind arith in omega arith

module _ {D : Type 0} where
  -- The player took frames: they are counted, and the thread waits for a backend that runs ahead.
  unfoldable pub note_written : AudioConfig → Playback D → List ℕ → PlayerAnswer → Round D
  note_written c p samples a =
      let delay = u32 (mul64 a.delay_frames 1000 / rate_or_default c) in
      record {
        after = record p {
          frames_played = add64 p.frames_played a.written;
          audio_backend_delay_ms = delay;
        };
        given = samples;
        sleep_ms = if ltb 60 delay && a.needs_pacing then sub32 delay 40 else 0;
      }

  abbrev pub idle : AudioConfig → Playback D → List ℕ → Round D
  idle c p samples = record { after = p; given = samples; sleep_ms = fallback_sleep_ms c }

  unfoldable pub play :
      AudioConfig
      → Playback D
      → PlayerAnswer
      → Option (ℕ × List ℕ × JitterBuffer D)
      → Option (Round D)
  play c p a none = none
  play c p a (some (frames, samples, jb)) =
      let p1 = record p { jitter_buffer = jb } in
      if ltb 0 frames
      then (if a.is_open
          then (if ltb 0 a.written
              then some (note_written c p1 samples a)
              else some (idle c p1 samples))
          else some (idle c p1 []))
      else some (idle c p1 [])

  -- `none` is a round that does not end; 257 rounds are enough for the drain of `pop_frames`.
  unfoldable pub playback_round : AudioConfig → Playback D → PlayerAnswer → ℕ → Option (Round D)
  playback_round c p a now_ms = play c p a (pop_frames 257 p.jitter_buffer (period_frames c) now_ms)

  -- The samples fill `play_buffer` exactly or are not asked for; the buffer stays valid; and a round in
  -- which the player takes nothing sleeps.
  abbrev pub IsPaced : AudioConfig → Playback D → PlayerAnswer → Option (Round D) → Type 0
  IsPaced c p a none = ⊥
  IsPaced c p a (some r) =
      IsValid r.after.jitter_buffer
      × ((r.given ≡ []) ⊎ (length r.given ≡ play_buffer_size c))
      × (((r.after.frames_played ≡ p.frames_played) × (0 < r.sleep_ms))
          ⊎ ((a.is_open ≡ true)
              × (0 < a.written)
              × (r.after.frames_played ≡ add64 p.frames_played a.written)))

  play-IsPaced :
      (c : AudioConfig) (p : Playback D) (a : PlayerAnswer)
      (o : Option (ℕ × List ℕ × JitterBuffer D))
      → period_frames c * c.channels < 2 ^ 64
      → Delivered (period_frames c) c.channels o
      → IsPaced c p a (play c p a o)
  unfolding play note_written
  play-IsPaced c p a none w d = absurd d
  play-IsPaced c p a (some (frames, samples, jb)) w (e, l, v, k) =
      let full : length samples ≡ play_buffer_size c = omega arith in
      let s = fallback_sleep_ms-pos c in
      if_elim (IsPaced c p a) (ltb 0 frames) _ _
        (λ _.
          if_elim (IsPaced c p a) a.is_open _ _
            (λ o.
              if_elim (IsPaced c p a) (ltb 0 a.written) _ _
                (λ t. (v, inr full, inr (o, ground arith, refl))) λ _. (v, inr full, inl (refl, s)))
            λ _. (v, inl refl, inl (refl, s)))
        λ _. (v, inl refl, inl (refl, s))

  -- A round ends, on 257 rounds of fuel, and leaves the jitter buffer valid. It gives the player nothing
  -- or samples that fill the play buffer exactly; and either the player took frames, which are counted
  -- as many as it took, or none are counted and the thread sleeps a millisecond or more. The jitter buffer is
  -- configured for the channels of the stream.
  pub playback_round-IsPaced :
      (c : AudioConfig) (p : Playback D) (a : PlayerAnswer) (now_ms : ℕ)
      → IsValid p.jitter_buffer
      → p.jitter_buffer.target_buffer_frames < 2 ^ 63
      → p.jitter_buffer.config.channels ≡ c.channels
      → c.frames_per_packet < 2 ^ 32
      → c.channels < 2 ^ 16
      → IsPaced c p a (playback_round c p a now_ms)
  unfolding playback_round
  playback_round-IsPaced c p a now_ms v t e f g =
      let n = period_frames c in
      let n_max : n ≤ 2 ^ 32 = ground arith in
      let room = product_lt n c.channels n_max (omega arith) in
      play-IsPaced c p a (pop_frames 257 p.jitter_buffer n now_ms) room (
        subst (λ k. Delivered n k (pop_frames 257 p.jitter_buffer n now_ms)) e
          (pop_frames-Delivered p.jitter_buffer n now_ms v t (omega arith) (rw e room)))
