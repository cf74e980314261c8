-- ===== src/Jitter/PushKept.antt =====
-- `push_packet` as a whole: it reads inside its data and keeps the invariant
-- (src/client/jitter_buffer.cpp).
use audio_router.Prelude.{
  ℕ, ◌*◌, ◌^◌, ◌<◌, ◌≤◌, ◌≡◌, ap, ◌∙◌, arith, Bool, true, false, List, Option, none, some, ◌==◌,
  length, take, length-take, if_elim, ◌&&◌,
}
use audio_router.Prelude.Word.{mul64, sub32}
use audio_router.Jitter.{Doubles, JitterBuffer}
use audio_router.Jitter.Inv.{IsValid}
use audio_router.Jitter.Push.{
  copy_samples, note_arrival, first_packet, distance, resync, store, track_run, exit_buffering,
  finish, count_late, count_duplicate, is_late, is_duplicate, place, push_packet, fill_reached,
}
use audio_router.Jitter.PushInv.{
  first_packet-IsValid, first_packet-has_first, resync-IsValid, store-IsValid,
}

-- A call that reads inside its data, and keeps the invariant.
abbrev pub Kept : {D : Type 0} → Option (Bool × JitterBuffer D) → Type 0
Kept none = ⊥
Kept (some (_, jb)) = IsValid jb

pub copy_samples_lem :
    (n : ℕ) (src : List ℕ)
    → n ≤ length src
    → (copy_samples n src ≡ some (take n src)) × (length (take n src) ≡ n)
unfolding copy_samples
copy_samples_lem n src h = (ground arith, omega (arith, length-take n src))

pub samples_exact : (f c : ℕ) → f < 2 ^ 32 → c < 2 ^ 16 → mul64 f c ≡ f * c
samples_exact f c hf hc = let small : f * c < 2 ^ 32 * 2 ^ 16 = grind arith in omega arith

module _ {D : Type 0} where
  exit_buffering-IsValid :
      (jb : JitterBuffer D) (now_ms : ℕ) → IsValid jb → IsValid (exit_buffering jb now_ms)
  unfolding exit_buffering
  exit_buffering-IsValid jb now_ms v =
      if_elim IsValid (jb.is_buffering && fill_reached jb) _ jb (λ _. v) (λ _. v)

  track_run-IsValid : (jb : JitterBuffer D) (seq : ℕ) → IsValid jb → IsValid (track_run jb seq)
  unfolding track_run
  track_run-IsValid jb seq v = v

  finish-Kept :
      (jb : JitterBuffer D) (seq ts frames now_ms : ℕ) (pcm : List ℕ)
      → IsValid jb
      → jb.has_first_packet ≡ true
      → seq < 2 ^ 32
      → sub32 seq jb.next_play_seq < 256
      → is_duplicate jb seq ≡ false
      → 0 < frames
      → frames < 2 ^ 32
      → frames * jb.config.channels ≤ length pcm
      → Kept (finish jb seq ts frames now_ms (copy_samples (mul64 frames jb.config.channels) pcm))
  unfolding finish
  finish-Kept jb seq ts frames now_ms pcm v first h w d p f l =
      let n : ℕ = frames * jb.config.channels in
      let (copied, len) = copy_samples_lem n pcm l in
      rw (samples_exact frames jb.config.channels f v.channels_word, copied)
        (exit_buffering-IsValid (track_run (store jb seq ts (take n pcm) frames) seq) now_ms (
          track_run-IsValid (store jb seq ts (take n pcm) frames) seq
            (store-IsValid jb seq ts (take n pcm) frames v first h w d p f len)))

  place-Kept :
      (jb : JitterBuffer D) (seq ts frames now_ms : ℕ) (pcm : List ℕ)
      → IsValid jb
      → jb.has_first_packet ≡ true
      → seq < 2 ^ 32
      → 0 < frames
      → frames < 2 ^ 32
      → frames * jb.config.channels ≤ length pcm
      → Kept (place jb seq ts pcm frames now_ms)
  unfolding place
  place-Kept jb seq ts frames now_ms pcm v first h p f l =
      let diff = distance jb seq in
      let jb' = resync jb diff seq in
      let (v', w, c, g) = resync-IsValid jb seq h v in
      let room : frames * jb'.config.channels ≤ length pcm = rw (ap (λ k. k.channels) c) l in
      if_elim Kept (is_late diff) _ _ (λ _. unfold count_late in v)
        λ _.
          if_elim Kept (is_duplicate jb' seq) _ _ (λ _. unfold count_duplicate in v')
            λ d. finish-Kept jb' seq ts frames now_ms pcm v' (g ∙ first) h w d p f room

  -- A push of a packet that holds its samples never reads past them and keeps the invariant,
  -- whatever its sequence number: in order, late, duplicate or far away.
  pub push_packet-Kept :
      (fl : Doubles D) (jb : JitterBuffer D) (seq ts frames now_us now_ms : ℕ) (pcm : List ℕ)
      → IsValid jb
      → seq < 2 ^ 32
      → frames < 2 ^ 32
      → frames * jb.config.channels ≤ length pcm
      → Kept (push_packet fl jb seq ts (some pcm) frames now_us now_ms)
  unfolding push_packet note_arrival
  push_packet-Kept fl jb seq ts frames now_us now_ms pcm v h f l =
      let noted = note_arrival fl jb ts now_us in
      let jb' = first_packet noted seq in
      let (first, c) = first_packet-has_first noted seq in
      let room : frames * jb'.config.channels ≤ length pcm = rw (ap (λ k. k.channels) c) l in
      if_elim Kept (frames == 0) _ _ (λ _. v)
        λ z.
          place-Kept jb' seq ts frames now_ms pcm (first_packet-IsValid noted seq h v) first h
            (ground arith) f room
