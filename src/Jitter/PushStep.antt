-- ===== src/Jitter/PushStep.antt =====
-- What one `push_packet` does to the buffered packets, branch by branch
-- (src/client/jitter_buffer.cpp).
use audio_router.Prelude.{
  ℕ, ◌-◌, ◌*◌, ◌%◌, ◌^◌, ◌<◌, ◌≤◌, ◌≡◌, ◌↔◌, refl, ap, ◌∙◌, arith, Bool, true, false, List, [],
  Option, none, some, ◌==◌, length, take, if_elim, ◌&&◌,
}
use audio_router.Prelude.Word.{mul64, sub32}
use audio_router.Jitter.{Doubles, PacketSlot, JitterBuffer, set_slot}
use audio_router.Jitter.Inv.{IsValid}
use audio_router.Prelude.Int.{signed32, ltb_ℤ, leb_ℤ, pos}
use audio_router.Jitter.Push.{
  copy_samples, note_arrival, first_packet, distance, flush, resync, count_overrun, store,
  track_run, exit_buffering, finish, count_late, count_duplicate, is_late, is_duplicate, place,
  push_packet, fill_reached,
}
use audio_router.Jitter.PushInv.{stored, slot_of_window}
use audio_router.Jitter.PushKept.{copy_samples_lem, samples_exact}

-- What a call answers, and the slots and playhead that it leaves; a fault never fits.
abbrev pub Answers :
    {D : Type 0} → Bool → (ℕ → PacketSlot) → ℕ → Option (Bool × JitterBuffer D) → Type 0
Answers accepted slots next none = ⊥
Answers accepted slots next (some (b, jb)) =
    (b ≡ accepted) × (jb.slots ≡ slots) × (jb.next_play_seq ≡ next)

-- The signed distance in terms of the wrapped one.
late_iff : (u : ℕ) → u < 2 ^ 32 → (is_late (signed32 u) ≡ true) ↔ (2 ^ 32 - 256 < u)
late_iff u h = ground arith

module _ {D : Type 0} where
  Answers-cong :
      (b : Bool) {s s' : ℕ → PacketSlot} {n n' : ℕ} (o : Option (Bool × JitterBuffer D))
      → s ≡ s'
      → n ≡ n'
      → Answers b s n o
      → Answers b s' n' o
  Answers-cong b none p q a = a
  Answers-cong b (some (c, jb)) p q (e, f, g) = (e, f ∙ p, g ∙ q)

  exit_buffering-slots :
      (jb : JitterBuffer D) (now_ms : ℕ)
      → ((exit_buffering jb now_ms).slots ≡ jb.slots)
        × ((exit_buffering jb now_ms).next_play_seq ≡ jb.next_play_seq)
  unfolding exit_buffering
  exit_buffering-slots jb now_ms =
      if_elim (λ (a : JitterBuffer D). (a.slots ≡ jb.slots) × (a.next_play_seq ≡ jb.next_play_seq))
        (jb.is_buffering && fill_reached jb) _ jb (λ _. (refl, refl)) (λ _. (refl, refl))

  first_packet-started :
      (jb : JitterBuffer D) (seq : ℕ) → jb.has_first_packet ≡ true → first_packet jb seq ≡ jb
  unfolding first_packet
  first_packet-started jb seq e = ground arith

  finish-Answers :
      (jb : JitterBuffer D) (seq ts frames now_ms : ℕ) (pcm : List ℕ)
      → frames < 2 ^ 32
      → jb.config.channels < 2 ^ 16
      → frames * jb.config.channels ≤ length pcm
      → Answers true
          (set_slot jb.slots
            (seq % 256)
            (stored seq ts (take (frames * jb.config.channels) pcm) frames))
          jb.next_play_seq
          (finish jb seq ts frames now_ms (copy_samples (mul64 frames jb.config.channels) pcm))
  unfolding finish
  finish-Answers jb seq ts frames now_ms pcm f c l =
      let n : ℕ = frames * jb.config.channels in
      let st = track_run (store jb seq ts (take n pcm) frames) seq in
      rw (samples_exact frames jb.config.channels f c, (copy_samples_lem n pcm l).0)
        (let (a, b) = exit_buffering-slots st now_ms in unfold track_run store in (refl, a, b))

  resync_near :
      (jb : JitterBuffer D) (seq : ℕ)
      → sub32 seq jb.next_play_seq < 256
      → (is_late (distance jb seq) ≡ false) × (resync jb (distance jb seq) seq ≡ jb)
  unfolding resync
  resync_near jb seq h = ground arith

  -- Neither late nor near.
  resync_far :
      (jb : JitterBuffer D) (seq : ℕ)
      → 256 ≤ sub32 seq jb.next_play_seq
      → sub32 seq jb.next_play_seq ≤ 2 ^ 32 - 256
      → let jb' = resync jb (distance jb seq) seq in
        (is_late (distance jb seq) ≡ false)
        × (jb'.slots ≡ (λ i. record (jb.slots i) { is_valid = false; pcm_data = [] }))
        × (jb'.next_play_seq ≡ seq)
        × (jb'.config ≡ jb.config)
  unfolding resync flush count_overrun
  resync_far jb seq h k =
      let base = λ (i : ℕ). record (jb.slots i) { is_valid = false; pcm_data = [] } in
      let Far = λ (a : JitterBuffer D).
        (is_late (distance jb seq) ≡ false)
        × (a.slots ≡ base)
        × (a.next_play_seq ≡ seq)
        × (a.config ≡ jb.config) in
      let on_time : is_late (distance jb seq) ≡ false =
        ground (arith, late_iff (sub32 seq jb.next_play_seq) (omega arith)) in
      if_elim Far (ltb_ℤ (distance jb seq) (pos 0)) _ _ (λ _. (on_time, refl, refl, refl))
        λ a.
          if_elim Far (leb_ℤ (pos 256) (distance jb seq)) _ jb (λ _. (on_time, refl, refl, refl))
            λ b. absurd (ground arith)

  place_late :
      (jb : JitterBuffer D) (seq ts frames now_ms : ℕ) (pcm : List ℕ)
      → 2 ^ 32 - 256 < sub32 seq jb.next_play_seq
      → Answers false jb.slots jb.next_play_seq (place jb seq ts pcm frames now_ms)
  unfolding place count_late
  place_late jb seq ts frames now_ms pcm h =
      if_elim (Answers false jb.slots jb.next_play_seq) (is_late (distance jb seq)) _ _
        (λ _. (refl, refl, refl))
        λ e. absurd (ground (arith, late_iff (sub32 seq jb.next_play_seq) (omega arith)))

  place_near :
      (jb : JitterBuffer D) (seq ts frames now_ms : ℕ) (pcm : List ℕ)
      → IsValid jb
      → frames < 2 ^ 32
      → frames * jb.config.channels ≤ length pcm
      → sub32 seq jb.next_play_seq < 256
      → (is_duplicate jb seq ≡ true
          → Answers false jb.slots jb.next_play_seq (place jb seq ts pcm frames now_ms))
        × (is_duplicate jb seq ≡ false
            → Answers true
                (set_slot jb.slots
                  (seq % 256)
                  (stored seq ts (take (frames * jb.config.channels) pcm) frames))
                jb.next_play_seq
                (place jb seq ts pcm frames now_ms))
  unfolding place count_duplicate
  place_near jb seq ts frames now_ms pcm v f l h =
      let (late, same) = resync_near jb seq h in
      (
        λ d. rw (late, same, d) (refl, refl, refl),
        λ d. rw (late, same, d) (finish-Answers jb seq ts frames now_ms pcm f v.channels_word l),
      )

  place_far :
      (jb : JitterBuffer D) (seq ts frames now_ms : ℕ) (pcm : List ℕ)
      → IsValid jb
      → frames < 2 ^ 32
      → frames * jb.config.channels ≤ length pcm
      → 256 ≤ sub32 seq jb.next_play_seq
      → sub32 seq jb.next_play_seq ≤ 2 ^ 32 - 256
      → Answers true
          (set_slot
            (λ i. record (jb.slots i) { is_valid = false; pcm_data = [] })
            (seq % 256)
            (stored seq ts (take (frames * jb.config.channels) pcm) frames))
          seq
          (place jb seq ts pcm frames now_ms)
  unfolding place
  place_far jb seq ts frames now_ms pcm v f l h k =
      let jb' = resync jb (distance jb seq) seq in
      let (late, sl, nx, ce) = resync_far jb seq h k in
      let free : is_duplicate jb' seq ≡ false =
        ap (λ (f : ℕ → PacketSlot). (f (seq % 256)).is_valid && (f (seq % 256)).seq_num == seq)
          sl in
      let chans = ap (λ c. c.channels) ce in
      let done =
        finish-Answers jb' seq ts frames now_ms pcm f (rw chans v.channels_word) (rw chans l) in
      rw (late, free)
        (Answers-cong true _
          (λ i.
            set_slot (sl i) (seq % 256)
              (stored seq ts (take (frames * (ce i).channels) pcm) frames))
          nx done)

-- What a push into a buffer that has its playhead does, by the wrapped distance `u` of its sequence
-- number from the playhead.
pub record Branches {D : Type 0} (jb : JitterBuffer D) (seq u : ℕ) (new : PacketSlot)
    (result : Option (Bool × JitterBuffer D)) : Type 0 where
  pub late : 2 ^ 32 - 256 < u → Answers false jb.slots jb.next_play_seq result
  pub duplicate :
      u < 256 → is_duplicate jb seq ≡ true → Answers false jb.slots jb.next_play_seq result
  pub accepted :
      u < 256
      → is_duplicate jb seq ≡ false
      → ((jb.slots (seq % 256)).is_valid ≡ false)
        × Answers true (set_slot jb.slots (seq % 256) new) jb.next_play_seq result
  pub far :
      256 ≤ u
      → u ≤ 2 ^ 32 - 256
      → Answers true
          (set_slot (λ i. record (jb.slots i) { is_valid = false; pcm_data = [] }) (seq % 256) new)
          seq
          result

-- A push of a packet with frames into a valid buffer that has its playhead refuses a late packet
-- and a duplicate, leaving the buffered packets and the playhead; it stores a packet of the window
-- in its own slot, which was free, leaving all others; and at any other it drops every packet and
-- starts over from this one.
pub push_packet-Branches :
    {D : Type 0} (fl : Doubles D) (jb : JitterBuffer D) (seq ts frames now_us now_ms : ℕ)
    (pcm : List ℕ)
    → IsValid jb
    → jb.has_first_packet ≡ true
    → seq < 2 ^ 32
    → 0 < frames
    → frames < 2 ^ 32
    → frames * jb.config.channels ≤ length pcm
    → Branches jb seq
        (sub32 seq jb.next_play_seq)
        (stored seq ts (take (frames * jb.config.channels) pcm) frames)
        (push_packet fl jb seq ts (some pcm) frames now_us now_ms)
unfolding push_packet note_arrival
push_packet-Branches fl jb seq ts frames now_us now_ms pcm v started w p f l =
    let noted = note_arrival fl jb ts now_us in
    let pos : (frames == 0) ≡ false = ground arith in
    rw (pos, first_packet-started noted seq started)
      (record {
        late = place_late noted seq ts frames now_ms pcm;
        duplicate = λ h. (place_near noted seq ts frames now_ms pcm v f l h).0;
        accepted = λ h d. (
          slot_of_window jb seq v w h d,
          (place_near noted seq ts frames now_ms pcm v f l h).1 d,
        );
        far = place_far noted seq ts frames now_ms pcm v f l;
      })
