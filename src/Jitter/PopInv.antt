-- ===== src/Jitter/PopInv.antt =====
-- The rounds of `pop_frames` and `advance_playhead_locked` and the invariant
-- (src/client/jitter_buffer.cpp).
use audio_router.Prelude.{
  ℕ, ◌*◌, ◌%◌, ◌^◌, ◌<◌, ◌≡◌, ◌≢◌, ◌⊎◌, inl, inr, refl, arith, true, false, [], ltb, ◌==◌, ==_iff,
  length, Bool-cases, if_elim,
}
use audio_router.Prelude.Word.{add64, sub64, add32, sub32}
use audio_router.Jitter.{PacketSlot, JitterBuffer, set_slot}
use audio_router.Jitter.Inv.{InWindow, IsValid, IsWindow, current_seq}
use audio_router.Jitter.Pop.{current, at_packet, leave_slot, leave_hole, advance_round}

-- A step past the playhead's slot keeps the others in the window.
next_window :
    (s next i : ℕ)
    → s % 256 ≡ i
    → s < 2 ^ 32
    → next < 2 ^ 32
    → sub32 s next < 256
    → i ≢ next % 256
    → sub32 s (add32 next 1) < 256
next_window s next i a b c d e = omega arith

module _ {D : Type 0} where
  -- The slots after the playhead's is made invalid, as `b` at that index.
  moved-IsWindow :
      (jb : JitterBuffer D) (b : PacketSlot)
      → IsValid jb
      → b.is_valid ≡ false
      → IsWindow
          (set_slot jb.slots (jb.next_play_seq % 256) b)
          (add32 jb.next_play_seq 1)
          jb.config.channels
          0
          jb.has_first_packet
  moved-IsWindow jb b v off = record {
    slot_ok = λ i h t. in_slot i h (Bool-cases (i == jb.next_play_seq % 256)) t;
    next_word = omega arith;
    channels_word = v.channels_word;
    partial = inl refl;
    nothing_yet = λ e i.
        if_elim (λ s. s.is_valid ≡ false) (i == jb.next_play_seq % 256) b (jb.slots i) (λ _. off)
          (λ _. v.nothing_yet e i);
  }
    where
      in_slot :
          (i : ℕ)
          → i < 256
          → ((i == jb.next_play_seq % 256) ≡ true) ⊎ ((i == jb.next_play_seq % 256) ≡ false)
          → (set_slot jb.slots (jb.next_play_seq % 256) b i).is_valid ≡ true
          → InWindow
              (add32 jb.next_play_seq 1)
              jb.config.channels
              (set_slot jb.slots (jb.next_play_seq % 256) b i)
              i
      in_slot i h (inl e) t = absurd (ground (arith, rw e at t))
      in_slot i h (inr e) t =
          let w = v.slot_ok i h (rw e at t) in
          rw e (record {
            at_index = w.at_index;
            seq_word = w.seq_word;
            in_window =
                next_window (jb.slots i).seq_num jb.next_play_seq i w.at_index w.seq_word
                  v.next_word w.in_window (ground arith);
            frames_pos = w.frames_pos;
            frames_word = w.frames_word;
            all_samples = w.all_samples;
          })

  pub leave_slot-IsValid : (jb : JitterBuffer D) → IsValid jb → IsValid (leave_slot jb)
  unfolding leave_slot
  leave_slot-IsValid jb v =
      moved-IsWindow jb (record (current jb) { is_valid = false; pcm_data = [] }) v refl

  pub leave_hole-IsValid : (jb : JitterBuffer D) → IsValid jb → IsValid (leave_hole jb)
  unfolding leave_hole
  leave_hole-IsValid jb v = moved-IsWindow jb (record (current jb) { is_valid = false }) v refl

  -- The playhead stands at a packet exactly when the slot of its number is valid.
  pub at_packet_lem : (jb : JitterBuffer D) → IsValid jb → at_packet jb ≡ (current jb).is_valid
  at_packet_lem jb v = elim (Bool-cases (current jb).is_valid) [
    | inl e ↦
        let same = current_seq jb v e in
        ground (arith, (==_iff (current jb).seq_num jb.next_play_seq).1 same)
    | inr e ↦ ground arith
  ]

  -- At a packet there is something left to play.
  pub current_left :
      (jb : JitterBuffer D)
      → IsValid jb
      → at_packet jb ≡ true
      → (jb.slot_frame_offset < (current jb).num_frames)
        × ((current jb).num_frames < 2 ^ 32)
        × (length (current jb).pcm_data ≡ (current jb).num_frames * jb.config.channels)
        × ((current jb).is_valid ≡ true)
  current_left jb v e =
      let live : (current jb).is_valid ≡ true = ground (arith, at_packet_lem jb v) in
      let w = v.slot_ok (jb.next_play_seq % 256) (omega arith) live in
      (omega (arith, v.partial, w.frames_pos), w.frames_word, w.all_samples, live)

  -- Playing `k` frames more of the packet at the playhead, but not all of it.
  pub offset-IsValid :
      (jb : JitterBuffer D) (k : ℕ)
      → IsValid jb
      → at_packet jb ≡ true
      → k < (current jb).num_frames
      → IsValid (record jb { slot_frame_offset = k })
  offset-IsValid jb k v e h =
      let (_, _, _, live) = current_left jb v e in
      record {
        slot_ok = v.slot_ok;
        next_word = v.next_word;
        channels_word = v.channels_word;
        partial = inr (live, h);
        nothing_yet = v.nothing_yet;
      }

  pub advance_round-IsValid :
      (jb : JitterBuffer D) (frames : ℕ) → IsValid jb → IsValid (advance_round jb frames).1
  unfolding advance_round
  advance_round-IsValid jb frames v =
      let remaining = sub64 (current jb).num_frames jb.slot_frame_offset in
      let Good = λ (r : ℕ × JitterBuffer D). IsValid r.1 in
      if_elim Good (at_packet jb) _ _
        (λ e.
          if_elim Good (ltb frames remaining) _ _
            (λ l.
              offset-IsValid jb (add64 jb.slot_frame_offset frames) v e
                (ground (arith, current_left jb v e)))
            λ _. leave_slot-IsValid jb v)
        λ _. leave_hole-IsValid jb v
