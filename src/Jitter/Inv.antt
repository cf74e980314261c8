-- ===== src/Jitter/Inv.antt =====
-- The invariant of `JitterBuffer`: every buffered packet lies in the window of 256 sequence numbers
-- from the playhead on, in the slot of its number, with all its samples.
use audio_router.Prelude.{
  ℕ, ◌*◌, ◌%◌, ◌^◌, ◌<◌, ◌≡◌, ◌⊎◌, inl, refl, arith, Bool, true, false, length,
}
use audio_router.Prelude.Word.{sub32}
use audio_router.Config.{AudioConfig}
use audio_router.Jitter.{Doubles, PacketSlot, JitterBuffer, construct, configure}

-- A packet buffered at index `i`, for the playhead `next`.
pub record InWindow (next channels : ℕ) (s : PacketSlot) (i : ℕ) : Type 0 where
  pub at_index : s.seq_num % 256 ≡ i
  pub seq_word : s.seq_num < 2 ^ 32
  pub in_window : sub32 s.seq_num next < 256
  pub frames_pos : 0 < s.num_frames
  pub frames_word : s.num_frames < 2 ^ 32
  pub all_samples : length s.pcm_data ≡ s.num_frames * channels

pub record IsWindow (slots : ℕ → PacketSlot) (next channels offset : ℕ) (first : Bool)
    : Type 0 where
  pub slot_ok : (i : ℕ) → i < 256 → (slots i).is_valid ≡ true → InWindow next channels (slots i) i
  pub next_word : next < 2 ^ 32
  pub channels_word : channels < 2 ^ 16
  -- A partly played packet is the one at the playhead.
  pub partial :
      (offset ≡ 0)
      ⊎ (((slots (next % 256)).is_valid ≡ true) × (offset < (slots (next % 256)).num_frames))
  pub nothing_yet : first ≡ false → (i : ℕ) → (slots i).is_valid ≡ false

abbrev pub IsValid : {D : Type 0} → JitterBuffer D → Type 0
IsValid jb =
    IsWindow jb.slots jb.next_play_seq jb.config.channels jb.slot_frame_offset jb.has_first_packet

module _ {D : Type 0} (fl : Doubles D) where
  -- A new buffer is valid.
  pub construct-IsValid : (latency : ℕ) → IsValid (construct fl latency)
  unfolding construct
  construct-IsValid latency = record {
    slot_ok = λ i h e. cc;
    next_word = omega arith;
    channels_word = omega arith;
    partial = inl refl;
    nothing_yet = λ e i. refl;
  }

  -- `configure` makes any buffer valid, whatever its state was.
  pub configure-IsValid :
      (jb : JitterBuffer D) (cfg : AudioConfig) (latency : ℕ)
      → cfg.channels < 2 ^ 16
      → IsValid (configure fl jb cfg latency)
  unfolding configure
  configure-IsValid jb cfg latency h = record {
    slot_ok = λ i b e. cc;
    next_word = omega arith;
    channels_word = h;
    partial = inl refl;
    nothing_yet = λ e i. refl;
  }

module _ {D : Type 0} where
  -- In a valid buffer a packet at the playhead's index is the one that is played next.
  pub current_seq :
      (jb : JitterBuffer D)
      → IsValid jb
      → (jb.slots (jb.next_play_seq % 256)).is_valid ≡ true
      → (jb.slots (jb.next_play_seq % 256)).seq_num ≡ jb.next_play_seq
  current_seq jb v e =
      let w = v.slot_ok (jb.next_play_seq % 256) (omega arith) e in
      omega (arith, w.at_index, w.seq_word, w.in_window, v.next_word)
