-- ===== src/Jitter/Pop.antt =====
-- `JitterBuffer::pop_frames` and `advance_playhead_locked` (src/client/jitter_buffer.cpp). Their
-- `while` loops run on fuel; `none` means that it ran out, which `PopInv` rules out.
use audio_router.Prelude.{
  ℕ, zero, suc, ◌+◌, ◌/◌, ◌%◌, Bool, true, false, not, ◌&&◌, ◌||◌, List, [], ◌++◌, Option, none,
  some, ltb, leb, ◌==◌, if◌then◌else◌, take, drop, replicate, min,
}
use audio_router.Prelude.Word.{add64, sub64, mul64, add32}
use audio_router.Jitter.{PacketSlot, JitterBuffer, max_slots, set_slot, available_frames}

abbrev pub drain_margin_ms : ℕ
drain_margin_ms = 25

abbrev pub drain_interval_ms : ℕ
drain_interval_ms = 400

abbrev pub drain_chunk_frames : ℕ
drain_chunk_frames = 240

abbrev pub drain_fast_interval_ms : ℕ
drain_fast_interval_ms = 100

abbrev pub drain_fast_chunk_frames : ℕ
drain_fast_chunk_frames = 480

abbrev pub drain_start_grace_ms : ℕ
drain_start_grace_ms = 3000

-- One round of the copying loop: the frames and samples that it delivers, the state, and whether it
-- breaks out.
pub record Round (D : Type 0) : Type 0 where
  pub frames : ℕ
  pub samples : List ℕ
  pub after : JitterBuffer D
  pub stop : Bool

module _ {D : Type 0} where
  -- The slot at the playhead.
  abbrev pub current : JitterBuffer D → PacketSlot
  current jb = jb.slots (jb.next_play_seq % max_slots)

  abbrev pub at_packet : JitterBuffer D → Bool
  at_packet jb = (current jb).is_valid && (current jb).seq_num == jb.next_play_seq

  -- `slot.is_valid = false; slot.pcm_data.clear(); slot_frame_offset_ = 0; next_play_seq_++`
  unfoldable pub leave_slot : JitterBuffer D → JitterBuffer D
  leave_slot jb = record jb {
    slots =
        set_slot jb.slots (jb.next_play_seq % max_slots)
          (record (current jb) { is_valid = false; pcm_data = [] });
    slot_frame_offset = 0;
    next_play_seq = add32 jb.next_play_seq 1;
  }

  -- `advance_playhead_locked` at a hole does not clear the samples.
  unfoldable pub leave_hole : JitterBuffer D → JitterBuffer D
  leave_hole jb = record jb {
    slots =
        set_slot jb.slots (jb.next_play_seq % max_slots) (record (current jb) { is_valid = false });
    slot_frame_offset = 0;
    next_play_seq = add32 jb.next_play_seq 1;
  }

  -- One round of `advance_playhead_locked`: the frames still to drop, and the state.
  unfoldable pub advance_round : JitterBuffer D → ℕ → ℕ × JitterBuffer D
  unfolding leave_slot leave_hole
  advance_round jb frames =
      let remaining = sub64 (current jb).num_frames jb.slot_frame_offset in
      if at_packet jb
      then (if ltb frames remaining
          then (0, record jb { slot_frame_offset = add64 jb.slot_frame_offset frames })
          else (sub64 frames remaining, leave_slot jb))
      else (frames, leave_hole jb)

  unfoldable pub advance_playhead : ℕ → JitterBuffer D → ℕ → Option (JitterBuffer D)
  advance_playhead zero jb frames = if frames == 0 then some jb else none
  advance_playhead (suc fuel) jb frames =
      let rest = advance_playhead fuel (advance_round jb frames).1 (advance_round jb frames).0 in
      if frames == 0 then some jb else rest

  -- Whether a slot other than the current one is valid: `i` counts up from 1.
  unfoldable pub has_future : JitterBuffer D → ℕ → ℕ → Bool
  has_future jb zero i = false
  has_future jb (suc rounds) i =
      let rest = has_future jb rounds (i + 1) in
      if (jb.slots ((jb.next_play_seq + i) % max_slots)).is_valid then true else rest

  -- Extract frames from the slot at the playhead.
  unfoldable pub copy_round : JitterBuffer D → ℕ → Round D
  copy_round jb needed =
      let slot = current jb in
      let to_copy = min (sub64 slot.num_frames jb.slot_frame_offset) needed in
      let jb' = record jb { slot_frame_offset = add64 jb.slot_frame_offset to_copy } in
      record {
        frames = to_copy;
        samples =
            take (mul64 to_copy jb.config.channels)
              (drop (mul64 jb.slot_frame_offset jb.config.channels) slot.pcm_data);
        after = if leb slot.num_frames jb'.slot_frame_offset then leave_slot jb' else jb';
        stop = false;
      }

  -- Conceal a missing packet by silence.
  unfoldable pub conceal_round : JitterBuffer D → ℕ → Round D
  conceal_round jb needed =
      let size = jb.config.frames_per_packet in
      let conceal_frames = min needed (if ltb 0 size then size else 240) in
      let counted = record jb {
        stats = record jb.stats {
          packets_lost = add64 jb.stats.packets_lost 1;
          underruns = add64 jb.stats.underruns 1;
        };
      } in
      record {
        frames = conceal_frames;
        samples = replicate (mul64 conceal_frames jb.config.channels) 0;
        after = leave_slot counted;
        stop = false;
      }

  -- The buffer ran dry: silence for the rest, and buffering again.
  unfoldable pub dry_round : JitterBuffer D → ℕ → Round D
  dry_round jb needed = record {
    frames = needed;
    samples = replicate (mul64 needed jb.config.channels) 0;
    after = record jb {
      is_buffering = true;
      stats = record jb.stats { underruns = add64 jb.stats.underruns 1 };
    };
    stop = true;
  }

  unfoldable pub pop_round : JitterBuffer D → ℕ → Round D
  unfolding has_future
  pop_round jb needed =
      if at_packet jb
      then copy_round jb needed
      else if has_future jb 255 1
      then conceal_round jb needed
      else dry_round jb needed

  -- The copying loop: frames delivered, samples, state.
  unfoldable pub pop_loop :
      ℕ → JitterBuffer D → ℕ → ℕ → List ℕ → Option (ℕ × List ℕ × JitterBuffer D)
  pop_loop zero jb n delivered out = if ltb delivered n then none else some (delivered, out, jb)
  pop_loop (suc fuel) jb n delivered out =
      let r = pop_round jb (sub64 n delivered) in
      let delivered' = add64 delivered r.frames in
      let rest = pop_loop fuel r.after n delivered' (out ++ r.samples) in
      if ltb delivered n
      then (if r.stop then some (delivered', out ++ r.samples, r.after) else rest)
      else some (delivered, out, jb)

  -- How many frames the drain-to-target sheds at this call; `none` if it does not run.
  unfoldable pub drain_amount : JitterBuffer D → ℕ → Option ℕ
  drain_amount jb now_ms =
      let rate = jb.config.sample_rate in
      let past_grace =
        jb.startup_complete_ms == 0
        || leb drain_start_grace_ms (sub64 now_ms jb.startup_complete_ms) in
      let buffered = available_frames jb in
      let margin = mul64 rate drain_margin_ms / 1000 in
      let large = ltb (add64 jb.target_buffer_frames (mul64 rate 100 / 1000)) buffered in
      let interval = if large then drain_fast_interval_ms else drain_interval_ms in
      let chunk = if large then drain_fast_chunk_frames else drain_chunk_frames in
      let excess = sub64 (sub64 buffered jb.target_buffer_frames) margin in
      if jb.startup_pending
      then none
      else if rate == 0
      then none
      else if not past_grace
      then none
      else if not (ltb (add64 jb.target_buffer_frames margin) buffered)
      then none
      else if leb interval (sub64 now_ms jb.last_drain_ms)
      then some (min excess chunk)
      else none

  unfoldable pub drained : ℕ → ℕ → Option (JitterBuffer D) → Option (JitterBuffer D)
  drained dropped now_ms none = none
  drained dropped now_ms (some jb) = some (record jb {
    stats = record jb.stats { drained_frames = add64 jb.stats.drained_frames dropped };
    last_drain_ms = now_ms;
  })

  unfoldable pub drain_by : ℕ → JitterBuffer D → ℕ → Option ℕ → Option (JitterBuffer D)
  drain_by fuel jb now_ms none = some jb
  drain_by fuel jb now_ms (some dropped) = drained dropped now_ms (advance_playhead fuel jb dropped)

  unfoldable pub drain : ℕ → JitterBuffer D → ℕ → Option (JitterBuffer D)
  unfolding drain_by drained
  drain fuel jb now_ms = drain_by fuel jb now_ms (drain_amount jb now_ms)

  unfoldable pub pop_from : ℕ → Option (JitterBuffer D) → Option (ℕ × List ℕ × JitterBuffer D)
  pop_from n none = none
  pop_from n (some jb) = pop_loop n jb n 0 []

  -- `pop_frames` for a destination that is not null: the result, the samples written, the state.
  -- `fuel` is for the drain; the copying loop has `n` rounds.
  unfoldable pub pop_frames : ℕ → JitterBuffer D → ℕ → ℕ → Option (ℕ × List ℕ × JitterBuffer D)
  unfolding pop_from
  pop_frames fuel jb n now_ms =
      let silence = replicate (mul64 n jb.config.channels) 0 in
      if n == 0
      then some (0, [], jb)
      else if jb.is_buffering || not jb.has_first_packet
      then some (n, silence, jb)
      else pop_from n (drain fuel jb now_ms)
