-- ===== src/Jitter/Push.antt =====
-- `JitterBuffer::push_packet` (src/client/jitter_buffer.cpp), step by step in its order.
use audio_router.Prelude.{
  ℕ, zero, suc, ◌+◌, ◌%◌, Bool, true, false, not, ◌&&◌, ◌||◌, List, [], Option, none, some, ltb,
  leb, ◌==◌, if◌then◌else◌, length, take,
}
use audio_router.Prelude.Word.{add64, sub64, mul64, add32, sub32}
use audio_router.Prelude.Int.{ℤ, pos, negsuc, ◌-ℤ◌, ltb_ℤ, leb_ℤ, nat_abs, signed32, signed64}
use audio_router.Jitter.{Doubles, JitterBuffer, max_slots, set_slot, count_run}

-- `kStableArrivalCount`
abbrev pub stable_arrival_count : ℕ
stable_arrival_count = 24

-- `std::memcpy` of `n` samples; `none` is a read past the end of the source.
unfoldable pub copy_samples : ℕ → List ℕ → Option (List ℕ)
copy_samples n src = if ltb (length src) n then none else some (take n src)

-- Late: behind the playhead by less than `MAX_SLOTS`.
abbrev pub is_late : ℤ → Bool
is_late diff = ltb_ℤ diff (pos 0) && ltb_ℤ (negsuc 255) diff

abbrev is_zero : ℤ → Bool
is_zero (pos zero) = true
is_zero _ = false

module _ {D : Type 0} (fl : Doubles D) where
  -- The jitter estimate moves by a sixteenth of the difference.
  unfoldable pub update_jitter : D → ℕ → D
  update_jitter j d = fl.add j (fl.div (fl.sub (fl.of_ℕ d) j) (fl.of_ℕ 16))

  -- The arrival: jitter, arrival time and the count of received packets.
  unfoldable pub note_arrival : JitterBuffer D → ℕ → ℕ → JitterBuffer D
  unfolding ◌-ℤ◌ update_jitter
  note_arrival jb timestamp_us now_us =
      let transit_diff = signed64 (sub64 now_us timestamp_us) in
      let d = nat_abs (transit_diff -ℤ jb.last_transit_us) in
      let timed = ltb 0 jb.last_arrival_timestamp_us && ltb 0 timestamp_us in
      record jb {
        jitter_estimate_us =
            if timed && not (is_zero jb.last_transit_us)
            then update_jitter jb.jitter_estimate_us d
            else jb.jitter_estimate_us;
        last_transit_us = if timed then transit_diff else jb.last_transit_us;
        last_arrival_timestamp_us = now_us;
        stats = record jb.stats { packets_received = add64 jb.stats.packets_received 1 };
      }

module _ {D : Type 0} where
  -- The first packet sets the playhead.
  unfoldable pub first_packet : JitterBuffer D → ℕ → JitterBuffer D
  first_packet jb seq_num =
      if jb.has_first_packet
      then jb
      else record jb { has_first_packet = true; next_play_seq = seq_num; is_buffering = true }

  -- The wrapped distance of a sequence number from the playhead, an `int32_t`.
  abbrev pub distance : JitterBuffer D → ℕ → ℤ
  distance jb seq_num = signed32 (sub32 seq_num jb.next_play_seq)

  -- Both resynchronisations: every slot is dropped and the playhead jumps.
  unfoldable pub flush : JitterBuffer D → ℕ → JitterBuffer D
  flush jb seq_num = record jb {
    slots = λ i. record (jb.slots i) { is_valid = false; pcm_data = [] };
    next_play_seq = seq_num;
    is_buffering = true;
    slot_frame_offset = 0;
  }

  unfoldable pub count_overrun : JitterBuffer D → JitterBuffer D
  count_overrun jb = record jb { stats = record jb.stats { overruns = add64 jb.stats.overruns 1 } }

  -- A packet 256 or more behind, or ahead, makes the buffer start over from it.
  unfoldable pub resync : JitterBuffer D → ℤ → ℕ → JitterBuffer D
  unfolding flush count_overrun
  resync jb diff seq_num =
      if ltb_ℤ diff (pos 0)
      then flush jb seq_num
      else if leb_ℤ (pos max_slots) diff
      then flush (count_overrun jb) seq_num
      else jb

  unfoldable pub store : JitterBuffer D → ℕ → ℕ → List ℕ → ℕ → JitterBuffer D
  store jb seq ts samples frames = record jb {
    slots = set_slot jb.slots (seq % max_slots) (record {
      seq_num = seq;
      timestamp_us = ts;
      pcm_data = samples;
      num_frames = frames;
      is_valid = true;
    });
  }

  -- The run of consecutive arrivals.
  unfoldable pub track_run : JitterBuffer D → ℕ → JitterBuffer D
  track_run jb seq_num = record jb {
    hole_free_run =
        if jb.has_last_arrived_seq && seq_num == add32 jb.last_arrived_seq 1
        then add64 jb.hole_free_run 1
        else 1;
    last_arrived_seq = seq_num;
    has_last_arrived_seq = true;
  }

  -- The frames of all valid slots.
  unfoldable pub count_valid : JitterBuffer D → ℕ → ℕ → ℕ → ℕ
  count_valid jb zero i total = total
  count_valid jb (suc rounds) i total =
      let s = jb.slots i in
      count_valid jb rounds (i + 1) (if s.is_valid then add64 total s.num_frames else total)

  -- The test that ends buffering.
  unfoldable pub fill_reached : JitterBuffer D → Bool
  unfolding count_run count_valid
  fill_reached jb =
      let fill_target =
        if jb.startup_pending then jb.startup_target_frames else jb.target_buffer_frames in
      let buffered = count_run jb max_slots 0 0 in
      let total_valid_frames = count_valid jb max_slots 0 0 in
      let escape_target = if jb.startup_pending then mul64 fill_target 2 else fill_target in
      let delivery_stable = leb stable_arrival_count jb.hole_free_run in
      leb fill_target buffered && delivery_stable || leb escape_target total_valid_frames

  unfoldable pub exit_buffering : JitterBuffer D → ℕ → JitterBuffer D
  exit_buffering jb now_ms =
      if jb.is_buffering && fill_reached jb
      then record jb {
        is_buffering = false;
        startup_pending = false;
        startup_complete_ms = if jb.startup_pending then now_ms else jb.startup_complete_ms;
      }
      else jb

  -- The end of a push, once the samples are copied.
  unfoldable pub finish :
      JitterBuffer D → ℕ → ℕ → ℕ → ℕ → Option (List ℕ) → Option (Bool × JitterBuffer D)
  finish jb seq ts frames now_ms none = none
  finish jb seq ts frames now_ms (some samples) =
      some (true, exit_buffering (track_run (store jb seq ts samples frames) seq) now_ms)

  unfoldable pub count_late : JitterBuffer D → JitterBuffer D
  count_late jb = record jb {
    stats = record jb.stats { packets_out_of_order = add64 jb.stats.packets_out_of_order 1 };
  }

  unfoldable pub count_duplicate : JitterBuffer D → JitterBuffer D
  count_duplicate jb = record jb {
    stats = record jb.stats { packets_duplicate = add64 jb.stats.packets_duplicate 1 };
  }

  abbrev pub is_duplicate : JitterBuffer D → ℕ → Bool
  is_duplicate jb seq =
      let slot = jb.slots (seq % max_slots) in slot.is_valid && slot.seq_num == seq

  -- The body behind the first packet's handling.
  unfoldable pub place : JitterBuffer D → ℕ → ℕ → List ℕ → ℕ → ℕ → Option (Bool × JitterBuffer D)
  place jb seq ts pcm frames now_ms =
      let diff = distance jb seq in
      let jb' = resync jb diff seq in
      if is_late diff
      then some (false, count_late jb)
      else if is_duplicate jb' seq
      then some (false, count_duplicate jb')
      else finish jb' seq ts frames now_ms (copy_samples (mul64 frames jb'.config.channels) pcm)

-- `push_packet`: `none` as data is a null pointer; the result `none` is a read past the data.
unfoldable pub push_packet :
    {D : Type 0}
    → Doubles D
    → JitterBuffer D
    → ℕ
    → ℕ
    → Option (List ℕ)
    → ℕ
    → ℕ
    → ℕ
    → Option (Bool × JitterBuffer D)
push_packet fl jb seq ts none frames now_us now_ms = some (false, jb)
push_packet fl jb seq ts (some pcm) frames now_us now_ms =
    if frames == 0
    then some (false, jb)
    else place (first_packet (note_arrival fl jb ts now_us) seq) seq ts pcm frames now_ms
