-- ===== src/Jitter.antt =====
-- src/client/jitter_buffer.hpp and jitter_buffer.cpp: `JitterBuffer`. Each method holds the mutex,
-- so it is one step on the state. The clock readings of a call are arguments, log lines are left
-- out, samples are the 16-bit patterns of `int16_t`, and `double` is a type `D` with its operations
-- `Doubles D`, since no decision of the buffer depends on it.
mod Runs
pub mod Push
pub mod Pop
pub mod Inv
pub mod PushInv
pub mod PushKept
pub mod PushStep
pub mod PopInv
pub mod PopRounds
pub mod Advance
pub mod PopTotal
use audio_router.Prelude.{
  ℕ, zero, suc, ◌+◌, ◌-◌, ◌*◌, ◌/◌, ◌%◌, Bool, true, false, ◌&&◌, List, [], ltb, ◌==◌,
  if◌then◌else◌, min, max,
}
use audio_router.Prelude.Word.{add64, mul64, u32}
use audio_router.Prelude.Int.{ℤ, pos}
use audio_router.Config.{AudioConfig, default_config}

pub record Doubles (D : Type 0) : Type 0 where
  pub of_ℕ : ℕ → D
  pub add : D → D → D
  pub sub : D → D → D
  pub mul : D → D → D
  pub div : D → D → D

pub record PacketSlot : Type 0 where
  pub seq_num : ℕ  -- uint32_t
  pub timestamp_us : ℕ  -- uint64_t
  pub pcm_data : List ℕ
  pub num_frames : ℕ
  pub is_valid : Bool

-- The counters of `JitterBufferStats`, which are `uint64_t`.
pub record Counters : Type 0 where
  pub packets_received : ℕ
  pub packets_lost : ℕ
  pub packets_out_of_order : ℕ
  pub packets_duplicate : ℕ
  pub underruns : ℕ
  pub overruns : ℕ
  pub drained_frames : ℕ

abbrev pub max_slots : ℕ
max_slots = 256

-- `slots` is the vector of `MAX_SLOTS` slots: every index is taken modulo that number.
pub record JitterBuffer (D : Type 0) : Type 0 where
  pub config : AudioConfig
  pub target_latency_ms : ℕ
  pub target_buffer_frames : ℕ
  pub startup_target_frames : ℕ
  pub startup_pending : Bool
  pub hole_free_run : ℕ
  pub last_arrived_seq : ℕ
  pub has_last_arrived_seq : Bool
  pub slots : ℕ → PacketSlot
  pub next_play_seq : ℕ
  pub has_first_packet : Bool
  pub is_buffering : Bool
  pub slot_frame_offset : ℕ
  pub last_drain_ms : ℕ
  pub startup_complete_ms : ℕ
  pub stats : Counters
  pub last_arrival_timestamp_us : ℕ
  pub last_transit_us : ℤ
  pub jitter_estimate_us : D

abbrev pub startup_prefill_multiplier : ℕ
startup_prefill_multiplier = 3

abbrev pub startup_prefill_min_ms : ℕ
startup_prefill_min_ms = 120

abbrev pub startup_prefill_max_ms : ℕ
startup_prefill_max_ms = 500

-- A write to one slot of the vector.
abbrev pub set_slot : (ℕ → PacketSlot) → ℕ → PacketSlot → ℕ → PacketSlot
set_slot slots i s j = if j == i then s else slots j

abbrev pub empty_slot : PacketSlot
empty_slot = record {
  seq_num = 0;
  timestamp_us = 0;
  pcm_data = [];
  num_frames = 0;
  is_valid = false;
}

abbrev pub zero_counters : Counters
zero_counters = record {
  packets_received = 0;
  packets_lost = 0;
  packets_out_of_order = 0;
  packets_duplicate = 0;
  underruns = 0;
  overruns = 0;
  drained_frames = 0;
}

module _ {D : Type 0} (fl : Doubles D) where
  -- The constructor.
  unfoldable pub construct : ℕ → JitterBuffer D
  construct latency = record {
    config = default_config;
    target_latency_ms = latency;
    target_buffer_frames = 0;
    startup_target_frames = 0;
    startup_pending = false;
    hole_free_run = 0;
    last_arrived_seq = 0;
    has_last_arrived_seq = false;
    slots = λ _. empty_slot;
    next_play_seq = 0;
    has_first_packet = false;
    is_buffering = true;
    slot_frame_offset = 0;
    last_drain_ms = 0;
    startup_complete_ms = 0;
    stats = zero_counters;
    last_arrival_timestamp_us = 0;
    last_transit_us = pos 0;
    jitter_estimate_us = fl.of_ℕ 0;
  }

  unfoldable pub reset : JitterBuffer D → JitterBuffer D
  reset jb = record jb {
    slots = λ i. record (jb.slots i) { is_valid = false; num_frames = 0; pcm_data = [] };
    next_play_seq = 0;
    has_first_packet = false;
    is_buffering = true;
    startup_pending = true;
    hole_free_run = 0;
    has_last_arrived_seq = false;
    last_arrived_seq = 0;
    slot_frame_offset = 0;
    last_arrival_timestamp_us = 0;
    last_drain_ms = 0;
    startup_complete_ms = 0;
    last_transit_us = pos 0;
    jitter_estimate_us = fl.of_ℕ 0;
  }

  -- The startup prefill in milliseconds, for a target latency: the product is a `uint32_t`.
  unfoldable pub startup_ms : ℕ → ℕ
  startup_ms latency =
      min (max startup_prefill_min_ms (u32 (latency * startup_prefill_multiplier)))
        startup_prefill_max_ms

  unfoldable pub configure : JitterBuffer D → AudioConfig → ℕ → JitterBuffer D
  unfolding startup_ms reset
  configure jb cfg latency =
      let target = if ltb 5 latency then latency else 5 in
      reset (record jb {
        config = cfg;
        target_latency_ms = target;
        target_buffer_frames = mul64 cfg.sample_rate target / 1000;
        startup_target_frames = mul64 cfg.sample_rate (startup_ms target) / 1000;
      })

module _ {D : Type 0} where
  -- The frames of the gap-free run of packets from the playhead on; `i` is a `size_t`, so that the
  -- sum with the sequence number does not wrap at 32 bits.
  unfoldable pub count_run : JitterBuffer D → ℕ → ℕ → ℕ → ℕ
  count_run jb zero i total = total
  count_run jb (suc rounds) i total =
      let s = jb.slots ((jb.next_play_seq + i) % max_slots) in
      let rest = count_run jb rounds (i + 1) (add64 total s.num_frames) in
      if s.is_valid && s.seq_num == jb.next_play_seq + i then rest else total

  -- `available_frames_unlocked`
  unfoldable pub available_frames : JitterBuffer D → ℕ
  available_frames jb =
      let total = count_run jb max_slots 0 0 in
      if ltb total jb.slot_frame_offset then total else total - jb.slot_frame_offset

  unfoldable pub is_ready : JitterBuffer D → Bool
  is_ready jb = if jb.is_buffering then false else jb.has_first_packet
