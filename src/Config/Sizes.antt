-- ===== src/Config/Sizes.antt =====
-- The sizes of src/common/audio_types.hpp: no product wraps, and conversions invert.
use audio_router.Prelude.{ℕ, ◌+◌, ◌*◌, ◌/◌, ◌^◌, ◌<◌, ◌≤◌, ◌≡◌, ◌↔◌, arith, true, false}
use audio_router.Prelude.Word.{mul64}
use audio_router.Config.{
  AudioConfig, valid, bytes_per_frame, packet_payload_size, frames_to_bytes, bytes_to_frames,
  is_valid, validate, size_max,
}
use audio_router.Protocol.{make_header, audio_data, is_valid_header}

-- `channels` is a `uint16_t`.
abbrev pub IsConfig : AudioConfig → Type 0
IsConfig c = c.channels < 2 ^ 16

-- `is_valid` holds exactly when `validate` reports no error.
pub is_valid-iff-validate : (c : AudioConfig) → (is_valid c ≡ true) ↔ (validate c ≡ valid)
unfolding is_valid validate
is_valid-iff-validate c = ground arith

pub bytes_per_frame-lt : (c : AudioConfig) → IsConfig c → bytes_per_frame c < 2 ^ 18
unfolding bytes_per_frame
bytes_per_frame-lt c h = ground arith

-- The guard by division is exact: it passes just when the product fits 64 bits.
div_guard : (f b : ℕ) → 0 < b → f ≤ size_max / b → mul64 f b ≡ f * b
div_guard f b p h =
    let q : f * b ≤ size_max / b * b = grind arith in
    let r : size_max / b * b ≤ size_max = grind arith in omega arith

div_guard_fails : (f b : ℕ) → 0 < b → size_max / b < f → 2 ^ 64 ≤ f * b
div_guard_fails f b p h =
    let q : (size_max / b + 1) * b ≤ f * b = grind arith in
    let r : size_max < (size_max / b + 1) * b = grind arith in omega arith

-- `frames_to_bytes` is the exact product whenever that fits a `size_t`, and 0 otherwise.
pub frames_to_bytes_exact :
    (c : AudioConfig) (frames : ℕ)
    → (frames * bytes_per_frame c < 2 ^ 64 → frames_to_bytes c frames ≡ frames * bytes_per_frame c)
      × (2 ^ 64 ≤ frames * bytes_per_frame c → frames_to_bytes c frames ≡ 0)
unfolding frames_to_bytes
frames_to_bytes_exact c frames =
    ground (arith, div_guard frames (bytes_per_frame c), div_guard_fails frames (bytes_per_frame c))

-- A frame count whose bytes fit a `size_t` survives the trip to bytes and back.
pub bytes_to_frames-frames_to_bytes :
    (c : AudioConfig) (frames : ℕ)
    → 0 < bytes_per_frame c
    → frames * bytes_per_frame c < 2 ^ 64
    → bytes_to_frames c (frames_to_bytes c frames) ≡ frames
unfolding bytes_to_frames
bytes_to_frames-frames_to_bytes c frames p h =
    let e = (frames_to_bytes_exact c frames).0 h in
    let q : frames * bytes_per_frame c / bytes_per_frame c ≡ frames = grind arith in ground arith

-- A valid configuration has a payload of exactly its frames, positive and at most 65507 bytes.
pub is_valid-payload :
    (c : AudioConfig)
    → is_valid c ≡ true
    → (packet_payload_size c ≡ c.frames_per_packet * bytes_per_frame c)
      × (0 < packet_payload_size c)
      × (packet_payload_size c ≤ 65507)
unfolding is_valid packet_payload_size
is_valid-payload c h = ground (arith, div_guard c.frames_per_packet (bytes_per_frame c))

-- A configuration may be valid and its packets not: with a payload above 65495 bytes the 12 bytes
-- of audio header pass the limit of the packet validation, and every receiver drops the packet.
pub is_valid-oversized :
    (c : AudioConfig) (seq ts_us n : ℕ)
    → is_valid c ≡ true
    → 65495 < packet_payload_size c
    → is_valid_header (make_header audio_data seq ts_us (12 + packet_payload_size c) 0) n ≡ false
unfolding is_valid_header make_header
is_valid-oversized c seq ts_us n v h = ground arith
