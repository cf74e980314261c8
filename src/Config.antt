-- ===== src/Config.antt =====
-- src/common/audio_types.hpp: `AudioConfig`, the format of a stream and its sizes in bytes.
-- `size_t` products keep their wrap-around; the source guards them by a division.
mod Runs
pub mod Sizes
pub mod Convert
pub mod Mixed
use audio_router.Prelude.{ℕ, ◌-◌, ◌/◌, ◌^◌, Bool, true, false, ◌&&◌, ◌||◌, ltb, ◌==◌, if◌then◌else◌}
use audio_router.Prelude.Word.{mul64}

-- `enum class AudioSampleFormat : uint8_t`; `other` is a byte that no enumerator has.
pub data AudioSampleFormat : Type 0 where
  unknown pcm_s16le pcm_float32le pcm_s24le pcm_s32le : AudioSampleFormat
  other : ℕ → AudioSampleFormat

-- `static_cast<AudioSampleFormat>(byte)` and back.
unfoldable pub format_of_byte : ℕ → AudioSampleFormat
format_of_byte v =
    if v == 0
    then unknown
    else if v == 1
    then pcm_s16le
    else if v == 2
    then pcm_float32le
    else if v == 3
    then pcm_s24le
    else if v == 4
    then pcm_s32le
    else other v

unfoldable pub byte_of_format : AudioSampleFormat → ℕ
byte_of_format unknown = 0
byte_of_format pcm_s16le = 1
byte_of_format pcm_float32le = 2
byte_of_format pcm_s24le = 3
byte_of_format pcm_s32le = 4
byte_of_format (other v) = v

pub record AudioConfig : Type 0 where
  pub sample_rate : ℕ  -- uint32_t
  pub channels : ℕ  -- uint16_t
  pub format : AudioSampleFormat
  pub frames_per_packet : ℕ  -- uint32_t

-- The member initialisers: 10 ms at 48 kHz.
abbrev pub default_config : AudioConfig
default_config = record {
  sample_rate = 48000;
  channels = 2;
  format = pcm_s16le;
  frames_per_packet = 480;
}

abbrev pub size_max : ℕ
size_max = 2 ^ 64 - 1

abbrev sample_bytes : AudioSampleFormat → ℕ
sample_bytes pcm_s16le = 2
sample_bytes pcm_float32le = 4
sample_bytes pcm_s24le = 3
sample_bytes pcm_s32le = 4
sample_bytes _ = 2

unfoldable pub bytes_per_sample : AudioConfig → ℕ
bytes_per_sample c = sample_bytes c.format

unfoldable pub bytes_per_frame : AudioConfig → ℕ
unfolding bytes_per_sample
bytes_per_frame c = mul64 (bytes_per_sample c) c.channels

unfoldable pub packet_payload_size : AudioConfig → ℕ
packet_payload_size c =
    let bpf = bytes_per_frame c in
    if bpf == 0 || c.frames_per_packet == 0
    then 0
    else if ltb (size_max / bpf) c.frames_per_packet
    then 0
    else mul64 c.frames_per_packet bpf

unfoldable pub frames_to_bytes : AudioConfig → ℕ → ℕ
frames_to_bytes c frames =
    let bpf = bytes_per_frame c in
    if bpf == 0 then 0 else if ltb (size_max / bpf) frames then 0 else mul64 frames bpf

unfoldable pub bytes_to_frames : AudioConfig → ℕ → ℕ
bytes_to_frames c bytes = let bpf = bytes_per_frame c in if ltb 0 bpf then bytes / bpf else 0

abbrev is_unknown : AudioSampleFormat → Bool
is_unknown unknown = true
is_unknown _ = false

unfoldable pub is_valid : AudioConfig → Bool
is_valid c =
    let payload = packet_payload_size c in
    if c.sample_rate == 0 || ltb 192000 c.sample_rate
    then false
    else if c.channels == 0 || ltb 32 c.channels
    then false
    else if c.frames_per_packet == 0 || ltb 8192 c.frames_per_packet
    then false
    else if is_unknown c.format
    then false
    else if payload == 0 || ltb 65507 payload
    then false
    else true

-- The messages of `validate`; `valid` is the empty `expected`.
pub data Verdict : Type 0 where
  valid : Verdict
  invalid_sample_rate invalid_channels invalid_frames_per_packet unknown_format : Verdict
  payload_overflow_or_zero payload_exceeds_max_udp : Verdict

unfoldable pub validate : AudioConfig → Verdict
validate c =
    let payload = packet_payload_size c in
    if c.sample_rate == 0 || ltb 192000 c.sample_rate
    then invalid_sample_rate
    else if c.channels == 0 || ltb 32 c.channels
    then invalid_channels
    else if c.frames_per_packet == 0 || ltb 8192 c.frames_per_packet
    then invalid_frames_per_packet
    else if is_unknown c.format
    then unknown_format
    else if payload == 0
    then payload_overflow_or_zero
    else if ltb 65507 payload
    then payload_exceeds_max_udp
    else valid

-- `operator==`
unfoldable pub same_config : AudioConfig → AudioConfig → Bool
unfolding byte_of_format
same_config a b =
    a.sample_rate == b.sample_rate
    && a.channels == b.channels
    && byte_of_format a.format == byte_of_format b.format
    && a.frames_per_packet == b.frames_per_packet
