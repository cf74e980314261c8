-- ===== src/Protocol/Audio.antt =====
-- What the validation of an audio packet accepts (src/common/protocol.hpp), and what it lets
-- through: the PCM bytes that a receiver reads behind the header.
use audio_router.Prelude.{ℕ, ◌+◌, ◌*◌, ◌<◌, ◌≤◌, ◌≡◌, ◌≢◌, arith, true}
use audio_router.Prelude.Word.{add64, mul64}
use audio_router.Protocol.{
  AudioPacketHeader, value, pcm_s16le_byte, validate_audio_header, is_valid_header, to_uint8,
  audio_data, audio_header_size,
}
use audio_router.Protocol.Valid.{is_valid_header-eq-validate_header}
use audio_router.Protocol.Wire.{is_valid_header_bounds}

-- The facts that an accepted audio header gives.
pub record Accepted (ah : AudioPacketHeader) (received_bytes : ℕ) : Type 0 where
  pub valid : is_valid_header ah.common received_bytes ≡ true
  pub audio : ah.common.msg_type ≡ to_uint8 audio_data
  pub rate_pos : 0 < ah.sample_rate
  pub rate_max : ah.sample_rate ≤ 192000
  pub channels_pos : 0 < ah.channels
  pub channels_max : ah.channels ≤ 32
  pub frames_pos : 0 < ah.num_frames
  pub frames_max : ah.num_frames ≤ 8192

pub validate_audio_header-Accepted :
    (ah : AudioPacketHeader) (n : ℕ) → validate_audio_header ah n ≡ value tt → Accepted ah n
unfolding validate_audio_header
validate_audio_header-Accepted ah n h =
    ground (arith, is_valid_header-eq-validate_header ah.common n)

-- The PCM size of an accepted packet does not wrap: at most 8192 * 32 * 2 bytes.
pcm_no_wrap : (f c : ℕ) → f ≤ 8192 → c ≤ 32 → (mul64 (mul64 f c) 2 ≡ f * c * 2) × (f * c ≤ 262144)
pcm_no_wrap f c hf hc = let small : f * c ≤ 8192 * 32 = grind arith in (omega arith, omega arith)

s16le_size :
    (ah : AudioPacketHeader) (n : ℕ)
    → validate_audio_header ah n ≡ value tt
    → ah.format ≡ pcm_s16le_byte
    → ah.common.payload_size ≡ add64 12 (mul64 (mul64 ah.num_frames ah.channels) 2)
unfolding validate_audio_header
s16le_size ah n h e = ground arith

-- An accepted S16LE packet holds the PCM bytes of all its frames and channels, and no others:
-- reading `num_frames * channels` samples behind the header stays inside the received bytes.
pub validate_audio_header-s16le :
    (ah : AudioPacketHeader) (received_bytes : ℕ)
    → validate_audio_header ah received_bytes ≡ value tt
    → ah.format ≡ pcm_s16le_byte
    → (ah.common.payload_size ≡ 12 + ah.num_frames * ah.channels * 2)
      × (audio_header_size + ah.num_frames * ah.channels * 2 ≤ received_bytes)
validate_audio_header-s16le ah n h e =
    let a = validate_audio_header-Accepted ah n h in
    let (exact, small) = pcm_no_wrap ah.num_frames ah.channels a.frames_max a.channels_max in
    let size = s16le_size ah n h e in
    let room = is_valid_header_bounds ah.common n a.valid in
    let payload : ah.common.payload_size ≡ 12 + ah.num_frames * ah.channels * 2 = omega arith in
    (payload, omega arith)

-- The validation of a packet of any other sample format does not look at the payload: with the
-- audio fields in range it accepts every valid AUDIO_DATA header, however few PCM bytes it has.
pub validate_audio_header-other_format :
    (ah : AudioPacketHeader) (received_bytes : ℕ)
    → is_valid_header ah.common received_bytes ≡ true
    → ah.common.msg_type ≡ to_uint8 audio_data
    → ah.format ≢ pcm_s16le_byte
    → (0 < ah.sample_rate) × (ah.sample_rate ≤ 192000)
    → (0 < ah.channels) × (ah.channels ≤ 32)
    → (0 < ah.num_frames) × (ah.num_frames ≤ 8192)
    → validate_audio_header ah received_bytes ≡ value tt
unfolding validate_audio_header
validate_audio_header-other_format ah n v t f r c k =
    ground (arith, is_valid_header-eq-validate_header ah.common n)
