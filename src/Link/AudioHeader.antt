-- ===== src/Link/AudioHeader.antt =====
-- The header of an audio packet of `on_audio_captured` (src/server/server.cpp), read back and validated
-- by the client (src/common/protocol.hpp).
use audio_router.Prelude.{ℕ, ◌+◌, ◌*◌, ◌^◌, ◌<◌, ◌≤◌, ◌≡◌, refl, ap, sym, arith, true, List, ◌++◌}
use mathlib.Core.Path.{subst}
use audio_router.Prelude.Word.{mul64}
use audio_router.Protocol.{
  CommonHeader, AudioPacketHeader, value, audio_data, make_header, to_uint8, is_valid_header,
  validate_audio_header,
}
use audio_router.Protocol.Valid.{make_header-Acceptable, is_valid_header-eq-validate_header}
use audio_router.Protocol.Wire.{
  Fits, header_bytes, header_of_bytes, header_of_bytes-header_bytes, le_bytes, le_value,
  le_value-le_bytes_1, le_value-le_bytes_2, le_value-le_bytes_4,
}
use audio_router.Config.{AudioConfig, AudioSampleFormat, pcm_s16le, bytes_per_frame, byte_of_format}
use audio_router.Server.{ServerConfig}
use audio_router.Server.Stream.{target_chunk_frames, chunk_bytes, audio_header}
use audio_router.Server.Wire.{audio_fields}
use audio_router.Client.{audio_header_of_bytes}
use audio_router.Link.Replies.{make_header-Fits}

-- The fields lie within their widths.
record FitsAudio (h : AudioPacketHeader) : Type 0 where
  pub sample_rate : h.sample_rate < 2 ^ 32
  pub channels : h.channels < 2 ^ 16
  pub format : h.format < 2 ^ 8
  pub reserved : h.reserved < 2 ^ 8
  pub num_frames : h.num_frames < 2 ^ 32

-- The five fields behind the common header, read back one by one.
fields_of_bytes :
    (h : AudioPacketHeader) (rest : List ℕ)
    → audio_header_of_bytes (header_bytes h.common ++ (audio_fields h ++ rest)) ≡ record {
      common = header_of_bytes (header_bytes h.common ++ (audio_fields h ++ rest));
      sample_rate = le_value (le_bytes 4 h.sample_rate);
      channels = le_value (le_bytes 2 h.channels);
      format = le_value (le_bytes 1 h.format);
      reserved = le_value (le_bytes 1 h.reserved);
      num_frames = le_value (le_bytes 4 h.num_frames);
    }
unfolding audio_header_of_bytes header_bytes audio_fields
fields_of_bytes h rest = refl

-- What the server sends when its packets are ones that the protocol allows.
pub record FitsPacket (n : ℕ) (config : AudioConfig) : Type 0 where
  pub format : config.format ≡ pcm_s16le
  pub sample_rate : (0 < config.sample_rate) × (config.sample_rate ≤ 192000)
  pub channels : (0 < config.channels) × (config.channels ≤ 32)
  pub frames : (0 < n) × (n ≤ 8192)
  pub size : n * (2 * config.channels) ≤ 65495

audio_header_of_bytes-back :
    (h : AudioPacketHeader) (rest : List ℕ)
    → header_of_bytes (header_bytes h.common ++ (audio_fields h ++ rest)) ≡ h.common
    → FitsAudio h
    → audio_header_of_bytes (header_bytes h.common ++ (audio_fields h ++ rest)) ≡ h
audio_header_of_bytes-back h rest e f =
    rw
      (
        fields_of_bytes h rest,
        e,
        le_value-le_bytes_4 h.sample_rate f.sample_rate,
        le_value-le_bytes_2 h.channels f.channels,
        le_value-le_bytes_1 h.format f.format,
        le_value-le_bytes_1 h.reserved f.reserved,
        le_value-le_bytes_4 h.num_frames f.num_frames,
      )
      refl

-- The size of a chunk does not wrap.
chunk_size :
    (n : ℕ) (config : AudioConfig)
    → FitsPacket n config
    → (mul64 n (bytes_per_frame config) ≡ n * (2 * config.channels))
      × (mul64 (mul64 n config.channels) 2 ≡ n * (2 * config.channels))
unfolding bytes_per_frame
chunk_size n config f =
    let b : bytes_per_frame config ≡ 2 * config.channels = ground (arith, f.format, f.channels) in
    (rw b (omega (arith, f.size)), omega (arith, f.size))

-- The header of such a packet is accepted with its bytes.
header_accepted :
    (n : ℕ) (config : AudioConfig) (h : AudioPacketHeader)
    → FitsPacket n config
    → h.sample_rate ≡ config.sample_rate
    → h.channels ≡ config.channels
    → h.num_frames ≡ n
    → h.common.msg_type ≡ to_uint8 audio_data
    → h.common.payload_size ≡ 12 + n * (2 * config.channels)
    → is_valid_header h.common (36 + n * (2 * config.channels)) ≡ true
    → validate_audio_header h (36 + n * (2 * config.channels)) ≡ value tt
unfolding validate_audio_header
header_accepted n config h f a b c d e v = ground (
  arith,
  is_valid_header-eq-validate_header h.common (36 + n * (2 * config.channels)),
  f.sample_rate,
  f.channels,
  f.frames,
  f.size,
  chunk_size n config f,
)

-- The packet's size field.
payload_size_lem :
    (s : ServerConfig) (config : AudioConfig) (seq now_us : ℕ)
    → FitsPacket (target_chunk_frames s) config
    → (audio_header s config seq now_us).common
      ≡ make_header audio_data seq now_us (12 + target_chunk_frames s * (2 * config.channels)) 0
unfolding audio_header chunk_bytes
payload_size_lem s config seq now_us f =
    ap (λ k. make_header audio_data seq now_us k 0)
      (rw ((chunk_size (target_chunk_frames s) config f).0) (omega (arith, f.size)))

-- The header survives the wire.
pub header_back :
    (s : ServerConfig) (config : AudioConfig) (seq now_us : ℕ) (rest : List ℕ)
    → seq < 2 ^ 32
    → now_us < 2 ^ 64
    → FitsPacket (target_chunk_frames s) config
    → let h = audio_header s config seq now_us in
      audio_header_of_bytes (header_bytes h.common ++ (audio_fields h ++ rest)) ≡ h
unfolding audio_header byte_of_format
header_back s config seq now_us rest a b f =
    let h = audio_header s config seq now_us in
    let fits : Fits h.common = subst Fits (sym (payload_size_lem s config seq now_us f)) (
      make_header-Fits audio_data seq now_us (12 + target_chunk_frames s * (2 * config.channels)) 0
        a b (omega (arith, f.size)) (omega arith)) in
    audio_header_of_bytes-back h rest
      (header_of_bytes-header_bytes h.common (audio_fields h ++ rest) fits)
      record {
        sample_rate = omega (arith, f.sample_rate);
        channels = omega (arith, f.channels);
        format = pcm_small config.format f.format;
        reserved = omega arith;
        num_frames = omega (arith, f.frames);
      }
  where
    pcm_small : (k : AudioSampleFormat) → k ≡ pcm_s16le → byte_of_format k < 2 ^ 8
    pcm_small k e = rw e (omega arith)

common_valid :
    (s : ServerConfig) (config : AudioConfig) (seq now_us : ℕ)
    → FitsPacket (target_chunk_frames s) config
    → is_valid_header
        ((audio_header s config seq now_us).common)
        (36 + target_chunk_frames s * (2 * config.channels))
      ≡ true
common_valid s config seq now_us f =
    let size = 12 + target_chunk_frames s * (2 * config.channels) in
    let e : 24 + size ≡ 36 + target_chunk_frames s * (2 * config.channels) = omega arith in
    subst (λ k. is_valid_header k (36 + target_chunk_frames s * (2 * config.channels)) ≡ true)
      (sym (payload_size_lem s config seq now_us f))
      (subst (λ k. is_valid_header (make_header audio_data seq now_us size 0) k ≡ true) e
        (make_header-Acceptable audio_data seq now_us size 0 (omega (arith, f.size)) (omega arith)))

-- The header is accepted with the packet's bytes.
pub header_valid :
    (s : ServerConfig) (config : AudioConfig) (seq now_us : ℕ)
    → FitsPacket (target_chunk_frames s) config
    → let h = audio_header s config seq now_us in
      (is_valid_header h.common (36 + target_chunk_frames s * (2 * config.channels)) ≡ true)
      × (validate_audio_header h (36 + target_chunk_frames s * (2 * config.channels)) ≡ value tt)
unfolding audio_header make_header
header_valid s config seq now_us f =
    let n = target_chunk_frames s in
    let v : is_valid_header ((audio_header s config seq now_us).common)
          (36 + n * (2 * config.channels))
        ≡ true =
      common_valid s config seq now_us f in
    (
      v,
      header_accepted n config (audio_header s config seq now_us) f refl refl refl refl
          (ap CommonHeader.payload_size (payload_size_lem s config seq now_us f)) v,
    )
