-- ===== src/Protocol.antt =====
-- src/common/protocol.hpp: the packet headers of the UDP protocol, and their validation.
-- A header is a record of its fields as numbers; `Wire` holds its bytes.
mod Runs
pub mod Valid
pub mod Wire
pub mod Audio
use Prim.Native.Nat.{bit_and}
use audio_router.Prelude.{
  ℕ, ◌+◌, ◌*◌, Bool, true, false, not, ◌&&◌, ◌||◌, ltb, ◌==◌, if◌then◌else◌, Option, none, some,
}
use audio_router.Prelude.Word.{add64, mul64}

-- `enum class MsgType : uint8_t`, without UNKNOWN, which no valid header carries.
pub data MsgType : Type 0 where
  discovery_req discovery_resp connect_req connect_ack connect_nak disconnect_req : MsgType
  disconnect_ack audio_data heartbeat_ping heartbeat_pong control_cmd : MsgType

-- `static_cast<uint8_t>(type)`
abbrev pub to_uint8 : MsgType → ℕ
to_uint8 discovery_req = 0x01
to_uint8 discovery_resp = 0x02
to_uint8 connect_req = 0x10
to_uint8 connect_ack = 0x11
to_uint8 connect_nak = 0x12
to_uint8 disconnect_req = 0x20
to_uint8 disconnect_ack = 0x21
to_uint8 audio_data = 0x30
to_uint8 heartbeat_ping = 0x40
to_uint8 heartbeat_pong = 0x41
to_uint8 control_cmd = 0x50

-- `static_cast<MsgType>(v)`; a value that no enumerator has is `none`, and meets `default`.
unfoldable pub of_uint8 : ℕ → Option MsgType
of_uint8 v =
    if v == 0x01
    then some discovery_req
    else if v == 0x02
    then some discovery_resp
    else if v == 0x10
    then some connect_req
    else if v == 0x11
    then some connect_ack
    else if v == 0x12
    then some connect_nak
    else if v == 0x20
    then some disconnect_req
    else if v == 0x21
    then some disconnect_ack
    else if v == 0x30
    then some audio_data
    else if v == 0x40
    then some heartbeat_ping
    else if v == 0x41
    then some heartbeat_pong
    else if v == 0x50
    then some control_cmd
    else none

unfoldable pub is_valid_msg_type : ℕ → Bool
is_valid_msg_type v =
    v == 0x01
    || v == 0x02
    || v == 0x10
    || v == 0x11
    || v == 0x12
    || v == 0x20
    || v == 0x21
    || v == 0x30
    || v == 0x40
    || v == 0x41
    || v == 0x50

abbrev pub magic_value : ℕ
magic_value = 0x41554452

abbrev pub current_version : ℕ
current_version = 1

abbrev pub max_udp_packet_size : ℕ
max_udp_packet_size = 65507

-- `sizeof(CommonHeader)` and `sizeof(AudioPacketHeader)`, which the source asserts.
abbrev pub common_header_size : ℕ
common_header_size = 24

abbrev pub audio_header_size : ℕ
audio_header_size = 36

pub record CommonHeader : Type 0 where
  pub magic : ℕ  -- uint32_t
  pub version : ℕ  -- uint8_t
  pub msg_type : ℕ  -- uint8_t
  pub flags : ℕ  -- uint16_t
  pub seq_num : ℕ  -- uint32_t
  pub timestamp_us : ℕ  -- uint64_t
  pub payload_size : ℕ  -- uint32_t

pub record AudioPacketHeader : Type 0 where
  pub common : CommonHeader
  pub sample_rate : ℕ  -- uint32_t
  pub channels : ℕ  -- uint16_t
  pub format : ℕ  -- uint8_t
  pub reserved : ℕ  -- uint8_t
  pub num_frames : ℕ  -- uint32_t

-- The messages of the `unexpected` results.
pub data HeaderError : Type 0 where
  packet_too_small bad_magic unsupported_version unknown_msg_type payload_too_large : HeaderError
  truncated_payload unknown_flags_set buffer_too_small buffer_smaller_than_payload : HeaderError
  not_audio_data invalid_sample_rate invalid_channels invalid_num_frames : HeaderError
  payload_size_mismatch : HeaderError

-- `audiorouter::expected`
pub data Expected {ℓ} (A : Type ℓ) : Type ℓ where
  value : A → Expected A
  unexpected : HeaderError → Expected A

-- `explicit operator bool`
abbrev pub has_value {ℓ} : {A : Type ℓ} → Expected A → Bool
has_value (value _) = true
has_value (unexpected _) = false

-- `(hdr.flags & ~known) != 0`: `known` is the four low bits of the 16.
unfoldable pub has_unknown_flags : ℕ → Bool
has_unknown_flags flags = not (bit_and flags 0xfff0 == 0)

unfoldable pub is_valid_header : CommonHeader → ℕ → Bool
is_valid_header hdr received_bytes =
    let total = add64 common_header_size hdr.payload_size in
    if ltb received_bytes common_header_size
    then false
    else if not (hdr.magic == magic_value)
    then false
    else if not (hdr.version == current_version)
    then false
    else if not (is_valid_msg_type hdr.msg_type)
    then false
    else if ltb max_udp_packet_size hdr.payload_size
    then false
    else if ltb total common_header_size
    then false
    else if ltb received_bytes total
    then false
    else if has_unknown_flags hdr.flags
    then false
    else true

unfoldable pub validate_header : CommonHeader → ℕ → Expected (Unit {0})
validate_header hdr received_bytes =
    let total = add64 common_header_size hdr.payload_size in
    if ltb received_bytes common_header_size
    then unexpected packet_too_small
    else if not (hdr.magic == magic_value)
    then unexpected bad_magic
    else if not (hdr.version == current_version)
    then unexpected unsupported_version
    else if not (is_valid_msg_type hdr.msg_type)
    then unexpected unknown_msg_type
    else if ltb max_udp_packet_size hdr.payload_size
    then unexpected payload_too_large
    else if ltb received_bytes total
    then unexpected truncated_payload
    else if has_unknown_flags hdr.flags
    then unexpected unknown_flags_set
    else value tt

-- `AudioSampleFormat::PCM_S16LE`
abbrev pub pcm_s16le_byte : ℕ
pcm_s16le_byte = 1

abbrev out_of_range : ℕ → ℕ → Bool
out_of_range n hi = n == 0 || ltb hi n

-- The checks of the audio fields, behind `validate_header`.
validate_audio_fields : AudioPacketHeader → Expected (Unit {0})
validate_audio_fields ah =
    let expected_pcm = mul64 (mul64 ah.num_frames ah.channels) 2 in
    let expected_size = add64 12 expected_pcm in
    if not (ah.common.msg_type == to_uint8 audio_data)
    then unexpected not_audio_data
    else if out_of_range ah.sample_rate 192000
    then unexpected invalid_sample_rate
    else if out_of_range ah.channels 32
    then unexpected invalid_channels
    else if out_of_range ah.num_frames 8192
    then unexpected invalid_num_frames
    else if not (ah.common.payload_size == expected_size)
    then (if ah.format == pcm_s16le_byte && not (ah.common.payload_size == expected_size)
        then unexpected payload_size_mismatch
        else value tt)
    else value tt

after : Expected (Unit {0}) → Expected (Unit {0}) → Expected (Unit {0})
after (value _) next = next
after (unexpected e) _ = unexpected e

unfoldable pub validate_audio_header : AudioPacketHeader → ℕ → Expected (Unit {0})
unfolding after validate_audio_fields
validate_audio_header ah received_bytes =
    after (validate_header ah.common received_bytes) (validate_audio_fields ah)

unfoldable pub make_header : MsgType → ℕ → ℕ → ℕ → ℕ → CommonHeader
make_header type seq ts_us payload_sz flag_bits = record {
  magic = magic_value;
  version = current_version;
  msg_type = to_uint8 type;
  flags = flag_bits;
  seq_num = seq;
  timestamp_us = ts_us;
  payload_size = payload_sz;
}
