-- ===== src/Client.antt =====
-- src/client/client.hpp and client.cpp: what `AudioRouterClient` does with the datagrams it
-- receives, in its handshake and while it streams. Clock readings are arguments, log lines and the
-- sender's address, which the source does not look at, are left out.
pub mod Receive
pub mod Handshake
pub mod Requests
pub mod Discovery
pub mod Playback
pub mod Watch
pub mod Start
pub mod Args
mod Runs
use audio_router.Prelude.{
  ℕ, zero, suc, ◌+◌, ◌*◌, ◌%◌, ◌^◌, Bool, true, false, not, ◌||◌, List, [], ◌∷◌, Option, none, some,
  ltb, leb, ◌==◌, if◌then◌else◌, length, drop,
}
use audio_router.Prelude.Word.{add64, sub64, u32}
use audio_router.Protocol.{
  CommonHeader, AudioPacketHeader, MsgType, is_valid_header, validate_audio_header, has_value,
  of_uint8, to_uint8, common_header_size, audio_header_size, audio_data, heartbeat_pong,
  disconnect_ack, disconnect_req, connect_ack, connect_nak,
}
use audio_router.Protocol.Wire.{header_of_bytes, field_at}
use audio_router.Config.{AudioConfig, format_of_byte}
use audio_router.Jitter.{Doubles, JitterBuffer}
use audio_router.Jitter.Push.{push_packet}

-- The part of the state that the receive thread works on.
pub record Client (D : Type 0) : Type 0 where
  pub is_running : Bool
  pub jitter_buffer : JitterBuffer D
  pub last_packet_time_ms : ℕ
  pub last_rtt_us : ℕ  -- uint32_t
  pub packets_received : ℕ  -- uint64_t
  pub bytes_received : ℕ

-- `reinterpret_cast<const AudioPacketHeader*>`
unfoldable pub audio_header_of_bytes : List ℕ → AudioPacketHeader
audio_header_of_bytes buf = record {
  common = header_of_bytes buf;
  sample_rate = field_at 24 4 buf;
  channels = field_at 28 2 buf;
  format = field_at 30 1 buf;
  reserved = field_at 31 1 buf;
  num_frames = field_at 32 4 buf;
}

-- The bytes read as `int16_t`, as far as there are whole samples.
unfoldable pub samples_of : List ℕ → List ℕ
samples_of (lo ∷ hi ∷ bytes) = (lo + 256 * hi) ∷ samples_of bytes
samples_of _ = []

-- The clock readings of one datagram.
pub record Clock : Type 0 where
  pub now_ms : ℕ
  pub now_us : ℕ
  pub push_us : ℕ
  pub push_ms : ℕ

module _ {D : Type 0} where
  unfoldable pub count_packet : Client D → ℕ → ℕ → Client D
  count_packet c bytes now_ms = record c {
    last_packet_time_ms = now_ms;
    packets_received = add64 c.packets_received 1;
    bytes_received = add64 c.bytes_received bytes;
  }

  unfoldable pub pushed : Client D → Option (Bool × JitterBuffer D) → Option (Client D)
  pushed c none = none
  pushed c (some (accepted, jb)) = some (record c { jitter_buffer = jb })

  unfoldable pub on_audio : Doubles D → Client D → List ℕ → ℕ → Clock → Option (Client D)
  on_audio fl c recv_buf bytes t =
      let ah = audio_header_of_bytes recv_buf in
      let pcm = samples_of (drop audio_header_size recv_buf) in
      if ltb bytes audio_header_size
      then some c
      else if not (has_value (validate_audio_header ah bytes))
      then some c
      else pushed c (
          push_packet fl c.jitter_buffer ah.common.seq_num ah.common.timestamp_us (some pcm)
            ah.num_frames t.push_us t.push_ms)

  -- `sizeof(CommonHeader) + sizeof(HeartbeatPayload)` is 52.
  unfoldable pub on_pong : Client D → List ℕ → ℕ → ℕ → Client D
  on_pong c recv_buf bytes now_us =
      let orig = field_at 24 8 recv_buf in
      if ltb bytes 52
      then c
      else if ltb orig now_us
      then record c { last_rtt_us = u32 (sub64 now_us orig) }
      else c

  unfoldable pub on_message :
      Doubles D → Client D → Option MsgType → List ℕ → ℕ → Clock → Option (Client D)
  on_message fl c (some audio_data) recv_buf bytes t = on_audio fl c recv_buf bytes t
  on_message fl c (some heartbeat_pong) recv_buf bytes t = some (on_pong c recv_buf bytes t.now_us)
  on_message fl c (some disconnect_ack) recv_buf bytes t = some (record c { is_running = false })
  on_message fl c (some disconnect_req) recv_buf bytes t = some (record c { is_running = false })
  on_message fl c _ recv_buf bytes t = some c

  -- One round of `network_receive_thread`, with `recv_buf` as `receive_from` leaves it and the
  -- number of bytes it read; `none` is a read past the end of `recv_buf`.
  unfoldable pub receive : Doubles D → Client D → List ℕ → ℕ → Clock → Option (Client D)
  receive fl c recv_buf bytes t =
      let hdr = header_of_bytes recv_buf in
      if ltb bytes common_header_size
      then some c
      else if not (is_valid_header hdr bytes)
      then some c
      else on_message fl (count_packet c bytes t.now_ms) (of_uint8 hdr.msg_type) recv_buf bytes t

-- What one reply means to `perform_handshake`: 99 bytes hold an acknowledgement, 89 a refusal.
pub data Verdict : Type 0 where
  again refused : Verdict
  connected : AudioConfig → Verdict

unfoldable pub ack_config : List ℕ → AudioConfig
ack_config buf = record {
  sample_rate = field_at 25 4 buf;
  channels = field_at 29 2 buf;
  format = format_of_byte (field_at 31 1 buf);
  frames_per_packet = field_at 32 2 buf;
}

unfoldable pub on_reply : List ℕ → Verdict
on_reply buf =
    let hdr = header_of_bytes buf in
    if ltb (length buf) common_header_size
    then again
    else if not (is_valid_header hdr (length buf))
    then again
    else if hdr.msg_type == to_uint8 connect_ack
    then (if ltb (length buf) 99 then again else connected (ack_config buf))
    else if hdr.msg_type == to_uint8 connect_nak
    then (if ltb (length buf) 89 then again else refused)
    else again

-- The replies of the attempts that are left, an empty one where `receive_from` timed out; the
-- answer is the number of requests sent, and the configuration where the server accepted.
unfoldable pub attempts : ℕ → (ℕ → List ℕ) → ℕ × Option AudioConfig
attempts zero replies = (0, none)
attempts (suc n) replies =
    let rest = attempts n (λ k. replies (suc k)) in
    elim (on_reply (replies 0)) [
      | again ↦ (suc (rest.0), rest.1)
      | refused ↦ (1, none)
      | connected c ↦ (1, some c)
    ]

-- `perform_handshake` of a client that is not asked to stop meanwhile: `replies k` is what the
-- attempt `k` receives.
unfoldable pub perform_handshake : (ℕ → List ℕ) → ℕ × Option AudioConfig
perform_handshake replies = attempts 5 replies
