-- ===== src/Server/Stream.antt =====
-- `AudioRouterServer::on_audio_captured` of src/server/server.cpp: captured audio cut into packets.
use audio_router.Prelude.{
  ℕ, zero, suc, ◌+◌, not, List, [], ◌∷◌, ◌++◌, Option, none, some, ltb, if◌then◌else◌, length, take,
  drop,
}
use audio_router.Prelude.Word.{add64, mul64, add32, u32}
use audio_router.Protocol.{AudioPacketHeader, make_header, audio_data}
use audio_router.Config.{AudioConfig, bytes_per_frame, byte_of_format}
use audio_router.Server.{Server, ServerConfig, ServerStats, SocketAddress, is_streaming}

pub record AudioPacket : Type 0 where
  pub to : SocketAddress
  pub header : AudioPacketHeader
  pub pcm : List ℕ

-- What the clock and the socket answer in one round of the loop: `get_time_us()`, and the number of
-- bytes that `send_to` reports, 0 where it fails.
pub record SendAnswer : Type 0 where
  pub now_us : ℕ
  pub sent : ℕ

unfoldable pub target_chunk_frames : ServerConfig → ℕ
target_chunk_frames c = if ltb 0 c.frames_per_packet then c.frames_per_packet else 240

unfoldable pub chunk_bytes : ServerConfig → AudioConfig → ℕ
chunk_bytes c config = mul64 (target_chunk_frames c) (bytes_per_frame config)

-- The payload size is cast to `uint32_t`.
unfoldable pub audio_header : ServerConfig → AudioConfig → (seq now_us : ℕ) → AudioPacketHeader
audio_header c config seq now_us = record {
  common = make_header audio_data seq now_us (u32 (add64 12 (chunk_bytes c config))) 0;
  sample_rate = config.sample_rate;
  channels = config.channels;
  format = byte_of_format config.format;
  reserved = 0;
  num_frames = target_chunk_frames c;
}

unfoldable pub count_sent : ℕ → ℕ → ServerStats → ServerStats
count_sent sent frames stats =
    if ltb 0 sent
    then record stats {
      packets_sent = add64 stats.packets_sent 1;
      bytes_sent = add64 stats.bytes_sent sent;
      audio_frames_captured = add64 stats.audio_frames_captured frames;
    }
    else stats

module _ {V : Type 0} where
  -- One packet, from the front of the chunk buffer.
  unfoldable pub next_packet : Server V → AudioConfig → ℕ → AudioPacket
  next_packet s config now_us = record {
    to = s.active_client;
    header = audio_header s.config config s.sequence_number now_us;
    pcm = take (chunk_bytes s.config config) s.chunk_buffer;
  }

  -- The state after that packet.
  unfoldable pub send_chunk : Server V → AudioConfig → ℕ → Server V
  send_chunk s config sent = record s {
    sequence_number = add32 s.sequence_number 1;
    chunk_buffer = drop (chunk_bytes s.config config) s.chunk_buffer;
    stats = count_sent sent (target_chunk_frames s.config) s.stats;
  }

  unfoldable pub with_packet :
      AudioPacket → Option (Server V × List AudioPacket) → Option (Server V × List AudioPacket)
  with_packet p none = none
  with_packet p (some (s, ps)) = some (s, p ∷ ps)

  -- The loop; `answers n` belongs to the round with `n` rounds of fuel behind it, and `none` is a
  -- loop that the fuel does not finish.
  unfoldable pub chunk_loop :
      ℕ → (ℕ → SendAnswer) → AudioConfig → Server V → Option (Server V × List AudioPacket)
  unfolding with_packet
  chunk_loop zero answers config s = none
  chunk_loop (suc n) answers config s =
      let rest = chunk_loop n answers config (send_chunk s config (answers n).sent) in
      if ltb (length s.chunk_buffer) (chunk_bytes s.config config)
      then some (s, [])
      else with_packet (next_packet s config (answers n).now_us) rest

  unfoldable pub buffer_audio : Server V → List ℕ → ℕ → Server V
  buffer_audio s pcm n = record s { chunk_buffer = s.chunk_buffer ++ take n pcm }

  -- One call of the capture engine's callback with the bytes behind `pcm` (its `data`); `none` is a call that
  -- reads past them, or whose loop does not end. Every round removes a byte or more where the chunk
  -- is not empty, so one round of fuel for each buffered byte, and one for the test, are enough.
  unfoldable pub on_audio_captured :
      (ℕ → SendAnswer) → Server V → List ℕ → ℕ → AudioConfig → Option (Server V × List AudioPacket)
  on_audio_captured answers s pcm num_frames config =
      let total = mul64 num_frames (bytes_per_frame config) in
      let s1 = buffer_audio s pcm total in
      if not (is_streaming s.state)
      then some (s, [])
      else if not s.active_client.is_valid
      then some (s, [])
      else if ltb (length pcm) total
      then none
      else chunk_loop (length s1.chunk_buffer + 1) answers config s1
