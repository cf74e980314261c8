-- ===== src/Server.antt =====
-- src/server/server.hpp and server.cpp: `AudioRouterServer`, its session and its handlers. Each
-- handler is one step on the state; the clock readings of a call, the answers of the capture engine
-- and the results of `send_to` are arguments, and what is sent is a list of datagrams. Log lines
-- are left out, and Server/Wire adds the fixed texts of a payload.
mod Runs
pub mod Stream
pub mod Session
pub mod Stranger
pub mod Held
pub mod Speaker
pub mod Chunks
pub mod Wire
use audio_router.Prelude.{
  ℕ, ◌+◌, ◌%◌, ◌^◌, Bool, true, false, not, ◌&&◌, ◌||◌, List, [], ◌∷◌, ◌++◌, Option, none, some,
  ltb, ◌==◌, if◌then◌else◌, length, drop,
}
use audio_router.Prelude.Word.{sub64, u16}
use audio_router.Protocol.{
  CommonHeader, MsgType, make_header, is_valid_header, of_uint8, common_header_size,
  current_version, discovery_req, discovery_resp, connect_req, connect_ack, connect_nak,
  disconnect_req, disconnect_ack, heartbeat_ping, heartbeat_pong, control_cmd,
}
use audio_router.Protocol.Wire.{header_of_bytes, field_at}
use audio_router.Config.{AudioConfig, pcm_s16le, byte_of_format}
use audio_router.Endpoint.{
  Floats, EndpointControl, MuteMethod, mute_pc_speaker, unmute_pc_speaker, set_mute, set_volume,
  shutdown,
}

-- `sockaddr_in` and `valid_`.
pub record SocketAddress : Type 0 where
  pub sin_family : ℕ
  pub sin_port : ℕ
  pub s_addr : ℕ
  pub is_valid : Bool

-- `operator==`, which does not look at `valid_`.
unfoldable pub same_address : SocketAddress → SocketAddress → Bool
same_address a b = a.sin_family == b.sin_family && a.sin_port == b.sin_port && a.s_addr == b.s_addr

-- `SocketAddress()`
abbrev pub no_address : SocketAddress
no_address = record { sin_family = 0; sin_port = 0; s_addr = 0; is_valid = false }

pub data ServerState : Type 0 where
  stopped listening streaming : ServerState

unfoldable pub is_streaming : ServerState → Bool
is_streaming streaming = true
is_streaming _ = false

-- The fields of `ServerConfig` that the session reads.
pub record ServerConfig : Type 0 where
  pub port : ℕ  -- uint16_t
  pub sample_rate : ℕ
  pub channels : ℕ
  pub frames_per_packet : ℕ  -- uint32_t
  pub auto_mute_pc_speaker : Bool
  pub mute_method : MuteMethod
  pub client_timeout_ms : ℕ  -- uint32_t

pub record ServerStats : Type 0 where
  pub packets_sent : ℕ  -- uint64_t
  pub bytes_sent : ℕ
  pub audio_frames_captured : ℕ
  pub client_buffer_level : ℕ
  pub client_lost_packets : ℕ

pub record Server (V : Type 0) : Type 0 where
  pub config : ServerConfig
  pub state : ServerState
  pub active_client : SocketAddress
  pub last_client_activity_time_ms : ℕ
  pub sequence_number : ℕ  -- uint32_t
  pub stats : ServerStats
  pub chunk_buffer : List ℕ
  pub endpoint_control : EndpointControl V
  pub actual_audio_config : AudioConfig

pub data Reason : Type 0 where
  server_shutdown graceful heartbeat_timeout tunnel_disconnected : Reason

-- The payloads that the server sends, without their fixed texts.
pub data Payload : Type 0 where
  discovery_resp_payload : (server_version server_port is_busy pc_muted : ℕ) → Payload
  connect_nak_payload : (error_code : ℕ) → Payload
  connect_ack_payload :
      (status_code sample_rate channels format frames_per_packet pc_speaker_muted : ℕ) → Payload
  disconnect_payload : (reason_code : ℕ) → Reason → Payload
  heartbeat_payload : (orig_timestamp_us buffer_level packets_received packets_lost : ℕ) → Payload

-- `sizeof` of the packed payload structs.
unfoldable pub payload_size_of : Payload → ℕ
payload_size_of (discovery_resp_payload _ _ _ _) = 38
payload_size_of (connect_nak_payload _) = 65
payload_size_of (connect_ack_payload _ _ _ _ _ _) = 75
payload_size_of (disconnect_payload _ _) = 65
payload_size_of (heartbeat_payload _ _ _ _) = 28

pub record Datagram : Type 0 where
  pub to : SocketAddress
  pub header : CommonHeader
  pub payload : Payload

-- The header that every handler fills in, and `send_to`.
unfoldable pub reply : MsgType → ℕ → ℕ → Payload → SocketAddress → Datagram
reply type seq now_us payload to = record {
  to = to;
  header = make_header type seq now_us (payload_size_of payload) 0;
  payload = payload;
}

-- What the capture engine does when a client connects: it is capturing already, or `start` succeeds
-- or fails and leaves this configuration in its out-parameter. `start` is given the desired one.
pub data Capture : Type 0 where
  capturing : Capture
  starts fails : (AudioConfig → AudioConfig) → Capture

abbrev pub byte_of_Bool : Bool → ℕ
byte_of_Bool b = if b then 1 else 0

unfoldable pub desired_config : ServerConfig → AudioConfig
desired_config c = record {
  sample_rate = c.sample_rate;
  channels = c.channels;
  format = pcm_s16le;
  frames_per_packet = c.frames_per_packet;
}

-- The clock readings that one received datagram can cause, and the capture engine's answer.
pub record Readings : Type 0 where
  pub now_ms : ℕ
  pub set_ms : ℕ
  pub now_us : ℕ
  pub capture : Capture

-- What the server's threads do to the session: a datagram is received, the watchdog looks, or the USB
-- relay finds its tunnel closed.
pub data Event : Type 0 where
  received : List ℕ → SocketAddress → Readings → Event
  watchdog_round : (now_ms now_us : ℕ) → Event
  tunnel_lost : (now_us : ℕ) → Event

abbrev pub Step : Type 0 → Type 0
Step V = Server V × List Datagram

module _ {V : Type 0} where
  unfoldable pub handle_discovery_req : Server V → SocketAddress → ℕ → Step V
  handle_discovery_req s sender now_us =
      let payload =
        discovery_resp_payload current_version s.config.port (byte_of_Bool (is_streaming s.state))
          (byte_of_Bool s.endpoint_control.is_silenced_by_us) in
      (s, reply discovery_resp 0 now_us payload sender ∷ [])

  -- The client that streams already keeps the server for `client_timeout_ms`.
  unfoldable pub is_busy_for : Server V → SocketAddress → ℕ → Bool
  is_busy_for s sender now_ms =
      is_streaming s.state
      && s.active_client.is_valid
      && not (same_address s.active_client sender)
      && ltb (sub64 now_ms s.last_client_activity_time_ms) s.config.client_timeout_ms

  -- The session's fields are set before the capture engine is asked.
  unfoldable pub take_session : Server V → SocketAddress → ℕ → Server V
  take_session s sender now_ms = record s {
    active_client = sender;
    last_client_activity_time_ms = now_ms;
    sequence_number = 0;
  }

  unfoldable pub silence : Floats V → Server V → Server V
  silence f s =
      if s.config.auto_mute_pc_speaker
      then record s { endpoint_control = mute_pc_speaker f s.config.mute_method s.endpoint_control }
      else s

  unfoldable pub ack_payload : Server V → Payload
  ack_payload s =
      let c = s.actual_audio_config in
      connect_ack_payload 0 c.sample_rate c.channels (byte_of_format c.format)
        (u16 c.frames_per_packet) (byte_of_Bool s.config.auto_mute_pc_speaker)

  -- The part of `handle_connect_req` behind the start of the capture engine.
  unfoldable pub begin_streaming : Floats V → Server V → SocketAddress → ℕ → Step V
  begin_streaming f s sender now_us =
      let s1 = record (silence f s) { state = streaming } in
      (s1, reply connect_ack 0 now_us (ack_payload s1) sender ∷ [])

  unfoldable pub start_capture : Floats V → Capture → Server V → SocketAddress → ℕ → Step V
  start_capture f capturing s sender now_us = begin_streaming f s sender now_us
  start_capture f (starts actual) s sender now_us =
      begin_streaming f (record s { actual_audio_config = actual (desired_config s.config) }) sender
        now_us
  start_capture f (fails actual) s sender now_us =
      (record s { actual_audio_config = actual (desired_config s.config) }, [])

  -- `now_ms` is the reading of the busy test, `set_ms` that of the activity time.
  unfoldable pub handle_connect_req :
      Floats V → Capture → Server V → SocketAddress → (now_ms set_ms now_us : ℕ) → Step V
  handle_connect_req f capture s sender now_ms set_ms now_us =
      if is_busy_for s sender now_ms
      then (s, reply connect_nak 0 now_us (connect_nak_payload 1) sender ∷ [])
      else start_capture f capture (take_session s sender set_ms) sender now_us

  unfoldable pub restore_speaker : Server V → Server V
  restore_speaker s =
      if s.config.auto_mute_pc_speaker
      then record s { endpoint_control = unmute_pc_speaker s.endpoint_control }
      else s

  unfoldable pub disconnect_client : Server V → Reason → (send_ack : Bool) → ℕ → Step V
  disconnect_client s reason send_ack now_us =
      if is_streaming s.state && s.active_client.is_valid
      then (
        record (restore_speaker s) { active_client = no_address; state = listening },
        if send_ack
            then reply disconnect_ack 0 now_us (disconnect_payload 0 reason) s.active_client ∷ []
            else [],
      )
      else (s, [])

  unfoldable pub handle_disconnect_req : Server V → SocketAddress → ℕ → Step V
  handle_disconnect_req s sender now_us =
      if same_address sender s.active_client
      then disconnect_client s graceful true now_us
      else (s, [])

  -- `sizeof(HeartbeatPayload)` is 28.
  unfoldable pub note_ping : Server V → List ℕ → Server V
  note_ping s payload = if ltb (length payload) 28 then s else record s {
    stats = record s.stats {
      client_buffer_level = field_at 8 4 payload;
      client_lost_packets = field_at 16 4 payload;
    };
  }

  unfoldable pub handle_heartbeat_ping :
      Server V → CommonHeader → List ℕ → SocketAddress → (now_ms now_us : ℕ) → Step V
  handle_heartbeat_ping s hdr payload sender now_ms now_us =
      let orig = if ltb (length payload) 28 then 0 else field_at 0 8 payload in
      let s1 = note_ping (record s { last_client_activity_time_ms = now_ms }) payload in
      let pong = heartbeat_payload orig 0 (s1.stats.packets_sent % 2 ^ 32) 0 in
      if not (same_address sender s.active_client)
      then (s, [])
      else (s1, reply heartbeat_pong hdr.seq_num now_us pong sender ∷ [])

  -- The switch on `cmd_id`: 1 mutes, 2 unmutes, 3 sets the volume.
  unfoldable pub apply_cmd : Floats V → List ℕ → EndpointControl V → EndpointControl V
  apply_cmd f payload e =
      let cmd = field_at 0 1 payload in
      if cmd == 1
      then set_mute true e
      else if cmd == 2
      then set_mute false e
      else if cmd == 3
      then set_volume f (f.of_bits (field_at 1 4 payload)) e
      else e

  -- `sizeof(ControlCmdPayload)` is 9: the command, a float and an integer.
  unfoldable pub handle_control_cmd : Floats V → Server V → List ℕ → SocketAddress → Step V
  handle_control_cmd f s payload sender =
      if not (same_address sender s.active_client)
      then (s, [])
      else if ltb (length payload) 9
      then (s, [])
      else (record s { endpoint_control = apply_cmd f payload s.endpoint_control }, [])

  unfoldable pub dispatch :
      Floats V
      → Server V
      → Option MsgType
      → CommonHeader
      → List ℕ
      → SocketAddress
      → Readings
      → Step V
  dispatch f s (some discovery_req) hdr payload sender r = handle_discovery_req s sender r.now_us
  dispatch f s (some connect_req) hdr payload sender r =
      handle_connect_req f r.capture s sender r.now_ms r.set_ms r.now_us
  dispatch f s (some disconnect_req) hdr payload sender r = handle_disconnect_req s sender r.now_us
  dispatch f s (some heartbeat_ping) hdr payload sender r =
      handle_heartbeat_ping s hdr payload sender r.set_ms r.now_us
  dispatch f s (some control_cmd) hdr payload sender r = handle_control_cmd f s payload sender
  dispatch f s _ hdr payload sender r = (s, [])

  -- One round of `network_receive_thread`, with the bytes that `receive_from` read.
  unfoldable pub receive : Floats V → Server V → List ℕ → SocketAddress → Readings → Step V
  receive f s buf sender r =
      let hdr = header_of_bytes buf in
      if ltb (length buf) common_header_size
      then (s, [])
      else if not (is_valid_header hdr (length buf))
      then (s, [])
      else dispatch f s (of_uint8 hdr.msg_type) hdr (drop common_header_size buf) sender r

  -- One round of `watchdog_thread`.
  unfoldable pub watchdog : Server V → (now_ms now_us : ℕ) → Step V
  watchdog s now_ms now_us =
      let last = s.last_client_activity_time_ms in
      if is_streaming s.state && (ltb 0 last && ltb s.config.client_timeout_ms (sub64 now_ms last))
      then disconnect_client s heartbeat_timeout false now_us
      else (s, [])

  unfoldable pub step : Floats V → Server V → Event → Step V
  step f s (received buf sender r) = receive f s buf sender r
  step f s (watchdog_round now_ms now_us) = watchdog s now_ms now_us
  step f s (tunnel_lost now_us) = disconnect_client s tunnel_disconnected true now_us

  -- `stop`, without the threads and sockets.
  unfoldable pub stop : Server V → ℕ → Step V
  stop s now_us =
      let d = disconnect_client s server_shutdown true now_us in
      let s1 = restore_speaker d.0 in
      let s2 =
        if s.config.auto_mute_pc_speaker
        then record s1 { endpoint_control = shutdown s1.endpoint_control }
        else s1 in
      (record s2 { state = stopped }, d.1)
