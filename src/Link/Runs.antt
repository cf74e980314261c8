-- ===== src/Link/Runs.antt =====
-- Tests of the server and the client together, on one server and one client.
use audio_router.Prelude.{ℕ, ◌+◌, ◌*◌, ◌≡◌, refl, arith, true, [], ◌∷◌, ◌++◌, some}
use audio_router.Config.{default_config, bytes_per_frame}
use audio_router.Endpoint.{Floats, endpoint_mute, new_endpoint}
use audio_router.Jitter.{Doubles, construct}
use audio_router.Jitter.Push.{push_packet}
use audio_router.Protocol.Wire.{header_bytes, header_of_bytes}
use audio_router.Protocol.{
  heartbeat_pong, is_valid_header, make_header, is_valid_msg_type, has_unknown_flags, of_uint8,
}
use audio_router.Server.{
  Server, ServerConfig, ServerStats, SocketAddress, no_address, same_address, listening, streaming,
  is_streaming, is_busy_for, Readings, starts, start_capture, begin_streaming, handle_connect_req,
  take_session, silence, dispatch, desired_config, heartbeat_payload, disconnect_payload, graceful,
  reply, restore_speaker,
}
use audio_router.Server as Server
use audio_router.Server.Stream.{target_chunk_frames, chunk_bytes, next_packet}
use audio_router.Server.Wire.{packet_bytes, datagram_bytes}
use audio_router.Client.{Client, Clock, count_packet, pushed, samples_of}
use audio_router.Client as Client
use audio_router.Client.Requests.{PingStats, request, ping, connect_request, discovery_request}
use audio_router.Link.Handshake.{Connects, perform_handshake-receive}
use audio_router.Link.Audio.{receive-next_packet}
use audio_router.Link.Heartbeat.{pinged, receive-heartbeat}
use audio_router.Link.Session.{Finds, discover_server-receive}

abbrev percent : Floats ℕ
percent = record { zero_v = 0; one_v = 100; of_bits = λ n. n; clamp = λ n. n }

abbrev whole : Doubles ℕ
whole = record {
  of_ℕ = λ n. n;
  add = λ a b. a + b;
  sub = λ a b. a;
  mul = λ a b. a * b;
  div = λ a b. a;
}

abbrev phone : SocketAddress
phone = record { sin_family = 2; sin_port = 4000; s_addr = 9; is_valid = true }

abbrev pc : SocketAddress
pc = record { sin_family = 2; sin_port = 50000; s_addr = 1; is_valid = true }

abbrev small_config : ServerConfig
small_config = record {
  port = 50000;
  sample_rate = 48000;
  channels = 2;
  frames_per_packet = 1;
  auto_mute_pc_speaker = true;
  mute_method = endpoint_mute;
  client_timeout_ms = 8000;
}

abbrev no_stats : ServerStats
no_stats = record {
  packets_sent = 3;
  bytes_sent = 120;
  audio_frames_captured = 3;
  client_buffer_level = 0;
  client_lost_packets = 0;
}

abbrev waiting : Server ℕ
waiting = record {
  config = small_config;
  state = listening;
  active_client = no_address;
  last_client_activity_time_ms = 0;
  sequence_number = 5;
  stats = no_stats;
  chunk_buffer = 1 ∷ 2 ∷ 3 ∷ 4 ∷ 5 ∷ [];
  endpoint_control = new_endpoint percent;
  actual_audio_config = default_config;
}

abbrev busy : Server ℕ
busy = record waiting { state = streaming; active_client = phone }

abbrev client : Client ℕ
client = record {
  is_running = true;
  jitter_buffer = construct whole 40;
  last_packet_time_ms = 0;
  last_rtt_us = 0;
  packets_received = 0;
  bytes_received = 0;
}

abbrev clock : Clock
clock = record { now_ms = 1; now_us = 900; push_us = 3; push_ms = 4 }

abbrev readings : Readings
readings = record { now_ms = 2000; set_ms = 2000; now_us = 5; capture = starts λ c. c }

abbrev counts : PingStats
counts = record {
  available_frames = 480;
  packets_received = 3;
  packets_lost = 1;
  underruns = 0;
  overruns = 0;
}

perform_handshake-receive_example :
    Connects
      ((Server.receive percent waiting (connect_request 7 40) phone readings).1)
      ((Server.receive percent waiting (connect_request 7 40) phone readings).0.actual_audio_config)
unfolding is_busy_for is_streaming Server.receive connect_request request header_bytes
    is_valid_header header_of_bytes make_header is_valid_msg_type has_unknown_flags of_uint8
    dispatch handle_connect_req start_capture take_session begin_streaming silence desired_config
perform_handshake-receive_example =
    perform_handshake-receive percent waiting phone readings 7 40 (omega arith) refl tt
      (omega arith)
      record {
        sample_rate = omega arith;
        channels = omega arith;
        format = tt;
        frames_per_packet = omega arith;
      }

receive-next_packet_example :
    Client.receive whole client
      (packet_bytes (next_packet busy default_config 6) ++ (9 ∷ []))
      40
      clock
    ≡ pushed (count_packet client 40 1) (
        push_packet whole client.jitter_buffer 5 6
          (some (samples_of (1 ∷ 2 ∷ 3 ∷ 4 ∷ 9 ∷ [])))
          1
          3
          4)
unfolding target_chunk_frames next_packet chunk_bytes bytes_per_frame
receive-next_packet_example =
    receive-next_packet whole busy client default_config 6 (9 ∷ []) clock (omega arith)
      (omega arith)
      record {
        format = refl;
        sample_rate = (omega arith, omega arith);
        channels = (omega arith, omega arith);
        frames = (omega arith, omega arith);
        size = omega arith;
      }

receive-heartbeat_example :
    (Server.receive percent busy (ping counts 7 8) phone readings
      ≡ (pinged busy counts 2000, reply heartbeat_pong 0 5 (heartbeat_payload 8 0 3 0) phone ∷ []))
    × (Client.receive whole client
          (datagram_bytes (reply heartbeat_pong 0 5 (heartbeat_payload 8 0 3 0) phone) ++ [])
          52
          clock
        ≡ some (record (count_packet client 52 1) { last_rtt_us = 892 }))
unfolding same_address
receive-heartbeat_example =
    receive-heartbeat percent whole busy client counts 7 8 phone readings clock [] (omega arith)
      (omega arith) (omega arith) (omega arith) refl

discover_server-receive_example :
    Finds waiting pc (Server.receive percent waiting (discovery_request 7) phone readings)
discover_server-receive_example =
    discover_server-receive percent waiting phone pc readings 7 (omega arith) (omega arith)
