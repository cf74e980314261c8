-- ===== src/Server/Runs.antt =====
-- Tests of src/server/server.cpp on a server with a small chunk size.
use audio_router.Prelude.{ℕ, ◌≡◌, refl, arith, true, List, [], ◌∷◌}
use audio_router.Prelude.Word.{mul64}
use audio_router.Protocol.{make_header, connect_req}
use audio_router.Protocol.Wire.{header_bytes}
use audio_router.Config.{AudioConfig, pcm_s16le, bytes_per_frame, bytes_per_sample, default_config}
use audio_router.Endpoint.{Floats, endpoint_mute, new_endpoint}
use audio_router.Server.{
  Server, ServerConfig, ServerStats, listening, streaming, is_streaming, SocketAddress,
  same_address, no_address, Readings, capturing, starts, received, watchdog_round, step, receive,
  is_busy_for, handle_connect_req,
}
use audio_router.Server.Session.{IsConsistent, step-IsConsistent}
use audio_router.Server.Stranger.{receive-stranger}
use audio_router.Server.Held.{IsQuiet, found}
use audio_router.Server.Speaker.{HeldUntilRestored, states, session-HeldUntilRestored}
use audio_router.Server.Stream.{
  SendAnswer, on_audio_captured, buffer_audio, chunk_bytes, target_chunk_frames,
}
use audio_router.Server.Chunks.{Sends, on_audio_captured-Sends}

-- Volumes in percent.
abbrev percent : Floats ℕ
percent = record { zero_v = 0; one_v = 100; of_bits = λ n. n; clamp = λ n. n }

abbrev phone : SocketAddress
phone = record { sin_family = 2; sin_port = 4000; s_addr = 9; is_valid = true }

abbrev other_phone : SocketAddress
other_phone = record { sin_family = 2; sin_port = 4000; s_addr = 8; is_valid = true }

abbrev small_config : ServerConfig
small_config = record {
  port = 50000;
  sample_rate = 48000;
  channels = 1;
  frames_per_packet = 2;
  auto_mute_pc_speaker = true;
  mute_method = endpoint_mute;
  client_timeout_ms = 8000;
}

abbrev no_stats : ServerStats
no_stats = record {
  packets_sent = 0;
  bytes_sent = 0;
  audio_frames_captured = 0;
  client_buffer_level = 0;
  client_lost_packets = 0;
}

abbrev idle : Server ℕ
idle = record {
  config = small_config;
  state = listening;
  active_client = no_address;
  last_client_activity_time_ms = 0;
  sequence_number = 0;
  stats = no_stats;
  chunk_buffer = 1 ∷ [];
  endpoint_control = new_endpoint percent;
  actual_audio_config = default_config;
}

abbrev busy : Server ℕ
busy = record idle {
  state = streaming;
  active_client = phone;
  last_client_activity_time_ms = 1000;
  endpoint_control = record (new_endpoint percent) { is_silenced_by_us = true };
}

abbrev readings : Readings
readings = record { now_ms = 2000; set_ms = 2000; now_us = 5; capture = starts λ c. c }

abbrev connect_packet : List ℕ
unfolding header_bytes make_header
connect_packet = header_bytes (make_header connect_req 1 2 0 0)

idle-IsConsistent : IsConsistent idle
unfolding is_streaming
idle-IsConsistent = record { silenced = refl; client = λ e. absurd (cc) }

step-IsConsistent_example :
    IsConsistent ((step percent idle (received connect_packet phone readings)).0)
step-IsConsistent_example =
    step-IsConsistent percent idle (received connect_packet phone readings) idle-IsConsistent refl

receive-stranger_example : (receive percent busy connect_packet other_phone readings).0 ≡ busy
unfolding is_busy_for is_streaming same_address
receive-stranger_example = receive-stranger percent busy connect_packet other_phone readings refl

-- Windows, at a volume of 70 percent
abbrev on_windows : Server ℕ
on_windows = record idle {
  endpoint_control = record (new_endpoint percent) { is_windows = true; volume = 70 };
}

on_windows-IsConsistent : IsConsistent on_windows
unfolding is_streaming
on_windows-IsConsistent = record { silenced = refl; client = λ e. absurd (cc) }

session-HeldUntilRestored_example :
    let s1 = (handle_connect_req percent capturing on_windows phone 1 2 3).0 in
    IsQuiet percent (found on_windows) s1
    × HeldUntilRestored (found on_windows) (s1 ∷ states percent s1 (watchdog_round 9000 4 ∷ []))
session-HeldUntilRestored_example =
    session-HeldUntilRestored percent on_windows capturing phone 1 2 3 (watchdog_round 9000 4 ∷ [])
      on_windows-IsConsistent refl refl tt

abbrev mono : AudioConfig
mono = record { sample_rate = 48000; channels = 1; format = pcm_s16le; frames_per_packet = 2 }

abbrev answers : ℕ → SendAnswer
answers n = record { now_us = 7; sent = 40 }

on_audio_captured-Sends_example :
    Sends
      (buffer_audio busy (2 ∷ 3 ∷ 4 ∷ 5 ∷ 6 ∷ 7 ∷ []) (mul64 3 (bytes_per_frame mono)))
      mono
      (on_audio_captured answers busy (2 ∷ 3 ∷ 4 ∷ 5 ∷ 6 ∷ 7 ∷ []) 3 mono)
unfolding is_streaming chunk_bytes target_chunk_frames bytes_per_frame bytes_per_sample
on_audio_captured-Sends_example =
    on_audio_captured-Sends answers busy (2 ∷ 3 ∷ 4 ∷ 5 ∷ 6 ∷ 7 ∷ []) 3 mono refl refl (omega arith)
      (omega arith) (omega arith)
