-- ===== src/Client/Runs.antt =====
-- Tests of src/client/client.cpp on concrete datagrams, and of the command line of src/client/main.cpp.
use audio_router.Config.{default_config}
use audio_router.Client.Playback.{
  Playback, PlayerAnswer, playback_round, IsPaced, playback_round-IsPaced,
}
use audio_router.Server.{SocketAddress}
use audio_router.Prelude.Int.{ℤ, pos}
use audio_router.Prelude.Text.{chars, same_text}
use audio_router.Client.Args.{
  Options, parsed, throws, kind, set_value, finish, parse_loop, no_options, command_line,
}
use audio_router.Client.Args.Read.{parse_loop-command_line}
use audio_router.Client.Start as Start
use audio_router.Client.Start.{Starting, ClientConfig, Answers, start, start-Outcome}
use audio_router.Prelude.{
  ◌≡◌, Option, none, some, false, ℕ, zero, suc, ◌+◌, ◌*◌, refl, arith, true, List, [], ◌∷◌, ◌++◌,
  replicate,
}
use audio_router.Protocol.{make_header, connect_nak}
use audio_router.Protocol.Wire.{header_bytes}
use audio_router.Jitter.{Doubles, construct}
use audio_router.Jitter.Inv.{construct-IsValid}
use audio_router.Client.{Client, Clock, audio_header_of_bytes, receive, perform_handshake}
use audio_router.Client.Receive.{IsSafe, receive-IsSafe}
use audio_router.Client.Handshake.{Outcome, perform_handshake-Outcome}

-- Whole numbers for the jitter estimate.
abbrev whole : Doubles ℕ
whole = record {
  of_ℕ = λ n. n;
  add = λ a b. a + b;
  sub = λ a b. a;
  mul = λ a b. a * b;
  div = λ a b. a;
}

abbrev client : Client ℕ
client = record {
  is_running = true;
  jitter_buffer = construct whole 40;
  last_packet_time_ms = 0;
  last_rtt_us = 0;
  packets_received = 0;
  bytes_received = 0;
}

-- One stereo frame of 16-bit samples.
abbrev packet : List ℕ
packet =
    0x52 ∷ 0x44 ∷ 0x55 ∷ 0x41 ∷ 1 ∷ 0x30 ∷ 0 ∷ 0 ∷ 5 ∷ 0 ∷ 0 ∷ 0 ∷ 9 ∷ 0 ∷ 0 ∷ 0 ∷ 0 ∷ 0 ∷ 0 ∷ 0
    ∷ 16 ∷ 0 ∷ 0 ∷ 0 ∷ 0x80 ∷ 0xbb ∷ 0 ∷ 0 ∷ 2 ∷ 0 ∷ 1 ∷ 0 ∷ 1 ∷ 0 ∷ 0 ∷ 0 ∷ 1 ∷ 2 ∷ 3 ∷ 4 ∷ []

abbrev clock : Clock
clock = record { now_ms = 1; now_us = 2; push_us = 3; push_ms = 4 }

receive-IsSafe_example : IsSafe (receive whole client packet 40 clock)
unfolding construct audio_header_of_bytes
receive-IsSafe_example =
    receive-IsSafe whole client packet 40 clock (construct-IsValid whole 40) (omega arith)
      (omega arith) (refl, refl)

-- A first attempt without a reply, then a refusal of 65 bytes of payload.
abbrev replies : ℕ → List ℕ
unfolding header_bytes make_header
replies zero = []
replies (suc k) = header_bytes (make_header connect_nak 0 7 65 0) ++ replicate 65 1

perform_handshake-Outcome_example : Outcome 5 replies (perform_handshake replies)
perform_handshake-Outcome_example = perform_handshake-Outcome replies

abbrev playback : Playback ℕ
playback = record {
  jitter_buffer = construct whole 40;
  frames_played = 0;
  audio_backend_delay_ms = 0;
}

abbrev player : PlayerAnswer
player = record { is_open = true; written = 480; delay_frames = 4800; needs_pacing = true }

playback_round-IsPaced_example :
    IsPaced default_config playback player (playback_round default_config playback player 7)
unfolding construct
playback_round-IsPaced_example =
    playback_round-IsPaced default_config playback player 7 (construct-IsValid whole 40)
      (omega arith) refl (omega arith) (omega arith)

abbrev pc : SocketAddress
pc = record { sin_family = 2; sin_port = 50000; s_addr = 1; is_valid = true }

abbrev starting : Starting ℕ
starting = record {
  is_running = false;
  stop_requested = false;
  state = Start.stopped;
  is_socket_open = false;
  is_relay_udp_open = false;
  is_relay_started = false;
  server_addr = pc;
  audio_config = default_config;
  jitter_buffer = construct whole 40;
  last_packet_time_ms = 0;
}

abbrev settings : ClientConfig
settings = record { usb_mode = true; auto_discover = false; target_latency_ms = 40 }

-- The server refuses, behind the relay.
abbrev answers : Answers
answers = record {
  opens = true;
  relay_opens = true;
  is_relay_bound = true;
  relay_addr = pc;
  responders = λ k. ([], pc);
  configured_addr = pc;
  replies = replies;
  now_ms = 7;
}

start-Outcome_example :
    Start.Outcome whole settings
      (construct whole 40)
      (true, true)
      (start whole settings starting answers)
start-Outcome_example = start-Outcome whole settings starting answers refl refl refl refl

-- Numbers as texts of one character, for the library's functions.
abbrev one_digit : ℕ → List ℕ
one_digit n = n ∷ []

abbrev first_int : List ℕ → Option ℤ
first_int [] = none
first_int (n ∷ _) = some (pos n)

abbrev first_long : List ℕ → Option ℕ
first_long [] = none
first_long (n ∷ _) = some n

-- A port that is no number ends the program by an exception, and one above 65535 wraps around.
bad_port : parse_loop first_int first_long (chars "-p" ∷ [] ∷ []) none no_options ≡ throws
unfolding parse_loop kind set_value same_text
bad_port = refl

wrapped_port :
    parse_loop first_int first_long (chars "-p" ∷ (70000 ∷ []) ∷ []) none no_options
    ≡ parsed record no_options { server_port = 4464 }
unfolding parse_loop kind set_value same_text finish
wrapped_port = refl

abbrev chosen : Options
chosen = record no_options { device_name = chars "agm"; usb_mode = true; latency_explicit = true }

parse_loop-command_line_example :
    parse_loop first_int first_long (command_line one_digit chosen) none no_options ≡ parsed chosen
parse_loop-command_line_example =
    parse_loop-command_line first_int first_long one_digit (λ n _. refl) (λ n _. refl) chosen
      (omega arith) (omega arith) (omega arith)
