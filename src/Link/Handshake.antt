-- ===== src/Link/Handshake.antt =====
-- `handle_connect_req` of src/server/server.cpp answered by `perform_handshake` of
-- src/client/client.cpp: the acknowledgement's bytes carry the server's configuration over.
use audio_router.Prelude.{
  ℕ, suc, ◌^◌, ◌%◌, ◌<◌, ◌≡◌, refl, ap, sym, arith, true, false, List, [], ◌∷◌, ◌++◌, Option, none,
  some, length, if_elim,
}
use audio_router.Protocol.{CommonHeader, connect_ack, connect_req, make_header, is_valid_header}
use audio_router.Protocol.Wire.{
  header_bytes, header_of_bytes, le_bytes, le_value, le_value-le_bytes_1, le_value-le_bytes_2,
  le_value-le_bytes_4,
}
use audio_router.Config.{
  AudioConfig, AudioSampleFormat, unknown, pcm_s16le, pcm_float32le, pcm_s24le, pcm_s32le, other,
  byte_of_format, format_of_byte,
}
use audio_router.Endpoint.{Floats}
use audio_router.Server.{
  Server, SocketAddress, Capture, capturing, starts, fails, Datagram, connect_ack_payload,
  payload_size_of, reply, desired_config, is_busy_for, byte_of_Bool, take_session, Step,
  ack_payload, begin_streaming, start_capture, handle_connect_req, Readings, dispatch, receive,
}
use audio_router.Server.Wire.{payload_bytes, datagram_bytes}
use audio_router.Client.{
  again, refused, connected, ack_config, on_reply, attempts, perform_handshake,
}
use mathlib.Core.Path.{subst}
use audio_router.Client.Requests.{connect_request}
use audio_router.Link.Requests.{receive-request}
use audio_router.Link.Replies.{length-payload_bytes, header_of_bytes-made}

-- A configuration that the fields of the acknowledgement can hold: `frames_per_packet` has 16 bits
-- there, and the format is one of the enumerators.
abbrev pub IsKnown : AudioSampleFormat → Type 0
IsKnown (other v) = ⊥
IsKnown _ = Unit

pub record FitsAck (c : AudioConfig) : Type 0 where
  pub sample_rate : c.sample_rate < 2 ^ 32
  pub channels : c.channels < 2 ^ 16
  pub format : IsKnown c.format
  pub frames_per_packet : c.frames_per_packet < 2 ^ 16

byte_small : (f : AudioSampleFormat) → IsKnown f → byte_of_format f < 2 ^ 8
unfolding byte_of_format
byte_small unknown k = omega arith
byte_small pcm_s16le k = omega arith
byte_small pcm_float32le k = omega arith
byte_small pcm_s24le k = omega arith
byte_small pcm_s32le k = omega arith
byte_small (other v) k = absurd k

format_of_byte-byte_of_format :
    (f : AudioSampleFormat) → IsKnown f → format_of_byte (byte_of_format f) ≡ f
unfolding byte_of_format format_of_byte
format_of_byte-byte_of_format unknown k = refl
format_of_byte-byte_of_format pcm_s16le k = refl
format_of_byte-byte_of_format pcm_float32le k = refl
format_of_byte-byte_of_format pcm_s24le k = refl
format_of_byte-byte_of_format pcm_s32le k = refl
format_of_byte-byte_of_format (other v) k = absurd k

-- The fields at their offsets in the bytes of an acknowledgement.
ack_config-payload_bytes :
    (now_us status rate channels format frames muted : ℕ)
    → let p = connect_ack_payload status rate channels format frames muted in
      ack_config (header_bytes (make_header connect_ack 0 now_us 75 0) ++ payload_bytes p)
      ≡ record {
        sample_rate = le_value (le_bytes 4 rate);
        channels = le_value (le_bytes 2 channels);
        format = format_of_byte (le_value (le_bytes 1 format));
        frames_per_packet = le_value (le_bytes 2 frames);
      }
unfolding ack_config header_bytes payload_bytes
ack_config-payload_bytes now_us status rate channels format frames muted = refl

-- What the client reads out of the acknowledgement of a server with this configuration.
abbrev ack_bytes : ℕ → ℕ → AudioConfig → ℕ → List ℕ
ack_bytes now_us status c muted =
    header_bytes (make_header connect_ack 0 now_us 75 0)
    ++ payload_bytes (
        connect_ack_payload status c.sample_rate c.channels (byte_of_format c.format)
          (c.frames_per_packet % 2 ^ 16) muted)

ack_config-ack_bytes :
    (now_us status : ℕ) (c : AudioConfig) (muted : ℕ)
    → FitsAck c
    → ack_config (ack_bytes now_us status c muted) ≡ c
ack_config-ack_bytes now_us status c muted f =
    let m : c.frames_per_packet % 2 ^ 16 ≡ c.frames_per_packet =
      omega (arith, f.frames_per_packet) in
    rw
      (
        m,
        ack_config-payload_bytes now_us status c.sample_rate c.channels (byte_of_format c.format)
            c.frames_per_packet muted,
        le_value-le_bytes_4 c.sample_rate f.sample_rate,
        le_value-le_bytes_2 c.channels f.channels,
        le_value-le_bytes_1 (byte_of_format c.format) (byte_small c.format f.format),
        format_of_byte-byte_of_format c.format f.format,
        le_value-le_bytes_2 c.frames_per_packet f.frames_per_packet,
      )
      refl

-- A reply of 99 bytes with a valid header of the acknowledgement is taken.
on_reply_lem :
    (buf : List ℕ) (now_us : ℕ) (c : AudioConfig)
    → header_of_bytes buf ≡ make_header connect_ack 0 now_us 75 0
    → length buf ≡ 99
    → is_valid_header (header_of_bytes buf) (length buf) ≡ true
    → ack_config buf ≡ c
    → on_reply buf ≡ connected c
unfolding on_reply make_header
on_reply_lem buf now_us c h n v e = ground (arith, ap CommonHeader.msg_type h)

on_reply-ack_bytes :
    (now_us status : ℕ) (c : AudioConfig) (muted : ℕ)
    → now_us < 2 ^ 64
    → FitsAck c
    → on_reply (ack_bytes now_us status c muted) ≡ connected c
unfolding payload_size_of
on_reply-ack_bytes now_us status c muted t f =
    let p =
      connect_ack_payload status c.sample_rate c.channels (byte_of_format c.format)
        (c.frames_per_packet % 2 ^ 16) muted in
    let (h, n, v) =
      header_of_bytes-made connect_ack 0 now_us 75 (payload_bytes p) (omega arith) t (omega arith)
        (length-payload_bytes p) in
    on_reply_lem (ack_bytes now_us status c muted) now_us c h n v
      (ack_config-ack_bytes now_us status c muted f)

attempts-connected :
    (n : ℕ) (replies : ℕ → List ℕ) (c : AudioConfig)
    → on_reply (replies 0) ≡ connected c
    → attempts (suc n) replies ≡ (1, some c)
unfolding attempts
attempts-connected n replies c e =
    ap
      (λ v. elim v as (λ _. ℕ × Option AudioConfig) [
        | again ↦
            (suc ((attempts n (λ k. replies (suc k))).0), (attempts n (λ k. replies (suc k))).1)
        | refused ↦ (1, none)
        | connected d ↦ (1, some d)
      ])
      e

perform_handshake-connected :
    (buf : List ℕ) (c : AudioConfig)
    → on_reply buf ≡ connected c
    → perform_handshake (λ k. buf) ≡ (1, some c)
unfolding perform_handshake
perform_handshake-connected buf c e = attempts-connected 4 (λ k. buf) c e

-- The server's side: a server that is not busy and whose capture engine runs or starts.
abbrev pub Started : Capture → Type 0
Started capturing = Unit
Started (starts actual) = Unit
Started (fails actual) = ⊥

-- The client that receives these datagrams, and nothing else, connects with this configuration.
abbrev pub Connects : List Datagram → AudioConfig → Type 0
Connects [] c = ⊥
Connects (d ∷ ds) c = (perform_handshake (λ k. datagram_bytes d) ≡ (1, some c)) × (ds ≡ [])

module _ {V : Type 0} where
  begin_streaming-Connects :
      (f : Floats V) (s : Server V) (sender : SocketAddress) (now_us : ℕ)
      → now_us < 2 ^ 64
      → FitsAck ((begin_streaming f s sender now_us).0.actual_audio_config)
      → Connects
          ((begin_streaming f s sender now_us).1)
          ((begin_streaming f s sender now_us).0.actual_audio_config)
  unfolding begin_streaming datagram_bytes reply ack_payload payload_size_of
  begin_streaming-Connects f s sender now_us t w =
      let s1 = (begin_streaming f s sender now_us).0 in
      let buf =
        ack_bytes now_us 0 s1.actual_audio_config (byte_of_Bool s1.config.auto_mute_pc_speaker) in
      (
        perform_handshake-connected buf s1.actual_audio_config (
            on_reply-ack_bytes now_us 0 s1.actual_audio_config
              (byte_of_Bool s1.config.auto_mute_pc_speaker) t w),
        refl,
      )

  abbrev Answers : Step V → Type 0
  Answers r = FitsAck (r.0.actual_audio_config) → Connects (r.1) (r.0.actual_audio_config)

  start_capture-Answers :
      (f : Floats V) (capture : Capture) (s : Server V) (sender : SocketAddress) (now_us : ℕ)
      → Started capture
      → now_us < 2 ^ 64
      → Answers (start_capture f capture s sender now_us)
  unfolding start_capture
  start_capture-Answers f capturing s sender now_us k t w =
      begin_streaming-Connects f s sender now_us t w
  start_capture-Answers f (starts actual) s sender now_us k t w =
      begin_streaming-Connects f
        (record s { actual_audio_config = actual (desired_config s.config) }) sender now_us t w
  start_capture-Answers f (fails actual) s sender now_us k t w = absurd k

  handle_connect_req-Answers :
      (f : Floats V) (capture : Capture) (s : Server V) (sender : SocketAddress)
      (now_ms set_ms now_us : ℕ)
      → is_busy_for s sender now_ms ≡ false
      → Started capture
      → now_us < 2 ^ 64
      → Answers (handle_connect_req f capture s sender now_ms set_ms now_us)
  unfolding handle_connect_req
  handle_connect_req-Answers f capture s sender now_ms set_ms now_us b k t =
      if_elim Answers (is_busy_for s sender now_ms) _ _ (λ a. absurd (cc))
        λ a. start_capture-Answers f capture (take_session s sender set_ms) sender now_us k t

  -- The client's request reaches a server that no other client holds and whose capture runs or starts.
  -- It is answered by one datagram, whose bytes connect the client at its first attempt, with the
  -- server's actual configuration, if that fits the acknowledgement's fields.
  pub perform_handshake-receive :
      (f : Floats V) (s : Server V) (sender : SocketAddress) (r : Readings) (sent_us latency_ms : ℕ)
      → sent_us < 2 ^ 64
      → is_busy_for s sender r.now_ms ≡ false
      → Started r.capture
      → r.now_us < 2 ^ 64
      → FitsAck ((receive f s (connect_request sent_us latency_ms) sender r).0.actual_audio_config)
      → Connects
          ((receive f s (connect_request sent_us latency_ms) sender r).1)
          ((receive f s (connect_request sent_us latency_ms) sender r).0.actual_audio_config)
  unfolding connect_request dispatch
  perform_handshake-receive f s sender r sent_us latency_ms n b k t =
      subst Answers
        (sym (receive-request f s connect_req sent_us 41 _ sender r n (omega arith) refl))
        (handle_connect_req-Answers f r.capture s sender r.now_ms r.set_ms r.now_us b k t)
