-- ===== src/Link/Audio.antt =====
-- An audio packet of `on_audio_captured` (src/server/server.cpp) received by the client
-- (src/client/client.cpp).
use audio_router.Prelude.{
  ℕ, ◌+◌, ◌*◌, ◌^◌, ◌<◌, ◌≤◌, ◌≡◌, refl, ap, sym, ◌∙◌, arith, true, List, ◌++◌, some, take, drop,
}
use mathlib.Core.Path.{subst}
use audio_router.Protocol.{
  CommonHeader, AudioPacketHeader, value, audio_data, make_header, to_uint8, of_uint8,
  is_valid_header, validate_audio_header,
}
use audio_router.Protocol.Wire.{header_bytes, header_of_bytes}
use audio_router.Config.{AudioConfig}
use audio_router.Jitter.{Doubles}
use audio_router.Jitter.Push.{push_packet}
use audio_router.Server.{Server}
use audio_router.Server.Stream.{target_chunk_frames, chunk_bytes, audio_header, next_packet}
use audio_router.Server.Wire.{audio_fields, packet_bytes}
use audio_router.Client.{
  Client, Clock, audio_header_of_bytes, samples_of, count_packet, pushed, on_audio, on_message,
  receive,
}
use audio_router.Link.AudioHeader.{FitsPacket, header_back, header_valid}

common_of_bytes :
    (buf : List ℕ) (h : AudioPacketHeader)
    → audio_header_of_bytes buf ≡ h
    → header_of_bytes buf ≡ h.common
unfolding audio_header_of_bytes
common_of_bytes buf h e = ap AudioPacketHeader.common e

drop-packet :
    (h : AudioPacketHeader) (x : List ℕ)
    → drop 36 (header_bytes h.common ++ (audio_fields h ++ x)) ≡ x
unfolding header_bytes audio_fields
drop-packet h x = refl

one_buffer :
    (h : AudioPacketHeader) (pcm stale : List ℕ)
    → (header_bytes h.common ++ (audio_fields h ++ pcm)) ++ stale
      ≡ header_bytes h.common ++ (audio_fields h ++ (pcm ++ stale))
unfolding header_bytes audio_fields
one_buffer h pcm stale = refl

module _ {D : Type 0} where
  -- The branches that an accepted packet takes.
  on_audio-accepted :
      (fl : Doubles D) (c : Client D) (buf : List ℕ) (bytes : ℕ) (t : Clock) (h : AudioPacketHeader)
      (x : List ℕ)
      → audio_header_of_bytes buf ≡ h
      → drop 36 buf ≡ x
      → validate_audio_header h bytes ≡ value tt
      → 36 ≤ bytes
      → on_audio fl c buf bytes t
        ≡ pushed c (
            push_packet fl c.jitter_buffer h.common.seq_num h.common.timestamp_us
              (some (samples_of x))
              h.num_frames
              t.push_us
              t.push_ms)
  unfolding on_audio
  on_audio-accepted fl c buf bytes t h x e d v l = rw (e, d, v) (ground arith)

  receive-accepted :
      (fl : Doubles D) (c : Client D) (buf : List ℕ) (bytes : ℕ) (t : Clock)
      → is_valid_header (header_of_bytes buf) bytes ≡ true
      → (header_of_bytes buf).msg_type ≡ to_uint8 audio_data
      → 24 ≤ bytes
      → receive fl c buf bytes t ≡ on_audio fl (count_packet c bytes t.now_ms) buf bytes t
  unfolding receive on_message of_uint8
  receive-accepted fl c buf bytes t v m l = rw (v, m) (ground arith)

  received_lem :
      (fl : Doubles D) (c : Client D) (h : AudioPacketHeader) (x : List ℕ) (bytes : ℕ) (t : Clock)
      → let buf = header_bytes h.common ++ (audio_fields h ++ x) in
        audio_header_of_bytes buf ≡ h
        → h.common.msg_type ≡ to_uint8 audio_data
        → is_valid_header h.common bytes ≡ true
        → validate_audio_header h bytes ≡ value tt
        → 36 ≤ bytes
        → receive fl c buf bytes t
          ≡ pushed (count_packet c bytes t.now_ms) (
              push_packet fl c.jitter_buffer h.common.seq_num h.common.timestamp_us
                (some (samples_of x))
                h.num_frames
                t.push_us
                t.push_ms)
  unfolding count_packet
  received_lem fl c h x bytes t e m v w l =
      let buf = header_bytes h.common ++ (audio_fields h ++ x) in
      let k : header_of_bytes buf ≡ h.common = common_of_bytes buf h e in
      receive-accepted fl c buf bytes t (subst (λ r. is_valid_header r bytes ≡ true) (sym k) v)
        (ap CommonHeader.msg_type k ∙ m) (omega arith)
      ∙ on_audio-accepted fl (count_packet c bytes t.now_ms) buf bytes t h x e (drop-packet h x) w l

module _ {V D : Type 0} where
  -- A 16-bit packet within the protocol's limits that the server cuts from its buffer: received with its
  -- own byte count, in a receive buffer that holds anything behind it, it is counted, and its samples
  -- are pushed with the server's sequence number, time stamp and frame count.
  pub receive-next_packet :
      (fl : Doubles D) (s : Server V) (c : Client D) (config : AudioConfig) (now_us : ℕ)
      (stale : List ℕ) (t : Clock)
      → s.sequence_number < 2 ^ 32
      → now_us < 2 ^ 64
      → FitsPacket (target_chunk_frames s.config) config
      → let n = target_chunk_frames s.config in
        let p = next_packet s config now_us in
        let bytes = 36 + n * (2 * config.channels) in
        receive fl c (packet_bytes p ++ stale) bytes t
        ≡ pushed (count_packet c bytes t.now_ms) (
            push_packet fl c.jitter_buffer s.sequence_number now_us
              (some (samples_of (p.pcm ++ stale)))
              n
              t.push_us
              t.push_ms)
  unfolding next_packet packet_bytes audio_header make_header
  receive-next_packet fl s c config now_us stale t a b f =
      let h = audio_header s.config config s.sequence_number now_us in
      let pcm = take (chunk_bytes s.config config) s.chunk_buffer in
      let (v, w) = header_valid s.config config s.sequence_number now_us f in
      subst
        (λ buf.
          receive fl c buf (36 + target_chunk_frames s.config * (2 * config.channels)) t
          ≡ pushed
              (count_packet c (36 + target_chunk_frames s.config * (2 * config.channels)) t.now_ms)
              (push_packet fl c.jitter_buffer s.sequence_number now_us
                (some (samples_of (pcm ++ stale))) (target_chunk_frames s.config) t.push_us
                t.push_ms))
        (sym (one_buffer h pcm stale))
        (received_lem fl c h (pcm ++ stale) _ t
          (header_back s.config config s.sequence_number now_us (pcm ++ stale) a b f) refl v w
          (omega arith))
