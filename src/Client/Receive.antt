-- ===== src/Client/Receive.antt =====
-- Received datagrams on their way into the jitter buffer (src/client/client.cpp).
use audio_router.Prelude.{
  ℕ, zero, suc, ◌*◌, ◌^◌, ◌<◌, ◌≤◌, ◌≡◌, refl, sym, arith, Bool, true, false, not, List, [], ◌∷◌,
  Option, none, some, ltb, length, drop, take, length-drop, if_elim,
}
use mathlib.Core.Path.{subst}
use audio_router.Prelude.Word.{AllBytes}
use audio_router.Protocol.{
  MsgType, AudioPacketHeader, Expected, value, unexpected, has_value, is_valid_header,
  validate_audio_header, audio_header_size, common_header_size, pcm_s16le_byte, audio_data,
  heartbeat_pong, disconnect_ack, disconnect_req, connect_ack, connect_nak, discovery_req,
  discovery_resp, connect_req, heartbeat_ping, control_cmd,
}
use audio_router.Protocol.Wire.{le_value, header_of_bytes, field_at}
use audio_router.Protocol.Audio.{validate_audio_header-Accepted, validate_audio_header-s16le}
use audio_router.Jitter.{Doubles, JitterBuffer}
use audio_router.Jitter.Inv.{IsValid}
use audio_router.Jitter.PushKept.{Kept, push_packet-Kept}
use audio_router.Client.{
  Client, Clock, audio_header_of_bytes, samples_of, count_packet, pushed, on_audio, on_pong,
  on_message, receive,
}

length-samples_of : (n : ℕ) (bytes : List ℕ) → n * 2 ≤ length bytes → n ≤ length (samples_of bytes)
unfolding samples_of
length-samples_of zero bytes h = omega arith
length-samples_of (suc n) [] h = absurd (omega arith)
length-samples_of (suc n) (a ∷ []) h = absurd (omega arith)
length-samples_of (suc n) (a ∷ b ∷ bytes) h =
    let w = length-samples_of n bytes (omega arith) in omega arith

le_value-lt_4 : (bytes : List ℕ) → AllBytes bytes → le_value (take 4 bytes) < 2 ^ 32
le_value-lt_4 [] w = omega arith
le_value-lt_4 (a ∷ []) (p, w) = omega arith
le_value-lt_4 (a ∷ b ∷ []) (p, (q, w)) = omega arith
le_value-lt_4 (a ∷ b ∷ c ∷ []) (p, (q, (r, w))) = omega arith
le_value-lt_4 (a ∷ b ∷ c ∷ d ∷ bytes) (p, (q, (r, (s, w)))) = omega arith

AllBytes-drop : (n : ℕ) (bytes : List ℕ) → AllBytes bytes → AllBytes (drop n bytes)
AllBytes-drop zero bytes w = w
AllBytes-drop (suc n) [] w = w
AllBytes-drop (suc n) (b ∷ bytes) (p, w) = AllBytes-drop n bytes w

accepted :
    (ah : AudioPacketHeader) (bytes : ℕ)
    → has_value (validate_audio_header ah bytes) ≡ true
    → validate_audio_header ah bytes ≡ value tt
accepted ah bytes h = by_result (validate_audio_header ah bytes) h
  where
    by_result : (r : Expected (Unit {0})) → has_value r ≡ true → r ≡ value tt
    by_result (value tt) e = refl
    by_result (unexpected m) e = absurd (cc)

not-false : {b : Bool} → not b ≡ false → b ≡ true
not-false {b = true} e = refl
not-false {b = false} e = sym e

seq_word : (buf : List ℕ) → AllBytes buf → (audio_header_of_bytes buf).common.seq_num < 2 ^ 32
unfolding audio_header_of_bytes header_of_bytes
seq_word buf w = le_value-lt_4 (drop 8 buf) (AllBytes-drop 8 buf w)

module _ {D : Type 0} where
  -- The call reads inside the receive buffer, and the jitter buffer stays valid.
  abbrev pub IsSafe : Option (Client D) → Type 0
  IsSafe none = ⊥
  IsSafe (some c) = IsValid c.jitter_buffer

  pushed-IsSafe : (c : Client D) (r : Option (Bool × JitterBuffer D)) → Kept r → IsSafe (pushed c r)
  unfolding pushed
  pushed-IsSafe c none k = k
  pushed-IsSafe c (some (b, jb)) k = k

  -- An accepted packet of 16-bit samples and of the channels that the buffer is configured for.
  abbrev pub IsMatching : Client D → List ℕ → Type 0
  IsMatching c recv_buf =
      ((audio_header_of_bytes recv_buf).format ≡ pcm_s16le_byte)
      × ((audio_header_of_bytes recv_buf).channels ≡ c.jitter_buffer.config.channels)

  on_audio-IsSafe :
      (fl : Doubles D) (c : Client D) (recv_buf : List ℕ) (bytes : ℕ) (t : Clock)
      → IsValid c.jitter_buffer
      → AllBytes recv_buf
      → bytes ≤ length recv_buf
      → IsMatching c recv_buf
      → IsSafe (on_audio fl c recv_buf bytes t)
  unfolding on_audio
  on_audio-IsSafe fl c recv_buf bytes t v w l (f, k) =
      if_elim IsSafe (ltb bytes audio_header_size) _ _ (λ a. v)
        λ a.
          if_elim IsSafe (not (has_value (validate_audio_header ah bytes))) _ _ (λ b. v)
            λ b.
              let ok : validate_audio_header ah bytes ≡ value tt =
                accepted ah bytes (not-false b) in
              pushed-IsSafe c _ (
                push_packet-Kept fl c.jitter_buffer ah.common.seq_num ah.common.timestamp_us
                  ah.num_frames t.push_us t.push_ms _ v word (frames_word ok) (enough ok))
    where
      ah : AudioPacketHeader
      ah = audio_header_of_bytes recv_buf

      word : ah.common.seq_num < 2 ^ 32
      word = seq_word recv_buf w

      frames_word : validate_audio_header ah bytes ≡ value tt → ah.num_frames < 2 ^ 32
      frames_word e =
          let g = validate_audio_header-Accepted ah bytes e in omega (arith, g.frames_max)

      enough :
          validate_audio_header ah bytes ≡ value tt
          → ah.num_frames * c.jitter_buffer.config.channels
            ≤ length (samples_of (drop audio_header_size recv_buf))
      enough e =
          let (_, room) = validate_audio_header-s16le ah bytes e f in
          let d = length-drop audio_header_size recv_buf in
          subst (λ n. ah.num_frames * n ≤ length (samples_of (drop audio_header_size recv_buf))) k
            (length-samples_of (ah.num_frames * ah.channels) (drop audio_header_size recv_buf)
              (omega arith))

  on_message-IsSafe :
      (fl : Doubles D) (c : Client D) (m : Option MsgType) (recv_buf : List ℕ) (bytes : ℕ)
      (t : Clock)
      → IsValid c.jitter_buffer
      → AllBytes recv_buf
      → bytes ≤ length recv_buf
      → IsMatching c recv_buf
      → IsSafe (on_message fl c m recv_buf bytes t)
  unfolding on_message on_pong
  on_message-IsSafe fl c none recv_buf bytes t v w l k = v
  on_message-IsSafe fl c (some audio_data) recv_buf bytes t v w l k =
      on_audio-IsSafe fl c recv_buf bytes t v w l k
  on_message-IsSafe fl c (some heartbeat_pong) recv_buf bytes t v w l k =
      if_elim (λ (r : Client D). IsValid r.jitter_buffer) (ltb bytes 52) _ _ (λ a. v)
        λ a.
          if_elim (λ (r : Client D). IsValid r.jitter_buffer)
            (ltb (field_at 24 8 recv_buf) t.now_us) _ _ (λ b. v) λ b. v
  on_message-IsSafe fl c (some disconnect_ack) recv_buf bytes t v w l k = v
  on_message-IsSafe fl c (some disconnect_req) recv_buf bytes t v w l k = v
  on_message-IsSafe fl c (some discovery_req) recv_buf bytes t v w l k = v
  on_message-IsSafe fl c (some discovery_resp) recv_buf bytes t v w l k = v
  on_message-IsSafe fl c (some connect_req) recv_buf bytes t v w l k = v
  on_message-IsSafe fl c (some connect_ack) recv_buf bytes t v w l k = v
  on_message-IsSafe fl c (some connect_nak) recv_buf bytes t v w l k = v
  on_message-IsSafe fl c (some heartbeat_ping) recv_buf bytes t v w l k = v
  on_message-IsSafe fl c (some control_cmd) recv_buf bytes t v w l k = v

  -- Whatever bytes a datagram has, if its audio header says 16-bit samples and the channels that the
  -- jitter buffer is configured for, then receiving it reads only inside the receive buffer, and the
  -- jitter buffer stays valid.
  pub receive-IsSafe :
      (fl : Doubles D) (c : Client D) (recv_buf : List ℕ) (bytes : ℕ) (t : Clock)
      → IsValid c.jitter_buffer
      → AllBytes recv_buf
      → bytes ≤ length recv_buf
      → IsMatching c recv_buf
      → IsSafe (receive fl c recv_buf bytes t)
  unfolding receive count_packet
  receive-IsSafe fl c recv_buf bytes t v w l k =
      if_elim IsSafe (ltb bytes common_header_size) _ _ (λ a. v)
        λ a.
          if_elim IsSafe (not (is_valid_header (header_of_bytes recv_buf) bytes)) _ _ (λ b. v)
            λ b. on_message-IsSafe fl _ _ recv_buf bytes t v w l k
