-- ===== src/Server/Chunks.antt =====
-- The packets that `on_audio_captured` sends (src/server/server.cpp): no byte is lost, repeated or
-- reordered, and the sequence numbers count up.
use audio_router.Prelude.{
  take-drop, ℕ, zero, suc, ◌+◌, ◌%◌, ◌^◌, ◌<◌, ◌≤◌, ◌≡◌, refl, ap, ◌∙◌, arith, true, not, List, [],
  ◌∷◌, ◌++◌, append_assoc, Option, none, some, ltb, if_elim, length, take, drop, length-drop,
  length-take, not-ltb, ltb→lt,
}
use audio_router.Prelude.Word.{add32, mul64}
use audio_router.Config.{AudioConfig, bytes_per_frame}
use audio_router.Protocol.{make_header}
use audio_router.Server.{Server, SocketAddress, is_streaming}
use audio_router.Server.Stream.{
  AudioPacket, SendAnswer, chunk_bytes, audio_header, next_packet, send_chunk, with_packet,
  chunk_loop, buffer_audio, on_audio_captured,
}

-- The PCM of the packets, in order.
abbrev pub pcm_of : List AudioPacket → List ℕ
pcm_of [] = []
pcm_of (p ∷ ps) = p.pcm ++ pcm_of ps

-- Every packet goes to the client, carries `n` bytes, and numbers them up from `seq`.
abbrev pub AreNumbered : ℕ → ℕ → SocketAddress → List AudioPacket → Type 0
AreNumbered n seq client [] = Unit {0}
AreNumbered n seq client (p ∷ ps) =
    (p.to ≡ client)
    × (length p.pcm ≡ n)
    × (p.header.common.seq_num ≡ seq)
    × AreNumbered n (add32 seq 1) client ps

module _ {V : Type 0} where
  -- What a call on the state `s`, with its bytes buffered, may answer.
  abbrev pub Sends : Server V → AudioConfig → Option (Server V × List AudioPacket) → Type 0
  Sends s config none = ⊥
  Sends s config (some (s', ps)) =
      (pcm_of ps ++ s'.chunk_buffer ≡ s.chunk_buffer)
      × (length s'.chunk_buffer < chunk_bytes s.config config)
      × AreNumbered (chunk_bytes s.config config) s.sequence_number s.active_client ps
      × (s'.sequence_number ≡ (s.sequence_number + length ps) % 2 ^ 32)

  with_packet-Sends :
      (s : Server V) (config : AudioConfig) (a : SendAnswer)
      (r : Option (Server V × List AudioPacket))
      → chunk_bytes s.config config ≤ length s.chunk_buffer
      → s.sequence_number < 2 ^ 32
      → Sends (send_chunk s config a.sent) config r
      → Sends s config (with_packet (next_packet s config a.now_us) r)
  unfolding with_packet next_packet send_chunk audio_header make_header
  with_packet-Sends s config a none h q w = w
  with_packet-Sends s config a (some (s', ps)) h q (c, l, n, e) =
      let t = length-take (chunk_bytes s.config config) s.chunk_buffer in
      (
        append_assoc (take (chunk_bytes s.config config) s.chunk_buffer) (pcm_of ps) s'.chunk_buffer
            ∙ ap (λ r. take (chunk_bytes s.config config) s.chunk_buffer ++ r) c
            ∙ take-drop (chunk_bytes s.config config) s.chunk_buffer,
        l,
        (refl, omega arith, refl, n),
        omega arith,
      )

  shorter :
      (s : Server V) (config : AudioConfig) (fuel : ℕ)
      → chunk_bytes s.config config ≤ length s.chunk_buffer
      → 0 < chunk_bytes s.config config
      → length s.chunk_buffer < suc fuel
      → length (drop (chunk_bytes s.config config) s.chunk_buffer) < fuel
  shorter s config fuel h p f =
      let d = length-drop (chunk_bytes s.config config) s.chunk_buffer in omega arith

  chunk_loop-Sends :
      (fuel : ℕ) (answers : ℕ → SendAnswer) (config : AudioConfig) (s : Server V)
      → 0 < chunk_bytes s.config config
      → length s.chunk_buffer < fuel
      → s.sequence_number < 2 ^ 32
      → Sends s config (chunk_loop fuel answers config s)
  unfolding chunk_loop send_chunk
  chunk_loop-Sends zero answers config s p f q = absurd (omega arith)
  chunk_loop-Sends (suc fuel) answers config s p f q =
      if_elim (Sends s config) (ltb (length s.chunk_buffer) (chunk_bytes s.config config)) _ _
        (λ e. (refl, ltb→lt _ _ e, tt, omega arith))
        λ e.
          let h = not-ltb (length s.chunk_buffer) (chunk_bytes s.config config) e in
          with_packet-Sends s config (answers fuel) _ h q (
            chunk_loop-Sends fuel answers config (send_chunk s config (answers fuel).sent) p
              (shorter s config fuel h p f) (omega arith))

  -- Where a client streams, `data` has the bytes that the call announces, and a chunk is not empty,
  -- the call ends: the PCM of its packets and then the new chunk buffer are the old chunk buffer and
  -- then the captured bytes; less than a chunk stays; every packet goes to the client, carries one
  -- chunk, and has the next sequence number modulo 2^32.
  pub on_audio_captured-Sends :
      (answers : ℕ → SendAnswer) (s : Server V) (pcm : List ℕ) (n : ℕ) (config : AudioConfig)
      → is_streaming s.state ≡ true
      → s.active_client.is_valid ≡ true
      → s.sequence_number < 2 ^ 32
      → 0 < chunk_bytes s.config config
      → mul64 n (bytes_per_frame config) ≤ length pcm
      → Sends
          (buffer_audio s pcm (mul64 n (bytes_per_frame config)))
          config
          (on_audio_captured answers s pcm n config)
  unfolding on_audio_captured buffer_audio
  on_audio_captured-Sends answers s pcm n config st v q p e =
      if_elim Answers (not (is_streaming s.state)) _ _ (λ a. absurd (ground arith))
        λ a.
          if_elim Answers (not s.active_client.is_valid) _ _ (λ b. absurd (ground arith))
            λ b.
              if_elim Answers (ltb (length pcm) (mul64 n (bytes_per_frame config))) _ _
                (λ c. absurd (ground arith))
                λ c.
                  chunk_loop-Sends _ answers config
                    (buffer_audio s pcm (mul64 n (bytes_per_frame config))) p (omega arith) q
    where
      Answers : Option (Server V × List AudioPacket) → Type 0
      Answers = Sends (buffer_audio s pcm (mul64 n (bytes_per_frame config))) config
