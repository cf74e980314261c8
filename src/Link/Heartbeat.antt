-- ===== src/Link/Heartbeat.antt =====
-- One heartbeat: the ping of src/client/client.cpp, the answer of src/server/server.cpp, and the
-- client's measurement of the round trip.
use audio_router.Prelude.{
  ℕ, ◌-◌, ◌%◌, ◌^◌, ◌<◌, ◌≡◌, refl, ap, sym, ◌∙◌, arith, true, List, [], ◌∷◌, ◌++◌, some,
}
use mathlib.Core.Path.{subst}
use audio_router.Prelude.Word.{u32}
use audio_router.Protocol.{
  CommonHeader, heartbeat_ping, heartbeat_pong, make_header, to_uint8, of_uint8, is_valid_header,
}
use audio_router.Protocol.Wire.{
  header_bytes, header_of_bytes, header_of_bytes-header_bytes, field_at, le_value-le_bytes_4,
  le_value-le_bytes_8,
}
use audio_router.Protocol.Valid.{make_header-Acceptable}
use audio_router.Endpoint.{Floats}
use audio_router.Jitter.{Doubles}
use audio_router.Server.{
  Server, SocketAddress, Readings, Payload, heartbeat_payload, payload_size_of, Datagram, reply,
  same_address, note_ping, handle_heartbeat_ping, dispatch,
}
use audio_router.Server as Server
use audio_router.Server.Wire.{payload_bytes, datagram_bytes}
use audio_router.Client.{Client, Clock, count_packet, on_pong, on_message}
use audio_router.Client as Client
use audio_router.Client.Requests.{PingStats, ping_payload, ping}
use audio_router.Link.Replies.{make_header-Fits}
use audio_router.Link.Requests.{receive-request}

module _ {V : Type 0} where
  -- The server after a ping of its client.
  abbrev pub pinged : Server V → PingStats → ℕ → Server V
  pinged s st now_ms = record s {
    last_client_activity_time_ms = now_ms;
    stats = record s.stats {
      client_buffer_level = u32 st.available_frames;
      client_lost_packets = u32 st.packets_lost;
    };
  }

  receive-ping :
      (f : Floats V) (s : Server V) (st : PingStats) (now_us orig_us : ℕ) (sender : SocketAddress)
      (r : Readings)
      → now_us < 2 ^ 64
      → orig_us < 2 ^ 64
      → same_address sender s.active_client ≡ true
      → Server.receive f s (ping st now_us orig_us) sender r ≡ (
        pinged s st r.set_ms,
        reply heartbeat_pong 0 r.now_us
              (heartbeat_payload orig_us 0 (s.stats.packets_sent % 2 ^ 32) 0)
              sender
            ∷ [],
      )
  unfolding ping ping_payload dispatch handle_heartbeat_ping note_ping make_header
  receive-ping f s st now_us orig_us sender r t o a =
      receive-request f s heartbeat_ping now_us 28 (ping_payload st orig_us) sender r t
        (omega arith) refl
      ∙ rw
          (
            a,
            le_value-le_bytes_8 orig_us o,
            le_value-le_bytes_4 (u32 st.available_frames) (omega arith),
            le_value-le_bytes_4 (u32 st.packets_lost) (omega arith),
          )
          refl

module _ {D : Type 0} where
  on_message-pong :
      (fl : Doubles D) (c : Client D) (buf : List ℕ) (t : Clock)
      → is_valid_header (header_of_bytes buf) 52 ≡ true
      → (header_of_bytes buf).msg_type ≡ to_uint8 heartbeat_pong
      → Client.receive fl c buf 52 t ≡ some (on_pong (count_packet c 52 t.now_ms) buf 52 t.now_us)
  unfolding Client.receive on_message of_uint8
  on_message-pong fl c buf t v m = rw (v, m) refl

  on_pong_lem :
      (c : Client D) (buf : List ℕ) (orig_us now_us : ℕ)
      → field_at 24 8 buf ≡ orig_us
      → orig_us < now_us
      → now_us < 2 ^ 64
      → on_pong c buf 52 now_us ≡ record c { last_rtt_us = u32 (now_us - orig_us) }
  unfolding on_pong
  on_pong_lem c buf orig_us now_us e l w = rw e (ground arith)

  pong_bytes :
      (fl : Doubles D) (c : Client D) (seq sent_us orig_us level received lost : ℕ) (stale : List ℕ)
      (t : Clock) (to : SocketAddress)
      → seq < 2 ^ 32
      → sent_us < 2 ^ 64
      → orig_us < 2 ^ 64
      → orig_us < t.now_us
      → t.now_us < 2 ^ 64
      → let pong =
          reply heartbeat_pong seq sent_us (heartbeat_payload orig_us level received lost) to in
        Client.receive fl c (datagram_bytes pong ++ stale) 52 t
        ≡ some (record (count_packet c 52 t.now_ms) { last_rtt_us = u32 (t.now_us - orig_us) })
  unfolding reply datagram_bytes payload_size_of header_bytes payload_bytes make_header
  pong_bytes fl c seq sent_us orig_us level received lost stale t to a b o l w =
      let h = make_header heartbeat_pong seq sent_us 28 0 in
      let p = payload_bytes (heartbeat_payload orig_us level received lost) in
      let buf =
        datagram_bytes
          (reply heartbeat_pong seq sent_us (heartbeat_payload orig_us level received lost) to)
        ++ stale in
      let e : header_of_bytes buf ≡ h =
        header_of_bytes-header_bytes h (p ++ stale)
          (make_header-Fits heartbeat_pong seq sent_us 28 0 a b (omega arith) (omega arith)) in
      on_message-pong fl c buf t
        (subst (λ k. is_valid_header k 52 ≡ true) (sym e)
          (make_header-Acceptable heartbeat_pong seq sent_us 28 0 (omega arith) (omega arith)))
        (ap CommonHeader.msg_type e)
      ∙ ap some (
          on_pong_lem (count_packet c 52 t.now_ms) buf orig_us t.now_us
            (le_value-le_bytes_8 orig_us o) l w)

module _ {V D : Type 0} where
  -- A ping that reaches the server from its active client: the server notes the activity and the
  -- client's buffer level and losses, and answers with one pong; and the client that receives the bytes
  -- of that pong, at a clock later than the ping's, has the time since the ping, in 32 bits, as its
  -- round trip, and changes nothing but that and what it notes of every packet: the time of the last one
  -- and the counts of packets and bytes.
  pub receive-heartbeat :
      (f : Floats V) (fl : Doubles D) (s : Server V) (c : Client D) (st : PingStats)
      (now_us orig_us : ℕ) (sender : SocketAddress) (r : Readings) (t : Clock) (stale : List ℕ)
      → now_us < 2 ^ 64
      → orig_us < t.now_us
      → t.now_us < 2 ^ 64
      → r.now_us < 2 ^ 64
      → same_address sender s.active_client ≡ true
      → let pong =
          reply heartbeat_pong 0 r.now_us
            (heartbeat_payload orig_us 0 (s.stats.packets_sent % 2 ^ 32) 0)
            sender in
        (Server.receive f s (ping st now_us orig_us) sender r ≡ (pinged s st r.set_ms, pong ∷ []))
        × (Client.receive fl c (datagram_bytes pong ++ stale) 52 t
            ≡ some (record (count_packet c 52 t.now_ms) { last_rtt_us = u32 (t.now_us - orig_us) }))
  receive-heartbeat f fl s c st now_us orig_us sender r t stale n l w q a = (
    receive-ping f s st now_us orig_us sender r n (omega arith) a,
    pong_bytes fl c 0 r.now_us orig_us 0 (s.stats.packets_sent % 2 ^ 32) 0 stale t sender
        (omega arith) q (omega arith) l w,
  )
