-- ===== src/Link/Session.antt =====
-- The beginning and the end of a session: the client's discovery and its leave-taking
-- (src/client/client.cpp) with the server's answers (src/server/server.cpp).
use audio_router.Prelude.{
  ℕ, ◌+◌, ◌^◌, ◌<◌, ◌≤◌, ◌≡◌, refl, ap, sym, ◌∙◌, arith, true, false, List, [], ◌∷◌, ◌++◌, Option,
  some, length, if_elim,
}
use mathlib.Core.Path.{subst}
use audio_router.Protocol.Valid.{make_header-Acceptable}
use audio_router.Protocol.{
  CommonHeader, current_version, MsgType, discovery_req, discovery_resp, disconnect_req,
  disconnect_ack, make_header, to_uint8, of_uint8, is_valid_header, max_udp_packet_size,
}
use audio_router.Protocol.Wire.{header_bytes, header_of_bytes, header_of_bytes-header_bytes}
use audio_router.Endpoint.{Floats}
use audio_router.Jitter.{Doubles}
use audio_router.Server.{
  Server, SocketAddress, no_address, listening, is_streaming, graceful, Payload,
  discovery_resp_payload, disconnect_payload, byte_of_Bool, payload_size_of, Datagram, reply,
  Readings, same_address, restore_speaker, handle_discovery_req, handle_disconnect_req,
  disconnect_client, dispatch, receive,
}
use audio_router.Server.Wire.{payload_bytes, datagram_bytes}
use audio_router.Client.{Client, Clock, count_packet, on_message}
use audio_router.Client as Client
use audio_router.Client.Requests.{discovery_request, disconnect_request}
use audio_router.Client.Discovery.{is_discovery_answer, probe_rounds, discover_server}
use audio_router.Link.Replies.{make_header-Fits, header_of_bytes-made, length-payload_bytes}
use audio_router.Link.Requests.{receive-request}

-- A datagram of the server, whichever its payload: its header is read back and valid.
reply_read :
    (type : MsgType) (seq now_us : ℕ) (p : Payload) (to : SocketAddress)
    → seq < 2 ^ 32
    → now_us < 2 ^ 64
    → payload_size_of p ≤ max_udp_packet_size
    → let buf = datagram_bytes (reply type seq now_us p to) in
      (header_of_bytes buf ≡ make_header type seq now_us (payload_size_of p) 0)
      × (length buf ≡ 24 + payload_size_of p)
      × (is_valid_header (header_of_bytes buf) (length buf) ≡ true)
unfolding datagram_bytes reply
reply_read type seq now_us p to a b c =
    header_of_bytes-made type seq now_us (payload_size_of p) (payload_bytes p) a b c
      (length-payload_bytes p)

discover_server-accepted :
    (buf : List ℕ) (responder : SocketAddress)
    → 62 ≤ length buf
    → is_valid_header (header_of_bytes buf) (length buf) ≡ true
    → (header_of_bytes buf).msg_type ≡ to_uint8 discovery_resp
    → discover_server (λ k. (buf, responder)) ≡ (6, some responder)
unfolding discover_server probe_rounds is_discovery_answer
discover_server-accepted buf responder l v m =
    if_elim (λ (x : ℕ × Option SocketAddress). x ≡ (6, some responder)) (is_discovery_answer buf) _
      _ (λ a. refl) λ a. absurd (ground arith)

-- The same in a receive buffer that holds more bytes than the datagram.
reply_read_stale :
    (type : MsgType) (now_us : ℕ) (p : Payload) (to : SocketAddress) (stale : List ℕ)
    → now_us < 2 ^ 64
    → payload_size_of p ≤ max_udp_packet_size
    → let buf = datagram_bytes (reply type 0 now_us p to) ++ stale in
      (header_of_bytes buf ≡ make_header type 0 now_us (payload_size_of p) 0)
      × (is_valid_header (header_of_bytes buf) (24 + payload_size_of p) ≡ true)
unfolding datagram_bytes reply header_bytes
reply_read_stale type now_us p to stale b c =
    let h = make_header type 0 now_us (payload_size_of p) 0 in
    let e : header_of_bytes (header_bytes h ++ (payload_bytes p ++ stale)) ≡ h =
      header_of_bytes-header_bytes h (payload_bytes p ++ stale) (
        make_header-Fits type 0 now_us (payload_size_of p) 0 (omega arith) b (omega arith)
          (omega arith)) in
    (
      e,
      subst (λ k. is_valid_header k (24 + payload_size_of p) ≡ true) (sym e)
          (make_header-Acceptable type 0 now_us (payload_size_of p) 0 c (omega arith)),
    )

module _ {D : Type 0} where
  receive-disconnect_ack :
      (fl : Doubles D) (c : Client D) (buf : List ℕ) (t : Clock)
      → is_valid_header (header_of_bytes buf) 89 ≡ true
      → (header_of_bytes buf).msg_type ≡ to_uint8 disconnect_ack
      → Client.receive fl c buf 89 t
        ≡ some (record (count_packet c 89 t.now_ms) { is_running = false })
  unfolding Client.receive on_message of_uint8
  receive-disconnect_ack fl c buf t v m = rw (v, m) refl

module _ {V : Type 0} where
  -- One datagram, and the client that it reaches first finds the server there; the server is unchanged.
  abbrev pub Finds : Server V → SocketAddress → Server V × List Datagram → Type 0
  Finds s responder (s', []) = ⊥
  Finds s responder (s', d ∷ ds) =
      (s' ≡ s)
      × (discover_server (λ k. (datagram_bytes d, responder)) ≡ (6, some responder))
      × (ds ≡ [])

  handle_discovery_req-Finds :
      (s : Server V) (sender responder : SocketAddress) (now_us : ℕ)
      → now_us < 2 ^ 64
      → Finds s responder (handle_discovery_req s sender now_us)
  unfolding handle_discovery_req payload_size_of make_header
  handle_discovery_req-Finds s sender responder now_us t =
      let p =
        discovery_resp_payload current_version s.config.port (byte_of_Bool (is_streaming s.state))
          (byte_of_Bool s.endpoint_control.is_silenced_by_us) in
      let (h, n, v) = reply_read discovery_resp 0 now_us p sender (omega arith) t (omega arith) in
      (
        refl,
        discover_server-accepted (datagram_bytes (reply discovery_resp 0 now_us p sender)) responder
            (omega arith) v (ap CommonHeader.msg_type h),
        refl,
      )

  -- The discovery request reaches the server in any state, which answers it with one datagram and is
  -- otherwise unchanged; when the first answer that the client receives is that datagram, it takes its
  -- sender for the server after one round of six probes.
  pub discover_server-receive :
      (f : Floats V) (s : Server V) (sender responder : SocketAddress) (r : Readings) (sent_us : ℕ)
      → sent_us < 2 ^ 64
      → r.now_us < 2 ^ 64
      → Finds s responder (receive f s (discovery_request sent_us) sender r)
  unfolding discovery_request dispatch
  discover_server-receive f s sender responder r sent_us n t =
      subst (Finds s responder)
        (sym (receive-request f s discovery_req sent_us 34 _ sender r n (omega arith) refl))
        (handle_discovery_req-Finds s sender responder r.now_us t)

module _ {V D : Type 0} where
  -- The request that `stop` sends, received from the client of a streaming session: the session ends, the
  -- speaker is given back, the server listens, and one acknowledgement goes to that client; and a client
  -- that receives the bytes of the acknowledgement stops running.
  pub receive-disconnect_request :
      (f : Floats V) (fl : Doubles D) (s : Server V) (c : Client D) (sent_us : ℕ)
      (sender : SocketAddress) (r : Readings) (t : Clock) (stale : List ℕ)
      → sent_us < 2 ^ 64
      → r.now_us < 2 ^ 64
      → is_streaming s.state ≡ true
      → s.active_client.is_valid ≡ true
      → same_address sender s.active_client ≡ true
      → let ack = reply disconnect_ack 0 r.now_us (disconnect_payload 0 graceful) s.active_client in
        (receive f s (disconnect_request sent_us) sender r ≡ (
          record (restore_speaker s) { active_client = no_address; state = listening },
          ack ∷ [],
        ))
        × (Client.receive fl c (datagram_bytes ack ++ stale) 89 t
            ≡ some (record (count_packet c 89 t.now_ms) { is_running = false }))
  unfolding disconnect_request dispatch handle_disconnect_req disconnect_client payload_size_of
      make_header
  receive-disconnect_request f fl s c sent_us sender r t stale n m a b k =
      let (h, v) =
        reply_read_stale disconnect_ack r.now_us (disconnect_payload 0 graceful) s.active_client
          stale m (omega arith) in
      (
        receive-request f s disconnect_req sent_us 65 _ sender r n (omega arith) refl
            ∙ rw (k, a, b) refl,
        receive-disconnect_ack fl c _ t v (ap CommonHeader.msg_type h),
      )
