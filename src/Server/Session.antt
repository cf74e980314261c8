-- ===== src/Server/Session.antt =====
-- The session of `AudioRouterServer`: who holds it, and when the PC speaker is marked as silenced
-- (src/server/server.cpp and audio_endpoint_control.cpp).
use audio_router.Prelude.{
  ℕ, ◌≡◌, ◌∙◌, arith, Bool, true, false, not, ◌&&◌, List, Option, none, some, ltb, if_elim, length,
}
use audio_router.Prelude.Word.{sub64}
use audio_router.Protocol.{
  MsgType, discovery_req, discovery_resp, connect_req, connect_ack, connect_nak, disconnect_req,
  disconnect_ack, audio_data, heartbeat_ping, heartbeat_pong, control_cmd, CommonHeader,
  common_header_size, is_valid_header,
}
use audio_router.Protocol.Wire.{header_of_bytes}
use audio_router.Endpoint.{
  Floats, EndpointControl, mute_pc_speaker, unmute_pc_speaker, set_mute, set_volume,
}
use audio_router.Server.{
  Server, is_streaming, SocketAddress, same_address, Step, Capture, capturing, starts, fails,
  Readings, Reason, handle_discovery_req, is_busy_for, take_session, silence, begin_streaming,
  start_capture, handle_connect_req, restore_speaker, disconnect_client, handle_disconnect_req,
  note_ping, handle_heartbeat_ping, apply_cmd, handle_control_cmd, dispatch, receive, watchdog,
  Event, received, watchdog_round, tunnel_lost, step, graceful, heartbeat_timeout,
  tunnel_disconnected,
}

-- The events are datagrams from valid addresses, rounds of the watchdog, and the loss of the USB
-- tunnel.
abbrev pub IsValidEvent : Event → Type 0
IsValidEvent (received buf sender r) = sender.is_valid ≡ true
IsValidEvent (watchdog_round now_ms now_us) = Unit {0}
IsValidEvent (tunnel_lost now_us) = Unit {0}

module _ {V : Type 0} where
  -- The mark `is_silenced_by_us` is set exactly while a session streams and the configuration asks for
  -- it, and a session that streams has a client.
  pub record IsConsistent (s : Server V) : Type 0 where
    pub silenced :
        s.endpoint_control.is_silenced_by_us
        ≡ (s.config.auto_mute_pc_speaker && is_streaming s.state)
    pub client : is_streaming s.state ≡ true → s.active_client.is_valid ≡ true

  abbrev Keeps : Step V → Type 0
  Keeps r = IsConsistent (r.0)

  begin_streaming-IsConsistent :
      (f : Floats V) (s : Server V) (sender : SocketAddress) (now_us : ℕ)
      → s.endpoint_control.is_silenced_by_us
        ≡ (s.config.auto_mute_pc_speaker && is_streaming s.state)
      → s.active_client.is_valid ≡ true
      → Keeps (begin_streaming f s sender now_us)
  unfolding begin_streaming silence mute_pc_speaker is_streaming
  begin_streaming-IsConsistent f s sender now_us w v = record {
    silenced = ground arith;
    client = ground arith;
  }

  disconnect_client-IsConsistent :
      (s : Server V) (reason : Reason) (ack : Bool) (now_us : ℕ)
      → IsConsistent s
      → Keeps (disconnect_client s reason ack now_us)
  unfolding disconnect_client restore_speaker unmute_pc_speaker is_streaming
  disconnect_client-IsConsistent s reason ack now_us w =
      let q = w.silenced in
      if_elim Keeps (is_streaming s.state && s.active_client.is_valid) _ _
        (λ e. record { silenced = ground arith; client = ground arith }) λ e. w

  pub apply_cmd-silenced :
      (f : Floats V) (payload : List ℕ) (e : EndpointControl V)
      → (apply_cmd f payload e).is_silenced_by_us ≡ e.is_silenced_by_us
  unfolding apply_cmd set_mute set_volume
  apply_cmd-silenced f payload e = ground arith

  handle_control_cmd-IsConsistent :
      (f : Floats V) (s : Server V) (payload : List ℕ) (sender : SocketAddress)
      → IsConsistent s
      → Keeps (handle_control_cmd f s payload sender)
  unfolding handle_control_cmd
  handle_control_cmd-IsConsistent f s payload sender w =
      if_elim Keeps (not (same_address sender s.active_client)) _ _ (λ a. w)
        λ a.
          if_elim Keeps (ltb (length payload) 9) _ _ (λ b. w)
            λ b. record {
              silenced = apply_cmd-silenced f payload s.endpoint_control ∙ w.silenced;
              client = w.client;
            }

  handle_connect_req-IsConsistent :
      (f : Floats V) (c : Capture) (s : Server V) (sender : SocketAddress)
      (now_ms set_ms now_us : ℕ)
      → IsConsistent s
      → sender.is_valid ≡ true
      → Keeps (handle_connect_req f c s sender now_ms set_ms now_us)
  unfolding handle_connect_req start_capture take_session
  handle_connect_req-IsConsistent f c s sender now_ms set_ms now_us w v =
      if_elim Keeps (is_busy_for s sender now_ms) _ _ (λ a. w) λ a. by_capture c
    where
      by_capture :
          (c' : Capture) → Keeps (start_capture f c' (take_session s sender set_ms) sender now_us)
      by_capture capturing = begin_streaming-IsConsistent f _ sender now_us w.silenced v
      by_capture (starts actual) = begin_streaming-IsConsistent f _ sender now_us w.silenced v
      by_capture (fails actual) = record { silenced = w.silenced; client = λ e. v }

  handle_heartbeat_ping-IsConsistent :
      (s : Server V) (hdr : CommonHeader) (payload : List ℕ) (sender : SocketAddress)
      (now_ms now_us : ℕ)
      → IsConsistent s
      → Keeps (handle_heartbeat_ping s hdr payload sender now_ms now_us)
  unfolding handle_heartbeat_ping note_ping
  handle_heartbeat_ping-IsConsistent s hdr payload sender now_ms now_us w =
      if_elim Keeps (not (same_address sender s.active_client)) _ _ (λ a. w)
        λ a.
          if_elim IsConsistent (ltb (length payload) 28) _ _
            (λ b. record { silenced = w.silenced; client = w.client })
            λ b. record { silenced = w.silenced; client = w.client }

  dispatch-IsConsistent :
      (f : Floats V) (s : Server V) (t : Option MsgType) (hdr : CommonHeader) (payload : List ℕ)
      (sender : SocketAddress) (r : Readings)
      → IsConsistent s
      → sender.is_valid ≡ true
      → Keeps (dispatch f s t hdr payload sender r)
  unfolding dispatch handle_discovery_req handle_disconnect_req
  dispatch-IsConsistent f s none hdr payload sender r w v = w
  dispatch-IsConsistent f s (some discovery_req) hdr payload sender r w v = w
  dispatch-IsConsistent f s (some connect_req) hdr payload sender r w v =
      handle_connect_req-IsConsistent f r.capture s sender r.now_ms r.set_ms r.now_us w v
  dispatch-IsConsistent f s (some disconnect_req) hdr payload sender r w v =
      if_elim Keeps (same_address sender s.active_client) _ _
        (λ a. disconnect_client-IsConsistent s graceful true r.now_us w) λ a. w
  dispatch-IsConsistent f s (some heartbeat_ping) hdr payload sender r w v =
      handle_heartbeat_ping-IsConsistent s hdr payload sender r.set_ms r.now_us w
  dispatch-IsConsistent f s (some control_cmd) hdr payload sender r w v =
      handle_control_cmd-IsConsistent f s payload sender w
  dispatch-IsConsistent f s (some discovery_resp) hdr payload sender r w v = w
  dispatch-IsConsistent f s (some connect_ack) hdr payload sender r w v = w
  dispatch-IsConsistent f s (some connect_nak) hdr payload sender r w v = w
  dispatch-IsConsistent f s (some disconnect_ack) hdr payload sender r w v = w
  dispatch-IsConsistent f s (some audio_data) hdr payload sender r w v = w
  dispatch-IsConsistent f s (some heartbeat_pong) hdr payload sender r w v = w

  -- Whatever bytes a valid address sends, and whatever the clocks and the capture engine say, a
  -- datagram, a round of the watchdog and the loss of the USB tunnel keep the session consistent:
  -- the mark that the server has silenced the speaker (`is_silenced_by_us_`) is set exactly while a session
  -- streams and the configuration asks for it, and a session that streams has a client. On Windows the
  -- endpoint has been found before.
  pub step-IsConsistent :
      (f : Floats V) (s : Server V) (e : Event)
      → IsConsistent s
      → IsValidEvent e
      → IsConsistent ((step f s e).0)
  unfolding step receive watchdog
  step-IsConsistent f s (received buf sender r) w v =
      if_elim Keeps (ltb (length buf) common_header_size) _ _ (λ a. w)
        λ a.
          if_elim Keeps (not (is_valid_header (header_of_bytes buf) (length buf))) _ _ (λ b. w)
            λ b. dispatch-IsConsistent f s _ _ _ sender r w v
  step-IsConsistent f s (watchdog_round now_ms now_us) w v =
      if_elim Keeps
        (is_streaming s.state
          && (ltb 0 s.last_client_activity_time_ms
              && ltb s.config.client_timeout_ms (sub64 now_ms s.last_client_activity_time_ms)))
        _ _ (λ a. disconnect_client-IsConsistent s heartbeat_timeout false now_us w) λ a. w
  step-IsConsistent f s (tunnel_lost now_us) w v =
      disconnect_client-IsConsistent s tunnel_disconnected true now_us w
