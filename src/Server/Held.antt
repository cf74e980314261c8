-- ===== src/Server/Held.antt =====
-- What every event keeps of a session that silenced the PC speaker
-- (src/server/server.cpp and audio_endpoint_control.cpp, as built on Windows and off it).
use audio_router.Prelude.{
  ℕ, ◌≡◌, ◌⊎◌, inl, inr, refl, ◌∙◌, arith, Bool, true, false, not, ◌&&◌, List, Option, none, some,
  ltb, if_elim, length,
}
use audio_router.Prelude.Word.{sub64}
use audio_router.Protocol.{
  MsgType, discovery_req, discovery_resp, connect_req, connect_ack, connect_nak, disconnect_req,
  disconnect_ack, audio_data, heartbeat_ping, heartbeat_pong, control_cmd, CommonHeader,
  common_header_size, is_valid_header,
}
use audio_router.Protocol.Wire.{header_of_bytes}
use audio_router.Endpoint.{
  Floats, EndpointControl, MuteMethod, governs_mute, governs_volume, mute_pc_speaker,
  unmute_pc_speaker, set_mute, set_volume,
}
use audio_router.Server.{
  ServerConfig, ServerState, Server, no_address, listening, is_streaming, SocketAddress,
  same_address, Step, Capture, capturing, starts, fails, Readings, Reason, handle_discovery_req,
  is_busy_for, take_session, silence, begin_streaming, start_capture, handle_connect_req,
  restore_speaker, disconnect_client, handle_disconnect_req, note_ping, handle_heartbeat_ping,
  apply_cmd, handle_control_cmd, dispatch, receive, watchdog, Event, received, watchdog_round,
  tunnel_lost, step, graceful, heartbeat_timeout, tunnel_disconnected,
}

-- The speaker as a session finds it, the build, and the method that is configured.
pub record Found (V : Type 0) : Type 0 where
  pub is_windows : Bool
  pub method : MuteMethod
  pub is_muted : Bool
  pub volume : V

module _ {V : Type 0} where
  abbrev pub found : Server V → Found V
  found s = record {
    is_windows = s.endpoint_control.is_windows;
    method = s.config.mute_method;
    is_muted = s.endpoint_control.is_muted;
    volume = s.endpoint_control.volume;
  }

  -- A session that silenced a speaker which it found so.
  pub record Keeps (x : Found V) (c : ServerConfig) (st : ServerState) (e : EndpointControl V)
      : Type 0 where
    pub is_automatic : c.auto_mute_pc_speaker ≡ true
    pub streams : is_streaming st ≡ true
    pub is_silenced : e.is_silenced_by_us ≡ true
    pub build : e.is_windows ≡ x.is_windows
    pub method : (c.mute_method ≡ x.method) × (e.active_mute_method ≡ x.method)
    pub mute : e.prev_mute_state ≡ x.is_muted
    pub volume : e.prev_volume_level ≡ x.volume

  abbrev pub Held : Found V → Server V → Type 0
  Held x s = Keeps x s.config s.state s.endpoint_control

  -- What the silence governs is muted, or at no volume.
  abbrev pub IsQuiet : Floats V → Found V → Server V → Type 0
  IsQuiet f x s =
      (governs_mute x.is_windows x.method ≡ true → s.endpoint_control.is_muted ≡ true)
      × (governs_volume x.is_windows x.method ≡ true → s.endpoint_control.volume ≡ f.zero_v)

  -- The session is over, and what the silence governs is as it was found.
  abbrev pub Restored : Found V → Server V → Type 0
  Restored x s =
      (s.state ≡ listening)
      × (s.endpoint_control.is_silenced_by_us ≡ false)
      × (governs_mute x.is_windows x.method ≡ true → s.endpoint_control.is_muted ≡ x.is_muted)
      × (governs_volume x.is_windows x.method ≡ true → s.endpoint_control.volume ≡ x.volume)

  abbrev pub Next : Found V → Step V → Type 0
  Next x r = Held x (r.0) ⊎ Restored x (r.0)

  restored :
      (x : Found V) (s : Server V)
      → Held x s
      → Restored x (record (restore_speaker s) { active_client = no_address; state = listening })
  unfolding restore_speaker unmute_pc_speaker
  restored x s h =
      let (m, k) = h.method in
      let q : is_streaming s.state ≡ true = h.streams in
      (refl, ground arith, λ g. ground arith, λ g. ground arith)

  disconnect_client-Next :
      (x : Found V) (s : Server V) (reason : Reason) (ack : Bool) (now_us : ℕ)
      → Held x s
      → Next x (disconnect_client s reason ack now_us)
  unfolding disconnect_client
  disconnect_client-Next x s reason ack now_us h =
      if_elim (Next x) (is_streaming s.state && s.active_client.is_valid) _ _
        (λ e. inr (restored x s h)) λ e. inl h

  begin_streaming-Held :
      (f : Floats V) (x : Found V) (s : Server V) (sender : SocketAddress) (now_us : ℕ)
      → Held x s
      → Held x ((begin_streaming f s sender now_us).0)
  unfolding begin_streaming silence mute_pc_speaker is_streaming
  begin_streaming-Held f x s sender now_us h =
      let (m, k) = h.method in
      record {
        is_automatic = ground arith;
        streams = refl;
        is_silenced = ground arith;
        build = ground arith;
        method = (ground arith, ground arith);
        mute = ground arith;
        volume = ground arith;
      }

  handle_connect_req-Held :
      (f : Floats V) (x : Found V) (c : Capture) (s : Server V) (sender : SocketAddress)
      (now_ms set_ms now_us : ℕ)
      → Held x s
      → Held x ((handle_connect_req f c s sender now_ms set_ms now_us).0)
  unfolding handle_connect_req start_capture take_session
  handle_connect_req-Held f x c s sender now_ms set_ms now_us w =
      if_elim (λ (r : Step V). Held x (r.0)) (is_busy_for s sender now_ms) _ _ (λ a. w)
        λ a. by_capture c
    where
      by_capture :
          (c' : Capture)
          → Held x ((start_capture f c' (take_session s sender set_ms) sender now_us).0)
      by_capture capturing = begin_streaming-Held f x _ sender now_us w
      by_capture (starts actual) = begin_streaming-Held f x _ sender now_us w
      by_capture (fails actual) = w

  -- What a command on the speaker leaves alone
  record Kept (e' e : EndpointControl V) : Type 0 where
    silenced : e'.is_silenced_by_us ≡ e.is_silenced_by_us
    build : e'.is_windows ≡ e.is_windows
    method : e'.active_mute_method ≡ e.active_mute_method
    mute : e'.prev_mute_state ≡ e.prev_mute_state
    volume : e'.prev_volume_level ≡ e.prev_volume_level

  apply_cmd-Kept :
      (f : Floats V) (payload : List ℕ) (e : EndpointControl V) → Kept (apply_cmd f payload e) e
  unfolding apply_cmd set_mute set_volume
  apply_cmd-Kept f payload e = record {
    silenced = ground arith;
    build = ground arith;
    method = ground arith;
    mute = ground arith;
    volume = ground arith;
  }

  handle_control_cmd-Held :
      (f : Floats V) (x : Found V) (s : Server V) (payload : List ℕ) (sender : SocketAddress)
      → Held x s
      → Held x ((handle_control_cmd f s payload sender).0)
  unfolding handle_control_cmd
  handle_control_cmd-Held f x s payload sender w =
      let k = apply_cmd-Kept f payload s.endpoint_control in
      let after : Held x (record s { endpoint_control = apply_cmd f payload s.endpoint_control }) =
        record {
          is_automatic = w.is_automatic;
          streams = w.streams;
          is_silenced = k.silenced ∙ w.is_silenced;
          build = k.build ∙ w.build;
          method = (w.method.0, k.method ∙ w.method.1);
          mute = k.mute ∙ w.mute;
          volume = k.volume ∙ w.volume;
        } in
      if_elim (λ (r : Step V). Held x (r.0)) (not (same_address sender s.active_client)) _ _
        (λ a. w)
        λ a. if_elim (λ (r : Step V). Held x (r.0)) (ltb (length payload) 9) _ _ (λ b. w) λ b. after

  handle_heartbeat_ping-Held :
      (x : Found V) (s : Server V) (hdr : CommonHeader) (payload : List ℕ) (sender : SocketAddress)
      (now_ms now_us : ℕ)
      → Held x s
      → Held x ((handle_heartbeat_ping s hdr payload sender now_ms now_us).0)
  unfolding handle_heartbeat_ping note_ping
  handle_heartbeat_ping-Held x s hdr payload sender now_ms now_us w =
      if_elim (λ (r : Step V). Held x (r.0)) (not (same_address sender s.active_client)) _ _
        (λ a. w) λ a. if_elim (Held x) (ltb (length payload) 28) _ _ (λ b. w) λ b. w

  dispatch-Next :
      (f : Floats V) (x : Found V) (s : Server V) (t : Option MsgType) (hdr : CommonHeader)
      (payload : List ℕ) (sender : SocketAddress) (r : Readings)
      → Held x s
      → Next x (dispatch f s t hdr payload sender r)
  unfolding dispatch handle_discovery_req handle_disconnect_req
  dispatch-Next f x s none hdr payload sender r w = inl w
  dispatch-Next f x s (some discovery_req) hdr payload sender r w = inl w
  dispatch-Next f x s (some connect_req) hdr payload sender r w =
      inl (handle_connect_req-Held f x r.capture s sender r.now_ms r.set_ms r.now_us w)
  dispatch-Next f x s (some disconnect_req) hdr payload sender r w =
      if_elim (Next x) (same_address sender s.active_client) _ _
        (λ a. disconnect_client-Next x s graceful true r.now_us w) λ a. inl w
  dispatch-Next f x s (some heartbeat_ping) hdr payload sender r w =
      inl (handle_heartbeat_ping-Held x s hdr payload sender r.set_ms r.now_us w)
  dispatch-Next f x s (some control_cmd) hdr payload sender r w =
      inl (handle_control_cmd-Held f x s payload sender w)
  dispatch-Next f x s (some discovery_resp) hdr payload sender r w = inl w
  dispatch-Next f x s (some connect_ack) hdr payload sender r w = inl w
  dispatch-Next f x s (some connect_nak) hdr payload sender r w = inl w
  dispatch-Next f x s (some disconnect_ack) hdr payload sender r w = inl w
  dispatch-Next f x s (some audio_data) hdr payload sender r w = inl w
  dispatch-Next f x s (some heartbeat_pong) hdr payload sender r w = inl w

  pub step-Next :
      (f : Floats V) (x : Found V) (s : Server V) (e : Event) → Held x s → Next x (step f s e)
  unfolding step receive watchdog
  step-Next f x s (received buf sender r) w =
      if_elim (Next x) (ltb (length buf) common_header_size) _ _ (λ a. inl w)
        λ a.
          if_elim (Next x) (not (is_valid_header (header_of_bytes buf) (length buf))) _ _
            (λ b. inl w) λ b. dispatch-Next f x s _ _ _ sender r w
  step-Next f x s (watchdog_round now_ms now_us) w =
      if_elim (Next x)
        (is_streaming s.state
          && (ltb 0 s.last_client_activity_time_ms
              && ltb s.config.client_timeout_ms (sub64 now_ms s.last_client_activity_time_ms)))
        _ _ (λ a. disconnect_client-Next x s heartbeat_timeout false now_us w) λ a. inl w
  step-Next f x s (tunnel_lost now_us) w =
      disconnect_client-Next x s tunnel_disconnected true now_us w
