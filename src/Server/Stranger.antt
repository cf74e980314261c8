-- ===== src/Server/Stranger.antt =====
-- Datagrams from other addresses while a client streams (src/server/server.cpp).
use audio_router.Prelude.{
  ℕ, ◌≡◌, refl, arith, true, false, not, List, [], Option, none, some, ltb, if_elim, length,
}
use audio_router.Protocol.{
  MsgType, discovery_req, discovery_resp, connect_req, connect_ack, connect_nak, disconnect_req,
  disconnect_ack, audio_data, heartbeat_ping, heartbeat_pong, control_cmd, CommonHeader,
  common_header_size, is_valid_header,
}
use audio_router.Protocol.Wire.{header_of_bytes}
use audio_router.Endpoint.{Floats}
use audio_router.Server.{
  Server, SocketAddress, same_address, Step, Readings, handle_discovery_req, is_busy_for,
  handle_connect_req, handle_disconnect_req, handle_heartbeat_ping, handle_control_cmd, dispatch,
  receive,
}

same_address_comm : (a b : SocketAddress) → same_address a b ≡ same_address b a
unfolding same_address
same_address_comm a b = ground arith

is_stranger :
    {V : Type 0} (s : Server V) (sender : SocketAddress) (now_ms : ℕ)
    → is_busy_for s sender now_ms ≡ true
    → same_address sender s.active_client ≡ false
unfolding is_busy_for
is_stranger s sender now_ms h = let c = same_address_comm sender s.active_client in ground arith

module _ {V : Type 0} where
  dispatch-stranger :
      (f : Floats V) (s : Server V) (t : Option MsgType) (hdr : CommonHeader) (payload : List ℕ)
      (sender : SocketAddress) (r : Readings)
      → is_busy_for s sender r.now_ms ≡ true
      → (dispatch f s t hdr payload sender r).0 ≡ s
  unfolding dispatch handle_discovery_req handle_connect_req handle_disconnect_req
      handle_heartbeat_ping handle_control_cmd
  dispatch-stranger f s none hdr payload sender r b = refl
  dispatch-stranger f s (some discovery_req) hdr payload sender r b = refl
  dispatch-stranger f s (some connect_req) hdr payload sender r b = rw (b) refl
  dispatch-stranger f s (some disconnect_req) hdr payload sender r b =
      rw (is_stranger s sender r.now_ms b) refl
  dispatch-stranger f s (some heartbeat_ping) hdr payload sender r b =
      rw (is_stranger s sender r.now_ms b) refl
  dispatch-stranger f s (some control_cmd) hdr payload sender r b =
      rw (is_stranger s sender r.now_ms b) refl
  dispatch-stranger f s (some discovery_resp) hdr payload sender r b = refl
  dispatch-stranger f s (some connect_ack) hdr payload sender r b = refl
  dispatch-stranger f s (some connect_nak) hdr payload sender r b = refl
  dispatch-stranger f s (some disconnect_ack) hdr payload sender r b = refl
  dispatch-stranger f s (some audio_data) hdr payload sender r b = refl
  dispatch-stranger f s (some heartbeat_pong) hdr payload sender r b = refl

  -- While a client streams and was heard of within the timeout, no bytes that another address sends
  -- change the state of the server.
  pub receive-stranger :
      (f : Floats V) (s : Server V) (buf : List ℕ) (sender : SocketAddress) (r : Readings)
      → is_busy_for s sender r.now_ms ≡ true
      → (receive f s buf sender r).0 ≡ s
  unfolding receive
  receive-stranger f s buf sender r b =
      if_elim (λ (t : Step V). t.0 ≡ s) (ltb (length buf) common_header_size) (s, []) _ (λ e. refl)
        λ e.
          if_elim (λ (t : Step V). t.0 ≡ s)
            (not (is_valid_header (header_of_bytes buf) (length buf))) (s, []) _ (λ g. refl)
            λ g. dispatch-stranger f s _ _ _ sender r b
