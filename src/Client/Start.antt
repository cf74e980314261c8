-- ===== src/Client/Start.antt =====
-- `AudioRouterClient::start` of src/client/client.cpp, up to the worker threads. Rooted devices, the binding to
-- a network interface and the name of the audio device are left out: no branch of what is here depends on
-- them.
use audio_router.Prelude.{
  ◌&&◌, arith, ℕ, ◌≡◌, refl, Bool, true, false, not, List, Option, none, some, if◌then◌else◌,
  if_elim,
}
use audio_router.Config.{AudioConfig}
use audio_router.Jitter.{Doubles, JitterBuffer, configure}
use audio_router.Server.{SocketAddress}
use audio_router.Client.{perform_handshake}
use audio_router.Client.Discovery.{Answer, discover_server}

pub data ClientState : Type 0 where
  stopped discovering connecting streaming disconnected : ClientState

-- The fields of `ClientConfig` that decide here.
pub record ClientConfig : Type 0 where
  pub usb_mode : Bool
  pub auto_discover : Bool
  pub target_latency_ms : ℕ

pub record Starting (D : Type 0) : Type 0 where
  pub is_running : Bool
  pub stop_requested : Bool
  pub state : ClientState
  pub is_socket_open : Bool
  pub is_relay_udp_open : Bool
  pub is_relay_started : Bool
  pub server_addr : SocketAddress
  pub audio_config : AudioConfig
  pub jitter_buffer : JitterBuffer D
  pub last_packet_time_ms : ℕ

-- What the sockets, the network and the clock answer: `configured_addr` is the address that
-- `server_ip` and the port make, and `relay_addr` is the one that the bound relay socket has.
pub record Answers : Type 0 where
  pub opens : Bool
  pub relay_opens : Bool
  pub is_relay_bound : Bool
  pub relay_addr : SocketAddress
  pub responders : ℕ → Answer
  pub configured_addr : SocketAddress
  pub replies : ℕ → List ℕ
  pub now_ms : ℕ

-- The socket of the relay, where it can be opened, and the thread, where it also has an address.
abbrev pub left_by_usb : Answers → Bool × Bool
left_by_usb a = (a.relay_opens, a.relay_opens && (a.is_relay_bound && a.relay_addr.is_valid))

-- The socket and the thread of the USB relay that a call of `start` leaves, from a client with neither.
abbrev pub left_relay : ClientConfig → Answers → Bool × Bool
left_relay cfg a = if a.opens && cfg.usb_mode then left_by_usb a else (false, false)

abbrev pub Result : Type 0 → Type 0
Result D = Bool × Starting D

module _ {D : Type 0} where
  -- `socket_.close()` and `return false`: the socket and the thread of the USB relay are left alone.
  abbrev pub give_up : Starting D → Result D
  give_up s = (false, record s { is_socket_open = false })

  unfoldable pub negotiated :
      Doubles D → ClientConfig → Starting D → ℕ → Option AudioConfig → Result D
  negotiated fl cfg s now_ms none = give_up s
  negotiated fl cfg s now_ms (some c) = (
    true,
    record s {
      audio_config = c;
      jitter_buffer = configure fl s.jitter_buffer c cfg.target_latency_ms;
      is_running = true;
      state = streaming;
      last_packet_time_ms = now_ms;
    },
  )

  -- The handshake, which a client that was asked to stop does not begin.
  unfoldable pub connect : Doubles D → ClientConfig → Starting D → Answers → Result D
  connect fl cfg s a =
      let s1 = record s { state = connecting } in
      if s.stop_requested
      then give_up s1
      else negotiated fl cfg s1 a.now_ms (perform_handshake a.replies).1

  unfoldable pub start_usb : Doubles D → ClientConfig → Starting D → Answers → Result D
  start_usb fl cfg s a =
      let s0 = record s { is_relay_udp_open = true } in
      let s1 = record s0 { server_addr = a.relay_addr } in
      if not a.relay_opens
      then give_up s
      else if not a.is_relay_bound
      then give_up s0
      else if not a.relay_addr.is_valid
      then give_up s1
      else connect fl cfg (record s1 { is_relay_started = true }) a

  unfoldable pub discovered :
      Doubles D → ClientConfig → Starting D → Answers → Option SocketAddress → Result D
  discovered fl cfg s a none = give_up s
  discovered fl cfg s a (some addr) = connect fl cfg (record s { server_addr = addr }) a

  unfoldable pub start_network : Doubles D → ClientConfig → Starting D → Answers → Result D
  start_network fl cfg s a =
      let s1 = record s { server_addr = a.configured_addr } in
      if cfg.auto_discover
      then discovered fl cfg (record s { state = discovering }) a (discover_server a.responders).1
      else if not a.configured_addr.is_valid
      then give_up s1
      else connect fl cfg s1 a

  unfoldable pub start : Doubles D → ClientConfig → Starting D → Answers → Result D
  start fl cfg s a =
      let s1 = record s { is_socket_open = true } in
      if s.is_running
      then (true, s)
      else if not a.opens
      then (false, s)
      else if cfg.usb_mode
      then start_usb fl cfg s1 a
      else start_network fl cfg s1 a

  -- What `start` leaves, with a socket and a thread of the USB relay as `relay` says: a client that streams
  -- with the buffer configured for what was negotiated, and that nobody asked to stop; or one that does not
  -- run and whose socket to the server is closed.
  abbrev pub Outcome :
      Doubles D → ClientConfig → JitterBuffer D → (relay : Bool × Bool) → Result D → Type 0
  Outcome fl cfg jb relay (true, s) =
      (s.is_running ≡ true)
      × (s.state ≡ streaming)
      × (s.is_socket_open ≡ true)
      × (s.stop_requested ≡ false)
      × (s.jitter_buffer ≡ configure fl jb s.audio_config cfg.target_latency_ms)
      × ((s.is_relay_udp_open, s.is_relay_started) ≡ relay)
  Outcome fl cfg jb relay (false, s) =
      (s.is_running ≡ false)
      × (s.is_socket_open ≡ false)
      × (s.jitter_buffer ≡ jb)
      × ((s.is_relay_udp_open, s.is_relay_started) ≡ relay)

  abbrev relay_of : Starting D → Bool × Bool
  relay_of s = (s.is_relay_udp_open, s.is_relay_started)

  connect-Outcome :
      (fl : Doubles D) (cfg : ClientConfig) (s : Starting D) (a : Answers)
      → s.is_running ≡ false
      → s.is_socket_open ≡ true
      → Outcome fl cfg s.jitter_buffer (relay_of s) (connect fl cfg s a)
  unfolding connect negotiated
  connect-Outcome fl cfg s a r o =
      let P = Outcome fl cfg s.jitter_buffer (relay_of s) in
      if_elim P s.stop_requested _ _ (λ _. (r, refl, refl, refl))
        λ e. by_result e ((perform_handshake a.replies).1)
    where
      by_result :
          s.stop_requested ≡ false
          → (c : Option AudioConfig)
          → Outcome fl cfg s.jitter_buffer
              (relay_of s)
              (negotiated fl cfg (record s { state = connecting }) a.now_ms c)
      by_result e none = (r, refl, refl, refl)
      by_result e (some c) = (refl, refl, o, e, refl, refl)

  start_network-Outcome :
      (fl : Doubles D) (cfg : ClientConfig) (s : Starting D) (a : Answers)
      → s.is_running ≡ false
      → s.is_socket_open ≡ true
      → Outcome fl cfg s.jitter_buffer (relay_of s) (start_network fl cfg s a)
  unfolding start_network discovered
  start_network-Outcome fl cfg s a r o =
      let P = Outcome fl cfg s.jitter_buffer (relay_of s) in
      if_elim P cfg.auto_discover _ _ (λ _. by_responder ((discover_server a.responders).1))
        λ _.
          if_elim P (not a.configured_addr.is_valid) _ _ (λ _. (r, refl, refl, refl))
            λ _. connect-Outcome fl cfg (record s { server_addr = a.configured_addr }) a r o
    where
      by_responder :
          (x : Option SocketAddress)
          → Outcome fl cfg s.jitter_buffer
              (relay_of s)
              (discovered fl cfg (record s { state = discovering }) a x)
      by_responder none = (r, refl, refl, refl)
      by_responder (some addr) =
          connect-Outcome fl cfg (record s { state = discovering; server_addr = addr }) a r o

  start_usb-Outcome :
      (fl : Doubles D) (cfg : ClientConfig) (s : Starting D) (a : Answers)
      → s.is_running ≡ false
      → s.is_socket_open ≡ true
      → s.is_relay_udp_open ≡ false
      → s.is_relay_started ≡ false
      → Outcome fl cfg s.jitter_buffer (left_by_usb a) (start_usb fl cfg s a)
  unfolding start_usb
  start_usb-Outcome fl cfg s a r o y z =
      let P = Outcome fl cfg s.jitter_buffer (left_by_usb a) in
      if_elim P (not a.relay_opens) _ _ (λ e. (r, refl, refl, ground arith))
        λ e.
          if_elim P (not a.is_relay_bound) _ _ (λ f. (r, refl, refl, ground arith))
            λ f.
              if_elim P (not a.relay_addr.is_valid) _ _ (λ g. (r, refl, refl, ground arith))
                λ g.
                  let s2 = record s {
                    is_relay_udp_open = true;
                    server_addr = a.relay_addr;
                    is_relay_started = true;
                  } in
                  let u : left_by_usb a ≡ (true, true) = ground arith in
                  rw u (connect-Outcome fl cfg s2 a r o)

  -- Started from a client that does not run and has no socket and no relay, whatever the network
  -- answers: `start` answers `true` with a client that streams, which was not asked to stop before, and
  -- whose jitter buffer is configured for what was negotiated; or `false` with a client that does not
  -- run, whose socket to the server is closed again and whose jitter buffer is as it was. Either way, in
  -- USB mode, where the socket to the server could be opened: the relay's socket is left open if it could be
  -- opened, and the relay's thread is left running if that socket could be bound and has an address;
  -- otherwise there is neither.
  pub start-Outcome :
      (fl : Doubles D) (cfg : ClientConfig) (s : Starting D) (a : Answers)
      → s.is_running ≡ false
      → s.is_socket_open ≡ false
      → s.is_relay_udp_open ≡ false
      → s.is_relay_started ≡ false
      → Outcome fl cfg s.jitter_buffer (left_relay cfg a) (start fl cfg s a)
  unfolding start
  start-Outcome fl cfg s a r o y z =
      let P = Outcome fl cfg s.jitter_buffer (left_relay cfg a) in
      let s1 = record s { is_socket_open = true } in
      if_elim P s.is_running _ _ (λ e. absurd (cc))
        λ _.
          if_elim P (not a.opens) _ _ (λ e. (r, o, refl, ground arith))
            λ e.
              if_elim P cfg.usb_mode _ _
                (λ f.
                  let u : left_relay cfg a ≡ left_by_usb a = ground arith in
                  rw u (start_usb-Outcome fl cfg s1 a r refl y z))
                λ f.
                  let u : left_relay cfg a ≡ relay_of s = ground arith in
                  rw u (start_network-Outcome fl cfg s1 a r refl)
