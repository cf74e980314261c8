-- ===== src/Tunnel/Relay.antt =====
-- The relays at the two ends of the USB tunnel: `usb_relay_thread_fn` of src/client/client.cpp and
-- `usb_relay_thread` of src/server/server.cpp. Each passes datagrams of its engine into the tunnel and
-- frames of the tunnel to its engine. What the sockets answer is an argument; a `none` result is a round
-- that still waits when the listed calls are used up.
use audio_router.Prelude.{ℕ, Bool, true, false, List, [], ◌∷◌, Option, none, some, if◌then◌else◌}
use audio_router.Tunnel.{
  Recv, frame, closed_result, timeout_result, error_result, ReadResult, read_frame, SendCall,
  SendResult, write_frame,
}
use audio_router.Server.{SocketAddress}

-- The TCP leg, the reassembly buffer, and the engine's address, which the client's relay learns.
pub record Relay : Type 0 where
  pub is_connected : Bool
  pub rx_buf : List ℕ
  pub engine_peer : SocketAddress

-- What `select2` and the sockets have for one round: the calls of `read_frame` where the TCP leg is
-- readable, a datagram that is not empty and its sender where the UDP leg is, and the calls of `write_frame`.
pub record Ready : Type 0 where
  pub reads : Option (List Recv)
  pub datagram : Option (List ℕ × SocketAddress)
  pub sends : List SendCall

-- What a round puts on the tunnel, and the datagrams for the engine.
pub record Relayed : Type 0 where
  pub relay : Relay
  pub tunnelled : List ℕ
  pub delivered : List (List ℕ × SocketAddress)

abbrev pub quiet : Relay → Relayed
quiet r = record { relay = r; tunnelled = []; delivered = [] }

-- The reading half: a frame goes to the engine, where its address is valid; a connection that is closed
-- or broken is given up.
unfoldable pub on_frame : Relay → ReadResult → Option Relayed
on_frame r none = none
on_frame r (some (frame p, rx, _)) = some record {
  relay = record r { rx_buf = rx };
  tunnelled = [];
  delivered = if r.engine_peer.is_valid then (p, r.engine_peer) ∷ [] else [];
}
on_frame r (some (timeout_result, rx, _)) = some (quiet (record r { rx_buf = rx }))
on_frame r (some (closed_result, rx, _)) =
    some (quiet (record r { is_connected = false; rx_buf = rx }))
on_frame r (some (error_result, rx, _)) =
    some (quiet (record r { is_connected = false; rx_buf = rx }))

unfoldable pub read_half : Relay → Option (List Recv) → Option Relayed
read_half r none = some (quiet r)
read_half r (some calls) = on_frame r (read_frame calls r.rx_buf)

-- The writing half, behind the reading half: a failed write gives the connection up.
unfoldable pub on_written : Relayed → SendResult → Option Relayed
on_written o none = none
on_written o (some (ok, sent, _)) = some (record o {
  relay = record o.relay { is_connected = if ok then o.relay.is_connected else false };
  tunnelled = sent;
})

-- `keeps_sender`: the client's relay takes the sender for its engine.
unfoldable pub write_half : (keeps_sender : Bool) → Ready → Option Relayed → Option Relayed
write_half keeps_sender ready none = none
write_half keeps_sender ready (some o) = elim (ready.datagram) [
  | none ↦ some o
  | some d ↦
      on_written
        (record o {
          relay = record o.relay {
            engine_peer = if keeps_sender then d.1 else o.relay.engine_peer;
          };
        })
        (write_frame ready.sends (d.0))
]

-- A round over an open TCP leg.
unfoldable pub relay_round : (keeps_sender : Bool) → Relay → Ready → Option Relayed
relay_round keeps_sender r ready = write_half keeps_sender ready (read_half r ready.reads)

-- A round of the client's relay; `connects` is the answer of `connect` where the leg is down.
unfoldable pub client_relay_round : Relay → (connects : Bool) → Ready → Option Relayed
client_relay_round r connects ready =
    if r.is_connected
    then relay_round true r ready
    else if connects
    then relay_round true (record r { is_connected = true; rx_buf = [] }) ready
    else some (quiet r)

-- A round of the server's relay on an accepted connection.
unfoldable pub server_relay_round : Relay → Ready → Option Relayed
server_relay_round r ready = relay_round false r ready

-- The server's relay with a new connection: its engine is at a fixed address.
abbrev pub accepted_relay : SocketAddress → Relay
accepted_relay engine_udp = record { is_connected = true; rx_buf = []; engine_peer = engine_udp }
