-- ===== src/Tunnel/Runs.antt =====
-- Tests of src/common/usb_tunnel.hpp on a frame of two bytes.
use audio_router.Prelude.{false, ◌≡◌, refl, arith, true, List, [], ◌∷◌, some}
use audio_router.Tunnel.{
  Recv, bytes, would_block, ready, read_frame, frame_bytes, SendCall, accept, not_writable,
  write_frame,
}
use audio_router.Server.{SocketAddress, no_address}
use audio_router.Tunnel.Relay.{Relay, client_relay_round, server_relay_round}
use audio_router.Tunnel.Delivers.{incoming, readable, Delivers, relay-round_trip}
use audio_router.Tunnel.Frames.{Reads, read_frame-Reads}
use audio_router.Tunnel.Send.{Sends, write_frame-Sends, write_frame-completes}

-- The frame of 7 and 8 in three pieces with a wait, and the first byte of the next frame.
abbrev pieces : List Recv
pieces = bytes 2 (0 ∷ []) ∷ would_block ready ∷ bytes 0 (0 ∷ 7 ∷ []) ∷ bytes 8 (3 ∷ []) ∷ []

read_frame-Reads_example : Reads (7 ∷ 8 ∷ []) (3 ∷ []) (read_frame pieces [])
unfolding frame_bytes
read_frame-Reads_example = read_frame-Reads pieces [] (7 ∷ 8 ∷ []) (3 ∷ []) tt (omega arith) refl

-- Six calls that accept a byte each, one of them behind a wait.
abbrev slow_calls : List SendCall
slow_calls =
    accept 0 ∷ accept 0 ∷ not_writable true ∷ accept 0 ∷ accept 0 ∷ accept 0 ∷ accept 0 ∷ []

write_frame-Sends_example : Sends (frame_bytes (7 ∷ 8 ∷ [])) (write_frame slow_calls (7 ∷ 8 ∷ []))
write_frame-Sends_example = write_frame-Sends slow_calls (7 ∷ 8 ∷ [])

write_frame-completes_example :
    (left : List SendCall) × (write_frame slow_calls (7 ∷ 8 ∷ [])
      ≡ some (true, frame_bytes (7 ∷ 8 ∷ []), left))
write_frame-completes_example =
    write_frame-completes slow_calls (7 ∷ 8 ∷ []) tt (omega arith) (omega arith)

abbrev app : SocketAddress
app = record { sin_family = 2; sin_port = 4001; s_addr = 1; is_valid = true }

abbrev relay : Relay
relay = record { is_connected = true; rx_buf = []; engine_peer = app }

abbrev up : List Recv
up = bytes 1 (0 ∷ 0 ∷ []) ∷ would_block ready ∷ bytes 0 (7 ∷ []) ∷ []

abbrev down : List Recv
down = bytes 1 (0 ∷ 0 ∷ 0 ∷ 8 ∷ 3 ∷ []) ∷ []

abbrev app_relay : Relay
app_relay = record relay { engine_peer = no_address }

relay-round_trip_example :
    (client_relay_round app_relay false (incoming (7 ∷ []) app slow_calls)
      ≡ some record { relay = relay; tunnelled = frame_bytes (7 ∷ []); delivered = [] })
    × Delivers (7 ∷ []) app (server_relay_round relay (readable up))
    × (server_relay_round relay (incoming (8 ∷ []) app slow_calls)
        ≡ some record { relay = relay; tunnelled = frame_bytes (8 ∷ []); delivered = [] })
    × Delivers (8 ∷ []) app (client_relay_round relay false (readable down))
unfolding frame_bytes
relay-round_trip_example =
    relay-round_trip app_relay relay false (7 ∷ []) (8 ∷ []) [] (3 ∷ []) app app slow_calls
      slow_calls up down refl refl refl refl
      record { live = tt; small = omega arith; enough = omega arith }
      record { live = tt; small = omega arith; enough = omega arith }
      record { healthy = tt; begins = refl } record { healthy = tt; begins = refl }
