-- ===== src/Tunnel/Delivers.antt =====
-- A datagram through both relays and back (src/client/client.cpp, src/server/server.cpp).
use audio_router.Prelude.{
  ℕ, ◌+◌, ◌≤◌, ◌≡◌, refl, Bool, true, false, List, [], ◌∷◌, ◌++◌, Option, none, some, if◌then◌else◌,
  if_elim, length,
}
use audio_router.Tunnel.{
  Recv, frame, closed_result, timeout_result, error_result, ReadResult, read_frame, SendCall,
  frame_bytes, max_frame_payload,
}
use audio_router.Tunnel.Frames.{stream, IsHealthy, Reads, read_frame-Reads}
use audio_router.Tunnel.Send.{IsLive, accepts, write_frame-completes}
use audio_router.Tunnel.Relay.{
  Relay, Ready, Relayed, on_frame, read_half, on_written, write_half, relay_round,
  client_relay_round, server_relay_round,
}
use audio_router.Server.{SocketAddress}

-- A socket that takes a datagram whole.
pub record Takes (sends : List SendCall) (d : List ℕ) : Type 0 where
  pub live : IsLive sends
  pub small : length d ≤ max_frame_payload
  pub enough : 4 + length d ≤ accepts sends

-- The stream at a relay begins with the frame of a datagram.
pub record Brings (r : Relay) (calls : List Recv) (d rest : List ℕ) : Type 0 where
  pub healthy : IsHealthy calls
  pub begins : r.rx_buf ++ stream calls ≡ frame_bytes d ++ rest

abbrev pub incoming : List ℕ → SocketAddress → List SendCall → Ready
incoming d from sends = record { reads = none; datagram = some (d, from); sends = sends }

abbrev pub readable : List Recv → Ready
readable calls = record { reads = some calls; datagram = none; sends = [] }

abbrev pub Delivers : List ℕ → SocketAddress → Option Relayed → Type 0
Delivers d to none = ⊥
Delivers d to (some o) = o.delivered ≡ (d, to) ∷ []

sends_lem :
    (k : Bool) (r : Relay) (d : List ℕ) (from : SocketAddress) (sends : List SendCall)
    → r.is_connected ≡ true
    → Takes sends d
    → relay_round k r (incoming d from sends)
      ≡ some record {
        relay = record r { is_connected = true; engine_peer = if k then from else r.engine_peer };
        tunnelled = frame_bytes d;
        delivered = [];
      }
unfolding relay_round read_half write_half on_written
sends_lem k r d from sends c t =
    let (left, e) = write_frame-completes sends d t.live t.small t.enough in rw (e, c) refl

on_frame-Delivers :
    (r : Relay) (d rest : List ℕ) (x : ReadResult)
    → r.engine_peer.is_valid ≡ true
    → Reads d rest x
    → Delivers d r.engine_peer (on_frame r x)
unfolding on_frame
on_frame-Delivers r d rest none v h = absurd h
on_frame-Delivers r d rest (some (frame p, rx, calls)) v (e, f) =
    let same : p ≡ d = cc in rw (v, same) refl
on_frame-Delivers r d rest (some (closed_result, rx, calls)) v (e, f) = absurd (cc)
on_frame-Delivers r d rest (some (timeout_result, rx, calls)) v (e, f) = absurd (cc)
on_frame-Delivers r d rest (some (error_result, rx, calls)) v (e, f) = absurd (cc)

nothing_to_write :
    (k : Bool) (calls : List Recv) (o : Option Relayed) → write_half k (readable calls) o ≡ o
unfolding write_half
nothing_to_write k calls none = refl
nothing_to_write k calls (some o) = refl

delivers_lem :
    (k : Bool) (r : Relay) (d rest : List ℕ) (calls : List Recv)
    → r.engine_peer.is_valid ≡ true
    → length d ≤ max_frame_payload
    → Brings r calls d rest
    → Delivers d r.engine_peer (relay_round k r (readable calls))
unfolding relay_round read_half
delivers_lem k r d rest calls v l b =
    rw (nothing_to_write k calls (on_frame r (read_frame calls r.rx_buf))) (
      on_frame-Delivers r d rest (read_frame calls r.rx_buf) v
        (read_frame-Reads calls r.rx_buf d rest b.healthy l b.begins))

-- A datagram of the client's engine and the answer of the server's, over an open tunnel whose sockets
-- take what they are given and whose streams arrive, in whatever pieces: the client's relay frames the
-- datagram and learns its sender, the server's relay delivers it to the server's engine, frames the answer,
-- and the client's relay delivers that to the sender.
pub relay-round_trip :
    (c s : Relay) (connects : Bool) (d e rest_up rest_down : List ℕ) (from engine : SocketAddress)
    (sends_up sends_down : List SendCall) (up down : List Recv)
    → c.is_connected ≡ true
    → s.is_connected ≡ true
    → from.is_valid ≡ true
    → s.engine_peer.is_valid ≡ true
    → Takes sends_up d
    → Takes sends_down e
    → Brings s up d rest_up
    → Brings c down e rest_down
    → let c1 = record c { is_connected = true; engine_peer = from } in
      (client_relay_round c connects (incoming d from sends_up)
        ≡ some record { relay = c1; tunnelled = frame_bytes d; delivered = [] })
      × Delivers d s.engine_peer (server_relay_round s (readable up))
      × (server_relay_round s (incoming e engine sends_down)
          ≡ some record {
            relay = record s { is_connected = true };
            tunnelled = frame_bytes e;
            delivered = [];
          })
      × Delivers e from (client_relay_round c1 connects (readable down))
unfolding client_relay_round server_relay_round
relay-round_trip c s connects d e rest_up rest_down from engine sends_up sends_down up down a b v w
      t u x y =
    let c1 = record c { is_connected = true; engine_peer = from } in
    (
      if_elim (λ o. o ≡ some record { relay = c1; tunnelled = frame_bytes d; delivered = [] })
          c.is_connected _ _ (λ _. sends_lem true c d from sends_up a t) λ n. absurd (cc),
      delivers_lem false s d rest_up up w t.small x,
      sends_lem false s e engine sends_down b u,
      delivers_lem true c1 e rest_down down v u.small
          record { healthy = y.healthy; begins = y.begins },
    )
