-- ===== src/Link/Requests.antt =====
-- The client's datagrams (src/client/client.cpp) in the server's receive loop (src/server/server.cpp).
use audio_router.Prelude.{ℕ, ◌^◌, ◌<◌, ◌≤◌, ◌≡◌, arith, true, List, some, length, drop}
use mathlib.Core.Path.{subst}
use audio_router.Protocol.{
  CommonHeader, MsgType, of_uint8, make_header, is_valid_header, max_udp_packet_size,
}
use audio_router.Protocol.Valid.{of_uint8-to_uint8}
use audio_router.Protocol.Wire.{header_of_bytes, drop-header_bytes}
use audio_router.Endpoint.{Floats}
use audio_router.Server.{Server, SocketAddress, Readings, dispatch, receive}
use audio_router.Client.Requests.{request}
use audio_router.Link.Replies.{header_of_bytes-made}

module _ {V : Type 0} where
  receive_lem :
      (f : Floats V) (s : Server V) (buf payload : List ℕ) (h : CommonHeader) (type : MsgType)
      (sender : SocketAddress) (r : Readings)
      → header_of_bytes buf ≡ h
      → 24 ≤ length buf
      → is_valid_header (header_of_bytes buf) (length buf) ≡ true
      → of_uint8 h.msg_type ≡ some type
      → drop 24 buf ≡ payload
      → receive f s buf sender r ≡ dispatch f s (some type) h payload sender r
  unfolding receive
  receive_lem f s buf payload h type sender r e l v m d =
      let v1 = subst (λ k. is_valid_header k (length buf) ≡ true) e v in
      rw (e, d, v1, m) (ground arith)

  -- A request of the client with a payload of as many bytes as its header says reaches the handler of
  -- its type, with that header and that payload.
  pub receive-request :
      (f : Floats V) (s : Server V) (type : MsgType) (now_us size : ℕ) (payload : List ℕ)
      (sender : SocketAddress) (r : Readings)
      → now_us < 2 ^ 64
      → size ≤ max_udp_packet_size
      → length payload ≡ size
      → receive f s (request type now_us size payload) sender r
        ≡ dispatch f s (some type) (make_header type 0 now_us size 0) payload sender r
  unfolding request make_header
  receive-request f s type now_us size payload sender r t l e =
      let (h, n, v) = header_of_bytes-made type 0 now_us size payload (omega arith) t l e in
      receive_lem f s (request type now_us size payload) payload (make_header type 0 now_us size 0)
        type sender r h (omega arith) v ((of_uint8-to_uint8 type).0)
        (drop-header_bytes (make_header type 0 now_us size 0) payload)
