-- ===== src/Link/Replies.antt =====
-- The server's datagrams are accepted by the validation of the protocol.
use audio_router.Prelude.{
  ℕ, ◌+◌, ◌^◌, ◌<◌, ◌≤◌, ◌≡◌, refl, ap, ◌∙◌, arith, true, List, ◌++◌, length, length-append,
}
use audio_router.Protocol.{
  MsgType, discovery_req, discovery_resp, connect_req, connect_ack, connect_nak, disconnect_req,
  disconnect_ack, audio_data, heartbeat_ping, heartbeat_pong, control_cmd, to_uint8, make_header,
  is_valid_header, max_udp_packet_size,
}
use audio_router.Protocol.Valid.{make_header-Acceptable}
use audio_router.Protocol.Wire.{
  header_bytes, header_of_bytes, Fits, header_of_bytes-header_bytes, length-header_bytes,
}
use audio_router.Server.{
  server_shutdown, graceful, heartbeat_timeout, tunnel_disconnected, Payload,
  discovery_resp_payload, connect_nak_payload, connect_ack_payload, disconnect_payload,
  heartbeat_payload, payload_size_of,
}
use audio_router.Server.Wire.{reason_text, payload_bytes}

-- The bytes of a payload are as many as its struct has.
pub length-payload_bytes : (p : Payload) → length (payload_bytes p) ≡ payload_size_of p
unfolding payload_bytes payload_size_of reason_text
length-payload_bytes (discovery_resp_payload a b c d) = refl
length-payload_bytes (connect_nak_payload a) = refl
length-payload_bytes (connect_ack_payload a b c d e f) = refl
length-payload_bytes (disconnect_payload a server_shutdown) = refl
length-payload_bytes (disconnect_payload a graceful) = refl
length-payload_bytes (disconnect_payload a heartbeat_timeout) = refl
length-payload_bytes (disconnect_payload a tunnel_disconnected) = refl
length-payload_bytes (heartbeat_payload a b c d) = refl

pub make_header-Fits :
    (type : MsgType) (seq ts_us size flag_bits : ℕ)
    → seq < 2 ^ 32
    → ts_us < 2 ^ 64
    → size < 2 ^ 32
    → flag_bits < 2 ^ 16
    → Fits (make_header type seq ts_us size flag_bits)
unfolding make_header
make_header-Fits type seq ts_us size flag_bits a b c d = record {
  magic = omega arith;
  version = omega arith;
  msg_type = msg_type_small type;
  flags = d;
  seq_num = a;
  timestamp_us = b;
  payload_size = c;
}
  where
    msg_type_small : (t : MsgType) → to_uint8 t < 2 ^ 8
    msg_type_small discovery_req = omega arith
    msg_type_small discovery_resp = omega arith
    msg_type_small connect_req = omega arith
    msg_type_small connect_ack = omega arith
    msg_type_small connect_nak = omega arith
    msg_type_small disconnect_req = omega arith
    msg_type_small disconnect_ack = omega arith
    msg_type_small audio_data = omega arith
    msg_type_small heartbeat_ping = omega arith
    msg_type_small heartbeat_pong = omega arith
    msg_type_small control_cmd = omega arith

-- Any bytes behind a header from `make_header` that are as many as it says: the header is read back
-- and is valid.
pub header_of_bytes-made :
    (type : MsgType) (seq ts_us size : ℕ) (rest : List ℕ)
    → seq < 2 ^ 32
    → ts_us < 2 ^ 64
    → size ≤ max_udp_packet_size
    → length rest ≡ size
    → let buf = header_bytes (make_header type seq ts_us size 0) ++ rest in
      (header_of_bytes buf ≡ make_header type seq ts_us size 0)
      × (length buf ≡ 24 + size)
      × (is_valid_header (header_of_bytes buf) (length buf) ≡ true)
header_of_bytes-made type seq ts_us size rest a b c e =
    let h = make_header type seq ts_us size 0 in
    let n : length (header_bytes h ++ rest) ≡ 24 + size =
      length-append (header_bytes h) rest
      ∙ ap (λ k. k + length rest) (length-header_bytes h)
      ∙ ap (λ k. 24 + k) e in
    let p =
      header_of_bytes-header_bytes h rest
        (make_header-Fits type seq ts_us size 0 a b (omega arith) (omega arith)) in
    (p, n, rw (p, n) (make_header-Acceptable type seq ts_us size 0 c (omega arith)))
