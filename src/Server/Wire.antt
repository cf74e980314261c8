-- ===== src/Server/Wire.antt =====
-- The bytes that src/server/server.cpp puts on the network: the packed payload structs of
-- src/common/protocol.hpp behind their header, and the audio packets.
use audio_router.Prelude.{ℕ, List, ◌++◌}
use audio_router.Prelude.Text.{chars, text_field}
use audio_router.Protocol.{AudioPacketHeader}
use audio_router.Protocol.Wire.{le_bytes, header_bytes}
use audio_router.Server.{
  Reason, server_shutdown, graceful, heartbeat_timeout, tunnel_disconnected, Payload,
  discovery_resp_payload, connect_nak_payload, connect_ack_payload, disconnect_payload,
  heartbeat_payload, Datagram,
}
use audio_router.Server.Stream.{AudioPacket}

unfoldable pub reason_text : Reason → List ℕ
reason_text server_shutdown = chars "Server shutdown"
reason_text graceful = chars "Client disconnected gracefully"
reason_text heartbeat_timeout = chars "Heartbeat timeout"
reason_text tunnel_disconnected = chars "USB tunnel disconnected"

abbrev pub server_name : List ℕ
server_name = chars "AudioRouter-PC-Server"

abbrev pub busy_text : List ℕ
busy_text = chars "Server is currently streaming to another client"

abbrev pub connected_text : List ℕ
connected_text = chars "Connected: Audio routed to client"

-- Bytes that a handler does not set are 0: the buffers are zero-initialised.
unfoldable pub payload_bytes : Payload → List ℕ
payload_bytes (discovery_resp_payload version port busy muted) =
    text_field 32 server_name
    ++ (le_bytes 2 version ++ (le_bytes 2 port ++ (le_bytes 1 busy ++ le_bytes 1 muted)))
payload_bytes (connect_nak_payload error_code) = le_bytes 1 error_code ++ text_field 64 busy_text
payload_bytes (connect_ack_payload status rate channels format frames muted) =
    le_bytes 1 status
    ++ (le_bytes 4 rate
        ++ (le_bytes 2 channels
            ++ (le_bytes 1 format
                ++ (le_bytes 2 frames ++ (le_bytes 1 muted ++ text_field 64 connected_text)))))
payload_bytes (disconnect_payload reason_code reason) =
    le_bytes 1 reason_code ++ text_field 64 (reason_text reason)
payload_bytes (heartbeat_payload orig level received lost) =
    le_bytes 8 orig
    ++ (le_bytes 4 level
        ++ (le_bytes 4 received ++ (le_bytes 4 lost ++ (le_bytes 4 0 ++ le_bytes 4 0))))

unfoldable pub datagram_bytes : Datagram → List ℕ
datagram_bytes d = header_bytes d.header ++ payload_bytes d.payload

-- The 12 bytes behind the common header.
unfoldable pub audio_fields : AudioPacketHeader → List ℕ
audio_fields h =
    le_bytes 4 h.sample_rate
    ++ (le_bytes 2 h.channels
        ++ (le_bytes 1 h.format ++ (le_bytes 1 h.reserved ++ le_bytes 4 h.num_frames)))

unfoldable pub packet_bytes : AudioPacket → List ℕ
packet_bytes p = header_bytes p.header.common ++ (audio_fields p.header ++ p.pcm)
