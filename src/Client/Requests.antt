-- ===== src/Client/Requests.antt =====
-- The datagrams that `AudioRouterClient` puts on the network (src/client/client.cpp): each routine
-- fills a zero-initialised buffer with a header and a packed payload.
use audio_router.Prelude.{ℕ, Bool, List, ◌++◌, if◌then◌else◌}
use audio_router.Prelude.Text.{chars, text_field}
use audio_router.Prelude.Word.{u16, u32}
use audio_router.Protocol.{
  MsgType, make_header, current_version, pcm_s16le_byte, discovery_req, connect_req, disconnect_req,
  heartbeat_ping, control_cmd,
}
use audio_router.Protocol.Wire.{le_bytes, header_bytes}

-- A header with no flags and the sequence number 0, and the payload behind it.
unfoldable pub request : MsgType → (now_us size : ℕ) → List ℕ → List ℕ
request type now_us size payload = header_bytes (make_header type 0 now_us size 0) ++ payload

-- `disc_buf` of `discover_server`.
unfoldable pub discovery_request : ℕ → List ℕ
discovery_request now_us =
    request discovery_req now_us 34
      (text_field 32 (chars "AudioRouter-Android") ++ le_bytes 2 current_version)

-- `req_buf` of `perform_handshake`.
unfoldable pub connect_request : (now_us target_latency_ms : ℕ) → List ℕ
connect_request now_us target_latency_ms = request connect_req now_us 41 (
    text_field 32 (chars "AudioRouter-Android-Termux")
    ++ (le_bytes 4 48000
        ++ (le_bytes 2 2 ++ (le_bytes 1 pcm_s16le_byte ++ le_bytes 2 (u16 target_latency_ms)))))

-- `dis_buf` of `stop`.
unfoldable pub disconnect_request : ℕ → List ℕ
disconnect_request now_us =
    request disconnect_req now_us 65 (le_bytes 1 0 ++ text_field 64 (chars "Client closed"))

-- The counters that a ping carries, each cast to `uint32_t`.
pub record PingStats : Type 0 where
  pub available_frames : ℕ
  pub packets_received : ℕ
  pub packets_lost : ℕ
  pub underruns : ℕ
  pub overruns : ℕ

unfoldable pub ping_payload : PingStats → ℕ → List ℕ
ping_payload st orig_us =
    le_bytes 8 orig_us
    ++ (le_bytes 4 (u32 st.available_frames)
        ++ (le_bytes 4 (u32 st.packets_received)
            ++ (le_bytes 4 (u32 st.packets_lost)
                ++ (le_bytes 4 (u32 st.underruns) ++ le_bytes 4 (u32 st.overruns)))))

-- `ping_buf` of `heartbeat_thread`: the clock is read for the header and again for the payload.
unfoldable pub ping : PingStats → (now_us orig_us : ℕ) → List ℕ
ping st now_us orig_us = request heartbeat_ping now_us 28 (ping_payload st orig_us)

-- `cmd_buf`: the command, a float by its bits, and an integer.
unfoldable pub command : (cmd_id param_bits now_us : ℕ) → List ℕ
command cmd_id param_bits now_us =
    request control_cmd now_us 9 (le_bytes 1 cmd_id ++ (le_bytes 4 param_bits ++ le_bytes 4 0))

-- The buffer of `send_pc_mute_command`; the bits of `0.0f` are 0.
unfoldable pub mute_command : Bool → ℕ → List ℕ
mute_command mute now_us = command (if mute then 1 else 2) 0 now_us

-- The buffer of `send_pc_volume_command`.
unfoldable pub volume_command : (volume_bits now_us : ℕ) → List ℕ
volume_command volume_bits now_us = command 3 volume_bits now_us
