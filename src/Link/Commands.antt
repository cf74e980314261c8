-- ===== src/Link/Commands.antt =====
-- The client's commands for the PC's speaker, and its leave-taking (src/client/client.cpp), carried out by
-- the server (src/server/server.cpp).
use audio_router.Prelude.{ℕ, ◌^◌, ◌<◌, ◌≡◌, refl, ap, ◌∙◌, arith, Bool, true, false, List, [], ◌++◌}
use audio_router.Protocol.{control_cmd}
use audio_router.Protocol.Wire.{le_bytes, le_value-le_bytes_4}
use audio_router.Endpoint.{Floats, set_mute, set_volume}
use audio_router.Server.{
  Server, SocketAddress, Readings, same_address, apply_cmd, handle_control_cmd, dispatch, receive,
}
use audio_router.Client.Requests.{command, mute_command, volume_command}
use audio_router.Link.Requests.{receive-request}

abbrev command_payload : (cmd_id param_bits : ℕ) → List ℕ
command_payload cmd_id param_bits = le_bytes 1 cmd_id ++ (le_bytes 4 param_bits ++ le_bytes 4 0)

module _ {V : Type 0} where
  receive-command :
      (f : Floats V) (s : Server V) (cmd_id param_bits now_us : ℕ) (sender : SocketAddress)
      (r : Readings)
      → now_us < 2 ^ 64
      → same_address sender s.active_client ≡ true
      → receive f s (command cmd_id param_bits now_us) sender r ≡ (
        record s {
          endpoint_control = apply_cmd f (command_payload cmd_id param_bits) s.endpoint_control;
        },
        [],
      )
  unfolding command dispatch handle_control_cmd
  receive-command f s cmd_id param_bits now_us sender r t a =
      receive-request f s control_cmd now_us 9 (command_payload cmd_id param_bits) sender r t
        (omega arith) refl
      ∙ rw a refl

  -- The command to mute or unmute the PC, received from the active client, sets the endpoint's mute to
  -- just that, changes nothing else of the server and is not answered.
  pub receive-mute_command :
      (f : Floats V) (s : Server V) (mute : Bool) (now_us : ℕ) (sender : SocketAddress)
      (r : Readings)
      → now_us < 2 ^ 64
      → same_address sender s.active_client ≡ true
      → receive f s (mute_command mute now_us) sender r
        ≡ (record s { endpoint_control = set_mute mute s.endpoint_control }, [])
  unfolding mute_command apply_cmd
  receive-mute_command f s true now_us sender r t a = receive-command f s 1 0 now_us sender r t a
  receive-mute_command f s false now_us sender r t a = receive-command f s 2 0 now_us sender r t a

  -- The volume command, received from the active client, sets the endpoint to the volume whose bits
  -- the client sent, clamped as `set_volume` does, and changes nothing else and is not answered.
  pub receive-volume_command :
      (f : Floats V) (s : Server V) (volume_bits now_us : ℕ) (sender : SocketAddress) (r : Readings)
      → now_us < 2 ^ 64
      → volume_bits < 2 ^ 32
      → same_address sender s.active_client ≡ true
      → receive f s (volume_command volume_bits now_us) sender r ≡ (
        record s { endpoint_control = set_volume f (f.of_bits volume_bits) s.endpoint_control },
        [],
      )
  unfolding volume_command apply_cmd
  receive-volume_command f s volume_bits now_us sender r t w a =
      receive-command f s 3 volume_bits now_us sender r t a
      ∙ ap
          (λ k. (record s { endpoint_control = set_volume f (f.of_bits k) s.endpoint_control }, []))
          (le_value-le_bytes_4 volume_bits w)
