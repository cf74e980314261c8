-- ===== src/Lib.antt =====
-- AudioRouter: a PC server captures sound and streams it over UDP to a phone, which buffers and
-- plays it. This library models the protocol, the server's session and packetizer, the client
-- with the opening of its audio device, the buffers between them, and the parts of four audio
-- backends.
--
-- The parts and their files (paths from the repository's root):
--
-- - Protocol (src/common/protocol.hpp): the packet headers as records, `is_valid_header`,
--   `validate_header`, `validate_audio_header` and `make_header`. Protocol/Wire has the packed
--   bytes, `parse_header` and `payload_span`.
-- - Config (src/common/audio_types.hpp): `AudioConfig`, its sizes in bytes and its validation;
--   Config/Convert has the conversions and the downmix of `AudioConverter`.
-- - Ring (src/common/ring_buffer.hpp): `RingBuffer<T>`; each method holds the mutex and is one
--   step on a record. Ring/Contents is the abstract queue that the theorems of Ring/Write,
--   Ring/Read, Ring/Pad, Ring/Overwrite and Ring/Resize speak of.
-- - Jitter (src/client/jitter_buffer.hpp and .cpp): the state, `configure`, `reset` and
--   `available_frames`; `push_packet` in Jitter/Push and `pop_frames` with
--   `advance_playhead_locked` in Jitter/Pop, each in the order of the source. The 256 slots are
--   a function of the index.
-- - Tunnel (src/common/usb_tunnel.hpp): `read_frame` and `write_frame` against a list of what
--   the calls of the non-blocking socket return. Tunnel/Relay has a round of the relays of
--   src/client/client.cpp and src/server/server.cpp, Tunnel/Delivers a datagram through both.
-- - Endpoint (src/server/audio_endpoint_control.cpp): the speaker, as built on Windows, with an
--   endpoint that `init` has found, and off it.
-- - Net (src/common/socket_util.cpp): `pick_physical_interface`.
-- - Server (src/server/server.hpp and server.cpp): the session as a record, one function for
--   each handler, `receive` for a round of the receive thread, `watchdog` for a round of the
--   watchdog, `step` for one event, and `stop`. Server/Stream has `on_audio_captured`. A step
--   returns the datagrams that it sends.
-- - Client (src/client/client.hpp and client.cpp): `receive` for a round of the receive thread,
--   which validates with Protocol and pushes into Jitter, and `perform_handshake`.
--   Client/Requests has the bytes of the datagrams that it sends, Client/Discovery
--   `discover_server`, Client/Playback a round of the playback thread, which pops from Jitter,
--   Client/Start `start` up to the worker threads, and Client/Watch the reconnect test of the
--   heartbeat thread.
-- - Client/Args (src/client/main.cpp): the loop over the client's command line, with the number
--   readers of the C++ library as parameters.
-- - Device (src/client/client.cpp, src/client/client.hpp): the opening of the audio device in
--   the background. The attempt threads and `stop` are a step relation on the shared
--   `DeviceOpenShared`, with a step for each action that another thread can come between;
--   Device/Names has the strategies of a device name and Device/Supervisor the retry loop.
-- - Pulse (src/client/pulse_player.hpp and .cpp): the device names in Pulse/Spec, the buffer
--   sizes in Pulse/Attr and `write_frames` with its reconnections in Pulse/Writer.
-- - Termux (src/client/termux_api_player.hpp and .cpp): the recording into files and their
--   handover in Termux/Segment, the WAV header in Termux/Wav, the sizes of a file in
--   Termux/Sizes, the sample conversion in Termux/Convert, and the issuer thread and the
--   watchdog in Termux/Issuer.
-- - Aaudio (src/client/aaudio_player.hpp and .cpp): the playback modes and constants in Aaudio,
--   the stream of libaaudio in Aaudio/Stream, the rounds of `pump_loop` in Aaudio/Pump, which a
--   concurrent `close` may come between, and `write_frames` in Aaudio/Sink. Aaudio/Kept carries
--   a property of the player through the loop.
-- - Agm (src/client/agm_fifo_player.hpp and .cpp): the process of agmplay in Agm/Process,
--   `recover` and the look at the mixer in Agm/Recover, `write_frames` in Agm/Sink, the restart
--   of the audio service in Agm/Hal and the header in Agm/Header. Agm/Session has the calls of a
--   session.
-- - Link: the client and the server together. Server/Wire has the bytes of the server's
--   datagrams; Link takes them, and the client's, through the other side's receive loop.
-- - Prelude: shared names, lists, Boolean tests and machine words. A `Runs` module beside a part
--   has its tests.
--
-- Conventions: machine words are native numbers with their wrap-around written out; `none` is a
-- read past the end of the data, or a loop that its fuel does not finish; clock readings, the
-- answers of the capture engine and of the sockets are arguments; floating-point values are a
-- type with its operations as a parameter, since no decision modelled depends on them.
--
-- Fuel: the drain of `pop_frames` is given 257 rounds, one for each slot and one to stop, and
-- its copying loop one round for each frame; the packetizer is given a round for each buffered
-- byte and one for the last test; the supervisor of the device is given a round for each attempt
-- up to one that ends it, and for each strategy. The theorems show that this is enough. All
-- other loops are recursion on lists or on the number of attempts.
--
-- Not modelled: the audio backends of the client besides what Pulse, Termux, Aaudio and Agm
-- have, and the capture engines, which are system calls; sockets and threads, and the
-- interleaving of threads besides Device and a `close` beside the rounds of Aaudio and Agm; the
-- draining of stale sound from the pipe of Aaudio, the process of logcat and the log that Agm
-- reads; `start` of the server, the rooted paths of the client's `start`, the server's command
-- line; log lines; the volume of `AudioConverter`; the search for the endpoint on Windows, and
-- failures of its calls; the commands of the Termux player to its app.
pub mod Prelude
pub mod Protocol
pub mod Config
pub mod Ring
pub mod Jitter
pub mod Tunnel
pub mod Endpoint
pub mod Net
pub mod Server
pub mod Client
pub mod Device
pub mod Pulse
pub mod Termux
pub mod Aaudio
pub mod Agm
pub mod Link
