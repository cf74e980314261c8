-- ===== src/Termux.antt =====
-- src/client/termux_api_player.hpp and termux_api_player.cpp: what the Termux player records. It writes
-- the stream into files, each with a WAV header for its whole length, and hands every file once to the
-- thread that asks the Termux app to play it.
pub mod Wav
pub mod Sizes
pub mod Segment
pub mod Handed
pub mod Convert
pub mod Issuer
mod Runs
