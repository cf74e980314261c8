-- ===== src/Pulse.antt =====
-- src/client/pulse_player.hpp and pulse_player.cpp: what the PulseAudio backend decides by itself: its
-- device names, its buffer sizes, and its writes with their reconnections.
pub mod Attr
pub mod Spec
pub mod Parsed
pub mod Writer
mod Runs
