-- ===== src/Aaudio.antt =====
-- `AaudioFifoPlayer` of src/client/aaudio_player.cpp and aaudio_player.hpp, built for Android: what it
-- keeps, its constants, and the playback mode that `open` reads from the device name.
pub mod Stream
pub mod Pump
pub mod Sink
pub mod Kept
pub mod Streams
pub mod Spacing
pub mod Stalls
pub mod Falling
pub mod Falls
pub mod Buffer
pub mod Bytes
mod Runs
use Prim.Native.String.{String}
use audio_router.Prelude.{
  ℕ, ◌≡◌, Bool, true, false, ◌||◌, List, [], ◌∷◌, drop, if◌then◌else◌, Option, none, some, ltb,
  ◌==◌, ◌/◌, ◌*◌,
}
use audio_router.Prelude.Text.{chars, same_text, starts_with}
use audio_router.Config.{AudioConfig, bytes_per_frame}

abbrev pub buffer_capacity_frames : ℕ
buffer_capacity_frames = 1920

abbrev pub min_rebuild_interval_ms : ℕ
min_rebuild_interval_ms = 1000

abbrev pub stall_rebuild_threshold : ℕ
stall_rebuild_threshold = 20

abbrev pub max_stall_rebuilds : ℕ
max_stall_rebuilds = 3

abbrev pub never_render_threshold_ms : ℕ
never_render_threshold_ms = 1500

-- A call of libaaudio that opens, starts, feeds or closes a stream, which its handle names: the times
-- of `created` are those of the test in front of a rebuild, `deep` stands for the performance mode.
pub data Call : Type 0 where
  created : (rebuild_ms : ℕ) → Call
  opened : (stream : ℕ) → (deep : Bool) → Call
  start_requested : (stream : ℕ) → Call
  wrote : (stream : ℕ) → (frames : ℕ) → Call
  closed : (stream : ℕ) → Call

-- `calls` is what the player has called so far, the last call first.
pub record Player : Type 0 where
  pub is_open : Bool
  pub stream : Option ℕ
  pub consecutive_write_failures : ℕ
  pub stall_rebuilds : ℕ
  pub deep_retry : Bool
  pub last_rebuild_ms : ℕ  -- uint64_t
  pub stream_opened_ms : ℕ  -- uint64_t
  pub calls : List Call

-- `mode_`
pub data Mode : Type 0 where
  lowlatency deep voip : Mode

-- `open` on a device name: "aaudio", or "aaudio:" and a mode.
unfoldable pub mode_named : List ℕ → Mode
mode_named mode =
    if same_text mode (chars "deep")
    then deep
    else if same_text mode (chars "voip")
    then voip
    else lowlatency

unfoldable pub parse_mode : List ℕ → Mode
parse_mode device_name =
    if starts_with device_name (chars "aaudio:")
    then mode_named (drop 7 device_name)
    else lowlatency

abbrev pub is_deep : Mode → Bool
is_deep deep = true
is_deep _ = false

-- `configure_builder`: whether the stream takes the deep buffer, and the capacity it is bounded to.
unfoldable pub wants_deep : Mode → Player → Bool
wants_deep mode p = p.deep_retry || is_deep mode

unfoldable pub capacity : Mode → Player → Option ℕ
unfolding wants_deep
capacity mode p = if wants_deep mode p then none else some buffer_capacity_frames

-- `open` on the configuration: defaults where the server sent none.
unfoldable pub configured : AudioConfig → AudioConfig
configured c =
    let rate = if c.sample_rate == 0 then 48000 else c.sample_rate in
    let channels = if c.channels == 0 then 2 else c.channels in
    record c { sample_rate = rate; channels = channels }

-- The frames of a round of `pump_loop`: 20 ms, and one at least.
unfoldable pub chunk_frames : AudioConfig → ℕ
chunk_frames c = if ltb 0 (c.sample_rate / 50) then c.sample_rate / 50 else 1
