-- ===== src/Agm.antt =====
-- `AgmFifoPlayer` of src/client/agm_fifo_player.cpp and agm_fifo_player.hpp, built for Android: what it
-- keeps, its constants, and the names of its devices.
pub mod Process
pub mod Recover
pub mod Sink
pub mod Hal
pub mod Header
pub mod Alone
pub mod Session
pub mod Rate
pub mod Silent
pub mod Mono
pub mod Whole
mod Runs
use audio_router.Prelude.{
  ℕ, ◌≡◌, Bool, true, false, List, [], ◌∷◌, ◌++◌, drop, if◌then◌else◌, Option, none, some, length,
  ◌==◌,
}
use audio_router.Prelude.Text.{chars, starts_with}

abbrev pub recovery_reader_timeout_ms : ℕ
recovery_reader_timeout_ms = 8000

abbrev pub stall_trigger_ms : ℕ
stall_trigger_ms = 2500

abbrev pub min_recover_interval_ms : ℕ
min_recover_interval_ms = 3000

abbrev pub session_close_window_ms : ℕ
session_close_window_ms = 2000

-- What the player does to agmplay, which a process id names, and the times of the recoveries.
pub data Event : Type 0 where
  spawned : (pid : ℕ) → Event
  interrupted : (pid : ℕ) → Event
  killed : (pid : ℕ) → Event
  reaped : (pid : ℕ) → Event
  recovery : (now_ms : ℕ) → Event

-- `has_pipe` says that `fifo_fd_` is open; `events` holds what has been done so far, the last thing
-- first.
pub record Player : Type 0 where
  pub is_open : Bool
  pub has_pipe : Bool
  pub agmplay : Option ℕ
  pub stall_start_ms : ℕ  -- uint64_t
  pub last_recover_ms : ℕ  -- uint64_t
  pub recovering : Bool
  pub session_closed : Bool
  pub events : List Event

-- `open` on a device name: "agm", or "agm:" and a backend.
unfoldable pub backend_named : List ℕ → List ℕ
backend_named device_name =
    let rest = drop 4 device_name in
    let default = chars "CODEC_DMA-LPAIF_RXTX-RX-1" in
    if starts_with device_name (chars "agm:")
    then if length rest == 0 then default else rest
    else default

unfoldable pub get_device_name : List ℕ → List ℕ
get_device_name backend = chars "agm:" ++ backend
