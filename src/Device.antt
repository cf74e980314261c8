-- ===== src/Device.antt =====
-- src/client/client.cpp: how the client opens its audio device in the background. This file has the
-- shared `DeviceOpenShared` of client.hpp, the attempt threads (`attempt_device_open`) and
-- `AudioRouterClient::stop` as a step relation, a step for each action that another thread can come
-- between; Device/Names has the strategies of a device name, Device/Supervisor the retry loop.
pub mod Exclusive
pub mod Leak
pub mod Names
pub mod Supervisor
pub mod Schedule
mod Runs
use audio_router.Prelude.{ℕ, ◌≡◌, Bool, true, false, Option, none, some, ◌==◌, if◌then◌else◌}

-- What `open->player` may hold: the silent stand-in, or the player of an attempt.
pub data Player : Type 0 where
  placeholder : Player
  device : ℕ → Player

-- Where an attempt thread is. `installed p` has taken the slot from `p` and is to close it.
pub data Phase : Type 0 where
  idle waiting opening opened raced checked superseded reporting finished : Phase
  installed : Option Player → Phase

-- `live d` is `is_open()` of the player of attempt `d`; `stopped` is set when `stop` has closed the
-- player in the slot.
pub record Shared : Type 0 where
  pub shutdown : Bool
  pub pending : Bool
  pub result : Bool
  pub slot : Option Player
  pub live : ℕ → Bool
  pub phase : ℕ → Phase
  pub stopped : Bool

abbrev pub set_at {ℓ} : {A : Type ℓ} → (ℕ → A) → ℕ → A → ℕ → A
set_at f i a j = if j == i then a else f j

-- `open->player && open->player->is_open() && !open->player->is_placeholder()`
abbrev pub plays : Option Player → (ℕ → Bool) → Bool
plays none live = false
plays (some placeholder) live = false
plays (some (device d)) live = live d

-- `close()` of a player, if there is one.
abbrev pub close_player : Option Player → (ℕ → Bool) → ℕ → Bool
close_player none live = live
close_player (some placeholder) live = live
close_player (some (device d)) live = set_at live d false

abbrev pub to_phase : Shared → ℕ → Phase → Shared
to_phase s i p = record s { phase = set_at s.phase i p }

-- `open->player = device`, `open->result = true`, `open->pending = false`, under the mutex.
abbrev pub install : Shared → ℕ → Shared
install s i = record s {
  slot = some (device i);
  result = true;
  pending = false;
  phase = set_at s.phase i (installed s.slot);
}

abbrev pub close_device : Shared → ℕ → Phase → Shared
close_device s i p = record s { live = set_at s.live i false; phase = set_at s.phase i p }

pub data Step (s t : Shared) : Type 0 where
  -- The supervisor starts the thread of attempt `i`.
  spawn : (i : ℕ) → s.phase i ≡ idle → t ≡ to_phase s i waiting → Step s t
  -- The first test of `shutdown`.
  refuse : (i : ℕ) → s.phase i ≡ waiting → s.shutdown ≡ true → t ≡ to_phase s i reporting → Step s t
  begin : (i : ℕ) → s.phase i ≡ waiting → s.shutdown ≡ false → t ≡ to_phase s i opening → Step s t
  -- `open_fn()` returns.
  open_ok :
      (i : ℕ)
      → s.phase i ≡ opening
      → t ≡ record s { live = set_at s.live i true; phase = set_at s.phase i opened }
      → Step s t
  open_fails : (i : ℕ) → s.phase i ≡ opening → t ≡ to_phase s i reporting → Step s t
  -- The second test of `shutdown`, outside the mutex.
  pass : (i : ℕ) → s.phase i ≡ opened → s.shutdown ≡ false → t ≡ to_phase s i checked → Step s t
  race : (i : ℕ) → s.phase i ≡ opened → s.shutdown ≡ true → t ≡ to_phase s i raced → Step s t
  -- The decision under the mutex.
  take_slot :
      (i : ℕ) → s.phase i ≡ checked → plays s.slot s.live ≡ false → t ≡ install s i → Step s t
  supersede :
      (i : ℕ)
      → s.phase i ≡ checked
      → plays s.slot s.live ≡ true
      → t ≡ to_phase s i superseded
      → Step s t
  -- The closes behind it.
  close_superseded : (i : ℕ) → s.phase i ≡ superseded → t ≡ close_device s i reporting → Step s t
  close_raced : (i : ℕ) → s.phase i ≡ raced → t ≡ close_device s i reporting → Step s t
  close_displaced :
      (i : ℕ) (p : Option Player)
      → s.phase i ≡ installed p
      → t ≡ record s { live = close_player p s.live; phase = set_at s.phase i finished }
      → Step s t
  -- The last block, which reports a failure.
  report :
      (i : ℕ)
      → s.phase i ≡ reporting
      → t ≡ record s { result = false; pending = false; phase = set_at s.phase i finished }
      → Step s t
  -- A backend gives up by itself.
  dies : (i : ℕ) → t ≡ record s { live = set_at s.live i false } → Step s t
  -- `stop`: the flag, and later the player in the slot.
  request_stop : t ≡ record s { shutdown = true } → Step s t
  close_slot :
      s.shutdown ≡ true
      → t ≡ record s { live = close_player s.slot s.live; stopped = true }
      → Step s t

pub data Reach (s : Shared) : Shared → Type 0 where
  here : Reach s s
  next : {t u : Shared} → Reach s t → Step t u → Reach s u

-- Before the supervisor starts: `p` is the player that the client was given, if any.
abbrev pub start : Option Player → Shared
start p = record {
  shutdown = false;
  pending = true;
  result = false;
  slot = p;
  live = λ _. false;
  phase = λ _. idle;
  stopped = false;
}
