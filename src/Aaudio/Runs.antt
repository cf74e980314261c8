-- ===== src/Aaudio/Runs.antt =====
-- Tests of src/client/aaudio_player.cpp.
use audio_router.Prelude.{
  zero, suc, ◌+◌, ◌*◌, ◌^◌, ◌<◌, ap, inl, inr, ℕ, ◌≡◌, ◌≢◌, refl, arith, true, false, List, [], ◌∷◌,
  some, replicate,
}
use audio_router.Prelude.Text.{chars, same_text, starts_with}
use audio_router.Prelude.Spacing.{Spaced}
use audio_router.Aaudio.{
  min_rebuild_interval_ms, Player, lowlatency, deep, opened, created, closed, wrote,
  start_requested, parse_mode, mode_named, wants_deep,
}
use audio_router.Aaudio.Stream.{
  Build, built, refused, State, started, disconnected, close_stream, rebuild_stream,
  rebuild_disconnected, open_stream, ensure_started, ensure_on, started_from, recover, escalate,
  gives_up,
}
use audio_router.Aaudio.Pump.{
  Round, Pump, quiet, readable, broken, accepted, error, pump_loop, pump_round, polled, take_bytes,
  deliver, deliver_on, write_to, settle, settle_failure,
}
use audio_router.Aaudio.Streams.{Holds, held, pump_loop-Holds}
use audio_router.Aaudio.Spacing.{rebuilds, pump_loop-Spaced}
use audio_router.Aaudio.Bytes.{Adds, taken, received, pump_loop-Adds}
use audio_router.Aaudio.Falling.{Falling, Stuck}
use audio_router.Aaudio.Falls.{AllStuck, writes, is_idle, pump_loop-gives_up}

deep_mode : parse_mode (chars "aaudio:deep") ≡ deep
unfolding parse_mode mode_named starts_with same_text
deep_mode = refl

unknown_mode : parse_mode (chars "aaudio:loud") ≡ lowlatency
unfolding parse_mode mode_named starts_with same_text
unknown_mode = refl

-- A player that has just been opened, on the stream 1.
abbrev player : Player
player = record {
  is_open = true;
  stream = some 1;
  consecutive_write_failures = 0;
  stall_rebuilds = 0;
  deep_retry = false;
  last_rebuild_ms = 0;
  stream_opened_ms = 4000;
  calls = start_requested 1 ∷ opened 1 false ∷ [];
}

abbrev pump : Pump
pump = record {
  player = player;
  running = true;
  buffer = replicate 8 0;
  residual = 0;
  forwarded = [];
}

-- Two frames of four bytes to a buffer, at 6000 ms or later.
abbrev round : State → (now_ms : ℕ) → List ℕ → Build → Round
round state now_ms bytes b = record {
  stop = false;
  poll = readable;
  bytes = bytes;
  closes_before = false;
  state = state;
  ensure_ms = now_ms;
  ensure_rebuild = b;
  answer = accepted 2;
  closes_in_write = false;
  failure = record { is_disconnected = false; frames_read = 0; now_ms = now_ms; rebuild = b };
  fifo_bytes = 0;
}

-- Six bytes and then five: a frame and a rest, and the next two frames less a byte.
abbrev flowing : List Round
flowing =
    round started 6000 (1 ∷ 2 ∷ 3 ∷ 4 ∷ 5 ∷ 6 ∷ []) refused
    ∷ round started 6020 (7 ∷ 8 ∷ 9 ∷ 10 ∷ 11 ∷ []) refused
    ∷ []

flowed :
    let s = pump_loop lowlatency 4 pump flowing in
    (s.forwarded ≡ 1 ∷ 2 ∷ 3 ∷ 4 ∷ 5 ∷ 6 ∷ 7 ∷ 8 ∷ []) × (s.residual ≡ 3)
unfolding pump_loop pump_round polled take_bytes deliver deliver_on write_to settle settle_failure
    ensure_started ensure_on started_from
flowed = (refl, refl)

-- A stream that is found disconnected is closed and another one opened, and the round then writes to the
-- one that is closed.
abbrev unplugged : List Round
unplugged = round disconnected 6000 (1 ∷ 2 ∷ 3 ∷ 4 ∷ []) (built 2 6001) ∷ []

writes_to_closed_stream :
    (pump_loop lowlatency 4 pump unplugged).player.calls
    ≡ wrote 1 1
      ∷ start_requested 2
      ∷ opened 2 false
      ∷ created 6000
      ∷ closed 1
      ∷ start_requested 1
      ∷ opened 1 false
      ∷ []
unfolding pump_loop pump_round polled take_bytes deliver deliver_on write_to settle settle_failure
    ensure_started ensure_on started_from rebuild_disconnected rebuild_stream close_stream
    open_stream wants_deep
writes_to_closed_stream = refl

-- A rest of two bytes is not moved to the front where the write fails, and the bytes behind it are
-- mixed with the old ones.
abbrev failing_once : List Round
failing_once =
    record (round started 4100 (1 ∷ 2 ∷ 3 ∷ 4 ∷ 5 ∷ 6 ∷ []) refused) { answer = error }
    ∷ round started 4200 (7 ∷ 8 ∷ []) refused
    ∷ []

mixed_rest : (pump_loop lowlatency 4 pump failing_once).forwarded ≡ 1 ∷ 2 ∷ 7 ∷ 8 ∷ []
unfolding pump_loop pump_round polled take_bytes deliver deliver_on write_to settle settle_failure
    ensure_started ensure_on started_from recover escalate gives_up
mixed_rest = refl

pump_loop-Holds_example : Holds (pump_loop lowlatency 4 pump unplugged).player
unfolding held
pump_loop-Holds_example = pump_loop-Holds lowlatency 4 pump unplugged (refl, (refl, tt))

pump_loop-Spaced_example :
    let p = (pump_loop lowlatency 4 pump unplugged).player in
    Spaced min_rebuild_interval_ms p.last_rebuild_ms (rebuilds p.calls)
unfolding rebuilds
pump_loop-Spaced_example =
    pump_loop-Spaced lowlatency 4 5000 pump unplugged (omega arith, omega arith) tt
      (((omega arith, omega arith), (omega arith, omega arith)), tt)

reads_on : readable ≢ broken
reads_on = ground arith

pump_loop-Adds_example :
    Adds 4 2 1
      (taken pump)
      (received lowlatency 4 pump flowing)
      (pump_loop lowlatency 4 pump flowing)
pump_loop-Adds_example =
    pump_loop-Adds lowlatency 4 2 1 pump flowing (omega arith)
      (
        ((refl, refl, refl, tt, omega arith), λ e. reads_on e),
        (((refl, refl, refl, tt, omega arith), λ e. reads_on e), tt),
      )
      (refl, refl, refl, omega arith)

-- Two frames are read and one of them is taken.
abbrev short_round : ℕ → Round
short_round t =
    record (round started (t + 60) (1 ∷ 2 ∷ 3 ∷ 4 ∷ 5 ∷ 6 ∷ 7 ∷ 8 ∷ []) (built 5 (t + 61))) {
      answer = accepted 1;
    }

-- Nothing to read within the timeout
abbrev quiet_round : Round
quiet_round = record (round started 0 [] refused) { poll = quiet }

abbrev falling_rounds : (count t : ℕ) → List Round
falling_rounds zero t = []
falling_rounds (suc n) t = quiet_round ∷ short_round t ∷ falling_rounds n (t + 61)

short : (t : ℕ) → t + 61 < 2 ^ 64 → Stuck 4 2 t (short_round t) 5 (t + 61)
short t l = record {
  runs = refl;
  stays = (refl, refl);
  polls = refl;
  short = (omega arith, omega arith);
  connected = tt;
  fails = record {
    connected = refl;
    later = omega arith;
    rebuilt = refl;
    clock = (omega arith, l);
  };
}

all_short : (n t : ℕ) → t + 61 * n < 2 ^ 64 → AllStuck 4 2 t (falling_rounds n t)
unfolding is_idle
all_short zero t l = tt
all_short (suc n) t l =
    inl (refl, refl, inr (5, t + 61, (short t (omega arith), all_short n (t + 61) (omega arith))))

writes-falling_rounds : (n t : ℕ) → writes (falling_rounds n t) ≡ n
unfolding writes is_idle
writes-falling_rounds zero t = refl
writes-falling_rounds (suc n) t = ap suc (writes-falling_rounds n (t + 61))

falling : Falling (writes (falling_rounds 80 5000)) 5000 player
falling = record {
  opened = refl;
  has_stream = refl;
  few = omega arith;
  stalls = omega arith;
  slow = omega arith;
  order = (omega arith, omega arith);
  near = omega (arith, writes-falling_rounds 80 5000);
}

pump_loop-gives_up_example :
    (pump_loop lowlatency 4 pump (falling_rounds 80 5000)).player.is_open ≡ false
pump_loop-gives_up_example =
    pump_loop-gives_up lowlatency 4 2 5000 pump (falling_rounds 80 5000) (omega arith, omega arith)
      (all_short 80 5000 (omega arith)) (refl, falling, refl, omega arith)
