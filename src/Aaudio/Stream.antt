-- ===== src/Aaudio/Stream.antt =====
-- The stream of `AaudioFifoPlayer`, src/client/aaudio_player.cpp: how it is opened, started, rebuilt and
-- closed, and what the pump does behind a write. The answers of libaaudio and the clock are arguments.
use audio_router.Prelude.{
  ℕ, ◌+◌, max, Bool, true, false, not, ◌&&◌, ◌∷◌, ltb, leb, ◌==◌, if◌then◌else◌, Option, none, some,
}
use audio_router.Prelude.Word.{sub64}
use audio_router.Aaudio.{
  Player, Mode, created, opened, start_requested, closed, wants_deep, max_stall_rebuilds,
  min_rebuild_interval_ms, stall_rebuild_threshold, never_render_threshold_ms,
}

-- What `AAudioStreamBuilder_openStream` answers, and the clock behind it.
pub data Build : Type 0 where
  no_builder refused : Build
  built : (stream : ℕ) → (opened_ms : ℕ) → Build

-- `AAudioStream_getState`
pub data State : Type 0 where
  disconnected started starting stopped : State

abbrev pub is_some : Option ℕ → Bool
is_some none = false
is_some (some _) = true

unfoldable pub close_stream : Player → Player
close_stream p = elim p.stream [
  | none ↦ p
  | some h ↦ record p { stream = none; calls = closed h ∷ p.calls }
]

-- What follows `AAudio_createStreamBuilder`, without a stream.
unfoldable pub open_stream : Mode → Build → Player → Player
unfolding wants_deep
open_stream mode no_builder p = p
open_stream mode refused p = p
open_stream mode (built h opened_ms) p = record p {
  stream = some h;
  stream_opened_ms = opened_ms;
  calls = start_requested h ∷ opened h (wants_deep mode p) ∷ p.calls;
}

unfoldable pub rebuild_stream : Mode → Build → Player → Player
unfolding close_stream open_stream
rebuild_stream mode b p =
    let q = close_stream p in
    open_stream mode b
      (record q { consecutive_write_failures = 0; calls = created q.last_rebuild_ms ∷ q.calls })

-- `now_ms - last_rebuild_ms_ >= kMinRebuildIntervalMs`
abbrev pub may_rebuild : ℕ → Player → Bool
may_rebuild now_ms p = leb min_rebuild_interval_ms (sub64 now_ms p.last_rebuild_ms)

unfoldable pub rebuild_disconnected : Mode → (now_ms : ℕ) → Build → Player → Player
unfolding rebuild_stream
rebuild_disconnected mode now_ms b p =
    if may_rebuild now_ms p
    then rebuild_stream mode b (record p { last_rebuild_ms = now_ms })
    else p

-- `ensure_stream_started_locked` on the stream `h` in a state. It returns whether there is a stream
-- afterwards.
unfoldable pub started_from : Mode → (h now_ms : ℕ) → Build → Player → State → Player
started_from mode h now_ms b p disconnected = rebuild_disconnected mode now_ms b p
started_from mode h now_ms b p started = p
started_from mode h now_ms b p starting = p
started_from mode h now_ms b p stopped = record p { calls = start_requested h ∷ p.calls }

unfoldable pub ensure_on : Mode → State → (now_ms : ℕ) → Build → Player → Option ℕ → Player
unfolding started_from
ensure_on mode s now_ms b p none = p
ensure_on mode s now_ms b p (some h) = started_from mode h now_ms b p s

unfoldable pub ensure_started : Mode → State → (now_ms : ℕ) → Build → Player → Player
unfolding ensure_on
ensure_started mode s now_ms b p = ensure_on mode s now_ms b p p.stream

-- A write that failed or fell short, as the pump sees it: whether the stream is disconnected, the
-- frames that it has ever consumed, the clock, and what a rebuild answers.
pub record Failure : Type 0 where
  pub is_disconnected : Bool
  pub frames_read : ℕ
  pub now_ms : ℕ  -- uint64_t
  pub rebuild : Build

-- A stream that never consumed a frame is taken for stalled at once.
unfoldable pub escalate : Failure → Player → Player
escalate f p =
    if not f.is_disconnected
      && f.frames_read == 0
      && leb never_render_threshold_ms (sub64 f.now_ms p.stream_opened_ms)
    then record p {
      deep_retry = true;
      consecutive_write_failures = max p.consecutive_write_failures stall_rebuild_threshold;
    }
    else p

-- The fourth stall is the last.
unfoldable pub gives_up : Failure → Player → Bool
gives_up f p =
    not f.is_disconnected
    && leb stall_rebuild_threshold p.consecutive_write_failures
    && may_rebuild f.now_ms p
    && ltb max_stall_rebuilds (p.stall_rebuilds + 1)

unfoldable pub give_up : Player → Player
unfolding close_stream
give_up p = record (close_stream p) { is_open = false }

-- The stall is counted; the second one asks for the deep buffer.
unfoldable pub count_stall : (now_ms : ℕ) → Player → Player
count_stall now_ms p =
    let stalls = p.stall_rebuilds + 1 in
    record p {
      last_rebuild_ms = now_ms;
      stall_rebuilds = stalls;
      deep_retry = if ltb 1 stalls then true else p.deep_retry;
    }

unfoldable pub rebuild_stalled : Mode → Failure → Player → Player
unfolding give_up rebuild_stream count_stall
rebuild_stalled mode f p =
    let q = count_stall f.now_ms p in
    if ltb max_stall_rebuilds q.stall_rebuilds then give_up q else rebuild_stream mode f.rebuild q

-- The pump behind such a write on the stream `h`, under the lock and while the player has a stream.
unfoldable pub recover : Mode → (h : ℕ) → Failure → Player → Player
unfolding escalate rebuild_disconnected rebuild_stalled
recover mode h f p =
    let q = escalate f p in
    if f.is_disconnected
    then rebuild_disconnected mode f.now_ms f.rebuild q
    else if leb stall_rebuild_threshold q.consecutive_write_failures
    then if may_rebuild f.now_ms q then rebuild_stalled mode f q else q
    else record q { calls = start_requested h ∷ q.calls }

-- `close`, behind the pump
unfoldable pub close : Player → Player
unfolding close_stream
close p = record (close_stream p) { is_open = false }

-- `open`: whether the pipe can be made, and what libaaudio answers. The player is open afterwards where
-- `open` returns true.
unfoldable pub open_player : Mode → (has_fifo : Bool) → Build → Player → Player
unfolding close open_stream
open_player mode has_fifo b p =
    let q = if p.is_open then close p else p in
    let fresh = record q {
      consecutive_write_failures = 0;
      stall_rebuilds = 0;
      deep_retry = false;
    } in
    let r = open_stream mode b fresh in
    if has_fifo then record r { is_open = is_some r.stream } else fresh
