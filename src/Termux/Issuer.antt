-- ===== src/Termux/Issuer.antt =====
-- The issuer thread, the watchdog and `close` of src/client/termux_api_player.cpp. What the commands to
-- the Termux app answer, and the clock, are arguments; the estimate of the latency is left out, since
-- nothing here depends on it.
use audio_router.Prelude.{
  ℕ, ◌+◌, ◌%◌, ◌≤◌, ◌<◌, ◌≡◌, ◌≢◌, arith, Bool, false, not, ◌||◌, Option, none, some, ltb, leb,
  ◌==◌, if◌then◌else◌,
}
use audio_router.Prelude.Word.{sub64}
use audio_router.Termux.Segment.{PendingSegment, Recorder, restart}

-- `kPoolSize`: the files of the recording are used in turn.
abbrev pub pool_size : ℕ
pool_size = 4

abbrev pub slot : ℕ → ℕ
slot seg_index = seg_index % pool_size

-- `MediaCommandOutcome`
pub record Outcome : Type 0 where
  pub delivered : Bool
  pub result_received : Bool

-- `prev` is the index of the file whose playing was confirmed last.
pub record Issuer : Type 0 where
  pub recorder : Recorder
  pub issued_frames : ℕ
  pub issue_wall_ms : ℕ  -- uint64_t
  pub result_channel : Bool
  pub consecutive_no_result : ℕ
  pub prev : Option ℕ
  pub last_recover_ms : ℕ  -- uint64_t

-- The player, and the file that was emptied.
pub record Issued : Type 0 where
  pub after : Issuer
  pub truncated : Option ℕ

abbrev pub old_file : Option ℕ → (seg_index : ℕ) → Option ℕ
old_file none j = none
old_file (some i) j = if slot i == slot j then none else some i

-- Behind a command that was delivered: with the app's own confirmation the file before is emptied; two
-- commands in a row without one end the use of the channel for results.
unfoldable pub on_delivered : PendingSegment → (now_ms : ℕ) → Outcome → Issuer → Issued
on_delivered job now_ms out s =
    let noted = record s { issue_wall_ms = now_ms; issued_frames = job.frames } in
    let misses = s.consecutive_no_result + 1 in
    if out.result_received
    then record {
      after = record noted { prev = some job.seg_index; consecutive_no_result = 0 };
      truncated = old_file s.prev job.seg_index;
    }
    else record {
      after = record noted {
        consecutive_no_result = misses;
        result_channel = if leb 2 misses then false else s.result_channel;
      };
      truncated = none;
    }

unfoldable pub issue_job : PendingSegment → (now_ms discard_ms : ℕ) → Outcome → Issuer → Issued
unfolding on_delivered
issue_job job now_ms discard_ms out s =
    let failed = record s { recorder = restart s.recorder discard_ms } in
    if out.delivered
    then on_delivered job now_ms out s
    else record { after = failed; truncated = none }

abbrev pub idle : Issuer → Issued
idle s = record { after = s; truncated = none }

-- `issuer_loop` takes the job first. While the command runs, the recording goes on: `recorded` is the
-- recorder behind it.
unfoldable pub issue_pending :
    Option PendingSegment → Recorder → (now_ms discard_ms : ℕ) → Outcome → Issuer → Issued
unfolding issue_job
issue_pending none recorded now_ms discard_ms out s = idle s
issue_pending (some job) recorded now_ms discard_ms out s =
    issue_job job now_ms discard_ms out (record s { recorder = recorded })

unfoldable pub issuer_round : Recorder → (now_ms discard_ms : ℕ) → Outcome → Issuer → Issued
unfolding issue_pending
issuer_round recorded now_ms discard_ms out s =
    issue_pending s.recorder.pending recorded now_ms discard_ms out s

-- What the app says of its player.
pub data Info : Type 0 where
  paused no_track playing : Info

-- A round of `watchdog_loop`: a paused player is resumed, and where nothing plays the recording starts
-- again at live sound, once in three seconds.
unfoldable pub on_info : Info → (now_ms discard_ms : ℕ) → Issuer → Issuer
on_info paused now_ms discard_ms s = s
on_info playing now_ms discard_ms s = s
on_info no_track now_ms discard_ms s =
    if ltb (sub64 now_ms s.last_recover_ms) 3000
    then s
    else record s { last_recover_ms = now_ms; recorder = restart s.recorder discard_ms }

unfoldable pub watchdog_round : Outcome → Info → (now_ms discard_ms : ℕ) → Issuer → Issuer
unfolding on_info
watchdog_round out info now_ms discard_ms s =
    if not s.recorder.is_open
    then s
    else if not s.result_channel || s.issued_frames == 0
    then s
    else if not out.delivered || not out.result_received
    then s
    else on_info info now_ms discard_ms s

-- `close`, behind the threads, and whether it asks the app to stop.
pub record Closed : Type 0 where
  pub after : Issuer
  pub stops : Bool

unfoldable pub close : Issuer → Closed
close s =
    let r = record s.recorder {
      is_open = false;
      has_file = false;
      seg_frames = 0;
      pending = none;
    } in
    if not s.recorder.is_open then record { after = s; stops = false } else record {
      after = record s { recorder = r; issued_frames = 0; issue_wall_ms = 0 };
      stops = ltb 0 s.issued_frames;
    }

-- The confirmed file is older than the waiting one, and the recording is less than a round of the pool
-- ahead of it.
abbrev pub IsClose : Option ℕ → (seg_index recording : ℕ) → Type 0
IsClose none j r = Unit {0}
IsClose (some i) j r = (i ≤ j) × (j ≤ r) × (r < i + pool_size)

-- A file is neither the one that the app plays nor the one that is being recorded.
abbrev pub IsSpare : Option ℕ → (seg_index recording : ℕ) → Type 0
IsSpare none j r = Unit {0}
IsSpare (some i) j r = (slot i ≢ slot j) × (slot i ≢ slot r)

old_file-IsSpare : (prev : Option ℕ) (j r : ℕ) → IsClose prev j r → IsSpare (old_file prev j) j r
old_file-IsSpare none j r c = tt
old_file-IsSpare (some i) j r c = ground arith

-- Where the file confirmed last is less than a round of the pool behind the recording when the command
-- has run, the issuer empties neither the file that it has just had played nor the one that is being
-- recorded, whatever the command answers.
pub issuer_round-IsSpare :
    (job : PendingSegment) (recorded : Recorder) (now_ms discard_ms : ℕ) (out : Outcome)
    (s : Issuer)
    → s.recorder.pending ≡ some job
    → IsClose s.prev job.seg_index recorded.seg_index
    → IsSpare
        (issuer_round recorded now_ms discard_ms out s).truncated
        job.seg_index
        recorded.seg_index
unfolding issuer_round issue_pending issue_job on_delivered
issuer_round-IsSpare job recorded now_ms discard_ms out s e c =
    rw e (ground (arith, old_file-IsSpare s.prev job.seg_index recorded.seg_index c))
