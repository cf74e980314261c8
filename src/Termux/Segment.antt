-- ===== src/Termux/Segment.antt =====
-- The recording of src/client/termux_api_player.cpp: `write_frames`, `open_next_segment_locked`,
-- `finalize_segment_locked`, `discard_segment_locked` and `flush`. The answers of the file system and the
-- clock are arguments; what a file holds besides its count of frames is left out.
use audio_router.Prelude.{
  ℕ, ◌*◌, ◌/◌, Bool, true, false, not, ◌&&◌, ◌||◌, List, [], ◌∷◌, Option, none, some, ltb, leb,
  ◌==◌, if◌then◌else◌,
}
use audio_router.Prelude.Word.{add64, sub64, mul64}
use audio_router.Config.{AudioConfig, AudioSampleFormat, pcm_float32le, bytes_per_frame}

-- A file for the issuer thread; its path follows from the index.
pub record PendingSegment : Type 0 where
  pub frames : ℕ
  pub seg_index : ℕ

pub record Recorder : Type 0 where
  pub is_open : Bool
  pub config : AudioConfig
  pub segment_ms : ℕ  -- uint32_t
  pub has_file : Bool  -- `seg_fd_ >= 0`
  pub seg_index : ℕ  -- uint64_t
  pub seg_start_wall_ms : ℕ  -- uint64_t
  pub seg_frames : ℕ  -- size_t
  pub seg_total_frames : ℕ  -- size_t
  pub seg_issued : Bool
  pub drops : ℕ  -- uint64_t
  pub pending : Option PendingSegment  -- `pending_`, where it is valid

-- `kPrefillMs`
abbrev pub prefill_ms : ℕ
prefill_ms = 600

-- The file system at `open_next_segment_locked`: the file opens and takes its size, or which fails.
pub data Opening : Type 0 where
  opens open_fails size_fails : Opening

-- `segment_ready`. The source divides doubles; with fewer than 2^53 / 1000 frames and a 32-bit rate the
-- quotient lies below the whole number `prefill` exactly when the products are so ordered.
unfoldable pub segment_ready : (frames rate start_ms now_ms prefill : ℕ) → Bool
segment_ready frames sample_rate start_ms now_ms prefill =
    let rate = if ltb 0 sample_rate then sample_rate else 48000 in
    let wall_ms = if leb start_ms now_ms then sub64 now_ms start_ms else 0 in
    if ltb (frames * 1000) (prefill * rate) then false else leb prefill wall_ms

unfoldable pub open_next_segment : Recorder → Opening → ℕ → Bool × Recorder
open_next_segment r opening now_ms =
    let closed = record r { has_file = false; seg_index = add64 r.seg_index 1 } in
    let total = mul64 r.segment_ms r.config.sample_rate / 1000 in
    elim opening [
      | opens ↦ (
        true,
        record closed {
          has_file = true;
          seg_total_frames = total;
          seg_frames = 0;
          seg_issued = false;
          seg_start_wall_ms = now_ms;
        },
      )
      | open_fails ↦ (false, closed)
      | size_fails ↦ (false, record closed { seg_total_frames = total })
    ]

unfoldable pub discard_segment : Recorder → ℕ → Recorder
discard_segment r now_ms = record r {
  has_file = false;
  seg_frames = 0;
  seg_issued = false;
  seg_start_wall_ms = now_ms;
}

abbrev pub is_some {ℓ} : {A : Type ℓ} → Option A → Bool
is_some none = false
is_some (some _) = true

-- The file that is handed over, where one is; a file that still waits there is replaced.
unfoldable pub finalize_segment : Recorder → Recorder × Option PendingSegment
finalize_segment r =
    let job : PendingSegment = record { frames = r.seg_frames; seg_index = r.seg_index } in
    if not r.has_file || r.seg_issued then (r, none) else (
      record r {
        seg_issued = true;
        pending = some job;
        drops = if is_some r.pending then add64 r.drops 1 else r.drops;
      },
      some job,
    )

-- What one `write` call answers, and the loop over them: does it store all the bytes? The answers end
-- with a failure.
pub data WriteResult : Type 0 where
  wrote : ℕ → WriteResult
  interrupted : WriteResult

unfoldable pub write_all : List WriteResult → (written total_bytes : ℕ) → Bool
write_all [] written total_bytes = leb total_bytes written
write_all (interrupted ∷ rs) written total_bytes =
    let rest = write_all rs written total_bytes in if ltb written total_bytes then rest else true
write_all (wrote n ∷ rs) written total_bytes =
    let rest = write_all rs (add64 written n) total_bytes in
    if ltb written total_bytes then (if n == 0 then false else rest) else true

-- One call of `write_frames`: its arguments, the answers and the clock readings.
pub record Call : Type 0 where
  pub has_pcm : Bool
  pub num_frames : ℕ
  pub opening : Opening
  pub open_ms : ℕ
  pub results : List WriteResult
  pub discard_ms : ℕ
  pub ready_ms : ℕ
  pub next_opening : Opening
  pub next_ms : ℕ

pub record Written : Type 0 where
  pub recorder : Recorder
  pub count : ℕ
  pub handed : Option PendingSegment

abbrev pub stopped : Recorder → Written
stopped r = record { recorder = r; count = 0; handed = none }

-- The bytes of a frame in the file: floats stay, everything else becomes 16 bits.
unfoldable pub is_float : AudioSampleFormat → Bool
is_float pcm_float32le = true
is_float _ = false

unfoldable pub file_frame_bytes : AudioConfig → ℕ
file_frame_bytes c = if is_float c.format then bytes_per_frame c else mul64 2 c.channels

-- The handover of a file that is ready, once.
unfoldable pub issue : Recorder → ℕ → Recorder × Option PendingSegment
issue r now_ms =
    if not r.seg_issued
      && segment_ready r.seg_frames r.config.sample_rate r.seg_start_wall_ms now_ms prefill_ms
    then finalize_segment r
    else (r, none)

-- The next file, when this one is complete.
unfoldable pub rotate : Recorder → Opening → ℕ → Recorder
rotate r opening now_ms =
    if ltb 0 r.seg_total_frames && leb r.seg_total_frames r.seg_frames
    then (open_next_segment r opening now_ms).1
    else r

-- The part behind the opening of a file.
unfoldable pub record_frames : Recorder → Call → Written
record_frames r c =
    let total_bytes = mul64 c.num_frames (file_frame_bytes r.config) in
    let stored = record r { seg_frames = add64 r.seg_frames c.num_frames } in
    let issued = issue stored c.ready_ms in
    if not (write_all c.results 0 total_bytes)
    then stopped (discard_segment r c.discard_ms)
    else record {
      recorder = rotate (issued.0) c.next_opening c.next_ms;
      count = c.num_frames;
      handed = issued.1;
    }

unfoldable pub write_frames : Recorder → Call → Written
write_frames r c =
    let opened = open_next_segment r c.opening c.open_ms in
    if not c.has_pcm || c.num_frames == 0
    then stopped r
    else if not r.is_open
    then stopped r
    else if bytes_per_frame r.config == 0
    then stopped r
    else if r.has_file
    then record_frames r c
    else if opened.0
    then record_frames (opened.1) c
    else stopped (opened.1)

unfoldable pub flush : Recorder → ℕ → Recorder
flush r now_ms =
    let r1 = if ltb 0 r.seg_frames then discard_segment r now_ms else r in
    if not r.is_open then r else record r1 { pending = none }

-- What the issuer and the watchdog do to the recording: they take the waiting file, and restart it.
unfoldable pub restart : Recorder → ℕ → Recorder
restart r now_ms = if r.is_open && ltb 0 r.seg_frames then discard_segment r now_ms else r

pub data Event : Type 0 where
  write_call : Call → Event
  flush_call restart_call : ℕ → Event
  take_job : Event

unfoldable pub step : Recorder → Event → Recorder × Option PendingSegment
step r (write_call c) = let w = write_frames r c in (w.recorder, w.handed)
step r (flush_call now_ms) = (flush r now_ms, none)
step r (restart_call now_ms) = (restart r now_ms, none)
step r take_job = (record r { pending = none }, none)

abbrev pub noted : Option PendingSegment → List PendingSegment → List PendingSegment
noted none jobs = jobs
noted (some job) jobs = job ∷ jobs

-- The files that a series of events hands over, in their order.
unfoldable pub handed : Recorder → List Event → List PendingSegment
handed r [] = []
handed r (e ∷ es) = let s = step r e in noted (s.1) (handed (s.0) es)
