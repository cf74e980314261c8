-- ===== src/Aaudio/Pump.antt =====
-- `AaudioFifoPlayer::pump_loop` of src/client/aaudio_player.cpp: bytes from the pipe go to the stream in
-- whole frames. A round takes what the pipe, libaaudio, the clock and a concurrent `close` do.
use audio_router.Prelude.{
  ℕ, ◌+◌, ◌-◌, ◌*◌, ◌/◌, ◌%◌, min, Bool, true, false, not, ◌||◌, ◌&&◌, List, [], ◌∷◌, ◌++◌, length,
  take, drop, ltb, leb, ◌==◌, if◌then◌else◌, Option, none, some,
}
use audio_router.Termux.Wav.{put}
use audio_router.Aaudio.{Player, Mode, wrote}
use audio_router.Aaudio.Stream.{
  Build, State, Failure, is_some, close_stream, ensure_started, recover, escalate, gives_up,
}

-- `poll` on the pipe
pub data Poll : Type 0 where
  interrupted broken quiet readable : Poll

-- `AAudioStream_write`: it takes the frames that the stream has room for, or is an error.
pub data Answer : Type 0 where
  accepted : (room : ℕ) → Answer
  error : Answer

pub record Round : Type 0 where
  pub stop : Bool  -- `stop_pump_`
  pub poll : Poll
  pub bytes : List ℕ  -- what `read` gives, nothing on an error
  pub closes_before : Bool  -- `close` closes the stream in front of the first lock
  pub state : State
  pub ensure_ms : ℕ
  pub ensure_rebuild : Build
  pub answer : Answer
  pub closes_in_write : Bool
  pub failure : Failure
  pub fifo_bytes : ℕ

-- `buffer`, `residual`, and the bytes that the stream has accepted so far.
pub record Pump : Type 0 where
  pub player : Player
  pub running : Bool
  pub buffer : List ℕ
  pub residual : ℕ
  pub forwarded : List ℕ

abbrev pub close_if : Bool → Player → Player
close_if b p = if b then close_stream p else p

abbrev pub accepted_frames : Answer → ℕ → ℕ
accepted_frames (accepted n) frames = min n frames
accepted_frames error frames = 0

abbrev pub falls_short : Answer → ℕ → Bool
falls_short (accepted n) frames = ltb n frames
falls_short error frames = true

-- How a round goes on: it leaves the loop, starts the next round, or keeps the rest of its bytes.
pub data Next : Type 0 where
  leave again on : Next

pub record Delivery : Type 0 where
  pub after : Player
  pub next : Next
  pub sent : ℕ  -- frames that the stream accepted

-- Behind the write: a failure is counted and handled, and a success ends a row of failures.
unfoldable pub settle_failure : Mode → (h : ℕ) → (sent : ℕ) → Failure → Player → Delivery
settle_failure mode h sent f p =
    let counted = record p { consecutive_write_failures = p.consecutive_write_failures + 1 } in
    if not (is_some p.stream)
    then record { after = counted; next = leave; sent = sent }
    else record {
      after = recover mode h f counted;
      next = if gives_up f (escalate f counted) then leave else again;
      sent = sent;
    }

unfoldable pub settle : Mode → (h : ℕ) → (frames : ℕ) → Round → Player → Delivery
unfolding settle_failure
settle mode h frames r p =
    if falls_short r.answer frames
    then settle_failure mode h (accepted_frames r.answer frames) r.failure p
    else record {
      after = record p { consecutive_write_failures = 0 };
      next = if is_some p.stream then on else leave;
      sent = accepted_frames r.answer frames;
    }

-- The stream is looked up before it is made to run, and written to without the lock.
unfoldable pub write_to : Mode → (h : ℕ) → (frames : ℕ) → Round → Player → Delivery
write_to mode h frames r p =
    let q = ensure_started mode r.state r.ensure_ms r.ensure_rebuild p in
    if not (is_some q.stream)
    then record { after = q; next = again; sent = 0 }
    else settle mode h frames r
        (close_if r.closes_in_write (record q { calls = wrote h frames ∷ q.calls }))

unfoldable pub deliver_on : Mode → (frames : ℕ) → Round → Player → Option ℕ → Delivery
deliver_on mode frames r p none = record { after = p; next = leave; sent = 0 }
deliver_on mode frames r p (some h) = write_to mode h frames r p

unfoldable pub deliver : Mode → (frames : ℕ) → Round → Player → Delivery
deliver mode frames r p = let q = close_if r.closes_before p in deliver_on mode frames r q q.stream

-- `std::memmove` of the residual bytes to the front
abbrev pub keep_rest : (bpf frames residual : ℕ) → List ℕ → List ℕ
keep_rest bpf frames residual buffer = put 0 (take residual (drop (frames * bpf) buffer)) buffer

abbrev pub is_on : Next → Bool
is_on on = true
is_on _ = false

abbrev pub is_leave : Next → Bool
is_leave leave = true
is_leave _ = false

-- A round with bytes read behind the residual ones.
unfoldable pub take_bytes : Mode → (bpf : ℕ) → Round → List ℕ → Pump → Pump
take_bytes mode bpf r bytes s =
    let total = s.residual + length bytes in
    let frames = total / bpf in
    let residual = total % bpf in
    let buffer = put s.residual bytes s.buffer in
    if frames == 0
    then record s { buffer = keep_rest bpf frames residual buffer; residual = residual }
    else (let d = deliver mode frames r s.player in
        record {
          player = d.after;
          running = not (is_leave d.next);
          buffer = if is_on d.next then keep_rest bpf frames residual buffer else buffer;
          residual = residual;
          forwarded = s.forwarded ++ take (d.sent * bpf) buffer;
        })

-- `read` gives what fits behind the residual bytes.
abbrev pub read_bytes : Round → Pump → List ℕ
read_bytes r s = take (length s.buffer - s.residual) r.bytes

unfoldable pub polled : Mode → (bpf : ℕ) → Pump → Round → Poll → Pump
polled mode bpf s r interrupted = s
polled mode bpf s r broken = record s { running = false }
polled mode bpf s r quiet = s
polled mode bpf s r readable =
    let bytes = read_bytes r s in if length bytes == 0 then s else take_bytes mode bpf r bytes s

unfoldable pub pump_round : Mode → (bpf : ℕ) → Pump → Round → Pump
pump_round mode bpf s r =
    if not s.running || r.stop then record s { running = false } else polled mode bpf s r r.poll

unfoldable pub pump_loop : Mode → (bpf : ℕ) → Pump → List Round → Pump
pump_loop mode bpf s [] = s
pump_loop mode bpf s (r ∷ rs) = pump_loop mode bpf (pump_round mode bpf s r) rs

-- Behind a stall, a pipe with a chunk or more of old sound is emptied.
unfoldable pub discards : (chunk_bytes : ℕ) → Round → Player → Bool
discards chunk_bytes r p = ltb 0 p.consecutive_write_failures && leb chunk_bytes r.fifo_bytes
