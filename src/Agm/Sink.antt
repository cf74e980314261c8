-- ===== src/Agm/Sink.antt =====
-- `AgmFifoPlayer::write_frames` of src/client/agm_fifo_player.cpp: stereo is mixed down to one channel and
-- goes into the pipe of agmplay, and what stands in the way starts a recovery.
use audio_router.Prelude.{
  ℕ, suc, ◌-◌, ◌*◌, ◌/◌, ◌^◌, Bool, true, false, not, ◌||◌, List, [], ◌∷◌, ◌++◌, length, take, drop,
  ltb, leb, ◌==◌, if◌then◌else◌, Option, none, some,
}
use audio_router.Prelude.Int.{ℤ, pos, negsuc, ◌+ℤ◌}
use audio_router.Prelude.Word.{sub64}
use audio_router.Protocol.Wire.{le_bytes}
use audio_router.Agm.{Player, stall_trigger_ms}
use audio_router.Agm.Recover.{Recovery, recover}

-- `/ 2` of a signed number, towards 0
abbrev pub half : ℤ → ℤ
half (pos n) = pos (n / 2)
half (negsuc n) = if suc n / 2 == 0 then pos 0 else negsuc (suc n / 2 - 1)

unfoldable pub mix : ℤ → ℤ → ℤ
mix l r = half (l +ℤ r)

unfoldable pub downmix : List ℤ → List ℤ
unfolding mix
downmix [] = []
downmix (l ∷ []) = []
downmix (l ∷ r ∷ rest) = mix l r ∷ downmix rest

-- The samples that are sent: as many as there are frames, also of a source with other channels.
unfoldable pub samples : (channels num_frames : ℕ) → List ℤ → List ℤ
unfolding downmix
samples channels num_frames pcm =
    let in_channels = if channels == 0 then 2 else channels in
    if in_channels == 2 then downmix (take (num_frames * 2) pcm) else take num_frames pcm

-- What a turn of the loop meets: a player that was closed, or what `write` answers, with the clock behind
-- the poll of a full pipe.
pub data Turn : Type 0 where
  closes interrupted failed : Turn
  full : (first_ms second_ms : ℕ) → Turn
  takes : (room : ℕ) → Turn

-- The bytes in the pipe; `result` is the return value once the loop has ended.
pub record Writing : Type 0 where
  pub player : Player
  pub piped : List ℕ
  pub result : Option ℕ

abbrev pub with_start : (now_ms : ℕ) → Player → Player
with_start now_ms p = record p {
  stall_start_ms = if p.stall_start_ms == 0 then now_ms else p.stall_start_ms;
}

-- No frame is accounted for where a recovery starts.
unfoldable pub restart : Recovery → Writing → Writing
restart r w = record w { player = recover r w.player; result = some 0 }

unfoldable pub turn : Recovery → List ℕ → Writing → Turn → Writing
unfolding restart
turn r bytes w closes = record w { result = some 0 }
turn r bytes w interrupted = w
turn r bytes w failed = restart r w
turn r bytes w (full first_ms second_ms) =
    let p = with_start first_ms w.player in
    let waits = record w { player = p } in
    if leb stall_trigger_ms (sub64 second_ms p.stall_start_ms) then restart r waits else waits
turn r bytes w (takes room) = record w {
  player = record w.player { stall_start_ms = 0 };
  piped = w.piped ++ take room (drop (length w.piped) bytes);
}

abbrev pub is_some : Option ℕ → Bool
is_some none = false
is_some (some _) = true

-- The end of the loop's condition
unfoldable pub finish : List ℕ → (num_frames : ℕ) → Writing → Writing
finish bytes num_frames w =
    if is_some w.result || ltb (length w.piped) (length bytes)
    then w
    else record w { result = some num_frames }

unfoldable pub write_loop : Recovery → List ℕ → (num_frames : ℕ) → Writing → List Turn → Writing
unfolding finish
write_loop r bytes num_frames w [] = finish bytes num_frames w
write_loop r bytes num_frames w (t ∷ ts) =
    let rest = write_loop r bytes num_frames (turn r bytes w t) ts in
    if is_some w.result || not (ltb (length w.piped) (length bytes))
    then finish bytes num_frames w
    else rest

-- A sample in two bytes
abbrev pub sample_bytes : ℤ → List ℕ
sample_bytes (pos n) = le_bytes 2 n
sample_bytes (negsuc n) = le_bytes 2 (2 ^ 16 - 1 - n)

abbrev pub pcm_bytes : List ℤ → List ℕ
pcm_bytes [] = []
pcm_bytes (v ∷ vs) = sample_bytes v ++ pcm_bytes vs

abbrev pub returned : ℕ → Player → Writing
returned n p = record { player = p; piped = []; result = some n }

unfoldable pub write_frames :
    Recovery → (channels num_frames : ℕ) → List ℤ → List Turn → Player → Writing
unfolding write_loop samples
write_frames r channels num_frames pcm turns p =
    let bytes = pcm_bytes (samples channels num_frames pcm) in
    if num_frames == 0
    then returned 0 p
    else if not p.is_open || not p.has_pipe
    then returned 0 p
    else if p.recovering
    then returned 0 p
    else if p.session_closed
    then returned 0 (recover r (record p { session_closed = false }))
    else write_loop r bytes num_frames (record { player = p; piped = []; result = none }) turns

-- What waits in the pipe, in frames of two bytes.
unfoldable pub get_buffer_delay_frames : Option ℕ → ℕ
get_buffer_delay_frames none = 0
get_buffer_delay_frames (some fifo_bytes) = fifo_bytes / 2
