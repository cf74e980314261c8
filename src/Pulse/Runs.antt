-- ===== src/Pulse/Runs.antt =====
-- Tests of src/client/pulse_player.cpp.
use audio_router.Prelude.{ℕ, ◌≡◌, refl, arith, true, false, List, [], ◌∷◌}
use audio_router.Pulse.Attr.{compute_buffer_attr, IsGoodAttr, compute_buffer_attr-IsGoodAttr}
use audio_router.Pulse.Writer.{
  Writer, Call, Spaced, attempts, write_frames, attempts-Spaced, reconnect, write_stream,
  fail_write,
}

compute_buffer_attr-IsGoodAttr_example : IsGoodAttr (compute_buffer_attr 48000 4 480 0) 48000 4 480
compute_buffer_attr-IsGoodAttr_example =
    compute_buffer_attr-IsGoodAttr 48000 4 480 0 (omega arith, omega arith)
      (omega arith, omega arith) (omega arith)

abbrev writer : Writer
writer = record {
  is_open = true;
  has_stream = true;
  consecutive_write_failures = 2;
  last_reconnect_ms = 0;
}

abbrev failing : ℕ → Call
failing now_ms = record {
  has_pcm = true;
  num_frames = 480;
  now_ms = now_ms;
  error_ms = now_ms;
  connects = false;
  accepts = false;
}

-- The third failure drops the stream; the attempts come 2 seconds behind it and behind each other.
abbrev calls : List Call
calls = failing 1000 ∷ failing 2000 ∷ failing 3000 ∷ failing 4000 ∷ failing 5500 ∷ []

attempted : attempts 4 writer calls ≡ 3000 ∷ 5500 ∷ []
unfolding attempts write_frames reconnect write_stream fail_write
attempted = refl

attempts-Spaced_example : Spaced 0 (attempts 4 writer calls)
attempts-Spaced_example = attempts-Spaced 4 writer calls (
  omega arith,
  omega arith,
  omega arith,
  (
    omega arith,
    omega arith,
    omega arith,
    (
      omega arith,
      omega arith,
      omega arith,
      (omega arith, omega arith, omega arith, (omega arith, omega arith, omega arith, tt)),
    ),
  ),
)
