-- ===== src/Pulse/Writer.antt =====
-- `PulsePlayer::write_frames` of src/client/pulse_player.cpp, built with PulseAudio: blocking writes,
-- and the reconnections after a failure. What the daemon answers is an argument.
use audio_router.Prelude.{
  ℕ, ◌+◌, ◌^◌, ◌<◌, ◌≤◌, ◌≡◌, arith, Bool, true, false, not, ◌||◌, List, [], ◌∷◌, ltb, leb, ◌==◌,
  if◌then◌else◌, if_elim, ◌⊎◌, Option, none, some,
}
use audio_router.Prelude.Word.{sub64}

pub record Writer : Type 0 where
  pub is_open : Bool
  pub has_stream : Bool  -- `stream_` is not null
  pub consecutive_write_failures : ℕ
  pub last_reconnect_ms : ℕ  -- uint64_t

-- One call: its arguments, the clock at the reconnection test and behind a failed write, and what
-- `connect_locked` and `pa_simple_write` answer.
pub record Call : Type 0 where
  pub has_pcm : Bool
  pub num_frames : ℕ
  pub now_ms : ℕ
  pub error_ms : ℕ
  pub connects : Bool
  pub accepts : Bool

-- The frames written, and the time of the connection attempt that the call made.
pub record Outcome : Type 0 where
  pub writer : Writer
  pub written : ℕ
  pub attempt : Option ℕ

abbrev pub reconnect_interval_ms : ℕ
reconnect_interval_ms = 2000

abbrev pub failures_before_reconnect : ℕ
failures_before_reconnect = 3

unfoldable pub fail_write : Writer → ℕ → Writer
fail_write w now_ms =
    let failures = w.consecutive_write_failures + 1 in
    if leb failures_before_reconnect failures
    then record w { has_stream = false; consecutive_write_failures = 0; last_reconnect_ms = now_ms }
    else record w { consecutive_write_failures = failures }

-- The write itself, on a stream.
unfoldable pub write_stream : Writer → Call → Option ℕ → Outcome
write_stream w c attempt =
    if c.accepts
    then record {
      writer = record w { consecutive_write_failures = 0 };
      written = c.num_frames;
      attempt = attempt;
    }
    else record { writer = fail_write w c.error_ms; written = 0; attempt = attempt }

abbrev pub kept : Writer → Option ℕ → Outcome
kept w attempt = record { writer = w; written = 0; attempt = attempt }

-- The stream is rebuilt, at most once in an interval.
unfoldable pub reconnect : Writer → Call → Outcome
reconnect w c =
    let w1 = record w { last_reconnect_ms = c.now_ms } in
    if ltb (sub64 c.now_ms w.last_reconnect_ms) reconnect_interval_ms
    then kept w none
    else if not c.connects
    then kept w1 (some c.now_ms)
    else write_stream (record w1 { has_stream = true; consecutive_write_failures = 0 }) c
        (some c.now_ms)

unfoldable pub write_frames : (bytes_per_frame : ℕ) → Writer → Call → Outcome
write_frames bytes_per_frame w c =
    if not w.is_open || (not c.has_pcm || c.num_frames == 0)
    then kept w none
    else if bytes_per_frame == 0
    then kept w none
    else if not w.has_stream
    then reconnect w c
    else write_stream w c none

-- A series of calls: the attempts to connect that they make.
abbrev pub noted : Option ℕ → List ℕ → List ℕ
noted none ts = ts
noted (some t) ts = t ∷ ts

unfoldable pub attempts : (bytes_per_frame : ℕ) → Writer → List Call → List ℕ
attempts b w [] = []
attempts b w (c ∷ cs) = let o = write_frames b w c in noted o.attempt (attempts b o.writer cs)

-- The clocks of a series of calls do not run backwards.
abbrev pub Ordered : ℕ → List Call → Type 0
Ordered last [] = Unit {0}
Ordered last (c ∷ cs) =
    (last ≤ c.now_ms) × (c.now_ms ≤ c.error_ms) × (c.error_ms < 2 ^ 64) × Ordered c.error_ms cs

-- Each time is at least an interval behind the one before.
abbrev pub Spaced : ℕ → List ℕ → Type 0
Spaced last [] = Unit {0}
Spaced last (t ∷ ts) = (last + reconnect_interval_ms ≤ t) × Spaced t ts

Spaced-earlier : (a b : ℕ) (ts : List ℕ) → a ≤ b → Spaced b ts → Spaced a ts
Spaced-earlier a b [] l s = tt
Spaced-earlier a b (t ∷ ts) l (u, s) = (omega arith, s)

Ordered-earlier : (a b : ℕ) (cs : List Call) → a ≤ b → Ordered b cs → Ordered a cs
Ordered-earlier a b [] l s = tt
Ordered-earlier a b (c ∷ cs) l (u, x, y, s) = (omega arith, x, y, s)

-- What one call does: it makes no attempt and the time of the last one does not fall, or it makes one in
-- time. The time afterwards is none behind the call.
abbrev Timed : ℕ → Call → Option ℕ → ℕ → Type 0
Timed last c none after = (last ≤ after) × (after ≤ c.error_ms)
Timed last c (some t) after =
    (last + reconnect_interval_ms ≤ t) × (t ≤ after) × (after ≤ c.error_ms)

fail_write-time :
    (w : Writer) (now_ms : ℕ)
    → w.last_reconnect_ms ≤ now_ms
    → (w.last_reconnect_ms ≤ (fail_write w now_ms).last_reconnect_ms)
      × ((fail_write w now_ms).last_reconnect_ms ≤ now_ms)
unfolding fail_write
fail_write-time w now_ms l = ground arith

abbrev IsTimed : ℕ → Call → Outcome → Type 0
IsTimed last c o = Timed last c o.attempt (o.writer.last_reconnect_ms)

write_stream-IsTimed :
    (last : ℕ) (w : Writer) (c : Call) (attempt : Option ℕ)
    → w.last_reconnect_ms ≤ c.error_ms
    → ((after : ℕ) → w.last_reconnect_ms ≤ after → after ≤ c.error_ms → Timed last c attempt after)
    → IsTimed last c (write_stream w c attempt)
unfolding write_stream
write_stream-IsTimed last w c attempt l k =
    if_elim (IsTimed last c) c.accepts _ _ (λ a. k w.last_reconnect_ms (omega arith) l)
      λ a.
        let (u, v) = fail_write-time w c.error_ms l in
        k ((fail_write w c.error_ms).last_reconnect_ms) u v

write_frames-IsTimed :
    (b : ℕ) (w : Writer) (c : Call)
    → (w.last_reconnect_ms ≤ c.now_ms) × (c.now_ms ≤ c.error_ms) × (c.error_ms < 2 ^ 64)
    → IsTimed w.last_reconnect_ms c (write_frames b w c)
unfolding write_frames reconnect
write_frames-IsTimed b w c (l, m, k) =
    let quiet : IsTimed w.last_reconnect_ms c (kept w none) = (omega arith, omega arith) in
    if_elim (IsTimed w.last_reconnect_ms c) (not w.is_open || (not c.has_pcm || c.num_frames == 0))
      _ _ (λ _. quiet)
      λ _.
        if_elim (IsTimed w.last_reconnect_ms c) (b == 0) _ _ (λ _. quiet)
          λ _.
            if_elim (IsTimed w.last_reconnect_ms c) (not w.has_stream) _ _
              (λ _.
                if_elim (IsTimed w.last_reconnect_ms c)
                  (ltb (sub64 c.now_ms w.last_reconnect_ms) reconnect_interval_ms) _ _ (λ _. quiet)
                  λ e.
                    let apart : w.last_reconnect_ms + reconnect_interval_ms ≤ c.now_ms =
                      ground arith in
                    if_elim (IsTimed w.last_reconnect_ms c) (not c.connects) _ _
                      (λ _. (apart, omega arith, m))
                      λ _.
                        write_stream-IsTimed w.last_reconnect_ms _ c (some c.now_ms) m
                          λ after u v. (apart, u, v))
              λ _.
                write_stream-IsTimed w.last_reconnect_ms w c none (omega arith) λ after u v. (u, v)

noted-Spaced :
    (last : ℕ) (c : Call) (attempt : Option ℕ) (after : ℕ) (ts : List ℕ)
    → Timed last c attempt after
    → Spaced after ts
    → Spaced last (noted attempt ts)
noted-Spaced last c none after ts (l, k) s = Spaced-earlier last after ts l s
noted-Spaced last c (some t) after ts (l, m, k) s = (l, Spaced-earlier t after ts m s)

-- The time after a call is none behind the call.
after-le :
    (last : ℕ) (c : Call) (attempt : Option ℕ) (after : ℕ)
    → Timed last c attempt after
    → after ≤ c.error_ms
after-le last c none after (l, k) = k
after-le last c (some t) after (l, m, k) = k

-- However the calls and the daemon's answers come, while the clock does not run backwards, two attempts
-- to connect are at least 2000 ms apart, and the first is as far from the last one before.
pub attempts-Spaced :
    (bytes_per_frame : ℕ) (w : Writer) (calls : List Call)
    → Ordered w.last_reconnect_ms calls
    → Spaced w.last_reconnect_ms (attempts bytes_per_frame w calls)
unfolding attempts
attempts-Spaced b w [] s = tt
attempts-Spaced b w (c ∷ cs) (l, m, k, s) =
    let o = write_frames b w c in
    let t = write_frames-IsTimed b w c (l, m, k) in
    noted-Spaced w.last_reconnect_ms c o.attempt o.writer.last_reconnect_ms (attempts b o.writer cs)
      t
      (attempts-Spaced b o.writer cs (
        Ordered-earlier o.writer.last_reconnect_ms c.error_ms cs
          (after-le w.last_reconnect_ms c o.attempt o.writer.last_reconnect_ms t) s))

-- Fewer than three failures are on record, and none without a stream.
abbrev pub IsValid : Writer → Type 0
IsValid w =
    (w.consecutive_write_failures < failures_before_reconnect)
    × (w.has_stream ≡ false → w.consecutive_write_failures ≡ 0)

-- All or nothing, and a stream where frames were written.
abbrev pub IsWhole : Call → Outcome → Type 0
IsWhole c o =
    (o.written ≡ 0)
    ⊎ ((o.written ≡ c.num_frames)
        × (o.writer.has_stream ≡ true)
        × (o.writer.consecutive_write_failures ≡ 0))

-- After any call fewer than three failures are on record, and none without a stream; and the call has
-- written nothing, or all its frames to a stream with no failure on record.
pub write_frames-IsValid :
    (bytes_per_frame : ℕ) (w : Writer) (c : Call)
    → IsValid w
    → IsValid (write_frames bytes_per_frame w c).writer
      × IsWhole c (write_frames bytes_per_frame w c)
unfolding write_frames reconnect write_stream fail_write
write_frames-IsValid b w c v = ground arith
