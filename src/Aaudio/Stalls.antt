-- ===== src/Aaudio/Stalls.antt =====
-- How often `AaudioFifoPlayer` takes a stream for stalled, src/client/aaudio_player.cpp.
use audio_router.Prelude.{ℕ, ◌+◌, ◌≤◌, ◌≡◌, arith, true, false, List, none, ◌⊎◌}
use audio_router.Aaudio.{Player, Mode, max_stall_rebuilds}
use audio_router.Aaudio.Stream.{
  Build, Failure, no_builder, refused, built, is_some, close_stream, open_stream, rebuild_stream,
  rebuild_disconnected, escalate, give_up, count_stall, rebuild_stalled,
}
use audio_router.Aaudio.Pump.{Round, Pump, pump_loop}
use audio_router.Aaudio.Kept.{Kept, pump_loop-kept}
use audio_router.Aaudio.Streams.{Anytime, AllTimed-Anytime}

-- Three stalls at most, or a player that is closed behind the fourth; behind the second stall the deep
-- buffer is asked for.
abbrev pub Counted : Player → Type 0
Counted p =
    ((p.stall_rebuilds ≤ max_stall_rebuilds)
      ⊎ ((p.stall_rebuilds ≡ max_stall_rebuilds + 1) × (p.is_open ≡ false) × (p.stream ≡ none)))
    × (2 ≤ p.stall_rebuilds → p.deep_retry ≡ true)

-- What a rebuild leaves alone.
pub rebuild_stream-fields :
    (mode : Mode) (b : Build) (p : Player)
    → ((rebuild_stream mode b p).stall_rebuilds ≡ p.stall_rebuilds)
      × ((rebuild_stream mode b p).deep_retry ≡ p.deep_retry)
      × ((rebuild_stream mode b p).is_open ≡ p.is_open)
      × ((rebuild_stream mode b p).last_rebuild_ms ≡ p.last_rebuild_ms)
unfolding rebuild_stream open_stream close_stream
rebuild_stream-fields mode no_builder p = ground arith
rebuild_stream-fields mode refused p = ground arith
rebuild_stream-fields mode (built h t) p = ground arith

rebuild_disconnected-Counted :
    (mode : Mode) (t : ℕ) (b : Build) (p : Player)
    → Counted p
    → is_some p.stream ≡ true
    → Counted (rebuild_disconnected mode t b p)
unfolding rebuild_disconnected
rebuild_disconnected-Counted mode t b p i e =
    ground (arith, rebuild_stream-fields mode b (record p { last_rebuild_ms = t }))

rebuild_stalled-Counted :
    (mode : Mode) (f : Failure) (p : Player)
    → Counted p
    → is_some p.stream ≡ true
    → Counted (rebuild_stalled mode f p)
unfolding rebuild_stalled give_up count_stall close_stream
rebuild_stalled-Counted mode f p i e =
    ground (arith, rebuild_stream-fields mode f.rebuild (count_stall f.now_ms p))

Counted-Kept : (mode : Mode) → Kept Anytime (λ _ p. Counted p) mode
unfolding close_stream escalate
Counted-Kept mode = record {
  wait = λ a b p _ i. i;
  close = λ t p i. ground arith;
  called = λ t p i h n. (i, i);
  count = λ t n p i. i;
  escalated = λ t f p i. ground arith;
  reconnect = λ t b p i e. rebuild_disconnected-Counted mode t b p i e;
  stall = λ f p i e m. rebuild_stalled-Counted mode f p i e;
}

-- However the writes fail, the loop counts at most three stalls that it rebuilds the stream for: a
-- fourth one closes the stream and the player for good. From the second stall on the deep buffer is
-- asked for.
pub pump_loop-Counted :
    (mode : Mode) (bpf : ℕ) (s : Pump) (rounds : List Round)
    → Counted s.player
    → Counted (pump_loop mode bpf s rounds).player
pump_loop-Counted mode bpf s rounds i =
    pump_loop-kept (Counted-Kept mode) 0 bpf s rounds (AllTimed-Anytime 0 rounds) i
