-- ===== src/Aaudio/Streams.antt =====
-- The streams that `AaudioFifoPlayer` opens and closes, src/client/aaudio_player.cpp.
use audio_router.Prelude.{
  ℕ, ◌≡◌, refl, ap, sym, ◌∙◌, arith, List, [], ◌∷◌, Option, none, some, if_elim, ltb, Bool, false,
  if◌then◌else◌,
}
use audio_router.Aaudio.{
  Player, Mode, Call, created, opened, start_requested, wrote, closed, max_stall_rebuilds,
}
use audio_router.Aaudio.Stream.{
  Build, Failure, close, open_player, is_some, no_builder, refused, built, may_rebuild,
  close_stream, open_stream, rebuild_stream, rebuild_disconnected, escalate, give_up, count_stall,
  rebuild_stalled,
}
use audio_router.Aaudio.Kept.{Kept, AllTimed, pump_loop-kept}
use audio_router.Aaudio.Pump.{Round, Pump, pump_loop}

-- The stream that is open behind some calls.
unfoldable pub held : List Call → Option ℕ
held [] = none
held (created _ ∷ cs) = held cs
held (opened h _ ∷ cs) = some h
held (start_requested _ ∷ cs) = held cs
held (wrote _ _ ∷ cs) = held cs
held (closed _ ∷ cs) = none

-- A stream is opened while none is open, and it is the open one that is closed.
abbrev pub Paired : List Call → Type 0
Paired [] = Unit {0}
Paired (created _ ∷ cs) = (held cs ≡ none) × Paired cs
Paired (opened _ _ ∷ cs) = (held cs ≡ none) × Paired cs
Paired (start_requested _ ∷ cs) = Paired cs
Paired (wrote _ _ ∷ cs) = Paired cs
Paired (closed h ∷ cs) = (held cs ≡ some h) × Paired cs

abbrev pub Holds : Player → Type 0
Holds p = (held p.calls ≡ p.stream) × Paired p.calls

close_stream-Holds :
    (p : Player) → Holds p → Holds (close_stream p) × ((close_stream p).stream ≡ none)
unfolding close_stream held
close_stream-Holds p (e, w) = ground arith

open_stream-Holds :
    (mode : Mode) (b : Build) (p : Player)
    → Holds p
    → p.stream ≡ none
    → Holds (open_stream mode b p)
unfolding open_stream held
open_stream-Holds mode no_builder p (e, w) z = (e, w)
open_stream-Holds mode refused p (e, w) z = (e, w)
open_stream-Holds mode (built h t) p (e, w) z = (refl, (e ∙ z, w))

rebuild_stream-Holds :
    (mode : Mode) (b : Build) (p : Player) → Holds p → Holds (rebuild_stream mode b p)
unfolding rebuild_stream held
rebuild_stream-Holds mode b p i =
    let ((e, w), z) = close_stream-Holds p i in open_stream-Holds mode b _ (e, (e ∙ z, w)) z

rebuild_disconnected-Holds :
    (mode : Mode) (now_ms : ℕ) (b : Build) (p : Player)
    → Holds p
    → Holds (rebuild_disconnected mode now_ms b p)
unfolding rebuild_disconnected
rebuild_disconnected-Holds mode now_ms b p i =
    if_elim Holds (may_rebuild now_ms p) _ _ (λ _. rebuild_stream-Holds mode b _ i) λ _. i

rebuild_stalled-Holds :
    (mode : Mode) (f : Failure) (p : Player) → Holds p → Holds (rebuild_stalled mode f p)
unfolding rebuild_stalled give_up count_stall
rebuild_stalled-Holds mode f p i =
    let q = count_stall f.now_ms p in
    if_elim Holds (ltb max_stall_rebuilds q.stall_rebuilds) (give_up q)
      (rebuild_stream mode f.rebuild q) (λ _. (close_stream-Holds q i).0)
      λ _. rebuild_stream-Holds mode f.rebuild q i

abbrev pub Anytime : ℕ → ℕ → Type 0
Anytime _ _ = Unit {0}

Holds-Kept : (mode : Mode) → Kept Anytime (λ _ p. Holds p) mode
unfolding escalate held
Holds-Kept mode = record {
  wait = λ a b p _ i. i;
  close = λ t p i. (close_stream-Holds p i).0;
  called = λ t p i h n. (i, i);
  count = λ t n p i. i;
  escalated = λ t f p i. ground arith;
  reconnect = λ t b p i _. rebuild_disconnected-Holds mode t b p i;
  stall = λ f p i _ _. rebuild_stalled-Holds mode f p i;
}

pub AllTimed-Anytime : (t : ℕ) (rs : List Round) → AllTimed Anytime t rs
AllTimed-Anytime t [] = tt
AllTimed-Anytime t (r ∷ rs) = ((tt, tt), AllTimed-Anytime r.failure.now_ms rs)

-- Whatever the pipe, libaaudio, the clock and a concurrent `close` do, the loop opens a stream only
-- while none is open and closes only the open one, once; and the stream that the player holds
-- afterwards is the one that is open.
pub pump_loop-Holds :
    (mode : Mode) (bpf : ℕ) (s : Pump) (rounds : List Round)
    → Holds s.player
    → Holds (pump_loop mode bpf s rounds).player
pump_loop-Holds mode bpf s rounds i =
    pump_loop-kept (Holds-Kept mode) 0 bpf s rounds (AllTimed-Anytime 0 rounds) i

-- `open` on a player that is closed has no stream of an earlier session open, and it makes the player
-- open just where it has a stream.
pub open_player-Holds :
    (mode : Mode) (has_fifo : Bool) (b : Build) (p : Player)
    → Holds p
    → (p.is_open ≡ false → p.stream ≡ none)
    → let q = open_player mode has_fifo b p in Holds q × (q.is_open ≡ is_some q.stream)
unfolding open_player close
open_player-Holds mode has_fifo b p i n =
    let q = if p.is_open then close p else p in
    let (j, z, c) : Holds q × (q.stream ≡ none) × (q.is_open ≡ false) =
      ground (arith, close_stream-Holds p i) in
    let fresh : Player = record q {
      consecutive_write_failures = 0;
      stall_rebuilds = 0;
      deep_retry = false;
    } in
    let Good : Player → Type 0 = λ (u : Player). Holds u × (u.is_open ≡ is_some u.stream) in
    if_elim Good has_fifo _ fresh (λ _. (open_stream-Holds mode b fresh j z, refl))
      λ _. (j, c ∙ sym (ap is_some z))
