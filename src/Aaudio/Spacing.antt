-- ===== src/Aaudio/Spacing.antt =====
-- How often `AaudioFifoPlayer` rebuilds its stream, src/client/aaudio_player.cpp.
use audio_router.Prelude.{
  ℕ, ◌+◌, ◌^◌, ◌≤◌, ◌<◌, ◌≡◌, refl, arith, true, List, [], ◌∷◌, if_elim, ltb,
}
use audio_router.Prelude.Spacing.{Spaced, Spaced-Since, Spaced-later}
use audio_router.Aaudio.{
  Player, Mode, Call, created, opened, start_requested, wrote, closed, min_rebuild_interval_ms,
  max_stall_rebuilds,
}
use audio_router.Aaudio.Stream.{
  Build, Failure, no_builder, refused, built, may_rebuild, close_stream, open_stream,
  rebuild_stream, rebuild_disconnected, escalate, give_up, count_stall, rebuild_stalled,
}
use audio_router.Aaudio.Pump.{Round, Pump, pump_loop}
use audio_router.Aaudio.Kept.{Kept, AllTimed, pump_loop-kept}

-- The times of the rebuilds, the last one first.
unfoldable pub rebuilds : List Call → List ℕ
rebuilds [] = []
rebuilds (created t ∷ cs) = t ∷ rebuilds cs
rebuilds (opened _ _ ∷ cs) = rebuilds cs
rebuilds (start_requested _ ∷ cs) = rebuilds cs
rebuilds (wrote _ _ ∷ cs) = rebuilds cs
rebuilds (closed _ ∷ cs) = rebuilds cs

abbrev pub InOrder : ℕ → ℕ → Type 0
InOrder a b = (a ≤ b) × (b < 2 ^ 64)

abbrev Watched : ℕ → Player → Type 0
Watched now p =
    ((p.last_rebuild_ms ≤ now) × (now < 2 ^ 64))
    × Spaced min_rebuild_interval_ms p.last_rebuild_ms (rebuilds p.calls)

close_stream-Watched : (t : ℕ) (p : Player) → Watched t p → Watched t (close_stream p)
unfolding close_stream rebuilds
close_stream-Watched t p i = ground arith

-- A rebuild at a time an interval behind the last one.
rebuild_stream-Watched :
    (mode : Mode) (b : Build) (t last : ℕ) (p : Player)
    → p.last_rebuild_ms ≡ t
    → last + min_rebuild_interval_ms ≤ t
    → t < 2 ^ 64
    → Spaced min_rebuild_interval_ms last (rebuilds p.calls)
    → Watched t (rebuild_stream mode b p)
unfolding rebuild_stream open_stream close_stream rebuilds
rebuild_stream-Watched mode no_builder t last p e l k s =
    ground (arith, Spaced-Since min_rebuild_interval_ms last t (rebuilds p.calls) l s)
rebuild_stream-Watched mode refused t last p e l k s =
    ground (arith, Spaced-Since min_rebuild_interval_ms last t (rebuilds p.calls) l s)
rebuild_stream-Watched mode (built h o) t last p e l k s =
    ground (arith, Spaced-Since min_rebuild_interval_ms last t (rebuilds p.calls) l s)

rebuild_disconnected-Watched :
    (mode : Mode) (t : ℕ) (b : Build) (p : Player)
    → Watched t p
    → Watched t (rebuild_disconnected mode t b p)
unfolding rebuild_disconnected
rebuild_disconnected-Watched mode t b p i =
    if_elim (Watched t) (may_rebuild t p) (rebuild_stream mode b (record p { last_rebuild_ms = t }))
      p
      (λ e.
        rebuild_stream-Watched mode b t p.last_rebuild_ms (record p { last_rebuild_ms = t }) refl
          (ground arith) (ground arith) i.1)
      λ _. i

rebuild_stalled-Watched :
    (mode : Mode) (f : Failure) (p : Player)
    → Watched f.now_ms p
    → may_rebuild f.now_ms p ≡ true
    → Watched f.now_ms (rebuild_stalled mode f p)
unfolding rebuild_stalled count_stall give_up
rebuild_stalled-Watched mode f p ((l, k), s) e =
    let t = f.now_ms in
    let q = count_stall t p in
    if_elim (Watched t) (ltb max_stall_rebuilds q.stall_rebuilds) (give_up q)
      (rebuild_stream mode f.rebuild q)
      (λ _. close_stream-Watched t q (
        (omega arith, k),
        Spaced-later min_rebuild_interval_ms p.last_rebuild_ms t (rebuilds p.calls) l s,
      ))
      λ _. rebuild_stream-Watched mode f.rebuild t p.last_rebuild_ms q refl (ground arith) k s

Watched-Kept : (mode : Mode) → Kept InOrder Watched mode
unfolding escalate rebuilds
Watched-Kept mode = record {
  wait = λ a b p (l, k) ((m, _), s). ((omega arith, k), s);
  close = λ t p i. close_stream-Watched t p i;
  called = λ t p i h n. (i, i);
  count = λ t n p i. i;
  escalated = λ t f p i. ground arith;
  reconnect = λ t b p i _. rebuild_disconnected-Watched mode t b p i;
  stall = λ f p i _ m. rebuild_stalled-Watched mode f p i m;
}

-- While the clock of the rounds does not run backwards, two rebuilds of the stream are at least 1000 ms
-- apart, whether they follow a change of the routing or a stall.
pub pump_loop-Spaced :
    (mode : Mode) (bpf now_ms : ℕ) (s : Pump) (rounds : List Round)
    → (s.player.last_rebuild_ms ≤ now_ms) × (now_ms < 2 ^ 64)
    → Spaced min_rebuild_interval_ms s.player.last_rebuild_ms (rebuilds s.player.calls)
    → AllTimed InOrder now_ms rounds
    → let p = (pump_loop mode bpf s rounds).player in
      Spaced min_rebuild_interval_ms p.last_rebuild_ms (rebuilds p.calls)
pump_loop-Spaced mode bpf now_ms s rounds l i o =
    (pump_loop-kept (Watched-Kept mode) now_ms bpf s rounds o (l, i)).1
