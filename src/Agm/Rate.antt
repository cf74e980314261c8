-- ===== src/Agm/Rate.antt =====
-- How often `AgmFifoPlayer` replaces agmplay, src/client/agm_fifo_player.cpp.
use audio_router.Prelude.{
  ℕ, ◌+◌, ◌^◌, ◌≤◌, ◌<◌, ◌≡◌, refl, arith, true, false, not, List, [], ◌∷◌, ltb, if_elim, Option,
  none, some,
}
use audio_router.Prelude.Spacing.{Spaced, Spaced-Since}
use audio_router.Prelude.Word.{sub64}
use audio_router.Agm.{
  Player, Event, spawned, interrupted, killed, reaped, recovery, min_recover_interval_ms,
}
use audio_router.Agm.Process.{
  Spawn, close, end_agmplay, ending, close_if, kill_agmplay, install, forked, respawn_subprocess,
  open_player,
}
use audio_router.Agm.Recover.{Recovery, recover, replace, check_mixer}
use audio_router.Agm.Session.{
  Kept, Step, opens, writes, shuts, checks, step, run, write_frames-kept,
}

-- The times of the recoveries, the last one first.
unfoldable pub recoveries : List Event → List ℕ
recoveries [] = []
recoveries (recovery t ∷ es) = t ∷ recoveries es
recoveries (spawned _ ∷ es) = recoveries es
recoveries (interrupted _ ∷ es) = recoveries es
recoveries (killed _ ∷ es) = recoveries es
recoveries (reaped _ ∷ es) = recoveries es

abbrev Recorded : ℕ → List Event → Type 0
Recorded last events = Spaced min_recover_interval_ms last (recoveries events)

-- A change without a recovery.
abbrev Quiet : Player → Player → Type 0
Quiet p q = (q.last_recover_ms ≡ p.last_recover_ms) × (recoveries q.events ≡ recoveries p.events)

ending-recoveries :
    (exits_at : Option ℕ) (pid : ℕ) (es : List Event)
    → recoveries (ending exits_at pid es) ≡ recoveries es
unfolding ending recoveries
ending-recoveries none pid es = refl
ending-recoveries (some n) pid es = ground arith

end_agmplay-Quiet :
    (exits_at : Option ℕ) (p : Player) (agmplay : Option ℕ)
    → Quiet p (end_agmplay exits_at p agmplay)
unfolding end_agmplay
end_agmplay-Quiet exits_at p none = (refl, refl)
end_agmplay-Quiet exits_at p (some pid) = (refl, ending-recoveries exits_at pid p.events)

close-Quiet : (exits_at : Option ℕ) (p : Player) → Quiet p (close exits_at p)
unfolding close
close-Quiet exits_at p =
    end_agmplay-Quiet exits_at (record p { is_open = false; has_pipe = false }) p.agmplay

kill_agmplay-Quiet : (p : Player) → Quiet p (kill_agmplay p)
unfolding kill_agmplay recoveries
kill_agmplay-Quiet p = ground arith

install-Quiet : (s : Spawn) (pid : ℕ) (p : Player) → Quiet p (install s pid p).after
unfolding install recoveries
install-Quiet s pid p = ground arith

forked-Quiet : (s : Spawn) (fork : Option ℕ) (p : Player) → Quiet p (forked s fork p).after
unfolding forked recoveries
forked-Quiet s none p = (refl, refl)
forked-Quiet s (some pid) p =
    let begun : Player = record p { events = spawned pid ∷ p.events } in
    ground (
      arith,
      close-Quiet s.exits_at begun,
      install-Quiet s pid (close_if s.closes s.exits_at begun),
    )

respawn_subprocess-Quiet : (s : Spawn) (p : Player) → Quiet p (respawn_subprocess s p).after
unfolding respawn_subprocess
respawn_subprocess-Quiet s p = ground (arith, forked-Quiet s s.fork p)

replace-Quiet : (r : Recovery) (p : Player) → Quiet p (replace r p)
unfolding replace
replace-Quiet r p =
    let gone = kill_agmplay (record p { has_pipe = false }) in
    ground (
      arith,
      kill_agmplay-Quiet (record p { has_pipe = false }),
      respawn_subprocess-Quiet r.spawn (record gone { session_closed = false }),
    )

open_player-Quiet :
    (s : Spawn) (exits_at fails_at : Option ℕ) (p : Player)
    → Quiet p (open_player s exits_at fails_at p).after
unfolding open_player
open_player-Quiet s exits_at fails_at p =
    let q : Player = record (close_if p.is_open exits_at p) { is_open = true } in
    ground (
      arith,
      close-Quiet exits_at p,
      respawn_subprocess-Quiet s q,
      close-Quiet fails_at (respawn_subprocess s q).after,
    )

abbrev Watched : ℕ → Player → Type 0
Watched now p = ((p.last_recover_ms ≤ now) × (now < 2 ^ 64)) × Recorded p.last_recover_ms p.events

Quiet-Watched : (now : ℕ) (p q : Player) → Quiet p q → Watched now p → Watched now q
Quiet-Watched now p q (e, f) (l, s) = rw (e, f) (l, s)

recover-Watched : (r : Recovery) (p : Player) → Watched r.now_ms p → Watched r.now_ms (recover r p)
unfolding recover recoveries
recover-Watched r p ((l, k), s) =
    let t = r.now_ms in
    let last = p.last_recover_ms in
    let begun : Player = record p { last_recover_ms = t; events = recovery t ∷ p.events } in
    let q = close_if r.closes r.exits_at begun in
    let early = ltb (sub64 t last) min_recover_interval_ms in
    if_elim (Watched t) p.recovering p _ (λ _. ((l, k), s))
      λ _.
        if_elim (Watched t) early p _ (λ _. ((l, k), s))
          λ e.
            let apart : last + min_recover_interval_ms ≤ t = ground arith in
            let since = Spaced-Since min_recover_interval_ms last t (recoveries p.events) apart s in
            let w : Watched t begun = ((omega arith, k), (omega arith, since)) in
            let v : Watched t q =
              if_elim (Watched t) r.closes _ begun
                (λ _.
                  Quiet-Watched t begun (close r.exits_at begun) (close-Quiet r.exits_at begun) w)
                λ _. w in
            if_elim (Watched t) (not q.is_open) q _ (λ _. v)
              λ _. Quiet-Watched t q (replace r q) (replace-Quiet r q) v

Watched-Kept : (r : Recovery) → Kept (Watched r.now_ms) r
Watched-Kept r = record {
  stalls = λ n p i. i;
  marks = λ b p i. i;
  recovers = λ p i. recover-Watched r p i;
}

-- The clock of the writes does not run backwards.
abbrev pub Ordered : ℕ → List Step → Type 0
Ordered now [] = Unit {0}
Ordered now (writes r c n pcm ts ∷ ss) =
    ((now ≤ r.now_ms) × (r.now_ms < 2 ^ 64)) × Ordered r.now_ms ss
Ordered now (_ ∷ ss) = Ordered now ss

-- While the clock does not run backwards, whatever is called and however it fails, the recoveries, each
-- of which ends a process and restarts the audio service, begin at least 3000 ms apart.
pub run-Spaced :
    (now_ms : ℕ) (steps : List Step) (p : Player)
    → (p.last_recover_ms ≤ now_ms) × (now_ms < 2 ^ 64)
    → Spaced min_recover_interval_ms p.last_recover_ms (recoveries p.events)
    → Ordered now_ms steps
    → let q = run steps p in Spaced min_recover_interval_ms q.last_recover_ms (recoveries q.events)
unfolding run step check_mixer
run-Spaced now [] p l s o = s
run-Spaced now (opens sp a b ∷ ss) p l s o =
    let (k, u) =
      Quiet-Watched now p (open_player sp a b p).after (open_player-Quiet sp a b p) (l, s) in
    run-Spaced now ss (open_player sp a b p).after k u o
run-Spaced now (shuts a ∷ ss) p l s o =
    let (k, u) = Quiet-Watched now p (close a p) (close-Quiet a p) (l, s) in
    run-Spaced now ss (close a p) k u o
run-Spaced now (checks c last ∷ ss) p l s o =
    let q = step (checks c last) p in
    let (k, u) = Quiet-Watched now p q (ground arith) (l, s) in run-Spaced now ss q k u o
run-Spaced now (writes r c n pcm ts ∷ ss) p (l, _) s ((m, k), o) =
    let start : Watched r.now_ms p = ((omega arith, k), s) in
    let (v, u) = write_frames-kept (Watched-Kept r) c n pcm ts p start in
    run-Spaced r.now_ms ss (step (writes r c n pcm ts) p) v u o
