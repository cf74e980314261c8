-- ===== src/Agm/Silent.antt =====
-- What `AgmFifoPlayer` does without a pipe, and what a full pipe leads to, src/client/agm_fifo_player.cpp.
use audio_router.Prelude.{
  ℕ, ◌≡◌, refl, ap, ◌∙◌, sym, arith, true, false, not, ◌||◌, List, [], ◌∷◌, ltb, none, ◌⊎◌, inl,
  inr, Option, some, if_elim,
}
use audio_router.Prelude.Int.{ℤ}
use mathlib.Core.Path.{subst}
use audio_router.Prelude.Word.{sub64}
use audio_router.Agm.{Player, recovery, recovery_reader_timeout_ms, min_recover_interval_ms}
use audio_router.Agm.Process.{
  Spawn, wait_for_reader, kill_agmplay, forked, install, Result, respawn_subprocess,
}
use audio_router.Agm.Recover.{Recovery, check_mixer, recover, replace}
use audio_router.Agm.Sink.{Turn, Writing, write_frames, returned}
use audio_router.Agm.Session.{Step, opens, shuts, writes, checks, step, run}

-- The client goes on to write, and the watcher to look; nobody opens or closes the player.
abbrev pub PlaysOn : List Step → Type 0
PlaysOn [] = Unit {0}
PlaysOn (writes _ _ _ _ _ ∷ ss) = PlaysOn ss
PlaysOn (checks _ _ ∷ ss) = PlaysOn ss
PlaysOn (opens _ _ _ ∷ ss) = ⊥
PlaysOn (shuts _ ∷ ss) = ⊥

-- Without a pipe a write does nothing and returns 0.
write_frames-idle :
    (r : Recovery) (c n : ℕ) (pcm : List ℤ) (ts : List Turn) (p : Player)
    → p.has_pipe ≡ false
    → write_frames r c n pcm ts p ≡ returned 0 p
unfolding write_frames
write_frames-idle r c n pcm ts p e =
    let shut : not p.is_open || not p.has_pipe ≡ true = ground arith in rw shut (ground arith)

-- While nobody closes a player that is open without a pipe, it stays so, and nothing is spawned.
run-idle :
    (steps : List Step) (p : Player)
    → PlaysOn steps
    → p.has_pipe ≡ false
    → p.is_open ≡ true
    → let q = run steps p in (q.has_pipe ≡ false) × (q.is_open ≡ true) × (q.events ≡ p.events)
unfolding run step check_mixer
run-idle [] p o e f = (e, f, refl)
run-idle (opens s a b ∷ ss) p o e f = elim o [ ]
run-idle (shuts a ∷ ss) p o e f = elim o [ ]
run-idle (checks c last ∷ ss) p o e f =
    let q = step (checks c last) p in
    let (u, v, w) : (q.has_pipe ≡ false) × (q.is_open ≡ true) × (q.events ≡ p.events) =
      ground arith in
    let (x, y, z) = run-idle ss q o u v in (x, y, z ∙ w)
run-idle (writes r c n pcm ts ∷ ss) p o e f =
    let same : step (writes r c n pcm ts) p ≡ p =
      ap (λ (w : Writing). w.player) (write_frames-idle r c n pcm ts p e) in
    let Silent : Player → Type 0 = λ (u : Player).
      ((run ss u).has_pipe ≡ false)
      × ((run ss u).is_open ≡ true)
      × ((run ss u).events ≡ p.events) in
    subst Silent (sym same) (run-idle ss p o e f)

-- `mkfifo` fails, or `fork`, or agmplay does not open the pipe.
abbrev pub Fails : Spawn → Type 0
Fails s =
    (s.makes_pipe ≡ false)
    ⊎ ((s.fork ≡ none) ⊎ (wait_for_reader recovery_reader_timeout_ms s.reader ≡ false))

abbrev IsStranded : Player → Type 0
IsStranded p = (p.has_pipe ≡ false) × (p.is_open ≡ true)

abbrev Misses : Result → Type 0
Misses r = (r.ok ≡ false) × IsStranded r.after

forked-Misses :
    (s : Spawn) (child : Option ℕ) (p : Player)
    → (child ≡ none) ⊎ (wait_for_reader recovery_reader_timeout_ms s.reader ≡ false)
    → s.closes ≡ false
    → IsStranded p
    → Misses (forked s child p)
unfolding forked install
forked-Misses s none p e c i = (refl, i)
forked-Misses s (some pid) p (inl e) c i = absurd (cc)
forked-Misses s (some pid) p (inr e) c (i, j) = rw (c, j, e) (refl, (i, refl))

respawn_subprocess-Misses :
    (s : Spawn) (p : Player)
    → Fails s
    → s.closes ≡ false
    → IsStranded p
    → Misses (respawn_subprocess s p)
unfolding respawn_subprocess
respawn_subprocess-Misses s p (inl e) c i = rw e (refl, i)
respawn_subprocess-Misses s p (inr e) c i =
    if_elim Misses (not s.makes_pipe) _ _ (λ _. (refl, i)) λ _. forked-Misses s s.fork p e c i

kill_agmplay-IsStranded : (p : Player) → IsStranded p → IsStranded (kill_agmplay p)
unfolding kill_agmplay
kill_agmplay-IsStranded p i =
    elim p.agmplay as (λ x. p.agmplay ≡ x → IsStranded (kill_agmplay p)) [
      | none ↦ λ e. rw e i
      | some pid ↦ λ e. rw e i
    ]
      refl

replace-IsStranded :
    (r : Recovery) (p : Player)
    → Fails r.spawn
    → r.spawn.closes ≡ false
    → p.is_open ≡ true
    → IsStranded (replace r p)
unfolding replace
replace-IsStranded r p f c o =
    let idle = record p { has_pipe = false } in
    let gone = kill_agmplay idle in
    let (a, b) = kill_agmplay-IsStranded idle (refl, o) in
    let (e, i) =
      respawn_subprocess-Misses r.spawn (record gone { session_closed = false }) f c (a, b) in
    rw e i

-- A recovery of an open player that is due, which no `close` comes between, and whose pipe or process
-- cannot be made or whose agmplay does not open the pipe in time, leaves the player open without a pipe; and
-- while nobody closes it then, it stays so, and no later write or look at the mixer starts another
-- recovery or spawns agmplay.
pub run-silent :
    (r : Recovery) (p : Player) (steps : List Step)
    → p.is_open ≡ true
    → p.recovering ≡ false
    → ltb (sub64 r.now_ms p.last_recover_ms) min_recover_interval_ms ≡ false
    → r.closes ≡ false
    → r.spawn.closes ≡ false
    → Fails r.spawn
    → PlaysOn steps
    → let q = recover r p in
      let u = run steps q in (u.has_pipe ≡ false) × (u.is_open ≡ true) × (u.events ≡ q.events)
unfolding recover
run-silent r p steps o v due c d f w =
    let begun = record p { last_recover_ms = r.now_ms; events = recovery r.now_ms ∷ p.events } in
    let (a, b) = replace-IsStranded r begun f d o in
    let replaced : recover r p ≡ replace r begun = rw (v, due, c, o) refl in
    run-idle steps (recover r p) w (rw replaced a) (rw replaced b)
