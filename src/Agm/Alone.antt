-- ===== src/Agm/Alone.antt =====
-- The agmplay processes that `AgmFifoPlayer` starts and ends, src/client/agm_fifo_player.cpp.
use audio_router.Prelude.{
  ℕ, ◌≡◌, refl, ap, sym, ◌∙◌, arith, true, false, not, List, [], ◌∷◌, ltb, if_elim, Option, none,
  some,
}
use mathlib.Core.Path.{subst}
use audio_router.Prelude.Word.{sub64}
use audio_router.Agm.{
  Player, Event, spawned, interrupted, killed, reaped, recovery, min_recover_interval_ms,
}
use audio_router.Agm.Process.{
  Spawn, Result, close, end_agmplay, ending, close_if, kill_agmplay, install, forked,
  respawn_subprocess, open_player,
}
use audio_router.Agm.Recover.{Recovery, replace, recover}

-- The process that has not been waited for.
unfoldable pub alive : List Event → Option ℕ
alive [] = none
alive (spawned pid ∷ es) = some pid
alive (interrupted _ ∷ es) = alive es
alive (killed _ ∷ es) = alive es
alive (reaped _ ∷ es) = none
alive (recovery _ ∷ es) = alive es

-- A process is started while there is none, and signals and waits are for the one there is.
abbrev pub Alone : List Event → Type 0
Alone [] = Unit {0}
Alone (spawned _ ∷ es) = (alive es ≡ none) × Alone es
Alone (interrupted pid ∷ es) = (alive es ≡ some pid) × Alone es
Alone (killed pid ∷ es) = (alive es ≡ some pid) × Alone es
Alone (reaped pid ∷ es) = (alive es ≡ some pid) × Alone es
Alone (recovery _ ∷ es) = Alone es

-- The player knows the process there is, and has none once it is closed.
abbrev pub Knows : Player → Type 0
Knows p = (alive p.events ≡ p.agmplay) × Alone p.events × (p.is_open ≡ false → p.agmplay ≡ none)

abbrev Ended : List Event → Type 0
Ended es = (alive es ≡ none) × Alone es

ending-Ended :
    (exits_at : Option ℕ) (pid : ℕ) (es : List Event)
    → alive es ≡ some pid
    → Alone es
    → Ended (ending exits_at pid es)
unfolding ending alive
ending-Ended none pid es e a = ground arith
ending-Ended (some n) pid es e a = ground arith

end_agmplay-Ended :
    (exits_at : Option ℕ) (p : Player) (agmplay : Option ℕ)
    → p.agmplay ≡ agmplay
    → (alive p.events ≡ agmplay) × Alone p.events
    → let q = end_agmplay exits_at p agmplay in
      Ended q.events × (q.agmplay ≡ none) × (q.is_open ≡ p.is_open)
unfolding end_agmplay
end_agmplay-Ended exits_at p none n (e, a) = ((e, a), n, refl)
end_agmplay-Ended exits_at p (some pid) n (e, a) =
    (ending-Ended exits_at pid p.events e a, refl, refl)

close-Ended :
    (exits_at : Option ℕ) (p : Player)
    → (alive p.events ≡ p.agmplay) × Alone p.events
    → let q = close exits_at p in Ended q.events × (q.agmplay ≡ none) × (q.is_open ≡ false)
unfolding close
close-Ended exits_at p i =
    end_agmplay-Ended exits_at (record p { is_open = false; has_pipe = false }) p.agmplay refl i

pub close-Knows : (exits_at : Option ℕ) (p : Player) → Knows p → Knows (close exits_at p)
close-Knows exits_at p (e, a, _) =
    let ((e', a'), n, _) = close-Ended exits_at p (e, a) in (e' ∙ sym n, a', λ _. n)

kill_agmplay-Knows :
    (p : Player)
    → (alive p.events ≡ p.agmplay) × Alone p.events
    → Ended (kill_agmplay p).events × ((kill_agmplay p).agmplay ≡ none)
unfolding kill_agmplay alive
kill_agmplay-Knows p (e, a) = ground arith

install-Knows :
    (s : Spawn) (pid : ℕ) (p : Player)
    → (alive p.events ≡ some pid) × Alone p.events
    → p.agmplay ≡ none
    → Knows (install s pid p).after
unfolding install alive
install-Knows s pid p (e, a) n = ground arith

-- A player without a process, which `close` leaves so.
abbrev Idle : Player → Type 0
Idle p = Ended p.events × (p.agmplay ≡ none)

-- `close` without a process
close-idle :
    (exits_at : Option ℕ) (p : Player)
    → p.agmplay ≡ none
    → close exits_at p ≡ record p { is_open = false; has_pipe = false }
unfolding close end_agmplay
close-idle exits_at p n =
    ap (end_agmplay exits_at (record p { is_open = false; has_pipe = false })) n

forked-Knows : (s : Spawn) (fork : Option ℕ) (p : Player) → Idle p → Knows (forked s fork p).after
unfolding forked alive
forked-Knows s none p ((e, a), n) = (e ∙ sym n, a, λ _. n)
forked-Knows s (some pid) p ((e, a), n) =
    let begun : Player = record p { events = spawned pid ∷ p.events } in
    let shut : Player = record begun { is_open = false; has_pipe = false } in
    let After : Player → Type 0 = λ (q : Player). Knows (install s pid q).after in
    let known : After shut = install-Knows s pid shut (refl, (e, a)) n in
    if_elim After s.closes (close s.exits_at begun) begun
      (λ _. subst After (sym (close-idle s.exits_at begun n)) known)
      λ _. install-Knows s pid begun (refl, (e, a)) n

respawn_subprocess-Knows : (s : Spawn) (p : Player) → Idle p → Knows (respawn_subprocess s p).after
unfolding respawn_subprocess
respawn_subprocess-Knows s p ((e, a), n) =
    if_elim (λ (r : Result). Knows r.after) (not s.makes_pipe) _ _ (λ _. (e ∙ sym n, a, λ _. n))
      λ _. forked-Knows s s.fork p ((e, a), n)

replace-Knows :
    (r : Recovery) (p : Player)
    → (alive p.events ≡ p.agmplay) × Alone p.events
    → Knows (replace r p)
unfolding replace
replace-Knows r p i =
    let gone = kill_agmplay (record p { has_pipe = false }) in
    let (d, n) = kill_agmplay-Knows (record p { has_pipe = false }) i in
    let k = respawn_subprocess-Knows r.spawn (record gone { session_closed = false }) (d, n) in
    ground (arith, k)

pub recover-Knows : (r : Recovery) (p : Player) → Knows p → Knows (recover r p)
unfolding recover alive
recover-Knows r p (e, a, n) =
    let begun : Player = record p {
      last_recover_ms = r.now_ms;
      events = recovery r.now_ms ∷ p.events;
    } in
    let q = close_if r.closes r.exits_at begun in
    let kq : Knows q =
      if_elim Knows r.closes _ begun (λ _. close-Knows r.exits_at begun (e, a, n)) λ _. (e, a, n) in
    if_elim Knows p.recovering p _ (λ _. (e, a, n))
      λ _.
        if_elim Knows (ltb (sub64 r.now_ms p.last_recover_ms) min_recover_interval_ms) p _
          (λ _. (e, a, n))
          λ _. if_elim Knows (not q.is_open) q _ (λ _. kq) λ _. replace-Knows r q (kq.0, kq.1)

pub open_player-Knows :
    (s : Spawn) (exits_at fails_at : Option ℕ) (p : Player)
    → Knows p
    → Knows (open_player s exits_at fails_at p).after
unfolding open_player
open_player-Knows s exits_at fails_at p (e, a, n) =
    let q = close_if p.is_open exits_at p in
    let (d, z) : Idle q = ground (arith, close-Ended exits_at p (e, a), n) in
    let r = respawn_subprocess s (record q { is_open = true }) in
    let k = respawn_subprocess-Knows s (record q { is_open = true }) (d, z) in
    if_elim (λ (u : Result). Knows u.after) r.ok r _ (λ _. k) λ _. close-Knows fails_at r.after k
