-- ===== src/Agm/Process.antt =====
-- The agmplay process of `AgmFifoPlayer`, src/client/agm_fifo_player.cpp: how it is spawned, waited for
-- and ended. What the system calls answer is an argument.
use audio_router.Prelude.{
  ℕ, zero, suc, ◌+◌, ◌/◌, Bool, true, false, not, ◌||◌, List, ◌∷◌, ltb, if◌then◌else◌, Option, none,
  some,
}
use audio_router.Agm.{
  Player, Event, spawned, interrupted, killed, reaped, recovery_reader_timeout_ms,
}

-- `open` of the pipe for writing: the pipe, no reader yet (ENXIO), or another error.
pub data Open : Type 0 where
  connected no_reader failed : Open

-- The answers to the attempts are given by their numbers.
unfoldable pub wait_from : (rounds i : ℕ) → (ℕ → Open) → Bool
wait_from zero i answers = false
wait_from (suc n) i answers =
    let later = wait_from n (i + 1) answers in
    elim (answers i) [ connected ↦ true | no_reader ↦ later | failed ↦ false ]

-- An attempt every 100 ms
unfoldable pub wait_for_reader : (timeout_ms : ℕ) → (ℕ → Open) → Bool
unfolding wait_from
wait_for_reader timeout_ms answers = wait_from ((timeout_ms + 99) / 100) 0 answers

-- `kill` with SIGKILL and then `waitpid`
unfoldable pub kill_agmplay : Player → Player
kill_agmplay p = elim p.agmplay [
  | none ↦ p
  | some pid ↦ record p { agmplay = none; events = reaped pid ∷ killed pid ∷ p.events }
]

-- How `close` ends the process, where it exits at a poll: 50 polls behind the end of the file, 50 behind
-- SIGINT, and then SIGKILL.
unfoldable pub ending : (exits_at : Option ℕ) → (pid : ℕ) → List Event → List Event
ending none pid events = reaped pid ∷ killed pid ∷ interrupted pid ∷ events
ending (some n) pid events =
    if ltb n 50
    then reaped pid ∷ events
    else if ltb n 100
    then reaped pid ∷ interrupted pid ∷ events
    else reaped pid ∷ killed pid ∷ interrupted pid ∷ events

unfoldable pub end_agmplay : (exits_at : Option ℕ) → Player → Option ℕ → Player
unfolding ending
end_agmplay exits_at p none = p
end_agmplay exits_at p (some pid) = record p {
  agmplay = none;
  events = ending exits_at pid p.events;
}

unfoldable pub close : (exits_at : Option ℕ) → Player → Player
unfolding end_agmplay
close exits_at p = end_agmplay exits_at (record p { is_open = false; has_pipe = false }) p.agmplay

-- The answers to a respawn: `mkfifo`, `fork`, a concurrent `close` in front of the lock with the end of
-- the process that it meets, and the pipe.
pub record Spawn : Type 0 where
  pub makes_pipe : Bool
  pub fork : Option ℕ
  pub closes : Bool
  pub exits_at : Option ℕ
  pub reader : ℕ → Open

abbrev pub close_if : Bool → Option ℕ → Player → Player
close_if b exits_at p = if b then close exits_at p else p

-- A player, and whether a call has succeeded.
pub record Result : Type 0 where
  pub after : Player
  pub ok : Bool

-- Behind `fork`: a child that is not wanted any more is killed.
unfoldable pub install : Spawn → (pid : ℕ) → Player → Result
install s pid p =
    let reads = wait_for_reader recovery_reader_timeout_ms s.reader in
    if not p.is_open
    then record { after = record p { events = reaped pid ∷ killed pid ∷ p.events }; ok = false }
    else record {
      after = record p { agmplay = some pid; has_pipe = reads || p.has_pipe };
      ok = reads;
    }

unfoldable pub forked : Spawn → Option ℕ → Player → Result
unfolding install
forked s none p = record { after = p; ok = false }
forked s (some pid) p =
    install s pid (close_if s.closes s.exits_at (record p { events = spawned pid ∷ p.events }))

-- It returns true also where the header of the sound cannot be written.
unfoldable pub respawn_subprocess : Spawn → Player → Result
unfolding forked
respawn_subprocess s p =
    if not s.makes_pipe then record { after = p; ok = false } else forked s s.fork p

-- `open`, with the backend of `backend_named`
unfoldable pub open_player : Spawn → (exits_at fails_at : Option ℕ) → Player → Result
unfolding respawn_subprocess
open_player s exits_at fails_at p =
    let q = close_if p.is_open exits_at p in
    let r = respawn_subprocess s (record q { is_open = true }) in
    if r.ok then r else record { after = close fails_at r.after; ok = false }
