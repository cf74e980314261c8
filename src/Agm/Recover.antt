-- ===== src/Agm/Recover.antt =====
-- `AgmFifoPlayer::recover` of src/client/agm_fifo_player.cpp: a process that is stuck or dead is replaced.
use audio_router.Prelude.{
  ℕ, Bool, true, false, not, ◌&&◌, ◌∷◌, ltb, leb, ◌==◌, if◌then◌else◌, Option,
}
use audio_router.Prelude.Word.{sub64}
use audio_router.Agm.{Player, recovery, min_recover_interval_ms, session_close_window_ms}
use audio_router.Agm.Process.{Spawn, close_if, kill_agmplay, respawn_subprocess}

-- The clock at the start, a concurrent `close` in front of the lock, and the respawn.
pub record Recovery : Type 0 where
  pub now_ms : ℕ
  pub closes : Bool
  pub exits_at : Option ℕ
  pub spawn : Spawn

-- Under the lock the old process goes, and behind it a new one comes.
unfoldable pub replace : Recovery → Player → Player
replace r p =
    let gone = kill_agmplay (record p { has_pipe = false }) in
    let fresh = respawn_subprocess r.spawn (record gone { session_closed = false }) in
    let q = fresh.after in if fresh.ok then record q { stall_start_ms = 0 } else q

unfoldable pub recover : Recovery → Player → Player
unfolding replace
recover r p =
    let begun = record p { last_recover_ms = r.now_ms; events = recovery r.now_ms ∷ p.events } in
    let q = close_if r.closes r.exits_at begun in
    if p.recovering
    then p
    else if ltb (sub64 r.now_ms p.last_recover_ms) min_recover_interval_ms
    then p
    else if not q.is_open
    then q
    else replace r q

-- `logcat_watch_loop`: the route of the codec is looked at once a second, and a lost one counts as a
-- preemption but for the time behind a recovery.
pub record Check : Type 0 where
  pub now_ms : ℕ
  pub routing_intact : Bool

pub record Watch : Type 0 where
  pub last_mixer_check_ms : ℕ
  pub player : Player

unfoldable pub is_settling : (now_ms : ℕ) → Player → Bool
is_settling now_ms p =
    not (p.last_recover_ms == 0) && ltb (sub64 now_ms p.last_recover_ms) session_close_window_ms

unfoldable pub check_mixer : Check → Watch → Watch
unfolding is_settling
check_mixer c w =
    let p = w.player in
    if leb 1000 (sub64 c.now_ms w.last_mixer_check_ms)
    then record {
      last_mixer_check_ms = c.now_ms;
      player =
          if not (is_settling c.now_ms p) && p.is_open && not p.recovering && not c.routing_intact
          then record p { session_closed = true }
          else p;
    }
    else w
