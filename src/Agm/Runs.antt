-- ===== src/Agm/Runs.antt =====
-- Tests of src/client/agm_fifo_player.cpp.
use audio_router.Prelude.{ℕ, ◌≡◌, refl, arith, true, false, List, [], ◌∷◌, none, some, inr}
use audio_router.Prelude.Int.{pos, negsuc, ◌+ℤ◌}
use audio_router.Prelude.Text.{chars, same_text, starts_with}
use audio_router.Prelude.Spacing.{Spaced}
use audio_router.Agm.{
  Player, spawned, killed, reaped, recovery, backend_named, min_recover_interval_ms,
  recovery_reader_timeout_ms,
}
use audio_router.Agm.Process.{
  Open, connected, no_reader, Spawn, close, wait_for_reader, wait_from, open_player,
  respawn_subprocess, forked, install, kill_agmplay, ending, end_agmplay,
}
use audio_router.Agm.Recover.{Recovery, recover, replace}
use audio_router.Agm.Sink.{
  Turn, takes, failed, write_frames, write_loop, turn, finish, samples, downmix, mix, pcm_bytes,
  restart,
}
use audio_router.Agm.Alone.{Knows, alive}
use audio_router.Agm.Session.{Step, opens, writes, shuts, run, run-Knows, step}
use audio_router.Agm.Rate.{recoveries, run-Spaced}
use audio_router.Agm.Silent.{run-silent}
use audio_router.Agm.Mono.{AllBetween, downmix-AllBetween}
use audio_router.Agm.Whole.{IsPrefix, IsWhole, write_frames-IsWhole}
use audio_router.Agm.Hal.{restart_audio_hal, is_pid, first_new, all_digits}

named_backend : backend_named (chars "agm:SPK") ≡ chars "SPK"
unfolding backend_named starts_with
named_backend = refl

abbrev fresh : Player
fresh = record {
  is_open = false;
  has_pipe = false;
  agmplay = none;
  stall_start_ms = 0;
  last_recover_ms = 0;
  recovering = false;
  session_closed = false;
  events = [];
}

-- agmplay opens the pipe at the first attempt, or never.
abbrev spawn : ℕ → Open → Spawn
spawn pid answer = record {
  makes_pipe = true;
  fork = some pid;
  closes = false;
  exits_at = none;
  reader = λ _. answer;
}

abbrev recovery_at : ℕ → Open → Recovery
recovery_at now_ms answer = record {
  now_ms = now_ms;
  closes = false;
  exits_at = none;
  spawn = spawn 8 answer;
}

-- A stereo frame that the pipe takes, and one that it fails to take.
abbrev play : ℕ → Turn → Step
play now_ms t = writes (recovery_at now_ms connected) 2 1 (pos 3 ∷ negsuc 4 ∷ []) (t ∷ [])

abbrev session : List Step
session =
    opens (spawn 7 connected) none none
    ∷ play 5000 (takes 2)
    ∷ play 6000 failed
    ∷ play 7000 failed
    ∷ play 9500 failed
    ∷ shuts (some 3)
    ∷ []

-- The second failure comes too early for a recovery.
session_events :
    (run session fresh).events
    ≡ reaped 8
      ∷ spawned 8
      ∷ reaped 8
      ∷ killed 8
      ∷ recovery 9500
      ∷ spawned 8
      ∷ reaped 7
      ∷ killed 7
      ∷ recovery 6000
      ∷ spawned 7
      ∷ []
unfolding run step open_player respawn_subprocess forked install wait_for_reader wait_from
    write_frames write_loop turn restart finish samples downmix mix ◌+ℤ◌ recover replace
    kill_agmplay close end_agmplay ending
session_events = refl

run-Knows_example : Knows (run session fresh)
unfolding alive
run-Knows_example = run-Knows session fresh (refl, tt, λ _. refl)

run-Spaced_example :
    let q = run session fresh in
    Spaced min_recover_interval_ms q.last_recover_ms (recoveries q.events)
unfolding recoveries
run-Spaced_example =
    run-Spaced 0 session fresh (omega arith, omega arith) tt
      (
        (omega arith, omega arith),
        (
          (omega arith, omega arith),
          ((omega arith, omega arith), ((omega arith, omega arith), tt)),
        ),
      )

abbrev speaker : Player
speaker = record fresh { is_open = true; has_pipe = true; agmplay = some 7 }

-- agmplay does not open the pipe again behind a failed write.
abbrev stranded : Player
stranded = recover (recovery_at 6000 no_reader) speaker

no_reader_comes : wait_for_reader recovery_reader_timeout_ms (λ _. no_reader) ≡ false
unfolding wait_for_reader wait_from
no_reader_comes = refl

abbrev playing : List Step
playing = play 10000 (takes 2) ∷ play 20000 (takes 2) ∷ play 30000 (takes 2) ∷ []

run-silent_example :
    let q = run playing stranded in
    (q.has_pipe ≡ false) × (q.is_open ≡ true) × (q.events ≡ stranded.events)
run-silent_example =
    run-silent (recovery_at 6000 no_reader) speaker playing refl refl refl refl refl
      (inr (inr no_reader_comes)) tt

downmix-AllBetween_example :
    let pcm = pos 3 ∷ negsuc 4 ∷ pos 7 ∷ pos 7 ∷ [] in AllBetween pcm (downmix pcm)
downmix-AllBetween_example = downmix-AllBetween (pos 3 ∷ negsuc 4 ∷ pos 7 ∷ pos 7 ∷ [])

mixed : downmix (pos 3 ∷ negsuc 5 ∷ pos 7 ∷ pos 7 ∷ []) ≡ negsuc 0 ∷ pos 7 ∷ []
unfolding downmix mix ◌+ℤ◌
mixed = refl

write_frames-IsWhole_example :
    let pcm = pos 3 ∷ negsuc 4 ∷ [] in
    let bytes = pcm_bytes (samples 2 1 pcm) in
    let w = write_frames (recovery_at 6000 connected) 2 1 pcm (takes 1 ∷ takes 1 ∷ []) speaker in
    IsPrefix w.piped bytes × IsWhole 1 bytes w
write_frames-IsWhole_example =
    write_frames-IsWhole (recovery_at 6000 connected) 2 1 (pos 3 ∷ negsuc 4 ∷ [])
      (takes 1 ∷ takes 1 ∷ []) speaker

restarted :
    restart_audio_hal (chars "812") (chars "400") ([] ∷ chars "812" ∷ chars "950" ∷ [])
    ≡ record { killed = some (chars "812"); restarted_hal_pid = chars "950" }
unfolding restart_audio_hal is_pid all_digits first_new same_text
restarted = refl
