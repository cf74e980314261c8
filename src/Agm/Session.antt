-- ===== src/Agm/Session.antt =====
-- Sessions of `AgmFifoPlayer`, src/client/agm_fifo_player.cpp: what a write keeps, and series of calls.
use audio_router.Prelude.{
  ℕ, arith, Bool, false, not, ◌||◌, List, [], ◌∷◌, length, ltb, leb, ◌==◌, if_elim, Option,
}
use audio_router.Prelude.Int.{ℤ}
use audio_router.Prelude.Word.{sub64}
use audio_router.Agm.{Player, stall_trigger_ms}
use audio_router.Agm.Process.{Spawn, close, open_player}
use audio_router.Agm.Recover.{Recovery, Check, recover, check_mixer}
use audio_router.Agm.Sink.{
  Turn, Writing, closes, interrupted, failed, full, takes, restart, turn, with_start, is_some,
  finish, write_loop, write_frames, samples, pcm_bytes,
}
use audio_router.Agm.Alone.{Knows, recover-Knows, close-Knows, open_player-Knows}

-- A property that a recovery keeps and that does not look at the marks of a write.
pub record Kept (P : Player → Type 0) (r : Recovery) : Type 0 where
  pub stalls : (n : ℕ) (p : Player) → P p → P (record p { stall_start_ms = n })
  pub marks : (b : Bool) (p : Player) → P p → P (record p { session_closed = b })
  pub recovers : (p : Player) → P p → P (recover r p)

module _ {P : Player → Type 0} {r : Recovery} (k : Kept P r) where
  turn-kept : (bytes : List ℕ) (w : Writing) (t : Turn) → P w.player → P (turn r bytes w t).player
  unfolding turn restart
  turn-kept bytes w closes i = i
  turn-kept bytes w interrupted i = i
  turn-kept bytes w failed i = k.recovers w.player i
  turn-kept bytes w (full a b) i =
      let p = with_start a w.player in
      let j = k.stalls p.stall_start_ms w.player i in
      if_elim (λ (u : Writing). P u.player) (leb stall_trigger_ms (sub64 b p.stall_start_ms)) _ _
        (λ _. k.recovers p j) λ _. j
  turn-kept bytes w (takes room) i = k.stalls 0 w.player i

  finish-kept : (bytes : List ℕ) (n : ℕ) (w : Writing) → P w.player → P (finish bytes n w).player
  unfolding finish
  finish-kept bytes n w i = ground arith

  write_loop-kept :
      (bytes : List ℕ) (n : ℕ) (w : Writing) (ts : List Turn)
      → P w.player
      → P (write_loop r bytes n w ts).player
  unfolding write_loop
  write_loop-kept bytes n w [] i = finish-kept bytes n w i
  write_loop-kept bytes n w (t ∷ ts) i =
      if_elim (λ (u : Writing). P u.player)
        (is_some w.result || not (ltb (length w.piped) (length bytes))) _ _
        (λ _. finish-kept bytes n w i)
        λ _. write_loop-kept bytes n (turn r bytes w t) ts (turn-kept bytes w t i)

  pub write_frames-kept :
      (channels n : ℕ) (pcm : List ℤ) (ts : List Turn) (p : Player)
      → P p
      → P (write_frames r channels n pcm ts p).player
  unfolding write_frames
  write_frames-kept channels n pcm ts p i =
      let After : Writing → Type 0 = λ (u : Writing). P u.player in
      if_elim After (n == 0) _ _ (λ _. i)
        λ _.
          if_elim After (not p.is_open || not p.has_pipe) _ _ (λ _. i)
            λ _.
              if_elim After p.recovering _ _ (λ _. i)
                λ _.
                  if_elim After p.session_closed _ _ (λ _. k.recovers _ (k.marks false p i))
                    λ _. write_loop-kept (pcm_bytes (samples channels n pcm)) n _ ts i

-- The calls of a session: the client opens, writes and closes, and the watcher looks at the route.
pub data Step : Type 0 where
  opens : Spawn → (exits_at fails_at : Option ℕ) → Step
  writes : Recovery → (channels num_frames : ℕ) → List ℤ → List Turn → Step
  shuts : (exits_at : Option ℕ) → Step
  checks : Check → (last_mixer_check_ms : ℕ) → Step

unfoldable pub step : Step → Player → Player
step (opens s a b) p = (open_player s a b p).after
step (writes r c n pcm ts) p = (write_frames r c n pcm ts p).player
step (shuts a) p = close a p
step (checks c last) p = (check_mixer c (record { last_mixer_check_ms = last; player = p })).player

unfoldable pub run : List Step → Player → Player
unfolding step
run [] p = p
run (s ∷ ss) p = run ss (step s p)

Knows-Kept : (r : Recovery) → Kept Knows r
Knows-Kept r = record {
  stalls = λ n p i. i;
  marks = λ b p i. i;
  recovers = λ p i. recover-Knows r p i;
}

step-Knows : (s : Step) (p : Player) → Knows p → Knows (step s p)
unfolding step check_mixer
step-Knows (opens s a b) p i = open_player-Knows s a b p i
step-Knows (writes r c n pcm ts) p i = write_frames-kept (Knows-Kept r) c n pcm ts p i
step-Knows (shuts a) p i = close-Knows a p i
step-Knows (checks c last) p i = ground arith

-- Through any series of calls, failures, timeouts and races of `close` with a spawn, agmplay is spawned
-- only while no other one is left, a signal or a wait goes only to the process that there is, and none
-- is left behind a player that is closed.
pub run-Knows : (steps : List Step) (p : Player) → Knows p → Knows (run steps p)
unfolding run
run-Knows [] p i = i
run-Knows (s ∷ ss) p i = run-Knows ss (step s p) (step-Knows s p i)
