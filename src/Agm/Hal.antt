-- ===== src/Agm/Hal.antt =====
-- `AgmFifoPlayer::restart_audio_hal` of src/client/agm_fifo_player.cpp: the audio service is killed by its
-- process id, which a property of the system gives as text. The text is an argument.
use audio_router.Prelude.{
  ℕ, ◌≡◌, ◌≢◌, refl, arith, Bool, true, false, not, ◌&&◌, List, [], ◌∷◌, length, leb, ◌==◌,
  if◌then◌else◌, Option, none, some,
}
use audio_router.Prelude.Text.{same_text}

unfoldable pub all_digits : List ℕ → Bool
all_digits [] = true
all_digits (c ∷ cs) = leb 48 c && leb c 57 && all_digits cs

-- A white space at the end of a property's text goes.
unfoldable pub is_pid : List ℕ → Bool
unfolding all_digits
is_pid text = not (length text == 0) && all_digits text

-- The new process id, which is looked for 30 times.
unfoldable pub first_new : (old_pid : List ℕ) → List (List ℕ) → Option (List ℕ)
first_new old_pid [] = none
first_new old_pid (text ∷ texts) =
    let later = first_new old_pid texts in
    if not (length text == 0) && not (same_text text old_pid) then some text else later

-- The process that was killed, and `restarted_hal_pid_` afterwards.
pub record Restart : Type 0 where
  pub killed : Option (List ℕ)
  pub restarted_hal_pid : List ℕ

abbrev pub noted : (restarted : List ℕ) → Option (List ℕ) → List ℕ
noted restarted none = restarted
noted restarted (some new_pid) = new_pid

unfoldable pub restart_audio_hal : (old_pid restarted : List ℕ) → (polls : List (List ℕ)) → Restart
unfolding is_pid first_new
restart_audio_hal old_pid restarted polls =
    let untouched : Restart = record { killed = none; restarted_hal_pid = restarted } in
    if not (is_pid old_pid)
    then untouched
    else if same_text old_pid restarted
    then untouched
    else record {
      killed = some old_pid;
      restarted_hal_pid = noted restarted (first_new old_pid polls);
    }

same_text_self : (s : List ℕ) → same_text s s ≡ true
unfolding same_text
same_text_self [] = refl
same_text_self (c ∷ s) = ground (arith, same_text_self s)

-- Only a text of digits is ever killed, and never the process that the player has already brought back;
-- and where the service comes up again under another process id, the next recovery spares it.
pub restart_audio_hal-spares :
    (old_pid restarted new_pid : List ℕ) (polls later : List (List ℕ))
    → let first = restart_audio_hal old_pid restarted polls in
      (first.killed ≢ none → (is_pid old_pid ≡ true) × (same_text old_pid restarted ≡ false))
      × (first.killed ≢ none
          → first_new old_pid polls ≡ some new_pid
          → (restart_audio_hal new_pid first.restarted_hal_pid later).killed ≡ none)
unfolding restart_audio_hal
restart_audio_hal-spares old_pid restarted new_pid polls later =
    ground (arith, same_text_self new_pid)
