-- ===== src/Device/Supervisor.antt =====
-- `device_open_supervisor` of src/client/client.cpp: which attempts it makes, and when it ends.
use audio_router.Prelude.{
  ℕ, zero, suc, ◌*◌, Bool, true, not, ◌&&◌, List, [], ◌∷◌, Option, none, some, ltb, if◌then◌else◌,
  min,
}
use audio_router.Device.Names.{OpenStrategy, max_attempts}

-- What the tests of one round of the inner loop read, in their order: `open->shutdown` at the loop's
-- test, whether a player other than the placeholder is open, and behind the wait `open->shutdown`,
-- `open->result`, which an abandoned attempt may have written last, `finished` of this attempt, and
-- `open->shutdown` again.
pub record Turn : Type 0 where
  pub is_shut_at_test : Bool
  pub is_playing : Bool
  pub is_shut_behind_wait : Bool
  pub result : Bool
  pub finished : Bool
  pub is_shut_at_last : Bool

pub data Ending : Type 0 where
  shut_down already_playing opened exhausted : Ending

-- One attempt: its strategy, its number in it (which picks the node), and the backoff behind it.
pub record Try : Type 0 where
  pub strategy : OpenStrategy
  pub number : ℕ
  pub backoff_ms : ℕ

abbrev pub initial_backoff : ℕ
initial_backoff = 3000

abbrev pub max_backoff : ℕ
max_backoff = 30000

-- `attempts_in_strategy < max_attempts`
abbrev pub has_budget : ℕ → Option ℕ → Bool
has_budget used none = true
has_budget used (some n) = ltb used n

-- The result, and the attempts made; `none` is a supervisor that still tries.
abbrev pub Supervised : Type 0
Supervised = Option (Ending × List Try)

unfoldable pub logged : Try → Supervised → Supervised
logged t none = none
logged t (some (e, ts)) = some (e, t ∷ ts)

-- One round, with the rounds behind it; the flag is never reset, so a round that leaves by it ends both
-- loops.
unfoldable pub on_turn : Turn → Try → Supervised → Supervised
on_turn x t rest =
    if x.is_shut_at_test
    then some (shut_down, [])
    else if x.is_playing
    then some (already_playing, [])
    else if not x.is_shut_behind_wait && (x.finished && x.result)
    then some (opened, t ∷ [])
    else if x.is_shut_at_last
    then some (shut_down, t ∷ [])
    else logged t rest

-- The two loops; `turns k` is the round `k` of all strategies together.
unfoldable pub supervise :
    (fuel : ℕ) → (ℕ → Turn) → (k : ℕ) → List OpenStrategy → (used backoff : ℕ) → Supervised
unfolding on_turn logged
supervise zero turns k strategies used backoff = none
supervise (suc n) turns k [] used backoff = some (exhausted, [])
supervise (suc n) turns k (s ∷ rest) used backoff =
    let again = supervise n turns (suc k) (s ∷ rest) (suc used) (min (backoff * 2) max_backoff) in
    let fall_back = supervise n turns k rest 0 initial_backoff in
    if has_budget used (max_attempts s)
    then on_turn (turns k) (record { strategy = s; number = used; backoff_ms = backoff }) again
    else fall_back

unfoldable pub device_open_supervisor : (fuel : ℕ) → (ℕ → Turn) → List OpenStrategy → Supervised
device_open_supervisor fuel turns strategies = supervise fuel turns 0 strategies 0 initial_backoff
