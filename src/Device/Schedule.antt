-- ===== src/Device/Schedule.antt =====
-- That the supervisor ends, and the attempts that it makes when all fail (src/client/client.cpp).
use audio_router.Prelude.{
  ℕ, zero, suc, ◌+◌, ◌-◌, ◌*◌, ◌<◌, ◌≤◌, ◌≡◌, inl, inr, refl, sym, ◌⊎◌, not, ◌&&◌, arith, Bool,
  true, false, List, [], ◌∷◌, ◌++◌, none, some, ◌==◌, if_elim, length, min, Bool-cases, ==_iff,
}
use mathlib.Core.Path.{subst}
use audio_router.Device.Names.{
  OpenStrategy, pulse, aaudio, termux_api, agm, nodes, legacy, max_attempts, build_open_strategies,
  is_pulse_device_name, is_aaudio_device, is_termux_device, is_agm_device, is_node_based_device,
}
use audio_router.Device.Supervisor.{
  Turn, Try, initial_backoff, max_backoff, has_budget, Supervised, logged, on_turn, supervise,
  device_open_supervisor,
}

abbrev pub Ends : Supervised → Type 0
Ends none = ⊥
Ends (some r) = Unit {0}

logged-Ends : (t : Try) (r : Supervised) → Ends r → Ends (logged t r)
unfolding logged
logged-Ends t none e = e
logged-Ends t (some r) e = tt

-- A round that goes on: the flag is not seen, nothing plays, and the attempt has not ended well.
pub record GaveUp (x : Turn) : Type 0 where
  pub goes_in : x.is_shut_at_test ≡ false
  pub is_silent : x.is_playing ≡ false
  pub has_failed : not x.is_shut_behind_wait && (x.finished && x.result) ≡ false
  pub goes_on : x.is_shut_at_last ≡ false

-- A round whose tests find the flag set, a backend playing, or the attempt finished with the shared
-- result true and the flag not set.
abbrev pub Leaves : Turn → Type 0
Leaves x =
    (x.is_shut_at_test ≡ true)
    ⊎ ((x.is_playing ≡ true)
        ⊎ (((x.is_shut_behind_wait ≡ false) × (x.finished ≡ true) × (x.result ≡ true))
            ⊎ (x.is_shut_at_last ≡ true)))

on_turn-Ends : (x : Turn) (t : Try) (r : Supervised) → (¬ Leaves x → Ends r) → Ends (on_turn x t r)
unfolding on_turn
on_turn-Ends x t r e =
    if_elim Ends x.is_shut_at_test _ _ (λ _. tt)
      λ a.
        if_elim Ends x.is_playing _ _ (λ _. tt)
          λ b.
            if_elim Ends (not x.is_shut_behind_wait && (x.finished && x.result)) _ _ (λ _. tt)
              λ c.
                if_elim Ends x.is_shut_at_last _ _ (λ _. tt)
                  λ d. logged-Ends t r (e (stays a b c d))
  where
    stays :
        x.is_shut_at_test ≡ false
        → x.is_playing ≡ false
        → not x.is_shut_behind_wait && (x.finished && x.result) ≡ false
        → x.is_shut_at_last ≡ false
        → ¬ Leaves x
    stays a b c d (inl p) = absurd (cc)
    stays a b c d (inr (inl p)) = absurd (cc)
    stays a b c d (inr (inr (inl (p, q, s)))) = absurd (ground arith)
    stays a b c d (inr (inr (inr p))) = absurd (cc)

-- Every round either uses a turn or leaves a strategy behind.
supervise-Ends :
    (fuel : ℕ) (turns : ℕ → Turn) (k last : ℕ) (strategies : List OpenStrategy) (used backoff : ℕ)
    → k ≤ last
    → Leaves (turns last)
    → last - k + length strategies < fuel
    → Ends (supervise fuel turns k strategies used backoff)
unfolding supervise
supervise-Ends zero turns k last strategies used backoff h g f = absurd (omega arith)
supervise-Ends (suc n) turns k last [] used backoff h g f = tt
supervise-Ends (suc n) turns k last (s ∷ rest) used backoff h g f =
    if_elim Ends (has_budget used (max_attempts s)) _ _
      (λ b. on_turn-Ends (turns k) _ _ λ e.
        supervise-Ends n turns (suc k) last (s ∷ rest) (suc used) (min (backoff * 2) max_backoff)
          (before e) g (omega (arith, before e)))
      λ b. supervise-Ends n turns k last rest 0 initial_backoff h g (omega arith)
  where
    before : ¬ Leaves (turns k) → suc k ≤ last
    before e = elim (Bool-cases (k == last)) [
      | inl q ↦ absurd (e (subst (λ j. Leaves (turns j)) (sym ((==_iff k last).0 q)) g))
      | inr q ↦ ground arith
    ]

-- If some round finds the flag set at either of the tests that leave by it, a backend playing, or behind
-- its wait the flag not set, its own attempt finished and the shared result true, the supervisor ends
-- at that round at the latest, whatever the strategies are, the one without a limit included.
pub device_open_supervisor-Ends :
    (turns : ℕ → Turn) (last : ℕ) (strategies : List OpenStrategy)
    → Leaves (turns last)
    → Ends (device_open_supervisor (last + length strategies + 1) turns strategies)
unfolding device_open_supervisor
device_open_supervisor-Ends turns last strategies g =
    supervise-Ends _ turns 0 last strategies 0 initial_backoff (omega arith) g (omega arith)

-- The attempts that a strategy makes when `left` are still allowed and all fail.
abbrev pub tries : OpenStrategy → (left used backoff : ℕ) → List Try
tries s zero used backoff = []
tries s (suc left) used backoff =
    record { strategy = s; number = used; backoff_ms = backoff }
    ∷ tries s left (suc used) (min (backoff * 2) max_backoff)

abbrev pub budget_of : OpenStrategy → ℕ
budget_of pulse = 2
budget_of aaudio = 2
budget_of termux_api = 2
budget_of agm = 2
budget_of nodes = 8
budget_of legacy = 0

abbrev pub plan : List OpenStrategy → List Try
plan [] = []
plan (s ∷ rest) = tries s (budget_of s) 0 initial_backoff ++ plan rest

-- The strategies have a limit.
abbrev pub AreBounded : List OpenStrategy → Type 0
AreBounded [] = Unit {0}
AreBounded (s ∷ rest) = (max_attempts s ≡ some (budget_of s)) × AreBounded rest

abbrev pub rounds : List OpenStrategy → ℕ
rounds [] = 1
rounds (s ∷ rest) = budget_of s + 1 + rounds rest

-- What a chain of strategies must be for the fallback to get anywhere.
abbrev pub IsChain : List OpenStrategy → Type 0
IsChain [] = ⊥
IsChain (s ∷ []) = Unit {0}
IsChain (s ∷ rest) = (max_attempts s ≡ some (budget_of s)) × IsChain rest

-- For every device name the chain of strategies is not empty, and only its last may be without a
-- limit, so a strategy that fails hands on to the next.
pub build_open_strategies-IsChain :
    (worth : Bool) (name : List ℕ) → IsChain (build_open_strategies worth name)
unfolding build_open_strategies max_attempts
build_open_strategies-IsChain worth name =
    if_elim IsChain (is_pulse_device_name name) _ _
      (λ e. (refl, (refl, (refl, (refl, (refl, tt))))))
      λ e.
        if_elim IsChain (is_aaudio_device name) _ _ (λ e. (refl, (refl, (refl, (refl, tt)))))
          λ e.
            if_elim IsChain (is_termux_device name) _ _ (λ e. (refl, (refl, (refl, (refl, tt)))))
              λ e.
                if_elim IsChain (is_agm_device name) _ _ (λ e. (refl, (refl, tt)))
                  λ e.
                    if_elim IsChain (is_node_based_device name) _ _ (λ e. tt)
                      λ e. if_elim IsChain worth _ _ (λ e. (refl, (refl, (refl, tt)))) λ e. tt
