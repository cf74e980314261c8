-- ===== src/Client/Handshake.antt =====
-- The handshake of src/client/client.cpp against a description of its outcome.
use audio_router.Prelude.{
  ℕ, zero, suc, ◌<◌, ◌≡◌, ◌⊎◌, inl, inr, refl, ap, arith, Option, none, some, List,
}
use audio_router.Config.{AudioConfig}
use audio_router.Client.{Verdict, again, refused, connected, on_reply, attempts, perform_handshake}

-- The result that the `k`-th reply decides.
abbrev pub Decided : Verdict → Option AudioConfig → Type 0
Decided again result = ⊥
Decided refused result = result ≡ none
Decided (connected c) result = result ≡ some c

-- A reply decides, all before it do not, and no request follows it; or no reply of the `n` decides.
abbrev pub Outcome : ℕ → (ℕ → List ℕ) → ℕ × Option AudioConfig → Type 0
Outcome n replies (sent, result) =
    ((k : ℕ) × (k < n)
      × (sent ≡ suc k)
      × Decided (on_reply (replies k)) result
      × ((j : ℕ) → j < k → on_reply (replies j) ≡ again))
    ⊎ ((sent ≡ n) × (result ≡ none) × ((j : ℕ) → j < n → on_reply (replies j) ≡ again))

shift : (P : ℕ → Type 0) (m : ℕ) → P 0 → ((j : ℕ) → j < m → P (suc j)) → (j : ℕ) → j < suc m → P j
shift P m a f zero h = a
shift P m a f (suc j) h = f j (omega arith)

attempts-Outcome : (n : ℕ) (replies : ℕ → List ℕ) → Outcome n replies (attempts n replies)
unfolding attempts
attempts-Outcome zero replies = inr (refl, refl, λ j h. absurd (omega arith))
attempts-Outcome (suc n) replies =
    by_first (on_reply (replies 0)) refl (attempts-Outcome n (λ k. replies (suc k)))
  where
    by_first :
        (v : Verdict)
        → on_reply (replies 0) ≡ v
        → Outcome n (λ k. replies (suc k)) (attempts n (λ k. replies (suc k)))
        → Outcome (suc n) replies (elim v [
          | again ↦
              (suc ((attempts n (λ k. replies (suc k))).0), (attempts n (λ k. replies (suc k))).1)
          | refused ↦ (1, none)
          | connected c ↦ (1, some c)
        ])
    by_first again e (inl (k, l, s, d, b)) =
        inl (suc k, omega arith, ap suc s, d, shift (λ j. on_reply (replies j) ≡ again) k e b)
    by_first again e (inr (s, r, b)) =
        inr (ap suc s, r, shift (λ j. on_reply (replies j) ≡ again) n e b)
    by_first refused e w = inl (0, omega arith, refl, rw e refl, λ j h. absurd (omega arith))
    by_first (connected c) e w = inl (0, omega arith, refl, rw e refl, λ j h. absurd (omega arith))

-- The handshake sends at most five requests. Either the first reply that is a whole acknowledgement
-- or refusal decides, with the configuration of the acknowledgement, and no request follows it; or
-- none of five replies is one, and the handshake fails.
pub perform_handshake-Outcome :
    (replies : ℕ → List ℕ) → Outcome 5 replies (perform_handshake replies)
unfolding perform_handshake
perform_handshake-Outcome replies = attempts-Outcome 5 replies
