-- ===== src/Device/Leak.antt =====
-- A backend that `stop` misses (src/client/client.cpp: `attempt_device_open` tests `shutdown` before
-- it takes the mutex, and `AudioRouterClient::stop` looks into the slot once).
use audio_router.Prelude.{
  ℕ, ◌≡◌, refl, ap, sym, ◌∙◌, arith, Bool, true, false, Option, none, some, ◌==◌, ==_iff,
  Bool-cases, inl, inr,
}
use audio_router.Device.{
  Player, placeholder, device, checked, finished, installed, Shared, set_at, plays, close_player,
  install, take_slot, close_displaced, request_stop, close_slot, Reach, here, next,
}

set_at-here {ℓ} : {A : Type ℓ} (f : ℕ → A) (i : ℕ) (a : A) → set_at f i a i ≡ a
set_at-here f i a = ground arith

-- Closing a player that does not play leaves every open one open.
close_idle :
    (p : Option Player) (live : ℕ → Bool) (d : ℕ)
    → plays p live ≡ false
    → live d ≡ true
    → close_player p live d ≡ true
close_idle none live d b l = l
close_idle (some placeholder) live d b l = l
close_idle (some (device i)) live d b l = elim (Bool-cases (d == i)) [
  | inl e ↦ absurd (clash (sym b ∙ ap live (sym ((==_iff d i).0 e)) ∙ l))
  | inr e ↦ rw e l
]
  where
    clash : false ≡ true → ⊥
    clash q = ground arith

closed_idle : (p : Option Player) (live : ℕ → Bool) → plays p (close_player p live) ≡ false
closed_idle none live = refl
closed_idle (some placeholder) live = refl
closed_idle (some (device i)) live = set_at-here live i false

-- From every state in which an attempt with an open player has passed its last test of the flag and
-- nothing plays from the slot, `stop` may run to its end before the attempt installs the player:
-- a state is reached in which `stop` is done, the attempt has finished, and its player is open.
pub Reach-leaked :
    (s : Shared) (d : ℕ)
    → s.phase d ≡ checked
    → s.live d ≡ true
    → plays s.slot s.live ≡ false
    → (t : Shared) × Reach s t × (t.stopped ≡ true) × (t.phase d ≡ finished) × (t.live d ≡ true)
Reach-leaked s d c l b =
    let closed = close_player s.slot s.live in
    let s2 : Shared = record s { shutdown = true; live = closed; stopped = true } in
    let s3 = install s2 d in
    let s4 : Shared = record s3 {
      live = close_player s.slot closed;
      phase = set_at s3.phase d finished;
    } in
    let idle = closed_idle s.slot s.live in
    (
      s4,
      next
          (next (next (next here (request_stop refl)) (close_slot refl refl))
            (take_slot d c idle refl))
          (close_displaced d s.slot (set_at-here s.phase d (installed s.slot)) refl),
      refl,
      set_at-here s3.phase d finished,
      close_idle s.slot closed d idle (close_idle s.slot s.live d b l),
    )
