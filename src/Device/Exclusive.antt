-- ===== src/Device/Exclusive.antt =====
-- At most one backend plays (src/client/client.cpp, `attempt_device_open`).
use audio_router.Prelude.{
  ℕ, ◌≡◌, ap, sym, ◌∙◌, arith, Bool, true, false, Option, none, some, ◌==◌, ==_iff, Bool-cases, inl,
  inr,
}
use mathlib.Core.Path.{subst}
use audio_router.Device.{
  Player, placeholder, device, Phase, idle, waiting, opening, opened, raced, checked, superseded,
  reporting, finished, installed, Shared, set_at, plays, close_player, install, Step, spawn, refuse,
  begin, open_ok, open_fails, pass, race, take_slot, supersede, close_superseded, close_raced,
  close_displaced, report, dies, request_stop, close_slot, Reach, here, next, start,
}

-- Who closes an open player: its own attempt, or, once that is done with it, `stop` by the slot.
abbrev pub IsOwned : Phase → Option Player → ℕ → Type 0
IsOwned opened slot d = Unit {0}
IsOwned raced slot d = Unit {0}
IsOwned checked slot d = Unit {0}
IsOwned superseded slot d = Unit {0}
IsOwned (installed p) slot d = slot ≡ some (device d)
IsOwned finished slot d = slot ≡ some (device d)
IsOwned _ slot d = ⊥

abbrev pub IsExclusive : Shared → Type 0
IsExclusive s = (d : ℕ) → s.live d ≡ true → IsOwned (s.phase d) s.slot d

start-IsExclusive : (p : Option Player) → IsExclusive (start p)
start-IsExclusive p d e = absurd (cc)

-- Closing a player opens none.
close_player-live :
    (p : Option Player) (live : ℕ → Bool) (d : ℕ) → close_player p live d ≡ true → live d ≡ true
close_player-live none live d e = e
close_player-live (some placeholder) live d e = e
close_player-live (some (device i)) live d e = ground arith

-- One attempt moves to another phase, and no other player is opened.
moved :
    (s : Shared) (live' : ℕ → Bool) (i : ℕ) (p : Phase)
    → IsExclusive s
    → ((d : ℕ) → (d == i) ≡ false → live' d ≡ true → s.live d ≡ true)
    → (live' i ≡ true → IsOwned p s.slot i)
    → (d : ℕ) → live' d ≡ true
    → IsOwned (set_at s.phase i p d) s.slot d
moved s live' i p w k own d l = elim (Bool-cases (d == i)) [
  | inl e ↦
      let q = (==_iff d i).0 e in
      rw e (subst (λ j. IsOwned p s.slot j) (sym q) (own (subst (λ j. live' j ≡ true) q l)))
  | inr e ↦ rw e (w d (k d e l))
]

-- The owner of the player of attempt `i`, whose phase is `p`.
owner :
    (s : Shared) (i : ℕ) {p : Phase}
    → IsExclusive s
    → s.phase i ≡ p
    → s.live i ≡ true
    → IsOwned p s.slot i
owner s i w e l = subst (λ q. IsOwned q s.slot i) e (w i l)

false_is_true : false ≡ true → ⊥
false_is_true e = ground arith

closed_at : (live : ℕ → Bool) (i d : ℕ) → set_at live i false d ≡ true → live d ≡ true
closed_at live i d e = ground arith

not_closed : (live : ℕ → Bool) (i : ℕ) → set_at live i false i ≡ true → ⊥
not_closed live i e = ground arith

-- An open player that is not in the slot keeps its owner when the slot changes.
other_slot :
    (slot slot' : Option Player) (live : ℕ → Bool) (p : Phase) (d : ℕ)
    → plays slot live ≡ false
    → live d ≡ true
    → IsOwned p slot d
    → IsOwned p slot' d
other_slot slot slot' live opened d b l o = tt
other_slot slot slot' live raced d b l o = tt
other_slot slot slot' live checked d b l o = tt
other_slot slot slot' live superseded d b l o = tt
other_slot slot slot' live (installed p) d b l o =
    absurd (false_is_true (sym b ∙ ap (λ x. plays x live) o ∙ l))
other_slot slot slot' live finished d b l o =
    absurd (false_is_true (sym b ∙ ap (λ x. plays x live) o ∙ l))
other_slot slot slot' live idle d b l o = o
other_slot slot slot' live waiting d b l o = o
other_slot slot slot' live opening d b l o = o
other_slot slot slot' live reporting d b l o = o

taken :
    (s : Shared) (i : ℕ) → IsExclusive s → plays s.slot s.live ≡ false → IsExclusive (install s i)
taken s i w b d l = elim (Bool-cases (d == i)) [
  | inl e ↦ rw e (ap (λ j. some (device j)) (sym ((==_iff d i).0 e)))
  | inr e ↦ rw e (other_slot s.slot (some (device i)) s.live (s.phase d) d b l (w d l))
]

pub Step-IsExclusive : {s t : Shared} → Step s t → IsExclusive s → IsExclusive t
Step-IsExclusive {s = s} (spawn i p e) w =
    subst IsExclusive (sym e) (moved s _ i waiting w (λ d n l. l) (λ l. owner s i w p l))
Step-IsExclusive {s = s} (refuse i p b e) w =
    subst IsExclusive (sym e) (moved s _ i reporting w (λ d n l. l) (λ l. owner s i w p l))
Step-IsExclusive {s = s} (begin i p b e) w =
    subst IsExclusive (sym e) (moved s _ i opening w (λ d n l. l) (λ l. owner s i w p l))
Step-IsExclusive {s = s} (open_ok i p e) w =
    subst IsExclusive (sym e) (moved s _ i opened w (λ d n l. ground arith) (λ l. tt))
Step-IsExclusive {s = s} (open_fails i p e) w =
    subst IsExclusive (sym e) (moved s _ i reporting w (λ d n l. l) (λ l. owner s i w p l))
Step-IsExclusive {s = s} (pass i p b e) w =
    subst IsExclusive (sym e) (moved s _ i checked w (λ d n l. l) (λ l. tt))
Step-IsExclusive {s = s} (race i p b e) w =
    subst IsExclusive (sym e) (moved s _ i raced w (λ d n l. l) (λ l. tt))
Step-IsExclusive {s = s} (take_slot i p b e) w = subst IsExclusive (sym e) (taken s i w b)
Step-IsExclusive {s = s} (supersede i p b e) w =
    subst IsExclusive (sym e) (moved s _ i superseded w (λ d n l. l) (λ l. tt))
Step-IsExclusive {s = s} (close_superseded i p e) w = subst IsExclusive (sym e) (
    moved s _ i reporting w (λ d n l. closed_at s.live i d l) (λ l. absurd (not_closed s.live i l)))
Step-IsExclusive {s = s} (close_raced i p e) w = subst IsExclusive (sym e) (
    moved s _ i reporting w (λ d n l. closed_at s.live i d l) (λ l. absurd (not_closed s.live i l)))
Step-IsExclusive {s = s} (close_displaced i p q e) w = subst IsExclusive (sym e) (
    moved s _ i finished w (λ d n l. close_player-live p s.live d l)
      (λ l. owner s i w q (close_player-live p s.live i l)))
Step-IsExclusive {s = s} (report i p e) w =
    subst IsExclusive (sym e) (moved s _ i finished w (λ d n l. l) (λ l. absurd (owner s i w p l)))
Step-IsExclusive {s = s} (dies i e) w =
    subst IsExclusive (sym e) (λ d l. w d (closed_at s.live i d l))
Step-IsExclusive {s = s} (request_stop e) w = subst IsExclusive (sym e) w
Step-IsExclusive {s = s} (close_slot b e) w =
    subst IsExclusive (sym e) (λ d l. w d (close_player-live s.slot s.live d l))

Reach-IsExclusive : {s t : Shared} → Reach s t → IsExclusive s → IsExclusive t
Reach-IsExclusive here w = w
Reach-IsExclusive (next r st) w = Step-IsExclusive st (Reach-IsExclusive r w)

the_device : {d e : ℕ} → some (device d) ≡ some (device e) → d ≡ e
the_device q = cc

-- Whatever attempts run and however their steps, the deaths of backends and `stop` come between
-- each other: of two attempts that are done, at most one has its player open, and that is the
-- player in the slot.
pub Reach-one_backend :
    (p : Option Player) {t : Shared} (d e : ℕ)
    → Reach (start p) t
    → t.phase d ≡ finished
    → t.phase e ≡ finished
    → t.live d ≡ true
    → t.live e ≡ true
    → (d ≡ e) × (t.slot ≡ some (device d))
Reach-one_backend p {t = t} d e r fd fe ld le =
    let w = Reach-IsExclusive r (start-IsExclusive p) in
    let a = owner t d w fd ld in let b = owner t e w fe le in (the_device (sym a ∙ b), a)

-- A player that plays from the slot keeps it: no attempt that opens late takes its place.
pub Step-keeps_slot :
    {s t : Shared} (d : ℕ)
    → Step s t
    → s.slot ≡ some (device d)
    → s.live d ≡ true
    → t.slot ≡ some (device d)
Step-keeps_slot d (spawn i p e) q l = ap (λ x. x.slot) e ∙ q
Step-keeps_slot d (refuse i p b e) q l = ap (λ x. x.slot) e ∙ q
Step-keeps_slot d (begin i p b e) q l = ap (λ x. x.slot) e ∙ q
Step-keeps_slot d (open_ok i p e) q l = ap (λ x. x.slot) e ∙ q
Step-keeps_slot d (open_fails i p e) q l = ap (λ x. x.slot) e ∙ q
Step-keeps_slot d (pass i p b e) q l = ap (λ x. x.slot) e ∙ q
Step-keeps_slot d (race i p b e) q l = ap (λ x. x.slot) e ∙ q
Step-keeps_slot d (supersede i p b e) q l = ap (λ x. x.slot) e ∙ q
Step-keeps_slot d (close_superseded i p e) q l = ap (λ x. x.slot) e ∙ q
Step-keeps_slot d (close_raced i p e) q l = ap (λ x. x.slot) e ∙ q
Step-keeps_slot d (close_displaced i p r e) q l = ap (λ x. x.slot) e ∙ q
Step-keeps_slot d (report i p e) q l = ap (λ x. x.slot) e ∙ q
Step-keeps_slot d (dies i e) q l = ap (λ x. x.slot) e ∙ q
Step-keeps_slot d (request_stop e) q l = ap (λ x. x.slot) e ∙ q
Step-keeps_slot d (close_slot b e) q l = ap (λ x. x.slot) e ∙ q
Step-keeps_slot {s = s} d (take_slot i p b e) q l =
    absurd (false_is_true (sym b ∙ ap (λ x. plays x s.live) q ∙ l))
