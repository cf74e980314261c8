-- ===== src/Aaudio/Kept.antt =====
-- What the rounds of `pump_loop` keep, src/client/aaudio_player.cpp: a property of the clock and the
-- player that each change of the player keeps is kept by the loop.
use audio_router.Prelude.{
  ℕ, ◌+◌, ◌≡◌, refl, ap, arith, Bool, true, not, ◌||◌, List, [], ◌∷◌, ◌==◌, ◌/◌, Option, none, some,
  if_elim, length, leb,
}
use audio_router.Aaudio.{Player, Mode, start_requested, wrote, stall_rebuild_threshold}
use audio_router.Aaudio.Stream.{
  Build, State, Failure, disconnected, started, starting, stopped, close_stream, is_some,
  rebuild_disconnected, rebuild_stalled, started_from, ensure_on, ensure_started, escalate, recover,
  may_rebuild,
}
use audio_router.Aaudio.Pump.{
  Round, Pump, Delivery, Poll, interrupted, broken, quiet, readable, close_if, settle,
  settle_failure, write_to, deliver, deliver_on, polled, take_bytes, pump_round, pump_loop,
  read_bytes, falls_short,
}

-- `Later` relates two readings of the clock.
pub record Kept (Later : ℕ → ℕ → Type 0) (P : ℕ → Player → Type 0) (mode : Mode) : Type 0 where
  pub wait : (a b : ℕ) (p : Player) → Later a b → P a p → P b p
  pub close : (t : ℕ) (p : Player) → P t p → P t (close_stream p)
  pub called :
      (t : ℕ) (p : Player)
      → P t p
      → (h n : ℕ)
      → P t (record p { calls = start_requested h ∷ p.calls })
        × P t (record p { calls = wrote h n ∷ p.calls })
  pub count : (t n : ℕ) (p : Player) → P t p → P t (record p { consecutive_write_failures = n })
  pub escalated : (t : ℕ) (f : Failure) (p : Player) → P t p → P t (escalate f p)
  pub reconnect :
      (t : ℕ) (b : Build) (p : Player)
      → P t p
      → is_some p.stream ≡ true
      → P t (rebuild_disconnected mode t b p)
  pub stall :
      (f : Failure) (p : Player)
      → P f.now_ms p
      → is_some p.stream ≡ true
      → may_rebuild f.now_ms p ≡ true
      → P f.now_ms (rebuild_stalled mode f p)

-- The two readings of a round behind the one before it, in order.
abbrev pub Timed : (Later : ℕ → ℕ → Type 0) → ℕ → Round → Type 0
Timed Later t r = Later t r.ensure_ms × Later r.ensure_ms r.failure.now_ms

abbrev pub AllTimed : (Later : ℕ → ℕ → Type 0) → ℕ → List Round → Type 0
AllTimed Later t [] = Unit {0}
AllTimed Later t (r ∷ rs) = Timed Later t r × AllTimed Later r.failure.now_ms rs

-- The clock behind some rounds.
abbrev pub clock_after : ℕ → List Round → ℕ
clock_after t [] = t
clock_after t (r ∷ rs) = clock_after r.failure.now_ms rs

escalate-stream : (f : Failure) (p : Player) → (escalate f p).stream ≡ p.stream
unfolding escalate
escalate-stream f p = ground arith

module _ {Later : ℕ → ℕ → Type 0} {P : ℕ → Player → Type 0} {mode : Mode}
    (k : Kept Later P mode) where
  started_from-kept :
      (s : State) (h t : ℕ) (b : Build) (p : Player)
      → P t p
      → is_some p.stream ≡ true
      → P t (started_from mode h t b p s)
  unfolding started_from
  started_from-kept disconnected h t b p i e = k.reconnect t b p i e
  started_from-kept started h t b p i e = i
  started_from-kept starting h t b p i e = i
  started_from-kept stopped h t b p i e = (k.called t p i h 0).0

  ensure_on-kept :
      (s : State) (t : ℕ) (b : Build) (p : Player) (stream : Option ℕ)
      → P t p
      → p.stream ≡ stream
      → P t (ensure_on mode s t b p stream)
  unfolding ensure_on
  ensure_on-kept s t b p none i e = i
  ensure_on-kept s t b p (some h) i e = started_from-kept s h t b p i (ap is_some e)

  ensure_started-kept :
      (s : State) (t : ℕ) (b : Build) (p : Player) → P t p → P t (ensure_started mode s t b p)
  unfolding ensure_started
  ensure_started-kept s t b p i = ensure_on-kept s t b p p.stream i refl

  recover-kept :
      (h : ℕ) (f : Failure) (p : Player)
      → P f.now_ms p
      → is_some p.stream ≡ true
      → P f.now_ms (recover mode h f p)
  unfolding recover
  recover-kept h f p i e =
      let t = f.now_ms in
      let q = escalate f p in
      let j = k.escalated t f p i in
      let e' : is_some q.stream ≡ true = rw (escalate-stream f p) e in
      if_elim (P t) f.is_disconnected _ _ (λ _. k.reconnect t f.rebuild q j e')
        λ _.
          if_elim (P t) (leb stall_rebuild_threshold q.consecutive_write_failures) _ _
            (λ _. if_elim (P t) (may_rebuild t q) _ _ (λ m. k.stall f q j e' m) λ _. j)
            λ _. (k.called t q j h 0).0

  settle-kept :
      (h frames : ℕ) (r : Round) (p : Player)
      → P r.failure.now_ms p
      → P r.failure.now_ms (settle mode h frames r p).after
  unfolding settle settle_failure
  settle-kept h frames r p i =
      let t = r.failure.now_ms in
      let after : Delivery → Type 0 = λ (d : Delivery). P t d.after in
      let counted = k.count t (p.consecutive_write_failures + 1) p i in
      if_elim after (falls_short r.answer frames) _ _
        (λ _.
          if_elim after (not (is_some p.stream)) _ _ (λ _. counted)
            λ e. recover-kept h r.failure _ counted (ground arith))
        λ _. k.count t 0 p i

  close_if-kept : (t : ℕ) (b : Bool) (p : Player) → P t p → P t (close_if b p)
  close_if-kept t b p i = if_elim (P t) b _ _ (λ _. k.close t p i) λ _. i

  deliver_on-kept :
      (frames : ℕ) (r : Round) (p : Player) (stream : Option ℕ)
      → Later r.ensure_ms r.failure.now_ms
      → P r.ensure_ms p
      → P r.failure.now_ms (deliver_on mode frames r p stream).after
  unfolding deliver_on write_to
  deliver_on-kept frames r p none m j = k.wait r.ensure_ms r.failure.now_ms p m j
  deliver_on-kept frames r p (some h) m j =
      let now = r.failure.now_ms in
      let s = ensure_started mode r.state r.ensure_ms r.ensure_rebuild p in
      let u =
        k.wait r.ensure_ms now s m (ensure_started-kept r.state r.ensure_ms r.ensure_rebuild p j) in
      if_elim (λ (d : Delivery). P now d.after) (not (is_some s.stream)) _ _ (λ _. u)
        λ _.
          settle-kept h frames r _
            (close_if-kept now r.closes_in_write _ (k.called now s u h frames).1)

  deliver-kept :
      (t frames : ℕ) (r : Round) (p : Player)
      → Timed Later t r
      → P t p
      → P r.failure.now_ms (deliver mode frames r p).after
  unfolding deliver
  deliver-kept t frames r p (l, m) i =
      let q = close_if r.closes_before p in
      deliver_on-kept frames r q q.stream m
        (k.wait t r.ensure_ms q l (close_if-kept t r.closes_before p i))

  polled-kept :
      (t bpf : ℕ) (s : Pump) (r : Round) (poll : Poll)
      → Timed Later t r
      → P t s.player
      → P r.failure.now_ms s.player
      → P r.failure.now_ms (polled mode bpf s r poll).player
  unfolding polled take_bytes
  polled-kept t bpf s r interrupted l i j = j
  polled-kept t bpf s r broken l i j = j
  polled-kept t bpf s r quiet l i j = j
  polled-kept t bpf s r readable l i j =
      let after : Pump → Type 0 = λ (u : Pump). P r.failure.now_ms u.player in
      if_elim after (length (read_bytes r s) == 0) _ _ (λ _. j)
        λ _.
          if_elim after ((s.residual + length (read_bytes r s)) / bpf == 0) _ _ (λ _. j)
            λ _. deliver-kept t _ r s.player l i

  pump_round-kept :
      (t bpf : ℕ) (s : Pump) (r : Round)
      → Timed Later t r
      → P t s.player
      → P r.failure.now_ms (pump_round mode bpf s r).player
  unfolding pump_round
  pump_round-kept t bpf s r (l, m) i =
      let j = k.wait r.ensure_ms r.failure.now_ms s.player m (k.wait t r.ensure_ms s.player l i) in
      if_elim (λ (u : Pump). P r.failure.now_ms u.player) (not s.running || r.stop) _ _ (λ _. j)
        λ _. polled-kept t bpf s r r.poll (l, m) i j

  pub pump_loop-kept :
      (t bpf : ℕ) (s : Pump) (rs : List Round)
      → AllTimed Later t rs
      → P t s.player
      → P (clock_after t rs) (pump_loop mode bpf s rs).player
  unfolding pump_loop
  pump_loop-kept t bpf s [] o i = i
  pump_loop-kept t bpf s (r ∷ rs) (l, o) i =
      pump_loop-kept r.failure.now_ms bpf (pump_round mode bpf s r) rs o
        (pump_round-kept t bpf s r l i)
