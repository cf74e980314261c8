-- ===== src/Aaudio/Bytes.antt =====
-- The bytes that `pump_loop` of src/client/aaudio_player.cpp passes on while the stream takes them.
use audio_router.Prelude.{
  ℕ, ◌+◌, ◌-◌, ◌*◌, ◌/◌, ◌%◌, ◌≤◌, ◌<◌, ◌≡◌, ◌≢◌, refl, ap, ◌∙◌, sym, arith, true, false, not, ◌||◌,
  List, [], ◌∷◌, ◌++◌, append-nil, append_assoc, length, take, length-take, ◌==◌, if_elim, Option,
  none, some,
}
use native.Mathlib.Nat.{mod-lt, div-le_of_le-mul, mul_comm, zero-mul}
use audio_router.Termux.Wav.{put}
use audio_router.Aaudio.Buffer.{length-put, frames-rest, length-keep_rest}
use audio_router.Aaudio.{Player, Mode, wrote}
use audio_router.Aaudio.Stream.{
  Build, State, disconnected, started, starting, stopped, ensure_started, ensure_on, started_from,
}
use audio_router.Aaudio.Pump.{
  Round, Pump, Poll, Answer, accepted, error, interrupted, broken, quiet, readable, on, deliver,
  deliver_on, write_to, settle, read_bytes, keep_rest, take_bytes, polled, pump_round, pump_loop,
}

-- The stream takes whatever it is given: nothing closes it, it is not disconnected, and it has room for
-- a full buffer.
abbrev pub Takes : (chunk : ℕ) → Answer → Type 0
Takes chunk (accepted room) = chunk ≤ room
Takes chunk error = ⊥

abbrev pub IsConnected : State → Type 0
IsConnected disconnected = ⊥
IsConnected _ = Unit {0}

abbrev pub Flows : (chunk : ℕ) → Round → Type 0
Flows chunk r =
    (r.stop ≡ false)
    × (r.closes_before ≡ false)
    × (r.closes_in_write ≡ false)
    × IsConnected r.state
    × Takes chunk r.answer

module _ (mode : Mode) where
  -- A stream that is not disconnected is still there behind `ensure_stream_started_locked`.
  started_from-stream :
      (s : State) (h t : ℕ) (b : Build) (p : Player)
      → IsConnected s
      → (started_from mode h t b p s).stream ≡ p.stream
  unfolding started_from
  started_from-stream disconnected h t b p c = elim c [ ]
  started_from-stream started h t b p c = refl
  started_from-stream starting h t b p c = refl
  started_from-stream stopped h t b p c = refl

  ensure_on-stream :
      (s : State) (t : ℕ) (b : Build) (p : Player) (stream : Option ℕ)
      → IsConnected s
      → (ensure_on mode s t b p stream).stream ≡ p.stream
  unfolding ensure_on
  ensure_on-stream s t b p none c = refl
  ensure_on-stream s t b p (some h) c = started_from-stream s h t b p c

  settle-Takes :
      (h chunk frames : ℕ) (r : Round) (p : Player)
      → Takes chunk r.answer
      → frames ≤ chunk
      → p.stream ≡ some h
      → let d = settle mode h frames r p in
        (d.next ≡ on) × (d.sent ≡ frames) × (d.after.stream ≡ some h)
  unfolding settle
  settle-Takes h chunk frames r p a l e = ground arith

  write_to-Flows :
      (h chunk frames : ℕ) (r : Round) (p : Player)
      → Flows chunk r
      → frames ≤ chunk
      → p.stream ≡ some h
      → let d = write_to mode h frames r p in
        (d.next ≡ on) × (d.sent ≡ frames) × (d.after.stream ≡ some h)
  unfolding write_to ensure_started
  write_to-Flows h chunk frames r p (_, _, w, c, a) l e =
      let q = ensure_started mode r.state r.ensure_ms r.ensure_rebuild p in
      let s = ensure_on-stream r.state r.ensure_ms r.ensure_rebuild p p.stream c ∙ e in
      ground
        (arith, settle-Takes h chunk frames r (record q { calls = wrote h frames ∷ q.calls }) a l s)

  deliver-Flows :
      (h chunk frames : ℕ) (r : Round) (p : Player)
      → Flows chunk r
      → frames ≤ chunk
      → p.stream ≡ some h
      → let d = deliver mode frames r p in
        (d.next ≡ on) × (d.sent ≡ frames) × (d.after.stream ≡ some h)
  unfolding deliver deliver_on
  deliver-Flows h chunk frames r p (u, c, w, k, a) l e =
      ground (arith, write_to-Flows h chunk frames r p (u, c, w, k, a) l e)

-- The loop runs on the stream `h`, with a buffer of `chunk` frames and less than a frame in it.
abbrev pub IsPumping : (bpf chunk h : ℕ) → Pump → Type 0
IsPumping bpf chunk h s =
    (s.running ≡ true)
    × (s.player.stream ≡ some h)
    × (length s.buffer ≡ chunk * bpf)
    × (s.residual < bpf)

-- The bytes passed on and those held back.
abbrev pub taken : Pump → List ℕ
taken s = s.forwarded ++ take s.residual s.buffer

-- What a round reads from the pipe.
unfoldable pub polled_bytes : Pump → Round → Poll → List ℕ
polled_bytes s r readable = read_bytes r s
polled_bytes s r _ = []

-- What some rounds read from it.
unfoldable pub received : Mode → (bpf : ℕ) → Pump → List Round → List ℕ
unfolding polled_bytes pump_round
received mode bpf s [] = []
received mode bpf s (r ∷ rs) =
    polled_bytes s r r.poll ++ received mode bpf (pump_round mode bpf s r) rs

abbrev pub Adds : (bpf chunk h : ℕ) → List ℕ → List ℕ → Pump → Type 0
Adds bpf chunk h before bytes u = IsPumping bpf chunk h u × (taken u ≡ before ++ bytes)

pub le-mul : (a b : ℕ) → 0 < a → b ≤ a * b
le-mul a b l = grind arith

empty : (xs : List ℕ) → length xs ≡ 0 → xs ≡ []
empty [] e = refl
empty (x ∷ xs) e = absurd (omega arith)

abbrev pub AllFlow : (chunk : ℕ) → List Round → Type 0
AllFlow chunk [] = Unit {0}
AllFlow chunk (r ∷ rs) = (Flows chunk r × (r.poll ≢ broken)) × AllFlow chunk rs

pub ==_zero : {n : ℕ} → (n == 0) ≡ true → n ≡ 0
==_zero {n = n} e = ground arith

module _ (mode : Mode) (bpf chunk h : ℕ) where
  take_bytes-Adds :
      (r : Round) (bytes : List ℕ) (s : Pump)
      → Flows chunk r
      → IsPumping bpf chunk h s
      → s.residual + length bytes ≤ chunk * bpf
      → Adds bpf chunk h (taken s) bytes (take_bytes mode bpf r bytes s)
  unfolding take_bytes
  take_bytes-Adds r bytes s f (g, i, n, m) l =
      let total = s.residual + length bytes in
      let frames = total / bpf in
      let rest = total % bpf in
      let buffer = put s.residual bytes s.buffer in
      let few : rest < bpf = mod-lt total (omega arith) in
      let sized : length (keep_rest bpf frames rest buffer) ≡ chunk * bpf =
        length-keep_rest bpf frames rest buffer ∙ length-put s.residual bytes s.buffer ∙ n in
      let whole = frames-rest bpf s.residual bytes s.buffer (omega arith) in
      let kept = take rest (keep_rest bpf frames rest buffer) in
      let joined : s.forwarded ++ (take (frames * bpf) buffer ++ kept) ≡ taken s ++ bytes =
        ap (λ x. s.forwarded ++ x) whole
        ∙ sym (append_assoc s.forwarded (take s.residual s.buffer) bytes) in
      let fits : frames ≤ chunk = div-le_of_le-mul bpf (rw (mul_comm bpf chunk) (omega arith)) in
      let (e, z, w) = deliver-Flows mode h chunk frames r s.player f fits i in
      if_elim (Adds bpf chunk h (taken s) bytes) (frames == 0) _ _
        (λ e0.
          let nothing : frames * bpf ≡ 0 = rw (==_zero e0) (zero-mul bpf) in
          (
            (g, i, sized, few),
            ap (λ k. s.forwarded ++ (take k buffer ++ kept)) (sym nothing) ∙ joined,
          ))
        λ _. (
          (rw e refl, w, rw e sized, few),
          rw (e, z) (append_assoc s.forwarded (take (frames * bpf) buffer) kept ∙ joined),
        )

  polled-Adds :
      (r : Round) (s : Pump) (poll : Poll)
      → Flows chunk r
      → IsPumping bpf chunk h s
      → poll ≢ broken
      → 0 < chunk
      → Adds bpf chunk h (taken s) (polled_bytes s r poll) (polled mode bpf s r poll)
  unfolding polled polled_bytes
  polled-Adds r s interrupted f i k l = (i, sym (append-nil (taken s)))
  polled-Adds r s broken f i k l = absurd (k refl)
  polled-Adds r s quiet f i k l = (i, sym (append-nil (taken s)))
  polled-Adds r s readable f (g, w, n, m) k l =
      let bytes = read_bytes r s in
      let fits : s.residual + length bytes ≤ chunk * bpf =
        omega
          (arith, length-take (length s.buffer - s.residual) r.bytes, n, m, le-mul chunk bpf l) in
      if_elim (Adds bpf chunk h (taken s) bytes) (length bytes == 0) _ _
        (λ e. (
          (g, w, n, m),
          sym (append-nil (taken s)) ∙ ap (λ x. taken s ++ x) (sym (empty bytes (==_zero e))),
        ))
        λ _. take_bytes-Adds r bytes s f (g, w, n, m) fits

  pump_round-Adds :
      (r : Round) (s : Pump)
      → Flows chunk r
      → IsPumping bpf chunk h s
      → r.poll ≢ broken
      → 0 < chunk
      → Adds bpf chunk h (taken s) (polled_bytes s r r.poll) (pump_round mode bpf s r)
  unfolding pump_round
  pump_round-Adds r s (z, c, w, a, q) i k l =
      let runs : not s.running || r.stop ≡ false = rw (i.0, z) refl in
      rw runs (polled-Adds r s r.poll (z, c, w, a, q) i k l)

  -- While the stream takes what it is given, no byte is lost, changed or moved: what the loop has passed
  -- on, with less than a frame that it still holds, is what it had before and then all that it has read.
  pub pump_loop-Adds :
      (s : Pump) (rounds : List Round)
      → 0 < chunk
      → AllFlow chunk rounds
      → IsPumping bpf chunk h s
      → Adds bpf chunk h (taken s) (received mode bpf s rounds) (pump_loop mode bpf s rounds)
  unfolding pump_loop received
  pump_loop-Adds s [] l f i = (i, sym (append-nil (taken s)))
  pump_loop-Adds s (r ∷ rs) l ((f, k), fs) i =
      let u = pump_round mode bpf s r in
      let got = polled_bytes s r r.poll in
      let (j, e) = pump_round-Adds r s f i k l in
      let (v, e') = pump_loop-Adds u rs l fs j in
      (
        v,
        e'
            ∙ ap (λ x. x ++ received mode bpf u rs) e
            ∙ append_assoc (taken s) got (received mode bpf u rs),
      )
