-- ===== src/Aaudio/Falls.antt =====
-- How `AaudioFifoPlayer` gives up on a stream that never renders, src/client/aaudio_player.cpp.
use audio_router.Prelude.{
  ℕ, suc, ◌+◌, ◌-◌, ◌*◌, ◌/◌, ◌%◌, ◌≤◌, ◌<◌, ◌≡◌, refl, arith, Bool, not, ◌||◌, sym, if_elim, ◌==◌,
  if◌then◌else◌, true, false, List, [], ◌∷◌, length, ◌⊎◌, inl, inr,
}
use mathlib.Core.Path.{subst}
use native.Mathlib.Nat.{mod-lt, le-div_iff_mul-le, mul-le-mul_right}
use audio_router.Termux.Wav.{put}
use audio_router.Aaudio.Buffer.{length-put, length-keep_rest}
use audio_router.Prelude.{length-take}
use audio_router.Aaudio.{Mode}
use audio_router.Aaudio.Pump.{
  Poll, interrupted, broken, quiet, keep_rest, Round, Pump, readable, read_bytes, take_bytes,
  polled, pump_round, pump_loop,
}
use audio_router.Aaudio.Falling.{Falling, room_of, Stuck, deliver-Fallen}

-- The loop goes on with a player in trouble.
abbrev pub IsStruggling : (bpf chunk left t : ℕ) → Pump → Type 0
IsStruggling bpf chunk left t s =
    (s.running ≡ true)
    × Falling left t s.player
    × (length s.buffer ≡ chunk * bpf)
    × (s.residual < bpf)

abbrev pub HasLeft : Pump → Type 0
HasLeft s = (s.running ≡ false) × (s.player.is_open ≡ false)

-- A round in which nothing is read
unfoldable pub is_idle : Poll → Round → Bool
is_idle interrupted r = true
is_idle quiet r = true
is_idle broken r = false
is_idle readable r = length r.bytes == 0

-- The rounds that are not idle.
unfoldable pub writes : List Round → ℕ
writes [] = 0
writes (r ∷ rs) = if is_idle r.poll r then writes rs else suc (writes rs)

reads_some : (r : Round) → r.poll ≡ readable → 0 < length r.bytes → is_idle r.poll r ≡ false
unfolding is_idle
reads_some r e l = rw e (ground arith)

writes-idle : (r : Round) (rs : List Round) → is_idle r.poll r ≡ true → writes (r ∷ rs) ≡ writes rs
unfolding writes
writes-idle r rs h = rw h refl

writes-busy :
    (r : Round) (rs : List Round) → is_idle r.poll r ≡ false → writes (r ∷ rs) ≡ suc (writes rs)
unfolding writes
writes-busy r rs h = rw h refl

-- Such rounds, each 50 ms or more behind the one before, or behind its rebuild, and idle ones between.
abbrev pub AllStuck : (bpf chunk t : ℕ) → List Round → Type 0
AllStuck bpf chunk t [] = Unit {0}
AllStuck bpf chunk t (r ∷ rs) =
    ((is_idle r.poll r ≡ true) × (r.stop ≡ false) × AllStuck bpf chunk t rs)
    ⊎ ((g : ℕ) × (o : ℕ) × (Stuck bpf chunk t r g o × AllStuck bpf chunk o rs))

module _ (mode : Mode) (bpf chunk : ℕ) where
  take_bytes-fails :
      (left t g opened_ms : ℕ) (r : Round) (bytes : List ℕ) (s : Pump)
      → Stuck bpf chunk t r g opened_ms
      → IsStruggling bpf chunk (suc left) t s
      → suc (room_of r.answer) * bpf ≤ s.residual + length bytes
      → 0 < bpf
      → (let u = take_bytes mode bpf r bytes s in
          HasLeft u ⊎ IsStruggling bpf chunk left opened_ms u)
  unfolding take_bytes
  take_bytes-fails left t g opened_ms r bytes s k (e, f, n, m) l b =
      let total = s.residual + length bytes in
      let frames = total / bpf in
      let some_frames : room_of r.answer < frames = (le-div_iff_mul-le b).1 l in
      let few : total % bpf < bpf = mod-lt total b in
      let buffer = put s.residual bytes s.buffer in
      let kept = keep_rest bpf frames (total % bpf) buffer in
      ground (
        arith,
        deliver-Fallen mode frames left t bpf chunk g opened_ms r s.player some_frames f k,
        length-keep_rest bpf frames (total % bpf) buffer,
        length-put s.residual bytes s.buffer,
      )

  pump_round-fails :
      (left t g opened_ms : ℕ) (r : Round) (s : Pump)
      → Stuck bpf chunk t r g opened_ms
      → IsStruggling bpf chunk (suc left) t s
      → (0 < bpf) × (0 < chunk)
      → (let u = pump_round mode bpf s r in HasLeft u ⊎ IsStruggling bpf chunk left opened_ms u)
  unfolding pump_round polled
  pump_round-fails left t g opened_ms r s k (e, f, n, m) (b, c) =
      let bytes = read_bytes r s in
      let taken = length-take (length s.buffer - s.residual) r.bytes in
      let need = suc (room_of r.answer) * bpf in
      let first : bpf ≤ need = omega arith in
      let fits : need ≤ chunk * bpf = mul-le-mul_right bpf (omega (arith, k.short.0)) in
      let all : need ≤ s.residual + length bytes = omega (arith, taken, n, k.short.1, fits) in
      let some_bytes : 0 < length bytes = omega (arith, m, all, first) in
      let u = take_bytes-fails left t g opened_ms r bytes s k (e, f, n, m) all b in
      ground (arith, k.polls, k.runs, e, u)

  polled-idle : (x : Poll) (r : Round) (s : Pump) → is_idle x r ≡ true → polled mode bpf s r x ≡ s
  unfolding polled is_idle
  polled-idle interrupted r s h = refl
  polled-idle broken r s h = absurd (cc)
  polled-idle quiet r s h = refl
  polled-idle readable r s h =
      let taken = length-take (length s.buffer - s.residual) r.bytes in ground (arith, taken)

  pump_round-idle :
      (r : Round) (s : Pump)
      → is_idle r.poll r ≡ true
      → r.stop ≡ false
      → s.running ≡ true
      → pump_round mode bpf s r ≡ s
  unfolding pump_round
  pump_round-idle r s h x e =
      if_elim (λ (u : Pump). u ≡ s) (not s.running || r.stop) _ _ (λ f. absurd (ground arith))
        λ _. polled-idle r.poll r s h

  pump_loop-left :
      (s : Pump) (rs : List Round) → HasLeft s → (pump_loop mode bpf s rs).player.is_open ≡ false
  unfolding pump_loop pump_round
  pump_loop-left s [] (e, f) = f
  pump_loop-left s (r ∷ rs) (e, f) = pump_loop-left (pump_round mode bpf s r) rs (ground arith)

  -- A player that never renders is closed in bounded time, so that the client can take another one: from
  -- a loop that runs on an open player with a stream, where 80 writes in a row fail or take fewer frames than were
  -- read, 50 ms or more apart and with idle rounds between as they come, on a stream that is not
  -- disconnected and that each rebuild opens again, and nobody stops or closes the player meanwhile, the
  -- loop has marked the player closed; fewer are enough behind earlier failures and stalls.
  pub pump_loop-gives_up :
      (t : ℕ) (s : Pump) (rounds : List Round)
      → (0 < bpf) × (0 < chunk)
      → AllStuck bpf chunk t rounds
      → IsStruggling bpf chunk (writes rounds) t s
      → (pump_loop mode bpf s rounds).player.is_open ≡ false
  unfolding pump_loop writes
  pump_loop-gives_up t s [] l k (e, f, n, m) = absurd (omega (arith, f.few, f.stalls, f.near))
  pump_loop-gives_up t s (r ∷ rs) l (inl (h, x, ks)) i =
      let same = pump_round-idle r s h x i.0 in
      let j : IsStruggling bpf chunk (writes rs) t s =
        subst (λ k. IsStruggling bpf chunk k t s) (writes-idle r rs h) i in
      subst (λ (u : Pump). (pump_loop mode bpf u rs).player.is_open ≡ false) (sym same)
        (pump_loop-gives_up t s rs l ks j)
  pump_loop-gives_up t s (r ∷ rs) l (inr (g, o, (k, ks))) i =
      let need : bpf ≤ suc (room_of r.answer) * bpf = omega arith in
      let some : 0 < length r.bytes = omega (arith, k.short.1, need, l.0) in
      let j : IsStruggling bpf chunk (suc (writes rs)) t s =
        subst (λ n. IsStruggling bpf chunk n t s) (writes-busy r rs (reads_some r k.polls some))
          i in
      elim (pump_round-fails (writes rs) t g o r s k j l) [
        | inl u ↦ pump_loop-left (pump_round mode bpf s r) rs u
        | inr u ↦ pump_loop-gives_up o (pump_round mode bpf s r) rs l ks u
      ]
