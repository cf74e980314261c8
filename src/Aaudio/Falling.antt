-- ===== src/Aaudio/Falling.antt =====
-- What a failed write does to an `AaudioFifoPlayer` in trouble, src/client/aaudio_player.cpp.
use audio_router.Prelude.{
  ℕ, suc, ◌+◌, ◌*◌, ◌^◌, ◌≤◌, ◌<◌, ◌≡◌, refl, ap, arith, true, false, ◌∷◌, length, Option, none,
  some, ◌⊎◌,
}
use audio_router.Aaudio.{Player, wrote, Mode, max_stall_rebuilds, stall_rebuild_threshold}
use audio_router.Aaudio.Stream.{
  Build, State, Failure, built, is_some, escalate, recover, rebuild_stalled, rebuild_stream,
  close_stream, open_stream, count_stall, give_up, gives_up, ensure_on, ensure_started,
  started_from, disconnected, started, starting, stopped,
}
use audio_router.Aaudio.Bytes.{IsConnected}
use audio_router.Aaudio.Pump.{
  falls_short, accepted_frames, Round, Answer, Delivery, accepted, error, readable, again, leave,
  deliver, deliver_on, write_to, settle, settle_failure,
}

-- A player in trouble at a time: the failures since the last rebuild took 50 ms each at least, and
-- `left` more of them are enough.
pub record Falling (left t : ℕ) (p : Player) : Type 0 where
  pub opened : p.is_open ≡ true
  pub has_stream : is_some p.stream ≡ true
  pub few : p.consecutive_write_failures < stall_rebuild_threshold
  pub stalls : p.stall_rebuilds ≤ max_stall_rebuilds
  pub slow : p.last_rebuild_ms + 50 * p.consecutive_write_failures ≤ t
  pub order : (p.last_rebuild_ms ≤ p.stream_opened_ms) × (p.stream_opened_ms ≤ t)
  pub near : 80 ≤ left + 20 * p.stall_rebuilds + p.consecutive_write_failures

-- A write 50 ms or more behind a time fails for a reason other than the routing. A rebuild works, and
-- the clock goes on.
pub record Fails (t : ℕ) (f : Failure) (g opened_ms : ℕ) : Type 0 where
  pub connected : f.is_disconnected ≡ false
  pub later : t + 50 ≤ f.now_ms
  pub rebuilt : f.rebuild ≡ built g opened_ms
  pub clock : (f.now_ms ≤ opened_ms) × (opened_ms < 2 ^ 64)

abbrev pub Fallen : (left t : ℕ) → Delivery → Type 0
Fallen left t d =
    ((d.next ≡ leave) × (d.after.is_open ≡ false)) ⊎ ((d.next ≡ again) × Falling left t d.after)

settle_failure-Fallen :
    (mode : Mode) (h sent left t g opened_ms : ℕ) (f : Failure) (p : Player)
    → Falling (suc left) t p
    → Fails t f g opened_ms
    → Fallen left opened_ms (settle_failure mode h sent f p)
unfolding settle_failure escalate recover gives_up rebuild_stalled rebuild_stream close_stream
    open_stream count_stall give_up
settle_failure-Fallen mode h sent left t g opened_ms f p s k = ground arith

-- The frames that the stream has room for; an error is none.
abbrev pub room_of : Answer → ℕ
room_of (accepted room) = room
room_of error = 0

pub falls_short-room_of :
    (a : Answer) (frames : ℕ) → room_of a < frames → falls_short a frames ≡ true
falls_short-room_of (accepted room) frames h = ground arith
falls_short-room_of error frames h = refl

-- A round that reads more frames than the stream takes, of which there may be some, and nobody who stops
-- the player.
pub record Stuck (bpf chunk t : ℕ) (r : Round) (g opened_ms : ℕ) : Type 0 where
  pub runs : r.stop ≡ false
  pub stays : (r.closes_before ≡ false) × (r.closes_in_write ≡ false)
  pub polls : r.poll ≡ readable
  pub short : (room_of r.answer < chunk) × (suc (room_of r.answer) * bpf ≤ length r.bytes)
  pub connected : IsConnected r.state
  pub fails : Fails t r.failure g opened_ms

module _ (mode : Mode) where
  ensure_started-Falling :
      (s : State) (now_ms : ℕ) (b : Build) (left t : ℕ) (p : Player) (stream : Option ℕ)
      → IsConnected s
      → Falling left t p
      → Falling left t (ensure_on mode s now_ms b p stream)
  unfolding ensure_on started_from
  ensure_started-Falling s now_ms b left t p none c f = f
  ensure_started-Falling disconnected now_ms b left t p (some h) c f = elim c [ ]
  ensure_started-Falling started now_ms b left t p (some h) c f = f
  ensure_started-Falling starting now_ms b left t p (some h) c f = f
  ensure_started-Falling stopped now_ms b left t p (some h) c f = ground arith

  write_to-Fallen :
      (h frames left t bpf chunk g opened_ms : ℕ) (r : Round) (p : Player)
      → room_of r.answer < frames
      → Falling (suc left) t p
      → Stuck bpf chunk t r g opened_ms
      → Fallen left opened_ms (write_to mode h frames r p)
  unfolding write_to settle ensure_started
  write_to-Fallen h frames left t bpf chunk g opened_ms r p l f k =
      let q = ensure_started mode r.state r.ensure_ms r.ensure_rebuild p in
      let fq : Falling (suc left) t q =
        ensure_started-Falling r.state r.ensure_ms r.ensure_rebuild (suc left) t p p.stream
          k.connected f in
      let w : Player = record q { calls = wrote h frames ∷ q.calls } in
      let fw : Falling (suc left) t w = ground arith in
      ground (
        arith,
        falls_short-room_of r.answer frames l,
        settle_failure-Fallen mode h (accepted_frames r.answer frames) left t g opened_ms r.failure
            w fw k.fails,
      )

  deliver_on-Fallen :
      (frames left t bpf chunk g opened_ms : ℕ) (r : Round) (p : Player) (stream : Option ℕ)
      → p.stream ≡ stream
      → room_of r.answer < frames
      → Falling (suc left) t p
      → Stuck bpf chunk t r g opened_ms
      → Fallen left opened_ms (deliver_on mode frames r p stream)
  unfolding deliver_on
  deliver_on-Fallen frames left t bpf chunk g opened_ms r p none e l f k =
      absurd (ground (arith, ap is_some e, f.has_stream))
  deliver_on-Fallen frames left t bpf chunk g opened_ms r p (some h) e l f k =
      write_to-Fallen h frames left t bpf chunk g opened_ms r p l f k

  pub deliver-Fallen :
      (frames left t bpf chunk g opened_ms : ℕ) (r : Round) (p : Player)
      → room_of r.answer < frames
      → Falling (suc left) t p
      → Stuck bpf chunk t r g opened_ms
      → Fallen left opened_ms (deliver mode frames r p)
  unfolding deliver deliver_on write_to settle
  deliver-Fallen frames left t bpf chunk g opened_ms r p l f k =
      rw k.stays.0 (deliver_on-Fallen frames left t bpf chunk g opened_ms r p p.stream refl l f k)
