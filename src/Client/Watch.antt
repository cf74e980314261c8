-- ===== src/Client/Watch.antt =====
-- The end of a round of `heartbeat_thread` (src/client/client.cpp): does the client shake hands again?
use audio_router.Prelude.{
  ℕ, ◌+◌, ◌^◌, ◌<◌, ◌≤◌, ◌≡◌, arith, Bool, true, false, not, ◌&&◌, List, ltb, if◌then◌else◌, Option,
  none, some, ◌↔◌,
}
use audio_router.Prelude.Word.{sub64}
use audio_router.Config.{AudioConfig}
use audio_router.Client.{perform_handshake}

-- The clock is read before `last_packet_time_ms_`, which the receiving thread sets meanwhile.
unfoldable pub is_timed_out : (stop_requested : Bool) → (now_ms last_packet timeout_ms : ℕ) → Bool
is_timed_out stop_requested now_ms last_packet timeout_ms =
    not stop_requested && (ltb 0 last_packet && ltb timeout_ms (sub64 now_ms last_packet))

-- What the watchdog keeps: the time of the last packet and the configuration of the stream.
pub record Watched : Type 0 where
  pub last_packet_time_ms : ℕ
  pub audio_config : AudioConfig

abbrev pub configured : AudioConfig → Option AudioConfig → AudioConfig
configured c none = c
configured c (some d) = d

-- `replies` are those to the requests of a new handshake, which a failed one leaves without effect on
-- the configuration; the clock is read again behind it.
unfoldable pub watchdog_round :
    Watched
    → (stop_requested : Bool) → (now_ms timeout_ms : ℕ) → (ℕ → List ℕ)
    → (later_ms : ℕ) → Watched
watchdog_round w stop_requested now_ms timeout_ms replies later_ms =
    if is_timed_out stop_requested now_ms w.last_packet_time_ms timeout_ms
    then record {
      last_packet_time_ms = later_ms;
      audio_config = configured w.audio_config (perform_handshake replies).1;
    }
    else w

-- A packet that arrives after the clock was read and before its time is looked at makes the watchdog
-- shake hands, though the stream runs: the unsigned difference wraps around.
pub is_timed_out-wraps :
    (now_ms last_packet timeout_ms : ℕ)
    → now_ms < last_packet
    → last_packet ≤ now_ms + 1000
    → now_ms < 2 ^ 63
    → timeout_ms < 2 ^ 32
    → is_timed_out false now_ms last_packet timeout_ms ≡ true
unfolding is_timed_out
is_timed_out-wraps now_ms last_packet timeout_ms l m n k = ground arith

-- With a last packet that is not later than the clock, the client shakes hands again exactly when a
-- packet was received, none since more than the timeout, and the client is not asked to stop.
pub is_timed_out_iff :
    (stop_requested : Bool) (now_ms last_packet timeout_ms : ℕ)
    → last_packet ≤ now_ms
    → now_ms < 2 ^ 64
    → (is_timed_out stop_requested now_ms last_packet timeout_ms ≡ true)
      ↔ ((stop_requested ≡ false) × (0 < last_packet) × (last_packet + timeout_ms < now_ms))
unfolding is_timed_out
is_timed_out_iff stop_requested now_ms last_packet timeout_ms l n = ground arith
