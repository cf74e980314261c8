-- ===== src/Server/Speaker.antt =====
-- The PC speaker over a session: what a session found is what it leaves
-- (src/server/server.cpp and audio_endpoint_control.cpp, as built on Windows and off it).
use audio_router.Prelude.{
  ℕ, ◌≡◌, ◌⊎◌, inl, inr, refl, ap, ◌∙◌, arith, true, false, ◌&&◌, List, [], ◌∷◌, if_elim,
}
use audio_router.Endpoint.{Floats, mute_pc_speaker}
use audio_router.Server.{
  Server, listening, is_streaming, SocketAddress, Step, Capture, capturing, starts, fails,
  is_busy_for, take_session, silence, begin_streaming, start_capture, handle_connect_req, Event,
  step,
}
use audio_router.Server.Session.{IsConsistent}
use audio_router.Server.Held.{Found, found, Held, IsQuiet, Restored, step-Next}

-- The engine captures already, or starts.
abbrev pub CanCapture : Capture → Type 0
CanCapture capturing = Unit {0}
CanCapture (starts actual) = Unit {0}
CanCapture (fails actual) = ⊥

module _ {V : Type 0} where
  -- The states that a list of events goes through, the first of them behind the first event.
  abbrev pub states : Floats V → Server V → List Event → List (Server V)
  states f s [] = []
  states f s (e ∷ es) = ((step f s e).0) ∷ states f ((step f s e).0) es

  -- Every state holds the session, up to one that restored the speaker.
  abbrev pub HeldUntilRestored : Found V → List (Server V) → Type 0
  HeldUntilRestored x [] = Unit {0}
  HeldUntilRestored x (s ∷ ss) = (Held x s × HeldUntilRestored x ss) ⊎ Restored x s

  states-HeldUntilRestored :
      (f : Floats V) (x : Found V) (es : List Event) (s : Server V)
      → Held x s
      → HeldUntilRestored x (states f s es)
  states-HeldUntilRestored f x [] s w = tt
  states-HeldUntilRestored f x (e ∷ es) s w = elim (step-Next f x s e w) [
    | inl h ↦ inl (h, states-HeldUntilRestored f x es ((step f s e).0) h)
    | inr r ↦ inr r
  ]

  -- A session that has just begun
  abbrev pub Opened : Floats V → Found V → Server V → Type 0
  Opened f x s = Held x s × IsQuiet f x s

  connected :
      (f : Floats V) (s : Server V) (sender : SocketAddress) (now_us : ℕ)
      → s.config.auto_mute_pc_speaker ≡ true
      → s.endpoint_control.is_silenced_by_us ≡ false
      → Opened f (found s) ((begin_streaming f s sender now_us).0)
  unfolding begin_streaming silence mute_pc_speaker is_streaming
  connected f s sender now_us a b = (
    record {
      is_automatic = ground arith;
      streams = refl;
      is_silenced = ground arith;
      build = ground arith;
      method = (ground arith, ground arith);
      mute = ground arith;
      volume = ground arith;
    },
    ((λ g. ground arith), λ g. ground arith),
  )

  opened :
      (f : Floats V) (s : Server V) (c : Capture) (sender : SocketAddress)
      (now_ms set_ms now_us : ℕ)
      → IsConsistent s
      → s.state ≡ listening
      → s.config.auto_mute_pc_speaker ≡ true
      → CanCapture c
      → Opened f (found s) ((handle_connect_req f c s sender now_ms set_ms now_us).0)
  unfolding handle_connect_req is_busy_for start_capture take_session is_streaming
  opened f s c sender now_ms set_ms now_us w l a k =
      let quiet : s.endpoint_control.is_silenced_by_us ≡ false =
        w.silenced
        ∙ ap (λ st. s.config.auto_mute_pc_speaker && is_streaming st) l
        ∙ ap (λ b. b && false) a in
      if_elim (λ (r : Step V). Opened f (found s) (r.0)) (is_busy_for s sender now_ms) _ _
        (λ e. absurd (ground arith)) λ e. by_capture c k quiet
    where
      by_capture :
          (c' : Capture)
          → CanCapture c'
          → s.endpoint_control.is_silenced_by_us ≡ false
          → Opened f (found s) ((start_capture f c' (take_session s sender set_ms) sender now_us).0)
      by_capture capturing k' q = connected f _ sender now_us a q
      by_capture (starts actual) k' q = connected f _ sender now_us a q
      by_capture (fails actual) k' q = absurd k'

  -- With the automatic mute configured, on a consistent server that listens: a connection request
  -- for which the capture engine runs or starts opens a session that silences the speaker, and through
  -- whatever events follow, commands on the speaker included, every state streams with what the speaker was
  -- before the request kept, until the session ends, and the state that ends it has the speaker so
  -- again. On Windows this holds of the parts that the configured method governs: its mute, its volume
  -- or both; off Windows of both. On Windows the endpoint has been found before and its calls succeed.
  pub session-HeldUntilRestored :
      (f : Floats V) (s : Server V) (c : Capture) (sender : SocketAddress)
      (now_ms set_ms now_us : ℕ) (es : List Event)
      → IsConsistent s
      → s.state ≡ listening
      → s.config.auto_mute_pc_speaker ≡ true
      → CanCapture c
      → let s1 = (handle_connect_req f c s sender now_ms set_ms now_us).0 in
        IsQuiet f (found s) s1 × HeldUntilRestored (found s) (s1 ∷ states f s1 es)
  session-HeldUntilRestored f s c sender now_ms set_ms now_us es w l a k =
      let (h, q) = opened f s c sender now_ms set_ms now_us w l a k in
      (q, inl (h, states-HeldUntilRestored f (found s) es _ h))
