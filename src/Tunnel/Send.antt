-- ===== src/Tunnel/Send.antt =====
-- Sending frames: `write_frame` and its lambda `send_fully` (src/common/usb_tunnel.hpp).
use audio_router.Prelude.{
  take-drop, ℕ, suc, ◌+◌, ◌≤◌, ◌≡◌, refl, ap, sym, ◌∙◌, arith, Bool, true, false, List, [], ◌∷◌,
  ◌++◌, none, some, ltb, length, take, drop, length-drop, append_assoc, append-nil, if_elim,
}
use mathlib.Core.Path.{subst}
use audio_router.Protocol.Wire.{le_bytes}
use audio_router.Tunnel.{
  SendCall, accept, accept_none, not_writable, broken, SendResult, send_fully, write_frame,
  and_then, accepted_first, frame_bytes, max_frame_payload,
}

-- What was accepted is the beginning of the bytes, and all of them where the answer is `true`.
abbrev pub IsPrefix : List ℕ → Bool → List ℕ → Type 0
IsPrefix bs ok sent = (rest : List ℕ) × (sent ++ rest ≡ bs) × (ok ≡ true → rest ≡ [])

abbrev pub Sends : List ℕ → SendResult → Type 0
Sends bs none = Unit {0}
Sends bs (some (ok, sent, calls)) = IsPrefix bs ok sent

-- Calls that make progress: every one accepts something, or waits with success.
abbrev pub IsLive : List SendCall → Type 0
IsLive [] = Unit {0}
IsLive (accept k ∷ calls) = IsLive calls
IsLive (not_writable true ∷ calls) = IsLive calls
IsLive (_ ∷ calls) = ⊥

-- The calls among them that accept something.
abbrev pub accepts : List SendCall → ℕ
accepts [] = 0
accepts (accept k ∷ calls) = suc (accepts calls)
accepts (_ ∷ calls) = accepts calls

length-drop_le : (k : ℕ) (bs : List ℕ) → length (drop k bs) ≤ length bs
length-drop_le k bs = omega (arith, length-drop k bs)

join : (r : SendResult) (sent bs : List ℕ) → Sends bs r → Sends (sent ++ bs) (accepted_first sent r)
join none sent bs s = tt
join (some (ok, more, calls)) sent bs (rest, p, f) =
    (rest, append_assoc sent more rest ∙ ap (λ r. sent ++ r) p, f)

send_fully-Sends : (calls : List SendCall) (bs : List ℕ) → Sends bs (send_fully calls bs)
unfolding send_fully
send_fully-Sends calls [] = ([], refl, λ e. refl)
send_fully-Sends [] (b ∷ bs) = tt
send_fully-Sends (accept k ∷ calls) (b ∷ bs) =
    subst (λ r. Sends (b ∷ r) (accepted_first (b ∷ take k bs) (send_fully calls (drop k bs))))
      (take-drop k bs)
      (join (send_fully calls (drop k bs)) (b ∷ take k bs) (drop k bs)
        (send_fully-Sends calls (drop k bs)))
send_fully-Sends (accept_none ∷ calls) (b ∷ bs) = (b ∷ bs, refl, λ e. absurd (cc))
send_fully-Sends (not_writable true ∷ calls) (b ∷ bs) = send_fully-Sends calls (b ∷ bs)
send_fully-Sends (not_writable false ∷ calls) (b ∷ bs) = (b ∷ bs, refl, λ e. absurd (cc))
send_fully-Sends (broken ∷ calls) (b ∷ bs) = (b ∷ bs, refl, λ e. absurd (cc))

-- Enough live calls send everything, and leave enough for what follows.
abbrev pub SendsAll : ℕ → List ℕ → SendResult → Type 0
SendsAll n bs r =
    (left : List SendCall) × (r ≡ some (true, bs, left)) × IsLive left × (n ≤ accepts left)

send_fully-SendsAll :
    (calls : List SendCall) (bs : List ℕ) (n : ℕ)
    → IsLive calls
    → length bs + n ≤ accepts calls
    → SendsAll n bs (send_fully calls bs)
unfolding send_fully
send_fully-SendsAll calls [] n w h = (calls, refl, w, omega arith)
send_fully-SendsAll [] (b ∷ bs) n w h = absurd (omega arith)
send_fully-SendsAll (accept k ∷ calls) (b ∷ bs) n w h =
    let d = length-drop_le k bs in
    let (left, e, v, m) = send_fully-SendsAll calls (drop k bs) n w (omega arith) in
    (
      left,
      ap (accepted_first (b ∷ take k bs)) e ∙ ap (λ r. some (true, b ∷ r, left)) (take-drop k bs),
      v,
      m,
    )
send_fully-SendsAll (accept_none ∷ calls) (b ∷ bs) n w h = absurd w
send_fully-SendsAll (not_writable true ∷ calls) (b ∷ bs) n w h =
    send_fully-SendsAll calls (b ∷ bs) n w h
send_fully-SendsAll (not_writable false ∷ calls) (b ∷ bs) n w h = absurd w
send_fully-SendsAll (broken ∷ calls) (b ∷ bs) n w h = absurd w

then-Sends :
    (payload bs : List ℕ) (r : SendResult) → Sends bs r → Sends (bs ++ payload) (and_then payload r)
unfolding and_then
then-Sends payload bs none s = tt
then-Sends payload bs (some (false, sent, calls)) (rest, p, f) = (
  rest ++ payload,
  sym (append_assoc sent rest payload) ∙ ap (λ r. r ++ payload) p,
  λ e. absurd (cc),
)
then-Sends payload bs (some (true, sent, calls)) (rest, p, f) =
    let q : sent ≡ bs = sym (append-nil sent) ∙ ap (λ r. sent ++ r) (sym (f refl)) ∙ p in
    subst (λ r. Sends (r ++ payload) (accepted_first sent (send_fully calls payload))) q
      (join (send_fully calls payload) sent payload (send_fully-Sends calls payload))

-- Whatever the socket does, the bytes it accepts from `write_frame` are a beginning of the frame,
-- the length and then the payload, and the whole frame where the answer is `true`.
pub write_frame-Sends :
    (calls : List SendCall) (payload : List ℕ)
    → Sends (frame_bytes payload) (write_frame calls payload)
unfolding write_frame frame_bytes
write_frame-Sends calls payload =
    if_elim (Sends (frame_bytes payload)) (ltb max_frame_payload (length payload)) _ _
      (λ e. (frame_bytes payload, refl, λ t. absurd (cc)))
      λ e. then-Sends payload (le_bytes 4 (length payload)) _ (send_fully-Sends calls _)

-- A payload of at most 65536 bytes is sent whole, and the answer is `true`, when every call of the
-- socket accepts a byte or waits with success, and as many accept one as the frame has bytes.
pub write_frame-completes :
    (calls : List SendCall) (payload : List ℕ)
    → IsLive calls
    → length payload ≤ max_frame_payload
    → 4 + length payload ≤ accepts calls
    → (left : List SendCall) × (write_frame calls payload ≡ some (true, frame_bytes payload, left))
unfolding write_frame frame_bytes and_then
write_frame-completes calls payload w h n =
    let (mid, e, v, m) =
      send_fully-SendsAll calls (le_bytes 4 (length payload)) (length payload) w n in
    let (left, f, u, z) = send_fully-SendsAll mid payload 0 v (omega arith) in
    (left, ground (arith, e, f))
