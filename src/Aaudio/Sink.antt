-- ===== src/Aaudio/Sink.antt =====
-- The playback thread's side of `AaudioFifoPlayer`, src/client/aaudio_player.cpp: `write_frames` puts the
-- bytes of whole frames into the pipe, and `get_buffer_delay_frames` reports what waits.
use audio_router.Prelude.{
  ℕ, ◌+◌, ◌/◌, ◌≤◌, ◌≡◌, refl, ap, ◌∙◌, sym, arith, min, Bool, true, false, not, ◌||◌, List, [],
  ◌∷◌, ◌++◌, length, length-take, take-min, take, drop, ltb, ◌==◌, if◌then◌else◌, if_elim,
  Bool-cases, inl, inr,
}
use native.Mathlib.Nat.{div-zero, zero-div}
use audio_router.Prelude.Int.{ℤ, pos, negsuc}
use audio_router.Aaudio.Buffer.{take-add}
use audio_router.Aaudio.Bytes.{==_zero}

-- What a turn of the loop meets: a player that was closed, or what `write` on the pipe answers.
pub data Turn : Type 0 where
  closed interrupted full failed : Turn
  takes : (room : ℕ) → Turn

-- The bytes that have gone into the pipe, and whether the loop has ended.
pub record Writing : Type 0 where
  pub piped : List ℕ
  pub ended : Bool

abbrev turn : List ℕ → Writing → Turn → Writing
turn pcm w closed = record w { ended = true }
turn pcm w interrupted = w
turn pcm w full = w
turn pcm w failed = record w { ended = true }
turn pcm w (takes room) = record w { piped = w.piped ++ take room (drop (length w.piped) pcm) }

-- The loop, for as long as turns come. `write` answers 0 only where there is no room.
unfoldable pub write_loop : List ℕ → Writing → List Turn → Writing
write_loop pcm w [] = w
write_loop pcm w (t ∷ ts) =
    let rest = write_loop pcm (turn pcm w t) ts in
    if w.ended || not (ltb (length w.piped) (length pcm)) then w else rest

-- The frames of `pcm` that were taken.
unfoldable pub write_frames : (bpf : ℕ) → List ℕ → List Turn → ℕ
unfolding write_loop
write_frames bpf pcm turns =
    if length pcm == 0 || bpf == 0
    then 0
    else length (write_loop pcm (record { piped = []; ended = false }) turns).piped / bpf

abbrev at_least_zero : ℤ → ℕ
at_least_zero (pos n) = n
at_least_zero (negsuc n) = 0

-- `in_flight` is the difference of the stream's counters, or its last snapshot.
unfoldable pub get_buffer_delay_frames : Bool → (bpf fifo_bytes : ℕ) → (in_flight : ℤ) → ℕ
get_buffer_delay_frames is_open bpf fifo_bytes in_flight =
    if not is_open then 0 else (if bpf == 0 then 0 else fifo_bytes / bpf) + at_least_zero in_flight

-- What the turns have room for before the loop ends.
unfoldable pub room_of : List Turn → ℕ
room_of [] = 0
room_of (closed ∷ ts) = 0
room_of (failed ∷ ts) = 0
room_of (interrupted ∷ ts) = room_of ts
room_of (full ∷ ts) = room_of ts
room_of (takes room ∷ ts) = room + room_of ts

abbrev pub start : Writing
start = record { piped = []; ended = false }

take_beyond : (n k : ℕ) (xs : List ℕ) → length xs ≤ n → take (n + k) xs ≡ take n xs
take_beyond n k xs l =
    sym (take-min (n + k) xs)
    ∙ ap (λ m. take m xs) {y = min n (length xs)} (omega arith)
    ∙ take-min n xs

write_loop-ended :
    (pcm : List ℕ) (w : Writing) (ts : List Turn) → w.ended ≡ true → write_loop pcm w ts ≡ w
unfolding write_loop
write_loop-ended pcm w [] e = refl
write_loop-ended pcm w (t ∷ ts) e = rw e refl

-- A loop that has ended takes no more.
ended-piped :
    (pcm : List ℕ) (n : ℕ) (w : Writing) (ts : List Turn)
    → w.piped ≡ take n pcm
    → w.ended ≡ true
    → (write_loop pcm w ts).piped ≡ take (n + 0) pcm
ended-piped pcm n w ts e f =
    ap (λ (u : Writing). u.piped) (write_loop-ended pcm w ts f)
    ∙ e
    ∙ ap (λ k. take k pcm) {y = n + 0} (omega arith)

turn-piped :
    (pcm : List ℕ) (n : ℕ) (w : Writing) (t : Turn) (ts : List Turn)
    → w.piped ≡ take n pcm
    → w.ended ≡ false
    → length w.piped ≡ n
    → ((m : ℕ) (u : Writing)
        → u.piped ≡ take m pcm
        → u.ended ≡ false
        → (write_loop pcm u ts).piped ≡ take (m + room_of ts) pcm)
    → (write_loop pcm (turn pcm w t) ts).piped ≡ take (n + room_of (t ∷ ts)) pcm
unfolding room_of
turn-piped pcm n w closed ts e f l k = ended-piped pcm n (record w { ended = true }) ts e refl
turn-piped pcm n w failed ts e f l k = ended-piped pcm n (record w { ended = true }) ts e refl
turn-piped pcm n w interrupted ts e f l k = k n w e f
turn-piped pcm n w full ts e f l k = k n w e f
turn-piped pcm n w (takes room) ts e f l k =
    let more : w.piped ++ take room (drop (length w.piped) pcm) ≡ take (n + room) pcm =
      ap (λ x. x ++ take room (drop (length w.piped) pcm)) e
      ∙ ap (λ i. take n pcm ++ take room (drop i pcm)) l
      ∙ sym (take-add n room pcm) in
    k (n + room) (turn pcm w (takes room)) more f
    ∙ ap (λ i. take i pcm) {y = n + (room + room_of ts)} (omega arith)

write_loop-piped :
    (pcm : List ℕ) (n : ℕ) (w : Writing) (ts : List Turn)
    → w.piped ≡ take n pcm
    → w.ended ≡ false
    → (write_loop pcm w ts).piped ≡ take (n + room_of ts) pcm
unfolding write_loop room_of
write_loop-piped pcm n w [] e f = e ∙ ap (λ k. take k pcm) {y = n + 0} (omega arith)
write_loop-piped pcm n w (t ∷ ts) e f =
    let m : length w.piped ≡ min n (length pcm) = ap length e ∙ length-take n pcm in
    if_elim (λ (u : Writing). u.piped ≡ take (n + room_of (t ∷ ts)) pcm)
      (w.ended || not (ltb (length w.piped) (length pcm))) _ _
      (λ b. e ∙ sym (take_beyond n (room_of (t ∷ ts)) pcm (ground (arith, m, f))))
      λ b. turn-piped pcm n w t ts e f (ground (arith, m)) λ i u. write_loop-piped pcm i u ts

none_written : (n l b : ℕ) → (l == 0 || b == 0) ≡ true → 0 ≡ min n l / b
none_written n l b e = elim (Bool-cases (b == 0)) [
  | inl z ↦ rw (==_zero z) (sym (div-zero (min n l)))
  | inr z ↦ let l0 : min n l ≡ 0 = ground arith in rw l0 (sym (zero-div b))
]

-- However full the pipe is and however often `write` is interrupted, the pipe has received the sound
-- from its start on without a gap, as far as the turns had room before the player was closed or a
-- write failed; and `write_frames` returns the whole frames of that, all of them where there was room.
pub write_frames-piped :
    (bpf : ℕ) (pcm : List ℕ) (turns : List Turn)
    → ((write_loop pcm start turns).piped ≡ take (room_of turns) pcm)
      × (write_frames bpf pcm turns ≡ min (room_of turns) (length pcm) / bpf)
unfolding write_frames
write_frames-piped bpf pcm turns =
    let n = room_of turns in
    let e : (write_loop pcm start turns).piped ≡ take n pcm =
      write_loop-piped pcm 0 start turns refl refl ∙ ap (λ k. take k pcm) {y = n} (omega arith) in
    let l : length (write_loop pcm start turns).piped ≡ min n (length pcm) =
      ap length e ∙ length-take n pcm in
    (
      e,
      if_elim (λ (k : ℕ). k ≡ min n (length pcm) / bpf) (length pcm == 0 || bpf == 0) _ _
          (λ b. none_written n (length pcm) bpf b) λ b. ap (λ k. k / bpf) l,
    )
