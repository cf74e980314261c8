-- ===== src/Agm/Whole.antt =====
-- What `write_frames` of src/client/agm_fifo_player.cpp has put into the pipe when it returns.
use audio_router.Prelude.{
  ℕ, ◌+◌, ◌≤◌, ◌≡◌, refl, ap, ◌∙◌, sym, arith, min, false, not, ◌||◌, List, [], ◌∷◌, ◌++◌, length,
  length-take, take, drop, take-min, take-length, ltb, leb, ◌==◌, if_elim, none, some, ◌⊎◌, inl,
  inr,
}
use audio_router.Prelude.Int.{ℤ}
use audio_router.Prelude.Word.{sub64}
use audio_router.Aaudio.Buffer.{take-add}
use audio_router.Agm.{Player, stall_trigger_ms}
use audio_router.Agm.Recover.{Recovery, recover}
use audio_router.Agm.Sink.{
  Turn, Writing, closes, interrupted, failed, full, takes, restart, turn, with_start, is_some,
  finish, write_loop, write_frames, samples, pcm_bytes, returned,
}

abbrev pub IsPrefix : List ℕ → List ℕ → Type 0
IsPrefix xs bytes = xs ≡ take (length xs) bytes

prefix_of : (k : ℕ) (xs bytes : List ℕ) → xs ≡ take k bytes → IsPrefix xs bytes
prefix_of k xs bytes e =
    let l : length xs ≡ min k (length bytes) = ap length e ∙ length-take k bytes in
    e ∙ sym (take-min k bytes) ∙ ap (λ i. take i bytes) (sym l)

-- A write goes on where the last one stopped.
more-IsPrefix :
    (room : ℕ) (xs bytes : List ℕ)
    → IsPrefix xs bytes
    → IsPrefix (xs ++ take room (drop (length xs) bytes)) bytes
more-IsPrefix room xs bytes e =
    prefix_of (length xs + room) _ bytes
      (ap (λ x. x ++ take room (drop (length xs) bytes)) e ∙ sym (take-add (length xs) room bytes))

turn-IsPrefix :
    (r : Recovery) (bytes : List ℕ) (w : Writing) (t : Turn)
    → IsPrefix w.piped bytes
    → IsPrefix (turn r bytes w t).piped bytes
unfolding turn restart
turn-IsPrefix r bytes w closes i = i
turn-IsPrefix r bytes w interrupted i = i
turn-IsPrefix r bytes w failed i = i
turn-IsPrefix r bytes w (full a b) i =
    if_elim (λ (u : Writing). IsPrefix u.piped bytes)
      (leb stall_trigger_ms (sub64 b (with_start a w.player).stall_start_ms)) _ _ (λ _. i) λ _. i
turn-IsPrefix r bytes w (takes room) i = more-IsPrefix room w.piped bytes i

prefix-whole :
    (xs bytes : List ℕ) → IsPrefix xs bytes → ltb (length xs) (length bytes) ≡ false → xs ≡ bytes
prefix-whole xs bytes e l =
    let n : length bytes ≤ length xs = ground arith in
    e
    ∙ sym (take-min (length xs) bytes)
    ∙ ap (λ i. take i bytes) {y = length bytes} (omega arith)
    ∙ take-length bytes

-- Not done yet, or nothing accounted for, or all frames, with all their bytes in the pipe.
abbrev pub IsWhole : ℕ → List ℕ → Writing → Type 0
IsWhole n bytes w =
    (w.result ≡ none) ⊎ (w.result ≡ some 0) ⊎ ((w.result ≡ some n) × (w.piped ≡ bytes))

abbrev Open : Writing → Type 0
Open w = (w.result ≡ none) ⊎ (w.result ≡ some 0)

turn-Open :
    (r : Recovery) (bytes : List ℕ) (w : Writing) (t : Turn) → Open w → Open (turn r bytes w t)
unfolding turn restart
turn-Open r bytes w t o = ground arith

finish-IsWhole :
    (bytes : List ℕ) (n : ℕ) (w : Writing)
    → IsPrefix w.piped bytes
    → Open w
    → IsPrefix (finish bytes n w).piped bytes × IsWhole n bytes (finish bytes n w)
unfolding finish
finish-IsWhole bytes n w i o = ground (arith, prefix-whole w.piped bytes i)

write_loop-IsWhole :
    (r : Recovery) (bytes : List ℕ) (n : ℕ) (w : Writing) (ts : List Turn)
    → IsPrefix w.piped bytes
    → Open w
    → IsPrefix (write_loop r bytes n w ts).piped bytes × IsWhole n bytes (write_loop r bytes n w ts)
unfolding write_loop
write_loop-IsWhole r bytes n w [] i o = finish-IsWhole bytes n w i o
write_loop-IsWhole r bytes n w (t ∷ ts) i o =
    if_elim (λ (u : Writing). IsPrefix u.piped bytes × IsWhole n bytes u)
      (is_some w.result || not (ltb (length w.piped) (length bytes))) _ _
      (λ _. finish-IsWhole bytes n w i o)
      λ _.
        write_loop-IsWhole r bytes n (turn r bytes w t) ts (turn-IsPrefix r bytes w t i)
          (turn-Open r bytes w t o)

-- Whatever the pipe does, what has gone into it is the start of the mixed sound, without a gap; and a
-- call that returns either accounts for no frame, or for all of them, and then all their bytes are in
-- the pipe.
pub write_frames-IsWhole :
    (r : Recovery) (channels n : ℕ) (pcm : List ℤ) (turns : List Turn) (p : Player)
    → let bytes = pcm_bytes (samples channels n pcm) in
      let w = write_frames r channels n pcm turns p in IsPrefix w.piped bytes × IsWhole n bytes w
unfolding write_frames
write_frames-IsWhole r channels n pcm turns p =
    let bytes = pcm_bytes (samples channels n pcm) in
    let Good : Writing → Type 0 = λ (u : Writing). IsPrefix u.piped bytes × IsWhole n bytes u in
    let idle : (q : Player) → Good (returned 0 q) = λ q. (refl, inr (inl refl)) in
    if_elim Good (n == 0) _ _ (λ _. idle p)
      λ _.
        if_elim Good (not p.is_open || not p.has_pipe) _ _ (λ _. idle p)
          λ _.
            if_elim Good p.recovering _ _ (λ _. idle p)
              λ _.
                if_elim Good p.session_closed _ _
                  (λ _. idle (recover r (record p { session_closed = false })))
                  λ _. write_loop-IsWhole r bytes n _ turns refl (inl refl)
