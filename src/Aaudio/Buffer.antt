-- ===== src/Aaudio/Buffer.antt =====
-- The buffer of `pump_loop`, src/client/aaudio_player.cpp: bytes behind an offset, and a rest that is
-- moved to the front.
use audio_router.Prelude.{
  ℕ, zero, suc, ◌+◌, ◌*◌, ◌/◌, ◌%◌, ◌≤◌, ◌≡◌, refl, ap, ◌∙◌, sym, arith, List, [], ◌∷◌, ◌++◌,
  length, take, drop, length-take, length-drop, take-nil,
}
use native.Mathlib.Nat.{div-add-mod'}
use audio_router.Termux.Wav.{put, overwrite}
use audio_router.Aaudio.Pump.{keep_rest}

length-overwrite : (bs buf : List ℕ) → length (overwrite bs buf) ≡ length buf
length-overwrite [] buf = refl
length-overwrite (b ∷ bs) [] = refl
length-overwrite (b ∷ bs) (x ∷ buf) = ap suc (length-overwrite bs buf)

pub length-put : (n : ℕ) (bs buf : List ℕ) → length (put n bs buf) ≡ length buf
length-put zero bs buf = length-overwrite bs buf
length-put (suc n) bs [] = refl
length-put (suc n) bs (x ∷ buf) = ap suc (length-put n bs buf)

take-overwrite :
    (bs buf : List ℕ) → length bs ≤ length buf → take (length bs) (overwrite bs buf) ≡ bs
take-overwrite [] buf l = refl
take-overwrite (b ∷ bs) [] l = absurd (omega arith)
take-overwrite (b ∷ bs) (x ∷ buf) l = ap (◌∷◌ b) (take-overwrite bs buf (omega arith))

-- What stands in front of an offset stays, with the new bytes behind it.
take-put :
    (n : ℕ) (bs buf : List ℕ)
    → n + length bs ≤ length buf
    → take (n + length bs) (put n bs buf) ≡ take n buf ++ bs
take-put zero bs buf l =
    ap (λ k. take k (overwrite bs buf)) {y = length bs} (omega arith)
    ∙ take-overwrite bs buf (omega arith)
take-put (suc n) bs [] l = absurd (omega arith)
take-put (suc n) bs (x ∷ buf) l =
    ap (λ k. take k (x ∷ put n bs buf)) {y = suc (n + length bs)} (omega arith)
    ∙ ap (◌∷◌ x) (take-put n bs buf (omega arith))

pub take-add : (m n : ℕ) (xs : List ℕ) → take (m + n) xs ≡ take m xs ++ take n (drop m xs)
take-add zero n xs = ap (λ k. take k xs) {y = n} (omega arith)
take-add (suc m) n [] = take-nil (suc m + n) ∙ sym (take-nil n)
take-add (suc m) n (x ∷ xs) =
    ap (λ k. take k (x ∷ xs)) {y = suc (m + n)} (omega arith) ∙ ap (◌∷◌ x) (take-add m n xs)

-- Behind a round, the rest of the bytes stands in front.
take-keep_rest :
    (bpf frames residual : ℕ) (buf : List ℕ)
    → frames * bpf + residual ≤ length buf
    → take residual (keep_rest bpf frames residual buf) ≡ take residual (drop (frames * bpf) buf)
take-keep_rest bpf frames residual buf l =
    let rest = take residual (drop (frames * bpf) buf) in
    let e : length rest ≡ residual =
      omega
        (arith, length-take residual (drop (frames * bpf) buf), length-drop (frames * bpf) buf) in
    ap (λ k. take k (overwrite rest buf)) (sym e) ∙ take-overwrite rest buf (omega arith)

-- The whole frames of the new bytes and the rest behind them.
pub frames-rest :
    (bpf residual : ℕ) (bytes buf : List ℕ)
    → residual + length bytes ≤ length buf
    → let total = residual + length bytes in
      let buffer = put residual bytes buf in
      take (total / bpf * bpf) buffer
        ++ take (total % bpf) (keep_rest bpf (total / bpf) (total % bpf) buffer)
      ≡ take residual buf ++ bytes
frames-rest bpf residual bytes buf l =
    let total = residual + length bytes in
    let frames = total / bpf in
    let rest = total % bpf in
    let buffer = put residual bytes buf in
    let split : frames * bpf + rest ≡ total = div-add-mod' total bpf in
    ap (λ x. take (frames * bpf) buffer ++ x)
      (take-keep_rest bpf frames rest buffer (omega (arith, split, length-put residual bytes buf)))
    ∙ sym (take-add (frames * bpf) rest buffer)
    ∙ ap (λ k. take k buffer) split
    ∙ take-put residual bytes buf l

pub length-keep_rest :
    (bpf frames rest : ℕ) (buf : List ℕ) → length (keep_rest bpf frames rest buf) ≡ length buf
length-keep_rest bpf frames rest buf = length-put 0 (take rest (drop (frames * bpf) buf)) buf
