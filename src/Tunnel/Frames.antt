-- ===== src/Tunnel/Frames.antt =====
-- Reading frames back: `read_frame` against the bytes that `write_frame` puts on the stream, however
-- the stream is cut into pieces (src/common/usb_tunnel.hpp).
use audio_router.Prelude.{
  ℕ, zero, suc, ◌+◌, ◌<◌, ◌≤◌, ◌≡◌, ◌⊎◌, inl, inr, refl, ap, sym, ◌∙◌, arith, List, [], ◌∷◌, ◌++◌,
  none, some, ltb, leb, length, take, drop, length-append, append_assoc, append-nil, Bool-cases,
  ltb→lt, if_elim, leb→le, not-ltb,
}
use audio_router.Protocol.Wire.{le_bytes, le_value}
use audio_router.Tunnel.{
  Recv, bytes, would_block, ready, frame, closed, failure, timeout, failed, need_more, complete,
  extract, read_frame, on_recv, ReadResult, frame_bytes, max_frame_payload,
}

-- The bytes that a list of socket calls delivers.
abbrev pub stream : List Recv → List ℕ
stream [] = []
stream (bytes b bs ∷ calls) = b ∷ (bs ++ stream calls)
stream (_ ∷ calls) = stream calls

-- Calls that deliver data, or wait and find some.
abbrev pub IsHealthy : List Recv → Type 0
IsHealthy [] = Unit {0}
IsHealthy (bytes b bs ∷ calls) = IsHealthy calls
IsHealthy (would_block ready ∷ calls) = IsHealthy calls
IsHealthy (_ ∷ calls) = ⊥

drop-length : (xs ys : List ℕ) → drop (length xs) (xs ++ ys) ≡ ys
drop-length [] ys = refl
drop-length (x ∷ xs) ys = drop-length xs ys

-- A prefix of a stream that starts with `ps` is `ps` and more, or a part of `ps`.
split_prefix :
    (xs ys ps bs : List ℕ)
    → xs ++ ys ≡ ps ++ bs
    → length ps ≤ length xs
    → (more : List ℕ) × (xs ≡ ps ++ more) × (bs ≡ more ++ ys)
split_prefix xs ys [] bs e h = (xs, refl, sym e)
split_prefix [] ys (a ∷ ps) bs e h = absurd (omega arith)
split_prefix (x ∷ xs) ys (a ∷ ps) bs e h =
    let (more, p, q) = split_prefix xs ys ps bs (cc) (omega arith) in (more, cc, q)

take_prefix :
    (n : ℕ) (xs ys ps bs : List ℕ)
    → xs ++ ys ≡ ps ++ bs
    → n ≤ length xs
    → n ≤ length ps
    → take n xs ≡ take n ps
take_prefix zero xs ys ps bs e h k = refl
take_prefix (suc n) [] ys ps bs e h k = absurd (omega arith)
take_prefix (suc n) (x ∷ xs) ys [] bs e h k = absurd (omega arith)
take_prefix (suc n) (x ∷ xs) ys (a ∷ ps) bs e h k =
    let rest = take_prefix n xs ys ps bs (cc) (omega arith) (omega arith) in cc

length-frame_bytes : (p : List ℕ) → length (frame_bytes p) ≡ 4 + length p
unfolding frame_bytes
length-frame_bytes p = omega arith

take_front : (p rest : List ℕ) → take (length p) (p ++ rest) ≡ p
take_front [] rest = refl
take_front (x ∷ p) rest = ap (λ r. x ∷ r) (take_front p rest)

le_value-le_bytes : (n : ℕ) → n ≤ max_frame_payload → le_value (le_bytes 4 n) ≡ n
le_value-le_bytes n h = omega arith

extract_when_complete :
    (rx : List ℕ) (n : ℕ)
    → le_value (take 4 rx) ≡ n
    → n ≤ max_frame_payload
    → 4 + n ≤ length rx
    → extract rx ≡ complete (take n (drop 4 rx)) (drop (4 + n) rx)
unfolding extract
extract_when_complete rx n v m h = ground arith

extract_when_short :
    (rx : List ℕ)
    → (4 ≤ length rx → le_value (take 4 rx) ≤ max_frame_payload)
    → (4 ≤ length rx → length rx < 4 + le_value (take 4 rx))
    → extract rx ≡ need_more
unfolding extract
extract_when_short rx m h =
    if_elim (λ r. r ≡ need_more) (leb 4 (length rx)) _ _
      (λ a. let k = leb→le 4 (length rx) a in let u = m k in let w = h k in ground arith)
      (λ a. refl)

four_plus : (n : ℕ) → 4 + n ≡ suc (suc (suc (suc n)))
four_plus n = omega arith

drop_four : (n a b c d : ℕ) (xs : List ℕ) → drop (4 + n) (a ∷ b ∷ c ∷ d ∷ xs) ≡ drop n xs
drop_four n a b c d xs = ap (λ k. drop k (a ∷ b ∷ c ∷ d ∷ xs)) (four_plus n)

whole : {a b x y : List ℕ} → a ≡ x → b ≡ y → complete a b ≡ complete x y
whole e f = cc

-- A buffer that starts with a frame gives that frame.
extract-complete :
    (p rest : List ℕ)
    → length p ≤ max_frame_payload
    → extract (frame_bytes p ++ rest) ≡ complete p rest
unfolding frame_bytes
extract-complete p rest h =
    let n = length-append p rest in
    extract_when_complete (frame_bytes p ++ rest) (length p) (le_value-le_bytes (length p) h) h
      (omega arith)
    ∙ whole (take_front p rest) (drop_four (length p) _ _ _ _ (p ++ rest) ∙ drop-length p rest)

-- A proper part of a frame is not enough.
extract-need_more :
    (rx ys p rest : List ℕ)
    → length p ≤ max_frame_payload
    → rx ++ ys ≡ frame_bytes p ++ rest
    → length rx < 4 + length p
    → extract rx ≡ need_more
unfolding frame_bytes
extract-need_more rx ys p rest h e s =
    let v : 4 ≤ length rx → le_value (take 4 rx) ≡ length p = λ k.
      ap le_value (take_prefix 4 rx ys (frame_bytes p) rest e k (omega arith))
      ∙ le_value-le_bytes (length p) h in
    extract_when_short rx (λ k. let w = v k in omega arith) (λ k. let w = v k in omega arith)

enough : (rx p : List ℕ) → 4 + length p ≤ length rx → length (frame_bytes p) ≤ length rx
unfolding frame_bytes
enough rx p h = omega arith

-- What `read_frame` finds in a buffer that, with what is to come, starts with a frame.
front :
    (rx ys p rest : List ℕ)
    → length p ≤ max_frame_payload
    → rx ++ ys ≡ frame_bytes p ++ rest
    → ((more : List ℕ) × (extract rx ≡ complete p more) × (more ++ ys ≡ rest))
      ⊎ (extract rx ≡ need_more)
front rx ys p rest h e = elim (Bool-cases (ltb (length rx) (4 + length p))) [
  | inl s ↦ inr (extract-need_more rx ys p rest h e (ltb→lt (length rx) (4 + length p) s))
  | inr l ↦
      let (more, q, t) =
        split_prefix rx ys (frame_bytes p) rest e
          (enough rx p (not-ltb (length rx) (4 + length p) l)) in
      inl (more, ap extract q ∙ extract-complete p more h, sym t)
]

-- The frame that the stream begins with, and what is left of the stream.
abbrev pub Reads : List ℕ → List ℕ → ReadResult → Type 0
Reads p rest none = ⊥
Reads p rest (some (r, rx, calls)) = (r ≡ frame p) × (rx ++ stream calls ≡ rest)

-- Whatever pieces the stream comes in, over however many calls and waits: if the buffered bytes and
-- those still to come are a frame and more, `read_frame` returns that frame's payload, and the
-- buffer and the calls not made hold exactly the bytes behind it.
pub read_frame-Reads :
    (calls : List Recv) (rx p rest : List ℕ)
    → IsHealthy calls
    → length p ≤ max_frame_payload
    → rx ++ stream calls ≡ frame_bytes p ++ rest
    → Reads p rest (read_frame calls rx)
unfolding read_frame on_recv
read_frame-Reads [] rx p rest w h e =
    let q : rx ≡ frame_bytes p ++ rest = sym (append-nil rx) ∙ e in
    rw (ap extract q ∙ extract-complete p rest h, Reads) (refl, append-nil rest)
read_frame-Reads (bytes b bs ∷ calls) rx p rest w h e =
    elim (front rx (b ∷ (bs ++ stream calls)) p rest h e) [
      | inl (more, x, t) ↦ rw (x, Reads) (refl, t)
      | inr x ↦
          rw (x, Reads)
            (read_frame-Reads calls (rx ++ b ∷ bs) p rest w h
              (append_assoc rx (b ∷ bs) (stream calls) ∙ e))
    ]
read_frame-Reads (would_block ready ∷ calls) rx p rest w h e =
    elim (front rx (stream calls) p rest h e) [
      | inl (more, x, t) ↦ rw (x, Reads) (refl, t)
      | inr x ↦ rw (x, Reads) (read_frame-Reads calls rx p rest w h e)
    ]
read_frame-Reads (would_block timeout ∷ calls) rx p rest w h e = absurd w
read_frame-Reads (would_block failed ∷ calls) rx p rest w h e = absurd w
read_frame-Reads (closed ∷ calls) rx p rest w h e = absurd w
read_frame-Reads (failure ∷ calls) rx p rest w h e = absurd w
