-- ===== src/Termux/Convert.antt =====
-- `convert_to_s16le` of src/client/termux_api_player.cpp: 24- and 32-bit samples become 16-bit ones. An
-- integer of the source is its two's-complement pattern.
use audio_router.Prelude.{
  ℕ, ◌+◌, ◌*◌, ◌/◌, ◌%◌, ◌^◌, ◌<◌, ◌≡◌, refl, ap, ◌∙◌, arith, List, [], ◌∷◌, ◌++◌, leb,
  if◌then◌else◌,
}
use audio_router.Prelude.Word.{AllBytes, u16}
use audio_router.Protocol.Wire.{le_bytes}

-- `b0 | (b1 << 8) | ...`, whose operands share no bit, and `v >> 16`.
abbrev pub sample_of_s32 : (b0 b1 b2 b3 : ℕ) → ℕ
sample_of_s32 b0 b1 b2 b3 = let v = b0 + b1 * 2 ^ 8 + b2 * 2 ^ 16 + b3 * 2 ^ 24 in u16 (v / 2 ^ 16)

-- The sign bit of 24 is spread over the upper 8 before `v >> 8`.
abbrev pub sample_of_s24 : (b0 b1 b2 : ℕ) → ℕ
sample_of_s24 b0 b1 b2 =
    let v = b0 + b1 * 2 ^ 8 + b2 * 2 ^ 16 in
    let extended = if leb 0x800000 v then v + 0xff000000 else v in u16 (extended / 2 ^ 8)

-- The two loops, over the samples that the source bytes hold.
unfoldable pub convert_s32 : List ℕ → List ℕ
convert_s32 (b0 ∷ b1 ∷ b2 ∷ b3 ∷ src) = le_bytes 2 (sample_of_s32 b0 b1 b2 b3) ++ convert_s32 src
convert_s32 _ = []

unfoldable pub convert_s24 : List ℕ → List ℕ
convert_s24 (b0 ∷ b1 ∷ b2 ∷ src) = le_bytes 2 (sample_of_s24 b0 b1 b2) ++ convert_s24 src
convert_s24 _ = []

-- The reference: the two upper bytes of every sample, as they are.
abbrev pub upper_of_s32 : List ℕ → List ℕ
upper_of_s32 (b0 ∷ b1 ∷ b2 ∷ b3 ∷ src) = b2 ∷ b3 ∷ upper_of_s32 src
upper_of_s32 _ = []

abbrev pub upper_of_s24 : List ℕ → List ℕ
upper_of_s24 (b0 ∷ b1 ∷ b2 ∷ src) = b1 ∷ b2 ∷ upper_of_s24 src
upper_of_s24 _ = []

upper_s32 :
    (b0 b1 b2 b3 : ℕ)
    → (b0 < 256) × (b1 < 256) × (b2 < 256) × (b3 < 256)
    → le_bytes 2 (sample_of_s32 b0 b1 b2 b3) ≡ b2 ∷ b3 ∷ []
upper_s32 b0 b1 b2 b3 (p, q, r, s) =
    let lo : sample_of_s32 b0 b1 b2 b3 % 256 ≡ b2 = omega arith in
    let hi : sample_of_s32 b0 b1 b2 b3 / 256 % 256 ≡ b3 = omega arith in rw (lo, hi) refl

upper_s24 :
    (b0 b1 b2 : ℕ)
    → (b0 < 256) × (b1 < 256) × (b2 < 256)
    → le_bytes 2 (sample_of_s24 b0 b1 b2) ≡ b1 ∷ b2 ∷ []
upper_s24 b0 b1 b2 (p, q, r) =
    let lo : sample_of_s24 b0 b1 b2 % 256 ≡ b1 = ground arith in
    let hi : sample_of_s24 b0 b1 b2 / 256 % 256 ≡ b2 = ground arith in rw (lo, hi) refl

convert_s32-upper : (src : List ℕ) → AllBytes src → convert_s32 src ≡ upper_of_s32 src
unfolding convert_s32
convert_s32-upper [] w = refl
convert_s32-upper (a ∷ []) w = refl
convert_s32-upper (a ∷ b ∷ []) w = refl
convert_s32-upper (a ∷ b ∷ c ∷ []) w = refl
convert_s32-upper (a ∷ b ∷ c ∷ d ∷ src) (p, (q, (r, (s, w)))) =
    ap (λ l. l ++ convert_s32 src) (upper_s32 a b c d (p, q, r, s))
    ∙ ap (λ l. c ∷ d ∷ l) (convert_s32-upper src w)

convert_s24-upper : (src : List ℕ) → AllBytes src → convert_s24 src ≡ upper_of_s24 src
unfolding convert_s24
convert_s24-upper [] w = refl
convert_s24-upper (a ∷ []) w = refl
convert_s24-upper (a ∷ b ∷ []) w = refl
convert_s24-upper (a ∷ b ∷ c ∷ src) (p, (q, (r, w))) =
    ap (λ l. l ++ convert_s24 src) (upper_s24 a b c (p, q, r))
    ∙ ap (λ l. b ∷ c ∷ l) (convert_s24-upper src w)

-- The conversion of bytes keeps the two upper bytes of every 32-bit and of every 24-bit sample as they
-- are, the sign with them, and drops the lower ones.
pub convert_to_s16le-upper :
    (src : List ℕ)
    → AllBytes src
    → (convert_s32 src ≡ upper_of_s32 src) × (convert_s24 src ≡ upper_of_s24 src)
convert_to_s16le-upper src w = (convert_s32-upper src w, convert_s24-upper src w)
