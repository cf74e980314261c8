-- ===== src/Agm/Mono.antt =====
-- What `write_frames` of src/client/agm_fifo_player.cpp sends of stereo sound.
use audio_router.Prelude.{◌≡◌, refl, arith, List, [], ◌∷◌, ◌⊎◌}
use audio_router.Prelude.Int.{ℤ, pos, negsuc, ◌+ℤ◌, ◌≤ℤ◌}
use audio_router.Agm.Sink.{mix, downmix}

-- `m` lies between two numbers.
abbrev pub IsBetween : ℤ → ℤ → ℤ → Type 0
IsBetween l r m = (l ≤ℤ m × m ≤ℤ r) ⊎ (r ≤ℤ m × m ≤ℤ l)

mix-IsBetween : (l r : ℤ) → IsBetween l r (mix l r)
unfolding mix ◌+ℤ◌
mix-IsBetween (pos a) (pos b) = ground arith
mix-IsBetween (pos a) (negsuc b) = ground arith
mix-IsBetween (negsuc a) (pos b) = ground arith
mix-IsBetween (negsuc a) (negsuc b) = ground arith

-- Each sample of the mix belongs to a frame.
abbrev pub AllBetween : List ℤ → List ℤ → Type 0
AllBetween [] ms = ms ≡ []
AllBetween (l ∷ []) ms = ms ≡ []
AllBetween (l ∷ r ∷ rest) [] = ⊥
AllBetween (l ∷ r ∷ rest) (m ∷ ms) = IsBetween l r m × AllBetween rest ms

-- The mix has one sample for each stereo frame, which lies between the samples of the frame: it fits
-- the 16 bits that it is cast to, and equal samples are sent as they are.
pub downmix-AllBetween : (pcm : List ℤ) → AllBetween pcm (downmix pcm)
unfolding downmix
downmix-AllBetween [] = refl
downmix-AllBetween (l ∷ []) = refl
downmix-AllBetween (l ∷ r ∷ rest) = (mix-IsBetween l r, downmix-AllBetween rest)
