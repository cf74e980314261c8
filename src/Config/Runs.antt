-- ===== src/Config/Runs.antt =====
-- Tests of src/common/audio_types.hpp on a stereo stream.
use audio_router.Prelude.{
  ℕ, ◌+◌, ◌*◌, ◌/◌, ◌≡◌, refl, true, List, [], ◌∷◌, some, ltb, if◌then◌else◌,
}
use audio_router.Config.Convert.{
  FloatOps, downmix_to_stereo_float, downmix_impl, mix_frames, mix_frame, mono, surround, side_sums,
}

-- Whole numbers from 0 to 100 for the floats.
abbrev whole : FloatOps ℕ
whole = record {
  zero_f = 0;
  add = λ a b. a + b;
  mul = λ a b. a * b;
  div_by = λ a n. a / n;
  clamp_unit = λ a. if ltb 100 a then 100 else a;
  to_s16 = λ a. a;
  of_s16 = λ a. a;
  side_gain = 1;
  mix_gain = 1;
}

abbrev three_channels : List ℕ
three_channels = 10 ∷ 20 ∷ 200 ∷ 30 ∷ 40 ∷ 50 ∷ []

mixed :
    downmix_to_stereo_float whole three_channels 3 (1 ∷ 2 ∷ 3 ∷ 4 ∷ 5 ∷ []) 2
    ≡ some (true, 55 ∷ 20 ∷ 40 ∷ 40 ∷ 5 ∷ [])
unfolding downmix_to_stereo_float downmix_impl mix_frames mix_frame mono surround side_sums
mixed = refl
