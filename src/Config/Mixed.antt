-- ===== src/Config/Mixed.antt =====
-- What the downmix of `AudioConverter` (src/common/audio_types.hpp) writes.
use audio_router.Prelude.{
  ℕ, ◌*◌, ◌<◌, ◌≡◌, Bool, true, false, List, [], ◌∷◌, ◌++◌, Option, none, some, length, take, drop,
  ◌⊎◌,
}
use audio_router.Config.Convert.{FloatOps}

module _ {F : Type 0} where
  -- Every sample is a result of the clamp.
  abbrev pub AllClamped : FloatOps F → List F → Type 0
  AllClamped o [] = Unit {0}
  AllClamped o (v ∷ vs) = ((w : F) × (v ≡ o.clamp_unit w)) × AllClamped o vs

  abbrev Clamps : FloatOps F → ℕ → List F → Type 0
  Clamps o n out = (length out ≡ n) × AllClamped o out

  -- A sample that was read.
  abbrev IsRead : FloatOps F → Option F → Type 0
  IsRead o none = ⊥
  IsRead o (some v) = (w : F) × (v ≡ o.clamp_unit w)

  -- Two clamped samples, and no read behind the frame.
  abbrev MixesOne : FloatOps F → Option (List F) → Type 0
  MixesOne o none = ⊥
  MixesOne o (some out) = Clamps o 2 out

  abbrev Mixes : FloatOps F → ℕ → Option (List F) → Type 0
  Mixes o n none = ⊥
  Mixes o n (some out) = Clamps o (n * 2) out

  -- The call refuses and leaves the destination alone, or it overwrites two samples for each frame and no
  -- others; besides a copy of stereo, every sample that it writes is clamped.
  abbrev pub Downmixed : FloatOps F → List F → ℕ → List F → ℕ → Option (Bool × List F) → Type 0
  Downmixed o src c dst n none = ⊥
  Downmixed o src c dst n (some (false, after)) =
      (after ≡ dst) × ((n * c ≡ 0) ⊎ ((length src < n * c) ⊎ (length dst < n * 2)))
  Downmixed o src c dst n (some (true, after)) =
      (out : List F) × (after ≡ out ++ drop (n * 2) dst)
      × (length out ≡ n * 2)
      × (((c ≡ 2) × (out ≡ take (n * 2) src)) ⊎ AllClamped o out)
