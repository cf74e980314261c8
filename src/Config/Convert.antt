-- ===== src/Config/Convert.antt =====
-- `AudioConverter` of src/common/audio_types.hpp: the span versions of the sample conversions and of the
-- downmix to stereo. Floats are a type with the operations that the source uses; a `none` result is a read
-- past the source.
use audio_router.Prelude.{
  ℕ, zero, suc, ◌+◌, Bool, true, false, ◌||◌, List, [], ◌∷◌, ◌++◌, Option, none, some, ltb, leb,
  ◌==◌, if◌then◌else◌, length, take, drop,
}
use audio_router.Prelude.Word.{mul64}

-- `clamp_unit` is `std::clamp(v, -1.0f, 1.0f)`, `to_s16` the cast of `v * 32767.0f`, `of_s16` the quotient
-- by `32768.0f`; `side_gain` is 0.7071 and `mix_gain` 0.7.
pub record FloatOps (F : Type 0) : Type 0 where
  pub zero_f : F
  pub add : F → F → F
  pub mul : F → F → F
  pub div_by : F → ℕ → F
  pub clamp_unit : F → F
  pub to_s16 : F → ℕ
  pub of_s16 : ℕ → F
  pub side_gain : F
  pub mix_gain : F

abbrev pub map_list {ℓ κ} : {A : Type ℓ} → {B : Type κ} → (A → B) → List A → List B
map_list f [] = []
map_list f (x ∷ xs) = f x ∷ map_list f xs

-- The front of `dst` is overwritten.
abbrev pub over_front {ℓ} : {A : Type ℓ} → List A → List A → List A
over_front out dst = out ++ drop (length out) dst

module _ {F : Type 0} where
  unfoldable pub float32_to_s16le : FloatOps F → List F → List ℕ → Bool × List ℕ
  float32_to_s16le o src dst =
      if ltb (length dst) (length src)
      then (false, dst)
      else (true, over_front (map_list (λ v. o.to_s16 (o.clamp_unit v)) src) dst)

  unfoldable pub s16le_to_float32 : FloatOps F → List ℕ → List F → Bool × List F
  s16le_to_float32 o src dst =
      if ltb (length dst) (length src)
      then (false, dst)
      else (true, over_front (map_list o.of_s16 src) dst)

  -- `std::clamp(frame[i], -1.0f, 1.0f)`, where the frame has such a sample.
  abbrev pub sample_at : FloatOps F → ℕ → List F → Option F
  sample_at o i [] = none
  sample_at o zero (v ∷ vs) = some (o.clamp_unit v)
  sample_at o (suc i) (v ∷ vs) = sample_at o i vs

  -- The sums and counts of the even and the odd channels.
  unfoldable pub side_sums :
      FloatOps F → (even : Bool) → List F → (F × ℕ) × (F × ℕ) → (F × ℕ) × (F × ℕ)
  side_sums o even [] sums = sums
  side_sums o true (v ∷ vs) ((l, n), r) =
      side_sums o false vs ((o.add l (o.clamp_unit v), n + 1), r)
  side_sums o false (v ∷ vs) (l, (r, n)) =
      side_sums o true vs (l, (o.add r (o.clamp_unit v), n + 1))

  abbrev pub mean : FloatOps F → F × ℕ → F
  mean o (sum, n) = if ltb 0 n then o.div_by sum n else o.zero_f

  -- One channel for both sides
  unfoldable pub mono : Option F → Option (List F)
  mono (some v) = some (v ∷ v ∷ [])
  mono none = none

  -- The front pair, each side with the center and with its back channel
  unfoldable pub surround :
      FloatOps F → (front_left front_right center back_left back_right : Option F) → Option (List F)
  surround o (some fl) (some fr) (some fc) (some bl) (some br) =
      let left = o.add (o.add fl (o.mul o.side_gain fc)) (o.mul o.side_gain bl) in
      let right = o.add (o.add fr (o.mul o.side_gain fc)) (o.mul o.side_gain br) in
      some (o.clamp_unit (o.mul left o.mix_gain) ∷ o.clamp_unit (o.mul right o.mix_gain) ∷ [])
  surround o _ _ _ _ _ = none

  -- One frame of 1, of 6 or more, or of another number of channels; `frame` is what the source holds from
  -- the frame on, and `none` is a read behind the frame's own channels.
  unfoldable pub mix_frame : FloatOps F → ℕ → List F → Option (List F)
  unfolding mono surround
  mix_frame o c frame =
      let own = take c frame in
      let at = λ (i : ℕ). sample_at o i own in
      let sums = side_sums o true own ((o.zero_f, 0), (o.zero_f, 0)) in
      if c == 1
      then mono (at 0)
      else if leb 6 c
      then surround o (at 0) (at 1) (at 2) (at 4) (at 5)
      else some (o.clamp_unit (mean o (sums.0)) ∷ o.clamp_unit (mean o (sums.1)) ∷ [])

  abbrev pub behind : Option (List F) → Option (List F) → Option (List F)
  behind none rest = none
  behind (some out) none = none
  behind (some out) (some rest) = some (out ++ rest)

  unfoldable pub mix_frames : FloatOps F → ℕ → (frame_count : ℕ) → List F → Option (List F)
  mix_frames o c zero src = some []
  mix_frames o c (suc n) src =
      let rest = mix_frames o c n (drop c src) in
      if ltb (length src) c then none else behind (mix_frame o c src) rest

  unfoldable pub downmix_impl :
      FloatOps F → List F → (src_channels frame_count : ℕ) → Option (List F)
  downmix_impl o src c n =
      if c == 2
      then (if ltb (length src) (mul64 n 2) then none else some (take (mul64 n 2) src))
      else mix_frames o c n src

  abbrev pub stored : List F → Option (List F) → Option (Bool × List F)
  stored dst none = none
  stored dst (some out) = some (true, over_front out dst)

  unfoldable pub downmix_to_stereo_float :
      FloatOps F → List F → (src_channels : ℕ) → List F → (frame_count : ℕ) → Option (Bool × List F)
  downmix_to_stereo_float o src c dst n =
      if c == 0 || n == 0
      then some (false, dst)
      else if ltb (length src) (mul64 n c)
      then some (false, dst)
      else if ltb (length dst) (mul64 n 2)
      then some (false, dst)
      else stored dst (downmix_impl o src c n)
