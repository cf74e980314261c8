-- ===== src/Device/Names.antt =====
-- The strategies of a device name: `is_pulse_device_name` of src/client/pulse_player.cpp, and the
-- functions from `is_node_based_device` to `build_open_strategies` of src/client/client.cpp. A
-- name is the list of its characters.
use Prim.Native.String.{String}
use audio_router.Prelude.Text.{chars, same_text, starts_with}
use audio_router.Prelude.{
  ℕ, Bool, false, ◌||◌, List, [], ◌∷◌, ◌++◌, Option, none, some, if◌then◌else◌, drop,
}

abbrev pub either_prefix : List ℕ → String → String → Bool
either_prefix name p q = starts_with name (chars p) || starts_with name (chars q)

unfoldable pub is_node_based_device : List ℕ → Bool
is_node_based_device name = either_prefix name "direct:" "/dev/"

unfoldable pub is_agm_device : List ℕ → Bool
is_agm_device name = starts_with name (chars "agm:") || same_text name (chars "agm")

unfoldable pub is_aaudio_device : List ℕ → Bool
is_aaudio_device name = starts_with name (chars "aaudio:") || same_text name (chars "aaudio")

unfoldable pub is_termux_device : List ℕ → Bool
is_termux_device name =
    starts_with name (chars "termux:")
    || same_text name (chars "termux")
    || same_text name (chars "termux-api")

unfoldable pub is_pulse_device_name : List ℕ → Bool
is_pulse_device_name name =
    same_text name (chars "pulse")
    || same_text name (chars "pulseaudio")
    || same_text name (chars "pa")
    || either_prefix name "pulse:" "pulse@"
    || either_prefix name "pulseaudio:" "pulseaudio@"
    || either_prefix name "pa:" "pa@"

abbrev default_node : List ℕ
default_node = chars "/dev/snd/pcmC0D0p"

abbrev or_default : List ℕ → List ℕ
or_default [] = default_node
or_default name = name

unfoldable pub primary_node : List ℕ → List ℕ
primary_node name = or_default (
    if starts_with name (chars "direct:")
    then drop 7 name
    else if starts_with name (chars "/dev/")
    then name
    else default_node)

-- `std::find(...) != end()`
unfoldable pub is_listed : List ℕ → List (List ℕ) → Bool
is_listed name [] = false
is_listed name (c ∷ cs) = same_text c name || is_listed name cs

unfoldable pub add_new : List (List ℕ) → List (List ℕ) → List (List ℕ)
add_new candidates [] = candidates
add_new candidates (dev ∷ devs) =
    add_new (if is_listed dev candidates then candidates else candidates ++ dev ∷ []) devs

-- `enumerated` is what `DirectAlsaPlayer::enumerate_kernel_pcm_devices()` finds.
unfoldable pub build_node_candidates : List (List ℕ) → List ℕ → List (List ℕ)
build_node_candidates enumerated name = add_new (primary_node name ∷ default_node ∷ []) enumerated

pub data OpenStrategy : Type 0 where
  pulse aaudio termux_api agm nodes legacy : OpenStrategy

-- `pulse_worth_trying` is what that function answers.
unfoldable pub build_open_strategies : (pulse_worth_trying : Bool) → List ℕ → List OpenStrategy
build_open_strategies pulse_worth_trying name =
    if is_pulse_device_name name
    then pulse ∷ aaudio ∷ termux_api ∷ agm ∷ nodes ∷ legacy ∷ []
    else if is_aaudio_device name
    then aaudio ∷ termux_api ∷ agm ∷ nodes ∷ legacy ∷ []
    else if is_termux_device name
    then termux_api ∷ aaudio ∷ agm ∷ nodes ∷ legacy ∷ []
    else if is_agm_device name
    then agm ∷ nodes ∷ legacy ∷ []
    else if is_node_based_device name
    then nodes ∷ []
    else if pulse_worth_trying
    then pulse ∷ aaudio ∷ termux_api ∷ legacy ∷ []
    else legacy ∷ []

-- The attempts that a strategy gets; `none` is `size_t`'s largest number.
unfoldable pub max_attempts : OpenStrategy → Option ℕ
max_attempts pulse = some 2
max_attempts aaudio = some 2
max_attempts termux_api = some 2
max_attempts agm = some 2
max_attempts nodes = some 8
max_attempts legacy = none
