-- ===== src/Pulse/Spec.antt =====
-- `parse_device_spec` of src/client/pulse_player.cpp: the sink and the latency in a device name, which
-- is the list of its characters.
use audio_router.Prelude.{
  ℕ, ◌+◌, ◌*◌, ◌-◌, Bool, true, false, not, ◌&&◌, ◌||◌, List, [], ◌∷◌, ◌++◌, Option, none, some,
  ltb, leb, ◌==◌, if◌then◌else◌, drop,
}
use audio_router.Prelude.Text.{chars, same_text, starts_with}
use audio_router.Device.Names.{is_pulse_device_name}
use audio_router.Pulse.Attr.{min_latency_ms, max_latency_ms}

pub record DeviceSpec : Type 0 where
  pub sink : List ℕ
  pub latency_ms : ℕ  -- uint32_t

abbrev pub no_spec : DeviceSpec
no_spec = record { sink = []; latency_ms = 0 }

-- `std::isspace` of the C locale.
abbrev pub is_space : ℕ → Bool
is_space c = c == 32 || leb 9 c && leb c 13

abbrev pub is_digit : ℕ → Bool
is_digit c = leb 48 c && leb c 57

unfoldable pub trim_front : List ℕ → List ℕ
trim_front [] = []
trim_front (c ∷ cs) = let rest = trim_front cs in if is_space c then rest else c ∷ cs

abbrev pub keep_unless_blank : ℕ → List ℕ → List ℕ
keep_unless_blank c [] = if is_space c then [] else c ∷ []
keep_unless_blank c (d ∷ ds) = c ∷ (d ∷ ds)

unfoldable pub trim_back : List ℕ → List ℕ
trim_back [] = []
trim_back (c ∷ cs) = keep_unless_blank c (trim_back cs)

unfoldable pub trim : List ℕ → List ℕ
unfolding trim_front trim_back
trim s = trim_back (trim_front s)

-- What stands before and behind the last `@`.
abbrev pub at_here : ℕ → List ℕ → Option (List ℕ × List ℕ) → Option (List ℕ × List ℕ)
at_here c cs (some (before, behind)) = some (c ∷ before, behind)
at_here c cs none = if c == 64 then some ([], cs) else none

unfoldable pub last_at : List ℕ → Option (List ℕ × List ℕ)
last_at [] = none
last_at (c ∷ cs) = at_here c cs (last_at cs)

unfoldable pub all_digits : List ℕ → Bool
all_digits [] = true
all_digits (c ∷ cs) = is_digit c && all_digits cs

abbrev pub is_empty : List ℕ → Bool
is_empty [] = true
is_empty (_ ∷ _) = false

unfoldable pub number_of : ℕ → List ℕ → ℕ
number_of acc [] = acc
number_of acc (c ∷ cs) = number_of (acc * 10 + (c - 48)) cs

-- `std::stoul`, whose exception means 0 here, and the two bounds. `ulong_max` is the largest
-- `unsigned long` of the target.
unfoldable pub latency_of : (ulong_max : ℕ) → List ℕ → ℕ
latency_of ulong_max tail =
    let n = number_of 0 tail in
    let ms = if ltb ulong_max n then 0 else n in
    let ms1 = if ltb max_latency_ms ms then max_latency_ms else ms in
    if not (ms1 == 0) && ltb ms1 min_latency_ms then min_latency_ms else ms1

-- What follows the first of the prefixes that fits.
unfoldable pub strip_prefix : List ℕ → List ℕ
strip_prefix name =
    if starts_with name (chars "pulseaudio")
    then drop 10 name
    else if starts_with name (chars "pulse")
    then drop 5 name
    else if starts_with name (chars "pa")
    then drop 2 name
    else []

-- The latency suffix, where there is one: what is left of the name, and the milliseconds.
unfoldable pub split_latency : (ulong_max : ℕ) → List ℕ → Option (List ℕ × List ℕ) → List ℕ × ℕ
split_latency ulong_max rest none = (rest, 0)
split_latency ulong_max rest (some (before, behind)) =
    let tail = trim behind in
    if not (is_empty tail) && all_digits tail
    then (before, latency_of ulong_max tail)
    else (rest, 0)

unfoldable pub sink_of : List ℕ → List ℕ
sink_of [] = []
sink_of (c ∷ cs) = if c == 58 then trim cs else []

-- The names of the sink that the daemon prefers mean no name.
unfoldable pub explicit_sink : List ℕ → List ℕ
explicit_sink sink =
    if same_text sink (chars "default") || same_text sink (chars "@DEFAULT_SINK@") then [] else sink

unfoldable pub parse_device_spec : (ulong_max : ℕ) → List ℕ → DeviceSpec
parse_device_spec ulong_max name =
    let rest = strip_prefix name in
    let (left, ms) = split_latency ulong_max rest (last_at rest) in
    if not (is_pulse_device_name name)
    then no_spec
    else record { sink = explicit_sink (sink_of left); latency_ms = ms }

-- `get_device_name`
unfoldable pub get_device_name : DeviceSpec → List ℕ
get_device_name spec = if is_empty spec.sink then chars "pulse" else chars "pulse:" ++ spec.sink
