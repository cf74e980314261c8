-- ===== src/Pulse/Parsed.antt =====
-- What `parse_device_spec` of src/client/pulse_player.cpp makes of a device name.
use audio_router.Prelude.{
  ℕ, ◌≤◌, ◌≡◌, refl, arith, true, false, not, ◌&&◌, ◌||◌, List, [], ◌∷◌, ◌++◌, Option, none, some,
  if_elim, ◌⊎◌, inl,
}
use audio_router.Prelude.Text.{chars, same_text, starts_with}
use audio_router.Device.Names.{is_pulse_device_name}
use audio_router.Pulse.Spec.{
  DeviceSpec, is_empty, trim_front, trim_back, trim, last_at, all_digits, number_of, latency_of,
  strip_prefix, split_latency, sink_of, explicit_sink, parse_device_spec,
}

abbrev default_text : List ℕ
default_text = chars "default"

abbrev default_sink_text : List ℕ
default_sink_text = chars "@DEFAULT_SINK@"

-- A specification that the player can use as it is: no latency, or one in the range that it allows,
-- and no sink name that stands for the preferred sink.
pub record IsUsable (spec : DeviceSpec) : Type 0 where
  pub latency : (spec.latency_ms ≡ 0) ⊎ ((10 ≤ spec.latency_ms) × (spec.latency_ms ≤ 500))
  pub not_default : same_text spec.sink default_text ≡ false
  pub not_default_sink : same_text spec.sink default_sink_text ≡ false

latency_of-range :
    (m : ℕ) (tail : List ℕ)
    → (latency_of m tail ≡ 0) ⊎ ((10 ≤ latency_of m tail) × (latency_of m tail ≤ 500))
unfolding latency_of
latency_of-range m tail = ground arith

split_latency-range :
    (m : ℕ) (rest : List ℕ) (at : Option (List ℕ × List ℕ))
    → let ms = (split_latency m rest at).1 in (ms ≡ 0) ⊎ ((10 ≤ ms) × (ms ≤ 500))
unfolding split_latency
split_latency-range m rest none = inl refl
split_latency-range m rest (some (before, behind)) =
    if_elim (λ (r : List ℕ × ℕ). (r.1 ≡ 0) ⊎ ((10 ≤ r.1) × (r.1 ≤ 500)))
      (not (is_empty (trim behind)) && all_digits (trim behind)) _ _
      (λ a. latency_of-range m (trim behind)) λ a. inl refl

explicit_sink-explicit :
    (sink : List ℕ)
    → (same_text (explicit_sink sink) default_text ≡ false)
      × (same_text (explicit_sink sink) default_sink_text ≡ false)
unfolding explicit_sink same_text
explicit_sink-explicit sink =
    if_elim (λ r. (same_text r default_text ≡ false) × (same_text r default_sink_text ≡ false))
      (same_text sink default_text || same_text sink default_sink_text) _ _ (λ a. (refl, refl))
      λ a. (ground arith, ground arith)

-- Whatever the device name, the latency is 0, for "derive it", or within 10 and 500 milliseconds, and the
-- sink is not a name of the preferred sink.
pub parse_device_spec-IsUsable :
    (ulong_max : ℕ) (name : List ℕ) → IsUsable (parse_device_spec ulong_max name)
unfolding parse_device_spec same_text
parse_device_spec-IsUsable ulong_max name =
    if_elim IsUsable (not (is_pulse_device_name name)) _ _
      (λ a. record { latency = inl refl; not_default = refl; not_default_sink = refl })
      λ a. record {
        latency = split_latency-range ulong_max (strip_prefix name) (last_at (strip_prefix name));
        not_default = (explicit_sink-explicit _).0;
        not_default_sink = (explicit_sink-explicit _).1;
      }

-- Digits hold no `@` and no blanks.
last_at-digits : (cs : List ℕ) → all_digits cs ≡ true → last_at cs ≡ none
unfolding all_digits last_at
last_at-digits [] h = refl
last_at-digits (c ∷ cs) h = let ih = last_at-digits cs (ground arith) in rw ih (ground arith)

trim_back-digits : (cs : List ℕ) → all_digits cs ≡ true → trim_back cs ≡ cs
unfolding all_digits trim_back
trim_back-digits [] h = refl
trim_back-digits (c ∷ []) h = ground arith
trim_back-digits (c ∷ d ∷ cs) h = let ih = trim_back-digits (d ∷ cs) (ground arith) in rw ih refl

trim-digits : (cs : List ℕ) → all_digits cs ≡ true → trim cs ≡ cs
unfolding all_digits trim trim_front
trim-digits [] h = trim_back-digits [] refl
trim-digits (c ∷ cs) h =
    let e : trim_front (c ∷ cs) ≡ c ∷ cs = ground arith in rw e (trim_back-digits (c ∷ cs) h)

last_at-append : (s cs : List ℕ) → last_at cs ≡ none → last_at (s ++ (64 ∷ cs)) ≡ some (s, cs)
unfolding last_at
last_at-append [] cs h = rw h refl
last_at-append (c ∷ s) cs h = rw (last_at-append s cs h) refl

-- A sink name that is written as it is meant.
pub record IsSinkName (sink : List ℕ) : Type 0 where
  pub trimmed : trim sink ≡ sink
  pub not_default : same_text sink default_text ≡ false
  pub not_default_sink : same_text sink default_sink_text ≡ false

sink_of-name : (sink : List ℕ) → IsSinkName sink → explicit_sink (sink_of (58 ∷ sink)) ≡ sink
unfolding explicit_sink sink_of
sink_of-name sink w = rw (w.trimmed, w.not_default, w.not_default_sink) refl

strip_prefix-name : (s : List ℕ) → strip_prefix (chars "pulse:" ++ s) ≡ 58 ∷ s
unfolding strip_prefix starts_with
strip_prefix-name s = refl

is_pulse_device_name-name : (s : List ℕ) → is_pulse_device_name (chars "pulse:" ++ s) ≡ true
unfolding is_pulse_device_name same_text starts_with
is_pulse_device_name-name s = refl

latency_of-in_range :
    (m : ℕ) (cs : List ℕ)
    → (10 ≤ number_of 0 cs) × (number_of 0 cs ≤ 500)
    → 500 ≤ m
    → latency_of m cs ≡ number_of 0 cs
unfolding latency_of
latency_of-in_range m cs (a, b) l = ground arith

-- A suffix of digits in the range is the latency.
split_latency-digits :
    (m : ℕ) (before cs : List ℕ)
    → all_digits cs ≡ true
    → (10 ≤ number_of 0 cs) × (number_of 0 cs ≤ 500)
    → 500 ≤ m
    → (rest : List ℕ) → split_latency m rest (some (before, cs)) ≡ (before, number_of 0 cs)
unfolding split_latency number_of
split_latency-digits m before [] d (a, b) l rest = absurd (omega arith)
split_latency-digits m before (c ∷ cs) d r l rest =
    rw (trim-digits (c ∷ cs) d, d, latency_of-in_range m (c ∷ cs) r l) refl

-- The name `pulse:<sink>@<ms>`, with blanks nowhere around the sink, which may have an `@` in it and is
-- none of the two names of the preferred sink, and with 10 to 500 in decimal digits, is read back as
-- that sink and that latency.
pub parse_device_spec-name :
    (ulong_max : ℕ) (sink digits : List ℕ)
    → IsSinkName sink
    → all_digits digits ≡ true
    → (10 ≤ number_of 0 digits) × (number_of 0 digits ≤ 500)
    → 500 ≤ ulong_max
    → parse_device_spec ulong_max (chars "pulse:" ++ (sink ++ (64 ∷ digits)))
      ≡ record { sink = sink; latency_ms = number_of 0 digits }
unfolding parse_device_spec
parse_device_spec-name ulong_max sink digits w d r m =
    rw
      (
        strip_prefix-name (sink ++ (64 ∷ digits)),
        is_pulse_device_name-name (sink ++ (64 ∷ digits)),
        last_at-append (58 ∷ sink) digits (last_at-digits digits d),
        split_latency-digits ulong_max (58 ∷ sink) digits d r m (58 ∷ (sink ++ (64 ∷ digits))),
        sink_of-name sink w,
      )
      refl
