-- ===== src/Endpoint.antt =====
-- src/server/audio_endpoint_control.cpp: `AudioEndpointControl` as it is built on Windows, where the
-- endpoint is an `IAudioEndpointVolume`, and off it, where it is the two `dummy_` members. On Windows `init`
-- has found the endpoint and its calls succeed: without an endpoint `mute_pc_speaker` calls `init`, which
-- locks the mutex that is held already, and that is left out. `float` is a type `V` with its operations
-- `Floats V`; each method holds the mutex, so it is one step on the state.
use audio_router.Prelude.{ℕ, Bool, true, false, not, ◌||◌, if◌then◌else◌}

-- `of_bits` is the value of the 32 bits, `clamp` is `std::clamp(v, 0.0f, 1.0f)`.
pub record Floats (V : Type 0) : Type 0 where
  pub zero_v : V
  pub one_v : V
  pub of_bits : ℕ → V
  pub clamp : V → V

pub data MuteMethod : Type 0 where
  endpoint_mute volume_zero both : MuteMethod

-- `method == EndpointMute || method == Both`
abbrev pub by_mute : MuteMethod → Bool
by_mute endpoint_mute = true
by_mute volume_zero = false
by_mute both = true

-- `method == VolumeZero || method == Both`
abbrev pub by_volume : MuteMethod → Bool
by_volume endpoint_mute = false
by_volume volume_zero = true
by_volume both = true

-- The build, and the mute and the volume that the endpoint has.
pub record EndpointControl (V : Type 0) : Type 0 where
  pub is_windows : Bool
  pub is_muted : Bool
  pub volume : V
  pub is_silenced_by_us : Bool
  pub prev_mute_state : Bool
  pub prev_volume_level : V
  pub active_mute_method : MuteMethod

-- What a silence governs: on Windows the parts that the method names, off it both.
abbrev pub governs_mute : (is_windows : Bool) → MuteMethod → Bool
governs_mute is_windows method = not is_windows || by_mute method

abbrev pub governs_volume : (is_windows : Bool) → MuteMethod → Bool
governs_volume is_windows method = not is_windows || by_volume method

module _ {V : Type 0} where
  -- Off Windows
  abbrev pub new_endpoint : Floats V → EndpointControl V
  new_endpoint f = record {
    is_windows = false;
    is_muted = false;
    volume = f.one_v;
    is_silenced_by_us = false;
    prev_mute_state = false;
    prev_volume_level = f.one_v;
    active_mute_method = endpoint_mute;
  }

  abbrev remember : EndpointControl V → EndpointControl V
  remember c =
      if c.is_silenced_by_us
      then c
      else record c { prev_mute_state = c.is_muted; prev_volume_level = c.volume }

  unfoldable pub mute_pc_speaker : Floats V → MuteMethod → EndpointControl V → EndpointControl V
  mute_pc_speaker f method c =
      let c1 = remember (record c { active_mute_method = method }) in
      record c1 {
        is_muted = if governs_mute c.is_windows method then true else c.is_muted;
        volume = if governs_volume c.is_windows method then f.zero_v else c.volume;
        is_silenced_by_us = true;
      }

  -- The mute and the volume from before the silence
  abbrev put_back : EndpointControl V → EndpointControl V
  put_back c = record c {
    is_muted =
        if governs_mute c.is_windows c.active_mute_method then c.prev_mute_state else c.is_muted;
    volume =
        if governs_volume c.is_windows c.active_mute_method then c.prev_volume_level else c.volume;
  }

  unfoldable pub unmute_pc_speaker : EndpointControl V → EndpointControl V
  unmute_pc_speaker c =
      if c.is_silenced_by_us then record (put_back c) { is_silenced_by_us = false } else c

  unfoldable pub set_mute : Bool → EndpointControl V → EndpointControl V
  set_mute mute c = record c { is_muted = mute }

  unfoldable pub set_volume : Floats V → V → EndpointControl V → EndpointControl V
  set_volume f volume c = record c { volume = f.clamp volume }

  -- Off Windows, `shutdown` forgets the silence and leaves the endpoint as it is. The release
  -- of the endpoint on Windows is left out.
  unfoldable pub shutdown : EndpointControl V → EndpointControl V
  shutdown c =
      if c.is_silenced_by_us
      then record (if c.is_windows then put_back c else c) { is_silenced_by_us = false }
      else c
