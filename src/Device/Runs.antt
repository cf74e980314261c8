-- ===== src/Device/Runs.antt =====
-- Tests of the device opening of src/client/client.cpp.
use audio_router.Prelude.{
  Bool, inl, inr, ℕ, zero, suc, ◌+◌, ◌≡◌, refl, true, false, [], ◌∷◌, some, length,
}
use audio_router.Prelude.Text.{chars, same_text, starts_with}
use audio_router.Device.{
  device, placeholder, waiting, opening, checked, opened, finished, Shared, set_at, install, spawn,
  begin, open_ok, pass, take_slot, close_displaced, Reach, here, next, start,
}
use audio_router.Device.Exclusive.{Reach-one_backend}
use audio_router.Device.Leak.{Reach-leaked}
use audio_router.Device.Names.{
  agm, nodes, legacy, is_pulse_device_name, is_aaudio_device, build_open_strategies,
}
use audio_router.Device.Supervisor.{Turn, device_open_supervisor}
use audio_router.Device.Schedule.{
  Ends, device_open_supervisor-Ends, IsChain, build_open_strategies-IsChain,
}

-- The states of attempt 0 that opens its device without a disturbance.
abbrev s0 : Shared
s0 = start (some placeholder)

abbrev s1 : Shared
s1 = record s0 { phase = set_at s0.phase 0 waiting }

abbrev s2 : Shared
s2 = record s1 { phase = set_at s1.phase 0 opening }

abbrev s3 : Shared
s3 = record s2 { live = set_at s2.live 0 true; phase = set_at s2.phase 0 opened }

abbrev s4 : Shared
s4 = record s3 { phase = set_at s3.phase 0 checked }

abbrev s5 : Shared
s5 = install s4 0

abbrev s6 : Shared
s6 = record s5 { live = s5.live; phase = set_at s5.phase 0 finished }

run : Reach s0 s6
run =
    next
      (next
        (next
          (next (next (next here (spawn 0 refl refl)) (begin 0 refl refl refl))
            (open_ok 0 refl refl))
          (pass 0 refl refl refl))
        (take_slot 0 refl refl refl))
      (close_displaced 0 (some placeholder) refl refl)

abbrev first : ℕ
first = 0

Reach-one_backend_example : (first ≡ first) × (s6.slot ≡ some (device 0))
Reach-one_backend_example = Reach-one_backend (some placeholder) first first run refl refl refl refl

Reach-leaked_example :
    (t : Shared) × Reach s4 t × (t.stopped ≡ true) × (t.phase 0 ≡ finished) × (t.live 0 ≡ true)
Reach-leaked_example = Reach-leaked s4 0 refl refl refl

-- The first attempt hangs, the second fails, and the third opens.
abbrev round_of : (is_done is_open : Bool) → Turn
round_of is_done is_open = record {
  is_shut_at_test = false;
  is_playing = false;
  is_shut_behind_wait = false;
  result = is_open;
  finished = is_done;
  is_shut_at_last = false;
}

abbrev third : ℕ → Turn
third zero = round_of false false
third (suc zero) = round_of true false
third (suc (suc n)) = round_of true true

device_open_supervisor-Ends_example :
    Ends (device_open_supervisor (2 + 3 + 1) third (agm ∷ nodes ∷ legacy ∷ []))
device_open_supervisor-Ends_example =
    device_open_supervisor-Ends third 2 (agm ∷ nodes ∷ legacy ∷ [])
      (inr (inr (inl (refl, refl, refl))))

aaudio_deep-IsChain : IsChain (build_open_strategies false (chars "aaudio:deep"))
aaudio_deep-IsChain = build_open_strategies-IsChain false (chars "aaudio:deep")

aaudio_falls_back : length (build_open_strategies true (chars "aaudio:deep")) ≡ 5
unfolding build_open_strategies is_pulse_device_name same_text starts_with is_aaudio_device
aaudio_falls_back = refl
