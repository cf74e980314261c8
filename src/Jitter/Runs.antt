-- ===== src/Jitter/Runs.antt =====
-- Tests of src/client/jitter_buffer.cpp on a mono stream.
use audio_router.Prelude.{ℕ, ◌+◌, ◌*◌, refl, inl, arith, true, [], ◌∷◌, some, take}
use audio_router.Prelude.Word.{sub32}
use audio_router.Config.{AudioConfig, pcm_s16le}
use audio_router.Jitter.{Doubles, JitterBuffer, construct}
use audio_router.Jitter.Push.{push_packet}
use audio_router.Jitter.Pop.{pop_frames}
use audio_router.Jitter.Inv.{IsValid}
use audio_router.Jitter.PushKept.{Kept, push_packet-Kept}
use audio_router.Jitter.PushStep.{Branches, push_packet-Branches}
use audio_router.Jitter.PushInv.{stored}
use audio_router.Jitter.PopTotal.{Delivered, pop_frames-Delivered}

-- Whole numbers for the jitter estimate.
abbrev whole : Doubles ℕ
whole = record {
  of_ℕ = λ n. n;
  add = λ a b. a + b;
  sub = λ a b. a;
  mul = λ a b. a * b;
  div = λ a b. a;
}

abbrev mono : AudioConfig
mono = record { sample_rate = 1000; channels = 1; format = pcm_s16le; frames_per_packet = 2 }

abbrev empty : JitterBuffer ℕ
unfolding construct
empty = construct whole 40

-- A buffer whose playhead is at packet 4294967295, just before the wrap.
abbrev playing : JitterBuffer ℕ
playing = record empty { config = mono; next_play_seq = 4294967295; has_first_packet = true }

playing-IsValid : IsValid playing
unfolding empty
playing-IsValid = record {
  slot_ok = λ i h e. absurd (cc);
  next_word = omega arith;
  channels_word = omega arith;
  partial = inl refl;
  nothing_yet = λ e i. refl;
}

-- Packet 0 is the second of the window.
push_packet-Kept_example : Kept (push_packet whole playing 0 5 (some (1 ∷ 2 ∷ [])) 2 7 8)
unfolding empty
push_packet-Kept_example =
    push_packet-Kept whole playing 0 5 2 7 8 (1 ∷ 2 ∷ []) playing-IsValid (omega arith)
      (omega arith) (omega arith)

push_packet-Branches_example :
    Branches playing 0
      (sub32 0 4294967295)
      (stored 0 5 (take 2 (1 ∷ 2 ∷ [])) 2)
      (push_packet whole playing 0 5 (some (1 ∷ 2 ∷ [])) 2 7 8)
unfolding empty
push_packet-Branches_example =
    push_packet-Branches whole playing 0 5 2 7 8 (1 ∷ 2 ∷ []) playing-IsValid refl (omega arith)
      (omega arith) (omega arith) (omega arith)

pop_frames-Delivered_example : Delivered 3 1 (pop_frames 257 playing 3 9)
unfolding empty
pop_frames-Delivered_example =
    pop_frames-Delivered playing 3 9 playing-IsValid (omega arith) (omega arith) (omega arith)
