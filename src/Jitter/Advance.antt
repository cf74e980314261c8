-- ===== src/Jitter/Advance.antt =====
-- The drain of `pop_frames` ends: what it drops is buffered ahead of the playhead without a gap
-- (src/client/jitter_buffer.cpp).
use audio_router.Prelude.{
  ℕ, zero, suc, ◌+◌, ◌-◌, ◌*◌, ◌%◌, ◌^◌, ◌<◌, ◌≤◌, ◌≡◌, inl, inr, refl, arith, true, false, Option,
  none, some, ltb, ◌==◌, if◌then◌else◌, Bool-cases, Option-cases, if_elim, not-ltb, ◌&&◌,
}
use audio_router.Prelude.Word.{add64, sub64, add32}
use audio_router.Config.{AudioConfig}
use audio_router.Jitter.{JitterBuffer, count_run, available_frames}
use audio_router.Jitter.Inv.{IsValid}
use native.Mathlib.Nat.{add-zero}
use mathlib.Core.Path.{subst}
use audio_router.Jitter.Pop.{
  current, at_packet, leave_slot, advance_round, advance_playhead, drain_amount, drain, drained,
}
use audio_router.Jitter.PopInv.{advance_round-IsValid, current_left, at_packet_lem}

module _ {D : Type 0} where
  -- `count_run` without its accumulator and its wrap-around.
  pub run_frames : JitterBuffer D → ℕ → ℕ → ℕ
  run_frames jb zero i = 0
  run_frames jb (suc rounds) i =
      let s = jb.slots ((jb.next_play_seq + i) % 256) in
      let rest = run_frames jb rounds (i + 1) in
      if s.is_valid && s.seq_num == jb.next_play_seq + i then s.num_frames + rest else 0

  pub count_run-eq :
      (jb : JitterBuffer D) (rounds i total : ℕ)
      → IsValid jb
      → total + rounds * 2 ^ 32 < 2 ^ 64
      → count_run jb rounds i total ≡ total + run_frames jb rounds i
  unfolding count_run run_frames
  count_run-eq jb zero i total v h = omega arith
  count_run-eq jb (suc rounds) i total v h =
      let s = jb.slots ((jb.next_play_seq + i) % 256) in
      let w = v.slot_ok ((jb.next_play_seq + i) % 256) (omega arith) in
      elim (Bool-cases s.is_valid) [
        | inr e ↦ ground arith
        | inl e ↦
            let small = (w e).frames_word in
            let exact : add64 total s.num_frames ≡ total + s.num_frames = omega arith in
            let ih = count_run-eq jb rounds (i + 1) (total + s.num_frames) v (omega arith) in
            rw exact (ground (arith, ih))
      ]

  -- Past the playhead the run stays as it was, unless the sequence number wraps.
  run_frames-leave_slot :
      (jb : JitterBuffer D) (rounds i : ℕ)
      → IsValid jb
      → jb.next_play_seq + 1 < 2 ^ 32
      → i + rounds ≤ 255
      → run_frames (leave_slot jb) rounds i ≡ run_frames jb rounds (i + 1)
  unfolding run_frames leave_slot
  run_frames-leave_slot jb zero i v h b = refl
  run_frames-leave_slot jb (suc rounds) i v h b =
      let q = jb.next_play_seq in
      let e1 : add32 q 1 + i ≡ q + (i + 1) = omega arith in
      let ne : ((q + (i + 1)) % 256 == q % 256) ≡ false = ground arith in
      rw (e1, ne, run_frames-leave_slot jb rounds (i + 1) v h (omega arith))

  -- At the wrap the run ends: no packet has the number 2 ^ 32.
  run_frames_at_wrap :
      (jb : JitterBuffer D) (rounds i : ℕ)
      → IsValid jb
      → 2 ^ 32 ≤ jb.next_play_seq + i
      → run_frames jb rounds i ≡ 0
  unfolding run_frames
  run_frames_at_wrap jb zero i v h = refl
  run_frames_at_wrap jb (suc rounds) i v h =
      let s = jb.slots ((jb.next_play_seq + i) % 256) in
      let w = v.slot_ok ((jb.next_play_seq + i) % 256) (omega arith) in
      elim (Bool-cases s.is_valid) [
        | inr e ↦ ground arith
        | inl e ↦ let small = (w e).seq_word in ground arith
      ]

  run_frames_next :
      (jb : JitterBuffer D) (rounds : ℕ)
      → IsValid jb
      → rounds ≤ 255
      → run_frames jb rounds 1 ≤ run_frames (leave_slot jb) rounds 0
  run_frames_next jb rounds v h = elim (Bool-cases (ltb (jb.next_play_seq + 1) (2 ^ 32))) [
    | inl e ↦ omega (arith, run_frames-leave_slot jb rounds 0 v (ground arith) (omega arith))
    | inr e ↦ omega (arith, run_frames_at_wrap jb rounds 1 v (ground arith))
  ]

  -- The result of an advance that ends.
  abbrev pub AdvancedTo : AudioConfig → Option (JitterBuffer D) → Type 0
  AdvancedTo c none = ⊥
  AdvancedTo c (some jb') = IsValid jb' × (jb'.config ≡ c)

  abbrev pub Advanced : JitterBuffer D → Option (JitterBuffer D) → Type 0
  Advanced jb = AdvancedTo jb.config

  advance_playhead-zero : (fuel : ℕ) (jb : JitterBuffer D) → advance_playhead fuel jb 0 ≡ some jb
  unfolding advance_playhead
  advance_playhead-zero zero jb = refl
  advance_playhead-zero (suc fuel) jb = refl

  run_frames-first :
      (jb : JitterBuffer D) (k : ℕ)
      → run_frames jb (suc k) 0
        ≡ (if at_packet jb then (current jb).num_frames + run_frames jb k 1 else 0)
  unfolding run_frames
  run_frames-first jb k = rw (add-zero jb.next_play_seq)

  -- A round leaves no more to drop than the rest of the run holds.
  advance_round-left :
      (jb : JitterBuffer D) (frames k : ℕ)
      → IsValid jb
      → k ≤ 255
      → 0 < frames
      → frames ≤ run_frames jb (suc k) 0 - jb.slot_frame_offset
      → let r = advance_round jb frames in
        (r.0 ≤ run_frames r.1 k 0 - r.1.slot_frame_offset) × (r.1.config ≡ jb.config)
  unfolding advance_round
  advance_round-left jb frames k v h p f =
      let Left = λ (r : ℕ × JitterBuffer D).
        (r.0 ≤ run_frames r.1 k 0 - r.1.slot_frame_offset) × (r.1.config ≡ jb.config) in
      let remaining = sub64 (current jb).num_frames jb.slot_frame_offset in
      let run = run_frames-first jb k in
      if_elim Left (at_packet jb) _ _
        (λ e.
          let (left, word, _, _) = current_left jb v e in
          let len : run_frames jb (suc k) 0 ≡ (current jb).num_frames + run_frames jb k 1 =
            ground arith in
          if_elim Left (ltb frames remaining) _ _ (λ l. (omega arith, refl))
            (λ l.
              unfold leave_slot in
              (omega (arith, run_frames_next jb k v h, not-ltb frames remaining l), refl)))
        λ e. absurd (ground arith)

  -- With `k` slots of the run ahead, the drop ends within `k + 1` rounds.
  pub advance_playhead-Advanced :
      (k : ℕ) (jb : JitterBuffer D) (frames : ℕ)
      → IsValid jb
      → k ≤ 256
      → frames ≤ run_frames jb k 0 - jb.slot_frame_offset
      → Advanced jb (advance_playhead (suc k) jb frames)
  unfolding advance_playhead run_frames
  advance_playhead-Advanced zero jb frames v h f =
      if_elim (Advanced jb) (frames == 0) (some jb) _ (λ _. (v, refl)) λ z. absurd (ground arith)
  advance_playhead-Advanced (suc k) jb frames v h f =
      let r = advance_round jb frames in
      if_elim (Advanced jb) (frames == 0) (some jb) _ (λ _. (v, refl))
        λ z.
          let (left, same) = advance_round-left jb frames k v (omega arith) (ground arith) f in
          subst (λ g. AdvancedTo g (advance_playhead (suc k) r.1 r.0)) same
            (advance_playhead-Advanced k r.1 r.0 (advance_round-IsValid jb frames v) (omega arith)
              left)

  -- What `available_frames` reports is what the run holds past the offset.
  pub available_frames_lem :
      (jb : JitterBuffer D)
      → IsValid jb
      → available_frames jb ≡ run_frames jb 256 0 - jb.slot_frame_offset
  unfolding available_frames
  available_frames_lem jb v =
      let e = count_run-eq jb 256 0 0 v (omega arith) in
      let run = run_frames-first jb 255 in
      let first : jb.slot_frame_offset ≤ run_frames jb 256 0 =
        elim (Bool-cases (current jb).is_valid) [
          | inl l ↦
              let at : at_packet jb ≡ true = ground (arith, at_packet_lem jb v) in
              ground (arith, current_left jb v at)
          | inr l ↦ ground (arith, v.partial)
        ] in
      rw e (ground arith)

  run_frames-bound :
      (jb : JitterBuffer D) (rounds i : ℕ) → IsValid jb → run_frames jb rounds i ≤ rounds * 2 ^ 32
  unfolding run_frames
  run_frames-bound jb zero i v = omega arith
  run_frames-bound jb (suc rounds) i v =
      let s = jb.slots ((jb.next_play_seq + i) % 256) in
      let w = v.slot_ok ((jb.next_play_seq + i) % 256) (omega arith) in
      let ih = run_frames-bound jb rounds (i + 1) v in
      elim (Bool-cases s.is_valid) [
        | inr e ↦ ground arith
        | inl e ↦ let small = (w e).frames_word in ground arith
      ]

  -- The drain never asks for more than is available.
  drain_amount-le :
      (jb : JitterBuffer D) (now_ms : ℕ) {dropped : ℕ}
      → IsValid jb
      → jb.target_buffer_frames < 2 ^ 63
      → drain_amount jb now_ms ≡ some dropped
      → dropped ≤ available_frames jb
  unfolding drain_amount
  drain_amount-le jb now_ms v b e =
      let small : available_frames jb < 2 ^ 64 =
        omega (arith, available_frames_lem jb v, run_frames-bound jb 256 0 v) in
      ground arith

  -- The drain ends on 257 rounds of fuel, and keeps the invariant and the configuration.
  pub drain-Advanced :
      (jb : JitterBuffer D) (now_ms : ℕ)
      → IsValid jb
      → jb.target_buffer_frames < 2 ^ 63
      → Advanced jb (drain 257 jb now_ms)
  unfolding drain
  drain-Advanced jb now_ms v b = elim (Option-cases (drain_amount jb now_ms)) [
    | inl e ↦ rw e (v, refl)
    | inr (dropped, e) ↦
        let le = drain_amount-le jb now_ms v b e in
        let done =
          advance_playhead-Advanced 256 jb dropped v (omega arith)
            (omega (arith, available_frames_lem jb v)) in
        rw e (drained-Advanced (advance_playhead 257 jb dropped) dropped done)
  ]
    where
      drained-Advanced :
          (o : Option (JitterBuffer D)) (dropped : ℕ)
          → Advanced jb o
          → Advanced jb (drained dropped now_ms o)
      drained-Advanced none dropped a = elim a [ ]
      drained-Advanced (some jb') dropped a = a
