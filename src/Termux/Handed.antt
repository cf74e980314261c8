-- ===== src/Termux/Handed.antt =====
-- The files that the recording of src/client/termux_api_player.cpp hands to the issuer thread.
use audio_router.Prelude.{
  ℕ, ◌+◌, ◌*◌, ◌^◌, ◌<◌, ◌≤◌, ◌≡◌, refl, sym, arith, true, false, not, ◌&&◌, ◌||◌, List, [], ◌∷◌,
  Option, none, some, ltb, leb, ◌==◌, if◌then◌else◌, if_elim, length,
}
use audio_router.Prelude.Word.{add64, mul64}
use audio_router.Config.{bytes_per_frame}
use audio_router.Termux.Segment.{
  PendingSegment, Recorder, Opening, opens, open_fails, size_fails, segment_ready,
  open_next_segment, discard_segment, finalize_segment, write_all, Call, Written, stopped,
  file_frame_bytes, issue, rotate, record_frames, write_frames, flush, restart, Event, write_call,
  flush_call, restart_call, take_job, step, noted, handed, prefill_ms,
}

-- The rate that the recording counts by.
abbrev pub rate_of : ℕ → ℕ
rate_of sample_rate = if ltb 0 sample_rate then sample_rate else 48000

-- At least 600 ms of audio.
abbrev pub HasPrefill : ℕ → PendingSegment → Type 0
HasPrefill sample_rate job = 600 * rate_of sample_rate ≤ job.frames * 1000

-- Each job belongs to a later file than the one before, and holds the prefill.
abbrev pub Fresh : (sample_rate last : ℕ) → List PendingSegment → Type 0
Fresh sample_rate last [] = Unit {0}
Fresh sample_rate last (job ∷ jobs) =
    (last < job.seg_index) × HasPrefill sample_rate job × Fresh sample_rate job.seg_index jobs

-- The last file handed over is not behind the recording, and is another one than the open file that
-- is not handed over.
abbrev IsAhead : ℕ → Recorder → Type 0
IsAhead last r =
    (last ≤ r.seg_index) × (r.has_file ≡ true → r.seg_issued ≡ false → last < r.seg_index)

-- The recorder after a step that began with the last file `last`, at the rate and with at most the index
-- `bound`.
abbrev After : (sample_rate bound last : ℕ) → Recorder → Type 0
After sample_rate bound last r =
    IsAhead last r × (r.config.sample_rate ≡ sample_rate) × (r.seg_index ≤ bound)

abbrev Handed : (sample_rate bound last : ℕ) → Recorder → Option PendingSegment → Type 0
Handed sample_rate bound last r none = After sample_rate bound last r
Handed sample_rate bound last r (some job) =
    (last < job.seg_index) × HasPrefill sample_rate job × After sample_rate bound job.seg_index r

open_next_segment-After :
    (s b last : ℕ) (r : Recorder) (opening : Opening) (now_ms : ℕ)
    → After s b last r
    → b + 1 < 2 ^ 64
    → After s (b + 1) last (open_next_segment r opening now_ms).1
unfolding open_next_segment
open_next_segment-After s b last r opens now_ms ((l, f), c, k) w =
    ((omega arith, λ _ _. omega arith), c, omega arith)
open_next_segment-After s b last r open_fails now_ms ((l, f), c, k) w =
    ((omega arith, λ e _. absurd (cc)), c, omega arith)
open_next_segment-After s b last r size_fails now_ms ((l, f), c, k) w =
    ((omega arith, λ e _. absurd (cc)), c, omega arith)

rotate-After :
    (s b last : ℕ) (r : Recorder) (opening : Opening) (now_ms : ℕ)
    → After s b last r
    → b + 1 < 2 ^ 64
    → After s (b + 1) last (rotate r opening now_ms)
unfolding rotate
rotate-After s b last r opening now_ms ((l, f), c, k) w =
    if_elim (After s (b + 1) last) (ltb 0 r.seg_total_frames && leb r.seg_total_frames r.seg_frames)
      _ _ (λ _. open_next_segment-After s b last r opening now_ms ((l, f), c, k) w)
      λ _. ((l, f), c, omega arith)

discard_segment-After :
    (s b last : ℕ) (r : Recorder) (now_ms : ℕ)
    → After s b last r
    → After s b last (discard_segment r now_ms)
unfolding discard_segment
discard_segment-After s b last r now_ms ((l, f), c, k) = ((l, λ e _. absurd (cc)), c, k)

-- The handover of a file.
abbrev HandedBy : (sample_rate bound last : ℕ) → Recorder × Option PendingSegment → Type 0
HandedBy s b last (r, job) = Handed s b last r job

ready_prefill :
    (frames sample_rate start now : ℕ)
    → segment_ready frames sample_rate start now prefill_ms ≡ true
    → 600 * rate_of sample_rate ≤ frames * 1000
unfolding segment_ready
ready_prefill frames sample_rate start now e = ground arith

issue-Handed :
    (s b last : ℕ) (r : Recorder) (now_ms : ℕ)
    → After s b last r
    → HandedBy s b last (issue r now_ms)
unfolding issue finalize_segment
issue-Handed s b last r now_ms ((l, f), c, k) =
    let ready =
      segment_ready r.seg_frames r.config.sample_rate r.seg_start_wall_ms now_ms prefill_ms in
    if_elim (HandedBy s b last) (not r.seg_issued && ready) _ _
      (λ e.
        if_elim (HandedBy s b last) (not r.has_file || r.seg_issued) _ _ (λ _. ((l, f), c, k))
          λ a. (
            f (ground arith) (ground arith),
            rw (sym c) (
                ready_prefill r.seg_frames r.config.sample_rate r.seg_start_wall_ms now_ms
                  (ground arith)),
            ((omega arith, λ _ u. absurd (cc)), c, k),
          ))
      λ _. ((l, f), c, k)

Handed-wider :
    (s b d last : ℕ) (r : Recorder) (job : Option PendingSegment)
    → b ≤ d
    → Handed s b last r job
    → Handed s d last r job
Handed-wider s b d last r none l (a, c, k) = (a, c, omega arith)
Handed-wider s b d last r (some job) l (u, p, (a, c, k)) = (u, p, (a, c, omega arith))

Handed-rotate :
    (s b last : ℕ) (r : Recorder) (job : Option PendingSegment) (opening : Opening) (now_ms : ℕ)
    → b + 1 < 2 ^ 64
    → Handed s b last r job
    → Handed s (b + 1) last (rotate r opening now_ms) job
Handed-rotate s b last r none opening now_ms w a = rotate-After s b last r opening now_ms a w
Handed-rotate s b last r (some job) opening now_ms w (u, p, a) =
    (u, p, rotate-After s b job.seg_index r opening now_ms a w)

abbrev WrittenBy : (sample_rate bound last : ℕ) → Written → Type 0
WrittenBy s b last w = Handed s b last w.recorder w.handed

WrittenBy-wider :
    (s b d last : ℕ) (w : Written) → b ≤ d → WrittenBy s b last w → WrittenBy s d last w
WrittenBy-wider s b d last w l h = Handed-wider s b d last w.recorder w.handed l h

record_frames-WrittenBy :
    (s b last : ℕ) (r : Recorder) (c : Call)
    → After s b last r
    → b + 1 < 2 ^ 64
    → WrittenBy s (b + 1) last (record_frames r c)
unfolding record_frames
record_frames-WrittenBy s b last r c a w =
    let stored = record r { seg_frames = add64 r.seg_frames c.num_frames } in
    let issued = issue stored c.ready_ms in
    if_elim (WrittenBy s (b + 1) last)
      (not (write_all c.results 0 (mul64 c.num_frames (file_frame_bytes r.config)))) _ _
      (λ _.
        Handed-wider s b (b + 1) last (discard_segment r c.discard_ms) none (omega arith)
          (discard_segment-After s b last r c.discard_ms a))
      λ _.
        Handed-rotate s b last (issued.0) (issued.1) c.next_opening c.next_ms w
          (issue-Handed s b last stored c.ready_ms a)

write_frames-WrittenBy :
    (s b last : ℕ) (r : Recorder) (c : Call)
    → After s b last r
    → b + 2 < 2 ^ 64
    → WrittenBy s (b + 2) last (write_frames r c)
unfolding write_frames
write_frames-WrittenBy s b last r c a w =
    let opened = open_next_segment r c.opening c.open_ms in
    let same : WrittenBy s (b + 2) last (stopped r) =
      Handed-wider s b (b + 2) last r none (omega arith) a in
    let next : After s (b + 1) last (opened.1) =
      open_next_segment-After s b last r c.opening c.open_ms a (omega arith) in
    if_elim (WrittenBy s (b + 2) last) (not c.has_pcm || c.num_frames == 0) _ _ (λ _. same)
      λ _.
        if_elim (WrittenBy s (b + 2) last) (not r.is_open) _ _ (λ _. same)
          λ _.
            if_elim (WrittenBy s (b + 2) last) (bytes_per_frame r.config == 0) _ _ (λ _. same)
              λ _.
                if_elim (WrittenBy s (b + 2) last) r.has_file _ _
                  (λ _.
                    WrittenBy-wider s (b + 1) (b + 2) last (record_frames r c) (omega arith)
                      (record_frames-WrittenBy s b last r c a (omega arith)))
                  λ _.
                    if_elim (WrittenBy s (b + 2) last) (opened.0) _ _
                      (λ _.
                        WrittenBy-wider s (b + 1 + 1) (b + 2) last (record_frames (opened.1) c)
                          (omega arith)
                          (record_frames-WrittenBy s (b + 1) last (opened.1) c next (omega arith)))
                      λ _. Handed-wider s (b + 1) (b + 2) last (opened.1) none (omega arith) next

step-Handed :
    (s b last : ℕ) (r : Recorder) (e : Event)
    → After s b last r
    → b + 2 < 2 ^ 64
    → HandedBy s (b + 2) last (step r e)
unfolding step flush restart
step-Handed s b last r (write_call c) a w = write_frames-WrittenBy s b last r c a w
step-Handed s b last r (flush_call t) a w =
    let wide = Handed-wider s b (b + 2) last r none (omega arith) a in
    if_elim (After s (b + 2) last) (not r.is_open) _ _ (λ _. wide)
      λ _.
        if_elim (λ (q : Recorder). After s (b + 2) last (record q { pending = none }))
          (ltb 0 r.seg_frames) (discard_segment r t) r
          (λ _. discard_segment-After s (b + 2) last r t wide) λ _. wide
step-Handed s b last r (restart_call t) a w =
    let wide = Handed-wider s b (b + 2) last r none (omega arith) a in
    if_elim (After s (b + 2) last) (r.is_open && ltb 0 r.seg_frames) _ _
      (λ _. discard_segment-After s (b + 2) last r t wide) λ _. wide
step-Handed s b last r take_job a w = Handed-wider s b (b + 2) last r none (omega arith) a

handed_from :
    (s b last : ℕ) (r : Recorder) (es : List Event)
    → After s b last r
    → b + 2 * length es < 2 ^ 64
    → Fresh s last (handed r es)
unfolding handed
handed_from s b last r [] a w = tt
handed_from s b last r (e ∷ es) a w =
    by_job ((step r e).1) (step-Handed s b last r e a (omega arith))
      (λ k h. handed_from s (b + 2) k ((step r e).0) es h (omega arith))
  where
    by_job :
        (job : Option PendingSegment)
        → Handed s (b + 2) last ((step r e).0) job
        → ((k : ℕ) → After s (b + 2) k ((step r e).0) → Fresh s k (handed ((step r e).0) es))
        → Fresh s last (noted job (handed ((step r e).0) es))
    by_job none h f = f last h
    by_job (some job) (u, p, h) f = (u, p, f job.seg_index h)

-- Whatever calls, flushes, restarts and takings come, and whatever the file system and the clock answer:
-- the files handed over have rising indices, so that none is handed over twice, and each holds at least
-- 600 ms of audio; from a recorder without an open file, while the index does not wrap.
pub handed-Fresh :
    (r : Recorder) (es : List Event)
    → r.has_file ≡ false
    → r.seg_index + 2 * length es < 2 ^ 64
    → Fresh r.config.sample_rate r.seg_index (handed r es)
handed-Fresh r es h w =
    handed_from r.config.sample_rate r.seg_index r.seg_index r es
      ((omega arith, λ e _. absurd (cc)), refl, omega arith) w
