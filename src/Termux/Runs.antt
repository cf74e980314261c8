-- ===== src/Termux/Runs.antt =====
-- Tests of src/client/termux_api_player.cpp on short files.
use audio_router.Prelude.{ℕ, ◌≡◌, refl, arith, true, false, List, [], ◌∷◌, none, some}
use audio_router.Config.{AudioConfig, pcm_s16le, bytes_per_frame, bytes_per_sample}
use audio_router.Termux.Segment.{
  Recorder, Call, opens, wrote, Event, write_call, take_job, handed, is_float, file_frame_bytes,
  step, write_frames, record_frames, open_next_segment, write_all, issue, finalize_segment,
  segment_ready, rotate,
}
use audio_router.Termux.Issuer.{
  Issuer, Outcome, slot, issuer_round, issue_pending, issue_job, on_delivered,
}
use audio_router.Termux.Handed.{Fresh, handed-Fresh}
use audio_router.Termux.Wav.{WavInfo, read_wav}
use audio_router.Termux.Sizes.{
  segment_header, file_size, DescribesFile, segment_header-DescribesFile,
}

abbrev mono : AudioConfig
mono = record { sample_rate = 1000; channels = 1; format = pcm_s16le; frames_per_packet = 100 }

abbrev recorder : Recorder
recorder = record {
  is_open = true;
  config = mono;
  segment_ms = 2000;
  has_file = false;
  seg_index = 0;
  seg_start_wall_ms = 0;
  seg_frames = 0;
  seg_total_frames = 0;
  seg_issued = false;
  drops = 0;
  pending = none;
}

-- A call that stores 700 frames, 700 ms after its file was opened.
abbrev call : Call
call = record {
  has_pcm = true;
  num_frames = 700;
  opening = opens;
  open_ms = 100;
  results = wrote 1400 ∷ [];
  discard_ms = 0;
  ready_ms = 800;
  next_opening = opens;
  next_ms = 900;
}

abbrev events : List Event
events = write_call call ∷ take_job ∷ write_call call ∷ write_call call ∷ []

handed_once : handed recorder events ≡ record { frames = 700; seg_index = 1 } ∷ []
unfolding handed step write_frames record_frames open_next_segment write_all issue finalize_segment
    segment_ready rotate file_frame_bytes is_float bytes_per_frame bytes_per_sample
handed_once = refl

handed-Fresh_example : Fresh 1000 0 (handed recorder events)
handed-Fresh_example = handed-Fresh recorder events refl (omega arith)

segment_header-DescribesFile_example :
    (info : WavInfo) × (read_wav (segment_header mono 2000) ≡ some info)
    × DescribesFile mono 2000 info
unfolding file_size file_frame_bytes is_float bytes_per_frame bytes_per_sample
segment_header-DescribesFile_example =
    segment_header-DescribesFile mono 2000 (omega arith) (omega arith) (omega arith) (omega arith)

-- The app confirms the seventh file while the eighth is recorded; the fifth was confirmed before.
abbrev issuer : Issuer
issuer = record {
  recorder = record recorder { pending = some record { frames = 700; seg_index = 7 } };
  issued_frames = 700;
  issue_wall_ms = 100;
  result_channel = true;
  consecutive_no_result = 0;
  prev = some 5;
  last_recover_ms = 0;
}

abbrev confirmed : Outcome
confirmed = record { delivered = true; result_received = true }

abbrev recording : ℕ → Recorder
recording seg_index = record recorder { has_file = true; seg_index = seg_index }

-- Four files behind the one confirmed before, the file that is being recorded is emptied.
emptied_in_use : (issuer_round (recording 9) 9000 9000 confirmed issuer).truncated ≡ some 5
unfolding issuer_round issue_pending issue_job on_delivered
emptied_in_use = refl

same_slot : slot 5 ≡ slot 9
same_slot = refl
