-- ===== src/Agm/Header.antt =====
-- `AgmFifoPlayer::write_wav_header` of src/client/agm_fifo_player.cpp: the header that agmplay reads in
-- front of the sound.
use audio_router.Prelude.{
  ℕ, zero, suc, ◌*◌, ◌^◌, ◌<◌, ◌≡◌, refl, arith, Bool, true, false, ◌∙◌, List, [], ◌∷◌, ◌++◌, some,
  ap,
}
use audio_router.Prelude.Word.{u32}
use audio_router.Protocol.Wire.{le_bytes}
use audio_router.Termux.Wav.{build_wav_header, read_wav, info_of, read_wav-build_wav_header}

-- The fields of `WavHeader`, one behind the other.
unfoldable pub wav_header : (sample_rate : ℕ) → List ℕ
wav_header sample_rate =
    le_bytes 4 1179011410
    ++ le_bytes 4 4294967295
    ++ le_bytes 4 1163280727
    ++ le_bytes 4 544501094
    ++ le_bytes 4 16
    ++ le_bytes 2 1
    ++ le_bytes 2 1
    ++ le_bytes 4 sample_rate
    ++ le_bytes 4 (u32 (sample_rate * 2))
    ++ le_bytes 2 2
    ++ le_bytes 2 16
    ++ le_bytes 4 1635017060
    ++ le_bytes 4 4294967295

-- What `write` of the header answers: all of it, no room, or less than that; and a poll of the pipe.
pub data Written : Type 0 where
  all no_room short : Written

pub data Poll : Type 0 where
  writable silent broken : Poll

-- The retries behind a full pipe: 40 polls at most.
unfoldable pub retry : (attempts : ℕ) → List (Poll × Written) → Bool
retry zero polls = false
retry (suc n) [] = false
retry (suc n) ((silent, w) ∷ polls) = retry n polls
retry (suc n) ((broken, w) ∷ polls) = false
retry (suc n) ((writable, all) ∷ polls) = true
retry (suc n) ((writable, no_room) ∷ polls) = retry n polls
retry (suc n) ((writable, short) ∷ polls) = false

-- Whether the pipe has got the header; the caller does not learn it.
unfoldable pub write_wav_header : Written → List (Poll × Written) → Bool
unfolding retry
write_wav_header all polls = true
write_wav_header no_room polls = retry 40 polls
write_wav_header short polls = false

-- The two players write the same header for one channel of 16-bit sound of unknown length.
pub wav_header-build_wav_header :
    (sample_rate : ℕ)
    → wav_header sample_rate ≡ build_wav_header sample_rate 1 false 4294967295 4294967295
unfolding wav_header build_wav_header
wav_header-build_wav_header sample_rate = refl

-- What agmplay reads from the header: 16-bit samples of one channel at the rate, of unknown length.
pub read_wav-wav_header :
    (sample_rate : ℕ)
    → sample_rate < 2 ^ 32
    → read_wav (wav_header sample_rate) ≡ some (info_of sample_rate 1 false 4294967295 4294967295)
read_wav-wav_header sample_rate l =
    ap read_wav (wav_header-build_wav_header sample_rate)
    ∙ read_wav-build_wav_header sample_rate 1 false 4294967295 4294967295 l (omega arith)
        (omega arith) (omega arith)
