-- ===== src/Termux/Sizes.antt =====
-- The header that `open_next_segment_locked` of src/client/termux_api_player.cpp writes, and the size of the
-- file.
use audio_router.Prelude.{ℕ, ◌+◌, ◌/◌, ◌^◌, ◌<◌, ◌≤◌, ◌≡◌, refl, arith, List, some}
use audio_router.Prelude.Word.{add64, mul64, u32}
use audio_router.Config.{AudioConfig}
use audio_router.Termux.Segment.{is_float, file_frame_bytes}
use audio_router.Termux.Wav.{
  build_wav_header, WavInfo, read_wav, info_of, read_wav-build_wav_header,
}

-- `open_next_segment_locked`: the frames and the data bytes of a file, and the header that it writes.
abbrev pub total_frames : AudioConfig → ℕ → ℕ
total_frames c segment_ms = mul64 segment_ms c.sample_rate / 1000

abbrev pub data_bytes : AudioConfig → ℕ → ℕ
data_bytes c segment_ms = mul64 (total_frames c segment_ms) (file_frame_bytes c)

unfoldable pub segment_header : AudioConfig → ℕ → List ℕ
segment_header c segment_ms =
    build_wav_header c.sample_rate c.channels (is_float c.format)
      (u32 (add64 36 (data_bytes c segment_ms))) (u32 (data_bytes c segment_ms))

-- `header.size() + data_bytes`, the size that `ftruncate` gives the file.
unfoldable pub file_size : AudioConfig → ℕ → ℕ
file_size c segment_ms = add64 44 (data_bytes c segment_ms)

-- What a reader should find about a file.
abbrev pub DescribesFile : AudioConfig → ℕ → WavInfo → Type 0
DescribesFile c segment_ms info =
    (44 + info.data_size ≡ file_size c segment_ms)
    × (8 + info.riff_size ≡ file_size c segment_ms)
    × (info.sample_rate ≡ c.sample_rate)
    × (info.channels ≡ c.channels)

-- Where the file is shorter than 4 GiB, a reader of its header finds the rate, the channels, and the sizes
-- of the file: the data is all that follows the header, and the chunk all that follows its first 8 bytes.
pub segment_header-DescribesFile :
    (c : AudioConfig) (segment_ms : ℕ)
    → c.sample_rate < 2 ^ 32
    → c.channels < 2 ^ 16
    → file_size c segment_ms < 2 ^ 32
    → 36 + data_bytes c segment_ms < 2 ^ 32
    → (info : WavInfo) × (read_wav (segment_header c segment_ms) ≡ some info)
      × DescribesFile c segment_ms info
unfolding segment_header file_size
segment_header-DescribesFile c segment_ms a b d e =
    let n = data_bytes c segment_ms in
    (
      info_of c.sample_rate c.channels (is_float c.format) (u32 (add64 36 n)) (u32 n),
      read_wav-build_wav_header c.sample_rate c.channels (is_float c.format) (u32 (add64 36 n))
          (u32 n) a b (omega arith) (omega arith),
      (omega arith, omega arith, refl, refl),
    )

-- Where the data takes 4 GiB or more, a reader of the header finds at least 4 GiB less than the file has.
pub segment_header-TooLong :
    (c : AudioConfig) (segment_ms : ℕ)
    → c.sample_rate < 2 ^ 32
    → c.channels < 2 ^ 16
    → 2 ^ 32 ≤ data_bytes c segment_ms
    → data_bytes c segment_ms < 2 ^ 63
    → (info : WavInfo) × (read_wav (segment_header c segment_ms) ≡ some info)
      × (44 + info.data_size + 2 ^ 32 ≤ file_size c segment_ms)
unfolding segment_header file_size
segment_header-TooLong c segment_ms a b d e =
    let n = data_bytes c segment_ms in
    (
      info_of c.sample_rate c.channels (is_float c.format) (u32 (add64 36 n)) (u32 n),
      read_wav-build_wav_header c.sample_rate c.channels (is_float c.format) (u32 (add64 36 n))
          (u32 n) a b (omega arith) (omega arith),
      omega arith,
    )
