-- ===== src/Termux/Wav.antt =====
-- `build_wav_header` of src/client/termux_api_player.cpp, against a reader of WAV headers.
use audio_router.Prelude.{
  ℕ, zero, suc, ◌*◌, ◌%◌, ◌^◌, ◌<◌, ◌≡◌, refl, ap, ◌∙◌, arith, Bool, true, false, ◌&&◌, List, [],
  ◌∷◌, Option, none, some, take, drop, replicate, ◌==◌, if◌then◌else◌,
}
use audio_router.Prelude.Text.{chars, same_text}
use audio_router.Prelude.Word.{u16, u32}
use audio_router.Protocol.Wire.{
  le_bytes, le_value, field_at, le_value-le_bytes_2, le_value-le_bytes_4,
}

-- Bytes written over a buffer at an offset inside it.
abbrev pub overwrite : List ℕ → List ℕ → List ℕ
overwrite [] buf = buf
overwrite (b ∷ bs) [] = []
overwrite (b ∷ bs) (_ ∷ buf) = b ∷ overwrite bs buf

abbrev pub put : ℕ → List ℕ → List ℕ → List ℕ
put zero bs buf = overwrite bs buf
put (suc off) bs [] = []
put (suc off) bs (b ∷ buf) = b ∷ put off bs buf

unfoldable pub build_wav_header :
    (sample_rate channels : ℕ) → (float_format : Bool) → (riff_sz data_sz : ℕ) → List ℕ
build_wav_header sample_rate channels float_format riff_sz data_sz =
    let bytes_per_sample : ℕ = if float_format then 4 else 2 in
    let block_align = u32 (channels * bytes_per_sample) in
    let tag : ℕ = if float_format then 3 else 1 in
    let bits : ℕ = if float_format then 32 else 16 in
    put 40 (le_bytes 4 data_sz) (
      put 36 (chars "data") (
        put 34 (le_bytes 2 bits) (
          put 32 (le_bytes 2 (u16 block_align)) (
            put 28 (le_bytes 4 (u32 (sample_rate * block_align))) (
              put 24 (le_bytes 4 sample_rate) (
                put 22 (le_bytes 2 channels) (
                  put 20 (le_bytes 2 tag) (
                    put 16 (le_bytes 4 16) (
                      put 12 (chars "fmt ") (
                        put 8 (chars "WAVE") (
                          put 4 (le_bytes 4 riff_sz)
                            (put 0 (chars "RIFF") (replicate 44 0)))))))))))))

-- What a header of 44 bytes says.
pub record WavInfo : Type 0 where
  pub riff_size : ℕ
  pub format_tag : ℕ
  pub channels : ℕ
  pub sample_rate : ℕ
  pub byte_rate : ℕ
  pub block_align : ℕ
  pub bits_per_sample : ℕ
  pub data_size : ℕ

abbrev text_at : ℕ → List ℕ → List ℕ
text_at off buf = take 4 (drop off buf)

-- A reader: the four chunk names and the size of the format chunk, and then the fields.
unfoldable pub read_wav : List ℕ → Option WavInfo
read_wav buf =
    if same_text (text_at 0 buf) (chars "RIFF")
      && (same_text (text_at 8 buf) (chars "WAVE")
          && (same_text (text_at 12 buf) (chars "fmt ")
              && (field_at 16 4 buf == 16 && same_text (text_at 36 buf) (chars "data"))))
    then some record {
      riff_size = field_at 4 4 buf;
      format_tag = field_at 20 2 buf;
      channels = field_at 22 2 buf;
      sample_rate = field_at 24 4 buf;
      byte_rate = field_at 28 4 buf;
      block_align = field_at 32 2 buf;
      bits_per_sample = field_at 34 2 buf;
      data_size = field_at 40 4 buf;
    }
    else none

-- What the header is meant to say: 32-bit floats are tag 3, 16-bit samples tag 1.
abbrev pub info_of : (sample_rate channels : ℕ) → Bool → (riff_sz data_sz : ℕ) → WavInfo
info_of sample_rate channels float_format riff_sz data_sz =
    let sample : ℕ = if float_format then 4 else 2 in
    record {
      riff_size = riff_sz;
      format_tag = if float_format then 3 else 1;
      channels = channels;
      sample_rate = sample_rate;
      byte_rate = sample_rate * (channels * sample) % 2 ^ 32;
      block_align = channels * sample % 2 ^ 16;
      bits_per_sample = 8 * sample;
      data_size = data_sz;
    }

-- The fields, each as its bytes are read back.
fields_read :
    (sample_rate channels : ℕ) (float_format : Bool) (riff_sz data_sz : ℕ)
    → let align = u32 (channels * (if float_format then 4 else 2)) in
      read_wav (build_wav_header sample_rate channels float_format riff_sz data_sz)
      ≡ some record {
        riff_size = le_value (le_bytes 4 riff_sz);
        format_tag = le_value (le_bytes 2 (if float_format then 3 else 1));
        channels = le_value (le_bytes 2 channels);
        sample_rate = le_value (le_bytes 4 sample_rate);
        byte_rate = le_value (le_bytes 4 (u32 (sample_rate * align)));
        block_align = le_value (le_bytes 2 (u16 align));
        bits_per_sample = le_value (le_bytes 2 (if float_format then 32 else 16));
        data_size = le_value (le_bytes 4 data_sz);
      }
unfolding read_wav build_wav_header same_text
fields_read sample_rate channels float_format riff_sz data_sz = refl

fields_back :
    (rate channels sample tag bits riff size : ℕ)
    → rate < 2 ^ 32
    → channels < 2 ^ 16
    → riff < 2 ^ 32
    → size < 2 ^ 32
    → channels * sample < 2 ^ 32
    → tag < 2 ^ 16
    → bits < 2 ^ 16
    → let align = u32 (channels * sample) in
      ◌≡◌ {A = WavInfo}
        record {
          riff_size = le_value (le_bytes 4 riff);
          format_tag = le_value (le_bytes 2 tag);
          channels = le_value (le_bytes 2 channels);
          sample_rate = le_value (le_bytes 4 rate);
          byte_rate = le_value (le_bytes 4 (u32 (rate * align)));
          block_align = le_value (le_bytes 2 (u16 align));
          bits_per_sample = le_value (le_bytes 2 bits);
          data_size = le_value (le_bytes 4 size);
        }
        record {
          riff_size = riff;
          format_tag = tag;
          channels = channels;
          sample_rate = rate;
          byte_rate = u32 (rate * (channels * sample));
          block_align = u16 (channels * sample);
          bits_per_sample = bits;
          data_size = size;
        }
fields_back rate channels sample tag bits riff size a b c d e f g =
    let align : u32 (channels * sample) ≡ channels * sample = omega arith in
    rw
      (
        align,
        le_value-le_bytes_4 riff c,
        le_value-le_bytes_2 tag f,
        le_value-le_bytes_2 channels b,
        le_value-le_bytes_4 rate a,
        le_value-le_bytes_4 (u32 (rate * (channels * sample))) (omega arith),
        le_value-le_bytes_2 (u16 (channels * sample)) (omega arith),
        le_value-le_bytes_2 bits g,
        le_value-le_bytes_4 size d,
      )
      refl

-- A reader finds in the header just what it is built from: the sizes, the rate and the channels as they
-- are, and the sample format's tag and widths.
pub read_wav-build_wav_header :
    (sample_rate channels : ℕ) (float_format : Bool) (riff_sz data_sz : ℕ)
    → sample_rate < 2 ^ 32
    → channels < 2 ^ 16
    → riff_sz < 2 ^ 32
    → data_sz < 2 ^ 32
    → read_wav (build_wav_header sample_rate channels float_format riff_sz data_sz)
      ≡ some (info_of sample_rate channels float_format riff_sz data_sz)
read_wav-build_wav_header rate channels float riff size a b c d =
    fields_read rate channels float riff size ∙ ap some (by_format float)
  where
    by_format :
        (float : Bool)
        → let align = u32 (channels * (if float then 4 else 2)) in
          ◌≡◌ {A = WavInfo}
            record {
              riff_size = le_value (le_bytes 4 riff);
              format_tag = le_value (le_bytes 2 (if float then 3 else 1));
              channels = le_value (le_bytes 2 channels);
              sample_rate = le_value (le_bytes 4 rate);
              byte_rate = le_value (le_bytes 4 (u32 (rate * align)));
              block_align = le_value (le_bytes 2 (u16 align));
              bits_per_sample = le_value (le_bytes 2 (if float then 32 else 16));
              data_size = le_value (le_bytes 4 size);
            }
            (info_of rate channels float riff size)
    by_format true =
        fields_back rate channels 4 3 32 riff size a b c d (omega arith) (omega arith) (omega arith)
    by_format false =
        fields_back rate channels 2 1 16 riff size a b c d (omega arith) (omega arith) (omega arith)
