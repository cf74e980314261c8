-- ===== src/Protocol/Wire.antt =====
-- The packed, little-endian bytes of a `CommonHeader`, and the routines that read them out of a
-- received buffer (src/common/protocol.hpp). The source copies the struct with `memcpy`; the hosts
-- that it supports are little-endian.
use audio_router.Prelude.{
  ℕ, zero, suc, ◌+◌, ◌*◌, ◌/◌, ◌%◌, ◌^◌, ◌<◌, ◌≤◌, ◌≡◌, refl, ap, ◌∙◌, arith, List, [], ◌∷◌, ◌++◌,
  length, take, drop, ltb, if◌then◌else◌, true,
}
use audio_router.Prelude.{take-append, length-take, length-drop}
use audio_router.Prelude.Word.{add64}
use audio_router.Protocol.{
  CommonHeader, common_header_size, Expected, value, unexpected, buffer_too_small,
  buffer_smaller_than_payload, validate_header, is_valid_header,
}
use audio_router.Protocol.Valid.{is_valid_header-eq-validate_header}

-- The `n` low bytes of a number, least significant first.
abbrev pub le_bytes : ℕ → ℕ → List ℕ
le_bytes zero x = []
le_bytes (suc n) x = (x % 256) ∷ le_bytes n (x / 256)

abbrev pub le_value : List ℕ → ℕ
le_value [] = 0
le_value (b ∷ bs) = b + 256 * le_value bs

-- The field of `n` bytes at offset `off`.
abbrev pub field_at : ℕ → ℕ → List ℕ → ℕ
field_at off n buf = le_value (take n (drop off buf))

-- The 24 bytes of the packed struct.
unfoldable pub header_bytes : CommonHeader → List ℕ
header_bytes h =
    le_bytes 4 h.magic
    ++ (le_bytes 1 h.version
        ++ (le_bytes 1 h.msg_type
            ++ (le_bytes 2 h.flags
                ++ (le_bytes 4 h.seq_num
                    ++ (le_bytes 8 h.timestamp_us ++ le_bytes 4 h.payload_size)))))

-- `std::memcpy(&hdr, buf.data(), sizeof(CommonHeader))`
unfoldable pub header_of_bytes : List ℕ → CommonHeader
header_of_bytes buf = record {
  magic = field_at 0 4 buf;
  version = field_at 4 1 buf;
  msg_type = field_at 5 1 buf;
  flags = field_at 6 2 buf;
  seq_num = field_at 8 4 buf;
  timestamp_us = field_at 12 8 buf;
  payload_size = field_at 20 4 buf;
}

checked : CommonHeader → Expected (Unit {0}) → Expected CommonHeader
checked hdr (value _) = value hdr
checked hdr (unexpected e) = unexpected e

unfoldable pub parse_header : List ℕ → Expected CommonHeader
unfolding checked
parse_header buf =
    let hdr = header_of_bytes buf in
    if ltb (length buf) common_header_size
    then unexpected buffer_too_small
    else checked hdr (validate_header hdr (length buf))

unfoldable pub payload_span : CommonHeader → List ℕ → Expected (List ℕ)
payload_span hdr buf =
    if ltb (length buf) (add64 common_header_size hdr.payload_size)
    then unexpected buffer_smaller_than_payload
    else value (take hdr.payload_size (drop common_header_size buf))

-- The fields lie within their widths.
pub record Fits (h : CommonHeader) : Type 0 where
  pub magic : h.magic < 2 ^ 32
  pub version : h.version < 2 ^ 8
  pub msg_type : h.msg_type < 2 ^ 8
  pub flags : h.flags < 2 ^ 16
  pub seq_num : h.seq_num < 2 ^ 32
  pub timestamp_us : h.timestamp_us < 2 ^ 64
  pub payload_size : h.payload_size < 2 ^ 32

pub le_value-le_bytes_1 : (x : ℕ) → x < 2 ^ 8 → le_value (le_bytes 1 x) ≡ x
le_value-le_bytes_1 x h = omega arith

pub le_value-le_bytes_2 : (x : ℕ) → x < 2 ^ 16 → le_value (le_bytes 2 x) ≡ x
le_value-le_bytes_2 x h = omega arith

pub le_value-le_bytes_4 : (x : ℕ) → x < 2 ^ 32 → le_value (le_bytes 4 x) ≡ x
le_value-le_bytes_4 x h = omega arith

pub le_value-le_bytes_8 : (x : ℕ) → x < 2 ^ 64 → le_value (le_bytes 8 x) ≡ x
le_value-le_bytes_8 x h = omega arith

pub header_of_bytes-header_bytes :
    (h : CommonHeader) (rest : List ℕ) → Fits h → header_of_bytes (header_bytes h ++ rest) ≡ h
unfolding header_bytes header_of_bytes
header_of_bytes-header_bytes h rest f = ground (
  arith,
  le_value-le_bytes_4 h.magic f.magic,
  le_value-le_bytes_1 h.version f.version,
  le_value-le_bytes_1 h.msg_type f.msg_type,
  le_value-le_bytes_2 h.flags f.flags,
  le_value-le_bytes_4 h.seq_num f.seq_num,
  le_value-le_bytes_8 h.timestamp_us f.timestamp_us,
  le_value-le_bytes_4 h.payload_size f.payload_size,
)

pub length-header_bytes : (h : CommonHeader) → length (header_bytes h) ≡ 24
unfolding header_bytes
length-header_bytes h = refl

pub drop-header_bytes : (h : CommonHeader) (rest : List ℕ) → drop 24 (header_bytes h ++ rest) ≡ rest
unfolding header_bytes
drop-header_bytes h rest = refl

-- What the later reads rely on.
pub is_valid_header_bounds :
    (h : CommonHeader) (n : ℕ)
    → is_valid_header h n ≡ true
    → (24 + h.payload_size ≤ n) × (h.payload_size ≤ 65507)
unfolding is_valid_header
is_valid_header_bounds h n v = (ground arith, ground arith)

parse_header_accepts :
    (buf : List ℕ) (h : CommonHeader)
    → header_of_bytes buf ≡ h
    → is_valid_header h (length buf) ≡ true
    → parse_header buf ≡ value h
unfolding parse_header
parse_header_accepts buf h e v = ground (
  arith,
  is_valid_header-eq-validate_header h (length buf),
  is_valid_header_bounds h (length buf) v,
)

payload_span_lem :
    (buf : List ℕ) (h : CommonHeader)
    → is_valid_header h (length buf) ≡ true
    → payload_span h buf ≡ value (take h.payload_size (drop 24 buf))
unfolding payload_span
payload_span_lem buf h v = ground (arith, is_valid_header_bounds h (length buf) v)

-- The bytes of a valid header, followed by its payload and anything more, parse back to that
-- header, and `payload_span` then returns that payload.
pub parse_header-header_bytes :
    (h : CommonHeader) (payload rest : List ℕ)
    → Fits h
    → length payload ≡ h.payload_size
    → is_valid_header h (length (header_bytes h ++ (payload ++ rest))) ≡ true
    → (parse_header (header_bytes h ++ (payload ++ rest)) ≡ value h)
      × (payload_span h (header_bytes h ++ (payload ++ rest)) ≡ value payload)
parse_header-header_bytes h payload rest f e v =
    let buf = header_bytes h ++ (payload ++ rest) in
    (
      parse_header_accepts buf h (header_of_bytes-header_bytes h (payload ++ rest) f) v,
      payload_span_lem buf h v
          ∙ ap value (rw (drop-header_bytes h (payload ++ rest), ← e) (take-append payload rest)),
    )

-- What `parse_header` accepts it has validated, and `payload_span` then returns exactly
-- `payload_size` bytes of the buffer.
pub payload_span-parse_header :
    (buf : List ℕ) (h : CommonHeader)
    → parse_header buf ≡ value h
    → (is_valid_header h (length buf) ≡ true)
      × ((p : List ℕ) × (payload_span h buf ≡ value p) × (length p ≡ h.payload_size))
unfolding parse_header
payload_span-parse_header buf h e =
    let v : is_valid_header h (length buf) ≡ true =
      ground (arith, is_valid_header-eq-validate_header h (length buf)) in
    (
      v,
      (
        take h.payload_size (drop 24 buf),
        payload_span_lem buf h v,
        omega (
          arith,
          length-take h.payload_size (drop 24 buf),
          length-drop 24 buf,
          is_valid_header_bounds h (length buf) v,
        ),
      ),
    )
