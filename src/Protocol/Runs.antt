-- ===== src/Protocol/Runs.antt =====
-- Tests of src/common/protocol.hpp on concrete headers.
use audio_router.Prelude.{◌≡◌, refl, arith, [], ◌∷◌, ◌++◌}
use audio_router.Protocol.{
  CommonHeader, is_valid_header, is_valid_msg_type, has_unknown_flags, value,
}
use audio_router.Protocol.Wire.{
  header_bytes, parse_header, payload_span, Fits, parse_header-header_bytes,
}

-- A ping of sequence number 258 with two bytes of payload.
abbrev ping : CommonHeader
ping = record {
  magic = 0x41554452;
  version = 1;
  msg_type = 0x40;
  flags = 3;
  seq_num = 258;
  timestamp_us = 5;
  payload_size = 2;
}

ping-Fits : Fits ping
ping-Fits = record {
  magic = omega arith;
  version = omega arith;
  msg_type = omega arith;
  flags = omega arith;
  seq_num = omega arith;
  timestamp_us = omega arith;
  payload_size = omega arith;
}

parse_header-header_bytes_example :
    (parse_header (header_bytes ping ++ ((7 ∷ 8 ∷ []) ++ (9 ∷ []))) ≡ value ping)
    × (payload_span ping (header_bytes ping ++ ((7 ∷ 8 ∷ []) ++ (9 ∷ []))) ≡ value (7 ∷ 8 ∷ []))
unfolding header_bytes is_valid_header is_valid_msg_type has_unknown_flags
parse_header-header_bytes_example =
    parse_header-header_bytes ping (7 ∷ 8 ∷ []) (9 ∷ []) ping-Fits refl refl
