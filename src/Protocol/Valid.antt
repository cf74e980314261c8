-- ===== src/Protocol/Valid.antt =====
-- What the validation of a common header accepts (src/common/protocol.hpp).
use Prim.Native.Nat.{bit_and}
use audio_router.Prelude.{
  ℕ, zero, suc, ◌+◌, ◌≤◌, ◌<◌, ◌≡◌, refl, ◌↔◌, Bool, true, false, ltb, ◌==◌, if◌then◌else◌, arith,
  inl, inr, some, Option-cases,
}
use audio_router.Protocol.{
  MsgType, to_uint8, of_uint8, discovery_req, is_valid_msg_type, magic_value, current_version,
  max_udp_packet_size, CommonHeader, has_value, has_unknown_flags, is_valid_header, validate_header,
  make_header,
}

-- `is_valid_header` accepts exactly the headers that `validate_header` accepts.
pub is_valid_header-eq-validate_header :
    (hdr : CommonHeader) (n : ℕ) → is_valid_header hdr n ≡ has_value (validate_header hdr n)
unfolding is_valid_header validate_header
is_valid_header-eq-validate_header hdr n = ground arith

-- Does a test hold at each number under a bound? Evaluated on the 65536 flag words below.
holds_under : (test : ℕ → Bool) → (bound : ℕ) → Bool
holds_under test zero = true
holds_under test (suc k) = if test k then holds_under test k else false

holds_under-at :
    (test : ℕ → Bool) (bound flags : ℕ)
    → flags < bound
    → holds_under test bound ≡ true
    → test flags ≡ true
unfolding holds_under
holds_under-at test zero flags l e = absurd (omega arith)
holds_under-at test (suc k) flags l e = let rest = holds_under-at test k flags in ground arith

abbrev same : Bool → Bool → Bool
same true b = b
same false true = false
same false false = true

mask_is_bound : holds_under (λ x. same (bit_and x 0xfff0 == 0) (ltb x 16)) 65536 ≡ true
unfolding holds_under
mask_is_bound = refl

pub has_unknown_flags_lem :
    (flags : ℕ) → flags < 65536 → (has_unknown_flags flags ≡ false) ↔ (flags < 16)
unfolding has_unknown_flags
has_unknown_flags_lem flags h = ground (arith, holds_under-at _ 65536 flags h mask_is_bound)

-- `is_valid_msg_type` accepts exactly the bytes that the dispatch of a packet can tell apart.
pub of_uint8-is_some :
    (v : ℕ) → is_valid_msg_type v ≡ true → (t : MsgType) × (of_uint8 v ≡ some t) × (v ≡ to_uint8 t)
unfolding is_valid_msg_type of_uint8
of_uint8-is_some v h = elim (Option-cases (of_uint8 v)) [
  | inl e ↦ absurd (ground arith)
  | inr (t, e) ↦ (t, e, ground arith)
]

pub of_uint8-to_uint8 :
    (t : MsgType) → (of_uint8 (to_uint8 t) ≡ some t) × (is_valid_msg_type (to_uint8 t) ≡ true)
unfolding is_valid_msg_type of_uint8
of_uint8-to_uint8 discovery_req = (refl, refl)
of_uint8-to_uint8 _ = (refl, refl)

-- What a header must be, whichever routine tests it.
pub record Acceptable (hdr : CommonHeader) (received_bytes : ℕ) : Type 0 where
  pub type : MsgType
  pub magic : hdr.magic ≡ magic_value
  pub version : hdr.version ≡ current_version
  pub msg_type : hdr.msg_type ≡ to_uint8 type
  pub small : hdr.payload_size ≤ max_udp_packet_size
  pub received : 24 + hdr.payload_size ≤ received_bytes
  pub flags : hdr.flags < 16

Acceptable-of_valid :
    (hdr : CommonHeader) (n : ℕ)
    → hdr.flags < 65536
    → is_valid_header hdr n ≡ true
    → Acceptable hdr n
unfolding is_valid_header
Acceptable-of_valid hdr n f h =
    let known : is_valid_msg_type hdr.msg_type ≡ true = ground arith in
    let (t, _, e) = of_uint8-is_some hdr.msg_type known in
    record {
      type = t;
      magic = ground arith;
      version = ground arith;
      msg_type = e;
      small = ground arith;
      received = ground arith;
      flags = ground (arith, has_unknown_flags_lem hdr.flags f);
    }

valid_of_Acceptable : (hdr : CommonHeader) (n : ℕ) → Acceptable hdr n → is_valid_header hdr n ≡ true
unfolding is_valid_header
valid_of_Acceptable hdr n a = ground (
  arith,
  has_unknown_flags_lem hdr.flags (omega (arith, a.flags)),
  of_uint8-to_uint8 a.type,
  a.magic,
  a.version,
  a.msg_type,
  a.small,
  a.received,
  a.flags,
)

-- A received header passes `is_valid_header` exactly when it is `Acceptable`: the magic and the
-- version are right, the type is one of the enumerators, the payload fits a datagram and the bytes
-- received, and no unknown flag is set.
pub is_valid_header-iff-Acceptable :
    (hdr : CommonHeader) (received_bytes : ℕ)
    → hdr.flags < 65536
    → (is_valid_header hdr received_bytes ≡ true) ↔ Acceptable hdr received_bytes
is_valid_header-iff-Acceptable hdr n f = (Acceptable-of_valid hdr n f, valid_of_Acceptable hdr n)

-- A header from `make_header` with a known flag set and a payload that fits a datagram is valid in
-- a packet that holds that payload, whatever the message type.
pub make_header-Acceptable :
    (type : MsgType) (seq ts_us size flag_bits : ℕ)
    → size ≤ max_udp_packet_size
    → flag_bits < 16
    → is_valid_header (make_header type seq ts_us size flag_bits) (24 + size) ≡ true
unfolding make_header
make_header-Acceptable type seq ts_us size flag_bits s f =
    valid_of_Acceptable (make_header type seq ts_us size flag_bits) (24 + size) (record {
      type = type;
      magic = refl;
      version = refl;
      msg_type = refl;
      small = s;
      received = omega arith;
      flags = f;
    })
