-- ===== src/Client/Discovery.antt =====
-- `discover_server` of src/client/client.cpp: three rounds of probes, and what their answers decide.
use audio_router.Prelude.{
  ℕ, zero, suc, ◌+◌, Bool, false, ◌&&◌, List, [], ◌∷◌, Option, none, some, ltb, ◌==◌, if◌then◌else◌,
  length,
}
use audio_router.Prelude.Text.{chars}
use audio_router.Protocol.{is_valid_header, to_uint8, discovery_resp}
use audio_router.Protocol.Wire.{header_of_bytes}
use audio_router.Server.{SocketAddress}

-- `probe_ips`
abbrev pub probe_ips : List (List ℕ)
probe_ips =
    chars "255.255.255.255"
    ∷ chars "192.168.43.1"
    ∷ chars "192.168.137.1"
    ∷ chars "192.168.1.1"
    ∷ chars "192.168.0.1"
    ∷ chars "127.0.0.1"
    ∷ []

-- The test of one answer: 62 bytes hold the header and a `DiscoveryRespPayload`.
unfoldable pub is_discovery_answer : List ℕ → Bool
is_discovery_answer buf =
    let hdr = header_of_bytes buf in
    if ltb (length buf) 62
    then false
    else is_valid_header hdr (length buf) && hdr.msg_type == to_uint8 discovery_resp

-- What an attempt receives; no bytes where `receive_from` timed out.
abbrev pub Answer : Type 0
Answer = List ℕ × SocketAddress

-- The attempts that are left: how many probes they send, and the responder they find.
unfoldable pub probe_rounds : ℕ → (ℕ → Answer) → ℕ × Option SocketAddress
probe_rounds zero answers = (0, none)
probe_rounds (suc n) answers =
    let rest = probe_rounds n (λ k. answers (suc k)) in
    if is_discovery_answer ((answers 0).0)
    then (length probe_ips, some ((answers 0).1))
    else (length probe_ips + rest.0, rest.1)

unfoldable pub discover_server : (ℕ → Answer) → ℕ × Option SocketAddress
discover_server answers = probe_rounds 3 answers
