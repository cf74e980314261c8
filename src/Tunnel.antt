-- ===== src/Tunnel.antt =====
-- src/common/usb_tunnel.hpp: datagrams as length-prefixed frames over the USB tunnel's TCP stream.
-- The non-blocking socket is a list of what its calls return, in order: `recv` with the bytes, and
-- `send` with the count accepted; an empty list stands for calls that are never made.
mod Runs
pub mod Frames
pub mod Send
pub mod Relay
pub mod Delivers
use audio_router.Prelude.{
  ℕ, zero, suc, ◌+◌, ◌*◌, ◌/◌, ◌%◌, ◌^◌, Bool, true, false, ◌&&◌, List, [], ◌∷◌, ◌++◌, Option, none,
  some, ltb, leb, ◌==◌, if◌then◌else◌, length, take, drop,
}
use audio_router.Prelude.Word.{add64}
use audio_router.Protocol.Wire.{le_bytes, le_value}

abbrev pub frame_header_size : ℕ
frame_header_size = 4

abbrev pub max_frame_payload : ℕ
max_frame_payload = 65536

-- What one `recv` of the socket does: it returns `n > 0` bytes, 0 (closed), or an error that is
-- EAGAIN or not; after EAGAIN, `wait_readable(20)` answers ready, timeout or error.
pub data Wait : Type 0 where
  ready timeout failed : Wait

-- `bytes b bs` is the byte `b` and those after it.
pub data Recv : Type 0 where
  bytes : ℕ → List ℕ → Recv
  closed : Recv
  would_block : Wait → Recv
  failure : Recv

pub data RecvResult : Type 0 where
  frame : List ℕ → RecvResult
  closed_result timeout_result error_result : RecvResult

-- Trying to take a frame out of the reassembly buffer.
pub data Extract : Type 0 where
  need_more : Extract
  too_long : Extract
  complete : List ℕ → List ℕ → Extract

-- `rx[0] | rx[1] << 8 | rx[2] << 16 | rx[3] << 24`
unfoldable pub extract : List ℕ → Extract
extract rx =
    let len = le_value (take frame_header_size rx) in
    if leb frame_header_size (length rx)
    then (if ltb max_frame_payload len
        then too_long
        else if leb (frame_header_size + len) (length rx)
        then complete (take len (drop frame_header_size rx)) (drop (frame_header_size + len) rx)
        else need_more)
    else need_more

abbrev pub ReadResult : Type 0
ReadResult = Option (RecvResult × List ℕ × List Recv)

-- The part of the loop's body behind the extraction; `again` is the next round.
unfoldable pub on_recv : Recv → (List ℕ → ReadResult) → List ℕ → List Recv → ReadResult
on_recv (bytes b bs) again rx calls = again (rx ++ b ∷ bs)
on_recv closed again rx calls = some (closed_result, rx, calls)
on_recv (would_block ready) again rx calls = again rx
on_recv (would_block timeout) again rx calls = some (timeout_result, rx, calls)
on_recv (would_block failed) again rx calls = some (error_result, rx, calls)
on_recv failure again rx calls = some (error_result, rx, calls)

-- `read_frame`: its result, the reassembly buffer, and the socket calls not made. `none` is a call
-- that still waits when the listed calls are used up.
unfoldable pub read_frame : List Recv → List ℕ → ReadResult
unfolding on_recv
read_frame [] rx = elim (extract rx) [
  | too_long ↦ some (error_result, [], [])
  | complete payload rest ↦ some (frame payload, rest, [])
  | need_more ↦ none
]
read_frame (c ∷ calls) rx =
    let next = on_recv c (read_frame calls) rx calls in
    elim (extract rx) [
      | too_long ↦ some (error_result, [], c ∷ calls)
      | complete payload rest ↦ some (frame payload, rest, c ∷ calls)
      | need_more ↦ next
    ]

-- The four header bytes and the payload that `write_frame` sends.
unfoldable pub frame_bytes : List ℕ → List ℕ
frame_bytes payload = le_bytes 4 (length payload) ++ payload

-- What one `send` does: it accepts some of the bytes on offer, `accept k` at most `k + 1` of them,
-- or none, or fails with EAGAIN, after which `wait_writable(100)` answers, or fails otherwise.
pub data SendCall : Type 0 where
  accept : ℕ → SendCall
  accept_none : SendCall
  not_writable : Bool → SendCall
  broken : SendCall

-- The result, the bytes that the socket accepted, and the socket calls not made.
abbrev pub SendResult : Type 0
SendResult = Option (Bool × List ℕ × List SendCall)

abbrev pub accepted_first : List ℕ → SendResult → SendResult
accepted_first sent none = none
accepted_first sent (some (ok, more, calls)) = some (ok, sent ++ more, calls)

-- The lambda `send_fully`; the list is `p[off..n)`.
unfoldable pub send_fully : List SendCall → List ℕ → SendResult
send_fully calls [] = some (true, [], calls)
send_fully [] (b ∷ bs) = none
send_fully (accept k ∷ calls) (b ∷ bs) =
    accepted_first (b ∷ take k bs) (send_fully calls (drop k bs))
send_fully (accept_none ∷ calls) (b ∷ bs) = some (false, [], calls)
send_fully (not_writable true ∷ calls) (b ∷ bs) = send_fully calls (b ∷ bs)
send_fully (not_writable false ∷ calls) (b ∷ bs) = some (false, [], calls)
send_fully (broken ∷ calls) (b ∷ bs) = some (false, [], calls)

unfoldable pub and_then : List ℕ → SendResult → SendResult
and_then payload none = none
and_then payload (some (false, sent, calls)) = some (false, sent, calls)
and_then payload (some (true, sent, calls)) = accepted_first sent (send_fully calls payload)

unfoldable pub write_frame : List SendCall → List ℕ → SendResult
unfolding and_then
write_frame calls payload =
    if ltb max_frame_payload (length payload)
    then some (false, [], calls)
    else and_then payload (send_fully calls (le_bytes 4 (length payload)))
