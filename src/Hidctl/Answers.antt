-- ===== src/Hidctl/Answers.antt =====
-- src/response_writer.rs, tools/hidctl/src/client.rs: the client reads what the firmware writes.
use rp2350_keymouse_bridge_f.Common.{
  ℕ, ◌+◌, ◌≤◌, ◌≡◌, refl, sym, arith, some, List, ◌++◌, ok, length, drop, replicate,
  take-append_self, All,
}
use rp2350_keymouse_bridge_f.Protocol.{max_frame_size, max_payload_size, frame_overhead, Frame}
use rp2350_keymouse_bridge_f.Protocol.Codec.{encode_frame}
use rp2350_keymouse_bridge_f.Protocol.Bytes.{
  frame_bytes, encode_frame_with_flags_ok, length-frame_bytes,
}
use rp2350_keymouse_bridge_f.Protocol.RoundTrip.{IsWire}
use rp2350_keymouse_bridge_f.Stream.Reassembly.{stream}
use rp2350_keymouse_bridge_f.Coordinator.{CachedResponse}
use rp2350_keymouse_bridge_f.Runtime.Session.{response_packet}
use rp2350_keymouse_bridge_f.Hidctl.Reader.{try_decode_response}
use rp2350_keymouse_bridge_f.Hidctl.Found.{IsOther, try_decode_response-stream}

-- The frame of a response.
abbrev pub response_frame : CachedResponse → Frame
response_frame r = record {
  version = r.version;
  flags = 0;
  sequence = r.sequence;
  command_type = r.command_type;
  payload = r.payload;
}

encode_response :
    (r : CachedResponse)
    → length r.payload ≤ max_payload_size
    → encode_frame r.version r.sequence r.command_type r.payload (replicate max_frame_size 0) ≡ (
      frame_bytes (response_frame r)
          ++ drop (frame_overhead + length r.payload) (replicate max_frame_size 0),
      ok (frame_overhead + length r.payload),
    )
unfolding encode_frame
encode_response r fits =
    encode_frame_with_flags_ok (response_frame r) (replicate max_frame_size 0) fits (omega arith)

response_packet_lem :
    (r : CachedResponse)
    → length r.payload ≤ max_payload_size
    → response_packet r ≡ some (frame_bytes (response_frame r))
unfolding response_packet
response_packet_lem r fits =
    let f = response_frame r in
    let n = frame_overhead + length r.payload in
    let tail : List ℕ = drop n (replicate max_frame_size 0) in
    rw
      (
        encode_response r fits,
        take-append_self (frame_bytes f) tail n (sym (length-frame_bytes f)),
        response_packet,
      )
      refl

-- From the firmware's response to the host's. A response of the cache whose sequence is a `u16`,
-- whose type has the name of its byte and whose payload is at most 240 bytes is written as a packet, and
-- a client that waits for its sequence reads its type and payload from a buffer that holds the
-- packet behind whole frames of other sequences, takes all of these, and keeps the bytes behind.
pub try_decode_response-response_packet :
    (r : CachedResponse) (others : List Frame) (rest : List ℕ)
    → IsWire (response_frame r)
    → All (IsOther r.sequence) others
    → (packet : List ℕ) × (response_packet r ≡ some packet)
      × (try_decode_response r.sequence (stream others ++ (packet ++ rest))
          ≡ (rest, ok (some (record { command_type = r.command_type; payload = r.payload }))))
try_decode_response-response_packet r others rest w different = (
  frame_bytes (response_frame r),
  response_packet_lem r w.payload_fits,
  try_decode_response-stream r.sequence others (response_frame r) rest different w refl,
)
