-- ===== src/Protocol/Request.antt =====
-- src/protocol.rs: `validate_request`.
use rp2350_keymouse_bridge_f.Common.{
  ◌≡◌, ◌≢◌, ◌⊎◌, ◌↔◌, arith, Bool, true, false, not, ◌&&◌, ◌==◌, if◌then◌else◌, Result, ok, err,
}
use rp2350_keymouse_bridge_f.Protocol.{
  legacy_protocol_version, protocol_version, flag_no_response, CommandType, heartbeat, Frame,
  RequestKind, response_expected, no_response_heartbeat, RequestError, unsupported_version,
  unsupported_flags, invalid_sequence,
}

abbrev pub is_heartbeat : CommandType → Bool
is_heartbeat heartbeat = true
is_heartbeat _ = false

unfoldable pub validate_request : Frame → Result RequestError RequestKind
validate_request frame =
    if frame.version == legacy_protocol_version
    then (if not (frame.flags == 0)
        then err unsupported_flags
        else if frame.sequence == 0
        then err invalid_sequence
        else ok response_expected)
    else if frame.version == protocol_version
    then (if is_heartbeat frame.command_type
          && (frame.flags == flag_no_response && frame.sequence == 0)
        then ok no_response_heartbeat
        else if not (frame.flags == 0)
        then err unsupported_flags
        else if frame.sequence == 0
        then err invalid_sequence
        else ok response_expected)
    else err unsupported_version

-- The requests that a host may send, said without the order of the tests.
abbrev pub SupportedVersion : Frame → Type 0
SupportedVersion f = (f.version ≡ legacy_protocol_version) ⊎ (f.version ≡ protocol_version)

abbrev pub ExpectsResponse : Frame → Type 0
ExpectsResponse f = SupportedVersion f × (f.flags ≡ 0) × (f.sequence ≢ 0)

abbrev pub IsSilentHeartbeat : Frame → Type 0
IsSilentHeartbeat f =
    (f.version ≡ protocol_version)
    × (f.command_type ≡ heartbeat)
    × (f.flags ≡ flag_no_response)
    × (f.sequence ≡ 0)

-- The two accepted classes are exact: a frame passes as a request with a response when its version
-- is 1 or 2, its flags are zero and its sequence is not, and it passes as a silent heartbeat when
-- it is a version 2 heartbeat with the no-response flag alone and sequence zero.
pub validate_request_iff :
    (f : Frame)
    → ((validate_request f ≡ ok response_expected) ↔ ExpectsResponse f)
      × ((validate_request f ≡ ok no_response_heartbeat) ↔ IsSilentHeartbeat f)
unfolding validate_request
validate_request_iff f =
    ((λ h. ground arith, λ h. ground arith), (λ h. ground arith, λ h. ground arith))
