-- ===== src/Coordinator.antt =====
-- src/coordinator.rs: requests, responses and completion tokens.
pub mod Cache
pub mod Admit
pub mod Lookup
pub mod Insert
pub mod Outcome
pub mod Begin
pub mod Answers
pub mod Replay
pub mod Found
pub mod Tokens
pub mod Meanwhile
pub mod Retry
mod Tests
use rp2350_keymouse_bridge_f.Common.{
  ℕ, ◌+◌, ◌*◌, ◌%◌, bit_xor, Option, none, some, List, [], ◌∷◌, ◌++◌, foldl, Bool, true, false,
  ◌&&◌, ◌==◌, if◌then◌else◌, Result, ok, err, ◌>>=◌, map_ok, map_err, length, u16_mod, u64_mod,
  to_be_bytes, is_some,
}
use rp2350_keymouse_bridge_f.Common.Heapless.{Heapless}
use rp2350_keymouse_bridge_f.Protocol.{CommandType, as_byte, Frame, RequestKind, max_payload_size}
use rp2350_keymouse_bridge_f.Protocol.Request.{validate_request}
use rp2350_keymouse_bridge_f.Commands.{CommandError, decode_command}
use rp2350_keymouse_bridge_f.Commands.Owned.{OwnedCommand, from_frame}
use rp2350_keymouse_bridge_f.Errors.{
  ErrorCode, frame_too_long, error_byte, error_from_byte, from_request,
}

abbrev pub response_cache_size : ℕ
response_cache_size = 64

pub data BusyReason : Type 0 where
  active_duplicate batch_executing executor_occupied : BusyReason

unfoldable pub busy_byte : BusyReason → ℕ
busy_byte active_duplicate = 1
busy_byte batch_executing = 2
busy_byte executor_occupied = 3

pub record CachedResponse : Type 0 where
  pub version : ℕ
  pub sequence : ℕ
  pub command_type : CommandType
  pub payload : List ℕ
  pub runtime_session : ℕ

unfoldable pub ack : ℕ → ℕ → CachedResponse
ack version sequence = record {
  version = version;
  sequence = sequence;
  command_type = CommandType.ack;
  payload = [];
  runtime_session = 0;
}

-- An ignored `Result` of `push`: a full vector keeps what it has.
abbrev pub kept : {A : Type 0} → List A → Option (List A) → List A
kept old none = old
kept old (some longer) = longer

abbrev pub max_response_payload : ℕ
max_response_payload = 16

module _ (v : Heapless) where
  unfoldable pub nack : ℕ → ℕ → ErrorCode → CachedResponse
  nack version sequence error = record {
    version = version;
    sequence = sequence;
    command_type = CommandType.nack;
    payload = kept [] (v.push ℕ max_response_payload [] (error_byte error));
    runtime_session = 0;
  }

  unfoldable pub busy : ℕ → ℕ → BusyReason → ℕ → CachedResponse
  busy version sequence reason retry_ms = record {
    version = version;
    sequence = sequence;
    command_type = CommandType.busy;
    payload =
        kept []
          (v.extend_from_slice ℕ max_response_payload [] (busy_byte reason ∷ to_be_bytes retry_ms));
    runtime_session = 0;
  }

-- `CachedResponse::with_runtime_session`
unfoldable pub response_in_session : CachedResponse → ℕ → CachedResponse
response_in_session r session = record r { runtime_session = session }

pub data ExpectedFinalResponse : Type 0 where
  expect_ack expect_status : ExpectedFinalResponse

pub record CompletionToken : Type 0 where
  pub session_generation : ℕ
  pub admission_id : ℕ
  pub version : ℕ
  pub sequence : ℕ
  pub fingerprint : ℕ
  pub expected_response : ExpectedFinalResponse

unfoldable pub same_expected : ExpectedFinalResponse → ExpectedFinalResponse → Bool
same_expected expect_ack expect_ack = true
same_expected expect_status expect_status = true
same_expected expect_ack expect_status = false
same_expected expect_status expect_ack = false

-- The derived `PartialEq` of `CompletionToken`.
unfoldable pub same_token : CompletionToken → CompletionToken → Bool
unfolding same_expected
same_token a b =
    (a.session_generation == b.session_generation)
    && ((a.admission_id == b.admission_id)
        && ((a.version == b.version)
            && ((a.sequence == b.sequence)
                && ((a.fingerprint == b.fingerprint)
                    && same_expected a.expected_response b.expected_response))))

-- `CompletionToken::ack`
unfoldable pub token_ack : CompletionToken → CachedResponse
unfolding ack
token_ack t = ack t.version t.sequence

pub data OwnedRequestBody : Type 0 where
  raw : List ℕ → OwnedRequestBody
  command : OwnedCommand → OwnedRequestBody
  batch_begin batch_end : OwnedRequestBody

pub record OwnedRequest : Type 0 where
  pub version : ℕ
  pub flags : ℕ
  pub sequence : ℕ
  pub command_type : CommandType
  pub fingerprint : ℕ
  pub request_kind : RequestKind
  pub completion_token : Option CompletionToken
  pub body : OwnedRequestBody
  pub runtime_session : ℕ

-- The fold of `fingerprint` over one byte: FNV-1a on 64 bits.
unfoldable pub fingerprint_step : ℕ → ℕ → ℕ
fingerprint_step hash byte = bit_xor hash byte * 0x100000001b3 % u64_mod

unfoldable pub fingerprint : Frame → ℕ
fingerprint frame = foldl fingerprint_step 0xcbf29ce484222325 (
    (frame.version ∷ frame.flags ∷ as_byte frame.command_type ∷ [])
    ++ (to_be_bytes (length frame.payload % u16_mod) ++ frame.payload))

module _ (v : Heapless) where
  -- `OwnedRequest::from_frame`
  unfoldable pub request_from_frame : Frame → Result ErrorCode OwnedRequest
  request_from_frame frame = do
    request_kind ← map_err from_request (validate_request frame)
    elim (v.extend_from_slice ℕ max_payload_size [] frame.payload) [
      | none ↦ err frame_too_long
      | some payload ↦ ok (record {
        version = frame.version;
        flags = frame.flags;
        sequence = frame.sequence;
        command_type = frame.command_type;
        fingerprint = fingerprint frame;
        request_kind = request_kind;
        completion_token = none;
        body = raw payload;
        runtime_session = 0;
      })
    ]

  -- The `match` of `own_request_body`.
  unfoldable pub own_body : CommandType → Frame → Result CommandError OwnedRequestBody
  own_body CommandType.batch_begin frame = decode_command frame >>= λ c. ok batch_begin
  own_body CommandType.batch_end frame = decode_command frame >>= λ c. ok batch_end
  own_body other frame = map_ok command (from_frame v frame)

  unfoldable pub own_request_body : Frame → Result CommandError OwnedRequestBody
  own_request_body frame = own_body frame.command_type frame

unfoldable pub expected_final_response : CommandType → ExpectedFinalResponse
expected_final_response CommandType.get_info = expect_status
expected_final_response CommandType.get_caps = expect_status
expected_final_response other = expect_ack

-- The `match` of `is_final_response`.
unfoldable pub is_final : CommandType → List ℕ → ExpectedFinalResponse → Bool
unfolding same_expected
is_final CommandType.ack [] expected = same_expected expected expect_ack
is_final CommandType.nack (byte ∷ []) expected = is_some (error_from_byte byte)
is_final CommandType.status payload expected = same_expected expected expect_status
is_final other payload expected = false

unfoldable pub is_final_response : CachedResponse → ExpectedFinalResponse → Bool
unfolding is_final
is_final_response r expected = is_final r.command_type r.payload expected

pub data Admission : Type 0 where
  execute collect bypass no_response stop : OwnedRequest → Admission
  replay immediate : CachedResponse → Admission
  busy_with : BusyReason → Admission
  reject : ErrorCode → Admission

pub data CompletionError : Type 0 where
  stale_completion response_sequence_mismatch response_version_mismatch non_final_response :
      CompletionError

pub data RequestClass : Type 0 where
  class_batch_begin class_batch_end class_stop_all class_bypass class_mutating : RequestClass

-- `none` is the `unreachable!` of a raw body.
unfoldable pub classify_request : OwnedRequestBody → Option RequestClass
classify_request (raw payload) = none
classify_request batch_begin = some class_batch_begin
classify_request batch_end = some class_batch_end
classify_request (command OwnedCommand.stop_all) = some class_stop_all
classify_request (command OwnedCommand.ping) = some class_bypass
classify_request (command OwnedCommand.get_info) = some class_bypass
classify_request (command OwnedCommand.get_caps) = some class_bypass
classify_request (command OwnedCommand.heartbeat) = some class_bypass
classify_request (command other) = some class_mutating

pub data SafetyEvent : Type 0 where
  dtr_lost lease_expired usb_disabled : SafetyEvent
