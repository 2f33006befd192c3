-- ===== src/Hidctl/Client.antt =====
-- tools/hidctl/src/client.rs: the client's state, durations and timeouts.
use rp2350_keymouse_bridge_f.Common.{
  ℕ, suc, ◌+◌, ◌-◌, ◌*◌, ◌/◌, ◌%◌, min, max, Option, none, some, List, [], ◌∷◌, Bool, ◌==◌, Result,
  ok, err, length, from_be_bytes, from_be_bytes32, as_i16, u16_mod, u64_mod,
}
use rp2350_keymouse_bridge_f.Common.Int.{ℤ, pos, negsuc}
use rp2350_keymouse_bridge_f.Protocol.{CommandType, as_byte, DecodeError}

-- What the client reports; `port_failed` stands for an error of the port.
pub data ClientError : Type 0 where
  payload_too_long encode_failed malformed_busy remained_busy : ClientError
  timed_out timeout_too_large frame_too_long crc_failed port_failed : ClientError
  nack_code : ℕ → ClientError
  unexpected_type : CommandType → CommandType → ClientError
  invalid_frame : DecodeError → ClientError

pub record Response : Type 0 where
  pub command_type : CommandType
  pub payload : List ℕ

-- `HidClient`, without the port and the threads; durations are milliseconds.
pub record HidClient : Type 0 where
  pub sequence : ℕ
  pub timeout_ms : ℕ
  pub retries : ℕ
  pub receive_buffer : List ℕ
  pub batch_duration_ms : Option ℕ

unfoldable pub next_sequence : HidClient → ℕ × HidClient
next_sequence c = (c.sequence, record c { sequence = max ((c.sequence + 1) % u16_mod) 1 })

unfoldable pub busy_retry_delay : List ℕ → Result ClientError ℕ
busy_retry_delay (reason ∷ hi ∷ lo ∷ []) = ok (from_be_bytes hi lo)
busy_retry_delay other = err malformed_busy

abbrev pub saturating_add : ℕ → ℕ → ℕ
saturating_add a b = min (a + b) (u64_mod - 1)

-- `i32::unsigned_abs` of an `i16`
abbrev pub unsigned_abs : ℤ → ℕ
unsigned_abs (pos n) = n
unsigned_abs (negsuc n) = suc n

unfoldable pub known_command_duration_ms : CommandType → List ℕ → Option ℕ
known_command_duration_ms CommandType.wait_ms (a ∷ b ∷ c ∷ d ∷ []) = some (from_be_bytes32 a b c d)
known_command_duration_ms CommandType.type_ascii payload =
    some (min (length payload * 8) (u64_mod - 1))
known_command_duration_ms CommandType.mouse_move_rel (a ∷ b ∷ c ∷ d ∷ []) =
    let extent =
      max (unsigned_abs (as_i16 (from_be_bytes a b))) (unsigned_abs (as_i16 (from_be_bytes c d))) in
    some (saturating_add extent 126 / 127)
known_command_duration_ms CommandType.key_tap payload = some 8
known_command_duration_ms CommandType.mouse_click payload = some 20
known_command_duration_ms other payload = none

-- `as_mut()` of the batch's duration with the command's one added, if both are there.
abbrev pub add_duration : Option ℕ → Option ℕ → Option ℕ
add_duration none duration = none
add_duration (some total) none = some total
add_duration (some total) (some duration) = some (saturating_add total duration)

unfoldable pub record_completed_command : CommandType → List ℕ → HidClient → HidClient
unfolding known_command_duration_ms
record_completed_command CommandType.batch_begin payload c = record c { batch_duration_ms = some 0 }
record_completed_command CommandType.batch_end payload c = record c { batch_duration_ms = none }
record_completed_command CommandType.stop_all payload c = record c { batch_duration_ms = none }
record_completed_command command_type payload c = record c {
  batch_duration_ms =
      add_duration c.batch_duration_ms (known_command_duration_ms command_type payload);
}

abbrev pub batch_required : Option ℕ → ℕ
batch_required none = 1000
batch_required (some duration) = saturating_add duration 1000

abbrev pub command_required : Option ℕ → ℕ
command_required none = 1000
command_required (some duration) = saturating_add duration 500

unfoldable pub required_ms : CommandType → List ℕ → HidClient → ℕ
unfolding known_command_duration_ms
required_ms CommandType.batch_end payload c = batch_required c.batch_duration_ms
required_ms command_type payload c =
    command_required (known_command_duration_ms command_type payload)

unfoldable pub response_timeout : CommandType → List ℕ → HidClient → ℕ
unfolding required_ms
response_timeout command_type payload c =
    max (min c.timeout_ms (u64_mod - 1)) (required_ms command_type payload c)

unfoldable pub expected_response_type : CommandType → CommandType
expected_response_type CommandType.get_info = CommandType.status
expected_response_type CommandType.get_caps = CommandType.status
expected_response_type other = CommandType.ack

-- The derived `PartialEq` of `CommandType`: a type has the name of its byte.
abbrev pub same_type : CommandType → CommandType → Bool
same_type a b = as_byte a == as_byte b
