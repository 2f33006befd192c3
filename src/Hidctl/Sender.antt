-- ===== src/Hidctl/Sender.antt =====
-- tools/hidctl/src/client.rs: commands with their retries, and the client's life.
use rp2350_keymouse_bridge_f.Common.{
  ℕ, zero, suc, Option, none, some, List, [], ◌∷◌, ◌++◌, Bool, true, false, ◌||◌, ltb,
  if◌then◌else◌, Result, ok, err, length, take, replicate,
}
use rp2350_keymouse_bridge_f.Protocol.{
  CommandType, EncodeError, protocol_version, flag_no_response, max_frame_size, max_payload_size,
}
use rp2350_keymouse_bridge_f.Protocol.Codec.{encode_frame, encode_frame_with_flags}
use rp2350_keymouse_bridge_f.Hidctl.Client.{
  ClientError, payload_too_long, encode_failed, remained_busy, timed_out, port_failed, nack_code,
  unexpected_type, Response, HidClient, next_sequence, busy_retry_delay, record_completed_command,
  response_timeout, expected_response_type, same_type,
}
use rp2350_keymouse_bridge_f.Hidctl.Reader.{
  Attempt, read_timeout, other_error, ReadDone, read_response,
}

-- What the client does to its port and its thread.
pub data ClientAction : Type 0 where
  write_frame : List ℕ → ClientAction
  sleep_ms : ℕ → ClientAction
  set_dtr : Bool → ClientAction
  stop_heartbeat join_heartbeat : ClientAction

abbrev pub Sent : Type 0
Sent = List ClientAction × List ℕ × Result ClientError Response

abbrev pub then_send : List ClientAction → Sent → Sent
then_send actions (later, buffer, result) = (actions ++ later, buffer, result)

-- The first byte of a NACK.
abbrev pub nack_of : List ℕ → ℕ
nack_of [] = 0
nack_of (code ∷ rest) = code

-- A BUSY response: its delay, and the next attempt if there is one.
abbrev pub after_busy : ℕ → Result ClientError ℕ → List ℕ → Sent → Sent
after_busy left (err e) buffer next = ([], buffer, err e)
after_busy zero (ok delay) buffer next = ([], buffer, err remained_busy)
after_busy (suc left) (ok delay) buffer next = then_send (sleep_ms delay ∷ []) next

abbrev pub is_busy : CommandType → Bool
is_busy CommandType.busy = true
is_busy other = false

abbrev pub is_nack : CommandType → Bool
is_nack CommandType.nack = true
is_nack other = false

-- The `match` on what an attempt read; `left` are the attempts after it, and `next` is the next.
unfoldable pub after_read : ℕ → CommandType → ReadDone → (List ℕ → Sent) → Sent
unfolding busy_retry_delay expected_response_type
after_read left command_type (buffer, err (other_error e)) next = ([], buffer, err e)
after_read zero command_type (buffer, err read_timeout) next = ([], buffer, err timed_out)
after_read (suc left) command_type (buffer, err read_timeout) next = next buffer
after_read left command_type (buffer, ok response) next =
    if is_busy response.command_type
    then after_busy left (busy_retry_delay response.payload) buffer (next buffer)
    else if is_nack response.command_type
    then ([], buffer, err (nack_code (nack_of response.payload)))
    else if same_type response.command_type (expected_response_type command_type)
    then ([], buffer, ok response)
    else (
      [],
      buffer,
      err (unexpected_type response.command_type (expected_response_type command_type)),
    )

abbrev pub write_or : List ℕ → Attempt → List ℕ → Sent → Sent
write_or frame a buffer read =
    if a.write_fails
    then (write_frame frame ∷ [], buffer, err port_failed)
    else then_send (write_frame frame ∷ []) read

-- The loop over the attempts, by the number of those that are left after the next, with what each of
-- them meets.
unfoldable pub send_attempts : ℕ → (ℕ → Attempt) → CommandType → ℕ → List ℕ → List ℕ → Sent
unfolding read_response after_read
send_attempts zero met command_type sequence frame buffer = write_or frame (met 0) buffer (
    after_read 0 command_type (read_response (met 0) sequence buffer)
      (λ left. ([], left, err timed_out)))
send_attempts (suc left) met command_type sequence frame buffer =
    write_or frame (met (suc left)) buffer (
      after_read (suc left) command_type (read_response (met (suc left)) sequence buffer)
        (send_attempts left met command_type sequence frame))

abbrev pub Commanded : Type 0
Commanded = List ClientAction × HidClient × Result ClientError Response

abbrev pub with_buffer : HidClient → Sent → Commanded
with_buffer c (actions, buffer, result) = (actions, record c { receive_buffer = buffer }, result)

abbrev pub send_encoded :
    (ℕ → Attempt) → CommandType → ℕ → HidClient → List ℕ × Result EncodeError ℕ → Commanded
send_encoded met command_type sequence c (out, err e) = ([], c, err encode_failed)
send_encoded met command_type sequence c (out, ok frame_len) =
    with_buffer c
      (send_attempts c.retries met command_type sequence (take frame_len out) c.receive_buffer)

unfoldable pub send_command_with_timeout :
    (ℕ → Attempt) → CommandType → List ℕ → HidClient → Commanded
unfolding next_sequence send_attempts
send_command_with_timeout met command_type payload c =
    if ltb max_payload_size (length payload)
    then ([], c, err payload_too_long)
    else (let (sequence, c') = next_sequence c in
        send_encoded met command_type sequence c' (
          encode_frame protocol_version sequence command_type payload (replicate max_frame_size 0)))

abbrev pub record_answered : CommandType → List ℕ → Commanded → Commanded
record_answered command_type payload (actions, c, err e) = (actions, c, err e)
record_answered command_type payload (actions, c, ok response) =
    (actions, record_completed_command command_type payload c, ok response)

-- The attempts read until the timeout that `response_timeout` gives.
unfoldable pub send_command : (ℕ → ℕ → Attempt) → CommandType → List ℕ → HidClient → Commanded
unfolding response_timeout send_command_with_timeout record_completed_command
send_command met command_type payload c = record_answered command_type payload (
    send_command_with_timeout (met (response_timeout command_type payload c)) command_type payload
      c)

-- The `drop` of a client, whose heartbeat may be gone already.
unfoldable pub drop_client : Bool → HidClient → List ClientAction
unfolding next_sequence
drop_client heartbeat c =
    let (sequence, c') = next_sequence c in
    let (out, encoded) =
      encode_frame protocol_version sequence CommandType.stop_all [] (replicate max_frame_size 0) in
    (if heartbeat then stop_heartbeat ∷ [] else [])
    ++ ((elim encoded [ err e ↦ [] | ok len ↦ write_frame (take len out) ∷ [] ])
        ++ ((if heartbeat then join_heartbeat ∷ [] else []) ++ (set_dtr false ∷ [])))

-- The frame of `start_heartbeat`; `none` is the panic of a frame that does not fit.
unfoldable pub heartbeat_frame : Option (List ℕ)
heartbeat_frame =
    let (out, encoded) =
      encode_frame_with_flags protocol_version flag_no_response 0 CommandType.heartbeat []
        (replicate max_frame_size 0) in
    elim encoded [ err e ↦ none | ok len ↦ some (take len out) ]

-- A beat, unless the worker was stopped, and whether the worker goes on.
unfoldable pub write_heartbeat_if_running : Bool → List ℕ → List ClientAction × Bool
write_heartbeat_if_running stopped frame =
    if stopped then ([], false) else (write_frame frame ∷ [], true)

-- What opening a port meets.
pub record Opening : Type 0 where
  pub interval_is_zero : Bool
  pub set_timeout_fails : Bool
  pub set_dtr_fails : Bool
  pub clone_fails : Bool
  pub spawn_fails : Bool

-- `HidClient::from_port`: the DTR line falls again when the heartbeat cannot be started.
unfoldable pub from_port : Opening → ℕ → ℕ → List ClientAction × Option HidClient
from_port o timeout_ms retries =
    if o.interval_is_zero || o.set_timeout_fails
    then ([], none)
    else if o.set_dtr_fails
    then (set_dtr true ∷ [], none)
    else if o.clone_fails || o.spawn_fails
    then (set_dtr true ∷ set_dtr false ∷ [], none)
    else (
      set_dtr true ∷ [],
      some (record {
        sequence = 1;
        timeout_ms = timeout_ms;
        retries = retries;
        receive_buffer = [];
        batch_duration_ms = none;
      }),
    )
