-- ===== src/Runtime.antt =====
-- src/runtime.rs: the dispatcher, with the signals and channels that it writes to as its outputs.
pub mod Round
pub mod Jobs
pub mod Session
pub mod Encoded
pub mod Stale
pub mod Mode
pub mod Received
pub mod Open
pub mod Step
pub mod Run
mod Tests
use rp2350_keymouse_bridge_f.Common.{
  ℕ, Option, none, some, is_some, List, [], ◌∷◌, ◌++◌, Bool, true, false, not, ◌||◌, ◌==◌,
  if◌then◌else◌, Result, ok, err,
}
use rp2350_keymouse_bridge_f.Common.Heapless.{Heapless}
use rp2350_keymouse_bridge_f.Protocol.{CommandType}
use rp2350_keymouse_bridge_f.Errors.{ErrorCode}
use rp2350_keymouse_bridge_f.Input.Mouse.{InputState, new_input, is_idle_input}
use rp2350_keymouse_bridge_f.Batch
use rp2350_keymouse_bridge_f.Batch.{BatchCollector, BatchError, begin}
use rp2350_keymouse_bridge_f.Coordinator.{
  CachedResponse, nack, busy, response_in_session, CompletionToken, token_ack, OwnedRequest,
  OwnedRequestBody, raw, command, batch_begin, batch_end, Admission, execute, collect, bypass,
  CompletionError, no_response, stop, replay, immediate, busy_with, reject, max_response_payload,
}
use rp2350_keymouse_bridge_f.Coordinator.Cache
use rp2350_keymouse_bridge_f.Coordinator.Cache.{
  Coordinator, complete, abort_batch, clear_session, is_executor_occupied,
}
use rp2350_keymouse_bridge_f.Stop
use rp2350_keymouse_bridge_f.Stop.{
  EmergencyAction, StopCore, handle_stop, schedule_emergency, complete_emergency,
  clear_pending_stops, current_generation,
}
use rp2350_keymouse_bridge_f.Execution.{info_payload, capability_payload}
use rp2350_keymouse_bridge_f.RuntimeSafety.{LeaseRefresh, RuntimeAdmission, admit_runtime_request}

abbrev pub busy_retry_ms : ℕ
busy_retry_ms = 10

pub data ExecutionJob : Type 0 where
  single : OwnedRequest → ℕ → ExecutionJob
  batch_job : OwnedRequest → BatchCollector → ℕ → ExecutionJob
  emergency : ExecutionJob

pub data ExecutionResult : Type 0 where
  command_result : CompletionToken → CachedResponse → InputState → ExecutionResult
  emergency_result : InputState → ExecutionResult

-- What the dispatcher does to its signals, channels and flags.
pub data Output : Type 0 where
  refresh_lease : LeaseRefresh → Output
  send_job : ExecutionJob → Output
  send_response : CachedResponse → Output
  signal_cancel signal_response_reset signal_request_reset : ℕ → Output
  drain_requests drain_responses : Output
  store_guarded : Bool → Output

-- The dispatcher's locals, and the applied session, which it alone writes.
pub record Dispatcher : Type 0 where
  pub coordinator : Coordinator
  pub batch : Option BatchCollector
  pub input_state : InputState
  pub stop_core : StopCore
  pub applied_session : ℕ

unfoldable pub start : Dispatcher
unfolding Cache.new new_input Stop.new
start = record {
  coordinator = Cache.new;
  batch = none;
  input_state = new_input;
  stop_core = Stop.new;
  applied_session = 1;
}

-- The outputs of a step, in order, and the dispatcher afterwards; `none` is a panic.
abbrev pub Stepped : Type 0
Stepped = Option (List Output × Dispatcher)

unfoldable pub batch_error_code : BatchError → ErrorCode
batch_error_code Batch.capacity = ErrorCode.batch_capacity
batch_error_code Batch.too_many_keys = ErrorCode.too_many_keys
batch_error_code (Batch.unsupported_ascii byte) = ErrorCode.unsupported_ascii
batch_error_code Batch.keyboard_busy = ErrorCode.keyboard_busy
batch_error_code Batch.wait_too_long = ErrorCode.wait_too_long
batch_error_code Batch.not_batchable = ErrorCode.bad_command

unfoldable pub is_batch_end : CommandType → Bool
is_batch_end CommandType.batch_end = true
is_batch_end other = false

unfoldable pub queue_response : Dispatcher → CachedResponse → Output
queue_response d response = send_response (response_in_session response d.applied_session)

-- An ignored result of `complete`.
abbrev pub completed_or : Coordinator → Result CompletionError Coordinator → Coordinator
completed_or c (ok done) = done
completed_or c (err e) = c

unfoldable pub apply_emergency_action : EmergencyAction → List Output
apply_emergency_action action =
    signal_cancel action.cancel_generation
    ∷ (if action.enqueue_emergency then send_job emergency ∷ [] else [])

-- A release is scheduled, after what was put out before.
unfoldable pub then_release : List Output → Dispatcher → List Output × Dispatcher
unfolding apply_emergency_action
then_release outputs d =
    let (action, stop_core) = schedule_emergency d.stop_core in
    (outputs ++ apply_emergency_action action, record d { stop_core = stop_core })

abbrev pub refresh_output : Option LeaseRefresh → List Output
refresh_output none = []
refresh_output (some refresh) = refresh_lease refresh ∷ []

-- The lease refresh goes before the outputs of the dispatch.
abbrev pub with_refresh : Option LeaseRefresh → Stepped → Stepped
with_refresh refresh none = none
with_refresh refresh (some (outputs, d)) = some (refresh_output refresh ++ outputs, d)

module _ (v : Heapless) where
  -- `CompletionToken::nack`
  unfoldable pub token_nack : CompletionToken → ErrorCode → CachedResponse
  token_nack t error = nack v t.version t.sequence error

  -- A batch that is not there is refused.
  unfoldable pub dispatch_batch : Option BatchCollector → OwnedRequest → Dispatcher → Stepped
  unfolding queue_response token_nack
  dispatch_batch (some collected) request d = some (
    send_job (batch_job request collected (current_generation d.stop_core)) ∷ [],
    record d { batch = none },
  )
  dispatch_batch none request d = elim request.completion_token [
    | none ↦ none
    | some token ↦
        let response = token_nack token ErrorCode.batch_state in
        some (
          queue_response d response ∷ [],
          record d {
            coordinator = completed_or d.coordinator (complete d.coordinator token response);
          },
        )
  ]

  unfoldable pub dispatch_execute : CommandType → OwnedRequest → Dispatcher → Stepped
  unfolding dispatch_batch is_batch_end
  dispatch_execute command_type request d =
      if is_batch_end command_type
      then dispatch_batch d.batch request d
      else some (send_job (single request (current_generation d.stop_core)) ∷ [], d)

  -- The collector with the command of a body.
  unfoldable pub collect_body :
      OwnedRequestBody → Option BatchCollector → Result BatchError BatchCollector
  collect_body (command c) (some collector) = Batch.push v collector c
  collect_body (command c) none = err Batch.not_batchable
  collect_body other batch = err Batch.not_batchable

  unfoldable pub answer_collected :
      CompletionToken → Result BatchError BatchCollector → Dispatcher → List Output × Dispatcher
  unfolding queue_response token_nack batch_error_code then_release
  answer_collected token (ok collector) d = (
    queue_response d (token_ack token) ∷ [],
    record d {
      batch = some collector;
      coordinator = completed_or d.coordinator (complete d.coordinator token (token_ack token));
    },
  )
  answer_collected token (err error) d =
      let response = token_nack token (batch_error_code error) in
      let aborted = abort_batch d.coordinator in
      then_release (queue_response d response ∷ []) (record d {
        batch = none;
        coordinator = completed_or aborted (complete aborted token response);
      })

  unfoldable pub dispatch_collect : OwnedRequest → Dispatcher → Stepped
  unfolding collect_body answer_collected
  dispatch_collect request d = elim request.completion_token [
    | none ↦ none
    | some token ↦ some (answer_collected token (collect_body request.body d.batch) d)
  ]

  -- `CachedResponse::status`; `none` is a payload that does not fit.
  unfoldable pub status : ℕ → ℕ → List ℕ → Option CachedResponse
  status version sequence payload = elim (v.extend_from_slice ℕ max_response_payload [] payload) [
    | none ↦ none
    | some owned ↦ some (record {
      version = version;
      sequence = sequence;
      command_type = CommandType.status;
      payload = owned;
      runtime_session = 0;
    })
  ]

  -- The `match` of `complete_bypass`.
  unfoldable pub bypass_response :
      CommandType → OwnedRequest → CompletionToken → Option CachedResponse
  unfolding status
  bypass_response CommandType.get_info request token =
      status token.version token.sequence info_payload
  bypass_response CommandType.get_caps request token =
      status token.version token.sequence (capability_payload request.version)
  bypass_response other request token = some (token_ack token)

  unfoldable pub complete_bypass : OwnedRequest → Dispatcher → Stepped
  unfolding bypass_response queue_response
  complete_bypass request d = elim request.completion_token [
    | none ↦ none
    | some token ↦ elim (bypass_response request.command_type request token) [
      | none ↦ none
      | some response ↦ some (
        queue_response d response ∷ [],
        record d {
          coordinator = completed_or d.coordinator (complete d.coordinator token response);
        },
      )
    ]
  ]

  unfoldable pub dispatch_stop : OwnedRequest → Dispatcher → Stepped
  unfolding apply_emergency_action
  dispatch_stop request d = elim (handle_stop v d.stop_core request) [
    | none ↦ none
    | some (action, stop_core) ↦
        some (apply_emergency_action action, record d { batch = none; stop_core = stop_core })
  ]

  -- The `match` on the admission of a request.
  unfoldable pub dispatch : OwnedRequest → Admission → Dispatcher → Stepped
  unfolding dispatch_execute dispatch_collect complete_bypass dispatch_stop queue_response
  dispatch from (execute request) d = dispatch_execute from.command_type request d
  dispatch from (collect request) d = dispatch_collect request d
  dispatch from (bypass request) d = complete_bypass request d
  dispatch from (no_response request) d = some ([], d)
  dispatch from (stop request) d = dispatch_stop request d
  dispatch from (replay response) d = some (queue_response d response ∷ [], d)
  dispatch from (immediate response) d =
      some (queue_response d response ∷ [], record d { batch = some (begin d.input_state) })
  dispatch from (busy_with reason) d =
      some (queue_response d (busy v from.version from.sequence reason busy_retry_ms) ∷ [], d)
  dispatch from (reject error) d =
      some (queue_response d (nack v from.version from.sequence error) ∷ [], d)
