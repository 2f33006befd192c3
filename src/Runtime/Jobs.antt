-- ===== src/Runtime/Jobs.antt =====
-- src/runtime.rs: the executor's jobs.
use rp2350_keymouse_bridge_f.Common.{
  ℕ, Option, none, some, Bool, true, false, if◌then◌else◌, Result, ok, err, take, replicate,
}
use rp2350_keymouse_bridge_f.Common.Heapless.{Heapless}
use rp2350_keymouse_bridge_f.Protocol.{Frame, max_payload_size}
use rp2350_keymouse_bridge_f.Commands.Owned.{OwnedCommand, encode_owned_command}
use rp2350_keymouse_bridge_f.Errors.{ErrorCode, bad_command}
use rp2350_keymouse_bridge_f.Coordinator.{
  CachedResponse, CompletionToken, token_ack, OwnedRequest, OwnedRequestBody, command,
}
use rp2350_keymouse_bridge_f.Execution.{DeviceResponse, acked, info, caps}
use rp2350_keymouse_bridge_f.Execution.Monad.{World, Exec}
use rp2350_keymouse_bridge_f.Execution.Batch.{BatchBackend, execute_batch}
use rp2350_keymouse_bridge_f.Executor.{
  Device, HidBackend, new_wait, reset_hid_inputs, execute_frame_with_cancel, execute_frame_in_batch,
}
use rp2350_keymouse_bridge_f.Runtime.{
  ExecutionJob, single, batch_job, emergency, ExecutionResult, command_result, emergency_result,
  token_nack, status,
}

-- The frame that a command is encoded into for the executor.
abbrev pub command_frame : ℕ → ℕ → OwnedCommand → Frame
command_frame version sequence c =
    let encoded = encode_owned_command c (replicate max_payload_size 0) in
    record {
      version = version;
      flags = 0;
      sequence = sequence;
      command_type = encoded.1;
      payload = take encoded.2 encoded.0;
    }

module _ {D : Type 0} (v : Heapless) (h : Device D) (fuel : ℕ) where
  unfoldable pub execute_owned_command_with_recovery :
      ℕ → ℕ → OwnedCommand → Bool → Exec (HidBackend D) DeviceResponse
  unfolding execute_frame_with_cancel execute_frame_in_batch
  execute_owned_command_with_recovery version sequence c recover =
      if recover
      then execute_frame_with_cancel v h fuel (command_frame version sequence c)
      else execute_frame_in_batch v h fuel (command_frame version sequence c)

  unfoldable pub execute_owned_command : ℕ → ℕ → OwnedCommand → Exec (HidBackend D) DeviceResponse
  unfolding execute_owned_command_with_recovery
  execute_owned_command version sequence c =
      execute_owned_command_with_recovery version sequence c true

  abbrev pub execute_body : ℕ → ℕ → OwnedRequestBody → Exec (HidBackend D) DeviceResponse
  execute_body version sequence (command c) w = execute_owned_command version sequence c w
  execute_body version sequence other w = (w, err bad_command)

  unfoldable pub execute_request : OwnedRequest → Exec (HidBackend D) DeviceResponse
  unfolding execute_owned_command
  execute_request request = execute_body request.version request.sequence request.body

  -- `RuntimeBatchExecutionBackend`
  unfoldable pub runtime_batch_backend : ℕ → ℕ → BatchBackend (World (HidBackend D))
  unfolding execute_owned_command_with_recovery reset_hid_inputs
  runtime_batch_backend version sequence = record {
    execute = λ c w. execute_owned_command_with_recovery version sequence c false w;
    reset_inputs = λ w. (reset_hid_inputs h w).0;
  }

  -- `none` is a payload that does not fit the cache.
  unfoldable pub execution_response :
      CompletionToken → Result ErrorCode DeviceResponse → Option CachedResponse
  unfolding token_nack status
  execution_response token (ok acked) = some (token_ack token)
  execution_response token (ok (info payload)) = status v token.version token.sequence payload
  execution_response token (ok (caps payload)) = status v token.version token.sequence payload
  execution_response token (err error) = some (token_nack v token error)

  -- The job starts with a wait of its own.
  abbrev pub with_wait : ℕ → World (HidBackend D) → World (HidBackend D)
  with_wait baseline_generation w = record w {
    backend = record w.backend { cancel = new_wait baseline_generation };
  }

  abbrev pub JobDone : Type 0
  JobDone = Option (ExecutionResult × World (HidBackend D))

  abbrev pub report :
      CompletionToken → World (HidBackend D) × Result ErrorCode DeviceResponse → JobDone
  report token (w, result) = elim (execution_response token result) [
    | none ↦ none
    | some response ↦ some (command_result token response w.input, w)
  ]

  -- The body of the loop of `executor_task`; `none` is a panic.
  unfoldable pub run_job : ExecutionJob → World (HidBackend D) → JobDone
  unfolding execute_request execution_response runtime_batch_backend execute_batch reset_hid_inputs
      new_wait
  run_job (single request baseline_generation) w = elim request.completion_token [
    | none ↦ none
    | some token ↦ report token (execute_request request (with_wait baseline_generation w))
  ]
  run_job (batch_job request batch baseline_generation) w = elim request.completion_token [
    | none ↦ none
    | some token ↦ report token (
        execute_batch (runtime_batch_backend request.version request.sequence) batch.commands
          (with_wait baseline_generation w))
  ]
  run_job emergency w =
      let (w', result) = reset_hid_inputs h w in some (emergency_result w'.input, w')
