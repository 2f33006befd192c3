-- ===== src/Runtime/Tests.antt =====
-- src/runtime.rs: examples.
use rp2350_keymouse_bridge_f.Common.{ℕ, ◌≡◌, ◌≢◌, refl, arith, none, some, [], ◌∷◌, true, false}
use rp2350_keymouse_bridge_f.Common.Int.{negsuc}
use rp2350_keymouse_bridge_f.Common.Heapless.{list_vec, list_vec-IsHeapless}
use rp2350_keymouse_bridge_f.Protocol.{CommandType, Frame, response_expected}
use rp2350_keymouse_bridge_f.Protocol.Request.{validate_request}
use rp2350_keymouse_bridge_f.Commands.Owned.{OwnedCommand}
use rp2350_keymouse_bridge_f.Safety.Generation
use rp2350_keymouse_bridge_f.Stop
use rp2350_keymouse_bridge_f.Input
use rp2350_keymouse_bridge_f.Input.{is_idle}
use rp2350_keymouse_bridge_f.Input.Mouse.{new_input, is_idle_input}
use rp2350_keymouse_bridge_f.Coordinator.{
  ack, OwnedRequest, raw, request_from_frame, fingerprint, dtr_lost, response_in_session,
}
use rp2350_keymouse_bridge_f.Execution.{execute_command, execute_command_once}
use rp2350_keymouse_bridge_f.Execution.Monad.{World}
use rp2350_keymouse_bridge_f.Execution.Shadow.{as_command}
use rp2350_keymouse_bridge_f.Executor.{Device, HidBackend, hid_backend, new_wait}
use rp2350_keymouse_bridge_f.Runtime
use rp2350_keymouse_bridge_f.Runtime.{
  Dispatcher, drain_requests, drain_responses, signal_cancel, send_job, emergency, store_guarded,
  start,
}
use rp2350_keymouse_bridge_f.Runtime.Round.{on_request, on_safety_event, dispatcher_step}
use rp2350_keymouse_bridge_f.Runtime.Received.{IsReceived}
use rp2350_keymouse_bridge_f.Runtime.Open.{Kept}
use rp2350_keymouse_bridge_f.Coordinator.Cache
use rp2350_keymouse_bridge_f.Runtime.Run.{Reaches, at_start, after_round, Reaches-Kept}
use rp2350_keymouse_bridge_f.Runtime.Jobs.{
  execute_owned_command, execute_owned_command_with_recovery,
}
use rp2350_keymouse_bridge_f.Runtime.Encoded.{execute_owned_command_lem}
use rp2350_keymouse_bridge_f.Runtime.Session.{
  signal_request_reset, signal_response_reset, send_safety_event, is_sent,
}
use rp2350_keymouse_bridge_f.Runtime.Stale.{
  after_action, after_actions, apply_runtime_safety_action_lem,
}

abbrev begin_frame : Frame
begin_frame = record {
  version = 2;
  flags = 0;
  sequence = 4;
  command_type = CommandType.batch_begin;
  payload = [];
}

abbrev begin_request : OwnedRequest
begin_request = record {
  version = 2;
  flags = 0;
  sequence = 4;
  command_type = CommandType.batch_begin;
  fingerprint = fingerprint begin_frame;
  request_kind = response_expected;
  completion_token = none;
  body = raw [];
  runtime_session = 1;
}

begin-IsReceived : IsReceived list_vec begin_request
unfolding request_from_frame list_vec validate_request
begin-IsReceived = record {
  frame = begin_frame;
  session = 1;
  made = record begin_request { runtime_session = 0 };
  from_wire = refl;
  stamped = refl;
}

-- The dispatcher after the loss of the first session.
abbrev after_reset : Dispatcher
after_reset = record start {
  coordinator = record start.coordinator { session_generation = 1 };
  stop_core = record {
    cancellation = record { generation = 2 };
    pending_stops = [];
    emergency_in_flight = true;
  };
  applied_session = 2;
}

reset_round :
    dispatcher_step list_vec (on_safety_event 2 true) start
    ≡ some (
      Runtime.signal_response_reset 2
          ∷ drain_requests
          ∷ drain_responses
          ∷ Runtime.signal_request_reset 2
          ∷ signal_cancel 2
          ∷ send_job emergency
          ∷ store_guarded false
          ∷ [],
      after_reset,
    )
unfolding dispatcher_step start Cache.clear_session Stop.schedule_emergency Generation.cancel
    Stop.clear_pending_stops Generation.new is_idle_input is_idle Input.new
    Cache.is_executor_occupied
reset_round = refl

after_reset-Reaches : Reaches list_vec after_reset
unfolding start Cache.new
after_reset-Reaches =
    after_round start after_reset (on_safety_event 2 true) _ at_start refl reset_round

Reaches-Kept_example :
    Kept true (dispatcher_step list_vec (on_request 1 100 begin_request) after_reset)
Reaches-Kept_example =
    Reaches-Kept list_vec list_vec-IsHeapless after_reset after_reset-Reaches
      (on_request 1 100 begin_request) begin-IsReceived

-- A device on which everything succeeds at once.
abbrev calm : Device ℕ
calm = record {
  try_take = λ d. (d, none);
  start_timer = λ ms d. d;
  next_publication = λ d. (d, none);
  sleep = λ ms d. d;
  write_keyboard = λ r d. (d, true);
  write_mouse = λ r d. (d, true);
  caps_lock_enabled = λ d. false;
}

abbrev calm_world : World (HidBackend ℕ)
calm_world = record { backend = record { device = 0; cancel = new_wait 1 }; input = new_input }

abbrev wheel : OwnedCommand
wheel = OwnedCommand.mouse_wheel (negsuc 2)

execute_owned_command_lem_example :
    (execute_owned_command list_vec calm 1 2 7 wheel calm_world
      ≡ execute_command list_vec (hid_backend calm 1) (as_command wheel) 2 false calm_world)
    × (execute_owned_command_with_recovery list_vec calm 1 2 7 wheel false calm_world
        ≡ execute_command_once list_vec (hid_backend calm 1) (as_command wheel) 2 false calm_world)
execute_owned_command_lem_example =
    execute_owned_command_lem list_vec calm 1 2 7 wheel calm_world (omega arith, omega arith)

-- The last generation before the wrap, with a second event after the first.
apply_runtime_safety_action_lem_example :
    let last = (after_actions (dtr_lost ∷ dtr_lost ∷ []) 4294967295).1 in
    ((after_action dtr_lost 4294967295).1 ≢ 4294967295)
    × ((after_action dtr_lost 4294967295).1 ≢ 0)
    × ((after_action dtr_lost 4294967295).0
        ≡ signal_request_reset (after_action dtr_lost 4294967295).1
          ∷ signal_response_reset (after_action dtr_lost 4294967295).1
          ∷ send_safety_event dtr_lost
          ∷ [])
    × (is_sent (response_in_session (ack 2 7) 4294967295) last true ≡ false)
    × (is_sent (response_in_session (ack 2 7) last) last true ≡ true)
apply_runtime_safety_action_lem_example =
    apply_runtime_safety_action_lem dtr_lost (dtr_lost ∷ []) 4294967295 (ack 2 7) true (omega arith)
      (omega arith)
