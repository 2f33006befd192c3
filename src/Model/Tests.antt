-- ===== src/Model/Tests.antt =====
-- src/coordinator.rs: tests of `RuntimeModel` and an example.
use rp2350_keymouse_bridge_f.Common.{◌≡◌, refl, arith, some, [], ◌∷◌, true}
use rp2350_keymouse_bridge_f.Common.Heapless.{list_vec, list_vec-IsHeapless}
use rp2350_keymouse_bridge_f.Protocol.{CommandType, Frame}
use rp2350_keymouse_bridge_f.Coordinator.{
  fingerprint, CompletionToken, token_ack, expect_ack, request_from_frame,
}
use rp2350_keymouse_bridge_f.Coordinator.Cache
use rp2350_keymouse_bridge_f.Coordinator.Cache.{active, Coordinator}
use rp2350_keymouse_bridge_f.Coordinator.Admit.{admit}
use rp2350_keymouse_bridge_f.Runtime
use rp2350_keymouse_bridge_f.Runtime.{Dispatcher}
use rp2350_keymouse_bridge_f.Model.{
  RuntimeModel, cancel_and_release, new_model, accept, complete_model_emergency,
}
use rp2350_keymouse_bridge_f.Model.Dispatched.{Projects, StaysAlike, Projects_lem}
use rp2350_keymouse_bridge_f.Protocol.Request.{validate_request}
use rp2350_keymouse_bridge_f.Coordinator.{
  classify_request, expected_final_response, fingerprint_step, is_final_response, own_body,
  own_request_body, same_token,
}
use rp2350_keymouse_bridge_f.Commands.Owned.{from_frame}
use rp2350_keymouse_bridge_f.Protocol.{as_byte}

abbrev stop_frame : Frame
stop_frame = record {
  version = 2;
  flags = 0;
  sequence = 7;
  command_type = CommandType.stop_all;
  payload = [];
}

abbrev stop_token : CompletionToken
stop_token = record {
  session_generation = 0;
  admission_id = 1;
  version = 2;
  sequence = 7;
  fingerprint = fingerprint stop_frame;
  expected_response = expect_ack;
}

-- One stop waits for the release.
abbrev stopping : RuntimeModel
stopping = record new_model {
  coordinator = record Cache.new {
    cache =
        record {
          sequence = 7;
          fingerprint = fingerprint stop_frame;
          token = stop_token;
          state = active;
        }
        ∷ [];
    next_admission_id = 2;
  };
  pending_stops = stop_token ∷ [];
  emergency_in_flight = true;
}

abbrev stopping_dispatcher : Dispatcher
stopping_dispatcher = record Runtime.start {
  coordinator = stopping.coordinator;
  stop_core = record Runtime.start.stop_core {
    pending_stops = stop_token ∷ [];
    emergency_in_flight = true;
  };
}

accept-stop : accept list_vec stop_frame new_model ≡ some (cancel_and_release 7, stopping)
unfolding accept new_model list_vec admit request_from_frame validate_request Cache.find_sequence
    own_request_body own_body from_frame classify_request Cache.insert_active
    expected_final_response
accept-stop = refl

release-answers : (complete_model_emergency list_vec stopping).0 ≡ token_ack stop_token ∷ []
unfolding complete_model_emergency list_vec new_model Cache.complete token_ack is_final_response
    same_token fingerprint fingerprint_step as_byte
release-answers = refl

stopping-Projects : Projects stopping stopping_dispatcher
unfolding new_model Runtime.start
stopping-Projects = record {
  same_coordinator = refl;
  same_stops = refl;
  same_flight = refl;
  same_session = refl;
}

Projects_lem_example : StaysAlike list_vec stopping stopping_dispatcher
Projects_lem_example =
    Projects_lem list_vec stopping stopping_dispatcher list_vec-IsHeapless stopping-Projects
      (omega arith)
