-- ===== src/Coordinator/Tests.antt =====
-- src/coordinator.rs: examples.
use rp2350_keymouse_bridge_f.Common.{◌≡◌, refl, arith, none, some, [], ◌∷◌, true, false, ok}
use rp2350_keymouse_bridge_f.Common.Heapless.{list_vec, list_vec-IsHeapless}
use rp2350_keymouse_bridge_f.Protocol.{CommandType, response_expected}
use rp2350_keymouse_bridge_f.Commands.Owned.{OwnedCommand, from_frame}
use rp2350_keymouse_bridge_f.Coordinator.{
  CompletionToken, own_request_body, own_body, classify_request, expected_final_response,
  is_final_response, same_token, expect_ack, ack, OwnedRequest, raw, command, execute, bypass,
  replay, busy_with, active_duplicate,
}
use rp2350_keymouse_bridge_f.Coordinator.Cache.{
  active, completed, Coordinator, new, complete, find_sequence, insert_active,
}
use rp2350_keymouse_bridge_f.Coordinator.Admit.{admit_prepared}
use rp2350_keymouse_bridge_f.Coordinator.Insert.{IsCoordinator}
use rp2350_keymouse_bridge_f.Coordinator.Outcome.{entry_for, Outcome}
use rp2350_keymouse_bridge_f.Coordinator.Answers.{carried}
use rp2350_keymouse_bridge_f.Coordinator.Replay.{admit_prepared-Outcome}
use rp2350_keymouse_bridge_f.Coordinator.Meanwhile.{Meanwhile, nothing, admits, completes}
use rp2350_keymouse_bridge_f.Coordinator.Retry.{admit_prepared_duplicate, admit_prepared-replay}

abbrev tap : OwnedRequest
tap = record {
  version = 2;
  flags = 0;
  sequence = 7;
  command_type = CommandType.key_tap;
  fingerprint = 77;
  request_kind = response_expected;
  completion_token = none;
  body = raw (0 ∷ 4 ∷ []);
  runtime_session = 1;
}

abbrev token : CompletionToken
token = record {
  session_generation = 0;
  admission_id = 1;
  version = 2;
  sequence = 7;
  fingerprint = 77;
  expected_response = expect_ack;
}

abbrev started : OwnedRequest
started = record tap {
  completion_token = some token;
  body = command (OwnedCommand.key_tap (record { modifier = 0; keycode = 4 }));
}

abbrev busy_now : Coordinator
busy_now = record new {
  cache = record { sequence = 7; fingerprint = 77; token = token; state = active } ∷ [];
  next_admission_id = 2;
  executor_owner = some token;
}

new-IsCoordinator : IsCoordinator new
unfolding new
new-IsCoordinator = record { few = omega arith; below = tt }

tap_starts : admit_prepared list_vec false new tap ≡ some (execute started, busy_now)
unfolding admit_prepared new list_vec find_sequence own_request_body own_body from_frame
    classify_request insert_active expected_final_response
tap_starts = refl

tap_carried : carried (execute started) ≡ some started
unfolding carried
tap_carried = refl

admit_prepared-Outcome_example :
    Outcome new (entry_for new tap) (admit_prepared list_vec false new tap)
admit_prepared-Outcome_example =
    admit_prepared-Outcome list_vec list_vec-IsHeapless {c = new} new-IsCoordinator tap
      {payload = 0 ∷ 4 ∷ []} refl false refl

abbrev ping_request : OwnedRequest
ping_request = record {
  version = 2;
  flags = 0;
  sequence = 8;
  command_type = CommandType.ping;
  fingerprint = 88;
  request_kind = response_expected;
  completion_token = none;
  body = raw [];
  runtime_session = 1;
}

abbrev ping_token : CompletionToken
ping_token = record {
  session_generation = 0;
  admission_id = 2;
  version = 2;
  sequence = 8;
  fingerprint = 88;
  expected_response = expected_final_response CommandType.ping;
}

abbrev pinged : Coordinator
pinged = record busy_now {
  cache =
      record { sequence = 7; fingerprint = 77; token = token; state = active }
      ∷ record { sequence = 8; fingerprint = 88; token = ping_token; state = active }
      ∷ [];
  next_admission_id = 3;
}

abbrev answered : Coordinator
answered = record pinged {
  cache =
      record { sequence = 7; fingerprint = 77; token = token; state = active }
      ∷ record { sequence = 8; fingerprint = 88; token = ping_token; state = completed (ack 2 8) }
      ∷ [];
}

ping_starts :
    admit_prepared list_vec false busy_now ping_request
    ≡ some (
      bypass (record ping_request {
        completion_token = some ping_token;
        body = command OwnedCommand.ping;
      }),
      pinged,
    )
unfolding admit_prepared new list_vec find_sequence own_request_body own_body from_frame
    classify_request insert_active expected_final_response
ping_starts = refl

ping_completes : complete pinged ping_token (ack 2 8) ≡ ok answered
unfolding complete new ack is_final_response same_token expected_final_response
ping_completes = refl

others_differ : same_token token ping_token ≡ false
unfolding same_token
others_differ = refl

ping-Meanwhile : Meanwhile list_vec token busy_now answered
unfolding new
ping-Meanwhile =
    completes ping_token (ack 2 8) (admits ping_request _ [] false nothing refl refl ping_starts)
      others_differ ping_completes

admit_prepared_duplicate_example :
    admit_prepared list_vec true answered tap ≡ some (busy_with active_duplicate, answered)
admit_prepared_duplicate_example =
    admit_prepared_duplicate list_vec list_vec-IsHeapless {c = new} new-IsCoordinator tap
      {payload = 0 ∷ 4 ∷ []} refl refl false true (execute started) started busy_now tap_starts
      tap_carried token answered refl ping-Meanwhile

abbrev all_done : Coordinator
all_done = record answered {
  cache =
      record { sequence = 7; fingerprint = 77; token = token; state = completed (ack 2 7) }
      ∷ record { sequence = 8; fingerprint = 88; token = ping_token; state = completed (ack 2 8) }
      ∷ [];
  executor_owner = none;
}

tap_completes : complete answered token (ack 2 7) ≡ ok all_done
unfolding complete new ack is_final_response same_token expected_final_response
tap_completes = refl

admit_prepared-replay_example :
    admit_prepared list_vec true all_done tap ≡ some (replay (ack 2 7), all_done)
admit_prepared-replay_example =
    admit_prepared-replay list_vec list_vec-IsHeapless {c = new} new-IsCoordinator tap
      {payload = 0 ∷ 4 ∷ []} refl refl false true (execute started) started busy_now tap_starts
      tap_carried token (ack 2 7) answered all_done refl ping-Meanwhile tap_completes
