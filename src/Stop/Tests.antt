-- ===== src/Stop/Tests.antt =====
-- src/stop_core.rs: an example.
use rp2350_keymouse_bridge_f.Common.{◌≡◌, refl, arith, some, List, [], ◌∷◌, ◌++◌, length}
use rp2350_keymouse_bridge_f.Common.Heapless.{list_vec, list_vec-IsHeapless}
use rp2350_keymouse_bridge_f.Protocol.{CommandType, response_expected}
use rp2350_keymouse_bridge_f.Commands.Owned.{OwnedCommand}
use rp2350_keymouse_bridge_f.Coordinator.{CompletionToken, expect_ack, OwnedRequest, command}
use rp2350_keymouse_bridge_f.Stop.{new, complete_emergency}
use rp2350_keymouse_bridge_f.Stop.Coalesce.{
  handle_all, actions_from, stopped, final_flag, handle_all_lem,
}

abbrev token : CompletionToken
token = record {
  session_generation = 0;
  admission_id = 3;
  version = 2;
  sequence = 9;
  fingerprint = 5;
  expected_response = expect_ack;
}

abbrev stop_request : OwnedRequest
stop_request = record {
  version = 2;
  flags = 0;
  sequence = 9;
  command_type = CommandType.stop_all;
  fingerprint = 5;
  request_kind = response_expected;
  completion_token = some token;
  body = command OwnedCommand.stop_all;
  runtime_session = 1;
}

abbrev tokens : List CompletionToken
tokens = token ∷ record token { admission_id = 4 } ∷ []

abbrev requests : List OwnedRequest
requests =
    stop_request
    ∷ record stop_request { completion_token = some (record token { admission_id = 4 }) }
    ∷ []

new_empty : length new.pending_stops ≡ 0
unfolding new
new_empty = refl

handle_all_lem_example :
    (handle_all list_vec requests new
      ≡ some (
        actions_from (length tokens) new.emergency_in_flight new.cancellation,
        stopped new tokens (final_flag tokens new.emergency_in_flight) (length tokens),
      ))
    × ((complete_emergency
          (stopped new tokens (final_flag tokens new.emergency_in_flight) (length tokens))).0
        ≡ new.pending_stops ++ tokens)
handle_all_lem_example =
    handle_all_lem list_vec list_vec-IsHeapless requests tokens new refl (omega (arith, new_empty))
