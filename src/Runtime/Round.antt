-- ===== src/Runtime/Round.antt =====
-- src/runtime.rs: a round of the dispatcher's loop.
use rp2350_keymouse_bridge_f.Common.{
  ℕ, none, some, is_some, List, [], ◌∷◌, ◌++◌, Bool, not, ◌||◌, ◌==◌, if◌then◌else◌, ok, err,
}
use rp2350_keymouse_bridge_f.Common.Heapless.{Heapless}
use rp2350_keymouse_bridge_f.Input.Mouse.{is_idle_input}
use rp2350_keymouse_bridge_f.Coordinator.{CachedResponse, CompletionToken, token_ack, OwnedRequest}
use rp2350_keymouse_bridge_f.Coordinator.Cache.{complete, clear_session, is_executor_occupied}
use rp2350_keymouse_bridge_f.Stop.{complete_emergency, clear_pending_stops}
use rp2350_keymouse_bridge_f.RuntimeSafety.{admit_runtime_request}
use rp2350_keymouse_bridge_f.Runtime.{
  ExecutionResult, command_result, emergency_result, Output, store_guarded, Dispatcher, Stepped,
  queue_response, then_release, with_refresh, dispatch, signal_response_reset, signal_request_reset,
  drain_requests, drain_responses,
}

module _ (v : Heapless) where
  -- A refused completion answers nothing.
  unfoldable pub finish : CompletionToken → CachedResponse → Dispatcher → List Output × Dispatcher
  unfolding queue_response
  finish token response d = elim (complete d.coordinator token response) [
    | ok done ↦ (queue_response d response ∷ [], record d { coordinator = done })
    | err e ↦ ([], d)
  ]

  -- The `for` loop over the stops that a release answers.
  unfoldable pub finish_stops : List CompletionToken → Dispatcher → List Output × Dispatcher
  unfolding finish
  finish_stops [] d = ([], d)
  finish_stops (token ∷ tokens) d =
      let (outputs, d') = finish token (token_ack token) d in
      let (later, d'') = finish_stops tokens d' in (outputs ++ later, d'')

  unfoldable pub take_result : ExecutionResult → Dispatcher → List Output × Dispatcher
  unfolding finish finish_stops
  take_result (command_result token response next_state) d =
      finish token response (record d { input_state = next_state })
  take_result (emergency_result next_state) d =
      let (tokens, stop_core) = complete_emergency d.stop_core in
      finish_stops tokens (record d { input_state = next_state; stop_core = stop_core })

  -- The applied session follows the current one.
  unfoldable pub take_safety_event : ℕ → Bool → Dispatcher → Stepped
  unfolding then_release
  take_safety_event runtime_session dtr_asserted d = elim (clear_session d.coordinator) [
    | none ↦ none
    | some cleared ↦ some (
        then_release
          (signal_response_reset runtime_session
            ∷ drain_requests
            ∷ drain_responses
            ∷ (if dtr_asserted then signal_request_reset runtime_session ∷ [] else []))
          (record d {
            coordinator = cleared;
            batch = none;
            stop_core = clear_pending_stops d.stop_core;
            applied_session = runtime_session;
          }))
  ]

  -- A request of the current session.
  unfoldable pub take_current_request : ℕ → ℕ → OwnedRequest → Dispatcher → Stepped
  unfolding dispatch
  take_current_request runtime_session now_ms request d =
      elim (admit_runtime_request v d.coordinator request d.stop_core.emergency_in_flight
        runtime_session now_ms) [
          | none ↦ none
          | some (admitted, coordinator) ↦
              with_refresh admitted.lease_refresh
                (dispatch v request admitted.admission (record d { coordinator = coordinator }))
        ]

unfoldable pub update_guarded : Dispatcher → Output
update_guarded d =
    store_guarded
      (not (is_idle_input d.input_state) || (is_some d.batch || is_executor_occupied d.coordinator))

abbrev pub then_guarded : List Output × Dispatcher → List Output × Dispatcher
then_guarded (outputs, d) = (outputs ++ (update_guarded d ∷ []), d)

abbrev pub and_guarded : Stepped → Stepped
and_guarded none = none
and_guarded (some s) = some (then_guarded s)

-- What the loop of the dispatcher wakes on, with what it reads then: the current session, the time
-- and the DTR flag.
pub data Wake : Type 0 where
  on_request : ℕ → ℕ → OwnedRequest → Wake
  on_result : ExecutionResult → Wake
  on_safety_event : ℕ → Bool → Wake

-- One round of `dispatcher_task`; a request of another session is passed over.
unfoldable pub dispatcher_step : Heapless → Wake → Dispatcher → Stepped
unfolding take_current_request take_result take_safety_event update_guarded
dispatcher_step v (on_request runtime_session now_ms request) d =
    if request.runtime_session == runtime_session
    then and_guarded (take_current_request v runtime_session now_ms request d)
    else some ([], d)
dispatcher_step v (on_result result) d = some (then_guarded (take_result v result d))
dispatcher_step v (on_safety_event runtime_session dtr_asserted) d =
    and_guarded (take_safety_event v runtime_session dtr_asserted d)
