-- ===== src/Model/Dispatched.antt =====
-- src/coordinator.rs, src/runtime.rs: `RuntimeModel` is what the dispatcher shows of its stops.
use rp2350_keymouse_bridge_f.Common.{
  ◌+◌, ◌≤◌, ◌<◌, ◌≡◌, refl, sym, ◌∙◌, arith, ap, Option, none, some, List, [], ◌∷◌, ◌++◌,
  append_assoc, append-nil, map, map-append, Bool, true, false, if◌then◌else◌, Result, ok, err,
  length, length-append,
}
use rp2350_keymouse_bridge_f.Common.Heapless.{Heapless, IsHeapless}
use rp2350_keymouse_bridge_f.Protocol.{Frame}
use rp2350_keymouse_bridge_f.Input.Mouse.{InputState}
use rp2350_keymouse_bridge_f.Coordinator.{
  response_cache_size, kept, CachedResponse, CompletionToken, token_ack, OwnedRequest, stop,
  CompletionError, SafetyEvent,
}
use rp2350_keymouse_bridge_f.Coordinator.Cache.{Coordinator, complete, clear_session}
use rp2350_keymouse_bridge_f.Stop.{
  handle_stop, schedule_emergency, complete_emergency, clear_pending_stops,
}
use rp2350_keymouse_bridge_f.Runtime.{
  Output, send_job, emergency, emergency_result, Dispatcher, Stepped, queue_response, then_release,
  apply_emergency_action, dispatch, dispatch_stop,
}
use rp2350_keymouse_bridge_f.Runtime.Round.{finish, finish_stops, take_result, take_safety_event}
use rp2350_keymouse_bridge_f.Runtime.Session.{advance_session_generation}
use rp2350_keymouse_bridge_f.Model.{
  RuntimeModel, ModelEvent, cancel_and_release, cancel_release_and_reset_session, Modelled,
  complete_session_reset, safety_event, pend_stop, take_admission, answer_stops,
  complete_model_emergency,
}

-- What the model and the dispatcher share.
pub record Projects (m : RuntimeModel) (d : Dispatcher) : Type 0 where
  pub same_coordinator : m.coordinator ≡ d.coordinator
  pub same_stops : m.pending_stops ≡ d.stop_core.pending_stops
  pub same_flight : m.emergency_in_flight ≡ d.stop_core.emergency_in_flight
  pub same_session : m.applied_session ≡ d.applied_session

abbrev pub is_release : ModelEvent → Bool
is_release (cancel_and_release sequence) = true
is_release cancel_release_and_reset_session = true
is_release other = false

abbrev pub is_emergency_job : Output → Bool
is_emergency_job (send_job emergency) = true
is_emergency_job other = false

-- Whether the outputs have a release for the executor.
unfoldable pub sends_release : List Output → Bool
sends_release [] = false
sends_release (o ∷ outputs) = if is_emergency_job o then true else sends_release outputs

-- A step of both: they panic together, or they go on alike and ask for a release together.
abbrev pub Agrees : Modelled → Stepped → Type 0
Agrees none none = Unit
Agrees (some (event, m)) (some (outputs, d)) =
    Projects m d × (is_release event ≡ sends_release outputs)
Agrees other stepped = ⊥

module _ (v : Heapless) (m : RuntimeModel) (d : Dispatcher) (same : Projects m d) where
  stop_at :
      (frame : Frame) (from request : OwnedRequest) (t : Option CompletionToken)
      → Agrees
          (take_admission v frame (stop (record request { completion_token = t })) m)
          (dispatch v from (stop (record request { completion_token = t })) d)
  unfolding take_admission pend_stop dispatch dispatch_stop handle_stop schedule_emergency
      apply_emergency_action sends_release
  stop_at frame from request none = tt
  stop_at frame from request (some t) = (
    record {
      same_coordinator = same.same_coordinator;
      same_stops =
          ap (λ stops. kept stops (v.push CompletionToken response_cache_size stops t))
            same.same_stops;
      same_flight = refl;
      same_session = same.same_session;
    },
    ground (arith, same.same_flight),
  )

  pub stop-Agrees :
      (frame : Frame) (from request : OwnedRequest)
      → Agrees (take_admission v frame (stop request) m) (dispatch v from (stop request) d)
  stop-Agrees frame from request = stop_at frame from request request.completion_token

-- The model's event with the reset that the dispatcher makes at once.
abbrev pub then_reset : Modelled → Modelled
then_reset none = none
then_reset (some (event, m)) = some (event, complete_session_reset m)

abbrev pub safety_modelled : SafetyEvent → RuntimeModel → Modelled
safety_modelled event m = then_reset (safety_event event m)

module _ (v : Heapless) (m : RuntimeModel) (d : Dispatcher) (same : Projects m d) where
  -- With what clearing the coordinator gives.
  safety_at :
      (event : SafetyEvent) (dtr : Bool) (cleared : Option Coordinator)
      → clear_session m.coordinator ≡ cleared
      → clear_session d.coordinator ≡ cleared
      → Agrees
          (safety_modelled event m)
          (take_safety_event v (advance_session_generation m.session_generation) dtr d)
  unfolding safety_event take_safety_event then_release schedule_emergency clear_pending_stops
      apply_emergency_action sends_release complete_session_reset
  safety_at event dtr none e f = rw (e, f, safety_event, take_safety_event) tt
  safety_at event dtr (some cleared) e f =
      rw (e, f, safety_event, take_safety_event)
        (
          record {
            same_coordinator = refl;
            same_stops = refl;
            same_flight = refl;
            same_session = refl;
          },
          ground (arith, same.same_flight),
        )

  pub safety-Agrees :
      (event : SafetyEvent) (dtr : Bool)
      → Agrees
          (safety_modelled event m)
          (take_safety_event v (advance_session_generation m.session_generation) dtr d)
  safety-Agrees event dtr =
      safety_at event dtr (clear_session d.coordinator) (ap clear_session same.same_coordinator)
        refl

-- Both loops over the stops, from any coordinator and after any responses that leave room.
module _ (v : Heapless) (laws : IsHeapless v) (d : Dispatcher) where
  abbrev Answered : List CompletionToken → List CachedResponse → Coordinator → Type 0
  Answered tokens responses c =
      let (later, c') = answer_stops v tokens responses c in
      let (outputs, d') = finish_stops v tokens (record d { coordinator = c }) in
      (d' ≡ record d { coordinator = c' })
      × (map (queue_response d) later ≡ map (queue_response d) responses ++ outputs)

  more-Answered :
      (token : CompletionToken) (tokens : List CompletionToken) (responses : List CachedResponse)
      (done : Coordinator)
      → Answered tokens (responses ++ token_ack token ∷ []) done
      → let (later, c') = answer_stops v tokens (responses ++ token_ack token ∷ []) done in
        let (outputs, d') = finish_stops v tokens (record d { coordinator = done }) in
        (d' ≡ record d { coordinator = c' })
        × (map (queue_response d) later
            ≡ map (queue_response d) responses ++ (queue_response d (token_ack token) ∷ outputs))
  more-Answered token tokens responses done (a, b) = (
    a,
    b
        ∙ cc (
          map-append (queue_response d) responses (token_ack token ∷ []),
          append_assoc (map (queue_response d) responses) (queue_response d (token_ack token) ∷ [])
              (finish_stops v tokens (record d { coordinator = done })).0,
        ),
  )

  cons-Answered :
      (token : CompletionToken) (tokens : List CompletionToken) (responses : List CachedResponse)
      (c : Coordinator) (result : Result CompletionError Coordinator)
      → complete c token (token_ack token) ≡ result
      → length responses < response_cache_size
      → ((responses' : List CachedResponse) (c' : Coordinator)
          → length responses' ≤ length responses + 1
          → Answered tokens responses' c')
      → Answered (token ∷ tokens) responses c
  unfolding answer_stops finish_stops finish queue_response
  cons-Answered token tokens responses c (err e) h room later =
      rw (h, answer_stops, finish_stops, finish) (later responses c (omega arith))
  cons-Answered token tokens responses c (ok done) h room later =
      rw
        (
          h,
          laws.push_room CachedResponse response_cache_size responses (token_ack token) room,
          answer_stops,
          finish_stops,
          finish,
        )
        (more-Answered token tokens responses done (
          later (responses ++ token_ack token ∷ []) done
            (omega (arith, length-append responses (token_ack token ∷ [])))))

  all-Answered :
      (tokens : List CompletionToken) (responses : List CachedResponse) (c : Coordinator)
      → length responses + length tokens ≤ response_cache_size
      → Answered tokens responses c
  unfolding answer_stops finish_stops
  all-Answered [] responses c h = (refl, sym (append-nil (map (queue_response d) responses)))
  all-Answered (token ∷ tokens) responses c h =
      cons-Answered token tokens responses c (complete c token (token_ack token)) refl (omega arith)
        (λ responses' c' n. all-Answered tokens responses' c' (omega arith))

-- What the end of the release answers, and what is left.
module _ (v : Heapless) (laws : IsHeapless v) (m : RuntimeModel) (d : Dispatcher)
    (same : Projects m d) where
  -- The dispatcher once the release is done, before it answers the stops.
  abbrev released : InputState → Dispatcher
  released input = record d { input_state = input; stop_core = (complete_emergency d.stop_core).1 }

  finish_same :
      (input : InputState)
      → finish_stops v m.pending_stops (record (released input) { coordinator = m.coordinator })
        ≡ finish_stops v d.stop_core.pending_stops (released input)
  finish_same input = rw (same.same_coordinator, same.same_stops) refl

  -- The model's responses are the ones that the dispatcher queues.
  pub emergency-Projects :
      (input : InputState)
      → length m.pending_stops ≤ response_cache_size
      → let (responses, m') = complete_model_emergency v m in
        let (outputs, d') = take_result v (emergency_result input) d in
        Projects m' d' × (outputs ≡ map (queue_response d) responses)
  unfolding complete_model_emergency take_result complete_emergency queue_response
  emergency-Projects input h =
      let (left, answered_alike) =
        all-Answered v laws (released input) m.pending_stops [] m.coordinator (omega arith) in
      let d_left = sym (ap (λ s. s.1) (finish_same input)) ∙ left in
      (
        record {
          same_coordinator = sym (ap (λ e. e.coordinator) d_left);
          same_stops = sym (ap (λ e. e.stop_core.pending_stops) d_left);
          same_flight = sym (ap (λ e. e.stop_core.emergency_in_flight) d_left);
          same_session = same.same_session ∙ sym (ap (λ e. e.applied_session) d_left);
        },
        sym (ap (λ s. s.0) (finish_same input)) ∙ sym answered_alike,
      )

-- What a stop, a safety event and the end of the release do to both.
abbrev pub StaysAlike : Heapless → RuntimeModel → Dispatcher → Type 0
StaysAlike v m d =
    ((frame : Frame) (from request : OwnedRequest)
      → Agrees (take_admission v frame (stop request) m) (dispatch v from (stop request) d))
    × ((event : SafetyEvent) (dtr : Bool)
        → Agrees (safety_modelled event m)
            (take_safety_event v (advance_session_generation m.session_generation) dtr d))
    × ((input : InputState)
        → let (responses, m') = complete_model_emergency v m in
          let (outputs, d') = take_result v (emergency_result input) d in
          Projects m' d' × (outputs ≡ map (queue_response d) responses))

-- `RuntimeModel` and the dispatcher stay alike. When they share the coordinator, the pending stops,
-- the flag of the release and the applied session, and there are at most 64 stops, then they
-- share them again after an admitted STOP_ALL, after a safety event, whose reset the model applies
-- at once and whose new session the dispatcher reads, and after the end of the release. A stop
-- or a safety event panics in both or in none and asks for a release in both or in none. The end
-- of the release answers the same stops in the same order.
pub Projects_lem :
    (v : Heapless) (m : RuntimeModel) (d : Dispatcher)
    → IsHeapless v
    → Projects m d
    → length m.pending_stops ≤ response_cache_size
    → StaysAlike v m d
Projects_lem v m d laws same few = (
  stop-Agrees v m d same,
  safety-Agrees v m d same,
  λ input. emergency-Projects v laws m d same input few,
)
