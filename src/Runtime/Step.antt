-- ===== src/Runtime/Step.antt =====
-- src/runtime.rs: every round of the dispatcher keeps it valid.
use rp2350_keymouse_bridge_f.Common.{
  ◌≡◌, refl, sym, ap, subst, arith, inl, inr, Option, none, some, List, [], ◌∷◌, ◌++◌, Bool, true,
  false, Bool-cases, Option-cases, Result-cases, if◌then◌else◌, ℕ, ◌&&◌, ◌+◌, u64_mod, ◌==◌, ◌∙◌,
  ltb,
}
use rp2350_keymouse_bridge_f.Common.Heapless.{Heapless, IsHeapless}
use rp2350_keymouse_bridge_f.Coordinator.{
  CachedResponse, CompletionToken, OwnedRequest, Admission, token_ack,
}
use rp2350_keymouse_bridge_f.Coordinator.Cache
use rp2350_keymouse_bridge_f.Coordinator.Cache.{idle, Coordinator, complete, clear_session}
use rp2350_keymouse_bridge_f.Coordinator.Insert.{IsCoordinator}
use rp2350_keymouse_bridge_f.Coordinator.Admit.{admit_prepared}
use rp2350_keymouse_bridge_f.Stop.{complete_emergency, clear_pending_stops}
use rp2350_keymouse_bridge_f.RuntimeSafety.{LeaseRefresh, admit_runtime_request, refreshes_v2_lease}
use rp2350_keymouse_bridge_f.Runtime.{
  ExecutionResult, command_result, emergency_result, Output, Dispatcher, Stepped, start,
  with_refresh, refresh_output, dispatch, signal_response_reset, drain_requests, drain_responses,
  signal_request_reset,
}
use rp2350_keymouse_bridge_f.Runtime.Round.{
  finish, finish_stops, take_result, take_safety_event, take_current_request, update_guarded,
  and_guarded, Wake, on_request, on_result, on_safety_event, dispatcher_step,
}
use rp2350_keymouse_bridge_f.Runtime.Mode.{is_collecting, complete-is_collecting, Mode}
use rp2350_keymouse_bridge_f.Runtime.Mode.Admitted.{admit_prepared-Mode}
use rp2350_keymouse_bridge_f.Coordinator.Meanwhile.{complete-IsCoordinator}
use rp2350_keymouse_bridge_f.Runtime.Received.{
  IsReceived, IsValidDecision, admitted-IsValid, received-Kinds,
}
use rp2350_keymouse_bridge_f.Runtime.Open.{
  IsDispatcher, sends_work, sends_work-append, Kept, no_work, queue_no_work, then_release-Kept,
}
use rp2350_keymouse_bridge_f.Runtime.Open.Dispatch.{dispatch-Kept}

pub start-IsDispatcher : IsDispatcher start
unfolding start Cache.new
start-IsDispatcher = record { valid = record { few = omega arith; below = tt }; open_batch = refl }

-- A step that puts out no work.
abbrev Quiet : List Output × Dispatcher → Type 0
Quiet (outputs, d) = IsDispatcher d × (sends_work outputs ≡ false)

finish-Quiet :
    (v : Heapless) (t : CompletionToken) (r : CachedResponse) (d : Dispatcher)
    → IsDispatcher d
    → Quiet (finish v t r d)
unfolding finish
finish-Quiet v t r d h = elim (Result-cases (complete d.coordinator t r)) [
  | inl (done, e) ↦
      rw (e, finish)
        (
          record {
            valid = complete-IsCoordinator d.coordinator t r done h.valid e;
            open_batch = h.open_batch ∙ sym (complete-is_collecting d.coordinator done t r e);
          },
          queue_no_work d r [],
        )
  | inr (why, e) ↦ rw (e, finish) (h, refl)
]

finish_stops-Quiet :
    (v : Heapless) (ts : List CompletionToken) (d : Dispatcher)
    → IsDispatcher d
    → Quiet (finish_stops v ts d)
unfolding finish_stops
finish_stops-Quiet v [] d h = (h, refl)
finish_stops-Quiet v (t ∷ ts) d h =
    let (h', quiet) = finish-Quiet v t (token_ack t) d h in
    let (h'', later) = finish_stops-Quiet v ts (finish v t (token_ack t) d).1 h' in
    (
      h'',
      ground (
        arith,
        quiet,
        later,
        sends_work-append (finish v t (token_ack t) d).0
            (finish_stops v ts (finish v t (token_ack t) d).1).0,
      ),
    )

result-Quiet :
    (v : Heapless) (r : ExecutionResult) (d : Dispatcher)
    → IsDispatcher d
    → Quiet (take_result v r d)
unfolding take_result complete_emergency
result-Quiet v (command_result token response next_state) d h =
    finish-Quiet v token response (record d { input_state = next_state })
      (record { valid = h.valid; open_batch = h.open_batch })
result-Quiet v (emergency_result next_state) d h =
    finish_stops-Quiet v d.stop_core.pending_stops
      (record d { input_state = next_state; stop_core = (complete_emergency d.stop_core).1 })
      (record { valid = h.valid; open_batch = h.open_batch })

cleared_lem :
    (c : Coordinator)
    → ltb (c.session_generation + 1) u64_mod ≡ true
    → (c' : Coordinator) × (clear_session c ≡ some c') × IsCoordinator c' × (c'.batch_state ≡ idle)
unfolding clear_session
cleared_lem c fits = (
  record c {
    cache = [];
    next_evict = 0;
    session_generation = c.session_generation + 1;
    executor_owner = none;
    batch_state = idle;
  },
  ground (arith, fits),
  record { few = omega arith; below = tt },
  refl,
)

event-Kept :
    (v : Heapless) (busy : Bool) (session : ℕ) (dtr : Bool) (d : Dispatcher)
    → ltb (d.coordinator.session_generation + 1) u64_mod ≡ true
    → Kept busy (take_safety_event v session dtr d)
unfolding take_safety_event
event-Kept v busy session dtr d fits =
    let (c', e, valid, shut) = cleared_lem d.coordinator fits in
    rw (e, take_safety_event)
      (then_release-Kept busy
        (signal_response_reset session
          ∷ drain_requests
          ∷ drain_responses
          ∷ (if dtr then signal_request_reset session ∷ [] else []))
        (record d {
          coordinator = c';
          batch = none;
          stop_core = clear_pending_stops d.stop_core;
          applied_session = session;
        })
        (record { valid = valid; open_batch = ap is_collecting (sym shut) }) (ground arith))

admitted_lem :
    (v : Heapless) (c : Coordinator) (request : OwnedRequest) (busy : Bool) (session now : ℕ)
    (a : Admission) (c' : Coordinator)
    → admit_prepared v busy c request ≡ some (a, c')
    → (l : Option LeaseRefresh) × (admit_runtime_request v c request busy session now
        ≡ some (record { admission = a; lease_refresh = l }, c'))
unfolding admit_runtime_request
admitted_lem v c request busy session now a c' e = (
  if refreshes_v2_lease request.version a
      then some (record { refresh_session = session; observed_at_ms = now })
      else none,
  rw (e, admit_runtime_request) refl,
)

refreshed_work :
    (busy : Bool) (l : Option LeaseRefresh) (outputs : List Output)
    → (busy && sends_work outputs) ≡ false
    → (busy && sends_work (refresh_output l ++ outputs)) ≡ false
refreshed_work busy none outputs q = q
refreshed_work busy (some refresh) outputs q = q

refreshed-Kept :
    (busy : Bool) (l : Option LeaseRefresh) (s : Stepped)
    → Kept busy s
    → Kept busy (with_refresh l s)
refreshed-Kept busy l none h = h
refreshed-Kept busy l (some (outputs, d)) (h, q) = (h, refreshed_work busy l outputs q)

guarded_no_work : (d : Dispatcher) → sends_work (update_guarded d ∷ []) ≡ false
unfolding update_guarded
guarded_no_work d = refl

guarded-Kept : (busy : Bool) (s : Stepped) → Kept busy s → Kept busy (and_guarded s)
guarded-Kept busy none h = h
guarded-Kept busy (some (outputs, d)) (h, q) =
    (h, ground (arith, q, sends_work-append outputs (update_guarded d ∷ []), guarded_no_work d))

-- A request is as the receiver makes it, and a safety event finds generations left for the session.
abbrev pub IsWake : Heapless → Dispatcher → Wake → Type 0
IsWake v d (on_request session now request) = IsReceived v request
IsWake v d (on_result result) = Unit {0}
IsWake v d (on_safety_event session dtr) = ltb (d.coordinator.session_generation + 1) u64_mod ≡ true

module _ (v : Heapless) (laws : IsHeapless v) (d : Dispatcher) (h : IsDispatcher d) where
  abbrev in_flight : Bool
  in_flight = d.stop_core.emergency_in_flight

  request_lem :
      (session now : ℕ) (request : OwnedRequest) (a : Admission) (c' : Coordinator)
      → admit_prepared v in_flight d.coordinator request ≡ some (a, c')
      → (l : Option LeaseRefresh) × (take_current_request v session now request d
          ≡ with_refresh l (dispatch v request a (record d { coordinator = c' })))
  unfolding take_current_request
  request_lem session now request a c' e =
      let (l, same) = admitted_lem v d.coordinator request in_flight session now a c' e in
      (l, rw (same, take_current_request) refl)

  request-Kept :
      (session now : ℕ) (request : OwnedRequest)
      → IsReceived v request
      → Kept in_flight (take_current_request v session now request d)
  request-Kept session now request r =
      elim (Option-cases (admit_prepared v in_flight d.coordinator request)) [
        | inl e ↦ absurd (
            subst IsValidDecision e
              (admitted-IsValid v laws d.coordinator request in_flight h.valid r))
        | inr ((a, c'), e) ↦
            let (l, same) = request_lem session now request a c' e in
            rw (same) (
              refreshed-Kept in_flight l (dispatch v request a (record d { coordinator = c' })) (
                dispatch-Kept v laws in_flight (record d { coordinator = c' }) request
                  d.coordinator.batch_state h.open_batch
                  (subst IsValidDecision e
                    (admitted-IsValid v laws d.coordinator request in_flight h.valid r))
                  a
                  (let (payload, body, kinds) = received-Kinds v request r in
                    subst (Mode in_flight request.command_type d.coordinator) e
                      (admit_prepared-Mode v laws d.coordinator h.valid request in_flight body))))
      ]

  -- A round from a valid dispatcher.
  pub dispatcher_step-Kept :
      (wake : Wake) → IsWake v d wake → Kept in_flight (dispatcher_step v wake d)
  unfolding dispatcher_step
  dispatcher_step-Kept (on_request session now request) r =
      elim (Bool-cases (request.runtime_session == session)) [
        | inl e ↦ rw (e) (
            guarded-Kept in_flight (take_current_request v session now request d)
              (request-Kept session now request r))
        | inr e ↦ rw (e) (h, ground arith)
      ]
  dispatcher_step-Kept (on_result result) r =
      guarded-Kept in_flight (some (take_result v result d)) (
        let (h', q) = result-Quiet v result d h in
        (h', no_work in_flight (take_result v result d).0 q))
  dispatcher_step-Kept (on_safety_event session dtr) fits =
      guarded-Kept in_flight (take_safety_event v session dtr d)
        (event-Kept v in_flight session dtr d fits)
