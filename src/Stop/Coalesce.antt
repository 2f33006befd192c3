-- ===== src/Stop/Coalesce.antt =====
-- src/stop_core.rs: many stops, one release.
use rp2350_keymouse_bridge_f.Common.{
  ℕ, zero, suc, ◌+◌, ◌≤◌, ◌<◌, ◌≡◌, refl, ◌∙◌, arith, Option, none, some, List, [], ◌∷◌, ◌++◌,
  append_assoc, append-nil, map, Bool, true, not, length, length-append,
}
use rp2350_keymouse_bridge_f.Common.Heapless.{Heapless, IsHeapless}
use rp2350_keymouse_bridge_f.Safety.Generation.{CancellationGeneration, cancel, cancel_times}
use rp2350_keymouse_bridge_f.Coordinator.{CompletionToken, OwnedRequest, response_cache_size}
use rp2350_keymouse_bridge_f.Stop.{
  EmergencyAction, StopCore, schedule_emergency, handle_stop, complete_emergency,
}

-- Stops handled one after the other: the actions asked for, and the core.
pub handle_all : Heapless → List OwnedRequest → StopCore → Option (List EmergencyAction × StopCore)
handle_all v [] c = some ([], c)
handle_all v (r ∷ rs) c = elim (handle_stop v c r) [
  | none ↦ none
  | some (action, c') ↦ elim (handle_all v rs c') [
    | none ↦ none
    | some (actions, c'') ↦ some (action ∷ actions, c'')
  ]
]

-- The actions: each publishes the next generation, and the first alone asks for the release.
pub actions_from : ℕ → Bool → CancellationGeneration → List EmergencyAction
actions_from zero in_flight g = []
actions_from (suc n) in_flight g =
    record { cancel_generation = (cancel g).generation; enqueue_emergency = not in_flight }
    ∷ actions_from n true (cancel g)

abbrev pub stopped : StopCore → List CompletionToken → Bool → ℕ → StopCore
stopped c tokens in_flight n = record {
  cancellation = cancel_times n c.cancellation;
  pending_stops = c.pending_stops ++ tokens;
  emergency_in_flight = in_flight;
}

abbrev pub final_flag : List CompletionToken → Bool → Bool
final_flag [] in_flight = in_flight
final_flag (t ∷ ts) in_flight = true

final_flag-true : (ts : List CompletionToken) → final_flag ts true ≡ true
final_flag-true [] = refl
final_flag-true (t ∷ ts) = refl

abbrev Run : Type 0
Run = Option (List EmergencyAction × StopCore)

abbrev first_then : StopCore → CompletionToken → List CompletionToken → Run
first_then c t ts = some (
  record {
    cancel_generation = (cancel c.cancellation).generation;
    enqueue_emergency = not c.emergency_in_flight;
  }
      ∷ actions_from (length ts) true (cancel c.cancellation),
  record {
    cancellation = cancel_times (length ts) (cancel c.cancellation);
    pending_stops = (c.pending_stops ++ t ∷ []) ++ ts;
    emergency_in_flight = final_flag ts true;
  },
)

abbrev all_at_once : StopCore → CompletionToken → List CompletionToken → Run
all_at_once c t ts = some (
  actions_from (length (t ∷ ts)) c.emergency_in_flight c.cancellation,
  stopped c (t ∷ ts) true (length (t ∷ ts)),
)

same_run :
    (c : StopCore) (t : CompletionToken) (ts : List CompletionToken)
    → first_then c t ts ≡ all_at_once c t ts
unfolding actions_from
same_run c t ts = cc (append_assoc c.pending_stops (t ∷ []) ts, final_flag-true ts)

module _ (v : Heapless) (laws : IsHeapless v) where
  handle_one :
      (c : StopCore) (r : OwnedRequest) (t : CompletionToken)
      → r.completion_token ≡ some t
      → length c.pending_stops < response_cache_size
      → handle_stop v c r
        ≡ some (
          record {
            cancel_generation = (cancel c.cancellation).generation;
            enqueue_emergency = not c.emergency_in_flight;
          },
          record {
            cancellation = cancel c.cancellation;
            pending_stops = c.pending_stops ++ t ∷ [];
            emergency_in_flight = true;
          },
        )
  unfolding handle_stop schedule_emergency
  handle_one c r t e room =
      let pushed = laws.push_room CompletionToken response_cache_size c.pending_stops t room in
      ground (arith, e, pushed)

  empty_run :
      (c : StopCore)
      → handle_all v [] c
        ≡ some (
          actions_from 0 c.emergency_in_flight c.cancellation,
          stopped c [] c.emergency_in_flight 0,
        )
  unfolding handle_all actions_from
  empty_run c = rw (append-nil c.pending_stops)

  handle_step :
      (r : OwnedRequest) (rs : List OwnedRequest) (c c1 c2 : StopCore) (a : EmergencyAction)
      (as_later : List EmergencyAction)
      → handle_stop v c r ≡ some (a, c1)
      → handle_all v rs c1 ≡ some (as_later, c2)
      → handle_all v (r ∷ rs) c ≡ some (a ∷ as_later, c2)
  unfolding handle_all
  handle_step r rs c c1 c2 a as_later e f = ground (arith, e, f)

  handled :
      (rs : List OwnedRequest) (ts : List CompletionToken) (c : StopCore)
      → map (λ (r : OwnedRequest). r.completion_token) rs ≡ map some ts
      → length c.pending_stops + length ts ≤ response_cache_size
      → handle_all v rs c
        ≡ some (
          actions_from (length ts) c.emergency_in_flight c.cancellation,
          stopped c ts (final_flag ts c.emergency_in_flight) (length ts),
        )
  handled [] [] c e room = empty_run c
  handled [] (t ∷ ts) c e room = absurd (cc)
  handled (r ∷ rs) [] c e room = absurd (cc)
  handled (r ∷ rs) (t ∷ ts) c e room =
      let c1 : StopCore = record {
        cancellation = cancel c.cancellation;
        pending_stops = c.pending_stops ++ t ∷ [];
        emergency_in_flight = true;
      } in
      let first = handle_one c r t (cc) (omega arith) in
      let later = handled rs ts c1 (cc) (omega (arith, length-append c.pending_stops (t ∷ []))) in
      handle_step r rs c c1 _ _ _ first later ∙ same_run c t ts

  -- Stops with tokens, at most as many as there is room for: none is lost, in their order, each
  -- publishes a new cancellation generation, and the release is asked for by the first alone, and
  -- only if none was in flight. The completion of that release then yields exactly the tokens.
  pub handle_all_lem :
      (rs : List OwnedRequest) (ts : List CompletionToken) (c : StopCore)
      → map (λ (r : OwnedRequest). r.completion_token) rs ≡ map some ts
      → length c.pending_stops + length ts ≤ response_cache_size
      → (handle_all v rs c
          ≡ some (
            actions_from (length ts) c.emergency_in_flight c.cancellation,
            stopped c ts (final_flag ts c.emergency_in_flight) (length ts),
          ))
        × ((complete_emergency (stopped c ts (final_flag ts c.emergency_in_flight) (length ts))).0
            ≡ c.pending_stops ++ ts)
  unfolding complete_emergency
  handle_all_lem rs ts c e room = (handled rs ts c e room, refl)
