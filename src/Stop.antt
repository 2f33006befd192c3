-- ===== src/Stop.antt =====
-- src/stop_core.rs: cancellation and the one release that answers the pending stops.
pub mod Coalesce
mod Tests
use rp2350_keymouse_bridge_f.Common.{ℕ, Option, none, some, List, [], ◌∷◌, Bool, true, false, not}
use rp2350_keymouse_bridge_f.Common.Heapless.{Heapless}
use rp2350_keymouse_bridge_f.Safety.Generation
use rp2350_keymouse_bridge_f.Safety.Generation.{CancellationGeneration, cancel}
use rp2350_keymouse_bridge_f.Coordinator.{CompletionToken, OwnedRequest, response_cache_size, kept}

pub record EmergencyAction : Type 0 where
  pub cancel_generation : ℕ
  pub enqueue_emergency : Bool

pub record StopCore : Type 0 where
  pub cancellation : CancellationGeneration
  pub pending_stops : List CompletionToken
  pub emergency_in_flight : Bool

unfoldable pub new : StopCore
new = record { cancellation = Generation.new; pending_stops = []; emergency_in_flight = false }

unfoldable pub current_generation : StopCore → ℕ
current_generation c = c.cancellation.generation

unfoldable pub schedule_emergency : StopCore → EmergencyAction × StopCore
schedule_emergency c =
    let cancelled = cancel c.cancellation in
    (
      record {
        cancel_generation = cancelled.generation;
        enqueue_emergency = not c.emergency_in_flight;
      },
      record c { cancellation = cancelled; emergency_in_flight = true },
    )

module _ (v : Heapless) where
  -- `none` is the panic of a request without a token.
  unfoldable pub handle_stop : StopCore → OwnedRequest → Option (EmergencyAction × StopCore)
  unfolding schedule_emergency
  handle_stop c request = elim request.completion_token [
    | none ↦ none
    | some token ↦ some (
        schedule_emergency (record c {
          pending_stops =
              kept c.pending_stops
                (v.push CompletionToken response_cache_size c.pending_stops token);
        }))
  ]

unfoldable pub complete_emergency : StopCore → List CompletionToken × StopCore
complete_emergency c =
    (c.pending_stops, record c { pending_stops = []; emergency_in_flight = false })

unfoldable pub clear_pending_stops : StopCore → StopCore
clear_pending_stops c = record c { pending_stops = [] }
