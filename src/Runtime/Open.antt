-- ===== src/Runtime/Open.antt =====
-- src/runtime.rs: the dispatcher's batch is the coordinator's, and a release excludes other work.
pub mod Work
pub mod Dispatch
use rp2350_keymouse_bridge_f.Common.{
  ◌≡◌, refl, sym, ap, arith, inl, inr, Option, none, some, is_some, List, [], ◌∷◌, ◌++◌, Bool, true,
  false, Bool-cases, Option-cases, Result, ok, err, ℕ, ◌&&◌, ◌||◌, ◌∙◌, length, ◌≤◌,
}
use rp2350_keymouse_bridge_f.Common.Heapless.{Heapless, IsHeapless}
use rp2350_keymouse_bridge_f.Protocol.{CommandType}
use rp2350_keymouse_bridge_f.Batch.{BatchCollector, BatchError}
use rp2350_keymouse_bridge_f.Coordinator
use rp2350_keymouse_bridge_f.Coordinator.{
  nack, CachedResponse, CompletionToken, OwnedRequest, OwnedRequestBody, raw, command, batch_begin,
  batch_end, token_ack, max_response_payload, Admission, execute, collect, bypass, no_response,
  stop, replay, immediate, busy_with, reject,
}
use rp2350_keymouse_bridge_f.Coordinator.Cache.{BatchState, Coordinator, complete, abort_batch}
use rp2350_keymouse_bridge_f.Coordinator.Insert.{IsCoordinator}
use rp2350_keymouse_bridge_f.Stop.{StopCore, EmergencyAction, handle_stop, schedule_emergency}
use rp2350_keymouse_bridge_f.Execution.{info_payload, capability_payload}
use rp2350_keymouse_bridge_f.Runtime.{
  emergency, Output, send_job, Dispatcher, Stepped, completed_or, is_batch_end, queue_response,
  apply_emergency_action, then_release, dispatch_batch, dispatch_execute, collect_body,
  answer_collected, dispatch_collect, status, bypass_response, complete_bypass, dispatch_stop,
  dispatch, token_nack, batch_error_code, busy_retry_ms,
}
use rp2350_keymouse_bridge_f.Runtime.Mode.{is_collecting, ExecuteMode, ModeOf, abort-is_collecting}
use rp2350_keymouse_bridge_f.Runtime.Received.{completed_or-IsCoordinator}

pub record IsDispatcher (d : Dispatcher) : Type 0 where
  pub valid : IsCoordinator d.coordinator
  pub open_batch : is_some d.batch ≡ is_collecting d.coordinator.batch_state

-- Work other than a release.
abbrev pub is_work : Output → Bool
is_work (send_job emergency) = false
is_work (send_job job) = true
is_work other = false

abbrev pub sends_work : List Output → Bool
sends_work [] = false
sends_work (o ∷ os) = is_work o || sends_work os

-- No panic, a valid dispatcher, and no work while a release is on its way.
abbrev pub Kept : Bool → Stepped → Type 0
Kept busy none = ⊥
Kept busy (some (outputs, d)) = IsDispatcher d × ((busy && sends_work outputs) ≡ false)

pub sends_work-append :
    (xs ys : List Output) → sends_work (xs ++ ys) ≡ (sends_work xs || sends_work ys)
sends_work-append [] ys = refl
sends_work-append (x ∷ xs) ys = ground (arith, sends_work-append xs ys)

pub no_work :
    (busy : Bool) (outputs : List Output)
    → sends_work outputs ≡ false
    → (busy && sends_work outputs) ≡ false
no_work busy outputs e = ground (arith, e)

pub release_no_work : (a : EmergencyAction) → sends_work (apply_emergency_action a) ≡ false
unfolding apply_emergency_action
release_no_work a = ground arith

pub queue_no_work :
    (d : Dispatcher) (r : CachedResponse) (os : List Output)
    → sends_work (queue_response d r ∷ os) ≡ sends_work os
unfolding queue_response
queue_no_work d r os = refl

pub closed_batch :
    (d : Dispatcher) (c : Coordinator)
    → IsCoordinator c
    → is_collecting c.batch_state ≡ false
    → IsDispatcher (record d { coordinator = c; batch = none })
closed_batch d c valid e = record { valid = valid; open_batch = sym e }

pub then_release-Kept :
    (busy : Bool) (outputs : List Output) (d : Dispatcher)
    → IsDispatcher d
    → sends_work outputs ≡ false
    → Kept busy (some (then_release outputs d))
unfolding then_release
then_release-Kept busy outputs d ok_d e = (
  record { valid = ok_d.valid; open_batch = ok_d.open_batch },
  ground (
    arith,
    e,
    sends_work-append outputs (apply_emergency_action (schedule_emergency d.stop_core).0),
    release_no_work (schedule_emergency d.stop_core).0,
  ),
)

pub aborted-IsCoordinator :
    (c : Coordinator)
    → IsCoordinator c
    → IsCoordinator (abort_batch c) × (is_collecting (abort_batch c).batch_state ≡ false)
unfolding abort_batch
aborted-IsCoordinator c valid =
    (record { few = valid.few; below = valid.below }, abort-is_collecting c.batch_state)
