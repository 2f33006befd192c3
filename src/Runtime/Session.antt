-- ===== src/Runtime/Session.antt =====
-- src/runtime.rs: the session's generation, the lease and DTR tasks, and the writer of responses.
use rp2350_keymouse_bridge_f.Common.{
  ℕ, ◌+◌, ◌%◌, Option, none, some, List, [], ◌∷◌, ◌++◌, Bool, not, ◌&&◌, ◌==◌, if◌then◌else◌,
  u32_mod, Result, ok, err, take, replicate,
}
use rp2350_keymouse_bridge_f.Protocol.{EncodeError, max_frame_size}
use rp2350_keymouse_bridge_f.Protocol.Codec.{encode_frame}
use rp2350_keymouse_bridge_f.Coordinator.{CachedResponse, SafetyEvent, dtr_lost, lease_expired}
use rp2350_keymouse_bridge_f.RuntimeSafety.{
  LeaseRefresh, latest_lease_refresh, RuntimeSafetyStep, reset_session, release_inputs,
  RuntimeSafetyAction, runtime_safety_action, RuntimeLease, transition,
}

unfoldable pub advance_session_generation : ℕ → ℕ
advance_session_generation current =
    let next = (current + 1) % u32_mod in if next == 0 then 1 else next

-- What the tasks beside the dispatcher do to the shared channels and signals.
pub data TaskOutput : Type 0 where
  signal_request_reset signal_response_reset : ℕ → TaskOutput
  send_safety_event : SafetyEvent → TaskOutput
  store_dtr : Bool → TaskOutput

-- The session afterwards.
unfoldable pub begin_session_reset : ℕ → List TaskOutput × ℕ
unfolding advance_session_generation
begin_session_reset session =
    let next = advance_session_generation session in
    (signal_request_reset next ∷ signal_response_reset next ∷ [], next)

unfoldable pub apply_safety_steps : SafetyEvent → List RuntimeSafetyStep → ℕ → List TaskOutput × ℕ
unfolding begin_session_reset
apply_safety_steps event [] session = ([], session)
apply_safety_steps event (reset_session ∷ steps) session =
    let (outputs, next) = begin_session_reset session in
    let (later, last) = apply_safety_steps event steps next in (outputs ++ later, last)
apply_safety_steps event (release_inputs ∷ steps) session =
    let (later, last) = apply_safety_steps event steps session in
    (send_safety_event event ∷ later, last)

unfoldable pub apply_runtime_safety_action :
    SafetyEvent → RuntimeSafetyAction → ℕ → List TaskOutput × ℕ
unfolding apply_safety_steps
apply_runtime_safety_action event action session = apply_safety_steps event action.steps session

-- The first lines of `cdc_control_task`, before its loop.
unfoldable pub start_control : Bool → ℕ → ℕ → List TaskOutput
start_control dtr applied_session session =
    store_dtr dtr
    ∷ (if dtr && (applied_session == session) then signal_request_reset session ∷ [] else [])

abbrev pub then_tasks : List TaskOutput → List TaskOutput × ℕ → List TaskOutput × ℕ
then_tasks outputs (later, session) = (outputs ++ later, session)

-- One round of `cdc_control_task` after a change of the control lines.
unfoldable pub control_changed : Bool → Bool → ℕ → ℕ → List TaskOutput × ℕ
unfolding apply_runtime_safety_action runtime_safety_action
control_changed previous_dtr dtr applied_session session =
    if previous_dtr && not dtr
    then then_tasks (store_dtr dtr ∷ [])
        (apply_runtime_safety_action dtr_lost (runtime_safety_action dtr_lost) session)
    else if not previous_dtr && (dtr && (applied_session == session))
    then (store_dtr dtr ∷ signal_request_reset session ∷ [], session)
    else (store_dtr dtr ∷ [], session)

-- What `lease_task` reads for one transition.
pub record LeaseInputs : Type 0 where
  pub session : ℕ
  pub now_ms : ℕ
  pub guarded_work : Bool

abbrev pub after_transition :
    Option RuntimeSafetyAction × RuntimeLease → ℕ → List TaskOutput × ℕ × RuntimeLease
after_transition (none, lease) session = ([], session, lease)
after_transition (some action, lease) session =
    let (outputs, next) = apply_runtime_safety_action lease_expired action session in
    (outputs, next, lease)

-- A transition of `lease_task` with what it applies.
unfoldable pub lease_step :
    LeaseInputs → Option LeaseRefresh → RuntimeLease → List TaskOutput × ℕ × RuntimeLease
unfolding transition apply_runtime_safety_action
lease_step i refresh lease =
    after_transition (transition lease i.session i.now_ms i.guarded_work refresh) i.session

-- The refresh that a wait gives: the one it was woken by unless a newer one is queued, or after the
-- timer the queued one.
unfoldable pub pending_refresh : Option LeaseRefresh → Option LeaseRefresh → Option LeaseRefresh
unfolding latest_lease_refresh
pending_refresh none queued = queued
pending_refresh (some selected) queued = some (latest_lease_refresh selected queued)

-- Whether `response_task` sends a response that it took from the queue.
unfoldable pub is_sent : CachedResponse → ℕ → Bool → Bool
is_sent response session dtr = (response.runtime_session == session) && dtr

-- src/response_writer.rs: what the encoder gives as a packet, or `none` for `BufferOverflow`.
abbrev pub packet_of : List ℕ × Result EncodeError ℕ → Option (List ℕ)
packet_of (out, err e) = none
packet_of (out, ok len) = some (take len out)

unfoldable pub response_packet : CachedResponse → Option (List ℕ)
unfolding encode_frame
response_packet r =
    packet_of
      (encode_frame r.version r.sequence r.command_type r.payload (replicate max_frame_size 0))
