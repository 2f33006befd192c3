-- ===== src/RuntimeSafety.antt =====
-- src/runtime_safety.rs: the lease refresh of an admission, and the controller lease of a session.
pub mod Refines
mod Tests
use rp2350_keymouse_bridge_f.Common.{
  ℕ, Option, none, some, List, [], ◌∷◌, Bool, true, false, not, ◌&&◌, ◌==◌, if◌then◌else◌,
  wrapping_sub,
}
use rp2350_keymouse_bridge_f.Common.Heapless.{Heapless}
use rp2350_keymouse_bridge_f.Protocol.{protocol_version}
use rp2350_keymouse_bridge_f.Safety.Lease
use rp2350_keymouse_bridge_f.Safety.Lease.{LeaseState, should_release, active_deadline}
use rp2350_keymouse_bridge_f.Errors.{
  ErrorCode, bad_command, frame_too_long, unsupported_version, unsupported_flags, invalid_sequence,
  wait_too_long,
}
use rp2350_keymouse_bridge_f.Coordinator.{
  OwnedRequest, Admission, reject, SafetyEvent, lease_expired,
}
use rp2350_keymouse_bridge_f.Coordinator.Cache.{Coordinator}
use rp2350_keymouse_bridge_f.Coordinator.Admit.{admit_prepared}

pub record LeaseRefresh : Type 0 where
  pub refresh_session : ℕ
  pub observed_at_ms : ℕ

unfoldable pub latest_lease_refresh : LeaseRefresh → Option LeaseRefresh → LeaseRefresh
latest_lease_refresh selected none = selected
latest_lease_refresh selected (some refresh) = refresh

pub record RuntimeAdmission : Type 0 where
  pub admission : Admission
  pub lease_refresh : Option LeaseRefresh

-- The error codes of the `matches!` of `refreshes_v2_lease`.
unfoldable pub is_malformed : ErrorCode → Bool
is_malformed bad_command = true
is_malformed frame_too_long = true
is_malformed unsupported_version = true
is_malformed unsupported_flags = true
is_malformed invalid_sequence = true
is_malformed wait_too_long = true
is_malformed other = false

unfoldable pub is_malformed_reject : Admission → Bool
unfolding is_malformed
is_malformed_reject (reject error) = is_malformed error
is_malformed_reject other = false

unfoldable pub refreshes_v2_lease : ℕ → Admission → Bool
unfolding is_malformed_reject
refreshes_v2_lease version admission =
    version == protocol_version && not (is_malformed_reject admission)

-- `none` is a panic of the admission.
unfoldable pub admit_runtime_request :
    Heapless → Coordinator → OwnedRequest → Bool → ℕ → ℕ → Option (RuntimeAdmission × Coordinator)
unfolding refreshes_v2_lease
admit_runtime_request v c request external_busy runtime_session now_ms =
    elim (admit_prepared v external_busy c request) [
      | none ↦ none
      | some (admission, c') ↦ some (
        record {
          admission = admission;
          lease_refresh =
              if refreshes_v2_lease request.version admission
              then some (record { refresh_session = runtime_session; observed_at_ms = now_ms })
              else none;
        },
        c',
      )
    ]

pub data RuntimeSafetyStep : Type 0 where
  reset_session release_inputs : RuntimeSafetyStep

-- The steps in the order they are applied.
pub record RuntimeSafetyAction : Type 0 where
  pub steps : List RuntimeSafetyStep

unfoldable pub runtime_safety_action : SafetyEvent → RuntimeSafetyAction
runtime_safety_action event = record { steps = reset_session ∷ release_inputs ∷ [] }

pub record RuntimeLease : Type 0 where
  pub lease : LeaseState
  pub armed_session : Option ℕ

-- `RuntimeLease::new`; `none` is the panic of `LeaseState::new`.
unfoldable pub new_runtime_lease : ℕ → Option RuntimeLease
new_runtime_lease duration_ms = elim (Lease.new duration_ms) [
  | none ↦ none
  | some lease ↦ some (record { lease = lease; armed_session = none })
]

unfoldable pub remaining_ms : RuntimeLease → ℕ → Option ℕ
remaining_ms l now_ms = elim (active_deadline l.lease) [
  | none ↦ none
  | some deadline_ms ↦
      if should_release l.lease now_ms true then some 0 else some (wrapping_sub deadline_ms now_ms)
]

unfoldable pub clear_runtime_lease : RuntimeLease → RuntimeLease
clear_runtime_lease l = record { lease = Lease.clear l.lease; armed_session = none }

abbrev pub Transition : Type 0
Transition = Option RuntimeSafetyAction × RuntimeLease

unfoldable pub expire_lease : RuntimeLease → Bool → Transition
unfolding clear_runtime_lease
expire_lease l guarded_work = (
  if guarded_work then some (runtime_safety_action lease_expired) else none,
  clear_runtime_lease l,
)

-- `armed_session == Some(session)`
unfoldable pub is_armed_for : RuntimeLease → ℕ → Bool
is_armed_for l session = elim l.armed_session [ none ↦ false | some armed ↦ armed == session ]

-- A lease armed for another session is cleared.
unfoldable pub disarm_other : RuntimeLease → ℕ → RuntimeLease
unfolding clear_runtime_lease
disarm_other l current_session = elim l.armed_session [
  | none ↦ l
  | some session ↦ if session == current_session then l else clear_runtime_lease l
]

-- The last test of `transition`.
unfoldable pub check_lease : RuntimeLease → ℕ → Bool → Transition
unfolding expire_lease
check_lease l now_ms guarded_work =
    if should_release l.lease now_ms true then expire_lease l guarded_work else (none, l)

unfoldable pub take_refresh : RuntimeLease → ℕ → ℕ → Bool → LeaseRefresh → Transition
unfolding expire_lease check_lease is_armed_for
take_refresh l current_session now_ms guarded_work refresh =
    if not (refresh.refresh_session == current_session)
    then check_lease l now_ms guarded_work
    else if is_armed_for l current_session && should_release l.lease refresh.observed_at_ms true
    then expire_lease l guarded_work
    else check_lease
        (record {
          lease = Lease.refresh l.lease refresh.observed_at_ms;
          armed_session = some current_session;
        })
        now_ms guarded_work

unfoldable pub transition : RuntimeLease → ℕ → ℕ → Bool → Option LeaseRefresh → Transition
unfolding disarm_other check_lease take_refresh
transition l current_session now_ms guarded_work none =
    check_lease (disarm_other l current_session) now_ms guarded_work
transition l current_session now_ms guarded_work (some refresh) =
    take_refresh (disarm_other l current_session) current_session now_ms guarded_work refresh
