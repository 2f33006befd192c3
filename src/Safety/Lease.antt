-- ===== src/Safety/Lease.antt =====
-- src/safety.rs: `LeaseState`.
use rp2350_keymouse_bridge_f.Common.{
  ℕ, ◌+◌, ◌<◌, ◌≡◌, arith, Bool, true, false, ◌&&◌, Option, none, some, leb, if◌then◌else◌,
  wrapping_add,
}
use rp2350_keymouse_bridge_f.Safety.{
  u64_half_range, is_valid_duration, deadline_reached, deadline_reached-wrapping_add,
}

pub record LeaseState : Type 0 where
  pub duration_ms : ℕ
  pub deadline_ms : ℕ
  pub armed : Bool

-- `none` is the panic of `assert_valid_duration`.
unfoldable pub new : ℕ → Option LeaseState
new duration_ms =
    if is_valid_duration duration_ms
    then some (record { duration_ms = duration_ms; deadline_ms = 0; armed = false })
    else none

unfoldable pub refresh : LeaseState → ℕ → LeaseState
refresh l now_ms = record l { deadline_ms = wrapping_add now_ms l.duration_ms; armed = true }

unfoldable pub clear : LeaseState → LeaseState
clear l = record l { deadline_ms = 0; armed = false }

-- The accessor `deadline_ms()`.
unfoldable pub active_deadline : LeaseState → Option ℕ
active_deadline l = if l.armed then some l.deadline_ms else none

unfoldable pub should_release : LeaseState → ℕ → Bool → Bool
should_release l now_ms guarded_work =
    guarded_work && (l.armed && deadline_reached now_ms l.deadline_ms)

-- A lease from `new` never asks for a release before it is refreshed. Once refreshed it asks for
-- one exactly when there is guarded work and its whole duration has gone by, on a clock that may
-- wrap, within half the clock's range after the deadline; once cleared it never does.
pub should_release_lem :
    (duration : ℕ) (start elapsed now : ℕ) (guarded : Bool) {l : LeaseState}
    → new duration ≡ some l
    → elapsed < duration + u64_half_range
    → (should_release l now guarded ≡ false)
      × (should_release (refresh l start) (wrapping_add start elapsed) guarded
          ≡ (guarded && leb duration elapsed))
      × (should_release (clear (refresh l start)) now guarded ≡ false)
unfolding new refresh clear should_release
should_release_lem duration start elapsed now guarded e h = (
  ground arith,
  ground (arith, deadline_reached-wrapping_add start duration elapsed),
  ground arith,
)
