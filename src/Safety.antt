-- ===== src/Safety.antt =====
-- src/safety.rs: deadlines on a wrapping `u64` clock, and cancellation generations.
pub mod Lease
pub mod PartialFrame
pub mod Generation
pub mod Observation
mod Tests
use rp2350_keymouse_bridge_f.Common.{
  ℕ, ◌+◌, ◌%◌, ◌*◌, ◌≤◌, ◌<◌, ◌≡◌, Bool, ◌&&◌, arith, ltb, leb, wrapping_add, wrapping_sub, u64_mod,
}

abbrev pub u64_half_range : ℕ
u64_half_range = 9223372036854775808

abbrev pub partial_frame_timeout_ms : ℕ
partial_frame_timeout_ms = 250

abbrev pub control_lease_ms : ℕ
control_lease_ms = 2000

-- The `assert!` of the constructors.
abbrev pub is_valid_duration : ℕ → Bool
is_valid_duration duration_ms = ltb 0 duration_ms && ltb duration_ms u64_half_range

unfoldable pub deadline_reached : ℕ → ℕ → Bool
deadline_reached now_ms deadline_ms = ltb (wrapping_sub now_ms deadline_ms) u64_half_range

-- On a clock that wraps, a deadline set `duration` after `start` is reached after `elapsed` exactly
-- when `duration` has gone by, as long as it is looked at within half the range of the clock.
pub deadline_reached-wrapping_add :
    (start duration elapsed : ℕ)
    → duration < u64_half_range
    → elapsed < duration + u64_half_range
    → deadline_reached (wrapping_add start elapsed) (wrapping_add start duration)
      ≡ leb duration elapsed
unfolding deadline_reached
deadline_reached-wrapping_add start duration elapsed d e = ground arith
