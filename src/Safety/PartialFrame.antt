-- ===== src/Safety/PartialFrame.antt =====
-- src/safety.rs: `PartialFrameDeadline`.
use rp2350_keymouse_bridge_f.Common.{
  ℕ, ◌+◌, ◌<◌, ◌≡◌, arith, Bool, true, false, not, ◌&&◌, Option, none, some, leb, ◌==◌,
  if◌then◌else◌, wrapping_add,
}
use rp2350_keymouse_bridge_f.Safety.{
  u64_half_range, is_valid_duration, deadline_reached, deadline_reached-wrapping_add,
}

pub record PartialFrameDeadline : Type 0 where
  pub timeout_ms : ℕ
  pub deadline_ms : ℕ
  pub active : Bool

-- `none` is the panic of `assert_valid_duration`.
unfoldable pub new : ℕ → Option PartialFrameDeadline
new timeout_ms =
    if is_valid_duration timeout_ms
    then some (record { timeout_ms = timeout_ms; deadline_ms = 0; active = false })
    else none

unfoldable pub clear : PartialFrameDeadline → PartialFrameDeadline
clear d = record d { deadline_ms = 0; active = false }

unfoldable pub note_bytes : PartialFrameDeadline → ℕ → ℕ → PartialFrameDeadline
unfolding clear
note_bytes d now_ms unconsumed_len =
    if unconsumed_len == 0
    then clear d
    else record d { deadline_ms = wrapping_add now_ms d.timeout_ms; active = true }

-- The accessor `deadline_ms()`.
unfoldable pub active_deadline : PartialFrameDeadline → Option ℕ
active_deadline d = if d.active then some d.deadline_ms else none

unfoldable pub expired : PartialFrameDeadline → ℕ → Bool
expired d now_ms = d.active && deadline_reached now_ms d.deadline_ms

-- After progress is noted with bytes left over, the deadline expires exactly when the timeout has
-- gone by; after progress that left the buffer empty it never expires.
pub expired-note_bytes :
    (d : PartialFrameDeadline) (start elapsed len : ℕ)
    → d.timeout_ms < u64_half_range
    → elapsed < d.timeout_ms + u64_half_range
    → expired (note_bytes d start len) (wrapping_add start elapsed)
      ≡ (not (len == 0) && leb d.timeout_ms elapsed)
unfolding note_bytes expired
expired-note_bytes d start elapsed len v h =
    ground (arith, deadline_reached-wrapping_add start d.timeout_ms elapsed)
