-- ===== src/Stream/Timeout.antt =====
-- src/frame_stream.rs: the timer of a partial frame.
use rp2350_keymouse_bridge_f.Common.{
  ℕ, ◌+◌, ◌-◌, ◌<◌, ◌≡◌, arith, Bool, true, false, Option, none, some, leb, if◌then◌else◌,
  wrapping_sub, wrapping_add,
}
use rp2350_keymouse_bridge_f.Safety.{u64_half_range, deadline_reached-wrapping_add}
use rp2350_keymouse_bridge_f.Safety.PartialFrame
use rp2350_keymouse_bridge_f.Safety.PartialFrame.{PartialFrameDeadline}

pub record PartialFrameTimeout : Type 0 where
  pub deadline : PartialFrameDeadline

-- `none` is the panic of the deadline's constructor.
unfoldable pub new : ℕ → Option PartialFrameTimeout
new timeout_ms = elim (PartialFrame.new timeout_ms) [
  | none ↦ none
  | some d ↦ some (record { deadline = d })
]

-- The buffered length and the deadline after the call, and what it returns.
unfoldable pub clear_expired_partial :
    ℕ → PartialFrameDeadline → ℕ → ℕ × PartialFrameDeadline × Bool
clear_expired_partial len deadline now_ms =
    if PartialFrame.expired deadline now_ms
    then (0, PartialFrame.clear deadline, true)
    else (len, deadline, false)

unfoldable pub note_progress : PartialFrameTimeout → ℕ → ℕ → PartialFrameTimeout
note_progress t now_ms unconsumed_len = record {
  deadline = PartialFrame.note_bytes t.deadline now_ms unconsumed_len;
}

unfoldable pub expire : PartialFrameTimeout → ℕ → ℕ → PartialFrameTimeout × ℕ × Bool
unfolding clear_expired_partial
expire t now_ms len =
    let (len', deadline, expired) = clear_expired_partial len t.deadline now_ms in
    (record { deadline = deadline }, len', expired)

-- The buffered length is reset to zero as well.
unfoldable pub reset : PartialFrameTimeout → PartialFrameTimeout
reset t = record { deadline = PartialFrame.clear t.deadline }

unfoldable pub is_active : PartialFrameTimeout → Bool
is_active t = t.deadline.active

unfoldable pub remaining_ms : PartialFrameTimeout → ℕ → Option ℕ
remaining_ms t now_ms = elim (PartialFrame.active_deadline t.deadline) [
  | none ↦ none
  | some deadline_ms ↦
      if PartialFrame.expired t.deadline now_ms
      then some 0
      else some (wrapping_sub deadline_ms now_ms)
]

-- After progress that left bytes in the buffer, the receiver's two views of the timer agree at
-- every instant up to half the clock's range past the deadline: the time remaining is what is left
-- of the timeout, and the buffer is dropped and the timer stopped exactly when nothing remains.
pub remaining_ms-expire :
    (t : PartialFrameTimeout) (start elapsed len : ℕ)
    → t.deadline.timeout_ms < u64_half_range
    → elapsed < t.deadline.timeout_ms + u64_half_range
    → 0 < len
    → let t' = note_progress t start len in
      let now = wrapping_add start elapsed in
      (remaining_ms t' now ≡ some (t.deadline.timeout_ms - elapsed))
      × (expire t' now len
          ≡ (if leb t.deadline.timeout_ms elapsed then (reset t', 0, true) else (t', len, false)))
unfolding note_progress remaining_ms expire reset PartialFrame.expired PartialFrame.note_bytes
    PartialFrame.clear PartialFrame.active_deadline
remaining_ms-expire t start elapsed len v h pos =
    let reached = deadline_reached-wrapping_add start t.deadline.timeout_ms elapsed v h in
    (ground arith, ground arith)
