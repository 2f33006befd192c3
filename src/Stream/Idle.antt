-- ===== src/Stream/Idle.antt =====
-- src/runtime.rs: the drain loop ends, and where it ends.
use rp2350_keymouse_bridge_f.Common.{
  ℕ, zero, suc, ◌≤◌, ◌<◌, ◌≡◌, refl, ap, arith, List, [], ◌∷◌, none, some, length, drop,
  Option-cases, inl, inr, ◌⊎◌, length-drop, subst, false,
}
use rp2350_keymouse_bridge_f.Protocol.{max_frame_size}
use rp2350_keymouse_bridge_f.Stream.{
  need_more, drop_prefix, reject, process, FrameAction, next_frame_action, FrameBuf, view, IsValid,
}
use rp2350_keymouse_bridge_f.Stream.Drain.{FrameEvent, drain_frames}
use rp2350_keymouse_bridge_f.Stream.View.{drain_view, drain_frames-view, length-view}
use rp2350_keymouse_bridge_f.Stream.Progress.{consumed, is_need_more, next_frame_action-consumed}

-- Nothing can be taken off these bytes before more arrive.
abbrev pub IsIdle : List ℕ → Type 0
IsIdle xs = (next_frame_action xs ≡ none) ⊎ (next_frame_action xs ≡ some need_more)

pub none-eq-nil : (xs : List ℕ) → next_frame_action xs ≡ none → xs ≡ []
unfolding next_frame_action
none-eq-nil [] h = refl
none-eq-nil (x ∷ xs) h = ground arith

pub IsIdle-length : (xs : List ℕ) → IsIdle xs → length xs < max_frame_size
IsIdle-length xs (inl h) = omega (arith, ap length (none-eq-nil xs h))
IsIdle-length xs (inr h) = (next_frame_action-consumed xs h).2 refl

pub drain_view-idle : (fuel : ℕ) (xs : List ℕ) → IsIdle xs → drain_view fuel xs ≡ (xs, [])
drain_view-idle zero xs h = refl
drain_view-idle (suc fuel) xs (inl h) = rw (h, drain_view) refl
drain_view-idle (suc fuel) xs (inr h) = rw (h, drain_view) refl

shorter :
    (xs : List ℕ) {a : FrameAction} {fuel : ℕ}
    → next_frame_action xs ≡ some a
    → is_need_more a ≡ false
    → length xs ≤ suc fuel
    → length (drop (consumed a) xs) ≤ fuel
shorter xs {a} e more h =
    let (_, progress, _) = next_frame_action-consumed xs e in
    omega (arith, progress more, length-drop (consumed a) xs)

pub nil-IsIdle : IsIdle []
unfolding next_frame_action
nil-IsIdle = inl refl

-- Each round takes a byte at least, so the number of bytes is fuel enough.
pub drain_view-IsIdle : (fuel : ℕ) (xs : List ℕ) → length xs ≤ fuel → IsIdle (drain_view fuel xs).0
drain_view-IsIdle zero [] h = nil-IsIdle
drain_view-IsIdle zero (x ∷ xs) h = absurd (omega arith)
drain_view-IsIdle (suc fuel) xs h = elim (Option-cases (next_frame_action xs)) [
  | inl e ↦ rw (e, drain_view) (inl e)
  | inr (need_more, e) ↦ rw (e, drain_view) (inr e)
  | inr (drop_prefix count, e) ↦
      rw (e, drain_view) (drain_view-IsIdle fuel (drop count xs) (shorter xs e refl h))
  | inr (reject len sequence error, e) ↦
      rw (e, drain_view) (drain_view-IsIdle fuel (drop len xs) (shorter xs e refl h))
  | inr (process len, e) ↦
      rw (e, drain_view) (drain_view-IsIdle fuel (drop len xs) (shorter xs e refl h))
]

-- Termination: with as many rounds as there are bytes buffered, the loop of the receiver stops at
-- its own exit, at a state in which nothing more can be taken and there is room for another byte.
pub drain_frames-IsIdle :
    (b : FrameBuf)
    → IsValid b
    → let b' = (drain_frames b.len b).0 in IsValid b' × IsIdle (view b') × (b'.len < max_frame_size)
drain_frames-IsIdle b v =
    let (valid, same) = drain_frames-view b.len b v in
    let idle : IsIdle (view (drain_frames b.len b).0) =
      subst (λ (r : List ℕ × List FrameEvent). IsIdle r.0) same
        (drain_view-IsIdle b.len (view b) (omega (arith, length-view b v))) in
    (
      valid,
      idle,
      omega (
        arith,
        IsIdle-length (view (drain_frames b.len b).0) idle,
        length-view (drain_frames b.len b).0 valid,
      ),
    )
