-- ===== src/Runtime/Stale.antt =====
-- src/runtime.rs: what a safety action leaves behind.
use rp2350_keymouse_bridge_f.Common.{
  ℕ, ◌+◌, ◌-◌, ◌%◌, ◌<◌, ◌≡◌, ◌≢◌, refl, sym, ◌∙◌, ap, arith, List, [], ◌∷◌, ◌++◌, length, ==_refl,
  ne→==, Bool, false, u32_mod,
}
use rp2350_keymouse_bridge_f.Coordinator.{CachedResponse, SafetyEvent, response_in_session}
use rp2350_keymouse_bridge_f.RuntimeSafety.{runtime_safety_action}
use rp2350_keymouse_bridge_f.Runtime.Session.{
  advance_session_generation, TaskOutput, signal_request_reset, signal_response_reset,
  send_safety_event, begin_session_reset, apply_safety_steps, apply_runtime_safety_action, is_sent,
}

pub advance_session_generation-ne :
    (session : ℕ)
    → session < u32_mod
    → (advance_session_generation session ≢ session) × (advance_session_generation session ≢ 0)
unfolding advance_session_generation
advance_session_generation-ne session h = (λ e. ground arith, λ e. ground arith)

abbrev pub after_action : SafetyEvent → ℕ → List TaskOutput × ℕ
after_action event session = apply_runtime_safety_action event (runtime_safety_action event) session

-- The sessions go around the nonzero numbers of 32 bits.
advance-cycle :
    (k : ℕ) → advance_session_generation (k % (u32_mod - 1) + 1) ≡ (k + 1) % (u32_mod - 1) + 1
unfolding advance_session_generation
advance-cycle k = ground arith

-- Events one after the other, each from the session that the one before left.
unfoldable pub after_actions : List SafetyEvent → ℕ → List TaskOutput × ℕ
after_actions [] session = ([], session)
after_actions (event ∷ events) session =
    let (outputs, next) = after_action event session in
    let (later, last) = after_actions events next in (outputs ++ later, last)

advance-first :
    (session : ℕ)
    → session < u32_mod
    → advance_session_generation session ≡ session % (u32_mod - 1) + 1
unfolding advance_session_generation
advance-first session h = ground arith

after_action-session :
    (event : SafetyEvent) (session : ℕ)
    → (after_action event session).1 ≡ advance_session_generation session
unfolding apply_runtime_safety_action apply_safety_steps begin_session_reset runtime_safety_action
after_action-session event session = refl

after_actions-cycle :
    (events : List SafetyEvent) (k : ℕ)
    → (after_actions events (k % (u32_mod - 1) + 1)).1 ≡ (k + length events) % (u32_mod - 1) + 1
unfolding after_actions
after_actions-cycle [] k = omega arith
after_actions-cycle (event ∷ events) k =
    ap (λ s. (after_actions events s).1)
      (after_action-session event (k % (u32_mod - 1) + 1) ∙ advance-cycle k)
    ∙ (after_actions-cycle events (k + 1) ∙ omega arith)

after_actions-session :
    (event : SafetyEvent) (events : List SafetyEvent) (session : ℕ)
    → session < u32_mod
    → (after_actions (event ∷ events) session).1 ≡ (session + length events) % (u32_mod - 1) + 1
unfolding after_actions
after_actions-session event events session h =
    ap (λ s. (after_actions events s).1)
      (after_action-session event session ∙ advance-first session h)
    ∙ after_actions-cycle events session

-- From any session of 32 bits, the fail-safe action of a safety event moves to another session that
-- is not zero, stops the reads and the writes of the old one, and only then asks for the release.
-- However many more events follow, each from the session that the one before left, as long as there
-- are fewer than 2^32 - 1 in all, a response that was stamped with the old session is not sent, and
-- one with the last session is sent exactly while DTR is set.
pub apply_runtime_safety_action_lem :
    (event : SafetyEvent) (events : List SafetyEvent) (session : ℕ) (response : CachedResponse)
    (dtr : Bool)
    → session < u32_mod
    → length events + 1 < u32_mod - 1
    → let last = (after_actions (event ∷ events) session).1 in
      ((after_action event session).1 ≢ session)
      × ((after_action event session).1 ≢ 0)
      × ((after_action event session).0
          ≡ signal_request_reset (after_action event session).1
            ∷ signal_response_reset (after_action event session).1
            ∷ send_safety_event event
            ∷ [])
      × (is_sent (response_in_session response session) last dtr ≡ false)
      × (is_sent (response_in_session response last) last dtr ≡ dtr)
unfolding apply_runtime_safety_action apply_safety_steps begin_session_reset runtime_safety_action
    is_sent response_in_session
apply_runtime_safety_action_lem event events session response dtr h few =
    let (moved, nonzero) = advance_session_generation-ne session h in
    let reached = after_actions-session event events session h in
    let other : (after_actions (event ∷ events) session).1 ≢ session =
      λ same. omega (arith, reached, same) in
    (
      moved,
      nonzero,
      refl,
      rw (ne→== session _ (λ same. other (sym same))) refl,
      rw (==_refl (after_actions (event ∷ events) session).1) refl,
    )
