-- ===== src/Runtime/Open/Dispatch.antt =====
-- src/runtime.rs: every dispatch keeps the dispatcher valid.
use rp2350_keymouse_bridge_f.Common.{◌≡◌, sym, ap, arith, is_some, [], ◌∷◌, Bool, true, false, ◌∙◌}
use rp2350_keymouse_bridge_f.Common.Heapless.{Heapless, IsHeapless}
use rp2350_keymouse_bridge_f.Coordinator
use rp2350_keymouse_bridge_f.Coordinator.{
  nack, CachedResponse, CompletionToken, OwnedRequest, OwnedRequestBody, raw, command, batch_begin,
  batch_end, token_ack, max_response_payload, Admission, execute, collect, bypass, no_response,
  stop, replay, immediate, busy_with, reject,
}
use rp2350_keymouse_bridge_f.Coordinator.Cache.{BatchState}
use rp2350_keymouse_bridge_f.Coordinator.Insert.{IsCoordinator}
use rp2350_keymouse_bridge_f.Runtime.{
  Dispatcher, is_batch_end, queue_response, apply_emergency_action, collect_body, dispatch,
  busy_retry_ms,
}
use rp2350_keymouse_bridge_f.Runtime.Mode.{is_collecting, ExecuteMode, ModeOf}
use rp2350_keymouse_bridge_f.Runtime.Open.{
  IsDispatcher, Kept, no_work, release_no_work, queue_no_work,
}
use rp2350_keymouse_bridge_f.Runtime.Open.Work.{
  execute-Kept, answer-Kept, collect_lem, stop_lem, bypass-Kept, queued-Kept,
}

ExecuteMode-states :
    (b : Bool) (before after : BatchState)
    → ExecuteMode b before after
    → (is_collecting before ≡ b) × (is_collecting after ≡ false)
ExecuteMode-states true before after h = h
ExecuteMode-states false before after h = h

-- The dispatch of what the admission of a request gave.
module _ (v : Heapless) (laws : IsHeapless v) (busy : Bool) (d : Dispatcher) (from : OwnedRequest)
    (before : BatchState) (was : is_some d.batch ≡ is_collecting before)
    (valid : IsCoordinator d.coordinator) where
  unchanged : d.coordinator.batch_state ≡ before → IsDispatcher d
  unchanged e = record { valid = valid; open_batch = was ∙ ap is_collecting (sym e) }

  pub dispatch-Kept :
      (a : Admission)
      → ModeOf busy from.command_type before a d.coordinator.batch_state
      → Kept busy (dispatch v from a d)
  unfolding dispatch
  dispatch-Kept (execute r) (free, tagged, mode) =
      let (ends, shut) =
        ExecuteMode-states (is_batch_end from.command_type) before d.coordinator.batch_state mode in
      execute-Kept v laws busy d valid from.command_type r (was ∙ ends) shut free
  dispatch-Kept (collect r) (free, (t, e), body, opened, same) =
      rw (collect_lem v laws busy d valid r t e) (
        answer-Kept v laws busy d valid t (collect_body v r.body d.batch)
          (ap is_collecting same ∙ opened))
  dispatch-Kept (bypass r) ((t, e), same) = bypass-Kept v laws busy d (unchanged same) r t e
  dispatch-Kept (no_response r) same = (unchanged same, ground arith)
  dispatch-Kept (stop r) ((t, e), shut) =
      let (a, core, same) = stop_lem v laws busy d valid r t e in
      rw (same) (
        record { valid = valid; open_batch = sym shut },
        no_work busy (apply_emergency_action a) (release_no_work a),
      )
  dispatch-Kept (replay response) same = queued-Kept v laws busy d (unchanged same) response
  dispatch-Kept (immediate response) opened = (
    record { valid = valid; open_batch = sym opened },
    no_work busy (queue_response d response ∷ []) (queue_no_work d response []),
  )
  dispatch-Kept (busy_with reason) same =
      queued-Kept v laws busy d (unchanged same)
        (Coordinator.busy v from.version from.sequence reason busy_retry_ms)
  dispatch-Kept (reject error) same =
      queued-Kept v laws busy d (unchanged same) (nack v from.version from.sequence error)
