-- ===== src/Runtime/Open/Work.antt =====
-- src/runtime.rs: the dispatch of each kind of admission keeps the dispatcher valid.
use rp2350_keymouse_bridge_f.Common.{
  ◌≡◌, refl, sym, arith, inl, inr, Option, none, some, is_some, List, [], ◌∷◌, Bool, true, false,
  Bool-cases, Option-cases, Result, ok, err, ℕ, ◌∙◌, length, ◌≤◌,
}
use rp2350_keymouse_bridge_f.Common.Heapless.{Heapless, IsHeapless}
use rp2350_keymouse_bridge_f.Protocol.{CommandType}
use rp2350_keymouse_bridge_f.Batch.{BatchCollector, BatchError}
use rp2350_keymouse_bridge_f.Coordinator.{
  CachedResponse, CompletionToken, OwnedRequest, token_ack, max_response_payload,
}
use rp2350_keymouse_bridge_f.Coordinator.Cache.{complete, abort_batch}
use rp2350_keymouse_bridge_f.Coordinator.Insert.{IsCoordinator}
use rp2350_keymouse_bridge_f.Stop.{StopCore, EmergencyAction, handle_stop}
use rp2350_keymouse_bridge_f.Execution.{info_payload, capability_payload}
use rp2350_keymouse_bridge_f.Runtime.{
  Dispatcher, completed_or, is_batch_end, queue_response, apply_emergency_action, dispatch_batch,
  dispatch_execute, collect_body, answer_collected, dispatch_collect, status, bypass_response,
  complete_bypass, dispatch_stop, token_nack, batch_error_code,
}
use rp2350_keymouse_bridge_f.Runtime.Mode.{is_collecting}
use rp2350_keymouse_bridge_f.Runtime.Received.{completed_or-IsCoordinator}
use rp2350_keymouse_bridge_f.Runtime.Open.{
  IsDispatcher, Kept, no_work, queue_no_work, closed_batch, then_release-Kept,
  aborted-IsCoordinator,
}

module _ (v : Heapless) (laws : IsHeapless v) (busy : Bool) (d : Dispatcher)
    (valid : IsCoordinator d.coordinator) where
  batch-Kept :
      (batch : Option BatchCollector) (r : OwnedRequest)
      → is_some batch ≡ true
      → is_collecting d.coordinator.batch_state ≡ false
      → busy ≡ false
      → Kept busy (dispatch_batch v batch r d)
  unfolding dispatch_batch
  batch-Kept none r e closed free = absurd (cc)
  batch-Kept (some collected) r e closed free =
      (closed_batch d d.coordinator valid closed, rw (free) refl)

  pub execute-Kept :
      (t : CommandType) (r : OwnedRequest)
      → is_some d.batch ≡ is_batch_end t
      → is_collecting d.coordinator.batch_state ≡ false
      → busy ≡ false
      → Kept busy (dispatch_execute v t r d)
  unfolding dispatch_execute
  execute-Kept t r e closed free = elim (Bool-cases (is_batch_end t)) [
    | inl h ↦ rw (h) (batch-Kept d.batch r (e ∙ h) closed free)
    | inr h ↦ rw (h) (record { valid = valid; open_batch = e ∙ (h ∙ sym closed) }, rw (free) refl)
  ]

  pub answer-Kept :
      (t : CompletionToken) (r : Result BatchError BatchCollector)
      → is_collecting d.coordinator.batch_state ≡ true
      → Kept busy (some (answer_collected v t r d))
  unfolding answer_collected
  answer-Kept t (ok collector) e =
      let (ok_c, same) = completed_or-IsCoordinator d.coordinator t (token_ack t) valid in
      (
        record { valid = ok_c; open_batch = sym (same ∙ e) },
        no_work busy (queue_response d (token_ack t) ∷ []) (queue_no_work d (token_ack t) []),
      )
  answer-Kept t (err error) e =
      let response = token_nack v t (batch_error_code error) in
      let aborted = abort_batch d.coordinator in
      let (valid', shut) = aborted-IsCoordinator d.coordinator valid in
      let (ok_c, same) = completed_or-IsCoordinator aborted t response valid' in
      then_release-Kept busy (queue_response d response ∷ [])
        (record d {
          coordinator = completed_or aborted (complete aborted t response);
          batch = none;
        })
        (closed_batch d (completed_or aborted (complete aborted t response)) ok_c (same ∙ shut))
        (queue_no_work d response [])

  pub collect_lem :
      (r : OwnedRequest) (t : CompletionToken)
      → r.completion_token ≡ some t
      → dispatch_collect v r d ≡ some (answer_collected v t (collect_body v r.body d.batch) d)
  unfolding dispatch_collect
  collect_lem r t e = rw (e) refl

  handle_stop-some :
      (c : StopCore) (r : OwnedRequest) (t : CompletionToken)
      → r.completion_token ≡ some t
      → handle_stop v c r ≡ none
      → ⊥
  unfolding handle_stop
  handle_stop-some c r t e h = ground (arith, e, h)

  pub stop_lem :
      (r : OwnedRequest) (t : CompletionToken)
      → r.completion_token ≡ some t
      → (a : EmergencyAction) × (core : StopCore) × (dispatch_stop v r d
          ≡ some (apply_emergency_action a, record d { batch = none; stop_core = core }))
  unfolding dispatch_stop
  stop_lem r t e = elim (Option-cases (handle_stop v d.stop_core r)) [
    | inl h ↦ absurd (handle_stop-some d.stop_core r t e h)
    | inr ((a, core), h) ↦ (a, core, rw (h, dispatch_stop) refl)
  ]

status_fits :
    (v : Heapless) (laws : IsHeapless v) (version sequence : ℕ) (payload : List ℕ)
    → length payload ≤ max_response_payload
    → (r : CachedResponse) × (status v version sequence payload ≡ some r)
unfolding status
status_fits v laws version sequence payload fits = (
  record {
    version = version;
    sequence = sequence;
    command_type = CommandType.status;
    payload = payload;
    runtime_session = 0;
  },
  rw (laws.extend_room ℕ max_response_payload [] payload (omega (arith, fits)), status) refl,
)

bypass_fits :
    (v : Heapless) (laws : IsHeapless v) (t : CommandType) (r : OwnedRequest)
    (token : CompletionToken)
    → (response : CachedResponse) × (bypass_response v t r token ≡ some response)
unfolding bypass_response info_payload capability_payload
bypass_fits v laws CommandType.get_info r token =
    status_fits v laws token.version token.sequence info_payload (omega arith)
bypass_fits v laws CommandType.get_caps r token =
    status_fits v laws token.version token.sequence (capability_payload r.version) (omega arith)
bypass_fits v laws _ r token = (token_ack token, refl)

module _ (v : Heapless) (laws : IsHeapless v) (busy : Bool) (d : Dispatcher)
    (same : IsDispatcher d) where
  bypass_lem :
      (r : OwnedRequest) (t : CompletionToken) (response : CachedResponse)
      → r.completion_token ≡ some t
      → bypass_response v r.command_type r t ≡ some response
      → complete_bypass v r d
        ≡ some (
          queue_response d response ∷ [],
          record d { coordinator = completed_or d.coordinator (complete d.coordinator t response) },
        )
  unfolding complete_bypass
  bypass_lem r t response e h = ground (arith, e, h)

  pub bypass-Kept :
      (r : OwnedRequest) (t : CompletionToken)
      → r.completion_token ≡ some t
      → Kept busy (complete_bypass v r d)
  bypass-Kept r t e =
      let (response, h) = bypass_fits v laws r.command_type r t in
      let (ok_c, kept) = completed_or-IsCoordinator d.coordinator t response same.valid in
      rw (bypass_lem r t response e h) (
        record { valid = ok_c; open_batch = same.open_batch ∙ sym kept },
        no_work busy (queue_response d response ∷ []) (queue_no_work d response []),
      )

  pub queued-Kept :
      (response : CachedResponse) → Kept busy (some (queue_response d response ∷ [], d))
  queued-Kept response =
      (same, no_work busy (queue_response d response ∷ []) (queue_no_work d response []))
