-- ===== src/Coordinator/Admit.antt =====
-- src/coordinator.rs: the admission of a request.
use rp2350_keymouse_bridge_f.Common.{
  ℕ, Option, none, some, is_some, List, Bool, true, false, not, ◌==◌, if◌then◌else◌, Result, ok,
  err,
}
use rp2350_keymouse_bridge_f.Common.Heapless.{Heapless}
use rp2350_keymouse_bridge_f.Protocol.{Frame, RequestKind, response_expected, no_response_heartbeat}
use rp2350_keymouse_bridge_f.Commands.{CommandError}
use rp2350_keymouse_bridge_f.Errors.{from_command, sequence_conflict, batch_state}
use rp2350_keymouse_bridge_f.Coordinator.{
  token_ack, OwnedRequest, OwnedRequestBody, raw, request_from_frame, own_request_body, Admission,
  execute, collect, bypass, no_response, stop, replay, immediate, busy_with, reject,
  active_duplicate, batch_executing, executor_occupied, RequestClass, class_batch_begin,
  class_batch_end, class_stop_all, class_bypass, class_mutating, classify_request,
}
use rp2350_keymouse_bridge_f.Coordinator.Cache.{
  active, completed, CacheEntry, BatchState, idle, collecting, executing, Coordinator,
  find_sequence, abort_collecting, Inserted, insert_active, complete,
}

-- A decision and the coordinator afterwards; `none` is a panic.
abbrev pub Decision : Type 0
Decision = Option (Admission × Coordinator)

module _ (v : Heapless) where
  -- Once a request is inserted, with the answer where it is not.
  abbrev pub when_inserted : Inserted → (Inserted → Decision) → Decision
  when_inserted i f = if i.inserted then f i else some (busy_with executor_occupied, i.coordinator)

  -- The open batch, its BEGIN completed at once with its ACK.
  unfoldable pub open_batch : Inserted → Decision
  open_batch i = elim i.request.completion_token [
    | none ↦ none
    | some token ↦
        let opened = record i.coordinator { batch_state = collecting } in
        some (
          immediate (token_ack token),
          elim (complete opened token (token_ack token)) [ err e ↦ opened | ok c ↦ c ],
        )
  ]

  unfoldable pub begin_idle : BatchState → Coordinator → OwnedRequest → Decision
  unfolding open_batch
  begin_idle idle c request =
      if is_some c.executor_owner
      then some (busy_with executor_occupied, c)
      else when_inserted (insert_active v c request false) open_batch
  begin_idle other c request = some (reject batch_state, c)

  unfoldable pub admit_batch_begin : Coordinator → OwnedRequest → Decision
  unfolding begin_idle
  admit_batch_begin c request = begin_idle c.batch_state c request

  unfoldable pub own_batch : Inserted → Decision
  own_batch i = elim i.request.completion_token [
    | none ↦ none
    | some owner ↦ some (execute i.request, record i.coordinator { batch_state = executing owner })
  ]

  unfoldable pub end_collecting : BatchState → Coordinator → OwnedRequest → Decision
  unfolding own_batch
  end_collecting collecting c request = when_inserted (insert_active v c request false) own_batch
  end_collecting other c request = some (reject batch_state, c)

  unfoldable pub admit_batch_end : Coordinator → OwnedRequest → Decision
  unfolding end_collecting
  admit_batch_end c request = end_collecting c.batch_state c request

  unfoldable pub bypass_kind : RequestKind → Coordinator → OwnedRequest → Decision
  bypass_kind no_response_heartbeat c request = some (no_response request, c)
  bypass_kind response_expected c request =
      when_inserted (insert_active v c request false) (λ i. some (bypass i.request, i.coordinator))

  unfoldable pub admit_bypass : Coordinator → OwnedRequest → Decision
  unfolding bypass_kind
  admit_bypass c request = bypass_kind request.request_kind c request

  unfoldable pub admit_stop : Coordinator → OwnedRequest → Decision
  unfolding abort_collecting
  admit_stop c request = when_inserted (insert_active v c request true) (λ i. some (
    stop i.request,
    record i.coordinator { batch_state = abort_collecting i.coordinator.batch_state },
  ))

  unfoldable pub mutate_in : BatchState → Coordinator → OwnedRequest → Decision
  mutate_in (executing owner) c request = some (busy_with batch_executing, c)
  mutate_in collecting c request =
      when_inserted (insert_active v c request false) (λ i. some (collect i.request, i.coordinator))
  mutate_in idle c request =
      if is_some c.executor_owner
      then some (busy_with executor_occupied, c)
      else when_inserted (insert_active v c request false) (λ i.
        some
          (execute i.request, record i.coordinator { executor_owner = i.request.completion_token }))

  unfoldable pub admit_mutating : Coordinator → OwnedRequest → Decision
  unfolding mutate_in
  admit_mutating c request = mutate_in c.batch_state c request

  -- `external_busy` refuses every class but STOP_ALL and the bypass.
  unfoldable pub admit_class : RequestClass → Bool → Coordinator → OwnedRequest → Decision
  unfolding admit_batch_begin admit_batch_end admit_stop admit_bypass admit_mutating
  admit_class class_batch_begin external_busy c request =
      if external_busy then some (busy_with executor_occupied, c) else admit_batch_begin c request
  admit_class class_batch_end external_busy c request =
      if external_busy then some (busy_with executor_occupied, c) else admit_batch_end c request
  admit_class class_mutating external_busy c request =
      if external_busy then some (busy_with executor_occupied, c) else admit_mutating c request
  admit_class class_stop_all external_busy c request = admit_stop c request
  admit_class class_bypass external_busy c request = admit_bypass c request

  -- The frame that a request's raw body came from.
  abbrev pub request_frame : OwnedRequest → List ℕ → Frame
  request_frame r payload = record {
    version = r.version;
    flags = r.flags;
    sequence = r.sequence;
    command_type = r.command_type;
    payload = payload;
  }

  unfoldable pub decode_body :
      OwnedRequest → OwnedRequestBody → Result CommandError OwnedRequestBody
  decode_body r (raw payload) = own_request_body v (request_frame r payload)
  decode_body r body = ok body

  -- A request whose sequence is not cached.
  unfoldable pub admit_new : Bool → Coordinator → OwnedRequest → Decision
  unfolding decode_body admit_class
  admit_new external_busy c request = elim (decode_body request request.body) [
    | err e ↦ some (reject (from_command e), c)
    | ok body ↦ elim (classify_request body) [
      | none ↦ none
      | some class ↦ admit_class class external_busy c (record request { body = body })
    ]
  ]

  -- A request whose sequence is cached.
  unfoldable pub answer_cached : CacheEntry → OwnedRequest → Admission
  answer_cached entry request =
      if not (entry.fingerprint == request.fingerprint)
      then reject sequence_conflict
      else elim entry.state [
        | active ↦ busy_with active_duplicate
        | completed response ↦ replay response
      ]

  unfoldable pub is_response_expected : RequestKind → Bool
  is_response_expected response_expected = true
  is_response_expected no_response_heartbeat = false

  -- `admit_prepared_with_external_busy`
  unfoldable pub admit_prepared : Bool → Coordinator → OwnedRequest → Decision
  unfolding admit_new answer_cached is_response_expected
  admit_prepared external_busy c request =
      if is_response_expected request.request_kind
      then elim (find_sequence request.sequence c.cache) [
        | some entry ↦ some (answer_cached entry request, c)
        | none ↦ admit_new external_busy c request
      ]
      else admit_new external_busy c request

  -- `Coordinator::admit`
  unfoldable pub admit : Coordinator → Frame → Decision
  unfolding admit_prepared
  admit c frame = elim (request_from_frame v frame) [
    | ok request ↦ admit_prepared false c request
    | err e ↦ some (reject e, c)
  ]
