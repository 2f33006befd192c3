-- ===== src/Runtime/Mode.antt =====
-- src/coordinator.rs and src/runtime.rs: what an admission does to the batch, as the dispatcher
-- relies on it.
pub mod Classes
pub mod Admitted
use rp2350_keymouse_bridge_f.Common.{
  ◌≡◌, refl, sym, ap, subst, arith, ◌⊎◌, inl, inr, none, some, is_some, List, Bool, true, false,
  Bool-cases, Option-cases, Result-cases, Result, ok, err, if◌then◌else◌, ℕ, map_ok,
}
use rp2350_keymouse_bridge_f.Common.Heapless.{Heapless, IsHeapless}
use rp2350_keymouse_bridge_f.Protocol.{
  CommandType, Frame, RequestKind, response_expected, no_response_heartbeat,
}
use rp2350_keymouse_bridge_f.Commands.{CommandError, decode_command}
use rp2350_keymouse_bridge_f.Commands.Owned.{OwnedCommand, from_frame}
use rp2350_keymouse_bridge_f.Coordinator.{
  CachedResponse, CompletionToken, OwnedRequest, OwnedRequestBody, raw, command, batch_begin,
  batch_end, Admission, execute, collect, bypass, stop, immediate, busy_with, RequestClass,
  class_batch_begin, class_batch_end, class_stop_all, class_bypass, class_mutating,
  classify_request, own_body, own_request_body, token_ack, executor_occupied,
}
use rp2350_keymouse_bridge_f.Coordinator.Cache.{
  BatchState, idle, collecting, executing, Coordinator, Inserted, insert_active, abort_collecting,
  find_sequence, CacheEntry, complete, release_batch,
}
use rp2350_keymouse_bridge_f.Coordinator.Insert.{
  IsCoordinator, token_for, IsAdded, IsRefused, insert_active_lem,
}
use rp2350_keymouse_bridge_f.Coordinator.Admit.{
  Decision, when_inserted, open_batch, begin_idle, own_batch, end_collecting, bypass_kind,
  admit_stop, mutate_in, admit_class, admit_batch_begin, admit_batch_end, admit_mutating,
  admit_bypass, decode_body, request_frame, admit_new, admit_prepared, answer_cached,
  is_response_expected,
}
use rp2350_keymouse_bridge_f.Coordinator.Answers.{
  new_refused, new_classified, answer_cases, prepared_new,
}
use rp2350_keymouse_bridge_f.Runtime.{is_batch_end}

abbrev pub is_collecting : BatchState → Bool
is_collecting idle = false
is_collecting collecting = true
is_collecting (executing owner) = false

abbrev pub IsTagged : OwnedRequest → Type 0
IsTagged r = (t : CompletionToken) × (r.completion_token ≡ some t)

abbrev pub is_command : OwnedRequestBody → Bool
is_command (command c) = true
is_command other = false

-- An executed BATCH_END ends the batch that was being collected; any other request is executed
-- outside a batch.
abbrev pub ExecuteMode : Bool → BatchState → BatchState → Type 0
ExecuteMode true before after = (is_collecting before ≡ true) × (is_collecting after ≡ false)
ExecuteMode false before after = (is_collecting before ≡ false) × (is_collecting after ≡ false)

-- What the batch was and is, by the decision; `busy` is whether an emergency release is on its way.
abbrev pub ModeOf : Bool → CommandType → BatchState → Admission → BatchState → Type 0
ModeOf busy t before (execute r) after =
    (busy ≡ false) × IsTagged r × ExecuteMode (is_batch_end t) before after
ModeOf busy t before (collect r) after =
    (busy ≡ false)
    × IsTagged r
    × (is_command r.body ≡ true)
    × (is_collecting before ≡ true)
    × (after ≡ before)
ModeOf busy t before (bypass r) after = IsTagged r × (after ≡ before)
ModeOf busy t before (stop r) after = IsTagged r × (is_collecting after ≡ false)
ModeOf busy t before (immediate response) after = (is_collecting after ≡ true)
ModeOf busy t before other after = after ≡ before

abbrev pub Mode : Bool → CommandType → Coordinator → Decision → Type 0
Mode busy t c none = ⊥
Mode busy t c (some (a, c')) = ModeOf busy t c.batch_state a c'.batch_state

-- The class of a body, by the command type that it was decoded from.
abbrev pub EndOf : Bool → Result CommandError OwnedRequestBody → Type 0
EndOf ends (ok (raw payload)) = ⊥
EndOf ends (ok batch_end) = ends ≡ true
EndOf ends (ok other) = ends ≡ false
EndOf ends (err e) = Unit {0}

command_body : (r : Result CommandError OwnedCommand) → EndOf false (map_ok command r)
command_body (ok c) = refl
command_body (err e) = tt

own_body-EndOf :
    (v : Heapless) (t : CommandType) (f : Frame) → EndOf (is_batch_end t) (own_body v t f)
unfolding own_body is_batch_end
own_body-EndOf v CommandType.batch_begin f = elim (Result-cases (decode_command f)) [
  | inl (c, e) ↦ rw e refl
  | inr (why, e) ↦ rw e tt
]
own_body-EndOf v CommandType.batch_end f = elim (Result-cases (decode_command f)) [
  | inl (c, e) ↦ rw e refl
  | inr (why, e) ↦ rw e tt
]
own_body-EndOf v _ f = command_body (from_frame v f)

release-is_collecting :
    (t : CompletionToken) (b : BatchState) → is_collecting (release_batch t b) ≡ is_collecting b
unfolding release_batch
release-is_collecting t idle = refl
release-is_collecting t collecting = refl
release-is_collecting t (executing owner) = ground arith

-- A completion ends no collection and starts none.
pub complete-is_collecting :
    (c c' : Coordinator) (t : CompletionToken) (r : CachedResponse)
    → complete c t r ≡ ok c'
    → is_collecting c'.batch_state ≡ is_collecting c.batch_state
unfolding complete
complete-is_collecting c c' t r e = ground (arith, e, release-is_collecting t c.batch_state)

open_batch_state :
    (v : Heapless) (i : Inserted) (t : CompletionToken)
    → i.request.completion_token ≡ some t
    → (c' : Coordinator) × (open_batch v i ≡ some (immediate (token_ack t), c'))
      × (is_collecting c'.batch_state ≡ true)
unfolding open_batch
open_batch_state v i t e =
    let opened : Coordinator = record i.coordinator { batch_state = collecting } in
    elim (Result-cases (complete opened t (token_ack t))) [
      | inl (done, h) ↦ (
        done,
        ground (arith, e, h),
        ground (arith, complete-is_collecting opened done t (token_ack t) h),
      )
      | inr (why, h) ↦ (opened, ground (arith, e, h), refl)
    ]

own_batch_state :
    (v : Heapless) (i : Inserted) (t : CompletionToken)
    → i.request.completion_token ≡ some t
    → own_batch v i ≡ some (execute i.request, record i.coordinator { batch_state = executing t })
unfolding own_batch
own_batch_state v i t e = ground (arith, e)

pub abort-is_collecting : (b : BatchState) → is_collecting (abort_collecting b) ≡ false
unfolding abort_collecting
abort-is_collecting idle = refl
abort-is_collecting collecting = refl
abort-is_collecting (executing owner) = refl
