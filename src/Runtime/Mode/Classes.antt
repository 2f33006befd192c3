-- ===== src/Runtime/Mode/Classes.antt =====
-- src/coordinator.rs: what the admission of each class of request does to the batch.
use rp2350_keymouse_bridge_f.Common.{
  ◌≡◌, refl, ap, ◌⊎◌, inl, inr, some, is_some, Bool, true, false, Bool-cases, ok, if◌then◌else◌,
}
use rp2350_keymouse_bridge_f.Common.Heapless.{Heapless, IsHeapless}
use rp2350_keymouse_bridge_f.Protocol.{
  CommandType, RequestKind, response_expected, no_response_heartbeat,
}
use rp2350_keymouse_bridge_f.Commands.Owned.{OwnedCommand}
use rp2350_keymouse_bridge_f.Coordinator.{
  OwnedRequest, OwnedRequestBody, raw, command, batch_begin, batch_end, execute, collect, bypass,
  stop, busy_with, RequestClass, class_batch_begin, class_batch_end, class_stop_all, class_bypass,
  class_mutating, classify_request, executor_occupied,
}
use rp2350_keymouse_bridge_f.Coordinator.Cache.{
  BatchState, idle, collecting, executing, Coordinator, Inserted, insert_active, abort_collecting,
}
use rp2350_keymouse_bridge_f.Coordinator.Insert.{
  IsCoordinator, token_for, IsAdded, IsRefused, insert_active_lem,
}
use rp2350_keymouse_bridge_f.Coordinator.Admit.{
  Decision, when_inserted, open_batch, begin_idle, own_batch, end_collecting, bypass_kind,
  admit_stop, mutate_in, admit_class, admit_batch_begin, admit_batch_end, admit_mutating,
  admit_bypass,
}
use rp2350_keymouse_bridge_f.Runtime.{is_batch_end}
use rp2350_keymouse_bridge_f.Runtime.Mode.{
  is_collecting, IsTagged, is_command, Mode, EndOf, open_batch_state, own_batch_state,
  abort-is_collecting,
}

module _ (v : Heapless) (laws : IsHeapless v) (c : Coordinator) (valid : IsCoordinator c)
    (request : OwnedRequest) (t : CommandType) (busy : Bool) where
  choose-Mode :
      (i : Inserted) (f : Inserted → Decision)
      → IsRefused c request i ⊎ IsAdded c request i
      → (IsAdded c request i → Mode busy t c (f i))
      → Mode busy t c (when_inserted v i f)
  choose-Mode i f (inl refused) h = rw refused refl
  choose-Mode i f (inr a) h = simp (a.answer) (h a)

  when_inserted-Mode :
      (urgent : Bool) (f : Inserted → Decision)
      → ((i : Inserted) → IsAdded c request i → Mode busy t c (f i))
      → Mode busy t c (when_inserted v (insert_active v c request urgent) f)
  when_inserted-Mode urgent f h =
      choose-Mode (insert_active v c request urgent) f
        (insert_active_lem v laws c valid request urgent) (h (insert_active v c request urgent))

  added-IsTagged : (i : Inserted) → IsAdded c request i → IsTagged i.request
  added-IsTagged i a = (token_for c request, ap (λ r. r.completion_token) a.tagged)

  stop-Mode : Mode busy t c (admit_stop v c request)
  unfolding admit_stop
  stop-Mode =
      when_inserted-Mode true
        (λ i. some (
          stop i.request,
          record i.coordinator { batch_state = abort_collecting i.coordinator.batch_state },
        ))
        (λ i a. (added-IsTagged i a, abort-is_collecting i.coordinator.batch_state))

  bypass-Mode : (k : RequestKind) → Mode busy t c (bypass_kind v k c request)
  unfolding bypass_kind
  bypass-Mode no_response_heartbeat = refl
  bypass-Mode response_expected =
      when_inserted-Mode false (λ i. some (bypass i.request, i.coordinator))
        (λ i a. (added-IsTagged i a, a.batch))

  module _ (free : busy ≡ false) where
    own_batch-Mode :
        (i : Inserted)
        → IsAdded c request i
        → is_batch_end t ≡ true
        → is_collecting c.batch_state ≡ true
        → Mode busy t c (own_batch v i)
    own_batch-Mode i a ends before =
        let (token, e) = added-IsTagged i a in
        rw (own_batch_state v i token e, ends) (free, (token, e), (before, refl))

    end-Mode :
        is_batch_end t ≡ true
        → (b : BatchState) → b ≡ c.batch_state
        → Mode busy t c (end_collecting v b c request)
    unfolding end_collecting
    end-Mode ends collecting e =
        when_inserted-Mode false (own_batch v) (λ i a. own_batch-Mode i a ends (rw (← e) refl))
    end-Mode ends idle e = refl
    end-Mode ends (executing owner) e = refl

    executed :
        (i : Inserted)
        → IsAdded c request i
        → is_batch_end t ≡ false
        → is_collecting c.batch_state ≡ false
        → Mode busy t c (
            some (
              execute i.request,
              record i.coordinator { executor_owner = i.request.completion_token },
            ))
    executed i a ends before = rw (ends) (free, added-IsTagged i a, (before, rw (a.batch) before))

    mutate-Mode :
        is_batch_end t ≡ false
        → is_command request.body ≡ true
        → (b : BatchState) → b ≡ c.batch_state
        → Mode busy t c (mutate_in v b c request)
    unfolding mutate_in
    mutate-Mode ends body (executing owner) e = refl
    mutate-Mode ends body collecting e =
        when_inserted-Mode false (λ i. some (collect i.request, i.coordinator))
          (λ i a. (
            free,
            added-IsTagged i a,
            (let same : i.request.body ≡ request.body = ap (λ r. r.body) a.tagged in
                rw (same) body),
            rw (← e) refl,
            a.batch,
          ))
    mutate-Mode ends body idle e = elim (Bool-cases (is_some c.executor_owner)) [
      | inl taken ↦ rw (taken) refl
      | inr unowned ↦ rw (unowned) (
          when_inserted-Mode false
            (λ i. some (
              execute i.request,
              record i.coordinator { executor_owner = i.request.completion_token },
            ))
            (λ i a. executed i a ends (rw (← e) refl)))
    ]

    begin-Mode : (b : BatchState) → b ≡ c.batch_state → Mode busy t c (begin_idle v b c request)
    unfolding begin_idle
    begin-Mode idle e = elim (Bool-cases (is_some c.executor_owner)) [
      | inl taken ↦ rw (taken) refl
      | inr unowned ↦ rw (unowned) (
          when_inserted-Mode false (open_batch v) (λ i a.
            let (token, h) = added-IsTagged i a in
            let (c', opens, is_open) = open_batch_state v i token h in rw (opens) is_open))
    ]
    begin-Mode collecting e = refl
    begin-Mode (executing owner) e = refl

  unless_busy :
      (b : Bool) (d : Decision)
      → (b ≡ false → Mode busy t c d)
      → Mode busy t c (if b then some (busy_with executor_occupied, c) else d)
  unless_busy true d h = refl
  unless_busy false d h = h refl

  -- A body that a request was decoded to, by its class.
  abbrev ClassMode : OwnedRequestBody → Type 0
  ClassMode body =
      (k : RequestClass) × (classify_request body ≡ some k)
      × Mode busy t c (admit_class v k busy c request)

  pub body-ClassMode :
      (body : OwnedRequestBody)
      → EndOf (is_batch_end t) (ok body)
      → request.body ≡ body
      → ClassMode body
  unfolding classify_request admit_class admit_batch_begin admit_batch_end admit_bypass
      admit_mutating
  body-ClassMode (raw payload) h e = absurd h
  body-ClassMode batch_begin h e =
      (class_batch_begin, refl, unless_busy busy _ (λ free. begin-Mode free c.batch_state refl))
  body-ClassMode batch_end h e =
      (class_batch_end, refl, unless_busy busy _ (λ free. end-Mode free h c.batch_state refl))
  body-ClassMode (command OwnedCommand.stop_all) h e = (class_stop_all, refl, stop-Mode)
  body-ClassMode (command OwnedCommand.ping) h e =
      (class_bypass, refl, bypass-Mode request.request_kind)
  body-ClassMode (command OwnedCommand.get_info) h e =
      (class_bypass, refl, bypass-Mode request.request_kind)
  body-ClassMode (command OwnedCommand.get_caps) h e =
      (class_bypass, refl, bypass-Mode request.request_kind)
  body-ClassMode (command OwnedCommand.heartbeat) h e =
      (class_bypass, refl, bypass-Mode request.request_kind)
  body-ClassMode (command _) h e = (
    class_mutating,
    refl,
    unless_busy busy _ (λ free. mutate-Mode free h (rw (e) refl) c.batch_state refl),
  )
