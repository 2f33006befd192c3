-- ===== src/Coordinator/Begin.antt =====
-- src/coordinator.rs: the BEGIN of a batch, which is answered at once, and all classes together.
use rp2350_keymouse_bridge_f.Common.{
  ◌≡◌, refl, arith, inl, inr, none, some, is_some, List, Bool, true, false, Bool-cases, ok,
}
use rp2350_keymouse_bridge_f.Common.Heapless.{Heapless, IsHeapless}
use rp2350_keymouse_bridge_f.Protocol.{CommandType}
use rp2350_keymouse_bridge_f.Coordinator.{
  CachedResponse, ack, token_ack, CompletionToken, OwnedRequest, immediate, RequestClass,
  class_batch_begin, class_batch_end, class_stop_all, class_bypass, class_mutating,
  is_final_response, expected_final_response,
}
use rp2350_keymouse_bridge_f.Coordinator.Cache.{
  completed, CacheEntry, BatchState, idle, collecting, executing, Coordinator, find_sequence,
  Inserted, active_entry, complete, complete_entry, release_owner, release_batch,
}
use rp2350_keymouse_bridge_f.Coordinator.Lookup.{
  Placed, complete_entry-Placed, complete_entry-keeps,
}
use rp2350_keymouse_bridge_f.Coordinator.Insert.{IsCoordinator, token_for, IsAdded}
use rp2350_keymouse_bridge_f.Coordinator.Admit.{
  open_batch, begin_idle, admit_batch_begin, admit_batch_end, admit_bypass, admit_mutating,
  admit_class,
}
use rp2350_keymouse_bridge_f.Coordinator.Outcome.{
  entry_for, Outcome, added-IsCoordinator, when_inserted-Outcome, tagged_lem, stop-Outcome,
  bypass-Outcome, end-Outcome, mutate-Outcome,
}

complete_ok :
    (o : Coordinator) (t : CompletionToken) (r : CachedResponse) (l : List CacheEntry)
    → r.sequence ≡ t.sequence
    → r.version ≡ t.version
    → is_final_response r t.expected_response ≡ true
    → complete_entry t r o.cache ≡ some l
    → complete o t r
      ≡ ok (record o {
        cache = l;
        executor_owner = release_owner t o.executor_owner;
        batch_state = release_batch t o.batch_state;
      })
unfolding complete
complete_ok o t r l s w final done = ground (arith, final, done)

ack_sequence : (t : CompletionToken) → (token_ack t).sequence ≡ t.sequence
unfolding token_ack ack
ack_sequence t = refl

ack_version : (t : CompletionToken) → (token_ack t).version ≡ t.version
unfolding token_ack ack
ack_version t = refl

module _ (v : Heapless) (laws : IsHeapless v) (c : Coordinator) (valid : IsCoordinator c)
    (request : OwnedRequest) where
  module _ (new : find_sequence request.sequence c.cache ≡ none)
      (is_begin : request.command_type ≡ CommandType.batch_begin) where
    begin_final :
        is_final_response (token_ack (token_for c request)) (token_for c request).expected_response
        ≡ true
    unfolding is_final_response token_ack ack expected_final_response
    begin_final = rw is_begin

    -- The ACK of a BEGIN completes the entry that was just added.
    completed_begin :
        (o : Coordinator)
        → Placed (active_entry request (token_for c request)) c.cache o.cache
        → (l : List CacheEntry) × (complete o
              (token_for c request)
              (token_ack (token_for c request))
            ≡ ok (record o {
              cache = l;
              executor_owner = release_owner (token_for c request) o.executor_owner;
              batch_state = release_batch (token_for c request) o.batch_state;
            }))
          × (complete_entry (token_for c request) (token_ack (token_for c request)) o.cache
              ≡ some l)
          × (find_sequence request.sequence l
              ≡ some (record (active_entry request (token_for c request)) {
                state = completed (token_ack (token_for c request));
              }))
    completed_begin o placed =
        let (l, done, found) =
          complete_entry-Placed (active_entry request (token_for c request))
            (token_ack (token_for c request)) placed new valid.below refl in
        (
          l,
          complete_ok o (token_for c request) (token_ack (token_for c request)) l (ack_sequence _)
              (ack_version _) begin_final done,
          done,
          found,
        )

    open_batch_lem :
        (i : Inserted) (t : CompletionToken) (done : Coordinator)
        → i.request.completion_token ≡ some t
        → complete (record i.coordinator { batch_state = collecting }) t (token_ack t) ≡ ok done
        → open_batch v i ≡ some (immediate (token_ack t), done)
    unfolding open_batch
    open_batch_lem i t done e h = ground (arith, e, h)

    open_batch-Outcome :
        (i : Inserted) → IsAdded c request i → Outcome c (entry_for c request) (open_batch v i)
    open_batch-Outcome i a =
        let opened = record i.coordinator { batch_state = collecting } in
        let (l, e, entry, found) = completed_begin opened a.placed in
        let ok_i = added-IsCoordinator v laws c valid request i a in
        let (size, below) =
          complete_entry-keeps (token_for c request) (token_ack (token_for c request))
            i.coordinator.next_admission_id i.coordinator.cache l entry ok_i.below in
        rw (open_batch_lem i (token_for c request) _ (tagged_lem v laws c valid request i a) e) (
          record { few = omega (arith, ok_i.few); below = below },
          (found, (i.coordinator.cache, a.placed, entry)),
        )

    begin-Outcome : (b : BatchState) → Outcome c (entry_for c request) (begin_idle v b c request)
    unfolding begin_idle
    begin-Outcome idle = elim (Bool-cases (is_some c.executor_owner)) [
      | inl e ↦ rw e (valid, refl)
      | inr e ↦ rw e (
          when_inserted-Outcome v laws c valid request false (open_batch v)
            (λ i a. open_batch-Outcome i a))
    ]
    begin-Outcome collecting = (valid, refl)
    begin-Outcome (executing owner) = (valid, refl)

  -- The request with another body gets the same entry.
  pub class-Outcome :
      (k : RequestClass) (external_busy : Bool)
      → find_sequence request.sequence c.cache ≡ none
      → (k ≡ class_batch_begin → request.command_type ≡ CommandType.batch_begin)
      → Outcome c (entry_for c request) (admit_class v k external_busy c request)
  unfolding admit_class admit_batch_begin admit_batch_end admit_bypass admit_mutating
  class-Outcome class_batch_begin true new h = (valid, refl)
  class-Outcome class_batch_begin false new h = begin-Outcome new (h refl) c.batch_state
  class-Outcome class_batch_end true new h = (valid, refl)
  class-Outcome class_batch_end false new h = end-Outcome v laws c valid request c.batch_state
  class-Outcome class_mutating true new h = (valid, refl)
  class-Outcome class_mutating false new h = mutate-Outcome v laws c valid request c.batch_state
  class-Outcome class_stop_all b new h = stop-Outcome v laws c valid request
  class-Outcome class_bypass b new h = bypass-Outcome v laws c valid request request.request_kind
