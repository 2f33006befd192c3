-- ===== src/Coordinator/Outcome.antt =====
-- src/coordinator.rs: every admission leaves the coordinator valid, and an accepted request in the
-- cache.
use rp2350_keymouse_bridge_f.Common.{
  suc, ◌≡◌, refl, ap, arith, ◌⊎◌, inl, inr, none, some, is_some, List, Bool, true, false,
  Bool-cases, Result-cases, Result, ok, err, map_ok,
}
use rp2350_keymouse_bridge_f.Common.Heapless.{Heapless, IsHeapless}
use rp2350_keymouse_bridge_f.Protocol.{
  CommandType, Frame, RequestKind, response_expected, no_response_heartbeat,
}
use rp2350_keymouse_bridge_f.Commands.{CommandError, decode_command}
use rp2350_keymouse_bridge_f.Commands.Owned.{OwnedCommand, from_frame}
use rp2350_keymouse_bridge_f.Coordinator.{
  CachedResponse, CompletionToken, OwnedRequest, OwnedRequestBody, raw, command, batch_begin,
  own_body, Admission, execute, collect, bypass, stop, immediate,
}
use rp2350_keymouse_bridge_f.Coordinator.Cache.{
  completed, CacheEntry, BatchState, idle, collecting, executing, Coordinator, find_sequence,
  abort_collecting, complete_entry, Inserted, active_entry, insert_active,
}
use rp2350_keymouse_bridge_f.Coordinator.Lookup.{Placed, IsBelow_mono, Placed-IsBelow}
use rp2350_keymouse_bridge_f.Coordinator.Insert.{
  IsCoordinator, token_for, IsAdded, IsRefused, insert_active_lem,
}
use rp2350_keymouse_bridge_f.Coordinator.Admit.{
  Decision, when_inserted, own_batch, end_collecting, bypass_kind, admit_stop, mutate_in,
}

abbrev pub entry_for : Coordinator → OwnedRequest → CacheEntry
entry_for c request = active_entry request (token_for c request)

-- The request went on with the token of this entry, and the entry is in the cache.
pub record IsAccepted (c : Coordinator) (e : CacheEntry) (r : OwnedRequest) (c' : Coordinator)
    : Type 0 where
  pub tagged : r.completion_token ≡ some e.token
  pub placed : Placed e c.cache c'.cache

-- The response that a request got at once is in the cache under its sequence: its entry was placed
-- and then completed.
abbrev pub IsAnswered : Coordinator → CacheEntry → CachedResponse → Coordinator → Type 0
IsAnswered c e response c' =
    (find_sequence e.sequence c'.cache ≡ some (record e { state = completed response }))
    × ((placed : List CacheEntry) × Placed e c.cache placed
        × (complete_entry e.token response placed ≡ some c'.cache))

abbrev pub Effect : Coordinator → CacheEntry → Admission → Coordinator → Type 0
Effect c e (execute r) c' = IsAccepted c e r c'
Effect c e (collect r) c' = IsAccepted c e r c'
Effect c e (bypass r) c' = IsAccepted c e r c'
Effect c e (stop r) c' = IsAccepted c e r c'
Effect c e (immediate response) c' = IsAnswered c e response c'
Effect c e other c' = c' ≡ c

-- No panic, a valid coordinator afterwards, and the effect of the decision.
abbrev pub Outcome : Coordinator → CacheEntry → Decision → Type 0
Outcome c e none = ⊥
Outcome c e (some (a, c')) = IsCoordinator c' × Effect c e a c'

-- What the body decoded from a raw one can be.
abbrev pub BodyOf : CommandType → Result CommandError OwnedRequestBody → Type 0
BodyOf t (ok (raw payload)) = ⊥
BodyOf t (ok batch_begin) = t ≡ CommandType.batch_begin
BodyOf t other = Unit {0}

command_body :
    (t : CommandType) (r : Result CommandError OwnedCommand) → BodyOf t (map_ok command r)
command_body t (ok c) = tt
command_body t (err e) = tt

pub own_body-BodyOf : (v : Heapless) (t : CommandType) (f : Frame) → BodyOf t (own_body v t f)
unfolding own_body
own_body-BodyOf v CommandType.batch_begin f = elim (Result-cases (decode_command f)) [
  | inl (c, e) ↦ rw e refl
  | inr (why, e) ↦ rw e tt
]
own_body-BodyOf v CommandType.batch_end f = elim (Result-cases (decode_command f)) [
  | inl (c, e) ↦ rw e tt
  | inr (why, e) ↦ rw e tt
]
own_body-BodyOf v _ f = command_body _ (from_frame v f)

module _ (v : Heapless) (laws : IsHeapless v) (c : Coordinator) (valid : IsCoordinator c)
    (request : OwnedRequest) where
  pub added-IsCoordinator : (i : Inserted) → IsAdded c request i → IsCoordinator i.coordinator
  added-IsCoordinator i a = record {
    few = a.size;
    below = rw a.next_id (
        Placed-IsBelow (suc c.next_admission_id) (active_entry request (token_for c request))
          a.placed
          (IsBelow_mono c.next_admission_id (suc c.next_admission_id) c.cache (omega arith)
            valid.below)
          (omega arith));
  }

  choose-Outcome :
      (i : Inserted) (f : Inserted → Decision)
      → IsRefused c request i ⊎ IsAdded c request i
      → (IsAdded c request i → Outcome c (entry_for c request) (f i))
      → Outcome c (entry_for c request) (when_inserted v i f)
  choose-Outcome i f (inl refused) h = rw refused (valid, refl)
  choose-Outcome i f (inr a) h = simp (a.answer) (h a)

  pub when_inserted-Outcome :
      (urgent : Bool) (f : Inserted → Decision)
      → ((i : Inserted) → IsAdded c request i → Outcome c (entry_for c request) (f i))
      → Outcome c (entry_for c request) (when_inserted v (insert_active v c request urgent) f)
  when_inserted-Outcome urgent f h =
      choose-Outcome (insert_active v c request urgent) f
        (insert_active_lem v laws c valid request urgent) (h (insert_active v c request urgent))

  pub tagged_lem :
      (i : Inserted) → IsAdded c request i → i.request.completion_token ≡ some (token_for c request)
  tagged_lem i a = ap (λ r. r.completion_token) a.tagged

  pub accepted :
      (i : Inserted)
      → IsAdded c request i
      → IsAccepted c (entry_for c request) i.request i.coordinator
  accepted i a = record { tagged = tagged_lem i a; placed = a.placed }

  pub stop-Outcome : Outcome c (entry_for c request) (admit_stop v c request)
  unfolding admit_stop
  stop-Outcome =
      when_inserted-Outcome true
        (λ i. some (
          stop i.request,
          record i.coordinator { batch_state = abort_collecting i.coordinator.batch_state },
        ))
        (λ i a.
          let ok_i = added-IsCoordinator i a in
          (
            record { few = ok_i.few; below = ok_i.below },
            record { tagged = tagged_lem i a; placed = a.placed },
          ))

  pub bypass-Outcome :
      (k : RequestKind) → Outcome c (entry_for c request) (bypass_kind v k c request)
  unfolding bypass_kind
  bypass-Outcome no_response_heartbeat = (valid, refl)
  bypass-Outcome response_expected =
      when_inserted-Outcome false (λ i. some (bypass i.request, i.coordinator))
        (λ i a. (added-IsCoordinator i a, accepted i a))

  own_batch_lem :
      (i : Inserted) (t : CompletionToken)
      → i.request.completion_token ≡ some t
      → own_batch v i ≡ some (execute i.request, record i.coordinator { batch_state = executing t })
  unfolding own_batch
  own_batch_lem i t e = ground (arith, e)

  own_batch-Outcome :
      (i : Inserted) → IsAdded c request i → Outcome c (entry_for c request) (own_batch v i)
  own_batch-Outcome i a =
      let ok_i = added-IsCoordinator i a in
      rw (own_batch_lem i (token_for c request) (tagged_lem i a)) (
        record { few = ok_i.few; below = ok_i.below },
        record { tagged = tagged_lem i a; placed = a.placed },
      )

  pub end-Outcome :
      (b : BatchState) → Outcome c (entry_for c request) (end_collecting v b c request)
  unfolding end_collecting
  end-Outcome collecting = when_inserted-Outcome false (own_batch v) (λ i a. own_batch-Outcome i a)
  end-Outcome idle = (valid, refl)
  end-Outcome (executing owner) = (valid, refl)

  pub mutate-Outcome : (b : BatchState) → Outcome c (entry_for c request) (mutate_in v b c request)
  unfolding mutate_in
  mutate-Outcome (executing owner) = (valid, refl)
  mutate-Outcome collecting =
      when_inserted-Outcome false (λ i. some (collect i.request, i.coordinator))
        (λ i a. (added-IsCoordinator i a, accepted i a))
  mutate-Outcome idle = elim (Bool-cases (is_some c.executor_owner)) [
    | inl e ↦ rw e (valid, refl)
    | inr e ↦ rw e (
        when_inserted-Outcome false
          (λ i. some (
            execute i.request,
            record i.coordinator { executor_owner = i.request.completion_token },
          ))
          (λ i a.
            let ok_i = added-IsCoordinator i a in
            (
              record { few = ok_i.few; below = ok_i.below },
              record { tagged = tagged_lem i a; placed = a.placed },
            )))
  ]
