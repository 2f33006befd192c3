-- ===== src/Coordinator/Answers.antt =====
-- src/coordinator.rs: the decoding of a request's body, and the answer to a cached sequence.
use rp2350_keymouse_bridge_f.Common.{
  ℕ, ◌≡◌, refl, sym, subst, arith, ◌⊎◌, inl, inr, Option, none, some, List, Bool, true, false, ◌==◌,
  Bool-cases, ok, err,
}
use rp2350_keymouse_bridge_f.Common.Heapless.{Heapless}
use rp2350_keymouse_bridge_f.Protocol.{CommandType, response_expected}
use rp2350_keymouse_bridge_f.Commands.{CommandError}
use rp2350_keymouse_bridge_f.Commands.Owned.{
  ping, get_info, get_caps, heartbeat, stop_all, key_down,
}
use rp2350_keymouse_bridge_f.Errors.{from_command, sequence_conflict}
use rp2350_keymouse_bridge_f.Coordinator.{
  CachedResponse, CompletionToken, OwnedRequest, OwnedRequestBody, raw, command, batch_begin,
  batch_end, Admission, execute, collect, bypass, no_response, stop, replay, immediate, busy_with,
  reject, active_duplicate, RequestClass, class_batch_begin, class_batch_end, class_stop_all,
  class_bypass, class_mutating, classify_request, own_request_body,
}
use rp2350_keymouse_bridge_f.Coordinator.Cache.{
  CacheState, active, completed, CacheEntry, Coordinator, find_sequence, complete, complete_entry,
}
use rp2350_keymouse_bridge_f.Coordinator.Outcome.{IsAccepted, Effect, BodyOf, own_body-BodyOf}
use rp2350_keymouse_bridge_f.Coordinator.Admit.{
  admit_class, request_frame, decode_body, admit_new, answer_cached, is_response_expected,
  admit_prepared,
}

-- The class of a body that decoding gives, and that only a BEGIN has the class of one.
pub body_class :
    (t : CommandType) (body : OwnedRequestBody)
    → BodyOf t (ok body)
    → (k : RequestClass) × (classify_request body ≡ some k)
      × (k ≡ class_batch_begin → t ≡ CommandType.batch_begin)
unfolding classify_request
body_class t (raw payload) h = absurd h
body_class t batch_begin h = (class_batch_begin, refl, λ e. h)
body_class t batch_end h = (class_batch_end, refl, λ e. cc)
body_class t (command stop_all) h = (class_stop_all, refl, λ e. cc)
body_class t (command ping) h = (class_bypass, refl, λ e. cc)
body_class t (command get_info) h = (class_bypass, refl, λ e. cc)
body_class t (command get_caps) h = (class_bypass, refl, λ e. cc)
body_class t (command heartbeat) h = (class_bypass, refl, λ e. cc)
body_class t (command (key_down s)) h = (class_mutating, refl, λ e. cc)
body_class t (command _) h = (class_mutating, refl, λ e. cc)

module _ (v : Heapless) (external_busy : Bool) (c : Coordinator) (request : OwnedRequest) where
  pub new_refused :
      (e : CommandError)
      → decode_body v request request.body ≡ err e
      → admit_new v external_busy c request ≡ some (reject (from_command e), c)
  unfolding admit_new
  new_refused e h = ground (arith, h)

  pub new_classified :
      (body : OwnedRequestBody) (k : RequestClass)
      → decode_body v request request.body ≡ ok body
      → classify_request body ≡ some k
      → admit_new v external_busy c request
        ≡ admit_class v k external_busy c (record request { body = body })
  unfolding admit_new
  new_classified body k h e = ground (arith, h, e)

pub decode_body-BodyOf :
    (v : Heapless) (request : OwnedRequest) (payload : List ℕ)
    → request.body ≡ raw payload
    → BodyOf request.command_type (decode_body v request request.body)
unfolding decode_body own_request_body
decode_body-BodyOf v request payload e =
    subst (λ b. BodyOf request.command_type (decode_body v request b)) (sym e)
      (own_body-BodyOf v request.command_type (request_frame v request payload))

pub state_cases : (s : CacheState) → (s ≡ active) ⊎ ((r : CachedResponse) × (s ≡ completed r))
state_cases active = inl refl
state_cases (completed r) = inr (r, refl)

-- The answer to a sequence in the cache, case by case.
module _ (v : Heapless) (entry : CacheEntry) (request : OwnedRequest) where
  answer_conflict :
      (entry.fingerprint == request.fingerprint) ≡ false
      → answer_cached v entry request ≡ reject sequence_conflict
  unfolding answer_cached
  answer_conflict e = rw e

  pub answer_active :
      (entry.fingerprint == request.fingerprint) ≡ true
      → entry.state ≡ active
      → answer_cached v entry request ≡ busy_with active_duplicate
  unfolding answer_cached
  answer_active e s = ground (arith, e, s)

  pub answer_completed :
      (r : CachedResponse)
      → (entry.fingerprint == request.fingerprint) ≡ true
      → entry.state ≡ completed r
      → answer_cached v entry request ≡ replay r
  unfolding answer_cached
  answer_completed r e s = ground (arith, e, s)

  pub answer_cases :
      (answer_cached v entry request ≡ reject sequence_conflict)
      ⊎ ((answer_cached v entry request ≡ busy_with active_duplicate)
          ⊎ ((r : CachedResponse) × (answer_cached v entry request ≡ replay r)))
  answer_cases = elim (Bool-cases (entry.fingerprint == request.fingerprint)) [
    | inr e ↦ inl (answer_conflict e)
    | inl e ↦ elim (state_cases entry.state) [
      | inl s ↦ inr (inl (answer_active e s))
      | inr (r, s) ↦ inr (inr (r, answer_completed r e s))
    ]
  ]

  pub answer-Effect :
      (c : Coordinator) (e : CacheEntry) → Effect c e (answer_cached v entry request) c
  answer-Effect c e = elim answer_cases [
    | inl h ↦ rw h refl
    | inr (inl h) ↦ rw h refl
    | inr (inr (r, h)) ↦ rw h refl
  ]

-- The request that an admission hands on.
unfoldable pub carried : Admission → Option OwnedRequest
carried (execute r) = some r
carried (collect r) = some r
carried (bypass r) = some r
carried (stop r) = some r
carried other = none

some-injective : {x y : OwnedRequest} → some x ≡ some y → x ≡ y
some-injective e = cc

pub carried-IsAccepted :
    {c c' : Coordinator} {e : CacheEntry} (a : Admission) {r : OwnedRequest}
    → carried a ≡ some r
    → Effect c e a c'
    → IsAccepted c e r c'
unfolding carried
carried-IsAccepted {c} {c'} {e} (execute x) h f =
    subst (λ r. IsAccepted c e r c') (some-injective h) f
carried-IsAccepted {c} {c'} {e} (collect x) h f =
    subst (λ r. IsAccepted c e r c') (some-injective h) f
carried-IsAccepted {c} {c'} {e} (bypass x) h f =
    subst (λ r. IsAccepted c e r c') (some-injective h) f
carried-IsAccepted {c} {c'} {e} (stop x) h f = subst (λ r. IsAccepted c e r c') (some-injective h) f
carried-IsAccepted (no_response x) h f = absurd (cc)
carried-IsAccepted (replay x) h f = absurd (cc)
carried-IsAccepted (immediate x) h f = absurd (cc)
carried-IsAccepted (busy_with x) h f = absurd (cc)
carried-IsAccepted (reject x) h f = absurd (cc)

pub carried-answer :
    (v : Heapless) (entry : CacheEntry) (request : OwnedRequest)
    → carried (answer_cached v entry request) ≡ none
unfolding carried
carried-answer v entry request = elim (answer_cases v entry request) [
  | inl h ↦ rw h
  | inr (inl h) ↦ rw h
  | inr (inr (r, h)) ↦ rw h
]

-- The cache after a completion is the one with the entry completed.
pub complete-cache :
    (o o' : Coordinator) (t : CompletionToken) (r : CachedResponse) (l : List CacheEntry)
    → complete_entry t r o.cache ≡ some l
    → complete o t r ≡ ok o'
    → o'.cache ≡ l
unfolding complete
complete-cache o o' t r l done h = ground (arith, done, h)

module _ (v : Heapless) (c : Coordinator) (request : OwnedRequest) (external_busy : Bool) where
  pub prepared_new :
      find_sequence request.sequence c.cache ≡ none
      → admit_prepared v external_busy c request ≡ admit_new v external_busy c request
  unfolding admit_prepared
  prepared_new new = ground (arith, new)

  pub prepared_cached :
      (entry : CacheEntry)
      → request.request_kind ≡ response_expected
      → find_sequence request.sequence c.cache ≡ some entry
      → admit_prepared v external_busy c request ≡ some (answer_cached v entry request, c)
  unfolding admit_prepared is_response_expected
  prepared_cached entry kind found = ground (arith, found, kind)
