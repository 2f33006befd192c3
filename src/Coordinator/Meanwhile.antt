-- ===== src/Coordinator/Meanwhile.antt =====
-- src/coordinator.rs: what the coordinator does while a request is active.
use rp2350_keymouse_bridge_f.Common.{
  ℕ, ◌≡◌, refl, sym, subst, arith, ◌<◌, inl, inr, none, some, List, [], ◌∷◌, Bool, true, false,
  Option-cases, ok,
}
use rp2350_keymouse_bridge_f.Common.Heapless.{Heapless, IsHeapless}
use rp2350_keymouse_bridge_f.Protocol.{CommandType, response_expected, no_response_heartbeat}
use rp2350_keymouse_bridge_f.Errors.{from_command}
use rp2350_keymouse_bridge_f.Commands.{decode_command, invalid_payload_length}
use rp2350_keymouse_bridge_f.Commands.Owned.{OwnedCommand, from_frame, own_command}
use rp2350_keymouse_bridge_f.Coordinator.{
  CachedResponse, CompletionToken, OwnedRequest, raw, command, Admission, execute, collect, bypass,
  no_response, stop, replay, immediate, reject, busy_with, same_token, classify_request, own_body,
  own_request_body,
}
use rp2350_keymouse_bridge_f.Coordinator.Cache.{
  CacheEntry, is_active_state, Coordinator, find_sequence, complete_entry, complete, abort_batch,
}
use rp2350_keymouse_bridge_f.Coordinator.Lookup.{
  Placed, complete_entry-keeps, same_token_older, same_token_newer,
}
use rp2350_keymouse_bridge_f.Coordinator.Insert.{IsCoordinator}
use rp2350_keymouse_bridge_f.Coordinator.Outcome.{entry_for, Effect, Outcome}
use rp2350_keymouse_bridge_f.Coordinator.Admit.{
  Decision, admit_class, admit_bypass, bypass_kind, decode_body, admit_new, admit_prepared,
}
use rp2350_keymouse_bridge_f.Coordinator.Answers.{prepared_cached}
use rp2350_keymouse_bridge_f.Coordinator.Found.{find_sequence-IsBelow}
use rp2350_keymouse_bridge_f.Coordinator.Tokens.{IsHeld, other-IsHeld, complete_entry-IsHeld}
use rp2350_keymouse_bridge_f.Coordinator.Replay.{admit_prepared-Outcome}

pub silent_heartbeat :
    (v : Heapless) (busy : Bool) (c : Coordinator) (request : OwnedRequest) (payload : List ℕ)
    → request.body ≡ raw payload
    → request.command_type ≡ CommandType.heartbeat
    → request.request_kind ≡ no_response_heartbeat
    → (a : Admission) × (admit_prepared v busy c request ≡ some (a, c))
unfolding admit_prepared admit_new decode_body own_request_body own_body from_frame decode_command
    own_command classify_request admit_class admit_bypass bypass_kind
silent_heartbeat v busy c request [] b t k = (
  no_response (record request { body = command OwnedCommand.heartbeat }),
  ground (arith, b, t, k),
)
silent_heartbeat v busy c request (x ∷ xs) b t k =
    (reject (from_command invalid_payload_length), ground (arith, b, t, k))

complete-cases :
    (c c' : Coordinator) (t : CompletionToken) (r : CachedResponse)
    → complete c t r ≡ ok c'
    → (l : List CacheEntry) × (complete_entry t r c.cache ≡ some l)
      × (c'.cache ≡ l)
      × (c'.next_admission_id ≡ c.next_admission_id)
unfolding complete
complete-cases c c' t r e = elim (Option-cases (complete_entry t r c.cache)) [
  | inl missing ↦ absurd (ground (arith, e, missing))
  | inr (l, found) ↦ (l, found, ground (arith, e, found), ground (arith, e, found))
]

pub complete-IsCoordinator :
    (c : Coordinator) (t : CompletionToken) (r : CachedResponse) (c' : Coordinator)
    → IsCoordinator c
    → complete c t r ≡ ok c'
    → IsCoordinator c'
complete-IsCoordinator c t r c' valid e =
    let (l, found, cache, next) = complete-cases c c' t r e in
    let (size, below) = complete_entry-keeps t r c.next_admission_id c.cache l found valid.below in
    record { few = rw (cache) (omega (arith, size, valid.few)); below = rw (cache, next) below }

-- What the coordinator goes through, from one request's admission on, while the request with this
-- token is not completed: other requests are admitted, whatever is decided, other tokens are
-- completed, and an open batch is aborted.
pub data Meanwhile (v : Heapless) (t : CompletionToken) : Coordinator → Coordinator → Type 0 where
  nothing : {c : Coordinator} → Meanwhile v t c c
  admits :
      {c c1 c2 : Coordinator} (q : OwnedRequest) (a : Admission) (payload : List ℕ) (busy : Bool)
      → Meanwhile v t c c1
      → q.body ≡ raw payload
      → q.request_kind ≡ response_expected
      → admit_prepared v busy c1 q ≡ some (a, c2)
      → Meanwhile v t c c2
  admits_heartbeat :
      {c c1 c2 : Coordinator} (q : OwnedRequest) (a : Admission) (payload : List ℕ) (busy : Bool)
      → Meanwhile v t c c1
      → q.body ≡ raw payload
      → q.command_type ≡ CommandType.heartbeat
      → q.request_kind ≡ no_response_heartbeat
      → admit_prepared v busy c1 q ≡ some (a, c2)
      → Meanwhile v t c c2
  completes :
      {c c1 c2 : Coordinator} (other : CompletionToken) (response : CachedResponse)
      → Meanwhile v t c c1
      → same_token t other ≡ false
      → complete c1 other response ≡ ok c2
      → Meanwhile v t c c2
  aborts : {c c1 : Coordinator} → Meanwhile v t c c1 → Meanwhile v t c (abort_batch c1)

-- The coordinator is valid, this entry is the one that its sequence finds, and it is alone with its
-- token.
pub record Holds (e : CacheEntry) (c : Coordinator) : Type 0 where
  pub valid : IsCoordinator c
  pub held : IsHeld e c.cache

-- A new request's entry leaves an active one held.
module _ (e x : CacheEntry) (c c' : Coordinator) (h : Holds e c)
    (new : find_sequence x.sequence c.cache ≡ none) (a : is_active_state e.state ≡ true)
    (id : x.token.admission_id ≡ c.next_admission_id) where
  is_older : e.token.admission_id < x.token.admission_id
  is_older =
      subst (λ n. e.token.admission_id < n) (sym id)
        (find_sequence-IsBelow c.next_admission_id e.sequence e c.cache h.valid.below h.held.0)

  placed_lem : {ys : List CacheEntry} → Placed x c.cache ys → IsHeld e ys
  placed_lem p = other-IsHeld e x p new (same_token_newer x.token e.token is_older) a h.held

  Effect-IsHeld : (d : Admission) → Effect c x d c' → IsHeld e c'.cache
  Effect-IsHeld (execute r) f = placed_lem f.placed
  Effect-IsHeld (collect r) f = placed_lem f.placed
  Effect-IsHeld (bypass r) f = placed_lem f.placed
  Effect-IsHeld (stop r) f = placed_lem f.placed
  Effect-IsHeld (immediate response) (found, (placed, p, done)) =
      complete_entry-IsHeld e x.token response placed c'.cache done
        (same_token_older e.token x.token is_older) (placed_lem p)
  Effect-IsHeld (no_response r) f = rw f h.held
  Effect-IsHeld (replay r) f = rw f h.held
  Effect-IsHeld (busy_with r) f = rw f h.held
  Effect-IsHeld (reject r) f = rw f h.held

unchanged :
    {a b : Admission} (c c' : Coordinator) {d : Decision}
    → d ≡ some (a, c)
    → d ≡ some (b, c')
    → c ≡ c'
unchanged c c' e f = cc

module _ (v : Heapless) (laws : IsHeapless v) (e : CacheEntry) (a : is_active_state e.state ≡ true)
    {c : Coordinator} (h : Holds e c) where
  admitted-Holds :
      (q : OwnedRequest) (d : Admission) (payload : List ℕ) (busy : Bool) (c' : Coordinator)
      → q.body ≡ raw payload
      → q.request_kind ≡ response_expected
      → admit_prepared v busy c q ≡ some (d, c')
      → Holds e c'
  admitted-Holds q d payload busy c' body kind same =
      let effect =
        subst (λ o. Outcome c (entry_for c q) o) same
          (admit_prepared-Outcome v laws h.valid q {payload = payload} body busy kind) in
      elim (Option-cases (find_sequence q.sequence c.cache)) [
        | inl new ↦ record {
          valid = effect.0;
          held = Effect-IsHeld e (entry_for c q) c c' h new a refl d effect.1;
        }
        | inr (entry, cached) ↦
            subst (Holds e) (unchanged c c' (prepared_cached v c q busy entry kind cached) same) h
      ]

  heartbeat-Holds :
      (q : OwnedRequest) (d : Admission) (payload : List ℕ) (busy : Bool) (c' : Coordinator)
      → q.body ≡ raw payload
      → q.command_type ≡ CommandType.heartbeat
      → q.request_kind ≡ no_response_heartbeat
      → admit_prepared v busy c q ≡ some (d, c')
      → Holds e c'
  heartbeat-Holds q d payload busy c' body type kind same =
      let (d', silent) = silent_heartbeat v busy c q payload body type kind in
      subst (Holds e) (unchanged c c' silent same) h

  completed-Holds :
      (other : CompletionToken) (response : CachedResponse) (c' : Coordinator)
      → same_token e.token other ≡ false
      → complete c other response ≡ ok c'
      → Holds e c'
  completed-Holds other response c' ne e_ok =
      let (l, done, cache, next) = complete-cases c c' other response e_ok in
      record {
        valid = complete-IsCoordinator c other response c' h.valid e_ok;
        held = rw (cache) (complete_entry-IsHeld e other response c.cache l done ne h.held);
      }

  aborted-Holds : Holds e (abort_batch c)
  unfolding abort_batch
  aborted-Holds = record {
    valid = record { few = h.valid.few; below = h.valid.below };
    held = h.held;
  }

module _ (v : Heapless) (laws : IsHeapless v) (e : CacheEntry)
    (a : is_active_state e.state ≡ true) where
  pub Meanwhile-Holds : {c c' : Coordinator} → Meanwhile v e.token c c' → Holds e c → Holds e c'
  Meanwhile-Holds nothing held = held
  Meanwhile-Holds (admits {c2 = c2} q d payload busy before body kind h) held =
      admitted-Holds v laws e a (Meanwhile-Holds before held) q d payload busy c2 body kind h
  Meanwhile-Holds (admits_heartbeat {c2 = c2} q d payload busy before body type kind h) held =
      heartbeat-Holds v laws e a (Meanwhile-Holds before held) q d payload busy c2 body type kind h
  Meanwhile-Holds (completes {c2 = c2} other response before ne h) held =
      completed-Holds v laws e a (Meanwhile-Holds before held) other response c2 ne h
  Meanwhile-Holds (aborts before) held = aborted-Holds v laws e a (Meanwhile-Holds before held)
