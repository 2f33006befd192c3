-- ===== src/Coordinator/Retry.antt =====
-- src/coordinator.rs: a request is carried out once, and its retries get the same response.
use rp2350_keymouse_bridge_f.Common.{ℕ, ◌≡◌, refl, ◌∙◌, subst, arith, some, List, Bool, ==_refl, ok}
use rp2350_keymouse_bridge_f.Common.Heapless.{Heapless, IsHeapless}
use rp2350_keymouse_bridge_f.Protocol.{response_expected}
use rp2350_keymouse_bridge_f.Coordinator.{
  CachedResponse, CompletionToken, OwnedRequest, raw, Admission, replay, busy_with,
  active_duplicate,
}
use rp2350_keymouse_bridge_f.Coordinator.Cache.{completed, Coordinator, complete}
use rp2350_keymouse_bridge_f.Coordinator.Insert.{IsCoordinator, token_for}
use rp2350_keymouse_bridge_f.Coordinator.Outcome.{entry_for, Outcome}
use rp2350_keymouse_bridge_f.Coordinator.Admit.{admit_prepared}
use rp2350_keymouse_bridge_f.Coordinator.Answers.{
  answer_active, answer_completed, carried, complete-cache, prepared_cached,
}
use rp2350_keymouse_bridge_f.Coordinator.Tokens.{placed-IsHeld, complete_entry-held}
use rp2350_keymouse_bridge_f.Coordinator.Replay.{admit_prepared-Outcome, went_on}
use rp2350_keymouse_bridge_f.Coordinator.Meanwhile.{Meanwhile, Holds, Meanwhile-Holds}

module _ (v : Heapless) (laws : IsHeapless v) {c : Coordinator} (valid : IsCoordinator c)
    (request : OwnedRequest) {payload : List ℕ} (from_wire : request.body ≡ raw payload)
    (kind : request.request_kind ≡ response_expected) (busy_before busy_after : Bool)
    (d : Admission) (r : OwnedRequest) (c' : Coordinator)
    (admitted : admit_prepared v busy_before c request ≡ some (d, c'))
    (went : carried d ≡ some r) where
  went_on-Holds : Holds (entry_for c request) c'
  went_on-Holds =
      let (new, accepted) =
        went_on v laws valid request from_wire busy_before d r c' kind admitted went in
      let effect =
        subst (λ o. Outcome c (entry_for c request) o) admitted
          (admit_prepared-Outcome v laws valid request {payload = payload} from_wire busy_before
            kind) in
      record {
        valid = effect.0;
        held = placed-IsHeld (entry_for c request) accepted.placed new valid.below;
      }

  token_lem : (t : CompletionToken) → r.completion_token ≡ some t → t ≡ token_for c request
  token_lem t token =
      let (new, accepted) =
        went_on v laws valid request from_wire busy_before d r c' kind admitted went in
      ground (arith, accepted.tagged)

  later-Holds :
      (t : CompletionToken) (c1 : Coordinator)
      → r.completion_token ≡ some t
      → Meanwhile v t c' c1
      → Holds (entry_for c request) c1
  later-Holds t c1 token meanwhile =
      Meanwhile-Holds v laws (entry_for c request) refl
        (subst (λ k. Meanwhile v k c' c1) (token_lem t token) meanwhile) went_on-Holds

  -- A request from the wire that expects a response, offered to a valid coordinator, was handed on,
  -- to be executed, collected, bypassed or to stop, with its token. From there on, while it is not
  -- completed and the session is not cleared, so after any sequence of admissions of wire requests,
  -- completions of other tokens and aborts of an open batch, the same request is answered as an
  -- active duplicate, whether or not an emergency release is busy, and nothing changes. The vectors
  -- are any with the documented behaviour.
  pub admit_prepared_duplicate :
      (t : CompletionToken) (c1 : Coordinator)
      → r.completion_token ≡ some t
      → Meanwhile v t c' c1
      → admit_prepared v busy_after c1 request ≡ some (busy_with active_duplicate, c1)
  admit_prepared_duplicate t c1 token meanwhile =
      prepared_cached v c1 request busy_after (entry_for c request) kind
        (later-Holds t c1 token meanwhile).held.0
      ∙ rw (answer_active v (entry_for c request) request (==_refl request.fingerprint) refl)

  -- A request from the wire that expects a response, offered to a valid coordinator, was handed on,
  -- to be executed, collected, bypassed or to stop, and was then completed with its token, at once
  -- or after any sequence of admissions of wire requests, completions of other tokens and aborts of
  -- an open batch: whatever the response, the same request is answered by that response again and
  -- is not carried out again, whether or not an emergency release is busy, and nothing changes. The
  -- vectors are any with the documented behaviour.
  pub admit_prepared-replay :
      (t : CompletionToken) (response : CachedResponse) (c1 c2 : Coordinator)
      → r.completion_token ≡ some t
      → Meanwhile v t c' c1
      → complete c1 t response ≡ ok c2
      → admit_prepared v busy_after c2 request ≡ some (replay response, c2)
  admit_prepared-replay t response c1 c2 token meanwhile done =
      let (l, entry, found) =
        complete_entry-held (entry_for c request) response c1.cache refl
          (later-Holds t c1 token meanwhile).held in
      let cache = complete-cache c1 c2 t response l (rw (token_lem t token) entry) done in
      prepared_cached v c2 request busy_after
        (record (entry_for c request) { state = completed response }) kind (rw cache found)
      ∙ rw (
          answer_completed v (record (entry_for c request) { state = completed response }) request
            response (==_refl request.fingerprint) refl)
