-- ===== src/Coordinator/Replay.antt =====
-- src/coordinator.rs: what every admission of a request from the wire gives.
use rp2350_keymouse_bridge_f.Common.{
  ℕ, ◌≡◌, refl, subst, arith, inl, inr, none, some, List, Bool, Option-cases, Result-cases,
}
use rp2350_keymouse_bridge_f.Common.Heapless.{Heapless, IsHeapless}
use rp2350_keymouse_bridge_f.Protocol.{response_expected}
use rp2350_keymouse_bridge_f.Coordinator.{OwnedRequest, raw, Admission}
use rp2350_keymouse_bridge_f.Coordinator.Cache.{Coordinator, find_sequence}
use rp2350_keymouse_bridge_f.Coordinator.Insert.{IsCoordinator}
use rp2350_keymouse_bridge_f.Coordinator.Outcome.{entry_for, IsAccepted, Outcome, BodyOf}
use rp2350_keymouse_bridge_f.Coordinator.Begin.{class-Outcome}
use rp2350_keymouse_bridge_f.Coordinator.Admit.{
  decode_body, admit_new, answer_cached, admit_prepared,
}
use rp2350_keymouse_bridge_f.Coordinator.Answers.{
  body_class, new_refused, new_classified, decode_body-BodyOf, answer-Effect, carried,
  carried-IsAccepted, carried-answer, prepared_new, prepared_cached,
}

module _ (v : Heapless) (laws : IsHeapless v) {c : Coordinator} (valid : IsCoordinator c)
    (request : OwnedRequest) {payload : List ℕ} (from_wire : request.body ≡ raw payload)
    (external_busy : Bool) where
  new-Outcome :
      find_sequence request.sequence c.cache ≡ none
      → Outcome c (entry_for c request) (admit_new v external_busy c request)
  new-Outcome new = elim (Result-cases (decode_body v request request.body)) [
    | inr (e, h) ↦ rw (new_refused v external_busy c request e h) (valid, refl)
    | inl (body, h) ↦
        let kind =
          subst (λ r. BodyOf request.command_type r) h
            (decode_body-BodyOf v request payload from_wire) in
        let (k, e, begins) = body_class request.command_type body kind in
        rw (new_classified v external_busy c request body k h e)
          (class-Outcome v laws c valid (record request { body = body }) k external_busy new begins)
  ]

  -- A request from the wire that expects a response, offered to a valid coordinator, never makes it
  -- panic and leaves it valid: at most 64 entries, each with a token older than the next one. When
  -- the request goes on, to be executed, collected, bypassed or to stop, it carries the next token
  -- and its active entry is in the cache, over a completed one or behind all others; when it is
  -- answered at once, its entry was placed so too and then completed, and that response is in the
  -- cache under its sequence; and in all other cases nothing has changed.
  pub admit_prepared-Outcome :
      request.request_kind ≡ response_expected
      → Outcome c (entry_for c request) (admit_prepared v external_busy c request)
  admit_prepared-Outcome kind = elim (Option-cases (find_sequence request.sequence c.cache)) [
    | inl new ↦ rw (prepared_new v c request external_busy new) (new-Outcome new)
    | inr (entry, found) ↦
        rw (prepared_cached v c request external_busy entry kind found)
          (valid, answer-Effect v entry request c (entry_for c request))
  ]

  -- A request that went on was new, and is now in the cache.
  pub went_on :
      (a : Admission) (r : OwnedRequest) (c' : Coordinator)
      → request.request_kind ≡ response_expected
      → admit_prepared v external_busy c request ≡ some (a, c')
      → carried a ≡ some r
      → (find_sequence request.sequence c.cache ≡ none) × IsAccepted c (entry_for c request) r c'
  went_on a r c' kind h went = elim (Option-cases (find_sequence request.sequence c.cache)) [
    | inl new ↦
        let effect =
          subst (λ d. Outcome c (entry_for c request) d) h (admit_prepared-Outcome kind) in
        (new, carried-IsAccepted a went effect.1)
    | inr (entry, found) ↦
        let same : answer_cached v entry request ≡ a =
          ground (arith, prepared_cached v c request external_busy entry kind found) in
        absurd (cc (carried-answer v entry request))
  ]
