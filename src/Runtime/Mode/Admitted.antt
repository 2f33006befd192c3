-- ===== src/Runtime/Mode/Admitted.antt =====
-- src/coordinator.rs and src/runtime.rs: what the admission of a request does to the batch.
use rp2350_keymouse_bridge_f.Common.{
  ◌≡◌, refl, sym, subst, arith, inl, inr, some, List, Bool, true, false, Bool-cases, Option-cases,
  Result-cases, ℕ,
}
use rp2350_keymouse_bridge_f.Common.Heapless.{Heapless, IsHeapless}
use rp2350_keymouse_bridge_f.Coordinator.{OwnedRequest, raw, own_request_body}
use rp2350_keymouse_bridge_f.Coordinator.Cache.{Coordinator, find_sequence, CacheEntry}
use rp2350_keymouse_bridge_f.Coordinator.Insert.{IsCoordinator}
use rp2350_keymouse_bridge_f.Coordinator.Admit.{
  decode_body, request_frame, admit_new, admit_prepared, answer_cached, is_response_expected,
}
use rp2350_keymouse_bridge_f.Coordinator.Answers.{
  new_refused, new_classified, answer_cases, prepared_new,
}
use rp2350_keymouse_bridge_f.Runtime.{is_batch_end}
use rp2350_keymouse_bridge_f.Runtime.Mode.{Mode, EndOf, own_body-EndOf}
use rp2350_keymouse_bridge_f.Runtime.Mode.Classes.{body-ClassMode}

module _ (v : Heapless) (laws : IsHeapless v) (c : Coordinator) (valid : IsCoordinator c)
    (request : OwnedRequest) (busy : Bool) {payload : List ℕ}
    (from_wire : request.body ≡ raw payload) where
  decoded : EndOf (is_batch_end request.command_type) (decode_body v request request.body)
  unfolding decode_body own_request_body
  decoded =
      subst (λ b. EndOf (is_batch_end request.command_type) (decode_body v request b))
        (sym from_wire) (own_body-EndOf v request.command_type (request_frame v request payload))

  new-Mode : Mode busy request.command_type c (admit_new v busy c request)
  new-Mode = elim (Result-cases (decode_body v request request.body)) [
    | inr (e, h) ↦ rw (new_refused v busy c request e h) refl
    | inl (body, h) ↦
        let (k, e, m) =
          body-ClassMode v laws c valid (record request { body = body }) request.command_type busy
            body (subst (λ r. EndOf (is_batch_end request.command_type) r) h decoded) refl in
        rw (new_classified v busy c request body k h e) m
  ]

  answer-Mode :
      (entry : CacheEntry)
      → Mode busy request.command_type c (some (answer_cached v entry request, c))
  answer-Mode entry = elim (answer_cases v entry request) [
    | inl h ↦ rw (h) refl
    | inr (inl h) ↦ rw (h) refl
    | inr (inr (r, h)) ↦ rw (h) refl
  ]

  prepared_silent :
      is_response_expected v request.request_kind ≡ false
      → admit_prepared v busy c request ≡ admit_new v busy c request
  unfolding admit_prepared
  prepared_silent h = rw (h) refl

  prepared_found :
      (entry : CacheEntry)
      → is_response_expected v request.request_kind ≡ true
      → find_sequence request.sequence c.cache ≡ some entry
      → admit_prepared v busy c request ≡ some (answer_cached v entry request, c)
  unfolding admit_prepared
  prepared_found entry h found = ground (arith, h, found)

  -- An admission executes or collects only while no release is on its way; it collects only in an
  -- open batch, ends one by executing its END, and opens one by answering at once.
  pub admit_prepared-Mode : Mode busy request.command_type c (admit_prepared v busy c request)
  admit_prepared-Mode = elim (Bool-cases (is_response_expected v request.request_kind)) [
    | inr h ↦ rw (prepared_silent h) new-Mode
    | inl h ↦ elim (Option-cases (find_sequence request.sequence c.cache)) [
      | inl new ↦ rw (prepared_new v c request busy new) new-Mode
      | inr (entry, found) ↦ rw (prepared_found entry h found) (answer-Mode entry)
    ]
  ]
