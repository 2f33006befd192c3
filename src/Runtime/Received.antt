-- ===== src/Runtime/Received.antt =====
-- src/coordinator.rs: requests as the receiver makes them, and their admission.
use rp2350_keymouse_bridge_f.Common.{
  ◌≡◌, refl, sym, ◌∙◌, ap, subst, arith, ◌⊎◌, inl, inr, none, some, List, [], Bool, Option-cases,
  Result-cases, ok, err, ℕ,
}
use rp2350_keymouse_bridge_f.Common.Heapless.{Heapless, IsHeapless}
use rp2350_keymouse_bridge_f.Protocol.{
  CommandType, Frame, RequestKind, response_expected, no_response_heartbeat,
}
use rp2350_keymouse_bridge_f.Protocol.{max_payload_size, RequestError}
use rp2350_keymouse_bridge_f.Protocol.Request.{validate_request, validate_request_iff}
use rp2350_keymouse_bridge_f.Errors.{from_request, frame_too_long}
use rp2350_keymouse_bridge_f.Coordinator.{
  CachedResponse, CompletionToken, OwnedRequest, raw, request_from_frame, fingerprint,
}
use rp2350_keymouse_bridge_f.Coordinator.Cache.{Coordinator, complete, CacheEntry}
use rp2350_keymouse_bridge_f.Coordinator.Insert.{IsCoordinator}
use rp2350_keymouse_bridge_f.Coordinator.Outcome.{Outcome, entry_for}
use rp2350_keymouse_bridge_f.Coordinator.Replay.{admit_prepared-Outcome}
use rp2350_keymouse_bridge_f.Coordinator.Admit.{Decision, admit_prepared}
use rp2350_keymouse_bridge_f.Coordinator.Meanwhile.{silent_heartbeat, complete-IsCoordinator}
use rp2350_keymouse_bridge_f.Runtime.{completed_or}
use rp2350_keymouse_bridge_f.Runtime.Mode.{is_collecting, complete-is_collecting}

-- A request as `request_from_frame` makes it, stamped with a session.
pub record IsReceived (v : Heapless) (request : OwnedRequest) : Type 0 where
  pub frame : Frame
  pub session : ℕ
  pub made : OwnedRequest
  pub from_wire : request_from_frame v frame ≡ ok made
  pub stamped : request ≡ record made { runtime_session = session }

made_lem :
    (v : Heapless) (frame : Frame) (k : RequestKind) (payload : List ℕ)
    → validate_request frame ≡ ok k
    → v.extend_from_slice ℕ max_payload_size [] frame.payload ≡ some payload
    → request_from_frame v frame
      ≡ ok (record {
        version = frame.version;
        flags = frame.flags;
        sequence = frame.sequence;
        command_type = frame.command_type;
        fingerprint = fingerprint frame;
        request_kind = k;
        completion_token = none;
        body = raw payload;
        runtime_session = 0;
      })
unfolding request_from_frame
made_lem v frame k payload valid copied = ground (arith, valid, copied)

unmade_lem :
    (v : Heapless) (frame : Frame) (k : RequestKind)
    → validate_request frame ≡ ok k
    → v.extend_from_slice ℕ max_payload_size [] frame.payload ≡ none
    → request_from_frame v frame ≡ err frame_too_long
unfolding request_from_frame
unmade_lem v frame k valid copied = ground (arith, valid, copied)

invalid_lem :
    (v : Heapless) (frame : Frame) (e : RequestError)
    → validate_request frame ≡ err e
    → request_from_frame v frame ≡ err (from_request e)
unfolding request_from_frame
invalid_lem v frame e invalid = rw (invalid) refl

abbrev Kinds : OwnedRequest → Type 0
Kinds r =
    (r.request_kind ≡ response_expected)
    ⊎ ((r.request_kind ≡ no_response_heartbeat) × (r.command_type ≡ CommandType.heartbeat))

frame_kinds :
    (frame : Frame) (k : RequestKind)
    → validate_request frame ≡ ok k
    → (k ≡ response_expected)
      ⊎ ((k ≡ no_response_heartbeat) × (frame.command_type ≡ CommandType.heartbeat))
frame_kinds frame response_expected e = inl refl
frame_kinds frame no_response_heartbeat e = inr (refl, ((validate_request_iff frame).1.0 e).1)

request_from_frame_body :
    (v : Heapless) (frame : Frame) (r : OwnedRequest)
    → request_from_frame v frame ≡ ok r
    → (payload : List ℕ) × (r.body ≡ raw payload) × Kinds r
request_from_frame_body v frame r e = elim (Result-cases (validate_request frame)) [
  | inr (why, invalid) ↦ absurd (cc (invalid_lem v frame why invalid))
  | inl (k, valid) ↦ elim (Option-cases (v.extend_from_slice ℕ max_payload_size [] frame.payload)) [
    | inl copied ↦ absurd (cc (unmade_lem v frame k valid copied))
    | inr (payload, copied) ↦
        let same : r ≡ record {
          version = frame.version;
          flags = frame.flags;
          sequence = frame.sequence;
          command_type = frame.command_type;
          fingerprint = fingerprint frame;
          request_kind = k;
          completion_token = none;
          body = raw payload;
          runtime_session = 0;
        } =
          ground (arith, made_lem v frame k payload valid copied, e) in
        (payload, ap (λ r'. r'.body) same, subst Kinds (sym same) (frame_kinds frame k valid))
  ]
]

-- A stamped request has what the made one has.
pub received-Kinds :
    (v : Heapless) (request : OwnedRequest)
    → IsReceived v request
    → (payload : List ℕ) × (request.body ≡ raw payload) × Kinds request
received-Kinds v request r =
    let (payload, body, kinds) = request_from_frame_body v r.frame r.made r.from_wire in
    (payload, ap (λ q. q.body) r.stamped ∙ body, subst Kinds (sym r.stamped) kinds)

abbrev pub IsValidDecision : Decision → Type 0
IsValidDecision none = ⊥
IsValidDecision (some (a, c)) = IsCoordinator c

Outcome-IsValid :
    (c : Coordinator) (e : CacheEntry) (d : Decision) → Outcome c e d → IsValidDecision d
Outcome-IsValid c e none h = h
Outcome-IsValid c e (some (a, c')) h = h.0

pub admitted-IsValid :
    (v : Heapless) (laws : IsHeapless v) (c : Coordinator) (request : OwnedRequest) (busy : Bool)
    → IsCoordinator c
    → IsReceived v request
    → IsValidDecision (admit_prepared v busy c request)
admitted-IsValid v laws c request busy valid r =
    let (payload, body, kinds) = received-Kinds v request r in
    elim kinds [
      | inl expected ↦ Outcome-IsValid c (entry_for c request) _ (
          admit_prepared-Outcome v laws {c = c} valid request {payload = payload} body busy
            expected)
      | inr (silent, heartbeat) ↦
          let (a, same) = silent_heartbeat v busy c request payload body heartbeat silent in
          rw (same) valid
    ]

pub completed_or-IsCoordinator :
    (c : Coordinator) (t : CompletionToken) (r : CachedResponse)
    → IsCoordinator c
    → IsCoordinator (completed_or c (complete c t r))
      × (is_collecting (completed_or c (complete c t r)).batch_state ≡ is_collecting c.batch_state)
completed_or-IsCoordinator c t r valid = elim (Result-cases (complete c t r)) [
  | inr (why, e) ↦ rw (e) (valid, refl)
  | inl (done, e) ↦
      rw (e) (complete-IsCoordinator c t r done valid e, complete-is_collecting c done t r e)
]
