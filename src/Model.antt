-- ===== src/Model.antt =====
-- src/coordinator.rs: `IncomingRequest`, and `RuntimeModel`, the dispatcher's ordering for tests on
-- the host.
pub mod Dispatched
mod Tests
use rp2350_keymouse_bridge_f.Common.{
  ℕ, ◌+◌, Option, none, some, List, [], ◌∷◌, Bool, true, false, ◌&&◌, ◌==◌, if◌then◌else◌, Result,
  ok, err,
}
use rp2350_keymouse_bridge_f.Common.Heapless.{Heapless}
use rp2350_keymouse_bridge_f.Protocol.{CommandType, Frame, protocol_version, max_payload_size}
use rp2350_keymouse_bridge_f.Errors.{ErrorCode, cancelled, batch_state}
use rp2350_keymouse_bridge_f.Coordinator.{
  response_cache_size, kept, CachedResponse, nack, busy, CompletionToken, token_ack, Admission,
  execute, collect, bypass, no_response, stop, replay, immediate, busy_with, reject, SafetyEvent,
  dtr_lost, usb_disabled, lease_expired,
}
use rp2350_keymouse_bridge_f.Coordinator.Cache
use rp2350_keymouse_bridge_f.Coordinator.Cache.{
  CacheEntry, is_active_state, BatchState, idle, Coordinator, complete, clear_session,
  has_cached_sequence,
}
use rp2350_keymouse_bridge_f.Coordinator.Admit.{Decision, admit}
use rp2350_keymouse_bridge_f.Runtime.{completed_or, token_nack}
use rp2350_keymouse_bridge_f.Runtime.Session.{advance_session_generation}

pub record IncomingRequest : Type 0 where
  pub version : ℕ
  pub flags : ℕ
  pub sequence : ℕ
  pub command_type : CommandType
  pub payload : List ℕ

-- `IncomingRequest::as_frame`
unfoldable pub as_frame : IncomingRequest → Frame
as_frame r = record {
  version = r.version;
  flags = r.flags;
  sequence = r.sequence;
  command_type = r.command_type;
  payload = r.payload;
}

pub record RuntimeModel : Type 0 where
  pub coordinator : Coordinator
  pub input_held : Bool
  pub pending_stops : List CompletionToken
  pub emergency_in_flight : Bool
  pub session_generation : ℕ
  pub dtr_ready : Bool
  pub applied_session : ℕ

pub data ModelEvent : Type 0 where
  start : ℕ → ModelEvent
  respond : CachedResponse → ModelEvent
  cancel_and_release cancel_only : ℕ → ModelEvent
  cancel_release_and_reset_session cancel_and_reset_session : ModelEvent

pub data ReadSessionDecision : Type 0 where
  accept_read discard_and_restart : ℕ → ReadSessionDecision

unfoldable pub new_model : RuntimeModel
unfolding Cache.new
new_model = record {
  coordinator = Cache.new;
  input_held = false;
  pending_stops = [];
  emergency_in_flight = false;
  session_generation = 1;
  dtr_ready = true;
  applied_session = 1;
}

unfoldable pub response_is_current : RuntimeModel → CachedResponse → Bool
response_is_current m response = response.runtime_session == m.session_generation

unfoldable pub begin_read : RuntimeModel → Option ℕ
begin_read m =
    if m.dtr_ready && (m.applied_session == m.session_generation)
    then some m.session_generation
    else none

unfoldable pub complete_read : RuntimeModel → ℕ → ReadSessionDecision
complete_read m read_session =
    if read_session == m.session_generation
    then accept_read read_session
    else discard_and_restart m.session_generation

unfoldable pub note_dtr : Bool → RuntimeModel → RuntimeModel
note_dtr ready m = record m { dtr_ready = ready }

unfoldable pub note_input_held : Bool → RuntimeModel → RuntimeModel
note_input_held held m = record m { input_held = held }

unfoldable pub complete_session_reset : RuntimeModel → RuntimeModel
complete_session_reset m = record m { applied_session = m.session_generation }

-- An event and the model afterwards; `none` is a panic.
abbrev pub Modelled : Type 0
Modelled = Option (ModelEvent × RuntimeModel)

-- `matches!(event, DtrLost | UsbDisabled)`
unfoldable pub is_line_lost : SafetyEvent → Bool
is_line_lost dtr_lost = true
is_line_lost usb_disabled = true
is_line_lost lease_expired = false

unfoldable pub safety_event : SafetyEvent → RuntimeModel → Modelled
unfolding is_line_lost
safety_event event m = elim (clear_session m.coordinator) [
  | none ↦ none
  | some cleared ↦ some (
    if m.emergency_in_flight then cancel_and_reset_session else cancel_release_and_reset_session,
    record {
      coordinator = cleared;
      input_held = false;
      pending_stops = [];
      emergency_in_flight = true;
      session_generation = advance_session_generation m.session_generation;
      dtr_ready = if is_line_lost event then false else m.dtr_ready;
      applied_session = m.applied_session;
    },
  )
]

-- `!matches!(batch_mode(), BatchMode::Idle)`
unfoldable pub has_batch_in : BatchState → Bool
has_batch_in idle = false
has_batch_in other = true

unfoldable pub has_batch : RuntimeModel → Bool
unfolding has_batch_in
has_batch m = has_batch_in m.coordinator.batch_state

unfoldable pub has_cached : RuntimeModel → ℕ → Bool
has_cached m sequence = has_cached_sequence m.coordinator sequence

-- The `find` of `active_token`.
unfoldable pub active_token : ℕ → List CacheEntry → Option CompletionToken
active_token sequence [] = none
active_token sequence (e ∷ rest) =
    let later = active_token sequence rest in
    if (e.sequence == sequence) && is_active_state e.state then some e.token else later

module _ (v : Heapless) where
  -- `IncomingRequest::from_frame`; `none` is `PayloadTooLong`.
  unfoldable pub incoming_from_frame : Frame → Option IncomingRequest
  incoming_from_frame frame = elim (v.extend_from_slice ℕ max_payload_size [] frame.payload) [
    | none ↦ none
    | some payload ↦ some (record {
      version = frame.version;
      flags = frame.flags;
      sequence = frame.sequence;
      command_type = frame.command_type;
      payload = payload;
    })
  ]

  unfoldable pub admit_owned : Coordinator → IncomingRequest → Decision
  unfolding as_frame
  admit_owned c request = admit v c (as_frame request)

  -- A stop waits for the release, which is scheduled once.
  unfoldable pub pend_stop : ℕ → Option CompletionToken → RuntimeModel → Modelled
  pend_stop stop_sequence none m = none
  pend_stop stop_sequence (some token) m = some (
    if m.emergency_in_flight then cancel_only stop_sequence else cancel_and_release stop_sequence,
    record m {
      pending_stops =
          kept m.pending_stops (v.push CompletionToken response_cache_size m.pending_stops token);
      emergency_in_flight = true;
    },
  )

  -- The `match` on the admission of a frame.
  unfoldable pub take_admission : Frame → Admission → RuntimeModel → Modelled
  unfolding pend_stop
  take_admission frame (execute request) m = some (start request.sequence, m)
  take_admission frame (collect request) m = some (start request.sequence, m)
  take_admission frame (bypass request) m = some (start request.sequence, m)
  take_admission frame (no_response request) m = some (start request.sequence, m)
  take_admission frame (stop request) m = pend_stop request.sequence request.completion_token m
  take_admission frame (replay response) m = some (respond response, m)
  take_admission frame (immediate response) m = some (respond response, m)
  take_admission frame (busy_with reason) m =
      some (respond (busy v frame.version frame.sequence reason 1), m)
  take_admission frame (reject error) m =
      some (respond (nack v frame.version frame.sequence error), m)

  unfoldable pub accept : Frame → RuntimeModel → Modelled
  unfolding take_admission
  accept frame m = elim (admit v m.coordinator frame) [
    | none ↦ none
    | some (admission, c) ↦ take_admission frame admission (record m { coordinator = c })
  ]

  -- `none` outside is a panic, `none` inside a request of another session.
  unfoldable pub accept_from_session :
      ℕ → Frame → RuntimeModel → Option (Option ModelEvent × RuntimeModel)
  unfolding accept
  accept_from_session session_generation frame m =
      if session_generation == m.session_generation
      then (elim (accept frame m) [ none ↦ none | some (event, m') ↦ some (some event, m') ])
      else some (none, m)

  unfoldable pub complete_executor_cancelled : ℕ → RuntimeModel → List CachedResponse × RuntimeModel
  unfolding active_token token_nack
  complete_executor_cancelled sequence m = elim (active_token sequence m.coordinator.cache) [
    | none ↦ ([], record m { input_held = false })
    | some token ↦
        let response = token_nack v token cancelled in
        (
          kept [] (v.push CachedResponse 1 [] response),
          record m {
            coordinator = completed_or m.coordinator (complete m.coordinator token response);
            input_held = false;
          },
        )
  ]

  -- The loop over the stops that a release answers, with the responses so far.
  unfoldable pub answer_stops :
      List CompletionToken → List CachedResponse → Coordinator → List CachedResponse × Coordinator
  answer_stops [] responses c = (responses, c)
  answer_stops (token ∷ tokens) responses c = elim (complete c token (token_ack token)) [
    | err e ↦ answer_stops tokens responses c
    | ok done ↦
        answer_stops tokens
          (kept responses (v.push CachedResponse response_cache_size responses (token_ack token)))
          done
  ]

  unfoldable pub complete_model_emergency : RuntimeModel → List CachedResponse × RuntimeModel
  unfolding answer_stops
  complete_model_emergency m =
      let (responses, c) = answer_stops m.pending_stops [] m.coordinator in
      (
        responses,
        record m {
          coordinator = c;
          pending_stops = [];
          emergency_in_flight = false;
          input_held = false;
        },
      )

  unfoldable pub complete_cancelled : ℕ → RuntimeModel → List CachedResponse × RuntimeModel
  unfolding complete_executor_cancelled complete_model_emergency
  complete_cancelled sequence m =
      let (cancelled_responses, m') = complete_executor_cancelled sequence m in
      let (stop_responses, m'') = complete_model_emergency m' in
      let capacity = response_cache_size + 1 in
      let first = kept [] (v.extend_from_slice CachedResponse capacity [] cancelled_responses) in
      (kept first (v.extend_from_slice CachedResponse capacity first stop_responses), m'')

  abbrev pub begin_frame : ℕ → Frame
  begin_frame sequence = record {
    version = protocol_version;
    flags = 0;
    sequence = sequence;
    command_type = CommandType.batch_begin;
    payload = [];
  }

  abbrev pub is_ack : CommandType → Bool
  is_ack CommandType.ack = true
  is_ack other = false

  -- Only an ACK opens the batch.
  abbrev pub begun : ModelEvent → Result ErrorCode (Unit {0})
  begun (respond response) = if is_ack response.command_type then ok tt else err batch_state
  begun other = err batch_state

  unfoldable pub begin_model_batch :
      ℕ → RuntimeModel → Option (Result ErrorCode (Unit {0}) × RuntimeModel)
  unfolding accept
  begin_model_batch sequence m = elim (accept (begin_frame sequence) m) [
    | none ↦ none
    | some (event, m') ↦ some (begun event, m')
  ]
