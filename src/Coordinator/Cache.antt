-- ===== src/Coordinator/Cache.antt =====
-- src/coordinator.rs: the response cache, `insert_active`, `complete` and the session.
use rp2350_keymouse_bridge_f.Common.{
  ℕ, zero, suc, ◌+◌, ◌-◌, ◌%◌, Option, none, some, is_some, List, [], ◌∷◌, Bool, true, false, not,
  ◌&&◌, ◌||◌, ◌==◌, ltb, leb, if◌then◌else◌, Result, ok, err, length, get_elem?, set, u64_mod,
}
use rp2350_keymouse_bridge_f.Common.Heapless.{Heapless}
use rp2350_keymouse_bridge_f.Coordinator.{
  response_cache_size, CachedResponse, CompletionToken, same_token, OwnedRequest, CompletionError,
  stale_completion, response_sequence_mismatch, response_version_mismatch, non_final_response,
  expected_final_response, is_final_response,
}

pub data CacheState : Type 0 where
  active : CacheState
  completed : CachedResponse → CacheState

pub record CacheEntry : Type 0 where
  pub sequence : ℕ
  pub fingerprint : ℕ
  pub token : CompletionToken
  pub state : CacheState

pub data BatchState : Type 0 where
  idle collecting : BatchState
  executing : CompletionToken → BatchState

pub record Coordinator : Type 0 where
  pub cache : List CacheEntry
  pub next_evict : ℕ
  pub session_generation : ℕ
  pub next_admission_id : ℕ
  pub executor_owner : Option CompletionToken
  pub batch_state : BatchState

unfoldable pub new : Coordinator
new = record {
  cache = [];
  next_evict = 0;
  session_generation = 0;
  next_admission_id = 1;
  executor_owner = none;
  batch_state = idle;
}

-- `entry.state == CacheState::Active`
abbrev pub is_active_state : CacheState → Bool
is_active_state active = true
is_active_state (completed r) = false

-- `iter().find` of a sequence.
unfoldable pub find_sequence : ℕ → List CacheEntry → Option CacheEntry
find_sequence sequence [] = none
find_sequence sequence (e ∷ rest) =
    let later = find_sequence sequence rest in if e.sequence == sequence then some e else later

unfoldable pub has_cached_sequence : Coordinator → ℕ → Bool
unfolding find_sequence
has_cached_sequence c sequence = is_some (find_sequence sequence c.cache)

unfoldable pub is_batch_executing : BatchState → Bool
is_batch_executing idle = false
is_batch_executing collecting = false
is_batch_executing (executing owner) = true

unfoldable pub is_executor_occupied : Coordinator → Bool
unfolding is_batch_executing
is_executor_occupied c = is_some c.executor_owner || is_batch_executing c.batch_state

unfoldable pub abort_collecting : BatchState → BatchState
abort_collecting idle = idle
abort_collecting collecting = idle
abort_collecting (executing owner) = executing owner

unfoldable pub abort_batch : Coordinator → Coordinator
unfolding abort_collecting
abort_batch c = record c { batch_state = abort_collecting c.batch_state }

-- `u64::checked_add`
abbrev pub checked_add64 : ℕ → ℕ → Option ℕ
checked_add64 a b = if ltb (a + b) u64_mod then some (a + b) else none

-- `none` is the panic when the generations are used up.
unfoldable pub clear_session : Coordinator → Option Coordinator
clear_session c = elim (checked_add64 c.session_generation 1) [
  | none ↦ none
  | some generation ↦ some (record {
    cache = [];
    next_evict = 0;
    session_generation = generation;
    next_admission_id = c.next_admission_id;
    executor_owner = none;
    batch_state = idle;
  })
]

-- `filter(Active).count()`
unfoldable pub active_entries : List CacheEntry → ℕ
active_entries [] = 0
active_entries (e ∷ rest) =
    if is_active_state e.state then suc (active_entries rest) else active_entries rest

-- The search for an entry to replace, over the offsets left.
unfoldable pub completed_index : ℕ → List CacheEntry → ℕ → Option ℕ
completed_index zero cache index = none
completed_index (suc offsets) cache index =
    let later = completed_index offsets cache ((index + 1) % response_cache_size) in
    elim (get_elem? cache index) [
      | none ↦ none
      | some e ↦ if is_active_state e.state then later else some index
    ]

-- The token, and the coordinator with the next admission id.
unfoldable pub next_completion_token :
    Coordinator → OwnedRequest → Option (CompletionToken × Coordinator)
next_completion_token c request = elim (checked_add64 c.next_admission_id 1) [
  | none ↦ none
  | some next_id ↦ some (
    record {
      session_generation = c.session_generation;
      admission_id = c.next_admission_id;
      version = request.version;
      sequence = request.sequence;
      fingerprint = request.fingerprint;
      expected_response = expected_final_response request.command_type;
    },
    record c { next_admission_id = next_id },
  )
]

-- Where the new entry goes.
pub data Placement : Type 0 where
  refused append : Placement
  replace : ℕ → Placement

unfoldable pub placement : Coordinator → Bool → Placement
unfolding active_entries completed_index
placement c urgent =
    if not urgent && leb (response_cache_size - 1) (active_entries c.cache)
    then refused
    else if ltb (length c.cache) response_cache_size
    then append
    else elim (completed_index response_cache_size c.cache (c.next_evict % response_cache_size)) [
      | none ↦ refused
      | some index ↦ replace index
    ]

abbrev pub active_entry : OwnedRequest → CompletionToken → CacheEntry
active_entry request token = record {
  sequence = request.sequence;
  fingerprint = request.fingerprint;
  token = token;
  state = active;
}

-- What `insert_active` leaves: its answer, the coordinator and the request.
pub record Inserted : Type 0 where
  pub inserted : Bool
  pub coordinator : Coordinator
  pub request : OwnedRequest

module _ (v : Heapless) where
  -- The write of the entry at its place.
  unfoldable pub place_entry : Placement → Coordinator → CacheEntry → Option Coordinator
  place_entry refused c entry = none
  place_entry (replace index) c entry =
      some (record c {
        cache = set c.cache index entry;
        next_evict = (index + 1) % response_cache_size;
      })
  place_entry append c entry = elim (v.push CacheEntry response_cache_size c.cache entry) [
    | none ↦ none
    | some cache ↦ some (record c { cache = cache })
  ]

  unfoldable pub insert_placed : Placement → Coordinator → OwnedRequest → Inserted
  unfolding next_completion_token place_entry
  insert_placed refused c request = record { inserted = false; coordinator = c; request = request }
  insert_placed place c request = elim (next_completion_token c request) [
    | none ↦ record { inserted = false; coordinator = c; request = request }
    | some (token, c') ↦ elim (place_entry place c' (active_entry request token)) [
      | none ↦ record { inserted = false; coordinator = c'; request = request }
      | some c'' ↦ record {
        inserted = true;
        coordinator = c'';
        request = record request { completion_token = some token };
      }
    ]
  ]

  unfoldable pub insert_active : Coordinator → OwnedRequest → Bool → Inserted
  unfolding insert_placed placement
  insert_active c request urgent = insert_placed (placement c urgent) c request

-- The entry of an active token, completed; `none` when there is none.
unfoldable pub complete_entry :
    CompletionToken → CachedResponse → List CacheEntry → Option (List CacheEntry)
complete_entry token response [] = none
complete_entry token response (e ∷ rest) =
    let later = complete_entry token response rest in
    if same_token e.token token && is_active_state e.state
    then some (record e { state = completed response } ∷ rest)
    else elim later [ none ↦ none | some done ↦ some (e ∷ done) ]

unfoldable pub release_owner : CompletionToken → Option CompletionToken → Option CompletionToken
release_owner token none = none
release_owner token (some owner) = if same_token owner token then none else some owner

unfoldable pub release_batch : CompletionToken → BatchState → BatchState
release_batch token idle = idle
release_batch token collecting = collecting
release_batch token (executing owner) = if same_token owner token then idle else executing owner

-- The coordinator afterwards, which an error leaves as it was.
unfoldable pub complete :
    Coordinator → CompletionToken → CachedResponse → Result CompletionError Coordinator
unfolding complete_entry release_owner release_batch
complete c token response =
    if not (response.sequence == token.sequence)
    then err response_sequence_mismatch
    else if not (response.version == token.version)
    then err response_version_mismatch
    else if not (is_final_response response token.expected_response)
    then err non_final_response
    else elim (complete_entry token response c.cache) [
      | none ↦ err stale_completion
      | some cache ↦ ok (record c {
        cache = cache;
        executor_owner = release_owner token c.executor_owner;
        batch_state = release_batch token c.batch_state;
      })
    ]
