-- ===== src/Coordinator/Insert.antt =====
-- src/coordinator.rs: what `insert_active` does.
use rp2350_keymouse_bridge_f.Common.{
  ℕ, zero, suc, ◌+◌, ◌-◌, ◌%◌, ◌≤◌, ◌<◌, ◌≡◌, refl, sym, arith, ◌⊎◌, inl, inr, some, List, [], ◌∷◌,
  ◌++◌, Bool, true, false, not, ◌&&◌, ltb, leb, ltb→lt, Bool-cases, Option-cases, length,
  length-append, length-set, get_elem?, set, u64_mod,
}
use rp2350_keymouse_bridge_f.Common.Heapless.{Heapless, IsHeapless}
use rp2350_keymouse_bridge_f.Coordinator.{
  response_cache_size, CompletionToken, OwnedRequest, expected_final_response,
}
use rp2350_keymouse_bridge_f.Coordinator.Cache.{
  CacheEntry, is_active_state, Coordinator, active_entries, completed_index, next_completion_token,
  Placement, refused, append, replace, placement, active_entry, Inserted, place_entry,
  insert_placed, insert_active,
}
use rp2350_keymouse_bridge_f.Coordinator.Lookup.{Placed, append-Placed, set-Placed, IsBelow}

-- At most 64 entries, each with a token given before the next one.
pub record IsCoordinator (c : Coordinator) : Type 0 where
  pub few : length c.cache ≤ response_cache_size
  pub below : IsBelow c.next_admission_id c.cache

abbrev pub token_for : Coordinator → OwnedRequest → CompletionToken
token_for c request = record {
  session_generation = c.session_generation;
  admission_id = c.next_admission_id;
  version = request.version;
  sequence = request.sequence;
  fingerprint = request.fingerprint;
  expected_response = expected_final_response request.command_type;
}

-- The request got a token, and an active entry for it is in the cache; the rest is as it was.
pub record IsAdded (c : Coordinator) (request : OwnedRequest) (i : Inserted) : Type 0 where
  pub answer : i.inserted ≡ true
  pub tagged : i.request ≡ record request { completion_token = some (token_for c request) }
  pub placed : Placed (active_entry request (token_for c request)) c.cache i.coordinator.cache
  pub next_id : i.coordinator.next_admission_id ≡ suc c.next_admission_id
  pub owner : i.coordinator.executor_owner ≡ c.executor_owner
  pub batch : i.coordinator.batch_state ≡ c.batch_state
  pub size : length i.coordinator.cache ≤ response_cache_size

abbrev pub IsRefused : Coordinator → OwnedRequest → Inserted → Type 0
IsRefused c request i = i ≡ record { inserted = false; coordinator = c; request = request }

abbrev IsPlace : Coordinator → Placement → Type 0
IsPlace c refused = Unit {0}
IsPlace c append = length c.cache < response_cache_size
IsPlace c (replace index) =
    (y : CacheEntry) × (get_elem? c.cache index ≡ some y) × (is_active_state y.state ≡ false)

-- The entry that is found to be replaced is not active.
completed_index-completed :
    (k : ℕ) (xs : List CacheEntry) (i j : ℕ)
    → completed_index k xs i ≡ some j
    → (y : CacheEntry) × (get_elem? xs j ≡ some y) × (is_active_state y.state ≡ false)
unfolding completed_index
completed_index-completed zero xs i j h = absurd (cc)
completed_index-completed (suc k) xs i j h = elim (Option-cases (get_elem? xs i)) [
  | inl e ↦ absurd (ground (arith, e))
  | inr (entry, e) ↦ elim (Bool-cases (is_active_state entry.state)) [
    | inl busy ↦
        completed_index-completed k xs ((i + 1) % response_cache_size) j (ground (arith, e, busy))
    | inr free ↦ let this : i ≡ j = ground (arith, e, free, h) in (entry, rw (sym this) e, free)
  ]
]

placement-IsPlace : (c : Coordinator) (urgent : Bool) → IsPlace c (placement c urgent)
unfolding placement
placement-IsPlace c urgent =
    elim (Bool-cases (not urgent && leb (response_cache_size - 1) (active_entries c.cache))) [
      | inl e ↦ rw e tt
      | inr e ↦ elim (Bool-cases (ltb (length c.cache) response_cache_size)) [
        | inl room ↦ rw (e, room) (ltb→lt (length c.cache) response_cache_size room)
        | inr full ↦
            elim (Option-cases
              (completed_index response_cache_size c.cache (c.next_evict % response_cache_size))) [
                | inl missing ↦ rw (e, full, missing) tt
                | inr (j, found) ↦
                    rw (e, full, found)
                      (completed_index-completed response_cache_size c.cache
                        (c.next_evict % response_cache_size) j found)
              ]
      ]
    ]

module _ (v : Heapless) (laws : IsHeapless v) (c : Coordinator) (valid : IsCoordinator c)
    (request : OwnedRequest) where
  abbrev added_to : List CacheEntry → ℕ → Inserted
  added_to cache evict = record {
    inserted = true;
    coordinator = record c {
      cache = cache;
      next_evict = evict;
      next_admission_id = c.next_admission_id + 1;
    };
    request = record request { completion_token = some (token_for c request) };
  }

  insert_append :
      ltb (c.next_admission_id + 1) u64_mod ≡ true
      → length c.cache < response_cache_size
      → insert_placed v append c request
        ≡ added_to (c.cache ++ active_entry request (token_for c request) ∷ []) c.next_evict
  unfolding insert_placed next_completion_token place_entry
  insert_append e h =
      let room =
        laws.push_room CacheEntry response_cache_size c.cache
          (active_entry request (token_for c request)) h in
      ground (arith, e, room)

  insert_replace :
      (index : ℕ)
      → ltb (c.next_admission_id + 1) u64_mod ≡ true
      → insert_placed v (replace index) c request
        ≡ added_to
            (set c.cache index (active_entry request (token_for c request)))
            ((index + 1) % response_cache_size)
  unfolding insert_placed next_completion_token place_entry
  insert_replace index e = ground (arith, e)

  insert_full :
      (p : Placement)
      → ltb (c.next_admission_id + 1) u64_mod ≡ false
      → IsRefused c request (insert_placed v p c request)
  unfolding insert_placed next_completion_token place_entry
  insert_full refused e = refl
  insert_full append e = ground (arith, e)
  insert_full (replace index) e = ground (arith, e)

  insert_nothing : IsRefused c request (insert_placed v refused c request)
  unfolding insert_placed
  insert_nothing = refl

  insert_placed_lem :
      (p : Placement)
      → IsPlace c p
      → IsRefused c request (insert_placed v p c request)
        ⊎ IsAdded c request (insert_placed v p c request)
  insert_placed_lem refused h = inl insert_nothing
  insert_placed_lem (replace index) h = elim (Bool-cases (ltb (c.next_admission_id + 1) u64_mod)) [
    | inr e ↦ inl (insert_full _ e)
    | inl e ↦ inr (
        rw (insert_replace index e) record {
          answer = refl;
          tagged = refl;
          placed = set-Placed _ c.cache index h.0 h.1 h.2;
          next_id = omega arith;
          owner = refl;
          batch = refl;
          size = omega (
            arith,
            length-set c.cache index (active_entry request (token_for c request)),
            valid.few,
          );
        })
  ]
  insert_placed_lem append h = elim (Bool-cases (ltb (c.next_admission_id + 1) u64_mod)) [
    | inr e ↦ inl (insert_full _ e)
    | inl e ↦ inr (
        rw (insert_append e h) record {
          answer = refl;
          tagged = refl;
          placed = append-Placed _ c.cache;
          next_id = omega arith;
          owner = refl;
          batch = refl;
          size =
              omega
                (arith, length-append c.cache (active_entry request (token_for c request) ∷ []));
        })
  ]

  -- Either the request is refused and nothing has changed, or it is added.
  pub insert_active_lem :
      (urgent : Bool)
      → IsRefused c request (insert_active v c request urgent)
        ⊎ IsAdded c request (insert_active v c request urgent)
  unfolding insert_active
  insert_active_lem urgent = insert_placed_lem (placement c urgent) (placement-IsPlace c urgent)
