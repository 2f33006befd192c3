-- ===== src/Coordinator/Tokens.antt =====
-- src/coordinator.rs: an active entry is the only one of the cache with its token.
use rp2350_keymouse_bridge_f.Common.{
  ◌≡◌, ◌∙◌, ap, ◌⊎◌, inl, inr, none, some, List, [], ◌∷◌, true, false, ◌==◌, ==_refl, All,
}
use rp2350_keymouse_bridge_f.Coordinator.{CachedResponse, CompletionToken, same_token}
use rp2350_keymouse_bridge_f.Coordinator.Cache.{
  completed, CacheEntry, is_active_state, find_sequence, complete_entry,
}
use rp2350_keymouse_bridge_f.Coordinator.Lookup.{
  Placed, at_end, here, later, IsBelow, same_token_refl, same_token_older, find_sequence-Placed,
}
use rp2350_keymouse_bridge_f.Coordinator.Found.{
  find_first, find_next, found_cases, none_found, complete_first, complete_this, complete_next,
  find_sequence-other, find_sequence-complete_entry,
}

-- This entry has the other's sequence, or another token.
abbrev pub IsApart : CacheEntry → CacheEntry → Type 0
IsApart e x = ((x.sequence == e.sequence) ≡ true) ⊎ (same_token x.token e.token ≡ false)

abbrev pub IsAlone : CacheEntry → List CacheEntry → Type 0
IsAlone e = All (IsApart e)

-- The sequence finds this entry, and no entry of another sequence has its token.
abbrev pub IsHeld : CacheEntry → List CacheEntry → Type 0
IsHeld e xs = (find_sequence e.sequence xs ≡ some e) × IsAlone e xs

IsBelow-IsAlone :
    (e : CacheEntry) (xs : List CacheEntry) → IsBelow e.token.admission_id xs → IsAlone e xs
IsBelow-IsAlone e [] b = tt
IsBelow-IsAlone e (x ∷ xs) b =
    (inr (same_token_older x.token e.token b.0), IsBelow-IsAlone e xs b.1)

Placed-IsAlone :
    (e x : CacheEntry) {xs ys : List CacheEntry}
    → Placed x xs ys
    → IsApart e x
    → IsAlone e xs
    → IsAlone e ys
Placed-IsAlone e x at_end apart alone = (apart, tt)
Placed-IsAlone e x (here q) apart alone = (apart, alone.1)
Placed-IsAlone e x (later p) apart alone = (alone.0, Placed-IsAlone e x p apart alone.1)

complete_entry-IsAlone :
    (e : CacheEntry) (t : CompletionToken) (response : CachedResponse) (xs l : List CacheEntry)
    → complete_entry t response xs ≡ some l
    → IsAlone e xs
    → IsAlone e l
unfolding complete_entry
complete_entry-IsAlone e t response [] l done alone = absurd (cc)
complete_entry-IsAlone e t response (x ∷ xs) l done alone =
    elim (complete_first t response x xs l done) [
      | inl (this, same) ↦ rw (same) (alone.0, alone.1)
      | inr (k, rest, same) ↦
          rw (same) (alone.0, complete_entry-IsAlone e t response xs k rest alone.1)
    ]

-- A new entry is held at once.
pub placed-IsHeld :
    (e : CacheEntry) {xs ys : List CacheEntry}
    → Placed e xs ys
    → find_sequence e.sequence xs ≡ none
    → IsBelow e.token.admission_id xs
    → IsHeld e ys
placed-IsHeld e {xs = xs} p new below = (
  find_sequence-Placed e p new,
  Placed-IsAlone e e p (inl (==_refl e.sequence)) (IsBelow-IsAlone e xs below),
)

-- Another new entry leaves an active one held.
pub other-IsHeld :
    (e x : CacheEntry) {xs ys : List CacheEntry}
    → Placed x xs ys
    → find_sequence x.sequence xs ≡ none
    → same_token x.token e.token ≡ false
    → is_active_state e.state ≡ true
    → IsHeld e xs
    → IsHeld e ys
other-IsHeld e x p new newer a (found, alone) =
    (find_sequence-other e x p new found a, Placed-IsAlone e x p (inr newer) alone)

-- The completion of another token leaves an entry held.
pub complete_entry-IsHeld :
    (e : CacheEntry) (t : CompletionToken) (response : CachedResponse) (xs l : List CacheEntry)
    → complete_entry t response xs ≡ some l
    → same_token e.token t ≡ false
    → IsHeld e xs
    → IsHeld e l
complete_entry-IsHeld e t response xs l done other (found, alone) = (
  find_sequence-complete_entry e t response xs l done other found,
  complete_entry-IsAlone e t response xs l done alone,
)

abbrev with_response : CachedResponse → CacheEntry → CacheEntry
with_response response e = record e { state = completed response }

-- The completion of its own token completes an active entry that is held.
pub complete_entry-held :
    (e : CacheEntry) (response : CachedResponse) (xs : List CacheEntry)
    → is_active_state e.state ≡ true
    → IsHeld e xs
    → (l : List CacheEntry) × (complete_entry e.token response xs ≡ some l)
      × (find_sequence e.sequence l ≡ some (record e { state = completed response }))
complete_entry-held e response [] a (found, alone) = absurd (none_found e.sequence e found)
complete_entry-held e response (x ∷ xs) a (found, alone) =
    elim (found_cases e.sequence e x xs found) [
      | inl (h, same) ↦ (
        record x { state = completed response } ∷ xs,
        complete_this e.token response x xs
            (ap (λ y. same_token y.token e.token) same ∙ same_token_refl e.token)
            (ap (λ y. is_active_state y.state) same ∙ a),
        find_first e.sequence (record x { state = completed response }) xs h
            ∙ ap (λ (y : CacheEntry). some (with_response response y)) same,
      )
      | inr (h, rest) ↦
          let (l, done, now) = complete_entry-held e response xs a (rest, alone.1) in
          let differs : same_token x.token e.token ≡ false = elim alone.0 [
            | inl s ↦ absurd (cc (s, h))
            | inr n ↦ n
          ] in
          (
            x ∷ l,
            complete_next e.token response x xs l differs done,
            find_next e.sequence x l h ∙ now,
          )
    ]
