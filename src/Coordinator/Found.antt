-- ===== src/Coordinator/Found.antt =====
-- src/coordinator.rs: an active entry of the cache stays found under its sequence.
use rp2350_keymouse_bridge_f.Common.{
  ℕ, ◌<◌, ◌≡◌, refl, sym, ◌∙◌, ap, subst, arith, inl, inr, none, some, List, [], ◌∷◌, true, false,
  ◌&&◌, ◌==◌, ne→==, ◌⊎◌, Bool-cases, Option-cases,
}
use rp2350_keymouse_bridge_f.Coordinator.{CachedResponse, CompletionToken, same_token}
use rp2350_keymouse_bridge_f.Coordinator.Cache.{
  CacheEntry, completed, is_active_state, find_sequence, complete_entry,
}
use rp2350_keymouse_bridge_f.Coordinator.Lookup.{Placed, at_end, here, later, IsBelow}

some-injective : {x y : CacheEntry} → some x ≡ some y → x ≡ y
some-injective e = cc

pub find_first :
    (s : ℕ) (x : CacheEntry) (xs : List CacheEntry)
    → (x.sequence == s) ≡ true
    → find_sequence s (x ∷ xs) ≡ some x
unfolding find_sequence
find_first s x xs h = rw (h) refl

pub find_next :
    (s : ℕ) (x : CacheEntry) (xs : List CacheEntry)
    → (x.sequence == s) ≡ false
    → find_sequence s (x ∷ xs) ≡ find_sequence s xs
unfolding find_sequence
find_next s x xs h = rw (h) refl

-- An entry that is found is the first or behind it.
pub found_cases :
    (s : ℕ) (e x : CacheEntry) (xs : List CacheEntry)
    → find_sequence s (x ∷ xs) ≡ some e
    → (((x.sequence == s) ≡ true) × (x ≡ e))
      ⊎ (((x.sequence == s) ≡ false) × (find_sequence s xs ≡ some e))
found_cases s e x xs found = elim (Bool-cases (x.sequence == s)) [
  | inl h ↦ inl (h, some-injective (sym (find_first s x xs h) ∙ found))
  | inr h ↦ inr (h, sym (find_next s x xs h) ∙ found)
]

missing_next :
    (s : ℕ) (x : CacheEntry) (xs : List CacheEntry)
    → find_sequence s (x ∷ xs) ≡ none
    → find_sequence s xs ≡ none
missing_next s x xs new = elim (Bool-cases (x.sequence == s)) [
  | inl h ↦ absurd (cc (find_first s x xs h, new))
  | inr h ↦ sym (find_next s x xs h) ∙ new
]

-- What is not found has another sequence than what is.
found-ne :
    (s n : ℕ) (e : CacheEntry) (xs : List CacheEntry)
    → find_sequence n xs ≡ none
    → find_sequence s xs ≡ some e
    → (n == s) ≡ false
found-ne s n e xs new found =
    ne→== n s (λ same. absurd (cc (ap (λ k. find_sequence k xs) same, new, found)))

pub none_found : (s : ℕ) (e : CacheEntry) → find_sequence s [] ≡ some e → ⊥
unfolding find_sequence
none_found s e found = cc

-- Another entry that is placed, over a completed one or at the end, hides no active entry.
pub find_sequence-other :
    (e x : CacheEntry) {xs ys : List CacheEntry}
    → Placed x xs ys
    → find_sequence x.sequence xs ≡ none
    → find_sequence e.sequence xs ≡ some e
    → is_active_state e.state ≡ true
    → find_sequence e.sequence ys ≡ some e
find_sequence-other e x at_end new found a = absurd (none_found e.sequence e found)
find_sequence-other e x (here {x = old} {xs = rest} q) new found a =
    elim (found_cases e.sequence e old rest found) [
      | inl (h, same) ↦ absurd (cc (ap (λ y. is_active_state y.state) same, q, a))
      | inr (h, later_on) ↦
          find_next e.sequence x rest (found-ne e.sequence x.sequence e (old ∷ rest) new found)
          ∙ later_on
    ]
find_sequence-other e x (later {x = old} {xs = xs} {ys = ys} p) new found a =
    elim (found_cases e.sequence e old xs found) [
      | inl (h, same) ↦ find_first e.sequence old ys h ∙ ap some same
      | inr (h, later_on) ↦
          find_next e.sequence old ys h
          ∙ find_sequence-other e x p (missing_next x.sequence old xs new) later_on a
    ]

pub complete_first :
    (t : CompletionToken) (response : CachedResponse) (x : CacheEntry) (xs l : List CacheEntry)
    → complete_entry t response (x ∷ xs) ≡ some l
    → ((same_token x.token t ≡ true) × (l ≡ record x { state = completed response } ∷ xs))
      ⊎ ((k : List CacheEntry) × (complete_entry t response xs ≡ some k) × (l ≡ x ∷ k))
unfolding complete_entry
complete_first t response x xs l done =
    elim (Bool-cases (same_token x.token t && is_active_state x.state)) [
      | inl this ↦ inl (ground (arith, this), ground (arith, this, done))
      | inr other ↦ elim (Option-cases (complete_entry t response xs)) [
        | inl missing ↦ absurd (ground (arith, other, missing, done))
        | inr (k, rest) ↦ inr (k, rest, ground (arith, other, rest, done))
      ]
    ]

pub complete_this :
    (t : CompletionToken) (response : CachedResponse) (x : CacheEntry) (xs : List CacheEntry)
    → same_token x.token t ≡ true
    → is_active_state x.state ≡ true
    → complete_entry t response (x ∷ xs) ≡ some (record x { state = completed response } ∷ xs)
unfolding complete_entry
complete_this t response x xs same a = rw (same, a) refl

pub complete_next :
    (t : CompletionToken) (response : CachedResponse) (x : CacheEntry) (xs l : List CacheEntry)
    → same_token x.token t ≡ false
    → complete_entry t response xs ≡ some l
    → complete_entry t response (x ∷ xs) ≡ some (x ∷ l)
unfolding complete_entry
complete_next t response x xs l other done = rw (other, done) refl

-- The completion of another token leaves an entry as it is.
pub find_sequence-complete_entry :
    (e : CacheEntry) (t : CompletionToken) (response : CachedResponse) (xs l : List CacheEntry)
    → complete_entry t response xs ≡ some l
    → same_token e.token t ≡ false
    → find_sequence e.sequence xs ≡ some e
    → find_sequence e.sequence l ≡ some e
find_sequence-complete_entry e t response [] l done other found =
    absurd (none_found e.sequence e found)
find_sequence-complete_entry e t response (x ∷ xs) l done other found =
    elim (complete_first t response x xs l done) [
      | inl (this, same) ↦ elim (found_cases e.sequence e x xs found) [
        | inl (h, first) ↦ absurd (cc (ap (λ y. same_token y.token t) first, this, other))
        | inr (h, later_on) ↦
            rw (same)
              (find_next e.sequence (record x { state = completed response }) xs h ∙ later_on)
      ]
      | inr (k, rest, same) ↦ elim (found_cases e.sequence e x xs found) [
        | inl (h, first) ↦ rw (same) (find_first e.sequence x k h ∙ ap some first)
        | inr (h, later_on) ↦ rw (same) (
            find_next e.sequence x k h
            ∙ find_sequence-complete_entry e t response xs k rest other later_on)
      ]
    ]

pub find_sequence-IsBelow :
    (n s : ℕ) (e : CacheEntry) (xs : List CacheEntry)
    → IsBelow n xs
    → find_sequence s xs ≡ some e
    → e.token.admission_id < n
find_sequence-IsBelow n s e [] b found = absurd (none_found s e found)
find_sequence-IsBelow n s e (x ∷ xs) b found = elim (found_cases s e x xs found) [
  | inl (h, same) ↦ subst (λ y. y.token.admission_id < n) same b.0
  | inr (h, later_on) ↦ find_sequence-IsBelow n s e xs b.1 later_on
]
