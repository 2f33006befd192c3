-- ===== src/Coordinator/Lookup.antt =====
-- src/coordinator.rs: where a new entry stands in the cache, and what the searches then find.
use rp2350_keymouse_bridge_f.Common.{
  ℕ, zero, suc, ◌≤◌, ◌<◌, ◌≡◌, refl, subst, arith, inl, inr, none, some, List, [], ◌∷◌, ◌++◌, true,
  false, ◌&&◌, ==_refl, Bool-cases, Option-cases, length, set, get_elem?, All,
}
use rp2350_keymouse_bridge_f.Coordinator.{
  CachedResponse, CompletionToken, ExpectedFinalResponse, expect_ack, expect_status, same_expected,
  same_token,
}
use rp2350_keymouse_bridge_f.Coordinator.Cache.{
  CacheEntry, active, completed, is_active_state, find_sequence, complete_entry,
}

-- An entry written over a completed one or behind the last.
pub data Placed (e : CacheEntry) : List CacheEntry → List CacheEntry → Type 0 where
  at_end : Placed e [] (e ∷ [])
  here :
      {x : CacheEntry} {xs : List CacheEntry}
      → is_active_state x.state ≡ false
      → Placed e (x ∷ xs) (e ∷ xs)
  later : {x : CacheEntry} {xs ys : List CacheEntry} → Placed e xs ys → Placed e (x ∷ xs) (x ∷ ys)

pub append-Placed : (e : CacheEntry) (xs : List CacheEntry) → Placed e xs (xs ++ e ∷ [])
append-Placed e [] = at_end
append-Placed e (x ∷ xs) = later (append-Placed e xs)

pub set-Placed :
    (e : CacheEntry) (xs : List CacheEntry) (i : ℕ) (y : CacheEntry)
    → get_elem? xs i ≡ some y
    → is_active_state y.state ≡ false
    → Placed e xs (set xs i e)
set-Placed e [] i y h q = absurd (cc)
set-Placed e (x ∷ xs) zero y h q = here (ground (arith, h, q))
set-Placed e (x ∷ xs) (suc i) y h q = later (set-Placed e xs i y h q)

-- Every token was given before the id `n`.
abbrev pub IsBelow : ℕ → List CacheEntry → Type 0
IsBelow n = All (λ e. e.token.admission_id < n)

pub IsBelow_mono : (n m : ℕ) (xs : List CacheEntry) → n ≤ m → IsBelow n xs → IsBelow m xs
IsBelow_mono n m [] h b = tt
IsBelow_mono n m (x ∷ xs) h b = (omega (arith, b.0), IsBelow_mono n m xs h b.1)

pub Placed-IsBelow :
    (n : ℕ) (e : CacheEntry) {xs ys : List CacheEntry}
    → Placed e xs ys
    → IsBelow n xs
    → e.token.admission_id < n
    → IsBelow n ys
Placed-IsBelow n e at_end b h = (h, tt)
Placed-IsBelow n e (here q) b h = (h, b.1)
Placed-IsBelow n e (later p) b h = (b.0, Placed-IsBelow n e p b.1 h)

same_expected_refl : (x : ExpectedFinalResponse) → same_expected x x ≡ true
unfolding same_expected
same_expected_refl expect_ack = refl
same_expected_refl expect_status = refl

pub same_token_refl : (t : CompletionToken) → same_token t t ≡ true
unfolding same_token
same_token_refl t = ground (arith, same_expected_refl t.expected_response)

pub same_token_older :
    (a b : CompletionToken) → a.admission_id < b.admission_id → same_token a b ≡ false
unfolding same_token
same_token_older a b h = ground arith

pub same_token_newer :
    (a b : CompletionToken) → b.admission_id < a.admission_id → same_token a b ≡ false
unfolding same_token
same_token_newer a b h = ground arith

-- The new entry is the one that its sequence finds.
pub find_sequence-Placed :
    (e : CacheEntry) {xs ys : List CacheEntry}
    → Placed e xs ys
    → find_sequence e.sequence xs ≡ none
    → find_sequence e.sequence ys ≡ some e
unfolding find_sequence
find_sequence-Placed e at_end h = rw (==_refl e.sequence)
find_sequence-Placed e (here q) h = rw (==_refl e.sequence)
find_sequence-Placed e (later p) h = ground (arith, find_sequence-Placed e p)

-- The completion of the new entry's token changes that entry, and its sequence then finds it.
pub complete_entry-Placed :
    (e : CacheEntry) (response : CachedResponse) {xs ys : List CacheEntry}
    → Placed e xs ys
    → find_sequence e.sequence xs ≡ none
    → IsBelow e.token.admission_id xs
    → e.state ≡ active
    → (l : List CacheEntry) × (complete_entry e.token response ys ≡ some l)
      × (find_sequence e.sequence l ≡ some (record e { state = completed response }))
unfolding find_sequence complete_entry
complete_entry-Placed e response at_end h b a = (
  record e { state = completed response } ∷ [],
  rw (same_token_refl e.token, a),
  rw (==_refl e.sequence),
)
complete_entry-Placed e response (here {xs = xs} q) h b a = (
  record e { state = completed response } ∷ xs,
  rw (same_token_refl e.token, a),
  rw (==_refl e.sequence),
)
complete_entry-Placed e response (later {x = x} p) h b a =
    let older = same_token_older x.token e.token b.0 in
    let (l, done, found) = complete_entry-Placed e response p (ground arith) b.1 a in
    (x ∷ l, rw (older, done), ground arith)

-- A completion keeps the number of entries and their tokens.
pub complete_entry-keeps :
    (t : CompletionToken) (response : CachedResponse) (n : ℕ) (xs l : List CacheEntry)
    → complete_entry t response xs ≡ some l
    → IsBelow n xs
    → (length l ≡ length xs) × IsBelow n l
unfolding complete_entry
complete_entry-keeps t response n [] l e b = absurd (cc)
complete_entry-keeps t response n (x ∷ xs) l e b =
    elim (Bool-cases (same_token x.token t && is_active_state x.state)) [
      | inl this ↦
          let same : record x { state = completed response } ∷ xs ≡ l = ground arith in
          subst (λ k. (length k ≡ suc (length xs)) × IsBelow n k) same (refl, b)
      | inr other ↦ elim (Option-cases (complete_entry t response xs)) [
        | inl missing ↦ absurd (ground arith)
        | inr (k, done) ↦
            let same : x ∷ k ≡ l = ground arith in
            let (size, below) = complete_entry-keeps t response n xs k done b.1 in
            subst (λ k. (length k ≡ suc (length xs)) × IsBelow n k) same (omega arith, (b.0, below))
      ]
    ]
