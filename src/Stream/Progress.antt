-- ===== src/Stream/Progress.antt =====
-- src/frame_stream.rs: what each action promises of the bytes that it was chosen for.
use rp2350_keymouse_bridge_f.Common.{
  ℕ, zero, suc, ◌+◌, ◌-◌, ◌≤◌, ◌<◌, ◌≡◌, ◌≢◌, refl, ap, arith, max, List, [], ◌∷◌, Bool, true,
  false, none, some, length, take, drop, bytes_eq, Option-cases, inl, inr, ◌⊎◌,
}
use rp2350_keymouse_bridge_f.Protocol.{magic, max_frame_size}
use rp2350_keymouse_bridge_f.Stream.{
  need_more, drop_prefix, reject, process, FrameAction, magic_position, unwrap_or,
  next_frame_action,
}

magic_position-le : (xs : List ℕ) (i : ℕ) → magic_position xs ≡ some i → i + 2 ≤ length xs
magic_position-le [] i h = cc
magic_position-le (a ∷ []) i h = cc
magic_position-le (a ∷ b ∷ xs) zero h = omega arith
magic_position-le (a ∷ b ∷ xs) (suc i) h = ground (arith, magic_position-le (b ∷ xs) i)

-- How much of a buffer that does not begin with the magic is dropped.
abbrev noise : List ℕ → ℕ
noise xs = max (unwrap_or (magic_position xs) (length xs - 1)) 1

noise_bounds : (xs : List ℕ) → 2 ≤ length xs → (1 ≤ noise xs) × (noise xs ≤ length xs)
noise_bounds xs h = elim (Option-cases (magic_position xs)) [
  | inl e ↦ rw e (omega arith)
  | inr (i, e) ↦ rw e (omega (arith, magic_position-le xs i e))
]

-- The bytes that an action takes off the buffer.
abbrev pub consumed : FrameAction → ℕ
consumed need_more = 0
consumed (drop_prefix count) = count
consumed (reject len _ _) = len
consumed (process len) = len

abbrev pub is_need_more : FrameAction → Bool
is_need_more need_more = true
is_need_more _ = false

-- An action that is not a wait for more bytes takes at least one byte and no more than there are;
-- a wait happens only below the size of the buffer, so it can always be answered with more bytes.
pub next_frame_action-consumed :
    (xs : List ℕ) {a : FrameAction}
    → next_frame_action xs ≡ some a
    → (consumed a ≤ length xs)
      × (is_need_more a ≡ false → 1 ≤ consumed a)
      × (is_need_more a ≡ true → length xs < max_frame_size)
unfolding next_frame_action
next_frame_action-consumed xs h = ground (arith, noise_bounds xs)

-- Whether the magic stands at `i`.
abbrev pub magic_at : ℕ → List ℕ → Bool
magic_at i xs = bytes_eq (take 2 (drop i xs)) magic

magic_position-some :
    (xs : List ℕ) (p i : ℕ)
    → magic_position xs ≡ some p
    → (magic_at p xs ≡ true) × (i < p → magic_at i xs ≡ false)
magic_position-some [] p i h = cc
magic_position-some (a ∷ []) p i h = cc
magic_position-some (a ∷ b ∷ xs) zero i h = ground arith
magic_position-some (a ∷ b ∷ xs) (suc p) zero h = ground (arith, magic_position-some (b ∷ xs) p 0)
magic_position-some (a ∷ b ∷ xs) (suc p) (suc i) h =
    ground (arith, magic_position-some (b ∷ xs) p i)

magic_position-none : (xs : List ℕ) (i : ℕ) → magic_position xs ≡ none → magic_at i xs ≡ false
magic_position-none [] zero h = refl
magic_position-none [] (suc i) h = refl
magic_position-none (a ∷ []) zero h = ground arith
magic_position-none (a ∷ []) (suc zero) h = refl
magic_position-none (a ∷ []) (suc (suc i)) h = refl
magic_position-none (a ∷ b ∷ xs) zero h = ground arith
magic_position-none (a ∷ b ∷ xs) (suc i) h = ground (arith, magic_position-none (b ∷ xs) i)

drop_prefix_inv :
    (xs : List ℕ) {k : ℕ}
    → next_frame_action xs ≡ some (drop_prefix k)
    → (k ≡ noise xs) × (magic_at 0 xs ≡ false) × (2 ≤ length xs)
unfolding next_frame_action
drop_prefix_inv xs h = ground arith

-- Resynchronisation skips noise only: no magic begins among the dropped bytes, and what is left
-- either begins with the magic or is one last byte, which may be the first half of it.
pub drop_prefix_resync :
    (xs : List ℕ) {k : ℕ} (i : ℕ)
    → next_frame_action xs ≡ some (drop_prefix k)
    → (i < k → magic_at i xs ≡ false) × ((magic_at k xs ≡ true) ⊎ (k + 1 ≡ length xs))
drop_prefix_resync xs {k} i h =
    let (e, start, two) = drop_prefix_inv xs h in
    elim (Option-cases (magic_position xs)) [
      | inl none_found ↦
          (λ _. magic_position-none xs i none_found, inr (ground (arith, none_found)))
      | inr (p, found) ↦
          let (stands, before) = magic_position-some xs p i found in
          let later : p ≢ 0 = λ z. cc (ap (λ q. magic_at q xs) z) in
          let position : k ≡ p = ground arith in rw position (before, inl stands)
    ]
