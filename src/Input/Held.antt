-- ===== src/Input/Held.antt =====
-- src/input_state.rs: the keys held as an array with a length, against a list of keys.
use rp2350_keymouse_bridge_f.Common.{
  ℕ, suc, ◌+◌, ◌-◌, ◌≤◌, ◌≡◌, refl, ap, arith, inl, inr, none, some, List, [], ◌∷◌, ◌++◌,
  append_assoc, Bool, true, false, not, ◌&&◌, ◌==◌, if◌then◌else◌, Bool-cases, Option-cases,
  is_some, length, length-append, take, drop, set, replicate, copy_at, take-append_self,
  drop-append_self, copy_at-append, set-append_right,
}
use rp2350_keymouse_bridge_f.Input.{KeyboardState, max_held_keys, position}

-- Membership, removal and insertion on the list of keys.
unfoldable pub holds : ℕ → List ℕ → Bool
holds k [] = false
holds k (x ∷ xs) = if x == k then true else holds k xs

unfoldable pub remove : ℕ → List ℕ → List ℕ
remove k [] = []
remove k (x ∷ xs) = let rest = x ∷ remove k xs in if x == k then xs else rest

unfoldable pub press : ℕ → List ℕ → List ℕ
unfolding holds
press k keys = if not (k == 0) && not (holds k keys) then keys ++ k ∷ [] else keys

-- No key is held twice, and none is the key 0, which stands for no key.
abbrev pub Distinct : List ℕ → Type 0
Distinct [] = Unit {0}
Distinct (x ∷ xs) = (holds x xs ≡ false) × Distinct xs

abbrev pub IsHeld : List ℕ → Type 0
IsHeld keys = Distinct keys × (holds 0 keys ≡ false) × (length keys ≤ max_held_keys)

-- The state of a keyboard that holds these modifiers and keys: the keys, then zeros.
unfoldable pub keyboard : ℕ → List ℕ → KeyboardState
keyboard modifiers keys = record {
  modifiers = modifiers;
  keycodes = keys ++ replicate (max_held_keys - length keys) 0;
  len = length keys;
}

pub is_some-position : (k : ℕ) (xs : List ℕ) → is_some (position k xs) ≡ holds k xs
unfolding holds
is_some-position k [] = refl
is_some-position k (x ∷ xs) = ground (arith, is_some-position k xs)

pub position-none : (k : ℕ) (xs : List ℕ) → position k xs ≡ none → holds k xs ≡ false
unfolding holds
position-none k [] e = refl
position-none k (x ∷ xs) e = ground (arith, position-none k xs)

-- Where a key is found, the list splits, and there it is removed.
pub position_split :
    (k p : ℕ) (keys : List ℕ)
    → position k keys ≡ some p
    → (xs ys : List ℕ) × (keys ≡ xs ++ k ∷ ys)
      × (length xs ≡ p)
      × (remove k keys ≡ xs ++ ys)
      × (holds k keys ≡ true)
unfolding holds remove
position_split k p [] e = absurd (cc)
position_split k p (x ∷ xs) e = elim (Bool-cases (x == k)) [
  | inl same ↦ ([], xs, ground arith, ground arith, ground arith, ground arith)
  | inr other ↦ elim (Option-cases (position k xs)) [
    | inl missing ↦ absurd (ground arith)
    | inr (q, found) ↦
        let (us, ys, split, len, removed, held) = position_split k q xs found in
        (x ∷ us, ys, ap (λ l. x ∷ l) split, ground arith, ground arith, ground arith)
  ]
]

-- What `copy_within` leaves: the keys behind move down by one, and the array keeps its length.
drop_shift : (k : ℕ) (ys zs : List ℕ) → (last : ℕ) × (drop (length ys) (k ∷ (ys ++ zs)) ≡ last ∷ zs)
drop_shift k [] zs = (k, refl)
drop_shift k (y ∷ ys) zs = drop_shift y ys zs

pub shift_down :
    (xs ys zs : List ℕ) (k n : ℕ)
    → n ≡ length xs + length ys
    → set
        (copy_at
          (xs ++ (k ∷ (ys ++ zs)))
          (length xs)
          (take (suc n - (length xs + 1)) (drop (length xs + 1) (xs ++ (k ∷ (ys ++ zs))))))
        n
        0
      ≡ xs ++ (ys ++ (0 ∷ zs))
shift_down xs ys zs k n e =
    let (last, moved) = drop_shift k ys zs in
    let tail : drop (length xs + 1) (xs ++ (k ∷ (ys ++ zs))) ≡ ys ++ zs =
      rw (← append_assoc xs (k ∷ []) (ys ++ zs)) (
        drop-append_self (xs ++ k ∷ []) (ys ++ zs) (length xs + 1)
          (omega (arith, length-append xs (k ∷ [])))) in
    let src : take (suc n - (length xs + 1)) (ys ++ zs) ≡ ys =
      take-append_self ys zs (suc n - (length xs + 1)) (omega arith) in
    rw (
      tail,
      src,
      copy_at-append xs (k ∷ (ys ++ zs)) ys (length xs) refl,
      moved,
      set-append_right xs (ys ++ last ∷ zs) n (length ys) 0 e,
      set-append_right ys (last ∷ zs) (length ys) 0 0 (omega arith),
    )

pub length-remove :
    (k : ℕ) (xs : List ℕ) → holds k xs ≡ true → length xs ≡ suc (length (remove k xs))
unfolding holds remove
length-remove k [] e = absurd (cc)
length-remove k (x ∷ xs) e = ground (arith, length-remove k xs)

pub holds-remove :
    (j k : ℕ) (xs : List ℕ) → Distinct xs → holds j (remove k xs) ≡ (not (j == k) && holds j xs)
unfolding holds remove
holds-remove j k [] d = ground arith
holds-remove j k (x ∷ xs) d = ground (arith, holds-remove j k xs d.1)

pub remove-Distinct : (k : ℕ) (xs : List ℕ) → Distinct xs → Distinct (remove k xs)
unfolding remove
remove-Distinct k [] d = tt
remove-Distinct k (x ∷ xs) d = elim (Bool-cases (x == k)) [
  | inl e ↦ rw e d.1
  | inr e ↦ rw e (ground (arith, holds-remove x k xs d.1), remove-Distinct k xs d.1)
]

pub remove_missing : (k : ℕ) (xs : List ℕ) → holds k xs ≡ false → remove k xs ≡ xs
unfolding holds remove
remove_missing k [] e = refl
remove_missing k (x ∷ xs) e = ground (arith, remove_missing k xs)

pub remove-IsHeld : (k : ℕ) (xs : List ℕ) → IsHeld xs → IsHeld (remove k xs)
remove-IsHeld k xs h = (
  remove-Distinct k xs h.0,
  ground (arith, holds-remove 0 k xs h.0),
  elim (Bool-cases (holds k xs)) [
    | inl e ↦ omega (arith, length-remove k xs e)
    | inr e ↦ rw (remove_missing k xs e) h.2
  ],
)

pub holds-append :
    (j : ℕ) (xs ys : List ℕ) → holds j (xs ++ ys) ≡ (if holds j xs then true else holds j ys)
unfolding holds
holds-append j [] ys = refl
holds-append j (x ∷ xs) ys = ground (arith, holds-append j xs ys)

pub append-Distinct :
    (k : ℕ) (xs : List ℕ) → Distinct xs → holds k xs ≡ false → Distinct (xs ++ k ∷ [])
unfolding holds
append-Distinct k [] d h = (refl, tt)
append-Distinct k (x ∷ xs) d h =
    (ground (arith, holds-append x xs (k ∷ [])), append-Distinct k xs d.1 (ground arith))

pub press-IsHeld :
    (k : ℕ) (xs : List ℕ)
    → IsHeld xs
    → (not (k == 0) && (not (holds k xs) && (length xs == max_held_keys))) ≡ false
    → IsHeld (press k xs)
unfolding press holds
press-IsHeld k xs h room = elim (Bool-cases (not (k == 0) && not (holds k xs))) [
  | inr e ↦ rw e h
  | inl e ↦ rw e (
    append-Distinct k xs h.0 (ground arith),
    ground (arith, holds-append 0 xs (k ∷ [])),
    ground (arith, length-append xs (k ∷ [])),
  )
]
