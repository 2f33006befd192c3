-- ===== src/Input/Movement.antt =====
-- src/input_state.rs: `RelativeMovementSteps`, which splits a long movement into mouse reports.
use rp2350_keymouse_bridge_f.Common.{
  ℕ, zero, suc, ◌+◌, ◌*◌, ◌≤◌, ◌<◌, ◌≡◌, arith, inl, inr, Option, none, some, List, [], ◌∷◌, Bool,
  true, false, ◌&&◌, ◌==◌, if◌then◌else◌, Bool-cases, length, All,
}
use rp2350_keymouse_bridge_f.Common.Int.{
  ℤ, pos, negsuc, pos_part, neg_part, ltb_ℤ, ◌+ℤ◌, ◌-ℤ◌, +ℤ_parts, -ℤ_parts, eq_of_parts,
}

pub record RelativeMovementSteps : Type 0 where
  pub remaining_x : ℤ
  pub remaining_y : ℤ

-- `clamp(-i16::from(i8::MAX), i16::from(i8::MAX))`
unfoldable pub clamp_i8 : ℤ → ℤ
clamp_i8 z = if ltb_ℤ z (negsuc 126) then negsuc 126 else if ltb_ℤ (pos 127) z then pos 127 else z

abbrev pub is_zero : ℤ → Bool
is_zero z = (pos_part z == 0) && (neg_part z == 0)

-- `Iterator::next`: the step and what remains. No subtraction leaves the range of an `i16`.
unfoldable pub next : RelativeMovementSteps → Option ((ℤ × ℤ) × RelativeMovementSteps)
unfolding clamp_i8
next m =
    if is_zero m.remaining_x && is_zero m.remaining_y
    then none
    else let step_x = clamp_i8 m.remaining_x in
      let step_y = clamp_i8 m.remaining_y in
      some (
        (step_x, step_y),
        record { remaining_x = m.remaining_x -ℤ step_x; remaining_y = m.remaining_y -ℤ step_y },
      )

-- What a `for` loop over the iterator sees, with fuel; `none` when the fuel runs out.
unfoldable pub steps : ℕ → RelativeMovementSteps → Option (List (ℤ × ℤ))
steps zero m = none
steps (suc fuel) m = elim (next m) [
  | none ↦ some []
  | some (step, rest) ↦ elim (steps fuel rest) [ none ↦ none | some later ↦ some (step ∷ later) ]
]

abbrev pub magnitude : ℤ → ℕ
magnitude z = pos_part z + neg_part z

abbrev pub total_x : List (ℤ × ℤ) → ℤ
total_x [] = pos 0
total_x (s ∷ rest) = s.0 +ℤ total_x rest

abbrev pub total_y : List (ℤ × ℤ) → ℤ
total_y [] = pos 0
total_y (s ∷ rest) = s.1 +ℤ total_y rest

-- A report that an `i8` holds, -128 excluded, and that moves the pointer.
abbrev pub IsStep : ℤ × ℤ → Type 0
IsStep s = (magnitude s.0 ≤ 127) × (magnitude s.1 ≤ 127) × (0 < magnitude s.0 + magnitude s.1)

clamp_i8_lem :
    (z : ℤ) (n : ℕ)
    → magnitude z ≤ 127 * suc n
    → (magnitude (clamp_i8 z) ≤ 127)
      × (magnitude (z -ℤ clamp_i8 z) ≤ 127 * n)
      × (0 < magnitude z → 0 < magnitude (clamp_i8 z))
unfolding clamp_i8 ◌-ℤ◌
clamp_i8_lem (pos k) n h = (ground arith, ground arith, λ p. ground arith)
clamp_i8_lem (negsuc k) n h = (ground arith, ground arith, λ p. ground arith)

restore_sum : (z step later : ℤ) → later ≡ z -ℤ step → step +ℤ later ≡ z
restore_sum z step later e = rw e (
    eq_of_parts (step +ℤ (z -ℤ step)) z (omega (arith, +ℤ_parts step (z -ℤ step), -ℤ_parts z step)))

abbrev both_zero : RelativeMovementSteps → Bool
both_zero m = is_zero m.remaining_x && is_zero m.remaining_y

is_zero-eq : (z : ℤ) → is_zero z ≡ true → pos 0 ≡ z
is_zero-eq (pos n) e = ground arith
is_zero-eq (negsuc n) e = ground arith

magnitude-pos : (x y : ℤ) → (is_zero x && is_zero y) ≡ false → 0 < magnitude x + magnitude y
magnitude-pos x y e = ground arith

magnitude-zero : (x y : ℤ) → magnitude x ≤ 0 → magnitude y ≤ 0 → (is_zero x && is_zero y) ≡ true
magnitude-zero x y p q = ground arith

next_done : (m : RelativeMovementSteps) → both_zero m ≡ true → next m ≡ none
unfolding next
next_done m e = ground arith

-- The iterator at its end.
steps_done :
    (fuel : ℕ) (m : RelativeMovementSteps)
    → both_zero m ≡ true
    → (steps (suc fuel) m ≡ some []) × (pos 0 ≡ m.remaining_x) × (pos 0 ≡ m.remaining_y)
unfolding steps
steps_done fuel m e = (
  rw (next_done m e, steps),
  is_zero-eq m.remaining_x (ground arith),
  is_zero-eq m.remaining_y (ground arith),
)

abbrev after : RelativeMovementSteps → RelativeMovementSteps
after m = record {
  remaining_x = m.remaining_x -ℤ clamp_i8 m.remaining_x;
  remaining_y = m.remaining_y -ℤ clamp_i8 m.remaining_y;
}

next_more :
    (m : RelativeMovementSteps)
    → both_zero m ≡ false
    → next m ≡ some ((clamp_i8 m.remaining_x, clamp_i8 m.remaining_y), after m)
unfolding next
next_more m e = ground arith

steps_more :
    (fuel : ℕ) (m : RelativeMovementSteps) (l : List (ℤ × ℤ))
    → both_zero m ≡ false
    → steps fuel (after m) ≡ some l
    → steps (suc fuel) m ≡ some ((clamp_i8 m.remaining_x, clamp_i8 m.remaining_y) ∷ l)
unfolding steps
steps_more fuel m l e h = rw (next_more m e, h, steps)

pub steps_lem :
    (n : ℕ) (m : RelativeMovementSteps)
    → magnitude m.remaining_x ≤ 127 * n
    → magnitude m.remaining_y ≤ 127 * n
    → (l : List (ℤ × ℤ)) × (steps (suc n) m ≡ some l)
      × (length l ≤ n)
      × All IsStep l
      × (total_x l ≡ m.remaining_x)
      × (total_y l ≡ m.remaining_y)
steps_lem zero m hx hy =
    let (e, x, y) = steps_done 0 m (magnitude-zero m.remaining_x m.remaining_y hx hy) in
    ([], e, omega arith, tt, x, y)
steps_lem (suc n) m hx hy = elim (Bool-cases (both_zero m)) [
  | inl done ↦ let (e, x, y) = steps_done (suc n) m done in ([], e, omega arith, tt, x, y)
  | inr more ↦
      let (bx, rx, px) = clamp_i8_lem m.remaining_x n hx in
      let (by, ry, py) = clamp_i8_lem m.remaining_y n hy in
      let moving = magnitude-pos m.remaining_x m.remaining_y more in
      let (l, e, short, each, sx, sy) = steps_lem n (after m) rx ry in
      (
        (clamp_i8 m.remaining_x, clamp_i8 m.remaining_y) ∷ l,
        steps_more (suc n) m l more e,
        omega arith,
        ((bx, by, ground arith), each),
        restore_sum m.remaining_x (clamp_i8 m.remaining_x) (total_x l) sx,
        restore_sum m.remaining_y (clamp_i8 m.remaining_y) (total_y l) sy,
      )
]
