-- ===== src/Batch/Collected.antt =====
-- src/batch.rs: what a collected batch is.
use rp2350_keymouse_bridge_f.Common.{
  ℕ, ◌+◌, ◌≤◌, ◌≡◌, refl, ◌∙◌, subst, arith, inl, inr, List, [], ◌∷◌, ◌++◌, Bool, false, ◌||◌, ltb,
  if◌then◌else◌, Bool-cases, Result-cases, Result, ok, err, ◌>>=◌, length, length-append,
}
use rp2350_keymouse_bridge_f.Common.Heapless.{Heapless, IsHeapless}
use rp2350_keymouse_bridge_f.Commands.Owned.{OwnedCommand, payload_len}
use rp2350_keymouse_bridge_f.Input.Mouse.{InputState}
use rp2350_keymouse_bridge_f.Batch.{
  batch_max_commands, batch_max_payload_bytes, BatchError, capacity, BatchCollector, begin,
  checked_payload_total, validate_command, push,
}

pub total_payload : List OwnedCommand → ℕ
total_payload [] = 0
total_payload (c ∷ cs) = payload_len c + total_payload cs

total_payload-append :
    (cs : List OwnedCommand) (c : OwnedCommand)
    → total_payload (cs ++ c ∷ []) ≡ total_payload cs + payload_len c
unfolding total_payload
total_payload-append [] c = omega arith
total_payload-append (x ∷ cs) c = omega (arith, total_payload-append cs c)

-- The commands checked in their order, from a state.
pub replay : Heapless → InputState → List OwnedCommand → Result BatchError InputState
replay v s [] = ok s
replay v s (c ∷ cs) = validate_command v s c >>= λ next. replay v next cs

replay-append :
    (v : Heapless) (s : InputState) (cs : List OwnedCommand) (c : OwnedCommand)
    → replay v s (cs ++ c ∷ []) ≡ (replay v s cs >>= λ last. validate_command v last c)
unfolding replay
replay-append v s [] c = elim (Result-cases (validate_command v s c)) [
  | inl (next, e) ↦ rw e
  | inr (why, e) ↦ rw e
]
replay-append v s (x ∷ cs) c = elim (Result-cases (validate_command v s x)) [
  | inl (next, e) ↦ rw e (replay-append v next cs c)
  | inr (why, e) ↦ rw e
]

-- Within the limits of the wire contract, with the payload bytes counted and a shadow that is the
-- state after all the commands.
pub record IsCollector (v : Heapless) (initial : InputState) (b : BatchCollector) : Type 0 where
  pub few : length b.commands ≤ batch_max_commands
  pub small : b.payload_bytes ≤ batch_max_payload_bytes
  pub counted : b.payload_bytes ≡ total_payload b.commands
  pub replayed : replay v initial b.commands ≡ ok b.shadow

pub begin-IsCollector :
    (v : Heapless) (initial : InputState) → IsCollector v initial (begin initial)
unfolding begin total_payload replay
begin-IsCollector v initial = record {
  few = omega arith;
  small = omega arith;
  counted = refl;
  replayed = refl;
}

-- The command does not fit any more.
abbrev pub is_over : BatchCollector → OwnedCommand → Bool
is_over b c =
    ltb batch_max_commands (length b.commands + 1)
    || ltb batch_max_payload_bytes (b.payload_bytes + payload_len c)

abbrev pub collected : BatchCollector → OwnedCommand → InputState → BatchCollector
collected b c next = record {
  commands = b.commands ++ c ∷ [];
  payload_bytes = b.payload_bytes + payload_len c;
  shadow = next;
}

module _ (v : Heapless) (laws : IsHeapless v) {initial : InputState} {b : BatchCollector}
    (valid : IsCollector v initial b) (c : OwnedCommand) (fits : payload_len c ≤ 240) where
  push_valid :
      (next : InputState)
      → validate_command v b.shadow c ≡ ok next
      → push v b c ≡ (if is_over b c then err capacity else ok (collected b c next))
  unfolding push checked_payload_total
  push_valid next e = elim (Bool-cases (ltb batch_max_commands (length b.commands + 1))) [
    | inl many ↦ ground (arith, e)
    | inr few ↦
        let room = laws.push_room OwnedCommand batch_max_commands b.commands c (ground arith) in
        ground (arith, e, room)
  ]

  push_refused : (e : BatchError) → validate_command v b.shadow c ≡ err e → push v b c ≡ err e
  unfolding push
  push_refused e h = rw (h, push)

  -- A command of a frame's payload, pushed on a valid collector: the check against the shadow state
  -- decides first, with its own error; then the limits of 32 commands and 8192 payload bytes, with
  -- the error of capacity; and otherwise the command is appended and counted, and the shadow state
  -- is the one checked. The vectors are any with the documented behaviour.
  pub push_lem : push v b c ≡ (
      validate_command v b.shadow c >>= λ next.
      if is_over b c then err capacity else ok (collected b c next))
  push_lem = elim (Result-cases (validate_command v b.shadow c)) [
    | inl (next, e) ↦ push_valid next e ∙ rw e
    | inr (why, e) ↦ push_refused why e ∙ rw e
  ]

  collected-IsCollector :
      (next : InputState)
      → validate_command v b.shadow c ≡ ok next
      → is_over b c ≡ false
      → IsCollector v initial (collected b c next)
  collected-IsCollector next e under = record {
    few = ground (arith, length-append b.commands (c ∷ []));
    small = ground arith;
    counted = omega (arith, valid.counted, total_payload-append b.commands c);
    replayed = replay-append v initial b.commands c ∙ rw valid.replayed e;
  }

  -- An accepted push keeps the collector valid: at most 32 commands, at most 8192 payload bytes,
  -- the bytes counted are those of the commands, and the shadow state is the one that the commands,
  -- checked in their order from the state at the batch's beginning, lead to without an error. The
  -- commands are the former ones and the new one. The conditions are those of `push_lem`.
  pub push-IsCollector :
      {b' : BatchCollector}
      → push v b c ≡ ok b'
      → IsCollector v initial b' × (b'.commands ≡ b.commands ++ c ∷ [])
  push-IsCollector {b'} h = elim (Result-cases (validate_command v b.shadow c)) [
    | inr (why, e) ↦ absurd (cc (push_refused why e))
    | inl (next, e) ↦ elim (Bool-cases (is_over b c)) [
      | inl over ↦ absurd (ground (arith, push_valid next e))
      | inr under ↦
          let same : collected b c next ≡ b' = ground (arith, push_valid next e) in
          subst (λ x. IsCollector v initial x × (x.commands ≡ b.commands ++ c ∷ [])) same
            (collected-IsCollector next e under, refl)
    ]
  ]
