-- ===== src/Execution/Shadow.antt =====
-- src/batch.rs and src/execution_core.rs: the shadow state of a batch and the execution.
use rp2350_keymouse_bridge_f.Common.{
  ℕ, ◌≡◌, refl, sym, ◌∙◌, subst, arith, Bool, false, Bool-cases, inl, inr, not, Result, ok, err,
  map_ok, map_err,
}
use rp2350_keymouse_bridge_f.Common.Heapless.{Heapless}
use rp2350_keymouse_bridge_f.Commands.{Command}
use rp2350_keymouse_bridge_f.Commands.Owned.{
  OwnedCommand, ping, get_info, get_caps, heartbeat, stop_all, key_down, key_up, key_tap,
  type_ascii, mouse_move_rel, mouse_button_down, mouse_button_up, mouse_click, mouse_wheel, wait_ms,
}
use rp2350_keymouse_bridge_f.Input
use rp2350_keymouse_bridge_f.Input.{InputError}
use rp2350_keymouse_bridge_f.Input.Mouse.{InputState}
use rp2350_keymouse_bridge_f.Input.Strokes.{ascii_strokes}
use rp2350_keymouse_bridge_f.Batch.{map_input_error, validate_command}
use rp2350_keymouse_bridge_f.Execution.Monad.{Backend, World}
use rp2350_keymouse_bridge_f.Execution.{execute_command_once}
use rp2350_keymouse_bridge_f.Execution.Effects.{down_effect, effect, Leaves}
use rp2350_keymouse_bridge_f.Execution.Committed.{execute_command_once-effect}

-- The borrowed command that an owned one stands for.
abbrev pub as_command : OwnedCommand → Command
as_command ping = Command.ping
as_command get_info = Command.get_info
as_command get_caps = Command.get_caps
as_command heartbeat = Command.heartbeat
as_command stop_all = Command.stop_all
as_command (key_down s) = Command.key_down s
as_command (key_up s) = Command.key_up s
as_command (key_tap s) = Command.key_tap s
as_command (type_ascii bytes) = Command.type_ascii bytes
as_command (mouse_move_rel dx dy) = Command.mouse_move_rel dx dy
as_command (mouse_button_down m) = Command.mouse_button_down m
as_command (mouse_button_up m) = Command.mouse_button_up m
as_command (mouse_click m) = Command.mouse_click m
as_command (mouse_wheel w) = Command.mouse_wheel w
as_command (wait_ms n) = Command.wait_ms n

-- A check that keeps the state, where it succeeds.
kept :
    {A : Type 0} (f : A → InputState) (i j : InputState) (r : Result InputError A)
    → ((a : A) → f a ≡ i)
    → map_err map_input_error (map_ok f r) ≡ ok j
    → i ≡ j
kept f i j (ok a) h e = let same : f a ≡ j = cc in sym (h a) ∙ same
kept f i j (err x) h e = absurd (cc)

downed :
    (i j : InputState) (r : Result InputError Input.KeyboardState)
    → map_err map_input_error (map_ok (λ k. record i { keyboard = k }) r) ≡ ok j
    → down_effect i r ≡ j
downed i j (ok k) e = cc
downed i j (err x) e = absurd (cc)

shadow-effect :
    (v : Heapless) (i j : InputState) (o : OwnedCommand)
    → validate_command v i o ≡ ok j
    → effect (as_command o) i ≡ j
unfolding validate_command
shadow-effect v i j ping e = absurd (cc)
shadow-effect v i j get_info e = absurd (cc)
shadow-effect v i j get_caps e = absurd (cc)
shadow-effect v i j heartbeat e = absurd (cc)
shadow-effect v i j stop_all e = absurd (cc)
shadow-effect v i j (key_down s) e = downed i j (Input.key_down i.keyboard s) e
shadow-effect v i j (key_up s) e = cc
shadow-effect v i j (key_tap s) e = kept (λ plan. i) i j (Input.tap_plan i.keyboard s) (λ a. refl) e
shadow-effect v i j (type_ascii bytes) e = elim (Bool-cases (not (Input.is_idle i.keyboard))) [
  | inl busy ↦ absurd (ground (arith, busy))
  | inr idle ↦ kept (λ strokes. i) i j (ascii_strokes v false bytes) (λ a. refl) (rw idle at e)
]
shadow-effect v i j (mouse_move_rel dx dy) e = cc
shadow-effect v i j (mouse_wheel w) e = cc
shadow-effect v i j (mouse_button_down m) e = cc
shadow-effect v i j (mouse_button_up m) e = cc
shadow-effect v i j (mouse_click m) e = cc
shadow-effect v i j (wait_ms n) e = ground arith

-- Whatever the backend does: a command that the batch's check accepts in an input state, with a next
-- shadow state, leaves exactly that state when it is executed from the same state and succeeds.
pub execute_command_once-shadow :
    {S : Type 0} (v : Heapless) (b : Backend S) (o : OwnedCommand) (version : ℕ) (caps_lock : Bool)
    (w : World S) (j : InputState)
    → validate_command v w.input o ≡ ok j
    → Leaves j (execute_command_once v b (as_command o) version caps_lock w)
execute_command_once-shadow v b o version caps_lock w j e =
    subst (λ i. Leaves i (execute_command_once v b (as_command o) version caps_lock w))
      (shadow-effect v w.input j o e)
      (execute_command_once-effect v b (as_command o) version caps_lock w)
