-- ===== src/Execution/Tests.antt =====
-- src/execution_core.rs: examples.
use rp2350_keymouse_bridge_f.Common.{
  ℕ, suc, ◌+◌, ◌≡◌, refl, List, [], ◌∷◌, false, ◌==◌, if◌then◌else◌, Result, ok, err,
}
use rp2350_keymouse_bridge_f.Common.Int.{pos}
use rp2350_keymouse_bridge_f.Common.Heapless.{list_vec}
use rp2350_keymouse_bridge_f.Commands.{Command, left}
use rp2350_keymouse_bridge_f.Commands.Owned.{OwnedCommand, wait_ms, mouse_wheel, mouse_button_down}
use rp2350_keymouse_bridge_f.Input.Mouse.{InputState, new_input, button_down}
use rp2350_keymouse_bridge_f.Batch.{validate_command}
use rp2350_keymouse_bridge_f.Errors.{ErrorCode, hid_write}
use rp2350_keymouse_bridge_f.Execution.Monad.{Backend, World}
use rp2350_keymouse_bridge_f.Execution.{acked, execute_command_once, execute_command}
use rp2350_keymouse_bridge_f.Execution.Effects.{effect, Leaves}
use rp2350_keymouse_bridge_f.Execution.Committed.{execute_command_once-effect}
use rp2350_keymouse_bridge_f.Execution.Recovery.{IsSafe, execute_command-IsSafe}
use rp2350_keymouse_bridge_f.Execution.Shadow.{execute_command_once-shadow}
use rp2350_keymouse_bridge_f.Execution.Batch.{
  BatchBackend, execute_batch, BatchOutcome, execute_batch-BatchOutcome,
}

-- A backend that counts its writes, and whose third write fails.
abbrev write : ℕ → ℕ × Result ErrorCode (Unit {0})
write n = (suc n, if n == 2 then err hid_write else ok tt)

abbrev counting : Backend ℕ
counting = record {
  check_cancelled = λ n. (n, ok tt);
  delay = λ ms n. (n, ok tt);
  send_keyboard = λ k n. write n;
  send_mouse = λ m x y wheel n. write n;
}

abbrev start : World ℕ
start = record { backend = 0; input = new_input }

abbrev click : Command
click = Command.mouse_click left

execute_command_once-effect_example :
    Leaves (effect click start.input) (execute_command_once list_vec counting click 2 false start)
execute_command_once-effect_example =
    execute_command_once-effect list_vec counting click 2 false start

execute_command-IsSafe_example :
    IsSafe counting
      (execute_command_once list_vec counting click 2 false (record start { backend = 1 }))
      (execute_command list_vec counting click 2 false (record start { backend = 1 }))
execute_command-IsSafe_example =
    execute_command-IsSafe list_vec counting click 2 false (record start { backend = 1 })

abbrev pressed_left : InputState
pressed_left = record new_input { mouse = button_down new_input.mouse left }

left_accepted : validate_command list_vec start.input (mouse_button_down left) ≡ ok pressed_left
unfolding validate_command
left_accepted = refl

execute_command_once-shadow_example :
    Leaves pressed_left
      (execute_command_once list_vec counting (Command.mouse_button_down left) 2 false start)
execute_command_once-shadow_example =
    execute_command_once-shadow list_vec counting (mouse_button_down left) 2 false start
      pressed_left left_accepted

abbrev counting_batch : BatchBackend ℕ
counting_batch = record {
  execute = λ c n. (suc n, if n == 1 then err hid_write else ok acked);
  reset_inputs = λ n. n + 100;
}

abbrev wheels : List OwnedCommand
wheels = wait_ms 5 ∷ mouse_wheel (pos 1) ∷ wait_ms 6 ∷ []

execute_batch-BatchOutcome_example :
    BatchOutcome counting_batch 0 wheels (execute_batch counting_batch wheels 0)
execute_batch-BatchOutcome_example = execute_batch-BatchOutcome counting_batch wheels 0

-- The second command fails, and the third is not executed.
batch_stops : execute_batch counting_batch wheels 0 ≡ (102, err hid_write)
unfolding execute_batch
batch_stops = refl
