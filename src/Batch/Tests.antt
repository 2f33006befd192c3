-- ===== src/Batch/Tests.antt =====
-- src/batch.rs: examples.
use rp2350_keymouse_bridge_f.Common.{◌≡◌, refl, arith, [], ◌∷◌, ◌++◌, ok}
use rp2350_keymouse_bridge_f.Common.Heapless.{list_vec, list_vec-IsHeapless}
use rp2350_keymouse_bridge_f.Commands.Owned.{wait_ms, payload_len}
use rp2350_keymouse_bridge_f.Input.Mouse.{new_input}
use rp2350_keymouse_bridge_f.Batch.{BatchCollector, begin, validate_command, push}
use rp2350_keymouse_bridge_f.Batch.Collected.{IsCollector, begin-IsCollector, push-IsCollector}

wait_fits : payload_len (wait_ms 5) ≡ 4
unfolding payload_len
wait_fits = refl

abbrev one_wait : BatchCollector
one_wait = record { commands = wait_ms 5 ∷ []; payload_bytes = 4; shadow = new_input }

push_wait : push list_vec (begin new_input) (wait_ms 5) ≡ ok one_wait
unfolding push begin validate_command payload_len list_vec new_input
push_wait = refl

push-IsCollector_example :
    IsCollector list_vec new_input one_wait
    × (one_wait.commands ≡ (begin new_input).commands ++ wait_ms 5 ∷ [])
push-IsCollector_example =
    push-IsCollector list_vec list_vec-IsHeapless {initial = new_input} {b = begin new_input}
      (begin-IsCollector list_vec new_input) (wait_ms 5) (omega (arith, wait_fits)) {b' = one_wait}
      push_wait
